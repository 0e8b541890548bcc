-- ===== src/Framebuffer/Tests.antt =====
-- A terminal of 8 by 40 pixels (kernel/src/framebuffer.rs).
use snek_os.Prelude.{
  ℕ, ◌+◌, ◌<◌, List, [], ◌∷◌, none, some, ltb, length, replicate, get_elem?, ◌≡◌, refl, inl, arith,
}
use mathlib.Core.Option.{some-injective}
use mathlib.Core.Path.{subst}
use snek_os.Framebuffer.{Display, Glyph, Screen, u8, write_str, scroll}
use snek_os.Framebuffer.Mirror.{Same, cached, plain, write_str-Same}
use snek_os.Framebuffer.Fits.{IsCanvas}
use snek_os.Framebuffer.Printing.{IsGlyph, IsMonospaced, IsPrinting, write_str-Prints}
use snek_os.Framebuffer.Scroll.{line_bytes, upper_bytes, scroll-lines}

abbrev block : Glyph
block = record { width = 3; raster = (255 ∷ 255 ∷ 255 ∷ []) ∷ (255 ∷ 0 ∷ 255 ∷ []) ∷ [] }

abbrev screen : Screen
screen = record {
  get_raster = λ c. some block;
  blend = λ a old new. new;
  is_bright = λ r g b. ltb 200 r;
}

block-IsGlyph : IsGlyph 3 block
block-IsGlyph = record {
  width = refl;
  rows = omega arith;
  narrow = (omega arith, (omega arith, tt));
}

mono : IsMonospaced screen 3
mono = record {
  glyphs = λ c g e. subst (IsGlyph 3) (some-injective block g e) block-IsGlyph;
  backup = (block, refl);
}

abbrev display : Display
display = record {
  buffer = replicate 320 7;
  cache = none;
  width = 8;
  height = 40;
  stride = 8;
  bytes_per_pixel = 1;
  pixel_format = u8;
  x_pos = 1;
  y_pos = 1;
  last_char_width = 0;
}

display-IsCanvas : IsCanvas display
display-IsCanvas = record {
  size = refl;
  depth = (omega arith, omega arith);
  known = refl;
  wide = omega arith;
  high = omega arith;
}

display-IsPrinting : IsPrinting 3 display
display-IsPrinting = record {
  canvas = display-IsCanvas;
  room = omega arith;
  column = (0, refl);
  x_within = omega arith;
  y_within = omega arith;
  last = inl refl;
}

-- Three characters, which take two lines, a line feed and a backspace.
abbrev text : List ℕ
text = 65 ∷ 66 ∷ 67 ∷ 10 ∷ 68 ∷ 8 ∷ []

write_str-Same_example :
    Same (write_str screen text (cached display)) (write_str screen text (plain display))
write_str-Same_example = write_str-Same screen text display

write_str-Prints_example :
    (b' : Display) × (write_str screen text (plain display) ≡ some (plain b'))
    × (write_str screen text (cached display) ≡ some (cached b'))
    × IsPrinting 3 b'
write_str-Prints_example = write_str-Prints screen 3 mono text display display-IsPrinting

scroll-lines_example :
    (l : List ℕ) × (scroll (plain display) ≡ some (plain (record display { buffer = l })))
    × (scroll (cached display) ≡ some (cached (record display { buffer = l })))
    × (length l ≡ 320)
    × ((i : ℕ)
        → i < upper_bytes display
        → get_elem? l i ≡ get_elem? display.buffer (line_bytes display + i))
    × (get_elem? l (upper_bytes display) ≡ get_elem? display.buffer (upper_bytes display))
    × ((i : ℕ) → upper_bytes display < i → i < 320 → get_elem? l i ≡ some 0)
scroll-lines_example = scroll-lines display display-IsCanvas (omega arith)
