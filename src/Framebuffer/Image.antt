-- ===== src/Framebuffer/Image.antt =====
-- kernel/src/framebuffer.rs, `early_init`, `write_rgba` and `draw_iter`: setting up and pictures.
use snek_os.Prelude.{
  ℕ, zero, suc, ◌+◌, ◌-◌, ◌*◌, ◌/◌, Bool, true, false, List, [], ◌∷◌, Option, none, some,
  if◌then◌else◌, ◌==◌, ◌&&◌, leb,
}
use snek_os.Framebuffer.{
  Display, PixelFormat, rgb, bgr, u8, unknown, Screen, ◌>>=◌, write_pixel, border_padding,
  line_spacing,
}

-- What the boot loader tells of the frame buffer.
pub record Info : Type 0 where
  pub memory : List ℕ
  pub width : ℕ
  pub height : ℕ
  pub bpp : ℕ
  pub pitch : ℕ
  pub red_mask_shift : ℕ
  pub green_mask_shift : ℕ
  pub blue_mask_shift : ℕ

unfoldable pub pixel_format : ℕ → ℕ → ℕ → PixelFormat
pixel_format r g b =
    if (r == 0x00) && (g == 0x08) && (b == 0x10)
    then rgb
    else if (r == 0x10) && (g == 0x08) && (b == 0x00)
    then bgr
    else if (r == 0x00) && (g == 0x00) && (b == 0x00)
    then u8
    else unknown

abbrev pub configure : Info → Display → Display
configure info d = record d {
  buffer = info.memory;
  width = info.width;
  height = info.height;
  bytes_per_pixel = info.bpp / 8;
  stride = info.pitch / 4;
  pixel_format = pixel_format info.red_mask_shift info.green_mask_shift info.blue_mask_shift;
}

abbrev pub Colour : Type 0
Colour = ℕ × ℕ × ℕ × ℕ

abbrev pub step_right : ℕ → Display → Display
step_right width d =
    if leb width (d.x_pos + 1 - border_padding)
    then record d { x_pos = border_padding; y_pos = d.y_pos + 1 }
    else record d { x_pos = d.x_pos + 1 }

module _ (screen : Screen) where
  -- `for _ in 0..count`, and whether the picture is complete.
  unfoldable pub plot : ℕ → ℕ → Colour → ℕ → Display → Option (Bool × Display)
  plot width height (r, g, b, a) zero d = some (false, d)
  plot width height (r, g, b, a) (suc count) d =
      write_pixel screen d d.x_pos d.y_pos r g b a >>= λ d'.
      let next = step_right width d' in
      let rest = plot width height (r, g, b, a) count next in
      if leb height next.y_pos then some (true, next) else rest

  -- `'outer: loop`, over the runs; the end of the bytes is a panic.
  unfoldable pub runs : ℕ → ℕ → List ℕ → Display → Option Display
  runs width height (c0 ∷ c1 ∷ r ∷ g ∷ b ∷ a ∷ bytes) d =
      plot width height (r, g, b, a) (c0 + 256 * c1) d >>= λ result.
      let rest = runs width height bytes result.1 in if result.0 then some result.1 else rest
  runs width height _ d = none

  abbrev pub le32 : ℕ → ℕ → ℕ → ℕ → ℕ
  le32 b0 b1 b2 b3 = b0 + 256 * b1 + 65536 * b2 + 16777216 * b3

  unfoldable pub write_rgba : List ℕ → Display → Option Display
  write_rgba (w0 ∷ w1 ∷ w2 ∷ w3 ∷ h0 ∷ h1 ∷ h2 ∷ h3 ∷ bytes) d =
      runs (le32 w0 w1 w2 w3) (le32 h0 h1 h2 h3) bytes d >>= λ d'.
      some (record d' { x_pos = border_padding; y_pos = d'.y_pos + line_spacing })
  write_rgba _ d = none

  -- `for pixel in pixels`: a place and a colour.
  unfoldable pub draw_iter : List (ℕ × ℕ × ℕ × ℕ × ℕ) → Display → Option Display
  draw_iter [] d = some d
  draw_iter ((x, y, r, g, b) ∷ pixels) d = write_pixel screen d x y r g b 255 >>= draw_iter pixels
