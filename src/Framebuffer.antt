-- ===== src/Framebuffer.antt =====
-- kernel/src/framebuffer.rs: the screen as a terminal.
pub mod Pixel
pub mod Mirror
pub mod Fits
pub mod Printing
pub mod Scroll
pub mod Image
mod Tests
use snek_os.Prelude.{
  ℕ, zero, suc, ◌+◌, ◌-◌, ◌*◌, Bool, true, false, List, [], ◌∷◌, ◌++◌, Option, none, some,
  if◌then◌else◌, ◌==◌, ltb, leb, length, replicate, take, drop,
}
unfoldable pub use Pixel.*

abbrev pub line_spacing : ℕ
line_spacing = 2

abbrev pub border_padding : ℕ
border_padding = 1

abbrev pub line_height : ℕ
line_height = 16 + line_spacing

abbrev pub backup_char : ℕ
backup_char = 0xFFFD

-- `copy_within(from.., 0)` and `[from..].fill(0)`; `none` is a panic.
abbrev pub copy_down : List ℕ → ℕ → Option (List ℕ)
copy_down l from =
    if leb from (length l) then some (drop from l ++ drop (length l - from) l) else none

abbrev pub fill_from : List ℕ → ℕ → Option (List ℕ)
fill_from l from =
    if leb from (length l) then some (take from l ++ replicate (length l - from) 0) else none

abbrev pub carriage_return : Display → Display
carriage_return d = record d { x_pos = border_padding }

-- `copy_from_slice` panics if the lengths differ.
abbrev pub shown : Display → List ℕ → Option Display
shown d cache =
    if length d.buffer == length cache
    then some (record d { buffer = cache; cache = some cache })
    else none

abbrev pub scrolled : List ℕ → ℕ → ℕ → Option (List ℕ)
scrolled l next_line_offset bytes = do l' ← copy_down l next_line_offset; fill_from l' (bytes + 1)

abbrev pub scroll_by : Display → Option (List ℕ) → ℕ → ℕ → Option Display
scroll_by d (some cache) next_line_offset bytes = do
  cache' ← scrolled cache next_line_offset bytes
  shown d cache'
scroll_by d none next_line_offset bytes = do
  buffer' ← scrolled d.buffer next_line_offset bytes
  some (record d { buffer = buffer' })

-- A screen lower than a line would make the height negative.
unfoldable pub scroll : Display → Option Display
scroll d =
    let next_line_offset = d.stride * line_height * d.bytes_per_pixel in
    let bytes = d.stride * (d.height - line_height) * d.bytes_per_pixel in
    if leb line_height d.height then scroll_by d d.cache next_line_offset bytes else none

abbrev pub line_up : Display → Display
line_up d = record d { y_pos = d.y_pos - line_height }

unfoldable pub newline : Display → Option Display
newline d =
    let d' = carriage_return (record d { y_pos = d.y_pos + line_height }) in
    if leb d.height (d'.y_pos + line_height)
    then (do d'' ← scroll d'; some (line_up d''))
    else some d'

abbrev pub clear : Display → Display
clear d = record d {
  x_pos = border_padding;
  y_pos = border_padding;
  buffer = replicate (length d.buffer) 0;
  cache = blanked d.cache;
}

module _ (screen : Screen) where
  -- `for x in 0..n`
  unfoldable pub erase_row : ℕ → ℕ → ℕ → Display → Option Display
  erase_row zero x y d = some d
  erase_row (suc n) x y d = do d' ← write_pixel screen d x y 0 0 0 255; erase_row n (x + 1) y d'

  unfoldable pub erase : ℕ → ℕ → ℕ → ℕ → Display → Option Display
  erase zero n x y d = some d
  erase (suc rows) n x y d = do d' ← erase_row n x y d; erase rows n x (y + 1) d'

  unfoldable pub draw_row : List ℕ → ℕ → ℕ → Display → Option Display
  draw_row [] x y d = some d
  draw_row (b ∷ bs) x y d = do d' ← write_pixel screen d x y b b b 255; draw_row bs (x + 1) y d'

  unfoldable pub draw : List (List ℕ) → ℕ → ℕ → Display → Option Display
  draw [] x y d = some d
  draw (row ∷ rows) x y d = do d' ← draw_row row x y d; draw rows x (y + 1) d'

  abbrev pub get_char_raster : ℕ → Option Glyph
  get_char_raster c = elim (screen.get_raster c) [
    | some g ↦ some g
    | none ↦ screen.get_raster backup_char
  ]

  -- The backspace. Going left of the screen would make the position negative.
  unfoldable pub backspace : Display → Option Display
  backspace d =
      let d' = record d { x_pos = d.x_pos - d.last_char_width } in
      if leb d.x_pos border_padding
      then some d
      else if ltb d.x_pos d.last_char_width
      then none
      else erase line_height d.last_char_width d'.x_pos d'.y_pos d'

  abbrev pub wrapped : Display → ℕ → Option Display
  wrapped d width = if leb d.width (d.x_pos + width) then newline d else some d

  abbrev pub moved : ℕ → Display → Display
  moved width d = record d { last_char_width = width; x_pos = d.x_pos + width }

  unfoldable pub write_glyph : Display → Glyph → Option Display
  write_glyph d g = do
    d' ← wrapped d g.width
    d'' ← draw g.raster d'.x_pos d'.y_pos d'
    some (moved g.width d'')

  unfoldable pub write_char : Display → ℕ → Option Display
  write_char d c =
      if c == 10
      then newline d
      else if c == 13
      then some (carriage_return d)
      else if c == 8
      then backspace d
      else (do g ← get_char_raster c; write_glyph d g)

  unfoldable pub write_str : List ℕ → Display → Option Display
  write_str [] d = some d
  write_str (c ∷ cs) d = do d' ← write_char d c; write_str cs d'
