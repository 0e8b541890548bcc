-- ===== src/Framebuffer/Pixel.antt =====
-- kernel/src/framebuffer.rs: `Display` and `write_pixel`.
use snek_os.Prelude.{
  ℕ, ◌+◌, ◌*◌, Bool, List, [], ◌∷◌, ◌++◌, Option, none, some, if◌then◌else◌, ◌==◌, leb, length,
  replicate, take, drop,
}

-- An `Option` of which `none` is a panic.
infixl 5 ◌>>=◌
abbrev pub ◌>>=◌ : {A B : Type 0} → Option A → (A → Option B) → Option B
none >>= f = none
(some a) >>= f = f a

pub data PixelFormat : Type 0 where
  rgb bgr u8 unknown : PixelFormat

pub record Display : Type 0 where
  pub buffer : List ℕ
  pub cache : Option (List ℕ)
  pub width : ℕ
  pub height : ℕ
  pub stride : ℕ
  pub bytes_per_pixel : ℕ
  pub pixel_format : PixelFormat
  pub x_pos : ℕ
  pub y_pos : ℕ
  pub last_char_width : ℕ

pub record Glyph : Type 0 where
  pub width : ℕ
  pub raster : List (List ℕ)

-- The crate `noto_sans_mono_bitmap`, and what is computed in floating point: the blend of an alpha, an old
-- and a new value, and whether the luminosity of a colour is above 200.
pub record Screen : Type 0 where
  pub get_raster : ℕ → Option Glyph
  pub blend : ℕ → ℕ → ℕ → ℕ
  pub is_bright : ℕ → ℕ → ℕ → Bool

abbrev pub blanked : Option (List ℕ) → Option (List ℕ)
blanked none = none
blanked (some cache) = some (replicate (length cache) 0)

-- A slice, and a write to one.
abbrev pub slice : List ℕ → ℕ → ℕ → Option (List ℕ)
slice l offset n = if leb (offset + n) (length l) then some (take n (drop offset l)) else none

abbrev pub splice : List ℕ → ℕ → List ℕ → Option (List ℕ)
splice l offset bytes =
    if leb (offset + length bytes) (length l)
    then some (take offset l ++ (bytes ++ drop (offset + length bytes) l))
    else none

abbrev pub view : Display → Option (List ℕ) → List ℕ
view d none = d.buffer
view d (some cache) = cache

-- The three channels that a pixel's bytes hold.
abbrev pub channels : PixelFormat → List ℕ → Option (ℕ × ℕ × ℕ)
channels rgb (b0 ∷ b1 ∷ b2 ∷ bs) = some (b0, b1, b2)
channels bgr (b0 ∷ b1 ∷ b2 ∷ bs) = some (b2, b1, b0)
channels u8 (b0 ∷ bs) = some (b0, b0, b0)
channels _ _ = none

module _ (screen : Screen) where
  abbrev pub blend_all : ℕ → ℕ × ℕ × ℕ → ℕ × ℕ × ℕ → ℕ × ℕ × ℕ
  blend_all a (r0, g0, b0) (r, g, b) =
      (screen.blend a r0 r, screen.blend a g0 g, screen.blend a b0 b)

  -- The colour over what is there.
  abbrev pub shade : Display → ℕ → ℕ × ℕ × ℕ → ℕ → Option (ℕ × ℕ × ℕ)
  shade d offset new a = if a == 255 then some new else (do
    bytes ← slice (view d d.cache) offset d.bytes_per_pixel
    old ← channels d.pixel_format bytes
    some (blend_all a old new))

  abbrev pub color : PixelFormat → ℕ × ℕ × ℕ → Option (List ℕ)
  color rgb (r, g, b) = some (r ∷ g ∷ b ∷ 0 ∷ [])
  color bgr (r, g, b) = some (b ∷ g ∷ r ∷ 0 ∷ [])
  color u8 (r, g, b) = some ((if screen.is_bright r g b then 0xf else 0) ∷ 0 ∷ 0 ∷ 0 ∷ [])
  color unknown _ = none

  -- `&color[..bytes_per_pixel]`
  abbrev pub cut : ℕ → List ℕ → Option (List ℕ)
  cut n bytes = if leb n (length bytes) then some (take n bytes) else none

  abbrev pub mirrored : Option (List ℕ) → ℕ → List ℕ → Option (Option (List ℕ))
  mirrored none offset bytes = some none
  mirrored (some cache) offset bytes = do cache' ← splice cache offset bytes; some (some cache')

  abbrev pub put_color : Display → ℕ → List ℕ → Option Display
  put_color d offset bytes = do
    buffer' ← splice d.buffer offset bytes
    cache' ← mirrored d.cache offset bytes
    some (record d { buffer = buffer'; cache = cache' })

  unfoldable pub write_pixel : Display → ℕ → ℕ → ℕ → ℕ → ℕ → ℕ → Option Display
  write_pixel d x y r g b a =
      let offset = (y * d.stride + x) * d.bytes_per_pixel in
      if a == 0 then some d else (do
        new ← shade d offset (r, g, b) a
        full ← color d.pixel_format new
        bytes ← cut d.bytes_per_pixel full
        put_color d offset bytes)
