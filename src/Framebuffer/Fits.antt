-- ===== src/Framebuffer/Fits.antt =====
-- Printing stays on the screen (kernel/src/framebuffer.rs, `write_pixel`, `scroll`, `newline`, `write_char`).
use snek_os.Prelude.{
  ℕ, zero, suc, ◌+◌, ◌*◌, ◌<◌, ◌≤◌, Bool, true, false, List, [], ◌∷◌, ◌++◌, Option, some,
  if◌then◌else◌, leb, leb-true, length, take, drop, length-append, length-take, length-drop, All,
  arith, ◌≡◌, refl, ◌∙◌,
}
use mathlib.Core.Bool.{false≢true}
use native.Mathlib.Nat.{suc-mul, mul_comm, mul-le-mul_right}
use snek_os.Framebuffer.{
  Display, Screen, PixelFormat, rgb, bgr, u8, unknown, ◌>>=◌, splice, color, write_pixel, erase_row,
  erase, draw_row, draw, line_height,
}
use snek_os.Framebuffer.Mirror.{plain}

abbrev pub is_known : PixelFormat → Bool
is_known unknown = false
is_known _ = true

-- The buffer has the bytes of all its pixels, four at most for each.
pub record IsCanvas (d : Display) : Type 0 where
  pub size : length d.buffer ≡ d.stride * d.height * d.bytes_per_pixel
  pub depth : (0 < d.bytes_per_pixel) × (d.bytes_per_pixel ≤ 4)
  pub known : is_known d.pixel_format ≡ true
  pub wide : d.width ≤ d.stride
  pub high : line_height < d.height

-- What a drawing makes of a screen: other bytes in the buffer, as many as before.
abbrev pub Redrawn : Display → Option Display → Type 0
Redrawn b m =
    (l : List ℕ) × (m ≡ some (plain (record b { buffer = l }))) × (length l ≡ length b.buffer)

redrawn-IsCanvas :
    (b : Display) (l : List ℕ)
    → IsCanvas b
    → length l ≡ length b.buffer
    → IsCanvas (record b { buffer = l })
redrawn-IsCanvas b l h e = record {
  size = e ∙ h.size;
  depth = h.depth;
  known = h.known;
  wide = h.wide;
  high = h.high;
}

Redrawn-bind :
    (b : Display) (m : Option Display) (f : Display → Option Display)
    → IsCanvas b
    → Redrawn b m
    → ((b' : Display)
        → IsCanvas b'
        → (b'.stride ≡ b.stride) × (b'.height ≡ b.height)
        → Redrawn b' (f (plain b')))
    → Redrawn b (m >>= f)
Redrawn-bind b m f h (l, e, len) k =
    let (l', e', len') = k (record b { buffer = l }) (redrawn-IsCanvas b l h len) (refl, refl) in
    (l', rw e e', len' ∙ len)

pixel_in : (x y s h k : ℕ) → x < s → y < h → (y * s + x) * k + k ≤ s * h * k
pixel_in x y s h k hx hy =
    let rows = mul-le-mul_right s hy in
    let row : suc (y * s + x) ≤ s * h = omega (arith, suc-mul y s, mul_comm h s, rows) in
    omega (arith, mul-le-mul_right k row, suc-mul (y * s + x) k)

full_color :
    (screen : Screen) (f : PixelFormat) (c : ℕ × ℕ × ℕ)
    → is_known f ≡ true
    → (l : List ℕ) × (color screen f c ≡ some l) × (length l ≡ 4)
full_color screen rgb (r, g, b) h = (r ∷ g ∷ b ∷ 0 ∷ [], refl, refl)
full_color screen bgr (r, g, b) h = (b ∷ g ∷ r ∷ 0 ∷ [], refl, refl)
full_color screen u8 (r, g, b) h =
    ((if screen.is_bright r g b then 0xf else 0) ∷ 0 ∷ 0 ∷ 0 ∷ [], refl, refl)
full_color screen unknown c h = absurd (false≢true h)

splice-fits :
    (l : List ℕ) (n : ℕ) (bytes : List ℕ)
    → n + length bytes ≤ length l
    → (l' : List ℕ) × (splice l n bytes ≡ some l') × (length l' ≡ length l)
splice-fits l n bytes le = (
  take n l ++ (bytes ++ drop (n + length bytes) l),
  rw (leb-true (n + length bytes) (length l) le) refl,
  omega (
    arith,
    le,
    length-append (take n l) (bytes ++ drop (n + length bytes) l),
    length-append bytes (drop (n + length bytes) l),
    length-take n l,
    length-drop (n + length bytes) l,
  ),
)

module _ (screen : Screen) where
  write_pixel-Redrawn :
      (b : Display) (x y r g bl : ℕ)
      → IsCanvas b
      → x < b.stride
      → y < b.height
      → Redrawn b (write_pixel screen (plain b) x y r g bl 255)
  unfolding write_pixel
  write_pixel-Redrawn b x y r g bl h hx hy =
      let k = b.bytes_per_pixel in
      let (full, e, four) = full_color screen b.pixel_format (r, g, bl) h.known in
      let cut_length : length (take k full) ≡ k =
        omega (arith, length-take k full, four, h.depth.1) in
      let inside = pixel_in x y b.stride b.height k hx hy in
      let (l, e', len) =
        splice-fits b.buffer ((y * b.stride + x) * k) (take k full)
          (omega (arith, inside, cut_length, h.size)) in
      let fits : leb k (length full) ≡ true =
        leb-true k (length full) (omega (arith, four, h.depth.1)) in
      (l, rw (e, fits, e') refl, len)

  erase_row-Redrawn :
      (n x y : ℕ) (b : Display)
      → IsCanvas b
      → x + n ≤ b.stride
      → y < b.height
      → Redrawn b (erase_row screen n x y (plain b))
  unfolding erase_row
  erase_row-Redrawn zero x y b h hx hy = (b.buffer, refl, refl)
  erase_row-Redrawn (suc n) x y b h hx hy =
      Redrawn-bind b (write_pixel screen (plain b) x y 0 0 0 255) (erase_row screen n (x + 1) y) h
        (write_pixel-Redrawn b x y 0 0 0 h (omega arith) hy)
        (λ b' h' same.
          erase_row-Redrawn n (x + 1) y b' h' (omega (arith, same.0)) (omega (arith, same.1)))

  pub erase-Redrawn :
      (rows n x y : ℕ) (b : Display)
      → IsCanvas b
      → x + n ≤ b.stride
      → y + rows ≤ b.height
      → Redrawn b (erase screen rows n x y (plain b))
  unfolding erase
  erase-Redrawn zero n x y b h hx hy = (b.buffer, refl, refl)
  erase-Redrawn (suc rows) n x y b h hx hy =
      Redrawn-bind b (erase_row screen n x y (plain b)) (erase screen rows n x (y + 1)) h
        (erase_row-Redrawn n x y b h hx (omega arith))
        (λ b' h' same.
          erase-Redrawn rows n x (y + 1) b' h' (omega (arith, same.0)) (omega (arith, same.1)))

  draw_row-Redrawn :
      (bs : List ℕ) (x y : ℕ) (b : Display)
      → IsCanvas b
      → x + length bs ≤ b.stride
      → y < b.height
      → Redrawn b (draw_row screen bs x y (plain b))
  unfolding draw_row
  draw_row-Redrawn [] x y b h hx hy = (b.buffer, refl, refl)
  draw_row-Redrawn (v ∷ bs) x y b h hx hy =
      Redrawn-bind b (write_pixel screen (plain b) x y v v v 255) (draw_row screen bs (x + 1) y) h
        (write_pixel-Redrawn b x y v v v h (omega arith) hy)
        (λ b' h' same.
          draw_row-Redrawn bs (x + 1) y b' h' (omega (arith, same.0)) (omega (arith, same.1)))

  pub draw-Redrawn :
      (w : ℕ) (rows : List (List ℕ)) (x y : ℕ) (b : Display)
      → All (λ row. length row ≤ w) rows
      → IsCanvas b
      → x + w ≤ b.stride
      → y + length rows ≤ b.height
      → Redrawn b (draw screen rows x y (plain b))
  unfolding draw
  draw-Redrawn w [] x y b narrow h hx hy = (b.buffer, refl, refl)
  draw-Redrawn w (row ∷ rows) x y b (short, narrow) h hx hy =
      Redrawn-bind b (draw_row screen row x y (plain b)) (draw screen rows x (y + 1)) h
        (draw_row-Redrawn row x y b h (omega arith) (omega arith))
        (λ b' h' same.
          draw-Redrawn w rows x (y + 1) b' narrow h' (omega (arith, same.0))
            (omega (arith, same.1)))
