-- ===== src/Framebuffer/Scroll.antt =====
-- What scrolling makes of the bytes on the screen (kernel/src/framebuffer.rs, `scroll`).
use snek_os.Prelude.{
  ℕ, ◌+◌, ◌-◌, ◌*◌, ◌<◌, ◌≤◌, List, ◌++◌, get_elem?, some, leb-true, length, take, drop, replicate,
  length-append, length-take, length-drop, length-replicate, get_elem?-append_lt,
  get_elem?-append_ge, get_elem?-drop, get_elem?-take_lt, get_elem?-replicate_lt, arith, ◌≡◌, refl,
  sym, ap, ◌∙◌,
}
use native.Mathlib.Nat.{add-mul, mul-add, mul-pos}
use snek_os.Framebuffer.{Display, scroll, scrolled, line_height}
use snek_os.Framebuffer.Mirror.{plain, cached, Same-some, scroll-Same}
use snek_os.Framebuffer.Fits.{IsCanvas}

-- The bytes of one line, and of all but one.
abbrev pub line_bytes : Display → ℕ
line_bytes d = d.stride * line_height * d.bytes_per_pixel

abbrev pub upper_bytes : Display → ℕ
upper_bytes d = d.stride * (d.height - line_height) * d.bytes_per_pixel

split : (s h k : ℕ) → line_height ≤ h → s * (h - line_height) * k + s * line_height * k ≡ s * h * k
split s h k le =
    sym (add-mul (s * (h - line_height)) (s * line_height) k)
    ∙ ap (λ x. x * k)
        (sym (mul-add s (h - line_height) line_height) ∙ ap (λ x. s * x) (omega arith))

module _ (l : List ℕ) (n m : ℕ) (total : m + n ≡ length l) (pos : 0 < n) where
  abbrev moved_up : List ℕ
  moved_up = drop n l ++ drop (length l - n) l

  abbrev cleared : List ℕ
  cleared = take (m + 1) moved_up ++ replicate (length moved_up - (m + 1)) 0

  moved_up-length : length moved_up ≡ length l
  moved_up-length = omega (
    arith,
    total,
    length-append (drop n l) (drop (length l - n) l),
    length-drop n l,
    length-drop (length l - n) l,
  )

  scrolled-cleared : scrolled l n m ≡ some cleared
  scrolled-cleared =
      rw
        (
          leb-true n (length l) (omega (arith, total)),
          leb-true (m + 1) (length moved_up) (omega (arith, total, pos, moved_up-length)),
        )
        refl

  kept-length : length (take (m + 1) moved_up) ≡ m + 1
  kept-length = omega (arith, length-take (m + 1) moved_up, moved_up-length, total, pos)

  cleared-upper : (i : ℕ) → i < m → get_elem? cleared i ≡ get_elem? l (n + i)
  cleared-upper i lt =
      get_elem?-append_lt (take (m + 1) moved_up) (replicate (length moved_up - (m + 1)) 0) i
        (omega (arith, kept-length))
      ∙ get_elem?-take_lt (m + 1) moved_up i (omega arith)
      ∙ get_elem?-append_lt (drop n l) (drop (length l - n) l) i
          (omega (arith, length-drop n l, total))
      ∙ get_elem?-drop n l i (n + i) refl

  cleared-first : get_elem? cleared m ≡ get_elem? l m
  cleared-first =
      get_elem?-append_lt (take (m + 1) moved_up) (replicate (length moved_up - (m + 1)) 0) m
        (omega (arith, kept-length))
      ∙ get_elem?-take_lt (m + 1) moved_up m (omega arith)
      ∙ get_elem?-append_ge (drop n l) (drop (length l - n) l) m 0
          (omega (arith, length-drop n l, total))
      ∙ get_elem?-drop (length l - n) l 0 m (omega (arith, total))

  cleared-lower : (i : ℕ) → m < i → i < length l → get_elem? cleared i ≡ some 0
  cleared-lower i lo hi =
      get_elem?-append_ge (take (m + 1) moved_up) (replicate (length moved_up - (m + 1)) 0) i
        (i - (m + 1)) (omega (arith, kept-length))
      ∙ get_elem?-replicate_lt (length moved_up - (m + 1)) (i - (m + 1)) 0
          (omega (arith, moved_up-length))

  cleared-length : length cleared ≡ length l
  cleared-length = omega (
    arith,
    length-append (take (m + 1) moved_up) (replicate (length moved_up - (m + 1)) 0),
    kept-length,
    length-replicate {A = ℕ} (length moved_up - (m + 1)) 0,
    moved_up-length,
    total,
    pos,
  )

-- On a screen with a known format of one to four bytes for each pixel, whose buffer holds its pixels,
-- higher than a line and no wider than its stride, which is not 0, scrolling moves every line up by one, and clears the last line
-- but for its first byte, which stays. It does so with a cache of the buffer, which holds the same
-- afterwards, and without one.
pub scroll-lines :
    (b : Display)
    → IsCanvas b
    → 0 < b.stride
    → (l : List ℕ) × (scroll (plain b) ≡ some (plain (record b { buffer = l })))
      × (scroll (cached b) ≡ some (cached (record b { buffer = l })))
      × (length l ≡ length b.buffer)
      × ((i : ℕ) → i < upper_bytes b → get_elem? l i ≡ get_elem? b.buffer (line_bytes b + i))
      × (get_elem? l (upper_bytes b) ≡ get_elem? b.buffer (upper_bytes b))
      × ((i : ℕ) → upper_bytes b < i → i < length b.buffer → get_elem? l i ≡ some 0)
unfolding scroll
scroll-lines b h pos =
    let n = line_bytes b in
    let m = upper_bytes b in
    let high : line_height ≤ b.height = omega (arith, h.high) in
    let total : m + n ≡ length b.buffer =
      split b.stride b.height b.bytes_per_pixel high ∙ sym h.size in
    let some_bytes : 0 < n = mul-pos (mul-pos pos (omega arith)) h.depth.0 in
    let b' = record b { buffer = cleared b.buffer n m total some_bytes } in
    let e : scroll (plain b) ≡ some (plain b') =
      rw (leb-true line_height b.height high, scrolled-cleared b.buffer n m total some_bytes)
        refl in
    (
      cleared b.buffer n m total some_bytes,
      e,
      Same-some (scroll (cached b)) (scroll (plain b)) b' (scroll-Same b) e,
      cleared-length b.buffer n m total some_bytes,
      cleared-upper b.buffer n m total some_bytes,
      cleared-first b.buffer n m total some_bytes,
      cleared-lower b.buffer n m total some_bytes,
    )
