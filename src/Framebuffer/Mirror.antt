-- ===== src/Framebuffer/Mirror.antt =====
-- The screen with a cache against the screen without one (kernel/src/framebuffer.rs).
use snek_os.Prelude.{
  ℕ, zero, suc, ◌+◌, ◌-◌, ◌*◌, Bool-cases, true, List, [], ◌∷◌, ◌++◌, Option, Option-cases, none,
  some, ◌==◌, ltb, leb, length, take, drop, replicate, length-append, length-drop, length-take,
  length-replicate, leb→le, arith, ◌≡◌, refl, sym, ap, ◌∙◌, inl, inr,
}
use mathlib.Core.Option.{some-injective, none-ne-some}
use snek_os.Framebuffer.{
  Display, Glyph, Screen, ◌>>=◌, splice, color, cut, shade, put_color, write_pixel, scroll,
  scrolled, newline, carriage_return, erase_row, erase, draw_row, draw, get_char_raster, backspace,
  wrapped, moved, write_glyph, write_char, write_str, line_height, border_padding, line_up, shown,
  copy_down, fill_from,
}

-- A screen with a cache of its buffer, and without one.
abbrev pub cached : Display → Display
cached d = record d { cache = some d.buffer }

abbrev pub plain : Display → Display
plain d = record d { cache = none }

-- Both panic, or both go on with the same buffer and position, and the cache holds the buffer.
pub data Same : Option Display → Option Display → Type 0 where
  panic : Same none none
  here : (b : Display) → Same (some (cached b)) (some (plain b))

Same-bind :
    {m m' : Option Display} (f : Display → Option Display)
    → Same m m'
    → ((b : Display) → Same (f (cached b)) (f (plain b)))
    → Same (m >>= f) (m' >>= f)
Same-bind f panic k = panic
Same-bind f (here b) k = k b

-- What the screen without a cache does, the screen with one does as well.
pub Same-some :
    (m m' : Option Display) (b : Display) → Same m m' → m' ≡ some (plain b) → m ≡ some (cached b)
Same-some _ _ b panic e = absurd (none-ne-some (plain b) e)
Same-some _ _ b (here b') e = ap (λ d. some (cached d)) (some-injective (plain b') (plain b) e)

copy_down-length : (l l' : List ℕ) (n : ℕ) → copy_down l n ≡ some l' → length l' ≡ length l
copy_down-length l l' n e = elim (Bool-cases (leb n (length l))) [
  | inr out ↦ absurd (none-ne-some l' (sym (rw out refl) ∙ e))
  | inl fits ↦
      let le = leb→le n (length l) fits in
      let eq : drop n l ++ drop (length l - n) l ≡ l' =
        some-injective (drop n l ++ drop (length l - n) l) l' (sym (rw fits refl) ∙ e) in
      ap length (sym eq)
      ∙ omega (
        arith,
        length-append (drop n l) (drop (length l - n) l),
        length-drop n l,
        length-drop (length l - n) l,
      )
]

fill_from-length : (l l' : List ℕ) (n : ℕ) → fill_from l n ≡ some l' → length l' ≡ length l
fill_from-length l l' n e = elim (Bool-cases (leb n (length l))) [
  | inr out ↦ absurd (none-ne-some l' (sym (rw out refl) ∙ e))
  | inl fits ↦
      let le = leb→le n (length l) fits in
      let eq : take n l ++ replicate (length l - n) 0 ≡ l' =
        some-injective (take n l ++ replicate (length l - n) 0) l' (sym (rw fits refl) ∙ e) in
      ap length (sym eq)
      ∙ omega (
        arith,
        length-append (take n l) (replicate (length l - n) 0),
        length-take n l,
        length-replicate {A = ℕ} (length l - n) 0,
      )
]

scrolled-length : (l l' : List ℕ) (n b : ℕ) → scrolled l n b ≡ some l' → length l' ≡ length l
scrolled-length l l' n b e = elim (Option-cases (copy_down l n)) [
  | inl out ↦ absurd (none-ne-some l' (sym (rw out refl) ∙ e))
  | inr (m, e') ↦ fill_from-length m l' (b + 1) (sym (rw e' refl) ∙ e) ∙ copy_down-length l m n e'
]

shown-Same :
    (b : Display) (l : List ℕ)
    → length l ≡ length b.buffer
    → Same (shown (cached b) l) (some (record (plain b) { buffer = l }))
shown-Same b l e =
    let same : (length b.buffer == length l) ≡ true = ground (arith, e) in
    rw same (here (record b { buffer = l }))

pub scroll-Same : (b : Display) → Same (scroll (cached b)) (scroll (plain b))
unfolding scroll
scroll-Same b = elim (Bool-cases (leb line_height b.height)) [
  | inr low ↦ rw low panic
  | inl high ↦
      let n = b.stride * line_height * b.bytes_per_pixel in
      let bytes = b.stride * (b.height - line_height) * b.bytes_per_pixel in
      elim (Option-cases (scrolled b.buffer n bytes)) [
        | inl out ↦ rw (high, out) panic
        | inr (l, e) ↦ rw (high, e) (shown-Same b l (scrolled-length b.buffer l n bytes e))
      ]
]

newline-Same : (b : Display) → Same (newline (cached b)) (newline (plain b))
unfolding newline
newline-Same b =
    let b' = carriage_return (record b { y_pos = b.y_pos + line_height }) in
    elim (Bool-cases (leb b.height (b'.y_pos + line_height))) [
      | inr room ↦ rw room (here b')
      | inl low ↦
          rw low (Same-bind (λ d. some (line_up d)) (scroll-Same b') (λ d. here (line_up d)))
    ]

module _ (screen : Screen) where
  splice-Same :
      (b : Display) (offset : ℕ) (bytes : List ℕ)
      → Same (put_color screen (cached b) offset bytes) (put_color screen (plain b) offset bytes)
  splice-Same b offset bytes = elim (Option-cases (splice b.buffer offset bytes)) [
    | inl out ↦ rw out panic
    | inr (l, e) ↦ rw e (here (record b { buffer = l }))
  ]

  shade-Same :
      (b : Display) (offset : ℕ) (new : Option (ℕ × ℕ × ℕ))
      → Same
          (new >>= λ c. color screen b.pixel_format c >>= λ full.
            cut screen b.bytes_per_pixel full >>= λ bytes. put_color screen (cached b) offset bytes)
          (new >>= λ c. color screen b.pixel_format c >>= λ full.
            cut screen b.bytes_per_pixel full >>= λ bytes. put_color screen (plain b) offset bytes)
  shade-Same b offset none = panic
  shade-Same b offset (some c) = elim (Option-cases (color screen b.pixel_format c)) [
    | inl out ↦ rw out panic
    | inr (full, e) ↦ elim (Option-cases (cut screen b.bytes_per_pixel full)) [
      | inl out ↦ rw (e, out) panic
      | inr (bytes, e') ↦ rw (e, e') (splice-Same b offset bytes)
    ]
  ]

  write_pixel-Same :
      (b : Display) (x y r g bl a : ℕ)
      → Same
          (write_pixel screen (cached b) x y r g bl a)
          (write_pixel screen (plain b) x y r g bl a)
  unfolding write_pixel
  write_pixel-Same b x y r g bl a = elim (Bool-cases (a == 0)) [
    | inl clear ↦ rw clear (here b)
    | inr visible ↦ rw visible (
        shade-Same b ((y * b.stride + x) * b.bytes_per_pixel)
          (shade screen (plain b) ((y * b.stride + x) * b.bytes_per_pixel) (r, g, bl) a))
  ]

  erase_row-Same :
      (n x y : ℕ) (b : Display)
      → Same (erase_row screen n x y (cached b)) (erase_row screen n x y (plain b))
  unfolding erase_row
  erase_row-Same zero x y b = here b
  erase_row-Same (suc n) x y b =
      Same-bind (erase_row screen n (x + 1) y) (write_pixel-Same b x y 0 0 0 255)
        (erase_row-Same n (x + 1) y)

  erase-Same :
      (rows n x y : ℕ) (b : Display)
      → Same (erase screen rows n x y (cached b)) (erase screen rows n x y (plain b))
  unfolding erase
  erase-Same zero n x y b = here b
  erase-Same (suc rows) n x y b =
      Same-bind (erase screen rows n x (y + 1)) (erase_row-Same n x y b)
        (erase-Same rows n x (y + 1))

  draw_row-Same :
      (bs : List ℕ) (x y : ℕ) (b : Display)
      → Same (draw_row screen bs x y (cached b)) (draw_row screen bs x y (plain b))
  unfolding draw_row
  draw_row-Same [] x y b = here b
  draw_row-Same (v ∷ bs) x y b =
      Same-bind (draw_row screen bs (x + 1) y) (write_pixel-Same b x y v v v 255)
        (draw_row-Same bs (x + 1) y)

  draw-Same :
      (rows : List (List ℕ)) (x y : ℕ) (b : Display)
      → Same (draw screen rows x y (cached b)) (draw screen rows x y (plain b))
  unfolding draw
  draw-Same [] x y b = here b
  draw-Same (row ∷ rows) x y b =
      Same-bind (draw screen rows x (y + 1)) (draw_row-Same row x y b) (draw-Same rows x (y + 1))

  backspace-Same : (b : Display) → Same (backspace screen (cached b)) (backspace screen (plain b))
  unfolding backspace
  backspace-Same b = elim (Bool-cases (leb b.x_pos border_padding)) [
    | inl left ↦ rw left (here b)
    | inr right ↦ elim (Bool-cases (ltb b.x_pos b.last_char_width)) [
      | inl out ↦ rw (right, out) panic
      | inr fits ↦
          let b' = record b { x_pos = b.x_pos - b.last_char_width } in
          rw (right, fits) (erase-Same line_height b.last_char_width b'.x_pos b'.y_pos b')
    ]
  ]

  wrapped-Same :
      (b : Display) (w : ℕ) → Same (wrapped screen (cached b) w) (wrapped screen (plain b) w)
  wrapped-Same b w = elim (Bool-cases (leb b.width (b.x_pos + w))) [
    | inl full ↦ rw full (newline-Same b)
    | inr room ↦ rw room (here b)
  ]

  write_glyph-Same :
      (b : Display) (g : Glyph)
      → Same (write_glyph screen (cached b) g) (write_glyph screen (plain b) g)
  unfolding write_glyph
  write_glyph-Same b g =
      Same-bind
        (λ d. draw screen g.raster d.x_pos d.y_pos d >>= λ d'. some (moved screen g.width d'))
        (wrapped-Same b g.width)
        (λ d.
          Same-bind (λ d'. some (moved screen g.width d')) (draw-Same g.raster d.x_pos d.y_pos d)
            (λ d'. here (moved screen g.width d')))

  raster-Same :
      (b : Display) (o : Option Glyph)
      → Same (o >>= write_glyph screen (cached b)) (o >>= write_glyph screen (plain b))
  raster-Same b none = panic
  raster-Same b (some g) = write_glyph-Same b g

  write_char-Same :
      (b : Display) (c : ℕ) → Same (write_char screen (cached b) c) (write_char screen (plain b) c)
  unfolding write_char
  write_char-Same b c = elim (Bool-cases (c == 10)) [
    | inl lf ↦ rw lf (newline-Same b)
    | inr not_lf ↦ elim (Bool-cases (c == 13)) [
      | inl cr ↦ rw (not_lf, cr) (here (carriage_return b))
      | inr not_cr ↦ elim (Bool-cases (c == 8)) [
        | inl bs ↦ rw (not_lf, not_cr, bs) (backspace-Same b)
        | inr not_bs ↦ rw (not_lf, not_cr, not_bs) (raster-Same b (get_char_raster screen c))
      ]
    ]
  ]

  -- A screen that draws into a cache as well shows the same as one that has none: whatever is written, they
  -- panic together, or go on with the same buffer and position, and the cache holds the buffer.
  pub write_str-Same :
      (s : List ℕ) (b : Display)
      → Same (write_str screen s (cached b)) (write_str screen s (plain b))
  unfolding write_str
  write_str-Same [] b = here b
  write_str-Same (c ∷ cs) b =
      Same-bind (write_str screen cs) (write_char-Same b c) (write_str-Same cs)
