-- ===== src/Framebuffer/Printing.antt =====
-- Printing never panics (kernel/src/framebuffer.rs, `newline`, `write_char`, `write_str`).
use snek_os.Prelude.{
  ℕ, zero, suc, ◌+◌, ◌-◌, ◌*◌, ◌<◌, ◌≤◌, Bool-cases, false, List, [], ◌∷◌, ◌++◌, Option,
  Option-cases, some, ◌==◌, leb, leb-true, ltb-false, length, take, drop, replicate, length-append,
  length-take, length-drop, length-replicate, All, arith, ◌≡◌, ◌⊎◌, refl, ap, ◌∙◌, inl, inr,
}
use native.Mathlib.Nat.{
  zero-mul, suc-mul, mul-le-mul_right, mul-le-mul_left, mul-lt-mul_of_pos_right,
  mul-lt-mul_of_pos_left,
}
use snek_os.Framebuffer.{
  Display, Glyph, Screen, ◌>>=◌, scroll, copy_down, fill_from, newline, carriage_return,
  get_char_raster, backspace, wrapped, moved, write_glyph, write_char, write_str, line_height,
  border_padding, backup_char, line_up,
}
use snek_os.Framebuffer.Mirror.{plain, cached, Same-some, write_str-Same}
use snek_os.Framebuffer.Fits.{IsCanvas, Redrawn, erase-Redrawn, draw-Redrawn}

-- A glyph of `w` columns, and no more rows than a line.
pub record IsGlyph (w : ℕ) (g : Glyph) : Type 0 where
  pub width : g.width ≡ w
  pub rows : length g.raster ≤ line_height
  pub narrow : All (λ row. length row ≤ w) g.raster

pub record IsMonospaced (screen : Screen) (w : ℕ) : Type 0 where
  pub glyphs : (c : ℕ) (g : Glyph) → screen.get_raster c ≡ some g → IsGlyph w g
  pub backup : (g : Glyph) × (screen.get_raster backup_char ≡ some g)

-- The cursor stands behind whole characters, with room for a line below it.
pub record IsPrinting (w : ℕ) (d : Display) : Type 0 where
  pub canvas : IsCanvas d
  pub room : 1 + w ≤ d.width
  pub column : (k : ℕ) × (d.x_pos ≡ 1 + k * w)
  pub x_within : d.x_pos ≤ d.width
  pub y_within : d.y_pos + line_height < d.height
  pub last : (d.last_char_width ≡ 0) ⊎ (d.last_char_width ≡ w)

-- The method does not panic, and the cursor is fine again.
abbrev pub Prints : ℕ → Option Display → Type 0
Prints w m = (b : Display) × (m ≡ some (plain b)) × IsPrinting w b

Prints-bind :
    (w : ℕ) (m : Option Display) (f : Display → Option Display)
    → Prints w m
    → ((b : Display) → IsPrinting w b → Prints w (f (plain b)))
    → Prints w (m >>= f)
Prints-bind w m f (b, e, h) k = let (b', e', h') = k b h in (b', rw e e', h')

leb-lt : (a b : ℕ) → leb a b ≡ false → b < a
leb-lt a b e = ground arith

-- The lines that go up, and the line that is cleared, lie in the buffer.
line_in : (s h k : ℕ) → line_height ≤ h → s * line_height * k ≤ s * h * k
line_in s h k le = mul-le-mul_right k (mul-le-mul_left s le)

rest_in : (s h k : ℕ) → 0 < s → 0 < k → line_height ≤ h → s * (h - line_height) * k + 1 ≤ s * h * k
rest_in s h k hs hk le =
    let below : h - line_height < h = omega arith in
    omega (arith, mul-lt-mul_of_pos_right (mul-lt-mul_of_pos_left below hs) hk)

copy_down-fits :
    (l : List ℕ) (n : ℕ)
    → n ≤ length l
    → (l' : List ℕ) × (copy_down l n ≡ some l') × (length l' ≡ length l)
copy_down-fits l n le = (
  drop n l ++ drop (length l - n) l,
  rw (leb-true n (length l) le) refl,
  omega (
    arith,
    le,
    length-append (drop n l) (drop (length l - n) l),
    length-drop n l,
    length-drop (length l - n) l,
  ),
)

fill_from-fits :
    (l : List ℕ) (n : ℕ)
    → n ≤ length l
    → (l' : List ℕ) × (fill_from l n ≡ some l') × (length l' ≡ length l)
fill_from-fits l n le = (
  take n l ++ replicate (length l - n) 0,
  rw (leb-true n (length l) le) refl,
  omega (
    arith,
    le,
    length-append (take n l) (replicate (length l - n) 0),
    length-take n l,
    length-replicate {A = ℕ} (length l - n) 0,
  ),
)

scroll-Redrawn : (b : Display) → IsCanvas b → 0 < b.stride → Redrawn b (scroll (plain b))
unfolding scroll
scroll-Redrawn b h pos =
    let n = b.stride * line_height * b.bytes_per_pixel in
    let bytes = b.stride * (b.height - line_height) * b.bytes_per_pixel in
    let high : line_height ≤ b.height = omega (arith, h.high) in
    let (l, e, len) =
      copy_down-fits b.buffer n
        (omega (arith, h.size, line_in b.stride b.height b.bytes_per_pixel high)) in
    let (l', e', len') = fill_from-fits l (bytes + 1) (
      omega (arith, len, h.size, rest_in b.stride b.height b.bytes_per_pixel pos h.depth.0 high)) in
    (l', rw (leb-true line_height b.height high, e, e') refl, len' ∙ len)

moved-IsCanvas :
    (b : Display) (l : List ℕ) (x y c : ℕ)
    → IsCanvas b
    → length l ≡ length b.buffer
    → IsCanvas (record b { buffer = l; x_pos = x; y_pos = y; last_char_width = c })
moved-IsCanvas b l x y c h e = record {
  size = e ∙ h.size;
  depth = h.depth;
  known = h.known;
  wide = h.wide;
  high = h.high;
}

-- The cursor behind `k` characters of the line at `y`.
placed-IsPrinting :
    (w : ℕ) (b : Display) (l : List ℕ) (x y c k : ℕ)
    → IsPrinting w b
    → length l ≡ length b.buffer
    → x ≡ 1 + k * w
    → x ≤ b.width
    → y + line_height < b.height
    → (c ≡ 0) ⊎ (c ≡ w)
    → IsPrinting w (record b { buffer = l; x_pos = x; y_pos = y; last_char_width = c })
placed-IsPrinting w b l x y c k h e column x_within y_within last = record {
  canvas = moved-IsCanvas b l x y c h.canvas e;
  room = h.room;
  column = (k, column);
  x_within = x_within;
  y_within = y_within;
  last = last;
}

newline-starts :
    (w : ℕ) (b : Display)
    → IsPrinting w b
    → (b' : Display) × (newline (plain b) ≡ some (plain b')) × IsPrinting w b' × (b'.x_pos ≡ 1)
unfolding newline
newline-starts w b h =
    let b' = carriage_return (record b { y_pos = b.y_pos + line_height }) in
    let left : 1 ≤ b.width = omega (arith, h.room) in
    let start : 1 ≡ 1 + 0 * w = omega (arith, zero-mul w) in
    elim (Bool-cases (leb b.height (b'.y_pos + line_height))) [
      | inr above ↦
          let y_within = leb-lt b.height (b'.y_pos + line_height) above in
          (
            b',
            rw above refl,
            placed-IsPrinting w b b.buffer 1 b'.y_pos b.last_char_width 0 h refl start left y_within
                h.last,
            refl,
          )
      | inl low ↦
          let (l, e, len) =
            scroll-Redrawn b'
              (moved-IsCanvas b b.buffer 1 (b.y_pos + line_height) b.last_char_width h.canvas refl)
              (omega (arith, h.canvas.wide, h.room)) in
          (
            line_up (record b' { buffer = l }),
            rw (low, e) refl,
            placed-IsPrinting w b l 1 (b.y_pos + line_height - line_height) b.last_char_width 0 h
                len start left (omega (arith, h.y_within)) h.last,
            refl,
          )
    ]

newline-Prints : (w : ℕ) (b : Display) → IsPrinting w b → Prints w (newline (plain b))
newline-Prints w b h = let (b', e, h', start) = newline-starts w b h in (b', e, h')

-- The character before the cursor.
back :
    (w : ℕ) (b : Display)
    → IsPrinting w b
    → 1 < b.x_pos
    → (k : ℕ) × (b.x_pos - b.last_char_width ≡ 1 + k * w) × (b.last_char_width ≤ b.x_pos)
back w b h past =
    let (k, column) = h.column in
    elim h.last [
      | inl first ↦ (k, omega (arith, first, column), omega (arith, first))
      | inr same ↦ go k column same
    ]
  where
    go :
        (k : ℕ)
        → b.x_pos ≡ 1 + k * w
        → b.last_char_width ≡ w
        → (k' : ℕ) × (b.x_pos - b.last_char_width ≡ 1 + k' * w) × (b.last_char_width ≤ b.x_pos)
    go zero column same = absurd (omega (arith, column, past, zero-mul w))
    go (suc k) column same =
        (k, omega (arith, column, same, suc-mul k w), omega (arith, column, same, suc-mul k w))

module _ (screen : Screen) (w : ℕ) where
  wrapped-Prints :
      (b : Display)
      → IsPrinting w b
      → (b' : Display) × (wrapped screen (plain b) w ≡ some (plain b'))
        × IsPrinting w b'
        × (b'.x_pos + w ≤ b'.width)
  wrapped-Prints b h = elim (Bool-cases (leb b.width (b.x_pos + w))) [
    | inl full ↦
        let (b', e, h', start) = newline-starts w b h in
        (b', rw full e, h', omega (arith, start, h'.room))
    | inr fits ↦ (b, rw fits refl, h, omega (arith, leb-lt b.width (b.x_pos + w) fits))
  ]

  backspace-Prints : (b : Display) → IsPrinting w b → Prints w (backspace screen (plain b))
  unfolding backspace
  backspace-Prints b h = elim (Bool-cases (leb b.x_pos border_padding)) [
    | inl left ↦ (b, rw left refl, h)
    | inr right ↦
        let past = leb-lt b.x_pos border_padding right in
        let (k, column, fits) = back w b h past in
        let x = b.x_pos - b.last_char_width in
        let b' = record b { x_pos = x } in
        let (l, e, len) =
          erase-Redrawn screen line_height b.last_char_width x b.y_pos b'
            (moved-IsCanvas b b.buffer x b.y_pos b.last_char_width h.canvas refl)
            (omega (arith, fits, h.x_within, h.canvas.wide)) (omega (arith, h.y_within)) in
        (
          record b' { buffer = l },
          rw (right, ltb-false b.x_pos b.last_char_width fits, e) refl,
          placed-IsPrinting w b l x b.y_pos b.last_char_width k h len column
              (omega (arith, h.x_within)) h.y_within h.last,
        )
  ]

  write_glyph-Prints :
      (b : Display) (g : Glyph)
      → IsGlyph w g
      → IsPrinting w b
      → Prints w (write_glyph screen (plain b) g)
  unfolding write_glyph
  write_glyph-Prints b g glyph h =
      let (b', e, h', fits) = wrapped-Prints b h in
      let e' : wrapped screen (plain b) g.width ≡ some (plain b') =
        ap (wrapped screen (plain b)) glyph.width ∙ e in
      let (l, e'', len) =
        draw-Redrawn screen w g.raster b'.x_pos b'.y_pos b' glyph.narrow h'.canvas
          (omega (arith, fits, h'.canvas.wide)) (omega (arith, h'.y_within, glyph.rows)) in
      let (k, column) = h'.column in
      (
        moved screen g.width (record b' { buffer = l }),
        rw (e', e'') refl,
        placed-IsPrinting w b' l (b'.x_pos + g.width) b'.y_pos g.width (suc k) h' len
            (omega (arith, column, suc-mul k w, glyph.width)) (omega (arith, fits, glyph.width))
            h'.y_within (inr glyph.width),
      )

  raster-IsGlyph :
      (mono : IsMonospaced screen w) (c : ℕ)
      → (g : Glyph) × (get_char_raster screen c ≡ some g) × IsGlyph w g
  raster-IsGlyph mono c = elim (Option-cases (screen.get_raster c)) [
    | inl missing ↦
        let (g, e) = mono.backup in
        (g, rw (get_char_raster, missing) e, mono.glyphs backup_char g e)
    | inr (g, e) ↦ (g, rw (get_char_raster, e) refl, mono.glyphs c g e)
  ]

  write_char-Prints :
      (mono : IsMonospaced screen w) (b : Display) (c : ℕ)
      → IsPrinting w b
      → Prints w (write_char screen (plain b) c)
  unfolding write_char
  write_char-Prints mono b c h = elim (Bool-cases (c == 10)) [
    | inl lf ↦ rw lf (newline-Prints w b h)
    | inr not_lf ↦ elim (Bool-cases (c == 13)) [
      | inl cr ↦
          rw (not_lf, cr)
            (
              carriage_return b,
              refl,
              placed-IsPrinting w b b.buffer 1 b.y_pos b.last_char_width 0 h refl
                  (omega (arith, zero-mul w)) (omega (arith, h.room)) h.y_within h.last,
            )
      | inr not_cr ↦ elim (Bool-cases (c == 8)) [
        | inl bs ↦ rw (not_lf, not_cr, bs) (backspace-Prints b h)
        | inr not_bs ↦
            let (g, e, glyph) = raster-IsGlyph mono c in
            rw (not_lf, not_cr, not_bs, e) (write_glyph-Prints b g glyph h)
      ]
    ]
  ]

  -- What is proved of the screen without a cache, before the one with a cache follows.
  write_str-plain :
      (mono : IsMonospaced screen w) (s : List ℕ) (b : Display)
      → IsPrinting w b
      → (b' : Display) × (write_str screen s (plain b) ≡ some (plain b')) × IsPrinting w b'
  unfolding write_str
  write_str-plain mono [] b h = (b, refl, h)
  write_str-plain mono (c ∷ cs) b h =
      Prints-bind w (write_char screen (plain b) c) (write_str screen cs)
        (write_char-Prints mono b c h) (write_str-plain mono cs)

  -- On a screen with a known format of one to four bytes for each pixel, whose buffer holds its pixels,
  -- higher than a line and no wider than its stride, with a font of one width that fits into it, whose
  -- glyphs are no higher than a line and include the one that replaces others, and with the cursor behind
  -- whole characters, inside the width, with a line's height below it, and the last character of that
  -- width or of none, no string makes the terminal panic: line feeds, carriage returns, backspaces and
  -- characters without a glyph included. The cursor ends in such a place again. Both hold with a cache of
  -- the buffer and without one, and both show the same.
  pub write_str-Prints :
      (mono : IsMonospaced screen w) (s : List ℕ) (b : Display)
      → IsPrinting w b
      → (b' : Display) × (write_str screen s (plain b) ≡ some (plain b'))
        × (write_str screen s (cached b) ≡ some (cached b'))
        × IsPrinting w b'
  write_str-Prints mono s b h =
      let (b', e, h') = write_str-plain mono s b h in
      (
        b',
        e,
        Same-some (write_str screen s (cached b)) (write_str screen s (plain b)) b'
            (write_str-Same screen s b) e,
        h',
      )
