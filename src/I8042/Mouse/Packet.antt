-- ===== src/I8042/Mouse/Packet.antt =====
-- One PS/2 packet (crates/i8042/src/mouse.rs, `handle_data` and `get_signed_9`): what three bytes do
-- to an idle mouse, against the encoding of a movement by the device.
use snek_os.Prelude.{
  ℕ, ◌+◌, ◌-◌, ◌*◌, ◌%◌, Bool, true, false, not, Option, none, some, List, [], ◌∷◌, ◌≡◌, refl, sym,
  arith, if◌then◌else◌, min, ltb, has, shr, Bool-cases, inl, inr,
}
use snek_os.Prelude.Int.{ℤ, pos, negsuc, neg}
use snek_os.I8042.Mouse.{
  idle, MouseState, Mouse, get_signed_9, saturating_add_signed, bool_eq, same, next_state, finish,
  handle_data, feed, reported,
}

-- What a PS/2 mouse reports in one packet: a movement of any size on each axis (y grows upwards), and
-- the buttons.
pub record Movement : Type 0 where
  pub dx : ℤ
  pub dy : ℤ
  pub left_down : Bool
  pub right_down : Bool
  pub middle_down : Bool

-- Nine bits with the sign hold -256 .. 255; beyond them the overflow bit is set.
abbrev pub overflows : ℤ → Bool
overflows (pos n) = ltb 255 n
overflows (negsuc n) = ltb 255 n

-- What is left of a movement that overflows: 256 in its direction.
abbrev pub clamped : ℤ → ℤ
clamped (pos n) = pos (min n 256)
clamped (negsuc n) = negsuc (min n 255)

abbrev pub bit : Bool → ℕ
bit true = 1
bit false = 0

abbrev pub negative : ℤ → Bool
negative (pos n) = false
negative (negsuc n) = true

-- The low eight bits of the two's complement.
abbrev pub low_byte : ℤ → ℕ
low_byte (pos n) = n % 256
low_byte (negsuc n) = 255 - n % 256

-- The first byte has bit 3 set, the signs in bits 4 and 5, and the overflow bits behind them.
abbrev pub header : Movement → ℕ
header p =
    bit p.left_down
    + 2 * bit p.right_down
    + 4 * bit p.middle_down
    + 8
    + 16 * bit (negative p.dx)
    + 32 * bit (negative p.dy)
    + 64 * bit (overflows p.dx)
    + 128 * bit (overflows p.dy)

abbrev pub encode : Movement → List ℕ
encode p = header p ∷ low_byte p.dx ∷ low_byte p.dy ∷ []

-- The reference: where the pointer is after a movement. The screen's y grows downwards.
abbrev pub moved : MouseState → Movement → MouseState
moved s p = record {
  x = saturating_add_signed s.x (clamped p.dx);
  y = saturating_add_signed s.y (neg (clamped p.dy));
  left = p.left_down;
  right = p.right_down;
  middle = p.middle_down;
}

get_signed_9-low_byte : (d : ℤ) → get_signed_9 (overflows d) (negative d) (low_byte d) ≡ clamped d
unfolding get_signed_9
get_signed_9-low_byte (pos n) = ground arith
get_signed_9-low_byte (negsuc n) = ground arith

-- What the code reads from the first byte of an encoded movement.
record Header (l r m sx sy ox oy : Bool) (h : ℕ) : Type 0 where
  synced : has h 0x8 ≡ true
  left_bit : has h 0x1 ≡ l
  right_bit : has h 0x2 ≡ r
  middle_bit : has h 0x4 ≡ m
  x_overflow : has (shr h 6) 1 ≡ ox
  y_overflow : has (shr h 7) 1 ≡ oy
  x_sign : has (shr h 4) 1 ≡ sx
  y_sign : has (shr h 5) 1 ≡ sy

abbrev header_of : Bool → Bool → Bool → Bool → Bool → Bool → Bool → ℕ
header_of l r m sx sy ox oy =
    bit l + 2 * bit r + 4 * bit m + 8 + 16 * bit sx + 32 * bit sy + 64 * bit ox + 128 * bit oy

bits_of_first : (l r m sx sy ox oy : Bool) → Header l r m sx sy ox oy (header_of l r m sx sy ox oy)
bits_of_first l r m sx sy ox oy = ground arith

header_lem :
    (p : Movement)
    → Header p.left_down p.right_down p.middle_down
        (negative p.dx)
        (negative p.dy)
        (overflows p.dx)
        (overflows p.dy)
        (header p)
header_lem p =
    bits_of_first p.left_down p.right_down p.middle_down (negative p.dx) (negative p.dy)
      (overflows p.dx) (overflows p.dy)

-- The three bytes of a movement give the state that the reference gives.
next_state-encode :
    (s : MouseState) (p : Movement)
    → next_state s (header p) (low_byte p.dx) (low_byte p.dy) ≡ moved s p
unfolding next_state
next_state-encode s p =
    let h = header_lem p in
    rw
      (
        h.x_overflow,
        h.y_overflow,
        h.x_sign,
        h.y_sign,
        h.left_bit,
        h.right_bit,
        h.middle_bit,
        get_signed_9-low_byte p.dx,
        get_signed_9-low_byte p.dy,
      )
      refl

-- The reference answer: the new state where it differs.
abbrev pub report : MouseState → Movement → Option MouseState
report s p = if not (same (moved s p) s) then some (moved s p) else none

abbrev pub at_rest : MouseState → Mouse
at_rest s = record { state = idle; mouse_state = s }

bool_eq-eq : (a b : Bool) → bool_eq a b ≡ true → a ≡ b
bool_eq-eq true b h = sym h
bool_eq-eq false true h = cc
bool_eq-eq false false h = refl

same-eq : (a b : MouseState) → same a b ≡ true → a ≡ b
unfolding same
same-eq a b h =
    ground
      (arith, bool_eq-eq a.left b.left, bool_eq-eq a.right b.right, bool_eq-eq a.middle b.middle)

-- The third byte leaves the mouse idle at the new state, also where it stores nothing.
pub finish_lem :
    (m : Mouse) (t : MouseState)
    → finish m t ≡ (at_rest t, if not (same t m.mouse_state) then some t else none)
unfolding finish
finish_lem m t = elim (Bool-cases (same t m.mouse_state)) [
  | inl e ↦ rw (e, same-eq t m.mouse_state e)
  | inr e ↦ rw e
]

-- An idle mouse that is handed the three bytes of a movement ends idle at the state that the
-- movement leads to, and reports that state exactly when it differs from the one before.
pub feed-encode :
    (s : MouseState) (p : Movement)
    → feed (at_rest s) (encode p) ≡ (at_rest (moved s p), reported (report s p) [])
unfolding feed handle_data
feed-encode s p = rw ((header_lem p).synced, next_state-encode s p, finish_lem)
