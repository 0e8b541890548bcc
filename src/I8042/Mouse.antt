-- ===== src/I8042/Mouse.antt =====
-- crates/i8042/src/mouse.rs: the decoder of PS/2 mouse packets. A `u8` is a number below 256, an
-- `i16` an integer, and a method that mutates `self` returns the new mouse beside its result.
pub mod Packet
pub mod Stream
use snek_os.Prelude.{
  ℕ, suc, ◌+◌, ◌-◌, min, bit_and, Bool, true, false, ◌&&◌, not, Option, none, some, List, [], ◌∷◌,
  ◌==◌, if◌then◌else◌, has, shr,
}
use snek_os.Prelude.Int.{ℤ, pos, negsuc, sub_ℕ, neg}

pub data MouseKind : Type 0 where
  standard scroll five_button : MouseKind

pub data State : Type 0 where
  ack idle : State
  wait_byte2 : ℕ → State
  wait_byte3 : ℕ → ℕ → State

pub record MouseState : Type 0 where
  pub x : ℕ  -- u16
  pub y : ℕ  -- u16
  pub left : Bool
  pub right : Bool
  pub middle : Bool

pub record Mouse : Type 0 where
  pub state : State
  pub mouse_state : MouseState

abbrev pub fresh_state : MouseState
fresh_state = record { x = 0; y = 0; left = false; right = false; middle = false }

unfoldable pub new : MouseKind → Option ℕ × Mouse
new _kind = (some 0xF4, record { state = ack; mouse_state = fresh_state })

-- `val as i16 - 0x100` is the difference as an integer: an `i16` holds it.
unfoldable pub get_signed_9 : Bool → Bool → ℕ → ℤ
get_signed_9 overflow sign val =
    if sign
    then (if overflow then negsuc 255 else sub_ℕ val 0x100)
    else (if overflow then pos 256 else pos val)

-- `u16::saturating_add_signed`
abbrev pub saturating_add_signed : ℕ → ℤ → ℕ
saturating_add_signed a (pos n) = min (a + n) 65535
saturating_add_signed a (negsuc n) = a - suc n

abbrev pub bool_eq : Bool → Bool → Bool
bool_eq true b = b
bool_eq false b = not b

-- The derived `PartialEq` of `MouseState`.
unfoldable pub same : MouseState → MouseState → Bool
same a b =
    (a.x == b.x)
    && (a.y == b.y)
    && bool_eq a.left b.left
    && bool_eq a.right b.right
    && bool_eq a.middle b.middle

-- `new_state` of the third byte: `data` is the third byte, `b1` and `b2` those before it.
unfoldable pub next_state : MouseState → ℕ → ℕ → ℕ → MouseState
next_state s b1 b2 data_byte =
    let dx = get_signed_9 (has (shr b1 6) 1) (has (shr b1 4) 1) b2 in
    let dy = get_signed_9 (has (shr b1 7) 1) (has (shr b1 5) 1) data_byte in
    record {
      x = saturating_add_signed s.x dx;
      y = saturating_add_signed s.y (neg dy);
      left = has b1 0x1;
      right = has b1 0x2;
      middle = has b1 0x4;
    }

-- The third byte's arm.
unfoldable pub finish : Mouse → MouseState → Mouse × Option MouseState
finish m new_state =
    let m = record m { state = idle } in
    if not (same new_state m.mouse_state)
    then (record m { mouse_state = new_state }, some new_state)
    else (m, none)

-- The `match self.state`.
unfoldable pub dispatch : State → Mouse → ℕ → Mouse × Option MouseState
dispatch ack m b = (record m { state = idle }, none)
dispatch idle m b = (if has b 0x8 then record m { state = wait_byte2 b } else m, none)
dispatch (wait_byte2 b1) m b = (record m { state = wait_byte3 b1 b }, none)
dispatch (wait_byte3 b1 b2) m b = finish m (next_state m.mouse_state b1 b2 b)

unfoldable pub handle_data : Mouse → ℕ → Mouse × Option MouseState
unfolding dispatch
handle_data m b = dispatch m.state m b

abbrev pub reported {ℓ} : {A : Type ℓ} → Option A → List A → List A
reported none r = r
reported (some s) r = s ∷ r

-- The bytes of several interrupts in turn, and all the states that they report.
unfoldable pub feed : Mouse → List ℕ → Mouse × List MouseState
feed m [] = (m, [])
feed m (b ∷ bs) =
    let (m', r) = handle_data m b in let (m'', rs) = feed m' bs in (m'', reported r rs)
