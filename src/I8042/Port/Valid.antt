-- ===== src/I8042/Port/Valid.antt =====
-- The invariant of a port's state (crates/i8042/src/lib.rs, `Port`, with the states of keyboard.rs and
-- mouse.rs behind it).
use snek_os.Prelude.{ℕ, List, [], ◌∷◌, ◌==◌, if◌then◌else◌, Bool-cases, ◌⊎◌, inl, inr, ◌≡◌, arith}
use snek_os.I8042.Mouse.Stream.{OnScreen, handle_data-OnScreen}
use snek_os.I8042.Keyboard
use snek_os.I8042.Keyboard.{PcKeyboard, Keyboard}
use snek_os.I8042.Port.{
  ds_ack, ident_ack, ident_b1, ident_b2, PortState, nothing, unknown, enumerating, keyboard, mouse,
  Port, dispatch, handle_data, feed,
}

module _ (pc : PcKeyboard) where
  -- `EnableAck` holds the number of a scancode set.
  abbrev pub IsKeyboardState : Keyboard.State pc → Type 0
  IsKeyboardState (Keyboard.init (Keyboard.enable_ack set)) = (set ≡ 1) ⊎ (set ≡ 2) ⊎ (set ≡ 3)
  IsKeyboardState _ = Unit {0}

  -- `IdentB2` holds 0xAB, and a mouse's position fits 16 bits.
  abbrev pub IsValid : PortState pc → Type 0
  IsValid (enumerating (ident_b2 b1)) = b1 ≡ 0xAB
  IsValid (keyboard k) = IsKeyboardState k.state
  IsValid (mouse m) = OnScreen m.mouse_state
  IsValid _ = Unit {0}

  enabled-IsKeyboardState : (set : ℕ) → IsKeyboardState (Keyboard.enabled set)
  enabled-IsKeyboardState set = elim (Bool-cases (set == 1)) [
    | inl e ↦ rw e tt
    | inr e ↦ elim (Bool-cases (set == 2)) [ inl f ↦ rw (e, f) tt | inr f ↦ rw (e, f) tt ]
  ]

  ack-IsKeyboardState :
      (set b : ℕ) → IsKeyboardState (if b == 0xFA then Keyboard.enabled set else Keyboard.disabled)
  ack-IsKeyboardState set b = elim (Bool-cases (b == 0xFA)) [
    | inl e ↦ rw e (enabled-IsKeyboardState set)
    | inr e ↦ rw e tt
  ]

  keyboard-IsKeyboardState :
      (s : Keyboard.State pc) (b : ℕ) → IsKeyboardState (Keyboard.dispatch s b).0
  unfolding Keyboard.dispatch
  keyboard-IsKeyboardState Keyboard.disabled b = tt
  keyboard-IsKeyboardState (Keyboard.init Keyboard.req_scancode_set_ack) b = tt
  keyboard-IsKeyboardState (Keyboard.init Keyboard.req_scancode_set_rsp) b = ground arith
  keyboard-IsKeyboardState (Keyboard.init (Keyboard.enable_ack set)) b = ack-IsKeyboardState set b
  keyboard-IsKeyboardState (Keyboard.normal k) b = ground arith

  handle_data-IsKeyboardState :
      (k : Keyboard pc) (b : ℕ) → IsKeyboardState (Keyboard.handle_data k b).0.state
  unfolding Keyboard.handle_data
  handle_data-IsKeyboardState k b = keyboard-IsKeyboardState k.state b

  dispatch-IsValid : (s : PortState pc) (b : ℕ) → IsValid s → IsValid (dispatch s b).0
  unfolding dispatch
  dispatch-IsValid nothing b v = ground arith
  dispatch-IsValid unknown b v = tt
  dispatch-IsValid (enumerating ds_ack) b v = ground arith
  dispatch-IsValid (enumerating ident_ack) b v = ground arith
  dispatch-IsValid (enumerating ident_b1) b v = ground arith
  dispatch-IsValid (enumerating (ident_b2 b1)) b v = ground arith
  dispatch-IsValid (keyboard k) b v = handle_data-IsKeyboardState k b
  dispatch-IsValid (mouse m) b v = handle_data-OnScreen m b v

  handle_data-IsValid : (p : Port pc) (b : ℕ) → IsValid p.state → IsValid (handle_data p b).0.state
  unfolding handle_data
  handle_data-IsValid p b v = dispatch-IsValid p.state b v

  -- Whatever bytes arrive, a valid port stays valid: `IdentB2` only holds 0xAB, `EnableAck` only the
  -- scancode sets 1 to 3, and the mouse's position stays in 16 bits.
  pub feed-IsValid : (p : Port pc) (bs : List ℕ) → IsValid p.state → IsValid (feed p bs).0.state
  unfolding feed
  feed-IsValid p [] v = v
  feed-IsValid p (b ∷ bs) v = feed-IsValid (handle_data p b).0 bs (handle_data-IsValid p b v)
