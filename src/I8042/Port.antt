-- ===== src/I8042/Port.antt =====
-- crates/i8042/src/lib.rs, `Port`: the identification of the device behind a port of the controller,
-- and the dispatch of its bytes.
pub mod Identify
pub mod Phases
pub mod Valid
use snek_os.Prelude.{ℕ, Bool, ◌&&◌, Option, none, some, List, [], ◌∷◌, ◌==◌, if◌then◌else◌}
use snek_os.I8042.Mouse
use snek_os.I8042.Mouse.{MouseKind, MouseState, Mouse, reported}
use snek_os.I8042.Keyboard
use snek_os.I8042.Keyboard.{PcKeyboard, KeyboardKind, Keyboard}

pub data Change (pc : PcKeyboard) : Type 0 where
  key_change : pc.Key → Change pc
  mouse_change : MouseState → Change pc

pub data EnumWaitState : Type 0 where
  ds_ack ident_ack ident_b1 : EnumWaitState
  ident_b2 : ℕ → EnumWaitState

pub data PortState (pc : PcKeyboard) : Type 0 where
  nothing unknown : PortState pc
  enumerating : EnumWaitState → PortState pc
  keyboard : Keyboard pc → PortState pc
  mouse : Mouse → PortState pc

pub record Port (pc : PcKeyboard) : Type 0 where
  pub state : PortState pc

-- What an arm of the `match` yields: a byte to send, and a state to go to.
abbrev pub Answer : PcKeyboard → Type 0
Answer pc = Option ℕ × Option (PortState pc)

module _ {pc : PcKeyboard} where
  abbrev pub port_in : PortState pc → Port pc
  port_in s = record { state = s }

  unfoldable pub new : Port pc
  new = port_in nothing

  unfoldable pub new_keyboard : KeyboardKind → Answer pc
  unfolding Keyboard.new
  new_keyboard kind = let (reply, k) = Keyboard.new kind in (reply, some (keyboard k))

  unfoldable pub new_mouse : MouseKind → Answer pc
  unfolding Mouse.new
  new_mouse kind = let (reply, m) = Mouse.new kind in (reply, some (mouse m))

  -- The arms of `IdentB2`, in their order.
  unfoldable pub identify_b2 : ℕ → ℕ → Answer pc
  unfolding new_keyboard
  identify_b2 b1 b =
      if (b1 == 0xAB) && (b == 0x41)
      then new_keyboard KeyboardKind.mf2_emul
      else if (b1 == 0xAB) && (b == 0x83)
      then new_keyboard KeyboardKind.mf2
      else if (b1 == 0xAB) && (b == 0x84)
      then new_keyboard KeyboardKind.short
      else if (b1 == 0xAB) && (b == 0x85)
      then new_keyboard KeyboardKind.n97
      else if (b1 == 0xAB) && (b == 0x86)
      then new_keyboard KeyboardKind.k122
      else if (b1 == 0xAB) && (b == 0x90)
      then new_keyboard KeyboardKind.jap_g
      else if (b1 == 0xAB) && (b == 0x91)
      then new_keyboard KeyboardKind.jap_p
      else if (b1 == 0xAB) && (b == 0x92)
      then new_keyboard KeyboardKind.jap_a
      else if (b1 == 0xAB) && (b == 0xA1)
      then new_keyboard KeyboardKind.sun
      else if (b1 == 0xAB) && (b == 0xC1)
      then new_keyboard KeyboardKind.mf2_emul
      else (none, some unknown)

  unfoldable pub enumerate : EnumWaitState → ℕ → Answer pc
  unfolding new_mouse identify_b2
  enumerate ds_ack b =
      if b == 0xFA
      then (some 0xF2, some (enumerating ident_ack))
      else if b == 0x00
      then (none, none)
      else (none, some unknown)
  enumerate ident_ack b =
      if b == 0xFA then (none, some (enumerating ident_b1)) else (none, some unknown)
  enumerate ident_b1 b =
      if b == 0x00
      then new_mouse MouseKind.standard
      else if b == 0x03
      then new_mouse MouseKind.scroll
      else if b == 0x04
      then new_mouse MouseKind.five_button
      else if b == 0xAB
      then (none, some (enumerating (ident_b2 b)))
      else (none, some unknown)
  enumerate (ident_b2 b1) b = identify_b2 b1 b

  -- `if let Some(state) = state { self.state = state; }`
  abbrev pub settle : PortState pc → Answer pc → PortState pc × Option ℕ × Option (Change pc)
  settle s (reply, none) = (s, reply, none)
  settle s (reply, some s') = (s', reply, none)

  abbrev pub change : {A : Type 0} → (A → Change pc) → Option A → Option (Change pc)
  change f none = none
  change f (some a) = some (f a)

  -- The `match self.state`.
  unfoldable pub dispatch : PortState pc → ℕ → PortState pc × Option ℕ × Option (Change pc)
  unfolding enumerate
  dispatch nothing b = settle nothing (
      if b == 0xFA
      then (none, none)
      else if b == 0xAA
      then (some 0xF5, some (enumerating ds_ack))
      else (none, none))
  dispatch unknown b = settle unknown (none, none)
  dispatch (enumerating e) b = settle (enumerating e) (enumerate e b)
  dispatch (keyboard k) b =
      let (k', reply, key) = Keyboard.handle_data k b in (keyboard k', reply, change key_change key)
  dispatch (mouse m) b =
      let (m', s) = Mouse.handle_data m b in (mouse m', none, change mouse_change s)

  unfoldable pub handle_data : Port pc → ℕ → Port pc × Option ℕ × Option (Change pc)
  unfolding dispatch
  handle_data p b = let (s, reply, c) = dispatch p.state b in (port_in s, reply, c)

  -- Several bytes in turn, with all the replies and changes.
  unfoldable pub feed : Port pc → List ℕ → Port pc × List ℕ × List (Change pc)
  feed p [] = (p, [], [])
  feed p (b ∷ bs) =
      let (p', reply, c) = handle_data p b in
      let (p'', replies, cs) = feed p' bs in (p'', reported reply replies, reported c cs)
