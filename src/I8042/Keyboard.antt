-- ===== src/I8042/Keyboard.antt =====
-- crates/i8042/src/keyboard.rs: the set-up dialogue with a keyboard, and the hand-over of its
-- scancodes to the `pc_keyboard` crate, which is a parameter.
pub mod Setup
use snek_os.Prelude.{
  ℕ, Bool, true, false, ◌||◌, Option, none, some, List, [], ◌∷◌, ◌==◌, if◌then◌else◌,
}

-- `pc_keyboard::Keyboard` with one scancode set: a new decoder, `add_byte` (`none` is its `Err`) and
-- `process_keyevent`, both of which change the decoder.
pub record ScancodeDecoder (Event Key : Type 0) : Type 1 where
  pub Decoder : Type 0
  pub fresh : Decoder
  pub add_byte : Decoder → ℕ → Option (Option Event) × Decoder
  pub process_keyevent : Decoder → Event → Option Key × Decoder

-- The crate with both of its scancode sets; `Key` is `DecodedKey`.
pub record PcKeyboard : Type 1 where
  pub Event : Type 0
  pub Key : Type 0
  pub set1 : ScancodeDecoder Event Key
  pub set2 : ScancodeDecoder Event Key

pub data KeyboardKind : Type 0 where
  mf2 short n97 k122 mf2_emul jap_g jap_p jap_a sun : KeyboardKind

pub data SomeKeyboard (pc : PcKeyboard) : Type 0 where
  set1_keyboard : pc.set1.Decoder → SomeKeyboard pc
  set2_keyboard : pc.set2.Decoder → SomeKeyboard pc

pub data Init : Type 0 where
  req_scancode_set_ack req_scancode_set_rsp : Init
  enable_ack : ℕ → Init

pub data State (pc : PcKeyboard) : Type 0 where
  disabled : State pc
  init : Init → State pc
  normal : SomeKeyboard pc → State pc

pub record Keyboard (pc : PcKeyboard) : Type 0 where
  pub state : State pc

abbrev pub is_mf2 : KeyboardKind → Bool
is_mf2 mf2 = true
is_mf2 _ = false

-- The bytes that a running keyboard sends and that are no scancodes.
abbrev pub is_reply : ℕ → Bool
is_reply b =
    (b == 0x00)
    || (b == 0xFF)
    || (b == 0xAA)
    || (b == 0xFC)
    || (b == 0xFD)
    || (b == 0xEE)
    || (b == 0xFA)
    || (b == 0xFE)

-- The macro `get_kbd!` and the two calls under it, for one scancode set.
unfoldable pub decode :
    {Event Key : Type 0} (d : ScancodeDecoder Event Key) → d.Decoder → ℕ → Option Key × d.Decoder
decode d k b =
    let (r, k') = d.add_byte k b in
    elim r [
      | none ↦ (none, k')
      | some none ↦ (none, k')
      | some (some event) ↦ d.process_keyevent k' event
    ]

module _ {pc : PcKeyboard} where
  unfoldable pub some_handle_data : SomeKeyboard pc → ℕ → Option pc.Key × SomeKeyboard pc
  some_handle_data (set1_keyboard k) b =
      let (key, k') = decode pc.set1 k b in (key, set1_keyboard k')
  some_handle_data (set2_keyboard k) b =
      let (key, k') = decode pc.set2 k b in (key, set2_keyboard k')

  abbrev pub keyboard_in : State pc → Keyboard pc
  keyboard_in s = record { state = s }

  unfoldable pub new : KeyboardKind → Option ℕ × Keyboard pc
  new kind =
      if is_mf2 kind
      then (some 0xF0, keyboard_in (init req_scancode_set_ack))
      else (none, keyboard_in disabled)

  -- The keyboard that `EnableAck(set)` starts.
  abbrev pub enabled : ℕ → State pc
  enabled set =
      if set == 1
      then normal (set1_keyboard pc.set1.fresh)
      else if set == 2
      then normal (set2_keyboard pc.set2.fresh)
      else disabled

  -- The `match self.state`: the new state, the byte to send back, and the key.
  unfoldable pub dispatch : State pc → ℕ → State pc × Option ℕ × Option pc.Key
  dispatch disabled b = (disabled, none, none)
  dispatch (init req_scancode_set_ack) b = (init req_scancode_set_rsp, some 0x00, none)
  dispatch (init req_scancode_set_rsp) b =
      if (b == 1) || (b == 2) || (b == 3)
      then (init (enable_ack b), some 0xF4, none)
      else if b == 0xFA
      then (init req_scancode_set_rsp, none, none)
      else (disabled, none, none)
  dispatch (init (enable_ack set)) b = (if b == 0xFA then enabled set else disabled, none, none)
  dispatch (normal k) b =
      let (key, k') = some_handle_data k b in
      if is_reply b then (normal k, none, none) else (normal k', none, key)

  unfoldable pub handle_data : Keyboard pc → ℕ → Keyboard pc × Option ℕ × Option pc.Key
  unfolding dispatch
  handle_data k b = let (s, reply, key) = dispatch k.state b in (keyboard_in s, reply, key)

  -- The state after several bytes in turn.
  unfoldable pub after : Keyboard pc → List ℕ → Keyboard pc
  after k [] = k
  after k (b ∷ bs) = after (handle_data k b).0 bs
