-- ===== src/I8042/Port/Identify.antt =====
-- From power-on to a working device: `Port::handle_data` of crates/i8042/src/lib.rs over the bytes of
-- a mouse and of a keyboard, with the replies that the port sends.
use snek_os.Prelude.{ℕ, Option, none, some, List, [], ◌∷◌, map, ◌⊎◌, inl, inr, ◌≡◌, refl, ◌∙◌}
use snek_os.I8042.Mouse
use snek_os.I8042.Mouse.{MouseState, Mouse, fresh_state, reported}
use snek_os.I8042.Mouse.Packet.{at_rest}
use snek_os.I8042.Mouse.Stream.{Item, AreItems, bytes, final, track, feed-bytes}
use snek_os.I8042.Keyboard
use snek_os.I8042.Keyboard.{PcKeyboard, Keyboard, keyboard_in, enabled}
use snek_os.I8042.Port.{mouse_change, keyboard, mouse, port_in, new, handle_data, feed, change}

-- The bytes 0x00, 0x03 and 0x04 identify a mouse.
abbrev pub IsMouseId : ℕ → Type 0
IsMouseId id = (id ≡ 0x00) ⊎ (id ≡ 0x03) ⊎ (id ≡ 0x04)

module _ {pc : PcKeyboard} where
  reported-change :
      (o : Option MouseState) (ss : List MouseState)
      → reported (change {pc = pc} mouse_change o) (map mouse_change ss)
        ≡ map mouse_change (reported o ss)
  reported-change none ss = refl
  reported-change (some s) ss = refl

  -- Behind an identified mouse the port only decodes packets.
  feed-mouse :
      (m : Mouse) (bs : List ℕ)
      → feed (port_in {pc = pc} (mouse m)) bs
        ≡ (port_in (mouse (Mouse.feed m bs).0), [], map mouse_change (Mouse.feed m bs).1)
  unfolding feed handle_data Mouse.feed
  feed-mouse m [] = refl
  feed-mouse m (b ∷ bs) = rw (feed-mouse (Mouse.handle_data m b).0 bs, reported-change)

  -- The five bytes of a mouse that resets, is told to stop, is asked who it is, says so and is
  -- enabled.
  mouse_up :
      (id : ℕ) (bs : List ℕ)
      → IsMouseId id
      → let (p, replies, cs) = feed (port_in {pc = pc} (mouse (at_rest fresh_state))) bs in
        feed new (0xAA ∷ 0xFA ∷ 0xFA ∷ id ∷ 0xFA ∷ bs) ≡ (p, 0xF5 ∷ 0xF2 ∷ 0xF4 ∷ replies, cs)
  unfolding feed handle_data new Mouse.handle_data
  mouse_up id bs (inl e) = rw e
  mouse_up id bs (inr (inl e)) = rw e
  mouse_up id bs (inr (inr e)) = rw e

  -- A new port that hears a mouse reset (0xAA), two acknowledgements, a mouse's identification, an
  -- acknowledgement, and then any stream of packets with unsynchronised bytes between them, sends
  -- 0xF5, 0xF2 and 0xF4 and nothing more, and reports the mouse states that the movements lead to
  -- from the origin, where a movement that overflows its nine bits counts as 256 in its direction.
  pub feed-new_mouse :
      (id : ℕ) (is : List Item)
      → IsMouseId id
      → AreItems is
      → feed (new {pc = pc}) (0xAA ∷ 0xFA ∷ 0xFA ∷ id ∷ 0xFA ∷ bytes is) ≡ (
        port_in (mouse (at_rest (final fresh_state is))),
        0xF5 ∷ 0xF2 ∷ 0xF4 ∷ [],
        map mouse_change (track fresh_state is),
      )
  feed-new_mouse id is h items =
      mouse_up id (bytes is) h
      ∙ rw (feed-mouse (at_rest fresh_state) (bytes is), feed-bytes fresh_state is items)

  -- A new port that hears an MF2 keyboard reset, identify itself (0xAB 0x83), acknowledge twice, name
  -- scancode set 1 or 2 and acknowledge again, has sent 0xF5, 0xF2, 0xF0, 0x00 and 0xF4, has reported
  -- nothing, and decodes keys with a fresh decoder of that set.
  pub feed-new_keyboard :
      (set : ℕ)
      → (set ≡ 1) ⊎ (set ≡ 2)
      → feed (new {pc = pc}) (0xAA ∷ 0xFA ∷ 0xFA ∷ 0xAB ∷ 0x83 ∷ 0xFA ∷ 0xFA ∷ set ∷ 0xFA ∷ []) ≡ (
        port_in (keyboard (keyboard_in (enabled set))),
        0xF5 ∷ 0xF2 ∷ 0xF0 ∷ 0x00 ∷ 0xF4 ∷ [],
        [],
      )
  unfolding feed handle_data new Keyboard.handle_data
  feed-new_keyboard set (inl e) = rw e
  feed-new_keyboard set (inr e) = rw e
