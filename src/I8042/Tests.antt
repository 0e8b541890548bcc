-- ===== src/I8042/Tests.antt =====
-- Runs of the controller's driver on concrete devices (crates/i8042/src/lib.rs).
use snek_os.Prelude.{
  ℕ, zero, suc, ◌≤◌, ◌<◌, Bool, true, false, some, List, [], ◌∷◌, map, if◌then◌else◌, ◌≡◌, ◌≢◌, has,
  ◌↔◌, inl, inr, refl, arith,
}
use mathlib.Core.Bool.{false≢true}
use snek_os.Prelude.Int.{pos, negsuc}
use snek_os.I8042.Mouse
use snek_os.I8042.Mouse.{Mouse, MouseState, fresh_state, reported}
use snek_os.I8042.Mouse.Packet.{Movement, at_rest}
use snek_os.I8042.Mouse.Stream.{
  Item, noise, packet, OnScreen, final, track, feed-bytes, feed-OnScreen,
}
use snek_os.I8042.Mouse.Stream
use snek_os.I8042.Keyboard
use snek_os.I8042.Keyboard.{ScancodeDecoder, PcKeyboard, mf2, after, keyboard_in, enabled}
use snek_os.I8042.Keyboard.Setup.{Starts, is_normal, after-normal_iff}
use snek_os.I8042.Port
use snek_os.I8042.Port.{Port, port_in, mouse, keyboard, mouse_change, nothing, unknown}
use snek_os.I8042.Port.Identify.{feed-new_mouse}
use snek_os.I8042.Driver
use snek_os.I8042.Driver.{
  Impl, Driver, ok, err, no_fuel, timed_out, poll_in, spin, flush, init, irq1, irq12,
}
use snek_os.I8042.Driver.Wait.{poll_at}
use snek_os.I8042.Driver.Total.{Drains, init-ends}
use snek_os.I8042.Driver.Setup.{Reports, init-Reports}
use snek_os.I8042.Driver.Interrupt.{Event, Loaded, Served, serve, serve-Served}

-- A decoder that takes each byte for a key.
abbrev bytewise : ScancodeDecoder ℕ ℕ
bytewise = record {
  Decoder = ℕ;
  fresh = 0;
  add_byte = λ k b. (some (some b), b);
  process_keyevent = λ k e. (some e, k);
}

abbrev pc : PcKeyboard
pc = record { Event = ℕ; Key = ℕ; set1 = bytewise; set2 = bytewise }

-- A device that passes its self test, with an output buffer of one byte, which a command fills.
abbrev one_byte : Impl
one_byte = record {
  Device = Bool;
  write_cmd = λ s c. true;
  read_status = λ s. (if s then 1 else 0, s);
  write_data = λ s b. s;
  read_data = λ s. (0x55, false);
}

abbrev count : Bool → ℕ
count true = 1
count false = 0

count-le : (s : Bool) → count s ≤ 1
count-le true = omega arith
count-le false = omega arith

count-read : (s : one_byte.Device) → has (one_byte.read_status s).0 1 ≡ true → 0 < count s
count-read true e = omega arith
count-read false e = absurd (false≢true e)

abbrev drains : Drains one_byte 1
drains = record { pending = count; pending_cap = count-le; pending_read = count-read }

abbrev full : Driver pc one_byte
full = Driver.new true

-- One packet to the right and down with the left button, and bytes without the sync bit around it.
abbrev movement : Movement
movement = record {
  dx = pos 3;
  dy = negsuc 1;
  left_down = true;
  right_down = false;
  middle_down = false;
}

-- One far to the left and up, which overflows.
abbrev leap : Movement
leap = record movement { dx = negsuc 300; dy = pos 999 }

abbrev items : List Item
items = noise 0 ∷ packet movement ∷ noise 3 ∷ packet leap ∷ []

are_items : Stream.AreItems items
are_items = (refl, (tt, (refl, (tt, tt))))

feed-bytes_example :
    Mouse.feed (at_rest fresh_state) (Stream.bytes items)
    ≡ (at_rest (final fresh_state items), track fresh_state items)
feed-bytes_example = feed-bytes fresh_state items are_items

after-normal_iff_example :
    (is_normal pc (after (Keyboard.new {pc = pc} mf2).1 (0xFA ∷ 0xFA ∷ 2 ∷ 0xFA ∷ [])).state ≡ true)
    ↔ Starts (0xFA ∷ 0xFA ∷ 2 ∷ 0xFA ∷ [])
after-normal_iff_example = after-normal_iff pc (0xFA ∷ 0xFA ∷ 2 ∷ 0xFA ∷ [])

feed-new_mouse_example :
    Port.feed (Port.new {pc = pc}) (0xAA ∷ 0xFA ∷ 0xFA ∷ 3 ∷ 0xFA ∷ Stream.bytes items) ≡ (
      port_in (mouse (at_rest (final fresh_state items))),
      0xF5 ∷ 0xF2 ∷ 0xF4 ∷ [],
      map mouse_change (track fresh_state items),
    )
feed-new_mouse_example = feed-new_mouse 3 items (inr (inl refl)) are_items

empty_poll : (j : ℕ) → j < 3 → poll_at poll_in j (record full { device = false }) ≡ ok false
unfolding poll_in
empty_poll zero lt = refl
empty_poll (suc j) lt = empty_poll j (omega (arith, lt))

init-ends_example : (init 2 full).0 ≢ no_fuel
init-ends_example = init-ends 1 drains 2 full (omega arith)

init-Reports_example : Reports full (init 2 full).0 (init 2 full).1
init-Reports_example = init-Reports 2 full

-- A keyboard on the first port and a mouse on the second reset at the same time.
abbrev events : List Event
events = (irq1, 0xAA) ∷ (irq12, 0xAA) ∷ (irq12, 0xFA) ∷ (irq1, 0xFA) ∷ []

serve-Served_example :
    Served {pc = pc} events
      (port_in nothing)
      (port_in nothing)
      []
      (serve events (Loaded events (port_in nothing) (port_in nothing) []))
serve-Served_example = serve-Served events (port_in nothing) (port_in nothing) [] refl
