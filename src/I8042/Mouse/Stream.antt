-- ===== src/I8042/Mouse/Stream.antt =====
-- Whole byte streams through `Mouse::handle_data` (crates/i8042/src/mouse.rs).
use snek_os.Prelude.{
  ℕ, ◌≤◌, false, Option, none, some, List, [], ◌∷◌, ◌++◌, ◌≡◌, ◌∙◌, refl, arith, has,
}
use snek_os.Prelude.Int.{ℤ, pos, negsuc}
use snek_os.I8042.Mouse.{
  State, ack, idle, wait_byte2, wait_byte3, MouseState, Mouse, saturating_add_signed, next_state,
  dispatch, handle_data, feed, reported,
}
use snek_os.I8042.Mouse.Packet.{Movement, encode, moved, report, at_rest, feed-encode, finish_lem}

-- What a mouse sends: packets, and between them bytes without the sync bit.
pub data Item : Type 0 where
  noise : ℕ → Item
  packet : Movement → Item

abbrev pub IsItem : Item → Type 0
IsItem (noise b) = has b 0x8 ≡ false
IsItem (packet p) = Unit {0}

abbrev pub AreItems : List Item → Type 0
AreItems [] = Unit {0}
AreItems (i ∷ is) = IsItem i × AreItems is

abbrev pub bytes : List Item → List ℕ
bytes [] = []
bytes (noise b ∷ is) = b ∷ bytes is
bytes (packet p ∷ is) = encode p ++ bytes is

-- The reference: where the pointer ends, and the states worth a report on the way.
abbrev pub final : MouseState → List Item → MouseState
final s [] = s
final s (noise b ∷ is) = final s is
final s (packet p ∷ is) = final (moved s p) is

abbrev pub track : MouseState → List Item → List MouseState
track s [] = []
track s (noise b ∷ is) = track s is
track s (packet p ∷ is) = reported (report s p) (track (moved s p) is)

reported-append {ℓ} :
    {A : Type ℓ} (o : Option A) (xs ys : List A) → reported o xs ++ ys ≡ reported o (xs ++ ys)
reported-append none xs ys = refl
reported-append (some a) xs ys = refl

feed-append :
    (m : Mouse) (xs ys : List ℕ)
    → feed m (xs ++ ys) ≡ ((feed (feed m xs).0 ys).0, (feed m xs).1 ++ (feed (feed m xs).0 ys).1)
unfolding feed
feed-append m [] ys = refl
feed-append m (x ∷ xs) ys = rw (feed-append (handle_data m x).0 xs ys, reported-append)

feed-nil : (m : Mouse) → feed m [] ≡ (m, [])
unfolding feed
feed-nil m = refl

feed-noise :
    (s : MouseState) (b : ℕ) (bs : List ℕ)
    → has b 0x8 ≡ false
    → feed (at_rest s) (b ∷ bs) ≡ feed (at_rest s) bs
unfolding feed handle_data
feed-noise s b bs h = rw h

feed-packet :
    (s : MouseState) (p : Movement) (bs : List ℕ)
    → let (m, rs) = feed (at_rest (moved s p)) bs in
      feed (at_rest s) (encode p ++ bs) ≡ (m, reported (report s p) rs)
feed-packet s p bs = rw (feed-append (at_rest s) (encode p) bs, feed-encode s p, reported-append)

-- An idle mouse that is handed any stream of packets, with bytes that lack the sync bit between
-- them, ends idle where the movements lead, and reports in order each state that differs from the
-- one before it. A movement that overflows its nine bits counts as 256 in its direction.
pub feed-bytes :
    (s : MouseState) (is : List Item)
    → AreItems is
    → feed (at_rest s) (bytes is) ≡ (at_rest (final s is), track s is)
feed-bytes s [] h = feed-nil (at_rest s)
feed-bytes s (noise b ∷ is) h = feed-noise s b (bytes is) h.0 ∙ feed-bytes s is h.1
feed-bytes s (packet p ∷ is) h = feed-packet s p (bytes is) ∙ rw (feed-bytes (moved s p) is h.1)

abbrev pub OnScreen : MouseState → Type 0
OnScreen s = (s.x ≤ 65535) × (s.y ≤ 65535)

saturating_add_signed-le : (a : ℕ) (d : ℤ) → a ≤ 65535 → saturating_add_signed a d ≤ 65535
saturating_add_signed-le a (pos n) h = omega arith
saturating_add_signed-le a (negsuc n) h = omega arith

next_state-OnScreen : (s : MouseState) (b1 b2 b : ℕ) → OnScreen s → OnScreen (next_state s b1 b2 b)
unfolding next_state
next_state-OnScreen s b1 b2 b h =
    (saturating_add_signed-le s.x _ h.0, saturating_add_signed-le s.y _ h.1)

dispatch-OnScreen :
    (t : State) (m : Mouse) (b : ℕ)
    → OnScreen m.mouse_state
    → OnScreen (dispatch t m b).0.mouse_state
unfolding dispatch
dispatch-OnScreen ack m b h = h
dispatch-OnScreen idle m b h = ground arith
dispatch-OnScreen (wait_byte2 b1) m b h = h
dispatch-OnScreen (wait_byte3 b1 b2) m b h =
    rw (finish_lem m (next_state m.mouse_state b1 b2 b))
      (next_state-OnScreen m.mouse_state b1 b2 b h)

pub handle_data-OnScreen :
    (m : Mouse) (b : ℕ) → OnScreen m.mouse_state → OnScreen (handle_data m b).0.mouse_state
unfolding handle_data
handle_data-OnScreen m b h = dispatch-OnScreen m.state m b h

-- Whatever bytes arrive, in whatever state of the packet, the position stays in 16 bits.
pub feed-OnScreen :
    (m : Mouse) (bs : List ℕ) → OnScreen m.mouse_state → OnScreen (feed m bs).0.mouse_state
unfolding feed
feed-OnScreen m [] h = h
feed-OnScreen m (b ∷ bs) h = feed-OnScreen (handle_data m b).0 bs (handle_data-OnScreen m b h)
