-- ===== src/I8042/Port/Phases.antt =====
-- The transition diagram of a port's identification, and the invariant of its states
-- (crates/i8042/src/lib.rs, `Port::handle_data`).
use snek_os.Prelude.{ℕ, Bool, true, false, List, [], ◌∷◌, ◌⊎◌, inl, inr, ◌≡◌, refl, arith, ◌∙◌}
use snek_os.I8042.Keyboard.{PcKeyboard}
use snek_os.I8042.Port.{
  ds_ack, ident_ack, ident_b1, ident_b2, PortState, nothing, unknown, enumerating, keyboard, mouse,
  Port, dispatch, handle_data, feed,
}

pub data Phase : Type 0 where
  silent reset stopped asked half_known identified_keyboard identified_mouse given_up : Phase

-- The phases that identification never leaves.
abbrev pub is_settled : Phase → Bool
is_settled identified_keyboard = true
is_settled identified_mouse = true
is_settled given_up = true
is_settled _ = false

-- The phases in which an unexpected byte ends the identification.
abbrev pub is_identifying : Phase → Bool
is_identifying reset = true
is_identifying stopped = true
is_identifying asked = true
is_identifying half_known = true
is_identifying _ = false

infix 40 ◌⟶◌
pub data ◌⟶◌ : Phase → Phase → Type 0 where
  idle_stays : silent ⟶ silent
  resets : silent ⟶ reset
  zero_ignored : reset ⟶ reset
  stops : reset ⟶ stopped
  asks : stopped ⟶ asked
  finds_mouse : asked ⟶ identified_mouse
  half_finds : asked ⟶ half_known
  finds_keyboard : half_known ⟶ identified_keyboard
  gives_up : {p : Phase} → is_identifying p ≡ true → p ⟶ given_up
  stays : {p : Phase} → is_settled p ≡ true → p ⟶ p

-- The phases that follow one another on the way.
infix 40 ◌⟶*◌
pub data ◌⟶*◌ : Phase → Phase → Type 0 where
  here : {p : Phase} → p ⟶* p
  next : {p q r : Phase} → p ⟶ q → q ⟶* r → p ⟶* r

module _ (pc : PcKeyboard) where
  abbrev pub phase : PortState pc → Phase
  phase nothing = silent
  phase unknown = given_up
  phase (enumerating ds_ack) = reset
  phase (enumerating ident_ack) = stopped
  phase (enumerating ident_b1) = asked
  phase (enumerating (ident_b2 _)) = half_known
  phase (keyboard _) = identified_keyboard
  phase (mouse _) = identified_mouse

  identify_b2-phase :
      (b1 b : ℕ)
      → (phase (dispatch (enumerating (ident_b2 b1)) b).0 ≡ identified_keyboard)
        ⊎ (phase (dispatch (enumerating (ident_b2 b1)) b).0 ≡ given_up)
  unfolding dispatch
  identify_b2-phase b1 b = ground arith

  dispatch-⟶ : (s : PortState pc) (b : ℕ) → phase s ⟶ phase (dispatch s b).0
  unfolding dispatch
  dispatch-⟶ nothing b =
      grind
        (arith, idle_stays, resets, zero_ignored, stops, asks, finds_mouse, half_finds, gives_up)
  dispatch-⟶ unknown b = stays refl
  dispatch-⟶ (enumerating ds_ack) b =
      grind
        (arith, idle_stays, resets, zero_ignored, stops, asks, finds_mouse, half_finds, gives_up)
  dispatch-⟶ (enumerating ident_ack) b =
      grind
        (arith, idle_stays, resets, zero_ignored, stops, asks, finds_mouse, half_finds, gives_up)
  dispatch-⟶ (enumerating ident_b1) b =
      grind
        (arith, idle_stays, resets, zero_ignored, stops, asks, finds_mouse, half_finds, gives_up)
  dispatch-⟶ (enumerating (ident_b2 b1)) b = elim (identify_b2-phase b1 b) [
    | inl e ↦ rw e finds_keyboard
    | inr e ↦ rw e (gives_up refl)
  ]
  dispatch-⟶ (keyboard k) b = stays refl
  dispatch-⟶ (mouse m) b = stays refl

  settled_stays :
      (s : PortState pc) (b : ℕ) → is_settled (phase s) ≡ true → phase (dispatch s b).0 ≡ phase s
  unfolding dispatch
  settled_stays unknown b h = refl
  settled_stays (keyboard k) b h = refl
  settled_stays (mouse m) b h = refl
  settled_stays nothing b h = cc
  settled_stays (enumerating ds_ack) b h = cc
  settled_stays (enumerating ident_ack) b h = cc
  settled_stays (enumerating ident_b1) b h = cc
  settled_stays (enumerating (ident_b2 b1)) b h = cc

  handle_data-⟶ : (p : Port pc) (b : ℕ) → phase p.state ⟶ phase (handle_data p b).0.state
  unfolding handle_data
  handle_data-⟶ p b = dispatch-⟶ p.state b

  -- Whatever bytes arrive, the phases of a port follow the edges of the diagram.
  pub feed-⟶* : (p : Port pc) (bs : List ℕ) → phase p.state ⟶* phase (feed p bs).0.state
  unfolding feed
  feed-⟶* p [] = here
  feed-⟶* p (b ∷ bs) = next (handle_data-⟶ p b) (feed-⟶* (handle_data p b).0 bs)

  handle_data-settled :
      (p : Port pc) (b : ℕ)
      → is_settled (phase p.state) ≡ true
      → phase (handle_data p b).0.state ≡ phase p.state
  unfolding handle_data
  handle_data-settled p b h = settled_stays p.state b h

  -- Once a port has found a keyboard or a mouse, or has given up, no bytes change which.
  feed-settled :
      (p : Port pc) (bs : List ℕ)
      → is_settled (phase p.state) ≡ true
      → phase (feed p bs).0.state ≡ phase p.state
  unfolding feed
  feed-settled p [] h = refl
  feed-settled p (b ∷ bs) h =
      let e = handle_data-settled p b h in feed-settled (handle_data p b).0 bs (rw e h) ∙ e
