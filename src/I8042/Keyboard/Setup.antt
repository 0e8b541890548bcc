-- ===== src/I8042/Keyboard/Setup.antt =====
-- The set-up dialogue of a keyboard (crates/i8042/src/keyboard.rs, `handle_data`): which byte streams
-- bring it to decode keys.
use snek_os.Prelude.{
  ℕ, zero, suc, Bool, true, false, ◌||◌, List, [], ◌∷◌, ◌++◌, ◌==◌, if◌then◌else◌, replicate,
  Bool-cases, ==_iff, ◌⊎◌, inl, inr, ◌≡◌, ◌↔◌, refl, arith, ap,
}
use snek_os.I8042.Keyboard.{
  PcKeyboard, SomeKeyboard, req_scancode_set_rsp, enable_ack, State, disabled, init, normal,
  keyboard_in, new, mf2, enabled, dispatch, handle_data, after,
}

-- What follows the first byte: acknowledgements, the number of the scancode set, an acknowledgement.
record Answers (bs : List ℕ) : Type 0 where
  acks : ℕ
  set : ℕ
  rest : List ℕ
  stream : bs ≡ replicate acks 0xFA ++ set ∷ 0xFA ∷ rest
  known : (set ≡ 1) ⊎ (set ≡ 2)

-- A stream that starts an MF2 keyboard: an acknowledgement, any number of further ones, the number
-- of its scancode set, one acknowledgement, and then anything.
pub record Starts (bs : List ℕ) : Type 0 where
  pub first : ℕ
  pub acks : ℕ
  pub set : ℕ
  pub rest : List ℕ
  pub stream : bs ≡ first ∷ replicate acks 0xFA ++ set ∷ 0xFA ∷ rest
  pub known : (set ≡ 1) ⊎ (set ≡ 2)

module _ (pc : PcKeyboard) where
  abbrev pub is_normal : State pc → Bool
  is_normal disabled = false
  is_normal (init _) = false
  is_normal (normal _) = true

  disabled_stays : (bs : List ℕ) → after {pc = pc} (keyboard_in disabled) bs ≡ keyboard_in disabled
  unfolding after handle_data dispatch
  disabled_stays [] = refl
  disabled_stays (b ∷ bs) = disabled_stays bs

  dispatch-normal : (k : SomeKeyboard pc) (b : ℕ) → is_normal (dispatch (normal k) b).0 ≡ true
  unfolding dispatch
  dispatch-normal k b = ground arith

  normal_stays :
      (s : State pc) (bs : List ℕ)
      → is_normal s ≡ true
      → is_normal (after (keyboard_in s) bs).state ≡ true
  unfolding after handle_data
  normal_stays s [] h = h
  normal_stays disabled (b ∷ bs) h = cc
  normal_stays (init i) (b ∷ bs) h = cc
  normal_stays (normal k) (b ∷ bs) h =
      normal_stays (dispatch (normal k) b).0 bs (dispatch-normal k b)

  abbrev IsRunning : State pc → List ℕ → Type 0
  IsRunning s bs = is_normal (after (keyboard_in s) bs).state ≡ true

  not-IsRunning : (bs : List ℕ) → ¬ IsRunning disabled bs
  not-IsRunning bs h = cc (disabled_stays bs)

  enabled-running : (set : ℕ) (bs : List ℕ) → IsRunning (enabled set) bs → (set ≡ 1) ⊎ (set ≡ 2)
  enabled-running set bs h = elim (Bool-cases (set == 1)) [
    | inl e ↦ inl ((==_iff set 1).0 e)
    | inr e ↦ elim (Bool-cases (set == 2)) [
      | inl f ↦ inr ((==_iff set 2).0 f)
      | inr f ↦ absurd (not-IsRunning bs (rw (e, f) at h))
    ]
  ]

  after-enable_ack :
      (set b : ℕ) (bs : List ℕ)
      → after {pc = pc} (keyboard_in (init (enable_ack set))) (b ∷ bs)
        ≡ after (keyboard_in (if b == 0xFA then enabled set else disabled)) bs
  unfolding after handle_data dispatch
  after-enable_ack set b bs = refl

  after-rsp :
      (b : ℕ) (bs : List ℕ)
      → after {pc = pc} (keyboard_in (init req_scancode_set_rsp)) (b ∷ bs)
        ≡ after
            (keyboard_in (
              if (b == 1) || (b == 2) || (b == 3)
              then init (enable_ack b)
              else if b == 0xFA
              then init req_scancode_set_rsp
              else disabled))
            bs
  unfolding after handle_data dispatch
  after-rsp b bs = ground arith

  -- After `EnableAck(set)` only an acknowledgement of set 1 or 2 leads on.
  enable_ack-running :
      (set : ℕ) (bs : List ℕ)
      → IsRunning (init (enable_ack set)) bs
      → (rest : List ℕ) × (bs ≡ 0xFA ∷ rest) × ((set ≡ 1) ⊎ (set ≡ 2))
  unfolding after handle_data dispatch
  enable_ack-running set [] h = cc
  enable_ack-running set (b ∷ bs) h = elim (Bool-cases (b == 0xFA)) [
    | inl e ↦ (bs, rw ((==_iff b 0xFA).0 e), enabled-running set bs (rw (after-enable_ack, e) at h))
    | inr e ↦ absurd (not-IsRunning bs (rw (after-enable_ack, e) at h))
  ]

  Answers-here : (b : ℕ) (bs : List ℕ) → IsRunning (init (enable_ack b)) bs → Answers (b ∷ bs)
  Answers-here b bs h =
      let (rest, e, known) = enable_ack-running b bs h in
      record { acks = 0; set = b; rest = rest; stream = ap (λ t. b ∷ t) e; known = known }

  Answers-later : (b : ℕ) (bs : List ℕ) → b ≡ 0xFA → Answers bs → Answers (b ∷ bs)
  Answers-later b bs e a = record {
    acks = suc a.acks;
    set = a.set;
    rest = a.rest;
    stream = rw (e, a.stream);
    known = a.known;
  }

  rsp-running : (bs : List ℕ) → IsRunning (init req_scancode_set_rsp) bs → Answers bs
  unfolding after handle_data dispatch
  rsp-running [] h = cc
  rsp-running (b ∷ bs) h = elim (Bool-cases ((b == 1) || (b == 2) || (b == 3))) [
    | inl e ↦ Answers-here b bs (rw (after-rsp, e) at h)
    | inr e ↦ elim (Bool-cases (b == 0xFA)) [
      | inl f ↦
          Answers-later b bs ((==_iff b 0xFA).0 f) (rsp-running bs (rw (after-rsp, e, f) at h))
      | inr f ↦ absurd (not-IsRunning bs (rw (after-rsp, e, f) at h))
    ]
  ]

  new-running : (bs : List ℕ) → IsRunning (new {pc = pc} mf2).1.state bs → Starts bs
  unfolding after handle_data dispatch new
  new-running [] h = cc
  new-running (b ∷ bs) h =
      let a = rsp-running bs h in
      record {
        first = b;
        acks = a.acks;
        set = a.set;
        rest = a.rest;
        stream = ap (λ t. b ∷ t) a.stream;
        known = a.known;
      }

  IsRunning-enabled : (set : ℕ) (bs : List ℕ) → (set ≡ 1) ⊎ (set ≡ 2) → IsRunning (enabled set) bs
  IsRunning-enabled set bs (inl e) = normal_stays (enabled set) bs (rw e)
  IsRunning-enabled set bs (inr e) = normal_stays (enabled set) bs (rw e)

  IsRunning-answers :
      (acks set : ℕ) (rest : List ℕ)
      → (set ≡ 1) ⊎ (set ≡ 2)
      → IsRunning (init req_scancode_set_rsp) (replicate acks 0xFA ++ set ∷ 0xFA ∷ rest)
  unfolding after handle_data dispatch
  IsRunning-answers zero set rest (inl e) = rw e (IsRunning-enabled 1 rest (inl refl))
  IsRunning-answers zero set rest (inr e) = rw e (IsRunning-enabled 2 rest (inr refl))
  IsRunning-answers (suc acks) set rest known = IsRunning-answers acks set rest known

  IsRunning-new : (bs : List ℕ) → Starts bs → IsRunning (new {pc = pc} mf2).1.state bs
  unfolding after handle_data dispatch new
  IsRunning-new bs s = rw s.stream (IsRunning-answers s.acks s.set s.rest s.known)

  -- An MF2 keyboard decodes keys after a byte stream exactly when the stream starts with some byte,
  -- then any number of acknowledgements 0xFA, then the scancode set 1 or 2, then an acknowledgement.
  pub after-normal_iff :
      (bs : List ℕ) → (is_normal (after (new {pc = pc} mf2).1 bs).state ≡ true) ↔ Starts bs
  after-normal_iff bs = (new-running bs, IsRunning-new bs)
