-- ===== src/Input/Wakes.antt =====
-- No wake-up is lost between interrupts and polls (kernel/src/drivers/i8042.rs, `next_key`).
use mathlib.Core.Bool.{false≢true}
use snek_os.Prelude.{
  ℕ, Bool, Bool-cases, true, false, ◌||◌, List, [], Option, Option-cases, none, some, ◌==◌, ◌≡◌,
  ◌⊎◌, inl, inr, refl, sym, ◌∙◌, arith,
}
use snek_os.Input.{
  Crates, Channel, Poll, start, registers, pops, takes, ready, pending, Handler, pushes, wakes,
  ends, advance, handle,
}
use snek_os.Input.Steps.{
  Laws, is_task, is_wakes, Reach, inits, polls, handles, interrupts, again, view,
}

module _ {A : Type 0} (lib : Crates A) (laws : Laws lib) (task : ℕ) where
  -- The task has been woken, or the waker is the task's.
  abbrev IsArmed : Channel lib → Bool → Type 0
  IsArmed c woken = (woken ≡ true) ⊎ (laws.registered c.waker ≡ some task)

  -- The queue is empty, or the task has been woken, or a handler is about to wake.
  abbrev IsSeen : Handler A → Channel lib → Bool → Type 0
  IsSeen h c woken = (view lib laws c.queue ≡ []) ⊎ (woken ≡ true) ⊎ (is_wakes h ≡ true)

  abbrev IsSound : Poll A → Handler A → Channel lib → Bool → Type 0
  IsSound start h c woken = Unit {0}
  IsSound registers h c woken = Unit {0}
  IsSound pops h c woken = IsArmed c woken
  IsSound (takes a) h c woken = Unit {0}
  IsSound (ready r) h c woken = Unit {0}
  IsSound pending h c woken = IsArmed c woken × IsSeen h c woken

  first-IsSound :
      (q : Option lib.ArrayQueue) (w : lib.AtomicWaker) (h : Handler A) (woken : Bool)
      → IsSound
          (advance lib task start (record { queue = q; waker = w })).0
          h
          (advance lib task start (record { queue = q; waker = w })).1
          woken
  unfolding advance
  first-IsSound none w h woken = tt
  first-IsSound (some q) w h woken = elim (Option-cases (lib.pop q).0) [
    | inl empty ↦ rw empty tt
    | inr (a, first) ↦ rw first tt
  ]

  second-IsSound :
      (q : Option lib.ArrayQueue) (w : lib.AtomicWaker) (h : Handler A) (woken : Bool)
      → IsArmed (record { queue = q; waker = w }) woken
      → IsSound
          (advance lib task pops (record { queue = q; waker = w })).0
          h
          (advance lib task pops (record { queue = q; waker = w })).1
          woken
  unfolding advance
  second-IsSound none w h woken armed = tt
  second-IsSound (some q) w h woken armed = elim (Option-cases (lib.pop q).0) [
    | inl empty ↦ rw empty (armed, inl (laws.pop-empty q empty).1)
    | inr (a, first) ↦ rw first tt
  ]

  advance-IsSound :
      (p : Poll A) (h : Handler A) (c : Channel lib) (woken : Bool)
      → IsSound p h c woken
      → IsSound (advance lib task p c).0 h (advance lib task p c).1 woken
  unfolding advance
  advance-IsSound start h c woken sound = first-IsSound c.queue c.waker h woken
  advance-IsSound registers h c woken sound = inr (laws.register-registered task c.waker)
  advance-IsSound pops h c woken sound = second-IsSound c.queue c.waker h woken sound
  advance-IsSound (takes a) h c woken sound = tt
  advance-IsSound (ready r) h c woken sound = tt
  advance-IsSound pending h c woken sound = sound

  or_false : (b : Bool) → (b || false) ≡ b
  or_false true = refl
  or_false false = refl

  or_true : (b : Bool) → (b || true) ≡ true
  or_true true = refl
  or_true false = refl

  equal : (t : ℕ) → (t == t) ≡ true
  equal t = ground arith

  -- A waker that is woken wakes an armed task.
  wake-armed :
      (c : Channel lib) (woken : Bool)
      → IsArmed c woken
      → (woken || is_task task (lib.wake c.waker).0) ≡ true
  wake-armed c woken (inl is_woken) = rw is_woken refl
  wake-armed c woken (inr is_registered) =
      rw (laws.wake-registered c.waker, is_registered, equal task) (or_true woken)

  woken-IsSound :
      (p : Poll A) (c c' : Channel lib) (woken woken' : Bool)
      → (IsArmed c woken → woken' ≡ true)
      → IsSound p wakes c woken
      → IsSound p ends c' woken'
  woken-IsSound start c c' woken woken' wake sound = tt
  woken-IsSound registers c c' woken woken' wake sound = tt
  woken-IsSound pops c c' woken woken' wake armed = inl (wake armed)
  woken-IsSound (takes a) c c' woken woken' wake sound = tt
  woken-IsSound (ready r) c c' woken woken' wake sound = tt
  woken-IsSound pending c c' woken woken' wake (armed, seen) =
      (inl (wake armed), inr (inl (wake armed)))

  -- What a handler does before it wakes, with the queue as it leaves it.
  IsSeen-moves :
      (h h' : Handler A) (c c' : Channel lib) (woken : Bool)
      → is_wakes h ≡ false
      → (is_wakes h' ≡ true) ⊎ (view lib laws c'.queue ≡ view lib laws c.queue)
      → IsSeen h c woken
      → IsSeen h' c' woken
  IsSeen-moves h h' c c' woken quiet (inl next) seen = inr (inr next)
  IsSeen-moves h h' c c' woken quiet (inr same) (inl empty) = inl (same ∙ empty)
  IsSeen-moves h h' c c' woken quiet (inr same) (inr (inl is_woken)) = inr (inl is_woken)
  IsSeen-moves h h' c c' woken quiet (inr same) (inr (inr now)) =
      absurd (false≢true (sym quiet ∙ now))

  moves-IsSound :
      (p : Poll A) (h h' : Handler A) (c c' : Channel lib) (woken : Bool)
      → is_wakes h ≡ false
      → c'.waker ≡ c.waker
      → (is_wakes h' ≡ true) ⊎ (view lib laws c'.queue ≡ view lib laws c.queue)
      → IsSound p h c woken
      → IsSound p h' c' woken
  moves-IsSound start h h' c c' woken quiet waker moves sound = tt
  moves-IsSound registers h h' c c' woken quiet waker moves sound = tt
  moves-IsSound pops h h' c c' woken quiet waker moves armed = rw waker armed
  moves-IsSound (takes a) h h' c c' woken quiet waker moves sound = tt
  moves-IsSound (ready r) h h' c c' woken quiet waker moves sound = tt
  moves-IsSound pending h h' c c' woken quiet waker moves (armed, seen) =
      (rw waker armed, IsSeen-moves h h' c c' woken quiet moves seen)

  push-IsSound :
      (p : Poll A) (a : A) (q : Option lib.ArrayQueue) (w : lib.AtomicWaker) (woken : Bool)
      → IsSound p (pushes a) (record { queue = q; waker = w }) woken
      → IsSound p
          (handle lib (pushes a) (record { queue = q; waker = w })).0
          (handle lib (pushes a) (record { queue = q; waker = w })).1
          woken
  unfolding handle
  push-IsSound p a none w woken sound =
      moves-IsSound p (pushes a) ends (record { queue = none; waker = w })
        (record { queue = none; waker = w }) woken refl refl (inr refl) sound
  push-IsSound p a (some q) w woken sound = elim (Bool-cases (lib.push a q).0) [
    | inl room ↦ rw room (
        moves-IsSound p (pushes a) wakes (record { queue = some q; waker = w })
          (record { queue = some (lib.push a q).1; waker = w }) woken refl refl (inl refl) sound)
    | inr full ↦ rw full (
        moves-IsSound p (pushes a) ends (record { queue = some q; waker = w })
          (record { queue = some (lib.push a q).1; waker = w }) woken refl refl
          (inr (laws.push-full a q full)) sound)
  ]

  handle-IsSound :
      (p : Poll A) (h : Handler A) (c : Channel lib) (woken : Bool)
      → IsSound p h c woken
      → IsSound p (handle lib h c).0 (handle lib h c).1 (woken || is_task task (handle lib h c).2)
  unfolding handle
  handle-IsSound p (pushes a) c woken sound =
      rw (or_false woken) (push-IsSound p a c.queue c.waker woken sound)
  handle-IsSound p wakes c woken sound =
      woken-IsSound p c (handle lib wakes c).1 woken (woken || is_task task (lib.wake c.waker).0)
        (wake-armed c woken) sound
  handle-IsSound p ends c woken sound = rw (or_false woken) sound

  Reach-IsSound :
      {ins outs : List A} {p : Poll A} {h : Handler A} {c : Channel lib} {woken : Bool}
      → Reach lib task ins outs p h c woken
      → IsSound p h c woken
  Reach-IsSound inits = tt
  Reach-IsSound (polls {ins} {outs} {p} {h} {c} {woken} r) =
      advance-IsSound p h c woken (Reach-IsSound r)
  Reach-IsSound (handles {ins} {outs} {p} {h} {c} {woken} r) =
      handle-IsSound p h c woken (Reach-IsSound r)
  Reach-IsSound (interrupts {ins} {outs} {p} {c} {woken} a r) =
      moves-IsSound p ends (pushes a) c c woken refl refl (inr refl) (Reach-IsSound r)
  Reach-IsSound (again ended r) = tt

  -- Whatever the order of the operations of polls and interrupts, the task of a poll that has ended
  -- without a key waits for nothing that is there: the queue is empty, or the task has been woken since
  -- the poll started, or a handler is about to wake it, with the task's waker in place or the task woken.
  pub Reach-awake :
      {ins outs : List A} {h : Handler A} {c : Channel lib} {woken : Bool}
      → Reach lib task ins outs pending h c woken
      → ((woken ≡ true) ⊎ (laws.registered c.waker ≡ some task))
        × ((view lib laws c.queue ≡ []) ⊎ (woken ≡ true) ⊎ (is_wakes h ≡ true))
  Reach-awake r = Reach-IsSound r
