-- ===== src/Input/Order.antt =====
-- Key presses arrive once each and in order (kernel/src/drivers/i8042.rs).
use snek_os.Prelude.{
  ℕ, Bool, Bool-cases, List, ◌++◌, Option, Option-cases, none, some, append-nil, append_assoc, ◌≡◌,
  inl, inr, refl, sym, ap, ◌∙◌,
}
use snek_os.Input.{
  Crates, Channel, Poll, start, registers, pops, takes, ready, pending, Handler, pushes, wakes,
  ends, advance, handle,
}
use snek_os.Input.Steps.{Laws, view, taken, got, Reach, inits, polls, handles, interrupts, again}

module _ {A : Type 0} (lib : Crates A) (laws : Laws lib) (task : ℕ) where
  first-keeps :
      (q : Option lib.ArrayQueue) (w : lib.AtomicWaker)
      → (got lib (advance lib task start (record { queue = q; waker = w })).0
          ++ view lib laws (advance lib task start (record { queue = q; waker = w })).1.queue)
        ≡ view lib laws q
  unfolding advance
  first-keeps none w = refl
  first-keeps (some q) w = elim (Option-cases (lib.pop q).0) [
    | inl empty ↦ rw empty ((laws.pop-empty q empty).1 ∙ sym (laws.pop-empty q empty).0)
    | inr (a, first) ↦ rw first (sym (laws.pop-first a q first))
  ]

  second-keeps :
      (q : Option lib.ArrayQueue) (w : lib.AtomicWaker)
      → (got lib (advance lib task pops (record { queue = q; waker = w })).0
          ++ view lib laws (advance lib task pops (record { queue = q; waker = w })).1.queue)
        ≡ view lib laws q
  unfolding advance
  second-keeps none w = refl
  second-keeps (some q) w = elim (Option-cases (lib.pop q).0) [
    | inl empty ↦ rw empty ((laws.pop-empty q empty).1 ∙ sym (laws.pop-empty q empty).0)
    | inr (a, first) ↦ rw first (sym (laws.pop-first a q first))
  ]

  -- A poll takes what it gets from the front of the queue.
  advance-keeps :
      (p : Poll A) (c : Channel lib)
      → (got lib (advance lib task p c).0 ++ view lib laws (advance lib task p c).1.queue)
        ≡ got lib p ++ view lib laws c.queue
  unfolding advance
  advance-keeps start c = first-keeps c.queue c.waker
  advance-keeps registers c = refl
  advance-keeps pops c = second-keeps c.queue c.waker
  advance-keeps (takes a) c = refl
  advance-keeps (ready r) c = refl
  advance-keeps pending c = refl

  push-adds :
      (a : A) (q : Option lib.ArrayQueue) (w : lib.AtomicWaker)
      → view lib laws (handle lib (pushes a) (record { queue = q; waker = w })).1.queue
        ≡ view lib laws q ++ taken lib (pushes a) q
  unfolding handle
  push-adds a none w = refl
  push-adds a (some q) w = elim (Bool-cases (lib.push a q).0) [
    | inl room ↦ rw room (laws.push-room a q room)
    | inr full ↦ rw full (laws.push-full a q full ∙ sym (append-nil (laws.contents q)))
  ]

  -- A handler adds what the queue takes at its end.
  handle-adds :
      (h : Handler A) (c : Channel lib)
      → view lib laws (handle lib h c).1.queue ≡ view lib laws c.queue ++ taken lib h c.queue
  unfolding handle
  handle-adds (pushes a) c = push-adds a c.queue c.waker
  handle-adds wakes c = sym (append-nil (view lib laws c.queue))
  handle-adds ends c = sym (append-nil (view lib laws c.queue))

  -- Whatever the order of the operations of polls and interrupts, the keys that the queue took are those
  -- of the earlier polls, that of the current poll, and those in the queue, in this order: no key is lost
  -- or doubled between them.
  pub Reach-in_order :
      {ins outs : List A} {p : Poll A} {h : Handler A} {c : Channel lib} {woken : Bool}
      → Reach lib task ins outs p h c woken
      → ins ≡ outs ++ got lib p ++ view lib laws c.queue
  Reach-in_order inits = sym (laws.contents-new 32)
  Reach-in_order (polls {ins} {outs} {p} {h} {c} {woken} r) =
      let (p', c') = advance lib task p c in
      Reach-in_order r
      ∙ append_assoc outs (got lib p) (view lib laws c.queue)
      ∙ ap (λ l. outs ++ l) (sym (advance-keeps p c))
      ∙ sym (append_assoc outs (got lib p') (view lib laws c'.queue))
  Reach-in_order (handles {ins} {outs} {p} {h} {c} {woken} r) =
      ap (λ l. l ++ taken lib h c.queue) (Reach-in_order r)
      ∙ append_assoc (outs ++ got lib p) (view lib laws c.queue) (taken lib h c.queue)
      ∙ ap (λ l. outs ++ got lib p ++ l) (sym (handle-adds h c))
  Reach-in_order (interrupts a r) = Reach-in_order r
  Reach-in_order (again {ins} {outs} {p} {h} {c} {woken} ended r) =
      Reach-in_order r ∙ ap (λ l. l ++ view lib laws c.queue) (sym (append-nil (outs ++ got lib p)))
