-- ===== src/E1000/System.antt =====
-- The network card and its driver together: packets that arrive, interrupts, polls and receptions in any
-- order (kernel/src/drivers/e1000.rs, `Driver::receive`, `RxToken::consume`, `handle_irq`, `poll`).
use snek_os.Prelude.{
  ℕ, Bool, Distinct, All, List, [], ◌∷◌, ◌++◌, get_elem?, Option, Option-cases, none, some, drop,
  ◌≡◌, refl, arith, sym, ap, ◌∙◌, inl, inr,
}
use mathlib.Core.Path.{subst}
use snek_os.E1000.{Hw, World, Outcome, ok, RxDescriptor}
use snek_os.E1000.Ring.{
  E1000, Buffer, receive, consume_rx, handle_irq, poll, has_recv, translate_phys_addr,
}
use snek_os.E1000.Queue.{
  Receiver, IsReceiver, State, arrive, arrive_all, enqueue, Holds, IsShort, arrive-Holds,
}
use snek_os.E1000.Receive.{
  slot_zero, enqueue_all, arrive_all-Holds, arrive_all-Taken, recv-nothing, recv-Taken,
  consume_rx-after, after-Holds, after,
}

-- A reception is a call of `receive`, and of `consume` of the token if there is one; packets may arrive
-- between the two calls.
pub data Event : Type 0 where
  arrives : List ℕ → Event
  receives : List (List ℕ) → Event
  interrupts : Event
  polls : ℕ → Event

-- No packet that arrives is longer than a buffer, 4096 bytes.
abbrev pub AreShort : List Event → Type 0
AreShort [] = Unit {0}
AreShort (arrives p ∷ evs) = IsShort p × AreShort evs
AreShort (receives ps ∷ evs) = All IsShort ps × AreShort evs
AreShort (interrupts ∷ evs) = AreShort evs
AreShort (polls t ∷ evs) = AreShort evs

abbrev pub queue_step : Event → List (List ℕ) → List (List ℕ) × List (List ℕ)
queue_step (arrives p) q = ([], enqueue p q)
queue_step (receives ps) [] = ([], enqueue_all ps [])
queue_step (receives ps) (p ∷ q) = (p ∷ [], drop 1 (enqueue_all ps (p ∷ q)))
queue_step interrupts q = ([], q)
queue_step (polls t) q = ([], q)

-- What is received, and what waits at the end.
abbrev pub queue_run : List Event → List (List ℕ) → List (List ℕ) × List (List ℕ)
queue_run [] q = ([], q)
queue_run (ev ∷ evs) q =
    let (out, q') = queue_step ev q in let (outs, q'') = queue_run evs q' in (out ++ outs, q'')

module _ (hw : Hw) (rx : Receiver hw) where
  -- `none` is a panic.
  abbrev kept : Outcome E1000 × World hw → Option (List (List ℕ) × State hw rx)
  kept (ok e, w) = some ([], (e, w))
  kept _ = none

  abbrev polled : Outcome (Bool × E1000) × World hw → Option (List (List ℕ) × State hw rx)
  polled (ok (ready, e), w) = some ([], (e, w))
  polled _ = none

  abbrev consumed : Outcome (List ℕ × E1000) × World hw → Option (List (List ℕ) × State hw rx)
  consumed (ok (p, e), w) = some (p ∷ [], (e, w))
  consumed _ = none

  abbrev offered :
      List (List ℕ)
      → E1000
      → Outcome (Option (ℕ × Buffer)) × World hw
      → Option (List (List ℕ) × State hw rx)
  offered ps e (ok none, w) = some ([], arrive_all hw rx ps (e, w))
  offered ps e (ok (some (id, buffer)), w) =
      let (e', w') = arrive_all hw rx ps (e, w) in consumed (consume_rx e' id buffer w')
  offered ps e _ = none

  unfoldable pub step : Event → State hw rx → Option (List (List ℕ) × State hw rx)
  step (arrives p) s = some ([], arrive hw rx p s)
  step (receives ps) (e, w) = offered ps e (receive e w)
  step interrupts (e, w) = kept (handle_irq e w)
  step (polls task) (e, w) = polled (poll e task w)

  abbrev pub prepend :
      List (List ℕ) → Option (List (List ℕ) × State hw rx) → Option (List (List ℕ) × State hw rx)
  prepend out none = none
  prepend out (some (outs, s)) = some (out ++ outs, s)

  abbrev pub followed :
      Option (List (List ℕ) × State hw rx)
      → (State hw rx → Option (List (List ℕ) × State hw rx))
      → Option (List (List ℕ) × State hw rx)
  followed none f = none
  followed (some (out, s)) f = prepend out (f s)

  abbrev pub run : List Event → State hw rx → Option (List (List ℕ) × State hw rx)
  run [] s = some ([], s)
  run (ev ∷ evs) s = followed (step ev s) (run evs)

-- The index of the ring is always in range.
slot_filled :
    (hw : Hw) (rx : Receiver hw) (addrs : List ℕ) (q : List (List ℕ)) (e : E1000) (w : World hw)
    → Holds hw rx addrs q (e, w)
    → (d : RxDescriptor) × (get_elem? e.rx_ring e.rx_cur ≡ some d)
slot_filled hw rx addrs [] e w h =
    let (d, at, empty) = h.free 0 (omega arith) (omega arith) in
    (d, ap (get_elem? e.rx_ring) (slot_zero e.rx_cur h.cur_lt) ∙ at)
slot_filled hw rx addrs (p ∷ q) e w h =
    let (d, at, done, held) = h.waiting 0 p refl in
    (d, ap (get_elem? e.rx_ring) (slot_zero e.rx_cur h.cur_lt) ∙ at)

module _ (hw : Hw) (rx : Receiver hw) (addrs : List ℕ) (is : IsReceiver hw rx)
    (apart : Distinct addrs) where
  -- The answer of a step and the packets left are those of the queue.
  abbrev pub Implements :
      List (List ℕ) × List (List ℕ) → Option (List (List ℕ) × State hw rx) → Type 0
  Implements (out, q) r = (s : State hw rx) × (r ≡ some (out, s)) × Holds hw rx addrs q s

  -- Neither waking a task nor reading a register touches the ring.
  seen-Holds :
      (q : List (List ℕ)) (e : E1000) (w : World hw) (r : ℕ) (waker : Option ℕ) (woken : List ℕ)
      → Holds hw rx addrs q (e, w)
      → Holds hw rx addrs q
          (record e { waker = waker }, record w { card = (hw.read w.card r).1; woken = woken })
  seen-Holds q e w r waker woken h = record {
    cur_lt = h.cur_lt;
    few = h.few;
    ring_length = h.ring_length;
    head_at = is.read_head w.card r ∙ h.head_at;
    tail_at = is.read_tail w.card r ∙ h.tail_at;
    same_addrs = h.same_addrs;
    waiting = h.waiting;
    free = h.free;
  }

  polled-Holds :
      (q : List (List ℕ)) (e : E1000) (w : World hw) (waker : Option ℕ)
      → Holds hw rx addrs q (e, w)
      → Holds hw rx addrs q (record e { waker = waker }, w)
  polled-Holds q e w waker h = record {
    cur_lt = h.cur_lt;
    few = h.few;
    ring_length = h.ring_length;
    head_at = h.head_at;
    tail_at = h.tail_at;
    same_addrs = h.same_addrs;
    waiting = h.waiting;
    free = h.free;
  }

  handle_irq-Holds :
      (q : List (List ℕ)) (e : E1000) (w : World hw)
      → Holds hw rx addrs q (e, w)
      → Implements ([], q) (step hw rx interrupts (e, w))
  unfolding step handle_irq
  handle_irq-Holds q e w h = elim (Option-cases e.waker) [
    | inl asleep ↦ (
      (e, record w { card = (hw.read w.card 0xc0).1 }),
      rw asleep refl,
      seen-Holds q e w 0xc0 e.waker w.woken h,
    )
    | inr (t, waits) ↦ (
      (record e { waker = none }, record w { card = (hw.read w.card 0xc0).1; woken = t ∷ w.woken }),
      rw waits refl,
      seen-Holds q e w 0xc0 none (t ∷ w.woken) h,
    )
  ]

  poll-Holds :
      (q : List (List ℕ)) (e : E1000) (w : World hw) (task : ℕ)
      → Holds hw rx addrs q (e, w)
      → Implements ([], q) (step hw rx (polls task) (e, w))
  unfolding step poll has_recv
  poll-Holds q e w task h =
      let (d, at) = slot_filled hw rx addrs q e w h in
      ((record e { waker = some task }, w), rw at refl, polled-Holds q e w (some task) h)

  receives-Holds :
      (q : List (List ℕ)) (ps : List (List ℕ)) (e : E1000) (w : World hw)
      → All IsShort ps
      → Holds hw rx addrs q (e, w)
      → Implements (queue_step (receives ps) q) (step hw rx (receives ps) (e, w))
  unfolding step receive
  receives-Holds [] ps e w short h = (
    arrive_all hw rx ps (e, w),
    rw (recv-nothing hw rx addrs is apart e w h) refl,
    arrive_all-Holds hw rx addrs is apart ps [] (e, w) short h,
  )
  receives-Holds (p ∷ q) ps e w short h =
      let (d, taken, eq) = recv-Taken hw rx addrs is apart q e w p h in
      let (q', es, taken', cur) =
        arrive_all-Taken hw rx addrs is apart ps q (e, w) p d short h taken in
      let (e', w') = arrive_all hw rx ps (e, w) in
      let h' = arrive_all-Holds hw rx addrs is apart ps (p ∷ q) (e, w) short h in
      let eq' : consume_rx e' e.rx_cur (translate_phys_addr hw.phys_offset d.addr, d.length) w' ≡ (
        ok (p, (after hw rx addrs is apart d (e', w')).0),
        (after hw rx addrs is apart d (e', w')).1,
      ) =
        ap (λ id. consume_rx e' id (translate_phys_addr hw.phys_offset d.addr, d.length) w')
          (sym cur)
        ∙ consume_rx-after hw rx addrs is apart e' w' p d taken' in
      (
        after hw rx addrs is apart d (e', w'),
        rw (eq, eq') refl,
        rw es (
            after-Holds hw rx addrs is apart q' e' w' p d
              (subst (λ l. Holds hw rx addrs l (e', w')) es h') taken'),
      )

  pub step-Implements :
      (ev : Event) (q : List (List ℕ)) (s : State hw rx)
      → AreShort (ev ∷ [])
      → Holds hw rx addrs q s
      → Implements (queue_step ev q) (step hw rx ev s)
  unfolding step
  step-Implements (arrives p) q (e, w) short h =
      (arrive hw rx p (e, w), refl, arrive-Holds hw rx addrs is apart q e w p short.0 h)
  step-Implements (receives ps) q (e, w) short h = receives-Holds q ps e w short.0 h
  step-Implements interrupts q (e, w) short h = handle_irq-Holds q e w h
  step-Implements (polls task) q (e, w) short h = poll-Holds q e w task h

  AreShort-cons :
      (ev : Event) (evs : List Event) → AreShort (ev ∷ evs) → AreShort (ev ∷ []) × AreShort evs
  AreShort-cons (arrives p) evs short = ((short.0, tt), short.1)
  AreShort-cons (receives ps) evs short = ((short.0, tt), short.1)
  AreShort-cons interrupts evs short = (tt, short)
  AreShort-cons (polls t) evs short = (tt, short)

  -- With buffers at different addresses, and for packets that fit into one, of at most 4096 bytes, the card
  -- and the driver are a queue of at most 31 packets: from a ring that holds a queue, whatever the order of
  -- arrivals, receptions, interrupts and polls, the packets received, their bytes included, are those
  -- that the queue gives out, no step panics, and the ring holds what the queue holds at the end.
  pub run-Implements :
      (evs : List Event) (q : List (List ℕ)) (s : State hw rx)
      → AreShort evs
      → Holds hw rx addrs q s
      → (s' : State hw rx) × (run hw rx evs s ≡ some ((queue_run evs q).0, s'))
        × Holds hw rx addrs (queue_run evs q).1 s'
  run-Implements [] q s short h = (s, refl, h)
  run-Implements (ev ∷ evs) q s short h =
      let (first, rest) = AreShort-cons ev evs short in
      let (s', e, h') = step-Implements ev q s first h in
      let (s'', e', h'') = run-Implements evs (queue_step ev q).1 s' rest h' in
      (s'', rw (e, e') refl, h'')
