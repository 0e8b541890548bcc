-- ===== src/E1000/Sent.antt =====
-- What the card fetches is what was sent, in order, and what happens when the transmit ring is full
-- (kernel/src/drivers/e1000.rs, `send`).
use snek_os.Prelude.{
  ℕ, zero, suc, ◌+◌, ◌%◌, ◌<◌, Bool-cases, List, [], ◌∷◌, ◌++◌, Option, Option-cases, none, some,
  get_elem?, set, length, u16, u32, ltb, ltb→lt, ◌≡◌, ◌≢◌, refl, arith, sym, ap, ◌∙◌, inl, inr,
  get_elem?-snoc, get_elem?-set_self, get_elem?-set_ne, length-set, length-append, eqb_false,
}
use mathlib.Core.Path.{subst}
use snek_os.E1000.{Hw, World, ok, TxDescriptor}
use snek_os.E1000.Ring.{E1000, filled, send}
use snek_os.E1000.Transmit.{
  Sender, IsSender, Packet, Event, sends, fetches, State, step, prepend, followed, run, push,
  queue_step, queue_prepend, queue_followed, queue_run, Holds,
}

slot_ne : (c i k : ℕ) → c < 32 → i < k → k < 32 → (c + k) % 32 ≢ (c + i) % 32
slot_ne c i k h1 h2 h3 e = omega arith

slot_zero : (c : ℕ) → c < 32 → c ≡ (c + 0) % 32
slot_zero c h = omega arith

wrapped : (c a k : ℕ) → c < 32 → k ≡ 31 → a ≡ (c + k) % 32 → c ≡ u32 ((a + 1) % 32)
wrapped c a k h e f = omega arith

slot_self : (c k : ℕ) → c < 32 → suc k < 32 → c ≢ (c + suc k) % 32
slot_self c k h1 h2 e = omega arith

shifted : (c c' k : ℕ) → c' ≡ (c + 1) % 32 → (c + suc k) % 32 ≡ (c' + k) % 32
shifted c c' k e = omega arith

cur_next : (a c k l : ℕ) → a ≡ (c + k) % 32 → l ≡ k + 1 → (a + 1) % 32 ≡ (c + l) % 32
cur_next a c k l e f = omega arith

pub get_elem?-in :
    {A : Type 0} (xs : List A) (i : ℕ) → i < length xs → (a : A) × (get_elem? xs i ≡ some a)
get_elem?-in [] i h = absurd (omega arith)
get_elem?-in (x ∷ xs) zero h = (x, refl)
get_elem?-in (x ∷ xs) (suc i) h = get_elem?-in xs i (omega arith)

module _ (hw : Hw) (tx : Sender hw) (is : IsSender hw tx) where
  pub cur_lt :
      (q : List Packet) (e : E1000) (w : World hw)
      → Holds hw tx q (e, w)
      → e.tx_cur < length e.tx_ring
  cur_lt q e w h = omega (arith, h.cur_at, h.ring_length)

  -- The driver after a send into the descriptor `d`.
  abbrev pub after : ℕ → ℕ → TxDescriptor → State hw tx → State hw tx
  after phys len d (e, w) = (
    record e { tx_ring = set e.tx_ring e.tx_cur (filled phys len d); tx_cur = (e.tx_cur + 1) % 32 },
    record w { card = hw.write w.card 0x3818 (u32 ((e.tx_cur + 1) % 32)) },
  )

  pub send-after :
      (e : E1000) (w : World hw) (ptr len phys : ℕ) (d : TxDescriptor)
      → get_elem? e.tx_ring e.tx_cur ≡ some d
      → hw.translate_virt_addr ptr ≡ some phys
      → send e (ptr, len) w ≡ (ok (after phys len d (e, w)).0, (after phys len d (e, w)).1)
  unfolding send
  send-after e w ptr len phys d at mapped = rw (at, mapped) refl

  pub after-Holds :
      (q : List Packet) (e : E1000) (w : World hw) (len phys : ℕ) (d : TxDescriptor)
      → Holds hw tx q (e, w)
      → length q < 31
      → Holds hw tx (q ++ (phys, u16 len) ∷ []) (after phys len d (e, w))
  after-Holds q e w len phys d h room =
      let l = length-append q ((phys, u16 len) ∷ []) in
      let same_head = is.head_kept w.card (u32 ((e.tx_cur + 1) % 32)) in
      record {
        head_lt = omega (arith, same_head, h.head_lt);
        few = omega (arith, l);
        ring_length = length-set e.tx_ring e.tx_cur (filled phys len d) ∙ h.ring_length;
        cur_at =
            cur_next e.tx_cur (tx.head (hw.write w.card 0x3818 (u32 ((e.tx_cur + 1) % 32))))
              (length q) (length (q ++ (phys, u16 len) ∷ []))
              (h.cur_at ∙ sym (ap (λ a. (a + length q) % 32) same_head)) l;
        tail_at = is.tail_written w.card (u32 ((e.tx_cur + 1) % 32)) ∙ omega arith;
        pending = λ i p e'.
            let slot =
              ap (λ a. get_elem? (set e.tx_ring e.tx_cur (filled phys len d)) ((a + i) % 32))
                same_head in
            elim (get_elem?-snoc q (phys, u16 len) p i e') [
              | inl (before, at) ↦
                  let (d', at_slot, same) = h.pending i p at in
                  (
                    d',
                    slot
                        ∙ get_elem?-set_ne e.tx_ring (filled phys len d) (λ eq.
                          slot_ne (tx.head w.card) i (length q) h.head_lt before h.few
                            (sym h.cur_at ∙ eq))
                        ∙ at_slot,
                    same,
                  )
              | inr (last, new) ↦ (
                filled phys len d,
                slot
                    ∙ ap (get_elem? (set e.tx_ring e.tx_cur (filled phys len d)))
                        (ap (λ k. (tx.head w.card + k) % 32) last ∙ sym h.cur_at)
                    ∙ get_elem?-set_self e.tx_ring e.tx_cur (filled phys len d) (cur_lt q e w h),
                new,
              )
            ];
      }

  send-Holds :
      (q : List Packet) (e : E1000) (w : World hw) (ptr len phys : ℕ)
      → Holds hw tx q (e, w)
      → length q < 31
      → hw.translate_virt_addr ptr ≡ some phys
      → (s : State hw tx) × (step hw tx (sends (ptr, len)) (e, w) ≡ some ([], s))
        × Holds hw tx (q ++ (phys, u16 len) ∷ []) s
  unfolding step
  send-Holds q e w ptr len phys h room mapped =
      let (d, at) = get_elem?-in e.tx_ring e.tx_cur (cur_lt q e w h) in
      (
        after phys len d (e, w),
        rw (send-after e w ptr len phys d at mapped) refl,
        after-Holds q e w len phys d h room,
      )

  fetch-Holds :
      (p : Packet) (q : List Packet) (e : E1000) (w : World hw)
      → Holds hw tx (p ∷ q) (e, w)
      → (s : State hw tx) × (step hw tx fetches (e, w) ≡ some (p ∷ [], s)) × Holds hw tx q s
  unfolding step
  fetch-Holds p q e w h =
      let (d, at, same) = h.pending 0 p refl in
      let ne =
        eqb_false (tx.head w.card) (tx.tail w.card) (λ eq.
          slot_self (tx.head w.card) (length q) h.head_lt h.few (eq ∙ h.tail_at ∙ h.cur_at)) in
      let at' : get_elem? e.tx_ring (tx.head w.card) ≡ some d =
        ap (get_elem? e.tx_ring) (slot_zero (tx.head w.card) h.head_lt) ∙ at in
      let step_head = is.head_advanced w.card in
      (
        (e, record w { card = tx.advance w.card }),
        rw (ne, at') (ap (λ b. some (b ∷ [], (e, record w { card = tx.advance w.card }))) same),
        record {
          head_lt = omega (arith, step_head);
          few = omega (arith, h.few);
          ring_length = h.ring_length;
          cur_at =
              h.cur_at
              ∙ shifted (tx.head w.card) (tx.head (tx.advance w.card)) (length q) step_head;
          tail_at = is.tail_kept w.card ∙ h.tail_at;
          pending = λ i p' e'.
              let (d', at_slot, same') = h.pending (suc i) p' e' in
              (
                d',
                ap (get_elem? e.tx_ring)
                      (sym (shifted (tx.head w.card) (tx.head (tx.advance w.card)) i step_head))
                    ∙ at_slot,
                same',
              );
        },
      )

  fetch-nothing :
      (e : E1000) (w : World hw)
      → Holds hw tx [] (e, w)
      → step hw tx fetches (e, w) ≡ some ([], (e, w))
  unfolding step
  fetch-nothing e w h =
      let eq : tx.head w.card ≡ tx.tail w.card =
        slot_zero (tx.head w.card) h.head_lt ∙ sym h.cur_at ∙ sym h.tail_at in
      ground (arith, eq)

  -- A send into a ring with 31 packets in it does not panic, but then the card finds the ring empty and
  -- fetches none of the 32.
  pub send-overruns :
      (q : List Packet) (e : E1000) (w : World hw) (ptr len phys : ℕ)
      → Holds hw tx q (e, w)
      → length q ≡ 31
      → hw.translate_virt_addr ptr ≡ some phys
      → (s : State hw tx) × (step hw tx (sends (ptr, len)) (e, w) ≡ some ([], s))
        × (step hw tx fetches s ≡ some ([], s))
  unfolding step
  send-overruns q e w ptr len phys h full mapped =
      let (d, at) = get_elem?-in e.tx_ring e.tx_cur (cur_lt q e w h) in
      let s = after phys len d (e, w) in
      let v = u32 ((e.tx_cur + 1) % 32) in
      let eq : tx.head s.1.card ≡ tx.tail s.1.card =
        is.head_kept w.card v
        ∙ wrapped (tx.head w.card) e.tx_cur (length q) h.head_lt full h.cur_at
        ∙ sym (is.tail_written w.card v) in
      (s, rw (send-after e w ptr len phys d at mapped) refl, ground (arith, eq))

  -- What the queue answers, the ring answers too, if the queue does not overflow.
  abbrev Implements :
      Option (List Packet × List Packet) → Option (List Packet × State hw tx) → Type 0
  Implements none r = Unit {0}
  Implements (some (out, q)) r = (s : State hw tx) × (r ≡ some (out, s)) × Holds hw tx q s

  push-Implements :
      (q : List Packet) (e : E1000) (w : World hw) (ptr len : ℕ)
      → Holds hw tx q (e, w)
      → Implements
          (push hw (ptr, len) (hw.translate_virt_addr ptr) q)
          (step hw tx (sends (ptr, len)) (e, w))
  push-Implements q e w ptr len h = elim (Option-cases (hw.translate_virt_addr ptr)) [
    | inl unmapped ↦ rw unmapped tt
    | inr (phys, mapped) ↦ elim (Bool-cases (ltb (length q) 31)) [
      | inl lt ↦ rw (mapped, lt) (send-Holds q e w ptr len phys h (ltb→lt (length q) 31 lt) mapped)
      | inr full ↦ rw (mapped, full) tt
    ]
  ]

  step-Implements :
      (ev : Event) (q : List Packet) (s : State hw tx)
      → Holds hw tx q s
      → Implements (queue_step hw ev q) (step hw tx ev s)
  step-Implements (sends (ptr, len)) q (e, w) h = push-Implements q e w ptr len h
  step-Implements fetches [] (e, w) h = ((e, w), fetch-nothing e w h, h)
  step-Implements fetches (p ∷ q) (e, w) h = fetch-Holds p q e w h

  prepend-Implements :
      (out : List Packet) (a : Option (List Packet × List Packet))
      (b : Option (List Packet × State hw tx))
      → Implements a b
      → Implements (queue_prepend hw out a) (prepend hw tx out b)
  prepend-Implements out none b i = tt
  prepend-Implements out (some (outs, q)) b (s, e, h) = (s, rw e refl, h)

  followed-Implements :
      (a : Option (List Packet × List Packet)) (b : Option (List Packet × State hw tx))
      (f : List Packet → Option (List Packet × List Packet))
      (g : State hw tx → Option (List Packet × State hw tx))
      → Implements a b
      → ((q : List Packet) (s : State hw tx) → Holds hw tx q s → Implements (f q) (g s))
      → Implements (queue_followed hw a f) (followed hw tx b g)
  followed-Implements none b f g i k = tt
  followed-Implements (some (out, q)) b f g (s, e, h) k =
      rw e (prepend-Implements out (f q) (g s) (k q s h))

  run-Implements :
      (evs : List Event) (q : List Packet) (s : State hw tx)
      → Holds hw tx q s
      → Implements (queue_run hw evs q) (run hw tx evs s)
  run-Implements [] q s h = (s, refl, h)
  run-Implements (ev ∷ evs) q s h =
      followed-Implements (queue_step hw ev q) (step hw tx ev s) (queue_run hw evs) (run hw tx evs)
        (step-Implements ev q s h) (run-Implements evs)

  -- As long as no send finds 31 packets in the ring or a slice that is not mapped, no send panics, the
  -- card fetches the packets in the order of the sends, each where the page tables put it and with its
  -- length cut to 16 bits, and the ring holds the others.
  pub run-fetches :
      (evs : List Event) (q : List Packet) (s : State hw tx) (outs rest : List Packet)
      → Holds hw tx q s
      → queue_run hw evs q ≡ some (outs, rest)
      → (s' : State hw tx) × (run hw tx evs s ≡ some (outs, s')) × Holds hw tx rest s'
  run-fetches evs q s outs rest h e =
      subst (λ a. Implements a (run hw tx evs s)) e (run-Implements evs q s h)
