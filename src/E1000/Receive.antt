-- ===== src/E1000/Receive.antt =====
-- Receiving packets while others arrive (kernel/src/drivers/e1000.rs, `recv`, `recv_end`, `handle_irq`, and
-- the tokens of `Driver`).
use snek_os.Prelude.{
  ℕ, suc, ◌+◌, ◌-◌, ◌%◌, ◌⊎◌, ◌<◌, ◌≤◌, Bool-cases, ltb, Distinct, All, List, [], ◌∷◌, ◌++◌, none,
  some, get_elem?, set, take, length, u32, ◌≡◌, ◌≢◌, refl, arith, sym, ap, ◌∙◌, inl, inr, map-set,
  get_elem?-set_self, get_elem?-set_ne, get_elem?-lt, length-set,
}
use mathlib.Core.Path.{subst}
use snek_os.E1000.{Hw, World, Outcome, ok, RxDescriptor}
use snek_os.E1000.Ring.{E1000, released, recv, recv_end, consume_rx, translate_phys_addr}
use snek_os.E1000.Queue.{
  Receiver, IsReceiver, State, arrive, arrive_all, enqueue, Holds, Taken, IsShort, arrive-Holds,
  arrive-Taken, slot_next,
}

abbrev pub enqueue_all : List (List ℕ) → List (List ℕ) → List (List ℕ)
enqueue_all [] q = q
enqueue_all (p ∷ ps) q = enqueue_all ps (enqueue p q)

pub slot_zero : (c : ℕ) → c < 32 → c ≡ (c + 0) % 32
slot_zero c h = omega arith

last_slot : (c : ℕ) → c < 32 → u32 c ≡ ((c + 1) % 32 + 31) % 32
last_slot c h = omega arith

slot_cur : (c i : ℕ) → c < 32 → suc i < 32 → c ≢ (c + suc i) % 32
slot_cur c i h1 h2 e = omega arith

slot_before : (c i : ℕ) → c < 32 → i ≡ 31 → ((c + 1) % 32 + i) % 32 ≡ c
slot_before c i h e = omega arith

ℕ-cases : (a b : ℕ) → (a < b) ⊎ (b ≤ a)
ℕ-cases a b = omega arith

bytes_at :
    (offset : ℕ) (d : RxDescriptor) (memory : ℕ → List ℕ)
    → memory (offset + d.addr - offset) ≡ memory d.addr
bytes_at offset d memory = ap memory (omega arith)

next_slot :
    (e : E1000) (d d' : RxDescriptor) (i : ℕ)
    → e.rx_cur < 32
    → suc i < 32
    → get_elem? e.rx_ring ((e.rx_cur + suc i) % 32) ≡ some d'
    → get_elem? (set e.rx_ring e.rx_cur (released d)) (((e.rx_cur + 1) % 32 + i) % 32) ≡ some d'
next_slot e d d' i h lt at =
    ap (get_elem? (set e.rx_ring e.rx_cur (released d))) (slot_next e.rx_cur i)
    ∙ get_elem?-set_ne e.rx_ring (released d) (slot_cur e.rx_cur i h lt)
    ∙ at

freed_slot :
    (e : E1000) (d : RxDescriptor) (i : ℕ)
    → e.rx_cur < 32
    → i ≡ 31
    → e.rx_cur < length e.rx_ring
    → get_elem? (set e.rx_ring e.rx_cur (released d)) (((e.rx_cur + 1) % 32 + i) % 32)
      ≡ some (released d)
freed_slot e d i h last lt =
    ap (get_elem? (set e.rx_ring e.rx_cur (released d))) (slot_before e.rx_cur i h last)
    ∙ get_elem?-set_self e.rx_ring e.rx_cur (released d) lt

module _ (hw : Hw) (rx : Receiver hw) (addrs : List ℕ) (is : IsReceiver hw rx)
    (apart : Distinct addrs) where
  pub arrive_all-Holds :
      (ps q : List (List ℕ)) (s : State hw rx)
      → All IsShort ps
      → Holds hw rx addrs q s
      → Holds hw rx addrs (enqueue_all ps q) (arrive_all hw rx ps s)
  arrive_all-Holds [] q s short h = h
  arrive_all-Holds (p ∷ ps) q (e, w) (short, shorts) h =
      arrive_all-Holds ps (enqueue p q) (arrive hw rx p (e, w)) shorts
        (arrive-Holds hw rx addrs is apart q e w p short h)

  -- Arrivals leave the descriptor that software looks at.
  pub arrive_all-Taken :
      (ps q : List (List ℕ)) (s : State hw rx) (p : List ℕ) (d : RxDescriptor)
      → All IsShort ps
      → Holds hw rx addrs (p ∷ q) s
      → Taken hw rx addrs is apart d p s
      → (q' : List (List ℕ)) × (enqueue_all ps (p ∷ q) ≡ p ∷ q')
        × Taken hw rx addrs is apart d p (arrive_all hw rx ps s)
        × ((arrive_all hw rx ps s).0.rx_cur ≡ s.0.rx_cur)
  arrive_all-Taken [] q s p d short h taken = (q, refl, taken, refl)
  arrive_all-Taken (p' ∷ ps) q (e, w) p d (short, shorts) h taken =
      let (taken', cur) = arrive-Taken hw rx addrs is apart q e w p p' d h taken in
      let h' = arrive-Holds hw rx addrs is apart (p ∷ q) e w p' short h in
      elim (Bool-cases (ltb (suc (length q)) 31)) [
        | inl lt ↦
            let eq : enqueue p' (p ∷ q) ≡ p ∷ (q ++ p' ∷ []) = rw lt refl in
            let (q', es, t, c) =
              arrive_all-Taken ps (q ++ p' ∷ []) (arrive hw rx p' (e, w)) p d shorts
                (subst (λ l. Holds hw rx addrs l (arrive hw rx p' (e, w))) eq h') taken' in
            (q', ap (enqueue_all ps) eq ∙ es, t, c ∙ cur)
        | inr nlt ↦
            let eq : enqueue p' (p ∷ q) ≡ p ∷ q = rw nlt refl in
            let (q', es, t, c) =
              arrive_all-Taken ps q (arrive hw rx p' (e, w)) p d shorts
                (subst (λ l. Holds hw rx addrs l (arrive hw rx p' (e, w))) eq h') taken' in
            (q', ap (enqueue_all ps) eq ∙ es, t, c ∙ cur)
      ]

  pub recv-nothing :
      (e : E1000) (w : World hw) → Holds hw rx addrs [] (e, w) → recv e w ≡ (ok none, w)
  unfolding recv
  recv-nothing e w h =
      let (d, at, empty) = h.free 0 (omega arith) (omega arith) in
      let at' : get_elem? e.rx_ring e.rx_cur ≡ some d =
        ap (get_elem? e.rx_ring) (slot_zero e.rx_cur h.cur_lt) ∙ at in
      rw (at', empty) refl

  pub recv-Taken :
      (q : List (List ℕ)) (e : E1000) (w : World hw) (p : List ℕ)
      → Holds hw rx addrs (p ∷ q) (e, w)
      → (d : RxDescriptor) × Taken hw rx addrs is apart d p (e, w)
        × (recv e w
            ≡ (ok (some (e.rx_cur, (translate_phys_addr hw.phys_offset d.addr, d.length))), w))
  unfolding recv
  recv-Taken q e w p h =
      let (d, at, done, holds) = h.waiting 0 p refl in
      let at' : get_elem? e.rx_ring e.rx_cur ≡ some d =
        ap (get_elem? e.rx_ring) (slot_zero e.rx_cur h.cur_lt) ∙ at in
      (d, (at', done, holds), rw (at', done) refl)

  -- What `recv_end` leaves of a ring in which the first packet was looked at.
  abbrev pub after : RxDescriptor → State hw rx → State hw rx
  after d (e, w) = (
    record e { rx_ring = set e.rx_ring e.rx_cur (released d); rx_cur = (e.rx_cur + 1) % 32 },
    record w { card = hw.write w.card 0x2818 (u32 e.rx_cur) },
  )

  abbrev pub given : State hw rx → List ℕ → Outcome (List ℕ × E1000) × World hw
  given (e, w) p = (ok (p, e), w)

  pub consume_rx-after :
      (e : E1000) (w : World hw) (p : List ℕ) (d : RxDescriptor)
      → Taken hw rx addrs is apart d p (e, w)
      → consume_rx e e.rx_cur (translate_phys_addr hw.phys_offset d.addr, d.length) w
        ≡ (ok (p, (after d (e, w)).0), (after d (e, w)).1)
  unfolding consume_rx recv_end
  consume_rx-after e w p d (at, done, holds) =
      rw (at, done)
        (ap (given (after d (e, w)))
          (ap (take d.length) (bytes_at hw.phys_offset d w.memory) ∙ holds))

  pub after-Holds :
      (q : List (List ℕ)) (e : E1000) (w : World hw) (p : List ℕ) (d : RxDescriptor)
      → Holds hw rx addrs (p ∷ q) (e, w)
      → Taken hw rx addrs is apart d p (e, w)
      → Holds hw rx addrs q (after d (e, w))
  after-Holds q e w p d h (at, done, holds) = record {
    cur_lt = omega arith;
    few = omega (arith, h.few);
    ring_length = length-set e.rx_ring e.rx_cur (released d) ∙ h.ring_length;
    head_at = is.head_kept w.card (u32 e.rx_cur) ∙ h.head_at ∙ sym (slot_next e.rx_cur (length q));
    tail_at = is.tail_written w.card (u32 e.rx_cur) ∙ last_slot e.rx_cur h.cur_lt;
    same_addrs = map-set (λ x. x.addr) e.rx_ring e.rx_cur d (released d) at refl ∙ h.same_addrs;
    waiting = λ i p' e'.
        let (d', at_slot, done', holds') = h.waiting (suc i) p' e' in
        (
          d',
          next_slot e d d' i h.cur_lt (omega (arith, h.few, get_elem?-lt q i p' e')) at_slot,
          done',
          holds',
        );
    free = λ i le lt. elim (ℕ-cases i 31) [
      | inl before ↦
          let (d', at_slot, empty) = h.free (suc i) (omega arith) (omega arith) in
          (d', next_slot e d d' i h.cur_lt (omega arith) at_slot, empty)
      | inr last ↦ (
        released d,
        freed_slot e d i h.cur_lt (omega (arith, lt, last))
            (omega (arith, h.cur_lt, h.ring_length)),
        refl,
      )
    ];
  }
