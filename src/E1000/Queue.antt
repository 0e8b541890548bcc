-- ===== src/E1000/Queue.antt =====
-- The receive ring of the network card as a bounded queue of packets
-- (kernel/src/drivers/e1000.rs, `recv` and `recv_end`).
use snek_os.Prelude.{
  ℕ, suc, ◌+◌, ◌%◌, ◌<◌, ◌≤◌, Bool-cases, ltb→lt, true, false, not, Distinct, List, [], ◌∷◌, ◌++◌,
  map, Option, none, some, if◌then◌else◌, has, get_elem?, set, take, length, ◌==◌, ltb, ◌≡◌, ◌≢◌,
  refl, arith, sym, ap, ◌∙◌, inl, inr, get_elem?-snoc, get_elem?-map, get_elem?-lt, map-set,
  get_elem?-set_self, take-length, get_elem?-set_ne, length-set, length-append, eqb_false,
  Distinct-injective,
}
use mathlib.Core.Path.{subst}
use snek_os.E1000.{Hw, World, dd, RxDescriptor, offset, rx_desc_tail}
use snek_os.E1000.Ring.{E1000, poke}

-- The buffers have 4096 bytes. The card spreads a longer packet over several descriptors, which is not
-- modelled.
abbrev pub IsShort : List ℕ → Type 0
IsShort p = length p ≤ 4096

-- What the manual of the card documents of receiving. The card keeps the numbers of the descriptor that
-- it fills next and of the one that software gave back last; the latter is not filled. It fills a
-- descriptor with a packet that fits into its buffer by setting its length and `DD`, and moves on by one.
pub record Receiver (hw : Hw) : Type 0 where
  pub head : hw.Card → ℕ
  pub tail : hw.Card → ℕ
  pub advance : hw.Card → hw.Card
  pub write_back : RxDescriptor → List ℕ → RxDescriptor

pub record IsReceiver (hw : Hw) (rx : Receiver hw) : Type 0 where
  pub tail_written : (c : hw.Card) (v : ℕ) → rx.tail (hw.write c (offset rx_desc_tail) v) ≡ v
  pub head_kept : (c : hw.Card) (v : ℕ) → rx.head (hw.write c (offset rx_desc_tail) v) ≡ rx.head c
  pub head_advanced : (c : hw.Card) → rx.head (rx.advance c) ≡ (rx.head c + 1) % 32
  pub tail_kept : (c : hw.Card) → rx.tail (rx.advance c) ≡ rx.tail c
  pub read_head : (c : hw.Card) (r : ℕ) → rx.head (hw.read c r).1 ≡ rx.head c
  pub read_tail : (c : hw.Card) (r : ℕ) → rx.tail (hw.read c r).1 ≡ rx.tail c
  pub same_addr : (d : RxDescriptor) (p : List ℕ) → (rx.write_back d p).addr ≡ d.addr
  pub same_length :
      (d : RxDescriptor) (p : List ℕ) → IsShort p → (rx.write_back d p).length ≡ length p
  pub is_done : (d : RxDescriptor) (p : List ℕ) → has (rx.write_back d p).status dd ≡ true

module _ (hw : Hw) (rx : Receiver hw) where
  abbrev pub State : Type 0
  State = E1000 × World hw

  -- The card puts a packet into the descriptor at its head, or drops it if there is none free.
  abbrev pub put : List ℕ → Option RxDescriptor → State → State
  put p none s = s
  put p (some d) (e, w) = (
    record e { rx_ring = set e.rx_ring (rx.head w.card) (rx.write_back d p) },
    record w { card = rx.advance w.card; memory = poke d.addr p w.memory },
  )

  unfoldable pub arrive : List ℕ → State → State
  arrive p (e, w) =
      if rx.head w.card == rx.tail w.card
      then (e, w)
      else put p (get_elem? e.rx_ring (rx.head w.card)) (e, w)

  abbrev pub arrive_all : List (List ℕ) → State → State
  arrive_all [] s = s
  arrive_all (p ∷ ps) s = arrive_all ps (arrive p s)

-- The abstract queue: at most 31 packets wait.
abbrev pub enqueue : List ℕ → List (List ℕ) → List (List ℕ)
enqueue p q = if ltb (length q) 31 then q ++ p ∷ [] else q

module _ (hw : Hw) (rx : Receiver hw) (addrs : List ℕ) where
  pub record Holds (q : List (List ℕ)) (s : State hw rx) : Type 0 where
    pub cur_lt : s.0.rx_cur < 32
    pub few : length q < 32
    pub ring_length : length s.0.rx_ring ≡ 32
    pub head_at : rx.head s.1.card ≡ (s.0.rx_cur + length q) % 32
    pub tail_at : rx.tail s.1.card ≡ (s.0.rx_cur + 31) % 32
    pub same_addrs : map (λ d. d.addr) s.0.rx_ring ≡ addrs
    pub waiting :
        (i : ℕ) (p : List ℕ)
        → get_elem? q i ≡ some p
        → (d : RxDescriptor) × (get_elem? s.0.rx_ring ((s.0.rx_cur + i) % 32) ≡ some d)
          × (has d.status dd ≡ true)
          × (take d.length (s.1.memory d.addr) ≡ p)
    pub free :
        (i : ℕ)
        → length q ≤ i
        → i < 32
        → (d : RxDescriptor) × (get_elem? s.0.rx_ring ((s.0.rx_cur + i) % 32) ≡ some d)
          × (has d.status dd ≡ false)

slot_ne : (c i k : ℕ) → c < 32 → i < k → k < 32 → (c + k) % 32 ≢ (c + i) % 32
slot_ne c i k h1 h2 h3 e = omega arith

slot_cur : (c k : ℕ) → c < 32 → suc k < 31 → (c + suc k) % 32 ≢ c
slot_cur c k h1 h2 e = omega arith

head_next : (a c k l : ℕ) → a ≡ (c + k) % 32 → l ≡ k + 1 → (a + 1) % 32 ≡ (c + l) % 32
head_next a c k l e f = omega arith

poke_self : (a : ℕ) (p : List ℕ) (memory : ℕ → List ℕ) → poke a p memory a ≡ p
poke_self a p memory = ground arith

pub slot_next : (c i : ℕ) → ((c + 1) % 32 + i) % 32 ≡ (c + suc i) % 32
slot_next c i = omega arith

full : (c k : ℕ) → c < 32 → k < 32 → ((c + k) % 32 == (c + 31) % 32) ≡ not (ltb k 31)
full c k h1 h2 = ground arith

module _ (hw : Hw) (rx : Receiver hw) (addrs : List ℕ) (is : IsReceiver hw rx)
    (apart : Distinct addrs) where
  -- The card may fill its next descriptor exactly while fewer than 31 packets wait.
  may_fill :
      (q : List (List ℕ)) (s : State hw rx)
      → Holds hw rx addrs q s
      → (rx.head s.1.card == rx.tail s.1.card) ≡ not (ltb (length q) 31)
  may_fill q s h =
      let k = h.few in
      let c = h.cur_lt in rw (h.head_at, h.tail_at) (full s.0.rx_cur (length q) c k)

  -- A packet in another descriptor than the one the card fills stays as it is.
  put-other :
      (e : E1000) (w : World hw) (p p' : List ℕ) (d d' : RxDescriptor) (j : ℕ)
      → map (λ x. x.addr) e.rx_ring ≡ addrs
      → get_elem? e.rx_ring (rx.head w.card) ≡ some d
      → rx.head w.card ≢ j
      → get_elem? e.rx_ring j ≡ some d'
      → take d'.length (w.memory d'.addr) ≡ p'
      → (get_elem? (put hw rx p (some d) (e, w)).0.rx_ring j ≡ some d')
        × (take d'.length ((put hw rx p (some d) (e, w)).1.memory d'.addr) ≡ p')
  put-other e w p p' d d' j same at ne at' holds =
      let at_addrs = λ (i : ℕ) (x : RxDescriptor) (a : get_elem? e.rx_ring i ≡ some x).
        subst (λ l. get_elem? l i ≡ some x.addr) same
          (get_elem?-map (λ y. y.addr) e.rx_ring i x a) in
      let other = eqb_false d'.addr d.addr (λ eq. ne (
        Distinct-injective addrs (rx.head w.card) j d.addr apart (at_addrs (rx.head w.card) d at)
          (at_addrs j d' at' ∙ ap some eq))) in
      (get_elem?-set_ne e.rx_ring (rx.write_back d p) ne ∙ at', rw other holds)

  put-Holds :
      (q : List (List ℕ)) (e : E1000) (w : World hw) (p : List ℕ) (d : RxDescriptor)
      → IsShort p
      → Holds hw rx addrs q (e, w)
      → length q < 31
      → get_elem? e.rx_ring (rx.head w.card) ≡ some d
      → Holds hw rx addrs (q ++ p ∷ []) (put hw rx p (some d) (e, w))
  put-Holds q e w p d short h lt at =
      let c = h.cur_lt in
      let len = length-append q (p ∷ []) in
      let in_range : rx.head w.card < length e.rx_ring =
        get_elem?-lt e.rx_ring (rx.head w.card) d at in
      let here = get_elem?-set_self e.rx_ring (rx.head w.card) (rx.write_back d p) in_range in
      record {
        cur_lt = h.cur_lt;
        few = omega (arith, len);
        ring_length = length-set e.rx_ring (rx.head w.card) (rx.write_back d p) ∙ h.ring_length;
        head_at =
            is.head_advanced w.card
            ∙ head_next (rx.head w.card) e.rx_cur (length q) (length (q ++ p ∷ [])) h.head_at len;
        tail_at = is.tail_kept w.card ∙ h.tail_at;
        same_addrs =
            map-set (λ x. x.addr) e.rx_ring (rx.head w.card) d (rx.write_back d p) at
              (is.same_addr d p)
            ∙ h.same_addrs;
        waiting = λ i p' e'. elim (get_elem?-snoc q p p' i e') [
          | inl (before, at') ↦
              let (d', at_slot, done, holds) = h.waiting i p' at' in
              let (a, b) =
                put-other e w p p' d d' ((e.rx_cur + i) % 32) h.same_addrs at
                  (λ eq. slot_ne e.rx_cur i (length q) c before h.few (sym h.head_at ∙ eq)) at_slot
                  holds in
              (d', a, done, b)
          | inr (last, new) ↦ (
            rx.write_back d p,
            ap (get_elem? (set e.rx_ring (rx.head w.card) (rx.write_back d p)))
                  (ap (λ k. (e.rx_cur + k) % 32) last ∙ sym h.head_at)
                ∙ here,
            is.is_done d p,
            rw (is.same_addr d p, is.same_length d p short, poke_self d.addr p w.memory)
                (take-length p ∙ new),
          )
        ];
        free = λ i le i_lt.
            let (d', at_slot, empty) = h.free i (omega (arith, len)) i_lt in
            (
              d',
              get_elem?-set_ne e.rx_ring (rx.write_back d p) (λ eq.
                    slot_ne e.rx_cur (length q) i h.cur_lt (omega (arith, len)) i_lt
                      (sym eq ∙ h.head_at))
                  ∙ at_slot,
              empty,
            );
      }

  pub arrive-Holds :
      (q : List (List ℕ)) (e : E1000) (w : World hw) (p : List ℕ)
      → IsShort p
      → Holds hw rx addrs q (e, w)
      → Holds hw rx addrs (enqueue p q) (arrive hw rx p (e, w))
  unfolding arrive
  arrive-Holds q e w p short h =
      let (d, at, empty) = h.free (length q) (omega arith) h.few in
      let at' : get_elem? e.rx_ring (rx.head w.card) ≡ some d = rw h.head_at at in
      elim (Bool-cases (ltb (length q) 31)) [
        | inl lt ↦
            rw (may_fill q (e, w) h, lt, at')
              (put-Holds q e w p d short h (ltb→lt (length q) 31 lt) at')
        | inr nlt ↦ rw (may_fill q (e, w) h, nlt) h
      ]

  -- A descriptor that software looks at.
  abbrev pub Taken : RxDescriptor → List ℕ → State hw rx → Type 0
  Taken d p s =
      (get_elem? s.0.rx_ring s.0.rx_cur ≡ some d)
      × (has d.status dd ≡ true)
      × (take d.length (s.1.memory d.addr) ≡ p)

  pub arrive-Taken :
      (q : List (List ℕ)) (e : E1000) (w : World hw) (p p' : List ℕ) (d : RxDescriptor)
      → Holds hw rx addrs (p ∷ q) (e, w)
      → Taken d p (e, w)
      → Taken d p (arrive hw rx p' (e, w)) × ((arrive hw rx p' (e, w)).0.rx_cur ≡ e.rx_cur)
  unfolding arrive
  arrive-Taken q e w p p' d h (here, done, holds) = elim (Bool-cases (ltb (length (p ∷ q)) 31)) [
    | inl lt ↦
        let (d', at, empty) = h.free (length (p ∷ q)) (omega arith) h.few in
        let at' : get_elem? e.rx_ring (rx.head w.card) ≡ some d' = rw h.head_at at in
        let (a, b) =
          put-other e w p' p d' d e.rx_cur h.same_addrs at'
            (λ eq.
              slot_cur e.rx_cur (length q) h.cur_lt (ltb→lt (suc (length q)) 31 lt)
                (sym h.head_at ∙ eq))
            here holds in
        rw (may_fill (p ∷ q) (e, w) h, lt, at') ((a, done, b), refl)
    | inr nlt ↦ rw (may_fill (p ∷ q) (e, w) h, nlt) ((here, done, holds), refl)
  ]
