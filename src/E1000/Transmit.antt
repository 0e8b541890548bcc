-- ===== src/E1000/Transmit.antt =====
-- The transmit ring of the network card as a queue (kernel/src/drivers/e1000.rs, `send`).
use snek_os.Prelude.{
  ℕ, ◌+◌, ◌%◌, ◌<◌, List, [], ◌∷◌, ◌++◌, Option, none, some, if◌then◌else◌, get_elem?, length, u16,
  ◌==◌, ltb, ◌≡◌,
}
use snek_os.E1000.{Hw, World, Outcome, ok, TxDescriptor, offset, tx_desc_tail}
use snek_os.E1000.Ring.{E1000, Buffer, send}

-- What the manual of the card documents of sending: the card fetches the descriptors from its head up
-- to, and without, the one that software wrote to the tail register.
pub record Sender (hw : Hw) : Type 0 where
  pub head : hw.Card → ℕ
  pub tail : hw.Card → ℕ
  pub advance : hw.Card → hw.Card

pub record IsSender (hw : Hw) (tx : Sender hw) : Type 0 where
  pub tail_written : (c : hw.Card) (v : ℕ) → tx.tail (hw.write c (offset tx_desc_tail) v) ≡ v
  pub head_kept : (c : hw.Card) (v : ℕ) → tx.head (hw.write c (offset tx_desc_tail) v) ≡ tx.head c
  pub head_advanced : (c : hw.Card) → tx.head (tx.advance c) ≡ (tx.head c + 1) % 32
  pub tail_kept : (c : hw.Card) → tx.tail (tx.advance c) ≡ tx.tail c

-- A physical address and a length.
abbrev pub Packet : Type 0
Packet = ℕ × ℕ

-- A call of `send`, for a slice at a virtual address, and a fetch by the card.
pub data Event : Type 0 where
  sends : Buffer → Event
  fetches : Event

module _ (hw : Hw) (tx : Sender hw) where
  abbrev pub State : Type 0
  State = E1000 × World hw

  abbrev fetched : State → Option TxDescriptor → Option (List Packet × State)
  fetched s none = none
  fetched (e, w) (some d) =
      some ((d.addr, d.length) ∷ [], (e, record w { card = tx.advance w.card }))

  abbrev sent : Outcome E1000 × World hw → Option (List Packet × State)
  sent (ok e, w) = some ([], (e, w))
  sent _ = none

  -- What the card fetches; `none` is a panic.
  unfoldable pub step : Event → State → Option (List Packet × State)
  step (sends b) (e, w) = sent (send e b w)
  step fetches (e, w) =
      if tx.head w.card == tx.tail w.card
      then some ([], (e, w))
      else fetched (e, w) (get_elem? e.tx_ring (tx.head w.card))

  abbrev pub prepend : List Packet → Option (List Packet × State) → Option (List Packet × State)
  prepend out none = none
  prepend out (some (outs, s)) = some (out ++ outs, s)

  abbrev pub followed :
      Option (List Packet × State)
      → (State → Option (List Packet × State))
      → Option (List Packet × State)
  followed none f = none
  followed (some (out, s)) f = prepend out (f s)

  abbrev pub run : List Event → State → Option (List Packet × State)
  run [] s = some ([], s)
  run (ev ∷ evs) s = followed (step ev s) (run evs)

module _ (hw : Hw) where
  -- The queue, in which a packet is where the page tables put its slice; `none` is a panic for a slice
  -- that is not mapped, or a send into a ring with 31 packets in it.
  abbrev pub push : Buffer → Option ℕ → List Packet → Option (List Packet × List Packet)
  push (ptr, len) none q = none
  push (ptr, len) (some phys) q =
      if ltb (length q) 31 then some ([], q ++ (phys, u16 len) ∷ []) else none

  abbrev pub queue_step : Event → List Packet → Option (List Packet × List Packet)
  queue_step (sends b) q = push b (hw.translate_virt_addr b.0) q
  queue_step fetches [] = some ([], [])
  queue_step fetches (p ∷ q) = some (p ∷ [], q)

  abbrev pub queue_prepend :
      List Packet → Option (List Packet × List Packet) → Option (List Packet × List Packet)
  queue_prepend out none = none
  queue_prepend out (some (outs, q)) = some (out ++ outs, q)

  abbrev pub queue_followed :
      Option (List Packet × List Packet)
      → (List Packet → Option (List Packet × List Packet))
      → Option (List Packet × List Packet)
  queue_followed none f = none
  queue_followed (some (out, q)) f = queue_prepend out (f q)

  abbrev pub queue_run : List Event → List Packet → Option (List Packet × List Packet)
  queue_run [] q = some ([], q)
  queue_run (ev ∷ evs) q = queue_followed (queue_step ev q) (queue_run evs)

module _ (hw : Hw) (tx : Sender hw) where
  pub record Holds (q : List Packet) (s : State hw tx) : Type 0 where
    pub head_lt : tx.head s.1.card < 32
    pub few : length q < 32
    pub ring_length : length s.0.tx_ring ≡ 32
    pub cur_at : s.0.tx_cur ≡ (tx.head s.1.card + length q) % 32
    pub tail_at : tx.tail s.1.card ≡ s.0.tx_cur
    pub pending :
        (i : ℕ) (p : Packet)
        → get_elem? q i ≡ some p
        → (d : TxDescriptor) × (get_elem? s.0.tx_ring ((tx.head s.1.card + i) % 32) ≡ some d)
          × ((d.addr, d.length) ≡ p)
