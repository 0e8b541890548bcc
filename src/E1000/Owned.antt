-- ===== src/E1000/Owned.antt =====
-- Who owns the memory that the rings of the network card point to (kernel/src/drivers/e1000.rs, `new`, `drop`
-- and `TxToken::consume`).
use snek_os.Prelude.{
  ℕ, zero, suc, ◌+◌, ◌<◌, ◌%◌, List, [], ◌∷◌, ◌++◌, map, length, get_elem?, Option, Option-cases,
  none, some, has, false, u16, ◌≡◌, ◌⊎◌, inl, inr, refl, sym, ap, ◌∙◌, arith,
}
use mathlib.Core.Option.{some-injective, none-ne-some}
use snek_os.Interrupts.{
  Apic, SourceOverride, InterruptGuard, Interrupts, level_low, dynamic_handler,
}
use snek_os.Interrupts.Handlers.{set_interrupt}
use snek_os.E1000.{
  Error, unknown_bar, no_eeprom, route_gsi, Hw, World, ok, err, panic, RxDescriptor, dd,
}
use snek_os.E1000.Ring.{E1000, poke, consume_tx}
use snek_os.E1000.New.{Header, drop, connect, new}
use snek_os.E1000.Queue.{Receiver}
use snek_os.E1000.Queue
use snek_os.E1000.Transmit.{Sender, IsSender, Packet}
use snek_os.E1000.Transmit
use snek_os.E1000.Sent.{get_elem?-in, send-after, after-Holds, cur_lt, after}
use snek_os.E1000.Built.{
  onto, IsPrompt, Backs, IsBuilt, build-ends, free_buffers-ends, link_up-ends,
}

module _ (hw : Hw) where
  drop-frees :
      (e : E1000) (w : World hw)
      → drop e w ≡ (
        ok tt,
        record w {
          freed =
              e.rx_ring_at
              ∷ onto (map (λ d. hw.phys_offset + d.addr) e.rx_ring) (e.tx_ring_at ∷ w.freed);
        },
      )
  unfolding drop
  drop-frees e w =
      rw (free_buffers-ends hw e.rx_ring (record w { freed = e.tx_ring_at ∷ w.freed })) refl

  -- What is left where `new` fails.
  abbrev pub Refused : World hw → Error → World hw → Type 0
  Refused w er w' =
      ((er ≡ unknown_bar) ⊎ (er ≡ no_eeprom)) × (w'.allocated ≡ w.allocated) × (w'.freed ≡ w.freed)

  abbrev pub Undone : World hw → E1000 → List ℕ → World hw → Type 0
  Undone w e bs w' =
      Backs hw e.rx_ring bs
      × (w'.allocated ≡ onto bs (e.rx_ring_at ∷ e.tx_ring_at ∷ w.allocated))
      × (w'.freed
          ≡ e.rx_ring_at
            ∷ onto (map (λ d. hw.phys_offset + d.addr) e.rx_ring) (e.tx_ring_at ∷ w.freed))

  module _ (F : Type 0) (lib : Apic) (overrides : List SourceOverride) (f : F) where
    -- What the interrupt of the card is set to.
    abbrev pub claimed : Interrupts F lib → ℕ → Option (InterruptGuard × Interrupts F lib)
    claimed s gsi = set_interrupt F lib overrides s gsi level_low (dynamic_handler f)

    -- With a card that answers in time and memory that is mapped, `new` ends in one of four ways. It
    -- refuses the card before it allocates anything; or, when the interrupt has no route, it fails with
    -- `RouteGsi` and frees both rings and, in place of each of the 32 buffers, the address at which all of
    -- physical memory shows that buffer; or, when the interrupt has a route and setting it panics, since
    -- no I/O APIC serves it or the handlers have no place for it, `new` panics; or the interrupt is set, and it yields a driver with the guard of its interrupt, empty
    -- cursors, 32 descriptors in each ring, a MAC address of six bytes, and a buffer for each descriptor.
    pub new-ends :
        (fuel : ℕ) (prompt : IsPrompt hw fuel) (header : Header) (route : Option ℕ)
        (s : Interrupts F lib) (w : World hw)
        → ((er : Error) × (w' : World hw) × (new F lib overrides f fuel header route s w
              ≡ (err er, w'))
            × Refused w er w')
          ⊎ ((e : E1000) × (bs : List ℕ) × (w' : World hw) × (route ≡ none)
              × (new F lib overrides f fuel header route s w ≡ (err route_gsi, w'))
              × (length e.rx_ring ≡ 32)
              × Undone w e bs w')
          ⊎ ((gsi : ℕ) × (w' : World hw) × (route ≡ some gsi)
              × (claimed s gsi ≡ none)
              × (new F lib overrides f fuel header route s w ≡ (panic, w')))
          ⊎ ((gsi : ℕ) × (g : InterruptGuard) × (s' : Interrupts F lib) × (e : E1000) × (bs : List
                ℕ)
              × (w' : World hw) × (route ≡ some gsi)
              × (claimed s gsi ≡ some (g, s'))
              × (new F lib overrides f fuel header route s w ≡ (ok (e, s'), w'))
              × (e.interrupt_guard ≡ some g)
              × IsBuilt hw w e bs w')
    unfolding new connect
    new-ends fuel prompt header none s w = elim (build-ends hw fuel prompt header w) [
      | inl (er, w', e, a, fr, which) ↦ inl (er, w', rw e refl, (which, a, fr))
      | inr (e, w', bs, eq, built) ↦ inr (
          inl (
            e,
            bs,
            record w' {
              freed =
                  e.rx_ring_at
                  ∷ onto (map (λ d. hw.phys_offset + d.addr) e.rx_ring) (e.tx_ring_at ∷ w'.freed);
            },
            refl,
            rw (eq, drop-frees e w') refl,
            built.rings.1,
            (
              built.backs,
              built.allocated,
              ap
                  (λ l.
                    e.rx_ring_at
                    ∷ onto (map (λ d. hw.phys_offset + d.addr) e.rx_ring) (e.tx_ring_at ∷ l))
                  built.freed,
            ),
          ))
    ]
    new-ends fuel prompt header (some gsi) s w = elim (build-ends hw fuel prompt header w) [
      | inl (er, w', e, a, fr, which) ↦ inl (er, w', rw e refl, (which, a, fr))
      | inr (e, w', bs, eq, built) ↦ elim (Option-cases (claimed s gsi)) [
        | inl panics ↦ inr (inr (inl (gsi, w', refl, panics, rw (eq, panics) refl)))
        | inr ((g, s'), set) ↦
            let (v, c, up) = link_up-ends hw fuel prompt w' in
            inr (
              inr (
                inr (
                  gsi,
                  g,
                  s',
                  record e { interrupt_guard = some g },
                  bs,
                  record w' { card = c },
                  refl,
                  set,
                  rw (eq, set, up) refl,
                  refl,
                  record {
                    cursors = built.cursors;
                    rings = built.rings;
                    mac_length = built.mac_length;
                    backs = built.backs;
                    allocated = built.allocated;
                    freed = built.freed;
                  },
                )))
      ]
    ]

  Backs-status :
      (ds : List RxDescriptor) (bs : List ℕ) (i : ℕ) (d : RxDescriptor)
      → Backs hw ds bs
      → get_elem? ds i ≡ some d
      → has d.status dd ≡ false
  Backs-status [] bs i d b e = absurd (none-ne-some d e)
  Backs-status (x ∷ ds) [] i d b e = absurd b
  Backs-status (x ∷ ds) (a ∷ bs) zero d b e =
      ap (λ s. has s dd) (ap (λ y. y.status) (sym (some-injective x d e)) ∙ b.1)
  Backs-status (x ∷ ds) (a ∷ bs) (suc i) d b e = Backs-status ds bs i d b.2 e

  -- The receive ring that `new` leaves, with the head and the tail of the card where it wrote them, is an
  -- empty queue.
  pub IsBuilt-Holds :
      (rx : Receiver hw) (w w' : World hw) (e : E1000) (bs : List ℕ)
      → IsBuilt hw w e bs w'
      → rx.head w'.card ≡ 0
      → rx.tail w'.card ≡ 31
      → Queue.Holds hw rx (map (λ d. d.addr) e.rx_ring) [] (e, w')
  IsBuilt-Holds rx w w' e bs built head tail =
      let zero_cur = built.cursors.1 in
      record {
        cur_lt = omega (arith, zero_cur);
        few = omega arith;
        ring_length = built.rings.1;
        head_at = head ∙ omega (arith, zero_cur);
        tail_at = tail ∙ omega (arith, zero_cur);
        same_addrs = refl;
        waiting = λ i p at. absurd (none-ne-some p at);
        free = λ i le lt.
            let (d, at) =
              get_elem?-in e.rx_ring ((e.rx_cur + i) % 32) (omega (arith, built.rings.1)) in
            (d, at, Backs-status e.rx_ring bs ((e.rx_cur + i) % 32) d built.backs at);
      }

  -- What happens on the heap does not touch the ring.
  elsewhere :
      (tx : Sender hw) (q : List Packet) (e : E1000) (w : World hw) (a f : List ℕ) (m : ℕ → List ℕ)
      → Transmit.Holds hw tx q (e, w)
      → Transmit.Holds hw tx q (e, record w { allocated = a; freed = f; memory = m })
  elsewhere tx q e w a f m h = record {
    head_lt = h.head_lt;
    few = h.few;
    ring_length = h.ring_length;
    cur_at = h.cur_at;
    tail_at = h.tail_at;
    pending = h.pending;
  }

  -- When `TxToken::consume` returns, its buffer has been freed, and the packet in it still waits in
  -- the ring for the card to fetch, if the ring had room.
  pub consume_tx-dangles :
      (tx : Sender hw) (is : IsSender hw tx) (q : List Packet) (e : E1000) (w : World hw)
      (packet : List ℕ) (phys : ℕ)
      → Transmit.Holds hw tx q (e, w)
      → length q < 31
      → hw.translate_virt_addr (hw.fresh w.allocated w.freed) ≡ some phys
      → (e' : E1000) × (w' : World hw) × (consume_tx e packet w ≡ (ok e', w'))
        × (w'.freed ≡ hw.fresh w.allocated w.freed ∷ w.freed)
        × Transmit.Holds hw tx (q ++ (phys, u16 (length packet)) ∷ []) (e', w')
  unfolding consume_tx
  consume_tx-dangles tx is q e w packet phys h room mapped =
      let buffer = hw.fresh w.allocated w.freed in
      let w1 = record w { allocated = buffer ∷ w.allocated; memory = poke phys packet w.memory } in
      let h1 = elsewhere tx q e w w1.allocated w.freed w1.memory h in
      let (d, at) = get_elem?-in e.tx_ring e.tx_cur (cur_lt hw tx is q e w1 h1) in
      let (e', w2) = after hw tx is phys (length packet) d (e, w1) in
      (
        e',
        record w2 { freed = buffer ∷ w.freed },
        rw (mapped, send-after hw tx is e w1 buffer (length packet) phys d at mapped) refl,
        refl,
        elsewhere tx (q ++ (phys, u16 (length packet)) ∷ []) e' w2 w2.allocated (buffer ∷ w.freed)
            w2.memory (after-Holds hw tx is q e w1 (length packet) phys d h1 room),
      )
