-- ===== src/E1000/Built.antt =====
-- How `E1000::new` ends, and what it leaves on the heap (kernel/src/drivers/e1000.rs).
use snek_os.Prelude.{
  u32, replicate, bit_or, shl, shr, ℕ, zero, suc, ◌+◌, ◌-◌, ◌*◌, Bool, Bool-cases, true, false,
  List, [], ◌∷◌, ◌++◌, map, length, Option, none, some, has, ◌==◌, bit_and, ◌≡◌, ◌⊎◌, inl, inr,
  refl, sym, ap, ◌∙◌,
}
use mathlib.Core.Bool.{false≢true}
use snek_os.E1000.{
  Error, unknown_bar, no_eeprom, Bar, memory32, memory64, io, Hw, World, ok, err, pure, throw,
  Register, offset, r_control, r_status, r_eeprom, control_rst, control_lrst, control_phy_rst,
  control_vme, control_slu, tx_desc_size, rx_desc_size, RxDescriptor, insert_flags, remove_flags,
  read_until, await_eeprom, detect_eeprom, read_eeprom, reset,
}
use snek_os.E1000.Ring.{E1000}
use snek_os.E1000.New.{
  Header, registers_addr, expect_eeprom, read_address, new_tx_ring, new_buffers, new_rx_ring,
  clear_multicast, link_up, free_buffers, build, mac_bytes, blank_tx, t_ctl, r_ctl, all_interrupts,
  blank_rx,
}

-- The first list backwards before the second.
abbrev pub onto : List ℕ → List ℕ → List ℕ
onto [] l = l
onto (a ∷ as') l = onto as' (a ∷ l)

module _ (hw : Hw) where
  -- A test passes within the reads given.
  abbrev pub Answers : Register → (ℕ → Bool) → ℕ → hw.Card → Type 0
  Answers r test zero c = ⊥
  Answers r test (suc n) c =
      (test (hw.read c (offset r)).0 ≡ true) ⊎ Answers r test n (hw.read c (offset r)).1

  -- Every loop that waits for the card ends within the rounds given, and what the heap gives out is mapped.
  pub record IsPrompt (fuel : ℕ) : Type 0 where
    pub reset_ends : (c : hw.Card) → Answers r_control (λ v. bit_and v control_rst == 0) fuel c
    pub eeprom_answers : (c : hw.Card) → Answers r_eeprom (λ v. has v 16) fuel c
    pub link_comes_up : (c : hw.Card) → Answers r_status (λ v. has v 2) fuel c
    pub mapped : (a f : List ℕ) → (p : ℕ) × (hw.translate_virt_addr (hw.fresh a f) ≡ some p)

  -- The buffers in the order of their descriptors.
  abbrev pub Backs : List RxDescriptor → List ℕ → Type 0
  Backs [] [] = Unit {0}
  Backs (d ∷ ds) (b ∷ bs) = (hw.translate_virt_addr b ≡ some d.addr) × (d.status ≡ 0) × Backs ds bs
  Backs _ _ = ⊥

  abbrev written : List (ℕ × ℕ) → hw.Card → hw.Card
  written [] c = c
  written ((r, v) ∷ rvs) c = written rvs (hw.write c r v)

  read_until-ends :
      (r : Register) (test : ℕ → Bool) (fuel : ℕ) (w : World hw)
      → Answers r test fuel w.card
      → (v : ℕ) × (c : hw.Card) × (read_until r test fuel w ≡ (ok v, record w { card = c }))
  unfolding read_until
  read_until-ends r test zero w h = absurd h
  read_until-ends r test (suc fuel) w h = elim (Bool-cases (test (hw.read w.card (offset r)).0)) [
    | inl passes ↦ ((hw.read w.card (offset r)).0, (hw.read w.card (offset r)).1, rw passes refl)
    | inr fails ↦ elim h [
      | inl passes ↦ absurd (false≢true (sym fails ∙ passes))
      | inr later ↦
          let (v, c, e) =
            read_until-ends r test fuel (record w { card = (hw.read w.card (offset r)).1 }) later in
          (v, c, rw (fails, e) refl)
    ]
  ]

  await_eeprom-ends :
      (n : ℕ) (w : World hw)
      → (b : Bool) × (c : hw.Card) × (await_eeprom n w ≡ (ok b, record w { card = c }))
  unfolding await_eeprom
  await_eeprom-ends zero w = (false, w.card, refl)
  await_eeprom-ends (suc n) w = elim (Bool-cases (has (hw.read w.card 0x14).0 16)) [
    | inl passes ↦ (true, (hw.read w.card 0x14).1, rw passes refl)
    | inr fails ↦
        let (b, c, e) = await_eeprom-ends n (record w { card = (hw.read w.card 0x14).1 }) in
        (b, c, rw (fails, e) refl)
  ]

  detect_eeprom-ends :
      (w : World hw)
      → (b : Bool) × (c : hw.Card) × (detect_eeprom w ≡ (ok b, record w { card = c }))
  unfolding detect_eeprom
  detect_eeprom-ends w = await_eeprom-ends 1000 (record w { card = hw.write w.card 0x14 1 })

  module _ (fuel : ℕ) (prompt : IsPrompt fuel) where
    reset-ends : (w : World hw) → (c : hw.Card) × (reset fuel w ≡ (ok tt, record w { card = c }))
    unfolding reset insert_flags remove_flags
    reset-ends w =
        let (v, c) = hw.read w.card 0 in
        let c' = hw.write c 0 (bit_or v control_rst) in
        let (v', c'', e) =
          read_until-ends r_control (λ x. bit_and x control_rst == 0) fuel (record w { card = c' })
            (prompt.reset_ends c') in
        (
          hw.write (hw.read c'' 0).1 0 (
              bit_and (hw.read c'' 0).0
                (4294967295 - bit_or (bit_or control_lrst control_phy_rst) control_vme)),
          rw e refl,
        )

    read_eeprom-ends :
        (i : ℕ) (w : World hw)
        → (v : ℕ) × (c : hw.Card) × (read_eeprom fuel i w ≡ (ok v, record w { card = c }))
    unfolding read_eeprom
    read_eeprom-ends i w =
        let c' = hw.write w.card 0x14 (bit_or 1 (shl i 8)) in
        let (v, c, e) =
          read_until-ends r_eeprom (λ x. has x 16) fuel (record w { card = c' })
            (prompt.eeprom_answers c') in
        (bit_and (shr v 16) 0xffff, c, rw e refl)

    read_address-ends :
        (w : World hw)
        → (v : List ℕ) × (c : hw.Card) × (read_address fuel w ≡ (ok v, record w { card = c }))
          × (length v ≡ 6)
    unfolding read_address
    read_address-ends w =
        let (v, c, e) = read_eeprom-ends 0 w in
        let (v', c', e') = read_eeprom-ends 1 (record w { card = c }) in
        let (v'', c'', e'') = read_eeprom-ends 2 (record w { card = c' }) in
        (mac_bytes v ++ mac_bytes v' ++ mac_bytes v'', c'', rw (e, e', e'') refl, refl)

    pub link_up-ends :
        (w : World hw) → (v : ℕ) × (c : hw.Card) × (link_up fuel w ≡ (ok v, record w { card = c }))
    unfolding link_up insert_flags
    link_up-ends w =
        let (v, c) = hw.read w.card 0 in
        let c' = hw.write c 0 (bit_or v control_slu) in
        let (v', c'', e) =
          read_until-ends r_status (λ x. has x 2) fuel (record w { card = c' })
            (prompt.link_comes_up c') in
        (v', c'', rw e refl)

    new_tx_ring-ends :
        (w : World hw)
        → (a : ℕ) × (c : hw.Card) × (new_tx_ring w
            ≡ (ok a, record w { card = c; allocated = a ∷ w.allocated }))
    unfolding new_tx_ring
    new_tx_ring-ends w =
        let a = hw.fresh w.allocated w.freed in
        let (p, e) = prompt.mapped w.allocated w.freed in
        (
          a,
          written
              ((0x3800, u32 p)
                ∷ (0x3804, u32 (shr p 32))
                ∷ (0x3808, tx_desc_size)
                ∷ (0x3810, 0)
                ∷ (0x3818, 0)
                ∷ (0x400, t_ctl)
                ∷ [])
              w.card,
          rw e refl,
        )

    new_buffers-ends :
        (n : ℕ) (w : World hw)
        → (ds : List RxDescriptor) × (bs : List ℕ) × (new_buffers n w
            ≡ (ok ds, record w { allocated = onto bs w.allocated }))
          × Backs ds bs
          × (length ds ≡ n)
    unfolding new_buffers
    new_buffers-ends zero w = ([], [], refl, tt, refl)
    new_buffers-ends (suc n) w =
        let b = hw.fresh w.allocated w.freed in
        let (p, e) = prompt.mapped w.allocated w.freed in
        let (ds, bs, e', backs, len) =
          new_buffers-ends n (record w { allocated = b ∷ w.allocated }) in
        (blank_rx p ∷ ds, b ∷ bs, rw (e, e') refl, (e, refl, backs), ap suc len)

    new_rx_ring-ends :
        (w : World hw)
        → (a : ℕ) × (ds : List RxDescriptor) × (bs : List ℕ) × (c : hw.Card) × (new_rx_ring w
            ≡ (ok (a, ds), record w { card = c; allocated = onto bs (a ∷ w.allocated) }))
          × Backs ds bs
          × (length ds ≡ 32)
    unfolding new_rx_ring
    new_rx_ring-ends w =
        let a = hw.fresh w.allocated w.freed in
        let (p, e) = prompt.mapped w.allocated w.freed in
        let (ds, bs, e', backs, len) =
          new_buffers-ends 32 (record w { allocated = a ∷ w.allocated }) in
        (
          a,
          ds,
          bs,
          written
              ((0x2800, u32 p)
                ∷ (0x2804, u32 (shr p 32))
                ∷ (0x2808, rx_desc_size)
                ∷ (0x2810, 0)
                ∷ (0x2818, 31)
                ∷ (0x100, r_ctl)
                ∷ [])
              w.card,
          rw (e', e) refl,
          backs,
          len,
        )

  clear_multicast-ends :
      (n i : ℕ) (w : World hw)
      → (c : hw.Card) × (clear_multicast n i w ≡ (ok tt, record w { card = c }))
  unfolding clear_multicast
  clear_multicast-ends zero i w = (w.card, refl)
  clear_multicast-ends (suc n) i w =
      let (c, e) =
        clear_multicast-ends n (i + 1) (record w { card = hw.write w.card (0x5200 + i * 4) 0 }) in
      (c, rw e refl)

  pub free_buffers-ends :
      (ds : List RxDescriptor) (w : World hw)
      → free_buffers ds w
        ≡ (ok tt, record w { freed = onto (map (λ d. hw.phys_offset + d.addr) ds) w.freed })
  unfolding free_buffers
  free_buffers-ends [] w = refl
  free_buffers-ends (d ∷ ds) w =
      free_buffers-ends ds (record w { freed = (hw.phys_offset + d.addr) ∷ w.freed })

  registers_addr-cases :
      (bar : Option Bar)
      → (registers_addr {hw = hw} bar ≡ throw unknown_bar)
        ⊎ ((a : ℕ) × (registers_addr {hw = hw} bar ≡ pure a))
  unfolding registers_addr
  registers_addr-cases none = inl refl
  registers_addr-cases (some (memory32 a)) = inr (a, refl)
  registers_addr-cases (some (memory64 a)) = inr (a, refl)
  registers_addr-cases (some (io a)) = inl refl

  -- The driver after `new`, with its two rings and the buffers allocated one after the other.
  pub record IsBuilt (w : World hw) (e : E1000) (bs : List ℕ) (w' : World hw) : Type 0 where
    pub cursors : (e.tx_cur ≡ 0) × (e.rx_cur ≡ 0)
    pub rings : (length e.tx_ring ≡ 32) × (length e.rx_ring ≡ 32)
    pub mac_length : length e.address ≡ 6
    pub backs : Backs e.rx_ring bs
    pub allocated : w'.allocated ≡ onto bs (e.rx_ring_at ∷ e.tx_ring_at ∷ w.allocated)
    pub freed : w'.freed ≡ w.freed

  module _ (fuel : ℕ) (prompt : IsPrompt fuel) where
    pub build-ends :
        (header : Header) (w : World hw)
        → ((er : Error) × (w' : World hw) × (build fuel header w ≡ (err er, w'))
            × (w'.allocated ≡ w.allocated)
            × (w'.freed ≡ w.freed)
            × ((er ≡ unknown_bar) ⊎ (er ≡ no_eeprom)))
          ⊎ ((e : E1000) × (w' : World hw) × (bs : List ℕ) × (build fuel header w ≡ (ok e, w'))
              × IsBuilt w e bs w')
    unfolding build expect_eeprom
    build-ends header w =
        let w1 = record w { command = bit_or (bit_and w.command 0x77f) 6 } in
        let (c1, e1) = reset-ends fuel prompt w1 in
        let (b, c2, e2) = detect_eeprom-ends (record w1 { card = c1 }) in
        let w2 = record w1 { card = c2 } in
        let (mac, c3, e3, six) = read_address-ends fuel prompt w2 in
        let (tx, c4, e4) = new_tx_ring-ends fuel prompt (record w2 { card = c3 }) in
        let (rx, ds, bs, c5, e5, backs, len) =
          new_rx_ring-ends fuel prompt (record w2 { card = c4; allocated = tx ∷ w.allocated }) in
        let w5 = record w2 { card = c5; allocated = onto bs (rx ∷ tx ∷ w.allocated) } in
        let (c6, e6) = clear_multicast-ends 128 0 w5 in
        elim (registers_addr-cases header.bar0) [
          | inl e0 ↦ inl (unknown_bar, w1, rw e0 refl, refl, refl, inl refl)
          | inr (a, e0) ↦ elim (Bool-cases b) [
            | inr missing ↦ inl (no_eeprom, w2, rw (e0, e1, e2, missing) refl, refl, refl, inr refl)
            | inl present ↦ inr (
              record {
                address = mac;
                tx_cur = 0;
                tx_ring_at = tx;
                tx_ring = replicate 32 blank_tx;
                rx_cur = 0;
                rx_ring_at = rx;
                rx_ring = ds;
                interrupt_guard = none;
                waker = none;
              },
              record w5 { card = (hw.read (hw.write c6 0xd0 all_interrupts) 0xc0).1 },
              bs,
              rw (e0, e1, e2, present, e3, e4, e5, e6) refl,
              record {
                cursors = (refl, refl);
                rings = (refl, len);
                mac_length = six;
                backs = backs;
                allocated = refl;
                freed = refl;
              },
            )
          ]
        ]
