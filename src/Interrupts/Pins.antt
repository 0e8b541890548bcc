-- ===== src/Interrupts/Pins.antt =====
-- Interrupts by the pins of the I/O APICs (kernel/src/arch/x86_64/interrupts.rs, `get_io_apic`,
-- `set_interrupt` and `drop`).
use snek_os.Prelude.{
  ℕ, suc, ◌+◌, ◌-◌, ◌≤◌, ◌<◌, true, false, Bool-cases, Option, none, some, Option-cases, List, [],
  ◌∷◌, get_elem?, set, take, lt→ltb, ==_iff, ◌≡◌, ◌≢◌, ◌⊎◌, inl, inr, refl, ap, ◌∙◌, arith, All,
}
use mathlib.Core.Option.{some-injective}
use snek_os.Interrupts.{
  InterruptHandler, no_handler, handler, Apic, IoApicWithInfo, InterruptType, SourceOverride,
  io_apic_guard, Interrupts, raised, put, num_handlers, last_free,
}
use snek_os.Interrupts.Handlers.{
  serves, get_io_apic, replace, typed_entry, apply_override, set_pin, set_interrupt, drop,
}
use snek_os.Interrupts.Vectors.{raised-handler, raised-other}

-- What the crate documents: writing entries and switching pins leaves the number of pins.
pub record Laws (lib : Apic) : Type 0 where
  pub set_table_entry_max :
      (a : lib.IoApic) (i : ℕ) (e : lib.Entry)
      → lib.max_table_entry (lib.set_table_entry a i e) ≡ lib.max_table_entry a
  pub enable_irq_max :
      (a : lib.IoApic) (i : ℕ) → lib.max_table_entry (lib.enable_irq a i) ≡ lib.max_table_entry a

module _ (F : Type 0) (lib : Apic) where
  -- The first of the I/O APICs with a pin for the interrupt.
  abbrev pub IsServer : List (Option (IoApicWithInfo lib)) → ℕ → ℕ → IoApicWithInfo lib → Type 0
  IsServer apics gsi i a =
      (get_elem? apics i ≡ some (some a))
      × (a.global_system_interrupt_base ≤ gsi)
      × (gsi ≤ a.global_system_interrupt_base + lib.max_table_entry a.io_apic)
      × All (λ b. serves F lib gsi b ≡ false) (take i apics)

  serves-le :
      (gsi : ℕ) (a : IoApicWithInfo lib)
      → serves F lib gsi (some a) ≡ true
      → (a.global_system_interrupt_base ≤ gsi)
        × (gsi ≤ a.global_system_interrupt_base + lib.max_table_entry a.io_apic)
  serves-le gsi a e = (ground arith, ground arith)

  -- `get_io_apic` yields the first I/O APIC whose pins reach the interrupt, and panics exactly where none
  -- does.
  pub get_io_apic-IsServer :
      (apics : List (Option (IoApicWithInfo lib))) (gsi : ℕ)
      → ((i : ℕ) × (a : IoApicWithInfo lib) × (get_io_apic F lib apics gsi ≡ some (i, a))
          × IsServer apics gsi i a)
        ⊎ (get_io_apic F lib apics gsi ≡ none) × All (λ b. serves F lib gsi b ≡ false) apics
  unfolding get_io_apic
  get_io_apic-IsServer [] gsi = inr (refl, tt)
  get_io_apic-IsServer (none ∷ apics) gsi = elim (get_io_apic-IsServer apics gsi) [
    | inl (i, a, e, (at, lo, hi, before)) ↦ inl (suc i, a, rw e refl, (at, lo, hi, (refl, before)))
    | inr (e, all) ↦ inr (rw e refl, (refl, all))
  ]
  get_io_apic-IsServer (some a ∷ apics) gsi = elim (Bool-cases (serves F lib gsi (some a))) [
    | inl yes_here ↦
        let (lo, hi) = serves-le gsi a yes_here in inl (0, a, rw yes_here refl, (refl, lo, hi, tt))
    | inr not_here ↦ elim (get_io_apic-IsServer apics gsi) [
      | inl (i, b, e, (at, lo, hi, before)) ↦
          inl (suc i, b, rw (not_here, e) refl, (at, lo, hi, (not_here, before)))
      | inr (e, all) ↦ inr (rw (not_here, e) refl, (not_here, all))
    ]
  ]

  -- An I/O APIC put back with as many pins is found again.
  get_io_apic-set :
      (apics : List (Option (IoApicWithInfo lib))) (gsi i : ℕ) (a : IoApicWithInfo lib)
      (io_apic : lib.IoApic)
      → lib.max_table_entry io_apic ≡ lib.max_table_entry a.io_apic
      → get_io_apic F lib apics gsi ≡ some (i, a)
      → get_io_apic F lib (set apics i (some (record a { io_apic = io_apic }))) gsi
        ≡ some (i, record a { io_apic = io_apic })
  unfolding get_io_apic
  get_io_apic-set [] gsi i a io_apic same e = absurd (cc e)
  get_io_apic-set (none ∷ apics) gsi i a io_apic same e =
      elim (Option-cases (get_io_apic F lib apics gsi)) [
        | inl nowhere ↦ absurd (cc (e, nowhere))
        | inr ((j, b), found) ↦
            let r : ℕ × IoApicWithInfo lib = (suc j, b) in
            let pair = some-injective r (i, a) (cc (e, found)) in
            let ei : suc j ≡ i = ap (λ p. p.0) pair in
            let ea : b ≡ a = ap (λ p. p.1) pair in
            let rest =
              get_io_apic-set apics gsi j a io_apic same (found ∙ ap (λ c. some (j, c)) ea) in
            rw (← ei, rest) refl
      ]
  get_io_apic-set (some b ∷ apics) gsi i a io_apic same e =
      elim (Bool-cases (serves F lib gsi (some b))) [
        | inl yes_here ↦
            let r : ℕ × IoApicWithInfo lib = (0, b) in
            let pair = some-injective r (i, a) (cc (e, yes_here)) in
            let ei : 0 ≡ i = ap (λ p. p.0) pair in
            let ea : b ≡ a = ap (λ p. p.1) pair in
            let again : serves F lib gsi (some (record a { io_apic = io_apic })) ≡ true =
              rw (same, ← ea) yes_here in
            rw (← ei, again) refl
        | inr not_here ↦ elim (Option-cases (get_io_apic F lib apics gsi)) [
          | inl nowhere ↦ absurd (cc (e, not_here, nowhere))
          | inr ((j, c), found) ↦
              let r : ℕ × IoApicWithInfo lib = (suc j, c) in
              let pair = some-injective r (i, a) (cc (e, not_here, found)) in
              let ei : suc j ≡ i = ap (λ p. p.0) pair in
              let ea : c ≡ a = ap (λ p. p.1) pair in
              let rest =
                get_io_apic-set apics gsi j a io_apic same (found ∙ ap (λ d. some (j, d)) ea) in
              rw (← ei, not_here, rest) refl
        ]
      ]

  -- A handler's life: after it is set, the pin's vector runs it and the others run what they ran; after
  -- its guard is dropped, the pin's vector is empty and the others still run what they ran.
  pub record PinSet (s s' s'' : Interrupts F lib) (pin : ℕ) (h : InterruptHandler F) : Type 0 where
    pub runs : raised F lib s' (pin + 32) ≡ (handler pin, h)
    pub others : (v : ℕ) → v ≢ pin + 32 → raised F lib s' v ≡ raised F lib s v
    pub removed : raised F lib s'' (pin + 32) ≡ (handler pin, no_handler)
    pub kept : (v : ℕ) → v ≢ pin + 32 → raised F lib s'' v ≡ raised F lib s v

  stored-runs :
      (t : Interrupts F lib) (hs : ℕ → InterruptHandler F) (pin : ℕ) (h : InterruptHandler F)
      → t.handlers ≡ put hs pin h
      → pin + 32 ≤ last_free
      → raised F lib t (pin + 32) ≡ (handler pin, h)
  stored-runs t hs pin h e top =
      let back : pin + 32 - 32 ≡ pin = omega arith in
      let here : put hs pin h pin ≡ h = rw ((==_iff pin pin).1 refl) refl in
      raised-handler F lib t (pin + 32) (omega arith) top
      ∙ rw back (ap (λ x. (handler pin, x)) (ap (λ g. g pin) e ∙ here))

  PinSet-stored :
      (s s' s'' : Interrupts F lib) (pin : ℕ) (h : InterruptHandler F)
      → s'.handlers ≡ put s.handlers pin h
      → s''.handlers ≡ put s'.handlers pin no_handler
      → pin + 32 ≤ last_free
      → PinSet s s' s'' pin h
  PinSet-stored s s' s'' pin h e e' top = record {
    runs = stored-runs s' s.handlers pin h e top;
    others = λ v ne. raised-other F lib s s' pin v h e ne;
    removed = stored-runs s'' s'.handlers pin no_handler e' top;
    kept = λ v ne.
        raised-other F lib s' s'' pin v no_handler e' ne ∙ raised-other F lib s s' pin v h e ne;
  }

  set_pin-found :
      (s : Interrupts F lib) (pin i : ℕ) (itype : InterruptType) (a : IoApicWithInfo lib)
      (h : InterruptHandler F)
      → get_io_apic F lib s.io_apics pin ≡ some (i, a)
      → pin < num_handlers
      → let row = pin - a.global_system_interrupt_base in
        let io =
          lib.enable_irq
            (lib.set_table_entry a.io_apic row (typed_entry F lib a.io_apic row itype))
            row in
        set_pin F lib s pin itype h
        ≡ some
            (io_apic_guard pin, replace F lib (record s { handlers = put s.handlers pin h }) i a io)
  unfolding set_pin
  set_pin-found s pin i itype a h found room =
      rw (set_pin, found, lt→ltb pin num_handlers room) refl

  drop-found :
      (s : Interrupts F lib) (pin i : ℕ) (a : IoApicWithInfo lib)
      → get_io_apic F lib s.io_apics pin ≡ some (i, a)
      → pin < num_handlers
      → let io = lib.disable_irq a.io_apic (pin - a.global_system_interrupt_base) in
        drop F lib s (io_apic_guard pin)
        ≡ some (record (replace F lib s i a io) { handlers = put s.handlers pin no_handler })
  unfolding drop
  drop-found s pin i a found room = rw (drop, found, lt→ltb pin num_handlers room) refl

  -- Where, after the overrides, an I/O APIC has a pin for the interrupt, and the vector behind the pin is
  -- below those of the local APIC, setting a handler and dropping its guard both succeed.
  pub set_interrupt-PinSet :
      (laws : Laws lib) (overrides : List SourceOverride) (s : Interrupts F lib) (gsi : ℕ)
      (itype : InterruptType) (h : InterruptHandler F) (pin i : ℕ) (itype' : InterruptType)
      (a : IoApicWithInfo lib)
      → apply_override overrides gsi itype ≡ (pin, itype')
      → get_io_apic F lib s.io_apics pin ≡ some (i, a)
      → pin + 32 ≤ last_free
      → (s' : Interrupts F lib) × (s'' : Interrupts F lib) × (set_interrupt F lib overrides s gsi
            itype h
          ≡ some (io_apic_guard pin, s'))
        × (drop F lib s' (io_apic_guard pin) ≡ some s'')
        × PinSet s s' s'' pin h
  unfolding set_interrupt
  set_interrupt-PinSet laws overrides s gsi itype h pin i itype' a over found top =
      let row = pin - a.global_system_interrupt_base in
      let io =
        lib.enable_irq (lib.set_table_entry a.io_apic row (typed_entry F lib a.io_apic row itype'))
          row in
      let same : lib.max_table_entry io ≡ lib.max_table_entry a.io_apic =
        laws.enable_irq_max _ row ∙ laws.set_table_entry_max a.io_apic row _ in
      let t : Interrupts F lib = record s { handlers = put s.handlers pin h } in
      let s' : Interrupts F lib = replace F lib t i a io in
      let b : IoApicWithInfo lib = record a { io_apic = io } in
      let again = get_io_apic-set s.io_apics pin i a io same found in
      let s'' : Interrupts F lib = record (replace F lib s' i b (lib.disable_irq io row)) {
        handlers = put s'.handlers pin no_handler;
      } in
      (
        s',
        s'',
        rw (set_interrupt, ap (λ p. p.0) over, ap (λ p. p.1) over)
            (set_pin-found s pin i itype' a h found (omega arith)),
        drop-found s' pin i b again (omega arith),
        PinSet-stored s s' s'' pin h refl refl top,
      )
