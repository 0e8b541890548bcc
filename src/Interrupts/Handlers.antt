-- ===== src/Interrupts/Handlers.antt =====
-- The handlers' operations (kernel/src/arch/x86_64/interrupts.rs): `get_io_apic`, `set_interrupt`,
-- `set_interrupt_msi`, and the guards' `drop`.
use snek_os.Prelude.{
  ℕ, zero, suc, ◌+◌, ◌-◌, ◌*◌, ◌^◌, Bool, true, false, Option, none, some, List, [], ◌∷◌, set, leb,
  ltb, ◌==◌, if◌then◌else◌, u8,
}
use snek_os.Interrupts.{
  InterruptHandler, no_handler, dynamic_handler, Apic, IoApicWithInfo, InterruptType, edge_high,
  edge_low, level_high, level_low, TriggerMode, edge, level, Polarity, active_high, active_low,
  SourceOverride, PciCapability, msi, msi_x, other_capability, InterruptGuard, io_apic_guard,
  msi_guard, msi_x_guard, PciWrite, set_message_info, set_enabled, write_table, Interrupts, store,
  last_free,
}

abbrev pub is_none : {F : Type 0} → InterruptHandler F → Bool
is_none no_handler = true
is_none _ = false

-- `mar`: bits 20 to 32 hold 0x0FEE, and the rest are 0.
abbrev pub message_address : ℕ
message_address = 0x0FEE * 2 ^ 20

-- `match (iso.trigger_mode, iso.polarity)`
abbrev pub override_type : TriggerMode → Polarity → InterruptType → InterruptType
override_type edge active_high t = edge_high
override_type edge active_low t = edge_low
override_type level active_high t = level_high
override_type level active_low t = level_low
override_type _ _ t = t

-- The loop over the overrides, which stops at the first for the interrupt.
unfoldable pub apply_override : List SourceOverride → ℕ → InterruptType → ℕ × InterruptType
apply_override [] gsi itype = (gsi, itype)
apply_override (o ∷ os) gsi itype =
    let rest = apply_override os gsi itype in
    if o.isa_source == gsi
    then (u8 o.global_system_interrupt, override_type o.trigger_mode o.polarity itype)
    else rest

-- The search of `set_interrupt_msi` through `n` vectors from `i` on, with the test of a vector's handler;
-- 0 where none is free.
unfoldable pub first_free_vector : (ℕ → Bool) → ℕ → ℕ → ℕ
first_free_vector free i zero = 0
first_free_vector free i (suc n) =
    let rest = first_free_vector free (i + 1) n in if free (i - 32) then i else rest

-- A capability with a table of messages: it panics where no memory of the device holds the table.
abbrev pub write_entry :
    Option ℕ → ℕ → ℕ → List PciWrite → Option (Option InterruptGuard × List PciWrite)
write_entry none c gsi pci = none
write_entry (some address) c gsi pci = some (
  some (msi_x_guard c gsi),
  set_enabled c true ∷ write_table address message_address 0 gsi 0 ∷ pci,
)

-- The loop over the device's capabilities: the first for messages is set up. `table` maps the memory of a
-- capability's table, and yields its address there.
unfoldable pub map_message :
    (ℕ → Option ℕ)
    → List PciCapability
    → ℕ
    → List PciWrite
    → Option (Option InterruptGuard × List PciWrite)
map_message table [] gsi pci = some (none, pci)
map_message table (msi c ∷ cs) gsi pci =
    some (some (msi_guard c gsi), set_enabled c true ∷ set_message_info c message_address gsi ∷ pci)
map_message table (msi_x c ∷ cs) gsi pci = write_entry (table c) c gsi pci
map_message table (other_capability ∷ cs) gsi pci = map_message table cs gsi pci

module _ (F : Type 0) (lib : Apic) where
  -- The test of `get_io_apic` on one entry.
  abbrev pub serves : ℕ → Option (IoApicWithInfo lib) → Bool
  serves gsi none = false
  serves gsi (some a) =
      if ltb gsi a.global_system_interrupt_base
      then false
      else leb (gsi - a.global_system_interrupt_base) (lib.max_table_entry a.io_apic)

  -- By its index, which `some` bounds; `none` is the panic.
  unfoldable pub get_io_apic :
      List (Option (IoApicWithInfo lib)) → ℕ → Option (ℕ × IoApicWithInfo lib)
  get_io_apic [] gsi = none
  get_io_apic (none ∷ apics) gsi = elim (get_io_apic apics gsi) [
    | none ↦ none
    | some (i, a) ↦ some (suc i, a)
  ]
  get_io_apic (some a ∷ apics) gsi =
      let rest = get_io_apic apics gsi in
      if serves gsi (some a)
      then some (0, a)
      else elim rest [ none ↦ none | some (i, a') ↦ some (suc i, a') ]

  -- `match itype` on the flags.
  abbrev pub type_flags : InterruptType → lib.Flags → lib.Flags
  type_flags edge_high f = lib.remove (lib.remove f lib.level_triggered) lib.low_active
  type_flags edge_low f = lib.insert (lib.remove f lib.level_triggered) lib.low_active
  type_flags level_high f = lib.remove (lib.insert f lib.level_triggered) lib.low_active
  type_flags level_low f = lib.insert (lib.insert f lib.level_triggered) lib.low_active

  -- The entry of a pin with the flags of an interrupt type.
  abbrev pub typed_entry : lib.IoApic → ℕ → InterruptType → lib.Entry
  typed_entry a pin itype =
      let entry = lib.table_entry a pin in lib.set_flags entry (type_flags itype (lib.flags entry))

  abbrev pub replace : Interrupts F lib → ℕ → IoApicWithInfo lib → lib.IoApic → Interrupts F lib
  replace s i a io_apic = record s {
    io_apics = set s.io_apics i (some (record a { io_apic = io_apic }));
  }

  -- What follows the override in `set_interrupt`.
  unfoldable pub set_pin :
      Interrupts F lib
      → ℕ
      → InterruptType
      → InterruptHandler F
      → Option (InterruptGuard × Interrupts F lib)
  set_pin s gsi itype h = elim (get_io_apic s.io_apics gsi) [
    | none ↦ none
    | some (i, a) ↦
        let pin = gsi - a.global_system_interrupt_base in
        let written = lib.set_table_entry a.io_apic pin (typed_entry a.io_apic pin itype) in
        elim (store F lib s gsi h) [
          | none ↦ none
          | some s' ↦ some (io_apic_guard gsi, replace s' i a (lib.enable_irq written pin))
        ]
  ]

  unfoldable pub set_interrupt :
      List SourceOverride
      → Interrupts F lib
      → ℕ
      → InterruptType
      → InterruptHandler F
      → Option (InterruptGuard × Interrupts F lib)
  unfolding set_pin
  set_interrupt overrides s gsi itype h =
      let (gsi', itype') = apply_override overrides gsi itype in set_pin s gsi' itype' h

  -- `Drop` for a guard.
  unfoldable pub drop : Interrupts F lib → InterruptGuard → Option (Interrupts F lib)
  drop s (io_apic_guard gsi) = elim (get_io_apic s.io_apics gsi) [
    | none ↦ none
    | some (i, a) ↦
        store F lib
          (replace s i a (lib.disable_irq a.io_apic (gsi - a.global_system_interrupt_base))) gsi
          no_handler
  ]
  drop s (msi_guard c gsi) =
      store F lib (record s { pci = set_enabled c false ∷ s.pci }) gsi no_handler
  drop s (msi_x_guard c gsi) =
      store F lib (record s { pci = set_enabled c false ∷ s.pci }) gsi no_handler

  -- The vector that `set_interrupt_msi` chooses; the loop runs up to `LAST_FREE` and including it.
  abbrev pub chosen : Interrupts F lib → ℕ
  chosen s =
      first_free_vector (λ i. is_none (s.handlers i)) s.first_free (last_free + 1 - s.first_free)

  abbrev pub install :
      Interrupts F lib
      → ℕ
      → F
      → Option InterruptGuard × List PciWrite
      → Option (Option InterruptGuard × Interrupts F lib)
  install s gsi f (none, pci) = some (none, record s { pci = pci })
  install s gsi f (some g, pci) =
      elim (store F lib (record s { pci = pci }) (gsi - 32) (dynamic_handler f)) [
        | none ↦ none
        | some s' ↦ some (some g, s')
      ]

  -- A vector below 32 has no handler: its index is out of range, which panics.
  unfoldable pub set_interrupt_msi :
      (ℕ → Option ℕ)
      → List PciCapability
      → Interrupts F lib
      → F
      → Option (Option InterruptGuard × Interrupts F lib)
  set_interrupt_msi table capabilities s f =
      let gsi = chosen s in
      if ltb s.first_free 32
      then none
      else if gsi == 0
      then some (none, s)
      else elim (map_message table capabilities gsi s.pci) [
        | none ↦ none
        | some (guard, pci) ↦ install s gsi f (guard, pci)
      ]
