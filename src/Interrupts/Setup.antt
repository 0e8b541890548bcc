-- ===== src/Interrupts/Setup.antt =====
-- `init_ioapic` (kernel/src/arch/x86_64/interrupts.rs).
use snek_os.Prelude.{
  ℕ, zero, suc, ◌+◌, max, Bool, true, false, ◌&&◌, Option, none, some, List, [], ◌∷◌, set, ltb, leb,
  ◌==◌, if◌then◌else◌, u8,
}
use snek_os.Interrupts.{Apic, IoApicWithInfo, Interrupts, ioapic_start}

-- An entry of `apic_info.io_apics`.
pub record ApicInfo : Type 0 where
  pub address : ℕ
  pub base : ℕ

-- `IO_APICS.len()`
abbrev pub num_io_apics : ℕ
num_io_apics = 32

module _ (F : Type 0) (lib : Apic) where
  -- The order of the sort: by the base, with the empty slots at the end.
  abbrev pub comes_before : Option (IoApicWithInfo lib) → Option (IoApicWithInfo lib) → Bool
  comes_before none none = true
  comes_before (some a) none = true
  comes_before none (some b) = false
  comes_before (some a) (some b) = leb a.global_system_interrupt_base b.global_system_interrupt_base

  unfoldable pub insert_slot :
      Option (IoApicWithInfo lib)
      → List (Option (IoApicWithInfo lib))
      → List (Option (IoApicWithInfo lib))
  insert_slot a [] = a ∷ []
  insert_slot a (b ∷ bs) =
      let rest = insert_slot a bs in if comes_before a b then a ∷ b ∷ bs else b ∷ rest

  -- `sort_unstable_by`
  unfoldable pub sort_slots :
      List (Option (IoApicWithInfo lib)) → List (Option (IoApicWithInfo lib))
  sort_slots [] = []
  sort_slots (a ∷ apics) = insert_slot a (sort_slots apics)

  -- The entry of a pin, masked; pin 2 of the first APIC goes to no processor.
  abbrev pub masked_entry : lib.IoApic → ℕ → ℕ → lib.Entry
  masked_entry io base i =
      let entry = lib.table_entry io i in
      let hidden = lib.set_flags entry (lib.insert (lib.flags entry) lib.masked) in
      if (i == 2) && (base == 0) then lib.set_dest hidden 255 else hidden

  -- The loop over the pins from `i` on, on their number.
  unfoldable pub mask_entries : lib.IoApic → ℕ → ℕ → ℕ → lib.IoApic
  mask_entries io base i zero = io
  mask_entries io base i (suc n) =
      mask_entries (lib.set_table_entry io i (masked_entry io base i)) base (i + 1) n

  module _ (map_address : ℕ → ℕ → ℕ) where
    -- The I/O APIC behind an address, initialised.
    abbrev pub started : ApicInfo → lib.IoApic
    started info =
        lib.init (lib.new (map_address info.address 4096)) (u8 (ioapic_start + u8 info.base))

    -- The vector of the APIC's last pin.
    abbrev pub last_vector : ApicInfo → ℕ
    last_vector info = u8 (ioapic_start + u8 info.base + lib.max_table_entry (started info))

    abbrev pub slot : ApicInfo → IoApicWithInfo lib
    slot info = record {
      io_apic = mask_entries (started info) info.base 0 (lib.max_table_entry (started info));
      global_system_interrupt_base = u8 info.base;
    }

    -- The loop over the APICs from slot `i` on.
    unfoldable pub init_io_apics :
        List ApicInfo
        → ℕ
        → List (Option (IoApicWithInfo lib))
        → ℕ
        → Option (List (Option (IoApicWithInfo lib)) × ℕ)
    init_io_apics [] i slots first_free = some (slots, first_free)
    init_io_apics (info ∷ infos) i slots first_free =
        let rest =
          init_io_apics infos (i + 1) (set slots i (some (slot info)))
            (max first_free (last_vector info)) in
        if ltb i num_io_apics then rest else none

    unfoldable pub init_ioapic : List ApicInfo → Interrupts F lib → Option (Interrupts F lib)
    init_ioapic infos s = elim (init_io_apics infos 0 s.io_apics 0) [
      | none ↦ none
      | some (slots, first_free) ↦
          some (record s { io_apics = sort_slots slots; first_free = first_free })
    ]
