-- ===== src/Interrupts/Tests.antt =====
-- Runs of the interrupt tables with one I/O APIC (kernel/src/arch/x86_64/interrupts.rs).
use snek_os.Prelude.{
  ℕ, bit_or, bit_and, bit_xor, Bool, true, false, none, some, List, [], ◌∷◌, ◌≡◌, ◌⊎◌, refl, arith,
}
use snek_os.Interrupts.{
  no_handler, static_handler, dynamic_handler, handler, Apic, IoApicWithInfo, InterruptType,
  edge_high, SourceOverride, level, active_low, PciCapability, msi, other_capability,
  InterruptGuard, io_apic_guard, msi_x_guard, set_enabled, Interrupts, raised, put,
}
use snek_os.Interrupts.Handlers.{
  get_io_apic, set_interrupt, set_interrupt_msi, drop, apply_override,
}
use snek_os.Interrupts.Msi.{
  has_messages, Installed, AllTaken, set_interrupt_msi-Installed, drop-other_vector,
}
use snek_os.Interrupts.Pins.{Laws, PinSet, set_interrupt-PinSet}
use snek_os.Interrupts.Setup.{
  ApicInfo, init_ioapic, init_io_apics, mask_entries, sort_slots, insert_slot,
}

-- An I/O APIC with 24 pins: its entries, and which pins are on.
abbrev lib : Apic
lib = record {
  IoApic = (ℕ → ℕ) × (ℕ → Bool);
  Entry = ℕ;
  Flags = ℕ;
  level_triggered = 0x8000;
  low_active = 0x2000;
  masked = 0x10000;
  insert = bit_or;
  remove = λ f g. bit_and f (bit_xor 0x1FFFF g);
  new = λ address. ((λ i. 0), (λ i. false));
  init = λ a base. a;
  max_table_entry = λ a. 23;
  table_entry = λ a i. a.0 i;
  set_table_entry = λ a i e. (put a.0 i e, a.1);
  flags = λ e. e;
  set_flags = λ e f. f;
  set_dest = λ e d. e;
  enable_irq = λ a i. (a.0, put a.1 i true);
  disable_irq = λ a i. (a.0, put a.1 i false);
}

laws : Laws lib
laws = record { set_table_entry_max = λ a i e. refl; enable_irq_max = λ a i. refl }

abbrev apic : IoApicWithInfo lib
apic = record { io_apic = ((λ i. 0), (λ i. false)); global_system_interrupt_base = 0 }

-- Closures are named by numbers.
abbrev ready : Interrupts ℕ lib
ready = record {
  handlers = λ i. no_handler;
  io_apics = none ∷ some apic ∷ [];
  first_free = 55;
  pci = [];
}

-- The timer's line is on pin 2.
abbrev overrides : List SourceOverride
overrides =
    record {
      isa_source = 0;
      global_system_interrupt = 2;
      trigger_mode = level;
      polarity = active_low;
    }
    ∷ []

found : get_io_apic ℕ lib ready.io_apics 2 ≡ some (1, apic)
unfolding get_io_apic
found = refl

moved : apply_override overrides 0 edge_high ≡ (2, InterruptType.level_low)
unfolding apply_override
moved = refl

set_interrupt-PinSet_example :
    (s' : Interrupts ℕ lib) × (s'' : Interrupts ℕ lib) × (set_interrupt ℕ lib overrides ready 0
        edge_high
        (static_handler 7)
      ≡ some (io_apic_guard 2, s'))
    × (drop ℕ lib s' (io_apic_guard 2) ≡ some s'')
    × PinSet ℕ lib ready s' s'' 2 (static_handler 7)
set_interrupt-PinSet_example =
    set_interrupt-PinSet ℕ lib laws overrides ready 0 edge_high (static_handler 7) 2 1
      InterruptType.level_low apic moved found (omega arith)

abbrev capabilities : List PciCapability
capabilities = other_capability ∷ msi 4 ∷ []

set_interrupt_msi-Installed_example :
    ((has_messages capabilities ≡ false) ⊎ AllTaken ℕ lib ready)
      × (set_interrupt_msi ℕ lib (λ c. some 0) capabilities ready 9 ≡ some (none, ready))
    ⊎ ((g : InterruptGuard) × (s' : Interrupts ℕ lib) × (set_interrupt_msi ℕ lib
            (λ c. some 0)
            capabilities
            ready
            9
          ≡ some (some g, s'))
        × (has_messages capabilities ≡ true)
        × Installed ℕ lib (λ c. some 0) capabilities ready s' 9 g)
set_interrupt_msi-Installed_example =
    set_interrupt_msi-Installed ℕ lib (λ c. some 0) capabilities ready 9 (λ c. (0, refl))
      (omega arith)

-- A message at vector 55 is in use.
abbrev in_use : Interrupts ℕ lib
in_use = record ready { handlers = put ready.handlers 23 (dynamic_handler 9) }

drop-other_vector_example :
    (s' : Interrupts ℕ lib) × (drop ℕ lib in_use (msi_x_guard 4 55) ≡ some s')
    × ((c : ℕ) × (some 4 ≡ some c) × (s'.pci ≡ set_enabled c false ∷ in_use.pci))
    × (raised ℕ lib s' 55 ≡ raised ℕ lib in_use 55)
    × (raised ℕ lib s' 87 ≡ (handler 55, no_handler))
drop-other_vector_example =
    drop-other_vector ℕ lib in_use (msi_x_guard 4 55) 55 refl (omega arith) (omega arith)

abbrev infos : List ApicInfo
infos = record { address = 0xFEC0_0000; base = 0 } ∷ []

abbrev map_address : ℕ → ℕ → ℕ
map_address address size = 0xFFFF_8000_0000_0000

abbrev empty : Interrupts ℕ lib
empty = record ready { io_apics = none ∷ none ∷ [] }

abbrev started : Interrupts ℕ lib
started = record empty {
  io_apics =
      some (record {
        io_apic = mask_entries ℕ lib ((λ i. 0), (λ i. false)) 0 0 23;
        global_system_interrupt_base = 0;
      })
      ∷ none
      ∷ [];
  first_free = 55;
}

started-init : init_ioapic ℕ lib map_address infos empty ≡ some started
unfolding init_ioapic init_io_apics sort_slots insert_slot
started-init = refl
