-- ===== src/Interrupts.antt =====
-- kernel/src/arch/x86_64/interrupts.rs: the table of interrupt handlers, the vectors behind it, the I/O
-- APICs, and the guards that clients hold. A `u8` is a number below 256; a panic is `none`.
pub mod Handlers
pub mod Setup
pub mod Ready
pub mod Vectors
pub mod Msi
pub mod Pins
mod Tests
use snek_os.Prelude.{
  ℕ, zero, suc, ◌+◌, ◌-◌, ◌*◌, ◌^◌, max, Bool, true, false, not, ◌&&◌, ◌||◌, Option, none, some,
  List, [], ◌∷◌, ◌++◌, leb, ltb, ◌==◌, if◌then◌else◌, u8,
}

abbrev pub ioapic_start : ℕ
ioapic_start = 32

abbrev pub num_vectors : ℕ
num_vectors = 256

abbrev pub local_apic_tlb_flush : ℕ
local_apic_tlb_flush = num_vectors - 4

abbrev pub local_apic_error : ℕ
local_apic_error = num_vectors - 3

abbrev pub local_apic_timer : ℕ
local_apic_timer = num_vectors - 2

abbrev pub local_apic_spurious : ℕ
local_apic_spurious = num_vectors - 1

abbrev pub last_free : ℕ
last_free = local_apic_tlb_flush - 1

-- `INTERRUPT_HANDLERS.len()`
abbrev pub num_handlers : ℕ
num_handlers = 224

-- `F` is the type of the closures.
pub data InterruptHandler (F : Type 0) : Type 0 where
  no_handler : InterruptHandler F
  static_handler dynamic_handler : F → InterruptHandler F

-- What stands behind a vector of the descriptor table; `handler` is one of the functions of the macro
-- `handler!`, by its index into the table of handlers.
pub data Gate : Type 0 where
  missing non_maskable breakpoint double_fault page_fault invalid_tss segment_not_present : Gate
  general_protection_fault alignment_check tlb_flush error apic_timer spurious : Gate
  handler : ℕ → Gate

-- The gates of the exceptions, by their vectors.
abbrev pub exception_gate : ℕ → Gate
exception_gate v =
    if v == 2
    then non_maskable
    else if v == 3
    then breakpoint
    else if v == 8
    then double_fault
    else if v == 14
    then page_fault
    else if v == 10
    then invalid_tss
    else if v == 11
    then segment_not_present
    else if v == 13
    then general_protection_fault
    else if v == 17
    then alignment_check
    else missing

-- `IDT`: what is assigned later stands over what was assigned before.
unfoldable pub idt : ℕ → Gate
idt v =
    if v == local_apic_tlb_flush
    then tlb_flush
    else if v == local_apic_error
    then error
    else if v == local_apic_timer
    then apic_timer
    else if v == local_apic_spurious
    then spurious
    else if leb 32 v && ltb v num_vectors
    then handler (v - 32)
    else exception_gate v

-- The crate `x2apic`: an I/O APIC with its redirection entries.
pub record Apic : Type 1 where
  pub IoApic : Type 0
  pub Entry : Type 0
  pub Flags : Type 0
  pub level_triggered : Flags
  pub low_active : Flags
  pub masked : Flags
  pub insert : Flags → Flags → Flags
  pub remove : Flags → Flags → Flags
  pub new : ℕ → IoApic
  pub init : IoApic → ℕ → IoApic
  pub max_table_entry : IoApic → ℕ
  pub table_entry : IoApic → ℕ → Entry
  pub set_table_entry : IoApic → ℕ → Entry → IoApic
  pub flags : Entry → Flags
  pub set_flags : Entry → Flags → Entry
  pub set_dest : Entry → ℕ → Entry
  pub enable_irq : IoApic → ℕ → IoApic
  pub disable_irq : IoApic → ℕ → IoApic

pub record IoApicWithInfo (lib : Apic) : Type 0 where
  pub io_apic : lib.IoApic
  pub global_system_interrupt_base : ℕ

pub data InterruptType : Type 0 where
  edge_high edge_low level_high level_low : InterruptType

-- `TriggerMode` and `Polarity` of the crate `acpi`.
pub data TriggerMode : Type 0 where
  edge level same_as_bus_trigger : TriggerMode

pub data Polarity : Type 0 where
  active_high active_low same_as_bus_polarity : Polarity

pub record SourceOverride : Type 0 where
  pub isa_source : ℕ
  pub global_system_interrupt : ℕ
  pub trigger_mode : TriggerMode
  pub polarity : Polarity

-- A `PciCapability`, by its number in the device's list where it is one for messages.
pub data PciCapability : Type 0 where
  msi msi_x : ℕ → PciCapability
  other_capability : PciCapability

pub data InterruptGuard : Type 0 where
  io_apic_guard : ℕ → InterruptGuard
  msi_guard msi_x_guard : ℕ → ℕ → InterruptGuard

-- What is written to a PCI device: a message's address and data, whether messages are enabled, and the
-- four words of the first entry of a table of messages.
pub data PciWrite : Type 0 where
  set_message_info : ℕ → ℕ → ℕ → PciWrite
  set_enabled : ℕ → Bool → PciWrite
  write_table : ℕ → ℕ → ℕ → ℕ → ℕ → PciWrite

-- `INTERRUPT_HANDLERS`, `IO_APICS` and `FIRST_FREE`, and the writes to PCI devices, the last one first.
pub record Interrupts (F : Type 0) (lib : Apic) : Type 0 where
  pub handlers : ℕ → InterruptHandler F
  pub io_apics : List (Option (IoApicWithInfo lib))
  pub first_free : ℕ
  pub pci : List PciWrite

abbrev pub put {ℓ} : {A : Type ℓ} → (ℕ → A) → ℕ → A → ℕ → A
put f i a j = if j == i then a else f j

module _ (F : Type 0) (lib : Apic) where
  -- What runs when the vector is raised: the handler behind a general gate.
  unfoldable pub raised : Interrupts F lib → ℕ → Gate × InterruptHandler F
  raised s v = elim (idt v) [ handler i ↦ (handler i, s.handlers i) | g ↦ (g, no_handler) ]

  -- `INTERRUPT_HANDLERS[i] = h`; past the end it panics.
  abbrev pub store : Interrupts F lib → ℕ → InterruptHandler F → Option (Interrupts F lib)
  store s i h =
      if ltb i num_handlers then some (record s { handlers = put s.handlers i h }) else none
