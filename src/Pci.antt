-- ===== src/Pci.antt =====
-- kernel/src/arch/x86_64/pci.rs, `Resolver`: the scan of the PCI buses. The configuration space does not
-- change during the scan, so that what a header answers is a function of its address.
pub mod Loops
pub mod Scan
pub mod Reached
pub mod Complete
pub mod Ends
mod Tests
use snek_os.Prelude.{
  ℕ, zero, suc, ◌+◌, ◌-◌, Bool, true, false, not, ◌&&◌, ◌||◌, Option, none, some, List, [], ◌∷◌,
  set, ◌==◌, if◌then◌else◌,
}

-- `PciAddress`
pub record Address : Type 0 where
  pub segment : ℕ
  pub bus : ℕ
  pub device : ℕ
  pub function : ℕ

abbrev pub same : Address → Address → Bool
same a b =
    (a.segment == b.segment)
    && (a.bus == b.bus)
    && (a.device == b.device)
    && (a.function == b.function)

pub data HeaderType : Type 0 where
  endpoint pci_pci_bridge other_type : HeaderType

-- The crates `acpi` and `pci_types`: the regions of the configuration space, and what the header at an
-- address answers.
pub record Config : Type 1 where
  pub Bar : Type 0
  pub Capability : Type 0
  pub is_memory64 : Option Bar → Bool
  pub physical_address : Address → Option ℕ
  pub segments : List ℕ
  pub has_multiple_functions : Address → Bool
  pub id : Address → ℕ × ℕ
  pub revision_and_class : Address → ℕ × ℕ × ℕ × ℕ
  pub header_type : Address → HeaderType
  pub subsystem : Address → ℕ × ℕ
  pub bar : Address → ℕ → Option Bar
  pub interrupt : Address → ℕ × ℕ
  pub capabilities : Address → List Capability
  pub secondary_bus_number : Address → ℕ
  pub subordinate_bus_number : Address → ℕ

-- `PciDevice`, without the offset, which is the same in all.
pub record PciDevice (cfg : Config) : Type 0 where
  pub configuration_address : Option ℕ
  pub address : Address
  pub revision_class : ℕ × ℕ × ℕ × ℕ
  pub ids : ℕ × ℕ
  pub sub_ids : ℕ × ℕ
  pub bars : List (Option cfg.Bar)
  pub interrupt : ℕ × ℕ
  pub capabilities : List cfg.Capability

abbrev pub is_some {ℓ} : {A : Type ℓ} → Option A → Bool
is_some none = false
is_some (some a) = true

-- A loop over `n` numbers from `i` on; `none` is a body that has not ended.
unfoldable pub for_each {ℓ} : {A : Type ℓ} → (ℕ → A → Option A) → ℕ → ℕ → A → Option A
for_each body i zero a = some a
for_each body i (suc n) a = elim (body i a) [ none ↦ none | some a' ↦ for_each body (i + 1) n a' ]

module _ (cfg : Config) where
  -- The devices found, by their addresses.
  abbrev pub Devices : Type 0
  Devices = Address → Option (PciDevice cfg)

  abbrev pub insert : Devices → Address → PciDevice cfg → Devices
  insert devices a d b = if same b a then some d else devices b

  abbrev pub function_exists : Address → Bool
  function_exists a = is_some (cfg.physical_address a)

  -- The loop over the base addresses: the one behind a 64-bit one is skipped.
  unfoldable pub bars_from : Address → ℕ → ℕ → Bool → List (Option cfg.Bar)
  bars_from a i zero skip_next = []
  bars_from a i (suc n) true = none ∷ bars_from a (i + 1) n false
  bars_from a i (suc n) false = cfg.bar a i ∷ bars_from a (i + 1) n (cfg.is_memory64 (cfg.bar a i))

  -- The device that is inserted for an endpoint.
  unfoldable pub describe : Address → PciDevice cfg
  describe a = record {
    configuration_address = cfg.physical_address a;
    address = a;
    revision_class = cfg.revision_and_class a;
    ids = cfg.id a;
    sub_ids = cfg.subsystem a;
    bars = bars_from a 0 6 false;
    interrupt = cfg.interrupt a;
    capabilities = cfg.capabilities a;
  }

  abbrev pub no_device : ℕ × ℕ → Bool
  no_device ids = (ids.0 == 0xffff) || (ids.1 == 0xffff)

  -- `match header.header_type()`, with the scan of a bus.
  abbrev pub scan_header :
      (ℕ → Devices → Option Devices) → Address → HeaderType → Devices → Option Devices
  scan_header scan a endpoint devices = some (insert devices a (describe a))
  scan_header scan a pci_pci_bridge devices =
      let start = cfg.secondary_bus_number a in
      for_each scan start (cfg.subordinate_bus_number a + 1 - start) devices
  scan_header scan a other_type devices = some devices

  unfoldable pub scan_function : (ℕ → Devices → Option Devices) → Address → Devices → Option Devices
  unfolding describe
  scan_function scan a devices =
      if function_exists a
      then (if no_device (cfg.id a)
          then some devices
          else scan_header scan a (cfg.header_type a) devices)
      else some devices

  abbrev pub at : ℕ → ℕ → ℕ → ℕ → Address
  at segment bus device function = record {
    segment = segment;
    bus = bus;
    device = device;
    function = function;
  }

  -- The functions of a device from 1 on.
  abbrev pub scan_others : (ℕ → Devices → Option Devices) → ℕ → ℕ → ℕ → Devices → Option Devices
  scan_others scan segment bus device devices =
      if cfg.has_multiple_functions (at segment bus device 0)
      then for_each (λ f. scan_function scan (at segment bus device f)) 1 7 devices
      else some devices

  unfoldable pub scan_device : (ℕ → Devices → Option Devices) → ℕ → ℕ → ℕ → Devices → Option Devices
  unfolding scan_function
  scan_device scan segment bus device devices =
      if function_exists (at segment bus device 0)
      then elim (scan_function scan (at segment bus device 0) devices) [
        | none ↦ none
        | some devices' ↦ scan_others scan segment bus device devices'
      ]
      else some devices

  -- On the depth of bridges behind each other; `none` is a scan that has not ended.
  unfoldable pub scan_bus : ℕ → ℕ → ℕ → Devices → Option Devices
  scan_bus zero segment bus devices = none
  scan_bus (suc depth) segment bus devices =
      for_each (scan_device (scan_bus depth segment) segment bus) 0 32 devices

  unfoldable pub scan_segment : ℕ → ℕ → Devices → Option Devices
  scan_segment depth segment devices =
      if function_exists (at segment 0 0 0) && cfg.has_multiple_functions (at segment 0 0 0)
      then for_each (scan_bus depth segment) 0 8 devices
      else scan_bus depth segment 0 devices

  unfoldable pub scan_segments : ℕ → List ℕ → Devices → Option Devices
  scan_segments depth [] devices = some devices
  scan_segments depth (s ∷ ss) devices = elim (scan_segment depth s devices) [
    | none ↦ none
    | some devices' ↦ scan_segments depth ss devices'
  ]

  unfoldable pub resolve : ℕ → Option Devices
  resolve depth = scan_segments depth cfg.segments (λ a. none)
