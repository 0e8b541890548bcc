-- ===== src/Pci/Tests.antt =====
-- A scan of a bus with a bridge, and a device behind it (kernel/src/arch/x86_64/pci.rs).
use snek_os.Prelude.{
  ℕ, ◌+◌, false, ◌||◌, Option, none, some, [], ◌∷◌, if◌then◌else◌, inl, ◌≡◌, ◌≢◌, refl, arith,
}
use snek_os.Pci.{
  Address, same, endpoint, pci_pci_bridge, Config, for_each, Devices, scan_function, scan_device,
  scan_bus, scan_segment, scan_segments, resolve,
}
use snek_os.Pci.Scan.{IsEndpoint}
use snek_os.Pci.Reached.{first, Reached, here, behind}
use snek_os.Pci.Complete.{Lists, resolve-Lists}
use snek_os.Pci.Ends.{IsNumbered, resolve-ends}

abbrev bridge : Address
bridge = record { segment = 0; bus = 0; device = 1; function = 0 }

abbrev card : Address
card = record { segment = 0; bus = 1; device = 0; function = 0 }

abbrev cfg : Config
cfg = record {
  Bar = ℕ;
  Capability = ℕ;
  is_memory64 = λ b. false;
  physical_address = λ a. if same a bridge || same a card then some 0xE000_0000 else none;
  segments = 0 ∷ [];
  has_multiple_functions = λ a. false;
  id = λ a. (0x8086, 0x100E);
  revision_and_class = λ a. (0, 2, 0, 0);
  header_type = λ a. if same a bridge then pci_pci_bridge else endpoint;
  subsystem = λ a. (0, 0);
  bar = λ a i. none;
  interrupt = λ a. (1, 11);
  capabilities = λ a. [];
  secondary_bus_number = λ a. a.bus + 1;
  subordinate_bus_number = λ a. 1;
}

abbrev or_nothing : Option (Devices cfg) → Devices cfg
or_nothing none a = none
or_nothing (some d) a = d a

abbrev found : Devices cfg
found = or_nothing (resolve cfg 3)

found-resolve : resolve cfg 3 ≡ some found
unfolding resolve scan_segments scan_segment scan_bus scan_device scan_function for_each
found-resolve = refl

card-IsEndpoint : IsEndpoint cfg card
card-IsEndpoint = record { there = refl; known = refl; kind = refl }

card-Reached : Reached cfg 0 0 card
card-Reached =
    behind bridge (first 1 (omega arith) refl)
      (record { there = refl; known = refl; kind = refl; low = omega arith; high = omega arith })
      (here (first 0 (omega arith) refl))

resolve-Lists_example : Lists cfg card found
resolve-Lists_example =
    resolve-Lists cfg 0 3 0 card found (inl refl) (inl refl) card-Reached card-IsEndpoint
      found-resolve

numbered : IsNumbered cfg
numbered = record { ascends = λ a kind. omega arith; is_byte = λ a. omega arith }

resolve-ends_example : resolve cfg 256 ≢ none
resolve-ends_example = resolve-ends cfg numbered
