-- ===== src/E1000/Monad.antt =====
-- What the driver of the network card (kernel/src/drivers/e1000.rs) stands on, and the shape of its
-- methods: they change the card, the heap and the set of tasks to run, and can fail.
use snek_os.Prelude.{ℕ, List, Option}

pub data Error : Type 0 where
  unknown_bar no_eeprom route_gsi : Error

-- `pci_types::Bar`
pub data Bar : Type 0 where
  memory32 memory64 io : ℕ → Bar

-- The card's registers by their offsets, the addresses that the heap gives out, `translate_virt_addr`,
-- and the offset at which all of physical memory is mapped.
pub record Hw : Type 1 where
  pub Card : Type 0
  pub read : Card → ℕ → ℕ × Card
  pub write : Card → ℕ → ℕ → Card
  pub fresh : List ℕ → List ℕ → ℕ
  pub translate_virt_addr : ℕ → Option ℕ
  pub phys_offset : ℕ

-- The heap is what was allocated and what was freed. `memory` gives what stands from a physical address
-- on. `woken` lists the tasks that were woken, the last one first; `command` is
-- the command register of the device on the PCI bus.
pub record World (hw : Hw) : Type 0 where
  pub card : hw.Card
  pub allocated : List ℕ
  pub freed : List ℕ
  pub memory : ℕ → List ℕ
  pub woken : List ℕ
  pub command : ℕ

-- `panic` is a failed `assert!`, `unwrap` or index; `no_fuel` is a loop that has not ended within the
-- rounds given.
pub data Outcome (A : Type 0) : Type 0 where
  ok : A → Outcome A
  err : Error → Outcome A
  panic : Outcome A
  no_fuel : Outcome A

abbrev pub M : Hw → Type 0 → Type 0
M hw A = World hw → Outcome A × World hw

module _ {hw : Hw} where
  abbrev pub pure : {A : Type 0} → A → M hw A
  pure a w = (ok a, w)

  abbrev pub throw : {A : Type 0} → Error → M hw A
  throw e w = (err e, w)

  abbrev pub and_then : {A B : Type 0} → Outcome A → World hw → (A → M hw B) → Outcome B × World hw
  and_then (ok a) w f = f a w
  and_then (err e) w f = (err e, w)
  and_then panic w f = (panic, w)
  and_then no_fuel w f = (no_fuel, w)

  infixl 5 ◌>>=◌ ◌>>◌
  abbrev pub ◌>>=◌ : {A B : Type 0} → M hw A → (A → M hw B) → M hw B
  ◌>>=◌ m f w = let (r, w') = m w in and_then r w' f

  abbrev pub ◌>>◌ : {A B : Type 0} → M hw A → M hw B → M hw B
  m >> k = m >>= λ _. k

  -- `.unwrap()`, and an index that is tested
  abbrev pub unwrap : {A : Type 0} → Option A → M hw A
  unwrap o w = elim o [ Option.none ↦ (panic, w) | Option.some a ↦ (ok a, w) ]
