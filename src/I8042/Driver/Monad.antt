-- ===== src/I8042/Driver/Monad.antt =====
-- The state of the driver and the shape of its fallible methods (crates/i8042/src/lib.rs).
use snek_os.Prelude.{ℕ, Option}
use snek_os.I8042.Keyboard.{PcKeyboard}
use snek_os.I8042.Port.{Port}

pub data Error : Type 0 where
  timed_out self_test_failed no_ports : Error

-- The trait `Impl`: each method may change the device.
pub record Impl : Type 1 where
  pub Device : Type 0
  pub write_cmd : Device → ℕ → Device
  pub read_status : Device → ℕ × Device
  pub write_data : Device → ℕ → Device
  pub read_data : Device → ℕ × Device

pub record Driver (pc : PcKeyboard) (hw : Impl) : Type 0 where
  pub device : hw.Device
  pub port1 : Option (Port pc)
  pub port2 : Option (Port pc)

-- `no_fuel` is a loop that has not ended within the rounds given.
pub data Outcome (A : Type 0) : Type 0 where
  ok : A → Outcome A
  err : Error → Outcome A
  no_fuel : Outcome A

-- A method that returns `Result<A, Error>` and changes the driver.
abbrev pub M : PcKeyboard → Impl → Type 0 → Type 0
M pc hw A = Driver pc hw → Outcome A × Driver pc hw

module _ {pc : PcKeyboard} {hw : Impl} where
  abbrev pub pure : {A : Type 0} → A → M pc hw A
  pure a d = (ok a, d)

  abbrev pub throw : {A : Type 0} → Error → M pc hw A
  throw e d = (err e, d)

  abbrev pub and_then :
      {A B : Type 0} → Outcome A → Driver pc hw → (A → M pc hw B) → Outcome B × Driver pc hw
  and_then (ok a) d f = f a d
  and_then (err e) d f = (err e, d)
  and_then no_fuel d f = (no_fuel, d)

  infixl 5 ◌>>=◌ ◌>>◌
  abbrev pub ◌>>=◌ : {A B : Type 0} → M pc hw A → (A → M pc hw B) → M pc hw B
  ◌>>=◌ m f d = let (r, d') = m d in and_then r d' f

  abbrev pub ◌>>◌ : {A B : Type 0} → M pc hw A → M pc hw B → M pc hw B
  m >> k = m >>= λ _. k
