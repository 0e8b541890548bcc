-- ===== src/I8042/Driver.antt =====
-- crates/i8042/src/lib.rs, `Driver8042`: the controller itself. The hardware is the trait `Impl`.
mod Monad
pub mod Wait
pub mod Total
pub mod Keeps
pub mod Setup
pub mod Interrupt
unfoldable pub use Monad.*
use snek_os.Prelude.{
  ℕ, zero, suc, ◌+◌, ◌*◌, bit_and, bit_or, Bool, true, false, not, ◌&&◌, ◌-◌, Option, none, some,
  ◌==◌, if◌then◌else◌, has,
}
use snek_os.I8042.Keyboard.{PcKeyboard}
use snek_os.I8042.Port
use snek_os.I8042.Port.{Port, Change}

-- `MAX_SPINS` of `wait_out` and of `wait_in`.
abbrev pub max_spins_out : ℕ
max_spins_out = 1000

abbrev pub max_spins_in : ℕ
max_spins_in = 100 * 1000

pub data Irq : Type 0 where
  irq1 irq12 : Irq

abbrev pub mask : Irq → ℕ
mask irq1 = 0x01
mask irq12 = 0x20

-- The byte of a port's answer goes to the second port behind the prefix 0xD4.
abbrev pub reply : (hw : Impl) → Irq → Option ℕ → hw.Device → hw.Device
reply hw irq none s = s
reply hw irq1 (some b) s = hw.write_data s b
reply hw irq12 (some b) s = hw.write_data (hw.write_cmd s 0xD4) b

module _ {pc : PcKeyboard} {hw : Impl} where
  abbrev pub new : hw.Device → Driver pc hw
  new device = record { device = device; port1 = none; port2 = none }

  -- The methods of `Impl` on the driver's device.
  abbrev pub device_write_cmd : ℕ → M pc hw (Unit {0})
  device_write_cmd cmd d = (ok tt, record d { device = hw.write_cmd d.device cmd })

  abbrev pub device_write_data : ℕ → M pc hw (Unit {0})
  device_write_data b d = (ok tt, record d { device = hw.write_data d.device b })

  abbrev pub device_read_data : M pc hw ℕ
  device_read_data d =
      let (b, device') = hw.read_data d.device in (ok b, record d { device = device' })

  abbrev pub device_read_status : M pc hw ℕ
  device_read_status d =
      let (s, device') = hw.read_status d.device in (ok s, record d { device = device' })

  unfoldable pub poll_out : M pc hw Bool
  poll_out = do s ← device_read_status; pure (bit_and s 2 == 0)

  unfoldable pub poll_in : M pc hw Bool
  poll_in = do s ← device_read_status; pure (has s 1)

  -- `while !poll() { spin_count += 1; if spin_count == max { return Err(TimedOut) } }`, on the rounds
  -- left, which `max - spin_count` bounds.
  unfoldable pub spin : M pc hw Bool → ℕ → ℕ → ℕ → M pc hw (Unit {0})
  spin poll max zero spin_count d = (no_fuel, d)
  spin poll max (suc fuel) spin_count d =
      let (ready, d') = poll d in
      let rest = spin poll max fuel (spin_count + 1) d' in
      elim ready [
        | ok true ↦ (ok tt, d')
        | ok false ↦ if spin_count + 1 == max then (err timed_out, d') else rest
        | err e ↦ (err e, d')
        | no_fuel ↦ (no_fuel, d')
      ]

  unfoldable pub wait_out : M pc hw (Unit {0})
  wait_out = spin poll_out max_spins_out max_spins_out 0

  unfoldable pub wait_in : M pc hw (Unit {0})
  wait_in = spin poll_in max_spins_in max_spins_in 0

  unfoldable pub write_cmd : ℕ → M pc hw (Unit {0})
  write_cmd cmd = do wait_out; device_write_cmd cmd

  unfoldable pub write_data : ℕ → M pc hw (Unit {0})
  write_data b = do wait_out; device_write_data b

  unfoldable pub read_data : M pc hw ℕ
  read_data = do wait_in; device_read_data

  -- `while self.poll_in() { self.r#impl.read_data(); }`
  unfoldable pub flush : ℕ → M pc hw (Unit {0})
  flush zero d = (no_fuel, d)
  flush (suc fuel) d =
      let (ready, d') = poll_in d in
      let rest = (device_read_data >> flush fuel) d' in
      elim ready [
        | ok true ↦ rest
        | ok false ↦ (ok tt, d')
        | err e ↦ (err e, d')
        | no_fuel ↦ (no_fuel, d')
      ]

  -- The steps of `init`, in its order. Each is written where the source stands inline.

  -- Clears the interrupt and translation bits of the configuration, and tells whether bit 5 is set.
  unfoldable pub set_config : M pc hw Bool
  set_config = do
    write_cmd 0x20
    config ← read_data
    let config' = bit_and config (255 - (1 + 2 + 64))
    let can_have_second_port = has config' 32
    write_cmd 0x60
    write_data config'
    pure can_have_second_port

  -- `match self.read_data() { Ok(0x55) => {} _ => return Err(SelfTestFailed) }`
  abbrev pub expect_0x55 : Outcome ℕ → M pc hw (Unit {0})
  expect_0x55 (ok b) d = if b == 0x55 then (ok tt, d) else (err self_test_failed, d)
  expect_0x55 (err e) d = (err self_test_failed, d)
  expect_0x55 no_fuel d = (no_fuel, d)

  unfoldable pub checked : M pc hw ℕ → M pc hw (Unit {0})
  checked m d = let (r, d') = m d in expect_0x55 r d'

  unfoldable pub self_test : M pc hw (Unit {0})
  self_test = do write_cmd 0xAA; checked read_data

  unfoldable pub probe_second_port : Bool → M pc hw Bool
  probe_second_port false = pure false
  probe_second_port true = do
    write_cmd 0xA8
    write_cmd 0x20
    config ← read_data
    write_cmd 0xA7
    pure (bit_and config 32 == 0)

  unfoldable pub test_port : ℕ → M pc hw Bool
  test_port cmd = do write_cmd cmd; b ← read_data; pure (b == 0x00)

  unfoldable pub test_second_port : Bool → M pc hw Bool
  test_second_port false = pure false
  test_second_port true = test_port 0xA9

  unfoldable pub enable_interrupts : Bool → Bool → M pc hw (Unit {0})
  enable_interrupts port1_works port2_works = do
    write_cmd 0x20
    config ← read_data
    let config1 = if port1_works then bit_or config 1 else config
    let config2 = if port2_works then bit_or config1 2 else config1
    write_cmd 0x60
    write_data config2

  abbrev pub set_port1 : M pc hw (Unit {0})
  set_port1 d = (ok tt, record d { port1 = some Port.new })

  abbrev pub set_port2 : M pc hw (Unit {0})
  set_port2 d = (ok tt, record d { port2 = some Port.new })

  unfoldable pub start_port1 : Bool → M pc hw (Unit {0})
  start_port1 false = pure tt
  start_port1 true = do set_port1; write_cmd 0xAE; write_data 0xFF

  unfoldable pub start_port2 : Bool → M pc hw (Unit {0})
  start_port2 false = pure tt
  start_port2 true = do set_port2; write_cmd 0xA8; write_cmd 0xD4; write_data 0xFF

  -- `if test { return Err(e); }`
  unfoldable pub fail_if : Bool → Error → M pc hw (Unit {0})
  fail_if true e = throw e
  fail_if false e = pure tt

  unfoldable pub init : ℕ → M pc hw (Unit {0})
  init fuel = do
    write_cmd 0xAD
    write_cmd 0xA7
    flush fuel
    can_have_second_port ← set_config
    self_test
    has_second_port ← probe_second_port can_have_second_port
    flush fuel
    port1_works ← test_port 0xAB
    port2_works ← test_second_port has_second_port
    fail_if (not port1_works && not port2_works) no_ports
    enable_interrupts port1_works port2_works
    start_port1 port1_works
    start_port2 port2_works

  -- `&mut self.port1` or `&mut self.port2`.
  abbrev pub port : Irq → Driver pc hw → Option (Port pc)
  port irq1 d = d.port1
  port irq12 d = d.port2

  abbrev pub store_port : Irq → Port pc → Driver pc hw → Driver pc hw
  store_port irq1 p d = record d { port1 = some p }
  store_port irq12 p d = record d { port2 = some p }

  -- `if let Some(port) = port { … }`
  unfoldable pub deliver :
      Irq → Option (Port pc) → ℕ → Driver pc hw → Option (Change pc) × Driver pc hw
  deliver irq none b d = (none, d)
  deliver irq (some p) b d =
      let (p', answer, c) = Port.handle_data p b in
      let d' = store_port irq p' d in (c, record d' { device = reply hw irq answer d'.device })

  unfoldable pub interrupt : Irq → Driver pc hw → Option (Change pc) × Driver pc hw
  unfolding deliver
  interrupt irq d =
      let (status, s) = hw.read_status d.device in
      let (b, s') = hw.read_data s in
      if bit_and status (mask irq) == 0
      then (none, record d { device = s })
      else deliver irq (port irq d) b (record d { device = s' })
