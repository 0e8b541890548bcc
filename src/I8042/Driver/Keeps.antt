-- ===== src/I8042/Driver/Keeps.antt =====
-- What `Driver8042::init` leaves in the ports (crates/i8042/src/lib.rs).
use snek_os.Prelude.{
  ℕ, zero, suc, ◌+◌, ◌-◌, bit_and, Bool, true, false, some, ◌≡◌, refl, ◌∙◌, arith,
}
use snek_os.I8042.Keyboard.{PcKeyboard}
use snek_os.I8042.Port
use snek_os.I8042.Port.{Port}
use snek_os.I8042.Driver.{
  Impl, Driver, Outcome, ok, err, no_fuel, M, and_then, ◌>>=◌, ◌>>◌, poll_out, poll_in, spin,
  wait_out, wait_in, flush, max_spins_out, max_spins_in, write_cmd, write_data, read_data,
  set_config, self_test, checked, probe_second_port, test_port, test_second_port, enable_interrupts,
  start_port1, start_port2, set_port1, set_port2, device_read_data, device_write_cmd,
  device_write_data,
}

module _ {pc : PcKeyboard} {hw : Impl} where
  -- The ports of the second driver are those of the first.
  abbrev pub Same : Driver pc hw → Driver pc hw → Type 0
  Same d d' = (d'.port1 ≡ d.port1) × (d'.port2 ≡ d.port2)

  abbrev pub Keeps : {A : Type 0} → M pc hw A → Type 0
  Keeps m = (d : Driver pc hw) → Same d (m d).1

  pub Same-trans : (a b c : Driver pc hw) → Same a b → Same b c → Same a c
  Same-trans a b c p q = (q.0 ∙ p.0, q.1 ∙ p.1)

  Keeps->>= :
      {A B : Type 0} (m : M pc hw A) (f : A → M pc hw B)
      → Keeps m
      → ((a : A) → Keeps (f a))
      → Keeps (m >>= f)
  Keeps->>= {A} {B} m f km kf d = go (m d).0 (m d).1 (km d)
    where
      go : (r : Outcome A) (d' : Driver pc hw) → Same d d' → Same d (and_then r d' f).1
      go (ok a) d' s = Same-trans d d' (f a d').1 s (kf a d')
      go (err e) d' s = s
      go no_fuel d' s = s

  Keeps-spin :
      (poll : M pc hw Bool) (max fuel count : ℕ) → Keeps poll → Keeps (spin poll max fuel count)
  unfolding spin
  Keeps-spin poll max zero count kp d = (refl, refl)
  Keeps-spin poll max (suc fuel) count kp d =
      ground (arith, kp d, Keeps-spin poll max fuel (count + 1) kp (poll d).1)

  Keeps-wait_out : Keeps wait_out
  unfolding wait_out poll_out
  Keeps-wait_out = Keeps-spin poll_out max_spins_out max_spins_out 0 (λ d. (refl, refl))

  Keeps-wait_in : Keeps wait_in
  unfolding wait_in poll_in
  Keeps-wait_in = Keeps-spin poll_in max_spins_in max_spins_in 0 (λ d. (refl, refl))

  pub Keeps-write_cmd : (cmd : ℕ) → Keeps (write_cmd cmd)
  unfolding write_cmd
  Keeps-write_cmd cmd =
      Keeps->>= wait_out (λ _. device_write_cmd cmd) Keeps-wait_out (λ _ d. (refl, refl))

  Keeps-write_data : (b : ℕ) → Keeps (write_data b)
  unfolding write_data
  Keeps-write_data b =
      Keeps->>= wait_out (λ _. device_write_data b) Keeps-wait_out (λ _ d. (refl, refl))

  Keeps-read_data : Keeps read_data
  unfolding read_data
  Keeps-read_data = Keeps->>= wait_in (λ _. device_read_data) Keeps-wait_in (λ _ d. (refl, refl))

  pub Keeps-flush : (fuel : ℕ) → Keeps (flush fuel)
  unfolding flush poll_in
  Keeps-flush zero d = (refl, refl)
  Keeps-flush (suc fuel) d =
      ground (
        arith,
        Keeps-flush fuel (record d { device = (hw.read_data (hw.read_status d.device).1).1 }),
      )

  pub Keeps-set_config : Keeps set_config
  unfolding set_config
  Keeps-set_config = Keeps->>= (write_cmd 0x20) _ (Keeps-write_cmd 0x20) λ _.
      Keeps->>= read_data _ Keeps-read_data λ config.
        Keeps->>= (write_cmd 0x60) _ (Keeps-write_cmd 0x60) λ _.
          Keeps->>= (write_data (bit_and config (255 - (1 + 2 + 64)))) _ (Keeps-write_data _)
            λ _ d. (refl, refl)

  Keeps-checked : (m : M pc hw ℕ) → Keeps m → Keeps (checked m)
  unfolding checked
  Keeps-checked m km d = ground (arith, km d)

  pub Keeps-self_test : Keeps self_test
  unfolding self_test
  Keeps-self_test =
      Keeps->>= (write_cmd 0xAA) _ (Keeps-write_cmd 0xAA)
        λ _. Keeps-checked read_data Keeps-read_data

  pub Keeps-probe_second_port : (can : Bool) → Keeps (probe_second_port can)
  unfolding probe_second_port
  Keeps-probe_second_port false = λ d. (refl, refl)
  Keeps-probe_second_port true = Keeps->>= (write_cmd 0xA8) _ (Keeps-write_cmd 0xA8) λ _.
      Keeps->>= (write_cmd 0x20) _ (Keeps-write_cmd 0x20) λ _.
        Keeps->>= read_data _ Keeps-read_data
          λ config. Keeps->>= (write_cmd 0xA7) _ (Keeps-write_cmd 0xA7) λ _ d. (refl, refl)

  pub Keeps-test_port : (cmd : ℕ) → Keeps (test_port cmd)
  unfolding test_port
  Keeps-test_port cmd =
      Keeps->>= (write_cmd cmd) _ (Keeps-write_cmd cmd)
        λ _. Keeps->>= read_data _ Keeps-read_data λ b d. (refl, refl)

  pub Keeps-test_second_port : (has_second : Bool) → Keeps (test_second_port has_second)
  unfolding test_second_port
  Keeps-test_second_port false = λ d. (refl, refl)
  Keeps-test_second_port true = Keeps-test_port 0xA9

  pub Keeps-enable_interrupts : (p1 p2 : Bool) → Keeps (enable_interrupts p1 p2)
  unfolding enable_interrupts
  Keeps-enable_interrupts p1 p2 = Keeps->>= (write_cmd 0x20) _ (Keeps-write_cmd 0x20) λ _.
      Keeps->>= read_data _ Keeps-read_data
        λ config. Keeps->>= (write_cmd 0x60) _ (Keeps-write_cmd 0x60) λ _. Keeps-write_data _

  Keeps-command : (cmd b : ℕ) → Keeps (write_cmd cmd >> write_data b)
  Keeps-command cmd b =
      Keeps->>= (write_cmd cmd) (λ _. write_data b) (Keeps-write_cmd cmd) λ _. Keeps-write_data b

  -- Port 1 after its start, and port 2 after its own.
  pub start_port1-ports :
      (d : Driver pc hw)
      → ((start_port1 true d).1.port1 ≡ some Port.new) × ((start_port1 true d).1.port2 ≡ d.port2)
  unfolding start_port1
  start_port1-ports d = Keeps-command 0xAE 0xFF (set_port1 d).1

  pub start_port2-ports :
      (d : Driver pc hw)
      → ((start_port2 true d).1.port1 ≡ d.port1) × ((start_port2 true d).1.port2 ≡ some Port.new)
  unfolding start_port2
  start_port2-ports d =
      Keeps->>= (write_cmd 0xA8) (λ _. write_cmd 0xD4 >> write_data 0xFF) (Keeps-write_cmd 0xA8)
        (λ _. Keeps-command 0xD4 0xFF) (set_port2 d).1
