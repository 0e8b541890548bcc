-- ===== src/I8042/Driver/Total.antt =====
-- The loops of `Driver8042::init` end (crates/i8042/src/lib.rs).
use snek_os.Prelude.{
  ℕ, zero, suc, ◌+◌, ◌-◌, ◌≤◌, ◌<◌, bit_and, Bool, true, false, not, ◌&&◌, has, ◌≡◌, ◌≢◌, refl, ap,
  inl, inr, arith, Bool-cases,
}
use snek_os.I8042.Keyboard.{PcKeyboard}
use snek_os.I8042.Driver.{
  Error, Impl, Driver, Outcome, ok, err, no_fuel, M, and_then, ◌>>=◌, ◌>>◌, no_ports, poll_out,
  poll_in, spin, wait_out, wait_in, flush, max_spins_out, max_spins_in, write_cmd, write_data,
  read_data, set_config, self_test, checked, probe_second_port, test_port, test_second_port,
  enable_interrupts, start_port1, start_port2, set_port1, set_port2, fail_if, init,
  device_read_data, device_write_cmd, device_write_data,
}

-- What the loops need of the hardware: its output buffer is finite, reading its status adds nothing
-- to the buffer, and reading a byte while the status shows one takes a byte out.
pub record Drains (hw : Impl) (cap : ℕ) : Type 0 where
  pub pending : hw.Device → ℕ
  pub pending_cap : (s : hw.Device) → pending s ≤ cap
  pub pending_read :
      (s : hw.Device)
      → has (hw.read_status s).0 1 ≡ true
      → pending (hw.read_data (hw.read_status s).1).1 < pending s

module _ {pc : PcKeyboard} {hw : Impl} where
  -- A method that always ends.
  abbrev pub Ends : {A : Type 0} → M pc hw A → Type 0
  Ends m = (d : Driver pc hw) → (m d).0 ≢ no_fuel

  Ends->>= :
      {A B : Type 0} (m : M pc hw A) (f : A → M pc hw B)
      → Ends m
      → ((a : A) → Ends (f a))
      → Ends (m >>= f)
  Ends->>= {A} {B} m f em ef d = go (m d).0 (m d).1 (em d)
    where
      go : (r : Outcome A) (d' : Driver pc hw) → r ≢ no_fuel → (and_then r d' f).0 ≢ no_fuel
      go (ok a) d' ne = ef a d'
      go (err e) d' ne = λ q. cc
      go no_fuel d' ne = absurd (ne refl)

  Ends-spin :
      (poll : M pc hw Bool) (max fuel count : ℕ)
      → Ends poll
      → suc fuel + count ≡ max
      → Ends (spin poll max (suc fuel) count)
  unfolding spin
  Ends-spin poll max zero count ep e d = ground (arith, ep d)
  Ends-spin poll max (suc fuel) count ep e d =
      ground (arith, ep d, Ends-spin poll max fuel (count + 1) ep (omega arith) (poll d).1)

  Ends-poll_out : Ends poll_out
  unfolding poll_out
  Ends-poll_out d = λ q. cc

  Ends-poll_in : Ends poll_in
  unfolding poll_in
  Ends-poll_in d = λ q. cc

  Ends-wait_out : Ends wait_out
  unfolding wait_out
  Ends-wait_out = Ends-spin poll_out max_spins_out 999 0 Ends-poll_out (omega arith)

  Ends-wait_in : Ends wait_in
  unfolding wait_in
  Ends-wait_in = Ends-spin poll_in max_spins_in 99999 0 Ends-poll_in (omega arith)

  Ends-write_cmd : (cmd : ℕ) → Ends (write_cmd cmd)
  unfolding write_cmd
  Ends-write_cmd cmd = Ends->>= wait_out (λ _. device_write_cmd cmd) Ends-wait_out (λ _ d q. cc)

  Ends-write_data : (b : ℕ) → Ends (write_data b)
  unfolding write_data
  Ends-write_data b = Ends->>= wait_out (λ _. device_write_data b) Ends-wait_out (λ _ d q. cc)

  Ends-read_data : Ends read_data
  unfolding read_data
  Ends-read_data = Ends->>= wait_in (λ _. device_read_data) Ends-wait_in (λ _ d q. cc)

  Ends-set_config : Ends set_config
  unfolding set_config
  Ends-set_config = Ends->>= (write_cmd 0x20) _ (Ends-write_cmd 0x20) λ _.
      Ends->>= read_data _ Ends-read_data λ config.
        Ends->>= (write_cmd 0x60) _ (Ends-write_cmd 0x60) λ _.
          Ends->>= (write_data (bit_and config (255 - (1 + 2 + 64)))) _ (Ends-write_data _)
            λ _ d q. cc

  Ends-checked : (m : M pc hw ℕ) → Ends m → Ends (checked m)
  unfolding checked
  Ends-checked m em d = ground (arith, em d)

  Ends-self_test : Ends self_test
  unfolding self_test
  Ends-self_test =
      Ends->>= (write_cmd 0xAA) _ (Ends-write_cmd 0xAA) λ _. Ends-checked read_data Ends-read_data

  Ends-probe_second_port : (can : Bool) → Ends (probe_second_port can)
  unfolding probe_second_port
  Ends-probe_second_port false = λ d q. cc
  Ends-probe_second_port true = Ends->>= (write_cmd 0xA8) _ (Ends-write_cmd 0xA8) λ _.
      Ends->>= (write_cmd 0x20) _ (Ends-write_cmd 0x20) λ _.
        Ends->>= read_data _ Ends-read_data
          λ config. Ends->>= (write_cmd 0xA7) _ (Ends-write_cmd 0xA7) λ _ d q. cc

  Ends-test_port : (cmd : ℕ) → Ends (test_port cmd)
  unfolding test_port
  Ends-test_port cmd =
      Ends->>= (write_cmd cmd) _ (Ends-write_cmd cmd)
        λ _. Ends->>= read_data _ Ends-read_data λ b d q. cc

  Ends-test_second_port : (has_second : Bool) → Ends (test_second_port has_second)
  unfolding test_second_port
  Ends-test_second_port false = λ d q. cc
  Ends-test_second_port true = Ends-test_port 0xA9

  Ends-fail_if : (b : Bool) (e : Error) → Ends (fail_if b e)
  unfolding fail_if
  Ends-fail_if true e = λ d q. cc
  Ends-fail_if false e = λ d q. cc

  Ends-enable_interrupts : (p1 p2 : Bool) → Ends (enable_interrupts p1 p2)
  unfolding enable_interrupts
  Ends-enable_interrupts p1 p2 = Ends->>= (write_cmd 0x20) _ (Ends-write_cmd 0x20) λ _.
      Ends->>= read_data _ Ends-read_data
        λ config. Ends->>= (write_cmd 0x60) _ (Ends-write_cmd 0x60) λ _. Ends-write_data _

  Ends-command : (cmd b : ℕ) → Ends (write_cmd cmd >> write_data b)
  Ends-command cmd b =
      Ends->>= (write_cmd cmd) (λ _. write_data b) (Ends-write_cmd cmd) λ _. Ends-write_data b

  Ends-start_port1 : (b : Bool) → Ends (start_port1 b)
  unfolding start_port1
  Ends-start_port1 false d = λ q. cc
  Ends-start_port1 true d = Ends-command 0xAE 0xFF (set_port1 d).1

  Ends-start_port2 : (b : Bool) → Ends (start_port2 b)
  unfolding start_port2
  Ends-start_port2 false d = λ q. cc
  Ends-start_port2 true d =
      Ends->>= (write_cmd 0xA8) (λ _. write_cmd 0xD4 >> write_data 0xFF) (Ends-write_cmd 0xA8)
        (λ _. Ends-command 0xD4 0xFF) (set_port2 d).1

module _ {pc : PcKeyboard} {hw : Impl} (cap : ℕ) (drains : Drains hw cap) where
  open drains use {pending, pending_cap, pending_read}

  -- On a device whose buffer is finite, and with more rounds than bytes are pending, `flush` succeeds,
  -- and the poll that ended it found no byte left.
  pub flush-drains :
      (fuel : ℕ) (d : Driver pc hw)
      → pending d.device < fuel
      → (last : Driver pc hw) × (flush fuel d ≡ (ok tt, (poll_in last).1))
        × ((poll_in last).0 ≡ ok false)
  unfolding flush poll_in
  flush-drains zero d lt = absurd (omega arith)
  flush-drains (suc fuel) d lt = elim (Bool-cases (has (hw.read_status d.device).0 1)) [
    | inl e ↦
        let d' : Driver pc hw = record d {
          device = (hw.read_data (hw.read_status d.device).1).1;
        } in
        let less = pending_read d.device e in rw (e, flush) (flush-drains fuel d' (omega arith))
    | inr e ↦ (d, rw (e, flush), rw e)
  ]

  Ends-flush : (fuel : ℕ) → cap < fuel → Ends (flush {pc = pc} {hw = hw} fuel)
  Ends-flush fuel lt d q =
      let (last, e, _) = flush-drains fuel d (omega (arith, pending_cap d.device)) in
      cc (ap (λ (r : Outcome (Unit {0}) × Driver pc hw). r.0) e)

  -- On a device whose buffer is finite, `init` always ends, with its calls of `flush` given more rounds than
  -- the buffer holds bytes.
  pub init-ends : (fuel : ℕ) (d : Driver pc hw) → cap < fuel → (init fuel d).0 ≢ no_fuel
  unfolding init
  init-ends fuel d lt =
      (Ends->>= (write_cmd 0xAD) _ (Ends-write_cmd 0xAD) λ _.
          Ends->>= (write_cmd 0xA7) _ (Ends-write_cmd 0xA7) λ _.
            Ends->>= (flush fuel) _ (Ends-flush fuel lt) λ _.
              Ends->>= set_config _ Ends-set_config λ can. Ends->>= self_test _ Ends-self_test λ _.
                Ends->>= (probe_second_port can) _ (Ends-probe_second_port can) λ has_second.
                  Ends->>= (flush fuel) _ (Ends-flush fuel lt) λ _.
                    Ends->>= (test_port 0xAB) _ (Ends-test_port 0xAB) λ p1.
                      Ends->>= (test_second_port has_second) _ (Ends-test_second_port has_second)
                        λ p2.
                          Ends->>= (fail_if (not p1 && not p2) no_ports) _
                            (Ends-fail_if (not p1 && not p2) no_ports)
                            λ _.
                              Ends->>= (enable_interrupts p1 p2) _ (Ends-enable_interrupts p1 p2)
                                λ _.
                                  Ends->>= (start_port1 p1) (λ _. start_port2 p2)
                                    (Ends-start_port1 p1) λ _. Ends-start_port2 p2)
        d
