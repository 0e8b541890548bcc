-- ===== src/I8042/Driver/Setup.antt =====
-- The result of `Driver8042::init` (crates/i8042/src/lib.rs).
use snek_os.Prelude.{
  ℕ, zero, suc, ◌+◌, Bool, true, false, not, ◌&&◌, Option, some, ◌≡◌, refl, ◌∙◌, ◌⊎◌, inl, inr,
  arith,
}
use snek_os.I8042.Keyboard.{PcKeyboard}
use snek_os.I8042.Port
use snek_os.I8042.Port.{Port}
use snek_os.I8042.Driver.{
  Error, timed_out, self_test_failed, no_ports, Impl, Driver, Outcome, ok, err, no_fuel, M,
  and_then, ◌>>=◌, ◌>>◌, poll_out, spin, wait_out, flush, max_spins_out, write_cmd, write_data,
  set_config, self_test, probe_second_port, test_port, test_second_port, enable_interrupts,
  start_port1, start_port2, set_port1, set_port2, fail_if, init, device_write_cmd,
  device_write_data,
}
use snek_os.I8042.Driver.Keeps.{
  Same, Keeps, Same-trans, Keeps-write_cmd, Keeps-flush, Keeps-set_config, Keeps-self_test,
  Keeps-probe_second_port, Keeps-test_port, Keeps-test_second_port, Keeps-enable_interrupts,
  start_port1-ports, start_port2-ports,
}

-- A port as it was, or a new one.
abbrev pub SameOrNew : {pc : PcKeyboard} → Option (Port pc) → Option (Port pc) → Type 0
SameOrNew p p' = (p' ≡ p) ⊎ (p' ≡ some Port.new)

module _ {pc : PcKeyboard} {hw : Impl} where
  -- A method whose only error is a time-out.
  abbrev TimesOut : {A : Type 0} → M pc hw A → Type 0
  TimesOut m = (d : Driver pc hw) (e : Error) → (m d).0 ≡ err e → e ≡ timed_out

  TimesOut->>= :
      {A B : Type 0} (m : M pc hw A) (f : A → M pc hw B)
      → TimesOut m
      → ((a : A) → TimesOut (f a))
      → TimesOut (m >>= f)
  TimesOut->>= {A} {B} m f tm tf d e = go (m d).0 (m d).1 (tm d)
    where
      go :
          (r : Outcome A) (d' : Driver pc hw)
          → ((e : Error) → r ≡ err e → e ≡ timed_out)
          → (and_then r d' f).0 ≡ err e
          → e ≡ timed_out
      go (ok a) d' t = tf a d' e
      go (err e') d' t = λ q. t e (cc q)
      go no_fuel d' t = λ q. cc

  TimesOut-spin :
      (poll : M pc hw Bool) (max fuel count : ℕ)
      → TimesOut poll
      → TimesOut (spin poll max fuel count)
  unfolding spin
  TimesOut-spin poll max zero count tp d e q = cc
  TimesOut-spin poll max (suc fuel) count tp d e q =
      ground (arith, tp d e, TimesOut-spin poll max fuel (count + 1) tp (poll d).1 e)

  TimesOut-wait_out : TimesOut wait_out
  unfolding wait_out poll_out
  TimesOut-wait_out = TimesOut-spin poll_out max_spins_out max_spins_out 0 (λ d e q. cc)

  TimesOut-command : (cmd b : ℕ) → TimesOut (write_cmd cmd >> write_data b)
  unfolding write_cmd write_data
  TimesOut-command cmd b =
      TimesOut->>= (write_cmd cmd) (λ _. write_data b)
        (TimesOut->>= wait_out (λ _. device_write_cmd cmd) TimesOut-wait_out (λ _ d e q. cc))
        (λ _. TimesOut->>= wait_out (λ _. device_write_data b) TimesOut-wait_out (λ _ d e q. cc))

  TimesOut-start_port1 : TimesOut (start_port1 true)
  unfolding start_port1
  TimesOut-start_port1 d = TimesOut-command 0xAE 0xFF (set_port1 d).1

  TimesOut-start_port2 : TimesOut (start_port2 true)
  unfolding start_port2 write_cmd
  TimesOut-start_port2 d =
      TimesOut->>= (write_cmd 0xA8) (λ _. write_cmd 0xD4 >> write_data 0xFF)
        (TimesOut->>= wait_out (λ _. device_write_cmd 0xA8) TimesOut-wait_out (λ _ d e q. cc))
        (λ _. TimesOut-command 0xD4 0xFF) (set_port2 d).1

  abbrev pub EachSameOrNew : Driver pc hw → Driver pc hw → Type 0
  EachSameOrNew d d' = SameOrNew d.port1 d'.port1 × SameOrNew d.port2 d'.port2

  -- What a result of `init` says of the ports.
  abbrev pub Reports : Driver pc hw → Outcome (Unit {0}) → Driver pc hw → Type 0
  Reports d (ok _) d' =
      EachSameOrNew d d' × ((d'.port1 ≡ some Port.new) ⊎ (d'.port2 ≡ some Port.new))
  Reports d (err timed_out) d' = EachSameOrNew d d'
  Reports d (err self_test_failed) d' = Same d d'
  Reports d (err no_ports) d' = Same d d'
  Reports d no_fuel d' = EachSameOrNew d d'

  Reports-Same : (d d' : Driver pc hw) (e : Error) → Same d d' → Reports d (err e) d'
  Reports-Same d d' timed_out s = (inl s.0, inl s.1)
  Reports-Same d d' self_test_failed s = s
  Reports-Same d d' no_ports s = s

  -- Where a method keeps the ports, what follows decides.
  Reports->>= :
      {A : Type 0} (m : M pc hw A) (f : A → M pc hw (Unit {0})) (d0 d : Driver pc hw)
      → Keeps m
      → ((a : A) (d' : Driver pc hw) → Same d0 d' → Reports d0 (f a d').0 (f a d').1)
      → Same d0 d
      → Reports d0 ((m >>= f) d).0 ((m >>= f) d).1
  Reports->>= {A} m f d0 d km rest s = go (m d).0 (m d).1 (Same-trans d0 d (m d).1 s (km d))
    where
      go :
          (r : Outcome A) (d' : Driver pc hw)
          → Same d0 d'
          → Reports d0 (and_then r d' f).0 (and_then r d' f).1
      go (ok a) d' s' = rest a d' s'
      go (err e) d' s' = Reports-Same d0 d' e s'
      go no_fuel d' s' = (inl s'.0, inl s'.1)

  Reports-started :
      (d0 d : Driver pc hw) (r : Outcome (Unit {0}))
      → EachSameOrNew d0 d
      → (d.port1 ≡ some Port.new) ⊎ (d.port2 ≡ some Port.new)
      → ((e : Error) → r ≡ err e → e ≡ timed_out)
      → Reports d0 r d
  Reports-started d0 d (ok _) each one t = (each, one)
  Reports-started d0 d (err timed_out) each one t = each
  Reports-started d0 d (err self_test_failed) each one t = cc (t self_test_failed refl)
  Reports-started d0 d (err no_ports) each one t = cc (t no_ports refl)
  Reports-started d0 d no_fuel each one t = each

  start_port2-false : (d : Driver pc hw) → start_port2 false d ≡ (ok tt, d)
  unfolding start_port2
  start_port2-false d = refl

  start_port1-false : (d : Driver pc hw) → start_port1 false d ≡ (ok tt, d)
  unfolding start_port1
  start_port1-false d = refl

  -- Port 1 has been started.
  Reports-start_second :
      (p2 : Bool) (d0 d : Driver pc hw)
      → d.port1 ≡ some Port.new
      → d.port2 ≡ d0.port2
      → Reports d0 (start_port2 p2 d).0 (start_port2 p2 d).1
  Reports-start_second false d0 d e1 e2 = rw (start_port2-false d) ((inr e1, inl e2), inl e1)
  Reports-start_second true d0 d e1 e2 =
      let (q1, q2) = start_port2-ports d in
      Reports-started d0 (start_port2 true d).1 (start_port2 true d).0 (inr (q1 ∙ e1), inr q2)
        (inr q2) (TimesOut-start_port2 d)

  Reports-start_port1 :
      (p2 : Bool) (d0 d : Driver pc hw)
      → Same d0 d
      → let m = start_port1 true >>= λ _. start_port2 p2 in Reports d0 (m d).0 (m d).1
  Reports-start_port1 p2 d0 d s =
      let (q1, q2) = start_port1-ports d in
      go (start_port1 true d).0 (start_port1 true d).1 q1 (q2 ∙ s.1) (TimesOut-start_port1 d)
    where
      go :
          (r : Outcome (Unit {0})) (d' : Driver pc hw)
          → d'.port1 ≡ some Port.new
          → d'.port2 ≡ d0.port2
          → ((e : Error) → r ≡ err e → e ≡ timed_out)
          → let (r', d'') = and_then r d' (λ _. start_port2 p2) in Reports d0 r' d''
      go (ok _) d' e1 e2 t = Reports-start_second p2 d0 d' e1 e2
      go (err e) d' e1 e2 t = Reports-started d0 d' (err e) (inr e1, inl e2) (inl e1) t
      go no_fuel d' e1 e2 t = (inr e1, inl e2)

  Reports-start_port2 :
      (d0 d : Driver pc hw)
      → Same d0 d
      → let m = start_port1 false >>= λ _. start_port2 true in Reports d0 (m d).0 (m d).1
  Reports-start_port2 d0 d s =
      let (q1, q2) = start_port2-ports d in
      rw (start_port1-false d) (
        Reports-started d0 (start_port2 true d).1 (start_port2 true d).0 (inl (q1 ∙ s.0), inr q2)
          (inr q2) (TimesOut-start_port2 d))

  -- The part of `init` behind the tests of the ports.
  Reports-start :
      (p1 p2 : Bool) (d0 d : Driver pc hw)
      → Same d0 d
      → let m = do
        fail_if (not p1 && not p2) no_ports
        enable_interrupts p1 p2
        start_port1 p1
        start_port2 p2
        in Reports d0 (m d).0 (m d).1
  unfolding fail_if
  Reports-start false false d0 d s = s
  Reports-start true p2 d0 d s =
      Reports->>= (enable_interrupts true p2) (λ _. start_port1 true >>= λ _. start_port2 p2) d0 d
        (Keeps-enable_interrupts true p2) (λ _ d' s'. Reports-start_port1 p2 d0 d' s') s
  Reports-start false true d0 d s =
      Reports->>= (enable_interrupts false true) (λ _. start_port1 false >>= λ _. start_port2 true)
        d0 d (Keeps-enable_interrupts false true) (λ _ d' s'. Reports-start_port2 d0 d' s') s

  -- When `init` succeeds, at least one port is new, and each port is new or as it was. A failed self
  -- test and the error `NoPorts` leave both ports as they were; after a time-out, or where a loop does
  -- not end, each is new or as it was.
  pub init-Reports : (fuel : ℕ) (d : Driver pc hw) → Reports d (init fuel d).0 (init fuel d).1
  unfolding init
  init-Reports fuel d =
      (Reports->>= (write_cmd 0xAD) _ d d (Keeps-write_cmd 0xAD) λ _ d1 s1.
          Reports->>= (write_cmd 0xA7) _ d d1 (Keeps-write_cmd 0xA7)
            (λ _ d2 s2.
              Reports->>= (flush fuel) _ d d2 (Keeps-flush fuel)
                (λ _ d3 s3.
                  Reports->>= set_config _ d d3 Keeps-set_config
                    (λ can d4 s4.
                      Reports->>= self_test _ d d4 Keeps-self_test
                        (λ _ d5 s5.
                          Reports->>= (probe_second_port can) _ d d5 (Keeps-probe_second_port can)
                            (λ has_second d6 s6.
                              Reports->>= (flush fuel) _ d d6 (Keeps-flush fuel)
                                (λ _ d7 s7.
                                  Reports->>= (test_port 0xAB) _ d d7 (Keeps-test_port 0xAB)
                                    (λ p1 d8 s8.
                                      Reports->>= (test_second_port has_second) _ d d8
                                        (Keeps-test_second_port has_second)
                                        (λ p2 d9 s9. Reports-start p1 p2 d d9 s9) s8)
                                    s7)
                                s6)
                            s5)
                        s4)
                    s3)
                s2)
            s1)
        (refl, refl)
