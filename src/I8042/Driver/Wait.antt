-- ===== src/I8042/Driver/Wait.antt =====
-- The polling loops of the controller (crates/i8042/src/lib.rs, `wait_out`, `wait_in` and `flush`).
use snek_os.Prelude.{ℕ, zero, suc, ◌+◌, ◌<◌, Bool, true, false, ◌≡◌, arith, ◌∙◌}
use snek_os.I8042.Keyboard.{PcKeyboard}
use snek_os.I8042.Driver.{timed_out, Impl, Driver, Outcome, ok, err, M, spin}

module _ {pc : PcKeyboard} {hw : Impl} where
  -- The driver after `k` polls, and the outcome of the next one.
  abbrev pub after_polls : M pc hw Bool → ℕ → Driver pc hw → Driver pc hw
  after_polls poll zero d = d
  after_polls poll (suc k) d = after_polls poll k (poll d).1

  abbrev pub poll_at : M pc hw Bool → ℕ → Driver pc hw → Outcome Bool
  poll_at poll k d = (poll (after_polls poll k d)).0

  spin_step :
      (poll : M pc hw Bool) (max fuel count : ℕ) (d : Driver pc hw)
      → (poll d).0 ≡ ok false
      → count + 1 < max
      → spin poll max (suc fuel) count d ≡ spin poll max fuel (count + 1) (poll d).1
  unfolding spin
  spin_step poll max fuel count d e lt = ground arith

  spin_done :
      (poll : M pc hw Bool) (max fuel count : ℕ) (d : Driver pc hw)
      → (poll d).0 ≡ ok true
      → spin poll max (suc fuel) count d ≡ (ok tt, (poll d).1)
  unfolding spin
  spin_done poll max fuel count d e = rw (e, spin)

  spin_last :
      (poll : M pc hw Bool) (max fuel count : ℕ) (d : Driver pc hw)
      → (poll d).0 ≡ ok false
      → count + 1 ≡ max
      → spin poll max (suc fuel) count d ≡ (err timed_out, (poll d).1)
  unfolding spin
  spin_last poll max fuel count d e last = ground arith

  spin_ready :
      (poll : M pc hw Bool) (max k fuel count : ℕ) (d : Driver pc hw)
      → k < fuel
      → fuel + count ≡ max
      → ((j : ℕ) → j < k → poll_at poll j d ≡ ok false)
      → poll_at poll k d ≡ ok true
      → spin poll max fuel count d ≡ (ok tt, after_polls poll (suc k) d)
  spin_ready poll max k zero count d lt e busy ready = absurd (omega arith)
  spin_ready poll max zero (suc fuel) count d lt e busy ready =
      spin_done poll max fuel count d ready
  spin_ready poll max (suc k) (suc fuel) count d lt e busy ready =
      spin_step poll max fuel count d (busy 0 (omega arith)) (omega arith)
      ∙ spin_ready poll max k fuel (count + 1) (poll d).1 (omega arith) (omega arith)
          (λ j lt'. busy (suc j) (omega arith)) ready

  spin_busy :
      (poll : M pc hw Bool) (max fuel count : ℕ) (d : Driver pc hw)
      → suc fuel + count ≡ max
      → ((j : ℕ) → j < suc fuel → poll_at poll j d ≡ ok false)
      → spin poll max (suc fuel) count d ≡ (err timed_out, after_polls poll (suc fuel) d)
  spin_busy poll max zero count d e busy =
      spin_last poll max 0 count d (busy 0 (omega arith)) (omega arith)
  spin_busy poll max (suc fuel) count d e busy =
      spin_step poll max (suc fuel) count d (busy 0 (omega arith)) (omega arith)
      ∙ spin_busy poll max fuel (count + 1) (poll d).1 (omega arith)
          (λ j lt. busy (suc j) (omega arith))

  -- A polling loop of at most `max` rounds whose polls first fail `k` times and then pass, with `k`
  -- below `max`, succeeds after exactly `k + 1` polls.
  pub spin-ready :
      (poll : M pc hw Bool) (max k : ℕ) (d : Driver pc hw)
      → k < max
      → ((j : ℕ) → j < k → poll_at poll j d ≡ ok false)
      → poll_at poll k d ≡ ok true
      → spin poll max max 0 d ≡ (ok tt, after_polls poll (suc k) d)
  spin-ready poll max k d lt busy ready = spin_ready poll max k max 0 d lt (omega arith) busy ready

  -- A polling loop whose first `max` polls all fail reports a time-out after exactly `max` polls, for
  -- `max` other than 0.
  pub spin-timed_out :
      (poll : M pc hw Bool) (max : ℕ) (d : Driver pc hw)
      → 0 < max
      → ((j : ℕ) → j < max → poll_at poll j d ≡ ok false)
      → spin poll max max 0 d ≡ (err timed_out, after_polls poll max d)
  spin-timed_out poll zero d lt busy = absurd (omega arith)
  spin-timed_out poll (suc max) d lt busy = spin_busy poll (suc max) max 0 d (omega arith) busy
