-- ===== src/Time/Monotone.antt =====
-- Whether time goes forwards (kernel/src/arch/x86_64/time.rs).
use snek_os.Prelude.{
  ℕ, zero, suc, ◌+◌, ◌-◌, ◌*◌, ◌/◌, ◌^◌, ◌≤◌, ◌<◌, some, List, [], ◌∷◌, length, u64, ◌≡◌, refl, ap,
  ◌∙◌, arith,
}
use snek_os.Time.{Hpet, counter_period, Statics, add_interval, on_tick, now_loads, now}

-- The counter of the HPET stands at `counter`.
abbrev pub at : Hpet → ℕ → Statics → Statics
at h counter s = record s { hpet = some (record h { counter_value = counter }) }

-- Ticks of the timer, by the counter at each.
abbrev pub ticks : Hpet → List ℕ → Statics → Statics
ticks h [] s = s
ticks h (counter ∷ counters) s = ticks h counters (on_tick (at h counter s))

-- What a reading of the time shows that comes after one with the counter at `counter`, with ticks in
-- between. Without ticks, no tick falls between its loads either, and the counter has gone forwards, at
-- most so far that the femtoseconds fit 64 bits. Behind ticks, its other two loads are anything, as ticks
-- that fall between the loads may leave it; but the first reading was an interval of the timer, 5 ms by
-- the period that is read, behind the tick before it at most.
pub data IsReadAfter (h : Hpet) (s : Statics) (counter : ℕ) : List ℕ → ℕ → Type 0 where
  same_tick :
      (counter' : ℕ)
      → counter ≤ counter'
      → (counter' - s.last_hpet) * counter_period h < 2 ^ 64
      → IsReadAfter h s counter [] (now (at h counter' s))
  later_tick :
      (tick : ℕ) (counters : List ℕ) (at_counter at_last : Statics)
      → (counter - s.last_hpet) * counter_period h ≤ 5000000000000
      → IsReadAfter h s counter
          (tick ∷ counters)
          (now_loads at_counter (ticks h (tick ∷ counters) s) at_last)

uptime-on_tick :
    (h : Hpet) (c : ℕ) (s : Statics) → (on_tick (at h c s)).uptime_ms ≡ u64 (s.uptime_ms + 5)
unfolding on_tick
uptime-on_tick h c s = refl

ticks-uptime :
    (h : Hpet) (counters : List ℕ) (s : Statics)
    → s.uptime_ms + 5 * length counters < 2 ^ 64
    → s.uptime_ms ≤ (ticks h counters s).uptime_ms
unfolding on_tick
ticks-uptime h [] s room = omega arith
ticks-uptime h (c ∷ counters) s room =
    let rest = ticks-uptime h counters (on_tick (at h c s)) (omega arith) in omega arith

mul-least : (a b p : ℕ) → a ≤ b → a * p ≤ b * p
mul-least a b zero le = omega arith
mul-least a b (suc p) le = let rest = mul-least a b p le in omega arith

now-at :
    (h : Hpet) (c : ℕ) (s : Statics)
    → now (at h c s) ≡ s.uptime_ms * 1000000 + u64 ((c - s.last_hpet) * counter_period h) / 1000000
unfolding now counter_period
now-at h c s = refl

minus_self : (n : ℕ) → n - n ≡ 0
minus_self n = omega arith

plus_zero_left : (n m : ℕ) → n + m ≡ (n + 0) + m
plus_zero_left n m = omega arith

plus_zero : (n : ℕ) → n + 0 ≡ n
plus_zero n = omega arith

nothing : (n p : ℕ) → u64 ((n - n) * p) / 1000000 ≡ 0
nothing n p = rw (minus_self n) (omega arith)

now-on_tick :
    (h : Hpet) (c : ℕ) (s : Statics)
    → now (at h c (on_tick (at h c s))) ≡ u64 (s.uptime_ms + 5) * 1000000
unfolding now counter_period on_tick
now-on_tick h c s =
    ap (λ d. u64 (s.uptime_ms + 5) * 1000000 + d) (nothing c (counter_period h))
    ∙ plus_zero (u64 (s.uptime_ms + 5) * 1000000)

-- A tick that comes a nanosecond late or more sets the time back: right after it, less time has passed
-- than right before it.
pub on_tick-late :
    (h : Hpet) (s : Statics) (c : ℕ)
    → s.uptime_ms + 5 < 2 ^ 64
    → 5000001000000 ≤ (c - s.last_hpet) * counter_period h
    → (c - s.last_hpet) * counter_period h < 2 ^ 64
    → now (at h c (on_tick (at h c s))) < now (at h c s)
on_tick-late h s c room late fits = rw (now-on_tick h c s, now-at h c s) (omega arith)

-- A reading that a tick interrupts between the load of the uptime and that of the last counter shows no
-- time since the tick before: it is behind an earlier reading by all that the counter has counted since. A
-- reading between the two stores of a tick is an interval of 5 ms ahead.
pub now_loads-torn :
    (h : Hpet) (s : Statics) (c : ℕ)
    → s.uptime_ms + 5 < 2 ^ 64
    → (now (at h c s)
        ≡ now_loads (at h c s) (at h c s) (on_tick (at h c s))
          + u64 ((c - s.last_hpet) * counter_period h) / 1000000)
      × (now (add_interval (at h c s)) ≡ now (at h c s) + 5000000)
unfolding now now_loads on_tick counter_period
now_loads-torn h s c room =
    let none_since = nothing c (counter_period h) in
    (rw none_since (plus_zero_left (s.uptime_ms * 1000000) _), omega arith)

-- What the first of two readings can show at most.
first_reading :
    (h : Hpet) (s t : Statics) (c : ℕ)
    → s.last_hpet ≤ t.last_hpet
    → (c - s.last_hpet) * counter_period h < 2 ^ 64
    → now_loads (at h c s) s t
      ≤ s.uptime_ms * 1000000 + (c - s.last_hpet) * counter_period h / 1000000
unfolding now_loads counter_period
first_reading h s t c newer fits =
    let less = mul-least (c - t.last_hpet) (c - s.last_hpet) (counter_period h) (omega arith) in
    omega arith

loads-uptime : (s0 s1 s2 : Statics) → s1.uptime_ms * 1000000 ≤ now_loads s0 s1 s2
unfolding now_loads
loads-uptime s0 s1 s2 = omega arith

-- Two readings of the time are in order, with any number of ticks of the timer between them, whatever ticks
-- fall between the loads of the first, and, if there are ticks between the two, between the loads of the
-- second. The first must not load the uptime between the two stores of a tick. If there are ticks between
-- the two readings, the first must come at most 5 ms after the last tick before it by the period that the
-- kernel reads, which is half as much by the HPET's own; if there are none, no tick falls between the
-- loads of the second, the counter must go forwards, and the femtoseconds must fit 64 bits. The uptime must
-- not overflow.
pub now-in_order :
    (h : Hpet) (counters : List ℕ) (s t : Statics) (c reading : ℕ)
    → s.uptime_ms + 5 * length counters < 2 ^ 64
    → s.last_hpet ≤ t.last_hpet
    → IsReadAfter h s c counters reading
    → now_loads (at h c s) s t ≤ reading
now-in_order h [] s t c _ room newer (same_tick c' le fits) =
    let grows = mul-least (c - s.last_hpet) (c' - s.last_hpet) (counter_period h) (omega arith) in
    let first = first_reading h s t c newer (omega arith) in rw (now-at h c' s) (omega arith)
now-in_order h (_ ∷ _) s t c _ room newer (later_tick tick ts s0 s2 soon) =
    let first = first_reading h s t c newer (omega arith) in
    let up = ticks-uptime h ts (on_tick (at h tick s)) (omega (arith, uptime-on_tick h tick s)) in
    let later = loads-uptime s0 (ticks h (tick ∷ ts) s) s2 in omega (arith, uptime-on_tick h tick s)
