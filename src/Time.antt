-- ===== src/Time.antt =====
-- kernel/src/arch/x86_64/time.rs, over kernel/src/arch/x86_64/hpet.rs and crates/hpet: the time since the
-- start. A `Duration` is its nanoseconds.
pub mod Monotone
pub mod Period
mod Tests
use snek_os.Prelude.{
  ℕ, ◌+◌, ◌-◌, ◌*◌, ◌/◌, ◌%◌, ◌^◌, Bool, Option, none, some, List, [], ◌∷◌, bit_and, bit_or, shl,
  shr, u32, u64, if◌then◌else◌,
}

-- The registers of an HPET that the kernel reads and writes.
pub record Hpet : Type 0 where
  pub capabilities_and_id : ℕ
  pub configuration : ℕ
  pub counter_value : ℕ

-- `CapabilitiesAndID::COUNTER_CLK_PERIOD`: 32 bits behind 8 + 4 + 1 + 1 + 1 + 16 others.
unfoldable pub counter_period : Hpet → ℕ
counter_period h = u32 (shr h.capabilities_and_id 31)

-- `Configuration::ENABLE_CNF` is the lowest bit.
unfoldable pub set_counter_enable : Bool → Hpet → Hpet
set_counter_enable enable h =
    let others = h.configuration - h.configuration % 2 in
    record h { configuration = if enable then others + 1 else others }

-- The statics `UPTIME_MS`, `BOOT_SEC` and `LAST_HPET`, and the one behind `HPET`.
pub record Statics : Type 0 where
  pub uptime_ms : ℕ
  pub boot_sec : ℕ
  pub last_hpet : ℕ
  pub hpet : Option Hpet

abbrev pub get_counter : Option Hpet → Option ℕ
get_counter none = none
get_counter (some h) = some h.counter_value

-- `TIMER_INTERVAL`, in milliseconds
abbrev pub timer_interval : ℕ
timer_interval = 5

abbrev pub store_counter : Option ℕ → Statics → Statics
store_counter none s = s
store_counter (some counter) s = record s { last_hpet = counter }

-- The first store of `on_tick`; `store_counter` is the second.
abbrev pub add_interval : Statics → Statics
add_interval s = record s { uptime_ms = u64 (s.uptime_ms + timer_interval) }

-- A tick with nothing between its two stores.
unfoldable pub on_tick : Statics → Statics
on_tick s = store_counter (get_counter s.hpet) (add_interval s)

-- The nanoseconds since the last tick. A product that is too large is cut, as in a release build.
abbrev pub since : Option Hpet → ℕ → ℕ
since none last = 0
since (some h) last = u64 ((h.counter_value - last) * counter_period h) / 1000000

-- `now` loads the counter, `UPTIME_MS` and `LAST_HPET` one after the other: here the statics at each of the
-- three loads, between which ticks may fall.
unfoldable pub now_loads : Statics → Statics → Statics → ℕ
now_loads at_counter at_uptime at_last =
    at_uptime.uptime_ms * 1000000 + since at_counter.hpet at_last.last_hpet

-- A reading with nothing between its loads.
unfoldable pub now : Statics → ℕ
unfolding now_loads
now s = now_loads s s s

unfoldable pub timestamp : Statics → ℕ
timestamp s = s.boot_sec * 1000000000 + now s
