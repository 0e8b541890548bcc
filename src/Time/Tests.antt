-- ===== src/Time/Tests.antt =====
-- The time with QEMU's HPET (kernel/src/arch/x86_64/time.rs, crates/hpet/src/lib.rs).
use snek_os.Prelude.{◌+◌, ◌*◌, ◌/◌, ◌^◌, ◌≤◌, ◌<◌, some, [], ◌∷◌, u32, ◌≡◌, refl, arith}
use snek_os.Time.{Hpet, counter_period, Statics, on_tick, now, now_loads}
use snek_os.Time.Period.{clk_period, vendor_id, counter_period-twice}
use snek_os.Time.Monotone.{at, ticks, later_tick, now-in_order, on_tick-late}

-- A period of 10 ns, the vendor 0x8086, a counter of 64 bits and three timers.
abbrev hpet : Hpet
hpet = record {
  capabilities_and_id = 10000000 * 2 ^ 32 + 0x8086 * 2 ^ 16 + 0xA201;
  configuration = 1;
  counter_value = 0;
}

abbrev statics : Statics
statics = record { uptime_ms = 100; boot_sec = 0; last_hpet = 1000; hpet = some hpet }

-- The period that is read: 20 ns and a femtosecond.
period : counter_period hpet ≡ 20000001
unfolding counter_period
period = refl

counter_period-twice_example :
    counter_period hpet
    ≡ u32 (2 * clk_period hpet.capabilities_and_id + vendor_id hpet.capabilities_and_id / 2 ^ 15)
counter_period-twice_example = counter_period-twice hpet

-- A tick 5 ms after the one before it by the counter: half of the time that was read is gone.
on_tick-late_example :
    now (at hpet 501000 (on_tick (at hpet 501000 statics))) < now (at hpet 501000 statics)
unfolding counter_period
on_tick-late_example = on_tick-late hpet statics 501000 (omega arith) (omega arith) (omega arith)

-- A reading whose last load is behind a tick, and one behind that tick with all its loads at one moment.
now-in_order_example :
    now_loads (at hpet 201000 statics) statics (on_tick (at hpet 501000 statics))
    ≤ now_loads
        (at hpet 601000 statics)
        (ticks hpet (501000 ∷ []) statics)
        (ticks hpet (501000 ∷ []) statics)
unfolding counter_period on_tick
now-in_order_example =
    now-in_order hpet (501000 ∷ []) statics (on_tick (at hpet 501000 statics)) 201000
      (now_loads (at hpet 601000 statics) (ticks hpet (501000 ∷ []) statics)
        (ticks hpet (501000 ∷ []) statics))
      (omega arith) (omega arith)
      (later_tick 501000 [] (at hpet 601000 statics) (ticks hpet (501000 ∷ []) statics)
        (omega arith))
