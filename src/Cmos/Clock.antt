-- ===== src/Cmos/Clock.antt =====
-- What `read_rtc` makes of a clock that stands still (crates/cmos/src/lib.rs).
use snek_os.Prelude.{
  every, every_lem, ℕ, ◌+◌, ◌*◌, ◌/◌, ◌%◌, ◌<◌, true, ◌==◌, ==_iff, if◌then◌else◌, ltb, ◌≡◌, refl,
}
use snek_os.Cmos.{Ports, RtcDateTime, from_bcd, hour_from_bcd, full_hour}

-- The byte with the two decimal digits of a number below 100.
abbrev pub to_bcd : ℕ → ℕ
to_bcd x = x / 10 * 16 + x % 10

bcd_table : every (λ x. from_bcd (to_bcd x) == x) 100 ≡ true
unfolding every
bcd_table = refl

-- Reading back two decimal digits.
from_bcd-to_bcd : (x : ℕ) → x < 100 → from_bcd (to_bcd x) ≡ x
from_bcd-to_bcd x lt = (==_iff _ x).0 (every_lem (λ x. from_bcd (to_bcd x) == x) 100 x lt bcd_table)

-- The hour register of a clock of twelve hours in decimal digits: 12, 1, …, 11, with bit 7 from noon on.
abbrev pub hour_register : ℕ → ℕ
hour_register h = to_bcd ((h + 11) % 12 + 1) + (if ltb h 12 then 0 else 0x80)

-- What `read_rtc` makes of the hours of such a clock.
abbrev pub hour_read : ℕ → ℕ
hour_read h = if h % 12 == 0 then (h + 12) % 24 else h

hour_table : every (λ h. full_hour 0 (hour_from_bcd (hour_register h)) == hour_read h) 24 ≡ true
unfolding every full_hour
hour_table = refl

-- On a clock of twelve hours in decimal digits every hour is read as it is, but for midnight, which is
-- read as noon, and noon, which is read as midnight.
pub full_hour-hour_register :
    (h : ℕ) → h < 24 → full_hour 0 (hour_from_bcd (hour_register h)) ≡ hour_read h
full_hour-hour_register h lt = (==_iff _ (hour_read h)).0 (
    every_lem (λ h. full_hour 0 (hour_from_bcd (hour_register h)) == hour_read h) 24 h lt
      hour_table)

-- A clock whose registers do not change; the device is the register chosen last.
abbrev pub still : (ℕ → ℕ) → Ports
still regs = record { Device = ℕ; write_address = λ s reg. reg; read_data = λ s. (regs s, s) }

abbrev pub shown : (ℕ → ℕ) → RtcDateTime
shown regs = record {
  year = regs 0x09;
  month = regs 0x08;
  day = regs 0x07;
  hour = regs 0x04;
  minute = regs 0x02;
  second = regs 0x00;
}
