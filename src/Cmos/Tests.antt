-- ===== src/Cmos/Tests.antt =====
-- A clock that shows half past noon in twelve hours (crates/cmos/src/lib.rs).
use snek_os.Prelude.{ℕ, some, ◌==◌, if◌then◌else◌, ◌≡◌, arith}
use snek_os.Cmos.{Chrono, hour_from_bcd, full_hour}
use snek_os.Cmos.Clock.{hour_register, hour_read, full_hour-hour_register}

full_hour-hour_register_example : full_hour 0 (hour_from_bcd (hour_register 21)) ≡ hour_read 21
full_hour-hour_register_example = full_hour-hour_register 21 (omega arith)

-- Every date is one.
abbrev lib : Chrono
lib = record {
  NaiveDate = ℕ × ℕ × ℕ;
  NaiveDateTime = (ℕ × ℕ × ℕ) × ℕ × ℕ × ℕ;
  from_ymd_opt = λ y m d. some (y, m, d);
  and_hms_opt = λ date h m s. some (date, h, m, s);
}

abbrev regs : ℕ → ℕ
regs r =
    if r == 0x02
    then 0x30
    else if r == 0x04
    then 0x92
    else if r == 0x07
    then 0x15
    else if r == 0x08
    then 0x06
    else if r == 0x09
    then 0x24
    else if r == 0x32
    then 0x20
    else 0
