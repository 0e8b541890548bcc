-- ===== src/Cmos.antt =====
-- crates/cmos/src/lib.rs: reading the real-time clock through its two ports. A register is a number
-- below 256.
pub mod Clock
mod Tests
use snek_os.Prelude.{
  ℕ, zero, suc, ◌+◌, ◌*◌, ◌/◌, ◌%◌, bit_and, bit_or, Bool, true, false, not, ◌&&◌, Option, none,
  some, ◌==◌, if◌then◌else◌,
}

-- The two ports: writing the number of a register, and reading its value.
pub record Ports : Type 1 where
  pub Device : Type 0
  pub write_address : Device → ℕ → Device
  pub read_data : Device → ℕ × Device

-- `from_ymd_opt` and `and_hms_opt` of the crate `chrono`.
pub record Chrono : Type 1 where
  pub NaiveDate : Type 0
  pub NaiveDateTime : Type 0
  pub from_ymd_opt : ℕ → ℕ → ℕ → Option NaiveDate
  pub and_hms_opt : NaiveDate → ℕ → ℕ → ℕ → Option NaiveDateTime

pub record RtcDateTime : Type 0 where
  pub year : ℕ
  pub month : ℕ
  pub day : ℕ
  pub hour : ℕ
  pub minute : ℕ
  pub second : ℕ

abbrev pub blank : RtcDateTime
blank = record { year = 0; month = 0; day = 0; hour = 0; minute = 0; second = 0 }

-- The derived `PartialEq`.
abbrev pub same : RtcDateTime → RtcDateTime → Bool
same a b =
    (a.year == b.year)
    && (a.month == b.month)
    && (a.day == b.day)
    && (a.hour == b.hour)
    && (a.minute == b.minute)
    && (a.second == b.second)

-- A failed `unwrap` is `panics`; `no_fuel` is a loop that has not ended within the rounds given.
pub data Reading (A : Type 0) : Type 0 where
  reads : A → Reading A
  panics no_fuel : Reading A

-- Two decimal digits in a byte.
abbrev pub from_bcd : ℕ → ℕ
from_bcd x = bit_and x 0x0F + x / 16 * 10

abbrev pub hour_from_bcd : ℕ → ℕ
hour_from_bcd x = bit_or (bit_and x 0x0F + bit_and x 0x70 / 16 * 10) (bit_and x 0x80)

-- `(register_b & 0x04) == 0`
abbrev pub decimal : ℕ → RtcDateTime → RtcDateTime
decimal register_b t =
    if bit_and register_b 0x04 == 0
    then record {
      year = from_bcd t.year;
      month = from_bcd t.month;
      day = from_bcd t.day;
      hour = hour_from_bcd t.hour;
      minute = from_bcd t.minute;
      second = from_bcd t.second;
    }
    else t

abbrev pub decimal_century : ℕ → ℕ → ℕ
decimal_century register_b c = if bit_and register_b 0x04 == 0 then from_bcd c else c

-- The clock of twelve hours.
unfoldable pub full_hour : ℕ → ℕ → ℕ
full_hour register_b h =
    if (bit_and register_b 0x02 == 0) && not (bit_and h 0x80 == 0)
    then (bit_and h 0x7F + 12) % 24
    else h

unfoldable pub convert : ℕ → ℕ → RtcDateTime → RtcDateTime
unfolding full_hour
convert register_b century t =
    let d = decimal register_b t in
    record d {
      year = d.year + decimal_century register_b century * 100;
      hour = full_hour register_b d.hour;
    }

abbrev pub date_time : (lib : Chrono) → RtcDateTime → Reading lib.NaiveDateTime
date_time lib t = elim (lib.from_ymd_opt t.year t.month t.day) [
  | none ↦ panics
  | some d ↦ elim (lib.and_hms_opt d t.hour t.minute t.second) [
    | none ↦ panics
    | some dt ↦ reads dt
  ]
]

module _ (hw : Ports) where
  unfoldable pub read : ℕ → hw.Device → ℕ × hw.Device
  read reg s = hw.read_data (hw.write_address s reg)

  unfoldable pub read_fields : hw.Device → RtcDateTime × hw.Device
  unfolding read
  read_fields s =
      let (second, s1) = read 0x00 s in
      let (minute, s2) = read 0x02 s1 in
      let (hour, s3) = read 0x04 s2 in
      let (day, s4) = read 0x07 s3 in
      let (month, s5) = read 0x08 s4 in
      let (year, s6) = read 0x09 s5 in
      (
        record {
          year = year;
          month = month;
          day = day;
          hour = hour;
          minute = minute;
          second = second;
        },
        s6,
      )

  -- The inner loop: reads again while register A says that an update is under way.
  unfoldable pub read_idle : ℕ → hw.Device → Reading RtcDateTime × hw.Device
  unfolding read_fields
  read_idle zero s = (no_fuel, s)
  read_idle (suc fuel) s =
      let (t, s1) = read_fields s in
      let (status, s2) = read 0x0A s1 in
      let rest = read_idle fuel s2 in if bit_and status 0x80 == 0 then (reads t, s2) else rest

  -- The outer loop: reads until two readings agree; both loops are given the same number of rounds.
  unfoldable pub read_twice : ℕ → ℕ → RtcDateTime → hw.Device → Reading RtcDateTime × hw.Device
  read_twice fuel zero last s = (no_fuel, s)
  read_twice fuel (suc rounds) last s =
      let (r, s1) = read_idle fuel s in
      elim r [
        | reads t ↦
            let rest = read_twice fuel rounds t s1 in if same t last then (reads t, s1) else rest
        | panics ↦ (panics, s1)
        | no_fuel ↦ (no_fuel, s1)
      ]

  module _ (lib : Chrono) where
    unfoldable pub read_rtc : ℕ → ℕ → hw.Device → Reading lib.NaiveDateTime × hw.Device
    read_rtc fuel century_reg s =
        let (r, s1) = read_twice fuel fuel blank s in
        elim r [
          | reads t ↦
              let (register_b, s2) = read 0x0B s1 in
              let (century, s3) = read century_reg s2 in
              (date_time lib (convert register_b century t), s3)
          | panics ↦ (panics, s1)
          | no_fuel ↦ (no_fuel, s1)
        ]
