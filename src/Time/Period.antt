-- ===== src/Time/Period.antt =====
-- The period of the HPET's counter (crates/hpet/src/lib.rs, `counter_period`).
use snek_os.Prelude.{ℕ, ◌+◌, ◌*◌, ◌/◌, ◌%◌, ◌^◌, u32, ◌≡◌, arith}
use snek_os.Time.{Hpet, counter_period}

-- The HPET's specification: the period in femtoseconds is in the bits from 32 to 63, and the identifier of
-- the vendor in those from 16 to 31.
abbrev pub clk_period : ℕ → ℕ
clk_period capabilities = capabilities / 2 ^ 32 % 2 ^ 32

abbrev pub vendor_id : ℕ → ℕ
vendor_id capabilities = capabilities / 2 ^ 16 % 2 ^ 16

-- The period that is read is twice that of the HPET's specification, cut to 32 bits, and the highest bit
-- of the vendor's identifier is added to it.
pub counter_period-twice :
    (h : Hpet)
    → counter_period h
      ≡ u32 (2 * clk_period h.capabilities_and_id + vendor_id h.capabilities_and_id / 2 ^ 15)
unfolding counter_period
counter_period-twice h = omega arith
