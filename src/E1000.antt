-- ===== src/E1000.antt =====
-- kernel/src/drivers/e1000.rs: the registers of the network card, and the descriptors of its rings.
mod Monad
pub mod Ring
pub mod Queue
pub mod Receive
pub mod System
pub mod Fair
pub mod Transmit
pub mod Sent
pub mod New
pub mod Built
pub mod Owned
mod Tests
unfoldable pub use Monad.*
use snek_os.Prelude.{
  ℕ, zero, suc, ◌+◌, ◌-◌, ◌*◌, ◌%◌, bit_and, bit_or, Bool, true, false, List, [], ◌∷◌, Option, none,
  some, if◌then◌else◌, has, ◌==◌, ◌^◌, shr, shl, u32,
}

pub data Register : Type 0 where
  r_control r_status r_eeprom r_i_cause r_i_mask r_r_ctrl : Register
  rx_desc_lo rx_desc_hi rx_desc_len rx_desc_head rx_desc_tail : Register
  r_t_ctrl tx_des_lo tx_des_hi tx_desc_len tx_desc_head tx_desc_tail : Register

-- `register as usize`
abbrev pub offset : Register → ℕ
offset r_control = 0x0
offset r_status = 0x8
offset r_eeprom = 0x14
offset r_i_cause = 0xc0
offset r_i_mask = 0xd0
offset r_r_ctrl = 0x100
offset rx_desc_lo = 0x2800
offset rx_desc_hi = 0x2804
offset rx_desc_len = 0x2808
offset rx_desc_head = 0x2810
offset rx_desc_tail = 0x2818
offset r_t_ctrl = 0x400
offset tx_des_lo = 0x3800
offset tx_des_hi = 0x3804
offset tx_desc_len = 0x3808
offset tx_desc_head = 0x3810
offset tx_desc_tail = 0x3818

-- `ControlFlags` and `ECtl`
abbrev pub control_lrst : ℕ
control_lrst = 2 ^ 3

abbrev pub control_slu : ℕ
control_slu = 2 ^ 6

abbrev pub control_rst : ℕ
control_rst = 2 ^ 26

abbrev pub control_vme : ℕ
control_vme = 2 ^ 30

abbrev pub control_phy_rst : ℕ
control_phy_rst = 2 ^ 31

-- `DD`, which is bit 0 of `TStatus` and of `RStatus`
abbrev pub dd : ℕ
dd = 1

-- `TxCommand::RS | TxCommand::IFCS | TxCommand::EOP`
abbrev pub send_command : ℕ
send_command = bit_or (bit_or 8 2) 1

pub record TxDescriptor : Type 0 where
  pub addr : ℕ
  pub length : ℕ
  pub cso : ℕ
  pub cmd : ℕ
  pub status : ℕ
  pub css : ℕ
  pub special : ℕ

pub record RxDescriptor : Type 0 where
  pub addr : ℕ
  pub length : ℕ  -- u16
  pub checksum : ℕ
  pub status : ℕ
  pub errors : ℕ
  pub special : ℕ

abbrev pub tx_desc_num : ℕ
tx_desc_num = 32

abbrev pub rx_desc_num : ℕ
rx_desc_num = 32

-- Sixteen bytes for each descriptor.
abbrev pub tx_desc_size : ℕ
tx_desc_size = tx_desc_num * 16

abbrev pub rx_desc_size : ℕ
rx_desc_size = rx_desc_num * 16

-- `impl Registers`
module _ {hw : Hw} where
  abbrev pub read : Register → M hw ℕ
  read r w = let (v, card') = hw.read w.card (offset r) in (ok v, record w { card = card' })

  abbrev pub write_raw : ℕ → ℕ → M hw (Unit {0})
  write_raw register value w = (ok tt, record w { card = hw.write w.card register value })

  abbrev pub write : Register → ℕ → M hw (Unit {0})
  write register value = write_raw (offset register) value

  -- `!flag`, in 32 bits
  unfoldable pub remove_flags : Register → ℕ → M hw (Unit {0})
  remove_flags register flag = do v ← read register; write register (bit_and v (4294967295 - flag))

  unfoldable pub insert_flags : Register → ℕ → M hw (Unit {0})
  insert_flags register flag = do v ← read register; write register (bit_or v flag)

  -- `for _ in 0..rounds`
  unfoldable pub await_eeprom : ℕ → M hw Bool
  await_eeprom zero w = (ok false, w)
  await_eeprom (suc rounds) w =
      let (v, card') = hw.read w.card (offset r_eeprom) in
      let w' = record w { card = card' } in
      let rest = await_eeprom rounds w' in if has v 16 then (ok true, w') else rest

  unfoldable pub detect_eeprom : M hw Bool
  detect_eeprom = do write r_eeprom 1; await_eeprom 1000

  -- A loop that reads a register until a test passes, and yields what it read.
  unfoldable pub read_until : Register → (ℕ → Bool) → ℕ → M hw ℕ
  read_until register test zero w = (no_fuel, w)
  read_until register test (suc fuel) w =
      let (v, card') = hw.read w.card (offset register) in
      let w' = record w { card = card' } in
      let rest = read_until register test fuel w' in if test v then (ok v, w') else rest

  unfoldable pub read_eeprom : ℕ → ℕ → M hw ℕ
  read_eeprom fuel addr = do
    write r_eeprom (bit_or 1 (shl addr 8))
    res ← read_until r_eeprom (λ res. has res 16) fuel
    pure (bit_and (shr res 16) 0xffff)

  unfoldable pub reset : ℕ → M hw (Unit {0})
  reset fuel = do
    insert_flags r_control control_rst
    read_until r_control (λ v. bit_and v control_rst == 0) fuel
    remove_flags r_control (bit_or (bit_or control_lrst control_phy_rst) control_vme)
