-- ===== src/E1000/New.antt =====
-- kernel/src/drivers/e1000.rs, `E1000::new`, `link_up`, `drop` and `init`: setting the card up.
use snek_os.Prelude.{
  ℕ, zero, suc, ◌+◌, ◌-◌, ◌*◌, ◌^◌, bit_and, bit_or, Bool, true, false, ◌&&◌, List, [], ◌∷◌, ◌++◌,
  Option, none, some, if◌then◌else◌, ◌==◌, has, shl, shr, u8, u16, u32, replicate,
}
use snek_os.Interrupts.{
  Apic, SourceOverride, InterruptGuard, Interrupts, level_low, dynamic_handler,
}
use snek_os.Interrupts.Handlers.{set_interrupt}
use snek_os.E1000.{
  unknown_bar, no_eeprom, route_gsi, Bar, memory32, memory64, Hw, ok, panic, M, pure, throw, unwrap,
  ◌>>=◌, ◌>>◌, r_control, r_status, r_i_cause, r_i_mask, r_r_ctrl, rx_desc_lo, rx_desc_hi,
  rx_desc_len, rx_desc_head, rx_desc_tail, r_t_ctrl, tx_des_lo, tx_des_hi, tx_desc_len,
  tx_desc_head, tx_desc_tail, control_slu, TxDescriptor, RxDescriptor, tx_desc_num, rx_desc_num,
  tx_desc_size, rx_desc_size, read, write, write_raw, insert_flags, read_until, detect_eeprom,
  read_eeprom, reset,
}
use snek_os.E1000.Ring.{E1000, translate_phys_addr, alloc, dealloc}

-- What `new` reads of the `PciDevice`.
pub record Header : Type 0 where
  pub vendor_id : ℕ
  pub device_id : ℕ
  pub bar0 : Option Bar

-- `PciCommand::BUS_MASTER | PciCommand::MEMORY_SPACE`
abbrev pub bus_master : ℕ
bus_master = 2 ^ 2

abbrev pub memory_space : ℕ
memory_space = 2 ^ 1

-- The flags of `TCtl`, `RCtl` and `InterruptFlags` that `new` sets.
abbrev pub set_collision_threshold : ℕ → ℕ → ℕ
set_collision_threshold bits value = bit_or bits (shl value 4)

abbrev pub set_collision_distance : ℕ → ℕ → ℕ
set_collision_distance bits value = bit_or bits (shl value 12)

abbrev pub t_ctl : ℕ
t_ctl =
    set_collision_threshold
      (set_collision_distance (bit_or (bit_or (bit_or (2 ^ 28) (2 ^ 1)) (2 ^ 3)) (2 ^ 24)) 64) 15

abbrev pub any_of : List ℕ → ℕ
any_of [] = 0
any_of (b ∷ bs) = bit_or b (any_of bs)

-- EN, SBP, UPE, LPE, MPE, LBM_NONE, RDMTS_EIGHTH, BAM, SECRC, BSIZE_4096
abbrev pub r_ctl : ℕ
r_ctl = any_of (
    2 ^ 1
    ∷ 2 ^ 2
    ∷ 2 ^ 3
    ∷ 2 ^ 5
    ∷ 2 ^ 4
    ∷ shl 0 6
    ∷ shl 2 8
    ∷ 2 ^ 15
    ∷ 2 ^ 26
    ∷ bit_or (shl 3 16) (2 ^ 25)
    ∷ [])

abbrev pub all_interrupts : ℕ
all_interrupts = any_of (
    2 ^ 0
    ∷ 2 ^ 1
    ∷ 2 ^ 2
    ∷ 2 ^ 4
    ∷ 2 ^ 5
    ∷ 2 ^ 6
    ∷ 2 ^ 7
    ∷ 2 ^ 9
    ∷ 2 ^ 12
    ∷ 2 ^ 14
    ∷ 2 ^ 15
    ∷ 2 ^ 16
    ∷ 2 ^ 17
    ∷ 2 ^ 22
    ∷ [])

abbrev pub blank_tx : TxDescriptor
blank_tx = record { addr = 0; length = 0; cso = 0; cmd = 0; status = 0; css = 0; special = 0 }

abbrev pub blank_rx : ℕ → RxDescriptor
blank_rx addr = record {
  addr = addr;
  length = 0;
  checksum = 0;
  status = 0;
  errors = 0;
  special = 0;
}

-- The two bytes of the address that a word of the EEPROM holds.
abbrev pub mac_bytes : ℕ → List ℕ
mac_bytes word = u8 (bit_and (u16 word) 0xff) ∷ u8 (shr (u16 word) 8) ∷ []

module _ {hw : Hw} where
  -- The command register without the bits that `PciCommand` does not name, and with the flags.
  abbrev pub set_command : ℕ → M hw (Unit {0})
  set_command flags w = (ok tt, record w { command = bit_or (bit_and w.command 0x77f) flags })

  unfoldable pub registers_addr : Option Bar → M hw ℕ
  registers_addr (some (memory64 address)) = pure address
  registers_addr (some (memory32 address)) = pure address
  registers_addr _ = throw unknown_bar

  unfoldable pub expect_eeprom : Bool → M hw (Unit {0})
  expect_eeprom true = pure tt
  expect_eeprom false = throw no_eeprom

  -- `for i in 0..3`
  unfoldable pub read_address : ℕ → M hw (List ℕ)
  read_address fuel = do
    a ← read_eeprom fuel 0
    b ← read_eeprom fuel 1
    c ← read_eeprom fuel 2
    pure (mac_bytes a ++ mac_bytes b ++ mac_bytes c)

  unfoldable pub new_tx_ring : M hw ℕ
  new_tx_ring = do
    addr ← alloc
    phys ← unwrap (hw.translate_virt_addr addr)
    write tx_des_lo (u32 phys)
    write tx_des_hi (u32 (shr phys 32))
    write tx_desc_len tx_desc_size
    write tx_desc_head 0
    write tx_desc_tail 0
    write r_t_ctrl t_ctl
    pure addr

  -- `for desc in descriptors`
  unfoldable pub new_buffers : ℕ → M hw (List RxDescriptor)
  new_buffers zero = pure []
  new_buffers (suc n) = do
    recv_buffer ← alloc
    phys ← unwrap (hw.translate_virt_addr recv_buffer)
    rest ← new_buffers n
    pure (blank_rx phys ∷ rest)

  unfoldable pub new_rx_ring : M hw (ℕ × List RxDescriptor)
  new_rx_ring = do
    addr ← alloc
    descriptors ← new_buffers rx_desc_num
    phys ← unwrap (hw.translate_virt_addr addr)
    write rx_desc_lo (u32 phys)
    write rx_desc_hi (u32 (shr phys 32))
    write rx_desc_len rx_desc_size
    write rx_desc_head 0
    write rx_desc_tail (rx_desc_num - 1)
    write r_r_ctrl r_ctl
    pure (addr, descriptors)

  -- `for i in 0..128`
  unfoldable pub clear_multicast : ℕ → ℕ → M hw (Unit {0})
  clear_multicast zero i = pure tt
  clear_multicast (suc n) i = do write_raw (0x5200 + i * 4) 0; clear_multicast n (i + 1)

  unfoldable pub link_up : ℕ → M hw ℕ
  link_up fuel = do insert_flags r_control control_slu; read_until r_status (λ v. has v 2) fuel

  unfoldable pub free_buffers : List RxDescriptor → M hw (Unit {0})
  free_buffers [] = pure tt
  free_buffers (d ∷ ds) = do dealloc (translate_phys_addr hw.phys_offset d.addr); free_buffers ds

  unfoldable pub drop : E1000 → M hw (Unit {0})
  drop e = do dealloc e.tx_ring_at; free_buffers e.rx_ring; dealloc e.rx_ring_at

  -- Everything up to the interrupt. The registers' address is the base of the card's.
  unfoldable pub build : ℕ → Header → M hw E1000
  build fuel header = do
    set_command (bit_or bus_master memory_space)
    registers_addr header.bar0
    reset fuel
    has_eeprom ← detect_eeprom
    expect_eeprom has_eeprom
    address ← read_address fuel
    tx_ring ← new_tx_ring
    rx_ring ← new_rx_ring
    clear_multicast 128 0
    write r_i_mask all_interrupts
    read r_i_cause
    pure (record {
      address = address;
      tx_cur = 0;
      tx_ring_at = tx_ring;
      tx_ring = replicate tx_desc_num blank_tx;
      rx_cur = 0;
      rx_ring_at = rx_ring.0;
      rx_ring = rx_ring.1;
      interrupt_guard = none;
      waker = none;
    })

-- What `f` runs is the driver's `handle_irq`; `overrides` are those of the platform.
module _ {hw : Hw} (F : Type 0) (lib : Apic) (overrides : List SourceOverride) (f : F) where
  -- What follows `set_interrupt_dyn`, whose panic is `none`.
  abbrev pub guarded :
      ℕ → E1000 → Option (InterruptGuard × Interrupts F lib) → M hw (E1000 × Interrupts F lib)
  guarded fuel e none w = (panic, w)
  guarded fuel e (some (g, s)) w =
      (do link_up fuel; pure (record e { interrupt_guard = some g }, s)) w

  -- `pci_route_pin(header)?`, after which an error drops what was built.
  unfoldable pub connect : ℕ → Interrupts F lib → Option ℕ → E1000 → M hw (E1000 × Interrupts F lib)
  connect fuel s none e = do drop e; throw route_gsi
  connect fuel s (some gsi) e =
      guarded fuel e (set_interrupt F lib overrides s gsi level_low (dynamic_handler f))

  -- `route` is what `pci_route_pin` answers.
  unfoldable pub new : ℕ → Header → Option ℕ → Interrupts F lib → M hw (E1000 × Interrupts F lib)
  new fuel header route s = do e ← build fuel header; connect fuel s route e

  -- `Ok(false)` is `none`; otherwise the driver is registered.
  unfoldable pub init :
      ℕ → Header → Option ℕ → Interrupts F lib → M hw (Option (E1000 × Interrupts F lib))
  init fuel header route s =
      let started = (do e ← new fuel header route s; pure (some e)) in
      if (header.vendor_id == 0x8086) && (header.device_id == 0x100e) then started else pure none
