-- ===== src/E1000/Ring.antt =====
-- kernel/src/drivers/e1000.rs, `E1000` and the tokens of `Driver`: sending, receiving and interrupts.
use snek_os.Prelude.{
  ℕ, ◌+◌, ◌-◌, ◌%◌, Bool, List, Option, none, some, if◌then◌else◌, has, u16, u32, get_elem?, set,
  ◌==◌, ◌∷◌, take, length,
}
use snek_os.Interrupts.{InterruptGuard}
use snek_os.E1000.{
  Hw, World, M, pure, unwrap, ◌>>=◌, ◌>>◌, ok, panic, read, write, r_i_cause, rx_desc_tail,
  tx_desc_tail, dd, send_command, TxDescriptor, RxDescriptor, tx_desc_num, rx_desc_num,
}

-- `tx_ring` and `rx_ring` are pointers to the rings: here their addresses and what stands there. The
-- waker is the task to wake.
pub record E1000 : Type 0 where
  pub address : List ℕ
  pub tx_cur : ℕ
  pub tx_ring_at : ℕ
  pub tx_ring : List TxDescriptor
  pub rx_cur : ℕ
  pub rx_ring_at : ℕ
  pub rx_ring : List RxDescriptor
  pub interrupt_guard : Option InterruptGuard
  pub waker : Option ℕ

-- What stands at a virtual address and the length of the slice.
abbrev pub Buffer : Type 0
Buffer = ℕ × ℕ

abbrev pub translate_phys_addr : ℕ → ℕ → ℕ
translate_phys_addr phys_offset a = phys_offset + a

-- A write to the memory from a physical address on.
abbrev pub poke : ℕ → List ℕ → (ℕ → List ℕ) → ℕ → List ℕ
poke phys content memory a = if a == phys then content else memory a

-- Filling a descriptor, and what is left of one that has been received.
abbrev pub filled : ℕ → ℕ → TxDescriptor → TxDescriptor
filled phys len d = record d { addr = phys; length = u16 len; cmd = send_command; status = 0 }

abbrev pub released : RxDescriptor → RxDescriptor
released d = record d { status = 0 }

module _ {hw : Hw} where
  -- What a slice holds, in the mapping of all of physical memory.
  abbrev pub bytes : World hw → Buffer → List ℕ
  bytes w (virt, len) = take len (w.memory (virt - hw.phys_offset))

  abbrev pub store : ℕ → List ℕ → M hw (Unit {0})
  store virt content = do
    phys ← unwrap (hw.translate_virt_addr virt)
    λ w. (ok tt, record w { memory = poke phys content w.memory })

  -- The packet is a slice at the virtual address `ptr`.
  unfoldable pub send : E1000 → Buffer → M hw E1000
  send e (ptr, len) = do
    let cur = e.tx_cur
    desc ← unwrap (get_elem? e.tx_ring cur)
    phys ← unwrap (hw.translate_virt_addr ptr)
    let e' = record e {
      tx_ring = set e.tx_ring cur (filled phys len desc);
      tx_cur = (e.tx_cur + 1) % tx_desc_num;
    }
    write tx_desc_tail (u32 e'.tx_cur)
    pure e'

  unfoldable pub recv : E1000 → M hw (Option (ℕ × Buffer))
  recv e = do
    let id = e.rx_cur
    desc ← unwrap (get_elem? e.rx_ring id)
    pure (
        if has desc.status dd
        then some (id, (translate_phys_addr hw.phys_offset desc.addr, desc.length))
        else none)

  unfoldable pub has_recv : E1000 → M hw Bool
  has_recv e = do desc ← unwrap (get_elem? e.rx_ring e.rx_cur); pure (has desc.status dd)

  abbrev pub assert : Bool → M hw (Unit {0})
  assert b w = if b then (ok tt, w) else (panic, w)

  unfoldable pub recv_end : E1000 → ℕ → M hw E1000
  recv_end e id = do
    desc ← unwrap (get_elem? e.rx_ring id)
    assert (has desc.status dd)
    let old = e.rx_cur
    let e' = record e {
      rx_ring = set e.rx_ring id (released desc);
      rx_cur = (e.rx_cur + 1) % rx_desc_num;
    }
    write rx_desc_tail (u32 old)
    pure e'

  -- `AtomicWaker::wake` takes the waker and wakes its task.
  abbrev pub wake : E1000 → M hw E1000
  wake e w = elim e.waker [
    | none ↦ (ok e, w)
    | some t ↦ (ok (record e { waker = none }), record w { woken = t ∷ w.woken })
  ]

  unfoldable pub handle_irq : E1000 → M hw E1000
  handle_irq e = do read r_i_cause; wake e

  -- `Driver::poll` for a task: whether it is ready.
  unfoldable pub poll : E1000 → ℕ → M hw (Bool × E1000)
  poll e task = do let e' = record e { waker = some task }; ready ← has_recv e'; pure (ready, e')

  -- `Driver::receive`, whose other token, for sending, has no state of its own
  unfoldable pub receive : E1000 → M hw (Option (ℕ × Buffer))
  receive e = recv e

  -- `RxToken::consume` for an `f` that yields the bytes it is given.
  unfoldable pub consume_rx : E1000 → ℕ → Buffer → M hw (List ℕ × E1000)
  consume_rx e id buffer w = (do e' ← recv_end e id; pure (bytes w buffer, e')) w

  -- `vec![0; len]` at a fresh address, written by `f`, and freed at the end of the scope.
  abbrev pub alloc : M hw ℕ
  alloc w = let a = hw.fresh w.allocated w.freed in (ok a, record w { allocated = a ∷ w.allocated })

  abbrev pub dealloc : ℕ → M hw (Unit {0})
  dealloc a w = (ok tt, record w { freed = a ∷ w.freed })

  -- `TxToken::consume` for an `f` that writes `packet`.
  unfoldable pub consume_tx : E1000 → List ℕ → M hw E1000
  consume_tx e packet = do
    buffer ← alloc
    store buffer packet
    e' ← send e (buffer, length packet)
    dealloc buffer
    pure e'
