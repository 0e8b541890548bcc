-- ===== src/Nvme/Queue.antt =====
-- kernel/src/drivers/nvme.rs, `Registers` and `QueuePair`.
use snek_os.Prelude.{
  ℕ, zero, suc, ◌+◌, ◌*◌, ◌%◌, Bool, true, not, List, if◌then◌else◌, ◌==◌, ltb, length, set,
  replicate, shr, u16, u32, bit_and, shl,
}
use snek_os.Prelude.Effect.{Effect, Outcome, ok, err, panic, no_fuel, pure, unwrap, ◌>>=◌, ◌>>◌}
use snek_os.Nvme.{
  Error, command_error, get, put, set_field, flag, dstrd, en, css, ams, iosqes, iocqes, rdy, cfs,
  asqs, acqs, Register, reg, capabilities, configuration, status, admin_queue_attributes,
  CompletionQueueEntry, Command, blank, set_command_id, ControllerCommandSet, command_set,
  ArbitrationMechanism, arbitration,
}

-- The controller: its registers by their offsets, its doorbells among them, and what it has written to an
-- entry of a completion queue, by the address of the queue. Reading may let it go on working.
pub record Hw : Type 1 where
  pub Card : Type 0
  pub read : Card → ℕ → ℕ × Card
  pub write : Card → ℕ → ℕ → Card
  pub completion : Card → ℕ → ℕ → CompletionQueueEntry × Card

-- The controller, and the static `QUEUE_ID` and the next free address for `Dma`.
pub record World (hw : Hw) : Type 0 where
  pub card : hw.Card
  pub next_queue_id : ℕ
  pub next_dma : ℕ

abbrev pub M : Hw → Type 0 → Type 0
M hw A = Effect Error (World hw) A

pub record QueuePair : Type 0 where
  pub queue_id : ℕ
  pub command_id : ℕ
  pub submission_at : ℕ
  pub submission : List Command
  pub submission_index : ℕ
  pub completion_at : ℕ
  pub completion_length : ℕ
  pub completion_index : ℕ
  pub phase : Bool

-- The indices after a completion.
abbrev pub advance : QueuePair → QueuePair
advance q =
    let next = (q.completion_index + 1) % q.completion_length in
    record q { completion_index = next; phase = if next == 0 then not q.phase else q.phase }

-- The number of a command wraps as in a release build.
abbrev pub enqueue : Command → QueuePair → QueuePair
enqueue command q = record q {
  command_id = u16 (q.command_id + 1);
  submission = set q.submission q.submission_index (set_command_id q.command_id command);
  submission_index = (q.submission_index + 1) % length q.submission;
}

module _ {hw : Hw} where
  abbrev pub read : Register → M hw ℕ
  read r w = let (v, card') = hw.read w.card (reg r) in (ok v, record w { card = card' })

  abbrev pub write : Register → ℕ → M hw (Unit {0})
  write r v w = (ok tt, record w { card = hw.write w.card (reg r) v })

  abbrev pub read_completion : ℕ → ℕ → M hw CompletionQueueEntry
  read_completion queue i w =
      let (e, card') = hw.completion w.card queue i in (ok e, record w { card = card' })

  -- `loop { if ready == enabled { break } if fatal { break } }`
  unfoldable pub await_ready : Bool → ℕ → M hw (Unit {0})
  await_ready enabled zero w = (no_fuel, w)
  await_ready enabled (suc fuel) w =
      let (s, card') = hw.read w.card (reg status) in
      let w' = record w { card = card' } in
      let rest = await_ready enabled fuel w' in
      if get rdy s == flag enabled
      then (ok tt, w')
      else if get cfs s == 1
      then (ok tt, w')
      else rest

  unfoldable pub set_enable : ℕ → Bool → M hw (Unit {0})
  set_enable fuel enabled = do
    c ← read configuration
    write configuration (put en (flag enabled) c)
    await_ready enabled fuel

  unfoldable pub set_css : ControllerCommandSet → M hw (Unit {0})
  set_css value = do
    c ← read configuration
    c' ← unwrap (set_field css (command_set value) c)
    write configuration c'

  unfoldable pub set_ams : ArbitrationMechanism → M hw (Unit {0})
  set_ams value = do
    c ← read configuration
    c' ← unwrap (set_field ams (arbitration value) c)
    write configuration c'

  unfoldable pub set_queue_entry_sizes : ℕ → ℕ → M hw (Unit {0})
  set_queue_entry_sizes sq cq = do
    c ← read configuration
    c' ← unwrap (set_field iosqes sq c)
    c'' ← unwrap (set_field iocqes cq c')
    write configuration c''

  unfoldable pub set_admin_queue_attributes : ℕ → ℕ → M hw (Unit {0})
  set_admin_queue_attributes sq cq = do
    aqa ← unwrap (set_field asqs sq 0)
    aqa' ← unwrap (set_field acqs cq aqa)
    write admin_queue_attributes aqa'

  -- `Dma::new_zeroed_slice(size, 4096)`: memory of its own.
  abbrev pub new_dma : ℕ → M hw ℕ
  new_dma bytes w = (ok w.next_dma, record w { next_dma = w.next_dma + bytes })

  abbrev pub fetch_queue_id : M hw ℕ
  fetch_queue_id w = (ok w.next_queue_id, record w { next_queue_id = w.next_queue_id + 1 })

  unfoldable pub new : ℕ → M hw QueuePair
  new size = do
    queue_id ← fetch_queue_id
    submission ← new_dma (size * 64)
    completion ← new_dma (size * 16)
    pure (record {
      queue_id = queue_id;
      command_id = 0;
      submission_at = submission;
      submission = replicate size blank;
      submission_index = 0;
      completion_at = completion;
      completion_length = size;
      completion_index = 0;
      phase = true;
    })

  unfoldable pub set_doorbell : ℕ → ℕ → ℕ → M hw (Unit {0})
  set_doorbell queue_id doorbell index = do
    cap ← read capabilities
    let offset = 0x1000 + (queue_id * 2 + doorbell) * shl 4 (get dstrd cap)
    λ w. (ok tt, record w { card = hw.write w.card offset index })

  -- `while (cmd.status & 0x1) != self.phase as u16 {}`
  unfoldable pub await_completion : QueuePair → ℕ → M hw (Unit {0})
  await_completion q zero w = (no_fuel, w)
  await_completion q (suc fuel) w =
      let (e, card') = hw.completion w.card q.completion_at q.completion_index in
      let w' = record w { card = card' } in
      let rest = await_completion q fuel w' in
      if bit_and e.status 1 == flag q.phase then (ok tt, w') else rest

  -- The status of the answer decides: an error leaves the queue as it is.
  unfoldable pub finish :
      QueuePair → CompletionQueueEntry → M hw (Outcome Error CompletionQueueEntry × QueuePair)
  finish q cmd =
      if shr cmd.status 1 == 0
      then (do
        let q' = advance q
        set_doorbell q.queue_id 1 (u32 q'.completion_index)
        pure (ok cmd, q'))
      else pure (err (command_error (shr cmd.status 1)), q)

  -- The result, and the queue as it is left. A queue without entries panics.
  unfoldable pub submit :
      ℕ → Command → QueuePair → M hw (Outcome Error CompletionQueueEntry × QueuePair)
  submit fuel command q =
      if ltb q.submission_index (length q.submission)
      then (do
        let q' = enqueue command q
        set_doorbell q.queue_id 0 (u32 q'.submission_index)
        await_completion q' fuel
        cmd ← read_completion q'.completion_at q'.completion_index
        finish q' cmd)
      else λ w. (panic, w)
