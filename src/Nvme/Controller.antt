-- ===== src/Nvme/Controller.antt =====
-- kernel/src/drivers/nvme.rs, `Controller::new` and `init`: setting a controller up and looking at its namespaces.
use snek_os.Prelude.{
  ℕ, ◌+◌, ◌-◌, ◌*◌, ◌/◌, Bool, true, false, ◌&&◌, List, [], ◌∷◌, Option, none, some, if◌then◌else◌,
  ◌==◌, length, get_elem?, bit_and, shl, u16, ltb,
}
use snek_os.Prelude.Effect.{Outcome, ok, err, panic, no_fuel, pure, throw, unwrap, ◌>>=◌, ◌>>◌}
use snek_os.Nvme.{
  Error, unknown_bar, not_supported, fatal, get, mqes, css_nvm, mpsmin, cfs, capabilities, status,
  admin_submission_queue, admin_completion_queue, CompletionQueueEntry, Command, identify,
  create_sq, create_cq, nvm, round_robin,
}
use snek_os.Nvme.Queue.{
  Hw, World, M, QueuePair, read, write, set_enable, set_css, set_ams, set_queue_entry_sizes,
  set_admin_queue_attributes, new_dma, submit,
}
use snek_os.Nvme.Queue

pub data Bar : Type 0 where
  memory32 memory64 io : ℕ → Bar

-- What the driver reads of the answers to its commands, by the address of the buffer.
pub record IdentifyController : Type 0 where
  pub mdts : ℕ
  pub nn : ℕ

pub record IdentifyNamespace : Type 0 where
  pub nsze : ℕ
  pub flbas : ℕ
  pub lbaf_ds : List ℕ

-- `translate_virt_addr`, and what the controller has written to buffers.
pub record Memory (hw : Hw) : Type 0 where
  pub translate_virt_addr : ℕ → Option ℕ
  pub controller_at : hw.Card → ℕ → IdentifyController
  pub nsids_at : hw.Card → ℕ → ℕ → List ℕ
  pub namespace_at : hw.Card → ℕ → IdentifyNamespace

pub record Namespace : Type 0 where
  pub blocks : ℕ
  pub block_size : ℕ
  pub max_lbas : ℕ
  pub max_prps : ℕ

abbrev pub identify_command : ℕ → ℕ → ℕ → ℕ → Command
identify_command i nsid cns prp1 = identify (record {
  opcode = 6;
  flags = 0;
  command_id = i;
  nsid = nsid;
  data_ptr = record { prp1 = prp1; prp2 = 0 };
  cns = cns;
  controller_id = 0;
})

abbrev pub create_cq_command : QueuePair → ℕ → Command
create_cq_command q prp1 = create_cq (record {
  opcode = 5;
  flags = 0;
  command_id = 1;
  prp1 = prp1;
  prp2 = 0;
  cqid = u16 q.queue_id;
  q_size = u16 (q.completion_length - 1);
  cq_flags = 1;
  irq_vector = 0;
})

abbrev pub create_sq_command : QueuePair → ℕ → Command
create_sq_command q prp1 = create_sq (record {
  opcode = 1;
  flags = 0;
  command_id = 3;
  prp1 = prp1;
  prp2 = 0;
  sqid = u16 q.queue_id;
  q_size = u16 (length q.submission - 1);
  sq_flags = 1;
  cqid = u16 q.queue_id;
})

-- `12 + MPSMIN`, and the units of `MDTS`, if it is given
abbrev pub max_transfer_shift : ℕ → ℕ → ℕ
max_transfer_shift cap mdts = if mdts == 0 then 20 else 12 + get mpsmin cap + mdts

-- The namespace's sizes; `none` is an index out of the list of formats, or a shift by a negative number.
abbrev pub sizes : ℕ → ℕ → ℕ → ℕ → Namespace
sizes shift nsze ds lba_shift =
    let max_lbas = shl 1 (shift - lba_shift) in
    record {
      blocks = nsze;
      block_size = shl 1 ds;
      max_lbas = max_lbas;
      max_prps = max_lbas * shl 1 lba_shift / 4096;
    }

unfoldable pub measured : ℕ → ℕ → Option ℕ → Option ℕ → Option Namespace
measured shift nsze (some ds) (some lba_shift) =
    if ltb shift lba_shift then none else some (sizes shift nsze ds lba_shift)
measured shift nsze _ _ = none

unfoldable pub measure : ℕ → IdentifyNamespace → Option Namespace
measure shift identity =
    measured shift identity.nsze (get_elem? identity.lbaf_ds (bit_and identity.flbas 0b11111))
      (get_elem? identity.lbaf_ds (bit_and identity.flbas 0xf))

module _ {hw : Hw} (memory : Memory hw) where
  abbrev pub phys_addr : ℕ → M hw ℕ
  phys_addr virt = unwrap (memory.translate_virt_addr virt)

  -- `?` on what `submit` returns
  abbrev pub succeed : Outcome Error CompletionQueueEntry × QueuePair → M hw QueuePair
  succeed (ok e, q) w = (ok q, w)
  succeed (err e, q) w = (err e, w)
  succeed (panic, q) w = (panic, w)
  succeed (no_fuel, q) w = (no_fuel, w)

  unfoldable pub command : ℕ → Command → QueuePair → M hw QueuePair
  command fuel c q = do r ← submit fuel c q; succeed r

  unfoldable pub registers_addr : Option Bar → M hw ℕ
  registers_addr (some (memory64 address)) = pure address
  registers_addr (some (memory32 address)) = pure address
  registers_addr _ = throw unknown_bar

  unfoldable pub throw_if : Bool → Error → M hw (Unit {0})
  throw_if true e = throw e
  throw_if false e = pure tt

  -- From the reset to the controller that is ready.
  unfoldable pub start : ℕ → Option Bar → M hw (ℕ × QueuePair)
  start fuel bar = do
    registers_addr bar
    cap ← read capabilities
    throw_if (get css_nvm cap == 0) not_supported
    set_enable fuel false
    let queue_size = get mqes cap
    admin_queue ← Queue.new queue_size
    set_admin_queue_attributes queue_size queue_size
    sq ← phys_addr admin_queue.submission_at
    write admin_submission_queue sq
    cq ← phys_addr admin_queue.completion_at
    write admin_completion_queue cq
    set_css nvm
    set_ams round_robin
    set_queue_entry_sizes 6 4
    set_enable fuel true
    s ← read status
    throw_if (get cfs s == 1) fatal
    pure (queue_size, admin_queue)

  -- The queues for reading and writing, announced by the admin queue.
  unfoldable pub create_queues : ℕ → ℕ → QueuePair → M hw QueuePair
  create_queues fuel queue_size admin_queue = do
    io_queue ← Queue.new queue_size
    cq ← phys_addr io_queue.completion_at
    admin' ← command fuel (create_cq_command io_queue cq) admin_queue
    sq ← phys_addr io_queue.submission_at
    command fuel (create_sq_command io_queue sq) admin'

  unfoldable pub identify_namespace : ℕ → ℕ → ℕ → QueuePair → M hw (Namespace × QueuePair)
  identify_namespace fuel shift nsid admin_queue = do
    buffer ← new_dma 4096
    prp1 ← phys_addr buffer
    admin' ← command fuel (identify_command 5 nsid 0 prp1) admin_queue
    n ← (λ w. unwrap (measure shift (memory.namespace_at w.card buffer)) w)
    pure (n, admin')

  -- `for nsid in nsids`
  unfoldable pub namespaces : ℕ → ℕ → List ℕ → QueuePair → M hw (List Namespace)
  namespaces fuel shift [] admin_queue = pure []
  namespaces fuel shift (nsid ∷ nsids) admin_queue =
      let skipped = namespaces fuel shift nsids admin_queue in
      let listed = (do
        r ← identify_namespace fuel shift nsid admin_queue
        rest ← namespaces fuel shift nsids r.1
        pure (r.0 ∷ rest)) in
      if nsid == 0 then skipped else listed

  unfoldable pub list_namespaces : ℕ → ℕ → ℕ → QueuePair → M hw (List Namespace)
  list_namespaces fuel shift nn admin_queue = do
    buffer ← new_dma (nn * 4)
    prp1 ← phys_addr buffer
    admin' ← command fuel (identify_command 4 0 2 prp1) admin_queue
    nsids ← (λ w. (ok (memory.nsids_at w.card buffer nn), w))
    namespaces fuel shift nsids admin'

  -- The namespaces are what is logged.
  unfoldable pub new : ℕ → Option Bar → M hw (List Namespace)
  new fuel bar = do
    started ← start fuel bar
    buffer ← new_dma 4096
    prp1 ← phys_addr buffer
    admin1 ← command fuel (identify_command 0 0 1 prp1) started.1
    admin2 ← create_queues fuel started.0 admin1
    cap ← read capabilities
    identity ← (λ w. (ok (memory.controller_at w.card buffer), w))
    list_namespaces fuel (max_transfer_shift cap identity.mdts) identity.nn admin2

  -- `Ok(false)` for other classes of devices
  unfoldable pub init : ℕ → ℕ → ℕ → Option Bar → M hw Bool
  init fuel class sub_class bar =
      let started = new fuel bar >> pure true in
      if (class == 0x1) && (sub_class == 0x8) then started else pure false
