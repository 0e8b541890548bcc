-- ===== src/Nvme.antt =====
-- kernel/src/drivers/nvme.rs: the registers of a controller of solid-state drives, and the commands that it
-- takes. The module is not part of the kernel's build.
pub mod Queue
pub mod Controller
pub mod Submit
pub mod Phase
pub mod Admin
mod Tests
use snek_os.Prelude.{
  ℕ, zero, suc, ◌+◌, ◌-◌, ◌*◌, ◌/◌, ◌%◌, ◌^◌, Bool, true, false, List, Option, none, some,
  if◌then◌else◌, ◌==◌, ltb,
}
use snek_os.Prelude.Effect.{Effect, Outcome, ok, no_fuel, pure, unwrap, ◌>>=◌, ◌>>◌}

pub data Error : Type 0 where
  unknown_bar not_supported fatal : Error
  command_error : ℕ → Error

-- A field of a bit field: its lowest bit and its width. The crate `mycelium_bitfield` gives out the bits, and
-- panics when a value is too large to set.
pub record Field : Type 0 where
  pub low : ℕ
  pub width : ℕ

abbrev pub get : Field → ℕ → ℕ
get f bits = bits / 2 ^ f.low % 2 ^ f.width

abbrev pub put : Field → ℕ → ℕ → ℕ
put f value bits = bits - get f bits * 2 ^ f.low + value * 2 ^ f.low

abbrev pub set_field : Field → ℕ → ℕ → Option ℕ
set_field f value bits = if ltb value (2 ^ f.width) then some (put f value bits) else none

abbrev pub flag : Bool → ℕ
flag true = 1
flag false = 0

-- `Capabilities`
abbrev pub mqes : Field
mqes = record { low = 0; width = 16 }

abbrev pub dstrd : Field
dstrd = record { low = 32; width = 4 }

abbrev pub css_nvm : Field
css_nvm = record { low = 37; width = 1 }

abbrev pub mpsmin : Field
mpsmin = record { low = 48; width = 4 }

-- `ControllerConfiguration`
abbrev pub en : Field
en = record { low = 0; width = 1 }

abbrev pub css : Field
css = record { low = 4; width = 3 }

abbrev pub ams : Field
ams = record { low = 11; width = 3 }

abbrev pub iosqes : Field
iosqes = record { low = 16; width = 4 }

abbrev pub iocqes : Field
iocqes = record { low = 20; width = 4 }

-- `ControllerStatus`
abbrev pub rdy : Field
rdy = record { low = 0; width = 1 }

abbrev pub cfs : Field
cfs = record { low = 1; width = 1 }

-- `AdminQueueAttributes`
abbrev pub asqs : Field
asqs = record { low = 0; width = 12 }

abbrev pub acqs : Field
acqs = record { low = 16; width = 12 }

pub data Register : Type 0 where
  capabilities configuration status admin_queue_attributes : Register
  admin_submission_queue admin_completion_queue : Register

-- `T::REG`
abbrev pub reg : Register → ℕ
reg capabilities = 0x00
reg configuration = 0x14
reg status = 0x1C
reg admin_queue_attributes = 0x24
reg admin_submission_queue = 0x28
reg admin_completion_queue = 0x30

-- `ControllerCommandSet` and `ArbitrationMechanism`
pub data ControllerCommandSet : Type 0 where
  nvm only_io only_admin : ControllerCommandSet

abbrev pub command_set : ControllerCommandSet → ℕ
command_set nvm = 0
command_set only_io = 6
command_set only_admin = 7

pub data ArbitrationMechanism : Type 0 where
  round_robin weighted_round_robin vendor_specific : ArbitrationMechanism

abbrev pub arbitration : ArbitrationMechanism → ℕ
arbitration round_robin = 0
arbitration weighted_round_robin = 1
arbitration vendor_specific = 7

pub record CompletionQueueEntry : Type 0 where
  pub result : ℕ
  pub reserved : ℕ
  pub sq_head : ℕ
  pub sq_id : ℕ
  pub command_id : ℕ
  pub status : ℕ

pub record DataPointer : Type 0 where
  pub prp1 : ℕ
  pub prp2 : ℕ

-- The commands, without their reserved fields, which are 0.
pub record IdentifyCommand : Type 0 where
  pub opcode : ℕ
  pub flags : ℕ
  pub command_id : ℕ
  pub nsid : ℕ
  pub data_ptr : DataPointer
  pub cns : ℕ
  pub controller_id : ℕ

pub record CreateSqCommand : Type 0 where
  pub opcode : ℕ
  pub flags : ℕ
  pub command_id : ℕ
  pub prp1 : ℕ
  pub prp2 : ℕ
  pub sqid : ℕ
  pub q_size : ℕ
  pub sq_flags : ℕ
  pub cqid : ℕ

pub record CreateCqCommand : Type 0 where
  pub opcode : ℕ
  pub flags : ℕ
  pub command_id : ℕ
  pub prp1 : ℕ
  pub prp2 : ℕ
  pub cqid : ℕ
  pub q_size : ℕ
  pub cq_flags : ℕ
  pub irq_vector : ℕ

-- The members of the union that the driver makes; `blank` is the memory of a new queue, all zero.
pub data Command : Type 0 where
  blank : Command
  identify : IdentifyCommand → Command
  create_sq : CreateSqCommand → Command
  create_cq : CreateCqCommand → Command

-- `*(&mut command as *mut Command as *mut u16).offset(1) = id`
abbrev pub set_command_id : ℕ → Command → Command
set_command_id i blank = blank
set_command_id i (identify c) = identify (record c { command_id = i })
set_command_id i (create_sq c) = create_sq (record c { command_id = i })
set_command_id i (create_cq c) = create_cq (record c { command_id = i })

abbrev pub command_id : Command → ℕ
command_id blank = 0
command_id (identify c) = c.command_id
command_id (create_sq c) = c.command_id
command_id (create_cq c) = c.command_id
