-- ===== src/Nvme/Tests.antt =====
-- A queue of a controller at concrete answers (kernel/src/drivers/nvme.rs).
use snek_os.Prelude.{ℕ, ◌+◌, ◌*◌, ◌≡◌, refl, arith, List, [], ◌∷◌, true, none, replicate}
use snek_os.Prelude.Effect.{ok, err}
use snek_os.Nvme.{command_error, CompletionQueueEntry, Command, blank}
use snek_os.Nvme.Queue.{Hw, World, QueuePair, new}
use snek_os.Nvme.Controller.{identify_command, measure, measured}
use snek_os.Nvme.Submit.{submit_all, submit_all-Stale}
use snek_os.Nvme.Phase.{IsAt, served, new-IsAt}

-- A controller that answers every command with this status.
abbrev entry : ℕ → CompletionQueueEntry
entry status = record {
  result = 0;
  reserved = 0;
  sq_head = 1;
  sq_id = 0;
  command_id = 0;
  status = status;
}

abbrev hw : ℕ → Hw
hw status = record {
  Card = List (ℕ × ℕ);
  read = λ c r. (0, c);
  write = λ c r v. (r, v) ∷ c;
  completion = λ c a i. (entry status, c);
}

abbrev world : (status : ℕ) → World (hw status)
world status = record { card = []; next_queue_id = 0; next_dma = 0 }

abbrev pair : QueuePair
pair = record {
  queue_id = 0;
  command_id = 0;
  submission_at = 0;
  submission = replicate 2 blank;
  submission_index = 0;
  completion_at = 128;
  completion_length = 2;
  completion_index = 0;
  phase = true;
}

abbrev ask : Command
ask = identify_command 0 0 1 4096

submit_all-Stale_example :
    (submit_all (hw 5) 1 (ask ∷ ask ∷ ask ∷ []) pair (world 5)).0
    ≡ err (command_error 2) ∷ err (command_error 2) ∷ err (command_error 2) ∷ []
submit_all-Stale_example =
    submit_all-Stale (hw 5) 0 (ask ∷ ask ∷ ask ∷ []) pair (entry 5) (world 5)
      (omega arith, refl, (λ e. omega (arith, e)), λ c. refl)

new-IsAt_example :
    (q : QueuePair) × (w' : World (hw 1)) × (r : ℕ) × (i : ℕ) × (new 2 (world 1) ≡ (ok q, w'))
    × (r * 2 + i ≡ 3)
    × IsAt 2 r i (served (ask ∷ ask ∷ ask ∷ []) q)
new-IsAt_example = new-IsAt (hw 1) 2 (ask ∷ ask ∷ ask ∷ []) (world 1) (omega arith)

-- A namespace whose metadata stands at the end of each block, which is bit 4 of `FLBAS`.
measure-metadata : measure 20 (record { nsze = 8; flbas = 16; lbaf_ds = replicate 16 9 }) ≡ none
unfolding measure measured
measure-metadata = refl
