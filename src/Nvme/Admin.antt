-- ===== src/Nvme/Admin.antt =====
-- The size of the admin queue that the controller is told (kernel/src/drivers/nvme.rs,
-- `set_admin_queue_attributes` and `QueuePair::new`).
use snek_os.Prelude.{
  ℕ, ◌+◌, ◌*◌, ◌<◌, ◌≤◌, ◌≡◌, ◌⊎◌, inl, inr, refl, sym, ◌∙◌, arith, true, length, length-replicate,
  lt→ltb, ltb-false, replicate,
}
use snek_os.Prelude.Effect.{ok, panic}
use snek_os.Nvme.{asqs, acqs, get, put, blank}
use snek_os.Nvme.Queue.{Hw, World, QueuePair, new, set_admin_queue_attributes}

-- The two fields of the register.
both : (size : ℕ) → size < 4096 → get asqs (put acqs size (put asqs size 0)) ≡ size
both size lt = omega arith

both' : (size : ℕ) → size < 4096 → get acqs (put acqs size (put asqs size 0)) ≡ size
both' size lt = omega arith

module _ (hw : Hw) where
  -- Below 4096 entries, the register for the admin queue names as the last entry of either queue one
  -- that lies behind the last of those that the queue has; from 4096 on, setting it panics.
  pub set_admin_queue_attributes-last :
      (size : ℕ) (w : World hw)
      → (q : QueuePair) × (w1 : World hw) × (new size w ≡ (ok q, w1))
        × ((4096 ≤ size) × (set_admin_queue_attributes size size w1 ≡ (panic, w1))
            ⊎ ((size < 4096)
                × (v : ℕ) × (set_admin_queue_attributes size size w1
                    ≡ (ok tt, record w1 { card = hw.write w1.card 0x24 v }))
                × (get asqs v ≡ length q.submission)
                × (get acqs v ≡ q.completion_length)))
  unfolding new set_admin_queue_attributes
  set_admin_queue_attributes-last size w =
      let q : QueuePair = record {
        queue_id = w.next_queue_id;
        command_id = 0;
        submission_at = w.next_dma;
        submission = replicate size blank;
        submission_index = 0;
        completion_at = w.next_dma + size * 64;
        completion_length = size;
        completion_index = 0;
        phase = true;
      } in
      let small_or_large : (size < 4096) ⊎ (4096 ≤ size) = omega arith in
      (
        q,
        record w {
          next_queue_id = w.next_queue_id + 1;
          next_dma = w.next_dma + size * 64 + size * 16;
        },
        refl,
        elim small_or_large [
          | inl lt ↦ inr (
            lt,
            put acqs size (put asqs size 0),
            rw (lt→ltb size 4096 lt) refl,
            both size lt ∙ sym (length-replicate size blank),
            both' size lt,
          )
          | inr le ↦ inl (le, rw (ltb-false size 4096 le) refl)
        ],
      )
