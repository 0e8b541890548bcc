-- ===== src/Nvme/Submit.antt =====
-- How a submission ends, and what a queue makes of many (kernel/src/drivers/nvme.rs, `QueuePair::submit`).
use snek_os.Prelude.{
  ℕ, zero, suc, ◌+◌, ◌*◌, ◌%◌, ◌<◌, Bool-cases, true, false, List, [], ◌∷◌, ◌≡◌, ◌≢◌, ◌⊎◌, inl, inr,
  refl, sym, ap, ◌∙◌, arith, ◌==◌, lt→ltb, map, length, length-set, shr, shl, u32, bit_and,
}
use mathlib.Core.Path.{subst}
use native.Mathlib.Nat.{mod-lt}
use snek_os.Prelude.Effect.{Outcome, ok, err, panic, no_fuel}
use snek_os.Nvme.{
  Error, command_error, flag, get, dstrd, CompletionQueueEntry, Command, set_command_id,
}
use snek_os.Nvme.Queue.{
  Hw, World, QueuePair, advance, enqueue, set_doorbell, await_completion, finish, submit,
}

eqb_eq : (a b : ℕ) → (a == b) ≡ true → a ≡ b
eqb_eq a b e = ground arith

eqb_ne : (a b : ℕ) → (a == b) ≡ false → a ≢ b
eqb_ne a b e = ground arith

module _ (hw : Hw) where
  -- The entry that the queue waits for carries its phase within the reads given.
  abbrev pub Answers : QueuePair → ℕ → hw.Card → Type 0
  Answers q zero c = ⊥
  Answers q (suc n) c =
      (bit_and (hw.completion c q.completion_at q.completion_index).0.status 1 ≡ flag q.phase)
      ⊎ Answers q n (hw.completion c q.completion_at q.completion_index).1

  -- The controller after a doorbell was rung.
  abbrev pub rung : ℕ → ℕ → ℕ → hw.Card → hw.Card
  rung queue_id doorbell index c =
      let (cap, c') = hw.read c 0 in
      hw.write c' (0x1000 + (queue_id * 2 + doorbell) * shl 4 (get dstrd cap)) index

  -- The queue and the controller after the submission of a command.
  abbrev pub submitted : Command → QueuePair → hw.Card → hw.Card
  submitted command q c = rung q.queue_id 0 (u32 (enqueue command q).submission_index) c

  await_completion-ends :
      (q : QueuePair) (fuel : ℕ) (w : World hw)
      → Answers q fuel w.card
      → (c : hw.Card) × (await_completion q fuel w ≡ (ok tt, record w { card = c }))
  unfolding await_completion
  await_completion-ends q zero w h = absurd h
  await_completion-ends q (suc fuel) w h =
      let (e, c) = hw.completion w.card q.completion_at q.completion_index in
      elim (Bool-cases (bit_and e.status 1 == flag q.phase)) [
        | inl now ↦ (c, rw now refl)
        | inr later ↦ elim h [
          | inl eq ↦ absurd (eqb_ne (bit_and e.status 1) (flag q.phase) later eq)
          | inr rest ↦
              let (c', eq) = await_completion-ends q fuel (record w { card = c }) rest in
              (c', rw (later, eq) refl)
        ]
      ]

  -- What `submit` makes of the entry that it reads last, by its status.
  abbrev pub Answered :
      Command
      → QueuePair
      → World hw
      → CompletionQueueEntry × hw.Card
      → Outcome Error (Outcome Error CompletionQueueEntry × QueuePair) × World hw
      → Type 0
  Answered command q w (e, c) r =
      ((shr e.status 1 ≡ 0)
        × (r ≡ (
          ok (ok e, advance (enqueue command q)),
          record w {
            card = rung q.queue_id 1 (u32 (advance (enqueue command q)).completion_index) c;
          },
        )))
      ⊎ ((shr e.status 1 ≢ 0)
          × (r ≡ (
            ok (err (command_error (shr e.status 1)), enqueue command q),
            record w { card = c },
          )))

  pub submit-ends :
      (fuel : ℕ) (command : Command) (q : QueuePair) (w : World hw)
      → q.submission_index < length q.submission
      → Answers (enqueue command q) fuel (submitted command q w.card)
      → (c : hw.Card) × Answered command q w
          (hw.completion c q.completion_at q.completion_index)
          (submit fuel command q w)
  unfolding submit set_doorbell finish
  submit-ends fuel command q w room h =
      let q' = enqueue command q in
      let (c, eq) =
        await_completion-ends q' fuel (record w { card = submitted command q w.card }) h in
      let (e, c') = hw.completion c q'.completion_at q'.completion_index in
      let fits = lt→ltb q.submission_index (length q.submission) room in
      elim (Bool-cases (shr e.status 1 == 0)) [
        | inl good ↦ (c, inl (eqb_eq (shr e.status 1) 0 good, rw (fits, eq, good) refl))
        | inr bad ↦ (c, inr (eqb_ne (shr e.status 1) 0 bad, rw (fits, eq, bad) refl))
      ]

  -- The commands one after another, as long as they succeed: the answers of all, and the queue.
  abbrev continued :
      Outcome Error (Outcome Error CompletionQueueEntry × QueuePair) × World hw
      → (QueuePair → World hw → List (Outcome Error CompletionQueueEntry) × QueuePair × World hw)
      → QueuePair
      → List (Outcome Error CompletionQueueEntry) × QueuePair × World hw
  continued (ok (r, q), w) f q0 = let (rs, q', w') = f q w in (r ∷ rs, q', w')
  continued (err e, w) f q0 = ([], q0, w)
  continued (panic, w) f q0 = ([], q0, w)
  continued (no_fuel, w) f q0 = ([], q0, w)

  abbrev pub submit_all :
      ℕ
      → List Command
      → QueuePair
      → World hw
      → List (Outcome Error CompletionQueueEntry) × QueuePair × World hw
  submit_all fuel [] q w = ([], q, w)
  submit_all fuel (c ∷ cs) q w = continued (submit fuel c q w) (submit_all fuel cs) q

  -- After an error, if the controller leaves the entry as it is.
  abbrev pub Stale : QueuePair → CompletionQueueEntry → Type 0
  Stale q e =
      (q.submission_index < length q.submission)
      × (bit_and e.status 1 ≡ flag q.phase)
      × (shr e.status 1 ≢ 0)
      × ((c : hw.Card) → (hw.completion c q.completion_at q.completion_index).0 ≡ e)

  submit-Stale :
      (fuel : ℕ) (command : Command) (q : QueuePair) (e : CompletionQueueEntry) (w : World hw)
      → Stale q e
      → (w' : World hw) × (submit (suc fuel) command q w
          ≡ (ok (err (command_error (shr e.status 1)), enqueue command q), w'))
        × Stale (enqueue command q) e
  submit-Stale fuel command q e w (room, phase, bad, stays) =
      let q' = enqueue command q in
      let first = ap (λ x. bit_and x.status 1) (stays (submitted command q w.card)) ∙ phase in
      let len = length-set q.submission q.submission_index (set_command_id q.command_id command) in
      let (c, ends) = submit-ends (suc fuel) command q w room (inl first) in
      let e' = (hw.completion c q.completion_at q.completion_index).0 in
      let same : shr e'.status 1 ≡ shr e.status 1 = ap (λ x. shr x.status 1) (stays c) in
      elim ends [
        | inl (good, r) ↦ absurd (bad (sym same ∙ good))
        | inr (still_bad, r) ↦ (
          record w { card = (hw.completion c q.completion_at q.completion_index).1 },
          rw r (rw same refl),
          (
            subst (λ n. (q.submission_index + 1) % length q.submission < n) (sym len)
                (mod-lt (q.submission_index + 1) (omega arith)),
            phase,
            bad,
            stays,
          ),
        )
      ]

  -- As long as the controller leaves the entry of a failed command as it is, every later command reports
  -- the error of that one, at the first look.
  pub submit_all-Stale :
      (fuel : ℕ) (commands : List Command) (q : QueuePair) (e : CompletionQueueEntry) (w : World hw)
      → Stale q e
      → (submit_all (suc fuel) commands q w).0
        ≡ map (λ c. err (command_error (shr e.status 1))) commands
  submit_all-Stale fuel [] q e w stale = refl
  submit_all-Stale fuel (c ∷ cs) q e w stale =
      let (w', eq, stale') = submit-Stale fuel c q e w stale in
      rw eq (
        ap (λ rs. err (command_error (shr e.status 1)) ∷ rs)
          (submit_all-Stale fuel cs (enqueue c q) e w' stale'))
