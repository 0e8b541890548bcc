-- ===== src/Nvme/Phase.antt =====
-- Where a queue looks for its answers (kernel/src/drivers/nvme.rs, `QueuePair`).
use snek_os.Prelude.{
  ℕ, zero, suc, ◌+◌, ◌*◌, ◌%◌, ◌<◌, Bool, true, not, List, [], ◌∷◌, ◌≡◌, ◌⊎◌, inl, inr, refl, ap,
  ◌∙◌, arith, if◌then◌else◌, ◌==◌, length, length-set, length-replicate, replicate, u16,
}
use native.Mathlib.Nat.{zero-mul, suc-mul, mod_self, mod-eq_of_lt}
use snek_os.Prelude.Effect.{ok}
use snek_os.Nvme.{Command, blank, set_command_id}
use snek_os.Nvme.Queue.{Hw, World, QueuePair, advance, enqueue, new}

-- The queue after commands that all succeed .
abbrev pub served : List Command → QueuePair → QueuePair
served [] q = q
served (c ∷ cs) q = served cs (advance (enqueue c q))

abbrev pub is_even : ℕ → Bool
is_even zero = true
is_even (suc n) = not (is_even n)

-- A queue of `n` entries after `r` rounds through it and `i` commands more.
pub record IsAt (n r i : ℕ) (q : QueuePair) : Type 0 where
  pub within : i < n
  pub submission_length : length q.submission ≡ n
  pub completion_length : q.completion_length ≡ n
  pub submission_index : q.submission_index ≡ i
  pub completion_index : q.completion_index ≡ i
  pub phase : q.phase ≡ is_even r
  pub command_id : q.command_id ≡ u16 (r * n + i)

lt_or_last : (i n : ℕ) → i < n → (i + 1 < n) ⊎ (i + 1 ≡ n)
lt_or_last i n h = omega arith

wraps : (i n : ℕ) → i + 1 ≡ n → (i + 1) % n ≡ 0
wraps i n e = ap (λ m. m % n) e ∙ mod_self n

count : (r n i c : ℕ) → c ≡ u16 (r * n + i) → u16 (c + 1) ≡ u16 (r * n + (i + 1))
count r n i c e = omega arith

count_round : (r n i c : ℕ) → i + 1 ≡ n → c ≡ u16 (r * n + i) → u16 (c + 1) ≡ u16 (suc r * n + 0)
count_round r n i c last e = omega (arith, suc-mul r n)

zero_test : (b : Bool) (n : ℕ) → n ≡ 0 → (if n == 0 then not b else b) ≡ not b
zero_test b n e = ground arith

suc_test : (b : Bool) (n i : ℕ) → n ≡ i + 1 → (if n == 0 then not b else b) ≡ b
suc_test b n i e = ground arith

-- The queue moves on by one entry, and to a new round behind the last one.
step-IsAt :
    (n r i : ℕ) (c : Command) (q : QueuePair)
    → IsAt n r i q
    → (r' : ℕ) × (i' : ℕ) × (r' * n + i' ≡ suc (r * n + i)) × IsAt n r' i' (advance (enqueue c q))
step-IsAt n r i c q at =
    let len =
      length-set q.submission q.submission_index (set_command_id q.command_id c)
      ∙ at.submission_length in
    let sub : (q.submission_index + 1) % length q.submission ≡ (i + 1) % n =
      rw (at.submission_index, at.submission_length) refl in
    let done : (q.completion_index + 1) % q.completion_length ≡ (i + 1) % n =
      rw (at.completion_index, at.completion_length) refl in
    elim (lt_or_last i n at.within) [
      | inl lt ↦
          let same = mod-eq_of_lt lt in
          (
            r,
            i + 1,
            omega arith,
            record {
              within = lt;
              submission_length = len;
              completion_length = at.completion_length;
              submission_index = sub ∙ same;
              completion_index = done ∙ same;
              phase =
                  suc_test q.phase ((q.completion_index + 1) % q.completion_length) i (done ∙ same)
                  ∙ at.phase;
              command_id = count r n i q.command_id at.command_id;
            },
          )
      | inr last ↦
          let back = wraps i n last in
          (
            suc r,
            0,
            omega (arith, suc-mul r n, last),
            record {
              within = omega (arith, at.within);
              submission_length = len;
              completion_length = at.completion_length;
              submission_index = sub ∙ back;
              completion_index = done ∙ back;
              phase =
                  zero_test q.phase ((q.completion_index + 1) % q.completion_length) (done ∙ back)
                  ∙ ap not at.phase;
              command_id = count_round r n i q.command_id last at.command_id;
            },
          )
    ]

run-IsAt :
    (n r i : ℕ) (cs : List Command) (q : QueuePair)
    → IsAt n r i q
    → (r' : ℕ) × (i' : ℕ) × (r' * n + i' ≡ r * n + i + length cs) × IsAt n r' i' (served cs q)
run-IsAt n r i [] q at = (r, i, omega arith, at)
run-IsAt n r i (c ∷ cs) q at =
    let (r', i', e, at') = step-IsAt n r i c q at in
    let (r'', i'', e', at'') = run-IsAt n r' i' cs (advance (enqueue c q)) at' in
    (r'', i'', omega (arith, e, e'), at'')

module _ (hw : Hw) where
  -- A queue of `n` entries, `n` other than 0, that was made by `new`: after any commands that succeeded,
  -- `r` rounds of `n` and `i` more, the next command goes to entry `i`, with the count of the commands in
  -- 16 bits as its number, and its answer is looked for in entry `i`, with the phase set if `r` is even.
  -- That is where a controller that goes round the entries, and inverts the phase in every round, puts it.
  pub new-IsAt :
      (n : ℕ) (cs : List Command) (w : World hw)
      → 0 < n
      → (q : QueuePair) × (w' : World hw) × (r : ℕ) × (i : ℕ) × (new n w ≡ (ok q, w'))
        × (r * n + i ≡ length cs)
        × IsAt n r i (served cs q)
  unfolding new
  new-IsAt n cs w lt =
      let start : QueuePair = record {
        queue_id = w.next_queue_id;
        command_id = 0;
        submission_at = w.next_dma;
        submission = replicate n blank;
        submission_index = 0;
        completion_at = w.next_dma + n * 64;
        completion_length = n;
        completion_index = 0;
        phase = true;
      } in
      let at : IsAt n 0 0 start = record {
        within = lt;
        submission_length = length-replicate n blank;
        completion_length = refl;
        submission_index = refl;
        completion_index = refl;
        phase = refl;
        command_id = omega (arith, zero-mul n);
      } in
      let (r, i, e, at') = run-IsAt n 0 0 cs start at in
      (
        start,
        record w { next_queue_id = w.next_queue_id + 1; next_dma = w.next_dma + n * 64 + n * 16 },
        r,
        i,
        refl,
        omega (arith, e, zero-mul n),
        at',
      )
