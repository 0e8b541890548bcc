-- ===== src/Input/Tests.antt =====
-- A key that arrives between the two looks at the queue (kernel/src/drivers/i8042.rs).
use mathlib.Core.Bool.{false≢true}
use mathlib.Core.Option.{some-injective}
use snek_os.Prelude.{
  ℕ, Bool, true, false, List, [], ◌∷◌, ◌++◌, Option, none, some, if◌then◌else◌, ltb, length,
  Bool-cases, ap, ◌≡◌, ◌⊎◌, inl, inr, refl, sym,
}
use snek_os.Input.{Crates, Channel, pending, takes, wakes, advance, handle}
use snek_os.Input.Steps.{Laws, view, is_wakes, got, Reach, inits, polls, handles, interrupts}
use snek_os.Input.Wakes.{Reach-awake}
use snek_os.Input.Order.{Reach-in_order}

-- A queue is its capacity and its elements.
abbrev push : ℕ → ℕ × List ℕ → Bool × (ℕ × List ℕ)
push a (n, xs) = if ltb (length xs) n then (true, (n, xs ++ a ∷ [])) else (false, (n, xs))

abbrev pop : ℕ × List ℕ → Option ℕ × (ℕ × List ℕ)
pop (n, []) = (none, (n, []))
pop (n, x ∷ xs) = (some x, (n, xs))

abbrev crates : Crates ℕ
crates = record {
  ArrayQueue = ℕ × List ℕ;
  new = λ n. (n, []);
  push = push;
  pop = pop;
  AtomicWaker = Option ℕ;
  new_waker = none;
  register = λ task w. some task;
  wake = λ w. (w, none);
  take = λ w. none;
}

push-room : (a : ℕ) (q : ℕ × List ℕ) → (push a q).0 ≡ true → (push a q).1.1 ≡ q.1 ++ a ∷ []
push-room a (n, xs) = elim (Bool-cases (ltb (length xs) n)) [
  | inl room ↦ rw room λ _. refl
  | inr full ↦ rw full λ ok. absurd (false≢true ok)
]

push-full : (a : ℕ) (q : ℕ × List ℕ) → (push a q).0 ≡ false → (push a q).1.1 ≡ q.1
push-full a (n, xs) = elim (Bool-cases (ltb (length xs) n)) [
  | inl room ↦ rw room λ err. absurd (false≢true (sym err))
  | inr full ↦ rw full λ _. refl
]

pop-empty : (q : ℕ × List ℕ) → (pop q).0 ≡ none → (q.1 ≡ []) × ((pop q).1.1 ≡ [])
pop-empty (n, []) eq = (refl, refl)
pop-empty (n, x ∷ xs) eq = cc eq

pop-first : (a : ℕ) (q : ℕ × List ℕ) → (pop q).0 ≡ some a → q.1 ≡ a ∷ (pop q).1.1
pop-first a (n, []) eq = cc eq
pop-first a (n, x ∷ xs) eq = ap (λ y. y ∷ xs) (some-injective x a eq)

laws : Laws crates
laws = record {
  contents = λ q. q.1;
  contents-new = λ n. refl;
  push-room = push-room;
  push-full = push-full;
  pop-empty = pop-empty;
  pop-first = pop-first;
  registered = λ w. w;
  register-registered = λ task w. refl;
  wake-registered = λ w. refl;
}

-- The queue, and the waker of task 7.
abbrev channel : List ℕ → Option ℕ → Channel crates
channel xs w = record { queue = some (32, xs); waker = w }

-- Key 5 arrives while task 7 waits.
waits-Reach : Reach crates 7 (5 ∷ []) [] pending wakes (channel (5 ∷ []) (some 7)) false
unfolding advance handle
waits-Reach = handles (interrupts 5 (polls (polls (polls inits))))

-- Key 5 arrives between the two looks at the queue of the poll of task 7.
meets-Reach : Reach crates 7 (5 ∷ []) [] (takes 5) wakes (channel [] (some 7)) false
unfolding advance handle
meets-Reach = polls (polls (handles (interrupts 5 (polls inits))))

Reach-awake_example :
    ((false ≡ true) ⊎ (◌≡◌ {A = Option ℕ} (some 7) (some 7)))
    × ((view crates laws (some (32, 5 ∷ [])) ≡ [])
        ⊎ (false ≡ true)
        ⊎ (is_wakes {A = ℕ} wakes ≡ true))
unfolding laws
Reach-awake_example = Reach-awake crates laws 7 waits-Reach

Reach-in_order_example :
    5 ∷ [] ≡ [] ++ got crates (takes 5) ++ view crates laws (channel [] (some 7)).queue
unfolding laws
Reach-in_order_example = Reach-in_order crates laws 7 meets-Reach
