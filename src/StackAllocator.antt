-- ===== src/StackAllocator.antt =====
-- kernel/src/stack_allocator.rs: a buffer of `SIZE` bytes that only ever hands out more of itself. A
-- pointer is given as an offset into the buffer.
use snek_os.Prelude.{
  ℕ, ◌+◌, ◌<◌, ◌≤◌, Option, none, some, List, [], ◌∷◌, leb, leb-true, leb-false, if◌then◌else◌, ◌≡◌,
  refl, ap, arith, dec_lt,
}

pub record StackAllocator : Type 0 where
  pub size : ℕ
  pub current : ℕ

unfoldable pub new : ℕ → StackAllocator
new size = record { size = size; current = 0 }

-- `allocate`: the offset and the length of the bytes; `none` is `AllocError`.
unfoldable pub allocate : StackAllocator → ℕ → Option (ℕ × ℕ) × StackAllocator
allocate a bytes =
    if leb a.size (a.current + bytes)
    then (none, a)
    else (some (a.current, bytes), record a { current = a.current + bytes })

-- `own`: the offset of the value; `none` is the failed `unwrap`.
unfoldable pub own : StackAllocator → ℕ → Option (ℕ × StackAllocator)
own a bytes = let (r, a') = allocate a bytes in elim r [ none ↦ none | some (p, _) ↦ some (p, a') ]

unfoldable pub deallocate : StackAllocator → ℕ → ℕ → StackAllocator
deallocate a ptr bytes = a

allocate-room :
    (a : StackAllocator) (bytes : ℕ)
    → a.current + bytes < a.size
    → allocate a bytes ≡ (some (a.current, bytes), record a { current = a.current + bytes })
unfolding allocate
allocate-room a bytes room = rw (leb-false a.size (a.current + bytes) room) refl

allocate-full :
    (a : StackAllocator) (bytes : ℕ) → a.size ≤ a.current + bytes → allocate a bytes ≡ (none, a)
unfolding allocate
allocate-full a bytes full = rw (leb-true a.size (a.current + bytes) full) refl

-- A buffer with room hands out the bytes behind those already used.
pub own-room :
    (a : StackAllocator) (bytes : ℕ)
    → a.current + bytes < a.size
    → own a bytes ≡ some (a.current, record a { current = a.current + bytes })
unfolding own
own-room a bytes room =
    let e = allocate-room a bytes room in rw (own, ap (λ p. p.0) e, ap (λ p. p.1) e) refl

-- One without fails.
pub own-full : (a : StackAllocator) (bytes : ℕ) → a.size ≤ a.current + bytes → own a bytes ≡ none
unfolding own
own-full a bytes full = rw (own, allocate-full a bytes full) refl

-- The regions that a sequence of requests is given, by offset and length.
unfoldable pub run : StackAllocator → List ℕ → List (ℕ × ℕ)
run a [] = []
run a (n ∷ ns) =
    let (r, a') = allocate a n in
    let rest = run a' ns in elim r [ none ↦ rest | some given ↦ given ∷ rest ]

-- Regions one behind the other, from `from` on and before `end`.
abbrev pub Consecutive : ℕ → ℕ → List (ℕ × ℕ) → Type 0
Consecutive from end [] = Unit {0}
Consecutive from end ((p, n) ∷ rs) = (p ≡ from) × (p + n < end) × Consecutive (p + n) end rs

-- Whatever is asked for, the regions handed out follow each other without a gap or an overlap, from the
-- current offset on, and end before the buffer does.
pub run-Consecutive :
    (a : StackAllocator) (requests : List ℕ) → Consecutive a.current a.size (run a requests)
unfolding run
run-Consecutive a [] = tt
run-Consecutive a (n ∷ ns) = elim (dec_lt (a.current + n) a.size) [
  | yes room ↦
      let e = allocate-room a n room in
      rw (run, ap (λ p. p.0) e, ap (λ p. p.1) e)
        (refl, room, run-Consecutive (record a { current = a.current + n }) ns)
  | no full ↦
      let e = allocate-full a n (omega (arith, full)) in
      rw (run, ap (λ p. p.0) e, ap (λ p. p.1) e) (run-Consecutive a ns)
]
