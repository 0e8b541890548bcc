-- ===== src/Memory/Regions.antt =====
-- The frames of a memory map (kernel/src/arch/x86_64/memory.rs, `BootInfoFrameAllocator::init`).
use snek_os.Prelude.{
  ℕ, zero, suc, ◌+◌, ◌*◌, ◌/◌, ◌%◌, ◌≤◌, ◌<◌, true, Bool-cases, List, [], ◌∷◌, ◌++◌, ◌≡◌, ◌≢◌, ◌⊎◌,
  inl, inr, refl, arith, All, Distinct, All-map,
}
use snek_os.Memory.{page_size, align_down, Region, step_by, region_frames, usable_frames}

-- A memory map in the order of its addresses, without overlaps, from `from` on, in whole pages.
abbrev pub IsMap : ℕ → List Region → Type 0
IsMap from [] = Unit {0}
IsMap from (r ∷ rs) =
    (from ≤ r.base)
    × ((r.base % page_size ≡ 0) × ((r.len % page_size ≡ 0) × IsMap (r.base + r.len) rs))

-- The frame is a page of a usable region.
abbrev pub IsInside : List Region → ℕ → Type 0
IsInside [] f = ⊥
IsInside (r ∷ rs) f =
    ((r.usable ≡ true) × (f % page_size ≡ 0) × (r.base ≤ f) × (f + page_size ≤ r.base + r.len))
    ⊎ IsInside rs f

append-All : (P : ℕ → Type 0) (xs ys : List ℕ) → All P xs → All P ys → All P (xs ++ ys)
append-All P [] ys p q = q
append-All P (x ∷ xs) ys p q = (p.0, append-All P xs ys p.1 q)

-- Lists on the two sides of a bound have nothing in common.
append-Distinct :
    (xs ys : List ℕ) (bound : ℕ)
    → All (λ x. x < bound) xs
    → All (λ y. bound ≤ y) ys
    → Distinct xs
    → Distinct ys
    → Distinct (xs ++ ys)
append-Distinct [] ys bound low high dx dy = dy
append-Distinct (x ∷ xs) ys bound low high dx dy = (
  append-All (λ y. y ≢ x) xs ys dx.0
      (All-map (λ y. y ≢ x) (λ y (h : bound ≤ y) e. omega (arith, h, e, low.0)) ys high),
  append-Distinct xs ys bound low.1 high dx.1 dy,
)

step_by-bounds :
    (base n : ℕ)
    → base % page_size ≡ 0
    → All
        (λ f. (f % page_size ≡ 0) × (base ≤ f) × (f + page_size ≤ base + page_size * n))
        (step_by base n)
unfolding step_by
step_by-bounds base zero al = tt
step_by-bounds base (suc n) al = (
  (omega arith, omega arith, omega arith),
  All-map (λ f. (f % page_size ≡ 0) × (base ≤ f) × (f + page_size ≤ base + page_size * suc n))
      (λ f
          (h : (f % page_size ≡ 0)
            × (base + page_size ≤ f)
            × (f + page_size ≤ base + page_size + page_size * n)).
        (h.0, omega (arith, h.1), omega (arith, h.2)))
      (step_by (base + page_size) n) (step_by-bounds (base + page_size) n (omega arith)),
)

step_by-Distinct : (base n : ℕ) → base % page_size ≡ 0 → Distinct (step_by base n)
unfolding step_by
step_by-Distinct base zero al = tt
step_by-Distinct base (suc n) al = (
  All-map (λ f. f ≢ align_down base)
      (λ f
          (h : (f % page_size ≡ 0)
            × (base + page_size ≤ f)
            × (f + page_size ≤ base + page_size + page_size * n))
          e.
        omega (arith, h.1, e))
      (step_by (base + page_size) n) (step_by-bounds (base + page_size) n (omega arith)),
  step_by-Distinct (base + page_size) n (omega arith),
)

-- The frames of one region, usable or not.
frames-bounds :
    (r : Region)
    → r.base % page_size ≡ 0
    → r.len % page_size ≡ 0
    → All
        (λ f.
          (r.usable ≡ true) × (f % page_size ≡ 0) × (r.base ≤ f) × (f + page_size ≤ r.base + r.len))
        (region_frames r)
      × Distinct (region_frames r)
frames-bounds r ab al = elim (Bool-cases r.usable) [
  | inr no_use ↦ rw no_use (tt, tt)
  | inl usable ↦
      let n = (r.len + 4095) / page_size in
      rw usable (
        All-map
            (λ f.
              (true ≡ true) × (f % page_size ≡ 0) × (r.base ≤ f) × (f + page_size ≤ r.base + r.len))
            (λ f
                (h : (f % page_size ≡ 0) × (r.base ≤ f) × (f + page_size ≤ r.base + page_size * n)).
              (refl, h.0, h.1, omega (arith, h.2, al)))
            (step_by r.base n) (step_by-bounds r.base n ab),
        step_by-Distinct r.base n ab,
      )
]

usable_frames-above :
    (from : ℕ) (rs : List Region) → IsMap from rs → All (λ f. from ≤ f) (usable_frames rs)
unfolding usable_frames
usable_frames-above from [] h = tt
usable_frames-above from (r ∷ rs) h =
    append-All (λ f. from ≤ f) (region_frames r) (usable_frames rs)
      (All-map (λ f. from ≤ f)
        (λ f
            (b : (r.usable ≡ true)
              × (f % page_size ≡ 0)
              × (r.base ≤ f)
              × (f + page_size ≤ r.base + r.len)).
          omega (arith, h.0, b.2))
        (region_frames r) (frames-bounds r h.1.0 h.1.1.0).0)
      (All-map (λ f. from ≤ f) (λ f (b : r.base + r.len ≤ f). omega (arith, h.0, b))
        (usable_frames rs) (usable_frames-above (r.base + r.len) rs h.1.1.1))

-- The frames that the allocator starts with are pages of usable regions, and no two are the same, where
-- the memory map is in order, without overlaps, and in whole pages.
pub usable_frames-Distinct :
    (from : ℕ) (rs : List Region)
    → IsMap from rs
    → All (IsInside rs) (usable_frames rs) × Distinct (usable_frames rs)
unfolding usable_frames
usable_frames-Distinct from [] h = (tt, tt)
usable_frames-Distinct from (r ∷ rs) h =
    let (own, distinct) = frames-bounds r h.1.0 h.1.1.0 in
    let (rest, rest_distinct) = usable_frames-Distinct (r.base + r.len) rs h.1.1.1 in
    (
      append-All (IsInside (r ∷ rs)) (region_frames r) (usable_frames rs)
          (All-map (IsInside (r ∷ rs)) (λ f b. inl b) (region_frames r) own)
          (All-map (IsInside (r ∷ rs)) (λ f b. inr b) (usable_frames rs) rest),
      append-Distinct (region_frames r) (usable_frames rs) (r.base + r.len)
          (All-map (λ f. f < r.base + r.len)
            (λ f
                (b : (r.usable ≡ true)
                  × (f % page_size ≡ 0)
                  × (r.base ≤ f)
                  × (f + page_size ≤ r.base + r.len)).
              omega (arith, b.3))
            (region_frames r) own)
          (usable_frames-above (r.base + r.len) rs h.1.1.1) distinct rest_distinct,
    )
