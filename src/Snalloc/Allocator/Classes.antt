-- ===== src/Snalloc/Allocator/Classes.antt =====
-- Which allocator serves a request (crates/snalloc/src/lib.rs, `Inner::slab`).
use snek_os.Prelude.{
  ℕ, zero, suc, ◌≤◌, ◌<◌, Bool-cases, none, some, List, [], ◌∷◌, map, get_elem?, take, leb, leb→le,
  ◌≡◌, ◌⊎◌, ◌↔◌, ◌∙◌, sym, inl, inr, refl, arith, All,
}
use snek_os.Snalloc.Slab.{Layout, Slab}
use snek_os.Snalloc.Allocator.{Fallback, Inner, sizes, find, needed, slab}
use mathlib.Core.Path.{subst}
use mathlib.Core.Option.{some-injective, none-ne-some}

-- The slab at the index serves `n` bytes, and those before it are too small.
abbrev pub IsFirst : ℕ → List Slab → ℕ → Type 0
IsFirst n ss i =
    (s : Slab) × (get_elem? ss i ≡ some s) × (n ≤ s.size) × All (λ t. t.size < n) (take i ss)

-- `find` yields the first slab that is large enough, and none exactly where all are too small.
pub find_lem :
    (n : ℕ) (ss : List Slab)
    → ((i : ℕ) × (find n ss ≡ some i) × IsFirst n ss i)
      ⊎ (find n ss ≡ none) × All (λ t. t.size < n) ss
unfolding find
find_lem n [] = inr (refl, tt)
find_lem n (s ∷ ss) = elim (Bool-cases (leb n s.size)) [
  | inl fits ↦ inl (0, rw fits, (s, refl, leb→le n s.size fits, tt))
  | inr small ↦ elim (find_lem n ss) [
    | inl (i, e, (t, at, fits, before)) ↦
        inl (suc i, rw (small, e), (t, at, fits, (ground arith, before)))
    | inr (e, all) ↦ inr (rw (small, e), (ground arith, all))
  ]
]

sizes-All :
    (P : ℕ → Type 0) (ss : List Slab)
    → All (λ t. P t.size) ss
    → All P (map (λ (s : Slab). s.size) ss)
sizes-All P [] all = tt
sizes-All P (s ∷ ss) (p, all) = (p, sizes-All P ss all)

size-All :
    (P : ℕ → Type 0) (ss : List Slab) (i : ℕ) (s : Slab)
    → All P (map (λ (s : Slab). s.size) ss)
    → get_elem? ss i ≡ some s
    → P s.size
size-All P [] i s all at = absurd (none-ne-some s at)
size-All P (x ∷ ss) zero s (p, all) at = subst (λ t. P t.size) (some-injective x s at) p
size-All P (x ∷ ss) (suc i) s (p, all) at = size-All P ss i s all at

-- The seven sizes in their order.
abbrev pub IsShaped : {fb : Fallback} → Inner fb → Type 0
IsShaped a = map (λ (s : Slab). s.size) a.slabs ≡ sizes

-- Of seven slabs in their order, none serves a request exactly where it needs more than 2048 bytes.
pub slab-none_iff :
    {fb : Fallback} (a : Inner fb) (layout : Layout)
    → IsShaped a
    → (slab a layout ≡ none) ↔ (2048 < needed layout)
unfolding slab
slab-none_iff a layout shape = elim (find_lem (needed layout) a.slabs) [
  | inl (i, e, (s, at, fits, _)) ↦
      let small =
        size-All (λ m. m ≤ 2048) a.slabs i s (subst (All (λ m. m ≤ 2048)) (sym shape) ground arith)
          at in
      (λ no. absurd (none-ne-some i (sym no ∙ e)), λ large. ground arith)
  | inr (e, all) ↦
      let large =
        subst (All (λ m. m < needed layout)) shape
          (sizes-All (λ m. m < needed layout) a.slabs all) in
      (λ _. large.1.1.1.1.1.1.0, λ _. e)
]
