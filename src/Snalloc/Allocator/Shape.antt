-- ===== src/Snalloc/Allocator/Shape.antt =====
-- The slabs keep their sizes (crates/snalloc/src/lib.rs, `Allocator::alloc` and `dealloc`).
use snek_os.Prelude.{
  ℕ, zero, suc, none, some, List, [], ◌∷◌, map, get_elem?, set, ◌==◌, Bool-cases, ◌≡◌, ◌∙◌, sym,
  inl, inr, refl, ap, arith,
}
use snek_os.Snalloc.Slab
use snek_os.Snalloc.Slab.{Layout, Slab, Memory}
use snek_os.Snalloc.Allocator.{Fallback, Inner, needed, slab, alloc, dealloc}
use snek_os.Snalloc.Allocator.Classes.{IsShaped, find_lem}

map-set :
    (ss : List Slab) (i : ℕ) (s t : Slab)
    → get_elem? ss i ≡ some s
    → t.size ≡ s.size
    → map (λ (s : Slab). s.size) (set ss i t) ≡ map (λ (s : Slab). s.size) ss
map-set [] i s t at e = refl
map-set (x ∷ ss) zero s t at e =
    ap (λ n. n ∷ map (λ (s : Slab). s.size) ss)
      (e ∙ ap (λ o. elim o [ none ↦ 0 | some y ↦ y.size ]) (sym at))
map-set (x ∷ ss) (suc i) s t at e = ap (λ l. x.size ∷ l) (map-set ss i s t at e)

alloc-size : (s : Slab) (mem : Memory) (layout : Layout) → (Slab.alloc s mem layout).1.size ≡ s.size
unfolding Slab.alloc
alloc-size s mem layout = ground arith

dealloc-size :
    (s : Slab) (mem : Memory) (p : ℕ) (layout : Layout)
    → (Slab.dealloc s mem p layout).0.size ≡ s.size
unfolding Slab.dealloc
dealloc-size s mem p layout = refl

-- Whatever is allocated or released, the slabs keep their sizes and their order.
pub alloc-dealloc-IsShaped :
    {fb : Fallback} (a : Inner fb) (mem : Memory) (ptr : ℕ) (layout : Layout)
    → IsShaped a
    → IsShaped (alloc a mem layout).1 × IsShaped (dealloc a mem ptr layout).0
unfolding alloc dealloc slab
alloc-dealloc-IsShaped a mem ptr layout shape = elim (find_lem (needed layout) a.slabs) [
  | inl (i, e, (s, at, fits, _)) ↦ (
    rw (alloc, e, at)
        (map-set a.slabs i s (Slab.alloc s mem layout).1 at (alloc-size s mem layout) ∙ shape),
    rw (dealloc, e, at)
        (map-set a.slabs i s (Slab.dealloc s mem ptr layout).0 at (dealloc-size s mem ptr layout)
          ∙ shape),
  )
  | inr (e, all) ↦ (
    rw (alloc, e) shape,
    elim (Bool-cases (ptr == 0)) [
      | inl null ↦ rw (dealloc, e, null) shape
      | inr other ↦ rw (dealloc, e, other) shape
    ],
  )
]
