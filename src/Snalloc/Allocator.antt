-- ===== src/Snalloc/Allocator.antt =====
-- crates/snalloc/src/lib.rs, `Allocator` and `Inner`: seven slabs, and behind them the heap of the
-- `linked_list_allocator` crate, which is a parameter. The mutex is held through each operation, so an
-- operation is one step. The null pointer is 0.
pub mod Classes
pub mod Shape
pub mod Kernel
use snek_os.Prelude.{
  ℕ, suc, ◌+◌, ◌-◌, ◌*◌, ◌/◌, ◌^◌, max, Bool, Option, none, some, List, [], ◌∷◌, ◌++◌, map, length,
  get_elem?, set, leb, ◌==◌, if◌then◌else◌, u64,
}
use snek_os.Snalloc.Slab
use snek_os.Snalloc.Slab.{Layout, Slab, Memory, capacity}

-- `linked_list_allocator::Heap`, which keeps its own links in memory; `none` is its `Err`.
pub record Fallback : Type 1 where
  pub Heap : Type 0
  pub empty : Heap
  pub init : Heap → Memory → ℕ → ℕ → Heap × Memory
  pub allocate_first_fit : Heap → Memory → Layout → Option ℕ × Heap × Memory
  pub deallocate : Heap → Memory → ℕ → Layout → Heap × Memory
  pub heap_used : Heap → ℕ
  pub heap_size : Heap → ℕ

pub record Inner (fb : Fallback) : Type 0 where
  pub start : ℕ
  pub size : ℕ
  pub slabs : List Slab
  pub fallback : fb.Heap

abbrev pub sizes : List ℕ
sizes = 16 ∷ 32 ∷ 64 ∷ 128 ∷ 256 ∷ 512 ∷ 2048 ∷ []

-- `iter_mut().find(|slab| slab.size >= needed)`: the slab by its index.
unfoldable pub find : ℕ → List Slab → Option ℕ
find needed [] = none
find needed (s ∷ ss) =
    let rest = find needed ss in
    if leb needed s.size then some 0 else elim rest [ none ↦ none | some i ↦ some (suc i) ]

abbrev pub needed : Layout → ℕ
needed layout = max layout.bytes layout.align

-- `slab.init` on each slab in turn, from index `i` on; `none` is a failed `assert!`.
unfoldable pub init_slabs : ℕ → ℕ → ℕ → List Slab → Option (List Slab)
init_slabs start region i [] = some []
init_slabs start region i (s ∷ ss) =
    let rest = init_slabs start region (i + 1) ss in
    elim (Slab.init s (u64 (start + u64 (region * i))) region) [
      | none ↦ none
      | some s' ↦ elim rest [ none ↦ none | some ss' ↦ some (s' ∷ ss') ]
    ]

abbrev pub or_null : Option ℕ → ℕ
or_null none = 0
or_null (some p) = p

module _ {fb : Fallback} where
  unfoldable pub new : Inner fb
  new = record { start = 0; size = 0; slabs = map Slab.new sizes; fallback = fb.empty }

  unfoldable pub slab : Inner fb → Layout → Option ℕ
  slab a layout = find (needed layout) a.slabs

  unfoldable pub init : Inner fb → Memory → ℕ → ℕ → Option (Inner fb × Memory)
  init a mem start size =
      let count = length a.slabs in
      let region = size / (count + 1) in
      elim (init_slabs start region 0 a.slabs) [
        | none ↦ none
        | some slabs ↦
            let (heap, mem') = fb.init a.fallback mem (u64 (start + u64 (region * count))) region in
            some (record { start = start; size = size; slabs = slabs; fallback = heap }, mem')
      ]

  -- An operation on the slab with an index that `find` gave.
  abbrev pub slab_alloc : Inner fb → Memory → Layout → ℕ → Option Slab → ℕ × Inner fb × Memory
  slab_alloc a mem layout i none = (0, a, mem)
  slab_alloc a mem layout i (some s) =
      let (p, s', mem') = Slab.alloc s mem layout in
      (p, record a { slabs = set a.slabs i s' }, mem')

  abbrev pub slab_dealloc : Inner fb → Memory → ℕ → Layout → ℕ → Option Slab → Inner fb × Memory
  slab_dealloc a mem ptr layout i none = (a, mem)
  slab_dealloc a mem ptr layout i (some s) =
      let (s', mem') = Slab.dealloc s mem ptr layout in
      (record a { slabs = set a.slabs i s' }, mem')

  unfoldable pub alloc : Inner fb → Memory → Layout → ℕ × Inner fb × Memory
  unfolding slab
  alloc a mem layout = elim (slab a layout) [
    | some i ↦ slab_alloc a mem layout i (get_elem? a.slabs i)
    | none ↦
        let (r, heap, mem') = fb.allocate_first_fit a.fallback mem layout in
        (or_null r, record a { fallback = heap }, mem')
  ]

  unfoldable pub dealloc : Inner fb → Memory → ℕ → Layout → Inner fb × Memory
  unfolding slab
  dealloc a mem ptr layout = elim (slab a layout) [
    | some i ↦ slab_dealloc a mem ptr layout i (get_elem? a.slabs i)
    | none ↦
        if ptr == 0
        then (a, mem)
        else let (heap, mem') = fb.deallocate a.fallback mem ptr layout in
          (record a { fallback = heap }, mem')
  ]

  -- Used and total bytes of each slab, and of the fallback at the end.
  unfoldable pub stats : Inner fb → List (ℕ × ℕ)
  stats a =
      map (λ (s : Slab). (s.used, capacity s)) a.slabs
      ++ (fb.heap_used a.fallback, fb.heap_size a.fallback) ∷ []
