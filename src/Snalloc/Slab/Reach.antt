-- ===== src/Snalloc/Slab/Reach.antt =====
-- Every state that clients can bring a slab to (crates/snalloc/src/lib.rs, `SlabAllocator::init`,
-- `alloc`, `dealloc`).
use snek_os.Prelude.{
  ℕ, ◌+◌, ◌*◌, ◌%◌, ◌^◌, ◌≤◌, ◌<◌, List, [], ◌∷◌, ◌++◌, some, ◌≡◌, ◌≢◌, ◌⊎◌, refl, sym, ◌∙◌, arith,
  All, Distinct, All-map, All-both,
}
use native.Mathlib.Nat.{mod-eq_of_lt, zero-mod, add-mul-mod_self_right}
use snek_os.Snalloc.Slab.{Layout, Slab, Memory, new, init, alloc, dealloc}
use snek_os.Snalloc.Slab.Heap.{World, IsCell, IsHeap, cells_apart, cell_bounds}
use snek_os.Snalloc.Slab.Alloc.{step_alloc, alloc-Allocated}
use snek_os.Snalloc.Slab.Trace.{step_dealloc, dealloc-IsHeap, WritesIn, write-IsHeap}

-- What a client may do: allocate, give back a cell that it holds, and write into one.
pub data Step : World → World → Type 0 where
  allocates : (layout : Layout) (w : World) → Step w (step_alloc layout w).1
  releases :
      (layout : Layout) (w : World) (p : ℕ) (xs ys : List ℕ)
      → w.live ≡ xs ++ p ∷ ys
      → Step w (step_dealloc layout p xs ys w)
  writes :
      (w : World) (p : ℕ) (xs ys : List ℕ) (mem' : Memory)
      → w.live ≡ xs ++ p ∷ ys
      → WritesIn w.slab p w.mem mem'
      → Step w (record w { mem = mem' })

pub data Reach (w : World) : World → Type 0 where
  here : Reach w w
  next : {t u : World} → Reach w t → Step t u → Reach w u

abbrev pub SomeHeap : World → Type 0
SomeHeap w = (free : List ℕ) × (n : ℕ) × IsHeap w free n

Step-SomeHeap : {t u : World} → Step t u → SomeHeap t → SomeHeap u
Step-SomeHeap (allocates layout w) (free, n, h) = (alloc-Allocated layout w free n h).1
Step-SomeHeap (releases layout w p xs ys e) (free, n, h) =
    (p ∷ free, n, dealloc-IsHeap layout w free n p xs ys h e)
Step-SomeHeap (writes w p xs ys mem' e only) (free, n, h) =
    (free, n, write-IsHeap w free n p xs ys mem' h e only)

-- The region and the size of the cells.
abbrev SameRegion : World → World → Type 0
SameRegion t u =
    (u.slab.start ≡ t.slab.start) × (u.slab.end ≡ t.slab.end) × (u.slab.size ≡ t.slab.size)

step_alloc-SameRegion : (layout : Layout) (w : World) → SameRegion w (step_alloc layout w).1
unfolding step_alloc alloc
step_alloc-SameRegion layout w = ground arith

Step-SameRegion : {t u : World} → Step t u → SameRegion t u
unfolding step_dealloc dealloc
Step-SameRegion (allocates layout w) = step_alloc-SameRegion layout w
Step-SameRegion (releases layout w p xs ys e) = (refl, refl, refl)
Step-SameRegion (writes w p xs ys mem' e only) = (refl, refl, refl)

Reach-heap : {w u : World} → Reach w u → SomeHeap w → SomeHeap u × SameRegion w u
Reach-heap here h = (h, (refl, refl, refl))
Reach-heap (next r st) h =
    let (heap, (a, b, c)) = Reach-heap r h in
    let (a', b', c') = Step-SameRegion st in (Step-SomeHeap st heap, (a' ∙ a, b' ∙ b, c' ∙ c))

-- Cells of `size` bytes, no two of which overlap.
abbrev pub Apart : ℕ → List ℕ → Type 0
Apart size [] = Unit {0}
Apart size (c ∷ cs) = All (λ d. (c + size ≤ d) ⊎ (d + size ≤ c)) cs × Apart size cs

Apart-cells : (s : Slab) (n : ℕ) (cs : List ℕ) → All (IsCell s n) cs → Distinct cs → Apart s.size cs
Apart-cells s n [] cells distinct = tt
Apart-cells s n (c ∷ cs) cells distinct = (
  All-map (λ d. (c + s.size ≤ d) ⊎ (d + s.size ≤ c))
      (λ d (q : (d ≢ c) × IsCell s n d). cells_apart s n c d cells.0 q.1 (λ e. q.0 (sym e))) cs
      (All-both (λ d. d ≢ c) (IsCell s n) cs distinct.0 cells.1),
  Apart-cells s n cs cells.1 distinct.1,
)

abbrev fresh_slab : ℕ → ℕ → ℕ → Slab
fresh_slab size start region = record {
  start = start;
  end = start + region;
  next = start;
  size = size;
  used = 0;
}

abbrev pub no_clients : Slab → Memory → World
no_clients s mem = record { slab = s; mem = mem; live = [] }

module _ (size start region : ℕ) (mem : Memory) where
  -- What the kernel guarantees of a slab's region: wide cells, a start other than null, no overflow,
  -- and memory that is all zero.
  pub record IsRegion : Type 0 where
    pub wide : 16 ≤ size
    pub base : 0 < start
    pub fits : start + region + size < 2 ^ 64
    pub zeroed : (a : ℕ) → start ≤ a → a < start + region → mem a ≡ 0

  init-fresh : IsRegion → init (new size) start region ≡ some (fresh_slab size start region)
  unfolding init new
  init-fresh r =
      let w = r.wide in
      let f = r.fits in
      let e : (start + region) % 2 ^ 64 ≡ start + region = mod-eq_of_lt (omega arith) in
      let z : 0 % size ≡ 0 = zero-mod size in rw (z, e)

  pub fresh-IsHeap : IsRegion → IsHeap (no_clients (fresh_slab size start region) mem) [] 0
  fresh-IsHeap r =
      let f = r.fits in
      record {
        base = r.base;
        wide = r.wide;
        no_wrap = r.fits;
        inside = λ k lt. absurd (omega arith);
        chain = omega arith;
        unused = λ a above below. r.zeroed a (omega arith) below;
        cells_free = tt;
        cells_live = tt;
        distinct_free = tt;
        distinct_live = tt;
        apart = tt;
      }

  -- What clients hold: cells that do not overlap, that start in the region, and that lie a multiple of
  -- the cell size behind its start.
  abbrev pub IsSafe : World → Type 0
  IsSafe w =
      Apart size w.live
      × All (λ c. (start ≤ c) × (c < start + region) × ((k : ℕ) × (c ≡ start + k * size))) w.live

  SomeHeap-IsSafe :
      (w : World)
      → SomeHeap w
      → SameRegion (no_clients (fresh_slab size start region) mem) w
      → IsSafe w
  SomeHeap-IsSafe w (free, n, h) (es, ee, ez) = (
    rw (← ez) (Apart-cells w.slab n w.live h.cells_live h.distinct_live),
    All-map (λ c. (start ≤ c) × (c < start + region) × ((k : ℕ) × (c ≡ start + k * size)))
        (λ c (cell : IsCell w.slab n c).
          let (positive, before, inside) = cell_bounds h c cell in
          let at : c ≡ start + cell.0 * size = rw (← es, ← ez) cell.2 in
          (omega arith, omega arith, (cell.0, at)))
        w.live h.cells_live,
  )

  -- However clients allocate, release and write, starting from a slab that has been initialised with
  -- a zeroed region, the cells that they hold never overlap, start inside the region, and lie
  -- multiples of the cell size behind its start.
  pub Reach-IsSafe :
      {s : Slab} {w : World}
      → IsRegion
      → init (new size) start region ≡ some s
      → Reach (no_clients s mem) w
      → IsSafe w
  Reach-IsSafe {s} {w} r e reach =
      let same : fresh_slab size start region ≡ s = cc (init-fresh r, e) in
      let reach' : Reach (no_clients (fresh_slab size start region) mem) w = rw same reach in
      let (heap, region_same) = Reach-heap reach' ([], 0, fresh-IsHeap r) in
      SomeHeap-IsSafe w heap region_same

multiple-mod : (a b : ℕ) → (a * b) % b ≡ 0
multiple-mod a b =
    let e : 0 + a * b ≡ a * b = omega arith in rw (← e) (add-mul-mod_self_right 0 a b ∙ zero-mod b)

cell-mod :
    (q m align k start size c : ℕ)
    → start ≡ q * size
    → size ≡ m * align
    → c ≡ start + k * size
    → c % align ≡ 0
cell-mod q m align k start size c es ez ec =
    let e : c ≡ (q + k) * m * align = rw (ec, es, ez) (grind arith) in
    rw e (multiple-mod ((q + k) * m) align)

-- Where the start of the region is a multiple of the cell size, and the cell size one of an alignment,
-- every cell that a client ever holds is aligned.
pub Reach-aligned :
    (size start region : ℕ) (mem : Memory) (q m align : ℕ) {s : Slab} {w : World}
    → IsRegion size start region mem
    → init (new size) start region ≡ some s
    → Reach (no_clients s mem) w
    → start ≡ q * size
    → size ≡ m * align
    → All (λ c. c % align ≡ 0) w.live
Reach-aligned size start region mem q m align {s} {w} r e reach es ez =
    All-map (λ c. c % align ≡ 0)
      (λ c (cell : (start ≤ c) × (c < start + region) × ((k : ℕ) × (c ≡ start + k * size))).
        cell-mod q m align cell.2.0 start size c es ez cell.2.1)
      w.live (Reach-IsSafe size start region mem r e reach).1
