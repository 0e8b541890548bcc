-- ===== src/Snalloc/Slab/Alloc.antt =====
-- `SlabAllocator::alloc` (crates/snalloc/src/lib.rs) on each state of the slab.
use snek_os.Prelude.{
  ℕ, suc, ◌+◌, ◌*◌, ◌%◌, ◌^◌, ◌≤◌, ◌<◌, List, [], ◌∷◌, ◌==◌, if◌then◌else◌, u64, ◌≡◌, ◌≢◌, ◌⊎◌, inl,
  inr, refl, sym, ◌∙◌, arith, NotIn, All-map, All-both, dec_lt, leb-true, leb-false, eqb_false,
}
use native.Mathlib.Nat.{mod-eq_of_lt}
use snek_os.Snalloc.Slab.{Layout, Slab, write, alloc}
use snek_os.Snalloc.Slab.Heap.{
  World, IsCell, frontier, IsHeap, Chain-write, cell_bounds, NotIn-frontier, cells_weaken,
}

-- An allocation by a client: the pointer, and the world in which the client holds it.
unfoldable pub step_alloc : Layout → World → ℕ × World
step_alloc layout w =
    let (p, s, m) = alloc w.slab w.mem layout in
    (p, record { slab = s; mem = m; live = if p == 0 then w.live else p ∷ w.live })

frontier-suc : (s : Slab) (n : ℕ) → frontier s (suc n) ≡ frontier s n + s.size
frontier-suc s n = grind arith

-- The world after the cell at the frontier has been taken.
abbrev taken : Layout → World → ℕ → World
taken layout w n = record {
  slab = record w.slab { next = frontier w.slab (suc n); used = u64 (w.slab.used + layout.bytes) };
  mem = write w.mem (frontier w.slab n) 0;
  live = frontier w.slab n ∷ w.live;
}

-- The world after the free cell `c` has been taken.
abbrev reused : Layout → World → ℕ → World
reused layout w c = record {
  slab = record w.slab { next = w.mem c; used = u64 (w.slab.used + layout.bytes) };
  mem = write w.mem c 0;
  live = c ∷ w.live;
}

module _ (layout : Layout) (w : World) (n : ℕ) where
  -- With no free cell and the frontier at the end of the region, `alloc` returns null and changes
  -- nothing.
  alloc-full : IsHeap w [] n → w.slab.end ≤ frontier w.slab n → step_alloc layout w ≡ (0, w)
  unfolding step_alloc alloc
  alloc-full h full =
      let e : w.slab.next ≡ frontier w.slab n = h.chain in
      rw (leb-true w.slab.end w.slab.next (omega arith))

  alloc-taken :
      IsHeap w [] n
      → frontier w.slab n < w.slab.end
      → step_alloc layout w ≡ (frontier w.slab n, taken layout w n)
  unfolding step_alloc alloc
  alloc-taken h room =
      let e : w.slab.next ≡ frontier w.slab n = h.chain in
      let z = h.unused (frontier w.slab n) (omega arith) room in
      let b = h.base in
      let nw = h.no_wrap in
      let fits : (frontier w.slab n + w.slab.size) % 2 ^ 64 ≡ frontier w.slab (suc n) =
        mod-eq_of_lt (omega arith) ∙ sym (frontier-suc w.slab n) in
      rw (
        leb-false w.slab.end w.slab.next (omega arith),
        e,
        z,
        fits,
        eqb_false (frontier w.slab n) 0 (omega arith),
      )

  alloc-reused :
      (c : ℕ) (cs : List ℕ) → IsHeap w (c ∷ cs) n → step_alloc layout w ≡ (c, reused layout w c)
  unfolding step_alloc alloc
  alloc-reused c cs h =
      let e : w.slab.next ≡ c = h.chain.0 in
      let (positive, _, inside) = cell_bounds h c h.cells_free.0 in
      rw (
        leb-false w.slab.end w.slab.next (omega arith),
        e,
        eqb_false (w.mem c) 0 h.chain.1,
        eqb_false c 0 (omega arith),
      )

  write-other : (p v a : ℕ) → a ≢ p → write w.mem p v a ≡ w.mem a
  write-other p v a ne = rw (eqb_false a p ne)

  inside-suc :
      ((k : ℕ) → k < n → w.slab.start + k * w.slab.size < w.slab.end)
      → frontier w.slab n < w.slab.end
      → (k : ℕ) → k < suc n
      → w.slab.start + k * w.slab.size < w.slab.end
  inside-suc inside room k lt = elim (dec_lt k n) [
    | yes below ↦ inside k below
    | no above ↦ let e : k ≡ n = omega arith in rw e room
  ]

  taken-IsHeap :
      IsHeap w [] n → frontier w.slab n < w.slab.end → IsHeap (taken layout w n) [] (suc n)
  taken-IsHeap h room =
      let step = frontier-suc w.slab n in
      let wd = h.wide in
      record {
        base = h.base;
        wide = h.wide;
        no_wrap = h.no_wrap;
        inside = inside-suc h.inside room;
        chain = refl;
        unused = λ a above below.
            write-other (frontier w.slab n) 0 a (omega arith) ∙ h.unused a (omega arith) below;
        cells_free = tt;
        cells_live = ((n, omega arith, refl), cells_weaken h w.live h.cells_live);
        distinct_free = tt;
        distinct_live = (NotIn-frontier h w.live h.cells_live, h.distinct_live);
        apart = tt;
      }

  reused-IsHeap : (c : ℕ) (cs : List ℕ) → IsHeap w (c ∷ cs) n → IsHeap (reused layout w c) cs n
  reused-IsHeap c cs h =
      let (positive, before, inside) = cell_bounds h c h.cells_free.0 in
      let wd = h.wide in
      record {
        base = h.base;
        wide = h.wide;
        no_wrap = h.no_wrap;
        inside = h.inside;
        chain = Chain-write w.mem c 0 (w.mem c) (frontier w.slab n) cs h.distinct_free.0 h.chain.2;
        unused = λ a above below. write-other c 0 a (omega arith) ∙ h.unused a above below;
        cells_free = h.cells_free.1;
        cells_live = (h.cells_free.0, h.cells_live);
        distinct_free = h.distinct_free.1;
        distinct_live = (h.apart.0, h.distinct_live);
        apart =
            All-both (λ c'. c ≢ c') (λ c'. NotIn c' w.live) cs
              (All-map (λ c'. c ≢ c') (λ c' (ne : c' ≢ c) e. ne (sym e)) cs h.distinct_free.0)
              h.apart.1;
      }

-- What `alloc` returns on a heap: null, with nothing changed, exactly where no cell is left; else a
-- cell that no client holds.
abbrev pub Allocated : World → List ℕ → ℕ → ℕ → World → Type 0
Allocated w free n p w' =
    (p ≡ 0) × (w' ≡ w) × (free ≡ []) × (w.slab.end ≤ frontier w.slab n)
    ⊎ (p ≢ 0) × NotIn p w.live × IsCell w.slab (suc n) p × (p < w.slab.end) × (w'.live ≡ p ∷ w.live)

-- On a heap `alloc` returns null, changing nothing, only where no freed cell is left and the frontier
-- is at the end of the region; else it returns a cell inside the region that no client holds. What it
-- leaves is a heap again.
pub alloc-Allocated :
    (layout : Layout) (w : World) (free : List ℕ) (n : ℕ)
    → IsHeap w free n
    → Allocated w free n (step_alloc layout w).0 (step_alloc layout w).1
      × ((free' : List ℕ) × (n' : ℕ) × IsHeap (step_alloc layout w).1 free' n')
alloc-Allocated layout w (c ∷ cs) n h =
    let (positive, _, inside) = cell_bounds h c h.cells_free.0 in
    let (k, lt, e) = h.cells_free.0 in
    rw (alloc-reused layout w n c cs h) (
      inr ((λ z. omega arith), h.apart.0, (k, omega arith, e), inside, refl),
      (cs, n, reused-IsHeap layout w n c cs h),
    )
alloc-Allocated layout w [] n h = elim (dec_lt (frontier w.slab n) w.slab.end) [
  | yes room ↦
      let b = h.base in
      rw (alloc-taken layout w n h room) (
        inr (
          (λ z. omega arith),
          NotIn-frontier h w.live h.cells_live,
          (n, omega arith, refl),
          room,
          refl,
        ),
        ([], suc n, taken-IsHeap layout w n h room),
      )
  | no none_left ↦
      rw (alloc-full layout w n h (omega arith)) (inl (refl, refl, refl, omega arith), ([], n, h))
]
