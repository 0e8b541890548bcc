-- ===== src/Snalloc/Slab/Trace.antt =====
-- Any run of allocations, releases and writes by clients over one slab (crates/snalloc/src/lib.rs,
-- `SlabAllocator`).
use snek_os.Prelude.{
  ℕ, ◌+◌, ◌≤◌, List, [], ◌∷◌, ◌++◌, ==_iff, ◌≡◌, ◌≢◌, ◌⊎◌, inl, inr, refl, sym, ◌∙◌, arith, All,
  NotIn, All-middle, All-map, All-both, Distinct-middle, eqb_false,
}
use snek_os.Snalloc.Slab.{Layout, Slab, Memory, write, dealloc}
use snek_os.Snalloc.Slab.Heap.{
  World, IsCell, Chain, frontier, IsHeap, Chain-write, cells_apart, cell_bounds,
}

-- A release of the cell `p`, which stands between `xs` and `ys` among those that clients hold.
unfoldable pub step_dealloc : Layout → ℕ → List ℕ → List ℕ → World → World
step_dealloc layout p xs ys w =
    let (s, m) = dealloc w.slab w.mem p layout in record { slab = s; mem = m; live = xs ++ ys }

next-ne-zero : (w : World) (free : List ℕ) (n : ℕ) → IsHeap w free n → w.slab.next ≢ 0
next-ne-zero w [] n h z =
    let e : w.slab.next ≡ frontier w.slab n = h.chain in let b = h.base in absurd (omega arith)
next-ne-zero w (c ∷ cs) n h z =
    let e : w.slab.next ≡ c = h.chain.0 in
    let (positive, _, _) = cell_bounds h c h.cells_free.0 in absurd (omega arith)

-- A heap stays one when a client gives back a cell that it holds, which becomes the first free one.
pub dealloc-IsHeap :
    (layout : Layout) (w : World) (free : List ℕ) (n p : ℕ) (xs ys : List ℕ)
    → IsHeap w free n
    → w.live ≡ xs ++ p ∷ ys
    → IsHeap (step_dealloc layout p xs ys w) (p ∷ free) n
unfolding step_dealloc dealloc
dealloc-IsHeap layout w free n p xs ys h e =
    let (cell, cells) = All-middle (IsCell w.slab n) xs ys p (rw e at h.cells_live) in
    let (absent, distinct) = Distinct-middle xs ys p (rw e at h.distinct_live) in
    let (_, before, _) = cell_bounds h p cell in
    let apart : All (λ c. NotIn c (xs ++ p ∷ ys)) free = rw e at h.apart in
    let own : All (λ c. c ≢ p) free =
      All-map (λ c. c ≢ p)
        (λ c (ni : NotIn c (xs ++ p ∷ ys)) q. (All-middle (λ x. x ≢ c) xs ys p ni).0 (sym q)) free
        apart in
    let wd = h.wide in
    let linked : write w.mem p w.slab.next p ≡ w.slab.next = rw ((==_iff p p).1 refl) in
    record {
      base = h.base;
      wide = h.wide;
      no_wrap = h.no_wrap;
      inside = h.inside;
      chain = (
        refl,
        rw linked (next-ne-zero w free n h),
        rw linked
            (Chain-write w.mem p w.slab.next w.slab.next (frontier w.slab n) free own h.chain),
      );
      unused = λ a above below. rw (eqb_false a p (omega arith)) (h.unused a above below);
      cells_free = (cell, h.cells_free);
      cells_live = cells;
      distinct_free = (own, h.distinct_free);
      distinct_live = distinct;
      apart = (
        absent,
        All-map (λ c. NotIn c (xs ++ ys))
            (λ c (ni : NotIn c (xs ++ p ∷ ys)). (All-middle (λ x. x ≢ c) xs ys p ni).1) free apart,
      );
    }

-- The second memory differs from the first at most in the words that overlap the cell `p`.
abbrev pub WritesIn : Slab → ℕ → Memory → Memory → Type 0
WritesIn s p mem mem' = (a : ℕ) → (a + 8 ≤ p) ⊎ (p + s.size ≤ a) → mem' a ≡ mem a

Chain-agree :
    (mem mem' : Memory) (q f : ℕ) (cs : List ℕ)
    → All (λ c. mem' c ≡ mem c) cs
    → Chain mem q cs f
    → Chain mem' q cs f
Chain-agree mem mem' q f [] same ch = ch
Chain-agree mem mem' q f (c ∷ cs) same ch =
    (ch.0, rw same.0 ch.1, rw same.0 (Chain-agree mem mem' (mem c) f cs same.1 ch.2))

-- A heap stays one, with the same free cells, whatever a client writes into a cell that it holds.
pub write-IsHeap :
    (w : World) (free : List ℕ) (n p : ℕ) (xs ys : List ℕ) (mem' : Memory)
    → IsHeap w free n
    → w.live ≡ xs ++ p ∷ ys
    → WritesIn w.slab p w.mem mem'
    → IsHeap (record w { mem = mem' }) free n
write-IsHeap w free n p xs ys mem' h e writes =
    let (cell, _) = All-middle (IsCell w.slab n) xs ys p (rw e at h.cells_live) in
    let (_, before, _) = cell_bounds h p cell in
    let apart : All (λ c. NotIn c (xs ++ p ∷ ys)) free = rw e at h.apart in
    let wd = h.wide in
    let own : All (λ c. IsCell w.slab n c × NotIn c (xs ++ p ∷ ys)) free =
      All-both (IsCell w.slab n) (λ c. NotIn c (xs ++ p ∷ ys)) free h.cells_free apart in
    let same : All (λ c. mem' c ≡ w.mem c) free =
      All-map (λ c. mem' c ≡ w.mem c)
        (λ c (q : IsCell w.slab n c × NotIn c (xs ++ p ∷ ys)).
          writes c
            (elim (cells_apart w.slab n c p q.0 cell
              (λ z. (All-middle (λ x. x ≢ c) xs ys p q.1).0 (sym z))) [
                | inl lo ↦ inl (omega arith)
                | inr hi ↦ inr hi
              ]))
        free own in
    record {
      base = h.base;
      wide = h.wide;
      no_wrap = h.no_wrap;
      inside = h.inside;
      chain = Chain-agree w.mem mem' w.slab.next (frontier w.slab n) free same h.chain;
      unused = λ a above below. writes a (inr (omega arith)) ∙ h.unused a above below;
      cells_free = h.cells_free;
      cells_live = h.cells_live;
      distinct_free = h.distinct_free;
      distinct_live = h.distinct_live;
      apart = h.apart;
    }
