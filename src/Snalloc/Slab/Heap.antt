-- ===== src/Snalloc/Slab/Heap.antt =====
-- The invariant of a slab's memory while clients hold some of its cells and write to them
-- (crates/snalloc/src/lib.rs, `SlabAllocator::alloc` and `dealloc`).
use snek_os.Prelude.{
  ℕ, suc, ◌+◌, ◌*◌, ◌^◌, ◌≤◌, ◌<◌, List, [], ◌∷◌, Bool-cases, ◌==◌, ==_iff, ◌≡◌, ◌≢◌, ◌⊎◌, inl, inr,
  arith, All, NotIn, Distinct, All-map, dec_lt,
}
use snek_os.Snalloc.Slab.{Slab, Memory, write}

-- A slab, the memory, and the cells that clients hold.
pub record World : Type 0 where
  pub slab : Slab
  pub mem : Memory
  pub live : List ℕ

-- One of the first `n` cells.
abbrev pub IsCell : Slab → ℕ → ℕ → Type 0
IsCell s n c = (k : ℕ) × (k < n) × (c ≡ s.start + k * s.size)

-- The free cells in the order of their links, from `p` to the frontier.
abbrev pub Chain : Memory → ℕ → List ℕ → ℕ → Type 0
Chain mem p [] f = p ≡ f
Chain mem p (c ∷ cs) f = (p ≡ c) × (mem c ≢ 0) × Chain mem (mem c) cs f

abbrev pub frontier : Slab → ℕ → ℕ
frontier s n = s.start + n * s.size

-- The cells handed out so far are the first `n`; those that came back are `free`; the memory behind
-- them has never been written.
pub record IsHeap (w : World) (free : List ℕ) (n : ℕ) : Type 0 where
  pub base : 0 < w.slab.start
  pub wide : 16 ≤ w.slab.size
  pub no_wrap : w.slab.end + w.slab.size < 2 ^ 64
  pub inside : (k : ℕ) → k < n → w.slab.start + k * w.slab.size < w.slab.end
  pub chain : Chain w.mem w.slab.next free (frontier w.slab n)
  pub unused : (a : ℕ) → frontier w.slab n ≤ a → a < w.slab.end → w.mem a ≡ 0
  pub cells_free : All (IsCell w.slab n) free
  pub cells_live : All (IsCell w.slab n) w.live
  pub distinct_free : Distinct free
  pub distinct_live : Distinct w.live
  pub apart : All (λ c. NotIn c w.live) free

pub Chain-write :
    (mem : Memory) (p v q f : ℕ) (cs : List ℕ)
    → NotIn p cs
    → Chain mem q cs f
    → Chain (write mem p v) q cs f
Chain-write mem p v q f [] ni ch = ch
Chain-write mem p v q f (c ∷ cs) ni ch =
    let rest = Chain-write mem p v (mem c) f cs ni.1 ch.2 in
    elim (Bool-cases (c == p)) [
      | inl e ↦ absurd (ni.0 ((==_iff c p).0 e))
      | inr e ↦ (ch.0, rw e ch.1, rw e rest)
    ]

mul_step : (k j z : ℕ) → k < j → k * z + z ≤ j * z
mul_step k j z h = grind arith

-- Two different cells do not overlap.
pub cells_apart :
    (s : Slab) (n c d : ℕ)
    → IsCell s n c
    → IsCell s n d
    → c ≢ d
    → (c + s.size ≤ d) ⊎ (d + s.size ≤ c)
cells_apart s n c d (k, hk, ek) (j, hj, ej) ne = elim (dec_lt k j) [
  | yes lt ↦ inl (omega (arith, mul_step k j s.size lt))
  | no nlt ↦ elim (dec_lt j k) [
    | yes lt ↦ inr (omega (arith, mul_step j k s.size lt))
    | no nlt' ↦ let same : k ≡ j = omega arith in absurd (ne (rw (ek, ej, same)))
  ]
]

module _ {w : World} {free : List ℕ} {n : ℕ} (h : IsHeap w free n) where
  -- A cell lies before the frontier, and starts inside the slab's region.
  pub cell_bounds :
      (c : ℕ)
      → IsCell w.slab n c
      → (0 < c) × (c + w.slab.size ≤ frontier w.slab n) × (c < w.slab.end)
  cell_bounds c (k, hk, ek) =
      let m = mul_step k n w.slab.size hk in
      let b = h.base in let i = h.inside k hk in (omega arith, omega arith, omega arith)

  -- What the frontier has not reached is no cell.
  pub NotIn-frontier : (cs : List ℕ) → All (IsCell w.slab n) cs → NotIn (frontier w.slab n) cs
  NotIn-frontier cs all =
      All-map (λ c. c ≢ frontier w.slab n)
        (λ c cell. let b = cell_bounds c cell in let wd = h.wide in omega arith) cs all

  pub cells_weaken : (cs : List ℕ) → All (IsCell w.slab n) cs → All (IsCell w.slab (suc n)) cs
  cells_weaken cs all =
      All-map (IsCell w.slab (suc n))
        (λ c (cell : IsCell w.slab n c). (cell.0, omega (arith, cell.1), cell.2)) cs all
