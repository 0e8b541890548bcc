-- ===== src/Memory/Search.antt =====
-- What `search_free_addr_from` finds (kernel/src/arch/x86_64/memory.rs).
use snek_os.Prelude.{
  ℕ, zero, suc, ◌+◌, ◌-◌, ◌*◌, ◌≤◌, ◌<◌, Bool, true, false, Bool-cases, Option, none, some, leb,
  leb→le, ◌≡◌, ◌≢◌, inl, inr, refl, arith, dec_lt,
}
use mathlib.Core.Path.{subst}
use snek_os.Memory.{page_size, or_at, search, search_free_addr_from, PageRange}

module _ (available : ℕ → Bool) (n first : ℕ) where
  -- The `n` pages from page `i` of the range on are available.
  abbrev pub IsRun : ℕ → Type 0
  IsRun i = (j : ℕ) → j < n → available (first + page_size * (i + j)) ≡ true

  -- What the search over the first `total` pages of the range yields: the first run, or none where
  -- there is none.
  abbrev pub Found : ℕ → Option ℕ → Type 0
  Found total none = (i : ℕ) → i + n ≤ total → ¬ IsRun i
  Found total (some v) =
      (i : ℕ) × (v ≡ first + page_size * i)
      × (i + n ≤ total)
      × IsRun i
      × ((k : ℕ) → k < i → ¬ IsRun k)

  -- The variables of the loop at page `p`: the last `cnt` pages are available, and no run starts before
  -- them.
  record Inv (p cnt : ℕ) (start : Option ℕ) : Type 0 where
    bound : cnt ≤ p
    short : cnt < n
    fresh : cnt ≡ 0 → start ≡ none
    at : cnt ≢ 0 → start ≡ some (first + page_size * (p - cnt))
    run : (j : ℕ) → j < cnt → available (first + page_size * (p - cnt + j)) ≡ true
    before : (k : ℕ) → k < p - cnt → ¬ IsRun k

  start_at :
      (p cnt : ℕ) (start : Option ℕ)
      → Inv p cnt start
      → or_at start (first + page_size * p) ≡ some (first + page_size * (p - cnt))
  start_at p zero start h = let e : p - 0 ≡ p = omega arith in rw (h.fresh refl, e) refl
  start_at p (suc c) start h = rw (h.at (omega arith)) refl

  longer :
      (p cnt : ℕ) (start : Option ℕ)
      → Inv p cnt start
      → available (first + page_size * p) ≡ true
      → (j : ℕ) → j < cnt + 1
      → available (first + page_size * (p - cnt + j)) ≡ true
  longer p cnt start h free j lt = elim (dec_lt j cnt) [
    | yes l ↦ h.run j l
    | no g ↦ let b = h.bound in let e : p - cnt + j ≡ p = omega arith in rw e free
  ]

  blocked :
      (p cnt : ℕ) (start : Option ℕ)
      → Inv p cnt start
      → available (first + page_size * p) ≡ false
      → Inv (suc p) 0 none
  blocked p cnt start h taken = record {
    bound = omega arith;
    short = let s = h.short in omega arith;
    fresh = λ _. refl;
    at = λ ne. absurd (ne refl);
    run = λ j lt. absurd (omega (arith, lt));
    before = λ k lt. elim (dec_lt k (p - cnt)) [
      | yes l ↦ h.before k l
      | no g ↦ λ run.
          let s = h.short in
          let b = h.bound in
          let e : k + (p - k) ≡ p = omega arith in
          let f : available (first + page_size * (k + (p - k))) ≡ true =
            run (p - k) (omega arith) in
          cc (taken, e, f)
    ];
  }

  grown :
      (p cnt : ℕ) (start : Option ℕ)
      → Inv p cnt start
      → available (first + page_size * p) ≡ true
      → cnt + 1 < n
      → Inv (suc p) (cnt + 1) (or_at start (first + page_size * p))
  grown p cnt start h free lt =
      let b = h.bound in
      let e : suc p - (cnt + 1) ≡ p - cnt = omega arith in
      record {
        bound = omega arith;
        short = lt;
        fresh = λ z. absurd (omega (arith, z));
        at = λ _. rw e (start_at p cnt start h);
        run = rw e (longer p cnt start h free);
        before = rw e h.before;
      }

  search_lem :
      (pages p cnt : ℕ) (start : Option ℕ)
      → Inv p cnt start
      → Found (p + pages) (search available n pages (first + page_size * p) cnt start)
  unfolding search
  search_lem zero p cnt start h = λ i le. h.before i (let s = h.short in omega arith)
  search_lem (suc pages) p cnt start h =
      let next : first + page_size * p + page_size ≡ first + page_size * suc p = omega arith in
      let total : p + suc pages ≡ suc p + pages = omega arith in
      elim (Bool-cases (available (first + page_size * p))) [
        | inr taken ↦
            rw (taken, next, total) (search_lem pages (suc p) 0 none (blocked p cnt start h taken))
        | inl free ↦ elim (Bool-cases (leb n (cnt + 1))) [
          | inl enough ↦
              let b = h.bound in
              let s = h.short in
              let le = leb→le n (cnt + 1) enough in
              rw (free, enough, start_at p cnt start h)
                (
                  p - cnt,
                  refl,
                  omega arith,
                  (λ j lt. longer p cnt start h free j (omega (arith, lt))),
                  h.before,
                )
          | inr few ↦
              rw (free, few, next, total)
                (search_lem pages (suc p) (cnt + 1) (or_at start (first + page_size * p))
                  (grown p cnt start h free (ground arith)))
        ]
      ]

  fresh_Inv : 0 < n → Inv 0 0 none
  fresh_Inv pos = record {
    bound = omega arith;
    short = pos;
    fresh = λ _. refl;
    at = λ ne. absurd (ne refl);
    run = λ j lt. absurd (omega (arith, lt));
    before = λ k lt. absurd (omega (arith, lt));
  }

-- For at least one page, the search yields the first run of that many available pages inside the
-- range, and fails exactly where the range has no such run.
pub search_free_addr_from-Found :
    (available : ℕ → Bool) (n : ℕ) (region : PageRange)
    → 0 < n
    → Found available n region.first region.pages (search_free_addr_from available n region)
unfolding search_free_addr_from
search_free_addr_from-Found available n region pos =
    let start : region.first + page_size * 0 ≡ region.first = omega arith in
    let found =
      search_lem available n region.first region.pages 0 0 none
        (fresh_Inv available n region.first pos) in
    let total : 0 + region.pages ≡ region.pages = omega arith in
    subst
      (λ t. Found available n region.first t (search available n region.pages region.first 0 none))
      total
      (subst
        (λ a.
          Found available n region.first (0 + region.pages)
            (search available n region.pages a 0 none))
        start found)
