-- ===== src/Pci/Loops.antt =====
-- The loop of the scan (kernel/src/arch/x86_64/pci.rs), for any body.
use snek_os.Prelude.{
  ℕ, zero, suc, ◌+◌, ◌≤◌, ◌<◌, Option, none, some, Option-cases, inl, inr, ◌≡◌, ◌≢◌, arith, dec_lt,
}
use mathlib.Core.Path.{subst}
use mathlib.Core.Option.{some-injective}
use snek_os.Pci.{for_each}

module _ {ℓ} {A : Type ℓ} (body : ℕ → A → Option A) where
  -- A property of the state that each run of the body keeps.
  abbrev pub Kept : (A → Type 0) → ℕ → Type ℓ
  Kept P i = (a a' : A) → body i a ≡ some a' → P a → P a'

  -- What the body keeps, the loop keeps.
  pub for_each-Kept :
      (P : A → Type 0) (i n : ℕ) (a a' : A)
      → ((k : ℕ) → Kept P k)
      → for_each body i n a ≡ some a'
      → P a
      → P a'
  unfolding for_each
  for_each-Kept P i zero a a' kept e p = subst P (some-injective a a' e) p
  for_each-Kept P i (suc n) a a' kept e p = elim (Option-cases (body i a)) [
    | inl stuck ↦ absurd (cc (e, stuck))
    | inr (b, done) ↦ for_each-Kept P (i + 1) n b a' kept (cc (e, done)) (kept i a b done p)
  ]

  -- What the body establishes at one of the numbers, and keeps at all, the loop establishes.
  pub for_each-at :
      (P : A → Type 0) (k i n : ℕ) (a a' : A)
      → ((j : ℕ) → Kept P j)
      → ((b b' : A) → body k b ≡ some b' → P b')
      → i ≤ k
      → k < i + n
      → for_each body i n a ≡ some a'
      → P a'
  unfolding for_each
  for_each-at P k i zero a a' kept here lo hi e = absurd (omega (arith, lo, hi))
  for_each-at P k i (suc n) a a' kept here lo hi e = elim (Option-cases (body i a)) [
    | inl stuck ↦ absurd (cc (e, stuck))
    | inr (b, done) ↦ elim (dec_lt i k) [
      | yes later ↦
          for_each-at P k (i + 1) n b a' kept here (omega (arith, later)) (omega (arith, hi))
            (cc (e, done))
      | no nlt ↦
          let same : i ≡ k = omega (arith, nlt, lo) in
          let rest : for_each body (i + 1) n b ≡ some a' = cc (e, done) in
          for_each-Kept P (i + 1) n b a' kept rest
            (here a b (subst (λ j. body j a ≡ some b) same done))
    ]
  ]

  -- A loop whose bodies end ends.
  pub for_each-ends :
      (i n : ℕ) (a : A)
      → ((k : ℕ) (b : A) → i ≤ k → k < i + n → body k b ≢ none)
      → for_each body i n a ≢ none
  unfolding for_each
  for_each-ends i zero a ends = λ e. cc
  for_each-ends i (suc n) a ends = elim (Option-cases (body i a)) [
    | inl stuck ↦ absurd (ends i a (omega arith) (omega arith) stuck)
    | inr (b, done) ↦ λ e.
        for_each-ends (i + 1) n b (λ k c lo hi. ends k c (omega (arith, lo)) (omega (arith, hi)))
          (cc (e, done))
  ]
