-- ===== src/Prelude/Sets.antt =====
-- Predicates on lists by recursion: all elements, absence, no repetition.
use Prim.Native.Nat.{ℕ, zero, suc}
use mathlib.Core.Path.{◌≡◌, refl, sym, ap, ◌∙◌}
use mathlib.Core.Option.{some, some-injective, none-ne-some}
use snek_os.Prelude.Lists.{get_elem?}
use mathlib.Core.Logic.{◌≢◌}
use mathlib.Core.List.{List, [], ◌∷◌, ◌++◌}

abbrev pub All {ℓ κ} : {A : Type ℓ} → (A → Type κ) → List A → Type κ
All P [] = Unit
All P (x ∷ xs) = P x × All P xs

abbrev pub NotIn : ℕ → List ℕ → Type 0
NotIn a = All (λ x. x ≢ a)

abbrev pub Distinct : List ℕ → Type 0
Distinct [] = Unit {0}
Distinct (x ∷ xs) = NotIn x xs × Distinct xs

module _ {ℓ κ} {A : Type ℓ} (P : A → Type κ) where
  pub All-middle : (xs ys : List A) (a : A) → All P (xs ++ a ∷ ys) → P a × All P (xs ++ ys)
  All-middle [] ys a h = h
  All-middle (x ∷ xs) ys a h = let (p, q) = All-middle xs ys a h.1 in (p, (h.0, q))

  pub All-map {μ} : {Q : A → Type μ} (f : (a : A) → Q a → P a) (xs : List A) → All Q xs → All P xs
  All-map f [] h = tt
  All-map f (x ∷ xs) h = (f x h.0, All-map f xs h.1)

pub Distinct-middle :
    (xs ys : List ℕ) (a : ℕ) → Distinct (xs ++ a ∷ ys) → NotIn a (xs ++ ys) × Distinct (xs ++ ys)
Distinct-middle [] ys a h = h
Distinct-middle (x ∷ xs) ys a h =
    let (n, d) = Distinct-middle xs ys a h.1 in
    let (ne, rest) = All-middle (λ y. y ≢ x) xs ys a h.0 in (((λ e. ne (sym e)), n), (rest, d))

module _ {ℓ κ μ} {A : Type ℓ} (P : A → Type κ) (Q : A → Type μ) where
  pub All-both : (xs : List A) → All P xs → All Q xs → All (λ a. P a × Q a) xs
  All-both [] p q = tt
  All-both (x ∷ xs) p q = ((p.0, q.0), All-both xs p.1 q.1)

NotIn-get_elem? : (xs : List ℕ) (a : ℕ) (i : ℕ) → NotIn a xs → get_elem? xs i ≡ some a → ⊥
NotIn-get_elem? [] a i h e = none-ne-some a e
NotIn-get_elem? (x ∷ xs) a zero h e = h.0 (some-injective x a e)
NotIn-get_elem? (x ∷ xs) a (suc i) h e = NotIn-get_elem? xs a i h.1 e

-- Two indices at which a list without repetition holds the same are one.
pub Distinct-injective :
    (xs : List ℕ) (i j a : ℕ)
    → Distinct xs
    → get_elem? xs i ≡ some a
    → get_elem? xs j ≡ some a
    → i ≡ j
Distinct-injective [] i j a d e f = absurd (none-ne-some a e)
Distinct-injective (x ∷ xs) zero zero a d e f = refl
Distinct-injective (x ∷ xs) zero (suc j) a d e f = absurd (NotIn-get_elem? xs x j d.0 (f ∙ sym e))
Distinct-injective (x ∷ xs) (suc i) zero a d e f = absurd (NotIn-get_elem? xs x i d.0 (e ∙ sym f))
Distinct-injective (x ∷ xs) (suc i) (suc j) a d e f = ap suc (Distinct-injective xs i j a d.1 e f)
