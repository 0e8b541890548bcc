-- ===== src/Prelude/Effect.antt =====
-- Methods that change a state and can fail, panic, or wait in a loop for longer than the rounds given.
use mathlib.Core.Option.{Option, none, some}

pub data Outcome (E A : Type 0) : Type 0 where
  ok : A → Outcome E A
  err : E → Outcome E A
  panic : Outcome E A
  no_fuel : Outcome E A

abbrev pub Effect : Type 0 → Type 0 → Type 0 → Type 0
Effect E S A = S → Outcome E A × S

module _ {E S : Type 0} where
  abbrev pub pure : {A : Type 0} → A → Effect E S A
  pure a s = (ok a, s)

  abbrev pub throw : {A : Type 0} → E → Effect E S A
  throw e s = (err e, s)

  abbrev pub and_then : {A B : Type 0} → Outcome E A → S → (A → Effect E S B) → Outcome E B × S
  and_then (ok a) s f = f a s
  and_then (err e) s f = (err e, s)
  and_then panic s f = (panic, s)
  and_then no_fuel s f = (no_fuel, s)

  infixl 5 ◌>>=◌ ◌>>◌
  abbrev pub ◌>>=◌ : {A B : Type 0} → Effect E S A → (A → Effect E S B) → Effect E S B
  ◌>>=◌ m f s = let (r, s') = m s in and_then r s' f

  abbrev pub ◌>>◌ : {A B : Type 0} → Effect E S A → Effect E S B → Effect E S B
  m >> k = m >>= λ _. k

  abbrev pub unwrap : {A : Type 0} → Option A → Effect E S A
  unwrap none s = (panic, s)
  unwrap (some a) s = (ok a, s)
