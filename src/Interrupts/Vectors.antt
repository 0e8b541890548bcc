-- ===== src/Interrupts/Vectors.antt =====
-- What runs at each vector (kernel/src/arch/x86_64/interrupts.rs, `IDT` and the macro `handler!`).
use snek_os.Prelude.{
  ℕ, ◌+◌, ◌-◌, ◌≤◌, ◌<◌, eqb_false, ◌≡◌, ◌≢◌, ◌⊎◌, inl, inr, refl, sym, ap, ◌∙◌, arith, dec_lt,
}
use snek_os.Interrupts.{InterruptHandler, handler, Apic, Interrupts, idt, raised, put, last_free}

idt-handler : (v : ℕ) → 32 ≤ v → v ≤ last_free → idt v ≡ handler (v - 32)
unfolding idt
idt-handler v lo hi = ground arith

module _ (F : Type 0) (lib : Apic) where
  pub raised-handler :
      (s : Interrupts F lib) (v : ℕ)
      → 32 ≤ v
      → v ≤ last_free
      → raised F lib s v ≡ (handler (v - 32), s.handlers (v - 32))
  unfolding raised
  raised-handler s v lo hi = rw (raised, idt-handler v lo hi) refl

  -- Vectors with no general handler do not read the table of handlers.
  raised-fixed :
      (s t : Interrupts F lib) (v : ℕ)
      → (v < 32) ⊎ (last_free < v)
      → raised F lib s v ≡ raised F lib t v
  unfolding raised idt
  raised-fixed s t v (inl l) = ground arith
  raised-fixed s t v (inr g) = ground arith

  -- After a store at an index only the vector 32 above it changes.
  pub raised-other :
      (s t : Interrupts F lib) (i v : ℕ) (h : InterruptHandler F)
      → t.handlers ≡ put s.handlers i h
      → v ≢ i + 32
      → raised F lib t v ≡ raised F lib s v
  raised-other s t i v h e ne = elim (dec_lt v 32) [
    | yes l ↦ raised-fixed t s v (inl l)
    | no nl ↦ elim (dec_lt last_free v) [
      | yes g ↦ raised-fixed t s v (inr g)
      | no ng ↦
          let same : put s.handlers i h (v - 32) ≡ s.handlers (v - 32) =
            rw (eqb_false (v - 32) i (λ q. ne (omega (arith, q, nl)))) refl in
          raised-handler t v (omega (arith, nl)) (omega (arith, ng))
          ∙ ap (λ x. (handler (v - 32), x)) (ap (λ g. g (v - 32)) e ∙ same)
          ∙ sym (raised-handler s v (omega (arith, nl)) (omega (arith, ng)))
    ]
  ]
