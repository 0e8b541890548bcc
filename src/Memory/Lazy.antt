-- ===== src/Memory/Lazy.antt =====
-- What a page fault maps (kernel/src/arch/x86_64/memory.rs, `lazy_map`).
use snek_os.Prelude.{
  ℕ, zero, suc, ◌==◌, eqb_false, ◌+◌, ◌≤◌, ◌<◌, Bool, true, false, ◌||◌, Bool-cases, Option, none,
  some, Option-cases, leb, ltb, ◌≡◌, ◌≢◌, ◌⊎◌, inl, inr, refl, sym, ap, ◌∙◌, arith, dec_lt,
}
use mathlib.Core.Path.{subst}
use mathlib.Core.Option.{some-injective}
use snek_os.Snalloc.Allocator.Kernel.{managed_start, managed_end}
use snek_os.Memory.{
  page_size, align_down, FrameAllocator, Paging, State, allocate_frame, lazy_flags, clear_byte,
  fill, lazy_map, lazy_map_page,
}
use snek_os.Memory.Map.{Laws}

module _ (pg : Paging) where
  -- The addresses that the fault handler provides for: those of the heap that lead nowhere.
  abbrev pub IsLazy : State pg → ℕ → Type 0
  IsLazy s a = (managed_start ≤ a) × (a < managed_end) × (pg.translate_addr s.mapper a ≡ none)

  -- What the handler has done: the page of the address leads to a frame of the frame allocator, byte for
  -- byte, whose bytes are zero; addresses outside the page lead where they led, and the bytes outside the
  -- frame are what they were.
  pub record Provided (s : State pg) (a : ℕ) (s' : State pg) : Type 0 where
    pub frame : ℕ
    pub taken : (allocate_frame s.frame_allocator).0 ≡ some frame
    pub leads :
        (o : ℕ) → o < page_size → pg.translate_addr s'.mapper (align_down a + o) ≡ some (frame + o)
    pub zeroed : (o : ℕ) → o < page_size → s'.bytes (frame + o) ≡ 0
    pub kept :
        (b : ℕ)
        → align_down b ≢ align_down a
        → pg.translate_addr s'.mapper b ≡ pg.translate_addr s.mapper b
    pub untouched : (p : ℕ) → (p < frame) ⊎ (frame + page_size ≤ p) → s'.bytes p ≡ s.bytes p

  -- `n` bytes from a virtual address on lead to as many from a physical one on.
  abbrev Leads : ℕ → pg.Table → ℕ → ℕ → Type 0
  Leads n t virt phys = (o : ℕ) → o < n → pg.translate_addr t (virt + o) ≡ some (phys + o)

  Leads-rest :
      (n : ℕ) (t : pg.Table) (virt phys : ℕ)
      → Leads (suc n) t virt phys
      → Leads n t (virt + 1) (phys + 1)
  Leads-rest n t virt phys leads o lt =
      let v : virt + 1 + o ≡ virt + suc o = omega arith in
      let p : phys + suc o ≡ phys + 1 + o = omega arith in
      ap (pg.translate_addr t) v ∙ leads (suc o) (omega arith) ∙ ap some p

  Leads-first :
      (n : ℕ) (t : pg.Table) (virt phys : ℕ)
      → Leads (suc n) t virt phys
      → pg.translate_addr t virt ≡ some phys
  Leads-first n t virt phys leads =
      let v : virt ≡ virt + 0 = omega arith in
      let p : phys + 0 ≡ phys = omega arith in
      ap (pg.translate_addr t) v ∙ leads 0 (omega arith) ∙ ap some p

  clear_byte-other : (q p : ℕ) (mem : ℕ → ℕ) → p ≢ q → clear_byte (some q) mem p ≡ mem p
  clear_byte-other q p mem ne = rw (eqb_false p q ne) refl

  fill-untouched :
      (n : ℕ) (t : pg.Table) (virt phys : ℕ) (mem : ℕ → ℕ)
      → Leads n t virt phys
      → (p : ℕ) → (p < phys) ⊎ (phys + n ≤ p)
      → fill pg n t virt mem p ≡ mem p
  unfolding fill
  fill-untouched zero t virt phys mem leads p out = refl
  fill-untouched (suc n) t virt phys mem leads p out =
      fill-untouched n t (virt + 1) (phys + 1) (clear_byte (pg.translate_addr t virt) mem)
        (Leads-rest n t virt phys leads) p
        (elim out [ inl l ↦ inl (omega arith) | inr g ↦ inr (omega arith) ])
      ∙ ap (λ o. clear_byte o mem p) (Leads-first n t virt phys leads)
      ∙ clear_byte-other phys p mem
          (λ e. elim out [ inl l ↦ omega (arith, e, l) | inr g ↦ omega (arith, e, g) ])

  fill-zeroed :
      (n : ℕ) (t : pg.Table) (virt phys : ℕ) (mem : ℕ → ℕ)
      → Leads n t virt phys
      → (o : ℕ) → o < n
      → fill pg n t virt mem (phys + o) ≡ 0
  unfolding fill
  fill-zeroed zero t virt phys mem leads o lt = absurd (omega arith)
  fill-zeroed (suc n) t virt phys mem leads zero lt =
      let p : phys + 0 ≡ phys = omega arith in
      let same : (phys == phys) ≡ true = ground arith in
      ap (fill pg n t (virt + 1) (clear_byte (pg.translate_addr t virt) mem)) p
      ∙ fill-untouched n t (virt + 1) (phys + 1) (clear_byte (pg.translate_addr t virt) mem)
          (Leads-rest n t virt phys leads) phys (inl (omega arith))
      ∙ ap (λ o. clear_byte o mem phys) (Leads-first n t virt phys leads)
      ∙ rw same refl
  fill-zeroed (suc n) t virt phys mem leads (suc o) lt =
      let p : phys + suc o ≡ phys + 1 + o = omega arith in
      ap (fill pg n t (virt + 1) (clear_byte (pg.translate_addr t virt) mem)) p
      ∙ fill-zeroed n t (virt + 1) (phys + 1) (clear_byte (pg.translate_addr t virt) mem)
          (Leads-rest n t virt phys leads) o (omega arith)

  apart :
      (a b : ℕ) → align_down b ≢ align_down a → (b < align_down a) ⊎ (align_down a + page_size ≤ b)
  apart a b ne = elim (dec_lt b (align_down a)) [
    | yes l ↦ inl l
    | no nl ↦ elim (dec_lt b (align_down a + page_size)) [
      | yes l ↦ absurd (ne (omega (arith, l, nl)))
      | no ng ↦ inr (omega (arith, ng))
    ]
  ]

  page-Provided :
      (laws : Laws pg) (s s' : State pg) (a : ℕ) (done : Bool) (frame : Option ℕ)
      (fa : FrameAllocator)
      → (allocate_frame s.frame_allocator).0 ≡ frame
      → lazy_map_page pg (align_down a) frame fa s ≡ some (done, s')
      → (done ≡ true) × Provided s a s'
  page-Provided laws s s' a done none fa taken e = absurd (cc e)
  page-Provided laws s s' a done (some frame) fa taken e =
      elim (Option-cases (pg.map_to s.mapper (align_down a) frame lazy_flags fa)) [
        | inl failed ↦ absurd (cc (e, failed))
        | inr ((t, fa'), mapped) ↦
            let r : Bool × State pg = (
              true,
              record {
                mapper = t;
                frame_allocator = fa';
                bytes = fill pg page_size t (align_down a) s.bytes;
              },
            ) in
            let same : some r ≡ some (done, s') = cc (e, mapped) in
            let pair = some-injective _ _ same in
            let leads : Leads page_size t (align_down a) frame =
              laws.mapped s.mapper t (align_down a) frame lazy_flags fa fa' mapped in
            (
              sym (ap (λ p. p.0) pair),
              subst (Provided s a) (ap (λ p. p.1) pair) (record {
                frame = frame;
                taken = taken;
                leads = leads;
                zeroed = fill-zeroed page_size t (align_down a) frame s.bytes leads;
                kept = λ b ne.
                    laws.kept s.mapper t (align_down a) frame lazy_flags fa fa' mapped b
                      (apart a b ne);
                untouched = fill-untouched page_size t (align_down a) frame s.bytes leads;
              }),
            )
      ]

  -- When `lazy_map` does not panic, it answers whether the address is one of the heap's that lead
  -- nowhere; if so, the address's page leads to a frame of the allocator, whose bytes in physical memory
  -- are zero, addresses outside the page lead where they led, and the bytes outside the frame are what
  -- they were, page tables apart; if not, nothing has changed.
  pub lazy_map-Provided :
      (laws : Laws pg) (a : ℕ) (s s' : State pg) (done : Bool)
      → lazy_map pg a s ≡ some (done, s')
      → (done ≡ true) × IsLazy s a × Provided s a s' ⊎ (done ≡ false) × (¬ IsLazy s a) × (s' ≡ s)
  unfolding lazy_map
  lazy_map-Provided laws a s s' done e =
      elim (Bool-cases (ltb a managed_start || leb managed_end a)) [
        | inl out ↦
            let r : Bool × State pg = (false, s) in
            let pair = some-injective r (done, s') (cc (e, out)) in
            inr (
              sym (ap (λ p. p.0) pair),
              (λ lazy. ground (arith, out, lazy)),
              sym (ap (λ p. p.1) pair),
            )
        | inr within ↦ elim (Option-cases (pg.translate_addr s.mapper a)) [
          | inr (b, leads) ↦
              let r : Bool × State pg = (false, s) in
              let pair = some-injective r (done, s') (cc (e, within, leads)) in
              inr (sym (ap (λ p. p.0) pair), (λ lazy. cc (leads, lazy.2)), sym (ap (λ p. p.1) pair))
          | inl nowhere ↦
              let (answer, provided) =
                page-Provided laws s s' a done (allocate_frame s.frame_allocator).0
                  (allocate_frame s.frame_allocator).1 refl (cc (e, within, nowhere)) in
              inl (answer, (ground (arith, within), ground (arith, within), nowhere), provided)
        ]
      ]
