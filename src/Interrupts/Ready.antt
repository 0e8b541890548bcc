-- ===== src/Interrupts/Ready.antt =====
-- What `init_ioapic` leaves (kernel/src/arch/x86_64/interrupts.rs).
use snek_os.Prelude.{
  ℕ, ◌+◌, ◌≤◌, max, true, false, Bool-cases, Option, none, some, Option-cases, List, [], ◌∷◌, set,
  ltb, ◌≡◌, ◌⊎◌, inl, inr, refl, arith, dec_lt, All, All-map,
}
use mathlib.Core.Path.{subst}
use mathlib.Core.Option.{some-injective}
use snek_os.Interrupts.{Apic, IoApicWithInfo, Interrupts}
use snek_os.Interrupts.Setup.{
  ApicInfo, num_io_apics, comes_before, insert_slot, sort_slots, last_vector, slot, init_io_apics,
  init_ioapic,
}

module _ (F : Type 0) (lib : Apic) where
  -- Each slot comes before all that follow it.
  abbrev pub IsOrdered : List (Option (IoApicWithInfo lib)) → Type 0
  IsOrdered [] = Unit {0}
  IsOrdered (a ∷ bs) = All (λ b. comes_before F lib a b ≡ true) bs × IsOrdered bs

  comes_before_total :
      (a b : Option (IoApicWithInfo lib))
      → comes_before F lib a b ≡ false
      → comes_before F lib b a ≡ true
  comes_before_total none none e = refl
  comes_before_total none (some b) e = refl
  comes_before_total (some a) none e = absurd (cc e)
  comes_before_total (some a) (some b) e = ground arith

  comes_before_trans :
      (a b c : Option (IoApicWithInfo lib))
      → comes_before F lib a b ≡ true
      → comes_before F lib b c ≡ true
      → comes_before F lib a c ≡ true
  comes_before_trans none none c e f = f
  comes_before_trans none (some b) c e f = absurd (cc e)
  comes_before_trans (some a) none none e f = refl
  comes_before_trans (some a) none (some c) e f = absurd (cc f)
  comes_before_trans (some a) (some b) none e f = refl
  comes_before_trans (some a) (some b) (some c) e f = ground arith

  insert_slot-All :
      (P : Option (IoApicWithInfo lib) → Type 0) (a : Option (IoApicWithInfo lib))
      (bs : List (Option (IoApicWithInfo lib)))
      → P a
      → All P bs
      → All P (insert_slot F lib a bs)
  unfolding insert_slot
  insert_slot-All P a [] p h = (p, tt)
  insert_slot-All P a (b ∷ bs) p h = elim (Bool-cases (comes_before F lib a b)) [
    | inl e ↦ rw e (p, h)
    | inr e ↦ rw e (h.0, insert_slot-All P a bs p h.1)
  ]

  insert_slot-IsOrdered :
      (a : Option (IoApicWithInfo lib)) (bs : List (Option (IoApicWithInfo lib)))
      → IsOrdered bs
      → IsOrdered (insert_slot F lib a bs)
  unfolding insert_slot
  insert_slot-IsOrdered a [] h = (tt, tt)
  insert_slot-IsOrdered a (b ∷ bs) h = elim (Bool-cases (comes_before F lib a b)) [
    | inl e ↦ rw e (
      (
        e,
        All-map (λ c. comes_before F lib a c ≡ true) (λ c f. comes_before_trans a b c e f) bs h.0,
      ),
      h,
    )
    | inr e ↦ rw e (
      insert_slot-All (λ c. comes_before F lib b c ≡ true) a bs (comes_before_total a b e) h.0,
      insert_slot-IsOrdered a bs h.1,
    )
  ]

  sort_slots-IsOrdered :
      (slots : List (Option (IoApicWithInfo lib))) → IsOrdered (sort_slots F lib slots)
  unfolding sort_slots
  sort_slots-IsOrdered [] = tt
  sort_slots-IsOrdered (a ∷ slots) =
      insert_slot-IsOrdered a (sort_slots F lib slots) (sort_slots-IsOrdered slots)

  module _ (map_address : ℕ → ℕ → ℕ) where
    -- The vector is that of the last pin of one of the APICs, or the one given.
    abbrev pub IsSomeLast : List ApicInfo → ℕ → ℕ → Type 0
    IsSomeLast [] from v = from ≡ v
    IsSomeLast (info ∷ infos) from v =
        (last_vector F lib map_address info ≡ v) ⊎ IsSomeLast infos from v

    IsSomeLast-max :
        (infos : List ApicInfo) (x y v : ℕ)
        → IsSomeLast infos (max x y) v
        → (y ≡ v) ⊎ IsSomeLast infos x v
    IsSomeLast-max [] x y v h = elim (dec_lt x y) [
      | yes l ↦ inl (omega (arith, h, l))
      | no nl ↦ inr (omega (arith, h, nl))
    ]
    IsSomeLast-max (info ∷ infos) x y v (inl e) = inr (inl e)
    IsSomeLast-max (info ∷ infos) x y v (inr h) = elim (IsSomeLast-max infos x y v h) [
      | inl e ↦ inl e
      | inr k ↦ inr (inr k)
    ]

    init_io_apics-last :
        (infos : List ApicInfo) (i : ℕ) (slots : List (Option (IoApicWithInfo lib))) (from : ℕ)
        (slots' : List (Option (IoApicWithInfo lib))) (v : ℕ)
        → init_io_apics F lib map_address infos i slots from ≡ some (slots', v)
        → (from ≤ v)
          × All (λ info. last_vector F lib map_address info ≤ v) infos
          × IsSomeLast infos from v
    unfolding init_io_apics
    init_io_apics-last [] i slots from slots' v e =
        let same : from ≡ v = cc e in (omega (arith, same), tt, same)
    init_io_apics-last (info ∷ infos) i slots from slots' v e =
        elim (Bool-cases (ltb i num_io_apics)) [
          | inr out ↦ absurd (cc (e, out))
          | inl room ↦
              let last = last_vector F lib map_address info in
              let (le, all, some_last) =
                init_io_apics-last infos (i + 1) (set slots i (some (slot F lib map_address info)))
                  (max from last) slots' v (cc (e, room)) in
              (
                omega (arith, le),
                (omega (arith, le), all),
                IsSomeLast-max infos from last v some_last,
              )
        ]

    -- When `init_ioapic` does not panic, the I/O APICs are in the order of their bases with the empty
    -- slots behind them; the vectors for messages start at the highest of the vectors of the last pins,
    -- which is one of them, or 0 where there is no I/O APIC.
    pub init_ioapic-IsOrdered :
        (infos : List ApicInfo) (s s' : Interrupts F lib)
        → init_ioapic F lib map_address infos s ≡ some s'
        → IsOrdered s'.io_apics
          × All (λ info. last_vector F lib map_address info ≤ s'.first_free) infos
          × IsSomeLast infos 0 s'.first_free
    unfolding init_ioapic
    init_ioapic-IsOrdered infos s s' e =
        elim (Option-cases (init_io_apics F lib map_address infos 0 s.io_apics 0)) [
          | inl failed ↦ absurd (cc (e, failed))
          | inr ((slots, v), done) ↦
              let r : Interrupts F lib = record s {
                io_apics = sort_slots F lib slots;
                first_free = v;
              } in
              let same : r ≡ s' = some-injective r s' (cc (e, done)) in
              let (_, all, last) = init_io_apics-last infos 0 s.io_apics 0 slots v done in
              subst
                (λ (z : Interrupts F lib).
                  IsOrdered z.io_apics
                  × All (λ info. last_vector F lib map_address info ≤ z.first_free) infos
                  × IsSomeLast infos 0 z.first_free)
                same (sort_slots-IsOrdered slots, all, last)
        ]
