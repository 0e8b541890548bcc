-- ===== src/Memory/Map.antt =====
-- What `map_pages_from` maps (kernel/src/arch/x86_64/memory.rs).
use snek_os.Prelude.{
  ℕ, zero, suc, ◌+◌, ◌-◌, ◌*◌, ◌/◌, ◌%◌, ◌≤◌, ◌<◌, false, some, Option-cases, ◌≡◌, ◌⊎◌, inl, inr,
  sym, ap, ◌∙◌, arith, dec_lt,
}
use mathlib.Core.Path.{subst}
use mathlib.Core.Option.{some-injective}
use snek_os.Memory.{
  page_size, align_down, FrameAllocator, Paging, State, PageRange, user_flags, available,
  search_free_addr_from, map_pages, num_pages, map_pages_from,
}
use snek_os.Memory.Search.{Found, search_free_addr_from-Found}

-- What the crates document: a page that `map_to` has mapped leads to its frame, byte for byte, and other
-- addresses lead where they led; and the pages of a number of bytes hold them.
pub record Laws (pg : Paging) : Type 0 where
  pub mapped :
      (t t' : pg.Table) (page frame flags : ℕ) (fa fa' : FrameAllocator)
      → pg.map_to t page frame flags fa ≡ some (t', fa')
      → (o : ℕ) → o < page_size
      → pg.translate_addr t' (page + o) ≡ some (frame + o)
  pub kept :
      (t t' : pg.Table) (page frame flags : ℕ) (fa fa' : FrameAllocator)
      → pg.map_to t page frame flags fa ≡ some (t', fa')
      → (a : ℕ) → (a < page) ⊎ (page + page_size ≤ a)
      → pg.translate_addr t' a ≡ pg.translate_addr t a
  pub enough : (bytes : ℕ) → bytes ≤ page_size * pg.as_num_of_pages bytes

module _ (pg : Paging) (laws : Laws pg) where
  -- Pages `i` up to `i + n` lead to their frames, and other addresses lead where they led.
  record Mapped (n i virt frame : ℕ) (t t' : pg.Table) : Type 0 where
    pub inside :
        (j o : ℕ)
        → i ≤ j
        → j < i + n
        → o < page_size
        → pg.translate_addr t' (virt + page_size * j + o) ≡ some (frame + page_size * j + o)
    pub outside :
        (a : ℕ)
        → (a < virt + page_size * i) ⊎ (virt + page_size * (i + n) ≤ a)
        → pg.translate_addr t' a ≡ pg.translate_addr t a

  map_pages-Mapped :
      (n i virt frame : ℕ) (t : pg.Table) (fa : FrameAllocator) (t' : pg.Table)
      (fa' : FrameAllocator)
      → virt % page_size ≡ 0
      → frame % page_size ≡ 0
      → map_pages pg n i virt frame t fa ≡ some (t', fa')
      → Mapped n i virt frame t t'
  unfolding map_pages
  map_pages-Mapped zero i virt frame t fa t' fa' va fr e =
      let same : t ≡ t' = cc e in
      record { inside = λ j o le lt. absurd (omega (arith, le, lt)); outside = λ a out. cc same }
  map_pages-Mapped (suc n) i virt frame t fa t' fa' va fr e =
      let ev : align_down (virt + page_size * i) ≡ virt + page_size * i = omega arith in
      let ef : align_down (frame + page_size * i) ≡ frame + page_size * i = omega arith in
      elim (Option-cases (
        pg.map_to t (align_down (virt + page_size * i)) (align_down (frame + page_size * i))
          user_flags fa)) [
            | inl failed ↦ absurd (cc (e, failed))
            | inr ((t1, fa1), done) ↦
                let rest : map_pages pg n (i + 1) virt frame t1 fa1 ≡ some (t', fa') =
                  cc (e, done) in
                let m = map_pages-Mapped n (i + 1) virt frame t1 fa1 t' fa' va fr rest in
                let first = laws.mapped t t1 _ _ user_flags fa fa1 done in
                let others = laws.kept t t1 _ _ user_flags fa fa1 done in
                record {
                  inside = λ j o le lt small. elim (dec_lt i j) [
                    | yes later ↦ m.inside j o (omega arith) (omega arith) small
                    | no nlt ↦
                        let here : j ≡ i = omega (arith, nlt, le) in
                        rw (here) (
                          m.outside (virt + page_size * i + o) (inl (omega arith))
                          ∙ rw (← ev, ← ef) (first o small))
                  ];
                  outside = λ a out.
                      m.outside a
                        (elim out [ inl l ↦ inl (omega arith) | inr g ↦ inr (omega arith) ])
                      ∙ others a
                          (elim out [ inl l ↦ inl (omega arith) | inr g ↦ inr (omega arith) ]);
                }
          ]

  -- What a call that succeeds has done.
  record Done (start object_size : ℕ) (region : PageRange) (s : State pg) (v : ℕ) (s' : State pg)
      : Type 0 where
    pub virt : ℕ
    pub at : v ≡ virt + start % page_size
    pub found :
        Found
          (available pg s.mapper)
          (num_pages pg start object_size)
          region.first
          region.pages
          (some virt)
    pub pages : Mapped (num_pages pg start object_size) 0 virt (align_down start) s.mapper s'.mapper
    aligned : virt % page_size ≡ 0

  map_pages_from-Done :
      (start object_size : ℕ) (region : PageRange) (s : State pg) (v : ℕ) (s' : State pg)
      → region.first % page_size ≡ 0
      → map_pages_from pg start object_size region s ≡ some (v, s')
      → Done start object_size region s v s'
  unfolding map_pages_from
  map_pages_from-Done start object_size region s v s' ra e =
      let n = num_pages pg start object_size in
      let en = laws.enough (align_down (start + object_size) - align_down start + 1) in
      let positive : 0 < n = omega (arith, en) in
      let found = search_free_addr_from-Found (available pg s.mapper) n region positive in
      elim (Option-cases (search_free_addr_from (available pg s.mapper) n region)) [
        | inl failed ↦ absurd (cc (e, failed))
        | inr (virt, at) ↦
            let found' =
              subst (Found (available pg s.mapper) n region.first region.pages) at found in
            let va : virt % page_size ≡ 0 = omega (arith, found'.1, ra) in
            elim (Option-cases
              (map_pages pg n 0 virt (align_down start) s.mapper s.frame_allocator)) [
                | inl failed ↦ absurd (cc (e, at, failed))
                | inr ((t, fa), done) ↦
                    let r : ℕ × State pg =
                      (virt + start % page_size, record s { mapper = t; frame_allocator = fa }) in
                    let same : some r ≡ some (v, s') = cc (e, at, done) in
                    let pair = some-injective _ _ same in
                    record {
                      virt = virt;
                      at = sym (ap (λ p. p.0) pair);
                      found = found';
                      pages =
                          subst
                            (λ (z : State pg). Mapped n 0 virt (align_down start) s.mapper z.mapper)
                            (ap (λ p. p.1) pair)
                            (map_pages-Mapped n 0 virt (align_down start) s.mapper s.frame_allocator
                              t fa va (omega arith) done);
                      aligned = va;
                    }
              ]
      ]

  -- Where the range starts at a page, each byte of an object that `map_pages_from` has mapped is
  -- found behind the address that it returned.
  pub map_pages_from-translates :
      (start object_size : ℕ) (region : PageRange) (s : State pg) (v : ℕ) (s' : State pg)
      → region.first % page_size ≡ 0
      → map_pages_from pg start object_size region s ≡ some (v, s')
      → (o : ℕ) → o ≤ object_size
      → pg.translate_addr s'.mapper (v + o) ≡ some (start + o)
  map_pages_from-translates start object_size region s v s' ra e o le =
      let d = map_pages_from-Done start object_size region s v s' ra e in
      let n = num_pages pg start object_size in
      let en = laws.enough (align_down (start + object_size) - align_down start + 1) in
      let off = start % page_size + o in
      let lt : off / page_size < 0 + n = omega (arith, en, le) in
      let to = d.pages.inside (off / page_size) (off % page_size) (omega arith) lt (omega arith) in
      let ev : d.virt + page_size * (off / page_size) + off % page_size ≡ v + o =
        omega (arith, d.at) in
      let ef : align_down start + page_size * (off / page_size) + off % page_size ≡ start + o =
        omega arith in
      ap (pg.translate_addr s'.mapper) (sym ev) ∙ to ∙ ap some ef

  -- Where the range starts at a page, a call of `map_pages_from` that succeeds leaves every address alone
  -- whose page was not available before it.
  pub map_pages_from-keeps :
      (start object_size : ℕ) (region : PageRange) (s : State pg) (v : ℕ) (s' : State pg)
      → region.first % page_size ≡ 0
      → map_pages_from pg start object_size region s ≡ some (v, s')
      → (a : ℕ) → available pg s.mapper (align_down a) ≡ false
      → pg.translate_addr s'.mapper a ≡ pg.translate_addr s.mapper a
  map_pages_from-keeps start object_size region s v s' ra e a taken =
      let d = map_pages_from-Done start object_size region s v s' ra e in
      let n = num_pages pg start object_size in
      elim (dec_lt a d.virt) [
        | yes below ↦ d.pages.outside a (inl (omega arith))
        | no nbelow ↦ elim (dec_lt a (d.virt + page_size * (0 + n))) [
          | no above ↦ d.pages.outside a (inr (omega (arith, above)))
          | yes inside ↦
              let i = d.found.0 in
              let j = (a - d.virt) / page_size in
              let al = d.aligned in
              let free = d.found.3 j (omega (arith, inside, nbelow)) in
              let here : region.first + page_size * (i + j) ≡ align_down a =
                omega (arith, d.found.1, al, nbelow) in
              absurd (cc (free, taken, here))
        ]
      ]
