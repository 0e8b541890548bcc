-- ===== src/Interrupts/Msi.antt =====
-- Interrupts by message (kernel/src/arch/x86_64/interrupts.rs, `set_interrupt_msi` and `drop`).
use mathlib.Core.Option.{some-injective}
use snek_os.Prelude.{
  ℕ, zero, suc, ◌+◌, ◌-◌, ◌≤◌, ◌<◌, Bool, true, false, Bool-cases, Option, none, some, List, [],
  ◌∷◌, ltb, ltb-false, lt→ltb, ◌==◌, ==_iff, eqb_false, ◌≡◌, ◌≢◌, ◌⊎◌, inl, inr, refl, ap, ◌∙◌,
  arith, dec_lt,
}
use snek_os.Interrupts.{
  InterruptHandler, no_handler, static_handler, dynamic_handler, handler, Apic, PciCapability, msi,
  msi_x, other_capability, InterruptGuard, io_apic_guard, msi_guard, msi_x_guard, PciWrite,
  set_enabled, set_message_info, write_table, Interrupts, raised, put, num_handlers, last_free,
}
use snek_os.Interrupts.Handlers.{
  write_entry, is_none, first_free_vector, map_message, chosen, install, set_interrupt_msi, drop,
}
use snek_os.Interrupts.Vectors.{raised-handler, raised-other}

-- The first free vector of those from `i` on: none of the `n` is free, or the result is and those before
-- it are not.
abbrev pub IsFirstFree : (ℕ → Bool) → ℕ → ℕ → ℕ → Type 0
IsFirstFree free i n v =
    (v ≡ 0) × ((k : ℕ) → i ≤ k → k < i + n → free (k - 32) ≡ false)
    ⊎ (free (v - 32) ≡ true)
      × (i ≤ v)
      × (v < i + n)
      × ((k : ℕ) → i ≤ k → k < v → free (k - 32) ≡ false)

IsFirstFree-extend :
    (free : ℕ → Bool) (i end : ℕ)
    → free (i - 32) ≡ false
    → ((k : ℕ) → i + 1 ≤ k → k < end → free (k - 32) ≡ false)
    → (k : ℕ) → i ≤ k
    → k < end
    → free (k - 32) ≡ false
IsFirstFree-extend free i end taken h k lo hi = elim (dec_lt i k) [
  | yes l ↦ h k (omega (arith, l)) hi
  | no nl ↦ let e : k ≡ i = omega (arith, nl, lo) in rw e taken
]

first_free_vector-IsFirstFree :
    (free : ℕ → Bool) (i n : ℕ) → IsFirstFree free i n (first_free_vector free i n)
unfolding first_free_vector
first_free_vector-IsFirstFree free i zero = inl (refl, λ k lo hi. absurd (omega (arith, lo, hi)))
first_free_vector-IsFirstFree free i (suc n) = elim (Bool-cases (free (i - 32))) [
  | inl yes_free ↦
      rw yes_free
        (inr (yes_free, omega arith, omega arith, (λ k lo hi. absurd (omega (arith, lo, hi)))))
  | inr taken ↦ rw taken (elim (first_free_vector-IsFirstFree free (i + 1) n) [
    | inl (z, all) ↦
        inl
          (z, IsFirstFree-extend free i (i + suc n) taken (λ k lo hi. all k lo (omega (arith, hi))))
    | inr (is_free, lo, hi, before) ↦ inr (
      is_free,
      omega arith,
      omega arith,
      IsFirstFree-extend free i (first_free_vector free (i + 1) n) taken before,
    )
  ])
]

-- A device that can send messages.
abbrev pub has_messages : List PciCapability → Bool
has_messages [] = false
has_messages (msi c ∷ cs) = true
has_messages (msi_x c ∷ cs) = true
has_messages (other_capability ∷ cs) = has_messages cs

-- The vector of a guard for messages.
abbrev pub message_vector : InterruptGuard → Option ℕ
message_vector (io_apic_guard g) = none
message_vector (msi_guard c v) = some v
message_vector (msi_x_guard c v) = some v

-- Each table of messages lies in memory of its device.
abbrev pub HasTables : (ℕ → Option ℕ) → Type 0
HasTables table = (c : ℕ) → (address : ℕ) × (table c ≡ some address)

-- What a device is told on the PCI bus to raise a vector by message, by the first of its capabilities for
-- messages: the address 0xFEE00000 and the vector, in the capability or in the first entry of its table,
-- where the entry is not masked, and then that messages are enabled. The last write stands first.
pub data Told (table : ℕ → Option ℕ) (vector : ℕ) (before : List PciWrite)
    : List PciCapability → InterruptGuard → List PciWrite → Type 0 where
  by_msi :
      (c : ℕ) (cs : List PciCapability)
      → Told table vector before
          (msi c ∷ cs)
          (msi_guard c vector)
          (set_enabled c true ∷ set_message_info c 0xFEE00000 vector ∷ before)
  by_msi_x :
      (c address : ℕ) (cs : List PciCapability)
      → table c ≡ some address
      → Told table vector before
          (msi_x c ∷ cs)
          (msi_x_guard c vector)
          (set_enabled c true ∷ write_table address 0xFEE00000 0 vector 0 ∷ before)
  behind :
      {cs : List PciCapability} {g : InterruptGuard} {after : List PciWrite}
      → Told table vector before cs g after
      → Told table vector before (other_capability ∷ cs) g after

map_message_lem :
    (table : ℕ → Option ℕ) (cs : List PciCapability) (gsi : ℕ) (pci : List PciWrite)
    → HasTables table
    → (has_messages cs ≡ false) × (map_message table cs gsi pci ≡ some (none, pci))
      ⊎ ((g : InterruptGuard) × (pci' : List PciWrite) × (has_messages cs ≡ true)
          × (map_message table cs gsi pci ≡ some (some g, pci'))
          × (message_vector g ≡ some gsi)
          × Told table gsi pci cs g pci')
unfolding map_message
map_message_lem table [] gsi pci tables = inl (refl, refl)
map_message_lem table (msi c ∷ cs) gsi pci tables =
    inr (msi_guard c gsi, _, refl, refl, refl, by_msi c cs)
map_message_lem table (msi_x c ∷ cs) gsi pci tables =
    let (address, e) = tables c in
    inr (
      msi_x_guard c gsi,
      _,
      refl,
      ap (λ t. write_entry t c gsi pci) e,
      refl,
      by_msi_x c address cs e,
    )
map_message_lem table (other_capability ∷ cs) gsi pci tables =
    elim (map_message_lem table cs gsi pci tables) [
      | inl nothing ↦ inl nothing
      | inr (g, pci', messages, e, named, told) ↦ inr (g, pci', messages, e, named, behind told)
    ]

is_none-no_handler : {F : Type 0} (h : InterruptHandler F) → is_none h ≡ true → h ≡ no_handler
is_none-no_handler no_handler e = refl
is_none-no_handler (static_handler f) e = absurd (cc e)
is_none-no_handler (dynamic_handler f) e = absurd (cc e)

module _ (F : Type 0) (lib : Apic) where
  -- What a message interrupt for `f` has done: its vector, the first free one, now runs `f`, the device
  -- has been told to raise it, and all other vectors run what they ran.
  pub record Installed (table : ℕ → Option ℕ) (capabilities : List PciCapability)
      (s s' : Interrupts F lib) (f : F) (g : InterruptGuard) : Type 0 where
    pub vector : ℕ
    pub told : Told table vector s.pci capabilities g s'.pci
    pub named : message_vector g ≡ some vector
    pub lowest : s.first_free ≤ vector
    pub highest : vector ≤ last_free
    pub was_free : raised F lib s vector ≡ (handler (vector - 32), no_handler)
    pub before : (k : ℕ) → s.first_free ≤ k → k < vector → is_none (raised F lib s k).1 ≡ false
    pub runs : raised F lib s' vector ≡ (handler (vector - 32), dynamic_handler f)
    pub others : (v : ℕ) → v ≢ vector → raised F lib s' v ≡ raised F lib s v

  -- No vector is left for messages.
  abbrev pub AllTaken : Interrupts F lib → Type 0
  AllTaken s = (k : ℕ) → s.first_free ≤ k → k ≤ last_free → is_none (raised F lib s k).1 ≡ false

  taken_at :
      (s : Interrupts F lib) (k : ℕ)
      → 32 ≤ k
      → k ≤ last_free
      → is_none (s.handlers (k - 32)) ≡ false
      → is_none (raised F lib s k).1 ≡ false
  taken_at s k lo hi e = rw (ap (λ p. p.1) (raised-handler F lib s k lo hi)) e

  install-Installed :
      (table : ℕ → Option ℕ) (capabilities : List PciCapability) (s : Interrupts F lib) (f : F)
      (g : InterruptGuard) (pci : List PciWrite) (v : ℕ)
      → Told table v s.pci capabilities g pci
      → 32 ≤ s.first_free
      → s.first_free ≤ v
      → v ≤ last_free
      → message_vector g ≡ some v
      → is_none (s.handlers (v - 32)) ≡ true
      → ((k : ℕ) → s.first_free ≤ k → k < v → is_none (s.handlers (k - 32)) ≡ false)
      → Installed table capabilities s
          (record s { handlers = put s.handlers (v - 32) (dynamic_handler f); pci = pci })
          f
          g
  install-Installed table capabilities s f g pci v told base lo hi named free before =
      let t : Interrupts F lib = record s {
        handlers = put s.handlers (v - 32) (dynamic_handler f);
        pci = pci;
      } in
      record {
        vector = v;
        told = told;
        named = named;
        lowest = lo;
        highest = hi;
        was_free =
            raised-handler F lib s v (omega arith) hi
            ∙ ap (λ h. (handler (v - 32), h)) (is_none-no_handler (s.handlers (v - 32)) free);
        before = λ k kl kh. taken_at s k (omega arith) (omega arith) (before k kl kh);
        runs =
            raised-handler F lib t v (omega arith) hi
            ∙ ap (λ h. (handler (v - 32), h)) (rw ((==_iff (v - 32) (v - 32)).1 refl) refl);
        others = λ w ne.
            raised-other F lib s t (v - 32) w (dynamic_handler f) refl (λ q. ne (omega (arith, q)));
      }

  install-room :
      (s : Interrupts F lib) (v : ℕ) (f : F) (g : InterruptGuard) (pci : List PciWrite)
      → ltb (v - 32) num_handlers ≡ true
      → install F lib s v f (some g, pci)
        ≡ some
            (some g, record s { handlers = put s.handlers (v - 32) (dynamic_handler f); pci = pci })
  install-room s v f g pci room = rw (install, room) refl

  -- Where the vectors for messages start at 32 or later, and the device's tables of messages lie in its
  -- memory, `set_interrupt_msi` does not panic. It yields
  -- nothing, and changes nothing, exactly where the device cannot send messages or no vector is left;
  -- else the device's first capability for messages is given the address 0xFEE00000 and the first free
  -- vector, unmasked, and is enabled after that; the vector runs the closure from then on, while the other
  -- vectors run what they ran.
  pub set_interrupt_msi-Installed :
      (table : ℕ → Option ℕ) (capabilities : List PciCapability) (s : Interrupts F lib) (f : F)
      → HasTables table
      → 32 ≤ s.first_free
      → ((has_messages capabilities ≡ false) ⊎ AllTaken s)
          × (set_interrupt_msi F lib table capabilities s f ≡ some (none, s))
        ⊎ ((g : InterruptGuard) × (s' : Interrupts F lib) × (set_interrupt_msi F lib table
                capabilities s f
              ≡ some (some g, s'))
            × (has_messages capabilities ≡ true)
            × Installed table capabilities s s' f g)
  unfolding set_interrupt_msi
  set_interrupt_msi-Installed table capabilities s f tables base =
      let free : ℕ → Bool = λ i. is_none (s.handlers i) in
      let low : ltb s.first_free 32 ≡ false = ltb-false s.first_free 32 base in
      elim (first_free_vector-IsFirstFree free s.first_free (last_free + 1 - s.first_free)) [
        | inl (z, all) ↦ inl (
          inr (λ k lo hi. taken_at s k (omega arith) hi (all k lo (omega arith))),
          rw (set_interrupt_msi, low, z) refl,
        )
        | inr (is_free, lo, hi, before) ↦
            let v = chosen F lib s in
            let ne : (v == 0) ≡ false = eqb_false v 0 (λ q. omega (arith, q, lo, base)) in
            elim (map_message_lem table capabilities v s.pci tables) [
              | inl (no_messages, e) ↦
                  inl (inl no_messages, rw (set_interrupt_msi, low, ne, e) refl)
              | inr (g, pci, messages, e, named, told) ↦
                  let room : ltb (v - 32) num_handlers ≡ true =
                    lt→ltb (v - 32) num_handlers (omega (arith, hi)) in
                  inr (
                    g,
                    record s { handlers = put s.handlers (v - 32) (dynamic_handler f); pci = pci },
                    rw (set_interrupt_msi, low, ne, e) (install-room s v f g pci room),
                    messages,
                    install-Installed table capabilities s f g pci v told base lo
                        (omega (arith, hi, lo)) named is_free before,
                  )
            ]
      ]

  -- The capability of a guard for messages.
  abbrev pub message_capability : InterruptGuard → Option ℕ
  message_capability (io_apic_guard g) = none
  message_capability (msi_guard c v) = some c
  message_capability (msi_x_guard c v) = some c

  -- Both kinds of guards for messages are dropped alike.
  drop-message :
      (s : Interrupts F lib) (g : InterruptGuard) (v : ℕ)
      → message_vector g ≡ some v
      → v < num_handlers
      → (c : ℕ) × (message_capability g ≡ some c)
        × (drop F lib s g
            ≡ some (record s {
              handlers = put s.handlers v no_handler;
              pci = set_enabled c false ∷ s.pci;
            }))
  unfolding drop
  drop-message s (io_apic_guard g) v named room = absurd (cc named)
  drop-message s (msi_guard c w) v named room =
      let e : w ≡ v = some-injective w v named in (c, refl, rw (e, lt→ltb v num_handlers room) refl)
  drop-message s (msi_x_guard c w) v named room =
      let e : w ≡ v = some-injective w v named in (c, refl, rw (e, lt→ltb v num_handlers room) refl)

  -- Dropping a guard for messages, by MSI or by MSI-X, at a vector from 32 to 219 disables the messages of
  -- its capability, leaves that vector's handler installed, and removes the one of the vector 32 above it.
  pub drop-other_vector :
      (s : Interrupts F lib) (g : InterruptGuard) (v : ℕ)
      → message_vector g ≡ some v
      → 32 ≤ v
      → v + 32 ≤ last_free
      → (s' : Interrupts F lib) × (drop F lib s g ≡ some s')
        × ((c : ℕ) × (message_capability g ≡ some c) × (s'.pci ≡ set_enabled c false ∷ s.pci))
        × (raised F lib s' v ≡ raised F lib s v)
        × (raised F lib s' (v + 32) ≡ (handler v, no_handler))
  drop-other_vector s g v named lo hi =
      let (c, same, dropped) = drop-message s g v named (omega arith) in
      let t : Interrupts F lib = record s {
        handlers = put s.handlers v no_handler;
        pci = set_enabled c false ∷ s.pci;
      } in
      let e : v + 32 - 32 ≡ v = omega arith in
      let here : put s.handlers v no_handler v ≡ no_handler = rw ((==_iff v v).1 refl) refl in
      (
        t,
        dropped,
        (c, same, refl),
        raised-other F lib s t v v no_handler refl (λ q. omega (arith, q)),
        rw (raised-handler F lib t (v + 32) (omega arith) hi, e, here) refl,
      )
