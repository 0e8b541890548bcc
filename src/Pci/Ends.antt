-- ===== src/Pci/Ends.antt =====
-- That the scan of the PCI buses ends (kernel/src/arch/x86_64/pci.rs, `Resolver`).
use snek_os.Prelude.{
  ℕ, zero, suc, ◌+◌, ◌-◌, ◌≤◌, ◌<◌, ◌&&◌, Bool-cases, Option, none, Option-cases, List, [], ◌∷◌,
  inl, inr, ◌≡◌, ◌≢◌, refl, arith,
}
use snek_os.Pci.{
  Address, HeaderType, endpoint, pci_pci_bridge, other_type, Config, Devices, function_exists,
  no_device, scan_header, scan_function, at, scan_device, scan_bus, scan_segment, scan_segments,
  resolve,
}
use snek_os.Pci.Loops.{for_each-ends}

-- Firmware has numbered the buses: a bridge leads to buses of higher numbers, which are bytes.
pub record IsNumbered (cfg : Config) : Type 0 where
  pub ascends :
      (a : Address) → cfg.header_type a ≡ pci_pci_bridge → a.bus < cfg.secondary_bus_number a
  pub is_byte : (a : Address) → cfg.subordinate_bus_number a < 256

module _ (cfg : Config) (numbered : IsNumbered cfg) where
  -- A scan that ends from every state.
  abbrev Ends : (Devices cfg → Option (Devices cfg)) → Type 0
  Ends m = (d : Devices cfg) → m d ≢ none

  Ends-scan_header :
      (scan : ℕ → Devices cfg → Option (Devices cfg)) (a : Address) (t : HeaderType)
      → cfg.header_type a ≡ t
      → ((bus : ℕ) → a.bus < bus → bus < 256 → Ends (scan bus))
      → Ends (scan_header cfg scan a t)
  Ends-scan_header scan a endpoint kind ends d = λ e. cc
  Ends-scan_header scan a other_type kind ends d = λ e. cc
  Ends-scan_header scan a pci_pci_bridge kind ends d =
      let low = numbered.ascends a kind in
      let high = numbered.is_byte a in
      for_each-ends scan (cfg.secondary_bus_number a)
        (cfg.subordinate_bus_number a + 1 - cfg.secondary_bus_number a) d
        (λ k b lo hi. ends k (omega (arith, lo)) (omega (arith, lo, hi)) b)

  Ends-scan_function :
      (scan : ℕ → Devices cfg → Option (Devices cfg)) (a : Address)
      → ((bus : ℕ) → a.bus < bus → bus < 256 → Ends (scan bus))
      → Ends (scan_function cfg scan a)
  unfolding scan_function
  Ends-scan_function scan a ends d = elim (Bool-cases (function_exists cfg a)) [
    | inr absent ↦ rw absent (λ e. cc)
    | inl there ↦ elim (Bool-cases (no_device cfg (cfg.id a))) [
      | inl unknown ↦ rw (there, unknown) (λ e. cc)
      | inr known ↦ rw (there, known) (Ends-scan_header scan a (cfg.header_type a) refl ends d)
    ]
  ]

  Ends-scan_device :
      (scan : ℕ → Devices cfg → Option (Devices cfg)) (segment bus device : ℕ)
      → ((b : ℕ) → bus < b → b < 256 → Ends (scan b))
      → Ends (scan_device cfg scan segment bus device)
  unfolding scan_device
  Ends-scan_device scan segment bus device ends d =
      elim (Bool-cases (function_exists cfg (at cfg segment bus device 0))) [
        | inr absent ↦ λ e. cc (e, absent)
        | inl there ↦ elim (Option-cases (scan_function cfg scan (at cfg segment bus device 0) d)) [
          | inl stuck ↦ absurd (Ends-scan_function scan (at cfg segment bus device 0) ends d stuck)
          | inr (d1, done) ↦
              elim (Bool-cases (cfg.has_multiple_functions (at cfg segment bus device 0))) [
                | inr single ↦ λ e. cc (e, there, done, single)
                | inl multiple ↦ λ e.
                    for_each-ends (λ f. scan_function cfg scan (at cfg segment bus device f)) 1 7 d1
                      (λ k b lo hi. Ends-scan_function scan (at cfg segment bus device k) ends b)
                      (cc (e, there, done, multiple))
              ]
        ]
      ]

  Ends-scan_bus :
      (depth segment bus : ℕ)
      → bus < 256
      → 256 ≤ bus + depth
      → Ends (scan_bus cfg depth segment bus)
  unfolding scan_bus
  Ends-scan_bus zero segment bus lt le d = absurd (omega (arith, lt, le))
  Ends-scan_bus (suc depth) segment bus lt le d =
      for_each-ends (scan_device cfg (scan_bus cfg depth segment) segment bus) 0 32 d (λ k b lo hi.
        Ends-scan_device (scan_bus cfg depth segment) segment bus k
          (λ c above byte. Ends-scan_bus depth segment c byte (omega (arith, above, le))) b)

  Ends-scan_segment : (segment : ℕ) → Ends (scan_segment cfg 256 segment)
  unfolding scan_segment
  Ends-scan_segment segment d =
      elim (Bool-cases (
        function_exists cfg (at cfg segment 0 0 0)
        && cfg.has_multiple_functions (at cfg segment 0 0 0))) [
          | inl many ↦ rw many (
              for_each-ends (scan_bus cfg 256 segment) 0 8 d
                (λ k b lo hi. Ends-scan_bus 256 segment k (omega (arith, hi)) (omega arith) b))
          | inr one ↦ rw one (Ends-scan_bus 256 segment 0 (omega arith) (omega arith) d)
        ]

  Ends-scan_segments : (segments : List ℕ) → Ends (scan_segments cfg 256 segments)
  unfolding scan_segments
  Ends-scan_segments [] d = λ e. cc
  Ends-scan_segments (s ∷ ss) d = elim (Option-cases (scan_segment cfg 256 s d)) [
    | inl stuck ↦ absurd (Ends-scan_segment s d stuck)
    | inr (d1, done) ↦ λ e. Ends-scan_segments ss d1 (cc (e, done))
  ]

  -- Where every bridge leads to buses of higher numbers, the scan ends, and no more than 256 bridges stand
  -- behind each other.
  pub resolve-ends : resolve cfg 256 ≢ none
  unfolding resolve
  resolve-ends = Ends-scan_segments cfg.segments (λ a. none)
