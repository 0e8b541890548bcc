-- ===== src/Pci/Complete.antt =====
-- That the scan of the PCI buses misses nothing (kernel/src/arch/x86_64/pci.rs, `Resolver`).
use snek_os.Prelude.{
  ℕ, zero, suc, ◌<◌, true, ◌&&◌, Bool-cases, Option, none, some, Option-cases, List, [], ◌∷◌,
  ==_iff, inl, inr, ◌≡◌, ◌≢◌, ◌⊎◌, refl, sym, ap, arith,
}
use mathlib.Core.Path.{subst}
use mathlib.Core.Option.{some-injective}
use snek_os.Pci.{
  Address, same, Config, for_each, Devices, insert, function_exists, describe, scan_function, at,
  scan_bus, scan_segment, scan_segments, resolve,
}
use snek_os.Pci.Loops.{for_each-at}
use snek_os.Pci.Scan.{IsEndpoint, Stable, same-eq, Keeps-scan_bus, Keeps-scan_segments}
use snek_os.Pci.Reached.{Reached, here, behind, scan_device-OnBus, scan_bridge}

module _ (cfg : Config) where
  -- The endpoint is listed.
  abbrev pub Lists : Address → Devices cfg → Type 0
  Lists a d = d a ≡ some (describe cfg a)

  same_refl : (a : Address) → same a a ≡ true
  same_refl a =
      rw
        (
          (==_iff a.segment a.segment).1 refl,
          (==_iff a.bus a.bus).1 refl,
          (==_iff a.device a.device).1 refl,
          (==_iff a.function a.function).1 refl,
        )
        refl

  Lists-Stable : (a : Address) → Stable cfg (Lists a)
  Lists-Stable a d b end known = elim (Bool-cases (same a b)) [
    | inl eq ↦ rw eq (ap (λ c. some (describe cfg c)) (sym (same-eq a b eq)))
    | inr other ↦ rw other known
  ]

  scan_function-Lists :
      (scan : ℕ → Devices cfg → Option (Devices cfg)) (a : Address) (d d' : Devices cfg)
      → IsEndpoint cfg a
      → scan_function cfg scan a d ≡ some d'
      → Lists a d'
  unfolding scan_function
  scan_function-Lists scan a d d' end e =
      let r : insert cfg d a (describe cfg a) ≡ d' =
        some-injective (insert cfg d a (describe cfg a)) d'
          (cc (e, end.there, end.known, end.kind)) in
      subst (Lists a) r (rw (same_refl a) refl)

  scan_bus-zero : (segment bus : ℕ) (d d' : Devices cfg) → scan_bus cfg zero segment bus d ≢ some d'
  unfolding scan_bus
  scan_bus-zero segment bus d d' e = cc e

  Reached-Lists :
      (segment depth bus : ℕ) (a : Address)
      → Reached cfg segment bus a
      → IsEndpoint cfg a
      → (d d' : Devices cfg) → scan_bus cfg depth segment bus d ≡ some d'
      → Lists a d'
  Reached-Lists segment zero bus a r end d d' e = absurd (scan_bus-zero segment bus d d' e)
  Reached-Lists segment (suc depth) bus a (here on) end d d' e =
      scan_device-OnBus cfg (Lists a) (Lists-Stable a) segment depth bus a on
        (λ b b' q. scan_function-Lists (scan_bus cfg depth segment) a b b' end q) d d' e
  Reached-Lists segment (suc depth) bus a (behind {bus' = bus'} bridge on is r) end d d' e =
      scan_device-OnBus cfg (Lists a) (Lists-Stable a) segment depth bus bridge on
        (λ b b' q.
          scan_bridge cfg (Lists a) (Lists-Stable a) segment depth bridge bus' is b b' q
            (λ c c' q'. Reached-Lists segment depth bus' a r end c c' q'))
        d d' e

  -- The buses that the scan of a segment starts from.
  abbrev pub IsRoot : ℕ → ℕ → Type 0
  IsRoot segment bus =
      (bus ≡ 0)
      ⊎ (function_exists cfg (at cfg segment 0 0 0)
            && cfg.has_multiple_functions (at cfg segment 0 0 0)
          ≡ true)
        × (bus < 8)

  scan_segment-Lists :
      (segment depth bus : ℕ) (a : Address)
      → IsRoot segment bus
      → Reached cfg segment bus a
      → IsEndpoint cfg a
      → (d d' : Devices cfg) → scan_segment cfg depth segment d ≡ some d'
      → Lists a d'
  unfolding scan_segment
  scan_segment-Lists segment depth bus a root r end d d' e =
      let all : bus < 8 → for_each (scan_bus cfg depth segment) 0 8 d ≡ some d' → Lists a d' =
        λ lt q.
          for_each-at (scan_bus cfg depth segment) (Lists a) bus 0 8 d d'
            (Keeps-scan_bus cfg (Lists a) (Lists-Stable a) depth segment)
            (Reached-Lists segment depth bus a r end) (omega arith) (omega (arith, lt)) q in
      elim (Bool-cases (
        function_exists cfg (at cfg segment 0 0 0)
        && cfg.has_multiple_functions (at cfg segment 0 0 0))) [
          | inl many ↦ elim root [
            | inl zero_bus ↦ all (omega (arith, zero_bus)) (cc (e, many))
            | inr (_, lt) ↦ all lt (cc (e, many))
          ]
          | inr one ↦ elim root [
            | inl zero_bus ↦ Reached-Lists segment depth bus a r end d d' (cc (e, one, zero_bus))
            | inr (many, _) ↦ absurd (cc (one, many))
          ]
        ]

  abbrev pub IsSegment : ℕ → List ℕ → Type 0
  IsSegment s [] = ⊥
  IsSegment s (t ∷ ts) = (s ≡ t) ⊎ IsSegment s ts

  scan_segments-Lists :
      (segment depth bus : ℕ) (a : Address) (segments : List ℕ)
      → IsSegment segment segments
      → IsRoot segment bus
      → Reached cfg segment bus a
      → IsEndpoint cfg a
      → (d d' : Devices cfg) → scan_segments cfg depth segments d ≡ some d'
      → Lists a d'
  unfolding scan_segments
  scan_segments-Lists segment depth bus a [] is root r end d d' e = absurd is
  scan_segments-Lists segment depth bus a (t ∷ ts) is root r end d d' e =
      elim (Option-cases (scan_segment cfg depth t d)) [
        | inl stuck ↦ absurd (cc (e, stuck))
        | inr (d1, done) ↦ elim is [
          | inl eq ↦
              Keeps-scan_segments cfg (Lists a) (Lists-Stable a) depth ts d1 d' (cc (e, done)) (
                scan_segment-Lists segment depth bus a root r end d d1
                  (subst (λ s. scan_segment cfg depth s d ≡ some d1) (sym eq) done))
          | inr later ↦
              scan_segments-Lists segment depth bus a ts later root r end d1 d' (cc (e, done))
        ]
      ]

  -- A scan that ends lists every endpoint that can be reached from a root bus of one of the segments,
  -- through any number of bridges.
  pub resolve-Lists :
      (segment depth bus : ℕ) (a : Address) (d : Devices cfg)
      → IsSegment segment cfg.segments
      → IsRoot segment bus
      → Reached cfg segment bus a
      → IsEndpoint cfg a
      → resolve cfg depth ≡ some d
      → Lists a d
  unfolding resolve
  resolve-Lists segment depth bus a d is root r end e =
      scan_segments-Lists segment depth bus a cfg.segments is root r end (λ b. none) d e
