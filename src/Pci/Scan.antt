-- ===== src/Pci/Scan.antt =====
-- What the scan of the PCI buses finds (kernel/src/arch/x86_64/pci.rs, `Resolver`).
use snek_os.Prelude.{
  ℕ, zero, suc, ◌+◌, ◌-◌, true, false, ◌&&◌, Bool-cases, Option, none, some, Option-cases, List, [],
  ◌∷◌, ==_iff, inl, inr, ◌≡◌, refl, sym, ap, ◌∙◌, arith,
}
use mathlib.Core.Path.{subst}
use mathlib.Core.Option.{some-injective}
use snek_os.Pci.{
  Address, same, HeaderType, endpoint, pci_pci_bridge, other_type, Config, PciDevice, Devices,
  insert, function_exists, describe, no_device, scan_header, scan_function, at, scan_others,
  scan_device, scan_bus, scan_segment, scan_segments, resolve,
}
use snek_os.Pci.Loops.{for_each-Kept}

pub same-eq : (a b : Address) → same a b ≡ true → a ≡ b
same-eq a b e =
    let s : a.segment ≡ b.segment = (==_iff _ _).0 (ground arith) in
    let u : a.bus ≡ b.bus = (==_iff _ _).0 (ground arith) in
    let d : a.device ≡ b.device = (==_iff _ _).0 (ground arith) in
    let f : a.function ≡ b.function = (==_iff _ _).0 (ground arith) in cc (s, u, d, f)

module _ (cfg : Config) where
  -- A function that is there, has a device and is an endpoint.
  pub record IsEndpoint (a : Address) : Type 0 where
    pub there : function_exists cfg a ≡ true
    pub known : no_device cfg (cfg.id a) ≡ false
    pub kind : cfg.header_type a ≡ endpoint

  -- What no insertion of an endpoint breaks.
  abbrev pub Stable : (Devices cfg → Type 0) → Type 0
  Stable P =
      (d : Devices cfg) (a : Address) → IsEndpoint a → P d → P (insert cfg d a (describe cfg a))

  -- A scan that keeps what is stable.
  abbrev pub Keeps : (Devices cfg → Type 0) → (Devices cfg → Option (Devices cfg)) → Type 0
  Keeps P m = (d d' : Devices cfg) → m d ≡ some d' → P d → P d'

  module _ (P : Devices cfg → Type 0) (stable : Stable P) where
    Keeps-scan_header :
        (scan : ℕ → Devices cfg → Option (Devices cfg)) (a : Address) (t : HeaderType)
        → function_exists cfg a ≡ true
        → no_device cfg (cfg.id a) ≡ false
        → cfg.header_type a ≡ t
        → ((bus : ℕ) → Keeps P (scan bus))
        → Keeps P (scan_header cfg scan a t)
    Keeps-scan_header scan a endpoint there known kind keeps d d' e p =
        subst P (some-injective (insert cfg d a (describe cfg a)) d' e)
          (stable d a (record { there = there; known = known; kind = kind }) p)
    Keeps-scan_header scan a pci_pci_bridge there known kind keeps d d' e p =
        for_each-Kept scan P (cfg.secondary_bus_number a)
          (cfg.subordinate_bus_number a + 1 - cfg.secondary_bus_number a) d d' keeps e p
    Keeps-scan_header scan a other_type there known kind keeps d d' e p =
        subst P (some-injective d d' e) p

    pub Keeps-scan_function :
        (scan : ℕ → Devices cfg → Option (Devices cfg)) (a : Address)
        → ((bus : ℕ) → Keeps P (scan bus))
        → Keeps P (scan_function cfg scan a)
    unfolding scan_function
    Keeps-scan_function scan a keeps d d' e p = elim (Bool-cases (function_exists cfg a)) [
      | inr absent ↦ subst P (some-injective d d' (cc (e, absent))) p
      | inl there ↦ elim (Bool-cases (no_device cfg (cfg.id a))) [
        | inl unknown ↦ subst P (some-injective d d' (cc (e, there, unknown))) p
        | inr known ↦
            Keeps-scan_header scan a (cfg.header_type a) there known refl keeps d d'
              (cc (e, there, known)) p
      ]
    ]

    pub Keeps-scan_others :
        (scan : ℕ → Devices cfg → Option (Devices cfg)) (segment bus device : ℕ)
        → ((bus : ℕ) → Keeps P (scan bus))
        → Keeps P (scan_others cfg scan segment bus device)
    Keeps-scan_others scan segment bus device keeps d d' e p =
        elim (Bool-cases (cfg.has_multiple_functions (at cfg segment bus device 0))) [
          | inr single ↦ subst P (some-injective d d' (cc (e, single))) p
          | inl multiple ↦
              for_each-Kept (λ f. scan_function cfg scan (at cfg segment bus device f)) P 1 7 d d'
                (λ f. Keeps-scan_function scan (at cfg segment bus device f) keeps)
                (cc (e, multiple)) p
        ]

    pub Keeps-scan_device :
        (scan : ℕ → Devices cfg → Option (Devices cfg)) (segment bus device : ℕ)
        → ((bus : ℕ) → Keeps P (scan bus))
        → Keeps P (scan_device cfg scan segment bus device)
    unfolding scan_device
    Keeps-scan_device scan segment bus device keeps d d' e p =
        elim (Bool-cases (function_exists cfg (at cfg segment bus device 0))) [
          | inr absent ↦ subst P (some-injective d d' (cc (e, absent))) p
          | inl there ↦
              elim (Option-cases (scan_function cfg scan (at cfg segment bus device 0) d)) [
                | inl stuck ↦ absurd (cc (e, there, stuck))
                | inr (d1, done) ↦
                    Keeps-scan_others scan segment bus device keeps d1 d' (cc (e, there, done))
                      (Keeps-scan_function scan (at cfg segment bus device 0) keeps d d1 done p)
              ]
        ]

    pub Keeps-scan_bus : (depth segment bus : ℕ) → Keeps P (scan_bus cfg depth segment bus)
    unfolding scan_bus
    Keeps-scan_bus zero segment bus d d' e p = absurd (cc e)
    Keeps-scan_bus (suc depth) segment bus d d' e p =
        for_each-Kept (scan_device cfg (scan_bus cfg depth segment) segment bus) P 0 32 d d'
          (λ device.
            Keeps-scan_device (scan_bus cfg depth segment) segment bus device
              (Keeps-scan_bus depth segment))
          e p

    Keeps-scan_segment : (depth segment : ℕ) → Keeps P (scan_segment cfg depth segment)
    unfolding scan_segment
    Keeps-scan_segment depth segment d d' e p =
        elim (Bool-cases (
          function_exists cfg (at cfg segment 0 0 0)
          && cfg.has_multiple_functions (at cfg segment 0 0 0))) [
            | inl many ↦
                for_each-Kept (scan_bus cfg depth segment) P 0 8 d d' (Keeps-scan_bus depth segment)
                  (cc (e, many)) p
            | inr one ↦ Keeps-scan_bus depth segment 0 d d' (cc (e, one)) p
          ]

    pub Keeps-scan_segments :
        (depth : ℕ) (segments : List ℕ) → Keeps P (scan_segments cfg depth segments)
    unfolding scan_segments
    Keeps-scan_segments depth [] d d' e p = subst P (some-injective d d' e) p
    Keeps-scan_segments depth (s ∷ ss) d d' e p = elim (Option-cases (scan_segment cfg depth s d)) [
      | inl stuck ↦ absurd (cc (e, stuck))
      | inr (d1, done) ↦
          Keeps-scan_segments depth ss d1 d' (cc (e, done)) (Keeps-scan_segment depth s d d1 done p)
    ]

  -- Only endpoints are listed, each as it describes itself.
  abbrev pub IsSound : Devices cfg → Type 0
  IsSound d =
      (a : Address) (dev : PciDevice cfg) → d a ≡ some dev → IsEndpoint a × (dev ≡ describe cfg a)

  IsSound-Stable : Stable IsSound
  IsSound-Stable d a end sound b dev e = elim (Bool-cases (same b a)) [
    | inl here ↦
        let eq : b ≡ a = same-eq b a here in
        let desc : describe cfg a ≡ dev = some-injective (describe cfg a) dev (cc (e, here)) in
        (subst IsEndpoint (sym eq) end, sym desc ∙ ap (describe cfg) (sym eq))
    | inr other ↦ sound b dev (cc (e, other))
  ]

  -- Every device that the scan lists is an endpoint whose function exists and whose vendor and device
  -- are not 0xffff, listed as its header describes it.
  pub resolve-IsSound : (depth : ℕ) (d : Devices cfg) → resolve cfg depth ≡ some d → IsSound d
  unfolding resolve
  resolve-IsSound depth d e =
      Keeps-scan_segments IsSound IsSound-Stable depth cfg.segments (λ a. none) d e
        (λ a dev q. absurd (cc q))
