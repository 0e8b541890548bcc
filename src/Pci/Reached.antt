-- ===== src/Pci/Reached.antt =====
-- The functions that the scan of a bus leads to (kernel/src/arch/x86_64/pci.rs, `Resolver`).
use snek_os.Prelude.{
  ℕ, suc, ◌+◌, ◌-◌, ◌≤◌, ◌<◌, true, false, some, Option-cases, inl, inr, ◌≡◌, arith,
}
use snek_os.Pci.{
  Address, pci_pci_bridge, Config, Devices, function_exists, no_device, scan_function, at,
  scan_device, scan_bus,
}
use snek_os.Pci.Loops.{for_each-at}
use snek_os.Pci.Scan.{
  Stable, Keeps, Keeps-scan_function, Keeps-scan_others, Keeps-scan_device, Keeps-scan_bus,
}

module _ (cfg : Config) where
  -- A function of a bus that the scan looks at: function 0 of a device, and its others where it says
  -- that it has more.
  pub data OnBus (segment bus : ℕ) : Address → Type 0 where
    first :
        (device : ℕ)
        → device < 32
        → function_exists cfg (at cfg segment bus device 0) ≡ true
        → OnBus segment bus (at cfg segment bus device 0)
    further :
        (device function : ℕ)
        → device < 32
        → function_exists cfg (at cfg segment bus device 0) ≡ true
        → cfg.has_multiple_functions (at cfg segment bus device 0) ≡ true
        → 1 ≤ function
        → function < 8
        → OnBus segment bus (at cfg segment bus device function)

  -- A bridge, which leads to the buses from its secondary to its subordinate one.
  pub record IsBridge (a : Address) (bus : ℕ) : Type 0 where
    pub there : function_exists cfg a ≡ true
    pub known : no_device cfg (cfg.id a) ≡ false
    pub kind : cfg.header_type a ≡ pci_pci_bridge
    pub low : cfg.secondary_bus_number a ≤ bus
    pub high : bus ≤ cfg.subordinate_bus_number a

  -- A function that can be reached from a bus, through any number of bridges.
  pub data Reached (segment : ℕ) : ℕ → Address → Type 0 where
    here : {bus : ℕ} {a : Address} → OnBus segment bus a → Reached segment bus a
    behind :
        {bus bus' : ℕ} {a : Address} (bridge : Address)
        → OnBus segment bus bridge
        → IsBridge bridge bus'
        → Reached segment bus' a
        → Reached segment bus a

  module _ (P : Devices cfg → Type 0) (stable : Stable cfg P) (segment depth : ℕ) where
    Keeps-below : (bus : ℕ) → Keeps cfg P (scan_bus cfg depth segment bus)
    Keeps-below = Keeps-scan_bus cfg P stable depth segment

    -- What scanning a function establishes, scanning its device establishes.
    pub scan_device-OnBus :
        (bus : ℕ) (a : Address)
        → OnBus segment bus a
        → ((d d' : Devices cfg)
            → scan_function cfg (scan_bus cfg depth segment) a d ≡ some d'
            → P d')
        → (d d' : Devices cfg) → scan_bus cfg (suc depth) segment bus d ≡ some d'
        → P d'
    unfolding scan_bus scan_device
    scan_device-OnBus bus _ (first device lt there) est d d' e =
        for_each-at (scan_device cfg (scan_bus cfg depth segment) segment bus) P device 0 32 d d'
          (λ k.
            Keeps-scan_device cfg P stable (scan_bus cfg depth segment) segment bus k Keeps-below)
          (λ b b' q.
            elim (Option-cases
              (scan_function cfg (scan_bus cfg depth segment) (at cfg segment bus device 0) b)) [
                | inl stuck ↦ absurd (cc (q, there, stuck))
                | inr (b1, done) ↦
                    Keeps-scan_others cfg P stable (scan_bus cfg depth segment) segment bus device
                      Keeps-below b1 b' (cc (q, there, done)) (est b b1 done)
              ])
          (omega arith) (omega (arith, lt)) e
    scan_device-OnBus bus _ (further device function lt there multiple lo hi) est d d' e =
        for_each-at (scan_device cfg (scan_bus cfg depth segment) segment bus) P device 0 32 d d'
          (λ k.
            Keeps-scan_device cfg P stable (scan_bus cfg depth segment) segment bus k Keeps-below)
          (λ b b' q.
            elim (Option-cases
              (scan_function cfg (scan_bus cfg depth segment) (at cfg segment bus device 0) b)) [
                | inl stuck ↦ absurd (cc (q, there, stuck))
                | inr (b1, done) ↦
                    for_each-at
                      (λ f.
                        scan_function cfg (scan_bus cfg depth segment)
                          (at cfg segment bus device f))
                      P function 1 7 b1 b'
                      (λ f.
                        Keeps-scan_function cfg P stable (scan_bus cfg depth segment)
                          (at cfg segment bus device f) Keeps-below)
                      est lo (omega (arith, hi)) (cc (q, there, done, multiple))
              ])
          (omega arith) (omega (arith, lt)) e

    -- And scanning a bridge scans the buses that it leads to.
    pub scan_bridge :
        (bridge : Address) (bus : ℕ)
        → IsBridge bridge bus
        → (d d' : Devices cfg) → scan_function cfg (scan_bus cfg depth segment) bridge d ≡ some d'
        → ((c c' : Devices cfg) → scan_bus cfg depth segment bus c ≡ some c' → P c')
        → P d'
    unfolding scan_function
    scan_bridge bridge bus is d d' e est =
        let lo = is.low in
        let hi = is.high in
        for_each-at (scan_bus cfg depth segment) P bus (cfg.secondary_bus_number bridge)
          (cfg.subordinate_bus_number bridge + 1 - cfg.secondary_bus_number bridge) d d' Keeps-below
          est lo (omega arith) (cc (e, is.there, is.known, is.kind))
