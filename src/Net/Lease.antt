-- ===== src/Net/Lease.antt =====
-- What is left of a lease when it ends (kernel/src/net/mod.rs, `dhcp4`).
use snek_os.Prelude.{
  ℕ, zero, suc, ◌+◌, ◌<◌, ◌≤◌, Bool, Bool-cases, true, false, List, [], ◌∷◌, ◌++◌, map, Option,
  some, ◌==◌, lt→ltb, length, length-append, All, inl, inr, ◌≡◌, refl, sym, ap, ◌∙◌, arith,
}
use mathlib.Core.Path.{subst}
use snek_os.Net.{
  v4, ipv4, Stack, InterfaceInner, Dhcp4Config, configure, deconfigure, any, remove_first,
  remove_all, is_address, is_server, set_router, cidr, dhcp4,
}

module _ {A : Type 0} (p : A → Bool) where
  any-middle : (xs ys : List A) (y : A) → p y ≡ true → any p (xs ++ y ∷ ys) ≡ true
  any-middle [] ys y e = rw e refl
  any-middle (x ∷ xs) ys y e = elim (Bool-cases (p x)) [
    | inl yes_x ↦ rw yes_x refl
    | inr no_x ↦ rw no_x (any-middle xs ys y e)
  ]

  any-nothing : (xs : List A) → All (λ x. p x ≡ false) xs → any p xs ≡ false
  any-nothing [] h = refl
  any-nothing (x ∷ xs) h = rw (h.0) (any-nothing xs h.1)

  remove_first-middle :
      (xs ys : List A) (y : A)
      → All (λ x. p x ≡ false) xs
      → p y ≡ true
      → remove_first p (xs ++ y ∷ ys) ≡ xs ++ ys
  remove_first-middle [] ys y h e = rw e refl
  remove_first-middle (x ∷ xs) ys y h e =
      rw (h.0) (ap (λ l. x ∷ l) (remove_first-middle xs ys y h.1 e))

  append_nil : (xs : List A) → xs ++ [] ≡ xs
  append_nil [] = refl
  append_nil (x ∷ xs) = ap (λ l. x ∷ l) (append_nil xs)

  remove_all-append :
      (fuel : ℕ) (xs ys : List A)
      → length ys ≤ fuel
      → All (λ x. p x ≡ false) xs
      → All (λ y. p y ≡ true) ys
      → remove_all fuel p (xs ++ ys) ≡ xs
  unfolding remove_all
  remove_all-append zero xs [] le h g = append_nil xs
  remove_all-append zero xs (y ∷ ys) le h g = absurd (omega (arith, le))
  remove_all-append (suc fuel) xs [] le h g = rw (append_nil xs, any-nothing xs h) refl
  remove_all-append (suc fuel) xs (y ∷ ys) le h g =
      rw (any-middle xs ys y g.0, remove_first-middle xs ys y h g.0)
        (remove_all-append fuel xs ys (omega arith) h g.1)

All-snoc :
    {A : Type 0} (p : A → Bool) (xs : List A) (y : A)
    → All (λ x. p x ≡ false) xs
    → p y ≡ false
    → All (λ x. p x ≡ false) (xs ++ y ∷ [])
All-snoc p [] y h e = (e, tt)
All-snoc p (x ∷ xs) y h e = (h.0, All-snoc p xs y h.1 e)

self_address : (a n : ℕ) → is_address (a, n) (ipv4 a n) ≡ true
self_address a n = ground arith

self_equal : (s : ℕ) → (s == s) ≡ true
self_equal s = ground arith

member : (s : ℕ) (xs ys : List ℕ) → any (λ x. x == s) (xs ++ s ∷ ys) ≡ true
member s xs ys = any-middle (λ x. x == s) xs ys s (self_equal s)

append_assoc_one : (xs ys : List ℕ) (s : ℕ) → xs ++ s ∷ ys ≡ (xs ++ s ∷ []) ++ ys
append_assoc_one [] ys s = refl
append_assoc_one (x ∷ xs) ys s = ap (λ l. x ∷ l) (append_assoc_one xs ys s)

-- Every server of a list is recognised.
servers_known : (xs ys : List ℕ) → All (λ a. is_server (xs ++ ys) a ≡ true) (map v4 ys)
servers_known xs [] = tt
servers_known xs (s ∷ ys) = (
  member s xs ys,
  subst (λ l. All (λ a. is_server l a ≡ true) (map v4 ys)) (sym (append_assoc_one xs ys s))
      (servers_known (xs ++ s ∷ []) ys),
)

module _ (lib : Stack) where
  -- Neither the address of the configuration nor its servers are in use, and there is room for the address.
  pub record IsNew (config : Dhcp4Config) (inner : InterfaceInner lib) : Type 0 where
    pub address : All (λ a. is_address config.address a ≡ false) inner.ip_addrs
    pub servers : All (λ a. is_server config.dns_servers a ≡ false) inner.dns_servers
    pub room : length inner.ip_addrs < lib.max_addrs

  -- When a lease that brought new addresses ends, the interface has the addresses and the DNS servers that it
  -- had before, and no default route.
  pub dhcp4-restores :
      (config : Dhcp4Config) (inner : InterfaceInner lib) (current : Option Dhcp4Config)
      → IsNew config inner
      → dhcp4 lib deconfigure (dhcp4 lib (configure config) (inner, current)) ≡ (
        record inner {
          routes = lib.remove_default_ipv4_route (set_router lib config.router inner.routes);
        },
        some config,
      )
  unfolding dhcp4
  dhcp4-restores config inner current h =
      let (a, n) = config.address in
      let pushed = lt→ltb (length inner.ip_addrs) lib.max_addrs h.room in
      let addrs =
        remove_first-middle (is_address (a, n)) inner.ip_addrs [] (ipv4 a n) h.address
          (self_address a n)
        ∙ append_nil (is_address (a, n)) inner.ip_addrs in
      let enough : length (map v4 config.dns_servers)
          ≤ length (inner.dns_servers ++ map v4 config.dns_servers) =
        omega (arith, length-append inner.dns_servers (map v4 config.dns_servers)) in
      let servers =
        remove_all-append (is_server config.dns_servers)
          (length (inner.dns_servers ++ map v4 config.dns_servers)) inner.dns_servers
          (map v4 config.dns_servers) enough h.servers (servers_known [] config.dns_servers) in
      rw (pushed, addrs, servers) refl

  -- When a lease changes its address, the old address stays on the interface even after the lease has ended.
  pub dhcp4-leaves :
      (c1 c2 : Dhcp4Config) (inner : InterfaceInner lib) (current : Option Dhcp4Config)
      → All (λ a. is_address c2.address a ≡ false) inner.ip_addrs
      → is_address c2.address (cidr lib c1.address) ≡ false
      → length inner.ip_addrs + 1 < lib.max_addrs
      → (dhcp4 lib deconfigure
          (dhcp4 lib (configure c2) (dhcp4 lib (configure c1) (inner, current)))).0.ip_addrs
        ≡ inner.ip_addrs ++ cidr lib c1.address ∷ []
  unfolding dhcp4
  dhcp4-leaves c1 c2 inner current new other room =
      let (a, n) = c2.address in
      let addrs = inner.ip_addrs ++ cidr lib c1.address ∷ [] in
      let first = lt→ltb (length inner.ip_addrs) lib.max_addrs (omega arith) in
      let second =
        lt→ltb (length addrs) lib.max_addrs
          (omega (arith, length-append inner.ip_addrs (cidr lib c1.address ∷ []))) in
      rw (first, second)
        (remove_first-middle (is_address (a, n)) addrs [] (ipv4 a n)
            (All-snoc (is_address (a, n)) inner.ip_addrs (cidr lib c1.address) new other)
            (self_address a n)
          ∙ append_nil (is_address (a, n)) addrs)
