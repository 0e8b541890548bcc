-- ===== src/Net.antt =====
-- kernel/src/net/mod.rs: the configuration of the network interface, by DHCP and by router advertisements.
pub mod Lease
pub mod Address
pub mod Sockets
pub mod Wakers
mod Tests
use snek_os.Prelude.{
  ℕ, zero, suc, ◌+◌, ◌-◌, Bool, true, false, not, ◌&&◌, ◌||◌, List, [], ◌∷◌, ◌++◌, map, Option,
  none, some, if◌then◌else◌, ◌==◌, ltb, length, take, drop, bit_and, bit_or, shl,
}

pub data IpAddress : Type 0 where
  v4 : ℕ → IpAddress
  v6 : List ℕ → IpAddress

pub data IpCidr : Type 0 where
  ipv4 : ℕ → ℕ → IpCidr
  ipv6 : List ℕ → ℕ → IpCidr

-- The crate `smoltcp`: how many addresses an interface can have, and its table of routes.
pub record Stack : Type 1 where
  pub max_addrs : ℕ
  pub Routes : Type 0
  pub add_default_ipv4_route : Routes → ℕ → Routes
  pub remove_default_ipv4_route : Routes → Routes
  pub add_default_ipv6_route : Routes → List ℕ → Routes

pub record InterfaceInner (lib : Stack) : Type 0 where
  pub ip_addrs : List IpCidr
  pub routes : lib.Routes
  pub dns_servers : List IpAddress

-- An address with the length of its prefix.
pub record Dhcp4Config : Type 0 where
  pub address : ℕ × ℕ
  pub router : Option ℕ
  pub dns_servers : List ℕ

pub data Dhcp4Event : Type 0 where
  configure : Dhcp4Config → Dhcp4Event
  deconfigure : Dhcp4Event

-- `iter().position(p)` and `remove(index)`
abbrev pub any : {A : Type 0} → (A → Bool) → List A → Bool
any p [] = false
any p (x ∷ xs) = p x || any p xs

abbrev pub remove_first : {A : Type 0} → (A → Bool) → List A → List A
remove_first p [] = []
remove_first p (x ∷ xs) = if p x then xs else x ∷ remove_first p xs

-- `while let Some(index) = … { remove(index) }`, with a round for each element
unfoldable pub remove_all : {A : Type 0} → ℕ → (A → Bool) → List A → List A
remove_all zero p xs = xs
remove_all (suc fuel) p xs =
    let rest = remove_all fuel p (remove_first p xs) in if any p xs then rest else xs

abbrev pub is_address : ℕ × ℕ → IpCidr → Bool
is_address (a, n) (ipv4 b m) = (b == a) && (m == n)
is_address _ (ipv6 b m) = false

abbrev pub is_server : List ℕ → IpAddress → Bool
is_server servers (v4 a) = any (λ s. s == a) servers
is_server servers (v6 a) = false

module _ (lib : Stack) where
  -- `addrs.push(…)`, whose failure is ignored
  abbrev pub push_addr : IpCidr → List IpCidr → List IpCidr
  push_addr a addrs = if ltb (length addrs) lib.max_addrs then addrs ++ a ∷ [] else addrs

  abbrev pub set_router : Option ℕ → lib.Routes → lib.Routes
  set_router none routes = lib.remove_default_ipv4_route routes
  set_router (some router) routes = lib.add_default_ipv4_route routes router

  abbrev pub cidr : ℕ × ℕ → IpCidr
  cidr (a, n) = ipv4 a n

  abbrev pub configured : Dhcp4Config → InterfaceInner lib → InterfaceInner lib
  configured config inner = record {
    ip_addrs = push_addr (cidr config.address) inner.ip_addrs;
    routes = set_router config.router inner.routes;
    dns_servers = inner.dns_servers ++ map v4 config.dns_servers;
  }

  abbrev pub deconfigured : Dhcp4Config → InterfaceInner lib → InterfaceInner lib
  deconfigured config inner = record {
    ip_addrs = remove_first (is_address config.address) inner.ip_addrs;
    routes = lib.remove_default_ipv4_route inner.routes;
    dns_servers =
        remove_all (length inner.dns_servers) (is_server config.dns_servers) inner.dns_servers;
  }

  abbrev pub give_up : Option Dhcp4Config → InterfaceInner lib → InterfaceInner lib
  give_up none inner = inner
  give_up (some config) inner = deconfigured config inner

  -- A round of the loop of `dhcp4`: the interface, and the current configuration.
  unfoldable pub dhcp4 :
      Dhcp4Event → InterfaceInner lib × Option Dhcp4Config → InterfaceInner lib × Option Dhcp4Config
  dhcp4 (configure config) (inner, current) = (configured config inner, some config)
  dhcp4 deconfigure (inner, current) = (give_up current inner, current)

  -- A router advertisement: its prefix with the length, and its DNS servers. The router is its source.
  abbrev pub prefixed : List ℕ → List ℕ → List ℕ
  prefixed prefix link_ip = take 4 prefix ++ drop 4 link_ip

  abbrev pub add_prefix :
      Option (List ℕ × ℕ) → List ℕ → List ℕ → InterfaceInner lib → InterfaceInner lib
  add_prefix none link_ip src_ip inner = inner
  add_prefix (some (prefix, n)) link_ip src_ip inner = record inner {
    ip_addrs = push_addr (ipv6 (prefixed prefix link_ip) n) inner.ip_addrs;
    routes = lib.add_default_ipv6_route inner.routes src_ip;
  }

  unfoldable pub advertised :
      Option (List ℕ × ℕ)
      → Option (List (List ℕ))
      → List ℕ
      → List ℕ
      → InterfaceInner lib
      → InterfaceInner lib
  advertised prefix servers link_ip src_ip inner =
      let inner' = add_prefix prefix link_ip src_ip inner in
      elim servers [
        | none ↦ inner'
        | some s ↦ record inner' { dns_servers = inner'.dns_servers ++ map v6 s }
      ]

-- The address of the link that `auto6` makes of the MAC address.
abbrev pub link_ip : ℕ → ℕ → ℕ → ℕ → ℕ → ℕ → List ℕ
link_ip m0 m1 m2 m3 m4 m5 =
    0xfe80
    ∷ 0
    ∷ 0
    ∷ 0
    ∷ bit_or (shl (bit_and m0 0b11111101) 8) m1
    ∷ bit_or (shl m2 8) 0xff
    ∷ bit_or 0xfe00 m3
    ∷ bit_or (shl m4 8) m5
    ∷ []
