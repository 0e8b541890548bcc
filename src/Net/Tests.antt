-- ===== src/Net/Tests.antt =====
-- Leases, addresses and sockets at concrete values (kernel/src/net/mod.rs).
use snek_os.Prelude.{
  ℕ, Bool, true, false, List, [], ◌∷◌, Option, none, some, take, length, ◌≡◌, refl, arith,
}
use snek_os.Net.{
  v4, IpCidr, ipv4, ipv6, Stack, InterfaceInner, Dhcp4Config, configure, deconfigure, dhcp4,
  set_router,
}
use snek_os.Net.Lease.{IsNew, dhcp4-restores, dhcp4-leaves}
use snek_os.Net.Sockets.{ok, Tcp, connect_poll, read_poll, write_poll}
use snek_os.Net.Wakers.{Waits, tcp-Waits}

abbrev stack : Stack
stack = record {
  max_addrs = 4;
  Routes = Option ℕ;
  add_default_ipv4_route = λ r router. some router;
  remove_default_ipv4_route = λ r. none;
  add_default_ipv6_route = λ r router. r;
}

abbrev link : IpCidr
link = ipv6 (0xfe80 ∷ []) 64

abbrev inner : InterfaceInner stack
inner = record { ip_addrs = link ∷ []; routes = none; dns_servers = v4 1 ∷ [] }

abbrev lease : ℕ → Dhcp4Config
lease a = record { address = (a, 24); router = some 7; dns_servers = 8 ∷ 9 ∷ [] }

lease-IsNew : IsNew stack (lease 5) inner
lease-IsNew = record { address = (refl, tt); servers = (refl, tt); room = omega arith }

dhcp4-restores_example :
    dhcp4 stack deconfigure (dhcp4 stack (configure (lease 5)) (inner, none)) ≡ (
      record inner {
        routes = stack.remove_default_ipv4_route (set_router stack (some 7) inner.routes);
      },
      some (lease 5),
    )
dhcp4-restores_example = dhcp4-restores stack (lease 5) inner none lease-IsNew

dhcp4-leaves_example :
    (dhcp4 stack deconfigure (
      dhcp4 stack
        (configure (lease 6))
        (dhcp4 stack (configure (lease 5)) (inner, none)))).0.ip_addrs
    ≡ link ∷ ipv4 5 24 ∷ []
dhcp4-leaves_example =
    dhcp4-leaves stack (lease 5) (lease 6) inner none (refl, tt) refl (omega arith)

-- A socket is the bytes that wait in it, and the task to wake.
abbrev tcp : Tcp
tcp = record {
  Socket = List ℕ × List ℕ;
  RecvError = Bool;
  SendError = ℕ;
  is_finished = λ e. e;
  is_open = λ s. true;
  is_closed = λ s. false;
  can_send = λ s. false;
  recv_slice = λ s n. (ok (take n s.0), s);
  send_slice = λ s buf. (ok (length buf), s);
  register_recv_waker = λ s t. (s.0, t ∷ s.1);
  register_send_waker = λ s t. (s.0, t ∷ s.1);
}

abbrev quiet : List ℕ × List ℕ
quiet = ([], [])

tcp-Waits_example :
    Waits
      (λ s. tcp.register_send_waker s 3)
      (connect_poll tcp quiet 3).0
      (connect_poll tcp quiet 3).1
    × Waits
        (λ s. tcp.register_recv_waker s 3)
        (read_poll tcp quiet 9 3).0
        (read_poll tcp quiet 9 3).1
    × Waits
        (λ s. tcp.register_send_waker s 3)
        (write_poll tcp quiet (1 ∷ []) 3).0
        (write_poll tcp quiet (1 ∷ []) 3).1
tcp-Waits_example = tcp-Waits tcp 3 quiet 9 (1 ∷ [])
