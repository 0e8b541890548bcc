-- ===== src/Net/Sockets.antt =====
-- kernel/src/net/mod.rs: the polls of the sockets' methods. A poll that is not ready leaves its task's waker
-- with the socket.
use snek_os.Prelude.{ℕ, Bool, true, false, List, [], ◌∷◌, Option, none, some, if◌then◌else◌}

pub data Poll (A : Type 0) : Type 0 where
  ready : A → Poll A
  pending : Poll A

pub data Result (E A : Type 0) : Type 0 where
  ok : A → Result E A
  err : E → Result E A

-- The sockets of the crate `smoltcp`. A task stands for its waker.
pub record Tcp : Type 1 where
  pub Socket : Type 0
  pub RecvError : Type 0
  pub SendError : Type 0
  pub is_finished : RecvError → Bool
  pub is_open : Socket → Bool
  pub is_closed : Socket → Bool
  pub can_send : Socket → Bool
  pub recv_slice : Socket → ℕ → Result RecvError (List ℕ) × Socket
  pub send_slice : Socket → List ℕ → Result SendError ℕ × Socket
  pub register_recv_waker : Socket → ℕ → Socket
  pub register_send_waker : Socket → ℕ → Socket

pub record Icmp : Type 1 where
  pub Socket : Type 0
  pub RecvError : Type 0
  pub SendError : Type 0
  pub is_exhausted : RecvError → Bool
  pub is_buffer_full : SendError → Bool
  pub recv_slice : Socket → ℕ → Result RecvError (ℕ × List ℕ) × Socket
  pub send_slice : Socket → List ℕ → List ℕ → Result SendError (Unit {0}) × Socket
  pub register_recv_waker : Socket → ℕ → Socket
  pub register_send_waker : Socket → ℕ → Socket

pub record Dhcp4 : Type 1 where
  pub Socket : Type 0
  pub Event : Type 0
  pub poll : Socket → Option Event × Socket
  pub register_waker : Socket → ℕ → Socket

pub record Dns : Type 1 where
  pub Socket : Type 0
  pub QueryError : Type 0
  pub is_pending : QueryError → Bool
  pub get_query_result : Socket → ℕ → Result QueryError (List ℕ) × Socket
  pub register_query_waker : Socket → ℕ → ℕ → Socket

module _ (lib : Tcp) where
  pub data Error : Type 0 where
    tcp_recv : lib.RecvError → Error
    tcp_send : lib.SendError → Error
    tcp_closed : Error

  -- `TcpSocket::connect`, behind the call of smoltcp
  unfoldable pub connect_poll : lib.Socket → ℕ → Poll (Unit {0}) × lib.Socket
  connect_poll s task =
      if lib.is_open s then (ready tt, s) else (pending, lib.register_send_waker s task)

  abbrev pub received :
      Result lib.RecvError (List ℕ) × lib.Socket → ℕ → Poll (Result Error (List ℕ)) × lib.Socket
  received (ok [], s) task = (pending, lib.register_recv_waker s task)
  received (ok (b ∷ bytes), s) task = (ready (ok (b ∷ bytes)), s)
  received (err e, s) task =
      if lib.is_finished e then (ready (ok []), s) else (pending, lib.register_recv_waker s task)

  -- `TcpSocket::read` into a buffer of `n` bytes: the bytes read.
  unfoldable pub read_poll : lib.Socket → ℕ → ℕ → Poll (Result Error (List ℕ)) × lib.Socket
  read_poll s n task = received (lib.recv_slice s n) task

  abbrev pub sent : Result lib.SendError ℕ × lib.Socket → Poll (Result Error ℕ) × lib.Socket × Bool
  sent (ok n, s) = (ready (ok n), s, true)
  sent (err e, s) = (ready (err (tcp_send e)), s, false)

  -- `TcpSocket::write`, and whether the interface's task is woken
  unfoldable pub write_poll : lib.Socket → List ℕ → ℕ → Poll (Result Error ℕ) × lib.Socket × Bool
  write_poll s buf task =
      if lib.is_closed s
      then (ready (err tcp_closed), s, false)
      else if lib.can_send s
      then sent (lib.send_slice s buf)
      else (pending, lib.register_send_waker s task, false)

module _ (lib : Icmp) where
  abbrev pub icmp_received :
      Result lib.RecvError (ℕ × List ℕ) × lib.Socket
      → ℕ
      → Poll (Result lib.RecvError (ℕ × List ℕ)) × lib.Socket
  icmp_received (ok r, s) task = (ready (ok r), s)
  icmp_received (err e, s) task =
      if lib.is_exhausted e then (pending, lib.register_recv_waker s task) else (ready (err e), s)

  unfoldable pub icmp_read_poll :
      lib.Socket → ℕ → ℕ → Poll (Result lib.RecvError (ℕ × List ℕ)) × lib.Socket
  icmp_read_poll s n task = icmp_received (lib.recv_slice s n) task

  abbrev pub icmp_sent :
      Result lib.SendError (Unit {0}) × lib.Socket
      → ℕ
      → Poll (Result lib.SendError (Unit {0})) × lib.Socket × Bool
  icmp_sent (ok u, s) task = (ready (ok u), s, true)
  icmp_sent (err e, s) task =
      if lib.is_buffer_full e
      then (pending, lib.register_send_waker s task, false)
      else (ready (err e), s, false)

  unfoldable pub icmp_write_poll :
      lib.Socket → List ℕ → List ℕ → ℕ → Poll (Result lib.SendError (Unit {0})) × lib.Socket × Bool
  icmp_write_poll s buf endpoint task = icmp_sent (lib.send_slice s buf endpoint) task

module _ (lib : Dhcp4) where
  abbrev pub told : Option lib.Event × lib.Socket → ℕ → Poll lib.Event × lib.Socket
  told (none, s) task = (pending, lib.register_waker s task)
  told (some e, s) task = (ready e, s)

  unfoldable pub dhcp4_poll : lib.Socket → ℕ → Poll lib.Event × lib.Socket
  dhcp4_poll s task = told (lib.poll s) task

module _ (lib : Dns) where
  abbrev pub answered :
      ℕ
      → Result lib.QueryError (List ℕ) × lib.Socket
      → ℕ
      → Poll (Result lib.QueryError (List ℕ)) × lib.Socket
  answered query (ok ips, s) task = (ready (ok ips), s)
  answered query (err e, s) task =
      if lib.is_pending e
      then (pending, lib.register_query_waker s query task)
      else (ready (err e), s)

  unfoldable pub query_poll :
      lib.Socket → ℕ → ℕ → Poll (Result lib.QueryError (List ℕ)) × lib.Socket
  query_poll s query task = answered query (lib.get_query_result s query) task
