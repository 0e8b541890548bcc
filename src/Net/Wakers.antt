-- ===== src/Net/Wakers.antt =====
-- No poll of a socket waits without a waker, and reading from a connection never fails
-- (kernel/src/net/mod.rs, the methods of the sockets).
use snek_os.Prelude.{ℕ, Bool-cases, List, [], ◌∷◌, Option, none, some, ◌≡◌, ◌⊎◌, inl, inr, refl}
use snek_os.Net.Sockets.{
  Poll, ready, pending, Result, ok, err, Tcp, Icmp, Dhcp4, Dns, tcp_send, tcp_closed, connect_poll,
  received, read_poll, sent, write_poll, icmp_received, icmp_read_poll, icmp_sent, icmp_write_poll,
  told, dhcp4_poll, answered, query_poll,
}

-- The poll is ready, or the socket was given the waker last.
pub data Waits {A S : Type 0} (register : S → S) : Poll A → S → Type 0 where
  answers : (a : A) (s : S) → Waits register (ready a) s
  waits : (s : S) → Waits register pending (register s)

module _ (lib : Tcp) (task : ℕ) where
  connect-Waits :
      (s : lib.Socket)
      → Waits
          (λ t. lib.register_send_waker t task)
          (connect_poll lib s task).0
          (connect_poll lib s task).1
  unfolding connect_poll
  connect-Waits s = elim (Bool-cases (lib.is_open s)) [
    | inl is_open ↦ rw is_open (answers tt s)
    | inr closed ↦ rw closed (waits s)
  ]

  received-Waits :
      (r : Result lib.RecvError (List ℕ) × lib.Socket)
      → Waits (λ t. lib.register_recv_waker t task) (received lib r task).0 (received lib r task).1
  received-Waits (ok [], s) = waits s
  received-Waits (ok (b ∷ bytes), s) = answers (ok (b ∷ bytes)) s
  received-Waits (err e, s) = elim (Bool-cases (lib.is_finished e)) [
    | inl finished ↦ rw finished (answers (ok []) s)
    | inr broken ↦ rw broken (waits s)
  ]

  sent-Waits :
      (r : Result lib.SendError ℕ × lib.Socket)
      → Waits (λ t. lib.register_send_waker t task) (sent lib r).0 (sent lib r).1
  sent-Waits (ok n, s) = answers (ok n) s
  sent-Waits (err e, s) = answers (err (tcp_send e)) s

  write-Waits :
      (s : lib.Socket) (buf : List ℕ)
      → Waits
          (λ t. lib.register_send_waker t task)
          (write_poll lib s buf task).0
          (write_poll lib s buf task).1
  unfolding write_poll
  write-Waits s buf = elim (Bool-cases (lib.is_closed s)) [
    | inl closed ↦ rw closed (answers (err tcp_closed) s)
    | inr is_open ↦ elim (Bool-cases (lib.can_send s)) [
      | inl room ↦ rw (is_open, room) (sent-Waits (lib.send_slice s buf))
      | inr full ↦ rw (is_open, full) (waits s)
    ]
  ]

  -- No poll of a TCP socket waits without its waker: `connect` and `write` leave it for sending, `read`
  -- for receiving.
  pub tcp-Waits :
      (s : lib.Socket) (n : ℕ) (buf : List ℕ)
      → Waits
          (λ t. lib.register_send_waker t task)
          (connect_poll lib s task).0
          (connect_poll lib s task).1
        × Waits
            (λ t. lib.register_recv_waker t task)
            (read_poll lib s n task).0
            (read_poll lib s n task).1
        × Waits
            (λ t. lib.register_send_waker t task)
            (write_poll lib s buf task).0
            (write_poll lib s buf task).1
  unfolding read_poll
  tcp-Waits s n buf = (connect-Waits s, received-Waits (lib.recv_slice s n), write-Waits s buf)

  received_or_waits :
      (r : Result lib.RecvError (List ℕ) × lib.Socket)
      → ((bytes : List ℕ) × ((received lib r task).0 ≡ ready (ok bytes)))
        ⊎ ((received lib r task).0 ≡ pending)
  received_or_waits (ok [], s) = inr refl
  received_or_waits (ok (b ∷ bytes), s) = inl (b ∷ bytes, refl)
  received_or_waits (err e, s) = elim (Bool-cases (lib.is_finished e)) [
    | inl finished ↦ inl ([], rw finished refl)
    | inr broken ↦ inr (rw broken refl)
  ]

  -- `read` never yields an error: with a socket that cannot receive, other than at the end of the stream, it
  -- waits.
  pub read_poll-waits :
      (s : lib.Socket) (n : ℕ)
      → ((bytes : List ℕ) × ((read_poll lib s n task).0 ≡ ready (ok bytes)))
        ⊎ ((read_poll lib s n task).0 ≡ pending)
  unfolding read_poll
  read_poll-waits s n = received_or_waits (lib.recv_slice s n)

module _ (lib : Icmp) (task : ℕ) where
  icmp_received-Waits :
      (r : Result lib.RecvError (ℕ × List ℕ) × lib.Socket)
      → Waits
          (λ t. lib.register_recv_waker t task)
          (icmp_received lib r task).0
          (icmp_received lib r task).1
  icmp_received-Waits (ok r, s) = answers (ok r) s
  icmp_received-Waits (err e, s) = elim (Bool-cases (lib.is_exhausted e)) [
    | inl exhausted ↦ rw exhausted (waits s)
    | inr broken ↦ rw broken (answers (err e) s)
  ]

  icmp_sent-Waits :
      (r : Result lib.SendError (Unit {0}) × lib.Socket)
      → Waits
          (λ t. lib.register_send_waker t task)
          (icmp_sent lib r task).0
          (icmp_sent lib r task).1
  icmp_sent-Waits (ok u, s) = answers (ok u) s
  icmp_sent-Waits (err e, s) = elim (Bool-cases (lib.is_buffer_full e)) [
    | inl full ↦ rw full (waits s)
    | inr broken ↦ rw broken (answers (err e) s)
  ]

  icmp_read-Waits :
      (s : lib.Socket) (n : ℕ)
      → Waits
          (λ t. lib.register_recv_waker t task)
          (icmp_read_poll lib s n task).0
          (icmp_read_poll lib s n task).1
  unfolding icmp_read_poll
  icmp_read-Waits s n = icmp_received-Waits (lib.recv_slice s n)

  icmp_write-Waits :
      (s : lib.Socket) (buf endpoint : List ℕ)
      → Waits
          (λ t. lib.register_send_waker t task)
          (icmp_write_poll lib s buf endpoint task).0
          (icmp_write_poll lib s buf endpoint task).1
  unfolding icmp_write_poll
  icmp_write-Waits s buf endpoint = icmp_sent-Waits (lib.send_slice s buf endpoint)

module _ (dhcp : Dhcp4) (dns : Dns) (task : ℕ) where
  told-Waits :
      (r : Option dhcp.Event × dhcp.Socket)
      → Waits (λ t. dhcp.register_waker t task) (told dhcp r task).0 (told dhcp r task).1
  told-Waits (none, s) = waits s
  told-Waits (some e, s) = answers e s

  answered-Waits :
      (query : ℕ) (r : Result dns.QueryError (List ℕ) × dns.Socket)
      → Waits
          (λ t. dns.register_query_waker t query task)
          (answered dns query r task).0
          (answered dns query r task).1
  answered-Waits query (ok ips, s) = answers (ok ips) s
  answered-Waits query (err e, s) = elim (Bool-cases (dns.is_pending e)) [
    | inl later ↦ rw later (waits s)
    | inr broken ↦ rw broken (answers (err e) s)
  ]

-- No poll of the sockets for ICMP, DHCP and DNS waits without its waker.
pub others-Waits :
    (icmp : Icmp) (dhcp : Dhcp4) (dns : Dns) (task n query : ℕ) (buf endpoint : List ℕ)
    (s : icmp.Socket) (d : dhcp.Socket) (q : dns.Socket)
    → Waits
        (λ t. icmp.register_recv_waker t task)
        (icmp_read_poll icmp s n task).0
        (icmp_read_poll icmp s n task).1
      × Waits
          (λ t. icmp.register_send_waker t task)
          (icmp_write_poll icmp s buf endpoint task).0
          (icmp_write_poll icmp s buf endpoint task).1
      × Waits
          (λ t. dhcp.register_waker t task)
          (dhcp4_poll dhcp d task).0
          (dhcp4_poll dhcp d task).1
      × Waits
          (λ t. dns.register_query_waker t query task)
          (query_poll dns q query task).0
          (query_poll dns q query task).1
unfolding dhcp4_poll query_poll
others-Waits icmp dhcp dns task n query buf endpoint s d q = (
  icmp_read-Waits icmp task s n,
  icmp_write-Waits icmp task s buf endpoint,
  told-Waits dhcp dns task (dhcp.poll d),
  answered-Waits dhcp dns task query (dns.get_query_result q query),
)
