-- ===== src/E1000/Tests.antt =====
-- The driver of the network card at a concrete card (kernel/src/drivers/e1000.rs).
use snek_os.Prelude.{
  ℕ, bit_or, bit_and, bit_xor, zero, suc, ◌+◌, ◌*◌, ◌%◌, ◌<◌, List, [], ◌∷◌, map, length, NotIn,
  Distinct, get_elem?, replicate, take, Option, none, some, if◌then◌else◌, ◌==◌, ◌≡◌, ◌⊎◌, inl,
  refl, arith,
}
use mathlib.Core.Option.{none-ne-some, some-injective}
use snek_os.Interrupts.{no_handler, Apic, InterruptGuard, io_apic_guard, Interrupts}
use snek_os.E1000.{Error, route_gsi, Hw, World, ok, err, panic, RxDescriptor, memory32}
use snek_os.E1000.Ring.{E1000, consume_tx}
use snek_os.E1000.New.{Header, new, blank_tx, blank_rx}
use snek_os.E1000.Queue.{Receiver, IsReceiver}
use snek_os.E1000.Queue
use snek_os.E1000.System.{
  arrives, receives, interrupts, polls, queue_run, run, Implements, run-Implements,
}
use snek_os.E1000.System
use snek_os.E1000.Fair.{run-delivers}
use snek_os.E1000.Transmit.{Sender, IsSender, sends, fetches}
use snek_os.E1000.Transmit
use snek_os.E1000.Sent.{run-fetches, send-overruns}
use snek_os.E1000.Built.{onto, IsPrompt, IsBuilt, Backs}
use snek_os.E1000.Owned.{new-ends, claimed, IsBuilt-Holds, consume_tx-dangles, Refused, Undone}

record Card : Type 0 where
  rx_head : ℕ
  rx_tail : ℕ
  tx_head : ℕ
  tx_tail : ℕ

-- A card whose EEPROM answers at once and whose link is up.
abbrev answer : ℕ → ℕ
answer r = if r == 0x14 then 16 else if r == 8 then 2 else 0

abbrev put : Card → ℕ → ℕ → Card
put c r v =
    if r == 0x2810
    then record c { rx_head = v }
    else if r == 0x2818
    then record c { rx_tail = v }
    else if r == 0x3810
    then record c { tx_head = v }
    else if r == 0x3818
    then record c { tx_tail = v }
    else c

abbrev hw : Hw
hw = record {
  Card = Card;
  read = λ c r. (answer r, c);
  write = put;
  fresh = λ a f. 4096 * length a;
  translate_virt_addr = λ v. some v;
  phys_offset = 1000000;
}

abbrev rx : Receiver hw
rx = record {
  head = λ c. c.rx_head;
  tail = λ c. c.rx_tail;
  advance = λ c. record c { rx_head = (c.rx_head + 1) % 32 };
  write_back = λ d p. record d { length = length p; status = 3 };
}

rx_is : IsReceiver hw rx
rx_is = record {
  tail_written = λ c v. refl;
  head_kept = λ c v. refl;
  head_advanced = λ c. refl;
  tail_kept = λ c. refl;
  read_head = λ c r. refl;
  read_tail = λ c r. refl;
  same_addr = λ d p. refl;
  same_length = λ d p short. refl;
  is_done = λ d p. refl;
}

abbrev tx : Sender hw
tx = record {
  head = λ c. c.tx_head;
  tail = λ c. c.tx_tail;
  advance = λ c. record c { tx_head = (c.tx_head + 1) % 32 };
}

tx_is : IsSender hw tx
tx_is = record {
  tail_written = λ c v. refl;
  head_kept = λ c v. refl;
  head_advanced = λ c. refl;
  tail_kept = λ c. refl;
}

prompt : IsPrompt hw 1
prompt = record {
  reset_ends = λ c. inl refl;
  eeprom_answers = λ c. inl refl;
  link_comes_up = λ c. inl refl;
  mapped = λ a f. (4096 * length a, refl);
}

-- `n` descriptors with buffers one page apart.
abbrev buffers : ℕ → ℕ → List ℕ
buffers zero k = []
buffers (suc n) k = 4096 * k ∷ buffers n (suc k)

abbrev ring : ℕ → ℕ → List RxDescriptor
ring zero k = []
ring (suc n) k = blank_rx (4096 * k) ∷ ring n (suc k)

ring-NotIn : (n a k : ℕ) → a < k → NotIn (4096 * a) (map (λ d. d.addr) (ring n k))
ring-NotIn zero a k lt = tt
ring-NotIn (suc n) a k lt = ((λ e. omega (arith, e, lt)), ring-NotIn n a (suc k) (omega arith))

ring-Distinct : (n k : ℕ) → Distinct (map (λ d. d.addr) (ring n k))
ring-Distinct zero k = tt
ring-Distinct (suc n) k = (ring-NotIn n k (suc k) (omega arith), ring-Distinct n (suc k))

ring-Backs : (n k : ℕ) → Backs hw (ring n k) (buffers n k)
ring-Backs zero k = tt
ring-Backs (suc n) k = (refl, refl, ring-Backs n (suc k))

abbrev world : List ℕ → World hw
world allocated = record {
  card = record { rx_head = 0; rx_tail = 31; tx_head = 0; tx_tail = 0 };
  allocated = allocated;
  freed = [];
  memory = λ a. [];
  woken = [];
  command = 0;
}

abbrev driver : E1000
driver = record {
  address = 1 ∷ 2 ∷ 3 ∷ 4 ∷ 5 ∷ 6 ∷ [];
  tx_cur = 0;
  tx_ring_at = 0;
  tx_ring = replicate 32 blank_tx;
  rx_cur = 0;
  rx_ring_at = 4096;
  rx_ring = ring 32 2;
  interrupt_guard = some (io_apic_guard 11);
  waker = some 7;
}

driver-IsBuilt :
    IsBuilt hw (world []) driver (buffers 32 2) (world (onto (buffers 32 2) (4096 ∷ 0 ∷ [])))
driver-IsBuilt = record {
  cursors = (refl, refl);
  rings = (refl, refl);
  mac_length = refl;
  backs = ring-Backs 32 2;
  allocated = refl;
  freed = refl;
}

abbrev ready : World hw
ready = world (onto (buffers 32 2) (4096 ∷ 0 ∷ []))

driver-Holds : Queue.Holds hw rx (map (λ d. d.addr) (ring 32 2)) [] (driver, ready)
driver-Holds = IsBuilt-Holds hw rx (world []) ready driver (buffers 32 2) driver-IsBuilt refl refl

abbrev events : List System.Event
events =
    arrives (1 ∷ 2 ∷ [])
    ∷ receives ((3 ∷ []) ∷ [])
    ∷ interrupts
    ∷ polls 5
    ∷ receives []
    ∷ receives []
    ∷ []

-- Both packets, and then nothing.
events-received : (queue_run events []).0 ≡ (1 ∷ 2 ∷ []) ∷ (3 ∷ []) ∷ []
events-received = refl

run-Implements_example :
    (s' : Queue.State hw rx) × (run hw rx events (driver, ready)
      ≡ some ((queue_run events []).0, s'))
    × Queue.Holds hw rx (map (λ d. d.addr) (ring 32 2)) (queue_run events []).1 s'
run-Implements_example =
    run-Implements hw rx (map (λ d. d.addr) (ring 32 2)) rx_is (ring-Distinct 32 2) events []
      (driver, ready) (omega arith, ((omega arith, tt), (tt, (tt, tt)))) driver-Holds

abbrev after_arrival : List System.Event
after_arrival = interrupts ∷ receives ((9 ∷ []) ∷ []) ∷ []

run-delivers_example :
    (outs : List (List ℕ)) × (s' : Queue.State hw rx) × (run hw rx
        (arrives (7 ∷ 8 ∷ []) ∷ after_arrival)
        (driver, ready)
      ≡ some (outs, s'))
    × (take 1 outs ≡ (7 ∷ 8 ∷ []) ∷ [])
run-delivers_example =
    run-delivers hw rx (map (λ d. d.addr) (ring 32 2)) rx_is (ring-Distinct 32 2) (7 ∷ 8 ∷ [])
      after_arrival [] (driver, ready) (omega arith, ((omega arith, tt), tt)) driver-Holds
      (omega arith) (omega arith)

driver-sends : Transmit.Holds hw tx [] (driver, ready)
driver-sends = record {
  head_lt = omega arith;
  few = omega arith;
  ring_length = refl;
  cur_at = refl;
  tail_at = refl;
  pending = λ i p at. absurd (none-ne-some p at);
}

run-fetches_example :
    (s' : Transmit.State hw tx) × (Transmit.run hw tx
        (sends (64, 3) ∷ sends (128, 5) ∷ fetches ∷ [])
        (driver, ready)
      ≡ some ((64, 3) ∷ [], s'))
    × Transmit.Holds hw tx ((128, 5) ∷ []) s'
run-fetches_example =
    run-fetches hw tx tx_is (sends (64, 3) ∷ sends (128, 5) ∷ fetches ∷ []) [] (driver, ready)
      ((64, 3) ∷ []) ((128, 5) ∷ []) driver-sends refl

consume_tx-dangles_example :
    (e' : E1000) × (w' : World hw) × (consume_tx driver (1 ∷ 2 ∷ []) ready ≡ (ok e', w'))
    × (w'.freed ≡ 4096 * 34 ∷ [])
    × Transmit.Holds hw tx ((4096 * 34, 2) ∷ []) (e', w')
consume_tx-dangles_example =
    consume_tx-dangles hw tx tx_is [] driver ready (1 ∷ 2 ∷ []) (4096 * 34) driver-sends
      (omega arith) refl

abbrev header : Header
header = record { vendor_id = 0x8086; device_id = 0x100e; bar0 = some (memory32 0xfebc0000) }

-- One I/O APIC with 24 pins, which keeps nothing.
abbrev lib : Apic
lib = record {
  IoApic = Unit {0};
  Entry = ℕ;
  Flags = ℕ;
  level_triggered = 0x8000;
  low_active = 0x2000;
  masked = 0x10000;
  insert = bit_or;
  remove = λ f g. bit_and f (bit_xor 0x1FFFF g);
  new = λ address. tt;
  init = λ a base. a;
  max_table_entry = λ a. 23;
  table_entry = λ a i. 0;
  set_table_entry = λ a i e. a;
  flags = λ e. e;
  set_flags = λ e f. f;
  set_dest = λ e d. e;
  enable_irq = λ a i. a;
  disable_irq = λ a i. a;
}

abbrev interrupt_state : Interrupts ℕ lib
interrupt_state = record {
  handlers = λ i. no_handler;
  io_apics = some (record { io_apic = tt; global_system_interrupt_base = 0 }) ∷ [];
  first_free = 55;
  pci = [];
}

-- A route to pin 11.
abbrev route : Option ℕ
route = some 11

new-ends_example :
    ((er : Error) × (w' : World hw) × (new ℕ lib [] 1 1 header route interrupt_state (world [])
        ≡ (err er, w'))
      × Refused hw (world []) er w')
    ⊎ ((e : E1000) × (bs : List ℕ) × (w' : World hw) × (route ≡ none)
        × (new ℕ lib [] 1 1 header route interrupt_state (world []) ≡ (err route_gsi, w'))
        × (length e.rx_ring ≡ 32)
        × Undone hw (world []) e bs w')
    ⊎ ((gsi : ℕ) × (w' : World hw) × (route ≡ some gsi)
        × (claimed hw ℕ lib [] 1 interrupt_state gsi ≡ none)
        × (new ℕ lib [] 1 1 header route interrupt_state (world []) ≡ (panic, w')))
    ⊎ ((gsi : ℕ) × (g : InterruptGuard) × (s' : Interrupts ℕ lib) × (e : E1000) × (bs : List ℕ)
        × (w' : World hw) × (route ≡ some gsi)
        × (claimed hw ℕ lib [] 1 interrupt_state gsi ≡ some (g, s'))
        × (new ℕ lib [] 1 1 header route interrupt_state (world []) ≡ (ok (e, s'), w'))
        × (e.interrupt_guard ≡ some g)
        × IsBuilt hw (world []) e bs w')
new-ends_example = new-ends hw ℕ lib [] 1 1 prompt header route interrupt_state (world [])

-- A full ring: 31 packets wait.
abbrev full : E1000
full = record driver { tx_cur = 31 }

abbrev full_world : World hw
full_world = record ready { card = record { rx_head = 0; rx_tail = 31; tx_head = 0; tx_tail = 31 } }

replicate-in :
    {A : Type 0} (n i : ℕ) (a b : A) → get_elem? (replicate n a) i ≡ some b → (i < n) × (a ≡ b)
replicate-in zero i a b e = absurd (none-ne-some b e)
replicate-in (suc n) zero a b e = (omega arith, some-injective a b e)
replicate-in (suc n) (suc i) a b e = let (lt, same) = replicate-in n i a b e in (omega arith, same)

replicate-at : {A : Type 0} (n i : ℕ) (a : A) → i < n → get_elem? (replicate n a) i ≡ some a
replicate-at zero i a lt = absurd (omega arith)
replicate-at (suc n) zero a lt = refl
replicate-at (suc n) (suc i) a lt = replicate-at n i a (omega arith)

full-Holds : Transmit.Holds hw tx (replicate 31 (0, 0)) (full, full_world)
full-Holds = record {
  head_lt = omega arith;
  few = omega arith;
  ring_length = refl;
  cur_at = refl;
  tail_at = refl;
  pending = λ i p at.
      let (lt, same) = replicate-in 31 i (0, 0) p at in
      (blank_tx, replicate-at 32 ((0 + i) % 32) blank_tx (omega arith), same);
}

send-overruns_example :
    (s : Transmit.State hw tx) × (Transmit.step hw tx (sends (64, 3)) (full, full_world)
      ≡ some ([], s))
    × (Transmit.step hw tx fetches s ≡ some ([], s))
send-overruns_example =
    send-overruns hw tx tx_is (replicate 31 (0, 0)) full full_world 64 3 64 full-Holds refl refl
