-- ===== src/Input.antt =====
-- kernel/src/drivers/i8042.rs: key presses and states of the mouse, from the interrupts to the tasks that
-- read them.
pub mod Steps
pub mod Wakes
pub mod Order
mod Tests
use snek_os.Prelude.{ℕ, Bool, true, false, List, [], ◌∷◌, ◌++◌, Option, none, some, if◌then◌else◌}
use snek_os.I8042.Keyboard.{PcKeyboard}
use snek_os.I8042.Mouse.{MouseState}
use snek_os.I8042.Port.{Change, key_change, mouse_change}
use snek_os.I8042.Driver.{Impl, Driver, Irq}
use snek_os.I8042.Driver

-- `ArrayQueue` of the crate `crossbeam_queue`, whose `push` tells whether there was room, and
-- `AtomicWaker` of the crate `futures`, whose `wake` tells which task it wakes. A task stands for its
-- waker.
pub record Crates (A : Type 0) : Type 1 where
  pub ArrayQueue : Type 0
  pub new : ℕ → ArrayQueue
  pub push : A → ArrayQueue → Bool × ArrayQueue
  pub pop : ArrayQueue → Option A × ArrayQueue
  pub AtomicWaker : Type 0
  pub new_waker : AtomicWaker
  pub register : ℕ → AtomicWaker → AtomicWaker
  pub wake : AtomicWaker → Option ℕ × AtomicWaker
  pub take : AtomicWaker → AtomicWaker

-- `KEY_QUEUE` with `KEY_WAKER`, or `MOUSE_QUEUE` with `MOUSE_WAKER`. There is no queue before `init`.
pub record Channel {A : Type 0} (lib : Crates A) : Type 0 where
  pub queue : Option lib.ArrayQueue
  pub waker : lib.AtomicWaker

-- Where a poll of `next_key` stands: at its start, before the waker is registered, before the second
-- `pop`, before `KEY_WAKER.take()` with a key, or at its end.
pub data Poll (A : Type 0) : Type 0 where
  start : Poll A
  registers : Poll A
  pops : Poll A
  takes : A → Poll A
  ready : Option A → Poll A
  pending : Poll A

-- Where the handler of an interrupt stands: before `queue.push(key)`, before `KEY_WAKER.wake()`, or at
-- its end.
pub data Handler (A : Type 0) : Type 0 where
  pushes : A → Handler A
  wakes : Handler A
  ends : Handler A

module _ {A : Type 0} (lib : Crates A) where
  abbrev pub fast_path : Option A → Poll A
  fast_path (some key) = ready (some key)
  fast_path none = registers

  abbrev pub slow_path : Option A → Poll A
  slow_path (some key) = takes key
  slow_path none = pending

  -- `queue.pop()`, and what is done with its result
  abbrev pub pop_to : (Option A → Poll A) → lib.ArrayQueue → Channel lib → Poll A × Channel lib
  pop_to next q c = let (r, q') = lib.pop q in (next r, record c { queue = some q' })

  abbrev pub try_get :
      (Option A → Poll A) → Option lib.ArrayQueue → Channel lib → Poll A × Channel lib
  try_get next none c = (ready none, c)
  try_get next (some q) c = pop_to next q c

  -- The next operation of a poll by a task on the queue or on the waker.
  unfoldable pub advance : ℕ → Poll A → Channel lib → Poll A × Channel lib
  advance task start c = try_get fast_path c.queue c
  advance task registers c = (pops, record c { waker = lib.register task c.waker })
  advance task pops c = try_get slow_path c.queue c
  advance task (takes key) c = (ready (some key), record c { waker = lib.take c.waker })
  advance task (ready r) c = (ready r, c)
  advance task pending c = (pending, c)

  -- The poll of `next_key` or `next_mouse_state`, which has four operations at most.
  unfoldable pub poll : ℕ → Channel lib → Poll A × Channel lib
  poll task c =
      let (p1, c1) = advance task start c in
      let (p2, c2) = advance task p1 c1 in let (p3, c3) = advance task p2 c2 in advance task p3 c3

  abbrev pub pushed : Bool → Handler A
  pushed true = wakes
  pushed false = ends

  abbrev pub push_to : A → Option lib.ArrayQueue → Channel lib → Handler A × Channel lib
  push_to a none c = (ends, c)
  push_to a (some q) c =
      let (is_ok, q') = lib.push a q in (pushed is_ok, record c { queue = some q' })

  -- The next operation of a handler on the queue or on the waker, and the task that it wakes.
  unfoldable pub handle : Handler A → Channel lib → Handler A × Channel lib × Option ℕ
  handle (pushes a) c = let (h, c') = push_to a c.queue c in (h, c', none)
  handle wakes c = let (task, w) = lib.wake c.waker in (ends, record c { waker = w }, task)
  handle ends c = (ends, c, none)

  -- The arm of `interrupt` for a key or a state of the mouse.
  unfoldable pub offer : A → Channel lib → Channel lib × Option ℕ
  offer a c =
      let (h1, c1, _) = handle (pushes a) c in let (h2, c2, task) = handle h1 c1 in (c2, task)

module _ (pc : PcKeyboard) (hw : Impl) (keys : Crates pc.Key) (states : Crates MouseState) where
  -- The statics `DRIVER`, `KEY_QUEUE`, `KEY_WAKER`, `MOUSE_QUEUE` and `MOUSE_WAKER`.
  pub record Statics : Type 0 where
    pub driver : Driver pc hw
    pub key : Channel keys
    pub mouse : Channel states

  abbrev pub dispatch : Option (Change pc) → Statics → Statics × Option ℕ
  dispatch none s = (s, none)
  dispatch (some (key_change k)) s =
      let (c, task) = offer keys k s.key in (record s { key = c }, task)
  dispatch (some (mouse_change m)) s =
      let (c, task) = offer states m s.mouse in (record s { mouse = c }, task)

  unfoldable pub interrupt : Irq → Statics → Statics × Option ℕ
  interrupt irq s =
      let (change, d) = Driver.interrupt irq s.driver in dispatch change (record s { driver = d })
