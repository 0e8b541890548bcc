-- ===== src/Input/Steps.antt =====
-- The operations of a task's polls and of the interrupts' handlers in any order
-- (kernel/src/drivers/i8042.rs). The lock on `DRIVER` is held through a handler, so one runs at a time.
use snek_os.Prelude.{
  ℕ, Bool, true, false, if◌then◌else◌, ◌||◌, List, [], ◌∷◌, ◌++◌, Option, none, some, ◌==◌, ◌≡◌,
}
use snek_os.Input.{
  Crates, Channel, Poll, start, registers, pops, takes, ready, pending, Handler, pushes, wakes,
  ends, advance, handle,
}

-- What the documentation of the two crates promises.
pub record Laws {A : Type 0} (lib : Crates A) : Type 0 where
  pub contents : lib.ArrayQueue → List A
  pub contents-new : (n : ℕ) → contents (lib.new n) ≡ []
  pub push-room :
      (a : A) (q : lib.ArrayQueue)
      → (lib.push a q).0 ≡ true
      → contents (lib.push a q).1 ≡ contents q ++ a ∷ []
  pub push-full :
      (a : A) (q : lib.ArrayQueue)
      → (lib.push a q).0 ≡ false
      → contents (lib.push a q).1 ≡ contents q
  pub pop-empty :
      (q : lib.ArrayQueue) → (lib.pop q).0 ≡ none → contents q ≡ [] × contents (lib.pop q).1 ≡ []
  pub pop-first :
      (a : A) (q : lib.ArrayQueue)
      → (lib.pop q).0 ≡ some a
      → contents q ≡ a ∷ contents (lib.pop q).1
  pub registered : lib.AtomicWaker → Option ℕ
  pub register-registered :
      (task : ℕ) (w : lib.AtomicWaker) → registered (lib.register task w) ≡ some task
  pub wake-registered : (w : lib.AtomicWaker) → (lib.wake w).0 ≡ registered w

abbrev pub view : {A : Type 0} (lib : Crates A) → Laws lib → Option lib.ArrayQueue → List A
view lib laws none = []
view lib laws (some q) = laws.contents q

abbrev pub is_task : ℕ → Option ℕ → Bool
is_task task none = false
is_task task (some t) = t == task

abbrev pub is_wakes : {A : Type 0} → Handler A → Bool
is_wakes (pushes a) = false
is_wakes wakes = true
is_wakes ends = false

module _ {A : Type 0} (lib : Crates A) where
  -- Whether the queue takes what the handler pushes.
  abbrev pub taken : Handler A → Option lib.ArrayQueue → List A
  taken (pushes a) (some q) = if (lib.push a q).0 then a ∷ [] else []
  taken (pushes a) none = []
  taken wakes q = []
  taken ends q = []

  abbrev pub key_of : Option A → List A
  key_of none = []
  key_of (some a) = a ∷ []

  -- The key that a poll has got.
  abbrev pub got : Poll A → List A
  got start = []
  got registers = []
  got pops = []
  got (takes a) = a ∷ []
  got (ready r) = key_of r
  got pending = []

  -- A poll has ended.
  pub data HasEnded : Poll A → Type 0 where
    is_ready : (r : Option A) → HasEnded (ready r)
    is_pending : HasEnded pending

  -- A queue of 32, and what may come of it: the keys that it took, the keys of the polls that were
  -- followed by another, the current poll, the current handler, the channel, and whether the task has
  -- been woken since the current poll started.
  pub data Reach (task : ℕ)
      : List A → List A → Poll A → Handler A → Channel lib → Bool → Type 0 where
    inits :
        Reach task [] [] start ends
          (record { queue = some (lib.new 32); waker = lib.new_waker })
          false
    polls :
        {ins outs : List A} {p : Poll A} {h : Handler A} {c : Channel lib} {woken : Bool}
        → Reach task ins outs p h c woken
        → Reach task ins outs (advance lib task p c).0 h (advance lib task p c).1 woken
    handles :
        {ins outs : List A} {p : Poll A} {h : Handler A} {c : Channel lib} {woken : Bool}
        → Reach task ins outs p h c woken
        → Reach task
            (ins ++ taken h c.queue)
            outs
            p
            (handle lib h c).0
            (handle lib h c).1
            (woken || is_task task (handle lib h c).2)
    interrupts :
        {ins outs : List A} {p : Poll A} {c : Channel lib} {woken : Bool} (a : A)
        → Reach task ins outs p ends c woken
        → Reach task ins outs p (pushes a) c woken
    again :
        {ins outs : List A} {p : Poll A} {h : Handler A} {c : Channel lib} {woken : Bool}
        → HasEnded p
        → Reach task ins outs p h c woken
        → Reach task ins (outs ++ got p) start h c false
