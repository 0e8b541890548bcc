-- ===== src/E1000/Fair.antt =====
-- Every packet that the network card puts into the ring is received (kernel/src/drivers/e1000.rs).
use snek_os.Prelude.{
  ℕ, zero, suc, ◌<◌, ◌≤◌, min, Bool-cases, ltb, lt→ltb, Distinct, List, [], ◌∷◌, ◌++◌, some, take,
  take-length, drop, length, length-append, ◌≡◌, refl, arith, sym, ap, ◌∙◌, inl, inr,
}
use snek_os.E1000.{Hw}
use snek_os.E1000.Queue.{Receiver, IsReceiver, State, enqueue, Holds}
use snek_os.E1000.Receive.{enqueue_all}
use snek_os.E1000.System.{
  Event, AreShort, arrives, receives, interrupts, polls, queue_step, queue_run, run, run-Implements,
}

abbrev pub receptions : List Event → ℕ
receptions [] = 0
receptions (receives ps ∷ evs) = suc (receptions evs)
receptions (_ ∷ evs) = receptions evs

-- One list is the other with something behind it.
abbrev Extends : List (List ℕ) → List (List ℕ) → Type 0
Extends q l = (extra : List (List ℕ)) × (l ≡ q ++ extra)

append_assoc : (a b c : List (List ℕ)) → (a ++ b) ++ c ≡ a ++ (b ++ c)
append_assoc [] b c = refl
append_assoc (x ∷ a) b c = ap (λ l. x ∷ l) (append_assoc a b c)

append_nil : (a : List (List ℕ)) → a ≡ a ++ []
append_nil [] = refl
append_nil (x ∷ a) = ap (λ l. x ∷ l) (append_nil a)

Extends-trans : (a b c : List (List ℕ)) → Extends a b → Extends b c → Extends a c
Extends-trans a b c (x, e) (y, f) = (x ++ y, f ∙ ap (λ l. l ++ y) e ∙ append_assoc a x y)

Extends-append : (a b c : List (List ℕ)) → Extends b c → Extends (a ++ b) (a ++ c)
Extends-append a b c (x, e) = (x, ap (λ l. a ++ l) e ∙ sym (append_assoc a b x))

enqueue-Extends : (p : List ℕ) (q : List (List ℕ)) → Extends q (enqueue p q)
enqueue-Extends p q = elim (Bool-cases (ltb (length q) 31)) [
  | inl lt ↦ (p ∷ [], rw lt refl)
  | inr nlt ↦ ([], rw nlt (append_nil q))
]

enqueue_all-Extends : (ps q : List (List ℕ)) → Extends q (enqueue_all ps q)
enqueue_all-Extends [] q = ([], append_nil q)
enqueue_all-Extends (p ∷ ps) q =
    Extends-trans q (enqueue p q) (enqueue_all ps (enqueue p q)) (enqueue-Extends p q)
      (enqueue_all-Extends ps (enqueue p q))

-- Nothing is lost, doubled or overtaken.
queue_step-Extends :
    (ev : Event) (q : List (List ℕ)) → Extends q ((queue_step ev q).0 ++ (queue_step ev q).1)
queue_step-Extends (arrives p) q = enqueue-Extends p q
queue_step-Extends (receives ps) [] = enqueue_all-Extends ps []
queue_step-Extends (receives ps) (p ∷ q) =
    let (x, e) = enqueue_all-Extends ps (p ∷ q) in (x, ap (λ l. p ∷ drop 1 l) e)
queue_step-Extends interrupts q = ([], append_nil q)
queue_step-Extends (polls t) q = ([], append_nil q)

queue_run-Extends :
    (evs : List Event) (q : List (List ℕ)) → Extends q ((queue_run evs q).0 ++ (queue_run evs q).1)
queue_run-Extends [] q = ([], append_nil q)
queue_run-Extends (ev ∷ evs) q =
    let (out, q') = queue_step ev q in
    let (outs, q'') = queue_run evs q' in
    let (x, e) =
      Extends-trans q (out ++ q') (out ++ (outs ++ q'')) (queue_step-Extends ev q)
        (Extends-append out q' (outs ++ q'') (queue_run-Extends evs q')) in
    (x, append_assoc out outs q'' ∙ e)

Extends-length : (a b : List (List ℕ)) → Extends a b → length a ≤ length b
Extends-length a b (x, e) = omega (arith, ap length e, length-append a x)

queue_run-length :
    (evs : List Event) (q : List (List ℕ))
    → min (receptions evs) (length q) ≤ length (queue_run evs q).0
queue_run-length [] q = omega arith
queue_run-length (arrives p ∷ evs) q = omega (
  arith,
  queue_run-length evs (enqueue p q),
  Extends-length q (enqueue p q) (enqueue-Extends p q),
)
queue_run-length (receives ps ∷ evs) [] = omega arith
queue_run-length (receives ps ∷ evs) (p ∷ q) =
    let (x, e) = enqueue_all-Extends ps (p ∷ q) in
    let le = Extends-length q (drop 1 (enqueue_all ps (p ∷ q))) (x, ap (drop 1) e) in
    omega (arith, queue_run-length evs (drop 1 (enqueue_all ps (p ∷ q))), le)
queue_run-length (interrupts ∷ evs) q = queue_run-length evs q
queue_run-length (polls t ∷ evs) q = queue_run-length evs q

take-append_left : (n : ℕ) (a b : List (List ℕ)) → n ≤ length a → take n (a ++ b) ≡ take n a
take-append_left zero a b le = refl
take-append_left (suc n) [] b le = absurd (omega arith)
take-append_left (suc n) (x ∷ a) b le = ap (λ l. x ∷ l) (take-append_left n a b (omega arith))

take-prefix :
    (q outs rest : List (List ℕ))
    → Extends q (outs ++ rest)
    → length q ≤ length outs
    → take (length q) outs ≡ q
take-prefix q outs rest (x, e) le =
    sym (take-append_left (length q) outs rest le)
    ∙ ap (take (length q)) e
    ∙ take-append_left (length q) q x (omega arith)
    ∙ take-length q

module _ (hw : Hw) (rx : Receiver hw) (addrs : List ℕ) (is : IsReceiver hw rx)
    (apart : Distinct addrs) where
  -- With buffers at different addresses, from a ring that holds a queue, and as long as no packet that
  -- arrives is longer than a buffer, 4096 bytes, a packet that arrives while fewer than 31 wait is received
  -- after those that wait, by as many receptions as there are packets up to it, whatever else arrives or
  -- happens in between.
  pub run-delivers :
      (p : List ℕ) (evs : List Event) (q : List (List ℕ)) (s : State hw rx)
      → AreShort (arrives p ∷ evs)
      → Holds hw rx addrs q s
      → length q < 31
      → suc (length q) ≤ receptions evs
      → (outs : List (List ℕ)) × (s' : State hw rx) × (run hw rx (arrives p ∷ evs) s
          ≡ some (outs, s'))
        × (take (suc (length q)) outs ≡ q ++ p ∷ [])
  run-delivers p evs q s short h room enough =
      let q' = q ++ p ∷ [] in
      let (s', e, h') = run-Implements hw rx addrs is apart (arrives p ∷ evs) q s short h in
      let len : length q' ≡ suc (length q) = length-append q (p ∷ []) ∙ omega arith in
      let le = queue_run-length evs q' in
      let got =
        take-prefix q' (queue_run evs q').0 (queue_run evs q').1 (queue_run-Extends evs q')
          (omega (arith, le, len, enough)) in
      let has_room : enqueue p q ≡ q' = rw (lt→ltb (length q) 31 room) refl in
      (
        (queue_run evs q').0,
        s',
        e ∙ ap (λ l. some ((queue_run evs l).0, s')) has_room,
        ap (λ n. take n (queue_run evs q').0) (sym len) ∙ got,
      )
