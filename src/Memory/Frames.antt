-- ===== src/Memory/Frames.antt =====
-- The frame allocator as a stack of frames (kernel/src/arch/x86_64/memory.rs,
-- `BootInfoFrameAllocator`).
use snek_os.Prelude.{
  ℕ, ◌+◌, ◌≤◌, ◌<◌, Option, none, some, List, [], ◌∷◌, ◌++◌, ◌≡◌, ◌≢◌, ◌⊎◌, inl, inr, refl, sym, ap,
  ◌∙◌, arith, dec_lt, All, NotIn, Distinct, Distinct-middle,
}
use mathlib.Core.Option.{some-injective}
use snek_os.StackAllocator.{StackAllocator, own-room, own-full}
use snek_os.Memory.{FrameAllocator, allocate_frame, deallocate_frame, free_frame_bytes, take_frame}

-- The frames in the order in which they will be handed out.
abbrev pub pool : FrameAllocator → List ℕ
pool fa = fa.free_frames ++ fa.iter

abbrev pub pop : List ℕ → Option ℕ × List ℕ
pop [] = (none, [])
pop (f ∷ fs) = (some f, fs)

take_frame-pop :
    (free iter : List ℕ) (cells : StackAllocator)
    → let fa : FrameAllocator = record { iter = iter; free_frames = free; cells = cells } in
      let (frame, fa') = take_frame free fa in (frame, pool fa') ≡ pop (free ++ iter)
take_frame-pop [] [] cells = refl
take_frame-pop [] (f ∷ fs) cells = refl
take_frame-pop (f ∷ fs) iter cells = refl

-- Allocating takes the top of the stack, or fails on an empty one.
pub allocate_frame-pop :
    (fa : FrameAllocator) → ((allocate_frame fa).0, pool (allocate_frame fa).1) ≡ pop (pool fa)
unfolding allocate_frame
allocate_frame-pop fa = take_frame-pop fa.free_frames fa.iter fa.cells

-- Releasing a frame puts it on top, where the next allocation finds it; it panics exactly where the
-- buffer for the list's cells has less than 17 bytes left.
pub deallocate_frame-push :
    (fa : FrameAllocator) (frame : ℕ)
    → ((fa' : FrameAllocator) × (deallocate_frame fa frame ≡ some fa')
        × (pool fa' ≡ frame ∷ pool fa)
        × ((allocate_frame fa').0 ≡ some frame)
        × (fa.cells.current + free_frame_bytes < fa.cells.size))
      ⊎ (deallocate_frame fa frame ≡ none) × (fa.cells.size ≤ fa.cells.current + free_frame_bytes)
unfolding deallocate_frame allocate_frame
deallocate_frame-push fa frame = elim (dec_lt (fa.cells.current + free_frame_bytes) fa.cells.size) [
  | yes room ↦ inl (
    record fa {
      free_frames = frame ∷ fa.free_frames;
      cells = record fa.cells { current = fa.cells.current + free_frame_bytes };
    },
    rw (deallocate_frame, own-room fa.cells free_frame_bytes room) refl,
    refl,
    refl,
    room,
  )
  | no full ↦ inr (
    rw (deallocate_frame, own-full fa.cells free_frame_bytes (omega (arith, full))) refl,
    omega (arith, full),
  )
]

-- An allocator, and the frames that its clients hold.
pub record World : Type 0 where
  pub allocator : FrameAllocator
  pub live : List ℕ

pub data Step : World → World → Type 0 where
  allocates :
      (w : World) (f : ℕ)
      → (allocate_frame w.allocator).0 ≡ some f
      → Step w (record { allocator = (allocate_frame w.allocator).1; live = f ∷ w.live })
  releases :
      (w : World) (f : ℕ) (xs ys : List ℕ) (fa' : FrameAllocator)
      → w.live ≡ xs ++ f ∷ ys
      → deallocate_frame w.allocator f ≡ some fa'
      → Step w (record { allocator = fa'; live = xs ++ ys })

pub data Reach (w : World) : World → Type 0 where
  here : Reach w w
  next : {t u : World} → Reach w t → Step t u → Reach w u

abbrev pub frames : World → List ℕ
frames w = w.live ++ pool w.allocator

All-insert :
    (P : ℕ → Type 0) (xs ys : List ℕ) (a : ℕ) → P a → All P (xs ++ ys) → All P (xs ++ a ∷ ys)
All-insert P [] ys a p h = (p, h)
All-insert P (x ∷ xs) ys a p h = (h.0, All-insert P xs ys a p h.1)

Distinct-insert :
    (xs ys : List ℕ) (a : ℕ) → NotIn a (xs ++ ys) → Distinct (xs ++ ys) → Distinct (xs ++ a ∷ ys)
Distinct-insert [] ys a ni d = (ni, d)
Distinct-insert (x ∷ xs) ys a ni d =
    (All-insert (λ y. y ≢ x) xs ys a (λ e. ni.0 (sym e)) d.0, Distinct-insert xs ys a ni.1 d.1)

append_assoc : (xs ys zs : List ℕ) → (xs ++ ys) ++ zs ≡ xs ++ (ys ++ zs)
append_assoc [] ys zs = refl
append_assoc (x ∷ xs) ys zs = ap (λ l. x ∷ l) (append_assoc xs ys zs)

allocates-pool :
    (fa : FrameAllocator) (f : ℕ)
    → (allocate_frame fa).0 ≡ some f
    → pool fa ≡ f ∷ pool (allocate_frame fa).1
allocates-pool fa f e = go (pool fa) refl
  where
    go : (l : List ℕ) → pool fa ≡ l → pool fa ≡ f ∷ pool (allocate_frame fa).1
    go [] q = absurd (cc (e, q, allocate_frame-pop fa))
    go (x ∷ xs) q = cc (e, q, allocate_frame-pop fa)

releases-pool :
    (fa : FrameAllocator) (f : ℕ) (fa' : FrameAllocator)
    → deallocate_frame fa f ≡ some fa'
    → pool fa' ≡ f ∷ pool fa
releases-pool fa f fa' e = elim (deallocate_frame-push fa f) [
  | inl (fa1, e1, p, _, _) ↦
      let same : fa1 ≡ fa' = some-injective _ _ (sym e1 ∙ e) in ap pool (sym same) ∙ p
  | inr (e1, _) ↦ absurd (cc (e, e1))
]

-- Each frame is in one place: no two clients hold the same one, and none that a client holds will be
-- handed out.
Step-Distinct : {t u : World} → Step t u → Distinct (frames t) → Distinct (frames u)
Step-Distinct (allocates w f e) d =
    let p : pool w.allocator ≡ f ∷ pool (allocate_frame w.allocator).1 =
      allocates-pool w.allocator f e in
    Distinct-middle w.live (pool (allocate_frame w.allocator).1) f (rw (← p) d)
Step-Distinct (releases w f xs ys fa' e r) d =
    let p : pool fa' ≡ f ∷ pool w.allocator = releases-pool w.allocator f fa' r in
    let d' =
      Distinct-middle xs (ys ++ pool w.allocator) f
        (rw (← append_assoc xs (f ∷ ys) (pool w.allocator), ← e) d) in
    rw p (
      Distinct-insert (xs ++ ys) (pool w.allocator) f
        (rw (append_assoc xs ys (pool w.allocator)) d'.0)
        (rw (append_assoc xs ys (pool w.allocator)) d'.1))

-- Starting from an allocator whose frames are all different, with no clients, no frame is ever held
-- twice, nor handed out while a client holds it.
pub Reach-Distinct :
    (fa : FrameAllocator) (w : World)
    → Distinct (pool fa)
    → Reach (record { allocator = fa; live = [] }) w
    → Distinct (w.live ++ pool w.allocator)
Reach-Distinct fa w d here = d
Reach-Distinct fa w d (next r st) = Step-Distinct st (Reach-Distinct fa _ d r)
