-- ===== src/Memory/Tests.antt =====
-- Runs of the memory module on a small page table (kernel/src/arch/x86_64/memory.rs).
use snek_os.Prelude.{
  ℕ, ◌+◌, ◌-◌, ◌/◌, ◌≤◌, ◌<◌, true, false, ◌&&◌, Option, none, some, List, [], ◌∷◌, ◌++◌, leb, ltb,
  leb-true, lt→ltb, if◌then◌else◌, ◌≡◌, ◌⊎◌, inl, inr, refl, ap, arith, Distinct,
}
use mathlib.Core.Path.{subst}
use mathlib.Core.Option.{some-injective}
use snek_os.StackAllocator.{StackAllocator}
use snek_os.Memory.{
  page_size, FrameAllocator, Paging, State, PageRange, Region, available, search,
  search_free_addr_from, map_pages_from, map_pages, fill, lazy_map, allocate_frame,
}
use snek_os.Memory.Search.{Found, search_free_addr_from-Found}
use snek_os.Memory.Map.{Laws, map_pages_from-translates}
use snek_os.Memory.Lazy.{IsLazy, Provided, lazy_map-Provided}
use snek_os.Memory.Frames.{
  pool, pop, allocate_frame-pop, World, Step, here, next, allocates, Reach-Distinct,
}

-- Page tables as functions; mapping always succeeds.
abbrev Table : Type 0
Table = ℕ → Option ℕ

abbrev put : Table → ℕ → ℕ → Table
put t page frame a =
    if leb page a && ltb a (page + page_size) then some (frame + (a - page)) else t a

abbrev pg : Paging
pg = record {
  Table = Table;
  translate_addr = λ t a. t a;
  map_to = λ t page frame flags fa. some (put t page frame, fa);
  as_num_of_pages = λ bytes. (bytes + 4095) / page_size;
}

put-page :
    (t : Table) (page frame o : ℕ) → o < page_size → put t page frame (page + o) ≡ some (frame + o)
put-page t page frame o lt =
    let e : page + o - page ≡ o = omega arith in
    rw
      (
        leb-true page (page + o) (omega arith),
        lt→ltb (page + o) (page + page_size) (omega arith),
        e,
      )
      refl

put-kept :
    (t : Table) (page frame a : ℕ) → (a < page) ⊎ (page + page_size ≤ a) → put t page frame a ≡ t a
put-kept t page frame a (inl l) = ground arith
put-kept t page frame a (inr g) = ground arith

laws : Laws pg
laws = record {
  mapped = λ t t' page frame flags fa fa' e o lt.
      subst (λ (z : Table). z (page + o) ≡ some (frame + o))
        (ap (λ p. p.0) (some-injective (put t page frame, fa) (t', fa') e))
        (put-page t page frame o lt);
  kept = λ t t' page frame flags fa fa' e a out.
      subst (λ (z : Table). z a ≡ t a)
        (ap (λ p. p.0) (some-injective (put t page frame, fa) (t', fa') e))
        (put-kept t page frame a out);
  enough = λ bytes. omega arith;
}

abbrev cells : StackAllocator
cells = record { size = 2048; current = 64 }

abbrev frame_allocator : FrameAllocator
frame_allocator = record { iter = 0x1000 ∷ 0x2000 ∷ []; free_frames = 0x5000 ∷ []; cells = cells }

-- Only the first page leads somewhere.
abbrev table : Table
table a = if ltb a page_size then some a else none

abbrev state : State pg
state = record { mapper = table; frame_allocator = frame_allocator; bytes = λ a. 7 }

abbrev region : PageRange
region = record { first = 0; pages = 4 }

search_free_addr_from-Found_example :
    Found (available pg table) 2 0 4 (search_free_addr_from (available pg table) 2 region)
search_free_addr_from-Found_example =
    search_free_addr_from-Found (available pg table) 2 region (omega arith)

-- Ten bytes across the border of two frames.
abbrev mapped : State pg
mapped = record state { mapper = put (put table 0x1000 0x8000) 0x2000 0x9000 }

mapped-run : map_pages_from pg 0x8FFB 10 region state ≡ some (0x1FFB, mapped)
unfolding map_pages_from search_free_addr_from search map_pages available
mapped-run = refl

map_pages_from-translates_example : pg.translate_addr mapped.mapper (0x1FFB + 7) ≡ some (0x8FFB + 7)
map_pages_from-translates_example =
    map_pages_from-translates pg laws 0x8FFB 10 region state 0x1FFB mapped refl mapped-run 7
      (omega arith)

-- A fault in the second page of the heap.
abbrev provided : State pg
provided = record {
  mapper = put table 0x1000_0000_1000 0x5000;
  frame_allocator = record frame_allocator { free_frames = [] };
  bytes = fill pg page_size (put table 0x1000_0000_1000 0x5000) 0x1000_0000_1000 (λ a. 7);
}

provided-run : lazy_map pg 0x1000_0000_1234 state ≡ some (true, provided)
unfolding lazy_map allocate_frame
provided-run = refl

lazy_map-Provided_example :
    (true ≡ true) × IsLazy pg state 0x1000_0000_1234 × Provided pg state 0x1000_0000_1234 provided
    ⊎ (true ≡ false) × (¬ IsLazy pg state 0x1000_0000_1234) × (provided ≡ state)
lazy_map-Provided_example =
    lazy_map-Provided pg laws 0x1000_0000_1234 state provided true provided-run

allocate_frame-pop_example :
    ((allocate_frame frame_allocator).0, pool (allocate_frame frame_allocator).1)
    ≡ pop (pool frame_allocator)
allocate_frame-pop_example = allocate_frame-pop frame_allocator

abbrev no_clients : World
no_clients = record { allocator = frame_allocator; live = [] }

abbrev one_client : World
one_client = record { allocator = record frame_allocator { free_frames = [] }; live = 0x5000 ∷ [] }

one_client-Step : Step no_clients one_client
unfolding allocate_frame
one_client-Step = allocates no_clients 0x5000 refl

Reach-Distinct_example : Distinct (one_client.live ++ pool one_client.allocator)
Reach-Distinct_example =
    Reach-Distinct frame_allocator one_client
      (
        ((λ e. omega (arith, e)), ((λ e. omega (arith, e)), tt)),
        (((λ e. omega (arith, e)), tt), (tt, tt)),
      )
      (next here one_client-Step)

abbrev regions : List Region
regions =
    record { base = 0x1000; len = 0x2000; usable = true }
    ∷ record { base = 0x3000; len = 0x1000; usable = false }
    ∷ record { base = 0x8000; len = 0x1000; usable = true }
    ∷ []
