-- ===== src/Memory.antt =====
-- kernel/src/arch/x86_64/memory.rs: the frame allocator, the search for free addresses, and the
-- mapping of pages. An address is a number, a page and a frame are given by their first address. A
-- failed `unwrap` is `none`.
pub mod Search
pub mod Map
pub mod Lazy
pub mod Frames
pub mod Regions
mod Tests
use snek_os.Prelude.{
  ℕ, zero, suc, ◌+◌, ◌-◌, ◌*◌, ◌/◌, ◌%◌, Bool, true, false, not, ◌&&◌, ◌||◌, Option, none, some,
  List, [], ◌∷◌, ◌++◌, leb, ltb, ◌==◌, if◌then◌else◌,
}
use snek_os.Snalloc.Allocator.Kernel.{managed_start, managed_end}
use snek_os.StackAllocator.{StackAllocator, own}

-- `Size4KiB::SIZE`
abbrev pub page_size : ℕ
page_size = 4096

-- `align_down(Size4KiB::SIZE)`, and the first address of `containing_address`.
abbrev pub align_down : ℕ → ℕ
align_down a = a - a % page_size

-- A `MemmapEntry`; the type of an entry matters as far as it is `Usable`.
pub record Region : Type 0 where
  pub base : ℕ
  pub len : ℕ
  pub usable : Bool

-- `BootInfoFrameAllocator`: the frames that `iter` still yields, and the list behind `free_frames`, whose
-- cells lie in `FRAME_ALLOCATOR_ALLOCATOR`.
pub record FrameAllocator : Type 0 where
  pub iter : List ℕ
  pub free_frames : List ℕ
  pub cells : StackAllocator

-- `(base..base + len).step_by(4096)`, on the number of steps left.
unfoldable pub step_by : ℕ → ℕ → List ℕ
step_by base zero = []
step_by base (suc n) = align_down base ∷ step_by (base + page_size) n

abbrev pub region_frames : Region → List ℕ
region_frames r = if r.usable then step_by r.base ((r.len + 4095) / page_size) else []

unfoldable pub usable_frames : List Region → List ℕ
usable_frames [] = []
usable_frames (r ∷ rs) = region_frames r ++ usable_frames rs

-- `size_of::<FreePhysFrame>()`
abbrev pub free_frame_bytes : ℕ
free_frame_bytes = 16

unfoldable pub deallocate_frame : FrameAllocator → ℕ → Option FrameAllocator
deallocate_frame fa frame = elim (own fa.cells free_frame_bytes) [
  | none ↦ none
  | some (_, cells) ↦ some (record fa { free_frames = frame ∷ fa.free_frames; cells = cells })
]

abbrev pub next_frame : List ℕ → FrameAllocator → Option ℕ × FrameAllocator
next_frame [] fa = (none, fa)
next_frame (f ∷ fs) fa = (some f, record fa { iter = fs })

abbrev pub take_frame : List ℕ → FrameAllocator → Option ℕ × FrameAllocator
take_frame [] fa = next_frame fa.iter fa
take_frame (f ∷ fs) fa = (some f, record fa { free_frames = fs })

unfoldable pub allocate_frame : FrameAllocator → Option ℕ × FrameAllocator
allocate_frame fa = take_frame fa.free_frames fa

-- `start.is_none()` and the assignment under it.
abbrev pub or_at : Option ℕ → ℕ → Option ℕ
or_at none addr = some addr
or_at (some a) addr = some a

-- The loop of `search_free_addr_from` over the pages from `addr` on, on their number.
unfoldable pub search : (ℕ → Bool) → ℕ → ℕ → ℕ → ℕ → Option ℕ → Option ℕ
search available num_pages zero addr cnt start = none
search available num_pages (suc pages) addr cnt start =
    let free = available addr in
    let start' = if free then or_at start addr else none in
    let cnt' = if free then cnt + 1 else 0 in
    let rest = search available num_pages pages (addr + page_size) cnt' start' in
    if free && leb num_pages cnt' then start' else rest

-- A `PageRange` by its first page and its number of pages.
pub record PageRange : Type 0 where
  pub first : ℕ
  pub pages : ℕ

unfoldable pub search_free_addr_from : (ℕ → Bool) → ℕ → PageRange → Option ℕ
search_free_addr_from available num_pages region =
    search available num_pages region.pages region.first 0 none

-- What the kernel uses of the crates `x86_64` and `os_units`: page tables, `map_to` (`none` is its
-- `Err`), and the number of pages of a number of bytes.
pub record Paging : Type 1 where
  pub Table : Type 0
  pub translate_addr : Table → ℕ → Option ℕ
  pub map_to : Table → ℕ → ℕ → ℕ → FrameAllocator → Option (Table × FrameAllocator)
  pub as_num_of_pages : ℕ → ℕ

-- `MAPPER` and `FRAME_ALLOCATOR`, and the bytes of physical memory by their addresses. The memory of the
-- page tables is in `mapper` alone.
pub record State (pg : Paging) : Type 0 where
  pub mapper : pg.Table
  pub frame_allocator : FrameAllocator
  pub bytes : ℕ → ℕ

-- `PRESENT | WRITABLE | USER_ACCESSIBLE`
abbrev pub user_flags : ℕ
user_flags = 1 + 2 + 4

-- `PRESENT | WRITABLE`
abbrev pub lazy_flags : ℕ
lazy_flags = 1 + 2

abbrev pub is_some {ℓ} : {A : Type ℓ} → Option A → Bool
is_some none = false
is_some (some a) = true

-- A store of 0 through a translated address.
abbrev pub clear_byte : Option ℕ → (ℕ → ℕ) → ℕ → ℕ
clear_byte none mem p = mem p
clear_byte (some q) mem p = if p == q then 0 else mem p

module _ (pg : Paging) where
  unfoldable pub available : pg.Table → ℕ → Bool
  available t addr = not (is_some (pg.translate_addr t addr)) && not (addr == 0)

  -- The loop of `map_pages_from`, from page `i` on.
  unfoldable pub map_pages :
      ℕ → ℕ → ℕ → ℕ → pg.Table → FrameAllocator → Option (pg.Table × FrameAllocator)
  map_pages zero i virt frame t fa = some (t, fa)
  map_pages (suc n) i virt frame t fa =
      elim (pg.map_to t (align_down (virt + page_size * i)) (align_down (frame + page_size * i))
        user_flags fa) [ none ↦ none | some (t', fa') ↦ map_pages n (i + 1) virt frame t' fa' ]

  abbrev pub num_pages : ℕ → ℕ → ℕ
  num_pages start object_size =
      pg.as_num_of_pages (align_down (start + object_size) - align_down start + 1)

  unfoldable pub map_pages_from : ℕ → ℕ → PageRange → State pg → Option (ℕ × State pg)
  unfolding available
  map_pages_from start object_size region s =
      let n = num_pages start object_size in
      elim (search_free_addr_from (available s.mapper) n region) [
        | none ↦ none
        | some virt ↦ elim (map_pages n 0 virt (align_down start) s.mapper s.frame_allocator) [
          | none ↦ none
          | some (t, fa) ↦
              some (virt + start % page_size, record s { mapper = t; frame_allocator = fa })
        ]
      ]

  -- The upper half of the addresses, but for its last page.
  abbrev pub upper_half : PageRange
  upper_half = record {
    first = 0xFFFF_8000_0000_0000;
    pages = (0xFFFF_FFFF_FFFF_F000 - 0xFFFF_8000_0000_0000) / page_size;
  }

  unfoldable pub map_address : ℕ → ℕ → State pg → Option (ℕ × State pg)
  map_address phys size s = map_pages_from phys size upper_half s

  -- `fill(0)` on a slice of `n` bytes at a virtual address.
  unfoldable pub fill : ℕ → pg.Table → ℕ → (ℕ → ℕ) → ℕ → ℕ
  fill zero t virt mem = mem
  fill (suc n) t virt mem = fill n t (virt + 1) (clear_byte (pg.translate_addr t virt) mem)

  -- The part of `lazy_map` behind its tests.
  abbrev pub lazy_map_page : ℕ → Option ℕ → FrameAllocator → State pg → Option (Bool × State pg)
  lazy_map_page page none fa s = none
  lazy_map_page page (some frame) fa s = elim (pg.map_to s.mapper page frame lazy_flags fa) [
    | none ↦ none
    | some (t, fa') ↦
        some (
          true,
          record { mapper = t; frame_allocator = fa'; bytes = fill page_size t page s.bytes },
        )
  ]

  unfoldable pub lazy_map : ℕ → State pg → Option (Bool × State pg)
  lazy_map address s =
      let (frame, fa) = allocate_frame s.frame_allocator in
      if ltb address managed_start || leb managed_end address
      then some (false, s)
      else if is_some (pg.translate_addr s.mapper address)
      then some (false, s)
      else lazy_map_page (align_down address) frame fa s
