-- ===== src/Snalloc/Slab.antt =====
-- crates/snalloc/src/lib.rs, `SlabAllocator`: cells of one size, the free ones linked through their
-- first words. Memory gives the word at each address; the null pointer is 0. The `debug_assert!`s are
-- not compiled into a release build and are left out.
pub mod Heap
pub mod Alloc
pub mod Trace
pub mod Reach
use snek_os.Prelude.{ℕ, ◌+◌, ◌-◌, ◌%◌, ◌^◌, Option, none, some, Bool, ◌==◌, leb, if◌then◌else◌, u64}

-- `core::alloc::Layout`
pub record Layout : Type 0 where
  pub bytes : ℕ
  pub align : ℕ

pub record Slab : Type 0 where
  pub start : ℕ
  pub end : ℕ
  pub next : ℕ
  pub size : ℕ
  pub used : ℕ

abbrev pub Memory : Type 0
Memory = ℕ → ℕ

abbrev pub write : Memory → ℕ → ℕ → Memory
write mem p v a = if a == p then v else mem a

unfoldable pub new : ℕ → Slab
new size = record { start = 0; end = 0; next = 0; size = size; used = 0 }

-- `none` is the failed `assert!`, which reads the slab's old start.
unfoldable pub init : Slab → ℕ → ℕ → Option Slab
init s start size =
    if s.start % s.size == 0
    then some (record s { start = start; end = u64 (start + size); next = start })
    else none

-- `size()`: the bytes of the region.
abbrev pub capacity : Slab → ℕ
capacity s = u64 (s.end + 2 ^ 64 - s.start)

unfoldable pub alloc : Slab → Memory → Layout → ℕ × Slab × Memory
alloc s mem layout = if leb s.end s.next then (0, s, mem) else (
  s.next,
  record s {
    next = if mem s.next == 0 then u64 (s.next + s.size) else mem s.next;
    used = u64 (s.used + layout.bytes);
  },
  write mem s.next 0,
)

unfoldable pub dealloc : Slab → Memory → ℕ → Layout → Slab × Memory
dealloc s mem ptr layout =
    (record s { next = ptr; used = u64 (s.used + 2 ^ 64 - layout.bytes) }, write mem ptr s.next)
