-- ===== src/Snalloc/Tests.antt =====
-- Runs of the allocator on a region of four cells (crates/snalloc/src/lib.rs).
use snek_os.Prelude.{ℕ, ◌+◌, ◌-◌, ◌*◌, ◌%◌, none, some, List, [], ◌∷◌, ◌++◌, ◌≡◌, refl, arith}
use snek_os.Snalloc.Slab
use snek_os.Snalloc.Slab.{Layout, Slab, Memory, alloc, dealloc}
use snek_os.Snalloc.Slab.Heap.{World, IsHeap}
use snek_os.Snalloc.Slab.Alloc.{step_alloc, Allocated, alloc-Allocated}
use snek_os.Snalloc.Slab.Trace.{step_dealloc}
use snek_os.Snalloc.Slab.Reach.{
  Reach, here, next, allocates, releases, IsRegion, no_clients, fresh-IsHeap, IsSafe, Reach-IsSafe,
}
use snek_os.Snalloc.Allocator
use snek_os.Snalloc.Allocator.{Fallback, Inner, find, needed, sizes}
use snek_os.Snalloc.Allocator.Classes.{IsShaped}
use snek_os.Snalloc.Allocator.Kernel.{
  managed_start, managed_end, region, slabs_at, kernel_init, kernel_init-misaligned,
}

abbrev zeroed : Memory
zeroed a = 0

abbrev layout : Layout
layout = record { bytes = 12; align = 4 }

abbrev fresh : Slab
fresh = record { size = 16; next = 4096; start = 4096; end = 4160; used = 0 }

is_region : IsRegion 16 4096 64 zeroed
is_region = record {
  wide = omega arith;
  base = omega arith;
  fits = omega arith;
  zeroed = λ a above below. refl;
}

init_fresh : Slab.init (Slab.new 16) 4096 64 ≡ some fresh
unfolding Slab.init Slab.new
init_fresh = refl

-- Two allocations, and the first cell given back.
abbrev two_cells : World
two_cells = (step_alloc layout (step_alloc layout (no_clients fresh zeroed)).1).1

two_cells-live : two_cells.live ≡ (4112 ∷ []) ++ 4096 ∷ []
unfolding step_alloc alloc
two_cells-live = refl

abbrev one_cell : World
one_cell = step_dealloc layout 4096 (4112 ∷ []) [] two_cells

one_cell-Reach : Reach (no_clients fresh zeroed) one_cell
one_cell-Reach =
    next (next (next here (allocates layout (no_clients fresh zeroed))) (allocates layout _))
      (releases layout two_cells 4096 (4112 ∷ []) [] two_cells-live)

Reach-IsSafe_example : IsSafe 16 4096 64 zeroed one_cell
Reach-IsSafe_example = Reach-IsSafe 16 4096 64 zeroed is_region init_fresh one_cell-Reach

fresh-IsHeap_at : IsHeap (no_clients fresh zeroed) [] 0
fresh-IsHeap_at = fresh-IsHeap 16 4096 64 zeroed is_region

alloc-Allocated_example :
    Allocated
      (no_clients fresh zeroed)
      []
      0
      (step_alloc layout (no_clients fresh zeroed)).0
      (step_alloc layout (no_clients fresh zeroed)).1
    × ((free' : List ℕ) × (n' : ℕ) × IsHeap
          (step_alloc layout (no_clients fresh zeroed)).1
          free'
          n')
alloc-Allocated_example = alloc-Allocated layout (no_clients fresh zeroed) [] 0 fresh-IsHeap_at

-- One cell is handed out.
abbrev held : World
held = record { slab = record fresh { next = 4112; used = 12 }; mem = zeroed; live = 4096 ∷ [] }

held-IsHeap : IsHeap held [] 1
held-IsHeap = record {
  base = omega arith;
  wide = omega arith;
  no_wrap = omega arith;
  inside = λ k lt. omega arith;
  chain = refl;
  unused = λ a above below. refl;
  cells_free = tt;
  cells_live = ((0, omega arith, refl), tt);
  distinct_free = tt;
  distinct_live = (tt, tt);
  apart = tt;
}

-- A heap that never has room.
abbrev full_heap : Fallback
full_heap = record {
  Heap = ℕ × ℕ;
  empty = (0, 0);
  init = λ h mem start size. ((start, size), mem);
  allocate_first_fit = λ h mem l. (none, h, mem);
  deallocate = λ h mem ptr l. (h, mem);
  heap_used = λ h. h.1;
  heap_size = λ h. h.1;
}

abbrev unready : Inner full_heap
unready = Allocator.new

unready-IsShaped : IsShaped unready
unfolding Allocator.new Slab.new
unready-IsShaped = refl

abbrev large : Layout
large = record { bytes = 4096; align = 8 }

abbrev kernel_heap : Inner full_heap
kernel_heap = record {
  start = managed_start;
  size = managed_end - managed_start;
  slabs = slabs_at managed_start sizes;
  fallback = (managed_start + 7 * region, region);
}

kernel_heap-init : kernel_init zeroed ≡ some (kernel_heap, zeroed)
unfolding kernel_init Allocator.init Allocator.init_slabs Allocator.new Slab.init Slab.new
kernel_heap-init = refl

abbrev half_page : Layout
half_page = record { bytes = 2048; align = 2048 }

kernel_init-misaligned_example : (Allocator.alloc kernel_heap zeroed half_page).0 % 2048 ≡ 1024
kernel_init-misaligned_example =
    kernel_init-misaligned zeroed kernel_heap zeroed zeroed half_page kernel_heap-init refl
      (omega arith)
