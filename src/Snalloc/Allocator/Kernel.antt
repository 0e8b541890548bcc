-- ===== src/Snalloc/Allocator/Kernel.antt =====
-- The allocator as the kernel sets it up (kernel/src/allocator.rs, over crates/snalloc/src/lib.rs).
use snek_os.Prelude.{
  ℕ, ◌+◌, ◌-◌, ◌%◌, ◌≤◌, ◌<◌, Option, none, some, List, [], ◌∷◌, map, get_elem?, ◌≡◌, refl, ap, ◌∙◌,
  sym, arith,
}
use snek_os.Snalloc.Slab
use snek_os.Snalloc.Slab.{Layout, Slab, Memory}
use snek_os.Snalloc.Allocator.{
  Fallback, Inner, sizes, find, needed, new, slab, init, init_slabs, alloc,
}

abbrev pub managed_start : ℕ
managed_start = 0x0000_1000_0000_0000

abbrev pub managed_end : ℕ
managed_end = 0x0000_7fff_ffff_f000

-- `ALLOCATOR.init(MANAGED_START, MANAGED_END - MANAGED_START)`
unfoldable pub kernel_init : {fb : Fallback} → Memory → Option (Inner fb × Memory)
unfolding init new
kernel_init mem = init new mem managed_start (managed_end - managed_start)

abbrev pub region : ℕ
region = 0x0DFF_FFFF_FE00

-- The seven slabs as `kernel_init` leaves them.
abbrev pub slabs_at : ℕ → List ℕ → List Slab
slabs_at start [] = []
slabs_at start (n ∷ ns) =
    record { size = n; next = start; start = start; end = start + region; used = 0 }
    ∷ slabs_at (start + region) ns

slabs_lem :
    init_slabs managed_start region 0 (map Slab.new sizes) ≡ some (slabs_at managed_start sizes)
unfolding init_slabs Slab.init Slab.new
slabs_lem = refl

-- The index of the slab for a request aligned to 2048.
find-large : (n : ℕ) → 512 < n → n ≤ 2048 → find n (slabs_at managed_start sizes) ≡ some 6
unfolding find
find-large n lo hi = ground arith

first :
    {fb : Fallback} (mem : Memory) (a : Inner fb) (mem' : Memory)
    → kernel_init mem ≡ some (a, mem')
    → a.slabs ≡ slabs_at managed_start sizes
unfolding kernel_init init new init_slabs Slab.init Slab.new
first mem a mem' e = sym (ap (λ o. elim o [ none ↦ [] | some r ↦ r.0.slabs ]) e)

abbrev seventh : Slab
seventh = record {
  size = 2048;
  next = 0x63FF_FFFF_F400;
  start = 0x63FF_FFFF_F400;
  end = 0x71FF_FFFF_F200;
  used = 0;
}

slab-large :
    {fb : Fallback} (a : Inner fb) (layout : Layout)
    → a.slabs ≡ slabs_at managed_start sizes
    → 512 < needed layout
    → needed layout ≤ 2048
    → slab a layout ≡ some 6
unfolding slab
slab-large a layout e lo hi = ap (find (needed layout)) e ∙ find-large (needed layout) lo hi

-- After `kernel_init`, the first request for at most 2048 bytes at an alignment of 2048 is answered
-- with an address that is 1024 past a multiple of 2048, whatever the memory holds.
pub kernel_init-misaligned :
    {fb : Fallback} (mem : Memory) (a : Inner fb) (mem' : Memory) (mem1 : Memory) (layout : Layout)
    → kernel_init mem ≡ some (a, mem')
    → layout.align ≡ 2048
    → layout.bytes ≤ 2048
    → (alloc a mem1 layout).0 % 2048 ≡ 1024
unfolding alloc Slab.alloc
kernel_init-misaligned mem a mem' mem1 layout e al by =
    let chosen : slab a layout ≡ some 6 =
      slab-large a layout (first mem a mem' e) (ground arith) (ground arith) in
    let at : get_elem? a.slabs 6 ≡ some seventh = ap (λ ss. get_elem? ss 6) (first mem a mem' e) in
    rw (alloc, chosen, at, Slab.alloc) refl
