-- ===== src/Snalloc.antt =====
-- The kernel's heap, crates/snalloc.
pub mod Slab
pub mod Allocator
mod Tests
