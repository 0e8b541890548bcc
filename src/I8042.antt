-- ===== src/I8042.antt =====
-- The PS/2 controller driver crate, crates/i8042.
pub mod Mouse
pub mod Keyboard
pub mod Port
pub mod Driver
mod Tests
