-- ===== src/Std.antt =====
-- The parts of the C++ standard library and of libc that the code uses.
pub mod Scan
pub mod Text
pub mod StringMap
