-- ===== src/Device.antt =====
-- The drivers under device/.
pub mod Ide
pub mod Queue
pub mod Keyboard
pub mod Clock
pub mod Console
pub mod Partition
pub mod Controllers
