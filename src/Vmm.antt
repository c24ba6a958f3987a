-- ===== src/Vmm.antt =====
-- kernel/mm/vmm.c, the virtual memory manager.
pub mod Regions
pub mod Objects
pub mod Space
pub mod Init
pub mod Compare
mod Tests
