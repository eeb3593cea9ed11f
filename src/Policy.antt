-- ===== src/Policy.antt =====
-- internal/policy
pub mod GoList
pub mod Interface
pub mod History
pub mod Lru
pub mod Lfu
pub mod Fifo
pub mod Manager
