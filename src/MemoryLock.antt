-- ===== src/MemoryLock.antt =====
-- memory_lock.h: what is locked into memory.
pub mod Names
mod Tests

pub data MemoryLock : Type 0 where
  all buffers none : MemoryLock
