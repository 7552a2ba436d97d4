-- ===== src/Page/Allocation.antt =====
-- `page_allocation`: a block of anonymous memory from `mmap`.
use asymmetricfs.Prelude.{
  ℕ, Bool, true, false, Memory, zeroes, Outcome, done, throws, bad_alloc, if◌then◌else◌,
}
use asymmetricfs.MemoryLock.{MemoryLock}

pub record PageAllocation : Type 0 where
  pub ptr : Memory
  pub size : ℕ

-- Is MAP_LOCKED among the flags?
unfoldable pub map_locked : MemoryLock → Bool
map_locked MemoryLock.all = true
map_locked MemoryLock.buffers = true
map_locked MemoryLock.none = false

-- The constructor. `mmap locked size` tells whether the kernel grants the mapping.
unfoldable pub page_allocation : (Bool → ℕ → Bool) → ℕ → MemoryLock → Outcome PageAllocation
unfolding map_locked
page_allocation mmap sz m =
    if mmap (map_locked m) sz then done (record { ptr = zeroes; size = sz }) else throws bad_alloc
