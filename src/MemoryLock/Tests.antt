-- ===== src/MemoryLock/Tests.antt =====
-- The names of `memory_lock` at concrete data.
use asymmetricfs.Prelude.{◌≡◌, refl, none}
use asymmetricfs.MemoryLock.Names.{validate}

unknown : validate "All" ≡ none
unfolding validate
unknown = refl
