-- ===== src/Prelude/Bytes.antt =====
-- Memory behind a pointer: the byte at each offset. Its extent is kept beside it, where the source
-- keeps it. The C library calls that copy and fill it.
use Prim.Native.Nat.{ℕ, ◌+◌, ◌-◌}
use mathlib.Core.Bool.{Bool, ◌&&◌}
use asymmetricfs.Prelude.Tests.{ltb, leb, if◌then◌else◌}

abbrev pub Memory : Type 0
Memory = ℕ → ℕ

-- `from ≤ i < to`
abbrev pub in_range : ℕ → ℕ → ℕ → Bool
in_range from to i = leb from i && ltb i to

-- What an anonymous `mmap` returns.
abbrev pub zeroes : Memory
zeroes i = 0

-- `memcpy(to + at, from + start, n)`
abbrev pub memcpy : Memory → ℕ → Memory → ℕ → ℕ → Memory
memcpy to at from start n i = if in_range at (at + n) i then from (i - at + start) else to i

-- `memset(to + at, value, n)`
abbrev pub memset : Memory → ℕ → ℕ → ℕ → Memory
memset to at value n i = if in_range at (at + n) i then value else to i
