-- ===== src/Page/ByteFile.antt =====
-- What a page buffer promises: a file of bytes, with reads, writes and truncation.
use asymmetricfs.Prelude.{ℕ, ◌+◌, ◌-◌, min, max, Memory, in_range, ltb, if◌then◌else◌}

-- Above its size a file has zeroes.
pub record ByteFile : Type 0 where
  pub size : ℕ
  pub byte : Memory

-- The bytes that there are, into the caller's memory.
abbrev pub file_read : ByteFile → ℕ → ℕ → Memory → ℕ × Memory
file_read f n offset buffer =
    let count = min n (f.size - offset) in
    (count, λ i. if ltb i count then f.byte (offset + i) else buffer i)

abbrev pub file_write : ByteFile → ℕ → ℕ → Memory → ByteFile
file_write f n offset buffer = record {
  size = max f.size (offset + n);
  byte = λ x. if in_range offset (offset + n) x then buffer (x - offset) else f.byte x;
}

abbrev pub file_truncate : ByteFile → ℕ → ByteFile
file_truncate f n = record { size = n; byte = λ x. if ltb x n then f.byte x else 0 }
