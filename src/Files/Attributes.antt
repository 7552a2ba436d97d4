-- ===== src/Files/Attributes.antt =====
-- The operations on attributes and links that only pass a call on to the system: `statfs`,
-- `utimens`, `readlink`, `listxattr`, `removexattr`, `setxattr` and `init`.
use Prim.Native.Nat.{bit_or}
use Prim.Native.String.{String}
use asymmetricfs.Prelude.{ℕ, ◌-◌, Option, none, ◌==◌, if◌then◌else◌, Memory, ℤ, pos, neg, to_int}
use asymmetricfs.Kernel.{Kernel, Sys, ok, error, o_cloexec, o_path}
use asymmetricfs.Files.{Filesystem, relpath}
use asymmetricfs.Files.Settings.{reply}
use asymmetricfs.Files.Contents.{reply_closing}

module _ (K : Kernel) where
  open K use {State}

  -- A reply with the memory of the caller.
  abbrev pub MemoryReply : Type 0
  MemoryReply = ℤ × Memory × State

  unfoldable pub stated : Memory → Sys Memory × State → MemoryReply
  stated buf (ok bytes, s) = (pos 0, bytes, s)
  stated buf (error e, s) = (neg e, buf, s)

  unfoldable pub statfs : Memory → Filesystem → State → MemoryReply
  statfs buf fs s = stated buf (K.fstatvfs fs.root s)

  unfoldable pub utimens : String → (ℕ × ℕ) × (ℕ × ℕ) → Filesystem → State → ℤ × State
  utimens path tv fs s = reply K (K.utimensat fs.root (relpath path) tv 0 s)

  unfoldable pub link_read : Memory → Sys (ℕ × Memory) × State → MemoryReply
  link_read buffer (ok (n, bytes), s) = (to_int n, bytes, s)
  link_read buffer (error e, s) = (neg e, buffer, s)

  -- One byte less than the size is asked for, and the bytes get no terminator.
  unfoldable pub readlink : String → Memory → ℕ → Filesystem → State → MemoryReply
  readlink path buffer size fs s =
      link_read buffer (K.readlinkat fs.root (relpath path) (size - 1) s)

  -- A positive length is taken for a failure, and `errno` is what an earlier call has left.
  unfoldable pub listed : ℕ → Memory → Sys (ℕ × Memory) × State → MemoryReply
  listed fd buffer (error e, s) = let (ret, t) = reply_closing K fd (error e, s) in (ret, buffer, t)
  listed fd buffer (ok (n, bytes), s) =
      let closed = K.close fd s in
      (if n == 0 then pos 0 else neg (K.errno closed.1), bytes, closed.1)

  unfoldable pub list_opened : Memory → ℕ → Sys ℕ × State → MemoryReply
  list_opened buffer size (error e, s) = (pos e, buffer, s)
  list_opened buffer size (ok fd, s) = listed fd buffer (K.flistxattr fd size s)

  -- The descriptor for the extended attributes.
  abbrev pub open_attributes : String → Filesystem → State → Sys ℕ × State
  open_attributes path fs s = K.openat fs.root (relpath path) (bit_or o_cloexec o_path) none s

  unfoldable pub listxattr : String → Memory → ℕ → Filesystem → State → MemoryReply
  listxattr path buffer size fs s = list_opened buffer size (open_attributes path fs s)

  unfoldable pub remove_opened : String → Sys ℕ × State → ℤ × State
  remove_opened name (error e, s) = (neg e, s)
  remove_opened name (ok fd, s) = reply_closing K fd (K.fremovexattr fd name s)

  unfoldable pub removexattr : String → String → Filesystem → State → ℤ × State
  removexattr path name fs s = remove_opened name (open_attributes path fs s)

  unfoldable pub set_opened : String → Memory → ℕ → ℕ → Sys ℕ × State → ℤ × State
  set_opened name value size flags (error e, s) = (neg e, s)
  set_opened name value size flags (ok fd, s) =
      reply_closing K fd (K.fsetxattr fd name value size flags s)

  unfoldable pub setxattr : String → String → Memory → ℕ → ℕ → Filesystem → State → ℤ × State
  setxattr path name value size flags fs s =
      set_opened name value size flags (open_attributes path fs s)

-- `init` returns the null pointer.
unfoldable pub init : Option ℕ
init = none
