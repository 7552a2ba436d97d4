-- ===== src/Lib.antt =====
-- asymmetricfs is a file system for FUSE whose files are encrypted for a list of recipients. A file
-- that is open has its plain text in memory, in a buffer of pages, and is encrypted by gpg when it
-- is closed. In write-only mode nothing is decrypted: a file can be written, or made anew.
--
-- The parts of the program and the files that model them:
--
-- - src/page_buffer.{h,cpp}: a map from offsets to blocks of pages. Page/Allocation is the class
--   page_allocation, and Page/Ownership has its mapping with the move and the destructor; Page/Blocks
--   is the map with find_block, Page/Buffer the class page_buffer with read, write, resize and clear,
--   and Page/Splice flush_iov, zero_splice and splice. Their loops
--   are functions of their own (read_loop, write_loop, splice_loop, ...), and so are the bodies of
--   the loops (read_block, write_round, splice_round, ...). Page/ByteFile is the file of bytes that
--   a buffer stands for; Page/Buffer/Refinement relates the two. Page/Pipe is the pipe that splice
--   fills, a parameter with laws.
-- - src/memory_lock.{h,cpp}: MemoryLock, and its names in MemoryLock/Names.
-- - src/subprocess.{h,cpp}: Subprocess is the constructor, wait and the destructor, and
--   Subprocess/Communicate is communicate; Subprocess/Input is about what it writes,
--   Subprocess/Output about what it reads, and Subprocess/Exchanging about both, by
--   Subprocess/Invariant. Subprocess/Descriptors follows the open descriptors.
-- - src/gpg_recipient.{h,cpp}: Recipient is gpg_recipient::validate, and
--   Recipient/CommandLine the function validate that boost calls. A recipient is its name.
-- - src/implementation.{h,cpp}: Files is the state of the class asymmetricfs; Files/Handles has
--   create, open (open_file), release, rename, access, write (write_file) and internal::close;
--   Files/Loading has internal::load_buffer; Files/Contents read (read_file), truncatefd,
--   ftruncate, truncate, statfd, fgetattr and getattr; Files/Settings the configuration and the
--   operations that pass a call on; Files/Attributes statfs, utimens, readlink and the extended
--   attributes; Files/Directories opendir and releasedir, and Files/Directories/Listing readdir.
--   Files/Destruction is the destructor of the class. Files/Table, Files/Consistency and Files/Live
--   are about what holds of the table of open files; Files/Invariant is what such a property needs
--   to be an invariant, Files/Contents/Invariants, Files/Contents/Truncation, Files/Calls/Invariants
--   and Files/Steps carry any invariant through the operations, the calls and the steps, and
--   Files/Closing composes close, the class subprocess and splice; Files/Loading/Whole composes
--   load_buffer, the class subprocess (Subprocess/Output) and the buffer's write
--   (Page/Buffer/Appending); Files/Contents/Plain composes a close and a later read, Files/Contents/
--   Failures a read and a failed exchange with gpg.
-- - src/main.cpp: Main is main from what boost has parsed on (the record Parsed), and Files/Calls
--   the helpers that FUSE calls, as one function serve on the calls.
--
-- A file of the table has a buffer (Internal.buffer): write_file calls the buffer's write, and close
-- splices it into the standard input of a gpg that the class subprocess starts. load_buffer finds the
-- blocks of gpg in the file, gives each to a gpg of its own with communicate, and writes the output
-- to the end of the buffer. read, statfd and truncatefd load a file before they look at its buffer,
-- if reading is allowed.
--
-- How the model stands to the code:
--
-- - A call returns an Outcome: a result, an assertion that fails (aborts), an exception (throws), or
--   the end of the fuel. The program is taken to be built with assertions.
-- - size_t is a natural number with the wrap-around of add64 and sub64 written out, the references
--   are 32 bits wide (add32, sub32), and int and off_t are ℤ.
-- - Memory behind a pointer is a function from offsets to bytes. The extents stand beside it.
-- - The maps are lists by ascending key (map) or in any order (unordered_map), with insert and
--   emplace that keep an entry that is there. An iterator is a position in the list, or the rest of
--   the list.
-- - The operating system is the record Kernel, whose state every call changes: descriptors, files,
--   pipes and children are its own. mmap is a function that says whether a mapping is granted.
-- - The mutex covers what an operation does to the table of open files, so the operations are steps
--   one after the other (Files/Steps), with changes by other programs between them.
--
-- Loops on fuel: read_loop has one unit for each block and one more; write_loop one for each byte
-- and one more, since a round copies a byte or aborts; flush_iov one for each byte and one more,
-- since a call takes a byte or more; zero_loop one for each byte and one more; splice_loop one for
-- each block and one more. communicate_loop has its fuel from the caller, since select may be
-- interrupted for ever; one unit for each byte of both buffers and one more is enough for a child
-- that takes and gives bytes. The search for a terminator has one unit for each byte of the file and
-- one more, and so has the loop over the blocks, since a block is a byte or more. The loop over the
-- output of one gpg (receive) and the loop over the entries of a directory have their fuel from the
-- caller, since neither has a bound.
--
-- Readings of what the language or the system leaves open: where load_buffer compares bytes behind
-- the end of the mapped file, the program ends (aborts). The bytes of a mapped file do not change
-- while it is loaded. errno is read right after the call that has failed, and calls that work leave
-- it as it is.
--
-- Not modelled: the parsing of the command line, which is a library's, and the texts that are printed.
-- flush and fsync are declared in implementation.h and defined nowhere.
pub mod Prelude
pub mod MemoryLock
pub mod Page
pub mod Kernel
pub mod Subprocess
pub mod Recipient
pub mod Main
pub mod Files
