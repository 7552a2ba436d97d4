-- ===== src/Page.antt =====
-- page_buffer.h and page_buffer.cpp.
pub mod Allocation
pub mod Blocks
pub mod ByteFile
pub mod Pipe
pub mod Ownership
pub mod Splice
pub mod Buffer
mod Tests
