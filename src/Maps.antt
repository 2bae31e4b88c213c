-- ===== src/Maps.antt =====
-- pdatastructures: the hash maps whose nodes lie in transactional memory. As for the lists, an operation
-- is one transaction and runs as one sequence of loads and stores.
pub mod FixedSize
pub mod Resizable
pub mod FixedSizeByRef
pub mod ResizableByRef
mod Samples
mod Examples
