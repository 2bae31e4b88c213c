-- ===== src/Lists.antt =====
-- pdatastructures: the linked lists whose nodes lie in transactional memory. An operation of a list is
-- one transaction, so it runs from its first load to its last store with no other in between; the
-- template parameter TM is what makes it so.
pub mod Nodes
pub mod Set
pub mod SetByRef
pub mod SetNdp
pub mod Queue
mod Samples
mod Examples
