-- ===== src/TwoPlUndo.antt =====
-- stms/2PLUndo.hpp: two-phase locking with an undo log, each lock a single word.
pub mod LockWord
pub mod Access
pub mod Locks
pub mod State
pub mod Txn
pub mod Program
pub mod Operators
mod Samples
mod Examples
