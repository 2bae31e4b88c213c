-- ===== src/TwoPlDist.antt =====
-- stms/2PLUndoDist.hpp: two-phase locking with an undo log and distributed read-indicators. A thread that
-- meets a lock of another restarts at once. The index functions of this file are those of Index, its
-- random numbers those of stms/2PLUndo.hpp.
pub mod State
pub mod Locks
pub mod Txn
pub mod Program
pub mod Operators
pub mod Wrappers
mod Samples
mod Examples
