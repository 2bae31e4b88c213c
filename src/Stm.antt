-- ===== src/Stm.antt =====
-- stms/2PLSF.hpp: the STM itself.
pub mod State
pub mod Indicator
pub mod Conflict
pub mod Locks
pub mod Txn
pub mod Program
pub mod Allocation
pub mod Operators
pub mod Start
pub mod Wrappers
mod Quiet
mod Samples
mod Examples
