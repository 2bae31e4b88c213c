-- ===== src/Lib.antt =====
-- Verification of 2PLSF, a software transactional memory with two-phase locking that is meant to be
-- starvation-free (stms/2PLSF.hpp), of two simpler variants, 2PL with an undo log (stms/2PLUndo.hpp) and
-- the same with distributed read-indicators (stms/2PLUndoDist.hpp), and of linked lists and hash maps that
-- run on them (pdatastructures).
--
-- The program. A word of memory is guarded by one of NUM_RWL reader-writer locks, chosen by its
-- address. The write side of a lock is a word that holds the tid of its holder or UNLOCKED; the read
-- side is the read-indicator, with one bit for each pair of lock and thread. A transaction takes the
-- lock of every word that it loads or stores and gives all of them back at its end. On a conflict it
-- takes a timestamp from the conflict clock, announces it, and then waits; when a transaction with a
-- lower announced timestamp is in the way, it dies: it undoes its stores from the undo log, releases
-- its locks, waits until the other one withdraws its announcement, and starts again.
--
-- In 2PL with an undo log a lock is a single word, 56 bits for the readers below 8 bits for the writer's
-- tid and one. A thread that does not get a lock at once throws an exception, which undoes its stores and
-- releases its locks, and begins again after a backoff. The third STM has the locks of the first and the
-- restarts of the second. The lists and maps are templates over such an STM: each
-- operation is one transaction, so their model runs an operation as one sequence of loads and stores.
--
-- The files.
--   Prelude, Word: shared helpers: Boolean tests, lists over the native numbers, arrays as functions,
--     and the bits of machine words.
--   Config: the constants of stms/2PLSF.hpp.
--   Index: `addr2writeIdx`, `writeIdx2readIdx`, `ribit`.
--   Registry: class ThreadRegistry: `register_thread_new` and `deregister_thread`, one access of a
--     shared word at a step, and the threads as a step relation. Below it: Step and Unique
--     (every interleaving), Lowest (a thread that registers alone), Examples.
--   Stm/State: `Shared` holds the fields of class STM that all threads see, with memory and the
--     thread registry's maximum; `OpData` is the struct of that name; `State` is both with
--     `tl_opdata`, whose null test is the field `active`. A command returns an `Outcome`: `ok`,
--     `restart` for longjmp, `failed` for an assert, `spinning` for a wait that is not over.
--   Stm/Indicator: the bits of the read-indicators.
--   Stm/Conflict: `isEmpty`, `getTSOfWLock`, `getLowestTS`.
--   Stm/Locks: `tryWaitReadLock`, `tryWaitWriteLock` with their slow paths, `addEntry` of both
--     sets, and the unlocks. Below it: Rely (the rely condition and the rule for waiting loops),
--     Tracked and Order (a thread in good order), InTheWay (the thread that a refused one gives way
--     to), Frame (what the lock operations leave alone), Read
--     with ReadWait, Write with Taking, WriteWait and WriteResult (the two operations), Progress (the
--     end of their waits).
--   Stm/Txn: `beginTx`, `endTx`, `abortTx`, `waitForConflictingTxn`, `pstore`, `pload`, `tmMalloc`,
--     `tmFree`; below it Release, on the loops that release the locks.
--   Stm/Program: user code as a tree of loads, stores, allocations and frees, and `transaction`.
--     Below it: Undo, Atomic and Restart (aborted attempts), TwoPhase and Strict (the locks of an
--     attempt), Commit and Whole (attempts up to the commit), Sequential, Sole, Alone and
--     Uncontended (a transaction that meets no conflict).
--   Stm/Start: the constructors of `STM` and `OpData`. Stm/Wrappers: `beginTxn`, `endTxn`, `abortTxn`,
--     `tryReadLock` and `tryWriteLock`.
--   Stm/Operators: the operators of `tmtype`, as user code. Stm/Allocation: `tmNew` and `tmDelete`.
--   TwoPlUndo/LockWord: the constants, `hidx` and the parts of the word of a lock; below it Parts. The
--     bits and fields of words that it needs are in Word and Word/Fields.
--   TwoPlUndo/Access: class LockManager one access of the word at a step, with the threads as a step
--     relation; below it Own, Cases and After (what an access does to the parts of the word), Mutex.
--   TwoPlUndo/Locks: class LockManager, an operation in one go; below it Held,
--     Taking and Unlocking (what a thread holds), Roundtrip.
--   TwoPlUndo/State, TwoPlUndo/Txn: `OpData`, `ReadSet`, `WriteSet`, and class STM up to `transaction`. A
--     command returns an `Outcome`: `ok`, `aborted` for the exception, `failed` for an assert.
--   TwoPlUndo/Program: `transaction` on the user code of Stm/Program; below it Logs, Running and Following
--     (the accesses of an attempt), Attempted (an attempt to its end), Loop (attempts up to the commit).
--   TwoPlUndo/Operators: the operators of `tmtype`.
--   TwoPlDist: stms/2PLUndoDist.hpp. State, Locks and Txn are its state, its locks and class STM up to
--     `transaction`; below Locks: Empty (`isEmpty`), Held, Taking and Unlocking (what a thread holds).
--     Program: `transaction`; below it Logs, Running and Following (an attempt), Loop. Operators: the
--     operators of `tmtype`. Wrappers: the functions that DBx1000 calls.
--   Lists/Nodes: the memory of nodes. Lists/Set: pdatastructures/TMLinkedListSet.hpp; below it Links and
--     Items (the nodes and their order), Search, Linking, Unlinking, Refinement, Lifetime (constructor and
--     destructor). Lists/SetByRef and Lists/SetNdp: its variants. Lists/Queue: both queues; below it Chain
--     and Refinement.
--   Maps/FixedSize: pdatastructures/TMHashMapFixedSize.hpp; below it Cells (the list of a bucket and the
--     loops over it), Changed and Appended (the lists after a store), Found, WellFormed, Operations,
--     Putting, Last and Refinement (the map as a partial function), New (the constructor).
--   Maps/Resizable: pdatastructures/TMHashMap.hpp; below it Cells (the list of a bucket and the loops over
--     it), Family (the lists of all buckets), Steps, View (the map as a partial function), Hits, Cuts and
--     Appends (the list that an operation leaves), Operations, Moving, Emptying and Rebuilding (`rebuild`),
--     Refinement. Maps/FixedSizeByRef and Maps/ResizableByRef: the variants of both whose operations leave
--     their result in a variable (TMHashMapFixedSizeByRef.hpp and TMHashMapByRef.hpp).
--   Samples and Examples below TwoPlUndo, TwoPlDist, Lists and Maps: concrete cases.
--   Stm/Quiet, Stm/Samples and Stm/Examples: concrete threads and programs.
--
-- Concurrency. In Registry the threads interleave at every access of a shared word. In Stm the
-- model runs one thread. Each pass through a waiting loop ends in a `Pause`, and there the other
-- threads act: a wait takes a list of rounds, each any function of the shared state. What the
-- thread relies on is the record `Respects`: the others leave its own words and its own
-- announcement alone, neither take nor release a lock in its name, do not write the memory under
-- its write locks, and leave timestamps to give. Between two `Pause`s the code of the thread
-- runs as one step, and memory is sequentially consistent; the races inside such a step are not
-- modelled. The operations by which the others act do not have to be those of this program.
--
-- In TwoPlUndo/Access the threads interleave at every access of a lock word. In the rest of TwoPlUndo
-- and in TwoPlDist an attempt of a transaction runs with no other thread in between, from any words of
-- the locks; before an attempt the other threads do to the shared state what the caller of the model says.
--
-- Bounds. Words are natural numbers; a conversion to a narrower type and a sum that can wrap are
-- written with their remainder. The loops over threads and logs are structural. The waiting
-- loops and the restarts are unbounded in the code: they run over the given lists of rounds and
-- attempts, and where a list ends the outcome is `spinning` or `unfinished`.
-- Where no other thread is in the way, no round and a single attempt are enough
-- (Stm/Program/Uncontended).
-- The search loops of the lists and of the map run on rounds: one more than the list, or the longest
-- list of a bucket, has nodes is enough; the put of a map that is rebuilt wants one more than buckets
-- times the longest list. The keys and values of the maps are numbers, `std::hash` is any function.
--
-- Not modelled: the thread-local variable `tl_tcico` but for the tid in it, the destructors of the
-- STMs, `rangeQuery`, which is a stub, the trees and the skip lists of pdatastructures. The other STMs,
-- DBx1000 and the benchmarks are copies of other projects or measurement programs.
pub mod Prelude
pub mod Word
pub mod Config
pub mod Index
pub mod Stm
pub mod Registry
pub mod TwoPlUndo
pub mod TwoPlDist
pub mod Lists
pub mod Maps
