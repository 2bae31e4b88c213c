-- ===== src/Index/Separation.antt =====
-- stms/2PLSF.hpp: the range and the collisions of the indices of locks and read-indicators.
use plsf.Prelude.{ℕ, ◌+◌, ◌*◌, ◌/◌, ◌%◌, ◌<◌, ◌≡◌, arith}
use plsf.Config.{registry_max_threads, num_rwl, num_ri_words}
use plsf.Index.{addr2write_idx, write_idx2read_idx}

-- The lock index of any address is within the array of write locks.
pub addr2write_idx-lt : (addr : ℕ) → addr2write_idx addr < num_rwl
unfolding addr2write_idx
addr2write_idx-lt addr = omega arith

-- The sum does not wrap, and is the thread's block of 65536 words plus the lock's word in it.
pub write_idx2read_idx_lem :
    (widx tid : ℕ)
    → widx < num_rwl
    → tid < registry_max_threads
    → write_idx2read_idx widx tid ≡ tid * 65536 + widx / 64
unfolding write_idx2read_idx
write_idx2read_idx_lem widx tid p q = omega arith

-- For a lock and a thread in range, the word index is within the array of read-indicators.
pub write_idx2read_idx-lt :
    (widx tid : ℕ)
    → widx < num_rwl
    → tid < registry_max_threads
    → write_idx2read_idx widx tid < num_ri_words
write_idx2read_idx-lt widx tid p q = omega (arith, write_idx2read_idx_lem widx tid p q)

-- For locks and threads in range, the word index and the bit number determine the lock and the
-- thread: no two threads share a word, and no two locks share a bit of one thread.
pub read_indicator_separation :
    (widx tid widx' tid' : ℕ)
    → widx < num_rwl
    → widx' < num_rwl
    → tid < registry_max_threads
    → tid' < registry_max_threads
    → write_idx2read_idx widx tid ≡ write_idx2read_idx widx' tid'
    → (tid ≡ tid') × (widx % 64 ≡ widx' % 64 → widx ≡ widx')
read_indicator_separation widx tid widx' tid' p p' q q' e =
    omega (arith, write_idx2read_idx_lem widx tid p q, write_idx2read_idx_lem widx' tid' p' q')
