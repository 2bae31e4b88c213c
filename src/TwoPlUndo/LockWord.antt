-- ===== src/TwoPlUndo/LockWord.antt =====
-- stms/2PLUndo.hpp: the constants, the hash of an address, and the word of a lock: 56 bits of
-- read-indicator below 8 bits for the writer.
pub mod Parts
use plsf.Prelude.{ℕ, ◌+◌, ◌-◌, ◌*◌, ◌/◌, ◌%◌, ◌^◌, bit_and, bit_or, Bool, not, ◌==◌, if◌then◌else◌}
use plsf.Word.{not_word}

abbrev pub registry_max_threads : ℕ
registry_max_threads = 56

abbrev pub tx_max_stores : ℕ
tx_max_stores = 128 * 1024

abbrev pub tx_max_loads : ℕ
tx_max_loads = 128 * 1024

abbrev pub tx_max_allocs : ℕ
tx_max_allocs = 10 * 1024

abbrev pub tx_max_retires : ℕ
tx_max_retires = 10 * 1024

abbrev pub num_locks : ℕ
num_locks = 4 * 1024 * 1024

abbrev pub unlocked : ℕ
unlocked = 0

unfoldable pub hidx : ℕ → ℕ
hidx addr = bit_and (addr / 2 ^ 5) (num_locks - 1)

unfoldable pub get_write_state : ℕ → ℕ
get_write_state lock = lock / 2 ^ 56

unfoldable pub get_read_indicator : ℕ → ℕ
get_read_indicator lock = bit_and lock 0xff_ffff_ffff_ffff

unfoldable pub is_read_locked_by_me : ℕ → ℕ → Bool
is_read_locked_by_me lock tid = not (bit_and lock (2 ^ tid) == 0)

unfoldable pub is_empty_ri : ℕ → ℕ → Bool
unfolding get_read_indicator
is_empty_ri lock tid = bit_and (get_read_indicator lock) (not_word 64 (2 ^ tid)) == 0

-- The word that `tryWriteLock` puts in: `getReadIndicator(lock) | ((tid+1) << 56)`.
unfoldable pub write_locked : ℕ → ℕ → ℕ
unfolding get_read_indicator
write_locked lock tid = bit_or (get_read_indicator lock) (((tid + 1) * 2 ^ 56) % 2 ^ 64)

-- `fetch_add` and `fetch_sub` of a 64-bit word.
abbrev pub fetch_add : ℕ → ℕ → ℕ
fetch_add x d = (x + d) % 2 ^ 64

abbrev pub fetch_sub : ℕ → ℕ → ℕ
fetch_sub x d = (x + 2 ^ 64 - d) % 2 ^ 64

-- What `unlock` takes off: the caller's own part of the word.
unfoldable pub decrement : ℕ → ℕ → ℕ
unfolding get_write_state is_read_locked_by_me
decrement lock tid =
    (if is_read_locked_by_me lock tid then 2 ^ tid else 0)
    + (if get_write_state lock == tid + 1 then ((tid + 1) * 2 ^ 56) % 2 ^ 64 else 0)
