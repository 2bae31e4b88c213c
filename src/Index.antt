-- ===== src/Index.antt =====
-- stms/2PLSF.hpp: from an address to its lock, and from a lock and a thread to the word and the bit
-- of the read-indicator.
pub mod Separation
use plsf.Prelude.{ℕ, ◌+◌, ◌*◌, ◌/◌, ◌%◌, ◌^◌}
use plsf.Config.{registry_max_threads, num_rwl, num_ri_words, ri_per_rwl}

-- `(addr >> 5) & (NUM_RWL-1)`; NUM_RWL is a power of 2, so the mask is a remainder.
unfoldable pub addr2write_idx : ℕ → ℕ
addr2write_idx addr = addr / 2 ^ 5 % num_rwl

-- The sum is of type uint64_t and is returned as a uint32_t.
unfoldable pub write_idx2read_idx : ℕ → ℕ → ℕ
write_idx2read_idx widx tid =
    (tid * num_ri_words / registry_max_threads + widx / ri_per_rwl / 64) % 2 ^ 32

unfoldable pub ribit : ℕ → ℕ
ribit widx = 2 ^ (widx % 64)
