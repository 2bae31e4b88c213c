-- ===== src/Config.antt =====
-- The constants of stms/2PLSF.hpp.
use plsf.Prelude.{ℕ, ◌-◌, ◌*◌, ◌/◌, ◌^◌}

abbrev pub registry_max_threads : ℕ
registry_max_threads = 256

abbrev pub tx_max_allocs : ℕ
tx_max_allocs = 10 * 1024

abbrev pub tx_max_retires : ℕ
tx_max_retires = 10 * 1024

abbrev pub no_timestamp : ℕ
no_timestamp = 0xffff_ffff_ffff_ffff

abbrev pub num_rwl : ℕ
num_rwl = 4 * 1024 * 1024

abbrev pub ri_per_rwl : ℕ
ri_per_rwl = 1

abbrev pub num_ri : ℕ
num_ri = num_rwl

abbrev pub num_ri_words : ℕ
num_ri_words = num_ri * registry_max_threads / 64

-- The value of a write-lock word that no thread holds; a holder writes its own tid.
abbrev pub unlocked : ℕ
unlocked = 2 ^ 16 - 1

abbrev pub max_read_set_entries : ℕ
max_read_set_entries = 64 * 1024

abbrev pub max_write_set_entries : ℕ
max_write_set_entries = 128 * 1024

-- The announced timestamps lie one to a cache line of 128 bytes.
abbrev pub clpad : ℕ
clpad = 128 / 8
