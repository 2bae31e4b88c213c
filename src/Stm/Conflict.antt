-- ===== src/Stm/Conflict.antt =====
-- stms/2PLSF.hpp: which other threads stand in the way of a lock, and the lowest timestamp that
-- they have announced.
pub mod Minimum
pub mod Readers
use plsf.Prelude.{
  ℕ, zero, suc, ◌+◌, ◌-◌, ◌%◌, ◌^◌, Bool, true, false, not, ◌&&◌, ◌||◌, bit_and, ltb, ◌==◌,
  if◌then◌else◌,
}
use plsf.Prelude.Int.{ℤ, pos, negsuc}
use plsf.Config.{registry_max_threads, no_timestamp, unlocked}
use plsf.Index.{write_idx2read_idx, ribit}
use plsf.Stm.State.{Shared, ts_slot}

-- `ThreadRegistry::getMaxThreads`: an int converted to uint64_t.
abbrev pub get_max_threads : ℤ → ℕ
get_max_threads (pos n) = n
get_max_threads (negsuc n) = 2 ^ 64 - 1 - n

-- The body of the loop of `isEmpty`: whether `itid` is another thread that has arrived.
unfoldable pub reader_blocks : Shared → ℕ → ℕ → ℕ → Bool
unfolding ribit
reader_blocks g widx tid itid =
    let ri = g.read_indicators (write_idx2read_idx widx itid) in
    (bit_and ri (ribit widx) == ribit widx) && not (itid == tid)

-- The loop of `isEmpty` over the `n` threads from `itid` on; it returns at the first that blocks.
unfoldable pub is_empty_from : ℕ → ℕ → Shared → ℕ → ℕ → Bool
is_empty_from zero itid g widx tid = true
is_empty_from (suc n) itid g widx tid =
    let rest = is_empty_from n (itid + 1) g widx tid in
    if reader_blocks g widx tid itid then false else rest

-- The count of threads is cut to a uint32_t.
unfoldable pub is_empty : Shared → ℕ → ℕ → Bool
unfolding is_empty_from reader_blocks
is_empty g widx tid = is_empty_from (get_max_threads g.max_tid % 2 ^ 32) 0 g widx tid

-- A timestamp and the thread that announced it: the result of the two searches below, which the
-- code returns as a value and through the reference `lowestTid`.
pub record Lowest : Type 0 where
  pub ts : ℕ
  pub tid : ℕ

-- The word is read as a uint16_t.
unfoldable pub get_ts_of_wlock : Shared → ℕ → ℕ → Lowest
get_ts_of_wlock g widx tid =
    let wstate = g.wlocks widx % 2 ^ 16 in
    let nobody : Lowest = record { ts = no_timestamp; tid = registry_max_threads } in
    if not (wstate == unlocked) && not (wstate == tid)
    then (if ltb (g.txn_ts (ts_slot wstate)) no_timestamp
        then record { ts = g.txn_ts (ts_slot wstate); tid = wstate }
        else nobody)
    else nobody

-- The body of the loop of `getLowestTS`.
unfoldable pub lower_reader : Shared → ℕ → ℕ → ℕ → Lowest → Lowest
unfolding ribit
lower_reader g widx tid itid best =
    let ri = g.read_indicators (write_idx2read_idx widx itid) in
    if (itid == tid) || (bit_and ri (ribit widx) == 0)
    then best
    else (if ltb (g.txn_ts (ts_slot itid)) best.ts
        then record { ts = g.txn_ts (ts_slot itid); tid = itid }
        else best)

unfoldable pub lowest_from : ℕ → ℕ → Shared → ℕ → ℕ → Lowest → Lowest
lowest_from zero itid g widx tid best = best
lowest_from (suc n) itid g widx tid best =
    lowest_from n (itid + 1) g widx tid (lower_reader g widx tid itid best)

unfoldable pub get_lowest_ts : Shared → ℕ → ℕ → Lowest
unfolding lowest_from lower_reader get_ts_of_wlock
get_lowest_ts g widx tid =
    lowest_from registry_max_threads 0 g widx tid (get_ts_of_wlock g widx tid)
