-- ===== src/Stm/Locks.antt =====
-- stms/2PLSF.hpp: `tryWaitReadLock`, `tryWaitWriteLock`, their slow paths, and the unlocks, as one
-- thread runs them. A wait takes a list of rounds: what the other threads do in each `Pause()`.
pub mod Rely
pub mod Tracked
pub mod Order
pub mod InTheWay
pub mod Frame
pub mod ReadWait
pub mod Read
pub mod Taking
pub mod WriteWait
pub mod WriteResult
pub mod Write
pub mod Progress
use plsf.Prelude.{
  ℕ, ◌+◌, ◌%◌, ◌^◌, Bool, true, false, ◌&&◌, ◌||◌, List, [], ◌∷◌, ◌++◌, bit_and, ltb, ◌==◌,
  if◌then◌else◌, update, length,
}
use plsf.Config.{no_timestamp, unlocked, max_read_set_entries, max_write_set_entries}
use plsf.Index.{addr2write_idx, write_idx2read_idx, ribit}
use plsf.Stm.State.{
  Shared, WriteSetEntry, State, ok, spinning, failed, Cmd, Env, ts_slot, set_shared, set_myd, ◌>>=◌,
  ◌>>◌, pure,
}
use plsf.Stm.Indicator.{with_bit, without_bit}
use plsf.Stm.Conflict.{Lowest, get_ts_of_wlock, get_lowest_ts, is_empty}

-- Stores to one word of the shared arrays.
abbrev pub store_wlock : Shared → ℕ → ℕ → Shared
store_wlock g widx word = record g { wlocks = update g.wlocks widx word }

abbrev pub store_ri : Shared → ℕ → ℕ → Shared
store_ri g ridx word = record g { read_indicators = update g.read_indicators ridx word }

abbrev pub store_ts : Shared → ℕ → ℕ → Shared
store_ts g tid ts = record g { txn_ts = update g.txn_ts (ts_slot tid) ts }

-- `compare_exchange_strong` on a write-lock word, with its effect.
unfoldable pub compare_exchange : Shared → ℕ → ℕ → ℕ → Shared
compare_exchange g widx expected word = record g {
  wlocks = if g.wlocks widx == expected then update g.wlocks widx word else g.wlocks;
}

-- `myTS = conflictClock.fetch_add(1)`, for a transaction that has no timestamp yet.
unfoldable pub take_timestamp : State → State
take_timestamp s =
    if s.myd.my_ts == no_timestamp
    then record s {
      shared = record s.shared { conflict_clock = (s.shared.conflict_clock + 1) % 2 ^ 64 };
      myd = record s.myd { my_ts = s.shared.conflict_clock };
    }
    else s

unfoldable pub announce : State → State
announce s =
    if s.shared.txn_ts (ts_slot s.myd.tid) == no_timestamp
    then set_shared s (store_ts s.shared s.myd.tid s.myd.my_ts)
    else s

-- What one pass through the loop of a slow path comes to.
pub data Verdict : Type 0 where
  acquired : State → Verdict
  die : State → Verdict
  wait : State → Verdict

unfoldable pub wait_lock : (State → Verdict) → List Env → Cmd Bool
wait_lock round [] s = elim (round s) [
  | acquired s' ↦ ok true s'
  | die s' ↦ ok false s'
  | wait s' ↦ spinning
]
wait_lock round (e ∷ es) s = elim (round s) [
  | acquired s' ↦ ok true s'
  | die s' ↦ ok false s'
  | wait s' ↦ wait_lock round es (set_shared s' (e s'.shared))
]

-- The result of a search goes to `oTS` and, through the reference, to `otid`.
abbrev pub note_conflict : State → Lowest → State
note_conflict s l = set_myd s (record s.myd { o_ts = l.ts; otid = l.tid })

unfoldable pub read_round : ℕ → ℕ → ℕ → State → Verdict
read_round widx ridx ri s =
    if s.shared.wlocks widx == unlocked
    then acquired (set_shared s (store_ts s.shared s.myd.tid no_timestamp))
    else (let l = get_ts_of_wlock s.shared widx s.myd.tid in
        let s' = note_conflict s l in
        if ltb l.ts s.myd.my_ts
        then die (set_shared s' (store_ri s.shared ridx (without_bit ri widx)))
        else wait s')

unfoldable pub try_wait_read_lock_slow_path : List Env → ℕ → ℕ → ℕ → Cmd Bool
unfolding take_timestamp announce wait_lock read_round
try_wait_read_lock_slow_path rounds widx ridx ri s =
    wait_lock (read_round widx ridx ri) rounds (announce (take_timestamp s))

-- `ReadSet::addEntry`, with its assert.
unfoldable pub read_set_add_entry : ℕ → Cmd (Unit {0})
read_set_add_entry addr s =
    if length s.myd.read_set == max_read_set_entries
    then failed
    else ok tt (set_myd s (record s.myd { read_set = s.myd.read_set ++ addr2write_idx addr ∷ [] }))

-- `WriteSet::addEntry`, with its assert: the address and the value that it holds now.
unfoldable pub write_set_add_entry : ℕ → Cmd (Unit {0})
write_set_add_entry addr s =
    if length s.myd.write_set == max_write_set_entries
    then failed
    else ok tt (
        set_myd s (record s.myd {
          write_set = s.myd.write_set ++ record { addr = addr; old = s.shared.mem addr } ∷ [];
        }))

-- From the arrival on the read-indicator on. The lock word is read as a uint16_t.
unfoldable pub arrive_and_check : List Env → ℕ → ℕ → ℕ → Cmd Bool
unfolding try_wait_read_lock_slow_path
arrive_and_check rounds widx ridx newri s =
    let s' = set_shared s (store_ri s.shared ridx newri) in
    let wstate = s.shared.wlocks widx % 2 ^ 16 in
    if (wstate == unlocked) || (wstate == s.myd.tid)
    then ok true s'
    else try_wait_read_lock_slow_path rounds widx ridx newri s'

unfoldable pub try_wait_read_lock : List Env → ℕ → Cmd Bool
unfolding read_set_add_entry arrive_and_check
try_wait_read_lock rounds addr s =
    let widx = addr2write_idx addr in
    let ridx = write_idx2read_idx widx s.myd.tid in
    let ri = s.shared.read_indicators ridx in
    let newri = with_bit ri widx in
    if newri == ri
    then ok true s
    else (read_set_add_entry addr >> arrive_and_check rounds widx ridx newri) s

unfoldable pub write_round : ℕ → ℕ → ℕ → State → Verdict
unfolding compare_exchange
write_round widx ridx ri s =
    let tid = s.myd.tid in
    let g = compare_exchange s.shared widx unlocked tid in
    if (g.wlocks widx == tid) && is_empty g widx tid
    then acquired (set_shared s (store_ts (store_ri g ridx (without_bit ri widx)) tid no_timestamp))
    else (let l = get_lowest_ts g widx tid in
        let s' = note_conflict s l in
        let departed = store_ri g ridx (without_bit ri widx) in
        if ltb l.ts s.myd.my_ts
        then die (set_shared s' (compare_exchange departed widx tid unlocked))
        else wait (set_shared s' g))

unfoldable pub try_wait_write_lock_slow_path : List Env → ℕ → Cmd Bool
unfolding take_timestamp announce wait_lock write_round
try_wait_write_lock_slow_path rounds widx s =
    let s' = announce (take_timestamp s) in
    let ridx = write_idx2read_idx widx s'.myd.tid in
    let ri = s'.shared.read_indicators ridx in
    wait_lock (write_round widx ridx ri) rounds
      (set_shared s' (store_ri s'.shared ridx (with_bit ri widx)))

-- The fast path: whether the lock is held or free, and the shared state that the test leaves.
unfoldable pub write_lock_fast_path : State → ℕ → Bool × Shared
unfolding compare_exchange
write_lock_fast_path s widx =
    let tid = s.myd.tid in
    let g = compare_exchange s.shared widx unlocked tid in
    if s.shared.wlocks widx == tid
    then (true, s.shared)
    else (if s.shared.wlocks widx == unlocked then (is_empty g widx tid, g) else (false, s.shared))

unfoldable pub try_wait_write_lock : List Env → ℕ → Cmd Bool
unfolding write_lock_fast_path try_wait_write_lock_slow_path write_set_add_entry
try_wait_write_lock rounds addr s =
    let widx = addr2write_idx addr in
    let (fast, g) = write_lock_fast_path s widx in
    if fast
    then (write_set_add_entry addr >> pure true) (set_shared s g)
    else (try_wait_write_lock_slow_path rounds widx >>= λ got.
          if got then write_set_add_entry addr >> pure true else pure false)
        (set_shared s g)

unfoldable pub unlock_write : ℕ → ℕ → Shared → Shared
unlock_write addr tid g =
    let widx = addr2write_idx addr in
    if g.wlocks widx == tid then store_wlock g widx unlocked else g

unfoldable pub unlock_read : ℕ → ℕ → Shared → Shared
unfolding ribit
unlock_read widx tid g =
    let ridx = write_idx2read_idx widx tid in
    let ri = g.read_indicators ridx in
    if bit_and ri (ribit widx) == 0 then g else store_ri g ridx (without_bit ri widx)

-- The loops over the two logs, in their order.
unfoldable pub unlock_all_read_locks : List ℕ → ℕ → Shared → Shared
unfolding unlock_read
unlock_all_read_locks [] tid g = g
unlock_all_read_locks (widx ∷ r) tid g = unlock_all_read_locks r tid (unlock_read widx tid g)

unfoldable pub unlock_all_write_locks : List WriteSetEntry → ℕ → Shared → Shared
unfolding unlock_write
unlock_all_write_locks [] tid g = g
unlock_all_write_locks (x ∷ r) tid g = unlock_all_write_locks r tid (unlock_write x.addr tid g)
