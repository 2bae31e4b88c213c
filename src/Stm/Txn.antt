-- ===== src/Stm/Txn.antt =====
-- stms/2PLSF.hpp: a transaction from `beginTx` to `endTx` or `abortTx`, and the operations that
-- user code makes in between: loads and stores through `tmtype`, and allocations.
pub mod Release
use plsf.Prelude.{
  ℕ, zero, suc, ◌+◌, ◌%◌, ◌^◌, Bool, true, false, not, ◌&&◌, ◌||◌, List, [], ◌∷◌, ◌++◌, ltb, ◌==◌,
  if◌then◌else◌, update, length,
}
use plsf.Config.{registry_max_threads, no_timestamp, tx_max_allocs, tx_max_retires}
use plsf.Stm.State.{
  Shared, WriteSetEntry, Deletable, State, Outcome, ok, restart, spinning, failed, Cmd, Env,
  ts_slot, set_shared, set_myd, pure, ◌>>=◌, ◌>>◌,
}
use plsf.Stm.Locks.{
  try_wait_read_lock, try_wait_write_lock, unlock_all_read_locks, unlock_all_write_locks, store_ts,
}

-- The loop of `waitForConflictingTxn`: as long as the other thread announces that timestamp.
unfoldable pub wait_while_announced : List Env → Cmd (Unit {0})
wait_while_announced [] s =
    if s.shared.txn_ts (ts_slot s.myd.otid) == s.myd.o_ts then spinning else ok tt s
wait_while_announced (e ∷ es) s =
    let next = wait_while_announced es (set_shared s (e s.shared)) in
    if s.shared.txn_ts (ts_slot s.myd.otid) == s.myd.o_ts then next else ok tt s

-- The four asserts of `waitForConflictingTxn`, in their order.
unfoldable pub conflict_known : State → Bool
conflict_known s =
    ltb s.myd.o_ts s.myd.my_ts
    && (not (s.myd.o_ts == no_timestamp)
        && (not (s.myd.otid == registry_max_threads) && not (s.myd.my_ts == no_timestamp)))

unfoldable pub wait_for_conflicting_txn : List Env → Cmd (Unit {0})
unfolding wait_while_announced conflict_known
wait_for_conflicting_txn rounds s =
    if conflict_known s then wait_while_announced rounds s else failed

abbrev pub clear_logs : State → State
clear_logs s = set_myd s (record s.myd { alog = []; flog = []; write_set = []; read_set = [] })

abbrev pub count_attempt : Cmd (Unit {0})
count_attempt s = ok tt (set_myd s (record s.myd { attempt = (s.myd.attempt + 1) % 2 ^ 64 }))

unfoldable pub begin_tx : List Env → Cmd (Unit {0})
unfolding wait_for_conflicting_txn
begin_tx rounds s =
    ((λ s'. if ltb 0 s'.myd.attempt then wait_for_conflicting_txn rounds s' else ok tt s')
        >> count_attempt)
      (clear_logs s)

-- `std::free`
abbrev pub free : ℕ → Shared → Shared
free obj g = record g { allocated = update g.allocated obj false }

unfoldable pub free_all : List ℕ → Shared → Shared
free_all [] g = g
free_all (obj ∷ r) g = free_all r (free obj g)

unfoldable pub reclaim_all : List Deletable → Shared → Shared
reclaim_all [] g = g
reclaim_all (x ∷ r) g = reclaim_all r (x.reclaim x.obj g)

-- Both log loops of `endTx` and `abortTx`.
unfoldable pub release_locks : State → Shared → Shared
unfolding unlock_all_write_locks unlock_all_read_locks
release_locks s g =
    unlock_all_read_locks s.myd.read_set s.myd.tid
      (unlock_all_write_locks s.myd.write_set s.myd.tid g)

unfoldable pub end_tx : State → State
unfolding release_locks free_all
end_tx s = record {
  shared = store_ts (free_all s.myd.flog (release_locks s s.shared)) s.myd.tid no_timestamp;
  myd = record s.myd {
    num_commits = (s.myd.num_commits + 1) % 2 ^ 64;
    attempt = 0;
    my_ts = no_timestamp;
    o_ts = no_timestamp;
    otid = registry_max_threads;
  };
  active = false;
}

-- `rollbackSingleEntry`, and the loop over the undo log from its newest entry to its oldest.
unfoldable pub rollback_single_entry : WriteSetEntry → (ℕ → ℕ) → ℕ → ℕ
rollback_single_entry x mem = update mem x.addr x.old

unfoldable pub rollback : List WriteSetEntry → (ℕ → ℕ) → ℕ → ℕ
unfolding rollback_single_entry
rollback [] mem = mem
rollback (x ∷ r) mem = rollback_single_entry x (rollback r mem)

-- On an empty log the guard `size != 0` and the empty loop come to the same.
unfoldable pub abort_tx : Bool → State → State
unfolding rollback release_locks reclaim_all
abort_tx enable_rollback s =
    let g = s.shared in
    let undone = record g {
      mem = if enable_rollback then rollback s.myd.write_set g.mem else g.mem;
    } in
    record s {
      shared = reclaim_all s.myd.alog (release_locks s undone);
      myd = record s.myd { num_aborts = (s.myd.num_aborts + 1) % 2 ^ 64 };
    }

-- The function `abortTx`: it aborts and jumps back to the start of the transaction.
unfoldable pub abort_and_jump : {A : Type 0} → Cmd A
unfolding abort_tx
abort_and_jump s = restart (abort_tx true s)

abbrev pub write_mem : ℕ → ℕ → Cmd (Unit {0})
write_mem addr new_val s =
    ok tt (set_shared s (record s.shared { mem = update s.shared.mem addr new_val }))

abbrev pub read_mem : ℕ → Cmd ℕ
read_mem addr s = ok (s.shared.mem addr) s

unfoldable pub pstore : List Env → ℕ → ℕ → Cmd (Unit {0})
unfolding try_wait_write_lock abort_and_jump
pstore rounds addr new_val s =
    if not s.active
    then write_mem addr new_val s
    else (try_wait_write_lock rounds addr >>= λ got.
          if got then write_mem addr new_val else abort_and_jump)
        s

unfoldable pub pload : List Env → ℕ → Cmd ℕ
unfolding try_wait_read_lock abort_and_jump
pload rounds addr s =
    if not s.active
    then read_mem addr s
    else (try_wait_read_lock rounds addr >>= λ got. if got then read_mem addr else abort_and_jump) s

-- `tmMalloc`: `fresh` is what `malloc` returns, 0 for null; `clear` is the effect of the `memset`.
unfoldable pub tm_malloc : (clear : ℕ → (ℕ → ℕ) → ℕ → ℕ) (fresh : ℕ) → Cmd ℕ
tm_malloc clear fresh s =
    if fresh == 0
    then ok 0 s
    else (let g = record s.shared {
      mem = clear fresh s.shared.mem;
      allocated = update s.shared.allocated fresh true;
    } in
        if not s.active
        then ok fresh (set_shared s g)
        else (if length s.myd.alog == tx_max_allocs
            then failed
            else ok fresh (record s {
              shared = g;
              myd = record s.myd {
                alog = s.myd.alog ++ record { obj = fresh; reclaim = free } ∷ [];
              };
            })))

-- `tmFree`
unfoldable pub tm_free : ℕ → Cmd (Unit {0})
tm_free obj s =
    if obj == 0
    then ok tt s
    else (if not s.active
        then ok tt (set_shared s (free obj s.shared))
        else (if length s.myd.flog == tx_max_retires
            then failed
            else ok tt (set_myd s (record s.myd { flog = s.myd.flog ++ obj ∷ [] }))))
