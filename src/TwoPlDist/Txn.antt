-- ===== src/TwoPlDist/Txn.antt =====
-- stms/2PLUndoDist.hpp: the accesses of `tmtype`, allocation, and the start and the two ends of a
-- transaction.
use plsf.Prelude.{
  ℕ, zero, suc, ◌+◌, ◌%◌, ◌^◌, Bool, true, false, not, List, [], ◌∷◌, ◌++◌, length, ltb, ◌==◌,
  if◌then◌else◌, update,
}
use plsf.Config.{tx_max_allocs, tx_max_retires}
use plsf.TwoPlUndo.Program.{marsaglia_xorv}
use plsf.Stm.State.{WriteSetEntry}
use plsf.TwoPlDist.State.{
  Shared, Deletable, OpData, State, ok, restart, failed, Cmd, and_then, set_shared, set_myd,
  set_mem,
}
use plsf.TwoPlDist.Locks.{
  try_wait_read_lock, try_wait_write_lock, unlock_all_read_locks, unlock_all_write_locks,
}

-- `std::free`
abbrev pub free : ℕ → Shared → Shared
free obj g = record g { allocated = update g.allocated obj false }

-- `backoff`: the loop counts its rounds and changes nothing else.
unfoldable pub backoff : ℕ → OpData → OpData
unfolding marsaglia_xorv
backoff attempt d = if ltb attempt 2 then d else record d { myrand = marsaglia_xorv d.myrand }

unfoldable pub begin_tx : State → State
unfolding backoff
begin_tx s =
    let d = record s.myd { alog = []; flog = []; write_set = []; read_set = [] } in
    let d1 = if ltb 0 d.attempt then backoff d.attempt d else d in
    set_myd s (record d1 { attempt = (d1.attempt + 1) % 2 ^ 64 })

-- The release loops of `endTx` and `abortTx`.
unfoldable pub release : OpData → Shared → Shared
unfolding unlock_all_read_locks unlock_all_write_locks
release d g = unlock_all_read_locks d.read_set d.tid (unlock_all_write_locks d.write_set d.tid g)

unfoldable pub free_all : List ℕ → Shared → Shared
free_all [] g = g
free_all (obj ∷ r) g = free_all r (free obj g)

unfoldable pub end_tx : State → State
unfolding release free_all
end_tx s = record s {
  shared = free_all s.myd.flog (release s.myd s.shared);
  myd = record s.myd { num_commits = (s.myd.num_commits + 1) % 2 ^ 64; attempt = 0 };
  active = false;
}

-- `rollbackSingleEntry`, and the loop of `abortTx` from the newest entry to the oldest.
abbrev pub rollback_single_entry : WriteSetEntry → (ℕ → ℕ) → ℕ → ℕ
rollback_single_entry e mem = update mem e.addr e.old

unfoldable pub rollback : List WriteSetEntry → (ℕ → ℕ) → ℕ → ℕ
rollback [] mem = mem
rollback (e ∷ r) mem = rollback_single_entry e (rollback r mem)

unfoldable pub reclaim_all : List Deletable → Shared → Shared
reclaim_all [] g = g
reclaim_all (x ∷ r) g = reclaim_all r (x.reclaim x.obj g)

unfoldable pub abort_tx : Bool → State → State
unfolding rollback release reclaim_all
abort_tx enable_rollback s =
    let g =
      if enable_rollback
      then record s.shared { mem = rollback s.myd.write_set s.shared.mem }
      else s.shared in
    record s {
      shared = reclaim_all s.myd.alog (release s.myd g);
      myd = record s.myd { num_aborts = (s.myd.num_aborts + 1) % 2 ^ 64 };
    }

-- Where a lock is refused, the function `abortTx` outside the class runs `abortTx` and jumps.
unfoldable pub pstore : ℕ → ℕ → Cmd (Unit {0})
unfolding try_wait_write_lock abort_tx
pstore addr new_val s =
    if not s.active
    then ok tt (set_mem s (update s.shared.mem addr new_val))
    else and_then (try_wait_write_lock addr s) (λ got s1.
      if got
      then ok tt (set_mem s1 (update s1.shared.mem addr new_val))
      else restart (abort_tx true s1))

unfoldable pub pload : ℕ → Cmd ℕ
unfolding try_wait_read_lock abort_tx
pload addr s =
    if not s.active
    then ok (s.shared.mem addr) s
    else and_then (try_wait_read_lock addr s)
        (λ got s1. if got then ok (s1.shared.mem addr) s1 else restart (abort_tx true s1))

-- What `malloc` returns; null is no block.
abbrev pub allocate : ℕ → State → State
allocate ptr s = set_shared s (record s.shared {
  allocated = if ptr == 0 then s.shared.allocated else update s.shared.allocated ptr true;
})

-- An allocation goes to the log of the running transaction.
unfoldable pub log_allocation : ℕ → Cmd (Unit {0})
log_allocation ptr s =
    if length s.myd.alog == tx_max_allocs
    then failed
    else ok tt (
        set_myd s (record s.myd { alog = s.myd.alog ++ record { obj = ptr; reclaim = free } ∷ [] }))

-- `tmMalloc` logs a null pointer too; `free` ignores it.
unfoldable pub tm_malloc : (fresh : ℕ) → Cmd ℕ
unfolding log_allocation
tm_malloc fresh s =
    let s1 = allocate fresh s in
    if s1.active then and_then (log_allocation fresh s1) (λ _ s2. ok fresh s2) else ok fresh s1

-- An object that the commit frees.
unfoldable pub retire : ℕ → Cmd (Unit {0})
retire obj s =
    if length s.myd.flog == tx_max_retires
    then failed
    else ok tt (set_myd s (record s.myd { flog = s.myd.flog ++ obj ∷ [] }))

unfoldable pub tm_free : ℕ → Cmd (Unit {0})
unfolding retire
tm_free obj s =
    if obj == 0
    then ok tt s
    else (if not s.active then ok tt (set_shared s (free obj s.shared)) else retire obj s)

-- `del.reclaim`, changed in the log for the entry at place `i`.
abbrev pub set_reclaim : ℕ → (ℕ → Shared → Shared) → List Deletable → List Deletable
set_reclaim i f [] = []
set_reclaim zero f (x ∷ xs) = record x { reclaim = f } ∷ xs
set_reclaim (suc i) f (x ∷ xs) = x ∷ set_reclaim i f xs

-- `tmNew`: `construct` and `destroy` are the constructor and the destructor of the user's type.
unfoldable pub tm_new :
    (construct : ℕ → Cmd (Unit {0})) (destroy : ℕ → Shared → Shared) (fresh : ℕ) → Cmd ℕ
unfolding log_allocation
tm_new construct destroy fresh s =
    let s1 = allocate fresh s in
    if not s1.active
    then and_then (construct fresh s1) (λ _ s2. ok fresh s2)
    else and_then (log_allocation fresh s1) (λ _ s2. and_then (construct fresh s2) (λ _ s3.
      ok fresh (
        set_myd s3 (record s3.myd {
          alog = set_reclaim (length s.myd.alog) (λ obj g. free obj (destroy obj g)) s3.myd.alog;
        }))))

-- `tmDelete`: the destructor runs at once, in the transaction.
unfoldable pub tm_delete : (destroy : ℕ → Cmd (Unit {0})) (obj : ℕ) → Cmd (Unit {0})
unfolding retire
tm_delete destroy obj s =
    if obj == 0
    then ok tt s
    else and_then (destroy obj s) (λ _ s1.
      if not s1.active then ok tt (set_shared s1 (free obj s1.shared)) else retire obj s1)
