-- ===== src/TwoPlUndo/Txn.antt =====
-- stms/2PLUndo.hpp: the accesses of `tmtype`, allocation, and the start and the two ends of a
-- transaction.
use plsf.Prelude.{
  ℕ, zero, suc, ◌+◌, ◌%◌, ◌^◌, true, false, not, List, [], ◌∷◌, ◌++◌, length, ◌==◌, if◌then◌else◌,
  update,
}
use plsf.TwoPlUndo.LockWord.{tx_max_allocs, tx_max_retires}
use plsf.TwoPlUndo.Locks.{try_read_lock, try_write_lock, unlock}
use plsf.TwoPlUndo.State.{
  Shared, Deletable, WriteSetEntry, State, ok, aborted, failed, Cmd, and_then, set_shared, set_myd,
  set_mem, set_locks, read_set_add, write_set_add,
}

unfoldable pub pstore : ℕ → ℕ → Cmd (Unit {0})
unfolding try_write_lock write_set_add
pstore addr new_val s =
    if not s.active
    then ok tt (set_mem s (update s.shared.mem addr new_val))
    else (let got = try_write_lock addr s.myd.tid s.shared.locks in
        let s1 = set_locks s got.1 in
        if got.0
        then and_then (write_set_add addr (s1.shared.mem addr) s1)
            (λ _ s2. ok tt (set_mem s2 (update s2.shared.mem addr new_val)))
        else aborted s1)

unfoldable pub pload : ℕ → Cmd ℕ
unfolding try_read_lock read_set_add
pload addr s =
    if not s.active
    then ok (s.shared.mem addr) s
    else (let got = try_read_lock addr s.myd.tid s.shared.locks in
        let s1 = set_locks s got.1 in
        if got.0
        then and_then (read_set_add addr s1) (λ _ s2. ok (s2.shared.mem addr) s2)
        else aborted s1)

-- `std::free`
abbrev pub free : ℕ → Shared → Shared
free obj g = record g { allocated = update g.allocated obj false }

-- An allocation goes to the log of the running transaction.
unfoldable pub log_allocation : ℕ → Cmd (Unit {0})
log_allocation ptr s =
    if length s.myd.alog == tx_max_allocs
    then failed
    else ok tt (
        set_myd s (record s.myd { alog = s.myd.alog ++ record { obj = ptr; reclaim = free } ∷ [] }))

abbrev pub allocate : ℕ → State → State
allocate ptr s = set_shared s (record s.shared { allocated = update s.shared.allocated ptr true })

-- `tmMalloc`: `fresh` is what `malloc` returns, 0 for null; `clear` is the effect of `memset`.
unfoldable pub tm_malloc : (clear : ℕ → (ℕ → ℕ) → ℕ → ℕ) (fresh : ℕ) → Cmd ℕ
unfolding log_allocation
tm_malloc clear fresh s =
    if fresh == 0
    then ok 0 s
    else (let s1 = set_mem (allocate fresh s) (clear fresh s.shared.mem) in
        if s1.active then and_then (log_allocation fresh s1) (λ _ s2. ok fresh s2) else ok fresh s1)

-- An object that the commit frees.
unfoldable pub retire : ℕ → Cmd (Unit {0})
retire obj s =
    if length s.myd.flog == tx_max_retires
    then failed
    else ok tt (set_myd s (record s.myd { flog = s.myd.flog ++ obj ∷ [] }))

unfoldable pub tm_free : ℕ → Cmd (Unit {0})
unfolding retire
tm_free obj s =
    if obj == 0
    then ok tt s
    else (if not s.active then ok tt (set_shared s (free obj s.shared)) else retire obj s)

-- `del.reclaim`, changed in the log for the entry at place `i`.
abbrev pub set_reclaim : ℕ → (ℕ → Shared → Shared) → List Deletable → List Deletable
set_reclaim i f [] = []
set_reclaim zero f (x ∷ xs) = record x { reclaim = f } ∷ xs
set_reclaim (suc i) f (x ∷ xs) = x ∷ set_reclaim i f xs

-- `tmNew`: `construct` and `destroy` are the constructor and the destructor of the user's type.
unfoldable pub tm_new :
    (construct : ℕ → Cmd (Unit {0})) (destroy : ℕ → Shared → Shared) (fresh : ℕ) → Cmd ℕ
unfolding log_allocation
tm_new construct destroy fresh s =
    let s1 = allocate fresh s in
    if not s1.active
    then and_then (construct fresh s1) (λ _ s2. ok fresh s2)
    else and_then (log_allocation fresh s1) (λ _ s2. and_then (construct fresh s2) (λ _ s3.
      ok fresh (
        set_myd s3 (record s3.myd {
          alog = set_reclaim (length s.myd.alog) (λ obj g. free obj (destroy obj g)) s3.myd.alog;
        }))))

-- `tmDelete`: the destructor runs at once, in the transaction.
unfoldable pub tm_delete : (destroy : ℕ → Cmd (Unit {0})) (obj : ℕ) → Cmd (Unit {0})
unfolding retire
tm_delete destroy obj s =
    if obj == 0
    then ok tt s
    else and_then (destroy obj s) (λ _ s1.
      if not s1.active then ok tt (set_shared s1 (free obj s1.shared)) else retire obj s1)

unfoldable pub begin_tx : State → State
begin_tx s = set_myd s (record s.myd { alog = []; flog = []; write_set = []; read_set = [] })

-- The loops of `endTx` and `abortTransaction`.
unfoldable pub unlock_reads : List ℕ → ℕ → (ℕ → ℕ) → ℕ → ℕ
unfolding unlock
unlock_reads [] tid locks = locks
unlock_reads (a ∷ r) tid locks = unlock_reads r tid (unlock a tid locks)

unfoldable pub unlock_writes : List WriteSetEntry → ℕ → (ℕ → ℕ) → ℕ → ℕ
unfolding unlock
unlock_writes [] tid locks = locks
unlock_writes (e ∷ r) tid locks = unlock_writes r tid (unlock e.addr tid locks)

unfoldable pub free_all : List ℕ → Shared → Shared
free_all [] g = g
free_all (obj ∷ r) g = free_all r (free obj g)

unfoldable pub reclaim_all : List Deletable → Shared → Shared
reclaim_all [] g = g
reclaim_all (x ∷ r) g = reclaim_all r (x.reclaim x.obj g)

-- From the newest entry to the oldest.
unfoldable pub undo : List WriteSetEntry → (ℕ → ℕ) → ℕ → ℕ
undo [] mem = mem
undo (e ∷ r) mem = update (undo r mem) e.addr e.old_val

unfoldable pub release : State → (ℕ → ℕ) → ℕ → ℕ
unfolding unlock_reads unlock_writes
release s locks =
    unlock_writes s.myd.write_set s.myd.tid (unlock_reads s.myd.read_set s.myd.tid locks)

unfoldable pub end_tx : State → State
unfolding release free_all
end_tx s = record s {
  shared = free_all s.myd.flog (record s.shared { locks = release s s.shared.locks });
  myd = record s.myd { num_commits = (s.myd.num_commits + 1) % 2 ^ 64 };
}

unfoldable pub abort_transaction : State → State
unfolding undo release reclaim_all
abort_transaction s = record s {
  shared = reclaim_all s.myd.alog (record s.shared {
    mem = undo s.myd.write_set s.shared.mem;
    locks = release s s.shared.locks;
  });
  myd = record s.myd { num_aborts = (s.myd.num_aborts + 1) % 2 ^ 64 };
}
