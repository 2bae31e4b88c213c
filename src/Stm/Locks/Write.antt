-- ===== src/Stm/Locks/Write.antt =====
-- stms/2PLSF.hpp: `tryWaitWriteLock`, by its result.
use plsf.Prelude.{
  ℕ, ◌<◌, ◌≤◌, ◌≡◌, ◌≢◌, refl, inl, inr, true, false, List, arith, ◌==◌, if◌then◌else◌, update_self,
  Bool-cases, ℕ_discrete, All,
}
use plsf.Config.{no_timestamp, unlocked}
use plsf.Index.{addr2write_idx, write_idx2read_idx}
use plsf.Index.Separation.{addr2write_idx-lt}
use plsf.Stm.State.{Shared, State, Env, set_shared, pure, ◌>>◌, and_then}
use plsf.Stm.Indicator.{with_bit}
use plsf.Stm.Conflict.{is_empty}
use plsf.Stm.Conflict.Readers.{is_empty_iff}
use plsf.Stm.Locks.{
  wait_lock, compare_exchange, write_round, store_ri, try_wait_write_lock_slow_path,
  write_set_add_entry, write_lock_fast_path, try_wait_write_lock,
}
use plsf.Stm.Locks.Rely.{Respects, Post, bind}
use plsf.Stm.Locks.Order.{InOrder, AllKept, enter_slow_path}
use plsf.Stm.Locks.Tracked.{logs_write, Tracked-skip, Kept-skip}
use plsf.Stm.Locks.WriteWait.{TookLock, write_wait_lem}
use plsf.Stm.Locks.Taking.{IsTaking, Taking-cas, Taking-arrive}
use plsf.Stm.Locks.WriteResult.{WriteResult, Holding, log_entry, took_lock}

module _ (addr : ℕ) (rounds : List Env) (s : State) (quiet : All (Respects s.myd.tid) rounds)
    (runs : s.myd.my_ts ≡ no_timestamp → s.shared.conflict_clock < no_timestamp)
    (own : s.myd.my_ts ≤ no_timestamp) where
  abbrev widx : ℕ
  widx = addr2write_idx addr

  abbrev t : ℕ
  t = s.myd.tid

  -- The slow path, entered with the shared state `g` that the fast path leaves.
  slow_path_lem :
      (g : Shared)
      → g.conflict_clock ≡ s.shared.conflict_clock
      → IsTaking t widx (set_shared s g)
      → Post
          (TookLock t widx s.myd.write_set)
          (λ _. ⊥)
          (try_wait_write_lock_slow_path rounds widx (set_shared s g))
  unfolding try_wait_write_lock_slow_path
  slow_path_lem g same taking =
      enter_slow_path (set_shared s g) (λ none. rw same (runs none)) own
        (λ s'.
          Post (TookLock t widx s.myd.write_set) (λ _. ⊥)
            (wait_lock
              (write_round widx (write_idx2read_idx widx s'.myd.tid)
                (s'.shared.read_indicators (write_idx2read_idx widx s'.myd.tid)))
              rounds
              (set_shared s' (
                store_ri s'.shared (write_idx2read_idx widx s'.myd.tid) (
                  with_bit (s'.shared.read_indicators (write_idx2read_idx widx s'.myd.tid))
                    widx)))))
        λ clock ts txn stamped small.
          write_wait_lem t widx _ s.myd.write_set (addr2write_idx-lt addr) rounds _ quiet (record {
            taking = Taking-arrive t widx (addr2write_idx-lt addr) taking;
            word = update_self _ _ _;
            stamped = stamped;
            small = small;
            same_log = refl;
          })

  -- From the slow path to the end.
  finish_slow :
      (g : Shared)
      → g.conflict_clock ≡ s.shared.conflict_clock
      → IsTaking t widx (set_shared s g)
      → Post
          (WriteResult t addr s.myd.write_set)
          (λ _. ⊥)
          (and_then
            (try_wait_write_lock_slow_path rounds widx (set_shared s g))
            (λ got. if got then write_set_add_entry addr >> pure true else pure false))
  finish_slow g same taking =
      bind (TookLock t widx s.myd.write_set) (WriteResult t addr s.myd.write_set) (λ _. ⊥)
        (try_wait_write_lock_slow_path rounds widx (set_shared s g))
        (λ got. if got then write_set_add_entry addr >> pure true else pure false)
        (slow_path_lem g same taking) (took_lock t addr s.myd.write_set)

  module _ (order : InOrder t s) (kept : AllKept t s) where
    own_lock : s.shared.wlocks widx ≡ t → Holding t addr s.myd.write_set s
    own_lock held = record {
      who = refl;
      range = order.range;
      words = order.words;
      tracked = Tracked-skip t widx order.tracked;
      kept = Kept-skip t widx kept;
      held = held;
      reads = order.tracked.reads widx refl (addr2write_idx-lt addr);
      same_log = refl;
      runs = order.runs;
      own = order.own;
      clear = inl (order.tracked.writes widx refl held);
    }

    -- A lock that is not the thread's own is not in its undo log.
    not_own : s.shared.wlocks widx ≢ t → IsTaking t widx s
    not_own other = record {
      who = refl;
      range = order.range;
      words = order.words;
      tracked = Tracked-skip t widx order.tracked;
      kept = Kept-skip t widx kept;
      unlogged = elim (Bool-cases (logs_write widx s.myd.write_set)) [
        | inl logged ↦ absurd (other (order.tracked.owns widx refl logged))
        | inr absent ↦ absent
      ];
    }

    abbrev g : Shared
    g = compare_exchange s.shared widx unlocked t

    free_lock :
        s.shared.wlocks widx ≢ t
        → s.shared.wlocks widx ≡ unlocked
        → is_empty g widx t ≡ true
        → Holding t addr s.myd.write_set (set_shared s g)
    unfolding compare_exchange
    free_lock other free empty =
        let taking =
          Taking-cas t widx (addr2write_idx-lt addr) s.shared unlocked t (inl order.range)
            (not_own other) in
        record {
          who = refl;
          range = order.range;
          words = taking.words;
          tracked = taking.tracked;
          kept = taking.kept;
          held = ground (arith, update_self s.shared.wlocks widx t);
          reads = order.tracked.reads widx refl (addr2write_idx-lt addr);
          same_log = refl;
          runs = order.runs;
          own = order.own;
          clear = inr λ w registered lt ne. (is_empty_iff g widx t).0 empty w registered ne;
        }

    free_case :
        s.shared.wlocks widx ≢ t
        → s.shared.wlocks widx ≡ unlocked
        → Post
            (WriteResult t addr s.myd.write_set)
            (λ _. ⊥)
            (if is_empty g widx t
              then (write_set_add_entry addr >> pure true) (set_shared s g)
              else and_then
                  (try_wait_write_lock_slow_path rounds widx (set_shared s g))
                  (λ got. if got then write_set_add_entry addr >> pure true else pure false))
    unfolding compare_exchange
    free_case other free = elim (Bool-cases (is_empty g widx t)) [
      | inl empty ↦
          rw empty (log_entry t addr s.myd.write_set (set_shared s g) (free_lock other free empty))
      | inr busy ↦ rw busy (
          finish_slow g refl (
            Taking-cas t widx (addr2write_idx-lt addr) s.shared unlocked t (inl order.range)
              (not_own other)))
    ]

-- The three cases of the fast path.
module _ (s : State) (widx : ℕ) where
  fast_path_own : s.shared.wlocks widx ≡ s.myd.tid → write_lock_fast_path s widx ≡ (true, s.shared)
  unfolding write_lock_fast_path
  fast_path_own e = let h : (s.shared.wlocks widx == s.myd.tid) ≡ true = ground arith in rw h

  fast_path_free :
      s.shared.wlocks widx ≢ s.myd.tid
      → s.shared.wlocks widx ≡ unlocked
      → write_lock_fast_path s widx ≡ (
        is_empty (compare_exchange s.shared widx unlocked s.myd.tid) widx s.myd.tid,
        compare_exchange s.shared widx unlocked s.myd.tid,
      )
  unfolding write_lock_fast_path
  fast_path_free ne e =
      let h : (s.shared.wlocks widx == s.myd.tid) ≡ false = ground arith in
      let k : (s.shared.wlocks widx == unlocked) ≡ true = ground arith in rw (h, k)

  fast_path_taken :
      s.shared.wlocks widx ≢ s.myd.tid
      → s.shared.wlocks widx ≢ unlocked
      → write_lock_fast_path s widx ≡ (false, s.shared)
  unfolding write_lock_fast_path
  fast_path_taken ne e =
      let h : (s.shared.wlocks widx == s.myd.tid) ≡ false = ground arith in
      let k : (s.shared.wlocks widx == unlocked) ≡ false = ground arith in rw (h, k)

-- For a thread in good order whose locks are all kept, while the others respect it: when
-- `tryWaitWriteLock` returns true, the thread holds the write lock of the address, the undo log has
-- one new entry with the value that the address holds under the lock, no lock of the logs has been
-- given up, and either the lock was in the log before or no other registered thread has arrived at
-- it; when it returns false, the logs are right, and the transaction has a timestamp and has
-- noted another thread in range, with the timestamp that this thread announces, lower than its own,
-- and this thread holds the write lock of the address or has arrived at it. It never restarts the
-- transaction by itself.
pub try_wait_write_lock_lem :
    (rounds : List Env) (addr : ℕ) (s : State)
    → All (Respects s.myd.tid) rounds
    → InOrder s.myd.tid s
    → AllKept s.myd.tid s
    → Post (WriteResult s.myd.tid addr s.myd.write_set) (λ _. ⊥) (try_wait_write_lock rounds addr s)
unfolding try_wait_write_lock
try_wait_write_lock_lem rounds addr s quiet order kept =
    let widx = addr2write_idx addr in
    let t = s.myd.tid in
    let k = compare_exchange s.shared widx unlocked t in
    elim (ℕ_discrete (s.shared.wlocks widx) t) [
      | yes own ↦ rw (fast_path_own s widx own) (
          log_entry t addr s.myd.write_set s
            (own_lock addr rounds s quiet order.runs order.own order kept own))
      | no other ↦
          let foreign = not_own addr rounds s quiet order.runs order.own order kept other in
          elim (ℕ_discrete (s.shared.wlocks widx) unlocked) [
            | yes free ↦
                rw (fast_path_free s widx other free)
                  (free_case addr rounds s quiet order.runs order.own order kept other free)
            | no taken ↦
                rw (fast_path_taken s widx other taken)
                  (finish_slow addr rounds s quiet order.runs order.own s.shared refl foreign)
          ]
    ]
