-- ===== src/Stm/Program/TwoPhase.antt =====
-- stms/2PLSF.hpp: the locks of an attempt, while it runs and when it ends.
use plsf.Prelude.{
  ℕ, ◌<◌, ◌≤◌, ◌≡◌, ◌≢◌, refl, Bool, true, false, List, [], ◌∷◌, All, arith, ◌==◌, Bool-cases, inl,
  inr, sym, ◌∙◌, if◌then◌else◌, length, subst,
}
use plsf.Config.{registry_max_threads, num_rwl, no_timestamp, unlocked, max_write_set_entries}
use plsf.Index.{addr2write_idx}
use plsf.Stm.State.{Shared, WriteSetEntry, pure, Deletable, State, Env, set_shared, ◌>>◌}
use plsf.Stm.Indicator.{arrived}
use plsf.Stm.Conflict.Minimum.{IsLockWord}
use plsf.Stm.Locks.{try_wait_read_lock, try_wait_write_lock, write_set_add_entry}
use plsf.Stm.Locks.Rely.{Respects, Post}
use plsf.Stm.Locks.Frame.{
  Aside, Steady, Post-and, Post-weaken, try_wait_read_lock-On, try_wait_write_lock-On,
}
use plsf.Stm.Locks.Order.{MustDie, InOrder, AllKept}
use plsf.Stm.Locks.Read.{try_wait_read_lock_lem}
use plsf.Stm.Locks.ReadWait.{ReadResult}
use plsf.Stm.Locks.Write.{try_wait_write_lock_lem}
use plsf.Stm.Locks.WriteResult.{WriteResult}
use plsf.Stm.Txn
use plsf.Stm.Txn.{
  release_locks, reclaim_all, abort_tx, abort_and_jump, read_mem, write_mem, tm_malloc, tm_free,
  pload, pstore,
}
use plsf.Stm.Txn.Release.{release_locks-wlocks, release_locks-arrived}

-- Thread `t` holds no lock.
pub record HoldsNone (t : ℕ) (g : Shared) : Type 0 where
  pub no_write : (w : ℕ) → g.wlocks w ≢ t
  pub no_read : (w : ℕ) → w < num_rwl → arrived g.read_indicators w t ≡ false

-- Reclaiming an object of the allocation log does not touch the locks.
abbrev pub Tame : Deletable → Type 0
Tame x =
    (g : Shared)
    → ((x.reclaim x.obj g).wlocks ≡ g.wlocks)
      × ((x.reclaim x.obj g).read_indicators ≡ g.read_indicators)

abbrev pub Running : ℕ → State → Type 0
Running t s = InOrder t s × AllKept t s × (s.active ≡ true) × All Tame s.myd.alog

-- After an abort: no lock is held, the lock words are well formed, and the transaction knows whom it
-- waits for.
abbrev pub Aborted : ℕ → State → Type 0
Aborted t s =
    (s.myd.tid ≡ t)
    × HoldsNone t s.shared
    × ((w : ℕ) → IsLockWord (s.shared.wlocks w))
    × MustDie s
    × (s.active ≡ true)
    × (t < registry_max_threads)
    × (s.myd.my_ts ≤ no_timestamp)

abbrev pub StillTame : State → Type 0
StillTame s = (s.active ≡ true) × All Tame s.myd.alog

abbrev pub GotRead : ℕ → ℕ → Bool → Bool → State → Type 0
GotRead t addr before got s = ReadResult t (addr2write_idx addr) before got s × StillTame s

abbrev pub GotWrite : ℕ → ℕ → List WriteSetEntry → Bool → State → Type 0
GotWrite t addr ws got s = WriteResult t addr ws got s × StillTame s

module _ (t : ℕ) where
  reclaim_all-HoldsNone :
      (xs : List Deletable) (g : Shared)
      → All Tame xs
      → HoldsNone t g
      → HoldsNone t (reclaim_all xs g)
  unfolding reclaim_all
  reclaim_all-HoldsNone [] g tame h = h
  reclaim_all-HoldsNone (x ∷ xs) g tame h =
      reclaim_all-HoldsNone xs (x.reclaim x.obj g) tame.1
        (record { no_write = rw ((tame.0 g).0) h.no_write; no_read = rw ((tame.0 g).1) h.no_read })

  pub release_locks-HoldsNone :
      (s : State) (g : Shared)
      → InOrder t (set_shared s g)
      → HoldsNone t (release_locks s g) × ((w : ℕ) → IsLockWord ((release_locks s g).wlocks w))
  unfolding release_locks
  release_locks-HoldsNone s g order = (
    record {
      no_write = λ w e. freed w (sym (release_locks-wlocks t (set_shared s g) w order) ∙ e);
      no_read =
          λ w p. release_locks-arrived t (set_shared s g) w t order p order.range ∙ ground arith;
    },
    λ w. subst IsLockWord (sym (release_locks-wlocks t (set_shared s g) w order)) (word w),
  )
    where
      freed : (w : ℕ) → (if g.wlocks w == t then unlocked else g.wlocks w) ≢ t
      freed w e = ground (arith, order.range)

      word : (w : ℕ) → IsLockWord (if g.wlocks w == t then unlocked else g.wlocks w)
      word w = elim (Bool-cases (g.wlocks w == t)) [
        | inl mine ↦ rw mine (inr refl)
        | inr other ↦ rw other (order.words w)
      ]

  reclaim_all-words :
      (xs : List Deletable) (g : Shared)
      → All Tame xs
      → ((w : ℕ) → IsLockWord (g.wlocks w))
      → (w : ℕ) → IsLockWord ((reclaim_all xs g).wlocks w)
  unfolding reclaim_all
  reclaim_all-words [] g tame h = h
  reclaim_all-words (x ∷ xs) g tame h =
      reclaim_all-words xs (x.reclaim x.obj g) tame.1 (rw ((tame.0 g).0) h)

  pub abort-Aborted :
      (enable_rollback : Bool) (s : State)
      → InOrder t s
      → s.active ≡ true
      → All Tame s.myd.alog
      → MustDie s
      → Aborted t (abort_tx enable_rollback s)
  unfolding abort_tx
  abort-Aborted enable_rollback s order on tame die =
      let g = record s.shared {
        mem = if enable_rollback then Txn.rollback s.myd.write_set s.shared.mem else s.shared.mem;
      } in
      let (none, words) = release_locks-HoldsNone s g order in
      (
        order.who,
        reclaim_all-HoldsNone s.myd.alog (release_locks s g) tame none,
        reclaim_all-words s.myd.alog (release_locks s g) tame words,
        die,
        on,
        order.range,
        order.own,
      )

  -- What the lock operations leave alone of `Running`.
  abbrev TameAside : Aside
  TameAside mem ws alog flog attempt tid active = (active ≡ true) × All Tame alog

  TameAside-rounds : (rounds : List Env) → Steady TameAside rounds
  TameAside-rounds [] = tt
  TameAside-rounds (e ∷ es) = (λ s h. h, TameAside-rounds es)

  pub read_result :
      (rounds : List Env) (addr : ℕ) (s : State)
      → All (Respects t) rounds
      → Running t s
      → Post
          (GotRead t addr (arrived s.shared.read_indicators (addr2write_idx addr) t))
          (λ _. ⊥)
          (try_wait_read_lock rounds addr s)
  read_result rounds addr s quiet (order, kept, on, tame) =
      Post-weaken _ _ (λ _. ⊥ × ⊥) (λ _. ⊥) (try_wait_read_lock rounds addr s) (λ _ _ h. h)
        (λ _ h. h.0)
        (Post-and
          (ReadResult t (addr2write_idx addr)
            (arrived s.shared.read_indicators (addr2write_idx addr) t))
          (λ _. StillTame) (λ _. ⊥) (λ _. ⊥) (try_wait_read_lock rounds addr s)
          (subst
            (λ x.
              All (Respects x) rounds
              → InOrder x s
              → AllKept x s
              → Post
                  (ReadResult x (addr2write_idx addr)
                    (arrived s.shared.read_indicators (addr2write_idx addr) x))
                  (λ _. ⊥) (try_wait_read_lock rounds addr s))
            order.who (try_wait_read_lock_lem rounds addr s) quiet order kept)
          (try_wait_read_lock-On TameAside rounds addr s (TameAside-rounds rounds) (on, tame)))

  pub write_result :
      (rounds : List Env) (addr : ℕ) (s : State)
      → All (Respects t) rounds
      → Running t s
      → Post (GotWrite t addr s.myd.write_set) (λ _. ⊥) (try_wait_write_lock rounds addr s)
  unfolding write_set_add_entry
  write_result rounds addr s quiet (order, kept, on, tame) =
      Post-weaken _ _ (λ _. ⊥ × ⊥) (λ _. ⊥) (try_wait_write_lock rounds addr s) (λ _ _ h. h)
        (λ _ h. h.0)
        (Post-and (WriteResult t addr s.myd.write_set) (λ _. StillTame) (λ _. ⊥) (λ _. ⊥)
          (try_wait_write_lock rounds addr s)
          (subst
            (λ x.
              All (Respects x) rounds
              → InOrder x s
              → AllKept x s
              → Post (WriteResult x addr s.myd.write_set) (λ _. ⊥)
                  (try_wait_write_lock rounds addr s))
            order.who (try_wait_write_lock_lem rounds addr s) quiet order kept)
          (try_wait_write_lock-On TameAside (λ _. StillTame) rounds addr s (TameAside-rounds rounds)
            log_entry (λ s h. h) (on, tame)))
    where
      log_entry :
          (s : State)
          → (s.active ≡ true) × All Tame s.myd.alog
          → Post (λ _. StillTame) (λ _. ⊥) ((write_set_add_entry addr >> pure true) s)
      log_entry s h = elim (Bool-cases (length s.myd.write_set == max_write_set_entries)) [
        | inl full ↦ rw full tt
        | inr room ↦ rw room h
      ]
