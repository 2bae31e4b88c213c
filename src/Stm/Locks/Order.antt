-- ===== src/Stm/Locks/Order.antt =====
-- stms/2PLSF.hpp: a thread in good order, and what a slow path does first, from the timestamp to its
-- announcement.
use plsf.Prelude.{ℕ, ◌<◌, ◌≤◌, ◌≡◌, ◌≢◌, inl, inr, List, arith, ◌==◌, ==_iff, Bool-cases}
use plsf.Config.{registry_max_threads, no_timestamp}
use plsf.Stm.State.{WriteSetEntry, State, ts_slot}
use plsf.Stm.Conflict.Minimum.{IsLockWord, IsAnnounced}
use plsf.Stm.Locks.{take_timestamp, announce}
use plsf.Stm.Locks.Tracked.{Tracked, Kept, none_skipped}

-- What the asserts of `waitForConflictingTxn` ask for: a transaction that must die has a timestamp,
-- and knows another thread with a lower one.
pub record Doomed (o_ts my_ts otid : ℕ) : Type 0 where
  pub lower : o_ts < my_ts
  pub proper : o_ts ≢ no_timestamp
  pub known : otid ≢ registry_max_threads
  pub stamped : my_ts ≢ no_timestamp

abbrev pub MustDie : State → Type 0
MustDie s = Doomed s.myd.o_ts s.myd.my_ts s.myd.otid

-- The thread that the transaction noted before it gave up is another one, in range, that stands at the
-- lock `widx` and announces the timestamp noted.
abbrev pub InTheWay : ℕ → ℕ → State → Type 0
InTheWay t widx s = IsAnnounced s.shared widx t (record { ts = s.myd.o_ts; tid = s.myd.otid })

-- Thread `t` in good order: every word of the lock array is well formed, the logs are right, and the
-- clock has a timestamp to give if the thread has none.
pub record Order (t : ℕ) (wlocks ri : ℕ → ℕ) (tid : ℕ) (ws : List WriteSetEntry) (rs : List ℕ)
    (clock my_ts : ℕ) : Type 0 where
  pub who : tid ≡ t
  pub range : t < registry_max_threads
  pub words : (w : ℕ) → IsLockWord (wlocks w)
  pub tracked : Tracked t none_skipped wlocks ri ws rs
  pub runs : my_ts ≡ no_timestamp → clock < no_timestamp
  pub own : my_ts ≤ no_timestamp

abbrev pub InOrder : ℕ → State → Type 0
InOrder t s =
    Order t s.shared.wlocks s.shared.read_indicators s.myd.tid s.myd.write_set s.myd.read_set
      s.shared.conflict_clock s.myd.my_ts

-- The outcome of a lock that the thread `t` did not get: the logs are right, it must die, and the thread
-- that it gives way to stands at the lock.
abbrev pub Refused : ℕ → ℕ → State → Type 0
Refused t widx s = InOrder t s × MustDie s × InTheWay t widx s

abbrev pub AllKept : ℕ → State → Type 0
AllKept t s = Kept t none_skipped s.shared.wlocks s.shared.read_indicators s.myd.read_set

announce_lem :
    (s : State) (C : State → Type 0)
    → ((txn : ℕ → ℕ) → C (record s { shared = record s.shared { txn_ts = txn } }))
    → C (announce s)
unfolding announce
announce_lem s C reach = elim (Bool-cases (s.shared.txn_ts (ts_slot s.myd.tid) == no_timestamp)) [
  | inl e ↦ rw e (reach _)
  | inr e ↦ rw e (reach s.shared.txn_ts)
]

take_timestamp_lem :
    (s : State)
    → (s.myd.my_ts ≡ no_timestamp → s.shared.conflict_clock < no_timestamp)
    → s.myd.my_ts ≤ no_timestamp
    → (C : State → Type 0)
    → ((clock ts : ℕ)
        → ts ≢ no_timestamp
        → ts ≤ no_timestamp
        → C (record s {
          shared = record s.shared { conflict_clock = clock };
          myd = record s.myd { my_ts = ts };
        }))
    → C (take_timestamp s)
unfolding take_timestamp
take_timestamp_lem s runs own C reach = elim (Bool-cases (s.myd.my_ts == no_timestamp)) [
  | inl fresh ↦
      let some_left = runs ((==_iff _ _).0 fresh) in
      rw fresh (reach _ _ (omega arith) (omega arith))
  | inr old ↦ rw old (reach s.shared.conflict_clock s.myd.my_ts (ground arith) own)
]

-- A slow path starts with a proper timestamp. The rest of the state is as before, but for the clock
-- and the announcements.
pub enter_slow_path :
    (s : State)
    → (s.myd.my_ts ≡ no_timestamp → s.shared.conflict_clock < no_timestamp)
    → s.myd.my_ts ≤ no_timestamp
    → (C : State → Type 0)
    → ((clock ts : ℕ) (txn : ℕ → ℕ)
        → ts ≢ no_timestamp
        → ts ≤ no_timestamp
        → C (record s {
          shared = record s.shared { conflict_clock = clock; txn_ts = txn };
          myd = record s.myd { my_ts = ts };
        }))
    → C (announce (take_timestamp s))
enter_slow_path s runs own C reach = announce_lem (take_timestamp s) C λ txn.
    take_timestamp_lem s runs own
      (λ s'. C (record s' { shared = record s'.shared { txn_ts = txn } }))
      λ clock ts stamped small. reach clock ts txn stamped small

-- Whatever the clock shows, only the clock, the timestamp and the announcements change.
pub enter_slow_path_frame :
    (s : State) (C : State → Type 0)
    → ((clock ts : ℕ) (txn : ℕ → ℕ)
        → C (record s {
          shared = record s.shared { conflict_clock = clock; txn_ts = txn };
          myd = record s.myd { my_ts = ts };
        }))
    → C (announce (take_timestamp s))
unfolding take_timestamp
enter_slow_path_frame s C reach = announce_lem (take_timestamp s) C λ txn.
    elim (Bool-cases (s.myd.my_ts == no_timestamp)) [
      | inl fresh ↦ rw fresh (reach _ _ txn)
      | inr old ↦ rw old (reach s.shared.conflict_clock s.myd.my_ts txn)
    ]
