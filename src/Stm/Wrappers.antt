-- ===== src/Stm/Wrappers.antt =====
-- stms/2PLSF.hpp: the wrappers that the database DBx1000 calls. It opens and closes a transaction by
-- hand, with no `setjmp` and no nesting, and takes locks without loads and stores.
use plsf.Prelude.{ltb, ℕ, ◌<◌, ◌≡◌, ◌≢◌, refl, Bool, true, false, List, All, arith, if◌then◌else◌}
use plsf.Config.{no_timestamp}
use plsf.Stm.State.{State, ok, failed, Cmd, Env}
use plsf.Stm.Locks.{try_wait_read_lock, try_wait_write_lock}
use plsf.Stm.Locks.Rely.{Returns, Respects, Post}
use plsf.Stm.Locks.Order.{MustDie}
use plsf.Stm.Txn.{wait_for_conflicting_txn, conflict_known, clear_logs, begin_tx, end_tx, abort_tx}
use plsf.Stm.Program.TwoPhase.{Running, Aborted, abort-Aborted}
use plsf.Stm.Program.Commit.{Ready, begin_tx-Running, begin_tx-ne-failed}
use plsf.Stm.Program.Whole.{Idle, end_tx-Idle, Ready-of_Idle, Ready-of_Aborted}

-- The thread's `OpData` may be set already: nesting is not supported here.
unfoldable pub begin_txn : List Env → Cmd (Unit {0})
begin_txn rounds s = begin_tx rounds (record s { active = true })

-- With a null `tl_opdata` this is undefined behaviour, here a failure.
unfoldable pub end_txn : Cmd (Unit {0})
end_txn s = if s.active then ok tt (end_tx s) else failed

-- Its assert is that `tl_opdata` is not null.
unfoldable pub abort_txn : Bool → Cmd (Unit {0})
abort_txn enable_rollback s = if s.active then ok tt (abort_tx enable_rollback s) else failed

unfoldable pub try_read_lock : List Env → ℕ → ℕ → Cmd Bool
try_read_lock rounds addr length s = if s.active then try_wait_read_lock rounds addr s else failed

unfoldable pub try_write_lock : List Env → ℕ → ℕ → Cmd Bool
try_write_lock rounds addr length s = if s.active then try_wait_write_lock rounds addr s else failed

-- Where the database stands with the STM between two calls of the wrappers.
pub data Phase : Type 0 where
  outside : Phase
  running : Phase
  aborted : Phase

abbrev pub InPhase : Phase → ℕ → State → Type 0
InPhase outside t s = Idle t s × (s.shared.conflict_clock < no_timestamp)
InPhase running t s = Running t s
InPhase aborted t s = Aborted t s

-- Among other threads that respect the thread's locks, `beginTxn` from outside any transaction, with
-- timestamps left, or after an abort on a conflict, never fails an assert, and leads to a running
-- transaction in good order with no lock given up, if it returns; it never jumps back.
pub begin_txn-InPhase :
    (t : ℕ) (rounds : List Env) (phase : Phase) (s : State)
    → All (Respects t) rounds
    → phase ≢ running
    → InPhase phase t s
    → Post (λ _. InPhase running t) (λ _. ⊥) (begin_txn rounds s) × (begin_txn rounds s ≢ failed)
unfolding begin_txn
begin_txn-InPhase t rounds outside s quiet ne (idle, left) =
    let ready = Ready-of_Idle t s idle left in
    (
      begin_tx-Running t rounds (record s { active = true }) quiet ready,
      begin_tx-ne-failed t rounds (record s { active = true }) ready,
    )
begin_txn-InPhase t rounds running s quiet ne h = absurd (ne refl)
begin_txn-InPhase t rounds aborted s quiet ne h =
    let r = Ready-of_Aborted t s h in
    let ready : Ready t (record s { active = true }) = record {
      who = r.who;
      range = r.range;
      none = r.none;
      words = r.words;
      runs = r.runs;
      own = r.own;
      inside = refl;
      again = r.again;
    } in
    (
      begin_tx-Running t rounds (record s { active = true }) quiet ready,
      begin_tx-ne-failed t rounds (record s { active = true }) ready,
    )

-- `endTxn` of a running transaction returns with the thread outside any transaction: no lock is
-- held and no timestamp announced.
end_txn-Idle : (t : ℕ) (s : State) → InPhase running t s → Returns (λ _. Idle t) (end_txn s)
unfolding end_txn
end_txn-Idle t s (order, kept, on, tame) = simp on (end_tx-Idle t s (order, kept, on, tame))

-- `abortTxn` of a running transaction that must die on a conflict returns with no lock held and the
-- older transaction known, with and without the rollback of the memory.
pub abort_txn-InPhase :
    (t : ℕ) (enable_rollback : Bool) (s : State)
    → InPhase running t s
    → MustDie s
    → Returns (λ _. InPhase aborted t) (abort_txn enable_rollback s)
unfolding abort_txn
abort_txn-InPhase t enable_rollback s (order, kept, on, tame) die =
    simp on (abort-Aborted t enable_rollback s order on tame die)

begin_tx-unconflicted :
    (rounds : List Env) (s : State)
    → 0 < s.myd.attempt
    → s.myd.my_ts ≡ no_timestamp
    → begin_tx rounds s ≡ failed
unfolding begin_tx wait_for_conflicting_txn conflict_known
begin_tx-unconflicted rounds s more none =
    let again : ltb 0 s.myd.attempt ≡ true = ground arith in
    let unknown : conflict_known (clear_logs s) ≡ false = unstamped (clear_logs s) none in
    rw (again, unknown) refl
  where
    unstamped : (s : State) → s.myd.my_ts ≡ no_timestamp → conflict_known s ≡ false
    unstamped s none = ground (arith, none)

-- A running transaction with no timestamp that aborts though it met no conflict, as on an abort by
-- the user, cannot begin again: the next `beginTxn` fails an assert.
pub begin_txn-unconflicted :
    (t : ℕ) (rounds : List Env) (s : State)
    → InPhase running t s
    → 0 < s.myd.attempt
    → s.myd.my_ts ≡ no_timestamp
    → Returns (λ _ s'. begin_txn rounds s' ≡ failed) (abort_txn true s)
unfolding abort_txn begin_txn abort_tx
begin_txn-unconflicted t rounds s (order, kept, on, tame) more none =
    simp on (begin_tx-unconflicted rounds (record (abort_tx true s) { active = true }) more none)
