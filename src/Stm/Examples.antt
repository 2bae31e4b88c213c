-- ===== src/Stm/Examples.antt =====
-- stms/2PLSF.hpp: the library's theorems on the threads and programs of Stm/Quiet and Stm/Samples.
use plsf.Prelude.{ℕ, ◌%◌, ◌<◌, ◌≡◌, ◌≢◌, ◌↔◌, refl, true, false, [], ◌∷◌, arith}
use plsf.Config.{num_ri_words, no_timestamp}
use plsf.Index.{addr2write_idx, write_idx2read_idx}
use plsf.Index.Separation.{read_indicator_separation, write_idx2read_idx-lt}
use plsf.Stm.State.{Shared, State, failed, ok}
use plsf.Stm.Indicator.{arrived}
use plsf.Stm.Conflict.{is_empty, get_lowest_ts}
use plsf.Stm.Conflict.Readers.{is_empty_iff}
use plsf.Stm.Conflict.Minimum
use plsf.Stm.Conflict.Minimum.{get_lowest_ts-IsLeast}
use plsf.Stm.Locks.{try_wait_read_lock, try_wait_write_lock}
use plsf.Stm.Locks.Rely.{Returns, Post}
use plsf.Stm.Locks.Read.{try_wait_read_lock_lem}
use plsf.Stm.Locks.ReadWait.{ReadResult}
use plsf.Stm.Locks.Write.{try_wait_write_lock_lem}
use plsf.Stm.Locks.WriteResult.{WriteResult}
use plsf.Stm.Txn.{free, reclaim_all, write_mem}
use plsf.Stm.Program.{run, transaction}
use plsf.Stm.Program.TwoPhase.{Running}
use plsf.Stm.Program.Restart.{restart_restores}
use plsf.Stm.Program.Strict.{Stopped, run-Running}
use plsf.Stm.Allocation.{tm_new, tm_new-reclaimed}
use plsf.Stm.Operators.{OperatorTransactions, operator_transactions}
use plsf.Stm.Start.{new_stm, new_opdata, new_stm-Idle}
use plsf.Stm.Wrappers.{
  begin_txn, abort_txn, running, aborted, InPhase, begin_txn-InPhase, abort_txn-InPhase,
  begin_txn-unconflicted,
}
use plsf.Stm.Program.Whole.{Idle, transaction-Idle}
use plsf.Stm.Program.Sequential.{exec}
use plsf.Stm.Program.Uncontended.{Undisturbed, Gives, transaction-exec}
use plsf.Stm.Locks.Progress.{Ends, try_wait_read_lock-Ends, try_wait_write_lock-Ends}
use plsf.Stm.Samples.{
  all_leave, all_leave-Open, taken_shared, second, second_words, taken_small, raw_shared,
  raw_shared_beyond, second-Ready, second_attempt, overwrite, restarted, second_restarts, reader,
  lock, idle_thread-Undisturbed, second-Aborted, aborted_not_running, conflicted,
  conflicted-Running, no_conflict,
}
use plsf.Stm.Quiet.{
  quiet_shared, idle_thread, started, other_announces, other_announces-Respects, started_order,
  started_kept, started-Running, idle_thread-Idle, copy_up, one_attempt, one_attempt-Quiet,
}

restart_restores_example : restarted.shared.mem 64 ≡ second.shared.mem 64
restart_restores_example =
    restart_restores 64 second_attempt overwrite second restarted
      (record { at_begin = (λ g. refl, tt); rounds = λ n. tt; fresh = λ n mem. refl }) refl
      second_restarts

read_indicator_separation_example : (reader ≡ reader) × (lock % 64 ≡ lock % 64 → lock ≡ lock)
read_indicator_separation_example =
    read_indicator_separation lock reader lock reader (omega arith) (omega arith) (omega arith)
      (omega arith) refl

write_idx2read_idx-lt_example : write_idx2read_idx 4194303 255 < num_ri_words
write_idx2read_idx-lt_example = write_idx2read_idx-lt 4194303 255 (omega arith) (omega arith)

try_wait_read_lock_lem_example :
    Post
      (ReadResult 0
        (addr2write_idx 64)
        (arrived started.shared.read_indicators (addr2write_idx 64) 0))
      (λ _. ⊥)
      (try_wait_read_lock (other_announces ∷ []) 64 started)
try_wait_read_lock_lem_example =
    try_wait_read_lock_lem (other_announces ∷ []) 64 started (other_announces-Respects, tt)
      started_order started_kept

try_wait_write_lock_lem_example :
    Post (WriteResult 0 64 []) (λ _. ⊥) (try_wait_write_lock (other_announces ∷ []) 64 started)
try_wait_write_lock_lem_example =
    try_wait_write_lock_lem (other_announces ∷ []) 64 started (other_announces-Respects, tt)
      started_order started_kept

run-Running_example : Post (λ _. Running 0) (Stopped 0) (run copy_up one_attempt 0 started)
run-Running_example =
    run-Running 0 copy_up one_attempt 0 started (one_attempt-Quiet.rounds) started-Running

transaction-Idle_example :
    Post (λ _. Idle 0) (λ _. ⊥) (transaction one_attempt [] copy_up idle_thread)
transaction-Idle_example =
    transaction-Idle 0 one_attempt [] copy_up idle_thread one_attempt-Quiet tt idle_thread-Idle
      (omega arith)

is_empty_iff_example :
    (is_empty taken_shared 4 0 ≡ true)
    ↔ ((itid : ℕ) → itid < 2 → itid ≢ 0 → arrived taken_shared.read_indicators 4 itid ≡ false)
is_empty_iff_example = is_empty_iff taken_shared 4 0

get_lowest_ts-IsLeast_example :
    Minimum.Found taken_shared 4 0 (get_lowest_ts taken_shared 4 0)
    × Minimum.IsLeast taken_shared 4 0 (get_lowest_ts taken_shared 4 0)
get_lowest_ts-IsLeast_example = get_lowest_ts-IsLeast taken_shared 4 0 (second_words 4) taken_small

transaction-exec_example :
    Returns
      (Gives (exec copy_up one_attempt 0 quiet_shared.mem))
      (transaction one_attempt [] copy_up idle_thread)
transaction-exec_example =
    transaction-exec 0 one_attempt [] copy_up idle_thread idle_thread-Idle idle_thread-Undisturbed
      (λ v. tt)

new_stm-Idle_example :
    Idle 3 (record { shared = new_stm raw_shared; myd = new_opdata 3; active = false })
    × Undisturbed 3 (record { shared = new_stm raw_shared; myd = new_opdata 3; active = false })
    × ((new_stm raw_shared).conflict_clock < no_timestamp)
new_stm-Idle_example = new_stm-Idle raw_shared 3 raw_shared_beyond (omega arith) (omega arith)

begin_txn-InPhase_example :
    Post (λ _. InPhase running 0) (λ _. ⊥) (begin_txn (other_announces ∷ []) second)
    × (begin_txn (other_announces ∷ []) second ≢ failed)
begin_txn-InPhase_example =
    begin_txn-InPhase 0 (other_announces ∷ []) aborted second (other_announces-Respects, tt)
      aborted_not_running second-Aborted

abort_txn-InPhase_example : Returns (λ _. InPhase aborted 0) (abort_txn false conflicted)
abort_txn-InPhase_example =
    abort_txn-InPhase 0 false conflicted conflicted-Running (second-Ready.again (omega arith))

begin_txn-unconflicted_example :
    Returns (λ _ s'. begin_txn [] s' ≡ failed) (abort_txn true no_conflict)
begin_txn-unconflicted_example =
    begin_txn-unconflicted 0 [] no_conflict started-Running (omega arith) refl

try_wait_read_lock-Ends_example :
    Ends (λ _. Unit) (try_wait_read_lock (other_announces ∷ all_leave ∷ []) 128 second)
try_wait_read_lock-Ends_example =
    try_wait_read_lock-Ends (other_announces ∷ []) all_leave 128 second (λ g. refl) (omega arith)

try_wait_write_lock-Ends_example :
    Ends (λ _. Unit) (try_wait_write_lock (other_announces ∷ all_leave ∷ []) 128 second)
try_wait_write_lock-Ends_example =
    try_wait_write_lock-Ends (other_announces ∷ []) all_leave 128 second all_leave-Open
      (omega arith)

operator_transactions_example : OperatorTransactions one_attempt [] idle_thread 64 128 5 65 129
operator_transactions_example =
    operator_transactions 0 one_attempt [] idle_thread 64 128 5 idle_thread-Idle
      idle_thread-Undisturbed

-- The constructor stores 7, the destructor does nothing.
tm_new-reclaimed_example :
    (s : State) × (tm_new (λ a. write_mem a 7) (λ a g. g) 64 started ≡ ok 64 s)
    × ((g : Shared)
        → reclaim_all s.myd.alog g ≡ reclaim_all [] (free 64 (reclaim_all started.myd.alog g)))
tm_new-reclaimed_example =
    tm_new-reclaimed (λ a. write_mem a 7) (λ a g. g) 64 started _ [] refl (omega arith) refl refl
