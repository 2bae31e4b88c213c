-- ===== src/TwoPlUndo/Program.antt =====
-- stms/2PLUndo.hpp: user code in a transaction, and `STM::transaction`, which runs it until it commits.
pub mod Logs
pub mod Running
pub mod Following
pub mod Attempted
pub mod Loop
use plsf.Prelude.{
  ℕ, suc, ◌+◌, ◌-◌, ◌*◌, ◌/◌, ◌%◌, ◌^◌, bit_and, Bool, true, false, List, [], ◌∷◌, ltb, ◌==◌,
  if◌then◌else◌,
}
use Prim.Native.Nat.{bit_xor}
use plsf.Stm.Program.{Program, finish, load, store, malloc, free, Attempt}
use plsf.TwoPlUndo.State.{
  Shared, OpData, State, Outcome, ok, aborted, failed, unfinished, Cmd, and_then, set_shared,
  set_myd,
}
use plsf.TwoPlUndo.Txn.{pstore, pload, tm_malloc, tm_free, begin_tx, end_tx, abort_transaction}

unfoldable pub run : Program → Attempt → ℕ → Cmd ℕ
unfolding pload pstore tm_malloc tm_free
run (finish v) o n s = ok v s
run (load addr k) o n s = and_then (pload addr s) (λ v. run (k v) o (n + 1))
run (store addr v p) o n s = and_then (pstore addr v s) (λ _. run p o (n + 1))
run (malloc k) o n s = and_then (tm_malloc o.clear (o.fresh n) s) (λ v. run (k v) o (n + 1))
run (free obj p) o n s = and_then (tm_free obj s) (λ _. run p o (n + 1))

unfoldable pub marsaglia_xorv : ℕ → ℕ
marsaglia_xorv x =
    let x0 = if x == 0 then 1 else x in
    let x1 = bit_xor x0 ((x0 * 2 ^ 6) % 2 ^ 64) in
    let x2 = bit_xor x1 (x1 / 2 ^ 21) in bit_xor x2 ((x2 * 2 ^ 7) % 2 ^ 64)

-- The rounds that `backoff` counts before the next attempt.
unfoldable pub stall : ℕ → ℕ → ℕ
stall myrand attempt =
    (((bit_and myrand 0xff + ((attempt * attempt) % 2 ^ 64) / 2 ^ 3) % 2 ^ 64) * 8) % 2 ^ 64

-- `backoff`: the loop counts `stall` rounds and changes nothing else.
unfoldable pub backoff : ℕ → OpData → OpData
unfolding marsaglia_xorv
backoff attempt d = if ltb attempt 2 then d else record d { myrand = marsaglia_xorv d.myrand }

-- The body of the loop after the backoff: it leaves the loop, or goes on with the next attempt.
unfoldable pub conclude : Outcome ℕ → Outcome ℕ
unfolding end_tx abort_transaction
conclude (ok v s) = ok v (end_tx s)
conclude (aborted s) = aborted (abort_transaction s)
conclude failed = failed
conclude unfinished = unfinished

unfoldable pub try_once : Attempt → Program → Cmd ℕ
unfolding begin_tx run conclude
try_once o func s = conclude (run func o 0 (begin_tx s))

-- `catch (AbortedTx&)`
abbrev pub retry : Outcome ℕ → Cmd ℕ → Outcome ℕ
retry (ok v s) again = ok v s
retry (aborted s) again = again s
retry failed again = failed
retry unfinished again = unfinished

-- The loop. Each item of the list is what the other threads do to the shared state before an
-- attempt, and what that attempt gets from `malloc`; where it ends, the transaction still runs.
unfoldable pub attempts : List ((Shared → Shared) × Attempt) → ℕ → Program → Cmd ℕ
unfolding backoff try_once
attempts [] attempt func s = unfinished
attempts (o ∷ os) attempt func s =
    let waited = record s { shared = o.0 s.shared; myd = backoff attempt s.myd } in
    retry (try_once o.1 func waited) (λ s'. attempts os ((attempt + 1) % 2 ^ 64) func s')

abbrev pub enter_tx : ℕ → State → State
enter_tx tx_type s = record s {
  active = true;
  tx_type = tx_type;
  myd = record s.myd { nested_trans = (s.myd.nested_trans + 1) % 2 ^ 64 };
}

abbrev pub leave_tx : State → State
leave_tx s = record s {
  active = false;
  tx_type = 0;
  myd = record s.myd { nested_trans = s.myd.nested_trans - 1 };
}

-- A transaction inside another is only a call of its function.
unfoldable pub transaction : List ((Shared → Shared) × Attempt) → Attempt → Program → ℕ → Cmd ℕ
unfolding attempts run
transaction os nested func tx_type s =
    if ltb 0 s.myd.nested_trans
    then run func nested 0 s
    else and_then (attempts os 0 func (enter_tx tx_type s)) (λ v s'. ok v (leave_tx s'))
