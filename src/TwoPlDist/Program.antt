-- ===== src/TwoPlDist/Program.antt =====
-- stms/2PLUndoDist.hpp: user code in a transaction, and `STM::transaction`, which runs it until it commits.
pub mod Logs
pub mod Running
pub mod Following
pub mod Loop
use plsf.Prelude.{ℕ, ◌+◌, Bool, true, List, [], ◌∷◌, if◌then◌else◌}
use plsf.Stm.Program.{Program, finish, load, store, malloc, free, Attempt}
use plsf.TwoPlDist.State.{
  Shared, State, Outcome, ok, restart, failed, unfinished, Cmd, and_then, set_shared,
}
use plsf.TwoPlDist.Txn.{pstore, pload, tm_malloc, tm_free, begin_tx, end_tx}

unfoldable pub run : Program → Attempt → ℕ → Cmd ℕ
unfolding pload pstore tm_malloc tm_free
run (finish v) o n s = ok v s
run (load addr k) o n s = and_then (pload addr s) (λ v. run (k v) o (n + 1))
run (store addr v p) o n s = and_then (pstore addr v s) (λ _. run p o (n + 1))
run (malloc k) o n s = and_then (tm_malloc (o.fresh n) s) (λ v. run (k v) o (n + 1))
run (free obj p) o n s = and_then (tm_free obj s) (λ _. run p o (n + 1))

-- From `setjmp` on: `beginTx`, the user's function, `endTx`.
unfoldable pub try_once : Attempt → Program → Cmd ℕ
unfolding begin_tx run end_tx
try_once o func s = and_then (run func o 0 (begin_tx s)) (λ v s1. ok v (end_tx s1))

-- `longjmp` goes on at `setjmp`.
abbrev pub jump_back : Outcome ℕ → Cmd ℕ → Outcome ℕ
jump_back (ok v s) again = ok v s
jump_back (restart s) again = again s
jump_back failed again = failed
jump_back unfinished again = unfinished

-- Each item of the list is what the other threads do to the shared state before an attempt, and what
-- that attempt gets from `malloc`; where it ends, the transaction still runs.
unfoldable pub attempts : List ((Shared → Shared) × Attempt) → Program → Cmd ℕ
unfolding try_once
attempts [] func s = unfinished
attempts (o ∷ os) func s =
    jump_back (try_once o.1 func (set_shared s (o.0 s.shared))) (λ s'. attempts os func s')

-- A transaction inside another is only a call of its function.
unfoldable pub transaction : List ((Shared → Shared) × Attempt) → Attempt → Program → Cmd ℕ
unfolding attempts run
transaction os nested func s =
    if s.active then run func nested 0 s else attempts os func (record s { active = true })
