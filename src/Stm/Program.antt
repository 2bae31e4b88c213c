-- ===== src/Stm/Program.antt =====
-- stms/2PLSF.hpp: user code in a transaction, and `STM::transaction`, which runs it until it commits.
pub mod Undo
pub mod Atomic
pub mod Restart
pub mod TwoPhase
pub mod Strict
pub mod Commit
pub mod Whole
pub mod Sequential
pub mod Sole
pub mod Alone
pub mod Uncontended
use plsf.Prelude.{ℕ, suc, ◌+◌, Bool, true, false, List, [], ◌∷◌, if◌then◌else◌}
use plsf.Stm.State.{
  State, Outcome, ok, restart, spinning, failed, Cmd, Env, and_then, pure, ◌>>=◌, ◌>>◌,
}
use plsf.Stm.Txn.{begin_tx, end_tx, pstore, pload, tm_malloc, tm_free}

-- What user code does with the STM: each access may depend on the values loaded before it.
pub data Program : Type 0 where
  finish : ℕ → Program
  load : ℕ → (ℕ → Program) → Program
  store : ℕ → ℕ → Program → Program
  malloc : (ℕ → Program) → Program
  free : ℕ → Program → Program

-- What one attempt meets: the rounds of the other threads in `beginTx` and in the n-th access, what
-- the n-th access gets from `malloc`, and the effect of `memset` on a fresh block.
pub record Attempt : Type 0 where
  pub at_begin : List Env
  pub rounds : ℕ → List Env
  pub fresh : ℕ → ℕ
  pub clear : ℕ → (ℕ → ℕ) → ℕ → ℕ

unfoldable pub run : Program → Attempt → ℕ → Cmd ℕ
unfolding pload pstore tm_malloc tm_free
run (finish v) o n s = ok v s
run (load addr k) o n s = and_then (pload (o.rounds n) addr s) (λ v. run (k v) o (n + 1))
run (store addr v p) o n s = and_then (pstore (o.rounds n) addr v s) (λ _. run p o (n + 1))
run (malloc k) o n s = and_then (tm_malloc o.clear (o.fresh n) s) (λ v. run (k v) o (n + 1))
run (free obj p) o n s = and_then (tm_free obj s) (λ _. run p o (n + 1))

-- From `setjmp` on: `beginTx`, the user's function, `endTx`. The list holds what each attempt meets;
-- where it ends, the transaction still runs.
unfoldable pub attempts : List Attempt → Program → Cmd ℕ
unfolding begin_tx run end_tx
attempts [] func s = spinning
attempts (o ∷ os) func s = elim ((begin_tx o.at_begin >> run func o 0) s) [
  | ok v s' ↦ ok v (end_tx s')
  | restart s' ↦ attempts os func s'
  | spinning ↦ spinning
  | failed ↦ failed
]

-- A transaction inside another is only a call of its function.
unfoldable pub transaction : Attempt → List Attempt → Program → Cmd ℕ
unfolding attempts
transaction o os func s =
    if s.active then run func o 0 s else attempts (o ∷ os) func (record s { active = true })
