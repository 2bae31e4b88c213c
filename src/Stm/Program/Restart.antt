-- ===== src/Stm/Program/Restart.antt =====
-- stms/2PLSF.hpp: a whole attempt, from `beginTx` to the jump back to the start.
use plsf.Prelude.{
  ℕ, ◌+◌, ◌≡◌, refl, true, false, not, List, [], ◌∷◌, All, All-append, arith, ◌==◌, ltb, Bool-cases,
  inl, inr, ◌∙◌, if◌then◌else◌, length, subst,
}
use plsf.Config.{tx_max_allocs, tx_max_retires}
use plsf.Stm.State.{State, ok, restart, failed, Env, set_shared, ts_slot, ◌>>◌}
use plsf.Stm.Locks.Frame.{Post-mono}
use plsf.Stm.Locks.Rely.{Post, bind}
use plsf.Stm.Txn
use plsf.Stm.Txn.{
  wait_while_announced, wait_for_conflicting_txn, conflict_known, clear_logs, count_attempt,
  begin_tx, tm_malloc, tm_free,
}
use plsf.Stm.Program.{Program, finish, load, store, malloc, Attempt, run}
use plsf.Stm.Program.Undo.{Leaves, Undoable, rollback_same}
use plsf.Stm.Program.Atomic.{Restored, pload-Undoable, pstore-Undoable}

-- Neither the other threads nor the `memset` of a fresh block write address `a` in this attempt.
pub record Untouched (a : ℕ) (o : Attempt) : Type 0 where
  pub at_begin : All (Leaves a) o.at_begin
  pub rounds : (n : ℕ) → All (Leaves a) (o.rounds n)
  pub fresh : (n : ℕ) (mem : ℕ → ℕ) → o.clear (o.fresh n) mem a ≡ mem a

module _ (a v : ℕ) (o : Attempt) (quiet : Untouched a o) where
  tm_malloc-Undoable :
      (n : ℕ) (s : State)
      → Undoable a v s
      → Post (λ _. Undoable a v) (Restored a v) (tm_malloc o.clear (o.fresh n) s)
  unfolding tm_malloc
  tm_malloc-Undoable n s h = elim (Bool-cases (o.fresh n == 0)) [
    | inl null ↦ rw null h
    | inr fresh ↦
        let inside : not s.active ≡ false = ground arith in
        rw (fresh, inside)
          (elim (Bool-cases (length s.myd.alog == tx_max_allocs)) [
            | inl full ↦ rw full tt
            | inr room ↦ rw room (
              h.0,
              (
                rollback_same s.myd.write_set a _ _ (quiet.fresh n s.shared.mem) ∙ h.1.0,
                All-append _ s.myd.alog _ h.1.1 (λ g. refl, tt),
              ),
            )
          ])
  ]

  tm_free-Undoable :
      (obj : ℕ) (s : State)
      → Undoable a v s
      → Post (λ _. Undoable a v) (Restored a v) (tm_free obj s)
  unfolding tm_free
  tm_free-Undoable obj s h = elim (Bool-cases (obj == 0)) [
    | inl null ↦ rw null h
    | inr given ↦
        let inside : not s.active ≡ false = ground arith in
        rw (given, inside)
          (elim (Bool-cases (length s.myd.flog == tx_max_retires)) [
            | inl full ↦ rw full tt
            | inr room ↦ rw room h
          ])
  ]

  run-Undoable :
      (p : Program) (n : ℕ) (s : State)
      → Undoable a v s
      → Post (λ _. Undoable a v) (Restored a v) (run p o n s)
  unfolding run
  run-Undoable (finish x) n s h = h
  run-Undoable (load addr k) n s h =
      bind (λ _. Undoable a v) (λ _. Undoable a v) (Restored a v) (Txn.pload (o.rounds n) addr s)
        (λ x. run (k x) o (n + 1)) (pload-Undoable a v (o.rounds n) addr s (quiet.rounds n) h)
        (λ x s' h'. run-Undoable (k x) (n + 1) s' h')
  run-Undoable (store addr x p) n s h =
      bind (λ _. Undoable a v) (λ _. Undoable a v) (Restored a v) (Txn.pstore (o.rounds n) addr x s)
        (λ _. run p o (n + 1)) (pstore-Undoable a v (o.rounds n) addr x s (quiet.rounds n) h)
        (λ _ s' h'. run-Undoable p (n + 1) s' h')
  run-Undoable (malloc k) n s h =
      bind (λ _. Undoable a v) (λ _. Undoable a v) (Restored a v) (tm_malloc o.clear (o.fresh n) s)
        (λ x. run (k x) o (n + 1)) (tm_malloc-Undoable n s h)
        (λ x s' h'. run-Undoable (k x) (n + 1) s' h')
  run-Undoable (Program.free obj p) n s h =
      bind (λ _. Undoable a v) (λ _. Undoable a v) (Restored a v) (tm_free obj s)
        (λ _. run p o (n + 1)) (tm_free-Undoable obj s h) (λ _ s' h'. run-Undoable p (n + 1) s' h')

  wait_while_announced-Undoable :
      (es : List Env) (s : State)
      → All (Leaves a) es
      → Undoable a v s
      → Post (λ _. Undoable a v) (λ _. ⊥) (wait_while_announced es s)
  unfolding wait_while_announced
  wait_while_announced-Undoable [] s all h =
      elim (Bool-cases (s.shared.txn_ts (ts_slot s.myd.otid) == s.myd.o_ts)) [
        | inl still ↦ rw still tt
        | inr over ↦ rw over h
      ]
  wait_while_announced-Undoable (e ∷ es) s all h =
      elim (Bool-cases (s.shared.txn_ts (ts_slot s.myd.otid) == s.myd.o_ts)) [
        | inl still ↦ rw still (
            wait_while_announced-Undoable es (set_shared s (e s.shared)) all.1
              (h.0, (rollback_same s.myd.write_set a _ _ (all.0 s.shared) ∙ h.1.0, h.1.1)))
        | inr over ↦ rw over h
      ]

  begin_tx-Undoable :
      (s : State)
      → s.active ≡ true
      → s.shared.mem a ≡ v
      → Post (λ _. Undoable a v) (λ _. ⊥) (begin_tx o.at_begin s)
  unfolding begin_tx wait_for_conflicting_txn Txn.rollback
  begin_tx-Undoable s on e =
      bind (λ _. Undoable a v) (λ _. Undoable a v) (λ _. ⊥) _ (λ _. count_attempt) waited
        (λ _ s' h. h)
    where
      waited :
          Post
            (λ _. Undoable a v)
            (λ _. ⊥)
            (if ltb 0 s.myd.attempt
              then (if conflict_known (clear_logs s)
                  then wait_while_announced o.at_begin (clear_logs s)
                  else failed)
              else ok tt (clear_logs s))
      waited = elim (Bool-cases (ltb 0 s.myd.attempt)) [
        | inl again ↦ rw again (elim (Bool-cases (conflict_known (clear_logs s))) [
          | inl known ↦
              rw known (
                wait_while_announced-Undoable o.at_begin (clear_logs s) quiet.at_begin
                  (on, (e, tt)))
          | inr unknown ↦ rw unknown tt
        ])
        | inr first ↦ rw first (on, (e, tt))
      ]

  attempt-Post :
      (p : Program) (s : State)
      → s.active ≡ true
      → s.shared.mem a ≡ v
      → Post (λ _. Undoable a v) (Restored a v) ((begin_tx o.at_begin >> run p o 0) s)
  attempt-Post p s on e =
      bind (λ _. Undoable a v) (λ _. Undoable a v) (Restored a v) (begin_tx o.at_begin s)
        (λ _. run p o 0) (Post-mono (λ _. Undoable a v) (Restored a v) _ (begin_tx-Undoable s on e))
        (λ _ s' h. run-Undoable p 0 s' h)

-- When an attempt of a transaction ends by the jump back to the start, for any user code, then an
-- address that neither the other threads nor the `memset` of a fresh block wrote meanwhile holds the
-- value that it held when the attempt began.
pub restart_restores :
    (a : ℕ) (o : Attempt) (p : Program) (s s' : State)
    → Untouched a o
    → s.active ≡ true
    → (begin_tx o.at_begin >> run p o 0) s ≡ restart s'
    → s'.shared.mem a ≡ s.shared.mem a
restart_restores a o p s s' quiet on e =
    subst (Post (λ _. Undoable a (s.shared.mem a)) (Restored a (s.shared.mem a))) e
      (attempt-Post a (s.shared.mem a) o quiet p s on refl)
