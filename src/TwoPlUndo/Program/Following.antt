-- ===== src/TwoPlUndo/Program/Following.antt =====
-- stms/2PLUndo.hpp: one attempt of a transaction, from `beginTx` to `endTx` or `abortTransaction`.
use plsf.Prelude.{
  ℕ, ◌+◌, ◌<◌, ◌≡◌, refl, arith, true, false, ◌==◌, if◌then◌else◌, [], ◌∷◌, ◌++◌, subst, ◌∙◌, inl,
  inr, ◌⊎◌, All-append,
}
use plsf.Stm.Program.{Program, finish, load, store, malloc, free, Attempt}
use plsf.Stm.Program.Sequential.{exec}
use plsf.TwoPlUndo.State.{State, ok, failed, set_myd, set_mem}
use plsf.TwoPlUndo.Txn.{
  pload, pstore, allocate, log_allocation, tm_malloc, retire, tm_free, undo, unlock_reads,
  unlock_writes, release, free_all, reclaim_all, begin_tx, end_tx, abort_transaction,
}
use plsf.TwoPlUndo.Txn
use plsf.TwoPlUndo.Program.{run}
use plsf.TwoPlUndo.Program.Logs.{Running, Thrown, Ends, Ends-and_then, undo_same}
use plsf.TwoPlUndo.Program.Running.{pload-Ends, pstore-Ends}

module _ (t : ℕ) (h : t < 56) (b : ℕ → ℕ) (o : Attempt) (m : ℕ → ℕ) where
  tm_malloc-cases :
      (fresh : ℕ) (s : State)
      → s.active ≡ true
      → (tm_malloc o.clear fresh s ≡ failed)
        ⊎ ((tm_malloc o.clear fresh s ≡ ok fresh s) × (fresh ≡ 0))
        ⊎ ((tm_malloc o.clear fresh s
              ≡ ok fresh (
                  set_myd (set_mem (allocate fresh s) (o.clear fresh s.shared.mem)) (record s.myd {
                    alog = s.myd.alog ++ record { obj = fresh; reclaim = Txn.free } ∷ [];
                  })))
            × ((fresh == 0) ≡ false))
  unfolding tm_malloc log_allocation
  tm_malloc-cases fresh s e = ground arith

  tm_malloc-Ends :
      (fresh : ℕ) (s : State)
      → Running t b o.clear m s
      → Ends
          (λ v s'.
            Running t b o.clear m s'
            × (v ≡ fresh)
            × (s'.shared.mem ≡ (if fresh == 0 then s.shared.mem else o.clear fresh s.shared.mem)))
          (Thrown t b o.clear m)
          (tm_malloc o.clear fresh s)
  tm_malloc-Ends fresh s r = elim (tm_malloc-cases fresh s r.active) [
    | inl e ↦ rw e tt
    | inr (inl e) ↦ rw (e.0) (r, refl, ground (arith, e.1))
    | inr (inr e) ↦ rw (e.0) (
      record {
        active = r.active;
        tid = r.tid;
        held = r.held;
        undoes = λ a q. undo_same s.myd.write_set a _ _ (q fresh s.shared.mem) ∙ r.undoes a q;
        plain = All-append (λ x. x.reclaim ≡ Txn.free) s.myd.alog _ r.plain (refl, tt);
      },
      refl,
      ground (arith, e.1),
    )
  ]

  tm_free-cases :
      (obj : ℕ) (s : State)
      → s.active ≡ true
      → (tm_free obj s ≡ failed)
        ⊎ (tm_free obj s ≡ ok tt s)
        ⊎ (tm_free obj s ≡ ok tt (set_myd s (record s.myd { flog = s.myd.flog ++ obj ∷ [] })))
  unfolding tm_free retire
  tm_free-cases obj s e = ground arith

  tm_free-Ends :
      (obj : ℕ) (s : State)
      → Running t b o.clear m s
      → Ends
          (λ _ s'. Running t b o.clear m s' × (s'.shared.mem ≡ s.shared.mem))
          (Thrown t b o.clear m)
          (tm_free obj s)
  tm_free-Ends obj s r = elim (tm_free-cases obj s r.active) [
    | inl e ↦ rw e tt
    | inr (inl e) ↦ rw e (r, refl)
    | inr (inr e) ↦ rw e (
      record { active = r.active; tid = r.tid; held = r.held; undoes = r.undoes; plain = r.plain },
      refl,
    )
  ]

  -- What the code does from the memory `mem` on is what it means by itself.
  abbrev Follows : Program → ℕ → (ℕ → ℕ) → ℕ → State → Type 0
  Follows p n mem v s' = Running t b o.clear m s' × (exec p o n mem ≡ (v, s'.shared.mem))

  pub run-Ends :
      (p : Program) (n : ℕ) (s : State)
      → Running t b o.clear m s
      → Ends (Follows p n s.shared.mem) (Thrown t b o.clear m) (run p o n s)
  unfolding run exec
  run-Ends (finish v) n s r = (r, refl)
  run-Ends (load addr k) n s r =
      Ends-and_then _ _ _ (pload addr s) _ (pload-Ends t h b o.clear m s addr r) (λ v s' q.
        subst
          (λ z.
            Ends (Follows (k z) (n + 1) s.shared.mem) (Thrown t b o.clear m)
              (run (k v) o (n + 1) s'))
          q.1
          (subst
            (λ z. Ends (Follows (k v) (n + 1) z) (Thrown t b o.clear m) (run (k v) o (n + 1) s'))
            q.2 (run-Ends (k v) (n + 1) s' q.0)))
  run-Ends (store addr v p) n s r =
      Ends-and_then _ _ _ (pstore addr v s) _ (pstore-Ends t h b o.clear m s addr v r) (λ u s' q.
        subst (λ z. Ends (Follows p (n + 1) z) (Thrown t b o.clear m) (run p o (n + 1) s')) q.1
          (run-Ends p (n + 1) s' q.0))
  run-Ends (malloc k) n s r =
      Ends-and_then _ _ _ (tm_malloc o.clear (o.fresh n) s) _ (tm_malloc-Ends (o.fresh n) s r)
        (λ v s' q.
          subst
            (λ z.
              Ends
                (Follows (k z) (n + 1)
                  (if o.fresh n == 0 then s.shared.mem else o.clear (o.fresh n) s.shared.mem))
                (Thrown t b o.clear m) (run (k v) o (n + 1) s'))
            q.1
            (subst
              (λ z. Ends (Follows (k v) (n + 1) z) (Thrown t b o.clear m) (run (k v) o (n + 1) s'))
              q.2 (run-Ends (k v) (n + 1) s' q.0)))
  run-Ends (free obj p) n s r =
      Ends-and_then _ _ _ (tm_free obj s) _ (tm_free-Ends obj s r) (λ u s' q.
        subst (λ z. Ends (Follows p (n + 1) z) (Thrown t b o.clear m) (run p o (n + 1) s')) q.1
          (run-Ends p (n + 1) s' q.0))
