-- ===== src/Stm/Program/Uncontended.antt =====
-- stms/2PLSF.hpp: a whole transaction that meets no conflict, against the sequential meaning of its code.
use plsf.Prelude.{
  ℕ, zero, suc, ◌%◌, ◌^◌, ◌+◌, ◌<◌, ◌≤◌, ◌≡◌, ◌≢◌, refl, ◌∙◌, sym, inr, true, false, List, [], ◌∷◌,
  arith, ◌==◌, ltb, if◌then◌else◌, update, subst, ap,
}
use plsf.Config.{registry_max_threads, num_rwl, unlocked, tx_max_allocs}
use plsf.Stm.Locks.Rely.{Returns, Returns-and_then}
use plsf.Stm.State.{State, Outcome, ok, restart, spinning, failed, Env, and_then, ◌>>◌}
use plsf.Stm.Indicator.{arrived}
use plsf.Stm.Conflict.{get_max_threads}
use plsf.Stm.Txn.{begin_tx, end_tx, pload, pstore, tm_malloc, tm_free, clear_logs, count_attempt}
use plsf.Stm.Txn.Release.{release_locks_frame}
use plsf.Stm.Program.{Program, finish, load, store, malloc, Attempt, run, attempts, transaction}
use plsf.Stm.Program.Whole.{Idle, free_all_frame}
use plsf.Stm.Program.Sequential.{exec, Fits}
use plsf.Stm.Program.Alone.{pload-Alone, pstore-Alone, tm_malloc-Alone, tm_free-Alone}
use plsf.Stm.Program.Sole.{Alone}

-- Nobody holds a write lock, and no other thread has arrived at a lock.
pub record Undisturbed (t : ℕ) (s : State) : Type 0 where
  pub free : (w : ℕ) → s.shared.wlocks w ≡ unlocked
  pub no_reader :
      (w u : ℕ)
      → w < num_rwl
      → u < registry_max_threads
      → u ≢ t
      → arrived s.shared.read_indicators w u ≡ false
  pub registered : get_max_threads s.shared.max_tid ≤ registry_max_threads

-- The result of a run and the memory that it leaves.
abbrev pub Gives : ℕ × (ℕ → ℕ) → ℕ → State → Type 0
Gives r v s = (v ≡ r.0) × (s.shared.mem ≡ r.1)

module _ (t : ℕ) (o : Attempt) where
  run-exec :
      (n : ℕ) (p : Program) (k : ℕ) (mem : ℕ → ℕ) (s : State)
      → Fits n p
      → Alone t n s
      → s.shared.mem ≡ mem
      → Returns (Gives (exec p o k mem)) (run p o k s)
  unfolding run exec
  run-exec n (finish v) k mem s fits h e = (refl, e)
  run-exec (suc n) (load addr c) k mem s fits h e =
      Returns-and_then _ (Gives (exec (c (mem addr)) o (k + 1) mem)) (pload (o.rounds k) addr s)
        (λ v. run (c v) o (k + 1)) (pload-Alone t n (o.rounds k) addr s h)
        (λ v s' q.
          subst (λ x. Returns (Gives (exec (c x) o (k + 1) mem)) (run (c v) o (k + 1) s'))
            (q.1 ∙ ap (λ m. m addr) e) (run-exec n (c v) (k + 1) mem s' (fits v) q.0 (q.2 ∙ e)))
  run-exec (suc n) (store addr v p) k mem s fits h e =
      Returns-and_then _ (Gives (exec p o (k + 1) (update mem addr v)))
        (pstore (o.rounds k) addr v s) (λ _. run p o (k + 1))
        (pstore-Alone t n (o.rounds k) addr v s h)
        (λ _ s' q. run-exec n p (k + 1) _ s' fits q.0 (q.1 ∙ ap (λ m. update m addr v) e))
  run-exec (suc n) (malloc c) k mem s fits h e =
      let fresh = o.fresh k in
      let mem' = if fresh == 0 then mem else o.clear fresh mem in
      Returns-and_then _ (Gives (exec (c fresh) o (k + 1) mem')) (tm_malloc o.clear fresh s)
        (λ v. run (c v) o (k + 1)) (tm_malloc-Alone t n o.clear fresh s h)
        (λ v s' q.
          subst (λ x. Returns (Gives (exec (c x) o (k + 1) mem')) (run (c v) o (k + 1) s')) (q.1)
            (run-exec n (c v) (k + 1) mem' s' (fits v) q.0
              (q.2 ∙ ap (λ m. if fresh == 0 then m else o.clear fresh m) e)))
  run-exec (suc n) (Program.free obj p) k mem s fits h e =
      Returns-and_then _ (Gives (exec p o (k + 1) mem)) (tm_free obj s) (λ _. run p o (k + 1))
        (tm_free-Alone t n obj s h) (λ _ s' q. run-exec n p (k + 1) mem s' fits q.0 (q.1 ∙ e))
  run-exec zero (load addr c) k mem s fits h e = absurd fits
  run-exec zero (store addr v p) k mem s fits h e = absurd fits
  run-exec zero (malloc c) k mem s fits h e = absurd fits
  run-exec zero (Program.free obj p) k mem s fits h e = absurd fits

end_tx_mem : (s : State) → (end_tx s).shared.mem ≡ s.shared.mem
unfolding end_tx
end_tx_mem s =
    free_all_frame (λ g. g.mem ≡ s.shared.mem) s.myd.flog _
      (λ m. release_locks_frame (λ g. g.mem ≡ s.shared.mem) s s.shared (λ wlocks ri. refl))

-- The first attempt starts at once.
begin_tx-first :
    (rounds : List Env) (s : State)
    → s.myd.attempt ≡ 0
    → begin_tx rounds s ≡ count_attempt (clear_logs s)
unfolding begin_tx
begin_tx-first rounds s first =
    let now : ltb 0 s.myd.attempt ≡ false = ground (arith, first) in rw now

attempts-exec :
    (t : ℕ) (o : Attempt) (os : List Attempt) (p : Program) (s : State)
    → Idle t s
    → Undisturbed t s
    → Fits tx_max_allocs p
    → Returns (Gives (exec p o 0 s.shared.mem)) (attempts (o ∷ os) p (record s { active = true }))
unfolding attempts
attempts-exec t o os p s idle calm fits =
    committed ((begin_tx o.at_begin >> run p o 0) (record s { active = true })) (
      subst (λ m. Returns (Gives (exec p o 0 s.shared.mem)) (and_then m (λ _. run p o 0)))
        (sym (begin_tx-first o.at_begin (record s { active = true }) idle.fresh))
        (run-exec t o tx_max_allocs p 0 s.shared.mem s' fits
          (
            record {
              who = idle.who;
              range = idle.range;
              words = λ w. inr (calm.free w);
              no_reader = calm.no_reader;
              registered = calm.registered;
              inside = refl;
            },
            record {
              write_room = omega arith;
              read_room = omega arith;
              alloc_room = omega arith;
              free_room = omega arith;
            },
          )
          refl))
  where
    s' : State
    s' = record s {
      myd = record s.myd {
        alog = [];
        flog = [];
        write_set = [];
        read_set = [];
        attempt = (s.myd.attempt + 1) % 2 ^ 64;
      };
      active = true;
    }

    committed :
        (m : Outcome ℕ)
        → Returns (Gives (exec p o 0 s.shared.mem)) m
        → Returns (Gives (exec p o 0 s.shared.mem)) (elim m [
          | ok v s'' ↦ ok v (end_tx s'')
          | restart s'' ↦ attempts os p s''
          | spinning ↦ spinning
          | failed ↦ failed
        ])
    committed (ok v s'') q = (q.0, end_tx_mem s'' ∙ q.1)
    committed (restart s'') q = absurd q
    committed spinning q = absurd q
    committed failed q = absurd q

-- A transaction of an idle thread that finds no write lock taken and no other reader, with at most
-- as many threads registered as there are slots, and whose code makes at most TX_MAX_ALLOCS
-- operations on any path, returns in its first attempt: it does not wait, restart or fail. Its
-- result and the memory that it leaves are those of the code run by itself.
pub transaction-exec :
    (t : ℕ) (o : Attempt) (os : List Attempt) (p : Program) (s : State)
    → Idle t s
    → Undisturbed t s
    → Fits tx_max_allocs p
    → Returns (Gives (exec p o 0 s.shared.mem)) (transaction o os p s)
unfolding transaction
transaction-exec t o os p s idle calm fits =
    rw (idle.outside) (attempts-exec t o os p s idle calm fits)
