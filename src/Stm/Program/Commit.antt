-- ===== src/Stm/Program/Commit.antt =====
-- stms/2PLSF.hpp: `beginTx`, in the first attempt and after an abort.
use plsf.Prelude.{
  false, ◌++◌, ℕ, ◌<◌, ◌≤◌, ◌≡◌, ◌≢◌, refl, true, List, [], ◌∷◌, All, arith, ◌==◌, ltb, Bool-cases,
  inl, inr, if◌then◌else◌,
}
use plsf.Config.{registry_max_threads, no_timestamp}
use plsf.Stm.State.{
  Shared, State, Outcome, ok, restart, spinning, failed, Env, set_shared, ts_slot, and_then,
}
use plsf.Stm.Conflict.Minimum.{IsLockWord}
use plsf.Stm.Locks.Rely.{Returns, Returns-and_then, Respects, Post, bind}
use plsf.Stm.Locks.Order.{MustDie}
use plsf.Stm.Locks.Tracked.{logs_write, logs_read, Tracked-env, Kept-env, none_skipped}
use plsf.Stm.Txn.{
  wait_while_announced, wait_for_conflicting_txn, conflict_known, clear_logs, count_attempt,
  begin_tx,
}
use plsf.Stm.Program.TwoPhase.{HoldsNone, Running}

-- A thread about to begin an attempt: it holds no lock, and if this is not the first attempt then it
-- knows whom to wait for.
pub record Ready (t : ℕ) (s : State) : Type 0 where
  pub who : s.myd.tid ≡ t
  pub range : t < registry_max_threads
  pub none : HoldsNone t s.shared
  pub words : (w : ℕ) → IsLockWord (s.shared.wlocks w)
  pub runs : s.myd.my_ts ≡ no_timestamp → s.shared.conflict_clock < no_timestamp
  pub own : s.myd.my_ts ≤ no_timestamp
  pub inside : s.active ≡ true
  pub again : 0 < s.myd.attempt → MustDie s

-- The asserts of `waitForConflictingTxn`.
conflict_known_of_die : (s : State) → MustDie s → conflict_known s ≡ true
unfolding conflict_known
conflict_known_of_die s die = ground arith

wait_while_announced-ne-failed : (es : List Env) (s : State) → wait_while_announced es s ≢ failed
unfolding wait_while_announced
wait_while_announced-ne-failed [] s e = ground (arith)
wait_while_announced-ne-failed (x ∷ es) s e =
    ground (arith, wait_while_announced-ne-failed es (set_shared s (x s.shared)))

counted-ne-failed : (m : Outcome (Unit {0})) → m ≢ failed → and_then m (λ _. count_attempt) ≢ failed
counted-ne-failed (ok _ s) h e = ground arith
counted-ne-failed (restart s) h e = ground arith
counted-ne-failed spinning h e = ground arith
counted-ne-failed failed h e = h refl

-- The asserts at the start of an attempt never fail: neither in the first attempt nor after an
-- abort, whatever the other threads do while it waits.
pub begin_tx-ne-failed :
    (t : ℕ) (rounds : List Env) (s : State) → Ready t s → begin_tx rounds s ≢ failed
unfolding begin_tx wait_for_conflicting_txn
begin_tx-ne-failed t rounds s ready = counted-ne-failed _ waited
  where
    waited :
        (if ltb 0 s.myd.attempt
          then (if conflict_known (clear_logs s)
              then wait_while_announced rounds (clear_logs s)
              else failed)
          else ok tt (clear_logs s))
        ≢ failed
    waited = elim (Bool-cases (ltb 0 s.myd.attempt)) [
      | inl again ↦
          let known : conflict_known (clear_logs s) ≡ true =
            conflict_known_of_die (clear_logs s) (ready.again (ground arith)) in
          rw (again, known) (wait_while_announced-ne-failed rounds (clear_logs s))
      | inr first ↦ rw first (λ e. ground arith)
    ]

wait_while_announced-Returns :
    (es : List Env) (e : Env) (s : State)
    → ((g : Shared) → (e g).txn_ts (ts_slot s.myd.otid) ≢ s.myd.o_ts)
    → Returns (λ _ _. Unit) (wait_while_announced (es ++ e ∷ []) s)
unfolding wait_while_announced
wait_while_announced-Returns [] e s gone =
    let over : ((e s.shared).txn_ts (ts_slot s.myd.otid) == s.myd.o_ts) ≡ false =
      ground (arith, gone s.shared) in
    elim (Bool-cases (s.shared.txn_ts (ts_slot s.myd.otid) == s.myd.o_ts)) [
      | inl still ↦ rw (still, over) tt
      | inr now ↦ rw now tt
    ]
wait_while_announced-Returns (x ∷ es) e s gone =
    elim (Bool-cases (s.shared.txn_ts (ts_slot s.myd.otid) == s.myd.o_ts)) [
      | inl still ↦ rw still (wait_while_announced-Returns es e (set_shared s (x s.shared)) gone)
      | inr now ↦ rw now tt
    ]

-- `beginTx` returns, whatever the other threads do meanwhile, if after the last of the rounds the
-- thread that caused the last abort no longer announces the timestamp that it had then: the wait
-- ends and the asserts hold.
pub begin_tx-Returns :
    (t : ℕ) (es : List Env) (e : Env) (s : State)
    → Ready t s
    → ((g : Shared) → (e g).txn_ts (ts_slot s.myd.otid) ≢ s.myd.o_ts)
    → Returns (λ _ _. Unit) (begin_tx (es ++ e ∷ []) s)
unfolding begin_tx wait_for_conflicting_txn
begin_tx-Returns t es e s ready gone =
    Returns-and_then (λ _ _. Unit) (λ _ _. Unit) _ (λ _. count_attempt) waited (λ _ s' h. h)
  where
    waited :
        Returns
          (λ _ _. Unit)
          (if ltb 0 s.myd.attempt
            then (if conflict_known (clear_logs s)
                then wait_while_announced (es ++ e ∷ []) (clear_logs s)
                else failed)
            else ok tt (clear_logs s))
    waited = elim (Bool-cases (ltb 0 s.myd.attempt)) [
      | inl again ↦
          let known : conflict_known (clear_logs s) ≡ true =
            conflict_known_of_die (clear_logs s) (ready.again (ground arith)) in
          rw (again, known) (wait_while_announced-Returns es e (clear_logs s) gone)
      | inr first ↦ rw first tt
    ]

module _ (t : ℕ) where
  Running-env :
      (e : Env) (s : State) → Respects t e → Running t s → Running t (set_shared s (e s.shared))
  Running-env e s r (order, kept, on, tame) = (
    record {
      who = order.who;
      range = order.range;
      words = r.lock_words s.shared order.words;
      tracked = Tracked-env t none_skipped e s.shared r order.tracked;
      runs = λ none. r.clock_runs s.shared (order.runs none);
      own = order.own;
    },
    Kept-env t none_skipped e s.shared r kept,
    on,
    tame,
  )

  wait_while_announced-Running :
      (es : List Env) (s : State)
      → All (Respects t) es
      → Running t s
      → Post (λ _. Running t) (λ _. ⊥) (wait_while_announced es s)
  unfolding wait_while_announced
  wait_while_announced-Running [] s quiet h =
      elim (Bool-cases (s.shared.txn_ts (ts_slot s.myd.otid) == s.myd.o_ts)) [
        | inl still ↦ rw still tt
        | inr over ↦ rw over h
      ]
  wait_while_announced-Running (e ∷ es) s quiet h =
      elim (Bool-cases (s.shared.txn_ts (ts_slot s.myd.otid) == s.myd.o_ts)) [
        | inl still ↦ rw still (
            wait_while_announced-Running es (set_shared s (e s.shared)) quiet.1
              (Running-env e s quiet.0 h))
        | inr over ↦ rw over h
      ]

  -- With empty logs, a thread that holds no lock is in good order.
  cleared-Running : (s : State) → Ready t s → Running t (clear_logs s)
  unfolding logs_write logs_read
  cleared-Running s ready = (
    record {
      who = ready.who;
      range = ready.range;
      words = ready.words;
      tracked = record {
        writes = λ w _ held. absurd (ready.none.no_write w held);
        owns = λ w _ logged. absurd (ground (arith, logged));
        reads = λ w _ p here. ground (arith, ready.none.no_read w p, here);
        entries = tt;
      };
      runs = ready.runs;
      own = ready.own;
    },
    record { kept = λ w _ p logged. absurd (ground (arith, logged)) },
    ready.inside,
    tt,
  )

  pub begin_tx-Running :
      (rounds : List Env) (s : State)
      → All (Respects t) rounds
      → Ready t s
      → Post (λ _. Running t) (λ _. ⊥) (begin_tx rounds s)
  unfolding begin_tx wait_for_conflicting_txn
  begin_tx-Running rounds s quiet ready =
      bind (λ _. Running t) (λ _. Running t) (λ _. ⊥) _ (λ _. count_attempt) waited (λ _ s' h. h)
    where
      waited :
          Post
            (λ _. Running t)
            (λ _. ⊥)
            (if ltb 0 s.myd.attempt
              then (if conflict_known (clear_logs s)
                  then wait_while_announced rounds (clear_logs s)
                  else failed)
              else ok tt (clear_logs s))
      waited = elim (Bool-cases (ltb 0 s.myd.attempt)) [
        | inl again ↦ rw again (elim (Bool-cases (conflict_known (clear_logs s))) [
          | inl known ↦
              rw known
                (wait_while_announced-Running rounds (clear_logs s) quiet (cleared-Running s ready))
          | inr unknown ↦ rw unknown tt
        ])
        | inr first ↦ rw first (cleared-Running s ready)
      ]
