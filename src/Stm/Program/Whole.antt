-- ===== src/Stm/Program/Whole.antt =====
-- stms/2PLSF.hpp: `STM::transaction` as a whole, over all its attempts.
use plsf.Prelude.{
  ℕ, ◌<◌, ◌≡◌, ◌≢◌, refl, Bool, true, false, List, [], ◌∷◌, All, arith, update_self, subst,
}
use plsf.Config.{registry_max_threads, num_rwl, no_timestamp}
use plsf.Stm.State.{Shared, State, Outcome, ok, restart, spinning, failed, ts_slot, ◌>>◌}
use plsf.Stm.Indicator.{arrived}
use plsf.Stm.Conflict.Minimum.{IsLockWord}
use plsf.Stm.Locks.Rely.{Respects, Post, bind}
use plsf.Stm.Locks.Frame.{Post-mono, Post-weaken}
use plsf.Stm.Txn.{begin_tx, end_tx, free_all}
use plsf.Stm.Program.{Program, Attempt, run, attempts, transaction}
use plsf.Stm.Program.TwoPhase.{HoldsNone, Running, Aborted, release_locks-HoldsNone}
use plsf.Stm.Program.Strict.{Stopped, run-Running}
use plsf.Stm.Program.Commit.{Ready, begin_tx-Running}

-- A thread outside any transaction.
pub record Idle (t : ℕ) (s : State) : Type 0 where
  pub who : s.myd.tid ≡ t
  pub range : t < registry_max_threads
  pub none : HoldsNone t s.shared
  pub words : (w : ℕ) → IsLockWord (s.shared.wlocks w)
  pub silent : s.shared.txn_ts (ts_slot t) ≡ no_timestamp
  pub no_ts : s.myd.my_ts ≡ no_timestamp
  pub fresh : s.myd.attempt ≡ 0
  pub outside : s.active ≡ false

-- In every wait of the attempt the other threads keep to the rules of `Respects`.
pub record Quiet (t : ℕ) (o : Attempt) : Type 0 where
  pub at_begin : All (Respects t) o.at_begin
  pub rounds : (n : ℕ) → All (Respects t) (o.rounds n)

pub free_all_frame :
    (C : Shared → Type 0) (xs : List ℕ) (g : Shared)
    → ((m : ℕ → Bool) → C (record g { allocated = m }))
    → C (free_all xs g)
unfolding free_all
free_all_frame C [] g reach = reach g.allocated
free_all_frame C (x ∷ xs) g reach = free_all_frame C xs _ reach

module _ (t : ℕ) where
  pub end_tx-Idle : (s : State) → Running t s → Idle t (end_tx s)
  unfolding end_tx
  end_tx-Idle s (order, kept, on, tame) =
      let (none, words) = release_locks-HoldsNone t s s.shared order in
      record {
        who = order.who;
        range = order.range;
        none = record {
          no_write =
              free_all_frame (λ g. (w : ℕ) → g.wlocks w ≢ t) s.myd.flog _ (λ m. none.no_write);
          no_read =
              free_all_frame (λ g. (w : ℕ) → w < num_rwl → arrived g.read_indicators w t ≡ false)
                s.myd.flog _ (λ m. none.no_read);
        };
        words = free_all_frame (λ g. (w : ℕ) → IsLockWord (g.wlocks w)) s.myd.flog _ (λ m. words);
        silent =
            subst (λ u. (end_tx s).shared.txn_ts (ts_slot u) ≡ no_timestamp) order.who
              (update_self _ (ts_slot s.myd.tid) no_timestamp);
        no_ts = refl;
        fresh = refl;
        outside = refl;
      }

  pub Ready-of_Aborted : (s : State) → Aborted t s → Ready t s
  Ready-of_Aborted s (who, none, words, die, on, range, own) = record {
    who = who;
    range = range;
    none = none;
    words = words;
    runs = λ e. absurd (die.stamped e);
    own = own;
    inside = on;
    again = λ _. die;
  }

  pub Ready-of_Idle :
      (s : State)
      → Idle t s
      → s.shared.conflict_clock < no_timestamp
      → Ready t (record s { active = true })
  Ready-of_Idle s idle left = record {
    who = idle.who;
    range = idle.range;
    none = idle.none;
    words = idle.words;
    runs = λ _. left;
    own = ground (arith, idle.no_ts);
    inside = refl;
    again = λ more. ground (arith, idle.fresh, more);
  }

  attempts-Idle :
      (os : List Attempt) (p : Program) (s : State)
      → All (Quiet t) os
      → Ready t s
      → Post (λ _. Idle t) (λ _. ⊥) (attempts os p s)
  unfolding attempts
  attempts-Idle [] p s quiet ready = tt
  attempts-Idle (o ∷ os) p s quiet ready =
      go ((begin_tx o.at_begin >> run p o 0) s)
        (bind (λ _. Running t) (λ _. Running t) (Aborted t) (begin_tx o.at_begin s) (λ _. run p o 0)
          (Post-mono (λ _. Running t) (Aborted t) _
            (begin_tx-Running t o.at_begin s quiet.0.at_begin ready))
          (λ _ s' h.
            Post-weaken (λ _. Running t) (λ _. Running t) (Stopped t) (Aborted t) (run p o 0 s')
              (λ _ _ k. k) (λ _ k. k.0) (run-Running t p o 0 s' quiet.0.rounds h)))
        (λ s' h. attempts-Idle os p s' quiet.1 (Ready-of_Aborted s' h))
    where
      go :
          (m : Outcome ℕ)
          → Post (λ _. Running t) (Aborted t) m
          → ((s' : State) → Aborted t s' → Post (λ _. Idle t) (λ _. ⊥) (attempts os p s'))
          → Post
              (λ _. Idle t)
              (λ _. ⊥)
              (elim m [
                | ok v s' ↦ ok v (end_tx s')
                | restart s' ↦ attempts os p s'
                | spinning ↦ spinning
                | failed ↦ failed
              ])
      go (ok v s') h ih = end_tx-Idle s' h
      go (restart s') h ih = ih s' h
      go spinning h ih = tt
      go failed h ih = tt

-- A transaction of an idle thread that returns leaves the thread idle: after any user code and any
-- number of attempts, among other threads that respect its locks and with timestamps left, it holds
-- no lock, its announcement is withdrawn, its counter of attempts and its timestamp are reset, and
-- the lock words are well formed. It does not jump out of its own frame.
pub transaction-Idle :
    (t : ℕ) (o : Attempt) (os : List Attempt) (p : Program) (s : State)
    → Quiet t o
    → All (Quiet t) os
    → Idle t s
    → s.shared.conflict_clock < no_timestamp
    → Post (λ _. Idle t) (λ _. ⊥) (transaction o os p s)
unfolding transaction
transaction-Idle t o os p s quiet quiets idle left = rw (idle.outside) (
    attempts-Idle t (o ∷ os) p (record s { active = true }) (quiet, quiets)
      (Ready-of_Idle t s idle left))
