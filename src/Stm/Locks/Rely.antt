-- ===== src/Stm/Locks/Rely.antt =====
-- stms/2PLSF.hpp: what one thread relies on while the others run, and the rule for its waits.
use plsf.Prelude.{◌<◌, ℕ, ◌≡◌, ◌↔◌, List, [], ◌∷◌, Bool, true, false, All}
use plsf.Config.{no_timestamp}
use plsf.Index.{addr2write_idx, write_idx2read_idx}
use plsf.Stm.State.{
  Shared, State, Outcome, ok, restart, spinning, failed, Cmd, Env, ts_slot, set_shared, and_then,
}
use plsf.Stm.Conflict.Minimum.{IsLockWord}
use plsf.Stm.Locks.{Verdict, acquired, die, wait, wait_lock}

-- The rounds of the other threads leave the thread's own words of the read-indicator and its own
-- announcement alone, neither take nor release a lock in its name, leave the memory under its
-- write locks alone, write a tid or UNLOCKED to a lock word, and do not exhaust the clock.
pub record Respects (tid : ℕ) (e : Env) : Type 0 where
  pub same_bits :
      (g : Shared) (w : ℕ)
      → (e g).read_indicators (write_idx2read_idx w tid)
        ≡ g.read_indicators (write_idx2read_idx w tid)
  pub same_ts : (g : Shared) → (e g).txn_ts (ts_slot tid) ≡ g.txn_ts (ts_slot tid)
  pub same_locks : (g : Shared) (w : ℕ) → ((e g).wlocks w ≡ tid) ↔ (g.wlocks w ≡ tid)
  pub same_mem : (g : Shared) (a : ℕ) → g.wlocks (addr2write_idx a) ≡ tid → (e g).mem a ≡ g.mem a
  pub clock_runs :
      (g : Shared) → g.conflict_clock < no_timestamp → (e g).conflict_clock < no_timestamp
  pub lock_words :
      (g : Shared) → ((w : ℕ) → IsLockWord (g.wlocks w)) → (w : ℕ) → IsLockWord ((e g).wlocks w)

-- What holds of a run that ends: `Q` if it returns, `R` if it restarts the transaction.
abbrev pub Post : {A : Type 0} → (A → State → Type 0) → (State → Type 0) → Outcome A → Type 0
Post Q R (ok a s) = Q a s
Post Q R (restart s) = R s
Post Q R spinning = Unit
Post Q R failed = Unit

pub bind :
    {A B : Type 0} (P : A → State → Type 0) (Q : B → State → Type 0) (R : State → Type 0)
    (m : Outcome A) (k : A → Cmd B)
    → Post P R m
    → ((a : A) (s : State) → P a s → Post Q R (k a s))
    → Post Q R (and_then m k)
bind P Q R (ok a s) k h next = next a s h
bind P Q R (restart s) k h next = h
bind P Q R spinning k h next = tt
bind P Q R failed k h next = tt

-- The run returns, and `Q` holds of its result: it neither restarts, nor waits, nor fails.
abbrev pub Returns : {A : Type 0} → (A → State → Type 0) → Outcome A → Type 0
Returns Q (ok a s) = Q a s
Returns Q (restart s) = ⊥
Returns Q spinning = ⊥
Returns Q failed = ⊥

pub Returns-and_then :
    {A B : Type 0} (P : A → State → Type 0) (Q : B → State → Type 0) (m : Outcome A) (k : A → Cmd B)
    → Returns P m
    → ((a : A) (s : State) → P a s → Returns Q (k a s))
    → Returns Q (and_then m k)
Returns-and_then P Q (ok a s) k h next = next a s h
Returns-and_then P Q (restart s) k h next = absurd h
Returns-and_then P Q spinning k h next = absurd h
Returns-and_then P Q failed k h next = absurd h

-- What one pass through a waiting loop must do: keep `P` while it waits, and reach `Q` at the end.
abbrev pub RoundPost : (State → Type 0) → (Bool → State → Type 0) → Verdict → Type 0
RoundPost P Q (acquired s) = Q true s
RoundPost P Q (die s) = Q false s
RoundPost P Q (wait s) = P s

module _ (P : State → Type 0) (Q : Bool → State → Type 0) (R : State → Type 0)
    (round : State → Verdict) (pass : (s : State) → P s → RoundPost P Q (round s)) where
  pub wait_lock_lem :
      (es : List Env) (s : State)
      → All (λ e. (s : State) → P s → P (set_shared s (e s.shared))) es
      → P s
      → Post Q R (wait_lock round es s)
  unfolding wait_lock
  wait_lock_lem [] s keep p = last (round s) (pass s p)
    where
      last :
          (v : Verdict)
          → RoundPost P Q v
          → Post Q R
              (elim v [ acquired s' ↦ ok true s' | die s' ↦ ok false s' | wait s' ↦ spinning ])
      last (acquired s') h = h
      last (die s') h = h
      last (wait s') h = tt
  wait_lock_lem (e ∷ es) s keep p =
      go (round s) (pass s p)
        (λ s' h. wait_lock_lem es (set_shared s' (e s'.shared)) keep.1 (keep.0 s' h))
    where
      go :
          (v : Verdict)
          → RoundPost P Q v
          → ((s' : State) → P s' → Post Q R (wait_lock round es (set_shared s' (e s'.shared))))
          → Post Q R (elim v [
            | acquired s' ↦ ok true s'
            | die s' ↦ ok false s'
            | wait s' ↦ wait_lock round es (set_shared s' (e s'.shared))
          ])
      go (acquired s') h ih = h
      go (die s') h ih = h
      go (wait s') h ih = ih s' h
