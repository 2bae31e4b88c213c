-- ===== src/TwoPlDist/Program/Loop.antt =====
-- stms/2PLUndoDist.hpp: `STM::transaction`, from attempt to attempt.
use plsf.Prelude.{
  ℕ, ◌<◌, ◌≡◌, ◌≢◌, refl, true, false, List, [], ◌∷◌, ◌++◌, ap, subst, sym, ◌∙◌, All, ◌⊎◌, inl, inr,
  if◌then◌else◌,
}
use mathlib.Core.Bool.{false≢true}
use plsf.Config.{registry_max_threads, num_rwl}
use plsf.Stm.Program.{Program, Attempt}
use plsf.Stm.Indicator.{arrived}
use plsf.TwoPlDist.State.{
  Shared, State, Outcome, ok, restart, failed, unfinished, set_shared, unlocked,
}
use plsf.TwoPlDist.Locks.Held.{HoldsNone, SameLocks-HoldsNone}
use plsf.TwoPlDist.Locks.Empty.{threads}
use plsf.TwoPlDist.Locks.Taking.{InTheWay}
use plsf.TwoPlDist.Program.{run, try_once, attempts, transaction, jump_back}
use plsf.TwoPlDist.Program.Logs.{Restarted, Ends}
use plsf.TwoPlDist.Program.Following.{Committed, try_once-Ends}

-- The other threads give the thread no lock, and do not unregister it.
abbrev pub Respects : ℕ → (Shared → Shared) × Attempt → Type 0
Respects t o = (g : Shared) → HoldsNone t g → HoldsNone t (o.0 g)

-- No lock is held and no other thread reads.
abbrev pub AllFree : ℕ → Shared → Type 0
AllFree t g =
    ((l : ℕ) → g.wlocks l ≡ unlocked)
    × ((w u : ℕ) → w < num_rwl → u < threads g → u ≢ t → arrived g.read_indicators w u ≡ false)

-- What is so when the transaction returns. It never jumps out.
abbrev pub Returned : (State → Type 0) → Outcome ℕ → Type 0
Returned P (ok v s) = P s
Returned P (restart s) = ⊥
Returned P failed = Unit
Returned P unfinished = Unit

Over : Outcome ℕ → Type 0
Over out = (out ≡ failed) ⊎ ((v : ℕ) × (s : State) × (out ≡ ok v s))

AllFree-InTheWay : (t : ℕ) (g : Shared) → AllFree t g → InTheWay t g → ⊥
AllFree-InTheWay t g f (inl w) = w.1 (f.0 w.0)
AllFree-InTheWay t g f (inr w) = absurd (false≢true (sym (f.1 w.0 w.1 w.2 w.3 w.4) ∙ w.5))

-- The state between two attempts.
record Between (t : ℕ) (s : State) : Type 0 where
  active : s.active ≡ true
  tid : s.myd.tid ≡ t
  none : HoldsNone t s.shared

abbrev Outside : ℕ → State → Type 0
Outside t s = HoldsNone t s.shared × (s.myd.tid ≡ t) × (s.active ≡ false)

module _ (t : ℕ) (p : Program) (h : t < registry_max_threads) where
  once :
      (o : Attempt) (s : State)
      → Between t s
      → Ends (Committed t s.shared o p) (Restarted t s.shared) (try_once o p s)
  once o s b =
      subst (λ z. Ends (Committed z s.shared o p) (Restarted z s.shared) (try_once o p s)) b.tid
        (try_once-Ends o p s b.active (subst (λ z. z < registry_max_threads) (sym b.tid) h)
          (subst (λ z. HoldsNone z s.shared) (sym b.tid) b.none))

  Between-Restarted : (g : Shared) (s : State) → HoldsNone t g → Restarted t g s → Between t s
  Between-Restarted g s n r = record {
    active = r.active;
    tid = r.tid;
    none = SameLocks-HoldsNone t g s.shared h r.locks n;
  }

  Returned-jump :
      (o : Attempt) (g : Shared) (out : Outcome ℕ) (again : State → Outcome ℕ)
      → HoldsNone t g
      → Ends (Committed t g o p) (Restarted t g) out
      → ((s' : State) → Between t s' → Returned (Outside t) (again s'))
      → Returned (Outside t) (jump_back out again)
  Returned-jump o g (ok v s') again n c f = (SameLocks-HoldsNone t g s'.shared h c.0 n, c.2, c.3)
  Returned-jump o g (restart s') again n r f = f s' (Between-Restarted g s' n r)
  Returned-jump o g failed again n q f = tt
  Returned-jump o g unfinished again n q f = tt

  waited : (Shared → Shared) × Attempt → State → State
  waited o s = set_shared s (o.0 s.shared)

  Between-waited :
      (o : (Shared → Shared) × Attempt) (s : State)
      → Respects t o
      → Between t s
      → Between t (waited o s)
  unfolding waited
  Between-waited o s r b = record { active = b.active; tid = b.tid; none = r s.shared b.none }

  Returned-attempts :
      (os : List ((Shared → Shared) × Attempt)) (s : State)
      → Between t s
      → All (Respects t) os
      → Returned (Outside t) (attempts os p s)
  unfolding attempts waited
  Returned-attempts [] s b r = tt
  Returned-attempts (o ∷ os) s b r =
      let w = Between-waited o s r.0 b in
      Returned-jump o.1 (o.0 s.shared) (try_once o.1 p (waited o s)) _ w.none
        (once o.1 (waited o s) w) (λ s' b'. Returned-attempts os s' b' r.1)

  Over-jump :
      (o : Attempt) (g : Shared) (out : Outcome ℕ) (again : State → Outcome ℕ)
      → HoldsNone t g
      → Ends (Committed t g o p) (Restarted t g) out
      → ((s' : State) → Between t s' → AllFree t g ⊎ Over (again s'))
      → Over (jump_back out again)
  unfolding Over
  Over-jump o g (ok v s') again n c f = inr (v, s', refl)
  Over-jump o g (restart s') again n r f = elim (f s' (Between-Restarted g s' n r)) [
    | inl z ↦ absurd (AllFree-InTheWay t g z r.in_the_way)
    | inr w ↦ w
  ]
  Over-jump o g failed again n q f = inl refl
  Over-jump o g unfinished again n q f = absurd q

  Over-attempts :
      (os : List ((Shared → Shared) × Attempt)) (o : (Shared → Shared) × Attempt) (s : State)
      → Between t s
      → All (Respects t) os
      → Respects t o
      → ((g : Shared) → AllFree t (o.0 g))
      → Over (attempts (os ++ o ∷ []) p s)
  unfolding attempts waited
  Over-attempts [] o s b r f z =
      let w = Between-waited o s f b in
      Over-jump o.1 (o.0 s.shared) (try_once o.1 p (waited o s)) _ w.none (once o.1 (waited o s) w)
        (λ s' b'. inl (z s.shared))
  Over-attempts (x ∷ os) o s b r f z =
      let w = Between-waited x s r.0 b in
      Over-jump x.1 (x.0 s.shared) (try_once x.1 p (waited x s)) _ w.none (once x.1 (waited x s) w)
        (λ s' b'. inr (Over-attempts os o s' b' r.1 f z))

transaction-step :
    (os : List ((Shared → Shared) × Attempt)) (nested : Attempt) (p : Program) (s : State)
    → s.active ≡ false
    → transaction os nested p s ≡ attempts os p (record s { active = true })
unfolding transaction
transaction-step os nested p s e =
    ap (λ z. if z then run p nested 0 s else attempts os p (record s { active = true })) e

begun : (s : State) → HoldsNone s.myd.tid s.shared → Between s.myd.tid (record s { active = true })
begun s n = record { active = refl; tid = refl; none = n }

-- A transaction of a registered thread that is in no other transaction and holds no lock, where the other
-- threads give it none: when it returns, it holds no lock and is outside again. It never jumps out.
pub dist_transaction-Outside :
    (os : List ((Shared → Shared) × Attempt)) (nested : Attempt) (p : Program) (s : State)
    → s.myd.tid < registry_max_threads
    → s.active ≡ false
    → HoldsNone s.myd.tid s.shared
    → All (Respects s.myd.tid) os
    → Returned
        (λ s'. HoldsNone s.myd.tid s'.shared × (s'.myd.tid ≡ s.myd.tid) × (s'.active ≡ false))
        (transaction os nested p s)
dist_transaction-Outside os nested p s h a n r =
    subst
      (Returned
        (λ s'. HoldsNone s.myd.tid s'.shared × (s'.myd.tid ≡ s.myd.tid) × (s'.active ≡ false)))
      (sym (transaction-step os nested p s a))
      (Returned-attempts s.myd.tid p h os (record s { active = true }) (begun s n) r)

-- Such a transaction returns, or fails an assert, at the latest in an attempt before which the other threads
-- free all locks.
pub dist_transaction-Over :
    (os : List ((Shared → Shared) × Attempt)) (o : (Shared → Shared) × Attempt) (nested : Attempt)
    (p : Program) (s : State)
    → s.myd.tid < registry_max_threads
    → s.active ≡ false
    → HoldsNone s.myd.tid s.shared
    → All (Respects s.myd.tid) os
    → Respects s.myd.tid o
    → ((g : Shared) → AllFree s.myd.tid (o.0 g))
    → (transaction (os ++ o ∷ []) nested p s ≡ failed)
      ⊎ ((v : ℕ) × (s' : State) × (transaction (os ++ o ∷ []) nested p s ≡ ok v s'))
unfolding Over
dist_transaction-Over os o nested p s h a n r f g =
    subst Over (sym (transaction-step (os ++ o ∷ []) nested p s a))
      (Over-attempts s.myd.tid p h os o (record s { active = true }) (begun s n) r f g)
