-- ===== src/TwoPlUndo/Program/Loop.antt =====
-- stms/2PLUndo.hpp: the loop of `STM::transaction`, from attempt to attempt.
use plsf.Prelude.{
  ℕ, ◌+◌, ◌%◌, ◌^◌, ◌≤◌, ◌<◌, ◌≡◌, refl, arith, true, false, List, [], ◌∷◌, ◌++◌, ap, subst, sym,
  ◌∙◌, All, ltb, ◌⊎◌, inl, inr, Bool-cases,
}
use plsf.Stm.Program.{Program, Attempt}
use plsf.TwoPlUndo.LockWord.{get_write_state, decrement}
use plsf.TwoPlUndo.State.{Shared, State, OpData, Outcome, ok, aborted, failed, unfinished, and_then}
use plsf.TwoPlUndo.Program.{try_once, attempts, transaction, backoff, enter_tx, leave_tx, retry}
use plsf.TwoPlUndo.Program.Attempted.{Attempted, try_once-Attempted}

-- Thread `t` holds none of the locks, whose words are in order.
abbrev pub HoldsNone : ℕ → Shared → Type 0
HoldsNone t g = (l : ℕ) → (get_write_state (g.locks l) ≤ 56) × (decrement (g.locks l) t ≡ 0)

-- The other threads leave that so.
abbrev pub Respects : ℕ → (Shared → Shared) × Attempt → Type 0
Respects t o = (g : Shared) → HoldsNone t g → HoldsNone t (o.0 g)

backoff_tid : (n : ℕ) (d : OpData) → (backoff n d).tid ≡ d.tid
unfolding backoff
backoff_tid n d = elim (Bool-cases (ltb n 2)) [ inl e ↦ rw e refl | inr e ↦ rw e refl ]

-- The loop between two attempts.
record Between (t : ℕ) (s : State) : Type 0 where
  active : s.active ≡ true
  tid : s.myd.tid ≡ t
  none : HoldsNone t s.shared

waited : (Shared → Shared) × Attempt → ℕ → State → State
waited o n s = record s { shared = o.0 s.shared; myd = backoff n s.myd }

Between-waited :
    (t : ℕ) (o : (Shared → Shared) × Attempt) (n : ℕ) (s : State)
    → Respects t o
    → Between t s
    → Between t (waited o n s)
unfolding waited
Between-waited t o n s r b = record {
  active = b.active;
  tid = backoff_tid n s.myd ∙ b.tid;
  none = r s.shared b.none;
}

HoldsNone-same :
    (t : ℕ) (g g' : Shared) → ((l : ℕ) → g'.locks l ≡ g.locks l) → HoldsNone t g → HoldsNone t g'
HoldsNone-same t g g' e h l = rw (e l) (h l)

Attempted-Between :
    (t : ℕ) (o : Attempt) (p : Program) (s : State)
    → t < 56
    → Between t s
    → Attempted o p s (try_once o p s)
Attempted-Between t o p s h b =
    try_once-Attempted o p s b.active (subst (λ z. z < 56) (sym b.tid) h) (λ l. (b.none l).0)
      (λ l. ap (decrement (s.shared.locks l)) b.tid ∙ (b.none l).1)

-- What is so when the transaction returns. It throws nothing.
abbrev pub Returned : (State → Type 0) → Outcome ℕ → Type 0
Returned P (ok v s) = P s
Returned P (aborted s) = ⊥
Returned P failed = Unit
Returned P unfinished = Unit

Over : Outcome ℕ → Type 0
Over out = (out ≡ failed) ⊎ ((v : ℕ) × (s : State) × (out ≡ ok v s))

module _ (t : ℕ) (p : Program) (h : t < 56) where
  Returned-retry :
      (o : Attempt) (s : State) (out : Outcome ℕ) (again : State → Outcome ℕ)
      → Between t s
      → Attempted o p s out
      → ((s' : State) → Between t s' → Returned (Between t) (again s'))
      → Returned (Between t) (retry out again)
  unfolding Attempted
  Returned-retry o s (ok v s') again b q f = record {
    active = q.2.1;
    tid = q.2.0 ∙ b.tid;
    none = HoldsNone-same t s.shared s'.shared q.0 b.none;
  }
  Returned-retry o s (aborted s') again b q f = f s' (record {
    active = q.3.1;
    tid = q.3.0 ∙ b.tid;
    none = HoldsNone-same t s.shared s'.shared q.0 b.none;
  })
  Returned-retry o s failed again b q f = tt
  Returned-retry o s unfinished again b q f = absurd q

  Returned-attempts :
      (os : List ((Shared → Shared) × Attempt)) (n : ℕ) (s : State)
      → Between t s
      → All (Respects t) os
      → Returned (Between t) (attempts os n p s)
  unfolding attempts waited
  Returned-attempts [] n s b r = tt
  Returned-attempts (o ∷ os) n s b r =
      let w = Between-waited t o n s r.0 b in
      Returned-retry o.1 (waited o n s) (try_once o.1 p (waited o n s)) _ w
        (Attempted-Between t o.1 p (waited o n s) h w)
        (λ s' b'. Returned-attempts os ((n + 1) % 2 ^ 64) s' b' r.1)

  -- With a last attempt that finds the locks free, the loop ends.
  Over-retry :
      (o : Attempt) (s : State) (out : Outcome ℕ) (again : State → Outcome ℕ)
      → Between t s
      → Attempted o p s out
      → ((s' : State) → Between t s' → ((l : ℕ) → s.shared.locks l ≡ 0) ⊎ Over (again s'))
      → Over (retry out again)
  unfolding Attempted Over
  Over-retry o s (ok v s') again b q f = inr (v, s', refl)
  Over-retry o s (aborted s') again b q f =
      elim (f s' (record {
        active = q.3.1;
        tid = q.3.0 ∙ b.tid;
        none = HoldsNone-same t s.shared s'.shared q.0 b.none;
      })) [ inl z ↦ absurd (q.2.1 (z q.2.0)) | inr w ↦ w ]
  Over-retry o s failed again b q f = inl refl
  Over-retry o s unfinished again b q f = absurd q

  Over-attempts :
      (os : List ((Shared → Shared) × Attempt)) (o : (Shared → Shared) × Attempt) (n : ℕ)
      (s : State)
      → Between t s
      → All (Respects t) os
      → Respects t o
      → ((g : Shared) (l : ℕ) → (o.0 g).locks l ≡ 0)
      → Over (attempts (os ++ o ∷ []) n p s)
  unfolding attempts waited
  Over-attempts [] o n s b r f z =
      let w = Between-waited t o n s f b in
      Over-retry o.1 (waited o n s) (try_once o.1 p (waited o n s)) _ w
        (Attempted-Between t o.1 p (waited o n s) h w) (λ s' b'. inl (z s.shared))
  Over-attempts (x ∷ os) o n s b r f z =
      let w = Between-waited t x n s r.0 b in
      Over-retry x.1 (waited x n s) (try_once x.1 p (waited x n s)) _ w
        (Attempted-Between t x.1 p (waited x n s) h w)
        (λ s' b'. inr (Over-attempts os o ((n + 1) % 2 ^ 64) s' b' r.1 f z))

outermost : (n : ℕ) → n ≡ 0 → ltb 0 n ≡ false
outermost n e = ground (arith, e)

Between-enter :
    (tx_type : ℕ) (s : State)
    → HoldsNone s.myd.tid s.shared
    → Between s.myd.tid (enter_tx tx_type s)
Between-enter tx_type s n = record { active = refl; tid = refl; none = n }

abbrev left : Outcome ℕ → Outcome ℕ
left out = and_then out (λ v s'. ok v (leave_tx s'))

Returned-leave :
    (t : ℕ) (out : Outcome ℕ)
    → Returned (Between t) out
    → Returned (λ s'. HoldsNone t s'.shared × (s'.myd.tid ≡ t) × (s'.active ≡ false)) (left out)
Returned-leave t (ok v s) b = (b.none, b.tid, refl)
Returned-leave t (aborted s) b = b
Returned-leave t failed b = tt
Returned-leave t unfinished b = tt

Over-leave : (out : Outcome ℕ) → Over out → Over (left out)
unfolding Over
Over-leave out (inl e) = inl (ap left e)
Over-leave out (inr w) = inr (w.0, leave_tx w.1, ap left w.2)

-- A transaction of a thread in range that is in no other transaction and holds no lock, where the other
-- threads give it none: when it returns, it holds no lock and is outside again. It throws nothing.
pub transaction-HoldsNone :
    (os : List ((Shared → Shared) × Attempt)) (nested : Attempt) (p : Program) (tx_type : ℕ)
    (s : State)
    → s.myd.tid < 56
    → s.myd.nested_trans ≡ 0
    → HoldsNone s.myd.tid s.shared
    → All (Respects s.myd.tid) os
    → Returned
        (λ s'. HoldsNone s.myd.tid s'.shared × (s'.myd.tid ≡ s.myd.tid) × (s'.active ≡ false))
        (transaction os nested p tx_type s)
unfolding transaction
transaction-HoldsNone os nested p tx_type s h z n r = rw (outermost s.myd.nested_trans z) (
    Returned-leave s.myd.tid (attempts os 0 p (enter_tx tx_type s))
      (Returned-attempts s.myd.tid p h os 0 (enter_tx tx_type s) (Between-enter tx_type s n) r))

-- Such a transaction ends with its value, or fails an assert, at the latest in an attempt before which
-- the other threads free all locks.
pub transaction-Over :
    (os : List ((Shared → Shared) × Attempt)) (o : (Shared → Shared) × Attempt) (nested : Attempt)
    (p : Program) (tx_type : ℕ) (s : State)
    → s.myd.tid < 56
    → s.myd.nested_trans ≡ 0
    → HoldsNone s.myd.tid s.shared
    → All (Respects s.myd.tid) os
    → Respects s.myd.tid o
    → ((g : Shared) (l : ℕ) → (o.0 g).locks l ≡ 0)
    → (transaction (os ++ o ∷ []) nested p tx_type s ≡ failed)
      ⊎ ((v : ℕ) × (s' : State) × (transaction (os ++ o ∷ []) nested p tx_type s ≡ ok v s'))
unfolding transaction Over
transaction-Over os o nested p tx_type s h z n r f g = rw (outermost s.myd.nested_trans z) (
    Over-leave (attempts (os ++ o ∷ []) 0 p (enter_tx tx_type s))
      (Over-attempts s.myd.tid p h os o 0 (enter_tx tx_type s) (Between-enter tx_type s n) r f g))
