-- ===== src/TwoPlDist/Program/Logs.antt =====
-- stms/2PLUndoDist.hpp: the undo log, and what is so of a running transaction and of its result.
use plsf.Prelude.{
  ℕ, ◌≡◌, ◌≢◌, refl, arith, true, List, [], ◌∷◌, ◌++◌, update, update_lem, ap, ◌∙◌, All, ℕ_discrete,
}
use plsf.Stm.State.{WriteSetEntry}
use plsf.TwoPlDist.State.{
  Shared, Deletable, State, Outcome, ok, restart, failed, unfinished, Cmd, and_then,
}
use plsf.TwoPlDist.Locks.Held.{Held, SameLocks}
use plsf.TwoPlDist.Locks.Taking.{InTheWay}
use plsf.TwoPlDist.Txn.{free, rollback, reclaim_all}

-- The undo log.
rollback-append :
    (ws : List WriteSetEntry) (x : WriteSetEntry) (mem : ℕ → ℕ)
    → rollback (ws ++ x ∷ []) mem ≡ rollback ws (update mem x.addr x.old)
unfolding rollback
rollback-append [] x mem = refl
rollback-append (y ∷ ws) x mem = rw (rollback-append ws x mem) refl

pub rollback_same :
    (ws : List WriteSetEntry) (a : ℕ) (mem mem' : ℕ → ℕ)
    → mem' a ≡ mem a
    → rollback ws mem' a ≡ rollback ws mem a
unfolding rollback
rollback_same [] a mem mem' e = e
rollback_same (x ∷ ws) a mem mem' e = ground (
  arith,
  update_lem (rollback ws mem') x.addr x.old a,
  update_lem (rollback ws mem) x.addr x.old a,
  rollback_same ws a mem mem' e,
)

-- An entry of the value of a word takes back what is then stored in the word.
pub rollback_store :
    (ws : List WriteSetEntry) (mem mem' : ℕ → ℕ) (addr a : ℕ)
    → (addr ≢ a → mem' a ≡ mem a)
    → rollback (ws ++ record { addr = addr; old = mem addr } ∷ []) mem' a ≡ rollback ws mem a
rollback_store ws mem mem' addr a f =
    ap (λ m. m a) (rollback-append ws (record { addr = addr; old = mem addr }) mem')
    ∙ rollback_same ws a mem _ (restored f)
  where
    restored : (addr ≢ a → mem' a ≡ mem a) → update mem' addr (mem addr) a ≡ mem a
    restored f = elim (ℕ_discrete addr a) [
      | yes e ↦ ground (arith, update_lem mem' addr (mem addr) a, ap mem e)
      | no n ↦ ground (arith, update_lem mem' addr (mem addr) a, f n)
    ]

-- The transaction of thread `t` began at the shared state `b`: it holds only logged locks, the undo log
-- takes back every word, and the allocations it logged are plain blocks.
pub record Running (t : ℕ) (b : Shared) (s : State) : Type 0 where
  pub active : s.active ≡ true
  pub tid : s.myd.tid ≡ t
  pub held : Held t b s.myd.write_set s.myd.read_set s.shared
  pub undoes : (a : ℕ) → rollback s.myd.write_set s.shared.mem a ≡ b.mem a
  pub plain : All (λ x. x.reclaim ≡ free) s.myd.alog

-- After an abort locks and memory are as at the start, where something stood in the way.
pub record Restarted (t : ℕ) (b : Shared) (s : State) : Type 0 where
  pub active : s.active ≡ true
  pub tid : s.myd.tid ≡ t
  pub locks : SameLocks b s.shared
  pub mem : (a : ℕ) → s.shared.mem a ≡ b.mem a
  pub in_the_way : InTheWay t b

-- What is so of the result, returned or restarted.
abbrev pub Ends : {A : Type 0} → (A → State → Type 0) → (State → Type 0) → Outcome A → Type 0
Ends P Q (ok v s) = P v s
Ends P Q (restart s) = Q s
Ends P Q failed = Unit
Ends P Q unfinished = ⊥

pub Ends-and_then :
    {A B : Type 0} (P : A → State → Type 0) (R : B → State → Type 0) (Q : State → Type 0)
    (o : Outcome A) (k : A → Cmd B)
    → Ends P Q o
    → ((v : A) (s : State) → P v s → Ends R Q (k v s))
    → Ends R Q (and_then o k)
Ends-and_then P R Q (ok v s) k p f = f v s p
Ends-and_then P R Q (restart s) k p f = p
Ends-and_then P R Q failed k p f = tt
Ends-and_then P R Q unfinished k p f = p

pub reclaim_all_keeps :
    (xs : List Deletable) (g : Shared)
    → All (λ x. x.reclaim ≡ free) xs
    → ((reclaim_all xs g).wlocks ≡ g.wlocks)
      × ((reclaim_all xs g).read_indicators ≡ g.read_indicators)
      × ((reclaim_all xs g).max_tid ≡ g.max_tid)
      × ((reclaim_all xs g).mem ≡ g.mem)
unfolding reclaim_all
reclaim_all_keeps [] g p = (refl, refl, refl, refl)
reclaim_all_keeps (x ∷ xs) g p = rw (p.0) (reclaim_all_keeps xs (free x.obj g) p.1)
