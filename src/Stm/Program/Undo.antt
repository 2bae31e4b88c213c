-- ===== src/Stm/Program/Undo.antt =====
-- stms/2PLSF.hpp: the undo log and `rollbackSingleEntry`.
use plsf.Prelude.{ℕ, ◌≡◌, refl, true, List, [], ◌∷◌, ◌++◌, All, arith, update, update_lem, ◌∙◌}
use plsf.Stm.State.{Shared, WriteSetEntry, Deletable, State, Env}
use plsf.Stm.Locks.Frame.{Aside, Steady}
use plsf.Stm.Txn.{rollback, rollback_single_entry}

-- Undoing one more store undoes it first.
rollback-append :
    (ws : List WriteSetEntry) (x : WriteSetEntry) (mem : ℕ → ℕ)
    → rollback (ws ++ x ∷ []) mem ≡ rollback ws (rollback_single_entry x mem)
unfolding rollback
rollback-append [] x mem = refl
rollback-append (y ∷ ws) x mem = rw (rollback-append ws x mem)

pub rollback_same :
    (ws : List WriteSetEntry) (a : ℕ) (mem mem' : ℕ → ℕ)
    → mem' a ≡ mem a
    → rollback ws mem' a ≡ rollback ws mem a
unfolding rollback rollback_single_entry
rollback_same [] a mem mem' e = e
rollback_same (x ∷ ws) a mem mem' e = ground (
  arith,
  update_lem (rollback ws mem') x.addr x.old a,
  update_lem (rollback ws mem) x.addr x.old a,
  rollback_same ws a mem mem' e,
)

-- An undo entry for the value that an address holds makes a store to it harmless.
pub rollback_store :
    (ws : List WriteSetEntry) (mem : ℕ → ℕ) (addr v a : ℕ)
    → rollback (ws ++ record { addr = addr; old = mem addr } ∷ []) (update mem addr v) a
      ≡ rollback ws mem a
unfolding rollback_single_entry
rollback_store ws mem addr v a =
    rw (rollback-append ws (record { addr = addr; old = mem addr }) (update mem addr v)) (
      rollback_same ws a mem _
        (ground (arith, update_lem (update mem addr v) addr (mem addr) a, update_lem mem addr v a)))

-- The rounds of the other threads do not write address `a`.
abbrev pub Leaves : ℕ → Env → Type 0
Leaves a e = (g : Shared) → (e g).mem a ≡ g.mem a

-- The undo log takes address `a` back to `v`, whatever is reclaimed on the way.
abbrev pub Undoes : ℕ → ℕ → (ℕ → ℕ) → List WriteSetEntry → List Deletable → Type 0
Undoes a v mem ws alog =
    (rollback ws mem a ≡ v) × All (λ x. (g : Shared) → (x.reclaim x.obj g).mem a ≡ g.mem a) alog

abbrev pub UndoesAside : ℕ → ℕ → Aside
UndoesAside a v mem ws alog flog attempt tid active = (active ≡ true) × Undoes a v mem ws alog

abbrev pub Undoable : ℕ → ℕ → State → Type 0
Undoable a v s = (s.active ≡ true) × Undoes a v s.shared.mem s.myd.write_set s.myd.alog

pub Undoable-rounds :
    (a v : ℕ) (rounds : List Env) → All (Leaves a) rounds → Steady (UndoesAside a v) rounds
Undoable-rounds a v [] quiet = tt
Undoable-rounds a v (e ∷ es) quiet = (
  λ s h. (h.0, (rollback_same s.myd.write_set a _ _ (quiet.0 s.shared) ∙ h.1.0, h.1.1)),
  Undoable-rounds a v es quiet.1,
)
