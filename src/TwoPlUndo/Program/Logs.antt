-- ===== src/TwoPlUndo/Program/Logs.antt =====
-- stms/2PLUndo.hpp: the logs of a running transaction.
use plsf.Prelude.{
  ℕ, ◌≡◌, refl, arith, Bool, true, false, ◌||◌, ◌==◌, List, [], ◌∷◌, ◌++◌, ◌≢◌, update, update_lem,
  All,
}
use plsf.TwoPlUndo.LockWord.{hidx}
use plsf.TwoPlUndo.Locks.Held.{Held}
use plsf.TwoPlUndo.State.{
  WriteSetEntry, State, Outcome, ok, aborted, failed, unfinished, Cmd, and_then,
}
use plsf.TwoPlUndo.Txn.{free, undo}

-- Whether the lock `k` is that of a logged address.
unfoldable pub logged_reads : List ℕ → ℕ → Bool
logged_reads [] k = false
logged_reads (a ∷ r) k = (hidx a == k) || logged_reads r k

unfoldable pub logged_writes : List WriteSetEntry → ℕ → Bool
logged_writes [] k = false
logged_writes (e ∷ r) k = (hidx e.addr == k) || logged_writes r k

abbrev pub logged : List ℕ → List WriteSetEntry → ℕ → Bool
logged rs ws k = logged_reads rs k || logged_writes ws k

pub logged_reads-append :
    (rs : List ℕ) (a k : ℕ) → logged_reads (rs ++ a ∷ []) k ≡ (logged_reads rs k || (hidx a == k))
unfolding logged_reads
logged_reads-append [] a k = ground arith
logged_reads-append (x ∷ rs) a k = rw (logged_reads-append rs a k) (ground arith)

pub logged_writes-append :
    (ws : List WriteSetEntry) (e : WriteSetEntry) (k : ℕ)
    → logged_writes (ws ++ e ∷ []) k ≡ (logged_writes ws k || (hidx e.addr == k))
unfolding logged_writes
logged_writes-append [] e k = ground arith
logged_writes-append (x ∷ ws) e k = rw (logged_writes-append ws e k) (ground arith)

-- The undo log.
pub undo-append :
    (ws : List WriteSetEntry) (e : WriteSetEntry) (mem : ℕ → ℕ)
    → undo (ws ++ e ∷ []) mem ≡ undo ws (update mem e.addr e.old_val)
unfolding undo
undo-append [] e mem = refl
undo-append (x ∷ ws) e mem = rw (undo-append ws e mem)

pub undo_same :
    (ws : List WriteSetEntry) (a : ℕ) (mem mem' : ℕ → ℕ)
    → mem' a ≡ mem a
    → undo ws mem' a ≡ undo ws mem a
unfolding undo
undo_same [] a mem mem' e = e
undo_same (x ∷ ws) a mem mem' e = ground (
  arith,
  update_lem (undo ws mem') x.addr x.old_val a,
  update_lem (undo ws mem) x.addr x.old_val a,
  undo_same ws a mem mem' e,
)

pub undo_store :
    (ws : List WriteSetEntry) (mem : ℕ → ℕ) (addr v a : ℕ)
    → undo (ws ++ record { addr = addr; old_val = mem addr } ∷ []) (update mem addr v) a
      ≡ undo ws mem a
undo_store ws mem addr v a =
    rw (undo-append ws (record { addr = addr; old_val = mem addr }) (update mem addr v)) (
      undo_same ws a mem _
        (ground (arith, update_lem (update mem addr v) addr (mem addr) a, update_lem mem addr v a)))

-- The transaction began at the locks `b` and the memory `m`: it holds only logged locks, the undo log
-- takes back each word that no `memset` of a fresh block writes, and the allocations it logged are
-- plain blocks.
pub record Running (t : ℕ) (b : ℕ → ℕ) (clear : ℕ → (ℕ → ℕ) → ℕ → ℕ) (m : ℕ → ℕ) (s : State)
    : Type 0 where
  pub active : s.active ≡ true
  pub tid : s.myd.tid ≡ t
  pub held : Held t b s.shared.locks (logged s.myd.read_set s.myd.write_set)
  pub undoes :
      (a : ℕ)
      → ((n : ℕ) (mem : ℕ → ℕ) → clear n mem a ≡ mem a)
      → undo s.myd.write_set s.shared.mem a ≡ m a
  pub plain : All (λ x. x.reclaim ≡ free) s.myd.alog

-- Where an access throws, another thread has part of some lock.
abbrev pub Thrown : ℕ → (ℕ → ℕ) → (ℕ → (ℕ → ℕ) → ℕ → ℕ) → (ℕ → ℕ) → State → Type 0
Thrown t b clear m s = Running t b clear m s × ((l : ℕ) × (b l ≢ 0))

-- What is so of the result, returned or thrown.
abbrev pub Ends : {A : Type 0} → (A → State → Type 0) → (State → Type 0) → Outcome A → Type 0
Ends P Q (ok v s) = P v s
Ends P Q (aborted s) = Q s
Ends P Q failed = Unit
Ends P Q unfinished = ⊥

pub Ends-and_then :
    {A B : Type 0} (P : A → State → Type 0) (R : B → State → Type 0) (Q : State → Type 0)
    (o : Outcome A) (k : A → Cmd B)
    → Ends P Q o
    → ((v : A) (s : State) → P v s → Ends R Q (k v s))
    → Ends R Q (and_then o k)
Ends-and_then P R Q (ok v s) k p f = f v s p
Ends-and_then P R Q (aborted s) k p f = p
Ends-and_then P R Q failed k p f = tt
Ends-and_then P R Q unfinished k p f = p
