-- ===== src/TwoPlUndo/Program/Attempted.antt =====
-- stms/2PLUndo.hpp: one attempt of a transaction, from `beginTx` to `endTx` or `abortTransaction`.
use plsf.Prelude.{
  ℕ, ◌≤◌, ◌<◌, ◌≡◌, refl, arith, Bool, true, false, ◌||◌, List, [], ◌∷◌, ◌≢◌, ap, subst, sym, ◌∙◌,
  All, ℕ_discrete,
}
use plsf.Stm.Program.{Program, Attempt}
use plsf.Stm.Program.Sequential.{exec}
use plsf.TwoPlUndo.LockWord.{get_write_state, decrement}
use plsf.TwoPlUndo.Locks.{unlock}
use plsf.TwoPlUndo.Locks.Held.{Held, Held-start, Held-logged, released_nothing}
use plsf.TwoPlUndo.Locks.Unlocking.{Held-unlock}
use plsf.TwoPlUndo.Access.Own.{true-ne-false}
use plsf.TwoPlUndo.State.{
  Shared, Deletable, WriteSetEntry, State, Outcome, ok, aborted, failed, unfinished,
}
use plsf.TwoPlUndo.Txn.{
  free, undo, unlock_reads, unlock_writes, release, free_all, reclaim_all, begin_tx, end_tx,
  abort_transaction,
}
use plsf.TwoPlUndo.Program.{run, try_once, conclude}
use plsf.TwoPlUndo.Program.Logs.{Running, Thrown, Ends, logged, logged_reads, logged_writes}
use plsf.TwoPlUndo.Program.Following.{run-Ends}

Held-unlock_reads :
    (t : ℕ) (b locks : ℕ → ℕ) (rs : List ℕ) (rest : ℕ → Bool)
    → t < 56
    → Held t b locks (λ k. logged_reads rs k || rest k)
    → Held t b (unlock_reads rs t locks) rest
unfolding unlock_reads logged_reads
Held-unlock_reads t b locks [] rest h i = i
Held-unlock_reads t b locks (a ∷ rs) rest h i =
    Held-unlock_reads t b (unlock a t locks) rs rest h
      (Held-unlock t b locks _ a h (Held-logged t b locks _ _ (λ k q. ground (arith, q)) i))

Held-unlock_writes :
    (t : ℕ) (b locks : ℕ → ℕ) (ws : List WriteSetEntry) (rest : ℕ → Bool)
    → t < 56
    → Held t b locks (λ k. logged_writes ws k || rest k)
    → Held t b (unlock_writes ws t locks) rest
unfolding unlock_writes logged_writes
Held-unlock_writes t b locks [] rest h i = i
Held-unlock_writes t b locks (e ∷ ws) rest h i =
    Held-unlock_writes t b (unlock e.addr t locks) ws rest h
      (Held-unlock t b locks _ e.addr h (Held-logged t b locks _ _ (λ k q. ground (arith, q)) i))

-- With every logged lock given back, each word is as it was at the start.
Held-none :
    (t : ℕ) (b locks : ℕ → ℕ) → t < 56 → Held t b locks (λ _. false) → (l : ℕ) → locks l ≡ b l
Held-none t b locks h i l = elim (ℕ_discrete (decrement (locks l) t) 0) [
  | yes e ↦ sym (released_nothing t (locks l) h (i.small l) e) ∙ i.base l
  | no n ↦ absurd (true-ne-false (sym (i.mine l n)))
]

release_all :
    (t : ℕ) (b : ℕ → ℕ) (s : State)
    → t < 56
    → s.myd.tid ≡ t
    → Held t b s.shared.locks (logged s.myd.read_set s.myd.write_set)
    → (l : ℕ) → release s s.shared.locks l ≡ b l
unfolding release
release_all t b s h e i l =
    let i' =
      subst (λ z. Held z b s.shared.locks (logged s.myd.read_set s.myd.write_set)) (sym e) i in
    let h' = subst (λ z. z < 56) (sym e) h in
    Held-none s.myd.tid b _ h'
      (Held-unlock_writes s.myd.tid b _ s.myd.write_set (λ _. false) h'
        (Held-logged s.myd.tid b _ _ _ (λ k q. ground (arith, q))
          (Held-unlock_reads s.myd.tid b s.shared.locks s.myd.read_set
            (logged_writes s.myd.write_set) h' i')))
      l

free_all_keeps :
    (xs : List ℕ) (g : Shared) → ((free_all xs g).locks ≡ g.locks) × ((free_all xs g).mem ≡ g.mem)
unfolding free_all
free_all_keeps [] g = (refl, refl)
free_all_keeps (x ∷ xs) g = free_all_keeps xs (free x g)

reclaim_all_keeps :
    (xs : List Deletable) (g : Shared)
    → All (λ x. x.reclaim ≡ free) xs
    → ((reclaim_all xs g).locks ≡ g.locks) × ((reclaim_all xs g).mem ≡ g.mem)
unfolding reclaim_all
reclaim_all_keeps [] g p = (refl, refl)
reclaim_all_keeps (x ∷ xs) g p = rw (p.0) (reclaim_all_keeps xs (free x.obj g) p.1)

-- What an attempt leaves, committed or aborted.
unfoldable pub Attempted : Attempt → Program → State → Outcome ℕ → Type 0
Attempted o p s (ok v s') =
    ((l : ℕ) → s'.shared.locks l ≡ s.shared.locks l)
    × (exec p o 0 s.shared.mem ≡ (v, s'.shared.mem))
    × ((s'.myd.tid ≡ s.myd.tid) × (s'.active ≡ true))
Attempted o p s (aborted s') =
    ((l : ℕ) → s'.shared.locks l ≡ s.shared.locks l)
    × ((a : ℕ)
        → ((n : ℕ) (mem : ℕ → ℕ) → o.clear n mem a ≡ mem a)
        → s'.shared.mem a ≡ s.shared.mem a)
    × ((l : ℕ) × (s.shared.locks l ≢ 0))
    × ((s'.myd.tid ≡ s.myd.tid) × (s'.active ≡ true))
Attempted o p s failed = Unit
Attempted o p s unfinished = ⊥

Attempted-conclude :
    (o : Attempt) (p : Program) (s : State) (out : Outcome ℕ)
    → s.myd.tid < 56
    → Ends
        (λ v s'.
          Running s.myd.tid s.shared.locks o.clear s.shared.mem s'
          × (exec p o 0 s.shared.mem ≡ (v, s'.shared.mem)))
        (Thrown s.myd.tid s.shared.locks o.clear s.shared.mem)
        out
    → Attempted o p s (conclude out)
unfolding Attempted conclude end_tx abort_transaction
Attempted-conclude o p s (ok v s') h q =
    let k = free_all_keeps s'.myd.flog (record s'.shared { locks = release s' s'.shared.locks }) in
    (
      λ l. ap (λ f. f l) k.0 ∙ release_all _ s.shared.locks s' h q.0.tid q.0.held l,
      q.1 ∙ ap (λ f. (v, f)) (sym k.1),
      (q.0.tid, q.0.active),
    )
Attempted-conclude o p s (aborted s') h q =
    let k =
      reclaim_all_keeps s'.myd.alog
        (record s'.shared {
          mem = undo s'.myd.write_set s'.shared.mem;
          locks = release s' s'.shared.locks;
        })
        q.0.plain in
    (
      λ l. ap (λ f. f l) k.0 ∙ release_all _ s.shared.locks s' h q.0.tid q.0.held l,
      λ a c. ap (λ f. f a) k.1 ∙ q.0.undoes a c,
      q.1,
      (q.0.tid, q.0.active),
    )
Attempted-conclude o p s failed h q = tt
Attempted-conclude o p s unfinished h q = q

-- One attempt of a transaction, of a thread in range that holds no lock at the start. When it commits,
-- its result and the memory are those of its code run by itself; when it is aborted, every word is as
-- before, save those that the `memset` of a fresh block may write, and some lock was not free. In both
-- cases the word of every lock is as before, so it holds no lock and took none from another thread; it
-- is the same thread, still in the transaction.
pub try_once-Attempted :
    (o : Attempt) (p : Program) (s : State)
    → s.active ≡ true
    → s.myd.tid < 56
    → ((l : ℕ) → get_write_state (s.shared.locks l) ≤ 56)
    → ((l : ℕ) → decrement (s.shared.locks l) s.myd.tid ≡ 0)
    → Attempted o p s (try_once o p s)
unfolding try_once begin_tx undo
try_once-Attempted o p s act h small none = Attempted-conclude o p s (run p o 0 (begin_tx s)) h (
    run-Ends s.myd.tid h s.shared.locks o s.shared.mem p 0 (begin_tx s) (record {
      active = act;
      tid = refl;
      held = Held-start s.myd.tid s.shared.locks _ h small none;
      undoes = λ a q. refl;
      plain = tt;
    }))
