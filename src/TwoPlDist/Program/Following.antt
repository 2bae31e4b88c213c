-- ===== src/TwoPlDist/Program/Following.antt =====
-- stms/2PLUndoDist.hpp: one attempt of a transaction, from `beginTx` to `endTx` or the jump back.
use plsf.Prelude.{
  ℕ, ◌+◌, ◌<◌, ◌≡◌, refl, arith, Bool, true, false, ◌==◌, ltb, if◌then◌else◌, List, [], ◌∷◌, ◌++◌,
  subst, ap, sym, ◌∙◌, inl, inr, ◌⊎◌, All-append, Bool-cases,
}
use plsf.Config.{registry_max_threads}
use plsf.Stm.Program.{Program, finish, load, store, malloc, free, Attempt}
use plsf.Stm.Program.Sequential.{exec}
use plsf.TwoPlDist.State.{Shared, OpData, State, ok, failed, set_myd}
use plsf.TwoPlDist.Locks.Held.{HoldsNone, SameLocks, SameLocks-keeps, Held-start}
use plsf.TwoPlDist.Locks.Unlocking.{release-SameLocks}
use plsf.TwoPlDist.Txn.{
  pload, pstore, allocate, log_allocation, tm_malloc, retire, tm_free, rollback, release, free_all,
  backoff, begin_tx, end_tx,
}
use plsf.TwoPlDist.Txn
use plsf.TwoPlDist.Program.{run, try_once}
use plsf.TwoPlDist.Program.Logs.{Running, Restarted, Ends, Ends-and_then}
use plsf.TwoPlDist.Program.Running.{own-Held, pload-Ends, pstore-Ends}

-- What the code means by itself: `malloc` clears nothing here.
abbrev pub plain : Attempt → Attempt
plain o = record o { clear = λ block mem. mem }

abbrev pub ends_as : Attempt → Program → ℕ → (ℕ → ℕ) → ℕ × (ℕ → ℕ)
ends_as o p n mem = exec p (plain o) n mem

module _ (t : ℕ) (b : Shared) where
  -- What the code does from the memory `mem` on is what it means by itself.
  abbrev pub Follows : Attempt → Program → ℕ → (ℕ → ℕ) → ℕ → State → Type 0
  Follows o p n mem v s' = Running t b s' × (ends_as o p n mem ≡ (v, s'.shared.mem))

  -- What a committed attempt leaves.
  abbrev pub Committed : Attempt → Program → ℕ → State → Type 0
  Committed o p v s' =
      SameLocks b s'.shared
      × (ends_as o p 0 b.mem ≡ (v, s'.shared.mem))
      × (s'.myd.tid ≡ t)
      × (s'.active ≡ false)

module _ (t : ℕ) (h : t < registry_max_threads) (b : Shared) (none : HoldsNone t b) where
  tm_malloc-cases :
      (fresh : ℕ) (s : State)
      → s.active ≡ true
      → (tm_malloc fresh s ≡ failed)
        ⊎ (tm_malloc fresh s
            ≡ ok fresh (
                set_myd (allocate fresh s) (record s.myd {
                  alog = s.myd.alog ++ record { obj = fresh; reclaim = Txn.free } ∷ [];
                })))
  unfolding tm_malloc log_allocation
  tm_malloc-cases fresh s e = ground arith

  tm_malloc-Ends :
      (fresh : ℕ) (s : State)
      → Running t b s
      → Ends
          (λ v s'. Running t b s' × (v ≡ fresh) × (s'.shared.mem ≡ s.shared.mem))
          (Restarted t b)
          (tm_malloc fresh s)
  tm_malloc-Ends fresh s r = elim (tm_malloc-cases fresh s r.active) [
    | inl e ↦ rw e tt
    | inr e ↦ rw e (
      record {
        active = r.active;
        tid = r.tid;
        held = record {
          writes = r.held.writes;
          reads = r.held.reads;
          mine_w = r.held.mine_w;
          mine_r = r.held.mine_r;
          entries = r.held.entries;
          max = r.held.max;
        };
        undoes = r.undoes;
        plain = All-append (λ x. x.reclaim ≡ Txn.free) s.myd.alog _ r.plain (refl, tt);
      },
      refl,
      refl,
    )
  ]

  tm_free-cases :
      (obj : ℕ) (s : State)
      → s.active ≡ true
      → (tm_free obj s ≡ failed)
        ⊎ (tm_free obj s ≡ ok tt s)
        ⊎ (tm_free obj s ≡ ok tt (set_myd s (record s.myd { flog = s.myd.flog ++ obj ∷ [] })))
  unfolding tm_free retire
  tm_free-cases obj s e = ground arith

  tm_free-Ends :
      (obj : ℕ) (s : State)
      → Running t b s
      → Ends
          (λ _ s'. Running t b s' × (s'.shared.mem ≡ s.shared.mem))
          (Restarted t b)
          (tm_free obj s)
  tm_free-Ends obj s r = elim (tm_free-cases obj s r.active) [
    | inl e ↦ rw e tt
    | inr (inl e) ↦ rw e (r, refl)
    | inr (inr e) ↦ rw e (
      record { active = r.active; tid = r.tid; held = r.held; undoes = r.undoes; plain = r.plain },
      refl,
    )
  ]

  either_way : (c : Bool) (mem : ℕ → ℕ) → (if c then mem else mem) ≡ mem
  either_way true mem = refl
  either_way false mem = refl

  pub run-Ends :
      (o : Attempt) (p : Program) (n : ℕ) (s : State)
      → Running t b s
      → Ends (Follows t b o p n s.shared.mem) (Restarted t b) (run p o n s)
  unfolding run exec
  run-Ends o (finish v) n s r = (r, refl)
  run-Ends o (load addr k) n s r =
      Ends-and_then _ _ _ (pload addr s) _ (pload-Ends t h b none s addr r) (λ v s' q.
        subst
          (λ z.
            Ends (Follows t b o (k z) (n + 1) s.shared.mem) (Restarted t b)
              (run (k v) o (n + 1) s'))
          q.1
          (subst
            (λ z. Ends (Follows t b o (k v) (n + 1) z) (Restarted t b) (run (k v) o (n + 1) s')) q.2
            (run-Ends o (k v) (n + 1) s' q.0)))
  run-Ends o (store addr v p) n s r =
      Ends-and_then _ _ _ (pstore addr v s) _ (pstore-Ends t h b none s addr v r) (λ u s' q.
        subst (λ z. Ends (Follows t b o p (n + 1) z) (Restarted t b) (run p o (n + 1) s')) q.1
          (run-Ends o p (n + 1) s' q.0))
  run-Ends o (malloc k) n s r =
      Ends-and_then _ _ _ (tm_malloc (o.fresh n) s) _ (tm_malloc-Ends (o.fresh n) s r) (λ v s' q.
        subst
          (λ z.
            Ends
              (Follows t b o (k z) (n + 1) (if o.fresh n == 0 then s.shared.mem else s.shared.mem))
              (Restarted t b) (run (k v) o (n + 1) s'))
          q.1
          (subst
            (λ z. Ends (Follows t b o (k v) (n + 1) z) (Restarted t b) (run (k v) o (n + 1) s'))
            (q.2 ∙ sym (either_way (o.fresh n == 0) s.shared.mem))
            (run-Ends o (k v) (n + 1) s' q.0)))
  run-Ends o (free obj p) n s r =
      Ends-and_then _ _ _ (tm_free obj s) _ (tm_free-Ends obj s r) (λ u s' q.
        subst (λ z. Ends (Follows t b o p (n + 1) z) (Restarted t b) (run p o (n + 1) s')) q.1
          (run-Ends o p (n + 1) s' q.0))

  free_all_keeps :
      (xs : List ℕ) (g : Shared)
      → ((free_all xs g).wlocks ≡ g.wlocks)
        × ((free_all xs g).read_indicators ≡ g.read_indicators)
        × ((free_all xs g).max_tid ≡ g.max_tid)
        × ((free_all xs g).mem ≡ g.mem)
  unfolding free_all
  free_all_keeps [] g = (refl, refl, refl, refl)
  free_all_keeps (x ∷ xs) g = free_all_keeps xs (Txn.free x g)

  end_tx-Committed :
      (o : Attempt) (p : Program) (v : ℕ) (s : State)
      → Follows t b o p 0 b.mem v s
      → Committed t b o p v (end_tx s)
  unfolding end_tx
  end_tx-Committed o p v s f =
      let g = release s.myd s.shared in
      let k = free_all_keeps s.myd.flog g in
      let q =
        release-SameLocks b s.myd s.shared (omega (arith, f.0.tid)) (own-Held t h b none s f.0) in
      (
        SameLocks-keeps b g _ k.0 k.1 k.2 q.0,
        f.1 ∙ ap (λ m. (v, m)) (sym (k.3 ∙ q.1)),
        f.0.tid,
        refl,
      )

-- `beginTx` clears the logs and keeps the thread.
abbrev Fresh : ℕ → OpData → Type 0
Fresh t d = (d.tid ≡ t) × (d.write_set ≡ []) × (d.read_set ≡ []) × (d.alog ≡ [])

Fresh-backoff : (t n : ℕ) (d : OpData) → Fresh t d → Fresh t (backoff n d)
unfolding backoff
Fresh-backoff t n d f = elim (Bool-cases (ltb n 2)) [ inl e ↦ rw e f | inr e ↦ rw e f ]

Fresh-begin_tx : (s : State) → Fresh s.myd.tid (begin_tx s).myd
unfolding begin_tx
Fresh-begin_tx s =
    let d = record s.myd { alog = []; flog = []; write_set = []; read_set = [] } in
    let f : Fresh s.myd.tid d = (refl, refl, refl, refl) in
    elim (Bool-cases (ltb 0 s.myd.attempt)) [
      | inl e ↦ rw e (Fresh-backoff s.myd.tid s.myd.attempt d f)
      | inr e ↦ rw e f
    ]

begin_tx-Running :
    (s : State) (s' : State)
    → s'.active ≡ true
    → HoldsNone s.myd.tid s'.shared
    → Fresh s.myd.tid s'.myd
    → Running s.myd.tid s'.shared s'
unfolding rollback
begin_tx-Running s s' a none f = record {
  active = a;
  tid = f.0;
  held = rw (f.1) (rw (f.2) (Held-start s.myd.tid s'.shared none));
  undoes = λ x. ap (λ ws. rollback ws s'.shared.mem x) f.1;
  plain = rw (f.3) tt;
}

-- One attempt of a transaction, of a registered thread that holds no lock. When it commits, its result and
-- the memory are those of its code run by itself, and the thread is outside. When it jumps back, every
-- word of memory is as before, another thread held or read some lock, and the thread is still inside. In
-- both cases every lock word and every bit of the read-indicators is as before.
pub try_once-Ends :
    (o : Attempt) (p : Program) (s : State)
    → s.active ≡ true
    → s.myd.tid < registry_max_threads
    → HoldsNone s.myd.tid s.shared
    → Ends (Committed s.myd.tid s.shared o p) (Restarted s.myd.tid s.shared) (try_once o p s)
unfolding try_once
try_once-Ends o p s a h none =
    Ends-and_then _ _ _ (run p o 0 (begin_tx s)) _
      (run-Ends s.myd.tid h s.shared none o p 0 (begin_tx s)
        (unfold begin_tx in begin_tx-Running s (begin_tx s) a none (Fresh-begin_tx s)))
      (λ v s' f. end_tx-Committed s.myd.tid h s.shared none o p v s' f)
