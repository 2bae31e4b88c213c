-- ===== src/TwoPlDist/Program/Running.antt =====
-- stms/2PLUndoDist.hpp: a thread inside a transaction, between two of its accesses.
use plsf.Prelude.{
  ℕ, ◌+◌, ◌<◌, ◌≡◌, ◌≢◌, refl, arith, Bool, true, false, not, [], ◌∷◌, ◌++◌, if◌then◌else◌, update,
  update_ne, ap, subst, sym, ◌∙◌, inl, inr,
}
use plsf.Config.{registry_max_threads}
use plsf.Index.{addr2write_idx}
use plsf.Index.Separation.{addr2write_idx-lt}
use plsf.TwoPlDist.State.{Shared, State, Outcome, ok, restart, and_then, set_mem, unlocked}
use plsf.TwoPlDist.Locks.{is_empty, try_wait_read_lock, try_wait_write_lock}
use plsf.TwoPlDist.Locks.Held.{Held, HoldsNone, Held-mem, SameLocks-keeps}
use plsf.TwoPlDist.Locks.Unlocking.{release-SameLocks}
use plsf.TwoPlDist.Locks.Taking.{
  InTheWay, entry, taken, after_read, after_write, read-cases, write-cases, Held-after_read,
  Held-after_write, Held-again, writer-InTheWay, reader-InTheWay,
}
use plsf.TwoPlDist.Txn.{rollback, release, abort_tx, pload, pstore}
use plsf.TwoPlDist.Program.Logs.{Running, Restarted, Ends, reclaim_all_keeps, rollback_store}

pload-step :
    (s : State) (addr : ℕ)
    → s.active ≡ true
    → pload addr s
      ≡ and_then
          (try_wait_read_lock addr s)
          (λ got s1. if got then ok (s1.shared.mem addr) s1 else restart (abort_tx true s1))
unfolding pload
pload-step s addr e =
    ap
      (λ z.
        if not z
        then ok (s.shared.mem addr) s
        else and_then (try_wait_read_lock addr s)
            (λ got s1. if got then ok (s1.shared.mem addr) s1 else restart (abort_tx true s1)))
      e

pstore-step :
    (s : State) (addr v : ℕ)
    → s.active ≡ true
    → pstore addr v s
      ≡ and_then (try_wait_write_lock addr s) (λ got s1.
        if got
        then ok tt (set_mem s1 (update s1.shared.mem addr v))
        else restart (abort_tx true s1))
unfolding pstore
pstore-step s addr v e =
    ap
      (λ z.
        if not z
        then ok tt (set_mem s (update s.shared.mem addr v))
        else and_then (try_wait_write_lock addr s) (λ got s1.
          if got
          then ok tt (set_mem s1 (update s1.shared.mem addr v))
          else restart (abort_tx true s1)))
      e

module _ (t : ℕ) (h : t < registry_max_threads) (b : Shared) (none : HoldsNone t b) where
  in_range : (s : State) → s.myd.tid ≡ t → s.myd.tid < registry_max_threads
  in_range s e = omega (arith, e)

  pub own-Held :
      (s : State) → Running t b s → Held s.myd.tid b s.myd.write_set s.myd.read_set s.shared
  own-Held s r = subst (λ z. Held z b s.myd.write_set s.myd.read_set s.shared) (sym r.tid) r.held

  abort-Restarted : (s : State) → Running t b s → InTheWay t b → Restarted t b (abort_tx true s)
  unfolding abort_tx
  abort-Restarted s r w =
      let mem = rollback s.myd.write_set s.shared.mem in
      let g = record s.shared { mem = mem } in
      let q =
        release-SameLocks b s.myd g (in_range s r.tid)
          (Held-mem s.myd.tid b s.myd.write_set s.myd.read_set s.shared mem (own-Held s r)) in
      let k = reclaim_all_keeps s.myd.alog (release s.myd g) r.plain in
      record {
        active = r.active;
        tid = r.tid;
        locks = SameLocks-keeps b (release s.myd g) _ k.0 k.1 k.2 q.0;
        mem = λ a. ap (λ m. m a) (k.3 ∙ q.1) ∙ r.undoes a;
        in_the_way = w;
      }

  pub pload-Ends :
      (s : State) (addr : ℕ)
      → Running t b s
      → Ends
          (λ v s'. Running t b s' × (v ≡ s.shared.mem addr) × (s'.shared.mem ≡ s.shared.mem))
          (Restarted t b)
          (pload addr s)
  pload-Ends s addr r =
      let i = Held-after_read t h b s addr r.tid r.held in
      let r' : Running t b (after_read s addr) = record {
        active = r.active;
        tid = r.tid;
        held = i;
        undoes = r.undoes;
        plain = r.plain;
      } in
      rw (pload-step s addr r.active) (elim (read-cases s addr (in_range s r.tid)) [
        | inl e ↦ rw (e.0) (r, refl, refl)
        | inr (inl e) ↦ rw e tt
        | inr (inr (inl e)) ↦ rw e (r', refl, refl)
        | inr (inr (inr e)) ↦ rw (e.0) (
            abort-Restarted (after_read s addr) r' (
              writer-InTheWay t h b s.myd.write_set s.myd.read_set s.shared _ r.held e.1
                (λ z. e.2 (z ∙ ap (λ u. u + 1) (sym r.tid)))))
      ])

  Running-write :
      (s : State) (addr : ℕ) (wlocks mem : ℕ → ℕ)
      → Running t b s
      → Held t b
          (s.myd.write_set ++ entry s addr ∷ [])
          s.myd.read_set
          (record s.shared { wlocks = wlocks })
      → ((a : ℕ) → addr ≢ a → mem a ≡ s.shared.mem a)
      → Running t b (set_mem (after_write s addr wlocks) mem)
  Running-write s addr wlocks mem r i f = record {
    active = r.active;
    tid = r.tid;
    held = Held-mem t b _ _ _ mem i;
    undoes = λ a. rollback_store s.myd.write_set s.shared.mem mem addr a (f a) ∙ r.undoes a;
    plain = r.plain;
  }

  abbrev StoreEnds : State → ℕ → ℕ → Outcome (Unit {0}) → Type 0
  StoreEnds s addr v =
      Ends (λ _ s'. Running t b s' × (s'.shared.mem ≡ update s.shared.mem addr v)) (Restarted t b)

  -- The lock was free: the store goes on when no other thread reads.
  take :
      (s : State) (addr v : ℕ) (free : s.shared.wlocks (addr2write_idx addr) ≡ unlocked)
      → Running t b s
      → (empty : Bool)
      → is_empty (record s.shared { wlocks = taken s addr }) (addr2write_idx addr) s.myd.tid ≡ empty
      → StoreEnds s addr v (
          if empty
          then ok tt (set_mem (after_write s addr (taken s addr)) (update s.shared.mem addr v))
          else restart (abort_tx true (after_write s addr (taken s addr))))
  take s addr v e r true q = (
    Running-write s addr (taken s addr) (update s.shared.mem addr v) r
        (Held-after_write t h b s addr r.tid e r.held) (λ a n. update_ne s.shared.mem addr v a n),
    refl,
  )
  take s addr v e r false q =
      let i = Held-after_write t h b s addr r.tid e r.held in
      abort-Restarted (after_write s addr (taken s addr))
        (Running-write s addr (taken s addr) s.shared.mem r i (λ a n. refl))
        (reader-InTheWay t h b _ _ _ (addr2write_idx addr) i none (addr2write_idx-lt addr) (
          ap (is_empty (record s.shared { wlocks = taken s addr }) (addr2write_idx addr))
            (sym r.tid)
          ∙ q))

  pub pstore-Ends :
      (s : State) (addr v : ℕ)
      → Running t b s
      → Ends
          (λ _ s'. Running t b s' × (s'.shared.mem ≡ update s.shared.mem addr v))
          (Restarted t b)
          (pstore addr v s)
  pstore-Ends s addr v r =
      let new = update s.shared.mem addr v in
      let keeps = λ (a : ℕ) (n : addr ≢ a). update_ne s.shared.mem addr v a n in
      rw (pstore-step s addr v r.active) (elim (write-cases s addr (in_range s r.tid)) [
        | inl e ↦ rw (e.0) (
          Running-write s addr s.shared.wlocks new r (Held-again t h b s addr r.held) keeps,
          refl,
        )
        | inr (inl e) ↦ rw e tt
        | inr (inr (inl e)) ↦ rw (e.0) (take s addr v e.1 r _ refl)
        | inr (inr (inr e)) ↦ rw (e.0) (
            abort-Restarted s r (
              writer-InTheWay t h b s.myd.write_set s.myd.read_set s.shared _ r.held e.1
                (λ z. e.2 (z ∙ ap (λ u. u + 1) (sym r.tid)))))
      ])
