-- ===== src/TwoPlUndo/Program/Running.antt =====
-- stms/2PLUndo.hpp: a thread inside a transaction, between two of its accesses.
use plsf.Prelude.{
  ℕ, ◌<◌, ◌≡◌, refl, arith, Bool, true, false, [], ◌∷◌, ◌++◌, ◌⊎◌, update, ap, subst, sym, ◌∙◌, inl,
  inr,
}
use plsf.TwoPlUndo.LockWord.{hidx}
use plsf.TwoPlUndo.Locks.{try_read_lock, try_write_lock}
use plsf.TwoPlUndo.Locks.Held.{Held, Held-logged}
use plsf.TwoPlUndo.Locks.Taking.{
  Held-read, Held-read_refused, Held-write, Held-write_refused, read_refused-ne_zero,
  write_refused-ne_zero,
}
use plsf.TwoPlUndo.State.{
  State, ok, aborted, failed, set_myd, set_mem, set_locks, read_set_add, write_set_add,
}
use plsf.TwoPlUndo.Txn.{pstore, pload}
use plsf.TwoPlUndo.Program.Logs.{
  logged, logged_reads-append, logged_writes-append, undo_store, Running, Thrown, Ends,
}

module _ (t : ℕ) (h : t < 56) (b : ℕ → ℕ) (clear : ℕ → (ℕ → ℕ) → ℕ → ℕ) (m : ℕ → ℕ) where
  Running-locks :
      (s : State) (l : ℕ → ℕ)
      → Running t b clear m s
      → Held t b l (logged s.myd.read_set s.myd.write_set)
      → Running t b clear m (set_locks s l)
  Running-locks s l r i = record {
    active = r.active;
    tid = r.tid;
    held = i;
    undoes = r.undoes;
    plain = r.plain;
  }

  got_read : State → ℕ → Bool × (ℕ → ℕ)
  got_read s addr = try_read_lock addr s.myd.tid s.shared.locks

  got_write : State → ℕ → Bool × (ℕ → ℕ)
  got_write s addr = try_write_lock addr s.myd.tid s.shared.locks

  after_load : State → ℕ → State
  after_load s addr =
      set_myd (set_locks s ((got_read s addr).1))
        (record s.myd { read_set = s.myd.read_set ++ addr ∷ [] })

  after_store : State → ℕ → ℕ → State
  after_store s addr v =
      set_mem
        (set_myd (set_locks s ((got_write s addr).1)) (record s.myd {
          write_set = s.myd.write_set ++ record { addr = addr; old_val = s.shared.mem addr } ∷ [];
        }))
        (update s.shared.mem addr v)

  pload-cases :
      (s : State) (addr : ℕ)
      → s.active ≡ true
      → (pload addr s ≡ failed)
        ⊎ ((pload addr s ≡ aborted (set_locks s ((got_read s addr).1)))
            × ((got_read s addr).0 ≡ false))
        ⊎ (pload addr s ≡ ok (s.shared.mem addr) (after_load s addr))
  unfolding pload read_set_add got_read after_load
  pload-cases s addr e = ground arith

  pstore-cases :
      (s : State) (addr v : ℕ)
      → s.active ≡ true
      → (pstore addr v s ≡ failed)
        ⊎ ((pstore addr v s ≡ aborted (set_locks s ((got_write s addr).1)))
            × ((got_write s addr).0 ≡ false))
        ⊎ (pstore addr v s ≡ ok tt (after_store s addr v))
  unfolding pstore write_set_add got_write after_store
  pstore-cases s addr v e = ground arith

  -- A load returns the word of memory, a store writes it, or they throw.
  pub pload-Ends :
      (s : State) (addr : ℕ)
      → Running t b clear m s
      → Ends
          (λ v s'.
            Running t b clear m s' × (v ≡ s.shared.mem addr) × (s'.shared.mem ≡ s.shared.mem))
          (Thrown t b clear m)
          (pload addr s)
  unfolding after_load got_read
  pload-Ends s addr r = elim (pload-cases s addr r.active) [
    | inl e ↦ rw e tt
    | inr (inl e) ↦ rw (e.0) (
      (Running-locks s ((got_read s addr).1) r (
          subst
            (λ z.
              Held t b ((try_read_lock addr z s.shared.locks).1)
                (logged s.myd.read_set s.myd.write_set))
            (sym r.tid)
            (Held-read_refused t h b s.shared.locks _ r.held addr
              (ap (λ z. (try_read_lock addr z s.shared.locks).0) (sym r.tid) ∙ e.1)))),
      (
        hidx addr,
        read_refused-ne_zero t h b s.shared.locks _ r.held addr
            (ap (λ z. (try_read_lock addr z s.shared.locks).0) (sym r.tid) ∙ e.1),
      ),
    )
    | inr (inr e) ↦ rw e (
      record {
        active = r.active;
        tid = r.tid;
        held =
            subst
              (λ z.
                Held t b ((try_read_lock addr z s.shared.locks).1)
                  (logged (s.myd.read_set ++ addr ∷ []) s.myd.write_set))
              (sym r.tid)
              (Held-logged t b _ _ _
                (λ k q. ground (arith, q, logged_reads-append s.myd.read_set addr k))
                (Held-read t h b s.shared.locks _ r.held addr));
        undoes = r.undoes;
        plain = r.plain;
      },
      refl,
      refl,
    )
  ]

  pub pstore-Ends :
      (s : State) (addr v : ℕ)
      → Running t b clear m s
      → Ends
          (λ _ s'. Running t b clear m s' × (s'.shared.mem ≡ update s.shared.mem addr v))
          (Thrown t b clear m)
          (pstore addr v s)
  unfolding after_store got_write
  pstore-Ends s addr v r = elim (pstore-cases s addr v r.active) [
    | inl e ↦ rw e tt
    | inr (inl e) ↦ rw (e.0) (
      (Running-locks s ((got_write s addr).1) r (
          subst
            (λ z.
              Held t b ((try_write_lock addr z s.shared.locks).1)
                (logged s.myd.read_set s.myd.write_set))
            (sym r.tid)
            (Held-write_refused t h b s.shared.locks _ r.held addr
              (ap (λ z. (try_write_lock addr z s.shared.locks).0) (sym r.tid) ∙ e.1)))),
      (
        hidx addr,
        write_refused-ne_zero t h b s.shared.locks _ r.held addr
            (ap (λ z. (try_write_lock addr z s.shared.locks).0) (sym r.tid) ∙ e.1),
      ),
    )
    | inr (inr e) ↦ rw e (
      record {
        active = r.active;
        tid = r.tid;
        held =
            subst
              (λ z. Held t b ((try_write_lock addr z s.shared.locks).1) (
                logged s.myd.read_set
                  (s.myd.write_set ++ record { addr = addr; old_val = s.shared.mem addr } ∷ [])))
              (sym r.tid)
              (Held-logged t b _ _ _
                (λ k q. ground (
                  arith,
                  q,
                  logged_writes-append s.myd.write_set
                      (record { addr = addr; old_val = s.shared.mem addr }) k,
                ))
                (Held-write t h b s.shared.locks _ r.held addr));
        undoes = λ a q. undo_store s.myd.write_set s.shared.mem addr v a ∙ r.undoes a q;
        plain = r.plain;
      },
      refl,
    )
  ]
