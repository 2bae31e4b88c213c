-- ===== src/TwoPlDist/Locks/Taking.antt =====
-- stms/2PLUndoDist.hpp: `tryWaitReadLock` and `tryWaitWriteLock` of a thread in a transaction.
use plsf.Prelude.{
  ℕ, ◌+◌, ◌%◌, ◌^◌, ◌<◌, ◌≡◌, ◌≢◌, ◌⊎◌, inl, inr, refl, arith, true, false, ◌==◌, List, [], ◌∷◌,
  ◌++◌, if◌then◌else◌, update, update_lem, All-append, ℕ_discrete, sym, ap, subst, ◌∙◌,
}
use mathlib.Core.Bool.{false≢true}
use plsf.Config.{registry_max_threads, num_rwl}
use plsf.Index.{addr2write_idx, write_idx2read_idx}
use plsf.Index.Separation.{addr2write_idx-lt}
use plsf.Stm.State.{WriteSetEntry}
use plsf.Stm.Indicator.{arrived, with_bit, with_bit_eq, arrived-with_bit}
use plsf.Stm.Locks.Tracked.{logs_write-append, logs_read-append}
use plsf.Stm.Conflict.{get_max_threads}
use plsf.TwoPlDist.State.{
  Shared, State, ok, failed, unlocked, read_set_add_entry, write_set_add_entry,
}
use plsf.TwoPlDist.Locks.{try_wait_read_lock, try_wait_write_lock, is_empty}
use plsf.TwoPlDist.Locks.Empty.{threads, is_empty-cases}
use plsf.TwoPlDist.Locks.Held.{Held, HoldsNone}

-- What a call leaves of the state: a lock may be taken and an entry added to the logs.
abbrev pub after_read : State → ℕ → State
after_read s addr =
    let widx = addr2write_idx addr in
    let ridx = write_idx2read_idx widx s.myd.tid in
    record s {
      shared = record s.shared {
        read_indicators =
            update s.shared.read_indicators ridx (with_bit (s.shared.read_indicators ridx) widx);
      };
      myd = record s.myd { read_set = s.myd.read_set ++ widx ∷ [] };
    }

abbrev pub entry : State → ℕ → WriteSetEntry
entry s addr = record { addr = addr; old = s.shared.mem addr }

abbrev pub after_write : State → ℕ → (ℕ → ℕ) → State
after_write s addr wlocks = record s {
  shared = record s.shared { wlocks = wlocks };
  myd = record s.myd { write_set = s.myd.write_set ++ entry s addr ∷ [] };
}

-- The lock words once the thread has taken the lock.
abbrev pub taken : State → ℕ → ℕ → ℕ
taken s addr = update s.shared.wlocks (addr2write_idx addr) (s.myd.tid + 1)

-- What stands in the way of a lock: a writer, or the bit of another thread.
abbrev pub InTheWay : ℕ → Shared → Type 0
InTheWay t g =
    ((l : ℕ) × (g.wlocks l ≢ unlocked))
    ⊎ ((w : ℕ) × (u : ℕ) × (w < num_rwl)
        × (u < threads g)
        × (u ≢ t)
        × (arrived g.read_indicators w u ≡ true))

module _ (s : State) (addr : ℕ) (h : s.myd.tid < registry_max_threads) where
  pub read-cases :
      ((try_wait_read_lock addr s ≡ ok true s)
        × (arrived s.shared.read_indicators (addr2write_idx addr) s.myd.tid ≡ true))
      ⊎ (try_wait_read_lock addr s ≡ failed)
      ⊎ ((try_wait_read_lock addr s ≡ ok true (after_read s addr)))
      ⊎ ((try_wait_read_lock addr s ≡ ok false (after_read s addr))
          × (s.shared.wlocks (addr2write_idx addr) ≢ unlocked)
          × (s.shared.wlocks (addr2write_idx addr) ≢ s.myd.tid + 1))
  unfolding try_wait_read_lock read_set_add_entry
  read-cases = ground (arith, with_bit_eq s.shared.read_indicators (addr2write_idx addr) s.myd.tid)

  pub write-cases :
      ((try_wait_write_lock addr s ≡ ok true (after_write s addr s.shared.wlocks))
        × (s.shared.wlocks (addr2write_idx addr) ≡ s.myd.tid + 1))
      ⊎ (try_wait_write_lock addr s ≡ failed)
      ⊎ ((try_wait_write_lock addr s
            ≡ ok
                (is_empty
                  (record s.shared { wlocks = taken s addr })
                  (addr2write_idx addr)
                  s.myd.tid)
                (after_write s addr (taken s addr)))
          × (s.shared.wlocks (addr2write_idx addr) ≡ unlocked))
      ⊎ ((try_wait_write_lock addr s ≡ ok false s)
          × (s.shared.wlocks (addr2write_idx addr) ≢ unlocked)
          × (s.shared.wlocks (addr2write_idx addr) ≢ s.myd.tid + 1))
  unfolding try_wait_write_lock write_set_add_entry
  write-cases = ground arith

module _ (t : ℕ) (h : t < registry_max_threads) (b : Shared) where
  Held-read :
      (ws : List WriteSetEntry) (rs : List ℕ) (g : Shared) (widx : ℕ)
      → widx < num_rwl
      → Held t b ws rs g
      → Held t b ws (rs ++ widx ∷ []) (record g {
        read_indicators =
            update g.read_indicators
              (write_idx2read_idx widx t)
              (with_bit (g.read_indicators (write_idx2read_idx widx t)) widx);
      })
  Held-read ws rs g widx p i = record {
    writes = i.writes;
    reads = λ w u p' q'. others w u p' q';
    mine_w = i.mine_w;
    mine_r = λ w p' e. ground (
      arith,
      logs_read-append w rs widx,
      i.mine_r w p',
      arrived-with_bit g.read_indicators widx t w t p h p' h,
      e,
    );
    entries = All-append (λ w. w < num_rwl) rs (widx ∷ []) i.entries (p, tt);
    max = i.max;
  }
    where
      others :
          (w u : ℕ)
          → w < num_rwl
          → u < registry_max_threads
          → (if u == t
              then false
              else arrived
                  (update g.read_indicators
                    (write_idx2read_idx widx t)
                    (with_bit (g.read_indicators (write_idx2read_idx widx t)) widx))
                  w
                  u)
            ≡ arrived b.read_indicators w u
      others w u p' q' = elim (ℕ_discrete u t) [
        | yes e ↦ ground (arith, e, i.reads w u p' q')
        | no n ↦
            ground
              (arith, n, i.reads w u p' q', arrived-with_bit g.read_indicators widx t w u p h p' q')
      ]

  -- The thread takes a free lock, or has it already.
  Held-write :
      (ws : List WriteSetEntry) (rs : List ℕ) (g : Shared) (x : WriteSetEntry) (wlocks : ℕ → ℕ)
      → ((l : ℕ)
          → (wlocks l ≡ g.wlocks l)
            ⊎ ((addr2write_idx x.addr ≡ l) × (wlocks l ≡ t + 1) × (g.wlocks l ≡ unlocked)))
      → Held t b ws rs g
      → Held t b (ws ++ x ∷ []) rs (record g { wlocks = wlocks })
  Held-write ws rs g x wlocks f i = record {
    writes = λ l. elim (f l) [
      | inl e ↦ rw e (i.writes l)
      | inr e ↦ rw (e.1) (ground (arith, i.writes l, e.2))
    ];
    reads = i.reads;
    mine_w = λ l e. elim (f l) [
      | inl q ↦ ground (arith, logs_write-append l ws x, i.mine_w l (sym q ∙ e))
      | inr q ↦ ground (arith, logs_write-append l ws x, q.0)
    ];
    mine_r = i.mine_r;
    entries = i.entries;
    max = i.max;
  }

  pub Held-after_read :
      (s : State) (addr : ℕ)
      → s.myd.tid ≡ t
      → Held t b s.myd.write_set s.myd.read_set s.shared
      → Held t b
          (after_read s addr).myd.write_set
          (after_read s addr).myd.read_set
          (after_read s addr).shared
  Held-after_read s addr e i = rw e (
      Held-read s.myd.write_set s.myd.read_set s.shared (addr2write_idx addr)
        (addr2write_idx-lt addr) i)

  pub Held-after_write :
      (s : State) (addr : ℕ)
      → s.myd.tid ≡ t
      → s.shared.wlocks (addr2write_idx addr) ≡ unlocked
      → Held t b s.myd.write_set s.myd.read_set s.shared
      → Held t b (s.myd.write_set ++ entry s addr ∷ []) s.myd.read_set (record s.shared {
        wlocks = update s.shared.wlocks (addr2write_idx addr) (s.myd.tid + 1);
      })
  Held-after_write s addr e z i =
      Held-write s.myd.write_set s.myd.read_set s.shared (entry s addr) _
        (λ l. elim (ℕ_discrete (addr2write_idx addr) l) [
          | yes q ↦ inr (
            q,
            ground
                (arith, update_lem s.shared.wlocks (addr2write_idx addr) (s.myd.tid + 1) l, q, e),
            subst (λ v. s.shared.wlocks v ≡ unlocked) q z,
          )
          | no n ↦ inl (
              ground (arith, update_lem s.shared.wlocks (addr2write_idx addr) (s.myd.tid + 1) l, n))
        ])
        i

  pub Held-again :
      (s : State) (addr : ℕ)
      → Held t b s.myd.write_set s.myd.read_set s.shared
      → Held t b (s.myd.write_set ++ entry s addr ∷ []) s.myd.read_set s.shared
  Held-again s addr i =
      Held-write s.myd.write_set s.myd.read_set s.shared (entry s addr) s.shared.wlocks
        (λ l. inl refl) i

  -- A refused lock has a foreign writer or a foreign reader, also in the locks at the start.
  pub writer-InTheWay :
      (ws : List WriteSetEntry) (rs : List ℕ) (g : Shared) (l : ℕ)
      → Held t b ws rs g
      → g.wlocks l ≢ unlocked
      → g.wlocks l ≢ t + 1
      → InTheWay t b
  writer-InTheWay ws rs g l i n m = inl (l, λ e. n (ground (arith, i.writes l, e, m)))

  pub reader-InTheWay :
      (ws : List WriteSetEntry) (rs : List ℕ) (g : Shared) (w : ℕ)
      → Held t b ws rs g
      → HoldsNone t b
      → w < num_rwl
      → is_empty g w t ≡ false
      → InTheWay t b
  reader-InTheWay ws rs g w i none p e =
      let same : threads g ≡ threads b = ap (λ z. get_max_threads z % 2 ^ 32) i.max in
      elim (is_empty-cases g w t (omega (arith, same, none.registered))) [
        | inl q ↦ absurd (false≢true (sym e ∙ q.0))
        | inr q ↦
            let u = q.1.0 in
            let range : u < threads b = omega (arith, same, q.1.2) in
            inr (
              w,
              u,
              p,
              range,
              q.1.3,
              sym (i.reads w u p (omega (arith, range, none.count))) ∙ ground (arith, q.1.3, q.1.4),
            )
      ]
