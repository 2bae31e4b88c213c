-- ===== src/Stm/Txn/Release.antt =====
-- stms/2PLSF.hpp: the loops of `endTx` and `abortTx` that release the locks.
use plsf.Prelude.{
  ℕ, ◌<◌, ◌≡◌, refl, true, false, ◌&&◌, List, [], ◌∷◌, All, arith, ◌==◌, update_lem, Bool-cases,
  ℕ_discrete, bit_and, inl, inr, ◌∙◌, if◌then◌else◌,
}
use plsf.Config.{registry_max_threads, num_rwl, unlocked}
use plsf.Index.{addr2write_idx, write_idx2read_idx, ribit}
use plsf.Stm.State.{Shared, WriteSetEntry, State}
use plsf.Stm.Indicator.{arrived, arrived-depart, masked_eq_zero}
use plsf.Stm.Locks.{unlock_write, unlock_read, unlock_all_read_locks, unlock_all_write_locks}
use plsf.Stm.Locks.Tracked.{logs_write, logs_read}
use plsf.Stm.Locks.Order.{InOrder}
use plsf.Stm.Txn.{release_locks}

-- The loops touch nothing else of the shared state.
unlock_all_write_locks_frame :
    (C : Shared → Type 0) (ws : List WriteSetEntry) (tid : ℕ) (g : Shared)
    → ((wlocks : ℕ → ℕ) → C (record g { wlocks = wlocks }))
    → C (unlock_all_write_locks ws tid g)
unfolding unlock_all_write_locks unlock_write
unlock_all_write_locks_frame C [] tid g reach = reach g.wlocks
unlock_all_write_locks_frame C (x ∷ ws) tid g reach =
    unlock_all_write_locks_frame C ws tid (unlock_write x.addr tid g) λ wlocks.
      elim (Bool-cases (g.wlocks (addr2write_idx x.addr) == tid)) [
        | inl e ↦ rw e (reach wlocks)
        | inr e ↦ rw e (reach wlocks)
      ]

unlock_all_read_locks_frame :
    (C : Shared → Type 0) (rs : List ℕ) (tid : ℕ) (g : Shared)
    → ((ri : ℕ → ℕ) → C (record g { read_indicators = ri }))
    → C (unlock_all_read_locks rs tid g)
unfolding unlock_all_read_locks unlock_read
unlock_all_read_locks_frame C [] tid g reach = reach g.read_indicators
unlock_all_read_locks_frame C (widx ∷ rs) tid g reach =
    unlock_all_read_locks_frame C rs tid (unlock_read widx tid g) λ ri.
      elim (Bool-cases
        (bit_and (g.read_indicators (write_idx2read_idx widx tid)) (ribit widx) == 0)) [
          | inl e ↦ rw e (reach ri)
          | inr e ↦ rw e (reach ri)
        ]

-- Releasing the locks changes the lock words and the read-indicators only.
pub release_locks_frame :
    (C : Shared → Type 0) (s : State) (g : Shared)
    → ((wlocks ri : ℕ → ℕ) → C (record g { wlocks = wlocks; read_indicators = ri }))
    → C (release_locks s g)
unfolding release_locks
release_locks_frame C s g reach = unlock_all_read_locks_frame C s.myd.read_set s.myd.tid _ λ ri.
    unlock_all_write_locks_frame (λ g'. C (record g' { read_indicators = ri })) s.myd.write_set
      s.myd.tid g (λ wlocks. reach wlocks ri)

unlock_write_lem :
    (addr tid : ℕ) (g : Shared) (w : ℕ)
    → (unlock_write addr tid g).wlocks w
      ≡ (if (addr2write_idx addr == w) && (g.wlocks w == tid) then unlocked else g.wlocks w)
unfolding unlock_write
unlock_write_lem addr tid g w = ground (arith, update_lem g.wlocks (addr2write_idx addr) unlocked w)

unlock_all_write_locks_lem :
    (ws : List WriteSetEntry) (tid : ℕ) (g : Shared) (w : ℕ)
    → tid < registry_max_threads
    → (unlock_all_write_locks ws tid g).wlocks w
      ≡ (if logs_write w ws && (g.wlocks w == tid) then unlocked else g.wlocks w)
unfolding unlock_all_write_locks logs_write
unlock_all_write_locks_lem [] tid g w lt = refl
unlock_all_write_locks_lem (x ∷ ws) tid g w lt = ground (
  arith,
  unlock_all_write_locks_lem ws tid (unlock_write x.addr tid g) w lt,
  unlock_write_lem x.addr tid g w,
)

module _ (tid w t : ℕ) (q : tid < registry_max_threads) (p' : w < num_rwl)
    (q' : t < registry_max_threads) where
  -- A pair of lock and thread whose bit is clear.
  unset :
      (widx : ℕ) (g : Shared)
      → arrived g.read_indicators widx tid ≡ false
      → arrived g.read_indicators w t
        ≡ (if (w == widx) && (t == tid) then false else arrived g.read_indicators w t)
  unset widx g gone = elim (ℕ_discrete w widx) [
    | yes e ↦ elim (ℕ_discrete t tid) [ yes e' ↦ rw (e, e') (ground arith) | no _ ↦ ground arith ]
    | no _ ↦ ground arith
  ]

  unlock_read_lem :
      (widx : ℕ) (g : Shared)
      → widx < num_rwl
      → arrived (unlock_read widx tid g).read_indicators w t
        ≡ (if (w == widx) && (t == tid) then false else arrived g.read_indicators w t)
  unfolding unlock_read
  unlock_read_lem widx g p = elim (Bool-cases (arrived g.read_indicators widx tid)) [
    | inl here ↦
        let stored : (bit_and (g.read_indicators (write_idx2read_idx widx tid)) (ribit widx) == 0)
            ≡ false =
          ground (arith, masked_eq_zero g.read_indicators widx tid) in
        rw stored (arrived-depart g.read_indicators widx tid w t p q p' q' _ (inl refl))
    | inr gone ↦
        let same : (bit_and (g.read_indicators (write_idx2read_idx widx tid)) (ribit widx) == 0)
            ≡ true =
          ground (arith, masked_eq_zero g.read_indicators widx tid) in
        rw same (unset widx g gone)
  ]

  unlock_all_read_locks_lem :
      (rs : List ℕ) (g : Shared)
      → All (λ r. r < num_rwl) rs
      → arrived (unlock_all_read_locks rs tid g).read_indicators w t
        ≡ (if logs_read w rs && (t == tid) then false else arrived g.read_indicators w t)
  unfolding unlock_all_read_locks logs_read
  unlock_all_read_locks_lem [] g all = refl
  unlock_all_read_locks_lem (widx ∷ rs) g all = ground (
    arith,
    unlock_all_read_locks_lem rs (unlock_read widx tid g) all.1,
    unlock_read_lem widx g all.0,
  )

-- For a thread in good order, the two release loops set to UNLOCKED exactly the lock words that the
-- thread holds.
pub release_locks-wlocks :
    (t : ℕ) (s : State) (w : ℕ)
    → InOrder t s
    → (release_locks s s.shared).wlocks w
      ≡ (if s.shared.wlocks w == t then unlocked else s.shared.wlocks w)
unfolding release_locks
release_locks-wlocks t s w order =
    unlock_all_read_locks_frame
      (λ g. g.wlocks w ≡ (unlock_all_write_locks s.myd.write_set s.myd.tid s.shared).wlocks w)
      s.myd.read_set s.myd.tid _ (λ ri. refl)
    ∙ ground (
      arith,
      unlock_all_write_locks_lem s.myd.write_set s.myd.tid s.shared w,
      order.tracked.writes w refl,
    )

-- For a thread in good order, the two release loops clear exactly its own bits of the
-- read-indicators, for every lock and thread in range.
pub release_locks-arrived :
    (t : ℕ) (s : State) (w u : ℕ)
    → InOrder t s
    → w < num_rwl
    → u < registry_max_threads
    → arrived (release_locks s s.shared).read_indicators w u
      ≡ (if u == t then false else arrived s.shared.read_indicators w u)
unfolding release_locks
release_locks-arrived t s w u order p q =
    unlock_all_read_locks_lem s.myd.tid w u (omega arith) p q s.myd.read_set _ order.tracked.entries
    ∙ unlock_all_write_locks_frame
        (λ g.
          (if logs_read w s.myd.read_set && (u == s.myd.tid)
            then false
            else arrived g.read_indicators w u)
          ≡ (if u == t then false else arrived s.shared.read_indicators w u))
        s.myd.write_set s.myd.tid s.shared (λ wlocks. own_bits)
  where
    own_bits :
        (if logs_read w s.myd.read_set && (u == s.myd.tid)
          then false
          else arrived s.shared.read_indicators w u)
        ≡ (if u == t then false else arrived s.shared.read_indicators w u)
    own_bits = elim (ℕ_discrete u t) [
      | yes e ↦ rw e (elim (Bool-cases (arrived s.shared.read_indicators w t)) [
        | inl here ↦ ground (arith, order.tracked.reads w refl p here, order.who)
        | inr gone ↦ ground (arith, order.who)
      ])
      | no ne ↦ ground (arith, order.who)
    ]
