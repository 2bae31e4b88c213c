-- ===== src/TwoPlDist/Locks/Unlocking.antt =====
-- stms/2PLUndoDist.hpp: the release loops give back exactly what the thread holds.
use plsf.Prelude.{
  ℕ, ◌+◌, ◌<◌, ◌≡◌, refl, true, false, ◌&&◌, List, [], ◌∷◌, All, arith, ◌==◌, update_lem,
  Bool-cases, ℕ_discrete, bit_and, inl, inr, ◌∙◌, if◌then◌else◌, ap,
}
use plsf.Config.{registry_max_threads, num_rwl}
use plsf.Index.{addr2write_idx, write_idx2read_idx, ribit}
use plsf.Stm.State.{WriteSetEntry}
use plsf.Stm.Indicator.{arrived, arrived-depart, masked_eq_zero}
use plsf.Stm.Locks.Tracked.{logs_write, logs_read}
use plsf.TwoPlDist.State.{Shared, OpData, unlocked}
use plsf.TwoPlDist.Locks.{unlock_write, unlock_read, unlock_all_read_locks, unlock_all_write_locks}
use plsf.TwoPlDist.Locks.Held.{Held, SameLocks}
use plsf.TwoPlDist.Txn.{release}

-- The loops touch nothing else of the shared state.
record Rest (g g' : Shared) : Type 0 where
  max : g'.max_tid ≡ g.max_tid
  mem : g'.mem ≡ g.mem

unlock_write-frame :
    (a t : ℕ) (g : Shared)
    → Rest g (unlock_write a t g) × ((unlock_write a t g).read_indicators ≡ g.read_indicators)
unfolding unlock_write
unlock_write-frame a t g = elim (Bool-cases (g.wlocks (addr2write_idx a) == t + 1)) [
  | inl e ↦ rw e (record { max = refl; mem = refl }, refl)
  | inr e ↦ rw e (record { max = refl; mem = refl }, refl)
]

unlock_read-frame :
    (w t : ℕ) (g : Shared) → Rest g (unlock_read w t g) × ((unlock_read w t g).wlocks ≡ g.wlocks)
unfolding unlock_read
unlock_read-frame w t g =
    elim (Bool-cases (bit_and (g.read_indicators (write_idx2read_idx w t)) (ribit w) == 0)) [
      | inl e ↦ rw e (record { max = refl; mem = refl }, refl)
      | inr e ↦ rw e (record { max = refl; mem = refl }, refl)
    ]

Rest-trans : (g g' g'' : Shared) → Rest g g' → Rest g' g'' → Rest g g''
Rest-trans g g' g'' p q = record { max = q.max ∙ p.max; mem = q.mem ∙ p.mem }

unlock_write_lem :
    (addr t : ℕ) (g : Shared) (l : ℕ)
    → (unlock_write addr t g).wlocks l
      ≡ (if (addr2write_idx addr == l) && (g.wlocks l == t + 1) then unlocked else g.wlocks l)
unfolding unlock_write
unlock_write_lem addr t g l = ground (arith, update_lem g.wlocks (addr2write_idx addr) unlocked l)

writes_lem :
    (ws : List WriteSetEntry) (t : ℕ) (g : Shared) (l : ℕ)
    → ((unlock_all_write_locks ws t g).wlocks l
        ≡ (if logs_write l ws && (g.wlocks l == t + 1) then unlocked else g.wlocks l))
      × ((unlock_all_write_locks ws t g).read_indicators ≡ g.read_indicators)
      × Rest g (unlock_all_write_locks ws t g)
unfolding unlock_all_write_locks logs_write
writes_lem [] t g l = (refl, refl, record { max = refl; mem = refl })
writes_lem (x ∷ ws) t g l =
    let g' = unlock_write x.addr t g in
    let f = unlock_write-frame x.addr t g in
    let r = writes_lem ws t g' l in
    (r.0 ∙ ground (arith, unlock_write_lem x.addr t g l), r.1 ∙ f.1, Rest-trans g g' _ f.0 r.2)

module _ (t w u : ℕ) (q : t < registry_max_threads) (p' : w < num_rwl)
    (q' : u < registry_max_threads) where
  unset :
      (widx : ℕ) (ri : ℕ → ℕ)
      → arrived ri widx t ≡ false
      → arrived ri w u ≡ (if (w == widx) && (u == t) then false else arrived ri w u)
  unset widx ri gone = elim (ℕ_discrete w widx) [
    | yes e ↦ elim (ℕ_discrete u t) [ yes e' ↦ rw (e, e') (ground arith) | no _ ↦ ground arith ]
    | no _ ↦ ground arith
  ]

  unlock_read_lem :
      (widx : ℕ) (g : Shared)
      → widx < num_rwl
      → arrived (unlock_read widx t g).read_indicators w u
        ≡ (if (w == widx) && (u == t) then false else arrived g.read_indicators w u)
  unfolding unlock_read
  unlock_read_lem widx g p = elim (Bool-cases (arrived g.read_indicators widx t)) [
    | inl here ↦
        let stored : (bit_and (g.read_indicators (write_idx2read_idx widx t)) (ribit widx) == 0)
            ≡ false =
          ground (arith, masked_eq_zero g.read_indicators widx t) in
        rw stored (arrived-depart g.read_indicators widx t w u p q p' q' _ (inl refl))
    | inr gone ↦
        let same : (bit_and (g.read_indicators (write_idx2read_idx widx t)) (ribit widx) == 0)
            ≡ true =
          ground (arith, masked_eq_zero g.read_indicators widx t) in
        rw same (unset widx g.read_indicators gone)
  ]

  reads_lem :
      (rs : List ℕ) (g : Shared)
      → All (λ r. r < num_rwl) rs
      → arrived (unlock_all_read_locks rs t g).read_indicators w u
        ≡ (if logs_read w rs && (u == t) then false else arrived g.read_indicators w u)
  unfolding unlock_all_read_locks logs_read
  reads_lem [] g all = refl
  reads_lem (widx ∷ rs) g all =
      ground (arith, reads_lem rs (unlock_read widx t g) all.1, unlock_read_lem widx g all.0)

reads-frame :
    (rs : List ℕ) (t : ℕ) (g : Shared)
    → Rest g (unlock_all_read_locks rs t g) × ((unlock_all_read_locks rs t g).wlocks ≡ g.wlocks)
unfolding unlock_all_read_locks
reads-frame [] t g = (record { max = refl; mem = refl }, refl)
reads-frame (w ∷ rs) t g =
    let f = unlock_read-frame w t g in
    let r = reads-frame rs t (unlock_read w t g) in
    (Rest-trans g (unlock_read w t g) _ f.0 r.0, r.1 ∙ f.1)

pub release-mem : (d : OpData) (g : Shared) → (release d g).mem ≡ g.mem
unfolding release
release-mem d g =
    (reads-frame d.read_set d.tid (unlock_all_write_locks d.write_set d.tid g)).0.mem
    ∙ (writes_lem d.write_set d.tid g 0).2.mem

-- After the loops the locks are as at the start, and memory is as before them.
pub release-SameLocks :
    (b : Shared) (d : OpData) (g : Shared)
    → d.tid < registry_max_threads
    → Held d.tid b d.write_set d.read_set g
    → SameLocks b (release d g) × ((release d g).mem ≡ g.mem)
unfolding release
release-SameLocks b d g lt h =
    let g1 = unlock_all_write_locks d.write_set d.tid g in
    let w0 = writes_lem d.write_set d.tid g 0 in
    let r = reads-frame d.read_set d.tid g1 in
    (
      record {
        writes = λ l.
            ap (λ f. f l) r.1
            ∙ (writes_lem d.write_set d.tid g l).0
            ∙ ground (arith, h.mine_w l, h.writes l);
        reads = λ w u p q.
            reads_lem d.tid w u lt p q d.read_set g1 h.entries
            ∙ ap (λ ri. if logs_read w d.read_set && (u == d.tid) then false else arrived ri w u)
                w0.1
            ∙ given_back w u p q;
        max = r.0.max ∙ w0.2.max ∙ h.max;
      },
      release-mem d g,
    )
  where
    given_back :
        (w u : ℕ)
        → w < num_rwl
        → u < registry_max_threads
        → (if logs_read w d.read_set && (u == d.tid) then false else arrived g.read_indicators w u)
          ≡ arrived b.read_indicators w u
    given_back w u p q = elim (ℕ_discrete u d.tid) [
      | yes e ↦ elim (Bool-cases (arrived g.read_indicators w d.tid)) [
        | inl here ↦ ground (arith, e, h.mine_r w p here, h.reads w u p q)
        | inr gone ↦ rw e (ground (arith, gone, h.reads w d.tid p lt))
      ]
      | no n ↦ ground (arith, n, h.reads w u p q)
    ]
