-- ===== src/Stm/Start.antt =====
-- stms/2PLSF.hpp: the constructor of class STM and of `OpData`.
use plsf.Prelude.{
  ℕ, zero, suc, ◌+◌, ◌%◌, ◌<◌, ◌≤◌, ◌≡◌, ◌≢◌, ap, ◌∙◌, refl, inr, false, [], arith, update,
  update_self, update_lem, subst, dec_lt, ℕ_discrete,
}
use plsf.Word.{has_bit, has_bit-zero}
use plsf.Config.{registry_max_threads, no_timestamp, unlocked, num_rwl, num_ri_words}
use plsf.Index.{write_idx2read_idx}
use plsf.Index.Separation.{write_idx2read_idx-lt}
use plsf.Stm.State.{Shared, OpData, ts_slot}
use plsf.Stm.Indicator.{arrived}
use plsf.Stm.Conflict.{get_max_threads}
use plsf.Stm.Program.Whole.{Idle}
use plsf.Stm.Program.Uncontended.{Undisturbed}

-- The loop `for (i = ...) array[at(i)].store(value)` over `n` places from `i` on.
unfoldable pub store_from : (at : ℕ → ℕ) (value : ℕ) → ℕ → ℕ → (ℕ → ℕ) → ℕ → ℕ
store_from at value zero i array = array
store_from at value (suc n) i array = store_from at value n (suc i) (update array (at i) value)

-- `raw` is what the memory holds before: the loops store to the arrays, of `txnTS` only to every CLPAD-th
-- word. The memory of the program and the thread registry stay as they are.
unfoldable pub new_stm : (raw : Shared) → Shared
unfolding store_from
new_stm raw = record raw {
  conflict_clock = 1;
  txn_ts = store_from ts_slot no_timestamp registry_max_threads 0 raw.txn_ts;
  wlocks = store_from (λ i. i) unlocked num_rwl 0 raw.wlocks;
  read_indicators = store_from (λ i. i) 0 num_ri_words 0 raw.read_indicators;
}

-- `opDesc[i]`, with the initializers of the struct and its tid.
unfoldable pub new_opdata : ℕ → OpData
new_opdata i = record {
  attempt = 0;
  tid = i;
  write_set = [];
  read_set = [];
  my_ts = no_timestamp;
  o_ts = no_timestamp;
  otid = registry_max_threads;
  num_aborts = 0;
  num_commits = 0;
  flog = [];
  alog = [];
}

store_from-kept :
    (at : ℕ → ℕ) (value n i : ℕ) (array : ℕ → ℕ) (x : ℕ)
    → array x ≡ value
    → store_from at value n i array x ≡ value
unfolding store_from
store_from-kept at value zero i array x e = e
store_from-kept at value (suc n) i array x e =
    store_from-kept at value n (suc i) (update array (at i) value) x
      (ground (arith, update_lem array (at i) value x))

-- The loop leaves the value at each of its places.
store_from-stored :
    (at : ℕ → ℕ) (value n i : ℕ) (array : ℕ → ℕ) (j : ℕ)
    → i ≤ j
    → j < i + n
    → store_from at value n i array (at j) ≡ value
unfolding store_from
store_from-stored at value zero i array j low high = absurd (omega arith)
store_from-stored at value (suc n) i array j low high = elim (ℕ_discrete i j) [
  | yes e ↦
      store_from-kept at value n (suc i) (update array (at i) value) (at j)
        (subst (λ k. update array (at i) value (at k) ≡ value) e (update_self array (at i) value))
  | no ne ↦
      store_from-stored at value n (suc i) (update array (at i) value) j (omega arith) (omega arith)
]

foreign : (word t : ℕ) → t < registry_max_threads → word ≡ unlocked → word ≢ t
foreign word t lt e = omega (arith, lt, e)

module _ (raw : Shared) (beyond : (w : ℕ) → num_rwl ≤ w → raw.wlocks w ≡ unlocked) where
  new_wlocks : (w : ℕ) → (new_stm raw).wlocks w ≡ unlocked
  unfolding new_stm
  new_wlocks w = elim (dec_lt w num_rwl) [
    | yes lt ↦
        store_from-stored (λ i. i) unlocked num_rwl 0 raw.wlocks w (omega arith) (omega (arith, lt))
    | no ge ↦
        store_from-kept (λ i. i) unlocked num_rwl 0 raw.wlocks w (beyond w (omega (arith, ge)))
  ]

  new_arrived :
      (w u : ℕ)
      → w < num_rwl
      → u < registry_max_threads
      → arrived (new_stm raw).read_indicators w u ≡ false
  unfolding new_stm arrived
  new_arrived w u p q =
      ap (has_bit (w % 64)) (
        store_from-stored (λ i. i) 0 num_ri_words 0 raw.read_indicators (write_idx2read_idx w u)
          (omega arith) (omega (arith, write_idx2read_idx-lt w u p q)))
      ∙ has_bit-zero (w % 64)

  new_txn_ts : (u : ℕ) → u < registry_max_threads → (new_stm raw).txn_ts (ts_slot u) ≡ no_timestamp
  unfolding new_stm
  new_txn_ts u lt =
      store_from-stored ts_slot no_timestamp registry_max_threads 0 raw.txn_ts u (omega arith)
        (omega (arith, lt))

-- After the constructor every thread with a tid in range is outside any transaction, holds no lock and
-- announces nothing, no other thread holds a lock, and the clock has timestamps left, whatever the
-- arrays held before, given that at most as many threads are registered as there are slots. (Beyond
-- the array of lock words there is no memory; the words there count as UNLOCKED.)
pub new_stm-Idle :
    (raw : Shared) (t : ℕ)
    → ((w : ℕ) → num_rwl ≤ w → raw.wlocks w ≡ unlocked)
    → t < registry_max_threads
    → get_max_threads raw.max_tid ≤ registry_max_threads
    → Idle t (record { shared = new_stm raw; myd = new_opdata t; active = false })
      × Undisturbed t (record { shared = new_stm raw; myd = new_opdata t; active = false })
      × ((new_stm raw).conflict_clock < no_timestamp)
unfolding new_stm new_opdata
new_stm-Idle raw t beyond lt registered = (
  record {
    who = refl;
    range = lt;
    none = record {
      no_write = λ w e. foreign _ t lt (new_wlocks raw beyond w) e;
      no_read = λ w p. new_arrived raw beyond w t p lt;
    };
    words = λ w. inr (new_wlocks raw beyond w);
    silent = new_txn_ts raw beyond t lt;
    no_ts = refl;
    fresh = refl;
    outside = refl;
  },
  record {
    free = new_wlocks raw beyond;
    no_reader = λ w u p q ne. new_arrived raw beyond w u p q;
    registered = registered;
  },
  omega arith,
)
