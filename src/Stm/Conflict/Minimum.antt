-- ===== src/Stm/Conflict/Minimum.antt =====
-- stms/2PLSF.hpp: what `getTSOfWLock` and `getLowestTS` return: the lowest announced timestamp among the other
-- threads that hold the write lock or have arrived at the read-indicator.
use plsf.Prelude.{
  ℕ, zero, suc, ◌+◌, ◌%◌, ◌^◌, ◌≤◌, ◌<◌, ◌≡◌, ◌≢◌, refl, Bool, true, false, not, ◌&&◌, ◌||◌, ◌⊎◌,
  inl, inr, arith, ◌==◌, ltb, if◌then◌else◌, ℕ_discrete,
}
use plsf.Word.{has_bit, bit_and_eq_zero}
use plsf.Config.{registry_max_threads, no_timestamp, unlocked}
use plsf.Index.{write_idx2read_idx}
use plsf.Stm.State.{Shared, ts_slot}
use plsf.Stm.Indicator.{arrived}
use plsf.Stm.Conflict.{Lowest, get_ts_of_wlock, lower_reader, lowest_from, get_lowest_ts}

-- A write-lock word is the tid of a thread, or says that nobody holds the lock.
abbrev pub IsLockWord : ℕ → Type 0
IsLockWord word = (word < registry_max_threads) ⊎ (word ≡ unlocked)

-- The tests of the two searches, over the values that they choose from.
choose_cases :
    (own out lower : Bool) (best next : Lowest)
    → ((if own || out then best else (if lower then next else best)) ≡ best)
      ⊎ (((if own || out then best else (if lower then next else best)) ≡ next)
          × (own ≡ false)
          × (out ≡ false)
          × (lower ≡ true))
choose_cases true out lower best next = inl refl
choose_cases false true lower best next = inl refl
choose_cases false false false best next = inl refl
choose_cases false false true best next = inr (refl, refl, refl, refl)

writer_cases :
    (nobody own lower : Bool) (best next : Lowest)
    → ((if not nobody && not own then (if lower then next else best) else best) ≡ best)
      ⊎ (((if not nobody && not own then (if lower then next else best) else best) ≡ next)
          × (nobody ≡ false)
          × (own ≡ false)
          × (lower ≡ true))
writer_cases true own lower best next = inl refl
writer_cases false true lower best next = inl refl
writer_cases false false false best next = inl refl
writer_cases false false true best next = inr (refl, refl, refl, refl)

module _ (g : Shared) (widx tid : ℕ) where
  -- Thread `u` holds the write lock or has arrived.
  abbrev pub Stands : ℕ → Type 0
  Stands u = (g.wlocks widx ≡ u) ⊎ (arrived g.read_indicators widx u ≡ true)

  -- A thread other than `tid` that holds the write lock or has arrived, with its announcement.
  pub record IsAnnounced (l : Lowest) : Type 0 where
    pub other : l.tid ≢ tid
    pub in_range : l.tid < registry_max_threads
    pub ts : l.ts ≡ g.txn_ts (ts_slot l.tid)
    pub proper : l.ts < no_timestamp
    pub stands : Stands l.tid

  -- The result when no such thread is announced.
  pub record IsNobody (l : Lowest) : Type 0 where
    pub no_ts : l.ts ≡ no_timestamp
    pub no_tid : l.tid ≡ registry_max_threads

  -- The loop body keeps the best so far, or takes a reader with a lower timestamp.
  lower_reader_cases :
      (itid : ℕ) (best : Lowest)
      → (lower_reader g widx tid itid best ≡ best)
        ⊎ ((lower_reader g widx tid itid best ≡ record { ts = g.txn_ts (ts_slot itid); tid = itid })
            × (itid ≢ tid)
            × (arrived g.read_indicators widx itid ≡ true)
            × (g.txn_ts (ts_slot itid) < best.ts))
  unfolding lower_reader arrived
  lower_reader_cases itid best =
      rw (bit_and_eq_zero (widx % 64) (g.read_indicators (write_idx2read_idx widx itid)))
        (elim (choose_cases (itid == tid)
          (not (has_bit (widx % 64) (g.read_indicators (write_idx2read_idx widx itid))))
          (ltb (g.txn_ts (ts_slot itid)) best.ts) best
          (record { ts = g.txn_ts (ts_slot itid); tid = itid })) [
            | inl kept ↦ inl kept
            | inr (taken, ne, here, lower) ↦ inr (taken, ground arith, ground arith, ground arith)
          ])

  abbrev pub Found : Lowest → Type 0
  Found l = IsAnnounced l ⊎ IsNobody l

  below_no_timestamp : (l : Lowest) → Found l → l.ts ≤ no_timestamp
  below_no_timestamp l (inl h) = omega arith
  below_no_timestamp l (inr h) = omega arith

  lower_reader_lem :
      (itid : ℕ) (best : Lowest)
      → itid < registry_max_threads
      → Found best
      → Found (lower_reader g widx tid itid best)
  lower_reader_lem itid best lt h = elim (lower_reader_cases itid best) [
    | inl e ↦ rw e h
    | inr (e, ne, here, lower) ↦ rw e (
        inl (record {
          other = ne;
          in_range = lt;
          ts = refl;
          proper = omega (arith, below_no_timestamp best h);
          stands = inr here;
        }))
  ]

  lowest_from_lem :
      (n i : ℕ) (best : Lowest)
      → i + n ≤ registry_max_threads
      → Found best
      → Found (lowest_from n i g widx tid best)
  unfolding lowest_from
  lowest_from_lem zero i best lt h = h
  lowest_from_lem (suc n) i best lt h =
      lowest_from_lem n (i + 1) (lower_reader g widx tid i best) (omega arith)
        (lower_reader_lem i best (omega arith) h)

  pub get_ts_of_wlock_lem : IsLockWord (g.wlocks widx) → Found (get_ts_of_wlock g widx tid)
  unfolding get_ts_of_wlock
  get_ts_of_wlock_lem word =
      let wstate = g.wlocks widx % 2 ^ 16 in
      elim (writer_cases (wstate == unlocked) (wstate == tid)
        (ltb (g.txn_ts (ts_slot wstate)) no_timestamp)
        (record { ts = no_timestamp; tid = registry_max_threads })
        (record { ts = g.txn_ts (ts_slot wstate); tid = wstate })) [
          | inl e ↦ rw e (inr (record { no_ts = refl; no_tid = refl }))
          | inr (e, held, ne, lower) ↦ rw e (
              inl (record {
                other = ground arith;
                in_range = ground arith;
                ts = refl;
                proper = ground arith;
                stands = inl (ground arith);
              }))
        ]

  lower_reader-le :
      (itid : ℕ) (best : Lowest)
      → ((lower_reader g widx tid itid best).ts ≤ best.ts)
        × (itid ≢ tid
            → arrived g.read_indicators widx itid ≡ true
            → (lower_reader g widx tid itid best).ts ≤ g.txn_ts (ts_slot itid))
  unfolding lower_reader arrived
  lower_reader-le itid best =
      let e = bit_and_eq_zero (widx % 64) (g.read_indicators (write_idx2read_idx widx itid)) in
      (ground arith, λ ne here. ground arith)

  lowest_from-le :
      (n i : ℕ) (best : Lowest)
      → ((lowest_from n i g widx tid best).ts ≤ best.ts)
        × ((itid : ℕ)
            → i ≤ itid
            → itid < i + n
            → itid ≢ tid
            → arrived g.read_indicators widx itid ≡ true
            → (lowest_from n i g widx tid best).ts ≤ g.txn_ts (ts_slot itid))
  unfolding lowest_from
  lowest_from-le zero i best = (omega arith, λ itid lo hi. absurd (omega arith))
  lowest_from-le (suc n) i best =
      let next = lower_reader g widx tid i best in
      let (low, all) = lowest_from-le n (i + 1) next in
      (
        omega (arith, (lower_reader-le i best).0),
        λ itid lo hi ne here. elim (ℕ_discrete i itid) [
          | yes e ↦ rw (← e) (omega (arith, low, (lower_reader-le i best).1 (rw e ne) (rw e here)))
          | no apart ↦ all itid (omega arith) (omega arith) ne here
        ],
      )

  get_ts_of_wlock-le :
      (w : ℕ)
      → g.wlocks widx ≡ w
      → w < registry_max_threads
      → w ≢ tid
      → g.txn_ts (ts_slot w) ≤ no_timestamp
      → (get_ts_of_wlock g widx tid).ts ≤ g.txn_ts (ts_slot w)
  unfolding get_ts_of_wlock
  get_ts_of_wlock-le w e lt ne word =
      let same : g.wlocks widx % 2 ^ 16 ≡ w = omega arith in rw same (ground arith)

  pub get_lowest_ts-Found : IsLockWord (g.wlocks widx) → Found (get_lowest_ts g widx tid)
  unfolding get_lowest_ts
  get_lowest_ts-Found word =
      lowest_from_lem registry_max_threads 0 (get_ts_of_wlock g widx tid) (omega arith)
        (get_ts_of_wlock_lem word)

  -- The timestamp that `getLowestTS` returns is at most the announced one of any thread in range,
  -- other than `tid`, that has arrived at the lock.
  get_lowest_ts_le_reader :
      (itid : ℕ)
      → itid < registry_max_threads
      → itid ≢ tid
      → arrived g.read_indicators widx itid ≡ true
      → (get_lowest_ts g widx tid).ts ≤ g.txn_ts (ts_slot itid)
  unfolding get_lowest_ts
  get_lowest_ts_le_reader itid lt ne here =
      (lowest_from-le registry_max_threads 0 (get_ts_of_wlock g widx tid)).1 itid (omega arith)
        (omega arith) ne here

  -- The timestamp that `getLowestTS` returns is at most the announced one of a thread in range,
  -- other than `tid`, that holds the write lock, if that announcement is a 64-bit value.
  get_lowest_ts_le_writer :
      (w : ℕ)
      → g.wlocks widx ≡ w
      → w < registry_max_threads
      → w ≢ tid
      → g.txn_ts (ts_slot w) ≤ no_timestamp
      → (get_lowest_ts g widx tid).ts ≤ g.txn_ts (ts_slot w)
  unfolding get_lowest_ts
  get_lowest_ts_le_writer w e lt ne small =
      let (low, all) = lowest_from-le registry_max_threads 0 (get_ts_of_wlock g widx tid) in
      omega (arith, low, get_ts_of_wlock-le w e lt ne small)

  -- No other thread that stands at the lock announces less.
  abbrev pub IsLeast : Lowest → Type 0
  IsLeast l = (u : ℕ) → u < registry_max_threads → u ≢ tid → Stands u → l.ts ≤ g.txn_ts (ts_slot u)

  -- For a lock whose word is a thread or UNLOCKED and announcements of 64 bits, `getLowestTS` returns
  -- either the announced timestamp of another thread that holds the write lock or has arrived, with
  -- that thread, or NO_TIMESTAMP with REGISTRY_MAX_THREADS; and no other thread in range that holds
  -- the write lock or has arrived announces a lower timestamp than the one returned. So it is
  -- NO_TIMESTAMP only if none of them announces any.
  pub get_lowest_ts-IsLeast :
      IsLockWord (g.wlocks widx)
      → ((u : ℕ) → g.txn_ts (ts_slot u) ≤ no_timestamp)
      → Found (get_lowest_ts g widx tid) × IsLeast (get_lowest_ts g widx tid)
  get_lowest_ts-IsLeast word small = (
    get_lowest_ts-Found word,
    λ u lt ne stands. elim stands [
      | inl held ↦ get_lowest_ts_le_writer u held lt ne (small u)
      | inr here ↦ get_lowest_ts_le_reader u lt ne here
    ],
  )
