-- ===== src/Stm/Locks/Tracked.antt =====
-- stms/2PLSF.hpp: the bookkeeping of locks in `ReadSet` and `WriteSet`, by which a transaction
-- releases its locks at its end.
use plsf.Prelude.{
  All, All-append, ℕ, ◌<◌, ◌≡◌, refl, ◌⊎◌, inl, inr, Bool, true, false, ◌||◌, List, [], ◌∷◌, ◌++◌,
  arith, ◌==◌, update, update_lem, Bool-cases,
}
use plsf.Config.{registry_max_threads, num_rwl}
use plsf.Index.{addr2write_idx, write_idx2read_idx}
use plsf.Stm.State.{Shared, WriteSetEntry, State, Env}
use plsf.Stm.Indicator.{arrived, with_bit, without_bit, arrived-with_bit, arrived-depart}
use plsf.Stm.Locks.Rely.{Respects}

-- Whether the undo log has an entry for an address under lock `w`.
unfoldable pub logs_write : ℕ → List WriteSetEntry → Bool
logs_write w [] = false
logs_write w (x ∷ xs) = (addr2write_idx x.addr == w) || logs_write w xs

-- Whether the read set has an entry for lock `w`.
unfoldable pub logs_read : ℕ → List ℕ → Bool
logs_read w [] = false
logs_read w (x ∷ xs) = (x == w) || logs_read w xs

pub logs_write-append :
    (w : ℕ) (xs : List WriteSetEntry) (y : WriteSetEntry)
    → logs_write w (xs ++ y ∷ []) ≡ (logs_write w xs || (addr2write_idx y.addr == w))
unfolding logs_write
logs_write-append w [] y = ground arith
logs_write-append w (x ∷ xs) y = ground (arith, logs_write-append w xs y)

pub logs_read-append :
    (w : ℕ) (xs : List ℕ) (y : ℕ) → logs_read w (xs ++ y ∷ []) ≡ (logs_read w xs || (y == w))
unfolding logs_read
logs_read-append w [] y = ground arith
logs_read-append w (x ∷ xs) y = ground (arith, logs_read-append w xs y)

-- Outside the locks that `skip` marks, thread `t` holds the write locks of the addresses in the undo
-- log and no others, and its bits in the read-indicators are in the read set.
pub record Tracked (t : ℕ) (skip : ℕ → Bool) (wlocks ri : ℕ → ℕ) (ws : List WriteSetEntry)
    (rs : List ℕ) : Type 0 where
  pub writes : (w : ℕ) → skip w ≡ false → wlocks w ≡ t → logs_write w ws ≡ true
  pub owns : (w : ℕ) → skip w ≡ false → logs_write w ws ≡ true → wlocks w ≡ t
  pub reads : (w : ℕ) → skip w ≡ false → w < num_rwl → arrived ri w t ≡ true → logs_read w rs ≡ true
  pub entries : All (λ w. w < num_rwl) rs

-- The locks of the read set are still held, by the bit or by the write lock.
pub record Kept (t : ℕ) (skip : ℕ → Bool) (wlocks ri : ℕ → ℕ) (rs : List ℕ) : Type 0 where
  pub kept :
      (w : ℕ)
      → skip w ≡ false
      → w < num_rwl
      → logs_read w rs ≡ true
      → (arrived ri w t ≡ true) ⊎ (wlocks w ≡ t)

abbrev pub none_skipped : ℕ → Bool
none_skipped _ = false

abbrev pub skip_only : ℕ → ℕ → Bool
skip_only widx w = w == widx

abbrev pub Mine : ℕ → (ℕ → Bool) → State → Type 0
Mine t skip s =
    (s.myd.tid ≡ t)
    × Tracked t skip s.shared.wlocks s.shared.read_indicators s.myd.write_set s.myd.read_set

module _ (t : ℕ) {wlocks ri : ℕ → ℕ} {ws : List WriteSetEntry} {rs : List ℕ} where
  -- Marking one more lock asks for less.
  pub Tracked-skip :
      (widx : ℕ)
      → Tracked t none_skipped wlocks ri ws rs
      → Tracked t (skip_only widx) wlocks ri ws rs
  Tracked-skip widx h = record {
    writes = λ w _. h.writes w refl;
    owns = λ w _. h.owns w refl;
    reads = λ w _. h.reads w refl;
    entries = h.entries;
  }

  -- Once the marked lock is not held, or is logged, the mark can go.
  pub Tracked-unskip :
      (widx : ℕ)
      → Tracked t (skip_only widx) wlocks ri ws rs
      → (wlocks widx ≡ t → logs_write widx ws ≡ true)
      → (logs_write widx ws ≡ true → wlocks widx ≡ t)
      → (arrived ri widx t ≡ true → logs_read widx rs ≡ true)
      → Tracked t none_skipped wlocks ri ws rs
  Tracked-unskip widx h kw ko kr = record {
    writes = λ w _ e. elim (Bool-cases (w == widx)) [
      | inl same ↦ let p : w ≡ widx = ground arith in rw p (kw (rw p at e))
      | inr other ↦ h.writes w other e
    ];
    owns = λ w _ e. elim (Bool-cases (w == widx)) [
      | inl same ↦ let p : w ≡ widx = ground arith in rw p (ko (rw p at e))
      | inr other ↦ h.owns w other e
    ];
    reads = λ w _ lt e. elim (Bool-cases (w == widx)) [
      | inl same ↦ let p : w ≡ widx = ground arith in rw p (kr (rw p at e))
      | inr other ↦ h.reads w other lt e
    ];
    entries = h.entries;
  }

module _ (t : ℕ) (widx : ℕ) {wlocks ri : ℕ → ℕ} {ws : List WriteSetEntry} {rs : List ℕ}
    (q : t < registry_max_threads) (p : widx < num_rwl)
    (h : Tracked t (skip_only widx) wlocks ri ws rs) where
  -- Stores at the marked lock keep the rest tracked.
  pub Tracked-lock : (word : ℕ) → Tracked t (skip_only widx) (update wlocks widx word) ri ws rs
  Tracked-lock word = record {
    writes = λ w out e. h.writes w out (ground (arith, update_lem wlocks widx word w));
    owns = λ w out e. ground (arith, update_lem wlocks widx word w, h.owns w out e);
    reads = h.reads;
    entries = h.entries;
  }

  pub Tracked-arrive :
      Tracked t
        (skip_only widx)
        wlocks
        (update ri (write_idx2read_idx widx t) (with_bit (ri (write_idx2read_idx widx t)) widx))
        ws
        rs
  Tracked-arrive = record {
    writes = h.writes;
    owns = h.owns;
    reads =
        λ w out lt e. h.reads w out lt (ground (arith, arrived-with_bit ri widx t w t p q lt q));
    entries = h.entries;
  }

  pub Tracked-depart :
      (word : ℕ)
      → (ri (write_idx2read_idx widx t) ≡ word)
        ⊎ (ri (write_idx2read_idx widx t) ≡ with_bit word widx)
      → Tracked t
          (skip_only widx)
          wlocks
          (update ri (write_idx2read_idx widx t) (without_bit word widx))
          ws
          rs
  Tracked-depart word now = record {
    writes = h.writes;
    owns = h.owns;
    reads = λ w out lt e.
        h.reads w out lt (ground (arith, arrived-depart ri widx t w t p q lt q word now));
    entries = h.entries;
  }

-- The rounds of the other threads keep the bookkeeping.
pub Tracked-env :
    (t : ℕ) (skip : ℕ → Bool) (e : Env) (g : Shared) {ws : List WriteSetEntry} {rs : List ℕ}
    → Respects t e
    → Tracked t skip g.wlocks g.read_indicators ws rs
    → Tracked t skip (e g).wlocks (e g).read_indicators ws rs
unfolding arrived
Tracked-env t skip e g r h = record {
  writes = λ w out held. h.writes w out ((r.same_locks g w).0 held);
  owns = λ w out e. (r.same_locks g w).1 (h.owns w out e);
  reads = λ w out lt here. h.reads w out lt (rw (r.same_bits g w) at here);
  entries = h.entries;
}

module _ (t : ℕ) (widx : ℕ) {wlocks ri : ℕ → ℕ} {rs : List ℕ} (q : t < registry_max_threads)
    (p : widx < num_rwl) (h : Kept t (skip_only widx) wlocks ri rs) where
  pub Kept-lock : (word : ℕ) → Kept t (skip_only widx) (update wlocks widx word) ri rs
  Kept-lock word = record {
    kept = λ w out lt e. ground (arith, update_lem wlocks widx word w, h.kept w out lt e);
  }

  pub Kept-arrive :
      Kept t
        (skip_only widx)
        wlocks
        (update ri (write_idx2read_idx widx t) (with_bit (ri (write_idx2read_idx widx t)) widx))
        rs
  Kept-arrive = record {
    kept = λ w out lt e. ground (arith, arrived-with_bit ri widx t w t p q lt q, h.kept w out lt e);
  }

  pub Kept-depart :
      (word : ℕ)
      → (ri (write_idx2read_idx widx t) ≡ word)
        ⊎ (ri (write_idx2read_idx widx t) ≡ with_bit word widx)
      → Kept t
          (skip_only widx)
          wlocks
          (update ri (write_idx2read_idx widx t) (without_bit word widx))
          rs
  Kept-depart word now = record {
    kept = λ w out lt e.
        ground (arith, arrived-depart ri widx t w t p q lt q word now, h.kept w out lt e);
  }

module _ (t : ℕ) {wlocks ri : ℕ → ℕ} {rs : List ℕ} where
  pub Kept-skip :
      (widx : ℕ) → Kept t none_skipped wlocks ri rs → Kept t (skip_only widx) wlocks ri rs
  Kept-skip widx h = record { kept = λ w _. h.kept w refl }

  pub Kept-unskip :
      (widx : ℕ)
      → Kept t (skip_only widx) wlocks ri rs
      → (arrived ri widx t ≡ true) ⊎ (wlocks widx ≡ t)
      → Kept t none_skipped wlocks ri rs
  Kept-unskip widx h held = record {
    kept = λ w _ lt e. elim (Bool-cases (w == widx)) [
      | inl same ↦ let p : w ≡ widx = ground arith in rw p held
      | inr other ↦ h.kept w other lt e
    ];
  }

pub Kept-env :
    (t : ℕ) (skip : ℕ → Bool) (e : Env) (g : Shared) {rs : List ℕ}
    → Respects t e
    → Kept t skip g.wlocks g.read_indicators rs
    → Kept t skip (e g).wlocks (e g).read_indicators rs
unfolding arrived
Kept-env t skip e g r h = record {
  kept = λ w out lt logged. elim (h.kept w out lt logged) [
    | inl here ↦ inl (rw (r.same_bits g w) here)
    | inr held ↦ inr ((r.same_locks g w).1 held)
  ];
}

-- A new entry of the read set.
module _ (t y : ℕ) {wlocks ri : ℕ → ℕ} {rs : List ℕ} where
  pub Tracked-log_read :
      {skip : ℕ → Bool} {ws : List WriteSetEntry}
      → y < num_rwl
      → Tracked t skip wlocks ri ws rs
      → Tracked t skip wlocks ri ws (rs ++ y ∷ [])
  Tracked-log_read range h = record {
    writes = h.writes;
    owns = h.owns;
    reads = λ w out lt e. ground (arith, logs_read-append w rs y, h.reads w out lt e);
    entries = All-append (λ w. w < num_rwl) rs (y ∷ []) h.entries (range, tt);
  }

  pub Kept-log_read :
      Kept t (skip_only y) wlocks ri rs → Kept t (skip_only y) wlocks ri (rs ++ y ∷ [])
  Kept-log_read h = record {
    kept = λ w out lt e. h.kept w out lt (ground (arith, logs_read-append w rs y));
  }

-- A new entry of the undo log, for a lock that the thread holds.
pub Tracked-log_write :
    (t : ℕ) (y : WriteSetEntry) {wlocks ri : ℕ → ℕ} {ws : List WriteSetEntry} {rs : List ℕ}
    → Tracked t (skip_only (addr2write_idx y.addr)) wlocks ri ws rs
    → Tracked t (skip_only (addr2write_idx y.addr)) wlocks ri (ws ++ y ∷ []) rs
Tracked-log_write t y {ws} h = record {
  writes = λ w out e. ground (arith, logs_write-append w ws y, h.writes w out e);
  owns = λ w out e. h.owns w out (ground (arith, logs_write-append w ws y));
  reads = h.reads;
  entries = h.entries;
}
