-- ===== src/Stm/Program/Sole.antt =====
-- stms/2PLSF.hpp: a transaction that is the only one with locks, and its fast paths.
use plsf.Prelude.{
  ℕ, suc, ◌+◌, ◌<◌, ◌≤◌, ◌≡◌, ◌≢◌, refl, ◌∙◌, sym, ◌⊎◌, inl, inr, Bool, true, false, List, [], ◌∷◌,
  ◌++◌, arith, ◌==◌, Bool-cases, length, update, update_lem,
}
use plsf.Prelude.Int.{ℤ}
use plsf.Config.{registry_max_threads, num_rwl, unlocked, tx_max_allocs}
use plsf.Index.{write_idx2read_idx}
use plsf.Stm.State.{State}
use plsf.Stm.Indicator.{arrived, with_bit, arrived-with_bit}
use plsf.Stm.Conflict.{get_max_threads, is_empty}
use plsf.Stm.Conflict.Readers.{is_empty_iff}
use plsf.Stm.Locks.{write_lock_fast_path, compare_exchange}

-- In a transaction, thread `t` is the only one with locks.
pub record Sole (t : ℕ) (wlocks ri : ℕ → ℕ) (max_tid : ℤ) (tid : ℕ) (active : Bool) : Type 0 where
  pub who : tid ≡ t
  pub range : t < registry_max_threads
  pub words : (w : ℕ) → (wlocks w ≡ t) ⊎ (wlocks w ≡ unlocked)
  pub no_reader :
      (w u : ℕ) → w < num_rwl → u < registry_max_threads → u ≢ t → arrived ri w u ≡ false
  pub registered : get_max_threads max_tid ≤ registry_max_threads
  pub inside : active ≡ true

-- Each log has room for `n` entries more.
pub record Room (n writes reads allocs frees : ℕ) : Type 0 where
  pub write_room : writes + n ≤ tx_max_allocs
  pub read_room : reads + n ≤ tx_max_allocs
  pub alloc_room : allocs + n ≤ tx_max_allocs
  pub free_room : frees + n ≤ tx_max_allocs

abbrev pub RoomFor : ℕ → State → Type 0
RoomFor n s =
    Room n (length s.myd.write_set) (length s.myd.read_set) (length s.myd.alog) (length s.myd.flog)

abbrev pub Alone : ℕ → ℕ → State → Type 0
Alone t n s =
    Sole t s.shared.wlocks s.shared.read_indicators s.shared.max_tid s.myd.tid s.active
    × RoomFor n s

pub length-snoc : {A : Type 0} (xs : List A) (x : A) → length (xs ++ x ∷ []) ≡ length xs + 1
length-snoc [] x = refl
length-snoc (y ∷ xs) x = omega (arith, length-snoc xs x)

-- One operation adds at most one entry to each log.
pub less-Room :
    (n writes reads allocs frees writes' reads' allocs' frees' : ℕ)
    → Room (suc n) writes reads allocs frees
    → writes' ≤ writes + 1
    → reads' ≤ reads + 1
    → allocs' ≤ allocs + 1
    → frees' ≤ frees + 1
    → Room n writes' reads' allocs' frees'
less-Room n writes reads allocs frees writes' reads' allocs' frees' h p q p' q' = record {
  write_room = omega (arith, h.write_room);
  read_room = omega (arith, h.read_room);
  alloc_room = omega (arith, h.alloc_room);
  free_room = omega (arith, h.free_room);
}

-- The thread's own arrival leaves the others' bits as they are.
pub Sole-arrive :
    (t widx : ℕ) (s : State)
    → widx < num_rwl
    → Sole t s.shared.wlocks s.shared.read_indicators s.shared.max_tid s.myd.tid s.active
    → Sole t s.shared.wlocks
        (update s.shared.read_indicators
          (write_idx2read_idx widx s.myd.tid)
          (with_bit (s.shared.read_indicators (write_idx2read_idx widx s.myd.tid)) widx))
        s.shared.max_tid
        s.myd.tid
        s.active
Sole-arrive t widx s p h = record {
  who = h.who;
  range = h.range;
  words = h.words;
  no_reader = λ w u q q' ne.
      arrived-with_bit s.shared.read_indicators widx s.myd.tid w u p (omega (arith, h.who, h.range))
        q q'
      ∙ ground (arith, h.no_reader w u, h.who);
  registered = h.registered;
  inside = h.inside;
}

-- The fast path of the write lock.
pub Sole-write_lock :
    (t widx : ℕ) (s : State)
    → widx < num_rwl
    → Sole t s.shared.wlocks s.shared.read_indicators s.shared.max_tid s.myd.tid s.active
    → ((wlocks : ℕ → ℕ) × (write_lock_fast_path s widx
          ≡ (true, record s.shared { wlocks = wlocks }))
        × ((w : ℕ) → (wlocks w ≡ t) ⊎ (wlocks w ≡ unlocked)))
unfolding write_lock_fast_path compare_exchange
Sole-write_lock t widx s p h = elim (Bool-cases (s.shared.wlocks widx == s.myd.tid)) [
  | inl own ↦ (s.shared.wlocks, rw own, h.words)
  | inr other ↦
      let free : (s.shared.wlocks widx == unlocked) ≡ true = elim (h.words widx) [
        | inl own ↦ ground (arith, h.who)
        | inr none ↦ ground arith
      ] in
      let g = record s.shared { wlocks = update s.shared.wlocks widx s.myd.tid } in
      let empty : is_empty g widx s.myd.tid ≡ true =
        (is_empty_iff g widx s.myd.tid).1 (λ itid lt ne.
          h.no_reader widx itid p (omega (arith, h.registered, lt)) (λ e. ne (e ∙ sym h.who))) in
      (
        g.wlocks,
        rw (other, free, empty),
        λ w. elim (Bool-cases (widx == w)) [
          | inl same ↦ rw (update_lem s.shared.wlocks widx s.myd.tid w, same) (inl h.who)
          | inr apart ↦ rw (update_lem s.shared.wlocks widx s.myd.tid w, apart) (h.words w)
        ],
      )
]
