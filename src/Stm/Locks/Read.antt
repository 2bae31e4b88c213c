-- ===== src/Stm/Locks/Read.antt =====
-- stms/2PLSF.hpp: `tryWaitReadLock`, by its result.
use plsf.Prelude.{
  ◌⊎◌, ℕ, ◌%◌, ◌^◌, ◌<◌, ◌≡◌, refl, inl, inr, Bool, true, ◌||◌, List, [], ◌∷◌, ◌++◌, arith, ◌==◌,
  update, update_self, Bool-cases, All, length,
}
use plsf.Config.{num_rwl, unlocked, max_read_set_entries}
use plsf.Index.{addr2write_idx, write_idx2read_idx}
use plsf.Index.Separation.{addr2write_idx-lt}
use plsf.Stm.State.{State, Env, set_myd}
use plsf.Stm.Indicator.{arrived, with_bit, arrived-with_bit, with_bit_eq}
use plsf.Stm.Locks.{arrive_and_check, read_set_add_entry, try_wait_read_lock}
use plsf.Stm.Locks.Rely.{Respects, Post}
use plsf.Stm.Locks.Order.{Order, InOrder, AllKept}
use plsf.Stm.Locks.Tracked.{
  Kept, none_skipped, logs_read, logs_read-append, Tracked-log_read, Kept-log_read, Tracked-skip,
  Tracked-unskip, Tracked-arrive, Kept-skip, Kept-unskip, Kept-arrive,
}
use plsf.Stm.Locks.ReadWait.{ReadResult, slow_path_lem}

-- The bookkeeping after the entry of the read set and the arrival.
module _ (s : State) (widx : ℕ) (p : widx < num_rwl) (order : InOrder s.myd.tid s)
    (kept : AllKept s.myd.tid s) where
  abbrev ridx : ℕ
  ridx = write_idx2read_idx widx s.myd.tid

  abbrev rs : List ℕ
  rs = s.myd.read_set ++ widx ∷ []

  abbrev ri' : ℕ → ℕ
  ri' = update s.shared.read_indicators ridx (with_bit (s.shared.read_indicators ridx) widx)

  arrived_now : arrived ri' widx s.myd.tid ≡ true
  arrived_now = ground (
    arith,
    arrived-with_bit s.shared.read_indicators widx s.myd.tid widx s.myd.tid p order.range p
        order.range,
  )

  logged_now : logs_read widx rs ≡ true
  logged_now = ground (arith, logs_read-append widx s.myd.read_set widx)

  arrive_Order :
      Order s.myd.tid s.shared.wlocks ri' s.myd.tid s.myd.write_set rs s.shared.conflict_clock
        s.myd.my_ts
  arrive_Order = record {
    who = refl;
    range = order.range;
    words = order.words;
    tracked =
        Tracked-unskip s.myd.tid widx
          (Tracked-log_read s.myd.tid widx p (
            Tracked-arrive s.myd.tid widx order.range p
              (Tracked-skip s.myd.tid widx order.tracked)))
          (order.tracked.writes widx refl) (order.tracked.owns widx refl) (λ _. logged_now);
    runs = order.runs;
    own = order.own;
  }

  arrive_Kept : Kept s.myd.tid none_skipped s.shared.wlocks ri' rs
  arrive_Kept =
      Kept-unskip s.myd.tid widx
        (Kept-log_read s.myd.tid widx
          (Kept-arrive s.myd.tid widx order.range p (Kept-skip s.myd.tid widx kept)))
        (inl arrived_now)

  no_writer :
      ((s.shared.wlocks widx % 2 ^ 16 == unlocked) || (s.shared.wlocks widx % 2 ^ 16 == s.myd.tid))
        ≡ true
      → (s.shared.wlocks widx ≡ unlocked) ⊎ (s.shared.wlocks widx ≡ s.myd.tid)
  no_writer free = elim (order.words widx) [
    | inl held ↦ inr (ground (arith, order.range))
    | inr none ↦ inl none
  ]

  arrive_and_check_lem :
      (before : Bool) (rounds : List Env)
      → All (Respects s.myd.tid) rounds
      → Post
          (ReadResult s.myd.tid widx before)
          (λ _. ⊥)
          (arrive_and_check rounds widx ridx
            (with_bit (s.shared.read_indicators ridx) widx)
            (set_myd s (record s.myd { read_set = rs })))
  unfolding arrive_and_check
  arrive_and_check_lem before rounds quiet =
      let wstate = s.shared.wlocks widx % 2 ^ 16 in
      elim (Bool-cases ((wstate == unlocked) || (wstate == s.myd.tid))) [
        | inl free ↦ rw free (arrive_Order, arrive_Kept, arrived_now, inr (no_writer free))
        | inr busy ↦ rw busy (
            slow_path_lem s.myd.tid widx p before rounds _ _ quiet (update_self _ _ _) arrive_Order
              arrive_Kept arrived_now logged_now)
      ]

-- For a thread in good order whose locks are all kept, while the others respect it: when
-- `tryWaitReadLock` returns true, the thread's bit is set for the lock of the address, the logs are
-- right, no lock of the read set has been given up, and if the bit was not set before then the lock
-- word is UNLOCKED or the thread's own; when it returns false, the logs are right, and the transaction has a timestamp and has
-- noted another thread in range, with the timestamp that this thread announces, lower than its own,
-- and this thread holds the write lock of the address or has arrived at it. It never restarts the
-- transaction by itself.
pub try_wait_read_lock_lem :
    (rounds : List Env) (addr : ℕ) (s : State)
    → All (Respects s.myd.tid) rounds
    → InOrder s.myd.tid s
    → AllKept s.myd.tid s
    → Post
        (ReadResult s.myd.tid
          (addr2write_idx addr)
          (arrived s.shared.read_indicators (addr2write_idx addr) s.myd.tid))
        (λ _. ⊥)
        (try_wait_read_lock rounds addr s)
unfolding try_wait_read_lock read_set_add_entry
try_wait_read_lock_lem rounds addr s quiet order kept =
    let widx = addr2write_idx addr in
    let ridx = write_idx2read_idx widx s.myd.tid in
    elim (Bool-cases
      (with_bit (s.shared.read_indicators ridx) widx == s.shared.read_indicators ridx)) [
        | inl already ↦ rw already (order, kept, here already, inl (here already))
        | inr absent ↦
            rw absent (elim (Bool-cases (length s.myd.read_set == max_read_set_entries)) [
              | inl full ↦ rw full tt
              | inr room ↦
                  rw room
                    (arrive_and_check_lem s widx (addr2write_idx-lt addr) order kept _ rounds quiet)
            ])
      ]
  where
    here :
        (with_bit
              (s.shared.read_indicators (write_idx2read_idx (addr2write_idx addr) s.myd.tid))
              (addr2write_idx addr)
            == s.shared.read_indicators (write_idx2read_idx (addr2write_idx addr) s.myd.tid))
          ≡ true
        → arrived s.shared.read_indicators (addr2write_idx addr) s.myd.tid ≡ true
    here already =
        ground (arith, with_bit_eq s.shared.read_indicators (addr2write_idx addr) s.myd.tid)
