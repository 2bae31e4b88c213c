-- ===== src/Stm/Locks/WriteResult.antt =====
-- stms/2PLSF.hpp: what `tryWaitWriteLock` leaves behind, and its entry of the undo log.
use plsf.Prelude.{
  ℕ, ◌<◌, ◌≤◌, ◌≡◌, ◌⊎◌, inl, inr, Bool, true, false, List, [], ◌∷◌, ◌++◌, arith, ◌==◌,
  if◌then◌else◌, Bool-cases, length, ap,
}
use plsf.Config.{registry_max_threads, no_timestamp, max_write_set_entries}
use plsf.Index.{addr2write_idx}
use plsf.Stm.State.{WriteSetEntry, State, pure, ◌>>◌}
use plsf.Stm.Indicator.{arrived}
use plsf.Stm.Conflict.Minimum.{IsLockWord}
use plsf.Stm.Locks.{write_set_add_entry}
use plsf.Stm.Locks.Rely.{Post}
use plsf.Stm.Locks.Order.{Refused, InOrder, AllKept}
use plsf.Stm.Locks.Tracked.{
  Tracked, Kept, skip_only, logs_read, logs_write, logs_write-append, Tracked-unskip,
  Tracked-log_write, Kept-unskip,
}
use plsf.Stm.Locks.WriteWait.{TookLock}
use plsf.Stm.Locks.Taking.{Alone}

-- On true the thread holds the write lock, its undo log has one new entry with the value that the
-- address holds, and either it had logged the lock before or no other reader is in the way; on
-- false it must die.
abbrev pub WriteResult : ℕ → ℕ → List WriteSetEntry → Bool → State → Type 0
WriteResult t addr ws true s =
    InOrder t s
    × AllKept t s
    × (s.shared.wlocks (addr2write_idx addr) ≡ t)
    × (s.myd.write_set ≡ ws ++ record { addr = addr; old = s.shared.mem addr } ∷ [])
    × ((logs_write (addr2write_idx addr) ws ≡ true) ⊎ Alone t (addr2write_idx addr) s)
WriteResult t addr ws false s = Refused t (addr2write_idx addr) s

-- The thread holds the write lock of the address, and the entry of the undo log is still to come.
pub record Holding (t addr : ℕ) (ws : List WriteSetEntry) (s : State) : Type 0 where
  pub who : s.myd.tid ≡ t
  pub range : t < registry_max_threads
  pub words : (w : ℕ) → IsLockWord (s.shared.wlocks w)
  pub tracked :
      Tracked t
        (skip_only (addr2write_idx addr))
        s.shared.wlocks
        s.shared.read_indicators
        s.myd.write_set
        s.myd.read_set
  pub kept :
      Kept t
        (skip_only (addr2write_idx addr))
        s.shared.wlocks
        s.shared.read_indicators
        s.myd.read_set
  pub held : s.shared.wlocks (addr2write_idx addr) ≡ t
  pub reads :
      arrived s.shared.read_indicators (addr2write_idx addr) t ≡ true
      → logs_read (addr2write_idx addr) s.myd.read_set ≡ true
  pub same_log : s.myd.write_set ≡ ws
  pub runs : s.myd.my_ts ≡ no_timestamp → s.shared.conflict_clock < no_timestamp
  pub own : s.myd.my_ts ≤ no_timestamp
  pub clear : (logs_write (addr2write_idx addr) ws ≡ true) ⊎ Alone t (addr2write_idx addr) s

module _ (t addr : ℕ) (ws : List WriteSetEntry) where
  pub log_entry :
      (s : State)
      → Holding t addr ws s
      → Post (WriteResult t addr ws) (λ _. ⊥) ((write_set_add_entry addr >> pure true) s)
  unfolding write_set_add_entry
  log_entry s h = elim (Bool-cases (length s.myd.write_set == max_write_set_entries)) [
    | inl full ↦ rw full tt
    | inr room ↦
        let y : WriteSetEntry = record { addr = addr; old = s.shared.mem addr } in
        rw room (
          record {
            who = h.who;
            range = h.range;
            words = h.words;
            tracked =
                Tracked-unskip t (addr2write_idx addr) (Tracked-log_write t y h.tracked)
                  (λ _. ground (arith, logs_write-append (addr2write_idx addr) s.myd.write_set y))
                  (λ _. h.held) h.reads;
            runs = h.runs;
            own = h.own;
          },
          Kept-unskip t (addr2write_idx addr) h.kept (inr h.held),
          h.held,
          ap (λ xs. xs ++ y ∷ []) h.same_log,
          h.clear,
        )
  ]

  pub took_lock :
      (got : Bool) (s : State)
      → TookLock t (addr2write_idx addr) ws got s
      → Post
          (WriteResult t addr ws)
          (λ _. ⊥)
          ((if got then write_set_add_entry addr >> pure true else pure false) s)
  took_lock true s (taking, held, absent, alone, same, stamped, small) = log_entry s (record {
    who = taking.who;
    range = taking.range;
    words = taking.words;
    tracked = taking.tracked;
    kept = taking.kept;
    held = held;
    reads = λ here. absurd (ground arith);
    same_log = same;
    runs = λ none. absurd (stamped none);
    own = small;
    clear = inr alone;
  })
  took_lock false s h = h
