-- ===== src/Stm/Locks/Frame.antt =====
-- stms/2PLSF.hpp: what `tryWaitReadLock` and `tryWaitWriteLock` leave alone: properties of memory, the undo log, the allocation
-- logs, the attempt, the thread and whether it runs, if the rounds of the other threads keep it.
use plsf.Prelude.{
  ℕ, ◌%◌, ◌^◌, Bool, true, false, ◌&&◌, ◌||◌, List, [], ◌∷◌, ◌++◌, All, ◌==◌, ltb, Bool-cases, inl,
  inr, if◌then◌else◌, length,
}
use plsf.Config.{max_read_set_entries, unlocked}
use plsf.Index.{addr2write_idx, write_idx2read_idx}
use plsf.Stm.State.{
  Shared, WriteSetEntry, Deletable, State, Outcome, ok, restart, spinning, failed, Env, set_shared,
  set_myd, pure, ◌>>=◌, ◌>>◌,
}
use plsf.Stm.Indicator.{with_bit}
use plsf.Stm.Conflict.{get_ts_of_wlock, get_lowest_ts, is_empty}
use plsf.Stm.Locks.{
  read_round, write_round, compare_exchange, wait_lock, store_ri, try_wait_read_lock_slow_path,
  try_wait_write_lock_slow_path, read_set_add_entry, write_set_add_entry, arrive_and_check,
  try_wait_read_lock, write_lock_fast_path, try_wait_write_lock,
}
use plsf.Stm.Locks.Rely.{Post, RoundPost, bind, wait_lock_lem}
use plsf.Stm.Locks.Order.{enter_slow_path_frame}

-- The fast path changes nothing but the lock words.
write_lock_fast_path_frame :
    (C : Bool → Shared → Type 0) (s : State) (widx : ℕ)
    → ((b : Bool) (wlocks : ℕ → ℕ) → C b (record s.shared { wlocks = wlocks }))
    → C (write_lock_fast_path s widx).0 (write_lock_fast_path s widx).1
unfolding write_lock_fast_path compare_exchange
write_lock_fast_path_frame C s widx reach = elim (Bool-cases (s.shared.wlocks widx == s.myd.tid)) [
  | inl own ↦ rw own (reach true s.shared.wlocks)
  | inr other ↦ elim (Bool-cases (s.shared.wlocks widx == unlocked)) [
    | inl free ↦ rw (other, free) (reach _ _)
    | inr taken ↦ rw (other, taken) (reach false s.shared.wlocks)
  ]
]

-- A run that never restarts.
pub Post-mono :
    {A : Type 0} (Q : A → State → Type 0) (R : State → Type 0) (m : Outcome A)
    → Post Q (λ _. ⊥) m
    → Post Q R m
Post-mono Q R (ok x s) h = h
Post-mono Q R (restart s) h = absurd h
Post-mono Q R spinning h = tt
Post-mono Q R failed h = tt

-- A property of the parts of the state that are not locks.
abbrev pub Aside : Type 1
Aside =
    (mem : ℕ → ℕ) (ws : List WriteSetEntry) (alog : List Deletable) (flog : List ℕ)
    (attempt tid : ℕ) (active : Bool)
    → Type 0

abbrev pub Holds : Aside → State → Type 0
Holds P s = P s.shared.mem s.myd.write_set s.myd.alog s.myd.flog s.myd.attempt s.myd.tid s.active

module _ (P : Aside) where
  abbrev On : State → Type 0
  On s = P s.shared.mem s.myd.write_set s.myd.alog s.myd.flog s.myd.attempt s.myd.tid s.active

  abbrev pub Steady : List Env → Type 0
  Steady rounds = All (λ e. (s : State) → On s → On (set_shared s (e s.shared))) rounds

  read_round-On :
      (widx ridx ri : ℕ) (s : State) → On s → RoundPost On (λ _. On) (read_round widx ridx ri s)
  unfolding read_round
  read_round-On widx ridx ri s h = elim (Bool-cases (s.shared.wlocks widx == unlocked)) [
    | inl free ↦ rw free h
    | inr busy ↦
        rw busy (elim (Bool-cases (ltb (get_ts_of_wlock s.shared widx s.myd.tid).ts s.myd.my_ts)) [
          | inl lower ↦ rw lower h
          | inr higher ↦ rw higher h
        ])
  ]

  write_round-On :
      (widx ridx ri : ℕ) (s : State) → On s → RoundPost On (λ _. On) (write_round widx ridx ri s)
  unfolding write_round compare_exchange
  write_round-On widx ridx ri s h =
      let g = compare_exchange s.shared widx unlocked s.myd.tid in
      elim (Bool-cases ((g.wlocks widx == s.myd.tid) && is_empty g widx s.myd.tid)) [
        | inl done ↦ rw done h
        | inr more ↦
            rw more (elim (Bool-cases (ltb (get_lowest_ts g widx s.myd.tid).ts s.myd.my_ts)) [
              | inl lower ↦ rw lower h
              | inr higher ↦ rw higher h
            ])
      ]

  read_slow_path-On :
      (rounds : List Env) (widx ridx ri : ℕ) (s : State)
      → Steady rounds
      → On s
      → Post (λ _. On) (λ _. ⊥) (try_wait_read_lock_slow_path rounds widx ridx ri s)
  unfolding try_wait_read_lock_slow_path
  read_slow_path-On rounds widx ridx ri s quiet h =
      enter_slow_path_frame s
        (λ s'. Post (λ _. On) (λ _. ⊥) (wait_lock (read_round widx ridx ri) rounds s'))
        λ clock ts txn.
          wait_lock_lem On (λ _. On) (λ _. ⊥) (read_round widx ridx ri) (read_round-On widx ridx ri)
            rounds _ quiet h

  write_slow_path-On :
      (rounds : List Env) (widx : ℕ) (s : State)
      → Steady rounds
      → On s
      → Post (λ _. On) (λ _. ⊥) (try_wait_write_lock_slow_path rounds widx s)
  unfolding try_wait_write_lock_slow_path
  write_slow_path-On rounds widx s quiet h =
      enter_slow_path_frame s
        (λ s'.
          Post (λ _. On) (λ _. ⊥)
            (wait_lock
              (write_round widx (write_idx2read_idx widx s'.myd.tid)
                (s'.shared.read_indicators (write_idx2read_idx widx s'.myd.tid)))
              rounds
              (set_shared s' (
                store_ri s'.shared (write_idx2read_idx widx s'.myd.tid) (
                  with_bit (s'.shared.read_indicators (write_idx2read_idx widx s'.myd.tid))
                    widx)))))
        λ clock ts txn.
          wait_lock_lem On (λ _. On) (λ _. ⊥) (write_round widx _ _) (write_round-On widx _ _)
            rounds _ quiet h

  pub try_wait_read_lock-On :
      (rounds : List Env) (addr : ℕ) (s : State)
      → Steady rounds
      → On s
      → Post (λ _. On) (λ _. ⊥) (try_wait_read_lock rounds addr s)
  unfolding try_wait_read_lock read_set_add_entry arrive_and_check
  try_wait_read_lock-On rounds addr s quiet h =
      let widx = addr2write_idx addr in
      let ridx = write_idx2read_idx widx s.myd.tid in
      let ri = s.shared.read_indicators ridx in
      elim (Bool-cases (with_bit ri widx == ri)) [
        | inl already ↦ rw already h
        | inr absent ↦
            rw absent (elim (Bool-cases (length s.myd.read_set == max_read_set_entries)) [
              | inl full ↦ rw full tt
              | inr room ↦ rw room (checked widx ridx (with_bit ri widx))
            ])
      ]
    where
      after : (widx ridx newri : ℕ) → State
      after widx ridx newri = record s {
        shared = store_ri s.shared ridx newri;
        myd = record s.myd { read_set = s.myd.read_set ++ widx ∷ [] };
      }

      checked :
          (widx ridx newri : ℕ)
          → Post
              (λ _. On)
              (λ _. ⊥)
              (arrive_and_check rounds widx ridx newri
                (set_myd s (record s.myd { read_set = s.myd.read_set ++ widx ∷ [] })))
      checked widx ridx newri =
          let wstate = s.shared.wlocks widx % 2 ^ 16 in
          elim (Bool-cases ((wstate == unlocked) || (wstate == s.myd.tid))) [
            | inl free ↦ rw free h
            | inr busy ↦
                rw busy (read_slow_path-On rounds widx ridx newri (after widx ridx newri) quiet h)
          ]

  pub try_wait_write_lock-On :
      (L : Bool → State → Type 0) (rounds : List Env) (addr : ℕ) (s : State)
      → Steady rounds
      → ((s : State) → On s → Post L (λ _. ⊥) ((write_set_add_entry addr >> pure true) s))
      → ((s : State) → On s → L false s)
      → On s
      → Post L (λ _. ⊥) (try_wait_write_lock rounds addr s)
  unfolding try_wait_write_lock
  try_wait_write_lock-On L rounds addr s quiet log refuse h =
      write_lock_fast_path_frame
        (λ fast g.
          Post L (λ _. ⊥)
            (if fast
              then (write_set_add_entry addr >> pure true) (set_shared s g)
              else (try_wait_write_lock_slow_path rounds (addr2write_idx addr) >>= λ got.
                    if got then write_set_add_entry addr >> pure true else pure false)
                  (set_shared s g)))
        s (addr2write_idx addr) finish
    where
      finish_lock :
          (got : Bool) (s : State)
          → On s
          → Post L (λ _. ⊥) ((if got then write_set_add_entry addr >> pure true else pure false) s)
      finish_lock true s h = log s h
      finish_lock false s h = refuse s h

      after : (ℕ → ℕ) → State
      after wlocks = set_shared s (record s.shared { wlocks = wlocks })

      finish :
          (fast : Bool) (wlocks : ℕ → ℕ)
          → Post L
              (λ _. ⊥)
              (if fast
                then (write_set_add_entry addr >> pure true)
                    (set_shared s (record s.shared { wlocks = wlocks }))
                else (try_wait_write_lock_slow_path rounds (addr2write_idx addr) >>= λ got.
                      if got then write_set_add_entry addr >> pure true else pure false)
                    (set_shared s (record s.shared { wlocks = wlocks })))
      finish true wlocks = log (after wlocks) h
      finish false wlocks =
          bind (λ _. On) L (λ _. ⊥)
            (try_wait_write_lock_slow_path rounds (addr2write_idx addr) (after wlocks))
            (λ got. if got then write_set_add_entry addr >> pure true else pure false)
            (write_slow_path-On rounds (addr2write_idx addr) (after wlocks) quiet h) finish_lock

-- Two facts about one run.
pub Post-and :
    {A : Type 0} (Q Q' : A → State → Type 0) (R R' : State → Type 0) (m : Outcome A)
    → Post Q R m
    → Post Q' R' m
    → Post (λ a s. Q a s × Q' a s) (λ s. R s × R' s) m
Post-and Q Q' R R' (ok x s) h h' = (h, h')
Post-and Q Q' R R' (restart s) h h' = (h, h')
Post-and Q Q' R R' spinning h h' = tt
Post-and Q Q' R R' failed h h' = tt

pub Post-weaken :
    {A : Type 0} (Q Q' : A → State → Type 0) (R R' : State → Type 0) (m : Outcome A)
    → ((a : A) (s : State) → Q a s → Q' a s)
    → ((s : State) → R s → R' s)
    → Post Q R m
    → Post Q' R' m
Post-weaken Q Q' R R' (ok x s) f g h = f x s h
Post-weaken Q Q' R R' (restart s) f g h = g s h
Post-weaken Q Q' R R' spinning f g h = tt
Post-weaken Q Q' R R' failed f g h = tt
