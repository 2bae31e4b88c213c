-- ===== src/Stm/Locks/Progress.antt =====
-- stms/2PLSF.hpp: the end of the waits in `tryWaitReadLock` and `tryWaitWriteLock`.
use plsf.Prelude.{
  ℕ, ◌%◌, ◌^◌, ◌<◌, ◌≡◌, ◌≢◌, refl, ◌⊎◌, ◌∙◌, sym, Bool, true, false, ◌&&◌, ◌||◌, List, [], ◌∷◌,
  ◌++◌, arith, ltb, ◌==◌, Bool-cases, inl, inr, if◌then◌else◌, length, update_self,
}
use plsf.Config.{unlocked, max_read_set_entries, max_write_set_entries}
use plsf.Index.{addr2write_idx, write_idx2read_idx}
use plsf.Stm.State.{Shared, State, Outcome, ok, spinning, Env, set_shared, ◌>>◌, ◌>>=◌, pure}
use plsf.Stm.Indicator.{arrived, with_bit}
use plsf.Stm.Conflict.{get_max_threads, get_ts_of_wlock, get_lowest_ts, is_empty}
use plsf.Stm.Conflict.Readers.{is_empty_iff}
use plsf.Stm.Locks.{
  Verdict, acquired, die, wait, wait_lock, read_round, write_round, compare_exchange, store_ri,
  try_wait_read_lock, try_wait_read_lock_slow_path, try_wait_write_lock,
  try_wait_write_lock_slow_path, read_set_add_entry, write_set_add_entry, arrive_and_check,
  write_lock_fast_path,
}
use plsf.Stm.Locks.Rely.{Returns, Returns-and_then}
use plsf.Stm.Locks.Order.{enter_slow_path_frame}

-- The run returns, and `Q` holds of the state that it leaves.
abbrev pub Ends : {A : Type 0} → (State → Type 0) → Outcome A → Type 0
Ends Q = Returns (λ _. Q)

-- One pass through a loop keeps `P`; in the last one it does not go on waiting.
abbrev Passes : (State → Type 0) → Verdict → Type 0
Passes P (acquired s) = P s
Passes P (die s) = P s
Passes P (wait s) = P s

abbrev Stops : Verdict → Type 0
Stops (acquired s) = Unit
Stops (die s) = Unit
Stops (wait s) = ⊥

module _ (P : State → Type 0) (round : State → Verdict)
    (keep : (s : State) → P s → Passes P (round s))
    (env : (s : State) (g : Shared) → P s → P (set_shared s g)) where
  last_round :
      (v : Verdict)
      → Passes P v
      → Stops v
      → Ends P (elim v [ acquired s' ↦ ok true s' | die s' ↦ ok false s' | wait s' ↦ spinning ])
  last_round (acquired s) h stop = h
  last_round (die s) h stop = h
  last_round (wait s) h stop = absurd stop

  wait_lock-Ends :
      (es : List Env) (e : Env)
      → ((s : State) → P s → Stops (round (set_shared s (e s.shared))))
      → (s : State) → P s
      → Ends P (wait_lock round (es ++ e ∷ []) s)
  unfolding wait_lock
  wait_lock-Ends [] e stop s p = go (round s) (keep s p)
    where
      go :
          (v : Verdict)
          → Passes P v
          → Ends P (elim v [
            | acquired s' ↦ ok true s'
            | die s' ↦ ok false s'
            | wait s' ↦ wait_lock round [] (set_shared s' (e s'.shared))
          ])
      go (acquired s') h = h
      go (die s') h = h
      go (wait s') h =
          let next = set_shared s' (e s'.shared) in
          last_round (round next) (keep next (env s' (e s'.shared) h)) (stop s' h)
  wait_lock-Ends (x ∷ es) e stop s p =
      go (round s) (keep s p)
        (λ s' h. wait_lock-Ends es e stop (set_shared s' (x s'.shared)) (env s' (x s'.shared) h))
    where
      go :
          (v : Verdict)
          → Passes P v
          → ((s' : State)
              → P s'
              → Ends P (wait_lock round (es ++ e ∷ []) (set_shared s' (x s'.shared))))
          → Ends P (elim v [
            | acquired s' ↦ ok true s'
            | die s' ↦ ok false s'
            | wait s' ↦ wait_lock round (es ++ e ∷ []) (set_shared s' (x s'.shared))
          ])
      go (acquired s') h ih = h
      go (die s') h ih = h
      go (wait s') h ih = ih s' h

read_round-Passes : (widx ridx ri : ℕ) (s : State) → Passes (λ _. Unit) (read_round widx ridx ri s)
unfolding read_round
read_round-Passes widx ridx ri s = elim (Bool-cases (s.shared.wlocks widx == unlocked)) [
  | inl free ↦ rw free tt
  | inr busy ↦
      rw busy (elim (Bool-cases (ltb (get_ts_of_wlock s.shared widx s.myd.tid).ts s.myd.my_ts)) [
        | inl lower ↦ rw lower tt
        | inr higher ↦ rw higher tt
      ])
]

read_round-Stops :
    (widx ridx ri : ℕ) (s : State)
    → s.shared.wlocks widx ≡ unlocked
    → Stops (read_round widx ridx ri s)
unfolding read_round
read_round-Stops widx ridx ri s free =
    let now : (s.shared.wlocks widx == unlocked) ≡ true = ground (arith, free) in rw now tt

-- With room in the read set, `tryWaitReadLock` returns, whatever the other threads do meanwhile, if
-- after the last of the rounds the word of the lock is UNLOCKED: it neither waits on nor fails.
pub try_wait_read_lock-Ends :
    (es : List Env) (e : Env) (addr : ℕ) (s : State)
    → ((g : Shared) → (e g).wlocks (addr2write_idx addr) ≡ unlocked)
    → length s.myd.read_set < max_read_set_entries
    → Ends (λ _. Unit) (try_wait_read_lock (es ++ e ∷ []) addr s)
unfolding try_wait_read_lock read_set_add_entry arrive_and_check try_wait_read_lock_slow_path
try_wait_read_lock-Ends es e addr s free room =
    let widx = addr2write_idx addr in
    let ridx = write_idx2read_idx widx s.myd.tid in
    let ri = s.shared.read_indicators ridx in
    let wstate = s.shared.wlocks widx % 2 ^ 16 in
    let left : (length s.myd.read_set == max_read_set_entries) ≡ false = ground (arith, room) in
    elim (Bool-cases (with_bit ri widx == ri)) [
      | inl already ↦ rw already tt
      | inr absent ↦
          rw (absent, left)
            (elim (Bool-cases ((wstate == unlocked) || (wstate == s.myd.tid))) [
              | inl fast ↦ rw fast tt
              | inr busy ↦ rw busy (
                  wait_lock-Ends (λ _. Unit) (read_round widx ridx (with_bit ri widx))
                    (λ s _. read_round-Passes widx ridx (with_bit ri widx) s) (λ s g _. tt) es e
                    (λ s _.
                      read_round-Stops widx ridx (with_bit ri widx) (set_shared s (e s.shared))
                        (free s.shared))
                    _ tt)
            ])
    ]

-- What the write loop keeps: who the thread is, and its undo log.
abbrev Same : ℕ → ℕ → State → Type 0
Same tid writes s = (s.myd.tid ≡ tid) × (length s.myd.write_set ≡ writes)

write_round-Passes :
    (tid writes widx ridx ri : ℕ) (s : State)
    → Same tid writes s
    → Passes (Same tid writes) (write_round widx ridx ri s)
unfolding write_round
write_round-Passes tid writes widx ridx ri s h =
    let g = compare_exchange s.shared widx unlocked s.myd.tid in
    elim (Bool-cases ((g.wlocks widx == s.myd.tid) && is_empty g widx s.myd.tid)) [
      | inl got ↦ rw got h
      | inr busy ↦
          rw busy (elim (Bool-cases (ltb (get_lowest_ts g widx s.myd.tid).ts s.myd.my_ts)) [
            | inl lower ↦ rw lower h
            | inr higher ↦ rw higher h
          ])
    ]

-- The lock word is free or the thread's own, and no other registered thread has arrived.
abbrev pub Open : ℕ → ℕ → Shared → Type 0
Open widx tid g =
    ((g.wlocks widx ≡ unlocked) ⊎ (g.wlocks widx ≡ tid))
    × ((u : ℕ)
        → u < get_max_threads g.max_tid % 2 ^ 32
        → u ≢ tid
        → arrived g.read_indicators widx u ≡ false)

Stops-when_got :
    (widx ridx ri : ℕ) (s : State)
    → ((compare_exchange s.shared widx unlocked s.myd.tid).wlocks widx == s.myd.tid) ≡ true
    → is_empty (compare_exchange s.shared widx unlocked s.myd.tid) widx s.myd.tid ≡ true
    → Stops (write_round widx ridx ri s)
unfolding write_round
Stops-when_got widx ridx ri s mine empty = rw (mine, empty) tt

write_round-Stops :
    (tid writes widx ridx ri : ℕ) (s : State)
    → Same tid writes s
    → Open widx tid s.shared
    → Stops (write_round widx ridx ri s)
unfolding compare_exchange
write_round-Stops tid writes widx ridx ri s (who, log) (word, clear) =
    let g = compare_exchange s.shared widx unlocked s.myd.tid in
    let mine : (g.wlocks widx == s.myd.tid) ≡ true = elim word [
      | inl free ↦ ground (arith, free, update_self s.shared.wlocks widx s.myd.tid)
      | inr own ↦ ground (arith, own, who, update_self s.shared.wlocks widx s.myd.tid)
    ] in
    let empty : is_empty g widx s.myd.tid ≡ true =
      (is_empty_iff g widx s.myd.tid).1 (λ u lt ne. clear u lt (λ e. ne (e ∙ sym who))) in
    Stops-when_got widx ridx ri s mine empty

write_slow_path-Ends :
    (es : List Env) (e : Env) (widx : ℕ) (s : State)
    → ((g : Shared) → Open widx s.myd.tid (e g))
    → Ends
        (Same s.myd.tid (length s.myd.write_set))
        (try_wait_write_lock_slow_path (es ++ e ∷ []) widx s)
unfolding try_wait_write_lock_slow_path
write_slow_path-Ends es e widx s free =
    let P = Same s.myd.tid (length s.myd.write_set) in
    enter_slow_path_frame s
      (λ s'. Ends P (
        wait_lock
          (write_round widx (write_idx2read_idx widx s'.myd.tid)
            (s'.shared.read_indicators (write_idx2read_idx widx s'.myd.tid)))
          (es ++ e ∷ [])
          (set_shared s' (
            store_ri s'.shared (write_idx2read_idx widx s'.myd.tid)
              (with_bit (s'.shared.read_indicators (write_idx2read_idx widx s'.myd.tid)) widx)))))
      λ clock ts txn.
        wait_lock-Ends P (write_round widx _ _)
          (write_round-Passes s.myd.tid (length s.myd.write_set) widx _ _) (λ s' g h. h) es e
          (λ s' h.
            write_round-Stops s.myd.tid (length s.myd.write_set) widx _ _
              (set_shared s' (e s'.shared)) h (free s'.shared))
          _ (refl, refl)

log_entry-Ends :
    (addr : ℕ) (s : State)
    → length s.myd.write_set < max_write_set_entries
    → Ends (λ _. Unit) ((write_set_add_entry addr >> pure true) s)
unfolding write_set_add_entry
log_entry-Ends addr s room =
    let left : (length s.myd.write_set == max_write_set_entries) ≡ false = ground arith in
    rw left tt

-- With room in the undo log, `tryWaitWriteLock` returns, whatever the other threads do meanwhile, if
-- after the last of the rounds the word of the lock is UNLOCKED or the thread's own and no other
-- registered thread has arrived: it neither waits on nor fails.
pub try_wait_write_lock-Ends :
    (es : List Env) (e : Env) (addr : ℕ) (s : State)
    → ((g : Shared) → Open (addr2write_idx addr) s.myd.tid (e g))
    → length s.myd.write_set < max_write_set_entries
    → Ends (λ _. Unit) (try_wait_write_lock (es ++ e ∷ []) addr s)
unfolding try_wait_write_lock
try_wait_write_lock-Ends es e addr s free room = go (write_lock_fast_path s (addr2write_idx addr))
  where
    took :
        (got : Bool) (s' : State)
        → Same s.myd.tid (length s.myd.write_set) s'
        → Ends (λ _. Unit) ((if got then write_set_add_entry addr >> pure true else pure false) s')
    took true s' (who, log) = log_entry-Ends addr s' (omega (arith, log, room))
    took false s' h = tt

    go :
        (r : Bool × Shared)
        → Ends
            (λ _. Unit)
            (if r.0
              then (write_set_add_entry addr >> pure true) (set_shared s r.1)
              else (try_wait_write_lock_slow_path (es ++ e ∷ []) (addr2write_idx addr) >>= λ got.
                    if got then write_set_add_entry addr >> pure true else pure false)
                  (set_shared s r.1))
    go (true, g) = log_entry-Ends addr (set_shared s g) room
    go (false, g) =
        Returns-and_then (λ _. Same s.myd.tid (length s.myd.write_set)) (λ _ _. Unit)
          (try_wait_write_lock_slow_path (es ++ e ∷ []) (addr2write_idx addr) (set_shared s g))
          (λ got. if got then write_set_add_entry addr >> pure true else pure false)
          (write_slow_path-Ends es e (addr2write_idx addr) (set_shared s g) free) took
