-- ===== src/Stm/Locks/WriteWait.antt =====
-- stms/2PLSF.hpp: the loop in the slow path of `tryWaitWriteLock`.
use plsf.Prelude.{
  ℕ, ◌<◌, ◌≤◌, ◌≡◌, ◌≢◌, refl, inl, inr, Bool, true, false, ◌&&◌, List, [], ◌∷◌, arith, ◌==◌, ltb,
  if◌then◌else◌, update, update_lem, Bool-cases, All, ◌∙◌, subst,
}
use plsf.Config.{registry_max_threads, num_rwl, unlocked, no_timestamp}
use plsf.Index.{write_idx2read_idx}
use plsf.Stm.State.{Shared, WriteSetEntry, State, Env, set_shared}
use plsf.Stm.Indicator.{arrived, with_bit, without_bit, arrived-depart}
use plsf.Stm.Conflict.{get_lowest_ts, is_empty}
use plsf.Stm.Conflict.Readers.{is_empty_iff}
use plsf.Stm.Conflict.Minimum.{IsAnnounced, get_lowest_ts-Found}
use plsf.Stm.Locks.{wait_lock, compare_exchange, write_round, note_conflict, store_ts, store_ri}
use plsf.Stm.Locks.Rely.{Respects, Post, RoundPost, wait_lock_lem}
use plsf.Stm.Locks.Order.{Refused}
use plsf.Stm.Locks.InTheWay.{Doomed-of_announced, IsAnnounced-depart}
use plsf.Stm.Locks.Tracked.{Tracked-unskip}
use plsf.Stm.Locks.Taking.{Taking, IsTaking, Alone, Taking-cas, Taking-depart, Taking-env}

-- While it waits: the bit is set over the local `ri`, and the undo log is as at the start.
pub record WriteWait (t widx ri : ℕ) (ws : List WriteSetEntry) (s : State) : Type 0 where
  pub taking : IsTaking t widx s
  pub word : s.shared.read_indicators (write_idx2read_idx widx t) ≡ with_bit ri widx
  pub stamped : s.myd.my_ts ≢ no_timestamp
  pub small : s.myd.my_ts ≤ no_timestamp
  pub same_log : s.myd.write_set ≡ ws

-- The loop ends with the lock and no other thread in the way, or with nothing taken and a
-- transaction that must die.
abbrev pub TookLock : ℕ → ℕ → List WriteSetEntry → Bool → State → Type 0
TookLock t widx ws true s =
    IsTaking t widx s
    × (s.shared.wlocks widx ≡ t)
    × (arrived s.shared.read_indicators widx t ≡ false)
    × Alone t widx s
    × (s.myd.write_set ≡ ws)
    × (s.myd.my_ts ≢ no_timestamp)
    × (s.myd.my_ts ≤ no_timestamp)
TookLock t widx ws false s = Refused t widx s

module _ (widx ri : ℕ) (ws : List WriteSetEntry) (p : widx < num_rwl) (s : State) where
  abbrev t : ℕ
  t = s.myd.tid

  abbrev ridx : ℕ
  ridx = write_idx2read_idx widx t

  abbrev g : Shared
  g = compare_exchange s.shared widx unlocked t

  departed_alone :
      (h : WriteWait t widx ri ws s) (w : ℕ)
      → w < registry_max_threads
      → arrived (update s.shared.read_indicators ridx (without_bit ri widx)) widx w
        ≡ (if (widx == widx) && (w == t) then false else arrived s.shared.read_indicators widx w)
  departed_alone h w lt =
      arrived-depart s.shared.read_indicators widx t widx w p h.taking.range p lt ri (inr h.word)

  round_acquired :
      WriteWait t widx ri ws s
      → (g.wlocks widx ≡ t)
      → is_empty g widx t ≡ true
      → TookLock t widx ws true
          (set_shared s (store_ts (store_ri g ridx (without_bit ri widx)) t no_timestamp))
  unfolding compare_exchange
  round_acquired h held empty = (
    Taking-depart t widx p ri (inr h.word)
        (Taking-cas t widx p s.shared unlocked t (inl h.taking.range) h.taking),
    held,
    ground (arith, departed_alone h t h.taking.range),
    λ w registered lt ne.
        ground (arith, departed_alone h w lt, (is_empty_iff g widx t).0 empty w registered ne),
    h.same_log,
    h.stamped,
    h.small,
  )

  -- The state in which the loop gives up.
  given_up :
      WriteWait t widx ri ws s
      → Taking t widx
          (compare_exchange (store_ri g ridx (without_bit ri widx)) widx t unlocked).wlocks
          (update s.shared.read_indicators ridx (without_bit ri widx))
          t
          s.myd.write_set
          s.myd.read_set
  unfolding compare_exchange
  given_up h = Taking-cas t widx p (store_ri g ridx (without_bit ri widx)) t unlocked (inr refl) (
      Taking-depart t widx p ri (inr h.word)
        (Taking-cas t widx p s.shared unlocked t (inl h.taking.range) h.taking))

  not_held_after :
      (k : Shared) → t < registry_max_threads → (compare_exchange k widx t unlocked).wlocks widx ≢ t
  unfolding compare_exchange
  not_held_after k lt e = ground (arith, update_lem k.wlocks widx unlocked widx)

  lower_thread :
      WriteWait t widx ri ws s
      → (get_lowest_ts g widx t).ts < s.myd.my_ts
      → IsAnnounced g widx t (get_lowest_ts g widx t)
  lower_thread h lower =
      let word =
        (Taking-cas t widx p s.shared unlocked t (inl h.taking.range) h.taking).words widx in
      elim (get_lowest_ts-Found g widx t word) [
        | inl a ↦ a
        | inr nobody ↦ let small = h.small in absurd (omega arith)
      ]

  -- Giving the lock up changes the lock word only if it is the thread's own.
  foreign_word :
      (k : Shared)
      → k.wlocks widx ≢ t
      → (compare_exchange k widx t unlocked).wlocks widx ≡ k.wlocks widx
  unfolding compare_exchange
  foreign_word k ne = ground arith

  round_die :
      WriteWait t widx ri ws s
      → (get_lowest_ts g widx t).ts < s.myd.my_ts
      → TookLock t widx ws false (
          set_shared
            (note_conflict s (get_lowest_ts g widx t))
            (compare_exchange (store_ri g ridx (without_bit ri widx)) widx t unlocked))
  unfolding compare_exchange
  round_die h lower =
      let k = store_ri g ridx (without_bit ri widx) in
      let up = given_up h in
      (
        record {
          who = refl;
          range = h.taking.range;
          words = up.words;
          tracked =
              Tracked-unskip t widx up.tracked
                (λ held. absurd (not_held_after k h.taking.range held))
                (λ logged. absurd (ground (arith, h.taking.unlogged)))
                (λ here. absurd (ground (arith, departed_alone h t h.taking.range)));
          runs = λ none. absurd (h.stamped none);
          own = h.small;
        },
        Doomed-of_announced g widx t (get_lowest_ts g widx t) s.myd.my_ts h.stamped lower
            (lower_thread h lower),
        IsAnnounced-depart g widx t (get_lowest_ts g widx t) p h.taking.range
            (compare_exchange k widx t unlocked) ri (inr h.word) refl refl (foreign_word k)
            (lower_thread h lower),
      )

  write_round_at :
      WriteWait t widx ri ws s
      → RoundPost (WriteWait t widx ri ws) (TookLock t widx ws) (write_round widx ridx ri s)
  unfolding write_round compare_exchange
  write_round_at h = elim (Bool-cases ((g.wlocks widx == t) && is_empty g widx t)) [
    | inl done ↦ rw done (round_acquired h (ground arith) (ground arith))
    | inr more ↦ rw more (elim (Bool-cases (ltb (get_lowest_ts g widx t).ts s.myd.my_ts)) [
      | inl lower ↦ rw lower (round_die h (ground arith))
      | inr higher ↦ rw higher (record {
        taking = Taking-cas t widx p s.shared unlocked t (inl h.taking.range) h.taking;
        word = h.word;
        stamped = h.stamped;
        small = h.small;
        same_log = h.same_log;
      })
    ])
  ]

module _ (t widx ri : ℕ) (ws : List WriteSetEntry) (p : widx < num_rwl) where
  write_round_lem :
      (s : State)
      → WriteWait t widx ri ws s
      → RoundPost
          (WriteWait t widx ri ws)
          (TookLock t widx ws)
          (write_round widx (write_idx2read_idx widx t) ri s)
  write_round_lem s h =
      subst
        (λ x.
          WriteWait x widx ri ws s
          → RoundPost (WriteWait x widx ri ws) (TookLock x widx ws)
              (write_round widx (write_idx2read_idx widx x) ri s))
        h.taking.who (write_round_at widx ri ws p s) h

  WriteWait-env :
      (e : Env)
      → Respects t e
      → (s : State) → WriteWait t widx ri ws s
      → WriteWait t widx ri ws (set_shared s (e s.shared))
  WriteWait-env e r s h = record {
    taking = Taking-env t widx p e s r h.taking;
    word = r.same_bits s.shared widx ∙ h.word;
    stamped = h.stamped;
    small = h.small;
    same_log = h.same_log;
  }

  WriteWait-rounds :
      (rounds : List Env)
      → All (Respects t) rounds
      → All
          (λ e.
            (s : State)
            → WriteWait t widx ri ws s
            → WriteWait t widx ri ws (set_shared s (e s.shared)))
          rounds
  WriteWait-rounds [] quiet = tt
  WriteWait-rounds (e ∷ es) quiet = (WriteWait-env e quiet.0, WriteWait-rounds es quiet.1)

  pub write_wait_lem :
      (rounds : List Env) (s : State)
      → All (Respects t) rounds
      → WriteWait t widx ri ws s
      → Post
          (TookLock t widx ws)
          (λ _. ⊥)
          (wait_lock (write_round widx (write_idx2read_idx widx t) ri) rounds s)
  write_wait_lem rounds s quiet h =
      wait_lock_lem (WriteWait t widx ri ws) (TookLock t widx ws) (λ _. ⊥)
        (write_round widx (write_idx2read_idx widx t) ri) write_round_lem rounds s
        (WriteWait-rounds rounds quiet) h
