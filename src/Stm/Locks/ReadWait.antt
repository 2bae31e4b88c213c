-- ===== src/Stm/Locks/ReadWait.antt =====
-- stms/2PLSF.hpp: the loop in the slow path of `tryWaitReadLock`.
use plsf.Prelude.{
  ◌⊎◌, ℕ, ◌<◌, ◌≤◌, ◌≡◌, ◌≢◌, refl, inl, inr, Bool, true, false, List, [], ◌∷◌, arith, ◌==◌, ltb,
  Bool-cases, All, subst,
}
use plsf.Config.{num_rwl, unlocked, no_timestamp}
use plsf.Index.{write_idx2read_idx}
use plsf.Stm.State.{State, Env, set_shared}
use plsf.Stm.Indicator.{arrived, without_bit}
use plsf.Stm.Conflict.{get_ts_of_wlock}
use plsf.Stm.Conflict.Minimum.{IsLockWord, IsAnnounced, get_ts_of_wlock_lem}
use plsf.Stm.Locks.{wait_lock, note_conflict, read_round, store_ri, try_wait_read_lock_slow_path}
use plsf.Stm.Locks.Rely.{Respects, Post, RoundPost, wait_lock_lem}
use plsf.Stm.Locks.Order.{Refused, InOrder, AllKept, enter_slow_path}
use plsf.Stm.Locks.InTheWay.{Doomed-of_announced, IsAnnounced-depart}
use plsf.Stm.Locks.Tracked.{
  none_skipped, logs_read, Tracked-skip, Tracked-unskip, Tracked-depart, Tracked-env, Kept-env,
}

-- The outcome of a read lock, `before` saying whether the thread had arrived already: on true the
-- thread has arrived at the lock and still holds all that it has logged, and a lock that it newly
-- got has no other writer; on false another thread is in the way.
abbrev pub ReadResult : ℕ → ℕ → Bool → Bool → State → Type 0
ReadResult t widx before true s =
    InOrder t s
    × AllKept t s
    × (arrived s.shared.read_indicators widx t ≡ true)
    × ((before ≡ true) ⊎ ((s.shared.wlocks widx ≡ unlocked) ⊎ (s.shared.wlocks widx ≡ t)))
ReadResult t widx before false s = Refused t widx s

module _ (t widx ri : ℕ) (p : widx < num_rwl) where
  -- While it waits: the bit is set, logged, and the local `ri` is the word that holds it.
  record ReadWait (s : State) : Type 0 where
    order : InOrder t s
    kept : AllKept t s
    here : arrived s.shared.read_indicators widx t ≡ true
    logged : logs_read widx s.myd.read_set ≡ true
    word : s.shared.read_indicators (write_idx2read_idx widx t) ≡ ri
    stamped : s.myd.my_ts ≢ no_timestamp
    small : s.myd.my_ts ≤ no_timestamp

  ReadWait-env :
      (e : Env) → Respects t e → (s : State) → ReadWait s → ReadWait (set_shared s (e s.shared))
  unfolding arrived
  ReadWait-env e r s h = record {
    order = record {
      who = h.order.who;
      range = h.order.range;
      words = r.lock_words s.shared h.order.words;
      tracked = Tracked-env t none_skipped e s.shared r h.order.tracked;
      runs = λ none. absurd (h.stamped none);
      own = h.small;
    };
    kept = Kept-env t none_skipped e s.shared r h.kept;
    here = rw (r.same_bits s.shared widx) h.here;
    logged = h.logged;
    word = rw (r.same_bits s.shared widx) h.word;
    stamped = h.stamped;
    small = h.small;
  }

  depart_InOrder :
      (s : State)
      → ReadWait s
      → InOrder t
          (set_shared s (store_ri s.shared (write_idx2read_idx widx t) (without_bit ri widx)))
  depart_InOrder s h = record {
    who = h.order.who;
    range = h.order.range;
    words = h.order.words;
    tracked =
        Tracked-unskip t widx
          (Tracked-depart t widx h.order.range p (Tracked-skip t widx h.order.tracked) ri
            (inl h.word))
          (h.order.tracked.writes widx refl) (h.order.tracked.owns widx refl) (λ _. h.logged);
    runs = h.order.runs;
    own = h.order.own;
  }

  -- A timestamp below one's own, found at the lock word, is that of a thread in the way.
  lower_writer :
      (s : State) (tid : ℕ)
      → IsLockWord (s.shared.wlocks widx)
      → (get_ts_of_wlock s.shared widx tid).ts < s.myd.my_ts
      → s.myd.my_ts ≤ no_timestamp
      → IsAnnounced s.shared widx tid (get_ts_of_wlock s.shared widx tid)
  lower_writer s tid word lower small = elim (get_ts_of_wlock_lem s.shared widx tid word) [
    | inl a ↦ a
    | inr nobody ↦ absurd (omega arith)
  ]

  read_round_die :
      (s : State)
      → ReadWait s
      → (get_ts_of_wlock s.shared widx s.myd.tid).ts < s.myd.my_ts
      → Refused t widx (
          set_shared
            (note_conflict s (get_ts_of_wlock s.shared widx s.myd.tid))
            (store_ri s.shared (write_idx2read_idx widx t) (without_bit ri widx)))
  read_round_die s h lower =
      let l = get_ts_of_wlock s.shared widx s.myd.tid in
      let a = lower_writer s s.myd.tid (h.order.words widx) lower h.small in
      (
        depart_InOrder s h,
        Doomed-of_announced s.shared widx s.myd.tid l s.myd.my_ts h.stamped lower a,
        IsAnnounced-depart s.shared widx t l p h.order.range
            (store_ri s.shared (write_idx2read_idx widx t) (without_bit ri widx)) ri (inl h.word)
            refl refl (λ _. refl) (subst (λ u. IsAnnounced s.shared widx u l) h.order.who a),
      )

  read_round_lem :
      (before : Bool) (s : State)
      → ReadWait s
      → RoundPost ReadWait
          (ReadResult t widx before)
          (read_round widx (write_idx2read_idx widx t) ri s)
  unfolding read_round
  read_round_lem before s h = elim (Bool-cases (s.shared.wlocks widx == unlocked)) [
    | inl free ↦ rw free (h.order, h.kept, h.here, inr (inl (ground arith)))
    | inr busy ↦
        rw busy (elim (Bool-cases (ltb (get_ts_of_wlock s.shared widx s.myd.tid).ts s.myd.my_ts)) [
          | inl lower ↦ rw lower (read_round_die s h (ground arith))
          | inr higher ↦ rw higher (record {
            order = h.order;
            kept = h.kept;
            here = h.here;
            logged = h.logged;
            word = h.word;
            stamped = h.stamped;
            small = h.small;
          })
        ])
  ]

ReadWait-rounds :
    (t widx ri : ℕ) (p : widx < num_rwl) (rounds : List Env)
    → All (Respects t) rounds
    → All
        (λ e.
          (s : State) → ReadWait t widx ri p s → ReadWait t widx ri p (set_shared s (e s.shared)))
        rounds
ReadWait-rounds t widx ri p [] quiet = tt
ReadWait-rounds t widx ri p (e ∷ es) quiet =
    (ReadWait-env t widx ri p e quiet.0, ReadWait-rounds t widx ri p es quiet.1)

module _ (t widx : ℕ) (p : widx < num_rwl) where
  pub slow_path_lem :
      (before : Bool) (rounds : List Env) (ri : ℕ) (s : State)
      → All (Respects t) rounds
      → s.shared.read_indicators (write_idx2read_idx widx t) ≡ ri
      → InOrder t s
      → AllKept t s
      → arrived s.shared.read_indicators widx t ≡ true
      → logs_read widx s.myd.read_set ≡ true
      → Post
          (ReadResult t widx before)
          (λ _. ⊥)
          (try_wait_read_lock_slow_path rounds widx (write_idx2read_idx widx t) ri s)
  unfolding try_wait_read_lock_slow_path
  slow_path_lem before rounds ri s quiet word order kept here logged =
      enter_slow_path s order.runs order.own
        (λ s'.
          Post (ReadResult t widx before) (λ _. ⊥)
            (wait_lock (read_round widx (write_idx2read_idx widx t) ri) rounds s'))
        λ clock ts txn stamped small.
          wait_lock_lem (ReadWait t widx ri p) (ReadResult t widx before) (λ _. ⊥)
            (read_round widx (write_idx2read_idx widx t) ri) (read_round_lem t widx ri p before)
            rounds _ (ReadWait-rounds t widx ri p rounds quiet)
            (record {
              order = record {
                who = order.who;
                range = order.range;
                words = order.words;
                tracked = order.tracked;
                runs = λ none. absurd (stamped none);
                own = small;
              };
              kept = kept;
              here = here;
              logged = logged;
              word = word;
              stamped = stamped;
              small = small;
            })
