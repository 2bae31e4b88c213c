-- ===== src/Stm/Program/Atomic.antt =====
-- stms/2PLSF.hpp: `pload` and `pstore` against the undo log.
use plsf.Prelude.{
  ℕ, ◌≡◌, refl, Bool, true, false, not, List, [], ◌∷◌, All, arith, ◌==◌, update, Bool-cases, inl,
  inr, ◌∙◌, if◌then◌else◌, length,
}
use plsf.Config.{max_write_set_entries}
use plsf.Stm.State.{Shared, Deletable, State, Env, pure, ◌>>◌}
use plsf.Stm.Locks.{write_set_add_entry, try_wait_read_lock, try_wait_write_lock}
use plsf.Stm.Locks.Frame.{Post-mono, try_wait_read_lock-On, try_wait_write_lock-On}
use plsf.Stm.Locks.Rely.{Post, bind}
use plsf.Stm.Txn.{
  rollback, reclaim_all, abort_tx, abort_and_jump, pload, pstore, read_mem, write_mem,
}
use plsf.Stm.Txn.Release.{release_locks_frame}
use plsf.Stm.Program.Undo.{UndoesAside, Undoable-rounds, Leaves, Undoes, Undoable, rollback_store}

module _ (a v : ℕ) where
  abbrev pub Restored : State → Type 0
  Restored s = s.shared.mem a ≡ v

  -- After a write lock, undoing takes the address back even from one more store.
  abbrev Logged : ℕ → Bool → State → Type 0
  Logged addr true s =
      (s.active ≡ true)
      × ((x : ℕ) → Undoes a v (update s.shared.mem addr x) s.myd.write_set s.myd.alog)
  Logged addr false s = Undoable a v s

  log_entry-Undoable :
      (addr : ℕ) (s : State)
      → Undoable a v s
      → Post (Logged addr) (λ _. ⊥) ((write_set_add_entry addr >> pure true) s)
  unfolding write_set_add_entry
  log_entry-Undoable addr s h =
      elim (Bool-cases (length s.myd.write_set == max_write_set_entries)) [
        | inl full ↦ rw full tt
        | inr room ↦
            rw room
              (h.0, λ x. (rollback_store s.myd.write_set s.shared.mem addr x a ∙ h.1.0, h.1.1))
      ]

  reclaim_all-mem :
      (xs : List Deletable) (g : Shared)
      → All (λ x. (g : Shared) → (x.reclaim x.obj g).mem a ≡ g.mem a) xs
      → (reclaim_all xs g).mem a ≡ g.mem a
  unfolding reclaim_all
  reclaim_all-mem [] g all = refl
  reclaim_all-mem (x ∷ xs) g all = reclaim_all-mem xs (x.reclaim x.obj g) all.1 ∙ all.0 g

  abort-Restored : (s : State) → Undoable a v s → Restored (abort_tx true s)
  unfolding abort_tx
  abort-Restored s h =
      reclaim_all-mem s.myd.alog _ h.1.1
      ∙ release_locks_frame (λ g. g.mem a ≡ rollback s.myd.write_set s.shared.mem a) s
          (record s.shared { mem = rollback s.myd.write_set s.shared.mem }) (λ wlocks ri. refl)
      ∙ h.1.0

  pub pload-Undoable :
      (rounds : List Env) (addr : ℕ) (s : State)
      → All (Leaves a) rounds
      → Undoable a v s
      → Post (λ _. Undoable a v) Restored (pload rounds addr s)
  unfolding pload
  pload-Undoable rounds addr s quiet h =
      let inside : not s.active ≡ false = ground arith in
      rw inside (
        bind (λ _. Undoable a v) (λ _. Undoable a v) Restored (try_wait_read_lock rounds addr s)
          (λ got. if got then read_mem addr else abort_and_jump)
          (Post-mono (λ _. Undoable a v) Restored _
            (try_wait_read_lock-On (UndoesAside a v) rounds addr s
              (Undoable-rounds a v rounds quiet) h))
          next)
    where
      next :
          (got : Bool) (s : State)
          → Undoable a v s
          → Post (λ _. Undoable a v) Restored ((if got then read_mem addr else abort_and_jump) s)
      next true s h = h
      next false s h = abort-Restored s h

  pub pstore-Undoable :
      (rounds : List Env) (addr x : ℕ) (s : State)
      → All (Leaves a) rounds
      → Undoable a v s
      → Post (λ _. Undoable a v) Restored (pstore rounds addr x s)
  unfolding pstore
  pstore-Undoable rounds addr x s quiet h =
      let inside : not s.active ≡ false = ground arith in
      rw inside (
        bind (Logged addr) (λ _. Undoable a v) Restored (try_wait_write_lock rounds addr s)
          (λ got. if got then write_mem addr x else abort_and_jump)
          (Post-mono (Logged addr) Restored _ (
            try_wait_write_lock-On (UndoesAside a v) (Logged addr) rounds addr s
              (Undoable-rounds a v rounds quiet) (log_entry-Undoable addr) (λ s h. h) h))
          next)
    where
      next :
          (got : Bool) (s : State)
          → Logged addr got s
          → Post (λ _. Undoable a v) Restored ((if got then write_mem addr x else abort_and_jump) s)
      next true s h = (h.0, h.1 x)
      next false s h = abort-Restored s h
