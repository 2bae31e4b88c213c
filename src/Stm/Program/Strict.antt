-- ===== src/Stm/Program/Strict.antt =====
-- stms/2PLSF.hpp: loads, stores and allocations, and user code made of them, in a running
-- transaction.
use plsf.Index.{addr2write_idx}
use plsf.Stm.Indicator.{arrived}
use plsf.Prelude.{
  ℕ, ◌+◌, ◌≡◌, refl, Bool, true, false, not, List, All, All-append, arith, ◌==◌, Bool-cases, inl,
  inr, if◌then◌else◌, length,
}
use plsf.Config.{tx_max_allocs, tx_max_retires}
use plsf.Stm.State.{WriteSetEntry, State, Env}
use plsf.Stm.Locks.{try_wait_read_lock, try_wait_write_lock}
use plsf.Stm.Locks.Rely.{Respects, Post, bind}
use plsf.Stm.Locks.Order.{InTheWay}
use plsf.Stm.Locks.Frame.{Post-mono}
use plsf.Stm.Txn.{abort_tx, abort_and_jump, read_mem, write_mem, tm_malloc, tm_free, pload, pstore}
use plsf.Stm.Program.{Program, finish, load, store, malloc, Attempt, run}
use plsf.Stm.Program.TwoPhase.{
  Tame, Running, Aborted, GotRead, GotWrite, read_result, write_result, abort-Aborted,
}

-- After the jump back: the transaction was aborted in a state in which another thread, which it has
-- noted with the timestamp that this thread announced, held the write lock of an address or had
-- arrived at it.
abbrev pub Stopped : ℕ → State → Type 0
Stopped t s =
    Aborted t s
    × ((before : State) × (addr : ℕ) × (s ≡ abort_tx true before)
        × InTheWay t (addr2write_idx addr) before)

module _ (t : ℕ) where
  pub pload-Running :
      (rounds : List Env) (addr : ℕ) (s : State)
      → All (Respects t) rounds
      → Running t s
      → Post (λ _. Running t) (Stopped t) (pload rounds addr s)
  unfolding pload
  pload-Running rounds addr s quiet running =
      let inside : not s.active ≡ false = ground (arith, running.2) in
      rw inside (
        bind (GotRead t addr (arrived s.shared.read_indicators (addr2write_idx addr) t))
          (λ _. Running t) (Stopped t) (try_wait_read_lock rounds addr s)
          (λ got. if got then read_mem addr else abort_and_jump)
          (Post-mono (GotRead t addr (arrived s.shared.read_indicators (addr2write_idx addr) t))
            (Stopped t) (try_wait_read_lock rounds addr s)
            (read_result t rounds addr s quiet running))
          (next _))
    where
      next :
          (before got : Bool) (s : State)
          → GotRead t addr before got s
          → Post (λ _. Running t) (Stopped t) ((if got then read_mem addr else abort_and_jump) s)
      next before true s ((order, kept, here, free), (on, tame)) = (order, kept, on, tame)
      next before false s ((order, die, way), (on, tame)) =
          (abort-Aborted t true s order on tame die, (s, addr, refl, way))

  pub pstore-Running :
      (rounds : List Env) (addr x : ℕ) (s : State)
      → All (Respects t) rounds
      → Running t s
      → Post (λ _. Running t) (Stopped t) (pstore rounds addr x s)
  unfolding pstore
  pstore-Running rounds addr x s quiet running =
      let inside : not s.active ≡ false = ground (arith, running.2) in
      rw inside (
        bind (GotWrite t addr s.myd.write_set) (λ _. Running t) (Stopped t)
          (try_wait_write_lock rounds addr s)
          (λ got. if got then write_mem addr x else abort_and_jump)
          (Post-mono (GotWrite t addr s.myd.write_set) (Stopped t)
            (try_wait_write_lock rounds addr s) (write_result t rounds addr s quiet running))
          (next s.myd.write_set))
    where
      next :
          (ws : List WriteSetEntry) (got : Bool) (s : State)
          → GotWrite t addr ws got s
          → Post (λ _. Running t) (Stopped t) ((if got then write_mem addr x else abort_and_jump) s)
      next ws true s ((order, kept, held, logged, clear), (on, tame)) = (order, kept, on, tame)
      next ws false s ((order, die, way), (on, tame)) =
          (abort-Aborted t true s order on tame die, (s, addr, refl, way))

  tm_malloc-Running :
      (clear : ℕ → (ℕ → ℕ) → ℕ → ℕ) (fresh : ℕ) (s : State)
      → Running t s
      → Post (λ _. Running t) (Stopped t) (tm_malloc clear fresh s)
  unfolding tm_malloc
  tm_malloc-Running clear fresh s (order, kept, on, tame) = elim (Bool-cases (fresh == 0)) [
    | inl null ↦ rw null (order, kept, on, tame)
    | inr given ↦
        let inside : not s.active ≡ false = ground arith in
        rw (given, inside)
          (elim (Bool-cases (length s.myd.alog == tx_max_allocs)) [
            | inl full ↦ rw full tt
            | inr room ↦
                rw room (order, kept, on, All-append Tame s.myd.alog _ tame (λ g. (refl, refl), tt))
          ])
  ]

  tm_free-Running :
      (obj : ℕ) (s : State) → Running t s → Post (λ _. Running t) (Stopped t) (tm_free obj s)
  unfolding tm_free
  tm_free-Running obj s (order, kept, on, tame) = elim (Bool-cases (obj == 0)) [
    | inl null ↦ rw null (order, kept, on, tame)
    | inr given ↦
        let inside : not s.active ≡ false = ground arith in
        rw (given, inside)
          (elim (Bool-cases (length s.myd.flog == tx_max_retires)) [
            | inl full ↦ rw full tt
            | inr room ↦ rw room (order, kept, on, tame)
          ])
  ]

  -- User code, among other threads that respect the thread's locks, keeps a running transaction in
  -- good order: the lock words are well formed, the undo log covers exactly the write locks that the
  -- thread holds, each of its bits is in the read set, and no lock that the read set ever got is
  -- given up. If it jumps back to the start instead, then the thread holds no lock, the lock words are
  -- well formed, and `abortTx` undid a state in which it had noted another thread in range, with
  -- the timestamp that this thread announced, lower than its own, and this thread held the write
  -- lock of some address or had arrived at it.
  pub run-Running :
      (p : Program) (o : Attempt) (n : ℕ) (s : State)
      → ((n : ℕ) → All (Respects t) (o.rounds n))
      → Running t s
      → Post (λ _. Running t) (Stopped t) (run p o n s)
  unfolding run
  run-Running (finish x) o n s quiet h = h
  run-Running (load addr k) o n s quiet h =
      bind (λ _. Running t) (λ _. Running t) (Stopped t) (pload (o.rounds n) addr s)
        (λ x. run (k x) o (n + 1)) (pload-Running (o.rounds n) addr s (quiet n) h)
        (λ x s' h'. run-Running (k x) o (n + 1) s' quiet h')
  run-Running (store addr x p) o n s quiet h =
      bind (λ _. Running t) (λ _. Running t) (Stopped t) (pstore (o.rounds n) addr x s)
        (λ _. run p o (n + 1)) (pstore-Running (o.rounds n) addr x s (quiet n) h)
        (λ _ s' h'. run-Running p o (n + 1) s' quiet h')
  run-Running (malloc k) o n s quiet h =
      bind (λ _. Running t) (λ _. Running t) (Stopped t) (tm_malloc o.clear (o.fresh n) s)
        (λ x. run (k x) o (n + 1)) (tm_malloc-Running o.clear (o.fresh n) s h)
        (λ x s' h'. run-Running (k x) o (n + 1) s' quiet h')
  run-Running (Program.free obj p) o n s quiet h =
      bind (λ _. Running t) (λ _. Running t) (Stopped t) (tm_free obj s) (λ _. run p o (n + 1))
        (tm_free-Running obj s h) (λ _ s' h'. run-Running p o (n + 1) s' quiet h')
