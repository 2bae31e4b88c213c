-- ===== src/TwoPlUndo/Samples.antt =====
-- stms/2PLUndo.hpp: two threads at one lock, and a transaction that copies a word.
use plsf.Prelude.{ℕ, ◌+◌, ◌*◌, ◌^◌, refl, arith, true, false, [], update}
use plsf.Stm.Program.{Program, finish, load, store, Attempt}
use plsf.TwoPlUndo.LockWord.{get_write_state, decrement}
use plsf.TwoPlUndo.Access.{
  write_load, write_cas, read_load, outside, before, Local, call_try_read_lock, call_try_write_lock,
  go, step, Machine, start, Reachable, at_start, by_step,
}
use plsf.TwoPlUndo.Locks.{new_locks}
use plsf.TwoPlUndo.State.{Shared, State, new_stm}
use plsf.TwoPlUndo.Txn.{undo}
use plsf.TwoPlUndo.Locks.Held.{Held-start}
use plsf.TwoPlUndo.Program.Logs.{Running, logged}
use plsf.TwoPlUndo.Program.Loop.{HoldsNone, Respects}

-- Thread 3 takes the lock in write mode while thread 5 is about to load its word.
abbrev owner : ℕ
owner = 3

abbrev other : ℕ
other = 5

abbrev fresh_local : Local
fresh_local = record { pc = outside; reads = false; writes = false }

abbrev moved : Machine → ℕ → Local → ℕ → Machine
moved m t l w = record { word = w; threads = update m.threads t l }

abbrev called : Machine
called = moved start owner (record { pc = before write_load; reads = false; writes = false }) 0

abbrev both_called : Machine
both_called = moved called other (record { pc = before read_load; reads = false; writes = false }) 0

abbrev loaded : Machine
loaded =
    moved both_called owner (record { pc = before (write_cas 0); reads = false; writes = false }) 0

abbrev pub taken : Machine
taken = moved loaded owner (record { pc = outside; reads = false; writes = true }) (4 * 2 ^ 56)

pub taken-Reachable : Reachable taken
unfolding step update
taken-Reachable =
    by_step loaded owner go _ _
      (by_step both_called owner go _ _
        (by_step called other call_try_read_lock _ _
          (by_step start owner call_try_write_lock _ _ at_start (omega arith) refl) (omega arith)
          refl)
        (omega arith) refl)
      (omega arith) refl

-- Thread 3 before its transaction, which copies the word at 64 to the word at 96.
abbrev pub copy_word : Program
copy_word = load 64 (λ v. store 96 (v + 1) (finish v))

abbrev pub quiet : Attempt
quiet = record { at_begin = []; rounds = λ n. []; fresh = λ n. 0; clear = λ a m. m }

abbrev pub idle : State
idle = new_stm 3 (λ a. a) (λ a. false)

abbrev pub begun : State
begun = record idle { active = true }

-- The other threads let go of all locks.
abbrev pub all_free : (Shared → Shared) × Attempt
all_free = (λ g. record g { locks = λ l. 0 }, quiet)

pub all_free-Respects : Respects 3 all_free
unfolding get_write_state decrement
all_free-Respects g h l = (omega arith, refl)

pub idle-HoldsNone : HoldsNone 3 idle.shared
unfolding new_stm new_locks get_write_state decrement
idle-HoldsNone l = (omega arith, refl)

pub begun-Running : Running 3 idle.shared.locks (λ a m. m) idle.shared.mem begun
unfolding new_stm undo
begun-Running = record {
  active = refl;
  tid = refl;
  held =
      Held-start 3 idle.shared.locks (logged [] []) (omega arith) (λ l. (idle-HoldsNone l).0)
        (λ l. (idle-HoldsNone l).1);
  undoes = λ a q. refl;
  plain = tt;
}
