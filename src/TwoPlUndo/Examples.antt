-- ===== src/TwoPlUndo/Examples.antt =====
-- stms/2PLUndo.hpp: the library's theorems on the threads and the transaction of TwoPlUndo/Samples.
use plsf.Prelude.{ℕ, ◌+◌, ◌^◌, ◌≡◌, ◌⊎◌, refl, arith, true, false, [], ◌∷◌, ◌++◌, update}
use plsf.TwoPlUndo.LockWord.{
  get_write_state, get_read_indicator, is_read_locked_by_me, write_locked, fetch_add, fetch_sub,
  decrement,
}
use plsf.TwoPlUndo.Access.Mutex.{mutual_exclusion}
use plsf.TwoPlUndo.Locks.{new_locks}
use plsf.TwoPlUndo.Locks.Roundtrip.{lock_word_roundtrip}
use plsf.TwoPlUndo.State.{State, ok, failed, new_stm}
use plsf.TwoPlUndo.Program.{try_once, transaction}
use plsf.TwoPlUndo.Program.Attempted.{Attempted, try_once-Attempted}
use plsf.TwoPlUndo.Program.Loop.{HoldsNone, Returned, transaction-HoldsNone, transaction-Over}
use plsf.TwoPlUndo.Samples.{
  taken, taken-Reachable, copy_word, quiet, idle, begun, all_free, all_free-Respects,
  idle-HoldsNone,
}

mutual_exclusion_example : ((taken.threads 5).reads ≡ false) × ((taken.threads 5).writes ≡ false)
unfolding update
mutual_exclusion_example =
    mutual_exclusion taken 3 5 taken-Reachable (omega arith) (omega arith) (omega arith) refl

-- Threads 0 and 1 read.
abbrev read_twice : ℕ
read_twice = 3

lock_word_roundtrip_example :
    (get_write_state read_twice ≡ 0
      → (get_write_state (write_locked read_twice 4) ≡ 4 + 1)
        × (get_read_indicator (write_locked read_twice 4) ≡ get_read_indicator read_twice)
        × (fetch_sub (write_locked read_twice 4) (decrement (write_locked read_twice 4) 4)
            ≡ read_twice))
    × ((is_read_locked_by_me (fetch_add read_twice (2 ^ 4)) 4 ≡ true)
        × (fetch_sub (fetch_add read_twice (2 ^ 4)) (decrement (fetch_add read_twice (2 ^ 4)) 4)
            ≡ read_twice))
unfolding get_write_state decrement
lock_word_roundtrip_example = lock_word_roundtrip 4 read_twice (omega arith) (omega arith) refl

try_once-Attempted_example : Attempted quiet copy_word begun (try_once quiet copy_word begun)
unfolding new_stm
try_once-Attempted_example =
    try_once-Attempted quiet copy_word begun refl (omega arith) (λ l. (idle-HoldsNone l).0)
      (λ l. (idle-HoldsNone l).1)

-- The attempt commits.
try_once_commits : ((v : ℕ) × (s : State) × (try_once quiet copy_word begun ≡ ok v s))
unfolding new_stm new_locks try_once update
try_once_commits = (64, _, refl)

transaction-HoldsNone_example :
    Returned
      (λ s'. HoldsNone idle.myd.tid s'.shared × (s'.myd.tid ≡ idle.myd.tid) × (s'.active ≡ false))
      (transaction (all_free ∷ []) quiet copy_word 2 idle)
unfolding new_stm
transaction-HoldsNone_example =
    transaction-HoldsNone (all_free ∷ []) quiet copy_word 2 idle (omega arith) refl idle-HoldsNone
      (all_free-Respects, tt)

transaction-Over_example :
    (transaction ([] ++ all_free ∷ []) quiet copy_word 2 idle ≡ failed)
    ⊎ ((v : ℕ) × (s' : State) × (transaction ([] ++ all_free ∷ []) quiet copy_word 2 idle
          ≡ ok v s'))
unfolding new_stm
transaction-Over_example =
    transaction-Over [] all_free quiet copy_word 2 idle (omega arith) refl idle-HoldsNone tt
      all_free-Respects (λ g l. refl)
