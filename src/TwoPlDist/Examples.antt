-- ===== src/TwoPlDist/Examples.antt =====
-- stms/2PLUndoDist.hpp: the library's theorems on the threads and the transaction of TwoPlDist/Samples.
use plsf.Prelude.{ℕ, ◌<◌, ◌≡◌, ◌≢◌, ◌⊎◌, refl, arith, true, false, [], ◌∷◌, ◌++◌, update}
use plsf.Index
use plsf.Word
use plsf.Stm.Indicator
use plsf.Stm.Indicator.{arrived}
use plsf.TwoPlDist.State.{State, ok, failed, set_shared, new_stm}
use plsf.TwoPlDist.Locks.{is_empty}
use plsf.TwoPlDist.Locks.Empty.{threads, Blocks, is_empty-cases}
use plsf.TwoPlDist.Locks.Held.{HoldsNone, SameLocks}
use plsf.TwoPlDist.Txn.{abort_tx}
use plsf.TwoPlDist.Program.{run, try_once, transaction}
use plsf.TwoPlDist.Program.Logs.{Restarted, Ends}
use plsf.TwoPlDist.Program.Following.{Committed, try_once-Ends}
use plsf.TwoPlDist.Program.Loop.{Returned, dist_transaction-Outside, dist_transaction-Over}
use plsf.TwoPlDist.Wrappers.{begin_txn, abort_txn, begin_txn-stale}
use plsf.TwoPlDist.Samples.{
  copy_word, quiet, idle, begun, idle-HoldsNone, freed, freed-Respects, freed-AllFree, stored,
  stored-Running, later, later-HoldsNone,
}

is_empty-cases_example :
    ((is_empty idle.shared 5 0 ≡ true)
      × ((j : ℕ)
          → j < threads idle.shared
          → j ≢ 0
          → arrived idle.shared.read_indicators 5 j ≡ false))
    ⊎ ((is_empty idle.shared 5 0 ≡ false)
        × Blocks idle.shared.read_indicators 5 0 0 (threads idle.shared))
unfolding new_stm
is_empty-cases_example = is_empty-cases idle.shared 5 0 (omega arith)

try_once-Ends_example :
    Ends
      (Committed 0 begun.shared quiet copy_word)
      (Restarted 0 begun.shared)
      (try_once quiet copy_word begun)
unfolding new_stm
try_once-Ends_example = try_once-Ends quiet copy_word begun refl (omega arith) idle-HoldsNone

-- The attempt commits.
try_once_commits : (v : ℕ) × (s : State) × (try_once quiet copy_word begun ≡ ok v s)
unfolding new_stm try_once update Indicator.with_bit Index.ribit Index.addr2write_idx Word.bit
    Index.write_idx2read_idx
try_once_commits = (64, _, refl)

dist_transaction-Outside_example :
    Returned
      (λ s'. HoldsNone 0 s'.shared × (s'.myd.tid ≡ 0) × (s'.active ≡ false))
      (transaction (freed ∷ []) quiet copy_word idle)
unfolding new_stm
dist_transaction-Outside_example =
    dist_transaction-Outside (freed ∷ []) quiet copy_word idle (omega arith) refl idle-HoldsNone
      (freed-Respects, tt)

dist_transaction-Over_example :
    (transaction ([] ++ freed ∷ []) quiet copy_word idle ≡ failed)
    ⊎ ((v : ℕ) × (s' : State) × (transaction ([] ++ freed ∷ []) quiet copy_word idle ≡ ok v s'))
unfolding new_stm
dist_transaction-Over_example =
    dist_transaction-Over [] freed quiet copy_word idle (omega arith) refl idle-HoldsNone tt
      freed-Respects freed-AllFree

-- The code loads address 64, which thread 1 has locked.
begin_txn-stale_example :
    (abort_txn true stored ≡ ok tt (abort_tx true stored))
    × SameLocks idle.shared (abort_tx true stored).shared
    × Ends
        (λ _ s'. (abort_tx true s').shared.mem 32 ≡ 32)
        (λ s'. s'.shared.mem 32 ≡ 32)
        (run copy_word quiet 0 (begin_txn (set_shared (abort_tx true stored) later)))
begin_txn-stale_example =
    begin_txn-stale 0 idle.shared stored (record { addr = 32; old = 32 }) [] later quiet copy_word 0
      (omega arith) stored-Running refl later-HoldsNone
