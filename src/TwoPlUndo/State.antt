-- ===== src/TwoPlUndo/State.antt =====
-- stms/2PLUndo.hpp: the state of the STM as one running thread works on it, the logs, and the
-- results of its operations.
use plsf.Prelude.{
  ℕ, ◌+◌, ◌*◌, ◌%◌, ◌^◌, Bool, false, List, [], ◌∷◌, ◌++◌, length, ltb, ◌==◌, if◌then◌else◌,
}
use plsf.TwoPlUndo.LockWord.{tx_max_stores, tx_max_loads}
use plsf.TwoPlUndo.Locks.{new_locks}

-- The array of locks, the words of memory by address, and which blocks are allocated.
pub record Shared : Type 0 where
  pub locks : ℕ → ℕ
  pub mem : ℕ → ℕ
  pub allocated : ℕ → Bool

-- `reclaim` is the function pointer: it may run any code on the object.
pub record Deletable : Type 0 where
  pub obj : ℕ
  pub reclaim : ℕ → Shared → Shared

pub record WriteSetEntry : Type 0 where
  pub addr : ℕ
  pub old_val : ℕ

-- The logs are the arrays up to their sizes, oldest entry first.
pub record OpData : Type 0 where
  pub tid : ℕ
  pub write_set : List WriteSetEntry
  pub read_set : List ℕ
  pub nested_trans : ℕ
  pub myrand : ℕ
  pub num_aborts : ℕ
  pub num_commits : ℕ
  pub flog : List ℕ
  pub alog : List Deletable

-- `active` says that `tl_opdata` is not null; it then points to this thread's `OpData`.
pub record State : Type 0 where
  pub shared : Shared
  pub myd : OpData
  pub active : Bool
  pub tx_type : ℕ

-- `aborted`: the exception `AbortedTx`. `failed`: an assert. `unfinished`: the given attempts are over.
pub data Outcome {ℓ} (A : Type ℓ) : Type ℓ where
  ok : A → State → Outcome A
  aborted : State → Outcome A
  failed : Outcome A
  unfinished : Outcome A

abbrev pub Cmd : Type 0 → Type 0
Cmd A = State → Outcome A

abbrev pub and_then : {A B : Type 0} → Outcome A → (A → Cmd B) → Outcome B
and_then (ok a s) k = k a s
and_then (aborted s) k = aborted s
and_then failed k = failed
and_then unfinished k = unfinished

abbrev pub set_shared : State → Shared → State
set_shared s g = record s { shared = g }

abbrev pub set_myd : State → OpData → State
set_myd s d = record s { myd = d }

abbrev pub set_mem : State → (ℕ → ℕ) → State
set_mem s m = set_shared s (record s.shared { mem = m })

abbrev pub set_locks : State → (ℕ → ℕ) → State
set_locks s l = set_shared s (record s.shared { locks = l })

-- `ReadSet::add` and `WriteSet::add`, with the assert after the entry.
unfoldable pub read_set_add : ℕ → Cmd (Unit {0})
read_set_add addr s =
    let log = s.myd.read_set ++ addr ∷ [] in
    if length log == tx_max_loads
    then failed
    else ok tt (set_myd s (record s.myd { read_set = log }))

unfoldable pub write_set_add : ℕ → ℕ → Cmd (Unit {0})
write_set_add addr old_val s =
    let log = s.myd.write_set ++ record { addr = addr; old_val = old_val } ∷ [] in
    if ltb (length log) tx_max_stores
    then ok tt (set_myd s (record s.myd { write_set = log }))
    else failed

-- What the constructor of STM gives thread `tid`, and the state in which the program starts.
abbrev pub new_op_data : ℕ → OpData
new_op_data tid = record {
  tid = tid;
  write_set = [];
  read_set = [];
  nested_trans = 0;
  myrand = ((tid + 1) * 12345678901234567) % 2 ^ 64;
  num_aborts = 0;
  num_commits = 0;
  flog = [];
  alog = [];
}

unfoldable pub new_stm : ℕ → (ℕ → ℕ) → (ℕ → Bool) → State
unfolding new_locks
new_stm tid mem allocated = record {
  shared = record { locks = new_locks; mem = mem; allocated = allocated };
  myd = new_op_data tid;
  active = false;
  tx_type = 0;
}
