-- ===== src/Stm/State.antt =====
-- stms/2PLSF.hpp: the state of the STM. `Shared` is what all threads see: the fields of class STM,
-- the highest registered thread, the words of memory by address, and which blocks of memory are
-- allocated. `OpData` is a thread's own record; `State` is what one running thread works on.
use plsf.Prelude.{ℕ, Bool, List, ◌*◌}
use plsf.Prelude.Int.{ℤ}
use plsf.Config.{clpad}

pub record Shared : Type 0 where
  pub conflict_clock : ℕ  -- uint64_t
  pub wlocks : ℕ → ℕ
  pub read_indicators : ℕ → ℕ
  pub txn_ts : ℕ → ℕ
  pub max_tid : ℤ  -- of the thread registry
  pub mem : ℕ → ℕ
  pub allocated : ℕ → Bool

-- Where a thread's timestamp is announced.
abbrev pub ts_slot : ℕ → ℕ
ts_slot tid = tid * clpad

-- An entry of the undo log.
pub record WriteSetEntry : Type 0 where
  pub addr : ℕ
  pub old : ℕ  -- the field `data`

-- `struct Deletable`: `reclaim` is the function pointer, so it may run any code on the object.
pub record Deletable : Type 0 where
  pub obj : ℕ
  pub reclaim : ℕ → Shared → Shared

-- The logs are the arrays up to their sizes, oldest entry first.
pub record OpData : Type 0 where
  pub attempt : ℕ
  pub tid : ℕ
  pub write_set : List WriteSetEntry
  pub read_set : List ℕ  -- the field `widx` of each entry
  pub my_ts : ℕ
  pub o_ts : ℕ
  pub otid : ℕ
  pub num_aborts : ℕ
  pub num_commits : ℕ
  pub flog : List ℕ
  pub alog : List Deletable

-- `active` says that `tl_opdata` is not null; it then points to this thread's `OpData`.
pub record State : Type 0 where
  pub shared : Shared
  pub myd : OpData
  pub active : Bool

-- `spinning`: the given rounds of a wait are over and it still waits. `failed`: an assert.
-- `restart`: `longjmp` to the start of the transaction.
pub data Outcome {ℓ} (A : Type ℓ) : Type ℓ where
  ok : A → State → Outcome A
  restart : State → Outcome A
  spinning : Outcome A
  failed : Outcome A

abbrev pub Cmd : Type 0 → Type 0
Cmd A = State → Outcome A

abbrev pub pure : {A : Type 0} → A → Cmd A
pure = ok

module _ {A B : Type 0} where
  abbrev pub and_then : Outcome A → (A → Cmd B) → Outcome B
  and_then (ok a s) k = k a s
  and_then (restart s) k = restart s
  and_then spinning k = spinning
  and_then failed k = failed

  infixl 5 ◌>>=◌ ◌>>◌
  abbrev pub ◌>>=◌ : Cmd A → (A → Cmd B) → Cmd B
  m >>= k = λ s. and_then (m s) k

  abbrev pub ◌>>◌ : Cmd A → Cmd B → Cmd B
  m >> n = m >>= λ _. n

-- What the other threads do to the shared state during one `Pause()`.
abbrev pub Env : Type 0
Env = Shared → Shared

abbrev pub set_shared : State → Shared → State
set_shared s g = record s { shared = g }

abbrev pub set_myd : State → OpData → State
set_myd s d = record s { myd = d }
