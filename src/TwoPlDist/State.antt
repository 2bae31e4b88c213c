-- ===== src/TwoPlDist/State.antt =====
-- stms/2PLUndoDist.hpp: the state of the STM as one running thread works on it, the logs, and the
-- results of its operations.
use plsf.Prelude.{
  ℕ, ◌+◌, ◌*◌, ◌%◌, ◌^◌, Bool, false, List, [], ◌∷◌, ◌++◌, length, ◌==◌, if◌then◌else◌,
}
use plsf.Prelude.Int.{ℤ}
use plsf.Index.{addr2write_idx}
use plsf.Stm.State.{WriteSetEntry}

-- The arrays of locks, the highest registered thread, the words of memory by address, and which blocks
-- are allocated. Nothing uses the clock of class STM.
pub record Shared : Type 0 where
  pub wlocks : ℕ → ℕ
  pub read_indicators : ℕ → ℕ
  pub max_tid : ℤ
  pub mem : ℕ → ℕ
  pub allocated : ℕ → Bool

-- The value of a free write lock; a holder writes its tid plus 1.
abbrev pub unlocked : ℕ
unlocked = 0

abbrev pub max_read_set_entries : ℕ
max_read_set_entries = 64 * 1024

abbrev pub max_write_set_entries : ℕ
max_write_set_entries = 64 * 1024

-- `reclaim` is the function pointer: it may run any code on the object.
pub record Deletable : Type 0 where
  pub obj : ℕ
  pub reclaim : ℕ → Shared → Shared

-- The entries of the logs are as in stms/2PLSF.hpp. The logs are the arrays up to their sizes, oldest entry first. Nothing uses the three timestamps.
pub record OpData : Type 0 where
  pub attempt : ℕ
  pub tid : ℕ
  pub write_set : List WriteSetEntry
  pub read_set : List ℕ  -- the field `widx` of each entry
  pub myrand : ℕ
  pub num_aborts : ℕ
  pub num_commits : ℕ
  pub flog : List ℕ
  pub alog : List Deletable

-- `active` says that `tl_opdata` is not null; it then points to this thread's `OpData`.
pub record State : Type 0 where
  pub shared : Shared
  pub myd : OpData
  pub active : Bool

-- `restart`: `longjmp` to the start of the transaction. `failed`: an assert. `unfinished`: the given
-- attempts are over.
pub data Outcome {ℓ} (A : Type ℓ) : Type ℓ where
  ok : A → State → Outcome A
  restart : State → Outcome A
  failed : Outcome A
  unfinished : Outcome A

abbrev pub Cmd : Type 0 → Type 0
Cmd A = State → Outcome A

abbrev pub and_then : {A B : Type 0} → Outcome A → (A → Cmd B) → Outcome B
and_then (ok a s) k = k a s
and_then (restart s) k = restart s
and_then failed k = failed
and_then unfinished k = unfinished

abbrev pub set_shared : State → Shared → State
set_shared s g = record s { shared = g }

abbrev pub set_myd : State → OpData → State
set_myd s d = record s { myd = d }

abbrev pub set_mem : State → (ℕ → ℕ) → State
set_mem s m = set_shared s (record s.shared { mem = m })

-- `ReadSet::addEntry` and `WriteSet::addEntry`, with their asserts.
unfoldable pub read_set_add_entry : ℕ → Cmd (Unit {0})
read_set_add_entry addr s =
    if length s.myd.read_set == max_read_set_entries
    then failed
    else ok tt (set_myd s (record s.myd { read_set = s.myd.read_set ++ addr2write_idx addr ∷ [] }))

unfoldable pub write_set_add_entry : ℕ → Cmd (Unit {0})
write_set_add_entry addr s =
    if length s.myd.write_set == max_write_set_entries
    then failed
    else ok tt (
        set_myd s (record s.myd {
          write_set = s.myd.write_set ++ record { addr = addr; old = s.shared.mem addr } ∷ [];
        }))

-- What the constructor of STM gives thread `tid`, and the state in which the program starts.
abbrev pub new_op_data : ℕ → OpData
new_op_data tid = record {
  attempt = 0;
  tid = tid;
  write_set = [];
  read_set = [];
  myrand = ((tid + 1) * 12345678901234567) % 2 ^ 64;
  num_aborts = 0;
  num_commits = 0;
  flog = [];
  alog = [];
}

unfoldable pub new_stm : ℕ → ℤ → (ℕ → ℕ) → (ℕ → Bool) → State
new_stm tid max_tid mem allocated = record {
  shared = record {
    wlocks = λ i. 0;
    read_indicators = λ i. 0;
    max_tid = max_tid;
    mem = mem;
    allocated = allocated;
  };
  myd = new_op_data tid;
  active = false;
}
