-- ===== src/TwoPlUndo/Access.antt =====
-- stms/2PLUndo.hpp: `tryReadLock`, `tryWriteLock` and `unlock` of LockManager at the grain of one
-- access to the shared word of the lock, and the threads that interleave at these accesses. An
-- operation touches one word of `lockArray` alone, so the machine has one word.
pub mod Own
pub mod Cases
pub mod After
pub mod Mutex
use plsf.Prelude.{
  ℕ, zero, suc, ◌+◌, ◌<◌, ◌≡◌, Bool, true, false, not, ◌||◌, ◌==◌, if◌then◌else◌, Option, none,
  some, update, ◌^◌,
}
use plsf.TwoPlUndo.LockWord.{
  registry_max_threads, unlocked, get_write_state, is_read_locked_by_me, is_empty_ri, write_locked,
  fetch_add, fetch_sub, decrement,
}

-- The access that an operation makes next, with the local variables that live until then.
pub data Access : Type 0 where
  read_load : Access
  read_add : Access
  read_undo : Access
  write_load : Access
  write_cas : ℕ → Access  -- the expected value `lock`
  unlock_load : Access
  unlock_sub : ℕ → Access  -- `decr`

-- What follows the access: another one, or the return. `unlock` returns no value, here `true`.
pub data Progress : Type 0 where
  next : Access → Progress
  returns : Bool → Progress

-- `tryReadLock` on the value loaded first, and on the value that `fetch_add` found.
unfoldable pub read_loaded : ℕ → ℕ → Progress
unfolding is_read_locked_by_me get_write_state
read_loaded tid lock =
    if is_read_locked_by_me lock tid
    then returns true
    else (let wstate = get_write_state lock in
        if wstate == tid + 1
        then returns true
        else (if not (wstate == unlocked) then returns false else next read_add))

unfoldable pub read_added : ℕ → ℕ → Progress
unfolding get_write_state
read_added tid lock =
    let wstate = get_write_state lock in
    if (wstate == tid + 1) || (wstate == unlocked) then returns true else next read_undo

-- `tryWriteLock` on the value loaded.
unfoldable pub write_loaded : ℕ → ℕ → Progress
unfolding is_empty_ri get_write_state
write_loaded tid lock =
    let wstate = get_write_state lock in
    if wstate == tid + 1
    then returns true
    else (if not (wstate == unlocked)
        then returns false
        else (if not (is_empty_ri lock tid) then returns false else next (write_cas lock)))

unfoldable pub unlock_loaded : ℕ → ℕ → Progress
unfolding decrement
unlock_loaded tid lock =
    let decr = decrement lock tid in if decr == 0 then returns true else next (unlock_sub decr)

-- One access by thread `tid` to the word, and the word after it.
unfoldable pub access : ℕ → Access → ℕ → Progress × ℕ
unfolding read_loaded read_added write_loaded write_locked unlock_loaded
access tid read_load word = (read_loaded tid word, word)
access tid read_add word = (read_added tid word, fetch_add word (2 ^ tid))
access tid read_undo word = (returns false, fetch_sub word (2 ^ tid))
access tid write_load word = (write_loaded tid word, word)
access tid (write_cas lock) word =
    if word == lock then (returns true, write_locked lock tid) else (returns false, word)
access tid unlock_load word = (unlock_loaded tid word, word)
access tid (unlock_sub decr) word = (returns true, fetch_sub word decr)

-- A thread is outside the operations or before an access. `reads` and `writes` say that its
-- `tryReadLock` or `tryWriteLock` returned true and it has not called `unlock` since.
pub data Pc : Type 0 where
  outside : Pc
  before : Access → Pc

pub record Local : Type 0 where
  pub pc : Pc
  pub reads : Bool
  pub writes : Bool

pub data Event : Type 0 where
  call_try_read_lock : Event
  call_try_write_lock : Event
  call_unlock : Event
  go : Event

abbrev pub enter : Access → Pc → Local → ℕ → Option (Local × ℕ)
enter a outside l word = some (record l { pc = before a }, word)
enter a (before b) l word = none

-- What the returned value `b` of an operation at access `a` tells its caller.
abbrev pub finish : Access → Bool → Local → Local
finish read_load b l = record { pc = outside; reads = l.reads || b; writes = l.writes }
finish read_add b l = record { pc = outside; reads = l.reads || b; writes = l.writes }
finish read_undo b l = record { pc = outside; reads = l.reads || b; writes = l.writes }
finish write_load b l = record { pc = outside; reads = l.reads; writes = l.writes || b }
finish (write_cas e) b l = record { pc = outside; reads = l.reads; writes = l.writes || b }
finish unlock_load b l = record l { pc = outside }
finish (unlock_sub d) b l = record l { pc = outside }

abbrev pub proceed : Access → Progress → Local → Local
proceed a (next b) l = record l { pc = before b }
proceed a (returns b) l = finish a b l

unfoldable pub go_on : ℕ → Pc → Local → ℕ → Option (Local × ℕ)
unfolding access
go_on tid outside l word = none
go_on tid (before a) l word = some (proceed a ((access tid a word).0) l, (access tid a word).1)

-- A step of one thread on its own variables and the word; `none` where it has no such step.
unfoldable pub step : ℕ → Event → Local → ℕ → Option (Local × ℕ)
unfolding go_on
step tid call_try_read_lock l word = enter read_load l.pc l word
step tid call_try_write_lock l word = enter write_load l.pc l word
step tid call_unlock l word =
    enter unlock_load l.pc (record l { reads = false; writes = false }) word
step tid go l word = go_on tid l.pc l word

-- The word and the variables of every thread.
pub record Machine : Type 0 where
  pub word : ℕ
  pub threads : ℕ → Local

abbrev pub start : Machine
start = record { word = 0; threads = λ t. record { pc = outside; reads = false; writes = false } }

-- The states that the threads reach in any order of their steps.
pub data Reachable : Machine → Type 0 where
  at_start : Reachable start
  by_step :
      (m : Machine) (tid : ℕ) (e : Event) (l : Local) (w : ℕ)
      → Reachable m
      → tid < registry_max_threads
      → step tid e (m.threads tid) m.word ≡ some (l, w)
      → Reachable (record { word = w; threads = update m.threads tid l })
