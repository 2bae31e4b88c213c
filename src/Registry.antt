-- ===== src/Registry.antt =====
-- stms/2PLSF.hpp: class ThreadRegistry, at the grain of one access of a shared word. `next` is the
-- next step of a thread that runs `getTID`; the threads of a `System` take their steps in any order.
pub mod Step
pub mod Unique
pub mod Lowest
mod Examples
use plsf.Prelude.{ℕ, ◌+◌, ◌≡◌, Bool, true, false, ltb, leb, ◌==◌, if◌then◌else◌, update}
use plsf.Prelude.Int.{ℤ, pos, negsuc, leb_pos}
use plsf.Config.{registry_max_threads}

-- `usedTID` and `maxTid`.
pub record Registry : Type 0 where
  pub used : ℕ → Bool
  pub max_tid : ℤ

-- Where a thread stands: outside `register_thread_new` with no tid; at the load of `usedTID[tid]`;
-- at its exchange; at the load of `maxTid`; at its exchange; with its tid in `tl_tcico`; at the
-- assert of a full registry; and after `deregister_thread`.
pub data Registering : Type 0 where
  not_assigned : Registering
  scan : ℕ → Registering
  claim : ℕ → Registering
  load_max : ℕ → Registering
  raise_max : ℕ → ℤ → Registering
  assigned : ℕ → Registering
  too_many : Registering
  gone : Registering

-- The test of the exchange of `maxTid`.
abbrev pub same_max : ℤ → ℤ → Bool
same_max (pos m) (pos n) = m == n
same_max (negsuc m) (negsuc n) = m == n
same_max (pos m) (negsuc n) = false
same_max (negsuc m) (pos n) = false

unfoldable pub next : Registry → Registering → Registry × Registering
next g not_assigned = (g, scan 0)
next g (scan tid) =
    if ltb tid registry_max_threads
    then (if g.used tid then (g, scan (tid + 1)) else (g, claim tid))
    else (g, too_many)
next g (claim tid) =
    if g.used tid
    then (g, scan (tid + 1))
    else (record g { used = update g.used tid true }, load_max tid)
next g (load_max tid) =
    if leb_pos g.max_tid tid then (g, raise_max tid g.max_tid) else (g, assigned tid)
next g (raise_max tid cur_max) =
    if same_max g.max_tid cur_max
    then (record g { max_tid = pos (tid + 1) }, load_max tid)
    else (g, load_max tid)
next g (assigned tid) = (g, assigned tid)
next g too_many = (g, too_many)
next g gone = (g, gone)

unfoldable pub deregister_thread : ℕ → Registry → Registry
deregister_thread tid g = record g { used = update g.used tid false }

pub record System : Type 0 where
  pub registry : Registry
  pub threads : ℕ → Registering

abbrev pub start : System
start = record {
  registry = record { used = λ _. false; max_tid = negsuc 0 };
  threads = λ _. not_assigned;
}

unfoldable pub advance : ℕ → System → System
unfolding next
advance p s = record {
  registry = (next s.registry (s.threads p)).0;
  threads = update s.threads p (next s.registry (s.threads p)).1;
}

-- The destructor of `ThreadCheckInCheckOut`, of a thread with a tid.
unfoldable pub leave : ℕ → ℕ → System → System
unfolding deregister_thread
leave p tid s = record {
  registry = deregister_thread tid s.registry;
  threads = update s.threads p gone;
}

pub data Reachable : System → Type 0 where
  at_start : Reachable start
  by_step : (p : ℕ) {s : System} → Reachable s → Reachable (advance p s)
  by_leave :
      (p tid : ℕ) {s : System}
      → Reachable s
      → s.threads p ≡ assigned tid
      → Reachable (leave p tid s)
