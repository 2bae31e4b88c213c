-- ===== src/Stm/Quiet.antt =====
-- Threads for stms/2PLSF.hpp that meet no conflict.
use plsf.Prelude.{ℕ, ◌+◌, ◌%◌, ◌≡◌, refl, true, false, [], ◌∷◌, arith, inr, update}
use plsf.Prelude.Int.{pos}
use plsf.Word.{has_bit-zero}
use plsf.Config.{registry_max_threads, no_timestamp, unlocked}
use plsf.Stm.State.{Shared, OpData, State, Env, ts_slot}
use plsf.Stm.Indicator.{arrived}
use plsf.Stm.Locks.Rely.{Respects}
use plsf.Stm.Locks.Order.{InOrder, AllKept}
use plsf.Stm.Locks.Tracked.{logs_write, logs_read}
use plsf.Stm.Program.{Program, finish, load, store, Attempt}
use plsf.Stm.Program.TwoPhase.{HoldsNone, Running}
use plsf.Stm.Program.Whole.{Idle, Quiet}

-- Two threads are registered and nobody holds a lock; address `a` holds `a + 1`.
abbrev pub quiet_shared : Shared
quiet_shared = record {
  conflict_clock = 5;
  wlocks = λ _. unlocked;
  read_indicators = λ _. 0;
  txn_ts = λ _. no_timestamp;
  max_tid = pos 2;
  mem = λ a. a + 1;
  allocated = λ _. false;
}

abbrev pub no_opdata : OpData
no_opdata = record {
  attempt = 0;
  tid = 0;
  write_set = [];
  read_set = [];
  my_ts = no_timestamp;
  o_ts = no_timestamp;
  otid = registry_max_threads;
  num_aborts = 0;
  num_commits = 0;
  flog = [];
  alog = [];
}

abbrev pub idle_thread : State
idle_thread = record { shared = quiet_shared; myd = no_opdata; active = false }

abbrev pub started : State
started = record { shared = quiet_shared; myd = no_opdata; active = true }

-- Meanwhile thread 1 announces timestamp 3.
abbrev pub other_announces : Env
other_announces g = record g { txn_ts = update g.txn_ts (ts_slot 1) 3 }

pub other_announces-Respects : Respects 0 other_announces
unfolding update
other_announces-Respects = record {
  same_bits = λ g w. refl;
  same_ts = λ g. refl;
  same_locks = λ g w. (λ e. e, λ e. e);
  same_mem = λ g a e. refl;
  clock_runs = λ g h. h;
  lock_words = λ g h. h;
}

pub no_bits : (w : ℕ) → arrived (λ _. 0) w 0 ≡ false
unfolding arrived
no_bits w = has_bit-zero (w % 64)

pub started_order : InOrder 0 started
unfolding logs_write logs_read
started_order = record {
  who = refl;
  range = omega arith;
  words = λ w. inr refl;
  tracked = record {
    writes = λ w _ held. ground (arith);
    owns = λ w _ logged. ground (arith);
    reads = λ w _ p here. ground (arith, no_bits w);
    entries = tt;
  };
  runs = λ _. omega arith;
  own = omega arith;
}

pub started_kept : AllKept 0 started
unfolding logs_read
started_kept = record { kept = λ w _ p logged. absurd (ground (arith)) }

pub started-Running : Running 0 started
started-Running = (started_order, started_kept, refl, tt)

no_locks : HoldsNone 0 quiet_shared
no_locks = record { no_write = λ w e. omega arith; no_read = λ w p. no_bits w }

pub idle_thread-Idle : Idle 0 idle_thread
idle_thread-Idle = record {
  who = refl;
  range = omega arith;
  none = no_locks;
  words = λ w. inr refl;
  silent = refl;
  no_ts = refl;
  fresh = refl;
  outside = refl;
}

-- It moves the value at address 64 to address 128, one up.
abbrev pub copy_up : Program
copy_up = load 64 λ v. store 128 (v + 1) (finish v)

abbrev pub one_attempt : Attempt
one_attempt = record {
  at_begin = [];
  rounds = λ _. other_announces ∷ [];
  fresh = λ _. 0;
  clear = λ _ mem. mem;
}

pub one_attempt-Quiet : Quiet 0 one_attempt
one_attempt-Quiet = record { at_begin = tt; rounds = λ n. (other_announces-Respects, tt) }
