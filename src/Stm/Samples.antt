-- ===== src/Stm/Samples.antt =====
-- Concrete threads and programs for stms/2PLSF.hpp.
use plsf.Prelude.{
  update_self, ℕ, ◌≤◌, ltb, if◌then◌else◌, ◌%◌, ◌≡◌, ◌≢◌, refl, true, [], ◌∷◌, arith, ◌==◌,
  Bool-cases, update_lem, inl, inr, update,
}
use plsf.Word.{has_bit, bit, has_bit-zero}
use plsf.Prelude.Int.{pos}
use plsf.Config.{no_timestamp, unlocked, num_rwl}
use plsf.Index.{addr2write_idx, write_idx2read_idx}
use plsf.Stm.State.{Shared, State, Outcome, ok, restart, spinning, failed, Env, ts_slot, ◌>>◌}
use plsf.Stm.Indicator.{arrived, with_bit, arrived-with_bit}
use plsf.Stm.Conflict.{is_empty, get_lowest_ts}
use plsf.Stm.Conflict.Minimum.{IsLockWord}
use plsf.Stm.Locks.Order.{InOrder}
use plsf.Stm.Locks.Tracked.{logs_write, logs_read}
use plsf.Stm.Txn.{begin_tx}
use plsf.Stm.Locks.Progress.{Open}
use plsf.Stm.Program.{Program, finish, store, Attempt, run}
use plsf.Stm.Program.TwoPhase.{Aborted}
use plsf.Stm.Program.Commit.{Ready}
use plsf.Stm.Wrappers.{running, aborted, InPhase}
use plsf.Stm.Program.Uncontended.{Undisturbed}
use plsf.Stm.Quiet.{
  quiet_shared, no_opdata, idle_thread, started, no_bits, started_order, started_kept,
}

-- Thread 1 holds the lock of address 128 and announces timestamp 3, older than the 5 of thread 0,
-- which is in its second attempt.
abbrev pub taken_shared : Shared
taken_shared = record quiet_shared {
  wlocks = update (λ _. unlocked) 4 1;
  txn_ts = update (λ _. no_timestamp) (ts_slot 1) 3;
}

abbrev pub second : State
second = record {
  shared = taken_shared;
  myd = record no_opdata { attempt = 1; my_ts = 5; o_ts = 3; otid = 1 };
  active = true;
}

pub second_words : (w : ℕ) → IsLockWord (taken_shared.wlocks w)
second_words w = elim (Bool-cases (4 == w)) [
  | inl e ↦ rw (update_lem (λ _. unlocked) 4 1 w, e) (inl (omega arith))
  | inr e ↦ rw (update_lem (λ _. unlocked) 4 1 w, e) (inr refl)
]

pub taken_small : (u : ℕ) → taken_shared.txn_ts (ts_slot u) ≤ no_timestamp
taken_small u = ground (arith, update_lem (λ _. no_timestamp) (ts_slot 1) 3 (ts_slot u))

-- The memory before the constructor: the arrays hold anything.
abbrev pub raw_shared : Shared
raw_shared = record quiet_shared {
  conflict_clock = 9;
  wlocks = λ w. if ltb w num_rwl then w else unlocked;
  read_indicators = λ w. w;
  txn_ts = λ w. w;
  max_tid = pos 4;
}

pub raw_shared_beyond : (w : ℕ) → num_rwl ≤ w → raw_shared.wlocks w ≡ unlocked
raw_shared_beyond w le = ground arith

pub second-Ready : Ready 0 second
second-Ready = record {
  who = refl;
  range = omega arith;
  none = record {
    no_write = λ w e. ground (arith, update_lem (λ _. unlocked) 4 1 w);
    no_read = λ w p. no_bits w;
  };
  words = second_words;
  runs = λ _. omega arith;
  own = omega arith;
  inside = refl;
  again = λ _. record {
    lower = omega arith;
    proper = λ e. omega arith;
    known = λ e. omega arith;
    stamped = λ e. omega arith;
  };
}

-- Thread 1 commits during the first round of the wait at the start; a later thread 2 takes the lock
-- of address 128 next.
abbrev pub other_commits : Env
other_commits g = record g {
  wlocks = update g.wlocks 4 2;
  txn_ts = update (update g.txn_ts (ts_slot 1) no_timestamp) (ts_slot 2) 4;
}

abbrev pub second_attempt : Attempt
second_attempt = record {
  at_begin = other_commits ∷ [];
  rounds = λ _. [];
  fresh = λ _. 0;
  clear = λ _ mem. mem;
}

-- It stores to address 64 and then meets the lock of address 128.
abbrev pub overwrite : Program
overwrite = store 64 7 (store 128 8 (finish 0))

abbrev where_it_restarts : Outcome ℕ → State
where_it_restarts (ok v s) = s
where_it_restarts (restart s) = s
where_it_restarts spinning = second
where_it_restarts failed = second

abbrev pub restarted : State
restarted =
    where_it_restarts ((begin_tx second_attempt.at_begin >> run overwrite second_attempt 0) second)

pub second_restarts :
    (begin_tx second_attempt.at_begin >> run overwrite second_attempt 0) second ≡ restart restarted
unfolding begin_tx run update addr2write_idx is_empty get_lowest_ts write_idx2read_idx
second_restarts = refl

abbrev pub reader : ℕ
reader = 3

abbrev pub lock : ℕ
lock = 9

pub idle_thread-Undisturbed : Undisturbed 0 idle_thread
unfolding arrived
idle_thread-Undisturbed = record {
  free = λ w. refl;
  no_reader = λ w u p q ne. has_bit-zero (w % 64);
  registered = omega arith;
}

pub second-Aborted : Aborted 0 second
second-Aborted = (
  refl,
  second-Ready.none,
  second_words,
  second-Ready.again (omega arith),
  refl,
  omega arith,
  omega arith,
)

pub aborted_not_running : aborted ≢ running
aborted_not_running e = cc

-- It has met an older transaction.
abbrev pub conflicted : State
conflicted = record started {
  myd = record no_opdata { attempt = 1; my_ts = 5; o_ts = 3; otid = 1 };
}

pub conflicted-Running : InPhase running 0 conflicted
conflicted-Running = (
  record {
    who = refl;
    range = omega arith;
    words = λ w. inr refl;
    tracked = started_order.tracked;
    runs = λ _. omega arith;
    own = omega arith;
  },
  started_kept,
  refl,
  tt,
)

abbrev pub no_conflict : State
no_conflict = record started { myd = record no_opdata { attempt = 1 } }

-- All the other threads give up their locks.
abbrev pub all_leave : Env
all_leave g = record g { wlocks = λ _. unlocked; read_indicators = λ _. 0 }

pub all_leave-Open : (g : Shared) → Open (addr2write_idx 128) 0 (all_leave g)
unfolding arrived
all_leave-Open g = (inl refl, λ u lt ne. has_bit-zero _)

pub other_commits-gone : (g : Shared) → (other_commits g).txn_ts (ts_slot 1) ≢ 3
unfolding update
other_commits-gone g e = omega arith

-- Thread 0 has written address 128 and read address 288.
abbrev pub holder : State
holder = record {
  shared = record quiet_shared {
    wlocks = update (λ _. unlocked) 4 0;
    read_indicators = update (λ _. 0) (write_idx2read_idx 9 0) (with_bit 0 9);
  };
  myd = record no_opdata { write_set = record { addr = 128; old = 129 } ∷ []; read_set = 9 ∷ [] };
  active = true;
}

pub holder_order : InOrder 0 holder
unfolding logs_write logs_read update addr2write_idx
holder_order = record {
  who = refl;
  range = omega arith;
  words = λ w. elim (Bool-cases (4 == w)) [
    | inl e ↦ rw e (inl (omega arith))
    | inr e ↦ rw e (inr refl)
  ];
  tracked = record {
    writes = λ w _ held. ground arith;
    owns = λ w _ logged. ground arith;
    reads = λ w _ p here. ground (
      arith,
      arrived-with_bit (λ _. 0) 9 0 w 0 (omega arith) (omega arith) p (omega arith),
      no_bits w,
    );
    entries = (omega arith, tt);
  };
  runs = λ _. omega arith;
  own = omega arith;
}

-- Thread 3 has read address 288 and announces timestamp 2.
abbrev pub read_shared : Shared
read_shared = record quiet_shared {
  read_indicators = update (λ _. 0) (write_idx2read_idx 9 3) 512;
  txn_ts = update (λ _. no_timestamp) (ts_slot 3) 2;
}

pub read_shared_arrived : arrived read_shared.read_indicators 9 3 ≡ true
unfolding arrived has_bit bit
read_shared_arrived = rw (update_self {A = ℕ} (λ _. 0) (write_idx2read_idx 9 3) 512) refl
