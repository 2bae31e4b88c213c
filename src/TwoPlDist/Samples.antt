-- ===== src/TwoPlDist/Samples.antt =====
-- stms/2PLUndoDist.hpp: two threads, and a transaction that copies a word.
use plsf.Prelude.{ℕ, ◌+◌, ◌≡◌, refl, arith, true, false, [], ◌∷◌, update, update_lem}
use plsf.Prelude.Int.{pos}
use plsf.Word.{has_bit-zero}
use plsf.Index.{addr2write_idx}
use plsf.Stm.Indicator.{arrived}
use plsf.Stm.Program.{Program, finish, load, store, Attempt}
use plsf.TwoPlDist.State.{Shared, State, new_stm}
use plsf.TwoPlDist.Locks.Held.{HoldsNone}
use plsf.Stm.Locks.Tracked.{logs_write}
use plsf.TwoPlDist.Txn.{rollback}
use plsf.TwoPlDist.Program.Logs.{Running}
use plsf.TwoPlDist.Program.Loop.{Respects, AllFree}

abbrev pub copy_word : Program
copy_word = load 64 (λ v. store 96 (v + 1) (finish v))

abbrev pub quiet : Attempt
quiet = record { at_begin = []; rounds = λ n. []; fresh = λ n. 0; clear = λ a m. m }

-- Thread 0 before its transaction; address `a` holds `a`.
abbrev pub idle : State
idle = new_stm 0 (pos 2) (λ a. a) (λ a. false)

abbrev pub begun : State
begun = record idle { active = true }

pub no_bits : (w u : ℕ) → arrived (λ _. 0) w u ≡ false
unfolding arrived
no_bits w u = has_bit-zero _

pub idle-HoldsNone : HoldsNone 0 idle.shared
unfolding new_stm
idle-HoldsNone = record {
  no_write = λ l e. absurd (omega (arith, e));
  no_read = λ w p. no_bits w 0;
  registered = omega arith;
  count = omega arith;
}

-- The other threads give back all their locks.
abbrev pub freed : (Shared → Shared) × Attempt
freed = ((λ g. record g { wlocks = λ _. 0; read_indicators = λ _. 0 }), quiet)

pub freed-Respects : Respects 0 freed
freed-Respects g h = record {
  no_write = λ l e. absurd (omega (arith, e));
  no_read = λ w p. no_bits w 0;
  registered = h.registered;
  count = h.count;
}

pub freed-AllFree : (g : Shared) → AllFree 0 (freed.0 g)
freed-AllFree g = ((λ l. refl), λ w u p q r. no_bits w u)

-- A transaction that has stored 7 over the 32 that address 32 held, with the lock of the address.
abbrev pub stored : State
stored = record begun {
  shared = record begun.shared {
    wlocks = update (λ _. 0) (addr2write_idx 32) 1;
    mem = update (λ a. a) 32 7;
  };
  myd = record begun.myd { write_set = record { addr = 32; old = 32 } ∷ [] };
}

pub stored-Running : Running 0 idle.shared stored
unfolding new_stm rollback logs_write
stored-Running = record {
  active = refl;
  tid = refl;
  held = record {
    writes = λ l. ground (arith, update_lem {A = ℕ} (λ _. 0) (addr2write_idx 32) 1 l);
    reads = λ w u p q. ground (arith, no_bits w u);
    mine_w = λ l e. ground (arith, update_lem {A = ℕ} (λ _. 0) (addr2write_idx 32) 1 l, e);
    mine_r = λ w p e. absurd (ground (arith, no_bits w 0, e));
    entries = tt;
    max = refl;
  };
  undoes = λ a.
      ground (arith, update_lem (update (λ a. a) 32 7) 32 32 a, update_lem {A = ℕ} (λ a. a) 32 7 a);
  plain = tt;
}

-- Then thread 1 has stored 99 to address 32, and holds the lock of address 64.
abbrev pub later : Shared
later = record idle.shared {
  wlocks = update (λ _. 0) (addr2write_idx 64) 2;
  mem = update (λ a. a) 32 99;
}

pub later-HoldsNone : HoldsNone 0 later
unfolding new_stm
later-HoldsNone = record {
  no_write = λ l e. ground (arith, update_lem {A = ℕ} (λ _. 0) (addr2write_idx 64) 2 l);
  no_read = λ w p. no_bits w 0;
  registered = omega arith;
  count = omega arith;
}
