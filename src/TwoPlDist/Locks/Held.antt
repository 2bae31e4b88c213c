-- ===== src/TwoPlDist/Locks/Held.antt =====
-- stms/2PLUndoDist.hpp: what a thread holds of the locks, and the locks without its part.
use plsf.Prelude.{
  ℕ, ◌+◌, ◌<◌, ◌≡◌, ◌≢◌, refl, arith, true, false, ◌==◌, List, [], All, ap, sym, ◌∙◌, ◌%◌, ◌^◌,
  ℕ_discrete, if◌then◌else◌,
}
use plsf.Config.{registry_max_threads, num_rwl}
use plsf.Stm.State.{WriteSetEntry}
use plsf.Stm.Indicator.{arrived}
use plsf.Stm.Conflict.{get_max_threads}
use plsf.Stm.Locks.Tracked.{logs_read, logs_write}
use plsf.TwoPlDist.State.{Shared, unlocked}
use plsf.TwoPlDist.Locks.Empty.{threads}

-- Thread `t`, one of at most 256 registered, holds no lock.
pub record HoldsNone (t : ℕ) (g : Shared) : Type 0 where
  pub no_write : (l : ℕ) → g.wlocks l ≢ t + 1
  pub no_read : (w : ℕ) → w < num_rwl → arrived g.read_indicators w t ≡ false
  pub registered : t < threads g
  pub count : threads g < registry_max_threads + 1

-- The same lock words, and the same bits of every lock and thread in range.
pub record SameLocks (b g : Shared) : Type 0 where
  pub writes : (l : ℕ) → g.wlocks l ≡ b.wlocks l
  pub reads :
      (w u : ℕ)
      → w < num_rwl
      → u < registry_max_threads
      → arrived g.read_indicators w u ≡ arrived b.read_indicators w u
  pub max : g.max_tid ≡ b.max_tid

-- Thread `t` began at the locks `b`, where it held none: it holds at most the logged ones, and without
-- its own part the locks are as they were.
pub record Held (t : ℕ) (b : Shared) (ws : List WriteSetEntry) (rs : List ℕ) (g : Shared)
    : Type 0 where
  pub writes : (l : ℕ) → (if g.wlocks l == t + 1 then unlocked else g.wlocks l) ≡ b.wlocks l
  pub reads :
      (w u : ℕ)
      → w < num_rwl
      → u < registry_max_threads
      → (if u == t then false else arrived g.read_indicators w u) ≡ arrived b.read_indicators w u
  pub mine_w : (l : ℕ) → g.wlocks l ≡ t + 1 → logs_write l ws ≡ true
  pub mine_r : (w : ℕ) → w < num_rwl → arrived g.read_indicators w t ≡ true → logs_read w rs ≡ true
  pub entries : All (λ w. w < num_rwl) rs
  pub max : g.max_tid ≡ b.max_tid

pub Held-start : (t : ℕ) (g : Shared) → HoldsNone t g → Held t g [] [] g
Held-start t g h = record {
  writes = λ l. ground (arith, h.no_write l);
  reads = λ w u p q. own_bit w u p;
  mine_w = λ l e. absurd (h.no_write l e);
  mine_r = λ w p e. ground (arith, h.no_read w p);
  entries = tt;
  max = refl;
}
  where
    own_bit :
        (w u : ℕ)
        → w < num_rwl
        → (if u == t then false else arrived g.read_indicators w u) ≡ arrived g.read_indicators w u
    own_bit w u p = elim (ℕ_discrete u t) [
      | yes e ↦ rw e (ground (arith, h.no_read w p))
      | no n ↦ ground (arith, n)
    ]

-- They do not depend on memory.
pub Held-mem :
    (t : ℕ) (b : Shared) (ws : List WriteSetEntry) (rs : List ℕ) (g : Shared) (mem : ℕ → ℕ)
    → Held t b ws rs g
    → Held t b ws rs (record g { mem = mem })
Held-mem t b ws rs g mem h = record {
  writes = h.writes;
  reads = h.reads;
  mine_w = h.mine_w;
  mine_r = h.mine_r;
  entries = h.entries;
  max = h.max;
}

pub SameLocks-keeps :
    (b g g' : Shared)
    → g'.wlocks ≡ g.wlocks
    → g'.read_indicators ≡ g.read_indicators
    → g'.max_tid ≡ g.max_tid
    → SameLocks b g
    → SameLocks b g'
SameLocks-keeps b g g' p q r h = record {
  writes = λ l. ap (λ f. f l) p ∙ h.writes l;
  reads = λ w u k k'. ap (λ ri. arrived ri w u) q ∙ h.reads w u k k';
  max = r ∙ h.max;
}

pub SameLocks-HoldsNone :
    (t : ℕ) (b g : Shared)
    → t < registry_max_threads
    → SameLocks b g
    → HoldsNone t b
    → HoldsNone t g
SameLocks-HoldsNone t b g lt h n =
    let e : threads g ≡ threads b = ap (λ z. get_max_threads z % 2 ^ 32) h.max in
    record {
      no_write = λ l q. n.no_write l (sym (h.writes l) ∙ q);
      no_read = λ w p. h.reads w t p lt ∙ n.no_read w p;
      registered = omega (arith, e, n.registered);
      count = omega (arith, e, n.count);
    }
