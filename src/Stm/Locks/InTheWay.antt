-- ===== src/Stm/Locks/InTheWay.antt =====
-- stms/2PLSF.hpp: the thread that stands in the way of a lock, after one's own departure from it.
use plsf.Prelude.{ℕ, ◌<◌, ◌≡◌, ◌≢◌, ◌⊎◌, inl, inr, arith, update, sym, ◌∙◌}
use plsf.Config.{registry_max_threads, num_rwl, no_timestamp}
use plsf.Index.{write_idx2read_idx}
use plsf.Stm.State.{Shared}
use plsf.Stm.Indicator.{with_bit, without_bit, arrived-depart}
use plsf.Stm.Conflict.{Lowest}
use plsf.Stm.Conflict.Minimum.{IsAnnounced}
use plsf.Stm.Locks.Order.{Doomed}

module _ (g : Shared) (widx t : ℕ) (l : Lowest) (p : widx < num_rwl)
    (range : t < registry_max_threads) where
  pub IsAnnounced-depart :
      (k : Shared) (word : ℕ)
      → (g.read_indicators (write_idx2read_idx widx t) ≡ word)
        ⊎ (g.read_indicators (write_idx2read_idx widx t) ≡ with_bit word widx)
      → k.txn_ts ≡ g.txn_ts
      → k.read_indicators
        ≡ update g.read_indicators (write_idx2read_idx widx t) (without_bit word widx)
      → (g.wlocks widx ≢ t → k.wlocks widx ≡ g.wlocks widx)
      → IsAnnounced g widx t l
      → IsAnnounced k widx t l
  IsAnnounced-depart k word now ts ri same a = record {
    other = a.other;
    in_range = a.in_range;
    ts = rw ts a.ts;
    proper = a.proper;
    stands = elim a.stands [
      | inl held ↦ inl (same (λ e. a.other (sym held ∙ e)) ∙ held)
      | inr here ↦ inr (
          rw ri (
            ground (
              arith,
              arrived-depart g.read_indicators widx t widx l.tid p range p a.in_range word now,
              here,
              a.other,
            )))
    ];
  }

-- A timestamp below one's own that another thread announces dooms the transaction.
pub Doomed-of_announced :
    (g : Shared) (widx t : ℕ) (l : Lowest) (my_ts : ℕ)
    → my_ts ≢ no_timestamp
    → l.ts < my_ts
    → IsAnnounced g widx t l
    → Doomed l.ts my_ts l.tid
Doomed-of_announced g widx t l my_ts stamped lower a = record {
  lower = lower;
  proper = omega (arith, a.proper);
  known = omega (arith, a.in_range);
  stamped = stamped;
}
