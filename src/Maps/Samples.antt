-- ===== src/Maps/Samples.antt =====
-- pdatastructures: a hash map of two buckets, one with a removed node and an active one.
pub mod OneBucket
use plsf.Prelude.{
  ℕ, zero, suc, ◌≡◌, ◌%◌, ◌≤◌, refl, arith, Option, none, some, List, [], ◌∷◌, length, update, sym,
  ◌∙◌,
}
use plsf.Maps.FixedSize.{HashMap}
use plsf.Maps.FixedSize.Cells.{Cell, first, linked, Chain}
use plsf.Maps.FixedSize.Changed.{AllAt, lookup}
use plsf.Maps.FixedSize.Operations.{Represents, matches-inactive, differ}

abbrev pub same_number : ℕ → ℕ
same_number k = k

abbrev pub removed_four : Cell
removed_four = record { addr = 24; key = 4; val = 7; is_active = 0 }

abbrev pub six_to_nine : Cell
six_to_nine = record { addr = 32; key = 6; val = 9; is_active = 1 }

abbrev pub two_buckets : HashMap
two_buckets = record {
  buckets = update (λ h. 0) 0 24;
  capacity = 2;
  nodes =
      update (update (λ a. none) 24 (some (linked removed_four 32))) 32
        (some (linked six_to_nine 0));
}

abbrev pub two_cells : ℕ → List Cell
two_cells zero = removed_four ∷ six_to_nine ∷ []
two_cells (suc h) = []

starts : (h : ℕ) → two_buckets.buckets h ≡ first (two_cells h)
unfolding update
starts zero = refl
starts (suc h) = ground arith

chains : (h : ℕ) → Chain two_buckets.nodes (two_cells h)
unfolding update
chains zero = (refl, omega arith, (refl, omega arith, tt))
chains (suc h) = tt

only : (k h : ℕ) → AllAt k 32 (two_cells h)
only k zero = (
  (λ t. absurd (differ (sym t ∙ matches-inactive k (linked removed_four 32) refl))),
  (λ t. refl, tt),
)
only k (suc h) = tt

lengths : (h : ℕ) → length (two_cells h) ≤ 2
lengths zero = omega arith
lengths (suc h) = omega arith

abbrev pub six_only : ℕ → Option ℕ
six_only k = lookup k (two_cells (k % 2))

pub two_buckets-Represents : Represents same_number two_buckets 2 six_only
unfolding Represents
two_buckets-Represents = (
  two_cells,
  (λ k. 32),
  record {
    some_buckets = omega arith;
    starts = λ h b. starts h;
    chains = chains;
    only = λ k. only k (k % 2);
  },
  lengths,
  (λ k. refl),
)

pub free_node : two_buckets.nodes 40 ≡ none
unfolding update
free_node = refl
