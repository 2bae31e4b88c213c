-- ===== src/Maps/Samples/OneBucket.antt =====
-- pdatastructures: a resizable hash map of one bucket with one node, and so full.
use plsf.Prelude.{
  ℕ, zero, suc, ◌≤◌, ◌<◌, ◌%◌, ◌≡◌, refl, All, arith, Option, none, some, List, [], ◌∷◌, length,
  update,
}
use plsf.Maps.Resizable.{HashMap}
use plsf.Maps.Resizable.Cells.{Cell, first, linked, Chain}
use plsf.Maps.Resizable.Family.{Distinct, lookup, Owned}
use plsf.Maps.Resizable.View.{Home, Represents}
use plsf.Maps.Samples.{same_number}

abbrev pub five_to_seven : Cell
five_to_seven = record { addr = 24; key = 5; val = 7 }

abbrev pub one_bucket : HashMap
one_bucket = record {
  capacity = 1;
  size_hm = 1;
  buckets = λ h. 24;
  nodes = update (λ a. none) 24 (some (linked five_to_seven 0));
}

abbrev pub one_list : ℕ → List Cell
one_list zero = five_to_seven ∷ []
one_list (suc t) = []

starts : (h : ℕ) → h < 1 → 24 ≡ first (one_list h)
starts zero lt = refl
starts (suc h) lt = absurd (omega (arith, lt))

chains : (t : ℕ) → Chain one_bucket.nodes (one_list t)
unfolding update
chains zero = (refl, omega arith, tt)
chains (suc t) = tt

cells : (t : ℕ) → All (Owned (Home same_number 1) (λ a. 0) (λ k. 24) t) (one_list t)
cells zero = ((refl, refl, refl), tt)
cells (suc t) = tt

distinct : (t : ℕ) → Distinct (one_list t)
distinct zero = (tt, tt)
distinct (suc t) = tt

lengths : (t : ℕ) → length (one_list t) ≤ 1
lengths zero = omega arith
lengths (suc t) = omega arith

abbrev pub five_only : ℕ → Option ℕ
five_only k = lookup k (one_list (k % 1))

pub one_bucket-Represents : Represents same_number one_bucket 1 five_only
one_bucket-Represents = record {
  lists = one_list;
  own = λ a. 0;
  place = λ k. 24;
  some_buckets = omega arith;
  starts = starts;
  family = record { chains = chains; cells = cells; distinct = distinct };
  short = lengths;
  values = λ k. refl;
}

pub vacant_node : one_bucket.nodes 40 ≡ none
unfolding update
vacant_node = refl
