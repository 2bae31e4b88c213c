-- ===== src/Lists/Samples.antt =====
-- pdatastructures: a set with two keys and a queue with one item, node by node.
use plsf.Prelude.{ℕ, ◌≡◌, refl, arith, Bool, none, some, List, [], ◌∷◌, update}
use plsf.Lists.Set.{ListSet}
use plsf.Lists.Set.Links.{Item, next_is, member}
use plsf.Lists.Set.Search.{WellFormed}
use plsf.Lists.Set.Refinement.{Represents}
use plsf.Lists.Queue.{Queue}
use plsf.Lists.Queue.Chain.{node}
use plsf.Lists.Queue.Chain

-- The sentinels lie at 8 and 16, the keys 5 and 9 at 24 and 32.
abbrev pub two_keys : ListSet
two_keys = record {
  head = 8;
  tail = 16;
  nodes =
      update
        (update (update (update (λ a. none) 8 (some (next_is 0 24))) 24 (some (next_is 5 32))) 32
          (some (next_is 9 16)))
        16 (some (next_is 0 0));
}

abbrev pub two_items : List Item
two_items = (24, 5) ∷ (32, 9) ∷ []

pub two_keys-WellFormed : WellFormed two_keys two_items
unfolding update
two_keys-WellFormed = record {
  head_key = 0;
  links = (refl, (refl, refl));
  tail_node = (next_is 0 0, refl);
  no_null = refl;
  ends = omega arith;
  apart_head = (omega arith, (omega arith, tt));
  apart_tail = (omega arith, (omega arith, tt));
  distinct = ((omega arith, tt), (tt, tt));
  sorted = ((omega arith, tt), (tt, tt));
}

abbrev pub five_and_nine : ℕ → Bool
five_and_nine k = member k two_items

pub two_keys-Represents : Represents two_keys 2 five_and_nine
unfolding Represents
two_keys-Represents = (two_items, two_keys-WellFormed, refl, λ k. refl)

pub free_node : two_keys.nodes 40 ≡ none
unfolding update
free_node = refl

-- The sentinel lies at 8, the item 7 at 16.
abbrev pub one_item : Queue
one_item = record {
  head = 8;
  tail = 16;
  nodes = update (update (λ a. none) 8 (some (node 0 16))) 16 (some (node 7 0));
}

pub one_item-Represents : Chain.Represents one_item (7 ∷ [])
unfolding Chain.Represents update
one_item-Represents = (
  (16, 7) ∷ [],
  record {
    sentinel = 0;
    chain = (refl, (refl, refl));
    no_null = refl;
    distinct = ((omega arith, tt), (tt, tt));
  },
  refl,
)

pub free_cell : one_item.nodes 24 ≡ none
unfolding update
free_cell = refl
