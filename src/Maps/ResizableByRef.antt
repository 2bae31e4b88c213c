-- ===== src/Maps/ResizableByRef.antt =====
-- pdatastructures/TMHashMapByRef.hpp: the hash map that rebuilds its array, whose transactions return
-- nothing and leave the result in a local variable of the caller, `retval`. The functions inside a
-- transaction repeat those of TMHashMap.hpp word for word.
use plsf.Prelude.{
  ℕ, suc, ◌*◌, ◌^◌, ◌≡◌, ◌≢◌, ◌≤◌, ◌<◌, refl, Bool, true, false, not, Option, none, some, List, [],
  ◌∷◌, update,
}
use plsf.Lists.Nodes.{null, Result, done, and_then}
use plsf.Maps.FixedSize.Operations.{is_some}
use plsf.Maps.Resizable.{
  HashMap, inner_put, inner_remove, inner_get, rebuild, add, remove, contains, new_hash_map,
  delete_hash_map,
}
use plsf.Maps.Resizable.View.{Represents}
use plsf.Maps.Resizable.Refinement.{resizable_map_refinement}

abbrev pub new_hash_map_by_ref : (garbage : ℕ → ℕ) → ℕ → HashMap
new_hash_map_by_ref = new_hash_map

abbrev pub delete_hash_map_by_ref : (rounds : ℕ) → HashMap → Result (Unit {0}) HashMap
delete_hash_map_by_ref = delete_hash_map

module _ (hash : ℕ → ℕ) where
  abbrev pub rebuild_by_ref : (garbage : ℕ → ℕ) (rounds : ℕ) → HashMap → Result (Unit {0}) HashMap
  rebuild_by_ref = rebuild hash

  abbrev pub inner_put_by_ref :
      (garbage : ℕ → ℕ) (new_node : ℕ) → ℕ → ℕ → ℕ → ℕ → Bool → HashMap → Result (Bool × ℕ) HashMap
  inner_put_by_ref = inner_put hash

  abbrev pub inner_remove_by_ref : ℕ → ℕ → ℕ → Bool → HashMap → Result (Bool × ℕ) HashMap
  inner_remove_by_ref = inner_remove hash

  abbrev pub inner_get_by_ref : ℕ → ℕ → ℕ → Bool → HashMap → Result (Bool × ℕ) HashMap
  inner_get_by_ref = inner_get hash

  unfoldable pub add_by_ref :
      (garbage : ℕ → ℕ) (new_node : ℕ) → ℕ → ℕ → ℕ → HashMap → Result Bool HashMap
  add_by_ref garbage new_node n key notused m =
      and_then (inner_put_by_ref garbage new_node n key key notused false m)
        (λ p m1. let retval = p.0 in done retval m1)

  unfoldable pub remove_by_ref : ℕ → ℕ → ℕ → HashMap → Result Bool HashMap
  remove_by_ref n key notused m =
      and_then (inner_remove_by_ref n key notused false m)
        (λ p m1. let retval = p.0 in done retval m1)

  unfoldable pub contains_by_ref : ℕ → ℕ → ℕ → HashMap → Result Bool HashMap
  contains_by_ref n key notused m =
      and_then (inner_get_by_ref n key notused false m) (λ p m1. let retval = p.0 in done retval m1)

  unfoldable pub add_all_by_ref :
      (garbage : ℕ → ℕ) → ℕ → ℕ → List (ℕ × ℕ) → HashMap → Result Bool HashMap
  unfolding add_by_ref
  add_all_by_ref garbage n notused [] m = done true m
  add_all_by_ref garbage n notused ((key, new_node) ∷ keys) m =
      and_then (add_by_ref garbage new_node n key notused m)
        (λ b m1. add_all_by_ref garbage n notused keys m1)

-- The operation of the set returns `b`, and the map then stands for `f`.
abbrev pub SetStep : (hash : ℕ → ℕ) → Result Bool HashMap → Bool → ℕ → (ℕ → Option ℕ) → Type 0
SetStep hash r b n f = (m' : HashMap) × (r ≡ done b m') × Represents hash m' n f

-- Both classes are a set of keys: on a map that stands for `f`, with at most `n` nodes in a bucket, fewer
-- than 2^30 buckets, and more rounds than buckets times `n`, `contains` says whether the key is there and
-- leaves the map, `add` whether it was not there, and afterwards it is, and `remove` whether it was there,
-- and afterwards it is not. The address that `tmNew` gives is not null and holds no node yet.
pub resizable_set_refinement :
    (hash garbage : ℕ → ℕ) (m : HashMap) (n : ℕ) (f : ℕ → Option ℕ) (k notused new_node r : ℕ)
    → Represents hash m n f
    → 2 * m.capacity < 2 ^ 31
    → m.capacity * n ≤ r
    → new_node ≢ null
    → m.nodes new_node ≡ none
    → ((contains hash (suc r) k notused m ≡ done (is_some (f k)) m)
        × (contains_by_ref hash (suc r) k notused m ≡ done (is_some (f k)) m))
      × SetStep hash
          (add hash garbage new_node (suc r) k notused m)
          (not (is_some (f k)))
          (suc (m.capacity * n))
          (update f k (some k))
      × SetStep hash
          (add_by_ref hash garbage new_node (suc r) k notused m)
          (not (is_some (f k)))
          (suc (m.capacity * n))
          (update f k (some k))
      × SetStep hash (remove hash (suc r) k notused m) (is_some (f k)) n (update f k none)
      × SetStep hash (remove_by_ref hash (suc r) k notused m) (is_some (f k)) n (update f k none)
unfolding add remove contains add_by_ref remove_by_ref contains_by_ref
resizable_set_refinement hash garbage m n f k notused new_node r g small enough z u =
    let (got, put, cut) =
      resizable_map_refinement hash garbage m n f k notused false k new_node r g small enough z u in
    (
      (rw got refl, rw got refl),
      (put.0, rw put.1 refl, put.2),
      (put.0, rw put.1 refl, put.2),
      (cut.0, rw cut.1 refl, cut.2),
      (cut.0, rw cut.1 refl, cut.2),
    )
