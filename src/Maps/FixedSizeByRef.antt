-- ===== src/Maps/FixedSizeByRef.antt =====
-- pdatastructures/TMHashMapFixedSizeByRef.hpp: the hash map with a fixed number of buckets, whose
-- transactions return nothing and leave the result in a local variable of the caller, `retval`. The
-- functions inside a transaction repeat those of TMHashMapFixedSize.hpp word for word.
use plsf.Prelude.{
  ℕ, suc, ◌≡◌, ◌≢◌, refl, Bool, true, false, not, Option, none, some, List, [], ◌∷◌, update,
}
use plsf.Lists.Nodes.{null, Result, done, and_then}
use plsf.Maps.FixedSize.{
  HashMap, inner_put, inner_remove, inner_get, add_key, remove, contains, new_fixed_map,
  delete_fixed_map,
}
use plsf.Maps.FixedSize.Operations.{Represents, is_some}
use plsf.Maps.FixedSize.Refinement.{fixed_map_refinement}

unfoldable pub new_fixed_map_by_ref : ℕ → ℕ → HashMap → Result (Unit {0}) HashMap
unfolding new_fixed_map
new_fixed_map_by_ref n capa m = and_then (new_fixed_map n capa m) (λ _ m1. done tt m1)

unfoldable pub delete_fixed_map_by_ref : (rounds : ℕ) → ℕ → HashMap → Result (Unit {0}) HashMap
unfolding delete_fixed_map
delete_fixed_map_by_ref rounds n m = and_then (delete_fixed_map rounds n m) (λ _ m1. done tt m1)

module _ (hash : ℕ → ℕ) where
  abbrev pub inner_put_by_ref :
      (new_node : ℕ) → ℕ → ℕ → ℕ → ℕ → Bool → HashMap → Result (Bool × ℕ) HashMap
  inner_put_by_ref = inner_put hash

  abbrev pub inner_remove_by_ref : ℕ → ℕ → ℕ → Bool → HashMap → Result (Bool × ℕ) HashMap
  inner_remove_by_ref = inner_remove hash

  abbrev pub inner_get_by_ref : ℕ → ℕ → ℕ → Bool → HashMap → Result (Bool × ℕ) HashMap
  inner_get_by_ref = inner_get hash

  unfoldable pub add_by_ref : (new_node : ℕ) → ℕ → ℕ → ℕ → HashMap → Result Bool HashMap
  add_by_ref new_node n key notused m =
      and_then (inner_put_by_ref new_node n key key notused false m)
        (λ p m1. let retval = p.0 in done retval m1)

  unfoldable pub remove_by_ref : ℕ → ℕ → ℕ → HashMap → Result Bool HashMap
  remove_by_ref n key notused m =
      and_then (inner_remove_by_ref n key notused false m)
        (λ p m1. let retval = p.0 in done retval m1)

  unfoldable pub contains_by_ref : ℕ → ℕ → ℕ → HashMap → Result Bool HashMap
  contains_by_ref n key notused m =
      and_then (inner_get_by_ref n key notused false m) (λ p m1. let retval = p.0 in done retval m1)

  unfoldable pub add_all_by_ref : ℕ → List (ℕ × ℕ) → ℕ → HashMap → Result Bool HashMap
  unfolding add_by_ref
  add_all_by_ref n [] notused m = done true m
  add_all_by_ref n (k ∷ ks) notused m =
      and_then (add_by_ref k.1 n k.0 notused m) (λ _ m1. add_all_by_ref (suc n) ks notused m1)

-- The operation of the set returns `b`, and the map then stands for `f`.
abbrev pub SetStep : (hash : ℕ → ℕ) → Result Bool HashMap → Bool → ℕ → (ℕ → Option ℕ) → Type 0
SetStep hash r b n f = (m' : HashMap) × (r ≡ done b m') × Represents hash m' n f

-- Both classes are a set of keys: on a map that stands for `f`, with at most `n` nodes in a bucket and
-- `n + 1` rounds, `contains` says whether the key is there and leaves the map, `add` whether it was not
-- there, and afterwards it is, and `remove` whether it was there, and afterwards it is not. The address
-- that `tmNew` gives is not null and holds no node yet.
pub fixed_set_refinement :
    (hash : ℕ → ℕ) (m : HashMap) (n : ℕ) (f : ℕ → Option ℕ) (k notused new_node : ℕ)
    → Represents hash m n f
    → new_node ≢ null
    → m.nodes new_node ≡ none
    → ((contains hash (suc n) k notused m ≡ done (is_some (f k)) m)
        × (contains_by_ref hash (suc n) k notused m ≡ done (is_some (f k)) m))
      × SetStep hash
          (add_key hash new_node (suc n) k notused m)
          (not (is_some (f k)))
          (suc n)
          (update f k (some k))
      × SetStep hash
          (add_by_ref hash new_node (suc n) k notused m)
          (not (is_some (f k)))
          (suc n)
          (update f k (some k))
      × SetStep hash (remove hash (suc n) k notused m) (is_some (f k)) n (update f k none)
      × SetStep hash (remove_by_ref hash (suc n) k notused m) (is_some (f k)) n (update f k none)
unfolding add_key remove contains add_by_ref remove_by_ref contains_by_ref
fixed_set_refinement hash m n f k notused new_node g z u =
    let (got, put, cut) = fixed_map_refinement hash m n f k notused false k new_node g z u in
    (
      (rw got refl, rw got refl),
      (put.0, rw put.1 refl, put.2),
      (put.0, rw put.1 refl, put.2),
      (cut.0, rw cut.1 refl, cut.2),
      (cut.0, rw cut.1 refl, cut.2),
    )
