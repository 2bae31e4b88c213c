-- ===== src/Maps/Resizable/Refinement.antt =====
-- pdatastructures/TMHashMap.hpp: the resizable hash map as a partial function from keys to values.
use plsf.Prelude.{
  ℕ, zero, suc, ◌*◌, ◌^◌, ◌≡◌, ◌≢◌, ◌≤◌, ◌<◌, ◌%◌, refl, arith, Bool, not, Option, none, some, [],
  update, Bool-cases, inl, inr,
}
use plsf.Lists.Nodes.{null, done}
use plsf.Maps.FixedSize.Operations.{is_some, old_in}
use plsf.Maps.Resizable.{
  HashMap, is_full, put_from, inner_put, inner_get, inner_remove, new_hash_map,
}
use plsf.Maps.Resizable.View.{Represents}
use plsf.Maps.Resizable.Operations.{Represents-most, get_lem, remove_lem, put_lem}
use plsf.Maps.Resizable.Rebuilding.{clear_from-cleared, rebuild_lem}

le_times : (c n : ℕ) → 0 < c → n ≤ c * n
le_times zero n h = absurd (omega (arith, h))
le_times (suc c) n h = omega arith

module _ (hash garbage : ℕ → ℕ) (k old : ℕ) (save : Bool) (val a r : ℕ) (z : a ≢ null) where
  put_now :
      (m : HashMap) (n : ℕ) (f : ℕ → Option ℕ)
      → Represents hash m n f
      → n ≤ r
      → m.nodes a ≡ none
      → (m' : HashMap) × (put_from hash a
            (suc r)
            k
            val
            old
            save
            (hash k % m.capacity)
            (m.buckets (hash k % m.capacity))
            (m.buckets (hash k % m.capacity))
            m
          ≡ done (not (is_some (f k)), old_in save old (f k)) m')
        × Represents hash m' (suc n) (update f k (some val))
  put_now m n f g enough u = put_lem k g r old save enough a val z u

  put_cases :
      (m : HashMap) (n : ℕ) (f : ℕ → Option ℕ)
      → Represents hash m n f
      → 2 * m.capacity < 2 ^ 31
      → m.capacity * n ≤ r
      → m.nodes a ≡ none
      → (m' : HashMap) × (inner_put hash garbage a (suc r) k val old save m
          ≡ done (not (is_some (f k)), old_in save old (f k)) m')
        × Represents hash m' (suc (m.capacity * n)) (update f k (some val))
  unfolding inner_put
  put_cases m n f g small enough u =
      let le = le_times m.capacity n g.some_buckets in
      elim (Bool-cases (is_full m)) [
        | inl e ↦
            let (m1, ran, kept, free, c) =
              rebuild_lem hash garbage r m n f g (omega (arith, le, enough)) small in
            let s = put_now m1 (m.capacity * n) f kept enough (free a u) in
            (s.0, rw (e, ran) s.1, s.2)
        | inr e ↦
            let s = put_now m n f g (omega (arith, le, enough)) u in
            (
              s.0,
              rw e s.1,
              Represents-most hash s.0 (suc n) (suc (m.capacity * n)) (update f k (some val))
                  (omega (arith, le)) s.2,
            )
      ]

-- `TMHashMap` is a map: on one that stands for the partial function `f`, with at most `n` nodes in a
-- bucket, fewer than 2^30 buckets and more rounds of each loop than buckets times `n`, `innerGet` says
-- whether the key has a value and leaves the map; `innerPut` says whether it has none, and the map
-- then stands for `f` with the value at the key, also where `rebuild` moved every node to twice as
-- many buckets before; `innerRemove` says whether it has one, and the map then stands for `f`
-- without it. Each gives the value the key had, if there is one and it is asked for. None of them meets
-- an address that holds no node, whatever the hash function and whatever the array that `tmMalloc`
-- gives held. The address that `tmNew` gives is not null and holds no node yet.
pub resizable_map_refinement :
    (hash garbage : ℕ → ℕ) (m : HashMap) (n : ℕ) (f : ℕ → Option ℕ) (k old : ℕ) (save : Bool)
    (val new_node r : ℕ)
    → Represents hash m n f
    → 2 * m.capacity < 2 ^ 31
    → m.capacity * n ≤ r
    → new_node ≢ null
    → m.nodes new_node ≡ none
    → (inner_get hash (suc r) k old save m ≡ done (is_some (f k), old_in save old (f k)) m)
      × ((m' : HashMap) × (inner_put hash garbage new_node (suc r) k val old save m
            ≡ done (not (is_some (f k)), old_in save old (f k)) m')
          × Represents hash m' (suc (m.capacity * n)) (update f k (some val)))
      × ((m' : HashMap) × (inner_remove hash (suc r) k old save m
            ≡ done (is_some (f k), old_in save old (f k)) m')
          × Represents hash m' n (update f k none))
resizable_map_refinement hash garbage m n f k old save val a r g small enough z u =
    let le : n ≤ r = omega (arith, le_times m.capacity n g.some_buckets, enough) in
    (
      get_lem k g r old save le,
      put_cases hash garbage k old save val a r z m n f g small enough u,
      remove_lem k g r old save le,
    )

-- The constructor gives a map in which no key has a value, whatever the array held, if there is a
-- bucket.
new_hash_map-Represents :
    (hash garbage : ℕ → ℕ) (capacity : ℕ)
    → 0 < capacity
    → Represents hash (new_hash_map garbage capacity) 0 (λ k. none)
unfolding new_hash_map
new_hash_map-Represents hash garbage capacity positive = record {
  lists = λ h. [];
  own = λ a. 0;
  place = λ k. null;
  some_buckets = positive;
  starts = λ h lt. (clear_from-cleared capacity 0 garbage h).0 (omega arith) (omega (arith, lt));
  family = record { chains = λ t. tt; cells = λ t. tt; distinct = λ t. tt };
  short = λ h. omega arith;
  values = λ k. refl;
}
