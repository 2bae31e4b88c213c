-- ===== src/Maps/FixedSize.antt =====
-- pdatastructures/TMHashMapFixedSize.hpp: a hash map with a fixed number of buckets, each a linked list
-- of nodes. A removed node stays in its list, inactive, until a later insertion takes it. Keys and
-- values are numbers, as in the benchmarks; `hash` is `std::hash`.
pub mod Cells
pub mod Changed
pub mod Found
pub mod Appended
pub mod WellFormed
pub mod Operations
pub mod Putting
pub mod Last
pub mod Refinement
pub mod New
use plsf.Prelude.{
  ℕ, zero, suc, ◌%◌, Bool, true, false, not, ◌&&◌, ◌==◌, ltb, if◌then◌else◌, Option, none, some,
  List, [], ◌∷◌, update,
}
use plsf.Lists.Nodes.{null, Result, done, fault, unfinished, and_then}

pub record Node : Type 0 where
  pub key : ℕ
  pub val : ℕ
  pub next : ℕ
  pub is_active : ℕ

pub record HashMap : Type 0 where
  pub buckets : ℕ → ℕ
  pub capacity : ℕ
  pub nodes : ℕ → Option Node

unfoldable pub load : ℕ → HashMap → Result Node HashMap
load a m = elim (m.nodes a) [ none ↦ fault | some n ↦ done n m ]

-- Stores to fields of one node.
unfoldable pub change : ℕ → (Node → Node) → HashMap → Result (Unit {0}) HashMap
unfolding load
change a f m =
    and_then (load a m) (λ n m1. done tt (record m1 { nodes = update m1.nodes a (some (f n)) }))

-- `key == node->key && node->isActive.pload() == 1`
abbrev pub matches : ℕ → Node → Bool
matches key n = (key == n.key) && (n.is_active == 1)

-- Where a replaced or removed value goes.
abbrev pub saved : Bool → ℕ → ℕ → ℕ
saved save_old_value old_value val = if save_old_value then val else old_value

-- The loops below take the rounds they may run; their results are the returned value and `oldValue`.
unfoldable pub get_from : ℕ → ℕ → ℕ → Bool → ℕ → HashMap → Result (Bool × ℕ) HashMap
unfolding load
get_from zero key old_value save node m = unfinished
get_from (suc n) key old_value save node m =
    if node == null
    then done (false, old_value) m
    else and_then (load node m) (λ c m1.
      if matches key c
      then done (true, saved save old_value c.val) m1
      else get_from n key old_value save c.next m1)

unfoldable pub remove_from : ℕ → ℕ → ℕ → Bool → ℕ → HashMap → Result (Bool × ℕ) HashMap
unfolding load change
remove_from zero key old_value save node m = unfinished
remove_from (suc n) key old_value save node m =
    if node == null
    then done (false, old_value) m
    else and_then (load node m) (λ c m1.
      if matches key c
      then and_then (change node (λ d. record d { is_active = 0 }) m1)
          (λ _ m2. done (true, saved save old_value c.val) m2)
      else remove_from n key old_value save c.next m1)

-- At the end of the list: the node found for replacement, or a new one.
unfoldable pub put_last : (new_node : ℕ) → ℕ → ℕ → ℕ → ℕ → ℕ → HashMap → Result Bool HashMap
unfolding load change
put_last new_node key value h prev replnode m =
    if not (replnode == null)
    then and_then (load replnode m) (λ r m1.
      if not (r.is_active == 0)
      then fault
      else and_then (change replnode (λ d. record d { key = key; val = value; is_active = 1 }) m1)
          (λ _ m2. done true m2))
    else (let m1 = record m {
      nodes =
          update m.nodes new_node
            (some (record { key = key; val = value; next = null; is_active = 1 }));
    } in
        if null == prev
        then done true (record m1 { buckets = update m1.buckets h new_node })
        else and_then (change prev (λ d. record d { next = new_node }) m1) (λ _ m2. done true m2))

unfoldable pub put_from :
    (new_node : ℕ) → ℕ → ℕ → ℕ → ℕ → Bool → ℕ → ℕ → ℕ → ℕ → HashMap → Result (Bool × ℕ) HashMap
unfolding load change put_last
put_from new_node zero key value old_value save h node prev replnode m = unfinished
put_from new_node (suc n) key value old_value save h node prev replnode m =
    if node == null
    then and_then (put_last new_node key value h prev replnode m) (λ b m1. done (b, old_value) m1)
    else and_then (load node m) (λ c m1.
      if matches key c
      then and_then (change node (λ d. record d { val = value }) m1)
          (λ _ m2. done (false, saved save old_value c.val) m2)
      else put_from new_node n key value old_value save h c.next node
          (if (replnode == null) && (c.is_active == 0) then node else replnode) m1)

module _ (hash : ℕ → ℕ) where
  abbrev pub bucket_of : ℕ → HashMap → ℕ
  bucket_of key m = hash key % m.capacity

  unfoldable pub inner_get : ℕ → ℕ → ℕ → Bool → HashMap → Result (Bool × ℕ) HashMap
  unfolding get_from
  inner_get n key old_value save m = get_from n key old_value save (m.buckets (bucket_of key m)) m

  unfoldable pub inner_remove : ℕ → ℕ → ℕ → Bool → HashMap → Result (Bool × ℕ) HashMap
  unfolding remove_from
  inner_remove n key old_value save m =
      remove_from n key old_value save (m.buckets (bucket_of key m)) m

  unfoldable pub inner_put :
      (new_node : ℕ) → ℕ → ℕ → ℕ → ℕ → Bool → HashMap → Result (Bool × ℕ) HashMap
  unfolding put_from
  inner_put new_node n key value old_value save m =
      let h = bucket_of key m in
      put_from new_node n key value old_value save h (m.buckets h) (m.buckets h) null m

  -- The operations, each a transaction.
  abbrev pub first_of : Result (Bool × ℕ) HashMap → Result Bool HashMap
  first_of r = and_then r (λ p m. done p.0 m)

  unfoldable pub add : (new_node : ℕ) → ℕ → ℕ → ℕ → ℕ → HashMap → Result Bool HashMap
  unfolding inner_put
  add new_node n key value notused m = first_of (inner_put new_node n key value notused false m)

  unfoldable pub add_key : (new_node : ℕ) → ℕ → ℕ → ℕ → HashMap → Result Bool HashMap
  unfolding inner_put
  add_key new_node n key notused m = first_of (inner_put new_node n key key notused false m)

  unfoldable pub remove : ℕ → ℕ → ℕ → HashMap → Result Bool HashMap
  unfolding inner_remove
  remove n key notused m = first_of (inner_remove n key notused false m)

  unfoldable pub contains : ℕ → ℕ → ℕ → HashMap → Result Bool HashMap
  unfolding inner_get
  contains n key notused m = first_of (inner_get n key notused false m)

-- `for (int i = 0; i < capacity; i++) buckets[i] = nullptr;`
unfoldable pub clear_from : ℕ → ℕ → HashMap → Result (Unit {0}) HashMap
clear_from zero i m = unfinished
clear_from (suc n) i m =
    if ltb i m.capacity
    then clear_from n (suc i) (record m { buckets = update m.buckets i null })
    else done tt m

-- The constructor, on memory in which the array of buckets holds anything.
unfoldable pub new_fixed_map : ℕ → ℕ → HashMap → Result Bool HashMap
unfolding clear_from
new_fixed_map n capa m =
    and_then (clear_from n 0 (record m { capacity = capa })) (λ _ m1. done true m1)

-- The destructor: the nodes of a bucket, then those of the next. The array is not read again.
unfoldable pub delete_nodes : ℕ → ℕ → HashMap → Result (Unit {0}) HashMap
unfolding load
delete_nodes zero node m = unfinished
delete_nodes (suc n) node m =
    if node == null
    then done tt m
    else and_then (load node m)
        (λ c m1. delete_nodes n c.next (record m1 { nodes = update m1.nodes node none }))

unfoldable pub delete_buckets : (rounds : ℕ) → ℕ → ℕ → HashMap → Result (Unit {0}) HashMap
unfolding delete_nodes
delete_buckets rounds zero i m = unfinished
delete_buckets rounds (suc n) i m =
    if ltb i m.capacity
    then and_then (delete_nodes rounds (m.buckets i) m) (λ _ m1. delete_buckets rounds n (suc i) m1)
    else done tt m

unfoldable pub delete_fixed_map : (rounds : ℕ) → ℕ → HashMap → Result Bool HashMap
unfolding delete_buckets
delete_fixed_map rounds n m = and_then (delete_buckets rounds n 0 m) (λ _ m1. done true m1)

-- `addAll` on keys, each with the address for its node.
unfoldable pub add_all : (hash : ℕ → ℕ) → ℕ → List (ℕ × ℕ) → ℕ → HashMap → Result Bool HashMap
unfolding add_key
add_all hash n [] notused m = done true m
add_all hash n (k ∷ ks) notused m =
    and_then (add_key hash k.1 n k.0 notused m) (λ _ m1. add_all hash (suc n) ks notused m1)
