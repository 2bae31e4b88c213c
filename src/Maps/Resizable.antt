-- ===== src/Maps/Resizable.antt =====
-- pdatastructures/TMHashMap.hpp: a hash map that doubles its buckets when it holds more keys than three
-- quarters of them. Keys and values are numbers, as in the benchmarks; `hash` is `std::hash`.
pub mod Cells
pub mod Family
pub mod Steps
pub mod View
pub mod Hits
pub mod Cuts
pub mod Appends
pub mod Operations
pub mod Moving
pub mod Emptying
pub mod Rebuilding
pub mod Refinement
use plsf.Prelude.{
  ℕ, zero, suc, ◌+◌, ◌-◌, ◌*◌, ◌%◌, ◌^◌, Bool, true, false, ◌==◌, ltb, if◌then◌else◌, Option, none,
  some, List, [], ◌∷◌, update,
}
use plsf.Lists.Nodes.{null, Result, done, fault, unfinished, and_then}
use plsf.Maps.FixedSize.{saved}

pub record Node : Type 0 where
  pub key : ℕ
  pub val : ℕ
  pub next : ℕ

pub record HashMap : Type 0 where
  pub capacity : ℕ
  pub size_hm : ℕ
  pub buckets : ℕ → ℕ
  pub nodes : ℕ → Option Node

unfoldable pub load : ℕ → HashMap → Result Node HashMap
load a m = elim (m.nodes a) [ none ↦ fault | some n ↦ done n m ]

-- Stores to fields of one node.
unfoldable pub change : ℕ → (Node → Node) → HashMap → Result (Unit {0}) HashMap
unfolding load
change a f m =
    and_then (load a m) (λ n m1. done tt (record m1 { nodes = update m1.nodes a (some (f n)) }))

-- The arrays of buckets hold null before the loops of the constructor and of `rebuild` have set them: the
-- loop `for (int i = 0; i < capacity; i++) buckets[i] = nullptr` over `n` buckets from `i` on.
unfoldable pub clear_from : ℕ → ℕ → (ℕ → ℕ) → ℕ → ℕ
clear_from zero i buckets = buckets
clear_from (suc n) i buckets = clear_from n (suc i) (update buckets i null)

-- The loops over a list take the rounds they may run.
module _ (hash : ℕ → ℕ) (newcapacity : ℕ) where
  -- The inner loop of `rebuild`: each node goes to the front of its new bucket.
  unfoldable pub move_nodes : ℕ → ℕ → (ℕ → ℕ) → HashMap → Result (ℕ → ℕ) HashMap
  unfolding load change
  move_nodes zero node newbuckets m = unfinished
  move_nodes (suc n) node newbuckets m =
      if node == null
      then done newbuckets m
      else and_then (load node m) (λ c m1.
        let h = hash c.key % newcapacity in
        and_then (change node (λ d. record d { next = newbuckets h }) m1)
          (λ _ m2. move_nodes n c.next (update newbuckets h node) m2))

  -- The outer loop, over the `n` buckets from `i` on.
  unfoldable pub move_buckets : (rounds : ℕ) → ℕ → ℕ → (ℕ → ℕ) → HashMap → Result (ℕ → ℕ) HashMap
  unfolding move_nodes
  move_buckets rounds zero i newbuckets m = done newbuckets m
  move_buckets rounds (suc n) i newbuckets m =
      and_then (move_nodes rounds (m.buckets i) newbuckets m)
        (λ b m1. move_buckets rounds n (suc i) b m1)

-- `sizeHM > capacity*0.75`
abbrev pub is_full : HashMap → Bool
is_full m = ltb (3 * m.capacity) (4 * m.size_hm)

module _ (hash : ℕ → ℕ) where
  -- `garbage` is what the new array holds at first.
  unfoldable pub rebuild : (garbage : ℕ → ℕ) (rounds : ℕ) → HashMap → Result (Unit {0}) HashMap
  unfolding clear_from move_buckets
  rebuild garbage rounds m =
      let newcapacity = (2 * m.capacity) % 2 ^ 64 in
      and_then
        (move_buckets hash newcapacity rounds m.capacity 0 (clear_from newcapacity 0 garbage) m)
        (λ newbuckets m1. done tt (record m1 { buckets = newbuckets; capacity = newcapacity }))

  -- At the end of the list.
  unfoldable pub put_last : (new_node : ℕ) → ℕ → ℕ → ℕ → ℕ → HashMap → Result Bool HashMap
  unfolding change
  put_last new_node key value h prev m =
      let m1 = record m {
        nodes = update m.nodes new_node (some (record { key = key; val = value; next = null }));
      } in
      and_then
        (if null == prev
          then done tt (record m1 { buckets = update m1.buckets h new_node })
          else change prev (λ d. record d { next = new_node }) m1)
        (λ _ m2. done true (record m2 { size_hm = (m2.size_hm + 1) % 2 ^ 64 }))

  unfoldable pub put_from :
      (new_node : ℕ) → ℕ → ℕ → ℕ → ℕ → Bool → ℕ → ℕ → ℕ → HashMap → Result (Bool × ℕ) HashMap
  unfolding load change put_last
  put_from new_node zero key value old_value save h node prev m = unfinished
  put_from new_node (suc n) key value old_value save h node prev m =
      if node == null
      then and_then (put_last new_node key value h prev m) (λ b m1. done (b, old_value) m1)
      else and_then (load node m) (λ c m1.
        if key == c.key
        then and_then (change node (λ d. record d { val = value }) m1)
            (λ _ m2. done (false, saved save old_value c.val) m2)
        else put_from new_node n key value old_value save h c.next node m1)

  unfoldable pub inner_put :
      (garbage : ℕ → ℕ) (new_node : ℕ) → ℕ → ℕ → ℕ → ℕ → Bool → HashMap → Result (Bool × ℕ) HashMap
  unfolding rebuild put_from
  inner_put garbage new_node n key value old_value save m =
      and_then (if is_full m then rebuild garbage n m else done tt m) (λ _ m1.
        let h = hash key % m1.capacity in
        put_from new_node n key value old_value save h (m1.buckets h) (m1.buckets h) m1)

  -- Where the key is found: the node is unlinked and deleted.
  unfoldable pub unlink : ℕ → ℕ → ℕ → HashMap → Result (Unit {0}) HashMap
  unfolding load change
  unlink h node prev m = and_then (load node m) (λ c m1.
      and_then
        (if node == prev
          then done tt (record m1 { buckets = update m1.buckets h c.next })
          else change prev (λ d. record d { next = c.next }) m1)
        (λ _ m2. done tt (record m2 {
          size_hm = (m2.size_hm + 2 ^ 64 - 1) % 2 ^ 64;
          nodes = update m2.nodes node none;
        })))

  unfoldable pub remove_from : ℕ → ℕ → ℕ → Bool → ℕ → ℕ → ℕ → HashMap → Result (Bool × ℕ) HashMap
  unfolding load unlink
  remove_from zero key old_value save h node prev m = unfinished
  remove_from (suc n) key old_value save h node prev m =
      if node == null
      then done (false, old_value) m
      else and_then (load node m) (λ c m1.
        if key == c.key
        then and_then (unlink h node prev m1) (λ _ m2. done (true, saved save old_value c.val) m2)
        else remove_from n key old_value save h c.next node m1)

  unfoldable pub inner_remove : ℕ → ℕ → ℕ → Bool → HashMap → Result (Bool × ℕ) HashMap
  unfolding remove_from
  inner_remove n key old_value save m =
      let h = hash key % m.capacity in
      remove_from n key old_value save h (m.buckets h) (m.buckets h) m

  unfoldable pub get_from : ℕ → ℕ → ℕ → Bool → ℕ → HashMap → Result (Bool × ℕ) HashMap
  unfolding load
  get_from zero key old_value save node m = unfinished
  get_from (suc n) key old_value save node m =
      if node == null
      then done (false, old_value) m
      else and_then (load node m) (λ c m1.
        if key == c.key
        then done (true, saved save old_value c.val) m1
        else get_from n key old_value save c.next m1)

  unfoldable pub inner_get : ℕ → ℕ → ℕ → Bool → HashMap → Result (Bool × ℕ) HashMap
  unfolding get_from
  inner_get n key old_value save m =
      get_from n key old_value save (m.buckets (hash key % m.capacity)) m

  -- The operations, each a transaction.
  unfoldable pub add : (garbage : ℕ → ℕ) (new_node : ℕ) → ℕ → ℕ → ℕ → HashMap → Result Bool HashMap
  unfolding inner_put
  add garbage new_node n key notused m =
      and_then (inner_put garbage new_node n key key notused false m) (λ p m1. done p.0 m1)

  unfoldable pub remove : ℕ → ℕ → ℕ → HashMap → Result Bool HashMap
  unfolding inner_remove
  remove n key notused m = and_then (inner_remove n key notused false m) (λ p m1. done p.0 m1)

  unfoldable pub contains : ℕ → ℕ → ℕ → HashMap → Result Bool HashMap
  unfolding inner_get
  contains n key notused m = and_then (inner_get n key notused false m) (λ p m1. done p.0 m1)

  -- Each key of the array with the address for its node.
  unfoldable pub add_all : (garbage : ℕ → ℕ) → ℕ → ℕ → List (ℕ × ℕ) → HashMap → Result Bool HashMap
  unfolding add
  add_all garbage n notused [] m = done true m
  add_all garbage n notused ((key, new_node) ∷ keys) m =
      and_then (add garbage new_node n key notused m) (λ b m1. add_all garbage n notused keys m1)

-- The constructor.
unfoldable pub new_hash_map : (garbage : ℕ → ℕ) → ℕ → HashMap
unfolding clear_from
new_hash_map garbage capacity = record {
  capacity = capacity;
  size_hm = 0;
  buckets = clear_from capacity 0 garbage;
  nodes = λ a. none;
}

-- The destructor: the nodes of a bucket, then those of the next. The array is not read again.
unfoldable pub delete_nodes : ℕ → ℕ → HashMap → Result (Unit {0}) HashMap
unfolding load
delete_nodes zero node m = unfinished
delete_nodes (suc n) node m =
    if node == null
    then done tt m
    else and_then (load node m)
        (λ c m1. delete_nodes n c.next (record m1 { nodes = update m1.nodes node none }))

unfoldable pub delete_buckets : (rounds : ℕ) → ℕ → ℕ → HashMap → Result (Unit {0}) HashMap
unfolding delete_nodes
delete_buckets rounds zero i m = done tt m
delete_buckets rounds (suc n) i m =
    and_then (delete_nodes rounds (m.buckets i) m) (λ _ m1. delete_buckets rounds n (suc i) m1)

unfoldable pub delete_hash_map : (rounds : ℕ) → HashMap → Result (Unit {0}) HashMap
unfolding delete_buckets
delete_hash_map rounds m = delete_buckets rounds m.capacity 0 m
