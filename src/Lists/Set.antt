-- ===== src/Lists/Set.antt =====
-- pdatastructures/TMLinkedListSet.hpp: a set as a sorted linked list between two sentinels. Keys are
-- numbers, as in the benchmarks.
pub mod Links
pub mod Items
pub mod Search
pub mod Linking
pub mod Unlinking
pub mod Refinement
pub mod Lifetime
use plsf.Prelude.{
  ℕ, zero, suc, Bool, true, false, not, ◌&&◌, ltb, ◌==◌, if◌then◌else◌, Option, none, some, update,
  List, [], ◌∷◌,
}
use plsf.Lists.Nodes.{null, Result, done, fault, unfinished, and_then}

pub record Node : Type 0 where
  pub key : ℕ
  pub next : ℕ

pub record ListSet : Type 0 where
  pub head : ℕ
  pub tail : ℕ
  pub nodes : ℕ → Option Node

abbrev set_node : ListSet → ℕ → Node → ListSet
set_node s a n = record s { nodes = update s.nodes a (some n) }

-- A load of a node, and `a->next = v`.
unfoldable pub load : ℕ → ListSet → Result Node ListSet
load a s = elim (s.nodes a) [ none ↦ fault | some n ↦ done n s ]

unfoldable pub store_next : ℕ → ℕ → ListSet → Result (Unit {0}) ListSet
unfolding load
store_next a v s = and_then (load a s) (λ n s'. done tt (set_node s' a (record n { next = v })))

-- `tmDelete`
unfoldable pub tm_delete : ℕ → ListSet → Result (Unit {0}) ListSet
unfolding load
tm_delete a s =
    if a == null
    then done tt s
    else and_then (load a s) (λ n s'. done tt (record s' { nodes = update s'.nodes a none }))

-- The loop of `find` from `prev` on, in at most the given rounds.
unfoldable pub find_from : ℕ → ℕ → ℕ → ListSet → Result (ℕ × ℕ) ListSet
unfolding load
find_from zero lkey prev s = unfinished
find_from (suc n) lkey prev s = and_then (load prev s) (λ p s1.
    let node = p.next in
    if node == s1.tail
    then done (prev, node) s1
    else and_then (load node s1)
        (λ q s2. if not (ltb q.key lkey) then done (prev, node) s2 else find_from n lkey node s2))

unfoldable pub find : ℕ → ℕ → ListSet → Result (ℕ × ℕ) ListSet
unfolding find_from
find n lkey s = find_from n lkey s.head s

-- `node != tail && lkey == node->key`
unfoldable pub matches : ℕ → ℕ → ListSet → Result Bool ListSet
unfolding load
matches lkey node s =
    if node == s.tail
    then done false s
    else and_then (load node s) (λ q s'. done (lkey == q.key) s')

-- `tmNew<Node>`: `new_node` is what `malloc` gives.
unfoldable pub tm_new : (new_node : ℕ) → ℕ → ListSet → Result ℕ ListSet
tm_new new_node key s = done new_node (set_node s new_node (record { key = key; next = null }))

-- The insertion of `add`, where the key is not there.
unfoldable pub link : (new_node : ℕ) → ℕ → ℕ → ℕ → ListSet → Result Bool ListSet
unfolding tm_new store_next
link new_node lkey prev node s = and_then (tm_new new_node lkey s) (λ a s1.
    and_then (store_next prev a s1)
      (λ _ s2. and_then (store_next a node s2) (λ _ s3. done true s3)))

unfoldable pub add : (new_node : ℕ) → ℕ → ℕ → ListSet → Result Bool ListSet
unfolding find matches link
add new_node n lkey s = and_then (find n lkey s) (λ p s1.
    and_then (matches lkey p.1 s1)
      (λ b s2. if b then done false s2 else link new_node lkey p.0 p.1 s2))

-- `addAll` on keys, each with the address for its node.
unfoldable pub add_all : ℕ → List (ℕ × ℕ) → ListSet → Result Bool ListSet
unfolding add
add_all n [] s = done true s
add_all n (k ∷ ks) s = and_then (add k.1 n k.0 s) (λ _ s'. add_all (suc n) ks s')

-- `TMLinkedListSet()`: the two sentinels, whose keys hold what was there.
unfoldable pub new_list_set : (lhead : ℕ) (ltail : ℕ) (garbage : ℕ) → Result Bool ListSet
unfolding tm_new store_next
new_list_set lhead ltail garbage =
    and_then (tm_new lhead garbage (record { head = null; tail = null; nodes = λ a. none }))
      (λ lhead s1. and_then (tm_new ltail garbage s1) (λ ltail s2.
        and_then (store_next lhead ltail (record s2 { head = lhead }))
          (λ _ s3. done true (record s3 { tail = ltail }))))

-- The unlinking of `remove`, where the key is there.
unfoldable pub unlink : ℕ → ℕ → ListSet → Result Bool ListSet
unfolding load store_next tm_delete
unlink prev node s = and_then (load node s) (λ q s1.
    and_then (store_next prev q.next s1)
      (λ _ s2. and_then (tm_delete node s2) (λ _ s3. done true s3)))

unfoldable pub remove : ℕ → ℕ → ListSet → Result Bool ListSet
unfolding find matches unlink
remove n lkey s = and_then (find n lkey s) (λ p s1.
    and_then (matches lkey p.1 s1) (λ b s2. if not b then done false s2 else unlink p.0 p.1 s2))

unfoldable pub contains : ℕ → ℕ → ListSet → Result Bool ListSet
unfolding find matches
contains n lkey s = and_then (find n lkey s) (λ p s1. matches lkey p.1 s1)

-- `~TMLinkedListSet()`: the loop deletes the node before the one it has reached.
unfoldable pub delete_from : ℕ → ℕ → ℕ → ListSet → Result (Unit {0}) ListSet
unfolding load tm_delete
delete_from zero prev node s = unfinished
delete_from (suc n) prev node s =
    if node == s.tail
    then and_then (tm_delete prev s) (λ _ s1. tm_delete s1.tail s1)
    else and_then (tm_delete prev s)
        (λ _ s1. and_then (load node s1) (λ q s2. delete_from n node q.next s2))

unfoldable pub delete_list_set : ℕ → ListSet → Result (Unit {0}) ListSet
unfolding load delete_from
delete_list_set n s = and_then (load s.head s) (λ p s1. delete_from n s.head p.next s1)
