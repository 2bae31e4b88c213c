-- ===== src/Lists/Queue.antt =====
-- pdatastructures/TMLinkedListQueue.hpp: a queue as a linked list behind a sentinel, and
-- pdatastructures/TMLinkedListQueueByRef.hpp, whose transactions return nothing. An item is a pointer.
pub mod Chain
pub mod Refinement
use plsf.Prelude.{ℕ, zero, suc, Bool, true, false, ◌==◌, if◌then◌else◌, Option, none, some, update}
use plsf.Lists.Nodes.{null, Result, done, fault, unfinished, and_then}

pub record Node : Type 0 where
  pub item : ℕ
  pub next : ℕ

pub record Queue : Type 0 where
  pub head : ℕ
  pub tail : ℕ
  pub nodes : ℕ → Option Node

abbrev set_node : Queue → ℕ → Node → Queue
set_node q a n = record q { nodes = update q.nodes a (some n) }

unfoldable pub load : ℕ → Queue → Result Node Queue
load a q = elim (q.nodes a) [ none ↦ fault | some n ↦ done n q ]

unfoldable pub store_next : ℕ → ℕ → Queue → Result (Unit {0}) Queue
unfolding load
store_next a v q = and_then (load a q) (λ n q'. done tt (set_node q' a (record n { next = v })))

unfoldable pub tm_delete : ℕ → Queue → Result (Unit {0}) Queue
unfolding load
tm_delete a q =
    if a == null
    then done tt q
    else and_then (load a q) (λ n q'. done tt (record q' { nodes = update q'.nodes a none }))

-- `tmNew<Node>`: `new_node` is what `malloc` gives.
unfoldable pub tm_new : (new_node : ℕ) → ℕ → Queue → Result ℕ Queue
tm_new new_node item q = done new_node (set_node q new_node (record { item = item; next = null }))

-- `TMLinkedListQueue()`
unfoldable pub new_queue : (sentinel_node : ℕ) → Result Bool Queue
unfolding tm_new
new_queue sentinel_node =
    and_then (tm_new sentinel_node null (record { head = null; tail = null; nodes = λ a. none }))
      (λ a q. done true (record q { head = a; tail = a }))

unfoldable pub enqueue : (new_node : ℕ) → ℕ → Queue → Result Bool Queue
unfolding tm_new store_next
enqueue new_node item q =
    and_then (tm_new new_node item q)
      (λ a q1. and_then (store_next q1.tail a q1) (λ _ q2. done true (record q2 { tail = a })))

unfoldable pub enqueue_by_ref : (new_node : ℕ) → ℕ → Queue → Result Bool Queue
unfolding tm_new store_next
enqueue_by_ref new_node item q = and_then (tm_new new_node item q) (λ a q1.
    and_then (store_next q1.tail a q1)
      (λ _ q2. let retval = true in done retval (record q2 { tail = a })))

unfoldable pub new_queue_by_ref : (sentinel_node : ℕ) → Result (Unit {0}) Queue
unfolding new_queue
new_queue_by_ref sentinel_node = and_then (new_queue sentinel_node) (λ _ q. done tt q)

unfoldable pub dequeue : Queue → Result ℕ Queue
unfolding load tm_delete
dequeue q =
    let lhead = q.head in
    if lhead == q.tail
    then done null q
    else and_then (load lhead q) (λ n q1.
      and_then (tm_delete lhead (record q1 { head = n.next }))
        (λ _ q2. and_then (load q2.head q2) (λ m q3. done m.item q3)))

unfoldable pub dequeue_by_ref : Queue → Result ℕ Queue
unfolding load tm_delete
dequeue_by_ref q =
    let retval = null in
    let lhead = q.head in
    if lhead == q.tail
    then done retval q
    else and_then (load lhead q) (λ n q1.
      and_then (tm_delete lhead (record q1 { head = n.next }))
        (λ _ q2. and_then (load q2.head q2) (λ m q3. let retval = m.item in done retval q3)))

-- `~TMLinkedListQueue()`: it dequeues until it gets a null, then deletes the sentinel.
unfoldable pub drain : ℕ → Queue → Result (Unit {0}) Queue
unfolding dequeue
drain zero q = unfinished
drain (suc n) q =
    and_then (dequeue q) (λ i q1. elim (i == null) [ true ↦ done tt q1 | false ↦ drain n q1 ])

unfoldable pub delete_queue : ℕ → Queue → Result (Unit {0}) Queue
unfolding drain tm_delete
delete_queue n q = and_then (drain n q) (λ _ q1. tm_delete q1.head q1)

unfoldable pub delete_queue_by_ref : ℕ → Queue → Result (Unit {0}) Queue
unfolding delete_queue
delete_queue_by_ref n q = delete_queue n q
