-- ===== src/Lists/Queue/Refinement.antt =====
-- pdatastructures/TMLinkedListQueue.hpp: the operations, on the queue as a list of items.
use plsf.Prelude.{
  ℕ, ◌≡◌, ◌≢◌, refl, true, Option, none, some, List, [], ◌∷◌, ◌++◌, ap, subst, sym, ◌∙◌, update,
  update_self, update_ne, ==_of_ne, ==_self, All-append,
}
use plsf.Lists.Nodes.{null, done}
use plsf.Lists.Queue.{
  Node, Queue, store_next, tm_delete, tm_new, new_queue, enqueue, dequeue, enqueue_by_ref,
  dequeue_by_ref,
}
use plsf.Lists.Queue.Chain.{
  Cell, node, Chain, Apart, Distinct, items_of, WellFormed, Represents, load_lem, some-ne,
  Chain-Apart, Chain-tail, Chain-append, Chain-without, Chain-ne_tail,
}

items_of-append : (xs : List Cell) (c : Cell) → items_of (xs ++ c ∷ []) ≡ items_of xs ++ c.1 ∷ []
items_of-append [] c = refl
items_of-append (x ∷ xs) c = ap (λ r. x.1 ∷ r) (items_of-append xs c)

Distinct-append :
    (a i : ℕ) (xs : List Cell) → Distinct xs → Apart a xs → Distinct (xs ++ (a, i) ∷ [])
Distinct-append a i [] d n = (tt, tt)
Distinct-append a i (x ∷ xs) d n = (
  All-append (λ y. y.0 ≢ x.0) xs ((a, i) ∷ []) d.0 ((λ e. n.0 (sym e)), tt),
  Distinct-append a i xs d.1 n.1,
)

module _ (new_node : ℕ) (q : Queue) (xs : List Cell) (w : WellFormed q xs) (item : ℕ)
    (live : new_node ≢ null) (free : q.nodes new_node ≡ none) where
  tail_node : (j : ℕ) × (q.nodes q.tail ≡ some (node j null))
  tail_node = Chain-tail q.nodes q.tail q.head w.sentinel xs w.chain

  apart : (q.head ≢ new_node) × Apart new_node xs
  apart = Chain-Apart q.nodes q.tail q.head w.sentinel new_node xs w.chain free

  tail-ne : q.tail ≢ new_node
  tail-ne = some-ne q.nodes q.tail new_node _ tail_node.1 free

  with_new : ℕ → Option Node
  with_new = update q.nodes new_node (some (node item null))

  linked : ℕ → Option Node
  linked = update with_new q.tail (some (node tail_node.0 new_node))

  enqueue_run :
      enqueue new_node item q
      ≡ done true (record { head = q.head; tail = new_node; nodes = linked })
  unfolding enqueue tm_new store_next linked with_new
  enqueue_run =
      rw
        (load_lem q.tail (record q { nodes = with_new }) (node tail_node.0 null)
          (update_ne q.nodes new_node (some (node item null)) q.tail (λ e. tail-ne (sym e))
            ∙ tail_node.1))
        refl

  linked_new : linked new_node ≡ some (node item null)
  unfolding linked with_new
  linked_new =
      update_ne with_new q.tail _ new_node tail-ne
      ∙ update_self q.nodes new_node (some (node item null))

  linked_tail : linked q.tail ≡ some (node tail_node.0 new_node)
  unfolding linked
  linked_tail = update_self with_new q.tail (some (node tail_node.0 new_node))

  linked_same : (p : ℕ) → p ≢ new_node → p ≢ q.tail → linked p ≡ q.nodes p
  unfolding linked with_new
  linked_same p n m =
      update_ne with_new q.tail _ p (λ e. m (sym e))
      ∙ update_ne q.nodes new_node _ p (λ e. n (sym e))

  null-ne_new : null ≢ new_node
  null-ne_new e = live (sym e)

  enqueued :
      WellFormed
        (record { head = q.head; tail = new_node; nodes = linked })
        (xs ++ (new_node, item) ∷ [])
  enqueued = record {
    sentinel = w.sentinel;
    chain =
        Chain-append q.nodes linked q.tail q.head w.sentinel new_node item tail_node.0 xs w.chain
          w.distinct apart.0 apart.1 tail_node.1 linked_tail linked_new linked_same;
    no_null =
        linked_same null null-ne_new
          (λ e. some-ne q.nodes q.tail null _ tail_node.1 w.no_null (sym e))
        ∙ w.no_null;
    distinct = Distinct-append new_node item ((q.head, w.sentinel) ∷ xs) w.distinct apart;
  }

  pub enqueue_lem :
      (q' : Queue) × (enqueue new_node item q ≡ done true q')
      × Represents q' (items_of xs ++ item ∷ [])
  unfolding Represents
  enqueue_lem = (
    record { head = q.head; tail = new_node; nodes = linked },
    enqueue_run,
    (xs ++ (new_node, item) ∷ [], enqueued, items_of-append xs (new_node, item)),
  )

Chain-first :
    (nodes : ℕ → Option Node) (t p i : ℕ) (xs : List Cell)
    → Chain nodes t p i xs
    → (v : ℕ) × (nodes p ≡ some (node i v))
Chain-first nodes t p i [] c = (null, c.1)
Chain-first nodes t p i (x ∷ xs) c = (x.0, c.0)

module _ (q : Queue) (x : Cell) (xs : List Cell) (w : WellFormed q (x ∷ xs)) where
  behind : Queue
  behind = record { head = x.0; tail = q.tail; nodes = update q.nodes q.head none }

  head-ne_tail : q.head ≢ q.tail
  head-ne_tail =
      Chain-ne_tail q.nodes q.tail x.0 x.1 q.head xs w.chain.1 w.distinct.0.0 w.distinct.0.1

  head-ne_null : q.head ≢ null
  head-ne_null = some-ne q.nodes q.head null _ w.chain.0 w.no_null

  dequeue_run : dequeue q ≡ done x.1 behind
  unfolding dequeue tm_delete behind
  dequeue_run =
      let f = Chain-first q.nodes q.tail x.0 x.1 xs w.chain.1 in
      rw (==_of_ne q.head q.tail head-ne_tail) (
        rw (load_lem q.head q (node w.sentinel x.0) w.chain.0) (
          rw (==_of_ne q.head null head-ne_null) (
            rw (load_lem q.head (record q { head = x.0 }) (node w.sentinel x.0) w.chain.0) (
              rw
                (load_lem x.0
                  (record { head = x.0; tail = q.tail; nodes = update q.nodes q.head none })
                  (node x.1 f.0)
                  (update_ne q.nodes q.head none x.0 (λ e. w.distinct.0.0 (sym e)) ∙ f.1))
                refl))))

  dequeued : WellFormed behind xs
  unfolding behind
  dequeued = record {
    sentinel = x.1;
    chain = Chain-without q.nodes q.tail x.0 x.1 q.head xs w.chain.1 w.distinct.0.0 w.distinct.0.1;
    no_null = update_ne q.nodes q.head none null head-ne_null ∙ w.no_null;
    distinct = w.distinct.1;
  }

  dequeue_cell : (q' : Queue) × (dequeue q ≡ done x.1 q') × WellFormed q' xs
  dequeue_cell = (behind, dequeue_run, dequeued)

-- What `dequeue` does on a queue of these items: the oldest one is its result, or null.
abbrev pub Dequeues : Queue → List ℕ → Type 0
Dequeues q [] = dequeue q ≡ done null q
Dequeues q (i ∷ is) = (q' : Queue) × (dequeue q ≡ done i q') × Represents q' is

dequeue_cells : (q : Queue) (xs : List Cell) → WellFormed q xs → Dequeues q (items_of xs)
unfolding Represents dequeue
dequeue_cells q [] w = rw (w.chain.0) (rw (==_self q.tail) refl)
dequeue_cells q (x ∷ xs) w = let r = dequeue_cell q x xs w in (r.0, r.1, (xs, r.2, refl))

nothing : ℕ → Option Node
nothing a = none

new_queue-Represents :
    (a : ℕ) → a ≢ null → (q : Queue) × (new_queue a ≡ done true q) × Represents q []
unfolding new_queue tm_new Represents nothing
new_queue-Represents a live = (
  record { head = a; tail = a; nodes = update nothing a (some (node null null)) },
  refl,
  (
    [],
    record {
      sentinel = null;
      chain = (refl, update_self nothing a (some (node null null)));
      no_null = update_ne nothing a _ null live;
      distinct = (tt, tt);
    },
    refl,
  ),
)

enqueue_same : (q : Queue) (a item : ℕ) → enqueue_by_ref a item q ≡ enqueue a item q
unfolding enqueue_by_ref enqueue
enqueue_same q a item = refl

dequeue_same : (q : Queue) → dequeue_by_ref q ≡ dequeue q
unfolding dequeue_by_ref dequeue
dequeue_same q = refl

-- `TMLinkedListQueue` is a queue, first in, first out: the constructor makes it empty; on a queue of
-- any items, `enqueue` returns true and puts its item last, and `dequeue` takes the first item and
-- returns it, or returns null on the empty queue and leaves it. None of them meets an address that
-- holds no node. The address that `malloc` gives is not null and holds no node yet.
-- `TMLinkedListQueueByRef` does the same.
pub queue_refinement :
    (q : Queue) (is : List ℕ) (item new_node : ℕ)
    → Represents q is
    → new_node ≢ null
    → q.nodes new_node ≡ none
    → ((new : Queue) × (new_queue new_node ≡ done true new) × Represents new [])
      × ((q' : Queue) × (enqueue new_node item q ≡ done true q')
          × (enqueue_by_ref new_node item q ≡ done true q')
          × Represents q' (is ++ item ∷ []))
      × Dequeues q is
      × (dequeue_by_ref q ≡ dequeue q)
unfolding Represents
queue_refinement q is item a r live free =
    let e = enqueue_lem a q r.0 r.1 item live free in
    (
      new_queue-Represents a live,
      (e.0, e.1, enqueue_same q a item ∙ e.1, subst (λ z. Represents e.0 (z ++ item ∷ [])) r.2 e.2),
      subst (Dequeues q) r.2 (dequeue_cells q r.0 r.1),
      dequeue_same q,
    )
