-- ===== src/Lists/Set/Linking.antt =====
-- pdatastructures/TMLinkedListSet.hpp: the insertion of `add`, on a list in good order.
use plsf.Prelude.{
  ℕ, ◌≡◌, ◌≢◌, refl, true, false, Option, some, none, List, ap, sym, ◌∙◌, update, update_self,
  update_ne,
}
use plsf.Lists.Nodes.{null, done}
use plsf.Lists.Set.{Node, ListSet, store_next, tm_new, link}
use plsf.Lists.Set.Links.{
  Item, Links-first, Apart, Found, Found-Apart, member, next_is, put, Links-put,
}
use plsf.Lists.Set.Items.{Apart-put, Distinct-put, Sorted-put}
use plsf.Lists.Set.Search.{WellFormed, load_lem, Found-prev, some-ne, Links-Apart}

key_of : Option Node → ℕ
key_of none = 0
key_of (some n) = n.key

pub same_key : (k l u v : ℕ) → some (next_is k u) ≡ some (next_is l v) → k ≡ l
unfolding key_of
same_key k l u v e = ap key_of e

pub store_next_lem :
    (a v : ℕ) (s : ListSet) (k u : ℕ)
    → s.nodes a ≡ some (next_is k u)
    → store_next a v s ≡ done tt (record s { nodes = update s.nodes a (some (next_is k v)) })
unfolding store_next
store_next_lem a v s k u e = rw (load_lem a s (next_is k u) e) refl

module _ (new_node : ℕ) (s : ListSet) (xs : List Item) (w : WellFormed s xs)
    (live : new_node ≢ null) (free : s.nodes new_node ≡ none) where
  module _ (k prev node : ℕ) (f : Found s.tail k s.head xs prev node) where
    before_it : (kq : ℕ) × (s.nodes prev ≡ some (next_is kq node))
    before_it = Found-prev s.nodes s.tail k s.head w.head_key xs prev node w.links f

    prev-ne_new : prev ≢ new_node
    prev-ne_new = some-ne s.nodes prev new_node _ before_it.1 free

    -- The nodes after the three writes.
    linked : ℕ → Option Node
    linked =
        update
          (update (update s.nodes new_node (some (next_is k null))) prev
            (some (next_is before_it.0 new_node)))
          new_node (some (next_is k node))

    link_lem : link new_node k prev node s ≡ done true (record s { nodes = linked })
    unfolding link tm_new linked
    link_lem =
        let a = new_node in
        let n1 = update s.nodes a (some (next_is k null)) in
        let n2 = update n1 prev (some (next_is before_it.0 a)) in
        rw
          (store_next_lem prev a (record s { nodes = n1 }) before_it.0 node
            (update_ne s.nodes a (some (next_is k null)) prev (λ e. prev-ne_new (sym e))
              ∙ before_it.1))
          (rw
            (store_next_lem a node (record s { nodes = n2 }) k null
              (update_ne n1 prev (some (next_is before_it.0 a)) a prev-ne_new
                ∙ update_self s.nodes a (some (next_is k null))))
            refl)

    linked_new : linked new_node ≡ some (next_is k node)
    unfolding linked
    linked_new = update_self _ new_node (some (next_is k node))

    linked_prev : linked prev ≡ some (next_is before_it.0 new_node)
    unfolding linked
    linked_prev =
        update_ne _ new_node (some (next_is k node)) prev (λ e. prev-ne_new (sym e))
        ∙ update_self _ prev (some (next_is before_it.0 new_node))

    linked_same : (q : ℕ) → q ≢ new_node → q ≢ prev → linked q ≡ s.nodes q
    unfolding linked
    linked_same q n m =
        update_ne _ new_node (some (next_is k node)) q (λ e. n (sym e))
        ∙ update_ne _ prev (some (next_is before_it.0 new_node)) q (λ e. m (sym e))
        ∙ update_ne s.nodes new_node (some (next_is k null)) q (λ e. n (sym e))

    linked_old :
        (kq : ℕ) → s.nodes prev ≡ some (next_is kq node) → linked prev ≡ some (next_is kq new_node)
    linked_old kq e =
        linked_prev
        ∙ ap (λ z. some (next_is z new_node))
            (same_key before_it.0 kq node node (sym before_it.1 ∙ e))

    Apart-new : Apart new_node xs
    Apart-new = Links-Apart s.nodes s.tail s.head w.head_key new_node xs w.links free

    head-ne : s.head ≢ new_node
    head-ne =
        some-ne s.nodes s.head new_node _ (Links-first s.nodes s.tail s.head w.head_key xs w.links)
          free

    tail-ne_new : s.tail ≢ new_node
    tail-ne_new = some-ne s.nodes s.tail new_node _ w.tail_node.1 free

    tail-ne_prev : s.tail ≢ prev
    tail-ne_prev e = Found-Apart s.tail k s.head s.tail xs prev node f w.ends w.apart_tail (sym e)

    null-ne_new : null ≢ new_node
    null-ne_new e = live (sym e)

    null-ne_prev : null ≢ prev
    null-ne_prev e = some-ne s.nodes prev null _ before_it.1 w.no_null (sym e)

    WellFormed-linked :
        member k xs ≡ false → WellFormed (record s { nodes = linked }) (put new_node k xs)
    WellFormed-linked m = record {
      head_key = w.head_key;
      links =
          Links-put s.nodes linked s.tail new_node k s.head w.head_key xs prev node w.links f
            w.apart_head w.distinct (λ e. head-ne (sym e)) Apart-new linked_new linked_old
            linked_same;
      tail_node = (w.tail_node.0, linked_same s.tail tail-ne_new tail-ne_prev ∙ w.tail_node.1);
      no_null = linked_same null null-ne_new null-ne_prev ∙ w.no_null;
      ends = w.ends;
      apart_head = Apart-put s.head new_node k xs (λ e. head-ne (sym e)) w.apart_head;
      apart_tail = Apart-put s.tail new_node k xs (λ e. tail-ne_new (sym e)) w.apart_tail;
      distinct = Distinct-put new_node k xs Apart-new w.distinct;
      sorted = Sorted-put new_node k xs m w.sorted;
    }

    -- The insertion puts a node for the key in its place.
    pub link-WellFormed :
        member k xs ≡ false
        → (s' : ListSet) × (link new_node k prev node s ≡ done true s')
          × WellFormed s' (put new_node k xs)
    link-WellFormed m = (record s { nodes = linked }, link_lem, WellFormed-linked m)
