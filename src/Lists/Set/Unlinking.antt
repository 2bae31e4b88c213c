-- ===== src/Lists/Set/Unlinking.antt =====
-- pdatastructures/TMLinkedListSet.hpp: the unlinking of `remove`, on a list in good order.
use plsf.Prelude.{
  ℕ, ◌≡◌, ◌≢◌, refl, arith, true, Option, some, none, List, [], ◌∷◌, ap, sym, ◌∙◌, update,
  update_self, update_ne, inl, inr, ==_of_ne,
}
use plsf.Lists.Nodes.{null, done}
use plsf.Lists.Set.{Node, ListSet, tm_delete, unlink}
use plsf.Lists.Set.Links.{
  Item, first, Links, Links-first, Apart, Distinct, Found, Found-Apart, member, next_is, cut,
  Links-cut,
}
use plsf.Lists.Set.Items.{Apart-cut, Distinct-cut, Sorted-cut, member-there}
use plsf.Lists.Set.Search.{WellFormed, load_lem, Found-prev, some-ne}
use plsf.Lists.Set.Linking.{store_next_lem, same_key}

module _ (nodes : ℕ → Option Node) (t k : ℕ) where
  -- The node found is one of the list where the key is there.
  Found-member :
      (p kp : ℕ) (xs : List Item) (prev node : ℕ)
      → Links nodes t p kp xs
      → Found t k p xs prev node
      → Apart t xs
      → member k xs ≡ true
      → (node ≢ t) × ((kn : ℕ) × (nn : ℕ) × (nodes node ≡ some (next_is kn nn)))
  Found-member p kp [] prev node l f a m = absurd (ground (arith, m))
  Found-member p kp (x ∷ xs) prev node l (inl f) a m =
      (λ e. a.0 (sym f.2 ∙ e), (x.1, first xs t, ap nodes f.2 ∙ Links-first nodes t x.0 x.1 xs l.1))
  Found-member p kp (x ∷ xs) prev node l (inr f) a m =
      Found-member x.0 x.1 xs prev node l.1 f.1 a.1 (member-there k x xs f.0 ∙ m)

  Found-ne :
      (p : ℕ) (xs : List Item) (prev node : ℕ)
      → Found t k p xs prev node
      → p ≢ t
      → Apart p xs
      → Apart t xs
      → Distinct xs
      → prev ≢ node
  Found-ne p [] prev node f n a b d e = n (sym f.0 ∙ e ∙ f.1)
  Found-ne p (x ∷ xs) prev node (inl f) n a b d e = a.0 (sym (sym f.1 ∙ e ∙ f.2))
  Found-ne p (x ∷ xs) prev node (inr f) n a b d e = Found-ne x.0 xs prev node f.1 b.0 d.0 b.1 d.1 e

module _ (s : ListSet) (xs : List Item) (w : WellFormed s xs) where
  module _ (k prev node : ℕ) (f : Found s.tail k s.head xs prev node) (m : member k xs ≡ true) where
    found : (node ≢ s.tail) × ((kn : ℕ) × (nn : ℕ) × (s.nodes node ≡ some (next_is kn nn)))
    found = Found-member s.nodes s.tail k s.head w.head_key xs prev node w.links f w.apart_tail m

    before_it : (kq : ℕ) × (s.nodes prev ≡ some (next_is kq node))
    before_it = Found-prev s.nodes s.tail k s.head w.head_key xs prev node w.links f

    prev-ne : prev ≢ node
    prev-ne =
        Found-ne s.nodes s.tail k s.head xs prev node f w.ends w.apart_head w.apart_tail w.distinct

    node-ne_null : node ≢ null
    node-ne_null = some-ne s.nodes node null _ found.1.2 w.no_null

    -- The nodes after the store and the deletion.
    unlinked : ℕ → Option Node
    unlinked = update (update s.nodes prev (some (next_is before_it.0 found.1.1))) node none

    unlink_lem : unlink prev node s ≡ done true (record s { nodes = unlinked })
    unfolding unlink tm_delete unlinked
    unlink_lem =
        let n1 = update s.nodes prev (some (next_is before_it.0 found.1.1)) in
        rw (load_lem node s (next_is found.1.0 found.1.1) found.1.2) (
          rw (store_next_lem prev found.1.1 s before_it.0 node before_it.1) (
            rw (==_of_ne node null node-ne_null) (
              rw
                (load_lem node (record s { nodes = n1 }) (next_is found.1.0 found.1.1)
                  (update_ne s.nodes prev (some (next_is before_it.0 found.1.1)) node prev-ne
                    ∙ found.1.2))
                refl)))

    unlinked_prev : unlinked prev ≡ some (next_is before_it.0 found.1.1)
    unfolding unlinked
    unlinked_prev =
        update_ne _ node none prev (λ e. prev-ne (sym e))
        ∙ update_self s.nodes prev (some (next_is before_it.0 found.1.1))

    unlinked_old :
        (kq : ℕ)
        → s.nodes prev ≡ some (next_is kq node)
        → unlinked prev ≡ some (next_is kq found.1.1)
    unlinked_old kq e =
        unlinked_prev
        ∙ ap (λ z. some (next_is z found.1.1))
            (same_key before_it.0 kq node node (sym before_it.1 ∙ e))

    unlinked_same : (q : ℕ) → q ≢ node → q ≢ prev → unlinked q ≡ s.nodes q
    unfolding unlinked
    unlinked_same q n m =
        update_ne _ node none q (λ e. n (sym e))
        ∙ update_ne s.nodes prev (some (next_is before_it.0 found.1.1)) q (λ e. m (sym e))

    tail-ne_prev : s.tail ≢ prev
    tail-ne_prev e = Found-Apart s.tail k s.head s.tail xs prev node f w.ends w.apart_tail (sym e)

    null-ne_prev : null ≢ prev
    null-ne_prev e = some-ne s.nodes prev null _ before_it.1 w.no_null (sym e)

    WellFormed-unlinked : WellFormed (record s { nodes = unlinked }) (cut k xs)
    WellFormed-unlinked = record {
      head_key = w.head_key;
      links =
          Links-cut s.nodes unlinked s.tail node k s.head w.head_key xs prev node found.1.0
            found.1.1 w.links f w.apart_head w.distinct found.0 w.ends w.apart_tail found.1.2
            unlinked_old unlinked_same;
      tail_node =
          (w.tail_node.0, unlinked_same s.tail (λ e. found.0 (sym e)) tail-ne_prev ∙ w.tail_node.1);
      no_null = unlinked_same null (λ e. node-ne_null (sym e)) null-ne_prev ∙ w.no_null;
      ends = w.ends;
      apart_head = Apart-cut s.head k xs w.apart_head;
      apart_tail = Apart-cut s.tail k xs w.apart_tail;
      distinct = Distinct-cut k xs w.distinct;
      sorted = Sorted-cut k xs w.sorted;
    }

    -- The unlinking takes the node of the key out of the list.
    pub unlink-WellFormed :
        (s' : ListSet) × (unlink prev node s ≡ done true s') × WellFormed s' (cut k xs)
    unlink-WellFormed = (record s { nodes = unlinked }, unlink_lem, WellFormed-unlinked)
