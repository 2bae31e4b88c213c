-- ===== src/Lists/Set/Lifetime.antt =====
-- pdatastructures/TMLinkedListSet.hpp: the constructor and the destructor.
use plsf.Prelude.{
  ℕ, zero, suc, ◌≤◌, ◌≡◌, ◌≢◌, refl, arith, Bool, true, false, ◌||◌, ◌==◌, if◌then◌else◌, List, [],
  ◌∷◌, length, sym, ◌∙◌, update, update_self, update_ne, update_lem, Option, some, none, ==_of_ne,
  ==_self,
}
use plsf.Lists.Nodes.{null, done}
use plsf.Lists.Set.{Node, ListSet, tm_new, tm_delete, new_list_set, delete_from, delete_list_set}
use plsf.Lists.Set.Links.{
  Item, first, Links, Links-first, Links-same, Apart, Distinct, next_is, All-same,
}
use plsf.Lists.Set.Search.{WellFormed, load_lem, some-ne}
use plsf.Lists.Set.Linking.{store_next_lem}
use plsf.Lists.Set.Refinement.{Represents}

module _ (lhead ltail garbage : ℕ) (head_live : lhead ≢ null) (tail_live : ltail ≢ null)
    (head-ne_tail : lhead ≢ ltail) where
  nothing : ℕ → Option Node
  nothing a = none

  with_head : ℕ → Option Node
  with_head = update nothing lhead (some (next_is garbage null))

  with_both : ℕ → Option Node
  with_both = update with_head ltail (some (next_is garbage null))

  built : ListSet
  built = record {
    head = lhead;
    tail = ltail;
    nodes = update with_both lhead (some (next_is garbage ltail));
  }

  head_node : with_head lhead ≡ some (next_is garbage null)
  unfolding with_head
  head_node = update_self nothing lhead (some (next_is garbage null))

  both_head : with_both lhead ≡ some (next_is garbage null)
  unfolding with_both
  both_head = update_ne with_head ltail _ lhead (λ e. head-ne_tail (sym e)) ∙ head_node

  new_list_set-built : new_list_set lhead ltail garbage ≡ done true built
  unfolding new_list_set tm_new built with_both with_head nothing
  new_list_set-built =
      rw
        (store_next_lem lhead ltail (record { head = lhead; tail = null; nodes = with_both })
          garbage null both_head)
        refl

  built-null : built.nodes null ≡ none
  unfolding built with_both with_head nothing
  built-null =
      update_ne with_both lhead _ null head_live
      ∙ update_ne with_head ltail _ null tail_live
      ∙ update_ne nothing lhead _ null head_live

  built_tail : built.nodes ltail ≡ some (next_is garbage null)
  unfolding built with_both
  built_tail =
      update_ne with_both lhead _ ltail head-ne_tail
      ∙ update_self with_head ltail (some (next_is garbage null))

  built-WellFormed : WellFormed built []
  unfolding built
  built-WellFormed = record {
    head_key = garbage;
    links = update_self with_both lhead (some (next_is garbage ltail));
    tail_node = (next_is garbage null, built_tail);
    no_null = built-null;
    ends = head-ne_tail;
    apart_head = tt;
    apart_tail = tt;
    distinct = tt;
    sorted = tt;
  }

  -- The constructor makes the empty set, whatever the sentinels' memory held.
  pub new_list_set-Represents :
      (s : ListSet) × (new_list_set lhead ltail garbage ≡ done true s) × Represents s 0 (λ k. false)
  unfolding Represents
  new_list_set-Represents = (built, new_list_set-built, ([], built-WellFormed, refl, λ k. refl))

tm_delete_lem :
    (a : ℕ) (s : ListSet) (n : Node)
    → a ≢ null
    → s.nodes a ≡ some n
    → tm_delete a s ≡ done tt (record s { nodes = update s.nodes a none })
unfolding tm_delete
tm_delete_lem a s n e f = rw (==_of_ne a null e) (rw (load_lem a s n f) refl)

-- Whether an address is that of a node from `p` to the tail.
pub owned : ℕ → ℕ → List Item → ℕ → Bool
owned t p [] a = (p == a) || (t == a)
owned t p (x ∷ xs) a = (p == a) || owned t x.0 xs a

without : ListSet → ℕ → ListSet
without s p = record s { nodes = update s.nodes p none }

delete_step :
    (n : ℕ) (s : ListSet) (p node : ℕ) (m q : Node)
    → p ≢ null
    → s.nodes p ≡ some m
    → node ≢ s.tail
    → node ≢ p
    → s.nodes node ≡ some q
    → delete_from (suc n) p node s ≡ delete_from n node q.next (without s p)
unfolding delete_from without
delete_step n s p node m q z e ne np f = rw (==_of_ne node s.tail ne) (
    rw (tm_delete_lem p s m z e) (
      rw (load_lem node (without s p) q (update_ne s.nodes p none node (λ r. np (sym r)) ∙ f))
        refl))

delete_end :
    (n : ℕ) (s : ListSet) (p : ℕ) (m q : Node)
    → p ≢ null
    → s.tail ≢ null
    → s.nodes p ≡ some m
    → p ≢ s.tail
    → s.nodes s.tail ≡ some q
    → delete_from (suc n) p s.tail s ≡ done tt (without (without s p) s.tail)
unfolding delete_from without
delete_end n s p m q z zt e ne f = rw (==_self s.tail) (
    rw (tm_delete_lem p s m z e)
      (tm_delete_lem s.tail (without s p) q zt (update_ne s.nodes p none s.tail ne ∙ f)))

delete_from_lem :
    (n : ℕ) (s : ListSet) (p kp : ℕ) (xs : List Item)
    → Links s.nodes s.tail p kp xs
    → Apart p xs
    → Distinct xs
    → p ≢ s.tail
    → Apart s.tail xs
    → s.nodes null ≡ none
    → ((m : Node) × (s.nodes s.tail ≡ some m))
    → length xs ≤ n
    → (s' : ListSet) × (delete_from (suc n) p (first xs s.tail) s ≡ done tt s')
      × ((a : ℕ) → s'.nodes a ≡ (if owned s.tail p xs a then none else s.nodes a))
unfolding owned without
delete_from_lem n s p kp [] l a d ne at z tl b = (
  without (without s p) s.tail,
  delete_end n s p _ tl.0 (some-ne s.nodes p null _ l z) (some-ne s.nodes s.tail null _ tl.1 z) l ne
      tl.1,
  λ c.
      ground (arith, update_lem (update s.nodes p none) s.tail none c, update_lem s.nodes p none c),
)
delete_from_lem zero s p kp (x ∷ xs) l a d ne at z tl b = absurd (omega arith)
delete_from_lem (suc n) s p kp (x ∷ xs) l a d ne at z tl b =
    let link = Links-first s.nodes s.tail x.0 x.1 xs l.1 in
    let p_null = some-ne s.nodes p null _ l.0 z in
    let same = λ (q : ℕ) (h : q ≢ p). update_ne s.nodes p none q (λ r. h (sym r)) in
    let r =
      delete_from_lem n (without s p) x.0 x.1 xs
        (Links-same s.nodes (update s.nodes p none) s.tail x.0 x.1 xs (same x.0 a.0)
          (All-same s.nodes (update s.nodes p none) p p xs a.1 a.1 (λ q h h'. same q h)) l.1)
        d.0 d.1 at.0 at.1 (same null (λ e. p_null (sym e)) ∙ z)
        (tl.0, same s.tail (λ e. ne (sym e)) ∙ tl.1) (omega arith) in
    (
      r.0,
      delete_step (suc n) s p x.0 _ _ p_null l.0 at.0 a.0 link ∙ r.1,
      λ c. r.2 c ∙ ground (arith, update_lem s.nodes p none c),
    )

-- The destructor of a list in good order deletes its nodes and its sentinels, and no other node.
pub delete_list_set-owned :
    (s : ListSet) (xs : List Item) (n : ℕ)
    → WellFormed s xs
    → length xs ≤ n
    → (s' : ListSet) × (delete_list_set (suc n) s ≡ done tt s')
      × ((a : ℕ) → s'.nodes a ≡ (if owned s.tail s.head xs a then none else s.nodes a))
unfolding delete_list_set
delete_list_set-owned s xs n w b =
    let r =
      delete_from_lem n s s.head w.head_key xs w.links w.apart_head w.distinct w.ends w.apart_tail
        w.no_null w.tail_node b in
    (
      r.0,
      rw
          (load_lem s.head s (next_is w.head_key (first xs s.tail))
            (Links-first s.nodes s.tail s.head w.head_key xs w.links))
          (r.1),
      r.2,
    )
