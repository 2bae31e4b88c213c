-- ===== src/Lists/SetByRef.antt =====
-- pdatastructures/TMLinkedListSetByRef.hpp: the linked-list set whose transactions return nothing and
-- leave the result in a local variable of the caller, `retval`.
use plsf.Prelude.{
  ℕ, ◌≡◌, refl, Bool, true, not, if◌then◌else◌, update, some, Bool-cases, inl, inr, List, [], ◌∷◌,
  suc,
}
use plsf.Lists.Nodes.{null, Result, done, fault, unfinished, and_then}
use plsf.Lists.Set.{
  ListSet, tm_new, tm_delete, store_next, find, matches, link, unlink, add, remove, contains,
  new_list_set, delete_list_set, load,
}

unfoldable pub add_by_ref : (new_node : ℕ) → ℕ → ℕ → ListSet → Result Bool ListSet
unfolding find matches link
add_by_ref new_node n key s = and_then (find n key s) (λ p s1.
    and_then (matches key p.1 s1) (λ b s2.
      let retval = not b in
      if not retval
      then done retval s2
      else and_then (link new_node key p.0 p.1 s2) (λ _ s3. done retval s3)))

unfoldable pub add_all_by_ref : ℕ → List (ℕ × ℕ) → ListSet → Result Bool ListSet
unfolding add_by_ref
add_all_by_ref n [] s = done true s
add_all_by_ref n (k ∷ ks) s =
    and_then (add_by_ref k.1 n k.0 s) (λ _ s'. add_all_by_ref (suc n) ks s')

unfoldable pub remove_by_ref : ℕ → ℕ → ListSet → Result Bool ListSet
unfolding find matches unlink
remove_by_ref n key s = and_then (find n key s) (λ p s1. and_then (matches key p.1 s1) (λ retval s2.
    if not retval then done retval s2 else and_then (unlink p.0 p.1 s2) (λ _ s3. done retval s3)))

unfoldable pub contains_by_ref : ℕ → ℕ → ListSet → Result Bool ListSet
unfolding find matches
contains_by_ref n key s =
    and_then (find n key s)
      (λ p s1. and_then (matches key p.1 s1) (λ b s2. let retval = b in done retval s2))

-- `TMLinkedListSetByRef()`: the same in a transaction that returns nothing.
unfoldable pub new_list_set_by_ref :
    (lhead : ℕ) (ltail : ℕ) (garbage : ℕ) → Result (Unit {0}) ListSet
unfolding new_list_set
new_list_set_by_ref lhead ltail garbage =
    and_then (new_list_set lhead ltail garbage) (λ _ s. done tt s)

unfoldable pub delete_list_set_by_ref : ℕ → ListSet → Result (Unit {0}) ListSet
unfolding delete_list_set
delete_list_set_by_ref n s = delete_list_set n s

and_then-same :
    {A B S : Type 0} (r : Result A S) (k l : A → S → Result B S)
    → ((a : A) (s : S) → k a s ≡ l a s)
    → and_then r k ≡ and_then r l
and_then-same (done a s) k l h = h a s
and_then-same fault k l h = refl
and_then-same unfinished k l h = refl

and_then_done : {A S : Type 0} (r : Result A S) → and_then r (λ a s. done a s) ≡ r
and_then_done (done a s) = refl
and_then_done fault = refl
and_then_done unfinished = refl

-- What returns nothing but true.
Yields : {S : Type 0} → Result Bool S → Type 0
Yields r = and_then r (λ _ s. done true s) ≡ r

Yields-and_then :
    {A S : Type 0} (r : Result A S) (k : A → S → Result Bool S)
    → ((a : A) (s : S) → Yields (k a s))
    → Yields (and_then r k)
unfolding Yields
Yields-and_then (done a s) k h = h a s
Yields-and_then fault k h = refl
Yields-and_then unfinished k h = refl

Yields-link : (a k prev node : ℕ) (s : ListSet) → Yields (link a k prev node s)
unfolding link tm_new Yields
Yields-link a k prev node s =
    Yields-and_then
      (store_next prev a
        (record s { nodes = update s.nodes a (some (record { key = k; next = null })) }))
      (λ _ s2. and_then (store_next a node s2) (λ _ s3. done true s3))
      (λ _ s2. Yields-and_then (store_next a node s2) (λ _ s3. done true s3) (λ _ s3. refl))

Yields-unlink : (prev node : ℕ) (s : ListSet) → Yields (unlink prev node s)
unfolding unlink Yields
Yields-unlink prev node s =
    Yields-and_then (load node s)
      (λ q s1.
        and_then (store_next prev q.next s1)
          (λ _ s2. and_then (tm_delete node s2) (λ _ s3. done true s3)))
      (λ q s1.
        Yields-and_then (store_next prev q.next s1)
          (λ _ s2. and_then (tm_delete node s2) (λ _ s3. done true s3))
          (λ _ s2. Yields-and_then (tm_delete node s2) (λ _ s3. done true s3) (λ _ s3. refl)))

-- The operations of both classes have the same result and leave the same list, whatever the list, the
-- key, the address for the new node and the rounds given.
by_ref-same :
    (a n key : ℕ) (s : ListSet)
    → (add_by_ref a n key s ≡ add a n key s)
      × (remove_by_ref n key s ≡ remove n key s)
      × (contains_by_ref n key s ≡ contains n key s)
unfolding add_by_ref add remove_by_ref remove contains_by_ref contains Yields
by_ref-same a n key s = (
  and_then-same (find n key s) _ _ (λ p s1. and_then-same (matches key p.1 s1) _ _ (λ b s2.
      elim (Bool-cases b) [ inl e ↦ rw e refl | inr e ↦ rw e (Yields-link a key p.0 p.1 s2) ])),
  and_then-same (find n key s) _ _ (λ p s1. and_then-same (matches key p.1 s1) _ _ (λ b s2.
      elim (Bool-cases b) [ inl e ↦ rw e (Yields-unlink p.0 p.1 s2) | inr e ↦ rw e refl ])),
  and_then-same (find n key s) _ _ (λ p s1. and_then_done (matches key p.1 s1)),
)
