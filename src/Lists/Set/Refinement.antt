-- ===== src/Lists/Set/Refinement.antt =====
-- pdatastructures/TMLinkedListSet.hpp: the list as a set of keys, whatever its nodes.
use plsf.Prelude.{
  ℕ, suc, ◌-◌, ◌≡◌, ◌≢◌, refl, arith, Bool, true, false, not, if◌then◌else◌, List, length, ap, ◌∙◌,
  update, update_lem, Bool-cases, inl, inr, none,
}
use plsf.Lists.Nodes.{null, done}
use plsf.Lists.Set.{ListSet, add, remove, contains}
use plsf.Lists.Set.Links.{Item, member, put, cut}
use plsf.Lists.Set.Items.{member-put, member-cut, length-put, length-cut}
use plsf.Lists.Set.Search.{WellFormed, find_lem}
use plsf.Lists.Set.Linking.{link-WellFormed}
use plsf.Lists.Set.Unlinking.{unlink-WellFormed}

-- The list stands for the set `f` of `n` keys.
unfoldable pub Represents : ListSet → ℕ → (ℕ → Bool) → Type 0
Represents s n f =
    (xs : List Item) × WellFormed s xs × (length xs ≡ n) × ((k : ℕ) → member k xs ≡ f k)

module _ (s : ListSet) (n : ℕ) (f : ℕ → Bool) (k : ℕ) (r : Represents s n f) where
  -- `contains` says whether the key is in the set, and leaves the list.
  pub contains_lem : contains (suc n) k s ≡ done (f k) s
  unfolding contains Represents
  contains_lem =
      let q = find_lem s r.0 n k r.1 (omega (arith, r.2)) in
      rw (q.2) (q.3 ∙ ap (λ b. done b s) (r.3 k))

  pub add_lem :
      (new_node : ℕ)
      → new_node ≢ null
      → s.nodes new_node ≡ none
      → (s' : ListSet) × (add new_node (suc n) k s ≡ done (not (f k)) s')
        × Represents s' (if f k then n else suc n) (update f k true)
  unfolding add Represents
  add_lem a live free =
      let q = find_lem s r.0 n k r.1 (omega (arith, r.2)) in
      elim (Bool-cases (f k)) [
        | inl e ↦ (
          s,
          rw (q.2) (rw (q.3) (rw (r.3 k ∙ e) (rw e refl))),
          rw e (r.0, r.1, r.2, λ j. r.3 j ∙ ground (arith, update_lem f k true j, e)),
        )
        | inr e ↦
            let l = link-WellFormed a s r.0 r.1 live free k q.0 q.1 q.4 (r.3 k ∙ e) in
            (
              l.0,
              rw (q.2) (rw (q.3) (rw (r.3 k ∙ e) (rw e (l.1)))),
              rw e (
                put a k r.0,
                l.2,
                length-put a k r.0 ∙ ap suc r.2,
                λ j. member-put j a k r.0 ∙ ground (arith, update_lem f k true j, r.3 j),
              ),
            )
      ]

  pub remove_lem :
      (s' : ListSet) × (remove (suc n) k s ≡ done (f k) s')
      × Represents s' (if f k then n - 1 else n) (update f k false)
  unfolding remove Represents
  remove_lem =
      let q = find_lem s r.0 n k r.1 (omega (arith, r.2)) in
      elim (Bool-cases (f k)) [
        | inl e ↦
            let l = unlink-WellFormed s r.0 r.1 k q.0 q.1 q.4 (r.3 k ∙ e) in
            (
              l.0,
              rw (q.2) (rw (q.3) (rw (r.3 k ∙ e) (rw e (l.1)))),
              rw e (
                cut k r.0,
                l.2,
                omega (arith, length-cut k r.0 (r.3 k ∙ e), r.2),
                λ j.
                    member-cut j k r.0 r.1.sorted (r.3 k ∙ e)
                    ∙ ground (arith, update_lem f k false j, r.3 j),
              ),
            )
        | inr e ↦ (
          s,
          rw (q.2) (rw (q.3) (rw (r.3 k ∙ e) (rw e refl))),
          rw e (r.0, r.1, r.2, λ j. r.3 j ∙ ground (arith, update_lem f k false j, e)),
        )
      ]

-- `TMLinkedListSet` is a set: on a list that stands for the set `f` of `n` keys, with a round of the
-- search for each key and one more, `contains` says whether the key is in the set and leaves the list;
-- `add` says whether it is not, and the list then stands for the set with the key; `remove` says whether
-- it is, and the list then stands for the set without it. None of them meets an address that holds
-- no node. The address that `malloc` gives is not null and holds no node yet.
pub set_refinement :
    (s : ListSet) (n : ℕ) (f : ℕ → Bool) (k new_node : ℕ)
    → Represents s n f
    → new_node ≢ null
    → s.nodes new_node ≡ none
    → (contains (suc n) k s ≡ done (f k) s)
      × ((s' : ListSet) × (add new_node (suc n) k s ≡ done (not (f k)) s')
          × Represents s' (if f k then n else suc n) (update f k true))
      × ((s' : ListSet) × (remove (suc n) k s ≡ done (f k) s')
          × Represents s' (if f k then n - 1 else n) (update f k false))
set_refinement s n f k a r live free =
    (contains_lem s n f k r, add_lem s n f k r a live free, remove_lem s n f k r)
