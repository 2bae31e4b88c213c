-- ===== src/Lists/SetNdp.antt =====
-- pdatastructures/TMLinkedListSetNDP.hpp: the linked-list set whose search loads the links without
-- taking their locks (`ndpload`) and then loads the last three again, which takes them.
use plsf.Prelude.{
  ℕ, zero, suc, ◌≤◌, ◌≡◌, ◌≢◌, refl, arith, Bool, true, false, not, ltb, ◌==◌, if◌then◌else◌, some,
  List, [], ◌∷◌, length, ==_of_ne, ==_self, ◌∙◌, Bool-cases, inl, inr,
}
use plsf.Lists.Nodes.{Result, done, unfinished, and_then}
use plsf.Lists.Set.{
  Node, ListSet, load, find_from, find, matches, link, unlink, add, remove, contains, new_list_set,
  delete_list_set,
}
use plsf.Lists.Set.Links.{Item, first, Links, Apart, Links-first, next_is}
use plsf.Lists.Set.Search.{WellFormed, load_lem, step_to_tail, step_to_node}

-- The loop of `find`, which remembers one more node behind: `pprev`, `prev` and `node`.
unfoldable pub find_from_ndp : ℕ → ℕ → ℕ → ℕ → ListSet → Result (ℕ × ℕ × ℕ) ListSet
unfolding load
find_from_ndp zero lkey pprev prev s = unfinished
find_from_ndp (suc n) lkey pprev prev s = and_then (load prev s) (λ p s1.
    let node = p.next in
    if node == s1.tail
    then done (pprev, prev, node) s1
    else and_then (load node s1) (λ q s2.
      if not (ltb q.key lkey)
      then done (pprev, prev, node) s2
      else find_from_ndp n lkey prev node s2))

unfoldable pub find_ndp : ℕ → ℕ → ListSet → Result (ℕ × ℕ) ListSet
unfolding find_from_ndp load
find_ndp n lkey s = and_then (find_from_ndp n lkey s.head s.head s) (λ r s1.
    and_then (load r.0 s1) (λ _ s2.
      and_then (load r.1 s2) (λ _ s3. and_then (load r.2 s3) (λ _ s4. done (r.1, r.2) s4))))

unfoldable pub add_ndp : (new_node : ℕ) → ℕ → ℕ → ListSet → Result Bool ListSet
unfolding find_ndp matches link
add_ndp new_node n lkey s = and_then (find_ndp n lkey s) (λ p s1.
    and_then (matches lkey p.1 s1)
      (λ b s2. if b then done false s2 else link new_node lkey p.0 p.1 s2))

unfoldable pub add_all_ndp : ℕ → List (ℕ × ℕ) → ListSet → Result Bool ListSet
unfolding add_ndp
add_all_ndp n [] s = done true s
add_all_ndp n (k ∷ ks) s = and_then (add_ndp k.1 n k.0 s) (λ _ s'. add_all_ndp (suc n) ks s')

-- The constructor and the destructor are those of the other class.
unfoldable pub new_list_set_ndp : (lhead : ℕ) (ltail : ℕ) (garbage : ℕ) → Result Bool ListSet
unfolding new_list_set
new_list_set_ndp lhead ltail garbage = new_list_set lhead ltail garbage

unfoldable pub delete_list_set_ndp : ℕ → ListSet → Result (Unit {0}) ListSet
unfolding delete_list_set
delete_list_set_ndp n s = delete_list_set n s

unfoldable pub remove_ndp : ℕ → ℕ → ListSet → Result Bool ListSet
unfolding find_ndp matches unlink
remove_ndp n lkey s = and_then (find_ndp n lkey s) (λ p s1.
    and_then (matches lkey p.1 s1) (λ b s2. if not b then done false s2 else unlink p.0 p.1 s2))

unfoldable pub contains_ndp : ℕ → ℕ → ListSet → Result Bool ListSet
unfolding find_ndp matches
contains_ndp n lkey s = and_then (find_ndp n lkey s) (λ p s1. matches lkey p.1 s1)

module _ (s : ListSet) (k : ℕ) where
  Alive : ℕ → Type 0
  Alive a = (n : Node) × (s.nodes a ≡ some n)

  ndp_to_tail :
      (n pp p kp : ℕ)
      → s.nodes p ≡ some (next_is kp s.tail)
      → find_from_ndp (suc n) k pp p s ≡ done (pp, p, s.tail) s
  unfolding find_from_ndp
  ndp_to_tail n pp p kp e = rw (load_lem p s (next_is kp s.tail) e) (rw (==_self s.tail) refl)

  ndp_to_node :
      (n pp p kp q kq nq : ℕ)
      → s.nodes p ≡ some (next_is kp q)
      → s.nodes q ≡ some (next_is kq nq)
      → q ≢ s.tail
      → find_from_ndp (suc n) k pp p s
        ≡ (if not (ltb kq k) then done (pp, p, q) s else find_from_ndp n k p q s)
  unfolding find_from_ndp
  ndp_to_node n pp p kp q kq nq e f ne =
      rw (load_lem p s (next_is kp q) e)
        (rw (==_of_ne q s.tail ne) (rw (load_lem q s (next_is kq nq) f) refl))

  -- Both searches stop at the same nodes, which are there.
  both_find :
      (n pp p kp : ℕ) (xs : List Item)
      → Alive pp
      → Alive s.tail
      → Links s.nodes s.tail p kp xs
      → Apart s.tail xs
      → length xs ≤ n
      → (pprev : ℕ) × (prev : ℕ) × (node : ℕ) × (find_from_ndp (suc n) k pp p s
          ≡ done (pprev, prev, node) s)
        × (find_from (suc n) k p s ≡ done (prev, node) s)
        × Alive pprev
        × Alive prev
        × Alive node
  unfolding Alive
  both_find n pp p kp [] h t l a b =
      (pp, p, s.tail, ndp_to_tail n pp p kp l, step_to_tail s k n p kp l, h, (_, l), t)
  both_find zero pp p kp (x ∷ xs) h t l a b = absurd (omega arith)
  both_find (suc n) pp p kp (x ∷ xs) h t l a b =
      let f = Links-first s.nodes s.tail x.0 x.1 xs l.1 in
      let u = ndp_to_node (suc n) pp p kp x.0 x.1 (first xs s.tail) l.0 f a.0 in
      let v = step_to_node s k (suc n) p kp x.0 x.1 (first xs s.tail) l.0 f a.0 in
      elim (Bool-cases (ltb x.1 k)) [
        | inl q ↦
            let r = both_find n p x.0 x.1 xs (_, l.0) t l.1 a.1 (omega arith) in
            (r.0, r.1, r.2, u ∙ rw q r.3, v ∙ rw q r.4, r.5, r.6, r.7)
        | inr q ↦ (pp, p, x.0, u ∙ rw q refl, v ∙ rw q refl, h, (_, l.0), (_, f))
      ]

find_ndp_lem :
    (s : ListSet) (xs : List Item) (n k : ℕ)
    → WellFormed s xs
    → length xs ≤ n
    → find_ndp (suc n) k s ≡ find (suc n) k s
unfolding find_ndp find Alive
find_ndp_lem s xs n k w b =
    let r =
      both_find s k n s.head s.head w.head_key xs
        (_, Links-first s.nodes s.tail s.head w.head_key xs w.links) w.tail_node w.links
        w.apart_tail b in
    rw (r.3) (
      rw (r.4) (
        rw (load_lem r.0 s r.5.0 r.5.1)
          (rw (load_lem r.1 s r.6.0 r.6.1) (rw (load_lem r.2 s r.7.0 r.7.1) refl))))

-- On a list in good order, with rounds enough for its length, the operations of both classes have the
-- same result and leave the same list.
pub ndp-same :
    (s : ListSet) (xs : List Item) (a n k : ℕ)
    → WellFormed s xs
    → length xs ≤ n
    → (add_ndp a (suc n) k s ≡ add a (suc n) k s)
      × (remove_ndp (suc n) k s ≡ remove (suc n) k s)
      × (contains_ndp (suc n) k s ≡ contains (suc n) k s)
unfolding add_ndp add remove_ndp remove contains_ndp contains
ndp-same s xs a n k w b = let e = find_ndp_lem s xs n k w b in (rw e refl, rw e refl, rw e refl)
