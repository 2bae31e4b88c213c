-- ===== src/Lists/Set/Search.antt =====
-- pdatastructures/TMLinkedListSet.hpp: `find`, on a list in good order.
use plsf.Prelude.{
  ℕ, zero, suc, ◌≤◌, ◌≡◌, ◌≢◌, refl, arith, Bool, true, false, not, ltb, if◌then◌else◌, Option,
  some, none, List, [], ◌∷◌, length, ap, sym, ◌∙◌, inl, inr, Bool-cases, ==_of_ne, ==_self,
}
use plsf.Lists.Nodes.{null, done}
use plsf.Lists.Set.{Node, ListSet, load, find_from, find, matches}
use plsf.Lists.Set.Links.{
  Item, first, Links, Links-first, Apart, Distinct, Sorted, Found, member, next_is,
}
use plsf.Lists.Set.Items.{member-here, member-there}

-- The set holds the items `xs`, in order of their keys, between its sentinels.
pub record WellFormed (s : ListSet) (xs : List Item) : Type 0 where
  pub head_key : ℕ
  pub links : Links s.nodes s.tail s.head head_key xs
  pub tail_node : (n : Node) × (s.nodes s.tail ≡ some n)
  pub no_null : s.nodes null ≡ none
  pub ends : s.head ≢ s.tail
  pub apart_head : Apart s.head xs
  pub apart_tail : Apart s.tail xs
  pub distinct : Distinct xs
  pub sorted : Sorted xs

pub load_lem : (a : ℕ) (s : ListSet) (n : Node) → s.nodes a ≡ some n → load a s ≡ done n s
unfolding load
load_lem a s n e = rw (e, load) refl

module _ (s : ListSet) (k : ℕ) where
  pub step_to_tail :
      (n p kp : ℕ)
      → s.nodes p ≡ some (next_is kp s.tail)
      → find_from (suc n) k p s ≡ done (p, s.tail) s
  unfolding find_from
  step_to_tail n p kp e = rw (load_lem p s (next_is kp s.tail) e) (rw (==_self s.tail) refl)

  pub step_to_node :
      (n p kp q kq nq : ℕ)
      → s.nodes p ≡ some (next_is kp q)
      → s.nodes q ≡ some (next_is kq nq)
      → q ≢ s.tail
      → find_from (suc n) k p s ≡ (if not (ltb kq k) then done (p, q) s else find_from n k q s)
  unfolding find_from
  step_to_node n p kp q kq nq e f ne =
      rw (load_lem p s (next_is kp q) e)
        (rw (==_of_ne q s.tail ne) (rw (load_lem q s (next_is kq nq) f) refl))

  -- Enough rounds for the list bring the loop to the place of the key.
  pub find_from_lem :
      (n p kp : ℕ) (xs : List Item)
      → Links s.nodes s.tail p kp xs
      → Apart s.tail xs
      → length xs ≤ n
      → (prev : ℕ) × (node : ℕ) × (find_from (suc n) k p s ≡ done (prev, node) s)
        × Found s.tail k p xs prev node
  find_from_lem n p kp [] l a b = (p, s.tail, step_to_tail n p kp l, (refl, refl))
  find_from_lem zero p kp (x ∷ xs) l a b = absurd (omega arith)
  find_from_lem (suc n) p kp (x ∷ xs) l a b =
      let e =
        step_to_node (suc n) p kp x.0 x.1 (first xs s.tail) l.0
          (Links-first s.nodes s.tail x.0 x.1 xs l.1) a.0 in
      elim (Bool-cases (ltb x.1 k)) [
        | inl q ↦
            let r = find_from_lem n x.0 x.1 xs l.1 a.1 (omega arith) in
            (r.0, r.1, e ∙ rw q r.2, inr (q, r.3))
        | inr q ↦ (p, x.0, e ∙ rw q refl, inl (q, refl, refl))
      ]

  -- The test after `find` says whether the key is there.
  pub matches-Found :
      (p kp : ℕ) (xs : List Item) (prev node : ℕ)
      → Links s.nodes s.tail p kp xs
      → Apart s.tail xs
      → Sorted xs
      → Found s.tail k p xs prev node
      → matches k node s ≡ done (member k xs) s
  unfolding matches
  matches-Found p kp [] prev node l a o f = rw (f.1) (rw (==_self s.tail) refl)
  matches-Found p kp (x ∷ xs) prev node l a o (inl f) = rw (f.2) (
      rw (==_of_ne x.0 s.tail a.0) (
        rw
          (load_lem x.0 s (next_is x.1 (first xs s.tail))
            (Links-first s.nodes s.tail x.0 x.1 xs l.1))
          (ap (λ b. done b s) (member-here k x xs o f.0))))
  matches-Found p kp (x ∷ xs) prev node l a o (inr f) =
      matches-Found x.0 x.1 xs prev node l.1 a.1 o.1 f.1
      ∙ ap (λ b. done b s) (member-there k x xs f.0)

-- The node before the place of the key points to the node found.
pub Found-prev :
    (nodes : ℕ → Option Node) (t k p kp : ℕ) (xs : List Item) (prev node : ℕ)
    → Links nodes t p kp xs
    → Found t k p xs prev node
    → (kq : ℕ) × (nodes prev ≡ some (next_is kq node))
Found-prev nodes t k p kp [] prev node l f =
    (kp, ap nodes f.0 ∙ l ∙ ap (λ v. some (next_is kp v)) (sym f.1))
Found-prev nodes t k p kp (x ∷ xs) prev node l (inl f) =
    (kp, ap nodes f.1 ∙ l.0 ∙ ap (λ v. some (next_is kp v)) (sym f.2))
Found-prev nodes t k p kp (x ∷ xs) prev node l (inr f) =
    Found-prev nodes t k x.0 x.1 xs prev node l.1 f.1

is_some : Option Node → Bool
is_some none = false
is_some (some n) = true

differ : true ≡ false → ⊥
differ e = ground (arith, e)

-- An address that holds a node and one that holds none differ.
pub some-ne :
    (nodes : ℕ → Option Node) (a b : ℕ) (n : Node) → nodes a ≡ some n → nodes b ≡ none → a ≢ b
unfolding is_some
some-ne nodes a b n e f q = differ (ap is_some (sym e ∙ ap nodes q ∙ f))

pub Links-Apart :
    (nodes : ℕ → Option Node) (t p kp a : ℕ) (xs : List Item)
    → Links nodes t p kp xs
    → nodes a ≡ none
    → Apart a xs
Links-Apart nodes t p kp a [] l e = tt
Links-Apart nodes t p kp a (x ∷ xs) l e = (
  some-ne nodes x.0 a (next_is x.1 (first xs t)) (Links-first nodes t x.0 x.1 xs l.1) e,
  Links-Apart nodes t x.0 x.1 a xs l.1 e,
)

-- `find` and the test after it, on the whole list.
pub find_lem :
    (s : ListSet) (xs : List Item) (n k : ℕ)
    → WellFormed s xs
    → length xs ≤ n
    → (prev : ℕ) × (node : ℕ) × (find (suc n) k s ≡ done (prev, node) s)
      × (matches k node s ≡ done (member k xs) s)
      × Found s.tail k s.head xs prev node
unfolding find
find_lem s xs n k w b =
    let r = find_from_lem s k n s.head w.head_key xs w.links w.apart_tail b in
    (
      r.0,
      r.1,
      r.2,
      matches-Found s k s.head w.head_key xs r.0 r.1 w.links w.apart_tail w.sorted r.3,
      r.3,
    )
