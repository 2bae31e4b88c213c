-- ===== src/Maps/FixedSize/Changed.antt =====
-- pdatastructures/TMHashMapFixedSize.hpp: the lists after a store to the fields of one node.
use plsf.Prelude.{
  ℕ, ◌≡◌, ◌≢◌, refl, arith, Bool, true, false, ◌==◌, if◌then◌else◌, Option, none, some, List, [],
  ◌∷◌, map, ap, sym, ◌∙◌, update, update_self, update_ne, ==_self, Bool-cases, inl, inr, ◌⊎◌,
}
use plsf.Maps.FixedSize.{Node, matches}
use plsf.Maps.FixedSize.Cells.{Cell, first, linked, Chain, is_match, locate}

-- The value of the first active cell with the key.
abbrev pub value_of : Option Cell → Option ℕ
value_of none = none
value_of (some c) = some c.val

abbrev pub lookup : ℕ → List Cell → Option ℕ
lookup k xs = value_of (locate k xs)

-- Every active cell with the key is at the address.
abbrev pub AllAt : ℕ → ℕ → List Cell → Type 0
AllAt k p [] = Unit
AllAt k p (x ∷ xs) = (is_match k x ≡ true → x.addr ≡ p) × AllAt k p xs

-- No active cell with the key stands before the address, which the list has.
abbrev pub Reaches : ℕ → ℕ → List Cell → Type 0
Reaches k p [] = ⊥
Reaches k p (x ∷ xs) = (x.addr ≡ p) ⊎ ((is_match k x ≡ false) × Reaches k p xs)

-- The fields that the cells at the address `a` get.
abbrev pub put_at : ℕ → Node → Cell → Cell
put_at a n x = record {
  addr = x.addr;
  key = if x.addr == a then n.key else x.key;
  val = if x.addr == a then n.val else x.val;
  is_active = if x.addr == a then n.is_active else x.is_active;
}

pub lookup-skip :
    (k : ℕ) (x : Cell) (xs : List Cell) → is_match k x ≡ false → lookup k (x ∷ xs) ≡ lookup k xs
lookup-skip k x xs f = rw f refl

pub lookup-here :
    (k : ℕ) (x : Cell) (xs : List Cell) → is_match k x ≡ true → lookup k (x ∷ xs) ≡ some x.val
lookup-here k x xs f = rw f refl

pub lookup-step :
    (k : ℕ) (x : Cell) (xs ys : List Cell)
    → lookup k xs ≡ lookup k ys
    → lookup k (x ∷ xs) ≡ lookup k (x ∷ ys)
lookup-step k x xs ys e = elim (Bool-cases (is_match k x)) [
  | inl t ↦ lookup-here k x xs t ∙ sym (lookup-here k x ys t)
  | inr f ↦ lookup-skip k x xs f ∙ e ∙ sym (lookup-skip k x ys f)
]

pub eq_of_== : (a b : ℕ) → (a == b) ≡ true → a ≡ b
eq_of_== a b q = ground (arith, q)

pub ne_of_== : (a b : ℕ) → (a == b) ≡ false → a ≢ b
ne_of_== a b q e = ground (arith, q, e)

not_true : (b : Bool) → (b ≡ true → ⊥) → b ≡ false
not_true true f = absurd (f refl)
not_true false f = refl

the_node : Option Node → Node → Node
the_node none d = d
the_node (some n) d = n

pub same_node : (n n' : Node) → some n ≡ some n' → n ≡ n'
unfolding the_node
same_node n n' e = ap (λ o. the_node o n) e

-- The store of the node `n'` over `n`, with the same link.
module _ (nodes : ℕ → Option Node) (a : ℕ) (n n' : Node) (e : nodes a ≡ some n)
    (s : n'.next ≡ n.next) where
  pub first-put_at : (xs : List Cell) → first (map (put_at a n') xs) ≡ first xs
  first-put_at [] = refl
  first-put_at (x ∷ xs) = refl

  at_node : (x : Cell) (v : ℕ) → nodes x.addr ≡ some (linked x v) → x.addr ≡ a → n ≡ linked x v
  at_node x v l q = same_node n (linked x v) (sym e ∙ ap nodes (sym q) ∙ l)

  put_at-off : (x : Cell) → (x.addr == a) ≡ false → put_at a n' x ≡ x
  put_at-off x q = rw q refl

  linked-put_at : (x : Cell) (v : ℕ) → x.addr ≡ a → n'.next ≡ v → linked (put_at a n' x) v ≡ n'
  linked-put_at x v q l = rw (q, ==_self a, sym l) refl

  is_match-put_at : (k : ℕ) (x : Cell) → x.addr ≡ a → is_match k (put_at a n' x) ≡ matches k n'
  is_match-put_at k x q = rw (q, ==_self a) refl

  is_match-at :
      (k : ℕ) (x : Cell) (v : ℕ)
      → nodes x.addr ≡ some (linked x v)
      → x.addr ≡ a
      → is_match k x ≡ matches k n
  is_match-at k x v l q = ap (λ d. matches k d) (sym (at_node x v l q))

  node-put_at :
      (x : Cell) (v : ℕ)
      → nodes x.addr ≡ some (linked x v)
      → update nodes a (some n') x.addr ≡ some (linked (put_at a n' x) v)
  node-put_at x v l = elim (Bool-cases (x.addr == a)) [
    | inl q ↦
        let p = eq_of_== x.addr a q in
        ap (update nodes a (some n')) p
        ∙ update_self nodes a (some n')
        ∙ ap some (sym (linked-put_at x v p (s ∙ ap (λ d. d.next) (at_node x v l p))))
    | inr q ↦
        update_ne nodes a (some n') x.addr (λ p. ne_of_== x.addr a q (sym p))
        ∙ l
        ∙ ap (λ y. some (linked y v)) (sym (put_at-off x q))
  ]

  pub Chain-put_at :
      (xs : List Cell) → Chain nodes xs → Chain (update nodes a (some n')) (map (put_at a n') xs)
  Chain-put_at [] c = tt
  Chain-put_at (x ∷ xs) c = (
    node-put_at x (first xs) c.0
        ∙ ap (λ v. some (linked (put_at a n' x) v)) (sym (first-put_at xs)),
    c.1,
    Chain-put_at xs c.2,
  )

  -- Keys that neither the old nor the new fields match are not concerned.
  pub lookup-put_at-same :
      (k : ℕ) (xs : List Cell)
      → Chain nodes xs
      → matches k n ≡ false
      → matches k n' ≡ false
      → lookup k (map (put_at a n') xs) ≡ lookup k xs
  lookup-put_at-same k [] c f f' = refl
  lookup-put_at-same k (x ∷ xs) c f f' = elim (Bool-cases (x.addr == a)) [
    | inl q ↦
        let p = eq_of_== x.addr a q in
        lookup-skip k (put_at a n' x) (map (put_at a n') xs) (is_match-put_at k x p ∙ f')
        ∙ lookup-put_at-same k xs c.2 f f'
        ∙ sym (lookup-skip k x xs (is_match-at k x (first xs) c.0 p ∙ f))
    | inr q ↦
        ap (λ y. lookup k (y ∷ map (put_at a n') xs)) (put_at-off x q)
        ∙ lookup-step k x (map (put_at a n') xs) xs (lookup-put_at-same k xs c.2 f f')
  ]

  lookup-put_at-here :
      (k : ℕ) (x : Cell) (xs : List Cell)
      → x.addr ≡ a
      → matches k n' ≡ true
      → lookup k (map (put_at a n') (x ∷ xs)) ≡ some n'.val
  lookup-put_at-here k x xs q t =
      lookup-here k (put_at a n' x) (map (put_at a n') xs) (is_match-put_at k x q ∙ t)
      ∙ ap (λ d. some d.val) (linked-put_at x n'.next q refl)

  -- The first cell at the address has the new value.
  pub lookup-put_at-new :
      (k : ℕ) (xs : List Cell)
      → Reaches k a xs
      → matches k n' ≡ true
      → lookup k (map (put_at a n') xs) ≡ some n'.val
  lookup-put_at-new k [] r t = absurd r
  lookup-put_at-new k (x ∷ xs) (inl q) t = lookup-put_at-here k x xs q t
  lookup-put_at-new k (x ∷ xs) (inr r) t = elim (Bool-cases (x.addr == a)) [
    | inl q ↦ lookup-put_at-here k x xs (eq_of_== x.addr a q) t
    | inr q ↦
        lookup-skip k (put_at a n' x) (map (put_at a n') xs)
          (ap (is_match k) (put_at-off x q) ∙ r.0)
        ∙ lookup-put_at-new k xs r.1 t
  ]

  pub AllAt-put_at :
      (k p : ℕ) (xs : List Cell)
      → AllAt k p xs
      → (matches k n' ≡ true → a ≡ p)
      → AllAt k p (map (put_at a n') xs)
  AllAt-put_at k p [] u f = tt
  AllAt-put_at k p (x ∷ xs) u f = (
    (λ t. elim (Bool-cases (x.addr == a)) [
      | inl q ↦ let o = eq_of_== x.addr a q in o ∙ f (sym (is_match-put_at k x o) ∙ t)
      | inr q ↦ u.0 (ap (is_match k) (sym (put_at-off x q)) ∙ t)
    ]),
    AllAt-put_at k p xs u.1 f,
  )

  -- A key whose only active cells were at the address is gone.
  pub lookup-put_at-gone :
      (k : ℕ) (xs : List Cell)
      → AllAt k a xs
      → matches k n' ≡ false
      → lookup k (map (put_at a n') xs) ≡ none
  lookup-put_at-gone k [] u f = refl
  lookup-put_at-gone k (x ∷ xs) u f =
      lookup-skip k (put_at a n' x) (map (put_at a n') xs) (elim (Bool-cases (x.addr == a)) [
        | inl q ↦ is_match-put_at k x (eq_of_== x.addr a q) ∙ f
        | inr q ↦
            ap (is_match k) (put_at-off x q)
            ∙ not_true (is_match k x) (λ t. ne_of_== x.addr a q (u.0 t))
      ])
      ∙ lookup-put_at-gone k xs u.1 f
