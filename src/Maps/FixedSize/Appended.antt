-- ===== src/Maps/FixedSize/Appended.antt =====
-- pdatastructures/TMHashMapFixedSize.hpp: the lists after a new node is linked at the end of one.
use plsf.Prelude.{
  ℕ, suc, ◌≤◌, length, ◌≡◌, ◌≢◌, refl, arith, Bool, true, false, ◌==◌, if◌then◌else◌, Option, none,
  some, List, [], ◌∷◌, ap, sym, subst, ◌∙◌, update, update_self, update_ne, ==_self, Bool-cases,
  inl, inr,
}
use plsf.Lists.Nodes.{null}
use plsf.Maps.FixedSize.{Node}
use plsf.Maps.FixedSize.Cells.{Cell, first, linked, Chain, is_match, locate, last}
use plsf.Maps.FixedSize.Changed.{
  AllAt, lookup, eq_of_==, ne_of_==, same_node, lookup-skip, lookup-here, lookup-step,
}
use plsf.Maps.FixedSize.Found.{locate-none}

-- The new cell `y` after the last cell, where that is at the address `p`.
abbrev pub append_at : ℕ → Cell → List Cell → List Cell
append_at p y [] = []
append_at p y (x ∷ []) = if x.addr == p then x ∷ y ∷ [] else x ∷ []
append_at p y (x ∷ x1 ∷ xs) = x ∷ append_at p y (x1 ∷ xs)

is_some : Option Node → Bool
is_some none = false
is_some (some n) = true

differ : true ≡ false → ⊥
differ e = ground (arith, e)

-- An address that holds a node and one that holds none differ.
pub some-ne :
    (nodes : ℕ → Option Node) (a b : ℕ) (n : Node) → nodes a ≡ some n → nodes b ≡ none → a ≢ b
unfolding is_some
some-ne nodes a b n e f q = differ (ap is_some (sym e ∙ ap nodes q ∙ f))

module _ (y : Cell) (p : ℕ) where
  pub first-append_at : (xs : List Cell) → first (append_at p y xs) ≡ first xs
  first-append_at [] = refl
  first-append_at (x ∷ []) = elim (Bool-cases (x.addr == p)) [
    | inl q ↦ rw q refl
    | inr q ↦ rw q refl
  ]
  first-append_at (x ∷ x1 ∷ xs) = refl

  append_at-last : (x : Cell) → x.addr ≡ p → append_at p y (x ∷ []) ≡ x ∷ y ∷ []
  append_at-last x q = rw (q, ==_self p) refl

  append_at-other : (x : Cell) → (x.addr == p) ≡ false → append_at p y (x ∷ []) ≡ x ∷ []
  append_at-other x q = rw q refl

  pub length-append_at : (xs : List Cell) → length (append_at p y xs) ≤ suc (length xs)
  length-append_at [] = omega arith
  length-append_at (x ∷ []) = elim (Bool-cases (x.addr == p)) [
    | inl q ↦ rw q (omega arith)
    | inr q ↦ rw q (omega arith)
  ]
  length-append_at (x ∷ x1 ∷ xs) = omega (arith, length-append_at (x1 ∷ xs))

  pub AllAt-append_at :
      (k a : ℕ) (xs : List Cell)
      → AllAt k a xs
      → (is_match k y ≡ true → y.addr ≡ a)
      → AllAt k a (append_at p y xs)
  AllAt-append_at k a [] u f = tt
  AllAt-append_at k a (x ∷ []) u f = elim (Bool-cases (x.addr == p)) [
    | inl q ↦ rw q (u.0, (f, tt))
    | inr q ↦ rw q u
  ]
  AllAt-append_at k a (x ∷ x1 ∷ xs) u f = (u.0, AllAt-append_at k a (x1 ∷ xs) u.1 f)

  pub lookup-append_at-same :
      (k : ℕ) (xs : List Cell) → is_match k y ≡ false → lookup k (append_at p y xs) ≡ lookup k xs
  lookup-append_at-same k [] f = refl
  lookup-append_at-same k (x ∷ []) f = elim (Bool-cases (x.addr == p)) [
    | inl q ↦ rw q (lookup-step k x (y ∷ []) [] (lookup-skip k y [] f))
    | inr q ↦ rw q refl
  ]
  lookup-append_at-same k (x ∷ x1 ∷ xs) f =
      lookup-step k x (append_at p y (x1 ∷ xs)) (x1 ∷ xs) (lookup-append_at-same k (x1 ∷ xs) f)

  -- The new value is found at the end of a list that does not have the key.
  pub lookup-append_at-new :
      (k a : ℕ) (x : Cell) (xs : List Cell)
      → locate k (x ∷ xs) ≡ none
      → last a (x ∷ xs) ≡ p
      → is_match k y ≡ true
      → lookup k (append_at p y (x ∷ xs)) ≡ some y.val
  lookup-append_at-new k a x [] e l t =
      ap (lookup k) (append_at-last x l)
      ∙ lookup-skip k x (y ∷ []) (locate-none k x [] e).0
      ∙ lookup-here k y [] t
  lookup-append_at-new k a x (x1 ∷ xs) e l t =
      lookup-skip k x (append_at p y (x1 ∷ xs)) (locate-none k x (x1 ∷ xs) e).0
      ∙ lookup-append_at-new k x.addr x1 xs (locate-none k x (x1 ∷ xs) e).1 l t

-- The new node `n'` at an unused address and the link to it in the node `n` at `p`, the last one.
module _ (nodes : ℕ → Option Node) (y : Cell) (p : ℕ) (n : Node) (e : nodes p ≡ some n)
    (z : n.next ≡ null) (u : nodes y.addr ≡ none) (w : y.addr ≢ null) where
  abbrev pub with_next : ℕ → Node
  with_next v = record { key = n.key; val = n.val; next = v; is_active = n.is_active }

  abbrev pub appended : ℕ → Option Node
  appended = update (update nodes y.addr (some (linked y null))) p (some (with_next y.addr))

  y-ne_p : p ≢ y.addr
  y-ne_p q = some-ne nodes p y.addr n e u q

  appended-new : appended y.addr ≡ some (linked y null)
  appended-new =
      update_ne (update nodes y.addr (some (linked y null))) p (some (with_next y.addr)) y.addr
        y-ne_p
      ∙ update_self nodes y.addr (some (linked y null))

  appended-last :
      (x : Cell)
      → nodes x.addr ≡ some (linked x null)
      → x.addr ≡ p
      → appended x.addr ≡ some (linked x y.addr)
  appended-last x l q =
      ap appended q
      ∙ update_self (update nodes y.addr (some (linked y null))) p (some (with_next y.addr))
      ∙ ap (λ d. some (record { key = d.key; val = d.val; next = y.addr; is_active = d.is_active }))
          (same_node n (linked x null) (sym e ∙ ap nodes (sym q) ∙ l))

  appended-other :
      (x : Cell) (v : ℕ)
      → nodes x.addr ≡ some (linked x v)
      → x.addr ≢ p
      → appended x.addr ≡ some (linked x v)
  appended-other x v l q =
      update_ne (update nodes y.addr (some (linked y null))) p (some (with_next y.addr)) x.addr
        (λ r. q (sym r))
      ∙ update_ne nodes y.addr (some (linked y null)) x.addr
          (λ r. some-ne nodes x.addr y.addr (linked x v) l u (sym r))
      ∙ l

  -- A cell with a next one is not the last.
  inner-ne : (x : Cell) (v : ℕ) → nodes x.addr ≡ some (linked x v) → v ≢ null → x.addr ≢ p
  inner-ne x v l f q =
      f (sym (ap (λ d. d.next) (same_node n (linked x v) (sym e ∙ ap nodes (sym q) ∙ l))) ∙ z)

  pub Chain-append_at : (xs : List Cell) → Chain nodes xs → Chain appended (append_at p y xs)
  Chain-append_at [] c = tt
  Chain-append_at (x ∷ []) c = elim (Bool-cases (x.addr == p)) [
    | inl q ↦
        subst (Chain appended) (sym (append_at-last y p x (eq_of_== x.addr p q)))
          (appended-last x c.0 (eq_of_== x.addr p q), c.1, (appended-new, w, tt))
    | inr q ↦
        subst (Chain appended) (sym (append_at-other y p x q))
          (appended-other x null c.0 (ne_of_== x.addr p q), c.1, tt)
  ]
  Chain-append_at (x ∷ x1 ∷ xs) c = (
    appended-other x x1.addr c.0 (inner-ne x x1.addr c.0 c.2.1)
        ∙ ap (λ v. some (linked x v)) (sym (first-append_at y p (x1 ∷ xs))),
    c.1,
    Chain-append_at (x1 ∷ xs) c.2,
  )
