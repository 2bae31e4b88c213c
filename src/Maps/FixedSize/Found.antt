-- ===== src/Maps/FixedSize/Found.antt =====
-- pdatastructures/TMHashMapFixedSize.hpp: the nodes that the loops of `innerGet`, `innerRemove` and
-- `innerPut` end at.
use plsf.Prelude.{
  ℕ, ◌≡◌, ◌≢◌, refl, arith, Bool, true, false, ◌==◌, Option, none, some, List, [], ◌∷◌, ap, sym,
  subst, ◌∙◌, Bool-cases, inl, inr, ◌⊎◌, ==_of_ne,
}
use plsf.Lists.Nodes.{null}
use plsf.Maps.FixedSize.{Node}
use plsf.Maps.FixedSize.Cells.{Cell, first, linked, Chain, is_match, locate, reusable, last}
use plsf.Maps.FixedSize.Changed.{AllAt, Reaches, eq_of_==}

locate-here : (k : ℕ) (x : Cell) (xs : List Cell) → is_match k x ≡ true → locate k (x ∷ xs) ≡ some x
locate-here k x xs t = rw t refl

locate-skip :
    (k : ℕ) (x : Cell) (xs : List Cell) → is_match k x ≡ false → locate k (x ∷ xs) ≡ locate k xs
locate-skip k x xs f = rw f refl

is_some : Option Cell → Bool
is_some none = false
is_some (some c) = true

differ : true ≡ false → ⊥
differ e = ground (arith, e)

some-none : (c : Cell) → some c ≡ none → ⊥
unfolding is_some
some-none c e = differ (ap is_some e)

pub locate-none :
    (k : ℕ) (x : Cell) (xs : List Cell)
    → locate k (x ∷ xs) ≡ none
    → (is_match k x ≡ false) × (locate k xs ≡ none)
locate-none k x xs e = elim (Bool-cases (is_match k x)) [
  | inl t ↦ absurd (some-none x (sym (locate-here k x xs t) ∙ e))
  | inr f ↦ (f, sym (locate-skip k x xs f) ∙ e)
]

-- The cell located is a node, the first active one with the key.
pub record Located (nodes : ℕ → Option Node) (k : ℕ) (xs : List Cell) (c : Cell) : Type 0 where
  pub link : ℕ
  pub node : nodes c.addr ≡ some (linked c link)
  pub match : is_match k c ≡ true
  pub reaches : Reaches k c.addr xs
  pub only : (p : ℕ) → AllAt k p xs → c.addr ≡ p

module _ (nodes : ℕ → Option Node) (k : ℕ) where
  pub locate-cases :
      (xs : List Cell)
      → Chain nodes xs
      → ((locate k xs ≡ none) × ((p : ℕ) → AllAt k p xs))
        ⊎ ((c : Cell) × (locate k xs ≡ some c) × Located nodes k xs c)
  locate-cases [] c = inl (refl, λ p. tt)
  locate-cases (x ∷ xs) c = elim (Bool-cases (is_match k x)) [
    | inl t ↦ inr (
      x,
      rw t refl,
      record { link = first xs; node = c.0; match = t; reaches = inl refl; only = λ p u. u.0 t },
    )
    | inr f ↦ elim (locate-cases xs c.2) [
      | inl r ↦ inl (rw f r.0, λ p. ((λ t. ground (arith, t, f)), r.1 p))
      | inr r ↦ inr (
        r.0,
        rw f r.1,
        record {
          link = r.2.link;
          node = r.2.node;
          match = r.2.match;
          reaches = inr (f, r.2.reaches);
          only = λ p u. r.2.only p u.1;
        },
      )
    ]
  ]

  -- The node for replacement is an inactive one of the list.
  abbrev pub Reusable : ℕ → List Cell → Type 0
  Reusable a xs =
      (c : Cell) × (v : ℕ) × (nodes a ≡ some (linked c v))
      × (c.is_active ≡ 0)
      × (a ≢ null)
      × Reaches k a xs

  reusable-kept : (r : ℕ) (xs : List Cell) → r ≢ null → reusable r xs ≡ r
  reusable-kept r [] f = refl
  reusable-kept r (x ∷ xs) f = rw (==_of_ne r null f) (reusable-kept r xs f)

  reusable-here :
      (x : Cell) (xs : List Cell)
      → (x.is_active == 0) ≡ true
      → x.addr ≢ null
      → reusable null (x ∷ xs) ≡ x.addr
  reusable-here x xs q n = rw q (reusable-kept x.addr xs n)

  reusable-skip :
      (x : Cell) (xs : List Cell)
      → (x.is_active == 0) ≡ false
      → reusable null (x ∷ xs) ≡ reusable null xs
  reusable-skip x xs q = rw q refl

  pub reusable-cases :
      (xs : List Cell)
      → Chain nodes xs
      → locate k xs ≡ none
      → (reusable null xs ≡ null) ⊎ Reusable (reusable null xs) xs
  reusable-cases [] c e = inl refl
  reusable-cases (x ∷ xs) c e =
      let f = locate-none k x xs e in
      elim (Bool-cases (x.is_active == 0)) [
        | inl q ↦
            let r = reusable-here x xs q c.1 in
            inr (
              x,
              first xs,
              ap nodes r ∙ c.0,
              eq_of_== x.is_active 0 q,
              (λ z. c.1 (sym r ∙ z)),
              inl (sym r),
            )
        | inr q ↦ elim (reusable-cases xs c.2 f.1) [
          | inl r ↦ inl (reusable-skip x xs q ∙ r)
          | inr r ↦ inr (
              subst (λ a. Reusable a (x ∷ xs)) (sym (reusable-skip x xs q))
                (r.0, r.1, r.2, r.3, r.4, inr (f.0, r.5)))
        ]
      ]

  -- A list with a cell ends at a node without a next one.
  pub last-node :
      (a : ℕ) (x : Cell) (xs : List Cell)
      → Chain nodes (x ∷ xs)
      → (c : Cell) × (nodes (last a (x ∷ xs)) ≡ some (linked c null)) × (last a (x ∷ xs) ≢ null)
  last-node a x [] c = (x, c.0, c.1)
  last-node a x (x1 ∷ xs) c = last-node x.addr x1 xs c.2
