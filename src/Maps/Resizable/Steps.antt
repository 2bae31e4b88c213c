-- ===== src/Maps/Resizable/Steps.antt =====
-- pdatastructures/TMHashMap.hpp: the list of one bucket around the place of a key.
use plsf.Prelude.{
  ℕ, ◌≡◌, ◌≢◌, ◌⊎◌, refl, ◌==◌, Option, none, some, List, [], ◌∷◌, ◌++◌, All, ap, sym, ◌∙◌, update,
  update_self, update_ne, Bool-cases, inl, inr,
}
use plsf.Lists.Nodes.{null}
use plsf.Maps.FixedSize.Changed.{eq_of_==}
use plsf.Maps.Resizable.{Node}
use plsf.Maps.Resizable.Cells.{Cell, first, linked, Chain, nowhere, at, locate}
use plsf.Maps.Resizable.Family.{Apart, Distinct, lookup, Chain-update}

abbrev pub last : ℕ → List Cell → ℕ
last prev [] = prev
last prev (x ∷ xs) = last x.addr xs

-- What holds of the addresses of a list holds of the last.
pub last-All :
    (P : ℕ → Type 0) (prev : ℕ) (x : Cell) (xs : List Cell)
    → All (λ y. P y.addr) (x ∷ xs)
    → P (last prev (x ∷ xs))
last-All P prev x [] a = a.0
last-All P prev x (y ∷ xs) a = last-All P x.addr y xs a.1

abbrev pub or_else : Option ℕ → Option ℕ → Option ℕ
or_else none o = o
or_else (some v) o = some v

pub lookup-append :
    (j : ℕ) (xs ys : List Cell) → lookup j (xs ++ ys) ≡ or_else (lookup j xs) (lookup j ys)
lookup-append j [] ys = refl
lookup-append j (x ∷ xs) ys = elim (Bool-cases (j == x.key)) [
  | inl e ↦ rw e refl
  | inr e ↦ rw e (lookup-append j xs ys)
]

-- The list at the first cell with the key.
pub record Hit (k prev p : ℕ) (c : Cell) (xs : List Cell) : Type 0 where
  pub before : List Cell
  pub after : List Cell
  pub whole : xs ≡ before ++ c ∷ after
  pub address : p ≡ last prev before
  pub absent : lookup k before ≡ none
  pub key : k ≡ c.key

pub locate-cases :
    (k prev : ℕ) (xs : List Cell)
    → ((locate k prev xs ≡ nowhere (last prev xs)) × (lookup k xs ≡ none))
      ⊎ ((p : ℕ) × (c : Cell) × (locate k prev xs ≡ at p c) × Hit k prev p c xs)
locate-cases k prev [] = inl (refl, refl)
locate-cases k prev (x ∷ xs) = elim (Bool-cases (k == x.key)) [
  | inl e ↦ inr (
    prev,
    x,
    rw e refl,
    record {
      before = [];
      after = xs;
      whole = refl;
      address = refl;
      absent = refl;
      key = eq_of_== k x.key e;
    },
  )
  | inr e ↦ elim (locate-cases k x.addr xs) [
    | inl r ↦ inl (rw e r.0, rw e r.1)
    | inr r ↦ inr (
      r.0,
      r.1,
      rw e r.2,
      record {
        before = x ∷ r.3.before;
        after = r.3.after;
        whole = ap (λ ys. x ∷ ys) r.3.whole;
        address = r.3.address;
        absent = rw e r.3.absent;
        key = r.3.key;
      },
    )
  ]
]

-- Parts of a list that is apart from an address.
pub All-split : (P : Cell → Type 0) (xs ys : List Cell) → All P (xs ++ ys) → All P xs × All P ys
All-split P [] ys h = (tt, h)
All-split P (x ∷ xs) ys h = let r = All-split P xs ys h.1 in ((h.0, r.0), r.1)

pub All-join : (P : Cell → Type 0) (xs ys : List Cell) → All P xs → All P ys → All P (xs ++ ys)
All-join P [] ys h g = g
All-join P (x ∷ xs) ys h g = (h.0, All-join P xs ys h.1 g)

-- The parts of a list with a cell in the middle.
pub record Parts (pre : List Cell) (c : Cell) (post : List Cell) : Type 0 where
  pub both : Distinct (pre ++ post)
  pub before : Apart c.addr pre
  pub after : Apart c.addr post

pub Distinct-Parts :
    (pre : List Cell) (c : Cell) (post : List Cell) → Distinct (pre ++ c ∷ post) → Parts pre c post
Distinct-Parts [] c post d = record { both = d.1; before = tt; after = d.0 }
Distinct-Parts (x ∷ pre) c post d =
    let r = Distinct-Parts pre c post d.1 in
    let s = All-split (λ y. y.addr ≢ x.addr) pre (c ∷ post) d.0 in
    record {
      both = (All-join (λ y. y.addr ≢ x.addr) pre post s.0 s.1.1, r.both);
      before = ((λ e. s.1.0 (sym e)), r.before);
      after = r.after;
    }

pub Distinct-with :
    (pre : List Cell) (c : Cell) (post : List Cell)
    → Distinct (pre ++ post)
    → Apart c.addr pre
    → Apart c.addr post
    → Distinct (pre ++ c ∷ post)
Distinct-with [] c post d a b = (b, d)
Distinct-with (x ∷ pre) c post d a b =
    let s = All-split (λ y. y.addr ≢ x.addr) pre post d.0 in
    (
      All-join (λ y. y.addr ≢ x.addr) pre (c ∷ post) s.0 ((λ e. a.0 (sym e)), s.1),
      Distinct-with pre c post d.1 a.1 b,
    )

module _ (nodes : ℕ → Option Node) where
  pub Chain-tail : (xs ys : List Cell) → Chain nodes (xs ++ ys) → Chain nodes ys
  Chain-tail [] ys c = c
  Chain-tail (x ∷ xs) ys c = Chain-tail xs ys c.2

  -- The last node of a part, and its link to the next part.
  pub last-node :
      (prev : ℕ) (x : Cell) (xs ys : List Cell)
      → Chain nodes (x ∷ xs ++ ys)
      → (c : Cell) × (nodes (last prev (x ∷ xs)) ≡ some (linked c (first ys)))
        × (last prev (x ∷ xs) ≢ null)
  last-node prev x [] ys c = (x, c.0, c.1)
  last-node prev x (x1 ∷ xs) ys c = last-node x.addr x1 xs ys c.2

  relinked : ℕ → Option Node → Node
  relinked a none = record { key = 0; val = 0; next = a }
  relinked a (some d) = record { key = d.key; val = d.val; next = a }

  -- The end of the first part linked to another second part.
  pub Chain-relink :
      (prev : ℕ) (x : Cell) (xs ys zs : List Cell) (d : Node)
      → nodes (last prev (x ∷ xs)) ≡ some d
      → Chain nodes (x ∷ xs ++ ys)
      → Distinct (x ∷ xs ++ zs)
      → Chain nodes zs
      → Chain
          (update nodes
            (last prev (x ∷ xs))
            (some (record { key = d.key; val = d.val; next = first zs })))
          (x ∷ xs ++ zs)
  unfolding relinked
  Chain-relink prev x [] ys zs d e c dis z = (
    update_self nodes x.addr _ ∙ ap (λ o. some (relinked (first zs) o)) (sym e ∙ c.0),
    c.1,
    Chain-update nodes x.addr _ zs dis.0 z,
  )
  Chain-relink prev x (x1 ∷ xs) ys zs d e c dis z =
      let a = All-split (λ y. y.addr ≢ x.addr) (x1 ∷ xs) zs dis.0 in
      (
        update_ne nodes (last x.addr (x1 ∷ xs)) _ x.addr
              (last-All (λ b. b ≢ x.addr) x.addr x1 xs a.0)
            ∙ c.0,
        c.1,
        Chain-relink x.addr x1 xs ys zs d e c.2 dis.1 z,
      )

  -- A change at one address in the second part.
  pub Chain-replace :
      (a : ℕ) (v : Option Node) (xs ys zs : List Cell)
      → Apart a xs
      → first zs ≡ first ys
      → Chain nodes (xs ++ ys)
      → Chain (update nodes a v) zs
      → Chain (update nodes a v) (xs ++ zs)
  Chain-replace a v [] ys zs p e c z = z
  Chain-replace a v (x ∷ []) ys zs p e c z = (
    update_ne nodes a v x.addr (λ q. p.0 (sym q)) ∙ c.0 ∙ ap (λ w. some (linked x w)) (sym e),
    c.1,
    z,
  )
  Chain-replace a v (x ∷ x1 ∷ xs) ys zs p e c z = (
    update_ne nodes a v x.addr (λ q. p.0 (sym q)) ∙ c.0,
    c.1,
    Chain-replace a v (x1 ∷ xs) ys zs p.1 e c.2 z,
  )
