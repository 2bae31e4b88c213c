-- ===== src/Maps/Resizable/Family.antt =====
-- pdatastructures/TMHashMap.hpp: the lists of all buckets, apart from each other.
use plsf.Prelude.{
  ℕ, ◌≡◌, ◌≢◌, refl, arith, Bool, true, false, ◌==◌, if◌then◌else◌, Option, none, some, List, [],
  ◌∷◌, All, ap, sym, subst, ◌∙◌, update, update_self, update_ne, ==_of_ne, Bool-cases, inl, inr,
}
use plsf.Maps.FixedSize.Changed.{eq_of_==, ne_of_==}
use plsf.Maps.Resizable.{Node}
use plsf.Maps.Resizable.Cells.{Cell, Chain}

abbrev pub Apart : ℕ → List Cell → Type 0
Apart a xs = All (λ x. x.addr ≢ a) xs

abbrev pub Distinct : List Cell → Type 0
Distinct [] = Unit
Distinct (x ∷ xs) = Apart x.addr xs × Distinct xs

-- The value of the first cell with the key.
abbrev pub lookup : ℕ → List Cell → Option ℕ
lookup k [] = none
lookup k (x ∷ xs) = if k == x.key then some x.val else lookup k xs

-- A cell of the list `t`: `own` says in which list an address is, `place` where a key is, and `home` in
-- which lists a key may be.
abbrev pub Owned : (home : ℕ → ℕ → Type 0) (own place : ℕ → ℕ) → ℕ → Cell → Type 0
Owned home own place t x = (own x.addr ≡ t) × (place x.key ≡ x.addr) × home t x.key

pub record Family (home : ℕ → ℕ → Type 0) (own place : ℕ → ℕ) (nodes : ℕ → Option Node)
    (lists : ℕ → List Cell) : Type 0 where
  pub chains : (t : ℕ) → Chain nodes (lists t)
  pub cells : (t : ℕ) → All (Owned home own place t) (lists t)
  pub distinct : (t : ℕ) → Distinct (lists t)

pub Chain-update :
    (nodes : ℕ → Option Node) (a : ℕ) (v : Option Node) (xs : List Cell)
    → Apart a xs
    → Chain nodes xs
    → Chain (update nodes a v) xs
Chain-update nodes a v [] p c = tt
Chain-update nodes a v (x ∷ xs) p c =
    (update_ne nodes a v x.addr (λ e. p.0 (sym e)) ∙ c.0, c.1, Chain-update nodes a v xs p.1 c.2)

is_some : Option Node → Bool
is_some none = false
is_some (some n) = true

differ : true ≡ false → ⊥
differ e = ground (arith, e)

-- An address that holds no node is apart from the nodes of a list.
pub Chain-Apart :
    (nodes : ℕ → Option Node) (a : ℕ) (xs : List Cell)
    → nodes a ≡ none
    → Chain nodes xs
    → Apart a xs
unfolding is_some
Chain-Apart nodes a [] e c = tt
Chain-Apart nodes a (x ∷ xs) e c =
    ((λ q. differ (ap is_some (sym c.0 ∙ ap nodes q ∙ e))), Chain-Apart nodes a xs e c.2)

pub update-at :
    (P : ℕ → List Cell → Type 0) (lists : ℕ → List Cell) (t : ℕ) (ys : List Cell) (u : ℕ)
    → P t ys
    → (t ≢ u → P u (lists u))
    → P u (update lists t ys u)
update-at P lists t ys u new old = elim (Bool-cases (t == u)) [
  | inl q ↦
      subst (λ i. P i (update lists t ys i)) (eq_of_== t u q)
        (subst (P t) (sym (update_self lists t ys)) new)
  | inr q ↦ subst (P u) (sym (update_ne lists t ys u (ne_of_== t u q))) (old (ne_of_== t u q))
]

module _ (home : ℕ → ℕ → Type 0) (own place : ℕ → ℕ) where
  pub Owned-Apart :
      (t a : ℕ) (xs : List Cell) → All (Owned home own place t) xs → own a ≢ t → Apart a xs
  Owned-Apart t a [] c n = tt
  Owned-Apart t a (x ∷ xs) c n = ((λ e. n (ap own (sym e) ∙ c.0.0)), Owned-Apart t a xs c.1 n)

  -- A key whose place is not in the list is not there.
  pub lookup-Apart :
      (t k : ℕ) (xs : List Cell)
      → All (Owned home own place t) xs
      → Apart (place k) xs
      → lookup k xs ≡ none
  lookup-Apart t k [] c p = refl
  lookup-Apart t k (x ∷ xs) c p =
      rw (==_of_ne k x.key (λ e. p.0 (sym c.0.1 ∙ ap place (sym e)))) (lookup-Apart t k xs c.1 p.1)

  -- One list changes; the others keep their nodes and owners.
  pub Family-one :
      (own' place' : ℕ → ℕ) (nodes nodes' : ℕ → Option Node) (lists : ℕ → List Cell) (t : ℕ)
      (ys : List Cell)
      → Family home own place nodes lists
      → Chain nodes' ys
      → All (Owned home own' place' t) ys
      → Distinct ys
      → ((u : ℕ) → t ≢ u → Chain nodes' (lists u) × All (Owned home own' place' u) (lists u))
      → Family home own' place' nodes' (update lists t ys)
  Family-one own' place' nodes nodes' lists t ys f c o d others = record {
    chains = λ u. update-at (λ i. Chain nodes') lists t ys u c (λ n. (others u n).0);
    cells =
        λ u. update-at (λ i. All (Owned home own' place' i)) lists t ys u o (λ n. (others u n).1);
    distinct = λ u. update-at (λ i. Distinct) lists t ys u d (λ n. f.distinct u);
  }
