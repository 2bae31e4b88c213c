-- ===== src/Maps/Resizable/Moving.antt =====
-- pdatastructures/TMHashMap.hpp: one node moves to its new bucket in `rebuild`. The lists of the new
-- buckets come after those of the old ones.
use plsf.Prelude.{
  ℕ, suc, ◌+◌, ◌≡◌, ◌≢◌, ◌≤◌, ◌<◌, ◌%◌, refl, arith, ◌==◌, Option, none, some, List, [], ◌∷◌,
  length, All, ap, sym, subst, ◌∙◌, update, update_self, update_ne, ==_of_ne, ==_self, Bool-cases,
  inl, inr,
}
use native.Mathlib.Nat.{mod-lt}
use plsf.Maps.FixedSize.Changed.{eq_of_==, ne_of_==}
use plsf.Maps.Resizable.{Node}
use plsf.Maps.Resizable.Cells.{Cell, first, linked, Chain}
use plsf.Maps.Resizable.Family.{
  Apart, Distinct, lookup, Owned, Family, Chain-update, Chain-Apart, update-at, Owned-Apart,
  lookup-Apart, Family-one,
}
use plsf.Maps.Resizable.Steps.{or_else}

module _ (hash : ℕ → ℕ) (cap d : ℕ) (nodes0 : ℕ → Option Node) (f : ℕ → Option ℕ) where
  -- A key may be in its old bucket or in its new one.
  abbrev pub Either : ℕ → ℕ → Type 0
  Either t k = (t < cap → hash k % cap ≡ t) × (cap ≤ t → cap + hash k % d ≡ t)

  -- Between two moves: `b` bounds the lists of the new buckets.
  pub record Moving (nodes : ℕ → Option Node) (newbuckets : ℕ → ℕ) (lists : ℕ → List Cell)
      (own place : ℕ → ℕ) (b : ℕ) : Type 0 where
    pub family : Family Either own place nodes lists
    pub fronts : (h : ℕ) → h < d → newbuckets h ≡ first (lists (cap + h))
    pub short : (h : ℕ) → length (lists (cap + h)) ≤ b
    pub values :
        (k : ℕ)
        → or_else (lookup k (lists (cap + hash k % d))) (lookup k (lists (hash k % cap))) ≡ f k
    pub free : (a : ℕ) → nodes0 a ≡ none → nodes a ≡ none

module _ {hash : ℕ → ℕ} {cap d : ℕ} {nodes0 : ℕ → Option Node} {f : ℕ → Option ℕ} (positive : 0 < d)
    {nodes : ℕ → Option Node} {nb : ℕ → ℕ} {lists : ℕ → List Cell} {own place : ℕ → ℕ} {b : ℕ}
    (g : Moving hash cap d nodes0 f nodes nb lists own place b) {i : ℕ} (low : i < cap) {x : Cell}
    {xs : List Cell} (e : lists i ≡ x ∷ xs) where
  abbrev Place : ℕ → ℕ → Type 0
  Place = Either hash cap d nodes0 f

  abbrev pub new_bucket : ℕ
  new_bucket = hash x.key % d

  abbrev T : ℕ
  T = cap + new_bucket

  abbrev pub nodes' : ℕ → Option Node
  nodes' = update nodes x.addr (some (linked x (nb new_bucket)))

  abbrev middle : ℕ → List Cell
  middle = update lists i xs

  abbrev pub lists' : ℕ → List Cell
  lists' = update middle T (x ∷ lists T)

  abbrev pub own' : ℕ → ℕ
  own' = update own x.addr T

  apart : i ≢ T
  apart = omega (arith, low)

  pub chain : Chain nodes (x ∷ xs)
  chain = subst (Chain nodes) e (g.family.chains i)

  cells : All (Owned Place own place i) (x ∷ xs)
  cells = subst (All (Owned Place own place i)) e (g.family.cells i)

  -- The list without its first node.
  middle-Family : Family Place own place nodes middle
  middle-Family =
      Family-one Place own place own place nodes nodes lists i xs g.family chain.2 cells.1
        (subst Distinct e (g.family.distinct i)).1 (λ u q. (g.family.chains u, g.family.cells u))

  middle-Apart : (u : ℕ) → Apart x.addr (middle u)
  middle-Apart u =
      update-at (λ j. Apart x.addr) lists i xs u (subst Distinct e (g.family.distinct i)).0
        (λ q.
          Owned-Apart Place own place u x.addr (lists u) (g.family.cells u)
            (λ r. q (sym cells.0.0 ∙ r)))

  new-Apart : Apart x.addr (lists T)
  new-Apart =
      Owned-Apart Place own place T x.addr (lists T) (g.family.cells T)
        (λ r. apart (sym cells.0.0 ∙ r))

  Owned-moved :
      (u : ℕ) (zs : List Cell)
      → All (Owned Place own place u) zs
      → Apart x.addr zs
      → All (Owned Place own' place u) zs
  Owned-moved u [] o p = tt
  Owned-moved u (z ∷ zs) o p = (
    (update_ne own x.addr T z.addr (λ q. p.0 (sym q)) ∙ o.0.0, o.0.1, o.0.2),
    Owned-moved u zs o.1 p.1,
  )

  moved-Family : Family Place own' place nodes' lists'
  moved-Family =
      let o = some (linked x (nb new_bucket)) in
      Family-one Place own place own' place nodes nodes' middle T (x ∷ lists T) middle-Family
        (
          update_self nodes x.addr o
              ∙ ap (λ a. some (linked x a)) (g.fronts new_bucket (mod-lt (hash x.key) positive)),
          chain.1,
          Chain-update nodes x.addr o (lists T) new-Apart (g.family.chains T),
        )
        (
          (update_self own x.addr T, cells.0.1, ((λ q. absurd (omega (arith, q))), (λ q. refl))),
          Owned-moved T (lists T) (g.family.cells T) new-Apart,
        )
        (new-Apart, g.family.distinct T)
        (λ u q. (
          Chain-update nodes x.addr o (middle u) (middle-Apart u) (middle-Family.chains u),
          Owned-moved u (middle u) (middle-Family.cells u) (middle-Apart u),
        ))

  other-value : (k u : ℕ) → k ≢ x.key → lookup k (lists' u) ≡ lookup k (lists u)
  other-value k u q =
      update-at (λ j zs. lookup k zs ≡ lookup k (lists j)) middle T (x ∷ lists T) u
        (rw (==_of_ne k x.key q) refl)
        (λ r.
          update-at (λ j zs. lookup k zs ≡ lookup k (lists j)) lists i xs u
            (sym (ap (lookup k) e ∙ rw (==_of_ne k x.key q) refl)) (λ s. refl))

  key-value : or_else (lookup x.key (lists' T)) (lookup x.key (lists' (hash x.key % cap))) ≡ f x.key
  key-value = rw (update_self middle T (x ∷ lists T)) (
      rw (==_self x.key) (
        sym (
          rw
            (lookup-Apart Place own place T x.key (lists T) (g.family.cells T)
              (subst (λ a. Apart a (lists T)) (sym cells.0.1) new-Apart))
            (rw (cells.0.2.0 low) (ap (lookup x.key) e ∙ rw (==_self x.key) refl)))
        ∙ g.values x.key))

  pub lists'-here : lists' i ≡ xs
  lists'-here = update_ne middle T (x ∷ lists T) i (λ q. apart (sym q)) ∙ update_self lists i xs

  pub lists'-old : (u : ℕ) → u < cap → i ≢ u → lists' u ≡ lists u
  lists'-old u lt q =
      update_ne middle T (x ∷ lists T) u (omega (arith, lt)) ∙ update_ne lists i xs u q

  front : (h : ℕ) → h < d → update nb new_bucket x.addr h ≡ first (lists' (cap + h))
  front h lt = elim (Bool-cases (new_bucket == h)) [
    | inl q ↦
        subst (λ j. update nb new_bucket x.addr j ≡ first (lists' (cap + j)))
          (eq_of_== new_bucket h q)
          (update_self nb new_bucket x.addr ∙ sym (ap first (update_self middle T (x ∷ lists T))))
    | inr q ↦
        let r = ne_of_== new_bucket h q in
        update_ne nb new_bucket x.addr h r
        ∙ g.fronts h lt
        ∙ ap first (
            sym (update_ne lists i xs (cap + h) (omega (arith, low)))
            ∙ sym (update_ne middle T (x ∷ lists T) (cap + h) (omega (arith, r))))
  ]

  pub moved :
      Moving hash cap d nodes0 f nodes' (update nb new_bucket x.addr) lists' own' place (suc b)
  moved = record {
    family = moved-Family;
    fronts = front;
    short = λ h.
        update-at (λ j zs. cap ≤ j → length zs ≤ suc b) middle T (x ∷ lists T) (cap + h)
          (λ q. omega (arith, g.short new_bucket))
          (λ r q.
            subst (λ zs. length zs ≤ suc b)
              (sym (update_ne lists i xs (cap + h) (omega (arith, low))))
              (omega (arith, g.short h)))
          (omega arith);
    values = λ k. elim (Bool-cases (k == x.key)) [
      | inl q ↦
          subst
            (λ j.
              or_else (lookup j (lists' (cap + hash j % d))) (lookup j (lists' (hash j % cap)))
              ≡ f j)
            (sym (eq_of_== k x.key q)) key-value
      | inr q ↦
          let r = ne_of_== k x.key q in
          rw (other-value k (cap + hash k % d) r, other-value k (hash k % cap) r) (g.values k)
    ];
    free = λ a q.
        update_ne nodes x.addr (some (linked x (nb new_bucket))) a
          (λ r. (Chain-Apart nodes a (x ∷ xs) (g.free a q) chain).0 r)
        ∙ g.free a q;
  }
