-- ===== src/Maps/FixedSize/Operations.antt =====
-- pdatastructures/TMHashMapFixedSize.hpp: `innerGet` and `innerRemove` on a map in good order.
use plsf.Prelude.{
  ℕ, suc, ◌≡◌, ◌≢◌, ◌≤◌, refl, arith, Bool, true, false, ◌==◌, Option, none, some, List, [], ◌∷◌,
  length, map, ap, sym, subst, ◌∙◌, update, update_self, update_ne, ==_of_ne, Bool-cases, inl, inr,
}
use native.Mathlib.Nat.{mod-lt}
use plsf.Lists.Nodes.{done}
use plsf.Maps.FixedSize.{Node, HashMap, change, matches, saved, bucket_of, inner_get, inner_remove}
use plsf.Maps.FixedSize.Cells.{
  Cell, first, linked, locate, load_lem, got, removed, get_from_lem, remove_from_lem,
}
use plsf.Maps.FixedSize.Changed.{
  AllAt, value_of, lookup, put_at, eq_of_==, ne_of_==, lookup-put_at-same, lookup-put_at-gone,
}
use plsf.Maps.FixedSize.Found.{Located, locate-cases}
use plsf.Maps.FixedSize.WellFormed.{WellFormed, view, WellFormed-put_at}

-- The map in good order, with at most `n` nodes in a bucket, that stands for the partial function `f`.
unfoldable pub Represents : (ℕ → ℕ) → HashMap → ℕ → (ℕ → Option ℕ) → Type 0
Represents hash m n f =
    (cells : ℕ → List Cell) × (place : ℕ → ℕ) × WellFormed hash m cells place
    × ((h : ℕ) → length (cells h) ≤ n)
    × ((k : ℕ) → view hash m cells k ≡ f k)

abbrev pub is_some : Option ℕ → Bool
is_some none = false
is_some (some v) = true

-- The result of an operation: whether the key had a value, and the old value.
abbrev pub old_in : Bool → ℕ → Option ℕ → ℕ
old_in save old none = old
old_in save old (some v) = saved save old v

pub change_lem :
    (a : ℕ) (f : Node → Node) (m : HashMap) (n : Node)
    → m.nodes a ≡ some n
    → change a f m ≡ done tt (record m { nodes = update m.nodes a (some (f n)) })
unfolding change
change_lem a f m n e = rw (load_lem a m n e) refl

pub matches-other : (k : ℕ) (n : Node) → k ≢ n.key → matches k n ≡ false
matches-other k n e = rw (==_of_ne k n.key e) refl

pub matches-key : (k : ℕ) (n : Node) → matches k n ≡ true → k ≡ n.key
matches-key k n e = elim (Bool-cases (k == n.key)) [
  | inl q ↦ eq_of_== k n.key q
  | inr q ↦ absurd (ground (arith, e, q))
]

pub matches-inactive : (k : ℕ) (n : Node) → n.is_active ≡ 0 → matches k n ≡ false
matches-inactive k n e = elim (Bool-cases (k == n.key)) [
  | inl q ↦ rw (q, e) refl
  | inr q ↦ rw q refl
]

pub length-map : (g : Cell → Cell) (xs : List Cell) → length (map g xs) ≡ length xs
length-map g [] = refl
length-map g (x ∷ xs) = ap suc (length-map g xs)

pub differ : true ≡ false → ⊥
differ e = ground (arith, e)

-- A function that differs from another at one place is its update.
pub updated :
    (g f : ℕ → Option ℕ) (k : ℕ) (o : Option ℕ)
    → g k ≡ o
    → ((j : ℕ) → k ≢ j → g j ≡ f j)
    → (j : ℕ) → g j ≡ update f k o j
updated g f k o e r j = elim (Bool-cases (k == j)) [
  | inl q ↦
      let p = eq_of_== k j q in ap g (sym p) ∙ e ∙ sym (update_self f k o) ∙ ap (update f k o) p
  | inr q ↦ r j (ne_of_== k j q) ∙ sym (update_ne f k o j (ne_of_== k j q))
]

module _ (hash : ℕ → ℕ) (m : HashMap) (n : ℕ) (f : ℕ → Option ℕ) (k old : ℕ) (save : Bool)
    (cells : ℕ → List Cell) (place : ℕ → ℕ) (w : WellFormed hash m cells place)
    (l : (h : ℕ) → length (cells h) ≤ n) (v : (j : ℕ) → view hash m cells j ≡ f j) where
  abbrev pub here : List Cell
  here = cells (bucket_of hash k m)

  pub bucket_lem : m.buckets (bucket_of hash k m) ≡ first here
  bucket_lem = w.starts (bucket_of hash k m) (mod-lt (hash k) w.some_buckets)

  got_lem :
      (o : Option Cell)
      → got old save m o ≡ done (is_some (value_of o), old_in save old (value_of o)) m
  got_lem none = refl
  got_lem (some c) = refl

  pub inner_get_lem :
      inner_get hash (suc n) k old save m ≡ done (is_some (f k), old_in save old (f k)) m
  unfolding inner_get
  inner_get_lem = rw bucket_lem (
      get_from_lem k old save m n here (w.chains (bucket_of hash k m)) (l (bucket_of hash k m))
      ∙ got_lem (locate k here)
      ∙ ap (λ o. done (is_some o, old_in save old o) m) (v k))

  -- The fields of one node change, in such a way that only the key `k` is concerned.
  module _ (a : ℕ) (d d' : Node) (o : Option ℕ) (place' : ℕ → ℕ) (e : m.nodes a ≡ some d)
      (link : d'.next ≡ d.next) (kept : (j : ℕ) → AllAt j (place' j) (cells (bucket_of hash j m)))
      (at : (j : ℕ) → matches j d' ≡ true → a ≡ place' j)
      (others : (j : ℕ) → k ≢ j → (matches j d ≡ false) × (matches j d' ≡ false))
      (new : lookup k (map (put_at a d') here) ≡ o) where
    pub Represents-put_at :
        Represents hash (record m { nodes = update m.nodes a (some d') }) n (update f k o)
    unfolding Represents
    Represents-put_at = (
      (λ h. map (put_at a d') (cells h)),
      place',
      WellFormed-put_at hash m cells place place' w kept a d d' e link at,
      (λ h. subst (λ i. i ≤ n) (sym (length-map (put_at a d') (cells h))) (l h)),
      updated (λ j. lookup j (map (put_at a d') (cells (bucket_of hash j m)))) f k o new
          (λ j q.
            lookup-put_at-same m.nodes a d d' e link j (cells (bucket_of hash j m))
              (w.chains (bucket_of hash j m)) (others j q).0 (others j q).1
            ∙ v j),
    )

  pub value_of-some : (c : Cell) → locate k here ≡ some c → f k ≡ some c.val
  value_of-some c e = sym (v k) ∙ ap value_of e

  pub value_of-none : locate k here ≡ none → f k ≡ none
  value_of-none e = sym (v k) ∙ ap value_of e

  pub same_map : f k ≡ none → Represents hash m n (update f k none)
  unfolding Represents
  same_map e = (cells, place, w, l, updated (view hash m cells) f k none (v k ∙ e) (λ j q. v j))

  -- The place of the key's active nodes is the address of the one located.
  module _ (c : Cell) (r : Located m.nodes k here c) where
    pub located_key : k ≡ c.key
    located_key = matches-key k (linked c r.link) r.match

    pub located_place : c.addr ≡ place k
    located_place = r.only (place k) (w.only k)

    pub others_keep : (j : ℕ) (d : Node) → d.key ≡ c.key → k ≢ j → matches j d ≡ false
    others_keep j d e q = matches-other j d (λ t. q (located_key ∙ sym e ∙ sym t))

    inactive : Node
    inactive = record { key = c.key; val = c.val; next = r.link; is_active = 0 }

    inactive-matches : (j : ℕ) → matches j inactive ≡ false
    unfolding inactive
    inactive-matches j = matches-inactive j inactive refl

    removed-Represents :
        Represents hash
          (record m { nodes = update m.nodes c.addr (some inactive) })
          n
          (update f k none)
    unfolding inactive
    removed-Represents =
        Represents-put_at c.addr (linked c r.link) inactive none place r.node refl w.only
          (λ j t. absurd (differ (sym t ∙ inactive-matches j)))
          (λ j q. (others_keep j (linked c r.link) refl q, inactive-matches j))
          (lookup-put_at-gone m.nodes c.addr (linked c r.link) inactive r.node refl k here
            (subst (λ p. AllAt k p here) (sym located_place) (w.only k)) (inactive-matches k))

    removed_lem :
        removed old save m (some c)
        ≡ done
            (true, saved save old c.val)
            (record m { nodes = update m.nodes c.addr (some inactive) })
    unfolding inactive
    removed_lem =
        rw (change_lem c.addr (λ d. record d { is_active = 0 }) m (linked c r.link) r.node) refl

  pub inner_remove_lem :
      (m' : HashMap) × (inner_remove hash (suc n) k old save m
        ≡ done (is_some (f k), old_in save old (f k)) m')
      × Represents hash m' n (update f k none)
  unfolding inner_remove
  inner_remove_lem =
      let b = bucket_of hash k m in
      let e = remove_from_lem k old save m n here (w.chains b) (l b) in
      elim (locate-cases m.nodes k here (w.chains b)) [
        | inl r ↦ (
          m,
          rw (bucket_lem, value_of-none r.0) (e ∙ ap (removed old save m) r.0),
          same_map (value_of-none r.0),
        )
        | inr r ↦ (
          record m { nodes = update m.nodes r.0.addr (some (inactive r.0 r.2)) },
          rw (bucket_lem, value_of-some r.0 r.1)
              (e ∙ ap (removed old save m) r.1 ∙ removed_lem r.0 r.2),
          removed-Represents r.0 r.2,
        )
      ]
