-- ===== src/Maps/FixedSize/Refinement.antt =====
-- pdatastructures/TMHashMapFixedSize.hpp: the hash map as a partial function from keys to values.
use plsf.Prelude.{
  ℕ, suc, ◌≡◌, ◌≢◌, ◌≤◌, refl, arith, Bool, true, not, Option, none, some, List, [], ◌∷◌, length,
  ap, sym, subst, ◌∙◌, update, inl, inr, ◌⊎◌,
}
use plsf.Lists.Nodes.{null, done}
use plsf.Maps.FixedSize.{HashMap, bucket_of, inner_get, inner_put, inner_remove, put_last}
use plsf.Maps.FixedSize.Cells.{
  Cell, first, linked, Chain, locate, stored, put_from_lem, last, reusable,
}
use plsf.Maps.FixedSize.Changed.{AllAt}
use plsf.Maps.FixedSize.Found.{Located, locate-cases, Reusable, reusable-cases, last-node}
use plsf.Maps.FixedSize.WellFormed.{WellFormed, view}
use plsf.Maps.FixedSize.Operations.{
  Represents, is_some, old_in, change_lem, bucket_lem, value_of-some, value_of-none, inner_get_lem,
  inner_remove_lem,
}
use plsf.Maps.FixedSize.Last.{put_last-reused, put_last-first, put_last-appended}
use plsf.Maps.FixedSize.Putting.{
  with_value, replaced-Represents, reused-Represents, first-Represents, appended-Represents,
}

List-cases : (xs : List Cell) → (xs ≡ []) ⊎ ((y : Cell) × (ys : List Cell) × (xs ≡ y ∷ ys))
List-cases [] = inl refl
List-cases (y ∷ ys) = inr (y, ys, refl)

Represents-more :
    (hash : ℕ → ℕ) (m : HashMap) (n : ℕ) (f : ℕ → Option ℕ)
    → Represents hash m n f
    → Represents hash m (suc n) f
unfolding Represents
Represents-more hash m n f r = (r.0, r.1, r.2, (λ h. omega (arith, r.3 h)), r.4)

module _ (hash : ℕ → ℕ) (m : HashMap) (n : ℕ) (f : ℕ → Option ℕ) (k old : ℕ) (save : Bool)
    (cells : ℕ → List Cell) (place : ℕ → ℕ) (w : WellFormed hash m cells place)
    (l : (h : ℕ) → length (cells h) ≤ n) (v : (j : ℕ) → view hash m cells j ≡ f j) (val a : ℕ)
    (z : a ≢ null) (u : m.nodes a ≡ none) where
  abbrev bucket : ℕ
  bucket = bucket_of hash k m

  abbrev xs : List Cell
  xs = cells bucket

  abbrev Puts : Type 0
  Puts =
      (m' : HashMap) × (inner_put hash a (suc n) k val old save m
        ≡ done (not (is_some (f k)), old_in save old (f k)) m')
      × Represents hash m' (suc n) (update f k (some val))

  put_lem :
      inner_put hash a (suc n) k val old save m
      ≡ stored
          (put_last a k val bucket (last (first xs) xs) (reusable null xs) m)
          val
          old
          save
          m
          (locate k xs)
  unfolding inner_put
  put_lem =
      rw (bucket_lem hash m n f k old save cells place w l v)
        (put_from_lem k old save m a val bucket n (first xs) null xs (w.chains bucket) (l bucket))

  put-found : (c : Cell) → locate k xs ≡ some c → Located m.nodes k xs c → Puts
  put-found c e r = (
    record m {
      nodes =
          update m.nodes c.addr (some (with_value hash m n f k old save cells place w l v val c r));
    },
    rw (value_of-some hash m n f k old save cells place w l v c e) (
        put_lem
        ∙ ap
            (stored (put_last a k val bucket (last (first xs) xs) (reusable null xs) m) val old save
              m)
            e
        ∙ rw (change_lem c.addr (λ d. record d { val = val }) m (linked c r.link) r.node) refl),
    Represents-more hash _ n _
        (replaced-Represents hash m n f k old save cells place w l v val c r),
  )

  module _ (e : locate k xs ≡ none) (only : (p : ℕ) → AllAt k p xs) where
    -- The result where the key is not there, from the state that the end of the loop leaves.
    put-new :
        (m' : HashMap)
        → put_last a k val bucket (last (first xs) xs) (reusable null xs) m ≡ done true m'
        → Represents hash m' (suc n) (update f k (some val))
        → Puts
    put-new m' q r = (
      m',
      rw (value_of-none hash m n f k old save cells place w l v e) (
          put_lem
          ∙ ap
              (stored (put_last a k val bucket (last (first xs) xs) (reusable null xs) m) val old
                save m)
              e
          ∙ rw q refl),
      r,
    )

    put-reused : Reusable m.nodes k (reusable null xs) xs → Puts
    put-reused r =
        put-new _
          (put_last-reused a k val bucket m (last (first xs) xs) (reusable null xs) r.0 r.1 r.2 r.3
            r.4)
          (Represents-more hash _ n _ (
            reused-Represents hash m n f k old save cells place w l v val e only (reusable null xs)
              r))

    put-first : reusable null xs ≡ null → xs ≡ [] → Puts
    put-first q g =
        put-new _
          (ap (λ ys. put_last a k val bucket (last (first ys) ys) (reusable null ys) m) g
            ∙ put_last-first a k val bucket m)
          (first-Represents hash m n f k old save cells place w l v val e only a z u g)

    put-appended : reusable null xs ≡ null → (y : Cell) (ys : List Cell) → xs ≡ y ∷ ys → Puts
    put-appended q y ys g =
        let p = last (first xs) xs in
        let d = last-node m.nodes k (first xs) y ys (subst (Chain m.nodes) g (w.chains bucket)) in
        let at = ap (last (first xs)) g in
        let node = ap m.nodes at ∙ d.1 in
        put-new _
          (ap (λ r. put_last a k val bucket p r m) q
            ∙ put_last-appended a k val bucket m p (linked d.0 null) node (λ t. d.2 (sym at ∙ t)) u)
          (appended-Represents hash m n f k old save cells place w l v val e only a z u y ys g p
            (linked d.0 null) node refl refl)

  put-cases : Puts
  put-cases = elim (locate-cases m.nodes k xs (w.chains bucket)) [
    | inr r ↦ put-found r.0 r.1 r.2
    | inl r ↦ elim (reusable-cases m.nodes k xs (w.chains bucket) r.0) [
      | inr q ↦ put-reused r.0 r.1 q
      | inl q ↦ elim (List-cases xs) [
        | inl g ↦ put-first r.0 r.1 q g
        | inr g ↦ put-appended r.0 r.1 q g.0 g.1 g.2
      ]
    ]
  ]

-- `TMHashMapFixedSize` is a map: on one that stands for the partial function `f`, with at most `n` nodes
-- in a bucket and `n + 1` rounds of the loops, `innerGet` says whether the key has a value and leaves the
-- map; `innerPut` says whether it has none, and the map then stands for `f` with the value at the key;
-- `innerRemove` says whether it has one, and the map then stands for `f` without it. Each gives the
-- value the key had, if there is one and it is asked for. None of them meets an address that holds
-- no node or fails the assertion of `innerPut`, whatever the hash function and though removed nodes
-- stay in their lists and are used again. The address that `malloc` gives is not null and holds no
-- node yet.
pub fixed_map_refinement :
    (hash : ℕ → ℕ) (m : HashMap) (n : ℕ) (f : ℕ → Option ℕ) (k old : ℕ) (save : Bool)
    (val new_node : ℕ)
    → Represents hash m n f
    → new_node ≢ null
    → m.nodes new_node ≡ none
    → (inner_get hash (suc n) k old save m ≡ done (is_some (f k), old_in save old (f k)) m)
      × ((m' : HashMap) × (inner_put hash new_node (suc n) k val old save m
            ≡ done (not (is_some (f k)), old_in save old (f k)) m')
          × Represents hash m' (suc n) (update f k (some val)))
      × ((m' : HashMap) × (inner_remove hash (suc n) k old save m
            ≡ done (is_some (f k), old_in save old (f k)) m')
          × Represents hash m' n (update f k none))
unfolding Represents
fixed_map_refinement hash m n f k old save val a r z u = (
  inner_get_lem hash m n f k old save r.0 r.1 r.2 r.3 r.4,
  put-cases hash m n f k old save r.0 r.1 r.2 r.3 r.4 val a z u,
  inner_remove_lem hash m n f k old save r.0 r.1 r.2 r.3 r.4,
)
