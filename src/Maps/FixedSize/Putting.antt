-- ===== src/Maps/FixedSize/Putting.antt =====
-- pdatastructures/TMHashMapFixedSize.hpp: `innerPut` on a map in good order.
use plsf.Prelude.{
  ℕ, suc, ◌≡◌, ◌≢◌, ◌≤◌, refl, arith, Bool, true, false, ◌==◌, Option, none, some, List, [], ◌∷◌,
  length, ap, sym, subst, ◌∙◌, update, update_self, update_ne, ==_self, Bool-cases, inl, inr,
}
use plsf.Lists.Nodes.{null}
use plsf.Maps.FixedSize.{Node, HashMap, matches, bucket_of}
use plsf.Maps.FixedSize.Cells.{Cell, first, linked, is_match, locate, last}
use plsf.Maps.FixedSize.Changed.{
  AllAt, lookup, eq_of_==, ne_of_==, lookup-here, lookup-skip, lookup-put_at-new,
}
use plsf.Maps.FixedSize.Found.{Located, Reusable}
use plsf.Maps.FixedSize.Appended.{
  append_at, length-append_at, lookup-append_at-same, lookup-append_at-new, appended,
}
use plsf.Maps.FixedSize.WellFormed.{
  WellFormed, view, update-holds, WellFormed-append_at, WellFormed-first, with_first,
}
use plsf.Maps.FixedSize.Operations.{
  Represents, matches-other, matches-key, matches-inactive, updated, Represents-put_at, located_key,
  located_place, others_keep,
}

module _ (hash : ℕ → ℕ) (m : HashMap) (n : ℕ) (f : ℕ → Option ℕ) (k old : ℕ) (save : Bool)
    (cells : ℕ → List Cell) (place : ℕ → ℕ) (w : WellFormed hash m cells place)
    (l : (h : ℕ) → length (cells h) ≤ n) (v : (j : ℕ) → view hash m cells j ≡ f j) (val : ℕ) where
  abbrev pub list : List Cell
  list = cells (bucket_of hash k m)

  -- The key is there: its value is replaced.
  module _ (c : Cell) (r : Located m.nodes k list c) where
    abbrev pub with_value : Node
    with_value = record { key = c.key; val = val; next = r.link; is_active = c.is_active }

    pub replaced-Represents :
        Represents hash
          (record m { nodes = update m.nodes c.addr (some with_value) })
          n
          (update f k (some val))
    replaced-Represents =
        Represents-put_at hash m n f k old save cells place w l v c.addr (linked c r.link)
          with_value (some val) place r.node refl w.only
          (λ j t.
            located_place hash m n f k old save cells place w l v c r
            ∙ ap place (
                located_key hash m n f k old save cells place w l v c r
                ∙ sym (matches-key j with_value t)))
          (λ j q. (
            others_keep hash m n f k old save cells place w l v c r j (linked c r.link) refl q,
            others_keep hash m n f k old save cells place w l v c r j with_value refl q,
          ))
          (lookup-put_at-new m.nodes c.addr (linked c r.link) with_value r.node refl k list
            r.reaches r.match)

  -- The key is not there, and its node is a new one or one for replacement.
  module _ (e : locate k list ≡ none) (only : (p : ℕ) → AllAt k p list) where
    pub kept_but_one : (a j : ℕ) → AllAt j (update place k a j) (cells (bucket_of hash j m))
    kept_but_one a j = elim (Bool-cases (k == j)) [
      | inl q ↦
          subst (λ i. AllAt i (update place k a i) (cells (bucket_of hash i m))) (eq_of_== k j q)
            (only (update place k a k))
      | inr q ↦
          subst (λ p. AllAt j p (cells (bucket_of hash j m)))
            (sym (update_ne place k a j (ne_of_== k j q))) (w.only j)
    ]

    abbrev pub active : ℕ → Node
    active next = record { key = k; val = val; next = next; is_active = 1 }

    active-matches : (next : ℕ) → matches k (active next) ≡ true
    active-matches next = rw (==_self k) refl

    active-place : (a next j : ℕ) → matches j (active next) ≡ true → a ≡ update place k a j
    active-place a next j t =
        sym (update_self place k a) ∙ ap (update place k a) (sym (matches-key j (active next) t))

    active-others : (next j : ℕ) → k ≢ j → matches j (active next) ≡ false
    active-others next j q = matches-other j (active next) (λ t. q (sym t))

    module _ (a : ℕ) (r : Reusable m.nodes k a list) where
      pub reused-Represents :
          Represents hash
            (record m { nodes = update m.nodes a (some (active r.1)) })
            n
            (update f k (some val))
      reused-Represents =
          Represents-put_at hash m n f k old save cells place w l v a (linked r.0 r.1) (active r.1)
            (some val) (update place k a) r.2 refl (kept_but_one a) (active-place a r.1)
            (λ j q. (matches-inactive j (linked r.0 r.1) r.3, active-others r.1 j q))
            (lookup-put_at-new m.nodes a (linked r.0 r.1) (active r.1) r.2 refl k list r.5
              (active-matches r.1))

    module _ (a : ℕ) (z : a ≢ null) (u : m.nodes a ≡ none) where
      abbrev pub new_cell : Cell
      new_cell = record { addr = a; key = k; val = val; is_active = 1 }

      new_others : (j : ℕ) → k ≢ j → is_match j new_cell ≡ false
      new_others j q = matches-other j (linked new_cell null) (λ t. q (sym t))

      new_match : is_match k new_cell ≡ true
      new_match = rw (==_self k) refl

      pub new_place : (j : ℕ) → is_match j new_cell ≡ true → a ≡ update place k a j
      new_place j t =
          sym (update_self place k a)
          ∙ ap (update place k a) (sym (matches-key j (linked new_cell null) t))

      first-others :
          list ≡ []
          → (j : ℕ) → k ≢ j
          → lookup j (update cells (bucket_of hash k m) (new_cell ∷ []) (bucket_of hash j m)) ≡ f j
      first-others e0 j q =
          let b = bucket_of hash k m in
          elim (Bool-cases (b == bucket_of hash j m)) [
            | inl p ↦
                let r = eq_of_== b (bucket_of hash j m) p in
                ap (λ i. lookup j (update cells b (new_cell ∷ []) i)) (sym r)
                ∙ ap (lookup j) (update_self cells b (new_cell ∷ []))
                ∙ lookup-skip j new_cell [] (new_others j q)
                ∙ sym (ap (lookup j) e0)
                ∙ ap (λ i. lookup j (cells i)) r
                ∙ v j
            | inr p ↦
                ap (lookup j) (
                  update_ne cells b (new_cell ∷ []) (bucket_of hash j m)
                    (ne_of_== b (bucket_of hash j m) p))
                ∙ v j
          ]

      pub first-Represents :
          list ≡ []
          → Represents hash
              (with_first hash m cells place
                (update place k a)
                w
                (kept_but_one a)
                new_cell
                u
                z
                new_place
                (bucket_of hash k m))
              (suc n)
              (update f k (some val))
      unfolding Represents
      first-Represents q = (
        update cells (bucket_of hash k m) (new_cell ∷ []),
        update place k a,
        WellFormed-first hash m cells place (update place k a) w (kept_but_one a) new_cell u z
            new_place (bucket_of hash k m),
        (λ h.
            update-holds (λ xs. length xs ≤ suc n) cells (bucket_of hash k m) (new_cell ∷ []) h
              (omega arith) (omega (arith, l h))),
        updated
            (λ j. lookup j (update cells (bucket_of hash k m) (new_cell ∷ []) (bucket_of hash j m)))
            f k (some val)
            (ap (lookup k) (update_self cells (bucket_of hash k m) (new_cell ∷ []))
              ∙ lookup-here k new_cell [] new_match)
            (first-others q),
      )

      pub appended-Represents :
          (x : Cell) (xs : List Cell) (q : list ≡ x ∷ xs)
          → (p : ℕ) (d : Node) (e' : m.nodes p ≡ some d) (t : d.next ≡ null)
          → last (first list) list ≡ p
          → Represents hash
              (record m { nodes = appended m.nodes new_cell p d e' t u z })
              (suc n)
              (update f k (some val))
      unfolding Represents
      appended-Represents x xs q p d e' t o = (
        (λ h. append_at p new_cell (cells h)),
        update place k a,
        WellFormed-append_at hash m cells place (update place k a) w (kept_but_one a) new_cell u z
            new_place p d e' t,
        (λ h. omega (arith, length-append_at new_cell p (cells h), l h)),
        updated (λ j. lookup j (append_at p new_cell (cells (bucket_of hash j m)))) f k (some val)
            (ap (λ zs. lookup k (append_at p new_cell zs)) q
              ∙ lookup-append_at-new new_cell p k (first list) x xs (sym (ap (locate k) q) ∙ e)
                  (sym (ap (last (first list)) q) ∙ o) new_match)
            (λ j r.
              lookup-append_at-same new_cell p j (cells (bucket_of hash j m)) (new_others j r)
              ∙ v j),
      )
