-- ===== src/Maps/Resizable/Appends.antt =====
-- pdatastructures/TMHashMap.hpp: the list of a bucket with a new node at its end.
use plsf.Prelude.{
  ℕ, suc, ◌+◌, ◌^◌, ◌≡◌, ◌≢◌, ◌%◌, refl, arith, true, ◌==◌, Option, none, some, List, [], ◌∷◌, ◌++◌,
  append-nil, length-append, All, ap, sym, subst, ◌∙◌, update, update_self, update_ne, ==_of_ne,
  ==_self, Bool-cases, inl, inr,
}
use plsf.Lists.Nodes.{null, done}
use plsf.Maps.Resizable.{Node, HashMap, put_last}
use plsf.Maps.Resizable.Cells.{Cell, first, linked, Chain}
use plsf.Maps.Resizable.Family.{Apart, Distinct, lookup, Owned, Chain-update, Chain-Apart}
use plsf.Maps.Resizable.Steps.{
  last, last-All, or_else, lookup-append, All-join, Distinct-with, last-node, Chain-relink,
}
use plsf.Maps.Resizable.View.{Home, Represents, Represents-one, Changed}
use plsf.Maps.Resizable.Hits.{start_lem, Chain-other, Owned-own}
use plsf.Maps.Resizable.Cuts.{change_lem}

abbrev NotKey : ℕ → List Cell → Type 0
NotKey k xs = All (λ x. k ≢ x.key) xs

lookup-NotKey : (k : ℕ) (xs : List Cell) → lookup k xs ≡ none → NotKey k xs
lookup-NotKey k [] e = tt
lookup-NotKey k (x ∷ xs) e = elim (Bool-cases (k == x.key)) [
  | inl q ↦ absurd (ground (arith, e, q))
  | inr q ↦ ((λ r. ground (arith, q, r)), lookup-NotKey k xs (rw (sym e, q) refl))
]

or_else-none : (o : Option ℕ) → or_else o none ≡ o
or_else-none none = refl
or_else-none (some v) = refl

module _ {hash : ℕ → ℕ} {m : HashMap} {n : ℕ} {f : ℕ → Option ℕ} (k : ℕ) (g : Represents hash m n f)
    (a val : ℕ) (z : a ≢ null) (u : m.nodes a ≡ none)
    (absent : lookup k (g.lists (hash k % m.capacity)) ≡ none) where
  abbrev t : ℕ
  t = hash k % m.capacity

  abbrev y : Cell
  y = record { addr = a; key = k; val = val }

  abbrev nodes1 : ℕ → Option Node
  nodes1 = update m.nodes a (some (linked y null))

  abbrev own' : ℕ → ℕ
  own' = update g.own a t

  abbrev place' : ℕ → ℕ
  place' = update g.place k a

  new-Apart : (i : ℕ) → Apart a (g.lists i)
  new-Apart i = Chain-Apart m.nodes a (g.lists i) u (g.family.chains i)

  Owned-kept :
      (i : ℕ) (xs : List Cell)
      → All (Owned (Home hash m.capacity) g.own g.place i) xs
      → Apart a xs
      → NotKey k xs
      → All (Owned (Home hash m.capacity) own' place' i) xs
  Owned-kept i [] o p q = tt
  Owned-kept i (x ∷ xs) o p q = (
    (
      update_ne g.own a t x.addr (λ e. p.0 (sym e)) ∙ o.0.0,
      update_ne g.place k a x.key q.0 ∙ o.0.1,
      o.0.2,
    ),
    Owned-kept i xs o.1 p.1 q.1,
  )

  other-NotKey :
      (i : ℕ) (xs : List Cell)
      → t ≢ i
      → All (Owned (Home hash m.capacity) g.own g.place i) xs
      → NotKey k xs
  other-NotKey i [] d o = tt
  other-NotKey i (x ∷ xs) d o =
      ((λ e. d (ap (λ j. hash j % m.capacity) e ∙ o.0.2)), other-NotKey i xs d o.1)

  append-Changed :
      (nodes' : ℕ → Option Node) (buckets' : ℕ → ℕ)
      → Chain nodes' (g.lists t ++ y ∷ [])
      → ((i : ℕ) → t ≢ i → Chain nodes' (g.lists i))
      → buckets' t ≡ first (g.lists t ++ y ∷ [])
      → ((i : ℕ) → t ≢ i → buckets' i ≡ m.buckets i)
      → Changed k g nodes' buckets' own' place' (g.lists t ++ y ∷ []) (some val) (suc n)
  append-Changed nodes' buckets' c others s os = record {
    chain = c;
    owned =
        All-join (Owned (Home hash m.capacity) own' place' t) (g.lists t) (y ∷ [])
          (Owned-kept t (g.lists t) (g.family.cells t) (new-Apart t)
            (lookup-NotKey k (g.lists t) absent))
          ((update_self g.own a t, update_self g.place k a, refl), tt);
    distinct =
        Distinct-with (g.lists t) y []
          (subst Distinct (sym (append-nil (g.lists t))) (g.family.distinct t)) (new-Apart t) tt;
    others = λ i d. (
      others i d,
      Owned-kept i (g.lists i) (g.family.cells i) (new-Apart i)
          (other-NotKey i (g.lists i) d (g.family.cells i)),
    );
    start = s;
    other_starts = os;
    value = lookup-append k (g.lists t) (y ∷ []) ∙ rw absent (rw (==_self k) refl);
    other_values = λ j q.
        lookup-append j (g.lists t) (y ∷ [])
        ∙ rw (==_of_ne j k (λ e. q (sym e))) (or_else-none (lookup j (g.lists t)));
    short = omega (arith, length-append (g.lists t) (y ∷ []), g.short t);
    more = omega arith;
  }

  abbrev pub Appends : Type 0
  Appends =
      (m' : HashMap) × (put_last hash a k val t (last (first (g.lists t)) (g.lists t)) m
        ≡ done true m')
      × Represents hash m' (suc n) (update f k (some val))

  new-Chain : Chain nodes1 (y ∷ [])
  new-Chain = (update_self m.nodes a (some (linked y null)), z, tt)

  old-Chain : (i : ℕ) → Chain nodes1 (g.lists i)
  old-Chain i =
      Chain-update m.nodes a (some (linked y null)) (g.lists i) (new-Apart i) (g.family.chains i)

  abbrev size' : ℕ
  size' = (m.size_hm + 1) % 2 ^ 64

  append-first : g.lists t ≡ [] → Appends
  unfolding put_last
  append-first e =
      let b = update m.buckets t a in
      (
        record m { nodes = nodes1; buckets = b; size_hm = size' },
        rw e refl,
        Represents-one k g nodes1 b own' place' _ (some val) (suc n) size' (
            append-Changed nodes1 b (subst (λ xs. Chain nodes1 (xs ++ y ∷ [])) (sym e) new-Chain)
              (λ i d. old-Chain i)
              (update_self m.buckets t a ∙ ap (λ xs. first (xs ++ y ∷ [])) (sym e))
              (λ i d. update_ne m.buckets t a i d)),
      )

  append-last : (x : Cell) (xs : List Cell) → g.lists t ≡ x ∷ xs → Appends
  unfolding put_last
  append-last x xs e =
      let p = last (first (g.lists t)) (g.lists t) in
      let at = ap (last (first (g.lists t))) e in
      let d =
        last-node m.nodes (first (g.lists t)) x xs []
          (subst (Chain m.nodes) (e ∙ sym (append-nil (x ∷ xs))) (g.family.chains t)) in
      let mine =
        ap g.own at
        ∙ last-All (λ b. g.own b ≡ t) (first (g.lists t)) x xs
            (Owned-own k g (x ∷ xs)
              (subst (All (Owned (Home hash m.capacity) g.own g.place t)) e (g.family.cells t))) in
      let other =
        last-All (λ b. b ≢ a) (first (g.lists t)) x xs (subst (Apart a) e (new-Apart t)) in
      let at_p =
        update_ne m.nodes a (some (linked y null)) p (λ q. other (sym at ∙ sym q))
        ∙ ap m.nodes at
        ∙ d.1 in
      let nodes' = update nodes1 p (some (linked d.0 a)) in
      (
        record m { nodes = nodes'; size_hm = size' },
        rw (==_of_ne null p (λ q. d.2 (sym at ∙ sym q))) (
            rw
              (change_lem p (λ b. record b { next = a }) (record m { nodes = nodes1 })
                (linked d.0 null) at_p)
              refl),
        Represents-one k g nodes' m.buckets own' place' _ (some val) (suc n) size' (
            append-Changed nodes' m.buckets
              (subst (λ zs. Chain nodes' (zs ++ y ∷ [])) (sym e)
                (subst (λ b. Chain (update nodes1 b (some (linked d.0 a))) (x ∷ xs ++ y ∷ []))
                  (sym at)
                  (Chain-relink nodes1 (first (g.lists t)) x xs [] (y ∷ []) (linked d.0 null)
                    (ap nodes1 (sym at) ∙ at_p)
                    (subst (Chain nodes1) (e ∙ sym (append-nil (x ∷ xs))) (old-Chain t))
                    (subst (λ zs. Distinct (zs ++ y ∷ [])) e
                      (Distinct-with (g.lists t) y []
                        (subst Distinct (sym (append-nil (g.lists t))) (g.family.distinct t))
                        (new-Apart t) tt))
                    new-Chain)))
              (λ i q. Chain-other k g nodes1 p (some (linked d.0 a)) i mine q (old-Chain i))
              (start_lem k g ∙ ap first e ∙ ap (λ zs. first (zs ++ y ∷ [])) (sym e)) (λ i q. refl)),
      )

  append-cases : (zs : List Cell) → g.lists t ≡ zs → Appends
  append-cases [] e = append-first e
  append-cases (x ∷ xs) e = append-last x xs e

  pub put_last_lem : Appends
  put_last_lem = append-cases (g.lists t) refl
