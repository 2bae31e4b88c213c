-- ===== src/Maps/Resizable/Hits.antt =====
-- pdatastructures/TMHashMap.hpp: the list of a bucket with the value of a key set, or without its node.
use plsf.Prelude.{
  ℕ, suc, ◌+◌, ◌≡◌, ◌≢◌, ◌%◌, refl, arith, ◌==◌, if◌then◌else◌, Option, none, some, List, [], ◌∷◌,
  ◌++◌, length, length-append, All, ap, sym, subst, ◌∙◌, update, update_self, ==_of_ne, ==_self,
}
use native.Mathlib.Nat.{mod-lt}
use plsf.Maps.Resizable.{Node, HashMap}
use plsf.Maps.Resizable.Cells.{Cell, first, linked, Chain}
use plsf.Maps.Resizable.Family.{
  Apart, Distinct, lookup, Owned, Chain-update, Owned-Apart, lookup-Apart,
}
use plsf.Maps.Resizable.Steps.{
  last, last-All, lookup-append, Hit, All-split, All-join, Parts, Distinct-Parts, Distinct-with,
  Chain-tail, last-node, Chain-replace,
}
use plsf.Maps.Resizable.View.{Home, Represents, Changed}

first-append : (xs ys zs : List Cell) → first ys ≡ first zs → first (xs ++ ys) ≡ first (xs ++ zs)
first-append [] ys zs e = e
first-append (x ∷ xs) ys zs e = refl

module _ {hash : ℕ → ℕ} {m : HashMap} {n : ℕ} {f : ℕ → Option ℕ} (k : ℕ)
    (g : Represents hash m n f) where
  abbrev pub t : ℕ
  t = hash k % m.capacity

  pub start_lem : m.buckets t ≡ first (g.lists t)
  start_lem = g.starts t (mod-lt (hash k) g.some_buckets)

  -- A list of another bucket, when a node of this one changes.
  pub Chain-other :
      (nodes : ℕ → Option Node) (a : ℕ) (o : Option Node) (u : ℕ)
      → g.own a ≡ t
      → t ≢ u
      → Chain nodes (g.lists u)
      → Chain (update nodes a o) (g.lists u)
  Chain-other nodes a o u e q = Chain-update nodes a o (g.lists u) (
      Owned-Apart (Home hash m.capacity) g.own g.place u a (g.lists u) (g.family.cells u)
        (λ r. q (sym e ∙ r)))

  pub Owned-own :
      (xs : List Cell)
      → All (Owned (Home hash m.capacity) g.own g.place t) xs
      → All (λ y. g.own y.addr ≡ t) xs
  Owned-own [] a = tt
  Owned-own (x ∷ xs) a = (a.0.0, Owned-own xs a.1)

  module _ (p : ℕ) (c : Cell) (h : Hit k (first (g.lists t)) p c (g.lists t)) where
    pub parts : Parts h.before c h.after
    parts = Distinct-Parts h.before c h.after (subst Distinct h.whole (g.family.distinct t))

    pub owned :
        All (Owned (Home hash m.capacity) g.own g.place t) h.before
        × All (Owned (Home hash m.capacity) g.own g.place t) (c ∷ h.after)
    owned =
        All-split (Owned (Home hash m.capacity) g.own g.place t) h.before (c ∷ h.after)
          (subst (All (Owned (Home hash m.capacity) g.own g.place t)) h.whole (g.family.cells t))

    pub chain : Chain m.nodes (h.before ++ c ∷ h.after)
    chain = subst (Chain m.nodes) h.whole (g.family.chains t)

    pub tail : Chain m.nodes (c ∷ h.after)
    tail = Chain-tail m.nodes h.before (c ∷ h.after) chain

    -- The node before, where there is one.
    pub previous :
        (x : Cell) (xs : List Cell)
        → h.before ≡ x ∷ xs
        → (d : Cell) × (m.nodes p ≡ some (linked d c.addr)) × (g.own p ≡ t) × (c.addr ≢ p)
    previous x xs e =
        let at = h.address ∙ ap (last (first (g.lists t))) e in
        let d =
          last-node m.nodes (first (g.lists t)) x xs (c ∷ h.after)
            (subst (λ zs. Chain m.nodes (zs ++ c ∷ h.after)) e chain) in
        (
          d.0,
          ap m.nodes at ∙ d.1,
          ap g.own at
              ∙ last-All (λ a. g.own a ≡ t) (first (g.lists t)) x xs
                  (Owned-own (x ∷ xs)
                    (subst (All (Owned (Home hash m.capacity) g.own g.place t)) e owned.0)),
          (λ q.
              last-All (λ a. a ≢ c.addr) (first (g.lists t)) x xs
                (subst (Apart c.addr) e parts.before) (sym at ∙ sym q)),
        )

    -- Another key in the list, with the cell or another with its key there.
    other-value :
        (c' : Cell) (j : ℕ)
        → c'.key ≡ c.key
        → k ≢ j
        → lookup j (h.before ++ c' ∷ h.after) ≡ lookup j (h.before ++ h.after)
    other-value c' j e q =
        lookup-append j h.before (c' ∷ h.after)
        ∙ rw (==_of_ne j c'.key (λ r. q (h.key ∙ sym e ∙ sym r)))
            (sym (lookup-append j h.before h.after))

    gone-value : (j : ℕ) → k ≢ j → lookup j (h.before ++ h.after) ≡ lookup j (g.lists t)
    gone-value j q = sym (other-value c j refl q) ∙ ap (lookup j) (sym h.whole)

    length-whole : length (g.lists t) ≡ length h.before + suc (length h.after)
    length-whole = ap length h.whole ∙ length-append h.before (c ∷ h.after)

    abbrev pub with_value : ℕ → Cell
    with_value val = record c { val = val }

    pub set-Changed :
        (val : ℕ)
        → Changed k g
            (update m.nodes c.addr (some (linked (with_value val) (first h.after))))
            m.buckets
            g.own
            g.place
            (h.before ++ with_value val ∷ h.after)
            (some val)
            n
    set-Changed val =
        let c' = with_value val in
        let o = some (linked c' (first h.after)) in
        record {
          chain =
              Chain-replace m.nodes c.addr o h.before (c ∷ h.after) (c' ∷ h.after) parts.before refl
                chain
                (
                  update_self m.nodes c.addr o,
                  tail.1,
                  Chain-update m.nodes c.addr o h.after parts.after tail.2,
                );
          owned =
              All-join (Owned (Home hash m.capacity) g.own g.place t) h.before (c' ∷ h.after)
                owned.0 owned.1;
          distinct = Distinct-with h.before c' h.after parts.both parts.before parts.after;
          others = λ u q.
              (Chain-other m.nodes c.addr o u owned.1.0.0 q (g.family.chains u), g.family.cells u);
          start =
              start_lem
              ∙ ap first h.whole
              ∙ first-append h.before (c ∷ h.after) (c' ∷ h.after) refl;
          other_starts = λ u q. refl;
          value =
              lookup-append k h.before (c' ∷ h.after)
              ∙ rw h.absent (
                  ap (λ i. if k == i then some val else lookup k h.after) (sym h.key)
                  ∙ rw (==_self k) refl);
          other_values = λ j q. other-value c' j refl q ∙ gone-value j q;
          short = omega (arith, length-append h.before (c' ∷ h.after), length-whole, g.short t);
          more = omega arith;
        }

    -- The list without the node, where the new nodes and buckets hold it.
    pub cut-Changed :
        (nodes' : ℕ → Option Node) (buckets' : ℕ → ℕ)
        → Chain nodes' (h.before ++ h.after)
        → ((u : ℕ) → t ≢ u → Chain nodes' (g.lists u))
        → buckets' t ≡ first (h.before ++ h.after)
        → ((u : ℕ) → t ≢ u → buckets' u ≡ m.buckets u)
        → Changed k g nodes' buckets' g.own g.place (h.before ++ h.after) none n
    cut-Changed nodes' buckets' ch others s os = record {
      chain = ch;
      owned =
          All-join (Owned (Home hash m.capacity) g.own g.place t) h.before h.after owned.0
            owned.1.1;
      distinct = parts.both;
      others = λ u q. (others u q, g.family.cells u);
      start = s;
      other_starts = os;
      value =
          lookup-append k h.before h.after
          ∙ rw h.absent (
              lookup-Apart (Home hash m.capacity) g.own g.place t k h.after owned.1.1
                (subst (λ a. Apart a h.after) (sym (ap g.place h.key ∙ owned.1.0.1)) parts.after));
      other_values = gone-value;
      short = omega (arith, length-append h.before h.after, length-whole, g.short t);
      more = omega arith;
    }
