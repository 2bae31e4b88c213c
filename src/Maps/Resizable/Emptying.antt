-- ===== src/Maps/Resizable/Emptying.antt =====
-- pdatastructures/TMHashMap.hpp: the two loops of `rebuild`.
use plsf.Prelude.{
  subst, ℕ, zero, suc, ◌+◌, ◌*◌, ◌≡◌, ◌≢◌, ◌≤◌, ◌<◌, refl, arith, Option, List, [], ◌∷◌, length, ap,
  sym, ◌∙◌, update, ◌==◌, ==_of_ne, Bool-cases, inl, inr,
}
use plsf.Lists.Nodes.{null, Result, done}
use plsf.Maps.FixedSize.Changed.{eq_of_==, ne_of_==}
use plsf.Maps.Resizable.{Node, HashMap, move_nodes, move_buckets}
use plsf.Maps.Resizable.Cells.{Cell, first, linked, load_lem}
use plsf.Maps.Resizable.Cuts.{change_lem}
use plsf.Maps.Resizable.Moving.{
  Moving, new_bucket, nodes', lists', own', chain, lists'-here, lists'-old, moved,
}

module _ (hash : ℕ → ℕ) (cap d : ℕ) (nodes0 : ℕ → Option Node) (f : ℕ → Option ℕ) (positive : 0 < d)
    (place : ℕ → ℕ) where
  -- What a loop leaves that has moved the lists where `Moved` holds and kept those where `Kept` does.
  pub record Ends (r : Result (ℕ → ℕ) HashMap) (m : HashMap) (lists : ℕ → List Cell)
      (Moved Kept : ℕ → Type 0) (b : ℕ) : Type 0 where
    pub nodes_end : ℕ → Option Node
    pub newbuckets : ℕ → ℕ
    pub lists_end : ℕ → List Cell
    pub own_end : ℕ → ℕ
    pub result : r ≡ done newbuckets (record m { nodes = nodes_end })
    pub moving : Moving hash cap d nodes0 f nodes_end newbuckets lists_end own_end place b
    pub gone : (u : ℕ) → u < cap → Moved u → lists_end u ≡ []
    pub kept : (u : ℕ) → u < cap → Kept u → lists_end u ≡ lists u

  Moving-more :
      (nodes : ℕ → Option Node) (nb : ℕ → ℕ) (lists : ℕ → List Cell) (own : ℕ → ℕ) (b b' : ℕ)
      → b ≤ b'
      → Moving hash cap d nodes0 f nodes nb lists own place b
      → Moving hash cap d nodes0 f nodes nb lists own place b'
  Moving-more nodes nb lists own b b' le g = record {
    family = g.family;
    fronts = g.fronts;
    short = λ h. omega (arith, g.short h, le);
    values = g.values;
    free = g.free;
  }

  pub move_nodes_lem :
      (xs : List Cell) (r : ℕ) (m : HashMap) (nb : ℕ → ℕ) (lists : ℕ → List Cell) (own : ℕ → ℕ)
      (b i : ℕ)
      → length xs ≤ r
      → Moving hash cap d nodes0 f m.nodes nb lists own place b
      → i < cap
      → lists i ≡ xs
      → Ends
          (move_nodes hash d (suc r) (first xs) nb m)
          m
          lists
          (λ u. u ≡ i)
          (λ u. i ≢ u)
          (b + length xs)
  unfolding move_nodes
  move_nodes_lem [] r m nb lists own b i l g low e = record {
    nodes_end = m.nodes;
    newbuckets = nb;
    lists_end = lists;
    own_end = own;
    result = refl;
    moving = Moving-more m.nodes nb lists own b (b + 0) (omega arith) g;
    gone = λ u lt q. ap lists q ∙ e;
    kept = λ u lt q. refl;
  }
  move_nodes_lem (x ∷ xs) zero m nb lists own b i l g low e = absurd (omega (arith, l))
  move_nodes_lem (x ∷ xs) (suc r) m nb lists own b i l g low e =
      let c = chain positive g low e in
      let h = new_bucket positive g low e in
      let next = nodes' positive g low e in
      let rest =
        move_nodes_lem xs r (record m { nodes = next }) (update nb h x.addr)
          (lists' positive g low e) (own' positive g low e) (suc b) i (omega (arith, l))
          (moved positive g low e) low (lists'-here positive g low e) in
      record {
        nodes_end = rest.nodes_end;
        newbuckets = rest.newbuckets;
        lists_end = rest.lists_end;
        own_end = rest.own_end;
        result = rw (==_of_ne x.addr null c.1) (
            rw (load_lem x.addr m (linked x (first xs)) c.0) (
              rw (change_lem x.addr (λ b. record b { next = nb h }) m (linked x (first xs)) c.0)
                rest.result));
        moving =
            subst
              (λ z.
                Moving hash cap d nodes0 f rest.nodes_end rest.newbuckets rest.lists_end
                  rest.own_end place z)
              (omega arith) rest.moving;
        gone = rest.gone;
        kept = λ u lt q. rest.kept u lt q ∙ lists'-old positive g low e u lt q;
      }

  pub move_buckets_lem :
      (n i r most : ℕ) (m : HashMap) (nb : ℕ → ℕ) (lists : ℕ → List Cell) (own : ℕ → ℕ) (b : ℕ)
      → i + n ≡ cap
      → most ≤ r
      → Moving hash cap d nodes0 f m.nodes nb lists own place b
      → ((u : ℕ) → i ≤ u → u < cap → m.buckets u ≡ first (lists u))
      → ((u : ℕ) → i ≤ u → u < cap → length (lists u) ≤ most)
      → Ends (move_buckets hash d (suc r) n i nb m) m lists (λ u. i ≤ u) (λ u. u < i) (b + n * most)
  unfolding move_buckets
  move_buckets_lem zero i r most m nb lists own b e le g starts lens = record {
    nodes_end = m.nodes;
    newbuckets = nb;
    lists_end = lists;
    own_end = own;
    result = refl;
    moving = Moving-more m.nodes nb lists own b (b + 0 * most) (omega arith) g;
    gone = λ u lt q. absurd (omega (arith, lt, q, e));
    kept = λ u lt q. refl;
  }
  move_buckets_lem (suc n) i r most m nb lists own b e le g starts lens =
      let low : i < cap = omega (arith, e) in
      let inner =
        move_nodes_lem (lists i) r m nb lists own b i (omega (arith, lens i (omega arith) low, le))
          g low refl in
      let m1 = record m { nodes = inner.nodes_end } in
      let rest =
        move_buckets_lem n (suc i) r most m1 inner.newbuckets inner.lists_end inner.own_end
          (b + most) (omega (arith, e)) le
          (Moving-more inner.nodes_end inner.newbuckets inner.lists_end inner.own_end
            (b + length (lists i)) (b + most) (omega (arith, lens i (omega arith) low))
            inner.moving)
          (λ u q lt.
            starts u (omega (arith, q)) lt ∙ ap first (sym (inner.kept u lt (omega (arith, q)))))
          (λ u q lt.
            subst (λ zs. length zs ≤ most) (sym (inner.kept u lt (omega (arith, q))))
              (lens u (omega (arith, q)) lt)) in
      record {
        nodes_end = rest.nodes_end;
        newbuckets = rest.newbuckets;
        lists_end = rest.lists_end;
        own_end = rest.own_end;
        result = rw (starts i (omega arith) low) (rw inner.result rest.result);
        moving =
            subst
              (λ z.
                Moving hash cap d nodes0 f rest.nodes_end rest.newbuckets rest.lists_end
                  rest.own_end place z)
              (omega arith) rest.moving;
        gone = λ u lt q. elim (Bool-cases (u == i)) [
          | inl s ↦
              let at = eq_of_== u i s in rest.kept u lt (omega (arith, at)) ∙ inner.gone u lt at
          | inr s ↦ rest.gone u lt (omega (arith, q, ne_of_== u i s))
        ];
        kept = λ u lt q. rest.kept u lt (omega (arith, q)) ∙ inner.kept u lt (omega (arith, q));
      }
