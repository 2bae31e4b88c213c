-- ===== src/Maps/Resizable/Cuts.antt =====
-- pdatastructures/TMHashMap.hpp: what `innerPut` and `innerRemove` do where they find the key.
use plsf.Prelude.{
  ℕ, ◌+◌, ◌-◌, ◌^◌, ◌≡◌, ◌≢◌, ◌%◌, refl, Option, none, some, List, [], ◌∷◌, ◌++◌, ap, sym, subst,
  ◌∙◌, update, update_self, update_ne, ==_of_ne, ==_self,
}
use plsf.Lists.Nodes.{Result, done}
use plsf.Maps.Resizable.{Node, HashMap, change, unlink}
use plsf.Maps.Resizable.Cells.{Cell, first, linked, Chain, load_lem}
use plsf.Maps.Resizable.Family.{Distinct, Chain-update}
use plsf.Maps.Resizable.Steps.{last, Hit, All-join, Chain-relink}
use plsf.Maps.Resizable.View.{Represents, Represents-one}
use plsf.Maps.Resizable.Hits.{
  start_lem, Chain-other, parts, previous, owned, chain, tail, set-Changed, cut-Changed,
}

pub change_lem :
    (a : ℕ) (g : Node → Node) (m : HashMap) (d : Node)
    → m.nodes a ≡ some d
    → change a g m ≡ done tt (record m { nodes = update m.nodes a (some (g d)) })
unfolding change
change_lem a g m d e = rw (load_lem a m d e) refl

module _ {hash : ℕ → ℕ} {m : HashMap} {n : ℕ} {f : ℕ → Option ℕ} (k : ℕ) (g : Represents hash m n f)
    (p : ℕ) (c : Cell)
    (h : Hit k (first (g.lists (hash k % m.capacity))) p c (g.lists (hash k % m.capacity))) where
  abbrev t : ℕ
  t = hash k % m.capacity

  abbrev pub Steps : Result (Unit {0}) HashMap → Option ℕ → Type 0
  Steps r o = (m' : HashMap) × (r ≡ done tt m') × Represents hash m' n (update f k o)

  pub set_lem : (val : ℕ) → Steps (change c.addr (λ d. record d { val = val }) m) (some val)
  set_lem val = (
    _,
    change_lem c.addr (λ d. record d { val = val }) m (linked c (first h.after)) (tail k g p c h).0,
    Represents-one k g _ _ g.own g.place _ (some val) n m.size_hm (set-Changed k g p c h val),
  )

  node : m.nodes c.addr ≡ some (linked c (first h.after))
  node = (tail k g p c h).0

  abbrev less : ℕ
  less = (m.size_hm + 2 ^ 64 - 1) % 2 ^ 64

  unlink-first : h.before ≡ [] → Steps (unlink hash t c.addr p m) none
  unfolding unlink
  unlink-first e =
      let at =
        h.address
        ∙ ap (last (first (g.lists t))) e
        ∙ ap first h.whole
        ∙ ap (λ xs. first (xs ++ c ∷ h.after)) e in
      let nodes' = update m.nodes c.addr none in
      let b = update m.buckets t (first h.after) in
      (
        record m { nodes = nodes'; buckets = b; size_hm = less },
        rw (load_lem c.addr m (linked c (first h.after)) node) (rw at (rw (==_self c.addr) refl)),
        Represents-one k g nodes' b g.own g.place (h.before ++ h.after) none n less (
            cut-Changed k g p c h nodes' b
              (subst (λ xs. Chain nodes' (xs ++ h.after)) (sym e)
                (Chain-update m.nodes c.addr none h.after (parts k g p c h).after
                  (tail k g p c h).2))
              (λ u q.
                Chain-other k g m.nodes c.addr none u (owned k g p c h).1.0.0 q (g.family.chains u))
              (update_self m.buckets t (first h.after) ∙ ap (λ xs. first (xs ++ h.after)) (sym e))
              (λ u q. update_ne m.buckets t (first h.after) u q)),
      )

  unlink-inner :
      (x : Cell) (xs : List Cell) → h.before ≡ x ∷ xs → Steps (unlink hash t c.addr p m) none
  unfolding unlink
  unlink-inner x xs e =
      let (d, at_p, mine, q) = previous k g p c h x xs e in
      let apart = parts k g p c h in
      let ours = (owned k g p c h).1.0.0 in
      let address = h.address ∙ ap (last (first (g.lists t))) e in
      let nodes1 = update m.nodes p (some (linked d (first h.after))) in
      let nodes' = update nodes1 c.addr none in
      let relinked =
        subst (λ a. Chain (update m.nodes a (some (linked d (first h.after)))) (x ∷ xs ++ h.after))
          (sym address)
          (Chain-relink m.nodes (first (g.lists t)) x xs (c ∷ h.after) h.after (linked d c.addr)
            (ap m.nodes (sym address) ∙ at_p)
            (subst (λ zs. Chain m.nodes (zs ++ c ∷ h.after)) e (chain k g p c h))
            (subst (λ zs. Distinct (zs ++ h.after)) e apart.both) (tail k g p c h).2) in
      (
        record m { nodes = nodes'; size_hm = less },
        rw (load_lem c.addr m (linked c (first h.after)) node) (
            rw (==_of_ne c.addr p q) (
              rw (change_lem p (λ b. record b { next = first h.after }) m (linked d c.addr) at_p)
                refl)),
        Represents-one k g nodes' m.buckets g.own g.place (h.before ++ h.after) none n less (
            cut-Changed k g p c h nodes' m.buckets
              (Chain-update nodes1 c.addr none (h.before ++ h.after)
                (All-join (λ y. y.addr ≢ c.addr) h.before h.after apart.before apart.after)
                (subst (λ zs. Chain nodes1 (zs ++ h.after)) (sym e) relinked))
              (λ u r. Chain-other k g nodes1 c.addr none u ours r (
                Chain-other k g m.nodes p (some (linked d (first h.after))) u mine r
                  (g.family.chains u)))
              (start_lem k g
                ∙ ap first h.whole
                ∙ ap (λ zs. first (zs ++ c ∷ h.after)) e
                ∙ ap (λ zs. first (zs ++ h.after)) (sym e))
              (λ u r. refl)),
      )

  unlink-cases : (zs : List Cell) → h.before ≡ zs → Steps (unlink hash t c.addr p m) none
  unlink-cases [] e = unlink-first e
  unlink-cases (x ∷ xs) e = unlink-inner x xs e

  pub unlink_lem : Steps (unlink hash t c.addr p m) none
  unlink_lem = unlink-cases h.before refl
