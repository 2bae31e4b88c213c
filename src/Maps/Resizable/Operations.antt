-- ===== src/Maps/Resizable/Operations.antt =====
-- pdatastructures/TMHashMap.hpp: the operations on a map that keeps its buckets.
use plsf.Prelude.{
  ℕ, suc, ◌≡◌, ◌≢◌, ◌≤◌, ◌%◌, refl, arith, Bool, not, ◌==◌, Option, none, some, List, ◌∷◌, length,
  ap, sym, ◌∙◌, if◌then◌else◌, update, update_self, update_ne, ==_self, Bool-cases, inl, inr,
}
use plsf.Maps.FixedSize.Changed.{eq_of_==, ne_of_==}
use plsf.Lists.Nodes.{null, done}
use plsf.Maps.FixedSize.Operations.{is_some, old_in}
use plsf.Maps.Resizable.{HashMap, change, unlink, put_last, put_from, inner_get, inner_remove}
use plsf.Maps.Resizable.Cells.{
  Cell, first, locate, removed, stored, get_from_lem, remove_from_lem, put_from_lem,
}
use plsf.Maps.Resizable.Family.{lookup}
use plsf.Maps.Resizable.Steps.{lookup-append, Hit, locate-cases}
use plsf.Maps.Resizable.View.{Represents}
use plsf.Maps.Resizable.Hits.{start_lem}
use plsf.Maps.Resizable.Cuts.{set_lem, unlink_lem}
use plsf.Maps.Resizable.Appends.{put_last_lem}

lookup-Hit :
    (k prev p : ℕ) (c : Cell) (xs : List Cell) → Hit k prev p c xs → lookup k xs ≡ some c.val
lookup-Hit k prev p c xs h =
    ap (lookup k) h.whole
    ∙ lookup-append k h.before (c ∷ h.after)
    ∙ rw h.absent (
        ap (λ i. if k == i then some c.val else lookup k h.after) (sym h.key) ∙ rw (==_self k) refl)

update-absent : (f : ℕ → Option ℕ) (k j : ℕ) → f k ≡ none → f j ≡ update f k none j
update-absent f k j e = elim (Bool-cases (k == j)) [
  | inl q ↦ rw (sym (eq_of_== k j q)) (e ∙ sym (update_self f k none))
  | inr q ↦ sym (update_ne f k none j (ne_of_== k j q))
]

pub Represents-most :
    (hash : ℕ → ℕ) (m : HashMap) (n n' : ℕ) (f : ℕ → Option ℕ)
    → n ≤ n'
    → Represents hash m n f
    → Represents hash m n' f
Represents-most hash m n n' f le g = record {
  lists = g.lists;
  own = g.own;
  place = g.place;
  some_buckets = g.some_buckets;
  starts = g.starts;
  family = g.family;
  short = λ h. omega (arith, g.short h, le);
  values = g.values;
}

module _ {hash : ℕ → ℕ} {m : HashMap} {n : ℕ} {f : ℕ → Option ℕ} (k : ℕ) (g : Represents hash m n f)
    (r old : ℕ) (save : Bool) (enough : n ≤ r) where
  abbrev pub t : ℕ
  t = hash k % m.capacity

  abbrev xs : List Cell
  xs = g.lists t

  short : length xs ≤ r
  short = omega (arith, g.short t, enough)

  start : m.buckets t ≡ first xs
  start = start_lem k g

  pub get_lem : inner_get hash (suc r) k old save m ≡ done (is_some (f k), old_in save old (f k)) m
  unfolding inner_get
  get_lem = rw start (
      get_from_lem hash k old save m r (first xs) xs (g.family.chains t) short
      ∙ (elim (locate-cases k (first xs) xs) [
        | inl e ↦ rw (sym (g.values k), e.0, e.1) refl
        | inr (p, c, e, h) ↦ rw (sym (g.values k), e, lookup-Hit k (first xs) p c xs h) refl
      ]))

  pub remove_lem :
      (m' : HashMap) × (inner_remove hash (suc r) k old save m
        ≡ done (is_some (f k), old_in save old (f k)) m')
      × Represents hash m' n (update f k none)
  unfolding inner_remove
  remove_lem = elim (locate-cases k (first xs) xs) [
    | inl e ↦
        let absent = sym (g.values k) ∙ e.1 in
        (
          m,
          rw absent (at_lists ∙ rw e.0 refl),
          record {
            lists = g.lists;
            own = g.own;
            place = g.place;
            some_buckets = g.some_buckets;
            starts = g.starts;
            family = g.family;
            short = g.short;
            values = λ j. g.values j ∙ update-absent f k j absent;
          },
        )
    | inr (p, c, e, h) ↦
        let s = unlink_lem k g p c h in
        (
          s.0,
          rw (sym (g.values k) ∙ lookup-Hit k (first xs) p c xs h) (at_lists ∙ rw e (rw s.1 refl)),
          s.2,
        )
  ]
    where
      at_lists :
          inner_remove hash (suc r) k old save m
          ≡ removed (λ a p. unlink hash t a p m) old save m (locate k (first xs) xs)
      at_lists =
          rw start (remove_from_lem hash k old save m t r (first xs) xs (g.family.chains t) short)

  pub put_lem :
      (a val : ℕ)
      → a ≢ null
      → m.nodes a ≡ none
      → (m' : HashMap) × (put_from hash a (suc r) k val old save t (m.buckets t) (m.buckets t) m
          ≡ done (not (is_some (f k)), old_in save old (f k)) m')
        × Represents hash m' (suc n) (update f k (some val))
  put_lem a val z u = elim (locate-cases k (first xs) xs) [
    | inl e ↦
        let s = put_last_lem k g a val z u e.1 in
        (s.0, rw (sym (g.values k) ∙ e.1) (at_lists ∙ rw e.0 (rw s.1 refl)), s.2)
    | inr (p, c, e, h) ↦
        let s = set_lem k g p c h val in
        (
          s.0,
          rw (sym (g.values k) ∙ lookup-Hit k (first xs) p c xs h) (at_lists ∙ rw e (rw s.1 refl)),
          Represents-most hash s.0 n (suc n) (update f k (some val)) (omega arith) s.2,
        )
  ]
    where
      at_lists :
          put_from hash a (suc r) k val old save t (m.buckets t) (m.buckets t) m
          ≡ stored
              (λ p. put_last hash a k val t p m)
              (λ b. change b (λ d. record d { val = val }) m)
              old
              save
              (locate k (first xs) xs)
      at_lists =
          rw start
            (put_from_lem hash k old save m a val t r (first xs) xs (g.family.chains t) short)
