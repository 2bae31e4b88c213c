-- ===== src/Maps/Resizable/View.antt =====
-- pdatastructures/TMHashMap.hpp: the partial function that a map stands for, and a change of one bucket.
use plsf.Prelude.{
  ℕ, ◌≡◌, ◌≢◌, ◌≤◌, ◌<◌, ◌%◌, refl, arith, ◌==◌, Option, List, length, All, ap, sym, subst, ◌∙◌,
  update, update_self, update_ne, Bool-cases, inl, inr,
}
use plsf.Maps.FixedSize.Changed.{eq_of_==, ne_of_==}
use plsf.Maps.Resizable.{Node, HashMap}
use plsf.Maps.Resizable.Cells.{Cell, first, Chain}
use plsf.Maps.Resizable.Family.{Distinct, lookup, Owned, Family, update-at, Family-one}

-- A key may be in the list of its bucket only.
abbrev pub Home : (hash : ℕ → ℕ) (capacity : ℕ) → ℕ → ℕ → Type 0
Home hash capacity t k = hash k % capacity ≡ t

-- The map stands for the partial function `f` from keys to values, with at most `n` nodes in a bucket.
pub record Represents (hash : ℕ → ℕ) (m : HashMap) (n : ℕ) (f : ℕ → Option ℕ) : Type 0 where
  pub lists : ℕ → List Cell
  pub own : ℕ → ℕ
  pub place : ℕ → ℕ
  pub some_buckets : 0 < m.capacity
  pub starts : (h : ℕ) → h < m.capacity → m.buckets h ≡ first (lists h)
  pub family : Family (Home hash m.capacity) own place m.nodes lists
  pub short : (h : ℕ) → length (lists h) ≤ n
  pub values : (k : ℕ) → lookup k (lists (hash k % m.capacity)) ≡ f k

module _ {hash : ℕ → ℕ} {m : HashMap} {n : ℕ} {f : ℕ → Option ℕ} (k : ℕ)
    (g : Represents hash m n f) where
  abbrev t : ℕ
  t = hash k % m.capacity

  -- What a changed list of the bucket of `k` must satisfy.
  pub record Changed (nodes' : ℕ → Option Node) (buckets' own' place' : ℕ → ℕ) (ys : List Cell)
      (o : Option ℕ) (n' : ℕ) : Type 0 where
    pub chain : Chain nodes' ys
    pub owned : All (Owned (Home hash m.capacity) own' place' t) ys
    pub distinct : Distinct ys
    pub others :
        (u : ℕ)
        → t ≢ u
        → Chain nodes' (g.lists u) × All (Owned (Home hash m.capacity) own' place' u) (g.lists u)
    pub start : buckets' t ≡ first ys
    pub other_starts : (h : ℕ) → t ≢ h → buckets' h ≡ m.buckets h
    pub value : lookup k ys ≡ o
    pub other_values : (j : ℕ) → k ≢ j → lookup j ys ≡ lookup j (g.lists t)
    pub short : length ys ≤ n'
    pub more : n ≤ n'

  pub Represents-one :
      (nodes' : ℕ → Option Node) (buckets' own' place' : ℕ → ℕ) (ys : List Cell) (o : Option ℕ)
      (n' size : ℕ)
      → Changed nodes' buckets' own' place' ys o n'
      → Represents hash
          (record { capacity = m.capacity; size_hm = size; buckets = buckets'; nodes = nodes' })
          n'
          (update f k o)
  Represents-one nodes' buckets' own' place' ys o n' size c = record {
    lists = update g.lists t ys;
    own = own';
    place = place';
    some_buckets = g.some_buckets;
    starts = λ h b.
        update-at (λ i zs. buckets' i ≡ first zs) g.lists t ys h c.start
          (λ q. c.other_starts h q ∙ g.starts h b);
    family =
        Family-one (Home hash m.capacity) g.own g.place own' place' m.nodes nodes' g.lists t ys
          g.family c.chain c.owned c.distinct c.others;
    short = λ h.
        update-at (λ i zs. length zs ≤ n') g.lists t ys h c.short
          (λ q. omega (arith, g.short h, c.more));
    values = λ j. elim (Bool-cases (k == j)) [
      | inl q ↦
          subst (λ i. lookup i (update g.lists t ys (hash i % m.capacity)) ≡ update f k o i)
            (eq_of_== k j q)
            (ap (lookup k) (update_self g.lists t ys) ∙ c.value ∙ sym (update_self f k o))
      | inr q ↦
          let d = ne_of_== k j q in
          update-at (λ i zs. lookup j zs ≡ lookup j (g.lists i)) g.lists t ys (hash j % m.capacity)
            (c.other_values j d) (λ e. refl)
          ∙ g.values j
          ∙ sym (update_ne f k o j d)
    ];
  }
