-- ===== src/Maps/FixedSize/WellFormed.antt =====
-- pdatastructures/TMHashMapFixedSize.hpp: the map in good order, and what keeps it so.
use plsf.Prelude.{
  ℕ, ◌≡◌, ◌≢◌, ◌<◌, true, ◌==◌, Option, none, some, List, [], ◌∷◌, map, ap, sym, subst, ◌∙◌, update,
  update_self, update_ne, Bool-cases, inl, inr,
}
use plsf.Lists.Nodes.{null}
use plsf.Maps.FixedSize.{Node, HashMap, matches, bucket_of}
use plsf.Maps.FixedSize.Cells.{Cell, first, linked, Chain, is_match}
use plsf.Maps.FixedSize.Changed.{
  AllAt, lookup, put_at, first-put_at, Chain-put_at, AllAt-put_at, eq_of_==, ne_of_==,
}
use plsf.Maps.FixedSize.Appended.{
  append_at, first-append_at, AllAt-append_at, Chain-append_at, appended, some-ne,
}

-- The buckets hold the lists `cells`, and the active nodes with the key `k` in the list of its bucket
-- are all at the address `place k`.
pub record WellFormed (hash : ℕ → ℕ) (m : HashMap) (cells : ℕ → List Cell) (place : ℕ → ℕ)
    : Type 0 where
  pub some_buckets : 0 < m.capacity
  pub starts : (h : ℕ) → h < m.capacity → m.buckets h ≡ first (cells h)
  pub chains : (h : ℕ) → Chain m.nodes (cells h)
  pub only : (k : ℕ) → AllAt k (place k) (cells (bucket_of hash k m))

-- The map that the lists stand for.
abbrev pub view : (ℕ → ℕ) → HashMap → (ℕ → List Cell) → ℕ → Option ℕ
view hash m cells k = lookup k (cells (bucket_of hash k m))

-- What holds of the new value and of the old one holds after an update.
pub update-holds :
    {A : Type 0} (P : A → Type 0) (f : ℕ → A) (b : ℕ) (a : A) (j : ℕ)
    → P a
    → P (f j)
    → P (update f b a j)
update-holds P f b a j n o = elim (Bool-cases (b == j)) [
  | inl q ↦ subst P (sym (ap (update f b a) (sym (eq_of_== b j q)) ∙ update_self f b a)) n
  | inr q ↦ subst P (sym (update_ne f b a j (ne_of_== b j q))) o
]

module _ (hash : ℕ → ℕ) (m : HashMap) (cells : ℕ → List Cell) (place place' : ℕ → ℕ)
    (w : WellFormed hash m cells place)
    (kept : (k : ℕ) → AllAt k (place' k) (cells (bucket_of hash k m))) where
  pub WellFormed-put_at :
      (a : ℕ) (n n' : Node)
      → m.nodes a ≡ some n
      → n'.next ≡ n.next
      → ((k : ℕ) → matches k n' ≡ true → a ≡ place' k)
      → WellFormed hash
          (record m { nodes = update m.nodes a (some n') })
          (λ h. map (put_at a n') (cells h))
          place'
  WellFormed-put_at a n n' e s f = record {
    some_buckets = w.some_buckets;
    starts = λ h b. w.starts h b ∙ sym (first-put_at m.nodes a n n' e s (cells h));
    chains = λ h. Chain-put_at m.nodes a n n' e s (cells h) (w.chains h);
    only = λ k.
        AllAt-put_at m.nodes a n n' e s k (place' k) (cells (bucket_of hash k m)) (kept k) (f k);
  }

  module _ (y : Cell) (u : m.nodes y.addr ≡ none) (z : y.addr ≢ null)
      (f : (k : ℕ) → is_match k y ≡ true → y.addr ≡ place' k) where
    pub WellFormed-append_at :
        (p : ℕ) (n : Node) (e : m.nodes p ≡ some n) (l : n.next ≡ null)
        → WellFormed hash
            (record m { nodes = appended m.nodes y p n e l u z })
            (λ h. append_at p y (cells h))
            place'
    WellFormed-append_at p n e l = record {
      some_buckets = w.some_buckets;
      starts = λ h b. w.starts h b ∙ sym (first-append_at y p (cells h));
      chains = λ h. Chain-append_at m.nodes y p n e l u z (cells h) (w.chains h);
      only = λ k. AllAt-append_at y p k (place' k) (cells (bucket_of hash k m)) (kept k) (f k);
    }

    Chain-new :
        (xs : List Cell)
        → Chain m.nodes xs
        → Chain (update m.nodes y.addr (some (linked y null))) xs
    Chain-new [] c = tt
    Chain-new (x ∷ xs) c = (
      update_ne m.nodes y.addr (some (linked y null)) x.addr
            (λ r. some-ne m.nodes x.addr y.addr (linked x (first xs)) c.0 u (sym r))
          ∙ c.0,
      c.1,
      Chain-new xs c.2,
    )

    -- The new node is the first of an empty bucket.
    module _ (b : ℕ) where
      abbrev pub with_first : HashMap
      with_first = record m {
        nodes = update m.nodes y.addr (some (linked y null));
        buckets = update m.buckets b y.addr;
      }

      starts-first :
          (h : ℕ) → h < m.capacity → update m.buckets b y.addr h ≡ first (update cells b (y ∷ []) h)
      starts-first h l = elim (Bool-cases (b == h)) [
        | inl q ↦
            let r = eq_of_== b h q in
            ap (update m.buckets b y.addr) (sym r)
            ∙ update_self m.buckets b y.addr
            ∙ ap first (sym (update_self cells b (y ∷ [])))
            ∙ ap (λ i. first (update cells b (y ∷ []) i)) r
        | inr q ↦
            update_ne m.buckets b y.addr h (ne_of_== b h q)
            ∙ w.starts h l
            ∙ ap first (sym (update_ne cells b (y ∷ []) h (ne_of_== b h q)))
      ]

      pub WellFormed-first : WellFormed hash with_first (update cells b (y ∷ [])) place'
      WellFormed-first = record {
        some_buckets = w.some_buckets;
        starts = λ h l. starts-first h l;
        chains = λ h.
            update-holds (Chain with_first.nodes) cells b (y ∷ []) h
              (update_self m.nodes y.addr (some (linked y null)), z, tt)
              (Chain-new (cells h) (w.chains h));
        only = λ k.
            update-holds (AllAt k (place' k)) cells b (y ∷ []) (bucket_of hash k m) (f k, tt)
              (kept k);
      }
