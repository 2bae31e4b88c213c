-- ===== src/Maps/Resizable/Rebuilding.antt =====
-- pdatastructures/TMHashMap.hpp: `rebuild` keeps what the map stands for.
use plsf.Prelude.{
  ℕ, zero, suc, ◌+◌, ◌-◌, ◌*◌, ◌^◌, ◌≡◌, ◌≤◌, ◌<◌, ◌%◌, refl, arith, Option, none, some, List, [],
  ◌∷◌, All, ap, sym, subst, ◌∙◌, update, update_self, update_ne, ◌==◌, Bool-cases, inl, inr,
}
use native.Mathlib.Nat.{mod-lt}
use plsf.Lists.Nodes.{null, done}
use plsf.Maps.FixedSize.Changed.{eq_of_==, ne_of_==}
use plsf.Maps.Resizable.{Node, HashMap, clear_from, rebuild}
use plsf.Maps.Resizable.Cells.{Cell, first}
use plsf.Maps.Resizable.Family.{lookup, Owned}
use plsf.Maps.Resizable.Steps.{or_else}
use plsf.Maps.Resizable.View.{Home, Represents}
use plsf.Maps.Resizable.Moving.{Either, Moving}
use plsf.Maps.Resizable.Emptying.{move_buckets_lem}

pub clear_from-cleared :
    (n i : ℕ) (buckets : ℕ → ℕ) (h : ℕ)
    → (i ≤ h → h < i + n → clear_from n i buckets h ≡ null)
      × (h < i → clear_from n i buckets h ≡ buckets h)
unfolding clear_from
clear_from-cleared zero i buckets h = ((λ p q. absurd (omega (arith, p, q))), (λ p. refl))
clear_from-cleared (suc n) i buckets h =
    let r = clear_from-cleared n (suc i) (update buckets i null) h in
    (
      (λ p q. elim (Bool-cases (i == h)) [
        | inl e ↦
            let at = eq_of_== i h e in
            r.1 (omega (arith, at))
            ∙ ap (update buckets i null) (sym at)
            ∙ update_self buckets i null
        | inr e ↦ r.0 (omega (arith, p, ne_of_== i h e)) (omega (arith, q))
      ]),
      (λ p. r.1 (omega (arith, p)) ∙ update_ne buckets i null h (omega (arith, p))),
    )

double : (c : ℕ) → 2 * c < 2 ^ 64 → (2 * c) % 2 ^ 64 ≡ 2 * c
double c h = omega (arith, h)

or_else-absent : (o : Option ℕ) → or_else o none ≡ o
or_else-absent none = refl
or_else-absent (some v) = refl

module _ {hash : ℕ → ℕ} {m : HashMap} {n : ℕ} {f : ℕ → Option ℕ} (g : Represents hash m n f) (d : ℕ)
    (positive : 0 < d) where
  none_beyond : (t : ℕ) → m.capacity ≤ t → g.lists t ≡ []
  none_beyond t le = beyond (g.lists t) (g.family.cells t)
    where
      beyond : (xs : List Cell) → All (Owned (Home hash m.capacity) g.own g.place t) xs → xs ≡ []
      beyond [] o = refl
      beyond (x ∷ xs) o = absurd (omega (arith, le, o.0.2, mod-lt (hash x.key) g.some_buckets))

  Owned-Either :
      (t : ℕ) (xs : List Cell)
      → All (Owned (Home hash m.capacity) g.own g.place t) xs
      → All (Owned (Either hash m.capacity d m.nodes f) g.own g.place t) xs
  Owned-Either t [] o = tt
  Owned-Either t (x ∷ xs) o = (
    (
      o.0.0,
      o.0.1,
      ((λ q. o.0.2), (λ q. absurd (omega (arith, q, o.0.2, mod-lt (hash x.key) g.some_buckets)))),
    ),
    Owned-Either t xs o.1,
  )

  -- Before the first move, with new buckets that are all empty.
  pub start-Moving :
      (nb : ℕ → ℕ)
      → ((h : ℕ) → h < d → nb h ≡ null)
      → Moving hash m.capacity d m.nodes f m.nodes nb g.lists g.own g.place 0
  start-Moving nb cleared = record {
    family = record {
      chains = g.family.chains;
      cells = λ t. Owned-Either t (g.lists t) (g.family.cells t);
      distinct = g.family.distinct;
    };
    fronts = λ h lt. cleared h lt ∙ sym (ap first (none_beyond (m.capacity + h) (omega arith)));
    short = λ h. rw (none_beyond (m.capacity + h) (omega arith)) (omega arith);
    values = λ k. rw (none_beyond (m.capacity + hash k % d) (omega arith)) (g.values k);
    free = λ a e. e;
  }

module _ (hash : ℕ → ℕ) (cap d : ℕ) (nodes0 : ℕ → Option Node) (f : ℕ → Option ℕ) where
  Owned-renamed :
      (own place : ℕ → ℕ) (h : ℕ) (xs : List Cell)
      → All (Owned (Either hash cap d nodes0 f) own place (cap + h)) xs
      → All (Owned (Home hash d) (λ a. own a - cap) place h) xs
  Owned-renamed own place h [] o = tt
  Owned-renamed own place h (x ∷ xs) o = (
    (omega (arith, o.0.0), o.0.1, omega (arith, o.0.2.1 (omega arith))),
    Owned-renamed own place h xs o.1,
  )

  -- After the last move, the new buckets hold all that the map stands for.
  pub end-Represents :
      (nodes : ℕ → Option Node) (nb : ℕ → ℕ) (lists : ℕ → List Cell) (own place : ℕ → ℕ)
      (b size : ℕ)
      → 0 < cap
      → 0 < d
      → Moving hash cap d nodes0 f nodes nb lists own place b
      → ((u : ℕ) → u < cap → lists u ≡ [])
      → Represents hash (record { capacity = d; size_hm = size; buckets = nb; nodes = nodes }) b f
  end-Represents nodes nb lists own place b size some_old some_new g gone = record {
    lists = λ h. lists (cap + h);
    own = λ a. own a - cap;
    place = place;
    some_buckets = some_new;
    starts = g.fronts;
    family = record {
      chains = λ h. g.family.chains (cap + h);
      cells = λ h. Owned-renamed own place h (lists (cap + h)) (g.family.cells (cap + h));
      distinct = λ h. g.family.distinct (cap + h);
    };
    short = g.short;
    values = λ k.
        sym (or_else-absent (lookup k (lists (cap + hash k % d))))
        ∙ subst (λ zs. or_else (lookup k (lists (cap + hash k % d))) (lookup k zs) ≡ f k)
            (gone (hash k % cap) (mod-lt (hash k) some_old)) (g.values k);
  }

-- `rebuild` of a map that stands for `f`, with at most `n` nodes in a bucket, more than `n` rounds of
-- the inner loop and fewer than 2^30 buckets, meets no address that holds no node and ends with twice
-- as many buckets and at most the old capacity times `n` nodes in each. The map stands for `f` still,
-- and an address that held no node holds none, whatever the array that `tmMalloc` gives held.
pub rebuild_lem :
    (hash garbage : ℕ → ℕ) (r : ℕ) (m : HashMap) (n : ℕ) (f : ℕ → Option ℕ)
    → Represents hash m n f
    → n ≤ r
    → 2 * m.capacity < 2 ^ 31
    → (m' : HashMap) × (rebuild hash garbage (suc r) m ≡ done tt m')
      × Represents hash m' (m.capacity * n) f
      × ((a : ℕ) → m.nodes a ≡ none → m'.nodes a ≡ none)
      × (m'.capacity ≡ 2 * m.capacity)
unfolding rebuild
rebuild_lem hash garbage r m n f g enough small =
    let d = (2 * m.capacity) % 2 ^ 64 in
    let e : d ≡ 2 * m.capacity = double m.capacity (omega (arith, small)) in
    let positive : 0 < d = omega (arith, e, g.some_buckets) in
    let nb = clear_from d 0 garbage in
    let begun =
      start-Moving g d positive nb
        (λ h lt. (clear_from-cleared d 0 garbage h).0 (omega arith) (omega (arith, lt))) in
    let s =
      move_buckets_lem hash m.capacity d m.nodes f positive g.place m.capacity 0 r n m nb g.lists
        g.own 0 (omega arith) enough begun (λ u q lt. g.starts u lt) (λ u q lt. g.short u) in
    (
      record m { nodes = s.nodes_end; buckets = s.newbuckets; capacity = d },
      rw s.result refl,
      end-Represents hash m.capacity d m.nodes f s.nodes_end s.newbuckets s.lists_end s.own_end
          g.place (m.capacity * n) m.size_hm g.some_buckets positive
          (subst
            (λ z.
              Moving hash m.capacity d m.nodes f s.nodes_end s.newbuckets s.lists_end s.own_end
                g.place z)
            (omega arith) s.moving)
          (λ u lt. s.gone u lt (omega arith)),
      s.moving.free,
      e,
    )
