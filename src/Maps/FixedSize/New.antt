-- ===== src/Maps/FixedSize/New.antt =====
-- pdatastructures/TMHashMapFixedSize.hpp: the constructor, and the operations as transactions.
use plsf.Prelude.{
  ℕ, zero, suc, ◌+◌, ◌≡◌, ◌<◌, refl, arith, true, false, ltb, ◌==◌, none, [], ap, sym, ◌∙◌, update,
  update_self, update_ne, Bool-cases, inl, inr,
}
use plsf.Lists.Nodes.{null, done}
use plsf.Maps.FixedSize.{HashMap, clear_from, new_fixed_map}
use plsf.Maps.FixedSize.Changed.{eq_of_==, ne_of_==}
use plsf.Maps.FixedSize.Operations.{Represents}

clear_from_lem :
    (n i : ℕ) (m : HashMap)
    → n + i ≡ m.capacity
    → ((h : ℕ) → h < i → m.buckets h ≡ null)
    → (m' : HashMap) × (clear_from (suc n) i m ≡ done tt m')
      × (m'.capacity ≡ m.capacity)
      × (m'.nodes ≡ m.nodes)
      × ((h : ℕ) → h < m'.capacity → m'.buckets h ≡ null)
unfolding clear_from
clear_from_lem zero i m e c =
    let q : ltb i m.capacity ≡ false = ground (arith, e) in
    (m, rw q refl, refl, refl, λ h l. c h (omega (arith, e)))
clear_from_lem (suc n) i m e c =
    let q : ltb i m.capacity ≡ true = ground (arith, e) in
    let r =
      clear_from_lem n (suc i) (record m { buckets = update m.buckets i null }) (omega (arith, e))
        (λ h l. elim (Bool-cases (i == h)) [
          | inl o ↦
              ap (update m.buckets i null) (sym (eq_of_== i h o)) ∙ update_self m.buckets i null
          | inr o ↦
              update_ne m.buckets i null h (ne_of_== i h o)
              ∙ c h (ground (arith, l, ne_of_== i h o))
        ]) in
    (r.0, rw q r.1, r.2, r.3, r.4)

new_fixed_map-Represents :
    (hash : ℕ → ℕ) (capa : ℕ) (m : HashMap)
    → 0 < capa
    → (m' : HashMap) × (new_fixed_map (suc capa) capa m ≡ done true m')
      × (m'.nodes ≡ m.nodes)
      × Represents hash m' 0 (λ k. none)
unfolding new_fixed_map Represents
new_fixed_map-Represents hash capa m b =
    let r =
      clear_from_lem capa 0 (record m { capacity = capa }) (omega arith)
        (λ h q. absurd (omega arith)) in
    (
      r.0,
      rw (r.1) refl,
      r.3,
      (
        (λ h. []),
        (λ k. 0),
        record {
          some_buckets = omega (arith, r.2);
          starts = r.4;
          chains = λ h. tt;
          only = λ k. tt;
        },
        (λ h. omega arith),
        (λ k. refl),
      ),
    )
