-- ===== src/TwoPlDist/Locks/Empty.antt =====
-- stms/2PLUndoDist.hpp: what the sum of `isEmpty` decides.
use plsf.Prelude.{
  ℕ, zero, suc, ◌+◌, ◌-◌, ◌%◌, ◌^◌, ◌≤◌, ◌<◌, ◌≡◌, ◌≢◌, ◌⊎◌, inl, inr, true, false, arith, ◌&&◌,
  ◌==◌, leb, ltb, if◌then◌else◌, ℕ_discrete, Bool-cases, sym, ap, subst, refl, ==_of_ne, ◌∙◌,
}
use plsf.Word.{has_bit, bit-le-one}
use plsf.Index.{write_idx2read_idx}
use plsf.Stm.Indicator.{arrived}
use plsf.Stm.Conflict.{get_max_threads}
use plsf.TwoPlDist.State.{Shared}
use plsf.TwoPlDist.Locks.{reader_bit, sum_bits, is_empty}

-- A thread in the range of the loop, other than `t`, that has arrived.
abbrev pub Blocks : (ℕ → ℕ) → ℕ → ℕ → ℕ → ℕ → Type 0
Blocks ri w t i n = (j : ℕ) × (i ≤ j) × (j < i + n) × (j ≢ t) × (arrived ri w j ≡ true)

module _ (ri : ℕ → ℕ) (w t : ℕ) where
  arrived_lem : (j : ℕ) → arrived ri w j ≡ (reader_bit ri w j == 1)
  unfolding arrived has_bit
  arrived_lem j = ground arith

  one : (j : ℕ) → reader_bit ri w j ≤ 1
  one j = bit-le-one (w % 64) (ri (write_idx2read_idx w j))

  -- The thread's own part of the sum.
  own : ℕ → ℕ → ℕ
  own n i = if leb i t && ltb t (i + n) then reader_bit ri w t else 0

  own_first : (n : ℕ) → (own (suc n) t ≡ reader_bit ri w t) × (own n (t + 1) ≡ 0)
  unfolding own
  own_first n = (ground arith, ground arith)

  own_later : (n i : ℕ) → i ≢ t → own (suc n) i ≡ own n (i + 1)
  unfolding own
  own_later n i h = ground arith

  abbrev Clear : ℕ → ℕ → Type 0
  Clear i n = (j : ℕ) → i ≤ j → j < i + n → j ≢ t → arrived ri w j ≡ false

  abbrev Summed : ℕ → ℕ → Type 0
  Summed n i =
      ((sum_bits n i ri w ≡ own n i) × Clear i n)
      ⊎ ((own n i < sum_bits n i ri w) × Blocks ri w t i n)

  Clear-step : (n i : ℕ) → (i ≢ t → arrived ri w i ≡ false) → Clear (i + 1) n → Clear i (suc n)
  Clear-step n i f c j lo hi ne = elim (ℕ_discrete i j) [
    | yes e ↦ ap (arrived ri w) (sym e) ∙ f (λ q. ne (sym e ∙ q))
    | no q ↦ c j (omega (arith, q)) (omega arith) ne
  ]

  Blocks-step : (n i : ℕ) → Blocks ri w t (i + 1) n → Blocks ri w t i (suc n)
  Blocks-step n i b = (b.0, omega (arith, b.1), omega (arith, b.2), b.3, b.4)

  sum_bits-own : (n : ℕ) → Summed n (t + 1) → Summed (suc n) t
  unfolding sum_bits
  sum_bits-own n (inl r) =
      inl (omega (arith, r.0, own_first n), Clear-step n t (λ q. absurd (q refl)) r.1)
  sum_bits-own n (inr r) = inr (omega (arith, r.0, own_first n), Blocks-step n t r.1)

  sum_bits-other : (n i : ℕ) → i ≢ t → Summed n (i + 1) → Summed (suc n) i
  unfolding sum_bits
  sum_bits-other n i h r = elim (Bool-cases (arrived ri w i)) [
    | inl b ↦
        let here : reader_bit ri w i ≡ 1 = ground (arith, arrived_lem i) in
        let rest : own n (i + 1) ≤ sum_bits n (i + 1) ri w = elim r [
          | inl q ↦ omega (arith, q.0)
          | inr q ↦ omega (arith, q.0)
        ] in
        inr (omega (arith, own_later n i h), (i, omega arith, omega arith, h, b))
    | inr b ↦
        let here : reader_bit ri w i ≡ 0 = ground (arith, arrived_lem i, one i) in
        elim r [
          | inl q ↦ inl (omega (arith, q.0, own_later n i h), Clear-step n i (λ z. b) q.1)
          | inr q ↦ inr (omega (arith, q.0, own_later n i h), Blocks-step n i q.1)
        ]
  ]

  sum_bits-cases : (n i : ℕ) → Summed n i
  unfolding sum_bits own
  sum_bits-cases zero i = inl (ground arith, λ j lo hi ne. absurd (omega arith))
  sum_bits-cases (suc n) i = elim (ℕ_discrete i t) [
    | yes e ↦ subst (Summed (suc n)) (sym e) (sum_bits-own n (sum_bits-cases n (t + 1)))
    | no h ↦ sum_bits-other n i h (sum_bits-cases n (i + 1))
  ]

  own-all : (n : ℕ) → t < n → own n 0 ≡ reader_bit ri w t
  unfolding own
  own-all n h = ground arith

  sum_bits-le : (n i : ℕ) → sum_bits n i ri w ≤ n
  unfolding sum_bits
  sum_bits-le zero i = omega arith
  sum_bits-le (suc n) i = omega (arith, one i, sum_bits-le n (i + 1))

abbrev pub threads : Shared → ℕ
threads g = get_max_threads g.max_tid % 2 ^ 32

-- For a caller that is registered itself, `isEmpty` is true exactly when no other registered thread has
-- arrived at the lock.
pub is_empty-cases :
    (g : Shared) (w t : ℕ)
    → t < threads g
    → ((is_empty g w t ≡ true)
        × ((j : ℕ) → j < threads g → j ≢ t → arrived g.read_indicators w j ≡ false))
      ⊎ ((is_empty g w t ≡ false) × Blocks g.read_indicators w t 0 (threads g))
unfolding is_empty
is_empty-cases g w t h =
    let ri = g.read_indicators in
    let bound = sum_bits-le ri w t (threads g) 0 in
    let mine = own-all ri w t (threads g) h in
    elim (sum_bits-cases ri w t (threads g) 0) [
      | inl q ↦
          let zero_sum : (sum_bits (threads g) 0 ri w + 2 ^ 64 - reader_bit ri w t) % 2 ^ 64 ≡ 0 =
            omega (arith, q.0, mine, one ri w t t) in
          inl (rw zero_sum refl, λ j hi ne. q.1 j (omega arith) (omega arith) ne)
      | inr q ↦
          let some_sum : (sum_bits (threads g) 0 ri w + 2 ^ 64 - reader_bit ri w t) % 2 ^ 64 ≢ 0 =
            omega (arith, q.0, mine, bound, one ri w t t) in
          inr (==_of_ne _ 0 some_sum, q.1)
    ]
