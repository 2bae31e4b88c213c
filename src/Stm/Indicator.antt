-- ===== src/Stm/Indicator.antt =====
-- stms/2PLSF.hpp: the read-indicator. Each pair of lock and thread has one bit; `arrived` reads it
-- as the code does, and the lemmas say what a store to a word does to every pair.
use plsf.Prelude.{
  ℕ, ◌%◌, ◌<◌, ◌≡◌, ◌≢◌, ◌∙◌, ◌⊎◌, inl, inr, ◌^◌, Bool, true, false, not, ◌&&◌, bit_and, bit_or,
  arith, ◌==◌, if◌then◌else◌, update, ℕ_discrete,
}
use plsf.Word.{bit_or_eq, bit_and_eq_zero, has_bit, not_word, has_bit-bit_or, has_bit-clear}
use plsf.Config.{registry_max_threads, num_rwl}
use plsf.Index.{write_idx2read_idx, ribit}
use plsf.Index.Separation.{read_indicator_separation}

-- Whether thread `tid` has its bit for lock `widx` set.
unfoldable pub arrived : (ℕ → ℕ) → ℕ → ℕ → Bool
arrived ri widx tid = has_bit (widx % 64) (ri (write_idx2read_idx widx tid))

-- `ri | ribit(widx)`
unfoldable pub with_bit : ℕ → ℕ → ℕ
with_bit ri widx = bit_or ri (ribit widx)

-- `ri & (~ribit(widx))`
unfoldable pub without_bit : ℕ → ℕ → ℕ
without_bit ri widx = bit_and ri (not_word 64 (ribit widx))

-- Two tests of the code: `(ri | bit) == ri` and `(ri & bit) == 0`.
module _ (ri : ℕ → ℕ) (widx tid : ℕ) where
  pub with_bit_eq :
      (with_bit (ri (write_idx2read_idx widx tid)) widx == ri (write_idx2read_idx widx tid))
      ≡ arrived ri widx tid
  unfolding with_bit ribit arrived
  with_bit_eq = bit_or_eq (widx % 64) (ri (write_idx2read_idx widx tid))

  pub masked_eq_zero :
      (bit_and (ri (write_idx2read_idx widx tid)) (ribit widx) == 0) ≡ not (arrived ri widx tid)
  unfolding ribit arrived
  masked_eq_zero = bit_and_eq_zero (widx % 64) (ri (write_idx2read_idx widx tid))

module _ (ri : ℕ → ℕ) (widx tid w t : ℕ) (p : widx < num_rwl) (q : tid < registry_max_threads)
    (p' : w < num_rwl) (q' : t < registry_max_threads) where
  -- A store to the word of `(widx, tid)` leaves every other pair's bit as the new word has it.
  arrived_store :
      (word : ℕ)
      → ((w % 64 ≡ widx % 64 → ⊥)
          → has_bit (w % 64) word ≡ has_bit (w % 64) (ri (write_idx2read_idx widx tid)))
      → arrived (update ri (write_idx2read_idx widx tid) word) w t
        ≡ (if (w == widx) && (t == tid) then has_bit (widx % 64) word else arrived ri w t)
  unfolding arrived update
  arrived_store word keep =
      elim (ℕ_discrete (write_idx2read_idx widx tid) (write_idx2read_idx w t)) [
        | yes e ↦ same_word e
        | no h ↦ other_word h
      ]
    where
      -- The two sides, the word that is stored into given by a test.
      AtPair : Type 0
      AtPair =
          has_bit (w % 64) (
            if write_idx2read_idx widx tid == write_idx2read_idx w t
            then word
            else ri (write_idx2read_idx w t))
          ≡ (if (w == widx) && (t == tid)
              then has_bit (widx % 64) word
              else has_bit (w % 64) (ri (write_idx2read_idx w t)))

      other_word : write_idx2read_idx widx tid ≢ write_idx2read_idx w t → AtPair
      other_word h = elim (ℕ_discrete w widx) [
        | yes e ↦ elim (ℕ_discrete t tid) [ yes e' ↦ absurd (h (rw (e, e'))) | no _ ↦ ground arith ]
        | no _ ↦ ground arith
      ]

      same_word : write_idx2read_idx widx tid ≡ write_idx2read_idx w t → AtPair
      same_word e = ground (arith, read_indicator_separation widx tid w t p p' q q' e, keep)

  -- Arriving sets the bit of `(widx, tid)` and no other.
  pub arrived-with_bit :
      arrived
        (update ri (write_idx2read_idx widx tid) (with_bit (ri (write_idx2read_idx widx tid)) widx))
        w
        t
      ≡ (if (w == widx) && (t == tid) then true else arrived ri w t)
  unfolding with_bit ribit
  arrived-with_bit =
      arrived_store _ (λ h.
        ground (arith, has_bit-bit_or (w % 64) (widx % 64) (ri (write_idx2read_idx widx tid))))
      ∙ ground (arith, has_bit-bit_or (widx % 64) (widx % 64) (ri (write_idx2read_idx widx tid)))

  -- Departing from a word that is held in a local variable, or from that word with the bit set,
  -- clears the bit of `(widx, tid)` and no other.
  pub arrived-depart :
      (word : ℕ)
      → (ri (write_idx2read_idx widx tid) ≡ word)
        ⊎ (ri (write_idx2read_idx widx tid) ≡ with_bit word widx)
      → arrived (update ri (write_idx2read_idx widx tid) (without_bit word widx)) w t
        ≡ (if (w == widx) && (t == tid) then false else arrived ri w t)
  unfolding with_bit without_bit ribit
  arrived-depart word now =
      arrived_store _ others ∙ ground (arith, cleared (widx % 64) (omega arith))
    where
      cleared :
          (j : ℕ)
          → j < 64
          → has_bit j (bit_and word (not_word 64 (2 ^ (widx % 64))))
            ≡ (if j == widx % 64 then false else has_bit j word)
      cleared j h = has_bit-clear 64 j (widx % 64) word h (omega arith)

      others :
          (w % 64 ≡ widx % 64 → ⊥)
          → has_bit (w % 64) (bit_and word (not_word 64 (2 ^ (widx % 64))))
            ≡ has_bit (w % 64) (ri (write_idx2read_idx widx tid))
      others h = elim now [
        | inl e ↦ rw e (ground (arith, cleared (w % 64) (omega arith)))
        | inr e ↦ rw e (
            ground
              (arith, cleared (w % 64) (omega arith), has_bit-bit_or (w % 64) (widx % 64) word))
      ]
