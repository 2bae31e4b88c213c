-- ===== src/Stm/Conflict/Readers.antt =====
-- stms/2PLSF.hpp: what the loop of `isEmpty` decides.
use plsf.Prelude.{
  ℕ, zero, suc, ◌+◌, ◌%◌, ◌^◌, ◌≤◌, ◌<◌, ◌≡◌, ◌≢◌, true, false, ◌&&◌, not, arith, ◌==◌, Bool-cases,
  inl, inr, ◌↔◌, ℕ_discrete, sym, ◌∙◌,
}
use mathlib.Core.Bool.{false≢true}
use plsf.Word.{bit_and_eq_self}
use plsf.Index.{write_idx2read_idx}
use plsf.Stm.State.{Shared}
use plsf.Stm.Indicator.{arrived}
use plsf.Stm.Conflict.{reader_blocks, is_empty_from, is_empty, get_max_threads}

module _ (g : Shared) (widx tid : ℕ) where
  pub reader_blocks_lem :
      (itid : ℕ)
      → reader_blocks g widx tid itid ≡ (arrived g.read_indicators widx itid && not (itid == tid))
  unfolding reader_blocks arrived
  reader_blocks_lem itid =
      rw (bit_and_eq_self (widx % 64) (g.read_indicators (write_idx2read_idx widx itid)))

  -- The loop returns true when no thread in its range, other than `tid`, has arrived.
  is_empty_from-clear :
      (n i itid : ℕ)
      → is_empty_from n i g widx tid ≡ true
      → i ≤ itid
      → itid < i + n
      → itid ≢ tid
      → arrived g.read_indicators widx itid ≡ false
  unfolding is_empty_from
  is_empty_from-clear zero i itid e lo hi ne = absurd (omega arith)
  is_empty_from-clear (suc n) i itid e lo hi ne = elim (ℕ_discrete i itid) [
    | yes p ↦ rw (← p) (ground (arith, reader_blocks_lem i))
    | no q ↦ is_empty_from-clear n (i + 1) itid (ground arith) (omega arith) (omega arith) ne
  ]

  -- It returns false only at such a thread.
  is_empty_from-blocked :
      (n i : ℕ)
      → is_empty_from n i g widx tid ≡ false
      → (itid : ℕ) × (itid < i + n) × (itid ≢ tid) × (arrived g.read_indicators widx itid ≡ true)
  unfolding is_empty_from
  is_empty_from-blocked zero i e = cc
  is_empty_from-blocked (suc n) i e = elim (Bool-cases (reader_blocks g widx tid i)) [
    | inl b ↦
        (i, omega arith, ground (arith, reader_blocks_lem i), ground (arith, reader_blocks_lem i))
    | inr b ↦
        let (itid, hi, ne, here) = is_empty_from-blocked n (i + 1) (ground arith) in
        (itid, omega arith, ne, here)
  ]

  -- `isEmpty` returns true exactly when no thread but `tid` with a tid below the count of threads, cut
  -- to 32 bits, has arrived at the lock.
  pub is_empty_iff : (is_empty g widx tid ≡ true) ↔ (
      (itid : ℕ)
      → itid < get_max_threads g.max_tid % 2 ^ 32
      → itid ≢ tid
      → arrived g.read_indicators widx itid ≡ false)
  unfolding is_empty
  is_empty_iff = (
    λ e itid hi ne. is_empty_from-clear _ 0 itid e (omega arith) (omega arith) ne,
    λ clear. elim (Bool-cases (is_empty_from (get_max_threads g.max_tid % 2 ^ 32) 0 g widx tid)) [
      | inl e ↦ e
      | inr e ↦
          let (itid, hi, ne, here) = is_empty_from-blocked _ 0 e in
          absurd (false≢true (sym (clear itid (omega arith) ne) ∙ here))
    ],
  )
