-- ===== src/TwoPlUndo/Locks/Roundtrip.antt =====
-- stms/2PLUndo.hpp: a lock taken and given back.
use native.Mathlib.Nat.{one-le-pow}
use plsf.Prelude.{ℕ, ◌+◌, ◌^◌, ◌≤◌, ◌<◌, ◌≡◌, arith, true, false, sym, ◌∙◌}
use plsf.Word.{has_bit}
use plsf.TwoPlUndo.LockWord.{
  get_write_state, get_read_indicator, is_read_locked_by_me, write_locked, fetch_add, fetch_sub,
  decrement,
}
use plsf.TwoPlUndo.LockWord.Parts.{
  indicator_mod, write_locked_plain, write_locked-writer, fetch_add-has_bit,
  is_read_locked_by_me_lem,
}
use plsf.TwoPlUndo.Access.Own.{decrement_lem}
use plsf.TwoPlUndo.Locks.Held.{released_nothing, released-added, released-locked}

no_bit : (t x : ℕ) → decrement x t ≡ 0 → has_bit t x ≡ false
no_bit t x e = ground (arith, decrement_lem x t, one-le-pow t 2)

same_indicator :
    (t x : ℕ)
    → t < 56
    → get_write_state x ≤ 56
    → get_write_state x ≡ 0
    → get_read_indicator (write_locked x t) ≡ get_read_indicator x
unfolding get_write_state
same_indicator t x h small e =
    indicator_mod (write_locked x t)
    ∙ rw (write_locked_plain t x h small e) (omega arith)
    ∙ sym (indicator_mod x)

-- The word of a lock, of which a thread in range has no part. Where no thread has it in write mode,
-- `tryWriteLock` puts in a word with the thread as the writer and the same read-indicator, and what
-- `unlock` makes of it is the word before. So it is with the bit that `tryReadLock` adds, which
-- `isReadLockedByMe` then reads.
pub lock_word_roundtrip :
    (t x : ℕ)
    → t < 56
    → get_write_state x ≤ 56
    → decrement x t ≡ 0
    → (get_write_state x ≡ 0
        → (get_write_state (write_locked x t) ≡ t + 1)
          × (get_read_indicator (write_locked x t) ≡ get_read_indicator x)
          × (fetch_sub (write_locked x t) (decrement (write_locked x t) t) ≡ x))
      × ((is_read_locked_by_me (fetch_add x (2 ^ t)) t ≡ true)
          × (fetch_sub (fetch_add x (2 ^ t)) (decrement (fetch_add x (2 ^ t)) t) ≡ x))
lock_word_roundtrip t x h small e = (
  λ z. (
    write_locked-writer t x h small z,
    same_indicator t x h small z,
    released-locked t x h small z ∙ released_nothing t x h small e,
  ),
  (
    is_read_locked_by_me_lem (fetch_add x (2 ^ t)) t
        ∙ fetch_add-has_bit t x h small (no_bit t x e) t
        ∙ ground arith,
    released-added t x h small (no_bit t x e) ∙ released_nothing t x h small e,
  ),
)
