-- ===== src/TwoPlUndo/Locks/Taking.antt =====
-- stms/2PLUndo.hpp: `tryReadLock` and `tryWriteLock` on the locks that a thread holds.
use plsf.Prelude.{
  ℕ, ◌+◌, ◌^◌, ◌<◌, ◌≡◌, ◌≢◌, ◌⊎◌, inl, inr, refl, arith, Bool, true, false, ◌||◌, ◌==◌, update, ap,
  sym, ◌∙◌,
}
use plsf.Word.{has_bit}
use plsf.TwoPlUndo.LockWord.{hidx, get_write_state, write_locked, fetch_add, decrement}
use plsf.TwoPlUndo.LockWord.Parts.{
  is_read_locked_by_me_lem, release-writer, decrement-le, is_empty_ri_own,
}
use plsf.TwoPlUndo.Access.Own.{true-ne-false}
use plsf.TwoPlUndo.Locks.{try_read_lock, try_write_lock, arrive, compare_exchange}
use plsf.TwoPlUndo.Locks.Held.{
  Held, Held-update, released-added, released-locked, added-small, locked-small, released,
  released_plain,
}

state_zero : get_write_state 0 ≡ 0
unfolding get_write_state
state_zero = refl

module _ (t : ℕ) (h : t < 56) (b locks : ℕ → ℕ) (logged : ℕ → Bool) (i : Held t b locks logged)
    (addr : ℕ) where
  with_entry : (ℕ → Bool) → ℕ → Bool
  with_entry g k = g k || (hidx addr == k)

  -- What `tryReadLock` and `tryWriteLock` do to the array.
  try_read_lock-cases :
      (try_read_lock addr t locks ≡ (true, locks))
      ⊎ (try_read_lock addr t locks ≡ (false, locks))
      ⊎ ((try_read_lock addr t locks
            ≡ (true, update locks (hidx addr) (fetch_add (locks (hidx addr)) (2 ^ t))))
          × (has_bit t (locks (hidx addr)) ≡ false))
  unfolding try_read_lock arrive
  try_read_lock-cases = ground (arith, is_read_locked_by_me_lem (locks (hidx addr)) t)

  try_write_lock-cases :
      (try_write_lock addr t locks ≡ (true, locks))
      ⊎ (try_write_lock addr t locks ≡ (false, locks))
      ⊎ ((try_write_lock addr t locks
            ≡ (true, update locks (hidx addr) (write_locked (locks (hidx addr)) t)))
          × (get_write_state (locks (hidx addr)) ≡ 0))
  unfolding try_write_lock compare_exchange
  try_write_lock-cases = ground arith

  more_logged : (k : ℕ) → logged k ≡ true → with_entry logged k ≡ true
  unfolding with_entry
  more_logged k e = ground (arith, e)

  entry_logged : with_entry logged (hidx addr) ≡ true
  unfolding with_entry
  entry_logged = ground arith

  Held-more : Held t b locks (with_entry logged)
  Held-more = record { base = i.base; small = i.small; mine = λ k n. more_logged k (i.mine k n) }

  pub Held-read : Held t b ((try_read_lock addr t locks).1) (λ k. logged k || (hidx addr == k))
  unfolding with_entry
  Held-read = elim try_read_lock-cases [
    | inl e ↦ rw e Held-more
    | inr (inl e) ↦ rw e Held-more
    | inr (inr e) ↦
        let x = locks (hidx addr) in
        rw (e.0) (
          Held-update t b locks logged (with_entry logged) (hidx addr) (fetch_add x (2 ^ t)) i
            more_logged (λ n. entry_logged) (released-added t x h (i.small (hidx addr)) e.1)
            (added-small t x h (i.small (hidx addr)) e.1))
  ]

  pub Held-read_refused :
      (try_read_lock addr t locks).0 ≡ false → Held t b ((try_read_lock addr t locks).1) logged
  Held-read_refused r = elim try_read_lock-cases [
    | inl e ↦ absurd (true-ne-false (sym (ap (λ p. p.0) e) ∙ r))
    | inr (inl e) ↦ rw e i
    | inr (inr e) ↦ absurd (true-ne-false (sym (ap (λ p. p.0) e.0) ∙ r))
  ]

  pub Held-write : Held t b ((try_write_lock addr t locks).1) (λ k. logged k || (hidx addr == k))
  unfolding with_entry
  Held-write = elim try_write_lock-cases [
    | inl e ↦ rw e Held-more
    | inr (inl e) ↦ rw e Held-more
    | inr (inr e) ↦
        let x = locks (hidx addr) in
        rw (e.0) (
          Held-update t b locks logged (with_entry logged) (hidx addr) (write_locked x t) i
            more_logged (λ n. entry_logged) (released-locked t x h (i.small (hidx addr)) e.1)
            (locked-small t x h (i.small (hidx addr)) e.1))
  ]

  pub Held-write_refused :
      (try_write_lock addr t locks).0 ≡ false → Held t b ((try_write_lock addr t locks).1) logged
  Held-write_refused r = elim try_write_lock-cases [
    | inl e ↦ absurd (true-ne-false (sym (ap (λ p. p.0) e) ∙ r))
    | inr (inl e) ↦ rw e i
    | inr (inr e) ↦ absurd (true-ne-false (sym (ap (λ p. p.0) e.0) ∙ r))
  ]

  foreign_writer :
      b (hidx addr) ≡ 0
      → (get_write_state (locks (hidx addr)) ≡ 0) ⊎ (get_write_state (locks (hidx addr)) ≡ t + 1)
  foreign_writer e =
      let x = locks (hidx addr) in
      let z : get_write_state (released t x) ≡ 0 =
        ap get_write_state (i.base (hidx addr) ∙ e) ∙ state_zero in
      ground (arith, release-writer t x h (i.small (hidx addr)))

  -- They return false only where another thread has part of the word.
  pub read_refused-ne_zero : (try_read_lock addr t locks).0 ≡ false → b (hidx addr) ≢ 0
  unfolding try_read_lock arrive
  read_refused-ne_zero r e = ground (arith, foreign_writer e)

  pub write_refused-ne_zero : (try_write_lock addr t locks).0 ≡ false → b (hidx addr) ≢ 0
  unfolding try_write_lock compare_exchange
  write_refused-ne_zero r e =
      let x = locks (hidx addr) in
      let own : x ≡ decrement x t = omega (
        arith,
        released_plain t x h (i.small (hidx addr)),
        i.base (hidx addr),
        decrement-le t x h (i.small (hidx addr)),
      ) in
      ground (arith, foreign_writer e, is_empty_ri_own t x h (i.small (hidx addr)) own)
