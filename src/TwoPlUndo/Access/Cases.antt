-- ===== src/TwoPlUndo/Access/Cases.antt =====
-- stms/2PLUndo.hpp: the results of each access, and what a caller makes of a returned value.
use plsf.Prelude.{
  ℕ, ◌+◌, ◌≤◌, ◌<◌, ◌≡◌, ◌≢◌, ◌⊎◌, inl, inr, arith, Bool, true, false, ◌||◌, Bool-cases, ap, sym,
  ◌∙◌,
}
use plsf.Word.{has_bit}
use plsf.TwoPlUndo.LockWord.{get_write_state, is_empty_ri, decrement}
use plsf.TwoPlUndo.LockWord.Parts.{is_read_locked_by_me_lem}
use plsf.TwoPlUndo.Access.{
  read_add, read_undo, write_cas, unlock_sub, next, returns, read_loaded, read_added, write_loaded,
  unlock_loaded, Pc, outside, before, Local,
}
use plsf.TwoPlUndo.Access.Own.{Good, true-ne-false}

unfoldable pub is_read_undo : Pc → Bool
is_read_undo (before read_undo) = true
is_read_undo p = false

pub ne-read_undo : (p : Pc) → is_read_undo p ≡ false → p ≢ before read_undo
unfolding is_read_undo
ne-read_undo p e q = true-ne-false (sym (ap is_read_undo q) ∙ e)

pub not-true : {b : Bool} → (b ≡ true → ⊥) → b ≡ false
not-true {b} f = elim (Bool-cases b) [ inl e ↦ absurd (f e) | inr e ↦ e ]

unfoldable pub Holds : ℕ → ℕ → Type 0
Holds t x = (get_write_state x ≡ 0) ⊎ (get_write_state x ≡ t + 1)

module _ (t x : ℕ) (h : t < 56) (small : get_write_state x ≤ 56) where
  pub read_loaded-cases :
      ((read_loaded t x ≡ returns true) × ((has_bit t x ≡ true) ⊎ (get_write_state x ≡ t + 1)))
      ⊎ (read_loaded t x ≡ returns false)
      ⊎ ((read_loaded t x ≡ next read_add) × (has_bit t x ≡ false))
  unfolding read_loaded
  read_loaded-cases = ground (arith, is_read_locked_by_me_lem x t)

  pub read_added-cases :
      ((read_added t x ≡ returns true) × Holds t x)
      ⊎ ((read_added t x ≡ next read_undo) × (get_write_state x ≢ 0) × (get_write_state x ≢ t + 1))
  unfolding read_added Holds
  read_added-cases = ground arith

  pub write_loaded-cases :
      ((write_loaded t x ≡ returns true) × (get_write_state x ≡ t + 1))
      ⊎ (write_loaded t x ≡ returns false)
      ⊎ ((write_loaded t x ≡ next (write_cas x))
          × (get_write_state x ≡ 0)
          × (is_empty_ri x t ≡ true))
  unfolding write_loaded
  write_loaded-cases = ground arith

  pub unlock_loaded-cases :
      (unlock_loaded t x ≡ returns true) ⊎ (unlock_loaded t x ≡ next (unlock_sub (decrement x t)))
  unfolding unlock_loaded
  unlock_loaded-cases = ground arith

  pub settled :
      (l : Local) → is_read_undo l.pc ≡ false → Good t x l → has_bit t x ≡ true → Holds t x
  unfolding Holds
  settled l e g b = elim (g.bit b) [ inl q ↦ absurd (ne-read_undo l.pc e q) | inr z ↦ z ]

  pub settled-outside :
      (l : Local)
      → l.pc ≡ outside
      → Good t x l
      → has_bit t x ≡ true
      → (get_write_state x ≡ 0) ⊎ (get_write_state x ≡ t + 1)
  unfolding Holds is_read_undo
  settled-outside l e g b = settled l (ap is_read_undo e) g b

unfoldable pub Reads : ℕ → ℕ → Type 0
Reads t x = (get_write_state x ≡ t + 1) ⊎ ((get_write_state x ≡ 0) × (has_bit t x ≡ true))

-- The return of a value to a caller, who counts it as a lock held.
module _ (t x y : ℕ) (l : Local) (g : Good t x l) where
  pub read_returned :
      (b : Bool)
      → (has_bit t y ≡ true → Holds t y)
      → (Reads t x → Reads t y)
      → (get_write_state x ≡ t + 1 → get_write_state y ≡ t + 1)
      → (b ≡ true → Reads t y)
      → Good t y (record { pc = outside; reads = l.reads || b; writes = l.writes })
  unfolding Holds Reads
  read_returned b s r w f = record {
    knows = tt;
    bit = λ q. inr (s q);
    reader = λ q. elim (Bool-cases l.reads) [
      | inl e ↦ r (g.reader e)
      | inr e ↦ f (ground (arith, q, e))
    ];
    writer = λ q. w (g.writer q);
  }

  pub write_returned :
      (b : Bool)
      → (has_bit t y ≡ true → Holds t y)
      → (Reads t x → Reads t y)
      → (get_write_state x ≡ t + 1 → get_write_state y ≡ t + 1)
      → (b ≡ true → get_write_state y ≡ t + 1)
      → Good t y (record { pc = outside; reads = l.reads; writes = l.writes || b })
  unfolding Holds Reads
  write_returned b s r w f = record {
    knows = tt;
    bit = λ q. inr (s q);
    reader = λ q. r (g.reader q);
    writer = λ q. elim (Bool-cases l.writes) [
      | inl e ↦ w (g.writer e)
      | inr e ↦ f (ground (arith, q, e))
    ];
  }
