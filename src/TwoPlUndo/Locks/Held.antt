-- ===== src/TwoPlUndo/Locks/Held.antt =====
-- stms/2PLUndo.hpp: what a thread holds of the locks, and the word of each lock without it.
use plsf.Prelude.{
  ℕ, ◌+◌, ◌-◌, ◌*◌, ◌^◌, ◌≤◌, ◌<◌, ◌≡◌, ◌≢◌, arith, Bool, true, false, update, update_self,
  update_ne, ap, subst, sym, ◌∙◌, ℕ_discrete,
}
use plsf.Word.{has_bit}
use plsf.TwoPlUndo.LockWord.{get_write_state, write_locked, fetch_add, fetch_sub, decrement}
use plsf.TwoPlUndo.LockWord.Parts.{
  fetch_add-writer, fetch_add-has_bit, write_locked-writer, write_locked-has_bit,
  write_locked_plain, release-writer, release-has_bit, decrement-le, fetch_add_plain, below_word,
  plain_sub,
}
use plsf.TwoPlUndo.Access.Own.{decrement_lem}

-- The word with the thread's own part taken off.
abbrev pub released : ℕ → ℕ → ℕ
released t x = fetch_sub x (decrement x t)

module _ (t x : ℕ) (h : t < 56) (small : get_write_state x ≤ 56) where
  pub released_plain : released t x ≡ x - decrement x t
  released_plain = plain_sub x (decrement x t) (below_word t x h small) (decrement-le t x h small)

  pub released_nothing : decrement x t ≡ 0 → released t x ≡ x
  released_nothing e = released_plain ∙ omega arith

  pub released-small : get_write_state (released t x) ≤ 56
  released-small = ground (arith, release-writer t x h small)

  pub released-decrement : decrement (released t x) t ≡ 0
  released-decrement =
      rw (decrement_lem (released t x) t)
        (ground (arith, release-has_bit t x h small t h, release-writer t x h small))

  module _ (e : has_bit t x ≡ false) where
    pub added-small : get_write_state (fetch_add x (2 ^ t)) ≤ 56
    added-small = omega (arith, fetch_add-writer t x h small e)

    added-decrement : decrement (fetch_add x (2 ^ t)) t ≡ decrement x t + 2 ^ t
    added-decrement = rw (decrement_lem (fetch_add x (2 ^ t)) t) (
        rw (decrement_lem x t)
          (ground (arith, fetch_add-writer t x h small e, fetch_add-has_bit t x h small e t)))

  module _ (e : get_write_state x ≡ 0) where
    pub locked-small : get_write_state (write_locked x t) ≤ 56
    locked-small = omega (arith, write_locked-writer t x h small e)

    locked-decrement : decrement (write_locked x t) t ≡ decrement x t + (t + 1) * 2 ^ 56
    locked-decrement = rw (decrement_lem (write_locked x t) t) (
        rw (decrement_lem x t) (
          ground
            (arith, write_locked-writer t x h small e, write_locked-has_bit t x h small e t h)))

pub released-added :
    (t x : ℕ)
    → t < 56
    → get_write_state x ≤ 56
    → has_bit t x ≡ false
    → released t (fetch_add x (2 ^ t)) ≡ released t x
released-added t x h small e = omega (
  arith,
  released_plain t x h small,
  released_plain t (fetch_add x (2 ^ t)) h (added-small t x h small e),
  added-decrement t x h small e,
  fetch_add_plain t x h small e,
)

pub released-locked :
    (t x : ℕ)
    → t < 56
    → get_write_state x ≤ 56
    → get_write_state x ≡ 0
    → released t (write_locked x t) ≡ released t x
released-locked t x h small e = omega (
  arith,
  released_plain t x h small,
  released_plain t (write_locked x t) h (locked-small t x h small e),
  locked-decrement t x h small e,
  write_locked_plain t x h small e,
)

-- The locks of a thread `t` that began at the locks `b`, where it held none: it holds at most the
-- logged ones, and without its own part each word is as it was.
pub record Held (t : ℕ) (b : ℕ → ℕ) (locks : ℕ → ℕ) (logged : ℕ → Bool) : Type 0 where
  pub base : (l : ℕ) → released t (locks l) ≡ b l
  pub small : (l : ℕ) → get_write_state (locks l) ≤ 56
  pub mine : (l : ℕ) → decrement (locks l) t ≢ 0 → logged l ≡ true

pub Held-start :
    (t : ℕ) (b : ℕ → ℕ) (logged : ℕ → Bool)
    → t < 56
    → ((l : ℕ) → get_write_state (b l) ≤ 56)
    → ((l : ℕ) → decrement (b l) t ≡ 0)
    → Held t b b logged
Held-start t b logged h small none = record {
  base = λ l. released_nothing t (b l) h (small l) (none l);
  small = small;
  mine = λ l n. absurd (n (none l));
}

-- One word changed, its lock logged.
pub Held-update :
    (t : ℕ) (b locks : ℕ → ℕ) (logged more : ℕ → Bool) (l y : ℕ)
    → Held t b locks logged
    → ((k : ℕ) → logged k ≡ true → more k ≡ true)
    → (decrement y t ≢ 0 → more l ≡ true)
    → released t y ≡ released t (locks l)
    → get_write_state y ≤ 56
    → Held t b (update locks l y) more
Held-update t b locks logged more l y i sub own rel small = record {
  base = λ k. elim (ℕ_discrete l k) [
    | yes e ↦
        subst (λ v. released t (update locks l y v) ≡ b v) e
          (rw (update_self locks l y) (rel ∙ i.base l))
    | no n ↦ rw (update_ne locks l y k n) (i.base k)
  ];
  small = λ k. elim (ℕ_discrete l k) [
    | yes e ↦
        subst (λ v. get_write_state (update locks l y v) ≤ 56) e (rw (update_self locks l y) small)
    | no n ↦ rw (update_ne locks l y k n) (i.small k)
  ];
  mine = λ k d. elim (ℕ_discrete l k) [
    | yes e ↦
        ap more (sym e)
        ∙ own (λ z.
          d (ap (λ v. decrement v t) (sym (ap (update locks l y) e) ∙ update_self locks l y) ∙ z))
    | no n ↦ sub k (i.mine k (λ z. d (ap (λ v. decrement v t) (update_ne locks l y k n) ∙ z)))
  ];
}

pub Held-logged :
    (t : ℕ) (b locks : ℕ → ℕ) (logged more : ℕ → Bool)
    → ((k : ℕ) → logged k ≡ true → more k ≡ true)
    → Held t b locks logged
    → Held t b locks more
Held-logged t b locks logged more f i = record {
  base = i.base;
  small = i.small;
  mine = λ k n. f k (i.mine k n);
}
