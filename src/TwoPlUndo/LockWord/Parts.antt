-- ===== src/TwoPlUndo/LockWord/Parts.antt =====
-- stms/2PLUndo.hpp: how the changes to the word of a lock act on its parts, the bits of the
-- readers and the writer.
use plsf.Prelude.{
  ℕ, ◌+◌, ◌-◌, ◌*◌, ◌/◌, ◌%◌, ◌^◌, ◌≤◌, ◌<◌, bit_and, ◌≡◌, ◌≢◌, ap, arith, sym, true, false, ◌==◌,
  Bool-cases, inl, inr, if◌then◌else◌, ◌∙◌,
}
use plsf.Word.{
  bit, has_bit, bit-le-one, bit-zero, bit_and_eq_zero, bit-bit_and, bit-not_word, bit-two-pow_ne,
  bit-two-pow_self, two-pow_lt, not_word,
}
use plsf.Word.Fields.{
  has_bit-add, has_bit-sub, bit-mod, bit_and-mask, add_two-pow-lt, bit_or-field, le_of_bit,
  two-pow_bit_and, bit_and_zero,
}
use plsf.TwoPlUndo.LockWord.{
  get_write_state, get_read_indicator, is_read_locked_by_me, is_empty_ri, write_locked, fetch_add,
  fetch_sub, decrement,
}

pub is_read_locked_by_me_lem : (x t : ℕ) → is_read_locked_by_me x t ≡ has_bit t x
unfolding is_read_locked_by_me
is_read_locked_by_me_lem x t = rw (bit_and_eq_zero t x) (ground arith)

pub indicator_mod : (x : ℕ) → get_read_indicator x ≡ x % 2 ^ 56
unfolding get_read_indicator
indicator_mod x = bit_and-mask 56 x

has_bit-mod : (t x : ℕ) → t < 56 → has_bit t (x % 2 ^ 56) ≡ has_bit t x
unfolding has_bit
has_bit-mod t x h = rw (bit-mod t 56 x h)

-- The bits depend on the lower digits alone.
has_bit-same : (t x y : ℕ) → t < 56 → x % 2 ^ 56 ≡ y % 2 ^ 56 → has_bit t x ≡ has_bit t y
has_bit-same t x y h e = sym (has_bit-mod t x h) ∙ ap (has_bit t) e ∙ has_bit-mod t y h

pub is_empty_ri_others :
    (x t u : ℕ) → t < 56 → u < 56 → u ≢ t → is_empty_ri x t ≡ true → has_bit u x ≡ false
unfolding is_empty_ri has_bit
is_empty_ri_others x t u p q h e =
    let z : bit_and (get_read_indicator x) (not_word 64 (2 ^ t)) ≡ 0 = ground arith in
    ground (
      arith,
      ap (bit u) z,
      bit-zero u,
      bit-bit_and u (get_read_indicator x) (not_word 64 (2 ^ t)),
      bit-not_word u 64 (2 ^ t) (omega arith) (two-pow_lt t 64 (omega arith)),
      bit-two-pow_ne u t h,
      ap (bit u) (indicator_mod x),
      bit-mod u 56 x q,
      bit-le-one u x,
    )

-- A reader comes and goes.
low_room : (t x : ℕ) → t < 56 → has_bit t x ≡ false → x % 2 ^ 56 + 2 ^ t < 2 ^ 56
unfolding has_bit
low_room t x h e =
    add_two-pow-lt t 56 (x % 2 ^ 56) h (omega arith)
      (bit-mod t 56 x h ∙ ground (arith, bit-le-one t x))

low_share : (t x : ℕ) → t < 56 → has_bit t x ≡ true → 2 ^ t ≤ x % 2 ^ 56
unfolding has_bit
low_share t x h e = le_of_bit t (x % 2 ^ 56) (bit-mod t 56 x h ∙ ground arith)

plain_add : (x d : ℕ) → x + d < 2 ^ 64 → fetch_add x d ≡ x + d
plain_add x d h = omega arith

pub plain_sub : (x d : ℕ) → x < 2 ^ 64 → d ≤ x → fetch_sub x d ≡ x - d
plain_sub x d h l = omega arith

minus_zero : (n : ℕ) → n - 0 ≡ n
minus_zero n = omega arith

module _ (t x : ℕ) (h : t < 56) (small : get_write_state x ≤ 56) where
  pub fetch_add-writer :
      has_bit t x ≡ false → get_write_state (fetch_add x (2 ^ t)) ≡ get_write_state x
  unfolding get_write_state
  fetch_add-writer e =
      let small' : x / 2 ^ 56 ≤ 56 = small in omega (arith, low_room t x h e, small')

  pub fetch_add-has_bit :
      has_bit t x ≡ false
      → (u : ℕ) → has_bit u (fetch_add x (2 ^ t)) ≡ (if u == t then true else has_bit u x)
  unfolding get_write_state
  fetch_add-has_bit e u =
      let small' : x / 2 ^ 56 ≤ 56 = small in
      let p : fetch_add x (2 ^ t) ≡ x + 2 ^ t = omega (arith, low_room t x h e, small') in
      rw p (has_bit-add u t x e)

  pub fetch_sub-writer :
      has_bit t x ≡ true → get_write_state (fetch_sub x (2 ^ t)) ≡ get_write_state x
  unfolding get_write_state
  fetch_sub-writer e =
      let small' : x / 2 ^ 56 ≤ 56 = small in omega (arith, low_share t x h e, small')

  pub fetch_sub-has_bit :
      has_bit t x ≡ true
      → (u : ℕ) → has_bit u (fetch_sub x (2 ^ t)) ≡ (if u == t then false else has_bit u x)
  unfolding get_write_state
  fetch_sub-has_bit e u =
      let small' : x / 2 ^ 56 ≤ 56 = small in
      let p : fetch_sub x (2 ^ t) ≡ x - 2 ^ t = omega (arith, low_share t x h e, small') in
      rw p (has_bit-sub u t x e)

  -- A writer comes and goes.
  pub write_locked_plain : get_write_state x ≡ 0 → write_locked x t ≡ x + (t + 1) * 2 ^ 56
  unfolding get_write_state write_locked
  write_locked_plain e =
      let low : x % 2 ^ 56 ≡ x = omega arith in
      let own : ((t + 1) * 2 ^ 56) % 2 ^ 64 ≡ (t + 1) * 2 ^ 56 = omega arith in
      rw own (rw (indicator_mod x ∙ low) (bit_or-field 56 x (t + 1) (omega arith)))

  pub write_locked-writer : get_write_state x ≡ 0 → get_write_state (write_locked x t) ≡ t + 1
  unfolding get_write_state
  write_locked-writer e = rw (write_locked_plain e) (omega arith)

  pub write_locked-has_bit :
      get_write_state x ≡ 0 → (u : ℕ) → u < 56 → has_bit u (write_locked x t) ≡ has_bit u x
  unfolding get_write_state
  write_locked-has_bit e u p =
      has_bit-same u (write_locked x t) x p (rw (write_locked_plain e) (omega arith))

  -- Reader and writer go at once.
  without_writer : ℕ
  without_writer = x - (if get_write_state x == t + 1 then (t + 1) * 2 ^ 56 else 0)

  without_writer-low : without_writer % 2 ^ 56 ≡ x % 2 ^ 56
  unfolding without_writer get_write_state
  without_writer-low = ground arith

  without_writer-writer :
      get_write_state without_writer ≡ (if get_write_state x == t + 1 then 0 else get_write_state x)
  unfolding without_writer get_write_state
  without_writer-writer = ground arith

  without_writer-has_bit : (u : ℕ) → u < 56 → has_bit u without_writer ≡ has_bit u x
  without_writer-has_bit u p = has_bit-same u without_writer x p without_writer-low

  release_plain : fetch_sub x (decrement x t) ≡ without_writer - (if has_bit t x then 2 ^ t else 0)
  unfolding decrement get_write_state without_writer
  release_plain =
      let small' : x / 2 ^ 56 ≤ 56 = small in
      let b = is_read_locked_by_me_lem x t in ground (arith, low_share t x h)

  -- The reader's part is within the low digits.
  share-le : (if has_bit t x then 2 ^ t else 0) ≤ without_writer % 2 ^ 56
  share-le = ground (arith, low_share t x h, without_writer-low)

  pub release-writer :
      get_write_state (fetch_sub x (decrement x t))
      ≡ (if get_write_state x == t + 1 then 0 else get_write_state x)
  unfolding get_write_state
  release-writer = rw release_plain (omega (arith, share-le) ∙ without_writer-writer)

  pub release-has_bit :
      (u : ℕ)
      → u < 56
      → has_bit u (fetch_sub x (decrement x t)) ≡ (if u == t then false else has_bit u x)
  release-has_bit u p = rw release_plain (elim (Bool-cases (has_bit t x)) [
    | inl e ↦ rw e (
        has_bit-sub u t without_writer (without_writer-has_bit t h ∙ e)
        ∙ ground (arith, without_writer-has_bit u p))
    | inr e ↦ rw e (
        ap (has_bit u) (minus_zero without_writer) ∙ without_writer-has_bit u p ∙ ground (arith, e))
  ])

  pub decrement-le : decrement x t ≤ x
  unfolding decrement get_write_state without_writer
  decrement-le =
      let small' : x / 2 ^ 56 ≤ 56 = small in
      let b = is_read_locked_by_me_lem x t in ground (arith, low_share t x h)

  pub fetch_add_plain : has_bit t x ≡ false → fetch_add x (2 ^ t) ≡ x + 2 ^ t
  unfolding get_write_state
  fetch_add_plain e = let small' : x / 2 ^ 56 ≤ 56 = small in omega (arith, low_room t x h e)

  pub below_word : x < 2 ^ 64
  unfolding get_write_state
  below_word = let small' : x / 2 ^ 56 ≤ 56 = small in omega arith

  own_place : bit t (not_word 64 (2 ^ t)) ≡ 0
  own_place = omega (
    arith,
    bit-not_word t 64 (2 ^ t) (omega arith) (two-pow_lt t 64 (omega arith)),
    bit-two-pow_self t,
  )

  own_low : x ≡ decrement x t → x % 2 ^ 56 ≡ (if has_bit t x then 2 ^ t else 0)
  unfolding decrement get_write_state
  own_low e =
      let small' : x / 2 ^ 56 ≤ 56 = small in
      let b = is_read_locked_by_me_lem x t in ground (arith, low_share t x h, two-pow_lt t 56 h)

  -- A word with no part but the thread's own.
  pub is_empty_ri_own : x ≡ decrement x t → is_empty_ri x t ≡ true
  unfolding is_empty_ri get_write_state
  is_empty_ri_own e =
      let low : x % 2 ^ 56 ≡ (if has_bit t x then 2 ^ t else 0) = own_low e in
      rw (indicator_mod x) (
        rw low (elim (Bool-cases (has_bit t x)) [
          | inl q ↦ rw q (ground (arith, two-pow_bit_and t (not_word 64 (2 ^ t)) own_place))
          | inr q ↦ rw q (ground (arith, bit_and_zero (not_word 64 (2 ^ t))))
        ]))
