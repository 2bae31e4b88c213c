-- ===== src/TwoPlDist/Operators.antt =====
-- stms/2PLUndoDist.hpp: the operators of `tmtype`, on words of 64 bits.
use plsf.Prelude.{ℕ, ◌+◌, ◌-◌, ◌%◌, ◌^◌, Bool, not, ltb, leb, ◌==◌}
use plsf.TwoPlDist.State.{ok, Cmd, and_then}
use plsf.TwoPlDist.Txn.{pload, pstore}

-- A load, and a store of what `f` makes of its value.
abbrev pub change : ℕ → (ℕ → ℕ) → Cmd (Unit {0})
change addr f s = and_then (pload addr s) (λ v. pstore addr (f v))

unfoldable pub increment : ℕ → Cmd (Unit {0})
unfolding pload pstore
increment addr = change addr (λ v. (v + 1) % 2 ^ 64)

unfoldable pub decrement_by_one : ℕ → Cmd (Unit {0})
unfolding pload pstore
decrement_by_one addr = change addr (λ v. (v + 2 ^ 64 - 1) % 2 ^ 64)

unfoldable pub add_to : ℕ → ℕ → Cmd (Unit {0})
unfolding pload pstore
add_to addr rhs = change addr (λ v. (v + rhs) % 2 ^ 64)

-- `rhs` is a word below 2^64.
unfoldable pub subtract_from : ℕ → ℕ → Cmd (Unit {0})
unfolding pload pstore
subtract_from addr rhs = change addr (λ v. (v + 2 ^ 64 - rhs) % 2 ^ 64)

-- The operand on the right is a `tmtype` too: it is loaded after the one on the left.
abbrev pub compare_with : (ℕ → ℕ → Bool) → ℕ → ℕ → Cmd Bool
compare_with test addr other s =
    and_then (pload addr s) (λ v s1. and_then (pload other s1) (λ u s2. ok (test v u) s2))

unfoldable pub equals : ℕ → ℕ → Cmd Bool
unfolding pload
equals = compare_with (λ v u. v == u)

unfoldable pub differs : ℕ → ℕ → Cmd Bool
unfolding pload
differs = compare_with (λ v u. not (v == u))

unfoldable pub less : ℕ → ℕ → Cmd Bool
unfolding pload
less = compare_with (λ v u. ltb v u)

unfoldable pub greater : ℕ → ℕ → Cmd Bool
unfolding pload
greater = compare_with (λ v u. ltb u v)

unfoldable pub less_equal : ℕ → ℕ → Cmd Bool
unfolding pload
less_equal = compare_with (λ v u. leb v u)

unfoldable pub greater_equal : ℕ → ℕ → Cmd Bool
unfolding pload
greater_equal = compare_with (λ v u. leb u v)

-- The copy constructor and the assignment from another `tmtype`.
unfoldable pub copy : ℕ → ℕ → Cmd (Unit {0})
unfolding pload pstore
copy addr other s = and_then (pload other s) (λ v. pstore addr v)
