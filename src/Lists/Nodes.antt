-- ===== src/Lists/Nodes.antt =====
-- pdatastructures: nodes by their addresses, 0 for null. A load or store through an address that
-- holds no node is a fault. The address that `malloc` gives a new node is an argument of the operation.
-- A deleted node is gone at once, though its memory is freed at the commit.
use plsf.Prelude.{ℕ}

abbrev pub null : ℕ
null = 0

-- `done`: the value and the state after. `fault`: a load or store through a wrong address.
-- `unfinished`: the given rounds of a loop are over.
pub data Result {ℓ κ} (A : Type ℓ) (S : Type κ) : Type (ℓ ⊔ κ) where
  done : A → S → Result A S
  fault : Result A S
  unfinished : Result A S

abbrev pub and_then : {A B S : Type 0} → Result A S → (A → S → Result B S) → Result B S
and_then (done a s) k = k a s
and_then fault k = fault
and_then unfinished k = unfinished
