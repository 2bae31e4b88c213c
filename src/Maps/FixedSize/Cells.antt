-- ===== src/Maps/FixedSize/Cells.antt =====
-- pdatastructures/TMHashMapFixedSize.hpp: the list of one bucket, and what the loops find in it.
use plsf.Prelude.{
  ℕ, zero, suc, ◌≤◌, ◌≡◌, ◌≢◌, refl, arith, Bool, true, false, ◌&&◌, ◌==◌, if◌then◌else◌, Option,
  none, some, List, [], ◌∷◌, length, ==_of_ne, Bool-cases, inl, inr,
}
use plsf.Lists.Nodes.{null, Result, done, and_then}
use plsf.Maps.FixedSize.{
  Node, HashMap, load, change, saved, get_from, remove_from, put_last, put_from,
}

-- A node without its link: its address and the fields.
pub record Cell : Type 0 where
  pub addr : ℕ
  pub key : ℕ
  pub val : ℕ
  pub is_active : ℕ

abbrev pub first : List Cell → ℕ
first [] = null
first (x ∷ xs) = x.addr

abbrev pub linked : Cell → ℕ → Node
linked x v = record { key = x.key; val = x.val; next = v; is_active = x.is_active }

-- The cells are nodes, each with a link to the next.
abbrev pub Chain : (ℕ → Option Node) → List Cell → Type 0
Chain nodes [] = Unit
Chain nodes (x ∷ xs) =
    (nodes x.addr ≡ some (linked x (first xs))) × (x.addr ≢ null) × Chain nodes xs

abbrev pub is_match : ℕ → Cell → Bool
is_match k x = (k == x.key) && (x.is_active == 1)

-- The first active cell with the key.
abbrev pub locate : ℕ → List Cell → Option Cell
locate k [] = none
locate k (x ∷ xs) = if is_match k x then some x else locate k xs

-- The address of the last cell.
abbrev pub last : ℕ → List Cell → ℕ
last prev [] = prev
last prev (x ∷ xs) = last x.addr xs

-- The address of the first inactive cell, when there is none before.
abbrev pub reusable : ℕ → List Cell → ℕ
reusable r [] = r
reusable r (x ∷ xs) = reusable (if (r == null) && (x.is_active == 0) then x.addr else r) xs

pub load_lem : (a : ℕ) (m : HashMap) (n : Node) → m.nodes a ≡ some n → load a m ≡ done n m
unfolding load
load_lem a m n e = rw (e, load) refl

-- What each loop does at the cell located.
abbrev pub got : ℕ → Bool → HashMap → Option Cell → Result (Bool × ℕ) HashMap
got old save m none = done (false, old) m
got old save m (some c) = done (true, saved save old c.val) m

abbrev pub removed : ℕ → Bool → HashMap → Option Cell → Result (Bool × ℕ) HashMap
removed old save m none = done (false, old) m
removed old save m (some c) =
    and_then (change c.addr (λ d. record d { is_active = 0 }) m)
      (λ _ m2. done (true, saved save old c.val) m2)

abbrev pub stored :
    Result Bool HashMap → ℕ → ℕ → Bool → HashMap → Option Cell → Result (Bool × ℕ) HashMap
stored r val old save m none = and_then r (λ b m1. done (b, old) m1)
stored r val old save m (some c) =
    and_then (change c.addr (λ d. record d { val = val }) m)
      (λ _ m2. done (false, saved save old c.val) m2)

module _ (k old : ℕ) (save : Bool) (m : HashMap) where
  pub get_from_lem :
      (n : ℕ) (xs : List Cell)
      → Chain m.nodes xs
      → length xs ≤ n
      → get_from (suc n) k old save (first xs) m ≡ got old save m (locate k xs)
  unfolding get_from
  get_from_lem n [] c b = refl
  get_from_lem zero (x ∷ xs) c b = absurd (omega arith)
  get_from_lem (suc n) (x ∷ xs) c b = rw (==_of_ne x.addr null c.1) (
      rw (load_lem x.addr m (linked x (first xs)) c.0) (elim (Bool-cases (is_match k x)) [
        | inl e ↦ rw e refl
        | inr e ↦ rw e (get_from_lem n xs c.2 (omega arith))
      ]))

  pub remove_from_lem :
      (n : ℕ) (xs : List Cell)
      → Chain m.nodes xs
      → length xs ≤ n
      → remove_from (suc n) k old save (first xs) m ≡ removed old save m (locate k xs)
  unfolding remove_from
  remove_from_lem n [] c b = refl
  remove_from_lem zero (x ∷ xs) c b = absurd (omega arith)
  remove_from_lem (suc n) (x ∷ xs) c b = rw (==_of_ne x.addr null c.1) (
      rw (load_lem x.addr m (linked x (first xs)) c.0) (elim (Bool-cases (is_match k x)) [
        | inl e ↦ rw e refl
        | inr e ↦ rw e (remove_from_lem n xs c.2 (omega arith))
      ]))

  pub put_from_lem :
      (new_node val h n prev r : ℕ) (xs : List Cell)
      → Chain m.nodes xs
      → length xs ≤ n
      → put_from new_node (suc n) k val old save h (first xs) prev r m
        ≡ stored
            (put_last new_node k val h (last prev xs) (reusable r xs) m)
            val
            old
            save
            m
            (locate k xs)
  unfolding put_from
  put_from_lem new_node val h n prev r [] c b = refl
  put_from_lem new_node val h zero prev r (x ∷ xs) c b = absurd (omega arith)
  put_from_lem new_node val h (suc n) prev r (x ∷ xs) c b = rw (==_of_ne x.addr null c.1) (
      rw (load_lem x.addr m (linked x (first xs)) c.0) (elim (Bool-cases (is_match k x)) [
        | inl e ↦ rw e refl
        | inr e ↦ rw e (
            put_from_lem new_node val h n x.addr
              (if (r == null) && (x.is_active == 0) then x.addr else r) xs c.2 (omega arith))
      ]))
