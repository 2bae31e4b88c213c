-- ===== src/Maps/Resizable/Cells.antt =====
-- pdatastructures/TMHashMap.hpp: the list of one bucket, and what the loops find in it.
use plsf.Prelude.{
  ℕ, zero, suc, ◌≤◌, ◌≡◌, ◌≢◌, refl, arith, Bool, true, false, ◌==◌, if◌then◌else◌, Option, some,
  List, [], ◌∷◌, length, ==_of_ne, Bool-cases, inl, inr,
}
use plsf.Lists.Nodes.{null, Result, done, and_then}
use plsf.Maps.FixedSize.{saved}
use plsf.Maps.Resizable.{
  Node, HashMap, load, change, get_from, remove_from, unlink, put_last, put_from,
}

-- A node without its link: its address and the fields.
pub record Cell : Type 0 where
  pub addr : ℕ
  pub key : ℕ
  pub val : ℕ

abbrev pub first : List Cell → ℕ
first [] = null
first (x ∷ xs) = x.addr

abbrev pub linked : Cell → ℕ → Node
linked x v = record { key = x.key; val = x.val; next = v }

-- The cells are nodes, each with a link to the next.
abbrev pub Chain : (ℕ → Option Node) → List Cell → Type 0
Chain nodes [] = Unit
Chain nodes (x ∷ xs) =
    (nodes x.addr ≡ some (linked x (first xs))) × (x.addr ≢ null) × Chain nodes xs

-- The cell with the key, and the address before it.
pub data Found : Type 0 where
  nowhere : (prev : ℕ) → Found
  at : (prev : ℕ) → Cell → Found

abbrev pub locate : ℕ → ℕ → List Cell → Found
locate k prev [] = nowhere prev
locate k prev (x ∷ xs) = if k == x.key then at prev x else locate k x.addr xs

pub load_lem : (a : ℕ) (m : HashMap) (n : Node) → m.nodes a ≡ some n → load a m ≡ done n m
unfolding load
load_lem a m n e = rw (e, load) refl

-- What each loop does at the cell located; `u` is the step there.
abbrev pub got : ℕ → Bool → HashMap → Found → Result (Bool × ℕ) HashMap
got old save m (nowhere p) = done (false, old) m
got old save m (at p c) = done (true, saved save old c.val) m

abbrev pub removed :
    (u : ℕ → ℕ → Result (Unit {0}) HashMap) → ℕ → Bool → HashMap → Found → Result (Bool × ℕ) HashMap
removed u old save m (nowhere p) = done (false, old) m
removed u old save m (at p c) = and_then (u c.addr p) (λ _ m2. done (true, saved save old c.val) m2)

abbrev pub stored :
    (r : ℕ → Result Bool HashMap) (u : ℕ → Result (Unit {0}) HashMap)
    → ℕ
    → Bool
    → Found
    → Result (Bool × ℕ) HashMap
stored r u old save (nowhere p) = and_then (r p) (λ b m1. done (b, old) m1)
stored r u old save (at p c) = and_then (u c.addr) (λ _ m2. done (false, saved save old c.val) m2)

module _ (hash : ℕ → ℕ) (k old : ℕ) (save : Bool) (m : HashMap) where
  pub get_from_lem :
      (n prev : ℕ) (xs : List Cell)
      → Chain m.nodes xs
      → length xs ≤ n
      → get_from hash (suc n) k old save (first xs) m ≡ got old save m (locate k prev xs)
  unfolding get_from
  get_from_lem n prev [] c b = refl
  get_from_lem zero prev (x ∷ xs) c b = absurd (omega arith)
  get_from_lem (suc n) prev (x ∷ xs) c b = rw (==_of_ne x.addr null c.1) (
      rw (load_lem x.addr m (linked x (first xs)) c.0) (elim (Bool-cases (k == x.key)) [
        | inl e ↦ rw e refl
        | inr e ↦ rw e (get_from_lem n x.addr xs c.2 (omega arith))
      ]))

  pub remove_from_lem :
      (h n prev : ℕ) (xs : List Cell)
      → Chain m.nodes xs
      → length xs ≤ n
      → remove_from hash (suc n) k old save h (first xs) prev m
        ≡ removed (λ a p. unlink hash h a p m) old save m (locate k prev xs)
  unfolding remove_from
  remove_from_lem h n prev [] c b = refl
  remove_from_lem h zero prev (x ∷ xs) c b = absurd (omega arith)
  remove_from_lem h (suc n) prev (x ∷ xs) c b = rw (==_of_ne x.addr null c.1) (
      rw (load_lem x.addr m (linked x (first xs)) c.0) (elim (Bool-cases (k == x.key)) [
        | inl e ↦ rw e refl
        | inr e ↦ rw e (remove_from_lem h n x.addr xs c.2 (omega arith))
      ]))

  pub put_from_lem :
      (new_node val h n prev : ℕ) (xs : List Cell)
      → Chain m.nodes xs
      → length xs ≤ n
      → put_from hash new_node (suc n) k val old save h (first xs) prev m
        ≡ stored
            (λ p. put_last hash new_node k val h p m)
            (λ a. change a (λ d. record d { val = val }) m)
            old
            save
            (locate k prev xs)
  unfolding put_from
  put_from_lem new_node val h n prev [] c b = refl
  put_from_lem new_node val h zero prev (x ∷ xs) c b = absurd (omega arith)
  put_from_lem new_node val h (suc n) prev (x ∷ xs) c b = rw (==_of_ne x.addr null c.1) (
      rw (load_lem x.addr m (linked x (first xs)) c.0) (elim (Bool-cases (k == x.key)) [
        | inl e ↦ rw e refl
        | inr e ↦ rw e (put_from_lem new_node val h n x.addr xs c.2 (omega arith))
      ]))
