-- ===== src/Lists/Set/Items.antt =====
-- pdatastructures/TMLinkedListSet.hpp: the items of the list, in order, with a node put in or cut out.
use plsf.Prelude.{
  ℕ, suc, ◌≤◌, ◌<◌, ◌≡◌, ◌≢◌, refl, arith, true, false, ◌||◌, ltb, ◌==◌, if◌then◌else◌, List, [],
  ◌∷◌, length, All, sym, inl, inr, Bool-cases, ℕ_discrete,
}
use plsf.Lists.Set.Links.{Item, Apart, Distinct, Sorted, put, cut, member}

pub member-put : (j a k : ℕ) (xs : List Item) → member j (put a k xs) ≡ ((j == k) || member j xs)
member-put j a k [] = ground arith
member-put j a k (x ∷ xs) = elim (Bool-cases (ltb x.1 k)) [
  | inl e ↦ rw e (ground (arith, member-put j a k xs))
  | inr e ↦ rw e refl
]

pub length-put : (a k : ℕ) (xs : List Item) → length (put a k xs) ≡ suc (length xs)
length-put a k [] = refl
length-put a k (x ∷ xs) = elim (Bool-cases (ltb x.1 k)) [
  | inl e ↦ rw e (omega (arith, length-put a k xs))
  | inr e ↦ rw e refl
]

pub Apart-put : (p a k : ℕ) (xs : List Item) → a ≢ p → Apart p xs → Apart p (put a k xs)
Apart-put p a k [] n h = (n, tt)
Apart-put p a k (x ∷ xs) n h = elim (Bool-cases (ltb x.1 k)) [
  | inl e ↦ rw e (h.0, Apart-put p a k xs n h.1)
  | inr e ↦ rw e (n, h)
]

pub Distinct-put : (a k : ℕ) (xs : List Item) → Apart a xs → Distinct xs → Distinct (put a k xs)
Distinct-put a k [] n d = (tt, tt)
Distinct-put a k (x ∷ xs) n d = elim (Bool-cases (ltb x.1 k)) [
  | inl e ↦ rw e (Apart-put x.0 a k xs (λ q. n.0 (sym q)) d.0, Distinct-put a k xs n.1 d.1)
  | inr e ↦ rw e (n, d)
]

Above : ℕ → List Item → Type 0
Above k xs = All (λ y. k < y.1) xs

Above-put : (m a k : ℕ) (xs : List Item) → m < k → Above m xs → Above m (put a k xs)
unfolding Above
Above-put m a k [] n h = (n, tt)
Above-put m a k (x ∷ xs) n h = elim (Bool-cases (ltb x.1 k)) [
  | inl e ↦ rw e (h.0, Above-put m a k xs n h.1)
  | inr e ↦ rw e (n, h)
]

Above-less : (k m : ℕ) (xs : List Item) → k ≤ m → Above m xs → Above k xs
unfolding Above
Above-less k m [] l h = tt
Above-less k m (x ∷ xs) l h = (omega (arith, h.0), Above-less k m xs l h.1)

pub member-Above : (k : ℕ) (xs : List Item) → All (λ y. k < y.1) xs → member k xs ≡ false
member-Above k [] h = refl
member-Above k (x ∷ xs) h = ground (arith, h.0, member-Above k xs h.1)

pub Sorted-put : (a k : ℕ) (xs : List Item) → member k xs ≡ false → Sorted xs → Sorted (put a k xs)
unfolding Above
Sorted-put a k [] m s = (tt, tt)
Sorted-put a k (x ∷ xs) m s = elim (Bool-cases (ltb x.1 k)) [
  | inl e ↦
      rw e (Above-put x.1 a k xs (ground (arith, e)) s.0, Sorted-put a k xs (ground (arith, m)) s.1)
  | inr e ↦
      let l : k < x.1 = ground (arith, m, e) in rw e ((l, Above-less k x.1 xs (omega arith) s.0), s)
]

pub Apart-cut : (p k : ℕ) (xs : List Item) → Apart p xs → Apart p (cut k xs)
Apart-cut p k [] h = tt
Apart-cut p k (x ∷ xs) h = elim (Bool-cases (ltb x.1 k)) [
  | inl e ↦ rw e (h.0, Apart-cut p k xs h.1)
  | inr e ↦ rw e h.1
]

pub Distinct-cut : (k : ℕ) (xs : List Item) → Distinct xs → Distinct (cut k xs)
Distinct-cut k [] d = tt
Distinct-cut k (x ∷ xs) d = elim (Bool-cases (ltb x.1 k)) [
  | inl e ↦ rw e (Apart-cut x.0 k xs d.0, Distinct-cut k xs d.1)
  | inr e ↦ rw e d.1
]

Above-cut : (m k : ℕ) (xs : List Item) → Above m xs → Above m (cut k xs)
unfolding Above
Above-cut m k [] h = tt
Above-cut m k (x ∷ xs) h = elim (Bool-cases (ltb x.1 k)) [
  | inl e ↦ rw e (h.0, Above-cut m k xs h.1)
  | inr e ↦ rw e h.1
]

pub Sorted-cut : (k : ℕ) (xs : List Item) → Sorted xs → Sorted (cut k xs)
unfolding Above
Sorted-cut k [] s = tt
Sorted-cut k (x ∷ xs) s = elim (Bool-cases (ltb x.1 k)) [
  | inl e ↦ rw e (Above-cut x.1 k xs s.0, Sorted-cut k xs s.1)
  | inr e ↦ rw e s.1
]

-- The first item from `k` on is that of `k`, where the sorted list has it.
first_is :
    (k : ℕ) (x : Item) (xs : List Item)
    → Sorted (x ∷ xs)
    → member k (x ∷ xs) ≡ true
    → ltb x.1 k ≡ false
    → x.1 ≡ k
unfolding Above
first_is k x xs s m e = elim (ℕ_discrete x.1 k) [
  | yes q ↦ q
  | no q ↦
      let z = member-Above k xs (Above-less k x.1 xs (ground (arith, e)) s.0) in
      absurd (ground (arith, m, z, q))
]

pub member-cut :
    (j k : ℕ) (xs : List Item)
    → Sorted xs
    → member k xs ≡ true
    → member j (cut k xs) ≡ (if k == j then false else member j xs)
unfolding Above
member-cut j k [] s m = ground (arith, m)
member-cut j k (x ∷ xs) s m = elim (Bool-cases (ltb x.1 k)) [
  | inl e ↦
      let r : member k xs ≡ true = ground (arith, m, e) in
      rw e (ground (arith, e, member-cut j k xs s.1 r))
  | inr e ↦
      let q = first_is k x xs s m e in
      rw e (elim (ℕ_discrete k j) [
        | yes z ↦
            let a = member-Above j xs (Above-less j x.1 xs (omega arith) s.0) in
            ground (arith, a, z)
        | no z ↦ ground (arith, z, q)
      ])
]

pub length-cut : (k : ℕ) (xs : List Item) → member k xs ≡ true → suc (length (cut k xs)) ≡ length xs
length-cut k [] m = ground (arith, m)
length-cut k (x ∷ xs) m = elim (Bool-cases (ltb x.1 k)) [
  | inl e ↦ rw e (omega (arith, length-cut k xs (ground (arith, m, e))))
  | inr e ↦ rw e refl
]

pub member-here :
    (k : ℕ) (x : Item) (xs : List Item)
    → Sorted (x ∷ xs)
    → ltb x.1 k ≡ false
    → (k == x.1) ≡ member k (x ∷ xs)
unfolding Above
member-here k x xs s e = elim (ℕ_discrete x.1 k) [
  | yes q ↦ ground (arith, q)
  | no q ↦
      let z = member-Above k xs (Above-less k x.1 xs (ground (arith, e)) s.0) in ground (arith, z)
]

pub member-there :
    (k : ℕ) (x : Item) (xs : List Item) → ltb x.1 k ≡ true → member k xs ≡ member k (x ∷ xs)
member-there k x xs e = ground (arith, e)
