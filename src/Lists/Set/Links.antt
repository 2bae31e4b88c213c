-- ===== src/Lists/Set/Links.antt =====
-- pdatastructures/TMLinkedListSet.hpp: the nodes from one address to the tail, and the changes that
-- `add` and `remove` make to them.
use plsf.Prelude.{
  ℕ, ◌<◌, ◌≡◌, ◌≢◌, ◌⊎◌, inl, inr, Bool, true, false, ◌||◌, ltb, ◌==◌, if◌then◌else◌, Option, none,
  some, List, [], ◌∷◌, All, ap, subst, sym, ◌∙◌,
}
use plsf.Lists.Set.{Node}

-- A node of the list: its address and its key.
abbrev pub Item : Type 0
Item = ℕ × ℕ

abbrev pub first : List Item → ℕ → ℕ
first [] t = t
first (x ∷ xs) t = x.0

-- From the node at `p`, with key `k`, the nodes of the list lead to `t`.
abbrev pub Links : (ℕ → Option Node) → ℕ → ℕ → ℕ → List Item → Type 0
Links nodes t p k [] = nodes p ≡ some (record { key = k; next = t })
Links nodes t p k (x ∷ xs) =
    (nodes p ≡ some (record { key = k; next = x.0 })) × Links nodes t x.0 x.1 xs

abbrev pub Apart : ℕ → List Item → Type 0
Apart p xs = All (λ x. x.0 ≢ p) xs

abbrev pub Distinct : List Item → Type 0
Distinct [] = Unit
Distinct (x ∷ xs) = Apart x.0 xs × Distinct xs

-- Keys from `x` on are larger.
abbrev pub Sorted : List Item → Type 0
Sorted [] = Unit
Sorted (x ∷ xs) = All (λ y. x.1 < y.1) xs × Sorted xs

pub Links-first :
    (nodes : ℕ → Option Node) (t p k : ℕ) (xs : List Item)
    → Links nodes t p k xs
    → nodes p ≡ some (record { key = k; next = first xs t })
Links-first nodes t p k [] l = l
Links-first nodes t p k (x ∷ xs) l = l.0

-- The same nodes at the addresses of the list.
pub Links-same :
    (nodes nodes' : ℕ → Option Node) (t p k : ℕ) (xs : List Item)
    → nodes' p ≡ nodes p
    → All (λ x. nodes' x.0 ≡ nodes x.0) xs
    → Links nodes t p k xs
    → Links nodes' t p k xs
Links-same nodes nodes' t p k [] e a l = e ∙ l
Links-same nodes nodes' t p k (x ∷ xs) e a l =
    (e ∙ l.0, Links-same nodes nodes' t x.0 x.1 xs a.0 a.1 l.1)

-- Where the loop of `find` stops for key `k`.
abbrev pub Found : ℕ → ℕ → ℕ → List Item → ℕ → ℕ → Type 0
Found t k p [] prev node = (prev ≡ p) × (node ≡ t)
Found t k p (x ∷ xs) prev node =
    ((ltb x.1 k ≡ false) × (prev ≡ p) × (node ≡ x.0))
    ⊎ ((ltb x.1 k ≡ true) × Found t k x.0 xs prev node)

-- The list with a node for `k` put in, and the list without it.
abbrev pub put : ℕ → ℕ → List Item → List Item
put a k [] = (a, k) ∷ []
put a k (x ∷ xs) = if ltb x.1 k then x ∷ put a k xs else (a, k) ∷ x ∷ xs

abbrev pub cut : ℕ → List Item → List Item
cut k [] = []
cut k (x ∷ xs) = if ltb x.1 k then x ∷ cut k xs else xs

-- Whether a key is there.
abbrev pub member : ℕ → List Item → Bool
member k [] = false
member k (x ∷ xs) = (k == x.1) || member k xs

-- The node before is `p` or one of the list.
pub Found-Apart :
    (t k q p : ℕ) (xs : List Item) (prev node : ℕ)
    → Found t k q xs prev node
    → q ≢ p
    → Apart p xs
    → prev ≢ p
Found-Apart t k q p [] prev node f n a e = n (sym f.0 ∙ e)
Found-Apart t k q p (x ∷ xs) prev node (inl f) n a e = n (sym f.1 ∙ e)
Found-Apart t k q p (x ∷ xs) prev node (inr f) n a e =
    Found-Apart t k x.0 p xs prev node f.1 a.0 a.1 e

abbrev pub next_is : ℕ → ℕ → Node
next_is k v = record { key = k; next = v }

pub All-same :
    (nodes nodes' : ℕ → Option Node) (a prev : ℕ) (xs : List Item)
    → Apart a xs
    → Apart prev xs
    → ((q : ℕ) → q ≢ a → q ≢ prev → nodes' q ≡ nodes q)
    → All (λ x. nodes' x.0 ≡ nodes x.0) xs
All-same nodes nodes' a prev [] m n f = tt
All-same nodes nodes' a prev (x ∷ xs) m n f =
    (f x.0 m.0 n.0, All-same nodes nodes' a prev xs m.1 n.1 f)

-- The node found is one of the list or the tail.
pub Found-node :
    (t k q p : ℕ) (xs : List Item) (prev node : ℕ)
    → Found t k q xs prev node
    → p ≢ t
    → Apart p xs
    → p ≢ node
Found-node t k q p [] prev node f n a e = n (e ∙ f.1)
Found-node t k q p (x ∷ xs) prev node (inl f) n a e = a.0 (sym (e ∙ f.2))
Found-node t k q p (x ∷ xs) prev node (inr f) n a e = Found-node t k x.0 p xs prev node f.1 n a.1 e

-- Another node in front of the same list.
Links-behind :
    (nodes nodes' : ℕ → Option Node) (t q kq p kp : ℕ) (xs : List Item)
    → Links nodes t q kq xs
    → nodes' p ≡ some (next_is kp (first xs t))
    → All (λ x. nodes' x.0 ≡ nodes x.0) xs
    → Links nodes' t p kp xs
Links-behind nodes nodes' t q kq p kp [] l e a = e
Links-behind nodes nodes' t q kq p kp (x ∷ xs) l e a =
    (e, Links-same nodes nodes' t x.0 x.1 xs a.0 a.1 l.1)

next_of : Option Node → ℕ
next_of none = 0
next_of (some n) = n.next

same_next : (m n : Node) → some m ≡ some n → m.next ≡ n.next
unfolding next_of
same_next m n e = ap next_of e

-- `prev->next = new` with `new` in front of the node that `find` found.
module _ (nodes nodes' : ℕ → Option Node) (t a k : ℕ) where
  pub Links-put :
      (p kp : ℕ) (xs : List Item) (prev node : ℕ)
      → Links nodes t p kp xs
      → Found t k p xs prev node
      → Apart p xs
      → Distinct xs
      → a ≢ p
      → Apart a xs
      → (nodes' a ≡ some (record { key = k; next = node }))
      → ((kq : ℕ)
          → nodes prev ≡ some (record { key = kq; next = node })
          → nodes' prev ≡ some (record { key = kq; next = a }))
      → ((q : ℕ) → q ≢ a → q ≢ prev → nodes' q ≡ nodes q)
      → Links nodes' t p kp (put a k xs)
  Links-put p kp [] prev node l f d ds n na new old same = (
    ap nodes' (sym f.0) ∙ old kp (ap nodes f.0 ∙ l ∙ ap (λ v. some (next_is kp v)) (sym f.1)),
    new ∙ ap (λ v. some (next_is k v)) f.1,
  )
  Links-put p kp (x ∷ xs) prev node l (inl f) d ds n na new old same = rw (f.0) (
    ap nodes' (sym f.1) ∙ old kp (ap nodes f.1 ∙ l.0 ∙ ap (λ v. some (next_is kp v)) (sym f.2)),
    (
      new ∙ ap (λ v. some (next_is k v)) f.2,
      Links-same nodes nodes' t x.0 x.1 xs (same x.0 na.0 (λ e. d.0 (e ∙ f.1)))
          (All-same nodes nodes' a prev xs na.1 (subst (λ z. Apart z xs) (sym f.1) d.1) same) l.1,
    ),
  )
  Links-put p kp (x ∷ xs) prev node l (inr f) d ds n na new old same = rw (f.0) (
    same p (λ e. n (sym e)) (λ e. Found-Apart t k x.0 p xs prev node f.1 d.0 d.1 (sym e)) ∙ l.0,
    Links-put x.0 x.1 xs prev node l.1 f.1 ds.0 ds.1 (λ e. na.0 (sym e)) na.1 new old same,
  )

  -- `prev->next = node->next` with the node of key `k` deleted.
  pub Links-cut :
      (p kp : ℕ) (xs : List Item) (prev node kn nn : ℕ)
      → Links nodes t p kp xs
      → Found t k p xs prev node
      → Apart p xs
      → Distinct xs
      → node ≢ t
      → p ≢ t
      → Apart t xs
      → nodes node ≡ some (record { key = kn; next = nn })
      → ((kq : ℕ)
          → nodes prev ≡ some (record { key = kq; next = node })
          → nodes' prev ≡ some (record { key = kq; next = nn }))
      → ((q : ℕ) → q ≢ node → q ≢ prev → nodes' q ≡ nodes q)
      → Links nodes' t p kp (cut k xs)
  Links-cut p kp [] prev node kn nn l f d ds nt pt at now old same = absurd (nt f.1)
  Links-cut p kp (x ∷ xs) prev node kn nn l (inl f) d ds nt pt at now old same =
      let e : nn ≡ first xs t =
        same_next (next_is kn nn) (next_is x.1 (first xs t))
          (sym now ∙ ap nodes f.2 ∙ Links-first nodes t x.0 x.1 xs l.1) in
      rw (f.0) (
        Links-behind nodes nodes' t x.0 x.1 p kp xs l.1
          (ap nodes' (sym f.1)
            ∙ old kp (ap nodes f.1 ∙ l.0 ∙ ap (λ v. some (next_is kp v)) (sym f.2))
            ∙ ap (λ v. some (next_is kp v)) e)
          (All-same nodes nodes' node prev xs (subst (λ z. Apart z xs) (sym f.2) ds.0)
            (subst (λ z. Apart z xs) (sym f.1) d.1) same))
  Links-cut p kp (x ∷ xs) prev node kn nn l (inr f) d ds nt pt at now old same = rw (f.0) (
    same p (Found-node t k x.0 p xs prev node f.1 pt d.1)
          (λ e. Found-Apart t k x.0 p xs prev node f.1 d.0 d.1 (sym e))
        ∙ l.0,
    Links-cut x.0 x.1 xs prev node kn nn l.1 f.1 ds.0 ds.1 nt at.0 at.1 now old same,
  )
