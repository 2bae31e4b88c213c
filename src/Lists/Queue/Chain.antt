-- ===== src/Lists/Queue/Chain.antt =====
-- pdatastructures/TMLinkedListQueue.hpp: the nodes from the sentinel to the tail, and the items in
-- them, first in first out.
use plsf.Prelude.{
  ℕ, ◌≡◌, ◌≢◌, refl, arith, Bool, true, false, Option, none, some, List, [], ◌∷◌, ◌++◌, All, ap,
  sym, ◌∙◌, update, update_ne,
}
use plsf.Lists.Nodes.{null, done}
use plsf.Lists.Queue.{Node, Queue, load}

-- A node: its address and its item.
abbrev pub Cell : Type 0
Cell = ℕ × ℕ

abbrev pub node : ℕ → ℕ → Node
node i v = record { item = i; next = v }

-- From the node at `p`, with item `i`, the cells lead to the node at `t`, which has no next.
abbrev pub Chain : (ℕ → Option Node) → ℕ → ℕ → ℕ → List Cell → Type 0
Chain nodes t p i [] = (p ≡ t) × (nodes p ≡ some (node i null))
Chain nodes t p i (x ∷ xs) = (nodes p ≡ some (node i x.0)) × Chain nodes t x.0 x.1 xs

abbrev pub Apart : ℕ → List Cell → Type 0
Apart p xs = All (λ x. x.0 ≢ p) xs

abbrev pub Distinct : List Cell → Type 0
Distinct [] = Unit
Distinct (x ∷ xs) = Apart x.0 xs × Distinct xs

abbrev pub items_of : List Cell → List ℕ
items_of [] = []
items_of (x ∷ xs) = x.1 ∷ items_of xs

pub record WellFormed (q : Queue) (xs : List Cell) : Type 0 where
  pub sentinel : ℕ
  pub chain : Chain q.nodes q.tail q.head sentinel xs
  pub no_null : q.nodes null ≡ none
  pub distinct : Distinct ((q.head, sentinel) ∷ xs)

-- The queue holds the items, the oldest first.
unfoldable pub Represents : Queue → List ℕ → Type 0
Represents q is = (xs : List Cell) × WellFormed q xs × (items_of xs ≡ is)

pub load_lem : (a : ℕ) (q : Queue) (n : Node) → q.nodes a ≡ some n → load a q ≡ done n q
unfolding load
load_lem a q n e = rw (e, load) refl

is_some : Option Node → Bool
is_some none = false
is_some (some n) = true

differ : true ≡ false → ⊥
differ e = ground (arith, e)

pub some-ne :
    (nodes : ℕ → Option Node) (a b : ℕ) (n : Node) → nodes a ≡ some n → nodes b ≡ none → a ≢ b
unfolding is_some
some-ne nodes a b n e f q = differ (ap is_some (sym e ∙ ap nodes q ∙ f))

pub Chain-Apart :
    (nodes : ℕ → Option Node) (t p i a : ℕ) (xs : List Cell)
    → Chain nodes t p i xs
    → nodes a ≡ none
    → (p ≢ a) × Apart a xs
Chain-Apart nodes t p i a [] c e = (some-ne nodes p a _ c.1 e, tt)
Chain-Apart nodes t p i a (x ∷ xs) c e =
    (some-ne nodes p a _ c.0 e, Chain-Apart nodes t x.0 x.1 a xs c.1 e)

-- The tail is the node itself or one behind it.
pub Chain-ne_tail :
    (nodes : ℕ → Option Node) (t p i q : ℕ) (xs : List Cell)
    → Chain nodes t p i xs
    → p ≢ q
    → Apart q xs
    → q ≢ t
Chain-ne_tail nodes t p i q [] c n a e = n (c.0 ∙ sym e)
Chain-ne_tail nodes t p i q (x ∷ xs) c n a e = Chain-ne_tail nodes t x.0 x.1 q xs c.1 a.0 a.1 e

pub Chain-tail :
    (nodes : ℕ → Option Node) (t p i : ℕ) (xs : List Cell)
    → Chain nodes t p i xs
    → (j : ℕ) × (nodes t ≡ some (node j null))
Chain-tail nodes t p i [] c = (i, ap nodes (sym c.0) ∙ c.1)
Chain-tail nodes t p i (x ∷ xs) c = Chain-tail nodes t x.0 x.1 xs c.1

item_of : Option Node → ℕ
item_of none = 0
item_of (some n) = n.item

same_item : (i j : ℕ) → some (node i null) ≡ some (node j null) → i ≡ j
unfolding item_of
same_item i j e = ap item_of e

-- One more node behind the tail.
pub Chain-append :
    (nodes nodes' : ℕ → Option Node) (t p i a item j : ℕ) (xs : List Cell)
    → Chain nodes t p i xs
    → Distinct ((p, i) ∷ xs)
    → p ≢ a
    → Apart a xs
    → nodes t ≡ some (node j null)
    → nodes' t ≡ some (node j a)
    → nodes' a ≡ some (node item null)
    → ((q : ℕ) → q ≢ a → q ≢ t → nodes' q ≡ nodes q)
    → Chain nodes' a p i (xs ++ (a, item) ∷ [])
Chain-append nodes nodes' t p i a item j [] c d n m o e f same = (
  ap nodes' c.0 ∙ e ∙ ap (λ z. some (node z a)) (same_item j i (sym o ∙ ap nodes (sym c.0) ∙ c.1)),
  (refl, f),
)
Chain-append nodes nodes' t p i a item j (x ∷ xs) c d n m o e f same = (
  same p n (Chain-ne_tail nodes t x.0 x.1 p xs c.1 d.0.0 d.0.1) ∙ c.0,
  Chain-append nodes nodes' t x.0 x.1 a item j xs c.1 d.1 m.0 m.1 o e f same,
)

-- The chain without the node before it.
pub Chain-without :
    (nodes : ℕ → Option Node) (t p i q : ℕ) (xs : List Cell)
    → Chain nodes t p i xs
    → p ≢ q
    → Apart q xs
    → Chain (update nodes q none) t p i xs
Chain-without nodes t p i q [] c n a = (c.0, update_ne nodes q none p (λ e. n (sym e)) ∙ c.1)
Chain-without nodes t p i q (x ∷ xs) c n a = (
  update_ne nodes q none p (λ e. n (sym e)) ∙ c.0,
  Chain-without nodes t x.0 x.1 q xs c.1 a.0 a.1,
)
