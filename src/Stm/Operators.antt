-- ===== src/Stm/Operators.antt =====
-- stms/2PLSF.hpp: the operators of `tmtype` on 64-bit words, as what user code does: loads and stores in a
-- row, and then the code `k` that goes on. `x` and `y` are addresses of a `tmtype`, `rhs` and `v` are
-- plain values below 2^64.
use plsf.Prelude.{ℕ, ◌+◌, ◌-◌, ◌%◌, ◌^◌, Bool, not, ltb, leb, ◌==◌, if◌then◌else◌, List, update}
use plsf.Config.{tx_max_allocs}
use plsf.Stm.State.{State}
use plsf.Stm.Locks.Rely.{Returns}
use plsf.Stm.Program.{Program, finish, load, store, Attempt, transaction}
use plsf.Stm.Program.Whole.{Idle}
use plsf.Stm.Program.Sequential.{exec, Fits}
use plsf.Stm.Program.Uncontended.{Gives, Undisturbed, transaction-exec}

-- The constructor from a value, and `x = v`.
unfoldable pub construct : ℕ → ℕ → Program → Program
construct x init_val k = store x init_val k

unfoldable pub assign : ℕ → ℕ → Program → Program
assign x v k = store x v k

-- The copy constructor, and `x = y`.
unfoldable pub copy_construct : ℕ → ℕ → Program → Program
copy_construct x other k = load other (λ v. store x v k)

unfoldable pub copy : ℕ → ℕ → Program → Program
copy x y k = load y (λ v. store x v k)

-- The casts to T, and `x->`.
unfoldable pub cast : ℕ → (ℕ → Program) → Program
cast x k = load x k

unfoldable pub arrow : ℕ → (ℕ → Program) → Program
arrow x k = load x k

-- `++x`, `x++`, `--x` and `x--`, which return nothing.
unfoldable pub increment : ℕ → Program → Program
increment x k = load x (λ v. store x ((v + 1) % 2 ^ 64) k)

unfoldable pub decrement_by_one : ℕ → Program → Program
decrement_by_one x k = load x (λ v. store x ((v + 2 ^ 64 - 1) % 2 ^ 64) k)

unfoldable pub post_increment : ℕ → Program → Program
post_increment x k = load x (λ v. store x ((v + 1) % 2 ^ 64) k)

unfoldable pub post_decrement : ℕ → Program → Program
post_decrement x k = load x (λ v. store x ((v + 2 ^ 64 - 1) % 2 ^ 64) k)

unfoldable pub add_to : ℕ → ℕ → Program → Program
add_to x rhs k = load x (λ v. store x ((v + rhs) % 2 ^ 64) k)

unfoldable pub subtract_from : ℕ → ℕ → Program → Program
subtract_from x rhs k = load x (λ v. store x ((v + 2 ^ 64 - rhs) % 2 ^ 64) k)

-- The comparisons take a `tmtype` on the right, which is loaded after the one on the left.
unfoldable pub equals : ℕ → ℕ → (Bool → Program) → Program
equals x y k = load x (λ v. load y (λ u. k (v == u)))

unfoldable pub differs : ℕ → ℕ → (Bool → Program) → Program
differs x y k = load x (λ v. load y (λ u. k (not (v == u))))

unfoldable pub less : ℕ → ℕ → (Bool → Program) → Program
less x y k = load x (λ v. load y (λ u. k (ltb v u)))

unfoldable pub greater : ℕ → ℕ → (Bool → Program) → Program
greater x y k = load x (λ v. load y (λ u. k (ltb u v)))

unfoldable pub less_equal : ℕ → ℕ → (Bool → Program) → Program
less_equal x y k = load x (λ v. load y (λ u. k (leb v u)))

unfoldable pub greater_equal : ℕ → ℕ → (Bool → Program) → Program
greater_equal x y k = load x (λ v. load y (λ u. k (leb u v)))

-- The code returns the answer of a comparison.
abbrev pub number : Bool → ℕ
number b = if b then 1 else 0

abbrev pub answer : Bool → Program
answer b = finish (number b)

module _ (o : Attempt) (os : List Attempt) (s : State) where
  -- A transaction of this code leaves the memory `g`.
  abbrev pub Leaves : Program → (ℕ → ℕ) → Type 0
  Leaves p g = Returns (Gives (0, g)) (transaction o os p s)

  -- A transaction of this code returns `v` and leaves memory as it was.
  abbrev pub Answers : Program → ℕ → Type 0
  Answers p v = Returns (Gives (v, s.shared.mem)) (transaction o os p s)

  -- What each operator does to the words `a` of `x` and `b` of `y`.
  abbrev pub OperatorTransactions : ℕ → ℕ → ℕ → ℕ → ℕ → Type 0
  OperatorTransactions x y v a b =
      Leaves (construct x v (finish 0)) (update s.shared.mem x v)
      × Leaves (assign x v (finish 0)) (update s.shared.mem x v)
      × Leaves (copy_construct x y (finish 0)) (update s.shared.mem x b)
      × Leaves (copy x y (finish 0)) (update s.shared.mem x b)
      × Leaves (increment x (finish 0)) (update s.shared.mem x ((a + 1) % 2 ^ 64))
      × Leaves (post_increment x (finish 0)) (update s.shared.mem x ((a + 1) % 2 ^ 64))
      × Leaves (decrement_by_one x (finish 0)) (update s.shared.mem x ((a + 2 ^ 64 - 1) % 2 ^ 64))
      × Leaves (post_decrement x (finish 0)) (update s.shared.mem x ((a + 2 ^ 64 - 1) % 2 ^ 64))
      × Leaves (add_to x v (finish 0)) (update s.shared.mem x ((a + v) % 2 ^ 64))
      × Leaves (subtract_from x v (finish 0)) (update s.shared.mem x ((a + 2 ^ 64 - v) % 2 ^ 64))
      × Answers (cast x finish) a
      × Answers (arrow x finish) a
      × Answers (equals x y answer) (number (a == b))
      × Answers (differs x y answer) (number (not (a == b)))
      × Answers (less x y answer) (number (ltb a b))
      × Answers (greater x y answer) (number (ltb b a))
      × Answers (less_equal x y answer) (number (leb a b))
      × Answers (greater_equal x y answer) (number (leb b a))

-- A transaction that consists of one operator of `tmtype` and starts in an idle thread with no write
-- lock taken and no other reader, and with at most as many threads registered as there are slots,
-- commits: a constructor, an assignment, an increment, a decrement, `+=` or `-=` leaves the memory with
-- the word that it names, modulo 2^64, and a cast or a comparison returns its value and leaves the memory.
pub operator_transactions :
    (t : ℕ) (o : Attempt) (os : List Attempt) (s : State) (x y v : ℕ)
    → Idle t s
    → Undisturbed t s
    → OperatorTransactions o os s x y v (s.shared.mem x) (s.shared.mem y)
unfolding construct assign copy_construct copy increment post_increment decrement_by_one
    post_decrement add_to subtract_from cast arrow equals differs less greater less_equal
    greater_equal exec
operator_transactions t o os s x y v idle calm =
    let runs =
      λ (p : Program) (f : Fits tx_max_allocs p). transaction-exec t o os p s idle calm f in
    (
      runs (construct x v (finish 0)) tt,
      runs (assign x v (finish 0)) tt,
      runs (copy_construct x y (finish 0)) (λ _. tt),
      runs (copy x y (finish 0)) (λ _. tt),
      runs (increment x (finish 0)) (λ _. tt),
      runs (post_increment x (finish 0)) (λ _. tt),
      runs (decrement_by_one x (finish 0)) (λ _. tt),
      runs (post_decrement x (finish 0)) (λ _. tt),
      runs (add_to x v (finish 0)) (λ _. tt),
      runs (subtract_from x v (finish 0)) (λ _. tt),
      runs (cast x finish) (λ _. tt),
      runs (arrow x finish) (λ _. tt),
      runs (equals x y answer) (λ _ _. tt),
      runs (differs x y answer) (λ _ _. tt),
      runs (less x y answer) (λ _ _. tt),
      runs (greater x y answer) (λ _ _. tt),
      runs (less_equal x y answer) (λ _ _. tt),
      runs (greater_equal x y answer) (λ _ _. tt),
    )
