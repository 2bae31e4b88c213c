-- ===== src/TwoPlUndo/Operators.antt =====
-- stms/2PLUndo.hpp: the operators of `tmtype` on 64-bit words, which are loads and stores in a row. An
-- argument `x` or `y` is the address of a `tmtype`, `rhs` and `v` are plain values.
use plsf.Prelude.{
  ℕ, ◌+◌, ◌-◌, ◌%◌, ◌^◌, ◌<◌, ◌≡◌, Bool, not, ltb, leb, ◌==◌, update, ap, subst, ◌∙◌,
}
use plsf.TwoPlUndo.State.{State, Outcome, ok, Cmd, and_then}
use plsf.TwoPlUndo.Txn.{pstore, pload}
use plsf.TwoPlUndo.Program.Logs.{Running, Thrown, Ends, Ends-and_then}
use plsf.TwoPlUndo.Program.Running.{pload-Ends, pstore-Ends}

-- The constructor from a value.
unfoldable pub construct : ℕ → ℕ → Cmd (Unit {0})
unfolding pstore
construct x init_val = pstore x init_val

-- `x = value`
unfoldable pub assign : ℕ → ℕ → Cmd (Unit {0})
unfolding pstore
assign x v = pstore x v

-- The copy constructor.
unfoldable pub copy_construct : ℕ → ℕ → Cmd (Unit {0})
unfolding pload pstore
copy_construct x other s = and_then (pload other s) (λ v. pstore x v)

-- `x = y`
unfoldable pub copy : ℕ → ℕ → Cmd (Unit {0})
unfolding pload pstore
copy x y s = and_then (pload y s) (λ v. pstore x v)

-- The casts to T.
unfoldable pub cast : ℕ → Cmd ℕ
unfolding pload
cast x = pload x

-- `x->`
unfoldable pub arrow : ℕ → Cmd ℕ
unfolding pload
arrow x = pload x

-- `++x` and `x++`, which return nothing.
unfoldable pub increment : ℕ → Cmd (Unit {0})
unfolding pload pstore
increment x s = and_then (pload x s) (λ v. pstore x ((v + 1) % 2 ^ 64))

unfoldable pub post_increment : ℕ → Cmd (Unit {0})
unfolding pload pstore
post_increment x s = and_then (pload x s) (λ v. pstore x ((v + 1) % 2 ^ 64))

-- `--x` and `x--`
unfoldable pub post_decrement : ℕ → Cmd (Unit {0})
unfolding pload pstore
post_decrement x s = and_then (pload x s) (λ v. pstore x ((v + 2 ^ 64 - 1) % 2 ^ 64))

unfoldable pub decrement_by_one : ℕ → Cmd (Unit {0})
unfolding pload pstore
decrement_by_one x s = and_then (pload x s) (λ v. pstore x ((v + 2 ^ 64 - 1) % 2 ^ 64))

unfoldable pub equals : ℕ → ℕ → Cmd Bool
unfolding pload
equals x rhs s = and_then (pload x s) (λ v s'. ok (v == rhs) s')

unfoldable pub differs : ℕ → ℕ → Cmd Bool
unfolding pload
differs x rhs s = and_then (pload x s) (λ v s'. ok (not (v == rhs)) s')

unfoldable pub less : ℕ → ℕ → Cmd Bool
unfolding pload
less x rhs s = and_then (pload x s) (λ v s'. ok (ltb v rhs) s')

unfoldable pub greater : ℕ → ℕ → Cmd Bool
unfolding pload
greater x rhs s = and_then (pload x s) (λ v s'. ok (ltb rhs v) s')

unfoldable pub less_equal : ℕ → ℕ → Cmd Bool
unfolding pload
less_equal x rhs s = and_then (pload x s) (λ v s'. ok (leb v rhs) s')

unfoldable pub greater_equal : ℕ → ℕ → Cmd Bool
unfolding pload
greater_equal x rhs s = and_then (pload x s) (λ v s'. ok (leb rhs v) s')

module _ (t : ℕ) (b : ℕ → ℕ) (clear : ℕ → (ℕ → ℕ) → ℕ → ℕ) (m : ℕ → ℕ) (s : State) where
  -- The access leaves the memory `g`, or throws.
  abbrev pub Writes : Outcome (Unit {0}) → (ℕ → ℕ) → Type 0
  Writes out g =
      Ends (λ _ s'. Running t b clear m s' × (s'.shared.mem ≡ g)) (Thrown t b clear m) out

  -- The access returns `c` and leaves memory, or throws.
  abbrev pub Tests : Outcome Bool → Bool → Type 0
  Tests out c =
      Ends (λ a s'. Running t b clear m s' × (a ≡ c) × (s'.shared.mem ≡ s.shared.mem))
        (Thrown t b clear m) out

  -- What each operator does, with its result.
  abbrev pub OperatorResults : ℕ → ℕ → ℕ → Type 0
  OperatorResults x y v =
      Writes (construct x v s) (update s.shared.mem x v)
      × Writes (assign x v s) (update s.shared.mem x v)
      × Writes (copy_construct x y s) (update s.shared.mem x (s.shared.mem y))
      × Writes (copy x y s) (update s.shared.mem x (s.shared.mem y))
      × Writes (increment x s) (update s.shared.mem x ((s.shared.mem x + 1) % 2 ^ 64))
      × Writes (post_increment x s) (update s.shared.mem x ((s.shared.mem x + 1) % 2 ^ 64))
      × Writes (decrement_by_one x s)
          (update s.shared.mem x ((s.shared.mem x + 2 ^ 64 - 1) % 2 ^ 64))
      × Writes (post_decrement x s) (update s.shared.mem x ((s.shared.mem x + 2 ^ 64 - 1) % 2 ^ 64))
      × Tests (equals x v s) (s.shared.mem x == v)
      × Tests (differs x v s) (not (s.shared.mem x == v))
      × Tests (less x v s) (ltb (s.shared.mem x) v)
      × Tests (greater x v s) (ltb v (s.shared.mem x))
      × Tests (less_equal x v s) (leb (s.shared.mem x) v)
      × Tests (greater_equal x v s) (leb v (s.shared.mem x))

module _ (t : ℕ) (h : t < 56) (b : ℕ → ℕ) (clear : ℕ → (ℕ → ℕ) → ℕ → ℕ) (m : ℕ → ℕ) (s : State)
    (r : Running t b clear m s) where
  -- A load, and then a store of what `f` makes of the value.
  load_store :
      (x y : ℕ) (f : ℕ → ℕ)
      → Ends
          (λ _ s'.
            Running t b clear m s' × (s'.shared.mem ≡ update s.shared.mem x (f (s.shared.mem y))))
          (Thrown t b clear m)
          (and_then (pload y s) (λ v. pstore x (f v)))
  load_store x y f = Ends-and_then _ _ _ (pload y s) _ (pload-Ends t h b clear m s y r) (λ v s1 q.
      subst
        (λ z.
          Ends (λ _ s'. Running t b clear m s' × (s'.shared.mem ≡ z)) (Thrown t b clear m)
            (pstore x (f v) s1))
        (ap (λ g. update g x (f v)) q.2 ∙ ap (λ w. update s.shared.mem x (f w)) q.1)
        (pstore-Ends t h b clear m s1 x (f v) q.0))

  load_test :
      (x : ℕ) (f : ℕ → Bool)
      → Ends
          (λ c s'.
            Running t b clear m s' × (c ≡ f (s.shared.mem x)) × (s'.shared.mem ≡ s.shared.mem))
          (Thrown t b clear m)
          (and_then (pload x s) (λ v s'. ok (f v) s'))
  load_test x f =
      Ends-and_then _ _ _ (pload x s) _ (pload-Ends t h b clear m s x r)
        (λ v s1 q. (q.0, ap f q.1, q.2))

  -- In a running transaction of a thread in range, each operator of `tmtype` ends with the transaction
  -- still running, the value or the comparison that it names and the memory changed at its own word
  -- alone, or it throws for a lock that was not free, with the transaction ready to be undone. Sums
  -- and differences wrap at 64 bits.
  pub operators-Ends : (x y v : ℕ) → OperatorResults t b clear m s x y v
  unfolding construct assign copy_construct copy increment post_increment decrement_by_one
      post_decrement equals differs less greater less_equal greater_equal
  operators-Ends x y v = (
    pstore-Ends t h b clear m s x v r,
    pstore-Ends t h b clear m s x v r,
    load_store x y (λ w. w),
    load_store x y (λ w. w),
    load_store x x (λ w. (w + 1) % 2 ^ 64),
    load_store x x (λ w. (w + 1) % 2 ^ 64),
    load_store x x (λ w. (w + 2 ^ 64 - 1) % 2 ^ 64),
    load_store x x (λ w. (w + 2 ^ 64 - 1) % 2 ^ 64),
    load_test x (λ w. w == v),
    load_test x (λ w. not (w == v)),
    load_test x (λ w. ltb w v),
    load_test x (λ w. ltb v w),
    load_test x (λ w. leb w v),
    load_test x (λ w. leb v w),
  )
