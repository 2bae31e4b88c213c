-- ===== src/Stm/Allocation.antt =====
-- stms/2PLSF.hpp: `tmNew` and `tmDelete`. `construct` and `destroy` are the constructor and the destructor
-- of the user's type, which act through the STM themselves.
use plsf.Prelude.{
  ℕ, zero, suc, ◌≡◌, ◌≢◌, refl, true, not, List, [], ◌∷◌, ◌++◌, ◌==◌, if◌then◌else◌, update, length,
  ==_of_ne,
}
use plsf.Config.{tx_max_allocs, tx_max_retires}
use plsf.Stm.State.{Shared, Deletable, State, ok, failed, Cmd, and_then, set_shared, set_myd}
use plsf.Stm.Txn.{free, reclaim_all}

-- `std::malloc`
abbrev pub allocate : ℕ → State → State
allocate fresh s =
    set_shared s (record s.shared { allocated = update s.shared.allocated fresh true })

-- The entry of `alog`, which only frees the object at first.
unfoldable pub log_allocation : ℕ → Cmd (Unit {0})
log_allocation fresh s =
    if length s.myd.alog == tx_max_allocs
    then failed
    else ok tt (
        set_myd s
          (record s.myd { alog = s.myd.alog ++ record { obj = fresh; reclaim = free } ∷ [] }))

-- `del.reclaim`, changed in the log for the entry at place `i`.
abbrev pub set_reclaim : ℕ → (ℕ → Shared → Shared) → List Deletable → List Deletable
set_reclaim i f [] = []
set_reclaim zero f (x ∷ xs) = record x { reclaim = f } ∷ xs
set_reclaim (suc i) f (x ∷ xs) = x ∷ set_reclaim i f xs

unfoldable pub tm_new :
    (construct : ℕ → Cmd (Unit {0})) (destroy : ℕ → Shared → Shared) (fresh : ℕ) → Cmd ℕ
unfolding log_allocation
tm_new construct destroy fresh s =
    let s1 = allocate fresh s in
    if not s1.active
    then and_then (construct fresh s1) (λ _ s2. ok fresh s2)
    else and_then (log_allocation fresh s1) (λ _ s2. and_then (construct fresh s2) (λ _ s3.
      ok fresh (
        set_myd s3 (record s3.myd {
          alog = set_reclaim (length s.myd.alog) (λ obj g. free obj (destroy obj g)) s3.myd.alog;
        }))))

unfoldable pub retire : ℕ → Cmd (Unit {0})
retire obj s =
    if length s.myd.flog == tx_max_retires
    then failed
    else ok tt (set_myd s (record s.myd { flog = s.myd.flog ++ obj ∷ [] }))

-- The destructor runs at once, in the transaction.
unfoldable pub tm_delete : (destroy : ℕ → Cmd (Unit {0})) (obj : ℕ) → Cmd (Unit {0})
unfolding retire
tm_delete destroy obj s =
    if obj == 0
    then ok tt s
    else and_then (destroy obj s) (λ _ s1.
      if not s1.active then ok tt (set_shared s1 (free obj s1.shared)) else retire obj s1)

log_allocation-room :
    (fresh : ℕ) (s : State)
    → length s.myd.alog ≢ tx_max_allocs
    → log_allocation fresh s
      ≡ ok tt (
          set_myd s
            (record s.myd { alog = s.myd.alog ++ record { obj = fresh; reclaim = free } ∷ [] }))
unfolding log_allocation
log_allocation-room fresh s room = rw (==_of_ne (length s.myd.alog) tx_max_allocs room) refl

reclaim_all-set :
    (xs ys : List Deletable) (obj : ℕ) (f : ℕ → Shared → Shared) (g : Shared)
    → reclaim_all (set_reclaim (length xs) f (xs ++ record { obj = obj; reclaim = free } ∷ ys)) g
      ≡ reclaim_all ys (f obj (reclaim_all xs g))
unfolding reclaim_all
reclaim_all-set [] ys obj f g = refl
reclaim_all-set (x ∷ xs) ys obj f g = reclaim_all-set xs ys obj f (x.reclaim x.obj g)

-- In a transaction with room in its log, `tmNew` of a type whose constructor returns and logs the
-- allocations `ys` gives the object, and what an abort then reclaims is first what was logged before,
-- then the object, with its destructor, and then `ys`.
pub tm_new-reclaimed :
    (construct : ℕ → Cmd (Unit {0})) (destroy : ℕ → Shared → Shared) (fresh : ℕ) (s s' : State)
    (ys : List Deletable)
    → s.active ≡ true
    → length s.myd.alog ≢ tx_max_allocs
    → construct fresh (
        set_myd
          (allocate fresh s)
          (record s.myd { alog = s.myd.alog ++ record { obj = fresh; reclaim = free } ∷ [] }))
      ≡ ok tt s'
    → s'.myd.alog ≡ s.myd.alog ++ record { obj = fresh; reclaim = free } ∷ ys
    → (s'' : State) × (tm_new construct destroy fresh s ≡ ok fresh s'')
      × ((g : Shared)
          → reclaim_all s''.myd.alog g
            ≡ reclaim_all ys (free fresh (destroy fresh (reclaim_all s.myd.alog g))))
unfolding tm_new
tm_new-reclaimed construct destroy fresh s s' ys on room made logged = (
  set_myd s' (record s'.myd {
    alog = set_reclaim (length s.myd.alog) (λ obj g. free obj (destroy obj g)) s'.myd.alog;
  }),
  rw (log_allocation-room fresh (allocate fresh s) room, made, on) refl,
  (λ g. rw logged (reclaim_all-set s.myd.alog ys fresh (λ obj h. free obj (destroy obj h)) g)),
)
