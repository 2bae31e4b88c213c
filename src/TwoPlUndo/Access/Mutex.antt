-- ===== src/TwoPlUndo/Access/Mutex.antt =====
-- stms/2PLUndo.hpp: the threads that take one lock, in any interleaving of their accesses.
use plsf.Prelude.{
  ℕ, ◌+◌, ◌≤◌, ◌<◌, ◌≡◌, ◌≢◌, ◌⊎◌, inl, inr, refl, arith, true, false, Option, some, none, subst,
  sym, update, update_self, update_ne, ℕ_discrete,
}
use plsf.TwoPlUndo.LockWord.{get_write_state}
use plsf.TwoPlUndo.Access.{
  enter, go_on, Access, read_load, write_load, unlock_load, Pc, outside, before, Local, Event,
  call_try_read_lock, call_try_write_lock, call_unlock, go, step, Machine, start, Reachable,
  at_start, by_step,
}
use plsf.TwoPlUndo.Access.Own.{
  Good, OnlyMine, Knows, OnlyMine-access, small-access, Good-other, true-ne-false,
}
use plsf.TwoPlUndo.Access.Cases.{settled-outside, not-true}
use plsf.TwoPlUndo.Access.After.{Good-access}

record Sound (m : Machine) : Type 0 where
  small : get_write_state m.word ≤ 56
  good : (t : ℕ) → t < 56 → Good t m.word (m.threads t)

Sound-start : Sound start
unfolding get_write_state
Sound-start = record {
  small = omega arith;
  good = λ t p. record {
    knows = tt;
    bit = λ b. inr (inl (omega arith));
    reader = λ r. absurd (true-ne-false (sym r));
    writer = λ r. absurd (true-ne-false (sym r));
  };
}

-- What a step is to the invariant: the change is the thread's own, and its own part stays good.
Kept : ℕ → ℕ → Local → ℕ → Type 0
Kept t x l y = (get_write_state y ≤ 56) × OnlyMine t x y × Good t y l

KeptBy : ℕ → ℕ → Option (Local × ℕ) → Type 0
KeptBy t x none = Unit
KeptBy t x (some p) = Kept t x p.0 p.1

OnlyMine-nothing : (t x : ℕ) → OnlyMine t x x
OnlyMine-nothing t x = record { others = λ u p ne. refl; owner = inl refl }

-- A call of an operation, and a return, leave the word.
module _ (t x : ℕ) (h : t < 56) (small : get_write_state x ≤ 56) where
  Kept-try :
      (a : Access) (pc : Pc) (l : Local)
      → l.pc ≡ pc
      → Good t x l
      → (a ≡ read_load) ⊎ (a ≡ write_load)
      → KeptBy t x (enter a pc l x)
  unfolding KeptBy Kept
  Kept-try a (before b) l e g c = tt
  Kept-try a outside l e g c = (
    small,
    OnlyMine-nothing t x,
    record {
      knows = elim c [ inl q ↦ rw q tt | inr q ↦ rw q tt ];
      bit = λ b. inr (settled-outside t x h small l e g b);
      reader = g.reader;
      writer = g.writer;
    },
  )

  Kept-unlock :
      (pc : Pc) (l : Local)
      → l.pc ≡ pc
      → Good t x l
      → KeptBy t x (enter unlock_load pc (record l { reads = false; writes = false }) x)
  unfolding KeptBy Kept
  Kept-unlock (before b) l e g = tt
  Kept-unlock outside l e g = (
    small,
    OnlyMine-nothing t x,
    record {
      knows = (refl, refl);
      bit = λ b. inr (settled-outside t x h small l e g b);
      reader = λ q. absurd (true-ne-false (sym q));
      writer = λ q. absurd (true-ne-false (sym q));
    },
  )

  Kept-go : (pc : Pc) (l : Local) → l.pc ≡ pc → Good t x l → KeptBy t x (go_on t pc l x)
  unfolding KeptBy Kept go_on
  Kept-go outside l e g = tt
  Kept-go (before a) l e g =
      let k = subst (Knows t x l) e g.knows in
      (
        small-access t x h small a l k,
        OnlyMine-access t x h small a l k,
        Good-access t x h small l g a e,
      )

  Kept-step : (e : Event) (l : Local) → Good t x l → KeptBy t x (step t e l x)
  unfolding step
  Kept-step call_try_read_lock l g = Kept-try read_load l.pc l refl g (inl refl)
  Kept-step call_try_write_lock l g = Kept-try write_load l.pc l refl g (inr refl)
  Kept-step call_unlock l g = Kept-unlock l.pc l refl g
  Kept-step go l g = Kept-go l.pc l refl g

Sound-step :
    (m : Machine) (t : ℕ) (l : Local) (y : ℕ)
    → t < 56
    → Sound m
    → Kept t m.word l y
    → Sound (record { word = y; threads = update m.threads t l })
unfolding Kept
Sound-step m t l y h s k = record {
  small = k.0;
  good = λ u p. elim (ℕ_discrete t u) [
    | yes e ↦ subst (λ v. Good v y (update m.threads t l v)) e (rw (update_self m.threads t l) k.2)
    | no n ↦
        rw (update_ne m.threads t l u n)
          (Good-other t u m.word y (λ q. n (sym q)) p k.1 (m.threads u) (s.good u p))
  ];
}

Sound-Reachable : (m : Machine) → Reachable m → Sound m
unfolding KeptBy
Sound-Reachable m at_start = Sound-start
Sound-Reachable m (by_step n t e l w r h q) =
    let s = Sound-Reachable n r in
    Sound-step n t l w h s
      (subst (KeptBy t n.word) q (Kept-step t n.word h s.small e (n.threads t) (s.good t h)))

-- In every interleaving of the threads' accesses, while a thread holds the lock in write mode (its
-- `tryWriteLock` has returned true and it has not called `unlock` since), no other thread holds it in
-- read or in write mode.
pub mutual_exclusion :
    (m : Machine) (t u : ℕ)
    → Reachable m
    → t < 56
    → u < 56
    → t ≢ u
    → (m.threads t).writes ≡ true
    → ((m.threads u).reads ≡ false) × ((m.threads u).writes ≡ false)
mutual_exclusion m t u r p q ne w =
    let s = Sound-Reachable m r in
    let e : get_write_state m.word ≡ t + 1 = (s.good t p).writer w in
    let g = s.good u q in
    (
      not-true (λ z. elim (g.reader z) [ inl c ↦ ne (omega arith) | inr c ↦ absurd (omega arith) ]),
      not-true (λ z. ne (omega (arith, g.writer z))),
    )
