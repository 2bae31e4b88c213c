-- ===== src/Registry/Unique.antt =====
-- stms/2PLSF.hpp: the tids of all the threads of class ThreadRegistry together.
use plsf.Prelude.{
  ℕ, ◌<◌, ◌≡◌, refl, inl, inr, ◌∙◌, sym, subst, true, false, arith, ◌==◌, Bool-cases, update,
  update_lem,
}
use plsf.Prelude.Int.{leb_pos}
use plsf.Config.{registry_max_threads}
use plsf.Registry.{
  Registering, assigned, gone, next, deregister_thread, System, advance, leave, Reachable, at_start,
  by_step, by_leave,
}
use plsf.Registry.Step.{Owns, Sound, Sound-grow, Local, next-Local}

-- The invariant of all threads together.
record Good (s : System) : Type 0 where
  sound : (p : ℕ) → Sound s.registry.max_tid (s.threads p)
  owned : (p t : ℕ) → Owns t (s.threads p) → s.registry.used t ≡ true
  unique : (p q t : ℕ) → Owns t (s.threads p) → Owns t (s.threads q) → p ≡ q
  bounded : leb_pos s.registry.max_tid registry_max_threads ≡ true

advance-Good : (p : ℕ) (s : System) → Good s → Good (advance p s)
unfolding advance
advance-Good p s h = record {
  sound = λ q. elim (Bool-cases (p == q)) [
    | inl same ↦ rw (update_lem s.threads p r' q, same) (one.sound)
    | inr apart ↦
        rw (update_lem s.threads p r' q, apart) (Sound-grow _ _ (s.threads q) one.grows (h.sound q))
  ];
  owned = λ q t. elim (Bool-cases (p == q)) [
    | inl same ↦ rw (update_lem s.threads p r' q, same) (one.sets t (h.owned p t))
    | inr apart ↦ rw (update_lem s.threads p r' q, apart) (λ o. one.keeps t (h.owned q t o))
  ];
  unique = λ q q' t. elim (Bool-cases (p == q)) [
    | inl same ↦ elim (Bool-cases (p == q')) [
      | inl same' ↦ λ o o'. ground arith
      | inr apart ↦
          rw (update_lem s.threads p r' q, same, update_lem s.threads p r' q', apart)
            (λ o o'. eq_of same ∙ clash q' t o o')
    ]
    | inr apart ↦ elim (Bool-cases (p == q')) [
      | inl same ↦
          rw (update_lem s.threads p r' q', same, update_lem s.threads p r' q, apart)
            (λ o o'. sym (eq_of same ∙ clash q t o' o))
      | inr apart' ↦
          rw (update_lem s.threads p r' q', apart', update_lem s.threads p r' q, apart)
            (h.unique q q' t)
    ]
  ];
  bounded = one.bounded h.bounded;
}
  where
    r' : Registering
    r' = (next s.registry (s.threads p)).1

    one : Local s.registry (s.threads p) (next s.registry (s.threads p)).0 r'
    one = next-Local s.registry (s.threads p) (h.sound p)

    eq_of : {q : ℕ} → (p == q) ≡ true → q ≡ p
    eq_of same = ground arith

    clash : (q t : ℕ) → Owns t r' → Owns t (s.threads q) → p ≡ q
    clash q t o o' = elim (one.takes t o) [
      | inl before ↦ h.unique p q t before o'
      | inr free ↦ ground (arith, h.owned q t o')
    ]

leave-Good : (p tid : ℕ) (s : System) → s.threads p ≡ assigned tid → Good s → Good (leave p tid s)
unfolding leave deregister_thread
leave-Good p tid s e h = record {
  sound = λ q. elim (Bool-cases (p == q)) [
    | inl same ↦ rw (update_lem s.threads p gone q, same) tt
    | inr apart ↦ rw (update_lem s.threads p gone q, apart) (h.sound q)
  ];
  owned = λ q t. elim (Bool-cases (p == q)) [
    | inl same ↦ rw (update_lem s.threads p gone q, same) (λ o. absurd o)
    | inr apart ↦ rw (update_lem s.threads p gone q, apart) (λ o. kept q t apart o)
  ];
  unique = λ q q' t. elim (Bool-cases (p == q)) [
    | inl same ↦ rw (update_lem s.threads p gone q, same) (λ o. absurd o)
    | inr apart ↦ elim (Bool-cases (p == q')) [
      | inl same ↦ rw (update_lem s.threads p gone q', same) (λ o o'. absurd o')
      | inr apart' ↦
          rw (update_lem s.threads p gone q', apart', update_lem s.threads p gone q, apart)
            (h.unique q q' t)
    ]
  ];
  bounded = h.bounded;
}
  where
    kept :
        (q t : ℕ)
        → (p == q) ≡ false
        → Owns t (s.threads q)
        → update s.registry.used tid false t ≡ true
    kept q t apart o = elim (Bool-cases (tid == t)) [
      | inl same ↦ ground (arith, h.unique p q t (rw e (ground arith)) o)
      | inr other ↦ rw (update_lem s.registry.used tid false t, other) (h.owned q t o)
    ]

Reachable-Good : (s : System) → Reachable s → Good s
Reachable-Good s at_start = record {
  sound = λ p. tt;
  owned = λ p t o. absurd o;
  unique = λ p q t o. absurd o;
  bounded = refl;
}
Reachable-Good s (by_step p before) = advance-Good p _ (Reachable-Good _ before)
Reachable-Good s (by_leave p tid before e) = leave-Good p tid _ e (Reachable-Good _ before)

-- However the threads interleave, register and leave: two threads that have the same tid are one
-- thread.
pub assigned_unique :
    (s : System) (p q tid : ℕ)
    → Reachable s
    → s.threads p ≡ assigned tid
    → s.threads q ≡ assigned tid
    → p ≡ q
assigned_unique s p q tid reach e e' =
    (Reachable-Good s reach).unique p q tid (rw e refl) (rw e' refl)

-- However the threads interleave, register and leave: the tid of a thread is below
-- REGISTRY_MAX_THREADS and below `maxTid`, and `maxTid` is at most REGISTRY_MAX_THREADS. So the loop
-- of `isEmpty` covers every thread that has a tid.
pub assigned_covered :
    (s : System) (p tid : ℕ)
    → Reachable s
    → s.threads p ≡ assigned tid
    → (tid < registry_max_threads)
      × (leb_pos s.registry.max_tid tid ≡ false)
      × (leb_pos s.registry.max_tid registry_max_threads ≡ true)
assigned_covered s p tid reach e =
    let h = Reachable-Good s reach in
    let (lt, covers) = subst (Sound s.registry.max_tid) e (h.sound p) in (lt, covers, h.bounded)
