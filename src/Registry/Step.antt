-- ===== src/Registry/Step.antt =====
-- stms/2PLSF.hpp: one step of `register_thread_new`, and what it does to the flags and to `maxTid`.
use plsf.Prelude.{
  ℕ, ◌+◌, ◌<◌, ◌≡◌, ◌⊎◌, inl, inr, subst, true, false, arith, ltb, Bool-cases, update_lem,
}
use plsf.Prelude.Int.{ℤ, pos, negsuc, leb_pos}
use plsf.Config.{registry_max_threads}
use plsf.Registry.{
  Registry, Registering, not_assigned, scan, claim, load_max, raise_max, assigned, too_many, gone,
  same_max, next,
}

-- The thread has taken `tid`: it has set the flag, and not deregistered.
abbrev pub Owns : ℕ → Registering → Type 0
Owns t not_assigned = ⊥
Owns t (scan tid) = ⊥
Owns t (claim tid) = ⊥
Owns t (load_max tid) = tid ≡ t
Owns t (raise_max tid cur_max) = tid ≡ t
Owns t (assigned tid) = tid ≡ t
Owns t too_many = ⊥
Owns t gone = ⊥

-- Of the thread's own loop index, its local `curMax`, and `maxTid` once it has its tid.
abbrev pub Sound : ℤ → Registering → Type 0
Sound max not_assigned = Unit
Sound max (scan tid) = Unit
Sound max (claim tid) = tid < registry_max_threads
Sound max (load_max tid) = tid < registry_max_threads
Sound max (raise_max tid cur_max) = (tid < registry_max_threads) × (leb_pos cur_max tid ≡ true)
Sound max (assigned tid) = (tid < registry_max_threads) × (leb_pos max tid ≡ false)
Sound max too_many = Unit
Sound max gone = Unit

pub Sound-grow :
    (max max' : ℤ) (r : Registering)
    → ((t : ℕ) → leb_pos max t ≡ false → leb_pos max' t ≡ false)
    → Sound max r
    → Sound max' r
Sound-grow max max' not_assigned grow h = tt
Sound-grow max max' (scan tid) grow h = tt
Sound-grow max max' (claim tid) grow h = h
Sound-grow max max' (load_max tid) grow h = h
Sound-grow max max' (raise_max tid cur_max) grow h = h
Sound-grow max max' (assigned tid) grow h = (h.0, grow tid h.1)
Sound-grow max max' too_many grow h = tt
Sound-grow max max' gone grow h = tt

-- What one step of a thread does, whoever the thread is.
pub record Local (g : Registry) (r : Registering) (g' : Registry) (r' : Registering) : Type 0 where
  pub sound : Sound g'.max_tid r'
  pub keeps : (t : ℕ) → g.used t ≡ true → g'.used t ≡ true
  pub sets : (t : ℕ) → (Owns t r → g.used t ≡ true) → Owns t r' → g'.used t ≡ true
  pub takes : (t : ℕ) → Owns t r' → Owns t r ⊎ (g.used t ≡ false)
  pub grows : (t : ℕ) → leb_pos g.max_tid t ≡ false → leb_pos g'.max_tid t ≡ false
  pub bounded :
      leb_pos g.max_tid registry_max_threads ≡ true → leb_pos g'.max_tid registry_max_threads ≡ true

-- A step that leaves the registry alone and takes no tid.
Local-idle :
    (g : Registry) (r r' : Registering)
    → Sound g.max_tid r'
    → ((t : ℕ) → Owns t r' → Owns t r)
    → Local g r g r'
Local-idle g r r' sound same = record {
  sound = sound;
  keeps = λ t e. e;
  sets = λ t used o. used (same t o);
  takes = λ t o. inl (same t o);
  grows = λ t e. e;
  bounded = λ e. e;
}

raised :
    (max cur : ℤ) (tid t : ℕ)
    → same_max max cur ≡ true
    → leb_pos cur tid ≡ true
    → leb_pos max t ≡ false
    → leb_pos (pos (tid + 1)) t ≡ false
raised (pos m) (pos c) tid t same low e = ground arith
raised (negsuc m) (negsuc c) tid t same low e = ground arith
raised (pos m) (negsuc c) tid t same low e = ground arith
raised (negsuc m) (pos c) tid t same low e = ground arith

pub next-Local :
    (g : Registry) (r : Registering) → Sound g.max_tid r → Local g r (next g r).0 (next g r).1
unfolding next
next-Local g not_assigned h = Local-idle g _ _ tt (λ t o. o)
next-Local g (scan tid) h = elim (Bool-cases (ltb tid registry_max_threads)) [
  | inl more ↦ elim (Bool-cases (g.used tid)) [
    | inl taken ↦ rw (more, taken) (Local-idle g _ _ tt (λ t o. o))
    | inr free ↦ rw (more, free) (Local-idle g _ _ (ground arith) (λ t o. o))
  ]
  | inr full ↦ rw full (Local-idle g _ _ tt (λ t o. o))
]
next-Local g (claim tid) h = elim (Bool-cases (g.used tid)) [
  | inl taken ↦ rw taken (Local-idle g _ _ tt (λ t o. o))
  | inr free ↦ rw free (record {
    sound = h;
    keeps = λ t e. ground (arith, update_lem g.used tid true t);
    sets = λ t used o. ground (arith, update_lem g.used tid true t);
    takes = λ t o. inr (subst (λ x. g.used x ≡ false) o free);
    grows = λ t e. e;
    bounded = λ e. e;
  })
]
next-Local g (load_max tid) h = elim (Bool-cases (leb_pos g.max_tid tid)) [
  | inl low ↦ rw low (Local-idle g _ _ (h, low) (λ t o. o))
  | inr covers ↦ rw covers (Local-idle g _ _ (h, covers) (λ t o. o))
]
next-Local g (raise_max tid cur_max) h = elim (Bool-cases (same_max g.max_tid cur_max)) [
  | inl same ↦ rw same (record {
    sound = h.0;
    keeps = λ t e. e;
    sets = λ t used o. used o;
    takes = λ t o. inl o;
    grows = λ t e. raised g.max_tid cur_max tid t same h.1 e;
    bounded = λ e. ground (arith, h.0);
  })
  | inr changed ↦ rw changed (Local-idle g _ _ (h.0) (λ t o. o))
]
next-Local g (assigned tid) h = Local-idle g _ _ h (λ t o. o)
next-Local g too_many h = Local-idle g _ _ tt (λ t o. o)
next-Local g gone h = Local-idle g _ _ tt (λ t o. o)
