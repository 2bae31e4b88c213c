-- ===== src/Registry/Lowest.antt =====
-- stms/2PLSF.hpp: `register_thread_new` of a thread that registers while no other thread does.
use plsf.Prelude.{
  ℕ, zero, suc, ◌+◌, ◌<◌, ◌≤◌, ◌≡◌, refl, ◌∙◌, ap, inl, inr, true, false, arith, ltb, Bool-cases,
  if◌then◌else◌, update,
}
use plsf.Prelude.Int.{ℤ, pos, negsuc, leb_pos}
use plsf.Config.{registry_max_threads}
use plsf.Registry.{
  Registry, Registering, scan, claim, load_max, raise_max, assigned, same_max, next,
}

-- `n` steps of the thread.
unfoldable pub steps : ℕ → Registry × Registering → Registry × Registering
unfolding next
steps zero x = x
steps (suc n) x = steps n (next x.0 x.1)

steps-add : (m n : ℕ) (x : Registry × Registering) → steps (m + n) x ≡ steps n (steps m x)
unfolding steps
steps-add zero n x = let e : 0 + n ≡ n = omega arith in ap (λ k. steps k x) e
steps-add (suc m) n x =
    let e : suc m + n ≡ suc (m + n) = omega arith in
    ap (λ k. steps k x) e ∙ steps-add m n (next x.0 x.1)

-- The loop passes the slots that are taken.
scan_taken :
    (d k : ℕ) (g : Registry)
    → ((j : ℕ) → j < k + d → g.used j ≡ true)
    → k + d ≤ registry_max_threads
    → steps d (g, scan k) ≡ (g, scan (k + d))
unfolding steps next
scan_taken zero k g taken p = ap (λ x. (g, scan x)) (omega arith)
scan_taken (suc d) k g taken p =
    let more : ltb k registry_max_threads ≡ true = ground arith in
    rw (more, taken k (omega arith))
      (scan_taken d (k + 1) g (λ j q. taken j (omega arith)) (omega arith)
        ∙ ap (λ x. (g, scan x)) (omega arith))

same_max_self : (m : ℤ) → same_max m m ≡ true
same_max_self (pos m) = ground arith
same_max_self (negsuc m) = ground arith

module _ (tid : ℕ) (g : Registry) where
  scan_free : tid < registry_max_threads → g.used tid ≡ false → next g (scan tid) ≡ (g, claim tid)
  unfolding next
  scan_free lt free =
      let more : ltb tid registry_max_threads ≡ true = ground arith in rw (more, free)

  claim_free :
      g.used tid ≡ false
      → next g (claim tid) ≡ (record g { used = update g.used tid true }, load_max tid)
  unfolding next
  claim_free free = rw free

  load_low : leb_pos g.max_tid tid ≡ true → next g (load_max tid) ≡ (g, raise_max tid g.max_tid)
  unfolding next
  load_low low = rw low

  load_covers : leb_pos g.max_tid tid ≡ false → next g (load_max tid) ≡ (g, assigned tid)
  unfolding next
  load_covers covers = rw covers

  raise_same :
      next g (raise_max tid g.max_tid) ≡ (record g { max_tid = pos (tid + 1) }, load_max tid)
  unfolding next
  raise_same = rw (same_max_self g.max_tid)

-- From the free slot on; the last step is a thread with its tid that stays as it is.
take_free :
    (tid : ℕ) (g : Registry)
    → tid < registry_max_threads
    → g.used tid ≡ false
    → steps 5 (g, scan tid) ≡ (
      record {
        used = update g.used tid true;
        max_tid = if leb_pos g.max_tid tid then pos (tid + 1) else g.max_tid;
      },
      assigned tid,
    )
unfolding steps next
take_free tid g lt free =
    ap (steps 4) (scan_free tid g lt free) ∙ ap (steps 3) (claim_free tid g free) ∙ raise
  where
    g' : Registry
    g' = record g { used = update g.used tid true }

    raise : steps 3 (g', load_max tid) ≡ (
      record {
        used = update g.used tid true;
        max_tid = if leb_pos g.max_tid tid then pos (tid + 1) else g.max_tid;
      },
      assigned tid,
    )
    raise = elim (Bool-cases (leb_pos g.max_tid tid)) [
      | inl low ↦
          ap (steps 2) (load_low tid g' low)
          ∙ ap (steps 1) (raise_same tid g')
          ∙ load_covers tid (record g' { max_tid = pos (tid + 1) }) (ground arith)
          ∙ rw low refl
      | inr covers ↦ ap (steps 2) (load_covers tid g' covers) ∙ rw covers refl
    ]

-- With the slots below `tid` taken and `tid` free, a new thread that no other thread interrupts in
-- `getTID` has the tid `tid` after `tid + 5` of its steps, with its flag set and `maxTid` above
-- `tid`, raised only if it was not.
pub register_lowest :
    (g : Registry) (tid : ℕ)
    → tid < registry_max_threads
    → ((j : ℕ) → j < tid → g.used j ≡ true)
    → g.used tid ≡ false
    → steps (tid + 5) (g, scan 0) ≡ (
      record {
        used = update g.used tid true;
        max_tid = if leb_pos g.max_tid tid then pos (tid + 1) else g.max_tid;
      },
      assigned tid,
    )
register_lowest g tid lt taken free =
    steps-add tid 5 (g, scan 0)
    ∙ ap (steps 5) (scan_taken tid 0 g (λ j q. taken j (omega arith)) (omega arith))
    ∙ ap (λ x. steps 5 (g, scan x)) (omega arith)
    ∙ take_free tid g lt free
