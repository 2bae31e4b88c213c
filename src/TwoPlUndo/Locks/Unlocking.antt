-- ===== src/TwoPlUndo/Locks/Unlocking.antt =====
-- stms/2PLUndo.hpp: `unlock` on the locks that a thread holds, and the loops over the logs.
use plsf.Prelude.{
  ℕ, ◌≤◌, ◌<◌, ◌≡◌, ◌⊎◌, inl, inr, arith, Bool, ◌||◌, ◌==◌, update, update_self, update_ne, ap,
  subst, ◌∙◌, ℕ_discrete,
}
use plsf.TwoPlUndo.LockWord.{hidx, get_write_state, decrement}
use plsf.TwoPlUndo.Locks.{unlock}
use plsf.TwoPlUndo.Locks.Held.{Held, released, released_nothing, released-small, released-decrement}

-- `unlock` drops one entry.
unlock-cases :
    (t : ℕ) (locks : ℕ → ℕ) (addr : ℕ)
    → ((unlock addr t locks ≡ locks) × (decrement (locks (hidx addr)) t ≡ 0))
      ⊎ (unlock addr t locks ≡ update locks (hidx addr) (released t (locks (hidx addr))))
unfolding unlock
unlock-cases t locks addr = ground arith

pub Held-unlock :
    (t : ℕ) (b locks : ℕ → ℕ) (rest : ℕ → Bool) (addr : ℕ)
    → t < 56
    → Held t b locks (λ k. (hidx addr == k) || rest k)
    → Held t b (unlock addr t locks) rest
Held-unlock t b locks rest addr h i = elim (unlock-cases t locks addr) [
  | inl e ↦ rw (e.0) (record {
    base = i.base;
    small = i.small;
    mine = λ k n. elim (ℕ_discrete (hidx addr) k) [
      | yes q ↦ absurd (n (subst (λ v. decrement (locks v) t ≡ 0) q e.1))
      | no q ↦ let m = i.mine k n in ground (arith, m, q)
    ];
  })
  | inr e ↦
      let x = locks (hidx addr) in
      let small = i.small (hidx addr) in
      let free = released-decrement t x h small in
      rw e (record {
        base = λ k. elim (ℕ_discrete (hidx addr) k) [
          | yes q ↦
              subst (λ v. released t (update locks (hidx addr) (released t x) v) ≡ b v) q
                (rw (update_self locks (hidx addr) (released t x)) (
                  released_nothing t (released t x) h (released-small t x h small) free
                  ∙ i.base (hidx addr)))
          | no q ↦ rw (update_ne locks (hidx addr) (released t x) k q) (i.base k)
        ];
        small = λ k. elim (ℕ_discrete (hidx addr) k) [
          | yes q ↦
              subst (λ v. get_write_state (update locks (hidx addr) (released t x) v) ≤ 56) q
                (rw (update_self locks (hidx addr) (released t x)) (released-small t x h small))
          | no q ↦ rw (update_ne locks (hidx addr) (released t x) k q) (i.small k)
        ];
        mine = λ k n. elim (ℕ_discrete (hidx addr) k) [
          | yes q ↦ absurd (
              n (
                subst (λ v. decrement (update locks (hidx addr) (released t x) v) t ≡ 0) q
                  (rw (update_self locks (hidx addr) (released t x)) free)))
          | no q ↦
              let m = i.mine k (λ z.
                n (ap (λ v. decrement v t) (update_ne locks (hidx addr) (released t x) k q) ∙ z)) in
              ground (arith, m, q)
        ];
      })
]
