-- ===== src/TwoPlUndo/Access/Own.antt =====
-- stms/2PLUndo.hpp: what the accesses of LockManager do to a thread's own part of the word of a
-- lock, and to the parts of the other threads.
use plsf.Prelude.{
  ℕ, ◌+◌, ◌≤◌, ◌<◌, ◌≡◌, ◌≢◌, ◌⊎◌, inl, inr, refl, arith, true, false, ◌==◌, ◌^◌, if◌then◌else◌, ap,
  subst, ℕ_discrete, ◌*◌, ◌%◌, sym, ◌∙◌,
}
use plsf.Word.{has_bit}
use plsf.TwoPlUndo.LockWord.{get_write_state, is_empty_ri, write_locked, decrement}
use plsf.TwoPlUndo.LockWord.Parts.{
  is_read_locked_by_me_lem, is_empty_ri_others, fetch_add-writer, fetch_add-has_bit,
  fetch_sub-writer, fetch_sub-has_bit, write_locked-writer, write_locked-has_bit, release-writer,
  release-has_bit,
}
use plsf.TwoPlUndo.Access.{
  Access, read_load, read_add, read_undo, write_load, write_cas, unlock_load, unlock_sub, returns,
  access, Pc, outside, before, Local,
}

-- What a thread knows of the word before each access.
abbrev pub Knows : ℕ → ℕ → Local → Pc → Type 0
Knows u x l outside = Unit
Knows u x l (before read_load) = Unit
Knows u x l (before read_add) = has_bit u x ≡ false
Knows u x l (before read_undo) = (has_bit u x ≡ true) × (l.reads ≡ false) × (l.writes ≡ false)
Knows u x l (before write_load) = Unit
Knows u x l (before (write_cas e)) = (get_write_state e ≡ 0) × (is_empty_ri e u ≡ true)
Knows u x l (before unlock_load) = (l.reads ≡ false) × (l.writes ≡ false)
Knows u x l (before (unlock_sub d)) = (l.reads ≡ false) × (l.writes ≡ false) × (d ≡ decrement x u)

-- A thread that returns with the lock has its part of the word, and no writer is beside a reader.
-- A bit is set beside a foreign writer only until it is taken back.
pub record Good (u : ℕ) (x : ℕ) (l : Local) : Type 0 where
  pub knows : Knows u x l l.pc
  pub bit :
      has_bit u x ≡ true
      → (l.pc ≡ before read_undo) ⊎ (get_write_state x ≡ 0) ⊎ (get_write_state x ≡ u + 1)
  pub reader :
      l.reads ≡ true
      → (get_write_state x ≡ u + 1) ⊎ ((get_write_state x ≡ 0) × (has_bit u x ≡ true))
  pub writer : l.writes ≡ true → get_write_state x ≡ u + 1

-- The change from `x` to `y` is one of thread `t`: it leaves the other bits, and takes the lock in
-- write mode only where no other bit is set.
pub record OnlyMine (t : ℕ) (x : ℕ) (y : ℕ) : Type 0 where
  pub others : (u : ℕ) → u < 56 → u ≢ t → has_bit u y ≡ has_bit u x
  pub owner :
      (get_write_state y ≡ get_write_state x)
      ⊎ ((get_write_state x ≡ 0)
          × (get_write_state y ≡ t + 1)
          × ((u : ℕ) → u < 56 → u ≢ t → has_bit u x ≡ false))
      ⊎ ((get_write_state x ≡ t + 1) × (get_write_state y ≡ 0))

pub decrement_lem :
    (x u : ℕ)
    → decrement x u
      ≡ (if has_bit u x then 2 ^ u else 0)
        + (if get_write_state x == u + 1 then ((u + 1) * 2 ^ 56) % 2 ^ 64 else 0)
unfolding decrement
decrement_lem x u = rw (is_read_locked_by_me_lem x u)

pub true-ne-false : true ≡ false → ⊥
true-ne-false e = ground (arith, e)

module _ (t u x y : ℕ) (ne : u ≢ t) (p : u < 56) (m : OnlyMine t x y) where
  own_writer-same : (get_write_state y == u + 1) ≡ (get_write_state x == u + 1)
  own_writer-same = elim m.owner [
    | inl e ↦ rw e refl
    | inr (inl o) ↦ ground arith
    | inr (inr o) ↦ ground arith
  ]

  decrement-same : decrement y u ≡ decrement x u
  decrement-same =
      rw (decrement_lem y u) (rw (decrement_lem x u) (rw own_writer-same (rw (m.others u p ne))))

  Knows-other : (l : Local) (pc : Pc) → Knows u x l pc → Knows u y l pc
  Knows-other l outside k = k
  Knows-other l (before read_load) k = k
  Knows-other l (before read_add) k = ground (arith, m.others u p ne)
  Knows-other l (before read_undo) k = ground (arith, m.others u p ne)
  Knows-other l (before write_load) k = k
  Knows-other l (before (write_cas e)) k = k
  Knows-other l (before unlock_load) k = k
  Knows-other l (before (unlock_sub d)) k = ground (arith, decrement-same)

  pub Good-other : (l : Local) → Good u x l → Good u y l
  Good-other l g = record {
    knows = Knows-other l l.pc g.knows;
    bit = λ b.
        let b' : has_bit u x ≡ true = sym (m.others u p ne) ∙ b in
        elim m.owner [
          | inl e ↦ elim (g.bit b') [
            | inl c ↦ inl c
            | inr (inl z) ↦ inr (inl (e ∙ z))
            | inr (inr z) ↦ inr (inr (e ∙ z))
          ]
          | inr (inl o) ↦ absurd (true-ne-false (sym b' ∙ o.2 u p ne))
          | inr (inr o) ↦ inr (inl o.1)
        ];
    reader = λ r. elim m.owner [
      | inl e ↦ elim (g.reader r) [
        | inl z ↦ inl (e ∙ z)
        | inr z ↦ inr (e ∙ z.0, m.others u p ne ∙ z.1)
      ]
      | inr (inl o) ↦ elim (g.reader r) [
        | inl z ↦ absurd (omega arith)
        | inr z ↦ absurd (true-ne-false (sym z.1 ∙ o.2 u p ne))
      ]
      | inr (inr o) ↦ elim (g.reader r) [
        | inl z ↦ absurd (ne (omega arith))
        | inr z ↦ absurd (omega arith)
      ]
    ];
    writer = λ r.
        let z = g.writer r in
        elim m.owner [
          | inl e ↦ e ∙ z
          | inr (inl o) ↦ absurd (omega arith)
          | inr (inr o) ↦ absurd (ne (omega arith))
        ];
  }

-- One access of thread `t` that knows what it must: the change is its own.
module _ (t x : ℕ) (h : t < 56) (small : get_write_state x ≤ 56) where
  pub cas_taken : (e : ℕ) → x ≡ e → access t (write_cas e) x ≡ (returns true, write_locked e t)
  unfolding access
  cas_taken e q = ground (arith, q)

  pub cas_missed : (e : ℕ) → x ≢ e → access t (write_cas e) x ≡ (returns false, x)
  unfolding access
  cas_missed e q = ground (arith, q)

  pub OnlyMine-access :
      (a : Access) (l : Local) → Knows t x l (before a) → OnlyMine t x ((access t a x).1)
  unfolding access
  OnlyMine-access read_load l k = record { others = λ u p ne. refl; owner = inl refl }
  OnlyMine-access read_add l k = record {
    others = λ u p ne. fetch_add-has_bit t x h small k u ∙ ground arith;
    owner = inl (fetch_add-writer t x h small k);
  }
  OnlyMine-access read_undo l k = record {
    others = λ u p ne. fetch_sub-has_bit t x h small k.0 u ∙ ground arith;
    owner = inl (fetch_sub-writer t x h small k.0);
  }
  OnlyMine-access write_load l k = record { others = λ u p ne. refl; owner = inl refl }
  OnlyMine-access (write_cas e) l k = elim (ℕ_discrete x e) [
    | yes q ↦ rw (cas_taken e q) (record {
      others = λ u p ne.
          subst (λ z. has_bit u (write_locked z t) ≡ has_bit u x) q
            (write_locked-has_bit t x h small (ap get_write_state q ∙ k.0) u p);
      owner = inr (
          inl (
            ap get_write_state q ∙ k.0,
            subst (λ z. get_write_state (write_locked z t) ≡ t + 1) q
                (write_locked-writer t x h small (ap get_write_state q ∙ k.0)),
            λ u p ne. ap (has_bit u) q ∙ is_empty_ri_others e t u h p ne k.1,
          ));
    })
    | no q ↦ rw (cas_missed e q) (record { others = λ u p ne. refl; owner = inl refl })
  ]
  OnlyMine-access unlock_load l k = record { others = λ u p ne. refl; owner = inl refl }
  OnlyMine-access (unlock_sub d) l k = rw k.2 (record {
    others = λ u p ne. release-has_bit t x h small u p ∙ ground arith;
    owner = elim (ℕ_discrete (get_write_state x) (t + 1)) [
      | yes q ↦ inr (inr (q, release-writer t x h small ∙ ground (arith, q)))
      | no q ↦ inl (release-writer t x h small ∙ ground (arith, q))
    ];
  })

  pub small-access :
      (a : Access) (l : Local) → Knows t x l (before a) → get_write_state ((access t a x).1) ≤ 56
  small-access a l k = elim ((OnlyMine-access a l k).owner) [
    | inl e ↦ omega arith
    | inr (inl o) ↦ omega arith
    | inr (inr o) ↦ omega arith
  ]
