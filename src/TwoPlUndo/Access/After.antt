-- ===== src/TwoPlUndo/Access/After.antt =====
-- stms/2PLUndo.hpp: a thread's own part of the word of a lock after each of its accesses.
use plsf.Prelude.{
  ℕ, ◌+◌, ◌≤◌, ◌<◌, ◌≡◌, ◌≢◌, ◌⊎◌, inl, inr, refl, arith, true, false, ◌||◌, ◌^◌, ap, subst,
  ℕ_discrete, sym, ◌∙◌,
}
use plsf.Word.{has_bit}
use plsf.TwoPlUndo.LockWord.{
  get_write_state, is_empty_ri, write_locked, fetch_add, fetch_sub, decrement,
}
use plsf.TwoPlUndo.LockWord.Parts.{
  fetch_add-writer, fetch_add-has_bit, fetch_sub-has_bit, write_locked-writer, release-has_bit,
}
use plsf.TwoPlUndo.Access.{
  Access, read_load, read_add, read_undo, write_load, write_cas, unlock_load, unlock_sub, returns,
  read_loaded, read_added, write_loaded, unlock_loaded, access, before, Local, proceed,
}
use plsf.TwoPlUndo.Access.Own.{Good, Knows, true-ne-false, cas_taken, cas_missed}
use plsf.TwoPlUndo.Access.Cases.{
  is_read_undo, not-true, Holds, read_loaded-cases, read_added-cases, write_loaded-cases,
  unlock_loaded-cases, settled, Reads, read_returned, write_returned,
}

module _ (t x : ℕ) (h : t < 56) (small : get_write_state x ≤ 56) (l : Local) (g : Good t x l) where
  Reads-loaded :
      (is_read_undo l.pc ≡ false) → (has_bit t x ≡ true) ⊎ (get_write_state x ≡ t + 1) → Reads t x
  unfolding Reads Holds
  Reads-loaded e (inr z) = inl z
  Reads-loaded e (inl b) = elim (settled t x h small l e g b) [ inl z ↦ inr (z, b) | inr z ↦ inl z ]

  Good-read_loaded : is_read_undo l.pc ≡ false → Good t x (proceed read_load (read_loaded t x) l)
  Good-read_loaded e = elim (read_loaded-cases t x h small) [
    | inl c ↦ rw (c.0) (
        read_returned t x x l g true (settled t x h small l e g) (λ r. r) (λ z. z)
          (λ q. Reads-loaded e c.1))
    | inr (inl c) ↦ rw c (
        read_returned t x x l g false (settled t x h small l e g) (λ r. r) (λ z. z)
          (λ q. absurd (true-ne-false (sym q))))
    | inr (inr c) ↦ rw (c.0) (record {
      knows = c.1;
      bit = λ b. absurd (true-ne-false (sym b ∙ c.1));
      reader = g.reader;
      writer = g.writer;
    })
  ]

  Good-write_loaded : is_read_undo l.pc ≡ false → Good t x (proceed write_load (write_loaded t x) l)
  unfolding Holds
  Good-write_loaded e = elim (write_loaded-cases t x h small) [
    | inl c ↦
        rw (c.0)
          (write_returned t x x l g true (settled t x h small l e g) (λ r. r) (λ z. z) (λ q. c.1))
    | inr (inl c) ↦ rw c (
        write_returned t x x l g false (settled t x h small l e g) (λ r. r) (λ z. z)
          (λ q. absurd (true-ne-false (sym q))))
    | inr (inr c) ↦ rw (c.0) (record {
      knows = (c.1, c.2);
      bit = λ b. inr (inl c.1);
      reader = g.reader;
      writer = g.writer;
    })
  ]

  Good-unlock_loaded :
      l.reads ≡ false
      → l.writes ≡ false
      → is_read_undo l.pc ≡ false
      → Good t x (proceed unlock_load (unlock_loaded t x) l)
  unfolding Holds
  Good-unlock_loaded r w e = elim (unlock_loaded-cases t x h small) [
    | inl c ↦ rw c (record {
      knows = tt;
      bit = λ b. inr (settled t x h small l e g b);
      reader = g.reader;
      writer = g.writer;
    })
    | inr c ↦ rw c (record {
      knows = (r, w, refl);
      bit = λ b. inr (settled t x h small l e g b);
      reader = g.reader;
      writer = g.writer;
    })
  ]

  -- The accesses that change the word.
  added_bit : has_bit t x ≡ false → has_bit t (fetch_add x (2 ^ t)) ≡ true
  added_bit k = fetch_add-has_bit t x h small k t ∙ ground arith

  added_writer : has_bit t x ≡ false → get_write_state (fetch_add x (2 ^ t)) ≡ get_write_state x
  added_writer k = fetch_add-writer t x h small k

  held_after : has_bit t x ≡ false → Holds t x → Holds t (fetch_add x (2 ^ t))
  unfolding Holds
  held_after k (inl z) = inl (added_writer k ∙ z)
  held_after k (inr z) = inr (added_writer k ∙ z)

  Reads-held : has_bit t x ≡ false → Holds t (fetch_add x (2 ^ t)) → Reads t (fetch_add x (2 ^ t))
  unfolding Holds Reads
  Reads-held k (inl z) = inr (z, added_bit k)
  Reads-held k (inr z) = inl z

  no_reader :
      has_bit t x ≡ false
      → get_write_state x ≢ 0
      → get_write_state x ≢ t + 1
      → (get_write_state x ≡ t + 1) ⊎ ((get_write_state x ≡ 0) × (has_bit t x ≡ true))
      → ⊥
  no_reader k n m (inl z) = m z
  no_reader k n m (inr z) = n z.0

  Good-read_added :
      has_bit t x ≡ false → Good t (fetch_add x (2 ^ t)) (proceed read_add (read_added t x) l)
  unfolding Reads Holds
  Good-read_added k = elim (read_added-cases t x h small) [
    | inl c ↦
        let held : Holds t (fetch_add x (2 ^ t)) = held_after k c.1 in
        rw (c.0) (
          read_returned t x (fetch_add x (2 ^ t)) l g true (λ b. held) (λ r. Reads-held k held)
            (λ z. added_writer k ∙ z) (λ q. Reads-held k held))
    | inr c ↦ rw (c.0) (record {
      knows = (
        added_bit k,
        not-true (λ q. no_reader k c.1 c.2 (g.reader q)),
        not-true (λ q. c.2 (g.writer q)),
      );
      bit = λ b. inl refl;
      reader = λ r. absurd (no_reader k c.1 c.2 (g.reader r));
      writer = λ r. absurd (c.2 (g.writer r));
    })
  ]

  undone_bit : has_bit t x ≡ true → has_bit t (fetch_sub x (2 ^ t)) ≡ false
  undone_bit k = fetch_sub-has_bit t x h small k t ∙ ground arith

  Good-read_undone :
      has_bit t x ≡ true
      → l.reads ≡ false
      → l.writes ≡ false
      → Good t (fetch_sub x (2 ^ t)) (proceed read_undo (returns false) l)
  Good-read_undone k r w = record {
    knows = tt;
    bit = λ b. absurd (true-ne-false (sym b ∙ undone_bit k));
    reader = λ q. absurd (true-ne-false (sym q ∙ ap (λ z. z || false) r));
    writer = λ q. absurd (true-ne-false (sym q ∙ w));
  }

  Good-cas :
      (e : ℕ)
      → get_write_state e ≡ 0
      → is_empty_ri e t ≡ true
      → l.pc ≡ before (write_cas e)
      → Good t
          ((access t (write_cas e) x).1)
          (proceed (write_cas e) ((access t (write_cas e) x).0) l)
  unfolding Holds Reads is_read_undo
  Good-cas e z i pc = elim (ℕ_discrete x e) [
    | yes q ↦
        let owned = write_locked-writer t e h (subst (λ v. get_write_state v ≤ 56) q small) z in
        rw (cas_taken t x h small e q) (
          write_returned t x (write_locked e t) l g true (λ b. inr owned) (λ r. inl owned)
            (λ v. owned) (λ v. owned))
    | no q ↦ rw (cas_missed t x h small e q) (
        write_returned t x x l g false (settled t x h small l (ap is_read_undo pc) g) (λ r. r)
          (λ v. v) (λ v. absurd (true-ne-false (sym v))))
  ]

  Good-unlocked :
      (d : ℕ)
      → l.reads ≡ false
      → l.writes ≡ false
      → d ≡ decrement x t
      → Good t (fetch_sub x d) (proceed (unlock_sub d) (returns true) l)
  Good-unlocked d r w e = rw e (record {
    knows = tt;
    bit = λ b. absurd (true-ne-false (sym b ∙ release-has_bit t x h small t h ∙ ground arith));
    reader = λ q. absurd (true-ne-false (sym q ∙ r));
    writer = λ q. absurd (true-ne-false (sym q ∙ w));
  })

  Good-access_known :
      (a : Access)
      → l.pc ≡ before a
      → Knows t x l (before a)
      → Good t ((access t a x).1) (proceed a ((access t a x).0) l)
  unfolding access is_read_undo
  Good-access_known read_load e k = Good-read_loaded (ap is_read_undo e)
  Good-access_known read_add e k = Good-read_added k
  Good-access_known read_undo e k = Good-read_undone k.0 k.1 k.2
  Good-access_known write_load e k = Good-write_loaded (ap is_read_undo e)
  Good-access_known (write_cas v) e k = Good-cas v k.0 k.1 e
  Good-access_known unlock_load e k = Good-unlock_loaded k.0 k.1 (ap is_read_undo e)
  Good-access_known (unlock_sub d) e k = Good-unlocked d k.0 k.1 k.2

  -- The thread's own part after any of its accesses.
  pub Good-access :
      (a : Access) → l.pc ≡ before a → Good t ((access t a x).1) (proceed a ((access t a x).0) l)
  unfolding access is_read_undo
  Good-access a e = Good-access_known a e (subst (Knows t x l) e g.knows)
