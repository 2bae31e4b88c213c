-- ===== src/Stm/Program/Alone.antt =====
-- stms/2PLSF.hpp: loads, stores and allocations of a transaction that meets no conflict.
use plsf.Prelude.{
  ℕ, suc, ◌%◌, ◌^◌, ◌≡◌, refl, inl, inr, true, false, not, ◌||◌, List, arith, ◌==◌, Bool-cases,
  if◌then◌else◌, length, update,
}
use plsf.Config.{
  unlocked, tx_max_allocs, tx_max_retires, max_read_set_entries, max_write_set_entries,
}
use plsf.Index.{addr2write_idx, write_idx2read_idx}
use plsf.Index.Separation.{addr2write_idx-lt}
use plsf.Stm.Locks.Rely.{Returns}
use plsf.Stm.State.{State, Env}
use plsf.Stm.Indicator.{with_bit}
use plsf.Stm.Locks.{
  try_wait_read_lock, try_wait_write_lock, read_set_add_entry, write_set_add_entry,
  arrive_and_check,
}
use plsf.Stm.Txn
use plsf.Stm.Txn.{pload, pstore, tm_malloc, tm_free}
use plsf.Stm.Program.Sole.{Alone, length-snoc, less-Room, Sole-arrive, Sole-write_lock}

module _ (t n : ℕ) where
  pub pload-Alone :
      (rounds : List Env) (addr : ℕ) (s : State)
      → Alone t (suc n) s
      → Returns
          (λ v s'. Alone t n s' × (v ≡ s.shared.mem addr) × (s'.shared.mem ≡ s.shared.mem))
          (pload rounds addr s)
  unfolding pload try_wait_read_lock read_set_add_entry arrive_and_check
  pload-Alone rounds addr s (sole, room) =
      let inside : not s.active ≡ false = ground (arith, sole.inside) in
      let widx = addr2write_idx addr in
      let ridx = write_idx2read_idx widx s.myd.tid in
      let ri = s.shared.read_indicators ridx in
      rw inside (elim (Bool-cases (with_bit ri widx == ri)) [
        | inl already ↦ rw already (
          (
            sole,
            less-Room n _ _ _ _ _ _ _ _ room (omega arith) (omega arith) (omega arith)
                (omega arith),
          ),
          refl,
          refl,
        )
        | inr absent ↦
            let left : (length s.myd.read_set == max_read_set_entries) ≡ false =
              ground (arith, room.read_room) in
            let wstate = s.shared.wlocks widx % 2 ^ 16 in
            let free : ((wstate == unlocked) || (wstate == s.myd.tid)) ≡ true =
              elim (sole.words widx) [
                | inl own ↦ ground (arith, sole.who, sole.range)
                | inr none ↦ ground arith
              ] in
            rw (absent, left, free)
              (
                (
                  Sole-arrive t widx s (addr2write_idx-lt addr) sole,
                  less-Room n _ _ _ _ _ _ _ _ room (omega arith)
                      (omega (arith, length-snoc s.myd.read_set widx)) (omega arith) (omega arith),
                ),
                refl,
                refl,
              )
      ])

  pub pstore-Alone :
      (rounds : List Env) (addr v : ℕ) (s : State)
      → Alone t (suc n) s
      → Returns
          (λ _ s'. Alone t n s' × (s'.shared.mem ≡ update s.shared.mem addr v))
          (pstore rounds addr v s)
  unfolding pstore try_wait_write_lock write_set_add_entry
  pstore-Alone rounds addr v s (sole, room) =
      let inside : not s.active ≡ false = ground (arith, sole.inside) in
      let left : (length s.myd.write_set == max_write_set_entries) ≡ false =
        ground (arith, room.write_room) in
      let (wlocks, e, words) =
        Sole-write_lock t (addr2write_idx addr) s (addr2write_idx-lt addr) sole in
      rw (inside, e, left)
        (
          (
            record {
              who = sole.who;
              range = sole.range;
              words = words;
              no_reader = sole.no_reader;
              registered = sole.registered;
              inside = sole.inside;
            },
            less-Room n _ _ _ _ _ _ _ _ room
                (omega (
                  arith,
                  length-snoc s.myd.write_set (record { addr = addr; old = s.shared.mem addr }),
                ))
                (omega arith) (omega arith) (omega arith),
          ),
          refl,
        )

  pub tm_malloc-Alone :
      (clear : ℕ → (ℕ → ℕ) → ℕ → ℕ) (fresh : ℕ) (s : State)
      → Alone t (suc n) s
      → Returns
          (λ v s'.
            Alone t n s'
            × (v ≡ fresh)
            × (s'.shared.mem ≡ (if fresh == 0 then s.shared.mem else clear fresh s.shared.mem)))
          (tm_malloc clear fresh s)
  unfolding tm_malloc
  tm_malloc-Alone clear fresh s (sole, room) =
      let inside : not s.active ≡ false = ground (arith, sole.inside) in
      let left : (length s.myd.alog == tx_max_allocs) ≡ false = ground (arith, room.alloc_room) in
      elim (Bool-cases (fresh == 0)) [
        | inl null ↦ rw null (
          (
            sole,
            less-Room n _ _ _ _ _ _ _ _ room (omega arith) (omega arith) (omega arith)
                (omega arith),
          ),
          ground arith,
          refl,
        )
        | inr given ↦
            rw (given, inside, left)
              (
                (
                  sole,
                  less-Room n _ _ _ _ _ _ _ _ room (omega arith) (omega arith)
                      (omega (
                        arith,
                        length-snoc s.myd.alog (record { obj = fresh; reclaim = Txn.free }),
                      ))
                      (omega arith),
                ),
                refl,
                refl,
              )
      ]

  pub tm_free-Alone :
      (obj : ℕ) (s : State)
      → Alone t (suc n) s
      → Returns (λ _ s'. Alone t n s' × (s'.shared.mem ≡ s.shared.mem)) (tm_free obj s)
  unfolding tm_free
  tm_free-Alone obj s (sole, room) =
      let inside : not s.active ≡ false = ground (arith, sole.inside) in
      let left : (length s.myd.flog == tx_max_retires) ≡ false = ground (arith, room.free_room) in
      elim (Bool-cases (obj == 0)) [
        | inl null ↦ rw null (
          (
            sole,
            less-Room n _ _ _ _ _ _ _ _ room (omega arith) (omega arith) (omega arith)
                (omega arith),
          ),
          refl,
        )
        | inr given ↦
            rw (given, inside, left)
              (
                (
                  sole,
                  less-Room n _ _ _ _ _ _ _ _ room (omega arith) (omega arith) (omega arith)
                      (omega (arith, length-snoc s.myd.flog obj)),
                ),
                refl,
              )
      ]
