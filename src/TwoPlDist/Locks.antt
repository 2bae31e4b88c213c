-- ===== src/TwoPlDist/Locks.antt =====
-- stms/2PLUndoDist.hpp: the locks: a word for the writer, and for each thread a bit of the read-indicator.
pub mod Empty
pub mod Held
pub mod Taking
pub mod Unlocking
use plsf.Prelude.{
  ℕ, zero, suc, ◌+◌, ◌-◌, ◌%◌, ◌^◌, Bool, true, false, ◌&&◌, ◌||◌, bit_and, List, [], ◌∷◌, ◌==◌,
  if◌then◌else◌, update,
}
use plsf.Word.{bit}
use plsf.Index.{addr2write_idx, write_idx2read_idx, ribit}
use plsf.Stm.Indicator.{with_bit, without_bit}
use plsf.Stm.Conflict.{get_max_threads}
use plsf.Stm.State.{WriteSetEntry}
use plsf.TwoPlDist.State.{
  Shared, State, Outcome, ok, Cmd, and_then, set_shared, unlocked, read_set_add_entry,
  write_set_add_entry,
}

-- From the arrival on the read-indicator on. The lock word is read as a uint16_t.
abbrev pub arrive_and_check : ℕ → ℕ → ℕ → Cmd Bool
arrive_and_check widx ridx newri s =
    let wstate = s.shared.wlocks widx % 2 ^ 16 in
    ok ((wstate == unlocked) || (wstate == s.myd.tid + 1)) (
      set_shared s
        (record s.shared { read_indicators = update s.shared.read_indicators ridx newri }))

unfoldable pub try_wait_read_lock : ℕ → Cmd Bool
unfolding read_set_add_entry
try_wait_read_lock addr s =
    let widx = addr2write_idx addr in
    let ridx = write_idx2read_idx widx s.myd.tid in
    let ri = s.shared.read_indicators ridx in
    let newri = with_bit ri widx in
    if newri == ri
    then ok true s
    else and_then (read_set_add_entry addr s) (λ _. arrive_and_check widx ridx newri)

-- One bit of a thread's word: `(ri >> (widx%64)) & 1`.
abbrev pub reader_bit : (ℕ → ℕ) → ℕ → ℕ → ℕ
reader_bit ri widx itid = bit (widx % 64) (ri (write_idx2read_idx widx itid))

-- The loop of `isEmpty` over the `n` threads from `itid` on. The sum of at most 2^32 bits does not wrap.
unfoldable pub sum_bits : ℕ → ℕ → (ℕ → ℕ) → ℕ → ℕ
sum_bits zero itid ri widx = 0
sum_bits (suc n) itid ri widx = reader_bit ri widx itid + sum_bits n (itid + 1) ri widx

unfoldable pub is_empty : Shared → ℕ → ℕ → Bool
unfolding sum_bits
is_empty g widx tid =
    let sum = sum_bits (get_max_threads g.max_tid % 2 ^ 32) 0 g.read_indicators widx in
    ((sum + 2 ^ 64 - reader_bit g.read_indicators widx tid) % 2 ^ 64) == 0

abbrev pub store_wlock : State → ℕ → ℕ → State
store_wlock s widx word =
    set_shared s (record s.shared { wlocks = update s.shared.wlocks widx word })

-- `compare_exchange_strong` on a write lock: whether it succeeds, and the state after.
abbrev pub compare_exchange : State → ℕ → ℕ → ℕ → Bool × State
compare_exchange s widx expected word =
    if s.shared.wlocks widx == expected then (true, store_wlock s widx word) else (false, s)

unfoldable pub try_wait_write_lock : ℕ → Cmd Bool
unfolding write_set_add_entry is_empty
try_wait_write_lock addr s =
    let widx = addr2write_idx addr in
    let wstate = s.shared.wlocks widx in
    if wstate == s.myd.tid + 1
    then and_then (write_set_add_entry addr s) (λ _ s1. ok true s1)
    else (let c = compare_exchange s widx wstate (s.myd.tid + 1) in
        if (wstate == unlocked) && c.0
        then and_then (write_set_add_entry addr c.1)
            (λ _ s1. ok (is_empty s1.shared widx s1.myd.tid) s1)
        else ok false s)

unfoldable pub unlock_write : ℕ → ℕ → Shared → Shared
unlock_write addr tid g =
    let widx = addr2write_idx addr in
    if g.wlocks widx == tid + 1 then record g { wlocks = update g.wlocks widx unlocked } else g

unfoldable pub unlock_read : ℕ → ℕ → Shared → Shared
unlock_read widx tid g =
    let ridx = write_idx2read_idx widx tid in
    let ri = g.read_indicators ridx in
    if bit_and ri (ribit widx) == 0
    then g
    else record g { read_indicators = update g.read_indicators ridx (without_bit ri widx) }

-- The loops over the two logs.
unfoldable pub unlock_all_read_locks : List ℕ → ℕ → Shared → Shared
unfolding unlock_read
unlock_all_read_locks [] tid g = g
unlock_all_read_locks (widx ∷ r) tid g = unlock_all_read_locks r tid (unlock_read widx tid g)

unfoldable pub unlock_all_write_locks : List WriteSetEntry → ℕ → Shared → Shared
unfolding unlock_write
unlock_all_write_locks [] tid g = g
unlock_all_write_locks (x ∷ r) tid g = unlock_all_write_locks r tid (unlock_write x.addr tid g)
