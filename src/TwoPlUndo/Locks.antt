-- ===== src/TwoPlUndo/Locks.antt =====
-- stms/2PLUndo.hpp: the operations of LockManager as one thread runs them on `lockArray`, with no
-- other thread in between.
pub mod Held
pub mod Taking
pub mod Unlocking
pub mod Roundtrip
use plsf.Prelude.{ℕ, ◌+◌, ◌^◌, Bool, true, false, not, ◌||◌, ◌==◌, if◌then◌else◌, update}
use plsf.TwoPlUndo.LockWord.{
  unlocked, hidx, get_write_state, is_read_locked_by_me, is_empty_ri, write_locked, fetch_add,
  fetch_sub, decrement,
}

-- `LockManager()`: every lock is free.
unfoldable pub new_locks : ℕ → ℕ
new_locks l = 0

-- The part of `tryReadLock` from its `fetch_add` on.
unfoldable pub arrive : ℕ → ℕ → (ℕ → ℕ) → Bool × (ℕ → ℕ)
unfolding get_write_state
arrive lidx tid locks =
    let lock = locks lidx in
    let arrived = update locks lidx (fetch_add lock (2 ^ tid)) in
    let wstate = get_write_state lock in
    if (wstate == tid + 1) || (wstate == unlocked)
    then (true, arrived)
    else (false, update arrived lidx (fetch_sub (arrived lidx) (2 ^ tid)))

unfoldable pub try_read_lock : ℕ → ℕ → (ℕ → ℕ) → Bool × (ℕ → ℕ)
unfolding hidx is_read_locked_by_me get_write_state arrive
try_read_lock addr tid locks =
    let lidx = hidx addr in
    let lock = locks lidx in
    if is_read_locked_by_me lock tid
    then (true, locks)
    else (let wstate = get_write_state lock in
        if wstate == tid + 1
        then (true, locks)
        else (if not (wstate == unlocked) then (false, locks) else arrive lidx tid locks))

-- `compare_exchange_strong` on a lock.
unfoldable pub compare_exchange : ℕ → ℕ → ℕ → (ℕ → ℕ) → Bool × (ℕ → ℕ)
compare_exchange lidx expected desired locks =
    if locks lidx == expected then (true, update locks lidx desired) else (false, locks)

unfoldable pub try_write_lock : ℕ → ℕ → (ℕ → ℕ) → Bool × (ℕ → ℕ)
unfolding hidx get_write_state is_empty_ri write_locked compare_exchange
try_write_lock addr tid locks =
    let lidx = hidx addr in
    let lock = locks lidx in
    let wstate = get_write_state lock in
    if wstate == tid + 1
    then (true, locks)
    else (if not (wstate == unlocked)
        then (false, locks)
        else (if not (is_empty_ri lock tid)
            then (false, locks)
            else compare_exchange lidx lock (write_locked lock tid) locks))

unfoldable pub unlock : ℕ → ℕ → (ℕ → ℕ) → ℕ → ℕ
unfolding hidx decrement
unlock addr tid locks =
    let lidx = hidx addr in
    let decr = decrement (locks lidx) tid in
    if decr == 0 then locks else update locks lidx (fetch_sub (locks lidx) decr)
