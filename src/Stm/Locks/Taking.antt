-- ===== src/Stm/Locks/Taking.antt =====
-- stms/2PLSF.hpp: a thread in the slow path of `tryWaitWriteLock`, about to take a write lock.
use plsf.Prelude.{
  ℕ, ◌%◌, ◌^◌, ◌<◌, ◌≡◌, ◌≢◌, ◌⊎◌, inl, inr, false, List, ◌==◌, update, update_lem, Bool-cases,
}
use plsf.Config.{registry_max_threads, num_rwl}
use plsf.Index.{write_idx2read_idx}
use plsf.Stm.State.{Shared, WriteSetEntry, State, Env, set_shared}
use plsf.Stm.Indicator.{arrived, with_bit, without_bit}
use plsf.Stm.Conflict.{get_max_threads}
use plsf.Stm.Conflict.Minimum.{IsLockWord}
use plsf.Stm.Locks.{compare_exchange}
use plsf.Stm.Locks.Rely.{Respects}
use plsf.Stm.Locks.Tracked.{
  Tracked, Kept, skip_only, logs_write, Tracked-lock, Tracked-arrive, Tracked-depart, Tracked-env,
  Kept-arrive, Kept-env, Kept-lock, Kept-depart,
}

pub words_store :
    (wlocks : ℕ → ℕ) (widx word : ℕ)
    → ((w : ℕ) → IsLockWord (wlocks w))
    → IsLockWord word
    → (w : ℕ) → IsLockWord (update wlocks widx word w)
words_store wlocks widx word all new w = elim (Bool-cases (widx == w)) [
  | inl e ↦ rw (update_lem wlocks widx word w, e) new
  | inr e ↦ rw (update_lem wlocks widx word w, e) (all w)
]

-- Thread `t` in good order but for the lock `widx`, which it is about to take.
pub record Taking (t widx : ℕ) (wlocks ri : ℕ → ℕ) (tid : ℕ) (ws : List WriteSetEntry) (rs : List ℕ)
    : Type 0 where
  pub who : tid ≡ t
  pub range : t < registry_max_threads
  pub words : (w : ℕ) → IsLockWord (wlocks w)
  pub tracked : Tracked t (skip_only widx) wlocks ri ws rs
  pub kept : Kept t (skip_only widx) wlocks ri rs
  pub unlogged : logs_write widx ws ≡ false

abbrev pub IsTaking : ℕ → ℕ → State → Type 0
IsTaking t widx s =
    Taking t widx s.shared.wlocks s.shared.read_indicators s.myd.tid s.myd.write_set s.myd.read_set

-- Every other registered thread's bit for the lock is clear.
abbrev pub Alone : ℕ → ℕ → State → Type 0
Alone t widx s =
    (itid : ℕ)
    → itid < get_max_threads s.shared.max_tid % 2 ^ 32
    → itid < registry_max_threads
    → itid ≢ t
    → arrived s.shared.read_indicators widx itid ≡ false

module _ (t widx : ℕ) (p : widx < num_rwl) where
  pub Taking-cas :
      (g : Shared) (expected word : ℕ) {ri : ℕ → ℕ} {tid : ℕ} {ws : List WriteSetEntry}
      {rs : List ℕ}
      → IsLockWord word
      → Taking t widx g.wlocks ri tid ws rs
      → Taking t widx (compare_exchange g widx expected word).wlocks ri tid ws rs
  unfolding compare_exchange
  Taking-cas g expected word new h = elim (Bool-cases (g.wlocks widx == expected)) [
    | inl e ↦ rw e (record {
      who = h.who;
      range = h.range;
      words = words_store g.wlocks widx word h.words new;
      tracked = Tracked-lock t widx h.range p h.tracked word;
      kept = Kept-lock t widx h.range p h.kept word;
      unlogged = h.unlogged;
    })
    | inr e ↦ rw e h
  ]

  pub Taking-depart :
      (word : ℕ) {wlocks ri : ℕ → ℕ} {tid : ℕ} {ws : List WriteSetEntry} {rs : List ℕ}
      → (ri (write_idx2read_idx widx t) ≡ word)
        ⊎ (ri (write_idx2read_idx widx t) ≡ with_bit word widx)
      → Taking t widx wlocks ri tid ws rs
      → Taking t widx wlocks
          (update ri (write_idx2read_idx widx t) (without_bit word widx))
          tid
          ws
          rs
  Taking-depart word now h = record {
    who = h.who;
    range = h.range;
    words = h.words;
    tracked = Tracked-depart t widx h.range p h.tracked word now;
    kept = Kept-depart t widx h.range p h.kept word now;
    unlogged = h.unlogged;
  }

  pub Taking-arrive :
      {wlocks ri : ℕ → ℕ} {tid : ℕ} {ws : List WriteSetEntry} {rs : List ℕ}
      → Taking t widx wlocks ri tid ws rs
      → Taking t widx wlocks
          (update ri (write_idx2read_idx widx t) (with_bit (ri (write_idx2read_idx widx t)) widx))
          tid
          ws
          rs
  Taking-arrive h = record {
    who = h.who;
    range = h.range;
    words = h.words;
    tracked = Tracked-arrive t widx h.range p h.tracked;
    kept = Kept-arrive t widx h.range p h.kept;
    unlogged = h.unlogged;
  }

  pub Taking-env :
      (e : Env) (s : State)
      → Respects t e
      → IsTaking t widx s
      → IsTaking t widx (set_shared s (e s.shared))
  Taking-env e s r h = record {
    who = h.who;
    range = h.range;
    words = r.lock_words s.shared h.words;
    tracked = Tracked-env t (skip_only widx) e s.shared r h.tracked;
    kept = Kept-env t (skip_only widx) e s.shared r h.kept;
    unlogged = h.unlogged;
  }
