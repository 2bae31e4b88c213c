-- ===== src/TwoPlDist/Wrappers.antt =====
-- stms/2PLUndoDist.hpp: the wrappers that the database DBx1000 calls. It opens and closes a transaction by
-- hand, and takes locks without loads and stores.
use plsf.Prelude.{
  ℕ, ◌<◌, ◌≡◌, refl, arith, Bool, true, if◌then◌else◌, List, ◌∷◌, All, ap, ◌∙◌, subst, sym,
  update_self,
}
use plsf.Config.{registry_max_threads}
use plsf.Stm.State.{WriteSetEntry}
use plsf.Stm.Program.{Program, Attempt}
use plsf.TwoPlDist.State.{Shared, State, Outcome, ok, restart, failed, unfinished, Cmd, set_shared}
use plsf.TwoPlDist.Locks.{try_wait_read_lock, try_wait_write_lock}
use plsf.TwoPlDist.Locks.Held.{HoldsNone, Held, Held-start, Held-mem, SameLocks, SameLocks-keeps}
use plsf.TwoPlDist.Locks.Unlocking.{release-mem, release-SameLocks}
use plsf.TwoPlDist.Txn.{free, begin_tx, end_tx, abort_tx, rollback, release}
use plsf.TwoPlDist.Program.{run}
use plsf.TwoPlDist.Program.Logs.{Running, Ends, reclaim_all_keeps}
use plsf.TwoPlDist.Program.Following.{run-Ends}

-- Inside a transaction the call does nothing.
unfoldable pub begin_txn : State → State
unfolding begin_tx
begin_txn s = if s.active then s else begin_tx (record s { active = true })

-- With a null `tl_opdata` this is undefined behaviour, here a failure.
unfoldable pub end_txn : Cmd (Unit {0})
unfolding end_tx
end_txn s = if s.active then ok tt (end_tx s) else failed

-- Its assert is that `tl_opdata` is not null.
unfoldable pub abort_txn : Bool → Cmd (Unit {0})
unfolding abort_tx
abort_txn enable_rollback s = if s.active then ok tt (abort_tx enable_rollback s) else failed

unfoldable pub try_read_lock : ℕ → ℕ → Cmd Bool
unfolding try_wait_read_lock
try_read_lock addr length s = if s.active then try_wait_read_lock addr s else failed

unfoldable pub try_write_lock : ℕ → ℕ → Cmd Bool
unfolding try_wait_write_lock
try_write_lock addr length s = if s.active then try_wait_write_lock addr s else failed

begin_txn-active : (s : State) → s.active ≡ true → begin_txn s ≡ s
unfolding begin_txn
begin_txn-active s e = ap (λ z. if z then s else begin_tx (record s { active = true })) e

abort_tx-active : (s : State) → (abort_tx true s).active ≡ s.active
unfolding abort_tx
abort_tx-active s = refl

abort_tx-mem :
    (s : State)
    → All (λ x. x.reclaim ≡ free) s.myd.alog
    → (a : ℕ) → (abort_tx true s).shared.mem a ≡ rollback s.myd.write_set s.shared.mem a
unfolding abort_tx
abort_tx-mem s p a =
    let g = record s.shared { mem = rollback s.myd.write_set s.shared.mem } in
    ap (λ m. m a) ((reclaim_all_keeps s.myd.alog (release s.myd g) p).3 ∙ release-mem s.myd g)

abort_tx-SameLocks :
    (t : ℕ) (b : Shared) (s : State)
    → t < registry_max_threads
    → Running t b s
    → SameLocks b (abort_tx true s).shared
unfolding abort_tx
abort_tx-SameLocks t b s lt ran =
    let mem = rollback s.myd.write_set s.shared.mem in
    let g = record s.shared { mem = mem } in
    let held =
      subst (λ z. Held z b s.myd.write_set s.myd.read_set s.shared) (sym ran.tid) ran.held in
    let q =
      release-SameLocks b s.myd g (omega (arith, lt, ran.tid))
        (Held-mem s.myd.tid b s.myd.write_set s.myd.read_set s.shared mem held) in
    let k = reclaim_all_keeps s.myd.alog (release s.myd g) ran.plain in
    SameLocks-keeps b (release s.myd g) _ k.0 k.1 k.2 q.0

Ends-weaken :
    {A : Type 0} (P P' : A → State → Type 0) (Q Q' : State → Type 0) (o : Outcome A)
    → ((v : A) (s : State) → P v s → P' v s)
    → ((s : State) → Q s → Q' s)
    → Ends P Q o
    → Ends P' Q' o
Ends-weaken P P' Q Q' (ok v s) f h e = f v s e
Ends-weaken P P' Q Q' (restart s) f h e = h s e
Ends-weaken P P' Q Q' failed f h e = tt
Ends-weaken P P' Q Q' unfinished f h e = e

-- The first entry of the undo log is undone last.
rollback-first :
    (x : WriteSetEntry) (r : List WriteSetEntry) (mem : ℕ → ℕ) → rollback (x ∷ r) mem x.addr ≡ x.old
unfolding rollback
rollback-first x r mem = update_self (rollback r mem) x.addr x.old

module _ (t : ℕ) (b : Shared) (s : State) (g : Shared) (lt : t < registry_max_threads)
    (ran : Running t b s) (none : HoldsNone t g) where
  -- The memory to which the next abort returns.
  abbrev undone : Shared
  undone = record g { mem = rollback s.myd.write_set g.mem }

  -- The state after `abortTxn`, what the other threads did, and `beginTxn`.
  abbrev stale : State
  stale = set_shared (abort_tx true s) g

  stale-Running : Running t undone stale
  unfolding abort_tx
  stale-Running =
      let h = Held-start t g none in
      record {
        active = ran.active;
        tid = ran.tid;
        held = record {
          writes = h.writes;
          reads = h.reads;
          mine_w = λ l e. absurd (none.no_write l e);
          mine_r = λ w p e. ground (arith, none.no_read w p);
          entries = ran.held.entries;
          max = refl;
        };
        undoes = λ a. refl;
        plain = ran.plain;
      }

  HoldsNone-undone : HoldsNone t undone
  HoldsNone-undone = record {
    no_write = none.no_write;
    no_read = none.no_read;
    registered = none.registered;
    count = none.count;
  }

  module _ (x : WriteSetEntry) (r : List WriteSetEntry) (first : s.myd.write_set ≡ x ∷ r) where
    undone-first : undone.mem x.addr ≡ x.old
    undone-first = ap (λ ws. rollback ws g.mem x.addr) first ∙ rollback-first x r g.mem

    -- The value that the word gets from an abort of this state, or has after it.
    stale-Ends :
        (o : Attempt) (p : Program) (n : ℕ)
        → Ends
            (λ _ s'. (abort_tx true s').shared.mem x.addr ≡ x.old)
            (λ s'. s'.shared.mem x.addr ≡ x.old)
            (run p o n stale)
    stale-Ends o p n =
        Ends-weaken _ _ _ _ (run p o n stale)
          (λ v s' f. abort_tx-mem s' f.0.plain x.addr ∙ f.0.undoes x.addr ∙ undone-first)
          (λ s' q. q.mem x.addr ∙ undone-first)
          (run-Ends t lt undone HoldsNone-undone o p n stale stale-Running)

-- A transaction that is in good order since its beginning in the shared state `b`, and whose oldest undo
-- log entry is `x`, is aborted by `abortTxn`, which does not fail and leaves every lock as it was in
-- `b`. The other threads then leave the shared state `g`, in which the thread holds no lock and others
-- may hold any, and the thread calls `beginTxn` and runs any code. When this code jumps back on a
-- conflict, the word of `x` has the value of the entry afterwards, whatever `g` held there; when the
-- code returns and `abortTx` is called, the word has that value after it.
pub begin_txn-stale :
    (t : ℕ) (b : Shared) (s : State) (x : WriteSetEntry) (r : List WriteSetEntry) (g : Shared)
    (o : Attempt) (p : Program) (n : ℕ)
    → t < registry_max_threads
    → Running t b s
    → s.myd.write_set ≡ x ∷ r
    → HoldsNone t g
    → (abort_txn true s ≡ ok tt (abort_tx true s))
      × SameLocks b (abort_tx true s).shared
      × Ends
          (λ _ s'. (abort_tx true s').shared.mem x.addr ≡ x.old)
          (λ s'. s'.shared.mem x.addr ≡ x.old)
          (run p o n (begin_txn (set_shared (abort_tx true s) g)))
unfolding abort_txn
begin_txn-stale t b s x r g o p n lt ran first none = (
  ap (λ z. if z then ok tt (abort_tx true s) else failed) ran.active,
  abort_tx-SameLocks t b s lt ran,
  subst
      (λ z.
        Ends (λ _ s'. (abort_tx true s').shared.mem x.addr ≡ x.old)
          (λ s'. s'.shared.mem x.addr ≡ x.old) (run p o n z))
      (sym (begin_txn-active (set_shared (abort_tx true s) g) (abort_tx-active s ∙ ran.active)))
      (stale-Ends t b s g lt ran none x r first o p n),
)
