-- ===== src/Stm/Program/Sequential.antt =====
-- The specification of `STM::transaction` of stms/2PLSF.hpp: what user code means by itself, with no
-- STM around it.
use plsf.Prelude.{ℕ, zero, suc, ◌+◌, ◌==◌, if◌then◌else◌, update}
use plsf.Stm.Program.{Program, finish, load, store, malloc, free, Attempt}

-- The value and the memory that the code leaves; `o` is what it gets from `malloc`.
unfoldable pub exec : Program → Attempt → ℕ → (ℕ → ℕ) → ℕ × (ℕ → ℕ)
exec (finish v) o n mem = (v, mem)
exec (load addr k) o n mem = exec (k (mem addr)) o (n + 1) mem
exec (store addr v p) o n mem = exec p o (n + 1) (update mem addr v)
exec (malloc k) o n mem =
    exec (k (o.fresh n)) o (n + 1) (if o.fresh n == 0 then mem else o.clear (o.fresh n) mem)
exec (free obj p) o n mem = exec p o (n + 1) mem

-- On no path does the code make more than `n` operations.
abbrev pub Fits : ℕ → Program → Type 0
Fits n (finish v) = Unit
Fits zero (load addr k) = ⊥
Fits (suc n) (load addr k) = (v : ℕ) → Fits n (k v)
Fits zero (store addr v p) = ⊥
Fits (suc n) (store addr v p) = Fits n p
Fits zero (malloc k) = ⊥
Fits (suc n) (malloc k) = (v : ℕ) → Fits n (k v)
Fits zero (free obj p) = ⊥
Fits (suc n) (free obj p) = Fits n p
