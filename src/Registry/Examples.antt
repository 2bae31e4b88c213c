-- ===== src/Registry/Examples.antt =====
-- Two threads that register, for the thread registry of stms/2PLSF.hpp.
use plsf.Prelude.{ℕ, ◌<◌, ◌≡◌, refl, true, false, arith, ltb, update}
use plsf.Prelude.Int.{pos, leb_pos}
use plsf.Config.{registry_max_threads}
use plsf.Registry.{
  Registry, scan, assigned, next, System, start, advance, Reachable, at_start, by_step,
}
use plsf.Registry.Unique.{assigned_unique, assigned_covered}
use plsf.Registry.Lowest.{steps, register_lowest}

-- Threads 4 and 7 both see the first slot free; thread 7 is quicker.
abbrev both_scan : System
both_scan = advance 7 (advance 4 (advance 7 (advance 4 start)))

abbrev one_claims : System
one_claims = advance 4 (advance 7 both_scan)

one_claims-Reachable : Reachable one_claims
one_claims-Reachable =
    by_step 4 (by_step 7 (by_step 7 (by_step 4 (by_step 7 (by_step 4 at_start)))))

-- The slower thread goes on to the next slot.
slower_goes_on : one_claims.threads 4 ≡ scan 1
unfolding advance next update
slower_goes_on = refl

-- Thread 4 registers with no other thread in between.
abbrev registered : System
registered = advance 4 (advance 4 (advance 4 (advance 4 (advance 4 (advance 4 start)))))

registered-Reachable : Reachable registered
registered-Reachable =
    by_step 4 (by_step 4 (by_step 4 (by_step 4 (by_step 4 (by_step 4 at_start)))))

registered_tid : registered.threads 4 ≡ assigned 0
unfolding advance next update
registered_tid = refl

abbrev thread : ℕ
thread = 4

assigned_unique_example : thread ≡ thread
assigned_unique_example =
    assigned_unique registered thread thread 0 registered-Reachable registered_tid registered_tid

assigned_covered_example :
    (0 < registry_max_threads)
    × (leb_pos registered.registry.max_tid 0 ≡ false)
    × (leb_pos registered.registry.max_tid registry_max_threads ≡ true)
assigned_covered_example = assigned_covered registered 4 0 registered-Reachable registered_tid

-- Slots 0 and 1 are taken.
abbrev two_taken : Registry
two_taken = record { used = λ tid. ltb tid 2; max_tid = pos 2 }

register_lowest_example :
    steps 7 (two_taken, scan 0)
    ≡ (record { used = update two_taken.used 2 true; max_tid = pos 3 }, assigned 2)
register_lowest_example = register_lowest two_taken 2 (omega arith) (λ j q. ground arith) refl
