-- ===== src/Lists/Examples.antt =====
-- pdatastructures: the library's theorems on the lists of Lists/Samples.
use plsf.Prelude.{ℕ, ◌-◌, ◌≡◌, arith, true, false, not, none, if◌then◌else◌, [], ◌∷◌, ◌++◌, update}
use plsf.Lists.Nodes.{done}
use plsf.Lists.Set.{ListSet, add, remove, contains, delete_list_set}
use plsf.Lists.Set.Refinement.{Represents, set_refinement}
use plsf.Lists.Set.Lifetime.{owned, delete_list_set-owned}
use plsf.Lists.SetNdp.{add_ndp, remove_ndp, contains_ndp, ndp-same}
use plsf.Lists.Queue.{Queue, new_queue, enqueue, dequeue, enqueue_by_ref, dequeue_by_ref}
use plsf.Lists.Queue.Chain
use plsf.Lists.Queue.Refinement.{Dequeues, queue_refinement}
use plsf.Lists.Samples.{
  two_keys, two_items, two_keys-WellFormed, five_and_nine, two_keys-Represents, free_node, one_item,
  one_item-Represents, free_cell,
}

set_refinement_example :
    (contains 3 6 two_keys ≡ done (five_and_nine 6) two_keys)
    × ((s' : ListSet) × (add 40 3 6 two_keys ≡ done (not (five_and_nine 6)) s')
        × Represents s' (if five_and_nine 6 then 2 else 3) (update five_and_nine 6 true))
    × ((s' : ListSet) × (remove 3 6 two_keys ≡ done (five_and_nine 6) s')
        × Represents s' (if five_and_nine 6 then 2 - 1 else 2) (update five_and_nine 6 false))
set_refinement_example =
    set_refinement two_keys 2 five_and_nine 6 40 two_keys-Represents (omega arith) free_node

delete_list_set-owned_example :
    (s' : ListSet) × (delete_list_set 3 two_keys ≡ done tt s')
    × ((a : ℕ) → s'.nodes a ≡ (if owned 16 8 two_items a then none else two_keys.nodes a))
delete_list_set-owned_example =
    delete_list_set-owned two_keys two_items 2 two_keys-WellFormed (omega arith)

ndp-same_example :
    (add_ndp 40 3 6 two_keys ≡ add 40 3 6 two_keys)
    × (remove_ndp 3 6 two_keys ≡ remove 3 6 two_keys)
    × (contains_ndp 3 6 two_keys ≡ contains 3 6 two_keys)
ndp-same_example = ndp-same two_keys two_items 40 2 6 two_keys-WellFormed (omega arith)

queue_refinement_example :
    ((new : Queue) × (new_queue 24 ≡ done true new) × Chain.Represents new [])
    × ((q' : Queue) × (enqueue 24 9 one_item ≡ done true q')
        × (enqueue_by_ref 24 9 one_item ≡ done true q')
        × Chain.Represents q' ((7 ∷ []) ++ 9 ∷ []))
    × Dequeues one_item (7 ∷ [])
    × (dequeue_by_ref one_item ≡ dequeue one_item)
queue_refinement_example =
    queue_refinement one_item (7 ∷ []) 9 24 one_item-Represents (omega arith) free_cell
