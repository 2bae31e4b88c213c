-- ===== src/Maps/Examples.antt =====
-- pdatastructures: the theorems on the hash maps at samples.
use plsf.Prelude.{ℕ, ◌≡◌, arith, true, not, none, some, update}
use plsf.Lists.Nodes.{done}
use plsf.Maps.FixedSize.{HashMap, inner_get, inner_put, inner_remove, add_key, remove, contains}
use plsf.Maps.FixedSize.Operations.{Represents, is_some, old_in}
use plsf.Maps.FixedSize.Refinement.{fixed_map_refinement}
use plsf.Maps.Resizable
use plsf.Maps.Resizable.View
use plsf.Maps.Resizable.Refinement.{resizable_map_refinement}
use plsf.Maps.Resizable.Rebuilding.{rebuild_lem}
use plsf.Maps.ResizableByRef
use plsf.Maps.ResizableByRef.{resizable_set_refinement}
use plsf.Maps.FixedSizeByRef.{
  add_by_ref, remove_by_ref, contains_by_ref, SetStep, fixed_set_refinement,
}
use plsf.Maps.Samples.OneBucket.{one_bucket, five_only, one_bucket-Represents, vacant_node}
use plsf.Maps.Samples.{same_number, two_buckets, six_only, two_buckets-Represents, free_node}

-- The key 4 was removed: it is put in the node it had.
fixed_map_refinement_example :
    (inner_get same_number 3 4 0 true two_buckets
      ≡ done (is_some (six_only 4), old_in true 0 (six_only 4)) two_buckets)
    × ((m : HashMap) × (inner_put same_number 40 3 4 11 0 true two_buckets
          ≡ done (not (is_some (six_only 4)), old_in true 0 (six_only 4)) m)
        × Represents same_number m 3 (update six_only 4 (some 11)))
    × ((m : HashMap) × (inner_remove same_number 3 4 0 true two_buckets
          ≡ done (is_some (six_only 4), old_in true 0 (six_only 4)) m)
        × Represents same_number m 2 (update six_only 4 none))
fixed_map_refinement_example =
    fixed_map_refinement same_number two_buckets 2 six_only 4 0 true 11 40 two_buckets-Represents
      (omega arith) free_node

-- The map is full: the put of 6 rebuilds it.
resizable_map_refinement_example :
    (Resizable.inner_get same_number 2 6 0 true one_bucket
      ≡ done (is_some (five_only 6), old_in true 0 (five_only 6)) one_bucket)
    × ((m : Resizable.HashMap) × (Resizable.inner_put same_number
            (λ h. 99)
            40
            2
            6
            8
            0
            true
            one_bucket
          ≡ done (not (is_some (five_only 6)), old_in true 0 (five_only 6)) m)
        × View.Represents same_number m 2 (update five_only 6 (some 8)))
    × ((m : Resizable.HashMap) × (Resizable.inner_remove same_number 2 6 0 true one_bucket
          ≡ done (is_some (five_only 6), old_in true 0 (five_only 6)) m)
        × View.Represents same_number m 1 (update five_only 6 none))
resizable_map_refinement_example =
    resizable_map_refinement same_number (λ h. 99) one_bucket 1 five_only 6 0 true 8 40 1
      one_bucket-Represents (omega arith) (omega arith) (omega arith) vacant_node

rebuild_lem_example :
    (m : Resizable.HashMap) × (Resizable.rebuild same_number (λ h. 99) 2 one_bucket ≡ done tt m)
    × View.Represents same_number m 1 five_only
    × ((a : ℕ) → one_bucket.nodes a ≡ none → m.nodes a ≡ none)
    × (m.capacity ≡ 2)
rebuild_lem_example =
    rebuild_lem same_number (λ h. 99) 1 one_bucket 1 five_only one_bucket-Represents (omega arith)
      (omega arith)

fixed_set_refinement_example :
    ((contains same_number 3 4 0 two_buckets ≡ done (is_some (six_only 4)) two_buckets)
      × (contains_by_ref same_number 3 4 0 two_buckets ≡ done (is_some (six_only 4)) two_buckets))
    × SetStep same_number
        (add_key same_number 40 3 4 0 two_buckets)
        (not (is_some (six_only 4)))
        3
        (update six_only 4 (some 4))
    × SetStep same_number
        (add_by_ref same_number 40 3 4 0 two_buckets)
        (not (is_some (six_only 4)))
        3
        (update six_only 4 (some 4))
    × SetStep same_number
        (remove same_number 3 4 0 two_buckets)
        (is_some (six_only 4))
        2
        (update six_only 4 none)
    × SetStep same_number
        (remove_by_ref same_number 3 4 0 two_buckets)
        (is_some (six_only 4))
        2
        (update six_only 4 none)
fixed_set_refinement_example =
    fixed_set_refinement same_number two_buckets 2 six_only 4 0 40 two_buckets-Represents
      (omega arith) free_node

resizable_set_refinement_example :
    ((Resizable.contains same_number 2 6 0 one_bucket ≡ done (is_some (five_only 6)) one_bucket)
      × (ResizableByRef.contains_by_ref same_number 2 6 0 one_bucket
          ≡ done (is_some (five_only 6)) one_bucket))
    × ResizableByRef.SetStep same_number
        (Resizable.add same_number (λ h. 99) 40 2 6 0 one_bucket)
        (not (is_some (five_only 6)))
        2
        (update five_only 6 (some 6))
    × ResizableByRef.SetStep same_number
        (ResizableByRef.add_by_ref same_number (λ h. 99) 40 2 6 0 one_bucket)
        (not (is_some (five_only 6)))
        2
        (update five_only 6 (some 6))
    × ResizableByRef.SetStep same_number
        (Resizable.remove same_number 2 6 0 one_bucket)
        (is_some (five_only 6))
        1
        (update five_only 6 none)
    × ResizableByRef.SetStep same_number
        (ResizableByRef.remove_by_ref same_number 2 6 0 one_bucket)
        (is_some (five_only 6))
        1
        (update five_only 6 none)
resizable_set_refinement_example =
    resizable_set_refinement same_number (λ h. 99) one_bucket 1 five_only 6 0 40 1
      one_bucket-Represents (omega arith) (omega arith) (omega arith) vacant_node
