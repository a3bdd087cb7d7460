-- ===== src/Algorithms.antt =====
-- The public algorithms (include/forest_sorting/algorithms.hpp). `blank` is what a read out of bounds
-- would give.
pub mod Supplied
pub mod Sorts
use forest_sorting.Prelude.{
  ℕ, Bool, true, false, List, [], leb, ◌==◌, if◌then◌else◌, length, get_or,
}
use forest_sorting.Errors.{Result, ok, throws, Error, ◌>>=◌}
use forest_sorting.Traits.{Traits, is_parent_sentinel}
use forest_sorting.Rearrange.{copy_in_order, rearrange_in_place}
use forest_sorting.Parents.Build.{build_parent_index_radix_join_result, build_parent_index}
use forest_sorting.Depth.{
  validate_precomputed_depth_input, narrow_depths, depth_prefix_bytes_for_max,
}
use forest_sorting.Order.{
  sorted_order_by_depth_and_id_with_validated_depths, stable_depth_group_trusted_id_permutation,
}
use forest_sorting.Depth.Compute.{compute_depths}
use forest_sorting.Depth.Verify.{verify_with_parent_index}
use forest_sorting.Ids.Compare.{id_less}

module _ {Node NodeId : Type 0} (traits : Traits Node NodeId) (blank : Node) where
  -- The test on the parent identifier of a node.
  abbrev sentinel_of : List Node → ℕ → Bool
  sentinel_of nodes node_index =
      is_parent_sentinel traits.ids (traits.parent_id (get_or nodes node_index blank))

  -- `sortedOrderByDepthAndIdWithDepths`
  unfoldable pub sorted_order_by_depth_and_id_with_depths : List Node → List ℕ → Result (List ℕ)
  sorted_order_by_depth_and_id_with_depths nodes depths =
      validate_precomputed_depth_input (length nodes) depths >>= λ observed_max_depth.
      let with_bytes = λ (depth_prefix_bytes : ℕ).
        sorted_order_by_depth_and_id_with_validated_depths traits blank depth_prefix_bytes nodes
          (narrow_depths depth_prefix_bytes depths) observed_max_depth in
      let depth_prefix_bytes = depth_prefix_bytes_for_max observed_max_depth in
      if length nodes == 0
      then ok []
      else if depth_prefix_bytes == 1
      then with_bytes 1
      else if depth_prefix_bytes == 2
      then with_bytes 2
      else if depth_prefix_bytes == 3
      then with_bytes 3
      else if depth_prefix_bytes == 4
      then with_bytes 4
      else throws Error.invalid_prefix_width

  -- `sortedOrderByDepthAndId`
  unfoldable pub sorted_order_by_depth_and_id : List Node → Result (List ℕ)
  sorted_order_by_depth_and_id nodes =
      if length nodes == 0
      then ok []
      else (build_parent_index_radix_join_result traits (traits.id blank) nodes >>= λ parent_result.
          compute_depths 4 (length nodes) (sentinel_of nodes) parent_result.parent_index
          >>= λ computed.
              let group = λ (depth_prefix_bytes : ℕ) (depths : List ℕ).
                stable_depth_group_trusted_id_permutation depth_prefix_bytes
                  parent_result.id_permutation depths computed.observed_max in
              let depth_prefix_bytes = depth_prefix_bytes_for_max computed.observed_max in
              if depth_prefix_bytes == 1
              then group 1 (narrow_depths 1 computed.values)
              else if depth_prefix_bytes == 2
              then group 2 (narrow_depths 2 computed.values)
              else if depth_prefix_bytes == 3
              then group 3 computed.values
              else if depth_prefix_bytes == 4
              then group 4 computed.values
              else throws Error.invalid_prefix_width)

  -- `sortedCopyByDepthAndId`
  unfoldable pub sorted_copy_by_depth_and_id : List Node → Result (List Node)
  sorted_copy_by_depth_and_id nodes =
      if length nodes == 0
      then ok []
      else (sorted_order_by_depth_and_id nodes >>= λ order. ok (copy_in_order blank nodes order))

  -- `sortInPlaceByDepthAndId`
  unfoldable pub sort_in_place_by_depth_and_id : List Node → Result (List Node)
  sort_in_place_by_depth_and_id nodes =
      if leb (length nodes) 1
      then ok nodes
      else (sorted_order_by_depth_and_id nodes >>= λ order. rearrange_in_place blank nodes order)

  -- `verifySortedByDepthAndId`: an exception of the parent index is caught. The fuel of the model running
  -- out is none.
  unfoldable pub verify_sorted_by_depth_and_id : List Node → Result Bool
  verify_sorted_by_depth_and_id nodes =
      if length nodes == 0
      then ok true
      else elim (build_parent_index traits (traits.id blank) nodes) [
        | throws error ↦ elim error [ Error.out_of_fuel ↦ throws Error.out_of_fuel | _ ↦ ok false ]
        | ok parent_index ↦ ok (
            verify_with_parent_index 4 (id_less traits.ids)
              (λ node_index. traits.id (get_or nodes node_index blank)) (sentinel_of nodes)
              parent_index (length nodes))
      ]
