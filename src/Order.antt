-- ===== src/Order.antt =====
-- The order pipeline: the permutation by identifier and its stable grouping by depth
-- (include/forest_sorting/detail/order.hpp).
pub mod Sorted
pub mod Duplicates
pub mod Ids
use forest_sorting.Prelude.{
  ℕ, zero, suc, ◌+◌, ◌-◌, ◌*◌, ◌/◌, ◌%◌, ◌^◌, ◌≤◌, ◌<◌, max, min, ◌≡◌, refl, sym, ap, ap₂, subst,
  ◌∙◌, ◌≢◌, ◌↔◌, ◌⊎◌, inl, inr, Bool, true, false, not, ◌&&◌, ◌||◌, Option, none, some, List, [],
  ◌∷◌, ◌++◌, map, append-nil, append_assoc, arith, ltb, leb, ◌==◌, if◌then◌else◌, Bool-cases,
  Option-cases, ltb→lt, ltb→le, lt→ltb, le→ltb, leb→le, leb→lt, le→leb, lt→leb, ==→≡, ==→≢, ==_refl,
  ≡→==, ≢→==, length, get_or, set, replicate, take, drop, All, iota, length-iota, length-append,
  length-set, length-replicate, length-take, length-drop, take-append-drop, get_or-set_self,
  get_or-set_ne, get_or-replicate, get_or-append_at, set-append_at, get_or-append_left, get_or_ext,
  All-get_or, All-of, All-append, All-map, length-map,
}
use forest_sorting.Errors.{Result, ok, throws, Error, ◌>>=◌, ◌>>◌, reject_adjacent_duplicates}
use forest_sorting.Traits.{Traits}
use forest_sorting.Radix.Partition.{bitmask_touched_counts_up_to, full_clear_counts}
use forest_sorting.Grouping.Msd.{stable_group_order_by_depth}
use forest_sorting.Ids.MsdChunks.{
  production_touched_count_max_range_size, production_id_radix_chunk_bytes,
  small_id_range_sort_threshold,
}
use forest_sorting.Ids.MsdChunks.Sort.{sort_index_range_by_id_msd_chunks, new_workspace}
use forest_sorting.Depth.{cast_depth}
use forest_sorting.Ids.Compare.{id_equal}

-- `stableDepthGroupTrustedIdPermutation`
unfoldable pub stable_depth_group_trusted_id_permutation : ℕ → List ℕ → List ℕ → ℕ → Result (List ℕ)
stable_depth_group_trusted_id_permutation depth_prefix_bytes order depths observed_max_depth =
    if leb (length order) 1
    then ok order
    else elim (stable_group_order_by_depth depth_prefix_bytes full_clear_counts order
        (replicate (length order) 0) depths (cast_depth depth_prefix_bytes observed_max_depth)) [
          | none ↦ throws Error.out_of_fuel
          | some grouped ↦ ok grouped
        ]

module _ {Node NodeId : Type 0} (traits : Traits Node NodeId) (blank : Node) where
  -- `makeValidatedGlobalIdPermutation`
  unfoldable pub make_validated_global_id_permutation : List Node → Result (List ℕ)
  make_validated_global_id_permutation nodes =
      let order = iota 0 (length nodes) in
      let id_for_index = λ (node_index : ℕ). traits.id (get_or nodes node_index blank) in
      let policy = bitmask_touched_counts_up_to production_touched_count_max_range_size in
      if leb (length order) 1
      then ok order
      else (sort_index_range_by_id_msd_chunks production_id_radix_chunk_bytes policy
            small_id_range_sort_threshold id_for_index traits.ids order 0 (length order) 0
            (new_workspace policy)
          >>= λ (sorted, workspace).
              reject_adjacent_duplicates
                (λ lhs_index rhs_index.
                  id_equal traits.ids (id_for_index lhs_index) (id_for_index rhs_index))
                sorted Error.duplicate_node_id
              >> ok sorted)

  -- `sortedOrderByDepthAndIdWithValidatedDepths`
  unfoldable pub sorted_order_by_depth_and_id_with_validated_depths :
      ℕ → List Node → List ℕ → ℕ → Result (List ℕ)
  sorted_order_by_depth_and_id_with_validated_depths depth_prefix_bytes nodes depths
        observed_max_depth =
      make_validated_global_id_permutation nodes >>= λ id_permutation.
      stable_depth_group_trusted_id_permutation depth_prefix_bytes id_permutation depths
        observed_max_depth
