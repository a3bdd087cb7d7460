-- ===== src/Parents/Build.antt =====
-- The parent index with the identifier sort of the program as its sorter.
use forest_sorting.Prelude.{ℕ, List, length}
use forest_sorting.Errors.{Result, ok, ◌>>=◌}
use forest_sorting.Traits.{Traits}
use forest_sorting.Radix.Partition.{CounterTraits, bitmask_touched_counts_up_to}
use forest_sorting.Parents.{ParentIndexResult, build_parent_index_with_permutation_sorter}
use forest_sorting.Ids.MsdChunks.{
  production_id_radix_chunk_bytes, small_id_range_sort_threshold,
  production_touched_count_max_range_size,
}
use forest_sorting.Ids.MsdChunks.Sort.{sort_index_range_by_id_msd_chunks, new_workspace}

module _ {Node NodeId : Type 0} (traits : Traits Node NodeId) (blank : NodeId) where
  -- `buildParentIndexRadixJoinResultByMsdChunks`; one workspace serves both sorts.
  unfoldable pub build_parent_index_radix_join_result_by_msd_chunks :
      {Scratch : Type 0} → ℕ → CounterTraits Scratch → List Node → Result ParentIndexResult
  build_parent_index_radix_join_result_by_msd_chunks radix_chunk_bytes policy nodes =
      build_parent_index_with_permutation_sorter traits blank
        (λ SortId permutation id_for_index sort_traits workspace.
          sort_index_range_by_id_msd_chunks radix_chunk_bytes policy small_id_range_sort_threshold
            id_for_index sort_traits permutation 0 (length permutation) 0 workspace)
        (new_workspace policy) nodes

  -- `buildParentIndexRadixJoinResult`, with the production policy.
  unfoldable pub build_parent_index_radix_join_result : List Node → Result ParentIndexResult
  build_parent_index_radix_join_result nodes =
      build_parent_index_radix_join_result_by_msd_chunks production_id_radix_chunk_bytes
        (bitmask_touched_counts_up_to production_touched_count_max_range_size) nodes

  -- `buildParentIndex`, through `buildParentIndexRadixJoin`
  unfoldable pub build_parent_index : List Node → Result (List ℕ)
  build_parent_index nodes =
      build_parent_index_radix_join_result nodes >>= λ result. ok result.parent_index
