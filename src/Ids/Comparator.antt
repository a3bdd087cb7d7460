-- ===== src/Ids/Comparator.antt =====
-- The comparators that a parent index is built with
-- (include/forest_sorting/detail/id_permutation_compare.hpp).
use forest_sorting.Prelude.{ℕ, Bool, ◌&&◌, List, [], map, if◌then◌else◌, get_or}
use forest_sorting.Traits.{IdTraits}
use forest_sorting.Ids.Chunks.{
  id_chunk_count, fill_cached_chunk_id, CachedChunkId, cached_comparison_chunk_bytes, cached_traits,
}
use forest_sorting.Ids.Compare.{
  should_cache_chunk_ids, compare_node_ids, compare_cached_id_chunks, Sign, id_equal, is_zero,
}

-- What both comparator classes offer: the identifiers and traits to sort by, and the comparisons of
-- positions. Left positions are nodes, right positions are queries.
pub record Comparator (SortId : Type 0) : Type 0 where
  pub left_id_for_sort : ℕ → SortId
  pub right_id_for_sort : ℕ → SortId
  pub sort_traits : IdTraits SortId
  pub compare : ℕ → ℕ → Sign
  pub cross_equal : ℕ → ℕ → Bool
  pub left_equal : ℕ → ℕ → Bool

module _ {NodeId : Type 0} (blank : NodeId) (left_ids right_ids : List NodeId)
    (traits : IdTraits NodeId) where
  -- `DirectIdPermutationComparator`
  unfoldable pub direct_comparator : Comparator NodeId
  unfolding compare_node_ids id_equal
  direct_comparator = record {
    left_id_for_sort = λ index. get_or left_ids index blank;
    right_id_for_sort = λ index. get_or right_ids index blank;
    sort_traits = traits;
    compare = λ left_index right_index.
        compare_node_ids traits (get_or left_ids left_index blank)
          (get_or right_ids right_index blank);
    cross_equal = λ left_index right_index.
        id_equal traits (get_or left_ids left_index blank) (get_or right_ids right_index blank);
    left_equal = λ lhs_index rhs_index.
        id_equal traits (get_or left_ids lhs_index blank) (get_or left_ids rhs_index blank);
  }

  -- The cached identifiers that the constructor of `CachedIdPermutationComparator` fills.
  unfoldable pub fill_all : List NodeId → List CachedChunkId
  unfolding fill_cached_chunk_id
  fill_all ids =
      map
        (fill_cached_chunk_id (id_chunk_count cached_comparison_chunk_bytes traits.id_byte_count)
          traits)
        ids

  -- `CachedIdPermutationComparator`
  unfoldable pub cached_comparator : Comparator CachedChunkId
  unfolding fill_all compare_cached_id_chunks id_equal cached_traits
  cached_comparator =
      let count = id_chunk_count cached_comparison_chunk_bytes traits.id_byte_count in
      let cached_left = fill_all left_ids in
      let cached_right = fill_all right_ids in
      record {
        left_id_for_sort = λ index. get_or cached_left index [];
        right_id_for_sort = λ index. get_or cached_right index [];
        sort_traits = cached_traits traits;
        compare = λ left_index right_index.
            compare_cached_id_chunks count (get_or cached_left left_index [])
              (get_or cached_right right_index []);
        cross_equal = λ left_index right_index.
            id_equal traits (get_or left_ids left_index blank) (get_or right_ids right_index blank);
        left_equal = λ lhs_index rhs_index.
            is_zero (
              compare_cached_id_chunks count (get_or cached_left lhs_index [])
                (get_or cached_left rhs_index []))
            && id_equal traits (get_or left_ids lhs_index blank) (get_or left_ids rhs_index blank);
      }

  -- `withIdPermutationComparator`
  unfoldable pub with_id_permutation_comparator :
      {Out : Type 0} → ((SortId : Type 0) → Comparator SortId → Out) → Out
  unfolding should_cache_chunk_ids direct_comparator cached_comparator
  with_id_permutation_comparator callback =
      if should_cache_chunk_ids traits
      then callback CachedChunkId cached_comparator
      else callback NodeId direct_comparator
