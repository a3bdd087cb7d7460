-- ===== src/Grouping/Dense.antt =====
-- The dense histogram: `shouldUseDenseDepthGrouping`, `groupOrderByDepthDenseWithConsumer` and
-- `groupOrderByDepthDense`.
pub mod Sorts
use forest_sorting.Prelude.{
  ℕ, zero, suc, ◌+◌, ◌-◌, ◌^◌, Bool, true, false, ◌||◌, ◌==◌, leb, if◌then◌else◌, List, [], ◌∷◌,
  length, get_or, set, replicate, ◌≡◌,
}
use forest_sorting.Loops.{for_range, for_each}
use forest_sorting.Scatter.Increment.{increment}

abbrev pub max_dense_depth_buckets : ℕ
max_dense_depth_buckets = 2 ^ 20

unfoldable pub should_use_dense_depth_grouping : ℕ → ℕ → Bool
should_use_dense_depth_grouping node_count observed_max_depth =
    if node_count == 0 || leb node_count observed_max_depth
    then false
    else leb observed_max_depth (max_dense_depth_buckets - 2)

-- `DepthRange`
pub record DepthRange : Type 0 where
  pub depth : ℕ
  pub begin : ℕ
  pub end : ℕ

-- The permutation with the two histograms that the caller lends.
pub record DenseState : Type 0 where
  pub order : List ℕ
  pub scratch : List ℕ
  pub depth_starts : List ℕ
  pub depth_offsets : List ℕ

-- `for (nodeIndex : order) ++depthStarts[depths[nodeIndex] + 1];`
unfoldable pub count_depths : List ℕ → List ℕ → List ℕ → List ℕ
count_depths depths order starts =
    for_each (λ node_index. λ counts. increment counts (get_or depths node_index 0 + 1)) order
      starts

-- `depthStarts[depthIdx] += depthStarts[depthIdx - 1]`, from index 1 to the end.
unfoldable pub prefix_sums : List ℕ → List ℕ
prefix_sums starts =
    for_range (length starts - 1) 1
      (λ depth_idx. λ counts.
        set counts depth_idx (get_or counts depth_idx 0 + get_or counts (depth_idx - 1) 0))
      starts

-- The distribution: `scratch[depthOffsets[depth]] = nodeIndex; ++depthOffsets[depth];`
unfoldable pub distribute : List ℕ → List ℕ → List ℕ × List ℕ → List ℕ × List ℕ
distribute depths order s =
    for_each
      (λ node_index. λ (scratch, offsets).
        let depth_value = get_or depths node_index 0 in
        (set scratch (get_or offsets depth_value 0) node_index, increment offsets depth_value))
      order s

-- The last loop: the ranges that it hands to the consumer, from a depth on.
dense_ranges_from : List ℕ → ℕ → ℕ → List DepthRange
dense_ranges_from starts zero depth_idx = []
dense_ranges_from starts (suc rounds) depth_idx =
    let begin = get_or starts depth_idx 0 in
    let end = get_or starts (depth_idx + 1) 0 in
    let rest = dense_ranges_from starts rounds (depth_idx + 1) in
    if begin == end then rest else record { depth = depth_idx; begin = begin; end = end } ∷ rest

unfoldable pub dense_ranges : List ℕ → ℕ → List DepthRange
unfolding dense_ranges_from
dense_ranges starts observed_max_depth = dense_ranges_from starts (observed_max_depth + 1) 0

-- Returns the new state and the ranges in the order in which the consumer sees them.
unfoldable pub group_order_by_depth_dense_with_consumer :
    DenseState → List ℕ → ℕ → DenseState × List DepthRange
unfolding count_depths prefix_sums distribute dense_ranges increment
group_order_by_depth_dense_with_consumer s depths observed_max_depth =
    let starts = prefix_sums (count_depths depths s.order (replicate (observed_max_depth + 2) 0)) in
    let (scratch, offsets) = distribute depths s.order (s.scratch, starts) in
    (
      record { order = scratch; scratch = s.order; depth_starts = starts; depth_offsets = offsets },
      dense_ranges starts observed_max_depth,
    )
