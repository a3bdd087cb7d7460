-- ===== src/Order/Sorted.antt =====
-- A permutation sorted by identifier, grouped by depth, is sorted by depth and then identifier.
use forest_sorting.Prelude.{
  ℕ, ◌+◌, ◌*◌, ◌^◌, ◌≤◌, ◌<◌, ◌≡◌, refl, sym, ap, ◌∙◌, inl, inr, List, arith, leb, Bool-cases,
  leb→le, length, replicate, All, length-replicate,
}
use forest_sorting.Errors.{ok}
use forest_sorting.Order.{stable_depth_group_trusted_id_permutation}
use forest_sorting.Depth.{cast_depth}
use forest_sorting.Grouping.Dense.Sorts.{depth_of}
use forest_sorting.Stable.{stable_sort, All-stable_sort, stable_sort-IsStableSort}
use forest_sorting.Stable.Unique.{short_sorted, IsStableSort-eq}
use forest_sorting.Grouping.Msd.Sorts.{stable_group_order_by_depth-stable_sort}
use forest_sorting.Radix.Partition.{full_clear_counts}
use forest_sorting.Radix.Partition.Ranges.{full_clear-LawfulTraits}
use forest_sorting.Stable.Compose.{minor_major-IsStableSort}

-- Any permutation is grouped stably by the depths up to the observed maximum.
pub stable_depth_group_trusted_id_permutation_lem :
    (depth_prefix_bytes observed_max_depth : ℕ) (order depths : List ℕ)
    → cast_depth depth_prefix_bytes observed_max_depth ≡ observed_max_depth
    → observed_max_depth < 256 ^ depth_prefix_bytes
    → All (λ i. depth_of depths i ≤ observed_max_depth) order
    → stable_depth_group_trusted_id_permutation depth_prefix_bytes order depths observed_max_depth
      ≡ ok (stable_sort (depth_of depths) order)
unfolding stable_depth_group_trusted_id_permutation
stable_depth_group_trusted_id_permutation_lem depth_prefix_bytes observed_max_depth order depths
      exact fits small =
    elim (Bool-cases (leb (length order) 1)) [
      | inl e ↦
          rw e (ap ok (sym (short_sorted (depth_of depths) order (leb→le (length order) 1 e))))
      | inr e ↦
          let grouped =
            stable_group_order_by_depth-stable_sort full_clear_counts full_clear-LawfulTraits depths
              depth_prefix_bytes observed_max_depth order (replicate (length order) 0)
              (length-replicate {A = ℕ} (length order) 0) small fits in
          rw (e, exact, grouped) refl
    ]

-- For a permutation that is sorted stably by an identifier number below `M`, and depths up to the
-- observed maximum, which the prefix and its depth type hold, the grouping returns the stable sort by
-- the depth first and the identifier second.
pub stable_depth_group_trusted_id_permutation-sorts :
    (depth_prefix_bytes observed_max_depth M : ℕ) (id_number : ℕ → ℕ) (nodes depths : List ℕ)
    → ((x : ℕ) → id_number x < M)
    → cast_depth depth_prefix_bytes observed_max_depth ≡ observed_max_depth
    → observed_max_depth < 256 ^ depth_prefix_bytes
    → All (λ i. depth_of depths i ≤ observed_max_depth) nodes
    → stable_depth_group_trusted_id_permutation depth_prefix_bytes
        (stable_sort id_number nodes)
        depths
        observed_max_depth
      ≡ ok (stable_sort (λ i. depth_of depths i * M + id_number i) nodes)
stable_depth_group_trusted_id_permutation-sorts depth_prefix_bytes observed_max_depth M id_number
      nodes depths bound exact fits small =
    let order = stable_sort id_number nodes in
    let both : ℕ → ℕ = λ i. depth_of depths i * M + id_number i in
    let pos : 0 < M = omega (arith, bound 0) in
    stable_depth_group_trusted_id_permutation_lem depth_prefix_bytes observed_max_depth order depths
      exact fits
      (All-stable_sort id_number (λ i. depth_of depths i ≤ observed_max_depth) nodes small)
    ∙ ap ok (
        IsStableSort-eq both nodes (stable_sort (depth_of depths) order) (
          minor_major-IsStableSort (depth_of depths) id_number both M pos bound (λ x. refl) nodes
            order (stable_sort (depth_of depths) order) (stable_sort-IsStableSort id_number nodes)
            (stable_sort-IsStableSort (depth_of depths) order)))
