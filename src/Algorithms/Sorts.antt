-- ===== src/Algorithms/Sorts.antt =====
-- The order with supplied depths, from the identifiers to the
-- grouping by depth.
use forest_sorting.Prelude.{
  ℕ, ◌+◌, ◌*◌, ◌^◌, ◌≤◌, ◌≡◌, refl, ap, ◌∙◌, ◌⊎◌, inl, inr, List, [], arith, length, iota, All,
  ◌==◌, if◌then◌else◌, Bool-cases, ==→≡, ≢→==, false, length-iota,
}
use forest_sorting.Errors.{ok, throws, Error}
use forest_sorting.Traits.{Traits}
use forest_sorting.Algorithms.{sorted_order_by_depth_and_id_with_depths}
use forest_sorting.Algorithms.Supplied.{sorted_order_by_depth_and_id_with_depths_lem}
use forest_sorting.Depth.Supplied.{depth_limit, validate_branches}
use forest_sorting.Grouping.Dense.Sorts.{depth_of}
use forest_sorting.Ids.Chunks.Value.{IsLawful, id_value-lt, pow_pos}
use forest_sorting.Order.Duplicates.{length-having}
use forest_sorting.Order.Ids.{node_id_value, indices, make_validated_global_id_permutation-sorts}
use forest_sorting.Stable.{having, stable_sort, stable_sort-IsStableSort}
use forest_sorting.Stable.Unique.{IsStableSort-eq}
use forest_sorting.Stable.Compose.{minor_major-IsStableSort}

module _ {Node NodeId : Type 0} (traits : Traits Node NodeId) (blank : Node) (nodes : List Node)
    (depths : List ℕ) where
  -- The number by which a node is ordered: its depth first, its identifier second.
  abbrev pub depth_and_id : ℕ → ℕ
  depth_and_id i =
      depth_of depths i * 256 ^ traits.ids.id_byte_count + node_id_value traits blank nodes i

module _ {Node NodeId : Type 0} (traits : Traits Node NodeId) (blank : Node)
    (lawful : IsLawful traits.ids) (nodes : List Node) (depths : List ℕ) where
  abbrev number : ℕ → ℕ
  number = depth_and_id traits blank nodes depths

  grouped :
      stable_sort
        (depth_of depths)
        (stable_sort (node_id_value traits blank nodes) (indices traits blank nodes))
      ≡ stable_sort number (indices traits blank nodes)
  grouped =
      let id_number = node_id_value traits blank nodes in
      let order = indices traits blank nodes in
      IsStableSort-eq number order (stable_sort (depth_of depths) (stable_sort id_number order)) (
        minor_major-IsStableSort (depth_of depths) id_number number (256 ^ traits.ids.id_byte_count)
          (pow_pos 256 traits.ids.id_byte_count (omega arith))
          (λ i. id_value-lt traits.ids lawful _) (λ i. refl) order (stable_sort id_number order)
          (stable_sort (depth_of depths) (stable_sort id_number order))
          (stable_sort-IsStableSort id_number order)
          (stable_sort-IsStableSort (depth_of depths) (stable_sort id_number order)))

  -- Without nodes the sorted indices are the empty order.
  empty_or_sorted :
      (order : List ℕ)
      → order ≡ stable_sort number (iota 0 (length nodes))
      → (if length nodes == 0 then ok [] else ok order)
        ≡ ok (stable_sort number (iota 0 (length nodes)))
  unfolding stable_sort
  empty_or_sorted order e = elim (Bool-cases (length nodes == 0)) [
    | inl none_left ↦ rw (none_left, ==→≡ (length nodes) 0 none_left) refl
    | inr some_left ↦ rw some_left (ap ok e)
  ]

  -- For lawful traits and as many depths of 32 bits as nodes, `sortedOrderByDepthAndIdWithDepths`
  -- returns the indices of the nodes sorted by depth first and identifier second when no identifier
  -- stands twice, and else throws that a node identifier is a duplicate.
  pub sorted_order_by_depth_and_id_with_depths-sorts :
      length depths ≡ length nodes
      → All (λ d. d ≤ depth_limit) depths
      → ((sorted_order_by_depth_and_id_with_depths traits blank nodes depths
            ≡ ok (stable_sort (depth_and_id traits blank nodes depths) (iota 0 (length nodes))))
          × ((k : ℕ)
              → length (having (node_id_value traits blank nodes) k (iota 0 (length nodes))) ≤ 1))
        ⊎ ((sorted_order_by_depth_and_id_with_depths traits blank nodes depths
              ≡ throws Error.duplicate_node_id)
            × ((k : ℕ) × (2
                  ≤ length (having (node_id_value traits blank nodes) k (iota 0 (length nodes))))))
  sorted_order_by_depth_and_id_with_depths-sorts count fit =
      let valid = (validate_branches (length nodes) depths).1 count fit in
      let whole = sorted_order_by_depth_and_id_with_depths_lem traits blank nodes depths in
      elim (make_validated_global_id_permutation-sorts traits blank nodes lawful) [
        | inl (sorted, single) ↦ inl (
          whole
              ∙ rw (valid, sorted)
                  (empty_or_sorted
                    (stable_sort (depth_of depths)
                      (stable_sort (node_id_value traits blank nodes) (indices traits blank nodes)))
                    grouped),
          single,
        )
        | inr (bad, (k, twice)) ↦
            let some_node : (length nodes == 0) ≡ false = ≢→== (length nodes) 0 (λ e. omega (
              arith,
              e,
              twice,
              length-iota 0 (length nodes),
              length-having (node_id_value traits blank nodes) k (indices traits blank nodes),
            )) in
            inr (whole ∙ rw (valid, some_node, bad) refl, (k, twice))
      ]
