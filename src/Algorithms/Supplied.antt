-- ===== src/Algorithms/Supplied.antt =====
-- The order with supplied depths: the switch over the width, the casts to it, and the grouping of the
-- permutation by identifier.
use forest_sorting.Prelude.{
  ℕ, ◌≡◌, refl, sym, ap, ◌∙◌, ◌⊎◌, inl, inr, List, [], arith, ◌==◌, if◌then◌else◌, length, ◌≤◌, All,
  ◌∷◌, zero, suc, All-of,
}
use forest_sorting.Errors.{Result, ok, throws, ◌>>=◌, Error}
use forest_sorting.Traits.{Traits}
use forest_sorting.Order.{
  sorted_order_by_depth_and_id_with_validated_depths, make_validated_global_id_permutation,
}
use forest_sorting.Depth.{
  depth_prefix_bytes_for_max, narrow_depths, max_depth_for_prefix, validate_precomputed_depth_input,
}
use forest_sorting.Algorithms.{sorted_order_by_depth_and_id_with_depths}
use forest_sorting.Depth.Supplied.{
  narrow_depths_exact, depth_limit, depth_prefix_bytes_for_max_lem, validated_bounds,
  cast_depth_exact,
}
use forest_sorting.Stable.{stable_sort}
use forest_sorting.Grouping.Dense.Sorts.{depth_of}
use forest_sorting.Order.Sorted.{stable_depth_group_trusted_id_permutation_lem}

Result-cases :
    {A : Type 0} (r : Result A)
    → ((error : Error) × (r ≡ throws error)) ⊎ ((value : A) × (r ≡ ok value))
Result-cases (throws error) = inl (error, refl)
Result-cases (ok value) = inr (value, refl)

width_cases :
    (m : ℕ) → let w = depth_prefix_bytes_for_max m in (w ≡ 1) ⊎ ((w ≡ 2) ⊎ ((w ≡ 3) ⊎ (w ≡ 4)))
unfolding depth_prefix_bytes_for_max max_depth_for_prefix
width_cases m = ground arith

module _ {Node NodeId : Type 0} (traits : Traits Node NodeId) (blank : Node) where
  -- The switch at a width and depths that the cast keeps.
  switch : (m w : ℕ) (nodes : List Node) (depths : List ℕ) → Result (List ℕ)
  switch m w nodes depths =
      let with_bytes = λ (depth_prefix_bytes : ℕ).
        sorted_order_by_depth_and_id_with_validated_depths traits blank depth_prefix_bytes nodes
          (narrow_depths depth_prefix_bytes depths) m in
      if w == 1
      then with_bytes 1
      else if w == 2
      then with_bytes 2
      else if w == 3
      then with_bytes 3
      else if w == 4
      then with_bytes 4
      else throws Error.invalid_prefix_width

  kept :
      (m w v : ℕ) (nodes : List Node) (depths : List ℕ)
      → w ≡ v
      → narrow_depths w depths ≡ depths
      → sorted_order_by_depth_and_id_with_validated_depths traits blank v nodes
          (narrow_depths v depths)
          m
        ≡ sorted_order_by_depth_and_id_with_validated_depths traits blank v nodes depths m
  kept m w v nodes depths e exact =
      ap (λ l. sorted_order_by_depth_and_id_with_validated_depths traits blank v nodes l m)
        (ap (λ z. narrow_depths z depths) (sym e) ∙ exact)

  switch_lem :
      (m w : ℕ) (nodes : List Node) (depths : List ℕ)
      → (w ≡ 1) ⊎ ((w ≡ 2) ⊎ ((w ≡ 3) ⊎ (w ≡ 4)))
      → narrow_depths w depths ≡ depths
      → switch m w nodes depths
        ≡ sorted_order_by_depth_and_id_with_validated_depths traits blank w nodes depths m
  unfolding switch
  switch_lem m w nodes depths (inl e) exact = rw e (kept m w 1 nodes depths e exact)
  switch_lem m w nodes depths (inr (inl e)) exact = rw e (kept m w 2 nodes depths e exact)
  switch_lem m w nodes depths (inr (inr (inl e))) exact = rw e (kept m w 3 nodes depths e exact)
  switch_lem m w nodes depths (inr (inr (inr e))) exact = rw e (kept m w 4 nodes depths e exact)

  -- The depth of any index, as far as a depth that is missing is read as nought.
  any_depth : (m : ℕ) (depths : List ℕ) (i : ℕ) → All (λ d. d ≤ m) depths → depth_of depths i ≤ m
  any_depth m [] i a = omega arith
  any_depth m (d ∷ depths) zero a = a.0
  any_depth m (d ∷ depths) (suc i) a = any_depth m depths i a.1

  with_validated_depths_lem :
      (m : ℕ) (nodes : List Node) (depths : List ℕ)
      → m ≤ depth_limit
      → All (λ d. d ≤ m) depths
      → sorted_order_by_depth_and_id_with_validated_depths traits blank
          (depth_prefix_bytes_for_max m)
          nodes
          depths
          m
        ≡ (make_validated_global_id_permutation traits blank nodes >>= λ id_permutation.
            ok (stable_sort (depth_of depths) id_permutation))
  unfolding sorted_order_by_depth_and_id_with_validated_depths
  with_validated_depths_lem m nodes depths limit below =
      elim (Result-cases (make_validated_global_id_permutation traits blank nodes)) [
        | inl (error, e) ↦ rw e refl
        | inr (id_permutation, e) ↦
            let (lo, hi, holds, least) = depth_prefix_bytes_for_max_lem m limit in
            rw e (
              stable_depth_group_trusted_id_permutation_lem (depth_prefix_bytes_for_max m) m
                id_permutation depths (cast_depth_exact m limit) holds
                (All-of (λ i. depth_of depths i ≤ m) id_permutation
                  (λ i. any_depth m depths i below)))
      ]

  -- On every input of `sortedOrderByDepthAndIdWithDepths` an exception of the validation comes first,
  -- then no nodes give the empty order, and else an exception of the sort by identifier is passed on or
  -- its permutation is returned sorted stably by the supplied depths, as they are before any cast.
  pub sorted_order_by_depth_and_id_with_depths_lem :
      (nodes : List Node) (depths : List ℕ)
      → sorted_order_by_depth_and_id_with_depths traits blank nodes depths ≡ (
          validate_precomputed_depth_input (length nodes) depths >>= λ m.
          (if length nodes == 0
            then ok []
            else (make_validated_global_id_permutation traits blank nodes >>= λ id_permutation.
                ok (stable_sort (depth_of depths) id_permutation))))
  unfolding sorted_order_by_depth_and_id_with_depths switch
  sorted_order_by_depth_and_id_with_depths_lem nodes depths =
      elim (Result-cases (validate_precomputed_depth_input (length nodes) depths)) [
        | inl (error, e) ↦ rw e refl
        | inr (m, e) ↦
            let (limit, below) = validated_bounds (length nodes) depths m e in
            rw e (
              ap (λ r. if length nodes == 0 then ok [] else r)
                (switch_lem m (depth_prefix_bytes_for_max m) nodes depths (width_cases m)
                    (narrow_depths_exact (length nodes) depths m e).0
                  ∙ with_validated_depths_lem m nodes depths limit below))
      ]
