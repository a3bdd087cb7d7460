-- ===== src/Tests.antt =====
-- Runs of the model at concrete inputs, and each theorem with hypotheses applied at one.
use forest_sorting.Prelude.{
  ℕ, zero, suc, ◌+◌, ◌-◌, ◌/◌, ◌%◌, ◌^◌, ◌≤◌, ◌<◌, ◌≡◌, refl, sym, ap, ap₂, ◌∙◌, ◌⊎◌, Bool, false,
  none, some, List, [], ◌∷◌, arith, ltb, ◌==◌, if◌then◌else◌, length, All, get_or, true, inl, inr,
  set, replicate, ◌++◌,
}
use forest_sorting.Traits.{IdTraits, no_parent}
use forest_sorting.Ids.Chunks.{chunk_msb_first, id_chunk_count, fill_cached_chunk_id}
use forest_sorting.Errors.{ok, throws, Error}
use forest_sorting.Depth.Compute.{ComputedDepths, compute_depths}
use forest_sorting.Rearrange.{rearrange_in_place, copy_in_order, follow_cycle}
use forest_sorting.Rearrange.InPlace.{IsOrder, rearrange_in_place_lem}
use forest_sorting.Depth.Compute.Total.{IsForest, compute_depths_total}
use forest_sorting.Depth.{
  validate_precomputed_depth_input, narrow_depths, depth_prefix_bytes_for_max, max_depth_for_prefix,
}
use forest_sorting.Ids.Chunks.Value.{IsLawful, id_value, digits_value, byte_of, chunk_msb_first_lem}
use forest_sorting.Ids.Compare.{
  compare_node_ids, id_less, id_equal, Sign, should_cache_chunk_ids, compare_cached_id_chunks,
}
use forest_sorting.Grouping.Dense.{group_order_by_depth_dense_with_consumer, DenseState}
use forest_sorting.Depth.Compute.Sound.{AreDepths, compute_depths_sound}
use forest_sorting.Ids.Compare.Order.{sign_of, comparisons_agree}
use forest_sorting.Loops.{for_each, for_range}
use forest_sorting.Stable.{stable_sort}
use forest_sorting.Grouping.Dense.Sorts.{depth_of, dense-stable_sort}
use forest_sorting.Depth.Supplied.{
  narrow_depths_exact, all_fit, maximum, depth_prefix_bytes_for_max_lem,
  validate_precomputed_depth_input_lem,
}
use forest_sorting.Depth.Compute.Spec.{HasDepth}
use forest_sorting.Depth.Verify.Spec.{AreOrdered, IsSortedForest}
use forest_sorting.Depth.Verify.{verify_with_parent_index}
use forest_sorting.Depth.Verify.Sound.{verify_with_parent_index_sound}
use forest_sorting.Depth.Verify.Complete.{verify_with_parent_index_complete}
use forest_sorting.Parents.{merge_join_sorted_permutations}
use forest_sorting.Parents.Join.{join_by_lookup, merge_join_sorted_permutations_lem}
use forest_sorting.Ids.SmallSort.{stable_sort_index_range_small_linear, shift_back}
use forest_sorting.Ids.SmallSort.Direct.{key_of, stable_sort_index_range_small_linear_direct}
use forest_sorting.Ids.SmallSort.Caching.{stable_sort_index_range_small_linear_cached}
use forest_sorting.Ids.Compare.Cached.{compare_cached_id_chunks_lem}

abbrev chain : List ℕ
chain = 1 ∷ (2 ∷ (0 ∷ (no_parent ∷ [])))

abbrev third_is_root : ℕ → Bool
third_is_root i = i == 2

abbrev chain_depths : ComputedDepths
chain_depths = record { values = 2 ∷ (1 ∷ (0 ∷ (0 ∷ []))); observed_max = 2 }

-- Node 2 names node 0 as its parent, and is a root by its sentinel.
chain_test : compute_depths 4 4 third_is_root chain ≡ ok chain_depths
unfolding compute_depths forest_sorting.Depth.depth_value_bits
chain_test = refl

cycle_test : compute_depths 4 3 (λ i. false) (1 ∷ (2 ∷ (0 ∷ []))) ≡ throws Error.parent_cycle
unfolding compute_depths forest_sorting.Depth.depth_value_bits
cycle_test = refl

compute_depths_sound_example : AreDepths 4 4 third_is_root chain chain_depths
compute_depths_sound_example = compute_depths_sound 4 4 third_is_root chain chain_depths chain_test

depth_of_1 : HasDepth 4 third_is_root chain 1 1
depth_of_1 = HasDepth.child 1 0 refl (omega arith) (HasDepth.root 2 refl)

chain-IsForest : IsForest 4 4 third_is_root chain
unfolding forest_sorting.Depth.max_depth_for_prefix
chain-IsForest zero h = (2, HasDepth.child 0 1 refl (omega arith) depth_of_1, omega arith)
chain-IsForest (suc zero) h = (1, depth_of_1, omega arith)
chain-IsForest (suc (suc zero)) h = (0, HasDepth.root 2 refl, omega arith)
chain-IsForest (suc (suc (suc zero))) h = (0, HasDepth.root 3 refl, omega arith)
chain-IsForest (suc (suc (suc (suc i)))) h = absurd (omega arith)

compute_depths_total_example :
    (r : ComputedDepths) × (compute_depths 4 4 third_is_root chain ≡ ok r)
compute_depths_total_example = compute_depths_total 4 4 third_is_root chain refl chain-IsForest

abbrev dense_start : DenseState
dense_start = record {
  order = 3 ∷ (1 ∷ (2 ∷ (0 ∷ [])));
  scratch = 0 ∷ (0 ∷ (0 ∷ (0 ∷ [])));
  depth_starts = [];
  depth_offsets = [];
}

abbrev dense_depths : List ℕ
dense_depths = 1 ∷ (0 ∷ (2 ∷ (1 ∷ [])))

dense_test :
    (group_order_by_depth_dense_with_consumer dense_start dense_depths 2).0.order
    ≡ 1 ∷ (3 ∷ (0 ∷ (2 ∷ [])))
unfolding group_order_by_depth_dense_with_consumer for_each for_range
dense_test = refl

dense-stable_sort_example :
    (group_order_by_depth_dense_with_consumer dense_start dense_depths 2).0.order
    ≡ stable_sort (depth_of dense_depths) dense_start.order
dense-stable_sort_example =
    dense-stable_sort dense_start dense_depths 2 refl
      (omega arith, (omega arith, (omega arith, (omega arith, tt))))

abbrev blank_node : ℕ
blank_node = 0

abbrev rotation : List ℕ
rotation = 2 ∷ (0 ∷ (1 ∷ []))

rotation-IsOrder : IsOrder 3 rotation
rotation-IsOrder = record {
  count = refl;
  in_range = λ j h. ground arith;
  injective = λ i j p q e. ground arith;
  place = λ i. ((i + 1) % 3);
  place_in_range = λ i h. ground arith;
  at_place = λ i h. ground arith;
}

rearrange_in_place_lem_example :
    rearrange_in_place blank_node (10 ∷ (11 ∷ (12 ∷ []))) rotation
    ≡ ok (copy_in_order blank_node (10 ∷ (11 ∷ (12 ∷ []))) rotation)
rearrange_in_place_lem_example =
    rearrange_in_place_lem blank_node (10 ∷ (11 ∷ (12 ∷ []))) rotation rotation-IsOrder

rearrange_test :
    rearrange_in_place blank_node (10 ∷ (11 ∷ (12 ∷ []))) rotation ≡ ok (12 ∷ (10 ∷ (11 ∷ [])))
unfolding rearrange_in_place for_range follow_cycle
rearrange_test = refl

-- Identifiers of two bytes, with an `equal` hook and no other.
abbrev word_equal : ℕ → ℕ → Bool
word_equal x y = x % 65536 == y % 65536

abbrev word_traits : IdTraits ℕ
word_traits = record {
  id_byte_count = 2;
  byte_msb_first = λ x i. if i == 0 then x / 256 % 256 else x % 256;
  less = none;
  equal = some word_equal;
  is_parent_sentinel = none;
  chunk_msb_first = λ w. none;
}

word_value : (x : ℕ) → id_value word_traits x ≡ x % 65536
unfolding id_value
word_value x = omega arith

word-IsLawful : IsLawful word_traits
word-IsLawful = record {
  has_bytes = omega arith;
  byte_small = λ x i h. ground arith;
  less_law = λ hook e x y. cc;
  equal_law = λ hook e x y.
      let same : word_equal ≡ hook = cc in
      ap (λ k. k x y) (sym same) ∙ ap₂ ◌==◌ (sym (word_value x)) (sym (word_value y));
  chunk_law = λ w hook e x c h. cc;
}

comparisons_agree_example :
    (compare_node_ids word_traits 3 515
      ≡ sign_of (id_value word_traits 3) (id_value word_traits 515))
    × (id_less word_traits 3 515 ≡ ltb (id_value word_traits 3) (id_value word_traits 515))
    × (id_equal word_traits 3 515 ≡ (id_value word_traits 3 == id_value word_traits 515))
comparisons_agree_example = comparisons_agree word_traits word-IsLawful 3 515

one_chunk : 0 < id_chunk_count 8 2
unfolding id_chunk_count
one_chunk = omega arith

chunk_msb_first_lem_example :
    chunk_msb_first 8 word_traits 515 0
    ≡ digits_value 256 (byte_of word_traits word-IsLawful 515) 0 8
chunk_msb_first_lem_example =
    chunk_msb_first_lem word_traits word-IsLawful 8 515 0 (omega arith) one_chunk

narrow_test : validate_precomputed_depth_input 2 (300 ∷ (7 ∷ [])) ≡ ok 300
unfolding validate_precomputed_depth_input
narrow_test = refl

narrow_depths_exact_example :
    (narrow_depths (depth_prefix_bytes_for_max 300) (300 ∷ (7 ∷ [])) ≡ 300 ∷ (7 ∷ []))
    × All (λ d. d ≤ 300) (300 ∷ (7 ∷ []))
narrow_depths_exact_example = narrow_depths_exact 2 (300 ∷ (7 ∷ [])) 300 narrow_test

width_test : depth_prefix_bytes_for_max 65536 ≡ 3
unfolding depth_prefix_bytes_for_max
width_test = refl

depth_prefix_bytes_for_max_lem_example :
    let w = depth_prefix_bytes_for_max 65536 in
    (1 ≤ w) × (w ≤ 4) × (65536 < 256 ^ w) × ((w ≡ 1) ⊎ (256 ^ (w - 1) ≤ 65536))
depth_prefix_bytes_for_max_lem_example = depth_prefix_bytes_for_max_lem 65536 (omega arith)

validate_precomputed_depth_input_lem_example :
    validate_precomputed_depth_input 2 (300 ∷ (2 ^ 32 ∷ [])) ≡ (
      if length (300 ∷ (2 ^ 32 ∷ [])) == 2
      then (if all_fit (300 ∷ (2 ^ 32 ∷ []))
          then ok (maximum (300 ∷ (2 ^ 32 ∷ [])) 0)
          else throws Error.depth_limit)
      else throws Error.depth_count_mismatch)
validate_precomputed_depth_input_lem_example =
    validate_precomputed_depth_input_lem 2 (300 ∷ (2 ^ 32 ∷ []))

limit_test : validate_precomputed_depth_input 2 (300 ∷ (2 ^ 32 ∷ [])) ≡ throws Error.depth_limit
unfolding validate_precomputed_depth_input
limit_test = refl

-- A root with two children, in the order of their identifiers.
abbrev family : List ℕ
family = no_parent ∷ (0 ∷ (0 ∷ []))

abbrev family_id : ℕ → ℕ
family_id i = 10 + i

family_test : verify_with_parent_index 4 ltb family_id (λ i. false) family 3 ≡ true
unfolding verify_with_parent_index forest_sorting.Depth.depth_value_bits
family_test = refl

child_first_test :
    verify_with_parent_index 4 ltb family_id (λ i. false) (1 ∷ (no_parent ∷ [])) 2 ≡ false
unfolding verify_with_parent_index forest_sorting.Depth.depth_value_bits
child_first_test = refl

verify_with_parent_index_sound_example :
    (depths : List ℕ) × (length depths ≡ 3)
    × IsSortedForest 4 3 ltb family_id (λ i. false) family depths
verify_with_parent_index_sound_example =
    verify_with_parent_index_sound 4 3 ltb family_id (λ i. false) family family_test

family_child : (i : ℕ) → 0 < i → i < 3 → HasDepth 3 (λ i. false) family i 1
family_child zero p h = absurd (omega arith)
family_child (suc zero) p h = HasDepth.child 1 0 refl (omega arith) (HasDepth.root 0 refl)
family_child (suc (suc zero)) p h = HasDepth.child 2 0 refl (omega arith) (HasDepth.root 0 refl)
family_child (suc (suc (suc i))) p h = absurd (omega arith)

family_right : (i : ℕ) → i < 3 → HasDepth 3 (λ i. false) family i (get_or (0 ∷ (1 ∷ (1 ∷ []))) i 0)
family_right zero h = HasDepth.root 0 refl
family_right (suc zero) h = family_child 1 (omega arith) h
family_right (suc (suc zero)) h = family_child 2 (omega arith) h
family_right (suc (suc (suc i))) h = absurd (omega arith)

family_fits : (i : ℕ) → i < 3 → get_or (0 ∷ (1 ∷ (1 ∷ []))) i 0 ≤ max_depth_for_prefix 4
unfolding max_depth_for_prefix
family_fits zero h = omega arith
family_fits (suc zero) h = omega arith
family_fits (suc (suc zero)) h = omega arith
family_fits (suc (suc (suc i))) h = omega arith

family_ordered : (j : ℕ) → suc j < 3 → AreOrdered ltb family_id (0 ∷ (1 ∷ (1 ∷ []))) j
family_ordered zero h = inl (omega arith)
family_ordered (suc zero) h = inr (refl, refl)
family_ordered (suc (suc j)) h = absurd (omega arith)

verify_with_parent_index_complete_example :
    verify_with_parent_index 4 ltb family_id (λ i. false) family 3 ≡ true
verify_with_parent_index_complete_example =
    verify_with_parent_index_complete 4 3 ltb family_id (λ i. false) family (0 ∷ (1 ∷ (1 ∷ [])))
      (record { right = family_right; fits = family_fits; ordered = family_ordered })

-- Three nodes with the keys 20, 10 and 30, and queries for 30, 15 and 20.
abbrev node_key : ℕ → ℕ
node_key i = get_or (20 ∷ (10 ∷ (30 ∷ []))) i 0

abbrev wanted_key : ℕ → ℕ
wanted_key q = get_or (30 ∷ (15 ∷ (20 ∷ []))) q 0

abbrev compare_keys : ℕ → ℕ → Sign
compare_keys i q = sign_of (node_key i) (wanted_key q)

abbrev keys_equal : ℕ → ℕ → Bool
keys_equal i q = node_key i == wanted_key q

abbrev note_parent : ℕ → ℕ → List ℕ → List ℕ
note_parent q i parents = set parents q i

merge_join_test :
    merge_join_sorted_permutations compare_keys keys_equal note_parent
      (1 ∷ (0 ∷ (2 ∷ [])))
      (1 ∷ (2 ∷ (0 ∷ [])))
      (replicate 3 no_parent)
    ≡ 2 ∷ (no_parent ∷ (0 ∷ []))
unfolding merge_join_sorted_permutations
merge_join_test = refl

merge_join_sorted_permutations_lem_example :
    merge_join_sorted_permutations compare_keys keys_equal note_parent
      (1 ∷ (0 ∷ (2 ∷ [])))
      (1 ∷ (2 ∷ (0 ∷ [])))
      (replicate 3 no_parent)
    ≡ join_by_lookup note_parent node_key wanted_key
        (1 ∷ (0 ∷ (2 ∷ [])))
        (1 ∷ (2 ∷ (0 ∷ [])))
        (replicate 3 no_parent)
merge_join_sorted_permutations_lem_example =
    merge_join_sorted_permutations_lem compare_keys keys_equal note_parent node_key wanted_key
      (λ i q. refl) (λ i q. refl) (1 ∷ (0 ∷ (2 ∷ []))) (1 ∷ (2 ∷ (0 ∷ []))) (replicate 3 no_parent)
      ((omega arith, (omega arith, tt)), ((omega arith, tt), (tt, tt)))
      ((omega arith, (omega arith, tt)), ((omega arith, tt), (tt, tt)))

abbrev word_at : ℕ → ℕ
word_at i = get_or (500 ∷ (3 ∷ (500 ∷ (2 ∷ [])))) i 0

no_cache : should_cache_chunk_ids word_traits ≡ false
unfolding should_cache_chunk_ids
no_cache = refl

-- The range is 2, 3, 1, 0 in a vector with one entry on each side.
stable_sort_index_range_small_linear_direct_example :
    stable_sort_index_range_small_linear 32
      ((9 ∷ []) ++ ((2 ∷ (3 ∷ (1 ∷ (0 ∷ [])))) ++ (9 ∷ [])))
      word_at
      word_traits
      1
      5
    ≡ ok (
        (9 ∷ [])
        ++ (stable_sort (key_of word_at word_traits word-IsLawful) (2 ∷ (3 ∷ (1 ∷ (0 ∷ []))))
            ++ (9 ∷ [])))
stable_sort_index_range_small_linear_direct_example =
    stable_sort_index_range_small_linear_direct word_at word_traits word-IsLawful 32 (9 ∷ [])
      (2 ∷ (3 ∷ (1 ∷ (0 ∷ [])))) (9 ∷ []) no_cache

small_sort_test :
    stable_sort_index_range_small_linear 32
      (9 ∷ (2 ∷ (3 ∷ (1 ∷ (0 ∷ (9 ∷ []))))))
      word_at
      word_traits
      1
      5
    ≡ ok (9 ∷ (3 ∷ (1 ∷ (2 ∷ (0 ∷ (9 ∷ []))))))
unfolding stable_sort_index_range_small_linear for_range shift_back
small_sort_test = refl

-- Identifiers of sixteen bytes, without hooks.
abbrev wide_traits : IdTraits ℕ
wide_traits = record {
  id_byte_count = 16;
  byte_msb_first = λ x i. if i == 15 then x % 256 else 0;
  less = none;
  equal = none;
  is_parent_sentinel = none;
  chunk_msb_first = λ w. none;
}

wide-IsLawful : IsLawful wide_traits
wide-IsLawful = record {
  has_bytes = omega arith;
  byte_small = λ x i h. ground arith;
  less_law = λ hook e x y. cc;
  equal_law = λ hook e x y. cc;
  chunk_law = λ w hook e x c h. cc;
}

wide_cached : should_cache_chunk_ids wide_traits ≡ true
unfolding should_cache_chunk_ids
wide_cached = refl

stable_sort_index_range_small_linear_cached_example :
    stable_sort_index_range_small_linear 32
      ((9 ∷ []) ++ ((2 ∷ (3 ∷ (1 ∷ (0 ∷ [])))) ++ (9 ∷ [])))
      word_at
      wide_traits
      1
      5
    ≡ ok (
        (9 ∷ [])
        ++ (stable_sort (λ i. id_value wide_traits (word_at i)) (2 ∷ (3 ∷ (1 ∷ (0 ∷ []))))
            ++ (9 ∷ [])))
stable_sort_index_range_small_linear_cached_example =
    stable_sort_index_range_small_linear_cached word_at wide_traits wide-IsLawful 32 (9 ∷ [])
      (2 ∷ (3 ∷ (1 ∷ (0 ∷ [])))) (9 ∷ []) wide_cached (omega arith) (omega arith)

compare_cached_id_chunks_lem_example :
    compare_cached_id_chunks 2
      (fill_cached_chunk_id 2 wide_traits 7)
      (fill_cached_chunk_id 2 wide_traits 5)
    ≡ sign_of (id_value wide_traits 7) (id_value wide_traits 5)
unfolding forest_sorting.Ids.Chunks.id_chunk_count
compare_cached_id_chunks_lem_example = compare_cached_id_chunks_lem wide_traits wide-IsLawful 7 5
