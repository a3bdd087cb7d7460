-- ===== src/Radix/Tests.antt =====
-- The partition and the grouping by depth at concrete inputs.
use forest_sorting.Errors.{ok}
use forest_sorting.Radix.Counts.Full.{full_clear-CounterLaws, new_full_clear-IsClean}
use forest_sorting.Prelude.{
  ℕ, ◌+◌, ◌-◌, ◌%◌, ◌<◌, ◌≡◌, refl, some, List, [], ◌∷◌, ◌++◌, arith, length, ◌*◌, map, replicate,
  ◌↔◌, All,
}
use forest_sorting.Stable.{stable_sort}
use forest_sorting.Grouping.Msd.{
  stable_group_order_by_depth, group_order_by_depth_msd_with_consumer,
}
use forest_sorting.Radix.Partition.Ranges.{
  LawfulTraits, bitmask_touched-LawfulTraits, radix_msd_partition_ranges-sorts,
  full_clear-LawfulTraits,
}
use forest_sorting.Radix.Partition.{
  MsdStore, full_clear_counts, radix_msd_partition_ranges, bitmask_touched_counts_up_to,
}
use forest_sorting.Grouping.Dense.Sorts.{depth_of}
use forest_sorting.Grouping.Msd.Sorts.{
  group_order_by_depth_msd-stable_sort, stable_group_order_by_depth-stable_sort,
}
use forest_sorting.Radix.Partition.Buckets.{suffix_value}
use forest_sorting.Depth.{cast_depth}
use forest_sorting.Ids.MsdChunks.{
  IdMsdChunkEntry, stable_lsd_sort_pre_filled, blank_entry, fill_entries,
}
use forest_sorting.Order.{stable_depth_group_trusted_id_permutation}
use forest_sorting.Radix.Counts.{FullClearCountScratch, full_clear_counter, new_full_clear_scratch}
use forest_sorting.Order.Sorted.{stable_depth_group_trusted_id_permutation-sorts}
use forest_sorting.Ids.MsdChunks.Lsd.{load, stable_lsd_sort_pre_filled-sorts}
use forest_sorting.Ids.MsdChunks.Fill.{fill_entries_lem}

-- The nodes 0, 1, 2 and 3.
abbrev tall_depths : List ℕ
tall_depths = 300 ∷ 5 ∷ 300 ∷ 261 ∷ []

abbrev front : List ℕ
front = 9 ∷ []

abbrev middle : List ℕ
middle = 7 ∷ 5 ∷ 6 ∷ []

abbrev four_nodes : List ℕ
four_nodes = 0 ∷ 1 ∷ 2 ∷ 3 ∷ []

abbrev blank_scratch : List ℕ
blank_scratch = 0 ∷ 0 ∷ 0 ∷ 0 ∷ []

bitmask_touched-LawfulTraits_example : LawfulTraits (bitmask_touched_counts_up_to 512)
bitmask_touched-LawfulTraits_example = bitmask_touched-LawfulTraits 512

abbrev low_digit : ℕ → ℕ → ℕ
low_digit x j = x % 256

low_digit-lt : (x j : ℕ) → low_digit x j < 256
low_digit-lt x j = omega arith

abbrev count_ranges : ℕ → ℕ → List ℕ → ℕ → ℕ
count_ranges begin end order ranges = ranges + 1

radix_msd_partition_ranges-sorts_example :
    (result : MsdStore ℕ) × (radix_msd_partition_ranges low_digit count_ranges
        (bitmask_touched_counts_up_to 512)
        (length front)
        (length front + length middle)
        0
        1
        (record { order = 9 ∷ 7 ∷ 5 ∷ 6 ∷ 1 ∷ []; scratch = 0 ∷ 0 ∷ 0 ∷ 0 ∷ 0 ∷ []; consumer = 0 })
      ≡ some result)
    × (result.order ≡ front ++ (stable_sort (suffix_value low_digit 0 (1 - 0)) middle ++ (1 ∷ [])))
radix_msd_partition_ranges-sorts_example =
    radix_msd_partition_ranges-sorts (bitmask_touched_counts_up_to 512)
      (bitmask_touched-LawfulTraits 512) low_digit count_ranges 0 1 front middle (1 ∷ [])
      (record { order = 9 ∷ 7 ∷ 5 ∷ 6 ∷ 1 ∷ []; scratch = 0 ∷ 0 ∷ 0 ∷ 0 ∷ 0 ∷ []; consumer = 0 })
      low_digit-lt (omega arith) refl refl

group_order_by_depth_msd-stable_sort_example :
    (result : MsdStore ℕ) × (group_order_by_depth_msd_with_consumer 2 full_clear_counts
        (record { order = four_nodes; scratch = blank_scratch; consumer = 0 })
        tall_depths
        (λ depth begin end ranges. ranges + 1)
      ≡ some result)
    × (result.order ≡ stable_sort (depth_of tall_depths) four_nodes)
group_order_by_depth_msd-stable_sort_example =
    group_order_by_depth_msd-stable_sort full_clear_counts full_clear-LawfulTraits tall_depths 2
      (λ depth begin end ranges. ranges + 1)
      (record { order = four_nodes; scratch = blank_scratch; consumer = 0 }) refl
      (omega arith, (omega arith, (omega arith, (omega arith, tt))))

stable_group_order_by_depth-stable_sort_example :
    stable_group_order_by_depth 2 full_clear_counts four_nodes blank_scratch tall_depths 300
    ≡ some (stable_sort (depth_of tall_depths) four_nodes)
stable_group_order_by_depth-stable_sort_example =
    stable_group_order_by_depth-stable_sort full_clear_counts full_clear-LawfulTraits tall_depths 2
      300 four_nodes blank_scratch refl
      (omega arith, (omega arith, (omega arith, (omega arith, tt)))) (omega arith)

-- The reference sort at the same input.
tall_depths_sorted : stable_sort (depth_of tall_depths) four_nodes ≡ 1 ∷ 3 ∷ 0 ∷ 2 ∷ []
unfolding stable_sort forest_sorting.Stable.insert
tall_depths_sorted = refl

abbrev low_key : ℕ → ℕ
low_key i = i % 256

stable_lsd_sort_pre_filled-sorts_example :
    (tail : List IdMsdChunkEntry) × (destination : List IdMsdChunkEntry)
    × (after : FullClearCountScratch) × full_clear-CounterLaws.IsClean after
    × (stable_lsd_sort_pre_filled 1 full_clear_counter
          (front ++ (middle ++ (1 ∷ [])))
          (length front)
          (length front + length middle)
          (record {
            source = map (load low_key) middle ++ [];
            destination = replicate 3 blank_entry ++ [];
            count_scratch = new_full_clear_scratch;
          })
        ≡ (
          front ++ (stable_sort low_key middle ++ (1 ∷ [])),
          record {
            source = map (load low_key) (stable_sort low_key middle) ++ tail;
            destination = destination;
            count_scratch = after;
          },
        ))
stable_lsd_sort_pre_filled-sorts_example =
    stable_lsd_sort_pre_filled-sorts full_clear_counter full_clear-CounterLaws 1 low_key front
      middle (1 ∷ []) [] (replicate 3 blank_entry) [] new_full_clear_scratch
      (omega arith, (omega arith, (omega arith, tt))) refl new_full_clear-IsClean

tall_exact : cast_depth 2 300 ≡ 300
unfolding cast_depth forest_sorting.Depth.depth_value_bits
tall_exact = refl

small_key : (x : ℕ) → low_key x < 256
small_key x = omega arith

stable_depth_group_trusted_id_permutation-sorts_example :
    stable_depth_group_trusted_id_permutation 2 (stable_sort low_key four_nodes) tall_depths 300
    ≡ ok (stable_sort (λ i. depth_of tall_depths i * 256 + low_key i) four_nodes)
stable_depth_group_trusted_id_permutation-sorts_example =
    stable_depth_group_trusted_id_permutation-sorts 2 300 256 low_key four_nodes tall_depths
      small_key tall_exact (omega arith)
      (omega arith, (omega arith, (omega arith, (omega arith, tt))))

fill_entries_lem_example :
    let r =
      fill_entries low_key
        (front ++ ((7 ∷ (5 ∷ (6 ∷ []))) ++ (1 ∷ [])))
        (length front)
        (length {A = ℕ} (7 ∷ (5 ∷ (6 ∷ []))))
        (replicate 3 blank_entry ++ []) in
    (r.0 ≡ map (load low_key) (7 ∷ (5 ∷ (6 ∷ []))) ++ [])
    × ((r.2 ≡ 0) ↔ All (λ y. low_key y ≡ low_key 7) (7 ∷ (5 ∷ (6 ∷ []))))
fill_entries_lem_example =
    fill_entries_lem low_key front 7 (5 ∷ (6 ∷ [])) (1 ∷ []) (replicate 3 blank_entry) [] refl
