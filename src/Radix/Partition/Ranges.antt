-- ===== src/Radix/Partition/Ranges.antt =====
-- `radixMsdPartitionRanges` on a part of a vector.
use forest_sorting.Prelude.{
  ℕ, ◌+◌, ◌-◌, ◌*◌, ◌≤◌, ◌<◌, ◌≡◌, refl, ap, ◌∙◌, some, List, [], ◌++◌, arith, length,
}
use forest_sorting.Radix.Counts.Full.{full_clear-CounterLaws, new_full_clear-IsClean}
use forest_sorting.Radix.Partition.{
  full_clear_counts, bitmask_touched_counts_up_to, radix_msd_partition_ranges, CounterTraits,
  radix_msd_partition_core_with_stack, partition_loop, MsdStore, PartitionState,
}
use forest_sorting.Radix.Counts.Bitmask.{bitmask_touched-CounterLaws, new_bitmask_touched-IsClean}
use forest_sorting.Radix.Counts.Laws.{CounterLaws}
use forest_sorting.Stable.{stable_sort}
use forest_sorting.Radix.Partition.Buckets.{suffix_value}
use forest_sorting.Radix.Counts.{new_full_clear_scratch, RadixRange}
use forest_sorting.Radix.Partition.Single.{radix_range}
use forest_sorting.Radix.Partition.Sorts.{sort_range}

-- A policy whose histogram keeps the laws, and whose new scratch space is clean.
pub record LawfulTraits {Scratch : Type 0} (traits : CounterTraits Scratch) : Type 1 where
  pub laws : CounterLaws traits.counter
  pub new_clean : laws.IsClean traits.new_scratch

-- The histogram that is cleared as a whole keeps the laws that a radix pass needs.
pub full_clear-LawfulTraits : LawfulTraits full_clear_counts
unfolding full_clear_counts
full_clear-LawfulTraits = record {
  laws = full_clear-CounterLaws;
  new_clean = new_full_clear-IsClean;
}

-- The histogram with the mask of touched buckets keeps the laws that a radix pass needs, whatever the
-- size of the ranges it is used for: notes count, the prefix sums and their advances are read back, the
-- buckets in use are pushed, and after it is cleared it is as clean as a new one.
pub bitmask_touched-LawfulTraits :
    (max_range_size : ℕ) → LawfulTraits (bitmask_touched_counts_up_to max_range_size)
unfolding bitmask_touched_counts_up_to
bitmask_touched-LawfulTraits max_range_size = record {
  laws = bitmask_touched-CounterLaws;
  new_clean = new_bitmask_touched-IsClean;
}

-- Whichever lawful policy picks the histograms, the rounds that the loop is given suffice, and the range
-- is sorted stably by its digits from the first one on, the rest of the vector kept. The scratch vector
-- has the size of the order, digits are below 256, and the first digit is not behind the last.
pub radix_msd_partition_ranges-sorts :
    {Scratch Consumer : Type 0} (traits : CounterTraits Scratch) (lawful : LawfulTraits traits)
    (digit_for_index : ℕ → ℕ → ℕ) (range_done : ℕ → ℕ → List ℕ → Consumer → Consumer)
    (first_digit digit_count : ℕ) (pre mid post : List ℕ) (store : MsdStore Consumer)
    → ((x j : ℕ) → digit_for_index x j < 256)
    → first_digit ≤ digit_count
    → store.order ≡ pre ++ (mid ++ post)
    → length store.scratch ≡ length store.order
    → (result : MsdStore Consumer) × (radix_msd_partition_ranges digit_for_index range_done traits
          (length pre)
          (length pre + length mid)
          first_digit
          digit_count
          store
        ≡ some result)
      × (result.order
          ≡ pre
            ++ (stable_sort
                  (suffix_value digit_for_index first_digit (digit_count - first_digit))
                  mid
                ++ post))
unfolding radix_msd_partition_ranges radix_msd_partition_core_with_stack partition_loop
radix_msd_partition_ranges-sorts {Scratch = Scratch} {Consumer = Consumer} traits lawful
      digit_for_index range_done first_digit digit_count pre mid post store small first at room =
    let s : PartitionState Scratch (MsdStore Consumer) = record {
      policy_scratch = traits.new_scratch;
      fallback_scratch = new_full_clear_scratch;
      store = store;
    } in
    let n = digit_count - first_digit in
    let range : RadixRange = radix_range (length pre) (length pre + length mid) first_digit in
    let done =
      sort_range traits lawful.laws digit_for_index range_done small digit_count n first_digit s pre
        mid post range (omega arith) refl refl refl
        (record {
          policy_clean = lawful.new_clean;
          fallback_clean = new_full_clear-IsClean;
          arranged = at;
          scratch_length = room ∙ ap length at;
        }) in
    let size : length pre + length mid - length pre ≡ length mid = omega arith in
    let rounds : ℕ = 1 + length mid * n in
    let enough : rounds ≡ done.used + (rounds - done.used) = omega (arith, done.used_le) in
    let runs = done.runs [] (rounds - done.used) rounds enough in
    (
      done.after.store,
      rw (size, runs, radix_msd_partition_ranges, radix_msd_partition_core_with_stack) refl,
      done.ready.arranged,
    )
