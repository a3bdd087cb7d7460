-- ===== src/Radix/Partition.antt =====
-- The partition by the most significant digit (include/forest_sorting/detail/radix.hpp): one range, the
-- loop over the stack of ranges, and the form that rearranges an `order` vector.
pub mod Distribute
pub mod Single
pub mod Buckets
pub mod Round
pub mod Sorts
pub mod Ranges
use forest_sorting.Prelude.{
  ℕ, zero, suc, ◌+◌, ◌-◌, ◌*◌, ◌/◌, ◌%◌, ◌^◌, ◌≤◌, ◌<◌, max, min, ◌≡◌, refl, sym, ap, ap₂, subst,
  ◌∙◌, ◌≢◌, ◌↔◌, ◌⊎◌, inl, inr, Bool, true, false, not, ◌&&◌, ◌||◌, Option, none, some, List, [],
  ◌∷◌, ◌++◌, map, append-nil, append_assoc, arith, ltb, leb, ◌==◌, if◌then◌else◌, Bool-cases,
  Option-cases, ltb→lt, ltb→le, lt→ltb, le→ltb, leb→le, leb→lt, le→leb, lt→leb, ==→≡, ==→≢, ==_refl,
  ≡→==, ≢→==, length, get_or, set, replicate, take, drop, All, iota, length-iota, length-append,
  length-set, length-replicate, length-take, length-drop, take-append-drop, get_or-set_self,
  get_or-set_ne, get_or-replicate, get_or-append_at, set-append_at, get_or-append_left, get_or_ext,
  All-get_or, All-of, All-append, All-map, length-map,
}
use forest_sorting.Radix.Counts.{
  BitmaskTouchedCountScratch, radix_bits, RadixRange, FullClearCountScratch, Counter,
  full_clear_counter, bitmask_touched_counter, new_full_clear_scratch, new_bitmask_touched_scratch,
}
use forest_sorting.Loops.{for_range}
use forest_sorting.Scatter.Increment.{increment}

-- `wordByte`
unfoldable pub word_byte : ℕ → ℕ → ℕ
word_byte value byte_index = value / 2 ^ (byte_index * radix_bits) % 2 ^ 8

-- `depthByteMsbFirst`
unfoldable pub depth_byte_msb_first : ℕ → ℕ → ℕ → ℕ
depth_byte_msb_first depth_prefix_bytes depth byte_index =
    depth / 2 ^ ((depth_prefix_bytes - 1 - byte_index) * radix_bits) % 2 ^ 8

-- `RadixCounterTraits` of a policy, with the operations on its scratch type.
pub record CounterTraits (Scratch : Type 0) : Type 0 where
  pub always_use_policy : Bool
  pub use_policy_for_range : ℕ → Bool
  pub counter : Counter Scratch
  pub new_scratch : Scratch

unfoldable pub full_clear_counts : CounterTraits FullClearCountScratch
full_clear_counts = record {
  always_use_policy = true;
  use_policy_for_range = λ range_size. true;
  counter = full_clear_counter;
  new_scratch = new_full_clear_scratch;
}

unfoldable pub bitmask_touched_counts_up_to : ℕ → CounterTraits BitmaskTouchedCountScratch
bitmask_touched_counts_up_to max_range_size = record {
  always_use_policy = false;
  use_policy_for_range = λ range_size. leb range_size max_range_size;
  counter = bitmask_touched_counter;
  new_scratch = new_bitmask_touched_scratch;
}

-- The callbacks of the partition, which read and change what they capture.
pub record RangeClient (Store : Type 0) : Type 0 where
  pub digit_for_offset : Store → ℕ → ℕ → ℕ
  pub move_to_scratch : ℕ → ℕ → Store → Store
  pub copy_from_scratch : ℕ → ℕ → Store → Store
  pub range_done : ℕ → ℕ → Store → Store
  pub small_range_handler : ℕ → ℕ → ℕ → Store → Bool × Store

module _ {Scratch Store : Type 0} (counter : Counter Scratch) (client : RangeClient Store) where
  -- The first loop: a note of each digit of the range.
  unfoldable pub note_range : RadixRange → Store → Scratch → Scratch
  note_range range store s =
      for_range (range.end - range.begin) range.begin
        (λ offset s. counter.note s (client.digit_for_offset store offset range.digit_index)) s

  -- `moveToScratch(offset, countScratch.counts[digit]++)`
  unfoldable pub move_offset : ℕ → ℕ → Scratch × Store → Scratch × Store
  move_offset digit_index offset (s, store) =
      let digit = client.digit_for_offset store offset digit_index in
      (
        counter.with_counts s (increment (counter.counts s) digit),
        client.move_to_scratch offset (get_or (counter.counts s) digit 0) store,
      )

  -- More than one bucket is in use.
  unfoldable pub distribute_range :
      RadixRange → List RadixRange → Scratch → Store → List RadixRange × Scratch × Store
  distribute_range range stack noted store =
      let prefixed = counter.prefix noted range.begin in
      let bucket_starts = counter.counts prefixed in
      let (moved, store') =
        for_range (range.end - range.begin) range.begin (move_offset range.digit_index)
          (prefixed, store) in
      (
        counter.push_partitioned_ranges stack bucket_starts moved (range.digit_index + 1),
        counter.clear moved,
        client.copy_from_scratch range.begin range.end store',
      )

  -- `partitionSingleRange`
  unfoldable pub partition_single_range :
      RadixRange → List RadixRange → Scratch → Store → List RadixRange × Scratch × Store
  partition_single_range range stack s store =
      let noted = note_range range store (counter.reset s) in
      let non_zero_buckets = counter.count_non_zero noted in
      if non_zero_buckets == 0
      then (stack, noted, store)
      else if non_zero_buckets == 1
      then (
        record { begin = range.begin; end = range.end; digit_index = range.digit_index + 1 }
            ∷ stack,
        counter.clear noted,
        store,
      )
      else distribute_range range stack noted store

-- What the loop over the stack changes: the histograms and what the callbacks capture.
pub record PartitionState (Scratch Store : Type 0) : Type 0 where
  pub policy_scratch : Scratch
  pub fallback_scratch : FullClearCountScratch
  pub store : Store

module _ {Scratch Store : Type 0} (traits : CounterTraits Scratch)
    (client : RangeClient Store) where
  -- The histogram that the policy picks for the range.
  unfoldable pub partition_with_policy :
      RadixRange
      → List RadixRange
      → PartitionState Scratch Store
      → List RadixRange × PartitionState Scratch Store
  partition_with_policy range stack s =
      if traits.always_use_policy || traits.use_policy_for_range (range.end - range.begin)
      then (let (stack', scratch', store') =
            partition_single_range traits.counter client range stack s.policy_scratch s.store in
          (stack', record s { policy_scratch = scratch'; store = store' }))
      else (let (stack', scratch', store') =
            partition_single_range full_clear_counter client range stack s.fallback_scratch
              s.store in
          (stack', record s { fallback_scratch = scratch'; store = store' }))

  -- One round: the range that was on top of the stack.
  unfoldable pub process_radix_range :
      ℕ
      → RadixRange
      → List RadixRange
      → PartitionState Scratch Store
      → List RadixRange × PartitionState Scratch Store
  process_radix_range digit_count range stack s =
      if leb (range.end - range.begin) 1 || range.digit_index == digit_count
      then (stack, record s { store = client.range_done range.begin range.end s.store })
      else (let (handled, store') =
            client.small_range_handler range.begin range.end range.digit_index s.store in
          if handled
          then (stack, record s { store = store' })
          else partition_with_policy range stack (record s { store = store' }))

  -- The loop, on fuel: none when the rounds do not suffice.
  unfoldable pub partition_loop :
      ℕ → ℕ → List RadixRange → PartitionState Scratch Store → Option (PartitionState Scratch Store)
  partition_loop rounds digit_count [] s = some s
  partition_loop zero digit_count (range ∷ stack) s = none
  partition_loop (suc rounds) digit_count (range ∷ stack) s =
      let (stack', s') = process_radix_range digit_count range stack s in
      partition_loop rounds digit_count stack' s'

  -- `radixMsdPartitionCoreWithStack`, with a round for the range and one for each element and digit.
  unfoldable pub radix_msd_partition_core_with_stack : ℕ → ℕ → ℕ → ℕ → Store → Option Store
  radix_msd_partition_core_with_stack begin end first_digit digit_count store =
      elim (partition_loop (1 + (end - begin) * (digit_count - first_digit)) digit_count
        (record { begin = begin; end = end; digit_index = first_digit } ∷ [])
        (record {
          policy_scratch = traits.new_scratch;
          fallback_scratch = new_full_clear_scratch;
          store = store;
        })) [ none ↦ none | some s ↦ some s.store ]

-- `order`, `scratch` and what the consumer of the finished ranges captures.
pub record MsdStore (Consumer : Type 0) : Type 0 where
  pub order : List ℕ
  pub scratch : List ℕ
  pub consumer : Consumer

module _ {Consumer : Type 0} (digit_for_index : ℕ → ℕ → ℕ)
    (range_done : ℕ → ℕ → List ℕ → Consumer → Consumer) where
  unfoldable pub order_client : RangeClient (MsdStore Consumer)
  order_client = record {
    digit_for_offset =
        λ store offset digit_index. digit_for_index (get_or store.order offset 0) digit_index;
    move_to_scratch = λ offset scratch_offset store. record store {
      scratch = set store.scratch scratch_offset (get_or store.order offset 0);
    };
    copy_from_scratch = λ range_begin range_end store. record store {
      order =
          for_range (range_end - range_begin) range_begin
            (λ offset order. set order offset (get_or store.scratch offset 0)) store.order;
    };
    range_done = λ begin end store. record store {
      consumer = range_done begin end store.order store.consumer;
    };
    small_range_handler = λ begin end digit_index store. (false, store);
  }

  -- `radixMsdPartitionRanges`, through `radixMsdPartitionCore`
  unfoldable pub radix_msd_partition_ranges :
      {Scratch : Type 0}
      → CounterTraits Scratch
      → ℕ
      → ℕ
      → ℕ
      → ℕ
      → MsdStore Consumer
      → Option (MsdStore Consumer)
  radix_msd_partition_ranges traits begin end first_digit digit_count store =
      radix_msd_partition_core_with_stack traits order_client begin end first_digit digit_count
        store
