-- ===== src/Radix/Counts.antt =====
-- The two histograms of a radix pass (include/forest_sorting/detail/radix_counts.hpp), and the ranges
-- that a partition pushes for the buckets (`pushPartitionedRanges` of detail/radix.hpp).
pub mod Laws
pub mod Full
pub mod Represents
pub mod Words
pub mod Rounds
pub mod Select
pub mod Touched
pub mod Bitmask
use forest_sorting.Prelude.{
  ℕ, zero, suc, ◌+◌, ◌-◌, ◌*◌, ◌/◌, ◌%◌, ◌^◌, ◌≤◌, ◌<◌, max, min, ◌≡◌, refl, sym, ap, ap₂, subst,
  ◌∙◌, ◌≢◌, ◌↔◌, ◌⊎◌, inl, inr, Bool, true, false, not, ◌&&◌, ◌||◌, Option, none, some, List, [],
  ◌∷◌, ◌++◌, map, append-nil, append_assoc, arith, ltb, leb, ◌==◌, if◌then◌else◌, Bool-cases,
  Option-cases, ltb→lt, ltb→le, lt→ltb, le→ltb, leb→le, leb→lt, le→leb, lt→leb, ==→≡, ==→≢, ==_refl,
  ≡→==, ≢→==, length, get_or, set, replicate, take, drop, All, iota, length-iota, length-append,
  length-set, length-replicate, length-take, length-drop, take-append-drop, get_or-set_self,
  get_or-set_ne, get_or-replicate, get_or-append_at, set-append_at, get_or-append_left, get_or_ext,
  All-get_or, All-of, All-append, All-map, length-map,
}
use forest_sorting.Loops.{for_range, for_each}
use Prim.Native.Nat.{bit_xor, bit_and, bit_or}
use forest_sorting.Scatter.Increment.{increment}

abbrev pub radix_bits : ℕ
radix_bits = 8

abbrev pub radix_bucket_count : ℕ
radix_bucket_count = 256

-- `RadixRange`
pub record RadixRange : Type 0 where
  pub begin : ℕ
  pub end : ℕ
  pub digit_index : ℕ

-- What both scratch types offer through overloads. `with_counts` stands for the writes to `.counts`
-- that a pass makes itself. The stack of ranges has its top first.
pub record Counter (Scratch : Type 0) : Type 0 where
  pub reset : Scratch → Scratch
  pub note : Scratch → ℕ → Scratch
  pub prefix : Scratch → ℕ → Scratch
  pub clear : Scratch → Scratch
  pub count_non_zero : Scratch → ℕ
  pub counts : Scratch → List ℕ
  pub with_counts : Scratch → List ℕ → Scratch
  pub push_partitioned_ranges : List RadixRange → List ℕ → Scratch → ℕ → List RadixRange

-- One bucket of a prefix loop: its offset replaces its size.
unfoldable pub prefix_bucket : ℕ → List ℕ × ℕ → List ℕ × ℕ
prefix_bucket bucket_idx (counts, write_offset) =
    (set counts bucket_idx write_offset, write_offset + get_or counts bucket_idx 0)

-- One bucket of `pushPartitionedRanges`.
unfoldable pub push_bucket : List ℕ → List ℕ → ℕ → ℕ → List RadixRange → List RadixRange
push_bucket bucket_starts counts next_digit_index bucket_idx stack =
    let start = get_or bucket_starts bucket_idx 0 in
    let end = get_or counts bucket_idx 0 in
    if ltb start end
    then record { begin = start; end = end; digit_index = next_digit_index } ∷ stack
    else stack

-- `FullClearCountScratch`
pub record FullClearCountScratch : Type 0 where
  pub counts : List ℕ

-- `static_cast<std::size_t>(countScratch.counts[bucketIdx] != 0)`
abbrev pub is_non_zero : List ℕ → ℕ → ℕ
is_non_zero counts bucket_idx = if get_or counts bucket_idx 0 == 0 then 0 else 1

-- Four buckets to a round.
unfoldable pub count_four_buckets : List ℕ → ℕ → ℕ → ℕ
count_four_buckets counts round non_zero_buckets =
    let bucket_idx = round * 4 in
    non_zero_buckets
    + is_non_zero counts (bucket_idx + 0)
    + is_non_zero counts (bucket_idx + 1)
    + is_non_zero counts (bucket_idx + 2)
    + is_non_zero counts (bucket_idx + 3)

unfoldable pub full_clear_counter : Counter FullClearCountScratch
full_clear_counter = record {
  reset = λ s. record { counts = replicate radix_bucket_count 0 };
  note = λ s digit. record { counts = increment s.counts digit };
  prefix = λ s start_offset. record {
    counts = (for_range radix_bucket_count 0 prefix_bucket (s.counts, start_offset)).0;
  };
  clear = λ s. s;
  count_non_zero = λ s. for_range (radix_bucket_count / 4) 0 (count_four_buckets s.counts) 0;
  counts = λ s. s.counts;
  with_counts = λ s counts. record { counts = counts };
  push_partitioned_ranges = λ stack bucket_starts s next_digit_index.
      for_range radix_bucket_count 0
        (λ reverse_bucket_idx.
          push_bucket bucket_starts s.counts next_digit_index
            (radix_bucket_count - 1 - reverse_bucket_idx))
        stack;
}

-- `BitmaskTouchedCountScratch`: the counts, and a bit for each bucket that was noted.
pub record BitmaskTouchedCountScratch : Type 0 where
  pub counts : List ℕ
  pub touched_mask : List ℕ

-- `std::countr_zero`, `std::countl_zero` and `std::popcount` on a word of so many bits.
unfoldable pub countr_zero : ℕ → ℕ → ℕ
countr_zero zero word = 0
countr_zero (suc width) word =
    let rest = countr_zero width (word / 2) in if word % 2 == 1 then 0 else suc rest

unfoldable pub countl_zero : ℕ → ℕ → ℕ
countl_zero zero word = 0
countl_zero (suc width) word =
    let rest = countl_zero width word in if word / 2 ^ width % 2 == 1 then 0 else suc rest

unfoldable pub popcount : ℕ → ℕ → ℕ
popcount zero word = 0
popcount (suc width) word = word % 2 + popcount width (word / 2)

module _ {State : Type 0} where
  -- `while (bits != 0) { body of the lowest bit; bits &= bits - 1; }`; a word has at most 64 rounds.
  unfoldable pub while_lowest_bit : ℕ → (ℕ → State → State) → ℕ → State → State
  while_lowest_bit zero body bits s = s
  while_lowest_bit (suc rounds) body bits s =
      let rest =
        while_lowest_bit rounds body (bit_and bits (bits - 1)) (body (countr_zero 64 bits) s) in
      if bits == 0 then s else rest

  -- `while (bits != 0) { body of the highest bit; bits ^= uint64_t{1} << bit; }`
  unfoldable pub while_highest_bit : ℕ → (ℕ → State → State) → ℕ → State → State
  while_highest_bit zero body bits s = s
  while_highest_bit (suc rounds) body bits s =
      let bit = 63 - countl_zero 64 bits in
      let rest = while_highest_bit rounds body (bit_xor bits (2 ^ bit)) (body bit s) in
      if bits == 0 then s else rest

-- The bits of the mask of `countScratch`, as a loop over the words runs through them.
unfoldable pub prefix_touched : List ℕ → ℕ → List ℕ × ℕ → List ℕ × ℕ
prefix_touched touched_mask mask_idx s =
    while_lowest_bit 64 (λ bit. prefix_bucket (mask_idx * 64 + bit))
      (get_or touched_mask mask_idx 0) s

unfoldable pub clear_touched : ℕ → BitmaskTouchedCountScratch → BitmaskTouchedCountScratch
clear_touched mask_idx s = record {
  counts =
      while_lowest_bit 64 (λ bit counts. set counts (mask_idx * 64 + bit) 0)
        (get_or s.touched_mask mask_idx 0) s.counts;
  touched_mask = set s.touched_mask mask_idx 0;
}

unfoldable pub push_touched :
    List ℕ → BitmaskTouchedCountScratch → ℕ → ℕ → List RadixRange → List RadixRange
push_touched bucket_starts s next_digit_index reverse_mask_idx stack =
    let mask_idx = 3 - reverse_mask_idx in
    while_highest_bit 64
      (λ bit. push_bucket bucket_starts s.counts next_digit_index (mask_idx * 64 + bit))
      (get_or s.touched_mask mask_idx 0) stack

unfoldable pub bitmask_touched_counter : Counter BitmaskTouchedCountScratch
bitmask_touched_counter = record {
  reset = λ s. s;
  note = λ s digit. record {
    counts = increment s.counts digit;
    touched_mask =
        set s.touched_mask (digit / 2 ^ 6)
          (bit_or (get_or s.touched_mask (digit / 2 ^ 6) 0) (2 ^ (digit % 64)));
  };
  prefix = λ s start_offset. record s {
    counts =
        (for_range (length s.touched_mask) 0 (prefix_touched s.touched_mask)
          (s.counts, start_offset)).0;
  };
  clear = λ s. for_range (length s.touched_mask) 0 clear_touched s;
  count_non_zero = λ s. for_each (λ bits non_zero. non_zero + popcount 64 bits) s.touched_mask 0;
  counts = λ s. s.counts;
  with_counts = λ s counts. record s { counts = counts };
  push_partitioned_ranges = λ stack bucket_starts s next_digit_index.
      for_range 4 0 (push_touched bucket_starts s next_digit_index) stack;
}

-- The value-initialised scratch spaces.
abbrev pub new_full_clear_scratch : FullClearCountScratch
new_full_clear_scratch = record { counts = replicate radix_bucket_count 0 }

abbrev pub new_bitmask_touched_scratch : BitmaskTouchedCountScratch
new_bitmask_touched_scratch = record {
  counts = replicate radix_bucket_count 0;
  touched_mask = replicate 4 0;
}
