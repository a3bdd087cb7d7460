-- ===== src/Grouping/Msd/Sorts.antt =====
-- The grouping by the bytes of the depth is the stable sort by depth, and so is the adaptive choice.
use forest_sorting.Prelude.{
  ℕ, zero, suc, ◌+◌, ◌-◌, ◌*◌, ◌/◌, ◌%◌, ◌^◌, ◌≤◌, ◌<◌, ◌≡◌, sym, ap, ap₂, ◌∙◌, inl, inr, some,
  List, [], append-nil, arith, Bool-cases, length, get_or, All, All-map,
}
use forest_sorting.Grouping.Dense.Sorts.{depth_of, dense-stable_sort}
use forest_sorting.Radix.Partition.{
  depth_byte_msb_first, CounterTraits, MsdStore, radix_msd_partition_ranges,
}
use forest_sorting.Radix.Partition.Buckets.{suffix_value}
use native.Mathlib.Nat.{pow-zero, pow-suc, mod-eq_of_lt, zero-add}
use forest_sorting.Stable.{stable_sort}
use forest_sorting.Ids.Chunks.Value.{pow_256, pow_pos, mod_split}
use forest_sorting.Stable.Unique.{stable_sort_cong}
use forest_sorting.Grouping.Msd.{
  group_order_by_depth_msd_with_consumer, stable_group_order_by_depth, consume_range,
}
use forest_sorting.Radix.Partition.Ranges.{LawfulTraits, radix_msd_partition_ranges-sorts}
use forest_sorting.Grouping.Dense.{should_use_dense_depth_grouping}

module _ (depths : List ℕ) (depth_prefix_bytes : ℕ) where
  abbrev depth_digit : ℕ → ℕ → ℕ
  depth_digit node_idx digit_index =
      depth_byte_msb_first depth_prefix_bytes (get_or depths node_idx 0) digit_index

  -- The bytes from the `j`-th on make the depth below the ones before.
  depth_bytes :
      (j n x : ℕ)
      → j + n ≡ depth_prefix_bytes
      → suffix_value depth_digit j n x ≡ depth_of depths x % 256 ^ n
  unfolding suffix_value depth_byte_msb_first
  depth_bytes j zero x e = omega (arith, pow-zero 256)
  depth_bytes j (suc n) x e =
      let depth = get_or depths x 0 in
      let at : (depth_prefix_bytes - 1 - j) * 8 ≡ 8 * n = omega arith in
      let power : 2 ^ ((depth_prefix_bytes - 1 - j) * 8) ≡ 256 ^ n =
        ap (λ z. 2 ^ z) at ∙ sym (pow_256 n) in
      ap₂ (λ p r. depth / p % 256 * 256 ^ n + r) power (depth_bytes (j + 1) n x (omega arith))
      ∙ mod_split (256 ^ n) depth (pow_pos 256 n (omega arith))
      ∙ ap (λ z. depth % z) (sym (pow-suc 256 n))

  depth_digit-lt : (x j : ℕ) → depth_digit x j < 256
  unfolding depth_byte_msb_first
  depth_digit-lt x j = omega arith

  depth_value :
      (xs : List ℕ)
      → All (λ i. depth_of depths i < 256 ^ depth_prefix_bytes) xs
      → stable_sort (suffix_value depth_digit 0 depth_prefix_bytes) xs
        ≡ stable_sort (depth_of depths) xs
  depth_value xs small =
      stable_sort_cong (suffix_value depth_digit 0 depth_prefix_bytes) (depth_of depths) xs (
        All-map (λ i. depth_of depths i < 256 ^ depth_prefix_bytes)
          (λ i. suffix_value depth_digit 0 depth_prefix_bytes i ≡ depth_of depths i) xs
          (λ i h. depth_bytes 0 depth_prefix_bytes i (zero-add depth_prefix_bytes) ∙ mod-eq_of_lt h)
          small)

-- The partition by bytes terminates within its rounds and leaves the stable sort by depth, when the
-- depths fit in the prefix and the scratch vector has the size of the order.
pub group_order_by_depth_msd-stable_sort :
    {Scratch Consumer : Type 0} (traits : CounterTraits Scratch) (lawful : LawfulTraits traits)
    (depths : List ℕ) (depth_prefix_bytes : ℕ) (range_consumer : ℕ → ℕ → ℕ → Consumer → Consumer)
    (store : MsdStore Consumer)
    → length store.scratch ≡ length store.order
    → All (λ i. depth_of depths i < 256 ^ depth_prefix_bytes) store.order
    → (result : MsdStore Consumer) × (group_order_by_depth_msd_with_consumer depth_prefix_bytes
          traits store depths range_consumer
        ≡ some result)
      × (result.order ≡ stable_sort (depth_of depths) store.order)
unfolding group_order_by_depth_msd_with_consumer
group_order_by_depth_msd-stable_sort traits lawful depths depth_prefix_bytes range_consumer store
      room small =
    let (result, returns, sorted) =
      radix_msd_partition_ranges-sorts traits lawful (depth_digit depths depth_prefix_bytes)
        (consume_range depths range_consumer) 0 depth_prefix_bytes [] store.order [] store
        (depth_digit-lt depths depth_prefix_bytes) (omega arith) (sym (append-nil store.order))
        room in
    let size : 0 + length store.order ≡ length store.order = zero-add (length store.order) in
    let digits : depth_prefix_bytes - 0 ≡ depth_prefix_bytes = omega arith in
    (
      result,
      ap
            (λ end.
              radix_msd_partition_ranges (depth_digit depths depth_prefix_bytes)
                (consume_range depths range_consumer) traits 0 end 0 depth_prefix_bytes store)
            (sym size)
          ∙ returns,
      sorted
          ∙ append-nil (
              stable_sort
                (suffix_value (depth_digit depths depth_prefix_bytes) 0 (depth_prefix_bytes - 0))
                store.order)
          ∙ ap
              (λ n.
                stable_sort (suffix_value (depth_digit depths depth_prefix_bytes) 0 n) store.order)
              digits
          ∙ depth_value depths depth_prefix_bytes store.order small,
    )

-- Dense or by bytes, on any lawful histogram: the order is sorted stably by depth, for depths up to the
-- observed maximum, which fits in the prefix. The scratch vector has the size of the order.
pub stable_group_order_by_depth-stable_sort :
    {Scratch : Type 0} (traits : CounterTraits Scratch) (lawful : LawfulTraits traits)
    (depths : List ℕ) (depth_prefix_bytes observed_max_depth : ℕ) (order scratch : List ℕ)
    → length scratch ≡ length order
    → All (λ i. depth_of depths i ≤ observed_max_depth) order
    → observed_max_depth < 256 ^ depth_prefix_bytes
    → stable_group_order_by_depth depth_prefix_bytes traits order scratch depths observed_max_depth
      ≡ some (stable_sort (depth_of depths) order)
unfolding stable_group_order_by_depth
stable_group_order_by_depth-stable_sort traits lawful depths depth_prefix_bytes observed_max_depth
      order scratch room small fits =
    elim (Bool-cases (should_use_dense_depth_grouping (length order) observed_max_depth)) [
      | inl dense ↦ rw dense (
          ap some (
            dense-stable_sort
              (record { order = order; scratch = scratch; depth_starts = []; depth_offsets = [] })
              depths observed_max_depth room small))
      | inr msd ↦
          let (result, returns, sorted) =
            group_order_by_depth_msd-stable_sort {Consumer = Unit} traits lawful depths
              depth_prefix_bytes (λ depth begin end c. c)
              (record { order = order; scratch = scratch; consumer = tt }) room
              (All-map (λ i. depth_of depths i ≤ observed_max_depth)
                (λ i. depth_of depths i < 256 ^ depth_prefix_bytes) order (λ i h. omega arith)
                small) in
          rw (msd, returns) (ap some sorted)
    ]
