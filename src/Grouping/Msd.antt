-- ===== src/Grouping/Msd.antt =====
-- The partition by the bytes of the depth, and the choice between it and the dense histogram:
-- `groupOrderByDepthMsdWithConsumer`, `groupOrderByDepthMsd` and `stableGroupOrderByDepth`.
pub mod Sorts
use forest_sorting.Prelude.{
  ℕ, zero, suc, ◌+◌, ◌-◌, ◌*◌, ◌/◌, ◌%◌, ◌^◌, ◌≤◌, ◌<◌, max, min, ◌≡◌, refl, sym, ap, ap₂, subst,
  ◌∙◌, ◌≢◌, ◌↔◌, ◌⊎◌, inl, inr, Bool, true, false, not, ◌&&◌, ◌||◌, Option, none, some, List, [],
  ◌∷◌, ◌++◌, map, append-nil, append_assoc, arith, ltb, leb, ◌==◌, if◌then◌else◌, Bool-cases,
  Option-cases, ltb→lt, ltb→le, lt→ltb, le→ltb, leb→le, leb→lt, le→leb, lt→leb, ==→≡, ==→≢, ==_refl,
  ≡→==, ≢→==, length, get_or, set, replicate, take, drop, All, iota, length-iota, length-append,
  length-set, length-replicate, length-take, length-drop, take-append-drop, get_or-set_self,
  get_or-set_ne, get_or-replicate, get_or-append_at, set-append_at, get_or-append_left, get_or_ext,
  All-get_or, All-of, All-append, All-map, length-map,
}
use forest_sorting.Radix.Partition.{
  CounterTraits, MsdStore, radix_msd_partition_ranges, depth_byte_msb_first,
}
use forest_sorting.Grouping.Dense.{
  should_use_dense_depth_grouping, group_order_by_depth_dense_with_consumer, DepthRange,
}

-- `rangeDone`: the consumer gets the depth of the first node of a range that is not empty.
unfoldable pub consume_range :
    {Consumer : Type 0}
    → List ℕ
    → (ℕ → ℕ → ℕ → Consumer → Consumer)
    → ℕ
    → ℕ
    → List ℕ
    → Consumer
    → Consumer
consume_range depths range_consumer range_begin range_end order c =
    if ltb range_begin range_end
    then range_consumer (get_or depths (get_or order range_begin 0) 0) range_begin range_end c
    else c

-- `groupOrderByDepthMsdWithConsumer`
unfoldable pub group_order_by_depth_msd_with_consumer :
    {Scratch Consumer : Type 0}
    → ℕ
    → CounterTraits Scratch
    → MsdStore Consumer
    → List ℕ
    → (ℕ → ℕ → ℕ → Consumer → Consumer)
    → Option (MsdStore Consumer)
group_order_by_depth_msd_with_consumer depth_prefix_bytes traits store depths range_consumer =
    radix_msd_partition_ranges
      (λ node_idx digit_index.
        depth_byte_msb_first depth_prefix_bytes (get_or depths node_idx 0) digit_index)
      (consume_range depths range_consumer) traits 0 (length store.order) 0 depth_prefix_bytes store

-- `groupOrderByDepthMsd`; the ranges are collected in their order.
unfoldable pub group_order_by_depth_msd :
    {Scratch : Type 0}
    → ℕ
    → CounterTraits Scratch
    → List ℕ
    → List ℕ
    → List ℕ
    → Option (MsdStore (List DepthRange))
group_order_by_depth_msd depth_prefix_bytes traits order scratch depths =
    group_order_by_depth_msd_with_consumer depth_prefix_bytes traits
      (record { order = order; scratch = scratch; consumer = [] }) depths
      (λ depth begin end ranges. ranges ++ record { depth = depth; begin = begin; end = end } ∷ [])

-- `stableGroupOrderByDepth`: the order, none when the partition runs out of its rounds.
unfoldable pub stable_group_order_by_depth :
    {Scratch : Type 0} → ℕ → CounterTraits Scratch → List ℕ → List ℕ → List ℕ → ℕ → Option (List ℕ)
stable_group_order_by_depth depth_prefix_bytes traits order scratch depths observed_max_depth =
    if should_use_dense_depth_grouping (length order) observed_max_depth
    then some
        (group_order_by_depth_dense_with_consumer
          (record { order = order; scratch = scratch; depth_starts = []; depth_offsets = [] })
          depths observed_max_depth).0.order
    else elim (group_order_by_depth_msd_with_consumer {Consumer = Unit} depth_prefix_bytes traits
        (record { order = order; scratch = scratch; consumer = tt }) depths
        (λ depth begin end c. c)) [ none ↦ none | some store ↦ some store.order ]
