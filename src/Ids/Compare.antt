-- ===== src/Ids/Compare.antt =====
-- Comparison of identifiers (include/forest_sorting/detail/id_compare.hpp).
pub mod Order
pub mod Cached
use forest_sorting.Prelude.{
  ℕ, zero, suc, ◌+◌, ◌-◌, ◌*◌, ◌/◌, ◌%◌, ◌^◌, ◌≤◌, ◌<◌, max, min, ◌≡◌, refl, sym, ap, ap₂, subst,
  ◌∙◌, ◌≢◌, ◌↔◌, ◌⊎◌, inl, inr, Bool, true, false, not, ◌&&◌, ◌||◌, Option, none, some, List, [],
  ◌∷◌, ◌++◌, map, append-nil, append_assoc, arith, ltb, leb, ◌==◌, if◌then◌else◌, Bool-cases,
  Option-cases, ltb→lt, ltb→le, lt→ltb, le→ltb, leb→le, leb→lt, le→leb, lt→leb, ==→≡, ==→≢, ==_refl,
  ≡→==, ≢→==, length, get_or, set, replicate, take, drop, All, iota, length-iota, length-append,
  length-set, length-replicate, length-take, length-drop, take-append-drop, get_or-set_self,
  get_or-set_ne, get_or-replicate, get_or-append_at, set-append_at, get_or-append_left, get_or_ext,
  All-get_or, All-of, All-append, All-map, length-map,
}
use forest_sorting.Traits.{IdTraits}
use forest_sorting.Ids.Chunks.{
  id_chunk_count, chunk_msb_first, CachedChunkId, cached_comparison_chunk_bytes,
}

-- The `int` of a three-way comparison: -1, 0 or 1.
pub data Sign : Type 0 where
  negative zero_sign positive : Sign

-- `shouldCacheChunkIds`: more than one 64-bit chunk, and no `less` hook.
unfoldable pub should_cache_chunk_ids : {NodeId : Type 0} → IdTraits NodeId → Bool
unfolding id_chunk_count
should_cache_chunk_ids traits = elim traits.less [
  | some hook ↦ false
  | none ↦ ltb 1 (id_chunk_count cached_comparison_chunk_bytes traits.id_byte_count)
]

-- The loop of `compareChunkSequence` from a chunk on.
unfoldable pub compare_chunks_from : ℕ → ℕ → (ℕ → ℕ) → (ℕ → ℕ) → Sign
compare_chunks_from zero chunk_idx lhs rhs = zero_sign
compare_chunks_from (suc rounds) chunk_idx lhs rhs =
    let rest = compare_chunks_from rounds (chunk_idx + 1) lhs rhs in
    if ltb (lhs chunk_idx) (rhs chunk_idx)
    then negative
    else if ltb (rhs chunk_idx) (lhs chunk_idx)
    then positive
    else rest

-- The unrolled comparison of two chunks.
unfoldable pub compare_two_chunks : (ℕ → ℕ) → (ℕ → ℕ) → Sign
compare_two_chunks lhs rhs =
    if ltb (lhs 0) (rhs 0)
    then negative
    else if ltb (rhs 0) (lhs 0)
    then positive
    else if ltb (lhs 1) (rhs 1)
    then negative
    else if ltb (rhs 1) (lhs 1)
    then positive
    else zero_sign

-- The unrolled comparison of four chunks.
unfoldable pub compare_four_chunks : (ℕ → ℕ) → (ℕ → ℕ) → Sign
compare_four_chunks lhs rhs =
    if ltb (lhs 0) (rhs 0)
    then negative
    else if ltb (rhs 0) (lhs 0)
    then positive
    else if ltb (lhs 1) (rhs 1)
    then negative
    else if ltb (rhs 1) (lhs 1)
    then positive
    else if ltb (lhs 2) (rhs 2)
    then negative
    else if ltb (rhs 2) (lhs 2)
    then positive
    else if ltb (lhs 3) (rhs 3)
    then negative
    else if ltb (rhs 3) (lhs 3)
    then positive
    else zero_sign

-- `compareChunkSequence`
unfoldable pub compare_chunk_sequence : ℕ → (ℕ → ℕ) → (ℕ → ℕ) → Sign
unfolding compare_two_chunks compare_four_chunks compare_chunks_from
compare_chunk_sequence chunk_count lhs rhs =
    if chunk_count == 2
    then compare_two_chunks lhs rhs
    else if chunk_count == 4
    then compare_four_chunks lhs rhs
    else compare_chunks_from chunk_count 0 lhs rhs

-- `compareCachedIdChunks`
unfoldable pub compare_cached_id_chunks : ℕ → CachedChunkId → CachedChunkId → Sign
unfolding compare_chunk_sequence
compare_cached_id_chunks chunk_count lhs rhs =
    compare_chunk_sequence chunk_count (λ i. get_or lhs i 0) (λ i. get_or rhs i 0)

-- `cmp < 0`
abbrev pub is_negative : Sign → Bool
is_negative negative = true
is_negative _ = false

-- `cmp == 0`
abbrev pub is_zero : Sign → Bool
is_zero zero_sign = true
is_zero _ = false

module _ {NodeId : Type 0} (traits : IdTraits NodeId) where
  -- `compareIdsMsbFirst`
  unfoldable pub compare_ids_msb_first : NodeId → NodeId → Sign
  unfolding compare_chunk_sequence id_chunk_count chunk_msb_first
  compare_ids_msb_first lhs rhs =
      compare_chunk_sequence (id_chunk_count cached_comparison_chunk_bytes traits.id_byte_count)
        (chunk_msb_first cached_comparison_chunk_bytes traits lhs)
        (chunk_msb_first cached_comparison_chunk_bytes traits rhs)

  -- `compareNodeIds`
  unfoldable pub compare_node_ids : NodeId → NodeId → Sign
  unfolding compare_ids_msb_first
  compare_node_ids first second = elim traits.less [
    | some less ↦
        if less first second then negative else if less second first then positive else zero_sign
    | none ↦ compare_ids_msb_first first second
  ]

  -- `idLess`
  unfoldable pub id_less : NodeId → NodeId → Bool
  unfolding compare_node_ids
  id_less lhs rhs = elim traits.less [
    | some less ↦ less lhs rhs
    | none ↦ is_negative (compare_node_ids lhs rhs)
  ]

  -- `idEqual`
  unfoldable pub id_equal : NodeId → NodeId → Bool
  unfolding compare_ids_msb_first
  id_equal lhs rhs = elim traits.equal [
    | some equal ↦ equal lhs rhs
    | none ↦ is_zero (compare_ids_msb_first lhs rhs)
  ]
