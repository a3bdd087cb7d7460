-- ===== src/Ids/Chunks.antt =====
-- Packed chunks of an identifier (include/forest_sorting/detail/id_chunks.hpp).
pub mod Value
use forest_sorting.Prelude.{
  ℕ, zero, suc, ◌+◌, ◌-◌, ◌*◌, ◌/◌, ◌%◌, ◌^◌, ◌≤◌, ◌<◌, max, min, ◌≡◌, refl, sym, ap, ap₂, subst,
  ◌∙◌, ◌≢◌, ◌↔◌, ◌⊎◌, inl, inr, Bool, true, false, not, ◌&&◌, ◌||◌, Option, none, some, List, [],
  ◌∷◌, ◌++◌, map, append-nil, append_assoc, arith, ltb, leb, ◌==◌, if◌then◌else◌, Bool-cases,
  Option-cases, ltb→lt, ltb→le, lt→ltb, le→ltb, leb→le, leb→lt, le→leb, lt→leb, ==→≡, ==→≢, ==_refl,
  ≡→==, ≢→==, length, get_or, set, replicate, take, drop, All, iota, length-iota, length-append,
  length-set, length-replicate, length-take, length-drop, take-append-drop, get_or-set_self,
  get_or-set_ne, get_or-replicate, get_or-append_at, set-append_at, get_or-append_left, get_or_ext,
  All-get_or, All-of, All-append, All-map, length-map,
}
use Prim.Native.Nat.{bit_or}
use forest_sorting.Loops.{for_range}
use forest_sorting.Traits.{IdTraits}

abbrev pub cached_comparison_chunk_bytes : ℕ
cached_comparison_chunk_bytes = 8

-- `idChunkCount`
unfoldable pub id_chunk_count : ℕ → ℕ → ℕ
id_chunk_count chunk_bytes id_byte_count =
    id_byte_count / chunk_bytes + (if id_byte_count % chunk_bytes == 0 then 0 else 1)

-- A cast to `ChunkValueType<ChunkBytes>`.
abbrev pub cast_chunk : ℕ → ℕ → ℕ
cast_chunk chunk_bytes value = value % 2 ^ (8 * chunk_bytes)

-- `buildChunkFromBytes`, on a 64-bit accumulator; past the last byte it shifts in zeros.
unfoldable pub build_chunk_from_bytes :
    {NodeId : Type 0} → ℕ → ℕ → (NodeId → ℕ → ℕ) → NodeId → ℕ → ℕ
build_chunk_from_bytes chunk_bytes id_byte_count byte_msb_first node_id chunk_index =
    cast_chunk chunk_bytes (
      for_range chunk_bytes 0
        (λ offset. λ value.
          let byte_index = chunk_index * chunk_bytes + offset in
          let shifted = value * 2 ^ 8 % 2 ^ 64 in
          if ltb byte_index id_byte_count
          then bit_or shifted (byte_msb_first node_id byte_index)
          else shifted)
        0)

-- `chunkMsbFirst`: the hook of this width, else the bytes.
unfoldable pub chunk_msb_first : {NodeId : Type 0} → ℕ → IdTraits NodeId → NodeId → ℕ → ℕ
unfolding build_chunk_from_bytes
chunk_msb_first chunk_bytes traits node_id chunk_index = elim (traits.chunk_msb_first chunk_bytes) [
  | some hook ↦ cast_chunk chunk_bytes (hook node_id chunk_index)
  | none ↦
      build_chunk_from_bytes chunk_bytes traits.id_byte_count traits.byte_msb_first node_id
        chunk_index
]

-- `CachedChunkId`: the 64-bit chunks.
abbrev pub CachedChunkId : Type 0
CachedChunkId = List ℕ

-- `CachedChunkIdTraits::byte_msb_first`
unfoldable pub cached_byte_msb_first : CachedChunkId → ℕ → ℕ
cached_byte_msb_first node_id byte_index =
    let chunk = get_or node_id (byte_index / 8) 0 in chunk / 2 ^ ((7 - byte_index % 8) * 8) % 2 ^ 8

-- `CachedChunkIdTraits::chunk_msb_first`
unfoldable pub cached_chunk_msb_first : ℕ → ℕ → CachedChunkId → ℕ → ℕ
unfolding build_chunk_from_bytes cached_byte_msb_first
cached_chunk_msb_first id_byte_count chunk_bytes node_id chunk_index =
    let chunk = get_or node_id (chunk_index / 2) 0 in
    if chunk_bytes == 8
    then get_or node_id chunk_index 0 % 2 ^ 64
    else if chunk_bytes == 4
    then (if chunk_index % 2 == 0 then chunk / 2 ^ 32 % 2 ^ 32 else chunk % 2 ^ 32)
    else build_chunk_from_bytes chunk_bytes id_byte_count cached_byte_msb_first node_id chunk_index

-- The widths that `ForestTraitsChunkAccess` admits.
abbrev pub is_chunk_width : ℕ → Bool
is_chunk_width chunk_bytes =
    chunk_bytes == 1 || chunk_bytes == 2 || chunk_bytes == 4 || chunk_bytes == 8

-- `CachedChunkIdTraits`: chunk access at each admitted width, and no comparison hook.
unfoldable pub cached_traits : {NodeId : Type 0} → IdTraits NodeId → IdTraits CachedChunkId
unfolding cached_byte_msb_first cached_chunk_msb_first
cached_traits original = record {
  id_byte_count = original.id_byte_count;
  byte_msb_first = cached_byte_msb_first;
  less = none;
  equal = none;
  is_parent_sentinel = none;
  chunk_msb_first = λ chunk_bytes.
      if is_chunk_width chunk_bytes
      then some (cached_chunk_msb_first original.id_byte_count chunk_bytes)
      else none;
}

-- `fillCachedChunkId`
unfoldable pub fill_cached_chunk_id :
    {NodeId : Type 0} → ℕ → IdTraits NodeId → NodeId → CachedChunkId
unfolding chunk_msb_first
fill_cached_chunk_id chunk_count traits node_id =
    map (chunk_msb_first cached_comparison_chunk_bytes traits node_id) (iota 0 chunk_count)
