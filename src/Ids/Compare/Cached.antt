-- ===== src/Ids/Compare/Cached.antt =====
-- Cached identifiers compare as the identifiers that they were filled from.
use forest_sorting.Ids.Compare.Order.{
  compare_chunk_sequence_lem, compare_chunks_from_lem, sign_of_scale,
}
use forest_sorting.Prelude.{
  ℕ, zero, suc, ◌+◌, ◌^◌, ◌<◌, ◌≡◌, ap, ap₂, ◌∙◌, List, [], ◌∷◌, map, arith, get_or, All, iota,
  length-iota, get_or-map,
}
use forest_sorting.Traits.{IdTraits}
use forest_sorting.Ids.Chunks.{
  id_chunk_count, chunk_msb_first, cached_comparison_chunk_bytes, fill_cached_chunk_id,
  CachedChunkId,
}
use forest_sorting.Ids.Chunks.Value.{
  IsLawful, pow_pos, digits_value, digits_value_cong, chunk_msb_first-lt, id_value,
  all_chunks_value,
}
use forest_sorting.Ids.Compare.{compare_cached_id_chunks}
use forest_sorting.Ids.Compare.Order.{sign_of, compare_chunk_sequence_lem}

get_or-iota : (i n j : ℕ) → j < n → get_or (iota i n) j 0 ≡ i + j
get_or-iota i zero j h = absurd (omega arith)
get_or-iota i (suc n) zero h = omega arith
get_or-iota i (suc n) (suc j) h = omega (arith, get_or-iota (suc i) n j (omega arith))

get_or_small : (b : ℕ) (l : List ℕ) (i : ℕ) → 0 < b → All (λ v. v < b) l → get_or l i 0 < b
get_or_small b [] i pos a = pos
get_or_small b (x ∷ l) zero pos a = a.0
get_or_small b (x ∷ l) (suc i) pos a = get_or_small b l i pos a.1

map_small : (b : ℕ) (f : ℕ → ℕ) (l : List ℕ) → ((i : ℕ) → f i < b) → All (λ v. v < b) (map f l)
map_small b f [] h = tt
map_small b f (x ∷ l) h = (h x, map_small b f l h)

module _ {NodeId : Type 0} (traits : IdTraits NodeId) (lawful : IsLawful traits) where
  abbrev pub chunk_count_of : ℕ
  chunk_count_of = id_chunk_count cached_comparison_chunk_bytes traits.id_byte_count

  abbrev pub cached : NodeId → CachedChunkId
  cached x = fill_cached_chunk_id chunk_count_of traits x

  cached_digits :
      (x : NodeId)
      → digits_value (256 ^ 8) (λ i. get_or (cached x) i 0) 0 chunk_count_of
        ≡ digits_value (256 ^ 8) (chunk_msb_first 8 traits x) 0 chunk_count_of
  unfolding fill_cached_chunk_id
  cached_digits x =
      digits_value_cong (256 ^ 8) (λ i. get_or (cached x) i 0) (chunk_msb_first 8 traits x) 0
        chunk_count_of
        (λ i lo hi.
          get_or-map (chunk_msb_first 8 traits x) (iota 0 chunk_count_of) i 0 0
            (omega (arith, length-iota 0 chunk_count_of))
          ∙ ap (chunk_msb_first 8 traits x)
              (get_or-iota 0 chunk_count_of i (omega arith) ∙ omega arith))

  cached_small : (x : NodeId) (i : ℕ) → get_or (cached x) i 0 < 256 ^ 8
  unfolding fill_cached_chunk_id
  cached_small x i = get_or_small (256 ^ 8) (cached x) i (pow_pos 256 8 (omega arith)) (
      map_small (256 ^ 8) (chunk_msb_first 8 traits x) (iota 0 chunk_count_of)
        (chunk_msb_first-lt traits lawful 8 x))

  -- For lawful traits `compareCachedIdChunks` on identifiers that `fillCachedChunkId` filled is the
  -- comparison of the numbers that the original bytes spell.
  pub compare_cached_id_chunks_lem :
      (x y : NodeId)
      → compare_cached_id_chunks chunk_count_of (cached x) (cached y)
        ≡ sign_of (id_value traits x) (id_value traits y)
  unfolding compare_cached_id_chunks
  compare_cached_id_chunks_lem x y =
      let (pad, value) = all_chunks_value traits lawful 8 (omega arith) (omega arith) in
      compare_chunk_sequence_lem chunk_count_of (λ i. get_or (cached x) i 0)
        (λ i. get_or (cached y) i 0)
      ∙ compare_chunks_from_lem (256 ^ 8) (λ i. get_or (cached x) i 0) (λ i. get_or (cached y) i 0)
          (cached_small x) (cached_small y) chunk_count_of 0
      ∙ ap₂ sign_of (cached_digits x ∙ value x) (cached_digits y ∙ value y)
      ∙ sign_of_scale (256 ^ pad) (id_value traits x) (id_value traits y)
          (pow_pos 256 pad (omega arith))
