-- ===== src/Depth.antt =====
-- Depths of a forest (include/forest_sorting/detail/depth.hpp): widths, the checks on supplied
-- depths, and the casts to a narrower width.
pub mod Compute
pub mod Verify
pub mod Supplied
use forest_sorting.Prelude.{
  ℕ, zero, suc, ◌+◌, ◌-◌, ◌*◌, ◌/◌, ◌%◌, ◌^◌, ◌≤◌, ◌<◌, max, min, ◌≡◌, refl, sym, ap, ap₂, subst,
  ◌∙◌, ◌≢◌, ◌↔◌, ◌⊎◌, inl, inr, Bool, true, false, not, ◌&&◌, ◌||◌, Option, none, some, List, [],
  ◌∷◌, ◌++◌, map, append-nil, append_assoc, arith, ltb, leb, ◌==◌, if◌then◌else◌, Bool-cases,
  Option-cases, ltb→lt, ltb→le, lt→ltb, le→ltb, leb→le, leb→lt, le→leb, lt→leb, ==→≡, ==→≢, ==_refl,
  ≡→==, ≢→==, length, get_or, set, replicate, take, drop, All, iota, length-iota, length-append,
  length-set, length-replicate, length-take, length-drop, take-append-drop, get_or-set_self,
  get_or-set_ne, get_or-replicate, get_or-append_at, set-append_at, get_or-append_left, get_or_ext,
  All-get_or, All-of, All-append, All-map, length-map,
}
use forest_sorting.Errors.{Result, ok, throws, Error, require_matching_count, ◌>>=◌, ◌>>◌}

-- `DepthVisitState`
pub data DepthVisitState : Type 0 where
  unvisited visiting complete : DepthVisitState

-- The bits of `DepthValue<DepthPrefixBytes>`: uint8_t, uint16_t and else uint32_t.
unfoldable pub depth_value_bits : ℕ → ℕ
depth_value_bits prefix_bytes =
    if prefix_bytes == 1 then 8 else if prefix_bytes == 2 then 16 else 32

-- A cast to `DepthValue<DepthPrefixBytes>`.
unfoldable pub cast_depth : ℕ → ℕ → ℕ
cast_depth prefix_bytes value = value % 2 ^ depth_value_bits prefix_bytes

-- `maxDepthForPrefix`
unfoldable pub max_depth_for_prefix : ℕ → ℕ
max_depth_for_prefix prefix_bytes =
    if prefix_bytes == 1
    then 0xFF
    else if prefix_bytes == 2
    then 0xFFFF
    else if prefix_bytes == 3
    then 0xFFFFFF
    else 2 ^ 32 - 1

-- `depthPrefixBytesForMax`
unfoldable pub depth_prefix_bytes_for_max : ℕ → ℕ
unfolding max_depth_for_prefix
depth_prefix_bytes_for_max maximum_depth =
    if leb maximum_depth (max_depth_for_prefix 1)
    then 1
    else if leb maximum_depth (max_depth_for_prefix 2)
    then 2
    else if leb maximum_depth (max_depth_for_prefix 3)
    then 3
    else 4

-- The loop of `validatePrecomputedDepthInput`; the depths are of any unsigned type.
unfoldable pub observe_depths : List ℕ → ℕ → Result ℕ
observe_depths [] observed_max = ok observed_max
observe_depths (depth ∷ depths) observed_max =
    let rest = observe_depths depths (max observed_max (depth % 2 ^ 32)) in
    if ltb (2 ^ 32 - 1) depth then throws Error.depth_limit else rest

-- `validatePrecomputedDepthInput`
unfoldable pub validate_precomputed_depth_input : ℕ → List ℕ → Result ℕ
unfolding observe_depths require_matching_count
validate_precomputed_depth_input node_count depths = do
  require_matching_count (length depths) node_count Error.depth_count_mismatch
  observe_depths depths 0

-- `narrowIndexedDepths` and `narrowDepths`: each value is cast.
unfoldable pub narrow_depths : ℕ → List ℕ → List ℕ
unfolding cast_depth
narrow_depths prefix_bytes depths = map (cast_depth prefix_bytes) depths
