-- ===== src/Ids/SmallSort.antt =====
-- The insertion sort of small ranges: include/forest_sorting/detail/id_small_sort.hpp, with the
-- loops of detail/id_radix.hpp that use it.
pub mod Insertion
pub mod Direct
pub mod Caching
use forest_sorting.Prelude.{
  ℕ, zero, suc, ◌+◌, ◌-◌, ◌*◌, ◌/◌, ◌%◌, ◌^◌, ◌≤◌, ◌<◌, max, min, ◌≡◌, refl, sym, ap, ap₂, subst,
  ◌∙◌, ◌≢◌, ◌↔◌, ◌⊎◌, inl, inr, Bool, true, false, not, ◌&&◌, ◌||◌, Option, none, some, List, [],
  ◌∷◌, ◌++◌, map, append-nil, append_assoc, arith, ltb, leb, ◌==◌, if◌then◌else◌, Bool-cases,
  Option-cases, ltb→lt, ltb→le, lt→ltb, le→ltb, leb→le, leb→lt, le→leb, lt→leb, ==→≡, ==→≢, ==_refl,
  ≡→==, ≢→==, length, get_or, set, replicate, take, drop, All, iota, length-iota, length-append,
  length-set, length-replicate, length-take, length-drop, take-append-drop, get_or-set_self,
  get_or-set_ne, get_or-replicate, get_or-append_at, set-append_at, get_or-append_left, get_or_ext,
  All-get_or, All-of, All-append, All-map, length-map,
}
use forest_sorting.Loops.{for_range}
use forest_sorting.Errors.{Result, ok, throws, Error, ◌>>=◌, ◌>>◌}
use forest_sorting.Traits.{IdTraits}
use forest_sorting.Ids.Chunks.{
  id_chunk_count, cached_comparison_chunk_bytes, CachedChunkId, fill_cached_chunk_id,
}
use forest_sorting.Ids.Compare.{compare_cached_id_chunks, Sign, id_less, should_cache_chunk_ids}

-- What an accessor class offers. It refers to the vector that the sort changes, so each operation
-- that reads the vector takes it as it is then. `Keys` is the accessor's own state.
pub record KeyAccessor (Keys : Type 0) : Type 0 where
  pub save : List ℕ → ℕ → Keys → Keys
  pub is_less_or_equal : List ℕ → ℕ → Keys → Bool
  pub move : ℕ → ℕ → Keys → Keys
  pub write_saved : ℕ → Keys → Keys

-- The state of `CachedKeyAccessor`.
pub record CachedKeys : Type 0 where
  pub id_chunks : List CachedChunkId
  pub saved_id : CachedChunkId

-- `cmp <= 0`
abbrev pub is_not_positive : Sign → Bool
is_not_positive Sign.positive = false
is_not_positive _ = true

module _ {NodeId : Type 0} (id_for_index : ℕ → NodeId) (traits : IdTraits NodeId)
    (range_begin : ℕ) where
  -- `DirectKeyAccessor`
  unfoldable pub direct_accessor : KeyAccessor NodeId
  unfolding id_less
  direct_accessor = record {
    save = λ order local_idx saved. id_for_index (get_or order (range_begin + local_idx) 0);
    is_less_or_equal = λ order other_local_idx saved.
        not (id_less traits saved (id_for_index (get_or order (range_begin + other_local_idx) 0)));
    move = λ src dest saved. saved;
    write_saved = λ dest saved. saved;
  }

  -- `CachedKeyAccessor::initialize`
  unfoldable pub initialize_cached : ℕ → List ℕ → CachedKeys → CachedKeys
  unfolding fill_cached_chunk_id
  initialize_cached key_count order keys =
      let chunk_count = id_chunk_count cached_comparison_chunk_bytes traits.id_byte_count in
      record keys {
        id_chunks =
            for_range key_count 0
              (λ offset chunks. set chunks offset (
                fill_cached_chunk_id chunk_count traits
                  (id_for_index (get_or order (range_begin + offset) 0))))
              keys.id_chunks;
      }

  -- `CachedKeyAccessor`
  unfoldable pub cached_accessor : KeyAccessor CachedKeys
  unfolding compare_cached_id_chunks
  cached_accessor =
      let chunk_count = id_chunk_count cached_comparison_chunk_bytes traits.id_byte_count in
      record {
        save =
            λ order local_idx keys. record keys { saved_id = get_or keys.id_chunks local_idx [] };
        is_less_or_equal = λ order other_local_idx keys. is_not_positive (
            compare_cached_id_chunks chunk_count (get_or keys.id_chunks other_local_idx [])
              keys.saved_id);
        move = λ src dest keys. record keys {
          id_chunks = set keys.id_chunks dest (get_or keys.id_chunks src []);
        };
        write_saved =
            λ dest keys. record keys { id_chunks = set keys.id_chunks dest keys.saved_id };
      }

module _ {Keys : Type 0} (accessor : KeyAccessor Keys) (range_begin : ℕ) where
  -- The inner `for`, with `innerIdx` at `range_begin` plus its argument: the vector, the accessor and
  -- the local position where it stops.
  unfoldable pub shift_back : ℕ → List ℕ → Keys → List ℕ × Keys × ℕ
  shift_back zero order keys = (order, keys, zero)
  shift_back (suc previous_local_idx) order keys =
      let inner_idx = range_begin + suc previous_local_idx in
      let order' = set order inner_idx (get_or order (range_begin + previous_local_idx) 0) in
      let keys' = accessor.move previous_local_idx (suc previous_local_idx) keys in
      let further = shift_back previous_local_idx order' keys' in
      if accessor.is_less_or_equal order previous_local_idx keys
      then (order, keys, suc previous_local_idx)
      else further

  -- The body of the outer `for`.
  unfoldable pub insert_item : ℕ → List ℕ × Keys → List ℕ × Keys
  unfolding shift_back
  insert_item local_idx (order, keys) =
      let item_index = get_or order (range_begin + local_idx) 0 in
      let (order', keys', place) =
        shift_back local_idx order (accessor.save order local_idx keys) in
      (set order' (range_begin + place) item_index, accessor.write_saved place keys')

  -- `stableSortIndexRangeSmallLinearInternal` on a range of so many entries.
  unfoldable pub stable_sort_index_range_small_linear_internal : ℕ → List ℕ → Keys → List ℕ × Keys
  unfolding insert_item for_range
  stable_sort_index_range_small_linear_internal range_size order keys =
      for_range (range_size - 1) 1 insert_item (order, keys)

-- `requireFixedSmallSortCapacity`
unfoldable pub require_fixed_small_sort_capacity : ℕ → ℕ → Result (Unit {0})
require_fixed_small_sort_capacity max_range_size range_size =
    if ltb max_range_size range_size then throws Error.small_sort_capacity else ok tt

-- `stableSortIndexRangeSmallLinear`, through `withFixedSmallSortAccessor`.
unfoldable pub stable_sort_index_range_small_linear :
    {NodeId : Type 0} → ℕ → List ℕ → (ℕ → NodeId) → IdTraits NodeId → ℕ → ℕ → Result (List ℕ)
unfolding direct_accessor cached_accessor initialize_cached require_fixed_small_sort_capacity
    should_cache_chunk_ids stable_sort_index_range_small_linear_internal
stable_sort_index_range_small_linear max_range_size order id_for_index traits range_begin
      range_end =
    let range_size = range_end - range_begin in
    let start : CachedKeys = record { id_chunks = replicate max_range_size []; saved_id = [] } in
    let cached_keys = initialize_cached id_for_index traits range_begin range_size order start in
    let cached =
      require_fixed_small_sort_capacity max_range_size range_size
      >> ok
          (stable_sort_index_range_small_linear_internal
            (cached_accessor id_for_index traits range_begin) range_begin range_size order
            cached_keys).0 in
    let direct =
      ok
        (stable_sort_index_range_small_linear_internal
          (direct_accessor id_for_index traits range_begin) range_begin range_size order
          (id_for_index (get_or order range_begin 0))).0 in
    if leb range_size 1 then ok order else if should_cache_chunk_ids traits then cached else direct
