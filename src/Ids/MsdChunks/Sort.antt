-- ===== src/Ids/MsdChunks/Sort.antt =====
-- One range of the identifier sort and the loop over the pending ranges: `processIdMsdChunkRange`,
-- `sortIndexRangeByIdMsdChunksWithSmallSorter` and `sortIndexRangeByIdMsdChunks`. The terminal range
-- observer, which changes nothing, is left out.
use forest_sorting.Prelude.{
  ℕ, zero, suc, ◌+◌, ◌-◌, ◌*◌, Bool, not, ◌||◌, List, [], ◌∷◌, ltb, leb, ◌==◌, if◌then◌else◌,
}
use forest_sorting.Traits.{IdTraits}
use forest_sorting.Radix.Partition.{CounterTraits}
use forest_sorting.Ids.MsdChunks.{
  IdMsdChunkSortWorkspace, allocate, IdMsdChunkRange, dispatch_lsd_sort_pre_filled, fill_entries,
  push_equal_chunks,
}
use forest_sorting.Errors.{Result, ◌>>=◌}
use forest_sorting.Ids.Chunks.{id_chunk_count, cast_chunk}
use forest_sorting.Ids.SmallSort.{stable_sort_index_range_small_linear}
use forest_sorting.Errors.{ok, throws, Error, ◌>>=◌}
use forest_sorting.Ids.Chunks.{chunk_msb_first}

module _ {Scratch : Type 0} (radix_chunk_bytes : ℕ) (policy : CounterTraits Scratch)
    (small_threshold : ℕ) (chunk_count : ℕ) (extract_chunk : ℕ → ℕ → ℕ)
    (small_range_sorter : List ℕ → ℕ → ℕ → Result (List ℕ)) where
  -- The radix step on entries that are loaded, and whose chunks differ.
  unfoldable pub sort_loaded_range :
      List ℕ
      → ℕ
      → ℕ
      → Bool
      → ℕ
      → IdMsdChunkSortWorkspace Scratch
      → List ℕ × IdMsdChunkSortWorkspace Scratch
  sort_loaded_range order range_begin range_end has_next_range next_chunk_index workspace =
      let (order', sorted_chunks, workspace') =
        dispatch_lsd_sort_pre_filled radix_chunk_bytes policy order range_begin range_end
          workspace in
      if not has_next_range then (order', workspace') else (
        order',
        record workspace' {
          pending =
              push_equal_chunks sorted_chunks range_begin range_end (range_end - range_begin)
                next_chunk_index workspace'.pending;
        },
      )

  -- `processIdMsdChunkRange`, of the chunk at `chunk_index`; the next ranges have the one behind it.
  unfoldable pub process_id_msd_chunk_range :
      List ℕ
      → ℕ
      → ℕ
      → ℕ
      → IdMsdChunkSortWorkspace Scratch
      → Result (List ℕ × IdMsdChunkSortWorkspace Scratch)
  process_id_msd_chunk_range order range_begin range_end chunk_index workspace =
      let range_size = range_end - range_begin in
      let next_chunk_index = chunk_index + 1 in
      let has_next_range = ltb next_chunk_index chunk_count in
      let allocated = allocate range_size workspace in
      let (entries, first_chunk, differing_bits) =
        fill_entries (λ item_index. extract_chunk item_index chunk_index) order range_begin
          range_size allocated.current in
      let loaded = record allocated { current = entries } in
      if leb range_size 1
      then ok (order, workspace)
      else if leb range_size small_threshold
      then (small_range_sorter order range_begin range_end >>= λ order'. ok (order', workspace))
      else if differing_bits == 0
      then ok (
        order,
        (if has_next_range
            then record loaded {
              pending =
                  record { begin = range_begin; end = range_end; chunk_index = next_chunk_index }
                  ∷ loaded.pending;
            }
            else loaded),
      )
      else ok (sort_loaded_range order range_begin range_end has_next_range next_chunk_index loaded)

  -- The loop, with fuel. A pending range is taken off before it is processed.
  unfoldable pub sort_pending :
      ℕ
      → List IdMsdChunkRange
      → List ℕ
      → IdMsdChunkSortWorkspace Scratch
      → Result (List ℕ × IdMsdChunkSortWorkspace Scratch)
  sort_pending rounds [] order workspace = ok (order, workspace)
  sort_pending zero (range ∷ pending) order workspace = throws Error.out_of_fuel
  sort_pending (suc rounds) (range ∷ pending) order workspace =
      let skipped = sort_pending rounds pending order (record workspace { pending = pending }) in
      if leb (range.end - range.begin) 1 || leb chunk_count range.chunk_index
      then skipped
      else (process_id_msd_chunk_range order range.begin range.end range.chunk_index
            (record workspace { pending = pending })
          >>= λ (order', workspace'). sort_pending rounds workspace'.pending order' workspace')

module _ {Scratch NodeId : Type 0} (radix_chunk_bytes : ℕ) (policy : CounterTraits Scratch)
    (small_threshold : ℕ) (id_for_index : ℕ → NodeId) (traits : IdTraits NodeId) where
  -- `sortIndexRangeByIdMsdChunksWithSmallSorter`, with a round for the range and one for each index and
  -- chunk.
  unfoldable pub sort_index_range_by_id_msd_chunks_with_small_sorter :
      (List ℕ → ℕ → ℕ → Result (List ℕ))
      → List ℕ
      → ℕ
      → ℕ
      → ℕ
      → IdMsdChunkSortWorkspace Scratch
      → Result (List ℕ × IdMsdChunkSortWorkspace Scratch)
  sort_index_range_by_id_msd_chunks_with_small_sorter small_range_sorter order range_begin range_end
        chunk_index workspace =
      let initial_range_size = range_end - range_begin in
      let chunk_count = id_chunk_count radix_chunk_bytes traits.id_byte_count in
      let first : IdMsdChunkRange = record {
        begin = range_begin;
        end = range_end;
        chunk_index = chunk_index;
      } in
      let extract_chunk = λ (item_index : ℕ) (current_chunk_index : ℕ).
        cast_chunk radix_chunk_bytes (
          chunk_msb_first radix_chunk_bytes traits (id_for_index item_index) current_chunk_index) in
      if leb initial_range_size 1
      then ok (order, workspace)
      else sort_pending radix_chunk_bytes policy small_threshold chunk_count extract_chunk
          small_range_sorter (1 + initial_range_size * (chunk_count - chunk_index)) (first ∷ [])
          order (record workspace { pending = first ∷ [] })

  -- `sortIndexRangeByIdMsdChunks`
  unfoldable pub sort_index_range_by_id_msd_chunks :
      List ℕ
      → ℕ
      → ℕ
      → ℕ
      → IdMsdChunkSortWorkspace Scratch
      → Result (List ℕ × IdMsdChunkSortWorkspace Scratch)
  sort_index_range_by_id_msd_chunks order range_begin range_end chunk_index workspace =
      sort_index_range_by_id_msd_chunks_with_small_sorter
        (λ sort_order sort_begin sort_end.
          stable_sort_index_range_small_linear small_threshold sort_order id_for_index traits
            sort_begin sort_end)
        order range_begin range_end chunk_index (allocate (range_end - range_begin) workspace)

-- A workspace as it is declared.
abbrev pub new_workspace :
    {Scratch : Type 0} → CounterTraits Scratch → IdMsdChunkSortWorkspace Scratch
new_workspace policy = record {
  pending = [];
  current = [];
  next = [];
  capacity = 0;
  touched_scratch = policy.new_scratch;
}
