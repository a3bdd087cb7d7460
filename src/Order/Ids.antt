-- ===== src/Order/Ids.antt =====
-- The permutation by identifier: the chunk sort of all indices, and the check for duplicates.
use forest_sorting.Prelude.{
  ℕ, ◌+◌, ◌-◌, ◌≤◌, ◌<◌, ◌≡◌, refl, ap, ◌∙◌, ◌⊎◌, inl, inr, List, [], ◌∷◌, append-nil, arith, leb,
  Bool-cases, length, length-iota, iota, leb→le, get_or, ◌^◌, ◌++◌, subst, sym,
}
use forest_sorting.Errors.{ok, throws, Error}
use forest_sorting.Traits.{IdTraits, Traits}
use forest_sorting.Radix.Partition.{CounterTraits, bitmask_touched_counts_up_to}
use forest_sorting.Ids.MsdChunks.{
  IdMsdChunkSortWorkspace, allocate, production_touched_count_max_range_size,
  production_id_radix_chunk_bytes, small_id_range_sort_threshold,
}
use forest_sorting.Ids.MsdChunks.Sort.{
  sort_index_range_by_id_msd_chunks, new_workspace,
  sort_index_range_by_id_msd_chunks_with_small_sorter,
}
use forest_sorting.Ids.Chunks.{id_chunk_count, cast_chunk, chunk_msb_first}
use forest_sorting.Stable.Unique.{short_sorted}
use forest_sorting.Ids.Chunks.Value.{id_value, IsLawful}
use forest_sorting.Ids.Compare.{should_cache_chunk_ids, id_equal}
use forest_sorting.Ids.Compare.Order.{id_equal_lem}
use forest_sorting.Ids.SmallSort.{stable_sort_index_range_small_linear}
use forest_sorting.Ids.SmallSort.Direct.{stable_sort_index_range_small_linear_direct}
use forest_sorting.Ids.SmallSort.Caching.{stable_sort_index_range_small_linear_cached}
use forest_sorting.Ids.Chunks.Value.{
  chunk_msb_first-lt, pow_256, pow_pos, all_chunks_value, digits_value,
}
use forest_sorting.Ids.MsdChunks.Digits.{Spells}
use forest_sorting.Ids.MsdChunks.Dispatch.{IsReady}
use forest_sorting.Ids.MsdChunks.Process.{allocate_lem}
use forest_sorting.Ids.MsdChunks.Runs.{chunk_range}
use forest_sorting.Ids.MsdChunks.Sorts.{sort_pending_lem}
use forest_sorting.Radix.Partition.Ranges.{LawfulTraits, bitmask_touched-LawfulTraits}
use mathlib.Core.Path.{fun_ext}
use native.Mathlib.Nat.{mod-eq_of_lt}
use forest_sorting.Order.{make_validated_global_id_permutation}
use forest_sorting.Order.Duplicates.{reject_adjacent_duplicates-IsSorted, length-having}
use forest_sorting.Stable.{having, stable_sort, stable_sort-IsStableSort}

module _ {NodeId : Type 0} (id_for_index : ℕ → NodeId) (traits : IdTraits NodeId)
    (lawful : IsLawful traits) where
  abbrev pub key : ℕ → ℕ
  key i = id_value traits (id_for_index i)

  small_range_sorted :
      (threshold : ℕ) (pre mid post : List ℕ)
      → 1 < length mid
      → length mid ≤ threshold
      → stable_sort_index_range_small_linear threshold
          (pre ++ (mid ++ post))
          id_for_index
          traits
          (length pre)
          (length pre + length mid)
        ≡ ok (pre ++ (stable_sort key mid ++ post))
  small_range_sorted threshold pre mid post more room =
      elim (Bool-cases (should_cache_chunk_ids traits)) [
        | inl e ↦
            stable_sort_index_range_small_linear_cached id_for_index traits lawful threshold pre mid
              post e more room
        | inr e ↦
            stable_sort_index_range_small_linear_direct id_for_index traits lawful threshold pre mid
              post e
      ]

  module _ (radix_chunk_bytes : ℕ) (pos : 0 < radix_chunk_bytes)
      (fits : radix_chunk_bytes ≤ 8) where
    abbrev count : ℕ
    count = id_chunk_count radix_chunk_bytes traits.id_byte_count

    abbrev extract : ℕ → ℕ → ℕ
    extract item_index chunk_index =
        cast_chunk radix_chunk_bytes
          (chunk_msb_first radix_chunk_bytes traits (id_for_index item_index) chunk_index)

    extract_whole : (i : ℕ) → extract i ≡ chunk_msb_first radix_chunk_bytes traits (id_for_index i)
    extract_whole i = fun_ext λ c. mod-eq_of_lt (
        omega (
          arith,
          chunk_msb_first-lt traits lawful radix_chunk_bytes (id_for_index i) c,
          pow_256 radix_chunk_bytes,
        ))

    -- The chunks spell the identifier, and zeros behind it.
    chunks-Spells : (pad : ℕ) × Spells (256 ^ radix_chunk_bytes) (256 ^ pad) count extract key
    chunks-Spells =
        let (pad, value) = all_chunks_value traits lawful radix_chunk_bytes pos fits in
        (
          pad,
          record {
            factor = pow_pos 256 pad (omega arith);
            small = λ i c.
                subst (λ f. f c < 256 ^ radix_chunk_bytes) (sym (extract_whole i))
                  (chunk_msb_first-lt traits lawful radix_chunk_bytes (id_for_index i) c);
            value = λ i.
                ap (λ f. digits_value (256 ^ radix_chunk_bytes) f 0 count) (extract_whole i)
                ∙ value (id_for_index i);
          },
        )

    -- For lawful traits, a lawful policy of the histogram and chunks of one to eight bytes,
    -- `sortIndexRangeByIdMsdChunks` returns within its rounds, with the range sorted stably by the whole
    -- identifiers and the rest of the vector kept, whatever the threshold of the small sorter is. The
    -- workspace has arrays of its capacity and a clean histogram.
    pub sort_index_range_by_id_msd_chunks-sorts :
        {Scratch : Type 0} (policy : CounterTraits Scratch) (lawful_policy : LawfulTraits policy)
        (small_threshold : ℕ) (pre mid post : List ℕ) (workspace : IdMsdChunkSortWorkspace Scratch)
        → IsReady policy lawful_policy workspace
        → (after : IdMsdChunkSortWorkspace Scratch) × (sort_index_range_by_id_msd_chunks
              radix_chunk_bytes policy small_threshold id_for_index traits
              (pre ++ (mid ++ post))
              (length pre)
              (length pre + length mid)
              0
              workspace
            ≡ ok (pre ++ (stable_sort key mid ++ post), after))
    unfolding sort_index_range_by_id_msd_chunks sort_index_range_by_id_msd_chunks_with_small_sorter
    sort_index_range_by_id_msd_chunks-sorts policy lawful_policy small_threshold pre mid post
          workspace ready =
        let size : length pre + length mid - length pre ≡ length mid = omega arith in
        let all : count - 0 ≡ count = omega arith in
        let range = chunk_range (length pre) (length pre + length mid) 0 in
        let (ready', room, kept) = allocate_lem policy lawful_policy (length mid) workspace ready in
        let allocated = allocate (length mid) workspace in
        let pushed = record allocated { pending = range ∷ [] } in
        let (pad, spells) = chunks-Spells in
        let (after, done) =
          sort_pending_lem radix_chunk_bytes policy lawful_policy small_threshold count extract
            (λ sort_order sort_begin sort_end.
              stable_sort_index_range_small_linear small_threshold sort_order id_for_index traits
                sort_begin sort_end)
            (256 ^ pad) key spells (small_range_sorted small_threshold) pre mid post pushed
            (record {
              current_room = ready'.current_room;
              next_room = ready'.next_room;
              clean = ready'.clean;
            }) in
        elim (Bool-cases (leb (length mid) 1)) [
          | inl short ↦ (
            allocated,
            rw
                (
                  sort_index_range_by_id_msd_chunks_with_small_sorter,
                  size,
                  short,
                  short_sorted key mid (leb→le (length mid) 1 short),
                )
                refl,
          )
          | inr more ↦ (
            after,
            rw (sort_index_range_by_id_msd_chunks_with_small_sorter, size, all, more) done,
          )
        ]

-- All of a vector, in a workspace as it is declared.
whole_sorted :
    {NodeId Scratch : Type 0} (id_for_index : ℕ → NodeId) (traits : IdTraits NodeId)
    (lawful : IsLawful traits) (policy : CounterTraits Scratch)
    (lawful_policy : LawfulTraits policy) (order : List ℕ)
    → (after : IdMsdChunkSortWorkspace Scratch) × (sort_index_range_by_id_msd_chunks
          production_id_radix_chunk_bytes policy small_id_range_sort_threshold id_for_index traits
          order 0
          (length order)
          0
          (new_workspace policy)
        ≡ ok (stable_sort (key id_for_index traits lawful) order, after))
whole_sorted id_for_index traits lawful policy lawful_policy order =
    let (after, sorted) =
      sort_index_range_by_id_msd_chunks-sorts id_for_index traits lawful
        production_id_radix_chunk_bytes (omega arith) (omega arith) policy lawful_policy
        small_id_range_sort_threshold [] order [] (new_workspace policy)
        (record {
          current_room = omega arith;
          next_room = omega arith;
          clean = lawful_policy.new_clean;
        }) in
    let sort = λ (range_end : ℕ).
      sort_index_range_by_id_msd_chunks production_id_radix_chunk_bytes policy
        small_id_range_sort_threshold id_for_index traits order 0 range_end 0
        (new_workspace policy) in
    (
      after,
      ap sort (omega arith)
          ∙ (rw (append-nil order, append-nil (stable_sort (key id_for_index traits lawful) order))
              at sorted),
    )

-- The nodes of a forest by the numbers that their identifiers spell.
module _ {Node NodeId : Type 0} (traits : Traits Node NodeId) (blank : Node)
    (nodes : List Node) where
  abbrev pub node_id_value : ℕ → ℕ
  node_id_value i = id_value traits.ids (traits.id (get_or nodes i blank))

  abbrev pub indices : List ℕ
  indices = iota 0 (length nodes)

  -- `makeValidatedGlobalIdPermutation` returns the indices sorted by identifier, where no
  -- identifier stands twice, and else throws.
  pub make_validated_global_id_permutation-sorts :
      IsLawful traits.ids
      → ((make_validated_global_id_permutation traits blank nodes
            ≡ ok (stable_sort node_id_value indices))
          × ((k : ℕ) → length (having node_id_value k indices) ≤ 1))
        ⊎ ((make_validated_global_id_permutation traits blank nodes
              ≡ throws Error.duplicate_node_id)
            × ((k : ℕ) × (2 ≤ length (having node_id_value k indices))))
  unfolding make_validated_global_id_permutation
  make_validated_global_id_permutation-sorts lawful =
      let id_for_index = λ (node_index : ℕ). traits.id (get_or nodes node_index blank) in
      let equal = λ (lhs_index : ℕ) (rhs_index : ℕ).
        id_equal traits.ids (id_for_index lhs_index) (id_for_index rhs_index) in
      let size = length-iota 0 (length nodes) in
      let policy = bitmask_touched_counts_up_to production_touched_count_max_range_size in
      let order = stable_sort-IsStableSort node_id_value indices in
      let same = λ (k : ℕ). ap (length {A = ℕ}) (order.stable k) in
      elim (Bool-cases (leb (length indices) 1)) [
        | inl e ↦ inl (
          rw (e, short_sorted node_id_value indices (leb→le (length indices) 1 e)) refl,
          λ k. omega (arith, leb→le (length indices) 1 e, length-having node_id_value k indices),
        )
        | inr e ↦
            let (after, sorted) =
              whole_sorted id_for_index traits.ids lawful policy
                (bitmask_touched-LawfulTraits production_touched_count_max_range_size) indices in
            elim (reject_adjacent_duplicates-IsSorted node_id_value equal
              (λ i j. id_equal_lem traits.ids lawful (id_for_index i) (id_for_index j))
              Error.duplicate_node_id (stable_sort node_id_value indices) order.sorted) [
                | inl (fine, single) ↦
                    inl (rw (e, sorted, fine) refl, λ k. omega (arith, same k, single k))
                | inr (bad, (k, twice)) ↦
                    inr (rw (e, sorted, bad) refl, (k, omega (arith, same k, twice)))
              ]
      ]
