-- ===== src/Uint128/Tests.antt =====
-- 128-bit identifiers at concrete inputs.
use forest_sorting.Errors.{ok, throws, Error, ◌>>=◌}
use forest_sorting.Prelude.{
  ◌++◌, get_or, ◌+◌, ◌*◌, ◌^◌, ◌≡◌, refl, [], ◌∷◌, arith, List, ℕ, length, if◌then◌else◌, ◌==◌,
  iota, ◌⊎◌, ◌≤◌,
}
use forest_sorting.Uint128.{
  uint128_traits, high_word, cast_uint128, to_hex, make_id, hex_digits, UInt128, low_word, padded,
  Node, uint128_node_traits, blank_node,
}
use forest_sorting.Uint128.Hex.{read_hex, read_hex-to_hex}
use forest_sorting.Uint128.Bytes.{make_id-words, uint128_traits-IsLawful}
use forest_sorting.Algorithms.{sorted_order_by_depth_and_id_with_depths}
use forest_sorting.Depth.{validate_precomputed_depth_input}
use forest_sorting.Order.{make_validated_global_id_permutation}
use forest_sorting.Stable.{stable_sort, having}
use forest_sorting.Grouping.Dense.Sorts.{depth_of}
use forest_sorting.Algorithms.Sorts.{depth_and_id, sorted_order_by_depth_and_id_with_depths-sorts}
use forest_sorting.Ids.Chunks.Value.{IsLawful}
use forest_sorting.Radix.Counts.{FullClearCountScratch}
use forest_sorting.Radix.Partition.{full_clear_counts}
use forest_sorting.Radix.Partition.Ranges.{full_clear-LawfulTraits}
use forest_sorting.Ids.MsdChunks.{IdMsdChunkSortWorkspace}
use forest_sorting.Ids.MsdChunks.Sort.{sort_index_range_by_id_msd_chunks, new_workspace}
use forest_sorting.Order.Ids.{key, sort_index_range_by_id_msd_chunks-sorts, node_id_value}
use forest_sorting.Algorithms.Supplied.{sorted_order_by_depth_and_id_with_depths_lem}

abbrev wide_id : UInt128
unfolding cast_uint128
wide_id = cast_uint128 (0xAB * 2 ^ 64 + 0x2C)

read_hex-to_hex_example : read_hex 0 (to_hex wide_id) ≡ wide_id.value
read_hex-to_hex_example = read_hex-to_hex wide_id

make_id-words_example :
    (high_word (make_id 0xAB 0x2C) ≡ 0xAB) × (low_word (make_id 0xAB 0x2C) ≡ 0x2C)
make_id-words_example = make_id-words 0xAB 0x2C (omega arith) (omega arith)

wide_id_digits :
    to_hex wide_id
    ≡ 0xA ∷ 0xB ∷ 0 ∷ 0 ∷ 0 ∷ 0 ∷ 0 ∷ 0 ∷ 0 ∷ 0 ∷ 0 ∷ 0 ∷ 0 ∷ 0 ∷ 0 ∷ 0 ∷ 2 ∷ 0xC ∷ []
unfolding to_hex hex_digits padded high_word low_word wide_id
wide_id_digits = refl

abbrev two_nodes : List Node
two_nodes =
    record { id = make_id 0 9; parent_id = make_id 0 0 }
    ∷ record { id = make_id 0 4; parent_id = make_id 0 9 }
    ∷ []

abbrev two_depths : List ℕ
two_depths = 0 ∷ 1 ∷ []

sorted_order_by_depth_and_id_with_depths_lem_example :
    sorted_order_by_depth_and_id_with_depths uint128_node_traits blank_node two_nodes two_depths ≡ (
      validate_precomputed_depth_input (length two_nodes) two_depths >>= λ m.
      (if length two_nodes == 0
        then ok []
        else (make_validated_global_id_permutation uint128_node_traits blank_node two_nodes
            >>= λ id_permutation. ok (stable_sort (depth_of two_depths) id_permutation))))
sorted_order_by_depth_and_id_with_depths_lem_example =
    sorted_order_by_depth_and_id_with_depths_lem uint128_node_traits blank_node two_nodes two_depths

uint128_node_traits-IsLawful : IsLawful uint128_node_traits.ids
unfolding uint128_node_traits
uint128_node_traits-IsLawful = uint128_traits-IsLawful

sorted_order_by_depth_and_id_with_depths-sorts_example :
    ((sorted_order_by_depth_and_id_with_depths uint128_node_traits blank_node two_nodes two_depths
        ≡ ok (
            stable_sort
              (depth_and_id uint128_node_traits blank_node two_nodes two_depths)
              (iota 0 (length two_nodes))))
      × ((k : ℕ)
          → length (
              having
                (node_id_value uint128_node_traits blank_node two_nodes)
                k
                (iota 0 (length two_nodes)))
            ≤ 1))
    ⊎ ((sorted_order_by_depth_and_id_with_depths uint128_node_traits blank_node two_nodes two_depths
          ≡ throws Error.duplicate_node_id)
        × ((k : ℕ) × (2
              ≤ length (
                  having
                    (node_id_value uint128_node_traits blank_node two_nodes)
                    k
                    (iota 0 (length two_nodes))))))
sorted_order_by_depth_and_id_with_depths-sorts_example =
    sorted_order_by_depth_and_id_with_depths-sorts uint128_node_traits blank_node
      uint128_node_traits-IsLawful two_nodes two_depths refl (omega arith, (omega arith, tt))

abbrev id_at : ℕ → UInt128
id_at i = (get_or two_nodes i blank_node).id

sort_index_range_by_id_msd_chunks-sorts_example :
    (after : IdMsdChunkSortWorkspace FullClearCountScratch) × (sort_index_range_by_id_msd_chunks 4
        full_clear_counts 0 id_at uint128_traits
        (7 ∷ 0 ∷ 1 ∷ 9 ∷ [])
        1
        3
        0
        (new_workspace full_clear_counts)
      ≡ ok (
        (7 ∷ [])
            ++ (stable_sort (key id_at uint128_traits uint128_traits-IsLawful) (0 ∷ 1 ∷ [])
                ++ 9 ∷ []),
        after,
      ))
sort_index_range_by_id_msd_chunks-sorts_example =
    sort_index_range_by_id_msd_chunks-sorts id_at uint128_traits uint128_traits-IsLawful 4
      (omega arith) (omega arith) full_clear_counts full_clear-LawfulTraits 0 (7 ∷ []) (0 ∷ 1 ∷ [])
      (9 ∷ []) (new_workspace full_clear_counts)
      (record {
        current_room = omega arith;
        next_room = omega arith;
        clean = full_clear-LawfulTraits.new_clean;
      })
