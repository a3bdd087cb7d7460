-- ===== src/Parents.antt =====
-- The parent index (include/forest_sorting/detail/parent_index.hpp).
pub mod Join
pub mod Build
use forest_sorting.Prelude.{
  ℕ, zero, suc, ◌+◌, ◌-◌, ◌*◌, ◌/◌, ◌%◌, ◌^◌, ◌≤◌, ◌<◌, max, min, ◌≡◌, refl, sym, ap, ap₂, subst,
  ◌∙◌, ◌≢◌, ◌↔◌, ◌⊎◌, inl, inr, Bool, true, false, not, ◌&&◌, ◌||◌, Option, none, some, List, [],
  ◌∷◌, ◌++◌, map, append-nil, append_assoc, arith, ltb, leb, ◌==◌, if◌then◌else◌, Bool-cases,
  Option-cases, ltb→lt, ltb→le, lt→ltb, le→ltb, leb→le, leb→lt, le→leb, lt→leb, ==→≡, ==→≢, ==_refl,
  ≡→==, ≢→==, length, get_or, set, replicate, take, drop, All, iota, length-iota, length-append,
  length-set, length-replicate, length-take, length-drop, take-append-drop, get_or-set_self,
  get_or-set_ne, get_or-replicate, get_or-append_at, set-append_at, get_or-append_left, get_or_ext,
  All-get_or, All-of, All-append, All-map, length-map,
}
use forest_sorting.Errors.{Result, ok, throws, Error, ◌>>=◌, ◌>>◌, reject_adjacent_duplicates}
use forest_sorting.Traits.{IdTraits, Traits, is_parent_sentinel, no_parent}
use forest_sorting.Ids.Comparator.{with_id_permutation_comparator}
use forest_sorting.Ids.Compare.{Sign, is_zero, is_negative}

-- `RadixParentIndexResult`
pub record ParentIndexResult : Type 0 where
  pub parent_index : List ℕ
  pub id_permutation : List ℕ

module _ {State : Type 0} (compare : ℕ → ℕ → Sign) (equal : ℕ → ℕ → Bool)
    (set_parent : ℕ → ℕ → State → State) (id_permutation : List ℕ) where
  -- The inner `while` of `mergeJoinSortedPermutations`, with `idSize - idOffset` rounds left: the
  -- offset at which it stops, and the identifier that it hands to `setParent`, if any.
  unfoldable pub advance_ids : ℕ → ℕ → ℕ → ℕ × Option ℕ
  advance_ids query_index zero id_offset = (id_offset, none)
  advance_ids query_index (suc rounds) id_offset =
      let id_index = get_or id_permutation id_offset 0 in
      let cmp = compare id_index query_index in
      let further = advance_ids query_index rounds (id_offset + 1) in
      let found = if is_zero cmp && equal id_index query_index then some id_index else none in
      if is_negative cmp then further else (id_offset, found)

  -- The outer `for`, from an offset on.
  unfoldable pub join_from : List ℕ → ℕ → State → State
  unfolding advance_ids
  join_from [] id_offset s = s
  join_from (query_index ∷ queries) id_offset s =
      let (id_offset', found) =
        advance_ids query_index (length id_permutation - id_offset) id_offset in
      let s' : State = elim found [
        | none ↦ s
        | some id_index ↦ set_parent query_index id_index s
      ] in
      join_from queries id_offset' s'

  -- `mergeJoinSortedPermutations`
  unfoldable pub merge_join_sorted_permutations : List ℕ → State → State
  unfolding join_from
  merge_join_sorted_permutations query_permutation s = join_from query_permutation 0 s

module _ {Node NodeId : Type 0} (traits : Traits Node NodeId) where
  -- The queries: the parent identifiers that are no sentinels, and the nodes that ask for them.
  unfoldable pub collect_queries : List Node → ℕ → List NodeId × List ℕ
  unfolding is_parent_sentinel
  collect_queries [] node_index = ([], [])
  collect_queries (node ∷ nodes) node_index =
      let (parent_ids, child_indexes) = collect_queries nodes (node_index + 1) in
      if is_parent_sentinel traits.ids (traits.parent_id node)
      then (parent_ids, child_indexes)
      else (traits.parent_id node ∷ parent_ids, node_index ∷ child_indexes)

  -- `buildParentIndexRadixJoinWithPermutationSorter`: the sorter takes a permutation, the identifier
  -- at an index and the traits of these identifiers. What it captures goes through both of its calls.
  unfoldable pub build_parent_index_with_permutation_sorter :
      {Captured : Type 0}
      → NodeId
      → ((SortId : Type 0)
          → List ℕ
          → (ℕ → SortId)
          → IdTraits SortId
          → Captured
          → Result (List ℕ × Captured))
      → Captured
      → List Node
      → Result ParentIndexResult
  unfolding collect_queries with_id_permutation_comparator merge_join_sorted_permutations
      reject_adjacent_duplicates
  build_parent_index_with_permutation_sorter blank sort_permutation captured nodes =
      let ids = map traits.id nodes in
      let (parent_ids, child_indexes) = collect_queries nodes 0 in
      with_id_permutation_comparator blank ids parent_ids traits.ids (λ SortId comparator.
        sort_permutation SortId (iota 0 (length ids)) comparator.left_id_for_sort
          comparator.sort_traits captured
        >>= λ (id_permutation, captured').
            sort_permutation SortId (iota 0 (length parent_ids)) comparator.right_id_for_sort
              comparator.sort_traits captured'
            >>= λ (query_permutation, captured'').
                reject_adjacent_duplicates comparator.left_equal id_permutation
                  Error.duplicate_node_id
                >> ok (record {
                  parent_index =
                      merge_join_sorted_permutations comparator.compare comparator.cross_equal
                        (λ query_index parent_node_index parent_index.
                          set parent_index (get_or child_indexes query_index 0) parent_node_index)
                        id_permutation query_permutation (replicate (length nodes) no_parent);
                  id_permutation = id_permutation;
                }))
