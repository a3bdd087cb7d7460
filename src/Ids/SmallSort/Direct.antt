-- ===== src/Ids/SmallSort/Direct.antt =====
-- The insertion sort of a range where the identifiers are compared directly.
use forest_sorting.Prelude.{
  ℕ, ◌+◌, ◌-◌, ◌≡◌, refl, ap, ◌∙◌, true, false, not, List, [], ◌∷◌, ◌++◌, arith, ltb, leb, le→leb,
  lt→leb, length, get_or,
}
use forest_sorting.Traits.{IdTraits}
use forest_sorting.Errors.{ok}
use forest_sorting.Stable.{stable_sort}
use forest_sorting.Ids.SmallSort.{direct_accessor, stable_sort_index_range_small_linear}
use forest_sorting.Ids.Chunks.Value.{IsLawful, id_value}
use forest_sorting.Ids.SmallSort.Insertion.{
  AccessorLaws, stable_sort_index_range_small_linear_internal_lem,
}
use forest_sorting.Ids.Compare.{should_cache_chunk_ids}
use forest_sorting.Ids.Compare.Order.{id_less_lem}

not-ltb : (a b : ℕ) → not (ltb a b) ≡ leb b a
not-ltb a b = ground arith

module _ {NodeId : Type 0} (id_for_index : ℕ → NodeId) (traits : IdTraits NodeId)
    (lawful : IsLawful traits) where
  -- The value of the identifier of an index.
  abbrev pub key_of : ℕ → ℕ
  key_of i = id_value traits (id_for_index i)

  direct-AccessorLaws :
      (begin size : ℕ) → AccessorLaws (direct_accessor id_for_index traits begin) begin size key_of
  unfolding direct_accessor
  direct-AccessorLaws begin size = record {
    Keeps = λ order saved. Unit;
    Holds = λ order saved x. id_value traits saved ≡ key_of x;
    save_law = λ order keys d h m. refl;
    compare_law = λ order keys x d h m.
        ap not (id_less_lem traits lawful keys (id_for_index (get_or order (begin + d) 0)))
        ∙ not-ltb (id_value traits keys) (key_of (get_or order (begin + d) 0))
        ∙ ap (leb (key_of (get_or order (begin + d) 0))) m;
    move_law = λ order keys x d h m. m;
    write_law = λ order keys x d h m. tt;
  }

  -- For lawful traits whose identifiers are not cached, `stableSortIndexRangeSmallLinear` returns for
  -- every range of the vector, sorts it stably by the values of the identifiers and changes nothing
  -- else.
  pub stable_sort_index_range_small_linear_direct :
      (max_range_size : ℕ) (pre mid post : List ℕ)
      → should_cache_chunk_ids traits ≡ false
      → stable_sort_index_range_small_linear max_range_size
          (pre ++ (mid ++ post))
          id_for_index
          traits
          (length pre)
          (length pre + length mid)
        ≡ ok (pre ++ (stable_sort key_of mid ++ post))
  unfolding stable_sort_index_range_small_linear stable_sort forest_sorting.Stable.insert
      direct-AccessorLaws
  stable_sort_index_range_small_linear_direct max_range_size pre [] post e =
      let size : leb (length pre + 0 - length pre) 1 ≡ true =
        le→leb (length pre + 0 - length pre) 1 (omega arith) in
      rw size refl
  stable_sort_index_range_small_linear_direct max_range_size pre (x ∷ []) post e =
      let size : leb (length pre + 1 - length pre) 1 ≡ true =
        le→leb (length pre + 1 - length pre) 1 (omega arith) in
      rw size refl
  stable_sort_index_range_small_linear_direct max_range_size pre (x ∷ y ∷ mid) post e =
      let range : List ℕ = x ∷ y ∷ mid in
      let size : length pre + length range - length pre ≡ length range = omega arith in
      let big : leb (length range) 1 ≡ false = lt→leb (length range) 1 (omega arith) in
      let first : NodeId = id_for_index (get_or (pre ++ (range ++ post)) (length pre) 0) in
      rw (size, big, e)
        (ap ok (
          stable_sort_index_range_small_linear_internal_lem
            (direct_accessor id_for_index traits (length pre)) (length range) key_of pre
            (direct-AccessorLaws (length pre) (length range)) range post first refl (omega arith)
            tt))
