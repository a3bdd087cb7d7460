-- ===== src/Ids/SmallSort/Caching.antt =====
-- The insertion sort of a range where the identifiers are cached.
use forest_sorting.Prelude.{
  ℕ, suc, ◌+◌, ◌-◌, ◌≤◌, ◌<◌, ◌≡◌, refl, sym, ap, ◌∙◌, inl, inr, true, false, List, [], ◌++◌, arith,
  ltb, leb, ◌==◌, Bool-cases, le→ltb, lt→leb, ==→≡, ==→≢, length, get_or, set, replicate,
  length-append, length-set, length-replicate, get_or-set_self, get_or-set_ne,
}
use forest_sorting.Loops.{for_range_inv}
use forest_sorting.Traits.{IdTraits}
use forest_sorting.Errors.{ok}
use forest_sorting.Stable.{stable_sort}
use forest_sorting.Ids.Chunks.{CachedChunkId}
use forest_sorting.Ids.SmallSort.{
  CachedKeys, cached_accessor, initialize_cached, stable_sort_index_range_small_linear,
  require_fixed_small_sort_capacity, is_not_positive,
}
use forest_sorting.Ids.Chunks.Value.{IsLawful, id_value}
use forest_sorting.Ids.SmallSort.Insertion.{
  AccessorLaws, stable_sort_index_range_small_linear_internal_lem,
}
use forest_sorting.Ids.Compare.Order.{sign_of}
use forest_sorting.Ids.Compare.Cached.{cached, compare_cached_id_chunks_lem}
use forest_sorting.Ids.Compare.{should_cache_chunk_ids}

not_positive : (a b : ℕ) → is_not_positive (sign_of a b) ≡ leb a b
not_positive a b = ground arith

module _ {NodeId : Type 0} (id_for_index : ℕ → NodeId) (traits : IdTraits NodeId)
    (lawful : IsLawful traits) (begin size : ℕ) where
  -- The identifier at a position of the range, as it is cached.
  abbrev cached_at : List ℕ → ℕ → CachedChunkId
  cached_at order d = cached traits lawful (id_for_index (get_or order (begin + d) 0))

  -- Each position below `k` is cached.
  record AreCached (k : ℕ) (order : List ℕ) (chunks : List CachedChunkId) : Type 0 where
    room : size ≤ length chunks
    cached_below : (j : ℕ) → j < k → get_or chunks j [] ≡ cached_at order j

  record KeepsCached (order : List ℕ) (keys : CachedKeys) : Type 0 where
    all_cached : AreCached size order keys.id_chunks
    fits : begin + size ≤ length order

  write_cached :
      (order : List ℕ) (chunks : List CachedChunkId) (d x : ℕ)
      → d < size
      → begin + size ≤ length order
      → AreCached size order chunks
      → AreCached size
          (set order (begin + d) x)
          (set chunks d (cached traits lawful (id_for_index x)))
  write_cached order chunks d x h fits a = record {
    room = omega (arith, a.room, length-set chunks d (cached traits lawful (id_for_index x)));
    cached_below = λ j p. elim (Bool-cases (j == d)) [
      | inl e ↦
          let same = ==→≡ j d e in
          rw (same, get_or-set_self order (begin + d) x 0 (omega arith))
            (get_or-set_self chunks d (cached traits lawful (id_for_index x)) []
              (omega (arith, a.room)))
      | inr e ↦
          let ne = ==→≢ j d e in
          get_or-set_ne chunks d j (cached traits lawful (id_for_index x)) [] (λ q. ne (sym q))
          ∙ a.cached_below j p
          ∙ ap (λ z. cached traits lawful (id_for_index z))
              (sym (get_or-set_ne order (begin + d) (begin + j) x 0 (λ q. ne (omega (arith, q)))))
    ];
  }

  cached-AccessorLaws :
      AccessorLaws
        (cached_accessor id_for_index traits begin)
        begin
        size
        (λ i. id_value traits (id_for_index i))
  unfolding cached_accessor
  cached-AccessorLaws = record {
    Keeps = KeepsCached;
    Holds = λ order keys x.
        KeepsCached order keys × (keys.saved_id ≡ cached traits lawful (id_for_index x));
    save_law = λ order keys d h m.
        (record { all_cached = m.all_cached; fits = m.fits }, m.all_cached.cached_below d h);
    compare_law = λ order keys x d h (m, is_saved).
        rw (m.all_cached.cached_below d h, is_saved)
          (ap is_not_positive (
              compare_cached_id_chunks_lem traits lawful (id_for_index (get_or order (begin + d) 0))
                (id_for_index x))
            ∙ not_positive (id_value traits (id_for_index (get_or order (begin + d) 0)))
                (id_value traits (id_for_index x)));
    move_law = λ order keys x d h (m, is_saved). (
      record {
        all_cached = rw (m.all_cached.cached_below d (omega arith)) (
            write_cached order keys.id_chunks (suc d) (get_or order (begin + d) 0) h m.fits
              m.all_cached);
        fits = omega (arith, m.fits, length-set order (begin + suc d) (get_or order (begin + d) 0));
      },
      is_saved,
    );
    write_law = λ order keys x d h (m, is_saved). record {
      all_cached = rw is_saved (write_cached order keys.id_chunks d x h m.fits m.all_cached);
      fits = omega (arith, m.fits, length-set order (begin + d) x);
    };
  }

  initialize_cached_lem :
      (order : List ℕ) (keys : CachedKeys)
      → size ≤ length keys.id_chunks
      → AreCached size order (initialize_cached id_for_index traits begin size order keys).id_chunks
  unfolding initialize_cached
  initialize_cached_lem order keys room =
      for_range_inv (λ k chunks. AreCached k order chunks)
        (λ offset chunks. set chunks offset (cached_at order offset)) size 0 size (omega arith)
        (λ k chunks lo hi a. record {
          room = omega (arith, a.room, length-set chunks k (cached_at order k));
          cached_below = λ j p. elim (Bool-cases (j == k)) [
            | inl e ↦
                rw (==→≡ j k e)
                  (get_or-set_self chunks k (cached_at order k) [] (omega (arith, a.room)))
            | inr e ↦
                let ne = ==→≢ j k e in
                get_or-set_ne chunks k j (cached_at order k) [] (λ q. ne (sym q))
                ∙ a.cached_below j (omega arith)
          ];
        })
        keys.id_chunks (record { room = room; cached_below = λ j p. absurd (omega arith) })

module _ {NodeId : Type 0} (id_for_index : ℕ → NodeId) (traits : IdTraits NodeId)
    (lawful : IsLawful traits) where
  -- For lawful traits whose identifiers are cached, `stableSortIndexRangeSmallLinear` sorts every range
  -- of more than one entry that fits its scratch space, stably by the values of the identifiers, and
  -- changes nothing else.
  pub stable_sort_index_range_small_linear_cached :
      (max_range_size : ℕ) (pre mid post : List ℕ)
      → should_cache_chunk_ids traits ≡ true
      → 1 < length mid
      → length mid ≤ max_range_size
      → stable_sort_index_range_small_linear max_range_size
          (pre ++ (mid ++ post))
          id_for_index
          traits
          (length pre)
          (length pre + length mid)
        ≡ ok (pre ++ (stable_sort (λ i. id_value traits (id_for_index i)) mid ++ post))
  unfolding stable_sort_index_range_small_linear require_fixed_small_sort_capacity
      cached-AccessorLaws
  stable_sort_index_range_small_linear_cached max_range_size pre mid post e more room =
      let size : length pre + length mid - length pre ≡ length mid = omega arith in
      let big : leb (length mid) 1 ≡ false = lt→leb (length mid) 1 more in
      let small : ltb max_range_size (length mid) ≡ false =
        le→ltb max_range_size (length mid) room in
      let start : CachedKeys = record { id_chunks = replicate max_range_size []; saved_id = [] } in
      let whole : List ℕ = pre ++ (mid ++ post) in
      rw (size, big, e, small)
        (ap ok (
          stable_sort_index_range_small_linear_internal_lem
            (cached_accessor id_for_index traits (length pre)) (length mid)
            (λ i. id_value traits (id_for_index i)) pre
            (cached-AccessorLaws id_for_index traits lawful (length pre) (length mid)) mid post
            (initialize_cached id_for_index traits (length pre) (length mid) whole start) refl
            (omega arith)
            (record {
              all_cached =
                  initialize_cached_lem id_for_index traits lawful (length pre) (length mid) whole
                    start (omega (arith, length-replicate {A = CachedChunkId} max_range_size []));
              fits = omega (arith, length-append pre (mid ++ post), length-append mid post);
            })))
