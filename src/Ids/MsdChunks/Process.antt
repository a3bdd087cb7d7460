-- ===== src/Ids/MsdChunks/Process.antt =====
-- `processIdMsdChunkRange` on a range: the small sorter, or the loaded entries.
use forest_sorting.Prelude.{
  ℕ, ◌+◌, ◌-◌, ◌≤◌, ◌≡◌, refl, ap, subst, ◌↔◌, inl, inr, true, false, List, ◌∷◌, ◌++◌, map, arith,
  leb, ltb, ◌==◌, if◌then◌else◌, Bool-cases, leb→le, length, length-append, length-map, length-take,
  length-drop, length-replicate, take, drop, take-append-drop, All,
}
use forest_sorting.Errors.{Result, ok}
use forest_sorting.Radix.Partition.{CounterTraits}
use forest_sorting.Radix.Partition.Ranges.{LawfulTraits}
use forest_sorting.Ids.MsdChunks.{
  IdMsdChunkEntry, IdMsdChunkSortWorkspace, allocate, blank_entry, fill_entries,
}
use forest_sorting.Ids.MsdChunks.Lsd.{load}
use forest_sorting.Ids.MsdChunks.Fill.{fill_entries_lem}
use forest_sorting.Ids.MsdChunks.Runs.{chunk_range}
use forest_sorting.Ids.MsdChunks.Sort.{process_id_msd_chunk_range, sort_loaded_range}
use forest_sorting.Ids.MsdChunks.Dispatch.{IsReady}

module _ {Scratch : Type 0} (policy : CounterTraits Scratch) (lawful : LawfulTraits policy) where
  -- After `allocate` the arrays have room for the range.
  pub allocate_lem :
      (n : ℕ) (workspace : IdMsdChunkSortWorkspace Scratch)
      → IsReady policy lawful workspace
      → IsReady policy lawful (allocate n workspace)
        × (n ≤ (allocate n workspace).capacity)
        × ((allocate n workspace).pending ≡ workspace.pending)
  unfolding allocate
  allocate_lem n workspace ready = elim (Bool-cases (leb n workspace.capacity)) [
    | inl e ↦ rw e (ready, leb→le n workspace.capacity e, refl)
    | inr e ↦ rw e (
      record {
        current_room = omega (arith, length-replicate n blank_entry);
        next_room = omega (arith, length-replicate n blank_entry);
        clean = ready.clean;
      },
      omega arith,
      refl,
    )
  ]

module _ {Scratch : Type 0} (radix_chunk_bytes : ℕ) (policy : CounterTraits Scratch)
    (lawful : LawfulTraits policy) (small_threshold chunk_count : ℕ) (chunk : ℕ → ℕ → ℕ)
    (small_range_sorter : List ℕ → ℕ → ℕ → Result (List ℕ)) where
  pub process_small :
      (order sorted : List ℕ) (b e c : ℕ) (workspace : IdMsdChunkSortWorkspace Scratch)
      → leb (e - b) 1 ≡ false
      → leb (e - b) small_threshold ≡ true
      → small_range_sorter order b e ≡ ok sorted
      → process_id_msd_chunk_range radix_chunk_bytes policy small_threshold chunk_count chunk
          small_range_sorter order b e c workspace
        ≡ ok (sorted, workspace)
  unfolding process_id_msd_chunk_range
  process_small order sorted b e c workspace more small sorts = rw (more, small, sorts) refl

  -- What is loaded for a larger range.
  pub record Loaded (mid : List ℕ) (c : ℕ) (workspace : IdMsdChunkSortWorkspace Scratch)
      : Type 0 where
    pub loaded : IdMsdChunkSortWorkspace Scratch
    pub rest : List IdMsdChunkEntry
    pub entries : loaded.current ≡ map (load (λ x. chunk x c)) mid ++ rest
    pub loaded_ready : IsReady policy lawful loaded
    pub room : length mid ≤ loaded.capacity
    pub kept : loaded.pending ≡ workspace.pending
    pub differing_bits : ℕ

  pub process_large :
      (pre : List ℕ) (x : ℕ) (mid post : List ℕ) (c : ℕ)
      (workspace : IdMsdChunkSortWorkspace Scratch)
      → IsReady policy lawful workspace
      → leb (length (x ∷ mid)) 1 ≡ false
      → leb (length (x ∷ mid)) small_threshold ≡ false
      → (l : Loaded (x ∷ mid) c workspace) × ((l.differing_bits ≡ 0)
          ↔ All (λ y. chunk y c ≡ chunk x c) (x ∷ mid))
        × (process_id_msd_chunk_range radix_chunk_bytes policy small_threshold chunk_count chunk
              small_range_sorter
              (pre ++ ((x ∷ mid) ++ post))
              (length pre)
              (length pre + length (x ∷ mid))
              c
              workspace
            ≡ (if l.differing_bits == 0
                then ok (
                  pre ++ ((x ∷ mid) ++ post),
                  (if ltb (c + 1) chunk_count
                      then record l.loaded {
                        pending =
                            chunk_range (length pre) (length pre + length (x ∷ mid)) (c + 1)
                            ∷ l.loaded.pending;
                      }
                      else l.loaded),
                )
                else ok (
                    sort_loaded_range radix_chunk_bytes policy small_threshold chunk_count chunk
                      small_range_sorter
                      (pre ++ ((x ∷ mid) ++ post))
                      (length pre)
                      (length pre + length (x ∷ mid))
                      (ltb (c + 1) chunk_count)
                      (c + 1)
                      l.loaded)))
  unfolding process_id_msd_chunk_range
  process_large pre x mid post c workspace ready more large =
      let n = length (x ∷ mid) in
      let key = λ (y : ℕ). chunk y c in
      let (ready', room, kept) = allocate_lem policy lawful n workspace ready in
      let allocated = allocate n workspace in
      let old = take n allocated.current in
      let rest = drop n allocated.current in
      let cut : old ++ rest ≡ allocated.current = take-append-drop n allocated.current in
      let enough : n ≤ length allocated.current = omega (arith, room, ready'.current_room) in
      let order = pre ++ ((x ∷ mid) ++ post) in
      let filled = fill_entries key order (length pre) n allocated.current in
      let (entries, differs) =
        subst
          (λ l.
            let r = fill_entries key order (length pre) n l in
            (r.0 ≡ map (load key) (x ∷ mid) ++ rest)
            × ((r.2 ≡ 0) ↔ All (λ y. key y ≡ key x) (x ∷ mid)))
          cut
          (fill_entries_lem key pre x mid post old rest
            (omega (arith, enough, length-take n allocated.current))) in
      let size : length pre + n - length pre ≡ n = omega arith in
      (
        record {
          loaded = record allocated { current = filled.0 };
          rest = rest;
          entries = entries;
          loaded_ready = record {
            current_room = omega (
              arith,
              ready'.current_room,
              enough,
              ap (length {A = IdMsdChunkEntry}) entries,
              length-append (map (load key) (x ∷ mid)) rest,
              length-map (load key) (x ∷ mid),
              length-drop n allocated.current,
            );
            next_room = ready'.next_room;
            clean = ready'.clean;
          };
          room = room;
          kept = kept;
          differing_bits = filled.2;
        },
        differs,
        rw (size, more, large) refl,
      )
