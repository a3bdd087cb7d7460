-- ===== src/Ids/MsdChunks/Runs.antt =====
-- The ranges that the last loop of `processIdMsdChunkRange` pushes: one for each run of equal chunks.
use forest_sorting.Prelude.{
  ℕ, zero, suc, ◌+◌, ◌-◌, ◌≡◌, refl, sym, ap, ap₂, ◌∙◌, inl, inr, List, [], ◌∷◌, ◌++◌, append_assoc,
  map, arith, ◌==◌, if◌then◌else◌, Bool-cases, length, length-append, get_or, get_or-append_at,
}
use forest_sorting.Loops.{for_range}
use forest_sorting.Ids.MsdChunks.{IdMsdChunkEntry, IdMsdChunkRange, blank_entry, push_equal_chunks}
use forest_sorting.Ids.MsdChunks.Lsd.{load}

abbrev pub chunk_range : ℕ → ℕ → ℕ → IdMsdChunkRange
chunk_range range_begin range_end chunk_index = record {
  begin = range_begin;
  end = range_end;
  chunk_index = chunk_index;
}

module _ (key : ℕ → ℕ) (next_chunk_index : ℕ) where
  -- The ranges from a run on that began at `b`, has the chunk `previous` and reaches to `at`, the last
  -- one first.
  unfoldable pub run_ranges : ℕ → ℕ → ℕ → List ℕ → List IdMsdChunkRange
  run_ranges b at previous [] = chunk_range b at next_chunk_index ∷ []
  run_ranges b at previous (x ∷ todo) =
      let same = run_ranges b (at + 1) previous todo in
      let other = run_ranges at (at + 1) (key x) todo in
      if key x == previous then same else other ++ (chunk_range b at next_chunk_index ∷ [])

  abbrev Pushing : Type 0
  Pushing = ℕ × ℕ × List IdMsdChunkRange

  abbrev push_round : ℕ → List IdMsdChunkEntry → ℕ → Pushing → Pushing
  push_round range_begin sorted_chunks offset (equal_chunk_begin, previous_chunk, pending) =
      let current_chunk = (get_or sorted_chunks offset blank_entry).chunk in
      if current_chunk == previous_chunk then (equal_chunk_begin, previous_chunk, pending) else (
        range_begin + offset,
        current_chunk,
        chunk_range equal_chunk_begin (range_begin + offset) next_chunk_index ∷ pending,
      )

  abbrev finish : ℕ → Pushing → List IdMsdChunkRange
  finish range_end (equal_chunk_begin, previous_chunk, pending) =
      chunk_range equal_chunk_begin range_end next_chunk_index ∷ pending

  push_rounds :
      (range_begin range_end n i b at previous : ℕ) (pending : List IdMsdChunkRange) (todo : List ℕ)
      (front tail : List IdMsdChunkEntry)
      → n ≡ length todo
      → i ≡ length front
      → at ≡ range_begin + i
      → range_end ≡ at + length todo
      → finish range_end (
          for_range n i
            (push_round range_begin (front ++ (map (load key) todo ++ tail)))
            (b, previous, pending))
        ≡ run_ranges b at previous todo ++ pending
  unfolding for_range run_ranges
  push_rounds range_begin range_end zero i b at previous pending [] front tail e f g h =
      ap (λ z. chunk_range b z next_chunk_index ∷ pending) (omega arith)
  push_rounds range_begin range_end (suc n) i b at previous pending [] front tail e f g h =
      absurd (omega arith)
  push_rounds range_begin range_end zero i b at previous pending (x ∷ todo) front tail e f g h =
      absurd (omega arith)
  push_rounds range_begin range_end (suc n) i b at previous pending (x ∷ todo) front tail e f g h =
      let whole = front ++ (load key x ∷ (map (load key) todo ++ tail)) in
      let shape : whole ≡ (front ++ load key x ∷ []) ++ (map (load key) todo ++ tail) =
        sym (append_assoc front (load key x ∷ []) (map (load key) todo ++ tail)) in
      let here : get_or whole i blank_entry ≡ load key x =
        get_or-append_at front (load key x) (map (load key) todo ++ tail) blank_entry i f in
      let rest = λ (b' previous' : ℕ) (pending' : List IdMsdChunkRange).
        ap
          (λ l.
            finish range_end
              (for_range n (i + 1) (push_round range_begin l) (b', previous', pending')))
          shape
        ∙ push_rounds range_begin range_end n (i + 1) b' (at + 1) previous' pending' todo
            (front ++ load key x ∷ []) tail (omega arith)
            (omega (arith, length-append front (load key x ∷ []))) (omega arith) (omega arith) in
      let step : push_round range_begin whole i (b, previous, pending) ≡ (
          if key x == previous
          then (b, previous, pending)
          else (at, key x, chunk_range b at next_chunk_index ∷ pending)) =
        ap₂
          (λ (z : IdMsdChunkEntry) (place : ℕ).
            if z.chunk == previous
            then (b, previous, pending)
            else (place, z.chunk, chunk_range b place next_chunk_index ∷ pending))
          here (sym g) in
      ap (λ s. finish range_end (for_range n (i + 1) (push_round range_begin whole) s)) step
      ∙ elim (Bool-cases (key x == previous)) [
        | inl same ↦ rw same (rest b previous pending)
        | inr other ↦ rw other (
            rest at (key x) (chunk_range b at next_chunk_index ∷ pending)
            ∙ sym (
                append_assoc (run_ranges at (at + 1) (key x) todo)
                  (chunk_range b at next_chunk_index ∷ []) pending))
      ]

  -- All of them, below the ranges that were pending.
  pub push_equal_chunks_lem :
      (range_begin range_end size x : ℕ) (todo : List ℕ) (tail : List IdMsdChunkEntry)
      (pending : List IdMsdChunkRange)
      → size ≡ length (x ∷ todo)
      → range_end ≡ range_begin + size
      → push_equal_chunks
          (map (load key) (x ∷ todo) ++ tail)
          range_begin
          range_end
          size
          next_chunk_index
          pending
        ≡ run_ranges range_begin (range_begin + 1) (key x) todo ++ pending
  unfolding push_equal_chunks
  push_equal_chunks_lem range_begin range_end size x todo tail pending e f =
      push_rounds range_begin range_end (size - 1) 1 range_begin (range_begin + 1) (key x) pending
        todo (load key x ∷ []) tail (omega arith) refl refl (omega arith)
