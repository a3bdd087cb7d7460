-- ===== src/Ids/MsdChunks/Groups.antt =====
-- Sorting each run of equal chunks sorts the whole range.
use forest_sorting.Prelude.{
  ℕ, suc, ◌+◌, ◌*◌, ◌≤◌, ◌<◌, ◌≡◌, refl, sym, ap, subst, ◌∙◌, inl, inr, List, [], ◌∷◌, ◌++◌,
  append_assoc, append-nil, arith, Bool-cases, ◌==◌, ==→≡, ==→≢, length, length-append, All,
  All-map, All-append,
}
use forest_sorting.Errors.{Result}
use forest_sorting.Radix.Partition.{CounterTraits}
use forest_sorting.Radix.Partition.Ranges.{LawfulTraits}
use forest_sorting.Stable.{IsSorted, stable_sort}
use forest_sorting.Stable.Refine.{stable_sort-append}
use forest_sorting.Ids.MsdChunks.{IdMsdChunkRange, IdMsdChunkSortWorkspace}
use forest_sorting.Ids.MsdChunks.Runs.{chunk_range, run_ranges}
use forest_sorting.Ids.MsdChunks.Dispatch.{IsReady}
use forest_sorting.Ids.MsdChunks.Digits.{Spells, first_chunks, key_lt, agree_next}
use forest_sorting.Ids.MsdChunks.Rounds.{Runs, Runs-append, Runs-weaken}

module _ {Scratch : Type 0} (radix_chunk_bytes : ℕ) (policy : CounterTraits Scratch)
    (lawful : LawfulTraits policy) (small_threshold chunk_count : ℕ) (chunk : ℕ → ℕ → ℕ)
    (small_range_sorter : List ℕ → ℕ → ℕ → Result (List ℕ)) (base P : ℕ) (key : ℕ → ℕ)
    (spells : Spells base P chunk_count chunk key) where
  abbrev RunsHere :
      IdMsdChunkSortWorkspace Scratch
      → List ℕ
      → List IdMsdChunkRange
      → List IdMsdChunkRange
      → ℕ
      → List ℕ
      → Type 0
  RunsHere =
      Runs radix_chunk_bytes policy lawful small_threshold chunk_count chunk small_range_sorter

  -- A range of identifiers that agree on the first `j` chunks is sorted.
  abbrev pub SortsAt : ℕ → ℕ → Type 0
  SortsAt j m =
      (workspace : IdMsdChunkSortWorkspace Scratch) (pre mid post : List ℕ) (p b e : ℕ)
      (stack : List IdMsdChunkRange)
      → b ≡ length pre
      → e ≡ length pre + length mid
      → All (λ x. first_chunks spells j x ≡ p) mid
      → IsReady policy lawful workspace
      → RunsHere workspace (pre ++ (mid ++ post)) (chunk_range b e j ∷ []) stack
          (1 + length mid * m) (pre ++ (stable_sort key mid ++ post))

  module _ (j m p : ℕ) (place : j + suc m ≡ chunk_count) (sorts : SortsAt (suc j) m) where
    below :
        (c : ℕ) (cur rest : List ℕ)
        → All (λ x. first_chunks spells j x ≡ p) cur
        → All (λ x. chunk x j ≡ c) cur
        → All (λ y. (first_chunks spells j y ≡ p) × (c < chunk y j)) rest
        → All (λ x. All (λ y. key x ≤ key y) rest) cur
    below c [] rest a q r = tt
    below c (x ∷ cur) rest a q r = (
      All-map (λ y. (first_chunks spells j y ≡ p) × (c < chunk y j)) (λ y. key x ≤ key y) rest
          (λ y (same, less).
            key_lt spells j m x y place (a.0 ∙ sym same) (omega (arith, q.0, less)))
          r,
      below c cur rest a.1 q.1 r,
    )

    above :
        (c : ℕ) (rest : List ℕ)
        → All (λ x. first_chunks spells j x ≡ p) rest
        → All (λ y. c < chunk y j) rest
        → All (λ y. (first_chunks spells j y ≡ p) × (c < chunk y j)) rest
    above c [] a q = tt
    above c (y ∷ rest) a q = ((a.0, q.0), above c rest a.1 q.1)

    fits : (a t : ℕ) → 0 < a → 1 + a * m ≤ (a + t) * (1 + m)
    fits a t h = grind arith

    together : (a t : ℕ) → 0 < a → (1 + t) * (1 + m) + (1 + a * m) ≤ (a + suc t) * (1 + m)
    together a t h = grind arith

    -- The ranges of the runs, of which the first one has begun with `cur`.
    pub sort_runs :
        (workspace : IdMsdChunkSortWorkspace Scratch) (pre cur todo post : List ℕ)
        (previous b at : ℕ) (stack : List IdMsdChunkRange)
        → b ≡ length pre
        → at ≡ length pre + length cur
        → 0 < length cur
        → All (λ x. chunk x j ≡ previous) cur
        → All (λ y. previous ≤ chunk y j) todo
        → IsSorted (λ x. chunk x j) todo
        → All (λ x. first_chunks spells j x ≡ p) cur
        → All (λ x. first_chunks spells j x ≡ p) todo
        → IsReady policy lawful workspace
        → RunsHere workspace
            (pre ++ ((cur ++ todo) ++ post))
            (run_ranges (λ x. chunk x j) (suc j) b at previous todo)
            stack
            ((length cur + length todo) * (1 + m))
            (pre ++ (stable_sort key (cur ++ todo) ++ post))
    unfolding run_ranges
    sort_runs workspace pre cur [] post previous b at stack hb hat some same above_all sorted agree
          rest ready =
        let one =
          sorts workspace pre cur post (p * base + previous) b at stack hb hat
            (agree_next spells j p previous cur agree same) ready in
        rw (append-nil cur) (
          Runs-weaken radix_chunk_bytes policy lawful small_threshold chunk_count chunk
            small_range_sorter workspace (pre ++ (cur ++ post))
            (pre ++ (stable_sort key cur ++ post)) (chunk_range b at (suc j) ∷ []) stack
            (1 + length cur * m) ((length cur + 0) * (1 + m)) one (fits (length cur) 0 some))
    sort_runs workspace pre cur (x ∷ todo) post previous b at stack hb hat some same above_all
          sorted agree rest ready =
        elim (Bool-cases (chunk x j == previous)) [
          | inl e ↦
              let here = ==→≡ (chunk x j) previous e in
              let joined = append_assoc cur (x ∷ []) todo in
              let size = length-append cur (x ∷ []) in
              let more =
                sort_runs workspace pre (cur ++ x ∷ []) todo post previous b (at + 1) stack hb
                  (omega (arith, hat, size)) (omega (arith, size))
                  (All-append (λ x. chunk x j ≡ previous) cur (x ∷ []) same (here, tt)) above_all.1
                  sorted.1
                  (All-append (λ x. first_chunks spells j x ≡ p) cur (x ∷ []) agree (rest.0, tt))
                  rest.1 ready in
              let budget : (length (cur ++ x ∷ []) + length todo) * (1 + m)
                  ≡ (length cur + length (x ∷ todo)) * (1 + m) =
                ap (λ z. z * (1 + m)) (omega (arith, size)) in
              rw (e, ← budget, ← joined) more
          | inr e ↦
              let ne = ==→≢ (chunk x j) previous e in
              let less : previous < chunk x j = omega (arith, above_all.0, ne) in
              let others = x ∷ todo in
              let larger = above previous others rest (
                less,
                All-map (λ y. chunk x j ≤ chunk y j) (λ y. previous < chunk y j) todo
                    (λ y h. omega (arith, h, less)) sorted.0,
              ) in
              let first : List IdMsdChunkRange = chunk_range b at (suc j) ∷ [] in
              let one =
                sort_runs workspace (pre ++ cur) (x ∷ []) todo post (chunk x j) at (at + 1)
                  (first ++ stack) (omega (arith, hat, length-append pre cur))
                  (omega (arith, hat, length-append pre cur)) (omega arith) (refl, tt) sorted.0
                  sorted.1 (rest.0, tt) rest.1 ready in
              let two =
                sorts one.after pre cur (stable_sort key others ++ post) (p * base + previous) b at
                  stack hb hat (agree_next spells j p previous cur agree same) one.ready in
              let split =
                stable_sort-append key cur others (below previous cur others agree same larger) in
              let low = stable_sort key cur in
              let high = stable_sort key others in
              let start : (pre ++ cur) ++ (others ++ post) ≡ pre ++ ((cur ++ others) ++ post) =
                append_assoc pre cur (others ++ post)
                ∙ ap (λ l. pre ++ l) (sym (append_assoc cur others post)) in
              let end_ : pre ++ (low ++ (high ++ post))
                  ≡ pre ++ (stable_sort key (cur ++ others) ++ post) =
                ap (λ l. pre ++ l) (sym (append_assoc low high post) ∙ ap (λ l. l ++ post) split) in
              let two' =
                subst
                  (λ l.
                    RunsHere one.after l first stack (1 + length cur * m)
                      (pre ++ (low ++ (high ++ post))))
                  (sym (append_assoc pre cur (high ++ post))) two in
              let both =
                Runs-append radix_chunk_bytes policy lawful small_threshold chunk_count chunk
                  small_range_sorter workspace ((pre ++ cur) ++ (others ++ post))
                  ((pre ++ cur) ++ (high ++ post)) (pre ++ (low ++ (high ++ post)))
                  (run_ranges (λ x. chunk x j) (suc j) at (at + 1) (chunk x j) todo) first stack
                  ((1 + length todo) * (1 + m)) (1 + length cur * m)
                  ((length cur + length others) * (1 + m)) one two'
                  (together (length cur) (length todo) some) in
              rw (e, ← start, ← end_) both
        ]
