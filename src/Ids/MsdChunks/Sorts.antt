-- ===== src/Ids/MsdChunks/Sorts.antt =====
-- The identifier sort by chunks, from the most significant one, sorts stably by identifier.
use forest_sorting.Prelude.{
  ℕ, zero, suc, ◌+◌, ◌-◌, ◌*◌, ◌^◌, ◌≤◌, ◌<◌, ◌≡◌, refl, sym, ap, ap₂, subst, ◌∙◌, inl, inr, Bool,
  true, false, ◌||◌, List, [], ◌∷◌, ◌++◌, map, arith, leb, ltb, ◌==◌, Bool-cases, leb→le, leb→lt,
  lt→leb, le→leb, ltb→le, ==→≡, length, All, All-of,
}
use forest_sorting.Errors.{Result, ok}
use forest_sorting.Radix.Partition.{CounterTraits}
use forest_sorting.Radix.Partition.Ranges.{LawfulTraits}
use forest_sorting.Stable.{
  stable_sort, IsSorted, length-stable_sort, All-stable_sort, stable_sort-IsStableSort,
}
use forest_sorting.Stable.Unique.{short_sorted}
use forest_sorting.Stable.Refine.{stable_sort_coarse}
use forest_sorting.Ids.MsdChunks.{
  IdMsdChunkEntry, IdMsdChunkRange, IdMsdChunkSortWorkspace, push_equal_chunks,
}
use forest_sorting.Ids.MsdChunks.Lsd.{load}
use forest_sorting.Ids.MsdChunks.Runs.{chunk_range, push_equal_chunks_lem, run_ranges}
use forest_sorting.Ids.MsdChunks.Sort.{sort_pending, sort_loaded_range}
use forest_sorting.Ids.MsdChunks.Dispatch.{IsReady, dispatch_lsd_sort_pre_filled_lem}
use forest_sorting.Ids.MsdChunks.Digits.{
  Spells, first_chunks, agree_next, equal_chunks_sorted, last_chunk_sorts, chunk_of_key,
}
use forest_sorting.Ids.MsdChunks.Rounds.{Runs, Runs-none, Runs-skip, Runs-process, Runs-weaken}
use forest_sorting.Ids.MsdChunks.Groups.{SortsAt, sort_runs}
use forest_sorting.Ids.MsdChunks.Process.{process_small, process_large, Loaded}

skip_all : (a : Bool) → a ≡ true → (b : Bool) → (b || a) ≡ true
skip_all a e true = refl
skip_all a e false = e

one_more : (n m : ℕ) → 1 < n → 1 + n * m ≤ n * suc m
one_more n m h = grind arith

module _ {Scratch : Type 0} (radix_chunk_bytes : ℕ) (policy : CounterTraits Scratch)
    (lawful : LawfulTraits policy) (small_threshold chunk_count : ℕ) (chunk : ℕ → ℕ → ℕ)
    (small_range_sorter : List ℕ → ℕ → ℕ → Result (List ℕ)) (P : ℕ) (key : ℕ → ℕ)
    (spells : Spells (256 ^ radix_chunk_bytes) P chunk_count chunk key)
    (sorter_law : (pre mid post : List ℕ)
      → 1 < length mid
      → length mid ≤ small_threshold
      → small_range_sorter (pre ++ (mid ++ post)) (length pre) (length pre + length mid)
        ≡ ok (pre ++ (stable_sort key mid ++ post))) where
  abbrev Here :
      IdMsdChunkSortWorkspace Scratch
      → List ℕ
      → List IdMsdChunkRange
      → List IdMsdChunkRange
      → ℕ
      → List ℕ
      → Type 0
  Here = Runs radix_chunk_bytes policy lawful small_threshold chunk_count chunk small_range_sorter

  IsReady-pending :
      (workspace : IdMsdChunkSortWorkspace Scratch) (l : List IdMsdChunkRange)
      → IsReady policy lawful workspace
      → IsReady policy lawful (record workspace { pending = l })
  IsReady-pending workspace l ready = record {
    current_room = ready.current_room;
    next_room = ready.next_room;
    clean = ready.clean;
  }

  -- The ranges of the runs of a range that is sorted by the chunk.
  pushed_runs :
      (j m p n e : ℕ) (workspace : IdMsdChunkSortWorkspace Scratch) (pre ys post : List ℕ)
      (tail : List IdMsdChunkEntry) (pending stack : List IdMsdChunkRange)
      → j + suc m ≡ chunk_count
      → SortsAt radix_chunk_bytes policy lawful small_threshold chunk_count chunk small_range_sorter
          (256 ^ radix_chunk_bytes)
          P
          key
          spells
          (suc j)
          m
      → n ≡ length ys
      → 0 < n
      → e ≡ length pre + n
      → All (λ x. first_chunks spells j x ≡ p) ys
      → IsSorted (λ x. chunk x j) ys
      → IsReady policy lawful workspace
      → pending ≡ stack
      → (pushed : List IdMsdChunkRange) × (push_equal_chunks
            (map (load (λ x. chunk x j)) ys ++ tail)
            (length pre)
            e
            n
            (suc j)
            pending
          ≡ pushed ++ stack)
        × Here workspace
            (pre ++ (ys ++ post))
            pushed
            stack
            (n * suc m)
            (pre ++ (stable_sort key ys ++ post))
  pushed_runs j m p n e workspace pre [] post tail pending stack place sorts size some end_ agree
        sorted ready same =
      absurd (omega arith)
  pushed_runs j m p n e workspace pre (y ∷ ys) post tail pending stack place sorts size some end_
        agree sorted ready same =
      let by_chunk = λ (x : ℕ). chunk x j in
      let at = length pre + 1 in
      let done =
        sort_runs radix_chunk_bytes policy lawful small_threshold chunk_count chunk
          small_range_sorter (256 ^ radix_chunk_bytes) P key spells j m p place sorts workspace pre
          (y ∷ []) ys post (chunk y j) (length pre) at stack refl refl (omega arith) (refl, tt)
          sorted.0 sorted.1 (agree.0, tt) agree.1 ready in
      let budget : (1 + length ys) * (1 + m) ≡ n * suc m = ap₂ ◌*◌ (omega arith) (omega arith) in
      (
        run_ranges by_chunk (suc j) (length pre) at (chunk y j) ys,
        push_equal_chunks_lem by_chunk (suc j) (length pre) e n y ys tail pending size end_
            ∙ ap (λ l. run_ranges by_chunk (suc j) (length pre) at (chunk y j) ys ++ l) same,
        rw (← budget) done,
      )

  -- The entries of a range are sorted by the chunk, and the ranges of its runs are next.
  loaded_range :
      (j m p : ℕ) (workspace : IdMsdChunkSortWorkspace Scratch) (pre mid post : List ℕ)
      (stack : List IdMsdChunkRange)
      (l : Loaded radix_chunk_bytes policy lawful small_threshold chunk_count chunk
        small_range_sorter mid j workspace)
      → j + suc m ≡ chunk_count
      → SortsAt radix_chunk_bytes policy lawful small_threshold chunk_count chunk small_range_sorter
          (256 ^ radix_chunk_bytes)
          P
          key
          spells
          (suc j)
          m
      → 1 < length mid
      → All (λ x. first_chunks spells j x ≡ p) mid
      → workspace.pending ≡ stack
      → let r =
          sort_loaded_range radix_chunk_bytes policy small_threshold chunk_count chunk
            small_range_sorter
            (pre ++ (mid ++ post))
            (length pre)
            (length pre + length mid)
            (ltb (j + 1) chunk_count)
            (j + 1)
            l.loaded in
        (pushed : List IdMsdChunkRange) × (r.1.pending ≡ pushed ++ stack)
        × Here r.1 r.0 pushed stack (length mid * suc m) (pre ++ (stable_sort key mid ++ post))
  unfolding sort_loaded_range
  loaded_range j m p workspace pre mid post stack l place sorts more agree popped =
      let by_chunk = λ (x : ℕ). chunk x j in
      let (tail, after, ready, kept, run) =
        dispatch_lsd_sort_pre_filled_lem policy lawful radix_chunk_bytes by_chunk pre mid post
          l.rest l.loaded
          (All-of (λ x. chunk x j < 256 ^ radix_chunk_bytes) mid (λ x. spells.small x j)) l.room
          l.entries l.loaded_ready in
      let pending : after.pending ≡ stack = kept ∙ l.kept ∙ popped in
      elim (Bool-cases (ltb (j + 1) chunk_count)) [
        | inl next ↦
            let ys = stable_sort by_chunk mid in
            let size : length ys ≡ length mid = length-stable_sort by_chunk mid in
            let width : length pre + length mid - length pre ≡ length mid = omega arith in
            let index : j + 1 ≡ suc j = omega arith in
            let ready' = λ (l : List IdMsdChunkRange). IsReady-pending after l ready in
            let whole : stable_sort key ys ≡ stable_sort key mid =
              stable_sort_coarse by_chunk key (λ x y e. chunk_of_key spells j m x y place e) mid in
            let pushes =
              push_equal_chunks (map (load by_chunk) ys ++ tail) (length pre)
                (length pre + length mid) (length mid) (suc j) after.pending in
            let runs =
              pushed_runs j m p (length mid) (length pre + length mid)
                (record after { pending = pushes }) pre ys post tail after.pending stack place sorts
                (sym size) (omega arith) refl
                (All-stable_sort by_chunk (λ x. first_chunks spells j x ≡ p) mid agree)
                (stable_sort-IsStableSort by_chunk mid).sorted (ready' pushes) pending in
            rw (next, run, width, index, ← whole) runs
        | inr last ↦
            rw (last, run)
              (
                [],
                pending,
                rw
                    (last_chunk_sorts spells j
                      (omega (arith, place, ltb→le (j + 1) chunk_count last)) p mid agree)
                    (Runs-none radix_chunk_bytes policy lawful small_threshold chunk_count chunk
                      small_range_sorter after (pre ++ (stable_sort key mid ++ post)) stack
                      (length mid * suc m) ready),
              )
      ]

  -- A range that is large enough to be loaded.
  large_range :
      (j m p : ℕ) (workspace : IdMsdChunkSortWorkspace Scratch) (pre mid post : List ℕ)
      (stack : List IdMsdChunkRange)
      → j + suc m ≡ chunk_count
      → SortsAt radix_chunk_bytes policy lawful small_threshold chunk_count chunk small_range_sorter
          (256 ^ radix_chunk_bytes)
          P
          key
          spells
          (suc j)
          m
      → leb (length mid) 1 ≡ false
      → leb (length mid) small_threshold ≡ false
      → All (λ x. first_chunks spells j x ≡ p) mid
      → IsReady policy lawful workspace
      → Here workspace
          (pre ++ (mid ++ post))
          (chunk_range (length pre) (length pre + length mid) j ∷ [])
          stack
          (1 + length mid * suc m)
          (pre ++ (stable_sort key mid ++ post))
  large_range j m p workspace pre [] post stack place sorts more large agree ready =
      absurd (omega (arith, leb→lt 0 1 more))
  large_range j m p workspace pre (x ∷ mid) post stack place sorts more large agree ready =
      let popped = record workspace { pending = stack } in
      let size : length pre + length (x ∷ mid) - length pre ≡ length (x ∷ mid) = omega arith in
      let big = leb→lt (length (x ∷ mid)) 1 more in
      let inside : leb chunk_count j ≡ false = lt→leb chunk_count j (omega arith) in
      let taken : (leb (length pre + length (x ∷ mid) - length pre) 1 || leb chunk_count j)
          ≡ false =
        ap₂ ◌||◌ (ap (λ z. leb z 1) size ∙ more) inside in
      let (l, differs, step) =
        process_large radix_chunk_bytes policy lawful small_threshold chunk_count chunk
          small_range_sorter pre x mid post j popped (IsReady-pending workspace stack ready) more
          large in
      let range = chunk_range (length pre) (length pre + length (x ∷ mid)) j in
      let rounds =
        λ (order : List ℕ) (workspace' : IdMsdChunkSortWorkspace Scratch)
            (pushed : List IdMsdChunkRange).
          Runs-process radix_chunk_bytes policy lawful small_threshold chunk_count chunk
            small_range_sorter workspace workspace' (pre ++ ((x ∷ mid) ++ post)) order
            (pre ++ (stable_sort key (x ∷ mid) ++ post)) range pushed stack
            (length (x ∷ mid) * suc m) taken in
      elim (Bool-cases (l.differing_bits == 0)) [
        | inl same ↦
            let equal = differs.0 (==→≡ l.differing_bits 0 same) in
            let agree' = agree_next spells j p (chunk x j) (x ∷ mid) agree equal in
            elim (Bool-cases (ltb (j + 1) chunk_count)) [
              | inl next ↦
                  let range_end = length pre + length (x ∷ mid) in
                  let again = chunk_range (length pre) range_end (j + 1) ∷ l.loaded.pending in
                  let workspace' : IdMsdChunkSortWorkspace Scratch = record l.loaded {
                    pending = again;
                  } in
                  let inner =
                    sorts workspace' pre (x ∷ mid) post (p * 256 ^ radix_chunk_bytes + chunk x j)
                      (length pre) range_end stack refl refl agree'
                      (IsReady-pending l.loaded again l.loaded_ready) in
                  rounds (pre ++ ((x ∷ mid) ++ post)) workspace'
                    (chunk_range (length pre) range_end (suc j) ∷ []) (rw (same, next) at step)
                    (ap₂ (λ c s. chunk_range (length pre) range_end c ∷ s) (omega arith) l.kept)
                    (Runs-weaken radix_chunk_bytes policy lawful small_threshold chunk_count chunk
                      small_range_sorter workspace' (pre ++ ((x ∷ mid) ++ post))
                      (pre ++ (stable_sort key (x ∷ mid) ++ post))
                      (chunk_range (length pre) range_end (suc j) ∷ []) stack
                      (1 + length (x ∷ mid) * m) (length (x ∷ mid) * suc m) inner
                      (one_more (length (x ∷ mid)) m big))
              | inr last ↦
                  let at : suc j ≡ chunk_count =
                    omega (arith, place, ltb→le (j + 1) chunk_count last) in
                  let done =
                    equal_chunks_sorted spells (p * 256 ^ radix_chunk_bytes + chunk x j) (x ∷ mid) (
                      subst
                        (λ n.
                          All
                            (λ y. first_chunks spells n y ≡ p * 256 ^ radix_chunk_bytes + chunk x j)
                            (x ∷ mid))
                        at agree') in
                  let order = pre ++ ((x ∷ mid) ++ post) in
                  rounds order l.loaded [] (rw (same, last) at step) l.kept (
                    subst
                      (λ r.
                        Here l.loaded order [] stack (length (x ∷ mid) * suc m)
                          (pre ++ (r ++ post)))
                      (sym done)
                      (Runs-none radix_chunk_bytes policy lawful small_threshold chunk_count chunk
                        small_range_sorter l.loaded order stack (length (x ∷ mid) * suc m)
                        l.loaded_ready))
            ]
        | inr other ↦
            let (pushed, kept, runs) =
              loaded_range j m p popped pre (x ∷ mid) post stack l place sorts big agree refl in
            rounds _ _ pushed (rw other at step) kept runs
      ]

  -- A range of any size whose identifiers agree on the first `j` chunks, with `n` chunks left.
  pub sort_range :
      (n j : ℕ)
      → j + n ≡ chunk_count
      → SortsAt radix_chunk_bytes policy lawful small_threshold chunk_count chunk small_range_sorter
          (256 ^ radix_chunk_bytes)
          P
          key
          spells
          j
          n
  sort_range zero j place workspace pre mid post p b e stack hb he agree ready =
      let all : j ≡ chunk_count = omega arith in
      let done =
        equal_chunks_sorted spells p mid
          (subst (λ c. All (λ y. first_chunks spells c y ≡ p) mid) all agree) in
      let skip =
        skip_all (leb chunk_count j) (le→leb chunk_count j (omega arith)) (leb (e - b) 1) in
      rw done (
        Runs-skip radix_chunk_bytes policy lawful small_threshold chunk_count chunk
          small_range_sorter workspace (pre ++ (mid ++ post)) (chunk_range b e j) stack
          (length mid * 0) ready skip)
  sort_range (suc m) j place workspace pre mid post p b e stack hb he agree ready =
      let budget = length mid * suc m in
      let order = pre ++ (mid ++ post) in
      let size : e - b ≡ length mid = omega arith in
      elim (Bool-cases (leb (length mid) 1)) [
        | inl short ↦
            let skip : (leb (e - b) 1 || leb chunk_count j) ≡ true =
              ap (λ z. z || leb chunk_count j) (ap (λ z. leb z 1) size ∙ short) in
            rw (short_sorted key mid (leb→le (length mid) 1 short)) (
              Runs-skip radix_chunk_bytes policy lawful small_threshold chunk_count chunk
                small_range_sorter workspace order (chunk_range b e j) stack budget ready skip)
        | inr more ↦ elim (Bool-cases (leb (length mid) small_threshold)) [
          | inl small ↦
              let popped = record workspace { pending = stack } in
              let inside : leb chunk_count j ≡ false = lt→leb chunk_count j (omega arith) in
              let taken : (leb (e - b) 1 || leb chunk_count j) ≡ false =
                ap₂ ◌||◌ (ap (λ z. leb z 1) size ∙ more) inside in
              let sorted = pre ++ (stable_sort key mid ++ post) in
              let sorts : small_range_sorter order b e ≡ ok sorted =
                ap₂ (small_range_sorter order) hb he
                ∙ sorter_law pre mid post (leb→lt (length mid) 1 more)
                    (leb→le (length mid) small_threshold small) in
              Runs-process radix_chunk_bytes policy lawful small_threshold chunk_count chunk
                small_range_sorter workspace popped order sorted sorted (chunk_range b e j) [] stack
                budget taken
                (process_small radix_chunk_bytes policy lawful small_threshold chunk_count chunk
                  small_range_sorter order sorted b e j popped (ap (λ z. leb z 1) size ∙ more)
                  (ap (λ z. leb z small_threshold) size ∙ small) sorts)
                refl
                (Runs-none radix_chunk_bytes policy lawful small_threshold chunk_count chunk
                  small_range_sorter popped sorted stack budget
                  (IsReady-pending workspace stack ready))
          | inr large ↦
              rw (hb, he)
                (large_range j m p workspace pre mid post stack place
                  (sort_range m (suc j) (omega arith)) more large agree ready)
        ]
      ]

  -- The rounds that the loop is given suffice, and it sorts the range.
  pub sort_pending_lem :
      (pre mid post : List ℕ) (workspace : IdMsdChunkSortWorkspace Scratch)
      → IsReady policy lawful workspace
      → (after : IdMsdChunkSortWorkspace Scratch) × (sort_pending radix_chunk_bytes policy
            small_threshold chunk_count chunk small_range_sorter
            (1 + length mid * chunk_count)
            (chunk_range (length pre) (length pre + length mid) 0 ∷ [])
            (pre ++ (mid ++ post))
            workspace
          ≡ ok (pre ++ (stable_sort key mid ++ post), after))
  unfolding sort_pending
  sort_pending_lem pre mid post workspace ready =
      let done =
        sort_range chunk_count 0 (omega arith) workspace pre mid post 0 (length pre)
          (length pre + length mid) [] refl refl
          (All-of (λ x. first_chunks spells 0 x ≡ 0) mid (λ x. refl)) ready in
      let rounds = 1 + length mid * chunk_count in
      (done.after, done.runs (rounds - done.used) rounds (omega (arith, done.used_le)) ∙ refl)
