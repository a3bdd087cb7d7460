-- ===== src/Ids/MsdChunks/Rounds.antt =====
-- The loop over the pending ranges of the identifier sort, as far as the ranges on top of the stack.
use forest_sorting.Prelude.{
  ℕ, suc, ◌+◌, ◌-◌, ◌≤◌, ◌≡◌, refl, ap, ◌∙◌, true, false, ◌||◌, List, [], ◌∷◌, ◌++◌, append_assoc,
  arith, leb,
}
use forest_sorting.Errors.{Result, ok}
use forest_sorting.Radix.Partition.{CounterTraits}
use forest_sorting.Radix.Partition.Ranges.{LawfulTraits}
use forest_sorting.Ids.MsdChunks.{IdMsdChunkRange, IdMsdChunkSortWorkspace}
use forest_sorting.Ids.MsdChunks.Sort.{sort_pending, process_id_msd_chunk_range}
use forest_sorting.Ids.MsdChunks.Dispatch.{IsReady}

module _ {Scratch : Type 0} (radix_chunk_bytes : ℕ) (policy : CounterTraits Scratch)
    (lawful : LawfulTraits policy) (small_threshold chunk_count : ℕ) (chunk : ℕ → ℕ → ℕ)
    (small_range_sorter : List ℕ → ℕ → ℕ → Result (List ℕ)) where
  abbrev Workspace : Type 0
  Workspace = IdMsdChunkSortWorkspace Scratch

  abbrev loop : ℕ → List IdMsdChunkRange → List ℕ → Workspace → Result (List ℕ × Workspace)
  loop rounds pending order workspace =
      sort_pending radix_chunk_bytes policy small_threshold chunk_count chunk small_range_sorter
        rounds pending order workspace

  abbrev process : List ℕ → ℕ → ℕ → ℕ → Workspace → Result (List ℕ × Workspace)
  process order range_begin range_end chunk_index workspace =
      process_id_msd_chunk_range radix_chunk_bytes policy small_threshold chunk_count chunk
        small_range_sorter order range_begin range_end chunk_index workspace

  -- The ranges above `stack` are done after some rounds, and turn `order` into `order'`.
  pub record Runs (workspace : Workspace) (order : List ℕ) (ranges stack : List IdMsdChunkRange)
      (budget : ℕ) (order' : List ℕ) : Type 0 where
    pub used : ℕ
    pub used_le : used ≤ budget
    pub after : Workspace
    pub ready : IsReady policy lawful after
    pub runs :
        (rounds total : ℕ)
        → total ≡ used + rounds
        → loop total (ranges ++ stack) order workspace ≡ loop rounds stack order' after

  pub Runs-none :
      (workspace : Workspace) (order : List ℕ) (stack : List IdMsdChunkRange) (budget : ℕ)
      → IsReady policy lawful workspace
      → Runs workspace order [] stack budget order
  Runs-none workspace order stack budget ready = record {
    used = 0;
    used_le = omega arith;
    after = workspace;
    ready = ready;
    runs = λ rounds total e.
        let e' : total ≡ rounds = omega arith in ap (λ n. loop n stack order workspace) e';
  }

  pub Runs-append :
      (workspace : Workspace) (order order' order'' : List ℕ)
      (first second stack : List IdMsdChunkRange) (a b budget : ℕ)
      → (r : Runs workspace order first (second ++ stack) a order')
      → Runs r.after order' second stack b order''
      → a + b ≤ budget
      → Runs workspace order (first ++ second) stack budget order''
  Runs-append workspace order order' order'' first second stack a b budget r t h = record {
    used = r.used + t.used;
    used_le = omega (arith, r.used_le, t.used_le);
    after = t.after;
    ready = t.ready;
    runs = λ rounds total e.
        ap (λ l. loop total l order workspace) (append_assoc first second stack)
        ∙ r.runs (t.used + rounds) total (omega (arith, e))
        ∙ t.runs rounds (t.used + rounds) refl;
  }

  pub Runs-weaken :
      (workspace : Workspace) (order order' : List ℕ) (ranges stack : List IdMsdChunkRange)
      (a budget : ℕ)
      → Runs workspace order ranges stack a order'
      → a ≤ budget
      → Runs workspace order ranges stack budget order'
  Runs-weaken workspace order order' ranges stack a budget r h = record {
    used = r.used;
    used_le = omega (arith, r.used_le);
    after = r.after;
    ready = r.ready;
    runs = r.runs;
  }

  -- A range that is skipped.
  pub Runs-skip :
      (workspace : Workspace) (order : List ℕ) (range : IdMsdChunkRange)
      (stack : List IdMsdChunkRange) (budget : ℕ)
      → IsReady policy lawful workspace
      → (leb (range.end - range.begin) 1 || leb chunk_count range.chunk_index) ≡ true
      → Runs workspace order (range ∷ []) stack (1 + budget) order
  unfolding sort_pending
  Runs-skip workspace order range stack budget ready e = record {
    used = 1;
    used_le = omega arith;
    after = record workspace { pending = stack };
    ready = record {
      current_room = ready.current_room;
      next_room = ready.next_room;
      clean = ready.clean;
    };
    runs = λ rounds total f. let f' : total ≡ suc rounds = omega arith in rw (f', e) refl;
  }

  -- A range that is processed, and then what it pushed.
  pub Runs-process :
      (workspace workspace' : Workspace) (order order' order'' : List ℕ) (range : IdMsdChunkRange)
      (pushed stack : List IdMsdChunkRange) (budget : ℕ)
      → (leb (range.end - range.begin) 1 || leb chunk_count range.chunk_index) ≡ false
      → process order range.begin range.end range.chunk_index (record workspace { pending = stack })
        ≡ ok (order', workspace')
      → workspace'.pending ≡ pushed ++ stack
      → Runs workspace' order' pushed stack budget order''
      → Runs workspace order (range ∷ []) stack (1 + budget) order''
  unfolding sort_pending
  Runs-process workspace workspace' order order' order'' range pushed stack budget e step kept r =
      record {
        used = 1 + r.used;
        used_le = omega (arith, r.used_le);
        after = r.after;
        ready = r.ready;
        runs = λ rounds total f.
            let f' : total ≡ suc (r.used + rounds) = omega arith in
            rw (f', e, step)
              (ap (λ l. loop (r.used + rounds) l order' workspace') kept
                ∙ r.runs rounds (r.used + rounds) refl);
      }
