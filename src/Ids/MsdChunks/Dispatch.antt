-- ===== src/Ids/MsdChunks/Dispatch.antt =====
-- The choice of the histogram for the byte passes: `dispatchLsdIndexMsdChunkSortPreFilled`.
use forest_sorting.Prelude.{
  ℕ, ◌+◌, ◌-◌, ◌%◌, ◌^◌, ◌≤◌, ◌<◌, ◌≡◌, refl, sym, ap, subst, ◌∙◌, inl, inr, Bool, true, false,
  ◌||◌, List, ◌++◌, map, arith, leb, ◌==◌, Bool-cases, All, length, take, drop, length-set,
  length-take, take-append-drop,
}
use forest_sorting.Loops.{for_range_inv}
use forest_sorting.Radix.Counts.{
  Counter, full_clear_counter, new_full_clear_scratch, FullClearCountScratch,
}
use forest_sorting.Radix.Counts.Laws.{CounterLaws}
use forest_sorting.Radix.Counts.Full.{full_clear-CounterLaws, new_full_clear-IsClean}
use forest_sorting.Radix.Partition.{CounterTraits}
use forest_sorting.Radix.Partition.Ranges.{LawfulTraits}
use forest_sorting.Stable.{stable_sort}
use forest_sorting.Ids.MsdChunks.{
  IdMsdChunkEntry, IdMsdChunkSortWorkspace, LsdState, dispatch_lsd_sort_pre_filled, lsd_move,
  lsd_pass, stable_lsd_sort_pre_filled, keep_arrays,
}
use forest_sorting.Ids.MsdChunks.Lsd.{load, stable_lsd_sort_pre_filled-sorts}

module _ {Scratch : Type 0} (counter : Counter Scratch) (room : ℕ) where
  -- Both arrays have room.
  abbrev pub HasRoom : LsdState Scratch → Type 0
  HasRoom state = (room ≤ length state.source) × (room ≤ length state.destination)

  lsd_move-room :
      (range_size : ℕ) (source : List IdMsdChunkEntry) (byte_pass : ℕ)
      (r : Scratch × List IdMsdChunkEntry)
      → room ≤ length r.1
      → room ≤ length (lsd_move counter range_size source byte_pass r).1
  unfolding lsd_move
  lsd_move-room range_size source byte_pass r h =
      for_range_inv (λ k (t : Scratch × List IdMsdChunkEntry). room ≤ length t.1) _ range_size 0
        (0 + range_size) refl (λ k t p q h. omega (arith, h, length-set t.1 _ _)) r h

  lsd_pass-HasRoom :
      (range_size byte_pass : ℕ) (state : LsdState Scratch)
      → HasRoom state
      → HasRoom (lsd_pass counter range_size byte_pass state)
  unfolding lsd_pass
  lsd_pass-HasRoom range_size byte_pass state h =
      (lsd_move-room range_size state.source byte_pass _ h.1, h.0)

  pub lsd_sort-HasRoom :
      (radix_chunk_bytes : ℕ) (order : List ℕ) (range_begin range_end : ℕ)
      (state : LsdState Scratch)
      → HasRoom state
      → HasRoom
          (stable_lsd_sort_pre_filled radix_chunk_bytes counter order range_begin range_end state).1
  unfolding stable_lsd_sort_pre_filled
  lsd_sort-HasRoom radix_chunk_bytes order range_begin range_end state h =
      let passed =
        for_range_inv (λ k (t : LsdState Scratch). HasRoom t)
          (lsd_pass counter (range_end - range_begin)) radix_chunk_bytes 0 (0 + radix_chunk_bytes)
          refl (λ k t p q h. lsd_pass-HasRoom (range_end - range_begin) k t h) state h in
      elim (Bool-cases (leb (range_end - range_begin) 1)) [ inl e ↦ rw e h | inr e ↦ rw e passed ]

-- One sort, with what it leaves of the arrays.
sort_with :
    {Scratch : Type 0} (counter : Counter Scratch) (laws : CounterLaws counter)
    (radix_chunk_bytes room : ℕ) (key : ℕ → ℕ) (pre mid post : List ℕ)
    (rest next : List IdMsdChunkEntry) (s : Scratch)
    → All (λ i. key i < 256 ^ radix_chunk_bytes) mid
    → length mid ≤ room
    → room ≤ length (map (load key) mid ++ rest)
    → room ≤ length next
    → laws.IsClean s
    → (tail : List IdMsdChunkEntry) × (destination : List IdMsdChunkEntry) × (after : Scratch)
      × laws.IsClean after
      × (stable_lsd_sort_pre_filled radix_chunk_bytes counter
            (pre ++ (mid ++ post))
            (length pre)
            (length pre + length mid)
            (record { source = map (load key) mid ++ rest; destination = next; count_scratch = s })
          ≡ (
            pre ++ (stable_sort key mid ++ post),
            record {
              source = map (load key) (stable_sort key mid) ++ tail;
              destination = destination;
              count_scratch = after;
            },
          ))
      × (room ≤ length (map (load key) (stable_sort key mid) ++ tail))
      × (room ≤ length destination)
sort_with {Scratch = Scratch} counter laws radix_chunk_bytes room key pre mid post rest next s small
      fits source_room next_room clean =
    let size = length mid in
    let front = take size next in
    let back = drop size next in
    let cut : front ++ back ≡ next = take-append-drop size next in
    let front_size : length front ≡ size = omega (arith, length-take size next) in
    let (tail, destination, after, clean', run) =
      stable_lsd_sort_pre_filled-sorts counter laws radix_chunk_bytes key pre mid post rest front
        back s small front_size clean in
    let start = λ (l : List IdMsdChunkEntry).
      stable_lsd_sort_pre_filled radix_chunk_bytes counter (pre ++ (mid ++ post)) (length pre)
        (length pre + length mid)
        (record { source = map (load key) mid ++ rest; destination = l; count_scratch = s }) in
    let done = ap start (sym cut) ∙ run in
    let before : LsdState Scratch = record {
      source = map (load key) mid ++ rest;
      destination = next;
      count_scratch = s;
    } in
    let room_left =
      subst (λ (r : List ℕ × LsdState Scratch). HasRoom counter room r.1) done
        (lsd_sort-HasRoom counter room radix_chunk_bytes (pre ++ (mid ++ post)) (length pre)
          (length pre + length mid) before (source_room, next_room)) in
    (tail, destination, after, clean', done, room_left.0, room_left.1)

module _ {Scratch : Type 0} (policy : CounterTraits Scratch) (lawful : LawfulTraits policy) where
  -- The arrays have the capacity that is noted, and the histogram is clean.
  pub record IsReady (workspace : IdMsdChunkSortWorkspace Scratch) : Type 0 where
    pub current_room : workspace.capacity ≤ length workspace.current
    pub next_room : workspace.capacity ≤ length workspace.next
    pub clean : lawful.laws.IsClean workspace.touched_scratch

  keep_arrays-IsReady :
      {Counts : Type 0} (same_roles : Bool) (state : LsdState Counts)
      (workspace : IdMsdChunkSortWorkspace Scratch)
      → workspace.capacity ≤ length state.source
      → workspace.capacity ≤ length state.destination
      → lawful.laws.IsClean workspace.touched_scratch
      → IsReady (keep_arrays same_roles state workspace)
        × ((keep_arrays same_roles state workspace).pending ≡ workspace.pending)
  unfolding keep_arrays
  keep_arrays-IsReady true state workspace a b c =
      (record { current_room = a; next_room = b; clean = c }, refl)
  keep_arrays-IsReady false state workspace a b c =
      (record { current_room = b; next_room = a; clean = c }, refl)

  -- Whichever histogram is chosen, the range is sorted stably by its chunks.
  pub dispatch_lsd_sort_pre_filled_lem :
      (radix_chunk_bytes : ℕ) (key : ℕ → ℕ) (pre mid post : List ℕ) (rest : List IdMsdChunkEntry)
      (workspace : IdMsdChunkSortWorkspace Scratch)
      → All (λ i. key i < 256 ^ radix_chunk_bytes) mid
      → length mid ≤ workspace.capacity
      → workspace.current ≡ map (load key) mid ++ rest
      → IsReady workspace
      → (tail : List IdMsdChunkEntry) × (after : IdMsdChunkSortWorkspace Scratch) × IsReady after
        × (after.pending ≡ workspace.pending)
        × (dispatch_lsd_sort_pre_filled radix_chunk_bytes policy
              (pre ++ (mid ++ post))
              (length pre)
              (length pre + length mid)
              workspace
            ≡ (
              pre ++ (stable_sort key mid ++ post),
              map (load key) (stable_sort key mid) ++ tail,
              after,
            ))
  unfolding dispatch_lsd_sort_pre_filled
  dispatch_lsd_sort_pre_filled_lem radix_chunk_bytes key pre mid post rest workspace small fits
        loaded ready =
      let room = workspace.capacity in
      let have : room ≤ length (map (load key) mid ++ rest) =
        subst (λ (l : List IdMsdChunkEntry). room ≤ length l) loaded ready.current_room in
      let size : length pre + length mid - length pre ≡ length mid = omega arith in
      let same_roles : Bool =
        leb (length pre + length mid - length pre) 1 || (radix_chunk_bytes % 2 == 0) in
      elim (Bool-cases policy.always_use_policy) [
        | inl always ↦
            let (tail, destination, after, clean, run, source_room, next_room) =
              sort_with policy.counter lawful.laws radix_chunk_bytes room key pre mid post rest
                workspace.next policy.new_scratch small fits have ready.next_room
                lawful.new_clean in
            let state : LsdState Scratch = record {
              source = map (load key) (stable_sort key mid) ++ tail;
              destination = destination;
              count_scratch = after;
            } in
            let kept : IdMsdChunkSortWorkspace Scratch = workspace in
            let (ready', pending') =
              keep_arrays-IsReady same_roles state kept source_room next_room ready.clean in
            (
              tail,
              keep_arrays same_roles state kept,
              ready',
              pending',
              rw (always, loaded, run) refl,
            )
        | inr sometimes ↦
            elim (Bool-cases (policy.use_policy_for_range (length pre + length mid - length pre))) [
              | inl picked ↦
                  let (tail, destination, after, clean, run, source_room, next_room) =
                    sort_with policy.counter lawful.laws radix_chunk_bytes room key pre mid post
                      rest workspace.next workspace.touched_scratch small fits have ready.next_room
                      ready.clean in
                  let state : LsdState Scratch = record {
                    source = map (load key) (stable_sort key mid) ++ tail;
                    destination = destination;
                    count_scratch = after;
                  } in
                  let kept : IdMsdChunkSortWorkspace Scratch = record workspace {
                    touched_scratch = after;
                  } in
                  let (ready', pending') =
                    keep_arrays-IsReady same_roles state kept source_room next_room clean in
                  (
                    tail,
                    keep_arrays same_roles state kept,
                    ready',
                    pending',
                    rw (sometimes, picked, loaded, run) refl,
                  )
              | inr fallback ↦
                  let (tail, destination, after, clean, run, source_room, next_room) =
                    sort_with full_clear_counter full_clear-CounterLaws radix_chunk_bytes room key
                      pre mid post rest workspace.next new_full_clear_scratch small fits have
                      ready.next_room new_full_clear-IsClean in
                  let state : LsdState FullClearCountScratch = record {
                    source = map (load key) (stable_sort key mid) ++ tail;
                    destination = destination;
                    count_scratch = after;
                  } in
                  let kept : IdMsdChunkSortWorkspace Scratch = workspace in
                  let (ready', pending') =
                    keep_arrays-IsReady same_roles state kept source_room next_room ready.clean in
                  (
                    tail,
                    keep_arrays same_roles state kept,
                    ready',
                    pending',
                    rw (sometimes, fallback, loaded, run) refl,
                  )
            ]
      ]
