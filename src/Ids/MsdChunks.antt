-- ===== src/Ids/MsdChunks.antt =====
-- The radix sort of a range by identifier (include/forest_sorting/detail/id_radix.hpp): chunks from
-- the most significant one, each by passes over its bytes from the least significant one.
pub mod Lsd
pub mod Sort
pub mod Fill
pub mod Runs
pub mod Dispatch
pub mod Digits
pub mod Rounds
pub mod Groups
pub mod Process
pub mod Sorts
use forest_sorting.Prelude.{
  ℕ, zero, suc, ◌+◌, ◌-◌, ◌*◌, ◌/◌, ◌%◌, ◌^◌, ◌≤◌, ◌<◌, max, min, ◌≡◌, refl, sym, ap, ap₂, subst,
  ◌∙◌, ◌≢◌, ◌↔◌, ◌⊎◌, inl, inr, Bool, true, false, not, ◌&&◌, ◌||◌, Option, none, some, List, [],
  ◌∷◌, ◌++◌, map, append-nil, append_assoc, arith, ltb, leb, ◌==◌, if◌then◌else◌, Bool-cases,
  Option-cases, ltb→lt, ltb→le, lt→ltb, le→ltb, leb→le, leb→lt, le→leb, lt→leb, ==→≡, ==→≢, ==_refl,
  ≡→==, ≢→==, length, get_or, set, replicate, take, drop, All, iota, length-iota, length-append,
  length-set, length-replicate, length-take, length-drop, take-append-drop, get_or-set_self,
  get_or-set_ne, get_or-replicate, get_or-append_at, set-append_at, get_or-append_left, get_or_ext,
  All-get_or, All-of, All-append, All-map, length-map,
}
use forest_sorting.Traits.{IdTraits}
use forest_sorting.Radix.Counts.{Counter, full_clear_counter, new_full_clear_scratch}
use forest_sorting.Radix.Partition.{CounterTraits, word_byte}
use forest_sorting.Loops.{for_range}
use Prim.Native.Nat.{bit_or, bit_xor}
use forest_sorting.Scatter.Increment.{increment}

abbrev pub small_id_range_sort_threshold : ℕ
small_id_range_sort_threshold = 32

abbrev pub production_id_radix_chunk_bytes : ℕ
production_id_radix_chunk_bytes = 4

abbrev pub production_touched_count_max_range_size : ℕ
production_touched_count_max_range_size = 512

pub record IdMsdChunkRange : Type 0 where
  pub begin : ℕ
  pub end : ℕ
  pub chunk_index : ℕ

pub record IdMsdChunkEntry : Type 0 where
  pub chunk : ℕ
  pub index : ℕ

-- A value-initialised entry, which is also what a read out of bounds gives.
abbrev pub blank_entry : IdMsdChunkEntry
blank_entry = record { chunk = 0; index = 0 }

-- `std::swap(source, destination)` makes the pointers change places: the arrays by their roles.
pub record LsdState (Scratch : Type 0) : Type 0 where
  pub source : List IdMsdChunkEntry
  pub destination : List IdMsdChunkEntry
  pub count_scratch : Scratch

module _ {Scratch : Type 0} (counter : Counter Scratch) (range_size : ℕ) where
  unfoldable pub lsd_note : List IdMsdChunkEntry → ℕ → Scratch → Scratch
  lsd_note source byte_pass s =
      for_range range_size 0
        (λ offset s. counter.note s (word_byte (get_or source offset blank_entry).chunk byte_pass))
        s

  unfoldable pub lsd_move :
      List IdMsdChunkEntry → ℕ → Scratch × List IdMsdChunkEntry → Scratch × List IdMsdChunkEntry
  lsd_move source byte_pass r =
      for_range range_size 0
        (λ offset (s, destination).
          let entry = get_or source offset blank_entry in
          let digit = word_byte entry.chunk byte_pass in
          (
            counter.with_counts s (increment (counter.counts s) digit),
            set destination (get_or (counter.counts s) digit 0) entry,
          ))
        r

  -- One round of the loop over the bytes.
  unfoldable pub lsd_pass : ℕ → LsdState Scratch → LsdState Scratch
  lsd_pass byte_pass state =
      let noted = lsd_note state.source byte_pass (counter.reset state.count_scratch) in
      let (moved, destination') =
        lsd_move state.source byte_pass (counter.prefix noted 0, state.destination) in
      record {
        source = destination';
        destination = state.source;
        count_scratch = counter.clear moved;
      }

-- `stableLsdSortIndexRangeByIdMsdChunkWithCounterPreFilled`: the order and the arrays, the sorted one
-- as the source.
unfoldable pub stable_lsd_sort_pre_filled :
    {Scratch : Type 0}
    → ℕ
    → Counter Scratch
    → List ℕ
    → ℕ
    → ℕ
    → LsdState Scratch
    → List ℕ × LsdState Scratch
stable_lsd_sort_pre_filled radix_chunk_bytes counter order range_begin range_end state =
    let range_size = range_end - range_begin in
    let state' = for_range radix_chunk_bytes 0 (lsd_pass counter range_size) state in
    if leb range_size 1 then (order, state) else (
      for_range range_size 0
          (λ offset order.
            set order (range_begin + offset) (get_or state'.source offset blank_entry).index)
          order,
      state',
    )

-- `IdMsdChunkSortWorkspace`
pub record IdMsdChunkSortWorkspace (Scratch : Type 0) : Type 0 where
  pub pending : List IdMsdChunkRange
  pub current : List IdMsdChunkEntry
  pub next : List IdMsdChunkEntry
  pub capacity : ℕ
  pub touched_scratch : Scratch

unfoldable pub allocate :
    {Scratch : Type 0} → ℕ → IdMsdChunkSortWorkspace Scratch → IdMsdChunkSortWorkspace Scratch
allocate range_size workspace =
    if leb range_size workspace.capacity then workspace else record workspace {
      current = replicate range_size blank_entry;
      next = replicate range_size blank_entry;
      capacity = range_size;
    }

-- The arrays of the workspace after the passes, which end with the roles exchanged for an odd number.
unfoldable pub keep_arrays :
    {Scratch Counts : Type 0}
    → Bool
    → LsdState Counts
    → IdMsdChunkSortWorkspace Scratch
    → IdMsdChunkSortWorkspace Scratch
keep_arrays same_roles state workspace =
    if same_roles
    then record workspace { current = state.source; next = state.destination }
    else record workspace { current = state.destination; next = state.source }

module _ {Scratch : Type 0} (radix_chunk_bytes : ℕ) (policy : CounterTraits Scratch) where
  -- `dispatchLsdIndexMsdChunkSortPreFilled`: the order, the sorted entries and the workspace.
  unfoldable pub dispatch_lsd_sort_pre_filled :
      List ℕ
      → ℕ
      → ℕ
      → IdMsdChunkSortWorkspace Scratch
      → List ℕ × List IdMsdChunkEntry × IdMsdChunkSortWorkspace Scratch
  dispatch_lsd_sort_pre_filled order range_begin range_end workspace =
      let range_size = range_end - range_begin in
      let same_roles = leb range_size 1 || (radix_chunk_bytes % 2 == 0) in
      if policy.always_use_policy
      then (let (order', state) =
            stable_lsd_sort_pre_filled radix_chunk_bytes policy.counter order range_begin range_end
              (record {
                source = workspace.current;
                destination = workspace.next;
                count_scratch = policy.new_scratch;
              }) in
          (order', state.source, keep_arrays same_roles state workspace))
      else if policy.use_policy_for_range range_size
      then (let (order', state) =
            stable_lsd_sort_pre_filled radix_chunk_bytes policy.counter order range_begin range_end
              (record {
                source = workspace.current;
                destination = workspace.next;
                count_scratch = workspace.touched_scratch;
              }) in
          (
            order',
            state.source,
            keep_arrays same_roles state
                (record workspace { touched_scratch = state.count_scratch }),
          ))
      else (let (order', state) =
            stable_lsd_sort_pre_filled radix_chunk_bytes full_clear_counter order range_begin
              range_end
              (record {
                source = workspace.current;
                destination = workspace.next;
                count_scratch = new_full_clear_scratch;
              }) in
          (order', state.source, keep_arrays same_roles state workspace))

-- One round of the loop that fills `current`: the entries, the first chunk and the bits in which one
-- differs.
unfoldable pub fill_entry :
    (ℕ → ℕ) → List ℕ → ℕ → ℕ → List IdMsdChunkEntry × ℕ × ℕ → List IdMsdChunkEntry × ℕ × ℕ
fill_entry chunk_extractor order range_begin offset (current, first_chunk, differing_bits) =
    let item_index = get_or order (range_begin + offset) 0 in
    let current_chunk = chunk_extractor item_index in
    let current' = set current offset (record { chunk = current_chunk; index = item_index }) in
    if offset == 0
    then (current', current_chunk, differing_bits)
    else (current', first_chunk, bit_or differing_bits (bit_xor current_chunk first_chunk))

unfoldable pub fill_entries :
    (ℕ → ℕ) → List ℕ → ℕ → ℕ → List IdMsdChunkEntry → List IdMsdChunkEntry × ℕ × ℕ
fill_entries chunk_extractor order range_begin range_size current =
    for_range range_size 0 (fill_entry chunk_extractor order range_begin) (current, 0, 0)

-- The last loop: a range for each run of equal chunks.
unfoldable pub push_equal_chunks :
    List IdMsdChunkEntry → ℕ → ℕ → ℕ → ℕ → List IdMsdChunkRange → List IdMsdChunkRange
push_equal_chunks sorted_chunks range_begin range_end range_size next_chunk_index pending =
    let (equal_chunk_begin, previous_chunk, pending') =
      for_range {State = ℕ × ℕ × List IdMsdChunkRange} (range_size - 1) 1
        (λ offset (equal_chunk_begin, previous_chunk, pending).
          let current_chunk = (get_or sorted_chunks offset blank_entry).chunk in
          if current_chunk == previous_chunk
          then (equal_chunk_begin, previous_chunk, pending)
          else (
            range_begin + offset,
            current_chunk,
            record {
              begin = equal_chunk_begin;
              end = range_begin + offset;
              chunk_index = next_chunk_index;
            }
                ∷ pending,
          ))
        (range_begin, (get_or sorted_chunks 0 blank_entry).chunk, pending) in
    record { begin = equal_chunk_begin; end = range_end; chunk_index = next_chunk_index } ∷ pending'
