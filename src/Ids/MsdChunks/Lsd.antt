-- ===== src/Ids/MsdChunks/Lsd.antt =====
-- The passes over the bytes of a chunk sort the entries stably by the chunk.
use forest_sorting.Prelude.{
  ℕ, zero, suc, ◌+◌, ◌-◌, ◌*◌, ◌/◌, ◌%◌, ◌^◌, ◌<◌, ◌≡◌, refl, sym, ap, ap₂, subst, ◌∙◌, inl, inr,
  List, [], ◌∷◌, ◌++◌, map, append_assoc, arith, leb, Bool-cases, leb→le, length, get_or, set, All,
  length-append, get_or-append_at, set-append_at, All-of, All-map, length-map,
}
use forest_sorting.Radix.Partition.{word_byte}
use forest_sorting.Ids.MsdChunks.{
  IdMsdChunkEntry, lsd_pass, lsd_note, lsd_move, blank_entry, LsdState, stable_lsd_sort_pre_filled,
}
use forest_sorting.Radix.Counts.{Counter}
use forest_sorting.Radix.Counts.Laws.{CounterLaws}
use forest_sorting.Ids.Chunks.Value.{pow_256, pow_pos, mod_split}
use native.Mathlib.Nat.{pow-suc, zero-add, mod-lt, mod-eq_of_lt}
use forest_sorting.Radix.Partition.Distribute.{deliver, notes_lem}
use forest_sorting.Stable.{stable_sort, length-stable_sort, stable_sort-IsStableSort}
use forest_sorting.Scatter.Sorts.{digit_count, scatter-stable_sort}
use forest_sorting.Loops.{for_each, for_range-slice, for_range}
use mathlib.Core.Path.{fun_ext}
use forest_sorting.Radix.Partition.Distribute.{notes_lem, deliver_lem, deliver, digit_used}
use forest_sorting.Scatter.Blocks.{total}
use forest_sorting.Stable.Unique.{
  IsStableSort-eq, stable_sort-map, stable_sort_cong, short_sorted, same_key_sorted,
}
use forest_sorting.Stable.Compose.{minor_major-IsStableSort}

entry_digit : ℕ → IdMsdChunkEntry → ℕ
entry_digit byte_pass entry = word_byte entry.chunk byte_pass

-- The low bytes of a chunk.
abbrev low_bytes : ℕ → IdMsdChunkEntry → ℕ
low_bytes k entry = entry.chunk % 256 ^ k

low_bytes_split :
    (k : ℕ) (entry : IdMsdChunkEntry)
    → low_bytes (suc k) entry ≡ entry_digit k entry * 256 ^ k + low_bytes k entry
unfolding entry_digit word_byte
low_bytes_split k entry =
    let power : 2 ^ (k * 8) ≡ 256 ^ k = ap (λ z. 2 ^ z) (omega arith) ∙ sym (pow_256 k) in
    ap (λ z. entry.chunk % z) (pow-suc 256 k)
    ∙ sym (mod_split (256 ^ k) entry.chunk (pow_pos 256 k (omega arith)))
    ∙ ap (λ p. entry.chunk / p % 256 * 256 ^ k + entry.chunk % 256 ^ k) (sym power)

entry_digit-lt : (k : ℕ) (entry : IdMsdChunkEntry) → entry_digit k entry < 256
unfolding entry_digit word_byte
entry_digit-lt k entry = omega arith

module _ {Scratch : Type 0} (counter : Counter Scratch) (laws : CounterLaws counter) where
  -- One pass on the first entries of the arrays.
  lsd_pass_lem :
      (k : ℕ) (xs rest old : List IdMsdChunkEntry) (rest' : List IdMsdChunkEntry) (s : Scratch)
      → length old ≡ length xs
      → laws.IsClean s
      → (after : Scratch) × laws.IsClean after
        × (lsd_pass counter
              (length xs)
              k
              (record { source = xs ++ rest; destination = old ++ rest'; count_scratch = s })
            ≡ record {
              source = stable_sort (entry_digit k) xs ++ rest';
              destination = xs ++ rest;
              count_scratch = after;
            })
  unfolding lsd_pass lsd_note lsd_move entry_digit deliver
  lsd_pass_lem k xs rest old rest' s same clean =
      let digits = All-of (λ x. entry_digit k x < 256) xs (λ x. entry_digit-lt k x) in
      let f : ℕ → ℕ = digit_count (entry_digit k) xs in
      let noted = for_each (λ x s. counter.note s (entry_digit k x)) xs (counter.reset s) in
      let noting : lsd_note counter (length xs) (xs ++ rest) k (counter.reset s) ≡ noted =
        for_range-slice (λ x s. counter.note s (entry_digit k x)) blank_entry [] xs rest (length xs)
          0 (counter.reset s) refl refl in
      let holds : laws.Holds noted f = subst (laws.Holds noted) (fun_ext λ d. zero-add (f d)) (
        notes_lem counter laws (entry_digit k) xs (counter.reset s) (λ d. 0) digits
          (laws.reset_law s clean)) in
      let prefixed = counter.prefix noted 0 in
      let next : ℕ → ℕ = λ d. 0 + total f 0 d in
      let (offsets, written) =
        deliver_lem counter laws (entry_digit k) xs prefixed (old ++ rest') f next digits
          (digit_used (entry_digit k) xs) (laws.prefix_law noted f 0 holds) in
      let moved = for_each (deliver counter (entry_digit k)) xs (prefixed, old ++ rest') in
      let moving : lsd_move counter (length xs) (xs ++ rest) k (prefixed, old ++ rest') ≡ moved =
        for_range-slice (deliver counter (entry_digit k)) blank_entry [] xs rest (length xs) 0
          (prefixed, old ++ rest') refl refl in
      let sorted : moved.1 ≡ stable_sort (entry_digit k) xs ++ rest' =
        written
        ∙ scatter-stable_sort (entry_digit k) 256 [] rest' xs old next digits same
            (λ d l u. refl) in
      (
        counter.clear moved.0,
        laws.clear_law moved.0 f (λ d. next d + digit_count (entry_digit k) xs d) offsets,
        rw (noting, moving, sorted) refl,
      )

-- A pass after the lower bytes are sorted.
one_more_byte :
    (k : ℕ) (xs : List IdMsdChunkEntry)
    → stable_sort (entry_digit k) (stable_sort (low_bytes k) xs)
      ≡ stable_sort (low_bytes (suc k)) xs
one_more_byte k xs =
    let ys = stable_sort (low_bytes k) xs in
    IsStableSort-eq (low_bytes (suc k)) xs (stable_sort (entry_digit k) ys) (
      minor_major-IsStableSort (entry_digit k) (low_bytes k) (low_bytes (suc k)) (256 ^ k)
        (pow_pos 256 k (omega arith)) (λ x. mod-lt x.chunk (pow_pos 256 k (omega arith)))
        (low_bytes_split k) xs ys (stable_sort (entry_digit k) ys)
        (stable_sort-IsStableSort (low_bytes k) xs) (stable_sort-IsStableSort (entry_digit k) ys))

module _ {Scratch : Type 0} (counter : Counter Scratch) (laws : CounterLaws counter)
    (xs : List IdMsdChunkEntry) where
  -- What the passes leave after some of them.
  record Passed (k : ℕ) (state : LsdState Scratch) : Type 0 where
    sorted_rest : List IdMsdChunkEntry
    sorted : state.source ≡ stable_sort (low_bytes k) xs ++ sorted_rest
    room_front : List IdMsdChunkEntry
    room_rest : List IdMsdChunkEntry
    room : state.destination ≡ room_front ++ room_rest
    room_size : length room_front ≡ length xs
    clean : laws.IsClean state.count_scratch

  lsd_pass-Passed :
      (k : ℕ) (state : LsdState Scratch)
      → Passed k state
      → Passed (suc k) (lsd_pass counter (length xs) k state)
  lsd_pass-Passed k state p =
      let ys = stable_sort (low_bytes k) xs in
      let size : length ys ≡ length xs = length-stable_sort (low_bytes k) xs in
      let known : LsdState Scratch = record {
        source = ys ++ p.sorted_rest;
        destination = p.room_front ++ p.room_rest;
        count_scratch = state.count_scratch;
      } in
      let same : state ≡ known =
        ap₂ (λ a b. record state { source = a; destination = b }) p.sorted p.room in
      let (after, clean, run) =
        lsd_pass_lem counter laws k ys p.sorted_rest p.room_front p.room_rest state.count_scratch
          (p.room_size ∙ sym size) p.clean in
      let done : lsd_pass counter (length xs) k state ≡ record {
        source = stable_sort (entry_digit k) ys ++ p.room_rest;
        destination = ys ++ p.sorted_rest;
        count_scratch = after;
      } =
        ap₂ (λ n t. lsd_pass counter n k t) (sym size) same ∙ run in
      rw done (record {
        sorted_rest = p.room_rest;
        sorted = ap (λ l. l ++ p.room_rest) (one_more_byte k xs);
        room_front = ys;
        room_rest = p.sorted_rest;
        room = refl;
        room_size = size;
        clean = clean;
      })

  lsd_passes-Passed :
      (n k : ℕ) (state : LsdState Scratch)
      → Passed k state
      → Passed (k + n) (for_range n k (lsd_pass counter (length xs)) state)
  unfolding for_range
  lsd_passes-Passed zero k state p = subst (λ z. Passed z state) (omega arith) p
  lsd_passes-Passed (suc n) k state p =
      let at : k + 1 ≡ suc k = omega arith in
      subst
        (λ z. Passed z (
          for_range n (k + 1) (lsd_pass counter (length xs))
            (lsd_pass counter (length xs) k state)))
        (omega arith)
        (lsd_passes-Passed n (k + 1) (lsd_pass counter (length xs) k state) (
          subst (λ z. Passed z (lsd_pass counter (length xs) k state)) (sym at)
            (lsd_pass-Passed k state p)))

-- The loop that writes the indices back.
write_indices :
    (range_begin n i : ℕ) (pre mid post : List ℕ) (front entries rest : List IdMsdChunkEntry)
    → length entries ≡ length mid
    → n ≡ length mid
    → i ≡ length front
    → length pre ≡ range_begin + i
    → for_range n i
        (λ offset order.
          set order
            (range_begin + offset)
            (get_or (front ++ (entries ++ rest)) offset blank_entry).index)
        (pre ++ (mid ++ post))
      ≡ pre ++ (map (λ (e : IdMsdChunkEntry). e.index) entries ++ post)
unfolding for_range
write_indices b zero i pre [] post front [] rest m e f g = refl
write_indices b n i pre [] post front (x ∷ entries) rest m e f g = absurd (omega arith)
write_indices b (suc n) i pre [] post front [] rest m e f g = absurd (omega arith)
write_indices b n i pre (y ∷ mid) post front [] rest m e f g = absurd (omega arith)
write_indices b zero i pre (y ∷ mid) post front (x ∷ entries) rest m e f g = absurd (omega arith)
write_indices b (suc n) i pre (y ∷ mid) post front (x ∷ entries) rest m e f g =
    let from = λ (l : List IdMsdChunkEntry).
      for_range n (i + 1)
        (λ offset order. set order (b + offset) (get_or l offset blank_entry).index) in
    let here : set (pre ++ (y ∷ (mid ++ post))) (b + i)
          (get_or (front ++ (x ∷ (entries ++ rest))) i blank_entry).index
        ≡ (pre ++ x.index ∷ []) ++ (mid ++ post) =
      ap (λ (z : IdMsdChunkEntry). set (pre ++ (y ∷ (mid ++ post))) (b + i) z.index)
        (get_or-append_at front x (entries ++ rest) blank_entry i f)
      ∙ set-append_at pre y (mid ++ post) x.index (b + i) (omega arith)
      ∙ sym (append_assoc pre (x.index ∷ []) (mid ++ post)) in
    ap₂ from (sym (append_assoc front (x ∷ []) (entries ++ rest))) here
    ∙ write_indices b n (i + 1) (pre ++ x.index ∷ []) mid post (front ++ x ∷ []) entries rest
        (omega arith) (omega arith) (omega (arith, length-append front (x ∷ [])))
        (omega (arith, length-append pre (x.index ∷ [])))
    ∙ append_assoc pre (x.index ∷ []) (map (λ (e : IdMsdChunkEntry). e.index) entries ++ post)

-- An entry of the array, from the index and its chunk.
abbrev pub load : (ℕ → ℕ) → ℕ → IdMsdChunkEntry
load key i = record { chunk = key i; index = i }

indices_of_load :
    (key : ℕ → ℕ) (l : List ℕ) → map (λ (e : IdMsdChunkEntry). e.index) (map (load key) l) ≡ l
indices_of_load key [] = refl
indices_of_load key (x ∷ l) = ap (◌∷◌ x) (indices_of_load key l)

load_sorted :
    (B : ℕ) (key : ℕ → ℕ) (l : List ℕ)
    → All (λ i. key i < 256 ^ B) l
    → stable_sort (low_bytes B) (map (load key) l) ≡ map (load key) (stable_sort key l)
load_sorted B key l small =
    stable_sort-map (load key) (low_bytes B) l
    ∙ ap (map (load key)) (
        stable_sort_cong (λ i. key i % 256 ^ B) key l
          (All-map (λ i. key i < 256 ^ B) (λ i. key i % 256 ^ B ≡ key i) l (λ i h. mod-eq_of_lt h)
            small))

-- The passes over the bytes of a chunk, on any lawful histogram that is clean: the range of the order
-- becomes its stable sort by the chunk, the rest kept, the entries end in the same order, and the
-- histogram is clean again. The entries are those of the range, the other array has as much room, and
-- the chunks fit in the bytes.
pub stable_lsd_sort_pre_filled-sorts :
    {Scratch : Type 0} (counter : Counter Scratch) (laws : CounterLaws counter)
    (radix_chunk_bytes : ℕ) (key : ℕ → ℕ) (pre mid post : List ℕ)
    (rest front back : List IdMsdChunkEntry) (s : Scratch)
    → All (λ i. key i < 256 ^ radix_chunk_bytes) mid
    → length front ≡ length mid
    → laws.IsClean s
    → (tail : List IdMsdChunkEntry) × (destination : List IdMsdChunkEntry) × (after : Scratch)
      × laws.IsClean after
      × (stable_lsd_sort_pre_filled radix_chunk_bytes counter
            (pre ++ (mid ++ post))
            (length pre)
            (length pre + length mid)
            (record {
              source = map (load key) mid ++ rest;
              destination = front ++ back;
              count_scratch = s;
            })
          ≡ (
            pre ++ (stable_sort key mid ++ post),
            record {
              source = map (load key) (stable_sort key mid) ++ tail;
              destination = destination;
              count_scratch = after;
            },
          ))
unfolding stable_lsd_sort_pre_filled
stable_lsd_sort_pre_filled-sorts {Scratch = Scratch} counter laws radix_chunk_bytes key pre mid post
      rest front back s small room clean =
    let size : length pre + length mid - length pre ≡ length mid = omega arith in
    elim (Bool-cases (leb (length mid) 1)) [
      | inl e ↦
          let short = short_sorted key mid (leb→le (length mid) 1 e) in
          (rest, front ++ back, s, clean, rw (size, e, short) refl)
      | inr e ↦
          let xs = map (load key) mid in
          let many : length xs ≡ length mid = length-map (load key) mid in
          let state : LsdState Scratch = record {
            source = xs ++ rest;
            destination = front ++ back;
            count_scratch = s;
          } in
          let unsorted : Passed counter laws xs 0 state = record {
            sorted_rest = rest;
            sorted =
                ap (λ l. l ++ rest)
                  (sym (
                    same_key_sorted (low_bytes 0) 0 xs
                      (All-of (λ x. low_bytes 0 x ≡ 0) xs (λ x. omega arith))));
            room_front = front;
            room_rest = back;
            room = refl;
            room_size = room ∙ sym many;
            clean = clean;
          } in
          let last = for_range radix_chunk_bytes 0 (lsd_pass counter (length mid)) state in
          let done : Passed counter laws xs radix_chunk_bytes last =
            subst
              (λ n.
                Passed counter laws xs radix_chunk_bytes
                  (for_range radix_chunk_bytes 0 (lsd_pass counter n) state))
              many
              (subst
                (λ k.
                  Passed counter laws xs k
                    (for_range radix_chunk_bytes 0 (lsd_pass counter (length xs)) state))
                (zero-add radix_chunk_bytes)
                (lsd_passes-Passed counter laws xs radix_chunk_bytes 0 state unsorted)) in
          let sorted : last.source ≡ map (load key) (stable_sort key mid) ++ done.sorted_rest =
            done.sorted
            ∙ ap (λ l. l ++ done.sorted_rest) (load_sorted radix_chunk_bytes key mid small) in
          let entries = map (load key) (stable_sort key mid) in
          let write = λ (l : List IdMsdChunkEntry).
            for_range (length mid) 0
              (λ offset order. set order (length pre + offset) (get_or l offset blank_entry).index)
              (pre ++ (mid ++ post)) in
          let written : write last.source ≡ pre ++ (stable_sort key mid ++ post) =
            ap write sorted
            ∙ write_indices (length pre) (length mid) 0 pre mid post [] entries done.sorted_rest
                (length-map (load key) (stable_sort key mid) ∙ length-stable_sort key mid) refl refl
                (omega arith)
            ∙ ap (λ l. pre ++ (l ++ post)) (indices_of_load key (stable_sort key mid)) in
          let ends : last ≡ record {
            source = entries ++ done.sorted_rest;
            destination = last.destination;
            count_scratch = last.count_scratch;
          } =
            ap (λ l. record last { source = l }) sorted in
          (
            done.sorted_rest,
            last.destination,
            last.count_scratch,
            done.clean,
            rw (size, e) (ap₂ (λ o l. (o, l)) written ends),
          )
    ]
