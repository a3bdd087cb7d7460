-- ===== src/Radix/Partition/Single.antt =====
-- What `partitionSingleRange` leaves, whichever number of buckets is in use.
use forest_sorting.Prelude.{
  ℕ, zero, suc, ◌+◌, ◌-◌, ◌≤◌, ◌<◌, ◌≡◌, refl, sym, ap, ap₂, subst, ◌∙◌, ◌≢◌, inl, inr, List, [],
  ◌∷◌, ◌++◌, arith, ◌==◌, Bool-cases, lt→ltb, le→ltb, ==→≡, ==→≢, ≡→==, ≢→==, length, get_or, set,
  All, length-append,
}
use forest_sorting.Scatter.Blocks.{total, length-blocks, All-having_self, total_last}
use forest_sorting.Radix.Counts.Laws.{used_ranges, use_count, CounterLaws}
use forest_sorting.Stable.{having, stable_sort, length-stable_sort}
use forest_sorting.Radix.Counts.{RadixRange, Counter}
use forest_sorting.Scatter.Sorts.{digit_count, buckets-eq_stable_sort, scatter-stable_sort}
use forest_sorting.Stable.Unique.{same_key_sorted}
use forest_sorting.Radix.Partition.{
  partition_single_range, MsdStore, distribute_range, order_client, move_offset,
}
use native.Mathlib.Nat.{zero-add}
use forest_sorting.Radix.Partition.Distribute.{
  three_parts, note_range_lem, deliver_lem, notes_lem, deliver, move_range_lem, copy_back,
  digit_used,
}
use forest_sorting.Loops.{for_each, for_range}
use forest_sorting.Scatter.{scatter}
use mathlib.Core.Path.{fun_ext}

abbrev pub radix_range : ℕ → ℕ → ℕ → RadixRange
radix_range begin end digit_index = record { begin = begin; end = end; digit_index = digit_index }

-- The ranges of the buckets in use follow each other.
module _ (f start next : ℕ → ℕ) (digit_index : ℕ) (ends : (d : ℕ) → next d ≡ start d + f d)
    (follows : (d : ℕ) → start (suc d) ≡ next d) where
  use_count_zero : (lo k : ℕ) → f lo ≡ 0 → use_count f lo (suc k) ≡ use_count f (suc lo) k
  unfolding use_count
  use_count_zero lo k e = rw (≡→== (f lo) 0 e) (omega arith)

  use_count_some : (lo k : ℕ) → f lo ≢ 0 → use_count f lo (suc k) ≡ suc (use_count f (suc lo) k)
  unfolding use_count
  use_count_some lo k e = rw (≢→== (f lo) 0 e) (omega arith)

  pub used_ranges_skip :
      (lo k : ℕ)
      → f lo ≡ 0
      → used_ranges f start next digit_index lo (suc k)
        ≡ used_ranges f start next digit_index (suc lo) k
  unfolding used_ranges
  used_ranges_skip lo k e = rw (le→ltb 0 (f lo) (omega (arith, e))) refl

  pub used_ranges_take :
      (lo k : ℕ)
      → f lo ≢ 0
      → used_ranges f start next digit_index lo (suc k)
        ≡ record { begin = start lo; end = next lo; digit_index = digit_index }
          ∷ used_ranges f start next digit_index (suc lo) k
  unfolding used_ranges
  used_ranges_take lo k e = rw (lt→ltb 0 (f lo) (omega (arith, e))) refl

  pub no_bucket :
      (lo k : ℕ)
      → use_count f lo k ≡ 0
      → (used_ranges f start next digit_index lo k ≡ []) × (total f lo k ≡ 0)
  unfolding used_ranges
  no_bucket lo zero h = (refl, refl)
  no_bucket lo (suc k) h = elim (Bool-cases (f lo == 0)) [
    | inl e ↦
        let at = ==→≡ (f lo) 0 e in
        let (ranges, sum) = no_bucket (suc lo) k (sym (use_count_zero lo k at) ∙ h) in
        (used_ranges_skip lo k at ∙ ranges, omega arith)
    | inr e ↦ absurd (omega (arith, use_count_some lo k (==→≢ (f lo) 0 e)))
  ]

  pub one_bucket :
      (lo k : ℕ)
      → use_count f lo k ≡ 1
      → (used_ranges f start next digit_index lo k
          ≡ record { begin = start lo; end = start lo + total f lo k; digit_index = digit_index }
            ∷ [])
        × (d : ℕ) × (f d ≡ total f lo k)
  unfolding used_ranges use_count
  one_bucket lo zero h = absurd (omega arith)
  one_bucket lo (suc k) h = elim (Bool-cases (f lo == 0)) [
    | inl e ↦
        let at = ==→≡ (f lo) 0 e in
        let (ranges, d, all) = one_bucket (suc lo) k (sym (use_count_zero lo k at) ∙ h) in
        let same : start (suc lo) ≡ start lo = omega (arith, follows lo, ends lo) in
        let sum : start (suc lo) + total f (suc lo) k ≡ start lo + (f lo + total f (suc lo) k) =
          omega (arith, same) in
        (
          used_ranges_skip lo k at
              ∙ ranges
              ∙ ap₂ (λ b e. radix_range b e digit_index ∷ []) same sum,
          d,
          omega arith,
        )
    | inr e ↦
        let at = ==→≢ (f lo) 0 e in
        let (ranges, sum) = no_bucket (suc lo) k (omega (arith, use_count_some lo k at)) in
        let stop : next lo ≡ start lo + (f lo + total f (suc lo) k) = omega (arith, ends lo) in
        (
          used_ranges_take lo k at
              ∙ ap₂ (λ z l. radix_range (start lo) z digit_index ∷ l) stop ranges,
          lo,
          omega arith,
        )
  ]

-- A digit that all elements have.
having_whole : (digit : ℕ → ℕ) (d : ℕ) (xs : List ℕ) → length (having digit d xs) ≤ length xs
unfolding having
having_whole digit d [] = omega arith
having_whole digit d (x ∷ xs) = ground (arith, having_whole digit d xs)

having_same :
    (digit : ℕ → ℕ) (d : ℕ) (xs : List ℕ)
    → length (having digit d xs) ≡ length xs
    → having digit d xs ≡ xs
unfolding having
having_same digit d [] h = refl
having_same digit d (x ∷ xs) h = elim (Bool-cases (digit x == d)) [
  | inl e ↦ rw e (ap (◌∷◌ x) (having_same digit d xs (omega (arith, (rw e at h)))))
  | inr e ↦ absurd (omega (arith, having_whole digit d xs, (rw e at h)))
]

pub digit_total :
    (digit : ℕ → ℕ) (xs : List ℕ)
    → All (λ x. digit x < 256) xs
    → total (digit_count digit xs) 0 256 ≡ length xs
digit_total digit xs small =
    sym (length-blocks (λ d. having digit d xs) (digit_count digit xs) 0 256 (λ e p q. refl))
    ∙ ap length (buckets-eq_stable_sort digit 256 xs small)
    ∙ length-stable_sort digit xs

-- With one digit the stable sort has nothing to do.
one_digit_sorted :
    (digit : ℕ → ℕ) (xs : List ℕ) (d : ℕ)
    → length (having digit d xs) ≡ length xs
    → stable_sort digit xs ≡ xs
one_digit_sorted digit xs d h =
    let whole = having_same digit d xs h in
    let own = subst (All (λ x. digit x ≡ d)) whole (All-having_self digit d xs) in
    same_key_sorted digit d xs own

module _ {Scratch Consumer : Type 0} (counter : Counter Scratch) (laws : CounterLaws counter)
    (digit_for_index : ℕ → ℕ → ℕ) (range_done : ℕ → ℕ → List ℕ → Consumer → Consumer) (j : ℕ)
    (pre mid post : List ℕ) (small : All (λ x. digit_for_index x j < 256) mid) where
  abbrev digit : ℕ → ℕ
  digit x = digit_for_index x j

  -- Where each bucket begins and ends.
  abbrev bucket_begin : ℕ → ℕ
  bucket_begin d = length pre + total (digit_count digit mid) 0 d

  abbrev bucket_end : ℕ → ℕ
  bucket_end d = bucket_begin d + digit_count digit mid d

  -- The result: the range is sorted by the digit, and its buckets are on the stack.
  pub record Partitioned (stack : List RadixRange) (scratch_size : ℕ) (c : Consumer)
      (result : List RadixRange × Scratch × MsdStore Consumer) : Type 0 where
    pub pushed :
        result.0
        ≡ used_ranges (digit_count digit mid) bucket_begin bucket_end (j + 1) 0 256 ++ stack
    pub clean : laws.IsClean result.1
    pub arranged : result.2.order ≡ pre ++ (stable_sort digit mid ++ post)
    pub scratch_length : length result.2.scratch ≡ scratch_size
    pub consumer_kept : result.2.consumer ≡ c

  bucket_follows : (d : ℕ) → bucket_begin (suc d) ≡ bucket_end d
  bucket_follows d = omega (arith, total_last (digit_count digit mid) 0 d d (sym (zero-add d)))

  distribute_range_lem :
      (stack : List RadixRange) (scratch : List ℕ) (c : Consumer) (noted : Scratch)
      (range : RadixRange)
      → range.begin ≡ length pre
      → range.end - range.begin ≡ length mid
      → range.digit_index ≡ j
      → length scratch ≡ length pre + (length mid + length post)
      → laws.Holds noted (digit_count digit mid)
      → Partitioned stack (length scratch) c (
          distribute_range counter
            (order_client digit_for_index range_done)
            range
            stack
            noted
            (record { order = pre ++ (mid ++ post); scratch = scratch; consumer = c }))
  unfolding distribute_range order_client
  distribute_range_lem stack scratch c noted range b n i room h =
      let (p, m, q, split, len_p, len_m, len_q) =
        three_parts scratch (length pre) (length mid) (length post) room in
      let prefixed = counter.prefix noted range.begin in
      let offsets : laws.Offsets prefixed (digit_count digit mid) bucket_begin =
        subst
          (λ z.
            laws.Offsets prefixed (digit_count digit mid)
              (λ d. z + total (digit_count digit mid) 0 d))
          b (laws.prefix_law noted (digit_count digit mid) range.begin h) in
      let (moved_offsets, written) =
        deliver_lem counter laws digit mid prefixed scratch (digit_count digit mid) bucket_begin
          small (digit_used digit mid) offsets in
      let moved = for_each (deliver counter digit) mid (prefixed, scratch) in
      let sorted : moved.1 ≡ p ++ (stable_sort digit mid ++ q) =
        written
        ∙ ap (λ l. scatter digit mid l bucket_begin) split
        ∙ scatter-stable_sort digit 256 p q mid m bucket_begin small len_m
            (λ d l u. omega (arith, len_p)) in
      let loop : for_range (range.end - range.begin) range.begin
            (move_offset counter (order_client digit_for_index range_done) range.digit_index)
            (prefixed, record { order = pre ++ (mid ++ post); scratch = scratch; consumer = c })
          ≡ (moved.0, record { order = pre ++ (mid ++ post); scratch = moved.1; consumer = c }) =
        rw i (
          move_range_lem counter digit_for_index range_done j pre mid post scratch c prefixed
            (range.end - range.begin) range.begin n b) in
      rw (loop, i)
        (record {
          pushed =
              laws.push_law prefixed moved.0 (digit_count digit mid) bucket_begin bucket_end stack
                (j + 1) offsets moved_offsets (λ d l e. omega arith) (λ d l e. omega arith);
          clean = laws.clear_law moved.0 (digit_count digit mid) bucket_end moved_offsets;
          arranged =
              ap
                (λ l.
                  for_range (range.end - range.begin) range.begin
                    (λ offset order. set order offset (get_or l offset 0)) (pre ++ (mid ++ post)))
                sorted
              ∙ copy_back pre mid post p (stable_sort digit mid) q (range.end - range.begin)
                  range.begin len_p (length-stable_sort digit mid) n b;
          scratch_length =
              ap length sorted
              ∙ omega (
                arith,
                length-append p (stable_sort digit mid ++ q),
                length-append (stable_sort digit mid) q,
                length-stable_sort digit mid,
                room,
              );
          consumer_kept = refl;
        })

  pub partition_single_range_lem :
      (stack : List RadixRange) (scratch : List ℕ) (c : Consumer) (s : Scratch) (range : RadixRange)
      → range.begin ≡ length pre
      → range.end ≡ length pre + length mid
      → range.digit_index ≡ j
      → 0 < length mid
      → length scratch ≡ length pre + (length mid + length post)
      → laws.IsClean s
      → Partitioned stack (length scratch) c (
          partition_single_range counter
            (order_client digit_for_index range_done)
            range
            stack
            s
            (record { order = pre ++ (mid ++ post); scratch = scratch; consumer = c }))
  unfolding partition_single_range
  partition_single_range_lem stack scratch c s range b e i some_element room clean =
      let n : range.end - range.begin ≡ length mid = omega arith in
      let noted = for_each (λ x s. counter.note s (digit x)) mid (counter.reset s) in
      let noting =
        note_range_lem counter digit_for_index range_done j pre mid post scratch c (counter.reset s)
          range n b i in
      let holds : laws.Holds noted (digit_count digit mid) =
        subst (laws.Holds noted) (fun_ext λ d. zero-add (digit_count digit mid d)) (
          notes_lem counter laws digit mid (counter.reset s) (λ d. 0) small
            (laws.reset_law s clean)) in
      let used : counter.count_non_zero noted ≡ use_count (digit_count digit mid) 0 256 =
        laws.count_law noted (digit_count digit mid) holds in
      let sum = digit_total digit mid small in
      elim (Bool-cases (use_count (digit_count digit mid) 0 256 == 0)) [
        | inl zero_used ↦
            let (ranges, none_noted) =
              no_bucket (digit_count digit mid) bucket_begin bucket_end (j + 1) (λ d. refl)
                bucket_follows 0 256 (==→≡ (use_count (digit_count digit mid) 0 256) 0 zero_used) in
            absurd (omega (arith, none_noted, sum))
        | inr some_used ↦ elim (Bool-cases (use_count (digit_count digit mid) 0 256 == 1)) [
          | inl one_used ↦
              let (ranges, d, whole) =
                one_bucket (digit_count digit mid) bucket_begin bucket_end (j + 1) (λ d. refl)
                  bucket_follows 0 256
                  (==→≡ (use_count (digit_count digit mid) 0 256) 1 one_used) in
              let first : length pre + 0 ≡ range.begin = omega arith in
              let last : length pre + 0 + total (digit_count digit mid) 0 256 ≡ range.end =
                omega (arith, sum) in
              rw (noting, used, some_used, one_used)
                (record {
                  pushed =
                      ap (λ z. radix_range range.begin range.end (z + 1) ∷ stack) i
                      ∙ ap₂ (λ b e. radix_range b e (j + 1) ∷ stack) (sym first) (sym last)
                      ∙ ap (λ l. l ++ stack) (sym ranges);
                  clean = laws.clear_counts_law noted (digit_count digit mid) holds;
                  arranged =
                      ap (λ l. pre ++ (l ++ post))
                        (sym (one_digit_sorted digit mid d (whole ∙ sum)));
                  scratch_length = refl;
                  consumer_kept = refl;
                })
          | inr more_used ↦
              rw (noting, used, some_used, more_used)
                (distribute_range_lem stack scratch c noted range b n i room holds)
        ]
      ]
