-- ===== src/Radix/Partition/Sorts.antt =====
-- The loop over the stack of ranges sorts stably by the digits, within the rounds that it is given.
use forest_sorting.Prelude.{
  ℕ, zero, suc, ◌+◌, ◌-◌, ◌*◌, ◌≤◌, ◌<◌, ◌≡◌, refl, sym, ap, ap₂, subst, ◌∙◌, ◌≢◌, inl, inr, true,
  false, ◌||◌, Option, List, [], ◌∷◌, ◌++◌, append_assoc, arith, leb, ◌==◌, Bool-cases, leb→le,
  leb→lt, lt→leb, ==→≡, ==→≢, ≡→==, ≢→==, length, length-append, All-of,
}
use forest_sorting.Radix.Partition.{
  CounterTraits, process_radix_range, PartitionState, partition_loop, MsdStore, order_client,
  partition_with_policy,
}
use forest_sorting.Radix.Counts.Laws.{CounterLaws, used_ranges}
use forest_sorting.Radix.Counts.{RadixRange, full_clear_counter}
use forest_sorting.Stable.{stable_sort, length-stable_sort, having}
use forest_sorting.Scatter.Blocks.{blocks, total, total_last}
use forest_sorting.Radix.Counts.Full.{full_clear-CounterLaws}
use forest_sorting.Radix.Partition.Single.{
  used_ranges_skip, radix_range, used_ranges_take, digit_total,
}
use native.Mathlib.Nat.{zero-add}
use forest_sorting.Stable.Unique.{same_key_sorted, short_sorted}
use forest_sorting.Scatter.Sorts.{digit_count, buckets-eq_stable_sort}
use forest_sorting.Radix.Partition.Round.{partition-Round}
use forest_sorting.Radix.Partition.Buckets.{digit_buckets, suffix_value}

nil_of_length : (l : List ℕ) → length l ≡ 0 → l ≡ []
nil_of_length [] h = refl
nil_of_length (x ∷ l) h = absurd (omega arith)

module _ {Scratch Consumer : Type 0} (traits : CounterTraits Scratch)
    (laws : CounterLaws traits.counter) (digit_for_index : ℕ → ℕ → ℕ)
    (range_done : ℕ → ℕ → List ℕ → Consumer → Consumer)
    (small : (x j : ℕ) → digit_for_index x j < 256) (last_digit : ℕ) where
  abbrev State : Type 0
  State = PartitionState Scratch (MsdStore Consumer)

  abbrev loop : ℕ → List RadixRange → State → Option State
  loop rounds stack s =
      partition_loop traits (order_client digit_for_index range_done) rounds last_digit stack s

  -- Between two rounds.
  pub record Ready (order : List ℕ) (s : State) : Type 0 where
    pub policy_clean : laws.IsClean s.policy_scratch
    pub fallback_clean : full_clear-CounterLaws.IsClean s.fallback_scratch
    pub arranged : s.store.order ≡ order
    pub scratch_length : length s.store.scratch ≡ length order

  -- The ranges on top of the stack are done after some rounds, and leave `order`.
  pub record Runs (s : State) (ranges : List RadixRange) (budget : ℕ) (order : List ℕ)
      : Type 0 where
    pub used : ℕ
    pub used_le : used ≤ budget
    pub after : State
    pub ready : Ready order after
    pub runs :
        (stack : List RadixRange) (rounds total : ℕ)
        → total ≡ used + rounds
        → loop total (ranges ++ stack) s ≡ loop rounds stack after

  Runs-none : (s : State) (budget : ℕ) (order : List ℕ) → Ready order s → Runs s [] budget order
  Runs-none s budget order r = record {
    used = 0;
    used_le = omega arith;
    after = s;
    ready = r;
    runs = λ stack rounds total e.
        let e' : total ≡ rounds = omega arith in ap (λ n. loop n stack s) e';
  }

  Runs-append :
      (s : State) (first second : List RadixRange) (a b budget : ℕ) (order order' : List ℕ)
      → (r : Runs s first a order) → Runs r.after second b order'
      → a + b ≤ budget
      → Runs s (first ++ second) budget order'
  Runs-append s first second a b budget order order' r t h = record {
    used = r.used + t.used;
    used_le = omega (arith, r.used_le, t.used_le);
    after = t.after;
    ready = t.ready;
    runs = λ stack rounds total e.
        ap (λ l. loop total l s) (append_assoc first second stack)
        ∙ r.runs (second ++ stack) (t.used + rounds) total (omega (arith, e))
        ∙ t.runs stack rounds (t.used + rounds) refl;
  }

  -- One round, and what it pushed.
  Runs-round :
      (s s' : State) (range : RadixRange) (pushed : List RadixRange) (budget : ℕ) (order : List ℕ)
      → ((stack : List RadixRange)
          → process_radix_range traits
              (order_client digit_for_index range_done)
              last_digit
              range
              stack
              s
            ≡ (pushed ++ stack, s'))
      → Runs s' pushed budget order
      → Runs s (range ∷ []) (1 + budget) order
  unfolding partition_loop
  Runs-round s s' range pushed budget order step r = record {
    used = 1 + r.used;
    used_le = omega (arith, r.used_le);
    after = r.after;
    ready = r.ready;
    runs = λ stack rounds total e.
        let e' : total ≡ suc (r.used + rounds) = omega arith in
        rw (e', step stack) (r.runs stack rounds (r.used + rounds) refl);
  }

  -- A range that is done.
  terminal :
      (s : State) (range : RadixRange) (order : List ℕ)
      → Ready order s
      → (leb (range.end - range.begin) 1 || (range.digit_index == last_digit)) ≡ true
      → Runs s (range ∷ []) 1 order
  unfolding process_radix_range order_client
  terminal s range order r e =
      let s' : State = record s {
        store = record s.store {
          consumer = range_done range.begin range.end s.store.order s.store.consumer;
        };
      } in
      Runs-round s s' range [] 0 order (λ stack. rw e refl)
        (Runs-none s' 0 order (record {
          policy_clean = r.policy_clean;
          fallback_clean = r.fallback_clean;
          arranged = r.arranged;
          scratch_length = r.scratch_length;
        }))

  -- The buckets of a range, the lowest first, when each of them is sorted by `minor`.
  module _ (f start next : ℕ → ℕ) (j n : ℕ) (minor : ℕ → ℕ) (bucket : ℕ → List ℕ)
      (sizes : (d : ℕ) → length (bucket d) ≡ f d) (ends : (d : ℕ) → next d ≡ start d + f d)
      (follows : (d : ℕ) → start (suc d) ≡ next d)
      (sort_bucket : (s : State) (pre mid post : List ℕ) (range : RadixRange)
        → range.begin ≡ length pre
        → range.end ≡ length pre + length mid
        → range.digit_index ≡ j
        → Ready (pre ++ (mid ++ post)) s
        → Runs s (range ∷ []) (1 + length mid * n) (pre ++ (stable_sort minor mid ++ post))) where
    pub all_buckets :
        (k lo : ℕ) (s : State) (pre post : List ℕ)
        → start lo ≡ length pre
        → Ready (pre ++ (blocks bucket lo k ++ post)) s
        → Runs s
            (used_ranges f start next j lo k)
            (total f lo k * (1 + n))
            (pre ++ (blocks (λ d. stable_sort minor (bucket d)) lo k ++ post))
    unfolding used_ranges stable_sort
    all_buckets zero lo s pre post b r = Runs-none s (0 * (1 + n)) (pre ++ ([] ++ post)) r
    all_buckets (suc k) lo s pre post b r =
        let mid = bucket lo in
        let rest = blocks bucket (suc lo) k in
        let sorted = stable_sort minor mid in
        let final = λ (l : List ℕ).
          pre ++ ((l ++ blocks (λ d. stable_sort minor (bucket d)) (suc lo) k) ++ post) in
        elim (Bool-cases (f lo == 0)) [
          | inl e ↦
              let at = ==→≡ (f lo) 0 e in
              let empty : mid ≡ [] = nil_of_length mid (sizes lo ∙ at) in
              let inner =
                all_buckets k (suc lo) s pre post (omega (arith, follows lo, ends lo))
                  (subst (λ l. Ready (pre ++ ((l ++ rest) ++ post)) s) empty r) in
              let budget : total f (suc lo) k * (1 + n) ≡ (f lo + total f (suc lo) k) * (1 + n) =
                ap (λ z. z * (1 + n)) (omega arith) in
              rw (used_ranges_skip f start next j ends follows lo k at, empty, ← budget) inner
          | inr e ↦
              let at = ==→≢ (f lo) 0 e in
              let range : RadixRange = radix_range (start lo) (next lo) j in
              let one =
                sort_bucket s pre mid (rest ++ post) range b (omega (arith, ends lo, sizes lo)) refl
                  (subst (λ l. Ready (pre ++ l) s) (append_assoc mid rest post) r) in
              let two =
                all_buckets k (suc lo) one.after (pre ++ sorted) post
                  (omega (
                    arith,
                    follows lo,
                    ends lo,
                    sizes lo,
                    length-append pre sorted,
                    length-stable_sort minor mid,
                  ))
                  (subst (λ l. Ready l one.after) (sym (append_assoc pre sorted (rest ++ post)))
                    one.ready) in
              let whole =
                append_assoc pre sorted
                  (blocks (λ d. stable_sort minor (bucket d)) (suc lo) k ++ post)
                ∙ ap (λ l. pre ++ l)
                    (sym (
                      append_assoc sorted (blocks (λ d. stable_sort minor (bucket d)) (suc lo) k)
                        post)) in
              rw (used_ranges_take f start next j ends follows lo k at, ← whole)
                (Runs-append s (range ∷ []) (used_ranges f start next j (suc lo) k)
                  (1 + length mid * n) (total f (suc lo) k * (1 + n))
                  ((f lo + total f (suc lo) k) * (1 + n)) (pre ++ (sorted ++ (rest ++ post)))
                  ((pre ++ sorted)
                    ++ (blocks (λ d. stable_sort minor (bucket d)) (suc lo) k ++ post))
                  one two (fits (f lo) (total f (suc lo) k) (length mid) (sizes lo) at))
        ]
      where
        fits : (a t m : ℕ) → m ≡ a → a ≢ 0 → 1 + m * n + t * (1 + n) ≤ (a + t) * (1 + n)
        fits a t m e h = grind (arith, e)

  -- The round of a range that is not done.
  partition_round :
      (j : ℕ) (s : State) (pre mid post : List ℕ) (range : RadixRange) (budget : ℕ) (order : List ℕ)
      → range.begin ≡ length pre
      → range.end ≡ length pre + length mid
      → range.digit_index ≡ j
      → 1 < length mid
      → j ≢ last_digit
      → Ready (pre ++ (mid ++ post)) s
      → let f : ℕ → ℕ = digit_count (λ x. digit_for_index x j) mid in
        ((s' : State)
          → Ready (pre ++ (stable_sort (λ x. digit_for_index x j) mid ++ post)) s'
          → Runs s'
              (used_ranges f
                (λ d. length pre + total f 0 d)
                (λ d. length pre + total f 0 d + f d)
                (j + 1)
                0
                256)
              budget
              order)
        → Runs s (range ∷ []) (1 + budget) order
  unfolding process_radix_range partition_with_policy order_client
  partition_round j s pre mid post range budget order b e i big ne r continue_ =
      let client = order_client digit_for_index range_done in
      let f : ℕ → ℕ = digit_count (λ x. digit_for_index x j) mid in
      let pushed =
        used_ranges f (λ d. length pre + total f 0 d) (λ d. length pre + total f 0 d + f d) (j + 1)
          0 256 in
      let digits = All-of (λ x. digit_for_index x j < 256) mid (λ x. small x j) in
      let sizes = length-append pre (mid ++ post) in
      let room : length s.store.scratch ≡ length pre + (length mid + length post) =
        omega (arith, r.scratch_length, sizes, length-append mid post) in
      let same_size : length (pre ++ (mid ++ post))
          ≡ length (pre ++ (stable_sort (λ x. digit_for_index x j) mid ++ post)) =
        omega (
          arith,
          sizes,
          length-append mid post,
          length-append pre (stable_sort (λ x. digit_for_index x j) mid ++ post),
          length-append (stable_sort (λ x. digit_for_index x j) mid) post,
          length-stable_sort (λ x. digit_for_index x j) mid,
        ) in
      let large : leb (range.end - range.begin) 1 ≡ false =
        lt→leb (range.end - range.begin) 1 (omega arith) in
      let more : (range.digit_index == last_digit) ≡ false =
        ≢→== range.digit_index last_digit (λ q. ne (sym i ∙ q)) in
      elim (Bool-cases
        (traits.always_use_policy || traits.use_policy_for_range (range.end - range.begin))) [
          | inl policy ↦
              let one =
                partition-Round traits.counter laws digit_for_index range_done j pre mid post range
                  s.policy_scratch s.store digits b e i (omega arith) r.arranged room
                  r.policy_clean in
              let s' : State = record s { policy_scratch = one.result.0; store = one.result.1 } in
              Runs-round s s' range pushed budget order
                (λ stack. rw (large, more, policy, one.round stack) refl)
                (continue_ s' (record {
                  policy_clean = one.clean;
                  fallback_clean = r.fallback_clean;
                  arranged = one.arranged;
                  scratch_length = one.scratch_length ∙ r.scratch_length ∙ same_size;
                }))
          | inr fallback ↦
              let one =
                partition-Round full_clear_counter full_clear-CounterLaws digit_for_index range_done
                  j pre mid post range s.fallback_scratch s.store digits b e i (omega arith)
                  r.arranged room r.fallback_clean in
              let s' : State = record s { fallback_scratch = one.result.0; store = one.result.1 } in
              Runs-round s s' range pushed budget order
                (λ stack. rw (large, more, fallback, one.round stack) refl)
                (continue_ s' (record {
                  policy_clean = r.policy_clean;
                  fallback_clean = one.clean;
                  arranged = one.arranged;
                  scratch_length = one.scratch_length ∙ r.scratch_length ∙ same_size;
                }))
        ]

  -- A range of the `j`-th digit, with `n` digits left.
  pub sort_range :
      (n j : ℕ) (s : State) (pre mid post : List ℕ) (range : RadixRange)
      → j + n ≡ last_digit
      → range.begin ≡ length pre
      → range.end ≡ length pre + length mid
      → range.digit_index ≡ j
      → Ready (pre ++ (mid ++ post)) s
      → Runs s
          (range ∷ [])
          (1 + length mid * n)
          (pre ++ (stable_sort (suffix_value digit_for_index j n) mid ++ post))
  unfolding suffix_value
  sort_range zero j s pre mid post range d b e i r =
      let done : (range.digit_index == last_digit) ≡ true =
        ≡→== range.digit_index last_digit (omega arith) in
      let any : (leb (range.end - range.begin) 1 || (range.digit_index == last_digit)) ≡ true =
        elim (Bool-cases (leb (range.end - range.begin) 1)) [
          | inl p ↦ rw p refl
          | inr p ↦ rw (p, done) refl
        ] in
      let sorted = same_key_sorted (λ x. 0) 0 mid (All-of (λ x. 0 ≡ 0) mid (λ x. refl)) in
      let budget : 1 ≡ 1 + length mid * 0 = omega arith in
      rw (sorted, ← budget) (terminal s range (pre ++ (mid ++ post)) r any)
  sort_range (suc n) j s pre mid post range d b e i r =
      let key = suffix_value digit_for_index j (suc n) in
      elim (Bool-cases (leb (range.end - range.begin) 1)) [
        | inl p ↦
            let short =
              short_sorted key mid (omega (arith, leb→le (range.end - range.begin) 1 p)) in
            let any : (leb (range.end - range.begin) 1 || (range.digit_index == last_digit))
                ≡ true =
              rw p refl in
            let one = terminal s range (pre ++ (mid ++ post)) r any in
            subst (λ l. Runs s (range ∷ []) (1 + length mid * suc n) (pre ++ (l ++ post)))
              (sym short)
              (record {
                used = one.used;
                used_le = omega (arith, one.used_le);
                after = one.after;
                ready = one.ready;
                runs = one.runs;
              })
        | inr p ↦
            let here : ℕ → ℕ = λ x. digit_for_index x j in
            let f : ℕ → ℕ = digit_count here mid in
            let minor = suffix_value digit_for_index (j + 1) n in
            let buckets = blocks (λ d. having here d mid) 0 256 in
            let cut : stable_sort here mid ≡ buckets = sym (
              buckets-eq_stable_sort here 256 mid
                (All-of (λ x. here x < 256) mid (λ x. small x j))) in
            let whole : blocks (λ d. stable_sort minor (having here d mid)) 0 256
                ≡ stable_sort key mid =
              digit_buckets digit_for_index small j n mid in
            let budget : total f 0 256 * (1 + n) ≡ length mid * suc n =
              ap₂ ◌*◌ (digit_total here mid (All-of (λ x. here x < 256) mid (λ x. small x j)))
                (omega arith) in
            rw (← budget) (
              partition_round j s pre mid post range (total f 0 256 * (1 + n))
                (pre ++ (stable_sort key mid ++ post)) b e i
                (omega (arith, leb→lt (range.end - range.begin) 1 p)) (omega arith) r
                (λ s' ready.
                  subst
                    (λ l.
                      Runs s'
                        (used_ranges f (λ d. length pre + total f 0 d)
                          (λ d. length pre + total f 0 d + f d) (j + 1) 0 256)
                        (total f 0 256 * (1 + n)) (pre ++ (l ++ post)))
                    whole
                    (all_buckets f (λ d. length pre + total f 0 d)
                      (λ d. length pre + total f 0 d + f d) (j + 1) n minor (λ d. having here d mid)
                      (λ d. refl) (λ d. refl)
                      (λ d. omega (arith, total_last f 0 d d (sym (zero-add d))))
                      (λ s pre mid post range b e i r.
                        sort_range n (j + 1) s pre mid post range (omega arith) b e i r)
                      256 0 s' pre post (omega arith)
                      (subst (λ l. Ready (pre ++ (l ++ post)) s') cut ready))))
      ]
