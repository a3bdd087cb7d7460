-- ===== src/Radix/Counts/Full.antt =====
-- The histogram that is cleared as a whole keeps the laws.
use forest_sorting.Prelude.{
  ℕ, zero, suc, ◌+◌, ◌-◌, ◌*◌, ◌≤◌, ◌<◌, ◌≡◌, refl, sym, ap, subst, ◌∙◌, inl, inr, true, List, ◌∷◌,
  ◌++◌, append_assoc, arith, ltb, ◌==◌, Bool-cases, ltb→lt, ltb→le, lt→ltb, le→ltb, ==→≡, ==→≢,
  length, get_or, length-replicate, get_or-replicate,
}
use forest_sorting.Loops.{for_range, for_each}
use forest_sorting.Scatter.{update, update_self, update_ne}
use forest_sorting.Scatter.Blocks.{total}
use forest_sorting.Radix.Counts.{
  RadixRange, prefix_bucket, push_bucket, full_clear_counter, count_four_buckets,
  radix_bucket_count, new_full_clear_scratch,
}
use forest_sorting.Scatter.Increment.{
  increment, length-increment, get_or-increment_self, get_or-increment_ne,
}
use forest_sorting.Radix.Counts.Laws.{
  CounterLaws, used_ranges, use_count, in_use, select, select_all, for_range-for_each,
  prefix-Prefixed,
}
use native.Mathlib.Nat.{zero-add}

-- The table is a function on the digits.
abbrev pub IsTable : (ℕ → ℕ) → List ℕ → Type 0
IsTable f counts = (length counts ≡ 256) × ((d : ℕ) → d < 256 → get_or counts d 0 ≡ f d)

pub increment-IsTable :
    (f : ℕ → ℕ) (counts : List ℕ) (d : ℕ)
    → d < 256
    → IsTable f counts
    → IsTable (update f d (f d + 1)) (increment counts d)
increment-IsTable f counts d h (len, t) = (
  length-increment counts d ∙ len,
  λ e p. elim (Bool-cases (e == d)) [
    | inl same ↦
        rw (==→≡ e d same, update_self f d (f d + 1))
          (get_or-increment_self counts d (omega arith) ∙ ap (λ n. n + 1) (t d h))
    | inr other ↦
        let off = ==→≢ e d other in
        rw (update_ne f d e (f d + 1) off)
          (get_or-increment_ne counts d e (λ q. off (sym q)) ∙ t e p)
  ],
)

module _ (f start next : ℕ → ℕ) (digit_index : ℕ) where
  pub used_ranges_last :
      (lo k : ℕ)
      → used_ranges f start next digit_index lo (suc k)
        ≡ used_ranges f start next digit_index lo k
          ++ used_ranges f start next digit_index (lo + k) 1
  unfolding used_ranges
  used_ranges_last lo zero = ap (λ d. used_ranges f start next digit_index d 1) (omega arith)
  used_ranges_last lo (suc k) = elim (Bool-cases (in_use f lo)) [
    | inl e ↦ rw e (
        ap (◌∷◌ (record { begin = start lo; end = next lo; digit_index = digit_index }))
          (used_ranges_last (suc lo) k ∙ shift lo k))
    | inr e ↦ rw e (used_ranges_last (suc lo) k ∙ shift lo k)
  ]
    where
      shift :
          (lo k : ℕ)
          → used_ranges f start next digit_index (suc lo) k
              ++ used_ranges f start next digit_index (suc lo + k) 1
            ≡ used_ranges f start next digit_index (suc lo) k
              ++ used_ranges f start next digit_index (lo + suc k) 1
      shift lo k =
          ap
            (λ d.
              used_ranges f start next digit_index (suc lo) k
              ++ used_ranges f start next digit_index d 1)
            (omega arith)

  -- One bucket is pushed exactly when it is in use.
  pub push_bucket_lem :
      (starts counts : List ℕ) (d : ℕ) (stack : List RadixRange)
      → get_or starts d 0 ≡ start d
      → get_or counts d 0 ≡ next d
      → (f d ≡ 0 → start d ≡ next d)
      → (0 < f d → start d < next d)
      → push_bucket starts counts digit_index d stack
        ≡ used_ranges f start next digit_index d 1 ++ stack
  unfolding push_bucket used_ranges
  push_bucket_lem starts counts d stack e g unused used = elim (Bool-cases (ltb 0 (f d))) [
    | inl p ↦
        let grows = lt→ltb (start d) (next d) (used (ltb→lt 0 (f d) p)) in rw (e, g, p, grows) refl
    | inr p ↦
        let none_noted : f d ≡ 0 = omega (arith, ltb→le 0 (f d) p) in
        let empty = le→ltb (start d) (next d) (omega (arith, unused none_noted)) in
        rw (e, g, p, empty) refl
  ]

module _ (f start next : ℕ → ℕ) (digit_index : ℕ) (starts counts : List ℕ)
    (read_starts : (d : ℕ) → d < 256 → get_or starts d 0 ≡ start d)
    (read_counts : (d : ℕ) → d < 256 → get_or counts d 0 ≡ next d)
    (unused : (d : ℕ) → d < 256 → f d ≡ 0 → start d ≡ next d)
    (used : (d : ℕ) → d < 256 → 0 < f d → start d < next d) where
  push_all :
      (n i lo : ℕ) (stack : List RadixRange)
      → lo + n + i ≡ 256
      → for_range n i
          (λ reverse. push_bucket starts counts digit_index (radix_bucket_count - 1 - reverse))
          stack
        ≡ used_ranges f start next digit_index lo n ++ stack
  unfolding for_range used_ranges
  push_all zero i lo stack e = refl
  push_all (suc n) i lo stack e =
      let at : radix_bucket_count - 1 - i ≡ lo + n = omega arith in
      let here =
        ap (λ d. push_bucket starts counts digit_index d stack) at
        ∙ push_bucket_lem f start next digit_index starts counts (lo + n) stack
            (read_starts (lo + n) (omega arith)) (read_counts (lo + n) (omega arith))
            (unused (lo + n) (omega arith)) (used (lo + n) (omega arith)) in
      push_all n (i + 1) lo
        (push_bucket starts counts digit_index (radix_bucket_count - 1 - i) stack) (omega arith)
      ∙ ap (λ t. used_ranges f start next digit_index lo n ++ t) here
      ∙ sym (
          append_assoc (used_ranges f start next digit_index lo n)
            (used_ranges f start next digit_index (lo + n) 1) stack)
      ∙ ap (λ l. l ++ stack) (sym (used_ranges_last f start next digit_index lo n))

use_count_four :
    (f : ℕ → ℕ) (counts : List ℕ)
    → IsTable f counts
    → (rounds i lo k n : ℕ) → lo ≡ i * 4
    → k ≡ rounds * 4
    → lo + k ≤ 256
    → for_range rounds i (count_four_buckets counts) n ≡ n + use_count f lo k
unfolding for_range count_four_buckets use_count
use_count_four f counts t zero i lo zero n e g h = omega arith
use_count_four f counts t zero i lo (suc k) n e g h = absurd (omega arith)
use_count_four f counts t (suc rounds) i lo (suc (suc (suc (suc k)))) n e g h =
    let read : (d : ℕ) → d < 4 → get_or counts (i * 4 + d) 0 ≡ f (lo + d) =
      λ d p. ap (λ z. get_or counts (z + d) 0) (sym e) ∙ t.1 (lo + d) (omega arith) in
    let at0 : lo + 0 ≡ lo = omega arith in
    let at1 : lo + 1 ≡ suc lo = omega arith in
    let at2 : lo + 2 ≡ suc (suc lo) = omega arith in
    let at3 : lo + 3 ≡ suc (suc (suc lo)) = omega arith in
    use_count_four f counts t rounds (i + 1) (suc (suc (suc (suc lo)))) k
      (count_four_buckets counts i n) (omega arith) (omega arith) (omega arith)
    ∙ rw
        (
          read 0 (omega arith),
          read 1 (omega arith),
          read 2 (omega arith),
          read 3 (omega arith),
          at0,
          at1,
          at2,
          at3,
        )
        (omega arith)
use_count_four f counts t (suc rounds) i lo k n e g h = absurd (omega arith)

prefix_all :
    (f : ℕ → ℕ) (counts : List ℕ) (start : ℕ)
    → IsTable f counts
    → IsTable (λ d. start + total f 0 d) (for_range 256 0 prefix_bucket (counts, start)).0
prefix_all f counts start t =
    let visits : for_each prefix_bucket (select (λ d. true) 0 256) (counts, start)
        ≡ for_range 256 0 prefix_bucket (counts, start) =
      ap (λ l. for_each prefix_bucket l (counts, start)) (select_all 0 256)
      ∙ sym (for_range-for_each prefix_bucket 256 0 (counts, start)) in
    let r =
      prefix-Prefixed (λ d. true) f (λ d e. cc) 256 0 start counts (omega (arith, t.0))
        (λ d q h. t.1 d (omega arith)) in
    subst (λ (z : List ℕ × ℕ). IsTable (λ d. start + total f 0 d) z.0) visits
      (
        r.same_length ∙ t.0,
        λ d h.
            ap
              (λ z.
                get_or (for_each prefix_bucket (select (λ d. true) 0 256) (counts, start)).0 z 0)
              (sym (zero-add d))
            ∙ r.summed d h refl,
      )

pub full_clear-CounterLaws : CounterLaws full_clear_counter
unfolding full_clear_counter
full_clear-CounterLaws = record {
  IsClean = λ s. Unit;
  Holds = λ s f. IsTable f s.counts;
  Offsets = λ s f next. IsTable next s.counts;
  reset_law = λ s c. (length-replicate {A = ℕ} 256 0, λ d h. get_or-replicate {A = ℕ} 256 d 0);
  note_law = λ s f d h t. increment-IsTable f s.counts d h t;
  count_law = λ s f t.
      use_count_four f s.counts t 64 0 0 256 0 (omega arith) (omega arith) (omega arith)
      ∙ zero-add (use_count f 0 256);
  prefix_law = λ s f start t. prefix_all f s.counts start t;
  read_law = λ s f next d h p t. t.1 d h;
  advance_law = λ s f next d h p t. increment-IsTable next s.counts d h t;
  push_law = λ s t f start next stack digit_index p q unused used.
      push_all f start next digit_index s.counts t.counts p.1 q.1 unused used 256 0 0 stack refl;
  clear_law = λ s f next t. tt;
  clear_counts_law = λ s f t. tt;
}

pub new_full_clear-IsClean : full_clear-CounterLaws.IsClean new_full_clear_scratch
unfolding full_clear-CounterLaws
new_full_clear-IsClean = tt
