-- ===== src/Radix/Counts/Laws.antt =====
-- What a radix pass needs of a histogram. `f` is the number of notes of each digit.
use forest_sorting.Prelude.{
  ℕ, zero, suc, ◌+◌, ◌≤◌, ◌<◌, ◌≡◌, refl, sym, ap, ◌∙◌, inl, inr, Bool, true, false, List, [], ◌∷◌,
  ◌++◌, arith, ltb, ◌==◌, if◌then◌else◌, Bool-cases, length, get_or, set, iota, length-set,
  get_or-set_self, get_or-set_ne,
}
use forest_sorting.Loops.{for_range, for_each}
use forest_sorting.Scatter.{update}
use forest_sorting.Scatter.Blocks.{total}
use forest_sorting.Radix.Counts.{Counter, RadixRange, prefix_bucket}
use forest_sorting.Scatter.Increment.{increment}

-- The numbers from `lo`, `k` of them, that pass a test.
unfoldable pub select : (ℕ → Bool) → ℕ → ℕ → List ℕ
select p lo zero = []
select p lo (suc k) = if p lo then lo ∷ select p (suc lo) k else select p (suc lo) k

abbrev pub in_use : (ℕ → ℕ) → ℕ → Bool
in_use f d = ltb 0 (f d)

unfoldable pub use_count : (ℕ → ℕ) → ℕ → ℕ → ℕ
use_count f lo zero = 0
use_count f lo (suc k) = (if f lo == 0 then 0 else 1) + use_count f (suc lo) k

-- The ranges of the buckets in use, in ascending order.
unfoldable pub used_ranges : (ℕ → ℕ) → (ℕ → ℕ) → (ℕ → ℕ) → ℕ → ℕ → ℕ → List RadixRange
used_ranges f start next digit_index lo zero = []
used_ranges f start next digit_index lo (suc k) =
    let rest = used_ranges f start next digit_index (suc lo) k in
    if in_use f lo
    then record { begin = start lo; end = next lo; digit_index = digit_index } ∷ rest
    else rest

-- `IsClean` holds between passes, `Holds` while notes are taken, and `Offsets` from the prefix sums on.
pub record CounterLaws {Scratch : Type 0} (counter : Counter Scratch) : Type 1 where
  pub IsClean : Scratch → Type 0
  pub Holds : Scratch → (ℕ → ℕ) → Type 0
  pub Offsets : Scratch → (ℕ → ℕ) → (ℕ → ℕ) → Type 0
  pub reset_law : (s : Scratch) → IsClean s → Holds (counter.reset s) (λ d. 0)
  pub note_law :
      (s : Scratch) (f : ℕ → ℕ) (d : ℕ)
      → d < 256
      → Holds s f
      → Holds (counter.note s d) (update f d (f d + 1))
  pub count_law :
      (s : Scratch) (f : ℕ → ℕ) → Holds s f → counter.count_non_zero s ≡ use_count f 0 256
  pub prefix_law :
      (s : Scratch) (f : ℕ → ℕ) (start : ℕ)
      → Holds s f
      → Offsets (counter.prefix s start) f (λ d. start + total f 0 d)
  pub read_law :
      (s : Scratch) (f next : ℕ → ℕ) (d : ℕ)
      → d < 256
      → 0 < f d
      → Offsets s f next
      → get_or (counter.counts s) d 0 ≡ next d
  pub advance_law :
      (s : Scratch) (f next : ℕ → ℕ) (d : ℕ)
      → d < 256
      → 0 < f d
      → Offsets s f next
      → Offsets
          (counter.with_counts s (increment (counter.counts s) d))
          f
          (update next d (next d + 1))
  pub push_law :
      (s t : Scratch) (f start next : ℕ → ℕ) (stack : List RadixRange) (digit_index : ℕ)
      → Offsets s f start
      → Offsets t f next
      → ((d : ℕ) → d < 256 → f d ≡ 0 → start d ≡ next d)
      → ((d : ℕ) → d < 256 → 0 < f d → start d < next d)
      → counter.push_partitioned_ranges stack (counter.counts s) t digit_index
        ≡ used_ranges f start next digit_index 0 256 ++ stack
  pub clear_law : (s : Scratch) (f next : ℕ → ℕ) → Offsets s f next → IsClean (counter.clear s)
  pub clear_counts_law : (s : Scratch) (f : ℕ → ℕ) → Holds s f → IsClean (counter.clear s)

pub for_range-for_each {ℓ} :
    {S : Type ℓ} (body : ℕ → S → S) (n i : ℕ) (s : S)
    → for_range n i body s ≡ for_each body (iota i n) s
unfolding for_range for_each
for_range-for_each body zero i s = refl
for_range-for_each body (suc n) i s =
    let e : i + 1 ≡ suc i = omega arith in
    for_range-for_each body n (i + 1) (body i s) ∙ ap (λ j. for_each body (iota j n) (body i s)) e

pub select_all : (lo k : ℕ) → select (λ d. true) lo k ≡ iota lo k
unfolding select
select_all lo zero = refl
select_all lo (suc k) = ap (◌∷◌ lo) (select_all (suc lo) k)

-- What the prefix loop leaves, run over the buckets that pass a test with all that are in use.
module _ (p : ℕ → Bool) (f : ℕ → ℕ) (covers : (d : ℕ) → p d ≡ false → f d ≡ 0) where
  pub record Prefixed (lo k offset : ℕ) (counts : List ℕ) (result : List ℕ × ℕ) : Type 0 where
    pub same_length : length result.0 ≡ length counts
    pub summed :
        (j : ℕ) → j < k → p (lo + j) ≡ true → get_or result.0 (lo + j) 0 ≡ offset + total f lo j
    pub before : (d : ℕ) → d < lo → get_or result.0 d 0 ≡ get_or counts d 0
    pub last : result.1 ≡ offset + total f lo k

  cons_summed :
      (r : List ℕ × ℕ) (lo k offset size j : ℕ)
      → (p lo ≡ true → get_or r.0 lo 0 ≡ offset)
      → size ≡ f lo
      → ((j : ℕ)
          → j < k
          → p (suc lo + j) ≡ true
          → get_or r.0 (suc lo + j) 0 ≡ offset + size + total f (suc lo) j)
      → j < suc k
      → p (lo + j) ≡ true
      → get_or r.0 (lo + j) 0 ≡ offset + total f lo j
  cons_summed r lo k offset size zero first e others h q =
      let at : lo + 0 ≡ lo = omega arith in
      ap (λ d. get_or r.0 d 0) at ∙ first (ap p (sym at) ∙ q) ∙ omega arith
  cons_summed r lo k offset size (suc j) first e others h q =
      let at : lo + suc j ≡ suc lo + j = omega arith in
      ap (λ d. get_or r.0 d 0) at ∙ others j (omega arith) (ap p (sym at) ∙ q) ∙ omega arith

  pub prefix-Prefixed :
      (k lo offset : ℕ) (counts : List ℕ)
      → lo + k ≤ length counts
      → ((d : ℕ) → lo ≤ d → d < lo + k → get_or counts d 0 ≡ f d)
      → Prefixed lo k offset counts (for_each prefix_bucket (select p lo k) (counts, offset))
  unfolding for_each prefix_bucket select
  prefix-Prefixed zero lo offset counts h g = record {
    same_length = refl;
    summed = λ j q e. absurd (omega arith);
    before = λ d q. refl;
    last = omega arith;
  }
  prefix-Prefixed (suc k) lo offset counts h g = elim (Bool-cases (p lo)) [
    | inl e ↦
        let size = get_or counts lo 0 in
        let counts' = set counts lo offset in
        let r =
          prefix-Prefixed k (suc lo) (offset + size) counts'
            (omega (arith, length-set counts lo offset))
            (λ d q t.
              get_or-set_ne counts lo d offset 0 (omega arith) ∙ g d (omega arith) (omega arith)) in
        rw e (record {
          same_length = r.same_length ∙ length-set counts lo offset;
          summed = λ j q t.
              cons_summed (for_each prefix_bucket (select p (suc lo) k) (counts', offset + size)) lo
                k offset size j
                (λ t. r.before lo (omega arith) ∙ get_or-set_self counts lo offset 0 (omega arith))
                (g lo (omega arith) (omega arith)) r.summed q t;
          before =
              λ d q. r.before d (omega arith) ∙ get_or-set_ne counts lo d offset 0 (omega arith);
          last = omega (arith, r.last, g lo (omega arith) (omega arith));
        })
    | inr e ↦
        let r =
          prefix-Prefixed k (suc lo) offset counts (omega arith)
            (λ d q t. g d (omega arith) (omega arith)) in
        rw e (record {
          same_length = r.same_length;
          summed = λ j q t.
              cons_summed (for_each prefix_bucket (select p (suc lo) k) (counts, offset)) lo k
                offset 0 j (λ t. cc (t, e)) (sym (covers lo e))
                (λ j q t. r.summed j q t ∙ omega arith) q t;
          before = λ d q. r.before d (omega arith);
          last = omega (arith, r.last, covers lo e);
        })
  ]
