-- ===== src/Radix/Counts/Select.antt =====
-- Loops over the digits that pass a test, a part of them after the other.
use forest_sorting.Prelude.{
  ℕ, zero, suc, ◌+◌, ◌≤◌, ◌<◌, ◌≡◌, refl, ap, ap₂, subst, ◌∙◌, inl, inr, Bool, true, false, List,
  [], ◌∷◌, ◌++◌, arith, ◌==◌, Bool-cases, ltb→lt, ltb→le, lt→ltb, ==→≡, ==→≢, ≡→==, ≢→==, length,
  get_or, set, length-set, get_or-set_self, get_or-set_ne,
}
use forest_sorting.Radix.Counts.Laws.{select, use_count, used_ranges, in_use}
use forest_sorting.Loops.{for_each}
use forest_sorting.Radix.Counts.Rounds.{for_each_back}
use forest_sorting.Radix.Counts.{push_bucket, prefix_bucket, RadixRange}

pub for_each-append {ℓ} :
    {S : Type ℓ} (body : ℕ → S → S) (xs ys : List ℕ) (s : S)
    → for_each body (xs ++ ys) s ≡ for_each body ys (for_each body xs s)
unfolding for_each
for_each-append body [] ys s = refl
for_each-append body (x ∷ xs) ys s = for_each-append body xs ys (body x s)

pub select_split :
    (p : ℕ → Bool) (lo a b : ℕ) → select p lo (a + b) ≡ select p lo a ++ select p (lo + a) b
unfolding select
select_split p lo zero b =
    let here : lo ≡ lo + 0 = omega arith in
    let size : 0 + b ≡ b = omega arith in ap₂ (select p) here size
select_split p lo (suc a) b =
    let at : suc lo + a ≡ lo + suc a = omega arith in
    let rest = select_split p (suc lo) a b ∙ ap (λ z. select p (suc lo) a ++ select p z b) at in
    let big : suc a + b ≡ suc (a + b) = omega arith in
    elim (Bool-cases (p lo)) [ inl e ↦ rw (big, e) (ap (◌∷◌ lo) rest) | inr e ↦ rw (big, e) rest ]

pub use_count_split :
    (f : ℕ → ℕ) (lo a b : ℕ) → use_count f lo (a + b) ≡ use_count f lo a + use_count f (lo + a) b
unfolding use_count
use_count_split f lo zero b =
    let here : lo ≡ lo + 0 = omega arith in
    let size : 0 + b ≡ b = omega arith in omega (arith, ap₂ (use_count f) here size)
use_count_split f lo (suc a) b =
    let at : suc lo + a ≡ lo + suc a = omega arith in
    let big : suc a + b ≡ suc (a + b) = omega arith in
    rw big (omega (arith, use_count_split f (suc lo) a b, ap (λ z. use_count f z b) at))

pub length-select : (f : ℕ → ℕ) (lo k : ℕ) → length (select (in_use f) lo k) ≡ use_count f lo k
unfolding select use_count
length-select f lo zero = refl
length-select f lo (suc k) = elim (Bool-cases (in_use f lo)) [
  | inl e ↦
      let other = ≢→== (f lo) 0 (λ q. omega (arith, ltb→lt 0 (f lo) e)) in
      rw (e, other) (omega (arith, length-select f (suc lo) k))
  | inr e ↦
      let same = ≡→== (f lo) 0 (omega (arith, ltb→le 0 (f lo) e)) in
      rw (e, same) (omega (arith, length-select f (suc lo) k))
]

-- A digit that fails the test keeps its entry.
pub prefix-skips :
    (p : ℕ → Bool) (k lo d : ℕ) (s : List ℕ × ℕ)
    → p d ≡ false
    → get_or (for_each prefix_bucket (select p lo k) s).0 d 0 ≡ get_or s.0 d 0
unfolding for_each prefix_bucket select
prefix-skips p zero lo d s h = refl
prefix-skips p (suc k) lo d (counts, offset) h = elim (Bool-cases (p lo)) [
  | inl e ↦ rw e (
      prefix-skips p k (suc lo) d (set counts lo offset, offset + get_or counts lo 0) h
      ∙ get_or-set_ne counts lo d offset 0 (λ q. cc (e, h, ap p q)))
  | inr e ↦ rw e (prefix-skips p k (suc lo) d (counts, offset) h)
]

-- Entries set to nought.
abbrev pub clear_all : List ℕ → List ℕ → List ℕ
clear_all ds counts = for_each (λ d c. set c d 0) ds counts

pub length-clear_all : (ds counts : List ℕ) → length (clear_all ds counts) ≡ length counts
unfolding for_each
length-clear_all [] counts = refl
length-clear_all (d ∷ ds) counts = length-clear_all ds (set counts d 0) ∙ length-set counts d 0

set_zero : (counts : List ℕ) (d e : ℕ) → get_or counts e 0 ≡ 0 → get_or (set counts d 0) e 0 ≡ 0
set_zero [] d e h = h
set_zero (x ∷ counts) zero zero h = refl
set_zero (x ∷ counts) zero (suc e) h = h
set_zero (x ∷ counts) (suc d) zero h = h
set_zero (x ∷ counts) (suc d) (suc e) h = set_zero counts d e h

pub clear_all_zero :
    (ds counts : List ℕ) (e : ℕ) → get_or counts e 0 ≡ 0 → get_or (clear_all ds counts) e 0 ≡ 0
unfolding for_each
clear_all_zero [] counts e h = h
clear_all_zero (d ∷ ds) counts e h = clear_all_zero ds (set counts d 0) e (set_zero counts d e h)

pub clear_all-select :
    (p : ℕ → Bool) (k lo d : ℕ) (counts : List ℕ)
    → lo ≤ d
    → d < lo + k
    → d < length counts
    → p d ≡ true
    → get_or (clear_all (select p lo k) counts) d 0 ≡ 0
unfolding for_each select
clear_all-select p zero lo d counts h g l e = absurd (omega arith)
clear_all-select p (suc k) lo d counts h g l e = elim (Bool-cases (lo == d)) [
  | inl same ↦
      let at = ==→≡ lo d same in
      rw (ap p at ∙ e) (
        clear_all_zero (select p (suc lo) k) (set counts lo 0) d (
          subst (λ z. get_or (set counts lo 0) z 0 ≡ 0) at
            (get_or-set_self counts lo 0 0 (omega (arith, at)))))
  | inr other ↦
      let off = ==→≢ lo d other in
      elim (Bool-cases (p lo)) [
        | inl q ↦ rw q (
            clear_all-select p k (suc lo) d (set counts lo 0) (omega arith) (omega arith)
              (omega (arith, length-set counts lo 0)) e)
        | inr q ↦ rw q (clear_all-select p k (suc lo) d counts (omega arith) (omega arith) l e)
      ]
]

module _ (f start next : ℕ → ℕ) (digit_index : ℕ) where
  pub used_ranges_split :
      (lo a b : ℕ)
      → used_ranges f start next digit_index lo (a + b)
        ≡ used_ranges f start next digit_index lo a
          ++ used_ranges f start next digit_index (lo + a) b
  unfolding used_ranges
  used_ranges_split lo zero b =
      let here : lo ≡ lo + 0 = omega arith in
      let size : 0 + b ≡ b = omega arith in ap₂ (used_ranges f start next digit_index) here size
  used_ranges_split lo (suc a) b =
      let at : suc lo + a ≡ lo + suc a = omega arith in
      let rest =
        used_ranges_split (suc lo) a b
        ∙ ap
            (λ z.
              used_ranges f start next digit_index (suc lo) a
              ++ used_ranges f start next digit_index z b)
            at in
      let big : suc a + b ≡ suc (a + b) = omega arith in
      elim (Bool-cases (in_use f lo)) [
        | inl e ↦
            rw (big, e)
              (ap (◌∷◌ (record { begin = start lo; end = next lo; digit_index = digit_index }))
                rest)
        | inr e ↦ rw (big, e) rest
      ]

  -- The buckets in use, pushed from the last to the first.
  pub push_select :
      (starts counts : List ℕ) (k lo : ℕ) (stack : List RadixRange)
      → ((d : ℕ)
          → lo ≤ d
          → d < lo + k
          → 0 < f d
          → (get_or starts d 0 ≡ start d) × (get_or counts d 0 ≡ next d) × (start d < next d))
      → for_each_back (push_bucket starts counts digit_index) (select (in_use f) lo k) stack
        ≡ used_ranges f start next digit_index lo k ++ stack
  unfolding for_each_back select used_ranges push_bucket
  push_select starts counts zero lo stack h = refl
  push_select starts counts (suc k) lo stack h =
      let rest =
        push_select starts counts k (suc lo) stack (λ d p q. h d (omega arith) (omega arith)) in
      elim (Bool-cases (in_use f lo)) [
        | inl e ↦
            let (begins, ends, grows) = h lo (omega arith) (omega arith) (ltb→lt 0 (f lo) e) in
            rw (e, begins, ends, lt→ltb (start lo) (next lo) grows, rest) refl
        | inr e ↦ rw e rest
      ]
