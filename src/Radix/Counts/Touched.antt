-- ===== src/Radix/Counts/Touched.antt =====
-- The histogram that clears only the buckets it touched keeps the laws.
use forest_sorting.Prelude.{
  ℕ, zero, suc, ◌+◌, ◌-◌, ◌*◌, ◌/◌, ◌%◌, ◌^◌, ◌<◌, ◌≡◌, refl, sym, ap, ap₂, subst, ◌∙◌, inl, inr,
  false, ◌||◌, List, [], ◌∷◌, ◌++◌, append_assoc, arith, ltb, ◌==◌, Bool-cases, ltb→le, lt→ltb,
  le→ltb, ==→≡, ==→≢, ==_refl, length, get_or, set, length-set, get_or-set_self, get_or-set_ne,
}
use forest_sorting.Loops.{for_each, for_range}
use forest_sorting.Radix.Counts.{
  BitmaskTouchedCountScratch, push_touched, prefix_touched, while_highest_bit, while_lowest_bit,
  prefix_bucket, RadixRange, push_bucket, popcount,
}
use forest_sorting.Radix.Counts.Represents.{
  Represents, length-bits_from, Represents-lt, bits_from, Represents-bits, popcount_lem,
  Represents-cong, Represents-bit_or,
}
use forest_sorting.Radix.Counts.Laws.{use_count, in_use, select, used_ranges, prefix-Prefixed}
use forest_sorting.Radix.Counts.Full.{IsTable}
use forest_sorting.Radix.Counts.Rounds.{
  while_lowest_bit_lem, for_each_back, while_highest_bit_lem, for_each-shift, for_each_back-shift,
}
use forest_sorting.Radix.Counts.Select.{
  for_each-append, push_select, select_split, used_ranges_split, prefix-skips, length-select,
  use_count_split,
}
use native.Mathlib.Nat.{zero-add}
use forest_sorting.Scatter.{update, update_self, update_ne}
use forest_sorting.Scatter.Increment.{
  increment, length-increment, get_or-increment_self, get_or-increment_ne,
}
use forest_sorting.Scatter.Blocks.{total}
use Prim.Native.Nat.{bit_or}

-- The mask has the bits of the digits in use.
abbrev pub IsMask : (ℕ → ℕ) → List ℕ → Type 0
IsMask f mask =
    (length mask ≡ 4) × ((m : ℕ) → m < 4 → Represents (in_use f) (m * 64) 64 (get_or mask m 0))

abbrev pub IsWiped : BitmaskTouchedCountScratch → Type 0
IsWiped s =
    IsTable (λ d. 0) s.counts
    × (length s.touched_mask ≡ 4)
    × ((m : ℕ) → m < 4 → get_or s.touched_mask m 0 ≡ 0)

abbrev pub HasOffsets : BitmaskTouchedCountScratch → (ℕ → ℕ) → (ℕ → ℕ) → Type 0
HasOffsets s f next =
    (length s.counts ≡ 256)
    × ((d : ℕ) → d < 256 → 0 < f d → get_or s.counts d 0 ≡ next d)
    × ((d : ℕ) → d < 256 → f d ≡ 0 → get_or s.counts d 0 ≡ 0)
    × IsMask f s.touched_mask

-- The loop over one word visits the digits in use of that word.
pub visit_word :
    {State : Type 0} (body : ℕ → State → State) (f : ℕ → ℕ) (m word : ℕ) (s : State)
    → Represents (in_use f) (m * 64) 64 word
    → while_lowest_bit 64 (λ bit. body (m * 64 + bit)) word s
      ≡ for_each body (select (in_use f) (m * 64) 64) s
visit_word body f m word s r =
    let at : m * 64 + 0 ≡ m * 64 = omega arith in
    while_lowest_bit_lem (λ bit. body (m * 64 + bit)) 64 word s (length-bits_from 0 64 word)
      (Represents-lt (in_use f) (m * 64) 64 word r)
    ∙ for_each-shift body (m * 64) 0 64 word s
    ∙ ap (λ z. for_each body (bits_from z 64 word) s) at
    ∙ ap (λ l. for_each body l s) (Represents-bits (in_use f) (m * 64) 64 word r)

visit_word_back :
    {State : Type 0} (body : ℕ → State → State) (f : ℕ → ℕ) (m word : ℕ) (s : State)
    → Represents (in_use f) (m * 64) 64 word
    → while_highest_bit 64 (λ bit. body (m * 64 + bit)) word s
      ≡ for_each_back body (select (in_use f) (m * 64) 64) s
visit_word_back body f m word s r =
    let at : m * 64 + 0 ≡ m * 64 = omega arith in
    while_highest_bit_lem (λ bit. body (m * 64 + bit)) 64 word s (length-bits_from 0 64 word)
      (Represents-lt (in_use f) (m * 64) 64 word r)
    ∙ for_each_back-shift body (m * 64) 0 64 word s
    ∙ ap (λ z. for_each_back body (bits_from z 64 word) s) at
    ∙ ap (λ l. for_each_back body l s) (Represents-bits (in_use f) (m * 64) 64 word r)

prefix_words :
    (f : ℕ → ℕ) (mask : List ℕ) (n i : ℕ) (s : List ℕ × ℕ)
    → IsMask f mask
    → n + i ≡ 4
    → for_range n i (prefix_touched mask) s
      ≡ for_each prefix_bucket (select (in_use f) (i * 64) (n * 64)) s
unfolding for_range prefix_touched for_each select
prefix_words f mask zero i s r e = refl
prefix_words f mask (suc n) i s r e =
    let word = visit_word prefix_bucket f i (get_or mask i 0) s (r.1 i (omega arith)) in
    let s' = while_lowest_bit 64 (λ bit. prefix_bucket (i * 64 + bit)) (get_or mask i 0) s in
    let at : (i + 1) * 64 ≡ i * 64 + 64 = omega arith in
    let size : 64 + n * 64 ≡ suc n * 64 = omega arith in
    prefix_words f mask n (i + 1) s' r (omega arith)
    ∙ ap₂ (λ z t. for_each prefix_bucket (select (in_use f) z (n * 64)) t) at word
    ∙ sym (
        for_each-append prefix_bucket (select (in_use f) (i * 64) 64)
          (select (in_use f) (i * 64 + 64) (n * 64)) s)
    ∙ ap (λ l. for_each prefix_bucket l s) (sym (select_split (in_use f) (i * 64) 64 (n * 64)))
    ∙ ap (λ z. for_each prefix_bucket (select (in_use f) (i * 64) z) s) size

pub push_words :
    (f start next : ℕ → ℕ) (digit_index : ℕ) (starts : List ℕ) (t : BitmaskTouchedCountScratch)
    → IsMask f t.touched_mask
    → ((d : ℕ)
        → d < 256
        → 0 < f d
        → (get_or starts d 0 ≡ start d) × (get_or t.counts d 0 ≡ next d) × (start d < next d))
    → (n i : ℕ) (stack : List RadixRange) → n + i ≡ 4
    → for_range n i (push_touched starts t digit_index) stack
      ≡ used_ranges f start next digit_index 0 (n * 64) ++ stack
unfolding for_range push_touched used_ranges
push_words f start next digit_index starts t r h zero i stack e = refl
push_words f start next digit_index starts t r h (suc n) i stack e =
    let at : 3 - i ≡ n = omega arith in
    let push = push_bucket starts t.counts digit_index in
    let word =
      ap (λ m. while_highest_bit 64 (λ bit. push (m * 64 + bit)) (get_or t.touched_mask m 0) stack)
        at
      ∙ visit_word_back push f n (get_or t.touched_mask n 0) stack (r.1 n (omega arith))
      ∙ push_select f start next digit_index starts t.counts 64 (n * 64) stack
          (λ d p q. h d (omega arith)) in
    let size : n * 64 + 64 ≡ suc n * 64 = omega arith in
    push_words f start next digit_index starts t r h n (i + 1)
      (push_touched starts t digit_index i stack) (omega arith)
    ∙ ap (λ l. used_ranges f start next digit_index 0 (n * 64) ++ l) word
    ∙ sym (
        append_assoc (used_ranges f start next digit_index 0 (n * 64))
          (used_ranges f start next digit_index (n * 64) 64) stack)
    ∙ ap (λ l. l ++ stack)
        (ap
            (λ z.
              used_ranges f start next digit_index 0 (n * 64)
              ++ used_ranges f start next digit_index z 64)
            (sym (zero-add (n * 64)))
          ∙ sym (used_ranges_split f start next digit_index 0 (n * 64) 64)
          ∙ ap (used_ranges f start next digit_index 0) size)

-- The ones of the mask are the digits in use.
pub count_words :
    (f : ℕ → ℕ) (mask : List ℕ) (i n : ℕ)
    → length mask + i ≡ 4
    → ((j : ℕ) → j < length mask → Represents (in_use f) ((i + j) * 64) 64 (get_or mask j 0))
    → for_each (λ bits non_zero. non_zero + popcount 64 bits) mask n
      ≡ n + use_count f (i * 64) (length mask * 64)
unfolding for_each use_count
count_words f [] i n e r = omega arith
count_words f (word ∷ mask) i n e r =
    let at : (i + 0) * 64 ≡ i * 64 = omega arith in
    let here : popcount 64 word ≡ use_count f (i * 64) 64 =
      popcount_lem ((i + 0) * 64) 64 word
      ∙ ap length (Represents-bits (in_use f) ((i + 0) * 64) 64 word (r 0 (omega arith)))
      ∙ ap (λ z. length (select (in_use f) z 64)) at
      ∙ length-select f (i * 64) 64 in
    let next : (i + 1) * 64 ≡ i * 64 + 64 = omega arith in
    let size : suc (length mask) * 64 ≡ 64 + length mask * 64 = omega arith in
    let rest = count_words f mask (i + 1) (n + popcount 64 word) (omega arith) (λ j p.
      subst (λ z. Represents (in_use f) (z * 64) 64 (get_or mask j 0)) (omega arith)
        (r (suc j) (omega arith))) in
    rest
    ∙ omega (
      arith,
      here,
      use_count_split f (i * 64) 64 (length mask * 64),
      ap (λ z. use_count f z (length mask * 64)) next,
      ap (use_count f (i * 64)) size,
    )

-- The digits that are not in use have no notes.
pub unused : (f : ℕ → ℕ) (d : ℕ) → in_use f d ≡ false → f d ≡ 0
unused f d e = omega (arith, ltb→le 0 (f d) e)

pub prefix_offsets :
    (f : ℕ → ℕ) (s : BitmaskTouchedCountScratch) (start : ℕ)
    → IsTable f s.counts
    → IsMask f s.touched_mask
    → HasOffsets
        (record s {
          counts =
              (for_range
                (length s.touched_mask)
                0
                (prefix_touched s.touched_mask)
                (s.counts, start)).0;
        })
        f
        (λ d. start + total f 0 d)
prefix_offsets f s start t r =
    let loop = λ (n : ℕ). for_range n 0 (prefix_touched s.touched_mask) (s.counts, start) in
    let visits : loop (length s.touched_mask)
        ≡ for_each prefix_bucket (select (in_use f) 0 256) (s.counts, start) =
      ap loop r.0 ∙ prefix_words f s.touched_mask 4 0 (s.counts, start) r refl in
    let done =
      prefix-Prefixed (in_use f) f (unused f) 256 0 start s.counts (omega (arith, t.0))
        (λ d q h. t.1 d (omega arith)) in
    let result = for_each prefix_bucket (select (in_use f) 0 256) (s.counts, start) in
    subst (λ (z : List ℕ × ℕ). HasOffsets (record s { counts = z.0 }) f (λ d. start + total f 0 d))
      (sym visits)
      (
        done.same_length ∙ t.0,
        λ d h p.
            ap (λ z. get_or result.0 z 0) (sym (zero-add d))
            ∙ done.summed d h (ap (in_use f) (zero-add d) ∙ lt→ltb 0 (f d) p),
        λ d h e.
            prefix-skips (in_use f) 256 0 d (s.counts, start) (le→ltb 0 (f d) (omega arith))
            ∙ t.1 d h
            ∙ e,
        r,
      )

pub advance_offsets :
    (s : BitmaskTouchedCountScratch) (f next : ℕ → ℕ) (d : ℕ)
    → d < 256
    → 0 < f d
    → HasOffsets s f next
    → HasOffsets (record s { counts = increment s.counts d }) f (update next d (next d + 1))
advance_offsets s f next d h p (len, used, other, r) = (
  length-increment s.counts d ∙ len,
  λ e q g. elim (Bool-cases (e == d)) [
    | inl same ↦
        rw (==→≡ e d same, update_self next d (next d + 1))
          (get_or-increment_self s.counts d (omega arith) ∙ ap (λ n. n + 1) (used d h p))
    | inr ne ↦
        let off = ==→≢ e d ne in
        rw (update_ne next d e (next d + 1) off)
          (get_or-increment_ne s.counts d e (λ z. off (sym z)) ∙ used e q g)
  ],
  λ e q g. get_or-increment_ne s.counts d e (λ z. omega (arith, ap f z)) ∙ other e q g,
  r,
)

pub note-IsMask :
    (f : ℕ → ℕ) (mask : List ℕ) (d : ℕ)
    → d < 256
    → IsMask f mask
    → IsMask
        (update f d (f d + 1))
        (set mask (d / 64) (bit_or (get_or mask (d / 64) 0) (2 ^ (d % 64))))
note-IsMask f mask d h (len, r) =
    let f' = update f d (f d + 1) in
    let word = bit_or (get_or mask (d / 64) 0) (2 ^ (d % 64)) in
    (
      length-set mask (d / 64) word ∙ len,
      λ m p. elim (Bool-cases (m == d / 64)) [
        | inl same ↦
            let at = ==→≡ m (d / 64) same in
            let whole : m * 64 + d % 64 ≡ d = omega (arith, at) in
            subst (Represents (in_use f') (m * 64) 64)
              (sym (
                ap (λ z. get_or (set mask (d / 64) word) z 0) at
                ∙ get_or-set_self mask (d / 64) word 0 (omega arith)
                ∙ ap (λ z. bit_or (get_or mask z 0) (2 ^ (d % 64))) (sym at)))
              (Represents-cong (λ e. (e == m * 64 + d % 64) || in_use f e) (in_use f') (m * 64) 64
                (bit_or (get_or mask m 0) (2 ^ (d % 64)))
                (λ e l u. ap (λ z. (e == z) || in_use f e) whole ∙ noted e)
                (Represents-bit_or (in_use f) (m * 64) 64 (d % 64) (get_or mask m 0) (omega arith)
                  (r m p)))
        | inr other ↦
            let off = ==→≢ m (d / 64) other in
            subst (Represents (in_use f') (m * 64) 64)
              (sym (get_or-set_ne mask (d / 64) m word 0 (λ z. off (sym z))))
              (Represents-cong (in_use f) (in_use f') (m * 64) 64 (get_or mask m 0)
                (λ e l u. ap (ltb 0) (sym (update_ne f d e (f d + 1) (λ z. omega (arith, z)))))
                (r m p))
      ],
    )
  where
    noted : (e : ℕ) → ((e == d) || in_use f e) ≡ in_use (update f d (f d + 1)) e
    noted e = elim (Bool-cases (e == d)) [
      | inl same ↦
          let more : 0 < f d + 1 = omega arith in
          rw (==→≡ e d same, ==_refl d, update_self f d (f d + 1), lt→ltb 0 (f d + 1) more) refl
      | inr other ↦ rw (other, update_ne f d e (f d + 1) (==→≢ e d other)) refl
    ]
