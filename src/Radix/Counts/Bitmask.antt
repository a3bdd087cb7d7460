-- ===== src/Radix/Counts/Bitmask.antt =====
-- The histogram with a mask is clean after it cleared the buckets in use, and keeps the laws.
use forest_sorting.Prelude.{
  ℕ, zero, suc, ◌+◌, ◌*◌, ◌≤◌, ◌<◌, ◌≡◌, refl, sym, ap, subst, ◌∙◌, inl, inr, false, arith, ltb,
  ◌==◌, Bool-cases, ltb→lt, ltb→le, ==→≡, ==→≢, length, get_or, set, length-set, length-replicate,
  get_or-set_self, get_or-set_ne, get_or-replicate,
}
use forest_sorting.Loops.{for_range}
use forest_sorting.Radix.Counts.{
  clear_touched, BitmaskTouchedCountScratch, bitmask_touched_counter, while_lowest_bit,
  new_bitmask_touched_scratch,
}
use forest_sorting.Radix.Counts.Laws.{in_use, CounterLaws, select, use_count}
use forest_sorting.Radix.Counts.Touched.{
  advance_offsets, IsMask, IsWiped, unused, visit_word, HasOffsets, note-IsMask, count_words,
  prefix_offsets, advance_offsets, push_words,
}
use forest_sorting.Radix.Counts.Represents.{Represents, Represents-cong, Represents-none}
use forest_sorting.Radix.Counts.Select.{
  clear_all, clear_all_zero, length-clear_all, clear_all-select,
}
use forest_sorting.Radix.Counts.Full.{IsTable, increment-IsTable}
use native.Mathlib.Nat.{zero-add}

-- The words before `i` are done.
record Clearing (f : ℕ → ℕ) (i : ℕ) (s : BitmaskTouchedCountScratch) : Type 0 where
  counts_length : length s.counts ≡ 256
  done : (d : ℕ) → d < 256 → d < i * 64 → get_or s.counts d 0 ≡ 0
  other : (d : ℕ) → d < 256 → in_use f d ≡ false → get_or s.counts d 0 ≡ 0
  mask_length : length s.touched_mask ≡ 4
  wiped : (m : ℕ) → m < i → get_or s.touched_mask m 0 ≡ 0
  rest : (m : ℕ) → i ≤ m → m < 4 → Represents (in_use f) (m * 64) 64 (get_or s.touched_mask m 0)

clear_touched_lem :
    (f : ℕ → ℕ) (i : ℕ) (s : BitmaskTouchedCountScratch)
    → i < 4
    → Clearing f i s
    → Clearing f (i + 1) (clear_touched i s)
unfolding clear_touched
clear_touched_lem f i s h c =
    let digits = select (in_use f) (i * 64) 64 in
    let word : while_lowest_bit 64 (λ bit counts. set counts (i * 64 + bit) 0)
          (get_or s.touched_mask i 0) s.counts
        ≡ clear_all digits s.counts =
      visit_word (λ d counts. set counts d 0) f i (get_or s.touched_mask i 0) s.counts
        (c.rest i (omega arith) h) in
    let stays = clear_all_zero digits s.counts in
    rw word (record {
      counts_length = length-clear_all digits s.counts ∙ c.counts_length;
      done = λ d p q. elim (Bool-cases (in_use f d)) [
        | inl e ↦ elim (Bool-cases (ltb d (i * 64))) [
          | inl before ↦ stays d (c.done d p (ltb→lt d (i * 64) before))
          | inr here ↦
              clear_all-select (in_use f) 64 (i * 64) d s.counts (ltb→le d (i * 64) here)
                (omega arith) (omega (arith, c.counts_length)) e
        ]
        | inr e ↦ stays d (c.other d p e)
      ];
      other = λ d p e. stays d (c.other d p e);
      mask_length = length-set s.touched_mask i 0 ∙ c.mask_length;
      wiped = λ m p. elim (Bool-cases (i == m)) [
        | inl e ↦
            ap (λ z. get_or (set s.touched_mask i 0) z 0) (sym (==→≡ i m e))
            ∙ get_or-set_self s.touched_mask i 0 0 (omega (arith, c.mask_length))
        | inr e ↦
            let off = ==→≢ i m e in
            let before : m < i = elim (Bool-cases (ltb m i)) [
              | inl q ↦ ltb→lt m i q
              | inr q ↦ absurd (off (omega (arith, ltb→le m i q)))
            ] in
            get_or-set_ne s.touched_mask i m 0 0 off ∙ c.wiped m before
      ];
      rest = λ m p q.
          subst (Represents (in_use f) (m * 64) 64)
            (sym (get_or-set_ne s.touched_mask i m 0 0 (λ z. omega (arith, z))))
            (c.rest m (omega arith) q);
    })

clear_words :
    (f : ℕ → ℕ) (n i : ℕ) (s : BitmaskTouchedCountScratch)
    → n + i ≡ 4
    → Clearing f i s
    → Clearing f 4 (for_range n i clear_touched s)
unfolding for_range
clear_words f zero i s e c = let at : i ≡ 4 = omega arith in subst (λ z. Clearing f z s) at c
clear_words f (suc n) i s e c =
    clear_words f n (i + 1) (clear_touched i s) (omega arith)
      (clear_touched_lem f i s (omega arith) c)

clear_wipes :
    (f : ℕ → ℕ) (s : BitmaskTouchedCountScratch)
    → length s.counts ≡ 256
    → ((d : ℕ) → d < 256 → f d ≡ 0 → get_or s.counts d 0 ≡ 0)
    → IsMask f s.touched_mask
    → IsWiped (for_range (length s.touched_mask) 0 clear_touched s)
clear_wipes f s len other r =
    let c = clear_words f 4 0 s refl (record {
      counts_length = len;
      done = λ d p q. absurd (omega arith);
      other = λ d p e. other d p (unused f d e);
      mask_length = r.0;
      wiped = λ m p. absurd (omega arith);
      rest = λ m p q. r.1 m q;
    }) in
    subst (λ n. IsWiped (for_range n 0 clear_touched s)) (sym r.0)
      ((c.counts_length, λ d p. c.done d p (omega arith)), c.mask_length, c.wiped)

pub bitmask_touched-CounterLaws : CounterLaws bitmask_touched_counter
unfolding bitmask_touched_counter
bitmask_touched-CounterLaws = record {
  IsClean = IsWiped;
  Holds = λ s f. IsTable f s.counts × IsMask f s.touched_mask;
  Offsets = HasOffsets;
  reset_law = λ s c. (
    c.0,
    (
      c.1,
      λ m h. subst (Represents (in_use (λ d. 0)) (m * 64) 64) (sym (c.2 m h)) (
          Represents-cong (λ d. false) (in_use (λ d. 0)) (m * 64) 64 0 (λ e l u. refl)
            (Represents-none (m * 64) 64)),
    ),
  );
  note_law =
      λ s f d h p. (increment-IsTable f s.counts d h p.0, note-IsMask f s.touched_mask d h p.1);
  count_law = λ s f p.
      count_words f s.touched_mask 0 0 (omega (arith, p.1.0)) (λ j h.
        subst (λ z. Represents (in_use f) (z * 64) 64 (get_or s.touched_mask j 0))
          (sym (zero-add j)) (p.1.1 j (omega (arith, p.1.0))))
      ∙ zero-add (use_count f 0 (length s.touched_mask * 64))
      ∙ ap (λ n. use_count f 0 (n * 64)) p.1.0;
  prefix_law = λ s f start p. prefix_offsets f s start p.0 p.1;
  read_law = λ s f next d h p q. q.1 d h p;
  advance_law = advance_offsets;
  push_law = λ s t f start next stack digit_index p q same grows.
      push_words f start next digit_index s.counts t q.3
        (λ d h g. (p.1 d h g, q.1 d h g, grows d h g)) 4 0 stack refl;
  clear_law = λ s f next p. clear_wipes f s p.0 p.2 p.3;
  clear_counts_law = λ s f p. clear_wipes f s p.0.0 (λ d h e. p.0.1 d h ∙ e) p.1;
}

pub new_bitmask_touched-IsClean : bitmask_touched-CounterLaws.IsClean new_bitmask_touched_scratch
unfolding bitmask_touched-CounterLaws
new_bitmask_touched-IsClean = (
  (length-replicate {A = ℕ} 256 0, λ d h. get_or-replicate {A = ℕ} 256 d 0),
  length-replicate {A = ℕ} 4 0,
  λ m h. get_or-replicate {A = ℕ} 4 m 0,
)
