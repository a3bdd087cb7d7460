-- ===== src/Radix/Counts/Rounds.antt =====
-- The loops over the bits of a word, from the lowest bit and from the highest one.
use forest_sorting.Prelude.{
  ℕ, zero, suc, ◌+◌, ◌-◌, ◌/◌, ◌%◌, ◌^◌, ◌≤◌, ◌<◌, ◌≡◌, refl, sym, ap, ◌∙◌, inl, inr, List, [], ◌∷◌,
  ◌++◌, arith, ◌==◌, Bool-cases, ==→≡, ==→≢, length, length-append,
}
use forest_sorting.Radix.Counts.{while_highest_bit, while_lowest_bit, countr_zero, countl_zero}
use forest_sorting.Loops.{for_each}
use forest_sorting.Radix.Counts.Represents.{bits_from, bits_from_zero}
use forest_sorting.Radix.Counts.Words.{lowest_bit, highest_bit_of, highest_bit, countl_zero_lem}
use native.Mathlib.Nat.{zero-add, pow-le-pow_right}
use Prim.Native.Nat.{bit_and, bit_xor}

-- The elements from the last to the first.
unfoldable pub for_each_back {ℓ} : {S : Type ℓ} → (ℕ → S → S) → List ℕ → S → S
for_each_back body [] s = s
for_each_back body (x ∷ xs) s = body x (for_each_back body xs s)

for_each_back-last {ℓ} :
    {S : Type ℓ} (body : ℕ → S → S) (xs : List ℕ) (y : ℕ) (s : S)
    → for_each_back body (xs ++ y ∷ []) s ≡ for_each_back body xs (body y s)
unfolding for_each_back
for_each_back-last body [] y s = refl
for_each_back-last body (x ∷ xs) y s = ap (body x) (for_each_back-last body xs y s)

module _ {State : Type 0} (body : ℕ → State → State) where
  -- The loops visit the bits in order, from below and from above.
  pub while_lowest_bit_lem :
      (rounds word : ℕ) (s : State)
      → length (bits_from 0 64 word) ≤ rounds
      → word < 2 ^ 64
      → while_lowest_bit rounds body word s ≡ for_each body (bits_from 0 64 word) s
  unfolding while_lowest_bit for_each
  while_lowest_bit_lem zero word s h small = elim (Bool-cases (word == 0)) [
    | inl e ↦
        ap (λ z. for_each body z s)
          (sym (bits_from_zero 0 64) ∙ ap (bits_from 0 64) (sym (==→≡ word 0 e)))
    | inr e ↦
        let (split, less) = lowest_bit 0 64 64 word small (omega arith) (==→≢ word 0 e) in
        absurd (omega (arith, ap length split))
  ]
  while_lowest_bit_lem (suc rounds) word s h small = elim (Bool-cases (word == 0)) [
    | inl e ↦ rw e (
        ap (λ z. for_each body z s)
          (sym (bits_from_zero 0 64) ∙ ap (bits_from 0 64) (sym (==→≡ word 0 e))))
    | inr e ↦
        let (split, less) = lowest_bit 0 64 64 word small (omega arith) (==→≢ word 0 e) in
        let at : 0 + countr_zero 64 word ≡ countr_zero 64 word = zero-add (countr_zero 64 word) in
        rw e (
          while_lowest_bit_lem rounds (bit_and word (word - 1)) (body (countr_zero 64 word) s)
            (omega (arith, ap length split)) less
          ∙ ap (λ z. for_each body (z ∷ bits_from 0 64 (bit_and word (word - 1))) s) (sym at)
          ∙ ap (λ l. for_each body l s) (sym split))
  ]

  pub while_highest_bit_lem :
      (rounds word : ℕ) (s : State)
      → length (bits_from 0 64 word) ≤ rounds
      → word < 2 ^ 64
      → while_highest_bit rounds body word s ≡ for_each_back body (bits_from 0 64 word) s
  unfolding while_highest_bit for_each_back
  while_highest_bit_lem zero word s h small = elim (Bool-cases (word == 0)) [
    | inl e ↦
        ap (λ z. for_each_back body z s)
          (sym (bits_from_zero 0 64) ∙ ap (bits_from 0 64) (sym (==→≡ word 0 e)))
    | inr e ↦
        let (split, less) = lowest_bit 0 64 64 word small (omega arith) (==→≢ word 0 e) in
        absurd (omega (arith, ap length split))
  ]
  while_highest_bit_lem (suc rounds) word s h small = elim (Bool-cases (word == 0)) [
    | inl e ↦ rw e (
        ap (λ z. for_each_back body z s)
          (sym (bits_from_zero 0 64) ∙ ap (bits_from 0 64) (sym (==→≡ word 0 e))))
    | inr e ↦
        let (j, lt, lo, hi) = highest_bit_of 64 word small (==→≢ word 0 e) in
        let (split, less) = highest_bit 0 64 j word lt lo hi in
        let at : 63 - countl_zero 64 word ≡ j = omega (arith, countl_zero_lem 64 j word lt lo hi) in
        let bound : 2 ^ j ≤ 2 ^ 64 =
          pow-le-pow_right {n = 2} (omega arith) {i = j} {j = 64} (omega arith) in
        let left : ℕ = bit_xor word (2 ^ j) in
        let counted = length-append (bits_from 0 64 left) ((0 + j) ∷ []) in
        rw (e, at)
          (while_highest_bit_lem rounds left (body j s) (omega (arith, ap length split, counted))
              (omega (arith, less, bound))
            ∙ ap (λ z. for_each_back body (bits_from 0 64 left) (body z s)) (sym (zero-add j))
            ∙ sym (for_each_back-last body (bits_from 0 64 left) (0 + j) s)
            ∙ ap (λ l. for_each_back body l s) (sym split))
  ]

-- A loop over the bits of one word of the mask is a loop over the positions in the mask.
module _ {State : Type 0} (body : ℕ → State → State) (c : ℕ) where
  pub for_each-shift :
      (base k word : ℕ) (s : State)
      → for_each (λ bit. body (c + bit)) (bits_from base k word) s
        ≡ for_each body (bits_from (c + base) k word) s
  unfolding for_each bits_from
  for_each-shift base zero word s = refl
  for_each-shift base (suc k) word s =
      let at : c + suc base ≡ suc (c + base) = omega arith in
      elim (Bool-cases (word % 2 == 1)) [
        | inl e ↦ rw e (
            for_each-shift (suc base) k (word / 2) (body (c + base) s)
            ∙ ap (λ z. for_each body (bits_from z k (word / 2)) (body (c + base) s)) at)
        | inr e ↦ rw e (
            for_each-shift (suc base) k (word / 2) s
            ∙ ap (λ z. for_each body (bits_from z k (word / 2)) s) at)
      ]

  pub for_each_back-shift :
      (base k word : ℕ) (s : State)
      → for_each_back (λ bit. body (c + bit)) (bits_from base k word) s
        ≡ for_each_back body (bits_from (c + base) k word) s
  unfolding for_each_back bits_from
  for_each_back-shift base zero word s = refl
  for_each_back-shift base (suc k) word s =
      let at : c + suc base ≡ suc (c + base) = omega arith in
      let rest =
        for_each_back-shift (suc base) k (word / 2) s
        ∙ ap (λ z. for_each_back body (bits_from z k (word / 2)) s) at in
      elim (Bool-cases (word % 2 == 1)) [
        | inl e ↦ rw e (ap (body (c + base)) rest)
        | inr e ↦ rw e rest
      ]
