-- ===== src/Radix/Counts/Words.antt =====
-- The bits of a word without its lowest one and without its highest one.
use forest_sorting.Prelude.{
  ℕ, zero, suc, ◌+◌, ◌-◌, ◌*◌, ◌/◌, ◌%◌, ◌^◌, ◌≤◌, ◌<◌, ◌≡◌, refl, sym, ap, ap₂, subst, ◌∙◌, ◌≢◌,
  inl, inr, [], ◌∷◌, ◌++◌, arith, leb, ◌==◌, Bool-cases, leb→le, leb→lt, ==→≡, ==→≢, ≢→==,
}
use forest_sorting.Radix.Counts.{countl_zero, countr_zero}
use native.Mathlib.Nat.{pow-zero, div-eq_of_lt-le, pow-suc, pow-le-pow_right, div-eq_of_lt}
use forest_sorting.Radix.Counts.Represents.{bits_from, bits_from_zero}
use Prim.Native.Nat.{differ, bit_and, bit_xor}
use forest_sorting.Prelude.Bits.{bit_and_half, bit_and_self, bit_xor_half}

bits_from_one :
    (base k word : ℕ)
    → word % 2 ≡ 1
    → bits_from base (suc k) word ≡ base ∷ bits_from (suc base) k (word / 2)
unfolding bits_from
bits_from_one base k word e = rw e refl

bits_from_other :
    (base k word : ℕ)
    → word % 2 ≢ 1
    → bits_from base (suc k) word ≡ bits_from (suc base) k (word / 2)
unfolding bits_from
bits_from_other base k word e = rw (≢→== (word % 2) 1 e) refl

-- `word &= word - 1`
pub lowest_bit :
    (base k width word : ℕ)
    → word < 2 ^ k
    → k ≤ width
    → word ≢ 0
    → (bits_from base k word
        ≡ (base + countr_zero width word) ∷ bits_from base k (bit_and word (word - 1)))
      × (bit_and word (word - 1) < 2 ^ k)
unfolding countr_zero
lowest_bit base zero width word h g ne = absurd (omega (arith, pow-zero 2))
lowest_bit base (suc k) zero word h g ne = absurd (omega arith)
lowest_bit base (suc k) (suc width) word h g ne =
    let left : ℕ = bit_and word (word - 1) in
    let half = bit_and_half word (word - 1) in
    elim (Bool-cases (word % 2 == 1)) [
      | inl e ↦
          let odd = ==→≡ (word % 2) 1 e in
          let cut : (word - 1) / 2 ≡ word / 2 = omega (arith, odd) in
          let high : bit_and (word / 2) ((word - 1) / 2) ≡ word / 2 =
            ap (bit_and (word / 2)) cut ∙ bit_and_self (word / 2) in
          let halved : left / 2 ≡ word / 2 = omega (arith, half, high, odd) in
          let rest : bits_from base (suc k) left ≡ bits_from (suc base) k (word / 2) =
            bits_from_other base k left (omega (arith, half, high, odd))
            ∙ ap (bits_from (suc base) k) halved in
          (
            bits_from_one base k word odd ∙ rw e (ap₂ ◌∷◌ (omega arith) (sym rest)),
            omega (arith, half, high, odd),
          )
      | inr e ↦
          let even = ==→≢ (word % 2) 1 e in
          let cut : (word - 1) / 2 ≡ word / 2 - 1 = omega (arith, even, ne) in
          let inner =
            lowest_bit (suc base) k width (word / 2) (omega (arith, pow-suc 2 k)) (omega arith)
              (omega (arith, even, ne)) in
          let high : bit_and (word / 2) ((word - 1) / 2) ≡ bit_and (word / 2) (word / 2 - 1) =
            ap (bit_and (word / 2)) cut in
          let halved : left / 2 ≡ bit_and (word / 2) (word / 2 - 1) =
            omega (arith, half, high, even) in
          let rest : bits_from base (suc k) left
              ≡ bits_from (suc base) k (bit_and (word / 2) (word / 2 - 1)) =
            bits_from_other base k left (omega (arith, half, high, even))
            ∙ ap (bits_from (suc base) k) halved in
          (
            bits_from_other base k word even ∙ inner.0 ∙ rw e (ap₂ ◌∷◌ (omega arith) (sym rest)),
            omega (arith, half, high, even, inner.1, pow-suc 2 k),
          )
    ]

-- The highest bit, by the zeros above it.
pub countl_zero_lem :
    (width h word : ℕ)
    → h < width
    → 2 ^ h ≤ word
    → word < 2 ^ suc h
    → h + suc (countl_zero width word) ≡ width
unfolding countl_zero
countl_zero_lem zero h word l a b = absurd (omega arith)
countl_zero_lem (suc width) h word l a b = elim (Bool-cases (h == width)) [
  | inl e ↦
      let at = ==→≡ h width e in
      let one : word / 2 ^ width % 2 ≡ 1 =
        let quotient : word / 2 ^ width ≡ 1 =
          div-eq_of_lt-le {k = 1} (2 ^ width) (subst (λ z. 1 * 2 ^ z ≤ word) at (omega arith))
            (subst (λ z. word < 2 * 2 ^ z) at (omega (arith, pow-suc 2 h))) in
        omega (arith, quotient) in
      rw one (omega (arith, at))
  | inr e ↦
      let off = ==→≢ h width e in
      let nought : word / 2 ^ width % 2 ≡ 0 =
        let small : 2 ^ suc h ≤ 2 ^ width = pow-le-pow_right {n = 2} (omega arith) (omega arith) in
        let quotient : word / 2 ^ width ≡ 0 = div-eq_of_lt (omega (arith, small)) in
        omega (arith, quotient) in
      rw nought (omega (arith, countl_zero_lem width h word (omega arith) a b))
]

pub highest_bit_of :
    (k word : ℕ) → word < 2 ^ k → word ≢ 0 → (h : ℕ) × (h < k) × (2 ^ h ≤ word) × (word < 2 ^ suc h)
highest_bit_of zero word h ne = absurd (omega (arith, pow-zero 2))
highest_bit_of (suc k) word h ne = elim (Bool-cases (leb (2 ^ k) word)) [
  | inl e ↦ (k, omega arith, leb→le (2 ^ k) word e, h)
  | inr e ↦
      let (i, lt, lo, hi) = highest_bit_of k word (leb→lt (2 ^ k) word e) ne in
      (i, omega arith, lo, hi)
]

differ-zero : (x : ℕ) → differ x 0 ≡ x
differ-zero zero = refl
differ-zero (suc x) = refl

-- `word ^= 1 << h` for the highest bit.
pub highest_bit :
    (base k h word : ℕ)
    → h < k
    → 2 ^ h ≤ word
    → word < 2 ^ suc h
    → (bits_from base k word ≡ bits_from base k (bit_xor word (2 ^ h)) ++ (base + h) ∷ [])
      × (bit_xor word (2 ^ h) < 2 ^ h)
highest_bit base zero h word l a b = absurd (omega arith)
highest_bit base (suc k) zero word l a b =
    let one : word ≡ 1 = omega (arith, pow-zero 2, pow-suc 2 0) in
    rw one (
      bits_from_one base k 1 (omega arith)
          ∙ ap (λ l. base ∷ l) (bits_from_zero (suc base) k)
          ∙ ap (λ z. z ∷ []) (omega arith)
          ∙ ap (λ l. l ++ (base + 0) ∷ []) (sym (bits_from_zero base (suc k))),
      omega arith,
    )
highest_bit base (suc k) (suc h) word l a b =
    let double : 2 ^ suc h ≡ 2 ^ h * 2 = pow-suc 2 h in
    let inner =
      highest_bit (suc base) k h (word / 2) (omega arith) (omega (arith, double))
        (omega (arith, pow-suc 2 (suc h))) in
    let left : ℕ = bit_xor word (2 ^ suc h) in
    let half = bit_xor_half word (2 ^ suc h) in
    let low : 2 ^ suc h / 2 ≡ 2 ^ h = omega (arith, double) in
    let even : 2 ^ suc h % 2 ≡ 0 = omega (arith, double) in
    let high : bit_xor (word / 2) (2 ^ suc h / 2) ≡ bit_xor (word / 2) (2 ^ h) =
      ap (bit_xor (word / 2)) low in
    let bit : differ (word % 2) (2 ^ suc h % 2) ≡ word % 2 =
      ap (differ (word % 2)) even ∙ differ-zero (word % 2) in
    let same_bit : left % 2 ≡ word % 2 = omega (arith, half, high, bit) in
    let halved : left / 2 ≡ bit_xor (word / 2) (2 ^ h) = omega (arith, half, high, bit) in
    let rest : bits_from (suc base) k (word / 2)
        ≡ bits_from (suc base) k (left / 2) ++ (base + suc h) ∷ [] =
      inner.0 ∙ ap₂ (λ l z. l ++ z ∷ []) (ap (bits_from (suc base) k) (sym halved)) (omega arith) in
    (
      elim (Bool-cases (word % 2 == 1)) [
        | inl e ↦
            let odd = ==→≡ (word % 2) 1 e in
            bits_from_one base k word odd
            ∙ ap (◌∷◌ base) rest
            ∙ ap (λ l. l ++ (base + suc h) ∷ []) (sym (bits_from_one base k left (same_bit ∙ odd)))
        | inr e ↦
            let other = ==→≢ (word % 2) 1 e in
            bits_from_other base k word other
            ∙ rest
            ∙ ap (λ l. l ++ (base + suc h) ∷ [])
                (sym (bits_from_other base k left (λ q. other (sym same_bit ∙ q))))
      ],
      omega (arith, half, high, bit, inner.1, double),
    )
