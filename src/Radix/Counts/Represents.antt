-- ===== src/Radix/Counts/Represents.antt =====
-- The bits of a word as a list of positions, and the words whose ones are where a test holds.
use forest_sorting.Prelude.{
  ℕ, zero, suc, ◌+◌, ◌*◌, ◌/◌, ◌%◌, ◌^◌, ◌≤◌, ◌<◌, ◌≡◌, refl, sym, ap, subst, ◌∙◌, inl, inr, Bool,
  true, false, ◌||◌, List, [], ◌∷◌, arith, ◌==◌, if◌then◌else◌, Bool-cases, ==→≡, ==→≢, ≡→==, ≢→==,
  length,
}
use forest_sorting.Radix.Counts.{popcount}
use forest_sorting.Radix.Counts.Laws.{select}
use Prim.Native.Nat.{bit_or}
use native.Mathlib.Nat.{pow-zero, pow-suc}
use forest_sorting.Prelude.Bits.{bit_or_half, bit_or_zero_right}

-- The positions of the ones among the lowest `k` bits, the lowest at `base`.
unfoldable pub bits_from : ℕ → ℕ → ℕ → List ℕ
bits_from base zero word = []
bits_from base (suc k) word =
    let rest = bits_from (suc base) k (word / 2) in if word % 2 == 1 then base ∷ rest else rest

-- The word has its ones where the test holds.
unfoldable pub Represents : (ℕ → Bool) → ℕ → ℕ → ℕ → Type 0
Represents p base zero word = word ≡ 0
Represents p base (suc k) word =
    (word % 2 ≡ (if p base then 1 else 0)) × Represents p (suc base) k (word / 2)

pub Represents-cong :
    (p q : ℕ → Bool) (base k word : ℕ)
    → ((e : ℕ) → base ≤ e → e < base + k → p e ≡ q e)
    → Represents p base k word
    → Represents q base k word
unfolding Represents
Represents-cong p q base zero word h r = r
Represents-cong p q base (suc k) word h r = (
  r.0 ∙ ap (λ b. if b then 1 else 0) (h base (omega arith) (omega arith)),
  Represents-cong p q (suc base) k (word / 2) (λ e l u. h e (omega arith) (omega arith)) r.1,
)

pub Represents-bits :
    (p : ℕ → Bool) (base k word : ℕ)
    → Represents p base k word
    → bits_from base k word ≡ select p base k
unfolding Represents bits_from select
Represents-bits p base zero word r = refl
Represents-bits p base (suc k) word r = elim (Bool-cases (p base)) [
  | inl e ↦
      let one : word % 2 ≡ 1 = r.0 ∙ rw e refl in
      rw (e, one) (ap (◌∷◌ base) (Represents-bits p (suc base) k (word / 2) r.1))
  | inr e ↦
      let nought : word % 2 ≡ 0 = r.0 ∙ rw e refl in
      rw (e, nought) (Represents-bits p (suc base) k (word / 2) r.1)
]

pub Represents-lt : (p : ℕ → Bool) (base k word : ℕ) → Represents p base k word → word < 2 ^ k
unfolding Represents
Represents-lt p base zero word r = omega (arith, r, pow-zero 2)
Represents-lt p base (suc k) word r =
    omega (arith, Represents-lt p (suc base) k (word / 2) r.1, pow-suc 2 k)

pub Represents-none : (base k : ℕ) → Represents (λ d. false) base k 0
unfolding Represents
Represents-none base zero = refl
Represents-none base (suc k) = (omega arith, Represents-none (suc base) k)

-- `word |= 1 << j`
pub Represents-bit_or :
    (p : ℕ → Bool) (base k j word : ℕ)
    → j < k
    → Represents p base k word
    → Represents (λ e. (e == base + j) || p e) base k (bit_or word (2 ^ j))
unfolding Represents
Represents-bit_or p base zero j word h r = absurd (omega arith)
Represents-bit_or p base (suc k) zero word h r =
    let half = bit_or_half word 1 in
    let same = bit_or_zero_right (word / 2) in
    let here : (base == base + 0) ≡ true = ≡→== base (base + 0) (omega arith) in
    (
      rw (pow-zero 2, here) (omega (arith, half)),
      rw (pow-zero 2) (
          subst (Represents (λ e. (e == base + 0) || p e) (suc base) k)
            (sym (omega (arith, half, same)))
            (Represents-cong p (λ e. (e == base + 0) || p e) (suc base) k (word / 2)
              (λ e l u. rw (≢→== e (base + 0) (λ q. omega (arith, q))) refl) r.1)),
    )
Represents-bit_or p base (suc k) (suc j) word h r =
    let half = bit_or_half word (2 ^ suc j) in
    let double : 2 ^ suc j ≡ 2 ^ j * 2 = pow-suc 2 j in
    let other : (base == base + suc j) ≡ false = ≢→== base (base + suc j) (λ q. omega (arith, q)) in
    let inner : 2 ^ suc j / 2 ≡ 2 ^ j = omega (arith, double) in
    let halved : bit_or (word / 2) (2 ^ suc j / 2) ≡ bit_or (word / 2) (2 ^ j) =
      ap (bit_or (word / 2)) inner in
    (
      rw other (omega (arith, half, double, r.0)),
      subst (Represents (λ e. (e == base + suc j) || p e) (suc base) k)
          (sym (omega (arith, half, double, halved)))
          (Represents-cong (λ e. (e == suc base + j) || p e) (λ e. (e == base + suc j) || p e)
            (suc base) k (bit_or (word / 2) (2 ^ j))
            (λ e l u. ap (λ z. (e == z) || p e) (omega arith))
            (Represents-bit_or p (suc base) k j (word / 2) (omega arith) r.1)),
    )

pub popcount_lem : (base k word : ℕ) → popcount k word ≡ length (bits_from base k word)
unfolding popcount bits_from
popcount_lem base zero word = refl
popcount_lem base (suc k) word = elim (Bool-cases (word % 2 == 1)) [
  | inl e ↦ rw e (omega (arith, ==→≡ (word % 2) 1 e, popcount_lem (suc base) k (word / 2)))
  | inr e ↦ rw e (omega (arith, ==→≢ (word % 2) 1 e, popcount_lem (suc base) k (word / 2)))
]

pub length-bits_from : (base k word : ℕ) → length (bits_from base k word) ≤ k
unfolding bits_from
length-bits_from base zero word = omega arith
length-bits_from base (suc k) word = elim (Bool-cases (word % 2 == 1)) [
  | inl e ↦ rw e (omega (arith, length-bits_from (suc base) k (word / 2)))
  | inr e ↦ rw e (omega (arith, length-bits_from (suc base) k (word / 2)))
]

pub bits_from_zero : (base k : ℕ) → bits_from base k 0 ≡ []
unfolding bits_from
bits_from_zero base zero = refl
bits_from_zero base (suc k) = bits_from_zero (suc base) k
