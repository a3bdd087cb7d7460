-- ===== src/Prelude/Bits.antt =====
-- `|` and `^` on words: joining bit fields, and the masks that are zero.
use Prim.Native.Nat.{
  ℕ, zero, suc, ◌+◌, ◌*◌, ◌/◌, ◌%◌, ◌^◌, ◌≤◌, ◌<◌, max, bit_or, bit_xor, digits, differ,
  bit_or-bitwise, bit_xor-bitwise, bit_and, bit_and-bitwise, min,
}
use mathlib.Core.Path.{◌≡◌, refl, ap, sym, ◌∙◌}
use native.Mathlib.Nat.{pow-suc}
use native.Mathlib.Omega.{arith}

-- Fuel beyond the first number changes nothing.
module _ (g : ℕ → ℕ) (f : ℕ → ℕ → ℕ) where
  abbrev combine : ℕ → ℕ → ℕ → ℕ
  combine n a b = digits g f n a b

  combine_fuel : (n m a b : ℕ) → a ≤ n → a ≤ m → combine n a b ≡ combine m a b
  combine_fuel zero zero a b p q = refl
  combine_fuel (suc n) m zero b p q = sym (combine_zero m b)
    where
      combine_zero : (m b : ℕ) → combine m 0 b ≡ g b
      combine_zero zero b = refl
      combine_zero (suc m) b = refl
  combine_fuel zero (suc m) zero b p q = refl
  combine_fuel zero (suc m) (suc a) b p q = absurd (omega arith)
  combine_fuel (suc n) zero (suc a) b p q = absurd (omega arith)
  combine_fuel (suc n) (suc m) (suc a) b p q =
      ap (λ t. t * 2 + f (suc a % 2) (b % 2))
        (combine_fuel n m (suc a / 2) (b / 2) (omega arith) (omega arith))

  -- The lowest digit of a number that is not zero.
  combine_half :
      (a b : ℕ)
      → combine (suc a) (suc a) b
        ≡ combine (suc a / 2) (suc a / 2) (b / 2) * 2 + f (suc a % 2) (b % 2)
  combine_half a b =
      ap (λ t. t * 2 + f (suc a % 2) (b % 2))
        (combine_fuel a (suc a / 2) (suc a / 2) (b / 2) (omega arith) (omega arith))

bit_or_zero_left : (b : ℕ) → bit_or 0 b ≡ b
bit_or_zero_left b = bit_or-bitwise 0 b

bit_xor_zero_left : (b : ℕ) → bit_xor 0 b ≡ b
bit_xor_zero_left b = bit_xor-bitwise 0 b

pub bit_or_half : (a b : ℕ) → bit_or a b ≡ bit_or (a / 2) (b / 2) * 2 + max (a % 2) (b % 2)
bit_or_half zero b = omega (arith, bit_or_zero_left b, bit_or_zero_left (b / 2))
bit_or_half (suc a) b =
    bit_or-bitwise (suc a) b
    ∙ combine_half (λ y. y) max a b
    ∙ ap (λ t. t * 2 + max (suc a % 2) (b % 2)) (sym (bit_or-bitwise (suc a / 2) (b / 2)))

pub bit_xor_half : (a b : ℕ) → bit_xor a b ≡ bit_xor (a / 2) (b / 2) * 2 + differ (a % 2) (b % 2)
bit_xor_half zero b =
    omega (arith, bit_xor_zero_left b, bit_xor_zero_left (b / 2), differ_zero (b % 2))
  where
    differ_zero : (y : ℕ) → differ 0 y ≡ y
    differ_zero y = refl
bit_xor_half (suc a) b =
    bit_xor-bitwise (suc a) b
    ∙ combine_half (λ y. y) differ a b
    ∙ ap (λ t. t * 2 + differ (suc a % 2) (b % 2)) (sym (bit_xor-bitwise (suc a / 2) (b / 2)))

bit_and_zero_left : (b : ℕ) → bit_and 0 b ≡ 0
bit_and_zero_left b = bit_and-bitwise 0 b

pub bit_and_half : (a b : ℕ) → bit_and a b ≡ bit_and (a / 2) (b / 2) * 2 + min (a % 2) (b % 2)
bit_and_half zero b = omega (arith, bit_and_zero_left b, bit_and_zero_left (b / 2))
bit_and_half (suc a) b =
    bit_and-bitwise (suc a) b
    ∙ combine_half (λ y. 0) min a b
    ∙ ap (λ t. t * 2 + min (suc a % 2) (b % 2)) (sym (bit_and-bitwise (suc a / 2) (b / 2)))

bit_or_zero_bounded : (n a : ℕ) → a ≤ n → bit_or a 0 ≡ a
bit_or_zero_bounded n zero h = bit_or_zero_left 0
bit_or_zero_bounded zero (suc a) h = absurd (omega arith)
bit_or_zero_bounded (suc n) (suc a) h =
    omega (arith, bit_or_half (suc a) 0, bit_or_zero_bounded n (suc a / 2) (omega arith))

pub bit_or_zero_right : (a : ℕ) → bit_or a 0 ≡ a
bit_or_zero_right a = bit_or_zero_bounded a a (omega arith)

bit_and_self_bounded : (n a : ℕ) → a ≤ n → bit_and a a ≡ a
bit_and_self_bounded n zero h = bit_and_zero_left 0
bit_and_self_bounded zero (suc a) h = absurd (omega arith)
bit_and_self_bounded (suc n) (suc a) h =
    omega (arith, bit_and_half (suc a) (suc a), bit_and_self_bounded n (suc a / 2) (omega arith))

pub bit_and_self : (a : ℕ) → bit_and a a ≡ a
bit_and_self a = bit_and_self_bounded a a (omega arith)

-- A field below a multiple of a power of two: `|` is a sum.
pub bit_or_field : (k a q r : ℕ) → a ≡ q * 2 ^ k → r < 2 ^ k → bit_or a r ≡ a + r
bit_or_field zero a q r e h =
    let nothing : r ≡ 0 = omega arith in
    ap (bit_or a) nothing ∙ omega (arith, bit_or_zero_bounded a a)
bit_or_field (suc k) a q r e h =
    let double : a ≡ 2 * (q * 2 ^ k) = omega (arith, e, ap (λ (t : ℕ). q * t) (pow-suc 2 k)) in
    omega (
      arith,
      bit_or_half a r,
      bit_or_field k (a / 2) q (r / 2) (omega arith) (omega (arith, pow-suc 2 k)),
    )

-- `|` is zero only if both sides are.
bit_or_zero_both : (n a b : ℕ) → a + b ≤ n → bit_or a b ≡ 0 → (a ≡ 0) × (b ≡ 0)
bit_or_zero_both zero a b h e = omega arith
bit_or_zero_both (suc n) zero b h e = omega (arith, bit_or_zero_left b)
bit_or_zero_both (suc n) (suc a) b h e =
    let (p, q) =
      bit_or_zero_both n (suc a / 2) (b / 2) (omega arith) (omega (arith, bit_or_half (suc a) b)) in
    omega (arith, bit_or_half (suc a) b)

pub bit_or-eq-zero : (a b : ℕ) → bit_or a b ≡ 0 → (a ≡ 0) × (b ≡ 0)
bit_or-eq-zero a b = bit_or_zero_both (a + b) a b (omega arith)

differ_bits : (x y : ℕ) → differ x y ≡ 0 → x ≡ y
differ_bits zero y e = omega arith
differ_bits (suc x) zero e = absurd (omega arith)
differ_bits (suc x) (suc y) e = ap suc (differ_bits x y e)

differ_self : (x : ℕ) → differ x x ≡ 0
differ_self zero = refl
differ_self (suc x) = differ_self x

bit_xor_zero_bounded : (n a b : ℕ) → a + b ≤ n → bit_xor a b ≡ 0 → a ≡ b
bit_xor_zero_bounded zero a b h e = omega arith
bit_xor_zero_bounded (suc n) zero b h e = omega (arith, bit_xor_zero_left b)
bit_xor_zero_bounded (suc n) (suc a) b h e =
    let halves =
      bit_xor_zero_bounded n (suc a / 2) (b / 2) (omega arith)
        (omega (arith, bit_xor_half (suc a) b)) in
    let low = differ_bits (suc a % 2) (b % 2) (omega (arith, bit_xor_half (suc a) b)) in omega arith

-- `^` is zero exactly at equal words.
pub bit_xor-eq-zero : (a b : ℕ) → bit_xor a b ≡ 0 → a ≡ b
bit_xor-eq-zero a b = bit_xor_zero_bounded (a + b) a b (omega arith)

bit_xor_self_bounded : (n a : ℕ) → a ≤ n → bit_xor a a ≡ 0
bit_xor_self_bounded n zero h = bit_xor_zero_left 0
bit_xor_self_bounded zero (suc a) h = absurd (omega arith)
bit_xor_self_bounded (suc n) (suc a) h = omega (
  arith,
  bit_xor_half (suc a) (suc a),
  differ_self (suc a % 2),
  bit_xor_self_bounded n (suc a / 2) (omega arith),
)

pub bit_xor_self : (a : ℕ) → bit_xor a a ≡ 0
bit_xor_self a = bit_xor_self_bounded a a (omega arith)
