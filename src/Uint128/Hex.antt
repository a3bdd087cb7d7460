-- ===== src/Uint128/Hex.antt =====
-- The words and the digits of a 128-bit identifier give it back.
use forest_sorting.Prelude.{
  ℕ, zero, suc, ◌+◌, ◌-◌, ◌*◌, ◌/◌, ◌%◌, ◌^◌, ◌≤◌, ◌<◌, ◌≡◌, refl, sym, ap, ap₂, ◌∙◌, inl, inr,
  List, [], ◌∷◌, ◌++◌, arith, ◌==◌, Bool-cases, ==→≡, length, replicate, length-append,
  length-replicate,
}
use forest_sorting.Uint128.{hex_digits, padded, to_hex, high_word, low_word, UInt128}
use native.Mathlib.Nat.{pow-zero, pow-suc}

-- A number read from its digits, the first one first.
unfoldable pub read_hex : ℕ → List ℕ → ℕ
read_hex sum [] = sum
read_hex sum (d ∷ digits) = read_hex (sum * 16 + d) digits

read_hex-last :
    (sum : ℕ) (l : List ℕ) (d : ℕ) → read_hex sum (l ++ d ∷ []) ≡ read_hex sum l * 16 + d
unfolding read_hex
read_hex-last sum [] d = refl
read_hex-last sum (x ∷ l) d = read_hex-last (sum * 16 + x) l d

read_hex-append : (sum : ℕ) (l m : List ℕ) → read_hex sum (l ++ m) ≡ read_hex (read_hex sum l) m
unfolding read_hex
read_hex-append sum [] m = refl
read_hex-append sum (x ∷ l) m = read_hex-append (sum * 16 + x) l m

read_hex-sum : (l : List ℕ) (sum : ℕ) → read_hex sum l ≡ sum * 16 ^ length l + read_hex 0 l
unfolding read_hex
read_hex-sum [] sum = omega (arith, pow-zero 16)
read_hex-sum (d ∷ l) sum =
    let here = read_hex-sum l (sum * 16 + d) in
    let first : read_hex (0 * 16 + d) l ≡ d * 16 ^ length l + read_hex 0 l =
      ap (λ z. read_hex z l) (omega arith) ∙ read_hex-sum l d in
    let power : 16 ^ suc (length l) ≡ 16 ^ length l * 16 = pow-suc 16 (length l) in
    let scaled : sum * 16 ^ suc (length l) ≡ sum * (16 ^ length l * 16) = ap (λ z. sum * z) power in
    grind (arith, here, first, scaled)

read_hex-zeros : (n : ℕ) → read_hex 0 (replicate n 0) ≡ 0
unfolding read_hex
read_hex-zeros zero = refl
read_hex-zeros (suc n) = read_hex-zeros n

hex_digits_read : (k word : ℕ) → word < 16 ^ k → read_hex 0 (hex_digits k word) ≡ word
unfolding hex_digits read_hex
hex_digits_read zero word h = omega (arith, pow-zero 16)
hex_digits_read (suc k) word h = elim (Bool-cases (word == 0)) [
  | inl e ↦ rw e (sym (==→≡ word 0 e))
  | inr e ↦
      let rest = hex_digits_read k (word / 16) (omega (arith, pow-suc 16 k)) in
      rw e (read_hex-last 0 (hex_digits k (word / 16)) (word % 16) ∙ omega (arith, rest))
]

length-hex_digits : (k word : ℕ) → length (hex_digits k word) ≤ k
unfolding hex_digits
length-hex_digits zero word = omega arith
length-hex_digits (suc k) word = elim (Bool-cases (word == 0)) [
  | inl e ↦ rw e (omega arith)
  | inr e ↦ rw e (
      omega (
        arith,
        length-append (hex_digits k (word / 16)) ((word % 16) ∷ []),
        length-hex_digits k (word / 16),
      ))
]

padded_read :
    (sum : ℕ) (l : List ℕ) → length l ≤ 16 → read_hex sum (padded l) ≡ sum * 16 ^ 16 + read_hex 0 l
unfolding padded
padded_read sum l h =
    let zeros : List ℕ = replicate (16 - length l) 0 in
    let size : length (zeros ++ l) ≡ 16 =
      length-append zeros l ∙ omega (arith, length-replicate {A = ℕ} (16 - length l) 0) in
    read_hex-sum (zeros ++ l) sum
    ∙ ap₂ (λ n r. sum * 16 ^ n + r) size
        (read_hex-append 0 zeros l ∙ ap (λ z. read_hex z l) (read_hex-zeros (16 - length l)))

-- The digits that `toHex` prints, read as a hexadecimal number, are the identifier.
pub read_hex-to_hex : (x : UInt128) → read_hex 0 (to_hex x) ≡ x.value
unfolding to_hex high_word low_word
read_hex-to_hex x = elim (Bool-cases (x.value == 0)) [
  | inl e ↦ rw e (one_zero ∙ sym (==→≡ x.value 0 e))
  | inr e ↦
      let small = x.value_lt in
      let low = hex_digits_read 16 (x.value % 2 ^ 64) (omega arith) in
      let high = hex_digits_read 16 (x.value / 2 ^ 64 % 2 ^ 64) (omega arith) in
      elim (Bool-cases (x.value / 2 ^ 64 % 2 ^ 64 == 0)) [
        | inl f ↦ rw (e, f) (low ∙ omega (arith, ==→≡ (x.value / 2 ^ 64 % 2 ^ 64) 0 f))
        | inr f ↦
            rw (e, f)
              (read_hex-append 0 (hex_digits 16 (x.value / 2 ^ 64 % 2 ^ 64))
                  (padded (hex_digits 16 (x.value % 2 ^ 64)))
                ∙ padded_read (read_hex 0 (hex_digits 16 (x.value / 2 ^ 64 % 2 ^ 64)))
                    (hex_digits 16 (x.value % 2 ^ 64)) (length-hex_digits 16 (x.value % 2 ^ 64))
                ∙ omega (arith, low, high))
      ]
]
  where
    one_zero : read_hex 0 (0 ∷ []) ≡ 0
    one_zero = read_hex-zeros 1
