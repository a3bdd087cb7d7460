-- ===== src/Uint128/Bytes.antt =====
-- The bytes and chunks of a 128-bit identifier spell its number, so its traits are lawful.
use forest_sorting.Prelude.{
  ℕ, zero, suc, ◌+◌, ◌-◌, ◌*◌, ◌/◌, ◌%◌, ◌^◌, ◌≤◌, ◌<◌, ◌≡◌, refl, sym, ap, ap₂, subst, ◌∙◌, inl,
  inr, Bool, true, false, Option, none, some, arith, ltb, ◌==◌, Bool-cases, lt→ltb, ==→≡, ==→≢,
}
use forest_sorting.Uint128.{
  uint128_byte_msb_first, UInt128, uint128_traits, make_id, uint128_chunk_msb_first, high_word,
  low_word, cast_uint128,
}
use forest_sorting.Ids.Chunks.Value.{
  digits_value, padded_byte, pow_256, pow_add, mod_split, pow_pos, id_value, IsLawful,
  build_chunk_from_bytes_lem,
}
use native.Mathlib.Nat.{pow-zero, pow-suc, div-div-eq-div-mul, mod-eq_of_lt, mod-lt}
use forest_sorting.Ids.Chunks.{cast_chunk, id_chunk_count, build_chunk_from_bytes}
use Prim.Native.Nat.{bit_or}
use forest_sorting.Prelude.Bits.{bit_or_field}

-- The bytes from the `j`-th on, `n` of them, are the number without the bytes behind them.
bytes_value :
    (x : UInt128) (n j e : ℕ)
    → j + n + e ≡ 16
    → digits_value 256 (padded_byte 16 (uint128_byte_msb_first x)) j n ≡ x.value / 256 ^ e % 256 ^ n
unfolding uint128_byte_msb_first
bytes_value x zero j e h = omega (arith, pow-zero 256)
bytes_value x (suc n) j e h =
    let at : (16 - 1 - j) * 8 ≡ 8 * (e + n) = omega arith in
    let power : 2 ^ ((16 - 1 - j) * 8) ≡ 256 ^ e * 256 ^ n =
      ap (λ z. 2 ^ z) at ∙ sym (pow_256 (e + n)) ∙ pow_add 256 e n (e + n) refl in
    let inside : ltb j 16 ≡ true = lt→ltb j 16 (omega arith) in
    let byte : padded_byte 16 (uint128_byte_msb_first x) j ≡ x.value / 256 ^ e / 256 ^ n % 256 =
      rw inside (
        ap (λ p. x.value / p % 256) power
        ∙ ap (λ z. z % 256) (sym (div-div-eq-div-mul x.value (256 ^ e) (256 ^ n)))) in
    ap₂ (λ b r. b * 256 ^ n + r) byte (bytes_value x n (suc j) e (omega arith))
    ∙ mod_split (256 ^ n) (x.value / 256 ^ e) (pow_pos 256 n (omega arith))
    ∙ ap (λ z. x.value / 256 ^ e % z) (sym (pow-suc 256 n))

byte_small : (x : UInt128) (i : ℕ) → uint128_byte_msb_first x i < 256
unfolding uint128_byte_msb_first
byte_small x i = omega arith

-- The number that the bytes of an identifier spell is the identifier.
pub uint128-id_value : (x : UInt128) → id_value uint128_traits x ≡ x.value
unfolding id_value uint128_traits
uint128-id_value x =
    let all : x.value / 256 ^ 0 ≡ x.value = omega arith in
    bytes_value x 16 0 0 refl ∙ ap (λ z. z % 256 ^ 16) all ∙ mod-eq_of_lt x.value_lt

-- A chunk of `w` bytes with `s` bits behind it.
chunk_at :
    (x : UInt128) (w c s : ℕ)
    → w ≤ 8
    → c * w + w ≤ 16
    → s ≡ 8 * (16 - (c * w + w))
    → cast_chunk w (x.value / 2 ^ s % 2 ^ (8 * w))
      ≡ build_chunk_from_bytes w 16 uint128_byte_msb_first x c
chunk_at x w c s small fits e =
    let power : 2 ^ s ≡ 256 ^ (16 - (c * w + w)) =
      ap (λ z. 2 ^ z) e ∙ sym (pow_256 (16 - (c * w + w))) in
    let pos = pow_pos 2 (8 * w) (omega arith) in
    mod-eq_of_lt (mod-lt (x.value / 2 ^ s) pos)
    ∙ ap₂ (λ p q. x.value / p % q) power (sym (pow_256 w))
    ∙ sym (bytes_value x w (c * w) (16 - (c * w + w)) (omega arith))
    ∙ sym (build_chunk_from_bytes_lem 16 uint128_byte_msb_first x (λ i h. byte_small x i) w c small)

module _ (x : UInt128) (c : ℕ) where
  one_byte_chunk :
      c < 16
      → cast_chunk 1 (uint128_chunk_msb_first 1 x c)
        ≡ build_chunk_from_bytes 1 16 uint128_byte_msb_first x c
  unfolding uint128_chunk_msb_first uint128_byte_msb_first
  one_byte_chunk h = chunk_at x 1 c ((16 - 1 - c) * 8) (omega arith) (omega arith) (omega arith)

  two_byte_chunk :
      c < 8
      → cast_chunk 2 (uint128_chunk_msb_first 2 x c)
        ≡ build_chunk_from_bytes 2 16 uint128_byte_msb_first x c
  unfolding uint128_chunk_msb_first
  two_byte_chunk h = chunk_at x 2 c ((7 - c) * 16) (omega arith) (omega arith) (omega arith)

  four_byte_chunk :
      c < 4
      → cast_chunk 4 (uint128_chunk_msb_first 4 x c)
        ≡ build_chunk_from_bytes 4 16 uint128_byte_msb_first x c
  unfolding uint128_chunk_msb_first
  four_byte_chunk h = chunk_at x 4 c ((3 - c) * 32) (omega arith) (omega arith) (omega arith)

  eight_byte_chunk :
      c < 2
      → cast_chunk 8 (uint128_chunk_msb_first 8 x c)
        ≡ build_chunk_from_bytes 8 16 uint128_byte_msb_first x c
  unfolding uint128_chunk_msb_first
  eight_byte_chunk h = elim (Bool-cases (c == 0)) [
    | inl e ↦
        let at : 64 ≡ 8 * (16 - (c * 8 + 8)) = omega (arith, ==→≡ c 0 e) in
        rw e (chunk_at x 8 c 64 (omega arith) (omega arith) at)
    | inr e ↦
        let at : 0 ≡ 8 * (16 - (c * 8 + 8)) = omega (arith, ==→≢ c 0 e) in
        let all : x.value / 2 ^ 0 ≡ x.value = omega arith in
        rw e (
          ap (λ z. cast_chunk 8 (z % 2 ^ 64)) (sym all)
          ∙ chunk_at x 8 c 0 (omega arith) (omega arith) at)
  ]

none-ne-some : {A : Type 0} {a : A} → ◌≡◌ {A = Option A} none (some a) → ⊥
none-ne-some e = cc

some_injective : {A : Type 0} {f g : A} → some f ≡ some g → f ≡ g
some_injective e = cc

-- The law of the chunk hook at one width.
HasChunks : ℕ → Type 0
HasChunks w =
    (hook : UInt128 → ℕ → ℕ)
    → uint128_traits.chunk_msb_first w ≡ some hook
    → (x : UInt128) (c : ℕ) → c < id_chunk_count w 16
    → cast_chunk w (hook x c) ≡ build_chunk_from_bytes w 16 uint128_byte_msb_first x c

HasChunks-of :
    (w n : ℕ)
    → uint128_traits.chunk_msb_first w ≡ some (uint128_chunk_msb_first w)
    → id_chunk_count w 16 ≡ n
    → ((x : UInt128) (c : ℕ)
        → c < n
        → cast_chunk w (uint128_chunk_msb_first w x c)
          ≡ build_chunk_from_bytes w 16 uint128_byte_msb_first x c)
    → HasChunks w
unfolding HasChunks
HasChunks-of w n there count law hook e x c h =
    let same : uint128_chunk_msb_first w ≡ hook = some_injective (sym there ∙ e) in
    ap (λ (k : UInt128 → ℕ → ℕ). cast_chunk w (k x c)) (sym same) ∙ law x c (omega (arith, count))

chunk_hook : (w : ℕ) → HasChunks w
unfolding uint128_traits id_chunk_count HasChunks
chunk_hook w = elim (Bool-cases (w == 1)) [
  | inl e ↦ subst HasChunks (sym (==→≡ w 1 e)) (HasChunks-of 1 16 refl refl one_byte_chunk)
  | inr one ↦ elim (Bool-cases (w == 2)) [
    | inl e ↦ subst HasChunks (sym (==→≡ w 2 e)) (HasChunks-of 2 8 refl refl two_byte_chunk)
    | inr two ↦ elim (Bool-cases (w == 4)) [
      | inl e ↦ subst HasChunks (sym (==→≡ w 4 e)) (HasChunks-of 4 4 refl refl four_byte_chunk)
      | inr four ↦ elim (Bool-cases (w == 8)) [
        | inl e ↦ subst HasChunks (sym (==→≡ w 8 e)) (HasChunks-of 8 2 refl refl eight_byte_chunk)
        | inr eight ↦ λ hook e x c h. absurd (no_hook w one two four eight hook e)
      ]
    ]
  ]
]
  where
    no_hook :
        (w : ℕ)
        → (w == 1) ≡ false
        → (w == 2) ≡ false
        → (w == 4) ≡ false
        → (w == 8) ≡ false
        → (hook : UInt128 → ℕ → ℕ) → uint128_traits.chunk_msb_first w ≡ some hook
        → ⊥
    no_hook w one two four eight hook e = none-ne-some ((rw (one, two, four, eight) at e))

-- The traits of 128-bit identifiers keep what the documentation asks of traits: bytes are bytes, the
-- comparison and the equality are those of the numbers that the bytes spell, and each chunk hook gives
-- the chunk of the bytes.
pub uint128_traits-IsLawful : IsLawful uint128_traits
unfolding uint128_traits HasChunks
uint128_traits-IsLawful = record {
  has_bytes = omega arith;
  byte_small = λ x i h. byte_small x i;
  less_law = λ hook e x y.
      ap (λ (k : UInt128 → UInt128 → Bool). k x y) (sym (some_injective e))
      ∙ ap₂ ltb (sym (uint128-id_value x)) (sym (uint128-id_value y));
  equal_law = λ hook e x y.
      ap (λ (k : UInt128 → UInt128 → Bool). k x y) (sym (some_injective e))
      ∙ ap₂ ◌==◌ (sym (uint128-id_value x)) (sym (uint128-id_value y));
  chunk_law = λ w. chunk_hook w;
}

-- The words that an identifier is made of are the ones that `toHex` takes out of it.
pub make_id-words :
    (high low : ℕ)
    → high < 2 ^ 64
    → low < 2 ^ 64
    → (high_word (make_id high low) ≡ high) × (low_word (make_id high low) ≡ low)
unfolding make_id high_word low_word cast_uint128
make_id-words high low h l =
    let joined : bit_or (high * 2 ^ 64 % 2 ^ 128) low ≡ high * 2 ^ 64 + low =
      let shifted : high * 2 ^ 64 % 2 ^ 128 ≡ high * 2 ^ 64 = omega arith in
      bit_or_field 64 (high * 2 ^ 64 % 2 ^ 128) high low shifted l ∙ ap (λ z. z + low) shifted in
    (omega (arith, joined), omega (arith, joined))
