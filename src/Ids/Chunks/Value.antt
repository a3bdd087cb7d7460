-- ===== src/Ids/Chunks/Value.antt =====
-- The number that the bytes of an identifier spell, most significant first, and the chunks as its
-- digits in a larger base.
use forest_sorting.Prelude.{
  ℕ, zero, suc, ◌+◌, ◌-◌, ◌*◌, ◌%◌, ◌^◌, ◌≤◌, ◌<◌, ◌≡◌, refl, sym, ap, ap₂, ◌∙◌, inl, inr, Bool,
  some, arith, ltb, ◌==◌, if◌then◌else◌, Bool-cases, Option-cases, ltb→lt, le→ltb, ==→≡, ◌/◌,
}
use Prim.Native.Nat.{bit_or}
use forest_sorting.Prelude.Bits.{bit_or_field}
use forest_sorting.Loops.{for_range_inv}
use forest_sorting.Traits.{IdTraits}
use forest_sorting.Ids.Chunks.{id_chunk_count, build_chunk_from_bytes, chunk_msb_first, cast_chunk}
use native.Mathlib.Nat.{
  pow-suc, pow-zero, mod-eq_of_lt, div-add-mod, mod-lt, mul-le-mul_right, add-mul-mod_self_left,
}

-- The number with digits `f lo`, `f (lo + 1)` and so on, `k` of them, in a base.
abbrev pub digits_value : ℕ → (ℕ → ℕ) → ℕ → ℕ → ℕ
digits_value base f lo zero = 0
digits_value base f lo (suc k) = f lo * base ^ k + digits_value base f (suc lo) k

pub pow_pos : (b k : ℕ) → 0 < b → 0 < b ^ k
pow_pos b zero h = omega (arith, pow-zero b)
pow_pos b (suc k) h = let ih = pow_pos b k h in rw (pow-suc b k) (grind arith)

pub pow_add : (b i j k : ℕ) → k ≡ i + j → b ^ k ≡ b ^ i * b ^ j
pow_add b i zero k e = let e' : k ≡ i = omega arith in rw (e', pow-zero b) (omega arith)
pow_add b i (suc j) zero e = absurd (omega arith)
pow_add b i (suc j) (suc k) e =
    rw (pow-suc b k, pow-suc b j, pow_add b i j k (omega arith)) (omega arith)

pub pow_mul : (b w k m : ℕ) → m ≡ k * w → (b ^ w) ^ k ≡ b ^ m
pow_mul b w zero m e = let e' : m ≡ 0 = omega arith in rw (e', pow-zero (b ^ w), pow-zero b)
pow_mul b w (suc k) m e =
    pow-suc (b ^ w) k
    ∙ ap (λ t. t * b ^ w) (pow_mul b w k (k * w) refl)
    ∙ sym (pow_add b (k * w) w m (omega arith))

module _ (base : ℕ) (f : ℕ → ℕ) where
  pub digits_value-lt : (lo k : ℕ) → ((i : ℕ) → f i < base) → digits_value base f lo k < base ^ k
  digits_value-lt lo zero small = omega (arith, pow-zero base)
  digits_value-lt lo (suc k) small =
      let ih = digits_value-lt (suc lo) k small in
      let top = small lo in
      rw (pow-suc base k) (horner (f lo) base (base ^ k) (digits_value base f (suc lo) k) top ih)
    where
      horner : (d b p r : ℕ) → d < b → r < p → d * p + r < p * b
      horner d b p r h g = grind arith

  -- The digits up to a place, then those from there.
  pub digits_value_split :
      (lo i j k m : ℕ)
      → k ≡ i + j
      → m ≡ lo + i
      → digits_value base f lo k ≡ digits_value base f lo i * base ^ j + digits_value base f m j
  digits_value_split lo zero j k m e e' =
      let same : k ≡ j = omega arith in
      let here : m ≡ lo = omega arith in rw (same, here) (omega arith)
  digits_value_split lo (suc i) j zero m e e' = absurd (omega arith)
  digits_value_split lo (suc i) j (suc k) m e e' =
      let ih = digits_value_split (suc lo) i j k m (omega arith) (omega arith) in
      omega (arith, ih, ap (λ (t : ℕ). f lo * t) (pow_add base i j k (omega arith)))

  -- Equal digits.
  pub digits_value_cong :
      (g : ℕ → ℕ) (lo k : ℕ)
      → ((i : ℕ) → lo ≤ i → i < lo + k → f i ≡ g i)
      → digits_value base f lo k ≡ digits_value base g lo k
  digits_value_cong g lo zero h = refl
  digits_value_cong g lo (suc k) h =
      ap₂ ◌+◌ (ap (λ t. t * base ^ k) (h lo (omega arith) (omega arith)))
        (digits_value_cong g (suc lo) k (λ i p q. h i (omega arith) (omega arith)))

  pub digits_value_zeros : (lo k : ℕ) → ((i : ℕ) → lo ≤ i → f i ≡ 0) → digits_value base f lo k ≡ 0
  digits_value_zeros lo zero h = refl
  digits_value_zeros lo (suc k) h = omega (
    arith,
    digits_value_zeros (suc lo) k (λ i p. h i (omega arith)),
    ap (λ (t : ℕ). t * base ^ k) (h lo (omega arith)),
  )

-- A byte, or zero past the last one.
abbrev pub padded_byte : ℕ → (ℕ → ℕ) → ℕ → ℕ
padded_byte id_byte_count byte i = if ltb i id_byte_count then byte i else 0

pub padded_byte_past : (n : ℕ) (byte : ℕ → ℕ) (i : ℕ) → n ≤ i → padded_byte n byte i ≡ 0
padded_byte_past n byte i h = rw (le→ltb i n h)

-- The chunks cover all bytes.
pub chunks_cover : (w n : ℕ) → 0 < w → n ≤ id_chunk_count w n * w
unfolding id_chunk_count
chunks_cover w n pos =
    let split = div-add-mod n w in
    let small = mod-lt n pos in
    elim (Bool-cases (n % w == 0)) [
      | inl e ↦ rw e (omega (arith, split, ==→≡ (n % w) 0 e))
      | inr e ↦ rw e (omega (arith, split, small))
    ]

-- The value of an identifier by its bytes.
unfoldable pub id_value : {NodeId : Type 0} → IdTraits NodeId → NodeId → ℕ
id_value traits x =
    digits_value 256 (padded_byte traits.id_byte_count (traits.byte_msb_first x)) 0
      traits.id_byte_count

pub pow_256 : (w : ℕ) → 256 ^ w ≡ 2 ^ (8 * w)
pow_256 zero = refl
pow_256 (suc w) =
    rw (pow-suc 256 w) (omega (arith, pow_256 w, pow_add 2 (8 * w) 8 (8 * suc w) (omega arith)))

pub mod_split : (m d : ℕ) → 0 < m → d / m % 256 * m + d % m ≡ d % (m * 256)
mod_split m d pos =
    let q = d / m in
    let x = q % 256 * m + d % m in
    let low = mod-lt d pos in
    let digit : q % 256 * m ≤ 255 * m = mul-le-mul_right m (omega arith) in
    let small : x < m * 256 = omega (arith, low, digit) in
    let parts : d ≡ m * q + d % m = sym (div-add-mod d m) in
    let twice : m * q ≡ m * (256 * (q / 256) + q % 256) = ap (λ z. m * z) (omega arith) in
    let whole : d ≡ x + m * 256 * (q / 256) = grind (arith, parts, twice) in
    sym (
      ap (λ z. z % (m * 256)) whole
      ∙ add-mul-mod_self_left x (m * 256) (q / 256)
      ∙ mod-eq_of_lt small)

module _ (n : ℕ) (byte : ℕ → ℕ) (small : (i : ℕ) → i < n → byte i < 256) where
  pub padded_byte-lt : (i : ℕ) → padded_byte n byte i < 256
  padded_byte-lt i = elim (Bool-cases (ltb i n)) [
    | inl e ↦ rw e (small i (ltb→lt i n e))
    | inr e ↦ rw e (omega arith)
  ]

  value_bound : (first k : ℕ) → k < 8 → digits_value 256 (padded_byte n byte) first k < 2 ^ 56
  value_bound first k h =
      let v = digits_value-lt 256 (padded_byte n byte) first k padded_byte-lt in
      let rest = pow_pos 256 (7 - k) (omega arith) in
      widen (256 ^ k) (256 ^ (7 - k)) (digits_value 256 (padded_byte n byte) first k) v rest
        (pow_add 256 k (7 - k) 7 (omega arith))
    where
      widen : (p q v : ℕ) → v < p → 0 < q → 256 ^ 7 ≡ p * q → v < 2 ^ 56
      widen p q v h g e = grind arith

  value_snoc :
      (first k : ℕ)
      → digits_value 256 (padded_byte n byte) first (k + 1)
        ≡ digits_value 256 (padded_byte n byte) first k * 256 + padded_byte n byte (first + k)
  value_snoc first k =
      omega
        (arith, digits_value_split 256 (padded_byte n byte) first k 1 (k + 1) (first + k) refl refl)

  -- One round of the assembly.
  assemble_step :
      (first k v : ℕ)
      → k < 8
      → v ≡ digits_value 256 (padded_byte n byte) first k
      → (let shifted = v * 2 ^ 8 % 2 ^ 64 in
          if ltb (first + k) n then bit_or shifted (byte (first + k)) else shifted)
        ≡ digits_value 256 (padded_byte n byte) first (k + 1)
  assemble_step first k v hk e =
      let bound = value_bound first k hk in
      let shift : v * 2 ^ 8 % 2 ^ 64 ≡ v * 256 = omega arith in
      elim (Bool-cases (ltb (first + k) n)) [
        | inl inside ↦
            let b = small (first + k) (ltb→lt (first + k) n inside) in
            let pad : padded_byte n byte (first + k) ≡ byte (first + k) = rw inside in
            rw (inside, shift)
              (bit_or_field 8 (v * 256) v (byte (first + k)) refl b
                ∙ omega (arith, value_snoc first k, pad, e))
        | inr outside ↦
            let pad : padded_byte n byte (first + k) ≡ 0 = rw outside in
            rw (outside, shift) (omega (arith, value_snoc first k, pad, e))
      ]

  pub chunk_value-lt : (lo w : ℕ) → digits_value 256 (padded_byte n byte) lo w < 2 ^ (8 * w)
  chunk_value-lt lo w =
      rw (← pow_256 w) (digits_value-lt 256 (padded_byte n byte) lo w padded_byte-lt)

module _ {NodeId : Type 0} (n : ℕ) (byte : NodeId → ℕ → ℕ) (x : NodeId)
    (small : (i : ℕ) → i < n → byte x i < 256) where
  -- Assembled from bytes, a chunk of at most eight bytes is their value, with zeros past the end:
  -- the 64-bit accumulator does not overflow.
  pub build_chunk_from_bytes_lem :
      (w c : ℕ)
      → w ≤ 8
      → build_chunk_from_bytes w n byte x c ≡ digits_value 256 (padded_byte n (byte x)) (c * w) w
  unfolding build_chunk_from_bytes
  build_chunk_from_bytes_lem w c h =
      let v = digits_value 256 (padded_byte n (byte x)) (c * w) w in
      let assembled =
        for_range_inv (λ k v. ◌≡◌ {A = ℕ} v (digits_value 256 (padded_byte n (byte x)) (c * w) k)) _
          w 0 w (omega arith)
          (λ k v lo hi e. assemble_step n (byte x) small (c * w) k v (omega arith) e) 0 refl in
      ap (cast_chunk w) assembled ∙ mod-eq_of_lt (chunk_value-lt n (byte x) small (c * w) w)

-- What the documentation asks of a traits type: the bytes are bytes, and each hook that is there
-- agrees with them. The order and equality of the bytes are those of the number that they spell.
pub record IsLawful {NodeId : Type 0} (traits : IdTraits NodeId) : Type 0 where
  pub has_bytes : 0 < traits.id_byte_count
  pub byte_small : (x : NodeId) (i : ℕ) → i < traits.id_byte_count → traits.byte_msb_first x i < 256
  pub less_law :
      (hook : NodeId → NodeId → Bool)
      → traits.less ≡ some hook
      → (x y : NodeId) → hook x y ≡ ltb (id_value traits x) (id_value traits y)
  pub equal_law :
      (hook : NodeId → NodeId → Bool)
      → traits.equal ≡ some hook
      → (x y : NodeId) → hook x y ≡ (id_value traits x == id_value traits y)
  pub chunk_law :
      (w : ℕ) (hook : NodeId → ℕ → ℕ)
      → traits.chunk_msb_first w ≡ some hook
      → (x : NodeId) (c : ℕ) → c < id_chunk_count w traits.id_byte_count
      → cast_chunk w (hook x c)
        ≡ build_chunk_from_bytes w traits.id_byte_count traits.byte_msb_first x c

module _ {NodeId : Type 0} (traits : IdTraits NodeId) (lawful : IsLawful traits) where
  abbrev pub byte_of : NodeId → ℕ → ℕ
  byte_of x = padded_byte traits.id_byte_count (traits.byte_msb_first x)

  pub id_value-lt : (x : NodeId) → id_value traits x < 256 ^ traits.id_byte_count
  unfolding id_value
  id_value-lt x =
      digits_value-lt 256 (byte_of x) 0 traits.id_byte_count
        (padded_byte-lt traits.id_byte_count (traits.byte_msb_first x) (lawful.byte_small x))

  -- The cast keeps a chunk in its width.
  pub chunk_msb_first-lt : (w : ℕ) (x : NodeId) (c : ℕ) → chunk_msb_first w traits x c < 256 ^ w
  unfolding chunk_msb_first build_chunk_from_bytes
  chunk_msb_first-lt w x c =
      let pos = pow_pos 2 (8 * w) (omega arith) in
      elim (Option-cases (traits.chunk_msb_first w)) [
        | inl e ↦ rw (e, chunk_msb_first, pow_256 w) (mod-lt _ pos)
        | inr (hook, e) ↦ rw (e, chunk_msb_first, pow_256 w) (mod-lt _ pos)
      ]

  -- A chunk is the number that its bytes spell, through a hook or not.
  pub chunk_msb_first_lem :
      (w : ℕ) (x : NodeId) (c : ℕ)
      → w ≤ 8
      → c < id_chunk_count w traits.id_byte_count
      → chunk_msb_first w traits x c ≡ digits_value 256 (byte_of x) (c * w) w
  unfolding chunk_msb_first
  chunk_msb_first_lem w x c h hc =
      let built =
        build_chunk_from_bytes_lem traits.id_byte_count traits.byte_msb_first x
          (lawful.byte_small x) w c h in
      elim (Option-cases (traits.chunk_msb_first w)) [
        | inl e ↦ rw (e, chunk_msb_first) built
        | inr (hook, e) ↦ rw (e, chunk_msb_first) (lawful.chunk_law w hook e x c hc ∙ built)
      ]

  -- The chunks together are the value of the identifier, scaled by the bytes of padding.
  pub chunks_value :
      (w : ℕ) (x : NodeId) (c k first len : ℕ)
      → w ≤ 8
      → c + k ≤ id_chunk_count w traits.id_byte_count
      → first ≡ c * w
      → len ≡ k * w
      → digits_value (256 ^ w) (chunk_msb_first w traits x) c k
        ≡ digits_value 256 (byte_of x) first len
  chunks_value w x c zero first len h hc e f = let e' : len ≡ 0 = omega arith in rw e'
  chunks_value w x c (suc k) first len h hc e f =
      let ih = chunks_value w x (suc c) k (first + w) (k * w) h (omega arith) (omega arith) refl in
      let here : digits_value 256 (byte_of x) (c * w) w ≡ digits_value 256 (byte_of x) first w =
        ap (λ t. digits_value 256 (byte_of x) t w) (sym e) in
      ap₂ ◌+◌
        (ap₂ ◌*◌ (chunk_msb_first_lem w x c h (omega arith) ∙ here) (pow_mul 256 w k (k * w) refl))
        ih
      ∙ sym (digits_value_split 256 (byte_of x) first w (k * w) len (first + w) (omega arith) refl)

  -- The chunks of the whole identifier: its value, and zeros behind it.
  pub all_chunks_value :
      (w : ℕ)
      → 0 < w
      → w ≤ 8
      → (pad : ℕ) × ((x : NodeId)
          → digits_value
              (256 ^ w)
              (chunk_msb_first w traits x)
              0
              (id_chunk_count w traits.id_byte_count)
            ≡ id_value traits x * 256 ^ pad)
  unfolding id_value
  all_chunks_value w pos h =
      let count = id_chunk_count w traits.id_byte_count in
      let n = traits.id_byte_count in
      let enough = chunks_cover w n pos in
      (
        count * w - n,
        λ x.
            chunks_value w x 0 count 0 (count * w) h (omega arith) (omega arith) refl
            ∙ digits_value_split 256 (byte_of x) 0 n (count * w - n) (count * w) n (omega arith)
                (omega arith)
            ∙ omega (
              arith,
              digits_value_zeros 256 (byte_of x) n (count * w - n)
                  (λ i p. padded_byte_past n (traits.byte_msb_first x) i p),
            ),
      )
