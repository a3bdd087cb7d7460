-- ===== src/Ids/MsdChunks/Digits.antt =====
-- The chunks of an identifier as digits: how one chunk after equal ones decides the order.
use forest_sorting.Prelude.{
  ℕ, suc, ◌+◌, ◌*◌, ◌^◌, ◌≤◌, ◌<◌, ◌≡◌, refl, sym, ap, ap₂, subst, ◌∙◌, inl, inr, arith, List, [],
  ◌∷◌, All, All-map, Bool-cases, ltb, ltb→lt, ltb→le,
}
use forest_sorting.Stable.{IsSorted, stable_sort, stable_sort-IsStableSort, All-stable_sort}
use forest_sorting.Stable.Unique.{same_key_sorted, IsStableSort-eq}
use forest_sorting.Stable.Refine.{having-stable_sort_coarse}
use forest_sorting.Ids.Chunks.Value.{digits_value, digits_value-lt, digits_value_split}
use forest_sorting.Stable.Compose.{digits_lt, digits_unique}
use native.Mathlib.Nat.{pow-suc, pow-zero}

scale_le : (P a b : ℕ) → 0 < P → a * P ≤ b * P → a ≤ b
scale_le P a b pos h = grind arith

scale_eq : (P a b : ℕ) → 0 < P → a * P ≡ b * P → a ≡ b
scale_eq P a b pos h =
    omega (arith, scale_le P a b pos (omega (arith, h)), scale_le P b a pos (omega (arith, h)))

one_power : (b : ℕ) → b ^ 1 ≡ b
one_power b = rw (pow-suc b 0, pow-zero b) (omega arith)

-- `key` is the number that the chunks spell, but for a factor of padding.
pub record Spells (base P chunk_count : ℕ) (chunk : ℕ → ℕ → ℕ) (key : ℕ → ℕ) : Type 0 where
  pub factor : 0 < P
  pub small : (x c : ℕ) → chunk x c < base
  pub value : (x : ℕ) → digits_value base (chunk x) 0 chunk_count ≡ key x * P

module _ {base P chunk_count : ℕ} {chunk : ℕ → ℕ → ℕ} {key : ℕ → ℕ}
    (spells : Spells base P chunk_count chunk key) where
  -- The number of the first chunks.
  abbrev pub first_chunks : ℕ → ℕ → ℕ
  first_chunks j x = digits_value base (chunk x) 0 j

  pub first_chunks-suc : (j x : ℕ) → first_chunks (suc j) x ≡ first_chunks j x * base + chunk x j
  first_chunks-suc j x =
      digits_value_split base (chunk x) 0 j 1 (suc j) j (omega arith) (omega arith)
      ∙ ap₂ ◌+◌ (ap (λ z. first_chunks j x * z) (one_power base))
          (ap (λ z. chunk x j * z + 0) (pow-zero base) ∙ omega arith)

  -- The whole number: the chunks before one, the chunk, and those behind it.
  around :
      (j m x : ℕ)
      → j + suc m ≡ chunk_count
      → key x * P
        ≡ first_chunks j x * base ^ suc m
          + (chunk x j * base ^ m + digits_value base (chunk x) (suc j) m)
  around j m x e =
      sym (spells.value x)
      ∙ digits_value_split base (chunk x) 0 j (suc m) chunk_count j (sym e) (omega arith)

  behind_lt : (j m x : ℕ) → digits_value base (chunk x) j m < base ^ m
  behind_lt j m x = digits_value-lt base (chunk x) j m (spells.small x)

  -- After equal chunks the smaller chunk has the smaller key.
  pub key_lt :
      (j m x y : ℕ)
      → j + suc m ≡ chunk_count
      → first_chunks j x ≡ first_chunks j y
      → chunk x j < chunk y j
      → key x ≤ key y
  key_lt j m x y e same less =
      let below =
        digits_lt (base ^ m) (chunk x j) (digits_value base (chunk x) (suc j) m) (chunk y j)
          (digits_value base (chunk y) (suc j) m) (behind_lt (suc j) m x) less in
      scale_le P (key x) (key y) spells.factor
        (omega (arith, around j m x e, around j m y e, ap (λ z. z * base ^ suc m) same, below))

  -- Equal keys have equal chunks.
  pub chunk_of_key : (j m x y : ℕ) → j + suc m ≡ chunk_count → key x ≡ key y → chunk x j ≡ chunk y j
  chunk_of_key j m x y e same =
      let whole = sym (around j m x e) ∙ ap (λ z. z * P) same ∙ around j m y e in
      let behind =
        digits_unique (base ^ suc m) (first_chunks j x) (digits_value base (chunk x) j (suc m))
          (first_chunks j y) (digits_value base (chunk y) j (suc m)) (behind_lt j (suc m) x)
          (behind_lt j (suc m) y) whole in
      (digits_unique (base ^ m) (chunk x j) (digits_value base (chunk x) (suc j) m) (chunk y j)
        (digits_value base (chunk y) (suc j) m) (behind_lt (suc j) m x) (behind_lt (suc j) m y)
        behind.1).0

  -- Identifiers with all chunks equal have one key.
  pub key_of_chunks :
      (x y : ℕ) → first_chunks chunk_count x ≡ first_chunks chunk_count y → key x ≡ key y
  key_of_chunks x y same =
      scale_eq P (key x) (key y) spells.factor (sym (spells.value x) ∙ same ∙ spells.value y)

  -- One more chunk on which identifiers agree.
  pub agree_next :
      (j p c : ℕ) (xs : List ℕ)
      → All (λ x. first_chunks j x ≡ p) xs
      → All (λ x. chunk x j ≡ c) xs
      → All (λ x. first_chunks (suc j) x ≡ p * base + c) xs
  agree_next j p c [] a q = tt
  agree_next j p c (x ∷ xs) a q =
      (first_chunks-suc j x ∙ ap₂ (λ u v. u * base + v) a.0 q.0, agree_next j p c xs a.1 q.1)

  -- With all chunks equal there is nothing to sort.
  pub equal_chunks_sorted :
      (p : ℕ) (xs : List ℕ) → All (λ x. first_chunks chunk_count x ≡ p) xs → stable_sort key xs ≡ xs
  unfolding stable_sort
  equal_chunks_sorted p [] a = refl
  equal_chunks_sorted p (x ∷ xs) a = same_key_sorted key (key x) (x ∷ xs) (
    refl,
    All-map (λ y. first_chunks chunk_count y ≡ p) (λ y. key y ≡ key x) xs
        (λ y h. key_of_chunks y x (h ∙ sym a.0)) a.1,
  )

  module _ (j : ℕ) (last : j + 1 ≡ chunk_count) where
    last_le :
        (x y : ℕ) → first_chunks j x ≡ first_chunks j y → chunk x j ≤ chunk y j → key x ≤ key y
    last_le x y same le = elim (Bool-cases (ltb (chunk x j) (chunk y j))) [
      | inl e ↦ key_lt j 0 x y (omega arith) same (ltb→lt (chunk x j) (chunk y j) e)
      | inr e ↦
          let equal : chunk x j ≡ chunk y j = omega (arith, le, ltb→le (chunk x j) (chunk y j) e) in
          let at : suc j ≡ chunk_count = omega arith in
          let whole : first_chunks (suc j) x ≡ first_chunks (suc j) y =
            first_chunks-suc j x
            ∙ ap₂ (λ u v. u * base + v) same equal
            ∙ sym (first_chunks-suc j y) in
          omega
            (arith, key_of_chunks x y (subst (λ n. first_chunks n x ≡ first_chunks n y) at whole))
    ]

    last_IsSorted :
        (p : ℕ) (xs : List ℕ)
        → All (λ x. first_chunks j x ≡ p) xs
        → IsSorted (λ x. chunk x j) xs
        → IsSorted key xs
    last_IsSorted p [] a s = tt
    last_IsSorted p (x ∷ xs) a s = (heads x xs a.0 a.1 s.0, last_IsSorted p xs a.1 s.1)
      where
        heads :
            (x : ℕ) (ys : List ℕ)
            → first_chunks j x ≡ p
            → All (λ y. first_chunks j y ≡ p) ys
            → All (λ y. chunk x j ≤ chunk y j) ys
            → All (λ y. key x ≤ key y) ys
        heads x [] e a q = tt
        heads x (y ∷ ys) e a q = (last_le x y (e ∙ sym a.0) q.0, heads x ys e a.1 q.1)

    -- The last chunk decides.
    pub last_chunk_sorts :
        (p : ℕ) (xs : List ℕ)
        → All (λ x. first_chunks j x ≡ p) xs
        → stable_sort (λ x. chunk x j) xs ≡ stable_sort key xs
    last_chunk_sorts p xs a =
        let by_chunk = stable_sort-IsStableSort (λ x. chunk x j) xs in
        IsStableSort-eq key xs (stable_sort (λ x. chunk x j) xs) (record {
          sorted =
              last_IsSorted p (stable_sort (λ x. chunk x j) xs)
                (All-stable_sort (λ x. chunk x j) (λ x. first_chunks j x ≡ p) xs a) by_chunk.sorted;
          stable = λ k.
              having-stable_sort_coarse (λ x. chunk x j) key
                (λ x y e. chunk_of_key j 0 x y (omega arith) e) k xs;
        })
