-- ===== src/Ids/Compare/Order.antt =====
-- The comparisons agree with the order of the numbers that the bytes spell.
use forest_sorting.Prelude.{
  ℕ, zero, suc, ◌+◌, ◌*◌, ◌^◌, ◌<◌, ◌≡◌, refl, ap, ap₂, ◌∙◌, inl, inr, arith, ltb, ◌==◌,
  if◌then◌else◌, Bool-cases, Option-cases, ltb→lt, ltb→le, lt→ltb, le→ltb, ==→≡,
}
use forest_sorting.Traits.{IdTraits}
use forest_sorting.Ids.Chunks.{id_chunk_count, chunk_msb_first, cached_comparison_chunk_bytes}
use forest_sorting.Ids.Chunks.Value.{
  digits_value, digits_value-lt, id_value, IsLawful, all_chunks_value, pow_pos, chunk_msb_first-lt,
}
use forest_sorting.Ids.Compare.{
  Sign, negative, zero_sign, positive, compare_chunks_from, compare_chunk_sequence,
  compare_ids_msb_first, compare_node_ids, id_less, id_equal,
}
use forest_sorting.Stable.Compose.{digits_lt}

-- The sign of a comparison of numbers.
abbrev pub sign_of : ℕ → ℕ → Sign
sign_of a b = if ltb a b then negative else if ltb b a then positive else zero_sign

sign_of_head :
    (base a b r s : ℕ)
    → r < base
    → s < base
    → (if ltb a b then negative else if ltb b a then positive else sign_of r s)
      ≡ sign_of (a * base + r) (b * base + s)
sign_of_head base a b r s hr hs = elim (Bool-cases (ltb a b)) [
  | inl lo ↦
      let below = digits_lt base a r b s hr (ltb→lt a b lo) in
      rw (lo, lt→ltb (a * base + r) (b * base + s) below)
  | inr hi ↦ elim (Bool-cases (ltb b a)) [
    | inl lo ↦
        let below = digits_lt base b s a r hs (ltb→lt b a lo) in
        rw (
          hi,
          lo,
          le→ltb (a * base + r) (b * base + s) (omega arith),
          lt→ltb (b * base + s) (a * base + r) below,
        )
    | inr lo ↦
        let same : a ≡ b = omega (arith, ltb→le a b hi, ltb→le b a lo) in
        rw (hi, lo, same) (ground arith)
  ]
]

module _ (base : ℕ) (lhs rhs : ℕ → ℕ) (lhs_small : (i : ℕ) → lhs i < base)
    (rhs_small : (i : ℕ) → rhs i < base) where
  -- The loop compares the numbers that the chunks spell.
  pub compare_chunks_from_lem :
      (rounds c : ℕ)
      → compare_chunks_from rounds c lhs rhs
        ≡ sign_of (digits_value base lhs c rounds) (digits_value base rhs c rounds)
  unfolding compare_chunks_from
  compare_chunks_from_lem zero c = refl
  compare_chunks_from_lem (suc rounds) c =
      let next : c + 1 ≡ suc c = omega arith in
      ap
        (λ t. if ltb (lhs c) (rhs c) then negative else if ltb (rhs c) (lhs c) then positive else t)
        (ap (λ k. compare_chunks_from rounds k lhs rhs) next
          ∙ compare_chunks_from_lem rounds (suc c))
      ∙ sign_of_head (base ^ rounds) (lhs c) (rhs c) (digits_value base lhs (suc c) rounds)
          (digits_value base rhs (suc c) rounds) (digits_value-lt base lhs (suc c) rounds lhs_small)
          (digits_value-lt base rhs (suc c) rounds rhs_small)

-- The unrolled comparisons are the loop.
pub compare_chunk_sequence_lem :
    (count : ℕ) (lhs rhs : ℕ → ℕ)
    → compare_chunk_sequence count lhs rhs ≡ compare_chunks_from count 0 lhs rhs
unfolding compare_chunk_sequence
compare_chunk_sequence_lem count lhs rhs = elim (Bool-cases (count == 2)) [
  | inl e ↦ rw (==→≡ count 2 e)
  | inr e ↦ elim (Bool-cases (count == 4)) [ inl f ↦ rw (==→≡ count 4 f) | inr f ↦ rw (e, f) ]
]

-- Scaling by a positive number keeps the sign.
pub sign_of_scale : (p a b : ℕ) → 0 < p → sign_of (a * p) (b * p) ≡ sign_of a b
sign_of_scale p a b pos = elim (Bool-cases (ltb a b)) [
  | inl lo ↦ rw (lo, lt→ltb (a * p) (b * p) (scale_lt p a b pos (ltb→lt a b lo)))
  | inr hi ↦ elim (Bool-cases (ltb b a)) [
    | inl lo ↦
        let below = scale_lt p b a pos (ltb→lt b a lo) in
        rw (hi, lo, le→ltb (a * p) (b * p) (omega arith), lt→ltb (b * p) (a * p) below)
    | inr lo ↦
        let same : a ≡ b = omega (arith, ltb→le a b hi, ltb→le b a lo) in rw same (ground arith)
  ]
]
  where
    scale_lt : (p a b : ℕ) → 0 < p → a < b → a * p < b * p
    scale_lt p a b pos h = grind arith

module _ {NodeId : Type 0} (traits : IdTraits NodeId) (lawful : IsLawful traits) where
  -- `compareIdsMsbFirst` orders identifiers by the numbers that their bytes spell.
  pub compare_ids_msb_first_lem :
      (x y : NodeId)
      → compare_ids_msb_first traits x y ≡ sign_of (id_value traits x) (id_value traits y)
  unfolding compare_ids_msb_first
  compare_ids_msb_first_lem x y =
      let count = id_chunk_count cached_comparison_chunk_bytes traits.id_byte_count in
      let chunk = chunk_msb_first cached_comparison_chunk_bytes traits in
      let (pad, value) = all_chunks_value traits lawful 8 (omega arith) (omega arith) in
      compare_chunk_sequence_lem count (chunk x) (chunk y)
      ∙ compare_chunks_from_lem (256 ^ 8) (chunk x) (chunk y) (chunk_msb_first-lt traits lawful 8 x)
          (chunk_msb_first-lt traits lawful 8 y) count 0
      ∙ ap₂ sign_of (value x) (value y)
      ∙ sign_of_scale (256 ^ pad) (id_value traits x) (id_value traits y)
          (pow_pos 256 pad (omega arith))

  -- `compareNodeIds` is that comparison, through a `less` hook or not.
  pub compare_node_ids_lem :
      (x y : NodeId) → compare_node_ids traits x y ≡ sign_of (id_value traits x) (id_value traits y)
  unfolding compare_node_ids
  compare_node_ids_lem x y = elim (Option-cases traits.less) [
    | inl e ↦ simp (e, compare_node_ids) (compare_ids_msb_first_lem x y)
    | inr (hook, e) ↦
        simp (e, compare_node_ids, lawful.less_law hook e x y, lawful.less_law hook e y x)
  ]

  pub id_less_lem :
      (x y : NodeId) → id_less traits x y ≡ ltb (id_value traits x) (id_value traits y)
  unfolding id_less
  id_less_lem x y = elim (Option-cases traits.less) [
    | inl e ↦ simp (e, id_less, compare_node_ids_lem x y) (ground arith)
    | inr (hook, e) ↦ simp (e, id_less) (lawful.less_law hook e x y)
  ]

  pub id_equal_lem : (x y : NodeId) → id_equal traits x y ≡ (id_value traits x == id_value traits y)
  unfolding id_equal
  id_equal_lem x y = elim (Option-cases traits.equal) [
    | inl e ↦ simp (e, id_equal, compare_ids_msb_first_lem x y) (ground arith)
    | inr (hook, e) ↦ simp (e, id_equal) (lawful.equal_law hook e x y)
  ]

  -- For lawful traits `compareNodeIds`, `idLess` and `idEqual` are the comparison, the order and the
  -- equality of the numbers that the bytes of the identifiers spell, whatever hooks there are.
  pub comparisons_agree :
      (x y : NodeId)
      → (compare_node_ids traits x y ≡ sign_of (id_value traits x) (id_value traits y))
        × (id_less traits x y ≡ ltb (id_value traits x) (id_value traits y))
        × (id_equal traits x y ≡ (id_value traits x == id_value traits y))
  comparisons_agree x y = (compare_node_ids_lem x y, id_less_lem x y, id_equal_lem x y)
