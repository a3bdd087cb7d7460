-- ===== src/Depth/Supplied.antt =====
-- Supplied depths: what `validatePrecomputedDepthInput` lets through, and that the cast to the
-- chosen width loses nothing.
use forest_sorting.Prelude.{
  ℕ, ◌-◌, ◌%◌, ◌^◌, ◌≤◌, ◌<◌, max, ◌≡◌, refl, sym, ap₂, subst, ◌∙◌, ◌≢◌, ◌⊎◌, inl, inr, Bool, true,
  ◌&&◌, List, [], ◌∷◌, arith, ltb, leb, ◌==◌, if◌then◌else◌, Bool-cases, ltb→lt, ltb→le, le→ltb,
  le→leb, lt→leb, ==→≡, ==→≢, ≡→==, ≢→==, length, All, All-map,
}
use forest_sorting.Errors.{
  ok, throws, Error, ok_injective, require_matching_count, throws-ne-ok, ok-ne-throws,
}
use forest_sorting.Depth.{
  cast_depth, depth_value_bits, max_depth_for_prefix, depth_prefix_bytes_for_max, observe_depths,
  validate_precomputed_depth_input, narrow_depths,
}

-- The largest of the depths and a start value.
pub maximum : List ℕ → ℕ → ℕ
maximum [] m = m
maximum (d ∷ depths) m = maximum depths (max m d)

abbrev pub depth_limit : ℕ
depth_limit = 2 ^ 32 - 1

observe_depths_fits :
    (depths : List ℕ) (m : ℕ)
    → All (λ d. d ≤ depth_limit) depths
    → observe_depths depths m ≡ ok (maximum depths m)
unfolding observe_depths maximum
observe_depths_fits [] m a = refl
observe_depths_fits (d ∷ depths) m a =
    let same : d % 2 ^ 32 ≡ d = omega (arith, a.0) in
    rw (le→ltb depth_limit d a.0, same) (observe_depths_fits depths (max m d) a.1)

-- A depth that is too large is found wherever it stands.
AllFit-cases :
    (depths : List ℕ)
    → All (λ d. d ≤ depth_limit) depths
      ⊎ ((m : ℕ) → observe_depths depths m ≡ throws Error.depth_limit)
unfolding observe_depths
AllFit-cases [] = inl tt
AllFit-cases (d ∷ depths) = elim (Bool-cases (ltb depth_limit d)) [
  | inl e ↦ inr (λ m. rw e)
  | inr e ↦ elim (AllFit-cases depths) [
    | inl fit ↦ inl (ltb→le depth_limit d e, fit)
    | inr big ↦ inr (λ m. rw (e, big (max m (d % 2 ^ 32))))
  ]
]

-- Every depth is at most the largest one of 32 bits.
unfoldable pub all_fit : List ℕ → Bool
all_fit [] = true
all_fit (d ∷ depths) = leb d depth_limit && all_fit depths

observe_depths_lem :
    (depths : List ℕ) (m : ℕ)
    → observe_depths depths m
      ≡ (if all_fit depths then ok (maximum depths m) else throws Error.depth_limit)
unfolding observe_depths all_fit maximum
observe_depths_lem [] m = refl
observe_depths_lem (d ∷ depths) m = elim (Bool-cases (ltb depth_limit d)) [
  | inl e ↦ rw (e, lt→leb d depth_limit (ltb→lt depth_limit d e)) refl
  | inr e ↦
      let fits = ltb→le depth_limit d e in
      let same : d % 2 ^ 32 ≡ d = omega (arith, fits) in
      rw (e, same, le→leb d depth_limit fits) (observe_depths_lem depths (max m d))
]

-- `validatePrecomputedDepthInput` on every input: a wrong count is refused first; then either all
-- depths fit 32 bits and their maximum is returned, or the limit error is thrown.
pub validate_precomputed_depth_input_lem :
    (node_count : ℕ) (depths : List ℕ)
    → validate_precomputed_depth_input node_count depths ≡ (
        if length depths == node_count
        then (if all_fit depths then ok (maximum depths 0) else throws Error.depth_limit)
        else throws Error.depth_count_mismatch)
unfolding validate_precomputed_depth_input require_matching_count
validate_precomputed_depth_input_lem node_count depths =
    elim (Bool-cases (length depths == node_count)) [
      | inl e ↦ rw e (observe_depths_lem depths 0)
      | inr e ↦ rw e refl
    ]

-- The same, branch by branch.
pub validate_branches :
    (node_count : ℕ) (depths : List ℕ)
    → (length depths ≢ node_count
        → validate_precomputed_depth_input node_count depths ≡ throws Error.depth_count_mismatch)
      × (length depths ≡ node_count
          → All (λ d. d ≤ depth_limit) depths
          → validate_precomputed_depth_input node_count depths ≡ ok (maximum depths 0))
      × (length depths ≡ node_count
          → ¬ All (λ d. d ≤ depth_limit) depths
          → validate_precomputed_depth_input node_count depths ≡ throws Error.depth_limit)
unfolding validate_precomputed_depth_input require_matching_count
validate_branches node_count depths = (
  λ ne. rw (≢→== (length depths) node_count ne),
  λ e fit. rw (≡→== (length depths) node_count e) (observe_depths_fits depths 0 fit),
  λ e unfit.
      rw (≡→== (length depths) node_count e)
        (elim (AllFit-cases depths) [ inl fit ↦ absurd (unfit fit) | inr big ↦ big 0 ]),
)

-- For a maximum of 32 bits, the width that is chosen is of one to four bytes, the maximum fits in that
-- many bytes, and it does not fit in fewer.
pub depth_prefix_bytes_for_max_lem :
    (m : ℕ)
    → m ≤ depth_limit
    → let w = depth_prefix_bytes_for_max m in
      (1 ≤ w) × (w ≤ 4) × (m < 256 ^ w) × ((w ≡ 1) ⊎ (256 ^ (w - 1) ≤ m))
unfolding depth_prefix_bytes_for_max max_depth_for_prefix
depth_prefix_bytes_for_max_lem m h = (ground arith, ground arith, ground arith, ground arith)

-- The limit of the width that is chosen is no smaller.
max_depth_holds :
    (m : ℕ) → m ≤ depth_limit → m ≤ max_depth_for_prefix (depth_prefix_bytes_for_max m)
unfolding depth_prefix_bytes_for_max max_depth_for_prefix
max_depth_holds m h = ground arith

cast_depth_fits : (w d : ℕ) → d ≤ max_depth_for_prefix w → cast_depth w d ≡ d
unfolding cast_depth depth_value_bits max_depth_for_prefix
cast_depth_fits w d h = ground arith

narrow_depths_fits :
    (w : ℕ) (depths : List ℕ)
    → All (λ d. d ≤ max_depth_for_prefix w) depths
    → narrow_depths w depths ≡ depths
unfolding narrow_depths
narrow_depths_fits w [] a = refl
narrow_depths_fits w (d ∷ depths) a =
    ap₂ ◌∷◌ (cast_depth_fits w d a.0) (narrow_depths_fits w depths a.1)

maximum_ge :
    (depths : List ℕ) (m : ℕ) → (m ≤ maximum depths m) × All (λ d. d ≤ maximum depths m) depths
unfolding maximum
maximum_ge [] m = (omega arith, tt)
maximum_ge (d ∷ depths) m =
    let (start, others) = maximum_ge depths (max m d) in
    (omega (arith, start), (omega (arith, start), others))

maximum_le : (depths : List ℕ) (m b : ℕ) → m ≤ b → All (λ d. d ≤ b) depths → maximum depths m ≤ b
unfolding maximum
maximum_le [] m b h a = h
maximum_le (d ∷ depths) m b h a = maximum_le depths (max m d) b (omega (arith, a.0)) a.1

-- What a successful validation says of the depths and of the maximum.
pub validated_bounds :
    (node_count : ℕ) (depths : List ℕ) (m : ℕ)
    → validate_precomputed_depth_input node_count depths ≡ ok m
    → (m ≤ depth_limit) × All (λ d. d ≤ m) depths
validated_bounds node_count depths m e =
    let (wrong, right, big) = validate_branches node_count depths in
    elim (Bool-cases (length depths == node_count)) [
      | inr ne ↦ absurd (throws-ne-ok (sym (wrong (==→≢ (length depths) node_count ne)) ∙ e))
      | inl same ↦
          let count = ==→≡ (length depths) node_count same in
          elim (AllFit-cases depths) [
            | inr unfit ↦ absurd (
                throws-ne-ok (
                  sym
                    (big count (λ a. ok-ne-throws (sym (observe_depths_fits depths 0 a) ∙ unfit 0)))
                  ∙ e))
            | inl fit ↦
                let is_max : maximum depths 0 ≡ m = ok_injective (sym (right count fit) ∙ e) in
                (
                  omega (arith, maximum_le depths 0 depth_limit (omega arith) fit),
                  subst (λ b. All (λ d. d ≤ b) depths) is_max (maximum_ge depths 0).1,
                )
          ]
    ]

-- The cast to the width that is chosen keeps the maximum itself.
pub cast_depth_exact : (m : ℕ) → m ≤ depth_limit → cast_depth (depth_prefix_bytes_for_max m) m ≡ m
cast_depth_exact m h = cast_depth_fits (depth_prefix_bytes_for_max m) m (max_depth_holds m h)

-- Depths that `validatePrecomputedDepthInput` lets through keep their values when they are cast to
-- the width that is chosen for their observed maximum.
pub narrow_depths_exact :
    (node_count : ℕ) (depths : List ℕ) (m : ℕ)
    → validate_precomputed_depth_input node_count depths ≡ ok m
    → (narrow_depths (depth_prefix_bytes_for_max m) depths ≡ depths) × All (λ d. d ≤ m) depths
narrow_depths_exact node_count depths m e =
    let (limit, below) = validated_bounds node_count depths m e in
    let holds = max_depth_holds m limit in
    let w = depth_prefix_bytes_for_max m in
    (
      narrow_depths_fits w depths (
          All-map (λ d. d ≤ m) (λ d. d ≤ max_depth_for_prefix w) depths (λ d h. omega arith) below),
      below,
    )
