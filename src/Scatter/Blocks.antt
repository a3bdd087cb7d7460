-- ===== src/Scatter/Blocks.antt =====
-- A vector cut into consecutive blocks, one for each bucket.
use native.Mathlib.Nat.{add-zero}
use forest_sorting.Prelude.{
  ℕ, zero, suc, ◌+◌, ◌≤◌, ◌<◌, ◌≡◌, ◌≢◌, refl, sym, ap, ap₂, ◌∙◌, List, [], ◌∷◌, ◌++◌, length,
  arith, ◌==◌, append_assoc, append-nil, take, drop, take-append-drop, length-append, length-take,
  length-drop, All, inl, inr, ◌⊎◌, Bool-cases, All-append, ==→≡, ==→≢, ≡→==, ≢→==,
}
use native.Mathlib.Decide.{dec_lt}
use forest_sorting.Scatter.{update, update_self, update_ne}
use forest_sorting.Stable.{having-append, All-weaken, having, IsSorted, having-append, All-weaken}

-- The sum of the sizes from `lo`, `n` of them.
abbrev pub total : (ℕ → ℕ) → ℕ → ℕ → ℕ
total c lo zero = 0
total c lo (suc n) = c lo + total c (suc lo) n

pub total_last : (c : ℕ → ℕ) (lo n d : ℕ) → d ≡ lo + n → total c lo (suc n) ≡ total c lo n + c d
total_last c lo zero d h = omega (arith, ap c h, ap c (add-zero lo))
total_last c lo (suc n) d h = omega (arith, total_last c (suc lo) n d (omega arith))

pub total_cong :
    (f g : ℕ → ℕ) (lo n : ℕ)
    → ((e : ℕ) → lo ≤ e → e < lo + n → f e ≡ g e)
    → total f lo n ≡ total g lo n
total_cong f g lo zero h = refl
total_cong f g lo (suc n) h = omega (
  arith,
  h lo (omega arith) (omega arith),
  total_cong f g (suc lo) n (λ e p q. h e (omega arith) (omega arith)),
)

module _ {ℓ} {A : Type ℓ} where
  -- The blocks `f lo`, `f (lo + 1)` and so on, `n` of them.
  abbrev pub blocks : (ℕ → List A) → ℕ → ℕ → List A
  blocks f lo zero = []
  blocks f lo (suc n) = f lo ++ blocks f (suc lo) n

  pub blocks_cong :
      (f g : ℕ → List A) (lo n : ℕ)
      → ((e : ℕ) → lo ≤ e → e < lo + n → f e ≡ g e)
      → blocks f lo n ≡ blocks g lo n
  blocks_cong f g lo zero h = refl
  blocks_cong f g lo (suc n) h =
      ap₂ ◌++◌ (h lo (omega arith) (omega arith))
        (blocks_cong f g (suc lo) n (λ e p q. h e (omega arith) (omega arith)))

  -- The block `d` among the others.
  pub blocks_split :
      (f : ℕ → List A) (lo k m n d : ℕ)
      → n ≡ k + suc m
      → d ≡ lo + k
      → blocks f lo n ≡ blocks f lo k ++ (f d ++ blocks f (suc d) m)
  blocks_split f lo zero m zero d p q = absurd (omega arith)
  blocks_split f lo zero m (suc n) d p q =
      ap₂ {A = ℕ} {B = ℕ} (λ e j. f e ++ blocks f (suc e) j) (omega arith) (omega arith)
  blocks_split f lo (suc k) m zero d p q = absurd (omega arith)
  blocks_split f lo (suc k) m (suc n) d p q =
      ap (◌++◌ (f lo)) (blocks_split f (suc lo) k m n d (omega arith) (omega arith))
      ∙ sym (append_assoc (f lo) (blocks f (suc lo) k) (f d ++ blocks f (suc d) m))

  pub length-blocks :
      (f : ℕ → List A) (c : ℕ → ℕ) (lo n : ℕ)
      → ((e : ℕ) → lo ≤ e → e < lo + n → length (f e) ≡ c e)
      → length (blocks f lo n) ≡ total c lo n
  length-blocks f c lo zero h = refl
  length-blocks f c lo (suc n) h = omega (
    arith,
    length-append (f lo) (blocks f (suc lo) n),
    h lo (omega arith) (omega arith),
    length-blocks f c (suc lo) n (λ e p q. h e (omega arith) (omega arith)),
  )

  -- Any vector of the right length falls into blocks of given sizes.
  pub blocks-of_length :
      (c : ℕ → ℕ) (lo n : ℕ) (xs : List A)
      → length xs ≡ total c lo n
      → (f : ℕ → List A) × ((e : ℕ) → lo ≤ e → e < lo + n → length (f e) ≡ c e)
        × (blocks f lo n ≡ xs)
  blocks-of_length c lo zero [] h = (λ e. [], λ e p q. absurd (omega arith), refl)
  blocks-of_length c lo zero (x ∷ xs) h = absurd (omega arith)
  blocks-of_length c lo (suc n) xs h =
      let (f, sizes, whole) =
        blocks-of_length c (suc lo) n (drop (c lo) xs) (omega (arith, length-drop (c lo) xs)) in
      let g = update f lo (take (c lo) xs) in
      (
        g,
        λ e p q. elim (Bool-cases (e == lo)) [
          | inl same ↦
              let at : e ≡ lo = ==→≡ e lo same in
              rw (at, update_self f lo (take (c lo) xs)) (omega (arith, length-take (c lo) xs))
          | inr other ↦
              let off = ==→≢ e lo other in
              rw (update_ne f lo e (take (c lo) xs) off) (sizes e (omega arith) (omega arith))
        ],
        ap₂ ◌++◌ (update_self f lo (take (c lo) xs)) (
              blocks_cong g f (suc lo) n (λ e p q. update_ne f lo e (take (c lo) xs) (omega arith))
              ∙ whole)
            ∙ take-append-drop (c lo) xs,
      )

module _ {ℓ} {A : Type ℓ} (key : A → ℕ) where
  All-le_of_eq : (j k : ℕ) (xs : List A) → j ≤ k → All (λ x. key x ≡ k) xs → All (λ x. j ≤ key x) xs
  All-le_of_eq j k [] h a = tt
  All-le_of_eq j k (x ∷ xs) h a = (omega (arith, a.0), All-le_of_eq j k xs h a.1)

  IsSorted-append :
      (k : ℕ) (xs ys : List A)
      → All (λ x. key x ≡ k) xs
      → All (λ y. k ≤ key y) ys
      → IsSorted key ys
      → IsSorted key (xs ++ ys)
  IsSorted-append k [] ys a b s = s
  IsSorted-append k (x ∷ xs) ys a b s = (
    All-append (λ y. key x ≤ key y) xs ys (All-le_of_eq (key x) k xs (omega (arith, a.0)) a.1)
        (All-weaken key (key x) k ys (omega (arith, a.0)) b),
    IsSorted-append k xs ys a.1 b s,
  )

  pub All-having_self : (k : ℕ) (xs : List A) → All (λ x. key x ≡ k) (having key k xs)
  unfolding having
  All-having_self k [] = tt
  All-having_self k (x ∷ xs) = elim (Bool-cases (key x == k)) [
    | inl e ↦ rw e (==→≡ _ _ e, All-having_self k xs)
    | inr e ↦ rw e (All-having_self k xs)
  ]

  having-All : (k : ℕ) (xs : List A) → All (λ x. key x ≡ k) xs → having key k xs ≡ xs
  unfolding having
  having-All k [] a = refl
  having-All k (x ∷ xs) a = rw (≡→== _ _ a.0) (ap (◌∷◌ x) (having-All k xs a.1))

  having_none : (j k : ℕ) (xs : List A) → All (λ x. key x ≡ k) xs → k ≢ j → having key j xs ≡ []
  unfolding having
  having_none j k [] a ne = refl
  having_none j k (x ∷ xs) a ne =
      rw (≢→== (key x) j (omega (arith, a.0))) (having_none j k xs a.1 ne)

  -- No element has a key that all keys are below.
  pub having_large :
      (k K : ℕ) (xs : List A) → K ≤ k → All (λ x. key x < K) xs → having key k xs ≡ []
  unfolding having
  having_large k K [] h a = refl
  having_large k K (x ∷ xs) h a =
      rw (≢→== (key x) k (omega (arith, a.0))) (having_large k K xs h a.1)

  -- Blocks of one key each, in ascending order of the key.
  module _ (f : ℕ → List A) (own : (k : ℕ) → All (λ x. key x ≡ k) (f k)) where
    All-blocks : (j lo n : ℕ) → j ≤ lo → All (λ x. j ≤ key x) (blocks f lo n)
    All-blocks j lo zero h = tt
    All-blocks j lo (suc n) h =
        All-append (λ x. j ≤ key x) (f lo) (blocks f (suc lo) n)
          (All-le_of_eq j lo (f lo) h (own lo)) (All-blocks j (suc lo) n (omega arith))

    pub blocks-IsSorted : (lo n : ℕ) → IsSorted key (blocks f lo n)
    blocks-IsSorted lo zero = tt
    blocks-IsSorted lo (suc n) =
        IsSorted-append lo (f lo) (blocks f (suc lo) n) (own lo)
          (All-blocks lo (suc lo) n (omega arith)) (blocks-IsSorted (suc lo) n)

    pub having-blocks_out :
        (k lo n : ℕ) → (k < lo) ⊎ (lo + n ≤ k) → having key k (blocks f lo n) ≡ []
    unfolding having
    having-blocks_out k lo zero h = refl
    having-blocks_out k lo (suc n) h =
        having-append key k (f lo) (blocks f (suc lo) n)
        ∙ ap₂ ◌++◌ (having_none k lo (f lo) (own lo) (omega arith))
            (having-blocks_out k (suc lo) n (omega arith))

    pub having-blocks : (k lo n : ℕ) → lo ≤ k → k < lo + n → having key k (blocks f lo n) ≡ f k
    having-blocks k lo zero p q = absurd (omega arith)
    having-blocks k lo (suc n) p q =
        having-append key k (f lo) (blocks f (suc lo) n) ∙ elim (dec_lt lo k) [
          | yes h ↦
              ap₂ ◌++◌ (having_none k lo (f lo) (own lo) (omega arith))
                (having-blocks k (suc lo) n (omega arith) (omega arith))
          | no h ↦
              let here : lo ≡ k = omega arith in
              ap₂ ◌++◌ (ap (λ j. having key k (f j)) here ∙ having-All k (f k) (own k))
                (having-blocks_out k (suc lo) n (omega arith))
              ∙ append-nil (f k)
        ]
