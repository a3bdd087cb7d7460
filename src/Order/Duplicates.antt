-- ===== src/Order/Duplicates.antt =====
-- The check for duplicate neighbours on a list that is sorted stably by the compared number.
use forest_sorting.Prelude.{
  ℕ, ◌≤◌, ◌<◌, ◌≡◌, refl, sym, ◌∙◌, ◌⊎◌, inl, inr, Bool, List, [], ◌∷◌, arith, ◌==◌, Bool-cases,
  ==→≡, ==→≢, ◌≢◌, All, All-map, length,
}
use forest_sorting.Errors.{ok, throws, Error, reject_adjacent_duplicates}
use forest_sorting.Stable.{having, IsSorted, having_eq, having_ne}

module _ (key : ℕ → ℕ) where
  -- No key behind a lower bound is met below it.
  none_below : (k : ℕ) (xs : List ℕ) → All (λ y. k < key y) xs → having key k xs ≡ []
  unfolding having
  none_below k [] a = refl
  none_below k (y ∷ ys) a = having_ne key k y ys (λ e. omega (arith, a.0, e)) ∙ none_below k ys a.1

  pub length-having : (k : ℕ) (xs : List ℕ) → length (having key k xs) ≤ length xs
  unfolding having
  length-having k [] = omega arith
  length-having k (x ∷ xs) = ground (arith, length-having k xs)

  having_grows : (k x : ℕ) (xs : List ℕ) → length (having key k xs) ≤ length (having key k (x ∷ xs))
  having_grows k x xs = elim (Bool-cases (key x == k)) [
    | inl e ↦ rw (having_eq key k x xs (==→≡ (key x) k e)) (omega arith)
    | inr e ↦ rw (having_ne key k x xs (==→≢ (key x) k e)) (omega arith)
  ]

  twice_head :
      (x y : ℕ) (xs : List ℕ) → key x ≡ key y → 2 ≤ length (having key (key x) (x ∷ y ∷ xs))
  twice_head x y xs e =
      rw (having_eq key (key x) x (y ∷ xs) refl, having_eq key (key x) y xs (sym e)) (omega arith)

  single_one : (x k : ℕ) → length (having key k (x ∷ [])) ≤ 1
  unfolding having
  single_one x k = ground arith

  single_cons :
      (x y : ℕ) (xs : List ℕ) (k : ℕ)
      → IsSorted key (x ∷ y ∷ xs)
      → key x ≢ key y
      → length (having key k (y ∷ xs)) ≤ 1
      → length (having key k (x ∷ y ∷ xs)) ≤ 1
  single_cons x y xs k s ne single = elim (Bool-cases (key x == k)) [
    | inl e ↦
        let here = ==→≡ (key x) k e in
        let above : k < key y = omega (arith, s.0.0, ne, here) in
        let behind =
          none_below k (y ∷ xs)
            (above, All-map (λ z. key y ≤ key z) (λ z. k < key z) xs (λ z h. omega arith) s.1.0) in
        rw (having_eq key k x (y ∷ xs) here, behind) (omega arith)
    | inr e ↦ rw (having_ne key k x (y ∷ xs) (==→≢ (key x) k e)) single
  ]

module _ (key : ℕ → ℕ) (equal : ℕ → ℕ → Bool) (equal_law : (i j : ℕ) → equal i j ≡ (key i == key j))
    (message : Error) where
  -- On a sorted list either each key stands once and nothing is thrown, or some key stands twice and
  -- the exception is.
  pub reject_adjacent_duplicates-IsSorted :
      (xs : List ℕ)
      → IsSorted key xs
      → ((reject_adjacent_duplicates equal xs message ≡ ok tt)
          × ((k : ℕ) → length (having key k xs) ≤ 1))
        ⊎ ((reject_adjacent_duplicates equal xs message ≡ throws message)
            × ((k : ℕ) × (2 ≤ length (having key k xs))))
  unfolding reject_adjacent_duplicates having
  reject_adjacent_duplicates-IsSorted [] s = inl (refl, λ k. omega arith)
  reject_adjacent_duplicates-IsSorted (x ∷ []) s = inl (refl, single_one key x)
  reject_adjacent_duplicates-IsSorted (x ∷ y ∷ rest) s = elim (Bool-cases (key x == key y)) [
    | inl e ↦
        let same = ==→≡ (key x) (key y) e in
        inr (rw (equal_law x y, e) refl, (key x, twice_head key x y rest same))
    | inr e ↦ elim (reject_adjacent_duplicates-IsSorted (y ∷ rest) s.1) [
      | inl (fine, single) ↦ inl (
        rw (equal_law x y, e) fine,
        λ k. single_cons key x y rest k s (==→≢ (key x) (key y) e) (single k),
      )
      | inr (bad, (k, twice)) ↦
          inr
            (rw (equal_law x y, e) bad, (k, omega (arith, twice, having_grows key k x (y ∷ rest))))
    ]
  ]
