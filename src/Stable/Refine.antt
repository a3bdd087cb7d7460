-- ===== src/Stable/Refine.antt =====
-- Sorting in two steps, where the first key is coarser than the second one.
use forest_sorting.Prelude.{
  ℕ, ◌≤◌, ◌≡◌, refl, sym, ap₂, ◌∙◌, ◌≢◌, inl, inr, List, [], ◌∷◌, ◌++◌, arith, leb, ◌==◌,
  Bool-cases, leb→lt, All, All-map, All-append, ==→≡,
}
use forest_sorting.Stable.{
  having, insert, stable_sort, IsSorted, stable_sort-IsStableSort, having-append, All-stable_sort,
  having-cons_cong,
}
use forest_sorting.Stable.Unique.{IsStableSort-eq}

module _ {ℓ} {A : Type ℓ} (coarse fine : A → ℕ)
    (refines : (x y : A) → fine x ≡ fine y → coarse x ≡ coarse y) where
  having-swap :
      (k : ℕ) (x y : A) (ys : List A)
      → coarse x ≢ coarse y
      → having fine k (y ∷ x ∷ ys) ≡ having fine k (x ∷ y ∷ ys)
  unfolding having
  having-swap k x y ys ne = elim (Bool-cases (fine x == k)) [
    | inl e ↦ elim (Bool-cases (fine y == k)) [
      | inl f ↦ absurd (ne (refines x y (==→≡ (fine x) k e ∙ sym (==→≡ (fine y) k f))))
      | inr f ↦ rw (e, f) refl
    ]
    | inr e ↦ rw e refl
  ]

  having-insert_coarse :
      (k : ℕ) (x : A) (ys : List A) → having fine k (insert coarse x ys) ≡ having fine k (x ∷ ys)
  unfolding insert
  having-insert_coarse k x [] = refl
  having-insert_coarse k x (y ∷ ys) = elim (Bool-cases (leb (coarse x) (coarse y))) [
    | inl e ↦ rw e refl
    | inr e ↦
        let apart : coarse x ≢ coarse y =
          λ same. omega (arith, same, leb→lt (coarse x) (coarse y) e) in
        rw e (
          having-cons_cong fine k y (insert coarse x ys) (x ∷ ys) (having-insert_coarse k x ys)
          ∙ having-swap k x y ys apart)
  ]

  pub having-stable_sort_coarse :
      (k : ℕ) (xs : List A) → having fine k (stable_sort coarse xs) ≡ having fine k xs
  unfolding stable_sort
  having-stable_sort_coarse k [] = refl
  having-stable_sort_coarse k (x ∷ xs) =
      having-insert_coarse k x (stable_sort coarse xs)
      ∙ having-cons_cong fine k x (stable_sort coarse xs) xs (having-stable_sort_coarse k xs)

  -- A sort by a coarser key before does not matter.
  pub stable_sort_coarse :
      (xs : List A) → stable_sort fine (stable_sort coarse xs) ≡ stable_sort fine xs
  stable_sort_coarse xs =
      let ys = stable_sort coarse xs in
      let done = stable_sort-IsStableSort fine ys in
      IsStableSort-eq fine xs (stable_sort fine ys) (record {
        sorted = done.sorted;
        stable = λ k. done.stable k ∙ having-stable_sort_coarse k xs;
      })

module _ {ℓ} {A : Type ℓ} (key : A → ℕ) where
  IsSorted-append :
      (xs ys : List A)
      → IsSorted key xs
      → IsSorted key ys
      → All (λ x. All (λ y. key x ≤ key y) ys) xs
      → IsSorted key (xs ++ ys)
  IsSorted-append [] ys s t a = t
  IsSorted-append (x ∷ xs) ys s t a =
      (All-append (λ z. key x ≤ key z) xs ys s.0 a.0, IsSorted-append xs ys s.1 t a.1)

  -- Two parts, the keys of the first one no larger than those of the second.
  pub stable_sort-append :
      (xs ys : List A)
      → All (λ x. All (λ y. key x ≤ key y) ys) xs
      → stable_sort key xs ++ stable_sort key ys ≡ stable_sort key (xs ++ ys)
  stable_sort-append xs ys a =
      let p = stable_sort-IsStableSort key xs in
      let q = stable_sort-IsStableSort key ys in
      let ordered =
        All-stable_sort key (λ x. All (λ y. key x ≤ key y) (stable_sort key ys)) xs
          (All-map (λ x. All (λ y. key x ≤ key y) ys)
            (λ x. All (λ y. key x ≤ key y) (stable_sort key ys)) xs
            (λ x b. All-stable_sort key (λ y. key x ≤ key y) ys b) a) in
      IsStableSort-eq key (xs ++ ys) (stable_sort key xs ++ stable_sort key ys) (record {
        sorted =
            IsSorted-append (stable_sort key xs) (stable_sort key ys) p.sorted q.sorted ordered;
        stable = λ k.
            having-append key k (stable_sort key xs) (stable_sort key ys)
            ∙ ap₂ ◌++◌ (p.stable k) (q.stable k)
            ∙ sym (having-append key k xs ys);
      })
