-- ===== src/Stable/Unique.antt =====
-- A list has one stable sort: the specification determines the result.
use forest_sorting.Prelude.{
  ℕ, ◌≤◌, ◌≡◌, refl, sym, ap, ap₂, ◌∙◌, inl, inr, List, [], ◌∷◌, ◌==◌, Bool-cases, All, arith, ==→≡,
  ==→≢, All-map, if◌then◌else◌, leb, length, map,
}
use forest_sorting.Stable.{
  having, IsSorted, IsStableSort, stable_sort, having_eq, having_ne, stable_sort-IsStableSort,
  stable_sort-perm, insert, All-stable_sort,
}
use mathlib.Core.List.{Perm}

module _ {ℓ} {A : Type ℓ} where
  pub head_eq : (d : A) {x y : A} {xs ys : List A} → x ∷ xs ≡ y ∷ ys → x ≡ y
  head_eq d e = cc

  pub tail_eq : {x y : A} {xs ys : List A} → x ∷ xs ≡ y ∷ ys → xs ≡ ys
  tail_eq e = cc

  cons-ne-nil : {x : A} {xs : List A} → x ∷ xs ≡ [] → ⊥
  cons-ne-nil e = cc

module _ {ℓ} {A : Type ℓ} (key : A → ℕ) where
  -- Some element has the key, so a lower bound of the keys is below it.
  bound_of_having :
      (k m : ℕ) (z : A) (zs xs : List A)
      → having key k xs ≡ z ∷ zs
      → All (λ y. m ≤ key y) xs
      → m ≤ k
  unfolding having
  bound_of_having k m z zs [] e a = absurd (cons-ne-nil (sym e))
  bound_of_having k m z zs (x ∷ xs) e a = elim (Bool-cases (key x == k)) [
    | inl t ↦ omega (arith, ==→≡ _ _ t)
    | inr f ↦ bound_of_having k m z zs xs (rw f at e) a.1
  ]

  head_le :
      (x y : A) (xs ys : List A)
      → IsSorted key (x ∷ xs)
      → ((k : ℕ) → having key k (x ∷ xs) ≡ having key k (y ∷ ys))
      → key x ≤ key y
  head_le x y xs ys s e =
      bound_of_having (key y) (key x) y (having key (key y) ys) (x ∷ xs)
        (e (key y) ∙ having_eq key (key y) y ys refl) (omega arith, s.0)

  tails :
      (x : A) (xs ys : List A)
      → ((k : ℕ) → having key k (x ∷ xs) ≡ having key k (x ∷ ys))
      → (k : ℕ) → having key k xs ≡ having key k ys
  tails x xs ys e k = elim (Bool-cases (key x == k)) [
    | inl t ↦
        tail_eq (sym (having_eq key k x xs (==→≡ _ _ t)) ∙ e k ∙ having_eq key k x ys (==→≡ _ _ t))
    | inr f ↦ sym (having_ne key k x xs (==→≢ _ _ f)) ∙ e k ∙ having_ne key k x ys (==→≢ _ _ f)
  ]

  pub sorted_unique :
      (xs ys : List A)
      → IsSorted key xs
      → IsSorted key ys
      → ((k : ℕ) → having key k xs ≡ having key k ys)
      → xs ≡ ys
  unfolding having
  sorted_unique [] [] s t e = refl
  sorted_unique [] (y ∷ ys) s t e =
      absurd (cons-ne-nil (sym (e (key y) ∙ having_eq key (key y) y ys refl)))
  sorted_unique (x ∷ xs) [] s t e =
      absurd (cons-ne-nil (sym (having_eq key (key x) x xs refl) ∙ e (key x)))
  sorted_unique (x ∷ xs) (y ∷ ys) s t e =
      let same : key x ≡ key y =
        omega (arith, head_le x y xs ys s e, head_le y x ys xs t (λ k. sym (e k))) in
      let heads : x ≡ y =
        head_eq x
          (sym (having_eq key (key y) x xs same) ∙ e (key y) ∙ having_eq key (key y) y ys refl) in
      ap₂ ◌∷◌ heads (
        sorted_unique xs ys s.1 t.1
          (tails x xs ys (λ k. e k ∙ ap (λ z. having key k (z ∷ ys)) (sym heads))))

  -- What meets the specification is the reference stable sort.
  pub IsStableSort-eq : (xs ys : List A) → IsStableSort key xs ys → ys ≡ stable_sort key xs
  IsStableSort-eq xs ys h =
      let r = stable_sort-IsStableSort key xs in
      sorted_unique ys (stable_sort key xs) h.sorted r.sorted (λ k. h.stable k ∙ sym (r.stable k))

  pub IsStableSort-perm : (xs ys : List A) → IsStableSort key xs ys → Perm ys xs
  IsStableSort-perm xs ys h = rw (IsStableSort-eq xs ys h) (stable_sort-perm key xs)

  same_IsSorted : (k : ℕ) (xs : List A) → All (λ x. key x ≡ k) xs → IsSorted key xs
  same_IsSorted k [] a = tt
  same_IsSorted k (x ∷ xs) a = (
    All-map (λ y. key y ≡ k) (λ y. key x ≤ key y) xs (λ y q. omega (arith, a.0)) a.1,
    same_IsSorted k xs a.1,
  )

  -- With one key the stable sort has nothing to do.
  pub same_key_sorted : (k : ℕ) (xs : List A) → All (λ x. key x ≡ k) xs → stable_sort key xs ≡ xs
  same_key_sorted k xs a =
      sym (IsStableSort-eq xs xs (record { sorted = same_IsSorted k xs a; stable = λ k. refl }))

-- Nothing is out of order.
pub short_sorted {ℓ} :
    {A : Type ℓ} (key : A → ℕ) (xs : List A) → length xs ≤ 1 → stable_sort key xs ≡ xs
unfolding stable_sort insert
short_sorted key [] h = refl
short_sorted key (x ∷ []) h = refl
short_sorted key (x ∷ y ∷ xs) h = absurd (omega arith)

-- Only the keys of the elements matter.
module _ {ℓ} {A : Type ℓ} (f g : A → ℕ) where
  insert_cong :
      (x : A) (ys : List A) → f x ≡ g x → All (λ y. f y ≡ g y) ys → insert f x ys ≡ insert g x ys
  unfolding insert
  insert_cong x [] e a = refl
  insert_cong x (y ∷ ys) e a =
      ap₂ (λ t rest. if t then x ∷ y ∷ ys else y ∷ rest) (ap₂ leb e a.0) (insert_cong x ys e a.1)

  pub stable_sort_cong :
      (xs : List A) → All (λ x. f x ≡ g x) xs → stable_sort f xs ≡ stable_sort g xs
  unfolding stable_sort
  stable_sort_cong [] a = refl
  stable_sort_cong (x ∷ xs) a =
      ap (insert f x) (stable_sort_cong xs a.1)
      ∙ insert_cong x (stable_sort g xs) a.0 (All-stable_sort g (λ y. f y ≡ g y) xs a.1)

-- Sorting the images by a key sorts by the key of the image.
module _ {ℓ κ} {A : Type ℓ} {B : Type κ} (g : A → B) (f : B → ℕ) where
  insert-map :
      (x : A) (ys : List A) → insert f (g x) (map g ys) ≡ map g (insert (λ a. f (g a)) x ys)
  unfolding insert
  insert-map x [] = refl
  insert-map x (y ∷ ys) = elim (Bool-cases (leb (f (g x)) (f (g y)))) [
    | inl e ↦ rw e refl
    | inr e ↦ rw e (ap (◌∷◌ (g y)) (insert-map x ys))
  ]

  pub stable_sort-map :
      (xs : List A) → stable_sort f (map g xs) ≡ map g (stable_sort (λ a. f (g a)) xs)
  unfolding stable_sort
  stable_sort-map [] = refl
  stable_sort-map (x ∷ xs) =
      ap (insert f (g x)) (stable_sort-map xs) ∙ insert-map x (stable_sort (λ a. f (g a)) xs)
