-- ===== src/Stable.antt =====
-- Stable sorting by a numeric key: the specification that the program's sorters meet.
pub mod Unique
pub mod Compose
pub mod Behind
pub mod Refine
use forest_sorting.Prelude.{
  ℕ, zero, suc, ◌+◌, ◌≤◌, ◌<◌, ◌≡◌, ◌≢◌, refl, sym, ap, ap₂, ◌∙◌, ◌⊎◌, inl, inr, Bool, true, false,
  List, [], ◌∷◌, ◌++◌, leb, ◌==◌, if◌then◌else◌, Bool-cases, All, arith, length, ==→≡, ==→≢,
  ==_refl, ≢→==, leb→le, leb→lt,
}
use mathlib.Core.List.{Perm}
use mathlib.Core.List.Perm

module _ {ℓ} {A : Type ℓ} (key : A → ℕ) where
  -- The elements whose key is `k`, in their order.
  unfoldable pub having : ℕ → List A → List A
  having k [] = []
  having k (x ∷ xs) = let rest = having k xs in if key x == k then x ∷ rest else rest

  -- Keys never fall.
  abbrev pub IsSorted : List A → Type 0
  IsSorted [] = Unit
  IsSorted (x ∷ xs) = All (λ y. key x ≤ key y) xs × IsSorted xs

  pub All-weaken :
      (a b : ℕ) (xs : List A) → a ≤ b → All (λ y. b ≤ key y) xs → All (λ y. a ≤ key y) xs
  All-weaken a b [] h s = tt
  All-weaken a b (x ∷ xs) h s = (omega arith, All-weaken a b xs h s.1)

  unfoldable pub insert : A → List A → List A
  insert x [] = x ∷ []
  insert x (y ∷ ys) = let rest = insert x ys in if leb (key x) (key y) then x ∷ y ∷ ys else y ∷ rest

  -- The reference stable sort.
  unfoldable pub stable_sort : List A → List A
  stable_sort [] = []
  stable_sort (x ∷ xs) = insert x (stable_sort xs)

  -- `ys` is `xs` in ascending order of the key, equal keys in their old order.
  pub record IsStableSort (xs ys : List A) : Type ℓ where
    pub sorted : IsSorted ys
    pub stable : (k : ℕ) → having k ys ≡ having k xs

  pub having_eq : (k : ℕ) (x : A) (xs : List A) → key x ≡ k → having k (x ∷ xs) ≡ x ∷ having k xs
  unfolding having
  having_eq k x xs e = ground arith

  pub having_ne : (k : ℕ) (x : A) (xs : List A) → key x ≢ k → having k (x ∷ xs) ≡ having k xs
  unfolding having
  having_ne k x xs e = ground arith

  pub having-append : (k : ℕ) (xs ys : List A) → having k (xs ++ ys) ≡ having k xs ++ having k ys
  unfolding having
  having-append k [] ys = refl
  having-append k (x ∷ xs) ys = ground (arith, having-append k xs ys)

  -- `insert` computes by the comparison of the keys.
  insert_le : (x y : A) (ys : List A) → key x ≤ key y → insert x (y ∷ ys) ≡ x ∷ y ∷ ys
  unfolding insert
  insert_le x y ys h = ground arith

  insert_gt : (x y : A) (ys : List A) → key y < key x → insert x (y ∷ ys) ≡ y ∷ insert x ys
  unfolding insert
  insert_gt x y ys h = ground arith

  pub All-insert {κ} : (P : A → Type κ) (x : A) (ys : List A) → P x → All P ys → All P (insert x ys)
  unfolding insert
  All-insert P x [] p a = (p, tt)
  All-insert P x (y ∷ ys) p a = elim (Bool-cases (leb (key x) (key y))) [
    | inl e ↦ rw e (p, a)
    | inr e ↦ rw e (a.0, All-insert P x ys p a.1)
  ]

  IsSorted-insert : (x : A) (ys : List A) → IsSorted ys → IsSorted (insert x ys)
  unfolding insert
  IsSorted-insert x [] s = (tt, tt)
  IsSorted-insert x (y ∷ ys) s = elim (Bool-cases (leb (key x) (key y))) [
    | inl e ↦ rw e ((leb→le _ _ e, All-weaken _ _ ys (leb→le _ _ e) s.0), s)
    | inr e ↦ rw e (
      All-insert (λ z. key y ≤ key z) x ys (omega (arith, leb→lt _ _ e)) s.0,
      IsSorted-insert x ys s.1,
    )
  ]

  having-insert : (k : ℕ) (x : A) (ys : List A) → having k (insert x ys) ≡ having k (x ∷ ys)
  unfolding insert having
  having-insert k x [] = refl
  having-insert k x (y ∷ ys) = ground (arith, having-insert k x ys)

  insert-perm : (x : A) (ys : List A) → Perm (insert x ys) (x ∷ ys)
  unfolding insert
  insert-perm x [] = Perm.rfl
  insert-perm x (y ∷ ys) = elim (Bool-cases (leb (key x) (key y))) [
    | inl e ↦ rw e Perm.rfl
    | inr e ↦ rw e (Perm.trans (Perm.cons y (insert-perm x ys)) (Perm.swap x y ys))
  ]

  pub All-stable_sort {κ} : (P : A → Type κ) (xs : List A) → All P xs → All P (stable_sort xs)
  unfolding stable_sort
  All-stable_sort P [] a = tt
  All-stable_sort P (x ∷ xs) a = All-insert P x (stable_sort xs) a.0 (All-stable_sort P xs a.1)

  stable_sort-IsSorted : (xs : List A) → IsSorted (stable_sort xs)
  unfolding stable_sort
  stable_sort-IsSorted [] = tt
  stable_sort-IsSorted (x ∷ xs) = IsSorted-insert x (stable_sort xs) (stable_sort-IsSorted xs)

  having-cons_cong :
      (k : ℕ) (x : A) (xs ys : List A)
      → having k xs ≡ having k ys
      → having k (x ∷ xs) ≡ having k (x ∷ ys)
  unfolding having
  having-cons_cong k x xs ys e = rw e

  having-stable_sort : (k : ℕ) (xs : List A) → having k (stable_sort xs) ≡ having k xs
  unfolding stable_sort
  having-stable_sort k [] = refl
  having-stable_sort k (x ∷ xs) =
      having-insert k x (stable_sort xs)
      ∙ having-cons_cong k x (stable_sort xs) xs (having-stable_sort k xs)

  -- The reference meets the specification, and is a rearrangement.
  pub stable_sort-IsStableSort : (xs : List A) → IsStableSort xs (stable_sort xs)
  stable_sort-IsStableSort xs = record {
    sorted = stable_sort-IsSorted xs;
    stable = λ k. having-stable_sort k xs;
  }

  pub stable_sort-perm : (xs : List A) → Perm (stable_sort xs) xs
  unfolding stable_sort
  stable_sort-perm [] = Perm.rfl
  stable_sort-perm (x ∷ xs) =
      Perm.trans (insert-perm x (stable_sort xs)) (Perm.cons x (stable_sort-perm xs))

  length-insert : (x : A) (ys : List A) → length (insert x ys) ≡ suc (length ys)
  unfolding insert
  length-insert x [] = refl
  length-insert x (y ∷ ys) = elim (Bool-cases (leb (key x) (key y))) [
    | inl e ↦ rw e
    | inr e ↦ rw e (ap suc (length-insert x ys))
  ]

  pub length-stable_sort : (xs : List A) → length (stable_sort xs) ≡ length xs
  unfolding stable_sort
  length-stable_sort [] = refl
  length-stable_sort (x ∷ xs) =
      omega (arith, length-insert x (stable_sort xs), length-stable_sort xs)
