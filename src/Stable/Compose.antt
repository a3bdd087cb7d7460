-- ===== src/Stable/Compose.antt =====
-- Sorting by a minor key and then by a major key sorts by both, and so does sorting by the major
-- key and then each group of equal major keys by the minor one.
use forest_sorting.Prelude.{
  ℕ, ◌+◌, ◌*◌, ◌/◌, ◌%◌, ◌≤◌, ◌<◌, ◌≡◌, refl, sym, ap, ◌∙◌, inl, inr, List, [], ◌∷◌, ◌==◌,
  Bool-cases, ◌&&◌, All, arith, ==→≡, ==→≢,
}
use native.Mathlib.Nat.{div-add-mod, mod-lt}
use native.Mathlib.Decide.{dec_lt}
use forest_sorting.Stable.{having, IsSorted, IsStableSort, having_eq}

pub digits_lt : (M a b c d : ℕ) → b < M → a < c → a * M + b < c * M + d
digits_lt M a b c d hb e = grind arith

-- A number has one quotient and remainder.
pub digits_unique : (M a b c d : ℕ) → b < M → d < M → a * M + b ≡ c * M + d → (a ≡ c) × (b ≡ d)
digits_unique M a b c d hb hd e = elim (dec_lt a c) [
  | yes p ↦ absurd (omega (arith, digits_lt M a b c d hb p))
  | no p ↦ elim (dec_lt c a) [
    | yes q ↦ absurd (omega (arith, digits_lt M c d a b hd q))
    | no q ↦ let h : a ≡ c = omega arith in (h, omega (arith, ap (λ (t : ℕ). t * M) h))
  ]
]

module _ {ℓ} {A : Type ℓ} (key : A → ℕ) where
  pub All-having {κ} : (P : A → Type κ) (k : ℕ) (xs : List A) → All P xs → All P (having key k xs)
  unfolding having
  All-having P k [] a = tt
  All-having P k (x ∷ xs) a = elim (Bool-cases (key x == k)) [
    | inl t ↦ rw t (a.0, All-having P k xs a.1)
    | inr f ↦ rw f (All-having P k xs a.1)
  ]

module _ {ℓ} {A : Type ℓ} (f g : A → ℕ) where
  IsSorted-having : (k : ℕ) (xs : List A) → IsSorted f xs → IsSorted f (having g k xs)
  unfolding having
  IsSorted-having k [] s = tt
  IsSorted-having k (x ∷ xs) s = elim (Bool-cases (g x == k)) [
    | inl t ↦ rw t (All-having g (λ y. f x ≤ f y) k xs s.0, IsSorted-having k xs s.1)
    | inr t ↦ rw t (IsSorted-having k xs s.1)
  ]

  having_comm : (a b : ℕ) (xs : List A) → having f a (having g b xs) ≡ having g b (having f a xs)
  unfolding having
  having_comm a b [] = refl
  having_comm a b (x ∷ xs) = elim (Bool-cases (f x == a)) [
    | inl p ↦ elim (Bool-cases (g x == b)) [
      | inl q ↦ simp (p, q, having_comm a b xs)
      | inr q ↦ simp (p, q, having_comm a b xs)
    ]
    | inr p ↦ elim (Bool-cases (g x == b)) [
      | inl q ↦ simp (p, q, having_comm a b xs)
      | inr q ↦ simp (p, q, having_comm a b xs)
    ]
  ]

module _ {ℓ} {A : Type ℓ} (major minor both : A → ℕ) (M : ℕ) (pos : 0 < M)
    (minor_lt : (x : A) → minor x < M) (splits : (x : A) → both x ≡ major x * M + minor x) where
  both_test : (a b : ℕ) (x : A) → b < M → (both x == a * M + b) ≡ ((major x == a) && (minor x == b))
  both_test a b x hb =
      ground (arith, splits x, digits_unique M (major x) (minor x) a b (minor_lt x) hb)

  having-both :
      (a b : ℕ)
      → b < M
      → (xs : List A) → having both (a * M + b) xs ≡ having minor b (having major a xs)
  unfolding having
  having-both a b hb [] = refl
  having-both a b hb (x ∷ xs) = elim (Bool-cases (major x == a)) [
    | inl e ↦ elim (Bool-cases (minor x == b)) [
      | inl f ↦ rw (both_test a b x hb, e, f, having-both a b hb xs)
      | inr f ↦ rw (both_test a b x hb, e, f, having-both a b hb xs)
    ]
    | inr e ↦ rw (both_test a b x hb, e, having-both a b hb xs)
  ]

  -- Every key is a quotient and a remainder.
  having-both_div :
      (k : ℕ) (xs : List A) → having both k xs ≡ having minor (k % M) (having major (k / M) xs)
  having-both_div k xs =
      let e : k ≡ k / M * M + k % M = omega (arith, div-add-mod k M) in
      ap (λ t. having both t xs) e ∙ having-both (k / M) (k % M) (mod-lt k pos) xs

  below_both :
      (x : A) (ys : List A)
      → All (λ y. major x ≤ major y) ys
      → All (λ y. minor x ≤ minor y) (having major (major x) ys)
      → All (λ y. both x ≤ both y) ys
  unfolding having
  below_both x [] s t = tt
  below_both x (y ∷ ys) s t = elim (Bool-cases (major y == major x)) [
    | inl e ↦
        let t' = rw e at t in
        (rw (splits x, splits y, ==→≡ _ _ e) (omega (arith, t'.0)), below_both x ys s.1 t'.1)
    | inr e ↦
        let t' = rw e at t in
        (
          rw (splits x, splits y)
              (omega (
                arith,
                digits_lt M (major x) (minor x) (major y) (minor y) (minor_lt x)
                    (omega (arith, s.0, ==→≢ (major y) (major x) e)),
              )),
          below_both x ys s.1 t',
        )
  ]

  both-IsSorted :
      (xs : List A)
      → IsSorted major xs
      → ((a : ℕ) → IsSorted minor (having major a xs))
      → IsSorted both xs
  unfolding having
  both-IsSorted [] s t = tt
  both-IsSorted (x ∷ xs) s t =
      let own = rw (having_eq major (major x) x xs refl) at (t (major x)) in
      (
        below_both x xs s.0 own.0,
        both-IsSorted xs s.1 λ a. elim (Bool-cases (major x == a)) [
          | inl e ↦ (rw e at (t a)).1
          | inr e ↦ rw e at (t a)
        ],
      )

  -- Minor first, then major: a pass of a least-significant-digit sort.
  pub minor_major-IsStableSort :
      (xs ys zs : List A)
      → IsStableSort minor xs ys
      → IsStableSort major ys zs
      → IsStableSort both xs zs
  minor_major-IsStableSort xs ys zs p q = record {
    sorted =
        both-IsSorted zs q.sorted λ a. rw (q.stable a) (IsSorted-having minor major a ys p.sorted);
    stable = λ k.
        having-both_div k zs
        ∙ ap (having minor (k % M)) (q.stable (k / M))
        ∙ having_comm minor major (k % M) (k / M) ys
        ∙ ap (having major (k / M)) (p.stable (k % M))
        ∙ having_comm major minor (k / M) (k % M) xs
        ∙ sym (having-both_div k xs);
  }

  -- Major first, then each group by the minor key: a most-significant-digit sort.
  pub major_minor-IsStableSort :
      (xs ys zs : List A)
      → IsStableSort major xs ys
      → IsSorted major zs
      → ((a : ℕ) → IsStableSort minor (having major a ys) (having major a zs))
      → IsStableSort both xs zs
  major_minor-IsStableSort xs ys zs p q r = record {
    sorted = both-IsSorted zs q (λ a. (r a).sorted);
    stable = λ k.
        having-both_div k zs
        ∙ (r (k / M)).stable (k % M)
        ∙ ap (having minor (k % M)) (p.stable (k / M))
        ∙ sym (having-both_div k xs);
  }
