-- ===== src/Stable/Behind.antt =====
-- Insertion behind equal keys, the step of an insertion sort that runs from the front.
use forest_sorting.Prelude.{
  ℕ, suc, ◌≤◌, ◌<◌, ◌≡◌, refl, sym, ap, ◌∙◌, inl, inr, List, [], ◌∷◌, ◌++◌, append-nil, arith, ltb,
  ◌==◌, if◌then◌else◌, Bool-cases, ltb→lt, ltb→le, lt→ltb, le→ltb, ==→≡, ==→≢, ≢→==, length, All,
  All-map,
}
use forest_sorting.Stable.{having, IsSorted, IsStableSort, having-append, having_eq, having_ne}

module _ {ℓ} {A : Type ℓ} (key : A → ℕ) where
  unfoldable pub insert_behind : A → List A → List A
  insert_behind x [] = x ∷ []
  insert_behind x (y ∷ ys) =
      let rest = insert_behind x ys in if ltb (key x) (key y) then x ∷ y ∷ ys else y ∷ rest

  pub length-insert_behind : (x : A) (l : List A) → length (insert_behind x l) ≡ suc (length l)
  unfolding insert_behind
  length-insert_behind x [] = refl
  length-insert_behind x (y ∷ l) = elim (Bool-cases (ltb (key x) (key y))) [
    | inl e ↦ rw e refl
    | inr e ↦ rw e (ap suc (length-insert_behind x l))
  ]

  -- A last element that is larger stays behind.
  pub insert_behind_larger :
      (x y : A) (l : List A)
      → key x < key y
      → insert_behind x (l ++ y ∷ []) ≡ insert_behind x l ++ y ∷ []
  unfolding insert_behind
  insert_behind_larger x y [] h = rw (lt→ltb (key x) (key y) h) refl
  insert_behind_larger x y (z ∷ l) h = elim (Bool-cases (ltb (key x) (key z))) [
    | inl e ↦ rw e refl
    | inr e ↦ rw e (ap (◌∷◌ z) (insert_behind_larger x y l h))
  ]

  -- Behind keys that are no larger, the element comes last.
  pub insert_behind_last :
      (x : A) (l : List A) → All (λ y. key y ≤ key x) l → insert_behind x l ≡ l ++ x ∷ []
  unfolding insert_behind
  insert_behind_last x [] a = refl
  insert_behind_last x (y ∷ l) a =
      rw (le→ltb (key x) (key y) a.0) (ap (◌∷◌ y) (insert_behind_last x l a.1))

  All-insert_behind :
      (b : ℕ) (x : A) (l : List A)
      → b ≤ key x
      → All (λ y. b ≤ key y) l
      → All (λ y. b ≤ key y) (insert_behind x l)
  unfolding insert_behind
  All-insert_behind b x [] h a = (h, tt)
  All-insert_behind b x (y ∷ l) h a = elim (Bool-cases (ltb (key x) (key y))) [
    | inl e ↦ rw e (h, a)
    | inr e ↦ rw e (a.0, All-insert_behind b x l h a.1)
  ]

  IsSorted-insert_behind : (x : A) (l : List A) → IsSorted key l → IsSorted key (insert_behind x l)
  unfolding insert_behind
  IsSorted-insert_behind x [] s = (tt, tt)
  IsSorted-insert_behind x (y ∷ l) s = elim (Bool-cases (ltb (key x) (key y))) [
    | inl e ↦
        let lt = ltb→lt (key x) (key y) e in
        rw e (
          (
            omega arith,
            All-map (λ z. key y ≤ key z) (λ z. key x ≤ key z) l (λ z h. omega arith) s.0,
          ),
          s,
        )
    | inr e ↦ rw e (
      All-insert_behind (key y) x l (ltb→le (key x) (key y) e) s.0,
      IsSorted-insert_behind x l s.1,
    )
  ]

  having_none : (k : ℕ) (l : List A) → All (λ y. k < key y) l → having key k l ≡ []
  unfolding having
  having_none k [] a = refl
  having_none k (y ∷ l) a = rw (≢→== (key y) k (λ e. omega (arith, a.0, e))) (having_none k l a.1)

  -- An element moves behind larger ones.
  having_behind :
      (k : ℕ) (x : A) (l : List A)
      → All (λ y. key x < key y) l
      → having key k (x ∷ l) ≡ having key k (l ++ x ∷ [])
  unfolding having
  having_behind k x l a = elim (Bool-cases (key x == k)) [
    | inl e ↦
        let same = ==→≡ (key x) k e in
        let none_left : having key k l ≡ [] =
          having_none k l
            (All-map (λ y. key x < key y) (λ y. k < key y) l (λ y h. omega (arith, same)) a) in
        having_eq key k x l same
        ∙ ap (◌∷◌ x) none_left
        ∙ sym (having_eq key k x [] same)
        ∙ ap (λ t. t ++ having key k (x ∷ [])) (sym none_left)
        ∙ sym (having-append key k l (x ∷ []))
    | inr e ↦
        let ne = ==→≢ (key x) k e in
        having_ne key k x l ne
        ∙ sym (append-nil (having key k l))
        ∙ ap (λ t. having key k l ++ t) (sym (having_ne key k x [] ne))
        ∙ sym (having-append key k l (x ∷ []))
  ]

  having-insert_behind :
      (k : ℕ) (x : A) (l : List A)
      → IsSorted key l
      → having key k (insert_behind x l) ≡ having key k (l ++ x ∷ [])
  unfolding insert_behind having
  having-insert_behind k x [] s = refl
  having-insert_behind k x (y ∷ l) s = elim (Bool-cases (ltb (key x) (key y))) [
    | inr e ↦ rw e (ap (λ t. if key y == k then y ∷ t else t) (having-insert_behind k x l s.1))
    | inl e ↦
        let lt = ltb→lt (key x) (key y) e in
        rw e (
          having_behind k x (y ∷ l)
            (lt, All-map (λ z. key y ≤ key z) (λ z. key x < key z) l (λ z h. omega arith) s.0))
  ]

  -- One more element sorted stably.
  pub insert_behind-IsStableSort :
      (done l : List A) (x : A)
      → IsStableSort key done l
      → IsStableSort key (done ++ x ∷ []) (insert_behind x l)
  insert_behind-IsStableSort done l x s = record {
    sorted = IsSorted-insert_behind x l s.sorted;
    stable = λ k.
        having-insert_behind k x l s.sorted
        ∙ having-append key k l (x ∷ [])
        ∙ ap (λ t. t ++ having key k (x ∷ [])) (s.stable k)
        ∙ sym (having-append key k done (x ∷ []));
  }

  -- A sorted list with a last element.
  pub IsSorted-last :
      (l : List A) (y : A)
      → IsSorted key (l ++ y ∷ [])
      → All (λ z. key z ≤ key y) l × IsSorted key l
  IsSorted-last [] y s = (tt, tt)
  IsSorted-last (z ∷ l) y s =
      let (below, sorted) = IsSorted-last l y s.1 in
      ((last_of l y z s.0, below), (front_of l y z s.0, sorted))
    where
      last_of : (l : List A) (y z : A) → All (λ w. key z ≤ key w) (l ++ y ∷ []) → key z ≤ key y
      last_of [] y z a = a.0
      last_of (w ∷ l) y z a = last_of l y z a.1

      front_of :
          (l : List A) (y z : A)
          → All (λ w. key z ≤ key w) (l ++ y ∷ [])
          → All (λ w. key z ≤ key w) l
      front_of [] y z a = tt
      front_of (w ∷ l) y z a = (a.0, front_of l y z a.1)
