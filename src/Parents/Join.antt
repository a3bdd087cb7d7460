-- ===== src/Parents/Join.antt =====
-- The merge join of two sorted permutations against a linear lookup.
use forest_sorting.Prelude.{
  ℕ, zero, suc, ◌+◌, ◌-◌, ◌≤◌, ◌<◌, ◌≡◌, refl, sym, ap, ap₂, subst, ◌∙◌, inl, inr, Bool, ◌&&◌,
  Option, none, some, List, [], ◌∷◌, ◌++◌, append_assoc, arith, ltb, ◌==◌, if◌then◌else◌,
  Bool-cases, ltb→lt, ltb→le, ==→≢, ≢→==, length, get_or, All, length-append, get_or-append_at,
  All-of, All-append, All-map,
}
use forest_sorting.Parents.{advance_ids, join_from, merge_join_sorted_permutations}
use forest_sorting.Ids.Compare.{Sign, is_negative, is_zero}
use forest_sorting.Ids.Compare.Order.{sign_of}
use forest_sorting.Stable.{IsSorted}

-- The first identifier with the key of the query.
abbrev pub lookup : (ℕ → ℕ) → List ℕ → ℕ → Option ℕ
lookup key [] k = none
lookup key (i ∷ ids) k = if key i == k then some i else lookup key ids k

module _ (key : ℕ → ℕ) where
  lookup_below :
      (pre post : List ℕ) (k : ℕ)
      → All (λ i. key i < k) pre
      → lookup key (pre ++ post) k ≡ lookup key post k
  lookup_below [] post k a = refl
  lookup_below (i ∷ pre) post k a =
      rw (≢→== (key i) k (λ e. omega (arith, a.0))) (lookup_below pre post k a.1)

  lookup_above : (ids : List ℕ) (k : ℕ) → All (λ i. k < key i) ids → lookup key ids k ≡ none
  lookup_above [] k a = refl
  lookup_above (i ∷ ids) k a =
      rw (≢→== (key i) k (λ e. omega (arith, a.0))) (lookup_above ids k a.1)

module _ {State : Type 0} (set_parent : ℕ → ℕ → State → State) (key query_key : ℕ → ℕ) where
  -- Each query looks its identifier up.
  abbrev pub join_by_lookup : List ℕ → List ℕ → State → State
  join_by_lookup ids [] s = s
  join_by_lookup ids (q ∷ queries) s =
      let s' : State = elim (lookup key ids (query_key q)) [
        | none ↦ s
        | some i ↦ set_parent q i s
      ] in
      join_by_lookup ids queries s'

test_sign :
    (a b o i : ℕ) (further : ℕ × Option ℕ)
    → (if is_negative (sign_of a b)
        then further
        else (o, if is_zero (sign_of a b) && (a == b) then some i else none))
      ≡ (if ltb a b then further else (o, if a == b then some i else none))
test_sign a b o i further = ground arith

module _ {State : Type 0} (compare : ℕ → ℕ → Sign) (equal : ℕ → ℕ → Bool)
    (set_parent : ℕ → ℕ → State → State) (key query_key : ℕ → ℕ)
    (compares : (i q : ℕ) → compare i q ≡ sign_of (key i) (query_key q))
    (equals : (i q : ℕ) → equal i q ≡ (key i == query_key q)) where
  -- The loop stops behind the identifiers that are below the query, with the lookup's result.
  record Advanced (ids : List ℕ) (q : ℕ) (start : ℕ) (post : List ℕ) (result : ℕ × Option ℕ)
      : Type 0 where
    passed : List ℕ
    left : List ℕ
    splits : post ≡ passed ++ left
    stops : result ≡ (start + length passed, lookup key post (query_key q))
    below : All (λ i. key i < query_key q) passed

  advance_step :
      (ids : List ℕ) (q i r o : ℕ)
      → get_or ids o 0 ≡ i
      → advance_ids compare equal set_parent ids q (suc r) o ≡ (
          if ltb (key i) (query_key q)
          then advance_ids compare equal set_parent ids q r (o + 1)
          else (o, if key i == query_key q then some i else none))
  unfolding advance_ids
  advance_step ids q i r o e =
      rw (e, compares i q, equals i q)
        (test_sign (key i) (query_key q) o i (advance_ids compare equal set_parent ids q r (o + 1)))

  skipped :
      (i : ℕ) (post : List ℕ) (q : ℕ)
      → key i < query_key q
      → lookup key (i ∷ post) (query_key q) ≡ lookup key post (query_key q)
  skipped i post q h = rw (≢→== (key i) (query_key q) (λ e. omega (arith, e))) refl

  -- Where the loop stops, the first identifier decides.
  decided :
      (i : ℕ) (post : List ℕ) (q : ℕ)
      → query_key q ≤ key i
      → All (λ j. key i ≤ key j) post
      → (if key i == query_key q then some i else none) ≡ lookup key (i ∷ post) (query_key q)
  decided i post q h a = elim (Bool-cases (key i == query_key q)) [
    | inl e ↦ rw e refl
    | inr e ↦
        let ne = ==→≢ (key i) (query_key q) e in
        rw e (
          sym (
            lookup_above key post (query_key q) (
              All-map (λ j. key i ≤ key j) (λ j. query_key q < key j) post (λ j p. omega arith) a)))
  ]

  advance_ids_lem :
      (ids pre post : List ℕ) (q r o : ℕ)
      → ids ≡ pre ++ post
      → r ≡ length post
      → o ≡ length pre
      → IsSorted key post
      → Advanced ids q o post (advance_ids compare equal set_parent ids q r o)
  unfolding advance_ids
  advance_ids_lem ids pre [] q zero o e f g h = record {
    passed = [];
    left = [];
    splits = refl;
    stops = ap (λ z. (z, none)) (omega arith);
    below = tt;
  }
  advance_ids_lem ids pre [] q (suc r) o e f g h = absurd (omega arith)
  advance_ids_lem ids pre (i ∷ post) q zero o e f g h = absurd (omega arith)
  advance_ids_lem ids pre (i ∷ post) q (suc r) o e f g h =
      let here : get_or ids o 0 ≡ i = rw e (get_or-append_at pre i post 0 o g) in
      elim (Bool-cases (ltb (key i) (query_key q))) [
        | inl less ↦
            let lt = ltb→lt (key i) (query_key q) less in
            let further =
              advance_ids_lem ids (pre ++ i ∷ []) post q r (o + 1)
                (e ∙ sym (append_assoc pre (i ∷ []) post)) (omega arith)
                (omega (arith, length-append pre (i ∷ []))) h.1 in
            record {
              passed = i ∷ further.passed;
              left = further.left;
              splits = ap (◌∷◌ i) further.splits;
              stops =
                  advance_step ids q i r o here
                  ∙ rw less (
                      further.stops
                      ∙ ap₂ (λ a b. (a, b)) (omega arith) (sym (skipped i post q lt)));
              below = (lt, further.below);
            }
        | inr more ↦ record {
          passed = [];
          left = i ∷ post;
          splits = refl;
          stops =
              advance_step ids q i r o here
              ∙ rw more (
                  ap₂ (λ a b. (a, b)) (omega arith)
                    (decided i post q (ltb→le (key i) (query_key q) more) h.0));
          below = tt;
        }
      ]

  IsSorted-tail : (pre post : List ℕ) → IsSorted key (pre ++ post) → IsSorted key post
  IsSorted-tail [] post h = h
  IsSorted-tail (i ∷ pre) post h = IsSorted-tail pre post h.1

  join_from_lem :
      (queries ids pre post : List ℕ) (o b : ℕ) (s : State)
      → ids ≡ pre ++ post
      → o ≡ length pre
      → IsSorted key post
      → IsSorted query_key queries
      → All (λ i. key i < b) pre
      → All (λ q. b ≤ query_key q) queries
      → join_from compare equal set_parent ids queries o s
        ≡ join_by_lookup set_parent key query_key ids queries s
  unfolding join_from
  join_from_lem [] ids pre post o b s e g h k below above = refl
  join_from_lem (q ∷ queries) ids pre post o b s e g h k below above =
      let passed_before : All (λ i. key i < query_key q) pre =
        All-map (λ i. key i < b) (λ i. key i < query_key q) pre (λ i p. omega (arith, above.0))
          below in
      let a =
        advance_ids_lem ids pre post q (length ids - o) o e
          (rw e (omega (arith, length-append pre post))) g h in
      let found : lookup key ids (query_key q) ≡ lookup key post (query_key q) =
        rw e (lookup_below key pre post (query_key q) passed_before) in
      rw (a.stops, found)
        (join_from_lem queries ids (pre ++ a.passed) a.left (o + length a.passed) (query_key q)
          (elim (lookup key post (query_key q)) [ none ↦ s | some i ↦ set_parent q i s ])
          (e ∙ ap (◌++◌ pre) a.splits ∙ sym (append_assoc pre a.passed a.left))
          (omega (arith, length-append pre a.passed))
          (IsSorted-tail a.passed a.left (subst (IsSorted key) a.splits h)) k.1
          (All-append (λ i. key i < query_key q) pre a.passed passed_before a.below) k.0)

  -- On permutations that are sorted by their keys, and with comparisons that are those of the keys,
  -- the merge join does what looking every query up by itself does.
  pub merge_join_sorted_permutations_lem :
      (ids queries : List ℕ) (s : State)
      → IsSorted key ids
      → IsSorted query_key queries
      → merge_join_sorted_permutations compare equal set_parent ids queries s
        ≡ join_by_lookup set_parent key query_key ids queries s
  unfolding merge_join_sorted_permutations
  merge_join_sorted_permutations_lem ids queries s h k =
      join_from_lem queries ids [] ids 0 0 s refl refl h k tt
        (All-of (λ q. 0 ≤ query_key q) queries (λ q. omega arith))
