-- ===== src/Scatter/Sorts.antt =====
-- Distribution from the bucket starts is the stable sort by the digit.
use forest_sorting.Prelude.{
  ℕ, suc, ◌+◌, ◌<◌, ◌≡◌, ◌≢◌, refl, sym, ap, ap₂, ◌∙◌, List, [], ◌∷◌, ◌++◌, length, set, arith,
  append_assoc, length-append, set-append_at, All, inr, Bool-cases, ◌==◌, inl, ==→≡, ==→≢, ◌-◌,
  ≢→==,
}
use native.Mathlib.Decide.{dec_lt}
use forest_sorting.Scatter.{update, update_self, update_ne, scatter}
use forest_sorting.Scatter.Blocks.{
  blocks, blocks_cong, blocks_split, blocks-IsSorted, having-blocks, having-blocks_out,
  having_large, All-having_self, length-blocks, total, blocks-of_length,
}
use forest_sorting.Stable.{
  having, IsStableSort, stable_sort, having_eq, length-stable_sort, having_ne,
}
use forest_sorting.Stable.Unique.{IsStableSort-eq}

-- How many elements have the digit `d`.
abbrev pub digit_count {ℓ} : {A : Type ℓ} → (A → ℕ) → List A → ℕ → ℕ
digit_count digit xs d = length (having digit d xs)

splice {ℓ} :
    {A : Type ℓ} (pre b d ts c post : List A) (y : A)
    → pre ++ ((b ++ ((d ++ (y ∷ ts)) ++ c)) ++ post)
      ≡ (pre ++ (b ++ d)) ++ (y ∷ (ts ++ (c ++ post)))
splice pre b d ts c post y = simp append_assoc

module _ {ℓ} {A : Type ℓ} (digit : A → ℕ) (K : ℕ) where
  digit_count_self :
      (x : A) (xs : List A)
      → digit_count digit (x ∷ xs) (digit x) ≡ suc (digit_count digit xs (digit x))
  digit_count_self x xs = ap length (having_eq digit (digit x) x xs refl)

  -- The buckets in order are the stable sort.
  buckets-IsStableSort :
      (xs : List A)
      → All (λ x. digit x < K) xs
      → IsStableSort digit xs (blocks (λ d. having digit d xs) 0 K)
  buckets-IsStableSort xs small = record {
    sorted = blocks-IsSorted digit (λ d. having digit d xs) (λ d. All-having_self digit d xs) 0 K;
    stable = λ k. elim (dec_lt k K) [
      | yes h ↦
          having-blocks digit (λ d. having digit d xs) (λ d. All-having_self digit d xs) k 0 K
            (omega arith) (omega arith)
      | no h ↦
          having-blocks_out digit (λ d. having digit d xs) (λ d. All-having_self digit d xs) k 0 K
            (inr (omega arith))
          ∙ sym (having_large digit k K xs (omega arith) small)
    ];
  }

  pub buckets-eq_stable_sort :
      (xs : List A)
      → All (λ x. digit x < K) xs
      → blocks (λ d. having digit d xs) 0 K ≡ stable_sort digit xs
  buckets-eq_stable_sort xs small =
      IsStableSort-eq digit xs (blocks (λ d. having digit d xs) 0 K) (buckets-IsStableSort xs small)

  -- `done` holds what each bucket has got, `todo` the slots that it will get.
  record IsFilling (pre post : List A) (done todo : ℕ → List A) (xs out : List A) (next : ℕ → ℕ)
      : Type ℓ where
    layout : out ≡ pre ++ (blocks (λ d. done d ++ todo d) 0 K ++ post)
    room : (d : ℕ) → d < K → length (todo d) ≡ digit_count digit xs d
    slots :
        (d : ℕ)
        → d < K
        → 0 < digit_count digit xs d
        → next d ≡ length pre + length (blocks (λ e. done e ++ todo e) 0 d) + length (done d)

  -- One element: it takes the first free slot of its bucket.
  place :
      (pre post : List A) (done todo : ℕ → List A) (d k : ℕ) (x t : A) (ts : List A) (i : ℕ)
      → K ≡ d + suc k
      → todo d ≡ t ∷ ts
      → i ≡ length pre + length (blocks (λ e. done e ++ todo e) 0 d) + length (done d)
      → set (pre ++ (blocks (λ e. done e ++ todo e) 0 K ++ post)) i x
        ≡ pre
          ++ (blocks (λ e. update done d (done d ++ (x ∷ [])) e ++ update todo d ts e) 0 K ++ post)
  place pre post done todo d k x t ts i hK ht hi =
      let F : ℕ → List A = λ e. done e ++ todo e in
      let G : ℕ → List A = λ e. update done d (done d ++ (x ∷ [])) e ++ update todo d ts e in
      let same : (e : ℕ) → e ≢ d → F e ≡ G e = λ e ne.
        sym (ap₂ ◌++◌ (update_ne done d e (done d ++ (x ∷ [])) ne) (update_ne todo d e ts ne)) in
      let front = blocks_cong F G 0 d (λ e p q. same e (omega arith)) in
      let back = blocks_cong F G (suc d) k (λ e p q. same e (omega arith)) in
      let at : G d ≡ (done d ++ (x ∷ [])) ++ ts =
        ap₂ ◌++◌ (update_self done d (done d ++ (x ∷ []))) (update_self todo d ts) in
      let before : blocks F 0 K ≡ blocks F 0 d ++ ((done d ++ (t ∷ ts)) ++ blocks F (suc d) k) =
        blocks_split F 0 d k K d hK (omega arith)
        ∙ ap (λ l. blocks F 0 d ++ ((done d ++ l) ++ blocks F (suc d) k)) ht in
      let after : blocks G 0 K ≡ blocks F 0 d ++ ((done d ++ (x ∷ ts)) ++ blocks F (suc d) k) =
        blocks_split G 0 d k K d hK (omega arith)
        ∙ ap₂ ◌++◌ (sym front) (ap₂ ◌++◌ (at ∙ append_assoc (done d) (x ∷ []) ts) (sym back)) in
      ap (λ l. set (pre ++ (l ++ post)) i x) before
      ∙ ap (λ l. set l i x) (splice pre (blocks F 0 d) (done d) ts (blocks F (suc d) k) post t)
      ∙ set-append_at (pre ++ (blocks F 0 d ++ done d)) t (ts ++ (blocks F (suc d) k ++ post)) x i (
          omega (
            arith,
            hi,
            length-append pre (blocks F 0 d ++ done d),
            length-append (blocks F 0 d) (done d),
          ))
      ∙ sym (splice pre (blocks F 0 d) (done d) ts (blocks F (suc d) k) post x)
      ∙ ap (λ l. pre ++ (l ++ post)) (sym after)

  -- A vector that is not empty has a head.
  uncons :
      (l : List A) (n : ℕ)
      → length l ≡ suc n
      → (t : A) × (ts : List A) × (l ≡ t ∷ ts) × (length ts ≡ n)
  uncons [] n h = absurd (omega arith)
  uncons (t ∷ ts) n h = (t, ts, refl, omega arith)

  nil_of_length : (l : List A) → length l ≡ 0 → l ≡ []
  nil_of_length [] h = refl
  nil_of_length (x ∷ l) h = absurd (omega arith)

  length-blocks_cong :
      (f g : ℕ → List A) (n : ℕ)
      → ((e : ℕ) → length (f e) ≡ length (g e))
      → length (blocks f 0 n) ≡ length (blocks g 0 n)
  length-blocks_cong f g n h =
      length-blocks f (λ e. length (g e)) 0 n (λ e p q. h e)
      ∙ sym (length-blocks g (λ e. length (g e)) 0 n (λ e p q. refl))

  module _ (pre post : List A) where
    -- The filling after one element.
    IsFilling-place :
        (done todo : ℕ → List A) (x : A) (xs out : List A) (next : ℕ → ℕ) (t : A) (ts : List A)
        → digit x < K
        → todo (digit x) ≡ t ∷ ts
        → length ts ≡ digit_count digit xs (digit x)
        → IsFilling pre post done todo (x ∷ xs) out next
        → let d = digit x in
          IsFilling pre post
            (update done d (done d ++ (x ∷ [])))
            (update todo d ts)
            xs
            (set out (next d) x)
            (update next d (next d + 1))
    IsFilling-place done todo x xs out next t ts small ht hts i = record {
      layout =
          ap (λ l. set l (next d) x) i.layout
          ∙ place pre post done todo d (K - suc d) x t ts (next d) (omega arith) ht
              (i.slots d small (omega (arith, digit_count_self x xs)));
      room = λ e he. elim (Bool-cases (e == d)) [
        | inl same ↦ rw (==→≡ e d same, update_self todo d ts) hts
        | inr other ↦
            rw (update_ne todo d e ts (==→≢ e d other))
              (i.room e he ∙ ap length (having_ne digit e x xs (λ q. ==→≢ e d other (sym q))))
      ];
      slots = λ e he p. elim (Bool-cases (e == d)) [
        | inl same ↦
            rw
              (
                ==→≡ e d same,
                update_self next d (next d + 1),
                update_self done d (done d ++ (x ∷ [])),
              )
              (omega (
                arith,
                i.slots d small (omega (arith, digit_count_self x xs)),
                length-blocks_cong F G d sizes,
                length-append (done d) (x ∷ []),
              ))
        | inr other ↦
            let off = ==→≢ e d other in
            let kept = ap length (having_ne digit e x xs (λ q. off (sym q))) in
            rw (update_ne next d e (next d + 1) off, update_ne done d e (done d ++ (x ∷ [])) off)
              (omega (arith, i.slots e he (omega (arith, kept)), length-blocks_cong F G e sizes))
      ];
    }
      where
        d : ℕ
        d = digit x

        F : ℕ → List A
        F e = done e ++ todo e

        G : ℕ → List A
        G e = update done d (done d ++ (x ∷ [])) e ++ update todo d ts e

        sizes : (e : ℕ) → length (F e) ≡ length (G e)
        sizes e = elim (Bool-cases (e == d)) [
          | inl same ↦
              rw (==→≡ e d same, update_self done d (done d ++ (x ∷ [])), update_self todo d ts, ht)
                (omega (
                  arith,
                  length-append (done d) (t ∷ ts),
                  length-append (done d ++ (x ∷ [])) ts,
                  length-append (done d) (x ∷ []),
                ))
          | inr other ↦
              let off = ==→≢ e d other in
              rw (update_ne done d e (done d ++ (x ∷ [])) off, update_ne todo d e ts off)
        ]

    scatter-IsFilling :
        (xs out : List A) (next : ℕ → ℕ) (done todo : ℕ → List A)
        → All (λ x. digit x < K) xs
        → IsFilling pre post done todo xs out next
        → scatter digit xs out next ≡ pre ++ (blocks (λ d. done d ++ having digit d xs) 0 K ++ post)
    unfolding scatter having
    scatter-IsFilling [] out next done todo small i =
        i.layout
        ∙ ap (λ l. pre ++ (l ++ post))
            (blocks_cong (λ d. done d ++ todo d) (λ d. done d ++ []) 0 K
              (λ e p q. ap (◌++◌ (done e)) (nil_of_length (todo e) (i.room e (omega arith)))))
    scatter-IsFilling (x ∷ xs) out next done todo small i =
        let d = digit x in
        let (t, ts, ht, hts) =
          uncons (todo d) (digit_count digit xs d) (i.room d small.0 ∙ digit_count_self x xs) in
        scatter-IsFilling xs (set out (next d) x) (update next d (next d + 1))
          (update done d (done d ++ (x ∷ []))) (update todo d ts) small.1
          (IsFilling-place done todo x xs out next t ts small.0 ht hts i)
        ∙ ap (λ l. pre ++ (l ++ post))
            (blocks_cong (λ e. update done d (done d ++ (x ∷ [])) e ++ having digit e xs)
              (λ e. done e ++ having digit e (x ∷ xs)) 0 K
              (λ e p q. elim (Bool-cases (e == d)) [
                | inl same ↦
                    let at = ==→≡ e d same in
                    ap (λ j. update done d (done d ++ (x ∷ [])) j ++ having digit j xs) at
                    ∙ ap (λ l. l ++ having digit d xs) (update_self done d (done d ++ (x ∷ [])))
                    ∙ append_assoc (done d) (x ∷ []) (having digit d xs)
                    ∙ ap (λ j. done j ++ (x ∷ having digit j xs)) (sym at)
                    ∙ ap (◌++◌ (done e)) (sym (having_eq digit e x xs (sym at)))
                | inr other ↦
                    let off = ==→≢ e d other in
                    rw (update_ne done d e (done d ++ (x ∷ [])) off, ≢→== d e (λ q. off (sym q)))
              ]))

    -- Started from the bucket starts, in a slice as long as the input, the pass leaves there the
    -- stable sort by the digit, and changes nothing else.
    pub scatter-stable_sort :
        (xs slice : List A) (next : ℕ → ℕ)
        → All (λ x. digit x < K) xs
        → length slice ≡ length xs
        → ((d : ℕ)
            → d < K
            → 0 < digit_count digit xs d
            → next d ≡ length pre + total (digit_count digit xs) 0 d)
        → scatter digit xs (pre ++ (slice ++ post)) next ≡ pre ++ (stable_sort digit xs ++ post)
    scatter-stable_sort xs slice next small same starts =
        let sorted = buckets-eq_stable_sort xs small in
        let sum : length (blocks (λ d. having digit d xs) 0 K) ≡ total (digit_count digit xs) 0 K =
          length-blocks (λ d. having digit d xs) (digit_count digit xs) 0 K (λ e p q. refl) in
        let (f, sizes, whole) =
          blocks-of_length (digit_count digit xs) 0 K slice
            (omega (arith, sum, ap length sorted, length-stable_sort digit xs)) in
        scatter-IsFilling xs (pre ++ (slice ++ post)) next (λ d. []) f small
          (record {
            layout = ap (λ l. pre ++ (l ++ post)) (sym whole);
            room = λ d h. sizes d (omega arith) (omega arith);
            slots = λ d h p. omega (
              arith,
              starts d h p,
              length-blocks f (digit_count digit xs) 0 d
                  (λ e q r. sizes e (omega arith) (omega arith)),
            );
          })
        ∙ ap (λ l. pre ++ (l ++ post)) sorted
