-- ===== src/Loops.antt =====
-- Counted loops: `for (i = begin; i < end; ++i)` over the rounds left.
use forest_sorting.Prelude.{
  ℕ, zero, suc, ◌+◌, ◌≤◌, ◌<◌, ◌≡◌, refl, ap, ◌∙◌, List, [], ◌∷◌, ◌++◌, length, get_or, arith,
  get_or-append_at, append_assoc, subst, length-append,
}

-- `rounds` rounds of the body, at `i`, `i + 1` and so on.
unfoldable pub for_range {ℓ} :
    {State : Type ℓ} (rounds i : ℕ) (body : ℕ → State → State) → State → State
for_range zero i body s = s
for_range (suc rounds) i body s = for_range rounds (i + 1) body (body i s)

-- A loop over the elements of a vector.
unfoldable pub for_each {ℓ κ} : {A : Type ℓ} {S : Type κ} → (A → S → S) → List A → S → S
for_each body [] s = s
for_each body (x ∷ xs) s = for_each body xs (body x s)

-- The invariant rule of a counted loop.
pub for_range_inv {ℓ κ} :
    {S : Type ℓ} (P : ℕ → S → Type κ) (body : ℕ → S → S) (n i j : ℕ)
    → i + n ≡ j
    → ((k : ℕ) (s : S) → i ≤ k → k < j → P k s → P (k + 1) (body k s))
    → (s : S) → P i s
    → P j (for_range n i body s)
unfolding for_range
for_range_inv P body zero i j e keep s h = let e' : i ≡ j = omega arith in rw (← e') h
for_range_inv P body (suc n) i j e keep s h =
    for_range_inv P body n (i + 1) j (omega arith) (λ k t p q r. keep k t (omega arith) q r)
      (body i s) (keep i s (omega arith) (omega arith) h)

-- The invariant rule of a loop over a vector, stated over the elements that are left.
pub for_each_inv {ℓ κ μ} :
    {A : Type ℓ} {S : Type κ} (P : List A → S → Type μ) (body : A → S → S)
    → ((x : A) (xs : List A) (s : S) → P (x ∷ xs) s → P xs (body x s))
    → (xs : List A) (s : S) → P xs s
    → P [] (for_each body xs s)
unfolding for_each
for_each_inv P body keep [] s h = h
for_each_inv P body keep (x ∷ xs) s h = for_each_inv P body keep xs (body x s) (keep x xs s h)

-- A counted loop that reads a slice of a vector is a loop over the slice.
pub for_range-slice {ℓ κ} :
    {A : Type ℓ} {S : Type κ} (body : A → S → S) (d : A) (pre mid post : List A) (n i : ℕ) (s : S)
    → n ≡ length mid
    → i ≡ length pre
    → for_range n i (λ k t. body (get_or (pre ++ (mid ++ post)) k d) t) s ≡ for_each body mid s
unfolding for_range for_each
for_range-slice body d pre [] post zero i s e f = refl
for_range-slice body d pre [] post (suc n) i s e f = absurd (omega arith)
for_range-slice body d pre (x ∷ mid) post zero i s e f = absurd (omega arith)
for_range-slice body d pre (x ∷ mid) post (suc n) i s e f =
    let whole = pre ++ x ∷ (mid ++ post) in
    ap (λ v. for_range n (i + 1) (λ k t. body (get_or whole k d) t) (body v s))
      (get_or-append_at pre x (mid ++ post) d i f)
    ∙ subst
        (λ l.
          for_range n (i + 1) (λ k t. body (get_or l k d) t) (body x s)
          ≡ for_each body mid (body x s))
        (append_assoc pre (x ∷ []) (mid ++ post))
        (for_range-slice body d (pre ++ x ∷ []) mid post n (i + 1) (body x s) (omega arith)
          (omega (arith, length-append pre (x ∷ []))))
