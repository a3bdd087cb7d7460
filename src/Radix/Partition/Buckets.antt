-- ===== src/Radix/Partition/Buckets.antt =====
-- Sorting each bucket by the digits that are left sorts by all of them.
use forest_sorting.Prelude.{
  ℕ, zero, suc, ◌+◌, ◌*◌, ◌^◌, ◌≤◌, ◌<◌, ◌≡◌, refl, inr, List, [], arith, All, All-of,
}
use native.Mathlib.Nat.{pow-zero, mul-le-mul_right, pow-suc}
use forest_sorting.Scatter.Blocks.{
  blocks, All-having_self, blocks-IsSorted, having-blocks, having_large, having-blocks_out,
}
use forest_sorting.Stable.{All-stable_sort, stable_sort, having, stable_sort-IsStableSort}
use forest_sorting.Stable.Unique.{IsStableSort-eq}
use forest_sorting.Stable.Compose.{major_minor-IsStableSort}
use native.Mathlib.Decide.{dec_lt}

-- Blocks of a major key, each sorted by the minor one.
module _ (major minor both : ℕ → ℕ) (M : ℕ) (pos : 0 < M) (minor_lt : (x : ℕ) → minor x < M)
    (splits : (x : ℕ) → both x ≡ major x * M + minor x) where
  bucket_sorted : List ℕ → ℕ → List ℕ
  bucket_sorted xs d = stable_sort minor (having major d xs)

  bucket_own : (xs : List ℕ) (d : ℕ) → All (λ x. major x ≡ d) (bucket_sorted xs d)
  unfolding bucket_sorted
  bucket_own xs d =
      All-stable_sort minor (λ x. major x ≡ d) (having major d xs) (All-having_self major d xs)

  pub blocks-stable_sort :
      (K : ℕ) (xs : List ℕ)
      → All (λ x. major x < K) xs
      → blocks (λ d. stable_sort minor (having major d xs)) 0 K ≡ stable_sort both xs
  unfolding bucket_sorted stable_sort
  blocks-stable_sort K xs small =
      let zs = blocks (λ d. stable_sort minor (having major d xs)) 0 K in
      let ys = stable_sort major xs in
      let stable = stable_sort-IsStableSort major xs in
      IsStableSort-eq both xs zs (
        major_minor-IsStableSort major minor both M pos minor_lt splits xs ys zs stable
          (blocks-IsSorted major (bucket_sorted xs) (bucket_own xs) 0 K)
          (λ a. elim (dec_lt a K) [
            | yes h ↦
                rw
                  (
                    stable.stable a,
                    having-blocks major (bucket_sorted xs) (bucket_own xs) a 0 K (omega arith)
                        (omega arith),
                  )
                  (stable_sort-IsStableSort minor (having major a xs))
            | no h ↦
                rw
                  (
                    stable.stable a,
                    having_large major a K xs (omega arith) small,
                    having-blocks_out major (bucket_sorted xs) (bucket_own xs) a 0 K
                        (inr (omega arith)),
                  )
                  (stable_sort-IsStableSort minor [])
          ]))

-- The number that the digits from the `j`-th on make, `n` of them, the most significant first.
unfoldable pub suffix_value : (ℕ → ℕ → ℕ) → ℕ → ℕ → ℕ → ℕ
suffix_value digit_for_index j zero x = 0
suffix_value digit_for_index j (suc n) x =
    digit_for_index x j * 256 ^ n + suffix_value digit_for_index (j + 1) n x

module _ (digit_for_index : ℕ → ℕ → ℕ) (small : (x j : ℕ) → digit_for_index x j < 256) where
  pub suffix_value_lt : (j n x : ℕ) → suffix_value digit_for_index j n x < 256 ^ n
  unfolding suffix_value
  suffix_value_lt j zero x = omega (arith, pow-zero 256)
  suffix_value_lt j (suc n) x =
      let rest = suffix_value_lt (j + 1) n x in
      let digit : digit_for_index x j * 256 ^ n ≤ 255 * 256 ^ n =
        mul-le-mul_right (256 ^ n) (omega (arith, small x j)) in
      omega (arith, rest, digit, pow-suc 256 n)

  -- One digit and then the others.
  pub digit_buckets :
      (j n : ℕ) (xs : List ℕ)
      → blocks
          (λ d.
            stable_sort
              (suffix_value digit_for_index (j + 1) n)
              (having (λ x. digit_for_index x j) d xs))
          0
          256
        ≡ stable_sort (suffix_value digit_for_index j (suc n)) xs
  unfolding suffix_value
  digit_buckets j n xs =
      blocks-stable_sort (λ x. digit_for_index x j) (suffix_value digit_for_index (j + 1) n)
        (suffix_value digit_for_index j (suc n)) (256 ^ n)
        (omega (arith, suffix_value_lt (j + 1) n 0)) (λ x. suffix_value_lt (j + 1) n x) (λ x. refl)
        256 xs (All-of (λ x. digit_for_index x j < 256) xs (λ x. small x j))
