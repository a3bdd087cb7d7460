-- ===== src/Grouping/Dense/Sorts.antt =====
-- The dense histogram sorts stably by depth.
use forest_sorting.Prelude.{
  ℕ, zero, suc, ◌+◌, ◌-◌, ◌≤◌, ◌<◌, ◌≡◌, refl, sym, ap, ◌∙◌, inl, inr, List, [], ◌∷◌, append-nil,
  arith, ◌==◌, Bool-cases, ==→≡, ==→≢, length, get_or, set, replicate, All, length-set,
  length-replicate, get_or-set_self, get_or-set_ne, get_or-replicate, All-map,
}
use forest_sorting.Grouping.Dense.{
  increment, count_depths, prefix_sums, distribute, group_order_by_depth_dense_with_consumer,
  DenseState,
}
use forest_sorting.Loops.{for_each, for_range_inv}
use forest_sorting.Scatter.{scatter}
use forest_sorting.Stable.{having, stable_sort}
use forest_sorting.Scatter.Sorts.{digit_count, scatter-stable_sort}
use forest_sorting.Scatter.Blocks.{total, total_cong, total_last}
use native.Mathlib.Decide.{dec_lt}
use forest_sorting.Scatter.Increment.{
  length-increment, get_or-increment_ne, increment-update, get_or-increment_self,
}

-- The depth of a node by its index.
abbrev pub depth_of : List ℕ → ℕ → ℕ
depth_of depths i = get_or depths i 0

module _ (depths : List ℕ) where
  -- What the counting loop leaves in each slot.
  count_depths_lem :
      (xs starts : List ℕ)
      → All (λ i. depth_of depths i + 1 < length starts) xs
      → (length (count_depths depths xs starts) ≡ length starts)
        × (get_or (count_depths depths xs starts) 0 0 ≡ get_or starts 0 0)
        × ((e : ℕ)
            → get_or (count_depths depths xs starts) (suc e) 0
              ≡ get_or starts (suc e) 0 + digit_count (depth_of depths) xs e)
  unfolding count_depths for_each having
  count_depths_lem [] starts small = (refl, refl, λ e. omega arith)
  count_depths_lem (x ∷ xs) starts small =
      let slot = depth_of depths x + 1 in
      let (len, first, others) = count_depths_lem xs (increment starts slot) (
        All-map (λ i. depth_of depths i + 1 < length starts)
          (λ i. depth_of depths i + 1 < length (increment starts slot)) xs
          (λ i h. rw (length-increment starts slot) h) small.1) in
      (
        len ∙ length-increment starts slot,
        first ∙ get_or-increment_ne starts slot 0 (omega arith),
        λ e. elim (Bool-cases (depth_of depths x == e)) [
          | inl same ↦
              let at : slot ≡ suc e = omega (arith, ==→≡ (depth_of depths x) e same) in
              rw same (
                omega (
                  arith,
                  others e,
                  ap (λ j. get_or (increment starts slot) j 0) at,
                  ap (λ j. get_or starts j 0) at,
                  get_or-increment_self starts slot small.0,
                ))
          | inr other ↦ rw other (
              omega (
                arith,
                others e,
                get_or-increment_ne starts slot (suc e)
                    (omega (arith, ==→≢ (depth_of depths x) e other)),
              ))
        ],
      )

  -- The distribution loop is `scatter` by depth.
  distribute-scatter :
      (xs scratch offsets : List ℕ)
      → All (λ i. depth_of depths i < length offsets) xs
      → (distribute depths xs (scratch, offsets)).0
        ≡ scatter (depth_of depths) xs scratch (λ e. get_or offsets e 0)
  unfolding distribute for_each scatter
  distribute-scatter [] scratch offsets small = refl
  distribute-scatter (x ∷ xs) scratch offsets small =
      let d = depth_of depths x in
      distribute-scatter xs (set scratch (get_or offsets d 0) x) (increment offsets d) (
        All-map (λ i. depth_of depths i < length offsets)
          (λ i. depth_of depths i < length (increment offsets d)) xs
          (λ i h. rw (length-increment offsets d) h) small.1)
      ∙ ap (scatter (depth_of depths) xs (set scratch (get_or offsets d 0) x))
          (increment-update offsets d small.0)

-- The running sums over the slots below `k` are done.
record IsSummed (starts : List ℕ) (k : ℕ) (counts : List ℕ) : Type 0 where
  len : length counts ≡ length starts
  summed : (e : ℕ) → e < k → get_or counts e 0 ≡ total (λ j. get_or starts j 0) 0 (suc e)
  kept : (e : ℕ) → k ≤ e → get_or counts e 0 ≡ get_or starts e 0

total_shift : (c : ℕ → ℕ) (lo n : ℕ) → total (λ j. c (suc j)) lo n ≡ total c (suc lo) n
total_shift c lo zero = refl
total_shift c lo (suc n) = omega (arith, total_shift c (suc lo) n)

module _ (starts : List ℕ) where
  -- One round of the running sum.
  add_previous : ℕ → List ℕ → List ℕ
  add_previous k counts = set counts k (get_or counts k 0 + get_or counts (k - 1) 0)

  IsSummed-add_previous :
      (k : ℕ) (counts : List ℕ)
      → 1 ≤ k
      → k < length starts
      → IsSummed starts k counts
      → IsSummed starts (k + 1) (add_previous k counts)
  unfolding add_previous
  IsSummed-add_previous k counts lo hi h =
      let v = get_or counts k 0 + get_or counts (k - 1) 0 in
      record {
        len = length-set counts k v ∙ h.len;
        summed = λ e p. elim (dec_lt e k) [
          | yes q ↦ get_or-set_ne counts k e v 0 (omega arith) ∙ h.summed e q
          | no q ↦
              let same : k ≡ e = omega arith in
              rw (← same) (
                get_or-set_self counts k v 0 (omega (arith, h.len))
                ∙ omega (
                  arith,
                  h.kept k (omega arith),
                  h.summed (k - 1) (omega arith),
                  ap (total (λ j. get_or starts j 0) 0) (pred_lem k lo),
                  total_last (λ j. get_or starts j 0) 0 k k (omega arith),
                ))
        ];
        kept = λ e p. get_or-set_ne counts k e v 0 (omega arith) ∙ h.kept e (omega arith);
      }
    where
      pred_lem : (k : ℕ) → 1 ≤ k → suc (k - 1) ≡ k
      pred_lem k h = omega arith

  prefix_sums_lem : 0 < length starts → IsSummed starts (length starts) (prefix_sums starts)
  unfolding prefix_sums add_previous
  prefix_sums_lem pos =
      for_range_inv (IsSummed starts) add_previous (length starts - 1) 1 (length starts)
        (omega arith) IsSummed-add_previous starts
        (record {
          len = refl;
          summed = λ e p. let e' : e ≡ 0 = omega arith in rw e' (omega arith);
          kept = λ e p. refl;
        })

module _ (depths : List ℕ) (m : ℕ) where
  starts_of : List ℕ → List ℕ
  starts_of order = prefix_sums (count_depths depths order (replicate (m + 2) 0))

  -- After both loops, slot `e` holds the number of nodes of a lower depth.
  starts_of_lem :
      (order : List ℕ)
      → All (λ i. depth_of depths i ≤ m) order
      → (length (starts_of order) ≡ m + 2)
        × ((e : ℕ)
            → e ≤ m + 1
            → get_or (starts_of order) e 0 ≡ total (digit_count (depth_of depths) order) 0 e)
  unfolding starts_of
  starts_of_lem order small =
      let empty : length (replicate {A = ℕ} (m + 2) 0) ≡ m + 2 = length-replicate (m + 2) 0 in
      let (len, first, slots) = count_depths_lem depths order (replicate (m + 2) 0) (
        All-map (λ i. depth_of depths i ≤ m)
          (λ i. depth_of depths i + 1 < length (replicate {A = ℕ} (m + 2) 0)) order
          (λ i h. omega (arith, empty)) small) in
      let counts = count_depths depths order (replicate (m + 2) 0) in
      let s = prefix_sums_lem counts (omega (arith, len, empty)) in
      (
        s.len ∙ len ∙ empty,
        λ e h.
            s.summed e (omega (arith, len, empty))
            ∙ omega (
              arith,
              first,
              get_or-replicate {A = ℕ} (m + 2) 0 0,
              sym (total_shift (λ j. get_or counts j 0) 0 e),
              total_cong (λ j. get_or counts (suc j) 0) (digit_count (depth_of depths) order) 0 e
                  (λ j p q. slots j ∙ omega (arith, get_or-replicate {A = ℕ} (m + 2) (suc j) 0)),
            ),
      )

-- For depths up to the given maximum the dense histogram leaves in `order` the stable sort of the
-- permutation by depth, whatever the scratch vector of the same size held.
pub dense-stable_sort :
    (s : DenseState) (depths : List ℕ) (m : ℕ)
    → length s.scratch ≡ length s.order
    → All (λ i. depth_of depths i ≤ m) s.order
    → (group_order_by_depth_dense_with_consumer s depths m).0.order
      ≡ stable_sort (depth_of depths) s.order
unfolding group_order_by_depth_dense_with_consumer starts_of
dense-stable_sort s depths m same small =
    let (len, slots) = starts_of_lem depths m s.order small in
    distribute-scatter depths s.order s.scratch (starts_of depths m s.order) (
      All-map (λ i. depth_of depths i ≤ m)
        (λ i. depth_of depths i < length (starts_of depths m s.order)) s.order
        (λ i h. omega (arith, len)) small)
    ∙ ap (λ l. scatter (depth_of depths) s.order l (λ e. get_or (starts_of depths m s.order) e 0))
        (sym (append-nil s.scratch))
    ∙ scatter-stable_sort (depth_of depths) (m + 1) [] [] s.order s.scratch
        (λ e. get_or (starts_of depths m s.order) e 0)
        (All-map (λ i. depth_of depths i ≤ m) (λ i. depth_of depths i < m + 1) s.order
          (λ i h. omega arith) small)
        same (λ d h p. omega (arith, slots d (omega arith)))
    ∙ append-nil (stable_sort (depth_of depths) s.order)
