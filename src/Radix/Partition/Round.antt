-- ===== src/Radix/Partition/Round.antt =====
-- One range partitioned, with any stack below it.
use forest_sorting.Prelude.{
  ℕ, ◌+◌, ◌<◌, ◌≡◌, refl, sym, ap, ap₂, subst, inl, inr, List, [], ◌++◌, ◌==◌, Bool-cases, length,
  All,
}
use forest_sorting.Radix.Counts.{Counter, RadixRange}
use forest_sorting.Radix.Partition.{
  RangeClient, MsdStore, partition_single_range, distribute_range, note_range, order_client,
}
use forest_sorting.Radix.Counts.Laws.{CounterLaws, used_ranges}
use forest_sorting.Scatter.Sorts.{digit_count}
use forest_sorting.Scatter.Blocks.{total}
use forest_sorting.Stable.{stable_sort}
use forest_sorting.Radix.Partition.Single.{Partitioned, partition_single_range_lem}

module _ {Scratch Store : Type 0} (counter : Counter Scratch) (client : RangeClient Store) where
  -- The stack below plays no part in the rest of the result.
  single_stack :
      (range : RadixRange) (stack : List RadixRange) (s : Scratch) (store : Store)
      → ◌≡◌ {A = Scratch × Store}
          (
            (partition_single_range counter client range stack s store).1,
            (partition_single_range counter client range stack s store).2,
          )
          (
            (partition_single_range counter client range [] s store).1,
            (partition_single_range counter client range [] s store).2,
          )
  unfolding partition_single_range distribute_range
  single_stack range stack s store =
      let noted = note_range counter client range store (counter.reset s) in
      elim (Bool-cases (counter.count_non_zero noted == 0)) [
        | inl e ↦ rw e refl
        | inr e ↦ elim (Bool-cases (counter.count_non_zero noted == 1)) [
          | inl f ↦ rw (e, f) refl
          | inr f ↦ rw (e, f) refl
        ]
      ]

join :
    {Scratch Store : Type 0} {l m : List RadixRange} {r q : Scratch × Store}
    → l ≡ m
    → r ≡ q
    → ◌≡◌ {A = List RadixRange × Scratch × Store} (l, r.0, r.1) (m, q.0, q.1)
join e g = ap₂ (λ l r. (l, r.0, r.1)) e g

-- What partitioning a range by its digit leaves.
pub record Round {Scratch Consumer : Type 0} (counter : Counter Scratch)
    (laws : CounterLaws counter) (client : RangeClient (MsdStore Consumer)) (range : RadixRange)
    (s : Scratch) (store : MsdStore Consumer) (pushed : List RadixRange) (order : List ℕ)
    : Type 0 where
  pub result : Scratch × MsdStore Consumer
  pub clean : laws.IsClean result.0
  pub arranged : result.1.order ≡ order
  pub scratch_length : length result.1.scratch ≡ length store.scratch
  pub round :
      (stack : List RadixRange)
      → ◌≡◌ {A = List RadixRange × Scratch × MsdStore Consumer}
          (partition_single_range counter client range stack s store)
          (pushed ++ stack, result.0, result.1)

pub partition-Round :
    {Scratch Consumer : Type 0} (counter : Counter Scratch) (laws : CounterLaws counter)
    (digit_for_index : ℕ → ℕ → ℕ) (range_done : ℕ → ℕ → List ℕ → Consumer → Consumer) (j : ℕ)
    (pre mid post : List ℕ) (range : RadixRange) (s : Scratch) (store : MsdStore Consumer)
    → All (λ x. digit_for_index x j < 256) mid
    → range.begin ≡ length pre
    → range.end ≡ length pre + length mid
    → range.digit_index ≡ j
    → 0 < length mid
    → store.order ≡ pre ++ (mid ++ post)
    → length store.scratch ≡ length pre + (length mid + length post)
    → laws.IsClean s
    → let f : ℕ → ℕ = digit_count (λ x. digit_for_index x j) mid in
      Round counter laws
        (order_client digit_for_index range_done)
        range
        s
        store
        (used_ranges f
          (λ d. length pre + total f 0 d)
          (λ d. length pre + total f 0 d + f d)
          (j + 1)
          0
          256)
        (pre ++ (stable_sort (λ x. digit_for_index x j) mid ++ post))
partition-Round {Scratch = Scratch} {Consumer = Consumer} counter laws digit_for_index range_done j
      pre mid post range s store small b e i pos at room clean =
    let client = order_client digit_for_index range_done in
    let known : MsdStore Consumer = record {
      order = pre ++ (mid ++ post);
      scratch = store.scratch;
      consumer = store.consumer;
    } in
    let same : store ≡ known = ap (λ l. record store { order = l }) at in
    let run =
      λ (stack : List RadixRange). partition_single_range counter client range stack s store in
    let lem = λ (stack : List RadixRange).
      subst
        (λ (z : MsdStore Consumer).
          Partitioned counter laws digit_for_index range_done j pre mid post small stack
            (length store.scratch) store.consumer
            (partition_single_range counter client range stack s z))
        (sym same)
        (partition_single_range_lem counter laws digit_for_index range_done j pre mid post small
          stack store.scratch store.consumer s range b e i pos room clean) in
    record {
      result = ((run []).1, (run []).2);
      clean = (lem []).clean;
      arranged = (lem []).arranged;
      scratch_length = (lem []).scratch_length;
      round = λ stack. join (lem stack).pushed (single_stack counter client range stack s store);
    }
