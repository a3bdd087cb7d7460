-- ===== src/Radix/Partition/Distribute.antt =====
-- The loops of one partition as loops over the elements of the range.
use forest_sorting.Prelude.{
  All-map, ℕ, zero, suc, ◌+◌, ◌-◌, ◌<◌, ◌≡◌, refl, sym, ap, ap₂, subst, ◌∙◌, inl, inr, List, [],
  ◌∷◌, ◌++◌, append_assoc, arith, ◌==◌, Bool-cases, ==→≡, ==→≢, length, get_or, set, take, drop,
  All, length-append, length-take, length-drop, take-append-drop, get_or-append_at, set-append_at,
  All-map,
}
use forest_sorting.Loops.{for_range, for_each, for_range-slice}
use forest_sorting.Radix.Counts.{Counter, RadixRange}
use forest_sorting.Radix.Partition.{note_range, move_offset, order_client, MsdStore}
use forest_sorting.Radix.Counts.Laws.{CounterLaws}
use forest_sorting.Scatter.Increment.{increment}
use forest_sorting.Stable.{having, having_eq, having_ne}
use forest_sorting.Scatter.{scatter, update_self, update, update_ne}
use forest_sorting.Scatter.Sorts.{digit_count}
use mathlib.Core.Path.{fun_ext}

-- A loop on a part of the state.
for_range-embed :
    {S T : Type 0} (embed : S → T) (body : ℕ → S → S) (body' : ℕ → T → T)
    → ((k : ℕ) (s : S) → body' k (embed s) ≡ embed (body k s))
    → (n i : ℕ) (s : S) → for_range n i body' (embed s) ≡ embed (for_range n i body s)
unfolding for_range
for_range-embed embed body body' h zero i s = refl
for_range-embed embed body body' h (suc n) i s =
    ap (for_range n (i + 1) body') (h i s) ∙ for_range-embed embed body body' h n (i + 1) (body i s)

-- `order[offset] = scratch[offset]` over the range.
pub copy_back :
    (pre mid post pre' mid' post' : List ℕ) (n i : ℕ)
    → length pre' ≡ length pre
    → length mid' ≡ length mid
    → n ≡ length mid
    → i ≡ length pre
    → for_range n i
        (λ offset order. set order offset (get_or (pre' ++ (mid' ++ post')) offset 0))
        (pre ++ (mid ++ post))
      ≡ pre ++ (mid' ++ post)
unfolding for_range
copy_back pre [] post pre' [] post' zero i p m e f = refl
copy_back pre [] post pre' (y ∷ mid') post' n i p m e f = absurd (omega arith)
copy_back pre [] post pre' [] post' (suc n) i p m e f = absurd (omega arith)
copy_back pre (x ∷ mid) post pre' [] post' n i p m e f = absurd (omega arith)
copy_back pre (x ∷ mid) post pre' (y ∷ mid') post' zero i p m e f = absurd (omega arith)
copy_back pre (x ∷ mid) post pre' (y ∷ mid') post' (suc n) i p m e f =
    let from =
      λ (l : List ℕ). for_range n (i + 1) (λ offset order. set order offset (get_or l offset 0)) in
    let here : set (pre ++ (x ∷ (mid ++ post))) i (get_or (pre' ++ (y ∷ (mid' ++ post'))) i 0)
        ≡ (pre ++ y ∷ []) ++ (mid ++ post) =
      ap (set (pre ++ (x ∷ (mid ++ post))) i)
        (get_or-append_at pre' y (mid' ++ post') 0 i (omega arith))
      ∙ set-append_at pre x (mid ++ post) y i f
      ∙ sym (append_assoc pre (y ∷ []) (mid ++ post)) in
    ap₂ from (sym (append_assoc pre' (y ∷ []) (mid' ++ post'))) here
    ∙ copy_back (pre ++ y ∷ []) mid post (pre' ++ y ∷ []) mid' post' n (i + 1)
        (omega (arith, length-append pre (y ∷ []), length-append pre' (y ∷ []))) (omega arith)
        (omega arith) (omega (arith, length-append pre (y ∷ [])))
    ∙ append_assoc pre (y ∷ []) (mid' ++ post)

-- A vector in three parts of given lengths.
pub three_parts :
    (l : List ℕ) (a b c : ℕ)
    → length l ≡ a + (b + c)
    → (p m q : List ℕ) × (l ≡ p ++ (m ++ q)) × (length p ≡ a) × (length m ≡ b) × (length q ≡ c)
three_parts l a b c h = (
  take a l,
  take b (drop a l),
  drop b (drop a l),
  sym (take-append-drop a l) ∙ ap (λ z. take a l ++ z) (sym (take-append-drop b (drop a l))),
  length-take a l ∙ omega arith,
  length-take b (drop a l) ∙ omega (arith, length-drop a l),
  length-drop b (drop a l) ∙ omega (arith, length-drop a l),
)

-- The counts after one more element.
counted :
    {A : Type 0} (digit : A → ℕ) (f : ℕ → ℕ) (x : A) (xs : List A)
    → ◌≡◌ {A = ℕ → ℕ}
        (λ d. update f (digit x) (f (digit x) + 1) d + digit_count digit xs d)
        (λ d. f d + digit_count digit (x ∷ xs) d)
counted digit f x xs = fun_ext λ d. elim (Bool-cases (digit x == d)) [
  | inl e ↦
      let at = ==→≡ (digit x) d e in
      rw (← at) (
        omega (
          arith,
          update_self f (digit x) (f (digit x) + 1),
          ap length (having_eq digit (digit x) x xs refl),
        ))
  | inr e ↦
      let off = ==→≢ (digit x) d e in
      omega (
        arith,
        update_ne f (digit x) d (f (digit x) + 1) (λ q. off (sym q)),
        ap length (having_ne digit d x xs off),
      )
]

-- The digit of each element is in use.
pub digit_used :
    {A : Type 0} (digit : A → ℕ) (xs : List A) → All (λ x. 0 < digit_count digit xs (digit x)) xs
unfolding having
digit_used digit [] = tt
digit_used digit (x ∷ xs) = (
  omega (arith, ap length (having_eq digit (digit x) x xs refl)),
  All-map (λ y. 0 < digit_count digit xs (digit y)) (λ y. 0 < digit_count digit (x ∷ xs) (digit y))
      xs (λ y p. ground arith) (digit_used digit xs),
)

module _ {Scratch A : Type 0} (counter : Counter Scratch) (digit : A → ℕ) where
  -- One element to its slot.
  unfoldable pub deliver : A → Scratch × List A → Scratch × List A
  deliver x (t, out) = (
    counter.with_counts t (increment (counter.counts t) (digit x)),
    set out (get_or (counter.counts t) (digit x) 0) x,
  )

module _ {Scratch A : Type 0} (counter : Counter Scratch) (laws : CounterLaws counter)
    (digit : A → ℕ) where
  pub notes_lem :
      (xs : List A) (s : Scratch) (f : ℕ → ℕ)
      → All (λ x. digit x < 256) xs
      → laws.Holds s f
      → laws.Holds
          (for_each (λ x s. counter.note s (digit x)) xs s)
          (λ d. f d + digit_count digit xs d)
  unfolding for_each having
  notes_lem [] s f small h = subst (laws.Holds s) (fun_ext λ d. omega arith) h
  notes_lem (x ∷ xs) s f small h =
      subst (laws.Holds (for_each (λ x s. counter.note s (digit x)) xs (counter.note s (digit x))))
        (counted digit f x xs)
        (notes_lem xs (counter.note s (digit x)) (update f (digit x) (f (digit x) + 1)) small.1
          (laws.note_law s f (digit x) small.0 h))

  pub deliver_lem :
      (xs : List A) (t : Scratch) (out : List A) (f next : ℕ → ℕ)
      → All (λ x. digit x < 256) xs
      → All (λ x. 0 < f (digit x)) xs
      → laws.Offsets t f next
      → laws.Offsets
          (for_each (deliver counter digit) xs (t, out)).0
          f
          (λ d. next d + digit_count digit xs d)
        × ((for_each (deliver counter digit) xs (t, out)).1 ≡ scatter digit xs out next)
  unfolding for_each having scatter deliver
  deliver_lem [] t out f next small used h =
      (subst (laws.Offsets t f) (fun_ext λ d. omega arith) h, refl)
  deliver_lem (x ∷ xs) t out f next small used h =
      let t' = counter.with_counts t (increment (counter.counts t) (digit x)) in
      let slot = laws.read_law t f next (digit x) small.0 used.0 h in
      let (offsets, written) =
        deliver_lem xs t' (set out (get_or (counter.counts t) (digit x) 0) x) f
          (update next (digit x) (next (digit x) + 1)) small.1 used.1
          (laws.advance_law t f next (digit x) small.0 used.0 h) in
      (
        subst
            (laws.Offsets
              (for_each (deliver counter digit) xs
                (t', set out (get_or (counter.counts t) (digit x) 0) x)).0
              f)
            (counted digit next x xs) offsets,
        written
            ∙ ap (λ z. scatter digit xs (set out z x) (update next (digit x) (next (digit x) + 1)))
                slot,
      )

module _ {Scratch Consumer : Type 0} (counter : Counter Scratch) (digit_for_index : ℕ → ℕ → ℕ)
    (range_done : ℕ → ℕ → List ℕ → Consumer → Consumer) (j : ℕ) where
  stored : List ℕ → List ℕ → Consumer → MsdStore Consumer
  stored order scratch c = record { order = order; scratch = scratch; consumer = c }

  pub note_range_lem :
      (pre mid post scratch : List ℕ) (c : Consumer) (s : Scratch) (range : RadixRange)
      → range.end - range.begin ≡ length mid
      → range.begin ≡ length pre
      → range.digit_index ≡ j
      → note_range counter
          (order_client digit_for_index range_done)
          range
          (record { order = pre ++ (mid ++ post); scratch = scratch; consumer = c })
          s
        ≡ for_each (λ x s. counter.note s (digit_for_index x j)) mid s
  unfolding note_range order_client
  note_range_lem pre mid post scratch c s range n i d =
      ap
        (λ z.
          for_range (range.end - range.begin) range.begin
            (λ offset s.
              counter.note s (digit_for_index (get_or (pre ++ (mid ++ post)) offset 0) z))
            s)
        d
      ∙ for_range-slice (λ x s. counter.note s (digit_for_index x j)) 0 pre mid post
          (range.end - range.begin) range.begin s n i

  pub move_range_lem :
      (pre mid post scratch : List ℕ) (c : Consumer) (s : Scratch) (n i : ℕ)
      → n ≡ length mid
      → i ≡ length pre
      → for_range n i
          (move_offset counter (order_client digit_for_index range_done) j)
          (s, record { order = pre ++ (mid ++ post); scratch = scratch; consumer = c })
        ≡ (
          (for_each (deliver counter (λ x. digit_for_index x j)) mid (s, scratch)).0,
          record {
            order = pre ++ (mid ++ post);
            scratch = (for_each (deliver counter (λ x. digit_for_index x j)) mid (s, scratch)).1;
            consumer = c;
          },
        )
  unfolding move_offset order_client deliver stored
  move_range_lem pre mid post scratch c s n i e f =
      let embed : Scratch × List ℕ → Scratch × MsdStore Consumer =
        λ r. (r.0, stored (pre ++ (mid ++ post)) r.1 c) in
      for_range-embed embed
        (λ k. deliver counter (λ x. digit_for_index x j) (get_or (pre ++ (mid ++ post)) k 0))
        (move_offset counter (order_client digit_for_index range_done) j) (λ k r. refl) n i
        (s, scratch)
      ∙ ap embed (
          for_range-slice (deliver counter (λ x. digit_for_index x j)) 0 pre mid post n i
            (s, scratch) e f)
