-- ===== src/Ids/SmallSort/Insertion.antt =====
-- The insertion sort of a range, with any accessor that keeps up with the vector.
use forest_sorting.Prelude.{
  ℕ, zero, suc, ◌+◌, ◌-◌, ◌≤◌, ◌<◌, ◌≡◌, refl, sym, ap, subst, ◌∙◌, inl, inr, List, [], ◌∷◌, ◌++◌,
  append-nil, append_assoc, arith, leb, Bool-cases, leb→le, leb→lt, length, get_or, set,
  length-append, get_or-append_at, set-append_at, All-append, All-map,
}
use forest_sorting.Loops.{for_range}
use forest_sorting.Stable.{IsSorted, IsStableSort, stable_sort}
use forest_sorting.Ids.SmallSort.{
  KeyAccessor, shift_back, insert_item, stable_sort_index_range_small_linear_internal,
}
use forest_sorting.Stable.Behind.{
  insert_behind, IsSorted-last, insert_behind_last, insert_behind_larger, length-insert_behind,
  insert_behind-IsStableSort,
}
use forest_sorting.Stable.Unique.{IsStableSort-eq}

-- What the sort needs of an accessor: `Keeps order keys` says that the accessor sees the range of the
-- vector, and `Holds order keys x` also that `x` is the saved item.
pub record AccessorLaws {Keys : Type 0} (accessor : KeyAccessor Keys) (begin size : ℕ) (key : ℕ → ℕ)
    : Type 1 where
  pub Keeps : List ℕ → Keys → Type 0
  pub Holds : List ℕ → Keys → ℕ → Type 0
  pub save_law :
      (order : List ℕ) (keys : Keys) (d : ℕ)
      → d < size
      → Keeps order keys
      → Holds order (accessor.save order d keys) (get_or order (begin + d) 0)
  pub compare_law :
      (order : List ℕ) (keys : Keys) (x d : ℕ)
      → d < size
      → Holds order keys x
      → accessor.is_less_or_equal order d keys ≡ leb (key (get_or order (begin + d) 0)) (key x)
  pub move_law :
      (order : List ℕ) (keys : Keys) (x d : ℕ)
      → suc d < size
      → Holds order keys x
      → Holds
          (set order (begin + suc d) (get_or order (begin + d) 0))
          (accessor.move d (suc d) keys)
          x
  pub write_law :
      (order : List ℕ) (keys : Keys) (x d : ℕ)
      → d < size
      → Holds order keys x
      → Keeps (set order (begin + d) x) (accessor.write_saved d keys)

snoc_view :
    (l : List ℕ) (d : ℕ)
    → length l ≡ suc d
    → (front : List ℕ) × (y : ℕ) × (l ≡ front ++ y ∷ []) × (length front ≡ d)
snoc_view [] d e = absurd (omega arith)
snoc_view (x ∷ []) d e = ([], x, refl, omega arith)
snoc_view (x ∷ y ∷ l) zero e = absurd (omega arith)
snoc_view (x ∷ y ∷ l) (suc d) e =
    let (front, z, split, len) = snoc_view (y ∷ l) d (omega arith) in
    (x ∷ front, z, ap (◌∷◌ x) split, omega (arith, len))

-- The vector around the last element of the sorted part.
module _ (pre front : List ℕ) (y : ℕ) where
  split_before : (rest : List ℕ) → pre ++ ((front ++ y ∷ []) ++ rest) ≡ (pre ++ front) ++ (y ∷ rest)
  split_before rest =
      ap (◌++◌ pre) (append_assoc front (y ∷ []) rest) ∙ sym (append_assoc pre front (y ∷ rest))

  read_last :
      (d : ℕ) (rest : List ℕ)
      → length front ≡ d
      → get_or (pre ++ ((front ++ y ∷ []) ++ rest)) (length pre + d) 0 ≡ y
  read_last d rest e =
      ap (λ l. get_or l (length pre + d) 0) (split_before rest)
      ∙ get_or-append_at (pre ++ front) y rest 0 (length pre + d)
          (omega (arith, length-append pre front))

  write_behind :
      (d hole : ℕ) (right : List ℕ) (v : ℕ)
      → length front ≡ d
      → set (pre ++ ((front ++ y ∷ []) ++ (hole ∷ right))) (length pre + suc d) v
        ≡ pre ++ ((front ++ y ∷ []) ++ (v ∷ right))
  write_behind d hole right v e =
      ap (λ l. set l (length pre + suc d) v)
        (sym (append_assoc pre (front ++ y ∷ []) (hole ∷ right)))
      ∙ set-append_at (pre ++ (front ++ y ∷ [])) hole right v (length pre + suc d)
          (omega (arith, length-append pre (front ++ y ∷ []), length-append front (y ∷ [])))
      ∙ append_assoc pre (front ++ y ∷ []) (v ∷ right)

module _ {Keys : Type 0} (accessor : KeyAccessor Keys) (size : ℕ) (key : ℕ → ℕ) (pre : List ℕ)
    (laws : AccessorLaws accessor (length pre) size key) where
  -- After the shift, a write of the item at the place gives the insertion.
  record Shifted (x : ℕ) (left right : List ℕ) (result : List ℕ × Keys × ℕ) : Type 0 where
    order' : List ℕ
    keys' : Keys
    place : ℕ
    returns : result ≡ (order', keys', place)
    writes : set order' (length pre + place) x ≡ pre ++ (insert_behind key x left ++ right)
    mirrors : laws.Holds order' keys' x
    in_range : place < size

  shift_back_lem :
      (x d hole : ℕ) (left right order : List ℕ) (keys : Keys)
      → length left ≡ d
      → d < size
      → IsSorted key left
      → order ≡ pre ++ (left ++ (hole ∷ right))
      → laws.Holds order keys x
      → Shifted x left right (shift_back accessor (length pre) d order keys)
  unfolding shift_back insert_behind
  shift_back_lem x zero hole [] right order keys e h s f m = record {
    order' = order;
    keys' = keys;
    place = 0;
    returns = refl;
    writes = rw f (set-append_at pre hole right x (length pre + 0) (omega arith));
    mirrors = m;
    in_range = h;
  }
  shift_back_lem x zero hole (y ∷ left) right order keys e h s f m = absurd (omega arith)
  shift_back_lem x (suc d) hole left right order keys e h s f m =
      let (front, y, split, len) = snoc_view left d e in
      let (below, front_sorted) = IsSorted-last key front y (subst (IsSorted key) split s) in
      let full : order ≡ pre ++ ((front ++ y ∷ []) ++ (hole ∷ right)) =
        f ∙ ap (λ l. pre ++ (l ++ (hole ∷ right))) split in
      let read : get_or order (length pre + d) 0 ≡ y =
        ap (λ l. get_or l (length pre + d) 0) full ∙ read_last pre front y d (hole ∷ right) len in
      let write : (v : ℕ)
          → set order (length pre + suc d) v ≡ pre ++ ((front ++ y ∷ []) ++ (v ∷ right)) =
        λ v.
          ap (λ l. set l (length pre + suc d) v) full
          ∙ write_behind pre front y d hole right v len in
      let test : accessor.is_less_or_equal order d keys ≡ leb (key y) (key x) =
        laws.compare_law order keys x d (omega arith) m ∙ ap (λ z. leb (key z) (key x)) read in
      elim (Bool-cases (leb (key y) (key x))) [
        | inl stop ↦
            let le = leb→le (key y) (key x) stop in
            record {
              order' = order;
              keys' = keys;
              place = suc d;
              returns = rw (test, stop) refl;
              writes =
                  write x
                  ∙ ap (λ l. pre ++ l) (sym (append_assoc (front ++ y ∷ []) (x ∷ []) right))
                  ∙ ap (λ l. pre ++ (l ++ right))
                      (sym (
                        insert_behind_last key x (front ++ y ∷ []) (
                          All-append (λ z. key z ≤ key x) front (y ∷ [])
                            (All-map (λ z. key z ≤ key y) (λ z. key z ≤ key x) front
                              (λ z p. omega arith) below)
                            (le, tt))))
                  ∙ ap (λ l. pre ++ (insert_behind key x l ++ right)) (sym split);
              mirrors = m;
              in_range = h;
            }
        | inr go ↦
            let lt = leb→lt (key y) (key x) go in
            let further =
              shift_back_lem x d y front (y ∷ right)
                (set order (length pre + suc d) (get_or order (length pre + d) 0))
                (accessor.move d (suc d) keys) len (omega arith) front_sorted
                (ap (set order (length pre + suc d)) read
                  ∙ write y
                  ∙ ap (◌++◌ pre) (append_assoc front (y ∷ []) (y ∷ right)))
                (laws.move_law order keys x d h m) in
            record {
              order' = further.order';
              keys' = further.keys';
              place = further.place;
              returns = rw (test, go) further.returns;
              writes =
                  further.writes
                  ∙ ap (◌++◌ pre) (sym (append_assoc (insert_behind key x front) (y ∷ []) right))
                  ∙ ap (λ l. pre ++ (l ++ right)) (sym (insert_behind_larger key x y front lt))
                  ∙ ap (λ l. pre ++ (insert_behind key x l ++ right)) (sym split);
              mirrors = further.mirrors;
              in_range = further.in_range;
            }
      ]

  -- The outer loop, from a sorted part on.
  insert_items_lem :
      (todo left done post order : List ℕ) (keys : Keys) (rounds i : ℕ)
      → rounds ≡ length todo
      → i ≡ length left
      → i + rounds ≤ size
      → IsStableSort key done left
      → order ≡ pre ++ (left ++ (todo ++ post))
      → laws.Keeps order keys
      → (for_range rounds i (insert_item accessor (length pre)) (order, keys)).0
        ≡ pre ++ (stable_sort key (done ++ todo) ++ post)
  unfolding for_range insert_item
  insert_items_lem [] left done post order keys zero i e g h s f m =
      f
      ∙ ap (λ l. pre ++ (l ++ post))
          (IsStableSort-eq key done left s ∙ ap (stable_sort key) (sym (append-nil done)))
  insert_items_lem [] left done post order keys (suc rounds) i e g h s f m = absurd (omega arith)
  insert_items_lem (x ∷ todo) left done post order keys zero i e g h s f m = absurd (omega arith)
  insert_items_lem (x ∷ todo) left done post order keys (suc rounds) i e g h s f m =
      let read : get_or order (length pre + i) 0 ≡ x =
        ap (λ l. get_or l (length pre + i) 0) (f ∙ sym (append_assoc pre left (x ∷ (todo ++ post))))
        ∙ get_or-append_at (pre ++ left) x (todo ++ post) 0 (length pre + i)
            (omega (arith, length-append pre left)) in
      let saved : laws.Holds order (accessor.save order i keys) x =
        subst (laws.Holds order (accessor.save order i keys)) read
          (laws.save_law order keys i (omega arith) m) in
      let sh =
        shift_back_lem x i x left (todo ++ post) order (accessor.save order i keys) (sym g)
          (omega arith) s.sorted f saved in
      let step : insert_item accessor (length pre) i (order, keys)
          ≡ (set sh.order' (length pre + sh.place) x, accessor.write_saved sh.place sh.keys') =
        rw (sh.returns, read, insert_item) refl in
      ap (λ t. (for_range rounds (i + 1) (insert_item accessor (length pre)) t).0) step
      ∙ insert_items_lem todo (insert_behind key x left) (done ++ x ∷ []) post
          (set sh.order' (length pre + sh.place) x) (accessor.write_saved sh.place sh.keys') rounds
          (i + 1) (omega arith) (omega (arith, length-insert_behind key x left)) (omega arith)
          (insert_behind-IsStableSort key done left x s) sh.writes
          (laws.write_law sh.order' sh.keys' x sh.place sh.in_range sh.mirrors)
      ∙ ap (λ l. pre ++ (stable_sort key l ++ post)) (append_assoc done (x ∷ []) todo)

  -- With an accessor that keeps up with the vector, the insertion sort leaves the stable sort of the
  -- range by the accessor's key, and the rest of the vector as it was.
  pub stable_sort_index_range_small_linear_internal_lem :
      (mid post : List ℕ) (keys : Keys)
      → length mid ≡ size
      → 0 < size
      → laws.Keeps (pre ++ (mid ++ post)) keys
      → (stable_sort_index_range_small_linear_internal accessor
          (length pre)
          size
          (pre ++ (mid ++ post))
          keys).0
        ≡ pre ++ (stable_sort key mid ++ post)
  unfolding stable_sort_index_range_small_linear_internal
  stable_sort_index_range_small_linear_internal_lem [] post keys e h m = absurd (omega arith)
  stable_sort_index_range_small_linear_internal_lem (x ∷ mid) post keys e h m =
      insert_items_lem mid (x ∷ []) (x ∷ []) post (pre ++ ((x ∷ mid) ++ post)) keys (size - 1) 1
        (omega arith) refl (omega arith) (record { sorted = (tt, tt); stable = λ k. refl }) refl m
