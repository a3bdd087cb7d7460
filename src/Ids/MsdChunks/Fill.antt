-- ===== src/Ids/MsdChunks/Fill.antt =====
-- The loop that loads the entries of a range finds out whether their chunks are all equal.
use forest_sorting.Prelude.{
  ℕ, zero, suc, ◌+◌, ◌/◌, ◌%◌, ◌≤◌, ◌<◌, max, ◌≡◌, refl, sym, ap, ap₂, subst, ◌∙◌, ◌↔◌, inl, inr,
  false, List, [], ◌∷◌, ◌++◌, map, append_assoc, arith, ◌==◌, Bool-cases, ==→≡, ==→≢, ≢→==, length,
  get_or, set, All, length-append, get_or-append_at, set-append_at, get_or-append_left,
}
use forest_sorting.Loops.{for_range}
use Prim.Native.Nat.{bit_xor, differ, bit_or}
use forest_sorting.Prelude.Bits.{bit_or_half, bit_xor_half}
use forest_sorting.Ids.MsdChunks.{fill_entry, IdMsdChunkEntry, fill_entries}
use forest_sorting.Ids.MsdChunks.Lsd.{load}

bit_or_none : (n a b : ℕ) → a ≤ n → b ≤ n → bit_or a b ≡ 0 → (a ≡ 0) × (b ≡ 0)
bit_or_none zero a b p q h = (omega arith, omega arith)
bit_or_none (suc n) a b p q h =
    let half = bit_or_half a b in
    let inner =
      bit_or_none n (a / 2) (b / 2) (omega arith) (omega arith) (omega (arith, half, h)) in
    (omega (arith, half, h, inner.0), omega (arith, half, h, inner.1))

differ_none : (a b : ℕ) → differ (a % 2) (b % 2) ≡ 0 → a % 2 ≡ b % 2
differ_none a b h = elim (Bool-cases (a % 2 == 0)) [
  | inl e ↦ let at = ==→≡ (a % 2) 0 e in at ∙ sym (ap (λ z. differ z (b % 2)) (sym at) ∙ h)
  | inr e ↦
      let at : a % 2 ≡ 1 = omega (arith, ==→≢ (a % 2) 0 e) in
      elim (Bool-cases (b % 2 == 0)) [
        | inl f ↦
            let bt = ==→≡ (b % 2) 0 f in
            let one : 1 ≡ 0 = sym (ap₂ differ at bt) ∙ h in absurd (omega (arith, one))
        | inr f ↦ omega (arith, at, ==→≢ (b % 2) 0 f)
      ]
]

differ_same : (a : ℕ) → differ (a % 2) (a % 2) ≡ 0
differ_same a = elim (Bool-cases (a % 2 == 0)) [
  | inl e ↦ ap (λ z. differ z z) (==→≡ (a % 2) 0 e)
  | inr e ↦ let at : a % 2 ≡ 1 = omega (arith, ==→≢ (a % 2) 0 e) in ap (λ z. differ z z) at
]

bit_xor_none : (n a b : ℕ) → a ≤ n → b ≤ n → bit_xor a b ≡ 0 → a ≡ b
bit_xor_none zero a b p q h = omega arith
bit_xor_none (suc n) a b p q h =
    let half = bit_xor_half a b in
    let inner =
      bit_xor_none n (a / 2) (b / 2) (omega arith) (omega arith) (omega (arith, half, h)) in
    omega (arith, inner, differ_none a b (omega (arith, half, h)))

bit_xor_same : (n a : ℕ) → a ≤ n → bit_xor a a ≡ 0
bit_xor_same zero a p = let at : a ≡ 0 = omega arith in ap (λ z. bit_xor z z) at
bit_xor_same (suc n) a p =
    omega (arith, bit_xor_half a a, bit_xor_same n (a / 2) (omega arith), differ_same a)

-- One round behind the first one.
fill_entry_lem :
    (key : ℕ → ℕ) (order : List ℕ) (range_begin first i differing x : ℕ)
    (current : List IdMsdChunkEntry)
    → get_or order (range_begin + i) 0 ≡ x
    → (i == 0) ≡ false
    → fill_entry key order range_begin i (current, first, differing)
      ≡ (set current i (load key x), first, bit_or differing (bit_xor (key x) first))
unfolding fill_entry
fill_entry_lem key order range_begin first i differing x current item later = rw (item, later) refl

module _ (key : ℕ → ℕ) (order : List ℕ) (range_begin first : ℕ) where
  -- The rounds behind the first one.
  fill_rest :
      (todo : List ℕ) (n i differing : ℕ) (loaded old rest : List IdMsdChunkEntry)
      → n ≡ length todo
      → 0 < i
      → i ≡ length loaded
      → length old ≡ length todo
      → ((k : ℕ) → k < length todo → get_or order (range_begin + (i + k)) 0 ≡ get_or todo k 0)
      → let r =
          for_range n i
            (fill_entry key order range_begin)
            (loaded ++ (old ++ rest), first, differing) in
        (r.0 ≡ loaded ++ (map (load key) todo ++ rest))
        × ((r.2 ≡ 0 → (differing ≡ 0) × All (λ x. key x ≡ first) todo)
            × (differing ≡ 0 → All (λ x. key x ≡ first) todo → r.2 ≡ 0))
  unfolding for_range
  fill_rest [] zero i differing loaded [] rest e pos at same reads =
      (refl, (λ h. (h, tt), λ h a. h))
  fill_rest [] (suc n) i differing loaded old rest e pos at same reads = absurd (omega arith)
  fill_rest [] zero i differing loaded (o ∷ old) rest e pos at same reads = absurd (omega arith)
  fill_rest (x ∷ todo) zero i differing loaded old rest e pos at same reads = absurd (omega arith)
  fill_rest (x ∷ todo) (suc n) i differing loaded [] rest e pos at same reads = absurd (omega arith)
  fill_rest (x ∷ todo) (suc n) i differing loaded (o ∷ old) rest e pos at same reads =
      let item : get_or order (range_begin + i) 0 ≡ x =
        ap (λ z. get_or order (range_begin + z) 0) (omega arith) ∙ reads 0 (omega arith) in
      let later : (i == 0) ≡ false = ≢→== i 0 (omega arith) in
      let differing' : ℕ = bit_or differing (bit_xor (key x) first) in
      let before = loaded ++ (load key x ∷ []) in
      let placed : set (loaded ++ (o ∷ (old ++ rest))) i (load key x) ≡ before ++ (old ++ rest) =
        set-append_at loaded o (old ++ rest) (load key x) i at
        ∙ sym (append_assoc loaded (load key x ∷ []) (old ++ rest)) in
      let (entries, (forth, back)) =
        fill_rest todo n (i + 1) differing' before old rest (omega arith) (omega arith)
          (omega (arith, at, length-append loaded (load key x ∷ []))) (omega arith)
          (λ k h.
            ap (λ z. get_or order (range_begin + z) 0) (omega arith)
            ∙ reads (suc k) (omega arith)) in
      let step =
        fill_entry_lem key order range_begin first i differing x (loaded ++ (o ∷ (old ++ rest)))
          item later
        ∙ ap (λ l. (l, first, differing')) placed in
      subst
        (λ (s : List IdMsdChunkEntry × ℕ × ℕ).
          let r = for_range n (i + 1) (fill_entry key order range_begin) s in
          (r.0 ≡ loaded ++ (map (load key) (x ∷ todo) ++ rest))
          × ((r.2 ≡ 0 → (differing ≡ 0) × All (λ x. key x ≡ first) (x ∷ todo))
              × (differing ≡ 0 → All (λ x. key x ≡ first) (x ∷ todo) → r.2 ≡ 0)))
        (sym step)
        (
          entries ∙ append_assoc loaded (load key x ∷ []) (map (load key) todo ++ rest),
          (
            λ h.
                let (none_yet, others) = forth h in
                let (old_none, new_none) =
                  bit_or_none (max differing (bit_xor (key x) first)) differing
                    (bit_xor (key x) first) (omega arith) (omega arith) none_yet in
                (
                  old_none,
                  (
                    bit_xor_none (max (key x) first) (key x) first (omega arith) (omega arith)
                        new_none,
                    others,
                  ),
                ),
            λ h a.
                back
                  (ap₂ (λ u v. bit_or u (bit_xor v first)) h a.0
                    ∙ ap (bit_or 0) (bit_xor_same first first (omega arith)))
                  a.1,
          ),
        )

get_or-append_right :
    (l m post : List ℕ) (k d i : ℕ)
    → i ≡ length l + k
    → k < length m
    → get_or (l ++ (m ++ post)) i d ≡ get_or m k d
get_or-append_right [] m post k d i e h =
    let at : i ≡ k = omega arith in
    ap (λ z. get_or (m ++ post) z d) at ∙ get_or-append_left m post k d h
get_or-append_right (x ∷ l) m post k d zero e h = absurd (omega arith)
get_or-append_right (x ∷ l) m post k d (suc i) e h =
    get_or-append_right l m post k d i (omega arith) h

-- The entries are those of the range, in its order, and no bits differ exactly when all chunks of the
-- range are that of its first element; the array has room for the range.
pub fill_entries_lem :
    (key : ℕ → ℕ) (pre : List ℕ) (x : ℕ) (mid post : List ℕ) (old rest : List IdMsdChunkEntry)
    → length old ≡ length (x ∷ mid)
    → let r =
        fill_entries key
          (pre ++ ((x ∷ mid) ++ post))
          (length pre)
          (length (x ∷ mid))
          (old ++ rest) in
      (r.0 ≡ map (load key) (x ∷ mid) ++ rest) × ((r.2 ≡ 0) ↔ All (λ y. key y ≡ key x) (x ∷ mid))
unfolding fill_entries for_range fill_entry
fill_entries_lem key pre x mid post [] rest same = absurd (omega arith)
fill_entries_lem key pre x mid post (o ∷ old) rest same =
    let order = pre ++ (x ∷ (mid ++ post)) in
    let item : get_or order (length pre + 0) 0 ≡ x =
      get_or-append_at pre x (mid ++ post) 0 (length pre + 0) (omega arith) in
    let reads : (k : ℕ) → k < length mid → get_or order (length pre + (1 + k)) 0 ≡ get_or mid k 0 =
      λ k h.
        ap (λ l. get_or l (length pre + (1 + k)) 0) (sym (append_assoc pre (x ∷ []) (mid ++ post)))
        ∙ get_or-append_right (pre ++ x ∷ []) mid post k 0 (length pre + (1 + k))
            (omega (arith, length-append pre (x ∷ []))) h in
    let (entries, (forth, back)) =
      fill_rest key order (length pre) (key x) mid (length mid) 1 0 (load key x ∷ []) old rest refl
        (omega arith) refl (omega arith) reads in
    subst
      (λ i.
        let r =
          for_range (length mid) 1 (fill_entry key order (length pre))
            (load key i ∷ (old ++ rest), key i, 0) in
        (r.0 ≡ map (load key) (x ∷ mid) ++ rest) × ((r.2 ≡ 0) ↔ All (λ y. key y ≡ key x) (x ∷ mid)))
      (sym item) (entries, ((λ h. (refl, (forth h).1)), (λ a. back refl a.1)))
