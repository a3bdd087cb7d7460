-- ===== src/Depth/Verify/Sound.antt =====
-- What `verifyWithParentIndex` accepts is a forest in order.
use forest_sorting.Prelude.{
  ℕ, zero, suc, ◌+◌, ◌≤◌, ◌<◌, ◌≡◌, refl, sym, ap, subst, ◌∙◌, ◌≢◌, ◌⊎◌, inl, inr, Bool, true,
  false, ◌&&◌, ◌||◌, none, some, List, [], arith, ltb, ◌==◌, Bool-cases, ==→≡, ==→≢, length, get_or,
  set, replicate, length-set, length-replicate, get_or-set_self, get_or-set_ne, get_or-replicate,
}
use forest_sorting.Depth.Verify.{
  current_depth, out_of_order, verify_node, verify_nodes, verify_with_parent_index, VerifyState,
}
use forest_sorting.Depth.Compute.Spec.{HasDepth, next_depth_fits}
use forest_sorting.Depth.{max_depth_for_prefix, cast_depth}
use forest_sorting.Depth.Verify.Spec.{AreOrdered, IsPrevious, IsSortedForest}
use forest_sorting.Traits.{no_parent}

in_order :
    (d e : ℕ) (b : Bool) → (ltb d e || ((d == e) && b)) ≡ false → (e < d) ⊎ ((e ≡ d) × (b ≡ false))
in_order d e true h = ground arith
in_order d e false h = ground arith

suc_of : (v c : ℕ) → c ≡ v + 1 → suc v ≡ c
suc_of v c e = omega arith

module _ {NodeId : Type 0} (w n : ℕ) (id_less : NodeId → NodeId → Bool) (id : ℕ → NodeId)
    (sentinel : ℕ → Bool) (parent : List ℕ) where
  -- The nodes below `k` are accepted.
  record IsAccepted (k : ℕ) (s : VerifyState NodeId) : Type 0 where
    depth_count : length s.verified_depth ≡ n
    ready_count : length s.depth_ready ≡ n
    ready_below : (j : ℕ) → get_or s.depth_ready j false ≡ true → j < k
    right_below : (j : ℕ) → j < k → HasDepth n sentinel parent j (get_or s.verified_depth j 0)
    fits_below : (j : ℕ) → j < k → get_or s.verified_depth j 0 ≤ max_depth_for_prefix w
    ordered_below : (j : ℕ) → suc j < k → AreOrdered id_less id s.verified_depth j
    previous : IsPrevious w n id_less id sentinel parent k s.verified_depth s

  current_depth_cases :
      (s : VerifyState NodeId) (k : ℕ)
      → k < n
      → IsAccepted k s
      → (current_depth w id_less id sentinel parent s k ≡ none)
        ⊎ ((d : ℕ) × (current_depth w id_less id sentinel parent s k ≡ some d)
            × HasDepth n sentinel parent k d
            × (d ≤ max_depth_for_prefix w))
  unfolding current_depth
  current_depth_cases s k h a = elim (Bool-cases (sentinel k)) [
    | inl e ↦ inr (0, rw e refl, HasDepth.root k (rw e refl), omega arith)
    | inr e ↦ elim (Bool-cases (get_or parent k no_parent == no_parent)) [
      | inl f ↦ inr (0, rw (e, f) refl, HasDepth.root k (rw (e, f) refl), omega arith)
      | inr f ↦ elim (Bool-cases (get_or s.depth_ready (get_or parent k no_parent) false)) [
        | inr g ↦ inl (rw (e, f, g) refl)
        | inl g ↦
            let p = get_or parent k no_parent in
            let v = get_or s.verified_depth p 0 in
            elim (Bool-cases (v == cast_depth w (max_depth_for_prefix w))) [
              | inl limit ↦ inl (rw (e, f, g, limit) refl)
              | inr below ↦
                  let before = a.ready_below p g in
                  let (next, fits) = next_depth_fits w v (a.fits_below p before) below in
                  inr (
                    cast_depth w (v + 1),
                    rw (e, f, g, below) refl,
                    subst (HasDepth n sentinel parent k) (suc_of v (cast_depth w (v + 1)) next) (
                        HasDepth.child k v (rw (e, f) refl) (omega arith) (a.right_below p before)),
                    rw next fits,
                  )
            ]
      ]
    ]
  ]

  -- The state behind a node that is accepted.
  abbrev accept : ℕ → ℕ → VerifyState NodeId → VerifyState NodeId
  accept k d s = record {
    verified_depth = set s.verified_depth k d;
    depth_ready = set s.depth_ready k true;
    previous_depth = d;
    previous_id = some (id k);
  }

  module _ (s : VerifyState NodeId) (k d : ℕ) (h : k < n) (a : IsAccepted k s)
      (has : HasDepth n sentinel parent k d) (fits : d ≤ max_depth_for_prefix w)
      (o : out_of_order w id_less id sentinel parent s d (id k) ≡ false) where
    written : get_or (set s.verified_depth k d) k 0 ≡ d
    written = get_or-set_self s.verified_depth k d 0 (omega (arith, a.depth_count))

    kept : (j : ℕ) → j < k → get_or (set s.verified_depth k d) j 0 ≡ get_or s.verified_depth j 0
    kept j p = get_or-set_ne s.verified_depth k j d 0 (λ e. omega arith)

    follows : (j : ℕ) → suc j ≡ k → AreOrdered id_less id (set s.verified_depth k d) j
    unfolding out_of_order
    follows j e = elim a.previous [
      | inl (none_yet, q) ↦ absurd (omega arith)
      | inr (p, at, depth, was) ↦
          let same : p ≡ j = omega arith in
          let now : get_or (set s.verified_depth k d) (suc j) 0 ≡ d = rw e written in
          let earlier : get_or (set s.verified_depth k d) j 0 ≡ s.previous_depth =
            kept j (omega arith) ∙ ap (λ z. get_or s.verified_depth z 0) (sym same) ∙ sym depth in
          let opened : out_of_order w id_less id sentinel parent s d (id k)
              ≡ (ltb d s.previous_depth || ((d == s.previous_depth) && id_less (id k) (id p))) =
            simp (was, out_of_order) in
          elim (in_order d s.previous_depth (id_less (id k) (id p)) (sym opened ∙ o)) [
            | inl less ↦ inl (rw (now, earlier) less)
            | inr (level, not_less) ↦ inr (earlier ∙ level ∙ sym now, rw (e, ← same) not_less)
          ]
    ]

    accept-IsAccepted : IsAccepted (k + 1) (accept k d s)
    accept-IsAccepted = record {
      depth_count = length-set s.verified_depth k d ∙ a.depth_count;
      ready_count = length-set s.depth_ready k true ∙ a.ready_count;
      ready_below = λ j e. elim (Bool-cases (j == k)) [
        | inl f ↦ omega (arith, ==→≡ j k f)
        | inr f ↦
            let ne : k ≢ j = λ q. ==→≢ j k f (sym q) in
            let was = a.ready_below j (sym (get_or-set_ne s.depth_ready k j true false ne) ∙ e) in
            omega arith
      ];
      right_below = λ j p. elim (Bool-cases (j == k)) [
        | inl f ↦ rw (==→≡ j k f, written) has
        | inr f ↦ let ne = ==→≢ j k f in rw (kept j (omega arith)) (a.right_below j (omega arith))
      ];
      fits_below = λ j p. elim (Bool-cases (j == k)) [
        | inl f ↦ rw (==→≡ j k f, written) fits
        | inr f ↦ let ne = ==→≢ j k f in rw (kept j (omega arith)) (a.fits_below j (omega arith))
      ];
      ordered_below = λ j p. elim (Bool-cases (suc j == k)) [
        | inl f ↦ follows j (==→≡ (suc j) k f)
        | inr f ↦
            let ne = ==→≢ (suc j) k f in
            rw (kept j (omega arith), kept (suc j) (omega arith)) (a.ordered_below j (omega arith))
      ];
      previous = inr (k, omega arith, sym written, refl);
    }

  verify_node_cases :
      (s : VerifyState NodeId) (k : ℕ)
      → k < n
      → IsAccepted k s
      → (verify_node w id_less id sentinel parent k s ≡ none)
        ⊎ ((s' : VerifyState NodeId) × (verify_node w id_less id sentinel parent k s ≡ some s')
            × IsAccepted (k + 1) s')
  unfolding verify_node
  verify_node_cases s k h a = elim (current_depth_cases s k h a) [
    | inl e ↦ inl (rw (e, verify_node) refl)
    | inr (d, e, has, fits) ↦
        elim (Bool-cases (out_of_order w id_less id sentinel parent s d (id k))) [
          | inl o ↦ inl (rw (e, o, verify_node) refl)
          | inr o ↦
              inr
                (accept k d s, rw (e, o, verify_node) refl, accept-IsAccepted s k d h a has fits o)
        ]
  ]

  verify_nodes_sound :
      (rounds k : ℕ) (s : VerifyState NodeId)
      → k + rounds ≡ n
      → IsAccepted k s
      → verify_nodes w id_less id sentinel parent rounds k s ≡ true
      → (depths : List ℕ) × (length depths ≡ n)
        × IsSortedForest w n id_less id sentinel parent depths
  unfolding verify_nodes
  verify_nodes_sound zero k s e a v = (
    s.verified_depth,
    a.depth_count,
    record {
      right = λ i h. a.right_below i (omega arith);
      fits = λ i h. a.fits_below i (omega arith);
      ordered = λ j h. a.ordered_below j (omega arith);
    },
  )
  verify_nodes_sound (suc rounds) k s e a v = elim (verify_node_cases s k (omega arith) a) [
    | inl fails ↦
        let f : verify_nodes w id_less id sentinel parent (suc rounds) k s ≡ false =
          rw (fails, verify_nodes) refl in
        absurd (cc (v, f))
    | inr (s', step, a') ↦
        let f : verify_nodes w id_less id sentinel parent (suc rounds) k s
            ≡ verify_nodes w id_less id sentinel parent rounds (k + 1) s' =
          rw (step, verify_nodes) refl in
        verify_nodes_sound rounds (k + 1) s' (omega arith) a' (sym f ∙ v)
  ]

  -- If `verifyWithParentIndex` returns true, there is a vector of depths that gives every node the
  -- number of links to its root, within the limit of the depth type, and neighbours are ordered by
  -- depth and at one depth by identifier.
  pub verify_with_parent_index_sound :
      verify_with_parent_index w id_less id sentinel parent n ≡ true
      → (depths : List ℕ) × (length depths ≡ n)
        × IsSortedForest w n id_less id sentinel parent depths
  unfolding verify_with_parent_index
  verify_with_parent_index_sound v = elim (Bool-cases (n == 0)) [
    | inl e ↦
        let none_left = ==→≡ n 0 e in
        (
          [],
          sym none_left,
          record {
            right = λ i h. absurd (omega arith);
            fits = λ i h. absurd (omega arith);
            ordered = λ j h. absurd (omega arith);
          },
        )
    | inr e ↦
        let start : VerifyState NodeId = record {
          verified_depth = replicate n 0;
          depth_ready = replicate n false;
          previous_depth = 0;
          previous_id = none;
        } in
        let f : verify_with_parent_index w id_less id sentinel parent n
            ≡ verify_nodes w id_less id sentinel parent n 0 start =
          rw e refl in
        verify_nodes_sound n 0 start (omega arith)
          (record {
            depth_count = length-replicate n 0;
            ready_count = length-replicate n false;
            ready_below = λ j g. absurd (cc (g, get_or-replicate n j false));
            right_below = λ j h. absurd (omega arith);
            fits_below = λ j h. absurd (omega arith);
            ordered_below = λ j h. absurd (omega arith);
            previous = inl (refl, refl);
          })
          (sym f ∙ v)
  ]
