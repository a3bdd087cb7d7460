-- ===== src/Depth/Verify/Complete.antt =====
-- Every forest in order is accepted by `verifyWithParentIndex`.
use forest_sorting.Prelude.{
  ℕ, zero, suc, ◌+◌, ◌≤◌, ◌<◌, ◌≡◌, refl, sym, ap, ◌∙◌, ◌≢◌, ◌⊎◌, inl, inr, Bool, true, false, ◌&&◌,
  ◌||◌, none, some, List, arith, ltb, ◌==◌, Bool-cases, ltb→lt, ltb→le, ==→≡, ==→≢, length, get_or,
  set, replicate, length-set, length-replicate, get_or-set_self, get_or-set_ne,
}
use forest_sorting.Depth.Verify.{
  current_depth, out_of_order, verify_node, verify_nodes, verify_with_parent_index, VerifyState,
}
use forest_sorting.Depth.Verify.Spec.{IsSortedForest, IsPrevious}
use forest_sorting.Depth.Compute.Spec.{HasDepth, is_root, parent_of, next_depth_fits}
use forest_sorting.Traits.{no_parent}
use forest_sorting.Depth.Compute.Total.{HasDepth_unique}
use forest_sorting.Depth.{max_depth_for_prefix, cast_depth, depth_value_bits}

below_limit :
    (w e : ℕ)
    → e + 1 ≤ max_depth_for_prefix w
    → (e == cast_depth w (max_depth_for_prefix w)) ≡ false
unfolding cast_depth max_depth_for_prefix depth_value_bits
below_limit w e h = ground arith

not_before :
    (d e : ℕ) (b : Bool) → (e < d) ⊎ ((e ≡ d) × (b ≡ false)) → (ltb d e || ((d == e) && b)) ≡ false
not_before d e true (inl less) = ground arith
not_before d e true (inr (level, absent)) = cc
not_before d e false (inl less) = ground arith
not_before d e false (inr (level, absent)) = ground arith

bool_of : (b : Bool) → b ≡ true → b ≢ false
bool_of b e f = cc

module _ (n : ℕ) (sentinel : ℕ → Bool) (parent : List ℕ) where
  HasDepth-cases :
      (i d : ℕ)
      → HasDepth n sentinel parent i d
      → ((is_root n sentinel parent i ≡ true) × (d ≡ 0))
        ⊎ ((is_root n sentinel parent i ≡ false)
            × (parent_of n sentinel parent i < n)
            × (e : ℕ) × (d ≡ suc e)
            × HasDepth n sentinel parent (parent_of n sentinel parent i) e)
  HasDepth-cases i d (HasDepth.root _ r) = inl (r, refl)
  HasDepth-cases i d (HasDepth.child _ e inner lt h) = inr (inner, lt, e, refl, h)

module _ {NodeId : Type 0} (w n : ℕ) (id_less : NodeId → NodeId → Bool) (id : ℕ → NodeId)
    (sentinel : ℕ → Bool) (parent : List ℕ) (depths : List ℕ)
    (f : IsSortedForest w n id_less id sentinel parent depths) where
  depths_step : (j : ℕ) → suc j < n → get_or depths j 0 ≤ get_or depths (suc j) 0
  depths_step j h = elim (f.ordered j h) [
    | inl less ↦ omega arith
    | inr (level, o) ↦ omega (arith, level)
  ]

  depths_monotone : (i j : ℕ) → i ≤ j → j < n → get_or depths i 0 ≤ get_or depths j 0
  depths_monotone i zero h g = let e : i ≡ 0 = omega arith in rw e (omega arith)
  depths_monotone i (suc j) h g = elim (Bool-cases (i == suc j)) [
    | inl e ↦ rw (==→≡ i (suc j) e) (omega arith)
    | inr e ↦
        let ne = ==→≢ i (suc j) e in
        omega (arith, depths_monotone i j (omega arith) (omega arith), depths_step j g)
  ]

  -- The state agrees with the depths below `k`.
  record Tracks (k : ℕ) (s : VerifyState NodeId) : Type 0 where
    depth_count : length s.verified_depth ≡ n
    ready_count : length s.depth_ready ≡ n
    ready : (j : ℕ) → j < k → get_or s.depth_ready j false ≡ true
    agrees : (j : ℕ) → j < k → get_or s.verified_depth j 0 ≡ get_or depths j 0
    previous : IsPrevious w n id_less id sentinel parent k depths s

  current_depth-Tracks :
      (s : VerifyState NodeId) (k : ℕ)
      → k < n
      → Tracks k s
      → current_depth w id_less id sentinel parent s k ≡ some (get_or depths k 0)
  unfolding current_depth
  current_depth-Tracks s k h t =
      elim (HasDepth-cases n sentinel parent k (get_or depths k 0) (f.right k h)) [
        | inl (root, none_above) ↦ elim (Bool-cases (sentinel k)) [
          | inl e ↦ rw (e, none_above) refl
          | inr e ↦
              let p : (get_or parent k no_parent == no_parent) ≡ true = sym (rw e refl) ∙ root in
              rw (e, p, none_above) refl
        ]
        | inr (inner, lt, e, above, has) ↦ elim (Bool-cases (sentinel k)) [
          | inl q ↦ absurd (bool_of (is_root n sentinel parent k) (rw q refl) inner)
          | inr q ↦
              let far : (get_or parent k no_parent == no_parent) ≡ false =
                sym (rw q refl) ∙ inner in
              let p = get_or parent k no_parent in
              let same : get_or depths p 0 ≡ e =
                HasDepth_unique w n sentinel parent (f.right p lt) has in
              let earlier : p < k = elim (Bool-cases (ltb p k)) [
                | inl less ↦ ltb→lt p k less
                | inr more ↦
                    absurd (omega (arith, depths_monotone k p (ltb→le p k more) lt, same, above))
              ] in
              let known : get_or s.verified_depth p 0 ≡ e = t.agrees p earlier ∙ same in
              let small : e + 1 ≤ max_depth_for_prefix w = omega (arith, f.fits k h, above) in
              let below = below_limit w e small in
              let (next, fits) = next_depth_fits w e (omega arith) below in
              let deeper : cast_depth w (e + 1) ≡ suc e = omega (arith, next) in
              rw (q, far, t.ready p earlier, known, below, above) (ap some deeper)
        ]
      ]

  in_order-Tracks :
      (s : VerifyState NodeId) (k : ℕ)
      → k < n
      → Tracks k s
      → out_of_order w id_less id sentinel parent s (get_or depths k 0) (id k) ≡ false
  unfolding out_of_order
  in_order-Tracks s k h t = elim t.previous [
    | inl (start, none_yet) ↦ simp (none_yet, out_of_order)
    | inr (p, at, depth, was) ↦
        simp (was, out_of_order)
          (rw (depth, at)
            (not_before (get_or depths (suc p) 0) (get_or depths p 0) (id_less (id (suc p)) (id p))
              (f.ordered p (omega arith))))
  ]

  abbrev tracked : ℕ → VerifyState NodeId → VerifyState NodeId
  tracked k s = record {
    verified_depth = set s.verified_depth k (get_or depths k 0);
    depth_ready = set s.depth_ready k true;
    previous_depth = get_or depths k 0;
    previous_id = some (id k);
  }

  tracked-Tracks :
      (s : VerifyState NodeId) (k : ℕ) → k < n → Tracks k s → Tracks (k + 1) (tracked k s)
  tracked-Tracks s k h t = record {
    depth_count = length-set s.verified_depth k (get_or depths k 0) ∙ t.depth_count;
    ready_count = length-set s.depth_ready k true ∙ t.ready_count;
    ready = λ j p. elim (Bool-cases (j == k)) [
      | inl e ↦
          rw (==→≡ j k e)
            (get_or-set_self s.depth_ready k true false (omega (arith, t.ready_count)))
      | inr e ↦
          let ne = ==→≢ j k e in
          get_or-set_ne s.depth_ready k j true false (λ q. ne (sym q)) ∙ t.ready j (omega arith)
    ];
    agrees = λ j p. elim (Bool-cases (j == k)) [
      | inl e ↦
          rw (==→≡ j k e) (
            get_or-set_self s.verified_depth k (get_or depths k 0) 0 (omega (arith, t.depth_count)))
      | inr e ↦
          let ne = ==→≢ j k e in
          get_or-set_ne s.verified_depth k j (get_or depths k 0) 0 (λ q. ne (sym q))
          ∙ t.agrees j (omega arith)
    ];
    previous = inr (k, omega arith, refl, refl);
  }

  verify_nodes_complete :
      (rounds k : ℕ) (s : VerifyState NodeId)
      → k + rounds ≡ n
      → Tracks k s
      → verify_nodes w id_less id sentinel parent rounds k s ≡ true
  unfolding verify_nodes verify_node
  verify_nodes_complete zero k s e t = refl
  verify_nodes_complete (suc rounds) k s e t =
      let step : verify_node w id_less id sentinel parent k s ≡ some (tracked k s) =
        rw
          (
            current_depth-Tracks s k (omega arith) t,
            in_order-Tracks s k (omega arith) t,
            verify_node,
          )
          refl in
      rw (step, verify_nodes)
        (verify_nodes_complete rounds (k + 1) (tracked k s) (omega arith)
          (tracked-Tracks s k (omega arith) t))

  -- If there are depths that give every node the number of links to its root, within the limit of
  -- the depth type, and neighbours are ordered by depth and at one depth by identifier, then
  -- `verifyWithParentIndex` returns true.
  pub verify_with_parent_index_complete :
      verify_with_parent_index w id_less id sentinel parent n ≡ true
  unfolding verify_with_parent_index
  verify_with_parent_index_complete = elim (Bool-cases (n == 0)) [
    | inl e ↦ rw e refl
    | inr e ↦ rw e (
        verify_nodes_complete n 0
          (record {
            verified_depth = replicate n 0;
            depth_ready = replicate n false;
            previous_depth = 0;
            previous_id = none;
          })
          (omega arith)
          (record {
            depth_count = length-replicate n 0;
            ready_count = length-replicate n false;
            ready = λ j h. absurd (omega arith);
            agrees = λ j h. absurd (omega arith);
            previous = inl (refl, refl);
          }))
  ]
