-- ===== src/Depth/Compute/Total.antt =====
-- On a forest whose depths fit, `computeDepths` returns: the round counter of the climb suffices.
use forest_sorting.Prelude.{
  ℕ, zero, suc, ◌+◌, ◌≤◌, ◌<◌, ◌≡◌, refl, ap, subst, ◌∙◌, ◌≢◌, inl, inr, Bool, true, false, List,
  [], ◌∷◌, arith, ◌==◌, if◌then◌else◌, Bool-cases, ≡→==, length, get_or, set, length-set,
}
use forest_sorting.Errors.{ok, require_matching_count}
use forest_sorting.Depth.{
  DepthVisitState, unvisited, visiting, complete, max_depth_for_prefix, cast_depth,
}
use forest_sorting.Depth.Compute.{
  DepthState, Climb, ComputedDepths, climb, unwind, visit_node, visit_nodes, compute_depths,
  complete_node,
}
use forest_sorting.Depth.Compute.Spec.{
  HasDepth, is_root, parent_of, VisitState-cases, next_depth_fits, limit_of_cast,
}
use forest_sorting.Depth.Compute.Unwind.{IsLinked}
use forest_sorting.Depth.Compute.Climbing.{
  Hangs, at_root, at_complete, climb-Climbed, climb_root, climb_done, climb_further, mark_complete,
  mark_visiting,
}
use forest_sorting.Depth.Compute.Sound.{
  IsSettled, visit_node-Visited, climb_then_unwind, visit_node_done, visit_node_new, start,
  start-IsSettled,
}

is_unvisited : DepthVisitState → Bool
is_unvisited unvisited = true
is_unvisited _ = false

-- The nodes that no climb has met.
unvisited_count : List DepthVisitState → ℕ
unfolding is_unvisited
unvisited_count [] = 0
unvisited_count (v ∷ vs) = (if is_unvisited v then 1 else 0) + unvisited_count vs

unvisited_count-le-length : (vs : List DepthVisitState) → unvisited_count vs ≤ length vs
unfolding unvisited_count
unvisited_count-le-length [] = omega arith
unvisited_count-le-length (v ∷ vs) = ground (arith, unvisited_count-le-length vs)

-- A complete node is not among them.
unvisited_count-lt-length :
    (vs : List DepthVisitState) (i : ℕ)
    → get_or vs i unvisited ≡ complete
    → unvisited_count vs + 1 ≤ length vs
unfolding unvisited_count
unvisited_count-lt-length [] i e = absurd (cc)
unvisited_count-lt-length (v ∷ vs) zero e = ground (arith, unvisited_count-le-length vs)
unvisited_count-lt-length (v ∷ vs) (suc i) e = ground (arith, unvisited_count-lt-length vs i)

unvisited_count-mark :
    (vs : List DepthVisitState) (i : ℕ)
    → i < length vs
    → get_or vs i unvisited ≡ unvisited
    → unvisited_count (set vs i visiting) + 1 ≡ unvisited_count vs
unfolding unvisited_count
unvisited_count-mark [] i h e = absurd (omega arith)
unvisited_count-mark (v ∷ vs) zero h e = ground arith
unvisited_count-mark (v ∷ vs) (suc i) h e = omega (arith, unvisited_count-mark vs i (omega arith) e)

module _ (w n : ℕ) (sentinel : ℕ → Bool) (parent : List ℕ) where
  abbrev pub Depth : ℕ → ℕ → Type 0
  Depth = HasDepth n sentinel parent

  -- A node has one depth at most.
  pub HasDepth_unique : {i d e : ℕ} → Depth i d → Depth i e → d ≡ e
  HasDepth_unique (HasDepth.root _ r) (HasDepth.root _ r') = refl
  HasDepth_unique (HasDepth.root _ r) (HasDepth.child _ e inner _ _) = absurd (cc (r, inner))
  HasDepth_unique (HasDepth.child _ d inner _ _) (HasDepth.root _ r) = absurd (cc (r, inner))
  HasDepth_unique (HasDepth.child _ d _ _ h) (HasDepth.child _ e _ _ k) =
      ap suc (HasDepth_unique h k)

  -- The rounds left exceed the unvisited nodes as soon as some node is complete.
  abbrev IsEnough : ℕ → List DepthVisitState → Type 0
  IsEnough remaining visit =
      (unvisited_count visit ≤ remaining)
      × ((i : ℕ) → get_or visit i unvisited ≡ complete → unvisited_count visit + 1 ≤ remaining)

  -- The nodes being visited lie deeper than the current one.
  abbrev IsDeeper : ℕ → List DepthVisitState → Type 0
  IsDeeper d visit = (i : ℕ) → get_or visit i unvisited ≡ visiting → (e : ℕ) × Depth i e × (d < e)

  Depth-inner :
      {i d : ℕ}
      → is_root n sentinel parent i ≡ false
      → Depth i d
      → (d' : ℕ) × (d ≡ suc d')
        × (parent_of n sentinel parent i < n)
        × Depth (parent_of n sentinel parent i) d'
  Depth-inner inner (HasDepth.root _ r) = absurd (cc (r, inner))
  Depth-inner inner (HasDepth.child _ d _ h k) = (d, refl, h, k)

  -- A node of this depth is not being visited.
  not_visiting :
      {current d : ℕ} (visit : List DepthVisitState)
      → Depth current d
      → IsDeeper d visit
      → get_or visit current unvisited ≢ visiting
  not_visiting {current} {d} visit has deeper v =
      let (e, he, lt) = deeper current v in omega (arith, HasDepth_unique has he)

  IsEnough-mark :
      (r : ℕ) (visit : List DepthVisitState) (current : ℕ)
      → current < length visit
      → get_or visit current unvisited ≡ unvisited
      → IsEnough (suc r) visit
      → IsEnough r (set visit current visiting)
  IsEnough-mark r visit current h new enough =
      let fewer = unvisited_count-mark visit current h new in
      (
        omega (arith, fewer, enough.0),
        λ i c. omega (
          arith,
          fewer,
          enough.1 i ((mark_complete w n sentinel parent visit current i h new).0 c),
        ),
      )

  IsDeeper-mark :
      (d d' : ℕ) (visit : List DepthVisitState) (current : ℕ)
      → d ≡ suc d'
      → Depth current d
      → IsDeeper d visit
      → IsDeeper d' (set visit current visiting)
  IsDeeper-mark d d' visit current e has deeper i v =
      elim (mark_visiting w n sentinel parent visit current i v) [
        | inl same ↦ (d, rw same has, omega arith)
        | inr old ↦ let (k, hk, lt) = deeper i old in (k, hk, omega arith)
      ]

  climb_total :
      (remaining : ℕ) (values : List ℕ) (current d : ℕ) (visit : List DepthVisitState)
      (stack : List ℕ)
      → current < n
      → length visit ≡ n
      → Depth current d
      → IsEnough remaining visit
      → IsDeeper d visit
      → (c : Climb) × (climb w n sentinel parent remaining values current visit stack ≡ ok c)
  climb_total zero values current d visit stack hc len has enough deeper =
      elim (VisitState-cases (get_or visit current unvisited)) [
        | inl new ↦
            absurd (omega (arith, enough.0, unvisited_count-mark visit current (omega arith) new))
        | inr (inl busy) ↦ absurd (not_visiting visit has deeper busy)
        | inr (inr done) ↦ absurd (omega (arith, enough.1 current done))
      ]
  climb_total (suc r) values current d visit stack hc len has enough deeper =
      elim (VisitState-cases (get_or visit current unvisited)) [
        | inl new ↦ elim (Bool-cases (is_root n sentinel parent current)) [
          | inl root ↦ (_, climb_root w n sentinel parent r values current visit stack new root)
          | inr inner ↦
              let (d', e, into, has') = Depth-inner inner has in
              let (c, further) =
                climb_total r values (parent_of n sentinel parent current) d'
                  (set visit current visiting) (current ∷ stack) into
                  (length-set visit current visiting ∙ len) has'
                  (IsEnough-mark r visit current (omega arith) new enough)
                  (IsDeeper-mark d d' visit current e has deeper) in
              (
                c,
                climb_further w n sentinel parent r values current visit stack new inner into
                    ∙ further,
              )
        ]
        | inr (inl busy) ↦ absurd (not_visiting visit has deeper busy)
        | inr (inr done) ↦ (_, climb_done w n sentinel parent r values current visit stack done)
      ]

  -- Every node has a depth that its type can hold.
  abbrev pub IsForest : Type 0
  IsForest = (i : ℕ) → i < n → (d : ℕ) × Depth i d × (d ≤ max_depth_for_prefix w)

  unwind_total :
      (stack : List ℕ) (top base : ℕ) (s : DepthState)
      → IsForest
      → top < n
      → base ≤ max_depth_for_prefix w
      → Depth top base
      → IsLinked w n sentinel parent top stack
      → (s' : DepthState) × (unwind w n sentinel parent stack base false s ≡ ok s')
  unfolding unwind
  unwind_total [] top base s forest ht hb has links = (s, refl)
  unwind_total (x ∷ stack) top base s forest ht hb has links =
      let has' : Depth x (suc base) =
        HasDepth.child x base links.1 (rw links.2 ht) (rw links.2 has) in
      let (d, hd, small) = forest x links.0 in
      let same : d ≡ suc base = HasDepth_unique hd has' in
      elim (Bool-cases (base == cast_depth w (max_depth_for_prefix w))) [
        | inl full ↦ absurd (omega (arith, limit_of_cast w base full))
        | inr room ↦
            let fits = next_depth_fits w base hb room in
            let (s', rest) =
              unwind_total stack x (base + 1) (complete_node s x (base + 1)) forest links.0 fits.1
                (subst (Depth x) (omega arith) has') links.3 in
            (s', rw (room, fits.0) rest)
      ]

  unwind_hanging :
      (s : DepthState) (c : Climb)
      → IsForest
      → IsSettled w n sentinel parent s
      → Hangs w n sentinel parent s.values s.visit_state c
      → (s' : DepthState) × (unwind w n sentinel parent c.stack c.base_depth c.reached_root
            (record s { visit_state = c.visit_state })
          ≡ ok s')
  unfolding unwind
  unwind_hanging s c forest p (at_root _ x stack root split hx isroot links) =
      let s1 = record s { visit_state = c.visit_state } in
      let (s', e) =
        unwind_total stack x 0 (complete_node s1 x 0) forest hx (omega arith)
          (HasDepth.root x isroot) links in
      (s', rw (root, split) e)
  unwind_hanging s c forest p (at_complete _ top root htop done base links) =
      let known = p.is_partial.right top htop done in
      let (s', e) =
        unwind_total c.stack top c.base_depth (record s { visit_state = c.visit_state }) forest htop
          (omega (arith, known.1, p.is_partial.limit, base)) (rw base known.0) links in
      (s', rw root e)

  visit_node_total :
      (i : ℕ) (s : DepthState)
      → IsForest
      → i < n
      → IsSettled w n sentinel parent s
      → (s' : DepthState) × (visit_node w n sentinel parent i s ≡ ok s')
  unfolding climb_then_unwind
  visit_node_total i s forest hi p = elim (VisitState-cases (get_or s.visit_state i unvisited)) [
    | inl new ↦
        let (d, has, small) = forest i hi in
        let len = p.is_partial.state_count in
        let (c, climbs) =
          climb_total n s.values i d s.visit_state [] hi len has
            (
              omega (arith, unvisited_count-le-length s.visit_state),
              λ j e. omega (arith, unvisited_count-lt-length s.visit_state j e),
            )
            (λ j v. absurd (p.none_visiting j v)) in
        let found =
          climb-Climbed w n sentinel parent n s.values i s.visit_state [] c hi len tt
            (λ j v. absurd (p.none_visiting j v)) climbs in
        let (s', e) = unwind_hanging s c forest p found.hangs in
        (s', visit_node_new w n sentinel parent i s new ∙ rw climbs e)
    | inr (inl busy) ↦ absurd (p.none_visiting i busy)
    | inr (inr done) ↦ (s, visit_node_done w n sentinel parent i s done)
  ]

  visit_nodes_total :
      (rounds i : ℕ) (s : DepthState)
      → IsForest
      → i + rounds ≡ n
      → IsSettled w n sentinel parent s
      → (s' : DepthState) × (visit_nodes w n sentinel parent rounds i s ≡ ok s')
  unfolding visit_nodes
  visit_nodes_total zero i s forest h p = (s, refl)
  visit_nodes_total (suc rounds) i s forest h p =
      let (t, one) = visit_node_total i s forest (omega arith) p in
      let v = visit_node-Visited w n sentinel parent i s t (omega arith) p one in
      let (s', rest) = visit_nodes_total rounds (i + 1) t forest (omega arith) v.settled in
      (s', rw one rest)

  -- On a parent index of the right size in which every node has a depth that fits, no exception is
  -- thrown: the climb never uses up its rounds.
  pub compute_depths_total :
      length parent ≡ n
      → IsForest
      → (r : ComputedDepths) × (compute_depths w n sentinel parent ≡ ok r)
  unfolding compute_depths start require_matching_count
  compute_depths_total len forest =
      let (s, e) =
        visit_nodes_total n 0 (start w n sentinel parent) forest (omega arith)
          (start-IsSettled w n sentinel parent) in
      (
        record { values = s.values; observed_max = s.observed_max },
        rw (≡→== (length parent) n len, e),
      )
