-- ===== src/Depth/Compute/Unwind.antt =====
-- The way back from a climb gives each node of the stack its depth.
use forest_sorting.Prelude.{
  ℕ, ◌+◌, ◌≤◌, ◌<◌, ◌≡◌, refl, sym, subst, ◌∙◌, ◌≢◌, inl, inr, Bool, true, false, List, [], ◌∷◌,
  arith, ◌==◌, Bool-cases, ==→≡, ==→≢, length, get_or, length-set, get_or-set_self, get_or-set_ne,
}
use forest_sorting.Errors.{ok}
use forest_sorting.Depth.{unvisited, complete, cast_depth, max_depth_for_prefix}
use forest_sorting.Depth.Compute.{DepthState, complete_node, unwind}
use forest_sorting.Depth.Compute.Spec.{parent_of, is_root, HasDepth, In, next_depth_fits}

module _ (w n : ℕ) (sentinel : ℕ → Bool) (parent : List ℕ) where
  abbrev pub Depth : ℕ → ℕ → Type 0
  Depth = HasDepth n sentinel parent

  -- The nodes of the stack are linked: the parent of each is the one above it, and `top` that of
  -- the first.
  abbrev pub IsLinked : ℕ → List ℕ → Type 0
  IsLinked top [] = Unit
  IsLinked top (x ∷ xs) =
      (x < n)
      × (is_root n sentinel parent x ≡ false)
      × (parent_of n sentinel parent x ≡ top)
      × IsLinked x xs

  -- What is known of the state: sizes, and that complete nodes have their depth.
  pub record IsPartial (s : DepthState) : Type 0 where
    pub value_count : length s.values ≡ n
    pub state_count : length s.visit_state ≡ n
    pub limit : s.observed_max ≤ max_depth_for_prefix w
    pub right :
        (i : ℕ)
        → i < n
        → get_or s.visit_state i unvisited ≡ complete
        → Depth i (get_or s.values i 0) × (get_or s.values i 0 ≤ s.observed_max)

  IsPartial-complete_node :
      (s : DepthState) (i d : ℕ)
      → i < n
      → d ≤ max_depth_for_prefix w
      → Depth i d
      → IsPartial s
      → IsPartial (complete_node s i d)
  unfolding complete_node
  IsPartial-complete_node s i d hi hd has p = record {
    value_count = length-set s.values i d ∙ p.value_count;
    state_count = length-set s.visit_state i complete ∙ p.state_count;
    limit = omega (arith, p.limit);
    right = λ j hj c. elim (Bool-cases (i == j)) [
      | inl same ↦
          let e = ==→≡ i j same in
          let v = get_or-set_self s.values i d 0 (omega (arith, p.value_count)) in
          rw (← e, v) (has, omega arith)
      | inr other ↦
          let e = ==→≢ i j other in
          let old = p.right j hj (sym (get_or-set_ne s.visit_state i j complete unvisited e) ∙ c) in
          rw (get_or-set_ne s.values i j d 0 e) (old.0, omega (arith, old.1))
    ];
  }

  -- What the loop has done to the nodes of the stack, and to no other.
  pub record Unwound (s : DepthState) (stack : List ℕ) (s' : DepthState) : Type 0 where
    pub is_partial : IsPartial s'
    pub completed : (i : ℕ) → In i stack → get_or s'.visit_state i unvisited ≡ complete
    pub others :
        (i : ℕ)
        → ¬ In i stack
        → get_or s'.visit_state i unvisited ≡ get_or s.visit_state i unvisited
    pub keeps :
        (i : ℕ)
        → get_or s.visit_state i unvisited ≡ complete
        → get_or s'.visit_state i unvisited ≡ complete

  complete_node_self :
      (s : DepthState) (i d : ℕ)
      → i < length s.visit_state
      → get_or (complete_node s i d).visit_state i unvisited ≡ complete
  unfolding complete_node
  complete_node_self s i d h = get_or-set_self s.visit_state i complete unvisited h

  complete_node_ne :
      (s : DepthState) (i j d : ℕ)
      → i ≢ j
      → get_or (complete_node s i d).visit_state j unvisited ≡ get_or s.visit_state j unvisited
  unfolding complete_node
  complete_node_ne s i j d h = get_or-set_ne s.visit_state i j complete unvisited h

  complete_node_keeps :
      (s : DepthState) (i j d : ℕ)
      → i < length s.visit_state
      → get_or s.visit_state j unvisited ≡ complete
      → get_or (complete_node s i d).visit_state j unvisited ≡ complete
  complete_node_keeps s i j d h c = elim (Bool-cases (i == j)) [
    | inl same ↦ rw (← ==→≡ i j same) (complete_node_self s i d h)
    | inr other ↦ complete_node_ne s i j d (==→≢ i j other) ∙ c
  ]

  -- One node done, then the rest.
  Unwound-cons :
      (s : DepthState) (i d : ℕ) (stack : List ℕ) (s' : DepthState)
      → i < length s.visit_state
      → Unwound (complete_node s i d) stack s'
      → Unwound s (i ∷ stack) s'
  Unwound-cons s i d stack s' h u = record {
    is_partial = u.is_partial;
    completed = λ j. elim [
      | inl e ↦ u.keeps j (rw e (complete_node_self s i d h))
      | inr m ↦ u.completed j m
    ];
    others =
        λ j out. u.others j (λ m. out (inr m)) ∙ complete_node_ne s i j d (λ e. out (inl (sym e)));
    keeps = λ j c. u.keeps j (complete_node_keeps s i j d h c);
  }

  pub unwind_linked :
      (stack : List ℕ) (top base : ℕ) (s s' : DepthState)
      → top < n
      → base ≤ max_depth_for_prefix w
      → Depth top base
      → IsLinked top stack
      → IsPartial s
      → unwind w n sentinel parent stack base false s ≡ ok s'
      → Unwound s stack s'
  unfolding unwind
  unwind_linked [] top base s s' ht hb has links p e =
      let same : s ≡ s' = cc in
      rw (← same) (record {
        is_partial = p;
        completed = λ i m. absurd m;
        others = λ i out. refl;
        keeps = λ i c. c;
      })
  unwind_linked (x ∷ stack) top base s s' ht hb has links p e =
      elim (Bool-cases (base == cast_depth w (max_depth_for_prefix w))) [
        | inl full ↦ absurd (cc (rw full at e))
        | inr room ↦
            let fits = next_depth_fits w base hb room in
            let has' : Depth x (base + 1) =
              subst (Depth x) (omega arith)
                (HasDepth.child x base links.1 (rw links.2 ht) (rw links.2 has)) in
            let e' = rw (room, fits.0) at e in
            Unwound-cons s x (base + 1) stack s' (omega (arith, p.state_count, links.0)) (
              unwind_linked stack x (base + 1) (complete_node s x (base + 1)) s' links.0 fits.1 has'
                links.3 (IsPartial-complete_node s x (base + 1) links.0 fits.1 has' p) e')
      ]

  pub unwind_root :
      (x : ℕ) (stack : List ℕ) (base : ℕ) (s s' : DepthState)
      → x < n
      → is_root n sentinel parent x ≡ true
      → IsLinked x stack
      → IsPartial s
      → unwind w n sentinel parent (x ∷ stack) base true s ≡ ok s'
      → Unwound s (x ∷ stack) s'
  unfolding unwind
  unwind_root x stack base s s' hx r links p e =
      Unwound-cons s x 0 stack s' (omega (arith, p.state_count)) (
        unwind_linked stack x 0 (complete_node s x 0) s' hx (omega arith) (HasDepth.root x r) links
          (IsPartial-complete_node s x 0 hx (omega arith) (HasDepth.root x r) p) e)
