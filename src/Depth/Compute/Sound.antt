-- ===== src/Depth/Compute/Sound.antt =====
-- The depths that `computeDepths` returns are right.
use forest_sorting.Prelude.{
  ℕ, zero, suc, ◌+◌, ◌≤◌, ◌<◌, ◌≡◌, sym, subst, ◌∙◌, ◌≢◌, ◌⊎◌, inl, inr, Bool, List, [], ◌∷◌, arith,
  ◌==◌, Bool-cases, ==→≡, ==→≢, length, get_or, replicate, length-replicate, get_or-replicate,
}
use forest_sorting.Errors.{
  Result, ok, Error, ok_injective, require_matching_count, >>=-eq-ok, ◌>>=◌,
}
use forest_sorting.Depth.{unvisited, visiting, complete, max_depth_for_prefix}
use forest_sorting.Depth.Compute.{
  DepthState, Climb, ComputedDepths, climb, unwind, visit_node, visit_nodes, compute_depths,
}
use forest_sorting.Depth.Compute.Spec.{HasDepth, In, VisitState-cases}
use forest_sorting.Depth.Compute.Unwind.{IsPartial, Unwound, unwind_linked, unwind_root}
use forest_sorting.Depth.Compute.Climbing.{Climbed, Hangs, at_root, at_complete, climb-Climbed}
use native.Mathlib.Decide.{dec_lt}

In-cases : (i : ℕ) (xs : List ℕ) → In i xs ⊎ (¬ In i xs)
In-cases i [] = inr (λ m. m)
In-cases i (x ∷ xs) = elim (Bool-cases (i == x)) [
  | inl e ↦ inl (inl (==→≡ i x e))
  | inr ne ↦ elim (In-cases i xs) [
    | inl m ↦ inl (inr m)
    | inr out ↦ inr (elim [ inl e ↦ ==→≢ i x ne e | inr m ↦ out m ])
  ]
]

module _ (w n : ℕ) (sentinel : ℕ → Bool) (parent : List ℕ) where
  -- Between two rounds of the outer loop no node is being visited.
  pub record IsSettled (s : DepthState) : Type 0 where
    pub is_partial : IsPartial w n sentinel parent s
    pub none_visiting : (i : ℕ) → get_or s.visit_state i unvisited ≢ visiting

  abbrev pub IsComplete : DepthState → ℕ → Type 0
  IsComplete s i = get_or s.visit_state i unvisited ≡ complete

  -- One round: the node is complete then, and the others that were stay so.
  pub record Visited (i : ℕ) (s s' : DepthState) : Type 0 where
    pub settled : IsSettled s'
    pub this : IsComplete s' i
    pub keeps : (j : ℕ) → IsComplete s j → IsComplete s' j

  -- The states after the climb are as good as those before it.
  pub IsPartial-climb :
      (s : DepthState) (i : ℕ) (c : Climb)
      → IsPartial w n sentinel parent s
      → Climbed w n sentinel parent s.values s.visit_state i [] c
      → IsPartial w n sentinel parent (record s { visit_state = c.visit_state })
  IsPartial-climb s i c p d = record {
    value_count = p.value_count;
    state_count = d.state_count ∙ p.state_count;
    limit = p.limit;
    right = λ j hj e. p.right j hj ((d.same_complete j).0 e);
  }

  pub unwind-Climbed :
      (s s' : DepthState) (i : ℕ) (c : Climb)
      → IsPartial w n sentinel parent s
      → Climbed w n sentinel parent s.values s.visit_state i [] c
      → unwind w n sentinel parent c.stack c.base_depth c.reached_root
          (record s { visit_state = c.visit_state })
        ≡ ok s'
      → Unwound w n sentinel parent (record s { visit_state = c.visit_state }) c.stack s'
  unwind-Climbed s s' i c p d e = go d.hangs
    where
      p' : IsPartial w n sentinel parent (record s { visit_state = c.visit_state })
      p' = IsPartial-climb s i c p d

      s1 : DepthState
      s1 = record s { visit_state = c.visit_state }

      go :
          Hangs w n sentinel parent s.values s.visit_state c
          → Unwound w n sentinel parent s1 c.stack s'
      go (at_root _ x stack root split hx is_root links) =
          subst (λ l. Unwound w n sentinel parent s1 l s') (sym split)
            (unwind_root w n sentinel parent x stack c.base_depth s1 s' hx is_root links p'
              (rw (split, root) at e))
      go (at_complete _ top root htop done base links) =
          let known = p.right top htop done in
          unwind_linked w n sentinel parent c.stack top c.base_depth s1 s' htop
            (omega (arith, known.1, p.limit, base)) (rw base known.0) links p' (rw root at e)

  pub Visited-unwind :
      (s s' : DepthState) (i : ℕ) (c : Climb)
      → IsSettled s
      → Climbed w n sentinel parent s.values s.visit_state i [] c
      → Unwound w n sentinel parent (record s { visit_state = c.visit_state }) c.stack s'
      → Visited i s s'
  Visited-unwind s s' i c p d u = record {
    settled = record {
      is_partial = u.is_partial;
      none_visiting = λ j v. elim (In-cases j c.stack) [
        | inl m ↦ cc (u.completed j m)
        | inr out ↦ out (d.open_nodes j (sym (u.others j out) ∙ v))
      ];
    };
    this = elim d.met [ inl m ↦ u.completed i m | inr e ↦ u.keeps i ((d.same_complete i).1 e) ];
    keeps = λ j e. u.keeps j ((d.same_complete j).1 e);
  }

  unfoldable pub climb_then_unwind : ℕ → DepthState → Result DepthState
  climb_then_unwind i s = climb w n sentinel parent n s.values i s.visit_state [] >>= λ c.
      unwind w n sentinel parent c.stack c.base_depth c.reached_root
        (record s { visit_state = c.visit_state })

  pub visit_node_done :
      (i : ℕ) (s : DepthState) → IsComplete s i → visit_node w n sentinel parent i s ≡ ok s
  unfolding visit_node
  visit_node_done i s e = rw (e, visit_node)

  pub visit_node_new :
      (i : ℕ) (s : DepthState)
      → get_or s.visit_state i unvisited ≡ unvisited
      → visit_node w n sentinel parent i s ≡ climb_then_unwind i s
  unfolding visit_node climb_then_unwind
  visit_node_new i s e = rw (e, visit_node)

  pub visit_node-Visited :
      (i : ℕ) (s s' : DepthState)
      → i < n
      → IsSettled s
      → visit_node w n sentinel parent i s ≡ ok s'
      → Visited i s s'
  unfolding climb_then_unwind
  visit_node-Visited i s s' hi p e = elim (VisitState-cases (get_or s.visit_state i unvisited)) [
    | inl new ↦
        let (c, climbs, unwinds) =
          >>=-eq-ok (climb w n sentinel parent n s.values i s.visit_state []) _
            (sym (visit_node_new i s new) ∙ e) in
        let d =
          climb-Climbed w n sentinel parent n s.values i s.visit_state [] c hi
            p.is_partial.state_count tt (λ j v. absurd (p.none_visiting j v)) climbs in
        Visited-unwind s s' i c p d (unwind-Climbed s s' i c p.is_partial d unwinds)
    | inr (inl busy) ↦ absurd (p.none_visiting i busy)
    | inr (inr done) ↦
        let same = ok_injective (sym (visit_node_done i s done) ∙ e) in
        subst (Visited i s) same (record { settled = p; this = done; keeps = λ j c. c })
  ]

  visit_nodes-Visited :
      (rounds i : ℕ) (s s' : DepthState)
      → i + rounds ≡ n
      → IsSettled s
      → ((j : ℕ) → j < i → IsComplete s j)
      → visit_nodes w n sentinel parent rounds i s ≡ ok s'
      → IsSettled s' × ((j : ℕ) → j < n → IsComplete s' j)
  unfolding visit_nodes
  visit_nodes-Visited zero i s s' h p before e =
      let same = ok_injective e in
      subst (λ t. IsSettled t × ((j : ℕ) → j < n → IsComplete t j)) same
        (p, λ j hj. before j (omega arith))
  visit_nodes-Visited (suc rounds) i s s' h p before e =
      let (t, one, rest) = >>=-eq-ok (visit_node w n sentinel parent i s) _ e in
      let v = visit_node-Visited i s t (omega arith) p one in
      visit_nodes-Visited rounds (i + 1) t s' (omega arith) v.settled
        (λ j hj. elim (dec_lt j i) [
          | yes q ↦ v.keeps j (before j q)
          | no q ↦ let here : i ≡ j = omega arith in rw (← here) v.this
        ])
        rest

  -- What a right result is.
  pub record AreDepths (r : ComputedDepths) : Type 0 where
    pub count : length r.values ≡ n
    pub right : (i : ℕ) → i < n → HasDepth n sentinel parent i (get_or r.values i 0)
    pub bounded : (i : ℕ) → i < n → get_or r.values i 0 ≤ r.observed_max
    pub limit : r.observed_max ≤ max_depth_for_prefix w

  unfoldable pub start : DepthState
  start = record { values = replicate n 0; observed_max = 0; visit_state = replicate n unvisited }

  pub start-IsSettled : IsSettled start
  unfolding start
  start-IsSettled = record {
    is_partial = record {
      value_count = length-replicate n 0;
      state_count = length-replicate n unvisited;
      limit = omega arith;
      right = λ i hi e. absurd (cc (get_or-replicate n i unvisited));
    };
    none_visiting = λ i e. cc (get_or-replicate n i unvisited);
  }

  -- If `computeDepths` returns, each node has the number of links to its root as its depth, and
  -- the observed maximum bounds the depths and fits the depth type.
  pub compute_depths_sound :
      (r : ComputedDepths) → compute_depths w n sentinel parent ≡ ok r → AreDepths r
  unfolding compute_depths start require_matching_count
  compute_depths_sound r e =
      let (u, matches, rest) =
        >>=-eq-ok (require_matching_count (length parent) n Error.parent_count_mismatch) _ e in
      let (s, visits, ends) = >>=-eq-ok (visit_nodes w n sentinel parent n 0 start) _ rest in
      let (p, all) =
        visit_nodes-Visited n 0 start s (omega arith) start-IsSettled (λ j h. absurd (omega arith))
          visits in
      subst AreDepths (ok_injective ends) (record {
        count = p.is_partial.value_count;
        right = λ i h. (p.is_partial.right i h (all i h)).0;
        bounded = λ i h. (p.is_partial.right i h (all i h)).1;
        limit = p.is_partial.limit;
      })
