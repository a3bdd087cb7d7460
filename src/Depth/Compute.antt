-- ===== src/Depth/Compute.antt =====
-- `computeDepths`: an iterative climb to a node of known depth, then the way back.
pub mod Spec
pub mod Unwind
pub mod Climbing
pub mod Sound
pub mod Total
use forest_sorting.Prelude.{
  ℕ, zero, suc, ◌+◌, ◌-◌, ◌*◌, ◌/◌, ◌%◌, ◌^◌, ◌≤◌, ◌<◌, max, min, ◌≡◌, refl, sym, ap, ap₂, subst,
  ◌∙◌, ◌≢◌, ◌↔◌, ◌⊎◌, inl, inr, Bool, true, false, not, ◌&&◌, ◌||◌, Option, none, some, List, [],
  ◌∷◌, ◌++◌, map, append-nil, append_assoc, arith, ltb, leb, ◌==◌, if◌then◌else◌, Bool-cases,
  Option-cases, ltb→lt, ltb→le, lt→ltb, le→ltb, leb→le, leb→lt, le→leb, lt→leb, ==→≡, ==→≢, ==_refl,
  ≡→==, ≢→==, length, get_or, set, replicate, take, drop, All, iota, length-iota, length-append,
  length-set, length-replicate, length-take, length-drop, take-append-drop, get_or-set_self,
  get_or-set_ne, get_or-replicate, get_or-append_at, set-append_at, get_or-append_left, get_or_ext,
  All-get_or, All-of, All-append, All-map, length-map,
}
use forest_sorting.Errors.{Result, ok, throws, Error, require_matching_count, ◌>>=◌, ◌>>◌}
use forest_sorting.Traits.{no_parent}
use forest_sorting.Depth.{
  DepthVisitState, unvisited, visiting, complete, cast_depth, max_depth_for_prefix,
}

-- `ComputedDepths`
pub record ComputedDepths : Type 0 where
  pub values : List ℕ
  pub observed_max : ℕ

-- What the climb leaves: the base depth, whether it met a root, the states and the stack.
pub record Climb : Type 0 where
  pub base_depth : ℕ
  pub reached_root : Bool
  pub visit_state : List DepthVisitState
  pub stack : List ℕ

-- The result vector with the states of the nodes.
pub record DepthState : Type 0 where
  pub values : List ℕ
  pub observed_max : ℕ
  pub visit_state : List DepthVisitState

-- A node of the stack gets its depth.
unfoldable pub complete_node : DepthState → ℕ → ℕ → DepthState
complete_node s node_index base_depth = record {
  values = set s.values node_index base_depth;
  observed_max = max s.observed_max base_depth;
  visit_state = set s.visit_state node_index complete;
}

-- `sentinel i` is the sentinel test on the parent identifier of node `i`; `parent` is the index.
module _ (prefix_bytes node_count : ℕ) (sentinel : ℕ → Bool) (parent : List ℕ) where
  -- The inner `for`, with `remaining` rounds left.
  unfoldable pub climb : ℕ → List ℕ → ℕ → List DepthVisitState → List ℕ → Result Climb
  climb zero values current visit stack = throws Error.parent_cycle
  climb (suc remaining) values current visit stack =
      let visit' = set visit current visiting in
      let stack' = current ∷ stack in
      let parent_index = get_or parent current no_parent in
      let further = climb remaining values parent_index visit' stack' in
      elim (get_or visit current unvisited) [
        | complete ↦ ok (record {
          base_depth = get_or values current 0;
          reached_root = false;
          visit_state = visit;
          stack = stack;
        })
        | visiting ↦ throws Error.parent_cycle
        | unvisited ↦
            if sentinel current || parent_index == no_parent
            then ok (record {
              base_depth = 0;
              reached_root = true;
              visit_state = visit';
              stack = stack';
            })
            else if leb node_count parent_index
            then throws Error.parent_out_of_range
            else further
      ]

  -- The `while (!stack.empty())`.
  unfoldable pub unwind : List ℕ → ℕ → Bool → DepthState → Result DepthState
  unfolding complete_node cast_depth max_depth_for_prefix
  unwind [] base_depth reached_root s = ok s
  unwind (node_index ∷ stack) base_depth true s =
      unwind stack 0 false (complete_node s node_index 0)
  unwind (node_index ∷ stack) base_depth false s =
      let next_depth = cast_depth prefix_bytes (base_depth + 1) in
      let rest = unwind stack next_depth false (complete_node s node_index next_depth) in
      if base_depth == cast_depth prefix_bytes (max_depth_for_prefix prefix_bytes)
      then throws Error.depth_limit
      else rest

  -- The body of the outer `for`.
  unfoldable pub visit_node : ℕ → DepthState → Result DepthState
  unfolding climb unwind
  visit_node node_idx s = elim (get_or s.visit_state node_idx unvisited) [
    | complete ↦ ok s
    | _ ↦ climb node_count s.values node_idx s.visit_state [] >>= λ c.
        unwind c.stack c.base_depth c.reached_root (record s { visit_state = c.visit_state })
  ]

  -- The outer `for`, with `rounds` nodes left from `node_idx` on.
  unfoldable pub visit_nodes : ℕ → ℕ → DepthState → Result DepthState
  visit_nodes zero node_idx s = ok s
  visit_nodes (suc rounds) node_idx s = visit_node node_idx s >>= visit_nodes rounds (node_idx + 1)

  unfoldable pub compute_depths : Result ComputedDepths
  unfolding visit_nodes visit_node require_matching_count
  compute_depths = do
    require_matching_count (length parent) node_count Error.parent_count_mismatch
    s ← visit_nodes node_count 0 (record {
      values = replicate node_count 0;
      observed_max = 0;
      visit_state = replicate node_count unvisited;
    })
    ok (record { values = s.values; observed_max = s.observed_max })
