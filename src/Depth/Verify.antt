-- ===== src/Depth/Verify.antt =====
-- `verifyWithParentIndex` (include/forest_sorting/detail/depth.hpp).
pub mod Spec
pub mod Sound
pub mod Complete
use forest_sorting.Prelude.{
  ℕ, zero, suc, ◌+◌, Bool, true, false, not, ◌&&◌, ◌||◌, Option, none, some, List, ltb, ◌==◌,
  if◌then◌else◌, get_or, set, replicate,
}
use forest_sorting.Traits.{no_parent}
use forest_sorting.Depth.{cast_depth, max_depth_for_prefix}

-- The vectors and the previous node that the loop carries.
pub record VerifyState (NodeId : Type 0) : Type 0 where
  pub verified_depth : List ℕ
  pub depth_ready : List Bool
  pub previous_depth : ℕ
  pub previous_id : Option NodeId

module _ {NodeId : Type 0} (prefix_bytes : ℕ) (id_less : NodeId → NodeId → Bool) (id : ℕ → NodeId)
    (sentinel : ℕ → Bool) (parent_index : List ℕ) where
  -- The depth of a node from that of its parent; `none` is an early `return false`.
  unfoldable pub current_depth : VerifyState NodeId → ℕ → Option ℕ
  unfolding cast_depth max_depth_for_prefix
  current_depth s node_idx =
      let parent_node_index = get_or parent_index node_idx no_parent in
      let parent_depth = get_or s.verified_depth parent_node_index 0 in
      if not (sentinel node_idx) && not (parent_node_index == no_parent)
      then (if not (get_or s.depth_ready parent_node_index false)
          then none
          else if parent_depth == cast_depth prefix_bytes (max_depth_for_prefix prefix_bytes)
          then none
          else some (cast_depth prefix_bytes (parent_depth + 1)))
      else some 0

  -- The order test on the previous node.
  unfoldable pub out_of_order : VerifyState NodeId → ℕ → NodeId → Bool
  out_of_order s depth current_id = elim s.previous_id [
    | none ↦ false
    | some previous ↦
        ltb depth s.previous_depth || ((depth == s.previous_depth) && id_less current_id previous)
  ]

  unfoldable pub verify_node : ℕ → VerifyState NodeId → Option (VerifyState NodeId)
  unfolding current_depth out_of_order
  verify_node node_idx s = elim (current_depth s node_idx) [
    | none ↦ none
    | some depth ↦
        if out_of_order s depth (id node_idx)
        then none
        else some (record {
          verified_depth = set s.verified_depth node_idx depth;
          depth_ready = set s.depth_ready node_idx true;
          previous_depth = depth;
          previous_id = some (id node_idx);
        })
  ]

  unfoldable pub verify_nodes : ℕ → ℕ → VerifyState NodeId → Bool
  unfolding verify_node
  verify_nodes zero node_idx s = true
  verify_nodes (suc rounds) node_idx s = elim (verify_node node_idx s) [
    | none ↦ false
    | some s' ↦ verify_nodes rounds (node_idx + 1) s'
  ]

  -- For no node the loop has no round, as in the early return.
  unfoldable pub verify_with_parent_index : ℕ → Bool
  unfolding verify_nodes
  verify_with_parent_index node_count =
      if node_count == 0
      then true
      else verify_nodes node_count 0 (record {
        verified_depth = replicate node_count 0;
        depth_ready = replicate node_count false;
        previous_depth = 0;
        previous_id = none;
      })
