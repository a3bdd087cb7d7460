-- ===== src/Depth/Verify/Spec.antt =====
-- What `verifyWithParentIndex` should accept.
use forest_sorting.Prelude.{ℕ, suc, ◌≤◌, ◌<◌, ◌≡◌, ◌⊎◌, Bool, false, none, some, List, get_or}
use forest_sorting.Depth.Verify.{VerifyState}
use forest_sorting.Depth.Compute.Spec.{HasDepth}
use forest_sorting.Depth.{max_depth_for_prefix}

-- Neighbours are ordered by depth, and at one depth the second identifier is not less.
abbrev pub AreOrdered :
    {NodeId : Type 0} → (NodeId → NodeId → Bool) → (ℕ → NodeId) → List ℕ → ℕ → Type 0
AreOrdered id_less id depths j =
    (get_or depths j 0 < get_or depths (suc j) 0)
    ⊎ ((get_or depths j 0 ≡ get_or depths (suc j) 0) × (id_less (id (suc j)) (id j) ≡ false))

module _ {NodeId : Type 0} (w n : ℕ) (id_less : NodeId → NodeId → Bool) (id : ℕ → NodeId)
    (sentinel : ℕ → Bool) (parent : List ℕ) where
  -- Depths of the nodes in the forest, with the nodes in order.
  pub record IsSortedForest (depths : List ℕ) : Type 0 where
    pub right : (i : ℕ) → i < n → HasDepth n sentinel parent i (get_or depths i 0)
    pub fits : (i : ℕ) → i < n → get_or depths i 0 ≤ max_depth_for_prefix w
    pub ordered : (j : ℕ) → suc j < n → AreOrdered id_less id depths j

  -- What the state knows of the node before `k`.
  abbrev pub IsPrevious : ℕ → List ℕ → VerifyState NodeId → Type 0
  IsPrevious k depths s =
      ((k ≡ 0) × (s.previous_id ≡ none))
      ⊎ ((p : ℕ) × (k ≡ suc p)
          × (s.previous_depth ≡ get_or depths p 0)
          × (s.previous_id ≡ some (id p)))
