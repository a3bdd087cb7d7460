-- ===== src/Depth/Compute/Spec.antt =====
-- What the depth of a node is: the number of links to its root.
use forest_sorting.Prelude.{
  ℕ, suc, ◌+◌, ◌≤◌, ◌<◌, ◌≡◌, refl, ◌⊎◌, inl, inr, Bool, true, false, ◌||◌, List, [], ◌∷◌, arith,
  ◌==◌, get_or,
}
use forest_sorting.Traits.{no_parent}
use forest_sorting.Depth.{
  DepthVisitState, unvisited, visiting, complete, cast_depth, max_depth_for_prefix,
  depth_value_bits,
}

module _ (node_count : ℕ) (sentinel : ℕ → Bool) (parent : List ℕ) where
  -- The parent in the index.
  abbrev pub parent_of : ℕ → ℕ
  parent_of i = get_or parent i no_parent

  abbrev pub is_root : ℕ → Bool
  is_root i = sentinel i || parent_of i == no_parent

  pub data HasDepth : ℕ → ℕ → Type 0 where
    root : (i : ℕ) → is_root i ≡ true → HasDepth i 0
    child :
        (i d : ℕ)
        → is_root i ≡ false
        → parent_of i < node_count
        → HasDepth (parent_of i) d
        → HasDepth i (suc d)

abbrev pub In : ℕ → List ℕ → Type 0
In i [] = ⊥
In i (x ∷ xs) = (i ≡ x) ⊎ In i xs

pub VisitState-cases : (v : DepthVisitState) → (v ≡ unvisited) ⊎ ((v ≡ visiting) ⊎ (v ≡ complete))
VisitState-cases unvisited = inl refl
VisitState-cases visiting = inr (inl refl)
VisitState-cases complete = inr (inr refl)

-- Below the limit the next depth fits its type.
pub next_depth_fits :
    (w b : ℕ)
    → b ≤ max_depth_for_prefix w
    → (b == cast_depth w (max_depth_for_prefix w)) ≡ false
    → (cast_depth w (b + 1) ≡ b + 1) × (b + 1 ≤ max_depth_for_prefix w)
unfolding cast_depth max_depth_for_prefix depth_value_bits
next_depth_fits w b h e = ground arith

pub limit_of_cast :
    (w b : ℕ) → (b == cast_depth w (max_depth_for_prefix w)) ≡ true → b ≡ max_depth_for_prefix w
unfolding cast_depth max_depth_for_prefix depth_value_bits
limit_of_cast w b e = ground arith
