-- ===== src/Traits.antt =====
-- The traits that a caller supplies (include/forest_sorting/traits.hpp), the sentinel test
-- (detail/parent_sentinel.hpp) and the constants (detail/constants.hpp).
use forest_sorting.Prelude.{ℕ, ◌-◌, ◌^◌, Bool, false, Option, some, none}

-- `std::numeric_limits<std::size_t>::max()`, for a 64-bit `size_t`.
abbrev pub no_parent : ℕ
no_parent = 2 ^ 64 - 1

-- The part of a traits type that is about identifiers. A hook that the concepts detect is an
-- option; `chunk_msb_first` is detected for each width by itself.
pub record IdTraits (NodeId : Type 0) : Type 0 where
  pub id_byte_count : ℕ
  pub byte_msb_first : NodeId → ℕ → ℕ
  pub less : Option (NodeId → NodeId → Bool)
  pub equal : Option (NodeId → NodeId → Bool)
  pub is_parent_sentinel : Option (NodeId → Bool)
  pub chunk_msb_first : ℕ → Option (NodeId → ℕ → ℕ)

-- A whole traits type.
pub record Traits (Node NodeId : Type 0) : Type 0 where
  pub ids : IdTraits NodeId
  pub id : Node → NodeId
  pub parent_id : Node → NodeId

-- `isParentSentinel`: with no hook no identifier is a sentinel.
unfoldable pub is_parent_sentinel : {NodeId : Type 0} → IdTraits NodeId → NodeId → Bool
is_parent_sentinel traits parent_id = elim traits.is_parent_sentinel [
  | some hook ↦ hook parent_id
  | none ↦ false
]
