-- ===== src/Errors.antt =====
-- Exceptions as values: `std::runtime_error` and `std::logic_error` by their messages
-- (include/forest_sorting/detail/validation.hpp holds the two generic checks).
use forest_sorting.Prelude.{ℕ, List, [], ◌∷◌, Bool, if◌then◌else◌, ◌==◌, ◌≡◌, refl}

pub data Error : Type 0 where
  -- "duplicate node id"
  duplicate_node_id : Error
  -- "parent cycle"
  parent_cycle : Error
  -- "parent index out of range"
  parent_out_of_range : Error
  -- "forest depth exceeds sortable depth limit"
  depth_limit : Error
  -- "depth vector size does not match nodes"
  depth_count_mismatch : Error
  -- "parent index size does not match nodes"
  parent_count_mismatch : Error
  -- "small sorter range exceeds fixed scratch capacity"
  small_sort_capacity : Error
  -- the `std::logic_error` of an impossible prefix width
  invalid_prefix_width : Error
  -- a loop of the model ran out of fuel; no exception of the program
  out_of_fuel : Error

-- What a call gives: an exception, or its value.
pub data Result {ℓ} (Value : Type ℓ) : Type ℓ where
  throws : (error : Error) → Result Value
  ok : (value : Value) → Result Value

infixl 5 ◌>>=◌
infixl 5 ◌>>◌
-- A statement and those behind it, which an exception skips.
abbrev pub ◌>>=◌ {ℓ κ} :
    {Value : Type ℓ} {Next : Type κ} (first : Result Value) (others : Value → Result Next)
    → Result Next
throws error >>= others = throws error
ok value >>= others = others value

-- The same where the first one returns nothing.
abbrev pub ◌>>◌ {κ} :
    {Next : Type κ} (first : Result (Unit {0})) (others : Result Next) → Result Next
first >> others = first >>= λ done. others

pub ok_injective {ℓ} : {A : Type ℓ} {a b : A} → ok a ≡ ok b → a ≡ b
ok_injective e = cc

pub throws-ne-ok {ℓ} : {A : Type ℓ} {e : Error} {a : A} → ¬ (throws e ≡ ok a)
throws-ne-ok h = cc

pub ok-ne-throws {ℓ} : {A : Type ℓ} {e : Error} {a : A} → ¬ (ok a ≡ throws e)
ok-ne-throws h = cc

-- Inversion of a successful chain.
pub >>=-eq-ok {ℓ κ} :
    {Value : Type ℓ} {Next : Type κ} (first : Result Value) (others : Value → Result Next)
    {out : Next}
    → (first >>= others) ≡ ok out
    → (v : Value) × (first ≡ ok v) × (others v ≡ ok out)
>>=-eq-ok (throws error) others returned = cc
>>=-eq-ok (ok value) others returned = (value, refl, returned)

-- `requireMatchingCount`
unfoldable pub require_matching_count : ℕ → ℕ → Error → Result (Unit {0})
require_matching_count actual expected message =
    if actual == expected then ok tt else throws message

module _ {ℓ} {A : Type ℓ} (equal : A → A → Bool) where
  -- `rejectAdjacentDuplicates`: the loop looks at each pair of neighbours.
  unfoldable pub reject_adjacent_duplicates : List A → Error → Result (Unit {0})
  reject_adjacent_duplicates [] message = ok tt
  reject_adjacent_duplicates (x ∷ []) message = ok tt
  reject_adjacent_duplicates (x ∷ y ∷ rest) message =
      let others = reject_adjacent_duplicates (y ∷ rest) message in
      if equal x y then throws message else others
