-- ===== src/Uint128.antt =====
-- 128-bit identifiers and the forest of nodes that have them (include/forest_sorting/uint128.hpp and
-- uint128_forest.hpp).
pub mod Bytes
pub mod Hex
pub mod Tests
use forest_sorting.Prelude.{
  ℕ, zero, suc, ◌+◌, ◌-◌, ◌*◌, ◌/◌, ◌%◌, ◌^◌, ◌≤◌, ◌<◌, max, min, ◌≡◌, refl, sym, ap, ap₂, subst,
  ◌∙◌, ◌≢◌, ◌↔◌, ◌⊎◌, inl, inr, Bool, true, false, not, ◌&&◌, ◌||◌, Option, none, some, List, [],
  ◌∷◌, ◌++◌, map, append-nil, append_assoc, arith, ltb, leb, ◌==◌, if◌then◌else◌, Bool-cases,
  Option-cases, ltb→lt, ltb→le, lt→ltb, le→ltb, leb→le, leb→lt, le→leb, lt→leb, ==→≡, ==→≢, ==_refl,
  ≡→==, ≢→==, length, get_or, set, replicate, take, drop, All, iota, length-iota, length-append,
  length-set, length-replicate, length-take, length-drop, take-append-drop, get_or-set_self,
  get_or-set_ne, get_or-replicate, get_or-append_at, set-append_at, get_or-append_left, get_or_ext,
  All-get_or, All-of, All-append, All-map, length-map,
}
use forest_sorting.Errors.{Result}
use forest_sorting.Traits.{IdTraits, Traits}
use Prim.Native.Nat.{bit_or}
use forest_sorting.Algorithms.{
  sorted_order_by_depth_and_id, verify_sorted_by_depth_and_id, sorted_copy_by_depth_and_id,
  sort_in_place_by_depth_and_id,
}
use forest_sorting.Ids.Chunks.{is_chunk_width}

-- `UInt128`: a number of 128 bits.
pub record UInt128 : Type 0 where
  pub value : ℕ
  pub value_lt : value < 2 ^ 128

-- A cast to `UInt128`.
unfoldable pub cast_uint128 : ℕ → UInt128
cast_uint128 n = record { value = n % 2 ^ 128; value_lt = omega arith }

-- `makeId`, of words of 64 bits
unfoldable pub make_id : ℕ → ℕ → UInt128
make_id high low = cast_uint128 (bit_or (high * 2 ^ 64 % 2 ^ 128) low)

-- The halves that `toHex` prints.
unfoldable pub high_word : UInt128 → ℕ
high_word x = x.value / 2 ^ 64 % 2 ^ 64

unfoldable pub low_word : UInt128 → ℕ
low_word x = x.value % 2 ^ 64

-- What `std::hex` prints of a word that is not zero, by the values of the digits; a word of 64 bits has
-- at most 16.
unfoldable pub hex_digits : ℕ → ℕ → List ℕ
hex_digits zero word = []
hex_digits (suc k) word =
    let rest = hex_digits k (word / 16) ++ (word % 16) ∷ [] in if word == 0 then [] else rest

-- `std::setw(16) << std::setfill('0')`
unfoldable pub padded : List ℕ → List ℕ
padded digits = replicate (16 - length digits) 0 ++ digits

-- `toHex`: the values of the digits behind the prefix "0x".
unfoldable pub to_hex : UInt128 → List ℕ
to_hex x =
    if x.value == 0
    then 0 ∷ []
    else if high_word x == 0
    then hex_digits 16 (low_word x)
    else hex_digits 16 (high_word x) ++ padded (hex_digits 16 (low_word x))

-- `UInt128Traits::byte_msb_first`
unfoldable pub uint128_byte_msb_first : UInt128 → ℕ → ℕ
uint128_byte_msb_first node_id byte_index = node_id.value / 2 ^ ((16 - 1 - byte_index) * 8) % 2 ^ 8

-- `UInt128Traits::chunk_msb_first`, for each width that it supports
unfoldable pub uint128_chunk_msb_first : ℕ → UInt128 → ℕ → ℕ
uint128_chunk_msb_first chunk_bytes node_id chunk_index =
    if chunk_bytes == 1
    then uint128_byte_msb_first node_id chunk_index
    else if chunk_bytes == 2
    then node_id.value / 2 ^ ((7 - chunk_index) * 16) % 2 ^ 16
    else if chunk_bytes == 4
    then node_id.value / 2 ^ ((3 - chunk_index) * 32) % 2 ^ 32
    else if chunk_index == 0
    then node_id.value / 2 ^ 64 % 2 ^ 64
    else node_id.value % 2 ^ 64

-- `UInt128Traits`
unfoldable pub uint128_traits : IdTraits UInt128
uint128_traits = record {
  id_byte_count = 16;
  byte_msb_first = uint128_byte_msb_first;
  less = some (λ lhs rhs. ltb lhs.value rhs.value);
  equal = some (λ lhs rhs. lhs.value == rhs.value);
  is_parent_sentinel = some (λ node_id. node_id.value == 0);
  chunk_msb_first = λ chunk_bytes.
      if is_chunk_width chunk_bytes then some (uint128_chunk_msb_first chunk_bytes) else none;
}

pub record Node : Type 0 where
  pub id : UInt128
  pub parent_id : UInt128

-- `UInt128NodeTraits`
unfoldable pub uint128_node_traits : Traits Node UInt128
uint128_node_traits = record {
  ids = uint128_traits;
  id = λ node. node.id;
  parent_id = λ node. node.parent_id;
}

abbrev pub blank_node : Node
unfolding cast_uint128
blank_node = record { id = cast_uint128 0; parent_id = cast_uint128 0 }

-- The overloads for a vector of these nodes.
unfoldable pub sorted_order_of_nodes : List Node → Result (List ℕ)
sorted_order_of_nodes nodes = sorted_order_by_depth_and_id uint128_node_traits blank_node nodes

unfoldable pub sorted_copy_of_nodes : List Node → Result (List Node)
sorted_copy_of_nodes nodes = sorted_copy_by_depth_and_id uint128_node_traits blank_node nodes

unfoldable pub sort_nodes_in_place : List Node → Result (List Node)
sort_nodes_in_place nodes = sort_in_place_by_depth_and_id uint128_node_traits blank_node nodes

unfoldable pub verify_sorted_nodes : List Node → Result Bool
verify_sorted_nodes nodes = verify_sorted_by_depth_and_id uint128_node_traits blank_node nodes
