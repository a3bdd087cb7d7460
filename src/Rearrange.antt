-- ===== src/Rearrange.antt =====
-- Putting nodes into a computed order: the loops of `sortedCopyByDepthAndId` and
-- `sortInPlaceByDepthAndId` (include/forest_sorting/algorithms.hpp). `blank` is what a read out of
-- bounds would give.
pub mod Cycles
pub mod InPlace
use forest_sorting.Prelude.{
  ℕ, zero, suc, ◌+◌, ◌-◌, ◌*◌, ◌/◌, ◌%◌, ◌^◌, ◌≤◌, ◌<◌, max, min, ◌≡◌, refl, sym, ap, ap₂, subst,
  ◌∙◌, ◌≢◌, ◌↔◌, ◌⊎◌, inl, inr, Bool, true, false, not, ◌&&◌, ◌||◌, Option, none, some, List, [],
  ◌∷◌, ◌++◌, map, append-nil, append_assoc, arith, ltb, leb, ◌==◌, if◌then◌else◌, Bool-cases,
  Option-cases, ltb→lt, ltb→le, lt→ltb, le→ltb, leb→le, leb→lt, le→leb, lt→leb, ==→≡, ==→≢, ==_refl,
  ≡→==, ≢→==, length, get_or, set, replicate, take, drop, All, iota, length-iota, length-append,
  length-set, length-replicate, length-take, length-drop, take-append-drop, get_or-set_self,
  get_or-set_ne, get_or-replicate, get_or-append_at, set-append_at, get_or-append_left, get_or_ext,
  All-get_or, All-of, All-append, All-map, length-map,
}
use forest_sorting.Errors.{Result, ok, throws, Error, ◌>>=◌}
use forest_sorting.Loops.{for_range}

module _ {Node : Type 0} (blank : Node) where
  -- `for (nodeIndex : order) sorted.push_back(nodes[nodeIndex]);`
  unfoldable pub copy_in_order : List Node → List ℕ → List Node
  copy_in_order nodes order = map (λ node_index. get_or nodes node_index blank) order

  -- `std::swap(values[i], values[j])`
  unfoldable pub swap_nodes : List Node → ℕ → ℕ → List Node
  swap_nodes nodes i j = set (set nodes i (get_or nodes j blank)) j (get_or nodes i blank)

-- `std::swap(destination[i], destination[j])`
unfoldable pub swap_entries : List ℕ → ℕ → ℕ → List ℕ
unfolding swap_nodes
swap_entries = swap_nodes 0

-- `destination[order[outputIndex]] = outputIndex`, for each output index.
unfoldable pub invert_order : List ℕ → List ℕ
unfolding for_range
invert_order order =
    for_range (length order) 0
      (λ output_index. λ destination. set destination (get_or order output_index 0) output_index)
      (replicate (length order) 0)

module _ {Node : Type 0} (blank : Node) where
  -- The inner `while`, with fuel.
  unfoldable pub follow_cycle : ℕ → ℕ → List Node → List ℕ → Result (List Node × List ℕ)
  unfolding swap_nodes swap_entries
  follow_cycle zero index nodes destination = throws Error.out_of_fuel
  follow_cycle (suc fuel) index nodes destination =
      let target = get_or destination index 0 in
      let rest =
        follow_cycle fuel index (swap_nodes blank nodes index target)
          (swap_entries destination index target) in
      if target == index then ok (nodes, destination) else rest

  -- The outer `for`, with `rounds` indices left. One cycle has at most as many swaps as there are
  -- nodes.
  unfoldable pub follow_cycles : ℕ → ℕ → List Node → List ℕ → Result (List Node × List ℕ)
  unfolding follow_cycle
  follow_cycles zero index nodes destination = ok (nodes, destination)
  follow_cycles (suc rounds) index nodes destination =
      follow_cycle (length destination + 1) index nodes destination >>= λ (nodes', destination').
      follow_cycles rounds (index + 1) nodes' destination'

  -- The in-place loops of `sortInPlaceByDepthAndId`, from the order on.
  unfoldable pub rearrange_in_place : List Node → List ℕ → Result (List Node)
  unfolding invert_order follow_cycles
  rearrange_in_place nodes order =
      follow_cycles (length order) 0 nodes (invert_order order) >>= λ (nodes', destination).
      ok nodes'
