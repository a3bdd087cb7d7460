-- ===== src/Lib.antt =====
-- Verification of forest_sorting: sorting the nodes of a forest by depth and identifier.
--
-- The program gives every node of a forest its depth (the number of parent links to its root) and
-- sorts the nodes by depth, and within a depth by identifier. It finds the parent of each node by
-- its identifier (the parent index), computes the depths, sorts a permutation of the node indices
-- by identifier and groups it stably by depth, and then copies the nodes in that order or moves
-- them in place.
--
-- The files, by the code that they model (under include/forest_sorting):
--   Prelude     shared names: Boolean tests on native numbers, `std::vector` as a list with reads
--               and writes at an index, the bitwise lemmas.
--   Loops       counted loops and loops over a vector, with their invariant rules.
--   Errors      the exceptions as values, and detail/validation.hpp.
--   Traits      the caller's traits (traits.hpp): a hook that the code detects is an option.
--   Stable      what a stable sort by a key is, that there is one result only, and how two sorts
--               compose, from the less significant key or from the more significant one.
--   Scatter     a distribution into consecutive buckets, the inner loop of every histogram sort.
--   Depth       detail/depth.hpp: the depth widths and supplied depths; Depth.Compute is
--               `computeDepths`, Depth.Verify is `verifyWithParentIndex`.
--   Radix       Radix.Counts is detail/radix_counts.hpp: the two histograms, each a value of one
--               record of operations, for the overloads of the source. Radix.Counts.Laws says what a
--               pass needs of a histogram. Radix.Partition is detail/radix.hpp.
--   Grouping    detail/adaptive_sort.hpp: Grouping.Dense is the dense histogram, Grouping.Msd is the
--               partition by the bytes of the depth and the choice between the two.
--   Ids         Ids.Chunks is detail/id_chunks.hpp, Ids.Compare is detail/id_compare.hpp.
--               Ids.Comparator is detail/id_permutation_compare.hpp, Ids.SmallSort is
--               detail/id_small_sort.hpp with the insertion sort of detail/id_radix.hpp, and
--               Ids.MsdChunks is the rest of detail/id_radix.hpp.
--   Parents     detail/parent_index.hpp. The sorter of a permutation is an argument; Parents.Build
--               gives it the identifier sort.
--   Order       detail/order.hpp, on Ids.MsdChunks and Grouping; Order.Ids is about the sort by
--               identifier, Order.Sorted about the grouping.
--   Algorithms  the public functions of algorithms.hpp, on all of these.
--   Uint128     uint128.hpp and uint128_forest.hpp.
--   Rearrange   the copying loop and the in-place cycles of algorithms.hpp.
--   Tests, Radix.Tests, Uint128.Tests  runs at concrete inputs.
--
-- Correspondence. A function has the name of the C++ function in snake case. A vector is a list; a
-- function that changes vectors returns them. `std::size_t` has 64 bits; an index below the length
-- of a vector does not wrap, so index arithmetic is on the numbers as they are, and every cast and
-- shift of a value is written out as a remainder. A read out of bounds, undefined in C++, gives a
-- default that each definition names.
--
-- Fuel. The bounded climb of `computeDepths` has the bound of the source, one round per node. A
-- cycle of the in-place loop runs on fuel, one more than the number of nodes: each swap puts at
-- least one more node in its place. The loop over the stack of ranges of the radix partition has one
-- round for the first range and one for each element and digit: a range of one element or without
-- digits ends, and the others split into ranges that together are no larger and have one digit
-- less. The loop over the pending ranges of the identifier sort has rounds by the same rule, with
-- chunks for digits. A loop over the ones of a word has 64 rounds.
--
-- A template parameter that takes a callback is an argument; what the callback captures and changes
-- is a store that it gets and returns. The stack of ranges is a list with its top first.
--
-- Not modelled: the observer of terminal ranges of the identifier sort, which changes nothing unless a
-- benchmark supplies one; what the concepts ask of value categories, capacity reservations, copies and moves
-- of values, running out of memory, the benchmark programs, and the build.
pub mod Prelude
pub mod Stable
pub mod Scatter
pub mod Loops
pub mod Errors
pub mod Traits
pub mod Grouping
pub mod Depth
pub mod Ids
pub mod Rearrange
pub mod Radix
pub mod Tests
pub mod Parents
pub mod Order
pub mod Algorithms
pub mod Uint128
