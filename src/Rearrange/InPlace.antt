-- ===== src/Rearrange/InPlace.antt =====
-- The in-place cycles of `sortInPlaceByDepthAndId` against the copy of `sortedCopyByDepthAndId`.
use forest_sorting.Prelude.{
  ℕ, zero, suc, ◌+◌, ◌<◌, ◌≡◌, refl, sym, ap, subst, ◌∙◌, ◌≢◌, inl, inr, List, map, arith, ◌==◌,
  Bool-cases, ==→≡, ==→≢, length, get_or, set, replicate, length-set, length-replicate,
  get_or-set_self, get_or-set_ne, get_or_ext, length-map, get_or-map,
}
use forest_sorting.Errors.{Result, ok}
use forest_sorting.Rearrange.{
  copy_in_order, invert_order, follow_cycle, follow_cycles, rearrange_in_place, swap_entries,
  swap_nodes,
}
use forest_sorting.Loops.{for_range_inv}
use forest_sorting.Rearrange.Cycles.{
  misplaced, IsRouted, misplaced-le-length, misplaced-swap, swap_entries_lem, swap-IsRouted,
  exchanged, exchanged_other,
}
use forest_sorting.Errors.{Result}

-- The numbers below `n`, each once.
pub record IsOrder (n : ℕ) (order : List ℕ) : Type 0 where
  pub count : length order ≡ n
  pub in_range : (j : ℕ) → j < n → get_or order j 0 < n
  pub injective : (i j : ℕ) → i < n → j < n → get_or order i 0 ≡ get_or order j 0 → i ≡ j
  pub place : ℕ → ℕ
  pub place_in_range : (i : ℕ) → i < n → place i < n
  pub at_place : (i : ℕ) → i < n → get_or order (place i) 0 ≡ i

abbrev InvertedTo : ℕ → List ℕ → ℕ → List ℕ → Type 0
InvertedTo n order k destination =
    (length destination ≡ n) × ((j : ℕ) → j < k → get_or destination (get_or order j 0) 0 ≡ j)

module _ (n : ℕ) (order : List ℕ) (o : IsOrder n order) where
  invert_round :
      (k : ℕ) (destination : List ℕ)
      → k < n
      → InvertedTo n order k destination
      → InvertedTo n order (k + 1) (set destination (get_or order k 0) k)
  invert_round k destination hk h = (
    length-set destination (get_or order k 0) k ∙ h.0,
    λ j hj. elim (Bool-cases (j == k)) [
      | inl e ↦
          let e' : j ≡ k = ==→≡ j k e in
          rw e' (
            get_or-set_self destination (get_or order k 0) k 0
              (omega (arith, o.in_range k hk, h.0)))
      | inr e ↦
          let ne : j ≢ k = ==→≢ j k e in
          get_or-set_ne destination (get_or order k 0) (get_or order j 0) k 0
            (λ p. ne (sym (o.injective k j hk (omega arith) p)))
          ∙ h.1 j (omega arith)
    ],
  )

  invert_order_lem : InvertedTo n order n (invert_order order)
  unfolding invert_order
  invert_order_lem =
      for_range_inv (InvertedTo n order)
        (λ output_index destination. set destination (get_or order output_index 0) output_index)
        (length order) 0 n (omega (arith, o.count)) (λ k s p q h. invert_round k s q h)
        (replicate (length order) 0)
        (length-replicate (length order) 0 ∙ o.count, λ j h. absurd (omega arith))

  -- The destination of a node is its place in the order.
  destination_eq : (i : ℕ) → i < n → get_or (invert_order order) i 0 ≡ o.place i
  destination_eq i h =
      subst (λ z. get_or (invert_order order) z 0 ≡ o.place i) (o.at_place i h)
        (invert_order_lem.1 (o.place i) (o.place_in_range i h))

  module _ {Node : Type 0} (blank : Node) (nodes : List Node) (e : length nodes ≡ n) where
    abbrev wanted : ℕ → Node
    wanted i = get_or nodes (get_or order i 0) blank

    start-IsRouted : IsRouted blank n wanted nodes (invert_order order)
    start-IsRouted = record {
      node_count = e;
      entry_count = invert_order_lem.0;
      in_range = λ i h. subst (λ z. z < n) (sym (destination_eq i h)) (o.place_in_range i h);
      injective = λ i j p q f.
          sym (o.at_place i p)
          ∙ ap (λ z. get_or order z 0) (sym (destination_eq i p) ∙ f ∙ destination_eq j q)
          ∙ o.at_place j q;
      routed = λ i h.
          ap (λ z. get_or nodes z blank)
            (sym (o.at_place i h) ∙ ap (λ z. get_or order z 0) (sym (destination_eq i h)));
    }

module _ {Node : Type 0} (blank : Node) (n : ℕ) (goal : ℕ → Node) where
  abbrev SettledTo : ℕ → List ℕ → Type 0
  SettledTo m destination = (k : ℕ) → k < m → get_or destination k 0 ≡ k

  -- A run that returns nodes routed to the goal, the first `m` of them in place.
  record Settles (m : ℕ) (result : Result (List Node × List ℕ)) : Type 0 where
    nodes' : List Node
    destinations' : List ℕ
    returns : result ≡ ok (nodes', destinations')
    still_routed : IsRouted blank n goal nodes' destinations'
    settled : SettledTo m destinations'

  -- A swap moves no entry that points to itself.
  swap-settled :
      (index : ℕ) (nodes : List Node) (destination : List ℕ)
      → (hi : index < n) → (r : IsRouted blank n goal nodes destination)
      → (moves : get_or destination index 0 ≢ index) → SettledTo index destination
      → SettledTo index (swap_entries destination index (get_or destination index 0))
  swap-settled index nodes destination hi r moves s k h =
      let target = get_or destination index 0 in
      let here : get_or destination k 0 ≡ k = s k h in
      let ne : k ≢ target = λ e.
        let same : k ≡ index = r.injective k index (omega arith) hi (here ∙ e) in omega arith in
      let other : exchanged index target k ≡ k = exchanged_other index target k (omega arith) ne in
      swap_entries_lem blank n goal index nodes destination hi r moves k
      ∙ ap (λ z. get_or destination z 0) other
      ∙ here

  follow_cycle-Settles :
      (fuel index : ℕ) (nodes : List Node) (destination : List ℕ)
      → misplaced destination 0 < fuel
      → index < n
      → IsRouted blank n goal nodes destination
      → SettledTo index destination
      → Settles (index + 1) (follow_cycle blank fuel index nodes destination)
  unfolding follow_cycle
  follow_cycle-Settles zero index nodes destination hf hi r s = absurd (omega arith)
  follow_cycle-Settles (suc fuel) index nodes destination hf hi r s =
      elim (Bool-cases (get_or destination index 0 == index)) [
        | inl e ↦ record {
          nodes' = nodes;
          destinations' = destination;
          returns = rw e refl;
          still_routed = r;
          settled = λ k h. elim (Bool-cases (k == index)) [
            | inl f ↦
                let f' : k ≡ index = ==→≡ k index f in
                rw f' (==→≡ (get_or destination index 0) index e)
            | inr f ↦ let ne = ==→≢ k index f in s k (omega arith)
          ];
        }
        | inr e ↦
            let moves : get_or destination index 0 ≢ index =
              ==→≢ (get_or destination index 0) index e in
            rw e (
              follow_cycle-Settles fuel index
                (swap_nodes blank nodes index (get_or destination index 0))
                (swap_entries destination index (get_or destination index 0))
                (omega (arith, misplaced-swap blank n goal index nodes destination hi r moves)) hi
                (swap-IsRouted blank n goal index nodes destination hi r moves)
                (swap-settled index nodes destination hi r moves s))
      ]

  follow_cycles-Settles :
      (rounds index : ℕ) (nodes : List Node) (destination : List ℕ)
      → index + rounds ≡ n
      → IsRouted blank n goal nodes destination
      → SettledTo index destination
      → Settles n (follow_cycles blank rounds index nodes destination)
  unfolding follow_cycles
  follow_cycles-Settles zero index nodes destination e r s = record {
    nodes' = nodes;
    destinations' = destination;
    returns = refl;
    still_routed = r;
    settled = λ k h. s k (omega arith);
  }
  follow_cycles-Settles (suc rounds) index nodes destination e r s =
      let first =
        follow_cycle-Settles (length destination + 1) index nodes destination
          (omega (arith, misplaced-le-length destination 0)) (omega arith) r s in
      let rest =
        follow_cycles-Settles rounds (index + 1) first.nodes' first.destinations' (omega arith)
          first.still_routed first.settled in
      record {
        nodes' = rest.nodes';
        destinations' = rest.destinations';
        returns = rw first.returns rest.returns;
        still_routed = rest.still_routed;
        settled = rest.settled;
      }

-- For every order that lists the indices of the nodes once each, the in-place cycles return, and
-- what they leave in the vector is the copy in that order.
pub rearrange_in_place_lem :
    {Node : Type 0} (blank : Node) (nodes : List Node) (order : List ℕ)
    → IsOrder (length nodes) order
    → rearrange_in_place blank nodes order ≡ ok (copy_in_order blank nodes order)
unfolding rearrange_in_place copy_in_order
rearrange_in_place_lem blank nodes order o =
    let n = length nodes in
    let goal = wanted n order o blank nodes refl in
    let run =
      follow_cycles-Settles blank n goal (length order) 0 nodes (invert_order order)
        (omega (arith, o.count)) (start-IsRouted n order o blank nodes refl)
        (λ k h. absurd (omega arith)) in
    let same : (i : ℕ)
        → i < length run.nodes'
        → get_or run.nodes' i blank ≡ get_or (map (λ j. get_or nodes j blank) order) i blank =
      λ i h.
        let hi : i < n = omega (arith, run.still_routed.node_count) in
        run.still_routed.routed i hi
        ∙ ap goal (run.settled i hi)
        ∙ sym (get_or-map (λ j. get_or nodes j blank) order i 0 blank (omega (arith, o.count))) in
    rw run.returns (
      ap ok (
        get_or_ext blank run.nodes' (map (λ j. get_or nodes j blank) order)
          (run.still_routed.node_count
            ∙ sym o.count
            ∙ sym (length-map (λ j. get_or nodes j blank) order))
          same))
