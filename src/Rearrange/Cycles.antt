-- ===== src/Rearrange/Cycles.antt =====
-- One swap of the cycle loop: what it keeps, and that it puts one more node in place.
use forest_sorting.Prelude.{
  ℕ, zero, suc, ◌+◌, ◌≤◌, ◌<◌, ◌≡◌, sym, ap, subst, ◌∙◌, ◌≢◌, inl, inr, List, [], ◌∷◌, arith, ◌==◌,
  if◌then◌else◌, Bool-cases, ==→≡, ==→≢, length, get_or, set, length-set, get_or-set_self,
  get_or-set_ne,
}
use forest_sorting.Rearrange.{swap_nodes, swap_entries}

-- The entries that do not point to themselves, from position `i` on.
abbrev pub misplaced : List ℕ → ℕ → ℕ
misplaced [] i = 0
misplaced (d ∷ destination) i = (if d == i then 0 else 1) + misplaced destination (suc i)

pub misplaced-le-length : (ds : List ℕ) (i : ℕ) → misplaced ds i ≤ length ds
misplaced-le-length [] i = omega arith
misplaced-le-length (d ∷ ds) i = ground (arith, misplaced-le-length ds (suc i))

-- A write moves the count by what it does at its own position.
misplaced-set :
    (ds : List ℕ) (i j k v : ℕ)
    → j < length ds
    → k ≡ i + j
    → misplaced (set ds j v) i + (if get_or ds j 0 == k then 0 else 1)
      ≡ misplaced ds i + (if v == k then 0 else 1)
misplaced-set [] i j k v h e = absurd (omega arith)
misplaced-set (d ∷ ds) i zero k v h e = let e' : k ≡ i = omega arith in rw e' (omega arith)
misplaced-set (d ∷ ds) i (suc j) k v h e =
    omega (arith, misplaced-set ds (suc i) j k v (omega arith) (omega arith))

-- The position that a swap of `i` and `j` puts at `k`.
abbrev pub exchanged : ℕ → ℕ → ℕ → ℕ
exchanged i j k = if k == i then j else if k == j then i else k

exchanged-lt : (i j k n : ℕ) → i < n → j < n → k < n → exchanged i j k < n
exchanged-lt i j k n hi hj hk = ground arith

pub exchanged_other : (i j k : ℕ) → k ≢ i → k ≢ j → exchanged i j k ≡ k
exchanged_other i j k p q = ground arith

exchanged_injective : (i j k l : ℕ) → exchanged i j k ≡ exchanged i j l → k ≡ l
exchanged_injective i j k l e = ground arith

module _ {Node : Type 0} (blank : Node) where
  pub length-swap_nodes :
      (nodes : List Node) (i j : ℕ) → length (swap_nodes blank nodes i j) ≡ length nodes
  unfolding swap_nodes
  length-swap_nodes nodes i j =
      length-set (set nodes i (get_or nodes j blank)) j (get_or nodes i blank)
      ∙ length-set nodes i (get_or nodes j blank)

  -- A read after the swap is a read before it, at the exchanged position.
  pub swap_nodes_lem :
      (nodes : List Node) (i j k : ℕ)
      → i < length nodes
      → j < length nodes
      → i ≢ j
      → get_or (swap_nodes blank nodes i j) k blank ≡ get_or nodes (exchanged i j k) blank
  unfolding swap_nodes
  swap_nodes_lem nodes i j k hi hj ne =
      let first : List Node = set nodes i (get_or nodes j blank) in
      let at_j : get_or (set first j (get_or nodes i blank)) j blank ≡ get_or nodes i blank =
        get_or-set_self first j (get_or nodes i blank) blank
          (omega (arith, length-set nodes i (get_or nodes j blank))) in
      let at_i : get_or first i blank ≡ get_or nodes j blank =
        get_or-set_self nodes i (get_or nodes j blank) blank hi in
      elim (Bool-cases (k == i)) [
        | inl e ↦
            let ei : k ≡ i = ==→≡ k i e in
            rw (e, ei)
              (get_or-set_ne first j i (get_or nodes i blank) blank (λ p. ne (sym p)) ∙ at_i)
        | inr e ↦ elim (Bool-cases (k == j)) [
          | inl f ↦ let ej : k ≡ j = ==→≡ k j f in rw (e, f, ej) at_j
          | inr f ↦
              rw (e, f)
                (get_or-set_ne first j k (get_or nodes i blank) blank (λ p. ==→≢ k j f (sym p))
                  ∙ get_or-set_ne nodes i k (get_or nodes j blank) blank (λ p. ==→≢ k i e (sym p)))
        ]
      ]

module _ {Node : Type 0} (blank : Node) (n : ℕ) (goal : ℕ → Node) where
  -- Each node stands where its destination says that the goal wants it.
  pub record IsRouted (nodes : List Node) (destination : List ℕ) : Type 0 where
    pub node_count : length nodes ≡ n
    pub entry_count : length destination ≡ n
    pub in_range : (i : ℕ) → i < n → get_or destination i 0 < n
    pub injective :
        (i j : ℕ) → i < n → j < n → get_or destination i 0 ≡ get_or destination j 0 → i ≡ j
    pub routed : (i : ℕ) → i < n → get_or nodes i blank ≡ goal (get_or destination i 0)

  module _ (index : ℕ) (nodes : List Node) (destination : List ℕ) (hi : index < n)
      (r : IsRouted nodes destination) (moves : get_or destination index 0 ≢ index) where
    abbrev target : ℕ
    target = get_or destination index 0

    abbrev pub destination' : List ℕ
    destination' = swap_entries destination index target

    pub swap_entries_lem :
        (k : ℕ) → get_or destination' k 0 ≡ get_or destination (exchanged index target k) 0
    unfolding swap_entries
    swap_entries_lem k =
        swap_nodes_lem 0 destination index target k (omega (arith, r.entry_count))
          (omega (arith, r.in_range index hi, r.entry_count)) (λ e. moves (sym e))

    entry_count' : length destination' ≡ n
    unfolding swap_entries
    entry_count' = length-swap_nodes 0 destination index target ∙ r.entry_count

    -- One more entry points to itself.
    pub misplaced-swap : misplaced destination' 0 < misplaced destination 0
    unfolding swap_entries swap_nodes
    misplaced-swap =
        let next : ℕ = get_or destination target 0 in
        let first : List ℕ = set destination index next in
        let ne : target ≢ index = moves in
        let ht : target < n = r.in_range index hi in
        let unsettled : next ≢ target = λ e. ne (r.injective target index ht hi e) in
        let step1 : misplaced first 0 + (if target == index then 0 else 1)
            ≡ misplaced destination 0 + (if next == index then 0 else 1) =
          misplaced-set destination 0 index index next (omega (arith, r.entry_count))
            (omega arith) in
        let step2 : misplaced (set first target target) 0
              + (if get_or first target 0 == target then 0 else 1)
            ≡ misplaced first 0 + (if target == target then 0 else 1) =
          misplaced-set first 0 target target target
            (omega (arith, length-set destination index next, r.entry_count)) (omega arith) in
        let kept : get_or first target 0 ≡ next =
          get_or-set_ne destination index target next 0 (λ e. ne (sym e)) in
        grind arith

    pub swap-IsRouted : IsRouted (swap_nodes blank nodes index target) destination'
    swap-IsRouted =
        let ht : target < n = r.in_range index hi in
        let reads : (k : ℕ)
            → get_or destination' k 0 ≡ get_or destination (exchanged index target k) 0 =
          swap_entries_lem in
        record {
          node_count = length-swap_nodes blank nodes index target ∙ r.node_count;
          entry_count = entry_count';
          in_range = λ i h.
              subst (λ z. z < n) (sym (reads i))
                (r.in_range (exchanged index target i) (exchanged-lt index target i n hi ht h));
          injective = λ i j p q e. exchanged_injective index target i j (
              r.injective (exchanged index target i) (exchanged index target j)
                (exchanged-lt index target i n hi ht p) (exchanged-lt index target j n hi ht q)
                (sym (reads i) ∙ e ∙ reads j));
          routed = λ i h.
              swap_nodes_lem blank nodes index target i (omega (arith, r.node_count))
                (omega (arith, r.node_count)) (λ e. moves (sym e))
              ∙ r.routed (exchanged index target i) (exchanged-lt index target i n hi ht h)
              ∙ ap goal (sym (reads i));
        }
