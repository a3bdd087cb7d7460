-- ===== src/Depth/Compute/Climbing.antt =====
-- The climb ends at a root or at a node of known depth, and leaves a linked stack.
use forest_sorting.Prelude.{
  ℕ, zero, suc, ◌≤◌, ◌<◌, ◌≡◌, refl, sym, subst, ◌∙◌, ◌↔◌, ◌⊎◌, inl, inr, Bool, true, false, List,
  ◌∷◌, arith, ◌==◌, Bool-cases, ==→≡, ==→≢, length, get_or, set, length-set, get_or-set_self,
  get_or-set_ne,
}
use forest_sorting.Errors.{Result, ok, throws, Error, ok_injective}
use forest_sorting.Depth.{DepthVisitState, unvisited, visiting, complete}
use forest_sorting.Depth.Compute.{Climb, climb}
use forest_sorting.Depth.Compute.Spec.{parent_of, is_root, In, VisitState-cases}
use forest_sorting.Depth.Compute.Unwind.{IsLinked}
use native.Mathlib.Decide.{dec_lt}

module _ (w n : ℕ) (sentinel : ℕ → Bool) (parent : List ℕ) where
  -- The stack hangs below a root, which is its first node, or below a complete node.
  pub data Hangs (values : List ℕ) (visit : List DepthVisitState) : Climb → Type 0 where
    at_root :
        (c : Climb) (x : ℕ) (stack : List ℕ)
        → c.reached_root ≡ true
        → c.stack ≡ x ∷ stack
        → x < n
        → is_root n sentinel parent x ≡ true
        → IsLinked w n sentinel parent x stack
        → Hangs values visit c
    at_complete :
        (c : Climb) (top : ℕ)
        → c.reached_root ≡ false
        → top < n
        → get_or visit top unvisited ≡ complete
        → c.base_depth ≡ get_or values top 0
        → IsLinked w n sentinel parent top c.stack
        → Hangs values visit c

  -- What a climb leaves that began at `visit` and `current`.
  pub record Climbed (values : List ℕ) (visit : List DepthVisitState) (current : ℕ) (stack : List ℕ)
      (c : Climb) : Type 0 where
    pub hangs : Hangs values visit c
    pub state_count : length c.visit_state ≡ length visit
    pub same_complete :
        (i : ℕ)
        → (get_or c.visit_state i unvisited ≡ complete) ↔ (get_or visit i unvisited ≡ complete)
    pub open_nodes : (i : ℕ) → get_or c.visit_state i unvisited ≡ visiting → In i c.stack
    pub extends : (i : ℕ) → In i stack → In i c.stack
    pub met : In current c.stack ⊎ (get_or visit current unvisited ≡ complete)

  -- Marking an unvisited node changes no complete one.
  pub mark_complete :
      (visit : List DepthVisitState) (x i : ℕ)
      → x < length visit
      → get_or visit x unvisited ≡ unvisited
      → (get_or (set visit x visiting) i unvisited ≡ complete)
        ↔ (get_or visit i unvisited ≡ complete)
  mark_complete visit x i h e = elim (Bool-cases (x == i)) [
    | inl same ↦
        let at = ==→≡ x i same in
        let new = get_or-set_self visit x visiting unvisited h in
        rw (← at) (λ c. absurd (cc new), λ c. absurd (cc e))
    | inr other ↦ rw (get_or-set_ne visit x i visiting unvisited (==→≢ x i other)) (λ c. c, λ c. c)
  ]

  pub mark_visiting :
      (visit : List DepthVisitState) (x i : ℕ)
      → get_or (set visit x visiting) i unvisited ≡ visiting
      → (i ≡ x) ⊎ (get_or visit i unvisited ≡ visiting)
  mark_visiting visit x i e = elim (Bool-cases (x == i)) [
    | inl same ↦ inl (sym (==→≡ x i same))
    | inr other ↦ inr (sym (get_or-set_ne visit x i visiting unvisited (==→≢ x i other)) ∙ e)
  ]

  -- The branches of a round.
  module _ (remaining : ℕ) (values : List ℕ) (current : ℕ) (visit : List DepthVisitState)
      (stack : List ℕ) where
    abbrev pub round : Result Climb
    round = climb w n sentinel parent (suc remaining) values current visit stack

    pub climb_done :
        get_or visit current unvisited ≡ complete
        → round
          ≡ ok (record {
            base_depth = get_or values current 0;
            reached_root = false;
            visit_state = visit;
            stack = stack;
          })
    unfolding climb
    climb_done e = ground arith

    climb_busy : get_or visit current unvisited ≡ visiting → round ≡ throws Error.parent_cycle
    unfolding climb
    climb_busy e = ground arith

    pub climb_root :
        get_or visit current unvisited ≡ unvisited
        → is_root n sentinel parent current ≡ true
        → round
          ≡ ok (record {
            base_depth = 0;
            reached_root = true;
            visit_state = set visit current visiting;
            stack = current ∷ stack;
          })
    unfolding climb
    climb_root e r = ground arith

    climb_out :
        get_or visit current unvisited ≡ unvisited
        → is_root n sentinel parent current ≡ false
        → n ≤ parent_of n sentinel parent current
        → round ≡ throws Error.parent_out_of_range
    unfolding climb
    climb_out e r h = ground arith

    pub climb_further :
        get_or visit current unvisited ≡ unvisited
        → is_root n sentinel parent current ≡ false
        → parent_of n sentinel parent current < n
        → round
          ≡ climb w n sentinel parent remaining values
              (parent_of n sentinel parent current)
              (set visit current visiting)
              (current ∷ stack)
    unfolding climb
    climb_further e r h = ground arith

  Climbed-done :
      (values : List ℕ) (visit : List DepthVisitState) (current : ℕ) (stack : List ℕ)
      → current < n
      → IsLinked w n sentinel parent current stack
      → ((i : ℕ) → get_or visit i unvisited ≡ visiting → In i stack)
      → get_or visit current unvisited ≡ complete
      → Climbed values visit current stack (record {
        base_depth = get_or values current 0;
        reached_root = false;
        visit_state = visit;
        stack = stack;
      })
  Climbed-done values visit current stack hc links covered done = record {
    hangs = at_complete _ current refl hc done refl links;
    state_count = refl;
    same_complete = λ i. (λ c. c, λ c. c);
    open_nodes = covered;
    extends = λ i m. m;
    met = inr done;
  }

  Climbed-root :
      (values : List ℕ) (visit : List DepthVisitState) (current : ℕ) (stack : List ℕ)
      → current < n
      → length visit ≡ n
      → IsLinked w n sentinel parent current stack
      → ((i : ℕ) → get_or visit i unvisited ≡ visiting → In i stack)
      → get_or visit current unvisited ≡ unvisited
      → is_root n sentinel parent current ≡ true
      → Climbed values visit current stack (record {
        base_depth = 0;
        reached_root = true;
        visit_state = set visit current visiting;
        stack = current ∷ stack;
      })
  Climbed-root values visit current stack hc len links covered new root = record {
    hangs = at_root _ current stack refl refl hc root links;
    state_count = length-set visit current visiting;
    same_complete = λ i. mark_complete visit current i (omega arith) new;
    open_nodes = λ i v. elim (mark_visiting visit current i v) [
      | inl same ↦ inl same
      | inr old ↦ inr (covered i old)
    ];
    extends = λ i m. inr m;
    met = inl (inl refl);
  }

  Hangs-weaken :
      (values : List ℕ) (visit visit' : List DepthVisitState) (c : Climb)
      → ((i : ℕ) → get_or visit i unvisited ≡ complete → get_or visit' i unvisited ≡ complete)
      → Hangs values visit c
      → Hangs values visit' c
  Hangs-weaken values visit visit' c f (at_root _ x st a b d e g) = at_root c x st a b d e g
  Hangs-weaken values visit visit' c f (at_complete _ top a b d e g) =
      at_complete c top a b (f top d) e g

  Climbed-further :
      (values : List ℕ) (visit : List DepthVisitState) (current next : ℕ) (stack : List ℕ)
      (c : Climb)
      → current < length visit
      → get_or visit current unvisited ≡ unvisited
      → Climbed values (set visit current visiting) next (current ∷ stack) c
      → Climbed values visit current stack c
  Climbed-further values visit current next stack c hc new d =
      let same = λ (i : ℕ). mark_complete visit current i hc new in
      record {
        hangs = Hangs-weaken values (set visit current visiting) visit c (λ i. (same i).0) d.hangs;
        state_count = d.state_count ∙ length-set visit current visiting;
        same_complete = λ i.
            (λ p. (same i).0 ((d.same_complete i).0 p), λ p. (d.same_complete i).1 ((same i).1 p));
        open_nodes = d.open_nodes;
        extends = λ i m. d.extends i (inr m);
        met = inl (d.extends current (inl refl));
      }

  pub climb-Climbed :
      (remaining : ℕ) (values : List ℕ) (current : ℕ) (visit : List DepthVisitState)
      (stack : List ℕ) (c : Climb)
      → current < n
      → length visit ≡ n
      → IsLinked w n sentinel parent current stack
      → ((i : ℕ) → get_or visit i unvisited ≡ visiting → In i stack)
      → climb w n sentinel parent remaining values current visit stack ≡ ok c
      → Climbed values visit current stack c
  unfolding climb
  climb-Climbed zero values current visit stack c hc len links covered e = absurd (cc)
  climb-Climbed (suc r) values current visit stack c hc len links covered e =
      elim (VisitState-cases (get_or visit current unvisited)) [
        | inl new ↦ elim (Bool-cases (is_root n sentinel parent current)) [
          | inl root ↦
              subst (Climbed values visit current stack)
                (ok_injective (sym (climb_root r values current visit stack new root) ∙ e))
                (Climbed-root values visit current stack hc len links covered new root)
          | inr inner ↦ elim (dec_lt (parent_of n sentinel parent current) n) [
            | yes into ↦
                Climbed-further values visit current (parent_of n sentinel parent current) stack c
                  (omega arith) new
                  (climb-Climbed r values (parent_of n sentinel parent current)
                    (set visit current visiting) (current ∷ stack) c into
                    (length-set visit current visiting ∙ len) (hc, inner, refl, links)
                    (λ i v. elim (mark_visiting visit current i v) [
                      | inl same ↦ inl same
                      | inr old ↦ inr (covered i old)
                    ])
                    (sym (climb_further r values current visit stack new inner into) ∙ e))
            | no out ↦ absurd (cc (climb_out r values current visit stack new inner (omega arith)))
          ]
        ]
        | inr (inl busy) ↦ absurd (cc (climb_busy r values current visit stack busy))
        | inr (inr done) ↦
            subst (Climbed values visit current stack)
              (ok_injective (sym (climb_done r values current visit stack done) ∙ e))
              (Climbed-done values visit current stack hc links covered done)
      ]
