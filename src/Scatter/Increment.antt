-- ===== src/Scatter/Increment.antt =====
-- The counters and offsets that a histogram keeps in a vector.
use forest_sorting.Prelude.{
  ℕ, ◌+◌, ◌<◌, ◌≡◌, sym, ◌∙◌, ◌≢◌, inl, inr, List, ◌==◌, Bool-cases, ==→≡, ==→≢, length, get_or,
  set, length-set, get_or-set_self, get_or-set_ne,
}
use forest_sorting.Scatter.{update, update_self, update_ne}
use mathlib.Core.Path.{fun_ext}

-- `++counts[slot]`
unfoldable pub increment : List ℕ → ℕ → List ℕ
increment counts slot = set counts slot (get_or counts slot 0 + 1)

pub get_or-increment_self :
    (counts : List ℕ) (d : ℕ)
    → d < length counts
    → get_or (increment counts d) d 0 ≡ get_or counts d 0 + 1
unfolding increment
get_or-increment_self counts d h = get_or-set_self counts d (get_or counts d 0 + 1) 0 h

pub get_or-increment_ne :
    (counts : List ℕ) (d e : ℕ) → d ≢ e → get_or (increment counts d) e 0 ≡ get_or counts e 0
unfolding increment
get_or-increment_ne counts d e h = get_or-set_ne counts d e (get_or counts d 0 + 1) 0 h

pub length-increment : (counts : List ℕ) (d : ℕ) → length (increment counts d) ≡ length counts
unfolding increment
length-increment counts d = length-set counts d (get_or counts d 0 + 1)

-- A read of the incremented offsets.
pub increment-update :
    (offsets : List ℕ) (d : ℕ)
    → d < length offsets
    → (λ e. get_or (increment offsets d) e 0)
      ≡ update (λ e. get_or offsets e 0) d (get_or offsets d 0 + 1)
increment-update offsets d h = fun_ext λ e. elim (Bool-cases (e == d)) [
  | inl same ↦ rw (==→≡ e d same) (
      get_or-increment_self offsets d h
      ∙ sym (update_self (λ j. get_or offsets j 0) d (get_or offsets d 0 + 1)))
  | inr other ↦
      let off = ==→≢ e d other in
      get_or-increment_ne offsets d e (λ q. off (sym q))
      ∙ sym (update_ne (λ j. get_or offsets j 0) d e (get_or offsets d 0 + 1) off)
]
