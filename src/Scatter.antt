-- ===== src/Scatter.antt =====
-- The distribution pass of a counting sort: each element goes to the next free slot of its bucket.
pub mod Blocks
pub mod Sorts
pub mod Increment
use forest_sorting.Prelude.{
  ℕ, zero, suc, ◌+◌, ◌-◌, ◌≤◌, ◌<◌, ◌≡◌, ◌≢◌, refl, sym, ap, ap₂, ◌∙◌, List, [], ◌∷◌, ◌++◌, length,
  set, arith, ◌==◌, if◌then◌else◌, Bool, append_assoc, ==_refl, ≢→==,
}

-- A write to a table of counters or buckets.
unfoldable pub update {ℓ} : {A : Type ℓ} → (ℕ → A) → ℕ → A → ℕ → A
update f d v e = if e == d then v else f e

pub update_self {ℓ} : {A : Type ℓ} (f : ℕ → A) (d : ℕ) (v : A) → update f d v d ≡ v
unfolding update
update_self f d v = rw (==_refl d)

pub update_ne {ℓ} : {A : Type ℓ} (f : ℕ → A) (d e : ℕ) (v : A) → e ≢ d → update f d v e ≡ f e
unfolding update
update_ne f d e v h = rw (≢→== e d h)

-- `out[next[digit]++] = x` for each `x` in turn.
module _ {ℓ} {A : Type ℓ} (digit : A → ℕ) where
  unfoldable pub scatter : List A → List A → (ℕ → ℕ) → List A
  scatter [] out next = out
  scatter (x ∷ xs) out next =
      let d = digit x in scatter xs (set out (next d) x) (update next d (next d + 1))
