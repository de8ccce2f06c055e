-- ===== src/Prelude/Ids.antt =====
-- `INTEGER PRIMARY KEY`: SQLite gives a new row the largest id in the table plus one.
use Prim.Native.Nat.{ℕ, suc, ◌≤◌, max}
use mathlib.Core.List.{List, [], ◌∷◌}
use native.Mathlib.Omega.{arith}
use prv_apt_mirror.Prelude.Lists.{All, All-map}

module _ {ℓ} {A : Type ℓ} (id : A → ℕ) where
  unfoldable pub max_id : List A → ℕ
  max_id [] = 0
  max_id (x ∷ xs) = max (id x) (max_id xs)

  abbrev pub next_id : List A → ℕ
  next_id xs = suc (max_id xs)

  pub All-le-max_id : (xs : List A) → All (λ x. id x ≤ max_id xs) xs
  unfolding max_id
  All-le-max_id [] = tt
  All-le-max_id (x ∷ xs) = (omega arith, All-map (λ y h. omega arith) xs (All-le-max_id xs))
