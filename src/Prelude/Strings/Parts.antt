-- ===== src/Prelude/Strings/Parts.antt =====
-- `s.split(c)` takes apart what `c.join(parts)` put together.
use Prim.Native.Nat.{ℕ}
use mathlib.Core.Path.{◌≡◌, refl, ap, ◌∙◌}
use mathlib.Core.Bool.{false}
use mathlib.Core.List.{List, [], ◌∷◌, ◌++◌, append_assoc}
use native.Mathlib.Omega.{arith}
use prv_apt_mirror.Prelude.Lists.{All}
use prv_apt_mirror.Prelude.Chars.{Text}
use prv_apt_mirror.Prelude.Strings.{split, join, has_char}

split_part : (c : ℕ) (p : Text) → has_char c p ≡ false → split c p ≡ p ∷ []
split_part c [] h = refl
split_part c (d ∷ p) h = ground (arith, split_part c p)

split_first :
    (c : ℕ) (p rest : Text) → has_char c p ≡ false → split c (p ++ c ∷ rest) ≡ p ∷ split c rest
split_first c [] rest h = ground arith
split_first c (d ∷ p) rest h = ground (arith, split_first c p rest)

pub split-join :
    (c : ℕ) (p : Text) (ps : List Text)
    → All (λ q. has_char c q ≡ false) (p ∷ ps)
    → split c (join (c ∷ []) (p ∷ ps)) ≡ p ∷ ps
split-join c p [] h = split_part c p h.0
split-join c p (q ∷ ps) h =
    ap (split c) (append_assoc p (c ∷ []) (join (c ∷ []) (q ∷ ps)))
    ∙ split_first c p (join (c ∷ []) (q ∷ ps)) h.0
    ∙ ap (λ r. p ∷ r) (split-join c q ps h.1)
