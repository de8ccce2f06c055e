-- ===== src/Prelude/Strings/Strips.antt =====
-- What `strip` and `rstrip` leave, they leave again.
use Prim.Native.Nat.{ℕ}
use mathlib.Core.Path.{◌≡◌, refl, sym, ap, ◌∙◌}
use mathlib.Core.Logic.{◌⊎◌, inl, inr}
use mathlib.Core.Bool.{Bool, true, false, not, ◌&&◌}
use mathlib.Core.List.{[], ◌∷◌, ◌++◌, reverse, reverse-cons, reverse-append, reverse-reverse}
use native.Mathlib.Omega.{arith}
use prv_apt_mirror.Prelude.Tests.{Bool-cases}
use prv_apt_mirror.Prelude.Lists.{all}
use prv_apt_mirror.Prelude.Chars.{Text}
use prv_apt_mirror.Prelude.Strings.{is_space, lstrip, strip, rstrip_char, strip_left_char}

lstrip-lstrip : (s : Text) → lstrip (lstrip s) ≡ lstrip s
lstrip-lstrip [] = refl
lstrip-lstrip (c ∷ s) = ground (arith, lstrip-lstrip s)

lstrip_snoc : (c : ℕ) (s : Text) → is_space c ≡ false → lstrip (s ++ c ∷ []) ≡ lstrip s ++ c ∷ []
lstrip_snoc c [] h = ground arith
lstrip_snoc c (d ∷ s) h = ground (arith, lstrip_snoc c s h)

-- A text without spaces on its left is empty or begins with another character.
lstrip_cases :
    (s : Text)
    → (lstrip s ≡ []) ⊎ ((c : ℕ) × (t : Text) × (lstrip s ≡ c ∷ t) × (is_space c ≡ false))
lstrip_cases [] = inl refl
lstrip_cases (c ∷ s) = elim (Bool-cases (is_space c)) [
  | inl space ↦ rw space (lstrip_cases s)
  | inr other ↦ rw other (inr (c, s, refl, other))
]

-- the two ends of a text that begins with no space
strip_tight :
    (c : ℕ) (t : Text)
    → is_space c ≡ false
    → reverse (lstrip (reverse (c ∷ t))) ≡ c ∷ reverse (lstrip (reverse t))
strip_tight c t h =
    rw (reverse-cons c t, lstrip_snoc c (reverse t) h, reverse-append (lstrip (reverse t)) (c ∷ []))
      refl

strip_as :
    (s : Text) (c : ℕ) (t : Text)
    → lstrip s ≡ c ∷ t
    → is_space c ≡ false
    → strip s ≡ c ∷ reverse (lstrip (reverse t))
unfolding strip
strip_as s c t e h = ap (λ u. reverse (lstrip (reverse u))) e ∙ strip_tight c t h

strip_again :
    (c : ℕ) (t : Text)
    → is_space c ≡ false
    → strip (c ∷ reverse (lstrip (reverse t))) ≡ c ∷ reverse (lstrip (reverse t))
strip_again c t h =
    strip_as (c ∷ reverse (lstrip (reverse t))) c (reverse (lstrip (reverse t))) (ground arith) h
    ∙ ap (λ u. c ∷ reverse u)
        (ap lstrip (reverse-reverse (lstrip (reverse t))) ∙ lstrip-lstrip (reverse t))

pub strip-strip : (s : Text) → strip (strip s) ≡ strip s
unfolding strip
strip-strip s = elim (lstrip_cases s) [
  | inl e ↦ rw e refl
  | inr (c, t, e, h) ↦ ap strip (strip_as s c t e h) ∙ strip_again c t h ∙ sym (strip_as s c t e h)
]

-- no character is a space
abbrev pub no_spaces : Text → Bool
no_spaces = all (λ c. not (is_space c))

lstrip-id : (s : Text) → no_spaces s ≡ true → lstrip s ≡ s
lstrip-id [] h = refl
lstrip-id (c ∷ s) h = ground arith

all_snoc : (p : ℕ → Bool) (c : ℕ) (s : Text) → all p (s ++ c ∷ []) ≡ (all p s && p c)
all_snoc p c [] = ground arith
all_snoc p c (d ∷ s) = ground (arith, all_snoc p c s)

all-reverse : (p : ℕ → Bool) (s : Text) → all p (reverse s) ≡ all p s
all-reverse p [] = refl
all-reverse p (c ∷ s) =
    rw (reverse-cons c s, all_snoc p c (reverse s), all-reverse p s) (ground arith)

pub strip_unspaced : (s : Text) → no_spaces s ≡ true → strip s ≡ s
unfolding strip
strip_unspaced s h =
    ap (λ u. reverse (lstrip (reverse u))) (lstrip-id s h)
    ∙ ap reverse (lstrip-id (reverse s) (all-reverse (λ c. not (is_space c)) s ∙ h))
    ∙ reverse-reverse s

strip_left-twice :
    (k : ℕ) (s : Text) → strip_left_char k (strip_left_char k s) ≡ strip_left_char k s
strip_left-twice k [] = refl
strip_left-twice k (c ∷ s) = ground (arith, strip_left-twice k s)

pub rstrip_char-rstrip_char : (k : ℕ) (s : Text) → rstrip_char k (rstrip_char k s) ≡ rstrip_char k s
unfolding rstrip_char
rstrip_char-rstrip_char k s =
    ap (λ u. reverse (strip_left_char k u)) (reverse-reverse (strip_left_char k (reverse s)))
    ∙ ap reverse (strip_left-twice k (reverse s))
