-- ===== src/Prelude/Strings/Decimals.antt =====
-- `int(str(n))` is `n`.
use Prim.Native.Nat.{ℕ, zero, suc, ◌+◌, ◌-◌, ◌*◌, ◌/◌, ◌%◌, ◌<◌}
use mathlib.Core.Path.{◌≡◌, refl, ap, ◌∙◌}
use mathlib.Core.Bool.{true, false}
use mathlib.Core.List.{[], ◌∷◌, ◌++◌}
use mathlib.Core.Option.{some}
use native.Mathlib.Omega.{arith}
use prv_apt_mirror.Prelude.Tests.{if_elim, ltb}
use prv_apt_mirror.Prelude.Lists.{all}
use prv_apt_mirror.Prelude.Chars.{Text, is_empty}
use prv_apt_mirror.Prelude.Strings.{
  decimal, decimal_fuel, int_digits, is_digit, signed, parse_int, ascii_digits, natural,
}
use prv_apt_mirror.Prelude.Strings.Strips.{no_spaces, strip_unspaced}

-- the value of digits after those of `n`
value : ℕ → Text → ℕ
value n [] = n
value n (c ∷ s) = value (n * 10 + (c - 48)) s

value_snoc : (n d : ℕ) (s : Text) → value n (s ++ d ∷ []) ≡ value n s * 10 + (d - 48)
unfolding value
value_snoc n d [] = refl
value_snoc n d (c ∷ s) = value_snoc (n * 10 + (c - 48)) d s

int_digits-value : (n : ℕ) (s : Text) → all is_digit s ≡ true → int_digits n s ≡ some (value n s)
unfolding value
int_digits-value n [] h = refl
int_digits-value n (c ∷ []) h = ground arith
int_digits-value n (c ∷ d ∷ s) h = ground (arith, int_digits-value (n * 10 + (c - 48)) (d ∷ s))

-- a text of at least one digit, with the value
record IsDecimal (n : ℕ) (s : Text) : Type 0 where
  filled : is_empty s ≡ false
  digits : all is_digit s ≡ true
  worth : value 0 s ≡ n

all_digits_snoc :
    (c : ℕ) (s : Text)
    → all is_digit s ≡ true
    → is_digit c ≡ true
    → all is_digit (s ++ c ∷ []) ≡ true
all_digits_snoc c [] h k = ground arith
all_digits_snoc c (d ∷ s) h k = ground (arith, all_digits_snoc c s)

filled_snoc : (c : ℕ) (s : Text) → is_empty (s ++ c ∷ []) ≡ false
filled_snoc c [] = refl
filled_snoc c (d ∷ s) = refl

decimal_fuel-IsDecimal : (f n : ℕ) → n < f → IsDecimal n (decimal_fuel f n)
unfolding value
decimal_fuel-IsDecimal zero n h = absurd (omega arith)
decimal_fuel-IsDecimal (suc f) n h =
    if_elim (IsDecimal n) (ltb n 10) _ _
      (λ small. record { filled = refl; digits = ground arith; worth = ground arith })
      λ large.
        let rest : IsDecimal (n / 10) (decimal_fuel f (n / 10)) =
          decimal_fuel-IsDecimal f (n / 10) (ground arith) in
        record {
          filled = filled_snoc (48 + n % 10) (decimal_fuel f (n / 10));
          digits =
              all_digits_snoc (48 + n % 10) (decimal_fuel f (n / 10)) rest.digits (ground arith);
          worth = value_snoc 0 (48 + n % 10) (decimal_fuel f (n / 10)) ∙ ground (arith, rest.worth);
        }

unspaced : (s : Text) → all is_digit s ≡ true → no_spaces s ≡ true
unspaced [] h = refl
unspaced (c ∷ s) h = ground (arith, unspaced s)

signed-IsDecimal : (n : ℕ) (s : Text) → IsDecimal n s → signed s ≡ some (natural n)
signed-IsDecimal n [] d = ground (arith, d.filled)
signed-IsDecimal n (c ∷ s) d = ground (arith, d.digits, d.worth, int_digits-value 0 (c ∷ s))

pub parse_int-decimal : (n : ℕ) → parse_int (decimal n) ≡ some (natural n)
unfolding parse_int decimal
parse_int-decimal n =
    let d = decimal_fuel-IsDecimal (suc n) n (omega arith) in
    ap signed (strip_unspaced (decimal_fuel (suc n) n) (unspaced (decimal_fuel (suc n) n) d.digits))
    ∙ signed-IsDecimal n _ d

ascii_digits-IsDigits : (wide : ℕ → ℕ) (s : Text) → all is_digit s ≡ true → ascii_digits wide s ≡ s
unfolding ascii_digits
ascii_digits-IsDigits wide [] h = refl
ascii_digits-IsDigits wide (c ∷ s) h = ground (arith, ascii_digits-IsDigits wide s)

pub ascii_digits-decimal : (wide : ℕ → ℕ) (n : ℕ) → ascii_digits wide (decimal n) ≡ decimal n
unfolding decimal
ascii_digits-decimal wide n =
    let d = decimal_fuel-IsDecimal (suc n) n (omega arith) in
    ascii_digits-IsDigits wide (decimal_fuel (suc n) n) d.digits
