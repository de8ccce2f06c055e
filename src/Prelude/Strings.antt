-- ===== src/Prelude/Strings.antt =====
-- The methods of Python's `str` that the program calls.
pub mod Strips
pub mod Decimals
pub mod Parts
use Prim.Native.Nat.{ℕ, zero, suc, ◌+◌, ◌-◌, ◌*◌, ◌/◌, ◌%◌}
use mathlib.Core.Bool.{Bool, true, false, not, ◌&&◌, ◌||◌}
use mathlib.Core.List.{List, [], ◌∷◌, ◌++◌, reverse}
use mathlib.Core.Option
use mathlib.Core.Option.{Option, none, some}
use prv_apt_mirror.Prelude.Tests.{ltb, leb, ◌==◌, if◌then◌else◌}
use prv_apt_mirror.Prelude.Chars.{Text, starts_with, is_empty}

-- `str(n)`; a number has at most as many digits as its value plus one, so the fuel suffices.
abbrev pub decimal_fuel : ℕ → ℕ → Text
decimal_fuel zero n = []
decimal_fuel (suc f) n =
    let rest = decimal_fuel f (n / 10) ++ (48 + n % 10) ∷ [] in
    if ltb n 10 then (48 + n) ∷ [] else rest

unfoldable pub decimal : ℕ → Text
decimal n = decimal_fuel (suc n) n

-- `sep.join(parts)`
abbrev pub join : Text → List Text → Text
join sep [] = []
join sep (p ∷ []) = p
join sep (p ∷ q ∷ ps) = p ++ sep ++ join sep (q ∷ ps)

abbrev pub cons_first : ℕ → List Text → List Text
cons_first c [] = (c ∷ []) ∷ []
cons_first c (p ∷ ps) = (c ∷ p) ∷ ps

-- `s.split(c)` for a separator of one character
abbrev pub split : ℕ → Text → List Text
split sep [] = [] ∷ []
split sep (c ∷ s) = let rest = split sep s in if c == sep then [] ∷ rest else cons_first c rest

-- `value.replace("\r\n", "\n")`
abbrev pub replace_crlf : Text → Text
replace_crlf [] = []
replace_crlf (c ∷ []) = c ∷ []
replace_crlf (c ∷ d ∷ s) =
    let both = 10 ∷ replace_crlf s in
    let one = c ∷ replace_crlf (d ∷ s) in if c == 13 && d == 10 then both else one

-- `value.replace("\r", "\n")`
abbrev pub replace_cr : Text → Text
replace_cr [] = []
replace_cr (c ∷ s) = (if c == 13 then 10 else c) ∷ replace_cr s

abbrev pub has_char : ℕ → Text → Bool
has_char c [] = false
has_char c (d ∷ s) = d == c || has_char c s

-- `sub in s`
abbrev pub contains : Text → Text → Bool
contains sub [] = starts_with [] sub
contains sub (c ∷ s) = starts_with (c ∷ s) sub || contains sub s

-- `a < b` for texts: by code points
abbrev pub text_lt : Text → Text → Bool
text_lt [] [] = false
text_lt [] (d ∷ t) = true
text_lt (c ∷ s) [] = false
text_lt (c ∷ s) (d ∷ t) = let rest = text_lt s t in if c == d then rest else ltb c d

-- `[0-9a-f]`
abbrev pub is_hex : ℕ → Bool
is_hex c = leb b'0' c && leb c b'9' || leb b'a' c && leb c b'f'

-- `c.isspace()`
abbrev pub is_space : ℕ → Bool
is_space c =
    leb 9 c && leb c 13
    || leb 28 c && leb c 32
    || c == 0x85
    || c == 0xa0
    || c == 0x1680
    || leb 0x2000 c && leb c 0x200a
    || c == 0x2028
    || c == 0x2029
    || c == 0x202f
    || c == 0x205f
    || c == 0x3000

abbrev pub lstrip : Text → Text
lstrip [] = []
lstrip (c ∷ s) = let rest = lstrip s in if is_space c then rest else c ∷ s

-- `s.strip()`
unfoldable pub strip : Text → Text
strip s = reverse (lstrip (reverse (lstrip s)))

abbrev pub strip_left_char : ℕ → Text → Text
strip_left_char k [] = []
strip_left_char k (c ∷ s) = let rest = strip_left_char k s in if c == k then rest else c ∷ s

-- `s.rstrip(c)` for one character
unfoldable pub rstrip_char : ℕ → Text → Text
rstrip_char k s = reverse (strip_left_char k (reverse s))

abbrev pub is_digit : ℕ → Bool
is_digit c = leb b'0' c && leb c b'9'

-- `s.lower()`, with the Unicode Character Database for what is not ASCII
unfoldable pub lower : (ℕ → Text) → Text → Text
lower wide [] = []
lower wide (c ∷ s) =
    (if leb 128 c then wide c else (if leb b'A' c && leb c b'Z' then c + 32 else c) ∷ [])
    ++ lower wide s

abbrev pub starts_with_digit : Text → Bool
starts_with_digit [] = false
starts_with_digit (c ∷ s) = is_digit c

-- The digits of `int(s)` after the sign: one `_` may stand between two digits.
abbrev pub int_digits : ℕ → Text → Option ℕ
int_digits n [] = some n
int_digits n (c ∷ []) = if is_digit c then some (n * 10 + (c - 48)) else none
int_digits n (c ∷ d ∷ s) =
    let next = int_digits (n * 10 + (c - 48)) (d ∷ s) in
    let skipped = int_digits (n * 10 + (c - 48)) s in
    if not (is_digit c)
    then none
    else if d == b'_'
    then (if starts_with_digit s then skipped else none)
    else next

-- `int(s)` for a text with its digits in ASCII; `negative` stands for every number below zero.
pub data Number : Type 0 where
  natural : ℕ → Number
  negative : Number

abbrev negate : ℕ → Number
negate zero = natural zero
negate (suc n) = negative

abbrev pub signed : Text → Option Number
signed [] = none
signed (c ∷ s) =
    if c == b'-'
    then (if starts_with_digit s then Option.map negate (int_digits 0 s) else none)
    else if c == b'+'
    then (if starts_with_digit s then Option.map natural (int_digits 0 s) else none)
    else if is_digit c
    then Option.map natural (int_digits 0 (c ∷ s))
    else none

unfoldable pub parse_int : Text → Option Number
unfolding strip
parse_int s = signed (strip s)

-- the text with its digits of other scripts in ASCII, as `int` reads it
unfoldable pub ascii_digits : (ℕ → ℕ) → Text → Text
ascii_digits wide [] = []
ascii_digits wide (c ∷ s) = (if leb 128 c then wide c else c) ∷ ascii_digits wide s

-- the line boundaries of `splitlines`
abbrev pub is_line_end : ℕ → Bool
is_line_end c =
    leb 10 c && leb c 13 || leb 28 c && leb c 30 || c == 0x85 || c == 0x2028 || c == 0x2029

-- `s.splitlines()` for a text with a first character
abbrev lines_of : Text → List Text
lines_of [] = [] ∷ []
lines_of (c ∷ []) = if is_line_end c then [] ∷ [] else (c ∷ []) ∷ []
lines_of (c ∷ d ∷ s) =
    let next = lines_of (d ∷ s) in
    let after = lines_of s in
    let blank = if is_empty s then [] ∷ [] else [] ∷ after in
    if c == 13 && d == 10 then blank else if is_line_end c then [] ∷ next else cons_first c next

unfoldable pub splitlines : Text → List Text
splitlines [] = []
splitlines (c ∷ s) = lines_of (c ∷ s)

-- `bytes.strip()`
abbrev is_byte_space : ℕ → Bool
is_byte_space c = leb 9 c && leb c 13 || c == 32

abbrev lstrip_bytes : Text → Text
lstrip_bytes [] = []
lstrip_bytes (c ∷ s) = let rest = lstrip_bytes s in if is_byte_space c then rest else c ∷ s

unfoldable pub strip_bytes : Text → Text
strip_bytes s = reverse (lstrip_bytes (reverse (lstrip_bytes s)))

abbrev pub has_suffix : Text → Text → Bool
has_suffix s suffix = starts_with (reverse s) (reverse suffix)
