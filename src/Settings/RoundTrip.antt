-- ===== src/Settings/RoundTrip.antt =====
-- settings.py: what is stored of a valid configuration is read back as it was.
use prv_apt_mirror.Prelude.{
  ℕ, ◌≤◌, ◌≡◌, refl, sym, ap, ◌∙◌, subst, Text, codes, Bool, true, false, ◌||◌, List, [], ◌∷◌, ◌++◌,
  arith, All, All-map, all, length, ◌==◌, strip, lower, join, decimal, is_empty, is_digit, text_eq,
  text_eq_iff, ◌⊎◌, inl, inr, has_char, rstrip_char, is_space,
}
use prv_apt_mirror.Prelude.Strings.Strips.{
  strip-strip, strip_unspaced, no_spaces, rstrip_char-rstrip_char,
}
use prv_apt_mirror.Prelude.Strings.Decimals.{ascii_digits-decimal, parse_int-decimal}
use prv_apt_mirror.Prelude.Strings.Parts.{split-join}
use mathlib.Core.List.{append_assoc, append-nil}
use prv_apt_mirror.Exec.{ok}
use prv_apt_mirror.Host.{Host}
use prv_apt_mirror.Indexer.Select.{Distinct, has_arch}
use prv_apt_mirror.Settings.{
  is_name_start, bounded_int, repo_name, display_text, checked_url, is_url_char, collect_archs,
  checked_archs, matches_arch, is_lower, has_text,
}

pub bounded_int_again :
    (h : Host) (name raw : Text) (lo hi n : ℕ)
    → bounded_int h name raw lo hi ≡ ok n
    → bounded_int h name (decimal n) lo hi ≡ ok n
unfolding bounded_int
bounded_int_again h name raw lo hi n e =
    let range : (lo ≤ n) × (n ≤ hi) = ground arith in
    rw (bounded_int, ascii_digits-decimal h.wide_digit n, parse_int-decimal n)
      (ground (arith, range.0, range.1))

pub repo_name_again :
    (name raw value : Text) → repo_name name raw ≡ ok value → repo_name name value ≡ ok value
unfolding repo_name
repo_name_again name raw value e =
    let same : strip raw ≡ value = ground arith in
    subst (λ v. repo_name name v ≡ ok value) same (rw (repo_name, strip-strip raw) e)

pub display_text_again :
    (name raw value : Text) → display_text name raw ≡ ok value → display_text name value ≡ ok value
unfolding display_text
display_text_again name raw value e =
    let same : strip raw ≡ value = ground arith in
    subst (λ v. display_text name v ≡ ok value) same (rw (display_text, strip-strip raw) e)

printable_unspaced : (c : ℕ) → 33 ≤ c → c ≤ 126 → is_space c ≡ false
printable_unspaced c low high = ground arith

name_printable : (c : ℕ) → is_name_start c ≡ true → (33 ≤ c) × (c ≤ 126)
name_printable c h = (ground arith, ground arith)

mark_printable : (c : ℕ) → has_char c (codes ":/._~%+[]-") ≡ true → (33 ≤ c) × (c ≤ 126)
mark_printable c h = (ground arith, ground arith)

or_cases : (a b : Bool) → (a || b) ≡ true → (a ≡ true) ⊎ (b ≡ true)
or_cases true b h = inl refl
or_cases false b h = inr h

url_char_unspaced : (c : ℕ) → is_url_char c ≡ true → is_space c ≡ false
url_char_unspaced c h = elim (or_cases (is_name_start c) (has_char c (codes ":/._~%+[]-")) h) [
  | inl name ↦ let (low, high) = name_printable c name in printable_unspaced c low high
  | inr mark ↦ let (low, high) = mark_printable c mark in printable_unspaced c low high
]

-- what holds of the characters of a text gives that none is a space
unspaced :
    (p : ℕ → Bool)
    → ((c : ℕ) → p c ≡ true → is_space c ≡ false)
    → (s : Text) → all p s ≡ true
    → no_spaces s ≡ true
unspaced p f [] h = refl
unspaced p f (c ∷ s) h = ground (arith, f c, unspaced p f s)

pub checked_url_again :
    (h : Host) (raw url : Text) → checked_url h raw ≡ ok url → checked_url h url ≡ ok url
unfolding checked_url
checked_url_again h raw url e =
    let same : rstrip_char b'/' (strip raw) ≡ url = ground arith in
    let plain : all is_url_char (rstrip_char b'/' (strip raw)) ≡ true = ground arith in
    let clean = unspaced is_url_char url_char_unspaced (rstrip_char b'/' (strip raw)) plain in
    let stripped = strip_unspaced (rstrip_char b'/' (strip raw)) clean in
    subst (λ u. checked_url h u ≡ ok url) same
      (rw (checked_url, stripped, rstrip_char-rstrip_char b'/' (strip raw)) e)

is_arch_char : ℕ → Bool
is_arch_char c = is_lower c || is_digit c || c == b'-'

arch_char_plain : (c : ℕ) → is_arch_char c ≡ true → (is_space c ≡ false) × ((c == b',') ≡ false)
unfolding is_arch_char
arch_char_plain c h = (ground arith, ground arith)

arch_chars : (a : Text) → matches_arch a ≡ true → all is_arch_char a ≡ true
unfolding is_arch_char
arch_chars [] h = refl
arch_chars (c ∷ s) h = ground arith

lower-id : (wide : ℕ → Text) (s : Text) → all is_arch_char s ≡ true → lower wide s ≡ s
unfolding lower is_arch_char
lower-id wide [] h = refl
lower-id wide (c ∷ s) h = ground (arith, lower-id wide s)

no_comma : (s : Text) → all is_arch_char s ≡ true → has_char b',' s ≡ false
no_comma [] h = refl
no_comma (c ∷ s) h = ground (arith, arch_char_plain c, no_comma s)

far_from :
    (a item : Text) (acc items : List Text)
    → has_arch a (acc ++ item ∷ items) ≡ false
    → text_eq item a ≡ false
far_from a item [] items h = ground (arith, text_eq_iff a item, text_eq_iff item a)
far_from a item (b ∷ acc) items h = far_from a item acc items (ground arith)

Distinct-middle :
    (item : Text) (acc items : List Text)
    → Distinct (acc ++ item ∷ items)
    → has_text item acc ≡ false
Distinct-middle item [] items d = refl
Distinct-middle item (a ∷ acc) items d =
    let far = far_from a item acc items d.0 in
    let rest = Distinct-middle item acc items d.1 in ground arith

arch_again : (h : Host) (a : Text) → matches_arch a ≡ true → lower h.wide_lower (strip a) ≡ a
arch_again h a m =
    let chars = arch_chars a m in
    let clean = unspaced is_arch_char (λ c k. (arch_char_plain c k).0) a chars in
    ap (lower h.wide_lower) (strip_unspaced a clean) ∙ lower-id h.wide_lower a chars

filled : (a : Text) → matches_arch a ≡ true → is_empty a ≡ false
filled [] m = cc
filled (c ∷ s) m = refl

collect_archs_again :
    (h : Host) (items acc : List Text)
    → Distinct (acc ++ items)
    → All (λ a. matches_arch a ≡ true) items
    → collect_archs h items acc ≡ ok (acc ++ items)
unfolding collect_archs
collect_archs_again h [] acc d m = ap ok (sym (append-nil acc))
collect_archs_again h (item ∷ items) acc d m =
    let same = arch_again h item m.0 in
    let new = Distinct-middle item acc items d in
    let some_text = filled item m.0 in
    let good = m.0 in
    let joined = append_assoc acc (item ∷ []) items in
    let rest = collect_archs_again h items (acc ++ item ∷ []) (rw joined d) m.1 in
    rw (same, some_text, new, good, rest, joined) refl

no_commas :
    (archs : List Text)
    → All (λ a. matches_arch a ≡ true) archs
    → All (λ a. has_char b',' a ≡ false) archs
no_commas archs = All-map (λ a m. no_comma a (arch_chars a m)) archs

pub checked_archs_again :
    (h : Host) (archs : List Text)
    → Distinct archs
    → All (λ a. matches_arch a ≡ true) archs
    → (1 ≤ length archs) × (length archs ≤ 16)
    → checked_archs h (join (codes ",") archs) ≡ ok archs
unfolding checked_archs
checked_archs_again h [] d m count = absurd (omega (arith, count.0))
checked_archs_again h (a ∷ archs) d m count =
    let parts = split-join b',' a archs (no_commas (a ∷ archs) m) in
    let found = collect_archs_again h (a ∷ archs) [] d m in
    rw (checked_archs, parts, found) (ground (arith, count.1))
