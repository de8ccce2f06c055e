-- ===== src/Debparse/Deb/Safe.antt =====
-- What is sure of a package that `parse_deb` returns.
use prv_apt_mirror.Prelude.{
  ◌≡◌, refl, subst, Text, codes, Bool, true, false, List, [], ◌∷◌, Option, none, arith, length,
  has_char, contains, Dict, lookup, All, text_eq, strip, lower, remove, not,
}
use prv_apt_mirror.Results.{bind-inv, ok-injective}
use prv_apt_mirror.Exec.{ok}
use prv_apt_mirror.Host.{Host}
use prv_apt_mirror.Storage.{ParsedDeb}
use prv_apt_mirror.Indexer.{control_fields}
use prv_apt_mirror.Debparse.Deb.{
  parse_deb, package_of, require_fields, check_parts, describe, read_control, matches_package,
  is_unsafe_fragment, is_foreign, field, kept_fields,
}

-- A text that can stand in the name of a file: it leaves no directory.
pub record IsFragment (t : Text) : Type 0 where
  pub no_nul : has_char 0 t ≡ false
  pub no_slash : has_char b'/' t ≡ false
  pub no_backslash : has_char b'\\' t ≡ false
  pub no_parent : contains (codes "..") t ≡ false

is_unsafe_fragment-IsFragment :
    (allow : Bool) (t : Text) → is_unsafe_fragment allow t ≡ false → IsFragment t
unfolding is_unsafe_fragment
is_unsafe_fragment-IsFragment allow t e = record {
  no_nul = ground arith;
  no_slash = ground arith;
  no_backslash = ground arith;
  no_parent = ground arith;
}

pub record IsSafe (h : Host) (allowed : Option (List Text)) (file : Text) (p : ParsedDeb)
    : Type 0 where
  pub name : IsFragment p.name
  pub version : IsFragment p.version
  pub architecture : IsFragment p.architecture
  pub package_name : matches_package p.name ≡ true
  pub is_version : h.is_version p.version ≡ true
  pub is_allowed : is_foreign allowed p.architecture ≡ false
  pub size : p.size ≡ length file
  pub digest : p.sha256 ≡ h.sha256_hex file
  pub essential : lookup (codes "Essential") p.control ≡ none

rejected_unless : {b : Bool} → not b ≡ false → b ≡ true
rejected_unless {b} e = ground arith

lookup-kept_fields :
    (k : Text) (keys : List Text) (fields : Dict Text)
    → All (λ j. text_eq j k ≡ false) keys
    → lookup k (kept_fields keys fields) ≡ none
unfolding lookup kept_fields
lookup-kept_fields k [] fields h = refl
lookup-kept_fields k (j ∷ keys) fields h = ground (arith, h.0, lookup-kept_fields k keys fields h.1)

record IsAccepted (h : Host) (allowed : Option (List Text)) (name version architecture : Text)
    : Type 0 where
  name_ok : matches_package name ≡ true
  name_safe : is_unsafe_fragment false name ≡ false
  architecture_safe : is_unsafe_fragment false architecture ≡ false
  version_safe : is_unsafe_fragment true version ≡ false
  version_ok : h.is_version version ≡ true
  architecture_ok : is_foreign allowed architecture ≡ false

check_parts-IsAccepted :
    (h : Host) (allowed : Option (List Text)) (original name version architecture : Text)
    → check_parts h allowed original name version architecture ≡ ok tt
    → IsAccepted h allowed name version architecture
unfolding check_parts
check_parts-IsAccepted h allowed original name version architecture e = record {
  name_ok = ground arith;
  name_safe = ground arith;
  architecture_safe = ground arith;
  version_safe = ground arith;
  version_ok = ground arith;
  architecture_ok = ground arith;
}

describe-IsSafe :
    (h : Host) (allowed : Option (List Text)) (file : Text) (raw : Dict Text)
    → (original name version architecture : Text) → IsAccepted h allowed name version architecture
    → IsSafe h allowed file (describe h file raw original name version architecture)
describe-IsSafe h allowed file raw original name version architecture a = record {
  name = is_unsafe_fragment-IsFragment false name a.name_safe;
  version = is_unsafe_fragment-IsFragment true version a.version_safe;
  architecture = is_unsafe_fragment-IsFragment false architecture a.architecture_safe;
  package_name = a.name_ok;
  is_version = a.version_ok;
  is_allowed = a.architecture_ok;
  size = refl;
  digest = refl;
  essential = lookup-kept_fields (codes "Essential") control_fields _ (ground arith);
}

package_of-IsSafe :
    (h : Host) (allowed : Option (List Text)) (file : Text) (raw : Dict Text) (p : ParsedDeb)
    → package_of h allowed file raw ≡ ok p
    → IsSafe h allowed file p
unfolding package_of
package_of-IsSafe h allowed file raw p e0 =
    let fields = remove (codes "Essential") raw in
    let original = strip (field (codes "Package") fields) in
    let name = lower h.wide_lower original in
    let version = strip (field (codes "Version") fields) in
    let architecture = strip (field (codes "Architecture") fields) in
    let (_, _, e1) = bind-inv (require_fields fields) _ e0 in
    let (_, accepted, e2) =
      bind-inv (check_parts h allowed original name version architecture) _ e1 in
    subst (IsSafe h allowed file) (ok-injective e2) (
      describe-IsSafe h allowed file raw original name version architecture
        (check_parts-IsAccepted h allowed original name version architecture accepted))

-- A package that `parse_deb` returns has a name, a version and an architecture without NUL,
-- slash, backslash and "..", a name that the pattern of package names accepts, a version that
-- the library accepts and an architecture that is allowed. Its size and its digest are those of
-- the file, and its fields lack Essential.
pub parse_deb-IsSafe :
    (h : Host) (allowed : Option (List Text)) (path file : Text) (p : ParsedDeb)
    → parse_deb h allowed path file ≡ ok p
    → IsSafe h allowed file p
unfolding parse_deb
parse_deb-IsSafe h allowed path file p e =
    let (raw, _, found) = bind-inv (read_control h path file) _ e in
    package_of-IsSafe h allowed file raw p found
