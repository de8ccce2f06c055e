-- ===== src/Sources/Validate.antt =====
-- sources.py: what is sure of the values that `validate_source_values` returns.
use prv_apt_mirror.Prelude.{
  ℕ, ◌≤◌, ◌≡◌, subst, Text, true, false, ◌||◌, arith, length, ltb, is_empty, strip, Dict, none,
  codes, [],
}
use prv_apt_mirror.Results.{bind-inv, ok-injective}
use prv_apt_mirror.Exec.{ok}
use prv_apt_mirror.Host.{Host}
use prv_apt_mirror.Db.Sources.{Kind, github_release, direct_url}
use prv_apt_mirror.Settings.{reject_if}
use prv_apt_mirror.Sources.{
  Clean, normalize_github_repository, is_repository, normalize_direct_url, is_http, checked_pattern,
  int_within, validate_github_probe_values, checked_place, validate_source_values, value_or,
  checked_kind,
}

-- What a location is of either kind.
abbrev IsPlace : Host → Kind → Text → Type 0
IsPlace h github_release t = is_repository t ≡ true
IsPlace h direct_url t = (is_http (h.urlparse t) ≡ true) × (length t ≤ 2048)

pub record IsAccepted (h : Host) (c : Clean) : Type 0 where
  pub has_name : is_empty c.name ≡ false
  pub name_length : length c.name ≤ 80
  pub place : IsPlace h c.kind c.location
  pub pattern_length : length c.asset_pattern ≤ 500
  pub pattern_compiles : h.re_error c.asset_pattern ≡ none
  pub some_release : 1 ≤ c.release_limit
  pub few_releases : c.release_limit ≤ 20
  pub not_often : 5 ≤ c.interval_minutes
  pub each_week : c.interval_minutes ≤ 10080

int_within_range :
    (h : Host) (raw : Text) (low high : ℕ) (a b : Text) (n : ℕ)
    → int_within h raw low high a b ≡ ok n
    → (low ≤ n) × (n ≤ high)
unfolding int_within
int_within_range h raw low high a b n e = ground arith

repository-IsPlace :
    (h : Host) (raw t : Text) → normalize_github_repository h raw ≡ ok t → is_repository t ≡ true
unfolding normalize_github_repository
repository-IsPlace h raw t e = ground arith

direct_url-IsPlace :
    (h : Host) (raw t : Text) → normalize_direct_url h raw ≡ ok t → IsPlace h direct_url t
unfolding normalize_direct_url
direct_url-IsPlace h raw t e = (ground arith, ground arith)

abbrev IsPattern : Host → Text → Type 0
IsPattern h p = (length p ≤ 500) × (h.re_error p ≡ none)

checked_pattern-IsPattern : (h : Host) (raw p : Text) → checked_pattern h raw ≡ ok p → IsPattern h p
unfolding checked_pattern
checked_pattern-IsPattern h raw p e = (ground arith, ground arith)

abbrev WithinPlace : Host → Kind → Text × Text × ℕ → Type 0
WithinPlace h kind (location, pattern, limit) =
    IsPlace h kind location × IsPattern h pattern × ((1 ≤ limit) × (limit ≤ 20))

checked_place-WithinPlace :
    (h : Host) (kind : Kind) (values : Dict Text) (place : Text × Text × ℕ)
    → checked_place h kind values ≡ ok place
    → WithinPlace h kind place
unfolding checked_place validate_github_probe_values
checked_place-WithinPlace h github_release values place e =
    let (location, e1, e) = bind-inv (normalize_github_repository h _) _ e in
    let (pattern, e2, e) = bind-inv (checked_pattern h _) _ e in
    let (limit, e3, e) = bind-inv (int_within h _ 1 20 _ _) _ e in
    subst (WithinPlace h github_release) (ok-injective e) (
      repository-IsPlace h _ location e1,
      checked_pattern-IsPattern h _ pattern e2,
      int_within_range h _ 1 20 _ _ limit e3,
    )
checked_place-WithinPlace h direct_url values place e =
    let (location, e1, e) = bind-inv (normalize_direct_url h _) _ e in
    let (pattern, e2, e) = bind-inv (checked_pattern h _) _ e in
    let (limit, e3, e) = bind-inv (int_within h _ 1 20 _ _) _ e in
    subst (WithinPlace h direct_url) (ok-injective e) (
      direct_url-IsPlace h _ location e1,
      checked_pattern-IsPattern h _ pattern e2,
      int_within_range h _ 1 20 _ _ limit e3,
    )

-- The values that `validate_source_values` returns have a name of 1 to 80 characters, a pattern
-- of at most 500 characters that compiles, 1 to 20 releases and an interval of 5 to 10080
-- minutes. The location is two parts of the accepted characters for a repository, and an http(s)
-- address of at most 2048 characters for a file.
pub validate_source_values-IsAccepted :
    (h : Host) (values : Dict Text) (c : Clean)
    → validate_source_values h values ≡ ok c
    → IsAccepted h c
unfolding validate_source_values
validate_source_values-IsAccepted h values c e =
    let name = strip (value_or values (codes "name") []) in
    let (_, e1, e) = bind-inv (reject_if (is_empty name || ltb 80 (length name)) _) _ e in
    let named : is_empty name ≡ false = ground arith in
    let bounded : length name ≤ 80 = ground arith in
    let (kind, _, e) = bind-inv (checked_kind (strip (value_or values (codes "kind") []))) _ e in
    let (place, e2, e) = bind-inv (checked_place h kind values) _ e in
    let (interval, e3, e) = bind-inv (int_within h _ 5 10080 _ _) _ e in
    let (at_place, (short, compiles), (some_release, few)) =
      checked_place-WithinPlace h kind values place e2 in
    let (low, high) = int_within_range h _ 5 10080 _ _ interval e3 in
    subst (IsAccepted h) (ok-injective e) (record {
      has_name = named;
      name_length = bounded;
      place = at_place;
      pattern_length = short;
      pattern_compiles = compiles;
      some_release = some_release;
      few_releases = few;
      not_often = low;
      each_week = high;
    })
