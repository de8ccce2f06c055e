-- ===== src/Sources/Tests.antt =====
-- Sources at concrete values.
use prv_apt_mirror.Prelude.{
  codes, false, [], ◌∷◌, refl, Text, Dict, lookup, ascii_digits, parse_int, strip,
}
use prv_apt_mirror.Db.Sources.{direct_url}
use prv_apt_mirror.Samples.{plain_host}
use prv_apt_mirror.Sources.{
  Clean, validate_source_values, checked_place, checked_pattern, normalize_direct_url, int_within,
}
use prv_apt_mirror.Sources.Validate.{IsAccepted, validate_source_values-IsAccepted}

abbrev form : Dict Text
form =
    (codes "name", codes " Tools ")
    ∷ (codes "kind", codes "direct_url")
    ∷ (codes "location", codes "http://localhost/")
    ∷ []

abbrev clean : Clean
clean = record {
  name = codes "Tools";
  kind = direct_url;
  location = codes "http://localhost/";
  asset_pattern = codes ".*\\.deb$";
  interval_minutes = 30;
  release_limit = 1;
  include_prereleases = false;
  enabled = false;
}

validate_source_values-IsAccepted_example : IsAccepted plain_host clean
unfolding validate_source_values checked_place checked_pattern normalize_direct_url int_within
    lookup strip ascii_digits parse_int
validate_source_values-IsAccepted_example =
    validate_source_values-IsAccepted plain_host form clean refl
