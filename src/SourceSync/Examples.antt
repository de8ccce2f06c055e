-- ===== src/SourceSync/Examples.antt =====
-- The listings of a directory and of releases, at concrete values.
use prv_apt_mirror.Prelude.{
  Text, codes, true, none, some, ◌≡◌, List, [], ◌∷◌, ◌++◌, All, arith, length, ltb, subst, refl,
  lower, decimal,
}
use prv_apt_mirror.Results.{ok-injective}
use prv_apt_mirror.Host.{
  Host, text, natural, array, object, item, no_items, field, no_fields, Fields,
}
use prv_apt_mirror.Samples.{plain_host}
use prv_apt_mirror.Samples.Site.{small_net, idle_source}
use prv_apt_mirror.Exec.{ok}
use prv_apt_mirror.Db.Sources.{SourceRow}
use prv_apt_mirror.SourceSync.Download.{Net, Page}
use prv_apt_mirror.SourceSync.Directory.{Candidate, latest_directory_candidates}
use prv_apt_mirror.SourceSync.Directory.Latest.{IsSelection, latest-IsSelection}
use prv_apt_mirror.SourceSync.Listings.{
  get_field, objects, iterated, assets_field, github_release_items, keep_releases,
}
use prv_apt_mirror.SourceSync.Listings.Previews.{
  AssetPreview, preview_of, preview_assets, preview_releases,
}
use prv_apt_mirror.SourceSync.Listings.Previews.Agree.{AgreesWith, IsPlain, github_assets-agree}

abbrev by_length : Host
by_length = record plain_host { version_lt = λ a b. ltb (length a) (length b) }

abbrev foo_file : Text → Candidate
foo_file version = record {
  filename = codes "foo_" ++ version ++ codes "_all.deb";
  url = version;
  is_deb = true;
  pattern_matches = true;
  identity =
      some (record { package_name = codes "foo"; version = version; architecture = codes "all" });
}

abbrev two_files : List Candidate
two_files = foo_file (codes "1") ∷ foo_file (codes "10") ∷ []

latest-IsSelection_example :
    IsSelection by_length two_files (latest_directory_candidates by_length two_files)
latest-IsSelection_example =
    latest-IsSelection by_length
      (record { irreflexive = λ a. ground arith; transitive = λ a b c h k. ground arith }) two_files

abbrev tool_asset : Fields
tool_asset = field (codes "name") (text (codes "a.deb")) (
    field (codes "url") (text (codes "https://example.org/a.deb"))
      (field (codes "id") (natural 7) no_fields))

abbrev one_release : Fields
one_release = field (codes "assets") (array (item (object tool_asset) no_items)) no_fields

abbrev two_releases : List Fields
two_releases = one_release ∷ one_release ∷ []

abbrev releases_page : Page
releases_page = record {
  refused = none;
  json = ok (array (item (object one_release) (item (object one_release) no_items)));
  length = 9;
  tags = [];
}

abbrev releases_net : Net
releases_net = record small_net { page = λ url. ok releases_page }

abbrev releases_source : SourceRow
releases_source = record idle_source { release_limit = 5 }

abbrev shown_asset : AssetPreview
shown_asset = preview_of plain_host (codes ".*") (codes "—") tool_asset

asset-IsPlain :
    (assets : List Fields)
    → iterated (assets_field one_release) ≡ ok assets
    → All (IsPlain plain_host) assets
unfolding get_field objects
asset-IsPlain assets e =
    subst (All (IsPlain plain_host)) (ok-injective e)
      (record { short_name = omega arith; has_url = refl; has_id = refl }, tt)

github_assets-agree_example :
    AgreesWith plain_host releases_net releases_source two_releases (shown_asset ∷ shown_asset ∷ [])
unfolding github_release_items keep_releases preview_releases preview_assets get_field objects lower
    decimal
github_assets-agree_example =
    github_assets-agree plain_host releases_net releases_source two_releases 200
      (shown_asset ∷ shown_asset ∷ []) refl refl (asset-IsPlain, (asset-IsPlain, tt)) refl
