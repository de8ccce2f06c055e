-- ===== src/SourceSync/Listings.antt =====
-- source_sync.py: which files a GitHub repository or an HTTP directory lists for a source.

pub mod Previews
use prv_apt_mirror.Prelude.{
  ℕ, ℤ, pos, negsuc, Text, codes, Bool, true, false, ◌&&◌, ◌||◌, not, List, [], ◌∷◌, ◌++◌, reverse,
  take, Option, none, some, if◌then◌else◌, text_eq, lower, has_suffix, starts_with, decimal,
}
use prv_apt_mirror.Results.{◌>>=◌, ◌>>◌}
use prv_apt_mirror.Exec.{Result, ok, err, runtime_error, other_error}
use prv_apt_mirror.Host.{
  Host, Json, null, boolean, natural, minus, float, text, array, object, Items, no_items, item,
  Fields, no_fields, field,
}
use prv_apt_mirror.Db.Sources.{SourceRow}
use prv_apt_mirror.SourceSync.Download.{Net}
use prv_apt_mirror.SourceSync.Import.{RemoteAsset}

-- `if value`
abbrev pub is_truthy : Json → Bool
is_truthy null = false
is_truthy (boolean b) = b
is_truthy (natural ℕ.zero) = false
is_truthy (natural (ℕ.suc n)) = true
is_truthy (minus n) = true
is_truthy (float is_zero t) = not is_zero
is_truthy (text []) = false
is_truthy (text (c ∷ s)) = true
is_truthy (array no_items) = false
is_truthy (array (item v vs)) = true
is_truthy (object no_fields) = false
is_truthy (object (field k v fs)) = true

-- `a or b`
abbrev pub or_else : Json → Json → Json
or_else a b = if is_truthy a then a else b

-- `fields.get(key)`
unfoldable pub get_field : Text → Fields → Json
get_field k no_fields = null
get_field k (field j v fs) = if text_eq j k then v else get_field k fs

-- `str(value)`
abbrev pub str_of : Host → Json → Text
str_of h (text t) = t
str_of h (natural n) = decimal n
str_of h v = h.json_str v

-- `isinstance(value, int)` and `int(value)`; a Boolean is an int.
abbrev pub int_of : Json → Option ℤ
int_of (natural n) = some (pos n)
int_of (minus n) = some (negsuc n)
int_of (boolean true) = some (pos 1)
int_of (boolean false) = some (pos 0)
int_of _ = none

-- the elements that are dictionaries
unfoldable pub objects : Items → List Fields
objects no_items = []
objects (item (object fs) vs) = fs ∷ objects vs
objects (item _ vs) = objects vs

-- The dictionaries that `for x in value` gives: a text or a dictionary gives texts alone.
abbrev pub iterated : Json → Result (List Fields)
iterated (array vs) = ok (objects vs)
iterated (text t) = ok []
iterated (object fs) = ok []
iterated null = err (other_error (codes "'NoneType' object is not iterable"))
iterated (boolean b) = err (other_error (codes "'bool' object is not iterable"))
iterated (float z t) = err (other_error (codes "'float' object is not iterable"))
iterated _ = err (other_error (codes "'int' object is not iterable"))

abbrev is_release : Bool → Fields → Bool
is_release with_pre fs =
    not (is_truthy (get_field (codes "draft") fs))
    && (with_pre || not (is_truthy (get_field (codes "prerelease") fs)))

unfoldable pub keep_releases : Bool → List Fields → List Fields
keep_releases with_pre [] = []
keep_releases with_pre (fs ∷ rest) =
    let kept = keep_releases with_pre rest in if is_release with_pre fs then fs ∷ kept else kept

abbrev releases_of : Bool → ℕ → Json → Result (List Fields)
releases_of with_pre limit (array vs) = ok (take limit (keep_releases with_pre (objects vs)))
releases_of with_pre limit _ = err (runtime_error (codes "GitHub Releases API 返回了无效内容"))

abbrev pub status_checked : Option Text → Result (Unit {0})
status_checked none = ok tt
status_checked (some m) = err (other_error m)

-- `_github_release_items`
unfoldable pub github_release_items : Net → Text → Bool → ℕ → Result (List Fields)
github_release_items net repository with_pre limit = do
  page ←
      net.page
        (codes "https://api.github.com/repos/" ++ repository ++ codes "/releases?per_page=20")
  status_checked page.refused
  payload ← page.json
  releases_of with_pre limit payload

-- `re.compile`, which raises `re.error`
abbrev pub pattern_compiled : Host → Text → Result (Unit {0})
pattern_compiled h pattern = elim (h.re_error pattern) [
  | none ↦ ok tt
  | some m ↦ err (other_error m)
]

abbrev pub is_deb_name : Host → Text → Bool
is_deb_name h name = has_suffix (lower h.wide_lower name) (codes ".deb")

abbrev pub name_of : Host → Fields → Text
name_of h fs = str_of h (or_else (get_field (codes "name") fs) (text []))

abbrev pub url_of : Host → Fields → Text
url_of h fs = str_of h (
    or_else (get_field (codes "url") fs)
      (or_else (get_field (codes "browser_download_url") fs) (text [])))

abbrev pub is_null : Json → Bool
is_null null = true
is_null _ = false

-- the test of the loop: what it passes is no file for the source
abbrev pub is_passed_over : Host → Text → Fields → Bool
is_passed_over h pattern fs =
    not (is_deb_name h (name_of h fs))
    || not (h.re_search pattern (name_of h fs))
    || not (
        starts_with (url_of h fs) (codes "https://") || starts_with (url_of h fs) (codes "http://"))
    || is_null (get_field (codes "id") fs)

abbrev pub github_asset : Host → Fields → RemoteAsset
github_asset h fs = record {
  external_id =
      codes "github:"
      ++ str_of h (get_field (codes "id") fs)
      ++ codes ":"
      ++ str_of h (or_else (get_field (codes "updated_at") fs) (text []));
  filename = take 500 (name_of h fs);
  url = url_of h fs;
  size = int_of (get_field (codes "size") fs);
}

-- the inner loop, over the assets of one release
unfoldable pub assets_of : Host → Text → List Fields → List RemoteAsset
assets_of h pattern [] = []
assets_of h pattern (fs ∷ rest) =
    let more = assets_of h pattern rest in
    if is_passed_over h pattern fs then more else github_asset h fs ∷ more

abbrev pub assets_field : Fields → Json
assets_field fs = or_else (get_field (codes "assets") fs) (array no_items)

unfoldable pub assets_each : Host → Text → List Fields → Result (List RemoteAsset)
assets_each h pattern [] = ok []
assets_each h pattern (release ∷ rest) = do
  assets ← iterated (assets_field release)
  more ← assets_each h pattern rest
  ok (assets_of h pattern assets ++ more)

-- `_github_assets`: the releases come newest first, and the oldest is taken first.
unfoldable pub github_assets : Host → Net → SourceRow → Result (List RemoteAsset)
github_assets h net source = do
  releases ←
      github_release_items net source.location source.include_prereleases source.release_limit
  pattern_compiled h source.asset_pattern
  assets_each h source.asset_pattern (reverse releases)
