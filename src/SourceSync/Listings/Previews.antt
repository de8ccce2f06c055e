-- ===== src/SourceSync/Listings/Previews.antt =====
-- source_sync.py: the previews of the web page, which show what a source would select.
pub mod Agree
use prv_apt_mirror.Prelude.{
  ℕ, ℤ, ◌-◌, Text, codes, Bool, true, false, ◌&&◌, not, List, [], ◌∷◌, ◌++◌, length, take, any, map,
  Option, none, some, if◌then◌else◌, ltb, text_eq, strip, has_suffix,
}
use prv_apt_mirror.Results.{◌>>=◌, ◌>>◌}
use prv_apt_mirror.Exec.{Error, other_error, Result, ok, err, value_error, message}
use prv_apt_mirror.Host.{Host, text, Fields}
use prv_apt_mirror.Settings.{reject_if}
use prv_apt_mirror.Debparse.Ar.{ar_magic}
use prv_apt_mirror.Sources.{validate_github_probe_values, normalize_direct_url}
use prv_apt_mirror.SourceSync.Download.{Net, Response}
use prv_apt_mirror.SourceSync.Listings.{
  or_else, get_field, str_of, int_of, iterated, assets_field, name_of, is_deb_name,
  pattern_compiled, github_release_items,
}
use prv_apt_mirror.SourceSync.Directory.{
  DebIdentity, Candidate, http_directory_candidates, latest_directory_candidates,
}

-- `GitHubAssetPreview`
pub record AssetPreview : Type 0 where
  pub release : Text
  pub filename : Text
  pub size : Option ℤ
  pub is_deb : Bool
  pub pattern_matches : Bool

-- its property `selected`
abbrev pub is_selected : AssetPreview → Bool
is_selected p = p.is_deb && p.pattern_matches

-- `GitHubSourcePreview`
pub record SourcePreview : Type 0 where
  pub repository : Text
  pub releases_checked : ℕ
  pub assets : List AssetPreview
  pub is_truncated : Bool

abbrev pub release_name : Host → Fields → Text
release_name h fs = str_of h (
    or_else (get_field (codes "tag_name") fs) (
      or_else (get_field (codes "name") fs)
        (or_else (get_field (codes "id") fs) (text (codes "—")))))

abbrev pub preview_of : Host → Text → Text → Fields → AssetPreview
preview_of h pattern release fs = record {
  release = take 200 release;
  filename = take 500 (name_of h fs);
  size = int_of (get_field (codes "size") fs);
  is_deb = is_deb_name h (take 500 (name_of h fs));
  pattern_matches = h.re_search pattern (take 500 (name_of h fs));
}

-- the inner loop, with the room that is left, and whether it ended for want of room
unfoldable pub preview_assets : Host → Text → Text → ℕ → List Fields → List AssetPreview × Bool
preview_assets h pattern release room [] = ([], false)
preview_assets h pattern release ℕ.zero (fs ∷ rest) = ([], true)
preview_assets h pattern release (ℕ.suc room) (fs ∷ rest) =
    let (more, cut) = preview_assets h pattern release room rest in
    (preview_of h pattern release fs ∷ more, cut)

abbrev pub joined_previews :
    List AssetPreview × Bool → Result (List AssetPreview × Bool) → Result (List AssetPreview × Bool)
joined_previews (ps, true) rest = ok (ps, true)
joined_previews (ps, false) (err e) = err e
joined_previews (ps, false) (ok (more, cut)) = ok (ps ++ more, cut)

unfoldable pub preview_releases : Host → Text → ℕ → List Fields → Result (List AssetPreview × Bool)
preview_releases h pattern room [] = ok ([], false)
preview_releases h pattern room (release ∷ rest) = do
  assets ← iterated (assets_field release)
  let shown = preview_assets h pattern (release_name h release) room assets
  joined_previews shown (preview_releases h pattern (room - length shown.0) rest)

-- `preview_github_source`
unfoldable pub preview_github_source :
    Host → Net → Text → Text → Text → Bool → ℕ → Result SourcePreview
preview_github_source h net location asset_pattern release_limit with_pre max_assets = do
  (repository, pattern, limit) ← validate_github_probe_values h location asset_pattern release_limit
  releases ← github_release_items net repository with_pre limit
  pattern_compiled h pattern
  shown ← preview_releases h pattern max_assets releases
  ok (record {
    repository = repository;
    releases_checked = length releases;
    assets = shown.0;
    is_truncated = shown.1;
  })

-- What a probe of one address gives: the status, the content type, whether it is a package, and
-- the error.
abbrev Probe : Type 0
Probe = Option ℕ × Option Text × Bool × Option Text

-- the first chunks, as many as it takes to have 8 bytes, and what ends the body before that
unfoldable pub read_prefix : Text → List Text → Option Text → Text × Option Text
read_prefix prefix [] broken = (prefix, broken)
read_prefix prefix (c ∷ cs) broken =
    let more = read_prefix (prefix ++ c) cs broken in
    if ltb (length (prefix ++ c)) 8 then more else (prefix ++ c, none)

abbrev or_empty : Text → Text
or_empty [] = codes "（空响应）"
or_empty (c ∷ s) = c ∷ s

abbrev probed_prefix : Net → Response → Text → Probe
probed_prefix net r prefix =
    if text_eq (take 8 prefix) ar_magic then (some r.status_code, r.content_type, true, none) else (
      some r.status_code,
      r.content_type,
      false,
      some (codes "响应开头为 " ++ or_empty (net.hex (take 8 prefix)) ++ codes "，不是 Debian ar 文件"),
    )

-- `except httpx.RequestError`
abbrev request_failed : Net → Error → Result Probe
request_failed net e =
    if net.is_request_error e then ok (none, none, false, some (message e)) else err e

abbrev probed_body : Net → Response → Text × Option Text → Result Probe
probed_body net r (prefix, none) = ok (probed_prefix net r prefix)
probed_body net r (prefix, some m) = request_failed net (other_error m)

abbrev probed_response : Net → Response → Option Text → Result Probe
probed_response net r (some m) = ok (some r.status_code, r.content_type, false, some m)
probed_response net r none = probed_body net r (read_prefix [] r.chunks r.broken)

abbrev probed : Net → Result Response → Result Probe
probed net (err e) = request_failed net e
probed net (ok r) = probed_response net r r.refused

-- `_probe_deb_response`
unfoldable pub probe_deb_response : Net → Text → Result Probe
probe_deb_response net url = probed net (net.stream url)

-- `DirectoryAssetPreview`
pub record DirectoryPreview : Type 0 where
  pub filename : Text
  pub version : Option Text
  pub architecture : Option Text
  pub is_deb : Bool
  pub pattern_matches : Bool
  pub valid_filename : Bool
  pub selected : Bool
  pub response_status : Option ℕ
  pub content_type : Option Text
  pub valid_deb : Option Bool
  pub error : Option Text

abbrev shown_version : Option DebIdentity → Option Text
shown_version none = none
shown_version (some i) = some i.version

abbrev shown_architecture : Option DebIdentity → Option Text
shown_architecture none = none
shown_architecture (some i) = some i.architecture

abbrev is_identified : Option DebIdentity → Bool
is_identified none = false
is_identified (some i) = true

abbrev not_probed : Candidate → Bool → DirectoryPreview
not_probed c selected = record {
  filename = c.filename;
  version = shown_version c.identity;
  architecture = shown_architecture c.identity;
  is_deb = c.is_deb;
  pattern_matches = c.pattern_matches;
  valid_filename = is_identified c.identity;
  selected = selected;
  response_status = none;
  content_type = none;
  valid_deb = none;
  error = none;
}

abbrev directory_preview : Candidate → Bool → Option Probe → DirectoryPreview
directory_preview c selected none = not_probed c selected
directory_preview c selected (some (status, content_type, valid, error)) =
    record (not_probed c selected) {
      response_status = status;
      content_type = content_type;
      valid_deb = some valid;
      error = error;
    }

-- the probe of a file that is selected
abbrev probe_if : Bool → Net → Text → Result (Option Probe)
probe_if false net url = ok none
probe_if true net url = do probe ← probe_deb_response net url; ok (some probe)

unfoldable pub preview_each : Net → List Text → List Candidate → Result (List DirectoryPreview)
preview_each net selected [] = ok []
preview_each net selected (c ∷ cs) = do
  let is_chosen = any (λ url. text_eq url c.url) selected
  probe ← probe_if is_chosen net c.url
  rest ← preview_each net selected cs
  ok (directory_preview c is_chosen probe ∷ rest)

-- `DirectorySourcePreview`
pub record DirectorySource : Type 0 where
  pub directory : Text
  pub assets : List DirectoryPreview
  pub is_truncated : Bool

abbrev or_any_deb : Text → Text
or_any_deb [] = codes ".*\\.deb$"
or_any_deb (c ∷ s) = c ∷ s

abbrev checked_expression : Option Text → Result (Unit {0})
checked_expression none = ok tt
checked_expression (some m) = err (value_error (codes "Asset 匹配表达式无效：" ++ m))

-- `preview_http_directory`
unfoldable pub preview_http_directory : Host → Net → Text → Text → ℕ → Result DirectorySource
preview_http_directory h net location asset_pattern max_assets = do
  directory ← normalize_direct_url h location
  reject_if (not (has_suffix (h.urlparse directory).path (codes "/")))
      (value_error (codes "HTTP 目录地址必须以 / 结尾"))
  let pattern = or_any_deb (strip asset_pattern)
  checked_expression (h.re_error pattern)
  candidates ← http_directory_candidates h net directory pattern
  let selected = map (λ c. c.url) (latest_directory_candidates h candidates)
  shown ← preview_each net selected (take max_assets candidates)
  ok (record {
    directory = directory;
    assets = shown;
    is_truncated = ltb max_assets (length candidates);
  })
