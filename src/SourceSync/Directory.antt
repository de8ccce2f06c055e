-- ===== src/SourceSync/Directory.antt =====
-- source_sync.py: the packages that the index page of an HTTP directory links to, and the newest of
-- each name and architecture.
pub mod Latest
use prv_apt_mirror.Prelude.{
  ℕ, ◌*◌, Text, codes, Bool, ◌&&◌, ◌||◌, not, List, [], ◌∷◌, ◌++◌, map, reverse, take, drop, Option,
  none, some, if◌then◌else◌, ltb, text_eq, text_lt, is_empty, lower, join, split, has_suffix,
}
use prv_apt_mirror.Results.{◌>>=◌, ◌>>◌}
use prv_apt_mirror.Exec.{Result, ok, value_error}
use prv_apt_mirror.Host.{Host, Url, Tag}
use prv_apt_mirror.Settings.{reject_if}
use prv_apt_mirror.Db.Sources.{SourceRow}
use prv_apt_mirror.SourceSync.Download.{Net}
use prv_apt_mirror.SourceSync.Import.{RemoteAsset}
use prv_apt_mirror.SourceSync.Listings.{status_checked, pattern_compiled, is_deb_name}

-- the package, the version and the architecture that a file name gives
pub record DebIdentity : Type 0 where
  pub package_name : Text
  pub version : Text
  pub architecture : Text

-- `_DirectoryCandidate`
pub record Candidate : Type 0 where
  pub filename : Text
  pub url : Text
  pub is_deb : Bool
  pub pattern_matches : Bool
  pub identity : Option DebIdentity

-- the value of the first `href` that has one
first_href : Host → List (Text × Option Text) → List Text
first_href h [] = []
first_href h ((key, none) ∷ rest) = first_href h rest
first_href h ((key, some value) ∷ rest) =
    let more = first_href h rest in
    if text_eq (lower h.wide_lower key) (codes "href") && not (is_empty value)
    then value ∷ []
    else more

-- `_HrefParser.handle_starttag`: what one tag adds to `hrefs`
unfoldable pub handle_starttag : Host → Tag → List Text
unfolding first_href
handle_starttag h tag =
    if text_eq (lower h.wide_lower tag.name) (codes "a") then first_href h tag.attrs else []

unfoldable pub hrefs_of : Host → List Tag → List Text
hrefs_of h [] = []
hrefs_of h (tag ∷ tags) = handle_starttag h tag ++ hrefs_of h tags

-- the three parts of `stem.rsplit("_", 2)`, from the last to the first
abbrev identity_parts : Host → List Text → Option DebIdentity
identity_parts h (architecture ∷ version ∷ p ∷ ps) =
    let name = join (codes "_") (reverse (p ∷ ps)) in
    if is_empty name || is_empty version || is_empty architecture || not (h.is_version version)
    then none
    else some (record {
      package_name = lower h.wide_lower name;
      version = version;
      architecture = lower h.wide_lower architecture;
    })
identity_parts h _ = none

-- `_directory_deb_identity`
unfoldable pub directory_deb_identity : Host → Text → Option DebIdentity
directory_deb_identity h filename =
    if is_deb_name h filename
    then identity_parts h (reverse (split b'_' (reverse (drop 4 (reverse filename)))))
    else none

-- `path.rsplit("/", 1)`: its first and its last item
abbrev rsplit_slash : List Text → Text × Text
rsplit_slash [] = ([], [])
rsplit_slash (p ∷ []) = (p, p)
rsplit_slash (p ∷ q ∷ ps) = (join (codes "/") (reverse (q ∷ ps)), p)

abbrev pub parent_and_name : Text → Text × Text
parent_and_name path = rsplit_slash (reverse (split b'/' path))

-- `base.path if base.path.endswith("/") else base.path + "/"`
abbrev with_slash : Text → Text
with_slash path = if has_suffix path (codes "/") then path else path ++ codes "/"

-- a link to a file of the directory itself
abbrev pub is_inside : Url → Url → Bool
is_inside base candidate =
    text_eq candidate.scheme base.scheme
    && text_eq candidate.netloc base.netloc
    && text_eq ((parent_and_name candidate.path).0 ++ codes "/") (with_slash base.path)

abbrev candidate_of : Host → Text → Text → Text → Candidate
candidate_of h pattern url filename = record {
  filename = take 500 filename;
  url = url;
  is_deb = is_deb_name h filename;
  pattern_matches = h.re_search pattern filename;
  identity = directory_deb_identity h filename;
}

-- the loop over the links
unfoldable pub candidates_of : Host → Text → Text → List Text → List Candidate
candidates_of h location pattern [] = []
candidates_of h location pattern (href ∷ hrefs) =
    let more = candidates_of h location pattern hrefs in
    let url = h.url_join location href in
    let filename = h.unquote (parent_and_name (h.urlparse url).path).1 in
    if is_inside (h.urlparse location) (h.urlparse url) && not (is_empty filename)
    then candidate_of h pattern url filename ∷ more
    else more

abbrev max_directory_index_bytes : ℕ
max_directory_index_bytes = 2 * 1024 * 1024

-- `_http_directory_candidates`
unfoldable pub http_directory_candidates : Host → Net → Text → Text → Result (List Candidate)
http_directory_candidates h net location pattern = do
  page ← net.page location
  status_checked page.refused
  reject_if (ltb max_directory_index_bytes page.length) (value_error (codes "HTTP 目录索引超过 2 MiB 限制"))
  pattern_compiled h pattern
  ok (candidates_of h location pattern (hrefs_of h page.tags))

-- An entry of `latest`: the key is the package and the architecture.
pub record Entry : Type 0 where
  pub package_name : Text
  pub architecture : Text
  pub version : Text
  pub candidate : Candidate

abbrev pub same_key : Entry → Entry → Bool
same_key a b = text_eq a.package_name b.package_name && text_eq a.architecture b.architecture

-- `if current is None or current[0] < version: latest[key] = (version, candidate)`
unfoldable pub put_latest : Host → Entry → List Entry → List Entry
put_latest h new [] = new ∷ []
put_latest h new (e ∷ es) =
    let rest = put_latest h new es in
    if not (same_key e new)
    then e ∷ rest
    else if h.version_lt e.version new.version
    then new ∷ es
    else e ∷ es

abbrev pub entry_of : DebIdentity → Candidate → Entry
entry_of i c = record {
  package_name = i.package_name;
  architecture = i.architecture;
  version = i.version;
  candidate = c;
}

-- one turn of the loop
abbrev pub put_candidate : Host → Candidate → Option DebIdentity → List Entry → List Entry
put_candidate h c none es = es
put_candidate h c (some i) es = if c.pattern_matches then put_latest h (entry_of i c) es else es

unfoldable pub latest_of : Host → List Candidate → List Entry → List Entry
latest_of h [] es = es
latest_of h (c ∷ cs) es = latest_of h cs (put_candidate h c c.identity es)

-- the order of the keys
abbrev pub key_lt : Entry → Entry → Bool
key_lt a b =
    text_lt a.package_name b.package_name
    || text_eq a.package_name b.package_name && text_lt a.architecture b.architecture

unfoldable pub insert_entry : Entry → List Entry → List Entry
insert_entry e [] = e ∷ []
insert_entry e (f ∷ fs) =
    let rest = insert_entry e fs in if key_lt f e then f ∷ rest else e ∷ f ∷ fs

unfoldable pub sorted_entries : List Entry → List Entry
sorted_entries [] = []
sorted_entries (e ∷ es) = insert_entry e (sorted_entries es)

-- `_latest_directory_candidates`
unfoldable pub latest_directory_candidates : Host → List Candidate → List Candidate
latest_directory_candidates h cs = map (λ e. e.candidate) (sorted_entries (latest_of h cs []))

abbrev directory_asset : Candidate → RemoteAsset
directory_asset c = record {
  external_id = codes "directory:" ++ c.url;
  filename = c.filename;
  url = c.url;
  size = none;
}

-- `_http_directory_assets`
unfoldable pub http_directory_assets : Host → Net → SourceRow → Result (List RemoteAsset)
http_directory_assets h net source = do
  candidates ← http_directory_candidates h net source.location source.asset_pattern
  ok (map directory_asset (latest_directory_candidates h candidates))
