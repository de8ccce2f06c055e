-- ===== src/Sources.antt =====
-- sources.py: the package sources that the web page configures, and their encrypted tokens.
pub mod Table
pub mod Validate
mod Tests
use prv_apt_mirror.Prelude.{
  ℕ, Text, codes, Bool, false, ◌&&◌, ◌||◌, not, List, [], ◌∷◌, ◌++◌, all, length, take, Option,
  none, some, Dict, lookup, if◌then◌else◌, ◌==◌, ltb, leb, text_eq, reverse, drop, is_empty, strip,
  lower, join, split, has_suffix, parse_int, ascii_digits, natural, negative, filter, is_digit,
}
use prv_apt_mirror.Results.{◌>>=◌, ◌>>◌}
use prv_apt_mirror.Exec.{Error, Result, ok, err, validation_error, runtime_error}
use prv_apt_mirror.Host.{Host, Url}
use prv_apt_mirror.Config.{Config}
use prv_apt_mirror.Settings.{reject_if, is_upper, is_lower}
use prv_apt_mirror.Db.Sources.{Kind, github_release, direct_url}

-- `_fernet`: the key that the secret of the configuration gives
unfoldable pub token_key : Host → Config → Text
token_key h cfg =
    h.b64 (h.sha256_digest (codes "prvaptmirror/source-token/v1" ++ 0 ∷ h.encode cfg.secret_key))

unfoldable pub encrypt_token : Host → Config → Text → Text
unfolding token_key
encrypt_token h cfg token =
    if is_empty (strip token)
    then []
    else h.fernet_encrypt (token_key h cfg) (h.encode (strip token))

abbrev pub lost_token : Error
lost_token = runtime_error (codes "软件来源凭据无法解密；应用密钥可能已经改变")

abbrev decoded : Host → Option Text → Result (Option Text)
decoded h none = err lost_token
decoded h (some raw) = elim (h.decode raw) [ none ↦ err lost_token | some t ↦ ok (some t) ]

unfoldable pub decrypt_token : Host → Config → Option Text → Result (Option Text)
unfolding token_key
decrypt_token h cfg none = ok none
decrypt_token h cfg (some []) = ok none
decrypt_token h cfg (some (c ∷ s)) = decoded h (h.fernet_decrypt (token_key h cfg) (c ∷ s))

-- `[A-Za-z0-9_.-]+`
abbrev is_repository_char : ℕ → Bool
is_repository_char c = is_upper c || is_lower c || is_digit c || c == b'_' || c == b'.' || c == b'-'

abbrev pub is_repository_part : Text → Bool
is_repository_part p = not (is_empty p) && all is_repository_char p

abbrev strip_slashes : Text → Text
strip_slashes [] = []
strip_slashes (c ∷ s) = let rest = strip_slashes s in if c == b'/' then rest else c ∷ s

-- `[part for part in parsed.path.strip("/").split("/") if part]`
abbrev path_parts : Text → List Text
path_parts path =
    filter (λ p. not (is_empty p))
      (split b'/' (reverse (strip_slashes (reverse (strip_slashes path)))))

abbrev is_github : Host → Url → Bool
is_github h u =
    text_eq u.scheme (codes "https")
    && (text_eq (lower h.wide_lower u.netloc) (codes "github.com")
        || text_eq (lower h.wide_lower u.netloc) (codes "www.github.com"))

-- the value after `if parsed.scheme or parsed.netloc`
abbrev github_path : Host → Text → Url → Result Text
github_path h value u =
    if is_empty u.scheme && is_empty u.netloc
    then ok value
    else if not (is_github h u)
    then err (validation_error (codes "GitHub 来源必须是 github.com 地址或 owner/repository"))
    else if ltb (length (path_parts u.path)) 2
    then err (validation_error (codes "GitHub 仓库地址缺少 owner/repository"))
    else ok (join (codes "/") (take 2 (path_parts u.path)))

-- `if value.endswith(".git"): value = value[:-4]`
abbrev pub without_git : Text → Text
without_git value =
    if has_suffix value (codes ".git") then reverse (drop 4 (reverse value)) else value

-- `re.fullmatch` of both parts
abbrev pub is_repository : Text → Bool
is_repository value = length (split b'/' value) == 2 && all is_repository_part (split b'/' value)

unfoldable pub normalize_github_repository : Host → Text → Result Text
normalize_github_repository h raw = do
  value ← github_path h (strip raw) (h.urlparse (strip raw))
  if is_repository (without_git value)
      then ok (without_git value)
      else err (validation_error (codes "GitHub 仓库格式必须是 owner/repository"))

-- a field that is neither None nor empty
abbrev has_value : Option Text → Bool
has_value none = false
has_value (some t) = not (is_empty t)

abbrev pub is_http : Url → Bool
is_http u =
    (text_eq u.scheme (codes "http") || text_eq u.scheme (codes "https")) && not (is_empty u.netloc)

unfoldable pub normalize_direct_url : Host → Text → Result Text
normalize_direct_url h raw = do
  let value = strip raw
  reject_if (not (is_http (h.urlparse value)))
      (validation_error (codes "下载地址必须是完整的 http:// 或 https:// URL"))
  reject_if (has_value (h.urlparse value).username || has_value (h.urlparse value).password)
      (validation_error (codes "下载地址不能包含用户名或密码"))
  reject_if (ltb 2048 (length value)) (validation_error (codes "下载地址过长"))
  ok value

-- `asset_pattern.strip() or DEFAULT_ASSET_PATTERN`
abbrev or_default : Text → Text
or_default [] = codes ".*\\.deb$"
or_default (c ∷ s) = c ∷ s

abbrev compiled : Option Text → Result (Unit {0})
compiled none = ok tt
compiled (some e) = err (validation_error (codes "Asset 匹配表达式无效：" ++ e))

-- the pattern, within its length and one that `re.compile` takes
unfoldable pub checked_pattern : Host → Text → Result Text
checked_pattern h raw = do
  let pattern = or_default (strip raw)
  reject_if (ltb 500 (length pattern)) (validation_error (codes "Asset 匹配表达式不能超过 500 个字符"))
  compiled (h.re_error pattern)
  ok pattern

-- `int(raw)` between two bounds, with the message for what is no number and for what is outside
unfoldable pub int_within : Host → Text → ℕ → ℕ → Text → Text → Result ℕ
int_within h raw low high no_number outside = elim (parse_int (ascii_digits h.wide_digit raw)) [
  | none ↦ err (validation_error no_number)
  | some number ↦ elim number [
    | negative ↦ err (validation_error outside)
    | natural n ↦ if leb low n && leb n high then ok n else err (validation_error outside)
  ]
]

abbrev checked_limit : Host → Text → Result ℕ
checked_limit h raw =
    int_within h raw 1 20 (codes "Release 数量必须是整数") (codes "Release 数量必须在 1 到 20 之间")

unfoldable pub validate_github_probe_values : Host → Text → Text → Text → Result (Text × Text × ℕ)
validate_github_probe_values h location asset_pattern release_limit = do
  repository ← normalize_github_repository h location
  pattern ← checked_pattern h asset_pattern
  limit ← checked_limit h release_limit
  ok (repository, pattern, limit)

-- the dictionary that `validate_source_values` returns
pub record Clean : Type 0 where
  pub name : Text
  pub kind : Kind
  pub location : Text
  pub asset_pattern : Text
  pub interval_minutes : ℕ
  pub release_limit : ℕ
  pub include_prereleases : Bool
  pub enabled : Bool

-- `values.get(key, default)`
abbrev pub value_or : Dict Text → Text → Text → Text
value_or values key default = elim (lookup key values) [ none ↦ default | some v ↦ v ]

abbrev pub checked_kind : Text → Result Kind
checked_kind t =
    if text_eq t (codes "github_release")
    then ok github_release
    else if text_eq t (codes "direct_url")
    then ok direct_url
    else err (validation_error (codes "不支持的软件来源类型"))

-- the location, the pattern and the limit, for either kind
unfoldable pub checked_place : Host → Kind → Dict Text → Result (Text × Text × ℕ)
checked_place h github_release values =
    validate_github_probe_values h (strip (value_or values (codes "location") []))
      (value_or values (codes "asset_pattern") [])
      (value_or values (codes "release_limit") (codes "1"))
checked_place h direct_url values = do
  location ← normalize_direct_url h (strip (value_or values (codes "location") []))
  pattern ← checked_pattern h (value_or values (codes "asset_pattern") [])
  limit ← checked_limit h (value_or values (codes "release_limit") (codes "1"))
  ok (location, pattern, limit)

abbrev checked_interval : Host → Text → Result ℕ
checked_interval h raw =
    int_within h raw 5 10080 (codes "检查间隔必须是整数") (codes "检查间隔必须在 5 到 10080 分钟之间")

unfoldable pub validate_source_values : Host → Dict Text → Result Clean
validate_source_values h values = do
  let name = strip (value_or values (codes "name") [])
  reject_if (is_empty name || ltb 80 (length name))
      (validation_error (codes "来源名称不能为空且不能超过 80 个字符"))
  kind ← checked_kind (strip (value_or values (codes "kind") []))
  (location, pattern, limit) ← checked_place h kind values
  interval ← checked_interval h (value_or values (codes "interval_minutes") (codes "30"))
  ok (record {
    name = name;
    kind = kind;
    location = location;
    asset_pattern = pattern;
    interval_minutes = interval;
    release_limit = limit;
    include_prereleases = text_eq (value_or values (codes "include_prereleases") []) (codes "yes");
    enabled = text_eq (value_or values (codes "enabled") []) (codes "yes");
  })
