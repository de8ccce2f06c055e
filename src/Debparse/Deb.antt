-- ===== src/Debparse/Deb.antt =====
-- `parse_deb` of debparse.py and the functions that it calls.
pub mod Safe
use prv_apt_mirror.Prelude.{
  ℕ, suc, ◌*◌, Text, codes, Bool, true, false, ◌&&◌, ◌||◌, not, List, [], ◌∷◌, ◌++◌, Option, none,
  some, if◌then◌else◌, length, text_eq, starts_with, ltb, leb, strip, lower, has_suffix, is_empty,
  has_char, contains, split, join, any, all, Dict, lookup, insert, remove, is_some, ◌==◌, is_digit,
  take, reverse,
}
use prv_apt_mirror.Results.{◌>>=◌, ◌>>◌}
use prv_apt_mirror.Exec.{Result, ok, err, deb_parse_error, other_error}
use prv_apt_mirror.Host.{Host, Codec, zst, gz, xz, bz2, TarMember}
use prv_apt_mirror.Storage.{ParsedDeb}
use prv_apt_mirror.Indexer.{control_fields}
use prv_apt_mirror.Debparse.Ar.{
  Member, is_binary_name, is_control_name, read_ar_members, max_control_archive_bytes,
}
use prv_apt_mirror.Debparse.Control.{parse_control_text}

abbrev pub reject_if : Bool → Text → Result (Unit {0})
reject_if true m = err (deb_parse_error m)
reject_if false m = ok tt

abbrev fail {ℓ} : {A : Type ℓ} → Text → Result A
fail m = err (deb_parse_error m)

abbrev pub max_control_text_bytes : ℕ
max_control_text_bytes = 1024 * 1024

-- the branches of `_decompress_tar` on the end of the name
abbrev codec_of : Text → Option Codec
codec_of name =
    if has_suffix name (codes ".tar.zst") || has_suffix name (codes ".tar.zstd")
    then some zst
    else if has_suffix name (codes ".tar.gz") || has_suffix name (codes ".tar.gzip")
    then some gz
    else if has_suffix name (codes ".tar.xz")
    then some xz
    else if has_suffix name (codes ".tar.bz2")
    then some bz2
    else none

abbrev is_xz : Codec → Bool
is_xz xz = true
is_xz _ = false

abbrev bounded : Text → Result Text
bounded result =
    if ltb max_control_archive_bytes (length result)
    then fail (codes "control.tar 解压后超过大小限制")
    else ok result

-- What is raised where a decoder raises: zstandard's error is caught where it is used, the others'
-- by the handler of `parse_deb`.
abbrev pub unread : Host → Codec → Text → Text
unread h zst name = codes "无法解压 control.tar.zst（损坏或内部错误）"
unread h _ name =
    if contains (codes "zst") (lower h.wide_lower name)
    then codes "无法解压 control.tar.zst（内部错误，应安装 zstandard）"
    else codes "无法解压 " ++ name

-- What was read with a decoder. An unfinished xz stream within the limit is refused.
abbrev from_codec : Host → Codec → Text → Option (Text × Bool) → Result Text
from_codec h codec name none = fail (unread h codec name)
from_codec h codec name (some (result, eof)) =
    if is_xz codec && leb (length result) max_control_archive_bytes && not eof
    then fail (codes "control.tar.xz 截断")
    else bounded result

-- `_decompress_tar`, with the handler of `parse_deb` around it
unfoldable pub decompress_tar : Host → Text → Text → Result Text
decompress_tar h name blob = elim (codec_of (lower h.wide_lower name)) [
  | some codec ↦ from_codec h codec name (h.decompress codec blob)
  | none ↦
      if has_suffix (lower h.wide_lower name) (codes ".tar")
      then bounded blob
      else fail (codes "不支持的 control 压缩: " ++ name)
]

abbrev last_part : List Text → Text
last_part [] = []
last_part (p ∷ []) = p
last_part (p ∷ q ∷ ps) = last_part (q ∷ ps)

abbrev no_control : Text
no_control = codes "control.tar 中没有 control 文件"

-- the loop of `_control_from_tar`
unfoldable pub find_control : List TarMember → Result Text
find_control [] = fail no_control
find_control (m ∷ ms) =
    let rest = find_control ms in
    let here : Result Text =
      if ltb max_control_text_bytes m.size
      then fail (codes "control 文件超过大小限制")
      else elim m.content [
        | none ↦ fail no_control
        | some data' ↦ ok (take (suc max_control_text_bytes) data')
      ] in
    if text_eq (last_part (split b'/' m.name)) (codes "control") && m.is_file then here else rest

abbrev tar_read : Option (List TarMember) → Result Text
tar_read none = err (other_error (codes "tarfile"))
tar_read (some ms) = find_control ms

unfoldable pub control_from_tar : Host → Text → Result Text
control_from_tar h tar = tar_read (h.tar_members tar)

-- `_unsafe_path_fragment`
unfoldable pub is_unsafe_fragment : Bool → Text → Bool
is_unsafe_fragment allow_colon value =
    has_char 0 value
    || has_char b'/' value
    || has_char b'\\' value
    || contains (codes "..") value
    || not allow_colon && has_char b':' value

abbrev pub is_package_start : ℕ → Bool
is_package_start c = leb b'a' c && leb c b'z' || is_digit c

abbrev pub is_package_char : ℕ → Bool
is_package_char c = is_package_start c || c == b'+' || c == b'.' || c == b'-'

-- `PACKAGE_RE.match(name)`, for a name that does not end in a line break
abbrev pub matches_package : Text → Bool
matches_package [] = false
matches_package (c ∷ []) = false
matches_package (c ∷ d ∷ s) = is_package_start c && all is_package_char (d ∷ s)

abbrev pub field : Text → Dict Text → Text
field key fields = elim (lookup key fields) [ none ↦ [] | some v ↦ v ]

abbrev pub require_field : Text → Dict Text → Result (Unit {0})
require_field key fields =
    reject_if (is_empty (strip (field key fields))) (codes "control 缺少必填字段 " ++ key)

-- the fields that are kept, in the order of `CONTROL_FIELDS`
unfoldable pub kept_fields : List Text → Dict Text → Dict Text
kept_fields [] fields = []
kept_fields (key ∷ keys) fields =
    let rest = kept_fields keys fields in
    if is_empty (field key fields) then rest else (key, field key fields) ∷ rest

abbrev pub has_text : Text → List Text → Bool
has_text a = any (λ b. text_eq a b)

abbrev pub is_foreign : Option (List Text) → Text → Bool
is_foreign none architecture = false
is_foreign (some archs) architecture = not (has_text architecture archs)

abbrev foreign_error : Option (List Text) → Text → Text
foreign_error none architecture = []
foreign_error (some archs) architecture =
    codes "Architecture "
    ++ architecture
    ++ codes " 不在当前允许列表 "
    ++ join (codes ",") archs
    ++ codes "；把该 arch 加入 PRVAPT_ARCHS 后重建索引"

abbrev find_binary : List Member → Option Text
find_binary [] = none
find_binary ((n, data') ∷ ms) =
    let rest = find_binary ms in if is_binary_name n && is_some data' then data' else rest

abbrev find_blob : List Member → Option (Text × Text)
find_blob [] = none
find_blob ((n, none) ∷ ms) = find_blob ms
find_blob ((n, some blob) ∷ ms) =
    let rest = find_blob ms in if is_control_name n then some (n, blob) else rest

-- `next(...)` of a member that the tests above have found
abbrev or_stop {ℓ} : {A : Type ℓ} → Option A → Result A
or_stop none = err (other_error (codes "StopIteration"))
or_stop (some a) = ok a

-- `path.suffix`: what follows the last dot, unless the name begins or ends with that dot
abbrev until_dot : Text → Option (Text × Text)
until_dot [] = none
until_dot (c ∷ s) =
    let rest : Option (Text × Text) = elim (until_dot s) [
      | none ↦ none
      | some (a, b) ↦ some (c ∷ a, b)
    ] in
    if c == b'.' then some ([], s) else rest

abbrev pub path_suffix : Text → Text
path_suffix name = elim (until_dot (reverse name)) [
  | none ↦ []
  | some (ext, stem) ↦ if is_empty ext || is_empty stem then [] else b'.' ∷ reverse ext
]

-- The control text of a file: the members, the format and the archive.
unfoldable pub read_control : Host → Text → Text → Result (Dict Text)
read_control h path file = do
  reject_if (not (text_eq (lower h.wide_lower (path_suffix path)) (codes ".deb")))
      (codes "扩展名必须是 .deb")
  members ← read_ar_members file
  reject_if (not (any (λ m. is_binary_name m.0) members)) (codes "缺少 debian-binary 成员")
  reject_if (not (any (λ m. is_control_name m.0) members)) (codes "缺少 control.tar* 成员")
  reject_if (not (any (λ m. starts_with m.0 (codes "data.tar")) members)) (codes "缺少 data.tar* 成员")
  debian_binary ← or_stop (find_binary members)
  reject_if (not (starts_with debian_binary (codes "2."))) (codes "仅支持 debian-binary 2.x 格式")
  blob ← or_stop (find_blob members)
  tar ← decompress_tar h blob.0 blob.1
  control_raw ← control_from_tar h tar
  parse_control_text h control_raw

abbrev pub essential_warning : Dict Text → List Text
essential_warning fields =
    if is_some (lookup (codes "Essential") fields)
    then codes "discarded Essential field" ∷ []
    else []

abbrev pub name_warning : Host → Text → Text → List Text
name_warning h original name =
    if text_eq name original
    then []
    else (codes "normalized Package field from " ++ h.repr original ++ codes " to " ++ h.repr name)
      ∷ []

abbrev pub with_name : Text → Text → Dict Text → Dict Text
with_name original name fields =
    if text_eq name original then fields else insert (codes "Package") name fields

-- the tests of the name, the version and the architecture
unfoldable pub check_parts :
    Host → Option (List Text) → Text → Text → Text → Text → Result (Unit {0})
check_parts h allowed original name version architecture = do
  reject_if (not (matches_package name)) (codes "非法 Package 名: " ++ original)
  reject_if (is_unsafe_fragment false name) (codes "Package 名含非法路径字符")
  reject_if (is_unsafe_fragment false architecture) (codes "Architecture 含非法路径字符")
  reject_if (is_unsafe_fragment true version) (codes "Version 含非法路径字符")
  reject_if (not (h.is_version version)) (codes "无法解析 Version: " ++ version)
  reject_if (is_foreign allowed architecture) (foreign_error allowed architecture)

abbrev pub describe : Host → Text → Dict Text → Text → Text → Text → Text → ParsedDeb
describe h file raw original name version architecture = record {
  name = name;
  version = version;
  architecture = architecture;
  control = kept_fields control_fields (with_name original name (remove (codes "Essential") raw));
  size = length file;
  md5 = h.md5_hex file;
  sha1 = h.sha1_hex file;
  sha256 = h.sha256_hex file;
  warnings = essential_warning raw ++ name_warning h original name;
}

abbrev pub require_fields : Dict Text → Result (Unit {0})
require_fields fields = do
  require_field (codes "Package") fields
  require_field (codes "Version") fields
  require_field (codes "Architecture") fields

-- What `parse_deb` makes of the fields of the control file.
unfoldable pub package_of : Host → Option (List Text) → Text → Dict Text → Result ParsedDeb
package_of h allowed file raw =
    let fields = remove (codes "Essential") raw in
    let original = strip (field (codes "Package") fields) in
    let name = lower h.wide_lower original in
    let version = strip (field (codes "Version") fields) in
    let architecture = strip (field (codes "Architecture") fields) in
    require_fields fields
    >> (check_parts h allowed original name version architecture
        >> ok (describe h file raw original name version architecture))

unfoldable pub parse_deb : Host → Option (List Text) → Text → Text → Result ParsedDeb
parse_deb h allowed path file = read_control h path file >>= package_of h allowed file
