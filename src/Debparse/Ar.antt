-- ===== src/Debparse/Ar.antt =====
-- `_read_ar_members` of debparse.py, over the bytes of the file.
pub mod Bounds
use prv_apt_mirror.Prelude.{
  ℕ, zero, suc, ◌+◌, ◌*◌, ◌%◌, Text, codes, Bool, true, false, ◌||◌, not, List, [], ◌∷◌, ◌++◌, map,
  Option, none, some, if◌then◌else◌, length, take, drop, text_eq, starts_with, ltb, leb, strip,
  strip_bytes, rstrip_char, signed, Number, natural, negative,
}
use prv_apt_mirror.Results.{bind}
use prv_apt_mirror.Exec.{Result, ok, err, deb_parse_error}

abbrev pub max_control_archive_bytes : ℕ
max_control_archive_bytes = 16 * 1024 * 1024

abbrev pub max_ar_members : ℕ
max_ar_members = 128

-- A member's name, and its data where it is read.
abbrev pub Member : Type 0
Member = Text × Option Text

-- the set `metadata_members`
pub record Seen : Type 0 where
  pub debian_binary : Bool
  pub control_tar : Bool

abbrev ascii_replace : ℕ → ℕ
ascii_replace b = if leb 128 b then 0xfffd else b

-- `hdr[0:16].decode("ascii", "replace").strip()`, and its `rstrip("/")`
unfoldable pub member_name : Text → Text
member_name hdr = rstrip_char b'/' (strip (map ascii_replace (take 16 hdr)))

abbrev or_zero : Text → Text
or_zero [] = codes "0"
or_zero (c ∷ s) = c ∷ s

-- `int(hdr[48:58].strip() or b"0")`, which is none where `int` raises
unfoldable pub member_size : Text → Option Number
member_size hdr = signed (or_zero (strip_bytes (take 10 (drop 48 hdr))))

abbrev pub is_binary_name : Text → Bool
is_binary_name name = starts_with name (codes "debian-binary")

abbrev pub is_control_name : Text → Bool
is_control_name name = starts_with name (codes "control.tar")

abbrev pub is_seen : Text → Seen → Bool
is_seen name seen = if is_binary_name name then seen.debian_binary else seen.control_tar

abbrev pub see : Text → Seen → Seen
see name seen =
    if is_binary_name name
    then record seen { debian_binary = true }
    else record seen { control_tar = true }

abbrev pub kind_of : Text → Text
kind_of name = if is_binary_name name then codes "debian-binary" else codes "control.tar"

abbrev pub member_limit : Text → ℕ
member_limit name = if is_binary_name name then 16 else max_control_archive_bytes

abbrev fail {ℓ} : {A : Type ℓ} → Text → Result A
fail m = err (deb_parse_error m)

-- One member, from the bytes behind its header: the member, and what is seen with it.
unfoldable pub read_member : Text → ℕ → Text → Seen → Result (Member × Seen)
read_member name size rest seen =
    if not (is_binary_name name || is_control_name name)
    then ok ((name, none), seen)
    else if is_seen name seen
    then fail (codes "重复的 " ++ kind_of name ++ codes " 成员")
    else if ltb (member_limit name) size
    then fail (codes "ar 成员 " ++ name ++ codes " 超过大小限制")
    else ok ((name, some (take size rest)), see name seen)

abbrev pub padded : ℕ → ℕ
padded size = size + size % 2

abbrev pub after_header : Text → Text
after_header rest = drop 60 rest

-- The checks of a header and of its size against what is left of the file; `full` says that no
-- member may come any more.
unfoldable pub header_size : Bool → Text → Result ℕ
unfolding member_name member_size
header_size full rest =
    if ltb (length (take 60 rest)) 60
    then fail (codes "ar 头截断")
    else if not (text_eq (take 2 (drop 58 rest)) (codes "`\n")) || full
    then fail (codes "ar 头非法或成员过多")
    else elim (member_size (take 60 rest)) [
      | none ↦ fail (codes "ar 成员 size 非法")
      | some number ↦ elim number [
        | negative ↦ fail (codes "ar 成员 " ++ member_name (take 60 rest) ++ codes " 截断或 size 非法")
        | natural size ↦
            if ltb (length (after_header rest)) (padded size)
            then fail (codes "ar 成员 " ++ member_name (take 60 rest) ++ codes " 截断或 size 非法")
            else ok size
      ]
    ]

-- The loop: `room` is the number of members that may still come.
unfoldable pub read_members : ℕ → Text → Seen → Result (List Member)
read_members room [] seen = ok []
read_members zero (c ∷ rest) seen =
    bind (header_size true (c ∷ rest)) λ size. fail (codes "ar 头非法或成员过多")
read_members (suc room) (c ∷ rest) seen = bind (header_size false (c ∷ rest)) λ size.
    bind (read_member (member_name (take 60 (c ∷ rest))) size (after_header (c ∷ rest)) seen)
      λ found.
        bind (read_members room (drop (padded size) (after_header (c ∷ rest))) found.1)
          λ members. ok (found.0 ∷ members)

abbrev pub ar_magic : Text
ar_magic = codes "!<arch>\n"

unfoldable pub read_ar_members : Text → Result (List Member)
unfolding read_members
read_ar_members file =
    if not (text_eq (take 8 file) ar_magic)
    then fail (codes "不是 Unix ar 归档（.deb 必须以 !<arch> 开头）")
    else read_members max_ar_members (drop 8 file)
        (record { debian_binary = false; control_tar = false })
