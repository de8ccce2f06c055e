-- ===== src/Maintenance.antt =====
-- maintenance.py: the check that a backup's package files are those that its database records.
pub mod Files
mod Tests
use prv_apt_mirror.Prelude.{
  Text, codes, Bool, false, not, ◌||◌, List, [], ◌∷◌, ◌++◌, Option, none, some, lookup, filter, any,
  split, join, is_empty, text_eq, starts_with, if◌then◌else◌,
}
use prv_apt_mirror.Exec.{value_error, ◌>>◌, raise, skip}
use prv_apt_mirror.Host.{Host}
use prv_apt_mirror.Files.{File}
use prv_apt_mirror.Db.Packages.{PackageRow, active, state_eq}
use prv_apt_mirror.World.{Io, Faults, call, stat_blob, read_blob, when}

-- `PurePosixPath(filename).parts` of a relative path: empty parts and "." do not count.
unfoldable pub path_parts : Text → List Text
path_parts filename = filter (λ p. not (is_empty p || text_eq p (codes "."))) (split 47 filename)

abbrev pub in_pool : List Text → Bool
in_pool [] = false
in_pool (p ∷ ps) = text_eq p (codes "pool")

-- The path is absolute, has a part "..", or does not start with the part "pool".
unfoldable pub is_invalid : Text → Bool
is_invalid filename =
    starts_with filename (codes "/")
    || any (λ p. text_eq p (codes "..")) (path_parts filename)
    || not (in_pool (path_parts filename))

-- `str(path)`, and the path below `repo`
unfoldable pub path_text : Text → Text
path_text filename = join (codes "/") (path_parts filename)

-- What is found where the row says that the package lies; `_digest` opens and reads the file.
abbrev pub check_blob : Host → Faults → PackageRow → Option File → Io (Unit {0})
check_blob h os row none =
    when (state_eq row.state active)
      (raise (value_error (codes "backup missing active package: " ++ path_text row.filename)))
check_blob h os row (some blob) =
    call os (read_blob (path_text row.filename))
    >> when (not (text_eq (h.sha256_hex blob.content) row.sha256))
        (raise (value_error (codes "backup package checksum mismatch: " ++ path_text row.filename)))

unfoldable pub check_package_file : Host → Faults → PackageRow → Io (Unit {0})
check_package_file h os row w =
    (if is_invalid row.filename
        then raise (value_error (codes "invalid package path in backup database"))
        else call os (stat_blob (path_text row.filename))
          >> check_blob h os row (lookup (path_text row.filename) w.repo))
      w

unfoldable pub check_each : Host → Faults → List PackageRow → Io (Unit {0})
check_each h os [] = skip
check_each h os (row ∷ rows) = check_package_file h os row >> check_each h os rows

-- `_check_package_files`
unfoldable pub check_package_files : Host → Faults → Io (Unit {0})
check_package_files h os w = check_each h os w.packages w
