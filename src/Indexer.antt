-- ===== src/Indexer.antt =====
-- indexer.py: which rows each Packages file lists, and the text of a Packages file.
pub mod Select
mod Tests
use prv_apt_mirror.Prelude.{
  ℕ, Text, codes, Bool, true, false, not, List, [], ◌∷◌, ◌++◌, map, none, some, Dict, lookup,
  insert, text_eq, text_lt, decimal, join, split, replace_crlf, replace_cr, is_empty, starts_with,
  if◌then◌else◌, is_some,
}
use prv_apt_mirror.Host.{Host}
use prv_apt_mirror.Config.{Config}
use prv_apt_mirror.Db.Packages.{PackageRow, active, state_eq}
use prv_apt_mirror.Files.Tree.{Dists}

abbrev pub line_break : Text
line_break = 10 ∷ []

-- the lines of a value after its first
abbrev folded : Text → Text
folded part =
    if is_empty part
    then codes " ."
    else if starts_with part (codes " ")
    then part
    else codes " " ++ part

abbrev format_parts : Text → List Text → Text
format_parts name [] = name ++ codes ": "
format_parts name (p ∷ ps) = join line_break ((name ++ codes ": " ++ p) ∷ map folded ps)

unfoldable pub format_field : Text → Text → Text
format_field name value = format_parts name (split 10 (replace_cr (replace_crlf value)))

-- `CONTROL_FIELDS` of debparse.py
abbrev pub control_fields : List Text
control_fields =
    codes "Package"
    ∷ codes "Version"
    ∷ codes "Architecture"
    ∷ codes "Maintainer"
    ∷ codes "Installed-Size"
    ∷ codes "Depends"
    ∷ codes "Pre-Depends"
    ∷ codes "Recommends"
    ∷ codes "Suggests"
    ∷ codes "Conflicts"
    ∷ codes "Breaks"
    ∷ codes "Replaces"
    ∷ codes "Provides"
    ∷ codes "Enhances"
    ∷ codes "Section"
    ∷ codes "Priority"
    ∷ codes "Homepage"
    ∷ codes "Description"
    ∷ codes "Multi-Arch"
    ∷ codes "Built-Using"
    ∷ codes "Source"
    ∷ []

-- The lines for the fields of the control file, in the order of `control_fields`.
control_lines : List Text → Dict Text → List Text
control_lines [] control = []
control_lines (field ∷ fields) control =
    let rest = control_lines fields control in
    elim (lookup field control) [
      | none ↦ rest
      | some value ↦ if is_empty value then rest else format_field field value ∷ rest
    ]

unfoldable pub stanza : Host → PackageRow → Text
unfolding control_lines
stanza h row = join line_break (
    control_lines control_fields (h.json_loads row.control_json)
    ++ (codes "Filename: " ++ row.filename)
      ∷ (codes "Size: " ++ decimal row.size)
      ∷ (codes "MD5sum: " ++ row.md5)
      ∷ (codes "SHA1: " ++ row.sha1)
      ∷ (codes "SHA256: " ++ row.sha256)
      ∷ [])

-- `sort_key(a) < sort_key(b)`, the order of the tuples (name, Version(version), architecture)
abbrev pub row_lt : Host → PackageRow → PackageRow → Bool
row_lt h a b =
    if not (text_eq a.name b.name)
    then text_lt a.name b.name
    else if h.version_lt a.version b.version
    then true
    else if h.version_lt b.version a.version
    then false
    else text_lt a.architecture b.architecture

-- `sorted` is stable: a row goes before the first one that is greater.
unfoldable pub insert_row : Host → PackageRow → List PackageRow → List PackageRow
insert_row h r [] = r ∷ []
insert_row h r (s ∷ rs) = if row_lt h s r then s ∷ insert_row h r rs else r ∷ s ∷ rs

unfoldable pub sort_rows : Host → List PackageRow → List PackageRow
unfolding insert_row
sort_rows h [] = []
sort_rows h (r ∷ rs) = insert_row h r (sort_rows h rs)

render_body : Host → List PackageRow → Text
unfolding stanza sort_rows
render_body h rows =
    join (line_break ++ line_break) (map (stanza h) (sort_rows h rows)) ++ line_break

unfoldable pub render_packages : Host → List PackageRow → Text
unfolding render_body
render_packages h [] = []
render_packages h (r ∷ rs) = h.encode (render_body h (r ∷ rs))

unfoldable pub render_arch_release : Host → Dists → Text → Text
render_arch_release h d arch = h.encode (
    codes "Archive: "
    ++ d.suite
    ++ codes "\nOrigin: "
    ++ d.origin
    ++ codes "\nLabel: "
    ++ d.label
    ++ codes "\nAcquire-By-Hash: yes\nComponent: "
    ++ d.component
    ++ codes "\nArchitecture: "
    ++ arch
    ++ line_break)

-- the dictionary `by_arch` before the loop
unfoldable pub empty_by_arch : List Text → Dict (List PackageRow)
empty_by_arch [] = []
empty_by_arch (a ∷ archs) = insert a [] (empty_by_arch archs)

abbrev pub rows_at : Text → Dict (List PackageRow) → List PackageRow
rows_at a m = elim (lookup a m) [ none ↦ [] | some rows ↦ rows ]

-- `by_arch[a].append(pkg)`
unfoldable pub append_at : Text → PackageRow → Dict (List PackageRow) → Dict (List PackageRow)
append_at a r m = insert a (rows_at a m ++ r ∷ []) m

abbrev pub all_text : Text
all_text = codes "all"

-- `for arch in cfg.architectures: if arch != "all": by_arch[arch].append(pkg)`
unfoldable pub append_each :
    List Text → PackageRow → Dict (List PackageRow) → Dict (List PackageRow)
unfolding append_at
append_each [] r m = m
append_each (a ∷ archs) r m =
    append_each archs r (if text_eq a all_text then m else append_at a r m)

abbrev pub Selection : Type 0
Selection = Dict (List PackageRow) × List PackageRow

-- one turn of the loop over the packages of `rebuild_dists`
unfoldable pub select_row : List Text → PackageRow → Selection → Selection
unfolding append_each append_at
select_row archs r (m, skipped) =
    if not (state_eq r.state active)
    then (m, skipped)
    else if text_eq r.architecture all_text
    then (
      append_each archs r (if is_some (lookup all_text m) then append_at all_text r m else m),
      skipped,
    )
    else if is_some (lookup r.architecture m)
    then (append_at r.architecture r m, skipped)
    else (m, skipped ++ r ∷ [])

unfoldable pub select_rows : List Text → List PackageRow → Selection → Selection
unfolding select_row
select_rows archs [] s = s
select_rows archs (r ∷ rs) s = select_rows archs rs (select_row archs r s)

-- `rebuild_dists`: the rows that are skipped and the new tree, before its hashes and signature
unfoldable pub rebuild_dists : List PackageRow → Config → ℕ → List PackageRow × Dists
unfolding select_rows empty_by_arch
rebuild_dists packages cfg inode =
    let (by_arch, skipped) =
      select_rows cfg.architectures packages (empty_by_arch cfg.architectures, []) in
    (
      skipped,
      record {
        inode = inode;
        suite = cfg.suite;
        codename = cfg.codename;
        component = cfg.component;
        origin = cfg.origin;
        label = cfg.label;
        by_arch = by_arch;
        by_hash = [];
        history = none;
        signed_by = none;
      },
    )
