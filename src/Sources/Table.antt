-- ===== src/Sources/Table.antt =====
-- sources.py: the rows of `package_sources` that its functions list, create and change. A name stands
-- in the table once, whatever the case of its ASCII letters.
pub mod Names
use prv_apt_mirror.Prelude.{
  ℕ, ◌+◌, Text, Bool, true, false, ◌&&◌, not, List, [], ◌∷◌, ◌++◌, Option, none, some, Dict,
  if◌then◌else◌, ◌==◌, leb, text_eq, text_lt, is_empty, strip, next_id, codes,
}
use prv_apt_mirror.Exec.{Error, Exec, Result, ok, err, validation_error, other_error}
use prv_apt_mirror.Host.{Host}
use prv_apt_mirror.Config.{Config}
use prv_apt_mirror.Db.Sources.{SourceRow, never, get_source, update_source_row}
use prv_apt_mirror.Sources.{Clean, validate_source_values, encrypt_token}

-- `COLLATE NOCASE`: the case of ASCII letters does not count.
abbrev fold_char : ℕ → ℕ
fold_char c = if leb b'A' c && leb c b'Z' then c + 32 else c

abbrev pub fold : Text → Text
fold [] = []
fold (c ∷ s) = fold_char c ∷ fold s

-- a row other than that with the id has the name
abbrev pub takes_name : ℕ → Text → SourceRow → Bool
takes_name i name s = not (s.id == i) && text_eq (fold s.name) (fold name)

unfoldable pub is_taken : ℕ → Text → List SourceRow → Bool
is_taken i name [] = false
is_taken i name (s ∷ ss) = if takes_name i name s then true else is_taken i name ss

-- `encrypt_token(cfg, token) or None`
abbrev or_none : Text → Option Text
or_none [] = none
or_none (c ∷ s) = some (c ∷ s)

abbrev pub new_source : ℕ → ℕ → Clean → Option Text → SourceRow
new_source i now clean token = record {
  id = i;
  name = clean.name;
  kind = clean.kind;
  location = clean.location;
  asset_pattern = clean.asset_pattern;
  interval_minutes = clean.interval_minutes;
  release_limit = clean.release_limit;
  include_prereleases = clean.include_prereleases;
  enabled = clean.enabled;
  token_encrypted = token;
  created_at = now;
  updated_at = now;
  next_check_at = now;
  last_checked_at = none;
  last_status = never;
  last_error = none;
  consecutive_failures = 0;
  http_etag = none;
  http_last_modified = none;
}

abbrev pub name_exists : Error
name_exists = validation_error (codes "来源名称已经存在")

-- the row that is read back, and the assertion that it is there
abbrev pub read_back : Option SourceRow → Result SourceRow
read_back none = err (other_error [])
read_back (some s) = ok s

-- `INSERT INTO package_sources`, which the index on the name may refuse
abbrev pub insert_source : ℕ → Clean → Option Text → Exec (List SourceRow) SourceRow
insert_source now clean token rows =
    let i = next_id (λ s. s.id) rows in
    let rows' = rows ++ new_source i now clean token ∷ [] in
    if is_taken i clean.name rows
    then (err name_exists, rows)
    else (read_back (get_source rows' i), rows')

abbrev pub create_clean : Host → Config → ℕ → Text → Result Clean → Exec (List SourceRow) SourceRow
create_clean h cfg now token (err e) rows = (err e, rows)
create_clean h cfg now token (ok clean) rows =
    insert_source now clean (or_none (encrypt_token h cfg token)) rows

unfoldable pub create_source :
    Host → Config → ℕ → Dict Text → Text → Exec (List SourceRow) SourceRow
create_source h cfg now values token rows =
    create_clean h cfg now token (validate_source_values h values) rows

-- the token after an update: cleared, replaced or kept
unfoldable pub updated_token : Host → Config → Bool → Text → SourceRow → Option Text
updated_token h cfg clear_token token current =
    if clear_token
    then none
    else if not (is_empty (strip token))
    then some (encrypt_token h cfg token)
    else current.token_encrypted

abbrev pub updated_source : ℕ → Clean → Option Text → SourceRow → SourceRow
updated_source now clean token s = record s {
  name = clean.name;
  kind = clean.kind;
  location = clean.location;
  asset_pattern = clean.asset_pattern;
  interval_minutes = clean.interval_minutes;
  release_limit = clean.release_limit;
  include_prereleases = clean.include_prereleases;
  enabled = clean.enabled;
  token_encrypted = token;
  updated_at = now;
  next_check_at = now;
}

-- `UPDATE package_sources SET ... WHERE id = ?`, which the index on the name may refuse
abbrev pub store_update : ℕ → ℕ → Clean → Option Text → Exec (List SourceRow) SourceRow
store_update i now clean token rows =
    let rows' = update_source_row i (updated_source now clean token) rows in
    if is_taken i clean.name rows
    then (err name_exists, rows)
    else (read_back (get_source rows' i), rows')

abbrev pub update_clean :
    Host → Config → ℕ → Text → Bool → SourceRow → Result Clean → Exec (List SourceRow) SourceRow
update_clean h cfg now token clear_token current (err e) rows = (err e, rows)
update_clean h cfg now token clear_token current (ok clean) rows =
    store_update current.id now clean (updated_token h cfg clear_token token current) rows

abbrev pub update_found :
    Host → Config → ℕ → Dict Text → Text → Bool → Option SourceRow → Exec (List SourceRow) SourceRow
update_found h cfg now values token clear_token none rows =
    (err (validation_error (codes "软件来源不存在")), rows)
update_found h cfg now values token clear_token (some current) rows =
    update_clean h cfg now token clear_token current (validate_source_values h values) rows

unfoldable pub update_source :
    Host → Config → ℕ → ℕ → Dict Text → Text → Bool → Exec (List SourceRow) SourceRow
update_source h cfg now source_id values token clear_token rows =
    update_found h cfg now values token clear_token (get_source rows source_id) rows

-- `ORDER BY name COLLATE NOCASE`
unfoldable pub insert_by_name : SourceRow → List SourceRow → List SourceRow
insert_by_name s [] = s ∷ []
insert_by_name s (t ∷ ts) =
    let rest = insert_by_name s ts in
    if text_lt (fold t.name) (fold s.name) then t ∷ rest else s ∷ t ∷ ts

unfoldable pub list_sources : List SourceRow → List SourceRow
unfolding insert_by_name
list_sources [] = []
list_sources (s ∷ ss) = insert_by_name s (list_sources ss)
