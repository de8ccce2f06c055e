-- ===== src/Storage.antt =====
-- storage.py: where a package lies, and how an upload becomes a package of the repository.
pub mod Uploads
pub mod Accepts
pub mod Expired
mod Tests
use prv_apt_mirror.Prelude.{
  has_suffix, ◌+◌, not, filter, ℕ, Text, codes, Bool, true, false, ◌&&◌, ◌||◌, List, [], ◌∷◌, ◌++◌,
  Option, none, some, Dict, lookup, insert, remove, text_eq, if◌then◌else◌, take, leb, length,
  starts_with, next_id, is_some, ◌==◌,
}
use prv_apt_mirror.Exec.{
  ◌>>=◌, Error, duplicate_package, integrity_error, pure, raise, gets, ◌>>◌, on_error, finally,
  skip, modify,
}
use prv_apt_mirror.Host.{Host}
use prv_apt_mirror.Config.{Config}
use prv_apt_mirror.Files.{File}
use prv_apt_mirror.Db.Packages.{
  PackageRow, active, pending_delete, state_eq, get_package_nva, update_package, has_filename,
}
use prv_apt_mirror.Db.Keys.{publish_dirty, set_setting, one_text}
use prv_apt_mirror.World.{
  returned, make_quarantine, move_quarantine, when, World, Io, Faults, call, on_db, on_files,
  transaction, make_parents, link_file, hash_found, stat_file, chmod_file, sync_file, sync_parents,
  unlink_undone, sync_undone, exists_undone, stat_undone, unlink_upload,
}

-- `ParsedDeb` of debparse.py
pub record ParsedDeb : Type 0 where
  pub name : Text
  pub version : Text
  pub architecture : Text
  pub control : Dict Text
  pub size : ℕ
  pub md5 : Text
  pub sha1 : Text
  pub sha256 : Text
  pub warnings : List Text

-- `pool_prefix`, whose argument parse_deb has found not to be empty
unfoldable pub pool_prefix : Text → Text
pool_prefix name =
    if starts_with name (codes "lib") && leb 4 (length name) then take 4 name else take 1 name

unfoldable pub pool_relative : ParsedDeb → Text → Text
unfolding pool_prefix
pool_relative parsed component =
    codes "pool/"
    ++ (component
        ++ (codes "/"
            ++ (pool_prefix parsed.name
                ++ (codes "/"
                    ++ (parsed.name
                        ++ (codes "/"
                            ++ (parsed.name
                                ++ (codes "_"
                                    ++ (parsed.version
                                        ++ (codes "_"
                                            ++ (parsed.architecture ++ codes ".deb")))))))))))

pub record PlaceResult : Type 0 where
  pub row_id : ℕ
  pub revived : Bool
  pub filename : Text

pub duplicate : ParsedDeb → Error
duplicate p = duplicate_package p.name p.version p.architecture

-- the first test: the row has other bytes, or is about to be deleted
abbrev pub is_conflict : Option PackageRow → ParsedDeb → Bool
is_conflict none parsed = false
is_conflict (some row) parsed =
    not (text_eq row.sha256 parsed.sha256) || state_eq row.state pending_delete

abbrev pub is_active : Option PackageRow → Bool
is_active none = false
is_active (some row) = state_eq row.state active

-- What `os.link(incoming, dest)` meets, and what is done: a new link, or the file that is there
-- is taken over if it has the bytes of the upload. The result says whether a link was made.
abbrev pub link_new : Option Text → Text → File → Io Bool
link_new o dest file =
    returned o >> on_files (λ fs. record fs { repo = insert dest file fs.repo }) >> pure true

-- The file that is there: one of an active row or a symbolic link is not taken over; else it is read
-- for its digest, which may raise, and taken over if it has the bytes of the upload.
abbrev pub cannot_adopt : Option PackageRow → File → Bool
cannot_adopt existing found = is_active existing || found.is_symlink

abbrev pub adopt_same : Host → ParsedDeb → File → Io Bool
adopt_same h parsed found =
    if text_eq (h.sha256_hex found.content) parsed.sha256
    then pure false
    else raise (duplicate parsed)

abbrev pub adopt : Host → Option Text → ParsedDeb → File → Bool → Io Bool
adopt h hashed parsed found true = raise (duplicate parsed)
adopt h hashed parsed found false = returned hashed >> adopt_same h parsed found

abbrev pub adopt_or_link :
    Host → Faults → Option PackageRow → ParsedDeb → Text → Option File → Option File → Io Bool
adopt_or_link h os existing parsed dest found none =
    raise (Error.os_error (codes "No such file or directory"))
adopt_or_link h os existing parsed dest none (some file) = link_new (os (link_file dest)) dest file
adopt_or_link h os existing parsed dest (some found) (some file) =
    adopt h (os (hash_found dest)) parsed found (cannot_adopt existing found)

pub link_or_adopt : Host → Faults → Option PackageRow → ParsedDeb → Text → Text → Io Bool
link_or_adopt h os existing parsed incoming dest w =
    adopt_or_link h os existing parsed dest (lookup dest w.repo) (lookup incoming w.incoming) w

abbrev pub dest_inode : Text → World → Option ℕ
dest_inode dest w = elim (lookup dest w.repo) [ none ↦ none | some f ↦ some f.inode ]

abbrev pub same_inode : Option ℕ → Option ℕ → Bool
same_inode none b = true
same_inode (some i) none = false
same_inode (some i) (some j) = i == j

abbrev pub unlink_link : Faults → Text → Io (Unit {0})
unlink_link os dest =
    call os (unlink_undone dest)
    >> on_files (λ fs. record fs { repo = remove dest fs.repo })
    >> call os (sync_undone dest)

-- `dest.stat()`, which is called only with an inode to compare
abbrev pub stat_undone_call : Faults → Option ℕ → Text → Io (Unit {0})
stat_undone_call os none dest = skip
stat_undone_call os (some i) dest = call os (stat_undone dest)

abbrev pub undo_existing : Faults → Option ℕ → Text → Io (Unit {0})
undo_existing os inode dest w =
    when (is_some (lookup dest w.repo))
      (stat_undone_call os inode dest
        >> when (same_inode inode (dest_inode dest w)) (unlink_link os dest))
      w

-- The handler: `if created and dest.exists() and (inode is None or ...): dest.unlink()`
pub undo_link : Faults → Bool → Option ℕ → Text → Io (Unit {0})
undo_link os created inode dest =
    when created (call os (exists_undone dest) >> undo_existing os inode dest)

pub new_row : Host → Config → ParsedDeb → Text → Option ℕ → ℕ → ℕ → PackageRow
new_row h cfg parsed filename user_id uploaded_at i = record {
  id = i;
  name = parsed.name;
  version = parsed.version;
  architecture = parsed.architecture;
  component = cfg.component;
  filename = filename;
  size = parsed.size;
  md5 = parsed.md5;
  sha1 = parsed.sha1;
  sha256 = parsed.sha256;
  control_json = h.json_dumps parsed.control;
  state = active;
  uploaded_at = uploaded_at;
  uploaded_by = user_id;
}

pub revive : Host → ParsedDeb → Text → Option ℕ → ℕ → PackageRow → PackageRow
revive h parsed filename user_id uploaded_at row = record row {
  filename = filename;
  size = parsed.size;
  md5 = parsed.md5;
  sha1 = parsed.sha1;
  sha256 = parsed.sha256;
  control_json = h.json_dumps parsed.control;
  state = active;
  uploaded_at = uploaded_at;
  uploaded_by = user_id;
}

-- the INSERT, where the Boolean says that a row has the file name, which is UNIQUE
abbrev pub insert_new : Bool → PackageRow → Io ℕ
insert_new true row = raise (integrity_error (codes "UNIQUE constraint failed: packages.filename"))
insert_new false row = on_db (λ d. record d { packages = d.packages ++ row ∷ [] }) >> pure row.id

-- The INSERT or UPDATE. `exclusive_link_or_revive` has seen to UNIQUE(name, version, architecture).
pub write_row : Host → Config → Option PackageRow → ParsedDeb → Text → Option ℕ → ℕ → Io ℕ
write_row h cfg none parsed filename user_id uploaded_at w =
    insert_new (has_filename filename w.packages)
      (new_row h cfg parsed filename user_id uploaded_at (next_id (λ r. r.id) w.packages)) w
write_row h cfg (some row) parsed filename user_id uploaded_at w =
    (on_db (λ d. record d {
      packages = update_package row.id (revive h parsed filename user_id uploaded_at) d.packages;
    })
        >> pure row.id)
      w

-- The row and the dirty flag, in one transaction.
pub commit_row :
    Host → Config → Option PackageRow → ParsedDeb → Text → Option ℕ → ℕ → Io PlaceResult
commit_row h cfg existing parsed filename user_id uploaded_at = do
  row_id ← transaction (do
    i ← write_row h cfg existing parsed filename user_id uploaded_at
    on_db (λ d. record d { settings = set_setting publish_dirty one_text d.settings })
    pure i)
  pure (record { row_id = row_id; revived = is_some existing; filename = filename })

-- the steps after the inode is known
pub record_blob :
    Host → Faults → Config → Option PackageRow → ParsedDeb → Option ℕ → ℕ → Text → Io PlaceResult
record_blob h os cfg existing parsed user_id uploaded_at dest = do
  call os (chmod_file dest)
  call os (sync_file dest)
  call os (sync_parents dest)
  commit_row h cfg existing parsed dest user_id uploaded_at

-- What follows the link, with the handler that takes the link back.
pub settle :
    Host
    → Faults
    → Config
    → Option PackageRow
    → ParsedDeb
    → Option ℕ
    → ℕ
    → Text
    → Bool
    → Io PlaceResult
settle h os cfg existing parsed user_id uploaded_at dest created = do
  on_error (call os (stat_file dest)) (undo_link os created none dest)
  inode ← gets (dest_inode dest)
  on_error (record_blob h os cfg existing parsed user_id uploaded_at dest)
      (undo_link os created inode dest)

pub place : Host → Faults → Config → ParsedDeb → Text → Option ℕ → ℕ → Io PlaceResult
place h os cfg parsed incoming user_id uploaded_at = do
  existing ← gets (λ w. get_package_nva w.packages parsed.name parsed.version parsed.architecture)
  let dest = pool_relative parsed cfg.component
  when (is_conflict existing parsed) (raise (duplicate parsed))
  call os (make_parents dest)
  created ← link_or_adopt h os existing parsed incoming dest
  settle h os cfg existing parsed user_id uploaded_at dest created

abbrev pub drop_incoming : Text → World → World
drop_incoming incoming w = record w {
  files = record w.files { incoming = remove incoming w.incoming };
}

-- `finally: incoming_path.unlink(missing_ok=True)`
abbrev pub drop_upload : Faults → Text → Io (Unit {0})
drop_upload os incoming = call os (unlink_upload incoming) >> modify (drop_incoming incoming)

pub exclusive_link_or_revive :
    Host → Faults → Config → ParsedDeb → Text → Option ℕ → ℕ → Io PlaceResult
exclusive_link_or_revive h os cfg parsed incoming user_id uploaded_at =
    finally (place h os cfg parsed incoming user_id uploaded_at) (drop_upload os incoming)

-- `cfg.pool_dir.rglob("*.deb")`
abbrev pub pool_blobs : Dict File → List (Text × File)
pool_blobs =
    filter (λ entry. starts_with entry.0 (codes "pool/") && has_suffix entry.0 (codes ".deb"))

-- One blob that no row names is moved to the quarantine under the name that uuid4 gives.
quarantine_blob : Faults → (Text → Text) → Text × File → Io (Unit {0})
quarantine_blob os uuid (path, file) = do
  call os make_quarantine
  on_db (λ d. record d { settings = set_setting publish_dirty one_text d.settings })
  call os (move_quarantine path)
  on_files (λ fs. record fs {
    repo = remove path fs.repo;
    quarantine = insert (uuid path ++ codes ".deb") file fs.quarantine;
  })

quarantine_each : Faults → (Text → Text) → List PackageRow → List (Text × File) → ℕ → Io ℕ
unfolding quarantine_blob
quarantine_each os uuid rows [] n = pure n
quarantine_each os uuid rows (blob ∷ blobs) n = do
  when (not (has_filename blob.0 rows)) (quarantine_blob os uuid blob)
  quarantine_each os uuid rows blobs (if has_filename blob.0 rows then n else n + 1)

-- `quarantine_orphaned_blobs`
unfoldable pub quarantine_orphaned_blobs : Faults → (Text → Text) → Io ℕ
unfolding quarantine_each
quarantine_orphaned_blobs os uuid w = quarantine_each os uuid w.packages (pool_blobs w.repo) 0 w
