-- ===== src/World.antt =====
-- The state that the functions of the repository share, the calls of the operating system that
-- may fail, and the effects from which the functions are built.
--
-- Each function takes a `Faults` argument: for each call, the message of the OSError that it
-- raises, or none. A statement about all faults is one about every way to fail. The statements
-- of SQLite fail only by a constraint.
use prv_apt_mirror.Prelude.{Text, Bool, Option, none, some, if◌then◌else◌}
use prv_apt_mirror.Exec.{Exec, err, os_error, raise, skip, modify, try_except}
use prv_apt_mirror.Db.{Db}
use prv_apt_mirror.Files.{Files}

pub record World : Type 0 where
  pub db : Db
  pub open db use *
  pub files : Files
  pub open files use *

abbrev pub Io : Type 0 → Type 0
Io A = Exec World A

-- The calls that may raise, by what they work on.
pub data Call : Type 0 where
  -- storage.py, on the path of a package or an upload
  make_parents link_file hash_found stat_file chmod_file sync_file sync_parents : Text → Call
  -- the handler's own, and the `unlink` of the upload at the end
  exists_undone stat_undone unlink_undone sync_undone unlink_upload : Text → Call
  open_incoming write_incoming : Text → Call
  -- publish.py
  make_staging write_indexes write_hashes sync_tree drop_next move_staged chmod_tree : Call
  rename_live exchange drop_leftover : Call
  unlink_blob : Text → Call
  -- maintenance.py: `is_file`, and opening and reading a package
  stat_blob read_blob : Text → Call
  make_quarantine : Call
  move_quarantine : Text → Call

abbrev pub Faults : Type 0
Faults = Call → Option Text

abbrev pub returned : Option Text → Io (Unit {0})
returned none = skip
returned (some m) = raise (os_error m)

abbrev pub call : Faults → Call → Io (Unit {0})
call os c = returned (os c)

abbrev pub on_db : (Db → Db) → Io (Unit {0})
on_db f = modify (λ w. record w { db = f w.db })

abbrev pub on_files : (Files → Files) → Io (Unit {0})
on_files f = modify (λ w. record w { files = f w.files })

-- `with transaction(conn)`: an exception rolls the database back, and the files stay.
abbrev pub transaction : {A : Type 0} → Io A → Io A
transaction m w = try_except m (λ e w'. (err e, record w' { db = w.db })) w

abbrev pub when : Bool → Io (Unit {0}) → Io (Unit {0})
when b m = if b then m else skip
