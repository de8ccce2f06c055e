-- ===== src/Publish.antt =====
-- publish.py: the atomic publish, the commits of uploads and deletions, and the repairs after a
-- crash. Each function that the source runs under publish.lock is one step of the model: the lock
-- keeps the others out from its first line to its last.
pub mod Commits
pub mod Outcome
pub mod Kept
mod Tests
pub mod Deletes
use prv_apt_mirror.Prelude.{
  ℕ, ◌+◌, Text, codes, Bool, true, false, not, List, [], ◌∷◌, Option, none, some, lookup,
  if◌then◌else◌, filter, length, next_id, is_some, ◌==◌, is_empty,
}
use prv_apt_mirror.Exec.{
  Error, ok, message, publish_error, signing_error, pure, raise, gets, lift, ◌>>=◌, ◌>>◌,
  try_except,
}
use prv_apt_mirror.Host.{Host}
use prv_apt_mirror.Config.{Config}
use prv_apt_mirror.Db.{Db}
use prv_apt_mirror.Db.Packages.{PackageRow, active, missing, with_state, set_state}
use prv_apt_mirror.Db.Runs.{PublishRun, RunStatus, running, success, failed, update_run}
use prv_apt_mirror.Db.Keys.{Key, publish_dirty, gpg_fingerprint, set_setting, zero_text, one_text}
use prv_apt_mirror.Files.{Files}
use prv_apt_mirror.Files.Tree.{Dists}
use prv_apt_mirror.Indexer.{rebuild_dists}
use prv_apt_mirror.ByHash.{prepare_by_hash}
use prv_apt_mirror.World.{
  World, Io, Faults, call, on_db, on_files, when, make_staging, write_indexes, write_hashes,
  sync_tree, drop_next, move_staged, chmod_tree, rename_live, exchange, drop_leftover,
}

-- `PublishResult` of models.py; the duration is left out.
pub record PublishResult : Type 0 where
  pub is_ok : Bool
  pub error : Option Text
  pub skipped : Option (List PackageRow)
  pub package_count : ℕ
  pub dists_inode : Option ℕ

-- `(cfg.repo_dir / row.filename).is_file()`
abbrev pub has_blob : Files → PackageRow → Bool
has_blob fs row = is_some (lookup row.filename fs.repo)

abbrev pub set_key : Key → Text → Io (Unit {0})
set_key k v = on_db (λ d. record d { settings = set_setting k v d.settings })

-- the loop of `_quarantine_missing` over the rows that were active, and its count
pub mark_missing : Files → List PackageRow → List PackageRow → List PackageRow × ℕ
mark_missing fs [] packages = (packages, 0)
mark_missing fs (r ∷ rs) packages =
    let (rest, n) =
      mark_missing fs rs (if has_blob fs r then packages else set_state missing r.id packages) in
    (rest, if has_blob fs r then n else n + 1)

unfoldable pub quarantine_missing : World → World
unfolding mark_missing
quarantine_missing w =
    let (packages, n) = mark_missing w.files (with_state active w.packages) w.packages in
    record w {
      db = record w.db {
        packages = packages;
        settings = if n == 0 then w.settings else set_setting publish_dirty one_text w.settings;
      };
    }

-- the second loop of `publish_unlocked`: the active rows whose file is there
abbrev pub present_rows : Files → List PackageRow → List PackageRow
present_rows fs rows = filter (has_blob fs) rows

-- its other branch: an active row without a file is missing
abbrev pub absent_to_missing : World → World
absent_to_missing w = record w {
  db = record w.db {
    packages = (mark_missing w.files (with_state active w.packages) w.packages).0;
  };
}

-- `sign_release(cfg, staging_suite, fingerprint)`: gpg is outside; it signs or it raises.
abbrev pub Signer : Type 0
Signer = Text → Option Text

sign_release : Signer → Text → Dists → Io Dists
sign_release gpg fingerprint d = elim (gpg fingerprint) [
  | none ↦ pure (record d { signed_by = some fingerprint })
  | some m ↦ raise (signing_error m)
]

fingerprint_of : Option Text → Io Text
fingerprint_of none = raise (publish_error (codes "gpg fingerprint missing; refuse to publish"))
fingerprint_of (some f) =
    if is_empty f
    then raise (publish_error (codes "gpg fingerprint missing; refuse to publish"))
    else pure f

-- The steps up to the fsync: they make the new tree and leave the repository's files alone.
pub build : Host → Faults → Signer → Config → ℕ → Io (List PackageRow × List PackageRow × Dists)
unfolding sign_release fingerprint_of
build h os gpg cfg now = do
  fingerprint ← (λ w. fingerprint_of (w.settings gpg_fingerprint) w)
  (λ w. (ok tt, quarantine_missing w))
  rows ← gets (λ w. present_rows w.files (with_state active w.packages))
  (λ w. (ok tt, absent_to_missing w))
  call os make_staging
  inode ← gets (λ w. w.fresh_inode)
  on_files (λ fs. record fs { fresh_inode = inode + 1 })
  call os write_indexes
  let built = rebuild_dists rows cfg inode
  call os write_hashes
  hashed ← (λ w. lift (prepare_by_hash h built.1 w.live now) w)
  signed ← sign_release gpg fingerprint hashed
  call os sync_tree
  pure (rows, built.0, signed)

abbrev pub inode_of : Option Dists → Option ℕ
inode_of none = none
inode_of (some d) = some d.inode

abbrev pub moved : Option ℕ → Option ℕ → Bool
moved none none = true
moved none (some j) = false
moved (some i) none = false
moved (some i) (some j) = i == j

-- The steps that put the new tree in the place of `dists`.
unfoldable pub swap_in : Faults → Dists → Io (Unit {0})
swap_in os staged = do
  has_next ← gets (λ w. is_some w.next)
  when has_next (call os drop_next >> on_files (λ fs. record fs { next = none }))
  call os move_staged
  on_files (λ fs. record fs { next = some staged })
  call os chmod_tree
  has_live ← gets (λ w. is_some w.live)
  if not has_live
      then (call os rename_live >> on_files (λ fs. record fs { live = fs.next; next = none }))
      else (do
        before ← gets (λ w. inode_of w.next)
        call os exchange
        on_files (λ fs. record fs { live = fs.next; next = fs.live })
        after ← gets (λ w. inode_of w.live)
        when (not (moved after before))
            (raise (publish_error (codes "renameat2 exchange did not move dists.next into place")))
        leftover ← gets (λ w. is_some w.next)
        when leftover (call os drop_leftover >> on_files (λ fs. record fs { next = none })))

abbrev pub finish_run : ℕ → RunStatus → Option ℕ → Option Text → PublishRun → PublishRun
finish_run now status count error r = record r {
  finished_at = some now;
  status = status;
  package_count = count;
  error = error;
}

-- what a run does after the swap
abbrev pub record_success : ℕ → ℕ → List PackageRow → List PackageRow → Io PublishResult
record_success now run_id rows skipped = do
  on_db (λ d. record d {
    publish_runs =
        update_run run_id (finish_run now success (some (length rows)) none) d.publish_runs;
    settings = set_setting publish_dirty zero_text d.settings;
  })
  inode ← gets (λ w. inode_of w.live)
  pure (record {
    is_ok = true;
    error = none;
    skipped = some skipped;
    package_count = length rows;
    dists_inode = inode;
  })

-- the swap, and the record of success
pub complete : Faults → ℕ → ℕ → List PackageRow × List PackageRow × Dists → Io PublishResult
complete os now run_id (rows, skipped, staged) =
    swap_in os staged >> record_success now run_id rows skipped

-- the body of the `try`
pub attempt : Host → Faults → Signer → Config → ℕ → ℕ → Io PublishResult
attempt h os gpg cfg now run_id = build h os gpg cfg now >>= complete os now run_id

-- the `except Exception`
unfoldable pub give_up : ℕ → ℕ → Error → Io PublishResult
give_up now run_id e = do
  on_db (λ d. record d {
    publish_runs =
        update_run run_id (λ r. finish_run now failed r.package_count (some (message e)) r)
          d.publish_runs;
    settings = set_setting publish_dirty one_text d.settings;
  })
  pure (record {
    is_ok = false;
    error = some (message e);
    skipped = none;
    package_count = 0;
    dists_inode = none;
  })

abbrev pub start_run : ℕ → Db → Db
start_run now d = record d {
  publish_runs =
      record {
        id = next_id (λ r. r.id) d.publish_runs;
        started_at = now;
        finished_at = none;
        status = running;
        package_count = none;
        error = none;
      }
      ∷ d.publish_runs;
}

-- `publish_unlocked`; the staging directory, which the `finally` removes, is a value of `build`.
pub publish_unlocked : Host → Faults → Signer → Config → ℕ → Io PublishResult
publish_unlocked h os gpg cfg now = do
  run_id ← gets (λ w. next_id (λ r. r.id) w.publish_runs)
  on_db (start_run now)
  try_except (attempt h os gpg cfg now run_id) (give_up now run_id)
