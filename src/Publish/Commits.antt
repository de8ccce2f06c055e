-- ===== src/Publish/Commits.antt =====
-- publish.py: the operations that publish, each a whole critical section of publish.lock.
use prv_apt_mirror.Prelude.{
  ℕ, ◌+◌, Text, codes, Bool, true, false, ◌&&◌, ◌||◌, not, List, [], ◌∷◌, Option, none, some,
  remove, if◌then◌else◌, is_some, ltb,
}
use prv_apt_mirror.Exec.{
  Result, ok, err, duplicate_package, pure, raise, gets, lift, ◌>>=◌, ◌>>◌, skip,
}
use prv_apt_mirror.Host.{Host}
use prv_apt_mirror.Config.{Config}
use prv_apt_mirror.Db.{remove_package}
use prv_apt_mirror.Db.Packages.{PackageRow, pending_delete, with_state, get_package, set_state}
use prv_apt_mirror.Db.Runs.{last_publish_status, is_success}
use prv_apt_mirror.Db.Keys.{publish_dirty, settings_pending, is_set, zero_text, one_text}
use prv_apt_mirror.Files.{Files}
use prv_apt_mirror.Files.Tree.{Dists}
use prv_apt_mirror.Settings.{load_app_config}
use prv_apt_mirror.Storage.{
  ParsedDeb, PlaceResult, exclusive_link_or_revive, quarantine_orphaned_blobs,
}
use prv_apt_mirror.World.{Io, Faults, returned, on_db, on_files, when, unlink_blob}
use prv_apt_mirror.Publish.{PublishResult, Signer, set_key, publish_unlocked, quarantine_missing}

abbrev unlink_returned : Option Text → Text → Io (Unit {0})
unlink_returned o filename =
    returned o >> on_files (λ fs. record fs { repo = remove filename fs.repo })

-- `_unlink_blob`: a file that is not there is no error.
unfoldable pub unlink : Faults → Text → Io (Unit {0})
unlink os filename = unlink_returned (os (unlink_blob filename)) filename

-- the loop of `_finish_orphaned_pending_deletes`
finish_each : Faults → List PackageRow → Io (Unit {0})
unfolding unlink
finish_each os [] = skip
finish_each os (r ∷ rs) = do unlink os r.filename; on_db (remove_package r.id); finish_each os rs

-- `_finish_orphaned_pending_deletes`
unfoldable pub finish_deletes : Faults → Io (Unit {0})
unfolding finish_each
finish_deletes os w =
    if not (is_success (last_publish_status w.publish_runs))
    then skip w
    else if is_set w.settings publish_dirty
    then skip w
    else finish_each os (with_state pending_delete w.packages) w

unfoldable pub publish : Host → Faults → Signer → Config → ℕ → Io PublishResult
publish h os gpg cfg now = do
  result ← publish_unlocked h os gpg cfg now
  when result.is_ok (finish_deletes os)
  pure result

unfoldable pub retry_pending_publish :
    Host → Faults → Signer → Config → ℕ → Io (Option PublishResult)
retry_pending_publish h os gpg base now = do
  pending ← gets (λ w. is_set w.settings settings_pending)
  dirty ← gets (λ w. is_set w.settings publish_dirty)
  if not dirty && not pending then pure none else (do
    cfg ← (λ w. lift (load_app_config h base w.settings) w)
    result ← publish_unlocked h os gpg cfg now
    when result.is_ok (set_key settings_pending zero_text >> finish_deletes os)
    pure (some result))

-- the dictionaries of `results`
pub data UploadResult : Type 0 where
  uploaded : PlaceResult → ParsedDeb → UploadResult
  duplicated : Text → Text → Text → UploadResult

-- One turn of the loop of `upload_commit`: only DuplicatePackage is caught.
abbrev as_result : ParsedDeb → Result PlaceResult → Io UploadResult
as_result parsed (ok place) = pure (uploaded place parsed)
as_result parsed (err (duplicate_package n v a)) = pure (duplicated n v a)
as_result parsed (err e) = raise e

unfoldable pub upload_one :
    Host → Faults → Config → Option ℕ → ℕ → ParsedDeb × Text → Io UploadResult
upload_one h os cfg user_id now (parsed, incoming) w =
    let (r, w') = exclusive_link_or_revive h os cfg parsed incoming user_id now w in
    as_result parsed r w'

unfoldable pub upload_each :
    Host → Faults → Config → Option ℕ → ℕ → List (ParsedDeb × Text) → Io (List UploadResult)
upload_each h os cfg user_id now [] = pure []
upload_each h os cfg user_id now (item ∷ items) = do
  r ← upload_one h os cfg user_id now item
  rs ← upload_each h os cfg user_id now items
  pure (r ∷ rs)

abbrev is_uploaded : UploadResult → Bool
is_uploaded (uploaded p d) = true
is_uploaded (duplicated n v a) = false

-- `placed`
unfoldable pub placed : List UploadResult → ℕ
placed [] = 0
placed (r ∷ rs) = if is_uploaded r then placed rs + 1 else placed rs

unfoldable pub upload_commit :
    Host
    → Faults
    → Signer
    → Config
    → List (ParsedDeb × Text)
    → Option ℕ
    → ℕ
    → Io (List UploadResult × Option PublishResult)
upload_commit h os gpg cfg items user_id now = do
  results ← upload_each h os cfg user_id now items
  if ltb 0 (placed results)
      then (do
        set_key publish_dirty one_text
        pub_result ← publish_unlocked h os gpg cfg now
        pure (results, some pub_result))
      else pure (results, none)

abbrev pub not_found : PublishResult
not_found = record {
  is_ok = false;
  error = some (codes "not found");
  skipped = none;
  package_count = 0;
  dists_inode = none;
}

-- What a deletion does after a run that succeeded; `o` is how the unlink ends.
abbrev pub unlinked : Option Text → PackageRow → PublishResult → Io PublishResult
unlinked o row result = do
  unlink_returned o row.filename
  on_db (remove_package row.id)
  set_key publish_dirty zero_text
  pure result

abbrev pub after_publish : Faults → PackageRow → PublishResult → Io PublishResult
after_publish os row result =
    if result.is_ok then unlinked (os (unlink_blob row.filename)) row result else pure result

unfoldable pub delete_row : Host → Faults → Signer → Config → ℕ → PackageRow → Io PublishResult
delete_row h os gpg cfg now row = do
  on_db (λ d. record d { packages = set_state pending_delete row.id d.packages })
  set_key publish_dirty one_text
  result ← publish_unlocked h os gpg cfg now
  after_publish os row result

abbrev pub delete_found : Host → Faults → Signer → Config → ℕ → Option PackageRow → Io PublishResult
delete_found h os gpg cfg now none = pure not_found
delete_found h os gpg cfg now (some row) = delete_row h os gpg cfg now row

unfoldable pub delete_commit : Host → Faults → Signer → Config → ℕ → ℕ → Io PublishResult
delete_commit h os gpg cfg now package_id w =
    delete_found h os gpg cfg now (get_package w.packages package_id) w

abbrev has_history : Option Dists → Bool
has_history none = false
has_history (some d) = is_some d.history

-- A `dists.next` that a crash has left is removed, whatever the last run says.
abbrev drop_stale_next : Files → Files
drop_stale_next fs = record fs { next = none }

unfoldable pub startup_reconcile :
    Host → Faults → (Text → Text) → Signer → Config → ℕ → Io (Unit {0})
startup_reconcile h os uuid gpg cfg now = do
  quarantine_orphaned_blobs os uuid
  last ← gets (λ w. last_publish_status w.publish_runs)
  on_files drop_stale_next
  (λ w. (ok tt, quarantine_missing w))
  finish_deletes os
  dirty ← gets (λ w. is_set w.settings publish_dirty)
  has ← gets (λ w. has_history w.live)
  when (not has || dirty || not (is_success last)) (publish_unlocked h os gpg cfg now >> skip)
