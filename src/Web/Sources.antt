-- ===== src/Web/Sources.antt =====
-- routes/admin.py: the handlers that create, change, queue and delete a package source.
use prv_apt_mirror.Prelude.{
  ℕ, Text, codes, [], ◌∷◌, ◌++◌, Option, none, some, if◌then◌else◌, Dict, decimal, text_eq,
}
use prv_apt_mirror.Exec.{validation_error, Result, ok, err, pure, ◌>>=◌}
use prv_apt_mirror.Db.{delete_source}
use prv_apt_mirror.Db.Sources.{SourceRow, is_running, get_source}
use prv_apt_mirror.SourceSync.{queue_source}
use prv_apt_mirror.Sources.Table.{create_source, update_source}
use prv_apt_mirror.Auth.{User}
use prv_apt_mirror.Web.{Request}
use prv_apt_mirror.Web.Site.{
  Server, Reply, redirect, shown, Web, on_sources, form_or, form_text, guarded, csrf_first,
}

-- the dictionary `values`
abbrev source_values : Request → Dict Text
source_values request =
    (codes "name", form_text request (codes "name"))
    ∷ (codes "kind", form_text request (codes "kind"))
    ∷ (codes "location", form_text request (codes "location"))
    ∷ (codes "asset_pattern", form_text request (codes "asset_pattern"))
    ∷ (codes "interval_minutes", form_or request (codes "interval_minutes") (codes "30"))
    ∷ (codes "release_limit", form_or request (codes "release_limit") (codes "1"))
    ∷ (codes "include_prereleases", form_text request (codes "include_prereleases"))
    ∷ (codes "enabled", form_text request (codes "enabled"))
    ∷ []

abbrev source_path : ℕ → Text → Text
source_path i query = codes "/admin/sources/" ++ decimal i ++ query

abbrev not_found : Reply
not_found = shown 404 (codes "not found")

-- The answer to what the table gave: `except SourceValidationError` shows the form again.
abbrev source_reply : Text → Result SourceRow → Web Reply
source_reply query (ok source) s = (ok (redirect 303 (source_path source.id query)), s)
source_reply query (err (validation_error m)) s = (ok (shown 400 m), s)
source_reply query (err e) s = (err e, s)

abbrev create_body : Server → Request → User → Web Reply
create_body srv request user s =
    let (r, s') =
      on_sources
        (create_source srv.env.host s.cfg srv.env.now (source_values request)
          (form_text request (codes "token")))
        s in
    source_reply (codes "?created=1") r s'

-- `source_create`
unfoldable pub source_create : Server → Request → Web Reply
source_create srv request = guarded csrf_first srv request (create_body srv request)

abbrev update_existing : Server → Request → ℕ → Option SourceRow → Web Reply
update_existing srv request source_id none s = (ok not_found, s)
update_existing srv request source_id (some existing) s =
    let (r, s') =
      on_sources
        (update_source srv.env.host s.cfg srv.env.now source_id (source_values request)
          (form_text request (codes "token"))
          (text_eq (form_text request (codes "clear_token")) (codes "yes")))
        s in
    source_reply (codes "?saved=1") r s'

abbrev update_body : Server → Request → ℕ → User → Web Reply
update_body srv request source_id user s =
    update_existing srv request source_id (get_source s.world.db.package_sources source_id) s

-- `source_update`
unfoldable pub source_update : Server → Request → ℕ → Web Reply
source_update srv request source_id =
    guarded csrf_first srv request (update_body srv request source_id)

abbrev sync_body : Server → ℕ → User → Web Reply
sync_body srv source_id user = do
  queued ← on_sources λ rows.
      (ok (queue_source srv.env.now source_id rows).1, (queue_source srv.env.now source_id rows).0)
  if queued
      then pure (redirect 303 (source_path source_id (codes "?queued=1")))
      else pure (redirect 303 (source_path source_id (codes "?err=disabled")))

-- `source_sync_now`
unfoldable pub source_sync_now : Server → Request → ℕ → Web Reply
source_sync_now srv request source_id = guarded csrf_first srv request (sync_body srv source_id)

abbrev delete_existing : ℕ → Option SourceRow → Web Reply
delete_existing source_id none s = (ok not_found, s)
delete_existing source_id (some source) s =
    if is_running source.last_status
    then (ok (redirect 303 (source_path source_id (codes "?err=running"))), s)
    else (
      ok (redirect 303 (codes "/admin/sources?deleted=1")),
      record s { world = record s.world { db = (delete_source source_id s.world.db).0 } },
    )

abbrev delete_body : ℕ → User → Web Reply
delete_body source_id user s =
    delete_existing source_id (get_source s.world.db.package_sources source_id) s

-- `source_delete`
unfoldable pub source_delete : Server → Request → ℕ → Web Reply
source_delete srv request source_id = guarded csrf_first srv request (delete_body source_id)
