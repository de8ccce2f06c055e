-- ===== src/Lib.antt =====
-- Verification of PrvAptMirror, a private APT repository: packages are uploaded or fetched from
-- remote sources, kept in a pool, and published as a signed index tree that is replaced at once.
--
-- The parts and their files (paths of the program from the root of the repository):
--   Prelude      numbers, texts (lists of character codes or bytes), dictionaries, new row ids
--   Exec         exceptions as values, and the monad of code that changes a state and may raise
--   Host         hashlib, gzip, json, codecs, archives, URLs and the order of versions, as parameters
--   Config       prvaptmirror/config.py: the configuration
--   Db           prvaptmirror/db.py, models.py: the tables and their queries
--   Files        the packages' files, the uploads, the quarantine, `dists` and `dists.next`
--   Results      functions that return or raise and change no state
--   World        database and files together, and the calls of the system that may fail
--   Settings     prvaptmirror/settings.py: `config_from_app_values`, `load_app_config`, `save_app_config`
--   Debparse     prvaptmirror/debparse.py: Ar (`_read_ar_members`), Control (`_parse_control_text`),
--                Deb (`_decompress_tar`, `_control_from_tar`, `parse_deb`)
--   Storage      prvaptmirror/storage.py: `exclusive_link_or_revive`, `quarantine_orphaned_blobs`;
--                Storage/Expired: `gc_incoming`
--   Maintenance  prvaptmirror/maintenance.py: `_check_package_files`
--   Indexer      prvaptmirror/indexer.py: `rebuild_dists`, `render_packages`
--   ByHash       prvaptmirror/byhash.py: `prepare_by_hash`
--   Publish      prvaptmirror/publish.py: `publish_unlocked`; Publish/Commits: `delete_commit`,
--                `upload_commit`, `retry_pending_publish`, `startup_reconcile`
--   SourceSync   prvaptmirror/source_sync.py: `_claim_source`, `_finish_source`,
--                `recover_interrupted_source_runs`; SourceSync/Download: `_download` and
--                `write_incoming_stream` of storage.py; SourceSync/Import: `_begin_artifact`,
--                `_finish_artifact`, `_process_assets`
--   SourceSync/Listings, SourceSync/Directory: `_github_assets`, `_http_directory_assets`, and the
--                previews; SourceSync/Direct: `_sync_direct`; SourceSync/Execute: `_execute_source`,
--                `sync_source_once`, `run_due_sources`; SourceSync/Life: what happens to the table of
--                sources, as steps; SourceSync/Phases: the abstract machine of these steps
--   Sources      prvaptmirror/sources.py: `validate_source_values`, tokens; Sources/Table:
--                `create_source`, `update_source`, `list_sources`
--   Auth         prvaptmirror/auth.py, ratelimit.py: sessions, passwords, failed logins
--   Web          prvaptmirror/csrf.py, and the functions of ratelimit.py on requests; Web/Site,
--                Web/Sources and Web/Admin: prvaptmirror/routes/admin.py, the handlers that change
--                something: `source_create`, `source_update`, `source_sync_now`, `source_delete`,
--                `settings_post`, `publish_now`, `delete_package`, `password_post`, `login_post`, `logout`;
--                Web/Upload: prvaptmirror/uploads.py and `upload_packages`
--   Samples, and the modules Tests: concrete states, and the theorems at them
--
-- How the parts interact. An upload or a download is a file of `incoming_dir`; `parse_deb` reads it,
-- `upload_commit` links it into the pool with its row (Storage) and publishes (Publish). A run of a
-- publish selects rows (Indexer), adds by-hash files (ByHash), signs, and exchanges `dists.next`
-- with `dists`. The lock publish.lock makes each of these operations one step for the others. A
-- handler of the web page (Web) finds its user, tests the form and calls one of the operations; a
-- check (SourceSync/Execute) claims a source, lists its files, imports them and finishes the source.
--
-- Failures. The calls of the system whose failure is modelled are the constructors of `Call`, and for
-- `gc_incoming` the fields of `Folder`; other calls, such as the listing of the pool, are taken to
-- work. An operation takes a function from calls to the message of the OSError. A theorem for
-- every such function covers every combination of failures of these calls. A call fails the same way each time in one
-- operation, and either fails before it does anything or succeeds: a removal that stops half-way
-- and a crash of the process are not modelled, nor is the failure of a SQLite statement other than
-- by a UNIQUE constraint.
--
-- Times are seconds; the texts that the program stores compare as they do. Loops are structural
-- recursion on the list they go through. The ar reader counts down the members that may still
-- come, from 128, which is the limit of the code, so it needs no other fuel. The loop over the due
-- sources counts down `max_sources`, as the code does.
--
-- The client of a check answers as a function of the address: what two requests to the same address
-- in one check give is the same. Addresses are ones that `urlparse` splits; the ValueError that it
-- raises for unbalanced brackets is left out.
--
-- Not modelled: the pages that only show data, the templates, the test of a source and the health
-- endpoints (routes/), the multipart parser, cookies beyond their tokens, gpg (signing.py; the
-- answer of `sign_release` is a parameter), the task that calls `run_due_sources`, the archives of
-- maintenance.py, snippets.py, the command line and the start of the server, log events,
-- durations, file permissions and empty directories, and the Release file with its checksums.
pub mod Prelude
pub mod Exec
pub mod Config
pub mod Host
pub mod Db
pub mod Files
pub mod Settings
pub mod Results
pub mod World
pub mod Storage
pub mod Publish
pub mod Samples
pub mod SourceSync
pub mod Debparse
pub mod Indexer
pub mod ByHash
pub mod Sources
pub mod Auth
pub mod Web
pub mod Maintenance
