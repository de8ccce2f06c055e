-- ===== src/Web/Upload.antt =====
-- uploads.py, and `upload_packages` of routes/admin.py: a form of packages, from its bytes to the
-- commit.
pub mod Bounded
pub mod Guarded
use prv_apt_mirror.Prelude.{
  ℕ, zero, suc, ◌+◌, ◌-◌, ◌*◌, Text, codes, Bool, true, false, ◌&&◌, not, List, [], ◌∷◌, ◌++◌,
  Option, none, some, if◌then◌else◌, ltb, length, take, drop, is_empty, lower, has_suffix,
  starts_with, parse_int, Number, natural, negative, ◌==◌, any, filter,
}
use prv_apt_mirror.Exec.{
  Error, deb_parse_error, value_error, validation_error, disk_full, http_error, Result, ok, err,
  pure, raise, ◌>>=◌, ◌>>◌, on_error,
}
use prv_apt_mirror.Config.{Config, max_upload_bytes}
use prv_apt_mirror.Storage.{ParsedDeb}
use prv_apt_mirror.World.{World, Io}
use prv_apt_mirror.Publish.{PublishResult}
use prv_apt_mirror.Publish.Commits.{UploadResult, uploaded, duplicated, upload_commit}
use prv_apt_mirror.Auth.{User}
use prv_apt_mirror.SourceSync.Download.{
  Stream, yields, ends, disk_preflight, write_incoming_stream, unlink_incoming,
}
use prv_apt_mirror.SourceSync.Import.{Env, parse_incoming}
use prv_apt_mirror.Web.{Request, origin_allowed, verify_csrf}
use prv_apt_mirror.Web.Site.{
  Server, Reply, redirect, shown, Web, on_world, current_user, csrf_expected, to_login, to_password,
  csrf_failed,
}

-- What the server gives for one call of `request.receive`.
pub data Message : Type 0 where
  disconnect : Message
  body : Text → Message
  other : Message

-- How the parser's reading ended.
pub data Ending : Type 0 where
  finished disconnected exceeded : Ending

-- The wrapped `receive`: the bodies that the parser gets, with the bytes received before, up to the
-- message at which it raises.
unfoldable pub fed : ℕ → ℕ → List Message → List Text × Ending
fed limit received [] = ([], finished)
fed limit received (disconnect ∷ ms) = ([], disconnected)
fed limit received (other ∷ ms) = fed limit received ms
fed limit received (body b ∷ ms) =
    let (bodies, ending) = fed limit (received + length b) ms in
    if ltb limit (received + length b) then ([], exceeded) else (b ∷ bodies, ending)

pub record FormFile : Type 0 where
  pub name : Text
  pub content : Text

-- The form: the token, if it is a text, and the files.
pub record UploadForm : Type 0 where
  pub token : Option Text
  pub files : List FormFile

-- The multipart parser of starlette, for at most so many files: what it raises by the time that it
-- got these bodies, if it does, and what it gives when the stream has ended after them.
pub record Parser : Type 0 where
  pub stops : ℕ → List Text → Option Error
  pub form : ℕ → List Text → Result UploadForm

abbrev pub multipart_overhead_bytes : ℕ
multipart_overhead_bytes = 64 * 1024

abbrev pub over_size : Error
over_size = http_error 413 (codes "上传超过大小限制")

abbrev pub invalid_length : Error
invalid_length = http_error 400 (codes "Invalid Content-Length")

-- the test of the header
abbrev pub number_allowed : ℕ → Option Number → Result (Unit {0})
number_allowed limit none = err invalid_length
number_allowed limit (some negative) = err invalid_length
number_allowed limit (some (natural n)) = if ltb limit n then err over_size else ok tt

abbrev pub length_allowed : ℕ → Option Text → Result (Unit {0})
length_allowed limit none = ok tt
length_allowed limit (some raw) = number_allowed limit (parse_int raw)

-- The MultiPartException of the wrapped `receive` leaves the parser as an HTTPException, and the
-- handler puts another in its place where the limit was the reason.
abbrev pub at_end : Parser → ℕ → List Text → Ending → Result UploadForm
at_end parser max_files bodies finished = parser.form max_files bodies
at_end parser max_files bodies disconnected = err (http_error 400 (codes "Upload disconnected"))
at_end parser max_files bodies exceeded = err over_size

abbrev pub unless_stopped : Option Error → Result UploadForm → Result UploadForm
unless_stopped none r = r
unless_stopped (some e) r = err e

abbrev pub parsed_form : Parser → ℕ → List Text × Ending → Result UploadForm
parsed_form parser max_files (bodies, ending) =
    unless_stopped (parser.stops max_files bodies) (at_end parser max_files bodies ending)

abbrev pub form_of : Parser → ℕ → ℕ → List Message → Result (Unit {0}) → Result UploadForm
form_of parser limit max_files messages (err e) = err e
form_of parser limit max_files messages (ok u) = parsed_form parser max_files (fed limit 0 messages)

-- `bounded_upload_form`
unfoldable pub bounded_upload_form : Parser → Option Text → List Message → ℕ → ℕ → Result UploadForm
bounded_upload_form parser content_length messages limit max_files =
    form_of parser (limit + multipart_overhead_bytes) max_files messages
      (length_allowed (limit + multipart_overhead_bytes) content_length)

-- What one request brings beside its headers: the length, the messages and the parser.
pub record Upload : Type 0 where
  pub content_length : Option Text
  pub messages : List Message
  pub parser : Parser

-- `iter(lambda: up.file.read(1024 * 1024), b"")`: each turn takes a byte at least, so the length is
-- enough fuel.
unfoldable pub pieces : ℕ → Text → Stream
pieces zero t = ends
pieces (suc f) t =
    let rest = pieces f (drop (1024 * 1024) t) in
    if is_empty t then ends else yields (take (1024 * 1024) t) rest

abbrev Item : Type 0
Item = ParsedDeb × Text

-- `prepare_file`
unfoldable pub prepare_file : Env → ℕ → FormFile → Io Item
prepare_file env limit f = do
  name ← write_incoming_stream env.net env.os limit (pieces (length f.content) f.content)
  parsed ← on_error (parse_incoming env name) (unlink_incoming name)
  pure (parsed, name)

-- What the loop over the files gives: the packages with their size, or an answer.
pub data Prepared : Type 0 where
  ready : ℕ → Prepared
  refused : Reply → Prepared

-- the handlers of the loop
abbrev refusal : Env → Error → Result Prepared
refusal env (deb_parse_error m) =
    ok (refused (redirect 303 (codes "/admin/packages?err=" ++ env.host.quote m)))
refusal env (value_error m) = ok (refused (shown 413 (codes "上传超过大小限制")))
refusal env (validation_error m) = ok (refused (shown 413 (codes "上传超过大小限制")))
refusal env e = err e

-- The loop over the files, with the size and the items so far; the items come back in any case,
-- since the `finally` removes their files.
unfoldable pub prepare_each :
    Env → List FormFile → ℕ → List Item → World → (Result Prepared × List Item) × World
prepare_each env [] total items w = ((ok (ready total), items), w)
prepare_each env (f ∷ fs) total items w =
    let (r, w') = prepare_file env (max_upload_bytes env.cfg - total) f w in
    if not (has_suffix (lower env.host.wide_lower f.name) (codes ".deb"))
    then ((ok (refused (redirect 303 (codes "/admin/packages?err=notdeb"))), items), w)
    else elim r [
      | err e ↦ ((refusal env e, items), w')
      | ok item ↦ prepare_each env fs (total + item.0.size) (items ++ item ∷ []) w'
    ]

abbrev is_duplicate : UploadResult → Bool
is_duplicate (uploaded p d) = false
is_duplicate (duplicated n v a) = true

abbrev publish_failed : Option PublishResult → Bool
publish_failed none = false
publish_failed (some r) = not r.is_ok

abbrev commit_reply : List UploadResult × Option PublishResult → Reply
commit_reply (results, published) =
    if publish_failed published
    then redirect 303 (codes "/admin/packages?err=upload_publish")
    else if any is_duplicate results && not (any (λ r. not (is_duplicate r)) results)
    then redirect 409 (codes "/admin/packages?err=duplicate")
    else redirect 303 (codes "/admin/packages?ok=1")

-- `work`
abbrev commit_items : Env → User → ℕ → List Item → Io Reply
commit_items env user total items = do
  disk_preflight env.net total
  done ← upload_commit env.host env.os env.gpg env.cfg items (some user.id) env.now
  pure (commit_reply done)

abbrev commit_prepared : Env → User → List Item → Result Prepared → Io Reply
commit_prepared env user items (err e) = raise e
commit_prepared env user items (ok (refused reply)) = pure reply
commit_prepared env user items (ok (ready total)) = commit_items env user total items

-- the `finally`
unfoldable pub drop_items : List Item → Io (Unit {0})
drop_items [] = pure tt
drop_items (item ∷ items) = unlink_incoming item.1 >> drop_items items

abbrev all_files : Env → User → List FormFile → Io Reply
all_files env user files w =
    let ((prepared, items), w1) = prepare_each env files 0 [] w in
    let (r, w2) = commit_prepared env user items prepared w1 in (r, (drop_items items w2).1)

-- `except DiskFullError`
abbrev disk_reply : Result Reply → Result Reply
disk_reply (err (disk_full m)) = ok (shown 507 (codes "磁盘空间不足"))
disk_reply r = r

unfoldable pub commit_files : Env → User → List FormFile → Io Reply
commit_files env user files w = let (r, w') = all_files env user files w in (disk_reply r, w')

-- the files that have a name
abbrev named : List FormFile → List FormFile
named = filter (λ f. not (is_empty f.name))

abbrev files_body : Server → User → List FormFile → Web Reply
files_body srv user [] s = (ok (redirect 303 (codes "/admin/packages?err=nofile")), s)
files_body srv user (f ∷ fs) s =
    on_world (commit_files (record srv.env { cfg = s.cfg }) user (f ∷ fs)) s

abbrev pub upload_checked : Server → User → UploadForm → Result Bool → Web Reply
upload_checked srv user form (err e) s = (err e, s)
upload_checked srv user form (ok false) s = (ok csrf_failed, s)
upload_checked srv user form (ok true) s = files_body srv user (named form.files) s

-- `not isinstance(token, str) or not verify_csrf(...)`
abbrev pub token_check : Server → Config → Request → Option Text → Result Bool
token_check srv cfg request none = ok false
token_check srv cfg request (some token) =
    verify_csrf srv.env.host cfg request token (csrf_expected srv.env.host cfg request)

abbrev too_many : Error → Result Reply
too_many (http_error status m) =
    if status == 400 && starts_with m (codes "Too many files.")
    then ok (redirect 303 (codes "/admin/packages?err=too_many"))
    else err (http_error status m)
too_many e = err e

abbrev pub upload_form : Server → Request → User → Result UploadForm → Web Reply
upload_form srv request user (err e) s = (too_many e, s)
upload_form srv request user (ok form) s =
    upload_checked srv user form (token_check srv s.cfg request form.token) s

abbrev pub upload_allowed : Server → Request → Upload → User → Bool → Web Reply
upload_allowed srv request up user false s = (ok csrf_failed, s)
upload_allowed srv request up user true s =
    upload_form srv request user
      (bounded_upload_form up.parser up.content_length up.messages (max_upload_bytes s.cfg)
        s.cfg.max_upload_files)
      s

abbrev pub upload_password : Server → Request → Upload → User → Bool → Web Reply
upload_password srv request up user true s = (ok to_password, s)
upload_password srv request up user false s =
    upload_allowed srv request up user (origin_allowed srv.env.host s.cfg request) s

abbrev pub upload_user : Server → Request → Upload → Option User → Web Reply
upload_user srv request up none s = (ok to_login, s)
upload_user srv request up (some user) s =
    upload_password srv request up user user.must_change_password s

-- `upload_packages`
unfoldable pub upload_packages : Server → Request → Upload → Web Reply
upload_packages srv request up s =
    let (user, accounts) = current_user srv request s.cfg s.accounts in
    upload_user srv request up user (record s { accounts = accounts })
