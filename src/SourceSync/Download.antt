-- ===== src/SourceSync/Download.antt =====
-- `_download` of source_sync.py and `write_incoming_stream` of storage.py: a response of the HTTP
-- client, chunk by chunk, becomes a file of `incoming_dir`.
pub mod Limits
use prv_apt_mirror.Prelude.{
  ℕ, ◌+◌, ◌*◌, min, Text, codes, Bool, false, List, [], ◌∷◌, ◌++◌, ◌||◌, Option, none, some, lookup,
  insert, remove, if◌then◌else◌, length, take, ltb, text_eq, parse_int, natural, negative, is_empty,
  is_some, decimal, Dict, ◌==◌,
}
use prv_apt_mirror.Exec.{
  Error, os_error, value_error, disk_full, other_error, pure, raise, gets, lift, ◌>>=◌, ◌>>◌, skip,
  on_error, Result, ok, err,
}
use prv_apt_mirror.Host.{Json, Tag}
use prv_apt_mirror.Config.{Config, max_upload_bytes}
use prv_apt_mirror.Files.{File}
use prv_apt_mirror.World.{
  World, Io, Faults, returned, call, on_files, open_incoming, write_incoming, sync_file, when,
}
use prv_apt_mirror.Debparse.Ar.{ar_magic}

-- What httpx gives for a request: the status, the headers that the code reads, what
-- `raise_for_status` raises, the chunks of the body, and what ends it early.
pub record Response : Type 0 where
  pub url : Text
  pub status_code : ℕ
  pub refused : Option Text
  pub content_length : Option Text
  pub content_type : Option Text
  pub content_disposition : Option Text
  pub etag : Option Text
  pub last_modified : Option Text
  pub chunks : List Text
  pub broken : Option Text

-- What the code reads of an answer that lists files: its JSON, which may raise, the length of its
-- content, and the tags of its text.
pub record Page : Type 0 where
  pub refused : Option Text
  pub json : Result Json
  pub length : ℕ
  pub tags : List Tag

-- The client, the free bytes of the disk, the name that uuid4 gives and `bytes.hex(" ")`.
pub record Net : Type 0 where
  -- the address and the conditional headers; an error is one that the client raises
  pub get : Text → Option Text → Option Text → Result Response
  -- the first bytes of a file, and whether an exception is an `httpx.RequestError`
  pub stream : Text → Result Response
  pub is_request_error : Error → Bool
  pub page : Text → Result Page
  pub free : World → ℕ
  pub fresh_name : World → Text
  pub inode : World → ℕ
  pub hex : Text → Text

-- What a generator still gives: a chunk and more, the end, or an exception.
pub data Stream : Type 0 where
  yields : Text → Stream → Stream
  ends : Stream
  raises : Error → Stream

abbrev or_unknown : Option Text → Text
or_unknown none = codes "未知"
or_unknown (some t) = t

abbrev pub not_a_deb : Net → Response → Text → Error
not_a_deb net r prefix = value_error (
    codes "下载响应不是 .deb（HTTP "
    ++ decimal r.status_code
    ++ codes "，Content-Type "
    ++ or_unknown r.content_type
    ++ codes "，开头 "
    ++ net.hex (take 8 prefix)
    ++ codes "）")

abbrev pub too_short : Response → Error
too_short r = value_error (
    codes "下载响应不是 .deb（HTTP "
    ++ decimal r.status_code
    ++ codes "，Content-Type "
    ++ or_unknown r.content_type
    ++ codes "，响应过短）")

-- the rest of the body, once its beginning is known to be right
unfoldable pub pass_on : Option Text → List Text → Stream
pass_on none [] = ends
pass_on (some m) [] = raises (other_error m)
pass_on broken (c ∷ cs) = let rest = pass_on broken cs in if is_empty c then rest else yields c rest

abbrev pub short_body : Response → Option Text → Stream
short_body r none = raises (too_short r)
short_body r (some m) = raises (other_error m)

-- `validated_chunks`: nothing is given before the first 8 bytes are those of an ar archive.
unfoldable pub validated_chunks : Net → Response → Text → List Text → Stream
validated_chunks net r prefix [] = short_body r r.broken
validated_chunks net r prefix (c ∷ cs) =
    let waiting = validated_chunks net r (prefix ++ c) cs in
    if is_empty c || ltb (length (prefix ++ c)) 8
    then waiting
    else if text_eq (take 8 (prefix ++ c)) ar_magic
    then yields (prefix ++ c) (pass_on r.broken cs)
    else raises (not_a_deb net r (prefix ++ c))

abbrev pub reserve : ℕ
reserve = 1024 * 1024 * 1024

-- `disk_preflight`
unfoldable pub disk_preflight : Net → ℕ → Io (Unit {0})
disk_preflight net needed w =
    if ltb (net.free w) (needed + reserve)
    then raise
        (disk_full (
          codes "disk free "
          ++ decimal (net.free w)
          ++ codes " bytes; need "
          ++ decimal needed
          ++ codes "+"
          ++ decimal reserve))
        w
    else skip w

abbrev pub append_text : Text → Option File → Dict File → Text → Dict File
append_text dest none fs chunk = fs
append_text dest (some f) fs chunk = insert dest (record f { content = f.content ++ chunk }) fs

-- `os.write(fd, chunk)`
abbrev pub append_incoming : Text → Text → Io (Unit {0})
append_incoming dest chunk =
    on_files
      λ fs. record fs { incoming = append_text dest (lookup dest fs.incoming) fs.incoming chunk }

-- One `os.write`, which `o` says how it ends, and what follows it.
abbrev pub chunk_written : Option Text → Text → Text → Io (Unit {0}) → Io (Unit {0})
chunk_written o dest c next = returned o >> append_incoming dest c >> next

abbrev pub too_large : Error
too_large = value_error (codes "upload exceeds PRVAPT_MAX_UPLOAD_MB")

-- the loop over the chunks
unfoldable pub write_chunks : Faults → ℕ → Text → ℕ → Stream → Io (Unit {0})
write_chunks os limit dest written ends = skip
write_chunks os limit dest written (raises e) = raise e
write_chunks os limit dest written (yields c rest) =
    if is_empty c
    then write_chunks os limit dest written rest
    else if ltb limit (written + length c)
    then raise too_large
    else chunk_written (os (write_incoming dest)) dest c
        (write_chunks os limit dest (written + length c) rest)

abbrev pub new_incoming : ℕ → File
new_incoming inode = record { inode = inode; content = []; is_symlink = false }

-- `os.open(dest, O_CREAT | O_EXCL | O_WRONLY)`
abbrev pub open_new : Net → Faults → Text → Io (Unit {0})
open_new net os dest = do
  exists ← gets (λ w. is_some (lookup dest w.incoming))
  when exists (raise (os_error (codes "File exists")))
  call os (open_incoming dest)
  inode ← gets net.inode
  on_files (λ fs. record fs { incoming = insert dest (new_incoming inode) fs.incoming })

-- `dest.unlink(missing_ok=True)`
abbrev pub unlink_incoming : Text → Io (Unit {0})
unlink_incoming dest = on_files (λ fs. record fs { incoming = remove dest fs.incoming })

abbrev pub write_body : Faults → ℕ → Text → Stream → Io (Unit {0})
write_body os limit dest chunks = write_chunks os limit dest 0 chunks >> call os (sync_file dest)

-- what is done with the open file
unfoldable pub write_opened : Faults → ℕ → Text → Stream → Io Text
write_opened os limit dest chunks = do
  on_error (write_body os limit dest chunks) (unlink_incoming dest)
  pure dest

unfoldable pub write_incoming_stream : Net → Faults → ℕ → Stream → Io Text
write_incoming_stream net os limit chunks = do
  disk_preflight net (min limit (8 * 1024 * 1024))
  dest ← gets net.fresh_name
  open_new net os dest
  write_opened os limit dest chunks

-- `length and int(length) > cfg.max_upload_bytes`, where `int` may raise
abbrev pub length_check : Config → Option Text → Result Bool
length_check cfg none = ok false
length_check cfg (some []) = ok false
length_check cfg (some (c ∷ s)) = elim (parse_int (c ∷ s)) [
  | none ↦ err (value_error (codes "invalid literal for int() with base 10"))
  | some number ↦ elim number [
    | negative ↦ ok false
    | natural n ↦ ok (ltb (max_upload_bytes cfg) n)
  ]
]

abbrev pub raise_for_status : Option Text → Io (Unit {0})
raise_for_status none = skip
raise_for_status (some m) = raise (other_error m)

abbrev pub over_limit : Error
over_limit = value_error (codes "远端软件包超过网站设置的单文件大小限制")

-- what is done with a response that is not 304
unfoldable pub save_response : Net → Faults → Config → Response → Io Text
save_response net os cfg r = do
  raise_for_status r.refused
  large ← lift (length_check cfg r.content_length)
  when large (raise over_limit)
  write_incoming_stream net os (max_upload_bytes cfg) (validated_chunks net r [] r.chunks)

-- `_download`; no name for an answer 304
unfoldable pub download :
    Net → Faults → Config → Text → Option Text → Option Text → Io (Option Text × Response)
download net os cfg url etag last_modified = do
  r ← lift (net.get url etag last_modified)
  if r.status_code == 304
      then pure (none, r)
      else (do name ← save_response net os cfg r; pure (some name, r))
