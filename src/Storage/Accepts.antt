-- ===== src/Storage/Accepts.antt =====
-- storage.py: what an upload that succeeds leaves in the database.
use prv_apt_mirror.Prelude.{
  ℕ, ◌≡◌, refl, ap, Text, Bool, true, false, List, [], ◌∷◌, ◌++◌, Option, none, some, arith,
  ==_refl, text_eq_refl, next_id,
}
use prv_apt_mirror.Exec.{
  os_error, Result, ok, err, pure, raise, gets, continue, caught, on_error, ◌>>=◌, ◌>>◌, modify,
  ended_by,
}
use prv_apt_mirror.Host.{Host}
use prv_apt_mirror.Config.{Config}
use prv_apt_mirror.Db.Packages.{PackageRow, active, get_package_nva, update_package, has_filename}
use prv_apt_mirror.Db.Keys.{publish_dirty, is_set, set_setting, one_text}
use prv_apt_mirror.World.{
  World, Io, Faults, when, make_parents, returned, transaction, on_db, chmod_file, sync_file,
  sync_parents, stat_file, unlink_upload,
}
use prv_apt_mirror.Storage.{
  ParsedDeb, PlaceResult, new_row, revive, insert_new, write_row, commit_row, record_blob, settle,
  place, dest_inode, is_conflict, duplicate, drop_incoming, link_or_adopt, undo_link,
  exclusive_link_or_revive, pool_relative,
}

nva-append :
    (rows : List PackageRow) (n : PackageRow)
    → get_package_nva rows n.name n.version n.architecture ≡ none
    → get_package_nva (rows ++ n ∷ []) n.name n.version n.architecture ≡ some n
unfolding get_package_nva
nva-append [] n out =
    ground (arith, text_eq_refl n.name, text_eq_refl n.version, text_eq_refl n.architecture)
nva-append (r ∷ rows) n out = ground (arith, nva-append rows n)

nva-update :
    (name version architecture : Text) (f : PackageRow → PackageRow) (rows : List PackageRow)
    (a : PackageRow)
    → ((b : PackageRow)
        → ((f b).name ≡ b.name)
          × ((f b).version ≡ b.version)
          × ((f b).architecture ≡ b.architecture))
    → get_package_nva rows name version architecture ≡ some a
    → get_package_nva (update_package a.id f rows) name version architecture ≡ some (f a)
unfolding get_package_nva update_package
nva-update name version architecture f [] a keeps h = cc
nva-update name version architecture f (b ∷ rows) a keeps h =
    ground (arith, ==_refl a.id, keeps b, nva-update name version architecture f rows a keeps)

-- The row of the upload: it is active and has the digest, and the flag says that a publish is due.
pub record IsListed (parsed : ParsedDeb) (dest : Text) (res : PlaceResult) (w : World)
    : Type 0 where
  pub row : PackageRow
  pub found : get_package_nva w.packages parsed.name parsed.version parsed.architecture ≡ some row
  pub id : row.id ≡ res.row_id
  pub state : row.state ≡ active
  pub digest : row.sha256 ≡ parsed.sha256
  pub filename : row.filename ≡ dest
  pub dirty : is_set w.settings publish_dirty ≡ true

abbrev pub Listed : ParsedDeb → Text → Result PlaceResult × World → Type 0
Listed parsed dest (err e, w) = Unit
Listed parsed dest (ok res, w) = IsListed parsed dest res w

module _ (h : Host) (os : Faults) (cfg : Config) (parsed : ParsedDeb) (user_id : Option ℕ) (at : ℕ)
    (dest : Text) where
  commit_row-Listed :
      (existing : Option PackageRow) (w : World)
      → get_package_nva w.packages parsed.name parsed.version parsed.architecture ≡ existing
      → Listed parsed dest (commit_row h cfg existing parsed dest user_id at w)
  unfolding commit_row write_row new_row revive
  commit_row-Listed none w e = go (has_filename dest w.packages)
    where
      n : PackageRow
      n = new_row h cfg parsed dest user_id at (next_id (λ r. r.id) w.packages)

      go :
          (b : Bool)
          → Listed parsed dest (
              (transaction (do
                i ← insert_new b n
                on_db (λ d. record d { settings = set_setting publish_dirty one_text d.settings })
                pure i)
                  >>= λ i. pure (record { row_id = i; revived = false; filename = dest }))
                w)
      go true = tt
      go false = record {
        row = n;
        found = nva-append w.packages n e;
        id = refl;
        state = refl;
        digest = refl;
        filename = refl;
        dirty = refl;
      }
  commit_row-Listed (some row) w e = record {
    row = revive h parsed dest user_id at row;
    found =
        nva-update parsed.name parsed.version parsed.architecture (revive h parsed dest user_id at)
          w.packages row (λ b. (refl, refl, refl)) e;
    id = refl;
    state = refl;
    digest = refl;
    filename = refl;
    dirty = refl;
  }

  record_blob-Listed :
      (existing : Option PackageRow) (w : World)
      → get_package_nva w.packages parsed.name parsed.version parsed.architecture ≡ existing
      → Listed parsed dest (record_blob h os cfg existing parsed user_id at dest w)
  unfolding record_blob
  record_blob-Listed existing w e =
      go (os (chmod_file dest)) (os (sync_file dest)) (os (sync_parents dest))
    where
      go :
          (a b c : Option Text)
          → Listed parsed dest (
              (returned a
                  >> (returned b
                      >> (returned c >> commit_row h cfg existing parsed dest user_id at)))
                w)
      go (some m) b c = tt
      go none (some m) c = tt
      go none none (some m) = tt
      go none none none = commit_row-Listed existing w e

  -- The handler raises, whatever it meets.
  handled-Listed :
      (m : Result PlaceResult × World) (c : Io (Unit {0}))
      → Listed parsed dest m
      → Listed parsed dest (caught m.0 (λ e. c >> raise e) m.1)
  handled-Listed (ok res, v) c l = l
  handled-Listed (err e, v) c l = go (c v)
    where
      go : (r : Result (Unit {0}) × World) → Listed parsed dest (continue r.0 (λ _. raise e) r.1)
      go (ok x, s) = tt
      go (err x, s) = tt

  settle-Listed :
      (existing : Option PackageRow) (created : Bool) (w : World)
      → get_package_nva w.packages parsed.name parsed.version parsed.architecture ≡ existing
      → Listed parsed dest (settle h os cfg existing parsed user_id at dest created w)
  unfolding settle
  settle-Listed existing created w e = go (os (stat_file dest))
    where
      after : Io PlaceResult
      after = gets (dest_inode dest) >>= λ inode.
          on_error (record_blob h os cfg existing parsed user_id at dest)
            (undo_link os created inode dest)

      stopped :
          (m : Text) (r : Result (Unit {0}) × World)
          → Listed parsed dest (
              let (x, v) = continue {B = Unit {0}} r.0 (λ _. raise (os_error m)) r.1 in
              continue x (λ _. after) v)
      stopped m (ok x, v) = tt
      stopped m (err x, v) = tt

      go :
          (o : Option Text)
          → Listed parsed dest ((on_error (returned o) (undo_link os created none dest) >> after) w)
      go none =
          handled-Listed (record_blob h os cfg existing parsed user_id at dest w)
            (undo_link os created (dest_inode dest w) dest) (record_blob-Listed existing w e)
      go (some m) = stopped m (undo_link os created none dest w)

packages-link_or_adopt :
    (h : Host) (os : Faults) (existing : Option PackageRow) (parsed : ParsedDeb)
    (incoming dest : Text) (w : World)
    → (link_or_adopt h os existing parsed incoming dest w).1.packages ≡ w.packages
unfolding link_or_adopt
packages-link_or_adopt h os existing parsed incoming dest w = ground arith

module _ (h : Host) (os : Faults) (cfg : Config) (parsed : ParsedDeb) (incoming : Text)
    (user_id : Option ℕ) (at : ℕ) where
  place-Listed :
      (w : World)
      → Listed parsed
          (pool_relative parsed cfg.component)
          (place h os cfg parsed incoming user_id at w)
  unfolding place
  place-Listed w = go (is_conflict existing parsed) (os (make_parents dest))
    where
      dest : Text
      dest = pool_relative parsed cfg.component

      existing : Option PackageRow
      existing = get_package_nva w.packages parsed.name parsed.version parsed.architecture

      linked :
          (r : Result Bool × World)
          → r.1.packages ≡ w.packages
          → Listed parsed dest (
              continue r.0 (λ created. settle h os cfg existing parsed user_id at dest created) r.1)
      linked (ok created, v) same =
          settle-Listed h os cfg parsed user_id at dest existing created v
            (ap (λ rows. get_package_nva rows parsed.name parsed.version parsed.architecture) same)
      linked (err e, v) same = tt

      go :
          (b : Bool) (o : Option Text)
          → Listed parsed dest (
              (when b (raise (duplicate parsed))
                  >> (returned o
                      >> (link_or_adopt h os existing parsed incoming dest >>= λ created.
                          settle h os cfg existing parsed user_id at dest created)))
                w)
      go true o = tt
      go false (some m) = tt
      go false none =
          linked (link_or_adopt h os existing parsed incoming dest w)
            (packages-link_or_adopt h os existing parsed incoming dest w)

  -- An upload that returns leaves a row of the package, under the id that is returned, that is
  -- active, has the digest of the upload and names the path of the pool; and the flag says that
  -- a publish is due.
  pub exclusive_link_or_revive-Listed :
      (w : World)
      → Listed parsed
          (pool_relative parsed cfg.component)
          (exclusive_link_or_revive h os cfg parsed incoming user_id at w)
  unfolding exclusive_link_or_revive
  exclusive_link_or_revive-Listed w =
      go (place h os cfg parsed incoming user_id at w) (os (unlink_upload incoming))
        (place-Listed w)
    where
      go :
          (r : Result PlaceResult × World) (o : Option Text)
          → Listed parsed (pool_relative parsed cfg.component) r
          → Listed parsed (pool_relative parsed cfg.component) (
              let (u, v) = (returned o >> modify (drop_incoming incoming)) r.1 in
              (ended_by r.0 u, v))
      go (ok res, v) none l = record {
        row = l.row;
        found = l.found;
        id = l.id;
        state = l.state;
        digest = l.digest;
        filename = l.filename;
        dirty = l.dirty;
      }
      go (ok res, v) (some m) l = tt
      go (err e, v) none l = tt
      go (err e, v) (some m) l = tt
