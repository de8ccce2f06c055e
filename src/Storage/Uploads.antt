-- ===== src/Storage/Uploads.antt =====
-- storage.py: an upload is placed whole, or it leaves the repository as it was.
use prv_apt_mirror.Prelude.{
  ℕ, ◌≡◌, refl, ◌∙◌, Text, Bool, true, false, Option, none, some, arith, lookup, lookup-insert,
  lookup-remove, text_eq_refl, ==_refl, text_eq_iff, sym, ap, subst, Bool-cases, inl, inr, is_some,
  text_eq, if◌then◌else◌,
}
use prv_apt_mirror.Exec.{
  Result, ok, err, Error, os_error, continue, caught, ended_by, ◌>>=◌, ◌>>◌, on_error, raise, pure,
}
use prv_apt_mirror.Host.{Host}
use prv_apt_mirror.Config.{Config}
use prv_apt_mirror.Db.Packages.{PackageRow, has_filename, get_package_nva}
use prv_apt_mirror.Files.{File}
use prv_apt_mirror.World.{
  World, Faults, Io, returned, exists_undone, stat_undone, unlink_undone, unlink_upload, stat_file,
  link_file, hash_found, make_parents, when, chmod_file, sync_file, sync_parents,
}
use prv_apt_mirror.Storage.{
  ParsedDeb, PlaceResult, undo_link, commit_row, write_row, settle, place, record_blob,
  link_or_adopt, exclusive_link_or_revive, same_inode, dest_inode, link_new, adopt_or_link,
  cannot_adopt, adopt, pool_relative, duplicate, is_conflict, drop_upload,
}

-- Nothing that the repository serves or records differs.
pub record Same (w w' : World) : Type 0 where
  pub db : w'.db ≡ w.db
  pub repo : (p : Text) → lookup p w'.repo ≡ lookup p w.repo

abbrev pub Undone : {A : Type 0} → World → Result A × World → Type 0
Undone w (ok a, w') = Unit {0}
Undone w (err e, w') = Same w w'

Same-refl : (w : World) → Same w w
Same-refl w = record { db = refl; repo = λ p. refl }

-- A call that raises changes nothing.
call-Undone :
    {A : Type 0} (o : Option Text) (m : Io A) (w : World)
    → Undone w (m w)
    → Undone w ((returned o >> m) w)
call-Undone none m w h = h
call-Undone (some e) m w h = Same-refl w

module _ (A : Type 0) (w₀ : World) (undo : Io (Unit {0})) where
  -- An exception runs the handler, which may raise in its turn.
  handled-Undone :
      (e : Error) (v : World)
      → Same w₀ (undo v).1
      → Undone {A = A} w₀ (continue (undo v).0 (λ _. raise e) (undo v).1)
  handled-Undone e v same = go (undo v) same
    where
      go :
          (u : Result (Unit {0}) × World)
          → Same w₀ u.1
          → Undone {A = A} w₀ (continue u.0 (λ _. raise e) u.1)
      go (ok x, v') h = h
      go (err x, v') h = h

  on_error-Undone :
      (m : Io A) (w : World)
      → ((e : Error) (v : World) → m w ≡ (err e, v) → Same w₀ (undo v).1)
      → Undone w₀ (on_error m undo w)
  on_error-Undone m w restores = go (m w) refl
    where
      go : (r : Result A × World) → m w ≡ r → Undone w₀ (caught r.0 (λ e. undo >> raise e) r.1)
      go (ok a, v) q = tt
      go (err e, v) q = handled-Undone e v (restores e v q)

guarded-Undone :
    {A : Type 0} (w₀ : World) (o : Option Text) (undo : Io (Unit {0})) (k : Io A) (w : World)
    → Same w₀ (undo w).1
    → Undone w₀ (k w)
    → Undone w₀ ((on_error (returned o) undo >> k) w)
guarded-Undone w₀ none undo k w restores h = h
guarded-Undone {A} w₀ (some m) undo k w restores h = go (undo w) restores
  where
    go :
        (u : Result (Unit {0}) × World)
        → Same w₀ u.1
        → Undone {A = A} w₀ (
            continue {A = Unit {0}} {B = A}
              (continue {A = Unit {0}} {B = Unit {0}} u.0 (λ _. raise (os_error m)) u.1).0
              (λ _. k)
              (continue {A = Unit {0}} {B = Unit {0}} u.0 (λ _. raise (os_error m)) u.1).1)
    go (ok x, v) same = same
    go (err e, v) same = same

commit_row-Undone :
    (h : Host) (cfg : Config) (existing : Option PackageRow) (parsed : ParsedDeb) (dest : Text)
    (user : Option ℕ) (at : ℕ) (w : World)
    → Undone w (commit_row h cfg existing parsed dest user at w)
unfolding commit_row write_row
commit_row-Undone h cfg none parsed dest user at w =
    elim (Bool-cases (has_filename dest w.packages)) [
      | inl taken ↦ rw (taken, ◌>>=◌) (record { db = refl; repo = λ p. refl })
      | inr free ↦ rw (free, ◌>>=◌) tt
    ]
commit_row-Undone h cfg (some row) parsed dest user at w = tt

commit_row-files :
    (h : Host) (cfg : Config) (existing : Option PackageRow) (parsed : ParsedDeb) (dest : Text)
    (user : Option ℕ) (at : ℕ) (w : World)
    → (commit_row h cfg existing parsed dest user at w).1.files ≡ w.files
unfolding commit_row write_row
commit_row-files h cfg none parsed dest user at w =
    elim (Bool-cases (has_filename dest w.packages)) [
      | inl taken ↦ rw (taken, ◌>>=◌) refl
      | inr free ↦ rw (free, ◌>>=◌) refl
    ]
commit_row-files h cfg (some row) parsed dest user at w = refl

-- `w` is `w₀` with the file of the upload at `dest`, put there by a link if `created` says so.
record Linked (created : Bool) (dest : Text) (w₀ w : World) : Type 0 where
  db : w.db ≡ w₀.db
  present : is_some (lookup dest w.repo) ≡ true
  repo :
      (p : Text)
      → lookup p w₀.repo
        ≡ (if created then (if text_eq dest p then none else lookup p w.repo) else lookup p w.repo)

same_inode_self : (i : Option ℕ) → same_inode i i ≡ true
same_inode_self none = refl
same_inode_self (some i) = ==_refl i

-- The handler's own calls work.
pub record CanUndo (os : Faults) (dest : Text) : Type 0 where
  pub exists : os (exists_undone dest) ≡ none
  pub stat : os (stat_undone dest) ≡ none
  pub unlink : os (unlink_undone dest) ≡ none

module _ (os : Faults) (dest : Text) (works : CanUndo os dest) (w₀ w : World) where
  undo_link-Same :
      (created : Bool) (inode : Option ℕ)
      → Linked created dest w₀ w
      → same_inode inode (dest_inode dest w) ≡ true
      → Same w₀ (undo_link os created inode dest w).1
  unfolding undo_link
  undo_link-Same true none l same = record {
    db = ground (arith, works.exists, works.unlink, l.present) ∙ l.db;
    repo = λ p.
        ground
          (arith, works.exists, works.unlink, l.present, l.repo p, lookup-remove dest p w.repo);
  }
  undo_link-Same true (some i) l same = record {
    db = ground (arith, works.exists, works.stat, works.unlink, l.present) ∙ l.db;
    repo = λ p. ground (
      arith,
      works.exists,
      works.stat,
      works.unlink,
      l.present,
      l.repo p,
      lookup-remove dest p w.repo,
    );
  }
  undo_link-Same false inode l same = record { db = l.db; repo = λ p. sym (l.repo p) }

  module _ (h : Host) (cfg : Config) (existing : Option PackageRow) (parsed : ParsedDeb) where
    record_blob-Undone :
        (user : Option ℕ) (at : ℕ) → Undone w (record_blob h os cfg existing parsed user at dest w)
    unfolding record_blob
    record_blob-Undone user at = call-Undone (os (chmod_file dest)) _ w (
        call-Undone (os (sync_file dest)) _ w (
          call-Undone (os (sync_parents dest)) _ w
            (commit_row-Undone h cfg existing parsed dest user at w)))

    record_blob-files :
        (user : Option ℕ) (at : ℕ)
        → (record_blob h os cfg existing parsed user at dest w).1.files ≡ w.files
    unfolding record_blob
    record_blob-files user at =
        ground (arith, commit_row-files h cfg existing parsed dest user at w)

Linked-moved :
    {created : Bool} {dest : Text} {w₀ w v : World}
    → Linked created dest w₀ w
    → v.db ≡ w.db
    → v.files ≡ w.files
    → Linked created dest w₀ v
Linked-moved l d f = record { db = d ∙ l.db; present = rw f l.present; repo = λ p. rw f (l.repo p) }

module _ (h : Host) (os : Faults) (cfg : Config) (existing : Option PackageRow)
    (parsed : ParsedDeb) where
  module _ (user : Option ℕ) (at : ℕ) (dest : Text) (works : CanUndo os dest) where
    -- After the link every exception takes the link back.
    settle-Undone :
        (w₀ w : World) (created : Bool)
        → Linked created dest w₀ w
        → Undone w₀ (settle h os cfg existing parsed user at dest created w)
    unfolding settle
    settle-Undone w₀ w created l =
        guarded-Undone w₀ (os (stat_file dest)) _ _ w
          (undo_link-Same os dest works w₀ w created none l refl)
          (on_error-Undone PlaceResult w₀ _ (record_blob h os cfg existing parsed user at dest) w
            λ e v q.
              let files : v.files ≡ w.files =
                ap (λ (r : Result PlaceResult × World). r.1.files) (sym q)
                ∙ record_blob-files os dest works w₀ w h cfg existing parsed user at in
              let same : Same w v =
                subst (Undone w) q
                  (record_blob-Undone os dest works w₀ w h cfg existing parsed user at) in
              undo_link-Same os dest works w₀ v created (dest_inode dest w)
                (Linked-moved l same.db files) (rw files (same_inode_self (dest_inode dest w))))

abbrev LinkedOr : Text → World → Result Bool × World → Type 0
LinkedOr dest w (ok created, w') = Linked created dest w w'
LinkedOr dest w (err e, w') = Same w w'

module _ (h : Host) (os : Faults) (existing : Option PackageRow) (parsed : ParsedDeb) where
  link_new-LinkedOr :
      (o : Option Text) (dest : Text) (file : File) (w : World)
      → lookup dest w.repo ≡ none
      → LinkedOr dest w (link_new o dest file w)
  link_new-LinkedOr (some m) dest file w free = Same-refl w
  link_new-LinkedOr none dest file w free = record {
    db = refl;
    present = rw (lookup-insert, text_eq_refl);
    repo = λ p. ground (arith, lookup-insert dest p file w.repo, text_eq_iff dest p);
  }

  adopt_or_link-LinkedOr :
      (dest : Text) (w : World) (found source : Option File)
      → lookup dest w.repo ≡ found
      → LinkedOr dest w (adopt_or_link h os existing parsed dest found source w)
  adopt_or_link-LinkedOr dest w none none e = Same-refl w
  adopt_or_link-LinkedOr dest w (some found) none e = Same-refl w
  adopt_or_link-LinkedOr dest w none (some file) e =
      link_new-LinkedOr (os (link_file dest)) dest file w e
  adopt_or_link-LinkedOr dest w (some found) (some file) e =
      adopted (cannot_adopt existing found) (os (hash_found dest))
    where
      same : (b : Bool) → LinkedOr dest w ((if b then pure false else raise (duplicate parsed)) w)
      same true = record { db = refl; present = rw e; repo = λ p. refl }
      same false = Same-refl w

      adopted : (b : Bool) (o : Option Text) → LinkedOr dest w (adopt h o parsed found b w)
      adopted true o = Same-refl w
      adopted false (some m) = Same-refl w
      adopted false none = same (text_eq (h.sha256_hex found.content) parsed.sha256)

  link_or_adopt-LinkedOr :
      (incoming dest : Text) (w : World)
      → LinkedOr dest w (link_or_adopt h os existing parsed incoming dest w)
  unfolding link_or_adopt
  link_or_adopt-LinkedOr incoming dest w = adopt_or_link-LinkedOr dest w (lookup dest w.repo) _ refl

when-Undone :
    {A : Type 0} (b : Bool) (e : Error) (m : Io A) (w : World)
    → Undone w (m w)
    → Undone w ((when b (raise e) >> m) w)
when-Undone true e m w h = Same-refl w
when-Undone false e m w h = h

module _ (h : Host) (os : Faults) (cfg : Config) (parsed : ParsedDeb) (user : Option ℕ)
    (at : ℕ) where
  module _ (works : CanUndo os (pool_relative parsed cfg.component)) where
    link_settle-Undone :
        (existing : Option PackageRow) (w : World) (l : Result Bool × World)
        → LinkedOr (pool_relative parsed cfg.component) w l
        → Undone w (
            continue l.0
              (settle h os cfg existing parsed user at (pool_relative parsed cfg.component))
              l.1)
    link_settle-Undone existing w (ok created, v) l =
        settle-Undone h os cfg existing parsed user at (pool_relative parsed cfg.component) works w
          v created l
    link_settle-Undone existing w (err e, v) l = l

    place-Undone :
        (incoming : Text) (w : World) → Undone w (place h os cfg parsed incoming user at w)
    unfolding place
    place-Undone incoming w =
        let existing : Option PackageRow =
          get_package_nva w.packages parsed.name parsed.version parsed.architecture in
        when-Undone (is_conflict existing parsed) _ _ w (
          call-Undone (os (make_parents (pool_relative parsed cfg.component))) _ w (
            link_settle-Undone existing w _
              (link_or_adopt-LinkedOr h os existing parsed incoming _ w)))

    finally-Undone :
        (incoming : Text) (w : World) (r : Result PlaceResult × World)
        → os (unlink_upload incoming) ≡ none
        → Undone w r
        → Undone w (let (u, v) = drop_upload os incoming r.1 in (ended_by r.0 u, v))
    finally-Undone incoming w (ok p, v) e u = rw e tt
    finally-Undone incoming w (err x, v) e u = rw e (record { db = u.db; repo = u.repo })

    -- An upload that raises leaves every table, and every file of the repository, as it was, for
    -- every failure on the way but those of the handler's own `exists`, `stat` and `unlink` of
    -- the package, and that of the last `unlink` of the upload.
    pub exclusive_link_or_revive-Undone :
        (incoming : Text) (w : World)
        → os (unlink_upload incoming) ≡ none
        → Undone w (exclusive_link_or_revive h os cfg parsed incoming user at w)
    unfolding exclusive_link_or_revive
    exclusive_link_or_revive-Undone incoming w unlinks =
        finally-Undone incoming w (place h os cfg parsed incoming user at w) unlinks
          (place-Undone incoming w)
