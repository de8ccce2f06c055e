-- ===== src/Storage/Expired.antt =====
-- storage.py: `gc_incoming`, which drops uploads that were left behind.
use prv_apt_mirror.Prelude.{
  ℕ, ◌+◌, ◌*◌, ◌-◌, ltb, Text, codes, Bool, true, false, ◌&&◌, [], ◌∷◌, ◌≡◌, refl, Option, none,
  some, Dict, lookup, remove, is_some, if◌then◌else◌, arith, lookup-remove, text_eq, text_eq_iff,
  Bool-cases, inl, inr, subst, ◌∙◌,
}
use prv_apt_mirror.Exec.{Result, ok, err, os_error, ◌>>=◌, ◌>>◌, lift, skip, try_except}
use prv_apt_mirror.Files.{File}
use prv_apt_mirror.World.{World, Io, returned, on_files, when}
use prv_apt_mirror.Storage.{drop_incoming}

-- What the calls on `incoming_dir` give: whether it is a directory, the time of the last change
-- of a path, or none where `stat` raises, and the messages of `is_dir`, `iterdir` and `unlink` if
-- they raise.
pub record Folder : Type 0 where
  pub is_dir : Bool
  pub is_dir_error : Option Text
  pub iterdir_error : Option Text
  pub mtime : Text → Option ℕ
  pub unlink : Text → Option Text

abbrev pub stat_mtime : Option ℕ → Result ℕ
stat_mtime none = err (os_error (codes "No such file or directory"))
stat_mtime (some t) = ok t

-- `max_age_s`, whose default is a day
abbrev pub max_age_s : ℕ
max_age_s = 24 * 3600

-- The body of the loop. A path that changed after `now` has the age 0, which is not over the limit.
unfoldable pub gc_path : Folder → ℕ → ℕ → Text → Io (Unit {0})
gc_path folder max_age now path =
    try_except
      (do
        mtime ← lift (stat_mtime (folder.mtime path))
        when (ltb max_age (now - mtime)) (
            returned (folder.unlink path)
            >> on_files (λ fs. record fs { incoming = remove path fs.incoming })))
      (λ e. skip)

unfoldable pub gc_each : Folder → ℕ → ℕ → Dict File → Io (Unit {0})
gc_each folder max_age now [] = skip
gc_each folder max_age now ((path, file) ∷ paths) =
    gc_path folder max_age now path >> gc_each folder max_age now paths

abbrev pub gc_listed : Folder → ℕ → ℕ → Bool → Option Text → Io (Unit {0})
gc_listed folder max_age now false o w = skip w
gc_listed folder max_age now true o w = (returned o >> gc_each folder max_age now w.incoming) w

-- `is_dir` and `iterdir` stand outside the `try`.
unfoldable pub gc_incoming : Folder → ℕ → ℕ → Io (Unit {0})
gc_incoming folder max_age now =
    returned folder.is_dir_error >> gc_listed folder max_age now folder.is_dir folder.iterdir_error

-- The path is older than the limit, and the calls on it work.
abbrev pub is_old : Option ℕ → ℕ → ℕ → Bool
is_old none max_age now = false
is_old (some t) max_age now = ltb (t + max_age) now

abbrev pub is_free : Option Text → Bool
is_free none = true
is_free (some m) = false

abbrev pub is_dropped : Folder → ℕ → ℕ → Text → Bool
is_dropped folder max_age now path =
    is_old (folder.mtime path) max_age now && is_free (folder.unlink path)

-- Nothing was raised, and of the paths of `paths` those that are to be dropped are gone.
pub record Swept (folder : Folder) (max_age now : ℕ) (drops : Text → Bool) (w : World)
    (r : Result (Unit {0}) × World) : Type 0 where
  pub returns : r.0 ≡ ok tt
  pub db : r.1.db ≡ w.db
  pub repo : r.1.repo ≡ w.repo
  pub incoming :
      (p : Text)
      → lookup p r.1.incoming
        ≡ (if drops p && is_dropped folder max_age now p then none else lookup p w.incoming)

-- A path that is dropped before the rest is swept, and one that is kept.
drop-lookup :
    (e d : Bool) (file : File) (o x : Option File)
    → (e ≡ true → d ≡ true)
    → (if is_some o && d then none else (if e then none else x))
      ≡ (if is_some (if e then some file else o) && d then none else x)
drop-lookup true d file none x h = rw (h refl) refl
drop-lookup true d file (some f) x h = rw (h refl) refl
drop-lookup false d file o x h = refl

keep-lookup :
    (e d : Bool) (file : File) (o x : Option File)
    → (e ≡ true → d ≡ false)
    → (if is_some o && d then none else x)
      ≡ (if is_some (if e then some file else o) && d then none else x)
keep-lookup true d file none x h = rw (h refl) refl
keep-lookup true d file (some f) x h = rw (h refl) refl
keep-lookup false d file o x h = refl

older-ltb : (m n t : ℕ) → ltb m (n - t) ≡ ltb (t + m) n
older-ltb m n t = ground arith

module _ (folder : Folder) (max_age now : ℕ) where
  -- One turn of the loop, without its exceptions.
  gc_path_lem :
      (path : Text) (w : World)
      → gc_path folder max_age now path w
        ≡ (ok tt, (if is_dropped folder max_age now path then drop_incoming path w else w))
  unfolding gc_path
  gc_path_lem path w = go (folder.mtime path) (folder.unlink path)
    where
      go :
          (o : Option ℕ) (u : Option Text)
          → try_except
              (do
                mtime ← lift (stat_mtime o)
                when (ltb max_age (now - mtime)) (
                    returned u
                    >> on_files (λ fs. record fs { incoming = remove path fs.incoming })))
              (λ e. skip)
              w
            ≡ (ok tt, (if is_old o max_age now && is_free u then drop_incoming path w else w))
      go none u = refl
      go (some t) none = rw older-ltb (elim (Bool-cases (ltb (t + max_age) now)) [
        | inl old ↦ rw old refl
        | inr young ↦ rw young refl
      ])
      go (some t) (some m) = rw older-ltb (elim (Bool-cases (ltb (t + max_age) now)) [
        | inl old ↦ rw old refl
        | inr young ↦ rw young refl
      ])

  same_path :
      (path p : Text) (b : Bool)
      → is_dropped folder max_age now path ≡ b
      → text_eq path p ≡ true
      → is_dropped folder max_age now p ≡ b
  same_path path p b d e =
      subst (λ q. is_dropped folder max_age now q ≡ b) ((text_eq_iff path p).0 e) d

  gc_each-Swept :
      (paths : Dict File) (w : World)
      → Swept folder max_age now
          (λ p. is_some (lookup p paths))
          w
          (gc_each folder max_age now paths w)
  unfolding gc_each lookup
  gc_each-Swept [] w = record { returns = refl; db = refl; repo = refl; incoming = λ p. refl }
  gc_each-Swept ((path, file) ∷ paths) w =
      rw (◌>>=◌, gc_path_lem path w)
        (elim (Bool-cases (is_dropped folder max_age now path)) [
          | inl dropped ↦
              let rest = gc_each-Swept paths (drop_incoming path w) in
              rw dropped (record {
                returns = rest.returns;
                db = rest.db;
                repo = rest.repo;
                incoming = λ p.
                    rest.incoming p
                    ∙ rw (lookup-remove path p w.incoming) (
                        drop-lookup (text_eq path p) _ file (lookup p paths) (lookup p w.incoming)
                          (same_path path p true dropped));
              })
          | inr kept ↦
              let rest = gc_each-Swept paths w in
              rw kept (record {
                returns = rest.returns;
                db = rest.db;
                repo = rest.repo;
                incoming = λ p.
                    rest.incoming p
                    ∙ keep-lookup (text_eq path p) _ file (lookup p paths) (lookup p w.incoming)
                        (same_path path p false kept);
              })
        ])

  -- How a sweep ends, by what `is_dir` and `iterdir` do.
  abbrev pub SweptOr : Option Text → Bool → Option Text → World → Result (Unit {0}) × World → Type 0
  SweptOr (some m) b o w r = r ≡ (err (os_error m), w)
  SweptOr none false o w r = r ≡ (ok tt, w)
  SweptOr none true (some m) w r = r ≡ (err (os_error m), w)
  SweptOr none true none w r = Swept folder max_age now (λ p. is_some (lookup p w.incoming)) w r

  -- The sweep raises exactly what `is_dir` or `iterdir` raises, and then nothing has changed.
  -- Where there is no directory, nothing changes. Else it returns, leaves the tables and the
  -- packages as they were, and drops exactly the uploads that are older than the limit and on
  -- which `stat` and `unlink` work.
  pub gc_incoming-SweptOr :
      (w : World)
      → SweptOr folder.is_dir_error folder.is_dir folder.iterdir_error w
          (gc_incoming folder max_age now w)
  unfolding gc_incoming
  gc_incoming-SweptOr w = go folder.is_dir_error folder.is_dir folder.iterdir_error
    where
      go :
          (d : Option Text) (b : Bool) (o : Option Text)
          → SweptOr d b o w ((returned d >> gc_listed folder max_age now b o) w)
      go (some m) b o = refl
      go none false o = refl
      go none true (some m) = refl
      go none true none = gc_each-Swept w.incoming w
