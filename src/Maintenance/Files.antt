-- ===== src/Maintenance/Files.antt =====
-- maintenance.py: which backups the check of the package files accepts.
use prv_apt_mirror.Prelude.{
  ◌≡◌, ◌≢◌, ◌∙◌, ap, refl, Text, Bool, true, false, ◌||◌, List, [], ◌∷◌, Option, none, some, lookup,
  text_eq, text_eq_iff, text_eq_sound, Bool-cases, inl, inr, if◌then◌else◌, All, any, starts_with,
  subst, sym, not, codes, arith,
}
use mathlib.Core.Bool.{false≢true}
use prv_apt_mirror.Exec.{Result, ok, err, ◌>>◌, continue, raise, value_error, os_error, Error}
use prv_apt_mirror.Host.{Host}
use prv_apt_mirror.Files.{File}
use prv_apt_mirror.Db.Packages.{PackageRow, PackageState, active, pending_delete, missing, state_eq}
use prv_apt_mirror.World.{World, Io, Faults, Call, returned, call, stat_blob, when}
use prv_apt_mirror.Maintenance.{
  in_pool, path_parts, is_invalid, path_text, check_blob, check_package_file, check_each,
  check_package_files,
}

-- A file with the digest of the row is there, or none is there and the package is not active.
abbrev pub HasBlob : Host → PackageRow → Option File → Type 0
HasBlob h row none = row.state ≢ active
HasBlob h row (some blob) = h.sha256_hex blob.content ≡ row.sha256

-- The path is a relative one whose first part is "pool", and no part of it is "..".
pub record IsPoolPath (filename : Text) : Type 0 where
  pub relative : starts_with filename (codes "/") ≡ false
  pub rest : List Text
  pub parts : path_parts filename ≡ codes "pool" ∷ rest
  pub inside : All (λ p. p ≢ codes "..") rest

abbrev pub IsBacked : Host → World → PackageRow → Type 0
IsBacked h w row = IsPoolPath row.filename × HasBlob h row (lookup (path_text row.filename) w.repo)

-- Why a check of `P` raises: `P` does not hold, or a call of the system fails.
pub data Blamed (os : Faults) (P : Type 0) : Error → Type 0 where
  refuted : (m : Text) → ¬ P → Blamed os P (value_error m)
  call_failed : (c : Call) (m : Text) → os c ≡ some m → Blamed os P (os_error m)

-- A check of `P` that changes nothing: it returns and `P` holds, or it raises for such a reason.
abbrev pub Judged : Faults → Type 0 → World → Result (Unit {0}) × World → Type 0
Judged os P w (ok _, w') = (w' ≡ w) × P
Judged os P w (err e, w') = (w' ≡ w) × Blamed os P e

module _ (os : Faults) where
  Blamed-map : (P Q : Type 0) (e : Error) → (Q → P) → Blamed os P e → Blamed os Q e
  Blamed-map P Q _ from (refuted m no_p) = refuted m (λ q. no_p (from q))
  Blamed-map P Q _ from (call_failed c m fails) = call_failed c m fails

module _ (os : Faults) (w : World) where
  when-Judged :
      (P : Type 0) (b : Bool) (m : Text)
      → (b ≡ true → ¬ P)
      → (b ≡ false → P)
      → Judged os P w (when b (raise (value_error m)) w)
  when-Judged P true m refutes proves = (refl, refuted m (refutes refl))
  when-Judged P false m refutes proves = (refl, proves refl)

  Judged-map :
      (P Q : Type 0) (r : Result (Unit {0}) × World)
      → (P → Q)
      → (Q → P)
      → Judged os P w r
      → Judged os Q w r
  Judged-map P Q (ok x, v) to from j = (j.0, to j.1)
  Judged-map P Q (err e, v) to from j = (j.0, Blamed-map os P Q e from j.1)

  call-Judged :
      (P : Type 0) (c : Call) (m : Io (Unit {0}))
      → Judged os P w (m w)
      → Judged os P w ((call os c >> m) w)
  call-Judged P c m j = go (os c) refl
    where
      go : (o : Option Text) → os c ≡ o → Judged os P w ((returned o >> m) w)
      go none e = j
      go (some text) e = (refl, call_failed c text e)

  then-Judged :
      (P Q : Type 0) (m n : Io (Unit {0}))
      → Judged os P w (m w)
      → Judged os Q w (n w)
      → Judged os (P × Q) w ((m >> n) w)
  then-Judged P Q m n hm hn = go (m w) hm
    where
      go :
          (r : Result (Unit {0}) × World)
          → Judged os P w r
          → Judged os (P × Q) w (continue r.0 (λ _. n) r.1)
      go (ok x, v) j =
          subst (λ u. Judged os (P × Q) w (n u)) (sym j.0)
            (Judged-map Q (P × Q) (n w) (λ q. (j.1, q)) (λ both. both.1) hn)
      go (err e, v) j = (j.0, Blamed-map os P (P × Q) e (λ both. both.0) j.1)

state_eq_active : (s : PackageState) → state_eq s active ≡ true → s ≡ active
state_eq_active active h = refl
state_eq_active pending_delete h = cc
state_eq_active missing h = cc

rejects_active : (s : PackageState) → state_eq s active ≡ false → s ≢ active
rejects_active active e = λ same. cc
rejects_active pending_delete e = λ same. cc
rejects_active missing e = λ same. cc

not_flips : (b : Bool) → not b ≡ false → b ≡ true
not_flips true e = refl
not_flips false e = cc

differs_sound : (s t : Text) (b : Bool) → text_eq s t ≡ b → b ≡ false → s ≢ t
differs_sound s t true e f = cc
differs_sound s t false e f = λ same. absurd (false≢true (sym e ∙ (text_eq_iff s t).1 same))

check_blob-Judged :
    (h : Host) (os : Faults) (w : World) (row : PackageRow) (o : Option File)
    → Judged os (HasBlob h row o) w (check_blob h os row o w)
check_blob-Judged h os w row none =
    when-Judged os w _ (state_eq row.state active) _
      (λ e differs. differs (state_eq_active row.state e)) (rejects_active row.state)
check_blob-Judged h os w row (some blob) = call-Judged os w _ _ _ (
    when-Judged os w _ (not (text_eq (h.sha256_hex blob.content) row.sha256)) _
      (λ e. differs_sound _ _ _ refl (ground arith)) (λ e. text_eq_sound _ _ (not_flips _ e)))

-- What the test of the path rejects.
no_dots :
    (parts : List Text)
    → any (λ p. text_eq p (codes "..")) parts ≡ false
    → All (λ p. p ≢ codes "..") parts
no_dots [] e = tt
no_dots (p ∷ ps) e = (differs_sound p (codes "..") _ refl (ground arith), no_dots ps (ground arith))

some_dots :
    (parts : List Text)
    → All (λ p. p ≢ codes "..") parts
    → any (λ p. text_eq p (codes "..")) parts ≡ false
some_dots [] h = refl
some_dots (p ∷ ps) h = elim (Bool-cases (text_eq p (codes ".."))) [
  | inl same ↦ absurd (h.0 (text_eq_sound p (codes "..") same))
  | inr other ↦ rw other (some_dots ps h.1)
]

all_three : (a b c : Bool) → (a || b || not c) ≡ false → (a ≡ false) × (b ≡ false) × (c ≡ true)
all_three a b c e = (ground arith, ground arith, ground arith)

first_pool :
    (parts : List Text)
    → in_pool parts ≡ true
    → All (λ p. p ≢ codes "..") parts
    → (rest : List Text) × (parts ≡ codes "pool" ∷ rest) × All (λ p. p ≢ codes "..") rest
first_pool [] e inside = absurd (false≢true e)
first_pool (p ∷ ps) e inside = (ps, ap (λ q. q ∷ ps) (text_eq_sound p (codes "pool") e), inside.1)

valid-IsPoolPath : (filename : Text) → is_invalid filename ≡ false → IsPoolPath filename
unfolding is_invalid
valid-IsPoolPath filename e =
    let (relative, dots, pool) = all_three _ _ _ e in
    let (rest, parts, inside) =
      first_pool (path_parts filename) pool (no_dots (path_parts filename) dots) in
    record { relative = relative; rest = rest; parts = parts; inside = inside }

IsPoolPath-valid : (filename : Text) → IsPoolPath filename → is_invalid filename ≡ false
unfolding is_invalid
IsPoolPath-valid filename pool =
    rw (pool.relative, pool.parts) (rw (some_dots pool.rest pool.inside) refl)

module _ (h : Host) (os : Faults) (w : World) where
  check_package_file-Judged :
      (row : PackageRow) → Judged os (IsBacked h w row) w (check_package_file h os row w)
  unfolding check_package_file
  check_package_file-Judged row = go (is_invalid row.filename) refl
    where
      go :
          (b : Bool)
          → is_invalid row.filename ≡ b
          → Judged os (IsBacked h w row) w (
              (if b
                  then raise (value_error (codes "invalid package path in backup database"))
                  else call os (stat_blob (path_text row.filename))
                    >> check_blob h os row (lookup (path_text row.filename) w.repo))
                w)
      go true e = (
        refl,
        refuted _ (λ backed. false≢true (sym (IsPoolPath-valid row.filename backed.0) ∙ e)),
      )
      go false e = call-Judged os w _ _ _ (
          Judged-map os w (HasBlob h row (lookup (path_text row.filename) w.repo)) _ _
            (λ blob. (valid-IsPoolPath row.filename e, blob)) (λ backed. backed.1)
            (check_blob-Judged h os w row _))

  check_each-Judged :
      (rows : List PackageRow) → Judged os (All (IsBacked h w) rows) w (check_each h os rows w)
  unfolding check_each
  check_each-Judged [] = (refl, tt)
  check_each-Judged (row ∷ rows) =
      then-Judged os w _ _ (check_package_file h os row) (check_each h os rows)
        (check_package_file-Judged row) (check_each-Judged rows)

-- The check of the package files changes nothing. If it returns, each row of the database names
-- a relative path whose first part is "pool" and of which no part is "..", and there lies a file
-- with the digest of the row, or none lies there and the row is not active. If it raises a
-- ValueError, this is not so; else it raises what a call on a file raised.
pub check_package_files-Judged :
    (h : Host) (os : Faults) (w : World)
    → Judged os (All (IsBacked h w) w.packages) w (check_package_files h os w)
unfolding check_package_files
check_package_files-Judged h os w = check_each-Judged h os w w.packages
