-- ===== src/Exec.antt =====
-- Functions that read and write the database and the files and that may raise. What was written
-- before a raise stays written, so the state comes back beside the error too.
use prv_apt_mirror.Prelude.{ℕ, Text, codes, ◌++◌}

-- The exceptions, one constructor for each class that some handler tells apart.
pub data Error : Type 0 where
  duplicate_package : Text → Text → Text → Error
  os_error publish_error signing_error value_error deb_parse_error disk_full : Text → Error
  integrity_error runtime_error validation_error other_error : Text → Error
  http_error : ℕ → Text → Error

-- `str(exc)`
unfoldable pub message : Error → Text
message (duplicate_package n v a) = n ++ codes " " ++ v ++ codes " " ++ a ++ codes " already exists"
message (os_error m) = m
message (publish_error m) = m
message (signing_error m) = m
message (value_error m) = m
message (deb_parse_error m) = m
message (disk_full m) = m
message (integrity_error m) = m
message (runtime_error m) = m
message (validation_error m) = m
message (other_error m) = m
message (http_error status m) = m

pub data Result {ℓ} (A : Type ℓ) : Type ℓ where
  ok : A → Result A
  err : Error → Result A

abbrev pub Exec {ℓ} : Type ℓ → Type ℓ → Type ℓ
Exec S A = S → Result A × S

module _ {ℓ} {S A : Type ℓ} where
  abbrev pub pure : A → Exec S A
  pure a s = (ok a, s)

  abbrev pub raise : Error → Exec S A
  raise e s = (err e, s)

  abbrev pub lift : Result A → Exec S A
  lift r s = (r, s)

  abbrev pub gets : (S → A) → Exec S A
  gets f s = (ok (f s), s)

module _ {ℓ} {S : Type ℓ} where
  abbrev pub modify : (S → S) → Exec S (Unit {ℓ})
  modify f s = (ok tt, f s)

  abbrev pub skip : Exec S (Unit {ℓ})
  skip s = (ok tt, s)

module _ {ℓ} {S A B : Type ℓ} where
  abbrev pub continue : Result A → (A → Exec S B) → Exec S B
  continue (ok a) f s = f a s
  continue (err e) f s = (err e, s)

  infixl 5 ◌>>=◌ ◌>>◌
  abbrev pub ◌>>=◌ : Exec S A → (A → Exec S B) → Exec S B
  ◌>>=◌ m f s = let (r, s') = m s in continue r f s'

  abbrev pub ◌>>◌ : Exec S A → Exec S B → Exec S B
  m >> n = m >>= λ _. n

abbrev pub ended_by {ℓ} : {A : Type ℓ} → Result A → Result (Unit {ℓ}) → Result A
ended_by r (ok u) = r
ended_by r (err e) = err e

module _ {ℓ} {S A : Type ℓ} where
  abbrev pub caught : Result A → (Error → Exec S A) → Exec S A
  caught (ok a) f s = (ok a, s)
  caught (err e) f s = f e s

  -- `try: m` with `except Exception as exc: f exc`
  abbrev pub try_except : Exec S A → (Error → Exec S A) → Exec S A
  try_except m f s = let (r, s') = m s in caught r f s'

  -- `except Exception: c; raise`
  abbrev pub on_error : Exec S A → Exec S (Unit {ℓ}) → Exec S A
  on_error m c = try_except m (λ e. c >> raise e)

  -- `try: m` with `finally: f`; what `f` raises takes the place of the result
  abbrev pub finally : Exec S A → Exec S (Unit {ℓ}) → Exec S A
  finally m f s = let (r, s') = m s in let (u, s'') = f s' in (ended_by r u, s'')
