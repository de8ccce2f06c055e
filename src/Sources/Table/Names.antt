-- ===== src/Sources/Table/Names.antt =====
-- sources.py: what creating and updating a source leave in the table: an id and a name for each row
-- that no other row has.
use prv_apt_mirror.Prelude.{
  ℕ, ◌≤◌, ◌+◌, ◌≡◌, refl, Text, Bool, true, false, not, ◌&&◌, List, [], ◌∷◌, ◌++◌, map, Option,
  none, some, arith, All, All-map, text_eq, text_eq_iff, ◌==◌, if_elim, if◌then◌else◌, next_id,
  All-le-max_id, Dict,
}
use prv_apt_mirror.Exec.{Result, ok, err}
use prv_apt_mirror.Host.{Host}
use prv_apt_mirror.Config.{Config}
use prv_apt_mirror.Db.Sources.{SourceRow, get_source, update_source_row}
use prv_apt_mirror.Sources.{Clean, validate_source_values}
use prv_apt_mirror.Sources.Table.{
  fold, is_taken, insert_source, create_clean, create_source, store_update, update_clean,
  update_found, update_source, updated_source,
}

-- what tells two rows apart: the id, and the name but for the case of its letters
abbrev pub Identity : Type 0
Identity = ℕ × Text

abbrev pub identity : SourceRow → Identity
identity s = (s.id, fold s.name)

abbrev pub is_apart : Identity → Identity → Bool
is_apart (i, n) (j, m) = not (i == j) && not (text_eq n m)

abbrev pub AllApart : List Identity → Type 0
AllApart [] = Unit
AllApart (k ∷ ks) = All (λ l. is_apart k l ≡ true) ks × AllApart ks

-- No two rows have the same id or the same name.
abbrev pub AreNamed : List SourceRow → Type 0
AreNamed rows = AllApart (map identity rows)

-- No row of the list has the identity, or shares a part of it.
abbrev pub ApartFrom : Identity → List SourceRow → Type 0
ApartFrom k = All (λ r. is_apart (identity r) k ≡ true)

map-snoc :
    (k : Identity) (rows : List SourceRow) (s : SourceRow)
    → All (λ l. is_apart k l ≡ true) (map identity rows)
    → is_apart k (identity s) ≡ true
    → All (λ l. is_apart k l ≡ true) (map identity (rows ++ s ∷ []))
map-snoc k [] s h e = (e, tt)
map-snoc k (r ∷ rows) s h e = (h.0, map-snoc k rows s h.1 e)

AreNamed-snoc :
    (rows : List SourceRow) (s : SourceRow)
    → AreNamed rows
    → ApartFrom (identity s) rows
    → AreNamed (rows ++ s ∷ [])
AreNamed-snoc [] s h f = (tt, tt)
AreNamed-snoc (r ∷ rows) s h f =
    (map-snoc (identity r) rows s h.0 f.0, AreNamed-snoc rows s h.1 f.1)

ApartFrom-fresh :
    (i : ℕ) (name : Text) (rows : List SourceRow)
    → All (λ r. r.id + 1 ≤ i) rows
    → is_taken i name rows ≡ false
    → ApartFrom (i, fold name) rows
unfolding is_taken
ApartFrom-fresh i name [] h e = tt
ApartFrom-fresh i name (r ∷ rows) h e =
    (ground (arith, h.0), ApartFrom-fresh i name rows h.1 (ground arith))

insert_source-AreNamed :
    (now : ℕ) (clean : Clean) (token : Option Text) (rows : List SourceRow)
    → AreNamed rows
    → AreNamed (insert_source now clean token rows).1
insert_source-AreNamed now clean token rows h =
    if_elim (λ (p : Result SourceRow × List SourceRow). AreNamed p.1)
      (is_taken (next_id (λ s. s.id) rows) clean.name rows) _ _ (λ _. h)
      λ free. AreNamed-snoc rows _ h (
        ApartFrom-fresh _ clean.name rows
          (All-map (λ r le. omega arith) rows (All-le-max_id (λ s. s.id) rows)) free)

create_clean-AreNamed :
    (h : Host) (cfg : Config) (now : ℕ) (token : Text) (r : Result Clean) (rows : List SourceRow)
    → AreNamed rows
    → AreNamed (create_clean h cfg now token r rows).1
create_clean-AreNamed h cfg now token (err e) rows named = named
create_clean-AreNamed h cfg now token (ok clean) rows named =
    insert_source-AreNamed now clean _ rows named

pub create_source-AreNamed :
    (h : Host) (cfg : Config) (now : ℕ) (values : Dict Text) (token : Text) (rows : List SourceRow)
    → AreNamed rows
    → AreNamed (create_source h cfg now values token rows).1
unfolding create_source
create_source-AreNamed h cfg now values token rows =
    create_clean-AreNamed h cfg now token (validate_source_values h values) rows

-- what an update of the row with the id does to an identity
abbrev rekey : ℕ → Text → Identity → Identity
rekey i n (j, m) = if j == i then (i, n) else (j, m)

abbrev is_free : ℕ → Text → Identity → Bool
is_free i n (j, m) = not (not (j == i) && text_eq m n)

rekey_apart :
    (i : ℕ) (n : Text) (k l : Identity)
    → is_free i n k ≡ true
    → is_free i n l ≡ true
    → is_apart k l ≡ true
    → is_apart (rekey i n k) (rekey i n l) ≡ true
rekey_apart i n (j, a) (m, b) fk fl h =
    ground (arith, text_eq_iff a n, text_eq_iff n b, text_eq_iff b n)

rekey_each :
    (i : ℕ) (n : Text) (k : Identity) (ks : List Identity)
    → is_free i n k ≡ true
    → All (λ l. is_free i n l ≡ true) ks
    → All (λ l. is_apart k l ≡ true) ks
    → All (λ l. is_apart (rekey i n k) l ≡ true) (map (rekey i n) ks)
rekey_each i n k [] fk fs h = tt
rekey_each i n k (l ∷ ks) fk fs h =
    (rekey_apart i n k l fk fs.0 h.0, rekey_each i n k ks fk fs.1 h.1)

rekey-AllApart :
    (i : ℕ) (n : Text) (ks : List Identity)
    → All (λ l. is_free i n l ≡ true) ks
    → AllApart ks
    → AllApart (map (rekey i n) ks)
rekey-AllApart i n [] fs h = tt
rekey-AllApart i n (k ∷ ks) fs h =
    (rekey_each i n k ks fs.0 fs.1 h.0, rekey-AllApart i n ks fs.1 h.1)

identity_updated :
    (i : ℕ) (n : Text) (s t : SourceRow)
    → identity t ≡ (s.id, n)
    → identity (if s.id == i then t else s) ≡ rekey i n (identity s)
identity_updated i n s t e = ground arith

map-update :
    (i : ℕ) (name : Text) (f : SourceRow → SourceRow) (rows : List SourceRow)
    → ((s : SourceRow) → identity (f s) ≡ (s.id, fold name))
    → map identity (update_source_row i f rows) ≡ map (rekey i (fold name)) (map identity rows)
unfolding update_source_row
map-update i name f [] e = refl
map-update i name f (r ∷ rows) e =
    let first = identity_updated i (fold name) r (f r) (e r) in
    let rest = map-update i name f rows e in cc

all_free :
    (i : ℕ) (name : Text) (rows : List SourceRow)
    → is_taken i name rows ≡ false
    → All (λ l. is_free i (fold name) l ≡ true) (map identity rows)
unfolding is_taken
all_free i name [] e = tt
all_free i name (r ∷ rows) e = (ground arith, all_free i name rows (ground arith))

store_update-AreNamed :
    (i now : ℕ) (clean : Clean) (token : Option Text) (rows : List SourceRow)
    → AreNamed rows
    → AreNamed (store_update i now clean token rows).1
store_update-AreNamed i now clean token rows h =
    if_elim (λ (p : Result SourceRow × List SourceRow). AreNamed p.1) (is_taken i clean.name rows) _
      _ (λ _. h)
      λ free.
        rw (map-update i clean.name (updated_source now clean token) rows (λ s. refl)) (
          rekey-AllApart i (fold clean.name) (map identity rows) (all_free i clean.name rows free)
            h)

update_clean-AreNamed :
    (h : Host) (cfg : Config) (now : ℕ) (token : Text) (clear : Bool) (current : SourceRow)
    (r : Result Clean) (rows : List SourceRow)
    → AreNamed rows
    → AreNamed (update_clean h cfg now token clear current r rows).1
update_clean-AreNamed h cfg now token clear current (err e) rows named = named
update_clean-AreNamed h cfg now token clear current (ok clean) rows named =
    store_update-AreNamed current.id now clean _ rows named

update_found-AreNamed :
    (h : Host) (cfg : Config) (now : ℕ) (values : Dict Text) (token : Text) (clear : Bool)
    (o : Option SourceRow) (rows : List SourceRow)
    → AreNamed rows
    → AreNamed (update_found h cfg now values token clear o rows).1
update_found-AreNamed h cfg now values token clear none rows named = named
update_found-AreNamed h cfg now values token clear (some current) rows named =
    update_clean-AreNamed h cfg now token clear current (validate_source_values h values) rows named

pub update_source-AreNamed :
    (h : Host) (cfg : Config) (now source_id : ℕ) (values : Dict Text) (token : Text) (clear : Bool)
    (rows : List SourceRow)
    → AreNamed rows
    → AreNamed (update_source h cfg now source_id values token clear rows).1
unfolding update_source
update_source-AreNamed h cfg now source_id values token clear rows =
    update_found-AreNamed h cfg now values token clear (get_source rows source_id) rows
