-- ===== src/ByHash.antt =====
-- byhash.py: `prepare_by_hash` fills the by-hash directories of a new tree, from its own indexes
-- and from the tree that it replaces. Times are seconds; `live` is none when there is no `dists`.
pub mod Retention
mod Tests
use prv_apt_mirror.Prelude.{
  ℕ, ◌+◌, ◌*◌, Text, codes, Bool, true, false, ◌&&◌, not, List, [], ◌∷◌, ◌++◌, map, Option, none,
  some, Dict, lookup, insert, text_eq, is_hex, if◌then◌else◌, any, all, length, ◌==◌, ltb, filter,
  take,
}
use prv_apt_mirror.Exec.{Result, ok, err, value_error}
use prv_apt_mirror.Host.{Host}
use prv_apt_mirror.Db.Packages.{PackageRow}
use prv_apt_mirror.Files.Tree.{Dists, HashFile, History}
use prv_apt_mirror.Indexer.{render_packages, render_arch_release}

abbrev pub retention_seconds : ℕ
retention_seconds = 7 * 86400

-- One file Packages, Packages.gz or Release: its directory, its name and its bytes.
pub record Index : Type 0 where
  pub dir : Text
  pub file_name : Text
  pub content : Text

index_dir : Dists → Text → Text
index_dir d arch = d.suite ++ codes "/" ++ d.component ++ codes "/binary-" ++ arch

arch_indexes : Host → Dists → Text → List PackageRow → List Index
unfolding index_dir
arch_indexes h d arch rows =
    record {
      dir = index_dir d arch;
      file_name = codes "Packages";
      content = render_packages h rows;
    }
    ∷ record {
      dir = index_dir d arch;
      file_name = codes "Packages.gz";
      content = h.gzip (render_packages h rows);
    }
    ∷ record {
      dir = index_dir d arch;
      file_name = codes "Release";
      content = render_arch_release h d arch;
    }
    ∷ []

tree_indexes : Host → Dists → Dict (List PackageRow) → List Index
unfolding arch_indexes
tree_indexes h d [] = []
tree_indexes h d ((arch, rows) ∷ rest) = arch_indexes h d arch rows ++ tree_indexes h d rest

-- `staged.glob("*/*/binary-*/*")`, the three names of it that count
unfoldable pub indexes : Host → Dists → List Index
unfolding tree_indexes
indexes h d = tree_indexes h d d.by_arch

abbrev pub relative : Index → Text
relative i = i.dir ++ codes "/" ++ i.file_name

abbrev pub digest : Host → Index → Text
digest h i = h.sha256_hex i.content

-- a path <dir>/by-hash/SHA256/<digest>
abbrev pub HashPath : Type 0
HashPath = Text × Text

abbrev pub is_path : HashPath → HashPath → Bool
is_path (d, x) (e, y) = text_eq d e && text_eq x y

unfoldable pub find_hash : HashPath → List HashFile → Option HashFile
find_hash p [] = none
find_hash p (f ∷ fs) = if is_path (f.dir, f.digest) p then some f else find_hash p fs

abbrev pub has_hash : HashPath → List HashFile → Bool
has_hash p fs = elim (find_hash p fs) [ none ↦ false | some f ↦ true ]

-- `re.fullmatch(r"[0-9a-f]{64}", value)`
abbrev pub is_digest : Text → Bool
is_digest value = length value == 64 && all is_hex value

-- `dict.fromkeys`: each value once, at its first place
unfoldable pub dedup : List Text → List Text
dedup [] = []
dedup (x ∷ xs) = x ∷ filter (λ y. not (text_eq x y)) (dedup xs)

pub record Prepared : Type 0 where
  pub history : History
  pub protected : List HashPath
  pub by_hash : List HashFile

abbrev previous_versions : Text → History → List Text
previous_versions path old = elim (lookup path old) [ none ↦ [] | some vs ↦ vs ]

-- `list(dict.fromkeys([digest, *previous]))[:3]`
unfoldable pub versions_of : Host → History → Index → List Text
unfolding dedup
versions_of h old i = take 3 (dedup (digest h i ∷ previous_versions (relative i) old))

-- `if not destination.exists(): ...`
abbrev pub add_hash : HashFile → List HashFile → List HashFile
add_hash f fs = if has_hash (f.dir, f.digest) fs then fs else f ∷ fs

-- one turn of the loop over the indexes of the new tree
unfoldable pub keep_current : Host → History → ℕ → Index → Prepared → Result Prepared
unfolding versions_of
keep_current h old now i p =
    if not (all is_digest (previous_versions (relative i) old))
    then err (value_error (codes "invalid by-hash history"))
    else ok (record {
      history = insert (relative i) (versions_of h old i) p.history;
      protected = p.protected ++ map (λ v. (i.dir, v)) (versions_of h old i);
      by_hash =
          add_hash (record { dir = i.dir; digest = digest h i; content = i.content; mtime = now })
            p.by_hash;
    })

abbrev pub then_keep : (Prepared → Result Prepared) → Result Prepared → Result Prepared
then_keep f (ok p) = f p
then_keep f (err e) = err e

unfoldable pub keep_all : Host → History → ℕ → List Index → Prepared → Result Prepared
keep_all h old now [] p = ok p
keep_all h old now (i ∷ is) p = then_keep (keep_all h old now is) (keep_current h old now i p)

-- the paths of `previous_current`
abbrev pub current_paths : Host → List Index → List HashPath
current_paths h = map (λ i. (i.dir, digest h i))

-- One turn of the loop over the by-hash files of the old tree. A file that stops being current is
-- copied with a new time; another is linked, with the time that it had.
unfoldable pub retain : ℕ → List HashPath → List HashPath → HashFile → List HashFile → List HashFile
retain now current protected old kept =
    let path : HashPath = (old.dir, old.digest) in
    let retiring = any (λ p. is_path path p) current in
    if not retiring
      && not (any (λ p. is_path path p) protected)
      && ltb (old.mtime + retention_seconds) now
    then kept
    else add_hash (if retiring then record old { mtime = now } else old) kept

unfoldable pub retain_all :
    ℕ → List HashPath → List HashPath → List HashFile → List HashFile → List HashFile
retain_all now current protected [] kept = kept
retain_all now current protected (f ∷ fs) kept =
    retain_all now current protected fs (retain now current protected f kept)

abbrev pub live_by_hash : Option Dists → List HashFile
live_by_hash none = []
live_by_hash (some d) = d.by_hash

abbrev pub live_indexes : Host → Option Dists → List Index
live_indexes h none = []
live_indexes h (some d) = indexes h d

abbrev no_history : Option History → History
no_history none = []
no_history (some x) = x

abbrev pub old_history : Option Dists → History
old_history none = []
old_history (some d) = no_history d.history

abbrev pub finish_hashes : Host → Dists → Option Dists → ℕ → Result Prepared → Result Dists
finish_hashes h staged live now (err e) = err e
finish_hashes h staged live now (ok p) = ok (record staged {
  by_hash =
      retain_all now (current_paths h (live_indexes h live)) p.protected (live_by_hash live)
        p.by_hash;
  history = some p.history;
})

unfoldable pub prepare_by_hash : Host → Dists → Option Dists → ℕ → Result Dists
prepare_by_hash h staged live now = finish_hashes h staged live now (
    keep_all h (old_history live) now (indexes h staged)
      (record { history = []; protected = []; by_hash = staged.by_hash }))
