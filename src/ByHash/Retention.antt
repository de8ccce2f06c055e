-- ===== src/ByHash/Retention.antt =====
-- byhash.py: which by-hash files `prepare_by_hash` leaves in a new tree.
use prv_apt_mirror.Prelude.{
  ℕ, ◌+◌, ◌≡◌, refl, subst, Bool, true, List, [], ◌∷◌, Option, arith, All, All-map, text_eq_refl,
  leb,
}
use prv_apt_mirror.Results.{ok-injective}
use prv_apt_mirror.Exec.{Result, ok, err}
use prv_apt_mirror.Host.{Host}
use prv_apt_mirror.Files.Tree.{Dists, HashFile, History}
use prv_apt_mirror.ByHash.{
  retention_seconds, Index, indexes, digest, HashPath, is_path, find_hash, has_hash, Prepared,
  add_hash, keep_current, keep_all, current_paths, retain, retain_all, live_by_hash, live_indexes,
  prepare_by_hash, then_keep, finish_hashes, old_history,
}

is_path_refl : (p : HashPath) → is_path p p ≡ true
is_path_refl (d, x) = ground (arith, text_eq_refl d, text_eq_refl x)

has-add_hash :
    (f : HashFile) (fs : List HashFile) → has_hash (f.dir, f.digest) (add_hash f fs) ≡ true
unfolding find_hash
has-add_hash f fs = ground (arith, is_path_refl (f.dir, f.digest))

add_hash_keeps :
    (p : HashPath) (f : HashFile) (fs : List HashFile)
    → has_hash p fs ≡ true
    → has_hash p (add_hash f fs) ≡ true
unfolding find_hash
add_hash_keeps p f fs e = ground arith

-- what one turn over the old by-hash files keeps
abbrev pub is_young : ℕ → HashFile → Bool
is_young now f = leb now (f.mtime + retention_seconds)

module _ (now : ℕ) (current protected : List HashPath) where
  retain_keeps :
      (p : HashPath) (f : HashFile) (kept : List HashFile)
      → has_hash p kept ≡ true
      → has_hash p (retain now current protected f kept) ≡ true
  unfolding retain
  retain_keeps p f kept e =
      ground (arith, add_hash_keeps p f kept e, add_hash_keeps p (record f { mtime = now }) kept e)

  retain_all_keeps :
      (p : HashPath) (fs kept : List HashFile)
      → has_hash p kept ≡ true
      → has_hash p (retain_all now current protected fs kept) ≡ true
  unfolding retain_all
  retain_all_keeps p [] kept e = e
  retain_all_keeps p (f ∷ fs) kept e =
      retain_all_keeps p fs (retain now current protected f kept) (retain_keeps p f kept e)

  has-retain :
      (f : HashFile) (kept : List HashFile)
      → is_young now f ≡ true
      → has_hash (f.dir, f.digest) (retain now current protected f kept) ≡ true
  unfolding retain
  has-retain f kept e =
      ground (arith, has-add_hash f kept, has-add_hash (record f { mtime = now }) kept)

  has-retain_all :
      (fs kept : List HashFile)
      → All
          (λ f.
            is_young now f ≡ true
            → has_hash (f.dir, f.digest) (retain_all now current protected fs kept) ≡ true)
          fs
  unfolding retain_all
  has-retain_all [] kept = tt
  has-retain_all (f ∷ fs) kept = (
    λ e.
        retain_all_keeps (f.dir, f.digest) fs (retain now current protected f kept)
          (has-retain f kept e),
    has-retain_all fs (retain now current protected f kept),
  )

-- The by-hash files of the indexes, once the loop over them has ended.
abbrev HasAll : Host → List Index → Result Prepared → Type 0
HasAll h is (err e) = Unit
HasAll h is (ok p) = All (λ i. has_hash (i.dir, digest h i) p.by_hash ≡ true) is

abbrev Has : HashPath → Result Prepared → Type 0
Has q (err e) = Unit
Has q (ok p) = has_hash q p.by_hash ≡ true

then_keep-Has :
    (q : HashPath) (f : Prepared → Result Prepared)
    → ((p : Prepared) → has_hash q p.by_hash ≡ true → Has q (f p))
    → (r : Result Prepared) → Has q r
    → Has q (then_keep f r)
then_keep-Has q f g (ok p) e = g p e
then_keep-Has q f g (err x) e = tt

HasAll-cons :
    (h : Host) (i : Index) (is : List Index) (r : Result Prepared)
    → Has (i.dir, digest h i) r
    → HasAll h is r
    → HasAll h (i ∷ is) r
HasAll-cons h i is (ok p) one rest = (one, rest)
HasAll-cons h i is (err x) one rest = tt

then_keep-HasAll :
    (h : Host) (i : Index) (is : List Index) (f : Prepared → Result Prepared)
    → ((p : Prepared)
        → has_hash (i.dir, digest h i) p.by_hash ≡ true
        → Has (i.dir, digest h i) (f p))
    → ((p : Prepared) → HasAll h is (f p))
    → (r : Result Prepared) → Has (i.dir, digest h i) r
    → HasAll h (i ∷ is) (then_keep f r)
then_keep-HasAll h i is f one rest (ok p) e = HasAll-cons h i is (f p) (one p e) (rest p)
then_keep-HasAll h i is f one rest (err x) e = tt

module _ (h : Host) (old : History) (now : ℕ) where
  abbrev file_of : Index → HashFile
  file_of i = record { dir = i.dir; digest = digest h i; content = i.content; mtime = now }

  keep_current_serves :
      (i : Index) (p : Prepared) → Has (i.dir, digest h i) (keep_current h old now i p)
  unfolding keep_current
  keep_current_serves i p = ground (arith, has-add_hash (file_of i) p.by_hash)

  keep_current-Has :
      (q : HashPath) (i : Index) (p : Prepared)
      → has_hash q p.by_hash ≡ true
      → Has q (keep_current h old now i p)
  unfolding keep_current
  keep_current-Has q i p e = ground (arith, add_hash_keeps q (file_of i) p.by_hash e)

  keep_all-Has :
      (q : HashPath) (is : List Index) (p : Prepared)
      → has_hash q p.by_hash ≡ true
      → Has q (keep_all h old now is p)
  unfolding keep_all
  keep_all-Has q [] p e = e
  keep_all-Has q (i ∷ is) p e =
      then_keep-Has q (keep_all h old now is) (λ p' e'. keep_all-Has q is p' e')
        (keep_current h old now i p) (keep_current-Has q i p e)

  keep_all-HasAll : (is : List Index) (p : Prepared) → HasAll h is (keep_all h old now is p)
  unfolding keep_all
  keep_all-HasAll [] p = tt
  keep_all-HasAll (i ∷ is) p =
      then_keep-HasAll h i is (keep_all h old now is)
        (λ p' e. keep_all-Has (i.dir, digest h i) is p' e) (λ p'. keep_all-HasAll is p')
        (keep_current h old now i p) (keep_current_serves i p)

-- What `prepare_by_hash` promises of the new tree.
pub record IsServed (h : Host) (staged : Dists) (live : Option Dists) (now : ℕ) (d : Dists)
    : Type 0 where
  -- every index of the new tree can be fetched by its digest
  pub current : All (λ i. has_hash (i.dir, digest h i) d.by_hash ≡ true) (indexes h staged)
  -- and so can every by-hash file of the old tree for seven days
  pub young :
      All
        (λ f. is_young now f ≡ true → has_hash (f.dir, f.digest) d.by_hash ≡ true)
        (live_by_hash live)
  pub same_indexes : d.by_arch ≡ staged.by_arch

-- When `prepare_by_hash` returns, the new tree has a by-hash file under the digest of each of
-- its own indexes, and under the name of each by-hash file of the old tree whose time is at most
-- seven days back. The rows of the tree are as before.
pub prepare_by_hash-IsServed :
    (h : Host) (staged : Dists) (live : Option Dists) (now : ℕ) (d : Dists)
    → prepare_by_hash h staged live now ≡ ok d
    → IsServed h staged live now d
unfolding prepare_by_hash
prepare_by_hash-IsServed h staged live now d e =
    go (keep_all h (old_history live) now (indexes h staged) start)
      (keep_all-HasAll h (old_history live) now (indexes h staged) start) e
  where
    start : Prepared
    start = record { history = []; protected = []; by_hash = staged.by_hash }

    go :
        (r : Result Prepared)
        → HasAll h (indexes h staged) r
        → finish_hashes h staged live now r ≡ ok d
        → IsServed h staged live now d
    go (err x) has done = cc
    go (ok p) has done = subst (IsServed h staged live now) (ok-injective done) (record {
      current =
          All-map
            (λ i here.
              retain_all_keeps now (current_paths h (live_indexes h live)) p.protected
                (i.dir, digest h i) (live_by_hash live) p.by_hash here)
            (indexes h staged) has;
      young =
          has-retain_all now (current_paths h (live_indexes h live)) p.protected (live_by_hash live)
            p.by_hash;
      same_indexes = refl;
    })
