-- ===== src/SourceSync/Directory/Latest.antt =====
-- source_sync.py: what `_latest_directory_candidates` selects.
use prv_apt_mirror.Prelude.{
  ◌≡◌, refl, Text, Bool, true, false, ◌&&◌, ◌||◌, not, List, [], ◌∷◌, map, any, All, All-map,
  All_every, Option, none, some, arith, text_eq, text_eq_iff, text_eq_refl, if_elim,
}
use prv_apt_mirror.Host.{Host}
use prv_apt_mirror.SourceSync.Directory.{
  DebIdentity, Candidate, Entry, same_key, put_latest, entry_of, put_candidate, latest_of,
  insert_entry, key_lt, sorted_entries, latest_directory_candidates,
}

-- What python-debian's order of versions is relied on for.
pub record IsVersionOrder (lt : Text → Text → Bool) : Type 0 where
  pub irreflexive : (a : Text) → lt a a ≡ false
  pub transitive : (a b c : Text) → lt a b ≡ true → lt b c ≡ true → lt a c ≡ true

-- An entry for the same package and architecture that is not older.
abbrev stands_for : Host → DebIdentity → Entry → Bool
stands_for h i e =
    text_eq e.package_name i.package_name
    && text_eq e.architecture i.architecture
    && not (h.version_lt e.version i.version)

abbrev stands_for_some : Host → DebIdentity → Option DebIdentity → Bool
stands_for_some h i none = false
stands_for_some h i (some j) =
    text_eq j.package_name i.package_name
    && text_eq j.architecture i.architecture
    && not (h.version_lt j.version i.version)

-- A candidate for the same package and architecture that is not older.
abbrev pub stands_for_file : Host → DebIdentity → Candidate → Bool
stands_for_file h i c = stands_for_some h i c.identity

-- A matching candidate has a selected one for its package and architecture that is not older.
abbrev pub IsCovered : Host → List Candidate → Candidate → Type 0
IsCovered h out c =
    (i : DebIdentity)
    → c.identity ≡ some i
    → c.pattern_matches ≡ true
    → any (stands_for_file h i) out ≡ true

abbrev pub key_eq : Option DebIdentity → Option DebIdentity → Bool
key_eq (some i) (some j) =
    text_eq i.package_name j.package_name && text_eq i.architecture j.architecture
key_eq _ _ = false

abbrev pub HaveKeys : List Candidate → Type 0
HaveKeys [] = Unit
HaveKeys (c ∷ cs) = All (λ d. key_eq c.identity d.identity ≡ false) cs × HaveKeys cs

-- What is selected from `cs`: of the files that match, one for each package and architecture, none
-- of which is older than another file that matches.
pub record IsSelection (h : Host) (cs out : List Candidate) : Type 1 where
  pub covers : All (IsCovered h out) cs
  pub matching : All (λ d. d.pattern_matches ≡ true) out
  pub once : HaveKeys out
  pub chosen : (P : Candidate → Type 0) → All P cs → All P out

-- what is true of each entry that was put
record IsOwn (e : Entry) : Type 0 where
  matches : e.candidate.pattern_matches ≡ true
  same :
      e.candidate.identity
      ≡ some (record {
        package_name = e.package_name;
        version = e.version;
        architecture = e.architecture;
      })

abbrev Apart : List Entry → Type 0
Apart [] = Unit
Apart (e ∷ es) = All (λ f. same_key e f ≡ false) es × Apart es

insert_entry-All :
    (P : Entry → Type 0) (e : Entry) (es : List Entry) → P e → All P es → All P (insert_entry e es)
unfolding insert_entry
insert_entry-All P e [] p ps = (p, tt)
insert_entry-All P e (f ∷ fs) p ps =
    if_elim (All P) (key_lt f e) _ _ (λ _. (ps.0, insert_entry-All P e fs p ps.1)) (λ _. (p, ps))

sorted_entries-All : (P : Entry → Type 0) (es : List Entry) → All P es → All P (sorted_entries es)
unfolding sorted_entries
sorted_entries-All P [] ps = tt
sorted_entries-All P (e ∷ es) ps =
    insert_entry-All P e (sorted_entries es) ps.0 (sorted_entries-All P es ps.1)

any-insert :
    (p : Entry → Bool) (e : Entry) (es : List Entry) → any p (insert_entry e es) ≡ (p e || any p es)
unfolding insert_entry
any-insert p e [] = refl
any-insert p e (f ∷ fs) = ground (arith, any-insert p e fs)

any-sorted : (p : Entry → Bool) (es : List Entry) → any p (sorted_entries es) ≡ any p es
unfolding sorted_entries
any-sorted p [] = refl
any-sorted p (e ∷ es) = ground (arith, any-insert p e (sorted_entries es), any-sorted p es)

same_key_sym : (e f : Entry) → same_key e f ≡ false → same_key f e ≡ false
same_key_sym e f h = ground (
  arith,
  text_eq_iff e.package_name f.package_name,
  text_eq_iff e.architecture f.architecture,
  text_eq_iff f.package_name e.package_name,
  text_eq_iff f.architecture e.architecture,
)

insert_entry-Apart :
    (e : Entry) (es : List Entry)
    → All (λ f. same_key e f ≡ false) es
    → Apart es
    → Apart (insert_entry e es)
unfolding insert_entry
insert_entry-Apart e [] far a = (tt, tt)
insert_entry-Apart e (f ∷ fs) far a =
    if_elim Apart (key_lt f e) _ _
      (λ _. (
        insert_entry-All (λ g. same_key f g ≡ false) e fs (same_key_sym e f far.0) a.0,
        insert_entry-Apart e fs far.1 a.1,
      ))
      (λ _. (far, a))

sorted_entries-Apart : (es : List Entry) → Apart es → Apart (sorted_entries es)
unfolding sorted_entries
sorted_entries-Apart [] a = tt
sorted_entries-Apart (e ∷ es) a =
    insert_entry-Apart e (sorted_entries es) (sorted_entries-All (λ f. same_key e f ≡ false) es a.0)
      (sorted_entries-Apart es a.1)

module _ (h : Host) where
  put_latest-All :
      (P : Entry → Type 0) (new : Entry) (es : List Entry)
      → P new
      → All P es
      → All P (put_latest h new es)
  unfolding put_latest
  put_latest-All P new [] p ps = (p, tt)
  put_latest-All P new (e ∷ es) p ps =
      if_elim (All P) (not (same_key e new)) _ _ (λ _. (ps.0, put_latest-All P new es p ps.1))
        λ _. if_elim (All P) (h.version_lt e.version new.version) _ _ (λ _. (p, ps.1)) (λ _. ps)

  same_key_apart :
      (e new f : Entry) → same_key e new ≡ true → same_key e f ≡ false → same_key new f ≡ false
  same_key_apart e new f same apart = ground (
    arith,
    text_eq_iff e.package_name new.package_name,
    text_eq_iff e.architecture new.architecture,
  )

  put_latest-Apart : (new : Entry) (es : List Entry) → Apart es → Apart (put_latest h new es)
  unfolding put_latest
  put_latest-Apart new [] a = (tt, tt)
  put_latest-Apart new (e ∷ es) a =
      if_elim Apart (not (same_key e new)) _ _
        (λ other. (
          put_latest-All (λ f. same_key e f ≡ false) new es (ground arith) a.0,
          put_latest-Apart new es a.1,
        ))
        λ same.
          if_elim Apart (h.version_lt e.version new.version) _ _
            (λ _. (All-map (λ f. same_key_apart e new f (ground arith)) es a.0, a.1)) (λ _. a)

  put_latest_covers :
      IsVersionOrder h.version_lt
      → (i : DebIdentity) (c : Candidate) (es : List Entry)
      → any (stands_for h i) (put_latest h (entry_of i c) es) ≡ true
  unfolding put_latest
  put_latest_covers order i c [] =
      ground (
        arith,
        text_eq_refl i.package_name,
        text_eq_refl i.architecture,
        order.irreflexive i.version,
      )
  put_latest_covers order i c (e ∷ es) = ground (
    arith,
    text_eq_refl i.package_name,
    text_eq_refl i.architecture,
    order.irreflexive i.version,
    put_latest_covers order i c es,
  )

  put_latest_keeps :
      IsVersionOrder h.version_lt
      → (k : DebIdentity) (new : Entry) (es : List Entry) → any (stands_for h k) es ≡ true
      → any (stands_for h k) (put_latest h new es) ≡ true
  unfolding put_latest
  put_latest_keeps order k new [] e = cc
  put_latest_keeps order k new (f ∷ es) e = ground (
    arith,
    text_eq_iff f.package_name new.package_name,
    text_eq_iff f.architecture new.architecture,
    order.transitive f.version new.version k.version,
    put_latest_keeps order k new es,
  )

  put_candidate-All :
      (P : Entry → Type 0) (c : Candidate) (o : Option DebIdentity) (es : List Entry)
      → ((i : DebIdentity) → o ≡ some i → c.pattern_matches ≡ true → P (entry_of i c))
      → All P es
      → All P (put_candidate h c o es)
  put_candidate-All P c none es p ps = ps
  put_candidate-All P c (some i) es p ps =
      if_elim (All P) c.pattern_matches _ _
        (λ m. put_latest-All P (entry_of i c) es (p i refl m) ps) (λ _. ps)

  put_candidate-Apart :
      (c : Candidate) (o : Option DebIdentity) (es : List Entry)
      → Apart es
      → Apart (put_candidate h c o es)
  put_candidate-Apart c none es a = a
  put_candidate-Apart c (some i) es a =
      if_elim Apart c.pattern_matches _ _ (λ _. put_latest-Apart (entry_of i c) es a) (λ _. a)

  latest_of-All :
      (P : Entry → Type 0) (cs : List Candidate) (es : List Entry)
      → All
          (λ c.
            (i : DebIdentity) → c.identity ≡ some i → c.pattern_matches ≡ true → P (entry_of i c))
          cs
      → All P es
      → All P (latest_of h cs es)
  unfolding latest_of
  latest_of-All P [] es p ps = ps
  latest_of-All P (c ∷ cs) es p ps =
      latest_of-All P cs (put_candidate h c c.identity es) p.1
        (put_candidate-All P c c.identity es p.0 ps)

  latest_of-Apart : (cs : List Candidate) (es : List Entry) → Apart es → Apart (latest_of h cs es)
  unfolding latest_of
  latest_of-Apart [] es a = a
  latest_of-Apart (c ∷ cs) es a =
      latest_of-Apart cs (put_candidate h c c.identity es) (put_candidate-Apart c c.identity es a)

  module _ (order : IsVersionOrder h.version_lt) where
    put_candidate_keeps :
        (k : DebIdentity) (c : Candidate) (o : Option DebIdentity) (es : List Entry)
        → any (stands_for h k) es ≡ true
        → any (stands_for h k) (put_candidate h c o es) ≡ true
    put_candidate_keeps k c none es e = e
    put_candidate_keeps k c (some i) es e =
        if_elim (λ r. any (stands_for h k) r ≡ true) c.pattern_matches _ _
          (λ _. put_latest_keeps order k (entry_of i c) es e) (λ _. e)

    latest_of_keeps :
        (k : DebIdentity) (cs : List Candidate) (es : List Entry)
        → any (stands_for h k) es ≡ true
        → any (stands_for h k) (latest_of h cs es) ≡ true
    unfolding latest_of
    latest_of_keeps k [] es e = e
    latest_of_keeps k (c ∷ cs) es e =
        latest_of_keeps k cs _ (put_candidate_keeps k c c.identity es e)

    put_candidate_covers :
        (i : DebIdentity) (c : Candidate) (o : Option DebIdentity) (es : List Entry)
        → o ≡ some i
        → c.pattern_matches ≡ true
        → any (stands_for h i) (put_candidate h c o es) ≡ true
    put_candidate_covers i c none es e m = cc
    put_candidate_covers i c (some j) es e m =
        let same : j ≡ i = cc in
        if_elim (λ r. any (stands_for h i) r ≡ true) c.pattern_matches _ _
          (λ _. rw same (put_latest_covers order i c es)) (λ n. cc)

    latest_of_covers :
        (cs : List Candidate) (es : List Entry)
        → All
            (λ c.
              (i : DebIdentity)
              → c.identity ≡ some i
              → c.pattern_matches ≡ true
              → any (stands_for h i) (latest_of h cs es) ≡ true)
            cs
    unfolding latest_of
    latest_of_covers [] es = tt
    latest_of_covers (c ∷ cs) es = (
      λ i e m. latest_of_keeps i cs _ (put_candidate_covers i c c.identity es e m),
      latest_of_covers cs (put_candidate h c c.identity es),
    )

map-All :
    (P : Candidate → Type 0) (es : List Entry)
    → All (λ e. P e.candidate) es
    → All P (map (λ e. e.candidate) es)
map-All P [] ps = tt
map-All P (e ∷ es) ps = (ps.0, map-All P es ps.1)

any-candidates :
    (h : Host) (i : DebIdentity) (es : List Entry)
    → All IsOwn es
    → any (stands_for_file h i) (map (λ e. e.candidate) es) ≡ any (stands_for h i) es
any-candidates h i [] own = refl
any-candidates h i (f ∷ fs) own = rw (own.0.same, any-candidates h i fs own.1) refl

each_key :
    (e : Entry) (es : List Entry)
    → IsOwn e
    → All IsOwn es
    → All (λ f. same_key e f ≡ false) es
    → All (λ d. key_eq e.candidate.identity d.identity ≡ false) (map (λ f. f.candidate) es)
each_key e [] own owns far = tt
each_key e (f ∷ fs) own owns far =
    (rw (own.same, owns.0.same) far.0, each_key e fs own owns.1 far.1)

HaveKeys-candidates :
    (es : List Entry) → All IsOwn es → Apart es → HaveKeys (map (λ e. e.candidate) es)
HaveKeys-candidates [] own a = tt
HaveKeys-candidates (e ∷ es) own a =
    (each_key e es own.0 own.1 a.0, HaveKeys-candidates es own.1 a.1)

module _ (h : Host) (order : IsVersionOrder h.version_lt) (cs : List Candidate) where
  latest_of-IsOwn : All IsOwn (sorted_entries (latest_of h cs []))
  latest_of-IsOwn =
      sorted_entries-All IsOwn _ (
        latest_of-All h IsOwn cs [] (All_every (λ c i e m. record { matches = m; same = e }) cs) tt)

  -- Given an order of versions that is transitive and irreflexive, the files that are selected
  -- from a directory are files of it that match, with no two for the same package and
  -- architecture, and each file that matches and has a package name, a version and an
  -- architecture has a selected one of the same package and architecture that is not older.
  pub latest-IsSelection : IsSelection h cs (latest_directory_candidates h cs)
  unfolding latest_directory_candidates
  latest-IsSelection = record {
    covers =
        All-map
          (λ c covered i e m.
            rw
              (
                any-candidates h i _ latest_of-IsOwn,
                any-sorted (stands_for h i) (latest_of h cs []),
              )
              (covered i e m))
          cs (latest_of_covers h order cs []);
    matching = map-All _ _ (All-map (λ e own. own.matches) _ latest_of-IsOwn);
    once =
        HaveKeys-candidates _ latest_of-IsOwn (sorted_entries-Apart _ (latest_of-Apart h cs [] tt));
    chosen = λ P ps. map-All P _ (
        sorted_entries-All (λ e. P e.candidate) _
          (latest_of-All h (λ e. P e.candidate) cs [] (All-map (λ c p i e m. p) cs ps) tt));
  }
