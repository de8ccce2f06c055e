-- ===== src/SourceSync/Listings/Previews/Agree.antt =====
-- source_sync.py: the preview of a GitHub repository selects what a check of the source takes.
use prv_apt_mirror.Prelude.{
  ℕ, ◌≤◌, ◌≡◌, refl, ap, Text, codes, Bool, true, false, ◌||◌, not, List, [], ◌∷◌, ◌++◌, map,
  filter, length, take, reverse, none, sym, ◌∙◌, All, arith, starts_with, if◌then◌else◌, suc, zero,
}
use mathlib.Core.Bool.{true≢false}
use mathlib.Core.List.{reverse-cons, append-nil, append_assoc}
use prv_apt_mirror.Results.{bind-inv, ok-injective}
use prv_apt_mirror.Exec.{Result, ok, err}
use prv_apt_mirror.Host.{Host, Fields}
use prv_apt_mirror.SourceSync.Import.{RemoteAsset}
use prv_apt_mirror.SourceSync.Listings.{
  name_of, is_passed_over, assets_of, assets_each, assets_field, iterated, github_asset, url_of,
  is_null, get_field, github_assets, github_release_items, pattern_compiled,
}
use prv_apt_mirror.SourceSync.Download.{Net}
use prv_apt_mirror.Db.Sources.{SourceRow}
use prv_apt_mirror.SourceSync.Listings.Previews.{
  AssetPreview, is_selected, preview_of, release_name, preview_assets, preview_releases,
  joined_previews,
}

-- An asset as GitHub gives it: a name of at most 500 characters, an id, and an address of a web server.
pub record IsPlain (h : Host) (fs : Fields) : Type 0 where
  pub short_name : length (name_of h fs) ≤ 500
  pub has_url :
      (starts_with (url_of h fs) (codes "https://") || starts_with (url_of h fs) (codes "http://"))
      ≡ true
  pub has_id : is_null (get_field (codes "id") fs) ≡ false

take-all : (n : ℕ) (t : Text) → length t ≤ n → take n t ≡ t
take-all zero [] h = refl
take-all zero (c ∷ t) h = absurd (omega arith)
take-all (suc n) [] h = refl
take-all (suc n) (c ∷ t) h = ap (λ u. c ∷ u) (take-all n t (omega arith))

abbrev pub selected_names : List AssetPreview → List Text
selected_names ps = map (λ p. p.filename) (filter is_selected ps)

abbrev pub names : List RemoteAsset → List Text
names = map (λ a. a.filename)

is_selected-plain :
    (h : Host) (pattern release : Text) (fs : Fields)
    → IsPlain h fs
    → is_selected (preview_of h pattern release fs) ≡ not (is_passed_over h pattern fs)
is_selected-plain h pattern release fs plain =
    rw (take-all 500 (name_of h fs) plain.short_name) (ground (arith, plain.has_url, plain.has_id))

abbrev shown_names : List AssetPreview → List Text
shown_names = map (λ p. p.filename)

names-added :
    (b : Bool) (a : RemoteAsset) (p : AssetPreview) (as' : List RemoteAsset)
    (ps : List AssetPreview)
    → a.filename ≡ p.filename
    → names as' ≡ shown_names ps
    → names (if b then as' else a ∷ as') ≡ shown_names (if not b then p ∷ ps else ps)
names-added true a p as' ps e rest = rest
names-added false a p as' ps e rest = cc

assets-agree :
    (h : Host) (pattern release : Text) (room : ℕ) (assets : List Fields)
    → All (IsPlain h) assets
    → (preview_assets h pattern release room assets).1 ≡ false
    → names (assets_of h pattern assets)
      ≡ selected_names (preview_assets h pattern release room assets).0
unfolding preview_assets assets_of
assets-agree h pattern release room [] plain whole = refl
assets-agree h pattern release zero (fs ∷ rest) plain whole = cc
assets-agree h pattern release (suc room) (fs ∷ rest) plain whole =
    rw (is_selected-plain h pattern release fs plain.0) (
      names-added (is_passed_over h pattern fs) (github_asset h fs)
        (preview_of h pattern release fs) _ _ refl
        (assets-agree h pattern release room rest plain.1 whole))

-- Each asset of the releases is plain.
abbrev pub ArePlain : Host → List Fields → Type 0
ArePlain h =
    All
      (λ r. (assets : List Fields) → iterated (assets_field r) ≡ ok assets → All (IsPlain h) assets)

names-append : (as' bs : List RemoteAsset) → names (as' ++ bs) ≡ names as' ++ names bs
names-append [] bs = refl
names-append (a ∷ as') bs = ap (λ u. a.filename ∷ u) (names-append as' bs)

selected-append :
    (ps qs : List AssetPreview) → selected_names (ps ++ qs) ≡ selected_names ps ++ selected_names qs
selected-append [] qs = refl
selected-append (p ∷ ps) qs = ground (arith, selected-append ps qs)

joined_previews-inv :
    (ps : List AssetPreview) (cut : Bool) (r : Result (List AssetPreview × Bool))
    (all : List AssetPreview)
    → joined_previews (ps, cut) r ≡ ok (all, false)
    → (cut ≡ false) × ((more : List AssetPreview) × (r ≡ ok (more, false)) × (ps ++ more ≡ all))
joined_previews-inv ps true r all e =
    absurd (true≢false (ap (λ (q : List AssetPreview × Bool). q.1) (ok-injective e)))
joined_previews-inv ps false (err x) all e = cc
joined_previews-inv ps false (ok (more, cut)) all e =
    (refl, (more, cc, ap (λ (q : List AssetPreview × Bool). q.0) (ok-injective e)))

-- What a check takes of each release alone, release by release.
abbrev pub AreGroups : Host → Text → List Fields → List (List Text) → Type 0
AreGroups h pattern [] [] = Unit
AreGroups h pattern [] (g ∷ gs) = ⊥
AreGroups h pattern (r ∷ rs) [] = ⊥
AreGroups h pattern (r ∷ rs) (g ∷ gs) =
    ((alone : List RemoteAsset) × (assets_each h pattern (r ∷ []) ≡ ok alone) × (names alone ≡ g))
    × AreGroups h pattern rs gs

abbrev pub concat : List (List Text) → List Text
concat [] = []
concat (g ∷ gs) = g ++ concat gs

concat-snoc : (gs : List (List Text)) (g : List Text) → concat (gs ++ g ∷ []) ≡ concat gs ++ g
concat-snoc [] g = append-nil g
concat-snoc (f ∷ gs) g = ap (λ u. f ++ u) (concat-snoc gs g) ∙ sym (append_assoc f (concat gs) g)

assets_each-snoc :
    (h : Host) (pattern : Text) (rs : List Fields) (r : Fields) (as' bs : List RemoteAsset)
    → assets_each h pattern rs ≡ ok as'
    → assets_each h pattern (r ∷ []) ≡ ok bs
    → assets_each h pattern (rs ++ r ∷ []) ≡ ok (as' ++ bs)
unfolding assets_each
assets_each-snoc h pattern [] r as' bs e f = f ∙ ap (λ u. ok (u ++ bs)) (ok-injective e)
assets_each-snoc h pattern (q ∷ rs) r as' bs e f =
    let (assets, e1, e) = bind-inv (iterated (assets_field q)) _ e in
    let (more, e2, e) = bind-inv (assets_each h pattern rs) _ e in
    rw (e1, assets_each-snoc h pattern rs r more bs e2 f)
      (ap ok (sym (append_assoc (assets_of h pattern assets) more bs))
        ∙ ap (λ u. ok (u ++ bs)) (ok-injective e))

-- What a check takes of the releases, the last of them first.
record Reversed (h : Host) (pattern : Text) (releases : List Fields) (groups : List (List Text))
    : Type 0 where
  assets : List RemoteAsset
  found : assets_each h pattern (reverse releases) ≡ ok assets
  same : names assets ≡ concat (reverse groups)

groups-Reversed :
    (h : Host) (pattern : Text) (releases : List Fields) (groups : List (List Text))
    → AreGroups h pattern releases groups
    → Reversed h pattern releases groups
unfolding assets_each
groups-Reversed h pattern [] [] g = record { assets = []; found = refl; same = refl }
groups-Reversed h pattern [] (g ∷ gs) no_group = absurd no_group
groups-Reversed h pattern (r ∷ rs) [] no_group = absurd no_group
groups-Reversed h pattern (r ∷ rs) (g ∷ gs) ((alone, one, named), more) =
    let rest = groups-Reversed h pattern rs gs more in
    record {
      assets = rest.assets ++ alone;
      found =
          rw (reverse-cons r rs)
            (assets_each-snoc h pattern (reverse rs) r rest.assets alone rest.found one);
      same =
          names-append rest.assets alone
          ∙ rw (rest.same, named, reverse-cons g gs) (sym (concat-snoc (reverse gs) g));
    }

-- The names that the preview shows as selected, by release.
record Shown (h : Host) (pattern : Text) (releases : List Fields) (ps : List AssetPreview)
    : Type 0 where
  groups : List (List Text)
  groups_are : AreGroups h pattern releases groups
  shown : selected_names ps ≡ concat groups

preview_releases-Shown :
    (h : Host) (pattern : Text) (releases : List Fields) (room : ℕ) (ps : List AssetPreview)
    → ArePlain h releases
    → preview_releases h pattern room releases ≡ ok (ps, false)
    → Shown h pattern releases ps
unfolding preview_releases assets_each
preview_releases-Shown h pattern [] room ps plain e = record {
  groups = [];
  groups_are = tt;
  shown = ap (λ (q : List AssetPreview × Bool). selected_names q.0) (sym (ok-injective e));
}
preview_releases-Shown h pattern (r ∷ rs) room ps plain e =
    let (assets, e1, e) = bind-inv (iterated (assets_field r)) _ e in
    let (whole, (more, e2, joined)) =
      joined_previews-inv (preview_assets h pattern (release_name h r) room assets).0
        (preview_assets h pattern (release_name h r) room assets).1 _ ps e in
    let rest = preview_releases-Shown h pattern rs _ more plain.1 e2 in
    record {
      groups = names (assets_of h pattern assets) ∷ rest.groups;
      groups_are = (
        (assets_of h pattern assets, rw e1 (ap ok (append-nil (assets_of h pattern assets))), refl),
        rest.groups_are,
      );
      shown =
          rw
            (
              ← joined,
              selected-append _ more,
              ← assets-agree h pattern _ room assets (plain.0 assets e1) whole,
              rest.shown,
            )
            refl;
    }

-- What a check of the source takes, when the preview of its releases is `ps`: the selected names of
-- each release in the order of the preview, and the releases from the last to the first.
pub record AgreesWith (h : Host) (net : Net) (source : SourceRow) (releases : List Fields)
    (ps : List AssetPreview) : Type 0 where
  pub groups : List (List Text)
  pub groups_are : AreGroups h source.asset_pattern releases groups
  pub shown : selected_names ps ≡ concat groups
  pub assets : List RemoteAsset
  pub found : github_assets h net source ≡ ok assets
  pub taken : names assets ≡ concat (reverse groups)

-- For a source whose releases are listed and whose pattern compiles, when the preview of these
-- releases is not cut off, and each asset of them has a name of at most 500 characters, an id
-- and an address of a web server: `_github_assets` raises nothing, and the names of the files
-- that it takes are those that the preview shows as selected, in the same order within each
-- release, and with the releases in the reverse order.
pub github_assets-agree :
    (h : Host) (net : Net) (source : SourceRow) (releases : List Fields) (room : ℕ)
    (ps : List AssetPreview)
    → github_release_items net source.location source.include_prereleases source.release_limit
      ≡ ok releases
    → h.re_error source.asset_pattern ≡ none
    → ArePlain h releases
    → preview_releases h source.asset_pattern room releases ≡ ok (ps, false)
    → AgreesWith h net source releases ps
unfolding github_assets
github_assets-agree h net source releases room ps listed compiles plain e =
    let s = preview_releases-Shown h source.asset_pattern releases room ps plain e in
    let r = groups-Reversed h source.asset_pattern releases s.groups s.groups_are in
    record {
      groups = s.groups;
      groups_are = s.groups_are;
      shown = s.shown;
      assets = r.assets;
      found = rw (listed, pattern_compiled, compiles) r.found;
      taken = r.same;
    }
