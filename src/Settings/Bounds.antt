-- ===== src/Settings/Bounds.antt =====
-- settings.py: what is sure of a configuration that `config_from_app_values` returns.
use prv_apt_mirror.Prelude.{
  ℕ, ◌≤◌, ◌≡◌, refl, subst, Text, Bool, true, false, not, ◌&&◌, ◌||◌, List, [], ◌∷◌, ◌++◌, arith,
  All, All-append, length, text_eq, text_eq_iff, if◌then◌else◌, split, strip, lower, is_empty,
  codes, ltb, ◌==◌,
}
use prv_apt_mirror.Results.{bind-inv, ok-injective, ◌>>◌}
use prv_apt_mirror.Exec.{Error, Result, ok, err}
use prv_apt_mirror.Host.{Host}
use prv_apt_mirror.Config.{Config}
use prv_apt_mirror.Db.Keys.{
  AppSetting, public_url, suite, codename, component, architectures, origin, label, max_upload_mb,
  max_upload_files, session_days,
}
use prv_apt_mirror.Indexer.Select.{Distinct, has_arch}
use prv_apt_mirror.Settings.{
  reject_if, bounded_int, matches_repo_name, matches_arch, repo_name, display_text, has_text,
  no_archs, many_archs, collect_archs, checked_archs, checked_url, validate_startup,
  config_from_app_values,
}

bounded_int_range :
    (h : Host) (name raw : Text) (lo hi n : ℕ)
    → bounded_int h name raw lo hi ≡ ok n
    → (lo ≤ n) × (n ≤ hi)
unfolding bounded_int
bounded_int_range h name raw lo hi n e = ground arith

repo_name_matches :
    (name raw value : Text) → repo_name name raw ≡ ok value → matches_repo_name value ≡ true
unfolding repo_name
repo_name_matches name raw value e = ground arith

-- Names of architectures, each once.
record AreArchs (archs : List Text) : Type 0 where
  distinct : Distinct archs
  names : All (λ a. matches_arch a ≡ true) archs

has_arch-snoc :
    (a b : Text) (archs : List Text)
    → has_arch a (archs ++ b ∷ []) ≡ (has_arch a archs || text_eq a b)
has_arch-snoc a b [] = ground arith
has_arch-snoc a b (c ∷ archs) = ground (arith, has_arch-snoc a b archs)

Distinct-snoc :
    (b : Text) (archs : List Text)
    → Distinct archs
    → has_arch b archs ≡ false
    → Distinct (archs ++ b ∷ [])
Distinct-snoc b [] d out = (refl, tt)
Distinct-snoc b (a ∷ archs) d out = (
  ground (arith, d.0, has_arch-snoc a b archs, text_eq_iff a b, text_eq_iff b a),
  Distinct-snoc b archs d.1 (ground arith),
)

abbrev added : Text → List Text → List Text
added arch archs = if is_empty arch || has_text arch archs then archs else archs ++ arch ∷ []

added-AreArchs :
    (arch : Text) (archs : List Text)
    → (not (is_empty arch) && not (matches_arch arch)) ≡ false
    → AreArchs archs
    → AreArchs (added arch archs)
added-AreArchs arch archs good a = go (is_empty arch || has_text arch archs) refl
  where
    go :
        (b : Bool)
        → (is_empty arch || has_text arch archs) ≡ b
        → AreArchs (if b then archs else archs ++ arch ∷ [])
    go true e = a
    go false e = record {
      distinct = Distinct-snoc arch archs a.distinct (ground arith);
      names = All-append (λ b. matches_arch b ≡ true) archs (arch ∷ []) a.names (ground arith, tt);
    }

-- one turn of the loop that raises nothing
collected :
    (b : Bool) (x : Error) (r : Result (List Text)) (found : List Text)
    → (if b then err x else r) ≡ ok found
    → (b ≡ false) × (r ≡ ok found)
collected true x r found e = cc
collected false x r found e = (refl, e)

collect_archs-AreArchs :
    (h : Host) (items archs found : List Text)
    → AreArchs archs
    → collect_archs h items archs ≡ ok found
    → AreArchs found
unfolding collect_archs
collect_archs-AreArchs h [] archs found a e = subst AreArchs (ok-injective e) a
collect_archs-AreArchs h (item ∷ items) archs found a e =
    let arch = lower h.wide_lower (strip item) in
    let (good, rest) =
      collected (not (is_empty arch) && not (matches_arch arch)) _
        (collect_archs h items (added arch archs)) found e in
    collect_archs-AreArchs h items (added arch archs) found (added-AreArchs arch archs good a) rest

pub record IsValid (cfg : Config) : Type 0 where
  pub mb : (1 ≤ cfg.max_upload_mb) × (cfg.max_upload_mb ≤ 10240)
  pub files : (1 ≤ cfg.max_upload_files) × (cfg.max_upload_files ≤ 100)
  pub days : (1 ≤ cfg.session_days) × (cfg.session_days ≤ 365)
  pub suite : matches_repo_name cfg.suite ≡ true
  pub codename : matches_repo_name cfg.codename ≡ true
  pub component : matches_repo_name cfg.component ≡ true
  pub distinct : Distinct cfg.architectures
  pub names : All (λ a. matches_arch a ≡ true) cfg.architectures
  pub count : (1 ≤ length cfg.architectures) × (length cfg.architectures ≤ 16)

abbrev IsChecked : List Text → Type 0
IsChecked archs = AreArchs archs × (1 ≤ length archs) × (length archs ≤ 16)

checked_archs-IsChecked :
    (h : Host) (raw : Text) (found : List Text) → checked_archs h raw ≡ ok found → IsChecked found
unfolding checked_archs
checked_archs-IsChecked h raw found e =
    let (archs, e1, e2) = bind-inv (collect_archs h (split b',' raw) []) _ e in
    let a =
      collect_archs-AreArchs h (split b',' raw) [] archs (record { distinct = tt; names = tt })
        e1 in
    let (some_arch, few, same) = counted archs found e2 in subst IsChecked same (a, some_arch, few)
  where
    counted :
        (archs found : List Text)
        → (reject_if (length archs == 0) no_archs
            >> (reject_if (ltb 16 (length archs)) many_archs >> ok archs))
          ≡ ok found
        → (1 ≤ length archs) × (length archs ≤ 16) × (archs ≡ found)
    counted archs found e =
        let (_, e1, rest) = bind-inv (reject_if (length archs == 0) no_archs) _ e in
        let (_, e2, last) = bind-inv (reject_if (ltb 16 (length archs)) many_archs) _ rest in
        (ground arith, ground arith, ok-injective last)

-- A configuration that `config_from_app_values` returns has its three numbers within their
-- bounds, names of the suite, codename and component that the pattern accepts, and between 1 and
-- 16 architectures, all different and all accepted by their pattern.
pub config_from_app_values-IsValid :
    (h : Host) (base : Config) (values : AppSetting → Text) (cfg : Config)
    → config_from_app_values h base values ≡ ok cfg
    → IsValid cfg
unfolding config_from_app_values
config_from_app_values-IsValid h base values cfg e =
    let (_, _, e1) = bind-inv (checked_url h (values public_url)) _ e in
    let (archs, found, e2) = bind-inv (checked_archs h (values architectures)) _ e1 in
    let (_, s, e3) = bind-inv (repo_name (codes "Suite") (values suite)) _ e2 in
    let (_, c, e4) = bind-inv (repo_name (codes "Codename") (values codename)) _ e3 in
    let (_, m, e5) = bind-inv (repo_name (codes "Component") (values component)) _ e4 in
    let (_, _, e6) = bind-inv (display_text (codes "Origin") (values origin)) _ e5 in
    let (_, _, e7) = bind-inv (display_text (codes "Label") (values label)) _ e6 in
    let (_, mb, e8) =
      bind-inv (bounded_int h (codes "单次上传上限") (values max_upload_mb) 1 10240) _ e7 in
    let (_, files, e9) =
      bind-inv (bounded_int h (codes "单次文件数") (values max_upload_files) 1 100) _ e8 in
    let (_, days, e10) =
      bind-inv (bounded_int h (codes "会话有效期") (values session_days) 1 365) _ e9 in
    let (_, _, e11) = bind-inv (validate_startup h _) _ e10 in
    let (a, many, few) = checked_archs-IsChecked h (values architectures) archs found in
    subst IsValid (ok-injective e11) (record {
      mb = bounded_int_range h (codes "单次上传上限") (values max_upload_mb) 1 10240 _ mb;
      files = bounded_int_range h (codes "单次文件数") (values max_upload_files) 1 100 _ files;
      days = bounded_int_range h (codes "会话有效期") (values session_days) 1 365 _ days;
      suite = repo_name_matches (codes "Suite") (values suite) _ s;
      codename = repo_name_matches (codes "Codename") (values codename) _ c;
      component = repo_name_matches (codes "Component") (values component) _ m;
      distinct = a.distinct;
      names = a.names;
      count = (many, few);
    })
