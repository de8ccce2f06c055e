-- ===== src/Db/Packages.antt =====
-- The table `packages` of db.py, and `PackageRow` of models.py.
use prv_apt_mirror.Prelude.{
  ℕ, Text, Bool, true, false, ◌&&◌, Option, none, some, List, [], ◌∷◌, ◌==◌, text_eq, filter,
  if◌then◌else◌,
}

-- `packages.state`
pub data PackageState : Type 0 where
  active pending_delete missing : PackageState

abbrev pub state_eq : PackageState → PackageState → Bool
state_eq active active = true
state_eq pending_delete pending_delete = true
state_eq missing missing = true
state_eq _ _ = false

pub record PackageRow : Type 0 where
  pub id : ℕ
  pub name : Text
  pub version : Text
  pub architecture : Text
  pub component : Text
  pub filename : Text
  pub size : ℕ
  pub md5 : Text
  pub sha1 : Text
  pub sha256 : Text
  pub control_json : Text
  pub state : PackageState
  pub uploaded_at : ℕ
  pub uploaded_by : Option ℕ

-- `list_packages(conn, state=...)`, without its order
abbrev pub with_state : PackageState → List PackageRow → List PackageRow
with_state st = filter (λ r. state_eq r.state st)

unfoldable pub get_package : List PackageRow → ℕ → Option PackageRow
get_package [] i = none
get_package (r ∷ rs) i = if r.id == i then some r else get_package rs i

abbrev pub same_nva : PackageRow → Text → Text → Text → Bool
same_nva r name version architecture =
    text_eq r.name name && text_eq r.version version && text_eq r.architecture architecture

unfoldable pub get_package_nva : List PackageRow → Text → Text → Text → Option PackageRow
get_package_nva [] name version architecture = none
get_package_nva (r ∷ rs) name version architecture =
    if same_nva r name version architecture
    then some r
    else get_package_nva rs name version architecture

-- `UPDATE packages SET ... WHERE id = ?`
unfoldable pub update_package : ℕ → (PackageRow → PackageRow) → List PackageRow → List PackageRow
update_package i f [] = []
update_package i f (r ∷ rs) = (if r.id == i then f r else r) ∷ update_package i f rs

-- `UPDATE packages SET state = ? WHERE id = ?`
abbrev pub set_state : PackageState → ℕ → List PackageRow → List PackageRow
set_state st i = update_package i (λ r. record r { state = st })

-- `DELETE FROM packages WHERE id = ?`
unfoldable pub delete_package : ℕ → List PackageRow → List PackageRow
delete_package i [] = []
delete_package i (r ∷ rs) = let rest = delete_package i rs in if r.id == i then rest else r ∷ rest

unfoldable pub has_filename : Text → List PackageRow → Bool
has_filename f [] = false
has_filename f (r ∷ rs) = if text_eq r.filename f then true else has_filename f rs
