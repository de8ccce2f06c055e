-- ===== src/Web/Upload/Guarded.antt =====
-- routes/admin.py: an upload changes something only for a user, by a form of the page.
use prv_apt_mirror.Prelude.{Text, ◌≡◌, refl, Bool, true, false, Option, none, some, ◌⊎◌, inl, inr}
use prv_apt_mirror.Exec.{Result, ok, err}
use prv_apt_mirror.Config.{max_upload_bytes}
use prv_apt_mirror.Auth.{User}
use prv_apt_mirror.Web.{Request, origin_allowed}
use prv_apt_mirror.Web.Site.{Site, Server, current_user, csrf_expected}
use prv_apt_mirror.Web.Guards.{IsUntouched, ActsAs, looked-IsUntouched, current_user-ActsAs}
use prv_apt_mirror.Web.Csrf.{IsVerified, verify_csrf_outcomes}
use prv_apt_mirror.Web.Upload.Bounded.{IsWithin, bounded_upload_form-IsWithin}
use prv_apt_mirror.Web.Upload.{
  Upload, UploadForm, bounded_upload_form, token_check, upload_checked, upload_form, upload_allowed,
  upload_password, upload_user, upload_packages,
}

-- the form that a request has
abbrev pub form_in : Upload → Site → Result UploadForm
form_in up s =
    bounded_upload_form up.parser up.content_length up.messages (max_upload_bytes s.cfg)
      s.cfg.max_upload_files

-- The upload is one of a user who has a password of their own, with a form made by the page.
pub record IsOwnUpload (srv : Server) (request : Request) (up : Upload) (s : Site) : Type 0 where
  pub user : User
  pub acts : ActsAs srv request s user
  pub password : user.must_change_password ≡ false
  pub form : UploadForm
  pub within :
      IsWithin up.parser up.content_length up.messages
        (max_upload_bytes s.cfg)
        s.cfg.max_upload_files
        form
  pub token : Text
  pub has_token : form.token ≡ some token
  pub own : IsVerified srv.env.host s.cfg request token (csrf_expected srv.env.host s.cfg request)

module _ (srv : Server) (request : Request) (up : Upload) (s : Site) where
  seen : Site
  seen = record s { accounts = (current_user srv request s.cfg s.accounts).1 }

  untouched : IsUntouched srv.env.now s seen
  unfolding seen
  untouched = looked-IsUntouched srv request s

  own_upload :
      (user : User) (form : UploadForm) (o : Option Text)
      → (current_user srv request s.cfg s.accounts).0 ≡ some user
      → user.must_change_password ≡ false
      → form_in up s ≡ ok form
      → form.token ≡ o
      → token_check srv s.cfg request o ≡ ok true
      → IsOwnUpload srv request up s
  own_upload user form none signed own_password received has c = cc
  own_upload user form (some token) signed own_password received has c = record {
    user = user;
    acts = current_user-ActsAs srv request s user signed;
    password = own_password;
    form = form;
    within =
        bounded_upload_form-IsWithin up.parser up.content_length up.messages
          (max_upload_bytes s.cfg) s.cfg.max_upload_files form received;
    token = token;
    has_token = has;
    own = (verify_csrf_outcomes srv.env.host s.cfg request _ _).0.0 c;
  }

  module _ (user : User) (signed : (current_user srv request s.cfg s.accounts).0 ≡ some user)
      (own_password : user.must_change_password ≡ false)
      (from_page : origin_allowed srv.env.host s.cfg request ≡ true) where
    form-IsGuarded :
        (r : Result UploadForm)
        → form_in up s ≡ r
        → IsUntouched srv.env.now s (upload_form srv request user r seen).1
          ⊎ IsOwnUpload srv request up s
    unfolding seen
    form-IsGuarded (err e) f = inl untouched
    form-IsGuarded (ok form) f = checked (token_check srv s.cfg request form.token) refl
      where
        checked :
            (c : Result Bool)
            → token_check srv s.cfg request form.token ≡ c
            → IsUntouched srv.env.now s (upload_checked srv user form c seen).1
              ⊎ IsOwnUpload srv request up s
        checked (err e) c = inl untouched
        checked (ok false) c = inl untouched
        checked (ok true) c = inr (own_upload user form form.token signed own_password f refl c)

  user-IsGuarded :
      (o : Option User)
      → (current_user srv request s.cfg s.accounts).0 ≡ o
      → IsUntouched srv.env.now s (upload_user srv request up o seen).1
        ⊎ IsOwnUpload srv request up s
  unfolding seen
  user-IsGuarded none e = inl untouched
  user-IsGuarded (some user) e = with_password user.must_change_password refl
    where
      with_origin :
          user.must_change_password ≡ false
          → (b : Bool) → origin_allowed srv.env.host s.cfg request ≡ b
          → IsUntouched srv.env.now s (upload_allowed srv request up user b seen).1
            ⊎ IsOwnUpload srv request up s
      with_origin own_password false from_page = inl untouched
      with_origin own_password true from_page =
          form-IsGuarded user e own_password from_page (form_in up s) refl

      with_password :
          (b : Bool)
          → user.must_change_password ≡ b
          → IsUntouched srv.env.now s (upload_password srv request up user b seen).1
            ⊎ IsOwnUpload srv request up s
      with_password true own_password = inl untouched
      with_password false own_password =
          with_origin own_password (origin_allowed srv.env.host s.cfg request) refl

  -- An upload leaves the tables of packages, runs, settings and sources, the files, the settings
  -- in force, the users and the failed logins as they were, and of the sessions it drops or
  -- touches one at most. Or it is of the user of the session in its cookie, which has not
  -- expired, or of the first user where the settings switch the logins off. Then the first
  -- password of the user is changed, the origin is allowed, the form token is the expected one
  -- and not empty, and the length that is announced and the bytes that were received, up to the
  -- end of the stream, are at most the limit of the files and 65536 bytes.
  pub upload_packages_outcomes :
      IsUntouched srv.env.now s (upload_packages srv request up s).1 ⊎ IsOwnUpload srv request up s
  unfolding upload_packages seen
  upload_packages_outcomes = user-IsGuarded (current_user srv request s.cfg s.accounts).0 refl
