-- ===== src/Web/Tests.antt =====
-- Requests at concrete values.
use prv_apt_mirror.Prelude.{◌≡◌, ◌↔◌, ◌⊎◌, ◌≤◌, ◌+◌, arith, none, some, [], ◌∷◌, codes, true}
use prv_apt_mirror.Exec.{Error, ok, err}
use prv_apt_mirror.Samples.{plain_host, sample_config, one_upload}
use prv_apt_mirror.Samples.Site.{sample_env, sample_server, sample_request, sample_site}
use prv_apt_mirror.Web.{verify_csrf}
use prv_apt_mirror.Web.Csrf.{IsVerified, IsFailing, verify_csrf_outcomes}
use prv_apt_mirror.Web.Guards.{
  IsUntouched, IsEntitled, handle, order_of, publishes, handle_outcomes,
}
use prv_apt_mirror.Web.Upload.{Upload, body, fed, upload_packages}
use prv_apt_mirror.Web.Upload.Bounded.{total_length, total_length-fed}
use prv_apt_mirror.Web.Upload.Guarded.{IsOwnUpload, upload_packages_outcomes}
use prv_apt_mirror.Web.Admin.{settings_work}
use prv_apt_mirror.Web.Admin.Work.{Worked, settings_work-Worked}

verify_csrf_outcomes_example :
    ((verify_csrf plain_host sample_config sample_request (codes "t") (codes "t") ≡ ok true)
      ↔ IsVerified plain_host sample_config sample_request (codes "t") (codes "t"))
    × (((e : Error) × (verify_csrf plain_host sample_config sample_request (codes "t") (codes "t")
            ≡ err e))
        ↔ IsFailing plain_host sample_config sample_request (codes "t") (codes "t"))
verify_csrf_outcomes_example =
    verify_csrf_outcomes plain_host sample_config sample_request (codes "t") (codes "t")

handle_outcomes_example :
    IsUntouched sample_server.env.now sample_site
      (handle publishes sample_server sample_request sample_site).1
    ⊎ IsEntitled (order_of publishes) sample_server sample_request sample_site
handle_outcomes_example = handle_outcomes sample_server sample_request sample_site publishes

settings_work-Worked_example :
    Worked sample_config one_upload (settings_work sample_env sample_config one_upload)
settings_work-Worked_example = settings_work-Worked sample_env sample_config one_upload

abbrev one_form : Upload
one_form = record {
  content_length = some (codes "9");
  messages = body (codes "abc") ∷ body (codes "def") ∷ [];
  parser = record {
    stops = λ max_files bodies. none;
    form = λ max_files bodies. ok (record { token = some (codes "t"); files = [] });
  };
}

upload_packages_outcomes_example :
    IsUntouched sample_server.env.now sample_site
      (upload_packages sample_server sample_request one_form sample_site).1
    ⊎ IsOwnUpload sample_server sample_request one_form sample_site
upload_packages_outcomes_example =
    upload_packages_outcomes sample_server sample_request one_form sample_site

total_length-fed_example : 0 + total_length (fed 5 0 one_form.messages).0 ≤ 5
total_length-fed_example = total_length-fed 5 0 one_form.messages (omega arith)
