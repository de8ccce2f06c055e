-- ===== src/Web/Csrf.antt =====
-- csrf.py: which forms `verify_csrf` accepts, refuses and fails on.
use prv_apt_mirror.Prelude.{
  ◌≡◌, ◌↔◌, Text, true, false, ◌&&◌, ◌||◌, arith, text_eq_iff, text_eq_refl, is_empty,
}
use prv_apt_mirror.Exec.{Error, ok, err}
use prv_apt_mirror.Host.{Host}
use prv_apt_mirror.Config.{Config}
use prv_apt_mirror.Web.{Request, verify_csrf, compare_digest, origin_allowed, is_ascii, not_ascii}

-- What makes a form one of the page.
pub record IsVerified (h : Host) (cfg : Config) (request : Request) (token expected : Text)
    : Type 0 where
  pub allowed : origin_allowed h cfg request ≡ true
  pub filled : is_empty expected ≡ false
  pub ascii : is_ascii expected ≡ true
  pub same : token ≡ expected

-- What makes `compare_digest` fail.
pub record IsFailing (h : Host) (cfg : Config) (request : Request) (token expected : Text)
    : Type 0 where
  pub allowed : origin_allowed h cfg request ≡ true
  pub filled : (is_empty token || is_empty expected) ≡ false
  pub wide : (is_ascii token && is_ascii expected) ≡ false

module _ (h : Host) (cfg : Config) (request : Request) (token expected : Text) where
  accepts :
      (verify_csrf h cfg request token expected ≡ ok true) ↔ IsVerified h cfg request token expected
  unfolding verify_csrf compare_digest
  accepts = (
    λ e. record {
      allowed = ground arith;
      filled = ground arith;
      ascii = ground arith;
      same = ground (arith, text_eq_iff token expected);
    },
    λ v. rw v.same (ground (arith, v.allowed, v.filled, v.ascii, text_eq_refl expected)),
  )

  fails :
      ((e : Error) × (verify_csrf h cfg request token expected ≡ err e))
      ↔ IsFailing h cfg request token expected
  unfolding verify_csrf compare_digest
  fails = (
    λ p.
        let e = p.1 in
        record { allowed = ground arith; filled = ground arith; wide = ground arith },
    λ f. (not_ascii, ground (arith, f.allowed, f.filled, f.wide)),
  )

  -- `verify_csrf` returns true exactly when the origin is allowed, the expected token is not
  -- empty and in ASCII, and the token of the form equals it. It raises exactly when the origin
  -- is allowed, neither token is empty and one of them is not in ASCII.
  pub verify_csrf_outcomes :
      ((verify_csrf h cfg request token expected ≡ ok true)
        ↔ IsVerified h cfg request token expected)
      × (((e : Error) × (verify_csrf h cfg request token expected ≡ err e))
          ↔ IsFailing h cfg request token expected)
  verify_csrf_outcomes = (accepts, fails)
