-- ===== src/Web.antt =====
-- csrf.py and the functions of ratelimit.py on requests: where a request of the web page comes from,
-- and whether its form was made by the page.
pub mod Csrf
pub mod Site
pub mod Sources
pub mod Admin
pub mod Upload
pub mod Guards
mod Tests
use prv_apt_mirror.Prelude.{
  Text, codes, Bool, true, false, ◌&&◌, ◌||◌, not, List, [], ◌∷◌, ◌++◌, all, Option, none, some,
  Dict, if◌then◌else◌, ltb, text_eq, is_empty, strip, lower, split, rstrip_char,
}
use prv_apt_mirror.Exec.{Error, Result, ok, err, other_error}
use prv_apt_mirror.Host.{Host}
use prv_apt_mirror.Config.{Config}
use prv_apt_mirror.Settings.{has_text}

-- What the handlers read of a request: the headers, the cookies, the address and the form.
pub record Request : Type 0 where
  pub origin : Option Text
  pub referer : Option Text
  pub real_ip : Option Text
  pub forwarded_proto : Option Text
  pub user_agent : Option Text
  pub session_cookie : Option Text
  pub csrf_cookie : Option Text
  pub client : Option Text
  pub scheme : Text
  pub form : Dict Text

-- `session_token`
unfoldable pub session_token : Host → Text → Text → Text
session_token h secret sid = h.hmac_hex (h.encode secret) (h.encode sid)

abbrev referer_origin : Host → Text → Option Text
referer_origin h referer =
    if is_empty (h.urlparse referer).scheme || is_empty (h.urlparse referer).netloc
    then none
    else some ((h.urlparse referer).scheme ++ codes "://" ++ (h.urlparse referer).netloc)

-- a header that is there and not empty
abbrev given : Option Text → Option Text
given (some (c ∷ s)) = some (c ∷ s)
given _ = none

abbrev origin_of : Host → Option Text → Option Text → Option Text
origin_of h (some origin) referer = some (rstrip_char b'/' origin)
origin_of h none none = none
origin_of h none (some referer) = referer_origin h referer

unfoldable pub request_origin : Host → Request → Option Text
request_origin h request = origin_of h (given request.origin) (given request.referer)

abbrev is_listed : Option Text → List Text → Bool
is_listed none origins = false
is_listed (some origin) origins = has_text origin origins

unfoldable pub origin_allowed : Host → Config → Request → Bool
origin_allowed h cfg request =
    if not cfg.origin_check then true else is_listed (request_origin h request) cfg.admin_origins

abbrev pub is_ascii : Text → Bool
is_ascii = all (λ c. ltb c 128)

abbrev pub not_ascii : Error
not_ascii = other_error (codes "comparing strings with non-ASCII characters is not supported")

-- `hmac.compare_digest` for texts, which raises TypeError outside ASCII
unfoldable pub compare_digest : Text → Text → Result Bool
compare_digest a b = if is_ascii a && is_ascii b then ok (text_eq a b) else err not_ascii

unfoldable pub verify_csrf : Host → Config → Request → Text → Text → Result Bool
unfolding compare_digest
verify_csrf h cfg request form_token expected =
    if not (origin_allowed h cfg request)
    then ok false
    else if is_empty form_token || is_empty expected
    then ok false
    else compare_digest form_token expected

abbrev first_part : List Text → Text
first_part [] = []
first_part (p ∷ ps) = p

abbrev or_blank : Option Text → Text
or_blank none = []
or_blank (some t) = t

abbrev peer_of : Option Text → Text
peer_of none = codes "0.0.0.0"
peer_of (some host) = host

-- `client_ip`; `is_trusted` says whether a text is an address in one of `cfg.trusted_proxy_cidrs`.
unfoldable pub client_ip : (Text → Bool) → Request → Text
client_ip is_trusted request =
    let forwarded = strip (or_blank request.real_ip) in
    if is_trusted (peer_of request.client) && not (is_empty forwarded)
    then strip (first_part (split b',' forwarded))
    else peer_of request.client

unfoldable pub cookie_secure_flag : Host → (Text → Bool) → Config → Request → Bool
cookie_secure_flag h is_trusted cfg request =
    let proto =
      lower h.wide_lower (strip (first_part (split b',' (or_blank request.forwarded_proto)))) in
    if text_eq cfg.cookie_secure (codes "true")
    then true
    else if text_eq cfg.cookie_secure (codes "false")
    then false
    else if not (is_empty proto) && is_trusted (or_blank request.client)
    then text_eq proto (codes "https")
    else text_eq request.scheme (codes "https")
