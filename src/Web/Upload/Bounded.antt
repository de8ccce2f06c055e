-- ===== src/Web/Upload/Bounded.antt =====
-- uploads.py: how much of a request the parser gets.
use prv_apt_mirror.Prelude.{
  ℕ, ◌+◌, ◌≤◌, ◌≡◌, ◌∙◌, ap, sym, refl, Text, List, [], ◌∷◌, Option, none, some, length, arith,
  if_elim, Bool, true, false, if◌then◌else◌, ltb, parse_int, natural, negative, Number,
}
use prv_apt_mirror.Exec.{Result, ok, err, Error}
use prv_apt_mirror.Web.Upload.{
  Message, disconnect, body, other, fed, Ending, finished, disconnected, exceeded, Parser,
  UploadForm, number_allowed, length_allowed, at_end, over_size, unless_stopped, parsed_form,
  form_of, bounded_upload_form,
}

-- the bytes of some bodies
abbrev pub total_length : List Text → ℕ
total_length [] = 0
total_length (b ∷ bs) = length b + total_length bs

-- The bytes of the bodies that the multipart parser gets, added to those received before, are at
-- most the limit, when those received before are.
pub total_length-fed :
    (limit received : ℕ) (ms : List Message)
    → received ≤ limit
    → received + total_length (fed limit received ms).0 ≤ limit
unfolding fed
total_length-fed limit received [] h = omega arith
total_length-fed limit received (disconnect ∷ ms) h = omega arith
total_length-fed limit received (other ∷ ms) h = total_length-fed limit received ms h
total_length-fed limit received (body b ∷ ms) h =
    if_elim (λ (p : List Text × Ending). received + total_length p.0 ≤ limit)
      (ltb limit (received + length b)) _ _ (λ _. omega arith)
      λ fits. omega (arith, total_length-fed limit (received + length b) ms (ground arith))

-- What a form within the limits was read from: the length that the request announces is at most the
-- limit of the files and the overhead, and so are the bytes of the bodies, after which the stream
-- ended; and the parser gave the form for them.
pub record IsWithin (parser : Parser) (content_length : Option Text) (messages : List Message)
    (limit max_files : ℕ) (form : UploadForm) : Type 0 where
  pub announced :
      (raw : Text)
      → content_length ≡ some raw
      → (n : ℕ) × (parse_int raw ≡ some (natural n)) × (n ≤ limit + 65536)
  pub bodies : List Text
  pub received : fed (limit + 65536) 0 messages ≡ (bodies, finished)
  pub total : total_length bodies ≤ limit + 65536
  pub parsed : parser.form max_files bodies ≡ ok form

length_allowed-le :
    (limit : ℕ) (raw : Text)
    → length_allowed limit (some raw) ≡ ok tt
    → (n : ℕ) × (parse_int raw ≡ some (natural n)) × (n ≤ limit)
length_allowed-le limit raw e = go (parse_int raw) refl e
  where
    go :
        (o : Option Number)
        → parse_int raw ≡ o
        → number_allowed limit o ≡ ok tt
        → (n : ℕ) × (parse_int raw ≡ some (natural n)) × (n ≤ limit)
    go none p e = cc
    go (some negative) p e = cc
    go (some (natural n)) p e = (n, p, fits (ltb limit n) refl e)
      where
        fits :
            (b : Bool)
            → ltb limit n ≡ b
            → ◌≡◌ {A = Result (Unit {0})} (if b then err over_size else ok tt) (ok tt)
            → n ≤ limit
        fits true l e = cc
        fits false l e = ground (arith, l)

ended-IsWithin :
    (parser : Parser) (content_length : Option Text) (messages : List Message) (limit max_files : ℕ)
    (form : UploadForm) (bodies : List Text) (ending : Ending)
    → ((raw : Text)
        → content_length ≡ some raw
        → (n : ℕ) × (parse_int raw ≡ some (natural n)) × (n ≤ limit + 65536))
    → total_length bodies ≤ limit + 65536
    → fed (limit + 65536) 0 messages ≡ (bodies, ending)
    → parsed_form parser max_files (bodies, ending) ≡ ok form
    → IsWithin parser content_length messages limit max_files form
ended-IsWithin parser content_length messages limit max_files form bodies ending announced total e =
    go (parser.stops max_files bodies) ending e
  where
    go :
        (o : Option Error) (end : Ending)
        → fed (limit + 65536) 0 messages ≡ (bodies, end)
        → unless_stopped o (at_end parser max_files bodies end) ≡ ok form
        → IsWithin parser content_length messages limit max_files form
    go (some x) end got e = cc
    go none disconnected got e = cc
    go none exceeded got e = cc
    go none finished got e = record {
      announced = announced;
      bodies = bodies;
      received = got;
      total = total;
      parsed = e;
    }

pub bounded_upload_form-IsWithin :
    (parser : Parser) (content_length : Option Text) (messages : List Message) (limit max_files : ℕ)
    (form : UploadForm)
    → bounded_upload_form parser content_length messages limit max_files ≡ ok form
    → IsWithin parser content_length messages limit max_files form
unfolding bounded_upload_form
bounded_upload_form-IsWithin parser content_length messages limit max_files form e =
    go (length_allowed (limit + 65536) content_length) refl e
  where
    go :
        (r : Result (Unit {0}))
        → length_allowed (limit + 65536) content_length ≡ r
        → form_of parser (limit + 65536) max_files messages r ≡ ok form
        → IsWithin parser content_length messages limit max_files form
    go (err x) l e = cc
    go (ok u) l e =
        ended-IsWithin parser content_length messages limit max_files form _ _
          (λ raw c.
            length_allowed-le (limit + 65536) raw (ap (length_allowed (limit + 65536)) (sym c) ∙ l))
          (omega (arith, total_length-fed (limit + 65536) 0 messages (omega arith))) refl e
