-- ===== src/SourceSync/Download/Limits.antt =====
-- source_sync.py and storage.py: the file that a download leaves in `incoming_dir`.
use prv_apt_mirror.Prelude.{
  ℕ, zero, suc, ◌+◌, ◌≤◌, ◌≡◌, refl, ap, sym, ◌∙◌, subst, Text, Bool, true, false, List, [], ◌∷◌,
  ◌++◌, Option, none, some, arith, lookup, insert, lookup-insert, text_eq_refl, text_eq_iff, length,
  length-append, take, is_empty, if◌then◌else◌, Dict, ltb, ◌==◌, ==_iff,
}
use prv_apt_mirror.Exec.{raise, pure, lift, on_error, ◌>>◌, ◌>>=◌, Result, ok, err, continue}
use prv_apt_mirror.Config.{Config, max_upload_bytes}
use prv_apt_mirror.Files.{File}
use prv_apt_mirror.World.{World, when, Io, Faults, returned, write_incoming, sync_file}
use prv_apt_mirror.Debparse.Ar.{ar_magic}
use prv_apt_mirror.SourceSync.Download.{
  Response, Net, Stream, yields, ends, raises, write_chunks, chunk_written, too_large, short_body,
  validated_chunks, append_text, write_incoming_stream, write_opened, save_response, length_check,
  raise_for_status, over_limit, download, unlink_incoming, new_incoming, disk_preflight,
}

-- A stream whose text, if it ends, begins as an ar archive does.
abbrev Begins : Stream → Type 0
Begins ends = ⊥
Begins (raises e) = Unit
Begins (yields c rest) = take 8 c ≡ ar_magic

short_body-Begins : (r : Response) (o : Option Text) → Begins (short_body r o)
short_body-Begins r none = tt
short_body-Begins r (some m) = tt

pub validated_chunks-Begins :
    (net : Net) (r : Response) (prefix : Text) (cs : List Text)
    → Begins (validated_chunks net r prefix cs)
unfolding validated_chunks
validated_chunks-Begins net r prefix [] = short_body-Begins r r.broken
validated_chunks-Begins net r prefix (c ∷ cs) = ground (
  arith,
  text_eq_iff (take 8 (prefix ++ c)) ar_magic,
  validated_chunks-Begins net r (prefix ++ c) cs,
)

take-append : (n : ℕ) (xs ys : Text) → length (take n xs) ≡ n → take n (xs ++ ys) ≡ take n xs
take-append zero xs ys e = refl
take-append (suc n) [] ys e = absurd (omega (arith, e))
take-append (suc n) (x ∷ xs) ys e = ap (λ t. x ∷ t) (take-append n xs ys (omega (arith, e)))

-- The file of a download: it begins as an ar archive, and is not longer than the limit.
pub record IsSaved (limit : ℕ) (dest : Text) (incoming : Dict File) : Type 0 where
  pub file : File
  pub found : lookup dest incoming ≡ some file
  pub magic : take 8 file.content ≡ ar_magic
  pub bound : length file.content ≤ limit

abbrev Written : ℕ → Text → Result (Unit {0}) × World → Type 0
Written limit dest (err e, w) = Unit
Written limit dest (ok _, w) = IsSaved limit dest w.incoming

appended : Text → File → Text → World → World
appended dest f c w = record w {
  files = record w.files { incoming = append_text dest (some f) w.incoming c };
}

lookup-appended :
    (dest c : Text) (f : File) (m : Dict File)
    → lookup dest (append_text dest (some f) m c) ≡ some (record f { content = f.content ++ c })
lookup-appended dest c f m =
    ground
      (arith, lookup-insert dest dest (record f { content = f.content ++ c }) m, text_eq_refl dest)

within_limit : (a b : ℕ) → ltb a b ≡ false → b ≤ a
within_limit a b e = ground arith

module _ (os : Faults) (limit : ℕ) (dest : Text) where
  -- what one chunk does, once it is known to fit
  write_one :
      (c : Text) (rest : Stream) (written : ℕ) (w : World) (f : File)
      → lookup dest w.incoming ≡ some f
      → ((v : World)
          → lookup dest v.incoming ≡ some (record f { content = f.content ++ c })
          → Written limit dest (write_chunks os limit dest (written + length c) rest v))
      → Written limit dest (
          chunk_written
            (os (write_incoming dest))
            dest
            c
            (write_chunks os limit dest (written + length c) rest)
            w)
  write_one c rest written w f found next = go (os (write_incoming dest))
    where
      go :
          (o : Option Text)
          → Written limit dest
              (chunk_written o dest c (write_chunks os limit dest (written + length c) rest) w)
      go none = next _ (
          subst
            (λ o.
              lookup dest (append_text dest o w.incoming c)
              ≡ some (record f { content = f.content ++ c }))
            (sym found) (lookup-appended dest c f w.incoming))
      go (some m) = tt

  chosen :
      (a b : Bool) (x z : Io (Unit {0})) (w : World)
      → Written limit dest (x w)
      → (b ≡ false → Written limit dest (z w))
      → Written limit dest ((if a then x else if b then raise too_large else z) w)
  chosen true b x z w one other = one
  chosen false true x z w one other = tt
  chosen false false x z w one other = other refl

  write_chunks-Written :
      (s : Stream) (written : ℕ) (w : World) (f : File)
      → lookup dest w.incoming ≡ some f
      → take 8 f.content ≡ ar_magic
      → length f.content ≡ written
      → written ≤ limit
      → Written limit dest (write_chunks os limit dest written s w)
  unfolding write_chunks
  write_chunks-Written ends written w f found magic size fits = record {
    file = f;
    found = found;
    magic = magic;
    bound = omega (arith, size, fits);
  }
  write_chunks-Written (raises e) written w f found magic size fits = tt
  write_chunks-Written (yields c rest) written w f found magic size fits =
      chosen (is_empty c) (ltb limit (written + length c)) (write_chunks os limit dest written rest)
        _ w (write_chunks-Written rest written w f found magic size fits)
        (λ within. write_one c rest written w f found λ v there.
          write_chunks-Written rest (written + length c) v (record f { content = f.content ++ c })
            there (take-append 8 f.content c (ap length magic) ∙ magic)
            (omega (arith, size, length-append f.content c)) (within_limit _ _ within))

  first-Written :
      (s : Stream) (w : World) (f : File)
      → Begins s
      → lookup dest w.incoming ≡ some f
      → f.content ≡ []
      → Written limit dest (write_chunks os limit dest 0 s w)
  unfolding write_chunks
  first-Written ends w f b found empty = elim b [ ]
  first-Written (raises e) w f b found empty = tt
  first-Written (yields [] rest) w f b found empty = absurd (omega (arith, ap length b))
  first-Written (yields (x ∷ c) rest) w f b found empty =
      chosen false (ltb limit (0 + length (x ∷ c))) (raise too_large) _ w tt (λ within.
        write_one (x ∷ c) rest 0 w f found λ v there.
          write_chunks-Written rest (0 + length (x ∷ c)) v
            (record f { content = f.content ++ (x ∷ c) }) there
            (ap (λ t. take 8 (t ++ (x ∷ c))) empty ∙ b)
            (omega (arith, length-append f.content (x ∷ c), ap length empty))
            (within_limit _ _ within))

-- How writing a stream ends: with an error, or with a file that is complete.
abbrev pub Saved : ℕ → Result Text × World → Type 0
Saved limit (err e, w) = Unit
Saved limit (ok dest, w) = IsSaved limit dest w.incoming

write_opened-Saved :
    (os : Faults) (limit : ℕ) (dest : Text) (s : Stream) (w : World) (f : File)
    → Begins s
    → lookup dest w.incoming ≡ some f
    → f.content ≡ []
    → Saved limit (write_opened os limit dest s w)
unfolding write_opened
write_opened-Saved os limit dest s w f b found empty =
    go (write_chunks os limit dest 0 s w) (first-Written os limit dest s w f b found empty)
      (os (sync_file dest))
  where
    synced : Option Text → Result (Unit {0}) × World → Result (Unit {0}) × World
    synced o (r, v) = continue r (λ _. returned o) v

    go :
        (r : Result (Unit {0}) × World)
        → Written limit dest r
        → (o : Option Text)
        → Saved limit (
            let (x, v) = on_error (λ _. synced o r) (unlink_incoming dest) w in
            continue x (λ _. pure dest) v)
    go (ok x, v) saved none = saved
    go (ok x, v) saved (some m) = tt
    go (err e, v) saved o = tt

module _ (net : Net) (os : Faults) (limit : ℕ) where
  write_incoming_stream-Saved :
      (s : Stream) (w : World) → Begins s → Saved limit (write_incoming_stream net os limit s w)
  unfolding write_incoming_stream disk_preflight
  write_incoming_stream-Saved s w b =
      let dest = net.fresh_name w in
      let f = new_incoming (net.inode w) in
      let opened = record w { files = record w.files { incoming = insert dest f w.incoming } } in
      ground (
        arith,
        write_opened-Saved os limit dest s opened f b
            (ground (arith, lookup-insert dest dest f w.incoming, text_eq_refl dest)) refl,
      )

-- How a download ends: with an error, with the answer 304, or with such a file.
abbrev pub Downloaded : ℕ → Result (Option Text × Response) × World → Type 0
Downloaded limit (err e, w) = Unit
Downloaded limit (ok (none, r), w) = r.status_code ≡ 304
Downloaded limit (ok (some name, r), w) = IsSaved limit name w.incoming × (r.refused ≡ none)

module _ (net : Net) (os : Faults) (cfg : Config) where
  abbrev Accepted : Response → Result Text × World → Type 0
  Accepted r (err e, w) = Unit
  Accepted r (ok name, w) = IsSaved (max_upload_bytes cfg) name w.incoming × (r.refused ≡ none)

  accepted :
      (r : Response) (s : Result Text × World)
      → r.refused ≡ none
      → Saved (max_upload_bytes cfg) s
      → Accepted r s
  accepted r (ok name, v) e saved = (saved, e)
  accepted r (err x, v) e saved = tt

  save_response-Accepted : (r : Response) (w : World) → Accepted r (save_response net os cfg r w)
  unfolding save_response
  save_response-Accepted r w =
      go r.refused refl (length_check cfg r.content_length)
        (write_incoming_stream net os (max_upload_bytes cfg) (validated_chunks net r [] r.chunks))
        (λ v.
          write_incoming_stream-Saved net os (max_upload_bytes cfg)
            (validated_chunks net r [] r.chunks) v (validated_chunks-Begins net r [] r.chunks))
    where
      go :
          (o : Option Text)
          → r.refused ≡ o
          → (l : Result Bool) (m : Io Text) → ((v : World) → Saved (max_upload_bytes cfg) (m v))
          → Accepted r
              ((raise_for_status o >> (lift l >>= λ large. when large (raise over_limit) >> m)) w)
      go (some x) e l m saved = tt
      go none e (err x) m saved = tt
      go none e (ok true) m saved = tt
      go none e (ok false) m saved = accepted r (m w) e (saved w)

  -- However the remote host cuts its answer into chunks, and whatever length it has announced:
  -- when a download returns the name of a file, the file is there, its first 8 bytes are those
  -- of an ar archive, it is no longer than the limit of the settings, and the answer was one
  -- that `raise_for_status` accepts. When it returns no name, the status was 304.
  pub download-Downloaded :
      (url : Text) (etag last_modified : Option Text) (w : World)
      → Downloaded (max_upload_bytes cfg) (download net os cfg url etag last_modified w)
  unfolding download
  download-Downloaded url etag last_modified w = go (net.get url etag last_modified)
    where
      saved :
          (r : Response) (s : Result Text × World)
          → Accepted r s
          → Downloaded (max_upload_bytes cfg) (continue s.0 (λ name. pure (some name, r)) s.1)
      saved r (ok name, v) a = a
      saved r (err x, v) a = tt

      either :
          (r : Response) (b : Bool)
          → (b ≡ true → r.status_code ≡ 304)
          → Downloaded (max_upload_bytes cfg) (
              (if b
                  then pure (none, r)
                  else (save_response net os cfg r >>= λ name. pure (some name, r)))
                w)
      either r true e = e refl
      either r false e = saved r (save_response net os cfg r w) (save_response-Accepted r w)

      go :
          (a : Result Response)
          → Downloaded (max_upload_bytes cfg) (
              (lift a >>= λ r.
              if r.status_code == 304
              then pure (none, r)
              else (save_response net os cfg r >>= λ name. pure (some name, r)))
                w)
      go (ok r) = either r (r.status_code == 304) ((==_iff r.status_code 304).0)
      go (err x) = tt
