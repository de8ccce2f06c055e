-- ===== src/Debparse/Ar/Bounds.antt =====
-- debparse.py: what bounds the members that `_read_ar_members` returns.
use prv_apt_mirror.Prelude.{
  ℕ, zero, suc, ◌≤◌, ◌≡◌, Text, true, false, List, [], ◌∷◌, none, some, arith, All, length, take,
  drop, length-take_le, ◌||◌,
}
use prv_apt_mirror.Results.{bind}
use prv_apt_mirror.Exec.{Result, ok, err}
use prv_apt_mirror.Debparse.Ar.{
  Member, Seen, read_member, read_members, read_ar_members, header_size, member_name, after_header,
  padded, is_binary_name, is_control_name, member_limit, max_ar_members,
}

-- Only the two kinds of members that are needed have data, within the limit of its kind.
abbrev pub IsBounded : Member → Type 0
IsBounded (name, none) = Unit
IsBounded (name, some data') =
    ((is_binary_name name || is_control_name name) ≡ true) × (length data' ≤ member_limit name)

abbrev BoundedMember : Result (Member × Seen) → Type 0
BoundedMember (err e) = Unit
BoundedMember (ok (m, seen)) = IsBounded m

read_member-Bounded :
    (name : Text) (size : ℕ) (rest : Text) (seen : Seen)
    → BoundedMember (read_member name size rest seen)
unfolding read_member
read_member-Bounded name size rest seen = ground (arith, length-take_le size rest)

abbrev Bounded : ℕ → Result (List Member) → Type 0
Bounded room (err e) = Unit
Bounded room (ok ms) = (length ms ≤ room) × All IsBounded ms

Bounded-cons :
    (room : ℕ) (m : Member) (r : Result (List Member))
    → IsBounded m
    → Bounded room r
    → Bounded (suc room) (bind r (λ ms. ok (m ∷ ms)))
Bounded-cons room m (ok ms) one (few, rest) = (omega arith, (one, rest))
Bounded-cons room m (err e) one rest = tt

Bounded-found :
    (room : ℕ) (r : Result (Member × Seen)) (f : Member × Seen → Result (List Member))
    → BoundedMember r
    → ((found : Member × Seen) → Bounded room (f found))
    → Bounded (suc room) (bind r (λ found. bind (f found) (λ ms. ok (found.0 ∷ ms))))
Bounded-found room (ok (m, seen)) f one rest =
    Bounded-cons room m (f (m, seen)) one (rest (m, seen))
Bounded-found room (err e) f one rest = tt

Bounded-sized :
    (room : ℕ) (r : Result ℕ) (f : ℕ → Result (List Member))
    → ((size : ℕ) → Bounded room (f size))
    → Bounded room (bind r f)
Bounded-sized room (ok size) f h = h size
Bounded-sized room (err e) f h = tt

read_members-Bounded :
    (room : ℕ) (rest : Text) (seen : Seen) → Bounded room (read_members room rest seen)
unfolding read_members
read_members-Bounded room [] seen = (omega arith, tt)
read_members-Bounded zero (c ∷ rest) seen =
    Bounded-sized zero (header_size true (c ∷ rest)) _ (λ size. tt)
read_members-Bounded (suc room) (c ∷ rest) seen =
    Bounded-sized (suc room) (header_size false (c ∷ rest)) _ λ size.
      Bounded-found room
        (read_member (member_name (take 60 (c ∷ rest))) size (after_header (c ∷ rest)) seen) _
        (read_member-Bounded (member_name (take 60 (c ∷ rest))) size (after_header (c ∷ rest)) seen)
        (λ found. read_members-Bounded room (drop (padded size) (after_header (c ∷ rest))) found.1)

-- `_read_ar_members` returns at most 128 members. Only members debian-binary and control.tar
-- have data, of at most 16 bytes and at most 16 MiB.
pub read_ar_members-Bounded :
    (file : Text) (ms : List Member)
    → read_ar_members file ≡ ok ms
    → (length ms ≤ 128) × All IsBounded ms
unfolding read_ar_members
read_ar_members-Bounded file ms e = ground (
  arith,
  read_members-Bounded max_ar_members (drop 8 file)
      (record { debian_binary = false; control_tar = false }),
)
