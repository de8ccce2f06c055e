-- ===== src/Debparse/Tests.antt =====
-- A small package file, read.
use prv_apt_mirror.Debparse.Control.{read_lines}
use prv_apt_mirror.Debparse.Control.{read_line}
use prv_apt_mirror.Debparse.Control.{parse_lines}
use prv_apt_mirror.Debparse.Control.{flush}
use prv_apt_mirror.Debparse.Control.{continue_field}
use prv_apt_mirror.Debparse.Control.{begin_field}
use prv_apt_mirror.Debparse.Control.{parse_control_text}
use prv_apt_mirror.Debparse.Deb.{kept_fields}
use prv_apt_mirror.Debparse.Deb.{is_unsafe_fragment}
use prv_apt_mirror.Debparse.Deb.{check_parts}
use prv_apt_mirror.Debparse.Deb.{package_of}
use prv_apt_mirror.Debparse.Deb.{find_control}
use prv_apt_mirror.Debparse.Deb.{control_from_tar}
use prv_apt_mirror.Debparse.Deb.{decompress_tar}
use prv_apt_mirror.Debparse.Deb.{read_control}
use prv_apt_mirror.Debparse.Ar.{read_members}
use prv_apt_mirror.Debparse.Ar.{member_size}
use prv_apt_mirror.Debparse.Ar.{member_name}
use prv_apt_mirror.Prelude.{parse_int}
use prv_apt_mirror.Prelude.{decimal}
use prv_apt_mirror.Prelude.{insert}
use prv_apt_mirror.Prelude.{remove}
use prv_apt_mirror.Prelude.{lookup}
use prv_apt_mirror.Prelude.{splitlines}
use prv_apt_mirror.Prelude.{lower}
use prv_apt_mirror.Prelude.{strip}
use prv_apt_mirror.Prelude.{rstrip_char}
use prv_apt_mirror.Debparse.Ar.{read_member}
use prv_apt_mirror.Prelude.{strip_bytes}
use prv_apt_mirror.Debparse.Ar.{header_size}
use prv_apt_mirror.Prelude.{
  ◌≤◌, refl, Text, codes, ◌++◌, List, [], ◌∷◌, some, none, true, length, All,
}
use prv_apt_mirror.Exec.{Result, ok, err}
use prv_apt_mirror.Host.{Host}
use prv_apt_mirror.Samples.{plain_host, foo_deb}
use prv_apt_mirror.Storage.{ParsedDeb}
use prv_apt_mirror.Debparse.Ar.{Member, read_ar_members, ar_magic}
use prv_apt_mirror.Debparse.Ar.Bounds.{IsBounded, read_ar_members-Bounded}
use prv_apt_mirror.Debparse.Deb.{parse_deb}
use prv_apt_mirror.Debparse.Deb.Safe.{IsSafe, parse_deb-IsSafe}

abbrev small_file : Text
small_file =
    ar_magic
    ++ (codes "debian-binary   0           0     0     100644  4         `\n"
        ++ (codes "2.0\n"
            ++ (codes "control.tar     0           0     0     100644  2         `\n"
                ++ (codes "xx"
                    ++ codes "data.tar        0           0     0     100644  0         `\n"))))

-- A host whose tar archives all hold one control file.
abbrev tar_host : Host
tar_host = record plain_host {
  tar_members = λ t. some (
      record {
        name = codes "./control";
        is_file = true;
        size = 41;
        content = some (codes "Package: foo\nVersion: 1\nArchitecture: all\n");
      }
      ∷ []);
}

abbrev members : List Member
members =
    (codes "debian-binary", some (codes "2.0\n"))
    ∷ (codes "control.tar", some (codes "xx"))
    ∷ (codes "data.tar", none)
    ∷ []

read_ar_members-Bounded_example : (length members ≤ 128) × All IsBounded members
unfolding read_ar_members header_size strip_bytes read_member rstrip_char strip
read_ar_members-Bounded_example = read_ar_members-Bounded small_file members refl

abbrev parsed_or : ParsedDeb → Result ParsedDeb → ParsedDeb
parsed_or d (ok p) = p
parsed_or d (err e) = d

abbrev small_deb : ParsedDeb
small_deb = parsed_or foo_deb (parse_deb tar_host none (codes "foo.deb") small_file)

parse_deb-IsSafe_example : IsSafe tar_host none small_file small_deb
unfolding lower strip_bytes rstrip_char strip splitlines lookup remove insert decimal parse_int
    read_ar_members header_size read_member member_name member_size read_members parse_deb
    read_control decompress_tar control_from_tar find_control package_of check_parts
    is_unsafe_fragment kept_fields parse_control_text begin_field continue_field flush parse_lines
    read_line read_lines
parse_deb-IsSafe_example =
    parse_deb-IsSafe tar_host none (codes "foo.deb") small_file small_deb refl
