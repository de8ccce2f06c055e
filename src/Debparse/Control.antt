-- ===== src/Debparse/Control.antt =====
-- `_parse_control_text` of debparse.py.
use prv_apt_mirror.Prelude.{
  Text, codes, List, [], ◌∷◌, ◌++◌, Option, none, some, if◌then◌else◌, take, text_eq, has_char,
  ◌==◌, strip, lstrip, rstrip_char, join, Dict, insert, splitlines, ◌||◌, not,
}
use prv_apt_mirror.Exec.{Result, ok, err, deb_parse_error, value_error}
use prv_apt_mirror.Host.{Host}

-- The variables of the loop.
pub record Reading : Type 0 where
  pub result : Dict Text
  pub current : Option Text
  pub buf : List Text

abbrev pub line_break : Text
line_break = 10 ∷ []

-- `flush()`
unfoldable pub flush : Reading → Reading
flush r = elim r.current [
  | none ↦ r
  | some key ↦ record {
    result = insert key (rstrip_char 10 (join line_break r.buf)) r.result;
    current = none;
    buf = [];
  }
]

-- `line.partition(":")`, the part before the colon and the part after it
abbrev before_colon : Text → Text
before_colon [] = []
before_colon (c ∷ s) = let rest = before_colon s in if c == b':' then [] else c ∷ rest

abbrev after_colon : Text → Text
after_colon [] = []
after_colon (c ∷ s) = let rest = after_colon s in if c == b':' then s else rest

-- A line that begins with a space or a tab goes on with the field above it.
abbrev pub continuation : Text → Text
continuation rest = if text_eq rest (codes ".") then [] else rest

unfoldable pub continue_field : Text → Reading → Result Reading
continue_field rest r = elim r.current [
  | none ↦ err (deb_parse_error (codes "control 续行没有对应字段"))
  | some key ↦ ok (record r { buf = r.buf ++ continuation rest ∷ [] })
]

unfoldable pub begin_field : Text → Reading → Result Reading
begin_field line r =
    if not (has_char b':' line)
    then err (deb_parse_error (codes "control 字段缺少冒号: " ++ take 80 line))
    else ok (record r {
      current = some (strip (before_colon line));
      buf = lstrip (after_colon line) ∷ [];
    })

-- one turn of the loop
unfoldable pub read_line : Text → Reading → Result Reading
unfolding continue_field begin_field flush
read_line [] r = ok r
read_line (c ∷ s) r =
    if c == b' ' || c == 9 then continue_field s r else begin_field (c ∷ s) (flush r)

abbrev then_lines : (Reading → Result Reading) → Result Reading → Result Reading
then_lines f (ok r) = f r
then_lines f (err e) = err e

unfoldable pub read_lines : List Text → Reading → Result Reading
unfolding read_line
read_lines [] r = ok r
read_lines (l ∷ ls) r = then_lines (read_lines ls) (read_line l r)

abbrev pub start_reading : Reading
start_reading = record { result = []; current = none; buf = [] }

abbrev flushed : Result Reading → Result (Dict Text)
flushed (ok r) = ok (flush r).result
flushed (err e) = err e

unfoldable pub parse_lines : List Text → Result (Dict Text)
unfolding read_lines
parse_lines ls = flushed (read_lines ls start_reading)

abbrev decoded : Option Text → Result (Dict Text)
decoded none = err (value_error (codes "invalid UTF-8"))
decoded (some text) = parse_lines (splitlines text)

unfoldable pub parse_control_text : Host → Text → Result (Dict Text)
unfolding parse_lines
parse_control_text h raw = decoded (h.decode raw)
