-- ===== src/Datagram.antt =====
-- mpsystemd/testing.py, class Datagram: what a listener makes of a received notification.
pub mod Lines
use micropython_systemd.Prelude.{
  Bool, true, false, List, [], ◌∷◌, Text, Bytes, list_eq, ◌==◌, if◌then◌else◌, ℤ, Option, none,
  some,
}
use micropython_systemd.Errors.{Result, ok, ◌>>=◌}
use micropython_systemd.Utf8
use micropython_systemd.Text.{split}

pub record Datagram : Type 0 where
  pub contents : Bytes
  pub fds : List ℤ

-- self.data.decode("utf-8")
abbrev pub text : Datagram → Result Text
text d = Utf8.decode d.contents

-- [line for line in parts if line]
abbrev pub nonempty : List Text → List Text
nonempty [] = []
nonempty ([] ∷ ps) = nonempty ps
nonempty ((c ∷ p) ∷ ps) = (c ∷ p) ∷ nonempty ps

abbrev pub lines_of : Text → List Text
lines_of t = nonempty (split b'\n' t)

unfoldable pub lines : Datagram → Result (List Text)
lines d = do t ← text d; ok (lines_of t)

-- A `dict` of texts in insertion order.
abbrev pub Mapping : Type 0
Mapping = List (Text × Text)

-- parsed[name] = value
unfoldable pub put : Text → Text → Mapping → Mapping
put name value [] = (name, value) ∷ []
put name value ((k, v) ∷ m) =
    let rest = put name value m in if list_eq k name then (k, value) ∷ m else (k, v) ∷ rest

-- parsed.get(name)
unfoldable pub get : Text → Mapping → Option Text
get name [] = none
get name ((k, v) ∷ m) = if list_eq k name then some v else get name m

-- line.split("=", 1) where the line has a "=", and (line, "") where it has none.
unfoldable pub parse_line : Text → Text × Text
parse_line [] = ([], [])
parse_line (c ∷ s) =
    let (name, value) = parse_line s in if c == b'=' then ([], s) else (c ∷ name, value)

unfoldable pub parse_lines : List Text → Mapping → Mapping
parse_lines [] parsed = parsed
parse_lines (line ∷ rest) parsed =
    let (name, value) = parse_line line in parse_lines rest (put name value parsed)

unfoldable pub fields : Datagram → Result Mapping
fields d = do ls ← lines d; ok (parse_lines ls [])
