-- ===== src/Payload.antt =====
-- mpsystemd/daemon.py, the serialiser: `_format_value`, `_check_name`, `build_payload` and
-- `check_fdname`. The proofs are in the children.
pub mod Complete
pub mod Names
pub mod Order
pub mod RoundTrip
pub mod Listener
use micropython_systemd.Prelude.{
  ℕ, ◌-◌, Bool, true, false, ◌||◌, not, List, [], ◌∷◌, ◌++◌, map, Text, Bytes, codes, length, elem,
  ltb, list_eq, ◌==◌, if◌then◌else◌, ℤ,
}
use micropython_systemd.Errors.{
  Result, ok, err, ◌>>=◌, ◌>>◌, value_error, key_error, empty, too_long, bad_first, bad_character,
  newline, nothing,
}
use micropython_systemd.Utf8
use micropython_systemd.Utf8.{Chars, to_text}
use micropython_systemd.Text.{Runtime, upper, strip, join, sorted, str_int}

abbrev pub fdname_max : ℕ
fdname_max = 255

abbrev pub name_first : Text
name_first = codes "ABCDEFGHIJKLMNOPQRSTUVWXYZ"

abbrev pub name_rest : Text
name_rest = name_first ++ codes "0123456789_"

-- The value of a field: `other` is any other object, by its `str()`.
pub data Value : Type 0 where
  bool : Bool → Value
  bytes : Bytes → Value
  str : Text → Value
  int : ℤ → Value
  other : Text → Value

unfoldable pub format_value : Value → Result Text
format_value (bool true) = ok (codes "1")
format_value (bool false) = ok (codes "0")
format_value (bytes b) = Utf8.decode b
format_value (str t) = ok t
format_value (int z) = ok (str_int z)
format_value (other t) = ok t

-- char in _NAME_FIRST, char in _NAME_REST
pub in_name_first : ℕ → Bool
in_name_first c = elem c name_first

pub in_name_rest : ℕ → Bool
in_name_rest c = elem c name_rest

-- The loop over the characters of the name.
pub check_chars : Text → Result (Unit {0})
check_chars [] = ok tt
check_chars (c ∷ s) =
    let rest = check_chars s in if in_name_rest c then rest else err (value_error bad_character)

pub check_upper : Text → Result Text
unfolding check_chars
check_upper [] = err (value_error empty)
check_upper (c ∷ s) =
    if in_name_first c then (do check_chars (c ∷ s); ok (c ∷ s)) else err (value_error bad_first)

unfoldable pub check_name : Runtime → Text → Result Text
unfolding check_upper in_name_first in_name_rest
check_name run name = check_upper (upper run name)

-- A `dict` with text keys, in its own order.
abbrev pub Fields : Type 0
Fields = List (Text × Value)

abbrev pub keys : Fields → List Text
keys = map (λ (k, _). k)

-- fields[name]
unfoldable pub get_item : Fields → Text → Result Value
get_item [] name = err key_error
get_item ((k, v) ∷ fields) name = if list_eq k name then ok v else get_item fields name

abbrev pub keep_line : Text → List Text → List Text
keep_line [] lines = lines
keep_line (c ∷ s) lines = (c ∷ s) ∷ lines

-- The loop over the raw states.
pub state_lines : List Chars → Result (List Text)
state_lines [] = ok []
state_lines (state ∷ states) = do
  t ← to_text state
  lines ← state_lines states
  ok (keep_line (strip b'\n' t) lines)

-- One round of the loop over the sorted names.
pub field_line : Runtime → Fields → Text → Result Text
field_line run fields name = do
  name' ← check_name run name
  v ← get_item fields name
  value ← format_value v
  if elem b'\n' value then err (value_error newline) else ok (name' ++ b'=' ∷ value)

pub field_lines : Runtime → Fields → List Text → Result (List Text)
unfolding field_line
field_lines run fields [] = ok []
field_lines run fields (name ∷ names) = do
  line ← field_line run fields name
  lines ← field_lines run fields names
  ok (line ∷ lines)

abbrev pub finish : List Text → Result Bytes
finish [] = err (value_error nothing)
finish (l ∷ ls) = Utf8.encode (join b'\n' (l ∷ ls) ++ b'\n' ∷ [])

unfoldable pub build_payload : Runtime → List Chars → Fields → Result Bytes
unfolding state_lines field_lines
build_payload run states fields = do
  raw_lines ← state_lines states
  lines ← field_lines run fields (sorted (keys fields))
  finish (raw_lines ++ lines)

pub check_fdname_chars : Text → Result (Unit {0})
check_fdname_chars [] = ok tt
check_fdname_chars (c ∷ s) =
    let rest = check_fdname_chars s in
    if c == b':' || ltb c 0x20 || c == 0x7F then err (value_error bad_character) else rest

unfoldable pub check_fdname : Text → Result Text
unfolding check_fdname_chars
check_fdname [] = err (value_error empty)
check_fdname (c ∷ s) =
    if ltb fdname_max (length (c ∷ s))
    then err (value_error too_long)
    else (do check_fdname_chars (c ∷ s); ok (c ∷ s))
