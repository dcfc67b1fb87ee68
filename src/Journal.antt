-- ===== src/Journal.antt =====
-- mpsystemd/journal.py, the serialiser: field names, the two forms of a field, whole entries, and
-- the priority of a logging level. The proofs are in the children.
pub mod Complete
pub mod Handler
pub mod Writer
pub mod Shared
pub mod Names
pub mod Protocol
pub mod RoundTrip
use micropython_systemd.Prelude.{
  ℕ, ◌%◌, ◌^◌, Bool, true, false, List, [], ◌∷◌, ◌++◌, Text, Bytes, codes, length, elem, ltb, leb,
  ◌==◌, if◌then◌else◌, ℤ, pos, negsuc,
}
use micropython_systemd.Errors.{
  Result, ok, err, ◌>>=◌, ◌>>◌, journal_error, value_error, empty, too_long, reserved,
  starts_with_digit, bad_character, nothing,
}
use micropython_systemd.Utf8
use micropython_systemd.Text.{Runtime, upper, sorted, str_int}
use micropython_systemd.Payload.{Value, bool, bytes, str, int, other, Fields, keys, get_item}
use micropython_systemd.Native.Struct.{le_bytes}

abbrev pub field_name_max : ℕ
field_name_max = 64

abbrev pub name_chars : Text
name_chars = codes "ABCDEFGHIJKLMNOPQRSTUVWXYZ0123456789_"

abbrev pub digit_chars : Text
digit_chars = codes "0123456789"

-- char in _NAME_CHARS, upper[0] in _DIGITS
pub in_name_chars : ℕ → Bool
in_name_chars c = elem c name_chars

pub in_digits : ℕ → Bool
in_digits c = elem c digit_chars

pub check_chars : Text → Result (Unit {0})
check_chars [] = ok tt
check_chars (c ∷ s) =
    let rest = check_chars s in if in_name_chars c then rest else err (journal_error bad_character)

pub check_upper : Text → Result Text
unfolding check_chars
check_upper [] = err (journal_error empty)
check_upper (c ∷ s) =
    if ltb field_name_max (length (c ∷ s))
    then err (journal_error too_long)
    else if c == b'_'
    then err (journal_error reserved)
    else if in_digits c
    then err (journal_error starts_with_digit)
    else (do check_chars (c ∷ s); ok (c ∷ s))

unfoldable pub check_field_name : Runtime → Text → Result Text
unfolding check_upper in_name_chars in_digits
check_field_name run name = check_upper (upper run name)

unfoldable pub as_bytes : Value → Result Bytes
as_bytes (bytes b) = ok b
as_bytes (bool true) = ok (codes "1")
as_bytes (bool false) = ok (codes "0")
as_bytes (str t) = Utf8.encode t
as_bytes (int z) = Utf8.encode (str_int z)
as_bytes (other t) = Utf8.encode t

-- The two forms of a field, once its name is checked: the name is ASCII, so it is its own encoding;
-- struct.pack("<Q", …) is the length in 8 bytes.
pub frame : Bytes → Bytes → Bytes
frame name raw =
    if elem b'\n' raw
    then name ++ b'\n' ∷ (le_bytes 8 (length raw) ++ (raw ++ b'\n' ∷ []))
    else name ++ b'=' ∷ (raw ++ b'\n' ∷ [])

unfoldable pub encode_field : Runtime → Text → Value → Result Bytes
unfolding frame
encode_field run name value = do
  name' ← check_field_name run name
  raw ← as_bytes value
  ok (frame name' raw)

-- A mapping, or a sequence of pairs.
pub data Entry : Type 0 where
  mapping : Fields → Entry
  pairs : List (Text × Value) → Entry

-- [(name, fields[name]) for name in names]
pub items_of : Fields → List Text → Result (List (Text × Value))
items_of fields [] = ok []
items_of fields (name ∷ names) = do
  v ← get_item fields name
  rest ← items_of fields names
  ok ((name, v) ∷ rest)

unfoldable pub items : Entry → Result (List (Text × Value))
unfolding items_of
items (mapping fields) = items_of fields (sorted (keys fields))
items (pairs ps) = ok ps

pub encode_items : Runtime → List (Text × Value) → Result Bytes
encode_items run [] = ok []
encode_items run ((name, value) ∷ rest) = do
  b ← encode_field run name value
  bs ← encode_items run rest
  ok (b ++ bs)

abbrev pub encode_nonempty : Runtime → List (Text × Value) → Result Bytes
encode_nonempty run [] = err (journal_error nothing)
encode_nonempty run (p ∷ ps) = encode_items run (p ∷ ps)

unfoldable pub encode_fields : Runtime → Entry → Result Bytes
unfolding encode_items
encode_fields run fields = do ps ← items fields; encode_nonempty run ps

-- Syslog priorities and logging levels.
abbrev pub crit : ℕ
crit = 2

abbrev pub error_priority : ℕ
error_priority = 3

abbrev pub warning : ℕ
warning = 4

abbrev pub info : ℕ
info = 6

abbrev pub debug : ℕ
debug = 7

abbrev pub at_least : ℤ → ℕ → Bool
at_least (pos n) m = leb m n
at_least (negsuc n) m = false

unfoldable pub priority_for_level : ℤ → ℕ
priority_for_level levelno =
    if at_least levelno 50
    then crit
    else if at_least levelno 40
    then error_priority
    else if at_least levelno 30
    then warning
    else if at_least levelno 20
    then info
    else debug
