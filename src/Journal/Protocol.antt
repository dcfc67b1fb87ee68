-- ===== src/Journal/Protocol.antt =====
-- The native protocol of journald as systemd documents it: a reader of entry bodies, written from
-- the protocol and not from the package, against which the serialiser is checked. A field is NAME=
-- and a value up to a newline, or NAME, a newline, the length in 8 bytes, the least significant
-- first, the value and a newline.
use micropython_systemd.Prelude.{
  ℕ, zero, suc, Bool, true, false, List, [], ◌∷◌, Option, none, some, Bytes, length, take, drop,
  ◌==◌, if◌then◌else◌, ltb,
}
use micropython_systemd.Native.Struct.{le_value}

-- The name, whether `=` ends it, and what follows.
abbrev pub with_char : ℕ → Option (Bytes × Bool × Bytes) → Option (Bytes × Bool × Bytes)
with_char c none = none
with_char c (some (name, is_text, rest)) = some (c ∷ name, is_text, rest)

unfoldable pub read_name : Bytes → Option (Bytes × Bool × Bytes)
read_name [] = none
read_name (c ∷ s) =
    let rest = read_name s in
    if c == b'='
    then some ([], true, s)
    else if c == b'\n'
    then some ([], false, s)
    else with_char c rest

abbrev pub with_byte : ℕ → Option (Bytes × Bytes) → Option (Bytes × Bytes)
with_byte c none = none
with_byte c (some (value, rest)) = some (c ∷ value, rest)

-- The bytes up to a newline, and what follows it.
unfoldable pub read_line : Bytes → Option (Bytes × Bytes)
read_line [] = none
read_line (c ∷ s) = let rest = read_line s in if c == b'\n' then some ([], s) else with_byte c rest

-- The newline that ends a value.
abbrev pub end_of : Bytes → Bytes → Option (Bytes × Bytes)
end_of value [] = none
end_of value (c ∷ rest) = if c == b'\n' then some (value, rest) else none

-- A value behind its length.
abbrev pub read_sized : ℕ → Bytes → Option (Bytes × Bytes)
read_sized n s = if ltb (length s) n then none else end_of (take n s) (drop n s)

abbrev pub read_value : Bool → Bytes → Option (Bytes × Bytes)
read_value true s = read_line s
read_value false s = read_sized (le_value (take 8 s)) (drop 8 s)

abbrev pub named : Bytes → Option (Bytes × Bytes) → Option (Bytes × Bytes × Bytes)
named name none = none
named name (some (value, rest)) = some (name, value, rest)

abbrev pub after_name : Option (Bytes × Bool × Bytes) → Option (Bytes × Bytes × Bytes)
after_name none = none
after_name (some (name, is_text, s)) = named name (read_value is_text s)

-- One field, and what follows it.
unfoldable pub read_field : Bytes → Option (Bytes × Bytes × Bytes)
read_field s = after_name (read_name s)

abbrev pub with_field :
    Bytes → Bytes → Option (List (Bytes × Bytes)) → Option (List (Bytes × Bytes))
with_field name value none = none
with_field name value (some fields) = some ((name, value) ∷ fields)

-- The fields behind the first one.
abbrev pub and_more :
    Option (Bytes × Bytes × Bytes)
    → (Bytes → Option (List (Bytes × Bytes)))
    → Option (List (Bytes × Bytes))
and_more none more = none
and_more (some (name, value, rest)) more = with_field name value (more rest)

-- A body of `count` fields.
unfoldable pub read_entry : ℕ → Bytes → Option (List (Bytes × Bytes))
read_entry zero [] = some []
read_entry zero (c ∷ s) = none
read_entry (suc count) s = and_more (read_field s) (read_entry count)
