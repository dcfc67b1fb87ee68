-- ===== src/Utf8.antt =====
-- `str.encode("utf-8")` and `bytes.decode("utf-8")` of Python, which the package calls throughout:
-- a lone surrogate cannot be encoded, and decoding is strict. The proofs are in the children.
pub mod RoundTrip
pub mod Ascii
use micropython_systemd.Prelude.{
  ℕ, zero, suc, ◌+◌, ◌-◌, ◌*◌, ◌/◌, ◌%◌, Bool, ◌&&◌, ◌||◌, [], ◌∷◌, ◌++◌, Text, Bytes, ltb, leb,
  ◌==◌, if◌then◌else◌,
}
use micropython_systemd.Errors.{Result, ok, err, unicode_error, ◌>>=◌}

pub is_surrogate : ℕ → Bool
is_surrogate c = leb 0xD800 c && leb c 0xDFFF

pub encode_char : ℕ → Result Bytes
unfolding is_surrogate
encode_char c =
    if ltb c 0x80
    then ok (c ∷ [])
    else if ltb c 0x800
    then ok ((0xC0 + c / 64) ∷ (0x80 + c % 64) ∷ [])
    else if is_surrogate c || leb 0x110000 c
    then err unicode_error
    else if ltb c 0x10000
    then ok ((0xE0 + c / 4096) ∷ (0x80 + c / 64 % 64) ∷ (0x80 + c % 64) ∷ [])
    else ok
        ((0xF0 + c / 262144) ∷ (0x80 + c / 4096 % 64) ∷ (0x80 + c / 64 % 64) ∷ (0x80 + c % 64) ∷ [])

unfoldable pub encode : Text → Result Bytes
unfolding encode_char
encode [] = ok []
encode (c ∷ s) = do b ← encode_char c; bs ← encode s; ok (b ++ bs)

-- `need` continuation bytes are still to come; `acc` holds the bits so far, and `low` is the
-- smallest code point for which this many bytes are allowed.
pub scan : Bytes → ℕ → ℕ → ℕ → Result Text
unfolding is_surrogate
scan [] zero acc low = ok []
scan [] (suc need) acc low = err unicode_error
scan (b ∷ s) zero acc low =
    let plain = (do t ← scan s 0 0 0; ok (b ∷ t)) in
    let two = scan s 1 (b - 0xC0) 0x80 in
    let three = scan s 2 (b - 0xE0) 0x800 in
    let four = scan s 3 (b - 0xF0) 0x10000 in
    if ltb b 0x80
    then plain
    else if ltb b 0xC0
    then err unicode_error
    else if ltb b 0xE0
    then two
    else if ltb b 0xF0
    then three
    else if ltb b 0xF8
    then four
    else err unicode_error
scan (b ∷ s) (suc zero) acc low =
    let c = acc * 64 + (b - 0x80) in
    let rest = (do t ← scan s 0 0 0; ok (c ∷ t)) in
    if ltb b 0x80 || leb 0xC0 b || ltb c low || is_surrogate c || leb 0x110000 c
    then err unicode_error
    else rest
scan (b ∷ s) (suc (suc need)) acc low =
    let rest = scan s (suc need) (acc * 64 + (b - 0x80)) low in
    if ltb b 0x80 || leb 0xC0 b then err unicode_error else rest

unfoldable pub decode : Bytes → Result Text
unfolding scan
decode s = scan s 0 0 0

-- A value that is `bytes` (or `bytearray`) or `str`.
pub data Chars : Type 0 where
  raw : Bytes → Chars
  text : Text → Chars

-- The bytes of such a value; the text of one.
abbrev pub to_raw : Chars → Result Bytes
to_raw (raw b) = ok b
to_raw (text t) = encode t

abbrev pub to_text : Chars → Result Text
to_text (raw b) = decode b
to_text (text t) = ok t
