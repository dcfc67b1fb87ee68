-- ===== src/Address.antt =====
-- mpsystemd/_address.py: the sun_path bytes of a systemd socket address.
pub mod Laws
use micropython_systemd.Prelude.{
  ℕ, ◌-◌, Bool, true, false, ◌||◌, [], ◌∷◌, Text, Bytes, codes, length, drop, ltb, ◌==◌, ◌&&◌,
  if◌then◌else◌,
}
use micropython_systemd.Errors.{
  Result, ok, err, ◌>>=◌, address_error, empty, too_long, vsock, not_absolute,
}
use micropython_systemd.Utf8.{Chars, to_raw}

abbrev pub sun_path_size : ℕ
sun_path_size = 108

abbrev pub nul : ℕ
nul = 0

abbrev pub abstract_prefix : ℕ
abstract_prefix = b'@'

abbrev pub starts_with : Bytes → Bytes → Bool
starts_with s [] = true
starts_with [] (p ∷ ps) = false
starts_with (c ∷ s) (p ∷ ps) = c == p && starts_with s ps

-- The part for an abstract name, whose first byte is NUL by now.
pub place_abstract : Bytes → Result Bytes
place_abstract b = if ltb sun_path_size (length b) then err (address_error too_long) else ok b

pub place_path : Bytes → Result Bytes
place_path b = if ltb (sun_path_size - 1) (length b) then err (address_error too_long) else ok b

pub refuse : Bytes → Result Bytes
refuse b =
    if starts_with b (codes "vsock:") || starts_with b (codes "vsock-")
    then err (address_error vsock)
    else err (address_error not_absolute)

unfoldable pub place : Bytes → Result Bytes
unfolding place_abstract place_path refuse
place [] = err (address_error empty)
place (first ∷ rest) =
    if first == abstract_prefix
    then place_abstract (nul ∷ rest)
    else if first == nul
    then place_abstract (first ∷ rest)
    else if first == b'/'
    then place_path (first ∷ rest)
    else refuse (first ∷ rest)

unfoldable pub encode_unix_address : Chars → Result Bytes
unfolding place
encode_unix_address address = do b ← to_raw address; place b

abbrev pub is_abstract : Bytes → Bool
is_abstract [] = false
is_abstract (first ∷ rest) = first == nul

-- `replace` is bytes.decode("utf-8", "replace").
unfoldable pub describe : (Bytes → Text) → Bytes → Text
describe replace sun_path =
    if is_abstract sun_path then abstract_prefix ∷ replace (drop 1 sun_path) else replace sun_path
