-- ===== src/Native/Struct.antt =====
-- Python's `struct` on native formats, and bytearrays: the byte order and the size of a word are
-- those of the ABI. The proofs are in the children.
pub mod Laws
pub mod Writes
use micropython_systemd.Prelude.{
  ℕ, zero, suc, ◌+◌, ◌-◌, ◌*◌, ◌/◌, ◌%◌, ◌^◌, Bool, [], ◌∷◌, ◌++◌, reverse, Bytes, ltb,
  if◌then◌else◌, ℤ, pos, negsuc, length, take, drop, replicate,
}

-- The native word size (4 or 8 bytes), and whether the most significant byte comes first.
pub record Abi : Type 0 where
  pub word : ℕ
  pub big_endian : Bool

abbrev pub int_size : ℕ
int_size = 4

-- The lowest `n` bytes of a number, the least significant first, and their value.
unfoldable pub le_bytes : ℕ → ℕ → Bytes
le_bytes zero v = []
le_bytes (suc n) v = (v % 256) ∷ le_bytes n (v / 256)

unfoldable pub le_value : Bytes → ℕ
le_value [] = 0
le_value (b ∷ s) = b + 256 * le_value s

abbrev pub ordered : Abi → Bytes → Bytes
ordered abi s = if abi.big_endian then reverse s else s

-- struct.pack and struct.unpack of an unsigned number of `n` bytes
unfoldable pub pack_unsigned : Abi → ℕ → ℕ → Bytes
pack_unsigned abi n v = ordered abi (le_bytes n v)

unfoldable pub unpack_unsigned : Abi → ℕ → Bytes → ℕ
unpack_unsigned abi n s = le_value (ordered abi (take n s))

-- The bit pattern of an int of `n` bytes, and the int of a pattern.
abbrev pub to_pattern : ℕ → ℤ → ℕ
to_pattern n (pos v) = v
to_pattern n (negsuc v) = 256 ^ n - 1 - v

abbrev pub of_pattern : ℕ → ℕ → ℤ
of_pattern n v = if ltb (2 * v) (256 ^ n) then pos v else negsuc (256 ^ n - 1 - v)

-- Format "i"
unfoldable pub pack_int : Abi → ℤ → Bytes
pack_int abi z = pack_unsigned abi int_size (to_pattern int_size z)

unfoldable pub unpack_int : Abi → Bytes → ℤ
unpack_int abi s = of_pattern int_size (unpack_unsigned abi int_size s)

-- Formats "L" and "P", a word
unfoldable pub pack_word : Abi → ℕ → Bytes
pack_word abi v = pack_unsigned abi abi.word v

unfoldable pub unpack_word : Abi → Bytes → ℕ
unpack_word abi s = unpack_unsigned abi abi.word s

-- Format "l"
unfoldable pub unpack_long : Abi → Bytes → ℤ
unpack_long abi s = of_pattern abi.word (unpack_unsigned abi abi.word s)

-- struct.pack_into at an offset: the bytes there are replaced.
unfoldable pub write_at : Bytes → ℕ → Bytes → Bytes
write_at buf offset s = take offset buf ++ (s ++ drop (offset + length s) buf)
