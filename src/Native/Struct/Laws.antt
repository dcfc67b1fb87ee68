-- ===== src/Native/Struct/Laws.antt =====
-- Unpacking what was packed.
use mathlib.Core.List.{reverse_aux, reverse-reverse}
use native.Mathlib.Nat.{pow-suc}
use micropython_systemd.Prelude.{
  ℕ, zero, suc, ◌+◌, ◌/◌, ◌^◌, ◌<◌, ◌≡◌, refl, sym, ap, ◌∙◌, [], ◌∷◌, ◌++◌, arith, Bytes, length,
  reverse, take, take_all, Bool-cases, inl, inr, ℤ, pos, negsuc,
}
use micropython_systemd.Native.Struct.{
  Abi, le_bytes, le_value, ordered, pack_unsigned, unpack_unsigned, to_pattern, of_pattern,
  pack_int, unpack_int,
}

pub length-le_bytes : (n v : ℕ) → length (le_bytes n v) ≡ n
unfolding le_bytes
length-le_bytes zero v = refl
length-le_bytes (suc n) v = ap suc (length-le_bytes n (v / 256))

pub le_value-le_bytes : (n v : ℕ) → v < 256 ^ n → le_value (le_bytes n v) ≡ v
unfolding le_bytes le_value
le_value-le_bytes zero v h = omega arith
le_value-le_bytes (suc n) v h =
    omega (arith, pow-suc 256 n, le_value-le_bytes n (v / 256) (omega (arith, pow-suc 256 n)))

length-reverse_aux : (s acc : Bytes) → length (reverse_aux s acc) ≡ length s + length acc
length-reverse_aux [] acc = omega arith
length-reverse_aux (c ∷ s) acc = omega (arith, length-reverse_aux s (c ∷ acc))

length-reverse : (s : Bytes) → length (reverse s) ≡ length s
length-reverse s = omega (arith, length-reverse_aux s [])

module _ (abi : Abi) where
  pub length-pack_unsigned : (n v : ℕ) → length (pack_unsigned abi n v) ≡ n
  unfolding pack_unsigned
  length-pack_unsigned n v = elim (Bool-cases abi.big_endian) [
    | inl p ↦ rw p (length-reverse (le_bytes n v) ∙ length-le_bytes n v)
    | inr p ↦ rw p (length-le_bytes n v)
  ]

  ordered-ordered : (s : Bytes) → ordered abi (ordered abi s) ≡ s
  ordered-ordered s = elim (Bool-cases abi.big_endian) [
    | inl p ↦ rw p (reverse-reverse s)
    | inr p ↦ rw p refl
  ]

  take_exact :
      (n v : ℕ) (rest : Bytes) → take n (pack_unsigned abi n v ++ rest) ≡ pack_unsigned abi n v
  take_exact n v rest =
      ap (λ (k : ℕ). take k (pack_unsigned abi n v ++ rest)) (sym (length-pack_unsigned n v))
      ∙ take_all (pack_unsigned abi n v) rest

  pub unpack_unsigned-pack_unsigned :
      (n v : ℕ) (rest : Bytes)
      → v < 256 ^ n
      → unpack_unsigned abi n (pack_unsigned abi n v ++ rest) ≡ v
  unfolding unpack_unsigned
  unpack_unsigned-pack_unsigned n v rest h = rw (take_exact n v rest) (
      unfold pack_unsigned in
      ap le_value (ordered-ordered (le_bytes n v)) ∙ le_value-le_bytes n v h)

-- An int of C: from -2^31 to 2^31 - 1.
abbrev pub IsInt : ℤ → Type 0
IsInt (pos v) = v < 2 ^ 31
IsInt (negsuc v) = v < 2 ^ 31

of_pattern-to_pattern : (z : ℤ) → IsInt z → of_pattern 4 (to_pattern 4 z) ≡ z
of_pattern-to_pattern (pos v) h = ground arith
of_pattern-to_pattern (negsuc v) h = ground arith

to_pattern-lt : (z : ℤ) → IsInt z → to_pattern 4 z < 256 ^ 4
to_pattern-lt (pos v) h = omega arith
to_pattern-lt (negsuc v) h = omega arith

pub length-pack_int : (abi : Abi) (z : ℤ) → length (pack_int abi z) ≡ 4
unfolding pack_int
length-pack_int abi z = length-pack_unsigned abi 4 (to_pattern 4 z)

pub unpack_int-pack_int :
    (abi : Abi) (z : ℤ) (rest : Bytes) → IsInt z → unpack_int abi (pack_int abi z ++ rest) ≡ z
unfolding unpack_int pack_int
unpack_int-pack_int abi z rest h =
    rw (unpack_unsigned-pack_unsigned abi 4 (to_pattern 4 z) rest (to_pattern-lt z h))
      (of_pattern-to_pattern z h)
