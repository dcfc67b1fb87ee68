-- ===== src/Native/Ancillary/Layout.antt =====
-- The layout of the control buffer of mpsystemd/_impl_mp.py.
use micropython_systemd.Prelude.{
  ℕ, ◌+◌, ◌-◌, ◌*◌, ◌%◌, ◌^◌, ◌≤◌, ◌<◌, ◌≡◌, ◌⊎◌, inl, inr, refl, sym, ap, ◌∙◌, List, [], ◌∷◌, ◌++◌,
  append_assoc, arith, Bytes, length, drop, replicate, length-append, length-replicate, drop_all,
  All, ℤ, pos,
}
use micropython_systemd.Native.Struct.{Abi, pack_int, pack_word, unpack_word}
use micropython_systemd.Native.Struct.Laws.{
  IsInt, length-pack_int, length-pack_unsigned, unpack_int-pack_int, unpack_unsigned-pack_unsigned,
}
use micropython_systemd.Native.Struct.Writes.{write_at_middle, replicate-add}
use micropython_systemd.Native.Ancillary.{
  cmsg_align, cmsg_hdr_size, pack_ints, unpack_ints, scm_rights,
}

-- The two word sizes of Linux.
abbrev pub IsAbi : Abi → Type 0
IsAbi abi = (abi.word ≡ 4) ⊎ (abi.word ≡ 8)

pub cmsg_hdr_size_lem : (abi : Abi) → IsAbi abi → cmsg_hdr_size abi ≡ abi.word + 8
unfolding cmsg_hdr_size
cmsg_hdr_size_lem abi (inl e) = rw e refl
cmsg_hdr_size_lem abi (inr e) = rw e refl

-- Rounding up goes to the next multiple of the word size.
pub cmsg_align_lem :
    (abi : Abi) (size : ℕ)
    → IsAbi abi
    → (cmsg_align abi size % abi.word ≡ 0)
      × (size ≤ cmsg_align abi size)
      × (cmsg_align abi size < size + abi.word)
unfolding cmsg_align
cmsg_align_lem abi size (inl e) = rw e (omega arith, omega arith, omega arith)
cmsg_align_lem abi size (inr e) = rw e (omega arith, omega arith, omega arith)

pub length-pack_ints : (abi : Abi) (fds : List ℤ) → length (pack_ints abi fds) ≡ 4 * length fds
unfolding pack_ints
length-pack_ints abi [] = refl
length-pack_ints abi (fd ∷ fds) = omega (
  arith,
  length-append (pack_int abi fd) (pack_ints abi fds),
  length-pack_int abi fd,
  length-pack_ints abi fds,
)

pub unpack_ints-pack_ints :
    (abi : Abi) (fds : List ℤ) (rest : Bytes)
    → All IsInt fds
    → unpack_ints abi (length fds) (pack_ints abi fds ++ rest) ≡ fds
unfolding pack_ints unpack_ints
unpack_ints-pack_ints abi [] rest h = refl
unpack_ints-pack_ints abi (fd ∷ fds) rest (hf, h) =
    let more = pack_ints abi fds ++ rest in
    let behind : drop 4 (pack_int abi fd ++ more) ≡ more =
      ap (λ (k : ℕ). drop k (pack_int abi fd ++ more)) (sym (length-pack_int abi fd))
      ∙ drop_all (pack_int abi fd) more in
    rw
      (
        append_assoc (pack_int abi fd) (pack_ints abi fds) rest,
        unpack_int-pack_int abi fd more hf,
        behind,
        unpack_ints-pack_ints abi fds rest h,
      )
      refl

pub length-pack_word : (abi : Abi) (v : ℕ) → length (pack_word abi v) ≡ abi.word
unfolding pack_word
length-pack_word abi v = length-pack_unsigned abi abi.word v

pub unpack_word-pack_word :
    (abi : Abi) (v : ℕ) (rest : Bytes)
    → v < 256 ^ abi.word
    → unpack_word abi (pack_word abi v ++ rest) ≡ v
unfolding pack_word unpack_word
unpack_word-pack_word abi v rest h = unpack_unsigned-pack_unsigned abi abi.word v rest h

module _ (abi : Abi) (fds : List ℤ) (is_abi : IsAbi abi) where
  abbrev size : ℕ
  size = 4 * length fds

  abbrev pub kinds : Bytes
  kinds = pack_int abi (pos 1) ++ pack_int abi (pos 1)

  abbrev pub padding : Bytes
  padding = replicate (cmsg_align abi size - size) 0

  pub length-kinds : length kinds ≡ 8
  length-kinds = omega (
    arith,
    length-append (pack_int abi (pos 1)) (pack_int abi (pos 1)),
    length-pack_int abi (pos 1),
  )

  zeros :
      replicate (abi.word + 8 + cmsg_align abi size) 0
      ≡ replicate abi.word 0 ++ (replicate 8 0 ++ (replicate size 0 ++ padding))
  zeros =
      let (_, fits, _) = cmsg_align_lem abi size is_abi in
      let e : abi.word + 8 + cmsg_align abi size
          ≡ abi.word + (8 + (size + (cmsg_align abi size - size))) =
        omega arith in
      rw
        (
          e,
          replicate-add abi.word (8 + (size + (cmsg_align abi size - size))) 0,
          replicate-add 8 (size + (cmsg_align abi size - size)) 0,
          replicate-add size (cmsg_align abi size - size) 0,
        )
        refl

  -- On both word sizes the control buffer is a cmsghdr without holes, which is the length of header
  -- and descriptors as a word and then the level SOL_SOCKET and the type SCM_RIGHTS as ints, and
  -- behind it the descriptors as ints and zeros up to a whole number of words.
  pub scm_rights_layout :
      scm_rights abi fds
      ≡ pack_word abi (abi.word + 8 + size) ++ (kinds ++ (pack_ints abi fds ++ padding))
  unfolding scm_rights
  scm_rights_layout =
      let w = pack_word abi (abi.word + 8 + size) in
      let tail₁ : Bytes = replicate 8 0 ++ (replicate size 0 ++ padding) in
      let tail₂ : Bytes = replicate size 0 ++ padding in
      let first =
        write_at_middle [] (replicate abi.word 0) tail₁ w 0 refl (
          length-pack_word abi (abi.word + 8 + size) ∙ sym (length-replicate {A = ℕ} abi.word 0)) in
      let second =
        write_at_middle w (replicate 8 0) tail₂ kinds abi.word
          (sym (length-pack_word abi (abi.word + 8 + size)))
          (length-kinds ∙ sym (length-replicate {A = ℕ} 8 0)) in
      let both : abi.word + 8 ≡ length (w ++ kinds) =
        omega (
          arith,
          length-append w kinds,
          length-kinds,
          length-pack_word abi (abi.word + 8 + size),
        ) in
      let third =
        write_at_middle (w ++ kinds) (replicate size 0) padding (pack_ints abi fds) (abi.word + 8)
          both (length-pack_ints abi fds ∙ sym (length-replicate {A = ℕ} size 0)) in
      rw (cmsg_hdr_size_lem abi is_abi, zeros, first, second, ← append_assoc w kinds tail₂, third)
        (append_assoc w kinds (pack_ints abi fds ++ padding))
