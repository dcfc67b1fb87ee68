-- ===== src/Native/Ancillary/RoundTrip.antt =====
-- Reading back the descriptors of a control buffer.
use Prim.Native.Nat.{min}
use micropython_systemd.Prelude.{
  ℕ, ◌+◌, ◌-◌, ◌*◌, ◌/◌, ◌^◌, ◌≤◌, ◌<◌, ◌≡◌, inl, inr, sym, ap, ◌∙◌, false, List, ◌++◌,
  append_assoc, arith, Bytes, length, drop, length-append, All, ltb, ℤ, pos,
}
use micropython_systemd.Native.Struct.{Abi, pack_int, unpack_int, pack_word}
use micropython_systemd.Native.Struct.Laws.{IsInt, length-pack_int, unpack_int-pack_int}
use micropython_systemd.Native.Struct.Writes.{drop_front}
use micropython_systemd.Native.Ancillary.{pack_ints, scm_rights, parse_scm_rights}
use micropython_systemd.Native.Ancillary.Layout.{
  IsAbi, cmsg_hdr_size_lem, kinds, length-kinds, length-pack_word, padding, scm_rights_layout,
  unpack_ints-pack_ints, unpack_word-pack_word,
}

pub fits_word : (abi : Abi) (n : ℕ) → IsAbi abi → n ≤ 253 → abi.word + 8 + 4 * n < 256 ^ abi.word
fits_word abi n (inl e) h = rw e (omega arith)
fits_word abi n (inr e) h = rw e (omega arith)

module _ (abi : Abi) (fds : List ℤ) (rest : Bytes) (is_abi : IsAbi abi) where
  abbrev header_word : Bytes
  header_word = pack_word abi (abi.word + 8 + 4 * length fds)

  -- The descriptors, with the zeros and what follows the control message behind them.
  abbrev items : Bytes
  items = pack_ints abi fds ++ (padding abi fds is_abi ++ rest)

  abbrev one_int : Bytes
  one_int = pack_int abi (pos 1)

  abbrev whole : Bytes
  whole = header_word ++ (kinds abi fds is_abi ++ items)

  scm_rights-append : scm_rights abi fds ++ rest ≡ whole
  scm_rights-append =
      let zeros_after = padding abi fds is_abi in
      ap (λ z. z ++ rest) (scm_rights_layout abi fds is_abi)
      ∙ append_assoc header_word (kinds abi fds is_abi ++ (pack_ints abi fds ++ zeros_after)) rest
      ∙ ap (λ z. header_word ++ z)
          (append_assoc (kinds abi fds is_abi) (pack_ints abi fds ++ zeros_after) rest
            ∙ ap (λ z. kinds abi fds is_abi ++ z)
                (append_assoc (pack_ints abi fds) zeros_after rest))

  regroup : kinds abi fds is_abi ++ items ≡ one_int ++ (one_int ++ items)
  regroup = append_assoc one_int one_int items

  word_len : length header_word ≡ abi.word
  word_len = length-pack_word abi (abi.word + 8 + 4 * length fds)

  unpack_int-level : unpack_int abi (drop abi.word whole) ≡ pos 1
  unpack_int-level =
      ap (unpack_int abi)
        (drop_front header_word (kinds abi fds is_abi ++ items) abi.word (sym word_len) ∙ regroup)
      ∙ unpack_int-pack_int abi (pos 1) (one_int ++ items) (omega arith)

  unpack_int-kind : unpack_int abi (drop (abi.word + 4) whole) ≡ pos 1
  unpack_int-kind =
      let level_len : length (header_word ++ one_int) ≡ abi.word + 4 =
        omega (arith, length-append header_word one_int, length-pack_int abi (pos 1), word_len) in
      let behind_level : drop (abi.word + 4) whole ≡ one_int ++ items =
        ap (λ z. drop (abi.word + 4) (header_word ++ z)) regroup
        ∙ ap (drop (abi.word + 4)) (sym (append_assoc header_word one_int (one_int ++ items)))
        ∙ drop_front (header_word ++ one_int) (one_int ++ items) (abi.word + 4) (sym level_len) in
      ap (unpack_int abi) behind_level ∙ unpack_int-pack_int abi (pos 1) items (omega arith)

  drop-header : drop (abi.word + 8) whole ≡ items
  drop-header =
      let header_len : length (header_word ++ kinds abi fds is_abi) ≡ abi.word + 8 = omega (
        arith,
        length-append header_word (kinds abi fds is_abi),
        length-kinds abi fds is_abi,
        word_len,
      ) in
      ap (drop (abi.word + 8)) (sym (append_assoc header_word (kinds abi fds is_abi) items))
      ∙ drop_front (header_word ++ kinds abi fds is_abi) items (abi.word + 8) (sym header_len)

-- Whatever length of at least header and descriptors the kernel reports for it, and whatever bytes
-- follow the control message, the descriptors read out of a control buffer are those that were
-- written: up to 253 ints, on both word sizes and in both byte orders.
pub parse_scm_rights-scm_rights :
    (abi : Abi) (fds : List ℤ) (rest : Bytes) (controllen : ℕ)
    → IsAbi abi
    → length fds ≤ 253
    → All IsInt fds
    → abi.word + 8 + 4 * length fds ≤ controllen
    → parse_scm_rights abi (scm_rights abi fds ++ rest) controllen ≡ fds
unfolding parse_scm_rights
parse_scm_rights-scm_rights abi fds rest controllen is_abi few ints long =
    let size_read =
      unpack_word-pack_word abi (abi.word + 8 + 4 * length fds)
        (kinds abi fds is_abi ++ items abi fds rest is_abi)
        (fits_word abi (length fds) is_abi few) in
    let long_enough : ltb controllen (abi.word + 8) ≡ false = ground arith in
    let counted : (min (abi.word + 8 + 4 * length fds) controllen - (abi.word + 8)) / 4
        ≡ length fds =
      omega arith in
    rw
      (
        scm_rights-append abi fds rest is_abi,
        cmsg_hdr_size_lem abi is_abi,
        long_enough,
        unpack_int-level abi fds rest is_abi,
        unpack_int-kind abi fds rest is_abi,
        size_read,
        counted,
        drop-header abi fds rest is_abi,
      )
      (unpack_ints-pack_ints abi fds (padding abi fds is_abi ++ rest) ints)
