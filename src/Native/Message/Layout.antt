-- ===== src/Native/Message/Layout.antt =====
-- The layout of the message header.
use micropython_systemd.Prelude.{
  ℕ, ◌+◌, ◌-◌, ◌*◌, ◌≡◌, refl, sym, ap, ◌∙◌, inl, inr, [], ◌++◌, append_assoc, append-nil, arith,
  Bytes, length, length-append, replicate, length-replicate, Option, none, some,
}
use micropython_systemd.Native.Struct.{Abi, pack_unsigned, pack_word, write_at}
use micropython_systemd.Native.Struct.Laws.{length-pack_unsigned}
use micropython_systemd.Native.Struct.Writes.{write_at_middle, replicate-add}
use micropython_systemd.Native.Ancillary.Layout.{IsAbi, length-pack_word}
use micropython_systemd.Native.Message.{Buffer, iovec, with_name, with_control, msghdr}

abbrev zeros : ℕ → Bytes
zeros n = replicate n 0

-- The two fields of a name: its address as a word, and its length as an unsigned int in a word.
abbrev pub name_fields : Abi → Option Buffer → Bytes
name_fields abi none = replicate abi.word 0 ++ replicate abi.word 0
name_fields abi (some name) =
    pack_word abi name.address ++ (pack_unsigned abi 4 name.size ++ replicate (abi.word - 4) 0)

abbrev pub control_fields : Abi → Option Buffer → Bytes
control_fields abi none = replicate abi.word 0 ++ replicate abi.word 0
control_fields abi (some control) = pack_word abi control.address ++ pack_word abi control.size

zeros-split : (n a b : ℕ) → n ≡ a + b → zeros n ≡ zeros a ++ zeros b
zeros-split n a b e = ap (λ (k : ℕ). replicate k 0) e ∙ replicate-add a b 0

-- Filling the front of the zeros behind what is written already.
write_at-zeros :
    (front s : Bytes) (offset n rest : ℕ)
    → offset ≡ length front
    → n ≡ length s + rest
    → write_at (front ++ zeros n) offset s ≡ (front ++ s) ++ zeros rest
write_at-zeros front s offset n rest here fits = rw (zeros-split n (length s) rest fits) (
    write_at_middle front (zeros (length s)) (zeros rest) s offset here
      (sym (length-replicate {A = ℕ} (length s) 0))
    ∙ sym (append_assoc front s (zeros rest)))

module _ (abi : Abi) (is_abi : IsAbi abi) where
  abbrev w : ℕ
  w = abi.word

  four_fits : 4 + (w - 4) ≡ w
  four_fits = elim is_abi [ inl e ↦ rw e refl | inr e ↦ rw e refl ]

  length-name_fields : (name : Option Buffer) → length (name_fields abi name) ≡ 2 * w
  length-name_fields none =
      omega (arith, length-append (zeros w) (zeros w), length-replicate {A = ℕ} w 0)
  length-name_fields (some name) =
      let namelen = pack_unsigned abi 4 name.size in
      omega (
        arith,
        four_fits,
        length-append (pack_word abi name.address) (namelen ++ zeros (w - 4)),
        length-append namelen (zeros (w - 4)),
        length-pack_word abi name.address,
        length-pack_unsigned abi 4 name.size,
        length-replicate {A = ℕ} (w - 4) 0,
      )

  with_name-zeros :
      (name : Option Buffer)
      → with_name abi name (zeros (7 * w)) ≡ name_fields abi name ++ zeros (5 * w)
  with_name-zeros none =
      zeros-split (7 * w) (2 * w) (5 * w) (omega arith)
      ∙ ap (λ z. z ++ zeros (5 * w)) (zeros-split (2 * w) w w (omega arith))
  with_name-zeros (some name) =
      let address = pack_word abi name.address in
      let namelen = pack_unsigned abi 4 name.size in
      let address_len = length-pack_word abi name.address in
      let namelen_len = length-pack_unsigned abi 4 name.size in
      let first : write_at (zeros (7 * w)) 0 address ≡ address ++ zeros (6 * w) =
        write_at-zeros [] address 0 (7 * w) (6 * w) refl (omega (arith, address_len)) in
      let second =
        write_at-zeros address namelen w (6 * w) (w - 4 + 5 * w) (sym address_len)
          (omega (arith, namelen_len, four_fits)) in
      ap (λ z. write_at z w namelen) first
      ∙ second
      ∙ ap (λ z. (address ++ namelen) ++ z) (zeros-split (w - 4 + 5 * w) (w - 4) (5 * w) refl)
      ∙ sym (append_assoc (address ++ namelen) (zeros (w - 4)) (zeros (5 * w)))
      ∙ ap (λ z. z ++ zeros (5 * w)) (append_assoc address namelen (zeros (w - 4)))

  with_control-zeros :
      (front : Bytes) (control : Option Buffer)
      → length front ≡ 4 * w
      → with_control abi control (front ++ zeros (3 * w))
        ≡ (front ++ control_fields abi control) ++ zeros w
  with_control-zeros front none before =
      ap (λ z. front ++ z)
        (zeros-split (3 * w) (2 * w) w (omega arith)
          ∙ ap (λ z. z ++ zeros w) (zeros-split (2 * w) w w (omega arith)))
      ∙ sym (append_assoc front (zeros w ++ zeros w) (zeros w))
  with_control-zeros front (some control) before =
      let address = pack_word abi control.address in
      let size = pack_word abi control.size in
      let address_len = length-pack_word abi control.address in
      let first =
        write_at-zeros front address (4 * w) (3 * w) (2 * w) (sym before)
          (omega (arith, address_len)) in
      let second =
        write_at-zeros (front ++ address) size (5 * w) (2 * w) w
          (omega (arith, length-append front address, before, address_len))
          (omega (arith, length-pack_word abi control.size)) in
      ap (λ z. write_at z (5 * w) size) first
      ∙ second
      ∙ ap (λ z. z ++ zeros w) (append_assoc front address size)

  -- On words of 4 or 8 bytes _msghdr is seven words: the address of the name, its length as an
  -- unsigned int in a word, the address of the iovec, one iovec, the address of the control buffer,
  -- its length, and a word of zeros; the fields of a name or a control buffer that is left out are
  -- zeros.
  pub msghdr_layout :
      (name : Option Buffer) (iov : ℕ) (control : Option Buffer)
      → msghdr abi name iov control
        ≡ name_fields abi name
          ++ (pack_word abi iov
              ++ (pack_word abi 1 ++ (control_fields abi control ++ replicate abi.word 0)))
  unfolding msghdr
  msghdr_layout name iov control =
      let fields = name_fields abi name in
      let fields_len = length-name_fields name in
      let at_iov = pack_word abi iov in
      let iov_len = length-pack_word abi iov in
      let count = pack_word abi 1 in
      let count_len = length-pack_word abi 1 in
      let third =
        write_at-zeros fields at_iov (2 * w) (5 * w) (4 * w) (sym fields_len)
          (omega (arith, iov_len)) in
      let fourth =
        write_at-zeros (fields ++ at_iov) count (3 * w) (4 * w) (3 * w)
          (omega (arith, length-append fields at_iov, fields_len, iov_len))
          (omega (arith, count_len)) in
      let front = (fields ++ at_iov) ++ count in
      let last = with_control-zeros front control (
        omega (
          arith,
          length-append (fields ++ at_iov) count,
          length-append fields at_iov,
          fields_len,
          iov_len,
          count_len,
        )) in
      let behind = control_fields abi control in
      rw (with_name-zeros name, third, fourth, last)
        (append_assoc front behind (zeros w)
          ∙ append_assoc (fields ++ at_iov) count (behind ++ zeros w)
          ∙ append_assoc fields at_iov (count ++ (behind ++ zeros w)))

  -- The iovec is the address of its buffer and the length, a word each.
  pub iovec_layout :
      (buf : Buffer) → iovec abi buf ≡ pack_word abi buf.address ++ pack_word abi buf.size
  unfolding iovec
  iovec_layout buf =
      let address = pack_word abi buf.address in
      let size = pack_word abi buf.size in
      let address_len = length-pack_word abi buf.address in
      let first = write_at-zeros [] address 0 (2 * w) w refl (omega (arith, address_len)) in
      let second =
        write_at-zeros address size w w 0 (sym address_len)
          (omega (arith, length-pack_word abi buf.size)) in
      ap (λ z. write_at z w size) first ∙ second ∙ append-nil (address ++ size)
