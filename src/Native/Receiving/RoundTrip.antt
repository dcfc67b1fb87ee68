-- ===== src/Native/Receiving/RoundTrip.antt =====
-- A message with descriptors, received as it was sent.
use micropython_systemd.Prelude.{
  ℕ, suc, ◌+◌, ◌-◌, ◌*◌, ◌^◌, ◌≤◌, ◌<◌, ◌≡◌, refl, sym, ap, ◌∙◌, List, [], ◌++◌, append-nil, arith,
  Bytes, inl, inr, length, take, drop, replicate, take_all, drop_all, length-append,
  length-replicate, All, ℤ, pos,
}
use micropython_systemd.Errors.{ok}
use micropython_systemd.World.{World, Libc, Reply, recvmsg}
use micropython_systemd.Native.Struct.{Abi, pack_int, pack_word, unpack_word}
use micropython_systemd.Native.Struct.Laws.{IsInt}
use micropython_systemd.Native.Ancillary.{scm_rights, parse_scm_rights, cmsg_align, pack_ints}
use micropython_systemd.Native.Ancillary.Layout.{
  IsAbi, cmsg_align_lem, cmsg_hdr_size_lem, scm_rights_layout, length-pack_word, length-pack_ints,
  length-kinds, unpack_word-pack_word,
}
use micropython_systemd.Native.Ancillary.RoundTrip.{parse_scm_rights-scm_rights}
use micropython_systemd.Native.Sockets.{UnixDatagram}
use micropython_systemd.Native.Receiving.{control_size, message_of, receive, msg_cmsg_cloexec}

-- What the kernel leaves of a message in buffers that have room for it: the payload and the control
-- message, zeros up to the ends of both buffers, and the length of the control message.
abbrev pub delivery : Abi → ℕ → ℕ → Bytes → Bytes → Reply
delivery abi bufsize ctlsize payload control = record {
  ret = pos (length payload);
  errno = 0;
  out =
      (payload ++ replicate (bufsize - length payload) 0)
      ++ ((control ++ replicate (ctlsize - length control) 0) ++ pack_word abi (length control));
}

-- A buffer of the given size in front.
length-padded :
    (s : Bytes) (size : ℕ) → length s ≤ size → length (s ++ replicate (size - length s) 0) ≡ size
length-padded s size fits = omega (
  arith,
  length-append s (replicate (size - length s) 0),
  length-replicate {A = ℕ} (size - length s) 0,
  fits,
)

take_front : (s rest : Bytes) (n : ℕ) → length s ≡ n → take n (s ++ rest) ≡ s
take_front s rest n e = ap (λ (k : ℕ). take k (s ++ rest)) (sym e) ∙ take_all s rest

drop_behind : (s rest : Bytes) (n : ℕ) → length s ≡ n → drop n (s ++ rest) ≡ rest
drop_behind s rest n e = ap (λ (k : ℕ). drop k (s ++ rest)) (sym e) ∙ drop_all s rest

message_of-delivery :
    (abi : Abi) (bufsize ctlsize : ℕ) (payload control : Bytes)
    → length payload ≤ bufsize
    → length control ≤ ctlsize
    → message_of abi bufsize ctlsize (delivery abi bufsize ctlsize payload control) ≡ (
      payload,
      parse_scm_rights abi
          (control ++ replicate (ctlsize - length control) 0)
          (unpack_word abi (pack_word abi (length control))),
    )
message_of-delivery abi bufsize ctlsize payload control fits control_fits =
    let first : Bytes = payload ++ replicate (bufsize - length payload) 0 in
    let second : Bytes = control ++ replicate (ctlsize - length control) 0 in
    let third = pack_word abi (length control) in
    let first_len = length-padded payload bufsize fits in
    let second_len = length-padded control ctlsize control_fits in
    rw
      (
        take_front first (second ++ third) bufsize first_len,
        drop_behind first (second ++ third) bufsize first_len,
        take_front second third ctlsize second_len,
        drop_behind second third ctlsize second_len,
        take_all payload (replicate (bufsize - length payload) 0),
      )
      refl

cmsg_align_mono :
    (abi : Abi) (a b : ℕ) → IsAbi abi → a ≤ b → cmsg_align abi (4 * a) ≤ cmsg_align abi (4 * b)
unfolding cmsg_align
cmsg_align_mono abi a b (inl e) h = rw e (omega arith)
cmsg_align_mono abi a b (inr e) h = rw e (omega arith)

bounded_fits :
    (abi : Abi) (n size : ℕ)
    → IsAbi abi
    → n ≤ 253
    → size < 4 * n + abi.word
    → abi.word + 8 + size < 256 ^ abi.word
bounded_fits abi n size (inl e) few h = let k = rw e at h in rw e (omega (arith, k))
bounded_fits abi n size (inr e) few h = let k = rw e at h in rw e (omega (arith, k))

module _ (abi : Abi) (fds : List ℤ) (is_abi : IsAbi abi) where
  pub length-scm_rights :
      length (scm_rights abi fds) ≡ abi.word + 8 + cmsg_align abi (4 * length fds)
  length-scm_rights =
      let size = 4 * length fds in
      let (_, larger, _) = cmsg_align_lem abi size is_abi in
      let zeros : Bytes = replicate (cmsg_align abi size - size) 0 in
      let header = pack_word abi (abi.word + 8 + size) in
      let types : Bytes = pack_int abi (pos 1) ++ pack_int abi (pos 1) in
      rw (scm_rights_layout abi fds is_abi) (
        omega (
          arith,
          larger,
          length-append header (types ++ (pack_ints abi fds ++ zeros)),
          length-append types (pack_ints abi fds ++ zeros),
          length-append (pack_ints abi fds) zeros,
          length-kinds abi fds is_abi,
          length-pack_word abi (abi.word + 8 + size),
          length-pack_ints abi fds,
          length-replicate {A = ℕ} (cmsg_align abi size - size) 0,
        ))

  scm_rights_fits :
      (max_fds : ℕ) → length fds ≤ max_fds → length (scm_rights abi fds) ≤ control_size abi max_fds
  scm_rights_fits max_fds few = omega (
    arith,
    length-scm_rights,
    cmsg_hdr_size_lem abi is_abi,
    cmsg_align_mono abi (length fds) max_fds is_abi few,
  )

  -- With room for the payload and for as many descriptors as were sent, receiving what the kernel
  -- delivers of a message gives its payload and its descriptors: up to 253 ints, on both word sizes
  -- and in both byte orders.
  pub receive-scm_rights :
      (libc : Libc) (sock : UnixDatagram) (bufsize n : ℕ) (payload : Bytes) (w : World)
      → length payload ≤ bufsize
      → length fds ≤ suc n
      → length fds ≤ 253
      → All IsInt fds
      → libc w.trace (recvmsg sock.fd bufsize (control_size abi (suc n)) msg_cmsg_cloexec)
        ≡ delivery abi bufsize (control_size abi (suc n)) payload (scm_rights abi fds)
      → (receive abi libc sock bufsize (suc n) w).0 ≡ ok (payload, fds)
  unfolding receive
  receive-scm_rights libc sock bufsize n payload w fits few bounded ints delivered =
      let size = control_size abi (suc n) in
      let control = scm_rights abi fds in
      let (_, larger, smaller) = cmsg_align_lem abi (4 * length fds) is_abi in
      let in_a_word : length control < 256 ^ abi.word =
        rw length-scm_rights (
          bounded_fits abi (length fds) (cmsg_align abi (4 * length fds)) is_abi bounded smaller) in
      let controllen : unpack_word abi (pack_word abi (length control)) ≡ length control =
        ap (unpack_word abi) (sym (append-nil (pack_word abi (length control))))
        ∙ unpack_word-pack_word abi (length control) [] in_a_word in
      let opened =
        message_of-delivery abi bufsize size payload control fits (scm_rights_fits (suc n) few) in
      let read =
        parse_scm_rights-scm_rights abi fds (replicate (size - length control) 0) (length control)
          is_abi bounded ints (omega (arith, length-scm_rights, larger)) in
      rw (delivered, opened, controllen, read) refl
