-- ===== src/Native/Ancillary.antt =====
-- mpsystemd/_impl_mp.py: `_cmsg_align`, `_scm_rights` and `_parse_scm_rights`, the control buffer
-- of a message that carries descriptors. The proofs are in the children.
pub mod Layout
pub mod RoundTrip
use Prim.Native.Nat.{min}
use micropython_systemd.Prelude.{
  ℕ, zero, suc, ◌+◌, ◌-◌, ◌*◌, ◌/◌, ◌%◌, Bool, ◌||◌, not, List, [], ◌∷◌, ◌++◌, Bytes, length, drop,
  replicate, ltb, if◌then◌else◌, ℤ, pos, eq_ℤ,
}
use micropython_systemd.Native.Struct.{
  Abi, int_size, pack_int, unpack_int, pack_word, unpack_word, write_at,
}

abbrev pub sol_socket : ℕ
sol_socket = 1

abbrev pub scm_rights_type : ℕ
scm_rights_type = 1

abbrev pub max_fds_per_message : ℕ
max_fds_per_message = 253

-- (size + WORD - 1) & ~(WORD - 1): the word size is a power of two, so the mask rounds down to a
-- multiple of it.
unfoldable pub cmsg_align : Abi → ℕ → ℕ
cmsg_align abi size = size + abi.word - 1 - (size + abi.word - 1) % abi.word

-- _CMSG_HDR_SIZE
unfoldable pub cmsg_hdr_size : Abi → ℕ
unfolding cmsg_align
cmsg_hdr_size abi = cmsg_align abi (abi.word + 2 * int_size)

-- Format "i" * len(fds)
unfoldable pub pack_ints : Abi → List ℤ → Bytes
pack_ints abi [] = []
pack_ints abi (fd ∷ fds) = pack_int abi fd ++ pack_ints abi fds

-- struct.unpack_from("i" * count, …)
unfoldable pub unpack_ints : Abi → ℕ → Bytes → List ℤ
unpack_ints abi zero s = []
unpack_ints abi (suc count) s = unpack_int abi s ∷ unpack_ints abi count (drop int_size s)

unfoldable pub scm_rights : Abi → List ℤ → Bytes
scm_rights abi fds =
    let header = cmsg_hdr_size abi in
    let size = int_size * length fds in
    let control = replicate (header + cmsg_align abi size) 0 in
    let with_length = write_at control 0 (pack_word abi (header + size)) in
    let with_type =
      write_at with_length abi.word
        (pack_int abi (pos sol_socket) ++ pack_int abi (pos scm_rights_type)) in
    write_at with_type header (pack_ints abi fds)

unfoldable pub parse_scm_rights : Abi → Bytes → ℕ → List ℤ
parse_scm_rights abi control controllen =
    let header = cmsg_hdr_size abi in
    let cmsg_len = unpack_word abi control in
    let level = unpack_int abi (drop abi.word control) in
    let kind = unpack_int abi (drop (abi.word + int_size) control) in
    let count = (min cmsg_len controllen - header) / int_size in
    if ltb controllen header
    then []
    else if not (eq_ℤ level (pos sol_socket)) || not (eq_ℤ kind (pos scm_rights_type))
    then []
    else unpack_ints abi count (drop header control)
