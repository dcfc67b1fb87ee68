-- ===== src/Native/Message.antt =====
-- mpsystemd/_impl_mp.py: `_iovec` and `_msghdr`, the structures that sendmsg and recvmsg read. The
-- address of a buffer is an argument.
pub mod Layout
use micropython_systemd.Prelude.{ℕ, ◌*◌, Option, none, some, Bytes, replicate}
use micropython_systemd.Native.Struct.{Abi, pack_unsigned, pack_word, write_at}

-- The address of a buffer, and its length.
pub record Buffer : Type 0 where
  pub address : ℕ
  pub size : ℕ

unfoldable pub iovec : Abi → Buffer → Bytes
iovec abi buf =
    let iov = replicate (2 * abi.word) 0 in
    let with_base = write_at iov 0 (pack_word abi buf.address) in
    write_at with_base abi.word (pack_word abi buf.size)

abbrev pub with_name : Abi → Option Buffer → Bytes → Bytes
with_name abi none mh = mh
with_name abi (some name) mh =
    write_at (write_at mh 0 (pack_word abi name.address)) abi.word (pack_unsigned abi 4 name.size)

abbrev pub with_control : Abi → Option Buffer → Bytes → Bytes
with_control abi none mh = mh
with_control abi (some control) mh =
    write_at (write_at mh (4 * abi.word) (pack_word abi control.address)) (5 * abi.word)
      (pack_word abi control.size)

-- The name and the control buffer may be left out; the iovec is given by its address.
unfoldable pub msghdr : Abi → Option Buffer → ℕ → Option Buffer → Bytes
msghdr abi name iov control =
    let named = with_name abi name (replicate (7 * abi.word) 0) in
    let with_iov = write_at named (2 * abi.word) (pack_word abi iov) in
    let with_count = write_at with_iov (3 * abi.word) (pack_word abi 1) in
    with_control abi control with_count
