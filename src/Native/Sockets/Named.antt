-- ===== src/Native/Sockets/Named.antt =====
-- The address that a datagram of mpsystemd/_impl_mp.py goes to, as <sys/un.h> lays it out.
use native.Mathlib.Omega.{arith}
use micropython_systemd.Prelude.{
  ℕ, ◌+◌, ◌≡◌, refl, Bool, true, false, ◌&&◌, ◌==◌, [], ◌∷◌, ◌++◌, Option, none, some, Bytes,
  length, list_eq, list_eq_refl, Bool-cases, inl, inr,
}
use micropython_systemd.Native.Struct.{Abi, pack_unsigned, le_bytes}
use micropython_systemd.Native.Sockets.{UnixDatagram, sockaddr_un}

-- AF_UNIX, which is 1, in two bytes.
abbrev family : Bool → Bytes
family false = 1 ∷ 0 ∷ []
family true = 0 ∷ 1 ∷ []

module _ (abi : Abi) (sun : Bytes) where
  -- The family and the path with a NUL behind it, where the length counts the family and the path.
  unfoldable pub is_addressed : Bytes → ℕ → Bool
  is_addressed name namelen =
      list_eq name (family abi.big_endian ++ (sun ++ 0 ∷ [])) && namelen == length sun + 2

  sockaddr_un-bytes : (sockaddr_un abi sun).0 ≡ family abi.big_endian ++ (sun ++ 0 ∷ [])
  unfolding sockaddr_un pack_unsigned le_bytes
  sockaddr_un-bytes = elim (Bool-cases abi.big_endian) [ inl p ↦ rw p refl | inr p ↦ rw p refl ]

  sockaddr_un-length : (sockaddr_un abi sun).1 == length sun + 2 ≡ true
  unfolding sockaddr_un
  sockaddr_un-length = ground arith

  pub is_addressed-sockaddr_un : is_addressed (sockaddr_un abi sun).0 (sockaddr_un abi sun).1 ≡ true
  unfolding is_addressed
  is_addressed-sockaddr_un =
      rw
        (
          sockaddr_un-bytes,
          sockaddr_un-length,
          list_eq_refl (family abi.big_endian ++ (sun ++ 0 ∷ [])),
        )
        refl

  -- A socket that is there has the path as its peer.
  abbrev pub Aimed : Option UnixDatagram → Type 0
  Aimed none = Unit {0}
  Aimed (some sock) = sock.peer ≡ some (sockaddr_un abi sun)
