-- ===== src/Cpython/Sockets/RoundTrip.antt =====
-- Descriptors over the UnixDatagram of mpsystemd/_impl_cpy.py, alone and beside that of
-- mpsystemd/_impl_mp.py.
use native.Mathlib.Omega.{arith}
use micropython_systemd.Prelude.{
  ℕ, suc, ◌*◌, ◌/◌, ◌≡◌, refl, sym, ap, ◌∙◌, Bool, false, ◌==◌, ◌&&◌, Bool-cases, inl, inr, List,
  [], ◌∷◌, ◌++◌, append-nil, append_assoc, Option, none, some, Bytes, length, take, take_all, All,
  ltb, if◌then◌else◌, ℤ, pos, negsuc, true,
}
use micropython_systemd.Errors.{
  Error, Result, ok, err, Result-cases, struct_error, systemd_error, value_error, no_peer, too_many,
}
use micropython_systemd.World.{World, Libc, Call, record_call, sendto, sendmsg}
use micropython_systemd.Native.Struct.{Abi}
use micropython_systemd.Native.Struct.Laws.{IsInt}
use micropython_systemd.Native.Ancillary.{pack_ints, unpack_ints}
use micropython_systemd.Native.Ancillary.Layout.{unpack_ints-pack_ints, length-pack_ints}
use micropython_systemd.Native.Sockets
use micropython_systemd.Native.Ancillary as Control
use micropython_systemd.Cpython
use micropython_systemd.Cpython.{Process, Os, Request, Answer, Ancillary, recvmsg, ask_number}
use micropython_systemd.Cpython.Sockets.{
  UnixDatagram, fds_of, all_ints, rights, sol_socket, scm_rights, receive, send_with_fds,
  msg_cmsg_cloexec,
}

abbrev pub is_rights : Ancillary → Bool
is_rights m = m.level == sol_socket && m.kind == scm_rights

fds_of-append :
    (abi : Abi) (xs ys : List Ancillary) → fds_of abi (xs ++ ys) ≡ fds_of abi xs ++ fds_of abi ys
unfolding fds_of
fds_of-append abi [] ys = refl
fds_of-append abi (m ∷ xs) ys = elim (Bool-cases (is_rights m)) [
  | inl p ↦
      let here =
        unpack_ints abi (length m.contents / 4) (take (length m.contents / 4 * 4) m.contents) in
      rw (p, fds_of-append abi xs ys) (sym (append_assoc here (fds_of abi xs) (fds_of abi ys)))
  | inr p ↦ rw (p, fds_of-append abi xs ys) refl
]

fds_of-others :
    (abi : Abi) (xs : List Ancillary) → All (λ m. is_rights m ≡ false) xs → fds_of abi xs ≡ []
unfolding fds_of
fds_of-others abi [] h = refl
fds_of-others abi (m ∷ xs) (other, h) = rw (other, fds_of-others abi xs h) refl

all_ints-IsInt : (fds : List ℤ) → all_ints fds ≡ true → All IsInt fds
unfolding all_ints
all_ints-IsInt [] h = tt
all_ints-IsInt (pos n ∷ fds) h = (ground arith, all_ints-IsInt fds (ground arith))
all_ints-IsInt (negsuc n ∷ fds) h = (ground arith, all_ints-IsInt fds (ground arith))

fds_of-packed :
    (abi : Abi) (fds : List ℤ)
    → All IsInt fds
    → fds_of abi
        (record { level = sol_socket; kind = scm_rights; contents = pack_ints abi fds } ∷ [])
      ≡ fds
unfolding fds_of
fds_of-packed abi fds ints =
    let count : length (pack_ints abi fds) / 4 ≡ length fds =
      omega (arith, length-pack_ints abi fds) in
    let size : length fds * 4 ≡ length (pack_ints abi fds) =
      omega (arith, length-pack_ints abi fds) in
    let whole : take (length fds * 4) (pack_ints abi fds) ≡ pack_ints abi fds =
      ap (λ (k : ℕ). take k (pack_ints abi fds)) size
      ∙ ap (take (length (pack_ints abi fds))) (sym (append-nil (pack_ints abi fds)))
      ∙ take_all (pack_ints abi fds) [] in
    rw (count, whole)
      (append-nil (unpack_ints abi (length fds) (pack_ints abi fds))
        ∙ ap (unpack_ints abi (length fds)) (sym (append-nil (pack_ints abi fds)))
        ∙ unpack_ints-pack_ints abi fds [] ints)

fds_of-rights :
    (abi : Abi) (fds : List ℤ) (control : List Ancillary)
    → rights abi fds ≡ ok control
    → fds_of abi control ≡ fds
unfolding rights
fds_of-rights abi fds control packed = elim (Bool-cases (all_ints fds)) [
  | inl p ↦
      let same = fds_of-packed abi fds (all_ints-IsInt fds p) in
      let e : control
          ≡ record { level = sol_socket; kind = scm_rights; contents = pack_ints abi fds } ∷ [] =
        cc (rw p at packed) in
      ap (fds_of abi) e ∙ same
  | inr p ↦ cc (rw p at packed)
]

module _ (abi : Abi) (cmsg_space : ℕ → ℕ) (os : Os) where
  -- Under CPython, a recv with room for descriptors that gets, among control messages of other
  -- kinds, the control message that send_with_fds makes of some descriptors, returns the payload
  -- and these descriptors in their order.
  pub receive-rights :
      (d : UnixDatagram) (bufsize n : ℕ) (before control after : List Ancillary) (fds : List ℤ)
      (p : Process) (a : Answer)
      → rights abi fds ≡ ok control
      → All (λ m. is_rights m ≡ false) before
      → All (λ m. is_rights m ≡ false) after
      → a.ancillary ≡ before ++ (control ++ after)
      → os p.history (recvmsg d.sock bufsize (cmsg_space (suc n * 4)) msg_cmsg_cloexec) ≡ ok a
      → (receive abi cmsg_space os d bufsize (suc n) p).0 ≡ ok (a.contents, fds)
  unfolding receive
  receive-rights d bufsize n before control after fds p a packed no_before no_after ancillary
        answered =
      let found : fds_of abi a.ancillary ≡ fds =
        ap (fds_of abi) ancillary
        ∙ fds_of-append abi before (control ++ after)
        ∙ ap (λ z. z ++ fds_of abi (control ++ after)) (fds_of-others abi before no_before)
        ∙ fds_of-append abi control after
        ∙ ap (λ z. fds_of abi control ++ z) (fds_of-others abi after no_after)
        ∙ append-nil (fds_of abi control)
        ∙ fds_of-rights abi fds control packed in
      rw (answered, found) refl

-- The one call of libc, and the one request of CPython, for a message without descriptors and for
-- one with them.
abbrev pub message_call : Abi → ℤ → Bytes → Bytes → List ℤ → Call
message_call abi fd sun_path contents [] =
    let (name, namelen) = Sockets.sockaddr_un abi sun_path in
    sendto fd contents Sockets.msg_nosignal name namelen
message_call abi fd sun_path contents (f ∷ fds) =
    let (name, namelen) = Sockets.sockaddr_un abi sun_path in
    sendmsg fd
      (record {
        name = name;
        namelen = namelen;
        payload = contents;
        control = Control.scm_rights abi (f ∷ fds);
      })
      Sockets.msg_nosignal

abbrev pub message_request : Abi → ℤ → Bytes → Bytes → List ℤ → Request
message_request abi sock sun_path contents [] = Cpython.sendto sock contents sun_path
message_request abi sock sun_path contents (f ∷ fds) =
    Cpython.sendmsg sock contents
      (record { level = sol_socket; kind = scm_rights; contents = pack_ints abi (f ∷ fds) } ∷ []) 0
      sun_path

abbrev pub asked : Os → Request → Process → Process
asked os r p = record p { history = (r, os p.history r) ∷ p.history }

ask_number-asked : (os : Os) (r : Request) (p : Process) → (ask_number os r p).1 ≡ asked os r p
ask_number-asked os r p = elim (Result-cases (os p.history r)) [
  | inl (a, e) ↦ rw e refl
  | inr (x, e) ↦ rw e refl
]

module _ (abi : Abi) (cmsg_space : ℕ → ℕ) (libc : Libc) (os : Os) (fd sock : ℤ) (contents : Bytes)
    (w : World) (p : Process) where
  abbrev Refused : Error → Result ℤ × World → Result ℤ × Process → Type 0
  Refused e mp cpy = (mp ≡ (err e, w)) × (cpy ≡ (err e, p))

  -- Only CPython refuses a descriptor that is not an int of C.
  abbrev Asked : Bytes → List ℤ → Result ℤ × Process → Type 0
  Asked sun_path fds cpy =
      if all_ints fds
      then cpy.1 ≡ asked os (message_request abi sock sun_path contents fds) p
      else cpy ≡ (err struct_error, p)

  -- How the outcomes of the two back ends for one message belong together.
  abbrev pub Agree : Option Bytes → List ℤ → Result ℤ × World → Result ℤ × Process → Type 0
  Agree none fds mp cpy = Refused (systemd_error no_peer) mp cpy
  Agree (some sun_path) fds mp cpy =
      if ltb 253 (length fds)
      then Refused (value_error too_many) mp cpy
      else (mp.1 ≡ record_call libc (message_call abi fd sun_path contents fds) w)
        × Asked sun_path fds cpy

  -- On both back ends send_with_fds raises the same exception before it makes any call, a
  -- SystemdError without a peer and a ValueError for more than 253 descriptors; a descriptor that
  -- is not an int of C makes CPython, and only it, raise struct.error before any call; for every
  -- other message each makes one call, sendto for a message without descriptors and sendmsg with
  -- the control message of the descriptors for the others, to the peer and with the whole contents.
  pub send_with_fds-Agree :
      (peer : Option Bytes) (fds : List ℤ)
      → Agree peer fds
          (Sockets.send_with_fds abi libc
            (record { fd = fd; peer = Sockets.peer_address abi libc peer })
            contents
            fds
            w)
          (send_with_fds abi cmsg_space os (record { sock = sock; peer = peer }) contents fds p)
  unfolding send_with_fds Sockets.send_with_fds rights all_ints
  send_with_fds-Agree none fds = (refl, refl)
  send_with_fds-Agree (some sun_path) [] =
      (refl, ask_number-asked os (message_request abi sock sun_path contents []) p)
  send_with_fds-Agree (some sun_path) (f ∷ fds) = elim (Bool-cases (ltb 253 (length (f ∷ fds)))) [
    | inl many ↦ rw many (refl, refl)
    | inr few ↦
        let r = message_request abi sock sun_path contents (f ∷ fds) in
        elim (Bool-cases (all_ints (f ∷ fds))) [
          | inl p' ↦ rw (few, p') (refl, ask_number-asked os r p)
          | inr p' ↦ rw (few, p') (refl, refl)
        ]
  ]
