-- ===== src/Notifier/Store.antt =====
-- What fdstore of mpsystemd/daemon.py hands over.
use micropython_systemd.Prelude.{
  ℕ, suc, ◌≤◌, ◌≡◌, refl, sym, ap, ◌∙◌, arith, Bool, true, false, Bool-cases, inl, inr, List, [],
  ◌∷◌, ◌++◌, Option, none, some, Text, Bytes, codes, length, All, ℤ, pos, ltb,
}
use micropython_systemd.Errors.{ok, Result-cases}
use micropython_systemd.Exec.{lift}
use micropython_systemd.Exec
use micropython_systemd.World.{World, Libc, Trace, Message, sendmsg, record_call, poll, recvmsg}
use micropython_systemd.Native.Receiving.{control_size, msg_cmsg_cloexec}
use micropython_systemd.Native.Receiving.RoundTrip.{delivery}
use micropython_systemd.Listener.{FakeNotifyListener, pollin, receive}
use micropython_systemd.Listener.Queued.{receive-delivery}
use micropython_systemd.Utf8.{raw}
use micropython_systemd.Text.{Runtime, sorted, upper, str_int}
use micropython_systemd.Text
use micropython_systemd.Datagram.{Mapping, put}
use micropython_systemd.Datagram
use micropython_systemd.Payload.{
  Fields, str, keys, get_item, format_value, build_payload, check_fdname,
}
use micropython_systemd.Payload.Names.{check_fdname_iff}
use micropython_systemd.Payload.RoundTrip.{assignments}
use micropython_systemd.Payload.Listener.{put_all, fields-build_payload}
use micropython_systemd.Native.Struct.{Abi}
use micropython_systemd.Native.Struct.Laws.{IsInt}
use micropython_systemd.Native.Ancillary.{scm_rights, max_fds_per_message}
use micropython_systemd.Native.Ancillary.Layout.{IsAbi}
use micropython_systemd.Native.Sockets.{msg_nosignal, sockaddr_un, send_with_fds}
use micropython_systemd.Notifier.{send_raw, fdstore, one, poll_field, name_field}
use micropython_systemd.Notifier.Sending.{checked_true, holding}

-- The dictionary of the message: the name and whether to poll, where they are given, and FDSTORE.
abbrev pub name_stored : Option Text → Mapping
name_stored none = []
name_stored (some name) = (codes "FDNAME", name) ∷ []

abbrev pub poll_stored : Option Bool → Mapping
poll_stored none = []
poll_stored (some true) = (codes "FDPOLL", codes "1") ∷ []
poll_stored (some false) = (codes "FDPOLL", codes "0") ∷ []

abbrev pub stored : Option Text → Option Bool → Mapping
stored name poll_it = name_stored name ++ (poll_stored poll_it ++ (codes "FDSTORE", codes "1") ∷ [])

abbrev named_fields : Option Text → Fields
named_fields none = []
named_fields (some name) = (codes "FDNAME", str name) ∷ []

module _ (run : Runtime) (abi : Abi) (libc : Libc) where
  abbrev store_fields : Option Text → Option Bool → Fields
  store_fields name poll_it =
      (codes "FDSTORE", one) ∷ (named_fields name ++ poll_field run abi libc poll_it)

  -- What the serialiser prints of the fields, in its order.
  assignments-store_fields :
      (name : Option Text) (poll_it : Option Bool)
      → assignments run (store_fields name poll_it) (sorted (keys (store_fields name poll_it)))
        ≡ ok (stored name poll_it)
  unfolding get_item format_value sorted upper str_int Text.digits Text.le_text
  assignments-store_fields none none = refl
  assignments-store_fields none (some true) = refl
  assignments-store_fields none (some false) = refl
  assignments-store_fields (some name) none = refl
  assignments-store_fields (some name) (some true) = refl
  assignments-store_fields (some name) (some false) = refl

put_all-stored :
    (name : Option Text) (poll_it : Option Bool)
    → put_all (stored name poll_it) [] ≡ stored name poll_it
unfolding put
put_all-stored none none = refl
put_all-stored none (some true) = refl
put_all-stored none (some false) = refl
put_all-stored (some name) none = refl
put_all-stored (some name) (some true) = refl
put_all-stored (some name) (some false) = refl

module _ (run : Runtime) (abi : Abi) (libc : Libc) (sun : Bytes) (fd : ℤ) where
  -- The message that carries the descriptors.
  abbrev carrying : Bytes → List ℤ → Message
  carrying contents fds = record {
    name = (sockaddr_un abi sun).0;
    namelen = (sockaddr_un abi sun).1;
    payload = contents;
    control = scm_rights abi fds;
  }

  abbrev carry : Message → World → World
  carry message w = record_call libc (sendmsg fd message msg_nosignal) w

  -- Descriptors that are sent are few enough, and go in one message.
  send_raw-carry :
      (contents : Bytes) (f : ℤ) (fds : List ℤ) (w : World)
      → (send_raw abi libc (raw contents) (f ∷ fds) (holding abi libc sun fd w)).0 ≡ ok true
      → (length (f ∷ fds) ≤ 253)
        × ((send_raw abi libc (raw contents) (f ∷ fds) (holding abi libc sun fd w)).1
            ≡ holding abi libc sun fd (carry (carrying contents (f ∷ fds)) w))
  unfolding send_raw send_with_fds
  send_raw-carry contents f fds w h =
      elim (Bool-cases (ltb max_fds_per_message (length (f ∷ fds)))) [
        | inl p ↦ let refused = rw p at h in cc
        | inr p ↦ (
          omega (arith, few (length (f ∷ fds)) p),
          rw p (
              ap (λ x. x.1)
                (checked_true libc (sendmsg fd (carrying contents (f ∷ fds)) msg_nosignal)
                  (holding abi libc sun fd w))),
        )
      ]
    where
      few : (n : ℕ) → ltb max_fds_per_message n ≡ false → n ≤ 253
      few n p = ground arith

  name_field-named :
      (name : Option Text) (named : Fields)
      → name_field run abi libc name ≡ ok named
      → named ≡ named_fields name
  name_field-named none named h = cc
  name_field-named (some name) named h = elim (Result-cases (check_fdname name)) [
    | inl (n, e) ↦
        let same = ((check_fdname_iff name n).0 e).0 in
        let found = rw (e, name_field) at h in cc (found, same)
    | inr (x, e) ↦ let refused = rw (e, name_field) at h in cc
  ]

  -- What a call of fdstore that returns True sent.
  pub fdstore-carry :
      (f : ℤ) (fds : List ℤ) (name : Option Text) (poll_it : Option Bool) (w : World)
      → (fdstore run abi libc (f ∷ fds) name poll_it (holding abi libc sun fd w)).0 ≡ ok true
      → (contents : Bytes) × (build_payload run [] (store_fields run abi libc name poll_it)
          ≡ ok contents)
        × (length (f ∷ fds) ≤ 253)
        × ((fdstore run abi libc (f ∷ fds) name poll_it (holding abi libc sun fd w)).1
            ≡ holding abi libc sun fd (carry (carrying contents (f ∷ fds)) w))
  unfolding fdstore
  fdstore-carry f fds name poll_it w h =
      let s = holding abi libc sun fd w in
      let (named, hn, h₁, e₁) =
        Exec.>>=-eq-ok (lift (name_field run abi libc name)) _ s {b = true} h in
      let (contents, hc, h₂, e₂) =
        Exec.>>=-eq-ok
          (lift (
            build_payload run []
              ((codes "FDSTORE", one) ∷ (named ++ poll_field run abi libc poll_it))))
          _ s {b = true} h₁ in
      let (few, e₃) = send_raw-carry contents f fds w h₂ in
      let same = name_field-named name named hn in (contents, rw same at hc, few, e₁ ∙ e₂ ∙ e₃)

-- The message of the latest call, where it is a sendmsg.
abbrev latest : Trace → Option Message
latest [] = none
latest (e ∷ t) = elim e.call [ sendmsg fd message flags ↦ some message | other ↦ none ]

module _ (run : Runtime) (abi : Abi) (libc peer : Libc) (sun : Bytes) (fd : ℤ)
    (listener : FakeNotifyListener) (is_abi : IsAbi abi) where
  -- What fdstore sends arrives: on a Notifier whose socket is open, let fdstore return True for
  -- some descriptors, ints, having sent a message. A listener with room for the payload and the
  -- descriptors that polls its socket as readable, and to which the kernel delivers that message,
  -- receives a datagram with the same descriptors in their order, which it reads as FDSTORE=1 with
  -- the name and the FDPOLL flag that were given, and nothing else.
  pub receive-fdstore :
      (f : ℤ) (fds : List ℤ) (name : Option Text) (poll_it : Option Bool) (w v : World)
      (message : Message) (timeout_ms : ℤ) (n k e : ℕ)
      → fdstore run abi libc (f ∷ fds) name poll_it (holding abi libc sun fd w)
        ≡ (ok true, holding abi libc sun fd (record_call libc (sendmsg fd message msg_nosignal) w))
      → All IsInt (f ∷ fds)
      → listener.max_fds ≡ suc n
      → length (f ∷ fds) ≤ suc n
      → length message.payload ≤ listener.bufsize
      → peer v.trace (poll listener.sock.fd pollin timeout_ms)
        ≡ record { ret = pos k; errno = e; out = 1 ∷ [] }
      → peer
          (record_call peer (poll listener.sock.fd pollin timeout_ms) v).trace
          (recvmsg listener.sock.fd listener.bufsize (control_size abi (suc n)) msg_cmsg_cloexec)
        ≡ delivery abi listener.bufsize (control_size abi (suc n)) message.payload message.control
      → ((receive abi peer listener timeout_ms v).0
          ≡ ok (some (record { contents = message.payload; fds = f ∷ fds })))
        × (Datagram.fields (record { contents = message.payload; fds = f ∷ fds })
            ≡ ok (stored name poll_it))
  receive-fdstore f fds name poll_it w v message timeout_ms n k e sends ints room few fits ready
        delivered =
      let (contents, built, bounded, left) =
        fdstore-carry run abi libc sun fd f fds name poll_it w (ap (λ x. x.0) sends) in
      let same : some (carrying run abi libc sun fd contents (f ∷ fds)) ≡ some message =
        ap (λ s. latest s.world.trace) (sym left ∙ ap (λ x. x.1) sends) in
      let control : message.control ≡ scm_rights abi (f ∷ fds) =
        ap (λ o. elim o [ none ↦ [] | some m ↦ m.control ]) (sym same) in
      let payload : contents ≡ message.payload =
        ap (λ o. elim o [ none ↦ [] | some m ↦ m.payload ]) same in
      let (ps, assigned, read) =
        fields-build_payload run (store_fields run abi libc name poll_it) (f ∷ fds)
          (rw payload at built) in
      let expected : ps ≡ stored name poll_it =
        cc (assigned, assignments-store_fields run abi libc name poll_it) in
      (
        receive-delivery abi peer listener timeout_ms n k e message.payload (f ∷ fds) v is_abi room
            fits few bounded ints ready (rw control at delivered),
        read ∙ ap ok (ap (λ m. put_all m []) expected ∙ put_all-stored name poll_it),
      )
