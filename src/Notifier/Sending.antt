-- ===== src/Notifier/Sending.antt =====
-- The calls that one notification makes, and its outcome.
use micropython_systemd.Prelude.{
  ℕ, ◌≡◌, refl, true, false, List, [], ◌∷◌, none, some, Text, Bytes, ℤ, pos, is_negative,
  if◌then◌else◌, ◌⊎◌, ap, ◌∙◌, Bool, Bool-cases, inl, inr,
}
use micropython_systemd.Errors.{Result, ok, err, os_error, ◌>>=◌, Result-cases}
use micropython_systemd.Exec.{pure, ◌>>◌, after}
use micropython_systemd.World.{World, Libc, Call, Reply, record_call, check, socket, sendto, close}
use micropython_systemd.World.Environment
use micropython_systemd.Utf8.{Chars, raw, text}
use micropython_systemd.Text.{Runtime}
use micropython_systemd.Address.{encode_unix_address}
use micropython_systemd.Payload.{Fields, build_payload}
use micropython_systemd.Native.Struct.{Abi}
use micropython_systemd.Native.Sockets.{
  af_unix, datagram_type, msg_nosignal, sockaddr_un, open_datagram, send, close_datagram,
}
use micropython_systemd.Notifier.{
  Notifier, State, new_notifier, send_raw, notify, with_notifier, on_world, N, at_path,
}
use micropython_systemd.Notifier

-- What a send is worth: an OSError where libc reports failure.
abbrev pub sent : Reply → Result Bool
sent r = if is_negative r.ret then err (os_error r.errno) else ok true

abbrev pub socket_call : Call
socket_call = socket af_unix datagram_type 0

abbrev pub send_call : Abi → ℤ → Bytes → Bytes → Call
send_call abi fd contents sun =
    sendto fd contents msg_nosignal (sockaddr_un abi sun).0 (sockaddr_un abi sun).1

-- One checked call behind which True is returned.
pub checked_true :
    (libc : Libc) (c : Call) (s : State)
    → (on_world (check libc c) >> pure true) s
      ≡ (sent (libc s.world.trace c), record s { world = record_call libc c s.world })
checked_true libc c s = elim (Bool-cases (is_negative (libc s.world.trace c).ret)) [
  | inl p ↦ rw p refl
  | inr p ↦ rw p refl
]

module _ (abi : Abi) (libc : Libc) where
  -- The object with its socket open.
  abbrev pub holding : Bytes → ℤ → World → State
  holding sun fd w = record {
    notifier = record {
      sun_path = some sun;
      sock = some (record { fd = fd; peer = some (sockaddr_un abi sun) });
    };
    world = w;
  }

  -- A first send opens the socket, keeps it, and sends once, whatever comes of it.
  pub send_raw-at_path :
      (w : World) (sun contents : Bytes) {fd : ℕ}
      → (libc w.trace socket_call).ret ≡ pos fd
      → send_raw abi libc (raw contents) [] (record { notifier = at_path sun; world = w })
        ≡ (on_world (check libc (send_call abi (pos fd) contents sun)) >> pure true)
            (holding sun (pos fd) (record_call libc socket_call w))
  unfolding send_raw open_datagram send
  send_raw-at_path w sun contents opened = rw opened refl

  -- What `with Notifier()` makes of the outcome of its body.
  abbrev pub closed : {A : Type 0} → Result A × State → Result A × World
  closed outcome = let (r, s) = Notifier.close abi libc outcome.1 in (after outcome.0 r, s.world)

  pub with_notifier-at_path :
      {A : Type 0} (run : Runtime) (w : World) {c : ℕ} {a : Text} {sun : Bytes} (body : N A)
      → Environment.lookup "NOTIFY_SOCKET" w.env ≡ some (c ∷ a)
      → encode_unix_address (text (c ∷ a)) ≡ ok sun
      → with_notifier run abi libc body w
        ≡ closed (body (record { notifier = at_path sun; world = w }))
  unfolding with_notifier new_notifier
  with_notifier-at_path run w body address path = rw (address, path) refl

module _ (run : Runtime) (abi : Abi) (libc : Libc) (states : List Chars) (fields : Fields)
    (w : World) where
  -- notify() with a socket address in the environment, a payload that can be built and a socket
  -- that can be opened makes three calls: socket, sendto of the whole payload to the address,
  -- and close of the descriptor, whether sendto succeeds or fails. It returns True if sendto
  -- succeeds and raises its OSError if not.
  pub notify_lem :
      {c : ℕ} {a : Text} {sun contents : Bytes} {fd : ℕ}
      → Environment.lookup "NOTIFY_SOCKET" w.env ≡ some (c ∷ a)
      → encode_unix_address (text (c ∷ a)) ≡ ok sun
      → build_payload run states fields ≡ ok contents
      → (libc w.trace socket_call).ret ≡ pos fd
      → with_notifier run abi libc (notify run abi libc states fields) w ≡ (
        sent (libc (record_call libc socket_call w).trace (send_call abi (pos fd) contents sun)),
        record_call libc (close (pos fd)) (
            record_call libc
              (send_call abi (pos fd) contents sun)
              (record_call libc socket_call w)),
      )
  unfolding notify Notifier.close close_datagram
  notify_lem {sun = sun} {contents = contents} {fd = fd} address path body opened =
      let start : State = record { notifier = at_path sun; world = w } in
      let s = holding abi libc sun (pos fd) (record_call libc socket_call w) in
      let sends : notify run abi libc states fields start ≡ (
        sent (libc s.world.trace (send_call abi (pos fd) contents sun)),
        record s { world = record_call libc (send_call abi (pos fd) contents sun) s.world },
      ) =
        rw body (
          send_raw-at_path abi libc w sun contents opened
          ∙ checked_true libc (send_call abi (pos fd) contents sun) s) in
      with_notifier-at_path abi libc run w (notify run abi libc states fields) address path
      ∙ ap (closed abi libc) sends

  -- Without a socket address in the environment, or with an empty one, notify() builds the payload,
  -- raises what that raises, and else returns False; it makes no call and leaves the world as it
  -- is.
  pub notify_unset :
      (Environment.lookup "NOTIFY_SOCKET" w.env ≡ none)
        ⊎ (Environment.lookup "NOTIFY_SOCKET" w.env ≡ some [])
      → with_notifier run abi libc (notify run abi libc states fields) w
        ≡ ((build_payload run states fields >>= λ b. ok false), w)
  unfolding with_notifier new_notifier notify send_raw Notifier.close
  notify_unset (inl unset) = elim (Result-cases (build_payload run states fields)) [
    | inl (b, built) ↦ rw (unset, built) refl
    | inr (x, failed) ↦ rw (unset, failed) refl
  ]
  notify_unset (inr blank) = elim (Result-cases (build_payload run states fields)) [
    | inl (b, built) ↦ rw (blank, built) refl
    | inr (x, failed) ↦ rw (blank, failed) refl
  ]
