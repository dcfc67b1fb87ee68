-- ===== src/Notifier/Descriptors.antt =====
-- The descriptors that a Notifier of mpsystemd/daemon.py owns, over any use of its methods.
pub mod Barrier
pub mod Session
use micropython_systemd.Prelude.{
  ◌+◌, ◌≡◌, refl, arith, true, false, List, [], ◌∷◌, ◌++◌, ℤ, is_negative, Bool, Bool-cases, inl,
  inr, ap, Option, none, some, Bytes, Text, codes,
}
use micropython_systemd.Errors.{Result, ok, err, Error, Result-cases, value_error, no_descriptors}
use micropython_systemd.Exec.{pure, raise, lift, ◌>>=◌, ◌>>◌, finally, on_error, after}
use micropython_systemd.World.{World, M, Libc, Trace, close, Call, clock_gettime, record_call}
use micropython_systemd.World
use micropython_systemd.Utf8.{Chars, raw, to_raw}
use micropython_systemd.Text.{Runtime}
use micropython_systemd.Payload.{Fields, Value, build_payload, check_fdname}
use micropython_systemd.Native.{close_fd, pipe, poll_fd, monotonic_us, clock_monotonic}
use micropython_systemd.Native.Struct.{Abi}
use micropython_systemd.Native.Sockets.{UnixDatagram, open_datagram, close_datagram}
use micropython_systemd.Descriptors.{
  count, Accounted, Ledger, Owes, Uses, Owes-trans, >>=-Uses, finally-Uses, on_error-Uses,
  Uses-returns, Uses-frame, Keeps, >>=-Keeps,
}
use micropython_systemd.Descriptors.Rules.{
  in_world, from_world, call-Owes, check-Uses, check_out-Uses, close_fd-Uses, pure-Uses, lift-Uses,
  pipe-Uses, got_pair,
}
use micropython_systemd.Descriptors.Sockets.{
  owned, owned_of, absorbs, open_datagram-Uses, send-Uses, send_with_fds-Uses, close_datagram-Uses,
}
use micropython_systemd.Notifier.{
  State, N, on_world, put_sock, ensure_sock, deliver, send_at, send_raw, begin_at, barrier_begin,
}
use micropython_systemd.Notifier

-- The object holds the descriptor of its socket.
abbrev pub in_state : Ledger State
in_state = record { trace = λ s. s.world.trace; held = λ s. owned s.notifier.sock }

module _ (abi : Abi) where
  pub on_world-Uses :
      {A : Type 0} {m : M A} {before : List ℤ} {later : Result A → List ℤ}
      → Uses abi in_world m before later
      → Uses abi in_state (on_world m) before later
  on_world-Uses p = record { owes = λ s. from_world abi in_state refl refl refl (p.owes s.world) }

  module _ (libc : Libc) where
    opened-Owes :
        (sun : Bytes) (s : State) (r : Result UnixDatagram) (w : World)
        → open_datagram abi libc (some sun) s.world ≡ (r, w)
        → s.notifier.sock ≡ none
        → Owes abi in_state [] s (ensure_sock abi libc sun none s).1 []
    unfolding ensure_sock
    opened-Owes sun s (ok sock) w e unset =
        let p = (open_datagram-Uses abi libc (some sun)).owes s.world in
        rw e (absorbs abi in_state {w = s.world} {v = w} refl refl (rw unset (rw e at p)))
    opened-Owes sun s (err x) w e unset =
        let p = (open_datagram-Uses abi libc (some sun)).owes s.world in
        rw e (absorbs abi in_state {w = s.world} {v = w} refl refl (rw unset (rw e at p)))

    -- The socket is opened where there is none, and kept.
    ensure_sock-Owes :
        (sun : Bytes) (s : State) (sock : Option UnixDatagram)
        → s.notifier.sock ≡ sock
        → Owes abi in_state [] s (ensure_sock abi libc sun sock s).1 []
    unfolding ensure_sock
    ensure_sock-Owes sun s none e = opened-Owes sun s _ _ refl e
    ensure_sock-Owes sun s (some sock) e =
        (pure-Uses abi in_state sock [] {later = λ r. []} refl).owes s

    socket-Keeps :
        (sun : Bytes) → Keeps abi in_state (λ s. ensure_sock abi libc sun s.notifier.sock s)
    socket-Keeps sun = record { owes = λ s. ensure_sock-Owes sun s s.notifier.sock refl }

    deliver-Keeps :
        (sock : UnixDatagram) (contents : Bytes) (fds : List ℤ)
        → Keeps abi in_state (deliver abi libc sock contents fds)
    unfolding deliver
    deliver-Keeps sock contents [] = on_world-Uses (send-Uses abi libc sock contents [])
    deliver-Keeps sock contents (f ∷ fds) =
        on_world-Uses (send_with_fds-Uses abi libc sock contents (f ∷ fds) [])

    pub pure-Keeps : {A : Type 0} (a : A) → Keeps abi in_state (pure a)
    pure-Keeps a = pure-Uses abi in_state a [] refl

    pub lift-Keeps : {A : Type 0} (r : Result A) → Keeps abi in_state (lift r)
    lift-Keeps r = lift-Uses abi in_state r []

    pub then-Keeps :
        {A B : Type 0} {m : N A} {f : A → N B}
        → Keeps abi in_state m
        → ((a : A) → Keeps abi in_state (f a))
        → Keeps abi in_state (m >>= f)
    then-Keeps = >>=-Keeps abi in_state

    send_at-Keeps :
        (sun : Option Bytes) (payload : Chars) (fds : List ℤ)
        → Keeps abi in_state (send_at abi libc sun payload fds)
    unfolding send_at
    send_at-Keeps none payload fds = pure-Keeps false
    send_at-Keeps (some sun) payload fds = then-Keeps (lift-Keeps (to_raw payload)) λ contents.
        then-Keeps (socket-Keeps sun)
          λ sock. then-Keeps (deliver-Keeps sock contents fds) λ n. pure-Keeps true

    pub send_raw-Keeps :
        (payload : Chars) (fds : List ℤ) → Keeps abi in_state (send_raw abi libc payload fds)
    unfolding send_raw
    send_raw-Keeps payload fds = record {
      owes = λ s. (send_at-Keeps s.notifier.sun_path payload fds).owes s;
    }

    pub notify-Keeps :
        (run : Runtime) (states : List Chars) (fields : Fields)
        → Keeps abi in_state (Notifier.notify run abi libc states fields)
    unfolding Notifier.notify
    notify-Keeps run states fields =
        then-Keeps (lift-Keeps (build_payload run states fields))
          λ payload. send_raw-Keeps (raw payload) []

    pub monotonic_us-Keeps : Keeps abi in_world (monotonic_us libc abi)
    monotonic_us-Keeps =
        >>=-Keeps abi in_world
          (check_out-Uses abi libc (clock_gettime clock_monotonic) [] (λ r. refl) refl)
          λ buf. pure-Uses abi in_world _ [] refl

    pub pid_or_own-Keeps :
        (run : Runtime) (pid : Option ℤ) → Keeps abi in_world (Notifier.pid_or_own run abi libc pid)
    pid_or_own-Keeps run none = record {
      owes = λ w. call-Owes abi libc World.getpid w [] [] (λ d. omega arith);
    }
    pid_or_own-Keeps run (some pid) = pure-Uses abi in_world pid [] refl

    pub fdstore-Keeps :
        (run : Runtime) (fds : List ℤ) (name : Option Text) (poll : Option Bool)
        → Keeps abi in_state (Notifier.fdstore run abi libc fds name poll)
    unfolding Notifier.fdstore
    fdstore-Keeps run [] name poll = lift-Keeps (err (value_error no_descriptors))
    fdstore-Keeps run (f ∷ fds) name poll =
        then-Keeps (lift-Keeps (Notifier.name_field run abi libc name)) λ named.
          then-Keeps (lift-Keeps (build_payload run [] _))
            λ payload. send_raw-Keeps (raw payload) (f ∷ fds)

    pub fdstore_remove-Keeps :
        (run : Runtime) (name : Text)
        → Keeps abi in_state (Notifier.fdstore_remove run abi libc name)
    unfolding Notifier.fdstore_remove
    fdstore_remove-Keeps run name =
        then-Keeps (lift-Keeps (check_fdname name)) λ n. notify-Keeps run [] _

    close_sock-Owes :
        (s : State) (sock : Option UnixDatagram)
        → s.notifier.sock ≡ sock
        → Owes abi in_state [] s (Notifier.close_sock abi libc sock s).1 []
    unfolding close_datagram
    close_sock-Owes s none e = (pure-Keeps tt).owes s
    close_sock-Owes s (some sock) e =
        let p = (close_datagram-Uses abi libc sock).owes s.world in
        elim (Bool-cases (is_negative sock.fd)) [
          | inl n ↦
              rw n (
                absorbs abi in_state {w = s.world} {v = s.world} refl refl
                  (rw e (rw n (rw n at p))))
          | inr n ↦
              let v = record_call libc (close sock.fd) s.world in
              rw n (absorbs abi in_state {w = s.world} {v = v} refl refl (rw e (rw n (rw n at p))))
        ]

    pub close-Keeps : Keeps abi in_state (Notifier.close abi libc)
    unfolding Notifier.close
    close-Keeps = record { owes = λ s. close_sock-Owes s s.notifier.sock refl }

    pub close_sock-ok :
        (s : State) (sock : Option UnixDatagram) → (Notifier.close_sock abi libc sock s).0 ≡ ok tt
    unfolding close_datagram
    close_sock-ok s none = refl
    close_sock-ok s (some sock) = elim (Bool-cases (is_negative sock.fd)) [
      | inl n ↦ rw n refl
      | inr n ↦ rw n refl
    ]

    pub closing-Uses :
        (fd : ℤ) (before later : List ℤ)
        → ((d : ℤ) → count d before ≡ count d (fd ∷ []) + count d later)
        → Uses abi in_state (on_world (close_fd libc fd)) before (λ r. later)
    closing-Uses fd before later balance =
        on_world-Uses (close_fd-Uses abi libc fd before later balance)
