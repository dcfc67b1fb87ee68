-- ===== src/Watchdog/Task/Pings.antt =====
-- The pings of watchdog_loop of mpsystemd/watchdog.py.
use mathlib.Core.Path.{subst}
use micropython_systemd.Prelude.{
  ℕ, zero, suc, ◌≡◌, refl, sym, ap, ◌∙◌, Bool-cases, inl, inr, false, true, [], ◌∷◌, Option, none,
  some, Text, Bytes, codes, is_negative, if◌then◌else◌, ℤ, pos, eq_ℤ,
}
use micropython_systemd.Errors.{Result, ok, err, Error, os_error}
use micropython_systemd.Exec.{pure, ◌>>◌}
use micropython_systemd.World.{World, M, Libc, Call, record_call, close, check}
use micropython_systemd.World.Environment
use micropython_systemd.Utf8
use micropython_systemd.Utf8.{raw, text}
use micropython_systemd.Text
use micropython_systemd.Text.{Runtime}
use micropython_systemd.Address.{encode_unix_address}
use micropython_systemd.Payload.{build_payload, check_name, get_item, format_value}
use micropython_systemd.Native.Struct.{Abi}
use micropython_systemd.Native.Sockets.{send, close_datagram}
use micropython_systemd.Notifier.{
  State, new_notifier, send_raw, notify, watchdog_ping, at_path, one, on_world,
}
use micropython_systemd.Notifier
use micropython_systemd.Notifier.Sending.{
  with_notifier-at_path, closed, sent, socket_call, send_call, holding, checked_true,
  send_raw-at_path,
}
use micropython_systemd.Watchdog.{watchdog_period_ms}
use micropython_systemd.Watchdog.Task.Interval.{Asks, interval_or-Asks, env-Asks}
use micropython_systemd.Watchdog.Task.{
  ping_if_available, interval_or, ping_loop, serve, watchdog_loop,
}

abbrev pub ping_payload : Bytes
ping_payload = codes "WATCHDOG=1\n"

build_payload-ping :
    (run : Runtime) → build_payload run [] ((codes "WATCHDOG", one) ∷ []) ≡ ok ping_payload
unfolding build_payload check_name get_item format_value Utf8.encode Utf8.decode Text.sorted
    Text.strip Text.join Text.upper Text.str_int Text.digits
build_payload-ping run = refl

module _ (abi : Abi) (libc : Libc) (cancelled : Error) (sun : Bytes) (fd : ℤ) where
  abbrev pub ping_call : Call
  ping_call = send_call abi fd ping_payload sun

  -- What ends the loop, and the world that it leaves: the first ping that fails, or else the
  -- cancellation after one ping more than there are sleeps.
  unfoldable pub pinged : ℕ → World → Error × World
  pinged zero w =
      let reply = libc w.trace ping_call in
      (
        if is_negative reply.ret then os_error reply.errno else cancelled,
        record_call libc ping_call w,
      )
  pinged (suc sleeps) w =
      let reply = libc w.trace ping_call in
      let v = record_call libc ping_call w in
      let rest = pinged sleeps v in
      if is_negative reply.ret then (os_error reply.errno, v) else rest

module _ (run : Runtime) (abi : Abi) (libc : Libc) (sleep_ms : ℤ → M (Unit {0})) (cancelled : Error)
    (sleeps_on : (ms : ℤ) (w : World) → sleep_ms ms w ≡ (ok tt, w)) where
  watchdog_ping-holding :
      (w : World) (sun : Bytes) (fd : ℤ)
      → watchdog_ping run abi libc (holding abi libc sun fd w) ≡ (
        sent (libc w.trace (ping_call abi libc cancelled sun fd)),
        holding abi libc sun fd (record_call libc (ping_call abi libc cancelled sun fd) w),
      )
  unfolding notify send_raw send
  watchdog_ping-holding w sun fd =
      rw (build_payload-ping run)
        (checked_true libc (ping_call abi libc cancelled sun fd) (holding abi libc sun fd w))

  send_raw-holding :
      (v : World) (sun : Bytes) (fd : ℤ)
      → send_raw abi libc (raw ping_payload) [] (holding abi libc sun fd v)
        ≡ (on_world (check libc (send_call abi fd ping_payload sun)) >> pure true)
            (holding abi libc sun fd v)
  unfolding send_raw send
  send_raw-holding v sun fd = refl

  watchdog_ping-at_path :
      (w : World) (sun : Bytes) {fd : ℕ}
      → (libc w.trace socket_call).ret ≡ pos fd
      → watchdog_ping run abi libc (record { notifier = at_path sun; world = w })
        ≡ watchdog_ping run abi libc
            (holding abi libc sun (pos fd) (record_call libc socket_call w))
  unfolding notify
  watchdog_ping-at_path w sun {fd} opened =
      let v = record_call libc socket_call w in
      rw (build_payload-ping run) (
        send_raw-at_path abi libc w sun ping_payload opened ∙ sym (send_raw-holding v sun (pos fd)))

  -- The loop sees no more of its first state than the first ping does.
  ping_loop-ap :
      (period_ms : ℤ) (n : ℕ) (s t : State)
      → watchdog_ping run abi libc s ≡ watchdog_ping run abi libc t
      → ping_loop run abi libc sleep_ms cancelled period_ms n s
        ≡ ping_loop run abi libc sleep_ms cancelled period_ms n t
  unfolding ping_loop
  ping_loop-ap period_ms zero s t e = rw e refl
  ping_loop-ap period_ms (suc n) s t e = rw e refl

  ping_loop-pinged :
      (period_ms : ℤ) (n : ℕ) (w : World) (sun : Bytes) (fd : ℤ)
      → ping_loop run abi libc sleep_ms cancelled period_ms n (holding abi libc sun fd w) ≡ (
        err (pinged abi libc cancelled sun fd n w).0,
        holding abi libc sun fd (pinged abi libc cancelled sun fd n w).1,
      )
  unfolding ping_loop pinged
  ping_loop-pinged period_ms zero w sun fd =
      let c = ping_call abi libc cancelled sun fd in
      elim (Bool-cases (is_negative (libc w.trace c).ret)) [
        | inl p ↦ rw (watchdog_ping-holding w sun fd, p) refl
        | inr p ↦ rw (watchdog_ping-holding w sun fd, p) refl
      ]
  ping_loop-pinged period_ms (suc n) w sun fd =
      let c = ping_call abi libc cancelled sun fd in
      elim (Bool-cases (is_negative (libc w.trace c).ret)) [
        | inl p ↦ rw (watchdog_ping-holding w sun fd, p) refl
        | inr p ↦
            rw
              (
                watchdog_ping-holding w sun fd,
                p,
                sleeps_on period_ms (record_call libc c w),
                ping_loop-pinged period_ms n (record_call libc c w) sun fd,
              )
              refl
      ]

  -- The loop on an object of its own, with the close behind it.
  serve-pinged :
      (period_ms : ℤ) (n : ℕ) (w : World) {c : ℕ} {a : Text} {sun : Bytes} {fd : ℕ}
      → Environment.lookup "NOTIFY_SOCKET" w.env ≡ some (c ∷ a)
      → encode_unix_address (text (c ∷ a)) ≡ ok sun
      → (libc w.trace socket_call).ret ≡ pos fd
      → serve run abi libc sleep_ms cancelled period_ms n (record { notifier = none; world = w })
        ≡ (
          err (pinged abi libc cancelled sun (pos fd) n (record_call libc socket_call w)).0,
          record {
            notifier = none;
            world =
                record_call libc
                  (close (pos fd))
                  (pinged abi libc cancelled sun (pos fd) n (record_call libc socket_call w)).1;
          },
        )
  unfolding Notifier.close close_datagram
  serve-pinged period_ms n w {sun = sun} {fd = fd} address path opened =
      let v = record_call libc socket_call w in
      let start : State = record { notifier = at_path sun; world = w } in
      let loops =
        ping_loop-ap period_ms n start (holding abi libc sun (pos fd) v)
          (watchdog_ping-at_path w sun opened)
        ∙ ping_loop-pinged period_ms n v sun (pos fd) in
      ap (λ (x : Result (Unit {0}) × World). (x.0, record { notifier = none; world = x.1 }))
        (with_notifier-at_path abi libc run w
            (ping_if_available run abi libc sleep_ms cancelled period_ms n) address path
          ∙ ap (closed abi libc) loops)

  -- A watchdog_loop without a notifier passed, where the sleeps return and leave the world alone,
  -- for an interval that is not 0, given or found in the environment, which may ask for the process
  -- id, a divisor that gives a period, a socket address in the environment and a socket that can be
  -- opened: it opens one socket, sends WATCHDOG=1 over it once more than its sleeps complete, or
  -- until a ping fails, closes the socket in either case, and raises the exception of the cancelled
  -- sleep or the OSError of the ping that failed.
  pub watchdog_loop-pinged :
      (interval_us : Option ℤ) (divisor period_ms i : ℤ) (n : ℕ) (w v : World) {c : ℕ} {a : Text}
      {sun : Bytes} {fd : ℕ}
      → interval_or run libc interval_us w ≡ (ok i, v)
      → eq_ℤ i (pos 0) ≡ false
      → watchdog_period_ms i divisor ≡ ok period_ms
      → Environment.lookup "NOTIFY_SOCKET" w.env ≡ some (c ∷ a)
      → encode_unix_address (text (c ∷ a)) ≡ ok sun
      → (libc v.trace socket_call).ret ≡ pos fd
      → watchdog_loop run abi libc sleep_ms cancelled interval_us divisor n
          (record { notifier = none; world = w })
        ≡ (
          err (pinged abi libc cancelled sun (pos fd) n (record_call libc socket_call v)).0,
          record {
            notifier = none;
            world =
                record_call libc
                  (close (pos fd))
                  (pinged abi libc cancelled sun (pos fd) n (record_call libc socket_call v)).1;
          },
        )
  unfolding watchdog_loop
  watchdog_loop-pinged interval_us divisor period_ms i n w v found nonzero period address path
        opened =
      let same : v.env ≡ w.env =
        env-Asks run libc w v
          (subst (λ o. Asks run libc w o.1) found (interval_or-Asks run libc interval_us w)) in
      let address' = ap (λ env. Environment.lookup "NOTIFY_SOCKET" env) same ∙ address in
      rw (found, nonzero, period, serve-pinged period_ms n v address' path opened) refl
