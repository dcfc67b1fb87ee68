-- ===== src/Notifier/Log/Requests.antt =====
-- Sequences of calls of a Notifier of mpsystemd/daemon.py, by what they report as sent.
use micropython_systemd.Prelude.{
  ◌≡◌, refl, sym, ap, ◌∙◌, Bool, false, Bool-cases, inl, inr, List, [], ◌∷◌, ◌++◌, append-nil,
  append_assoc, Option, none, some, Bytes, All, ℤ, is_negative,
}
use micropython_systemd.Errors.{Result, ok, err, Error}
use micropython_systemd.Errors
use micropython_systemd.Exec.{pure, lift, ◌>>=◌, >>=-outcome, continue}
use micropython_systemd.World.{World, Libc, clock_gettime}
use micropython_systemd.Utf8.{raw}
use micropython_systemd.Text.{Runtime}
use micropython_systemd.Payload.{build_payload, check_fdname}
use micropython_systemd.Native.{monotonic_us, clock_monotonic}
use micropython_systemd.Native.Struct.{Abi}
use micropython_systemd.Native.Struct.Laws.{IsInt}
use micropython_systemd.Native.Ancillary.Layout.{IsAbi}
use micropython_systemd.Native.Sockets.{UnixDatagram, close_datagram}
use micropython_systemd.Notifier.{State, N, send_raw, one, name_field, poll_field, pid_or_own}
use micropython_systemd.Notifier
use micropython_systemd.Notifier.Log.{
  delivered, Request, notify, fdstore, fdstore_remove, reloading, main_pid, close, posted,
  payload_of, fds_of, answered, after_all, log,
}
use micropython_systemd.Notifier.Log.Messages.{Aims, send_raw-posted}

-- The descriptors of the calls are ints.
abbrev pub AllInts : Runtime → Abi → Libc → List Request → Type 0
AllInts run abi libc = All (λ q. All IsInt (fds_of run abi libc q))

module _ (run : Runtime) (abi : Abi) (sun : Bytes) (libc : Libc) (is_abi : IsAbi abi) where
  abbrev Posts : N Bool → Result Bytes → List ℤ → State → Type 0
  Posts m payload fds s =
      (delivered abi sun (m s).1.world.trace
        ≡ delivered abi sun s.world.trace ++ posted (m s).0 payload fds)
      × Aims abi sun (m s).1

  sends-Posts :
      (payload : Result Bytes) (fds : List ℤ) (s : State)
      → All IsInt fds
      → Aims abi sun s
      → Posts (lift payload >>= λ contents. send_raw abi libc (raw contents) fds) payload fds s
  sends-Posts (ok contents) fds s ints a = send_raw-posted abi is_abi libc sun contents fds s ints a
  sends-Posts (err e) fds s ints a = (sym (append-nil _), a)

  -- A payload that follows a check.
  checked-Posts :
      {A : Type 0} (check : Result A) (build : A → Result Bytes) (fds : List ℤ) (s : State)
      → All IsInt fds
      → Aims abi sun s
      → Posts
          (lift check >>= λ a. lift (build a) >>= λ contents. send_raw abi libc (raw contents) fds)
          (Errors.◌>>=◌ check build)
          fds
          s
  checked-Posts (ok a) build fds s ints aims = sends-Posts (build a) fds s ints aims
  checked-Posts (err e) build fds s ints aims = (sym (append-nil _), aims)

  -- What is sent after a reading that delivers nothing.
  read-Posts :
      {A : Type 0} (r : Result A) (build : A → Result Bytes) (s t : State)
      → delivered abi sun t.world.trace ≡ delivered abi sun s.world.trace
      → Aims abi sun t
      → let o =
          continue r (λ a. lift (build a) >>= λ contents. send_raw abi libc (raw contents) []) t in
        (delivered abi sun o.1.world.trace
          ≡ delivered abi sun s.world.trace ++ posted o.0 (Errors.◌>>=◌ r build) [])
        × Aims abi sun o.1
  read-Posts (ok a) build s t quiet aims =
      let m : N Bool = lift (build a) >>= λ contents. send_raw abi libc (raw contents) [] in
      let (sends, after) = sends-Posts (build a) [] t tt aims in
      (sends ∙ ap (λ datagrams. datagrams ++ posted (m t).0 (build a) []) quiet, after)
  read-Posts (err e) build s t quiet aims = (quiet ∙ sym (append-nil _), aims)

  monotonic_us-delivered :
      (w : World) → delivered abi sun (monotonic_us libc abi w).1.trace ≡ delivered abi sun w.trace
  unfolding delivered
  monotonic_us-delivered w =
      elim (Bool-cases (is_negative (libc w.trace (clock_gettime clock_monotonic)).ret)) [
        | inl n ↦ rw n refl
        | inr n ↦ rw n refl
      ]

  pid_or_own-delivered :
      (pid : Option ℤ) (w : World)
      → delivered abi sun (pid_or_own run abi libc pid w).1.trace ≡ delivered abi sun w.trace
  unfolding delivered
  pid_or_own-delivered none w = refl
  pid_or_own-delivered (some pid) w = refl

  close_sock-delivered :
      (sock : Option UnixDatagram) (s : State)
      → Aims abi sun s
      → (delivered abi sun (Notifier.close_sock abi libc sock s).1.world.trace
          ≡ delivered abi sun s.world.trace)
        × Aims abi sun (Notifier.close_sock abi libc sock s).1
  unfolding close_datagram delivered
  close_sock-delivered none s a = (refl, a)
  close_sock-delivered (some sock) s a = elim (Bool-cases (is_negative sock.fd)) [
    | inl n ↦ rw n (refl, record { path = a.path; aimed = tt })
    | inr n ↦ rw n (refl, record { path = a.path; aimed = tt })
  ]

  answered-Posts :
      (q : Request) (s : State)
      → All IsInt (fds_of run abi libc q)
      → Aims abi sun s
      → Posts (answered run abi libc q) (payload_of run abi libc q s) (fds_of run abi libc q) s
  unfolding Notifier.notify Notifier.fdstore Notifier.fdstore_remove Notifier.close
  answered-Posts (notify states fields) s ints a =
      sends-Posts (build_payload run states fields) [] s ints a
  answered-Posts (fdstore [] name poll_it) s ints a = (sym (append-nil _), a)
  answered-Posts (fdstore (f ∷ fds) name poll_it) s ints a =
      checked-Posts (name_field run abi libc name) _ (f ∷ fds) s ints a
  answered-Posts (fdstore_remove name) s ints a = checked-Posts (check_fdname name) _ [] s ints a
  answered-Posts (reloading status) s ints a =
      let o = monotonic_us libc abi s.world in
      read-Posts o.0 _ s (record s { world = o.1 }) (monotonic_us-delivered s.world)
        (record { path = a.path; aimed = a.aimed })
  answered-Posts (main_pid pid) s ints a =
      let o = pid_or_own run abi libc pid s.world in
      read-Posts o.0 _ s (record s { world = o.1 }) (pid_or_own-delivered pid s.world)
        (record { path = a.path; aimed = a.aimed })
  answered-Posts close s ints a =
      let (same, aims) = close_sock-delivered s.notifier.sock s a in
      let quiet = same ∙ sym (append-nil _) in
      >>=-outcome
        (λ r v.
          (delivered abi sun v.world.trace ≡ delivered abi sun s.world.trace ++ posted r (ok []) [])
          × Aims abi sun v)
        (Notifier.close abi libc) (λ u. pure false) s (λ e h. (quiet, aims)) (λ u h. (quiet, aims))

  -- For a Notifier of a path, whose socket, where it is open, goes there, over any sequence of
  -- calls of notify, reloading, main_pid, fdstore, fdstore_remove and close, exceptions caught,
  -- with any failure of any call of libc, on a word of 4 or 8 bytes and for descriptors that are
  -- ints: the socket address of the path, AF_UNIX in two bytes, the path and a NUL, which the
  -- length leaves out, gets one datagram for each call that returned True, in the order of the
  -- calls, with the payload that the call stands for, the time or the process id as it was read in
  -- it, and with its descriptors in their order, and nothing of the calls that returned False or
  -- raised.
  pub delivered-after_all :
      (qs : List Request) (s : State)
      → AllInts run abi libc qs
      → Aims abi sun s
      → delivered abi sun (after_all run abi libc qs s).world.trace
        ≡ delivered abi sun s.world.trace ++ log run abi libc qs s
  unfolding after_all log
  delivered-after_all [] s ints a = sym (append-nil _)
  delivered-after_all (q ∷ qs) s (ints, rest) a =
      let t = (answered run abi libc q s).1 in
      let (first, aims) = answered-Posts q s ints a in
      delivered-after_all qs t rest aims
      ∙ ap (λ ds. ds ++ log run abi libc qs t) first
      ∙ append_assoc (delivered abi sun s.world.trace) (posted _ _ _) _
