-- ===== src/Notifier/Barrier.antt =====
-- The descriptors of a barrier.
use micropython_systemd.Prelude.{
  ℕ, ◌≡◌, refl, List, [], ◌∷◌, ◌++◌, Option, some, Bytes, codes, ℤ, pos, is_negative, ap, ◌∙◌, Bool,
  Bool-cases, inl, inr,
}
use micropython_systemd.Errors.{Result, ok, err}
use micropython_systemd.Exec.{pure, ◌>>◌, after, finally, handle, continue}
use micropython_systemd.World.{World, Libc, Call, calls, record_call, pipe2, sendmsg, close}
use micropython_systemd.Utf8.{raw}
use micropython_systemd.Native.Struct.{Abi, unpack_int}
use micropython_systemd.Native.{o_cloexec, close_fd}
use micropython_systemd.Native.Ancillary.{scm_rights}
use micropython_systemd.Native.Sockets.{msg_nosignal, sockaddr_un, send_with_fds}
use micropython_systemd.Notifier.{State, send_raw, barrier_begin, on_world}
use micropython_systemd.Notifier.Sending.{sent, checked_true, holding}
use micropython_systemd.Prelude.{drop}
use micropython_systemd.Text.{Runtime}

abbrev pub pipe_call : Call
pipe_call = pipe2 o_cloexec

abbrev pub barrier_call : Abi → ℤ → Bytes → ℤ → Call
barrier_call abi fd sun write_fd =
    sendmsg fd
      (record {
        name = (sockaddr_un abi sun).0;
        namelen = (sockaddr_un abi sun).1;
        payload = codes "BARRIER=1\n";
        control = scm_rights abi (write_fd ∷ []);
      })
      msg_nosignal

-- A step that cannot fail keeps the state of what came before.
continue-pure {ℓ κ μ} :
    {S : Type ℓ} {A : Type κ} {B : Type μ} (r : Result A) (b : B) (s : S)
    → (continue r (λ _. pure b) s).1 ≡ s
continue-pure (ok a) b s = refl
continue-pure (err e) b s = refl

-- Closing changes nothing but the trace.
close_fd-state :
    (libc : Libc) (fd : ℤ) (s : State)
    → (on_world (close_fd libc fd) s).1 ≡ record s { world = record_call libc (close fd) s.world }
close_fd-state libc fd s = elim (Bool-cases (is_negative (libc s.world.trace (close fd)).ret)) [
  | inl p ↦ rw p refl
  | inr p ↦ rw p refl
]

abbrev state_calls : State → List Call
state_calls s = calls s.world.trace

module _ (run : Runtime) (abi : Abi) (libc : Libc) (sun : Bytes) (fd : ℤ) where
  send_raw-holding :
      (w : World) (write_fd : ℤ)
      → send_raw abi libc (raw (codes "BARRIER=1\n")) (write_fd ∷ []) (holding abi libc sun fd w)
        ≡ (
          sent (libc w.trace (barrier_call abi fd sun write_fd)),
          holding abi libc sun fd (record_call libc (barrier_call abi fd sun write_fd) w),
        )
  unfolding send_raw send_with_fds
  send_raw-holding w write_fd =
      checked_true libc (barrier_call abi fd sun write_fd) (holding abi libc sun fd w)

  -- What follows the sending.
  abbrev ended : ℤ → ℤ → Result Bool × State → Result (Option ℤ) × State
  ended read_fd write_fd outcome =
      (finally (λ (s : State). handle outcome.0 (on_world (close_fd libc read_fd)) outcome.1)
            (on_world (close_fd libc write_fd))
          >> pure (some read_fd))
        outcome.1

  barrier_begin-ended :
      (w : World) {n : ℕ} {e : ℕ} {out : Bytes}
      → libc w.trace pipe_call ≡ record { ret = pos n; errno = e; out = out }
      → barrier_begin run abi libc (holding abi libc sun fd w)
        ≡ ended (unpack_int abi out) (unpack_int abi (drop 4 out)) (
            send_raw abi libc
              (raw (codes "BARRIER=1\n"))
              (unpack_int abi (drop 4 out) ∷ [])
              (holding abi libc sun fd (record_call libc pipe_call w)))
  unfolding barrier_begin
  barrier_begin-ended w piped = rw piped refl

  -- The read end, closed if the message was not sent.
  abbrev pub unless_sent : Result Bool → ℤ → List Call
  unless_sent (ok b) read_fd = []
  unless_sent (err e) read_fd = close read_fd ∷ []

  calls-ended :
      (read_fd write_fd : ℤ) (r : Result Bool) (w : World)
      → calls (ended read_fd write_fd (r, holding abi libc sun fd w)).1.world.trace
        ≡ close write_fd ∷ (unless_sent r read_fd ++ calls w.trace)
  calls-ended read_fd write_fd (ok b) w =
      let s = holding abi libc sun fd w in
      ap state_calls (
        continue-pure (after (ok b) (on_world (close_fd libc write_fd) s).0) (some read_fd)
          (on_world (close_fd libc write_fd) s).1)
      ∙ ap state_calls (close_fd-state libc write_fd s)
  calls-ended read_fd write_fd (err e) w =
      let s = holding abi libc sun fd w in
      let t = (on_world (close_fd libc read_fd) s).1 in
      let r = after (err e) (on_world (close_fd libc read_fd) s).0 in
      ap state_calls (
        continue-pure (after r (on_world (close_fd libc write_fd) t).0) (some read_fd)
          (on_world (close_fd libc write_fd) t).1)
      ∙ ap state_calls (close_fd-state libc write_fd t)
      ∙ ap (λ u. close write_fd ∷ state_calls u) (close_fd-state libc read_fd s)

  -- barrier_begin on an object whose socket is open, when pipe2 gives a pair of descriptors, calls
  -- pipe2, sends BARRIER=1 with the write end, closes the read end exactly when that failed, and
  -- closes the write end last in any case.
  pub calls-barrier_begin :
      (w : World) {n : ℕ} {e : ℕ} {out : Bytes}
      → libc w.trace pipe_call ≡ record { ret = pos n; errno = e; out = out }
      → calls (barrier_begin run abi libc (holding abi libc sun fd w)).1.world.trace
        ≡ close (unpack_int abi (drop 4 out))
          ∷ (unless_sent
                (sent (
                  libc
                    (record_call libc pipe_call w).trace
                    (barrier_call abi fd sun (unpack_int abi (drop 4 out)))))
                (unpack_int abi out)
              ++ barrier_call abi fd sun (unpack_int abi (drop 4 out)) ∷ pipe_call ∷ calls w.trace)
  calls-barrier_begin w {out = out} piped =
      let read_fd = unpack_int abi out in
      let write_fd = unpack_int abi (drop 4 out) in
      let v = record_call libc pipe_call w in
      ap (λ x. state_calls x.1) (barrier_begin-ended w piped)
      ∙ ap (λ x. state_calls (ended read_fd write_fd x).1) (send_raw-holding v write_fd)
      ∙ calls-ended read_fd write_fd (sent (libc v.trace (barrier_call abi fd sun write_fd)))
          (record_call libc (barrier_call abi fd sun write_fd) v)
