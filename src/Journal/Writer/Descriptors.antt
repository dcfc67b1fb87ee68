-- ===== src/Journal/Writer/Descriptors.antt =====
-- The descriptors that a JournalWriter of mpsystemd/journal.py owns, over any use of its methods.
use micropython_systemd.Prelude.{
  ℕ, ◌≤◌, ◌≡◌, ◌≢◌, refl, arith, Bool, true, List, [], ◌∷◌, Option, none, some, Bytes, length, ℤ,
  pos, is_negative, Bool-cases, inl, inr, codes,
}
use micropython_systemd.Errors.{Result, ok, err}
use micropython_systemd.Exec.{lift, >>=-outcome}
use micropython_systemd.World.{World, M, Libc, Trace, write, close, record_call}
use micropython_systemd.Text.{Runtime}
use micropython_systemd.Native.Struct.{Abi}
use micropython_systemd.Native.Sockets.{UnixDatagram, open_datagram, close_datagram, send}
use micropython_systemd.Native.Memfd.Descriptors.{sealed, memfd_sealed-Uses}
use micropython_systemd.Journal.{Entry, encode_fields}
use micropython_systemd.Journal.Writer.{
  W, State, on_world, send_raw, opened, get_socket, send_memfd, pass_memfd, fall_back, is_too_large,
  send_fields, close_sock,
}
use micropython_systemd.Journal.Writer
use micropython_systemd.Descriptors.{
  Ledger, Owes, Owes-refl, Owes-trans, Uses, >>=-Uses, finally-Uses, Keeps, >>=-Keeps,
}
use micropython_systemd.Descriptors.Rules.{
  in_world, from_world, close_fd-Uses, pure-Uses, raise-Uses,
}
use micropython_systemd.Descriptors.Sockets.{
  owned, absorbs, open_datagram-Uses, send-Uses, send_with_fds-Uses, close_datagram-Uses,
}

-- The object holds the descriptor of its socket.
abbrev pub in_state : Ledger State
in_state = record { trace = λ s. s.world.trace; held = λ s. owned s.writer.sock }

module _ (abi : Abi) (libc : Libc) (has_memfd : Bool) (fuel : ℕ) where
  on_world-Uses :
      {A : Type 0} {m : M A} {before : List ℤ} {later : Result A → List ℤ}
      → Uses abi in_world m before later
      → Uses abi in_state (on_world m) before later
  on_world-Uses p = record { owes = λ s. from_world abi in_state refl refl refl (p.owes s.world) }

  opened_new-Owes :
      (s : State) (r : Result UnixDatagram) (w : World)
      → open_datagram abi libc (some s.writer.sun_path) s.world ≡ (r, w)
      → s.writer.sock ≡ none
      → Owes abi in_state [] s (opened abi libc has_memfd fuel none s).1 []
  opened_new-Owes s (ok sock) w e unset =
      let p = (open_datagram-Uses abi libc (some s.writer.sun_path)).owes s.world in
      rw e (absorbs abi in_state {w = s.world} {v = w} refl refl (rw unset (rw e at p)))
  opened_new-Owes s (err x) w e unset =
      let p = (open_datagram-Uses abi libc (some s.writer.sun_path)).owes s.world in
      rw e (absorbs abi in_state {w = s.world} {v = w} refl refl (rw unset (rw e at p)))

  opened-Owes :
      (s : State) (sock : Option UnixDatagram)
      → s.writer.sock ≡ sock
      → Owes abi in_state [] s (opened abi libc has_memfd fuel sock s).1 []
  opened-Owes s none e = opened_new-Owes s _ _ refl e
  opened-Owes s (some sock) e = (pure-Uses abi in_state sock [] {later = λ r. []} refl).owes s

  get_socket-Keeps : Keeps abi in_state (get_socket abi libc has_memfd fuel)
  get_socket-Keeps = record { owes = λ s. opened-Owes s s.writer.sock refl }

  send_memfd-Uses :
      (sock : UnixDatagram) (fd : ℤ) (kept : List ℤ)
      → Uses abi in_state (send_memfd abi libc has_memfd fuel sock fd) kept (λ r. kept)
  send_memfd-Uses sock fd kept = on_world-Uses (
      >>=-Uses abi in_world (send_with_fds-Uses abi libc sock [] (fd ∷ []) kept)
        (λ n. pure-Uses abi in_world tt kept refl) (λ x. refl))

  pass_memfd-Uses :
      (sock : UnixDatagram) (memfd : Option ℤ)
      → Uses abi in_state
          (pass_memfd abi libc has_memfd fuel sock memfd)
          (sealed (ok memfd))
          (λ r. [])
  pass_memfd-Uses sock none = pure-Uses abi in_state none [] refl
  pass_memfd-Uses sock (some fd) =
      >>=-Uses abi in_state {mid = λ r. []}
        (finally-Uses abi in_state (send_memfd-Uses sock fd (fd ∷ []))
          (λ r. on_world-Uses (close_fd-Uses abi libc fd (fd ∷ []) [] (λ d. omega arith))))
        (λ u. pure-Uses abi in_state (some true) [] refl) (λ x. refl)

  module _
      (progress : (t : Trace) (fd : ℤ) (b : ℕ) (view : Bytes)
        → (libc t (write fd (b ∷ view))).ret ≢ pos 0) where
    fall_back-Keeps :
        (sock : UnixDatagram) (body : Bytes) (r : Result ℤ)
        → length body ≤ fuel
        → Keeps abi in_state (fall_back abi libc has_memfd fuel sock body r)
    fall_back-Keeps sock body (ok n) enough = pure-Uses abi in_state (some true) [] refl
    fall_back-Keeps sock body (err e) enough = elim (Bool-cases (is_too_large e)) [
      | inl large ↦ rw large (
          >>=-Uses abi in_state
            (on_world-Uses (
              memfd_sealed-Uses abi libc progress fuel body enough has_memfd
                (codes "mpsystemd-journal")))
            (λ memfd. pass_memfd-Uses sock memfd) (λ x. refl))
      | inr small ↦ rw small (raise-Uses abi in_state e [] refl)
    ]

    pub send_raw-Keeps :
        (body : Bytes)
        → length body ≤ fuel
        → Keeps abi in_state (send_raw abi libc has_memfd fuel body)
    unfolding send_raw
    send_raw-Keeps body enough = >>=-Keeps abi in_state get_socket-Keeps λ sock. record {
      owes = λ s.
          let sends = on_world (send abi libc sock body) s in
          Owes-trans abi in_state ((on_world-Uses (send-Uses abi libc sock body [])).owes s)
            ((fall_back-Keeps sock body sends.0 enough).owes sends.1);
    }

    pub send_fields-Keeps :
        (run : Runtime) (fields : Entry)
        → ((body : Bytes) → encode_fields run fields ≡ ok body → length body ≤ fuel)
        → Keeps abi in_state (send_fields abi libc has_memfd fuel run fields)
    unfolding send_fields
    send_fields-Keeps run fields fits = record {
      owes = λ s.
          >>=-outcome (λ r t. Owes abi in_state [] s t []) (lift (encode_fields run fields))
            (send_raw abi libc has_memfd fuel) s (λ e h. Owes-refl abi in_state [] s)
            (λ body h. (send_raw-Keeps body (fits body h)).owes s);
    }

  close_sock-Owes :
      (s : State) (sock : Option UnixDatagram)
      → s.writer.sock ≡ sock
      → Owes abi in_state [] s (close_sock abi libc has_memfd fuel sock s).1 []
  unfolding close_datagram
  close_sock-Owes s none e = (pure-Uses abi in_state tt [] {later = λ r. []} refl).owes s
  close_sock-Owes s (some sock) e =
      let p = (close_datagram-Uses abi libc sock).owes s.world in
      elim (Bool-cases (is_negative sock.fd)) [
        | inl n ↦
            rw n
              (absorbs abi in_state {w = s.world} {v = s.world} refl refl (rw e (rw n (rw n at p))))
        | inr n ↦
            let v = record_call libc (close sock.fd) s.world in
            rw n (absorbs abi in_state {w = s.world} {v = v} refl refl (rw e (rw n (rw n at p))))
      ]

  pub close-Keeps : Keeps abi in_state (Writer.close abi libc has_memfd fuel)
  unfolding Writer.close
  close-Keeps = record { owes = λ s. close_sock-Owes s s.writer.sock refl }

  close_sock-empty :
      (s : State) (sock : Option UnixDatagram)
      → s.writer.sock ≡ sock
      → ((close_sock abi libc has_memfd fuel sock s).0 ≡ ok tt)
        × ((close_sock abi libc has_memfd fuel sock s).1.writer.sock ≡ none)
  unfolding close_datagram
  close_sock-empty s none e = (refl, e)
  close_sock-empty s (some sock) e = elim (Bool-cases (is_negative sock.fd)) [
    | inl n ↦ rw n (refl, refl)
    | inr n ↦ rw n (refl, refl)
  ]

  pub close-empty :
      (s : State)
      → ((Writer.close abi libc has_memfd fuel s).0 ≡ ok tt)
        × ((Writer.close abi libc has_memfd fuel s).1.writer.sock ≡ none)
  unfolding Writer.close
  close-empty s = close_sock-empty s s.writer.sock refl
