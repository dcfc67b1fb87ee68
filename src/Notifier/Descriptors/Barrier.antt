-- ===== src/Notifier/Descriptors/Barrier.antt =====
-- The descriptors of a barrier of mpsystemd/daemon.py, in hand until they are closed or handed to
-- the caller.
use micropython_systemd.Prelude.{
  ◌≡◌, refl, arith, false, List, [], ◌∷◌, ℤ, is_negative, Option, none, some, Bytes, Bool, codes,
  truthy,
}
use micropython_systemd.Errors.{Result, ok, err}
use micropython_systemd.Exec.{on_error, after}
use micropython_systemd.World.{Libc, Trace, close, poll}
use micropython_systemd.Utf8.{raw}
use micropython_systemd.Text.{Runtime}
use micropython_systemd.Native.{close_fd}
use micropython_systemd.Native.Struct.{Abi, le_value}
use micropython_systemd.Descriptors.{
  Uses, >>=-Uses, finally-Uses, on_error-Uses, Uses-returns, Uses-frame, Keeps,
}
use micropython_systemd.Descriptors.Rules.{in_world, check_out-Uses, pure-Uses, pipe-Uses}
use micropython_systemd.Notifier.{
  State, on_world, send_raw, begin_at, barrier_begin, barrier, barrier_finish, finish_barrier,
  barrier_events,
}
use micropython_systemd.Notifier.Descriptors.{in_state, on_world-Uses, send_raw-Keeps, closing-Uses}

-- The read end that an outcome hands to the caller.
abbrev pub got_read : Result (Option ℤ) → List ℤ
got_read (ok (some fd)) = fd ∷ []
got_read (ok none) = []
got_read (err e) = []

abbrev sent_with : ℤ → ℤ → Result Bool → List ℤ
sent_with read_fd write_fd (ok b) = read_fd ∷ write_fd ∷ []
sent_with read_fd write_fd (err e) = write_fd ∷ []

abbrev begun : ℤ → Result Bool → List ℤ
begun read_fd (ok b) = read_fd ∷ []
begun read_fd (err e) = []

module _ (run : Runtime) (abi : Abi) (libc : Libc)
    (closes_fine : (t : Trace) (fd : ℤ) → is_negative (libc t (close fd)).ret ≡ false) where
  closing-ok : (fd : ℤ) (s : State) → (on_world (close_fd libc fd) s).0 ≡ ok tt
  closing-ok fd s = rw (closes_fine s.world.trace fd) refl

  begin_send-Uses :
      (read_fd write_fd : ℤ)
      → Uses abi in_state
          (on_error
            (send_raw abi libc (raw (codes "BARRIER=1\n")) (write_fd ∷ []))
            (on_world (close_fd libc read_fd)))
          (read_fd ∷ write_fd ∷ [])
          (sent_with read_fd write_fd)
  begin_send-Uses read_fd write_fd =
      on_error-Uses abi in_state
        (Uses-frame abi in_state (read_fd ∷ write_fd ∷ [])
          (send_raw-Keeps abi libc (raw (codes "BARRIER=1\n")) (write_fd ∷ [])))
        (λ b. refl)
        (λ e. Uses-returns abi in_state tt (closing-ok read_fd) (
          closing-Uses abi libc read_fd (read_fd ∷ write_fd ∷ []) (write_fd ∷ [])
            (λ d. omega arith)))

  end_write-Uses :
      (read_fd write_fd : ℤ) (r : Result Bool)
      → Uses abi in_state
          (on_world (close_fd libc write_fd))
          (sent_with read_fd write_fd r)
          (λ c. begun read_fd (after r c))
  end_write-Uses read_fd write_fd (ok b) =
      Uses-returns abi in_state tt (closing-ok write_fd)
        (closing-Uses abi libc write_fd (read_fd ∷ write_fd ∷ []) (read_fd ∷ []) (λ d. omega arith))
  end_write-Uses read_fd write_fd (err e) =
      Uses-returns abi in_state tt (closing-ok write_fd)
        (closing-Uses abi libc write_fd (write_fd ∷ []) [] (λ d. omega arith))

  begin_at-Uses : (sun : Option Bytes) → Uses abi in_state (begin_at run abi libc sun) [] got_read
  unfolding begin_at
  begin_at-Uses none = pure-Uses abi in_state none [] refl
  begin_at-Uses (some sun) =
      >>=-Uses abi in_state (on_world-Uses abi (pipe-Uses abi libc []))
        (λ ends.
          >>=-Uses abi in_state {mid = begun ends.0}
            (finally-Uses abi in_state (begin_send-Uses ends.0 ends.1)
              (end_write-Uses ends.0 ends.1))
            (λ b. pure-Uses abi in_state (some ends.0) (ends.0 ∷ []) refl) (λ x. refl))
        (λ x. refl)

  pub barrier_begin-Uses : Uses abi in_state (barrier_begin run abi libc) [] got_read
  unfolding barrier_begin
  barrier_begin-Uses = record { owes = λ s. (begin_at-Uses s.notifier.sun_path).owes s }

  -- The wait leaves what is in hand.
  pub barrier_finish-Uses :
      (read_fd timeout_ms : ℤ) (kept : List ℤ)
      → Uses abi in_state (barrier_finish run abi libc read_fd timeout_ms) kept (λ r. kept)
  barrier_finish-Uses read_fd timeout_ms kept =
      >>=-Uses abi in_state {mid = λ r. kept}
        (on_world-Uses abi (
          >>=-Uses abi in_world {mid = λ r. kept}
            (check_out-Uses abi libc (poll read_fd (barrier_events run abi libc) timeout_ms) kept
              (λ r. refl) refl)
            (λ events. pure-Uses abi in_world (le_value events) kept refl) (λ x. refl)))
        (λ events. pure-Uses abi in_state (truthy events) kept refl) (λ x. refl)

  finish_barrier-Uses :
      (timeout_ms : ℤ) (read_fd : Option ℤ)
      → Uses abi in_state
          (finish_barrier run abi libc timeout_ms read_fd)
          (got_read (ok read_fd))
          (λ r. [])
  unfolding finish_barrier
  finish_barrier-Uses timeout_ms none = pure-Uses abi in_state false [] refl
  finish_barrier-Uses timeout_ms (some fd) =
      finally-Uses abi in_state (barrier_finish-Uses fd timeout_ms (fd ∷ []))
        (λ r. closing-Uses abi libc fd (fd ∷ []) [] (λ d. omega arith))

  pub barrier-Keeps : (timeout_ms : ℤ) → Keeps abi in_state (barrier run abi libc timeout_ms)
  unfolding barrier
  barrier-Keeps timeout_ms =
      >>=-Uses abi in_state barrier_begin-Uses (λ read_fd. finish_barrier-Uses timeout_ms read_fd)
        (λ x. refl)
