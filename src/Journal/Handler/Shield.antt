-- ===== src/Journal/Handler/Shield.antt =====
-- That a failing log call does not take the service down.
use micropython_systemd.Prelude.{◌≡◌, refl, Option, Text, Bool, ℕ, inl, inr}
use micropython_systemd.Errors.{Error, Result, ok, Result-cases}
use micropython_systemd.World.{Libc}
use micropython_systemd.Text.{Runtime}
use micropython_systemd.Payload.{Fields, Value}
use micropython_systemd.Native.Struct.{Abi}
use micropython_systemd.Journal.Writer.{State, W}
use micropython_systemd.Journal.Handler.{LogRecord, submit, emit}

module _ (run : Runtime) (abi : Abi) (libc : Libc) (has_memfd : Bool) (fuel : ℕ)
    (handle_error : Error → W (Unit {0}))
    (returns : (e : Error) (s : State) → (handle_error e s).0 ≡ ok tt) where
  -- If the handler's error report returns, `emit` returns, whatever goes wrong in formatting,
  -- serialising or sending the record.
  pub emit_lem :
      (static_fields : Fields) (identifier : Option Value) (message : Result Text)
      (trace : Option Text) (r : LogRecord) (s : State)
      → (emit run abi libc has_memfd fuel handle_error static_fields identifier message trace r s).0
        ≡ ok tt
  unfolding emit
  emit_lem static_fields identifier message trace r s =
      let outcome = submit run abi libc has_memfd fuel static_fields identifier message trace r s in
      elim (Result-cases outcome.0) [
        | inl (sent, p) ↦ rw p refl
        | inr (e, p) ↦ rw p (returns e outcome.1)
      ]
