-- ===== src/Journal/Shared/Sequence.antt =====
-- Several uses of the shared writer of mpsystemd/journal.py.
use micropython_systemd.Prelude.{◌≡◌, refl, inl, inr}
use micropython_systemd.Errors.{Result-cases}
use micropython_systemd.Exec.{◌>>=◌}
use micropython_systemd.Journal.Writer.{State, W}
use micropython_systemd.Journal.Shared.{Shared, or_new, with_shared}

-- Two uses of the shared writer, the second with what the first returned, are one use of a single
-- writer, made at the first of them where there is none, that does both in order, with the same
-- results, exceptions and calls.
pub with_shared->>= {ℓ κ} :
    {A : Type ℓ} {B : Type κ} (m : W A) (f : A → W B) (s : Shared)
    → (with_shared m >>= λ a. with_shared (f a)) s ≡ with_shared (m >>= f) s
unfolding with_shared
with_shared->>= m f s = elim (Result-cases (or_new s.writer)) [
  | inl (writer, made) ↦
      let start : State = record { writer = writer; world = s.world } in
      elim (Result-cases (m start).0) [
        | inl (a, returned) ↦ rw (made, returned) refl
        | inr (e, raised) ↦ rw (made, raised) refl
      ]
  | inr (e, refused) ↦ rw refused refl
]
