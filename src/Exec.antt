-- ===== src/Exec.antt =====
-- Code that changes a state and may raise. What was changed before an exception stays changed, so
-- the state comes back beside the exception.
use micropython_systemd.Prelude.{◌≡◌, refl, Bool, true, false}
use micropython_systemd.Errors.{Result, ok, err, Error}

abbrev pub Exec {ℓ κ} : Type ℓ → Type κ → Type (ℓ ⊔ κ)
Exec S A = S → Result A × S

abbrev pub pure {ℓ κ} : {S : Type ℓ} {A : Type κ} → A → Exec S A
pure a s = (ok a, s)

abbrev pub raise {ℓ κ} : {S : Type ℓ} {A : Type κ} → Error → Exec S A
raise e s = (err e, s)

-- A pure call that may raise.
abbrev pub lift {ℓ κ} : {S : Type ℓ} {A : Type κ} → Result A → Exec S A
lift r s = (r, s)

module _ {ℓ κ μ} {S : Type ℓ} {A : Type κ} {B : Type μ} where
  abbrev pub continue : Result A → (A → Exec S B) → Exec S B
  continue (ok a) f s = f a s
  continue (err e) f s = (err e, s)

  infixl 5 ◌>>=◌ ◌>>◌
  abbrev pub ◌>>=◌ : Exec S A → (A → Exec S B) → Exec S B
  ◌>>=◌ m f s = continue (m s).0 f (m s).1

  abbrev pub ◌>>◌ : Exec S A → Exec S B → Exec S B
  ◌>>◌ m k s = continue (m s).0 (λ _. k) (m s).1

abbrev pub when {ℓ} : {S : Type ℓ} → Bool → Exec S (Unit {0}) → Exec S (Unit {0})
when true m s = m s
when false m s = (ok tt, s)

-- What is left of the body's outcome after the clean-up: its own exception gives way to one that
-- the clean-up raises.
abbrev pub after {ℓ} : {A : Type ℓ} → Result A → Result (Unit {0}) → Result A
after r (ok u) = r
after r (err e) = err e

module _ {ℓ κ} {S : Type ℓ} {A : Type κ} where
  -- try: body finally: cleanup
  abbrev pub finally : Exec S A → Exec S (Unit {0}) → Exec S A
  finally body cleanup s = let t = (body s).1 in (after (body s).0 (cleanup t).0, (cleanup t).1)

  abbrev pub handle : Result A → Exec S (Unit {0}) → Exec S A
  handle (ok a) cleanup s = (ok a, s)
  handle (err e) cleanup s = (after (err e) (cleanup s).0, (cleanup s).1)

  -- try: body except BaseException: cleanup; raise
  abbrev pub on_error : Exec S A → Exec S (Unit {0}) → Exec S A
  on_error body cleanup s = handle (body s).0 cleanup (body s).1

-- Inversion of a sequence that returns, with the state that it leaves.
module _ {ℓ κ μ} {S : Type ℓ} {A : Type κ} {B : Type μ} where
  pub >>=-eq-ok :
      (m : Exec S A) (f : A → Exec S B) (s : S) {b : B}
      → ((m >>= f) s).0 ≡ ok b
      → (a : A) × ((m s).0 ≡ ok a) × ((f a (m s).1).0 ≡ ok b) × (((m >>= f) s).1 ≡ (f a (m s).1).1)
  >>=-eq-ok m f s {b} h = go (m s).0 refl
    where
      go :
          (r : Result A)
          → (m s).0 ≡ r
          → (a : A) × ((m s).0 ≡ ok a)
            × ((f a (m s).1).0 ≡ ok b)
            × (((m >>= f) s).1 ≡ (f a (m s).1).1)
      go (ok a) e = (a, e, rw e at h, rw e refl)
      go (err x) e = cc (rw e at h)

-- What holds of the outcome of a sequence: what the first step's exception makes hold, or what
-- holds of the second step.
module _ {ℓ κ μ ν} {S : Type ℓ} {A : Type κ} {B : Type μ} where
  pub >>=-outcome :
      (P : Result B → S → Type ν) (m : Exec S A) (f : A → Exec S B) (s : S)
      → ((e : Error) → (m s).0 ≡ err e → P (err e) (m s).1)
      → ((a : A) → (m s).0 ≡ ok a → P (f a (m s).1).0 (f a (m s).1).1)
      → P ((m >>= f) s).0 ((m >>= f) s).1
  >>=-outcome P m f s raised returned = go (m s).0 raised returned
    where
      go :
          (r : Result A)
          → ((e : Error) → r ≡ err e → P (err e) (m s).1)
          → ((a : A) → r ≡ ok a → P (f a (m s).1).0 (f a (m s).1).1)
          → P (continue r f (m s).1).0 (continue r f (m s).1).1
      go (ok a) h k = k a refl
      go (err e) h k = h e refl
