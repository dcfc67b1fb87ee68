-- ===== src/Errors.antt =====
-- mpsystemd/errors.py, and the built-in exceptions that the package raises or catches.
-- An exception is its class with the reason that its message gives; the wording is not modelled.
use micropython_systemd.Prelude.{◌⊎◌, inl, inr, ℕ, Bool, true, false, ◌≡◌, refl}

-- Which message the exception carries.
pub data Reason : Type 0 where
  empty too_long bad_first bad_character newline nothing : Reason
  reserved starts_with_digit vsock not_absolute : Reason
  bad_divisor no_descriptors too_many no_signals bad_poll no_loop bad_signal no_libc no_symbol
        no_logging :
      Reason
  not_open no_peer name_count no_memfd : Reason

-- The class hierarchy: `address_error`, `journal_error` and `unsupported_error` are subclasses of
-- SystemdError; `unicode_error` (UnicodeError) is one of ValueError; `os_error` carries the errno;
-- `struct_error` is struct.error.
pub data Error : Type 0 where
  systemd_error : Reason → Error
  address_error : Reason → Error
  journal_error : Reason → Error
  unsupported_error : Reason → Error
  value_error : Reason → Error
  os_error : ℕ → Error
  unicode_error key_error runtime_error struct_error : Error

-- isinstance(exc, SystemdError)
abbrev pub is_systemd_error : Error → Bool
is_systemd_error (systemd_error r) = true
is_systemd_error (address_error r) = true
is_systemd_error (journal_error r) = true
is_systemd_error (unsupported_error r) = true
is_systemd_error _ = false

-- isinstance(exc, AddressError)
abbrev pub is_address_error : Error → Bool
is_address_error (address_error r) = true
is_address_error _ = false

-- isinstance(exc, OSError)
abbrev pub is_os_error : Error → Bool
is_os_error (os_error n) = true
is_os_error _ = false

-- isinstance(exc, (RuntimeError, ValueError))
abbrev pub is_runtime_or_value_error : Error → Bool
is_runtime_or_value_error runtime_error = true
is_runtime_or_value_error (value_error r) = true
is_runtime_or_value_error unicode_error = true
is_runtime_or_value_error _ = false

-- A call that returns or raises.
pub data Result {ℓ} (A : Type ℓ) : Type ℓ where
  ok : A → Result A
  err : Error → Result A

-- The steps of a body that raises at the first exception.
module _ {ℓ κ} {A : Type ℓ} {B : Type κ} where
  infixl 5 ◌>>=◌ ◌>>◌
  abbrev pub ◌>>=◌ : Result A → (A → Result B) → Result B
  ◌>>=◌ (err e) next = err e
  ◌>>=◌ (ok a) next = next a

  abbrev pub ◌>>◌ : Result A → Result B → Result B
  ◌>>◌ first rest = first >>= λ _. rest

  -- What both steps gave where the whole returned.
  pub >>=-eq-ok :
      (first : Result A) (next : A → Result B) {b : B}
      → (first >>= next) ≡ ok b
      → (a : A) × (first ≡ ok a) × (next a ≡ ok b)
  >>=-eq-ok (err e) next returned = cc
  >>=-eq-ok (ok a) next returned = (a, refl, returned)

pub Result-cases {ℓ} :
    {A : Type ℓ} (r : Result A) → ((a : A) × (r ≡ ok a)) ⊎ ((e : Error) × (r ≡ err e))
Result-cases (err e) = inr (e, refl)
Result-cases (ok a) = inl (a, refl)
