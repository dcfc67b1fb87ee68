-- ===== src/Native/Linking/Resolution.antt =====
-- What the resolution of libc in mpsystemd/_impl_mp.py binds, and what it can raise.
use micropython_systemd.Prelude.{
  ◌≡◌, ◌≢◌, refl, ◌⊎◌, inl, inr, true, List, [], ◌∷◌, Option, none, some, String,
}
use micropython_systemd.Errors.{
  Result, ok, err, Error, Result-cases, unsupported_error, no_libc, no_symbol, is_os_error, ◌>>=◌,
}
use micropython_systemd.Native.Linking.{
  Ffi, or_next, open_first, open_libc, libc_candidates, optional, needed, required, bind_required,
  required_symbols, link,
}

-- The exception of a call that raises one.
abbrev pub Raises {ℓ κ} : {A : Type ℓ} → (Error → Type κ) → Result A → Type κ
Raises Q (ok a) = Unit
Raises Q (err e) = Q e

abbrev pub IsOs : Error → Type 0
IsOs e = is_os_error e ≡ true

abbrev pub IsUnsupported : Error → Type 0
IsUnsupported e = (e ≡ unsupported_error no_libc) ⊎ (e ≡ unsupported_error no_symbol)

-- A call that returns a value with a property, or raises an UnsupportedError.
abbrev pub Ends : {A : Type 0} → (A → Type 0) → Result A → Type 0
Ends P (ok a) = P a
Ends P (err e) = IsUnsupported e

>>=-Ends :
    {A B : Type 0} (P : A → Type 0) (Q : B → Type 0) (first : Result A) (next : A → Result B)
    → Ends P first
    → ((a : A) → P a → Ends Q (next a))
    → Ends Q (first >>= next)
>>=-Ends P Q (ok a) next h k = k a h
>>=-Ends P Q (err e) next h k = h

module _ {Library Function : Type 0} (ffi : Ffi Library Function) where
  -- A candidate that does not load, or has no getpid.
  abbrev pub Unusable : Option String → Type 0
  Unusable name =
      (library : Library) (f : Function)
      → ffi.load name ≡ ok library
      → ffi.func library "getpid" ≢ ok f

  -- The first usable one of some candidates.
  pub data IsFirst : List (Option String) → Library → Type 0 where
    here :
        {name : Option String} {names : List (Option String)} {library : Library} {f : Function}
        → ffi.load name ≡ ok library
        → ffi.func library "getpid" ≡ ok f
        → IsFirst (name ∷ names) library
    there :
        {name : Option String} {names : List (Option String)} {library : Library}
        → Unusable name
        → IsFirst names library
        → IsFirst (name ∷ names) library

  -- Functions for some names, each bound to its own.
  pub data Binds (library : Library) : List String → List Function → Type 0 where
    no_more : Binds library [] []
    next :
        {name : String} {f : Function} {names : List String} {fs : List Function}
        → ffi.func library name ≡ ok f
        → Binds library names fs
        → Binds library (name ∷ names) (f ∷ fs)

  -- A function, where the library has it.
  abbrev pub BindsOptional : Library → String → Option Function → Type 0
  BindsOptional library name (some f) = ffi.func library name ≡ ok f
  BindsOptional library name none = (e : Error) × (ffi.func library name ≡ err e)

  abbrev pub IsLinked : List Function × Option Function → Type 0
  IsLinked (functions, memfd_create) =
      (library : Library) × IsFirst libc_candidates library
      × Binds library required_symbols functions
      × BindsOptional library "memfd_create" memfd_create

  module _ (loads : (name : Option String) → Raises IsOs (ffi.load name))
      (binds : (library : Library) (name : String) → Raises IsOs (ffi.func library name)) where
    later :
        (name : Option String) (names : List (Option String)) (r : Result Library)
        → Unusable name
        → Ends (IsFirst names) r
        → Ends (IsFirst (name ∷ names)) r
    later name names (ok library) unusable h = there unusable h
    later name names (err e) unusable h = h

    -- A candidate that loads, by its getpid.
    probed_at :
        (name : Option String) (names : List (Option String)) (rest : Result Library)
        (library : Library)
        → ffi.load name ≡ ok library
        → Ends (IsFirst names) rest
        → (g : Result Function) → ffi.func library "getpid" ≡ g
        → Ends (IsFirst (name ∷ names)) (
            or_next ffi
              (elim g as (λ k. Result Library) [ ok f ↦ ok library | err e ↦ err e ])
              rest)
    probed_at name names rest library h others (ok f) g = here h g
    probed_at name names rest library h others (err e) g =
        let os : IsOs e = rw g at (binds library "getpid") in
        let missing : Unusable name = λ l f loaded got. cc in
        rw os (later name names rest missing others)

    open_first-Ends : (names : List (Option String)) → Ends (IsFirst names) (open_first ffi names)
    unfolding open_first
    open_first-Ends [] = inl refl
    open_first-Ends (name ∷ names) = elim (Result-cases (ffi.load name)) [
      | inr (e, h) ↦
          let os : IsOs e = rw h at (loads name) in
          rw (h, os) (later name names _ (λ l f loaded got. cc) (open_first-Ends names))
      | inl (library, h) ↦ rw h (
          probed_at name names (open_first ffi names) library h (open_first-Ends names)
            (ffi.func library "getpid") refl)
    ]

    optional-Ends :
        (library : Library) (name : String)
        → Ends (BindsOptional library name) (optional ffi library name)
    optional-Ends library name = elim (Result-cases (ffi.func library name)) [
      | inl (f, g) ↦ rw g g
      | inr (e, g) ↦ let os : IsOs e = rw g at (binds library name) in rw (g, os) (e, g)
    ]

    required-Ends :
        (library : Library) (name : String)
        → Ends (λ f. ffi.func library name ≡ ok f) (required ffi library name)
    unfolding required
    required-Ends library name =
        >>=-Ends (BindsOptional library name) _ (optional ffi library name) (needed ffi)
          (optional-Ends library name) found
      where
        found :
            (f : Option Function)
            → BindsOptional library name f
            → Ends (λ g. ffi.func library name ≡ ok g) (needed ffi f)
        found (some f) h = h
        found none h = inr refl

    bind_required-Ends :
        (library : Library) (names : List String)
        → Ends (Binds library names) (bind_required ffi library names)
    unfolding bind_required
    bind_required-Ends library [] = no_more
    bind_required-Ends library (name ∷ names) =
        >>=-Ends (λ f. ffi.func library name ≡ ok f) _ (required ffi library name) _
          (required-Ends library name)
          (λ f h.
            >>=-Ends (Binds library names) _ (bind_required ffi library names) _
              (bind_required-Ends library names) (λ fs hs. next h hs))

    -- Where ffi raises nothing but an OSError for a library or a symbol that is not there,
    -- importing the module raises nothing but an UnsupportedError, or binds each of the functions
    -- that it needs to the symbol of its name, all in the first candidate for libc that loads and
    -- has getpid, and memfd_create exactly where that library has it.
    pub link-Ends : Ends IsLinked (link ffi)
    unfolding link open_libc
    link-Ends =
        >>=-Ends (IsFirst libc_candidates) _ (open_libc ffi) _ (open_first-Ends libc_candidates)
          (λ library first.
            >>=-Ends (Binds library required_symbols) _ (bind_required ffi library required_symbols)
              _ (bind_required-Ends library required_symbols)
              (λ functions bound_all.
                >>=-Ends (BindsOptional library "memfd_create") _
                  (optional ffi library "memfd_create") _ (optional-Ends library "memfd_create")
                  (λ memfd_create found. (library, first, bound_all, found))))
