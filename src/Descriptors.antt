-- ===== src/Descriptors.antt =====
-- Which descriptors the code owns, counted from the trace of the calls of libc that
-- mpsystemd/_impl_mp.py makes: socket, memfd_create, pipe2 and a new signalfd give descriptors,
-- close takes one back whatever it returns. An operation is described by the descriptors that are
-- in hand before and after it, beside those that its object holds. The rules for the native calls
-- are in the children.
pub mod Rules
pub mod Sockets
use micropython_systemd.Prelude.{
  ℕ, ◌+◌, ◌≡◌, refl, arith, List, [], ◌∷◌, ◌++◌, ℤ, eq_ℤ, is_negative, if◌then◌else◌, drop,
}
use micropython_systemd.Errors.{Result, ok, err, Error}
use micropython_systemd.Exec.{Exec, ◌>>=◌, >>=-outcome, finally, handle, on_error, after}
use micropython_systemd.World.{Trace, Call, Reply, socket, memfd_create, pipe2, signalfd, close}
use micropython_systemd.Native.Struct.{Abi, unpack_int}

abbrev pub count : ℤ → List ℤ → ℕ
count d [] = 0
count d (x ∷ xs) = (if eq_ℤ d x then 1 else 0) + count d xs

module _ (abi : Abi) where
  abbrev pub unless_failed : Reply → List ℤ → List ℤ
  unless_failed r fds = if is_negative r.ret then [] else fds

  abbrev pub given : Call → Reply → List ℤ
  given (socket family type protocol) r = unless_failed r (r.ret ∷ [])
  given (memfd_create name flags) r = unless_failed r (r.ret ∷ [])
  given (pipe2 flags) r =
      unless_failed r (unpack_int abi r.out ∷ unpack_int abi (drop 4 r.out) ∷ [])
  given (signalfd fd mask flags) r = if is_negative fd then unless_failed r (r.ret ∷ []) else []
  given c r = []

  abbrev pub taken_back : Call → List ℤ
  taken_back (close fd) = fd ∷ []
  taken_back c = []

  -- How often the calls gave a descriptor, and how often they took it back.
  unfoldable pub opens : ℤ → Trace → ℕ
  opens d [] = 0
  opens d (e ∷ t) = count d (given e.call e.reply) + opens d t

  unfoldable pub closes : ℤ → Trace → ℕ
  closes d [] = 0
  closes d (e ∷ t) = count d (taken_back e.call) + closes d t

  -- From one trace and the descriptors owned there to a later one: what was given since is owned
  -- or taken back, each descriptor as often as it was given.
  abbrev pub Accounted : Trace → List ℤ → Trace → List ℤ → Type 0
  Accounted t before u later =
      (d : ℤ) → count d before + (opens d u + closes d t) ≡ count d later + (opens d t + closes d u)

-- Where a state keeps the trace, and the descriptors that its objects hold.
pub record Ledger (S : Type 0) : Type 0 where
  pub trace : S → Trace
  pub held : S → List ℤ

pub count-append : (d : ℤ) (xs ys : List ℤ) → count d (xs ++ ys) ≡ count d xs + count d ys
count-append d [] ys = omega arith
count-append d (x ∷ xs) ys = omega (arith, count-append d xs ys)

module _ (abi : Abi) {S : Type 0} (l : Ledger S) where
  -- The descriptors in hand and those held are accounted for between two states.
  pub record Owes (before : List ℤ) (s t : S) (later : List ℤ) : Type 0 where
    pub accounts : Accounted abi (l.trace s) (before ++ l.held s) (l.trace t) (later ++ l.held t)

  -- An operation takes over the descriptors `before`, and leaves those that its outcome names.
  pub record Uses {A : Type 0} (m : Exec S A) (before : List ℤ) (later : Result A → List ℤ)
      : Type 0 where
    pub owes : (s : S) → Owes before s (m s).1 (later (m s).0)

  pub Owes-refl : (kept : List ℤ) (s : S) → Owes kept s s kept
  Owes-refl kept s = record { accounts = λ d. refl }

  pub Owes-trans :
      {before mid later : List ℤ} {s t u : S}
      → Owes before s t mid
      → Owes mid t u later
      → Owes before s u later
  Owes-trans p q = record { accounts = λ d. omega (arith, p.accounts d, q.accounts d) }

  pub Owes-frame :
      {before later : List ℤ} {s t : S} (kept : List ℤ)
      → Owes before s t later
      → Owes (before ++ kept) s t (later ++ kept)
  Owes-frame {before} {later} {s} {t} kept p = record {
    accounts = λ d. omega (
      arith,
      p.accounts d,
      count-append d before (l.held s),
      count-append d later (l.held t),
      count-append d (before ++ kept) (l.held s),
      count-append d (later ++ kept) (l.held t),
      count-append d before kept,
      count-append d later kept,
    );
  }

  pub >>=-Uses :
      {A B : Type 0} {before : List ℤ} {mid : Result A → List ℤ} {later : Result B → List ℤ}
      {m : Exec S A} {f : A → Exec S B}
      → Uses m before mid
      → ((a : A) → Uses (f a) (mid (ok a)) later)
      → ((e : Error) → later (err e) ≡ mid (err e))
      → Uses (m >>= f) before later
  >>=-Uses {before = before} {later = later} {m = m} {f = f} p q same = record {
    owes = λ s.
        >>=-outcome (λ r t. Owes before s t (later r)) m f s
          (λ e h. rw (same e) (rw h at (p.owes s)))
          (λ a h. Owes-trans (rw h at (p.owes s)) ((q a).owes (m s).1));
  }

  -- A clean-up that runs on every outcome.
  pub finally-Uses :
      {A : Type 0} {before : List ℤ} {mid later : Result A → List ℤ} {body : Exec S A}
      {cleanup : Exec S (Unit {0})}
      → Uses body before mid
      → ((r : Result A) → Uses cleanup (mid r) (λ c. later (after r c)))
      → Uses (finally body cleanup) before later
  finally-Uses {body = body} p q = record {
    owes = λ s. Owes-trans (p.owes s) ((q (body s).0).owes (body s).1);
  }

  handle-Owes :
      {A : Type 0} (mid later : Result A → List ℤ) (cleanup : Exec S (Unit {0}))
      → ((a : A) → later (ok a) ≡ mid (ok a))
      → ((e : Error) → Uses cleanup (mid (err e)) (λ c. later (after (err e) c)))
      → (r : Result A) (t : S)
      → Owes (mid r) t (handle r cleanup t).1 (later (handle r cleanup t).0)
  handle-Owes mid later cleanup returned raised (ok a) t =
      rw (returned a) (Owes-refl (mid (ok a)) t)
  handle-Owes mid later cleanup returned raised (err e) t = (raised e).owes t

  -- A clean-up that runs after an exception.
  pub on_error-Uses :
      {A : Type 0} {before : List ℤ} {mid later : Result A → List ℤ} {body : Exec S A}
      {cleanup : Exec S (Unit {0})}
      → Uses body before mid
      → ((a : A) → later (ok a) ≡ mid (ok a))
      → ((e : Error) → Uses cleanup (mid (err e)) (λ c. later (after (err e) c)))
      → Uses (on_error body cleanup) before later
  on_error-Uses {mid = mid} {later = later} {body = body} {cleanup = cleanup} p returned raised =
      record {
        owes = λ s.
            Owes-trans (p.owes s)
              (handle-Owes mid later cleanup returned raised (body s).0 (body s).1);
      }

  -- An operation that always returns the same.
  pub Uses-returns :
      {A : Type 0} {before : List ℤ} {later : Result A → List ℤ} {m : Exec S A} (a : A)
      → ((s : S) → (m s).0 ≡ ok a)
      → Uses m before (λ r. later (ok a))
      → Uses m before later
  Uses-returns a same p = record { owes = λ s. rw (same s) (p.owes s) }

  pub Uses-frame :
      {A : Type 0} {before : List ℤ} {later : Result A → List ℤ} {m : Exec S A} (kept : List ℤ)
      → Uses m before later
      → Uses m (before ++ kept) (λ r. later r ++ kept)
  Uses-frame kept p = record { owes = λ s. Owes-frame kept (p.owes s) }

  -- An operation that leaves nothing in hand, whatever its outcome.
  abbrev pub Keeps : {A : Type 0} → Exec S A → Type 0
  Keeps m = Uses m [] (λ r. [])

  pub >>=-Keeps :
      {A B : Type 0} {m : Exec S A} {f : A → Exec S B}
      → Keeps m
      → ((a : A) → Keeps (f a))
      → Keeps (m >>= f)
  >>=-Keeps p q = >>=-Uses p q (λ e. refl)
