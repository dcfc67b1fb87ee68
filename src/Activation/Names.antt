-- ===== src/Activation/Names.antt =====
-- The list of names.
use mathlib.Core.Path.{subst}
use micropython_systemd.Prelude.{
  ℕ, zero, suc, Lacks, ◌≡◌, ◌≢◌, refl, sym, ap, ◌∙◌, true, false, Bool, List, [], ◌∷◌, map, Option,
  none, some, arith, Text, All, length, length-map, length-replicate, replicate, pos, ◌==◌,
  Bool-cases, inl, inr,
}
use micropython_systemd.Errors.{ok}
use micropython_systemd.Exec.{◌>>=◌, >>=-eq-ok, when}
use micropython_systemd.World.{World, Libc, M}
use micropython_systemd.World
use micropython_systemd.World.Environment
use micropython_systemd.Text.{Runtime, split, join}
use micropython_systemd.Text.Lines.{split-join}
use micropython_systemd.Watchdog.{int_of}
use micropython_systemd.Activation.{
  unnamed, or_unnamed, names_for, count, listed, listen_fd_names, mark_cloexec, listen_fds_start,
}
use micropython_systemd.Activation.Marks.{count_iff}

-- The names that LISTEN_FDNAMES gives to `n` descriptors.
abbrev pub names_of : Option Text → ℕ → List Text
names_of none n = replicate n unnamed
names_of (some []) n = replicate n unnamed
names_of (some (c ∷ s)) n = map or_unnamed (split b':' (c ∷ s))

abbrev pub IsNonempty : Text → Type 0
IsNonempty t = t ≢ []

or_unnamed-IsNonempty : (ts : List Text) → All IsNonempty (map or_unnamed ts)
or_unnamed-IsNonempty [] = tt
or_unnamed-IsNonempty ([] ∷ ts) = (λ e. cc, or_unnamed-IsNonempty ts)
or_unnamed-IsNonempty ((c ∷ t) ∷ ts) = (λ e. cc, or_unnamed-IsNonempty ts)

unnamed-IsNonempty : (n : ℕ) → All IsNonempty (replicate n unnamed)
unnamed-IsNonempty zero = tt
unnamed-IsNonempty (suc n) = (λ e. cc, unnamed-IsNonempty n)

names_of-IsNonempty : (t : Option Text) (n : ℕ) → All IsNonempty (names_of t n)
names_of-IsNonempty none n = unnamed-IsNonempty n
names_of-IsNonempty (some []) n = unnamed-IsNonempty n
names_of-IsNonempty (some (c ∷ s)) n = or_unnamed-IsNonempty (split b':' (c ∷ s))

names_for-names_of :
    (t : Option Text) (n : ℕ) (w : World) (names : List Text)
    → (names_for t n w).0 ≡ ok names
    → (names ≡ names_of t n) × (length names ≡ n)
unfolding names_for
names_for-names_of none n w names h =
    let e : names ≡ replicate n unnamed = cc h in (e, rw e (length-replicate n unnamed))
names_for-names_of (some []) n w names h =
    let e : names ≡ replicate n unnamed = cc h in (e, rw e (length-replicate n unnamed))
names_for-names_of (some (c ∷ s)) n w names h =
    let parts = split b':' (c ∷ s) in
    elim (Bool-cases (length parts == n)) [
      | inl p ↦
          let e : names ≡ map or_unnamed parts = cc (rw p at h) in
          (e, rw e (length-map or_unnamed parts ∙ ground arith))
      | inr p ↦ cc (rw p at h)
    ]

-- The part of `listen_fd_names` behind the environment.
abbrev names_report :
    Runtime → Libc → Bool → Option Text → Option Text → Option Text → M (List Text)
names_report run libc cloexec pid k t = do n ← count run libc pid k; listed libc t cloexec n

abbrev pub Named :
    Runtime → Libc → World → Option Text → Option Text → Option Text → List Text → Type 0
Named run libc w pid k t names =
    (int_of run pid ≡ some (libc w.trace World.getpid).ret)
    × (int_of run k ≡ some (pos (length names)))
    × (names ≡ names_of t (length names))
    × All IsNonempty names

module _ (run : Runtime) (libc : Libc) (w : World) (cloexec : Bool) (pid k t : Option Text) where
  Named-names_report :
      (x : Text) (xs : List Text)
      → (names_report run libc cloexec pid k t w).0 ≡ ok (x ∷ xs)
      → Named run libc w pid k t (x ∷ xs)
  Named-names_report x xs h =
      let (n, hn, hf, e) = >>=-eq-ok (count run libc pid k) (listed libc t cloexec) w h in
      go n hn hf
    where
      w₁ : World
      w₁ = (count run libc pid k w).1

      go :
          (n : ℕ)
          → (count run libc pid k w).0 ≡ ok n
          → (listed libc t cloexec n w₁).0 ≡ ok (x ∷ xs)
          → Named run libc w pid k t (x ∷ xs)
      go zero hn hf = unfold listed in cc hf
      go (suc n) hn hf =
          let mark = when cloexec (mark_cloexec libc listen_fds_start (suc n)) in
          let (u, hu, hp, _) =
            >>=-eq-ok mark (λ _. names_for t (suc n)) w₁ {b = x ∷ xs} (unfold listed in hf) in
          let (e, len) = names_for-names_of t (suc n) (mark w₁).1 (x ∷ xs) hp in
          let (own, reads) = (count_iff run libc w pid k n).0 hn in
          let good : All IsNonempty (x ∷ xs) =
            subst (All IsNonempty) (sym e) (names_of-IsNonempty t (suc n)) in
          (own, rw len reads, rw len e, good)

module _ (run : Runtime) (libc : Libc) (w : World) where
  -- When `listen_fd_names` returns a list that is not empty, LISTEN_PID reads as the number that
  -- getpid returns, LISTEN_FDS reads as the length of the list, the list is what LISTEN_FDNAMES
  -- gives between its colons, or that many times "unknown" without it, and no name in it is empty.
  pub listen_fd_names_lem :
      (unset cloexec : Bool) (x : Text) (xs : List Text)
      → (listen_fd_names run libc unset cloexec w).0 ≡ ok (x ∷ xs)
      → Named run libc w
          (Environment.lookup "LISTEN_PID" w.env)
          (Environment.lookup "LISTEN_FDS" w.env)
          (Environment.lookup "LISTEN_FDNAMES" w.env)
          (x ∷ xs)
  unfolding listen_fd_names
  listen_fd_names_lem true cloexec x xs h =
      Named-names_report run libc (record w { env = unset_env }) cloexec
        (Environment.lookup "LISTEN_PID" w.env) (Environment.lookup "LISTEN_FDS" w.env)
        (Environment.lookup "LISTEN_FDNAMES" w.env) x xs h
    where
      unset_env : Environment.Env
      unset_env =
          Environment.erase "LISTEN_FDNAMES"
            (Environment.erase "LISTEN_FDS" (Environment.erase "LISTEN_PID" w.env))
  listen_fd_names_lem false cloexec x xs h =
      Named-names_report run libc w cloexec (Environment.lookup "LISTEN_PID" w.env)
        (Environment.lookup "LISTEN_FDS" w.env) (Environment.lookup "LISTEN_FDNAMES" w.env) x xs h

-- Joining names that hold no colon and splitting them gives the names back; one empty name stands
-- for an unset variable.
pub names_for-join :
    (p : Text) (ps : List Text) (n : ℕ) (w : World)
    → All (Lacks b':') (p ∷ ps)
    → length ps ≡ n
    → (names_for (some (join b':' (p ∷ ps))) (suc n) w).0 ≡ ok (map or_unnamed (p ∷ ps))
unfolding names_for split
names_for-join p ps n w h e = go (join b':' (p ∷ ps)) refl
  where
    parts : split b':' (join b':' (p ∷ ps)) ≡ p ∷ ps
    parts = split-join b':' p ps h

    one_empty :
        (q : Text) (qs : List Text)
        → q ≡ []
        → qs ≡ []
        → length qs ≡ n
        → replicate (suc n) unnamed ≡ map or_unnamed (q ∷ qs)
    one_empty q qs a b c = let z : n ≡ 0 = sym c ∙ ap length b in rw (z, a, b) refl

    go :
        (t : Text)
        → join b':' (p ∷ ps) ≡ t
        → (names_for (some t) (suc n) w).0 ≡ ok (map or_unnamed (p ∷ ps))
    go [] j =
        let single : [] ∷ [] ≡ p ∷ ps = ap (split b':') (sym j) ∙ parts in
        ap ok (one_empty p ps (cc single) (cc single) e)
    go (c ∷ s) j =
        let whole : split b':' (c ∷ s) ≡ p ∷ ps = ap (split b':') (sym j) ∙ parts in
        let fits : (length (p ∷ ps) == suc n) ≡ true = ground arith in rw (whole, fits) refl

module _ (run : Runtime) (libc : Libc) (w : World) where
  -- With both numbers right the result is that of the names.
  pub listen_fd_names_complete :
      (n : ℕ) (pid k t : Option Text) (names : List Text)
      → Environment.lookup "LISTEN_PID" w.env ≡ pid
      → Environment.lookup "LISTEN_FDS" w.env ≡ k
      → Environment.lookup "LISTEN_FDNAMES" w.env ≡ t
      → int_of run pid ≡ some (libc w.trace World.getpid).ret
      → int_of run k ≡ some (pos (suc n))
      → ((v : World) → (names_for t (suc n) v).0 ≡ ok names)
      → (listen_fd_names run libc false false w).0 ≡ ok names
  unfolding listen_fd_names
  listen_fd_names_complete n pid k t names ep ek et hp hk hn =
      let counted = (count_iff run libc w pid k n).1 (hp, hk) in
      rw (ep, ek, et, counted) (hn (count run libc pid k w).1)
