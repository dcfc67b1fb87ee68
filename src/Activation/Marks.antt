-- ===== src/Activation/Marks.antt =====
-- When `listen_fds` reports descriptors, and which it marks close-on-exec.
use micropython_systemd.Prelude.{
  ℕ, zero, suc, truthy, ◌≡◌, ◌↔◌, refl, sym, ap, ◌∙◌, true, false, Bool, List, [], ◌∷◌, ◌++◌,
  append_assoc, Option, none, some, arith, Text, ℤ, pos, negsuc, eq_ℤ_iff, is_negative, Bool-cases,
  ◌&&◌, inl, inr,
}
use micropython_systemd.Errors.{ok}
use micropython_systemd.World.{World, Libc, Call, fcntl, calls, Reply, record_call, M}
use micropython_systemd.Exec.{◌>>=◌, ◌>>◌, >>=-eq-ok, when, pure}
use micropython_systemd.World
use micropython_systemd.World.Environment
use micropython_systemd.Text.{Runtime, int_of_text}
use micropython_systemd.Watchdog.{int_of}
use micropython_systemd.Activation.{count_for, count, mark_cloexec, listen_fds}

-- The calls that mark the descriptors from `fd` on, `n` of them, the latest first.
abbrev pub mark_calls : ℕ → ℕ → List Call
mark_calls fd zero = []
mark_calls fd (suc n) = mark_calls (suc fd) n ++ fcntl (pos fd) 2 1 ∷ []

module _ (libc : Libc) where
  pub calls-mark_cloexec :
      (fd n : ℕ) (w : World)
      → (mark_cloexec libc fd n w).0 ≡ ok tt
      → calls (mark_cloexec libc fd n w).1.trace ≡ mark_calls fd n ++ calls w.trace
  unfolding mark_cloexec
  calls-mark_cloexec fd zero w h = refl
  calls-mark_cloexec fd (suc n) w h =
      let c = fcntl (pos fd) 2 1 in
      elim (Bool-cases (is_negative (libc w.trace c).ret)) [
        | inl p ↦ cc (rw p at h)
        | inr p ↦
            let ih = calls-mark_cloexec (suc fd) n (record_call libc c w) (rw p at h) in
            rw p (ih ∙ sym (append_assoc (mark_calls (suc fd) n) (c ∷ []) (calls w.trace)))
      ]

module _ (run : Runtime) (libc : Libc) (w : World) where
  count_for_iff :
      (pid k : Option ℤ) (n : ℕ)
      → ((count_for run libc pid k w).0 ≡ ok (suc n))
        ↔ ((pid ≡ some (libc w.trace World.getpid).ret) × (k ≡ some (pos (suc n))))
  unfolding count_for
  count_for_iff none k n = ground arith
  count_for_iff (some p) none n = ground arith
  count_for_iff (some p) (some (pos zero)) n = ground arith
  count_for_iff (some p) (some (negsuc k)) n = ground arith
  count_for_iff (some p) (some (pos (suc k))) n =
      ground (arith, eq_ℤ_iff p (libc w.trace World.getpid).ret)

  calls-count_for :
      (pid k : Option ℤ) (n : ℕ)
      → (count_for run libc pid k w).0 ≡ ok (suc n)
      → calls (count_for run libc pid k w).1.trace ≡ World.getpid ∷ calls w.trace
  unfolding count_for
  calls-count_for none k n h = cc
  calls-count_for (some p) none n h = cc
  calls-count_for (some p) (some z) n h = refl

  calls-count :
      (pid k : Option Text) (n : ℕ)
      → (count run libc pid k w).0 ≡ ok (suc n)
      → calls (count run libc pid k w).1.trace ≡ World.getpid ∷ calls w.trace
  unfolding count
  calls-count none k n h = cc
  calls-count (some []) k n h = cc
  calls-count (some (c ∷ s)) none n h = cc
  calls-count (some (c ∷ s)) (some []) n h = cc
  calls-count (some (c ∷ s)) (some (d ∷ t)) n h =
      calls-count_for (int_of run (some (c ∷ s))) (int_of run (some (d ∷ t))) n h

  -- The two variables must read as this process and as a positive number.
  pub count_iff :
      (pid k : Option Text) (n : ℕ)
      → ((count run libc pid k w).0 ≡ ok (suc n)) ↔ (
          (int_of run pid ≡ some (libc w.trace World.getpid).ret)
          × (int_of run k ≡ some (pos (suc n))))
  unfolding count
  count_iff none k n = ground arith
  count_iff (some []) k n = unfold int_of_text in ground arith
  count_iff (some (c ∷ s)) none n = ground arith
  count_iff (some (c ∷ s)) (some []) n = unfold int_of_text in ground arith
  count_iff (some (c ∷ s)) (some (d ∷ t)) n =
      count_for_iff (int_of run (some (c ∷ s))) (int_of run (some (d ∷ t))) n

-- The part of `listen_fds` behind the environment.
abbrev report : Runtime → Libc → Bool → Option Text → Option Text → M ℕ
report run libc cloexec pid k = do
  n ← count run libc pid k
  when (truthy n && cloexec) (mark_cloexec libc 3 n)
  pure n

-- What a positive report says of the two variables and of the calls made.
abbrev pub Reported : Runtime → Libc → World → World → Option Text → Option Text → ℕ → Type 0
Reported run libc w w' pid k n =
    (int_of run pid ≡ some (libc w.trace World.getpid).ret)
    × (int_of run k ≡ some (pos n))
    × (calls w'.trace ≡ mark_calls 3 n ++ World.getpid ∷ calls w.trace)

module _ (run : Runtime) (libc : Libc) (w : World) where
  Reported-report :
      (pid k : Option Text) (n : ℕ)
      → (report run libc true pid k w).0 ≡ ok (suc n)
      → Reported run libc w (report run libc true pid k w).1 pid k (suc n)
  Reported-report pid k n h =
      let (m, hm, hf, e) =
        >>=-eq-ok (count run libc pid k)
          (λ n. when (truthy n && true) (mark_cloexec libc 3 n) >> pure n) w h in
      go m hm hf e
    where
      w₁ : World
      w₁ = (count run libc pid k w).1

      go :
          (m : ℕ)
          → (count run libc pid k w).0 ≡ ok m
          → ((when (truthy m && true) (mark_cloexec libc 3 m) >> pure m) w₁).0 ≡ ok (suc n)
          → (report run libc true pid k w).1
            ≡ ((when (truthy m && true) (mark_cloexec libc 3 m) >> pure m) w₁).1
          → Reported run libc w (report run libc true pid k w).1 pid k (suc n)
      go zero hm hf e = cc hf
      go (suc m) hm hf e =
          let mark = mark_cloexec libc 3 (suc m) in
          let (u, hu, hp, e') = >>=-eq-ok mark (λ _. pure (suc m)) w₁ {b = suc n} hf in
          let (own, reads) = (count_iff run libc w pid k m).0 hm in
          let marked = calls-mark_cloexec libc 3 (suc m) w₁ hu in
          let counted = calls-count run libc w pid k m hm in
          let same : n ≡ m = cc hp in
          let after_all = ap (λ (v : World). calls v.trace) (e ∙ e') ∙ marked in
          rw same (own, reads, after_all ∙ ap (λ z. mark_calls 3 (suc m) ++ z) counted)

module _ (run : Runtime) (libc : Libc) (w : World) where
  -- When `listen_fds` reports n + 1 descriptors and was to mark them, LISTEN_PID reads as the
  -- number that getpid returns, LISTEN_FDS reads as n + 1, and the calls that it made are getpid
  -- and then one fcntl(F_SETFD, FD_CLOEXEC) for each of the descriptors 3 to n + 3, in order.
  pub listen_fds_lem :
      (unset : Bool) (n : ℕ)
      → (listen_fds run libc unset true w).0 ≡ ok (suc n)
      → Reported run libc w
          (listen_fds run libc unset true w).1
          (Environment.lookup "LISTEN_PID" w.env)
          (Environment.lookup "LISTEN_FDS" w.env)
          (suc n)
  unfolding listen_fds
  listen_fds_lem true n h =
      Reported-report run libc (record w { env = unset_env })
        (Environment.lookup "LISTEN_PID" w.env) (Environment.lookup "LISTEN_FDS" w.env) n h
    where
      unset_env : Environment.Env
      unset_env =
          Environment.erase "LISTEN_FDNAMES"
            (Environment.erase "LISTEN_FDS" (Environment.erase "LISTEN_PID" w.env))
  listen_fds_lem false n h =
      Reported-report run libc w (Environment.lookup "LISTEN_PID" w.env)
        (Environment.lookup "LISTEN_FDS" w.env) n h
