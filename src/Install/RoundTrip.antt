-- ===== src/Install/RoundTrip.antt =====
-- What `install_listen_fds` sets up is what `listen_fd_names` reports.
use micropython_systemd.Prelude.{
  ℕ, suc, ◌+◌, ◌≡◌, sym, ap, ◌∙◌, false, List, ◌∷◌, map, some, arith, Text, All, Lacks, length, ℤ,
  pos, ◌==◌, Bool-cases, inl, inr,
}
use micropython_systemd.Errors.{ok}
use micropython_systemd.Exec.{◌>>◌, >>=-eq-ok, finally}
use micropython_systemd.World.{World, Libc, M}
use micropython_systemd.World
use micropython_systemd.World.Environment.{env_laws}
use micropython_systemd.Text.{Runtime, join, str_int}
use micropython_systemd.Text.Decimal.{int_of_text-str_int}
use micropython_systemd.Activation.{or_unnamed, listen_fd_names}
use micropython_systemd.Activation.Names.{names_for-join, listen_fd_names_complete}
use micropython_systemd.Install.{install_listen_fds, dup_all, place_all, close_all, announce}

module _ (libc : Libc) where
  -- The last step decides the environment.
  install_listen_fds-announce :
      (fds : List ℤ) (names : List Text) (start : ℕ) (w : World) (targets : List ℤ)
      → (install_listen_fds libc fds (some names) start w).0 ≡ ok targets
      → (v : World) × (length names ≡ length fds)
        × ((install_listen_fds libc fds (some names) start w).1
            ≡ (announce libc (length fds) (some names) start v).1)
  unfolding install_listen_fds
  install_listen_fds-announce fds names start w targets h =
      elim (Bool-cases (length names == length fds)) [
        | inl p ↦
            let (s, hs, h₁, e₁) =
              >>=-eq-ok (dup_all libc (start + length fds) fds)
                (λ scratch.
                  finally (place_all libc start scratch) (close_all libc scratch)
                  >> announce libc (length fds) (some names) start)
                w {b = targets} (rw p at h) in
            let body = finally (place_all libc start s) (close_all libc s) in
            let v = (dup_all libc (start + length fds) fds w).1 in
            let (u, hu, h₂, e₂) =
              >>=-eq-ok body (λ _. announce libc (length fds) (some names) start) v {b = targets}
                h₁ in
            ((body v).1, ground arith, rw p (e₁ ∙ e₂))
        | inr p ↦ cc (rw p at h)
      ]

module _ (run : Runtime) (libc : Libc) (pid : ℤ)
    (own : (t : World.Trace) → (libc t World.getpid).ret ≡ pid) where
  -- If getpid always returns the same number, then after `install_listen_fds` has returned for one
  -- or more descriptors and names without a colon, `listen_fd_names` returns those names, with
  -- "unknown" for an empty one.
  pub listen_fd_names-install_listen_fds :
      (fd : ℤ) (fds : List ℤ) (p : Text) (ps : List Text) (start : ℕ) (w : World) (targets : List ℤ)
      → All (Lacks b':') (p ∷ ps)
      → (install_listen_fds libc (fd ∷ fds) (some (p ∷ ps)) start w).0 ≡ ok targets
      → (listen_fd_names run libc false false
          (install_listen_fds libc (fd ∷ fds) (some (p ∷ ps)) start w).1).0
        ≡ ok (map or_unnamed (p ∷ ps))
  listen_fd_names-install_listen_fds fd fds p ps start w targets free h =
      let n = length fds in
      let (v, len, e) = install_listen_fds-announce libc (fd ∷ fds) (p ∷ ps) start w targets h in
      let me = (libc v.trace World.getpid).ret in
      let w' = (announce libc (suc n) (some (p ∷ ps)) start v).1 in
      rw e (
        listen_fd_names_complete run libc w' n (some (str_int me)) (some (str_int (pos (suc n))))
          (some (join b':' (p ∷ ps))) (map or_unnamed (p ∷ ps)) (unfold announce in simp env_laws)
          (unfold announce in simp env_laws) (unfold announce in simp env_laws)
          (int_of_text-str_int run me ∙ ap some (own v.trace ∙ sym (own w'.trace)))
          (int_of_text-str_int run (pos (suc n))) (λ u. names_for-join p ps n u free (omega arith)))
