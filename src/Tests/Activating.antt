-- ===== src/Tests/Activating.antt =====
-- Runs of activation.py, of the watchdog and of install_listen_fds.
use micropython_systemd.Prelude.{
  ℕ, ◌+◌, ◌*◌, ◌<◌, ◌≤◌, ◌≡◌, ◌↔◌, ◌⊎◌, refl, true, false, [], ◌∷◌, some, none, Text, codes, pos,
  negsuc, arith, List,
}
use micropython_systemd.Errors.{ok}
use micropython_systemd.World.Environment
use micropython_systemd.Text
use micropython_systemd.Text.{int_of_text, str_int}
use micropython_systemd.Text.Decimal.{int_of_text-str_int}
use micropython_systemd.Watchdog.{watchdog_enabled, watchdog_period_ms, int_of, is_blank}
use micropython_systemd.Watchdog.Period.{watchdog_period_ms_lem}
use micropython_systemd.Watchdog.Enabled.{watchdog_enabled_iff}
use micropython_systemd.Activation.{listen_fds, listen_fd_names, listen_fds_with_names, Groups}
use micropython_systemd.Activation.Marks.{Reported, listen_fds_lem}
use micropython_systemd.Activation.Names.{Named, listen_fd_names_lem}
use micropython_systemd.Activation.Grouping.{fds_of, fds_named, listen_fds_with_names_lem}
use micropython_systemd.Install.{install_listen_fds}
use micropython_systemd.Install.RoundTrip.{listen_fd_names-install_listen_fds}
use micropython_systemd.Tests.{plain, seven, activated}

int_of_text-str_int_example : int_of_text plain (str_int (negsuc 41)) ≡ some (negsuc 41)
int_of_text-str_int_example = int_of_text-str_int plain (negsuc 41)

watchdog_period_ms_lem_example :
    (p : ℕ) × (watchdog_period_ms (pos 3000000) (pos 2) ≡ ok (pos p))
    × (0 < p)
    × (((p * 1000 * 2 ≤ 3000000) × (3000000 < (p + 1) * 1000 * 2))
        ⊎ ((p ≡ 1) × (3000000 < 1000 * 2)))
watchdog_period_ms_lem_example = watchdog_period_ms_lem 3000000 1

watchdog_enabled_iff_example :
    ((watchdog_enabled plain seven true activated).0 ≡ ok (pos 3000000)) ↔ (
      (int_of plain (some (codes "3000000")) ≡ some (pos 3000000))
      × ((is_blank none ≡ true) ⊎ ((is_blank none ≡ false) × (int_of plain none ≡ some (pos 7)))))
watchdog_enabled_iff_example =
    unfold Environment.lookup in watchdog_enabled_iff plain seven activated true 2999999

listen_fds_lem_example :
    Reported plain seven activated
      (listen_fds plain seven true true activated).1
      (Environment.lookup "LISTEN_PID" activated.env)
      (Environment.lookup "LISTEN_FDS" activated.env)
      2
listen_fds_lem_example =
    listen_fds_lem plain seven activated true 1
      (unfold listen_fds Environment.lookup Environment.erase int_of_text in refl)

abbrev both_names : List Text
both_names = codes "web" ∷ codes "unknown" ∷ []

listen_fd_names-both : (listen_fd_names plain seven true true activated).0 ≡ ok both_names
unfolding listen_fd_names Environment.lookup Environment.erase int_of_text Text.split
listen_fd_names-both = refl

listen_fd_names_lem_example :
    Named plain seven activated
      (Environment.lookup "LISTEN_PID" activated.env)
      (Environment.lookup "LISTEN_FDS" activated.env)
      (Environment.lookup "LISTEN_FDNAMES" activated.env)
      both_names
listen_fd_names_lem_example =
    listen_fd_names_lem plain seven activated true true (codes "web") (codes "unknown" ∷ [])
      listen_fd_names-both

listen_fds_with_names_lem_example :
    (groups : Groups) × ((listen_fds_with_names plain seven true true activated).0 ≡ ok groups)
    × ((name : Text) → fds_of name groups ≡ fds_named name 3 both_names)
listen_fds_with_names_lem_example =
    listen_fds_with_names_lem plain seven true true activated both_names listen_fd_names-both

abbrev given_names : List Text
given_names = codes "web" ∷ [] ∷ []

install_listen_fds-two :
    (install_listen_fds seven (pos 5 ∷ pos 6 ∷ []) (some given_names) 3 activated).0
    ≡ ok (pos 3 ∷ pos 4 ∷ [])
unfolding install_listen_fds
install_listen_fds-two = refl

listen_fd_names-install_listen_fds_example :
    (listen_fd_names plain seven false false
      (install_listen_fds seven (pos 5 ∷ pos 6 ∷ []) (some given_names) 3 activated).1).0
    ≡ ok both_names
listen_fd_names-install_listen_fds_example =
    listen_fd_names-install_listen_fds plain seven (pos 7) (λ t. refl) (pos 5) (pos 6 ∷ [])
      (codes "web") ([] ∷ []) 3 activated (pos 3 ∷ pos 4 ∷ [])
      ((omega arith, (omega arith, (omega arith, tt))), (tt, tt)) install_listen_fds-two
