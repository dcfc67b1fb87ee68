-- ===== src/Tests/Signalling.antt =====
-- Runs of the signal sources and the watcher over them.
use micropython_systemd.Prelude.{
  ◌≡◌, refl, flat_map, true, false, List, [], ◌∷◌, some, Bytes, ℤ, pos, negsuc, arith, length, ltb,
  if◌then◌else◌,
}
use micropython_systemd.Errors.{ok}
use micropython_systemd.Exec.{Exec}
use micropython_systemd.World.{Libc, sigprocmask, read}
use micropython_systemd.Native.Struct.{Abi}
use micropython_systemd.Native.Signals.{State, new_source, open_source, pending, close_source}
use micropython_systemd.Native.Signals.Mask.{plain, mask_of, Inv, closed, IsKernel}
use micropython_systemd.Native.Signals.Session.{here, next, opens, polls, closes, Reach-Inv}
use micropython_systemd.Signals.{SignalWatcher, one, wait, wait_for_signals}
use micropython_systemd.Descriptors.{Accounted}
use micropython_systemd.Signals.Descriptors.{wait_for_signals-Accounted}
use micropython_systemd.Signals.Masked.{signalfd_backend, mask_of-wait_for_signals}
use micropython_systemd.Signals.Polling.{Quiet, wait-Quiet}
use micropython_systemd.Signals.Polling
use micropython_systemd.Cpython.Signals.Schedule.{Task, Input, run, signals_of}
use micropython_systemd.Cpython.Signals.Queue.{signals_of-run}
use micropython_systemd.Cpython.Signals.Schedule
use micropython_systemd.Tests.{seven}

abbrev little : Abi
little = record { word = 8; big_endian = false }

-- The mask that is in place at first.
abbrev start : Bytes
start = 1 ∷ []

-- Reading finds SIGTERM once two calls were made.
abbrev masking : Libc
masking t (sigprocmask how set) = record { ret = pos 0; errno = 0; out = start }
masking t (read fd n) =
    if ltb (length t) 2
    then record { ret = negsuc 0; errno = 11; out = [] }
    else record { ret = pos 128; errno = 0; out = 15 ∷ 0 ∷ 0 ∷ 0 ∷ [] }
masking t c = seven t c

masking-IsKernel : IsKernel masking start
masking-IsKernel = record { hands_out = λ t set e good. refl; sets = λ t set. refl }

abbrev fresh : State
fresh = record { source = new_source (pos 15 ∷ []); world = record { env = []; trace = [] } }

fresh-Inv : Inv start fresh
unfolding mask_of
fresh-Inv = closed (refl, refl, refl)

abbrev reopened : State
reopened =
    (open_source masking
      (close_source masking (pending masking little (open_source masking fresh).1).1).1).1

Reach-Inv_example : Inv start reopened
Reach-Inv_example = Reach-Inv masking start masking-IsKernel little fresh-Inv (
    next (next (next (next here (opens refl refl refl)) (polls refl)) (closes refl)) (
      opens (unfold open_source pending close_source in refl)
        (unfold open_source pending close_source in refl) refl))

abbrev dozing : ℤ → Exec State (Unit {0})
dozing ms s = (ok tt, s)

mask_of-wait_for_signals_example :
    mask_of start
      (wait_for_signals
        (signalfd_backend masking little)
        dozing
        9
        (one (pos 15))
        (pos 200)
        fresh).1.world.trace
    ≡ plain start
mask_of-wait_for_signals_example =
    mask_of-wait_for_signals masking little start masking-IsKernel dozing (λ ms s. refl)
      (λ ms s. refl) 9 (one (pos 15)) (pos 200) fresh (unfold mask_of in refl)

wait_for_signals-Accounted_example :
    Accounted little [] []
      (wait_for_signals
        (signalfd_backend masking little)
        dozing
        9
        (one (pos 15))
        (pos 200)
        fresh).1.world.trace
      []
wait_for_signals-Accounted_example =
    wait_for_signals-Accounted masking little dozing (λ ms s. refl) (λ ms s d. refl) 9
      (one (pos 15)) (pos 200) fresh

abbrev opened_at : State
opened_at = record {
  source = record { signals = pos 15 ∷ []; fd = pos 7; saved = some start };
  world = record { env = []; trace = [] };
}

abbrev polled : State → State
polled s = (pending masking little s).1

abbrev watcher : SignalWatcher
watcher = record { signals = pos 15 ∷ []; poll_ms = pos 200; is_open = true }

wait-Quiet_example :
    wait
      (signalfd_backend masking little)
      dozing
      5
      (record { watcher = watcher; source = opened_at })
    ≡ (
      ok (some (pos 15)),
      record { watcher = watcher; source = polled (polled (polled opened_at)) },
    )
unfolding pending micropython_systemd.Native.Struct.unpack_unsigned
    micropython_systemd.Native.Struct.le_value
wait-Quiet_example =
    wait-Quiet (signalfd_backend masking little) dozing watcher 2 5 refl
      (Polling.next (Polling.next Polling.here refl refl) refl refl) refl (omega arith)

abbrev suspended : Task
suspended = record {
  state = record {
    source = record {
      signals = pos 15 ∷ pos 2 ∷ [];
      queue = [];
      event = false;
      installed = pos 2 ∷ pos 15 ∷ [];
      has_loop = true;
    };
    handlers = pos 2 ∷ pos 15 ∷ [];
  };
  waiting = true;
  woken = false;
  taken = [];
}

abbrev schedule : List Input
schedule = Schedule.arrives (pos 2) ∷ Schedule.polls ∷ Schedule.resumes ∷ []

signals_of-run_example : signals_of (run schedule suspended) ≡ pos 2 ∷ []
unfolding flat_map
signals_of-run_example = signals_of-run schedule suspended (refl, λ w k. (refl, refl))
