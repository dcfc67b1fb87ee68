-- ===== src/Cpython/Signals.antt =====
-- mpsystemd/_impl_cpy.py, the class SignalSource: signals by the handlers of the running event
-- loop of asyncio, with its Event.
pub mod Schedule
pub mod Queue
pub mod Keys
pub mod Handlers
use micropython_systemd.Prelude.{
  ℕ, zero, suc, Bool, true, false, List, [], ◌∷◌, ◌++◌, Option, none, some, if◌then◌else◌, ℤ, eq_ℤ,
  ◌||◌,
}
use micropython_systemd.Errors.{
  Result, ok, err, Error, systemd_error, unsupported_error, not_open, no_loop,
  is_runtime_or_value_error,
}
use micropython_systemd.Exec.{Exec, pure, raise, lift, ◌>>=◌, ◌>>◌}
use micropython_systemd.Signals.{Backend}

-- What the event loop and the operating system answer: whether a loop is running, and what
-- adding and removing a signal handler raise, which depends on the signal and on the handlers
-- that stand.
pub record Loop : Type 0 where
  pub running : Bool
  pub refusal : List ℤ → ℤ → Option Error
  pub complaint : List ℤ → ℤ → Option Error

-- `event` is the flag of the Event, which exists from the first opening on and is not used
-- before. The latest handler stands first in `installed`; `has_loop` tells that _loop is not None.
pub record SignalSource : Type 0 where
  pub signals : List ℤ
  pub queue : List ℤ
  pub event : Bool
  pub installed : List ℤ
  pub has_loop : Bool

-- The source, and the signals that the loop has handlers for.
pub record State : Type 0 where
  pub source : SignalSource
  pub handlers : List ℤ

-- SignalSource(signals)
abbrev pub new_source : List ℤ → SignalSource
new_source signals = record {
  signals = signals;
  queue = [];
  event = false;
  installed = [];
  has_loop = false;
}

abbrev pub has : ℤ → List ℤ → Bool
has n [] = false
has n (m ∷ ms) = eq_ℤ n m || has n ms

-- The keys of the loop's dictionary of handlers.
abbrev pub add_key : ℤ → List ℤ → List ℤ
add_key n ms = if has n ms then ms else n ∷ ms

abbrev pub remove_key : ℤ → List ℤ → List ℤ
remove_key n [] = []
remove_key n (m ∷ ms) = let rest = remove_key n ms in if eq_ℤ n m then rest else m ∷ rest

abbrev pub update : (SignalSource → SignalSource) → Exec State (Unit {0})
update f s = (ok tt, record s { source = f s.source })

-- event.set() and event.clear()
abbrev pub put_event : Bool → Exec State (Unit {0})
put_event b = update (λ source. record source { event = b })

abbrev pub unless_raised : Option Error → Result (Unit {0})
unless_raised none = ok tt
unless_raised (some e) = err e

abbrev pub add_refused : ℤ → Option Error → Exec State (Unit {0})
add_refused signo (some e) s = (err e, s)
add_refused signo none s = (ok tt, record s { handlers = add_key signo s.handlers })

-- except (RuntimeError, ValueError): pass
abbrev pub passed : Option Error → Result (Unit {0})
passed none = ok tt
passed (some e) = if is_runtime_or_value_error e then ok tt else err e

-- self._event.clear() where the queue is empty
abbrev pub cleared : List ℤ → Bool → Bool
cleared [] event = false
cleared (signo ∷ queue) event = event

abbrev pub take_first : List ℤ → Exec State (Option ℤ)
take_first [] s = (ok none, s)
take_first (signo ∷ queue) s = (
  ok (some signo),
  record s { source = record s.source { queue = queue; event = cleared queue s.source.event } },
)

unfoldable pub pending : Exec State (Option ℤ)
pending s =
    if s.source.has_loop then take_first s.source.queue s else raise (systemd_error not_open) s

-- _deliver, which the loop calls
unfoldable pub deliver : ℤ → State → State
deliver signo s = record s {
  source = record s.source { queue = s.source.queue ++ signo ∷ []; event = true };
}

abbrev pub or_clear : Option ℤ → Exec State (Option ℤ)
or_clear (some signo) = pure (some signo)
or_clear none = do put_event false; pure none

-- One round of the loop of wait, up to the await: `none` where it suspends.
unfoldable pub wait_round : Exec State (Option ℤ)
wait_round = do found ← pending; or_clear found

abbrev pub or_else : Option ℤ → Exec State (Option ℤ) → Exec State (Option ℤ)
or_else (some signo) rest = pure (some signo)
or_else none rest = rest

-- wait for a number of rounds, where `suspend` is what goes on until the event is set.
pub wait : Exec State (Unit {0}) → ℕ → Exec State (Option ℤ)
wait suspend zero = pure none
wait suspend (suc rounds) = do found ← wait_round; or_else found (do suspend; wait suspend rounds)

module _ (loop : Loop) where
  -- loop.add_signal_handler, which leaves no handler where it raises.
  abbrev pub add_signal_handler : ℤ → Exec State (Unit {0})
  add_signal_handler signo s = add_refused signo (loop.refusal s.handlers signo) s

  -- The body of the loop of open.
  abbrev pub install : ℤ → Exec State (Unit {0})
  install signo = do
    add_signal_handler signo
    update (λ source. record source { installed = signo ∷ source.installed })

  unfoldable pub install_all : List ℤ → Exec State (Unit {0})
  install_all [] = pure tt
  install_all (signo ∷ signals) = do install signo; install_all signals

  unfoldable pub open_source : Exec State (Unit {0})
  open_source s =
      if loop.running
      then (do
        update (λ source. record source { has_loop = true; event = false })
        install_all s.source.signals)
          s
      else raise (unsupported_error no_loop) s

  -- loop.remove_signal_handler, which forgets the handler before it can raise, under `try`.
  abbrev pub remove_signal_handler : ℤ → Exec State (Unit {0})
  remove_signal_handler signo s = (
    passed (loop.complaint s.handlers signo),
    record s { handlers = remove_key signo s.handlers },
  )

  -- The loop of close, over what is left of the installed handlers.
  unfoldable pub remove_all : List ℤ → Exec State (Unit {0})
  remove_all [] = pure tt
  remove_all (signo ∷ installed) = do
    update (λ source. record source { installed = installed })
    remove_signal_handler signo
    remove_all installed

  unfoldable pub close_source : Exec State (Unit {0})
  close_source s =
      (do
        remove_all s.source.installed
        update (λ source. record source { has_loop = false; queue = [] }))
        s

  -- The class, where WAITABLE is true.
  abbrev pub loop_backend : Exec State (Unit {0}) → Backend State
  loop_backend suspend = record {
    create = λ signals s. record s { source = new_source signals };
    open_up = open_source;
    close = close_source;
    pending = pending;
    wait = some (wait suspend);
  }
