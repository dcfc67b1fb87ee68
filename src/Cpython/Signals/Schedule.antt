-- ===== src/Cpython/Signals/Schedule.antt =====
-- One task in wait on the SignalSource of mpsystemd/_impl_cpy.py, other callers of pending, and the
-- handlers that the loop runs: what they do in one order or another.
use micropython_systemd.Prelude.{
  Bool, true, false, not, ◌&&◌, ◌||◌, if◌then◌else◌, List, [], ◌∷◌, ◌++◌, Option, none, some, ℤ,
  flat_map,
}
use micropython_systemd.Errors.{Result, ok, err}
use micropython_systemd.Cpython.Signals.{State, pending, deliver, wait_round}

-- `waiting` while the task is suspended in event.wait(), `woken` when its future is done, and the
-- signals that were handed out so far.
pub record Task : Type 0 where
  pub state : State
  pub waiting : Bool
  pub woken : Bool
  pub taken : List ℤ

-- What the loop does next: it runs the handler of a signal, a call of pending, the task up to its
-- next suspension, from its call of wait or from where it is suspended.
pub data Input : Type 0 where
  arrives : ℤ → Input
  polls waits resumes : Input

abbrev pub handed : Result (Option ℤ) → List ℤ → List ℤ
handed (err e) taken = taken
handed (ok none) taken = taken
handed (ok (some signo)) taken = taken ++ signo ∷ []

abbrev pub is_suspended : Result (Option ℤ) → Bool
is_suspended (err e) = false
is_suspended (ok none) = true
is_suspended (ok (some signo)) = false

abbrev pub poll : Task → Task
poll t =
    let (r, s) = pending t.state in
    record { state = s; waiting = t.waiting; woken = t.woken; taken = handed r t.taken }

abbrev pub proceed : Task → Task
proceed t =
    let (r, s) = wait_round t.state in
    record { state = s; waiting = is_suspended r; woken = false; taken = handed r t.taken }

-- event.set() wakes the waiting task only where the event was not set before. An input that is
-- not possible changes nothing.
unfoldable pub step : Input → Task → Task
step (arrives signo) t = record t {
  state = deliver signo t.state;
  woken = t.woken || (t.waiting && not t.state.source.event);
}
step polls t = poll t
step waits t = if t.waiting then t else proceed t
step resumes t = if t.waiting && t.woken then proceed t else t

unfoldable pub run : List Input → Task → Task
run [] t = t
run (i ∷ inputs) t = run inputs (step i t)

abbrev pub arrival : Input → List ℤ
arrival (arrives signo) = signo ∷ []
arrival polls = []
arrival waits = []
arrival resumes = []

abbrev pub arrivals : List Input → List ℤ
arrivals = flat_map arrival

-- The signals that were handed out, then those that wait.
abbrev pub signals_of : Task → List ℤ
signals_of t = t.taken ++ t.state.source.queue
