-- ===== src/Cpython/Signals/Queue.antt =====
-- The queue of the SignalSource of mpsystemd/_impl_cpy.py between an opening and the next close:
-- one task in wait, other callers of pending, and the handlers that the loop runs.
use micropython_systemd.Prelude.{
  ◌≡◌, refl, sym, ap, ◌∙◌, Bool, true, false, not, ◌&&◌, ◌||◌, if◌then◌else◌, List, [], ◌∷◌, ◌++◌,
  append_assoc, append-nil, Option, none, ℤ, flat_map,
}
use micropython_systemd.Errors.{Result, ok}
use micropython_systemd.Cpython.Signals.{State, pending, deliver, wait_round, take_first}
use micropython_systemd.Cpython.Signals.Schedule.{
  Task, Input, arrives, polls, waits, resumes, poll, proceed, step, run, arrival, arrivals,
  signals_of,
}

pending-open : (s : State) → s.source.has_loop ≡ true → pending s ≡ take_first s.source.queue s
unfolding pending
pending-open s has_loop = rw has_loop refl

-- A round of wait on an open source.
abbrev waited : List ℤ → State → Result (Option ℤ) × State
waited [] s = (ok none, record s { source = record s.source { event = false } })
waited (signo ∷ queue) s = take_first (signo ∷ queue) s

wait_round-open : (s : State) → s.source.has_loop ≡ true → wait_round s ≡ waited s.source.queue s
unfolding wait_round
wait_round-open s open_now = go s.source.queue (pending-open s open_now)
  where
    go : (q : List ℤ) → pending s ≡ take_first q s → wait_round s ≡ waited q s
    go [] h = rw h refl
    go (signo ∷ q) h = rw h refl

-- The source is open, and where the task is suspended and not woken nothing waits for it.
abbrev pub IsAwake : Task → Type 0
IsAwake t =
    (t.state.source.has_loop ≡ true)
    × (t.waiting ≡ true
        → t.woken ≡ false
        → (t.state.source.queue ≡ []) × (t.state.source.event ≡ false))

-- What a step keeps.
abbrev Kept : Input → Task → Task → Type 0
Kept i t u = IsAwake u × (signals_of u ≡ signals_of t ++ arrival i)

same-Kept : (t : Task) → IsAwake t → IsAwake t × (signals_of t ≡ signals_of t ++ [])
same-Kept t awake = (awake, sym (append-nil (signals_of t)))

poll-Kept : (t : Task) → IsAwake t → Kept polls t (poll t)
poll-Kept t (open_now, awake) = go t.state.source.queue refl (pending-open t.state open_now)
  where
    go :
        (q : List ℤ)
        → t.state.source.queue ≡ q
        → pending t.state ≡ take_first q t.state
        → Kept polls t (poll t)
    go [] e h = rw h ((open_now, awake), sym (append-nil (signals_of t)))
    go (signo ∷ q) e h =
        rw (h, e)
          (
            (open_now, λ w k. cc (e, (awake w k).0)),
            append_assoc t.taken (signo ∷ []) q ∙ sym (append-nil (t.taken ++ signo ∷ q)),
          )

proceed-Kept :
    (t : Task) → IsAwake t → IsAwake (proceed t) × (signals_of (proceed t) ≡ signals_of t ++ [])
proceed-Kept t (open_now, awake) = go t.state.source.queue refl (wait_round-open t.state open_now)
  where
    go :
        (q : List ℤ)
        → t.state.source.queue ≡ q
        → wait_round t.state ≡ waited q t.state
        → IsAwake (proceed t) × (signals_of (proceed t) ≡ signals_of t ++ [])
    go [] e h = rw h ((open_now, λ w k. (e, refl)), sym (append-nil (signals_of t)))
    go (signo ∷ q) e h =
        rw (h, e)
          (
            (open_now, λ w k. cc),
            append_assoc t.taken (signo ∷ []) q ∙ sym (append-nil (t.taken ++ signo ∷ q)),
          )

-- One of two tasks, whichever a test takes.
either-Kept :
    (t : Task) (b : Bool) (u v : Task)
    → IsAwake u × (signals_of u ≡ signals_of t ++ [])
    → IsAwake v × (signals_of v ≡ signals_of t ++ [])
    → IsAwake (if b then u else v) × (signals_of (if b then u else v) ≡ signals_of t ++ [])
either-Kept t true u v hu hv = hu
either-Kept t false u v hu hv = hv

-- A task that is suspended where the event is not set is woken by setting it.
wakes :
    (waiting woken event : Bool)
    → (waiting ≡ true → woken ≡ false → event ≡ false)
    → waiting ≡ true
    → (woken || (waiting && not event)) ≡ true
wakes waiting true event h w = refl
wakes waiting false event h w = rw (w, h w refl) refl

step-Kept : (i : Input) (t : Task) → IsAwake t → Kept i t (step i t)
unfolding step deliver
step-Kept (arrives signo) t (open_now, awake) = (
  (open_now, λ w k. cc (k, wakes t.waiting t.woken t.state.source.event (λ a b. (awake a b).1) w)),
  sym (append_assoc t.taken t.state.source.queue (signo ∷ [])),
)
step-Kept polls t awake = poll-Kept t awake
step-Kept waits t awake =
    either-Kept t t.waiting t (proceed t) (same-Kept t awake) (proceed-Kept t awake)
step-Kept resumes t awake =
    either-Kept t (t.waiting && t.woken) (proceed t) t (proceed-Kept t awake) (same-Kept t awake)

-- Over any sequence of arriving signals, polls and rounds of the task, the signals handed out, with
-- those in the queue behind them, are those of before followed by the arriving ones, in the order
-- of their arrival: the source is a queue that hands out each signal once.
pub signals_of-run :
    (inputs : List Input) (t : Task)
    → IsAwake t
    → signals_of (run inputs t) ≡ signals_of t ++ arrivals inputs
unfolding run flat_map
signals_of-run [] t awake = sym (append-nil (signals_of t))
signals_of-run (i ∷ inputs) t awake =
    let (next, kept) = step-Kept i t awake in
    signals_of-run inputs (step i t) next
    ∙ ap (λ xs. xs ++ arrivals inputs) kept
    ∙ append_assoc (signals_of t) (arrival i) (arrivals inputs)

-- The first of a queue with a signal behind it.
abbrev pub first : List ℤ → ℤ → ℤ
first [] signo = signo
first (n ∷ queue) signo = n
