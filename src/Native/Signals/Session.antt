-- ===== src/Native/Signals/Session.antt =====
-- A signal source over its whole life.
use micropython_systemd.Prelude.{◌≡◌, true, none, Bytes, is_negative}
use micropython_systemd.Errors.{Result, ok, err}
use micropython_systemd.World.{Libc}
use micropython_systemd.Native.Struct.{Abi}
use micropython_systemd.Native.Signals.{State, open_source, pending, close_source}
use micropython_systemd.Native.Signals.Mask.{
  Closed, Inv, closed, in_use, Opening, IsKernel, open_source-Opening, pending-Inv,
  close_source-Closed,
}

module _ (libc : Libc) (abi : Abi) where
  -- What the program does with a source: it opens it only where it is closed.
  pub data Step (s t : State) : Type 0 where
    opens :
        is_negative s.source.fd ≡ true
        → s.source.saved ≡ none
        → t ≡ (open_source libc s).1
        → Step s t
    polls : t ≡ (pending libc abi s).1 → Step s t
    closes : t ≡ (close_source libc s).1 → Step s t

  pub data Reach (s : State) : State → Type 0 where
    here : Reach s s
    next : {t u : State} → Reach s t → Step t u → Reach s u

module _ (libc : Libc) (start : Bytes) (kernel : IsKernel libc start) where
  Opening-Inv : (r : Result (Unit {0})) (s : State) → Opening start r s → Inv start s
  Opening-Inv (ok u) s h = h
  Opening-Inv (err e) s h = closed h

  Inv-Closed : (s : State) → Inv start s → is_negative s.source.fd ≡ true → Closed start s
  Inv-Closed s (closed h) fd = h
  Inv-Closed s (in_use set open_fd saved mask) fd = cc (open_fd, fd)

  Step-Inv : (abi : Abi) (s t : State) → Step libc abi s t → Inv start s → Inv start t
  Step-Inv abi s t (opens fd saved e) inv = rw e (
      Opening-Inv (open_source libc s).0 (open_source libc s).1
        (open_source-Opening libc start kernel s (Inv-Closed s inv fd)))
  Step-Inv abi s t (polls e) inv = rw e (pending-Inv libc start kernel abi s inv)
  Step-Inv abi s t (closes e) inv = rw e (closed (close_source-Closed libc start kernel s inv))

  -- A source that is closed under the mask `start`, or open over it, is so again after any sequence
  -- of opening it where it is closed, polling it and closing it, with any failure of any call:
  -- closed under the mask `start`, or open with `start` as the mask to go back to and more blocked.
  pub Reach-Inv : (abi : Abi) {s t : State} → Inv start s → Reach libc abi s t → Inv start t
  Reach-Inv abi inv here = inv
  Reach-Inv abi inv (next {t} {u} r st) = Step-Inv abi t u st (Reach-Inv abi inv r)
