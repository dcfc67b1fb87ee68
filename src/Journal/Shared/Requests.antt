-- ===== src/Journal/Shared/Requests.antt =====
-- Calls of the functions of mpsystemd/journal.py that share a writer, one after the other.
use micropython_systemd.Prelude.{
  ℕ, ◌≤◌, ◌≡◌, Bool, List, [], ◌∷◌, Option, none, some, Bytes, codes, length, ℤ,
}
use micropython_systemd.Errors.{ok}
use micropython_systemd.World.{Libc}
use micropython_systemd.Text.{Runtime}
use micropython_systemd.Payload.{Fields, Value, int}
use micropython_systemd.Native.Struct.{Abi}
use micropython_systemd.Journal.{Entry, mapping, encode_fields}
use micropython_systemd.Journal.Writer.{put_item, put_given}
use micropython_systemd.Journal.Shared.{Shared, send_shared, send_fields_shared, close_shared}

-- The entry that send makes of its arguments.
abbrev pub entry_of : Option Value → Option ℤ → Fields → Entry
entry_of message none fields = mapping (put_given (codes "MESSAGE") message fields)
entry_of message (some priority) fields =
    mapping
      (put_item (codes "PRIORITY") (int priority) (put_given (codes "MESSAGE") message fields))

-- A call of a function of the module.
pub data Request : Type 0 where
  send : Option Value → Option ℤ → Fields → Request
  send_assembled : Entry → Request
  close : Request

-- The bytes that a call sends are at most so many.
abbrev pub Fits : Runtime → ℕ → Entry → Type 0
Fits run fuel entry = (body : Bytes) → encode_fields run entry ≡ ok body → length body ≤ fuel

abbrev pub RequestFits : Runtime → ℕ → Request → Type 0
RequestFits run fuel (send message priority fields) =
    Fits run fuel (entry_of message priority fields)
RequestFits run fuel (send_assembled entry) = Fits run fuel entry
RequestFits run fuel close = Unit {0}

abbrev pub AllFit : Runtime → ℕ → List Request → Type 0
AllFit run fuel [] = Unit {0}
AllFit run fuel (q ∷ qs) = RequestFits run fuel q × AllFit run fuel qs

module _ (run : Runtime) (abi : Abi) (libc : Libc) (has_memfd : Bool) (fuel : ℕ) where
  abbrev pub done : Request → Shared → Shared
  done (send message priority fields) s =
      (send_shared run abi libc has_memfd fuel message priority fields s).1
  done (send_assembled entry) s = (send_fields_shared run abi libc has_memfd fuel entry s).1
  done close s = (close_shared run abi libc has_memfd fuel s).1

  -- Calls whose exceptions are caught.
  unfoldable pub called : List Request → Shared → Shared
  called [] s = s
  called (q ∷ qs) s = called qs (done q s)
