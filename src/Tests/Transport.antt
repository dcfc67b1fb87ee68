-- ===== src/Tests/Transport.antt =====
-- Runs of the transports of the journal: memfds and datagrams.
use micropython_systemd.Prelude.{
  ◌≡◌, false, [], ◌∷◌, some, none, Bytes, Text, All, list_eq, codes, pos, negsuc, arith,
}
use micropython_systemd.Errors.{Error, ok}
use micropython_systemd.World.{Libc, World}
use micropython_systemd.Native.Struct.{Abi}
use micropython_systemd.Native.Memfd.{write_all}
use micropython_systemd.Native.Memfd.Contents.{Ended, write_all-Ended}
use micropython_systemd.Journal.Writer.{State, W}
use micropython_systemd.Journal.Writer.Delivery.{connected}
use micropython_systemd.Payload.{Fields, str, int, get_item}
use micropython_systemd.Journal.{priority_for_level}
use micropython_systemd.Journal.Handler.{LogRecord, handler_entry}
use micropython_systemd.Journal.Handler.Entry.{set_names, IsPriority, get_item-handler_entry}
use micropython_systemd.Tests.{seven}

abbrev start : World
start = record { env = []; trace = [] }

abbrev contents : Bytes
contents = codes "MESSAGE=hello\n"

write_all-Ended_example :
    Ended seven
      (pos 4)
      contents
      start
      (write_all seven 14 (pos 4) contents start).0
      (write_all seven 14 (pos 4) contents start).1
write_all-Ended_example =
    write_all-Ended seven (pos 4) (λ t b view h. cc) 14 contents start (omega arith)

abbrev refusing : Libc
refusing t c = record { ret = negsuc 0; errno = 111; out = [] }

abbrev little : Abi
little = record { word = 8; big_endian = false }

abbrev log_record : LogRecord
log_record = record {
  levelno = pos 40;
  name = codes "app";
  pathname = some (str (codes "app.py"));
  lineno = some (int (pos 12));
  func_name = none;
}

abbrev static_fields : Fields
static_fields = (codes "MESSAGE", str (codes "old")) ∷ (codes "UNIT", str (codes "u")) ∷ []

get_item-handler_entry_example :
    (get_item (handler_entry static_fields none (codes "bad") log_record) (codes "MESSAGE")
      ≡ ok (str (codes "bad")))
    × (get_item (handler_entry static_fields none (codes "bad") log_record) (codes "PRIORITY")
        ≡ ok (int (pos (priority_for_level (pos 40)))))
    × IsPriority (pos 40) (priority_for_level (pos 40))
    × (get_item (handler_entry static_fields none (codes "bad") log_record) (codes "LOGGER")
        ≡ ok (str (codes "app")))
    × ((key : Text)
        → All (λ name. list_eq name key ≡ false) set_names
        → get_item (handler_entry static_fields none (codes "bad") log_record) key
          ≡ get_item static_fields key)
get_item-handler_entry_example = get_item-handler_entry static_fields none (codes "bad") log_record

abbrev ignored : Error → W (Unit {0})
ignored e s = (ok tt, s)

abbrev journal : State
journal = connected (codes "/j") (pos 4) (codes "/j") 4 start
