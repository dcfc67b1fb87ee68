-- ===== src/Journal/Handler.antt =====
-- mpsystemd/journal.py, the class JournalHandler. Formatting a record's message and its exception
-- belongs to the logging module: both texts come in as arguments, the first as a result.
pub mod Entry
pub mod Shield
pub mod Making
use micropython_systemd.Prelude.{
  ◌++◌, ◌∷◌, [], Option, none, some, Bool, Text, codes, ℤ, pos, ℕ, List, flat_map, if◌then◌else◌,
}
use micropython_systemd.Errors.{Error, Result, ok, err}
use micropython_systemd.Exec.{lift, ◌>>=◌}
use micropython_systemd.World.{Libc}
use micropython_systemd.Text.{Runtime, rstrip}
use micropython_systemd.Payload.{Fields, Value, str, int}
use micropython_systemd.Native.Struct.{Abi}
use micropython_systemd.Journal.{mapping, priority_for_level}
use micropython_systemd.Journal.Writer.{W, put_item, put_given, send_fields}

-- What the handler reads of a record, where an attribute that is None counts as missing.
pub record LogRecord : Type 0 where
  pub levelno : ℤ
  pub name : Text
  pub pathname : Option Value
  pub lineno : Option Value
  pub func_name : Option Value

-- What formatting a record can give: by the formatter of the handler, by the record's getMessage,
-- where these are there, and the record's own message.
pub record Formatting : Type 0 where
  pub formatted : Option (Result Text)
  pub got : Option (Result Text)
  pub message : Result Text

abbrev pub message_or : Option (Result Text) → Result Text → Result Text
message_or none rest = rest
message_or (some text) rest = text

-- handler._message(record)
abbrev pub message_of : Formatting → Result Text
message_of f = message_or f.formatted (message_or f.got f.message)

-- The message, with the text of the exception on lines of its own.
abbrev pub with_exception : Text → Option Text → Text
with_exception message none = message
with_exception message (some []) = message
with_exception message (some (c ∷ trace)) = message ++ b'\n' ∷ c ∷ trace

-- The optional fields, put in behind the others.
abbrev pub with_optional : LogRecord → Option Value → Fields → Fields
with_optional entry_of identifier fields = put_given (codes "CODE_FUNC") entry_of.func_name (
    put_given (codes "CODE_LINE") entry_of.lineno (
      put_given (codes "CODE_FILE") entry_of.pathname
        (put_given (codes "SYSLOG_IDENTIFIER") identifier fields)))

unfoldable pub handler_entry : Fields → Option Value → Text → LogRecord → Fields
handler_entry static_fields identifier message log_record = with_optional log_record identifier (
    put_item (codes "LOGGER") (str log_record.name) (
      put_item (codes "PRIORITY") (int (pos (priority_for_level log_record.levelno)))
        (put_item (codes "MESSAGE") (str message) static_fields)))

-- "".join(traceback.format_exception(…)).rstrip("\n"), where the module traceback is there: the
-- parts are what it formats.
unfoldable pub exception_text : Option (List Text) → Option Text
exception_text none = none
exception_text (some parts) = some (rstrip b'\n' (flat_map (λ part. part) parts))

-- The text of the exception that a record carries, where it carries one.
abbrev pub trace_of : Bool → Option (List Text) → Option Text
trace_of has_exception formatted = if has_exception then exception_text formatted else none

-- Every exception goes to `handle_error`, which is the handler's own or writes to stderr.
abbrev pub shielded : (Error → W (Unit {0})) → Result (Option Bool) → W (Unit {0})
shielded handle_error (ok sent) s = (ok tt, s)
shielded handle_error (err e) s = handle_error e s

module _ (run : Runtime) (abi : Abi) (libc : Libc) (has_memfd : Bool) (fuel : ℕ) where
  abbrev pub submit :
      Fields → Option Value → Result Text → Option Text → LogRecord → W (Option Bool)
  submit static_fields identifier message trace log_record = do
    m ← lift message
    send_fields abi libc has_memfd fuel run
        (mapping (handler_entry static_fields identifier (with_exception m trace) log_record))

  unfoldable pub emit :
      (Error → W (Unit {0}))
      → Fields
      → Option Value
      → Result Text
      → Option Text
      → LogRecord
      → W (Unit {0})
  emit handle_error static_fields identifier message trace log_record s =
      let (r, t) = submit static_fields identifier message trace log_record s in
      shielded handle_error r t
