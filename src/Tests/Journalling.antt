-- ===== src/Tests/Journalling.antt =====
-- Runs of the serialiser of journal.py.
use micropython_systemd.Prelude.{◌≡◌, refl, [], ◌∷◌, List, some, Text, Bytes, codes, arith}
use micropython_systemd.Errors.{ok}
use micropython_systemd.Utf8
use micropython_systemd.Text.{upper}
use micropython_systemd.Payload.{Value, str, bytes}
use micropython_systemd.Journal
use micropython_systemd.Journal.{Entry, pairs, check_field_name, encode_fields, items, as_bytes}
use micropython_systemd.Journal.Protocol.{read_entry}
use micropython_systemd.Journal.RoundTrip.{read_entry-encode_fields}
use micropython_systemd.Journal.Complete.{frames, encode_fields_lem}
use micropython_systemd.Tests.{plain}

-- A text, and bytes with a newline.
abbrev entry_items : List (Text × Value)
entry_items = (codes "message", str (codes "hi")) ∷ (codes "raw", bytes (codes "a\nb")) ∷ []

abbrev entry_fields : List (Bytes × Bytes)
entry_fields = (codes "MESSAGE", codes "hi") ∷ (codes "RAW", codes "a\nb") ∷ []

abbrev entry_bytes : Bytes
entry_bytes = codes "MESSAGE=hi\nRAW\n\u{3}\0\0\0\0\0\0\0a\nb\n"

encode_fields-entry : encode_fields plain (pairs entry_items) ≡ ok entry_bytes
unfolding encode_fields items Journal.encode_field check_field_name upper as_bytes Utf8.encode
    micropython_systemd.Native.Struct.le_bytes
encode_fields-entry = refl

read_entry-encode_fields_example : read_entry 2 entry_bytes ≡ some entry_fields
read_entry-encode_fields_example =
    read_entry-encode_fields plain (pairs entry_items) entry_items entry_fields
      (unfold items in refl) (unfold Utf8.encode upper as_bytes in refl)
      (omega arith, (omega arith, tt)) entry_bytes encode_fields-entry

encode_fields_lem_example : encode_fields plain (pairs entry_items) ≡ ok (frames entry_fields)
encode_fields_lem_example =
    encode_fields_lem plain (pairs entry_items) (codes "message", str (codes "hi"))
      ((codes "raw", bytes (codes "a\nb")) ∷ []) entry_fields (unfold items in refl)
      (unfold Utf8.encode upper as_bytes in refl) (ground arith)
