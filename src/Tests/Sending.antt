-- ===== src/Tests/Sending.antt =====
-- Runs of the serialiser of daemon.py.
use mathlib.Core.List.{perm_append_comm}
use micropython_systemd.Prelude.{
  ◌≡◌, refl, [], ◌∷◌, ◌++◌, List, map, Text, Bytes, codes, pos, All, flat_map, arith, list_eq_iff,
}
use micropython_systemd.Errors.{ok}
use micropython_systemd.Utf8
use micropython_systemd.Utf8.{Chars, raw, text}
use micropython_systemd.Text.{upper, sorted, int_of_text, str_int}
use micropython_systemd.Text
use micropython_systemd.Datagram
use micropython_systemd.Datagram.{lines, lines_of, Mapping}
use micropython_systemd.Payload
use micropython_systemd.Payload.{
  Fields, str, int, keys, get_item, build_payload, check_name, check_fdname,
}
use micropython_systemd.Payload.Order.{build_payload-order}
use micropython_systemd.Payload.RoundTrip.{
  texts, assignments, render, IsAssignment, lines-build_payload,
}
use micropython_systemd.Payload.Listener.{put_all, fields-build_payload}
use micropython_systemd.Payload.Complete.{build_payload_lem}
use micropython_systemd.Tests.{plain}

abbrev states : List Chars
states = text (codes "READY=1") ∷ raw (codes "\n") ∷ []

abbrev fields : Fields
fields = (codes "status", str (codes "up")) ∷ (codes "errno", int (pos 2)) ∷ []

abbrev swapped : Fields
swapped = (codes "errno", int (pos 2)) ∷ (codes "status", str (codes "up")) ∷ []

abbrev payload : Bytes
payload = codes "READY=1\nERRNO=2\nSTATUS=up\n"

abbrev fields_payload : Bytes
fields_payload = codes "ERRNO=2\nSTATUS=up\n"

build_payload-payload : build_payload plain states fields ≡ ok payload
unfolding build_payload check_name get_item Payload.format_value Utf8.encode Utf8.decode upper
    sorted str_int Text.split Text.strip Text.join Text.le_text Text.digits
build_payload-payload = refl

build_payload-fields : build_payload plain [] fields ≡ ok fields_payload
unfolding build_payload check_name get_item Payload.format_value Utf8.encode upper sorted str_int
    Text.join Text.le_text Text.digits
build_payload-fields = refl

lines-build_payload_example :
    (ts : List Text) × (ps : Mapping) × (texts states ≡ ok ts)
    × (assignments plain fields (sorted (keys fields)) ≡ ok ps)
    × All IsAssignment ps
    × (lines (record { contents = payload; fds = [] }) ≡ ok (flat_map lines_of ts ++ map render ps))
lines-build_payload_example = lines-build_payload plain states fields [] build_payload-payload

fields-build_payload_example :
    (ps : Mapping) × (assignments plain fields (sorted (keys fields)) ≡ ok ps)
    × (Datagram.fields (record { contents = fields_payload; fds = [] }) ≡ ok (put_all ps []))
fields-build_payload_example = fields-build_payload plain fields [] build_payload-fields

get_item-swapped : (name : Text) → get_item fields name ≡ get_item swapped name
unfolding get_item
get_item-swapped name =
    ground (arith, list_eq_iff (codes "status") name, list_eq_iff (codes "errno") name)

build_payload-order_example : build_payload plain states fields ≡ build_payload plain states swapped
build_payload-order_example =
    build_payload-order plain fields swapped get_item-swapped states
      (perm_append_comm (codes "status" ∷ []) (codes "errno" ∷ []))

build_payload_lem_example : build_payload plain [] fields ≡ ok fields_payload
build_payload_lem_example =
    build_payload_lem plain fields (codes "ERRNO", codes "2") ((codes "STATUS", codes "up") ∷ [])
      (unfold get_item Payload.format_value upper sorted str_int Text.le_text Text.digits in refl)
      (ground arith) (unfold Utf8.encode Text.join in refl)
