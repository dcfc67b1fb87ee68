-- ===== src/Journal/Complete.antt =====
-- Which entries are serialised, and to what.
use mathlib.Core.Path.{subst}
use micropython_systemd.Prelude.{
  ◌≡◌, refl, List, [], ◌∷◌, ◌++◌, Text, Bytes, All, elem, codes, length, Bool, true, false,
  Bool-cases, inl, inr,
}
use micropython_systemd.Errors.{Result, ok, >>=-eq-ok}
use micropython_systemd.Text.{Runtime, upper}
use micropython_systemd.Payload.{Value}
use micropython_systemd.Native.Struct.{le_bytes}
use micropython_systemd.Journal.{
  Entry, items, as_bytes, frame, check_field_name, encode_field, encode_items, encode_fields,
}
use micropython_systemd.Journal.Names.{IsFieldName, check_field_name_iff}
use micropython_systemd.Journal.RoundTrip.{raw_fields}

-- A field on the wire: a line NAME=value or, where the value holds a newline, the name on a line of
-- its own, the length of the value as 64 bits from the lowest byte up, the value, and a newline.
abbrev wire_as : Bool → Bytes → Bytes → Bytes
wire_as false name raw = name ++ (codes "=" ++ (raw ++ codes "\n"))
wire_as true name raw = name ++ (codes "\n" ++ (le_bytes 8 (length raw) ++ (raw ++ codes "\n")))

abbrev pub wire : Bytes × Bytes → Bytes
wire (name, raw) = wire_as (elem b'\n' raw) name raw

abbrev pub frames : List (Bytes × Bytes) → Bytes
frames [] = []
frames (field ∷ fields) = wire field ++ frames fields

abbrev pub IsNamed : Bytes × Bytes → Type 0
IsNamed (name, raw) = IsFieldName name

encode_field_complete :
    (run : Runtime) (name : Text) (value : Value) (raw : Bytes)
    → as_bytes value ≡ ok raw
    → IsFieldName (upper run name)
    → encode_field run name value ≡ ok (wire (upper run name, raw))
unfolding encode_field frame
encode_field_complete run name value raw h is_name =
    let accepted : check_field_name run name ≡ ok (upper run name) =
      (check_field_name_iff run name (upper run name)).1 (refl, is_name) in
    elim (Bool-cases (elem b'\n' raw)) [
      | inl p ↦ rw (accepted, h, p) refl
      | inr p ↦ rw (accepted, h, p) refl
    ]

encode_items_complete :
    (run : Runtime) (ps : List (Text × Value)) (fields : List (Bytes × Bytes))
    → raw_fields run ps ≡ ok fields
    → All IsNamed fields
    → encode_items run ps ≡ ok (frames fields)
unfolding encode_items
encode_items_complete run [] fields h good = let e : fields ≡ [] = cc h in rw e refl
encode_items_complete run ((name, value) ∷ ps) fields h good =
    let (raw, hraw, h₁) = >>=-eq-ok (as_bytes value) _ {b = fields} h in
    let (rest, hrest, h₂) = >>=-eq-ok (raw_fields run ps) _ {b = fields} h₁ in
    joined raw rest hraw (encode_items_complete run ps rest hrest) h₂
  where
    joined :
        (raw : Bytes) (rest : List (Bytes × Bytes))
        → as_bytes value ≡ ok raw
        → (All IsNamed rest → encode_items run ps ≡ ok (frames rest))
        → ◌≡◌ {A = Result (List (Bytes × Bytes))} (ok ((upper run name, raw) ∷ rest)) (ok fields)
        → encode_items run ((name, value) ∷ ps) ≡ ok (frames fields)
    joined raw rest hraw later same =
        let e : fields ≡ (upper run name, raw) ∷ rest = cc same in
        let (one, others) : All IsNamed ((upper run name, raw) ∷ rest) =
          subst (All IsNamed) e good in
        rw (e, encode_field_complete run name value raw hraw one, later others) refl

-- An entry that has items, whose upper case names are journal field names and whose values can be
-- taken as bytes, is serialised, whatever bytes those are: the result is its fields in a row,
-- NAME=value and a newline where the value holds none, and the name, a newline, the length of the
-- value in 8 bytes from the lowest up, the value and a newline where it does.
pub encode_fields_lem :
    (run : Runtime) (entry : Entry) (p : Text × Value) (ps : List (Text × Value))
    (fields : List (Bytes × Bytes))
    → items entry ≡ ok (p ∷ ps)
    → raw_fields run (p ∷ ps) ≡ ok fields
    → All IsNamed fields
    → encode_fields run entry ≡ ok (frames fields)
unfolding encode_fields
encode_fields_lem run entry p ps fields h meant good =
    rw h (encode_items_complete run (p ∷ ps) fields meant good)
