-- ===== src/Journal/RoundTrip.antt =====
-- What a reader of the journal's protocol gets from a serialised entry.
use mathlib.Core.Path.{subst}
use micropython_systemd.Prelude.{
  ℕ, suc, ◌^◌, ◌<◌, ◌≡◌, ◌≢◌, refl, sym, ap, ◌∙◌, true, false, List, [], ◌∷◌, ◌++◌, append_assoc,
  some, arith, Text, Bytes, elem, All, length, take, drop, take_all, drop_all, ltb, Bool-cases, inl,
  inr, length-append,
}
use micropython_systemd.Errors.{Result, ok, ◌>>=◌, >>=-eq-ok}
use micropython_systemd.Text.{Runtime, upper}
use micropython_systemd.Payload.{Value}
use micropython_systemd.Payload.Names.{IsNameChar}
use micropython_systemd.Native.Struct.{le_bytes}
use micropython_systemd.Native.Struct.Laws.{length-le_bytes, le_value-le_bytes}
use micropython_systemd.Journal.{
  Entry, frame, check_field_name, as_bytes, encode_field, items, encode_items, encode_nonempty,
  encode_fields,
}
use micropython_systemd.Journal.Names.{IsFieldName, check_field_name_iff}
use micropython_systemd.Journal.Protocol.{read_name, read_line, read_sized, read_field, read_entry}

-- Neither an equals sign nor a newline.
abbrev IsPlain : Bytes → Type 0
IsPlain = All (λ c. (c ≢ b'=') × (c ≢ b'\n'))

read_name-text :
    (name s : Bytes) → IsPlain name → read_name (name ++ b'=' ∷ s) ≡ some (name, true, s)
unfolding read_name
read_name-text [] s h = refl
read_name-text (c ∷ name) s h = ground (arith, read_name-text name s h.1)

read_name-sized :
    (name s : Bytes) → IsPlain name → read_name (name ++ b'\n' ∷ s) ≡ some (name, false, s)
unfolding read_name
read_name-sized [] s h = refl
read_name-sized (c ∷ name) s h = ground (arith, read_name-sized name s h.1)

read_line-Lacks :
    (value s : Bytes) → elem b'\n' value ≡ false → read_line (value ++ b'\n' ∷ s) ≡ some (value, s)
unfolding read_line
read_line-Lacks [] s h = refl
read_line-Lacks (c ∷ value) s h = ground (arith, read_line-Lacks value s)

read_sized_exact :
    (value s : Bytes) → read_sized (length value) (value ++ b'\n' ∷ s) ≡ some (value, s)
read_sized_exact value s =
    let fits : ltb (length (value ++ b'\n' ∷ s)) (length value) ≡ false =
      ground (arith, length-append value (b'\n' ∷ s)) in
    rw (fits, take_all value (b'\n' ∷ s), drop_all value (b'\n' ∷ s)) refl

-- The 8 bytes of a length in front of the rest.
take_length : (n : ℕ) (s : Bytes) → take 8 (le_bytes 8 n ++ s) ≡ le_bytes 8 n
take_length n s =
    ap (λ (k : ℕ). take k (le_bytes 8 n ++ s)) (sym (length-le_bytes 8 n))
    ∙ take_all (le_bytes 8 n) s

drop_length : (n : ℕ) (s : Bytes) → drop 8 (le_bytes 8 n ++ s) ≡ s
drop_length n s =
    ap (λ (k : ℕ). drop k (le_bytes 8 n ++ s)) (sym (length-le_bytes 8 n))
    ∙ drop_all (le_bytes 8 n) s

-- A field whose length fits into 64 bits is read back from either form.
read_field-frame :
    (name raw rest : Bytes)
    → IsPlain name
    → length raw < 2 ^ 64
    → read_field (frame name raw ++ rest) ≡ some (name, raw, rest)
unfolding frame read_field
read_field-frame name raw rest h fits =
    let size = le_bytes 8 (length raw) in
    let ended = append_assoc raw (b'\n' ∷ []) rest in
    elim (Bool-cases (elem b'\n' raw)) [
      | inl p ↦
          rw
            (
              p,
              append_assoc name (b'\n' ∷ (size ++ (raw ++ b'\n' ∷ []))) rest,
              append_assoc size (raw ++ b'\n' ∷ []) rest,
              ended,
              read_name-sized name (size ++ (raw ++ b'\n' ∷ rest)) h,
              take_length (length raw) (raw ++ b'\n' ∷ rest),
              le_value-le_bytes 8 (length raw) fits,
              drop_length (length raw) (raw ++ b'\n' ∷ rest),
              read_sized_exact raw rest,
            )
            refl
      | inr p ↦
          rw
            (
              p,
              append_assoc name (b'=' ∷ (raw ++ b'\n' ∷ [])) rest,
              ended,
              read_name-text name (raw ++ b'\n' ∷ rest) h,
              read_line-Lacks raw rest p,
            )
            refl
    ]

IsFieldName-IsPlain : (s : Text) → IsFieldName s → IsPlain s
IsFieldName-IsPlain [] h = absurd h
IsFieldName-IsPlain (c ∷ s) h = all_plain (c ∷ s) h.1
  where
    all_plain : (t : Text) → All IsNameChar t → IsPlain t
    all_plain [] k = tt
    all_plain (d ∷ t) k = ((ground arith, ground arith), all_plain t k.1)

-- The fields of an entry as they are meant: upper case names and the bytes of the values, in the
-- order of the items.
abbrev pub raw_fields : Runtime → List (Text × Value) → Result (List (Bytes × Bytes))
raw_fields run [] = ok []
raw_fields run ((name, value) ∷ rest) = do
  raw ← as_bytes value
  fields ← raw_fields run rest
  ok ((upper run name, raw) ∷ fields)

abbrev pub IsShort : Bytes × Bytes → Type 0
IsShort (name, raw) = length raw < 2 ^ 64

encode_field-frame :
    (run : Runtime) (name : Text) (value : Value) (x : Bytes)
    → encode_field run name value ≡ ok x
    → (raw : Bytes) × (as_bytes value ≡ ok raw)
      × (x ≡ frame (upper run name) raw)
      × IsFieldName (upper run name)
unfolding encode_field
encode_field-frame run name value x h =
    let (u, hu, h₁) = >>=-eq-ok (check_field_name run name) _ {b = x} h in
    let (raw, hraw, h₂) = >>=-eq-ok (as_bytes value) _ {b = x} h₁ in
    let (same, is_name) = (check_field_name_iff run name u).0 hu in
    (raw, hraw, framed u raw same h₂, is_name)
  where
    framed :
        (u raw : Bytes)
        → u ≡ upper run name
        → ◌≡◌ {A = Result Bytes} (ok (frame u raw)) (ok x)
        → x ≡ frame (upper run name) raw
    framed u raw e q = cc (e, q)

read_entry-frame :
    (name raw y : Bytes) (fields : List (Bytes × Bytes))
    → IsPlain name
    → length raw < 2 ^ 64
    → read_entry (length fields) y ≡ some fields
    → read_entry (suc (length fields)) (frame name raw ++ y) ≡ some ((name, raw) ∷ fields)
unfolding read_entry
read_entry-frame name raw y fields h fits ih =
    rw (read_field-frame name raw y h fits, read_entry) (rw ih refl)

read_entry-encode_items :
    (run : Runtime) (ps : List (Text × Value)) (fields : List (Bytes × Bytes)) (b : Bytes)
    → encode_items run ps ≡ ok b
    → raw_fields run ps ≡ ok fields
    → All IsShort fields
    → read_entry (length fields) b ≡ some fields
unfolding encode_items
read_entry-encode_items run [] fields b h k fit =
    let e : fields ≡ [] = cc k in let e' : b ≡ [] = cc h in rw (e, e') (unfold read_entry in refl)
read_entry-encode_items run ((name, value) ∷ ps) fields b h k fit =
    let (x, hx, h₁) = >>=-eq-ok (encode_field run name value) _ {b = b} h in
    let (y, hy, h₂) = >>=-eq-ok (encode_items run ps) _ {b = b} h₁ in
    let (raw', hraw', k₁) = >>=-eq-ok (as_bytes value) _ {b = fields} k in
    let (rest, hrest, k₂) = >>=-eq-ok (raw_fields run ps) _ {b = fields} k₁ in
    let (raw, hraw, e, is_name) = encode_field-frame run name value x hx in
    let ih = read_entry-encode_items run ps rest y hy hrest in
    join_up x y raw raw' rest e is_name (cc (hraw, hraw')) ih h₂ k₂
  where
    join_up :
        (x y raw raw' : Bytes) (rest : List (Bytes × Bytes))
        → x ≡ frame (upper run name) raw
        → IsFieldName (upper run name)
        → raw' ≡ raw
        → (All IsShort rest → read_entry (length rest) y ≡ some rest)
        → ◌≡◌ {A = Result Bytes} (ok (x ++ y)) (ok b)
        → ◌≡◌ {A = Result (List (Bytes × Bytes))} (ok ((upper run name, raw') ∷ rest)) (ok fields)
        → read_entry (length fields) b ≡ some fields
    join_up x y raw raw' rest e is_name same ih h₂ k₂ =
        let whole : fields ≡ (upper run name, raw) ∷ rest = cc (k₂, same) in
        let body : b ≡ frame (upper run name) raw ++ y = cc (h₂, e) in
        let all_fit = subst (All IsShort) whole fit in
        rw (whole, body)
          (read_entry-frame (upper run name) raw y rest
            (IsFieldName-IsPlain (upper run name) is_name) all_fit.0 (ih all_fit.1))

module _ (run : Runtime) (entry : Entry) (ps : List (Text × Value)) (fields : List (Bytes × Bytes))
    (its_items : items entry ≡ ok ps) (meant : raw_fields run ps ≡ ok fields)
    (fit : All IsShort fields) where
  -- A reader of the journal's protocol gets out of a serialised entry the upper case name and the
  -- bytes of the value of each of its items, in order and nothing else, whatever bytes the values
  -- hold, if each is shorter than 2^64 bytes.
  pub read_entry-encode_fields :
      (b : Bytes) → encode_fields run entry ≡ ok b → read_entry (length fields) b ≡ some fields
  unfolding encode_fields
  read_entry-encode_fields b sent =
      read_entry-encode_items run ps fields b (nonempty_items ps (rw its_items at sent)) meant fit
    where
      nonempty_items :
          (qs : List (Text × Value)) → encode_nonempty run qs ≡ ok b → encode_items run qs ≡ ok b
      nonempty_items [] e = cc e
      nonempty_items (q ∷ qs) e = e
