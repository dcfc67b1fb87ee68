-- ===== src/Payload/Complete.antt =====
-- Which dictionaries are serialised, and to what.
use mathlib.Core.Path.{subst}
use micropython_systemd.Prelude.{
  ℕ, ◌≡◌, refl, false, List, [], ◌∷◌, ◌++◌, arith, Text, Bytes, All, Lacks, map, elem,
}
use micropython_systemd.Errors.{Result, ok, ◌>>=◌, >>=-eq-ok}
use micropython_systemd.Utf8
use micropython_systemd.Text.{Runtime, upper, sorted, join}
use micropython_systemd.Datagram.{Mapping}
use micropython_systemd.Payload.{
  Fields, keys, get_item, format_value, check_name, field_line, field_lines, state_lines,
  build_payload,
}
use micropython_systemd.Payload.Names.{check_name_iff}
use micropython_systemd.Payload.RoundTrip.{assignments, render, IsAssignment}

Lacks-elem : (c : ℕ) (s : Text) → Lacks c s → elem c s ≡ false
Lacks-elem c [] h = refl
Lacks-elem c (x ∷ s) h = ground (arith, Lacks-elem c s h.1)

field_line_complete :
    (run : Runtime) (f : Fields) (name value : Text)
    → (get_item f name >>= format_value) ≡ ok value
    → IsAssignment (upper run name, value)
    → field_line run f name ≡ ok (render (upper run name, value))
unfolding field_line
field_line_complete run f name value h (is_name, lacks) =
    let (v, hv, hval) = >>=-eq-ok (get_item f name) format_value {b = value} h in
    let accepted : check_name run name ≡ ok (upper run name) =
      (check_name_iff run name (upper run name)).1 (refl, is_name) in
    rw (accepted, hv, hval, Lacks-elem b'\n' value lacks) refl

field_lines_complete :
    (run : Runtime) (f : Fields) (names : List Text) (ps : Mapping)
    → assignments run f names ≡ ok ps
    → All IsAssignment ps
    → field_lines run f names ≡ ok (map render ps)
unfolding field_lines
field_lines_complete run f [] ps h good = let e : ps ≡ [] = cc h in rw e refl
field_lines_complete run f (name ∷ names) ps h good =
    let (v, hv, h₁) = >>=-eq-ok (get_item f name) _ {b = ps} h in
    let (value, hval, h₂) = >>=-eq-ok (format_value v) _ {b = ps} h₁ in
    let (rest, hrest, h₃) = >>=-eq-ok (assignments run f names) _ {b = ps} h₂ in
    let printed : (get_item f name >>= format_value) ≡ ok value = rw (hv, hval) refl in
    joined value rest printed (field_lines_complete run f names rest hrest) h₃
  where
    joined :
        (value : Text) (rest : Mapping)
        → (get_item f name >>= format_value) ≡ ok value
        → (All IsAssignment rest → field_lines run f names ≡ ok (map render rest))
        → ◌≡◌ {A = Result Mapping} (ok ((upper run name, value) ∷ rest)) (ok ps)
        → field_lines run f (name ∷ names) ≡ ok (map render ps)
    joined value rest printed later same =
        let e : ps ≡ (upper run name, value) ∷ rest = cc same in
        let (one, others) : All IsAssignment ((upper run name, value) ∷ rest) =
          subst (All IsAssignment) e good in
        rw (e, field_line_complete run f name value printed one, later others) refl

-- A dictionary that is not empty, whose values can be printed, whose upper case names are field
-- names, whose printed values hold no newline and whose text can be encoded, is serialised: the
-- payload is one line NAME=value for each field, by sorted key, each ended by a newline.
pub build_payload_lem :
    (run : Runtime) (f : Fields) (p : Text × Text) (ps : Mapping) {b : Bytes}
    → assignments run f (sorted (keys f)) ≡ ok (p ∷ ps)
    → All IsAssignment (p ∷ ps)
    → Utf8.encode (join b'\n' (map render (p ∷ ps)) ++ b'\n' ∷ []) ≡ ok b
    → build_payload run [] f ≡ ok b
unfolding build_payload state_lines
build_payload_lem run f p ps h good encoded =
    rw (field_lines_complete run f (sorted (keys f)) (p ∷ ps) h good) encoded
