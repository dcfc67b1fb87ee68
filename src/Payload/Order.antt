-- ===== src/Payload/Order.antt =====
-- The payload does not depend on the order of the dictionary.
use mathlib.Core.List.{Perm}
use micropython_systemd.Prelude.{◌≡◌, refl, List, [], ◌∷◌, Text}
use micropython_systemd.Utf8.{Chars}
use micropython_systemd.Text.{Runtime, sorted}
use micropython_systemd.Text.Sort.{sorted-perm}
use micropython_systemd.Payload.{Fields, keys, get_item, field_line, field_lines, build_payload}

module _ (run : Runtime) (f g : Fields)
    (same : (name : Text) → get_item f name ≡ get_item g name) where
  field_line-same : (name : Text) → field_line run f name ≡ field_line run g name
  unfolding field_line
  field_line-same name = rw (same name) refl

  field_lines-same : (names : List Text) → field_lines run f names ≡ field_lines run g names
  unfolding field_lines
  field_lines-same [] = refl
  field_lines-same (name ∷ names) = rw (field_line-same name, field_lines-same names) refl

  -- Two dictionaries that hold the same values under the same keys, in whatever order, give the
  -- same payload or the same error.
  pub build_payload-order :
      (states : List Chars)
      → Perm (keys f) (keys g)
      → build_payload run states f ≡ build_payload run states g
  unfolding build_payload
  build_payload-order states p = rw (sorted-perm p, field_lines-same (sorted (keys g))) refl
