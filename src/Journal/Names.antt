-- ===== src/Journal/Names.antt =====
-- Which journal field names are accepted.
use micropython_systemd.Prelude.{ℕ, ◌≤◌, ◌≡◌, ◌↔◌, refl, true, [], ◌∷◌, arith, Text, length, All}
use micropython_systemd.Errors.{ok}
use micropython_systemd.Text.{Runtime, upper}
use micropython_systemd.Payload.Names.{IsNameChar}
use micropython_systemd.Journal.{
  in_name_chars, in_digits, check_chars, check_upper, check_field_name,
}

in_name_chars_iff : (c : ℕ) → (in_name_chars c ≡ true) ↔ IsNameChar c
unfolding in_name_chars
in_name_chars_iff c = ground arith

in_digits_iff : (c : ℕ) → (in_digits c ≡ true) ↔ ((b'0' ≤ c) × (c ≤ b'9'))
unfolding in_digits
in_digits_iff c = ground arith

-- A journal field name: a capital first, then capitals, digits and underscores, 64 at most.
abbrev pub IsFieldName : Text → Type 0
IsFieldName [] = ⊥
IsFieldName (c ∷ s) = ((b'A' ≤ c) × (c ≤ b'Z')) × All IsNameChar (c ∷ s) × (length (c ∷ s) ≤ 64)

check_chars_iff : (s : Text) → (check_chars s ≡ ok tt) ↔ All IsNameChar s
unfolding check_chars
check_chars_iff [] = (λ h. tt, λ h. refl)
check_chars_iff (c ∷ s) = (
  λ h. ground (arith, in_name_chars_iff c, check_chars_iff s),
  λ h. ground (arith, in_name_chars_iff c, check_chars_iff s),
)

check_upper_sound : (t u : Text) → check_upper t ≡ ok u → (u ≡ t) × IsFieldName t
unfolding check_upper
check_upper_sound [] u h = cc
check_upper_sound (c ∷ s) u h = ground (arith, check_chars_iff (c ∷ s), in_digits_iff c)

check_upper_complete : (t u : Text) → (u ≡ t) × IsFieldName t → check_upper t ≡ ok u
unfolding check_upper
check_upper_complete [] u h = absurd h.1
check_upper_complete (c ∷ s) u h = ground (arith, check_chars_iff (c ∷ s), in_digits_iff c)

-- A journal field name is accepted exactly when its upper case begins with a letter from A to Z,
-- holds only such letters, digits and underscores, and has at most 64 characters; the result is
-- the upper case.
pub check_field_name_iff :
    (run : Runtime) (name u : Text)
    → (check_field_name run name ≡ ok u) ↔ ((u ≡ upper run name) × IsFieldName (upper run name))
unfolding check_field_name
check_field_name_iff run name u =
    (check_upper_sound (upper run name) u, check_upper_complete (upper run name) u)
