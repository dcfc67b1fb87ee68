-- ===== src/Payload/Names.antt =====
-- Which field names and descriptor store names are accepted.
use mathlib.Core.List.{cons-ne-nil}
use micropython_systemd.Prelude.{
  ltb, ap, sym, Bool-cases, ℕ, ◌≤◌, ◌≡◌, ◌≢◌, ◌↔◌, ◌⊎◌, refl, true, false, [], ◌∷◌, arith, Text,
  length, All, inl, inr,
}
use micropython_systemd.Errors.{
  Result, ok, err, value_error, bad_first, bad_character, too_long, >>=-eq-ok,
}
use micropython_systemd.Text.{Runtime, upper}
use micropython_systemd.Payload.{
  in_name_first, in_name_rest, check_chars, check_upper, check_name, fdname_max, check_fdname_chars,
  check_fdname,
}

-- A character of a field name: a capital, a digit or an underscore.
abbrev pub IsNameChar : ℕ → Type 0
IsNameChar c = ((b'A' ≤ c) × (c ≤ b'Z')) ⊎ ((b'0' ≤ c) × (c ≤ b'9')) ⊎ (c ≡ b'_')

in_name_rest_iff : (c : ℕ) → (in_name_rest c ≡ true) ↔ IsNameChar c
unfolding in_name_rest
in_name_rest_iff c = ground arith

in_name_first_iff : (c : ℕ) → (in_name_first c ≡ true) ↔ ((b'A' ≤ c) × (c ≤ b'Z'))
unfolding in_name_first
in_name_first_iff c = ground arith

abbrev pub IsName : Text → Type 0
IsName [] = ⊥
IsName (c ∷ s) = ((b'A' ≤ c) × (c ≤ b'Z')) × All IsNameChar (c ∷ s)

check_chars_iff : (s : Text) → (check_chars s ≡ ok tt) ↔ All IsNameChar s
unfolding check_chars
check_chars_iff [] = (λ h. tt, λ h. refl)
check_chars_iff (c ∷ s) =
    let (to, from) = check_chars_iff s in
    let (in_to, in_from) = in_name_rest_iff c in
    (
      λ h. elim (Bool-cases (in_name_rest c)) [
        | inl p ↦ (in_to p, to (rw p at h))
        | inr p ↦ absurd (fail (rw p at h))
      ],
      λ h. rw (in_from h.0) (from h.1),
    )
  where
    fail : ◌≡◌ {A = Result (Unit {0})} (err (value_error bad_character)) (ok tt) → ⊥
    fail e = cc

-- The check changes nothing.
check_upper_sound : (t u : Text) → check_upper t ≡ ok u → (u ≡ t) × IsName t
unfolding check_upper
check_upper_sound [] u h = cc
check_upper_sound (c ∷ s) u h = elim (Bool-cases (in_name_first c)) [
  | inl p ↦
      let (x, hx, e) = >>=-eq-ok (check_chars (c ∷ s)) _ {b = u} (rw p at h) in
      (cc e, ((in_name_first_iff c).0 p, (check_chars_iff (c ∷ s)).0 hx))
  | inr p ↦ absurd (fail (rw p at h))
]
  where
    fail : ◌≡◌ {A = Result Text} (err (value_error bad_first)) (ok u) → ⊥
    fail e = cc

check_upper_complete : (t u : Text) → (u ≡ t) × IsName t → check_upper t ≡ ok u
unfolding check_upper
check_upper_complete [] u h = absurd h.1
check_upper_complete (c ∷ s) u h =
    rw ((in_name_first_iff c).1 h.1.0, (check_chars_iff (c ∷ s)).1 h.1.1) (ap ok (sym h.0))

-- A field name is accepted exactly when its upper case begins with a letter from A to Z and holds
-- only such letters, digits and underscores; the result is the upper case.
pub check_name_iff :
    (run : Runtime) (name u : Text)
    → (check_name run name ≡ ok u) ↔ ((u ≡ upper run name) × IsName (upper run name))
unfolding check_name
check_name_iff run name u =
    (check_upper_sound (upper run name) u, check_upper_complete (upper run name) u)

pub IsName-All : (u : Text) → IsName u → All IsNameChar u
IsName-All [] h = absurd h
IsName-All (c ∷ u) h = h.1

pub upper-IsName : (run : Runtime) (u : Text) → All IsNameChar u → upper run u ≡ u
unfolding upper
upper-IsName run [] h = refl
upper-IsName run (c ∷ u) h = ground (arith, upper-IsName run u h.1)

-- An accepted name is accepted again, and comes back unchanged.
pub check_name_idem :
    (run : Runtime) (name u : Text) → check_name run name ≡ ok u → check_name run u ≡ ok u
check_name_idem run name u h =
    let (e, is_name) = (check_name_iff run name u).0 h in
    let is_u : IsName u = rw e is_name in
    let same = upper-IsName run u (IsName-All u is_u) in
    (check_name_iff run u u).1 (sym same, rw same is_u)

-- A character of a descriptor store name: no colon and no control character.
abbrev pub IsFdnameChar : ℕ → Type 0
IsFdnameChar c = (c ≢ b':') × (0x20 ≤ c) × (c ≢ 0x7F)

check_fdname_chars_iff : (s : Text) → (check_fdname_chars s ≡ ok tt) ↔ All IsFdnameChar s
unfolding check_fdname_chars
check_fdname_chars_iff [] = (λ h. tt, λ h. refl)
check_fdname_chars_iff (c ∷ s) =
    let (to, from) = check_fdname_chars_iff s in
    (λ h. ground (arith, to), λ h. ground (arith, from h.1))

check_fdname_sound :
    (name u : Text)
    → check_fdname name ≡ ok u
    → (u ≡ name) × (name ≢ []) × (length name ≤ 255) × All IsFdnameChar name
unfolding check_fdname
check_fdname_sound [] u h = cc
check_fdname_sound (c ∷ s) u h = elim (Bool-cases (ltb fdname_max (length (c ∷ s)))) [
  | inl p ↦ absurd (fail (rw p at h))
  | inr p ↦
      let (x, hx, e) = >>=-eq-ok (check_fdname_chars (c ∷ s)) _ {b = u} (rw p at h) in
      (cc e, cons-ne-nil c s, ground arith, (check_fdname_chars_iff (c ∷ s)).0 hx)
]
  where
    fail : ◌≡◌ {A = Result Text} (err (value_error too_long)) (ok u) → ⊥
    fail e = cc

check_fdname_complete :
    (name u : Text)
    → (u ≡ name) × (name ≢ []) × (length name ≤ 255) × All IsFdnameChar name
    → check_fdname name ≡ ok u
unfolding check_fdname
check_fdname_complete [] u h = absurd (h.1 refl)
check_fdname_complete (c ∷ s) u (e, ne, fits, ok_chars) =
    let short : ltb fdname_max (length (c ∷ s)) ≡ false = ground arith in
    rw (short, (check_fdname_chars_iff (c ∷ s)).1 ok_chars) (ap ok (sym e))

-- A descriptor store name is accepted, and returned as it is, exactly when it is not empty, has at
-- most 255 characters, and holds no colon and no control character.
pub check_fdname_iff :
    (name u : Text)
    → (check_fdname name ≡ ok u)
      ↔ ((u ≡ name) × (name ≢ []) × (length name ≤ 255) × All IsFdnameChar name)
check_fdname_iff name u = (check_fdname_sound name u, check_fdname_complete name u)
