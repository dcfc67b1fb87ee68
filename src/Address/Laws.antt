-- ===== src/Address/Laws.antt =====
-- What addresses are accepted and how they are shown again.
use micropython_systemd.Prelude.{
  ℕ, ◌≤◌, ◌≡◌, ◌↔◌, ◌⊎◌, inl, inr, ap, true, [], ◌∷◌, if◌then◌else◌, Text, Bytes, length, arith,
  ◌==◌,
}
use micropython_systemd.Errors.{ok, err, Error, is_address_error, >>=-eq-ok}
use micropython_systemd.Utf8
use micropython_systemd.Utf8.{Chars, raw, text, to_raw}
use micropython_systemd.Utf8.RoundTrip.{decode-encode}
use micropython_systemd.Utf8.Ascii.{encode_head}
use micropython_systemd.Address.{nul, abstract_prefix, place, encode_unix_address, describe}

-- The bytes `b` name the socket whose sun_path is `sun`: an abstract name of at most 107 bytes
-- behind `@` or NUL, or an absolute path of at most 107 bytes, which leaves room for its
-- terminator.
abbrev pub Denotes : Bytes → Bytes → Type 0
Denotes [] sun = ⊥
Denotes (c ∷ r) sun =
    ((c ≡ abstract_prefix) × (sun ≡ nul ∷ r) × (length r ≤ 107))
    ⊎ ((c ≡ nul) × (sun ≡ nul ∷ r) × (length r ≤ 107))
    ⊎ ((c ≡ b'/') × (sun ≡ b'/' ∷ r) × (length r ≤ 106))

place-Denotes : (b sun : Bytes) → place b ≡ ok sun → Denotes b sun
unfolding place
place-Denotes [] sun h = cc
place-Denotes (c ∷ r) sun h = ground arith

Denotes-place : (b sun : Bytes) → Denotes b sun → place b ≡ ok sun
unfolding place
Denotes-place [] sun h = absurd h
Denotes-place (c ∷ r) sun (inl (e, s, l)) = ground arith
Denotes-place (c ∷ r) sun (inr (inl (e, s, l))) = ground arith
Denotes-place (c ∷ r) sun (inr (inr (e, s, l))) = ground arith

module _ (a : Chars) {b : Bytes} (is_raw : to_raw a ≡ ok b) (sun : Bytes) where
  -- An address whose bytes are `b` is accepted with the result `sun` exactly when `b` names the
  -- socket `sun`: `@` or NUL before a name of at most 107 bytes, or a path from `/` of at most 107
  -- bytes.
  pub encode_unix_address_iff : (encode_unix_address a ≡ ok sun) ↔ Denotes b sun
  unfolding encode_unix_address
  encode_unix_address_iff = rw is_raw (place-Denotes b sun, Denotes-place b sun)

place_error : (b : Bytes) (e : Error) → place b ≡ err e → is_address_error e ≡ true
unfolding place
place_error [] e h = ground arith
place_error (c ∷ r) e h = ground arith

-- Whatever bytes are given, a refusal is an AddressError.
pub encode_unix_address_error :
    (b : Bytes) (e : Error) → encode_unix_address (raw b) ≡ err e → is_address_error e ≡ true
unfolding encode_unix_address
encode_unix_address_error b e h = place_error b e h

-- How `describe` shows the address that `t` was: a NUL in front reads as `@`.
abbrev pub shown : Text → Text
shown [] = []
shown (c ∷ t) = (if c == nul then abstract_prefix else c) ∷ t

module _ (replace : Bytes → Text)
    (valid : (b : Bytes) (t : Text) → Utf8.decode b ≡ ok t → replace b ≡ t) where
  describe-cons :
      (c : ℕ) (t b sun : Bytes)
      → Utf8.encode (c ∷ t) ≡ ok b
      → Denotes b sun
      → describe replace sun ≡ shown (c ∷ t)
  unfolding describe
  describe-cons c t [] sun h d = absurd d
  describe-cons c t (x ∷ b) sun h (inl (e, s, l)) =
      let (same, rest) = encode_head c x t b (omega arith) h in
      let back = valid b t (decode-encode t rest) in
      rw (s, same, e) (ap (λ z. abstract_prefix ∷ z) back)
  describe-cons c t (x ∷ b) sun h (inr (inl (e, s, l))) =
      let (same, rest) = encode_head c x t b (omega arith) h in
      let back = valid b t (decode-encode t rest) in
      rw (s, same, e) (ap (λ z. abstract_prefix ∷ z) back)
  describe-cons c t (x ∷ b) sun h (inr (inr (e, s, l))) =
      let (same, rest) = encode_head c x t b (omega arith) h in
      let back = valid (x ∷ b) (c ∷ t) (decode-encode (c ∷ t) h) in rw (s, ← e, back, same, e)

  -- If decoding with replacement agrees with strict decoding on valid input, then `describe` shows
  -- the sun_path of an accepted text address as that text, with `@` for a leading NUL.
  pub describe-encode_unix_address :
      (t : Text) {sun : Bytes}
      → encode_unix_address (text t) ≡ ok sun
      → describe replace sun ≡ shown t
  describe-encode_unix_address [] h = unfold encode_unix_address Utf8.encode in cc
  describe-encode_unix_address (c ∷ t) {sun} h =
      let (b, hb, hp) =
        >>=-eq-ok (Utf8.encode (c ∷ t)) place {b = sun} (unfold encode_unix_address in h) in
      describe-cons c t b sun hb (place-Denotes b sun hp)
