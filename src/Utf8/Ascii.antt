-- ===== src/Utf8/Ascii.antt =====
-- ASCII text is its own encoding, and an encoding shows an ASCII character only where the text has
-- it.
use micropython_systemd.Prelude.{ℕ, ◌<◌, ◌≡◌, ◌≢◌, refl, [], ◌∷◌, ◌++◌, arith, Text, Bytes, All}
use micropython_systemd.Errors.{Result, ok, >>=-eq-ok}
use micropython_systemd.Utf8.{encode_char, encode}

abbrev pub IsAscii : Text → Type 0
IsAscii = All (λ c. c < 0x80)

-- ASCII text is its own encoding.
pub encode_ascii : (s : Text) → IsAscii s → encode s ≡ ok s
unfolding encode encode_char
encode_ascii [] h = refl
encode_ascii (c ∷ s) h = ground (arith, encode_ascii s h.1)

encode_char_ascii :
    (c x : ℕ) (b : Bytes) → x < 0x80 → encode_char c ≡ ok (x ∷ b) → (c ≡ x) × (b ≡ [])
unfolding encode_char
encode_char_ascii c x b hx h = ground arith

encode_char-ne-nil : (c : ℕ) → encode_char c ≢ ok []
unfolding encode_char
encode_char-ne-nil c h = ground arith

-- An encoding that begins with an ASCII byte is that of a text that begins with it.
pub encode_head :
    (c x : ℕ) (t b : Bytes) → x < 0x80 → encode (c ∷ t) ≡ ok (x ∷ b) → (c ≡ x) × (encode t ≡ ok b)
unfolding encode
encode_head c x t b hx h =
    let (y, hy, h') = >>=-eq-ok (encode_char c) _ h in
    let (z, hz, h'') = >>=-eq-ok (encode t) _ h' in go y z hy hz h''
  where
    go :
        (y z : Bytes)
        → encode_char c ≡ ok y
        → encode t ≡ ok z
        → ◌≡◌ {A = Result Bytes} (ok (y ++ z)) (ok (x ∷ b))
        → (c ≡ x) × (encode t ≡ ok b)
    go [] z hy hz e = absurd (encode_char-ne-nil c hy)
    go (y ∷ ys) z hy hz e =
        let y_is : y ≡ x = cc e in
        let (same, none_left) = encode_char_ascii c x ys hx (cc (hy, y_is)) in
        (same, cc (hz, e, none_left))
