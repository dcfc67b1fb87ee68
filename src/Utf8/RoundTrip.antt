-- ===== src/Utf8/RoundTrip.antt =====
-- Decoding after encoding gives the text back.
use mathlib.Core.Path.{subst}
use micropython_systemd.Prelude.{
  ℕ, suc, ◌+◌, ◌-◌, ◌*◌, ◌/◌, ◌%◌, ◌<◌, ◌≤◌, ◌≡◌, false, [], ◌∷◌, ◌++◌, inl, inr, Bool-cases, ltb,
  leb, arith, Text, Bytes,
}
use micropython_systemd.Errors.{Result, ok, err, ◌>>=◌, >>=-eq-ok}
use micropython_systemd.Utf8.{is_surrogate, encode_char, encode, scan, decode}

-- The rest of a scan behind the character `c`.
abbrev behind : ℕ → Result Text → Result Text
behind c r = r >>= λ t. ok (c ∷ t)

scan-plain : (b : ℕ) (s : Bytes) → b < 0x80 → scan (b ∷ s) 0 0 0 ≡ behind b (scan s 0 0 0)
unfolding scan
scan-plain b s h = ground arith

scan-two : (x : ℕ) (s : Bytes) → x < 32 → scan ((0xC0 + x) ∷ s) 0 0 0 ≡ scan s 1 x 0x80
unfolding scan
scan-two x s h = let e : 0xC0 + x - 0xC0 ≡ x = omega arith in rw e (ground arith)

scan-three : (x : ℕ) (s : Bytes) → x < 16 → scan ((0xE0 + x) ∷ s) 0 0 0 ≡ scan s 2 x 0x800
unfolding scan
scan-three x s h = let e : 0xE0 + x - 0xE0 ≡ x = omega arith in rw e (ground arith)

scan-four : (x : ℕ) (s : Bytes) → x < 8 → scan ((0xF0 + x) ∷ s) 0 0 0 ≡ scan s 3 x 0x10000
unfolding scan
scan-four x s h = let e : 0xF0 + x - 0xF0 ≡ x = omega arith in rw e (ground arith)

scan-middle :
    (n x acc low : ℕ) (s : Bytes)
    → x < 64
    → scan ((0x80 + x) ∷ s) (suc (suc n)) acc low ≡ scan s (suc n) (acc * 64 + x) low
unfolding scan
scan-middle n x acc low s h = let e : 0x80 + x - 0x80 ≡ x = omega arith in rw e (ground arith)

scan-last :
    (c x acc low : ℕ) (s : Bytes)
    → x < 64
    → c ≡ acc * 64 + x
    → low ≤ c
    → is_surrogate c ≡ false
    → c < 0x110000
    → scan ((0x80 + x) ∷ s) 1 acc low ≡ behind c (scan s 0 0 0)
unfolding scan
scan-last c x acc low s hx hc hlow hs hmax =
    let e : acc * 64 + (0x80 + x - 0x80) ≡ c = omega arith in rw e (rw hs (ground arith))

is_surrogate_low : (c : ℕ) → c < 0xD800 → is_surrogate c ≡ false
unfolding is_surrogate
is_surrogate_low c h = ground arith

module _ (c : ℕ) (rest : Bytes) where
  scan-encode_char_two :
      0x80 ≤ c
      → c < 0x800
      → scan ((0xC0 + c / 64) ∷ (0x80 + c % 64) ∷ rest) 0 0 0 ≡ behind c (scan rest 0 0 0)
  scan-encode_char_two lo hi = rw (scan-two (c / 64) _ (omega arith)) (
      scan-last c (c % 64) (c / 64) 0x80 rest (omega arith) (omega arith) lo
        (is_surrogate_low c (omega arith)) (omega arith))

  scan-encode_char_three :
      0x800 ≤ c
      → c < 0x10000
      → is_surrogate c ≡ false
      → scan ((0xE0 + c / 4096) ∷ (0x80 + c / 64 % 64) ∷ (0x80 + c % 64) ∷ rest) 0 0 0
        ≡ behind c (scan rest 0 0 0)
  scan-encode_char_three lo hi hs =
      rw
        (
          scan-three (c / 4096) _ (omega arith),
          scan-middle 0 (c / 64 % 64) (c / 4096) 0x800 _ (omega arith),
        )
        (scan-last c (c % 64) (c / 4096 * 64 + c / 64 % 64) 0x800 rest (omega arith) (omega arith)
          lo hs (omega arith))

  scan-encode_char_four :
      0x10000 ≤ c
      → c < 0x110000
      → is_surrogate c ≡ false
      → scan
          ((0xF0 + c / 262144)
            ∷ (0x80 + c / 4096 % 64)
            ∷ (0x80 + c / 64 % 64)
            ∷ (0x80 + c % 64)
            ∷ rest)
          0
          0
          0
        ≡ behind c (scan rest 0 0 0)
  scan-encode_char_four lo hi hs =
      let a = c / 262144 * 64 + c / 4096 % 64 in
      rw
        (
          scan-four (c / 262144) _ (omega arith),
          scan-middle 1 (c / 4096 % 64) (c / 262144) 0x10000 _ (omega arith),
          scan-middle 0 (c / 64 % 64) a 0x10000 _ (omega arith),
        )
        (scan-last c (c % 64) (a * 64 + c / 64 % 64) 0x10000 rest (omega arith) (omega arith) lo hs
          hi)

  abbrev Reads : Result Bytes → Type 0
  Reads (ok b) = scan (b ++ rest) 0 0 0 ≡ behind c (scan rest 0 0 0)
  Reads (err e) = Unit

  Reads-encode_char : Reads (encode_char c)
  unfolding encode_char
  Reads-encode_char = elim (Bool-cases (ltb c 0x80)) [
    | inl p ↦ rw p (scan-plain c rest (ground arith))
    | inr p ↦ rw p (elim (Bool-cases (ltb c 0x800)) [
      | inl q ↦ rw q (scan-encode_char_two (ground arith) (ground arith))
      | inr q ↦ rw q (elim (Bool-cases (is_surrogate c)) [
        | inl r ↦ rw r tt
        | inr r ↦ rw r (elim (Bool-cases (leb 0x110000 c)) [
          | inl u ↦ rw u tt
          | inr u ↦ rw u (elim (Bool-cases (ltb c 0x10000)) [
            | inl v ↦ rw v (scan-encode_char_three (ground arith) (ground arith) r)
            | inr v ↦ rw v (scan-encode_char_four (ground arith) (ground arith) r)
          ])
        ])
      ])
    ])
  ]

scan-encode_char :
    (c : ℕ) (b rest : Bytes)
    → encode_char c ≡ ok b
    → scan (b ++ rest) 0 0 0 ≡ behind c (scan rest 0 0 0)
scan-encode_char c b rest h = subst (Reads c rest) h (Reads-encode_char c rest)

scan-encode : (s : Text) (b : Bytes) → encode s ≡ ok b → scan b 0 0 0 ≡ ok s
unfolding encode
scan-encode [] b h = unfold scan in cc
scan-encode (c ∷ s) b h =
    let (x, hx, h') = >>=-eq-ok (encode_char c) _ h in
    let (y, hy, h'') = >>=-eq-ok (encode s) _ h' in
    let e : b ≡ x ++ y = cc h'' in rw (e, scan-encode_char c x y hx, scan-encode s y hy)

-- Text that was encoded is decoded to itself.
pub decode-encode : (s : Text) {b : Bytes} → encode s ≡ ok b → decode b ≡ ok s
unfolding decode
decode-encode s {b} h = scan-encode s b h
