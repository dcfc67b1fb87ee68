-- ===== src/Text/Decimal.antt =====
-- Reading back the decimal print of an integer.
use mathlib.Core.List.{reverse_aux, reverse-reverse, concat-ne-nil}
use micropython_systemd.Prelude.{
  ℕ, zero, suc, ◌+◌, ◌-◌, ◌*◌, ◌/◌, ◌%◌, ◌<◌, ◌≤◌, ◌≡◌, ◌≢◌, refl, ◌∙◌, Bool, true, false, [], ◌∷◌,
  ◌++◌, some, append_assoc, append-nil, arith, Text, All, All-append, ℤ, pos, negsuc, map, reverse,
  ltb, Bool-cases, inl, inr,
}
use micropython_systemd.Text.{
  Runtime, positive, digits, str_int, skip_spaces, read_digits, read_signed, to_ascii, int_of_text,
  is_space,
}

abbrev pub IsDigit : ℕ → Type 0
IsDigit c = (b'0' ≤ c) × (c ≤ b'9')

small : (n : ℕ) → ltb n 10 ≡ true → n < 10
small n h = ground arith

pub digits-IsDigit : (fuel n : ℕ) → All IsDigit (digits fuel n)
unfolding digits
digits-IsDigit zero n = tt
digits-IsDigit (suc fuel) n = elim (Bool-cases (ltb n 10)) [
  | inl p ↦ rw p (omega (arith, small n p), tt)
  | inr p ↦ rw p (All-append IsDigit _ _ (digits-IsDigit fuel (n / 10)) (omega arith, tt))
]

last :
    (n : ℕ) (rest : Text)
    → read_digits (n / 10) true ((b'0' + n % 10) ∷ rest) ≡ read_digits n true rest
unfolding read_digits
last n rest = let e : n / 10 * 10 + (b'0' + n % 10 - b'0') ≡ n = omega arith in rw e (ground arith)

-- Reading the digits of `n` behind nothing leaves `n`.
read_digits-digits :
    (fuel n : ℕ) (b : Bool) (rest : Text)
    → n < fuel
    → read_digits 0 b (digits fuel n ++ rest) ≡ read_digits n true rest
unfolding digits read_digits
read_digits-digits zero n b rest h = absurd (omega arith)
read_digits-digits (suc fuel) n b rest h = elim (Bool-cases (ltb n 10)) [
  | inl p ↦ rw p (ground arith)
  | inr p ↦
      rw
        (
          p,
          append_assoc (digits fuel (n / 10)) ((b'0' + n % 10) ∷ []) rest,
          read_digits-digits fuel (n / 10) b ((b'0' + n % 10) ∷ rest) (ground arith),
        )
        (last n rest)
]

-- Nothing around a number is skipped.
skip_spaces-solid : (c : ℕ) (s : Text) → is_space c ≡ false → skip_spaces (c ∷ s) ≡ c ∷ s
unfolding skip_spaces
skip_spaces-solid c s h = rw h refl

abbrev IsSolid : ℕ → Type 0
IsSolid c = (b'-' ≤ c) × (c ≤ b'9')

is_space-IsSolid : (c : ℕ) → IsSolid c → is_space c ≡ false
is_space-IsSolid c h = ground arith

skip_spaces-All : (s : Text) → All IsSolid s → skip_spaces s ≡ s
skip_spaces-All [] h = unfold skip_spaces in refl
skip_spaces-All (c ∷ s) h = skip_spaces-solid c s (is_space-IsSolid c h.0)

to_ascii-All : (run : Runtime) (s : Text) → All IsSolid s → map (to_ascii run) s ≡ s
to_ascii-All run [] h = refl
to_ascii-All run (c ∷ s) h = ground (arith, to_ascii-All run s h.1)

All-reverse_aux : (s acc : Text) → All IsSolid s → All IsSolid acc → All IsSolid (reverse_aux s acc)
All-reverse_aux [] acc h k = k
All-reverse_aux (c ∷ s) acc (hc, h) k = All-reverse_aux s (c ∷ acc) h (hc, k)

int_of_text-solid : (run : Runtime) (s : Text) → All IsSolid s → int_of_text run s ≡ read_signed s
unfolding int_of_text
int_of_text-solid run s h = rw (
  to_ascii-All run s h,
  skip_spaces-All (reverse s) (All-reverse_aux s [] h tt),
  reverse-reverse s,
  skip_spaces-All s h,
)

IsDigit-IsSolid : (s : Text) → All IsDigit s → All IsSolid s
IsDigit-IsSolid [] h = tt
IsDigit-IsSolid (c ∷ s) h = ((omega arith, omega arith), IsDigit-IsSolid s h.1)

read_signed-IsDigit :
    (s : Text) → s ≢ [] → All IsDigit s → read_signed s ≡ positive (read_digits 0 false s)
read_signed-IsDigit [] ne h = absurd (ne refl)
read_signed-IsDigit (c ∷ s) ne h = ground arith

digits-ne-nil : (fuel n : ℕ) → digits (suc fuel) n ≢ []
unfolding digits
digits-ne-nil fuel n = ground (arith, concat-ne-nil (b'0' + n % 10) (digits fuel (n / 10)))

pub read_digits-digits_all : (n : ℕ) (b : Bool) → read_digits 0 b (digits (suc n) n) ≡ some n
read_digits-digits_all n b =
    let e = read_digits-digits (suc n) n b [] (omega arith) in
    rw append-nil at e ∙ unfold read_digits in refl

-- int(str(value)) is the value.
pub int_of_text-str_int : (run : Runtime) (z : ℤ) → int_of_text run (str_int z) ≡ some z
unfolding str_int
int_of_text-str_int run (pos n) =
    let all_digits = digits-IsDigit (suc n) n in
    rw (
      int_of_text-solid run _ (IsDigit-IsSolid _ all_digits),
      read_signed-IsDigit _ (digits-ne-nil n n) all_digits,
      read_digits-digits_all n false,
    )
int_of_text-str_int run (negsuc n) =
    let all_digits = digits-IsDigit (suc (suc n)) (suc n) in
    let solid : All IsSolid (b'-' ∷ digits (suc (suc n)) (suc n)) =
      ((omega arith, omega arith), IsDigit-IsSolid _ all_digits) in
    rw (int_of_text-solid run _ solid, read_digits-digits_all (suc n) false) (ground arith)
