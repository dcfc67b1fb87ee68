-- ===== src/Text.antt =====
-- Python's `str` methods and conversions that the package calls: upper, strip, split, join, sorted,
-- str(int) and int(str). A `str` is its list of code points. The proofs are in the children.
pub mod Lines
pub mod Sort
pub mod Decimal
use micropython_systemd.Prelude.{
  ℕ, zero, suc, ◌+◌, ◌-◌, ◌*◌, ◌/◌, ◌%◌, Bool, true, false, ◌&&◌, ◌||◌, List, [], ◌∷◌, ◌++◌, Option,
  none, some, Text, ltb, leb, ◌==◌, if◌then◌else◌, ℤ, pos, negsuc, neg, map, flat_map, reverse,
}

-- The runtime's tables for the characters above 127: what `upper` makes of one, and which ASCII
-- character `int` reads it as. MicroPython leaves such characters alone.
pub record Runtime : Type 0 where
  pub wide_upper : ℕ → Text
  pub wide_ascii : ℕ → ℕ

abbrev pub is_lower : ℕ → Bool
is_lower c = leb b'a' c && leb c b'z'

abbrev pub is_digit : ℕ → Bool
is_digit c = leb b'0' c && leb c b'9'

abbrev pub upper_char : Runtime → ℕ → Text
upper_char run c = if ltb c 128 then (if is_lower c then c - 32 else c) ∷ [] else run.wide_upper c

-- text.upper()
unfoldable pub upper : Runtime → Text → Text
unfolding flat_map
upper run = flat_map (upper_char run)

-- text.lstrip(c)
unfoldable pub lstrip : ℕ → Text → Text
lstrip c [] = []
lstrip c (x ∷ s) = let rest = lstrip c s in if x == c then rest else x ∷ s

abbrev pub rstrip_onto : ℕ → ℕ → Text → Text
rstrip_onto c x [] = if x == c then [] else x ∷ []
rstrip_onto c x (y ∷ s) = x ∷ y ∷ s

-- text.rstrip(c)
unfoldable pub rstrip : ℕ → Text → Text
rstrip c [] = []
rstrip c (x ∷ s) = rstrip_onto c x (rstrip c s)

-- text.strip(c)
unfoldable pub strip : ℕ → Text → Text
unfolding lstrip rstrip
strip c s = rstrip c (lstrip c s)

abbrev pub onto_first : ℕ → List Text → List Text
onto_first c [] = (c ∷ []) ∷ []
onto_first c (p ∷ ps) = (c ∷ p) ∷ ps

-- text.split(sep), for a separator of one character
unfoldable pub split : ℕ → Text → List Text
split sep [] = [] ∷ []
split sep (c ∷ s) = let rest = split sep s in if c == sep then [] ∷ rest else onto_first c rest

-- sep.join(parts), for a separator of one character
unfoldable pub join : ℕ → List Text → Text
join sep [] = []
join sep (p ∷ []) = p
join sep (p ∷ q ∷ ps) = p ++ sep ∷ join sep (q ∷ ps)

-- The order of `str`: by code points, a prefix first.
unfoldable pub le_text : Text → Text → Bool
le_text [] t = true
le_text (x ∷ s) [] = false
le_text (x ∷ s) (y ∷ t) = ltb x y || (x == y && le_text s t)

unfoldable pub insert_sorted : Text → List Text → List Text
insert_sorted t [] = t ∷ []
insert_sorted t (u ∷ us) = if le_text t u then t ∷ u ∷ us else u ∷ insert_sorted t us

-- sorted(texts)
unfoldable pub sorted : List Text → List Text
unfolding insert_sorted
sorted [] = []
sorted (t ∷ ts) = insert_sorted t (sorted ts)

-- The decimal digits of `n`, with fuel above their number.
unfoldable pub digits : ℕ → ℕ → Text
digits zero n = []
digits (suc fuel) n =
    let front = digits fuel (n / 10) in
    if ltb n 10 then (b'0' + n) ∷ [] else front ++ (b'0' + n % 10) ∷ []

-- str(value) of an int
unfoldable pub str_int : ℤ → Text
str_int (pos n) = digits (suc n) n
str_int (negsuc n) = b'-' ∷ digits (suc (suc n)) (suc n)

abbrev pub is_space : ℕ → Bool
is_space c = (leb 9 c && leb c 13) || c == b' '

unfoldable pub skip_spaces : Text → Text
skip_spaces [] = []
skip_spaces (c ∷ s) = let rest = skip_spaces s in if is_space c then rest else c ∷ s

-- Digits with single underscores between them, behind the value `acc`; `after` says that the
-- character before was a digit.
unfoldable pub read_digits : ℕ → Bool → Text → Option ℕ
read_digits acc after [] = if after then some acc else none
read_digits acc after (c ∷ s) =
    let digit = read_digits (acc * 10 + (c - b'0')) true s in
    let skip = read_digits acc false s in
    if is_digit c then digit else if after && c == b'_' then skip else none

abbrev pub positive : Option ℕ → Option ℤ
positive none = none
positive (some n) = some (pos n)

abbrev pub negative : Option ℕ → Option ℤ
negative none = none
negative (some n) = some (neg n)

abbrev pub read_signed : Text → Option ℤ
read_signed [] = none
read_signed (c ∷ s) =
    if c == b'-'
    then negative (read_digits 0 false s)
    else if c == b'+'
    then positive (read_digits 0 false s)
    else positive (read_digits 0 false (c ∷ s))

abbrev pub to_ascii : Runtime → ℕ → ℕ
to_ascii run c = if ltb c 128 then c else run.wide_ascii c

-- int(text): spaces around, a sign, digits; `none` is ValueError
unfoldable pub int_of_text : Runtime → Text → Option ℤ
unfolding skip_spaces read_digits
int_of_text run t =
    read_signed (skip_spaces (reverse (skip_spaces (reverse (map (to_ascii run) t)))))
