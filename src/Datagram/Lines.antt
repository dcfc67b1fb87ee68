-- ===== src/Datagram/Lines.antt =====
-- The lines that a listener sees in a text: nothing is lost or added by stripping and joining.
use micropython_systemd.Prelude.{
  ℕ, zero, suc, ◌≡◌, refl, sym, ap, List, [], ◌∷◌, ◌++◌, append-nil, append_assoc, arith, Text,
  ◌==◌, Lacks, replicate, flat_map, Bool-cases, inl, inr, ◌∙◌,
}
use micropython_systemd.Datagram.{nonempty, lines_of}
use micropython_systemd.Text.Lines.{split-append, split-Lacks}
use micropython_systemd.Text.{lstrip, rstrip, strip, rstrip_onto, split, join}

nonempty-append : (ps qs : List Text) → nonempty (ps ++ qs) ≡ nonempty ps ++ nonempty qs
nonempty-append [] qs = refl
nonempty-append ([] ∷ ps) qs = nonempty-append ps qs
nonempty-append ((c ∷ p) ∷ ps) qs = ap (λ r. (c ∷ p) ∷ r) (nonempty-append ps qs)

pub lines_of-append : (a b : Text) → lines_of (a ++ b'\n' ∷ b) ≡ lines_of a ++ lines_of b
lines_of-append a b = rw (split-append b'\n' a b) (nonempty-append (split b'\n' a) (split b'\n' b))

lines_of-lstrip : (t : Text) → lines_of (lstrip b'\n' t) ≡ lines_of t
unfolding lstrip split
lines_of-lstrip [] = refl
lines_of-lstrip (c ∷ t) = ground (arith, lines_of-lstrip t)

rstrip_onto-append :
    (c x n : ℕ) (r : Text)
    → (m : ℕ) × (x ∷ (r ++ replicate n c) ≡ rstrip_onto c x r ++ replicate m c)
rstrip_onto-append c x n [] = elim (Bool-cases (x == c)) [
  | inl same ↦ (suc n, let e : x ≡ c = ground arith in rw (same, e) refl)
  | inr other ↦ (n, rw other refl)
]
rstrip_onto-append c x n (y ∷ r) = (n, refl)

-- A text is what `rstrip` leaves of it and the characters that went.
rstrip-append : (c : ℕ) (t : Text) → (n : ℕ) × (t ≡ rstrip c t ++ replicate n c)
unfolding rstrip
rstrip-append c [] = (0, refl)
rstrip-append c (x ∷ t) =
    let (n, e) = rstrip-append c t in
    let (m, e') = rstrip_onto-append c x n (rstrip c t) in (m, ap (λ z. x ∷ z) e ∙ e')

lines_of-replicate : (n : ℕ) (t : Text) → lines_of (t ++ replicate n b'\n') ≡ lines_of t
lines_of-replicate zero t = rw append-nil
lines_of-replicate (suc n) t =
    rw (lines_of-append t (replicate n b'\n'), lines_of-replicate n [])
      (unfold split in append-nil (lines_of t))

lines_of-rstrip : (t : Text) → lines_of (rstrip b'\n' t) ≡ lines_of t
lines_of-rstrip t =
    let (n, e) = rstrip-append b'\n' t in
    sym (ap lines_of e ∙ lines_of-replicate n (rstrip b'\n' t))

-- Stripping newlines at both ends changes no line that is not empty.
pub lines_of-strip : (t : Text) → lines_of (strip b'\n' t) ≡ lines_of t
unfolding strip
lines_of-strip t = lines_of-rstrip (lstrip b'\n' t) ∙ lines_of-lstrip t

-- The lines of joined texts are the lines of each.
pub lines_of-join : (ts : List Text) → lines_of (join b'\n' ts ++ b'\n' ∷ []) ≡ flat_map lines_of ts
unfolding join flat_map split
lines_of-join [] = refl
lines_of-join (t ∷ []) = lines_of-append t []
lines_of-join (t ∷ u ∷ ts) = rw (append_assoc t, lines_of-append t, lines_of-join (u ∷ ts)) refl

-- A line without a newline is its own line.
pub lines_of-Lacks : (c : ℕ) (t : Text) → Lacks b'\n' (c ∷ t) → lines_of (c ∷ t) ≡ (c ∷ t) ∷ []
lines_of-Lacks c t h = rw (split-Lacks b'\n' (c ∷ t) h) refl
