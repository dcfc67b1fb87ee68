-- ===== src/Cpython/Signals/Keys.antt =====
-- The keys of the dictionary in which the event loop keeps its signal handlers.
use micropython_systemd.Prelude.{
  ◌≡◌, inl, inr, refl, ap, ◌∙◌, false, Bool-cases, List, [], ◌∷◌, ℤ, eq_ℤ, eq_ℤ-refl, arith,
}
use micropython_systemd.Cpython.Signals.{has, add_key, remove_key}

-- The keys that are left when some are removed.
abbrev pub without : List ℤ → List ℤ → List ℤ
without [] hs = hs
without (n ∷ ns) hs = without ns (remove_key n hs)

remove_key-remove_key :
    (a b : ℤ) (hs : List ℤ) → remove_key a (remove_key b hs) ≡ remove_key b (remove_key a hs)
remove_key-remove_key a b [] = refl
remove_key-remove_key a b (m ∷ hs) =
    let ih = remove_key-remove_key a b hs in
    elim (Bool-cases (eq_ℤ a m)) [
      | inl p ↦ elim (Bool-cases (eq_ℤ b m)) [ inl q ↦ rw (p, q) ih | inr q ↦ rw (p, q, p) ih ]
      | inr p ↦ elim (Bool-cases (eq_ℤ b m)) [
        | inl q ↦ rw (p, q) ih
        | inr q ↦ rw (p, q, p) (ap (λ xs. m ∷ xs) ih)
      ]
    ]

pub remove_key-absent : (n : ℤ) (hs : List ℤ) → has n hs ≡ false → remove_key n hs ≡ hs
remove_key-absent n [] h = refl
remove_key-absent n (m ∷ hs) h = ground (arith, remove_key-absent n hs)

pub remove_key-add_key : (n : ℤ) (hs : List ℤ) → remove_key n (add_key n hs) ≡ remove_key n hs
remove_key-add_key n hs = elim (Bool-cases (has n hs)) [
  | inl p ↦ rw p refl
  | inr p ↦ rw (p, eq_ℤ-refl n) refl
]

pub without-remove_key :
    (ns : List ℤ) (n : ℤ) (hs : List ℤ)
    → without ns (remove_key n hs) ≡ remove_key n (without ns hs)
without-remove_key [] n hs = refl
without-remove_key (m ∷ ns) n hs =
    ap (without ns) (remove_key-remove_key m n hs) ∙ without-remove_key ns n (remove_key m hs)
