-- ===== src/Text/Lines.antt =====
-- Splitting and joining at a separator, and stripping.
use micropython_systemd.Prelude.{
  ℕ, ◌≡◌, refl, List, [], ◌∷◌, ◌++◌, arith, Text, ◌==◌, if◌then◌else◌, All, Lacks, ==-refl,
}
use micropython_systemd.Text.{onto_first, split, join}

module _ (sep : ℕ) where
  split_cons : (s : Text) → (p : Text) × (ps : List Text) × (split sep s ≡ p ∷ ps)
  unfolding split
  split_cons [] = ([], [], refl)
  split_cons (c ∷ s) =
      let (p, ps, e) = split_cons s in
      (if c == sep then [] else c ∷ p, if c == sep then p ∷ ps else ps, ground arith)

  onto_first-append :
      (c : ℕ) (s : Text) (rest : List Text)
      → onto_first c (split sep s ++ rest) ≡ onto_first c (split sep s) ++ rest
  onto_first-append c s rest = let (p, ps, e) = split_cons s in rw e refl

  -- Splitting at a separator in the middle.
  pub split-append : (a b : Text) → split sep (a ++ sep ∷ b) ≡ split sep a ++ split sep b
  unfolding split
  split-append [] b = rw (==-refl sep) refl
  split-append (c ∷ a) b = ground (arith, split-append a b, onto_first-append c a (split sep b))

  pub split-Lacks : (p : Text) → Lacks sep p → split sep p ≡ p ∷ []
  unfolding split
  split-Lacks [] h = refl
  split-Lacks (c ∷ p) h = ground (arith, split-Lacks p h.1)

  -- Parts without the separator are found again behind a join.
  pub split-join :
      (p : Text) (ps : List Text)
      → All (Lacks sep) (p ∷ ps)
      → split sep (join sep (p ∷ ps)) ≡ p ∷ ps
  unfolding join
  split-join p [] h = split-Lacks p h.0
  split-join p (q ∷ ps) h = rw (split-append, split-Lacks p h.0, split-join q ps h.1)
