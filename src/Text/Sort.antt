-- ===== src/Text/Sort.antt =====
-- Sorting texts: the result does not depend on the order of the input.
use mathlib.Core.List.{Perm, Permᴰ}
use mathlib.Core.Logic.{∥∥₁_elim}
use micropython_systemd.Prelude.{◌≡◌, refl, ap, ap₂, true, false, List, [], ◌∷◌, arith, Text, ◌∙◌}
use micropython_systemd.Text.{le_text, insert_sorted, sorted}

le_text_antisym : (s t : Text) → le_text s t ≡ true → le_text t s ≡ true → s ≡ t
unfolding le_text
le_text_antisym [] [] h k = refl
le_text_antisym [] (y ∷ t) h k = cc
le_text_antisym (x ∷ s) [] h k = cc
le_text_antisym (x ∷ s) (y ∷ t) h k = ground (arith, le_text_antisym s t)

le_text_total : (s t : Text) → le_text s t ≡ false → le_text t s ≡ true
unfolding le_text
le_text_total [] t h = cc
le_text_total (x ∷ s) [] h = refl
le_text_total (x ∷ s) (y ∷ t) h = ground (arith, le_text_total s t)

le_text_trans : (s t u : Text) → le_text s t ≡ true → le_text t u ≡ true → le_text s u ≡ true
unfolding le_text
le_text_trans [] t u h k = refl
le_text_trans (x ∷ s) [] u h k = cc
le_text_trans (x ∷ s) (y ∷ t) [] h k = cc
le_text_trans (x ∷ s) (y ∷ t) (z ∷ u) h k = ground (arith, le_text_trans s t u)

insert_sorted_swap :
    (s t : Text) (us : List Text)
    → insert_sorted s (insert_sorted t us) ≡ insert_sorted t (insert_sorted s us)
unfolding insert_sorted
insert_sorted_swap s t [] = ground (arith, le_text_total s t, le_text_antisym s t)
insert_sorted_swap s t (u ∷ us) = ground (
  arith,
  le_text_total s t,
  le_text_antisym s t,
  le_text_trans s t u,
  le_text_trans t s u,
  insert_sorted_swap s t us,
)

sorted-Permᴰ : {ts us : List Text} → Permᴰ ts us → sorted ts ≡ sorted us
unfolding sorted
sorted-Permᴰ Permᴰ.nil = refl
sorted-Permᴰ (Permᴰ.cons e p) = ap₂ insert_sorted e (sorted-Permᴰ p)
sorted-Permᴰ (Permᴰ.swap {a} {b} {l = l} e f) =
    insert_sorted_swap a b (sorted l) ∙ ap₂ insert_sorted f (ap (λ z. insert_sorted z (sorted l)) e)
sorted-Permᴰ (Permᴰ.trans p q) = sorted-Permᴰ p ∙ sorted-Permᴰ q

texts_set : IsSet (List Text)
texts_set = hlevel

-- Two orders of the same texts are sorted alike.
pub sorted-perm : {ts us : List Text} → Perm ts us → sorted ts ≡ sorted us
sorted-perm p = ∥∥₁_elim p (texts_set _ _) sorted-Permᴰ
