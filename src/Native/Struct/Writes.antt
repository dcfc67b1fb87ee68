-- ===== src/Native/Struct/Writes.antt =====
-- Writing into a buffer replaces a part of it.
use micropython_systemd.Prelude.{
  ℕ, zero, suc, ◌+◌, ◌≡◌, refl, ap, ◌∙◌, [], ◌∷◌, ◌++◌, arith, Bytes, length, take, drop, replicate,
  take_all, drop_all,
}
use micropython_systemd.Native.Struct.{write_at}

drop-append : (a x : Bytes) (n k : ℕ) → n ≡ length a + k → drop n (a ++ x) ≡ drop k x
drop-append [] x n k h = let e : n ≡ k = omega arith in rw e refl
drop-append (c ∷ a) x zero k h = absurd (omega arith)
drop-append (c ∷ a) x (suc n) k h = drop-append a x n k (omega arith)

-- The bytes `b` between `a` and `c` are replaced by as many others.
pub write_at_middle :
    (a b c s : Bytes) (offset : ℕ)
    → offset ≡ length a
    → length s ≡ length b
    → write_at (a ++ (b ++ c)) offset s ≡ a ++ (s ++ c)
unfolding write_at
write_at_middle a b c s offset ho hs =
    let front : take offset (a ++ (b ++ c)) ≡ a = rw ho (take_all a (b ++ c)) in
    let back : drop (offset + length s) (a ++ (b ++ c)) ≡ c =
      drop-append a (b ++ c) (offset + length s) (length b) (omega arith) ∙ drop_all b c in
    rw (front, back) refl

pub replicate-add : (n m : ℕ) (v : ℕ) → replicate (n + m) v ≡ replicate n v ++ replicate m v
replicate-add zero m v = let e : zero + m ≡ m = omega arith in rw e refl
replicate-add (suc n) m v =
    let e : suc n + m ≡ suc (n + m) = omega arith in rw e (ap (λ z. v ∷ z) (replicate-add n m v))

-- Dropping what stands in front.
pub drop_front : (a x : Bytes) (n : ℕ) → n ≡ length a → drop n (a ++ x) ≡ x
drop_front a x n h = rw h (drop_all a x)
