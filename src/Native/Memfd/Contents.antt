-- ===== src/Native/Memfd/Contents.antt =====
-- What the memfd holds.
use native.Mathlib.Numerals.{unary_clauses}
use micropython_systemd.Prelude.{
  ℕ, zero, suc, ◌+◌, ◌≤◌, ◌≡◌, ◌≢◌, refl, sym, ap, ◌∙◌, arith, true, false, Bool-cases, inl, inr,
  [], ◌∷◌, ◌++◌, Option, none, some, Bytes, length, take, drop, ℤ, pos, negsuc, to_ℕ, is_negative,
  append_assoc, append-nil, eq_ℤ, eq_ℤ-refl, if◌then◌else◌,
}
use micropython_systemd.Errors.{Result, ok, err, os_error}
use micropython_systemd.World.{World, Libc, Call, Reply, Trace, record_call, write}
use micropython_systemd.Native.Memfd.{write_all}

-- The bytes that the kernel took for a file by one call of write, and by all of a trace, in order.
abbrev pub taken : ℤ → Call → Reply → Bytes
taken fd (write to view) r = if eq_ℤ to fd then take (to_ℕ r.ret) view else []
taken fd c r = []

unfoldable pub file : ℤ → Trace → Bytes
file fd [] = []
file fd (e ∷ t) = file fd t ++ taken fd e.call e.reply

pub take-drop : (n : ℕ) (v : Bytes) → take n v ++ drop n v ≡ v
take-drop zero v = refl
take-drop (suc n) [] = refl
take-drop (suc n) (b ∷ v) = ap (λ r. b ∷ r) (take-drop n v)

drop-drop : (n m : ℕ) (v : Bytes) → drop m (drop n v) ≡ drop (n + m) v
drop-drop zero m v = let e : m ≡ 0 + m = omega arith in ap (λ (k : ℕ). drop k v) e
drop-drop (suc n) zero [] = simp unary_clauses refl
drop-drop (suc n) (suc m) [] = simp unary_clauses refl
drop-drop (suc n) m (b ∷ v) =
    let e : suc (n + m) ≡ suc n + m = omega arith in
    drop-drop n m v ∙ ap (λ (k : ℕ). drop k (b ∷ v)) e

take-take : (n m : ℕ) (v : Bytes) → take n v ++ take m (drop n v) ≡ take (n + m) v
take-take zero m v = let e : m ≡ 0 + m = omega arith in ap (λ (k : ℕ). take k v) e
take-take (suc n) zero [] = simp unary_clauses refl
take-take (suc n) (suc m) [] = simp unary_clauses refl
take-take (suc n) m (b ∷ v) =
    let e : suc (n + m) ≡ suc n + m = omega arith in
    ap (λ r. b ∷ r) (take-take n m v) ∙ ap (λ (k : ℕ). take k (b ∷ v)) e

length-drop_le : (n : ℕ) (v : Bytes) → length (drop n v) ≤ length v
length-drop_le zero v = omega arith
length-drop_le (suc n) [] = omega arith
length-drop_le (suc n) (b ∷ v) = omega (arith, length-drop_le n v)

length-drop_some :
    (b : ℕ) (view : Bytes) (z : ℤ)
    → z ≢ pos 0
    → is_negative z ≡ false
    → length (drop (to_ℕ z) (b ∷ view)) ≤ length view
length-drop_some b view (pos zero) some_left h = absurd (some_left refl)
length-drop_some b view (pos (suc n)) some_left h = length-drop_le n view
length-drop_some b view (negsuc n) some_left h = cc

module _ (libc : Libc) (fd : ℤ) where
  -- How the loop can end: with every byte written, in order, or with the OSError of a write that
  -- failed with the bytes before it written.
  abbrev pub Ended : Bytes → World → Result (Option (Unit {0})) → World → Type 0
  Ended view w (ok (some u)) v = file fd v.trace ≡ file fd w.trace ++ view
  Ended view w (ok none) v = ⊥
  Ended view w (err e) v =
      (m : ℕ) × (t : Trace) × (reply : Reply) × (v.trace
        ≡ record { call = write fd (drop m view); reply = reply } ∷ t)
      × (is_negative reply.ret ≡ true)
      × (e ≡ os_error reply.errno)
      × (file fd t ≡ file fd w.trace ++ take m view)

  -- One round before the others.
  Ended-later :
      (n : ℕ) (view : Bytes) (w u : World) (r : Result (Option (Unit {0}))) (v : World)
      → file fd u.trace ≡ file fd w.trace ++ take n view
      → Ended (drop n view) u r v
      → Ended view w r v
  Ended-later n view w u (ok (some x)) v first later =
      later
      ∙ ap (λ z. z ++ drop n view) first
      ∙ append_assoc (file fd w.trace) (take n view) (drop n view)
      ∙ ap (λ z. file fd w.trace ++ z) (take-drop n view)
  Ended-later n view w u (ok none) v first later = later
  Ended-later n view w u (err e) v first (m, t, reply, last, failed, errno, before) = (
    n + m,
    t,
    reply,
    last ∙ ap (λ z. record { call = write fd z; reply = reply } ∷ t) (drop-drop n m view),
    failed,
    errno,
    before
        ∙ ap (λ z. z ++ take m (drop n view)) first
        ∙ append_assoc (file fd w.trace) (take n view) (take m (drop n view))
        ∙ ap (λ z. file fd w.trace ++ z) (take-take n m view),
  )

  module _
      (progress : (t : Trace) (b : ℕ) (view : Bytes)
        → (libc t (write fd (b ∷ view))).ret ≢ pos 0) where
    -- The loop is not cut short.
    pub write_all-ends :
        (fuel : ℕ) (view : Bytes) (w : World)
        → length view ≤ fuel
        → (write_all libc fuel fd view w).0 ≢ ok none
    unfolding write_all
    write_all-ends fuel [] w enough = λ h. cc
    write_all-ends zero (b ∷ view) w enough = (omega arith)
    write_all-ends (suc fuel) (b ∷ view) w enough =
        let c = write fd (b ∷ view) in
        answered (libc w.trace c).ret refl
          (λ m v. write_all-ends fuel (drop m view) v (omega (arith, length-drop_le m view)))
      where
        answered :
            (z : ℤ)
            → (libc w.trace (write fd (b ∷ view))).ret ≡ z
            → ((m : ℕ) (v : World) → (write_all libc fuel fd (drop m view) v).0 ≢ ok none)
            → (write_all libc (suc fuel) fd (b ∷ view) w).0 ≢ ok none
        answered (pos zero) e ih = absurd (progress w.trace b view e)
        answered (pos (suc m)) e ih = rw e (ih m _)
        answered (negsuc k) e ih = rw e (λ h. cc)

    -- If write never returns 0 for a buffer that is not empty, as much fuel as there are bytes is
    -- enough: the loop ends, with every byte written once and in order, however write cuts them up,
    -- or with the OSError of a write that failed, the last call, with the bytes in front of those
    -- that it was given written.
    pub write_all-Ended :
        (fuel : ℕ) (view : Bytes) (w : World)
        → length view ≤ fuel
        → Ended view w (write_all libc fuel fd view w).0 (write_all libc fuel fd view w).1
    unfolding write_all file
    write_all-Ended fuel [] w enough = sym (append-nil (file fd w.trace))
    write_all-Ended zero (b ∷ view) w enough = (omega arith)
    write_all-Ended (suc fuel) (b ∷ view) w enough =
        let c = write fd (b ∷ view) in
        let reply = libc w.trace c in
        let n = to_ℕ reply.ret in
        let u = record_call libc c w in
        elim (Bool-cases (is_negative reply.ret)) [
          | inl p ↦ rw p (0, w.trace, reply, refl, p, refl, sym (append-nil (file fd w.trace)))
          | inr p ↦
              let less = length-drop_some b view reply.ret (progress w.trace b view) p in
              rw p (
                Ended-later n (b ∷ view) w u _ _ (rw (eq_ℤ-refl fd) refl)
                  (write_all-Ended fuel (drop n (b ∷ view)) u (omega (arith, less))))
        ]
