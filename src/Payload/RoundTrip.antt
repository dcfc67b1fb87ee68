-- ===== src/Payload/RoundTrip.antt =====
-- What a listener reads out of a payload.
use micropython_systemd.Prelude.{
  ℕ, ◌≡◌, ◌≢◌, refl, sym, ap, ap₂, ◌∙◌, false, List, [], ◌∷◌, ◌++◌, arith, Text, Bytes, elem, All,
  Lacks, map, append_assoc, All-append, ℤ, flat_map, Bool-cases, inl, inr,
}
use micropython_systemd.Errors.{Result, ok, err, value_error, newline, ◌>>=◌, >>=-eq-ok}
use micropython_systemd.Utf8.{Chars, to_text}
use micropython_systemd.Utf8.RoundTrip.{decode-encode}
use micropython_systemd.Text.{Runtime, upper, strip, split, sorted}
use micropython_systemd.Datagram.{lines, lines_of, Mapping}
use micropython_systemd.Datagram.Lines.{lines_of-strip, lines_of-join, lines_of-Lacks}
use micropython_systemd.Payload.{
  Fields, keys, get_item, format_value, check_name, keep_line, state_lines, field_line, field_lines,
  finish, build_payload,
}
use micropython_systemd.Payload.Names.{IsNameChar, IsName, check_name_iff}

-- The texts of raw states.
abbrev pub texts : List Chars → Result (List Text)
texts [] = ok []
texts (s ∷ states) = do t ← to_text s; ts ← texts states; ok (t ∷ ts)

-- The assignments of a dictionary, for the given keys: upper case names and printed values.
abbrev pub assignments : Runtime → Fields → List Text → Result Mapping
assignments run f [] = ok []
assignments run f (name ∷ names) = do
  v ← get_item f name
  value ← format_value v
  rest ← assignments run f names
  ok ((upper run name, value) ∷ rest)

abbrev pub render : Text × Text → Text
render (name, value) = name ++ b'=' ∷ value

lines_of-keep_line :
    (t : Text) (ls : List Text)
    → flat_map lines_of (keep_line t ls) ≡ lines_of t ++ flat_map lines_of ls
unfolding flat_map split
lines_of-keep_line [] ls = refl
lines_of-keep_line (c ∷ t) ls = refl

lines_of-state_lines :
    (states : List Chars) (ls : List Text)
    → state_lines states ≡ ok ls
    → (ts : List Text) × (texts states ≡ ok ts) × (flat_map lines_of ls ≡ flat_map lines_of ts)
unfolding state_lines flat_map
lines_of-state_lines [] ls h = ([], refl, let e : ls ≡ [] = cc h in rw e refl)
lines_of-state_lines (s ∷ states) ls h =
    let (t, ht, h₁) = >>=-eq-ok (to_text s) _ {b = ls} h in
    let (ls', hl, h₂) = >>=-eq-ok (state_lines states) _ {b = ls} h₁ in
    let (ts, hts, e) = lines_of-state_lines states ls' hl in
    let split_at : ls ≡ keep_line (strip b'\n' t) ls' = cc h₂ in
    (
      t ∷ ts,
      rw (ht, hts) refl,
      rw (split_at, lines_of-keep_line (strip b'\n' t) ls') (ap₂ ◌++◌ (lines_of-strip t) e),
    )

-- The name is a field name and the value has no newline.
abbrev pub IsAssignment : Text × Text → Type 0
IsAssignment (name, value) = IsName name × Lacks b'\n' value

elem-Lacks : (c : ℕ) (s : Text) → elem c s ≡ false → Lacks c s
elem-Lacks c [] h = tt
elem-Lacks c (x ∷ s) h = (ground arith, elem-Lacks c s (ground arith))

field_line-render :
    (run : Runtime) (f : Fields) (name l : Text)
    → field_line run f name ≡ ok l
    → (value : Text) × ((get_item f name >>= format_value) ≡ ok value)
      × (l ≡ render (upper run name, value))
      × IsAssignment (upper run name, value)
unfolding field_line
field_line-render run f name l h =
    let (u, hu, h₁) = >>=-eq-ok (check_name run name) _ {b = l} h in
    let (v, hv, h₂) = >>=-eq-ok (get_item f name) _ {b = l} h₁ in
    let (value, hval, h₃) = >>=-eq-ok (format_value v) _ {b = l} h₂ in
    let (e, is_name) = (check_name_iff run name u).0 hu in
    elim (Bool-cases (elem b'\n' value)) [
      | inl p ↦ absurd (fail (rw p at h₃))
      | inr p ↦
          (value, rw hv hval, done u value e (rw p at h₃), (is_name, elem-Lacks b'\n' value p))
    ]
  where
    fail : ◌≡◌ {A = Result Text} (err (value_error newline)) (ok l) → ⊥
    fail q = cc

    done :
        (u value : Text)
        → u ≡ upper run name
        → ◌≡◌ {A = Result Text} (ok (u ++ b'=' ∷ value)) (ok l)
        → l ≡ render (upper run name, value)
    done u value e q = cc (q, e)

field_lines-render :
    (run : Runtime) (f : Fields) (names ls : List Text)
    → field_lines run f names ≡ ok ls
    → (ps : Mapping) × (assignments run f names ≡ ok ps)
      × (ls ≡ map render ps)
      × All IsAssignment ps
unfolding field_lines
field_lines-render run f [] ls h = ([], refl, cc h, tt)
field_lines-render run f (name ∷ names) ls h =
    let (l, hl, h₁) = >>=-eq-ok (field_line run f name) _ {b = ls} h in
    let (ls', hls, h₂) = >>=-eq-ok (field_lines run f names) _ {b = ls} h₁ in
    let (value, hv, e, good) = field_line-render run f name l hl in
    let (ps, hps, es, all_good) = field_lines-render run f names ls' hls in
    let (v, hg, hf) = >>=-eq-ok (get_item f name) format_value {b = value} hv in
    ((upper run name, value) ∷ ps, rw (hg, hf, hps) refl, cc (h₂, e, es), (good, all_good))

flat_map-append :
    (xs ys : List Text)
    → flat_map lines_of (xs ++ ys) ≡ flat_map lines_of xs ++ flat_map lines_of ys
unfolding flat_map
flat_map-append [] ys = refl
flat_map-append (x ∷ xs) ys = rw (flat_map-append xs ys) (sym (append_assoc (lines_of x) _ _))

-- A name holds neither a newline nor an equals sign.
pub IsName-Lacks : (s : Text) → All IsNameChar s → Lacks b'\n' s × Lacks b'=' s
IsName-Lacks [] h = (tt, tt)
IsName-Lacks (c ∷ s) (hc, h) =
    let (a, b) = IsName-Lacks s h in ((ground arith, a), (ground arith, b))

lines_of-render : (p : Text × Text) → IsAssignment p → lines_of (render p) ≡ render p ∷ []
lines_of-render ([], value) h = absurd h.0
lines_of-render (c ∷ s, value) (is_name, lacks) =
    let (free, _) = IsName-Lacks (c ∷ s) is_name.1 in
    lines_of-Lacks c _ (free.0, All-append _ s (b'=' ∷ value) free.1 (eq_ne_newline, lacks))
  where
    eq_ne_newline : ◌≢◌ {A = ℕ} b'=' b'\n'
    eq_ne_newline = omega arith

lines_of-rendered :
    (ps : Mapping) → All IsAssignment ps → flat_map lines_of (map render ps) ≡ map render ps
unfolding flat_map
lines_of-rendered [] h = refl
lines_of-rendered (p ∷ ps) h = rw (lines_of-render p h.0, lines_of-rendered ps h.1) refl

finish-lines :
    (ls : List Text) {b : Bytes} (fds : List ℤ)
    → finish ls ≡ ok b
    → lines (record { contents = b; fds = fds }) ≡ ok (flat_map lines_of ls)
unfolding lines
finish-lines [] fds h = cc
finish-lines (l ∷ ls) fds h = rw (decode-encode _ h) (ap ok (lines_of-join (l ∷ ls)))

module _ (run : Runtime) (states : List Chars) (f : Fields) {b : Bytes} (fds : List ℤ)
    (sent : build_payload run states f ≡ ok b) where
  -- The lines that a listener reads out of a payload are the lines of the raw states that are not
  -- empty, in order, and behind them one line NAME=value for each field, by sorted key, and
  -- nothing else; each name is a field name and no value has a newline.
  pub lines-build_payload :
      (ts : List Text) × (ps : Mapping) × (texts states ≡ ok ts)
      × (assignments run f (sorted (keys f)) ≡ ok ps)
      × All IsAssignment ps
      × (lines (record { contents = b; fds = fds }) ≡ ok (flat_map lines_of ts ++ map render ps))
  unfolding build_payload
  lines-build_payload =
      let names = sorted (keys f) in
      let (rl, hr, h₁) = >>=-eq-ok (state_lines states) _ {b = b} sent in
      let (ls, hl, h₂) = >>=-eq-ok (field_lines run f names) (λ x. finish (rl ++ x)) {b = b} h₁ in
      let (ts, hts, e) = lines_of-state_lines states rl hr in
      let (ps, hps, es, good) = field_lines-render run f names ls hl in
      let flat =
        flat_map-append rl ls
        ∙ ap₂ ◌++◌ e (ap (flat_map lines_of) es ∙ lines_of-rendered ps good) in
      (ts, ps, hts, hps, good, finish-lines (rl ++ ls) fds h₂ ∙ ap ok flat)
