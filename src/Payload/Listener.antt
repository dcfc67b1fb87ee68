-- ===== src/Payload/Listener.antt =====
-- The dictionary that a listener makes of a payload of fields.
use micropython_systemd.Prelude.{
  ◌≡◌, refl, ap, List, [], ◌∷◌, ◌++◌, arith, Text, Bytes, All, Lacks, map, ℤ, flat_map,
}
use micropython_systemd.Errors.{ok}
use micropython_systemd.Text.{Runtime, sorted}
use micropython_systemd.Datagram.{Datagram, lines, lines_of, Mapping, put, parse_line, parse_lines}
use micropython_systemd.Datagram
use micropython_systemd.Payload.{Fields, keys, build_payload}
use micropython_systemd.Payload.Names.{IsName-All}
use micropython_systemd.Payload.RoundTrip.{
  assignments, render, IsAssignment, IsName-Lacks, lines-build_payload,
}

parse_line-Lacks :
    (name value : Text) → Lacks b'=' name → parse_line (render (name, value)) ≡ (name, value)
unfolding parse_line
parse_line-Lacks [] value h = refl
parse_line-Lacks (c ∷ name) value h = ground (arith, parse_line-Lacks name value h.1)

-- The assignments, put into a dictionary one after the other.
abbrev pub put_all : Mapping → Mapping → Mapping
put_all [] parsed = parsed
put_all ((name, value) ∷ ps) parsed = put_all ps (put name value parsed)

parse_lines-rendered :
    (ps parsed : Mapping)
    → All IsAssignment ps
    → parse_lines (map render ps) parsed ≡ put_all ps parsed
unfolding parse_lines
parse_lines-rendered [] parsed h = refl
parse_lines-rendered ((name, value) ∷ ps) parsed h =
    let (_, free) = IsName-Lacks name (IsName-All name h.0.0) in
    rw (parse_line-Lacks name value free, parse_lines)
      (parse_lines-rendered ps (put name value parsed) h.1)

-- Of a payload made of fields alone the listener's dictionary is that of the assignments: each
-- upper case name with its printed value, and the last of two keys with one upper case.
pub fields-build_payload :
    (run : Runtime) (f : Fields) {b : Bytes} (fds : List ℤ)
    → build_payload run [] f ≡ ok b
    → (ps : Mapping) × (assignments run f (sorted (keys f)) ≡ ok ps)
      × (Datagram.fields (record { contents = b; fds = fds }) ≡ ok (put_all ps []))
unfolding Datagram.fields flat_map
fields-build_payload run f {b} fds sent =
    let (ts, ps, hts, hps, good, e) = lines-build_payload run [] f fds sent in
    (ps, hps, only_fields ts ps hts good e)
  where
    only_fields :
        (ts : List Text) (ps : Mapping)
        → ok [] ≡ ok ts
        → All IsAssignment ps
        → lines (record { contents = b; fds = fds }) ≡ ok (flat_map lines_of ts ++ map render ps)
        → Datagram.fields (record { contents = b; fds = fds }) ≡ ok (put_all ps [])
    only_fields [] ps h good e = rw e (ap ok (parse_lines-rendered ps [] good))
    only_fields (t ∷ ts) ps h good e = cc h
