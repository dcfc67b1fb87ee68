-- ===== src/Tests/Sockets.antt =====
-- Runs of _address.py and of the control buffer of _impl_mp.py.
use micropython_systemd.Prelude.{
  ◌≡◌, ◌↔◌, inr, refl, false, some, replicate, List, [], ◌∷◌, ◌++◌, arith, Text, Bytes, codes, ℤ,
  pos,
}
use micropython_systemd.Errors.{ok}
use micropython_systemd.Utf8
use micropython_systemd.Utf8.{text}
use micropython_systemd.Utf8.RoundTrip.{decode-encode}
use micropython_systemd.Address.{encode_unix_address}
use micropython_systemd.Address.Laws.{Denotes, encode_unix_address_iff}
use micropython_systemd.Errors.{Result, err}
use micropython_systemd.Native.Struct.{Abi, pack_word}
use micropython_systemd.Native.Ancillary.{scm_rights, parse_scm_rights}
use micropython_systemd.Native.Ancillary.RoundTrip.{parse_scm_rights-scm_rights}
use micropython_systemd.Native.Message.{Buffer, msghdr}
use micropython_systemd.Native.Message.Layout.{name_fields, control_fields, msghdr_layout}

abbrev run_notify : Text
run_notify = codes "/run/notify"

encode_unix_address_iff_example :
    (encode_unix_address (text run_notify) ≡ ok run_notify) ↔ Denotes run_notify run_notify
encode_unix_address_iff_example =
    encode_unix_address_iff (text run_notify) {b = run_notify} (unfold Utf8.encode in refl)
      run_notify

-- Decoding that shows nothing of what is not valid.
abbrev valid_or_empty : Result Text → Text
valid_or_empty (ok t) = t
valid_or_empty (err e) = []

abbrev replacing : Bytes → Text
replacing b = valid_or_empty (Utf8.decode b)

replacing-valid : (b : Bytes) (t : Text) → Utf8.decode b ≡ ok t → replacing b ≡ t
replacing-valid b t h = rw h refl

abbrev hidden : Text
hidden = codes "@hidden"

decode-encode_example : Utf8.decode (0xC3 ∷ 0xA9 ∷ []) ≡ ok (0xE9 ∷ [])
decode-encode_example = decode-encode (0xE9 ∷ []) (unfold Utf8.encode in refl)

abbrev wide : Abi
wide = record { word = 8; big_endian = false }

abbrev two_fds : List ℤ
two_fds = pos 3 ∷ pos 4 ∷ []

parse_scm_rights-scm_rights_example :
    parse_scm_rights wide (scm_rights wide two_fds ++ 1 ∷ 0 ∷ []) 24 ≡ two_fds
parse_scm_rights-scm_rights_example =
    parse_scm_rights-scm_rights wide two_fds (1 ∷ 0 ∷ []) 24 (inr refl) (omega arith)
      (omega arith, (omega arith, tt)) (omega arith)

abbrev path : Buffer
path = record { address = 4096; size = 8 }

abbrev control : Buffer
control = record { address = 8192; size = 24 }

msghdr_layout_example :
    msghdr wide (some path) 5000 (some control)
    ≡ name_fields wide (some path)
      ++ (pack_word wide 5000
          ++ (pack_word wide 1 ++ (control_fields wide (some control) ++ replicate 8 0)))
msghdr_layout_example = msghdr_layout wide (inr refl) (some path) 5000 (some control)
