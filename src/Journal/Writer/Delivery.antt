-- ===== src/Journal/Writer/Delivery.antt =====
-- What becomes of an entry that goes as a datagram.
use micropython_systemd.Prelude.{
  ℕ, Bool, true, false, ◌≡◌, ◌≢◌, ◌⊎◌, inl, inr, refl, Option, some, Bytes, ℤ, is_negative,
  if◌then◌else◌, Bool-cases, arith,
}
use micropython_systemd.Errors.{Result, ok, err, os_error}
use micropython_systemd.World.{World, Libc, Call, Reply, record_call, sendto}
use micropython_systemd.Native.Struct.{Abi}
use micropython_systemd.Native.Sockets.{send, msg_nosignal}
use micropython_systemd.Journal.Writer.{State, send_raw, is_too_large}

-- What the answer to a datagram is worth where the memfd is not called for.
abbrev pub delivered : Reply → Result (Option Bool)
delivered r = if is_negative r.ret then err (os_error r.errno) else ok (some true)

-- The writer with its socket open.
abbrev pub connected : Bytes → ℤ → Bytes → ℕ → World → State
connected sun fd name namelen w = record {
  writer = record { sun_path = sun; sock = some (record { fd = fd; peer = some (name, namelen) }) };
  world = w;
}

module _ (abi : Abi) (libc : Libc) (has_memfd : Bool) (fuel : ℕ) (sun : Bytes) (fd : ℤ)
    (name : Bytes) (namelen : ℕ) (body : Bytes) (w : World) where
  abbrev pub entry_call : Call
  entry_call = sendto fd body msg_nosignal name namelen

  -- On a writer whose socket is open, unless sendto fails with EMSGSIZE or ENOBUFS, send_raw makes
  -- that one call with the whole body and no other, keeps the socket, and returns True if the call
  -- succeeded and raises its OSError if it failed.
  pub send_raw-delivered :
      (is_negative (libc w.trace entry_call).ret ≡ false)
        ⊎ (((libc w.trace entry_call).errno ≢ 90) × ((libc w.trace entry_call).errno ≢ 105))
      → send_raw abi libc has_memfd fuel body (connected sun fd name namelen w) ≡ (
        delivered (libc w.trace entry_call),
        connected sun fd name namelen (record_call libc entry_call w),
      )
  unfolding send_raw send
  send_raw-delivered (inl taken) = rw taken refl
  send_raw-delivered (inr (too_long, no_buffers)) =
      elim (Bool-cases (is_negative (libc w.trace entry_call).ret)) [
        | inl p ↦
            let other : is_too_large (os_error (libc w.trace entry_call).errno) ≡ false =
              ground arith in
            rw (p, other) refl
        | inr p ↦ rw p refl
      ]
