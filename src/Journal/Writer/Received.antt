-- ===== src/Journal/Writer/Received.antt =====
-- What journald gets of the calls of a JournalWriter of mpsystemd/journal.py: an independent
-- reading of the trace, of what goes to the address of its socket. A datagram is one entry; an
-- empty message that carries one descriptor stands for the contents of its file, if that is sealed:
-- the bytes that write put there since memfd_create gave it. Any other message is refused.
pub mod Memfd
pub mod Socket
pub mod Entries
pub mod Decided
use micropython_systemd.Prelude.{
  ◌+◌, ◌==◌, ◌&&◌, not, ℕ, zero, suc, ◌≤◌, ◌≡◌, refl, sym, ap, ◌∙◌, arith, Bool, true, false,
  Bool-cases, inl, inr, List, [], ◌∷◌, ◌++◌, append_assoc, append-nil, Option, none, some, Bytes,
  codes, length, take, drop, ℤ, pos, is_negative, to_ℕ, eq_ℤ, eq_ℤ-refl, if◌then◌else◌,
}
use micropython_systemd.Errors.{Result, ok, err, Error}
use micropython_systemd.Exec.{◌>>=◌, >>=-outcome, handle}
use micropython_systemd.World.{
  World, M, Libc, Trace, Event, Call, Reply, Message, sendto, sendmsg, memfd_create, write, fcntl,
  lseek, close, call_ignored, record_call,
}
use micropython_systemd.Native.Sockets.Named.{is_addressed}
use micropython_systemd.Native.Struct.{Abi}
use micropython_systemd.Native.Struct.Laws.{IsInt}
use micropython_systemd.Native.Ancillary.{scm_rights, parse_scm_rights}
use micropython_systemd.Native.Memfd.{
  write_all, seal, fill, memfd_sealed, memfd_flags, memfd_seals, f_add_seals,
}
use micropython_systemd.Native.Memfd.Contents.{take-drop}

-- The contents of the file of a descriptor.
abbrev pub file_after : ℤ → Call → Reply → Bytes → Bytes
file_after fd (memfd_create name flags) r held = if eq_ℤ r.ret fd then [] else held
file_after fd (write to view) r held = if eq_ℤ to fd then held ++ take (to_ℕ r.ret) view else held
file_after fd c r held = held

unfoldable pub file_of : ℤ → Trace → Bytes
file_of fd [] = []
file_of fd (e ∷ t) = file_after fd e.call e.reply (file_of fd t)

-- All the seals are on the file: F_SEAL_SEAL, F_SEAL_SHRINK, F_SEAL_GROW and F_SEAL_WRITE.
abbrev pub all_seals : ℕ
all_seals = 1 + 2 + 4 + 8

abbrev pub sealed_after : ℤ → Call → Reply → Bool → Bool
sealed_after fd (memfd_create name flags) r held = if eq_ℤ r.ret fd then false else held
sealed_after fd (fcntl to command seals) r held =
    if eq_ℤ to fd && command == 1033 && seals == all_seals && not (is_negative r.ret)
    then true
    else held
sealed_after fd c r held = held

unfoldable pub is_sealed : ℤ → Trace → Bool
is_sealed fd [] = false
is_sealed fd (e ∷ t) = sealed_after fd e.call e.reply (is_sealed fd t)

-- The entry of a message, by its payload and the descriptors that it carries.
abbrev pub entry_in : Bytes → List ℤ → Trace → List Bytes
entry_in payload [] t = payload ∷ []
entry_in [] (fd ∷ []) t = if is_sealed fd t then file_of fd t ∷ [] else []
entry_in [] (fd ∷ g ∷ fds) t = []
entry_in (b ∷ payload) (fd ∷ fds) t = []

module _ (abi : Abi) (sun : Bytes) where
  abbrev pub added : Call → Reply → Trace → List Bytes → List Bytes
  added (sendto fd body flags name namelen) r t entries =
      if is_negative r.ret
      then entries
      else if is_addressed abi sun name namelen
      then entries ++ body ∷ []
      else entries
  added (sendmsg fd message flags) r t entries =
      if is_negative r.ret
      then entries
      else if is_addressed abi sun message.name message.namelen
      then entries
        ++ entry_in message.payload (parse_scm_rights abi message.control (length message.control))
            t
      else entries
  added c r t entries = entries

  -- The entries so far, in order.
  unfoldable pub received : Trace → List Bytes
  received [] = []
  received (e ∷ t) = added e.call e.reply t (received t)
