-- ===== src/Tests/Handing.antt =====
-- A run of fdstore of daemon.py, up to the listener that receives it.
use micropython_systemd.Prelude.{
  ◌≡◌, refl, true, none, some, List, [], ◌∷◌, ◌++◌, codes, pos, inr, arith,
}
use micropython_systemd.Errors.{ok}
use micropython_systemd.World.{Libc, Message, recvmsg, poll, sendmsg, record_call}
use micropython_systemd.Datagram
use micropython_systemd.Listener.{FakeNotifyListener, receive}
use micropython_systemd.Native.Ancillary.{scm_rights}
use micropython_systemd.Native.Receiving.RoundTrip.{delivery}
use micropython_systemd.Native.Sockets.{sockaddr_un, send_with_fds, msg_nosignal}
use micropython_systemd.Notifier.{State, at_path, fdstore, send_raw}
use micropython_systemd.Notifier.Log
use micropython_systemd.Notifier.Log.{Request, delivered, after_all, log}
use micropython_systemd.Notifier.Log.Requests.{delivered-after_all}
use micropython_systemd.Notifier.Sending.{holding}
use micropython_systemd.Notifier.Store.{stored, receive-fdstore}
use micropython_systemd.Payload
use micropython_systemd.Text
use micropython_systemd.Utf8
use micropython_systemd.Utf8.{raw}
use micropython_systemd.Tests.{plain, seven}
use micropython_systemd.Tests.Backends.{little}
use micropython_systemd.Tests.Listening.{before}

abbrev message : Message
message = record {
  name = (sockaddr_un little (codes "/n")).0;
  namelen = (sockaddr_un little (codes "/n")).1;
  payload = codes "FDNAME=db\nFDSTORE=1\n";
  control = scm_rights little (pos 5 ∷ pos 9 ∷ []);
}

abbrev receiving : Libc
receiving t (poll fd mask timeout) = record { ret = pos 1; errno = 0; out = 1 ∷ [] }
receiving t (recvmsg fd bufsize ctlsize flags) =
    delivery little bufsize ctlsize message.payload message.control
receiving t c = seven t c

abbrev roomy : FakeNotifyListener
roomy = record {
  address = codes "@test";
  max_fds = 2;
  bufsize = 64;
  sock = record { fd = pos 7; peer = none };
}

fdstore-message :
    fdstore plain little seven
      (pos 5 ∷ pos 9 ∷ [])
      (some (codes "db"))
      none
      (holding little seven (codes "/n") (pos 4) before)
    ≡ (
      ok true,
      holding little seven
          (codes "/n")
          (pos 4)
          (record_call seven (sendmsg (pos 4) message msg_nosignal) before),
    )
unfolding fdstore send_raw send_with_fds Payload.build_payload Payload.check_fdname
    Payload.check_name Payload.get_item Payload.format_value Text.sorted Text.upper Text.str_int
    Text.digits Text.le_text Text.join Utf8.encode
fdstore-message = refl

receive-fdstore_example :
    ((receive little receiving roomy (pos 2000) before).0
      ≡ ok (some (record { contents = message.payload; fds = pos 5 ∷ pos 9 ∷ [] })))
    × (Datagram.fields (record { contents = message.payload; fds = pos 5 ∷ pos 9 ∷ [] })
        ≡ ok (stored (some (codes "db")) none))
receive-fdstore_example =
    receive-fdstore plain little seven receiving (codes "/n") (pos 4) roomy (inr refl) (pos 5)
      (pos 9 ∷ []) (some (codes "db")) none before before message (pos 2000) 1 1 0 fdstore-message
      (omega arith) refl (omega arith) (omega arith) refl refl

abbrev unopened : State
unopened = record { notifier = at_path (codes "/n"); world = before }

abbrev calls_made : List Request
calls_made =
    Log.fdstore (pos 5 ∷ pos 9 ∷ []) (some (codes "db")) none
    ∷ Log.notify (raw (codes "READY=1") ∷ []) []
    ∷ Log.reloading none
    ∷ Log.main_pid none
    ∷ Log.close
    ∷ []

delivered-after_all_example :
    delivered little (codes "/n") (after_all plain little seven calls_made unopened).world.trace
    ≡ [] ++ log plain little seven calls_made unopened
unfolding delivered
delivered-after_all_example =
    delivered-after_all plain little (codes "/n") seven (inr refl) calls_made unopened (omega arith)
      (record { path = refl; aimed = tt })
