-- ===== src/Loraham/Posix/Tests.antt =====
-- The transport at work.
use meshcom_loraham_bridge.Prelude.{
  true, false, some, List, [], ◌∷◌, ◌≡◌, ◌↔◌, refl, codes, is_present,
}
use meshcom_loraham_bridge.Loraham.Config.{band433}
use meshcom_loraham_bridge.Loraham.Link.{connected, failed, send_loop}
use meshcom_loraham_bridge.Loraham.Posix.{
  PosixTransport, new_transport, Begin, at_once, in_progress, refused, not_writable, writable,
  begin_connect, poll_connect, sent, send_again,
}
use meshcom_loraham_bridge.Loraham.Paths.{DaemonPaths, instance_daemon_paths, socket_path_error}
use meshcom_loraham_bridge.Loraham.Posix.Connects.{
  TransportCall, begin_call, poll_call, transport_run, Owns, IsThrough, transport_run-Owns,
  poll_connect_iff,
}
use meshcom_loraham_bridge.Loraham.Posix.Refines.{
  link_answers, posix_send_loop, posix_send_loop_lem,
}

abbrev paths : DaemonPaths
paths = instance_daemon_paths (λ path. false) (codes "/tmp/d.sock") (codes "/tmp/c.sock")

abbrev slow : Begin
slow = record { socket = some 5; nonblocking = true; connect = in_progress }

abbrev fast : Begin
fast = record { socket = some 6; nonblocking = true; connect = at_once }

abbrev fails : Begin
fails = record { socket = some 6; nonblocking = true; connect = refused }

-- The CONF socket is refused, then both connect and the one is slow.
abbrev calls : List TransportCall
calls =
    begin_call band433 slow fails
    ∷ begin_call band433 slow fast
    ∷ poll_call not_writable not_writable
    ∷ []

transport_run-Owns_example :
    Owns (transport_run calls (new_transport paths))
    × ((begin_connect band433 slow fast (transport_run calls (new_transport paths))).0
        ≡ is_present
            (begin_connect band433 slow fast (transport_run calls (new_transport paths))).1.data_fd)
    × Owns (begin_connect band433 slow fast (transport_run calls (new_transport paths))).1
transport_run-Owns_example = transport_run-Owns paths calls band433 slow fast

abbrev half_way : PosixTransport
half_way = record {
  paths = paths;
  data_fd = some 5;
  conf_fd = some 6;
  data_connecting = true;
  conf_connecting = false;
  open_fds = 6 ∷ 5 ∷ [];
}

poll_connect_iff_example :
    ((poll_connect (writable (some 0)) not_writable half_way).0 ≡ connected)
    ↔ (true ≡ true)
      × (true ≡ true)
      × IsThrough true (writable (some 0))
      × IsThrough false not_writable
poll_connect_iff_example = poll_connect_iff (writable (some 0)) not_writable half_way

-- A socket that is writable with a pending error has failed.
refused_later : (poll_connect (writable (some 111)) not_writable half_way).0 ≡ failed
unfolding poll_connect
refused_later = refl

posix_send_loop_lem_example :
    let answers = sent 2 ∷ send_again ∷ [] in
    let written = send_loop (link_answers (some 5) answers) (codes "abc") in
    posix_send_loop (some 5) answers (codes "abc") ≡ (written.flush, written.count)
posix_send_loop_lem_example = posix_send_loop_lem (some 5) (sent 2 ∷ send_again ∷ []) (codes "abc")

short_path : socket_path_error (codes "/tmp/a.sock") ≡ []
unfolding socket_path_error
short_path = refl
