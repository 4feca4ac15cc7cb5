-- ===== src/Cli/Startup/Sound.antt =====
-- src/main.cpp: what the event loop starts with.
use meshcom_loraham_bridge.Prelude.{
  ℕ, Bool, true, false, not, Option, none, some, List, [], ◌∷◌, Bytes, codes, ◌≡◌, refl, subst, inl,
  inr, Bool-cases, arith,
}
use meshcom_loraham_bridge.Auth.{AuthConfig, password_configured, from_password_file}
use meshcom_loraham_bridge.Loraham.Framing.{bytes_eq}
use meshcom_loraham_bridge.Loraham.Paths.{DaemonPaths, instance_daemon_paths}
use meshcom_loraham_bridge.Rflog.File.{LogFile, open_log}
use meshcom_loraham_bridge.Xr.Server.Listen.{
  ListenError, no_error, socket_failed, invalid_address, bind_failed, fcntl_failed, Listener,
  Listens, listen_leaves,
}
use meshcom_loraham_bridge.Cli.{ok, Holds, >>=-Holds}
use meshcom_loraham_bridge.Cli.Options.{Options, default_options, parse_args}
use meshcom_loraham_bridge.Cli.Options.Valid.{Valid, default_options-Valid, parse_args-Valid}
use meshcom_loraham_bridge.Cli.Startup.{
  World, Chosen, loraham, Setup, is_empty, is_loraham, check_sockets, password_of, load_auth,
  opened, start_log, select_backend, listening, start_listening, startup,
}

-- Sockets are named both or not at all, and only for the LoRaHAM backend.
abbrev SocketPair : Options → Type 0
SocketPair o =
    (is_empty o.data_socket ≡ is_empty o.conf_socket)
    × (is_empty o.data_socket ≡ false → is_loraham o ≡ true)

-- A password is there where a file is named.
abbrev Configured : Options → AuthConfig → Type 0
Configured o auth = password_configured auth ≡ not (is_empty o.password_file)

abbrev Logs : Options → LogFile → Type 0
Logs o log = log.is_open ≡ o.rflog_on

-- The paths of the command line serve either band.
abbrev pub named_paths : Options → DaemonPaths
named_paths o = record {
  data433 = o.data_socket;
  conf433 = o.conf_socket;
  data868 = o.data_socket;
  conf868 = o.conf_socket;
}

abbrev Named : Options → Chosen → Type 0
Named o b = is_empty o.data_socket ≡ false → b ≡ loraham (named_paths o)

check_sockets-Holds : (o : Options) → Holds (λ u. SocketPair o) (check_sockets o)
unfolding check_sockets
check_sockets-Holds o = ground arith

from_password_file-Holds :
    (chunks : Option (List Bytes)) (error : Bool)
    → Holds
        (λ auth. password_configured auth ≡ true)
        (password_of (from_password_file chunks error))
unfolding password_of from_password_file password_configured
from_password_file-Holds none error = tt
from_password_file-Holds (some chunks) error = ground arith

load_auth-Holds : (w : World) (o : Options) → Holds (Configured o) (load_auth w o)
unfolding load_auth password_configured
load_auth-Holds w o =
    let read = from_password_file-Holds w.password_chunks w.password_error in
    elim (Bool-cases (is_empty o.password_file)) [
      | inl e ↦ ground (arith, e)
      | inr e ↦ ground (arith, e, read)
    ]

start_log-Holds : (w : World) (o : Options) → Holds (Logs o) (start_log w o)
unfolding start_log opened open_log
start_log-Holds w o = ground arith

fake_other : (s : Bytes) → bytes_eq s (codes "loraham") ≡ true → bytes_eq s (codes "fake") ≡ false
unfolding bytes_eq
fake_other [] e = refl
fake_other (c ∷ s) e = ground arith

select_backend-Holds :
    (w : World) (o : Options) → SocketPair o → Holds (Named o) (select_backend w o)
unfolding select_backend instance_daemon_paths
select_backend-Holds w o h = ground (arith, h.0, h.1, fake_other o.backend_name)

-- The descriptor of the socket is the server's, and the only one that is open in addition.
abbrev IsListening : World → Listener → Type 0
IsListening w l = (fd : ℕ) × (l.listen_fd ≡ some fd) × (l.open_fds ≡ fd ∷ w.listener.open_fds)

listening-Holds :
    (w : World) (r : ListenError × Listener)
    → Listens w.listens w.listener r
    → Holds (IsListening w) (listening r)
unfolding listening
listening-Holds w (no_error, l) (fd, _, e, fds) = (fd, e, fds)
listening-Holds w (socket_failed, l) h = tt
listening-Holds w (invalid_address, l) h = tt
listening-Holds w (bind_failed, l) h = tt
listening-Holds w (ListenError.listen_failed, l) h = tt
listening-Holds w (fcntl_failed, l) h = tt

start_listening-Holds : (w : World) → Holds (IsListening w) (start_listening w)
unfolding start_listening
start_listening-Holds w = listening-Holds w _ (listen_leaves w.listens w.listener)

-- What the event loop is entered with.
abbrev pub Sound : World → Setup → Type 0
Sound w s =
    Valid s.options
    × (is_empty s.options.data_socket ≡ is_empty s.options.conf_socket)
    × Named s.options s.backend
    × Configured s.options s.auth
    × Logs s.options s.log
    × IsListening w s.listener

startup-Holds : (w : World) (args : List Bytes) → Holds (Sound w) (startup w args)
unfolding startup
startup-Holds w args =
    let parsed = parse_args-Valid args default_options default_options-Valid in
    >>=-Holds Valid (Sound w) (parse_args args default_options) _ parsed (λ o valid.
      >>=-Holds (λ u. SocketPair o) (Sound w) (check_sockets o) _ (check_sockets-Holds o)
        (λ u pair.
          >>=-Holds (Configured o) (Sound w) (load_auth w o) _ (load_auth-Holds w o)
            (λ auth password.
              >>=-Holds (Logs o) (Sound w) (start_log w o) _ (start_log-Holds w o) (λ log logs.
                >>=-Holds (Named o) (Sound w) (select_backend w o) _ (select_backend-Holds w o pair)
                  (λ b named.
                    >>=-Holds (IsListening w) (Sound w) (start_listening w) _
                      (start_listening-Holds w)
                      (λ l fd. (valid, pair.0, named, password, logs, fd)))))))

-- Whatever the command line and the answers of the system, if the event loop starts, then: the port
-- is at most 65535 and both keepalive times are from 1 to 3600000 ms; the sockets are named both or
-- not at all, with paths that fit an address, and where they are named the backend is LoRaHAM's with
-- these for both bands; a password is set exactly where the path of a password file is not empty;
-- the RF log is open exactly where it is on; and the server listens with the only new descriptor.
pub startup-Sound : (w : World) (args : List Bytes) (s : Setup) → startup w args ≡ ok s → Sound w s
startup-Sound w args s e = subst (Holds (Sound w)) e (startup-Holds w args)
