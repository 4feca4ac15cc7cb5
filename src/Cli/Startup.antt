-- ===== src/Cli/Startup.antt =====
-- src/main.cpp: main up to the event loop. What the file system and the sockets answer is a World.
pub mod Sound
use meshcom_loraham_bridge.Prelude.{
  ℕ, Bool, true, false, not, ◌&&◌, ◌||◌, Option, none, some, List, [], ◌==◌, if◌then◌else◌, length,
  Bytes, codes,
}
use meshcom_loraham_bridge.Auth.{
  AuthConfig, FileResult, file_password, file_failed, from_password_file,
}
use meshcom_loraham_bridge.Loraham.Framing.{bytes_eq}
use meshcom_loraham_bridge.Loraham.Paths.{DaemonPaths, instance_daemon_paths}
use meshcom_loraham_bridge.Rflog.File.{LogFile, max_bytes_default, open_log}
use meshcom_loraham_bridge.Xr.Server.Listen.{ListenError, no_error, ListenAnswers, Listener, listen}
use meshcom_loraham_bridge.Cli.{
  Stop, lone_socket, sockets_need_loraham, password_file_failed, rflog_needs_path, rflog_failed,
  unknown_backend, listen_failed, exit_code, Result, ok, stop, ◌>>=◌, ◌>>◌, guard,
}
use meshcom_loraham_bridge.Cli.Options.{Options, default_options, parse_args}

-- `password_chunks` and `password_error` are the reads of the password file, `log_found` what the RF
-- log and its <path>.1 hold, if it opens, and `listener` the server before listen.
pub record World : Type 0 where
  pub is_socket : Bytes → Bool
  pub password_chunks : Option (List Bytes)
  pub password_error : Bool
  pub log_found : Option (Bytes × Bytes)
  pub listens : ListenAnswers
  pub listener : Listener

-- The backend that is made, with the paths of its transport.
pub data Chosen : Type 0 where
  fake : Chosen
  loraham : DaemonPaths → Chosen

-- What the event loop starts with.
pub record Setup : Type 0 where
  pub options : Options
  pub auth : AuthConfig
  pub log : LogFile
  pub backend : Chosen
  pub listener : Listener

abbrev pub is_empty : Bytes → Bool
is_empty s = length s == 0

abbrev pub is_loraham : Options → Bool
is_loraham o = bytes_eq o.backend_name (codes "loraham")

abbrev same : Bool → Bool → Bool
same true b = b
same false b = not b

unfoldable pub check_sockets : Options → Result (Unit {0})
check_sockets o = do
  guard (same (is_empty o.data_socket) (is_empty o.conf_socket)) lone_socket
  guard (not ((not (is_empty o.data_socket) || not (is_empty o.conf_socket)) && not (is_loraham o)))
      sockets_need_loraham

unfoldable pub password_of : FileResult → Result AuthConfig
password_of (file_password p) = ok (record { password = p })
password_of (file_failed e) = stop (password_file_failed e)

-- Open mode where no file is named.
unfoldable pub load_auth : World → Options → Result AuthConfig
load_auth w o =
    if not (is_empty o.password_file)
    then password_of (from_password_file w.password_chunks w.password_error)
    else ok (record { password = [] })

abbrev pub no_log : LogFile
no_log = record {
  is_open = false;
  path = [];
  max_bytes = max_bytes_default;
  live = [];
  previous = [];
}

opened : Bool × LogFile → Result LogFile
opened (true, log) = ok log
opened (false, log) = stop rflog_failed

unfoldable pub start_log : World → Options → Result LogFile
unfolding opened
start_log w o =
    if o.rflog_on
    then if is_empty o.rflog_path
      then stop rflog_needs_path
      else opened (open_log o.rflog_path w.log_found no_log)
    else ok no_log

unfoldable pub select_backend : World → Options → Result Chosen
select_backend w o =
    if bytes_eq o.backend_name (codes "fake")
    then ok fake
    else if is_loraham o
    then ok (loraham (instance_daemon_paths w.is_socket o.data_socket o.conf_socket))
    else stop unknown_backend

listening : ListenError × Listener → Result Listener
listening (no_error, l) = ok l
listening (e, l) = stop (listen_failed e)

unfoldable pub start_listening : World → Result Listener
unfolding listening
start_listening w = listening (listen w.listens w.listener)

-- `args` is argv without the program's name.
unfoldable pub startup : World → List Bytes → Result Setup
startup w args = do
  o ← parse_args args default_options
  check_sockets o
  auth ← load_auth w o
  log ← start_log w o
  backend ← select_backend w o
  l ← start_listening w
  ok (record { options = o; auth = auth; log = log; backend = backend; listener = l })

-- main returns 0 behind the event loop.
unfoldable pub main_exit : World → List Bytes → ℕ
main_exit w args = elim (startup w args) [ ok setup ↦ 0 | stop s ↦ exit_code s ]
