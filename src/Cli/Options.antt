-- ===== src/Cli/Options.antt =====
-- src/main.cpp: the loop over argv. Every option that does not end main takes a value.
pub mod Print
pub mod Valid
use meshcom_loraham_bridge.Prelude.{
  ℕ, Bool, true, false, not, ◌&&◌, ◌||◌, Option, none, some, List, [], ◌∷◌, ◌==◌, if◌then◌else◌,
  length, Bytes, codes,
}
use meshcom_loraham_bridge.Loraham.Framing.{bytes_eq}
use meshcom_loraham_bridge.Loraham.Paths.{socket_path_error}
use meshcom_loraham_bridge.Xr.Session.{Timeouts, default_timeouts}
use meshcom_loraham_bridge.Cli.{
  Stop, version_shown, help_shown, needs_value, unknown_argument, port_out_of_range,
  ms_out_of_range, rflog_not_on_off, unusable_socket, Result, ok, stop, ◌>>=◌,
}
use meshcom_loraham_bridge.Cli.Number.{port_number, ms_number}

pub record Options : Type 0 where
  pub bind_addr : Bytes
  pub port : ℕ
  pub password_file : Bytes
  pub backend_name : Bytes
  pub rflog_on : Bool
  pub rflog_path : Bytes
  pub data_socket : Bytes
  pub conf_socket : Bytes
  pub timeouts : Timeouts

abbrev pub default_options : Options
default_options = record {
  bind_addr = codes "127.0.0.1";
  port = 7000;
  password_file = [];
  backend_name = codes "fake";
  rflog_on = false;
  rflog_path = [];
  data_socket = [];
  conf_socket = [];
  timeouts = default_timeouts;
}

-- What an element of argv is compared with.
pub data Argument : Type 0 where
  bind_arg port_arg password_file_arg backend_arg rflog_arg rflog_path_arg : Argument
  data_socket_arg conf_socket_arg ping_interval_arg pong_timeout_arg : Argument
  version_arg help_arg unknown_arg : Argument

unfoldable pub argument_of : Bytes → Argument
argument_of a =
    if bytes_eq a (codes "--bind")
    then bind_arg
    else if bytes_eq a (codes "--port")
    then port_arg
    else if bytes_eq a (codes "--password-file")
    then password_file_arg
    else if bytes_eq a (codes "--backend")
    then backend_arg
    else if bytes_eq a (codes "--rflog")
    then rflog_arg
    else if bytes_eq a (codes "--rflog-path")
    then rflog_path_arg
    else if bytes_eq a (codes "--data-socket")
    then data_socket_arg
    else if bytes_eq a (codes "--conf-socket")
    then conf_socket_arg
    else if bytes_eq a (codes "--ping-interval-ms")
    then ping_interval_arg
    else if bytes_eq a (codes "--pong-timeout-ms")
    then pong_timeout_arg
    else if bytes_eq a (codes "-v") || bytes_eq a (codes "--version")
    then version_arg
    else if bytes_eq a (codes "-h") || bytes_eq a (codes "--help")
    then help_arg
    else unknown_arg

unfoldable pub in_range : Stop → Option ℕ → Result ℕ
in_range s none = stop s
in_range s (some n) = ok n

unfoldable pub on_or_off : Bytes → Result Bool
on_or_off v =
    if not (bytes_eq v (codes "on")) && not (bytes_eq v (codes "off"))
    then stop rflog_not_on_off
    else ok (bytes_eq v (codes "on"))

unfoldable pub usable_socket : Bytes → Result Bytes
usable_socket v =
    if not (length (socket_path_error v) == 0)
    then stop (unusable_socket (socket_path_error v))
    else ok v

-- One turn of the loop, for an element of argv with another one behind it.
unfoldable pub set_option : Argument → Bytes → Options → Result Options
set_option bind_arg v o = ok (record o { bind_addr = v })
set_option port_arg v o = do
  p ← in_range port_out_of_range (port_number v)
  ok (record o { port = p })
set_option password_file_arg v o = ok (record o { password_file = v })
set_option backend_arg v o = ok (record o { backend_name = v })
set_option rflog_arg v o = do b ← on_or_off v; ok (record o { rflog_on = b })
set_option rflog_path_arg v o = ok (record o { rflog_path = v })
set_option data_socket_arg v o = do s ← usable_socket v; ok (record o { data_socket = s })
set_option conf_socket_arg v o = do s ← usable_socket v; ok (record o { conf_socket = s })
set_option ping_interval_arg v o = do
  p ← in_range ms_out_of_range (ms_number v)
  ok (record o { timeouts = record (o.timeouts) { ping_interval_ms = p } })
set_option pong_timeout_arg v o = do
  p ← in_range ms_out_of_range (ms_number v)
  ok (record o { timeouts = record (o.timeouts) { pong_timeout_ms = p } })
set_option version_arg v o = stop version_shown
set_option help_arg v o = stop help_shown
set_option unknown_arg v o = stop unknown_argument

-- The last element of argv.
unfoldable pub lone_option : Argument → Stop
lone_option version_arg = version_shown
lone_option help_arg = help_shown
lone_option unknown_arg = unknown_argument
lone_option _ = needs_value

-- `for (int i = 1; i < argc; ++i)`, where `next` takes the value.
unfoldable pub parse_args : List Bytes → Options → Result Options
parse_args [] o = ok o
parse_args (a ∷ []) o = stop (lone_option (argument_of a))
parse_args (a ∷ v ∷ args) o = do o' ← set_option (argument_of a) v o; parse_args args o'
