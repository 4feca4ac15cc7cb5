-- ===== src/Cli/Tests.antt =====
-- Command lines, and the theorems about main at them.
use meshcom_loraham_bridge.Prelude.{
  true, false, none, some, List, [], ◌∷◌, Bytes, codes, ◌≡◌, refl, arith,
}
use meshcom_loraham_bridge.Xr.Session.{default_timeouts}
use meshcom_loraham_bridge.Auth.{from_password_file, read_file, strip_newline, drop_last}
use meshcom_loraham_bridge.Loraham.Framing.{bytes_eq}
use meshcom_loraham_bridge.Loraham.Paths.{socket_path_error}
use meshcom_loraham_bridge.Xr.Server.Listen.{listen}
use meshcom_loraham_bridge.Cli.{ok, exit_code}
use meshcom_loraham_bridge.Cli.Number.{
  port_number, strtoul, starts_digit, sign, skip_space, to_ulong, digits,
}
use meshcom_loraham_bridge.Cli.Options.{
  Options, default_options, parse_args, set_option, argument_of, in_range, usable_socket,
}
use meshcom_loraham_bridge.Cli.Options.Print.{args_of, parse_args-args_of}
use meshcom_loraham_bridge.Cli.Startup.{
  World, Setup, fake, no_log, startup, main_exit, check_sockets, load_auth, start_log,
  select_backend, start_listening, password_of,
}
use meshcom_loraham_bridge.Cli.Startup.Sound.{Sound, startup-Sound}

abbrev custom : Options
custom = record default_options {
  port = 7100;
  backend_name = codes "loraham";
  rflog_on = true;
  rflog_path = codes "/log";
  data_socket = codes "/a";
  conf_socket = codes "/b";
  timeouts = record default_timeouts { ping_interval_ms = 60000 };
}

parse_args-args_of_example : parse_args (args_of custom) default_options ≡ ok custom
parse_args-args_of_example = parse_args-args_of custom (ground arith)

abbrev world : World
world = record {
  is_socket = λ path. false;
  password_chunks = some (codes "secret\n" ∷ []);
  password_error = false;
  log_found = some ([], []);
  listens = record {
    socket = some 3;
    address_ok = true;
    bind_ok = true;
    listen_ok = true;
    nonblocking = true;
    port = some 7100;
  };
  listener = record { listen_fd = none; bound_port = 0; open_fds = [] };
}

abbrev args : List Bytes
args = codes "--port" ∷ codes "7100" ∷ codes "--password-file" ∷ codes "/p" ∷ []

abbrev setup : Setup
setup = record {
  options = record default_options { port = 7100; password_file = codes "/p" };
  auth = record { password = codes "secret" };
  log = no_log;
  backend = fake;
  listener = record { listen_fd = some 3; bound_port = 7100; open_fds = 3 ∷ [] };
}

startup_ok : startup world args ≡ ok setup
unfolding startup parse_args set_option argument_of bytes_eq check_sockets load_auth start_log
    select_backend start_listening listen in_range port_number strtoul starts_digit sign skip_space
    to_ulong digits password_of from_password_file read_file strip_newline drop_last
startup_ok = refl

startup-Sound_example : Sound world setup
startup-Sound_example = startup-Sound world args setup startup_ok

-- strtoul takes a minus, and negates in 64 bits.
minus_wraps : port_number (codes "-18446744073709551615") ≡ some 1
unfolding port_number strtoul starts_digit sign skip_space to_ulong digits
minus_wraps = refl

too_large : port_number (codes "99999") ≡ none
unfolding port_number strtoul starts_digit sign skip_space to_ulong digits
too_large = refl

lone : main_exit world (codes "--data-socket" ∷ codes "/a" ∷ []) ≡ 2
unfolding main_exit startup parse_args set_option argument_of bytes_eq usable_socket
    socket_path_error check_sockets exit_code
lone = refl

abbrev empty_path : Setup
empty_path = record setup { options = default_options; auth = record { password = [] } }

-- An empty path of a password file is as good as none.
no_password : startup world (codes "--password-file" ∷ [] ∷ []) ≡ ok empty_path
unfolding startup parse_args set_option argument_of bytes_eq check_sockets load_auth start_log
    select_backend start_listening listen
no_password = refl
