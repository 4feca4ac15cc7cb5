-- ===== src/Cli/Options/Print.antt =====
-- src/main.cpp: a command line for given options.
use meshcom_loraham_bridge.Prelude.{
  ℕ, ◌≤◌, ◌<◌, Bool, true, false, List, [], ◌∷◌, ◌++◌, length, Bytes, codes, ◌≡◌, refl, ap, ◌∙◌,
  arith,
}
use meshcom_loraham_bridge.Loraham.Config.{decimal}
use meshcom_loraham_bridge.Loraham.Framing.{bytes_eq}
use meshcom_loraham_bridge.Loraham.Paths.{socket_path_error, sun_path_size}
use meshcom_loraham_bridge.Xr.Session.{default_timeouts}
use meshcom_loraham_bridge.Cli.{Result, ok, ◌>>=◌}
use meshcom_loraham_bridge.Cli.Number.Decimal.{port_number-decimal, ms_number-decimal}
use meshcom_loraham_bridge.Cli.Options.{
  Options, default_options, port_arg, rflog_arg, ping_interval_arg, pong_timeout_arg, argument_of,
  in_range, on_or_off, usable_socket, set_option, parse_args,
}
use meshcom_loraham_bridge.Cli.Options.Valid.{Valid, IsInterval}

-- A socket is named where there is one.
abbrev socket_args : Bytes → Bytes → List Bytes
socket_args a [] = []
socket_args a (c ∷ path) = a ∷ (c ∷ path) ∷ []

abbrev on_off : Bool → Bytes
on_off true = codes "on"
on_off false = codes "off"

unfoldable pub args_of : Options → List Bytes
args_of o =
    codes "--bind"
    ∷ o.bind_addr
    ∷ codes "--port"
    ∷ decimal o.port
    ∷ codes "--password-file"
    ∷ o.password_file
    ∷ codes "--backend"
    ∷ o.backend_name
    ∷ codes "--rflog"
    ∷ on_off o.rflog_on
    ∷ codes "--rflog-path"
    ∷ o.rflog_path
    ∷ codes "--ping-interval-ms"
    ∷ decimal o.timeouts.ping_interval_ms
    ∷ codes "--pong-timeout-ms"
    ∷ decimal o.timeouts.pong_timeout_ms
    ∷ (socket_args (codes "--data-socket") o.data_socket
        ++ socket_args (codes "--conf-socket") o.conf_socket)

step :
    (a v : Bytes) (args : List Bytes) (o o' : Options)
    → set_option (argument_of a) v o ≡ ok o'
    → parse_args (a ∷ v ∷ args) o ≡ parse_args args o'
unfolding parse_args
step a v args o o' e = ap (λ (r : Result Options). r >>= parse_args args) e

set_option-port :
    (n : ℕ) (o : Options)
    → n ≤ 65535
    → set_option port_arg (decimal n) o ≡ ok (record o { port = n })
unfolding set_option in_range
set_option-port n o h = rw (port_number-decimal n h) refl

set_option-ping :
    (n : ℕ) (o : Options)
    → IsInterval n
    → set_option ping_interval_arg (decimal n) o
      ≡ ok (record o { timeouts = record (o.timeouts) { ping_interval_ms = n } })
unfolding set_option in_range
set_option-ping n o h = rw (ms_number-decimal n h.0 h.1) refl

set_option-pong :
    (n : ℕ) (o : Options)
    → IsInterval n
    → set_option pong_timeout_arg (decimal n) o
      ≡ ok (record o { timeouts = record (o.timeouts) { pong_timeout_ms = n } })
unfolding set_option in_range
set_option-pong n o h = rw (ms_number-decimal n h.0 h.1) refl

set_option-rflog :
    (b : Bool) (o : Options) → set_option rflog_arg (on_off b) o ≡ ok (record o { rflog_on = b })
unfolding set_option on_or_off bytes_eq
set_option-rflog true o = refl
set_option-rflog false o = refl

usable_socket_fits :
    (c : ℕ) (path : Bytes)
    → length (c ∷ path) < sun_path_size
    → usable_socket (c ∷ path) ≡ ok (c ∷ path)
unfolding usable_socket socket_path_error
usable_socket_fits c path h = ground arith

parse_args-data :
    (path : Bytes) (args : List Bytes) (o : Options)
    → length path < sun_path_size
    → o.data_socket ≡ []
    → parse_args (socket_args (codes "--data-socket") path ++ args) o
      ≡ parse_args args (record o { data_socket = path })
unfolding set_option argument_of bytes_eq
parse_args-data [] args o h e = ap (λ (s : Bytes). parse_args args (record o { data_socket = s })) e
parse_args-data (c ∷ path) args o h e =
    step (codes "--data-socket") (c ∷ path) args o (record o { data_socket = c ∷ path })
      (rw (usable_socket_fits c path h) refl)

parse_args-conf :
    (path : Bytes) (o : Options)
    → length path < sun_path_size
    → o.conf_socket ≡ []
    → parse_args (socket_args (codes "--conf-socket") path) o ≡ ok (record o { conf_socket = path })
unfolding set_option argument_of bytes_eq parse_args
parse_args-conf [] o h e = ap (λ (s : Bytes). ok (record o { conf_socket = s })) e
parse_args-conf (c ∷ path) o h e = rw (usable_socket_fits c path h) refl

-- Options whose numbers are in range, and whose socket paths fit an address, come back from the
-- command line that names them all, a socket only where there is one; the times that have no option
-- are the default ones.
pub parse_args-args_of :
    (o : Options)
    → Valid o
    → parse_args (args_of o) default_options
      ≡ ok (record o {
        timeouts = record default_timeouts {
          ping_interval_ms = o.timeouts.ping_interval_ms;
          pong_timeout_ms = o.timeouts.pong_timeout_ms;
        };
      })
unfolding args_of argument_of bytes_eq set_option
parse_args-args_of o (port, ping, pong, dat, conf) =
    let o1 = record default_options { bind_addr = o.bind_addr } in
    let o2 = record o1 { port = o.port } in
    let o3 = record o2 { password_file = o.password_file } in
    let o4 = record o3 { backend_name = o.backend_name } in
    let o5 = record o4 { rflog_on = o.rflog_on } in
    let o6 = record o5 { rflog_path = o.rflog_path } in
    let o7 = record o6 {
      timeouts = record default_timeouts { ping_interval_ms = o.timeouts.ping_interval_ms };
    } in
    let o8 = record o7 {
      timeouts = record (o7.timeouts) { pong_timeout_ms = o.timeouts.pong_timeout_ms };
    } in
    step (codes "--bind") o.bind_addr _ default_options o1 refl
    ∙ step (codes "--port") (decimal o.port) _ o1 o2 (set_option-port o.port o1 port)
    ∙ step (codes "--password-file") o.password_file _ o2 o3 refl
    ∙ step (codes "--backend") o.backend_name _ o3 o4 refl
    ∙ step (codes "--rflog") (on_off o.rflog_on) _ o4 o5 (set_option-rflog o.rflog_on o4)
    ∙ step (codes "--rflog-path") o.rflog_path _ o5 o6 refl
    ∙ step (codes "--ping-interval-ms") (decimal o.timeouts.ping_interval_ms) _ o6 o7
        (set_option-ping o.timeouts.ping_interval_ms o6 ping)
    ∙ step (codes "--pong-timeout-ms") (decimal o.timeouts.pong_timeout_ms) _ o7 o8
        (set_option-pong o.timeouts.pong_timeout_ms o7 pong)
    ∙ parse_args-data o.data_socket _ o8 dat refl
    ∙ parse_args-conf o.conf_socket (record o8 { data_socket = o.data_socket }) conf refl
