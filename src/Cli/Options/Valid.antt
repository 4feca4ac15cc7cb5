-- ===== src/Cli/Options/Valid.antt =====
-- What the loop over argv lets through.
use meshcom_loraham_bridge.Prelude.{
  ℕ, ◌≤◌, ◌<◌, ◌||◌, Option, List, [], ◌∷◌, ltb, length, Bytes, arith, if_split,
}
use meshcom_loraham_bridge.Loraham.Paths.{socket_path_error, sun_path_size}
use meshcom_loraham_bridge.Cli.{Stop, Holds, any-Holds, >>=-Holds}
use meshcom_loraham_bridge.Cli.Number.{strtoul, is_malformed, port_number, ms_number}
use meshcom_loraham_bridge.Cli.Options.{
  Options, default_options, Argument, bind_arg, port_arg, password_file_arg, backend_arg, rflog_arg,
  rflog_path_arg, data_socket_arg, conf_socket_arg, ping_interval_arg, pong_timeout_arg,
  version_arg, help_arg, unknown_arg, argument_of, in_range, on_or_off, usable_socket, set_option,
  parse_args,
}

-- A keepalive time: one of a millisecond to an hour.
abbrev pub IsInterval : ℕ → Type 0
IsInterval n = (1 ≤ n) × (n ≤ 3600000)

-- The numbers are in range, and the paths of sockets fit an address.
abbrev pub Valid : Options → Type 0
Valid o =
    (o.port ≤ 65535)
    × IsInterval o.timeouts.ping_interval_ms
    × IsInterval o.timeouts.pong_timeout_ms
    × (length o.data_socket < sun_path_size)
    × (length o.conf_socket < sun_path_size)

pub default_options-Valid : Valid default_options
default_options-Valid = ground arith

port_number-Holds : (s : Stop) (v : Bytes) → Holds (λ p. p ≤ 65535) (in_range s (port_number v))
unfolding port_number in_range
port_number-Holds s v =
    let p = strtoul v in
    if_split (λ (x : Option ℕ). Holds (λ p. p ≤ 65535) (in_range s x))
      (is_malformed p || ltb 65535 p.value) _ _ (λ e. tt) (λ e. ground arith)

ms_number-Holds : (s : Stop) (v : Bytes) → Holds IsInterval (in_range s (ms_number v))
unfolding ms_number in_range
ms_number-Holds s v =
    let p = strtoul v in
    if_split (λ (x : Option ℕ). Holds IsInterval (in_range s x))
      (is_malformed p || (ltb p.value 1 || ltb 3600000 p.value)) _ _ (λ e. tt) (λ e. ground arith)

usable_socket-Holds : (v : Bytes) → Holds (λ s. length s < sun_path_size) (usable_socket v)
unfolding usable_socket socket_path_error
usable_socket-Holds v = ground arith

set_option-Valid :
    (a : Argument) (v : Bytes) (o : Options) → Valid o → Holds Valid (set_option a v o)
unfolding set_option
set_option-Valid bind_arg v o h = h
set_option-Valid port_arg v o (_, ping, pong, dat, conf) =
    >>=-Holds (λ p. p ≤ 65535) Valid (in_range _ (port_number v)) _ (port_number-Holds _ v)
      (λ p k. (k, ping, pong, dat, conf))
set_option-Valid password_file_arg v o h = h
set_option-Valid backend_arg v o h = h
set_option-Valid rflog_arg v o h =
    >>=-Holds (λ b. Unit) Valid (on_or_off v) _ (any-Holds (on_or_off v)) (λ b k. h)
set_option-Valid rflog_path_arg v o h = h
set_option-Valid data_socket_arg v o (port, ping, pong, _, conf) =
    >>=-Holds (λ s. length s < sun_path_size) Valid (usable_socket v) _ (usable_socket-Holds v)
      (λ s k. (port, ping, pong, k, conf))
set_option-Valid conf_socket_arg v o (port, ping, pong, dat, _) =
    >>=-Holds (λ s. length s < sun_path_size) Valid (usable_socket v) _ (usable_socket-Holds v)
      (λ s k. (port, ping, pong, dat, k))
set_option-Valid ping_interval_arg v o (port, _, pong, dat, conf) =
    >>=-Holds IsInterval Valid (in_range _ (ms_number v)) _ (ms_number-Holds _ v)
      (λ p k. (port, k, pong, dat, conf))
set_option-Valid pong_timeout_arg v o (port, ping, _, dat, conf) =
    >>=-Holds IsInterval Valid (in_range _ (ms_number v)) _ (ms_number-Holds _ v)
      (λ p k. (port, ping, k, dat, conf))
set_option-Valid version_arg v o h = tt
set_option-Valid help_arg v o h = tt
set_option-Valid unknown_arg v o h = tt

pub parse_args-Valid : (args : List Bytes) (o : Options) → Valid o → Holds Valid (parse_args args o)
unfolding parse_args
parse_args-Valid [] o h = h
parse_args-Valid (a ∷ []) o h = tt
parse_args-Valid (a ∷ v ∷ args) o h =
    >>=-Holds Valid Valid (set_option (argument_of a) v o) (parse_args args)
      (set_option-Valid (argument_of a) v o h) (parse_args-Valid args)
