-- ===== src/Loraham/Paths.antt =====
-- src/backend/loraham/loraham_posix_transport.cpp: the paths of the daemon's sockets.
use meshcom_loraham_bridge.Prelude.{
  ℕ, Bool, ◌||◌, [], ◌++◌, leb, ◌==◌, if◌then◌else◌, length, Bytes, codes,
}
use meshcom_loraham_bridge.Loraham.Config.{decimal}

pub record DaemonPaths : Type 0 where
  pub data433 : Bytes
  pub conf433 : Bytes
  pub data868 : Bytes
  pub conf868 : Bytes

-- `is_socket` is what stat tells: the file is there and is a socket.
pub loraham_sockpath : (is_socket : Bytes → Bool) → Bytes → Bytes → Bytes
loraham_sockpath is_socket runp tmpp = if is_socket runp then runp else tmpp

unfoldable pub default_daemon_paths : (Bytes → Bool) → DaemonPaths
unfolding loraham_sockpath
default_daemon_paths is_socket = record {
  data433 =
      loraham_sockpath is_socket (codes "/run/loraham/lora433f.sock") (codes "/tmp/lora433f.sock");
  conf433 =
      loraham_sockpath is_socket (codes "/run/loraham/loraconf433.sock")
        (codes "/tmp/loraconf433.sock");
  data868 =
      loraham_sockpath is_socket (codes "/run/loraham/lora868f.sock") (codes "/tmp/lora868f.sock");
  conf868 =
      loraham_sockpath is_socket (codes "/run/loraham/loraconf868.sock")
        (codes "/tmp/loraconf868.sock");
}

unfoldable pub instance_daemon_paths : (Bytes → Bool) → Bytes → Bytes → DaemonPaths
instance_daemon_paths is_socket data_socket conf_socket =
    if length data_socket == 0 || length conf_socket == 0
    then default_daemon_paths is_socket
    else record {
      data433 = data_socket;
      conf433 = conf_socket;
      data868 = data_socket;
      conf868 = conf_socket;
    }

-- sizeof(sockaddr_un::sun_path), of the system's header.
abbrev pub sun_path_size : ℕ
sun_path_size = 108

-- No text where the path can name a socket.
unfoldable pub socket_path_error : Bytes → Bytes
socket_path_error path =
    if length path == 0
    then codes "is empty"
    else if leb sun_path_size (length path)
    then codes "is "
      ++ (decimal (length path)
          ++ (codes " bytes; a socket path must be shorter than "
              ++ (decimal sun_path_size ++ codes " bytes")))
    else []
