-- ===== src/Loraham/Posix.antt =====
-- src/backend/loraham/loraham_posix_transport.h and .cpp: the two AF_UNIX sockets to the daemon. What
-- the system calls answer is an argument of each operation.
pub mod Connects
pub mod Refines
mod Tests
use meshcom_loraham_bridge.Prelude.{
  ℕ, Bool, true, false, not, ◌||◌, Option, none, some, List, [], ◌∷◌, ◌++◌, leb, ◌==◌,
  if◌then◌else◌, length, take, min, Bytes, codes, without, is_present,
}
use meshcom_loraham_bridge.Loraham.Config.{Band, band433, band868, decimal}
use meshcom_loraham_bridge.Loraham.Link.{ConnectState, connecting, connected, failed}
use meshcom_loraham_bridge.Loraham.Paths.{DaemonPaths, sun_path_size}

-- What connect answers.
pub data ConnectAnswer : Type 0 where
  at_once in_progress refused : ConnectAnswer

-- What the system calls of unix_begin_connect answer: the descriptor of socket, set_nonblocking and
-- connect.
pub record Begin : Type 0 where
  pub socket : Option ℕ
  pub nonblocking : Bool
  pub connect : ConnectAnswer

-- What poll and getsockopt tell of a socket that is connecting: `writable` comes with the result of
-- getsockopt, which is none where the call fails.
pub data Progress : Type 0 where
  not_writable : Progress
  poll_error : Progress
  writable : Option ℕ → Progress

-- `open_fds` are the descriptors that the transport has open in the kernel.
pub record PosixTransport : Type 0 where
  pub paths : DaemonPaths
  pub data_fd : Option ℕ
  pub conf_fd : Option ℕ
  pub data_connecting : Bool
  pub conf_connecting : Bool
  pub open_fds : List ℕ

unfoldable pub new_transport : DaemonPaths → PosixTransport
new_transport paths = record {
  paths = paths;
  data_fd = none;
  conf_fd = none;
  data_connecting = false;
  conf_connecting = false;
  open_fds = [];
}

-- The descriptor and whether it is still connecting, and the descriptors that are open then.
pub record Begun : Type 0 where
  pub fd : Option ℕ
  pub connecting : Bool
  pub open_fds : List ℕ

-- connect on a socket that is open and non-blocking.
connect_socket : ℕ → ConnectAnswer → List ℕ → Begun
connect_socket fd at_once fds = record { fd = some fd; connecting = false; open_fds = fds }
connect_socket fd in_progress fds = record { fd = some fd; connecting = true; open_fds = fds }
connect_socket fd refused fds = record { fd = none; connecting = false; open_fds = without fd fds }

open_socket : Option ℕ → Begin → List ℕ → Begun
unfolding connect_socket
open_socket none a fds = record { fd = none; connecting = false; open_fds = fds }
open_socket (some fd) a fds =
    if a.nonblocking
    then connect_socket fd a.connect (fd ∷ fds)
    else record { fd = none; connecting = false; open_fds = without fd (fd ∷ fds) }

unfoldable pub unix_begin_connect : Bytes → Begin → List ℕ → Begun
unfolding open_socket
unix_begin_connect path a fds =
    if length path == 0 || leb sun_path_size (length path)
    then record { fd = none; connecting = false; open_fds = fds }
    else open_socket a.socket a fds

-- The state of one socket, and whether it is still connecting.
unfoldable pub check_one : Option ℕ → Bool → Progress → ConnectState × Bool
check_one none c p = (failed, c)
check_one (some fd) false p = (connected, false)
check_one (some fd) true not_writable = (connecting, true)
check_one (some fd) true poll_error = (failed, true)
check_one (some fd) true (writable none) = (failed, true)
check_one (some fd) true (writable (some err)) =
    if not (err == 0) then (failed, true) else (connected, false)

close_fd : Option ℕ → List ℕ → List ℕ
close_fd none fds = fds
close_fd (some fd) fds = without fd fds

unfoldable pub close : PosixTransport → PosixTransport
unfolding close_fd
close t = record t {
  data_fd = none;
  conf_fd = none;
  data_connecting = false;
  conf_connecting = false;
  open_fds = close_fd t.conf_fd (close_fd t.data_fd t.open_fds);
}

data_path : Band → DaemonPaths → Bytes
data_path band433 p = p.data433
data_path band868 p = p.data868

conf_path : Band → DaemonPaths → Bytes
conf_path band433 p = p.conf433
conf_path band868 p = p.conf868

-- Behind the call of unix_begin_connect for the CONF socket.
join_conf : ℕ → Bool → Begun → PosixTransport → Bool × PosixTransport
join_conf dfd dc c t = elim c.fd [
  | none ↦ (false, record t { open_fds = without dfd c.open_fds })
  | some cfd ↦ (
    true,
    record t {
      data_fd = some dfd;
      conf_fd = some cfd;
      data_connecting = dc;
      conf_connecting = c.connecting;
      open_fds = c.open_fds;
    },
  )
]

-- Behind the call for the DATA socket, on a closed transport.
join : Bytes → Begin → Begun → PosixTransport → Bool × PosixTransport
unfolding join_conf
join cpath ca d t = elim d.fd [
  | none ↦ (false, record t { open_fds = d.open_fds })
  | some dfd ↦ join_conf dfd d.connecting (unix_begin_connect cpath ca d.open_fds) t
]

unfoldable pub begin_connect : Band → Begin → Begin → PosixTransport → Bool × PosixTransport
unfolding join data_path conf_path
begin_connect band da ca t =
    let t' = close t in
    let d = unix_begin_connect (data_path band t.paths) da t'.open_fds in
    join (conf_path band t.paths) ca d t'

-- The state of both sockets, from those of each.
pub both : ConnectState → ConnectState → ConnectState
both failed c = failed
both d failed = failed
both connected connected = connected
both d c = connecting

unfoldable pub poll_connect : Progress → Progress → PosixTransport → ConnectState × PosixTransport
unfolding both check_one
poll_connect dp cp t =
    let (d, dc) = check_one t.data_fd t.data_connecting dp in
    let (c, cc') = check_one t.conf_fd t.conf_connecting cp in
    (both d c, record t { data_connecting = dc; conf_connecting = cc' })

-- The answers of send and of recv: `again` is EAGAIN, EWOULDBLOCK or EINTR.
pub data SendAnswer : Type 0 where
  sent : ℕ → SendAnswer
  send_again send_error : SendAnswer

pub data RecvAnswer : Type 0 where
  got : Bytes → RecvAnswer
  recv_again recv_error : RecvAnswer

-- The result of send_some and of recv_some; none is -1. send takes at most what is offered, and recv
-- gives at most what there is room for.
unfoldable pub send_some : Option ℕ → SendAnswer → Bytes → Option ℕ
send_some none a bytes = none
send_some (some fd) a bytes =
    if length bytes == 0
    then some 0
    else elim a [ sent n ↦ some (min n (length bytes)) | send_again ↦ some 0 | send_error ↦ none ]

recv_answer : ℕ → RecvAnswer → Option Bytes
recv_answer cap (got bytes) = if length (take cap bytes) == 0 then none else some (take cap bytes)
recv_answer cap recv_again = some []
recv_answer cap recv_error = none

unfoldable pub recv_some : Option ℕ → RecvAnswer → ℕ → Option Bytes
unfolding recv_answer
recv_some none a size = none
recv_some (some fd) a size = if size == 0 then none else recv_answer size a
