-- ===== src/Loraham/Posix/Connects.antt =====
-- The descriptors of the transport, and when it is connected.
use meshcom_loraham_bridge.Prelude.{
  ℕ, Bool, true, false, Option, none, some, List, [], ◌∷◌, ◌==◌, ◌≡◌, ◌⊎◌, ◌↔◌, refl, arith, inl,
  inr, Option-cases, subst, sym, without-cons, without, is_present, if_rule, length, leb, ◌||◌,
  Bytes,
}
use meshcom_loraham_bridge.Loraham.Config.{Band}
use meshcom_loraham_bridge.Loraham.Link.{connected}
use meshcom_loraham_bridge.Loraham.Posix.{
  PosixTransport, new_transport, Begin, Begun, ConnectAnswer, at_once, in_progress, refused,
  Progress, writable, connect_socket, open_socket, unix_begin_connect, check_one, close_fd, close,
  join_conf, join, begin_connect, both, poll_connect, data_path, conf_path,
}
use meshcom_loraham_bridge.Loraham.Paths.{DaemonPaths, sun_path_size}

pub data TransportCall : Type 0 where
  begin_call : Band → Begin → Begin → TransportCall
  poll_call : Progress → Progress → TransportCall
  close_call : TransportCall

unfoldable pub transport_step : TransportCall → PosixTransport → PosixTransport
transport_step (begin_call band da ca) t = (begin_connect band da ca t).1
transport_step (poll_call dp cp) t = (poll_connect dp cp t).1
transport_step close_call t = close t

unfoldable pub transport_run : List TransportCall → PosixTransport → PosixTransport
transport_run [] t = t
transport_run (c ∷ cs) t = transport_run cs (transport_step c t)

-- The transport has both sockets or none, these are the descriptors that it has open, and one that
-- it has not is not connecting.
abbrev pub Held : Option ℕ → Option ℕ → PosixTransport → Type 0
Held none none t = (t.open_fds ≡ []) × (t.data_connecting ≡ false) × (t.conf_connecting ≡ false)
Held (some d) (some c) t = t.open_fds ≡ c ∷ d ∷ []
Held (some d) none t = ⊥
Held none (some c) t = ⊥

abbrev pub Owns : PosixTransport → Type 0
Owns t = Held t.data_fd t.conf_fd t

close_both : (d c : ℕ) → without c (without d (c ∷ d ∷ [])) ≡ []
close_both d c = ground arith

close_open :
    (df cf : Option ℕ) (t : PosixTransport)
    → Held df cf t
    → close_fd cf (close_fd df t.open_fds) ≡ []
unfolding close_fd
close_open none none t h = h.0
close_open (some d) (some c) t h = rw h (close_both d c)
close_open (some d) none t h = absurd h
close_open none (some c) t h = absurd h

close-Owns : (t : PosixTransport) → Owns t → Owns (close t)
unfolding close
close-Owns t h = (close_open t.data_fd t.conf_fd t h, refl, refl)

-- What unix_begin_connect leaves open: its own descriptor, if it gives one.
abbrev OpenedAs : List ℕ → List ℕ → Option ℕ → Type 0
OpenedAs fds now none = now ≡ fds
OpenedAs fds now (some fd) = now ≡ fd ∷ fds

abbrev Opened : List ℕ → Begun → Type 0
Opened fds b = OpenedAs fds b.open_fds b.fd

connect_socket-Opened :
    (fd : ℕ) (a : ConnectAnswer) (fds : List ℕ) → Opened fds (connect_socket fd a (fd ∷ fds))
unfolding connect_socket
connect_socket-Opened fd at_once fds = refl
connect_socket-Opened fd in_progress fds = refl
connect_socket-Opened fd refused fds = without-cons fd fds

open_socket-Opened : (s : Option ℕ) (a : Begin) (fds : List ℕ) → Opened fds (open_socket s a fds)
unfolding open_socket
open_socket-Opened none a fds = refl
open_socket-Opened (some fd) a fds =
    if_rule (Opened fds) a.nonblocking _ _ (connect_socket-Opened fd a.connect fds)
      (without-cons fd fds)

unix_begin_connect-Opened :
    (path : Bytes) (a : Begin) (fds : List ℕ) → Opened fds (unix_begin_connect path a fds)
unfolding unix_begin_connect
unix_begin_connect-Opened path a fds =
    if_rule (Opened fds) (length path == 0 || leb sun_path_size (length path)) _ _ refl
      (open_socket-Opened a.socket a fds)

-- A result that fits the transport: true exactly where it has its sockets.
abbrev Began : Bool × PosixTransport → Type 0
Began (ok, t) = (ok ≡ is_present t.data_fd) × Owns t

join_conf-Began :
    (d : ℕ) (dc : Bool) (c : Begun) (t : PosixTransport)
    → Opened (d ∷ []) c
    → t.data_fd ≡ none
    → t.conf_fd ≡ none
    → t.data_connecting ≡ false
    → t.conf_connecting ≡ false
    → Began (join_conf d dc c t)
unfolding join_conf
join_conf-Began d dc c t o e e' f f' = ground (arith, e, e', f, f', without-cons d [])

join-Began :
    (cpath : Bytes) (ca : Begin) (d : Begun) (t : PosixTransport)
    → Opened [] d
    → t.data_fd ≡ none
    → t.conf_fd ≡ none
    → t.data_connecting ≡ false
    → t.conf_connecting ≡ false
    → Began (join cpath ca d t)
unfolding join
join-Began cpath ca d t o e e' f f' = elim (Option-cases d.fd) [
  | inl none_here ↦ ground arith
  | inr (fd, here) ↦
      let only : d.open_fds ≡ fd ∷ [] = subst (OpenedAs [] d.open_fds) here o in
      let o' =
        subst (λ (fds : List ℕ). Opened fds (unix_begin_connect cpath ca d.open_fds)) only
          (unix_begin_connect-Opened cpath ca d.open_fds) in
      rw (here, join)
        (join_conf-Began fd d.connecting (unix_begin_connect cpath ca d.open_fds) t o' e e' f f')
]

-- A connect replaces the sockets that the transport has; it answers true exactly where it has both
-- then, and else it has none.
begin_connect-Began :
    (band : Band) (da ca : Begin) (t : PosixTransport) → Owns t → Began (begin_connect band da ca t)
unfolding begin_connect close
begin_connect-Began band da ca t h =
    join-Began (conf_path band t.paths) ca _ (close t)
      (subst (λ (fds : List ℕ). Opened [] (unix_begin_connect (data_path band t.paths) da fds))
        (sym (close-Owns t h).0) (unix_begin_connect-Opened (data_path band t.paths) da []))
      refl refl refl refl

pub poll_connect-Owns :
    (dp cp : Progress) (t : PosixTransport) → Owns t → Owns (poll_connect dp cp t).1
unfolding poll_connect check_one
poll_connect-Owns dp cp t h = ground arith

pub transport_step-Owns :
    (c : TransportCall) (t : PosixTransport) → Owns t → Owns (transport_step c t)
unfolding transport_step
transport_step-Owns (begin_call band da ca) t h = (begin_connect-Began band da ca t h).1
transport_step-Owns (poll_call dp cp) t h = poll_connect-Owns dp cp t h
transport_step-Owns close_call t h = close-Owns t h

transport_run-keeps :
    (cs : List TransportCall) (t : PosixTransport) → Owns t → Owns (transport_run cs t)
unfolding transport_run
transport_run-keeps [] t h = h
transport_run-keeps (c ∷ cs) t h = transport_run-keeps cs _ (transport_step-Owns c t h)

-- Whatever calls are made of a new transport and whatever the system answers: it has both sockets or
-- neither, its descriptors are the only ones that it has open, and without them it is not
-- connecting. A connect that follows answers true exactly where it leaves the transport with sockets.
pub transport_run-Owns :
    (paths : DaemonPaths) (cs : List TransportCall) (band : Band) (da ca : Begin)
    → let t = transport_run cs (new_transport paths) in
      let (ok, t') = begin_connect band da ca t in Owns t × (ok ≡ is_present t'.data_fd) × Owns t'
unfolding new_transport
transport_run-Owns paths cs band da ca =
    let t = transport_run cs (new_transport paths) in
    let h : Owns t = transport_run-keeps cs (new_transport paths) (refl, refl, refl) in
    let began = begin_connect-Began band da ca t h in (h, began.0, began.1)

-- The connect of a socket is complete: it was at once, or the socket is writable and has no error.
abbrev pub IsThrough : Bool → Progress → Type 0
IsThrough c p = (c ≡ false) ⊎ (p ≡ writable (some 0))

-- poll_connect answers connected exactly where the transport has both sockets and the connect of each
-- is complete: a writable socket alone is not enough.
pub poll_connect_iff :
    (dp cp : Progress) (t : PosixTransport)
    → ((poll_connect dp cp t).0 ≡ connected)
      ↔ (is_present t.data_fd ≡ true)
        × (is_present t.conf_fd ≡ true)
        × IsThrough t.data_connecting dp
        × IsThrough t.conf_connecting cp
unfolding poll_connect check_one both
poll_connect_iff dp cp t = ground arith
