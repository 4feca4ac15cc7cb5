-- ===== src/Xr/Server/Listen.antt =====
-- src/xr/xr_server.cpp: listen, with the answers of the system calls as an argument.
use meshcom_loraham_bridge.Prelude.{
  ℕ, Bool, true, not, Option, none, some, List, ◌∷◌, ◌≡◌, ◌↔◌, inl, inr, refl, arith, if◌then◌else◌,
  without, without-cons, is_present, Option-cases, ap, sym, subst, if_rule,
}

-- `err`, empty on success.
pub data ListenError : Type 0 where
  no_error socket_failed invalid_address bind_failed listen_failed fcntl_failed : ListenError

-- inet_pton, bind, listen, set_nonblocking and getsockname, which gives the port. `socket` is the
-- descriptor.
pub record ListenAnswers : Type 0 where
  pub socket : Option ℕ
  pub address_ok : Bool
  pub bind_ok : Bool
  pub listen_ok : Bool
  pub nonblocking : Bool
  pub port : Option ℕ

-- The members of the server that listen is about, and the descriptors that the kernel has open.
pub record Listener : Type 0 where
  pub listen_fd : Option ℕ
  pub bound_port : ℕ
  pub open_fds : List ℕ

-- A failure behind the call of socket closes the descriptor.
abandon : ListenError → ℕ → List ℕ → Listener → ListenError × Listener
abandon e fd fds l = (e, record l { open_fds = without fd fds })

with_socket : ℕ → ListenAnswers → List ℕ → Listener → ListenError × Listener
unfolding abandon
with_socket fd a fds l =
    if not a.address_ok
    then abandon invalid_address fd fds l
    else if not a.bind_ok
    then abandon bind_failed fd fds l
    else if not a.listen_ok
    then abandon listen_failed fd fds l
    else if not a.nonblocking
    then abandon fcntl_failed fd fds l
    else (
      no_error,
      record l {
        listen_fd = some fd;
        bound_port = elim a.port [ none ↦ l.bound_port | some p ↦ p ];
        open_fds = fds;
      },
    )

unfoldable pub listen : ListenAnswers → Listener → ListenError × Listener
unfolding with_socket
listen a l = elim a.socket [
  | none ↦ (socket_failed, l)
  | some fd ↦ with_socket fd a (fd ∷ l.open_fds) l
]

-- What listen leaves: nothing new, or the descriptor of the socket.
abbrev pub Listens : ListenAnswers → Listener → ListenError × Listener → Type 0
Listens a l (no_error, l') =
    (fd : ℕ) × (a.socket ≡ some fd) × (l'.listen_fd ≡ some fd) × (l'.open_fds ≡ fd ∷ l.open_fds)
Listens a l (e, l') = l' ≡ l

with_socket_lem :
    (fd : ℕ) (a : ListenAnswers) (l : Listener)
    → a.socket ≡ some fd
    → Listens a l (with_socket fd a (fd ∷ l.open_fds) l)
unfolding with_socket
with_socket_lem fd a l h =
    let same : record l { open_fds = without fd (fd ∷ l.open_fds) } ≡ l =
      ap (λ (fds : List ℕ). record l { open_fds = fds }) (without-cons fd l.open_fds) in
    if_rule (Listens a l) (not a.address_ok) _ _ same (
      if_rule (Listens a l) (not a.bind_ok) _ _ same (
        if_rule (Listens a l) (not a.listen_ok) _ _ same
          (if_rule (Listens a l) (not a.nonblocking) _ _ same (fd, h, refl, refl))))

listen_socket :
    (a : ListenAnswers) (l : Listener) (fd : ℕ)
    → a.socket ≡ some fd
    → listen a l ≡ with_socket fd a (fd ∷ l.open_fds) l
unfolding listen
listen_socket a l fd e = ground arith

pub listen_leaves : (a : ListenAnswers) (l : Listener) → Listens a l (listen a l)
unfolding listen
listen_leaves a l = elim (Option-cases a.socket) [
  | inl e ↦ rw (e, listen) refl
  | inr (fd, e) ↦ subst (Listens a l) (sym (listen_socket a l fd e)) (with_socket_lem fd a l e)
]

-- listen succeeds exactly where every call that it checks does. Then the server has the new
-- descriptor, and this is the only one that is open in addition; else the server is as it was, and
-- no descriptor is left open.
pub listen_lem :
    (a : ListenAnswers) (l : Listener)
    → (((listen a l).0 ≡ no_error)
        ↔ (is_present a.socket ≡ true)
          × (a.address_ok ≡ true)
          × (a.bind_ok ≡ true)
          × (a.listen_ok ≡ true)
          × (a.nonblocking ≡ true))
      × Listens a l (listen a l)
unfolding listen
listen_lem a l = (ground arith, listen_leaves a l)
