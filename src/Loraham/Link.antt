-- ===== src/Loraham/Link.antt =====
-- src/backend/loraham/loraham_transport.h: the two non-blocking sockets to the daemon, seen from the
-- backend. What the kernel and the daemon do is an input: each list holds the answers that the next
-- calls get, in order, and an exhausted list stands for "nothing now". The backend's loops over
-- these calls are here, one step of the loop for one answer.
use meshcom_loraham_bridge.Prelude.{
  ℕ, ◌+◌, Bool, true, false, List, [], ◌∷◌, ◌==◌, if◌then◌else◌, length, take, drop, min, Bytes,
  length-drop, ◌≡◌, ◌≤◌, ◌↔◌, refl, arith,
}
use meshcom_loraham_bridge.Loraham.Config.{Band}

pub data ConnectState : Type 0 where
  connecting connected failed : ConnectState

-- The result of a send: -1, or the bytes taken, of which 0 means that the buffer is full.
pub data Send : Type 0 where
  send_failed : Send
  accepts : ℕ → Send

-- The result of a receive: negative, or the bytes read, of which none means that there are none.
pub data Recv : Type 0 where
  recv_failed : Recv
  received : Bytes → Recv

-- `data_sent` is what the daemon has got on the DATA socket since the connect.
pub record Link : Type 0 where
  pub is_open : Bool
  pub data_sent : Bytes
  pub begins : List Bool
  pub connects : List ConnectState
  pub conf_room : List Send
  pub data_room : List Send
  pub conf_in : List Recv
  pub data_in : List Recv

abbrev pub read_chunk : ℕ
read_chunk = 512

-- A receive returns at most what it has room for.
abbrev pub chunk_of : Bytes → Bytes
chunk_of bytes = take read_chunk bytes

unfoldable pub begin_answer : List Bool → Bool × List Bool
begin_answer [] = (true, [])
begin_answer (r ∷ rest) = (r, rest)

-- An existing connection is replaced.
unfoldable pub begin_connect : Band → Link → Bool × Link
unfolding begin_answer
begin_connect band l =
    let (r, rest) = begin_answer l.begins in
    (r, record l { is_open = r; data_sent = []; begins = rest })

unfoldable pub connect_answer : List ConnectState → ConnectState × List ConnectState
connect_answer [] = (connecting, [])
connect_answer (c ∷ rest) = (c, rest)

unfoldable pub poll_connect : Link → ConnectState × Link
unfolding connect_answer
poll_connect l = let (c, rest) = connect_answer l.connects in (c, record l { connects = rest })

unfoldable pub close : Link → Link
close l = record l { is_open = false }

-- The answers that the calls get; those on a closed socket fail.
unfoldable pub conf_reads : Link → List Recv
conf_reads l = if l.is_open then l.conf_in else recv_failed ∷ []

unfoldable pub data_reads : Link → List Recv
data_reads l = if l.is_open then l.data_in else recv_failed ∷ []

unfoldable pub conf_writes : Link → List Send
conf_writes l = if l.is_open then l.conf_room else send_failed ∷ []

unfoldable pub data_writes : Link → List Send
data_writes l = if l.is_open then l.data_room else send_failed ∷ []

pub data TxFlush : Type 0 where
  complete partial flush_failed : TxFlush

-- How a write loop ends, the number of bytes that went out, and the answers left over.
pub record Written : Type 0 where
  pub flush : TxFlush
  pub count : ℕ
  pub room : List Send

-- `while (off < size) { w = send_some(...); ... off += w; }` on the bytes that are left.
unfoldable pub send_loop : List Send → Bytes → Written
send_loop room [] = record { flush = complete; count = 0; room = room }
send_loop [] (b ∷ bytes) = record { flush = partial; count = 0; room = [] }
send_loop (send_failed ∷ room) (b ∷ bytes) = record { flush = flush_failed; count = 0; room = room }
send_loop (accepts n ∷ room) (b ∷ bytes) =
    let w = min n (length (b ∷ bytes)) in
    let more = send_loop room (drop w (b ∷ bytes)) in
    if w == 0
    then record { flush = partial; count = 0; room = room }
    else record more { count = w + more.count }

-- Never more bytes than were offered, and all of them exactly when the loop ends as complete.
pub send_loop_lem :
    (room : List Send) (bytes : Bytes)
    → ((send_loop room bytes).count ≤ length bytes)
      × (((send_loop room bytes).flush ≡ complete) ↔ ((send_loop room bytes).count ≡ length bytes))
unfolding send_loop
send_loop_lem room [] = (omega arith, ((λ h. refl), (λ h. refl)))
send_loop_lem [] (b ∷ bytes) = (omega arith, ((λ h. cc), (λ h. absurd (omega arith))))
send_loop_lem (send_failed ∷ room) (b ∷ bytes) =
    (omega arith, ((λ h. cc), (λ h. absurd (omega arith))))
send_loop_lem (accepts n ∷ room) (b ∷ bytes) = ground (
  arith,
  send_loop_lem room (drop (min n (length (b ∷ bytes))) (b ∷ bytes)),
  length-drop (min n (length (b ∷ bytes))) (b ∷ bytes),
)
