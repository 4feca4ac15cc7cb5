-- ===== src/Lib.antt =====
-- Verification of the MeshCom-LoRaHAM bridge.
--
-- The bridge takes one firmware client over TCP (the XR protocol) and drives the LoRaHAM daemon
-- over two UNIX sockets. An XrServer accepts a client and gives it an XrConnection, which owns an
-- XrSession. The session talks to a RadioBackend: it configures it, submits packets and ticks; the
-- backend reports to the session as to its BackendSink, from its poll. LorahamBackend is the
-- backend for the daemon.
--
-- Radio.antt: src/backend/radio_backend.h. The interface is a record of operations over a state. No
--   method of a sink calls the backend back, so poll is a change of state and the list of the calls
--   that it makes of the sink. Each operation reads the clock at most once and gets that time.
-- Loraham/Framing.antt: src/backend/loraham/loraham_framing.cpp and loraham_protocol.h, the frames
--   of the DATA socket. Pump is the loop over one read that loraham_backend.cpp has twice; Parse,
--   Stream, PumpRule, Reads, Chunking and Codec reason about it.
-- Loraham/Config.antt: src/backend/loraham/loraham_config.cpp, what the daemon accepts, and the SET
--   line.
-- Loraham/Link.antt: src/backend/loraham/loraham_transport.h. The daemon and the kernel are outside
--   the program: each socket call gets the next of a list of answers, and every list is covered.
-- Loraham/Backend.antt and its children: src/backend/loraham/loraham_backend.cpp. The record
--   Backend has the members of LorahamBackend. Conf reads CONF lines, Configure connects and
--   configures, Transmit writes a packet, Receive dispatches frames, Poll is the event loop's call;
--   Invariant, Credit and the modules Keeps, Credit, Outcome and Quiet are about them; Steps is any
--   sequence of calls.
--   The modules Backend/*/Sink are about the sink that is set, for BackendLaws of Radio. View is what
--   a session knows of its backend from the calls of its sink, and the modules Backend/*/View are
--   about that and a poll.
-- Loraham/Paths.antt and Loraham/Posix.antt: src/backend/loraham/loraham_posix_transport.cpp, the
--   paths of the sockets and the sockets, with the answers of the system calls. Connects is about
--   its descriptors, Refines relates its sends to the answers of Link.
-- Fake.antt: src/backend/fake_backend.cpp, the scripted backend for tests, by the same interface.
-- Auth.antt: src/auth/hmac_auth.cpp, with HMAC-SHA256 as a parameter. PasswordFile is about the
--   file that the password is read from.
-- Xr/Codec.antt: what is used of third_party/external_radio_protocol, as a parameter with laws.
-- Xr/Outbox.antt: src/util/bounded_buffer.h.
-- Xr/Session.antt and its children: src/xr/xr_session.cpp. Handle is handle_frame, Feed is feed,
--   Events are the methods of the sink, Time is next_deadline_ms and tick; open_session is open.
--   Wire is an automaton over the frames that a session may send, Invariant, Emit, Gate,
--   Time/Due and the modules Keeps and Parser are about the session, Steps is any sequence of calls.
--   Flight and the modules Meanwhile follow a transmission from its request to its result. View is
--   its view of the backend; ViewLaws in Agree is what it may rely on, and the modules Agree relate a
--   session to a backend by these laws.
-- Xr/Connection.antt: src/xr/xr_connection.cpp, and compute_timeout_ms of src/xr/xr_server.cpp.
-- Xr/Server.antt: src/xr/xr_server.cpp, a round of the event loop as a function of what poll, accept,
--   the sockets and the clock answer. Newcomers is try_accept, Invariant what holds between two
--   rounds, Agree LorahamBackend by the laws of ViewLaws, Run the loop over it, Listen the set-up of
--   the listening socket.
-- Xr/Toy.antt: a small codec by the laws of Xr/Codec, for the witnesses.
-- Rflog.antt: src/util/rflog.cpp, the lines of the RF log; Format, Lines and Whole are about them.
--   File is the file and its rollover, and File/Roll is about that.
-- Cli.antt: src/main.cpp. Number is strtoul and the numbers of options, Options the loop over argv,
--   Startup the rest up to the event loop; Options/Valid, Options/Print and Startup/Sound are about
--   them.
-- Prelude.antt: shared names, tests, lists and words.
--
-- Numbers are native; uint32_t and uint64_t sums wrap as in the source, int8_t and int16_t are kept
-- as their bit patterns. Loops over socket answers are recursion on the list of answers. The loop
-- over the bytes of one read runs on fuel: the bytes in the parser and twice those of the read, and
-- one more. A round takes a frame out of the parser or moves a byte at least into it, so that is
-- enough; PumpRule and Xr/Session/Feed/Keeps show it.
--
-- Not modelled: the vendored codec and OpenSSL (parameters); what is only printed or logged; the
-- clock, whose times are arguments; setsockopt, whose result the code ignores; signal handlers; and
-- the tests.
pub mod Prelude
pub mod Radio
pub mod Auth
pub mod Fake
pub mod Loraham
pub mod Xr
pub mod Rflog
pub mod Cli
