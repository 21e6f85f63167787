-- ===== src/Spc.antt =====
-- utils/spc.c, spc_send.c and spc_rcv.c: the client of a measurement, which sends packets to another client or
-- sends back what it receives. This file has its state; the callbacks are in the child modules. A session has an
-- address that no other session gets again, which is the argument of its timer. Allocations succeed.
pub mod Send
pub mod Receive
pub mod Control
pub mod Diagram
pub mod Refinement
pub mod Sending
pub mod Stale
mod Tests
use sphone.Prelude.{
  ℕ, suc, Bool, true, false, ◌==◌, if◌then◌else◌, Option, none, some, List, [], ◌∷◌,
}
use sphone.TimeVal.{TimeVal}
use sphone.Rtp.Header.{RtpHeader}
use sphone.EventLoop.{Loop}
use sphone.Sp.{SockaddrIn, SpType, SpProto, StartHdr}

-- `enum spc_state`
pub data SpcState : Type 0 where
  ss_init ss_server ss_data_rcv ss_data_send ss_data_send_closing : SpcState

-- A line of the log of a sender: the number of a packet, how long it was under way, and when it was sent
pub record LogEntry : Type 0 where
  pub number : ℕ
  pub delay : TimeVal
  pub sent : TimeVal

-- `struct sp_send_session`, with its address and what its log file holds
pub record SpSendSession : Type 0 where
  pub addr : ℕ
  pub ss_duration : TimeVal
  pub ss_dstaddr : SockaddrIn
  pub ss_t0 : TimeVal
  pub ss_hdr : StartHdr
  pub ss_rtp_payload : ℕ
  pub ss_rtp_ssrc : ℕ
  pub ss_seq : ℕ
  pub ss_rcvd : ℕ
  pub ss_log : List LogEntry

-- `struct sp_rcv_session`, as far as it is used, with its address
pub record SpRcvSession : Type 0 where
  pub addr : ℕ
  pub rs_hdr : StartHdr

-- `sp_data`
pub data Session : Type 0 where
  no_session : Session
  sending : SpSendSession → Session
  receiving : SpRcvSession → Session

-- `struct spc_info`, with what its `sp_coding` says of a packet, the static headers of spc_send.c, and everything
-- else. `none` is a socket of -1.
pub record Spc (W : Type 0) : Type 0 where
  pub sp_s : Option ℕ
  pub sp_ds : ℕ
  pub sp_id : ℕ
  pub sp_addr : SockaddrIn
  pub sp_state : SpcState
  pub sp_data : Session
  pub cp_size_ms : ℕ
  pub cp_size_bytes : ℕ
  pub hdr : RtpHeader
  pub next_session : ℕ
  pub net : W

-- How a callback ends: with 0, with -1, with the end of the process, or by a use of freed
-- memory, a null pointer or a division by 0
pub data Outcome : Type 0 where
  ok failed ended fault : Outcome

-- What `recv` gives from the server: an error, the end, a message of another program or version, or one of the
-- server's
pub data FromServer : Type 0 where
  unread closed not_ours : FromServer
  message : SpProto → FromServer

-- What `connect` gives: success, a refusal after which to try again, or another error
pub data Connected : Type 0 where
  connected try_again unconnected : Connected

-- The clock, sockets and files: `false` is a negative result.
pub record Net (W : Type 0) : Type 0 where
  pub sizeof_sp : ℕ
  pub gettimestamp : W → TimeVal × W
  pub random_ssrc : W → ℕ × W
  pub inet_input : ℕ → W → Option (List ℕ × SockaddrIn) × W
  pub sendto : ℕ → List ℕ → SockaddrIn → W → Bool × W
  pub socket : W → Option ℕ × W
  pub connect : ℕ → SockaddrIn → W → Connected × W
  pub close : ℕ → W → W
  pub recv : Option ℕ → W → FromServer × W
  -- A message on a socket, to an address where one is given, and bytes on a socket
  pub send_sp : Option ℕ → Option SockaddrIn → SpProto → W → Bool × W
  pub send_bytes : Option ℕ → List ℕ → W → Bool × W
  -- The log file is made, and found again; what `fprintf` writes to it.
  pub mkstemp : W → Bool × W
  pub open_log : W → Bool × W
  pub log_text : List LogEntry → List ℕ

abbrev pub server_input_fn : ℕ
server_input_fn = 1

abbrev pub udp_socket_input_fn : ℕ
udp_socket_input_fn = 2

abbrev pub sps_wrapper_fn : ℕ
sps_wrapper_fn = 3

abbrev pub send_data_wrapper_fn : ℕ
send_data_wrapper_fn = 4

abbrev pub rcv_timeout_fn : ℕ
rcv_timeout_fn = 5

abbrev pub spc_arg : ℕ
spc_arg = 0

module _ {W : Type 0} where
  abbrev pub set_net : W → Loop (Spc W) → Loop (Spc W)
  set_net w l = record l { world = record l.world { net = w } }

  abbrev pub set_state : SpcState → Loop (Spc W) → Loop (Spc W)
  set_state s l = record l { world = record l.world { sp_state = s } }

  abbrev pub set_session : Session → Loop (Spc W) → Loop (Spc W)
  set_session s l = record l { world = record l.world { sp_data = s } }

  -- What a `sphone_error` does to this program, but for its exit handlers
  abbrev pub sphone_error : Loop (Spc W) → Loop (Spc W)
  sphone_error l = record l { sphone_exit = suc l.sphone_exit }

-- The sessions that a pointer, an argument of a timer, reads; `none` is freed memory.
unfoldable pub send_session_at : ℕ → Session → Option SpSendSession
send_session_at a (sending ss) = if a == ss.addr then some ss else none
send_session_at a _ = none

unfoldable pub rcv_session_at : ℕ → Session → Option SpRcvSession
rcv_session_at a (receiving rs) = if a == rs.addr then some rs else none
rcv_session_at a _ = none
