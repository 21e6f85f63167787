-- ===== src/Sps.antt =====
-- utils/sps.c: the server that finds clients and starts calls between two of them. This file has its state and
-- the operations on the list of clients; the callbacks of the event loop are in the child modules. An entry has an
-- address that no other entry gets again, which is the argument of its callback. Allocations succeed.
pub mod Report
pub mod Input
pub mod Calls
pub mod Timeouts
pub mod Table
pub mod Watch
pub mod Tracked
pub mod Tracking
pub mod Arrivals
pub mod Expiry
pub mod Kill
pub mod System
pub mod Pairing
pub mod Faults
pub mod Returns
mod Tests
use sphone.Prelude.{
  ℕ, suc, Bool, true, false, ◌&&◌, ◌||◌, not, ◌==◌, if◌then◌else◌, Option, none, some, List, [],
  ◌∷◌,
}
use sphone.Prelude.Memory.{Block}
use sphone.EventLoop.{Loop, eventloop_unreg}
use sphone.TimeVal.{TimeVal}
use sphone.Sp.{SockaddrIn, SpType, SpProto, StartHdr, same_addr}
use sphone.Sp.Message.{Received, Layout}

-- `enum client_state`
pub data ClientState : Type 0 where
  cs_init cs_idle cs_rcv cs_send : ClientState

-- `struct cf_entry`, with its address
pub record CfEntry : Type 0 where
  pub addr : ℕ
  pub cf_addr : SockaddrIn
  pub cf_addr_pub : SockaddrIn
  pub cf_id : ℕ
  pub cf_s : ℕ
  pub cf_state : ClientState
  pub cf_peer : ℕ
  pub cf_timeout : ℕ

-- The global variables, and everything else. `is_freed` says that the first entry of `cf_list` has been freed.
pub record Server (W : Type 0) : Type 0 where
  pub cf_list : List CfEntry
  pub is_freed : Bool
  pub next_entry : ℕ
  pub server_socket : Option ℕ
  pub test_id : ℕ
  pub net : W

-- How a callback ends: with 0, with -1, by a failed assertion, by a use of freed memory, or out of fuel
pub data Outcome : Type 0 where
  ok failed aborted fault no_fuel : Outcome

-- What the server writes to the file of a report: its six lines, and the bytes that follow
pub data LogLine : Type 0 where
  testid : ℕ → LogLine
  srcid : ℕ → LogLine
  dstid : ℕ → LogLine
  src : SockaddrIn → LogLine
  dst : SockaddrIn → LogLine
  start_dur : ℕ → ℕ → LogLine
  bytes : List ℕ → LogLine

-- What `accept` gives: an error, a peer of another family, or a socket and its peer
pub data Accepted : Type 0 where
  refused : Accepted
  strange : ℕ → Accepted
  accepted : ℕ → SockaddrIn → Accepted

-- What `recvfrom` gives: an error, a message of another program, version or length, or a message and its sender
pub data Datagram : Type 0 where
  unread : Datagram
  not_ours : Datagram
  datagram : SpProto → SockaddrIn → Datagram

-- The clock, the random numbers and what is computed from them with a `double`, sockets and files: `false` is a
-- negative result. `stack` is what memory holds that the code does not set.
pub record Net (W : Type 0) : Type 0 where
  pub gettimestamp : W → TimeVal × W
  pub random : W → ℕ × W
  pub call_duration : W → TimeVal × W
  -- `exprand` of the mean arrival divided by a number
  pub call_arrival : ℕ → W → TimeVal × W
  pub layout : Layout
  pub stack : W → Block
  pub recv : ℕ → ℕ → W → Received × W
  pub send : ℕ → SpProto → W → Bool × W
  pub accept : ℕ → W → Accepted × W
  pub recvfrom : ℕ → W → Datagram × W
  pub close : ℕ → W → W
  pub open_log : ℕ → W → Bool × W
  pub write : LogLine → W → Bool × W

-- The functions and the argument that the event loop is given; an entry's argument is its address.
abbrev pub client_input_fn : ℕ
client_input_fn = 1

abbrev pub connect_input_fn : ℕ
connect_input_fn = 2

abbrev pub udp_input_fn : ℕ
udp_input_fn = 3

abbrev pub client_timeout_fn : ℕ
client_timeout_fn = 4

abbrev pub client_startcalls_fn : ℕ
client_startcalls_fn = 5

abbrev pub cf_list_arg : ℕ
cf_list_arg = 0

unfoldable pub cfe_find : List CfEntry → SockaddrIn → Option CfEntry
cfe_find [] addr = none
cfe_find (cfe ∷ rest) addr = if same_addr cfe.cf_addr addr then some cfe else cfe_find rest addr

unfoldable pub cfe_find_byid : List CfEntry → ℕ → Option CfEntry
cfe_find_byid [] id = none
cfe_find_byid (cfe ∷ rest) id = if cfe.cf_id == id then some cfe else cfe_find_byid rest id

-- The entry at an address, which a pointer to it reads
unfoldable pub entry_at : ℕ → List CfEntry → Option CfEntry
entry_at a [] = none
entry_at a (cfe ∷ rest) = if a == cfe.addr then some cfe else entry_at a rest

-- A write through a pointer to an entry
unfoldable pub update : ℕ → (CfEntry → CfEntry) → List CfEntry → List CfEntry
update a f [] = []
update a f (cfe ∷ rest) = if a == cfe.addr then f cfe ∷ rest else cfe ∷ update a f rest

-- The loop of `cfe_rm`: the list without an entry
unfoldable pub without : ℕ → List CfEntry → List CfEntry
without a [] = []
without a (cfe ∷ rest) = if a == cfe.addr then rest else cfe ∷ without a rest

module _ {W : Type 0} where
  abbrev pub map_net : (W → W) → Loop (Server W) → Loop (Server W)
  map_net f l = record l { world = record l.world { net = f l.world.net } }

  abbrev pub set_list : List CfEntry → Loop (Server W) → Loop (Server W)
  set_list cfs l = record l { world = record l.world { cf_list = cfs } }

  -- What a `sphone_error` does to the loop; the exit handlers that it calls are left out.
  abbrev pub sphone_error : Loop (Server W) → Loop (Server W)
  sphone_error l = record l { sphone_exit = suc l.sphone_exit }

  -- The new entry, and where it is put: in front
  abbrev pub new_entry : SockaddrIn → Loop (Server W) → CfEntry
  new_entry from l = record {
    addr = l.world.next_entry;
    cf_addr = from;
    cf_addr_pub = record { sin_family = 0; sin_port = 0; s_addr = 0 };
    cf_id = 0;
    cf_s = 0;
    cf_state = cs_init;
    cf_peer = 0;
    cf_timeout = 10;
  }

  unfoldable pub cfe_add : SockaddrIn → Loop (Server W) → Loop (Server W)
  cfe_add from l = record l {
    world = record l.world {
      cf_list = new_entry from l ∷ l.world.cf_list;
      next_entry = suc l.world.next_entry;
    };
  }

module _ {W : Type 0} (io : Net W) where
  -- Its socket is closed here too, if it is not 0.
  unfoldable pub cfe_rm : CfEntry → Loop (Server W) → Loop (Server W)
  unfolding without
  cfe_rm cfe l =
      let l' = set_list (without cfe.addr l.world.cf_list) l in
      if cfe.cf_s == 0 then l' else map_net (io.close cfe.cf_s) l'

  -- `eventloop_unreg`, `close` and `cfe_rm`, as four places of the file do; `false` is the return of -1.
  unfoldable pub drop_client : CfEntry → Loop (Server W) → Bool × Loop (Server W)
  unfolding cfe_rm
  drop_client cfe l =
      let (found, l1) = eventloop_unreg cfe.cf_s client_input_fn cfe.addr l in
      if found
      then (true, cfe_rm cfe (map_net (io.close cfe.cf_s) l1))
      else (false, sphone_error l1)
