-- ===== src/Spc/Tests.antt =====
-- Examples of a client of a measurement: it sends, and its server goes away.
use sphone.Prelude.{ℕ, suc, ◌≡◌, refl, true, none, some, [], ◌∷◌}
use sphone.Prelude.Int.{pos}
use sphone.TimeVal.{TimeVal}
use sphone.EventLoop.{Loop, Event, event_fd, event_time, eventloop_unreg, remove_first}
use sphone.Sp.{no_time, no_start, no_addr}
use sphone.Spc.{
  ss_data_send, SpSendSession, sending, Spc, fault, FromServer, Connected, Net, server_input_fn,
  send_data_wrapper_fn,
}
use sphone.Spc.Send.{send_data_wrapper}
use sphone.Spc.Receive.{rcv_timeout}
use sphone.Spc.Control.{server_input}
use sphone.Spc.Diagram.{by_send_timer, Moves}
use sphone.Spc.Refinement.{run, run-Follows}
use sphone.Spc.Stale.{pending, server_input_stale}

-- The clock stands at 12 seconds and a half; the server's end is closed.
abbrev now : TimeVal
now = record { tv_sec = pos 12; tv_usec = pos 500000 }

abbrev io : Net ℕ
io = record {
  sizeof_sp = 64;
  gettimestamp = λ w. (now, w);
  random_ssrc = λ w. (9, w);
  inet_input = λ s w. (none, w);
  sendto = λ s bs a w. (true, suc w);
  socket = λ w. (some 4, w);
  connect = λ s a w. (Connected.connected, w);
  close = λ s w. w;
  recv = λ s w. (FromServer.closed, w);
  send_sp = λ s a sp w. (true, w);
  send_bytes = λ s bs w. (true, w);
  mkstemp = λ w. (true, w);
  open_log = λ w. (true, w);
  log_text = λ log. [];
}

-- Fifty packets of 20 ms should be on their way each second; 100 have been sent, and 40 have come back.
abbrev session : SpSendSession
session = record {
  addr = 6;
  ss_duration = record { tv_sec = pos 60; tv_usec = pos 0 };
  ss_dstaddr = no_addr;
  ss_t0 = record { tv_sec = pos 10; tv_usec = pos 0 };
  ss_hdr = no_start;
  ss_rtp_payload = 101;
  ss_rtp_ssrc = 9;
  ss_seq = 100;
  ss_rcvd = 40;
  ss_log = [];
}

abbrev session_timer : Event
session_timer = record {
  addr = 2;
  e_fn = send_data_wrapper_fn;
  e_type = event_time;
  e_fd = 0;
  e_time = now;
  e_arg = 6;
}

abbrev server_socket : Event
server_socket = record {
  addr = 1;
  e_fn = server_input_fn;
  e_type = event_fd;
  e_fd = 4;
  e_time = no_time;
  e_arg = 0;
}

abbrev client : Loop (Spc ℕ)
client = record {
  ee = server_socket ∷ [];
  ee_timers = session_timer ∷ [];
  next_addr = 3;
  sphone_exit = 0;
  world = record {
    sp_s = some 4;
    sp_ds = 5;
    sp_id = 7;
    sp_addr = no_addr;
    sp_state = ss_data_send;
    sp_data = sending session;
    cp_size_ms = 20;
    cp_size_bytes = 160;
    hdr = record { flags = 0; seq = 0; ts = record { sec = 0; frac = 0 }; ssrc = 0 };
    next_session = 7;
    net = 0;
  };
}

run-Follows_example :
    Moves (by_send_timer 6) ss_data_send (run io (by_send_timer 6) client).1.world.sp_state
run-Follows_example = run-Follows io (by_send_timer 6) client

server_found : (eventloop_unreg 4 server_input_fn 0 client).0 ≡ true
unfolding eventloop_unreg remove_first
server_found = refl

timer_pending : pending send_data_wrapper_fn 6 client.ee_timers ≡ true
unfolding pending
timer_pending = refl

server_input_stale_example :
    let l' = (server_input io client).1 in
    (pending send_data_wrapper_fn 6 l'.ee_timers ≡ true)
    × ((send_data_wrapper io 6 l').0 ≡ fault)
    × ((rcv_timeout io 6 l').0 ≡ fault)
server_input_stale_example =
    server_input_stale io client send_data_wrapper_fn 6 (refl, server_found) refl timer_pending
