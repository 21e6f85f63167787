-- ===== src/Sps/Tests.antt =====
-- Examples of the server: two clients that connect, and two that are idle.
use sphone.Prelude.{ℕ, suc, ◌+◌, ◌≡◌, ◌≢◌, refl, true, false, some, [], ◌∷◌, arith}
use sphone.EventLoop.{Loop, Event, event_fd, eventloop_reg_fd}
use sphone.Sp.{SockaddrIn, no_time, no_start, no_register, no_addr}
use sphone.Sp.Message.{reset}
use sphone.Sps.{
  cs_init, cs_idle, CfEntry, Server, no_fuel, Accepted, Datagram, Net, client_input_fn, cfe_find,
  cfe_add,
}
use sphone.Sps.Table.{In, Distinct, listed, watching}
use sphone.Sps.Tracked.{IsTracked}
use sphone.Sps.Input.{client_input, connect_input, after_accept, welcome, add_client, input_from}
use sphone.Sps.Calls.{client_startcalls}
use sphone.Sps.Timeouts.{client_timeout}
use sphone.Sps.System.{Reach, here, next, connect, Reach-IsTracked, client_input-finds}
use sphone.Sps.Expiry.{TickedFrom, client_timeout-ticked}
use sphone.Sps.Pairing.{Paired, client_startcalls-Paired}
use sphone.Sps.Returns.{client_input-Returns}

abbrev host : ℕ → SockaddrIn
host n = record { sin_family = 2; sin_port = 5000; s_addr = 0x0a000001 + n }

-- Every connection comes from a host of its own; every connection that is read is reset.
abbrev io : Net ℕ
io = record {
  gettimestamp = λ w. (no_time, w);
  random = λ w. (w, suc w);
  call_duration = λ w. (no_time, w);
  call_arrival = λ n w. (no_time, w);
  layout = record { sizeof_sp = 64; starthdr = λ m. no_start; reghdr = λ m. no_register };
  stack = λ w i. 0;
  recv = λ s n w. (reset, w);
  send = λ s sp w. (true, w);
  accept = λ s w. (Accepted.accepted (10 + w) (host w), suc w);
  recvfrom = λ s w. (Datagram.unread, w);
  close = λ s w. w;
  open_log = λ n w. (true, w);
  write = λ line w. (true, w);
}

abbrev start : Loop (Server ℕ)
start = record {
  ee = [];
  ee_timers = [];
  next_addr = 0;
  sphone_exit = 0;
  world = record {
    cf_list = [];
    is_freed = false;
    next_entry = 0;
    server_socket = some 3;
    test_id = 1;
    net = 0;
  };
}

start-IsTracked : IsTracked start
unfolding listed watching
start-IsTracked = record {
  same = λ s a. refl;
  one_entry = tt;
  one_event = tt;
  fresh_entry = tt;
  fresh_event = tt;
}

abbrev client : ℕ → CfEntry
client n = record {
  addr = n;
  cf_addr = host n;
  cf_addr_pub = no_addr;
  cf_id = 0;
  cf_s = 10 + n;
  cf_state = cs_init;
  cf_peer = 0;
  cf_timeout = 10;
}

abbrev event : ℕ → Event
event n = record {
  addr = n;
  e_fn = client_input_fn;
  e_type = event_fd;
  e_fd = 10 + n;
  e_time = no_time;
  e_arg = n;
}

abbrev two : Loop (Server ℕ)
two = record start {
  ee = event 1 ∷ event 0 ∷ [];
  next_addr = 2;
  world = record start.world { cf_list = client 1 ∷ client 0 ∷ []; next_entry = 2; net = 2 };
}

two-Reach : Reach io start two
unfolding connect_input after_accept welcome add_client cfe_add eventloop_reg_fd cfe_find
two-Reach = next (next here (connect 3)) (connect 3)

two-IsTracked : IsTracked two
two-IsTracked = Reach-IsTracked io start two start-IsTracked two-Reach refl

-- Both are idle, and known to the server by their UDP ports.
abbrev idle : ℕ → CfEntry
idle n = record (client n) { cf_addr_pub = host n; cf_id = 7 + n; cf_state = cs_idle }

abbrev idle_two : Loop (Server ℕ)
idle_two = record two { world = record two.world { cf_list = idle 1 ∷ idle 0 ∷ [] } }

idle_two-Distinct : Distinct idle_two.world.cf_list
idle_two-Distinct = (((λ e. omega (arith, e)), tt), (tt, tt))

Reach-IsTracked_example : IsTracked two
Reach-IsTracked_example = Reach-IsTracked io start two start-IsTracked two-Reach refl

two-watching : watching 11 1 two.ee ≡ true
unfolding watching
two-watching = refl

client_input-finds_example :
    (cfe : CfEntry) × In cfe two.world.cf_list
    × (cfe.addr ≡ 1)
    × (cfe.cf_s ≡ 11)
    × (client_input io 11 1 two ≡ input_from io cfe two)
client_input-finds_example =
    client_input-finds io start two 11 1 start-IsTracked two-Reach refl two-watching

client_timeout-ticked_example : TickedFrom io two (client_timeout io two)
client_timeout-ticked_example = client_timeout-ticked io two two-IsTracked refl tt

client_startcalls-Paired_example :
    Paired io idle_two.world.cf_list (client_startcalls io 5 idle_two).1.world.cf_list
client_startcalls-Paired_example = client_startcalls-Paired io 5 idle_two idle_two-Distinct

client_input-Returns_example : (client_input io 11 1 two).0 ≢ no_fuel
client_input-Returns_example = client_input-Returns io 11 1 two

two-known : cfe_find two.world.cf_list (host 0) ≡ some (client 0)
unfolding cfe_find
two-known = refl
