-- ===== src/Sps/Calls.antt =====
-- How the server of utils/sps.c starts a call: client_output and client_startcalls.
use sphone.Prelude.{
  ℕ, zero, suc, ◌-◌, ◌%◌, Bool, true, false, ◌&&◌, ltb, ◌==◌, if◌then◌else◌, Option, none, some,
  length, get_elem?,
}
use sphone.Prelude.Words.{u32}
use sphone.TimeVal.{TimeVal, timeradd}
use sphone.EventLoop.{Loop, eventloop_reg_timeout}
use sphone.Sp.{SpType, start_send, start_rcv, SpProto, SockaddrIn, no_register}
use sphone.Sps.{
  ClientState, cs_idle, cs_rcv, cs_send, CfEntry, Server, Outcome, ok, failed, aborted, fault,
  no_fuel, Net, client_startcalls_fn, cf_list_arg, update, map_net, set_list,
}

-- Where the audio comes from and goes to, as seen from the client
abbrev pub ends : SpType → CfEntry → CfEntry → SockaddrIn × SockaddrIn
ends start_rcv cfe peer = (peer.cf_addr_pub, cfe.cf_addr_pub)
ends _ cfe peer = (cfe.cf_addr_pub, peer.cf_addr_pub)

abbrev pub is_idle : ClientState → Bool
is_idle cs_idle = true
is_idle _ = false

module _ {W : Type 0} (io : Net W) where
  unfoldable pub start_message : SpType → CfEntry → CfEntry → TimeVal → TimeVal → ℕ → SpProto
  start_message type cfe peer now duration test_id = record {
    sp_type = type;
    sp_len = io.layout.sizeof_sp;
    sp_id = cfe.cf_id;
    sp_starthdr = record {
      ss_testid = test_id;
      ss_clientid_src = cfe.cf_id;
      ss_clientid_dst = peer.cf_id;
      ss_addr_src_pub = (ends type cfe peer).0;
      ss_addr_dst_pub = (ends type cfe peer).1;
      ss_time_start = now;
      ss_time_duration = duration;
    };
    sp_reghdr = no_register;
  }

  -- Called for the two types of start only. The assertion is on the client's own address for both.
  unfoldable pub client_output :
      CfEntry → CfEntry → SpType → TimeVal → ℕ → Loop (Server W) → Outcome × Loop (Server W)
  unfolding start_message
  client_output cfe peer type duration test_id l =
      let (now, w1) = io.gettimestamp l.world.net in
      if cfe.cf_addr_pub.s_addr == 0
      then (aborted, map_net (λ _. w1) l)
      else (let (sent, w2) =
            io.send cfe.cf_s (start_message type cfe peer now duration test_id) w1 in
          if sent
          then (ok, map_net (λ _. w2) l)
          else (failed, map_net (λ _. io.close cfe.cf_s w2) l))

  -- `while (index1 == (index2 = random()%nr));`
  unfoldable pub pick_other : ℕ → ℕ → ℕ → W → Option ℕ × W
  pick_other zero index1 nr w = (none, w)
  pick_other (suc fuel) index1 nr w =
      let (r, w1) = io.random w in
      let rest = pick_other fuel index1 nr w1 in
      if index1 == r % nr then rest else (some (r % nr), w1)

  -- From `done` on; `r` is what has been decided.
  unfoldable pub next_call : ℕ → Outcome → Loop (Server W) → Outcome × Loop (Server W)
  next_call nr r l =
      let (delta, w1) = io.call_arrival (if ltb 1 (nr - 1) then nr - 1 else 1) l.world.net in
      let (t, w2) = io.gettimestamp w1 in
      (
        r,
        eventloop_reg_timeout (timeradd t delta) client_startcalls_fn cf_list_arg
            (map_net (λ _. w2) l),
      )

  abbrev pub busy : ClientState → ℕ → CfEntry → CfEntry
  busy state peer cfe = record cfe { cf_state = state; cf_peer = peer }

  -- Once both messages are sent
  unfoldable pub commit_call :
      Outcome → CfEntry → CfEntry → Loop (Server W) → Outcome × Loop (Server W)
  unfolding update
  commit_call ok cf_send cf_rcv l =
      let cfs = update cf_send.addr (busy cs_send cf_rcv.cf_id) l.world.cf_list in
      (ok, set_list (update cf_rcv.addr (busy cs_rcv cf_send.cf_id) cfs) l)
  commit_call r cf_send cf_rcv l = (r, l)

  -- The message to the receiver, once that to the sender is sent
  unfoldable pub output_rcv :
      Outcome → CfEntry → CfEntry → TimeVal → ℕ → Loop (Server W) → Outcome × Loop (Server W)
  unfolding client_output commit_call
  output_rcv ok cf_send cf_rcv duration test_id l =
      let (r, l') = client_output cf_rcv cf_send start_rcv duration test_id l in
      commit_call r cf_send cf_rcv l'
  output_rcv r cf_send cf_rcv duration test_id l = (r, l)

  unfoldable pub connect_clients :
      CfEntry → CfEntry → TimeVal → Loop (Server W) → Outcome × Loop (Server W)
  unfolding client_output output_rcv
  connect_clients cf_send cf_rcv duration l =
      let this_test_id = l.world.test_id in
      let l1 = record l { world = record l.world { test_id = u32 (suc this_test_id) } } in
      let (r, l2) = client_output cf_send cf_rcv start_send duration this_test_id l1 in
      output_rcv r cf_send cf_rcv duration this_test_id l2

  -- The two clients are chosen.
  unfoldable pub call_clients : CfEntry → CfEntry → Loop (Server W) → Outcome × Loop (Server W)
  unfolding connect_clients
  call_clients cf_send cf_rcv l =
      let (duration, w1) = io.call_duration l.world.net in
      let (_, w2) = io.gettimestamp w1 in
      let l' = map_net (λ _. w2) l in
      if is_idle cf_send.cf_state && is_idle cf_rcv.cf_state
      then connect_clients cf_send cf_rcv duration l'
      else (ok, l')

  -- A failed assertion ends the process; every other way leads to `done`.
  unfoldable pub after_call : ℕ → Outcome → Loop (Server W) → Outcome × Loop (Server W)
  unfolding next_call
  after_call nr aborted l = (aborted, l)
  after_call nr r l = next_call nr r l

  -- The two entries that the loop over the list finds
  unfoldable pub call_pair :
      ℕ → Option CfEntry → Option CfEntry → Loop (Server W) → Outcome × Loop (Server W)
  unfolding call_clients after_call
  call_pair nr (some cf_send) (some cf_rcv) l =
      let (r, l') = call_clients cf_send cf_rcv l in after_call nr r l'
  call_pair nr _ _ l = (fault, l)

  unfoldable pub call_indices : ℕ → ℕ → Option ℕ → Loop (Server W) → Outcome × Loop (Server W)
  unfolding call_pair
  call_indices nr index1 none l = (no_fuel, l)
  call_indices nr index1 (some index2) l =
      call_pair nr (get_elem? l.world.cf_list index1) (get_elem? l.world.cf_list index2) l

  -- `tries` bounds the random numbers that are drawn for the second client.
  unfoldable pub client_startcalls : ℕ → Loop (Server W) → Outcome × Loop (Server W)
  unfolding pick_other call_indices next_call
  client_startcalls tries l =
      let nr = length l.world.cf_list in
      if l.world.is_freed
      then (fault, l)
      else (if ltb nr 2
          then next_call nr ok l
          else (let (r1, w1) = io.random l.world.net in
              let (index2, w2) = pick_other tries (r1 % nr) nr w1 in
              call_indices nr (r1 % nr) index2 (map_net (λ _. w2) l)))
