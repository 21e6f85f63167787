-- ===== src/Sps/Input.antt =====
-- What the server of utils/sps.c does with input: rcv_sp_proto, client_input,
-- connect_input, udp_input and sps_exit; a report is in Sps/Report.
use sphone.Prelude.{ℕ, true, not, ◌&&◌, ◌==◌, if◌then◌else◌, Option, none, some, List, [], ◌∷◌}
use sphone.EventLoop.{Loop, eventloop_reg_fd, eventloop_unreg}
use sphone.Sp.{
  SpType, register, deregister, report_send, report_rcv, exit, SockaddrIn, SpProto, same_addr,
  sp_timeout_reg_nr,
}
use sphone.Sp.Message.{Arrival, complete, gone, unread, refused, out_of_fuel, read_message, decode}
use sphone.Sps.{
  cs_init, cs_idle, CfEntry, Server, Outcome, ok, failed, aborted, fault, no_fuel, Accepted,
  Datagram, Net, client_input_fn, connect_input_fn, cf_list_arg, cfe_find, cfe_find_byid, entry_at,
  update, map_net, set_list, sphone_error, cfe_add,
}
use sphone.Sps.Report.{lose_client, receive_send_report}

module _ {W : Type 0} (io : Net W) where
  -- A write through `cfe`, which is a fault where the entry has been freed
  unfoldable pub set_entry : ℕ → (CfEntry → CfEntry) → Loop (Server W) → Outcome × Loop (Server W)
  unfolding update
  set_entry a f l = elim (entry_at a l.world.cf_list) [
    | none ↦ (fault, l)
    | some cfe ↦ (ok, set_list (update a f l.world.cf_list) l)
  ]

  abbrev pub to_idle : CfEntry → CfEntry
  to_idle cfe = record cfe { cf_state = cs_idle; cf_peer = 0 }

  abbrev pub registered : SpProto → CfEntry → CfEntry
  registered sp cfe = record cfe {
    cf_timeout = sp_timeout_reg_nr;
    cf_id = sp.sp_id;
    cf_peer = if sp.sp_reghdr.sr_busy == 0 then 0 else cfe.cf_peer;
    cf_addr_pub =
        if sp.sp_reghdr.sr_addr_pub.s_addr == 0 then cfe.cf_addr_pub else sp.sp_reghdr.sr_addr_pub;
  }

  -- "Close and deallocate server socket"
  unfoldable pub close_server : Option ℕ → Loop (Server W) → Loop (Server W)
  close_server none l = l
  close_server (some s) l =
      (eventloop_unreg s connect_input_fn cf_list_arg (map_net (io.close s) l)).1

  -- "Close and deallocate all clients": only the first is taken care of. Its entry is freed, and stays in the
  -- list.
  unfoldable pub free_first : List CfEntry → Loop (Server W) → Loop (Server W)
  free_first [] l = l
  free_first (cfe ∷ rest) l =
      let l1 = (eventloop_unreg cfe.cf_s client_input_fn cfe.addr l).1 in
      record l1 {
        world = record l1.world { net = io.close cfe.cf_s l1.world.net; is_freed = true };
      }

  unfoldable pub sps_exit : Loop (Server W) → Loop (Server W)
  unfolding close_server free_first
  sps_exit l =
      let (_, w) = io.gettimestamp l.world.net in
      let l1 = close_server l.world.server_socket (map_net (λ _. w) l) in
      free_first l1.world.cf_list l1

  -- What follows `receive_send_report`
  unfoldable pub after_report : ℕ → Outcome → Loop (Server W) → Outcome × Loop (Server W)
  unfolding set_entry
  after_report a ok l = set_entry a to_idle l
  after_report a r l = (r, l)

  -- The `switch` of `rcv_sp_proto`
  unfoldable pub by_type : SpType → CfEntry → SpProto → Loop (Server W) → Outcome × Loop (Server W)
  unfolding set_entry lose_client receive_send_report after_report sps_exit
  by_type register cfe sp l = set_entry cfe.addr (registered sp) l
  by_type deregister cfe sp l = lose_client io cfe l
  by_type report_send cfe sp l =
      let (r, l') = receive_send_report io sp cfe l in after_report cfe.addr r l'
  by_type report_rcv cfe sp l = set_entry cfe.addr to_idle l
  by_type exit cfe sp l = (ok, sps_exit l)
  by_type _ cfe sp l = (ok, l)

  unfoldable pub rcv_sp_proto : CfEntry → SpProto → Loop (Server W) → Outcome × Loop (Server W)
  unfolding by_type
  rcv_sp_proto cfe sp l = by_type sp.sp_type cfe sp l

  -- What `client_input` does with what its loop gives
  unfoldable pub take_message : CfEntry → Arrival → Loop (Server W) → Outcome × Loop (Server W)
  unfolding lose_client rcv_sp_proto
  take_message cfe gone l = lose_client io cfe l
  take_message cfe unread l = (failed, l)
  take_message cfe refused l = (ok, l)
  take_message cfe out_of_fuel l = (no_fuel, l)
  take_message cfe (complete m) l =
      let sp = decode io.layout m in
      if not (cfe.cf_id == 0) && not (sp.sp_id == cfe.cf_id) then (ok, l) else rcv_sp_proto cfe sp l

  -- From the entry that the pointer reads on
  unfoldable pub input_from : CfEntry → Loop (Server W) → Outcome × Loop (Server W)
  unfolding take_message
  input_from cfe l =
      let size = io.layout.sizeof_sp in
      let (arrival, w) =
        read_message (io.recv cfe.cf_s) size size 0 (io.stack l.world.net) l.world.net in
      take_message cfe arrival (map_net (λ _. w) l)

  -- "Sanity: cfe still exists", by an assertion
  unfoldable pub client_input : ℕ → ℕ → Loop (Server W) → Outcome × Loop (Server W)
  unfolding input_from
  client_input s arg l =
      if l.world.is_freed then (fault, l) else elim (entry_at arg l.world.cf_list) [
        | none ↦ (aborted, l)
        | some cfe ↦ if cfe.cf_s == s then input_from cfe l else (aborted, l)
      ]

  -- From `cfe_add` on
  unfoldable pub add_client : ℕ → SockaddrIn → Loop (Server W) → Outcome × Loop (Server W)
  unfolding update
  add_client s1 from l =
      let a = l.world.next_entry in
      let l1 = cfe_add from l in
      let l2 = set_list (update a (λ cfe. record cfe { cf_s = s1 }) l1.world.cf_list) l1 in
      (ok, eventloop_reg_fd s1 client_input_fn a l2)

  -- A client that connects again, or a new one. The known one is registered again, and, as its `return 0` hangs
  -- on a test that fails, it is added once more.
  unfoldable pub welcome :
      Option CfEntry → ℕ → SockaddrIn → Loop (Server W) → Outcome × Loop (Server W)
  unfolding add_client
  welcome none s1 from l = add_client s1 from l
  welcome (some cfe) s1 from l =
      let (found, l1) = eventloop_unreg cfe.cf_s client_input_fn cfe.addr l in
      if not found
      then (failed, sphone_error l1)
      else (let l2 = map_net (io.close cfe.cf_s) l1 in
          let l3 = set_list (update cfe.addr (λ c. record c { cf_s = s1 }) l2.world.cf_list) l2 in
          add_client s1 from (eventloop_reg_fd s1 client_input_fn cfe.addr l3))

  unfoldable pub after_accept : Accepted → Loop (Server W) → Outcome × Loop (Server W)
  unfolding welcome
  after_accept Accepted.refused l = (failed, l)
  after_accept (Accepted.strange s1) l = (ok, map_net (io.close s1) l)
  after_accept (Accepted.accepted s1 from) l =
      if l.world.is_freed then (fault, l) else welcome (cfe_find l.world.cf_list from) s1 from l

  unfoldable pub connect_input : ℕ → Loop (Server W) → Outcome × Loop (Server W)
  unfolding after_accept
  connect_input s l = let (a, w) = io.accept s l.world.net in after_accept a (map_net (λ _. w) l)

  abbrev pub at_public : SockaddrIn → CfEntry → CfEntry
  at_public from cfe = record cfe {
    cf_timeout = sp_timeout_reg_nr;
    cf_addr_pub = from;
    cf_state = elim cfe.cf_state [ cs_init ↦ cs_idle | other ↦ other ];
  }

  unfoldable pub probe : Option CfEntry → SockaddrIn → Loop (Server W) → Outcome × Loop (Server W)
  unfolding set_entry
  probe none from l = (ok, l)
  probe (some cfe) from l =
      if same_addr from cfe.cf_addr_pub then (ok, l) else set_entry cfe.addr (at_public from) l

  unfoldable pub udp_by_type :
      SpType → SpProto → SockaddrIn → Loop (Server W) → Outcome × Loop (Server W)
  unfolding probe sps_exit
  udp_by_type exit sp from l = if l.world.is_freed then (fault, l) else (failed, sps_exit l)
  udp_by_type register sp from l =
      if l.world.is_freed then (fault, l) else probe (cfe_find_byid l.world.cf_list sp.sp_id) from l
  udp_by_type _ sp from l = (failed, l)

  unfoldable pub after_recvfrom : Datagram → Loop (Server W) → Outcome × Loop (Server W)
  unfolding udp_by_type
  after_recvfrom Datagram.unread l = (failed, l)
  after_recvfrom Datagram.not_ours l = (ok, l)
  after_recvfrom (Datagram.datagram sp from) l = udp_by_type sp.sp_type sp from l

  unfoldable pub udp_input : ℕ → Loop (Server W) → Outcome × Loop (Server W)
  unfolding after_recvfrom
  udp_input s l = let (d, w) = io.recvfrom s l.world.net in after_recvfrom d (map_net (λ _. w) l)
