-- ===== src/Sps/Arrivals.antt =====
-- The callbacks of utils/sps.c for connections, datagrams, calls and timeouts keep the clients and their events
-- together.
use sphone.Prelude.{
  if-holds, ℕ, ◌≡◌, refl, inl, inr, ◌&&◌, ◌==◌, ltb, Option, none, some, length, get_elem?,
}
use sphone.TimeVal.{TimeVal}
use sphone.EventLoop.{Loop, eventloop_reg_timeout}
use sphone.Sp.{SpType, register, exit, SockaddrIn, SpProto, same_addr}
use sphone.Sps.{
  CfEntry, Server, Outcome, ok, aborted, Net, cs_send, cs_rcv, update, set_list, Accepted, Datagram,
}
use sphone.Sps.Table.{In, In-listed, cfe_find-In}
use sphone.Sps.Tracked.{
  IsTracked, IsSound, unreg_client, set_entry-IsTracked, add_client-IsTracked, rewatch-IsTracked,
  rewatch,
}
use sphone.Sps.Tracking.{set_entry_lem, sps_exit-IsSound}
use sphone.Sps.Input.{
  welcome, after_accept, connect_input, at_public, probe, udp_by_type, after_recvfrom, udp_input,
}
use sphone.Sps.Calls.{
  is_idle, client_output, next_call, busy, commit_call, output_rcv, connect_clients, call_clients,
  after_call, call_pair, call_indices, client_startcalls,
}

module _ {W : Type 0} (io : Net W) where
  abbrev Sound : Outcome × Loop (Server W) → Type 0
  Sound r = IsSound r.1

  abbrev Kept : Outcome × Loop (Server W) → Type 0
  Kept r = IsTracked r.1

  welcome-IsTracked :
      (o : Option CfEntry) (s1 : ℕ) (from : SockaddrIn) (l : Loop (Server W))
      → IsTracked l
      → ((c : CfEntry) → o ≡ some c → In c l.world.cf_list)
      → IsTracked (welcome io o s1 from l).1
  unfolding welcome
  welcome-IsTracked none s1 from l t h = add_client-IsTracked io s1 from l t
  welcome-IsTracked (some cfe) s1 from l t h =
      let m = h cfe refl in
      let u = unreg_client cfe l t (In-listed cfe l.world.cf_list m) in
      rw (u.0) (
        add_client-IsTracked io s1 from (rewatch (io.close cfe.cf_s) cfe s1 l)
          (rewatch-IsTracked (io.close cfe.cf_s) cfe s1 l t m))

  after_accept-IsSound :
      (a : Accepted) (l : Loop (Server W)) → IsSound l → IsSound (after_accept io a l).1
  unfolding after_accept
  after_accept-IsSound Accepted.refused l t = t
  after_accept-IsSound (Accepted.strange s1) l t = t
  after_accept-IsSound (Accepted.accepted s1 from) l (inl f) = rw f (inl refl)
  after_accept-IsSound (Accepted.accepted s1 from) l (inr t) =
      if-holds Sound l.world.is_freed (inr t)
        (inr (welcome-IsTracked _ s1 from l t (λ c e. cfe_find-In from c l.world.cf_list e)))

  pub connect_input-IsSound :
      (s : ℕ) (l : Loop (Server W)) → IsSound l → IsSound (connect_input io s l).1
  unfolding connect_input
  connect_input-IsSound s l t = after_accept-IsSound _ _ t

  probe-IsTracked :
      (o : Option CfEntry) (from : SockaddrIn) (l : Loop (Server W))
      → IsTracked l
      → IsTracked (probe io o from l).1
  unfolding probe
  probe-IsTracked none from l t = t
  probe-IsTracked (some cfe) from l t =
      if-holds Kept (same_addr from cfe.cf_addr_pub) t
        (set_entry_lem io cfe.addr (at_public io from) l (λ c. refl) (λ c. refl) t)

  udp_by_type-IsSound :
      (type : SpType) (sp : SpProto) (from : SockaddrIn) (l : Loop (Server W))
      → IsSound l
      → IsSound (udp_by_type io type sp from l).1
  unfolding udp_by_type
  udp_by_type-IsSound exit sp from l (inl f) = rw f (inl refl)
  udp_by_type-IsSound exit sp from l (inr t) =
      if-holds Sound l.world.is_freed (inr t) (sps_exit-IsSound io l t)
  udp_by_type-IsSound register sp from l (inl f) = rw f (inl refl)
  udp_by_type-IsSound register sp from l (inr t) =
      if-holds Sound l.world.is_freed (inr t) (inr (probe-IsTracked _ from l t))
  udp_by_type-IsSound _ sp from l t = t

  after_recvfrom-IsSound :
      (d : Datagram) (l : Loop (Server W)) → IsSound l → IsSound (after_recvfrom io d l).1
  unfolding after_recvfrom
  after_recvfrom-IsSound Datagram.unread l t = t
  after_recvfrom-IsSound Datagram.not_ours l t = t
  after_recvfrom-IsSound (Datagram.datagram sp from) l t =
      udp_by_type-IsSound sp.sp_type sp from l t

  pub udp_input-IsSound : (s : ℕ) (l : Loop (Server W)) → IsSound l → IsSound (udp_input io s l).1
  unfolding udp_input
  udp_input-IsSound s l t = after_recvfrom-IsSound _ _ t

  client_output-IsTracked :
      (cfe peer : CfEntry) (type : SpType) (d : TimeVal) (n : ℕ) (l : Loop (Server W))
      → IsTracked l
      → IsTracked (client_output io cfe peer type d n l).1
  unfolding client_output
  client_output-IsTracked cfe peer type d n l t =
      if-holds Kept (cfe.cf_addr_pub.s_addr == 0) t (if-holds Kept _ t t)

  commit_call-IsTracked :
      (r : Outcome) (a b : CfEntry) (l : Loop (Server W))
      → IsTracked l
      → IsTracked (commit_call io r a b l).1
  unfolding commit_call
  commit_call-IsTracked ok a b l t =
      set_entry-IsTracked b.addr (busy io cs_rcv a.cf_id)
        (set_list (update a.addr (busy io cs_send b.cf_id) l.world.cf_list) l) (λ c. refl)
        (λ c. refl)
        (set_entry-IsTracked a.addr (busy io cs_send b.cf_id) l (λ c. refl) (λ c. refl) t)
  commit_call-IsTracked _ a b l t = t

  output_rcv-IsTracked :
      (r : Outcome) (a b : CfEntry) (d : TimeVal) (n : ℕ) (l : Loop (Server W))
      → IsTracked l
      → IsTracked (output_rcv io r a b d n l).1
  unfolding output_rcv
  output_rcv-IsTracked ok a b d n l t =
      commit_call-IsTracked _ a b _ (client_output-IsTracked b a _ d n l t)
  output_rcv-IsTracked _ a b d n l t = t

  call_clients-IsTracked :
      (a b : CfEntry) (l : Loop (Server W)) → IsTracked l → IsTracked (call_clients io a b l).1
  unfolding call_clients connect_clients
  call_clients-IsTracked a b l t =
      if-holds Kept (is_idle a.cf_state && is_idle b.cf_state)
        (output_rcv-IsTracked _ a b _ _ _ (client_output-IsTracked a b _ _ _ _ t)) t

  after_call-IsTracked :
      (nr : ℕ) (r : Outcome) (l : Loop (Server W))
      → IsTracked l
      → IsTracked (after_call io nr r l).1
  unfolding after_call next_call eventloop_reg_timeout
  after_call-IsTracked nr aborted l t = t
  after_call-IsTracked nr _ l t = t

  call_pair-IsTracked :
      (nr : ℕ) (a b : Option CfEntry) (l : Loop (Server W))
      → IsTracked l
      → IsTracked (call_pair io nr a b l).1
  unfolding call_pair
  call_pair-IsTracked nr (some a) (some b) l t =
      after_call-IsTracked nr _ _ (call_clients-IsTracked a b l t)
  call_pair-IsTracked nr none _ l t = t
  call_pair-IsTracked nr (some a) none l t = t

  call_indices-IsTracked :
      (nr i : ℕ) (o : Option ℕ) (l : Loop (Server W))
      → IsTracked l
      → IsTracked (call_indices io nr i o l).1
  unfolding call_indices
  call_indices-IsTracked nr i none l t = t
  call_indices-IsTracked nr i (some j) l t =
      call_pair-IsTracked nr (get_elem? l.world.cf_list i) (get_elem? l.world.cf_list j) l t

  pub client_startcalls-IsSound :
      (tries : ℕ) (l : Loop (Server W)) → IsSound l → IsSound (client_startcalls io tries l).1
  unfolding client_startcalls next_call eventloop_reg_timeout
  client_startcalls-IsSound tries l (inl f) = rw f (inl refl)
  client_startcalls-IsSound tries l (inr t) = if-holds Sound l.world.is_freed (inr t) (
      if-holds Sound (ltb (length l.world.cf_list) 2) (inr t)
        (inr (call_indices-IsTracked _ _ _ _ t)))
