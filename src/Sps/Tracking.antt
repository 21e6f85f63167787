-- ===== src/Sps/Tracking.antt =====
-- Every callback of utils/sps.c keeps the clients and their events together.
use sphone.Prelude.{
  if-holds, ℕ, ◌<◌, ◌≡◌, refl, sym, ◌∙◌, inl, inr, Bool, true, false, not, ◌&&◌, ◌==◌, Option-cases,
  Option, none, some, List, [], ◌∷◌,
}
use sphone.EventLoop.{Loop, eventloop_unreg}
use sphone.Sp.{SpType, register, deregister, report_send, report_rcv, exit, SpProto}
use sphone.Sp.Message.{Arrival, decode, complete, gone}
use sphone.Sps.{CfEntry, Server, Outcome, ok, Net, connect_input_fn, cf_list_arg, entry_at}
use sphone.Sps.Table.{In, In-listed, is_client, entry_at-In, KeepsAddr, KeepsSocket}
use sphone.Sps.Watch.{remove_first-other}
use sphone.Sps.Tracked.{IsTracked, IsSound, set_entry-IsTracked, drop_client-IsTracked}
use sphone.Sps.Report.{
  Report, kept, client_gone, report_failed, report_no_fuel, lose_client, end_report, after_lines,
  after_open, receive_send_report,
}
use sphone.Sps.Input.{
  set_entry, to_idle, registered, close_server, free_first, sps_exit, after_report, by_type,
  rcv_sp_proto, take_message, input_from, client_input,
}

module _ {W : Type 0} (io : Net W) where
  pub set_entry_lem :
      (a : ℕ) (f : CfEntry → CfEntry) (l : Loop (Server W))
      → KeepsAddr f
      → KeepsSocket f
      → IsTracked l
      → IsTracked (set_entry io a f l).1
  unfolding set_entry
  set_entry_lem a f l ka ks t = elim (Option-cases (entry_at a l.world.cf_list)) [
    | inl e ↦ rw (e, set_entry) t
    | inr (c, e) ↦ rw (e, set_entry) (set_entry-IsTracked a f l ka ks t)
  ]

  close_server-IsTracked :
      (o : Option ℕ) (l : Loop (Server W)) → IsTracked l → IsTracked (close_server io o l)
  unfolding close_server eventloop_unreg
  close_server-IsTracked none l t = t
  close_server-IsTracked (some s) l t =
      let other =
        remove_first-other (λ e. is_client e ≡ true → e.e_arg < l.world.next_entry) connect_input_fn
          s cf_list_arg l.ee (λ e. cc e) t.one_event t.fresh_event in
      record {
        same = λ s' a. t.same s' a ∙ sym (other.0 s' a);
        one_entry = t.one_entry;
        one_event = other.1;
        fresh_entry = t.fresh_entry;
        fresh_event = other.2;
      }

  free_first-IsSound :
      (cfs : List CfEntry) (l : Loop (Server W)) → IsTracked l → IsSound (free_first io cfs l)
  unfolding free_first
  free_first-IsSound [] l t = inr t
  free_first-IsSound (cfe ∷ rest) l t = inl refl

  -- `sps_exit` frees a client, or there is none.
  pub sps_exit-IsSound : (l : Loop (Server W)) → IsTracked l → IsSound (sps_exit io l)
  unfolding sps_exit
  sps_exit-IsSound l t = free_first-IsSound _ _ (close_server-IsTracked l.world.server_socket _ t)

  lose_client-IsTracked :
      (cfe : CfEntry) (l : Loop (Server W))
      → IsTracked l
      → In cfe l.world.cf_list
      → IsTracked (lose_client io cfe l).1
  unfolding lose_client
  lose_client-IsTracked cfe l t m =
      let d = drop_client-IsTracked io cfe l t (In-listed cfe l.world.cf_list m) in rw (d.0) d.3

  end_report-IsTracked :
      (cfe : CfEntry) (r : Report) (l : Loop (Server W))
      → IsTracked l
      → In cfe l.world.cf_list
      → IsTracked (end_report io cfe r l).1
  unfolding end_report
  end_report-IsTracked cfe kept l t m = t
  end_report-IsTracked cfe report_failed l t m = t
  end_report-IsTracked cfe report_no_fuel l t m = t
  end_report-IsTracked cfe client_gone l t m = lose_client-IsTracked cfe l t m

  after_lines-IsTracked :
      (b : Bool) (sp : SpProto) (cfe : CfEntry) (l : Loop (Server W))
      → IsTracked l
      → In cfe l.world.cf_list
      → IsTracked (after_lines io b sp cfe l).1
  unfolding after_lines
  after_lines-IsTracked false sp cfe l t m = t
  after_lines-IsTracked true sp cfe l t m = end_report-IsTracked cfe _ _ t m

  after_open-IsTracked :
      (b : Bool) (sp : SpProto) (cfe : CfEntry) (l : Loop (Server W))
      → IsTracked l
      → In cfe l.world.cf_list
      → IsTracked (after_open io b sp cfe l).1
  unfolding after_open
  after_open-IsTracked false sp cfe l t m = t
  after_open-IsTracked true sp cfe l t m = after_lines-IsTracked _ sp cfe _ t m

  receive_send_report-IsTracked :
      (sp : SpProto) (cfe : CfEntry) (l : Loop (Server W))
      → IsTracked l
      → In cfe l.world.cf_list
      → IsTracked (receive_send_report io sp cfe l).1
  unfolding receive_send_report
  receive_send_report-IsTracked sp cfe l t m =
      if-holds (λ (r : Outcome × Loop (Server W)). IsTracked r.1) (sp.sp_len == io.layout.sizeof_sp)
        t (after_open-IsTracked _ sp cfe _ t m)

  after_report-IsTracked :
      (a : ℕ) (r : Outcome) (l : Loop (Server W))
      → IsTracked l
      → IsTracked (after_report io a r l).1
  unfolding after_report
  after_report-IsTracked a ok l t = set_entry_lem a (to_idle io) l (λ c. refl) (λ c. refl) t
  after_report-IsTracked a _ l t = t

  by_type-IsSound :
      (type : SpType) (cfe : CfEntry) (sp : SpProto) (l : Loop (Server W))
      → IsTracked l
      → In cfe l.world.cf_list
      → IsSound (by_type io type cfe sp l).1
  unfolding by_type
  by_type-IsSound register cfe sp l t m =
      inr (set_entry_lem cfe.addr (registered io sp) l (λ c. refl) (λ c. refl) t)
  by_type-IsSound deregister cfe sp l t m = inr (lose_client-IsTracked cfe l t m)
  by_type-IsSound report_send cfe sp l t m =
      inr (after_report-IsTracked cfe.addr _ _ (receive_send_report-IsTracked sp cfe l t m))
  by_type-IsSound report_rcv cfe sp l t m =
      inr (set_entry_lem cfe.addr (to_idle io) l (λ c. refl) (λ c. refl) t)
  by_type-IsSound exit cfe sp l t m = sps_exit-IsSound l t
  by_type-IsSound _ cfe sp l t m = inr t

  take_message-IsSound :
      (cfe : CfEntry) (a : Arrival) (l : Loop (Server W))
      → IsTracked l
      → In cfe l.world.cf_list
      → IsSound (take_message io cfe a l).1
  unfolding take_message rcv_sp_proto
  take_message-IsSound cfe gone l t m = inr (lose_client-IsTracked cfe l t m)
  take_message-IsSound cfe (complete x) l t m =
      if-holds (λ (r : Outcome × Loop (Server W)). IsSound r.1)
        (not (cfe.cf_id == 0) && not ((decode io.layout x).sp_id == cfe.cf_id)) (inr t)
        (by_type-IsSound (decode io.layout x).sp_type cfe (decode io.layout x) l t m)
  take_message-IsSound cfe _ l t m = inr t

  pub client_input-IsSound :
      (s arg : ℕ) (l : Loop (Server W)) → IsSound l → IsSound (client_input io s arg l).1
  unfolding client_input input_from
  client_input-IsSound s arg l (inl f) = rw f (inl refl)
  client_input-IsSound s arg l (inr t) = elim (Option-cases (entry_at arg l.world.cf_list)) [
    | inl e ↦
        if-holds (λ (r : Outcome × Loop (Server W)). IsSound r.1) l.world.is_freed (inr t)
          (rw e (inr t))
    | inr (c, e) ↦
        let m = entry_at-In arg c l.world.cf_list e in
        if-holds (λ (r : Outcome × Loop (Server W)). IsSound r.1) l.world.is_freed (inr t)
          (rw e (
            if-holds (λ (r : Outcome × Loop (Server W)). IsSound r.1) (c.cf_s == s)
              (take_message-IsSound c _ _ t m.0) (inr t)))
  ]
