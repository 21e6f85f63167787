-- ===== src/Sps/Returns.antt =====
-- The loops of utils/sps.c that read a message and a report end.
use sphone.Prelude.{
  if-holds, ℕ, zero, suc, ◌+◌, ◌-◌, ◌≤◌, ◌<◌, ◌≡◌, refl, ◌≢◌, Bool, true, false, not, ◌&&◌, ltb,
  ◌==◌, Option-cases, inl, inr, [], ◌∷◌, arith,
}
use sphone.Prelude.Memory.{Block}
use sphone.EventLoop.{Loop}
use sphone.Sp.{SpType, register, deregister, report_send, report_rcv, SpProto}
use sphone.Sp.Message.{
  Received, reset, error, got, Arrival, complete, gone, out_of_fuel, is_ours, store_all, take_piece,
  read_message, decode,
}
use sphone.Sps.{bytes, CfEntry, Server, Outcome, ok, no_fuel, Net, entry_at, drop_client}
use sphone.Sps.Report.{
  Report, kept, client_gone, report_failed, report_no_fuel, take_chunk, copy_report, rest_length,
  lose_client, end_report, after_lines, after_open, receive_send_report,
}
use sphone.Sps.Input.{
  to_idle, registered, set_entry, after_report, by_type, rcv_sp_proto, take_message, input_from,
  client_input,
}

module _ {W : Type 0} (recv : ℕ → W → Received × W) (size : ℕ) where
  take_piece-ne-out_of_fuel :
      (go : ℕ → Block → W → Arrival × W) (len : ℕ) (sp : Block) (r : Received) (w : W)
      → ((n : ℕ) (m : Block) (v : W) → len < n → (go n m v).0 ≢ out_of_fuel)
      → (take_piece go len sp r w).0 ≢ out_of_fuel
  unfolding take_piece
  take_piece-ne-out_of_fuel go len sp reset w h = λ e. cc
  take_piece-ne-out_of_fuel go len sp error w h = λ e. cc
  take_piece-ne-out_of_fuel go len sp (got []) w h = λ e. cc
  take_piece-ne-out_of_fuel go len sp (got (b ∷ bs)) w h =
      if-holds (λ (a : Arrival × W). a.0 ≢ out_of_fuel) (is_ours (store_all sp len (b ∷ bs)))
        (h _ _ w (omega arith)) (λ e. cc)

  read_message-ne-out_of_fuel :
      (fuel len : ℕ) (sp : Block) (w : W)
      → size ≤ len + fuel
      → (read_message recv size fuel len sp w).0 ≢ out_of_fuel
  unfolding read_message
  read_message-ne-out_of_fuel zero len sp w h = ground arith
  read_message-ne-out_of_fuel (suc fuel) len sp w h =
      if-holds (λ (a : Arrival × W). a.0 ≢ out_of_fuel) (ltb len size) {y = (complete sp, w)}
        (take_piece-ne-out_of_fuel (read_message recv size fuel) len sp (recv (size - len) w).0
          (recv (size - len) w).1
          (λ n m v more. read_message-ne-out_of_fuel fuel n m v (omega arith)))
        (λ (e : complete sp ≡ out_of_fuel). cc)

module _ {W : Type 0} (io : Net W) where
  take_chunk-ne-no_fuel :
      (go : ℕ → W → Report × W) (restlen : ℕ) (r : Received) (w : W)
      → ((n : ℕ) (v : W) → n < restlen → (go n v).0 ≢ report_no_fuel)
      → 0 < restlen
      → (take_chunk io go restlen r w).0 ≢ report_no_fuel
  unfolding take_chunk
  take_chunk-ne-no_fuel go restlen reset w h some_left = λ e. cc
  take_chunk-ne-no_fuel go restlen error w h some_left = λ e. cc
  take_chunk-ne-no_fuel go restlen (got []) w h some_left = λ e. cc
  take_chunk-ne-no_fuel go restlen (got (b ∷ bs)) w h some_left =
      if-holds (λ (a : Report × W). a.0 ≢ report_no_fuel) (io.write (bytes (b ∷ bs)) w).0
        (h _ _ (omega arith)) (λ e. cc)

  copy_report-ne-no_fuel :
      (fuel s n : ℕ) (w : W) → n ≤ fuel → (copy_report io fuel s n w).0 ≢ report_no_fuel
  unfolding copy_report
  copy_report-ne-no_fuel fuel s zero w h = λ e. cc
  copy_report-ne-no_fuel zero s (suc n) w h = absurd (omega arith)
  copy_report-ne-no_fuel (suc fuel) s (suc n) w h =
      take_chunk-ne-no_fuel (copy_report io fuel s) (suc n) _ _
        (λ m v less. copy_report-ne-no_fuel fuel s m v (omega arith)) (omega arith)

  abbrev Returns : Outcome × Loop (Server W) → Type 0
  Returns r = r.0 ≢ no_fuel

  lose_client-Returns : (cfe : CfEntry) (l : Loop (Server W)) → Returns (lose_client io cfe l)
  unfolding lose_client
  lose_client-Returns cfe l = if-holds Returns (drop_client io cfe l).0 (λ e. cc) (λ e. cc)

  end_report-Returns :
      (cfe : CfEntry) (r : Report) (l : Loop (Server W))
      → r ≢ report_no_fuel
      → Returns (end_report io cfe r l)
  unfolding end_report
  end_report-Returns cfe kept l h = λ e. cc
  end_report-Returns cfe report_failed l h = λ e. cc
  end_report-Returns cfe report_no_fuel l h = absurd (h refl)
  end_report-Returns cfe client_gone l h = lose_client-Returns cfe l

  after_lines-Returns :
      (b : Bool) (sp : SpProto) (cfe : CfEntry) (l : Loop (Server W))
      → Returns (after_lines io b sp cfe l)
  unfolding after_lines
  after_lines-Returns false sp cfe l = λ e. cc
  after_lines-Returns true sp cfe l =
      let n = rest_length io sp.sp_len in
      end_report-Returns cfe _ _ (copy_report-ne-no_fuel n cfe.cf_s n l.world.net (omega arith))

  after_open-Returns :
      (b : Bool) (sp : SpProto) (cfe : CfEntry) (l : Loop (Server W))
      → Returns (after_open io b sp cfe l)
  unfolding after_open
  after_open-Returns false sp cfe l = λ e. cc
  after_open-Returns true sp cfe l = after_lines-Returns _ sp cfe _

  set_entry-Returns :
      (a : ℕ) (f : CfEntry → CfEntry) (l : Loop (Server W)) → Returns (set_entry io a f l)
  unfolding set_entry
  set_entry-Returns a f l = ground arith

  after_report-Returns :
      (a : ℕ) (r : Outcome) (l : Loop (Server W)) → r ≢ no_fuel → Returns (after_report io a r l)
  unfolding after_report
  after_report-Returns a ok l h = set_entry-Returns a (to_idle io) l
  after_report-Returns a _ l h = h

  by_type-Returns :
      (type : SpType) (cfe : CfEntry) (sp : SpProto) (l : Loop (Server W))
      → Returns (by_type io type cfe sp l)
  unfolding by_type receive_send_report
  by_type-Returns register cfe sp l = set_entry-Returns cfe.addr (registered io sp) l
  by_type-Returns deregister cfe sp l = lose_client-Returns cfe l
  by_type-Returns report_send cfe sp l = after_report-Returns cfe.addr _ _ (
      if-holds Returns (sp.sp_len == io.layout.sizeof_sp) (λ e. cc) (after_open-Returns _ sp cfe _))
  by_type-Returns report_rcv cfe sp l = set_entry-Returns cfe.addr (to_idle io) l
  by_type-Returns _ cfe sp l = λ e. cc

  take_message-Returns :
      (cfe : CfEntry) (a : Arrival) (l : Loop (Server W))
      → a ≢ out_of_fuel
      → Returns (take_message io cfe a l)
  unfolding take_message rcv_sp_proto
  take_message-Returns cfe gone l h = lose_client-Returns cfe l
  take_message-Returns cfe out_of_fuel l h = absurd (h refl)
  take_message-Returns cfe (complete m) l h =
      let sp = decode io.layout m in
      if-holds Returns (not (cfe.cf_id == 0) && not (sp.sp_id == cfe.cf_id)) (λ e. cc)
        (by_type-Returns sp.sp_type cfe sp l)
  take_message-Returns cfe _ l h = λ e. cc

  -- Whatever the network gives, the callback for a client's input returns: the loop that puts a message together
  -- and the loop that copies a report both end.
  pub client_input-Returns :
      (s arg : ℕ) (l : Loop (Server W)) → (client_input io s arg l).0 ≢ no_fuel
  unfolding client_input input_from
  client_input-Returns s arg l = elim (Option-cases (entry_at arg l.world.cf_list)) [
    | inl e ↦ if-holds Returns l.world.is_freed (λ q. cc) (rw e (λ q. cc))
    | inr (c, e) ↦
        let size = io.layout.sizeof_sp in
        if-holds Returns l.world.is_freed (λ q. cc)
          (rw e (
            if-holds Returns (c.cf_s == s)
              (take_message-Returns c _ _ (
                read_message-ne-out_of_fuel (io.recv c.cf_s) size size 0 (io.stack l.world.net)
                  l.world.net (omega arith)))
              (λ q. cc)))
  ]
