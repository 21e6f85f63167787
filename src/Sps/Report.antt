-- ===== src/Sps/Report.antt =====
-- receive_send_report of utils/sps.c: a report of a sender is copied to a file as it comes.
use sphone.Prelude.{
  ℕ, zero, suc, ◌+◌, ◌-◌, ◌^◌, Bool, true, false, ltb, ◌==◌, if◌then◌else◌, List, [], ◌∷◌, length,
}
use sphone.Prelude.Int.{pos_part}
use sphone.Prelude.Words.{u32}
use sphone.EventLoop.{Loop}
use sphone.Sp.{SpProto, StartHdr, sp_buflen}
use sphone.Sp.Message.{Received, reset, error, got}
use sphone.Sps.{
  CfEntry, Server, Outcome, ok, failed, no_fuel, LogLine, testid, srcid, dstid, src, dst, start_dur,
  bytes, Net, map_net, drop_client,
}

-- How the loop over the rest of a report ends: 0, with the client kept or gone, -1, or out of fuel
pub data Report : Type 0 where
  kept client_gone report_failed report_no_fuel : Report

abbrev min : ℕ → ℕ → ℕ
min a b = if ltb a b then a else b

module _ {W : Type 0} (io : Net W) where
  -- The lines in front of the report; `false` is -1.
  unfoldable pub write_all : List LogLine → W → Bool × W
  write_all [] w = (true, w)
  write_all (line ∷ lines) w =
      let (written, w1) = io.write line w in
      let rest = write_all lines w1 in if written then rest else (false, w1)

  abbrev pub header : StartHdr → List LogLine
  header hdr =
      testid hdr.ss_testid
      ∷ srcid hdr.ss_clientid_src
      ∷ dstid hdr.ss_clientid_dst
      ∷ src hdr.ss_addr_src_pub
      ∷ dst hdr.ss_addr_dst_pub
      ∷ start_dur (pos_part hdr.ss_time_start.tv_sec)
          (u32 (pos_part hdr.ss_time_duration.tv_sec + 1))
      ∷ []

  -- A chunk of the report, which is written as it comes; `go` is the rest of the loop.
  unfoldable pub take_chunk : (ℕ → W → Report × W) → ℕ → Received → W → Report × W
  take_chunk go restlen reset w = (client_gone, w)
  take_chunk go restlen error w = (report_failed, w)
  take_chunk go restlen (got []) w = (kept, w)
  take_chunk go restlen (got (b ∷ bs)) w =
      let (written, w1) = io.write (bytes (b ∷ bs)) w in
      if written then go (restlen - length (b ∷ bs)) w1 else (report_failed, w1)

  -- `while (len > 0 && restlen > 0)`
  unfoldable pub copy_report : ℕ → ℕ → ℕ → W → Report × W
  unfolding take_chunk
  copy_report fuel s zero w = (kept, w)
  copy_report zero s (suc n) w = (report_no_fuel, w)
  copy_report (suc fuel) s (suc n) w =
      let (r, w1) = io.recv s (min sp_buflen (suc n)) w in
      take_chunk (copy_report fuel s) (suc n) r w1

  -- `restlen` is an `int`, for which the loop makes no round where it is below 0.
  abbrev pub rest_length : ℕ → ℕ
  rest_length sp_len = let n = sp_len - io.layout.sizeof_sp in if ltb n (2 ^ 31) then n else 0

  -- `eventloop_unreg`, `close` and `cfe_rm`, and the return of 0 or -1
  unfoldable pub lose_client : CfEntry → Loop (Server W) → Outcome × Loop (Server W)
  lose_client cfe l =
      let (dropped, l') = drop_client io cfe l in if dropped then (ok, l') else (failed, l')

  unfoldable pub end_report : CfEntry → Report → Loop (Server W) → Outcome × Loop (Server W)
  unfolding lose_client
  end_report cfe kept l = (ok, l)
  end_report cfe report_failed l = (failed, l)
  end_report cfe report_no_fuel l = (no_fuel, l)
  end_report cfe client_gone l = lose_client cfe l

  -- Once the lines are written, or not
  unfoldable pub after_lines :
      Bool → SpProto → CfEntry → Loop (Server W) → Outcome × Loop (Server W)
  unfolding copy_report end_report
  after_lines false sp cfe l = (failed, l)
  after_lines true sp cfe l =
      let n = rest_length sp.sp_len in
      let (report, w) = copy_report n cfe.cf_s n l.world.net in
      end_report cfe report (map_net (λ _. w) l)

  -- Once the file is open, or not
  unfoldable pub after_open : Bool → SpProto → CfEntry → Loop (Server W) → Outcome × Loop (Server W)
  unfolding write_all after_lines
  after_open false sp cfe l = (failed, l)
  after_open true sp cfe l =
      let (written, w) = write_all (header sp.sp_starthdr) l.world.net in
      after_lines written sp cfe (map_net (λ _. w) l)

  unfoldable pub receive_send_report :
      SpProto → CfEntry → Loop (Server W) → Outcome × Loop (Server W)
  unfolding after_open
  receive_send_report sp cfe l =
      if sp.sp_len == io.layout.sizeof_sp
      then (ok, l)
      else (let (opened, w) = io.open_log sp.sp_starthdr.ss_testid l.world.net in
          after_open opened sp cfe (map_net (λ _. w) l))
