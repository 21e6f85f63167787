-- ===== src/Sps/Timeouts.antt =====
-- How the server of utils/sps.c gives up on clients that do not register: start_client_timeout and
-- client_timeout.
use sphone.Prelude.{◌-◌, Bool, true, false, ◌==◌, if◌then◌else◌, List, [], ◌∷◌}
use sphone.Prelude.Int.{pos}
use sphone.TimeVal.{timeradd}
use sphone.EventLoop.{Loop, eventloop_reg_timeout}
use sphone.Sp.{spc_server_interval}
use sphone.Sps.{
  CfEntry, Server, Outcome, ok, failed, fault, Net, client_timeout_fn, cf_list_arg, update, map_net,
  set_list, drop_client,
}

-- `cfe->cf_timeout--`; it is not 0 in a client that is listed.
abbrev pub tick : CfEntry → CfEntry
tick cfe = record cfe { cf_timeout = cfe.cf_timeout - 1 }

module _ {W : Type 0} (io : Net W) where
  unfoldable pub start_client_timeout : Loop (Server W) → Outcome × Loop (Server W)
  start_client_timeout l =
      let (t, w) = io.gettimestamp l.world.net in
      let t' = timeradd t (record { tv_sec = pos spc_server_interval; tv_usec = pos 0 }) in
      (ok, eventloop_reg_timeout t' client_timeout_fn cf_list_arg (map_net (λ _. w) l))

  -- The loop, with the clients that are left; the next one is read before a client goes. `false` is -1.
  unfoldable pub expire : List CfEntry → Loop (Server W) → Bool × Loop (Server W)
  unfolding update
  expire [] l = (true, l)
  expire (cfe ∷ rest) l =
      let l1 = set_list (update cfe.addr tick l.world.cf_list) l in
      let (dropped, l2) = if cfe.cf_timeout == 1 then drop_client io cfe l1 else (true, l1) in
      let next = expire rest l2 in if dropped then next else (false, l2)

  -- The walk over all clients, and the next timeout
  unfoldable pub check_clients : Loop (Server W) → Outcome × Loop (Server W)
  unfolding expire start_client_timeout
  check_clients l =
      let (done, l') = expire l.world.cf_list l in
      if done then start_client_timeout l' else (failed, l')

  unfoldable pub client_timeout : Loop (Server W) → Outcome × Loop (Server W)
  unfolding check_clients
  client_timeout l =
      let (_, w) = io.gettimestamp l.world.net in
      let l' = map_net (λ _. w) l in if l.world.is_freed then (fault, l') else check_clients l'
