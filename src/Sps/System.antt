-- ===== src/Sps/System.antt =====
-- The server of utils/sps.c as a system: the event loop calls what is registered, in any order, and what the
-- network, the clock and the files do is arbitrary.
use sphone.Prelude.{ℕ, ◌≡◌, refl, sym, ap, ◌∙◌, inl, inr, true, false, ◌==◌, some, arith}
use sphone.EventLoop.{Loop}
use sphone.Sps.{CfEntry, Server, Net, entry_at}
use sphone.Sps.Table.{watching, listed-In, In, In-entry_at}
use sphone.Sps.Tracked.{IsTracked, IsSound}
use sphone.Sps.Tracking.{client_input-IsSound}
use sphone.Sps.Arrivals.{connect_input-IsSound, udp_input-IsSound, client_startcalls-IsSound}
use sphone.Sps.Kill.{kill_all_clients, kill_all_clients-IsSound}
use sphone.Sps.Expiry.{if_not, client_timeout-IsSound}
use sphone.Sps.Input.{input_from, client_input, connect_input, udp_input}
use sphone.Sps.Calls.{client_startcalls}
use sphone.Sps.Timeouts.{client_timeout}

module _ {W : Type 0} (io : Net W) where
  -- One callback, or the signal that kills the clients, between two of them
  pub data Step (l : Loop (Server W)) : Loop (Server W) → Type 0 where
    input : (s arg : ℕ) → watching s arg l.ee ≡ true → Step l (client_input io s arg l).1
    connect : (s : ℕ) → Step l (connect_input io s l).1
    receive : (s : ℕ) → Step l (udp_input io s l).1
    call : (tries : ℕ) → Step l (client_startcalls io tries l).1
    timeout : Step l (client_timeout io l).1
    kill : Step l (kill_all_clients io l).1

  -- What comes of a server with no clients
  pub data Reach (start : Loop (Server W)) : Loop (Server W) → Type 0 where
    here : Reach start start
    next : {l m : Loop (Server W)} → Reach start l → Step l m → Reach start m

  Step-IsSound : {l m : Loop (Server W)} → Step l m → IsSound l → IsSound m
  Step-IsSound {l} (input s arg w) t = client_input-IsSound io s arg l t
  Step-IsSound {l} (connect s) t = connect_input-IsSound io s l t
  Step-IsSound {l} (receive s) t = udp_input-IsSound io s l t
  Step-IsSound {l} (call tries) t = client_startcalls-IsSound io tries l t
  Step-IsSound {l} timeout t = client_timeout-IsSound io l t
  Step-IsSound {l} kill t = kill_all_clients-IsSound io l t

  Reach-IsSound : {start l : Loop (Server W)} → IsSound start → Reach start l → IsSound l
  Reach-IsSound t here = t
  Reach-IsSound t (next r s) = Step-IsSound s (Reach-IsSound t r)

  -- In every state that a server reaches in which no client's entry has been freed by `sps_exit`, the clients are
  -- tracked.
  pub Reach-IsTracked :
      (start l : Loop (Server W))
      → IsTracked start
      → Reach start l
      → l.world.is_freed ≡ false
      → IsTracked l
  Reach-IsTracked start l t r alive = elim (Reach-IsSound (inr t) r) [
    | inl f ↦ cc
    | inr tracked ↦ tracked
  ]

  found_entry :
      (l : Loop (Server W)) (s arg : ℕ) (cfe : CfEntry)
      → l.world.is_freed ≡ false
      → entry_at arg l.world.cf_list ≡ some cfe
      → (cfe.cf_s == s) ≡ true
      → client_input io s arg l ≡ input_from io cfe l
  unfolding client_input
  found_entry l s arg cfe alive there socket =
      if_not l.world.is_freed _ _ alive ∙ rw (there, socket) refl

  -- In such a state every event that the loop has for a client finds its client: the assertion of `client_input`
  -- holds and the entry has not been freed.
  pub client_input-finds :
      (start l : Loop (Server W)) (s arg : ℕ)
      → IsTracked start
      → Reach start l
      → l.world.is_freed ≡ false
      → watching s arg l.ee ≡ true
      → (cfe : CfEntry) × In cfe l.world.cf_list
        × (cfe.addr ≡ arg)
        × (cfe.cf_s ≡ s)
        × (client_input io s arg l ≡ input_from io cfe l)
  client_input-finds start l s arg t r alive w =
      let tracked = Reach-IsTracked start l t r alive in
      let (cfe, m, a, e) = listed-In s arg l.world.cf_list (tracked.same s arg ∙ w) in
      let there : entry_at arg l.world.cf_list ≡ some cfe =
        ap (λ k. entry_at k l.world.cf_list) (sym a)
        ∙ In-entry_at cfe l.world.cf_list tracked.one_entry m in
      let socket : (cfe.cf_s == s) ≡ true = ground (arith, e) in
      (cfe, m, a, e, found_entry l s arg cfe alive there socket)
