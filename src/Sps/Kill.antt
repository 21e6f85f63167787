-- ===== src/Sps/Kill.antt =====
-- kill_all_clients of utils/sps.c, which a signal calls between two callbacks: every client is told to exit and
-- taken out.
use sphone.Prelude.{
  if-holds, ℕ, ◌≡◌, refl, sym, ap, ◌∙◌, inl, inr, true, false, not, ◌==◌, Bool-cases, if◌then◌else◌,
  List, [], ◌∷◌, arith,
}
use sphone.EventLoop.{Loop, eventloop_unreg}
use sphone.Sp.{SpProto, exit, no_start, no_register}
use sphone.Sps.{CfEntry, Server, Outcome, ok, fault, Net, client_input_fn, without, map_net, cfe_rm}
use sphone.Sps.Table.{listed, watching, In-listed}
use sphone.Sps.Expiry.{if_not}
use sphone.Sps.Tracked.{IsTracked, IsSound, unreg_client}

module _ {W : Type 0} (io : Net W) where
  -- What follows `sp_id` is not set.
  abbrev pub exit_message : CfEntry → SpProto
  exit_message cfe = record {
    sp_type = exit;
    sp_len = io.layout.sizeof_sp;
    sp_id = cfe.cf_id;
    sp_starthdr = no_start;
    sp_reghdr = no_register;
  }

  -- The loop, with the clients that are left; it is given up where a client is not reached or not found.
  unfoldable pub kill_each : List CfEntry → Loop (Server W) → Loop (Server W)
  unfolding cfe_rm
  kill_each [] l = l
  kill_each (cfe ∷ rest) l =
      let (sent, w) = io.send cfe.cf_s (exit_message cfe) l.world.net in
      let l1 = map_net (λ _. w) l in
      let (found, l2) = eventloop_unreg cfe.cf_s client_input_fn cfe.addr l1 in
      let next = kill_each rest (cfe_rm io cfe l2) in
      if not sent then l1 else (if not found then l2 else next)

  unfoldable pub kill_all_clients : Loop (Server W) → Outcome × Loop (Server W)
  unfolding kill_each
  kill_all_clients l = if l.world.is_freed then (fault, l) else (ok, kill_each l.world.cf_list l)

  -- The first client is taken out.
  removed :
      (cfe : CfEntry) (rest : List CfEntry) (l : Loop (Server W))
      → IsTracked l
      → l.world.cf_list ≡ cfe ∷ rest
      → let (found, l2) = eventloop_unreg cfe.cf_s client_input_fn cfe.addr l in
        let l3 = cfe_rm io cfe l2 in
        (found ≡ true)
        × (l3.world.cf_list ≡ rest)
        × (l3.world.is_freed ≡ l.world.is_freed)
        × IsTracked l3
  unfolding cfe_rm eventloop_unreg without
  removed cfe rest l t e =
      let first : listed cfe.cf_s cfe.addr l.world.cf_list ≡ true =
        ap (λ cfs. listed cfe.cf_s cfe.addr cfs) e ∙ In-listed cfe (cfe ∷ rest) (inl refl) in
      let u = unreg_client cfe l t first in
      let self : (cfe.addr == cfe.addr) ≡ true = ground arith in
      let left : without cfe.addr l.world.cf_list ≡ rest = ap (without cfe.addr) e ∙ rw self refl in
      elim (Bool-cases (cfe.cf_s == 0)) [
        | inl z ↦ rw (u.0, z) (refl, left, refl, u.2)
        | inr z ↦ rw (u.0, z) (refl, left, refl, u.2)
      ]

  -- Who is left is tracked.
  kill_each-IsTracked :
      (cfs : List CfEntry) (l : Loop (Server W))
      → IsTracked l
      → l.world.cf_list ≡ cfs
      → IsTracked (kill_each cfs l) × ((kill_each cfs l).world.is_freed ≡ l.world.is_freed)
  unfolding kill_each
  kill_each-IsTracked [] l t e = (t, refl)
  kill_each-IsTracked (cfe ∷ rest) l t e =
      let l1 : Loop (Server W) =
        map_net (λ _. (io.send cfe.cf_s (exit_message cfe) l.world.net).1) l in
      let r = removed cfe rest l1 t e in
      elim (Bool-cases (io.send cfe.cf_s (exit_message cfe) l.world.net).0) [
        | inr lost ↦ rw lost (t, refl)
        | inl sent ↦
            let ih =
              kill_each-IsTracked rest
                (cfe_rm io cfe (eventloop_unreg cfe.cf_s client_input_fn cfe.addr l1).1) r.3 r.1 in
            rw (sent, r.0) (ih.0, ih.1 ∙ r.2)
      ]

  -- Every message is taken.
  abbrev pub Reaches : Type 0
  Reaches = (s : ℕ) (sp : SpProto) (w : W) → (io.send s sp w).0 ≡ true

  kill_each-list :
      (cfs : List CfEntry) (l : Loop (Server W))
      → Reaches
      → IsTracked l
      → l.world.cf_list ≡ cfs
      → (kill_each cfs l).world.cf_list ≡ []
  unfolding kill_each
  kill_each-list [] l reaches t e = e
  kill_each-list (cfe ∷ rest) l reaches t e =
      let l1 : Loop (Server W) =
        map_net (λ _. (io.send cfe.cf_s (exit_message cfe) l.world.net).1) l in
      let r = removed cfe rest l1 t e in
      let sent = reaches cfe.cf_s (exit_message cfe) l.world.net in
      rw (sent, r.0)
        (kill_each-list rest
          (cfe_rm io cfe (eventloop_unreg cfe.cf_s client_input_fn cfe.addr l1).1) reaches r.3 r.1)

  pub kill_all_clients-IsSound : (l : Loop (Server W)) → IsSound l → IsSound (kill_all_clients l).1
  unfolding kill_all_clients
  kill_all_clients-IsSound l (inl f) = rw f (inl refl)
  kill_all_clients-IsSound l (inr t) =
      if-holds (λ (r : Outcome × Loop (Server W)). IsSound r.1) l.world.is_freed (inr t)
        (inr (kill_each-IsTracked l.world.cf_list l t refl).0)

  -- While the clients are tracked and every message is taken, the signal leaves no client and no event of one.
  kill_all_clients_leaves_none :
      (l : Loop (Server W))
      → Reaches
      → IsTracked l
      → l.world.is_freed ≡ false
      → let l' = (kill_all_clients l).1 in
        (l'.world.cf_list ≡ []) × ((s a : ℕ) → watching s a l'.ee ≡ false)
  unfolding kill_all_clients listed
  kill_all_clients_leaves_none l reaches t alive =
      let cfs = l.world.cf_list in
      let k = kill_each-IsTracked cfs l t refl in
      let none_left = kill_each-list cfs l reaches t refl in
      let way = if_not l.world.is_freed (fault, l) (ok, kill_each cfs l) alive in
      (
        ap (λ (r : Outcome × Loop (Server W)). r.1.world.cf_list) way ∙ none_left,
        λ s a.
            ap (λ (r : Outcome × Loop (Server W)). watching s a r.1.ee) way
            ∙ sym (k.0.same s a)
            ∙ ap (listed s a) none_left,
      )
