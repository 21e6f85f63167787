-- ===== src/Sps/Faults.antt =====
-- What goes wrong in utils/sps.c, each for all states in which it does.
use mathlib.Core.Path.{subst}
use sphone.Prelude.{
  ℕ, ◌<◌, ◌≡◌, refl, sym, ap, ◌∙◌, ◌≢◌, inl, inr, true, false, ◌==◌, Bool-cases, Option, none, some,
  List, [], ◌∷◌, All, length, arith,
}
use sphone.EventLoop.{Loop, eventloop_reg_fd, eventloop_unreg}
use sphone.Sp.{SockaddrIn}
use sphone.Sps.{
  CfEntry, Server, Outcome, ok, fault, Net, new_entry, cfe_find, entry_at, update, without, map_net,
  cfe_add, Accepted,
}
use sphone.Sps.Table.{In, In-listed, Distinct, cfe_find-In}
use sphone.Sps.Tracked.{IsTracked, unreg_client, drop_client-IsTracked}
use sphone.Sps.Expiry.{if_not}
use sphone.Sps.Report.{client_gone, lose_client, end_report}
use sphone.Sps.Input.{
  set_entry, after_report, close_server, add_client, welcome, free_first, sps_exit, client_input,
  connect_input, after_accept,
}
use sphone.Sps.Calls.{client_startcalls}
use sphone.Sps.Timeouts.{client_timeout}

entry_at-without : (a : ℕ) (l : List CfEntry) → Distinct l → entry_at a (without a l) ≡ none
unfolding entry_at without
entry_at-without a [] d = refl
entry_at-without a (x ∷ rest) (d, ds) = elim (Bool-cases (a == x.addr)) [
  | inl t ↦ rw t (absent a x.addr rest (ground (arith, t)) d)
  | inr f ↦ rw (f, f) (entry_at-without a rest ds)
]
  where
    absent : (a b : ℕ) (l : List CfEntry) → a ≡ b → All (λ y. y.addr ≢ b) l → entry_at a l ≡ none
    absent a b [] e h = refl
    absent a b (y ∷ rest) e (h, hs) = ground (arith, h, e, absent a b rest e hs)

module _ {W : Type 0} (io : Net W) where
  -- Where the connection is reset while a report is copied, the client's entry is freed, and the write of its state
  -- that follows is one to freed memory.
  after_report_reset :
      (cfe : CfEntry) (l : Loop (Server W))
      → IsTracked l
      → In cfe l.world.cf_list
      → let (r, l') = end_report io cfe client_gone l in (after_report io cfe.addr r l').0 ≡ fault
  unfolding end_report lose_client after_report set_entry
  after_report_reset cfe l t m =
      let d = drop_client-IsTracked io cfe l t (In-listed cfe l.world.cf_list m) in
      let absent =
        ap (entry_at cfe.addr) d.1 ∙ entry_at-without cfe.addr l.world.cf_list t.one_entry in
      rw (d.0) (rw (absent, set_entry) refl)

  close_server-list :
      (o : Option ℕ) (l : Loop (Server W)) → (close_server io o l).world.cf_list ≡ l.world.cf_list
  unfolding close_server eventloop_unreg
  close_server-list none l = refl
  close_server-list (some s) l = refl

  free_first-IsFreed :
      (cfs : List CfEntry) (l : Loop (Server W))
      → 0 < length cfs
      → (free_first io cfs l).world.is_freed ≡ true
  unfolding free_first
  free_first-IsFreed [] l h = absurd (omega arith)
  free_first-IsFreed (c ∷ rest) l h = refl

  sps_exit-IsFreed :
      (l : Loop (Server W)) → 0 < length l.world.cf_list → (sps_exit io l).world.is_freed ≡ true
  unfolding sps_exit
  sps_exit-IsFreed l h =
      let l1 : Loop (Server W) =
        close_server io l.world.server_socket (map_net (λ _. (io.gettimestamp l.world.net).1) l) in
      free_first-IsFreed l1.world.cf_list l1 (
        rw
          (close_server-list l.world.server_socket
            (map_net (λ _. (io.gettimestamp l.world.net).1) l))
          h)

  -- Once `sps_exit` has run in a server that has clients, the next call, the next timeout and the next input from a
  -- client all use the entry that has been freed.
  sps_exit_leaves_freed :
      (l : Loop (Server W)) (tries s arg : ℕ)
      → 0 < length l.world.cf_list
      → let l' = sps_exit io l in
        ((client_startcalls io tries l').0 ≡ fault)
        × ((client_timeout io l').0 ≡ fault)
        × ((client_input io s arg l').0 ≡ fault)
  unfolding client_startcalls client_timeout client_input
  sps_exit_leaves_freed l tries s arg h =
      let freed = sps_exit-IsFreed l h in (rw freed refl, rw freed refl, rw freed refl)

  -- The entry is doubled.
  abbrev pub IsDoubled :
      CfEntry → ℕ → SockaddrIn → Loop (Server W) → Outcome × Loop (Server W) → Type 0
  IsDoubled cfe s1 from l r =
      (r.0 ≡ ok)
      × (r.1.world.cf_list
          ≡ record (new_entry from l) { cf_s = s1 }
            ∷ update cfe.addr (λ c. record c { cf_s = s1 }) l.world.cf_list)

  welcome_again :
      (s1 : ℕ) (from : SockaddrIn) (cfe : CfEntry) (l : Loop (Server W))
      → IsTracked l
      → In cfe l.world.cf_list
      → IsDoubled cfe s1 from l (welcome io (some cfe) s1 from l)
  unfolding welcome add_client cfe_add eventloop_reg_fd eventloop_unreg
  welcome_again s1 from cfe l t m =
      let u = unreg_client cfe l t (In-listed cfe l.world.cf_list m) in
      let self : (l.world.next_entry == l.world.next_entry) ≡ true = ground arith in
      rw (u.0, self) (refl, refl)

  -- A client that connects again from its address is in the list twice from then on, both times with the new
  -- socket.
  connect_input_again :
      (s s1 : ℕ) (from : SockaddrIn) (cfe : CfEntry) (l : Loop (Server W))
      → IsTracked l
      → l.world.is_freed ≡ false
      → (io.accept s l.world.net).0 ≡ Accepted.accepted s1 from
      → cfe_find l.world.cf_list from ≡ some cfe
      → IsDoubled cfe s1 from l (connect_input io s l)
  unfolding connect_input after_accept
  connect_input_again s s1 from cfe l t alive took known =
      let l' : Loop (Server W) = map_net (λ _. (io.accept s l.world.net).1) l in
      let way =
        ap (λ a. after_accept io a l') took
        ∙ if_not l.world.is_freed (fault, l')
            (welcome io (cfe_find l.world.cf_list from) s1 from l') alive
        ∙ ap (λ o. welcome io o s1 from l') known in
      subst (IsDoubled cfe s1 from l) (sym way)
        (welcome_again s1 from cfe l' t (cfe_find-In from cfe l.world.cf_list known))
