-- ===== src/Sps/Expiry.antt =====
-- What `client_timeout` of utils/sps.c does to the list of clients.
use mathlib.Core.Path.{subst}
use mathlib.Core.List.{append_assoc}
use sphone.Prelude.{
  ℕ, ◌≡◌, refl, sym, ap, ◌∙◌, ◌≢◌, inl, inr, Bool, true, false, ◌==◌, Bool-cases, if◌then◌else◌,
  List, [], ◌∷◌, ◌++◌, All, arith,
}
use sphone.TimeVal.{TimeVal, timeradd}
use sphone.Prelude.Int.{pos}
use sphone.Sp.{spc_server_interval}
use sphone.EventLoop.{
  Event, Loop, insert, remove_first, same_timer, left, new_timer, eventloop_reg_timeout,
  eventloop_unreg,
}
use sphone.EventLoop.Timers.{left-remove_first}
use sphone.Sps.{
  CfEntry, Server, Outcome, ok, fault, Net, client_timeout_fn, client_input_fn, cf_list_arg, cfe_rm,
  update, without, map_net, set_list, drop_client,
}
use sphone.Sps.Table.{listed, In, In-listed, Distinct}
use sphone.Sps.Tracked.{IsTracked, IsSound, set_entry-IsTracked, drop_client-IsTracked}
use sphone.Sps.Timeouts.{start_client_timeout, tick, expire, check_clients, client_timeout}

-- One timeout less for each client, and none left for those that go
unfoldable pub ticked : List CfEntry → List CfEntry
ticked [] = []
ticked (c ∷ rest) = if c.cf_timeout == 1 then ticked rest else tick c ∷ ticked rest

Distinct-middle :
    (done : List CfEntry) (c : CfEntry) (rest : List CfEntry)
    → Distinct (done ++ c ∷ rest)
    → All (λ y. y.addr ≢ c.addr) done
Distinct-middle [] c rest d = tt
Distinct-middle (x ∷ done) c rest (d, ds) =
    (λ e. head_of x done c rest d (sym e), Distinct-middle done c rest ds)
  where
    head_of :
        (x : CfEntry) (done : List CfEntry) (c : CfEntry) (rest : List CfEntry)
        → All (λ y. y.addr ≢ x.addr) (done ++ c ∷ rest)
        → c.addr ≢ x.addr
    head_of x [] c rest (h, hs) = h
    head_of x (y ∷ done) c rest (h, hs) = head_of x done c rest hs

In-middle : (done : List CfEntry) (c : CfEntry) (rest : List CfEntry) → In c (done ++ c ∷ rest)
In-middle [] c rest = inl refl
In-middle (x ∷ done) c rest = inr (In-middle done c rest)

update-middle :
    (f : CfEntry → CfEntry) (done : List CfEntry) (c : CfEntry) (rest : List CfEntry)
    → All (λ y. y.addr ≢ c.addr) done
    → update c.addr f (done ++ c ∷ rest) ≡ done ++ f c ∷ rest
unfolding update
update-middle f [] c rest h = let self : (c.addr == c.addr) ≡ true = ground arith in rw self refl
update-middle f (x ∷ done) c rest (h, hs) =
    let other : (c.addr == x.addr) ≡ false = ground (arith, h) in
    rw other (ap (λ l. x ∷ l) (update-middle f done c rest hs))

without-middle :
    (a : ℕ) (done : List CfEntry) (c : CfEntry) (rest : List CfEntry)
    → a ≡ c.addr
    → All (λ y. y.addr ≢ a) done
    → without a (done ++ c ∷ rest) ≡ done ++ rest
unfolding without
without-middle a [] c rest e h = let self : (a == c.addr) ≡ true = ground (arith, e) in rw self refl
without-middle a (x ∷ done) c rest e (h, hs) =
    let other : (a == x.addr) ≡ false = ground (arith, h) in
    rw other (ap (λ l. x ∷ l) (without-middle a done c rest e hs))

-- No timer is for `client_input`, which is only ever registered for descriptors.
abbrev NoInputTimers : List Event → Type 0
NoInputTimers = All (λ e. e.e_fn ≢ client_input_fn)

NoInputTimers-remove_first :
    (arg : ℕ) (events : List Event)
    → NoInputTimers events
    → left (remove_first (same_timer client_input_fn arg) events) events ≡ events
unfolding remove_first
NoInputTimers-remove_first arg [] h = refl
NoInputTimers-remove_first arg (e ∷ rest) (h, hs) =
    let other : same_timer client_input_fn arg e ≡ false = ground (arith, h) in
    rw (left-remove_first (same_timer client_input_fn arg) e rest, other)
      (ap (λ l. e ∷ l) (NoInputTimers-remove_first arg rest hs))

pub if_not {ℓ} : {A : Type ℓ} (b : Bool) (x y : A) → b ≡ false → (if b then x else y) ≡ y
if_not b x y h = rw h refl

abbrev client_interval : TimeVal
client_interval = record { tv_sec = pos spc_server_interval; tv_usec = pos 0 }

module _ {W : Type 0} (io : Net W) where
  -- The walk over the clients that are left, behind those that it has seen
  expire-ticked :
      (cfs done : List CfEntry) (l : Loop (Server W))
      → IsTracked l
      → l.world.cf_list ≡ done ++ cfs
      → let (finished, l') = expire io cfs l in
        (finished ≡ true)
        × (l'.world.cf_list ≡ done ++ ticked cfs)
        × (l'.world.is_freed ≡ l.world.is_freed)
        × IsTracked l'
  unfolding expire ticked
  expire-ticked [] done l t e = (refl, e, refl, t)
  expire-ticked (c ∷ rest) done l t e =
      let apart = Distinct-middle done c rest (rw e at t.one_entry) in
      let l1 : Loop (Server W) = set_list (update c.addr tick l.world.cf_list) l in
      let t1 : IsTracked l1 = set_entry-IsTracked c.addr tick l (λ c. refl) (λ c. refl) t in
      let e1 : l1.world.cf_list ≡ done ++ tick c ∷ rest =
        ap (update c.addr tick) e ∙ update-middle tick done c rest apart in
      elim (Bool-cases (c.cf_timeout == 1)) [
        | inl last ↦
            let m : listed c.cf_s c.addr l1.world.cf_list ≡ true =
              rw e1 (In-listed (tick c) _ (In-middle done (tick c) rest)) in
            let d = drop_client-IsTracked io c l1 t1 m in
            let gone =
              d.1 ∙ ap (without c.addr) e1 ∙ without-middle c.addr done (tick c) rest refl apart in
            let ih = expire-ticked rest done (drop_client io c l1).1 d.3 gone in
            rw (last, d.0) (ih.0, ih.1, ih.2 ∙ d.2, ih.3)
        | inr more ↦
            let ih =
              expire-ticked rest (done ++ tick c ∷ []) l1 t1
                (e1 ∙ sym (append_assoc done (tick c ∷ []) rest)) in
            rw more (ih.0, ih.1 ∙ append_assoc done (tick c ∷ []) (ticked rest), ih.2, ih.3)
      ]

  drop_client-timers :
      (c : CfEntry) (l : Loop (Server W))
      → NoInputTimers l.ee_timers
      → let l' = (drop_client io c l).1 in
        (l'.ee_timers ≡ l.ee_timers) × (l'.next_addr ≡ l.next_addr)
  unfolding drop_client cfe_rm eventloop_unreg
  drop_client-timers c l h =
      let same = NoInputTimers-remove_first c.addr l.ee_timers h in ground (arith, same)

  expire-timers :
      (cfs : List CfEntry) (l : Loop (Server W))
      → NoInputTimers l.ee_timers
      → let l' = (expire io cfs l).1 in (l'.ee_timers ≡ l.ee_timers) × (l'.next_addr ≡ l.next_addr)
  unfolding expire
  expire-timers [] l h = (refl, refl)
  expire-timers (c ∷ rest) l h =
      let l1 : Loop (Server W) = set_list (update c.addr tick l.world.cf_list) l in
      let (same, same_addr) = drop_client-timers c l1 h in
      let l2 = (drop_client io c l1).1 in
      let more = expire-timers rest l1 h in
      let dropped = expire-timers rest l2 (rw same h) in
      elim (Bool-cases (c.cf_timeout == 1)) [
        | inr f ↦ rw f more
        | inl t ↦ elim (Bool-cases (drop_client io c l1).0) [
          | inl gone ↦ rw (t, gone) (dropped.0 ∙ same, dropped.1 ∙ same_addr)
          | inr kept ↦ rw (t, kept) (same, same_addr)
        ]
      ]

  -- How a timeout leaves the clients
  abbrev ClientsTicked : Loop (Server W) → Outcome × Loop (Server W) → Type 0
  ClientsTicked l r =
      (r.0 ≡ ok)
      × (r.1.world.cf_list ≡ ticked l.world.cf_list)
      × (r.1.world.is_freed ≡ l.world.is_freed)
      × IsTracked r.1

  check_clients-ticked : (l : Loop (Server W)) → IsTracked l → ClientsTicked l (check_clients io l)
  unfolding check_clients start_client_timeout eventloop_reg_timeout
  check_clients-ticked l t =
      let e = expire-ticked l.world.cf_list [] l t refl in rw (e.0) (refl, e.1, e.2, e.3)

  client_timeout-clients :
      (l : Loop (Server W))
      → IsTracked l
      → l.world.is_freed ≡ false
      → ClientsTicked l (client_timeout io l)
  unfolding client_timeout
  client_timeout-clients l t alive =
      let l' : Loop (Server W) = map_net (λ _. (io.gettimestamp l.world.net).1) l in
      subst (ClientsTicked l)
        (sym (if_not l.world.is_freed (fault, l') (check_clients io l') alive))
        (check_clients-ticked l' t)

  -- A timer of the loop for the next timeout, an interval after a time of the clock
  abbrev IsNext : Loop (Server W) → Loop (Server W) → Type 0
  IsNext l l' =
      (w : W) × (l'.ee_timers
        ≡ insert
            (new_timer (timeradd (io.gettimestamp w).0 client_interval) client_timeout_fn
              cf_list_arg l)
            l.ee_timers)

  check_clients-IsNext :
      (l : Loop (Server W))
      → IsTracked l
      → NoInputTimers l.ee_timers
      → IsNext l (check_clients io l).1
  unfolding check_clients start_client_timeout eventloop_reg_timeout
  check_clients-IsNext l t h =
      let e = expire-ticked l.world.cf_list [] l t refl in
      let (same, same_addr) = expire-timers l.world.cf_list l h in
      rw (e.0) ((expire io l.world.cf_list l).1.world.net, rw (same, same_addr) refl)

  -- How a timeout leaves the clients and the timers
  abbrev pub TickedFrom : Loop (Server W) → Outcome × Loop (Server W) → Type 0
  TickedFrom l r = ClientsTicked l r × IsNext l r.1

  -- While the clients are tracked, their list is not freed and no timer is for `client_input`, a timeout ends well and
  -- leaves the clients tracked and in their order, each with one timeout less, without those that had one left. The
  -- loop's timers are as before, with one more put in order: for the next timeout, the interval after a time that the
  -- clock gives.
  pub client_timeout-ticked :
      (l : Loop (Server W))
      → IsTracked l
      → l.world.is_freed ≡ false
      → NoInputTimers l.ee_timers
      → TickedFrom l (client_timeout io l)
  unfolding client_timeout
  client_timeout-ticked l t alive h =
      let l' : Loop (Server W) = map_net (λ _. (io.gettimestamp l.world.net).1) l in
      let e = if_not l.world.is_freed (fault, l') (check_clients io l') alive in
      (
        client_timeout-clients l t alive,
        subst (λ (r : Outcome × Loop (Server W)). IsNext l r.1) (sym e)
            (check_clients-IsNext l' t h),
      )

  pub client_timeout-IsSound : (l : Loop (Server W)) → IsSound l → IsSound (client_timeout io l).1
  unfolding client_timeout
  client_timeout-IsSound l (inl f) = rw f (inl refl)
  client_timeout-IsSound l (inr t) = elim (Bool-cases l.world.is_freed) [
    | inl f ↦ rw f (inl refl)
    | inr alive ↦ inr (client_timeout-clients l t alive).3
  ]
