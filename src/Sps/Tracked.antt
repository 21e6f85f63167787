-- ===== src/Sps/Tracked.antt =====
-- The clients of utils/sps.c and their events in the loop belong together: what the operations on the list keep.
use sphone.Prelude.{
  ℕ, suc, ◌<◌, ◌≡◌, refl, sym, ap, ◌∙◌, ◌≢◌, ◌⊎◌, inl, inr, Bool, true, false, ◌||◌, ◌==◌,
  Bool-cases, if◌then◌else◌, List, [], ◌∷◌, All, arith,
}
use sphone.EventLoop.{Event, Loop, new_fd, eventloop_reg_fd, eventloop_unreg}
use sphone.Sp.{SockaddrIn}
use sphone.Sps.{
  CfEntry, Server, Net, client_input_fn, update, without, map_net, set_list, cfe_add, drop_client,
}
use sphone.Sps.Table.{
  listed, watching, In, Distinct, is_client, OneEach, All-In, In-listed, All-without,
  without-Distinct, listed-without, All-update, KeepsAddr, KeepsSocket, update-Distinct,
  listed-update, listed-socket,
}
use sphone.Sps.Watch.{
  IsUnwatched, remove_first-IsUnwatched, NoneOf, new-OneEach, below-NoneOf, below-suc,
}
use sphone.Sps.Input.{add_client}

-- An entry is listed with a socket exactly where an event reads that socket for it; addresses and events are not
-- doubled, and none is ahead of the next address.
pub record Tracked (cfs : List CfEntry) (ee : List Event) (next : ℕ) : Type 0 where
  pub same : (s a : ℕ) → listed s a cfs ≡ watching s a ee
  pub one_entry : Distinct cfs
  pub one_event : OneEach ee
  pub fresh_entry : All (λ c. c.addr < next) cfs
  pub fresh_event : All (λ e. is_client e ≡ true → e.e_arg < next) ee

or_true : (a b : Bool) → b ≡ true → (a || b) ≡ true
or_true a b h = ground (arith, h)

module _ {W : Type 0} where
  abbrev pub IsTracked : Loop (Server W) → Type 0
  IsTracked l = Tracked l.world.cf_list l.ee l.world.next_entry

  -- Tracked, as long as no entry of the list has been freed
  abbrev pub IsSound : Loop (Server W) → Type 0
  IsSound l = (l.world.is_freed ≡ true) ⊎ IsTracked l

  -- What `eventloop_unreg` finds and leaves
  unwatched :
      (cfe : CfEntry) (l : Loop (Server W))
      → IsTracked l
      → listed cfe.cf_s cfe.addr l.world.cf_list ≡ true
      → IsUnwatched (λ e. is_client e ≡ true → e.e_arg < l.world.next_entry) cfe.cf_s cfe.addr l.ee
  unwatched cfe l t m =
      remove_first-IsUnwatched _ cfe.cf_s cfe.addr l.ee t.one_event t.fresh_event
        (sym (t.same cfe.cf_s cfe.addr) ∙ m)

  -- A client of the list is found by `eventloop_unreg`, and what is left is tracked without it.
  pub unreg_client :
      (cfe : CfEntry) (l : Loop (Server W))
      → IsTracked l
      → listed cfe.cf_s cfe.addr l.world.cf_list ≡ true
      → let (found, l1) = eventloop_unreg cfe.cf_s client_input_fn cfe.addr l in
        (found ≡ true)
        × (l1.world ≡ l.world)
        × Tracked (without cfe.addr l.world.cf_list) l1.ee l.world.next_entry
        × ((s a : ℕ) → watching s a l1.ee ≡ (if a == cfe.addr then false else watching s a l.ee))
        × OneEach l1.ee
        × All (λ e. is_client e ≡ true → e.e_arg < l.world.next_entry) l1.ee
        × NoneOf cfe.addr l1.ee
  unfolding eventloop_unreg
  unreg_client cfe l t m =
      let u = unwatched cfe l t m in
      (
        or_true _ _ u.is_found,
        refl,
        record {
          same = λ s a.
              listed-without s a cfe.addr l.world.cf_list t.one_entry
              ∙ ap (λ b. if a == cfe.addr then false else b) (t.same s a)
              ∙ sym (u.watching_left s a);
          one_entry = without-Distinct cfe.addr l.world.cf_list t.one_entry;
          one_event = u.left_each;
          fresh_entry = All-without _ cfe.addr l.world.cf_list t.fresh_entry;
          fresh_event = u.left_all;
        },
        u.watching_left,
        u.left_each,
        u.left_all,
        u.left_none,
      )

  pub set_entry-IsTracked :
      (a : ℕ) (f : CfEntry → CfEntry) (l : Loop (Server W))
      → KeepsAddr f
      → KeepsSocket f
      → IsTracked l
      → IsTracked (set_list (update a f l.world.cf_list) l)
  set_entry-IsTracked a f l ka ks t = record {
    same = λ s b. listed-update s b a f l.world.cf_list ka ks ∙ t.same s b;
    one_entry = update-Distinct a f l.world.cf_list ka t.one_entry;
    one_event = t.one_event;
    fresh_entry =
        All-update (λ c. c.addr < l.world.next_entry) a f l.world.cf_list (λ c h. rw (ka c) h)
          t.fresh_entry;
    fresh_event = t.fresh_event;
  }

module _ {W : Type 0} (io : Net W) where
  -- A client of the list is dropped with a return of 0, and the others are kept.
  pub drop_client-IsTracked :
      (cfe : CfEntry) (l : Loop (Server W))
      → IsTracked l
      → listed cfe.cf_s cfe.addr l.world.cf_list ≡ true
      → let (dropped, l') = drop_client io cfe l in
        (dropped ≡ true)
        × (l'.world.cf_list ≡ without cfe.addr l.world.cf_list)
        × (l'.world.is_freed ≡ l.world.is_freed)
        × IsTracked l'
  unfolding drop_client eventloop_unreg
  drop_client-IsTracked cfe l t m =
      let u = unreg_client cfe l t m in
      elim (Bool-cases (cfe.cf_s == 0)) [
        | inl z ↦ rw (u.0, z) (refl, refl, refl, u.2)
        | inr z ↦ rw (u.0, z) (refl, refl, refl, u.2)
      ]

apart_below : (n : ℕ) (cfs : List CfEntry) → All (λ c. c.addr < n) cfs → All (λ y. y.addr ≢ n) cfs
apart_below n [] h = tt
apart_below n (x ∷ rest) (h, hs) = (λ e. omega (arith, h, e), apart_below n rest hs)

grown : (n : ℕ) (cfs : List CfEntry) → All (λ c. c.addr < n) cfs → All (λ c. c.addr < suc n) cfs
grown n [] h = tt
grown n (x ∷ rest) (h, hs) = (omega (arith, h), grown n rest hs)

module _ {W : Type 0} (io : Net W) where
  -- A client that is added is tracked, in front of the others.
  pub add_client-IsTracked :
      (s1 : ℕ) (from : SockaddrIn) (l : Loop (Server W))
      → IsTracked l
      → IsTracked (add_client io s1 from l).1
  unfolding add_client cfe_add eventloop_reg_fd listed watching
  add_client-IsTracked s1 from l t =
      let n = l.world.next_entry in
      let self : (n == n) ≡ true = ground arith in
      rw self (record {
        same = λ s a. ground (arith, t.same s a);
        one_entry = (apart_below n l.world.cf_list t.fresh_entry, t.one_entry);
        one_event =
            new-OneEach (new_fd s1 client_input_fn n l) l.ee (below-NoneOf n l.ee t.fresh_event)
              t.one_event;
        fresh_entry = (omega arith, grown n l.world.cf_list t.fresh_entry);
        fresh_event = (λ c. omega arith, below-suc n l.ee t.fresh_event);
      })

module _ {W : Type 0} where
  -- A client is taken out of the loop and registered again with a new socket.
  abbrev pub rewatch : (W → W) → CfEntry → ℕ → Loop (Server W) → Loop (Server W)
  rewatch f cfe s1 l =
      let l2 = map_net f (eventloop_unreg cfe.cf_s client_input_fn cfe.addr l).1 in
      eventloop_reg_fd s1 client_input_fn cfe.addr
        (set_list (update cfe.addr (λ c. record c { cf_s = s1 }) l2.world.cf_list) l2)

  -- It is tracked with it.
  pub rewatch-IsTracked :
      (f : W → W) (cfe : CfEntry) (s1 : ℕ) (l : Loop (Server W))
      → IsTracked l
      → In cfe l.world.cf_list
      → IsTracked (rewatch f cfe s1 l)
  unfolding eventloop_reg_fd eventloop_unreg watching
  rewatch-IsTracked f cfe s1 l t m =
      let u = unreg_client cfe l t (In-listed cfe l.world.cf_list m) in
      record {
        same = λ s a. ground (
          arith,
          listed-socket s a cfe.addr s1 l.world.cf_list t.one_entry (cfe, m, refl),
          u.3 s a,
          t.same s a,
        );
        one_entry =
            update-Distinct cfe.addr (λ c. record c { cf_s = s1 }) l.world.cf_list (λ c. refl)
              t.one_entry;
        one_event = new-OneEach (new_fd s1 client_input_fn cfe.addr l) _ u.6 u.4;
        fresh_entry =
            All-update (λ c. c.addr < l.world.next_entry) cfe.addr (λ c. record c { cf_s = s1 })
              l.world.cf_list (λ c h. h) t.fresh_entry;
        fresh_event = (
          λ c. All-In (λ c. c.addr < l.world.next_entry) cfe l.world.cf_list t.fresh_entry m,
          u.5,
        );
      }
