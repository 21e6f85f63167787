-- ===== src/DevAudio/Holders.antt =====
-- Who holds the devices of audio/sphone_audio_devaudio.c: the reference counts are exact, whatever the driver does.
use sphone.Prelude.{
  ℕ, suc, ◌-◌, ◌<◌, ◌≡◌, refl, sym, ap, ◌∙◌, ◌⊎◌, inl, inr, true, false, ltb, ◌==◌, Bool-cases,
  ltb→lt, ltb_false→le, if◌then◌else◌, none, some, List, [], ◌∷◌, All, arith,
}
use sphone.DevAudio.{
  Device, Devices, Driver, Opened, opened, refused, fault, no_fuel, find_name, find_addr, update,
  unlink, new_device, audio_devaudio_init, audio_devaudio_exit,
}
use sphone.DevAudio.Outcomes.{count_up, audio_devaudio_init-holds}
use sphone.DevAudio.Table.{
  Distinct, OneName, refcnt_at, refcnt_at-fresh, refcnt_at-listed, refcnt_at-found,
  refcnt_at-update, refcnt_at-unlink, All-update, All-unlink, All-weaken, unlink-Distinct,
  unlink-OneName, update-Distinct, update-OneName, KeepsName, find_name-none, find_name-find_addr,
}

-- How often an address is in a list
unfoldable pub count : ℕ → List ℕ → ℕ
count a [] = 0
count a (b ∷ rest) = if a == b then suc (count a rest) else count a rest

-- The list without one of them
unfoldable pub release : ℕ → List ℕ → List ℕ
release a [] = []
release a (b ∷ rest) = if a == b then rest else b ∷ release a rest

pub count-release :
    (a b : ℕ) (l : List ℕ) → count b (release a l) ≡ (if b == a then count b l - 1 else count b l)
unfolding count release
count-release a b [] = ground arith
count-release a b (c ∷ rest) = ground (arith, count-release a b rest)

-- Each device counts as many holders as `r` says, and at least one; addresses and names are not shared.
pub record Counts {W : Type 0} (r : ℕ → ℕ) (ds : Devices W) : Type 0 where
  pub counted : (a : ℕ) → refcnt_at a ds.devicelist ≡ r a
  pub positive : All (λ d. 0 < d.dd_refcnt) ds.devicelist
  pub old : All (λ d. d.addr < ds.next_addr) ds.devicelist
  pub one_addr : Distinct ds.devicelist
  pub one_name : OneName ds.devicelist

-- One more holder of an address
abbrev pub more : ℕ → (ℕ → ℕ) → ℕ → ℕ
more a r b = if b == a then suc (r b) else r b

-- One less
abbrev pub fewer : ℕ → (ℕ → ℕ) → ℕ → ℕ
fewer a r b = if b == a then r b - 1 else r b

module _ {W : Type 0} where
  -- The world does not matter.
  pub Counts-world :
      (r : ℕ → ℕ) (ds : Devices W) (w : W) → Counts r ds → Counts r (record ds { world = w })
  Counts-world r ds w c = record {
    counted = c.counted;
    positive = c.positive;
    old = c.old;
    one_addr = c.one_addr;
    one_name = c.one_name;
  }

  pub Counts-same :
      (r s : ℕ → ℕ) (ds : Devices W) → ((a : ℕ) → r a ≡ s a) → Counts r ds → Counts s ds
  Counts-same r s ds e c = record {
    counted = λ a. c.counted a ∙ e a;
    positive = c.positive;
    old = c.old;
    one_addr = c.one_addr;
    one_name = c.one_name;
  }

  -- A device with a new name
  add-Counts :
      (r : ℕ → ℕ) (ds : Devices W) (dd : Device)
      → Counts r ds
      → dd.addr ≡ ds.next_addr
      → dd.dd_refcnt ≡ 1
      → find_name dd.dd_name ds.devicelist ≡ none
      → Counts
          (more ds.next_addr r)
          (record ds { devicelist = dd ∷ ds.devicelist; next_addr = suc ds.next_addr })
  unfolding refcnt_at
  add-Counts r ds dd c here one new = record {
    counted = λ a.
        ground (arith, c.counted a, here, one, refcnt_at-fresh a ds.next_addr ds.devicelist c.old);
    positive = (omega (arith, one), c.positive);
    old = (omega (arith, here), All-weaken ds.devicelist (λ d h. omega (arith, h)) c.old);
    one_addr = (All-weaken ds.devicelist (λ d h e. omega (arith, h, e, here)) c.old, c.one_addr);
    one_name = (find_name-none dd.dd_name ds.devicelist new, c.one_name);
  }

  -- A count that changes, to one that is not 0
  update-Counts :
      (r s : ℕ → ℕ) (ds : Devices W) (b : ℕ) (dd : Device) (n : ℕ) (f : Device → Device)
      → Counts r ds
      → KeepsName f
      → find_addr b ds.devicelist ≡ some dd
      → (f dd).dd_refcnt ≡ n
      → ((d : Device) → 0 < d.dd_refcnt → 0 < (f d).dd_refcnt)
      → ((a : ℕ) → (if a == b then n else r a) ≡ s a)
      → Counts s (record ds { devicelist = update b f ds.devicelist })
  update-Counts r s ds b dd n f c keeps found changed some_left new = record {
    counted = λ a.
        refcnt_at-update a b n f dd ds.devicelist (λ d. (keeps d).0) found changed
        ∙ ap (λ k. if a == b then n else k) (c.counted a)
        ∙ new a;
    positive = All-update _ b f ds.devicelist some_left c.positive;
    old =
        All-update (λ d. d.addr < ds.next_addr) b f ds.devicelist (λ d h. rw ((keeps d).0) h) c.old;
    one_addr = update-Distinct b f ds.devicelist keeps c.one_addr;
    one_name = update-OneName b f ds.devicelist keeps c.one_name;
  }

  unlink-Counts :
      (r s : ℕ → ℕ) (ds : Devices W) (b : ℕ)
      → Counts r ds
      → ((a : ℕ) → (if a == b then 0 else r a) ≡ s a)
      → Counts s (record ds { devicelist = unlink b ds.devicelist })
  unlink-Counts r s ds b c new = record {
    counted = λ a.
        refcnt_at-unlink a b ds.devicelist c.one_addr
        ∙ ap (λ k. if a == b then 0 else k) (c.counted a)
        ∙ new a;
    positive = All-unlink _ b ds.devicelist c.positive;
    old = All-unlink _ b ds.devicelist c.old;
    one_addr = unlink-Distinct b ds.devicelist c.one_addr;
    one_name = unlink-OneName b ds.devicelist c.one_name;
  }

  -- What a call of `audio_devaudio_init` leaves: a device that fails to be set up stays, with one holder that
  -- nobody is.
  abbrev pub Held : (ℕ → ℕ) → ℕ → Opened → Devices W → Type 0
  Held r n (opened a) ds = Counts (more a r) ds
  Held r n refused ds =
      (Counts r ds × (ds.next_addr ≡ n)) ⊎ (Counts (more n r) ds × (ds.next_addr ≡ suc n))
  Held r n fault ds = Unit
  Held r n no_fuel ds = Unit

module _ {W : Type 0} (io : Driver W) where
  pub audio_devaudio_init-Held :
      (rounds : ℕ) (r : ℕ → ℕ) (name : List ℕ) (ds : Devices W)
      → Counts r ds
      → let after = audio_devaudio_init io rounds name ds in Held r ds.next_addr after.0 after.1
  audio_devaudio_init-Held rounds r name ds c =
      let n = ds.next_addr in
      audio_devaudio_init-holds io rounds name ds (λ (x : Opened × Devices W). Held r n x.0 x.1) tt
        (λ dd there.
          let found = find_name-find_addr name dd ds.devicelist c.one_addr there in
          update-Counts r (more dd.addr r) ds dd.addr dd (suc dd.dd_refcnt) count_up c
            (λ d. (refl, refl)) found refl (λ d h. omega arith)
            (λ a.
              ground
                (arith, (refcnt_at-found dd dd.addr ds.devicelist found).1, c.counted dd.addr)))
        (λ w. inl (Counts-world r ds w c, refl))
        (λ new devnr fd info w.
          let dd = new_device io name devnr fd info ds in
          let added = Counts-world _ _ w (add-Counts r ds dd c refl refl new) in
          (added, inr (added, refl), tt, tt))

  -- Giving a device back: one holder less, and no fault
  pub audio_devaudio_exit-Counts :
      (r : ℕ → ℕ) (a : ℕ) (ds : Devices W)
      → Counts r ds
      → 0 < r a
      → ((audio_devaudio_exit io a ds).0 ≡ true)
        × Counts (fewer a r) (audio_devaudio_exit io a ds).1
  unfolding audio_devaudio_exit
  audio_devaudio_exit-Counts r a ds c holds =
      let (dd, found, refs) =
        refcnt_at-listed a ds.devicelist (omega (arith, c.counted a, holds)) in
      let less = dd.dd_refcnt - 1 in
      let fewer_refs : (b : ℕ) → (if b == a then less else r b) ≡ fewer a r b =
        λ b. ground (arith, refs, c.counted a) in
      elim (Bool-cases (ltb 0 less)) [
        | inl some_left ↦
            let f : Device → Device = λ d. record d { dd_refcnt = less } in
            rw (found, some_left, audio_devaudio_exit)
              (
                refl,
                update-Counts r (fewer a r) ds a dd less f c (λ d. (refl, refl)) found refl
                    (λ d h. ltb→lt _ _ some_left) fewer_refs,
              )
        | inr last ↦
            let gone : less ≡ 0 = omega (arith, ltb_false→le _ _ last) in
            rw (found, last, audio_devaudio_exit)
              (
                refl,
                Counts-world _ _ _ (
                    unlink-Counts r (fewer a r) ds a c
                      (λ b. ap (λ k. if b == a then k else r b) (sym gone) ∙ fewer_refs b)),
              )
      ]

  -- The descriptor is closed with the last reference.
  pub audio_devaudio_exit-world :
      (a : ℕ) (ds : Devices W) (dd : Device)
      → find_addr a ds.devicelist ≡ some dd
      → 0 < dd.dd_refcnt
      → (audio_devaudio_exit io a ds).1.world
        ≡ (if dd.dd_refcnt == 1 then io.close dd.dd_fd ds.world else ds.world)
  unfolding audio_devaudio_exit
  audio_devaudio_exit-world a ds dd found some_left = elim (Bool-cases (ltb 0 (dd.dd_refcnt - 1))) [
    | inl t ↦
        let shared : (dd.dd_refcnt == 1) ≡ false = ground (arith, ltb→lt _ _ t) in
        rw (found, t, shared, audio_devaudio_exit) refl
    | inr f ↦
        let last : (dd.dd_refcnt == 1) ≡ true = ground (arith, ltb_false→le _ _ f, some_left) in
        rw (found, f, last, audio_devaudio_exit) refl
  ]
