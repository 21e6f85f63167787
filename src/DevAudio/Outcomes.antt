-- ===== src/DevAudio/Outcomes.antt =====
-- The ways through `audio_devaudio_init` of audio/sphone_audio_devaudio.c.
use sphone.Prelude.{
  ℕ, suc, ◌≡◌, refl, sym, inl, inr, not, ◌||◌, ltb, Option-cases, if◌then◌else◌, if-holds, none,
  some, List, ◌∷◌, length,
}
use mathlib.Core.Path.{subst}
use sphone.DevAudio.{
  Device, Devices, Driver, Opened, opened, refused, fault, no_fuel, last_digit, find_name, update,
  Props, sizeof_dd_name, out_of_rounds, not_unmuted, unmuted, devaudio_unmute, after_unmute, set_up,
  new_device, add_device, open_first, audio_devaudio_init,
}

abbrev pub count_up : Device → Device
count_up d = record d { dd_refcnt = suc d.dd_refcnt }

-- The list with a device more
abbrev pub with_device : {W : Type 0} → Device → W → Devices W → Devices W
with_device dd w ds = record ds {
  devicelist = dd ∷ ds.devicelist;
  next_addr = suc ds.next_addr;
  world = w;
}

module _ {W : Type 0} (io : Driver W) (rounds : ℕ) (name : List ℕ) (ds : Devices W)
    (P : Opened × Devices W → Type 0) where
  -- A property of the results of adding a device
  abbrev pub OfAdded : Type 0
  OfAdded =
      (devnr fd : ℕ) (info : Props) (w : W)
      → let dd = new_device io name devnr fd info ds in
        P (opened dd.addr, with_device dd w ds)
        × P (refused, with_device dd w ds)
        × P (no_fuel, with_device dd w ds)
        × P (fault, with_device dd w ds)

  set_up-holds :
      (devnr fd : ℕ) (info : Props) (w : W)
      → OfAdded
      → let dd = new_device io name devnr fd info ds in
        let r = set_up io rounds dd w in P (r.0, with_device dd r.1 ds)
  unfolding set_up
  set_up-holds devnr fd info w all =
      let dd = new_device io name devnr fd info ds in
      let (result, w1) = devaudio_unmute io rounds dd.dd_devnr w in
      elim result as (λ u. let r = after_unmute io dd (u, w1) in P (r.0, with_device dd r.1 ds)) [
        | out_of_rounds ↦ (all devnr fd info w1).2
        | not_unmuted ↦ (all devnr fd info w1).1
        | unmuted ↦
            let (done, w2) = io.setfd dd.dd_fd w1 in
            if-holds (λ (x : Opened × W). P (x.0, with_device dd x.1 ds)) done
              (all devnr fd info w2).0 (all devnr fd info (io.sphone_error w2)).1
      ]

  add_device-holds :
      (devnr fd : ℕ) (info : Props) (w : W)
      → OfAdded
      → P (add_device io rounds name devnr fd info (record ds { world = w }))
  unfolding add_device
  add_device-holds devnr fd info w all =
      if-holds P (ltb (length name) sizeof_dd_name) (set_up-holds devnr fd info w all)
        (all devnr fd info w).3

  open_first-holds :
      (devnr : ℕ)
      → ((w : W) → P (refused, record ds { world = w }))
      → OfAdded
      → P (open_first io rounds name devnr ds)
  unfolding open_first
  open_first-holds devnr refuse all =
      let (fd, w) = io.open_device name ds.world in
      elim (Option-cases fd) [
        | inl e ↦
            let is : open_first io rounds name devnr ds
                ≡ (refused, record ds { world = io.sphone_error w }) =
              rw (e, open_first) refl in
            subst P (sym is) (refuse _)
        | inr (s, e) ↦
            let (info, w1) = io.getprops s w in
            elim (Option-cases info) [
              | inl e1 ↦
                  let is : open_first io rounds name devnr ds
                      ≡ (refused, record ds { world = io.sphone_error w1 }) =
                    rw (e, e1, open_first) refl in
                  subst P (sym is) (refuse _)
              | inr (props, e1) ↦
                  let lacks = not props.prop_fullduplex || not props.prop_fullduplex in
                  let no_duplex : Opened × Devices W =
                    (refused, record ds { world = io.sphone_error (io.close s w1) }) in
                  let add = add_device io rounds name devnr s props (record ds { world = w1 }) in
                  let is : open_first io rounds name devnr ds ≡ (if lacks then no_duplex else add) =
                    rw (e, e1, open_first) refl in
                  subst P (sym is)
                    (if-holds P lacks (refuse _) (add_device-holds devnr s props w1 all))
            ]
      ]

  -- What holds of every result holds of the call: the name is empty, the device is open already, the driver refuses
  -- it, or it is added.
  pub audio_devaudio_init-holds :
      P (fault, ds)
      → ((dd : Device)
          → find_name name ds.devicelist ≡ some dd
          → P (opened dd.addr, record ds { devicelist = update dd.addr count_up ds.devicelist }))
      → ((w : W) → P (refused, record ds { world = w }))
      → (find_name name ds.devicelist ≡ none → OfAdded)
      → P (audio_devaudio_init io rounds name ds)
  unfolding audio_devaudio_init
  audio_devaudio_init-holds empty known refuse add = elim (Option-cases (last_digit name)) [
    | inl e ↦
        let is : audio_devaudio_init io rounds name ds ≡ (fault, ds) =
          rw (e, audio_devaudio_init) refl in
        subst P (sym is) empty
    | inr (devnr, e) ↦ elim (Option-cases (find_name name ds.devicelist)) [
      | inl new ↦
          let is : audio_devaudio_init io rounds name ds ≡ open_first io rounds name devnr ds =
            rw (e, new, audio_devaudio_init) refl in
          subst P (sym is) (open_first-holds devnr refuse (add new))
      | inr (dd, there) ↦
          let is : audio_devaudio_init io rounds name ds
              ≡ (opened dd.addr, record ds { devicelist = update dd.addr count_up ds.devicelist }) =
            rw (e, there, audio_devaudio_init) refl in
          subst P (sym is) (known dd there)
    ]
  ]
