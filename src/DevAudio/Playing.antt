-- ===== src/DevAudio/Playing.antt =====
-- Opening and closing the playing side of a device (audio/sphone_audio_devaudio_play.c).
use sphone.Prelude.{
  ℕ, ◌<◌, ◌≡◌, refl, sym, ap, inl, inr, true, Bool-cases, Option-cases, some, List, arith,
}
use mathlib.Core.Path.{subst}
use sphone.Playout.Dispatch.{shmem}
use sphone.DevAudio.{
  Device, Devices, Driver, Opened, opened, find_addr, audio_devaudio_init, audio_devaudio_exit,
}
use sphone.DevAudio.Table.{refcnt_at-listed}
use sphone.DevAudio.Holders.{
  Counts, Counts-world, Counts-same, more, fewer, audio_devaudio_init-Held,
  audio_devaudio_exit-Counts,
}
use sphone.DevAudio.Sessions.{opened-Counts}
use sphone.DevAudio.Play.{
  Player, Output, Outcome, ok, map_buffer, after_init, audio_devaudio_play_open,
  audio_devaudio_play_close,
}

module _ {W : Type 0} (io : Output W) (driver : Driver W) where
  -- The player holds a device of a list, whatever the driver has done meanwhile.
  abbrev pub HoldsOf : ℕ → Devices W → Player W → Type 0
  HoldsOf a ds pl = (pl.ap_devaudio ≡ some a) × ((w : W) × (pl.devices ≡ record ds { world = w }))

  map_buffer-HoldsOf :
      (a : ℕ) (ds : Devices W) (dd : Device) (pl : Player W)
      → HoldsOf a ds pl
      → HoldsOf a ds (map_buffer io dd pl).1
  unfolding map_buffer
  map_buffer-HoldsOf a ds dd pl (held, (w0, same)) =
      let (size, w) = io.getinfo_buffer_size dd.dd_fd pl.devices.world in
      let moved : (w' : W) → record pl.devices { world = w' } ≡ record ds { world = w' } =
        λ w'. ap (λ (d : Devices W). record d { world = w' }) same in
      elim (Option-cases size) [
        | inl e ↦ rw (e, map_buffer) (held, (_, moved (io.sphone_error w)))
        | inr (n, e) ↦
            let (address, w1) = io.mmap dd.dd_fd n w in
            elim (Option-cases address) [
              | inl e1 ↦ rw (e, e1, map_buffer) (held, (_, moved (io.sphone_error w1)))
              | inr (b, e1) ↦ rw (e, e1, map_buffer) (held, (_, moved w1))
            ]
      ]

  after_init-HoldsOf :
      (a : ℕ) (x : Opened × Devices W) (dd : Device) (pl : Player W)
      → x.0 ≡ opened a
      → find_addr a x.1.devicelist ≡ some dd
      → HoldsOf a x.1 (after_init io x pl).1
  unfolding after_init
  after_init-HoldsOf a (o, ds) dd pl e found =
      let is : after_init io (o, ds) pl ≡ after_init io (opened a, ds) pl =
        ap (λ q. after_init io (q, ds) pl) e in
      let pl1 = record pl { ap_devaudio = some a; devices = ds } in
      subst (λ (q : Outcome × Player W). HoldsOf a ds q.1) (sym is)
        (elim (Bool-cases dd.dd_shmem) [
          | inl t ↦
              rw (found, t, after_init)
                (map_buffer-HoldsOf a ds dd (record pl1 { ap_playout_type = shmem })
                  (refl, (ds.world, refl)))
          | inr f ↦ rw (found, f, after_init) (refl, (ds.world, refl))
        ])

  close_held :
      (a : ℕ) (pl : Player W)
      → pl.ap_devaudio ≡ some a
      → (audio_devaudio_exit driver a pl.devices).0 ≡ true
      → ((audio_devaudio_play_close io driver pl).0 ≡ ok)
        × ((audio_devaudio_play_close io driver pl).1.devices
            ≡ (audio_devaudio_exit driver a pl.devices).1)
  unfolding audio_devaudio_play_close
  close_held a pl held ends = rw (held, ends, audio_devaudio_play_close) (refl, refl)

  -- A device that a player opens is given back by closing it: no use of a freed device, and the counts are as before,
  -- also where the buffer could not be mapped and the player's opening fails.
  pub audio_devaudio_play_open_close :
      (rounds : ℕ) (name : List ℕ) (r : ℕ → ℕ) (a : ℕ) (pl : Player W)
      → Counts r pl.devices
      → (audio_devaudio_init driver rounds name pl.devices).0 ≡ opened a
      → let opened_pl = (audio_devaudio_play_open io driver rounds name pl).1 in
        let closed = audio_devaudio_play_close io driver opened_pl in
        (opened_pl.ap_devaudio ≡ some a) × (closed.0 ≡ ok) × Counts r closed.1.devices
  unfolding audio_devaudio_play_open
  audio_devaudio_play_open_close rounds name r a pl c e =
      let x = audio_devaudio_init driver rounds name pl.devices in
      let counts =
        opened-Counts driver rounds r pl.devices.next_addr a x e
          (audio_devaudio_init-Held driver rounds r name pl.devices c) in
      let own : 0 < more a r a = ground arith in
      let (dd, found, _) =
        refcnt_at-listed a x.1.devicelist (omega (arith, counts.counted a, own)) in
      let (held, (w, same)) = after_init-HoldsOf a x dd pl e found in
      let pl1 = (after_init io x pl).1 in
      let counts1 : Counts (more a r) pl1.devices =
        subst (λ ds. Counts (more a r) ds) (sym same) (Counts-world _ x.1 w counts) in
      let (ends, back) =
        audio_devaudio_exit-Counts driver (more a r) a pl1.devices counts1 (omega (arith, own)) in
      let (closes, left) = close_held a pl1 held ends in
      let same_counts : (b : ℕ) → fewer a (more a r) b ≡ r b = λ b. ground arith in
      (held, closes, subst (Counts r) (sym left) (Counts-same _ r _ same_counts back))
