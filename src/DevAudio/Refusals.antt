-- ===== src/DevAudio/Refusals.antt =====
-- What a set-up of audio/sphone_audio_devaudio.c that fails leaves for the next call.
use sphone.Prelude.{ℕ, ◌≡◌, ◌≢◌, refl, ap, ◌∙◌, true, ◌==◌, some, List, ◌∷◌, arith}
use sphone.DevAudio.{
  Device, Devices, Driver, Opened, opened, refused, strcmp_eq, last_digit, find_name, update,
  new_device, audio_devaudio_init,
}
use sphone.DevAudio.Strcmp.{strcmp_eq_refl}
use sphone.DevAudio.Outcomes.{count_up, audio_devaudio_init-holds}

module _ {W : Type 0} (io : Driver W) (rounds : ℕ) (name : List ℕ) (ds : Devices W) where
  -- A refused call has changed nothing in the list, or put the device in front.
  abbrev pub LeftInFront : Opened × Devices W → Type 0
  LeftInFront x =
      x.0 ≡ refused
      → x.1.next_addr ≢ ds.next_addr
      → (dd : Device) × (x.1.devicelist ≡ dd ∷ ds.devicelist)
        × (dd.dd_name ≡ name)
        × (dd.addr ≡ ds.next_addr)
        × (dd.dd_refcnt ≡ 1)

  init-LeftInFront : LeftInFront (audio_devaudio_init io rounds name ds)
  init-LeftInFront =
      audio_devaudio_init-holds io rounds name ds LeftInFront (λ e n. absurd (cc e))
        (λ dd there e n. absurd (cc e)) (λ w e n. absurd (n refl))
        (λ new devnr fd info w.
          let dd = new_device io name devnr fd info ds in
          (
            (λ e n. absurd (cc e)),
            (λ e n. (dd, refl, refl, refl, refl)),
            (λ e n. absurd (cc e)),
            (λ e n. absurd (cc e)),
          ))

  open_again :
      (again : Devices W) (dd : Device) (rest : List Device) (devnr : ℕ)
      → again.devicelist ≡ dd ∷ rest
      → dd.dd_name ≡ name
      → last_digit name ≡ some devnr
      → audio_devaudio_init io rounds name again
        ≡ (opened dd.addr, record again { devicelist = count_up dd ∷ rest })
  unfolding audio_devaudio_init find_name update
  open_again again dd rest devnr listed same digit =
      let hit : strcmp_eq dd.dd_name name ≡ true = rw same (strcmp_eq_refl name) in
      let own : (dd.addr == dd.addr) ≡ true = ground arith in
      let there : find_name name again.devicelist ≡ some dd = rw (listed, hit) refl in
      let changed : update dd.addr count_up again.devicelist ≡ count_up dd ∷ rest =
        rw (listed, own) refl in
      rw (digit, there, changed, audio_devaudio_init) refl

  -- A device whose set-up has failed stays in the list: the next call for its name succeeds and does not ask the
  -- driver, though the device is not set up.
  pub audio_devaudio_init_after_failure :
      (devnr : ℕ)
      → last_digit name ≡ some devnr
      → (audio_devaudio_init io rounds name ds).0 ≡ refused
      → (audio_devaudio_init io rounds name ds).1.next_addr ≢ ds.next_addr
      → let failed = (audio_devaudio_init io rounds name ds).1 in
        let again = audio_devaudio_init io rounds name failed in
        (again.0 ≡ opened ds.next_addr) × (again.1.world ≡ failed.world)
  audio_devaudio_init_after_failure devnr digit e n =
      let (dd, listed, same, addr, _) = init-LeftInFront e n in
      let failed = (audio_devaudio_init io rounds name ds).1 in
      let eq = open_again failed dd ds.devicelist devnr listed same digit in
      (ap (λ x. x.0) eq ∙ ap opened addr, ap (λ x. x.1.world) eq)
