-- ===== src/DevAudio/Sessions.antt =====
-- The process as a system: sessions open devices of audio/sphone_audio_devaudio.c and give them back, in any
-- order, and the driver answers as it likes.
use sphone.Prelude.{
  ℕ, ◌+◌, ◌<◌, ◌≡◌, refl, ap, ◌∙◌, inl, inr, true, ◌==◌, if◌then◌else◌, some, List, [], ◌∷◌, ◌++◌,
  arith,
}
use mathlib.Core.Path.{subst}
use sphone.DevAudio.{
  Device, Devices, Driver, Opened, opened, refused, find_addr, audio_devaudio_init,
  audio_devaudio_exit,
}
use sphone.DevAudio.Table.{refcnt_at-listed, no_devices}
use sphone.DevAudio.Holders.{
  count, release, count-release, Counts, Held, more, fewer, audio_devaudio_init-Held,
  audio_devaudio_exit-Counts, audio_devaudio_exit-world, Counts-same,
}

-- The devices, the addresses that sessions hold, each as often as it is held, and those that a set-up that failed
-- has left behind. The last is only for the statements: the program does not know it.
pub record Process (W : Type 0) : Type 0 where
  pub devices : Devices W
  pub holders : List ℕ
  pub left_behind : List ℕ

-- A refused call leaves a device behind where it has allocated one.
abbrev pub leaves : {W : Type 0} → Devices W → Devices W → List ℕ
leaves before after = if after.next_addr == before.next_addr then [] else before.next_addr ∷ []

abbrev pub references : {W : Type 0} → Process W → ℕ → ℕ
references s a = count a s.holders + count a s.left_behind

abbrev pub IsCounted : {W : Type 0} → Process W → Type 0
IsCounted s = Counts (references s) s.devices

module _ {W : Type 0} (io : Driver W) (rounds : ℕ) where
  pub data Step (s : Process W) : Process W → Type 0 where
    opens :
        (name : List ℕ) (a : ℕ)
        → (audio_devaudio_init io rounds name s.devices).0 ≡ opened a
        → Step s (record s {
          devices = (audio_devaudio_init io rounds name s.devices).1;
          holders = a ∷ s.holders;
        })
    is_refused :
        (name : List ℕ)
        → (audio_devaudio_init io rounds name s.devices).0 ≡ refused
        → Step s (record s {
          devices = (audio_devaudio_init io rounds name s.devices).1;
          left_behind =
              leaves s.devices (audio_devaudio_init io rounds name s.devices).1 ++ s.left_behind;
        })
    exits :
        (a : ℕ)
        → 0 < count a s.holders
        → Step s (record s {
          devices = (audio_devaudio_exit io a s.devices).1;
          holders = release a s.holders;
        })

  pub data Reach (start : Process W) : Process W → Type 0 where
    here : Reach start start
    next : {s t : Process W} → Reach start s → Step s t → Reach start t

  pub opened-Counts :
      (r : ℕ → ℕ) (n a : ℕ) (x : Opened × Devices W)
      → x.0 ≡ opened a
      → Held r n x.0 x.1
      → Counts (more a r) x.1
  opened-Counts r n a (o, ds) e h = subst (λ q. Held r n q ds) e h

  refused-Counts :
      (r : ℕ → ℕ) (n : ℕ) (x : Opened × Devices W)
      → x.0 ≡ refused
      → Held r n x.0 x.1
      → Held r n refused x.1
  refused-Counts r n (o, ds) e h = subst (λ q. Held r n q ds) e h

  Step-IsCounted : {s t : Process W} → Step s t → IsCounted s → IsCounted t
  unfolding count
  Step-IsCounted {s} (opens name a e) c =
      let held = audio_devaudio_init-Held io rounds (references s) name s.devices c in
      Counts-same (more a (references s)) _ _ (λ b. ground arith)
        (opened-Counts (references s) s.devices.next_addr a _ e held)
  Step-IsCounted {s} (is_refused name e) c =
      let n = s.devices.next_addr in
      let r = references s in
      let ds = (audio_devaudio_init io rounds name s.devices).1 in
      let held = audio_devaudio_init-Held io rounds r name s.devices c in
      elim (refused-Counts r n _ e held) [
        | inl (c1, same) ↦ Counts-same r _ ds (λ b. ground (arith, same)) c1
        | inr (c1, new) ↦ Counts-same (more n r) _ ds (λ b. ground (arith, new)) c1
      ]
  Step-IsCounted {s} (exits a holds) c =
      let given =
        audio_devaudio_exit-Counts io (references s) a s.devices c (omega (arith, holds)) in
      Counts-same (fewer a (references s)) _ _
        (λ b. ground (arith, count-release a b s.holders, holds)) given.1

  -- In every state that the sessions reach, a device is in the list exactly where it is held, or was left behind,
  -- with a reference count that says how often; addresses and names are not doubled.
  pub Reach-IsCounted : (start s : Process W) → IsCounted start → Reach start s → IsCounted s
  Reach-IsCounted start s c here = c
  Reach-IsCounted start s c (next r step) = Step-IsCounted step (Reach-IsCounted start _ c r)

  -- While a device is held, giving it back finds it in the list, and its descriptor is closed exactly where that was
  -- the last reference.
  pub audio_devaudio_exit-last :
      (start s : Process W) (a : ℕ)
      → IsCounted start
      → Reach start s
      → 0 < count a s.holders
      → (dd : Device) × (find_addr a s.devices.devicelist ≡ some dd)
        × ((audio_devaudio_exit io a s.devices).0 ≡ true)
        × ((audio_devaudio_exit io a s.devices).1.world
            ≡ (if references s a == 1 then io.close dd.dd_fd s.devices.world else s.devices.world))
  audio_devaudio_exit-last start s a c r holds =
      let counts = Reach-IsCounted start s c r in
      let (dd, found, refs) =
        refcnt_at-listed a s.devices.devicelist (omega (arith, counts.counted a, holds)) in
      let exact : dd.dd_refcnt ≡ references s a = refs ∙ counts.counted a in
      let ends =
        audio_devaudio_exit-Counts io (references s) a s.devices counts (omega (arith, holds)) in
      let closing : (if dd.dd_refcnt == 1
            then io.close dd.dd_fd s.devices.world
            else s.devices.world)
          ≡ (if references s a == 1 then io.close dd.dd_fd s.devices.world else s.devices.world) =
        ap (λ k. if k == 1 then io.close dd.dd_fd s.devices.world else s.devices.world) exact in
      (
        dd,
        found,
        ends.0,
        audio_devaudio_exit-world io a s.devices dd found (omega (arith, exact, holds)) ∙ closing,
      )

  -- Once every session has given its device back, the list is empty, if no set-up has failed.
  pub devices_gone :
      (start s : Process W)
      → IsCounted start
      → Reach start s
      → s.holders ≡ []
      → s.left_behind ≡ []
      → s.devices.devicelist ≡ []
  unfolding count
  devices_gone start s c r given clean =
      let counts = Reach-IsCounted start s c r in
      no_devices s.devices.devicelist counts.positive (λ a.
        let free : count a s.holders ≡ 0 = rw given refl in
        let none_left : count a s.left_behind ≡ 0 = rw clean refl in
        omega (arith, counts.counted a, free, none_left))
