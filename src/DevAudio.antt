-- ===== src/DevAudio.antt =====
-- audio/sphone_audio_devaudio.c: the audio devices that the process has open, shared by the sessions that
-- play and record on them. The operating system is a parameter. Allocations succeed.
pub mod Table
pub mod Outcomes
pub mod Holders
pub mod Sessions
pub mod Refusals
pub mod Record
pub mod Polls
pub mod Play
pub mod Playing
pub mod Strcmp
pub mod Mixer
mod Tests
use sphone.Prelude.{
  ℕ, zero, suc, ◌+◌, ◌-◌, Bool, true, false, ◌&&◌, ◌||◌, not, ltb, leb, ◌==◌, if◌then◌else◌, Option,
  none, some, List, [], ◌∷◌, length,
}

-- `strcmp` with result 0
unfoldable pub strcmp_eq : List ℕ → List ℕ → Bool
strcmp_eq [] [] = true
strcmp_eq [] (c ∷ t) = false
strcmp_eq (b ∷ s) [] = false
strcmp_eq (b ∷ s) (c ∷ t) = b == c && strcmp_eq s t

-- `struct devaudio_device`, with its address
pub record Device : Type 0 where
  pub addr : ℕ
  pub dd_name : List ℕ
  pub dd_fd : ℕ
  pub dd_refcnt : ℕ
  pub dd_devnr : ℕ
  pub dd_shmem : Bool

-- The flags that AUDIO_GETPROPS gives and the code tests
pub record Props : Type 0 where
  pub prop_fullduplex : Bool
  pub prop_mmap : Bool

-- A control of the mixer: whether its type is AUDIO_MIXER_ENUM, and its label
pub record MixerDevinfo : Type 0 where
  pub is_enum : Bool
  pub label : List ℕ

-- The system calls (`none` and `false` are a negative result) and `sphone_error`. The mixer of a device is opened
-- by its number.
pub record Driver (W : Type 0) : Type 0 where
  pub open_device : List ℕ → W → Option ℕ × W
  pub open_mixer : ℕ → W → Option ℕ × W
  pub getprops : ℕ → W → Option Props × W
  pub setfd : ℕ → W → Bool × W
  pub mixer_devinfo : ℕ → ℕ → W → Option MixerDevinfo × W
  -- AUDIO_MIXER_WRITE of an enumeration: the control and the value
  pub mixer_write : ℕ → ℕ → ℕ → W → Bool × W
  pub close : ℕ → W → W
  pub sphone_error : W → W

-- `Devaudio_devicelist`, and everything else
pub record Devices (W : Type 0) : Type 0 where
  pub devicelist : List Device
  pub next_addr : ℕ
  pub world : W

pub data Opened : Type 0 where
  opened : ℕ → Opened
  refused fault no_fuel : Opened

-- The result of `devaudio_unmute`
pub data Unmuted : Type 0 where
  unmuted not_unmuted out_of_rounds : Unmuted

-- "mute"
abbrev pub mute : List ℕ
mute = 109 ∷ 117 ∷ 116 ∷ 101 ∷ []

abbrev pub sizeof_dd_name : ℕ
sizeof_dd_name = 16

-- `atoi` of the last character; `none` where there is none, and the byte before the name is read
unfoldable pub last_digit : List ℕ → Option ℕ
last_digit [] = none
last_digit (c ∷ []) = some (if leb 48 c && leb c 57 then c - 48 else 0)
last_digit (c ∷ d ∷ s) = last_digit (d ∷ s)

-- The first device of a name
unfoldable pub find_name : List ℕ → List Device → Option Device
unfolding strcmp_eq
find_name name [] = none
find_name name (dd ∷ rest) = if strcmp_eq dd.dd_name name then some dd else find_name name rest

-- The device at an address
unfoldable pub find_addr : ℕ → List Device → Option Device
find_addr a [] = none
find_addr a (dd ∷ rest) = if a == dd.addr then some dd else find_addr a rest

-- A change of the device at an address
unfoldable pub update : ℕ → (Device → Device) → List Device → List Device
update a f [] = []
update a f (dd ∷ rest) = if a == dd.addr then f dd ∷ rest else dd ∷ update a f rest

-- The list with the device at an address unlinked
unfoldable pub unlink : ℕ → List Device → List Device
unlink a [] = []
unlink a (dd ∷ rest) = if a == dd.addr then rest else dd ∷ unlink a rest

module _ {W : Type 0} (io : Driver W) where
  abbrev pub is_mute : MixerDevinfo → Bool
  is_mute md = md.is_enum && strcmp_eq md.label mute

  -- The loop over the mixer's controls from an index on
  unfoldable pub unmute_from : ℕ → ℕ → ℕ → W → Unmuted × W
  unfolding strcmp_eq
  unmute_from zero fd index w = (out_of_rounds, w)
  unmute_from (suc rounds) fd index w =
      let (md, w1) = io.mixer_devinfo fd index w in
      let after : W → Unmuted × W = unmute_from rounds fd (suc index) in
      elim md [
        | none ↦ (unmuted, io.close fd w1)
        | some control ↦
            if is_mute control
            then (let (written, w2) = io.mixer_write fd index 0 w1 in
                if written then after w2 else (not_unmuted, io.close fd (io.sphone_error w2)))
            else after w1
      ]

  unfoldable pub devaudio_unmute : ℕ → ℕ → W → Unmuted × W
  unfolding unmute_from
  devaudio_unmute rounds devnr w =
      let (fd, w1) = io.open_mixer devnr w in
      elim fd [ none ↦ (not_unmuted, io.sphone_error w1) | some s ↦ unmute_from rounds s 0 w1 ]

  -- The settings of a device that is in the list already, once the mixer has been tried
  unfoldable pub after_unmute : Device → Unmuted × W → Opened × W
  after_unmute dd (out_of_rounds, w) = (no_fuel, w)
  after_unmute dd (not_unmuted, w) = (refused, w)
  after_unmute dd (unmuted, w) =
      let (done, w1) = io.setfd dd.dd_fd w in
      if done then (opened dd.addr, w1) else (refused, io.sphone_error w1)

  unfoldable pub set_up : ℕ → Device → W → Opened × W
  unfolding devaudio_unmute after_unmute
  set_up rounds dd w = after_unmute dd (devaudio_unmute rounds dd.dd_devnr w)

  abbrev pub new_device : List ℕ → ℕ → ℕ → Props → Devices W → Device
  new_device name devnr fd info ds = record {
    addr = ds.next_addr;
    dd_name = name;
    dd_fd = fd;
    dd_refcnt = 1;
    dd_devnr = devnr;
    dd_shmem = info.prop_mmap;
  }

  -- `smalloc` of a device, and its entry in the list. A name of 16 bytes or more is copied past the end of the field.
  unfoldable pub add_device : ℕ → List ℕ → ℕ → ℕ → Props → Devices W → Opened × Devices W
  unfolding set_up
  add_device rounds name devnr fd info ds =
      let dd = new_device name devnr fd info ds in
      let ds1 = record ds { devicelist = dd ∷ ds.devicelist; next_addr = suc ds.next_addr } in
      if ltb (length name) sizeof_dd_name
      then (let (result, w) = set_up rounds dd ds.world in (result, record ds1 { world = w }))
      else (fault, ds1)

  -- A device that is not open yet
  unfoldable pub open_first : ℕ → List ℕ → ℕ → Devices W → Opened × Devices W
  unfolding add_device
  open_first rounds name devnr ds =
      let (fd, w) = io.open_device name ds.world in
      elim fd [
        | none ↦ (refused, record ds { world = io.sphone_error w })
        | some s ↦
            let (info, w1) = io.getprops s w in
            elim info [
              | none ↦ (refused, record ds { world = io.sphone_error w1 })
              | some props ↦
                  if not props.prop_fullduplex || not props.prop_fullduplex
                  then (refused, record ds { world = io.sphone_error (io.close s w1) })
                  else add_device rounds name devnr s props (record ds { world = w1 })
            ]
      ]

  unfoldable pub audio_devaudio_init : ℕ → List ℕ → Devices W → Opened × Devices W
  unfolding open_first find_name last_digit update
  audio_devaudio_init rounds name ds = elim (last_digit name) [
    | none ↦ (fault, ds)
    | some devnr ↦ elim (find_name name ds.devicelist) [
      | none ↦ open_first rounds name devnr ds
      | some dd ↦
          let count : Device → Device = λ d. record d { dd_refcnt = suc d.dd_refcnt } in
          (opened dd.addr, record ds { devicelist = update dd.addr count ds.devicelist })
    ]
  ]

  -- `false` is a use of a device that has been freed.
  unfoldable pub audio_devaudio_exit : ℕ → Devices W → Bool × Devices W
  unfolding find_addr update unlink
  audio_devaudio_exit a ds = elim (find_addr a ds.devicelist) [
    | none ↦ (false, ds)
    | some dd0 ↦
        let refcnt = dd0.dd_refcnt - 1 in
        if ltb 0 refcnt
        then (
          true,
          record ds { devicelist = update a (λ d. record d { dd_refcnt = refcnt }) ds.devicelist },
        )
        else (
          true,
          record ds { devicelist = unlink a ds.devicelist; world = io.close dd0.dd_fd ds.world },
        )
  ]
