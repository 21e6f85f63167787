-- ===== src/DevAudio/Play.antt =====
-- audio/sphone_audio_devaudio_play.c: playing on a device, through `write` or through its mapped buffer, and
-- coding2devaudio of audio/sphone_audio_devaudio.c.
use sphone.Prelude.Words.{u32, sub32, is_negative}
use sphone.Prelude.{
  ℕ, suc, ◌+◌, ◌-◌, ◌<◌, ◌≡◌, Bool, ltb, leb, ◌&&◌, ◌==◌, if◌then◌else◌, Option, none, some, List,
  length, arith, take, drop, bit_or, ◌%◌, ◌^◌, [], ◌∷◌, not, ◌||◌, ◌⊎◌, inl, inr, ◌≤◌,
}
use sphone.Prelude.Memory.{Block, store}
use sphone.Coding.Payload.{CodingType, linear16, ulaw, alaw, linear8}
use sphone.Playout.Dispatch.{PlayoutType, fifo, shmem}
use sphone.DevAudio.{
  Device, Devices, Driver, Opened, opened, refused, fault, no_fuel, find_addr, audio_devaudio_init,
  audio_devaudio_exit,
}

-- The encodings of sys/audioio.h
pub data Encoding : Type 0 where
  slinear_le slinear ulaw_encoding alaw_encoding : Encoding

unfoldable pub coding2devaudio : CodingType → Encoding
coding2devaudio linear16 = slinear_le
coding2devaudio ulaw = ulaw_encoding
coding2devaudio alaw = alaw_encoding
coding2devaudio linear8 = slinear

-- The fields of `audio_info_t` that are set
pub record PlayInfo : Type 0 where
  pub encoding : Encoding
  pub precision : ℕ
  pub sample_rate : ℕ
  pub channels : ℕ
  pub mode : ℕ

-- The system calls on an open device; `none` and `false` are a negative result
pub record Output (W : Type 0) : Type 0 where
  pub write : ℕ → List ℕ → W → Bool × W
  -- AUMODE_PLAY | AUMODE_PLAY_ALL of sys/audioio.h
  pub aumode_play : ℕ
  -- AUDIO_SETINFO; AUDIO_GETINFO for the channels, and for the size of the buffer; AUDIO_GETOOFFS
  pub setinfo : ℕ → PlayInfo → W → Bool × W
  pub getinfo_channels : ℕ → W → Option ℕ × W
  pub getinfo_buffer_size : ℕ → W → Option ℕ × W
  pub getooffs : ℕ → W → Option ℕ × W
  -- The address of the buffer
  pub mmap : ℕ → ℕ → W → Option ℕ × W
  pub sphone_error : W → W
  pub sphone_warning : W → W

-- `struct audio_devaudio_play` with what it uses of its session, the memory, and everything else. The device is the
-- address of one in the list.
pub record Player (W : Type 0) : Type 0 where
  pub ap_devaudio : Option ℕ
  pub ap_mode : ℕ
  pub ap_playout_type : PlayoutType
  pub ap_mmap_buffer_size : ℕ
  pub ap_mmap_buffer : ℕ
  pub rst_pbytes : ℕ
  pub rst_ppkt : ℕ
  pub cp_type : CodingType
  pub cp_precision : ℕ
  pub cp_samp_sec : ℕ
  pub cp_channels : ℕ
  pub memory : Block
  pub devices : Devices W

-- How a call ends: with 0, with -1, with an access outside of the memory that is mapped, by a failed
-- assertion, or never
pub data Outcome : Type 0 where
  ok failed bad_access aborted diverged : Outcome

-- `memcpy` of bytes to an address
unfoldable pub write_bytes : ℕ → List ℕ → Block → Block
unfolding store
write_bytes a [] m = m
write_bytes a (b ∷ bs) m = write_bytes (suc a) bs (store m a b)

-- `a < b` for `int`s, as their bit patterns
abbrev less_signed : ℕ → ℕ → Bool
less_signed a b = ltb ((a + 2 ^ 31) % 2 ^ 32) ((b + 2 ^ 31) % 2 ^ 32)

module _ {W : Type 0} (io : Output W) where
  abbrev pub played : ℕ → Player W → Player W
  played len ap = record ap {
    rst_pbytes = u32 (ap.rst_pbytes + len);
    rst_ppkt = u32 (ap.rst_ppkt + 1);
  }

  abbrev pub set_world : W → Player W → Player W
  set_world w ap = record ap { devices = record ap.devices { world = w } }

  -- The bytes at an address are those of the mapped buffer.
  abbrev pub mapped : Player W → ℕ → ℕ → Bool
  mapped ap a len =
      leb ap.ap_mmap_buffer a && leb (a + len) (ap.ap_mmap_buffer + ap.ap_mmap_buffer_size)

  -- A `memcpy` of so many bytes, an `int`, as its bit pattern, that is taken for a `size_t`: nothing, or bytes that there
  -- are, to a place in the mapped buffer. Any other copy is a bad access.
  abbrev copies : Player W → ℕ → ℕ → ℕ → Bool
  copies ap there a n = n == 0 || (not (is_negative n) && leb n there && mapped ap a n)

  -- `(int)(pos + len)`, `(int)pos` and `len1` are `int`s, as their bit patterns, and so is the buffer's size; an address
  -- does not wrap.
  unfoldable pub audio_devaudio_play_play_mmap : List ℕ → ℕ → Player W → Outcome × Player W
  unfolding write_bytes
  audio_devaudio_play_play_mmap buf pos ap =
      let len = length buf in
      let size = ap.ap_mmap_buffer_size in
      let beyond = less_signed size (u32 (pos + len)) in
      let len1 = if beyond then sub32 size (u32 pos) else u32 len in
      let pos2 = if beyond then ap.ap_mmap_buffer else 0 in
      let len2 = if pos2 == 0 then 0 else sub32 (u32 len) len1 in
      if copies ap len pos len1 && copies ap (len - len1) pos2 len2
      then (
        ok,
        played len (record ap {
          memory =
              write_bytes pos2 (take len2 (drop len1 buf))
                (write_bytes pos (take len1 buf) ap.memory);
        }),
      )
      else (bad_access, ap)

  unfoldable pub audio_devaudio_play_play_fifo : List ℕ → Device → Player W → Outcome × Player W
  audio_devaudio_play_play_fifo pkt dd ap =
      let (written, w) = io.write dd.dd_fd pkt ap.devices.world in
      if written
      then (ok, played (length pkt) (set_world w ap))
      else (failed, set_world (io.sphone_error w) ap)

  -- `assert(ap->ap_devaudio)`, and the device that it points to
  unfoldable pub with_held : {A : Type 0} → A → A → (Device → A) → Player W → A
  with_held no_device freed use_device ap = elim ap.ap_devaudio [
    | none ↦ no_device
    | some a ↦ elim (find_addr a ap.devices.devicelist) [ none ↦ freed | some dd ↦ use_device dd ]
  ]

  unfoldable pub audio_devaudio_play_play : List ℕ → ℕ → Player W → Outcome × Player W
  unfolding audio_devaudio_play_play_fifo audio_devaudio_play_play_mmap with_held
  audio_devaudio_play_play pkt pos ap = elim ap.ap_playout_type [
    | fifo ↦
        with_held (aborted, ap) (bad_access, ap) (λ dd. audio_devaudio_play_play_fifo pkt dd ap) ap
    | shmem ↦
        with_held (aborted, ap) (bad_access, ap) (λ dd. audio_devaudio_play_play_mmap pkt pos ap) ap
  ]

  -- AUDIO_GETOOFFS, and the write cursor from it; the play cursor is never set.
  unfoldable pub write_position : Device → Player W → Outcome × ℕ × Player W
  write_position dd ap =
      let (offset, w) = io.getooffs dd.dd_fd ap.devices.world in
      elim offset [
        | none ↦ (failed, 0, set_world (io.sphone_error w) ap)
        | some n ↦ (ok, n, set_world w ap)
      ]

  unfoldable pub audio_devaudio_play_pos : Player W → Outcome × ℕ × Player W
  unfolding write_position with_held
  audio_devaudio_play_pos ap = elim ap.ap_playout_type [
    | fifo ↦ (aborted, 0, ap)
    | shmem ↦ with_held (aborted, 0, ap) (bad_access, 0, ap) (λ dd. write_position dd ap) ap
  ]

  -- What follows AUDIO_GETINFO: the channels may have changed.
  unfoldable pub adopt_channels : Option ℕ → Player W → Outcome × Player W
  adopt_channels none ap = (failed, set_world (io.sphone_error ap.devices.world) ap)
  adopt_channels (some n) ap = if ap.cp_channels == n then (ok, ap) else (
    ok,
    record (set_world (io.sphone_warning ap.devices.world) ap) { cp_channels = n % 2 ^ 8 },
  )

  abbrev pub play_info : Player W → PlayInfo
  play_info ap = record {
    encoding = coding2devaudio ap.cp_type;
    precision = ap.cp_precision;
    sample_rate = ap.cp_samp_sec;
    channels = ap.cp_channels;
    mode = ap.ap_mode;
  }

  -- AUDIO_SETINFO and AUDIO_GETINFO on the device
  unfoldable pub set_info : Device → Player W → Outcome × Player W
  unfolding adopt_channels coding2devaudio
  set_info dd ap =
      let ap1 = record ap { ap_mode = bit_or ap.ap_mode io.aumode_play } in
      let (set, w) = io.setinfo dd.dd_fd (play_info ap1) ap1.devices.world in
      if set
      then (let (channels, w1) = io.getinfo_channels dd.dd_fd w in
          adopt_channels channels (set_world w1 ap1))
      else (failed, set_world (io.sphone_error w) ap1)

  unfoldable pub audio_devaudio_play_start : Player W → Outcome × Player W
  unfolding set_info with_held
  audio_devaudio_play_start ap =
      with_held (bad_access, ap) (bad_access, ap) (λ dd. set_info dd ap) ap

  -- The mapping of the buffer of a device, where it can be mapped
  unfoldable pub map_buffer : Device → Player W → Outcome × Player W
  map_buffer dd ap =
      let (size, w) = io.getinfo_buffer_size dd.dd_fd ap.devices.world in
      elim size [
        | none ↦ (failed, set_world (io.sphone_error w) ap)
        | some n ↦
            let (address, w1) = io.mmap dd.dd_fd n w in
            let ap1 = record ap { ap_mmap_buffer_size = n } in
            elim address [
              | none ↦ (failed, set_world (io.sphone_error w1) ap1)
              | some a ↦ (ok, set_world w1 (record ap1 { ap_mmap_buffer = a }))
            ]
      ]

  -- With a device that has been opened, or none
  unfoldable pub after_init : Opened × Devices W → Player W → Outcome × Player W
  unfolding map_buffer
  after_init (opened a, ds) ap = elim (find_addr a ds.devicelist) [
    | none ↦ (bad_access, ap)
    | some dd ↦
        let ap1 = record ap { ap_devaudio = some a; devices = ds } in
        if dd.dd_shmem
        then map_buffer dd (record ap1 { ap_playout_type = shmem })
        else (ok, record ap1 { ap_playout_type = fifo })
  ]
  after_init (refused, ds) ap = (failed, record ap { ap_devaudio = none; devices = ds })
  after_init (fault, ds) ap = (bad_access, record ap { devices = ds })
  after_init (no_fuel, ds) ap = (diverged, record ap { devices = ds })

  unfoldable pub audio_devaudio_play_open : Driver W → ℕ → List ℕ → Player W → Outcome × Player W
  unfolding after_init
  audio_devaudio_play_open driver rounds name ap =
      after_init (audio_devaudio_init driver rounds name ap.devices) ap

  unfoldable pub audio_devaudio_play_close : Driver W → Player W → Outcome × Player W
  audio_devaudio_play_close driver ap = elim ap.ap_devaudio [
    | none ↦ (ok, ap)
    | some a ↦
        let (there, ds) = audio_devaudio_exit driver a ap.devices in
        (if there then ok else bad_access, record ap { devices = ds })
  ]

  -- Playing some bytes through the mapped buffer is a bad access, both at an offset into the buffer, as the playout
  -- passes it, and at an address from the buffer's on, where `pos + len` is below 2 ^ 31 and the buffer is mapped above
  -- its own size.
  pub audio_devaudio_play_play_mmap_faults :
      (buf : List ℕ) (pos : ℕ) (ap : Player W)
      → ap.ap_mmap_buffer_size < ap.ap_mmap_buffer
      → ap.ap_mmap_buffer_size < 2 ^ 31
      → (pos < ap.ap_mmap_buffer_size) ⊎ (ap.ap_mmap_buffer ≤ pos)
      → pos + length buf < 2 ^ 31
      → 0 < length buf
      → (audio_devaudio_play_play_mmap buf pos ap).0 ≡ bad_access
  unfolding audio_devaudio_play_play_mmap
  audio_devaudio_play_play_mmap_faults buf pos ap above small (inl offset) low some_bytes =
      ground arith
  audio_devaudio_play_play_mmap_faults buf pos ap above small (inr address) low some_bytes =
      ground arith
