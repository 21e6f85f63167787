-- ===== src/DirectSound/Play.antt =====
-- audio/sphone_audio_directsound_play.c, as it is built (without `newtry`), and the loop that restores a lost buffer,
-- which is built only with it.
use sphone.Prelude.{
  ℕ, zero, suc, ◌+◌, ◌*◌, ◌/◌, ◌%◌, ◌^◌, Bool, ltb, ◌==◌, if◌then◌else◌, Option, none, some, List,
  [], ◌∷◌, length, take, drop,
}
use sphone.Prelude.Words.{u32}
use sphone.Prelude.Memory.{Block, store}

-- The result of `Restore`: done, the buffer lost again, or another error
pub data Restored : Type 0 where
  restored buffer_lost restore_failed : Restored

-- A region of the buffer: its first address, and its length
abbrev pub Region : Type 0
Region = ℕ × ℕ

-- The format that a buffer is created with
pub record Format : Type 0 where
  pub n_channels : ℕ
  pub n_samples_per_sec : ℕ
  pub w_bits_per_sample : ℕ
  pub n_block_align : ℕ
  pub n_avg_bytes_per_sec : ℕ
  pub dw_buffer_bytes : ℕ

-- The calls of DirectSound; `none` and `false` are a negative result. `lock` gives one region or two.
pub record Driver (W : Type 0) : Type 0 where
  pub directsound_create : W → Bool × W
  pub set_cooperative_level : W → Bool × W
  pub create_sound_buffer : Format → W → Bool × W
  pub play_looping : W → Bool × W
  pub lock : ℕ → ℕ → W → Option (Region × Option Region) × W
  pub unlock : W → Bool × W
  pub get_current_position : W → Option (ℕ × ℕ) × W
  pub stop : W → Bool × W
  pub restore : W → Restored × W
  pub sleep : W → W
  pub warning : W → W
  pub directsound_error : W → W

-- `struct audio_directsound_play` with what it uses of its session, the memory, and everything else
pub record Player (W : Type 0) : Type 0 where
  pub ap_playbuflen : ℕ
  pub rst_pbytes : ℕ
  pub rst_ppkt : ℕ
  pub cp_channels : ℕ
  pub cp_samp_sec : ℕ
  pub cp_precision : ℕ
  pub memory : Block
  pub net : W

-- How a call ends: with 0, with -1, by a failed assertion, or with no value where the end of the function is reached
pub data Outcome : Type 0 where
  ok failed aborted no_value : Outcome

abbrev pub max_no_restores : ℕ
max_no_restores = 100

-- `memcpy` of bytes to an address
unfoldable pub write_bytes : ℕ → List ℕ → Block → Block
unfolding store
write_bytes a [] m = m
write_bytes a (b ∷ bs) m = write_bytes (suc a) bs (store m a b)

abbrev pub second_length : Option Region → ℕ
second_length none = 0
second_length (some (a, n)) = n

-- The two copies
unfoldable pub copy_regions : Region → Option Region → List ℕ → Block → Block
unfolding write_bytes
copy_regions (a, n) none buf m = write_bytes a (take n buf) m
copy_regions (a, n) (some (b, k)) buf m =
    write_bytes b (take k (drop n buf)) (write_bytes a (take n buf) m)

module _ {W : Type 0} (io : Driver W) where
  abbrev pub set_net : W → Player W → Player W
  set_net w ap = record ap { net = w }

  -- With the regions locked: `assert(len == len1 + len2)`, where `len2` is what `Lock` sets without a second region
  -- too, and is then 0
  unfoldable pub write_regions : Region → Option Region → List ℕ → Player W → Outcome × Player W
  unfolding copy_regions
  write_regions first second buf ap =
      let len = length buf in
      if len == first.1 + second_length second
      then (let ap' = record ap {
        memory = copy_regions first second buf ap.memory;
        rst_pbytes = u32 (ap.rst_pbytes + len);
        rst_ppkt = u32 (ap.rst_ppkt + 1);
      } in
          let (unlocked, w) = io.unlock ap.net in
          if unlocked then (ok, set_net w ap') else (failed, set_net (io.directsound_error w) ap'))
      else (aborted, ap)

  unfoldable pub audio_directsound_play_play : List ℕ → ℕ → Player W → Outcome × Player W
  unfolding write_regions
  audio_directsound_play_play buf writecursor ap =
      let (regions, w) = io.lock writecursor (length buf) ap.net in
      elim regions [
        | none ↦ (failed, set_net (io.directsound_error w) ap)
        | some (first, second) ↦ write_regions first second buf (set_net w ap)
      ]

  unfoldable pub audio_directsound_play_pos : Player W → Option (ℕ × ℕ) × Player W
  audio_directsound_play_pos ap =
      let (cursors, w) = io.get_current_position ap.net in
      elim cursors [
        | none ↦ (none, set_net (io.directsound_error w) ap)
        | some c ↦ (some c, set_net w ap)
      ]

  unfoldable pub audio_directsound_play_stop : Player W → Outcome × Player W
  audio_directsound_play_stop ap =
      let (stopped, w) = io.stop ap.net in
      if stopped then (ok, set_net w ap) else (failed, set_net (io.directsound_error w) ap)

  -- The format of what is played
  unfoldable pub wave_format : Player W → Format
  wave_format ap =
      let align = ap.cp_precision * ap.cp_channels / 8 % 2 ^ 16 in
      record {
        n_channels = ap.cp_channels;
        n_samples_per_sec = ap.cp_samp_sec;
        w_bits_per_sample = ap.cp_precision % 2 ^ 16;
        n_block_align = align;
        n_avg_bytes_per_sec = u32 (ap.cp_samp_sec * align);
        dw_buffer_bytes = ap.ap_playbuflen;
      }

  -- The result of `Play` is not looked at, and no value is returned.
  unfoldable pub audio_directsound_play_start : Player W → Outcome × Player W
  unfolding wave_format
  audio_directsound_play_start ap =
      let fail : W → Outcome × Player W = λ w. (failed, set_net (io.directsound_error w) ap) in
      let (opened, w) = io.directsound_create ap.net in
      if opened
      then (let (level, w1) = io.set_cooperative_level w in
          if level
          then (let (created, w2) = io.create_sound_buffer (wave_format ap) w1 in
              if created then (no_value, set_net (io.play_looping w2).1 ap) else fail w2)
          else fail w1)
      else fail w

  -- What follows a `Restore`, with `nr` restores before it; `again` is the next round of the loop.
  unfoldable pub after_restore : (W → Option Restored × W) → ℕ → Restored × W → Option Restored × W
  after_restore again nr (buffer_lost, w) =
      if ltb max_no_restores (suc nr) then (some buffer_lost, io.warning w) else again (io.sleep w)
  after_restore again nr (r, w) = (some r, w)

  -- The loop of CheckAndRestoreSoundBuffer; `none` is out of fuel
  unfoldable pub restore_loop : ℕ → ℕ → W → Option Restored × W
  unfolding after_restore
  restore_loop zero nr w = (none, w)
  restore_loop (suc fuel) nr w = after_restore (restore_loop fuel (suc nr)) nr (io.restore w)
