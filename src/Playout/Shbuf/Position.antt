-- ===== src/Playout/Shbuf/Position.antt =====
-- Where `playout_shbuf_play` puts a packet.
use native.Mathlib.Nat.{mod-lt}
use sphone.Prelude.Memory.{Block}
use sphone.Prelude.{ℕ, ◌+◌, ◌%◌, ◌^◌, ◌≤◌, ◌<◌, ◌≡◌, some, arith}
use sphone.Playout.Device.{Device, Double}
use sphone.Playout.Shbuf.{
  SeqType, seq_normal, seq_gap, seq_reset, seq_bad, seq_dup, seq_talk_start, Shbuf,
  playout_shbuf_play,
}

-- A packet that is played: neither bad nor a duplicate.
abbrev pub IsPlayed : SeqType → Type 0
IsPlayed seq_bad = ⊥
IsPlayed seq_dup = ⊥
IsPlayed seq_normal = Unit {0}
IsPlayed seq_gap = Unit {0}
IsPlayed seq_reset = Unit {0}
IsPlayed seq_talk_start = Unit {0}

-- The position: right behind the packet before where none is missing, and otherwise
-- `qmean` bytes ahead of the device's write cursor `cw`; round a buffer of `n` bytes.
abbrev pub position : SeqType → ℕ → ℕ → ℕ → ℕ → ℕ → ℕ
position seq_normal n cw qmean c_old len = (c_old + len) % n
position _ n cw qmean c_old len = (cw + qmean) % n

module _ (dbl : Double) {W : Type 0} (dev : Device W) where
  open dbl use {D}

  -- The state of a session whose buffer is small enough for 32-bit offsets, whose samples are of
  -- 8 bits, and whose `drop` is clear, as every call leaves it.
  pub record IsReady (ps : Shbuf D) : Type 0 where
    pub nonempty : 0 < ps.playbuflen
    pub small : ps.playbuflen + ps.qmean < 2 ^ 32
    pub narrow : ps.bits_samp ≤ 8
    pub kept : ps.drop ≡ 0

  -- In a session whose buffer is not empty and small enough for 32-bit offsets, whose samples are of 8 bits and whose
  -- `drop` is clear, and where the device gives its cursors, a packet that is neither bad nor a duplicate is played in
  -- the buffer, with its bytes and its length: right behind the packet before where it is in sequence, wherever the
  -- cursors and the running mean of the queue stand, and otherwise `qmean` bytes ahead of the write cursor. The call
  -- returns what the device returns, the position is remembered for the next packet, and the session stays such.
  pub playout_shbuf_play-position :
      (ps : Shbuf D) (buf : Block) (len : ℕ) (t : SeqType) (cur prev r cw : ℕ) (w w1 : W)
      → IsReady ps
      → IsPlayed t
      → dev.play_pos w ≡ (some (r, cw), w1)
      → let p = position t ps.playbuflen (cw % ps.playbuflen) ps.qmean ps.c_old len in
        let result = playout_shbuf_play dbl dev ps buf len t cur prev w in
        (p < ps.playbuflen)
        × (result.0 ≡ (dev.play buf len p w1).0)
        × (result.2 ≡ (dev.play buf len p w1).1)
        × (result.1.c_old ≡ p)
        × (result.1.playbuflen ≡ ps.playbuflen)
        × (result.1.qmean ≡ ps.qmean)
        × IsReady result.1
  unfolding playout_shbuf_play
  playout_shbuf_play-position ps buf len seq_normal cur prev r cw w w1 ready played e =
      ground (arith, mod-lt (ps.c_old + len) ready.nonempty)
  playout_shbuf_play-position ps buf len seq_reset cur prev r cw w w1 ready played e =
      ground
        (arith, mod-lt (cw % ps.playbuflen + ps.qmean) ready.nonempty, mod-lt cw ready.nonempty)
  playout_shbuf_play-position ps buf len seq_gap cur prev r cw w w1 ready played e =
      ground
        (arith, mod-lt (cw % ps.playbuflen + ps.qmean) ready.nonempty, mod-lt cw ready.nonempty)
  playout_shbuf_play-position ps buf len seq_talk_start cur prev r cw w w1 ready played e =
      ground
        (arith, mod-lt (cw % ps.playbuflen + ps.qmean) ready.nonempty, mod-lt cw ready.nonempty)
  playout_shbuf_play-position ps buf len seq_bad cur prev r cw w w1 ready played e = absurd played
  playout_shbuf_play-position ps buf len seq_dup cur prev r cw w w1 ready played e = absurd played
