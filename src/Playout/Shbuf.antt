-- ===== src/Playout/Shbuf.antt =====
-- src/sphone_playout_shbuf.c: playout through a circular buffer that the device reads. Cursors and
-- positions are byte offsets in a buffer of `playbuflen` bytes; the device gives a length above 0
-- (a remainder by 0 is a fault in C). 32-bit words wrap; a product or sum with a `size_t` operand
-- is 64 bits wide and does not.
pub mod Wrap
pub mod Position
pub mod Stream
pub mod Silence
pub mod Init
use sphone.Prelude.Memory.{Block}
use sphone.Prelude.{
  ℕ, zero, suc, ◌+◌, ◌-◌, ◌*◌, ◌/◌, ◌%◌, ◌^◌, Bool, true, false, not, ◌&&◌, ltb, leb, ◌==◌,
  if◌then◌else◌, Option, none, some, List,
}
use sphone.Prelude.Words.{u32, sub16, sub32, is_negative, magnitude}
use sphone.Prelude.Int.{ℤ, pos, negsuc}
use sphone.Playout.Device.{Device, Double}

-- `enum seq_type` of include/sphone_rcv.h
pub data SeqType : Type 0 where
  seq_normal seq_gap seq_reset seq_bad seq_dup seq_talk_start : SeqType

-- `struct playout_shbuf`, without the fields that no code reads
pub record Shbuf (D : Type 0) : Type 0 where
  pub bits_samp : ℕ
  pub len : ℕ
  pub cursor_r : ℕ
  pub cursor_w : ℕ
  pub cursor_w_prev : ℕ
  pub playbuflen : ℕ
  pub c : ℕ
  pub c_old : ℕ
  pub qmean : ℕ
  pub d : ℕ
  pub d_s : D
  pub drop : ℕ
  pub silentbuf : Block
  pub silentlen : ℕ
  pub nextsilence : ℕ

-- `wrap`, on the bit pattern of its `int`: `d` is below -(len/2), above len/2, or between.
unfoldable pub wrap : ℕ → ℕ → ℕ
wrap d len =
    if is_negative d && ltb (len / 2) (magnitude d)
    then u32 (d + len)
    else (if not (is_negative d) && ltb (len / 2) d then sub32 d len else d)

-- `wrap1`, on the bit pattern of its `int`
unfoldable pub wrap1 : ℕ → ℕ → ℕ
wrap1 d len = if is_negative d then u32 (d + len) else d

module _ (dbl : Double) where
  open dbl use {D, of_ℕ, smoother, one_minus_smoother, ◌⊗◌, ◌⊕◌}

  -- The running mean of the queue's length: `SMOOTHER*d + (1.0 - SMOOTHER)*d_s`
  abbrev smooth : ℕ → D → D
  smooth d d_s = ◌⊕◌ (◌⊗◌ smoother (of_ℕ d)) (◌⊗◌ one_minus_smoother d_s)

  unfoldable pub shbuf_reset : Shbuf D → Shbuf D
  shbuf_reset ps = record ps {
    c = u32 (ps.cursor_w + ps.qmean) % ps.playbuflen;
    d = ps.qmean;
    d_s = of_ℕ ps.qmean;
    cursor_w_prev = ps.cursor_w;
  }

  -- The variable `delta`, which nothing reads, is left out here and below.
  unfoldable pub shbuf_gap : Shbuf D → ℕ → Shbuf D
  shbuf_gap ps gap =
      let c = u32 (ps.cursor_w + ps.qmean) % ps.playbuflen in
      let d = wrap (sub32 (c + gap * ps.len) ps.cursor_w) ps.playbuflen in
      record ps { c = c; d = d; d_s = smooth d ps.d_s; cursor_w_prev = ps.cursor_w }

  -- The two tests of the corridor call `queue_reset`, which does nothing, so they are left out. The
  -- test for a late packet is on an unsigned word, and both its branches return.
  unfoldable pub shbuf_normal : Shbuf D → Shbuf D
  shbuf_normal ps =
      let c = (ps.c_old + ps.len) % ps.playbuflen in
      let d = wrap (sub32 c ps.cursor_w) ps.playbuflen in
      let ps' = record ps { c = c; d = d; d_s = smooth d ps.d_s; cursor_w_prev = ps.cursor_w } in
      if ltb d 0 then (if leb ps.len (magnitude d) then ps' else ps') else ps'

  module _ {W : Type 0} (dev : Device W) where
    -- The `switch` of `playout_shbuf_play`
    unfoldable pub place : Shbuf D → SeqType → ℕ → W → Shbuf D × W
    unfolding shbuf_reset shbuf_gap shbuf_normal
    place ps seq_reset gap w = (shbuf_reset ps, w)
    place ps seq_talk_start gap w = (shbuf_reset ps, w)
    place ps seq_gap gap w = (shbuf_gap ps gap, w)
    place ps seq_normal gap w = (shbuf_normal ps, w)
    place ps seq_bad gap w = (ps, dev.sphone_error w)
    place ps seq_dup gap w = (ps, dev.sphone_error w)

    -- The label `done`
    abbrev done : Shbuf D → Shbuf D
    done ps = record ps { c_old = ps.c; drop = 0 }

    -- The cursors as the device gives them, reduced, and even for 16-bit samples
    unfoldable pub read_cursors : Shbuf D → ℕ → ℕ → Shbuf D
    read_cursors ps r w =
        let cw = w % ps.playbuflen in
        record ps {
          cursor_r = r % ps.playbuflen;
          cursor_w = if ltb 8 ps.bits_samp && (cw % 2 == 1) then cw + 1 else cw;
        }

    -- `playout_shbuf_play`: the packet is `buf`, of `len` bytes, and the sequence numbers are those of
    -- the session.
    unfoldable pub playout_shbuf_play : Shbuf D → Block → ℕ → SeqType → ℕ → ℕ → W → ℤ × Shbuf D × W
    unfolding place read_cursors
    playout_shbuf_play ps buf len seqtype seq_cur seq_prev w =
        let (cursors, w1) = dev.play_pos w in
        elim cursors [
          | none ↦ (negsuc 0, done (record ps { len = len }), w1)
          | some (r, cw) ↦
              let (ps', w2) =
                place (read_cursors (record ps { len = len }) r cw) seqtype (sub16 seq_cur seq_prev)
                  w1 in
              if not (ps'.drop == 0)
              then (pos 0, done ps', w2)
              else (let (retval, w3) = dev.play buf ps'.len ps'.c w2 in (retval, done ps', w3))
        ]
