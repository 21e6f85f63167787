-- ===== src/Playout/Dispatch.antt =====
-- src/sphone_playout.c: the two kinds of playout.
use sphone.Prelude.Memory.{Block}
use sphone.Prelude.{ℕ, Option, none, some}
use sphone.Prelude.Int.{ℤ}
use sphone.Playout.Device.{Device, Double}
use sphone.Playout.Shbuf.{SeqType, seq_bad, seq_dup, Shbuf, playout_shbuf_play}

-- `enum playout_type`
pub data PlayoutType : Type 0 where
  fifo shmem : PlayoutType

module _ {W : Type 0} (dev : Device W) where
  -- `playout_fifo_play`; a bad or duplicate packet is not played, and the value that is returned is
  -- then never set: `none`.
  unfoldable pub playout_fifo_play : Block → ℕ → SeqType → W → Option ℤ × W
  playout_fifo_play buf len seq_dup w = (none, w)
  playout_fifo_play buf len seq_bad w = (none, w)
  playout_fifo_play buf len _ w = let (retval, w1) = dev.play buf len 0 w in (some retval, w1)

module _ (dbl : Double) {W : Type 0} (dev : Device W) where
  open dbl use {D}

  -- `playout_play`
  unfoldable pub playout_play :
      PlayoutType → Shbuf D → Block → ℕ → SeqType → ℕ → ℕ → W → Option ℤ × Shbuf D × W
  unfolding playout_fifo_play
  playout_play fifo ps buf len t cur prev w =
      let (retval, w1) = playout_fifo_play dev buf len t w in (retval, ps, w1)
  playout_play shmem ps buf len t cur prev w =
      let (retval, ps', w1) = playout_shbuf_play dbl dev ps buf len t cur prev w in
      (some retval, ps', w1)
