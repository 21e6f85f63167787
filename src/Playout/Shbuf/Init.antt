-- ===== src/Playout/Shbuf/Init.antt =====
-- `playout_shbuf_init` of src/sphone_playout_shbuf.c: the state that a session starts from. The
-- allocations succeed; `noise` is what `silentbuf_init` writes. `none` is -1.
use sphone.Prelude.Memory.{Block}
use sphone.Prelude.{ℕ, ◌+◌, ◌-◌, ◌/◌, ◌^◌, ◌<◌, ◌≡◌, if◌then◌else◌, Option, none, some, arith}
use sphone.Playout.Device.{Device, Double}
use sphone.Playout.Shbuf.{Shbuf}
use sphone.Playout.Shbuf.Position.{IsReady}

abbrev qmin_default_ms : ℕ
qmin_default_ms = 50

abbrev q_delta_ms : ℕ
q_delta_ms = 100

module _ (dbl : Double) {W : Type 0} (dev : Device W) where
  open dbl use {D, zero_bits}

  -- The state after `memset` and the assignments
  abbrev fresh : ℕ → Block → Shbuf D
  fresh plen noise =
      let qmax = qmin_default_ms + q_delta_ms in
      record {
        bits_samp = 0;
        len = 0;
        cursor_r = 0;
        cursor_w = 0;
        cursor_w_prev = 0;
        playbuflen = plen;
        c = 0;
        c_old = 0;
        qmean = qmin_default_ms + (qmax - qmin_default_ms) / 2;
        d = 0;
        d_s = zero_bits;
        drop = 0;
        silentbuf = noise;
        silentlen = plen / 3;
        nextsilence = 0;
      }

  unfoldable pub playout_shbuf_init : Block → W → Option (Shbuf D) × W
  playout_shbuf_init noise w =
      let (plen, w1) = dev.playbuflen w in
      elim plen [
        | none ↦ (none, w1)
        | some n ↦
            let (registered, w2) = dev.reg_silence w1 in
            if registered then (some (fresh n noise), w2) else (none, w2)
      ]

  -- Where it succeeds on a device whose buffer is not empty and not near 2^32 bytes, the state is
  -- ready for packets and for background audio.
  playout_shbuf_init-IsReady :
      (noise : Block) (w w1 : W) (n : ℕ) {ps : Shbuf D}
      → dev.playbuflen w ≡ (some n, w1)
      → 0 < n
      → n + 100 < 2 ^ 32
      → (playout_shbuf_init noise w).0 ≡ some ps
      → IsReady dbl dev ps
        × (ps.playbuflen ≡ n)
        × (ps.qmean ≡ 100)
        × (ps.c_old < ps.playbuflen)
        × (ps.silentlen ≡ ps.playbuflen / 3)
        × (ps.nextsilence < ps.playbuflen)
  unfolding playout_shbuf_init
  playout_shbuf_init-IsReady noise w w1 n e h k q = ground arith
