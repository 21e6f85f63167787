-- ===== src/Playout/Tests.antt =====
-- Examples of the playout, and the parameters that they use.
use sphone.Prelude.{ℕ, ◌+◌, ◌%◌, ◌<◌, ◌≡◌, refl, List, [], ◌∷◌, arith}
use sphone.Prelude.Memory.{Block}
use sphone.Prelude.Int.{pos}
use sphone.Playout.Shbuf.{seq_normal, playout_shbuf_play}
use sphone.Playout.Samples.{whole, device, quiet, state}
use sphone.Playout.Shbuf.Position.{IsReady, position, playout_shbuf_play-position}
use sphone.Playout.Shbuf.Stream.{play_run, total, play_run-total}

playout_shbuf_play-position_example :
    let p = position seq_normal 1000 20 100 950 80 in
    let result = playout_shbuf_play whole device state quiet 80 seq_normal 5 4 0 in
    (p < 1000)
    × (result.0 ≡ pos 0)
    × (result.2 ≡ 1)
    × (result.1.c_old ≡ p)
    × (result.1.playbuflen ≡ 1000)
    × (result.1.qmean ≡ 100)
    × IsReady whole device result.1
playout_shbuf_play-position_example =
    playout_shbuf_play-position whole device state quiet 80 seq_normal 5 4 10 20 0 0 (omega arith)
      tt refl

abbrev packets : List (Block × ℕ)
packets = (quiet, 80) ∷ (quiet, 40) ∷ []

play_run-total_example :
    ((play_run whole device state packets 0).0.c_old ≡ (950 + total packets) % 1000)
    × IsReady whole device (play_run whole device state packets 0).0
play_run-total_example =
    play_run-total whole device packets state 0 (omega arith) (omega arith) (λ w. (10, 20, w, refl))
