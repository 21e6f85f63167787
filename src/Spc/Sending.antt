-- ===== src/Spc/Sending.antt =====
-- utils/spc_send.c: the numbers of the packets that a sender sends, and those of the echoes.
use sphone.Prelude.{ℕ, ◌-◌, ◌%◌, ◌≡◌, true, ◌<◌, List, arith}
use sphone.TimeVal.{TimeVal}
use sphone.Sp.{SockaddrIn}
use sphone.Spc.{Spc, Net}
use sphone.Spc.Send.{echoed_number}

-- An echo is given the number its packet was sent with, though the packet carries the low 16 bits only: where
-- `late` packets were sent since, fewer than 65536, and the counter has not wrapped.
echoed_number-sent :
    (ss_seq n : ℕ)
    → n < ss_seq
    → ss_seq < 0x100000000
    → ss_seq - n < 0x10000
    → echoed_number ss_seq (n % 0x10000) ≡ n
unfolding echoed_number
echoed_number-sent ss_seq n sent small recent = ground arith

module _ {W : Type 0} (io : Net W) where
  -- Every datagram is taken.
  abbrev pub Sends : Type 0
  Sends = (s : ℕ) (bs : List ℕ) (a : SockaddrIn) (w : W) → (io.sendto s bs a w).0 ≡ true
