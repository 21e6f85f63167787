-- ===== src/Rcv/Sequence.antt =====
-- `update_seq` of src/sphone_rcv.c, over the fields of `struct rcv_session` that it reads and writes
-- (include/sphone_rcv.h). `seq_cycles` is the bit pattern of an `int`.
use sphone.Prelude.{ℕ, ◌+◌, ◌-◌, ◌^◌, bit_and, ltb, leb, ◌==◌, if◌then◌else◌}
use sphone.Prelude.Words.{u32, sub16}
use sphone.Playout.Shbuf.{SeqType, seq_normal, seq_gap, seq_reset, seq_bad, seq_dup}

pub record SeqState : Type 0 where
  pub seq_initial : ℕ
  pub bad : ℕ
  pub seq_cycles : ℕ
  pub seq_cur : ℕ
  pub seq_prev : ℕ

abbrev pub max_dropout : ℕ
max_dropout = 3000

abbrev pub max_misorder : ℕ
max_misorder = 100

abbrev pub rtp_seq_mod : ℕ
rtp_seq_mod = 2 ^ 16

-- The comparison with `seq_prev + 1` is on `int`: 65535 + 1 is 65536, and not 0.
unfoldable pub update_seq : SeqState → ℕ → SeqState × SeqType
update_seq s seq =
    let udelta = sub16 seq s.seq_prev in
    if s.seq_initial == 0
    then (record s { seq_initial = s.seq_initial + 1 }, seq_reset)
    else (if seq == s.seq_prev + 1
        then (s, seq_normal)
        else (if ltb udelta max_dropout
            then (if ltb seq s.seq_prev
                then (record s { seq_cycles = u32 (s.seq_cycles + rtp_seq_mod) }, seq_gap)
                else (s, seq_gap))
            else (if leb udelta (rtp_seq_mod - max_misorder)
                then (if seq == s.bad
                    then (s, seq_reset)
                    else (record s { bad = bit_and (seq + 1) (rtp_seq_mod - 1) }, seq_bad))
                else (s, seq_dup))))
