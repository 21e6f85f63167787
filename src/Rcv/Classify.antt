-- ===== src/Rcv/Classify.antt =====
-- How `update_seq` classifies a packet by its distance from the one before: `n` is the number of
-- steps from `seq_prev` forward to the packet's number, modulo 2^16.
use sphone.Prelude.{ℕ, ◌+◌, ◌-◌, ◌%◌, ◌^◌, ◌≤◌, ◌<◌, ◌≡◌, ◌≢◌, ◌⊎◌, arith}
use sphone.Prelude.Masks.{bit_and-ones}
use sphone.Playout.Shbuf.{seq_normal, seq_gap, seq_reset, seq_bad, seq_dup}
use sphone.Rcv.Sequence.{SeqState, max_dropout, max_misorder, rtp_seq_mod, update_seq}

-- A session that has had its first packet, with numbers of 16 bits.
pub record IsStarted (s : SeqState) : Type 0 where
  pub started : s.seq_initial ≢ 0
  pub prev : s.seq_prev < rtp_seq_mod

-- The number that is `n` steps ahead of the last one
abbrev pub ahead : SeqState → ℕ → ℕ
ahead s n = (s.seq_prev + n) % rtp_seq_mod

-- The first packet of a session resets it, whatever its number.
pub update_seq-first :
    (s : SeqState) (seq : ℕ)
    → s.seq_initial ≡ 0
    → update_seq s seq ≡ (record s { seq_initial = 1 }, seq_reset)
unfolding update_seq
update_seq-first s seq h = ground arith

-- A packet up to 2999 steps ahead is accepted. It counts as in sequence exactly where it is one step
-- ahead and the 16-bit number has not just wrapped, and as a gap otherwise, a repeat of the last
-- number (no step) included. The extended number, cycles and sequence number together, moves on
-- by exactly the number of steps, over a wrap too.
pub update_seq-in_order :
    (s : SeqState) (n : ℕ)
    → IsStarted s
    → n < max_dropout
    → s.seq_cycles + rtp_seq_mod < 2 ^ 32
    → let (s', t) = update_seq s (ahead s n) in
      (((t ≡ seq_normal) × (n ≡ 1) × (ahead s n ≢ 0))
        ⊎ ((t ≡ seq_gap) × ((n ≢ 1) ⊎ (ahead s n ≡ 0))))
      × (s'.seq_cycles + ahead s n ≡ s.seq_cycles + s.seq_prev + n)
unfolding update_seq
update_seq-in_order s n started h small = ground arith

-- A packet further ahead than that, but not within 99 steps behind, is bad, and leaves a note of
-- the number after it; or it is the number noted before, and the session starts again from it.
update_seq_far :
    (s : SeqState) (n : ℕ)
    → IsStarted s
    → max_dropout ≤ n
    → n ≤ rtp_seq_mod - max_misorder
    → let (s', t) = update_seq s (ahead s n) in
      ((t ≡ seq_reset) × (ahead s n ≡ s.bad) × (s' ≡ s))
      ⊎ ((t ≡ seq_bad)
          × (ahead s n ≢ s.bad)
          × (s' ≡ record s { bad = (ahead s n + 1) % rtp_seq_mod }))
unfolding update_seq
update_seq_far s n started lo hi = ground (arith, bit_and-ones 16 (ahead s n + 1))

-- A packet up to 99 steps behind is late or a duplicate, and changes nothing.
pub update_seq_behind :
    (s : SeqState) (n : ℕ)
    → IsStarted s
    → rtp_seq_mod - max_misorder < n
    → n < rtp_seq_mod
    → update_seq s (ahead s n) ≡ (s, seq_dup)
unfolding update_seq
update_seq_behind s n started lo hi = ground arith

-- A sender that restarts is found again: after one bad packet, the packet with the next number resets
-- the session, if it is not within 99 steps behind the last good one itself.
pub update_seq_restart :
    (s : SeqState) (n : ℕ)
    → IsStarted s
    → max_dropout ≤ n
    → n < rtp_seq_mod - max_misorder
    → (update_seq s (ahead s n)).1 ≡ seq_bad
    → (update_seq (update_seq s (ahead s n)).0 (ahead s (n + 1))).1 ≡ seq_reset
unfolding update_seq
update_seq_restart s n started lo hi e = ground (arith, bit_and-ones 16 (ahead s n + 1))
