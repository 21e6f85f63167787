-- ===== src/AudioFile/Short.antt =====
-- A file that is too short for a packet, in a loop: `add_buffer` of audio/sphone_audio_file_record.c gives up.
use sphone.Prelude.{
  ◌++◌, ℕ, zero, suc, ◌+◌, ◌-◌, ◌<◌, ◌≤◌, ◌≡◌, refl, inl, inr, true, false, ltb, Bool-cases, List,
  [], length, lt→ltb, ltb→lt, ltb_false→le, arith,
}
use sphone.AudioFile.{Files, fill_failed, after_read, add_buffer}
use sphone.AudioFile.Fill.{IsFile, read_piece}

module _ {D W : Type 0} (io : Files D W) (fd : ℕ) (bytes : List ℕ) (pos : W → ℕ) where
  -- The end is met for the second time.
  fails_looped :
      (fuel len : ℕ) (done : List ℕ) (w : W)
      → IsFile io fd bytes pos
      → len ≤ fuel
      → pos w ≤ length bytes
      → length bytes < pos w + len
      → (add_buffer io fuel fd true true len done w).0 ≡ fill_failed
  unfolding add_buffer after_read
  fails_looped zero len done w f enough inside over = absurd (omega (arith, enough, inside, over))
  fails_looped (suc fuel) len done w f enough inside over =
      elim (Bool-cases (ltb (pos w) (length bytes))) [
        | inl more ↦
            let before : pos w < length bytes = ltb→lt _ _ more in
            let (p, nonempty, most, e, is_next, fits, moved) =
              f.gives len w (omega (arith, over, before)) before in
            let shorter : ltb (length p) len ≡ true = lt→ltb _ _ (omega (arith, fits, over)) in
            rw (read_piece io fd bytes pos fuel len true true done p w nonempty e, shorter)
              (fails_looped fuel (len - length p) (done ++ p) (io.read fd len w).1 f
                (omega (arith, nonempty, enough, most)) (omega (arith, moved, fits))
                (omega (arith, moved, over, most)))
        | inr last ↦
            let at_end : pos w ≡ length bytes = omega (arith, inside, ltb_false→le _ _ last) in
            rw ((f.ends len w at_end).0, add_buffer) refl
      ]

  fails_over :
      (fuel len : ℕ) (done : List ℕ) (w : W)
      → IsFile io fd bytes pos
      → len + 1 ≤ fuel
      → pos w ≤ length bytes
      → length bytes + length bytes < pos w + len
      → (add_buffer io fuel fd true false len done w).0 ≡ fill_failed
  unfolding add_buffer after_read
  fails_over zero len done w f enough inside over = absurd (omega (arith, enough))
  fails_over (suc fuel) len done w f enough inside over =
      elim (Bool-cases (ltb (pos w) (length bytes))) [
        | inl more ↦
            let before : pos w < length bytes = ltb→lt _ _ more in
            let (p, nonempty, most, e, is_next, fits, moved) =
              f.gives len w (omega (arith, over, before)) before in
            let shorter : ltb (length p) len ≡ true = lt→ltb _ _ (omega (arith, fits, over)) in
            rw (read_piece io fd bytes pos fuel len true false done p w nonempty e, shorter)
              (fails_over fuel (len - length p) (done ++ p) (io.read fd len w).1 f
                (omega (arith, nonempty, enough, most)) (omega (arith, moved, fits))
                (omega (arith, moved, over, most)))
        | inr last ↦
            let at_end : pos w ≡ length bytes = omega (arith, inside, ltb_false→le _ _ last) in
            let w1 = (io.read fd len w).1 in
            let (sought, rewound) = f.rewinds w1 in
            rw ((f.ends len w at_end).0, sought)
              (fails_looped fuel len done (io.lseek fd w1).1 f (omega (arith, enough))
                (omega (arith, rewound)) (omega (arith, rewound, over, at_end)))
      ]

  -- In a loop over a file that ends twice before a packet is full, the packet fails, and with it the program.
  add_buffer_short :
      (len : ℕ) (w : W)
      → IsFile io fd bytes pos
      → pos w ≤ length bytes
      → length bytes + length bytes < pos w + len
      → (add_buffer io (len + 2) fd true false len [] w).0 ≡ fill_failed
  add_buffer_short len w f inside over = fails_over (len + 2) len [] w f (omega arith) inside over
