-- ===== src/Coding/Channels.antt =====
-- `coding_reduce` and `coding_expand` of coding/sphone_coding.c: in a buffer of samples, keep the
-- first channel of each frame, or repeat each sample on every channel. `none` is a loop that does not
-- end, at a precision below 8 bits or a factor of 0.
use sphone.Prelude.{ℕ, zero, suc, ◌+◌, ◌-◌, ◌*◌, ◌/◌, ◌%◌, ◌==◌, if◌then◌else◌, Option, none, some}
use sphone.Prelude.Memory.{Block, copy}

-- The inner loop of `coding_expand`, `j` from `j - 1` down to 0, for the sample at offset `i`
unfoldable pub expand_sample : ℕ → ℕ → ℕ → ℕ → Block → Block
unfolding copy
expand_sample by_s factor i zero buf = buf
expand_sample by_s factor i (suc j) buf =
    expand_sample by_s factor i j (copy by_s (i * factor + j * by_s) i buf)

-- The outer loop: `k` samples are left, the last at offset `start + (k - 1) * by_s`.
unfoldable pub expand_loop : ℕ → ℕ → ℕ → ℕ → Block → Block
unfolding expand_sample
expand_loop by_s factor start zero buf = buf
expand_loop by_s factor start (suc k) buf =
    expand_loop by_s factor start k (expand_sample by_s factor (start + k * by_s) factor buf)

-- `coding_expand`: the block and its new length. `i` starts at `len - by_s` and goes down by `by_s`
-- while it is not negative, so it visits the offsets `len % by_s + k * by_s`.
unfoldable pub coding_expand : Block → ℕ → ℕ → ℕ → Option (Block × ℕ)
unfolding expand_loop
coding_expand buf len precision factor =
    let by_s = precision / 8 in
    if by_s == 0
    then none
    else some (expand_loop by_s factor (len % by_s) (len / by_s) buf, len * factor)

-- `for (i=0; i<len; i+=step)`: `rounds` are left, and the next copies from offset `i`.
unfoldable pub reduce_loop : ℕ → ℕ → ℕ → ℕ → Block → Block
unfolding copy
reduce_loop by_s factor i zero buf = buf
reduce_loop by_s factor i (suc rounds) buf =
    reduce_loop by_s factor (i + by_s * factor) rounds (copy by_s (i / factor) i buf)

-- `coding_reduce`: the block and its new length
unfoldable pub coding_reduce : Block → ℕ → ℕ → ℕ → Option (Block × ℕ)
unfolding reduce_loop
coding_reduce buf len precision factor =
    let by_s = precision / 8 in
    let step = by_s * factor in
    if step == 0
    then none
    else some (reduce_loop by_s factor 0 ((len + step - 1) / step) buf, len / factor)
