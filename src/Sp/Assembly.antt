-- ===== src/Sp/Assembly.antt =====
-- A message is read whole, in whatever pieces TCP delivers it.
use sphone.Prelude.{
  ℕ, zero, suc, ◌+◌, ◌-◌, ◌≤◌, ◌<◌, ◌≡◌, refl, ap, ◌∙◌, ◌≢◌, true, false, ltb, lt→ltb, List, [],
  ◌∷◌, ◌++◌, length, length-append, arith,
}
use mathlib.Core.List.{append-nil, append_assoc}
use sphone.Prelude.Memory.{Block, store}
use sphone.Sp.Message.{Received, got, complete, store_all, is_ours, read_message}

-- The bytes lie in memory from an offset on.
abbrev pub Holds : Block → ℕ → List ℕ → Type 0
Holds m i [] = Unit
Holds m i (b ∷ bs) = (m i ≡ b) × Holds m (i + 1) bs

store-other : (m : Block) (i v k : ℕ) → k ≢ i → store m i v k ≡ m k
unfolding store
store-other m i v k ne = ground arith

store-same : (m : Block) (i v : ℕ) → store m i v i ≡ v
unfolding store
store-same m i v = ground arith

-- What lies in front stays.
store_all-before : (bs : List ℕ) (m : Block) (i k : ℕ) → k < i → store_all m i bs k ≡ m k
unfolding store_all
store_all-before [] m i k h = refl
store_all-before (b ∷ bs) m i k h =
    store_all-before bs (store m i b) (i + 1) k (omega arith)
    ∙ store-other m i b k (λ e. omega (arith, e))

store_all-Holds : (bs : List ℕ) (m : Block) (i : ℕ) → Holds (store_all m i bs) i bs
unfolding store_all
store_all-Holds [] m i = tt
store_all-Holds (b ∷ bs) m i = (
  store_all-before bs (store m i b) (i + 1) i (omega arith) ∙ store-same m i b,
  store_all-Holds bs (store m i b) (i + 1),
)

store_all-Holds_before :
    (xs bs : List ℕ) (m : Block) (j i : ℕ)
    → j + length xs ≤ i
    → Holds m j xs
    → Holds (store_all m i bs) j xs
store_all-Holds_before [] bs m j i h held = tt
store_all-Holds_before (x ∷ xs) bs m j i h (e, held) = (
  store_all-before bs m i j (omega arith) ∙ e,
  store_all-Holds_before xs bs m (j + 1) i (omega arith) held,
)

Holds-append :
    (xs ys : List ℕ) (m : Block) (i : ℕ)
    → Holds m i xs
    → Holds m (i + length xs) ys
    → Holds m i (xs ++ ys)
Holds-append [] ys m i h g = let e : i + 0 ≡ i = omega arith in rw e at g
Holds-append (x ∷ xs) ys m i (h, hs) g =
    let e : i + suc (length xs) ≡ i + 1 + length xs = omega arith in
    (h, Holds-append xs ys m (i + 1) hs (rw e at g))

-- The pieces, one after the other
abbrev pub joined : List (List ℕ) → List ℕ
joined [] = []
joined (p ∷ ps) = p ++ joined ps

module _ {W : Type 0} (recv : ℕ → W → Received × W) where
  -- `recv` gives these pieces, each not empty and whenever no less is asked for.
  abbrev pub Delivers : List (List ℕ) → W → W → Type 0
  Delivers [] w w' = w ≡ w'
  Delivers (p ∷ ps) w w' =
      (w1 : W) × (0 < length p)
      × ((n : ℕ) → length p ≤ n → recv n w ≡ (got p, w1))
      × Delivers ps w1 w'

module _ {W : Type 0} (recv : ℕ → W → Received × W) (size : ℕ) where
  -- One round that takes a piece
  read_round :
      (fuel len : ℕ) (p : List ℕ) (sp : Block) (w w1 : W)
      → 0 < length p
      → len + length p ≤ size
      → ((n : ℕ) → length p ≤ n → recv n w ≡ (got p, w1))
      → is_ours (store_all sp len p) ≡ true
      → read_message recv size (suc fuel) len sp w
        ≡ read_message recv size fuel (len + length p) (store_all sp len p) w1
  unfolding read_message
  read_round fuel len [] sp w w1 some_byte fits gives ours = absurd (omega arith)
  read_round fuel len (b ∷ bs) sp w w1 some_byte fits gives ours =
      let more : ltb len size ≡ true = lt→ltb len size (omega arith) in
      let piece = gives (size - len) (omega arith) in rw (more, piece, ours) refl

  read_done :
      (fuel : ℕ) (sp : Block) (w : W) → read_message recv size fuel size sp w ≡ (complete sp, w)
  unfolding read_message
  read_done zero sp w = ground arith
  read_done (suc fuel) sp w = let e : ltb size size ≡ false = ground arith in rw e refl

  -- The test stands once four bytes are there.
  ours-kept :
      (p : List ℕ) (sp : Block) (len : ℕ)
      → 4 ≤ len
      → is_ours sp ≡ true
      → is_ours (store_all sp len p) ≡ true
  ours-kept p sp len four ours =
      rw
        (
          store_all-before p sp len 0 (omega arith),
          store_all-before p sp len 2 (omega arith),
          store_all-before p sp len 3 (omega arith),
        )
        ours

  rest-complete :
      (ps : List (List ℕ)) (fuel : ℕ) (done : List ℕ) (sp : Block) (w w' : W)
      → 4 ≤ length done
      → is_ours sp ≡ true
      → Holds sp 0 done
      → length done + length (joined ps) ≡ size
      → length (joined ps) ≤ fuel
      → Delivers recv ps w w'
      → (m : Block) × (read_message recv size fuel (length done) sp w ≡ (complete m, w'))
        × Holds m 0 (done ++ joined ps)
  rest-complete [] fuel done sp w w' four ours held total enough comes =
      let e : length done ≡ size = omega (arith, total) in
      (sp, rw (e, comes) (read_done fuel sp w'), rw (append-nil done) held)
  rest-complete (p ∷ ps) zero done sp w w' four ours held total enough comes =
      absurd (omega (arith, comes.1, length-append {0} p (joined ps)))
  rest-complete (p ∷ ps) (suc fuel) done sp w w' four ours held total enough
        (w1, some_byte, gives, comes) =
      let zero_left : 0 + length done ≡ length done = omega arith in
      let sizes = length-append p (joined ps) in
      let grown = length-append done p in
      let sp' : Block = store_all sp (length done) p in
      let (m, e, all) =
        rest-complete ps fuel (done ++ p) sp' w1 w' (omega arith)
          (ours-kept p sp (length done) four ours)
          (Holds-append done p sp' 0
            (store_all-Holds_before done p sp 0 (length done) (omega arith) held)
            (rw zero_left (store_all-Holds p sp (length done))))
          (omega (arith, sizes, grown, total)) (omega (arith, sizes, enough)) comes in
      (
        m,
        read_round fuel (length done) p sp w w1 some_byte (omega (arith, sizes, total)) gives
              (ours-kept p sp (length done) four ours)
            ∙ rw (← grown) e,
        rw (append_assoc done p (joined ps)) at all,
      )

  -- However a message is cut into pieces that are not empty, if the first has four bytes at least and they are
  -- those of this program and version, then the loop ends with the whole message in memory, in at most as many
  -- rounds as the message has bytes, whatever the memory held before.
  pub read_message-complete :
      (p : List ℕ) (ps : List (List ℕ)) (sp : Block) (w w' : W)
      → 4 ≤ length p
      → is_ours (store_all sp 0 p) ≡ true
      → length (joined (p ∷ ps)) ≡ size
      → Delivers recv (p ∷ ps) w w'
      → (m : Block) × (read_message recv size size 0 sp w ≡ (complete m, w'))
        × Holds m 0 (joined (p ∷ ps))
  read_message-complete p ps sp w w' four ours total (w1, some_byte, gives, comes) =
      let sizes = length-append p (joined ps) in
      let enough : size ≡ suc (size - 1) = omega (arith, sizes, total) in
      let from_zero : 0 + length p ≡ length p = omega arith in
      let (m, e, all) =
        rest-complete ps (size - 1) p (store_all sp 0 p) w1 w' four ours (store_all-Holds p sp 0)
          (omega (arith, sizes, total)) (omega (arith, sizes, total)) comes in
      (
        m,
        ap (λ fuel. read_message recv size fuel 0 sp w) enough
            ∙ read_round (size - 1) 0 p sp w w1 some_byte (omega (arith, sizes, total)) gives ours
            ∙ rw from_zero e,
        all,
      )
