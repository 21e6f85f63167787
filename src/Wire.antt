-- ===== src/Wire.antt =====
-- Integers in network byte order, as `htons`, `htonl`, `ntohs` and `ntohl` with `memcpy` write and
-- read them in src/sphone_rtp.c and src/sphone_rtcp.c. A buffer is the list of the bytes from the
-- pointer on; a read past its end is `none`.
use sphone.Prelude.{
  ℕ, ◌+◌, ◌*◌, ◌/◌, ◌%◌, ◌<◌, ◌^◌, ◌≡◌, Option, none, some, List, [], ◌∷◌, ◌++◌, All, arith,
}

infixl 5 ◌>>=◌
abbrev pub ◌>>=◌ {ℓ κ} : {A : Type ℓ} {B : Type κ} → Option A → (A → Option B) → Option B
none >>= f = none
some a >>= f = f a

-- Every element is a byte.
abbrev pub AreBytes : List ℕ → Type 0
AreBytes = All (λ b. b < 256)

unfoldable pub put16 : ℕ → List ℕ
put16 v = v / 256 % 256 ∷ v % 256 ∷ []

unfoldable pub put32 : ℕ → List ℕ
put32 v = v / 2 ^ 24 % 256 ∷ v / 2 ^ 16 % 256 ∷ v / 256 % 256 ∷ v % 256 ∷ []

unfoldable pub get16 : List ℕ → Option (ℕ × List ℕ)
get16 (a ∷ b ∷ rest) = some (a * 256 + b, rest)
get16 _ = none

unfoldable pub get32 : List ℕ → Option (ℕ × List ℕ)
get32 (a ∷ b ∷ c ∷ d ∷ rest) = some (a * 2 ^ 24 + b * 2 ^ 16 + c * 256 + d, rest)
get32 _ = none

pub get16-put16 : (v : ℕ) (rest : List ℕ) → v < 2 ^ 16 → get16 (put16 v ++ rest) ≡ some (v, rest)
unfolding get16 put16
get16-put16 v rest h = ground arith

pub get32-put32 : (v : ℕ) (rest : List ℕ) → v < 2 ^ 32 → get32 (put32 v ++ rest) ≡ some (v, rest)
unfolding get32 put32
get32-put32 v rest h = ground arith

-- What a read that succeeds says of the bytes: they are the number's, and the rest goes on.
module _ {ℓ κ} {B : Type ℓ} (k : ℕ × List ℕ → Option B) {r : B} {P : Type κ} where
  pub read16 :
      (bs : List ℕ)
      → AreBytes bs
      → (get16 bs >>= k) ≡ some r
      → ((v : ℕ) (rest : List ℕ)
          → put16 v ++ rest ≡ bs
          → v < 2 ^ 16
          → AreBytes rest
          → k (v, rest) ≡ some r
          → P)
      → P
  unfolding get16 put16
  read16 (a ∷ b ∷ rest) ok e f = f (a * 256 + b) rest (ground arith) (omega arith) (ok.1.1) e
  read16 [] ok e f = cc
  read16 (a ∷ []) ok e f = cc

  pub read32 :
      (bs : List ℕ)
      → AreBytes bs
      → (get32 bs >>= k) ≡ some r
      → ((v : ℕ) (rest : List ℕ)
          → put32 v ++ rest ≡ bs
          → v < 2 ^ 32
          → AreBytes rest
          → k (v, rest) ≡ some r
          → P)
      → P
  unfolding get32 put32
  read32 (a ∷ b ∷ c ∷ d ∷ rest) ok e f =
      f (a * 2 ^ 24 + b * 2 ^ 16 + c * 256 + d) rest (ground arith) (omega arith) (ok.1.1.1.1) e
  read32 [] ok e f = cc
  read32 (a ∷ []) ok e f = cc
  read32 (a ∷ b ∷ []) ok e f = cc
  read32 (a ∷ b ∷ c ∷ []) ok e f = cc

pub some-eq {ℓ} : {A : Type ℓ} {a b : A} → some a ≡ some b → a ≡ b
some-eq h = cc
