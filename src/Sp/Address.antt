-- ===== src/Sp/Address.antt =====
-- `sp_addr_encode` and `sp_addr_decode` of utils/sp.c: a `struct sockaddr_in` as sixteen bytes of a message.
use sphone.Prelude.{ℕ, ◌%◌, ◌^◌, ◌<◌, ◌≡◌, Option, none, some, List, [], ◌∷◌, ◌++◌, arith}
use sphone.Wire.{put16, put32, get16, get32, ◌>>=◌}
use sphone.Sp.{SockaddrIn}

-- One byte of the family, a pad byte, the port and the address; what follows stays 0 from the `memset`.
unfoldable pub sp_addr_encode : SockaddrIn → List ℕ
unfolding put16 put32
sp_addr_encode sin =
    (sin.sin_family % 2 ^ 8)
    ∷ 0
    ∷ (put16 sin.sin_port ++ (put32 sin.s_addr ++ 0 ∷ 0 ∷ 0 ∷ 0 ∷ 0 ∷ 0 ∷ 0 ∷ 0 ∷ []))

-- The address and the bytes behind it; `none` is a read past the end.
unfoldable pub sp_addr_decode : List ℕ → Option (SockaddrIn × List ℕ)
unfolding get16 get32
sp_addr_decode (family ∷ pad ∷ p) = do
  (port, p1) ← get16 p
  (addr, p2) ← get32 p1
  some (record { sin_family = family; sin_port = port; s_addr = addr }, p2)
sp_addr_decode _ = none

-- An address whose family is a byte and whose port and address fit their types is decoded from its encoding,
-- which eight bytes of padding end.
pub sp_addr_decode-encode :
    (sin : SockaddrIn)
    → sin.sin_family < 2 ^ 8
    → sin.sin_port < 2 ^ 16
    → sin.s_addr < 2 ^ 32
    → sp_addr_decode (sp_addr_encode sin) ≡ some (sin, 0 ∷ 0 ∷ 0 ∷ 0 ∷ 0 ∷ 0 ∷ 0 ∷ 0 ∷ [])
unfolding sp_addr_encode sp_addr_decode
sp_addr_decode-encode sin hf hp ha = ground arith
