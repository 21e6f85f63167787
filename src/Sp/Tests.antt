-- ===== src/Sp/Tests.antt =====
-- Examples of the protocol.
use sphone.Prelude.{ℕ, suc, ◌==◌, ◌≡◌, refl, if◌then◌else◌, List, [], ◌∷◌, some, arith}
use sphone.Prelude.Memory.{Block, store}
use sphone.Sp.{start_rcv, sp_type_of, SockaddrIn}
use sphone.Sp.Address.{sp_addr_encode, sp_addr_decode, sp_addr_decode-encode}
use sphone.Sp.Message.{Received, got, complete, store_all, read_message}
use sphone.Sp.Assembly.{Holds, joined, read_message-complete}

three_starts_a_receiver : sp_type_of 3 ≡ start_rcv
unfolding sp_type_of
three_starts_a_receiver = refl

abbrev host : SockaddrIn
host = record { sin_family = 2; sin_port = 5000; s_addr = 0x0a000001 }

sp_addr_decode-encode_example :
    sp_addr_decode (sp_addr_encode host) ≡ some (host, 0 ∷ 0 ∷ 0 ∷ 0 ∷ 0 ∷ 0 ∷ 0 ∷ 0 ∷ [])
sp_addr_decode-encode_example = sp_addr_decode-encode host (omega arith) (omega arith) (omega arith)

-- A message of ten bytes that comes in two pieces
abbrev first_piece : List ℕ
first_piece = 0xa8 ∷ 3 ∷ 0 ∷ 12 ∷ 0 ∷ 0 ∷ []

abbrev second_piece : List ℕ
second_piece = 0 ∷ 10 ∷ 0 ∷ 7 ∷ []

abbrev recv : ℕ → ℕ → Received × ℕ
recv n w = (if w == 0 then got first_piece else got second_piece, suc w)

read_message-complete_example :
    (m : Block) × (read_message recv 10 10 0 (λ i. 0) 0 ≡ (complete m, 2))
    × Holds m 0 (joined (first_piece ∷ second_piece ∷ []))
unfolding store_all store
read_message-complete_example =
    read_message-complete recv 10 first_piece (second_piece ∷ []) (λ i. 0) 0 2 (omega arith) refl
      refl (1, omega arith, λ n h. refl, (2, omega arith, λ n h. refl, refl))
