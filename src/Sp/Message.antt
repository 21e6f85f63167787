-- ===== src/Sp/Message.antt =====
-- How `client_input` of utils/sps.c puts a message together from what `recv` gives it, and what the message
-- says.
use sphone.Prelude.{
  ℕ, zero, suc, ◌+◌, ◌-◌, ◌*◌, ◌^◌, Bool, false, ltb, ◌==◌, if◌then◌else◌, List, [], ◌∷◌, length,
}
use sphone.Prelude.Memory.{Block, store}
use sphone.Sp.{SpProto, StartHdr, RegisterHdr, sp_type_of, sp_magic, sp_version_nr}

-- What `recv` returns: -1 where the connection is reset or timed out, -1 with another error, or the bytes,
-- none where the other end has closed
pub data Received : Type 0 where
  reset : Received
  error : Received
  got : List ℕ → Received

-- How the loop ends: with a whole message, with a connection that is gone, with an error of `recv`, with a
-- message of another program or version, or out of fuel
pub data Arrival : Type 0 where
  complete : Block → Arrival
  gone : Arrival
  unread : Arrival
  refused : Arrival
  out_of_fuel : Arrival

-- `memcpy` of bytes to an offset on
unfoldable pub store_all : Block → ℕ → List ℕ → Block
unfolding store
store_all m i [] = m
store_all m i (b ∷ bs) = store_all (store m i b) (i + 1) bs

abbrev pub is_ours : Block → Bool
is_ours sp = if sp 0 == sp_magic then sp 2 * 256 + sp 3 == sp_version_nr else false

-- `while (len < sizeof(sp))`: `sp` is what the stack holds at first, and bytes that have not come yet are
-- tested as they are. `go` is the rest of the loop.
module _ {W : Type 0} where
  unfoldable pub take_piece : (ℕ → Block → W → Arrival × W) → ℕ → Block → Received → W → Arrival × W
  unfolding store_all
  take_piece go len sp reset w = (gone, w)
  take_piece go len sp error w = (unread, w)
  take_piece go len sp (got []) w = (gone, w)
  take_piece go len sp (got (b ∷ bs)) w =
      let sp' = store_all sp len (b ∷ bs) in
      if is_ours sp' then go (len + length (b ∷ bs)) sp' w else (refused, w)

module _ {W : Type 0} (recv : ℕ → W → Received × W) (size : ℕ) where
  unfoldable pub read_message : ℕ → ℕ → Block → W → Arrival × W
  unfolding take_piece
  read_message zero len sp w = if ltb len size then (out_of_fuel, w) else (complete sp, w)
  read_message (suc fuel) len sp w =
      let (r, w1) = recv (size - len) w in
      let next = take_piece (read_message fuel) len sp r w1 in
      if ltb len size then next else (complete sp, w)

-- How a message's data lie in memory
pub record Layout : Type 0 where
  pub sizeof_sp : ℕ
  pub starthdr : Block → StartHdr
  pub reghdr : Block → RegisterHdr

-- The message that the bytes hold
unfoldable pub decode : Layout → Block → SpProto
unfolding sp_type_of
decode layout m = record {
  sp_type = sp_type_of (m 1);
  sp_len = m 4 * 2 ^ 24 + m 5 * 2 ^ 16 + m 6 * 256 + m 7;
  sp_id = m 8 * 2 ^ 24 + m 9 * 2 ^ 16 + m 10 * 256 + m 11;
  sp_starthdr = layout.starthdr m;
  sp_reghdr = layout.reghdr m;
}
