-- ===== src/Session/HashExchange.antt =====
-- UFT/UFTSession.hpp: the hash of one chunk on the wire, said and heard.
use uft.Prelude.{ℕ, ◌^◌, ◌≤◌, ◌<◌, ◌≡◌, sym, arith, List, [], ◌∷◌, ◌++◌, length, length-append, ok}
use uft.World.{World, Env}
use uft.BitConverter.Order.{big_endian, length-big_endian}
use uft.ByteBuffer.{write_u64}
use uft.ByteBuffer.Fields.{read_u64-Reads, write_u64-Writes}
use uft.Session.{transmit_file_hash}
use uft.Session.Chunk.{calculate_file_chunk_hash, send_file_chunk_hash, receive_file_chunk_hash}
use uft.Session.Wire.{send_op_lem}
use uft.Session.Reading.{read_packet_lem}
use uft.Socket.Delivery.{Link, IsUp, at}
use uft.Session.Exchange.{
  hash_of, hash_of-lt, words_size, hash_message, Talk, of_sent, of_got, Enough,
}

module _ {U : Type 0} (env : Env U) (link : Link env.udt) where
  open link use {queues.{incoming, outgoing, waits}}

  -- SendFileChunkHash over a link that stays up, with enough fuel and a chunk size of at most 2 ^
  -- 28, of a vector whose front hashes like `xs`: it answers with the hash of `xs`, having said
  -- their hash message and taken nothing.
  pub send_file_chunk_hash_lem :
      (xs : List ℕ) (buffer : List ℕ) (offset : ℕ) (w : World U)
      → IsUp env link w.sock
      → calculate_file_chunk_hash buffer (length xs) ≡ hash_of xs
      → env.chunk_size ≤ 2 ^ 28
      → Enough env link w.net
      → (v : U) × (send_file_chunk_hash env buffer offset (length xs) w
          ≡ ok (hash_of xs) (at env link w v))
        × Talk env link (hash_message env offset xs) [] w.net v
  unfolding send_file_chunk_hash
  send_file_chunk_hash_lem xs buffer offset w up e c k =
      let (v, run, moved) =
        send_op_lem env link transmit_file_hash 24
          (write_u64 offset ∷ write_u64 (length xs) ∷ write_u64 (hash_of xs) ∷ [])
          (big_endian 8 offset ∷ big_endian 8 (length xs) ∷ big_endian 8 (hash_of xs) ∷ []) w
          (
            write_u64-Writes offset,
            (write_u64-Writes (length xs), (write_u64-Writes (hash_of xs), tt)),
          )
          (sym (words_size offset (length xs) (hash_of xs) [])) up (omega arith) (omega arith) in
      (v, ground arith, of_sent env link (hash_message env offset xs) w.net v moved)

  -- ReceiveFileChunkHash over a link that stays up, with enough fuel, where the hash message of
  -- bytes not longer than a chunk of at most 2 ^ 28, at an offset below 2 ^ 64, comes in: it
  -- answers with their hash, the offset and their number, takes exactly the message and says
  -- nothing.
  pub receive_file_chunk_hash_lem :
      (xs more : List ℕ) (offset : ℕ) (w : World U)
      → IsUp env link w.sock
      → offset < 2 ^ 64
      → length xs ≤ env.chunk_size
      → env.chunk_size ≤ 2 ^ 28
      → incoming w.net ≡ hash_message env offset xs ++ more
      → Enough env link w.net
      → (v : U) × (receive_file_chunk_hash env w
          ≡ ok (hash_of xs, offset, length xs) (at env link w v))
        × Talk env link [] (hash_message env offset xs) w.net v
  unfolding receive_file_chunk_hash
  receive_file_chunk_hash_lem xs more offset w up o n c i k =
      let a = big_endian 8 offset in
      let b = big_endian 8 (length xs) in
      let h = big_endian 8 (hash_of xs) in
      let size = words_size offset (length xs) (hash_of xs) [] in
      let la = length-big_endian 8 offset in
      let lb = length-big_endian 8 (length xs) in
      let lh = length-big_endian 8 (hash_of xs) in
      let (v, run, moved) =
        read_packet_lem env link transmit_file_hash (a ++ (b ++ (h ++ []))) more w up i
          (omega arith) (omega arith) in
      let n₁ = length-append b (h ++ []) in
      let n₂ = length-append h [] in
      let n₃ = length-append a b in
      let m = length (a ++ (b ++ (h ++ []))) in
      let r₁ = read_u64-Reads offset o [] (b ++ (h ++ [])) m (omega arith) in
      let r₂ = read_u64-Reads (length xs) (omega arith) a (h ++ []) m (omega arith) in
      let r₃ = read_u64-Reads (hash_of xs) (hash_of-lt xs) (a ++ b) [] m (omega arith) in
      (v, ground arith, of_got env link (hash_message env offset xs) w.net v moved)
