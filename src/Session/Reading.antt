-- ===== src/Session/Reading.antt =====
-- Reading the packets of UFT/UFTSession.hpp back: ReadPacket on the bytes of a packet, and the
-- reads that follow it.
use uft.Prelude.{
  ltb, ℕ, ◌+◌, ◌%◌, ◌^◌, ◌<◌, ◌≡◌, refl, sym, ap, ◌∙◌, arith, true, List, [], ◌∷◌, ◌++◌, append-nil,
  append_assoc, length, take, drop, replicate, append-cancel, length-replicate, drop_all, ok, some,
  ==-self,
}
use uft.World.{World, Env}
use uft.BitConverter.{load}
use uft.BitConverter.Order.{big_endian, length-big_endian, network_order64}
use uft.ByteBuffer.{ByteBuffer, create, set_offset_w}
use uft.ByteBuffer.Laws.{unread}
use uft.Session.{
  OpCode, op_byte, op_of_byte, get_file_list, get_file_list_result, transmit_file,
  transmit_file_hash, transmit_file_chunk, transmit_file_chunk_result,
}
use uft.Session.Packet.{
  read_packet, read_next_packet, read_header, read_payload, header_size, max_size,
}
use uft.Session.Wire.{packet}
use uft.Socket.Delivery.{Link, IsUp, at, GotAll, receive_all_lem}

pub op_of_header :
    (op : OpCode) (bs : List ℕ) → op_of_byte (load (take 1 (op_byte op ∷ bs))) ≡ some op
unfolding load
op_of_header get_file_list bs = refl
op_of_header get_file_list_result bs = refl
op_of_header transmit_file bs = refl
op_of_header transmit_file_hash bs = refl
op_of_header transmit_file_chunk bs = refl
op_of_header transmit_file_chunk_result bs = refl

filled :
    (p : List ℕ)
    → length p < 2 ^ 31
    → set_offset_w
        (length p)
        (record (create (length p)) { buffer = p ++ drop (length p) (create (length p)).buffer })
      ≡ unread [] p (length p)
unfolding set_offset_w create
filled p h = ground (
  arith,
  drop_all (length p) (replicate {A = ℕ} (length p) 0),
  length-replicate {0} {A = ℕ} (length p) 0,
  append-nil p,
)

empty_payload : set_offset_w header_size (create 0) ≡ unread [] [] 0
unfolding set_offset_w create
empty_payload = refl

module _ {U : Type 0} (env : Env U) (link : Link env.udt) where
  open link use {queues.{incoming, outgoing, waits}}

  pub read_payload_lem :
      (p more : List ℕ) (w : World U)
      → IsUp env link w.sock
      → incoming w.net ≡ p ++ more
      → length p < 2 ^ 31
      → length p + waits w.net < env.fuel
      → (v : U) × (read_payload env (length p) w ≡ ok (unread [] p (length p)) (at env link w v))
        × GotAll env link p w.net v
  unfolding read_payload
  read_payload_lem [] more w up i h k =
      (w.net, ap (λ (b : ByteBuffer). ok b w) empty_payload, (refl, refl, omega arith))
  read_payload_lem (x ∷ p) more w up i h k =
      let (v, run, moved) = receive_all_lem env link (x ∷ p) more w up (λ e. cc) i h k in
      let size : length (x ∷ p) % 2 ^ 32 ≡ length (x ∷ p) = omega arith in
      let allocates : ltb (length (x ∷ p)) max_size ≡ true = ground arith in
      let buffer = filled (x ∷ p) h in (v, ground arith, moved)

  pub got_both :
      (xs ys : List ℕ) (u v t : U)
      → GotAll env link xs u v
      → GotAll env link ys v t
      → GotAll env link (xs ++ ys) u t
  got_both xs ys u v t (a, b, c) (d, e, f) =
      (d ∙ a, cc (append_assoc xs ys (incoming t)), omega arith)

  pub left_over :
      (xs more : List ℕ) (u v : U)
      → GotAll env link xs u v
      → incoming u ≡ xs ++ more
      → incoming v ≡ more
  left_over xs more u v (a, b, c) i = append-cancel xs (incoming v) more (sym b ∙ i)

  -- ReadNextPacket, told to block, on the bytes of a packet: the opcode, and the payload unread.
  pub read_next_packet_lem :
      (op : OpCode) (p more : List ℕ) (w : World U)
      → IsUp env link w.sock
      → incoming w.net ≡ packet op p ++ more
      → length p < 2 ^ 31
      → header_size + length p + waits w.net < env.fuel
      → (v : U) × (read_next_packet env true w ≡ ok (op, unread [] p (length p)) (at env link w v))
        × GotAll env link (packet op p) w.net v
  unfolding read_next_packet read_header
  read_next_packet_lem op p more w up i h k =
      let head : List ℕ = op_byte op ∷ big_endian 8 (length p) in
      let count = length-big_endian 8 (length p) in
      let size : length head ≡ header_size = omega arith in
      let (u, run, (a, b, c)) =
        receive_all_lem env link head (p ++ more) w up (λ e. cc) (i ∙ append_assoc head p more)
          (omega arith) (omega arith) in
      let left : incoming u ≡ p ++ more =
        left_over head (p ++ more) w.net u (a, b, c) (i ∙ append_assoc head p more) in
      let (v, run', moved) = read_payload_lem p more (at env link w u) up left h (omega arith) in
      let code = op_of_header op (big_endian 8 (length p)) in
      let size_read = (network_order64 (length p) (omega arith)).1 in
      (v, ground arith, got_both head p w.net u v (a, b, c) moved)

  -- ReadPacket, asked for an opcode, over a link that stays up, where a packet of that opcode with
  -- a payload below 2 ^ 31 bytes comes in, with fuel for its bytes and the waits: it takes exactly
  -- the packet's bytes off the stream, says nothing, and answers with the payload unread in the
  -- buffer.
  pub read_packet_lem :
      (op : OpCode) (p more : List ℕ) (w : World U)
      → IsUp env link w.sock
      → incoming w.net ≡ packet op p ++ more
      → length p < 2 ^ 31
      → header_size + length p + waits w.net < env.fuel
      → (v : U) × (read_packet env op w ≡ ok (unread [] p (length p)) (at env link w v))
        × GotAll env link (packet op p) w.net v
  unfolding read_packet
  read_packet_lem op p more w up i h k =
      let (v, run, moved) = read_next_packet_lem op p more w up i h k in
      (v, ground (arith, ==-self (op_byte op)), moved)
