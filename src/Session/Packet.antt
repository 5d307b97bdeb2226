-- ===== src/Session/Packet.antt =====
-- UFT/UFTSession.hpp: packets. A packet is its opcode, the size of its payload in eight bytes, and
-- the payload.
use uft.Prelude.{
  ℕ, ◌+◌, ◌-◌, ◌%◌, ◌^◌, Bool, true, false, none, some, List, [], ◌∷◌, ◌++◌, length, take, drop,
  ltb, ◌==◌, if◌then◌else◌, ok, crash, Program, pure, throw, ◌>>=◌, ◌>>◌, modify, network_api_error,
  network_would_block, network_connection_lost,
}
use uft.World.{World, Env}
use uft.BitConverter.{load, network_to_host64}
use uft.ByteBuffer.{
  ByteBuffer, create, set_offset_w, Reading, eof, wild, got, Writing, full, wild_write, wrote,
  write_u8, write_u64, size_mod,
}
use uft.Socket.{close}
use uft.Socket.Transfer.{send_all, receive_all, try_receive_all, lost, would_block, all_of}
use uft.Session.{OpCode, op_byte, op_of_byte}

-- sizeof(PacketHeader)
abbrev pub header_size : ℕ
header_size = 9

-- std::vector throws std::length_error for this size and above; smaller vectors find their memory.
abbrev pub max_size : ℕ
max_size = 2 ^ 63

module _ {W : Type 0} where
  -- The answers of Write are not looked at.
  abbrev pub emit : (ByteBuffer → Writing) → ByteBuffer → Program W ByteBuffer
  emit f b w = elim (f b) [ full ↦ ok b w | wild_write ↦ crash | wrote b' ↦ ok b' w ]

  abbrev pub emit_all : List (ByteBuffer → Writing) → ByteBuffer → Program W ByteBuffer
  emit_all [] b = pure b
  emit_all (f ∷ fs) b = emit f b >>= emit_all fs

  -- UFTSession_CreatePacketBuffer, and the writes that follow it.
  unfoldable pub create_packet : OpCode → ℕ → List (ByteBuffer → Writing) → Program W ByteBuffer
  create_packet op capacity fields =
      emit_all (write_u8 (op_byte op) ∷ write_u64 0 ∷ fields) (create (header_size + capacity))

module _ {U : Type 0} (env : Env U) where
  -- UFTSession_SendPacketBuffer: fills the payload's size in, and sends.
  unfoldable pub send_packet : ByteBuffer → Program (World U) ℕ
  send_packet b = do
    let size = b.offset_w
    b' ← emit (write_u64 ((size + size_mod - header_size) % size_mod)) (set_offset_w 1 b)
    let b'' = set_offset_w size b'
    send_all env (take (size % 2 ^ 32) b''.buffer)

  -- A block `// Send OPCodes::…` of the source.
  unfoldable pub send_op : OpCode → ℕ → List (ByteBuffer → Writing) → Program (World U) (Unit {0})
  send_op op capacity fields = do
    b ← create_packet op capacity fields
    n ← send_packet b
    elim (n == 0) [ true ↦ throw network_connection_lost | false ↦ pure tt ]

  -- UFTSession::Disconnect
  unfoldable pub disconnect : World U → World U
  unfolding close
  disconnect w = if w.sock.is_open then close env w else w

  -- Disconnect(); return UFTSESSION_ERROR_CODE_NETWORK_API_ERROR;
  abbrev pub break_off : {A : Type 0} → Program (World U) A
  break_off = modify disconnect >> throw network_api_error

  -- A Read whose failure breaks off.
  abbrev pub field :
      {A : Type 0} → (ByteBuffer → Reading A) → ByteBuffer → Program (World U) (A × ByteBuffer)
  field f b = elim (f b) [ eof ↦ break_off | wild ↦ λ _. crash | got a b' ↦ pure (a, b') ]

  -- The std::size_t that a std::int32_t becomes.
  abbrev widen : ℕ → ℕ
  widen n = if ltb n (2 ^ 31) then n else n + (2 ^ 64 - 2 ^ 32)

  -- Receives the payload into a buffer of its size: ReceiveAll counts in a std::uint32_t. Nobody
  -- catches what the vector throws.
  unfoldable pub read_payload : ℕ → Program (World U) ByteBuffer
  read_payload size = do
    let buffer = create size
    elim (ltb size max_size) [
      | false ↦ λ _. crash
      | true ↦ elim (size == 0) [
        | true ↦ pure (set_offset_w header_size buffer)
        | false ↦ do
          answer ← receive_all env (size % 2 ^ 32)
          elim answer [
            | none ↦ throw network_connection_lost
            | some xs ↦ pure (
                set_offset_w (widen (length xs))
                  (record buffer { buffer = xs ++ drop (length xs) buffer.buffer }))
          ]
      ]
    ]

  unfoldable pub read_header : Bool → Program (World U) (List ℕ)
  read_header true = do
    answer ← receive_all env header_size
    elim answer [ none ↦ throw network_connection_lost | some xs ↦ pure xs ]
  read_header false = do
    answer ← try_receive_all env header_size
    elim answer [
      | lost ↦ throw network_connection_lost
      | would_block ↦ throw network_would_block
      | all_of xs ↦ pure xs
    ]

  -- ReadNextPacket: the header's opcode, and the payload as a buffer.
  unfoldable pub read_next_packet : Bool → Program (World U) (OpCode × ByteBuffer)
  read_next_packet block = do
    header ← read_header block
    elim (op_of_byte (load (take 1 header))) [
      | none ↦ break_off
      | some op ↦ do
        buffer ← read_payload (network_to_host64 (load (drop 1 header)))
        pure (op, buffer)
    ]

  -- ReadPacket, which every caller asks to block.
  unfoldable pub read_packet : OpCode → Program (World U) ByteBuffer
  read_packet opcode = do
    (op, buffer) ← read_next_packet true
    elim (op_byte op == op_byte opcode) [ true ↦ pure buffer | false ↦ break_off ]
