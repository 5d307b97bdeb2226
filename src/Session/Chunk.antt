-- ===== src/Session/Chunk.antt =====
-- UFT/UFTSession.hpp: one chunk of a file and its hash, sent and received. The vector of the chunk
-- is a list of chunk_size bytes; of the vector for compressed bytes only its size matters, since
-- each use first writes the bytes that it then reads.
use Prim.Native.Nat.{bit_xor}
use uft.Prelude.{
  ℕ, ◌+◌, ◌*◌, ◌%◌, ◌^◌, Bool, true, false, List, [], ◌∷◌, ◌++◌, length, take, drop, ltb, ok, crash,
  Program, pure, throw, ◌>>=◌, ◌>>◌, remote_error,
}
use uft.World.{World, Env}
use uft.Files.{Stream, clear, seek, write}
use uft.ByteBuffer.{read_bool, read_u64, read_bytes, write_bool, write_bytes, write_u64}
use uft.Session.{transmit_file_hash, transmit_file_chunk, transmit_file_chunk_result}
use uft.Session.Packet.{send_op, read_packet, field}

-- The bytes copied over the front of a vector.
abbrev pub overwrite : List ℕ → List ℕ → List ℕ
overwrite xs buffer = xs ++ drop (length xs) buffer

-- FNV-1a in 64 bits: 0x100000001B3 and 0xCBF29CE484222325.
unfoldable pub fnv : ℕ → List ℕ → ℕ
fnv hash [] = hash
fnv hash (b ∷ bs) = fnv (bit_xor hash b * 0x100000001B3 % 2 ^ 64) bs

-- CalculateFileChunkHash
unfoldable pub calculate_file_chunk_hash : List ℕ → ℕ → ℕ
unfolding fnv
calculate_file_chunk_hash buffer size = fnv 0xCBF29CE484222325 (take size buffer)

-- What ReceiveFileChunk's callback does to the stream: `checked` for the one that clears it first
-- and answers good(), and not for the one that answers true.
pub data Callback : Type 0 where
  unchecked checked : Callback

abbrev prepared : Callback → Stream → Stream
prepared unchecked s = s
prepared checked s = clear s

abbrev answer_of : Callback → Stream → Bool
answer_of unchecked s = true
answer_of checked s = s.good

module _ {U : Type 0} (env : Env U) where
  open env use {os, zlib, chunk_size}

  -- FILE_CHUNK_SIZE_COMPRESSED
  abbrev pub compressed_size : ℕ
  compressed_size = chunk_size * 2

  -- CompressFileChunk: the total_out bytes that the vector then begins with. An avail field is a
  -- 32-bit number.
  unfoldable pub compress_file_chunk : List ℕ → ℕ → List ℕ
  compress_file_chunk source size =
      zlib.deflate (take (size % 2 ^ 32) source) (compressed_size % 2 ^ 32)

  -- DecompressFileChunk: the destination after inflate.
  unfoldable pub decompress_file_chunk : List ℕ → List ℕ → ℕ → List ℕ
  decompress_file_chunk destination source size =
      overwrite (zlib.inflate (take (size % 2 ^ 32) source) (length destination % 2 ^ 32))
        destination

  unfoldable pub send_file_chunk : List ℕ → ℕ → ℕ → Program (World U) (Unit {0})
  send_file_chunk source offset size = do
    let bytes = compress_file_chunk source size
    send_op env transmit_file_chunk (8 + 8 + 8 + length bytes)
        (write_u64 offset ∷ write_u64 size ∷ write_u64 (length bytes) ∷ write_bytes bytes ∷ [])
    answer ← read_packet env transmit_file_chunk_result
    (success, _) ← field env read_bool answer
    elim success [ true ↦ pure tt | false ↦ throw remote_error ]

  -- Both callbacks write `size` bytes of the vector at `offset`; more than it has is a wild read.
  unfoldable pub run_callback :
      Callback → List ℕ → ℕ → ℕ → Stream → Program (World U) (Bool × Stream)
  run_callback callback buffer offset size s w = elim (ltb (length buffer) size) [
    | true ↦ crash
    | false ↦
        let (files, s') = write os (take size buffer) w.files (seek offset (prepared callback s)) in
        ok (answer_of callback s', s') (record w { files = files })
  ]

  -- The offset, the size, the vector and the stream after it.
  pub record Chunk : Type 0 where
    pub offset : ℕ
    pub size : ℕ
    pub buffer : List ℕ
    pub stream : Stream

  unfoldable pub receive_file_chunk : Callback → List ℕ → Stream → Program (World U) Chunk
  unfolding run_callback
  receive_file_chunk callback destination s = do
    packet ← read_packet env transmit_file_chunk
    (offset, packet₁) ← field env read_u64 packet
    (size, packet₂) ← field env read_u64 packet₁
    (count, packet₃) ← field env read_u64 packet₂
    (bytes, _) ← field env (read_bytes count) packet₃
    elim (ltb compressed_size count) [
      | true ↦ λ _. crash
      | false ↦ do
        let buffer = decompress_file_chunk destination bytes count
        (success, s') ← run_callback callback buffer offset size s
        send_op env transmit_file_chunk_result 1 (write_bool success ∷ [])
        pure (record { offset = offset; size = size; buffer = buffer; stream = s' })
    ]

  unfoldable pub send_file_chunk_hash : List ℕ → ℕ → ℕ → Program (World U) ℕ
  send_file_chunk_hash buffer offset size = do
    let hash = calculate_file_chunk_hash buffer size
    send_op env transmit_file_hash (8 + 8 + 8)
        (write_u64 offset ∷ write_u64 size ∷ write_u64 hash ∷ [])
    pure hash

  -- The hash, the offset and the size of the peer.
  unfoldable pub receive_file_chunk_hash : Program (World U) (ℕ × ℕ × ℕ)
  receive_file_chunk_hash = do
    packet ← read_packet env transmit_file_hash
    (offset, packet₁) ← field env read_u64 packet
    (size, packet₂) ← field env read_u64 packet₁
    (hash, _) ← field env read_u64 packet₂
    pure (hash, offset, size)
