-- ===== src/Session/ChunkExchange.antt =====
-- One chunk and its acknowledgement of UFT/UFTSession.hpp, on both sides of a connection
-- that stays up: what goes out, what is taken in, and what becomes of the file.
use uft.Prelude.{
  ℕ, ◌+◌, ◌*◌, ◌%◌, ◌^◌, ◌≤◌, ◌<◌, ◌≡◌, refl, ◌∙◌, arith, true, List, [], ◌∷◌, ◌++◌, length, take,
  drop, length-append, take_all, take-append, ok,
}
use uft.World.{World, Env}
use uft.Files.{Files, Stream, update, overlay, content_of}
use uft.BitConverter.Order.{big_endian, length-big_endian}
use uft.ByteBuffer.{write_u64, write_bool, write_bytes}
use uft.ByteBuffer.Fields.{
  read_bool-Reads, read_u64-Reads, read_bytes-Reads, write_u64-Writes, write_bool-Writes,
  write_bytes-Writes,
}
use uft.Session.{transmit_file_chunk, transmit_file_chunk_result}
use uft.Session.Chunk.{
  Callback, unchecked, checked, compress_file_chunk, decompress_file_chunk, overwrite,
  send_file_chunk, run_callback, receive_file_chunk,
}
use uft.Session.Wire.{send_op_lem}
use uft.Session.Reading.{read_packet_lem}
use uft.Socket.Delivery.{Link, IsUp, at}
use uft.Session.Exchange.{
  Healthy, words_size, deflated, chunk_message, result_message, Talk, sent_then_got, got_then_sent,
  Enough,
}

module _ {U : Type 0} (env : Env U) (link : Link env.udt) where
  open link use {queues.{incoming, outgoing, waits}}

  -- SendFileChunk of bytes that are not longer than a chunk, over a link that stays up, with zlib
  -- as Healthy says and enough fuel for the packet, where an acknowledgement of success comes in:
  -- it ends well, having said the chunk's message and taken exactly the acknowledgement.
  pub send_file_chunk_lem :
      (xs more : List ℕ) (offset : ℕ) (w : World U)
      → IsUp env link w.sock
      → Healthy env
      → length xs ≤ env.chunk_size
      → incoming w.net ≡ result_message env true ++ more
      → Enough env link w.net
      → (v : U) × (send_file_chunk env xs offset (length xs) w ≡ ok tt (at env link w v))
        × Talk env link (chunk_message env offset xs) (result_message env true) w.net v
  unfolding send_file_chunk compress_file_chunk
  send_file_chunk_lem xs more offset w up good n i k =
      let z = deflated env xs in
      let fit = good.fits xs n in
      let small = good.chunk_small in
      let cut : take (length xs % 2 ^ 32) xs ≡ xs =
        take_all (length xs % 2 ^ 32) xs (omega arith) in
      let room : env.chunk_size * 2 % 2 ^ 32 ≡ env.chunk_size * 2 = omega arith in
      let (u, run, sent) =
        send_op_lem env link transmit_file_chunk (8 + 8 + 8 + length z)
          (write_u64 offset ∷ write_u64 (length xs) ∷ write_u64 (length z) ∷ write_bytes z ∷ [])
          (big_endian 8 offset ∷ big_endian 8 (length xs) ∷ big_endian 8 (length z) ∷ z ∷ []) w
          (
            write_u64-Writes offset,
            (
              write_u64-Writes (length xs),
              (write_u64-Writes (length z), (write_bytes-Writes z, tt)),
            ),
          )
          (omega (arith, words_size offset (length xs) (length z) (z ++ []), length-append z [])) up
          (omega arith) (omega arith) in
      let (v, run', taken) =
        read_packet_lem env link transmit_file_chunk_result (1 ∷ []) more (at env link w u) up
          (sent.1 ∙ i) (omega arith) (omega arith) in
      let r = read_bool-Reads true [] [] 1 (omega arith) in
      (
        v,
        ground arith,
        sent_then_got env link (chunk_message env offset xs) (result_message env true) w.net u v
            sent taken,
      )

  decompress_lem :
      (xs destination : List ℕ)
      → Healthy env
      → length xs ≤ env.chunk_size
      → length destination ≡ env.chunk_size
      → decompress_file_chunk env destination (deflated env xs) (length (deflated env xs))
        ≡ overwrite xs destination
  unfolding decompress_file_chunk
  decompress_lem xs destination good n d =
      let z = deflated env xs in
      let fit = good.fits xs n in
      let small = good.chunk_small in
      let cut = take_all (length z % 2 ^ 32) z (omega arith) in
      let room : length destination % 2 ^ 32 ≡ env.chunk_size = omega arith in
      rw (cut, room, good.lossless xs n)

  -- The files and the stream after a chunk has been written.
  abbrev pub written : World U → Stream → ℕ → List ℕ → Files
  written w s offset xs = update w.files s.path (overlay (content_of w.files s.path) offset xs)

  abbrev pub after : Stream → ℕ → List ℕ → Stream
  after s offset xs = record { path = s.path; pos = offset + length xs; good = true }

  run_callback_lem :
      (callback : Callback) (xs destination : List ℕ) (offset : ℕ) (s : Stream) (w : World U)
      → Healthy env
      → length xs ≤ length destination
      → offset < 2 ^ 63
      → (callback ≡ unchecked → s.good ≡ true)
      → run_callback env callback (overwrite xs destination) offset (length xs) s w
        ≡ ok (true, after s offset xs) (record w { files = written w s offset xs })
  unfolding run_callback
  run_callback_lem unchecked xs destination offset s w good n o g = ground (
    arith,
    g refl,
    take-append xs (drop (length xs) destination),
    length-append xs (drop (length xs) destination),
    good.disk w.files s.path offset xs,
  )
  run_callback_lem checked xs destination offset s w good n o g = ground (
    arith,
    take-append xs (drop (length xs) destination),
    length-append xs (drop (length xs) destination),
    good.disk w.files s.path offset xs,
  )

  -- ReceiveFileChunk with either callback, over a link that stays up, with zlib and a disk as
  -- Healthy says, where the chunk `xs` for an offset below 2 ^ 63 comes in, not longer than a
  -- chunk, the vector being of a chunk's size, enough fuel for its packet, and a good stream for
  -- the callback that does not clear it: it answers with the offset and the size, the bytes are
  -- written at the offset, the vector begins with them, and the peer is told of success; exactly
  -- the chunk's message is taken in.
  pub receive_file_chunk_lem :
      (callback : Callback) (xs more destination : List ℕ) (offset : ℕ) (s : Stream) (w : World U)
      → IsUp env link w.sock
      → Healthy env
      → length xs ≤ env.chunk_size
      → length destination ≡ env.chunk_size
      → offset < 2 ^ 63
      → (callback ≡ unchecked → s.good ≡ true)
      → incoming w.net ≡ chunk_message env offset xs ++ more
      → Enough env link w.net
      → (v : U) × (receive_file_chunk env callback destination s w
          ≡ ok
              (record {
                offset = offset;
                size = length xs;
                buffer = overwrite xs destination;
                stream = after s offset xs;
              })
              (record w { net = v; files = written w s offset xs }))
        × Talk env link (result_message env true) (chunk_message env offset xs) w.net v
  unfolding receive_file_chunk
  receive_file_chunk_lem callback xs more destination offset s w up good n d o g i k =
      let z = deflated env xs in
      let fit = good.fits xs n in
      let small = good.chunk_small in
      let a = big_endian 8 offset in
      let b = big_endian 8 (length xs) in
      let c = big_endian 8 (length z) in
      let p = a ++ (b ++ (c ++ (z ++ []))) in
      let size = words_size offset (length xs) (length z) (z ++ []) in
      let la = length-big_endian 8 offset in
      let lb = length-big_endian 8 (length xs) in
      let lc = length-big_endian 8 (length z) in
      let lz = length-append z [] in
      let l₁ = length-append a b in
      let l₂ = length-append (a ++ b) c in
      let l₃ = length-append b (c ++ (z ++ [])) in
      let l₄ = length-append c (z ++ []) in
      let (u, run, taken) =
        read_packet_lem env link transmit_file_chunk p more w up i (omega arith) (omega arith) in
      let m = length p in
      let r₁ = read_u64-Reads offset (omega arith) [] (b ++ (c ++ (z ++ []))) m (omega arith) in
      let r₂ = read_u64-Reads (length xs) (omega arith) a (c ++ (z ++ [])) m (omega arith) in
      let r₃ = read_u64-Reads (length z) (omega arith) (a ++ b) (z ++ []) m (omega arith) in
      let r₄ = read_bytes-Reads z ((a ++ b) ++ c) [] m (omega arith) in
      let w' = record (at env link w u) { files = written w s offset xs } in
      let (v, run', sent) =
        send_op_lem env link transmit_file_chunk_result 1 (write_bool true ∷ []) ((1 ∷ []) ∷ []) w'
          (write_bool-Writes true, tt) refl up (omega arith) (omega arith) in
      let plain = decompress_lem xs destination good n d in
      let called =
        run_callback_lem callback xs destination offset s (at env link w u) good (omega arith) o
          g in
      (
        v,
        ground arith,
        got_then_sent env link (result_message env true) (chunk_message env offset xs) w.net u v
            taken sent,
      )
