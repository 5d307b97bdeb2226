-- ===== src/Session/Receiver.antt =====
-- UFT/UFTSession.hpp: ReceiveFileChunks. The vector of a chunk lives through the calls, so that a
-- write can see what an earlier chunk left in it.
use uft.Prelude.{
  ℕ, zero, suc, ◌-◌, Bool, true, false, ◌&&◌, ◌||◌, List, length, replicate, ltb, ◌==◌, stuck,
  Program, pure, ◌>>=◌, ◌>>◌, if◌then◌else◌,
}
use uft.World.{World, Env}
use uft.Files.{Stream, Mode, seek}
use uft.Session.{FileInfo, c_string, add64}
use uft.Session.Packet.{break_off}
use uft.Session.Chunk.{
  Callback, unchecked, checked, overwrite, receive_file_chunk, send_file_chunk_hash,
  receive_file_chunk_hash,
}
use uft.Session.Sender.{open_file, report, differs, read_chunk}

module _ {U : Type 0} (env : Env U) where
  open env use {chunk_size}

  -- Receives chunks until the peer's size is reached.
  unfoldable pub receive_chunks :
      ℕ → Callback → Bool → ℕ → List ℕ → Stream → ℕ → Program (World U) (Unit {0})
  receive_chunks zero callback reporting total buffer s offset = elim (ltb offset total) [
    | false ↦ pure tt
    | true ↦ λ _. stuck
  ]
  receive_chunks (suc fuel) callback reporting total buffer s offset = elim (ltb offset total) [
    | false ↦ pure tt
    | true ↦ do
      chunk ← receive_file_chunk env callback buffer s
      let offset' = add64 offset chunk.size
      report reporting offset' total
      receive_chunks fuel callback reporting total chunk.buffer chunk.stream offset'
  ]

  -- The state of the comparing loop.
  pub record Progress : Type 0 where
    pub buffer : List ℕ
    pub stream : Stream
    pub offset : ℕ
    pub local_size : ℕ

  -- A chunk is received again where the peer's differs. The new offset takes the size that the
  -- peer gave last.
  unfoldable pub receive_if_differs : Progress → ℕ → ℕ → ℕ → ℕ → Program (World U) Progress
  receive_if_differs p local_count hash remote_hash remote_count =
      elim (differs local_count remote_count hash remote_hash) [
        | false ↦ pure (record p { offset = add64 p.offset remote_count })
        | true ↦ do
          chunk ← receive_file_chunk env checked p.buffer p.stream
          pure (record {
            buffer = chunk.buffer;
            stream = chunk.stream;
            offset = add64 p.offset chunk.size;
            local_size =
                if ltb local_count chunk.size
                then add64 p.local_size (chunk.size - local_count)
                else p.local_size;
          })
      ]

  unfoldable pub receive_compared : ℕ → Bool → ℕ → Progress → Program (World U) Progress
  unfolding receive_if_differs
  receive_compared zero reporting total p = elim (ltb p.offset p.local_size) [
    | false ↦ pure p
    | true ↦ λ _. stuck
  ]
  receive_compared (suc fuel) reporting total p = elim (ltb p.offset p.local_size) [
    | false ↦ pure p
    | true ↦ do
      (bytes, s) ← read_chunk env (seek p.offset p.stream)
      let buffer = overwrite bytes p.buffer
      (remote_hash, remote_offset, remote_count) ← receive_file_chunk_hash env
      hash ← send_file_chunk_hash env buffer p.offset (length bytes)
      elim (p.offset == remote_offset) [
        | false ↦ break_off env
        | true ↦ do
          p' ←
              receive_if_differs (record p { buffer = buffer; stream = s }) (length bytes) hash
                remote_hash remote_count
          report reporting p'.offset total
          receive_compared fuel reporting total p'
      ]
  ]

  -- ReceiveFileChunks: into an emptied file where there is none or a longer one, else compared.
  unfoldable pub receive_file_chunks : FileInfo → FileInfo → Bool → Program (World U) (Unit {0})
  unfolding receive_chunks receive_compared c_string
  receive_file_chunks local remote reporting =
      elim ((local.size == 0 && local.timestamp == 0) || ltb remote.size local.size) [
        | true ↦ do
          s ← open_file env (c_string local.path) Mode.truncating
          receive_chunks env.fuel unchecked reporting remote.size (replicate chunk_size 0) s 0
        | false ↦ do
          s ← open_file env (c_string local.path) Mode.updating
          p ← receive_compared env.fuel reporting remote.size (record {
            buffer = replicate chunk_size 0;
            stream = s;
            offset = 0;
            local_size = local.size;
          })
          receive_chunks env.fuel checked reporting remote.size p.buffer p.stream p.offset
      ]
