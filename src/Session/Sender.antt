-- ===== src/Session/Sender.antt =====
-- UFT/UFTSession.hpp: SendFileChunks. Each loop has fuel for its rounds; `reporting` tells whether
-- there is a progress callback.
use uft.Prelude.{
  ℕ, zero, suc, ◌-◌, Bool, true, false, not, ◌&&◌, ◌||◌, List, ◌∷◌, length, ltb, ◌==◌, none, some,
  ok, stuck, Program, pure, throw, ◌>>=◌, ◌>>◌, if◌then◌else◌, filesystem_open_stream_failed,
}
use uft.World.{World, Env}
use uft.Files.{Stream, Mode, FilePath, open_stream, at_start, seek, read}
use uft.Session.{FileInfo, c_string, add64}
use uft.Session.Packet.{break_off}
use uft.Session.Chunk.{send_file_chunk, send_file_chunk_hash, receive_file_chunk_hash}

-- Opens a stream over a file, or answers that it failed.
abbrev pub open_file : {U : Type 0} → Env U → FilePath → Mode → Program (World U) Stream
open_file env path mode w = elim (open_stream env.os w.files path mode) [
  | none ↦ throw filesystem_open_stream_failed w
  | some files ↦ ok (at_start path) (record w { files = files })
]

abbrev pub report : {U : Type 0} → Bool → ℕ → ℕ → Program (World U) (Unit {0})
report reporting offset total w =
    ok tt (if reporting then record w { reports = (offset, total) ∷ w.reports } else w)

-- The peer has other bytes: another size or another hash.
abbrev pub differs : ℕ → ℕ → ℕ → ℕ → Bool
differs size₁ size₂ hash₁ hash₂ = not (size₁ == size₂) || not (hash₁ == hash₂)

module _ {U : Type 0} (env : Env U) where
  open env use {chunk_size}

  -- fStream.read and gcount
  abbrev pub read_chunk : Stream → Program (World U) (List ℕ × Stream)
  read_chunk s w = ok (read chunk_size w.files s) w

  -- The whole file, with a seek before each read.
  unfoldable pub send_whole : ℕ → Bool → ℕ → Stream → ℕ → Program (World U) (Unit {0})
  send_whole zero reporting total s offset = elim (ltb offset total) [
    | false ↦ pure tt
    | true ↦ λ _. stuck
  ]
  send_whole (suc fuel) reporting total s offset = elim (ltb offset total) [
    | false ↦ pure tt
    | true ↦ do
      (bytes, s') ← read_chunk (seek offset s)
      send_file_chunk env bytes offset (length bytes)
      let offset' = add64 offset (length bytes)
      report reporting offset' total
      send_whole fuel reporting total s' offset'
  ]

  -- What the peer lacks at the end.
  unfoldable pub send_rest : ℕ → Bool → ℕ → Stream → ℕ → Program (World U) (Unit {0})
  send_rest zero reporting total s offset = elim (ltb offset total) [
    | false ↦ pure tt
    | true ↦ λ _. stuck
  ]
  send_rest (suc fuel) reporting total s offset = elim (ltb offset total) [
    | false ↦ pure tt
    | true ↦ do
      (bytes, s') ← read_chunk s
      send_file_chunk env bytes offset (length bytes)
      let offset' = add64 offset (length bytes)
      report reporting offset' total
      send_rest fuel reporting total s' offset'
  ]

  -- A chunk is sent again where the peer's differs; the answer is the peer's new size.
  unfoldable pub send_if_differs : List ℕ → ℕ → ℕ → ℕ → ℕ → ℕ → Program (World U) ℕ
  send_if_differs bytes offset hash remote_hash remote_count remote_size =
      elim (differs (length bytes) remote_count hash remote_hash) [
        | false ↦ pure remote_size
        | true ↦ do
          send_file_chunk env bytes offset (length bytes)
          pure (
              if ltb remote_count (length bytes)
              then add64 remote_size (length bytes - remote_count)
              else remote_size)
      ]

  -- Compares up to the end of the peer's file: the stream and the offset reached.
  unfoldable pub send_compared : ℕ → Bool → ℕ → Stream → ℕ → ℕ → Program (World U) (Stream × ℕ)
  unfolding send_if_differs
  send_compared zero reporting total s offset remote_size = elim (ltb offset remote_size) [
    | false ↦ pure (s, offset)
    | true ↦ λ _. stuck
  ]
  send_compared (suc fuel) reporting total s offset remote_size = elim (ltb offset remote_size) [
    | false ↦ pure (s, offset)
    | true ↦ do
      (bytes, s') ← read_chunk s
      hash ← send_file_chunk_hash env bytes offset (length bytes)
      (remote_hash, remote_offset, remote_count) ← receive_file_chunk_hash env
      elim (offset == remote_offset) [
        | false ↦ break_off env
        | true ↦ do
          remote_size' ← send_if_differs bytes offset hash remote_hash remote_count remote_size
          let offset' = add64 offset (length bytes)
          report reporting offset' total
          send_compared fuel reporting total s' offset' remote_size'
      ]
  ]

  -- SendFileChunks: whole where the peer has no file or a longer one, else compared.
  unfoldable pub send_file_chunks : FileInfo → FileInfo → Bool → Program (World U) (Unit {0})
  unfolding send_whole send_rest send_compared c_string
  send_file_chunks local remote reporting =
      elim ((remote.size == 0 && remote.timestamp == 0) || ltb local.size remote.size) [
        | true ↦ do
          s ← open_file env (c_string local.path) Mode.reading
          send_whole env.fuel reporting local.size s 0
        | false ↦ do
          s ← open_file env (c_string local.path) Mode.reading
          (s', offset) ← send_compared env.fuel reporting local.size s 0 remote.size
          send_rest env.fuel reporting local.size s' offset
      ]
