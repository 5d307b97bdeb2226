-- ===== src/Session/Conduct/Chunks.antt =====
-- UFT/UFTSession.hpp: one chunk of a file and its hash, under a Conduct.
use uft.Prelude.{
  ℕ, ◌+◌, ltb, Bool, true, false, length, List, [], ◌∷◌, Option, none, some, ok, crash, Program,
  throw, ◌>>=◌, ◌>>◌, remote_error, filesystem_open_stream_failed,
}
use uft.Prelude.Keeps.{After, Leads, Leads-crash, Leads-bind, Leads-pure, Leads-throw, Leads-test}
use uft.World.{World, Env}
use uft.Files.{FilePath, Mode, open_stream, Stream, at_start, Files}
use uft.ByteBuffer.{read_bool, read_bytes, read_u64, write_bool, write_bytes, write_u64}
use uft.Session.{transmit_file_chunk, transmit_file_chunk_result, transmit_file_hash}
use uft.Session.Chunk.{
  Callback, compressed_size, compress_file_chunk, decompress_file_chunk, calculate_file_chunk_hash,
  send_file_chunk, run_callback, receive_file_chunk, send_file_chunk_hash, receive_file_chunk_hash,
}
use uft.Session.Sender.{open_file, report}
use uft.Session.Conduct.{Conduct, less_one, Goes, Ebbs, Ebbs-then}
use uft.Session.Conduct.Packets.{send_op-Goes, read_packet-Ebbs, field-Goes}

module _ {U : Type 0} {env : Env U} (conduct : Conduct env) where
  open conduct use {Holds, Stuck}

  After-open :
      {A : Type 0} {Q : World U → Type 0} (k : ℕ) (o : Option Files) (s : Stream)
      (m : Stream → Program (World U) A) (w : World U)
      → Holds k w
      → ((s : Stream) → Leads Stuck (Holds k) Q (m s))
      → After Stuck (Holds k) Q (
          ◌>>=◌
            (λ w. elim o [
              | none ↦ throw filesystem_open_stream_failed w
              | some files ↦ ok s (record w { files = files })
            ])
            m
            w)
  After-open k none s m w h km = h
  After-open k (some files) s m w h km =
      (km s).at (record w { files = files }) (conduct.with_files k w files h)

  pub open_file-Leads :
      {A : Type 0} {Q : World U → Type 0} (k : ℕ) (path : FilePath) (mode : Mode)
      (m : Stream → Program (World U) A)
      → ((s : Stream) → Leads Stuck (Holds k) Q (m s))
      → Leads Stuck (Holds k) Q (open_file env path mode >>= m)
  open_file-Leads k path mode m km = record {
    at = λ w h. After-open k (open_stream env.os w.files path mode) (at_start path) m w h km;
  }

  pub report-Leads :
      {A : Type 0} {Q : World U → Type 0} (k : ℕ) (reporting : Bool) (offset total : ℕ)
      (m : Program (World U) A)
      → Leads Stuck (Holds k) Q m
      → Leads Stuck (Holds k) Q (report reporting offset total >> m)
  report-Leads k true offset total m km = record {
    at = λ w h.
        km.at (record w { reports = (offset, total) ∷ w.reports })
          (conduct.with_reports k w ((offset, total) ∷ w.reports) h);
  }
  report-Leads k false offset total m km = record { at = λ w h. km.at w h }

  After-write :
      {A : Type 0} (k : ℕ) (b : Bool) (a : A) (files : Files) (w : World U)
      → Holds k w
      → After {A = A} Stuck
          (Holds k)
          (Holds k)
          (elim b [ true ↦ crash | false ↦ ok a (record w { files = files }) ])
  After-write k true a files w h = tt
  After-write k false a files w h = conduct.with_files k w files h

  pub send_file_chunk-Ebbs :
      (k : ℕ) (source : List ℕ) (offset size : ℕ)
      → Ebbs conduct k (send_file_chunk env source offset size)
  unfolding send_file_chunk
  send_file_chunk-Ebbs k source offset size =
      let bytes = compress_file_chunk env source size in
      Leads-bind _ _
        (send_op-Goes conduct k transmit_file_chunk (8 + 8 + 8 + length bytes)
          (write_u64 offset ∷ write_u64 size ∷ write_u64 (length bytes) ∷ write_bytes bytes ∷ []))
        λ u.
          Ebbs-then conduct k _ _ (read_packet-Ebbs conduct k transmit_file_chunk_result) λ answer.
            Leads-bind _ _ (field-Goes conduct (less_one k) read_bool answer)
              λ a. Leads-test a.0 _ _ (Leads-pure tt) (Leads-throw remote_error)

  pub send_file_chunk_hash-Goes :
      (k : ℕ) (buffer : List ℕ) (offset size : ℕ)
      → Goes conduct k (send_file_chunk_hash env buffer offset size)
  unfolding send_file_chunk_hash
  send_file_chunk_hash-Goes k buffer offset size =
      let hash = calculate_file_chunk_hash buffer size in
      Leads-bind _ _
        (send_op-Goes conduct k transmit_file_hash (8 + 8 + 8)
          (write_u64 offset ∷ write_u64 size ∷ write_u64 hash ∷ []))
        λ u. Leads-pure hash

  pub receive_file_chunk_hash-Ebbs : (k : ℕ) → Ebbs conduct k (receive_file_chunk_hash env)
  unfolding receive_file_chunk_hash
  receive_file_chunk_hash-Ebbs k =
      Ebbs-then conduct k _ _ (read_packet-Ebbs conduct k transmit_file_hash) λ p.
        Leads-bind _ _ (field-Goes conduct (less_one k) read_u64 p) λ a.
          Leads-bind _ _ (field-Goes conduct (less_one k) read_u64 a.1)
            λ b. Leads-bind _ _ (field-Goes conduct (less_one k) read_u64 b.1) λ c. Leads-pure _

  run_callback-Goes :
      (k : ℕ) (callback : Callback) (buffer : List ℕ) (offset size : ℕ) (s : Stream)
      → Goes conduct k (run_callback env callback buffer offset size s)
  unfolding run_callback
  run_callback-Goes k callback buffer offset size s = record {
    at = λ w h. After-write k (ltb (length buffer) size) _ _ w h;
  }

  pub receive_file_chunk-Ebbs :
      (k : ℕ) (callback : Callback) (destination : List ℕ) (s : Stream)
      → Ebbs conduct k (receive_file_chunk env callback destination s)
  unfolding receive_file_chunk
  receive_file_chunk-Ebbs k callback destination s =
      Ebbs-then conduct k _ _ (read_packet-Ebbs conduct k transmit_file_chunk) λ p.
        Leads-bind _ _ (field-Goes conduct (less_one k) read_u64 p) λ a.
          Leads-bind _ _ (field-Goes conduct (less_one k) read_u64 a.1) λ b.
            Leads-bind _ _ (field-Goes conduct (less_one k) read_u64 b.1) λ c.
              Leads-bind _ _ (field-Goes conduct (less_one k) (read_bytes c.0) c.1) λ d.
                Leads-test (ltb (compressed_size env) c.0) _ _ Leads-crash (
                  Leads-bind _ _
                    (run_callback-Goes (less_one k) callback
                      (decompress_file_chunk env destination d.0 c.0) a.0 b.0 s)
                    λ e.
                      Leads-bind _ _
                        (send_op-Goes conduct (less_one k) transmit_file_chunk_result 1
                          (write_bool e.0 ∷ []))
                        λ u. Leads-pure _)
