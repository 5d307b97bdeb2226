-- ===== src/Session/ReceiveFile.antt =====
-- ReceiveFileChunks of UFT/UFTSession.hpp as a whole, in both of its branches, and the two routines
-- against each other.
use uft.Prelude.{
  ℕ, ◌-◌, ◌^◌, ◌≤◌, ◌<◌, ◌≡◌, inl, refl, sym, ◌∙◌, arith, Bool, true, false, List, [], ◌++◌,
  append_assoc, length, replicate, length-replicate, some,
}
use uft.World.{World, Env}
use uft.Files.{at_start, Mode, update}
use uft.Files.Content.{update_self}
use uft.Session.Chunk.{unchecked, checked}
use uft.Session.Exchange.{Healthy, Enough, Talk-trans, Talk-left}
use uft.Session.Plan.{merged, beyond, compared_out, compared_in}
use uft.Session.Receiving.{Holds-there, Holds-trans}
use uft.Socket.Delivery.{Link, IsUp}
use uft.Session.{FileInfo, c_string}
use uft.Session.Plan.{afresh, whole_out, whole_in, length-merged}
use uft.Session.Receiver.{receive_file_chunks}
use uft.Session.Receiving.{Fills, receive_chunks_lem}
use uft.Session.ReceiveLoop.{receive_compared_lem}

length-replicate_chunk : (n : ℕ) → length (replicate {A = ℕ} n 0) ≡ n
length-replicate_chunk n = length-replicate n 0

module _ {U : Type 0} (env : Env U) (link : Link env.udt) where
  open link use {queues.{incoming, outgoing, waits}}

  -- What the peer says when it compares: against each chunk of the file `old`, and then the rest.
  abbrev pub compared_words : List ℕ → List ℕ → List ℕ
  compared_words content old =
      compared_out env env.fuel 0 content old
      ++ whole_out env env.fuel (length content - length (beyond env env.fuel content old))
          (beyond env env.fuel content old)

  abbrev pub compared_answers : List ℕ → List ℕ → List ℕ
  compared_answers content old =
      compared_in env env.fuel 0 content old
      ++ whole_in env env.fuel (beyond env env.fuel content old)

  -- ReceiveFileChunks without a file, or with one longer than the peer's, where the file can be
  -- opened for truncation, over a link that stays up, with zlib and a disk as Healthy says, the
  -- peer's size being that of `content`, below 2 ^ 63 and within the fuel, where every chunk of
  -- `content` comes in: it ends well, takes exactly those chunks, acknowledges each, and leaves
  -- its file with `content` and no other file touched.
  pub receive_file_chunks-whole :
      (local remote : FileInfo) (reporting : Bool) (content more : List ℕ) (w : World U)
      → IsUp env link w.sock
      → Healthy env
      → env.os.may_open w.files (c_string local.path) Mode.truncating ≡ true
      → remote.size ≡ length content
      → length content < 2 ^ 63
      → length content ≤ env.fuel
      → afresh local.size local.timestamp remote.size ≡ true
      → incoming w.net ≡ whole_out env env.fuel 0 content ++ more
      → Enough env link w.net
      → Fills env link
          (receive_file_chunks env local remote reporting)
          tt
          (c_string local.path)
          content
          (whole_in env env.fuel content)
          (whole_out env env.fuel 0 content)
          w
  unfolding receive_file_chunks
  receive_file_chunks-whole local remote reporting content more w up good opens z m h e i k =
      let path = c_string local.path in
      let empty = update w.files path [] in
      let (v, rs, fs, run, holds, talk) =
        receive_chunks_lem env link env.fuel unchecked reporting remote.size 0
          (replicate env.chunk_size 0) (at_start path) [] content more (record w { files = empty })
          up good (update_self w.files path []) (λ e'. refl) (length-replicate_chunk env.chunk_size)
          refl (omega arith) (omega arith) h i k in
      (
        v,
        rs,
        fs,
        ground arith,
        Holds-trans path [] content w.files empty fs (λ q. refl) holds,
        talk,
      )

  -- ReceiveFileChunks with a file `old` that opens, is not longer than the peer's and not empty
  -- with timestamp 0, both FileInfos having the sizes of the files, over a link that stays up,
  -- with zlib and a disk as Healthy says, lengths below 2 ^ 63 and within the fuel, where the
  -- plan's words for `content` against `old` come in: it ends well, takes exactly those words,
  -- answers as the plan says, and leaves its file with the merged chunks and what lies beyond
  -- them, and no other file touched.
  pub receive_file_chunks-compared :
      (local remote : FileInfo) (reporting : Bool) (content old more : List ℕ) (w : World U)
      → IsUp env link w.sock
      → Healthy env
      → w.files (c_string local.path) ≡ some old
      → env.os.may_open w.files (c_string local.path) Mode.updating ≡ true
      → local.size ≡ length old
      → remote.size ≡ length content
      → length content < 2 ^ 63
      → length content ≤ env.fuel
      → length old ≤ length content
      → afresh local.size local.timestamp remote.size ≡ false
      → incoming w.net ≡ compared_words content old ++ more
      → Enough env link w.net
      → Fills env link
          (receive_file_chunks env local remote reporting)
          tt
          (c_string local.path)
          (merged env env.fuel content old ++ beyond env env.fuel content old)
          (compared_answers content old)
          (compared_words content old)
          w
  unfolding receive_file_chunks
  receive_file_chunks-compared local remote reporting content old more w up good there opens y z m h
        l e i k =
      let path = c_string local.path in
      let last = beyond env env.fuel content old in
      let offset = length content - length last in
      let out = compared_out env env.fuel 0 content old in
      let come = compared_in env env.fuel 0 content old in
      let out' = whole_out env env.fuel offset last in
      let kept = merged env env.fuel content old in
      let sizes = length-merged env env.fuel content old in
      let i' = i ∙ append_assoc out out' more in
      let c =
        receive_compared_lem env link env.fuel reporting remote.size (replicate env.chunk_size 0)
          path 0 true 0 local.size [] content old (out' ++ more) w up good refl (omega arith)
          (length-replicate_chunk env.chunk_size) (inl refl) there l (omega arith) (omega arith) i'
          k in
      let talk₁ = c.talk in
      let run₁ = c.run in
      let at_offset : length kept ≡ offset = omega arith in
      let (v, rs, fs, run, holds, talk) =
        receive_chunks_lem env link env.fuel checked reporting remote.size offset c.buffer
          (record { path = path; pos = c.pos; good = c.good }) kept last more
          (record w { net = c.net; reports = c.reports; files = c.files }) up good
          (Holds-there path kept w.files c.files c.holds) (λ e'. cc) c.buffer_eq (sym at_offset)
          (omega arith) (omega arith) (omega arith)
          (Talk-left env link come out (out' ++ more) w.net c.net talk₁ i')
          (omega (arith, talk₁)) in
      (
        v,
        rs,
        fs,
        ground arith,
        Holds-trans path kept (kept ++ last) w.files c.files fs c.holds holds,
        Talk-trans env link come (whole_in env env.fuel last) out out' w.net c.net v talk₁ talk,
      )
