-- ===== src/Session/ReceiveRound.antt =====
-- A round of the comparing loop of ReceiveFileChunks in UFT/UFTSession.hpp.
use uft.Prelude.{
  ℕ, zero, suc, ◌+◌, ◌-◌, ◌^◌, ◌≤◌, ◌<◌, ◌≡◌, ◌⊎◌, refl, sym, ap, ◌∙◌, arith, Bool, true, false,
  List, [], ◌∷◌, ◌++◌, length, take, drop, length-take, take-append-drop, if◌then◌else◌, ok, ltb,
  some, lt→ltb,
}
use uft.World.{World, Env}
use uft.Files.{Files, FilePath, Stream, read, seek}
use uft.Session.Receiver.{Progress, receive_if_differs, receive_compared}
use uft.Session.Sending.{next_stream, ends_or_goes_on}
use uft.Session.Chunk.{overwrite, send_file_chunk_hash, receive_file_chunk_hash}
use uft.Session.Exchange.{
  Healthy, Enough, Talk, Talk-trans, Talk-left, chunk_message, hash_message, result_message,
  hash_of,
}
use uft.Session.HashExchange.{send_file_chunk_hash_lem, receive_file_chunk_hash_lem}
use uft.Session.Plan.{stale}
use uft.Session.Receiving.{Holds, length-overwrite}
use uft.Socket.Delivery.{Link, IsUp, at}
use uft.Session.ReceiveCompared.{hash-overwrite, progress_of, reread_lem, receive_if_differs_lem}

module _ {U : Type 0} (env : Env U) where
  pub receive_compared-stop :
      (n : ℕ) (reporting : Bool) (total : ℕ) (p : Progress env) (w : World U)
      → ltb p.offset p.local_size ≡ false
      → receive_compared env n reporting total p w ≡ ok p w
  unfolding receive_compared
  receive_compared-stop zero reporting total p w e = ground arith
  receive_compared-stop (suc n) reporting total p w e = ground arith

  -- A round in which each step runs.
  receive_compared-round :
      (n : ℕ) (reporting : Bool) (total hash remote_hash remote_count : ℕ) (p p' : Progress env)
      (s : Stream) (then_ : List ℕ) (w w₁ w₂ w₃ : World U)
      → ltb p.offset p.local_size ≡ true
      → read env.chunk_size w.files (seek p.offset p.stream) ≡ (then_, s)
      → receive_file_chunk_hash env w ≡ ok (remote_hash, p.offset, remote_count) w₁
      → send_file_chunk_hash env (overwrite then_ p.buffer) p.offset (length then_) w₁ ≡ ok hash w₂
      → receive_if_differs env
          (record p { buffer = overwrite then_ p.buffer; stream = s })
          (length then_)
          hash
          remote_hash
          remote_count
          w₂
        ≡ ok p' w₃
      → receive_compared env (suc n) reporting total p w
        ≡ receive_compared env n reporting total p' (record w₃ {
          reports = if reporting then (p'.offset, total) ∷ w₃.reports else w₃.reports;
        })
  unfolding receive_compared
  receive_compared-round n reporting total hash remote_hash remote_count p p' s then_ w w₁ w₂ w₃
        more taken got_ sent patched =
      ground arith

module _ {U : Type 0} (env : Env U) (link : Link env.udt) where
  open link use {queues.{incoming, outgoing, waits}}

  abbrev pub answer_to : List ℕ → List ℕ → List ℕ
  answer_to now then_ = if stale now then_ then result_message env true else []

  abbrev pub said_to : ℕ → List ℕ → List ℕ → List ℕ
  said_to offset now then_ = if stale now then_ then chunk_message env offset now else []

  -- A whole round, whatever fuel is left after it.
  pub record Round (w : World U) (reporting : Bool) (total : ℕ) (path : FilePath)
      (content older now then_ : List ℕ) (offset offset' size' : ℕ) (p : Progress env)
      : Type 0 where
    pub net : U
    pub files : Files
    pub buffer : List ℕ
    pub pos : ℕ
    pub good : Bool
    pub run :
        (n : ℕ)
        → receive_compared env (suc n) reporting total p w
          ≡ receive_compared env n reporting total
              (progress_of env buffer path pos good offset' size')
              (record w {
                net = net;
                files = files;
                reports = if reporting then (offset', total) ∷ w.reports else w.reports;
              })
    pub holds : Holds path content w.files files
    pub buffer_eq : length buffer ≡ env.chunk_size
    pub good_or_end : (good ≡ true) ⊎ (older ≡ [])
    pub talk :
        Talk env link
          (hash_message env offset then_ ++ answer_to now then_)
          (hash_message env offset now ++ said_to offset now then_)
          w.net
          net

  pub receive-Round :
      (reporting : Bool) (total : ℕ) (buffer : List ℕ) (path : FilePath) (pos offset size : ℕ)
      (front old now more : List ℕ) (w : World U)
      → IsUp env link w.sock
      → Healthy env
      → 0 < length old
      → length now ≤ env.chunk_size
      → length (take env.chunk_size old) ≤ length now
      → (length (take env.chunk_size old) ≡ length now) ⊎ (drop env.chunk_size old ≡ [])
      → offset ≡ length front
      → size ≡ offset + length old
      → length front + length old < 2 ^ 63
      → length buffer ≡ env.chunk_size
      → w.files path ≡ some (front ++ old)
      → incoming w.net
        ≡ hash_message env offset now ++ (said_to offset now (take env.chunk_size old) ++ more)
      → Enough env link w.net
      → Round w reporting total path
          (front
            ++ ((if stale now (take env.chunk_size old) then now else take env.chunk_size old)
                ++ drop env.chunk_size old))
          (drop env.chunk_size old)
          now
          (take env.chunk_size old)
          offset
          (offset + length now)
          (size + (length now - length (take env.chunk_size old)))
          (progress_of env buffer path pos true offset size)
  receive-Round reporting total buffer path pos offset size front old now more w up good e c l d o t
        m b f i k =
      let then_ = take env.chunk_size old in
      let older = drop env.chunk_size old in
      let n₁ = length-take env.chunk_size old in
      let s₁ = next_stream env (record { path = path; pos = length front; good = true }) old in
      let taken : read env.chunk_size w.files
            (seek offset (record { path = path; pos = pos; good = true }))
          ≡ (then_, s₁) =
        ap
          (λ (k : ℕ).
            read env.chunk_size w.files (seek k (record { path = path; pos = pos; good = true })))
          o
        ∙ reread_lem env w.files path pos front old f m in
      let (u₁, run₁, talk₁) =
        receive_file_chunk_hash_lem env link now (said_to offset now then_ ++ more) offset w up
          (omega arith) c good.chunk_small i k in
      let i₁ =
        Talk-left env link [] (hash_message env offset now) (said_to offset now then_ ++ more) w.net
          u₁ talk₁ i in
      let buffer' = overwrite then_ buffer in
      let b' = length-overwrite then_ buffer (omega arith) ∙ b in
      let (u₂, run₂, talk₂) =
        send_file_chunk_hash_lem env link then_ buffer' offset (at env link w u₁) up
          (hash-overwrite then_ buffer) good.chunk_small (omega (arith, talk₁)) in
      let i₂ =
        Talk-left env link (hash_message env offset then_) [] (incoming u₁) u₁ u₂ talk₂ refl ∙ i₁ in
      let patched =
        receive_if_differs_lem env link now then_ front older more buffer' path s₁.pos s₁.good
          offset size (at env link w u₂) up good c l d o (omega arith) (omega arith) b'
          (ends_or_goes_on env.chunk_size old)
          (f ∙ ap (λ (c : List ℕ). some (front ++ c)) (sym (take-append-drop env.chunk_size old)))
          i₂ (omega (arith, talk₁, talk₂)) in
      record {
        net = patched.net;
        files = patched.files;
        buffer = patched.buffer;
        pos = patched.pos;
        good = patched.good;
        run = λ n.
            receive_compared-round env n reporting total (hash_of then_) (hash_of now) (length now)
              (progress_of env buffer path pos true offset size)
              (progress_of env patched.buffer path patched.pos patched.good (offset + length now)
                (size + (length now - length then_)))
              s₁ then_ w (at env link w u₁) (at env link w u₂)
              (record w { net = patched.net; files = patched.files })
              (lt→ltb offset size (omega arith)) taken run₁ run₂ patched.run;
        holds = patched.holds;
        buffer_eq = patched.buffer_eq;
        good_or_end = patched.good_or_end;
        talk =
            Talk-trans env link [] (hash_message env offset then_ ++ answer_to now then_)
              (hash_message env offset now) (said_to offset now then_) w.net u₁ patched.net talk₁
              (Talk-trans env link (hash_message env offset then_) (answer_to now then_) []
                (said_to offset now then_) u₁ u₂ patched.net talk₂ patched.talk);
      }
