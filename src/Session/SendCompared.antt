-- ===== src/Session/SendCompared.antt =====
-- The comparing loop of SendFileChunks in UFT/UFTSession.hpp follows the plan.
use uft.Prelude.{
  ℕ, zero, suc, ◌+◌, ◌-◌, ◌^◌, ◌≤◌, ◌<◌, ◌≡◌, inl, inr, refl, sym, ap, ◌∙◌, arith, Bool, true, List,
  [], ◌∷◌, ◌++◌, append-nil, append_assoc, length, take, drop, length-append, length-take,
  length-drop, if◌then◌else◌, ok, Bool-cases, Program, ltb, lt→ltb,
}
use uft.World.{World, Env}
use uft.Files.{Stream, read}
use uft.Session.{add64}
use uft.Session.Sender.{send_compared, send_if_differs}
use uft.Session.Exchange.{
  Healthy, Enough, Talk, Talk-trans, Talk-left, chunk_message, hash_message, result_message,
  hash_of,
}
use uft.Session.ChunkExchange.{send_file_chunk_lem}
use uft.Session.HashExchange.{send_file_chunk_hash_lem, receive_file_chunk_hash_lem}
use uft.Session.Chunk.{send_file_chunk_hash, receive_file_chunk_hash}
use uft.Session.Plan.{stale, compared_out, compared_in, beyond}
use uft.Socket.Delivery.{Link, IsUp, at}
use uft.Session.Sending.{Reads, next_stream, read_lem, next_stream-Reads, Reads-good}

module _ {U : Type 0} (env : Env U) where
  -- A round in which each step runs.
  send_compared-round :
      (n : ℕ) (reporting : Bool) (total offset size hash remote_hash remote_count size' : ℕ)
      (s s' : Stream) (now : List ℕ) (w w₁ w₂ w₃ : World U)
      → ltb offset size ≡ true
      → read env.chunk_size w.files s ≡ (now, s')
      → send_file_chunk_hash env now offset (length now) w ≡ ok hash w₁
      → receive_file_chunk_hash env w₁ ≡ ok (remote_hash, offset, remote_count) w₂
      → send_if_differs env now offset hash remote_hash remote_count size w₂ ≡ ok size' w₃
      → add64 offset (length now) ≡ offset + length now
      → send_compared env (suc n) reporting total s offset size w
        ≡ send_compared env n reporting total s' (offset + length now) size' (record w₃ {
          reports = if reporting then (offset + length now, total) ∷ w₃.reports else w₃.reports;
        })
  unfolding send_compared
  send_compared-round n reporting total offset size hash remote_hash remote_count size' s s' now w
        w₁ w₂ w₃ more taken sent got_ differs_ sum =
      ground arith

module _ {U : Type 0} (env : Env U) (link : Link env.udt) where
  open link use {queues.{incoming, outgoing, waits}}

  send_if_differs_lem :
      (now then_ more : List ℕ) (offset size : ℕ) (w : World U)
      → IsUp env link w.sock
      → Healthy env
      → length now ≤ env.chunk_size
      → length then_ ≤ length now
      → size + length now < 2 ^ 64
      → incoming w.net ≡ (if stale now then_ then result_message env true else []) ++ more
      → Enough env link w.net
      → (v : U) × (send_if_differs env now offset
            (hash_of now)
            (hash_of then_)
            (length then_)
            size
            w
          ≡ ok (size + (length now - length then_)) (at env link w v))
        × Talk env link
            (if stale now then_ then chunk_message env offset now else [])
            (if stale now then_ then result_message env true else [])
            w.net
            v
  unfolding send_if_differs
  send_if_differs_lem now then_ more offset size w up good n m b i k =
      elim (Bool-cases (stale now then_)) [
        | inl e ↦
            let i' : incoming w.net ≡ result_message env true ++ more = ground arith in
            let (v, run, talk) = send_file_chunk_lem env link now more offset w up good n i' k in
            (v, ground arith, rw (e) talk)
        | inr e ↦
            (w.net, ground arith, rw (e) (sym (append-nil (outgoing w.net)), refl, omega arith))
      ]

  -- What the comparing loop leaves to the last one.
  pub record Compared (w : World U) (front new rest come : List ℕ) (out : List ℕ)
      (m : Program (World U) (Stream × ℕ)) : Type 0 where
    pub net : U
    pub reports : List (ℕ × ℕ)
    pub stream : Stream
    pub read_so_far : List ℕ
    pub run : m w ≡ ok (stream, length read_so_far) (record w { net = net; reports = reports })
    pub reads : Reads w.files stream read_so_far rest
    pub size : length read_so_far + length rest ≡ length front + length new
    pub talk : Talk env link out come w.net net

  pub send_compared_lem :
      (n : ℕ) (reporting : Bool) (total offset size : ℕ) (s : Stream) (front new old more : List ℕ)
      (w : World U)
      → IsUp env link w.sock
      → Healthy env
      → Reads w.files s front new
      → offset ≡ length front
      → size ≡ offset + length old
      → length old ≤ length new
      → length old ≤ n
      → incoming w.net ≡ compared_in env n offset new old ++ more
      → Enough env link w.net
      → Compared w front new
          (beyond env n new old)
          (compared_in env n offset new old)
          (compared_out env n offset new old)
          (send_compared env n reporting total s offset size)
  unfolding send_compared compared_out compared_in beyond
  send_compared_lem zero reporting total offset size s front new [] more w up good r o t l h i k =
      record {
        net = w.net;
        reports = w.reports;
        stream = s;
        read_so_far = front;
        run = ground arith;
        reads = r;
        size = refl;
        talk = (sym (append-nil (outgoing w.net)), refl, omega arith);
      }
  send_compared_lem zero reporting total offset size s front new (y ∷ old) more w up good r o t l h
        i k =
      absurd (omega arith)
  send_compared_lem (suc n) reporting total offset size s front new [] more w up good r o t l h i
        k =
      record {
        net = w.net;
        reports = w.reports;
        stream = s;
        read_so_far = front;
        run = ground arith;
        reads = r;
        size = refl;
        talk = (sym (append-nil (outgoing w.net)), refl, omega arith);
      }
  send_compared_lem (suc n) reporting total offset size s front [] (y ∷ old) more w up good r o t l
        h i k =
      absurd (omega arith)
  send_compared_lem (suc n) reporting total offset size s front (x ∷ new) (y ∷ old) more w up good r
        o t l h i k =
      let now = take env.chunk_size (x ∷ new) in
      let then_ = take env.chunk_size (y ∷ old) in
      let later = drop env.chunk_size (x ∷ new) in
      let older = drop env.chunk_size (y ∷ old) in
      let answer = if stale now then_ then result_message env true else [] in
      let said = if stale now then_ then chunk_message env offset now else [] in
      let come = compared_in env n (offset + length now) later older in
      let pos = good.chunk_pos in
      let bound = r.small in
      let n₁ = length-take env.chunk_size (x ∷ new) in
      let n₂ = length-drop env.chunk_size (x ∷ new) in
      let n₃ = length-append front now in
      let n₄ = length-take env.chunk_size (y ∷ old) in
      let n₅ = length-drop env.chunk_size (y ∷ old) in
      let taken = read_lem env w.files s front (x ∷ new) r (Reads-good w.files s front x new r) in
      let (u₁, run₁, talk₁) =
        send_file_chunk_hash_lem env link now now offset w up refl good.chunk_small k in
      let i₁ =
        Talk-left env link (hash_message env offset now) [] (incoming w.net) w.net u₁ talk₁ refl in
      let i₂ : incoming u₁ ≡ hash_message env offset then_ ++ (answer ++ (come ++ more)) =
        i₁
        ∙ i
        ∙ append_assoc (hash_message env offset then_) (answer ++ come) more
        ∙ ap (λ (l : List ℕ). hash_message env offset then_ ++ l) (append_assoc answer come more) in
      let (u₂, run₂, talk₂) =
        receive_file_chunk_hash_lem env link then_ (answer ++ (come ++ more)) offset
          (at env link w u₁) up (omega arith) (omega arith) good.chunk_small i₂
          (omega (arith, talk₁)) in
      let i₃ =
        Talk-left env link [] (hash_message env offset then_) (answer ++ (come ++ more)) u₁ u₂ talk₂
          i₂ in
      let (u₃, run₃, talk₃) =
        send_if_differs_lem now then_ (come ++ more) offset size (at env link w u₂) up good
          (omega arith) (omega arith) (omega arith) i₃ (omega (arith, talk₁, talk₂)) in
      let i₄ = Talk-left env link said answer (come ++ more) u₂ u₃ talk₃ i₃ in
      let sum : add64 offset (length now) ≡ offset + length now = omega arith in
      let reports' = if reporting then (offset + length now, total) ∷ w.reports else w.reports in
      let last =
        send_compared_lem n reporting total (offset + length now)
          (size + (length now - length then_)) (next_stream env s (x ∷ new)) (front ++ now) later
          older more (record w { net = u₃; reports = reports' }) up good
          (next_stream-Reads env w.files s front (x ∷ new) r) (omega arith) (omega arith)
          (omega arith) (omega arith) i₄ (omega (arith, talk₁, talk₂, talk₃)) in
      let out = compared_out env n (offset + length now) later older in
      let talk₃₄ = Talk-trans env link said out answer come u₂ u₃ last.net talk₃ last.talk in
      let talk₂₄ =
        Talk-trans env link [] (said ++ out) (hash_message env offset then_) (answer ++ come) u₁ u₂
          last.net talk₂ talk₃₄ in
      record {
        net = last.net;
        reports = last.reports;
        stream = last.stream;
        read_so_far = last.read_so_far;
        run =
            send_compared-round env n reporting total offset size (hash_of now) (hash_of then_)
              (length then_) (size + (length now - length then_)) s (next_stream env s (x ∷ new))
              now w (at env link w u₁) (at env link w u₂) (at env link w u₃)
              (lt→ltb offset size (omega arith)) taken run₁ run₂ run₃ sum
            ∙ last.run;
        reads = last.reads;
        size = omega (arith, last.size);
        talk =
            Talk-trans env link (hash_message env offset now) (said ++ out) []
              (hash_message env offset then_ ++ (answer ++ come)) w.net u₁ last.net talk₁ talk₂₄;
      }
