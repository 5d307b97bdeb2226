-- ===== src/Session/ReceiveLoop.antt =====
-- The comparing loop of ReceiveFileChunks in UFT/UFTSession.hpp follows the plan: the file that it
-- leaves is the merged one.
use uft.Prelude.{
  ℕ, zero, suc, ◌+◌, ◌-◌, ◌^◌, ◌≤◌, ◌<◌, ◌≡◌, ◌⊎◌, inl, inr, refl, subst, sym, ap, ◌∙◌, arith, Bool,
  true, false, List, [], ◌∷◌, ◌++◌, append-nil, append_assoc, length, take, drop, length-append,
  length-take, length-drop, if◌then◌else◌, ok, Program, ltb, some,
}
use uft.World.{World, Env}
use uft.Files.{Files, FilePath}
use uft.Session.Receiver.{Progress, receive_compared}
use uft.Session.Exchange.{Healthy, Enough, Talk, Talk-trans, Talk-left, hash_message}
use uft.Session.Plan.{stale, piece-size, merged, compared_out, compared_in}
use uft.Session.Receiving.{Holds, Holds-there, Holds-self, Holds-trans}
use uft.Socket.Delivery.{Link, IsUp}
use uft.Session.ReceiveCompared.{last_or_alike, progress_of}
use uft.Session.ReceiveRound.{receive_compared-stop, Round, receive-Round, answer_to, said_to}

module _ {U : Type 0} (env : Env U) (link : Link env.udt) where
  open link use {queues.{incoming, outgoing, waits}}

  -- After the comparing loop.
  pub record Merged (w : World U) (path : FilePath) (content : List ℕ) (out come : List ℕ)
      (m : Program (World U) (Progress env)) : Type 0 where
    pub net : U
    pub reports : List (ℕ × ℕ)
    pub files : Files
    pub buffer : List ℕ
    pub pos : ℕ
    pub good : Bool
    pub size : ℕ
    pub run :
        m w
        ≡ ok
            (progress_of env buffer path pos good (length content) size)
            (record w { net = net; reports = reports; files = files })
    pub holds : Holds path content w.files files
    pub buffer_eq : length buffer ≡ env.chunk_size
    pub talk : Talk env link out come w.net net

  receive_compared-end :
      (n : ℕ) (reporting : Bool) (total : ℕ) (buffer : List ℕ) (path : FilePath) (pos : ℕ)
      (still : Bool) (offset size : ℕ) (front : List ℕ) (w : World U)
      → offset ≡ length front
      → size ≡ offset + 0
      → length buffer ≡ env.chunk_size
      → w.files path ≡ some (front ++ [])
      → Merged w path (front ++ []) [] [] (
          receive_compared env n reporting total
            (progress_of env buffer path pos still offset size))
  receive_compared-end n reporting total buffer path pos still offset size front w o t b f =
      let at_end : ltb offset size ≡ false = ground arith in
      let offset' : length (front ++ []) ≡ offset = ap length (append-nil front) ∙ sym o in
      record {
        net = w.net;
        reports = w.reports;
        files = w.files;
        buffer = buffer;
        pos = pos;
        good = still;
        size = size;
        run =
            receive_compared-stop env n reporting total
              (progress_of env buffer path pos still offset size) w at_end
            ∙ ap (λ (k : ℕ). ok (progress_of env buffer path pos still k size) w) (sym offset');
        holds = Holds-self path (front ++ []) (front ++ []) w.files f refl;
        buffer_eq = b;
        talk = (sym (append-nil (outgoing w.net)), refl, omega arith);
      }

  Talk-assoc :
      (a b c x y z : List ℕ) (u v : U)
      → Talk env link ((a ++ b) ++ c) ((x ++ y) ++ z) u v
      → Talk env link (a ++ (b ++ c)) (x ++ (y ++ z)) u v
  Talk-assoc a b c x y z u v (p, q, r) = (
    p ∙ ap (λ (l : List ℕ). outgoing u ++ l) (append_assoc a b c),
    q ∙ ap (λ (l : List ℕ). l ++ incoming v) (append_assoc x y z),
    r,
  )

  receive_compared-next :
      (n : ℕ) (reporting : Bool) (total : ℕ) (buffer : List ℕ) (path : FilePath) (pos : ℕ)
      (still : Bool) (offset size : ℕ) (front piece older now then_ rest out come : List ℕ)
      (w : World U)
      → still ≡ true
      → (round : Round env link w reporting total path
          (front ++ (piece ++ older))
          older
          now
          then_
          offset
          (offset + length now)
          (size + (length now - length then_))
          (progress_of env buffer path pos true offset size))
      → Merged
          (record w {
            net = round.net;
            files = round.files;
            reports = if reporting then (offset + length now, total) ∷ w.reports else w.reports;
          })
          path
          ((front ++ piece) ++ rest)
          out
          come
          (receive_compared env n reporting total (
            progress_of env round.buffer path round.pos round.good
              (offset + length now)
              (size + (length now - length then_))))
      → Merged w path
          (front ++ (piece ++ rest))
          (hash_message env offset then_ ++ (answer_to env link now then_ ++ out))
          (hash_message env offset now ++ (said_to env link offset now then_ ++ come))
          (receive_compared env
            (suc n)
            reporting
            total
            (progress_of env buffer path pos still offset size))
  receive_compared-next n reporting total buffer path pos still offset size front piece older now
        then_ rest out come w awake round last =
      let whole = append_assoc front piece rest in
      record {
        net = last.net;
        reports = last.reports;
        files = last.files;
        buffer = last.buffer;
        pos = last.pos;
        good = last.good;
        size = last.size;
        run =
            ap
              (λ (g : Bool).
                receive_compared env (suc n) reporting total
                  (progress_of env buffer path pos g offset size) w)
              awake
            ∙ round.run n
            ∙ last.run
            ∙ ap
                (λ (c : List ℕ).
                  ok (progress_of env last.buffer path last.pos last.good (length c) last.size)
                    (record w { net = last.net; reports = last.reports; files = last.files }))
                whole;
        holds =
            Holds-trans path (front ++ (piece ++ older)) (front ++ (piece ++ rest)) w.files
              round.files last.files round.holds
              (subst (λ (c : List ℕ). Holds path c round.files last.files) whole last.holds);
        buffer_eq = last.buffer_eq;
        talk =
            Talk-assoc (hash_message env offset then_) (answer_to env link now then_) out
              (hash_message env offset now) (said_to env link offset now then_) come w.net last.net
              (Talk-trans env link (hash_message env offset then_ ++ answer_to env link now then_)
                out (hash_message env offset now ++ said_to env link offset now then_) come w.net
                round.net last.net round.talk last.talk);
      }

  pub receive_compared_lem :
      (n : ℕ) (reporting : Bool) (total : ℕ) (buffer : List ℕ) (path : FilePath) (pos : ℕ)
      (still : Bool) (offset size : ℕ) (front new old more : List ℕ) (w : World U)
      → IsUp env link w.sock
      → Healthy env
      → offset ≡ length front
      → size ≡ offset + length old
      → length buffer ≡ env.chunk_size
      → (still ≡ true) ⊎ (old ≡ [])
      → w.files path ≡ some (front ++ old)
      → length old ≤ length new
      → length front + length new < 2 ^ 63
      → length old ≤ n
      → incoming w.net ≡ compared_out env n offset new old ++ more
      → Enough env link w.net
      → Merged w path
          (front ++ merged env n new old)
          (compared_in env n offset new old)
          (compared_out env n offset new old)
          (receive_compared env n reporting total
            (progress_of env buffer path pos still offset size))
  unfolding compared_out compared_in merged
  receive_compared_lem zero reporting total buffer path pos still offset size front new [] more w up
        good o t b g f l m h i k =
      receive_compared-end zero reporting total buffer path pos still offset size front w o t b f
  receive_compared_lem zero reporting total buffer path pos still offset size front new (y ∷ old)
        more w up good o t b g f l m h i k =
      absurd (omega arith)
  receive_compared_lem (suc n) reporting total buffer path pos still offset size front new [] more w
        up good o t b g f l m h i k =
      receive_compared-end (suc n) reporting total buffer path pos still offset size front w o t b f
  receive_compared_lem (suc n) reporting total buffer path pos still offset size front [] (y ∷ old)
        more w up good o t b g f l m h i k =
      absurd (omega arith)
  receive_compared_lem (suc n) reporting total buffer path pos still offset size front (x ∷ new)
        (y ∷ old) more w up good o t b g f l m h i k =
      let now = take env.chunk_size (x ∷ new) in
      let then_ = take env.chunk_size (y ∷ old) in
      let later = drop env.chunk_size (x ∷ new) in
      let older = drop env.chunk_size (y ∷ old) in
      let piece = if stale now then_ then now else then_ in
      let come = compared_out env n (offset + length now) later older in
      let pos' = good.chunk_pos in
      let n₁ = length-take env.chunk_size (x ∷ new) in
      let n₂ = length-drop env.chunk_size (x ∷ new) in
      let n₃ = length-append front piece in
      let n₄ = length-take env.chunk_size (y ∷ old) in
      let n₅ = length-drop env.chunk_size (y ∷ old) in
      let n₆ = piece-size now then_ in
      let awake : still ≡ true = elim g [ inl e ↦ e | inr e ↦ cc ] in
      let said = said_to env link offset now then_ in
      let i₀ =
        i
        ∙ append_assoc (hash_message env offset now) (said ++ come) more
        ∙ ap (λ (l : List ℕ). hash_message env offset now ++ l) (append_assoc said come more) in
      let round =
        receive-Round env link reporting total buffer path pos offset size front (y ∷ old) now
          (come ++ more) w up good (omega arith) (omega arith) (omega arith)
          (last_or_alike env.chunk_size (x ∷ new) (y ∷ old) l) o t (omega arith) b f i₀ k in
      let talk = round.talk in
      let i₁ =
        Talk-left env link (hash_message env offset then_ ++ answer_to env link now then_)
          (hash_message env offset now ++ said) (come ++ more) w.net round.net talk
          (i₀ ∙ sym (append_assoc (hash_message env offset now) said (come ++ more))) in
      let there =
        Holds-there path (front ++ (piece ++ older)) w.files round.files round.holds
        ∙ ap (λ (c : List ℕ). some c) (sym (append_assoc front piece older)) in
      let reports' = if reporting then (offset + length now, total) ∷ w.reports else w.reports in
      let last =
        receive_compared_lem n reporting total round.buffer path round.pos round.good
          (offset + length now) (size + (length now - length then_)) (front ++ piece) later older
          more (record w { net = round.net; files = round.files; reports = reports' }) up good
          (omega arith) (omega arith) round.buffer_eq round.good_or_end there (omega arith)
          (omega arith) (omega arith) i₁ (omega (arith, talk)) in
      receive_compared-next n reporting total buffer path pos still offset size front piece older
        now then_ (merged env n later older) (compared_in env n (offset + length now) later older)
        come w awake round last
