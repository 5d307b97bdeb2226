-- ===== src/Session/ReceiveCompared.antt =====
-- One comparison of ReceiveFileChunks in UFT/UFTSession.hpp: the chunk that is read, and the one that
-- may replace it.
use uft.Prelude.{
  ℕ, ◌+◌, ◌-◌, ◌^◌, ◌≤◌, ◌<◌, ◌≡◌, ◌⊎◌, inl, inr, refl, sym, ap, ◌∙◌, arith, Bool, true, List, [],
  ◌++◌, append-nil, length, take, drop, length-take, take-append, take_all, drop_all, if◌then◌else◌,
  ok, Bool-cases, Program, some,
}
use native.Mathlib.Decide.{dec_le}
use uft.World.{World, Env}
use uft.Files.{Files, FilePath, Stream, overlay, read, seek}
use uft.Files.Content.{overlay-append}
use uft.Session.{add64}
use uft.Session.Receiver.{Progress, receive_if_differs}
use uft.Session.Sender.{differs}
use uft.Session.Sending.{next_stream, read_lem}
use uft.Session.Chunk.{fnv, calculate_file_chunk_hash, checked, overwrite}
use uft.Session.Exchange.{Healthy, Enough, Talk, chunk_message, result_message, hash_of}
use uft.Session.ChunkExchange.{written, receive_file_chunk_lem}
use uft.Session.Plan.{stale, stale-size}
use uft.Session.Receiving.{Holds, Holds-self, Holds-write, content_of_lem, length-overwrite}
use uft.Socket.Delivery.{Link, IsUp}

-- Both sides decide alike.
differs_sym : (a b c d : ℕ) → differs a b c d ≡ differs b a d c
differs_sym a b c d = ground arith

-- A vector's front hashes like the bytes that were copied there.
pub hash-overwrite :
    (xs buffer : List ℕ) → calculate_file_chunk_hash (overwrite xs buffer) (length xs) ≡ hash_of xs
unfolding calculate_file_chunk_hash
hash-overwrite xs buffer =
    ap (λ (l : List ℕ). fnv 0xCBF29CE484222325 l)
      (take-append xs (drop (length xs) buffer) ∙ sym (take_all (length xs) xs (omega arith)))

-- Either both chunks have one size, or the older file ends with its chunk.
pub last_or_alike :
    (n : ℕ) (new old : List ℕ)
    → length old ≤ length new
    → (length (take n old) ≡ length (take n new)) ⊎ (drop n old ≡ [])
last_or_alike n new old h = elim (dec_le n (length old)) [
  | yes m ↦ inl (omega (arith, length-take n old, length-take n new))
  | no m ↦ inr (drop_all n old (omega arith))
]

module _ {U : Type 0} (env : Env U) where
  abbrev pub progress_of : List ℕ → FilePath → ℕ → Bool → ℕ → ℕ → Progress env
  progress_of buffer path pos good offset size = record {
    buffer = buffer;
    stream = record { path = path; pos = pos; good = good };
    offset = offset;
    local_size = size;
  }

  -- The loop reads the receiver's own chunk, from wherever the stream stands.
  pub reread_lem :
      (fs : Files) (path : FilePath) (pos : ℕ) (front old : List ℕ)
      → fs path ≡ some (front ++ old)
      → length front + length old < 2 ^ 63
      → read env.chunk_size fs
          (seek (length front) (record { path = path; pos = pos; good = true }))
        ≡ (
          take env.chunk_size old,
          next_stream env (record { path = path; pos = length front; good = true }) old,
        )
  reread_lem fs path pos front old f h =
      let s₀ : Stream = record { path = path; pos = length front; good = true } in
      let moved : seek (length front) (record { path = path; pos = pos; good = true }) ≡ s₀ =
        ground arith in
      ap (λ (s : Stream). read env.chunk_size fs s) moved
      ∙ read_lem env fs s₀ front old
          (record {
            content_eq = content_of_lem fs path (front ++ old) f;
            pos_eq = refl;
            good_or_end = inl refl;
            small = h;
          })
          refl

module _ {U : Type 0} (env : Env U) (link : Link env.udt) where
  open link use {queues.{incoming, outgoing, waits}}

  -- After the chunk that was compared: what stands in the file, and where the loop goes on.
  pub record Patched (w : World U) (path : FilePath) (content older : List ℕ) (offset size : ℕ)
      (out come : List ℕ) (m : Program (World U) (Progress env)) : Type 0 where
    pub net : U
    pub files : Files
    pub buffer : List ℕ
    pub pos : ℕ
    pub good : Bool
    pub run :
        m w
        ≡ ok
            (progress_of env buffer path pos good offset size)
            (record w { net = net; files = files })
    pub holds : Holds path content w.files files
    pub buffer_eq : length buffer ≡ env.chunk_size
    pub good_or_end : (good ≡ true) ⊎ (older ≡ [])
    pub talk : Talk env link out come w.net net

  pub receive_if_differs_lem :
      (now then_ front older more buffer : List ℕ) (path : FilePath) (pos : ℕ) (still : Bool)
      (offset size : ℕ) (w : World U)
      → IsUp env link w.sock
      → Healthy env
      → length now ≤ env.chunk_size
      → length then_ ≤ length now
      → (length then_ ≡ length now) ⊎ (older ≡ [])
      → offset ≡ length front
      → offset < 2 ^ 63
      → size < 2 ^ 63
      → length buffer ≡ env.chunk_size
      → (still ≡ true) ⊎ (older ≡ [])
      → w.files path ≡ some (front ++ (then_ ++ older))
      → incoming w.net ≡ (if stale now then_ then chunk_message env offset now else []) ++ more
      → Enough env link w.net
      → Patched w path
          (front ++ ((if stale now then_ then now else then_) ++ older))
          older
          (offset + length now)
          (size + (length now - length then_))
          (if stale now then_ then result_message env true else [])
          (if stale now then_ then chunk_message env offset now else [])
          (receive_if_differs env
            (progress_of env buffer path pos still offset size)
            (length then_)
            (hash_of then_)
            (hash_of now)
            (length now))
  unfolding receive_if_differs
  receive_if_differs_lem now then_ front older more buffer path pos still offset size w up good n m
        d o o' z b g f i k =
      let sum : add64 offset (length now) ≡ offset + length now = omega (arith, good.chunk_small) in
      let alike = differs_sym (length then_) (length now) (hash_of then_) (hash_of now) in
      let s : Stream = record { path = path; pos = pos; good = still } in
      let same =
        Holds-self path (front ++ (then_ ++ older)) (front ++ (then_ ++ older)) w.files f refl in
      elim (Bool-cases (stale now then_)) [
        | inl e ↦
            let i' : incoming w.net ≡ chunk_message env offset now ++ more = ground arith in
            let (v, run, talk) =
              receive_file_chunk_lem env link checked now more buffer offset s w up good n b o'
                (λ e'. cc) i' k in
            record {
              net = v;
              files = written env link w s offset now;
              buffer = overwrite now buffer;
              pos = offset + length now;
              good = true;
              run = ground arith;
              holds = rw (e) (
                  Holds-write path (front ++ (then_ ++ older)) (front ++ (now ++ older)) w.files
                    w.files offset now same
                    (ap (λ (k : ℕ). overlay (front ++ (then_ ++ older)) k now) o
                      ∙ overlay-append front then_ older now m d));
              buffer_eq = length-overwrite now buffer (omega arith) ∙ b;
              good_or_end = inl refl;
              talk = rw (e) talk;
            }
        | inr e ↦
            let sizes = stale-size now then_ e in
            let size' : size + (length now - length then_) ≡ size = omega arith in
            record {
              net = w.net;
              files = w.files;
              buffer = buffer;
              pos = pos;
              good = still;
              run = ground arith;
              holds = rw (e) same;
              buffer_eq = b;
              good_or_end = g;
              talk = rw (e) (sym (append-nil (outgoing w.net)), refl, omega arith);
            }
      ]
